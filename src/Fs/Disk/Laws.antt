-- ===== src/Fs/Disk/Laws.antt =====
-- What the register writes spell, and the transfers that go through.
use deprecat_os.Prelude.{
  ℕ, ◌+◌, ◌-◌, ◌*◌, ◌/◌, ◌%◌, ◌^◌, ◌≤◌, ◌<◌, ◌≡◌, ◌≢◌, ◌⊎◌, ◌&&◌, some, ◌==◌, ltb, leb,
  if◌then◌else◌, arith, le→ltb, ap, fun_ext, ◌∙◌,
}
use deprecat_os.Fs.Bytes.{Bytes}
use deprecat_os.Fs.Disk.{
  Drive, Drives, command, lba_of, count_of, transfer_in, transfer_out, select, update, ata_read48,
  ata_write48, ata_read48_part, ata_write48_part, ata_master, ata_slave,
}

-- For every 48-bit address and 16-bit count the register writes of a transfer spell the address
-- and the count.
pub command_spells :
    (lba count : ℕ)
    → lba < 2 ^ 48
    → count < 2 ^ 16
    → (lba_of (command lba count) ≡ lba) × (count_of (command lba count) ≡ count)
unfolding command lba_of count_of
command_spells lba count h k = omega arith

-- The drive that a partition lies on.
abbrev pub drive_of : Drives → ℕ → Drive
drive_of ds drive = if drive == ata_master then ds.master_drive else ds.slave_drive

-- The partition of `len` sectors from `base` on lies inside a drive whose addresses have 48 bits.
pub record OnDrive (ds : Drives) (drive base len : ℕ) : Type 0 where
  pub named : (drive ≡ ata_master) ⊎ (drive ≡ ata_slave)
  pub inside : base + len ≤ (drive_of ds drive).lba_sector_count
  pub small : base + len < 2 ^ 48

-- `count` sectors from `lba` on, as a buffer.
unfoldable pub span : Drives → ℕ → ℕ → ℕ → Bytes
span ds drive lba count k =
    if ltb k (count * 512) then (drive_of ds drive).sector (lba + k / 512) (k % 512) else 0

-- The drives with `buf` in the `count` sectors from `lba` on.
pub stored : Drives → ℕ → ℕ → ℕ → Bytes → Drives
unfolding update
stored ds drive lba count buf = update ds drive (record (drive_of ds drive) {
  sector = λ l k.
      if leb lba l && ltb l (lba + count) && ltb k 512
      then buf ((l - lba) * 512 + k)
      else (drive_of ds drive).sector l k;
})

select-drive_of :
    (ds : Drives) (drive : ℕ)
    → (drive ≡ ata_master) ⊎ (drive ≡ ata_slave)
    → select ds drive ≡ some (drive_of ds drive)
unfolding select
select-drive_of ds drive h = ground arith

module _ (ds : Drives) (drive lba count : ℕ) (named : (drive ≡ ata_master) ⊎ (drive ≡ ata_slave))
    (inside : lba + count ≤ (drive_of ds drive).lba_sector_count) (few : count < 2 ^ 16)
    (small : lba + count < 2 ^ 48) where
  spelt : (lba_of (command lba count) ≡ lba) × (count_of (command lba count) ≡ count)
  spelt = command_spells lba count (omega arith) few

  on_disk : (lba + count) % 2 ^ 64 ≤ (drive_of ds drive).lba_sector_count
  on_disk = omega arith

  pub read48_ok : (buf : Bytes) → ata_read48 ds drive lba count buf ≡ some (span ds drive lba count)
  unfolding ata_read48 transfer_in span
  read48_ok buf =
      rw (select-drive_of ds drive named, ata_read48, le→ltb _ _ on_disk)
        (ap some (fun_ext (λ k. rw (spelt.0, transfer_in, spelt.1))))

  pub write48_ok :
      (buf : Bytes) → ata_write48 ds drive lba count buf ≡ some (stored ds drive lba count buf)
  unfolding ata_write48 transfer_out stored
  write48_ok buf =
      rw (select-drive_of ds drive named, ata_write48, le→ltb _ _ on_disk)
        (ap (λ (r : ℕ → Bytes). some (update ds drive (record (drive_of ds drive) { sector = r })))
          (fun_ext (λ l. fun_ext (λ k. rw (spelt.0, spelt.1)))))

module _ {ds : Drives} {drive base len : ℕ} (p : OnDrive ds drive base len) (lba count : ℕ)
    (within : lba + count ≤ len) (few : count < 2 ^ 16) where
  in_part : (lba + count) % 2 ^ 64 ≤ len
  in_part = omega arith

  wide : (base + lba) % 2 ^ 64 ≡ base + lba
  wide = omega arith

  pub read_part :
      (buf : Bytes)
      → ata_read48_part ds drive base len lba count buf ≡ some (span ds drive (base + lba) count)
  unfolding ata_read48_part
  read_part buf = rw (le→ltb len _ in_part) (
      ap (λ a. ata_read48 ds drive a count buf) wide
      ∙ read48_ok ds drive (base + lba) count p.named (omega arith) few (omega arith) buf)

  pub write_part :
      (buf : Bytes)
      → ata_write48_part ds drive base len lba count buf
        ≡ some (stored ds drive (base + lba) count buf)
  unfolding ata_write48_part
  write_part buf = rw (le→ltb len _ in_part) (
      ap (λ a. ata_write48 ds drive a count buf) wide
      ∙ write48_ok ds drive (base + lba) count p.named (omega arith) few (omega arith) buf)

-- A sector outside the written ones, or another drive's, stays.
pub stored-sector :
    (ds : Drives) (drive lba count : ℕ) (buf : Bytes) (l k : ℕ)
    → (drive_of (stored ds drive lba count buf) drive).sector l k ≡ (
        if leb lba l && ltb l (lba + count) && ltb k 512
        then buf ((l - lba) * 512 + k)
        else (drive_of ds drive).sector l k)
unfolding stored update
stored-sector ds drive lba count buf l k = ground arith

pub stored-elsewhere :
    (ds : Drives) (drive lba count : ℕ) (buf : Bytes) (d l k : ℕ)
    → ((d == ata_master) ≢ (drive == ata_master)) ⊎ (l < lba) ⊎ (lba + count ≤ l)
    → (drive_of (stored ds drive lba count buf) d).sector l k ≡ (drive_of ds d).sector l k
unfolding stored update
stored-elsewhere ds drive lba count buf d l k h = ground arith

pub stored-OnDrive :
    {ds : Drives} {drive base len : ℕ} (lba count : ℕ) (buf : Bytes)
    → OnDrive ds drive base len
    → OnDrive (stored ds drive lba count buf) drive base len
unfolding stored update
stored-OnDrive lba count buf p = ground arith
