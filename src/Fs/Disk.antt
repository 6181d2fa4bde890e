-- ===== src/Fs/Disk.antt =====
-- kernel/drivers/disk/ata.c: the transfers of whole sectors, with their bounds checks. A drive
-- that carries out a command is not code of this repository: it stands for its sectors, and for
-- the address and the count that the eight register writes of a command spell. Status polling
-- is left out: the drive becomes ready and reports no error. `none` is a kernel panic.
pub mod Laws
use deprecat_os.Prelude.{
  ℕ, ◌+◌, ◌-◌, ◌*◌, ◌/◌, ◌%◌, ◌^◌, Bool, true, false, ◌&&◌, Option, none, some, ◌==◌, ltb, leb,
  if◌then◌else◌,
}
use deprecat_os.Fs.Bytes.{Bytes}

abbrev pub ata_master : ℕ
ata_master = 0xA0

abbrev pub ata_slave : ℕ
ata_slave = 0xB0

abbrev pub bytes_per_sector : ℕ
bytes_per_sector = 512

-- The part of `struct ata_drive` that the transfers read, and the sectors of the drive.
pub record Drive : Type 0 where
  pub lba_sector_count : ℕ
  pub sector : ℕ → Bytes

-- `master_drive` and `slave_drive`
pub record Drives : Type 0 where
  pub master_drive : Drive
  pub slave_drive : Drive

-- What a command writes to the sector count and address ports, first the high halves.
pub record Command : Type 0 where
  pub count_hi : ℕ
  pub lo_hi : ℕ
  pub mid_hi : ℕ
  pub hi_hi : ℕ
  pub count_lo : ℕ
  pub lo : ℕ
  pub mid : ℕ
  pub hi : ℕ

-- The register writes; `outb` sends the low eight bits.
unfoldable pub command : ℕ → ℕ → Command
command lba count = record {
  count_hi = count / 2 ^ 8 % 256;
  lo_hi = lba / 2 ^ 24 % 256;
  mid_hi = lba / 2 ^ 32 % 256;
  hi_hi = lba / 2 ^ 40 % 256;
  count_lo = count % 256;
  lo = lba % 256;
  mid = lba / 2 ^ 8 % 256;
  hi = lba / 2 ^ 16 % 256;
}

-- The 48-bit address and the 16-bit count that a drive reads from them (ATA, READ/WRITE EXT).
unfoldable pub lba_of : Command → ℕ
lba_of c =
    c.lo + 2 ^ 8 * c.mid + 2 ^ 16 * c.hi + 2 ^ 24 * c.lo_hi + 2 ^ 32 * c.mid_hi + 2 ^ 40 * c.hi_hi

unfoldable pub count_of : Command → ℕ
count_of c = c.count_lo + 2 ^ 8 * c.count_hi

-- The drive's side of a read: its sectors one after the other into a buffer.
unfoldable pub transfer_in : Drive → Command → Bytes
transfer_in d c k =
    if ltb k (count_of c * bytes_per_sector)
    then d.sector (lba_of c + k / bytes_per_sector) (k % bytes_per_sector)
    else 0

-- The drive's side of a write.
unfoldable pub transfer_out : Drive → Command → Bytes → Drive
transfer_out d c buf = record d {
  sector = λ l k.
      if leb (lba_of c) l && ltb l (lba_of c + count_of c) && ltb k bytes_per_sector
      then buf ((l - lba_of c) * bytes_per_sector + k)
      else d.sector l k;
}

unfoldable pub select : Drives → ℕ → Option Drive
select ds drive =
    if drive == ata_master
    then some ds.master_drive
    else if drive == ata_slave
    then some ds.slave_drive
    else none

-- A drive that is neither leaves the buffer as it was.
unfoldable pub ata_read48 : Drives → ℕ → ℕ → ℕ → Bytes → Option Bytes
unfolding select
ata_read48 ds drive lba count buf = elim (select ds drive) [
  | none ↦ some buf
  | some d ↦
      if ltb d.lba_sector_count ((lba + count) % 2 ^ 64)
      then none
      else some (transfer_in d (command lba count))
]

unfoldable pub update : Drives → ℕ → Drive → Drives
update ds drive d =
    if drive == ata_master then record ds { master_drive = d } else record ds { slave_drive = d }

unfoldable pub ata_write48 : Drives → ℕ → ℕ → ℕ → Bytes → Option Drives
unfolding select update
ata_write48 ds drive lba count buf = elim (select ds drive) [
  | none ↦ some ds
  | some d ↦
      if ltb d.lba_sector_count ((lba + count) % 2 ^ 64)
      then none
      else some (update ds drive (transfer_out d (command lba count) buf))
]

unfoldable pub ata_read48_part : Drives → ℕ → ℕ → ℕ → ℕ → ℕ → Bytes → Option Bytes
ata_read48_part ds drive base_lba part_len lba count buf =
    if ltb part_len ((lba + count) % 2 ^ 64)
    then none
    else ata_read48 ds drive ((base_lba + lba) % 2 ^ 64) count buf

unfoldable pub ata_write48_part : Drives → ℕ → ℕ → ℕ → ℕ → ℕ → Bytes → Option Drives
ata_write48_part ds drive base_lba part_len lba count buf =
    if ltb part_len ((lba + count) % 2 ^ 64)
    then none
    else ata_write48 ds drive ((base_lba + lba) % 2 ^ 64) count buf
