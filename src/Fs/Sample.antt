-- ===== src/Fs/Sample.antt =====
-- A volume to run the file system on: a group of 32 blocks and 8 inodes on a slave drive, whose
-- partition starts at sector 64. In each bitmap the item 3 is the only free one.
use deprecat_os.Prelude.{
  ℕ, zero, suc, ◌/◌, ◌%◌, ◌≤◌, ◌<◌, ◌≡◌, ◌∙◌, refl, sym, ap, ◌⊎◌, inl, inr, ◌&&◌, ◌||◌, none, some,
  arith, ◌==◌, ltb, if◌then◌else◌, Bool-cases,
}
use deprecat_os.Bits.{bit}
use deprecat_os.Fs.Bytes.{Bytes, get16, get32}
use deprecat_os.Fs.Disk.{
  transfer_in, transfer_out, select, ata_read48, ata_write48, ata_read48_part, ata_write48_part,
  command, lba_of, count_of,
}
use deprecat_os.Fs.Disk.Laws.{span}
use deprecat_os.Fs.Volume.{Volume, read_block, write_block, write_super, block_cnt, super_block_num}
use deprecat_os.Fs.Volume.Laws.{IsMounted, block}
use deprecat_os.Fs.Bitmap.{
  block_kind, inode_kind, bitmap_addr, unalloc_cnt, alloc_block, scan_bytes, find_group, take_in,
  count_down, flush, scan_bits, block_from,
}
use deprecat_os.Fs.Bitmap.Bit.{used}
use deprecat_os.Fs.Bitmap.Count.{free_items}
use deprecat_os.Fs.Bitmap.Change.{IsSound}
use deprecat_os.Fs.Bitmap.Undo.{IsNumbered}

-- Descriptor 0: block bitmap at 2, inode bitmap at 3, inode table at 4, one block and one inode left.
abbrev descriptors : Bytes
descriptors k =
    if k == 0
    then 2
    else if k == 4
    then 3
    else if k == 8
    then 4
    else if k == 12
    then 1
    else if k == 14
    then 1
    else 0

-- 8 inodes, 32 blocks, one of each left, and the first block is number 1.
abbrev superblock : Bytes
superblock k =
    if k == 0
    then 8
    else if k == 4
    then 32
    else if k == 12
    then 1
    else if k == 16
    then 1
    else if k == 20
    then 1
    else 0

-- Sectors 80 to 95 hold the two bitmaps, 104 and 112 two tables of block numbers.
abbrev content : ℕ → Bytes
content l k =
    if l == 104 && k == 8
    then 9
    else if l == 112 && k == 0
    then 5
    else if (l == 80 || l == 88) && k == 0
    then 247
    else if ltb l 96
    then 255
    else 0

abbrev pub volume : Volume
volume = record {
  fs = record {
    bgdt_buf = descriptors;
    sprblk_buf = superblock;
    drive = 176;
    start_lba = 64;
    sector_count = 256;
    inode_size = 128;
    inodes_per_grp = 32768;
    blks_per_grp = 32;
    ngroups = 1;
  };
  drives = record {
    master_drive = record { lba_sector_count = 0; sector = λ _ _. 0 };
    slave_drive = record { lba_sector_count = 320; sector = content };
  };
}

pub mounted : IsMounted volume
mounted = record {
  on_drive = record { named = inr refl; inside = omega arith; small = omega arith };
  short = omega arith;
}

one_free :
    (b : Bytes) (n : ℕ)
    → n ≤ 32768
    → ((j : ℕ) → j < 32768 → used b j ≡ (if j == 3 then 0 else 1))
    → free_items b n ≡ (if ltb 3 n then 1 else 0)
unfolding free_items
one_free b zero l h = refl
one_free b (suc n) l h = ground (arith, one_free b n (omega arith) h, h n (omega arith))

below_eight :
    (P : ℕ → Type 0) → P 0 → P 1 → P 2 → P 3 → P 4 → P 5 → P 6 → P 7 → (x : ℕ) → x < 8 → P x
below_eight P a b c d e f g h zero l = a
below_eight P a b c d e f g h (suc zero) l = b
below_eight P a b c d e f g h (suc (suc zero)) l = c
below_eight P a b c d e f g h (suc (suc (suc zero))) l = d
below_eight P a b c d e f g h (suc (suc (suc (suc zero)))) l = e
below_eight P a b c d e f g h (suc (suc (suc (suc (suc zero))))) l = f
below_eight P a b c d e f g h (suc (suc (suc (suc (suc (suc zero)))))) l = g
below_eight P a b c d e f g h (suc (suc (suc (suc (suc (suc (suc zero))))))) l = h
below_eight P a b c d e f g h (suc (suc (suc (suc (suc (suc (suc (suc x)))))))) l =
    absurd (omega arith)

bits_255 : (x : ℕ) → x < 8 → bit 255 x ≡ 1
unfolding bit
bits_255 = below_eight (λ x. bit 255 x ≡ 1) refl refl refl refl refl refl refl refl

bits_247 : (x : ℕ) → x < 8 → bit 247 x ≡ (if x == 3 then 0 else 1)
unfolding bit
bits_247 =
    below_eight (λ x. bit 247 x ≡ (if x == 3 then 0 else 1)) refl refl refl refl refl refl refl refl

block_byte :
    (n i : ℕ) → i < 4096 → (n ≡ 2) ⊎ (n ≡ 3) → block volume n i ≡ (if i == 0 then 247 else 255)
unfolding span
block_byte n i h e = ground arith

map_bits :
    (n j : ℕ) → (n ≡ 2) ⊎ (n ≡ 3) → j < 32768 → used (block volume n) j ≡ (if j == 3 then 0 else 1)
map_bits n j e h = elim (Bool-cases (j / 8 == 0)) [
  | inl low ↦
      let b : block volume n (j / 8) ≡ 247 = ground (arith, block_byte n (j / 8) (omega arith) e) in
      let small : j % 8 ≡ j = ground arith in rw (b, small) (bits_247 j (omega arith))
  | inr high ↦
      let b : block volume n (j / 8) ≡ 255 = ground (arith, block_byte n (j / 8) (omega arith) e) in
      rw b (bits_255 (j % 8) (omega arith) ∙ ground arith)
]

first_group : (g : ℕ) → g < 1 → g ≡ 0
first_group g h = omega arith

addr_2 : bitmap_addr block_kind volume.fs 0 ≡ 2
unfolding get32
addr_2 = refl

addr_3 : bitmap_addr inode_kind volume.fs 0 ≡ 3
unfolding get32
addr_3 = refl

count_1 : unalloc_cnt block_kind volume.fs 0 ≡ 1
unfolding get16
count_1 = refl

count_1' : unalloc_cnt inode_kind volume.fs 0 ≡ 1
unfolding get16
count_1' = refl

pub volume-IsSound : IsSound block_kind 4096 volume
volume-IsSound = record {
  mounted = mounted;
  room = omega arith;
  fits = λ g h. let e = first_group g h in rw (e, addr_2) (omega arith);
  behind = λ g h. let e = first_group g h in rw (e, addr_2) (omega arith);
  distinct = λ g h p q ne. absurd (ne (omega arith));
  counted = λ g h.
      let e = first_group g h in
      rw (e, addr_2, count_1)
        (sym (one_free (block volume 2) 32768 (omega arith) (λ j p. map_bits 2 j (inl refl) p)));
}

pub volume-IsSound_inodes : IsSound inode_kind 4096 volume
volume-IsSound_inodes = record {
  mounted = mounted;
  room = omega arith;
  fits = λ g h. let e = first_group g h in rw (e, addr_3) (omega arith);
  behind = λ g h. let e = first_group g h in rw (e, addr_3) (omega arith);
  distinct = λ g h p q ne. absurd (ne (omega arith));
  counted = λ g h.
      let e = first_group g h in
      rw (e, addr_3, count_1')
        (sym (one_free (block volume 3) 32768 (omega arith) (λ j p. map_bits 3 j (inr refl) p)));
}

-- What `alloc_block` returns here.
abbrev pub allocated : ℕ × Volume
allocated = elim (alloc_block volume) [ none ↦ (0, volume) | some r ↦ r ]

pub alloc_runs : alloc_block volume ≡ some allocated
unfolding alloc_block block_from find_group take_in scan_bytes scan_bits flush count_down get16
    get32 read_block write_block write_super ata_read48_part ata_write48_part ata_read48 ata_write48
    select transfer_in transfer_out count_of command lba_of
alloc_runs = refl

pub number_4 : allocated.0 ≡ 4
unfolding alloc_block block_from find_group take_in scan_bytes scan_bits flush count_down get16
    get32 read_block write_block write_super ata_read48_part ata_write48_part ata_read48 ata_write48
    select transfer_in transfer_out count_of command lba_of
number_4 = refl

block_cnt_32 : block_cnt volume.fs ≡ 32
unfolding get32
block_cnt_32 = refl

first_block_1 : super_block_num volume.fs ≡ 1
unfolding get32
first_block_1 = refl

pub volume-IsNumbered : IsNumbered volume
unfolding get32
volume-IsNumbered = record {
  group_size = (omega arith, omega arith);
  small = (omega arith, omega arith);
  inside = λ g i p q free.
      let e = first_group g p in
      let used_i : used (block volume 2) i ≡ 0 =
        ap (λ x. used (block volume x) i) (sym (ap (bitmap_addr block_kind volume.fs) e ∙ addr_2))
        ∙ free in
      let third : i ≡ 3 = ground (arith, map_bits 2 i (inl refl) q) in
      (
        omega arith,
        omega (arith, first_block_1),
        omega (arith, first_block_1, block_cnt_32, e, third),
      );
}
