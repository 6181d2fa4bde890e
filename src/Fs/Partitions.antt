-- ===== src/Fs/Partitions.antt =====
-- `read_mbr` of kernel/drivers/disk/partition.c, and `block_init` of
-- kernel/fs/block/blockController.c with `fill_partition_entry`: the table of file systems filled
-- from the partitions of the two drives. Messages are left out; `none` is a kernel panic, or a
-- division by 0. The pointer to a superblock is left out: an entry without one has no sectors.
use deprecat_os.Prelude.{
  ℕ, zero, suc, ◌+◌, ◌-◌, ◌*◌, ◌/◌, ◌%◌, ◌^◌, bit_and, Bool, true, false, not, ◌&&◌, ◌||◌, Option,
  none, some, [], ◌∷◌, ◌==◌, ltb, if◌then◌else◌, case_option,
}
use deprecat_os.Fs.Bytes.{Bytes, get16, get32}
use deprecat_os.Fs.Disk.{ata_master, ata_slave, select, ata_read48, ata_read48_part}
use deprecat_os.Fs.Volume.{FsInfo, sectors_per_blk, bgdt_blk_n, block_cnt}
use deprecat_os.Fs.Mount.{max_mounts, fs_info_label_len, same_label}
use deprecat_os.Fs.Mount.Table.{
  Mounted, S, pure, panic, ◌>>=◌, ◌>>◌, get_system, set_system, with_entry,
}
use deprecat_os.Fs.Mounting.{vol_name}
use deprecat_os.Fs.Path.Spell.{text}

-- DRIVE_UNUSED_SIZE and PARTS_PER_DRIVE
abbrev pub drive_unused_size : ℕ
drive_unused_size = 446

abbrev pub parts_per_drive : ℕ
parts_per_drive = 4

-- The sector 0 of a drive; `supports_read48` says of a drive what its identification found.
unfoldable pub read_mbr : (ℕ → Bool) → ℕ → S (Option Bytes)
unfolding ata_read48
read_mbr supports_read48 drive s =
    if supports_read48 drive
    then case_option (ata_read48 s.drives drive 0 1 (λ _. 0)) none (λ buf. some (some buf, s))
    else some (none, s)

abbrev pub part_at : ℕ → ℕ
part_at part = drive_unused_size + 16 * (part % parts_per_drive)

-- `part_good`, and what lies at PART_LBA_OFFSET and PART_SECTOR_COUNT_OFFSET
abbrev pub part_good : Bytes → ℕ → ℕ
part_good mbr part = mbr (part_at part + 4)

abbrev pub part_lba : Bytes → ℕ → ℕ
part_lba mbr part = get32 mbr (part_at part + 8)

abbrev pub part_sectors : Bytes → ℕ → ℕ
part_sectors mbr part = get32 mbr (part_at part + 12)

abbrev pub set_entry : ℕ → Mounted → S (Unit {0})
set_entry part e s = set_system (with_entry s part e) s

-- The entry is skipped: it has no sectors.
abbrev pub skip_entry : ℕ → Mounted → S Bool
skip_entry part e =
    set_entry part (record e { info = record e.info { sector_count = 0 } }) >> pure true

-- Sectors of the partition of an entry.
abbrev pub read_part : FsInfo → ℕ → ℕ → Bytes → S Bytes
read_part fs lba count buf s =
    case_option (ata_read48_part s.drives fs.drive fs.start_lba fs.sector_count lba count buf) none
      (λ b. some (b, s))

-- A superblock with blocks of 4096 bytes and no feature that is not supported. The shift is one of
-- the processor, which counts modulo 32.
abbrev pub is_supported : Bytes → Bool
is_supported super =
    get16 super 56 == 61267
    && 1024 * 2 ^ (get32 super 24 % 32) % 2 ^ 32 == 4096
    && bit_and (get32 super 96) 4294967293 == 0
    && bit_and (get32 super 100) 4294967292 == 0

-- The name of the volume and a NUL.
abbrev pub label_of : Mounted → Bytes
label_of e k =
    if ltb k 16 then vol_name e k else if k == fs_info_label_len - 1 then 0 else e.label k

-- The fields that follow from the superblock, and the descriptors of the groups.
unfoldable pub fill_fields : ℕ → Mounted → Bytes → S Bool
unfolding get16 get32
fill_fields part e descriptors =
    let super = e.info.sprblk_buf in
    let per_grp = get32 super 32 in
    let info : FsInfo = record e.info {
      bgdt_buf = descriptors;
      inodes_per_grp = get32 super 40;
      blks_per_grp = per_grp;
      inode_size = get16 super 88;
      ngroups = (block_cnt e.info + per_grp + 4294967295) % 2 ^ 32 / per_grp;
    } in
    if per_grp == 0
    then panic
    else set_entry part (record e { info = info; label = label_of e }) >> pure true

-- A partition inside the drive.
unfoldable pub fill_found : ℕ → Mounted → S Bool
unfolding ata_read48_part fill_fields
fill_found part e = do
  super ← read_part e.info 2 2 e.info.sprblk_buf
  let e' : Mounted = record e { info = record e.info { sprblk_buf = super } }
  if not (is_supported super) then skip_entry part e' else do
    descriptors ← read_part e.info (bgdt_blk_n * sectors_per_blk) sectors_per_blk e.info.bgdt_buf
    fill_fields part e' descriptors

-- A partition of the type 0x83.
unfoldable pub fill_linux : ℕ → ℕ → Bytes → S Bool
unfolding fill_found select get32
fill_linux drive part mbr = do
  s ← get_system
  let e : Mounted = s.entries part
  let e' : Mounted = record e {
    info = record e.info {
      drive = drive;
      start_lba = part_lba mbr part;
      sector_count = part_sectors mbr part;
    };
  }
  let size = case_option (select s.drives drive) 0 (λ d. d.lba_sector_count)
  if part_sectors mbr part == 0 || ltb size (part_lba mbr part + part_sectors mbr part)
      then skip_entry part e'
      else fill_found part e'

unfoldable pub fill_partition_entry : (ℕ → Bool) → ℕ → ℕ → S Bool
unfolding read_mbr fill_linux
fill_partition_entry supports_read48 drive part = do
  found ← read_mbr supports_read48 drive
  let bad : S Bool = if drive == ata_master then panic else pure false
  case_option found bad (λ mbr.
      if not (mbr 510 == 85) || not (mbr 511 == 170)
      then bad
      else if part_good mbr part == 131
      then fill_linux drive part mbr
      else pure true)

-- The loop over the entries, `left` of them from `part` on.
unfoldable pub fill_loop : (ℕ → Bool) → ℕ → ℕ → S (Unit {0})
unfolding fill_partition_entry
fill_loop supports_read48 zero part = pure tt
fill_loop supports_read48 (suc left) part = do
  let drive = if part / parts_per_drive == 0 then ata_master else ata_slave
  more ← fill_partition_entry supports_read48 drive part
  if more then fill_loop supports_read48 left (part + 1) else pure tt

-- "deprecatOS"
abbrev pub root_label : Bytes
root_label = text (100 ∷ 101 ∷ 112 ∷ 114 ∷ 101 ∷ 99 ∷ 97 ∷ 116 ∷ 79 ∷ 83 ∷ [])

-- The loop that looks for the root, `left` entries from `part` on.
unfoldable pub find_root : (ℕ → Mounted) → ℕ → ℕ → Option ℕ
unfolding same_label
find_root entries zero part = none
find_root entries (suc left) part =
    let rest = find_root entries left (part + 1) in
    let e : Mounted = entries part in
    if not (e.info.sector_count == 0) && same_label fs_info_label_len e.label root_label 0
    then some part
    else rest

unfoldable pub block_init : (ℕ → Bool) → S (Unit {0})
unfolding fill_loop find_root
block_init supports_read48 = do
  fill_loop supports_read48 max_mounts 0
  s ← get_system
  case_option (find_root s.entries max_mounts 0) panic
      (λ root. set_system (record s { root_fs = root }))
