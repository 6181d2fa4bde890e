-- ===== src/Fs/Volume.antt =====
-- kernel/fs/block/blockController.h and .c: `struct fs_info` with the drives that it reads and
-- writes, the superblock and group descriptor fields, and the transfer of whole blocks.
-- Operations run on a `Volume`; `none` is a kernel panic.
pub mod Laws
pub mod Keeps
use deprecat_os.Prelude.{
  ℕ, ◌+◌, ◌*◌, ◌/◌, ◌%◌, ◌^◌, Bool, true, false, Option, none, some, ◌==◌, if◌then◌else◌,
}
use deprecat_os.Fs.Bytes.{Bytes, get16, get32, set16, set32}
use deprecat_os.Fs.Disk.{Drives, ata_read48_part, ata_write48_part}

abbrev pub block_size : ℕ
block_size = 4096

abbrev pub sectors_per_blk : ℕ
sectors_per_blk = 8

-- `bgdt_blk_n`
abbrev pub bgdt_blk_n : ℕ
bgdt_blk_n = 1

-- `bgdt` and `superblk` point into the two buffers; `drive` is the drive's `identify_magic`.
-- The buffers are apart from the other fields here; in C `bgdt_buf` has 4096 bytes, 128 descriptors,
-- and an access behind them would reach the fields that follow it.
pub record FsInfo : Type 0 where
  pub bgdt_buf : Bytes
  pub sprblk_buf : Bytes
  pub drive : ℕ
  pub start_lba : ℕ
  pub sector_count : ℕ
  pub inode_size : ℕ
  pub inodes_per_grp : ℕ
  pub blks_per_grp : ℕ
  pub ngroups : ℕ

pub record Volume : Type 0 where
  pub fs : FsInfo
  pub drives : Drives

abbrev pub M : Type 0 → Type 0
M A = Volume → Option (A × Volume)

abbrev pub pure : {A : Type 0} → A → M A
pure a v = some (a, v)

abbrev pub panic : {A : Type 0} → M A
panic v = none

infixl 5 ◌>>=◌ ◌>>◌
abbrev pub ◌>>=◌ : {A B : Type 0} → M A → (A → M B) → M B
◌>>=◌ m f v = elim (m v) [ none ↦ none | some (a, v') ↦ f a v' ]

abbrev pub ◌>>◌ : {A B : Type 0} → M A → M B → M B
m >> k = m >>= λ _. k

-- The fields of `struct ext2_block_group_descriptor` number `g`, by their offsets.
abbrev pub block_bitmap_addr : FsInfo → ℕ → ℕ
block_bitmap_addr fs g = get32 fs.bgdt_buf (32 * g)

abbrev pub inode_bitmap_addr : FsInfo → ℕ → ℕ
inode_bitmap_addr fs g = get32 fs.bgdt_buf (32 * g + 4)

abbrev pub inode_table_start_addr : FsInfo → ℕ → ℕ
inode_table_start_addr fs g = get32 fs.bgdt_buf (32 * g + 8)

abbrev pub unalloc_block_cnt : FsInfo → ℕ → ℕ
unalloc_block_cnt fs g = get16 fs.bgdt_buf (32 * g + 12)

abbrev pub unalloc_inode_cnt : FsInfo → ℕ → ℕ
unalloc_inode_cnt fs g = get16 fs.bgdt_buf (32 * g + 14)

abbrev pub dir_cnt : FsInfo → ℕ → ℕ
dir_cnt fs g = get16 fs.bgdt_buf (32 * g + 16)

-- The fields of `struct ext2_superblock`, by their offsets.
abbrev pub inode_cnt : FsInfo → ℕ
inode_cnt fs = get32 fs.sprblk_buf 0

abbrev pub block_cnt : FsInfo → ℕ
block_cnt fs = get32 fs.sprblk_buf 4

abbrev pub unalloc_blocks : FsInfo → ℕ
unalloc_blocks fs = get32 fs.sprblk_buf 12

abbrev pub unalloc_inodes : FsInfo → ℕ
unalloc_inodes fs = get32 fs.sprblk_buf 16

abbrev pub super_block_num : FsInfo → ℕ
super_block_num fs = get32 fs.sprblk_buf 20

-- The state of the volume's `struct fs_info`, and a change of it.
abbrev pub get_fs : M FsInfo
get_fs v = some (v.fs, v)

abbrev pub set_fs : FsInfo → M (Unit {0})
set_fs fs v = some (tt, record v { fs = fs })

-- What `kmalloc` left in a buffer before a read fills it.
abbrev pub fresh : Bytes
fresh k = 0

unfoldable pub read_block : ℕ → M Bytes
read_block block_n v =
    let lba = block_n * sectors_per_blk % 2 ^ 32 in
    elim (ata_read48_part v.drives v.fs.drive v.fs.start_lba v.fs.sector_count lba sectors_per_blk
      fresh) [ none ↦ none | some buf ↦ some (buf, v) ]

unfoldable pub write_block : ℕ → Bytes → M (Unit {0})
write_block block_n buf v =
    let lba = block_n * sectors_per_blk % 2 ^ 32 in
    elim (ata_write48_part v.drives v.fs.drive v.fs.start_lba v.fs.sector_count lba sectors_per_blk
      buf) [ none ↦ none | some ds ↦ some (tt, record v { drives = ds }) ]

-- The write of `sprblk_buf` to the superblock's two sectors, which the bitmap and mount code do.
unfoldable pub write_super : M (Unit {0})
write_super v =
    elim (ata_write48_part v.drives v.fs.drive v.fs.start_lba v.fs.sector_count (1024 / 512)
      (1024 / 512) v.fs.sprblk_buf) [ none ↦ none | some ds ↦ some (tt, record v { drives = ds }) ]
