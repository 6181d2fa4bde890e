-- ===== src/Fs/Bitmap.antt =====
-- kernel/fs/ext2/bitmapController.c: inodes and blocks are taken from and given back to the
-- bitmaps of their groups. The functions for inodes and for blocks are the same text over
-- different fields: `Kind` holds the fields.
pub mod Bit
pub mod Count
pub mod Search
pub mod Change
pub mod Alloc
pub mod Blocks
pub mod Undo
pub mod Keeps
use deprecat_os.Prelude.{
  ℕ, zero, suc, ◌+◌, ◌-◌, ◌*◌, ◌/◌, ◌%◌, ◌^◌, bit_and, bit_or, Bool, true, false, not, ◌||◌, Option,
  none, some, ◌==◌, ltb, leb, if◌then◌else◌, write,
}
use deprecat_os.Bits.{complement}
use deprecat_os.Fs.Bytes.{Bytes, get16, get32, set16, set32}
use deprecat_os.Fs.Volume.{
  FsInfo, Volume, M, pure, panic, ◌>>=◌, ◌>>◌, get_fs, set_fs, block_size, bgdt_blk_n, inode_cnt,
  block_cnt, super_block_num, read_block, write_block, write_super,
}

abbrev pub inode_error : ℕ
inode_error = 1

abbrev pub block_error : ℕ
block_error = 0

abbrev pub first_inode_n : ℕ
first_inode_n = 1

-- Which fields count and map the items: offsets in a group descriptor and in the superblock.
pub record Kind : Type 0 where
  pub bitmap_addr : ℕ
  pub unalloc_cnt : ℕ
  pub unalloc_total : ℕ

abbrev pub block_kind : Kind
block_kind = record { bitmap_addr = 0; unalloc_cnt = 12; unalloc_total = 12 }

abbrev pub inode_kind : Kind
inode_kind = record { bitmap_addr = 4; unalloc_cnt = 14; unalloc_total = 16 }

abbrev pub bitmap_addr : Kind → FsInfo → ℕ → ℕ
bitmap_addr k fs g = get32 fs.bgdt_buf (32 * g + k.bitmap_addr)

abbrev pub unalloc_cnt : Kind → FsInfo → ℕ → ℕ
unalloc_cnt k fs g = get16 fs.bgdt_buf (32 * g + k.unalloc_cnt)

abbrev pub unalloc_total : Kind → FsInfo → ℕ
unalloc_total k fs = get32 fs.sprblk_buf k.unalloc_total

-- The loop over the groups, `left` of them from `group_n` on.
unfoldable pub find_group : Kind → FsInfo → ℕ → ℕ → Option ℕ
find_group k fs zero group_n = none
find_group k fs (suc left) group_n = elim (ltb 0 (unalloc_cnt k fs group_n)) [
  | true ↦ some group_n
  | false ↦ find_group k fs left (group_n + 1)
]

-- `!(byte & (1 << bit))`
abbrev pub is_free : ℕ → ℕ → Bool
is_free byte bit = bit_and byte (2 ^ bit) == 0

-- The inner loop over the bits of a byte: the bit found, and the index in the group.
unfoldable pub scan_bits : ℕ → ℕ → ℕ → ℕ → Option (ℕ × ℕ)
scan_bits byte zero bit idx = none
scan_bits byte (suc left) bit idx = elim (is_free byte bit) [
  | true ↦ some (bit, idx)
  | false ↦ scan_bits byte left (bit + 1) (idx + 1)
]

-- The outer loop over the bytes: byte, bit and index of the first free bit.
unfoldable pub scan_bytes : Bytes → ℕ → ℕ → ℕ → Option (ℕ × ℕ × ℕ)
scan_bytes bitmap zero byte_idx idx = none
scan_bytes bitmap (suc left) byte_idx idx = elim (scan_bits (bitmap byte_idx) 8 0 idx) [
  | some (bit, i) ↦ some (byte_idx, bit, i)
  | none ↦ scan_bytes bitmap left (byte_idx + 1) (idx + 8)
]

-- The counters of the group and of the volume written.
abbrev pub with_count : Kind → FsInfo → ℕ → ℕ → ℕ → FsInfo
with_count k fs g cnt total = record fs {
  bgdt_buf = set16 fs.bgdt_buf (32 * g + k.unalloc_cnt) cnt;
  sprblk_buf = set32 fs.sprblk_buf k.unalloc_total total;
}

-- `unalloc_cnt--` and `unalloc_total--`, on 16 and 32 bits
unfoldable pub count_down : Kind → FsInfo → ℕ → FsInfo
count_down k fs g =
    with_count k fs g ((unalloc_cnt k fs g + 65535) % 2 ^ 16)
      ((unalloc_total k fs + 4294967295) % 2 ^ 32)

-- `unalloc_cnt++` and `unalloc_total++`
unfoldable pub count_up : Kind → FsInfo → ℕ → FsInfo
count_up k fs g =
    with_count k fs g ((unalloc_cnt k fs g + 1) % 2 ^ 16) ((unalloc_total k fs + 1) % 2 ^ 32)

-- The three writes that follow a change of the counters and the bitmap.
unfoldable pub flush : FsInfo → ℕ → Bytes → M (Unit {0})
flush fs addr bitmap = do
  set_fs fs
  write_block bgdt_blk_n fs.bgdt_buf
  write_super
  write_block addr bitmap

-- A free item of the group `g`, whose bitmap is looked through for `limit` bytes.
unfoldable pub take_in : Kind → ℕ → ℕ → M (ℕ × ℕ)
unfolding flush count_down scan_bytes scan_bits
take_in k limit g = do
  fs ← get_fs
  bitmap ← read_block (bitmap_addr k fs g)
  elim (scan_bytes bitmap limit 0 0) [
    | none ↦ panic
    | some (byte_idx, bit, idx) ↦ do
      flush (count_down k fs g) (bitmap_addr k fs g)
          (write bitmap byte_idx (bit_or (bitmap byte_idx) (2 ^ bit)))
      pure (g, idx)
  ]

-- What follows the loop over the groups.
unfoldable pub inode_from : FsInfo → Option ℕ → M ℕ
inode_from fs none = pure inode_error
inode_from fs (some group_n) = do
  (g, idx) ← take_in inode_kind (fs.inodes_per_grp / 8) group_n
  pure ((g * fs.inodes_per_grp + idx + first_inode_n) % 2 ^ 32)

unfoldable pub alloc_inode : M ℕ
unfolding inode_from
alloc_inode = do fs ← get_fs; inode_from fs (find_group inode_kind fs fs.ngroups 0)

unfoldable pub block_from : FsInfo → Option ℕ → M ℕ
block_from fs none = pure block_error
block_from fs (some group_n) = do
  (g, idx) ← take_in block_kind block_size group_n
  pure ((g * fs.blks_per_grp + idx + super_block_num fs) % 2 ^ 32)

unfoldable pub alloc_block : M ℕ
unfolding block_from
alloc_block = do fs ← get_fs; block_from fs (find_group block_kind fs fs.ngroups 0)

-- The item number `idx` of the group `g` is given back, unless it is free.
unfoldable pub give_in : Kind → ℕ → ℕ → M (Unit {0})
unfolding flush count_up
give_in k g idx = do
  fs ← get_fs
  bitmap ← read_block (bitmap_addr k fs g)
  let byte_idx = idx / 8
  let mask = 2 ^ (idx % 8)
  if bit_and (bitmap byte_idx) mask == 0
      then pure tt
      else flush (count_up k fs g) (bitmap_addr k fs g)
          (write bitmap byte_idx (bit_and (bitmap byte_idx) (complement 8 mask)))

-- `inode_n - first_inode_n` wraps at 0.
abbrev pub inode_offset : ℕ → ℕ
inode_offset inode_n = (inode_n + 2 ^ 32 - first_inode_n) % 2 ^ 32

abbrev pub block_offset : FsInfo → ℕ → ℕ
block_offset fs block_n = (block_n + 2 ^ 32 - super_block_num fs) % 2 ^ 32

unfoldable pub free_inode : ℕ → M Bool
free_inode inode_n = do
  fs ← get_fs
  let group_n = inode_offset inode_n / fs.inodes_per_grp
  if leb fs.ngroups group_n || ltb (inode_cnt fs) inode_n
      then pure false
      else do give_in inode_kind group_n (inode_offset inode_n % fs.inodes_per_grp); pure true

unfoldable pub free_block : ℕ → M Bool
free_block block_n = if block_n == 0 then pure false else do
  fs ← get_fs
  let group_n = block_offset fs block_n / fs.blks_per_grp
  if leb fs.ngroups group_n || leb (block_cnt fs) block_n
      then pure false
      else do give_in block_kind group_n (block_offset fs block_n % fs.blks_per_grp); pure true

unfoldable pub inode_exists : ℕ → M Bool
inode_exists inode_n = do
  fs ← get_fs
  let group_n = inode_offset inode_n / fs.inodes_per_grp
  if leb fs.ngroups group_n || ltb (inode_cnt fs) inode_n then pure false else do
    bitmap ← read_block (bitmap_addr inode_kind fs group_n)
    let idx = inode_offset inode_n % fs.inodes_per_grp
    pure (not (bit_and (bitmap (idx / 8)) (2 ^ (idx % 8)) == 0))
