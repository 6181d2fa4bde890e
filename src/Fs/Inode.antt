-- ===== src/Fs/Inode.antt =====
-- kernel/fs/ext2/inode.h, and `get_inode` and `set_inode` of kernel/fs/block/blockController.c.
-- A `struct ext2_inode` is its 128 bytes; a field is read and written at its offset.
pub mod Laws
pub mod Keeps
use deprecat_os.Prelude.{
  ℕ, ◌+◌, ◌-◌, ◌*◌, ◌/◌, ◌%◌, ◌^◌, Bool, true, false, ◌&&◌, ◌||◌, Option, none, some, ◌==◌, ltb,
  leb, if◌then◌else◌,
}
use deprecat_os.Fs.Bytes.{Bytes, get16, get32, set16, set32}
use deprecat_os.Fs.Volume.{
  FsInfo, Volume, M, pure, panic, ◌>>=◌, ◌>>◌, get_fs, block_size, inode_cnt,
  inode_table_start_addr, read_block, write_block,
}

abbrev pub Inode : Type 0
Inode = Bytes

abbrev pub inode_blk_ptr_amt : ℕ
inode_blk_ptr_amt = 12

abbrev pub size_lo : Inode → ℕ
size_lo i = get32 i 4

abbrev pub disk_sectors : Inode → ℕ
disk_sectors i = get32 i 28

-- The offsets of the block pointers.
abbrev pub dir_at : ℕ → ℕ
dir_at n = 40 + 4 * n

abbrev pub singly_at : ℕ
singly_at = 88

abbrev pub doubly_at : ℕ
doubly_at = 92

abbrev pub triply_at : ℕ
triply_at = 96

-- Group, place in the group, block and offset of an inode number.
abbrev pub inode_group : FsInfo → ℕ → ℕ
inode_group fs inode_n = (inode_n + 2 ^ 32 - 1) % 2 ^ 32 / fs.inodes_per_grp

abbrev pub inode_index : FsInfo → ℕ → ℕ
inode_index fs inode_n = (inode_n + 2 ^ 32 - 1) % 2 ^ 32 % fs.inodes_per_grp

unfoldable pub inode_blk : FsInfo → ℕ → ℕ
inode_blk fs inode_n =
    (inode_table_start_addr fs (inode_group fs inode_n)
      + inode_index fs inode_n * fs.inode_size % 2 ^ 32 / block_size)
    % 2 ^ 32

unfoldable pub inode_off : FsInfo → ℕ → ℕ
inode_off fs inode_n = inode_index fs inode_n * fs.inode_size % 2 ^ 32 % block_size

-- `false` is `none`, and a division by 0 stops the machine.
unfoldable pub get_inode : ℕ → M (Option Inode)
unfolding inode_blk inode_off
get_inode inode_n = do
  fs ← get_fs
  if fs.inodes_per_grp == 0
      then panic
      else if inode_n == 0 || ltb (inode_cnt fs) inode_n
      then pure none
      else do
        buf ← read_block (inode_blk fs inode_n)
        pure (some (λ k. buf (inode_off fs inode_n + k)))

-- The 128 bytes of `inode` in the buffer from `off` on.
unfoldable pub store_inode : Bytes → ℕ → Inode → Bytes
store_inode buf off inode k = if leb off k && ltb k (off + 128) then inode (k - off) else buf k

unfoldable pub set_inode : ℕ → Inode → M Bool
unfolding inode_blk inode_off store_inode
set_inode inode_n inode = do
  fs ← get_fs
  if fs.inodes_per_grp == 0
      then panic
      else if inode_n == 0 || ltb (inode_cnt fs) inode_n
      then pure false
      else do
        buf ← read_block (inode_blk fs inode_n)
        write_block (inode_blk fs inode_n) (store_inode buf (inode_off fs inode_n) inode)
        pure true
