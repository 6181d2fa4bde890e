-- ===== src/Fs/File/Free.antt =====
-- `indir_free_block` and `delete_inode` of kernel/fs/block/blockController.c. The time that
-- `timer_get_epoch_sec` returns is an argument.
use deprecat_os.Prelude.{
  ℕ, zero, suc, ◌+◌, ◌*◌, ◌/◌, ◌%◌, ◌^◌, Bool, false, ◌==◌, ltb, if◌then◌else◌, case_option,
}
use deprecat_os.Fs.Bytes.{Bytes, get32, set16}
use deprecat_os.Fs.Volume.{
  FsInfo, M, pure, ◌>>=◌, ◌>>◌, get_fs, set_fs, bgdt_blk_n, dir_cnt, read_block, write_block,
}
use deprecat_os.Fs.Bitmap.{inode_offset, free_block, free_inode}
use deprecat_os.Fs.Inode.{
  Inode, disk_sectors, dir_at, singly_at, doubly_at, triply_at, get_inode, set_inode,
}
use deprecat_os.Fs.MapBlock.Shared.{entry, bit_32_per_blk}
use deprecat_os.Fs.File.Fields.{has_type, inode_dir_type, set_hard_link_cnt, set_deletion}

-- The loop over the entries of a table, `n` of them from `i` on.
unfoldable pub free_entries : (ℕ → M (Unit {0})) → Bytes → ℕ → ℕ → M (Unit {0})
free_entries f t zero i = pure tt
free_entries f t (suc n) i = f (entry t i) >> free_entries f t n (i + 1)

unfoldable pub indir_free_block : ℕ → ℕ → M (Unit {0})
indir_free_block zero block_n = if block_n == 0 then pure tt else do _ ← free_block block_n; pure tt
indir_free_block (suc layer) block_n = if block_n == 0 then pure tt else do
  t ← read_block block_n
  free_entries (indir_free_block layer) t bit_32_per_blk 0
  _ ← free_block block_n
  pure tt

-- The loop over the direct pointers, `n` of them from `i` on.
unfoldable pub free_direct : Inode → ℕ → ℕ → M (Unit {0})
unfolding indir_free_block
free_direct inode zero i = pure tt
free_direct inode (suc n) i =
    indir_free_block 0 (get32 inode (dir_at i)) >> free_direct inode n (i + 1)

-- The frees of every block of an inode.
unfoldable pub free_blocks : Inode → M (Unit {0})
free_blocks inode = do
  free_direct inode 12 0
  indir_free_block 1 (get32 inode singly_at)
  indir_free_block 2 (get32 inode doubly_at)
  indir_free_block 3 (get32 inode triply_at)

-- A change of `bgdt[group_n].dir_cnt`, and the write of the table.
unfoldable pub set_dir_cnt : ℕ → ℕ → M (Unit {0})
set_dir_cnt group_n cnt = do
  fs ← get_fs
  let fs' : FsInfo = record fs { bgdt_buf = set16 fs.bgdt_buf (32 * group_n + 16) (cnt % 2 ^ 16) }
  set_fs fs'
  write_block bgdt_blk_n fs'.bgdt_buf

-- A directory less in the group of the inode.
unfoldable pub uncount_dir : ℕ → Inode → M (Unit {0})
unfolding set_dir_cnt
uncount_dir inode_n inode =
    if has_type inode inode_dir_type
    then (do
      fs ← get_fs
      let group_n = inode_offset inode_n / fs.inodes_per_grp
      set_dir_cnt group_n (dir_cnt fs group_n + 65535))
    else pure tt

-- What `delete_inode` does with an inode that exists.
unfoldable pub delete_found : ℕ → ℕ → Inode → M Bool
unfolding free_blocks uncount_dir
delete_found now inode_n inode = do
  if ltb 0 (disk_sectors inode) then free_blocks inode else pure tt
  stored ← set_inode inode_n (set_deletion now (set_hard_link_cnt 0 inode))
  if stored then (do uncount_dir inode_n inode; free_inode inode_n) else pure false

unfoldable pub delete_inode : ℕ → ℕ → M Bool
unfolding delete_found
delete_inode now inode_n = do
  found ← get_inode inode_n
  case_option found (pure false) (delete_found now inode_n)
