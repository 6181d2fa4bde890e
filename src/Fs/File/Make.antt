-- ===== src/Fs/File/Make.antt =====
-- `mint_inode`, `put_inode` and `replace_inode` of kernel/fs/block/blockController.c. An inode that
-- the code writes through `out` is returned; `none` is INODE_ERROR.
use deprecat_os.Prelude.{
  ℕ, ◌+◌, ◌/◌, Bool, ◌||◌, Option, none, some, ◌==◌, ltb, leb, if◌then◌else◌, case_option,
}
use deprecat_os.Fs.Bytes.{Bytes}
use deprecat_os.Fs.Volume.{M, pure, panic, ◌>>=◌, ◌>>◌, get_fs, dir_cnt, inode_cnt}
use deprecat_os.Fs.Bitmap.{inode_error, inode_offset, alloc_inode, free_inode}
use deprecat_os.Fs.Inode.{Inode, get_inode, set_inode}
use deprecat_os.Fs.File.Fields.{
  inode_file_type, inode_dir_type, last_mod_time, set_type, set_size, set_last_access, set_creation,
  set_last_mod, set_disk_sectors,
}
use deprecat_os.Fs.File.Free.{free_blocks, set_dir_cnt}
use deprecat_os.Fs.File.Write.{clear_pointers, write_inode}

abbrev pub no_inode : Inode
no_inode k = 0

-- The inode that `mint_inode` fills in.
unfoldable pub minted_inode : ℕ → ℕ → ℕ → Inode
minted_inode now f_size type =
    set_last_mod now
      (set_last_access now (set_creation now (set_size f_size (set_type type no_inode))))

unfoldable pub mint_inode : ℕ → ℕ → ℕ → M (Option (ℕ × Inode))
unfolding minted_inode
mint_inode now f_size type = do
  inode_n ← alloc_inode
  if inode_n == inode_error then pure none else pure (some (inode_n, minted_inode now f_size type))

-- A directory more in the group of the inode.
unfoldable pub count_dir : ℕ → M (Unit {0})
unfolding set_dir_cnt
count_dir group_n = do fs ← get_fs; set_dir_cnt group_n (dir_cnt fs group_n + 1)

-- What `put_inode` does once the data is written.
unfoldable pub link_inode : ℕ → Bool → Inode → M (Option (ℕ × Inode))
unfolding count_dir
link_inode inode_n is_dir inode = do
  fs ← get_fs
  let group_n = inode_offset inode_n / fs.inodes_per_grp
  if leb fs.ngroups group_n || ltb (inode_cnt fs) inode_n then panic else do
    stored ← set_inode inode_n inode
    if stored
        then (do if is_dir then count_dir group_n else pure tt; pure (some (inode_n, inode)))
        else pure none

unfoldable pub put_minted : Bytes → Bool → ℕ × Inode → M (Option (ℕ × Inode))
unfolding link_inode
put_minted buf is_dir (inode_n, inode) = do
  (ok, inode') ← write_inode buf inode
  if ok then link_inode inode_n is_dir inode' else do _ ← free_inode inode_n; pure none

unfoldable pub put_inode : ℕ → Bytes → ℕ → Bool → M (Option (ℕ × Inode))
unfolding put_minted
put_inode now buf f_size is_dir = do
  found ← mint_inode now f_size (if is_dir then inode_dir_type else inode_file_type)
  case_option found (pure none) (put_minted buf is_dir)

-- The inode after a write that failed.
unfoldable pub emptied : ℕ → Inode → Inode
emptied old_last_mod_time inode =
    set_last_mod old_last_mod_time (set_disk_sectors 0 (set_size 0 (clear_pointers inode)))

unfoldable pub replace_found : ℕ → ℕ → Bytes → ℕ → Inode → M (Option Inode)
unfolding emptied
replace_found now inode_n buf f_size inode = do
  free_blocks inode
  (ok, inode') ← write_inode buf (set_last_mod now (set_disk_sectors 0 (set_size f_size inode)))
  if ok
      then (do stored ← set_inode inode_n inode'; pure (if stored then some inode' else none))
      else do
        stored ← set_inode inode_n (emptied (last_mod_time inode) inode')
        if stored then pure none else panic

unfoldable pub replace_inode : ℕ → ℕ → Bytes → ℕ → M (Option Inode)
unfolding replace_found
replace_inode now inode_n buf f_size = do
  found ← get_inode inode_n
  case_option found (pure none) (replace_found now inode_n buf f_size)
