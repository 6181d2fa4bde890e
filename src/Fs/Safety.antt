-- ===== src/Fs/Safety.antt =====
-- The operations of the file system on one volume, in any order: kernel/fs/ext2/bitmapController.c,
-- kernel/fs/block/blockController.c and kernel/fs/ext2/directoryController.c together.
use deprecat_os.Prelude.{ℕ, ◌≤◌, ◌*◌, Bool, List, [], ◌∷◌}
use deprecat_os.Fs.Bytes.{Bytes}
use deprecat_os.Fs.Volume.{FsInfo, inode_cnt, Volume, M, pure, ◌>>=◌, ◌>>◌}
use deprecat_os.Fs.Volume.Keeps.{Keeps}
use deprecat_os.Fs.Bitmap.{alloc_block, free_block, alloc_inode, free_inode}
use deprecat_os.Fs.Inode.{Inode, get_inode, set_inode}
use deprecat_os.Fs.MapBlock.{map_file_block}
use deprecat_os.Fs.MapBlock.Shared.{Walk}
use deprecat_os.Fs.File.Free.{delete_inode}
use deprecat_os.Fs.File.Write.{write_inode}
use deprecat_os.Fs.File.Make.{mint_inode, put_inode, replace_inode}
use deprecat_os.Fs.File.Change.{truncate_inode, append_to_inode, unwind_insert}
use deprecat_os.Fs.File.Insert.{insert_in_inode}
use deprecat_os.Fs.Directory.Block.{Name}
use deprecat_os.Fs.Directory.Scan.{name_in, dir_is_empty, dir_set_parent_entry, is_ancestor}
use deprecat_os.Fs.Directory.Link.{Request, insert_into, remove_from_dir}

-- A call with its arguments.
pub data Operation : Type 0 where
  alloc_block_call alloc_inode_call : Operation
  free_block_call free_inode_call get_inode_call : ℕ → Operation
  set_inode_call : ℕ → Inode → Operation
  map_file_block_call : ℕ → ℕ → Walk → Operation
  delete_inode_call : ℕ → ℕ → Operation
  write_inode_call : Bytes → Inode → Operation
  mint_inode_call : ℕ → ℕ → ℕ → Operation
  put_inode_call : ℕ → Bytes → ℕ → Bool → Operation
  replace_inode_call : ℕ → ℕ → Bytes → ℕ → Operation
  truncate_inode_call : ℕ → ℕ → ℕ → Operation
  append_to_inode_call : ℕ → Bytes → ℕ → Bytes → ℕ → Operation
  unwind_insert_call : ℕ → Inode → List ℕ → ℕ → ℕ → Operation
  insert_in_inode_call : ℕ → ℕ → Bytes → ℕ → ℕ → Operation
  name_in_call : Inode → Name → Operation
  dir_is_empty_call : Inode → Operation
  dir_set_parent_entry_call is_ancestor_call : ℕ → ℕ → Operation
  insert_call : Request → Operation
  remove_call : ℕ → ℕ → Name → Operation

-- The call, for what it does to the volume.
abbrev pub done : {A : Type 0} → M A → M (Unit {0})
done m = m >>= λ _. pure tt

unfoldable pub step : Operation → M (Unit {0})
step alloc_block_call = done alloc_block
step alloc_inode_call = done alloc_inode
step (free_block_call n) = done (free_block n)
step (free_inode_call n) = done (free_inode n)
step (get_inode_call n) = done (get_inode n)
step (set_inode_call n inode) = done (set_inode n inode)
step (map_file_block_call mode idx w) = done (map_file_block mode idx w)
step (delete_inode_call now n) = done (delete_inode now n)
step (write_inode_call buf inode) = done (write_inode buf inode)
step (mint_inode_call now f_size type) = done (mint_inode now f_size type)
step (put_inode_call now buf f_size is_dir) = done (put_inode now buf f_size is_dir)
step (replace_inode_call now n buf f_size) = done (replace_inode now n buf f_size)
step (truncate_inode_call now n size) = done (truncate_inode now n size)
step (append_to_inode_call now junk n buf f_size) = done (append_to_inode now junk n buf f_size)
step (unwind_insert_call n inode is f m) = done (unwind_insert n inode is f m)
step (insert_in_inode_call now n buf f_size at) = done (insert_in_inode now n buf f_size at)
step (name_in_call inode name) = done (name_in inode name)
step (dir_is_empty_call inode) = done (dir_is_empty inode)
step (dir_set_parent_entry_call c p) = done (dir_set_parent_entry c p)
step (is_ancestor_call a d) = done (is_ancestor a d)
step (insert_call r) = done (insert_into r)
step (remove_call now p name) = done (remove_from_dir now p name)

unfoldable pub run : List Operation → M (Unit {0})
run [] = pure tt
run (o ∷ os) = step o >> run os

-- The descriptors of all groups, and of the groups of all inodes, lie in the 4096 bytes of
-- `bgdt_buf`. Behind them the C code has other fields, which the model keeps apart.
pub record IsDescribed (fs : FsInfo) : Type 0 where
  pub groups : fs.ngroups ≤ 128
  pub inodes : inode_cnt fs ≤ 128 * fs.inodes_per_grp
