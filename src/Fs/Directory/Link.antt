-- ===== src/Fs/Directory/Link.antt =====
-- `dir_insert` and `dir_remove` of kernel/fs/ext2/directoryController.c on the file system that
-- the directory is found to lie in: names are linked and unlinked, and links counted.
use deprecat_os.Prelude.{
  ℕ, zero, suc, ◌+◌, ◌*◌, ◌/◌, ◌%◌, ◌^◌, Bool, false, ◌||◌, Option, none, some, ◌==◌, ltb, leb,
  if◌then◌else◌, case_option,
}
use deprecat_os.Fs.Bytes.{Bytes, set16}
use deprecat_os.Fs.Volume.{M, pure, ◌>>=◌, ◌>>◌, read_block, write_block}
use deprecat_os.Fs.Inode.{Inode, size_lo, get_inode, set_inode}
use deprecat_os.Fs.MapBlock.{map_file_block}
use deprecat_os.Fs.MapBlock.Shared.{case_status, lookup_mode, alloc_mode}
use deprecat_os.Fs.File.Fields.{
  has_type, inode_dir_type, inode_symlink_type, hard_link_cnt, set_hard_link_cnt, set_last_mod,
  set_size, more_sectors, blocks_for,
}
use deprecat_os.Fs.File.Change.{uncounted_walk, counted_walk, count_of}
use deprecat_os.Fs.Directory.Block.{
  Name, Removal, malformed, absent, removed, align4, name_len, insert_entry, remove_entry,
  store_entry,
}
use deprecat_os.Fs.Directory.Scan.{case_insertion}

-- `while (len < NAME_LEN && name[len] != 0) len++`, `left` characters from `len` on.
unfoldable pub name_length : Name → ℕ → ℕ → ℕ
name_length name zero len = len
name_length name (suc left) len =
    let rest = name_length name left (len + 1) in if name len == 0 then len else rest

-- `len == 0 || len >= NAME_LEN`
abbrev pub is_refused : ℕ → Bool
is_refused len = len == 0 || leb name_len len

abbrev pub link_up : Inode → Inode
link_up i = set_hard_link_cnt ((hard_link_cnt i + 1) % 2 ^ 16) i

abbrev pub link_down : Inode → Inode
link_down i = set_hard_link_cnt ((hard_link_cnt i + 65535) % 2 ^ 16) i

-- What `dir_insert` is asked for: the time, both inodes with their numbers, the name.
pub record Request : Type 0 where
  pub now : ℕ
  pub parent_n : ℕ
  pub child_n : ℕ
  pub child : Inode
  pub name : Name
  pub len : ℕ

-- `entry->type`
abbrev pub type_of : Inode → ℕ
type_of i = if has_type i inode_symlink_type then 7 else if has_type i inode_dir_type then 2 else 1

-- Both inodes stored after a change of the child's links.
unfoldable pub store_both : ℕ → ℕ → ℕ → Inode → Inode → M Bool
store_both now parent_n child_n child parent =
    if parent_n == child_n then set_inode child_n (set_last_mod now child) else do
      ok ← set_inode child_n child
      if ok then set_inode parent_n (set_last_mod now parent) else pure false

-- A round of the loop over the blocks of the directory.
unfoldable pub insert_round : Request → ℕ → (Inode → M Bool) → Inode → M Bool
unfolding store_both
insert_round q i next parent = do
  (status, w) ← map_file_block lookup_mode i (uncounted_walk parent)
  case_status status
      (do
        scratch ← read_block w.out
        case_insertion (insert_entry 4096 scratch q.name q.len q.child_n (type_of q.child) 0)
            (pure false) (next w.inode)
            (λ block. do
              write_block w.out block
              store_both q.now q.parent_n q.child_n (link_up q.child) w.inode))
      (pure false) (pure false)

-- MAX_FILE_SIZE
abbrev pub max_file_size : ℕ
max_file_size = 4096 * 12 + 4096 * 1024 + 4096 * 1024 * 1024 + 4096 * 1024 * 1024 * 1024

-- The one entry of a new block.
unfoldable pub seed : Request → Bytes
seed q = store_entry (set16 (λ _. 0) 4 4096) 0 q.name q.len q.child_n (type_of q.child)

-- The directory after it has grown by a block.
abbrev pub grown : ℕ → Inode → Inode
grown cnt i = let i' = more_sectors cnt i in set_size ((size_lo i' + 4096) % 2 ^ 32) i'

-- No block has room: the directory grows by one.
unfoldable pub insert_grown : Request → Inode → M Bool
unfolding seed store_both
insert_grown q parent =
    if ltb max_file_size (size_lo parent + align4 (8 + q.len)) then pure false else do
      (status, w) ← map_file_block alloc_mode (blocks_for (size_lo parent)) (counted_walk parent 0)
      case_status status
          (do
            write_block w.out (seed q)
            let parent' = grown (count_of w) w.inode
            if q.parent_n == q.child_n
                then set_inode q.parent_n (link_up (set_last_mod q.now parent'))
                else store_both q.now q.parent_n q.child_n (link_up q.child) parent')
          (pure false) (pure false)

unfoldable pub insert_blocks : Request → ℕ → ℕ → Inode → M Bool
unfolding insert_round insert_grown
insert_blocks q zero i parent = insert_grown q parent
insert_blocks q (suc n) i parent =
    insert_round q i (λ parent'. insert_blocks q n (i + 1) parent') parent

-- `dir_insert` from the read of the parent on.
unfoldable pub insert_into : Request → M Bool
unfolding insert_blocks
insert_into q = do
  found ← get_inode q.parent_n
  case_option found (pure false) (λ parent.
      if has_type parent inode_dir_type
      then insert_blocks q (size_lo parent / 4096) 0 parent
      else pure false)

-- The removed entry's inode has a link less.
unfoldable pub unlink_child : ℕ → ℕ → Inode → ℕ → M (Option ℕ)
unfolding store_both
unlink_child now parent_n parent inode_n = do
  found ← get_inode inode_n
  case_option found (pure none) (λ inode. do
    ok ← store_both now parent_n inode_n (link_down inode) parent
    pure (if ok then some inode_n else none))

abbrev pub case_removal {ℓ} : {B : Type ℓ} → Removal → B → B → (Bytes → ℕ → B) → B
case_removal malformed a b f = a
case_removal absent a b f = b
case_removal (removed block n) a b f = f block n

-- A round of `dir_remove`; `some` is `true`, with `*removed_inode_n`.
unfoldable pub remove_round : ℕ → ℕ → Name → ℕ → (Inode → M (Option ℕ)) → Inode → M (Option ℕ)
unfolding unlink_child
remove_round now parent_n name i next parent = do
  (status, w) ← map_file_block lookup_mode i (uncounted_walk parent)
  case_status status
      (do
        scratch ← read_block w.out
        case_removal (remove_entry 4096 scratch name 0 0) (pure none) (next w.inode)
            (λ block inode_n. do
              write_block w.out block
              unlink_child now parent_n w.inode inode_n))
      (pure none) (pure none)

unfoldable pub remove_blocks : ℕ → ℕ → Name → ℕ → ℕ → Inode → M (Option ℕ)
unfolding remove_round
remove_blocks now parent_n name zero i parent = pure none
remove_blocks now parent_n name (suc n) i parent =
    remove_round now parent_n name i (λ parent'. remove_blocks now parent_n name n (i + 1) parent')
      parent

-- `dir_remove` from the read of the parent on.
unfoldable pub remove_from_dir : ℕ → ℕ → Name → M (Option ℕ)
unfolding remove_blocks
remove_from_dir now parent_n name = do
  found ← get_inode parent_n
  case_option found (pure none) (λ parent.
      if has_type parent inode_dir_type
      then remove_blocks now parent_n name (size_lo parent / 4096) 0 parent
      else pure none)
