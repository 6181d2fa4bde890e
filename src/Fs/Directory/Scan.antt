-- ===== src/Fs/Directory/Scan.antt =====
-- The scans of kernel/fs/ext2/directoryController.c over the blocks of a directory: `name_in`,
-- `dir_is_empty`, `dir_set_parent_entry` and `is_ancestor`. `none` is an answer of `false`.
use deprecat_os.Prelude.{
  ℕ, zero, suc, ◌+◌, ◌/◌, Bool, true, false, Option, none, some, ◌==◌, if◌then◌else◌, case_option,
}
use deprecat_os.Fs.Volume.{M, pure, ◌>>=◌, ◌>>◌, read_block, write_block}
use deprecat_os.Fs.Inode.{Inode, size_lo, get_inode}
use deprecat_os.Fs.MapBlock.{map_file_block}
use deprecat_os.Fs.MapBlock.Shared.{case_status, lookup_mode}
use deprecat_os.Fs.File.Fields.{has_type, inode_dir_type}
use deprecat_os.Fs.File.Change.{uncounted_walk}
use deprecat_os.Fs.Directory.Block.{
  Name, Insertion, corrupt, full, stored, dot_dot, find_entry, has_no_child, replace_entry,
}

-- ROOT_INODE_N and MAX_DIR_DEPTH
abbrev pub root_inode_n : ℕ
root_inode_n = 2

abbrev pub max_dir_depth : ℕ
max_dir_depth = 1024

-- A round of `name_in`, with the rest of the loop.
unfoldable pub name_round : Name → ℕ → (Inode → M (Option ℕ)) → Inode → M (Option ℕ)
name_round name i next inode = do
  (status, w) ← map_file_block lookup_mode i (uncounted_walk inode)
  case_status status
      (do
        scan ← read_block w.out
        case_option (find_entry 4096 scan name 0) (next w.inode) (λ n. pure (some n)))
      (pure none) (pure none)

-- The loop over the blocks, `n` of them from `i` on.
unfoldable pub name_blocks : Name → ℕ → ℕ → Inode → M (Option ℕ)
unfolding name_round
name_blocks name zero i inode = pure none
name_blocks name (suc n) i inode =
    name_round name i (λ inode'. name_blocks name n (i + 1) inode') inode

unfoldable pub name_in : Inode → Name → M (Option ℕ)
unfolding name_blocks
name_in inode name = name_blocks name (size_lo inode / 4096) 0 inode

-- A round of `dir_is_empty`, with the rest of the loop.
unfoldable pub empty_round : ℕ → (Inode → M Bool) → Inode → M Bool
empty_round i next inode = do
  (status, w) ← map_file_block lookup_mode i (uncounted_walk inode)
  case_status status
      (do scan ← read_block w.out; if has_no_child 4096 scan 0 then next w.inode else pure false)
      (pure false) (pure false)

unfoldable pub empty_blocks : ℕ → ℕ → Inode → M Bool
unfolding empty_round
empty_blocks zero i inode = pure true
empty_blocks (suc n) i inode = empty_round i (λ inode'. empty_blocks n (i + 1) inode') inode

unfoldable pub dir_is_empty : Inode → M Bool
unfolding empty_blocks
dir_is_empty inode = empty_blocks (size_lo inode / 4096) 0 inode

-- What a scan that may change its block leads to: an error, the rest of the loop, or a write.
abbrev pub case_insertion {ℓ} : {B : Type ℓ} → Insertion → B → B → ((ℕ → ℕ) → B) → B
case_insertion corrupt a b f = a
case_insertion full a b f = b
case_insertion (stored block) a b f = f block

-- A round of `dir_set_parent_entry`, with the rest of the loop.
unfoldable pub parent_round : ℕ → ℕ → (Inode → M Bool) → Inode → M Bool
parent_round new_parent_n i next inode = do
  (status, w) ← map_file_block lookup_mode i (uncounted_walk inode)
  case_status status
      (do
        scratch ← read_block w.out
        case_insertion (replace_entry 4096 scratch dot_dot new_parent_n 0) (pure false)
            (next w.inode) (λ block. write_block w.out block >> pure true))
      (pure false) (pure false)

unfoldable pub parent_blocks : ℕ → ℕ → ℕ → Inode → M Bool
unfolding parent_round
parent_blocks new_parent_n zero i inode = pure false
parent_blocks new_parent_n (suc n) i inode =
    parent_round new_parent_n i (λ inode'. parent_blocks new_parent_n n (i + 1) inode') inode

unfoldable pub set_parent_checked : ℕ → Inode → Inode → M Bool
unfolding parent_blocks
set_parent_checked new_parent_n child parent =
    if has_type parent inode_dir_type
    then parent_blocks new_parent_n (size_lo child / 4096) 0 child
    else pure false

unfoldable pub dir_set_parent_entry : ℕ → ℕ → M Bool
unfolding set_parent_checked
dir_set_parent_entry child_n new_parent_n = do
  child ← get_inode child_n
  case_option child (pure false) (λ c.
      if has_type c inode_dir_type
      then (do
        parent ← get_inode new_parent_n
        case_option parent (pure false) (set_parent_checked new_parent_n c))
      else pure false)

-- A round of `is_ancestor` at the directory `cur`; a directory that cannot be read counts as one.
unfoldable pub ancestor_round : ℕ → (ℕ → M Bool) → ℕ → M Bool
unfolding name_in
ancestor_round maybe_ancestor next cur =
    if cur == maybe_ancestor then pure true else if cur == root_inode_n then pure false else do
      found ← get_inode cur
      case_option found (pure true)
          (λ inode. do parent ← name_in inode dot_dot; case_option parent (pure true) next)

unfoldable pub ancestor_loop : ℕ → ℕ → ℕ → M Bool
unfolding ancestor_round
ancestor_loop zero maybe_ancestor cur = pure true
ancestor_loop (suc n) maybe_ancestor cur =
    ancestor_round maybe_ancestor (λ cur'. ancestor_loop n maybe_ancestor cur') cur

unfoldable pub is_ancestor : ℕ → ℕ → M Bool
unfolding ancestor_loop
is_ancestor maybe_ancestor maybe_descendant =
    ancestor_loop max_dir_depth maybe_ancestor maybe_descendant
