-- ===== src/Fs/Names/Move.antt =====
-- `rename_inode` and `make_symlink` of kernel/fs/ext2/directoryController.c.
use deprecat_os.Prelude.{
  ℕ, ◌+◌, Bool, true, false, not, ◌&&◌, ◌||◌, Option, none, some, ◌==◌, ltb, leb, if◌then◌else◌,
  case_option,
}
use deprecat_os.Fs.Bytes.{Bytes}
use deprecat_os.Fs.Volume
use deprecat_os.Fs.Bitmap.{free_block, free_inode}
use deprecat_os.Fs.Inode.{Inode, get_inode, set_inode, dir_at}
use deprecat_os.Fs.MapBlock.{map_file_block}
use deprecat_os.Fs.MapBlock.Shared.{case_status, alloc_mode}
use deprecat_os.Fs.File.Fields.{has_type, inode_dir_type, inode_symlink_type, more_sectors}
use deprecat_os.Fs.File.Make.{mint_inode}
use deprecat_os.Fs.File.Change.{uncounted_walk, spliced}
use deprecat_os.Fs.Directory.Block.{Name}
use deprecat_os.Fs.Directory.Scan.{name_in, dir_set_parent_entry, is_ancestor, root_inode_n}
use deprecat_os.Fs.Directory.Link.{link_up, link_down}
use deprecat_os.Fs.Mount.Table.{S, pure, ◌>>=◌, ◌>>◌, on}
use deprecat_os.Fs.Names.{resolve, dir_insert, dir_remove, is_dots}

-- A change of the links of a directory.
unfoldable pub relink : (Inode → Inode) → ℕ → ℕ → S Bool
relink f fs n = do
  found ← on fs (get_inode n)
  case_option found (pure false) (λ inode. on fs (set_inode n (f inode)))

-- A directory that has moved: its "..", and the links of its old and its new parent.
unfoldable pub reparent : ℕ → ℕ → ℕ → ℕ → S Bool
unfolding relink
reparent fs child_n old_n new_n = do
  ok ← on fs (dir_set_parent_entry child_n new_n)
  if not ok then pure false else do
    down ← relink link_down fs old_n
    if not down then pure false else relink link_up fs new_n

-- The parents, and the names, that a rename goes between.
pub record Rename : Type 0 where
  pub fs : ℕ
  pub old_n : ℕ
  pub old_name : Name
  pub new_n : ℕ
  pub new_name : Name

-- The new entry is made, then the old one removed.
unfoldable pub move_entry : ℕ → Rename → ℕ → Inode → S Bool
unfolding reparent
move_entry now r child_n child = do
  linked ← dir_insert now r.fs r.new_n r.new_name child_n
  if not linked then pure false else do
    gone ← dir_remove now r.fs r.old_n r.old_name
    case_option gone (pure false) (λ _.
        if not (r.old_n == r.new_n) && has_type child inode_dir_type
        then reparent r.fs child_n r.old_n r.new_n
        else pure true)

-- A directory may not move into one below it.
unfoldable pub rename_child : ℕ → Rename → ℕ → Inode → S Bool
unfolding move_entry
rename_child now r child_n child = do
  below ←
      (if has_type child inode_dir_type then on r.fs (is_ancestor child_n r.new_n) else pure false)
  if below then pure false else move_entry now r child_n child

-- The checks between the lookup of the old name and the move.
unfoldable pub rename_found : ℕ → Rename → Inode → ℕ → S Bool
unfolding rename_child
rename_found now r new_parent child_n = do
  (busy, _, _) ← resolve r.fs child_n
  if busy then pure false else do
    taken ← on r.fs (name_in new_parent r.new_name)
    if case_option taken false (λ _. true) || child_n == root_inode_n then pure false else do
      child ← on r.fs (get_inode child_n)
      case_option child (pure false) (rename_child now r child_n)

-- Both parents have been read.
unfoldable pub rename_between : ℕ → Rename → Inode → Inode → S Bool
unfolding rename_found
rename_between now r old_parent new_parent =
    if not (has_type new_parent inode_dir_type) then pure false else do
      child ← on r.fs (name_in old_parent r.old_name)
      case_option child (pure false) (rename_found now r new_parent)

unfoldable pub rename_from : ℕ → Rename → Inode → S Bool
unfolding rename_between
rename_from now r old_parent = if not (has_type old_parent inode_dir_type) then pure false else do
  found ← on r.fs (get_inode r.new_n)
  case_option found (pure false) (rename_between now r old_parent)

unfoldable pub rename_inode : ℕ → ℕ → ℕ → Name → ℕ → Name → S Bool
unfolding rename_from
rename_inode now fs old_parent_n old_name new_parent_n new_name =
    if is_dots old_name || is_dots new_name then pure false else do
      (_, old_fs, old_n) ← resolve fs old_parent_n
      (_, new_fs, new_n) ← resolve fs new_parent_n
      let r : Rename = record {
        fs = old_fs;
        old_n = old_n;
        old_name = old_name;
        new_n = new_n;
        new_name = new_name;
      }
      if old_fs == new_fs
          then (do
            found ← on old_fs (get_inode old_n)
            case_option found (pure false) (rename_from now r))
          else pure false

-- MAX_SYMLINK_LEN
abbrev pub max_symlink_len : ℕ
max_symlink_len = 59

-- A target too long for the inode goes to a block; `junk` is what `kmalloc` left in its buffer.
-- The inode and the block, or `none` when no block is left.
unfoldable pub place_target : Bytes → Bytes → ℕ → Inode → Volume.M (Option (Inode × ℕ))
place_target junk target len symlink =
    if ltb max_symlink_len len
    then Volume.◌>>=◌ (map_file_block alloc_mode 0 (uncounted_walk symlink)) (λ r.
      case_status r.0
        (Volume.◌>>=◌ (Volume.write_block r.1.out (spliced junk 0 target 0 (len + 1)))
          (λ _. Volume.pure (some (more_sectors 1 r.1.inode, r.1.out))))
        (Volume.pure none) (Volume.pure none))
    else Volume.pure (some (spliced symlink (dir_at 0) target 0 (len + 1), 0))

-- What a symbolic link that could not be linked has taken goes back.
unfoldable pub drop_symlink : ℕ → ℕ → ℕ → S Bool
drop_symlink fs link_n block_n = do
  _ ← on fs (free_inode link_n)
  _ ← (if block_n == 0 then pure true else on fs (free_block block_n))
  pure false

unfoldable pub link_symlink : ℕ → ℕ → ℕ → Name → ℕ → Inode × ℕ → S Bool
unfolding drop_symlink
link_symlink now fs parent_n name link_n (symlink, block_n) = do
  stored ← on fs (set_inode link_n symlink)
  if not stored then drop_symlink fs link_n block_n else do
    linked ← dir_insert now fs parent_n name link_n
    if linked then pure true else drop_symlink fs link_n block_n

-- `strlen` of the target is an argument.
unfoldable pub make_symlink : ℕ → Bytes → ℕ → ℕ → Name → Bytes → ℕ → S Bool
unfolding place_target link_symlink
make_symlink now junk fs parent_n name target len =
    if len == 0 || leb 4096 len then pure false else do
      (_, fs', p) ← resolve fs parent_n
      minted ← on fs' (mint_inode now len inode_symlink_type)
      case_option minted (pure false) (λ link. do
        placed ← on fs' (place_target junk target len link.1)
        case_option placed (on fs' (free_inode link.0) >> pure false)
            (link_symlink now fs' p name link.0))
