-- ===== src/Fs/Names.antt =====
-- kernel/fs/ext2/directoryController.c: the operations on names that cross mount points:
-- `dir_contains`, `dir_insert`, `dir_remove`, `make_dir`, `make_file`, `unlink_inode` and
-- `unlink_dir`. `none` is an answer of `false` or INODE_ERROR; messages are left out.
pub mod Move
use deprecat_os.Prelude.{
  ℕ, zero, suc, ◌+◌, Bool, true, false, not, ◌||◌, Option, none, some, ◌==◌, if◌then◌else◌,
  case_option,
}
use deprecat_os.Fs.Bytes.{Bytes, set16}
use deprecat_os.Fs.Volume
use deprecat_os.Fs.Bitmap.{free_inode}
use deprecat_os.Fs.Inode.{Inode, get_inode, set_inode}
use deprecat_os.Fs.File.Fields.{has_type, inode_dir_type, hard_link_cnt}
use deprecat_os.Fs.File.Free.{delete_inode}
use deprecat_os.Fs.File.Make.{put_inode}
use deprecat_os.Fs.Directory.Block.{Name, dot, dot_dot, name_len}
use deprecat_os.Fs.Directory.Scan.{name_in, dir_is_empty}
use deprecat_os.Fs.Directory.Link.{
  Request, name_length, is_refused, link_down, insert_into, remove_from_dir,
}
use deprecat_os.Fs.Mount.{return_mnt_root, same_label}
use deprecat_os.Fs.Mount.Table.{S, pure, ◌>>=◌, ◌>>◌, get_system, on}

-- The place that `return_mnt_root` leads to: is it a mount point, which file system, which inode.
abbrev pub resolve : ℕ → ℕ → S (Bool × ℕ × ℕ)
resolve fs inode_n = do s ← get_system; pure (return_mnt_root s fs inode_n)

-- A name looked up in a directory of the file system it lies in.
unfoldable pub contains_in : ℕ → Name → Volume.M (Option ℕ)
contains_in parent_n name = Volume.◌>>=◌ (get_inode parent_n) (λ found.
    case_option found (Volume.pure none)
      (λ parent. if has_type parent inode_dir_type then name_in parent name else Volume.pure none))

unfoldable pub dir_contains : ℕ → ℕ → Name → S (Option ℕ)
unfolding contains_in
dir_contains fs parent_n name = do (_, fs', n) ← resolve fs parent_n; on fs' (contains_in n name)

-- The child has been read; the parent may lie in another file system.
unfoldable pub insert_child : ℕ → ℕ → ℕ → Name → ℕ → ℕ → Inode → S Bool
insert_child now fs parent_n name len child_n child = do
  (_, fs', n) ← resolve fs parent_n
  if fs' == fs
      then on fs' (
          insert_into (record {
            now = now;
            parent_n = n;
            child_n = child_n;
            child = child;
            name = name;
            len = len;
          }))
      else pure false

unfoldable pub dir_insert : ℕ → ℕ → ℕ → Name → ℕ → S Bool
unfolding insert_child
dir_insert now fs parent_n name child_n =
    let len = name_length name name_len 0 in
    if is_refused len then pure false else do
      child ← on fs (get_inode child_n)
      case_option child (pure false) (insert_child now fs parent_n name len child_n)

unfoldable pub dir_remove : ℕ → ℕ → ℕ → Name → S (Option ℕ)
dir_remove now fs parent_n name =
    if is_refused (name_length name name_len 0)
    then pure none
    else do (_, fs', n) ← resolve fs parent_n; on fs' (remove_from_dir now n name)

-- The parent is a directory that has no entry for the name.
unfoldable pub is_new : ℕ → Name → Volume.M Bool
is_new parent_n name = Volume.◌>>=◌ (get_inode parent_n) (λ found.
    case_option found (Volume.pure false) (λ parent.
      if has_type parent inode_dir_type
      then Volume.◌>>=◌ (name_in parent name) (λ n. Volume.pure (case_option n true (λ _. false)))
      else Volume.pure false))

-- The block of a new directory: one entry that is not in use.
unfoldable pub empty_directory : Bytes
empty_directory = set16 (λ _. 0) 4 4096

-- The entries of a new directory, and its entry in the parent; the result of `make_dir`.
unfoldable pub link_dir : ℕ → ℕ → ℕ → Name → ℕ → S (Option (ℕ × ℕ))
unfolding dir_insert
link_dir now fs parent_n name child_n = do
  self ← dir_insert now fs child_n dot child_n
  if not self then pure none else do
    up ← dir_insert now fs child_n dot_dot parent_n
    if not up then pure none else do
      linked ← dir_insert now fs parent_n name child_n
      pure (if linked then some (child_n, fs) else none)

unfoldable pub make_dir : ℕ → ℕ → ℕ → Name → S (Option (ℕ × ℕ))
unfolding is_new empty_directory link_dir
make_dir now fs parent_n name = if is_refused (name_length name name_len 0) then pure none else do
  (_, fs', n) ← resolve fs parent_n
  new ← on fs' (is_new n name)
  if not new then pure none else do
    made ← on fs' (put_inode now empty_directory 4096 true)
    case_option made (pure none) (λ child. link_dir now fs' n name child.0)

-- The entry of a new file in its parent; without one the inode is given back.
unfoldable pub link_file : ℕ → ℕ → ℕ → Name → ℕ → S (Option (ℕ × ℕ))
unfolding dir_insert
link_file now fs parent_n name child_n = do
  linked ← dir_insert now fs parent_n name child_n
  if linked then pure (some (child_n, fs)) else do _ ← on fs (free_inode child_n); pure none

-- The contents of a new file are the null pointer, of which no byte is read.
unfoldable pub make_file : ℕ → Bytes → ℕ → ℕ → Name → S (Option (ℕ × ℕ))
unfolding is_new link_file
make_file now null fs parent_n name =
    if is_refused (name_length name name_len 0) then pure none else do
      (_, fs', n) ← resolve fs parent_n
      new ← on fs' (is_new n name)
      if not new then pure none else do
        made ← on fs' (put_inode now null 0 false)
        case_option made (pure none) (λ child. link_file now fs' n name child.0)

-- What has lost its last link is deleted.
unfoldable pub drop_unlinked : ℕ → ℕ → ℕ → S Bool
drop_unlinked now fs n = do
  found ← on fs (get_inode n)
  case_option found (pure false)
      (λ inode. if hard_link_cnt inode == 0 then on fs (delete_inode now n) else pure true)

unfoldable pub unlink_found : ℕ → ℕ → ℕ → Name → Inode → S Bool
unfolding dir_remove drop_unlinked
unlink_found now fs parent_n name to_remove =
    if has_type to_remove inode_dir_type then pure false else do
      gone ← dir_remove now fs parent_n name
      case_option gone (pure false) (drop_unlinked now fs)

unfoldable pub unlink_inode : ℕ → ℕ → ℕ → Name → S Bool
unfolding contains_in unlink_found
unlink_inode now fs parent_n name = do
  (_, fs', p) ← resolve fs parent_n
  child ← on fs' (contains_in p name)
  case_option child (pure false) (λ n. do
    found ← on fs' (get_inode n)
    case_option found (pure false) (unlink_found now fs' p name))

-- `streq(name, ".") || streq(name, "..")`
abbrev pub is_dots : Name → Bool
is_dots name = same_label 3 name dot 0 || same_label 3 name dot_dot 0

-- The parent has a link less, and the removed directory is deleted.
unfoldable pub drop_dir : ℕ → ℕ → ℕ → ℕ → S Bool
drop_dir now fs parent_n n = do
  found ← on fs (get_inode parent_n)
  case_option found (pure false) (λ parent. do
    ok ← on fs (set_inode parent_n (link_down parent))
    if not ok then pure false else do
      child ← on fs (get_inode n)
      case_option child (pure false) (λ _. on fs (delete_inode now n)))

unfoldable pub unlink_found_dir : ℕ → ℕ → ℕ → Name → Inode → S Bool
unfolding dir_remove drop_dir
unlink_found_dir now fs parent_n name to_remove =
    if not (has_type to_remove inode_dir_type) then pure false else do
      empty ← on fs (dir_is_empty to_remove)
      if not empty then pure false else do
        gone ← dir_remove now fs parent_n name
        case_option gone (pure false) (drop_dir now fs parent_n)

unfoldable pub unlink_dir : ℕ → ℕ → ℕ → Name → S Bool
unfolding contains_in unlink_found_dir
unlink_dir now fs parent_n name = if is_dots name then pure false else do
  (_, fs', p) ← resolve fs parent_n
  child ← on fs' (contains_in p name)
  case_option child (pure false) (λ n. do
    (busy, _, _) ← resolve fs' n
    if busy then pure false else do
      found ← on fs' (get_inode n)
      case_option found (pure false) (unlink_found_dir now fs' p name))
