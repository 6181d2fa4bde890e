-- ===== src/Fs/Path.antt =====
-- `lookup_path` of kernel/fs/ext2/directoryController.c: a path resolved through directories, mount
-- points and symbolic links. A path is a string that ends in a NUL.
pub mod Step
pub mod Spell
pub mod Plain
pub mod Child
pub mod Route
pub mod Rounds
mod Tests
use deprecat_os.Prelude.{
  ℕ, zero, suc, ◌+◌, ◌-◌, max, Bool, true, false, not, ◌&&◌, ◌||◌, Option, none, some, ◌==◌, ltb,
  leb, if◌then◌else◌, case_option,
}
use deprecat_os.Fs.Bytes.{Bytes}
use deprecat_os.Fs.Inode.{Inode, size_lo}
use deprecat_os.Fs.File.Fields.{has_type, inode_symlink_type}
use deprecat_os.Fs.Directory.Block.{Name, name_len}
use deprecat_os.Fs.Directory.Scan.{root_inode_n}
use deprecat_os.Fs.Directory.Link.{name_length}
use deprecat_os.Fs.Mount.Table.{S, pure, ◌>>=◌, get_system, on}
use deprecat_os.Fs.Path.Step.{Node, enter, target_of}

-- PATH_LEN and SYMLINK_MAX_DEPTH
abbrev pub path_len : ℕ
path_len = 4096

abbrev pub symlink_max_depth : ℕ
symlink_max_depth = 8

-- The loop that looks for the next '/', on fuel, with `c` and `j`.
unfoldable pub slash_loop : Bytes → ℕ → ℕ → ℕ → ℕ → ℕ
slash_loop p len zero c j = j
slash_loop p len (suc fuel) c j =
    let rest = slash_loop p len fuel (p j) (j + 1) in
    if c == 47 then j else if leb len j then len + 1 else rest

-- The end of the component that starts at `ind`.
unfoldable pub component_end : Bytes → ℕ → ℕ → ℕ
unfolding slash_loop
component_end p len ind = max ind (slash_loop p len (len + 2) (p ind) ind - 1)

-- `name`
unfoldable pub component : Bytes → ℕ → ℕ → Name
component p ind j k = if ltb k (j - ind) then p (ind + k) else 0

-- The target of a link in place of the component from `ind` to `j`, unless that is too long.
unfoldable pub spliced_path : Bytes → ℕ → ℕ → ℕ → Bytes → ℕ → Option Bytes
spliced_path p len ind j target tlen =
    let kept = if target 0 == 47 then 0 else ind in
    let total = kept + tlen + (len - j) in
    if ltb (path_len - 1) total
    then none
    else some (λ k.
      if ltb k kept
      then p k
      else if ltb k (kept + tlen)
      then target (k - kept)
      else if ltb k total
      then p (j + (k - (kept + tlen)))
      else 0)

-- What the walk along one path comes to: `false`, an inode, or a path with a link put in.
pub data Walked : Type 0 where
  refused : Walked
  arrived : ℕ → ℕ → Walked
  respliced : Bytes → Walked

-- A link is followed.
unfoldable pub follow_link : Bytes → ℕ → ℕ → ℕ → Node → S Walked
unfolding spliced_path
follow_link p len ind j node = do
  target ← on node.fs (target_of node.inode)
  pure (
      case_option (spliced_path p len ind j target (size_lo node.inode)) refused
        (λ p'. respliced p'))

-- What follows a component that was found.
unfoldable pub after_component : Bytes → ℕ → Bool → ℕ → ℕ → (ℕ → ℕ → ℕ → S Walked) → Node → S Walked
unfolding follow_link
after_component p len follow ind j next node =
    if j == len && not follow
    then pure (arrived node.fs node.n)
    else if has_type node.inode inode_symlink_type
    then follow_link p len ind j node
    else next (j + 1) node.fs node.n

-- A round of the loop over the components, with the rest of the loop.
unfoldable pub component_round : Bytes → ℕ → Bool → (ℕ → ℕ → ℕ → S Walked) → ℕ → ℕ → ℕ → S Walked
unfolding component_end component after_component
component_round p len follow next ind fs n =
    let j = component_end p len ind in
    if not (ltb ind len)
    then pure (arrived fs n)
    else if j == ind
    then next (j + 1) fs n
    else if leb name_len (j - ind)
    then pure refused
    else do
      found ← enter fs n (component p ind j)
      case_option found (pure refused) (after_component p len follow ind j next)

-- The loop, on fuel.
unfoldable pub walk : ℕ → Bytes → ℕ → Bool → ℕ → ℕ → ℕ → S Walked
unfolding component_round
walk zero p len follow ind fs n = pure (arrived fs n)
walk (suc fuel) p len follow ind fs n =
    component_round p len follow (λ ind' fs' n'. walk fuel p len follow ind' fs' n') ind fs n

abbrev pub case_walked {ℓ} : {B : Type ℓ} → Walked → B → (ℕ → ℕ → B) → (Bytes → B) → B
case_walked refused a f g = a
case_walked (arrived fs n) a f g = f fs n
case_walked (respliced p) a f g = g p

-- The loop over `splices`: a walk from the root along each path.
unfoldable pub splice_round : Bytes → Bool → (Bytes → S (Option (ℕ × ℕ))) → S (Option (ℕ × ℕ))
unfolding walk
splice_round p follow next =
    let len = name_length p path_len 0 in
    if len == path_len then pure none else do
      s ← get_system
      end ← walk len p len follow 1 s.root_fs root_inode_n
      case_walked end (pure none) (λ fs n. pure (some (fs, n))) next

unfoldable pub splice_loop : ℕ → Bytes → Bool → S (Option (ℕ × ℕ))
unfolding splice_round
splice_loop zero p follow = pure none
splice_loop (suc left) p follow = splice_round p follow (λ p'. splice_loop left p' follow)

-- The file system and the inode, which the code writes through `fs_out` and `out`.
unfoldable pub lookup_path : Bytes → Bool → S (Option (ℕ × ℕ))
unfolding splice_loop
lookup_path path follow_leaf_link =
    if path 0 == 47 then splice_loop (symlink_max_depth + 1) path follow_leaf_link else pure none
