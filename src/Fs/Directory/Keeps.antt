-- ===== src/Fs/Directory/Keeps.antt =====
-- The operations on directories stay within the volume.
use deprecat_os.Prelude.{ℕ, zero, suc, ◌+◌, Bool, true, false, Option, none}
use deprecat_os.Fs.Bytes.{Bytes}
use deprecat_os.Fs.Volume.{FsInfo, M}
use deprecat_os.Fs.Volume.Keeps.{Keeps, Keeps-pure}
use deprecat_os.Fs.Inode.{Inode}
use deprecat_os.Fs.File.Keeps.Change.{keeps_files}
use deprecat_os.Fs.Directory.Block.{
  Name, Insertion, corrupt, full, stored, Removal, malformed, absent, removed,
}
use deprecat_os.Fs.Directory.Scan.{
  name_round, name_blocks, name_in, empty_round, empty_blocks, dir_is_empty, case_insertion,
  parent_round, parent_blocks, set_parent_checked, dir_set_parent_entry, ancestor_round,
  ancestor_loop, is_ancestor, max_dir_depth,
}
use deprecat_os.Fs.Directory.Link.{
  Request, store_both, insert_round, insert_grown, insert_blocks, insert_into, unlink_child,
  case_removal, remove_round, remove_blocks, remove_from_dir,
}

Keeps-insertion :
    {g : FsInfo} {A : Type 0} (r : Insertion) (a b : M A) (f : Bytes → M A)
    → Keeps g a
    → Keeps g b
    → ((block : Bytes) → Keeps g (f block))
    → Keeps g (case_insertion r a b f)
Keeps-insertion corrupt a b f p q r = p
Keeps-insertion full a b f p q r = q
Keeps-insertion (stored block) a b f p q r = r block

Keeps-removal :
    {g : FsInfo} {A : Type 0} (r : Removal) (a b : M A) (f : Bytes → ℕ → M A)
    → Keeps g a
    → Keeps g b
    → ((block : Bytes) (n : ℕ) → Keeps g (f block n))
    → Keeps g (case_removal r a b f)
Keeps-removal malformed a b f p q r = p
Keeps-removal absent a b f p q r = q
Keeps-removal (removed block n) a b f p q r = r block n

ruleset keeps_directories = (keeps_files, Keeps-insertion, Keeps-removal)

Keeps-name_round :
    {g : FsInfo} (name : Name) (i : ℕ) (next : Inode → M (Option ℕ)) (inode : Inode)
    → ((inode' : Inode) → Keeps g (next inode'))
    → Keeps g (name_round name i next inode)
unfolding name_round
Keeps-name_round name i next inode q = search (keeps_directories, q) depth 9

Keeps-name_blocks :
    {g : FsInfo} (name : Name) (n i : ℕ) (inode : Inode) → Keeps g (name_blocks name n i inode)
unfolding name_blocks
Keeps-name_blocks name zero i inode = Keeps-pure none
Keeps-name_blocks name (suc n) i inode =
    Keeps-name_round name i _ inode (λ inode'. Keeps-name_blocks name n (i + 1) inode')

pub Keeps-name_in : {g : FsInfo} (inode : Inode) (name : Name) → Keeps g (name_in inode name)
unfolding name_in
Keeps-name_in inode name = Keeps-name_blocks name _ 0 inode

Keeps-empty_round :
    {g : FsInfo} (i : ℕ) (next : Inode → M Bool) (inode : Inode)
    → ((inode' : Inode) → Keeps g (next inode'))
    → Keeps g (empty_round i next inode)
unfolding empty_round
Keeps-empty_round i next inode q = search (keeps_directories, q) depth 9

Keeps-empty_blocks : {g : FsInfo} (n i : ℕ) (inode : Inode) → Keeps g (empty_blocks n i inode)
unfolding empty_blocks
Keeps-empty_blocks zero i inode = Keeps-pure true
Keeps-empty_blocks (suc n) i inode =
    Keeps-empty_round i _ inode (λ inode'. Keeps-empty_blocks n (i + 1) inode')

pub Keeps-dir_is_empty : {g : FsInfo} (inode : Inode) → Keeps g (dir_is_empty inode)
unfolding dir_is_empty
Keeps-dir_is_empty inode = Keeps-empty_blocks _ 0 inode

Keeps-parent_round :
    {g : FsInfo} (parent_n i : ℕ) (next : Inode → M Bool) (inode : Inode)
    → ((inode' : Inode) → Keeps g (next inode'))
    → Keeps g (parent_round parent_n i next inode)
unfolding parent_round
Keeps-parent_round parent_n i next inode q = search (keeps_directories, q) depth 9

Keeps-parent_blocks :
    {g : FsInfo} (parent_n n i : ℕ) (inode : Inode) → Keeps g (parent_blocks parent_n n i inode)
unfolding parent_blocks
Keeps-parent_blocks parent_n zero i inode = Keeps-pure false
Keeps-parent_blocks parent_n (suc n) i inode =
    Keeps-parent_round parent_n i _ inode (λ inode'. Keeps-parent_blocks parent_n n (i + 1) inode')

Keeps-set_parent_checked :
    {g : FsInfo} (parent_n : ℕ) (c p : Inode) → Keeps g (set_parent_checked parent_n c p)
unfolding set_parent_checked
Keeps-set_parent_checked parent_n c p = search (keeps_directories, Keeps-parent_blocks)

pub Keeps-dir_set_parent_entry :
    {g : FsInfo} (child_n parent_n : ℕ) → Keeps g (dir_set_parent_entry child_n parent_n)
unfolding dir_set_parent_entry
Keeps-dir_set_parent_entry child_n parent_n =
    search (keeps_directories, Keeps-set_parent_checked) depth 9

Keeps-ancestor_round :
    {g : FsInfo} (a : ℕ) (next : ℕ → M Bool) (cur : ℕ)
    → ((cur' : ℕ) → Keeps g (next cur'))
    → Keeps g (ancestor_round a next cur)
unfolding ancestor_round
Keeps-ancestor_round a next cur q = search (keeps_directories, Keeps-name_in, q) depth 9

Keeps-ancestor_loop : {g : FsInfo} (n a cur : ℕ) → Keeps g (ancestor_loop n a cur)
unfolding ancestor_loop
Keeps-ancestor_loop zero a cur = Keeps-pure true
Keeps-ancestor_loop (suc n) a cur =
    Keeps-ancestor_round a _ cur (λ cur'. Keeps-ancestor_loop n a cur')

pub Keeps-is_ancestor : {g : FsInfo} (a d : ℕ) → Keeps g (is_ancestor a d)
unfolding is_ancestor
Keeps-is_ancestor a d = Keeps-ancestor_loop max_dir_depth a d

Keeps-store_both :
    {g : FsInfo} (now parent_n child_n : ℕ) (c p : Inode)
    → Keeps g (store_both now parent_n child_n c p)
unfolding store_both
Keeps-store_both now parent_n child_n c p = search keeps_directories depth 9

Keeps-insert_round :
    {g : FsInfo} (r : Request) (i : ℕ) (next : Inode → M Bool) (p : Inode)
    → ((p' : Inode) → Keeps g (next p'))
    → Keeps g (insert_round r i next p)
unfolding insert_round
Keeps-insert_round r i next p q = search (keeps_directories, Keeps-store_both, q) depth 9

Keeps-insert_grown : {g : FsInfo} (r : Request) (p : Inode) → Keeps g (insert_grown r p)
unfolding insert_grown
Keeps-insert_grown r p = search (keeps_directories, Keeps-store_both) depth 9

Keeps-insert_blocks :
    {g : FsInfo} (r : Request) (n i : ℕ) (p : Inode) → Keeps g (insert_blocks r n i p)
unfolding insert_blocks
Keeps-insert_blocks r zero i p = Keeps-insert_grown r p
Keeps-insert_blocks r (suc n) i p =
    Keeps-insert_round r i _ p (λ p'. Keeps-insert_blocks r n (i + 1) p')

pub Keeps-insert_into : {g : FsInfo} (r : Request) → Keeps g (insert_into r)
unfolding insert_into
Keeps-insert_into r = search (keeps_directories, Keeps-insert_blocks) depth 9

Keeps-unlink_child :
    {g : FsInfo} (now parent_n : ℕ) (p : Inode) (n : ℕ) → Keeps g (unlink_child now parent_n p n)
unfolding unlink_child
Keeps-unlink_child now parent_n p n = search (keeps_directories, Keeps-store_both) depth 9

Keeps-remove_round :
    {g : FsInfo} (now parent_n : ℕ) (name : Name) (i : ℕ) (next : Inode → M (Option ℕ)) (p : Inode)
    → ((p' : Inode) → Keeps g (next p'))
    → Keeps g (remove_round now parent_n name i next p)
unfolding remove_round
Keeps-remove_round now parent_n name i next p q =
    search (keeps_directories, Keeps-unlink_child, q) depth 9

Keeps-remove_blocks :
    {g : FsInfo} (now parent_n : ℕ) (name : Name) (n i : ℕ) (p : Inode)
    → Keeps g (remove_blocks now parent_n name n i p)
unfolding remove_blocks
Keeps-remove_blocks now parent_n name zero i p = Keeps-pure none
Keeps-remove_blocks now parent_n name (suc n) i p =
    Keeps-remove_round now parent_n name i _ p
      (λ p'. Keeps-remove_blocks now parent_n name n (i + 1) p')

pub Keeps-remove_from_dir :
    {g : FsInfo} (now parent_n : ℕ) (name : Name) → Keeps g (remove_from_dir now parent_n name)
unfolding remove_from_dir
Keeps-remove_from_dir now parent_n name = search (keeps_directories, Keeps-remove_blocks) depth 9
