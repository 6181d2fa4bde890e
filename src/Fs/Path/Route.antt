-- ===== src/Fs/Path/Route.antt =====
-- Where a path leads, said of the table of mounted file systems and of the entries in the blocks of
-- the directories on the way, and that `lookup_path` goes there.
use deprecat_os.Prelude.{
  ℕ, zero, suc, ◌+◌, ◌≤◌, ◌<◌, ◌≡◌, ◌≢◌, ◌∙◌, ◌⊎◌, ap, refl, subst, fun_ext, Bool, true, false,
  Option, none, some, List, [], ◌∷◌, length, write, arith, Bool-cases, inl, inr, ◌==◌,
}
use deprecat_os.Fs.Volume.{M}
use deprecat_os.Fs.Inode.{Inode, get_inode}
use deprecat_os.Fs.File.Fields.{has_type, inode_dir_type, inode_symlink_type}
use deprecat_os.Fs.Directory.Block.{Name}
use deprecat_os.Fs.Directory.Block.Find.{first}
use deprecat_os.Fs.Mount.{mounted_at, return_mnt_root, return_mnt_mountpoint}
use deprecat_os.Fs.Mount.Table.{Mounted, System, ◌>>=◌, volume_of, after_volume, on}
use deprecat_os.Fs.Path.{lookup_path}
use deprecat_os.Fs.Path.Step.{Node, enter, child_of}
use deprecat_os.Fs.Path.Spell.{text, path_text, AreComponents}
use deprecat_os.Fs.Path.Child.{IsDirectory, inodes_in, child_of-none, child_of-some, child_of-file}
use deprecat_os.Fs.Path.Plain.{Descent, missing, reached, descend, Answers, lookup_path-descend}

-- From a directory that a file system is mounted on, to the root directory of that file system.
pub data Into (s : System) (fs n : ℕ) : ℕ → ℕ → Type 0 where
  mounted_on :
      (i : ℕ)
      → fs ≡ s.root_fs
      → i < 8
      → (s.entries i).mountpoint ≡ n
      → ((j : ℕ) → j < i → (s.entries j).mountpoint ≢ n)
      → Into s fs n i 2
  not_mounted_on :
      (fs ≢ s.root_fs) ⊎ ((i : ℕ) → i < 8 → (s.entries i).mountpoint ≢ n) → Into s fs n fs n

-- From the root directory of a mounted file system, to what it is mounted on.
pub data OutOf (s : System) (fs n : ℕ) : ℕ → ℕ → Type 0 where
  at_top : fs ≢ s.root_fs → n ≡ 2 → OutOf s fs n s.root_fs (s.entries fs).mountpoint
  below_top : (fs ≡ s.root_fs) ⊎ (n ≢ 2) → OutOf s fs n fs n

-- The name in the directory leads to the node, across mount points before and behind.
pub record Leads (s : System) (fs n : ℕ) (name : Name) (node : Node) : Type 0 where
  pub d : ℕ
  pub m : ℕ
  pub into : Into s fs n d m
  pub parent : Inode
  pub sizes : ℕ → List ℕ
  pub directory : IsDirectory (volume_of s d) m parent sizes
  pub c : ℕ
  pub found : first (inodes_in (volume_of s d) parent sizes name) ≡ some c
  pub stored : get_inode c (volume_of s d) ≡ some (some node.inode, volume_of s d)
  pub out_of : OutOf s d c node.fs node.n

-- The name leads nowhere: the directory has no such entry, or is no directory.
pub data Ends (s : System) (fs n : ℕ) (name : Name) : Type 0 where
  no_entry :
      (d m : ℕ) (parent : Inode) (sizes : ℕ → List ℕ)
      → Into s fs n d m
      → IsDirectory (volume_of s d) m parent sizes
      → first (inodes_in (volume_of s d) parent sizes name) ≡ none
      → Ends s fs n name
  no_directory :
      (d m : ℕ) (parent : Inode)
      → Into s fs n d m
      → get_inode m (volume_of s d) ≡ some (some parent, volume_of s d)
      → has_type parent inode_dir_type ≡ false
      → Ends s fs n name

-- The names one after the other, from a directory to a place or nowhere, without a link that has to
-- be followed.
pub data Route (s : System) (follow : Bool) : List (List ℕ) → ℕ → ℕ → Option (ℕ × ℕ) → Type 0 where
  arrives : (fs n : ℕ) → Route s follow [] fs n (some (fs, n))
  ends :
      (c : List ℕ) (cs : List (List ℕ)) (fs n : ℕ)
      → Ends s fs n (text c)
      → Route s follow (c ∷ cs) fs n none
  stops :
      (c : List ℕ) (fs n : ℕ) (node : Node)
      → follow ≡ false
      → Leads s fs n (text c) node
      → Route s follow (c ∷ []) fs n (some (node.fs, node.n))
  goes_on :
      (c : List ℕ) (cs : List (List ℕ)) (fs n : ℕ) (node : Node) (end : Option (ℕ × ℕ))
      → Leads s fs n (text c) node
      → has_type node.inode inode_symlink_type ≡ false
      → Route s follow cs node.fs node.n end
      → Route s follow (c ∷ cs) fs n end

write_same : {A : Type 0} (f : ℕ → A) (i : ℕ) → write f i (f i) ≡ f
unfolding write
write_same f i = fun_ext (λ k. elim (Bool-cases (k == i)) [
  | inl e ↦ let same : i ≡ k = ground (arith, e) in rw e (ap f same)
  | inr e ↦ rw e refl
])

module _ (s : System) where
  after_same : (fs : ℕ) → after_volume s fs (volume_of s fs) ≡ s
  unfolding after_volume
  after_same fs = ap (λ (es : ℕ → Mounted). record s { entries = es }) (write_same s.entries fs)

  first_mounted :
      (n i left part : ℕ)
      → part ≤ i
      → i < part + left
      → (s.entries i).mountpoint ≡ n
      → ((j : ℕ) → j < i → (s.entries j).mountpoint ≢ n)
      → mounted_at s.entries n left part ≡ some i
  unfolding mounted_at
  first_mounted n i zero part lo hi at before = absurd (omega (arith, lo, hi))
  first_mounted n i (suc left) part lo hi at before = elim (Bool-cases (part == i)) [
    | inl e ↦
        let here : part ≡ i = ground (arith, e) in
        let mounted : ((s.entries part).mountpoint == n) ≡ true =
          ground (arith, ap (λ k. (s.entries k).mountpoint) here, at) in
        rw mounted (ap some here)
    | inr e ↦
        let later : part < i = ground (arith, e) in
        let other : ((s.entries part).mountpoint == n) ≡ false =
          ground (arith, before part later) in
        rw other (first_mounted n i left (part + 1) (omega arith) (omega arith) at before)
  ]

  none_mounted :
      (n left part : ℕ)
      → part + left ≤ 8
      → ((i : ℕ) → i < 8 → (s.entries i).mountpoint ≢ n)
      → mounted_at s.entries n left part ≡ none
  unfolding mounted_at
  none_mounted n zero part h none_at = refl
  none_mounted n (suc left) part h none_at =
      let other : ((s.entries part).mountpoint == n) ≡ false =
        ground (arith, none_at part (omega arith)) in
      rw other (none_mounted n left (part + 1) (omega arith) none_at)

  return_mnt_root-Into :
      {fs n d m : ℕ} → Into s fs n d m → (b : Bool) × (return_mnt_root s fs n ≡ (b, d, m))
  unfolding return_mnt_root
  return_mnt_root-Into {fs} {n} (mounted_on i on_root small at before) =
      let root : (fs == s.root_fs) ≡ true = ground (arith, on_root) in
      (true, rw (root, first_mounted n i 8 0 (omega arith) (omega arith) at before) refl)
  return_mnt_root-Into {fs} {n} (not_mounted_on (inl away)) =
      let root : (fs == s.root_fs) ≡ false = ground (arith, away) in (false, rw root refl)
  return_mnt_root-Into {fs} {n} (not_mounted_on (inr none_at)) = (
    false,
    elim (Bool-cases (fs == s.root_fs)) [
      | inl e ↦ rw (e, none_mounted n 8 0 (omega arith) none_at) refl
      | inr e ↦ rw e refl
    ],
  )

  return_mnt_mountpoint-OutOf :
      {fs n d m : ℕ} → OutOf s fs n d m → (b : Bool) × (return_mnt_mountpoint s fs n ≡ (b, d, m))
  unfolding return_mnt_mountpoint
  return_mnt_mountpoint-OutOf {fs} {n} (at_top away top) =
      let root : (fs == s.root_fs) ≡ false = ground (arith, away) in
      let two : (n == 2) ≡ true = ground (arith, top) in (true, rw (root, two) refl)
  return_mnt_mountpoint-OutOf {fs} {n} (below_top (inl same)) =
      let root : (fs == s.root_fs) ≡ true = ground (arith, same) in (false, rw root refl)
  return_mnt_mountpoint-OutOf {fs} {n} (below_top (inr low)) =
      let two : (n == 2) ≡ false = ground (arith, low) in
      (false, elim (Bool-cases (fs == s.root_fs)) [ inl e ↦ rw e refl | inr e ↦ rw (e, two) refl ])

  -- An operation that leaves the volume alone leaves the system alone.
  on_same :
      {A : Type 0} (d : ℕ) (op : M A) (a : A)
      → op (volume_of s d) ≡ some (a, volume_of s d)
      → on d op s ≡ some (a, s)
  unfolding on
  on_same d op a e = rw (on, e) (ap (λ t. some (a, t)) (after_same d))

  enter-Leads :
      {fs n : ℕ} {name : Name} {node : Node}
      → Leads s fs n name node
      → enter fs n name s ≡ some (some node, s)
  unfolding enter
  enter-Leads {fs} {n} {name} {node} l =
      let into = return_mnt_root-Into l.into in
      let out = return_mnt_mountpoint-OutOf l.out_of in
      let child =
        on_same l.d (child_of l.m name) (some (l.c, node.inode))
          (child_of-some name l.c node.inode l.directory l.found l.stored) in
      let end : return_mnt_mountpoint s (return_mnt_root s fs n).1 l.c ≡ (out.0, node.fs, node.n) =
        ap (λ (r : Bool × ℕ × ℕ). return_mnt_mountpoint s r.1 l.c) into.1 ∙ out.1 in
      let to_node : Bool × ℕ × ℕ → Node = λ r. record { fs = r.1; n = r.2; inode = node.inode } in
      rw (enter, ◌>>=◌, into.1, child) (ap (λ r. some (some (to_node r), s)) end)

  enter-Ends : {fs n : ℕ} {name : Name} → Ends s fs n name → enter fs n name s ≡ some (none, s)
  unfolding enter
  enter-Ends {fs} {n} {name} (no_entry d m parent sizes i dir e) =
      let into = return_mnt_root-Into i in
      let child = on_same d (child_of m name) none (child_of-none name dir e) in
      rw (enter, ◌>>=◌, into.1, child) refl
  enter-Ends {fs} {n} {name} (no_directory d m parent i stored file) =
      let into = return_mnt_root-Into i in
      let child = on_same d (child_of m name) none (child_of-file m name stored file) in
      rw (enter, ◌>>=◌, into.1, child) refl

  -- What a descent comes to.
  outcome : Option (ℕ × ℕ) → Descent
  outcome none = missing
  outcome (some (fs, n)) = reached fs n

  descend-Route :
      {follow : Bool} {cs : List (List ℕ)} {fs n : ℕ} {end : Option (ℕ × ℕ)}
      → Route s follow cs fs n end
      → descend follow cs fs n s ≡ some (outcome end, s)
  unfolding descend outcome
  descend-Route (arrives fs n) = refl
  descend-Route (ends c cs fs n e) = rw (descend, ◌>>=◌, enter-Ends e) refl
  descend-Route (stops c fs n node unfollowed l) =
      rw (descend, ◌>>=◌, enter-Leads l, unfollowed) refl
  descend-Route {follow} (goes_on c [] fs n node end l plain (arrives _ _)) =
      elim (Bool-cases follow) [
        | inl e ↦ rw (descend, ◌>>=◌, enter-Leads l, e, plain) refl
        | inr e ↦ rw (descend, ◌>>=◌, enter-Leads l, e) refl
      ]
  descend-Route (goes_on c (c' ∷ cs) fs n node end l plain rest) =
      rw (descend, ◌>>=◌, enter-Leads l, plain) (descend-Route rest)

Answers-outcome :
    (s : System) (end : Option (ℕ × ℕ)) (w : Option (Option (ℕ × ℕ) × System))
    → Answers (some (outcome s end, s)) w
    → w ≡ some (end, s)
unfolding Answers outcome
Answers-outcome s none w a = a
Answers-outcome s (some (fs, n)) w a = a

-- For a path of up to 4095 characters, written as components of 1 to 255 characters other than '/'
-- and NUL with a '/' before each, `lookup_path` follows the route of its names from the root
-- directory of the root file system, when no link has to be followed. Each name is looked up in a
-- directory of a mounted volume whose blocks are all there, in the partition and laid out, and
-- leads to the first entry in use with it, whose inode can be read; a directory that a file system
-- is mounted on stands for the root directory of the first such file system of the table, and an
-- entry for the root directory of a file system other than the root leads to its mount point.
-- Where the route arrives `lookup_path` returns the file system and the inode; where the directory
-- has no such entry, or a name is looked up in what is no directory, it fails. The system is as it
-- was.
pub lookup_path-Route :
    (s : System) (c : List ℕ) (cs : List (List ℕ)) (follow : Bool) (end : Option (ℕ × ℕ))
    → AreComponents (c ∷ cs)
    → length (path_text (c ∷ cs)) < 4096
    → Route s follow (c ∷ cs) s.root_fs 2 end
    → lookup_path (text (path_text (c ∷ cs))) follow s ≡ some (end, s)
lookup_path-Route s c cs follow end ok short r = Answers-outcome s end _ (
    subst (λ d. Answers d (lookup_path (text (path_text (c ∷ cs))) follow s)) (descend-Route s r)
      (lookup_path-descend c cs follow s ok short))
