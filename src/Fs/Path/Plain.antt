-- ===== src/Fs/Path/Plain.antt =====
-- `lookup_path` on a path where no symbolic link is met.
use deprecat_os.Prelude.{
  ℕ, zero, suc, ◌+◌, ◌-◌, ◌≤◌, ◌<◌, ◌≡◌, ◌≢◌, ◌∙◌, ◌⊎◌, inl, inr, ap, subst, refl, sym, Bool, true,
  false, not, ◌&&◌, Option, none, some, List, [], ◌∷◌, ◌++◌, length, length-append, arith, ◌==◌,
  ltb, leb, if◌then◌else◌, case_option,
}
use deprecat_os.Fs.Bytes.{Bytes}
use deprecat_os.Fs.File.Fields.{has_type, inode_symlink_type}
use deprecat_os.Fs.Directory.Scan.{root_inode_n}
use deprecat_os.Fs.Directory.Link.{name_length}
use deprecat_os.Fs.Mount.Table.{System, S, pure, ◌>>=◌}
use deprecat_os.Fs.Path.Step.{Node, enter}
use deprecat_os.Fs.Path.{
  Walked, refused, arrived, component_end, component, after_component, follow_link, component_round,
  walk, case_walked, splice_round, splice_loop, lookup_path,
}
use deprecat_os.Fs.Path.Spell.{
  text, path_text, NoSlash, AreComponents, At, At-append, component-text, no_slash,
  component_end_lem, name_length-text,
}

-- Going down from a directory, one name after the other.
pub data Descent : Type 0 where
  missing linked : Descent
  reached : ℕ → ℕ → Descent

abbrev pub is_last : List (List ℕ) → Bool
is_last [] = true
is_last (c ∷ cs) = false

-- A link at the end counts as reached only when links at the end are not followed.
unfoldable pub descend : Bool → List (List ℕ) → ℕ → ℕ → S Descent
descend follow [] fs n = pure (reached fs n)
descend follow (c ∷ cs) fs n = enter fs n (text c) >>= λ found.
    case_option found (pure missing) (λ node.
      if is_last cs && not follow
      then pure (reached node.fs node.n)
      else if has_type node.inode inode_symlink_type
      then pure linked
      else descend follow cs node.fs node.n)

-- What a walk does where a descent does this; nothing is said where a link is met.
unfoldable Agrees : Option (Descent × System) → Option (Walked × System) → Type 0
Agrees none w = w ≡ none
Agrees (some (missing, s)) w = w ≡ some (refused, s)
Agrees (some (linked, s)) w = Unit {0}
Agrees (some (reached fs n, s)) w = w ≡ some (arrived fs n, s)

-- What `lookup_path` returns where a descent does this; nothing is said where a link is met.
unfoldable pub Answers : Option (Descent × System) → Option (Option (ℕ × ℕ) × System) → Type 0
Answers none w = w ≡ none
Answers (some (missing, s)) w = w ≡ some (none, s)
Answers (some (linked, s)) w = Unit {0}
Answers (some (reached fs n, s)) w = w ≡ some (some (fs, n), s)

Agrees-bind :
    {A : Type 0} (r : Option (A × System)) (f : A → S Descent) (h : A → S Walked)
    → ((a : A) (s : System) → Agrees (f a s) (h a s))
    → Agrees
        (elim r [ none ↦ none | some (a, s) ↦ f a s ])
        (elim r [ none ↦ none | some (a, s) ↦ h a s ])
unfolding Agrees
Agrees-bind none f h q = refl
Agrees-bind (some (a, s)) f h q = q a s

Agrees-option :
    (o : Option Node) (f : Node → S Descent) (h : Node → S Walked) (s : System)
    → ((a : Node) → Agrees (f a s) (h a s))
    → Agrees (case_option o (pure missing) f s) (case_option o (pure refused) h s)
unfolding Agrees
Agrees-option none f h s q = refl
Agrees-option (some a) f h s q = q a

Agrees-ends :
    (stop link : Bool) (node : Node) (m : S Walked) (f : S Descent) (h : S Walked) (s : System)
    → Agrees (f s) (h s)
    → Agrees
        ((if stop then pure (reached node.fs node.n) else if link then pure linked else f) s)
        ((if stop then pure (arrived node.fs node.n) else if link then m else h) s)
unfolding Agrees
Agrees-ends true link node m f h s q = refl
Agrees-ends false true node m f h s q = tt
Agrees-ends false false node m f h s q = q

Answers-walked :
    (d : Option (Descent × System)) (w : Option (Walked × System))
    (next : Bytes → S (Option (ℕ × ℕ)))
    → Agrees d w
    → Answers d (elim w [
      | none ↦ none
      | some (end, s) ↦ case_walked end (pure none) (λ fs n. pure (some (fs, n))) next s
    ])
unfolding Agrees Answers
Answers-walked none w next e = rw e refl
Answers-walked (some (missing, s)) w next e = rw e refl
Answers-walked (some (linked, s)) w next e = tt
Answers-walked (some (reached fs n, s)) w next e = rw e refl

-- Where the walk stands: the rest of the path, from its '/' on, and the fuel.
record Stands (p : Bytes) (len i fuel : ℕ) (cs : List (List ℕ)) : Type 0 where
  at : At p i (path_text cs)
  end : len ≡ i + length (path_text cs)
  enough : len ≤ fuel + i + 1

round_lem :
    (p : Bytes) (len : ℕ) (follow : Bool) (next : ℕ → ℕ → ℕ → S Walked) (ind e fs n : ℕ)
    (c : List ℕ) (s : System)
    → component_end p len ind ≡ e
    → component p ind e ≡ text c
    → ind < len
    → ind < e
    → e < ind + 256
    → component_round p len follow next ind fs n s
      ≡ (enter fs n (text c) >>= λ found.
            case_option found (pure refused) (after_component p len follow ind e next))
          s
unfolding component_round
round_lem p len follow next ind e fs n c s end name inside pos short =
    let in_path : ltb ind len ≡ true = ground arith in
    let not_empty : (e == ind) ≡ false = ground arith in
    let not_long : leb 256 (e - ind) ≡ false = ground arith in
    rw (component_round, end, in_path, not_empty, not_long, name) refl

last_component :
    (cs : List (List ℕ)) (e len : ℕ) → len ≡ e + length (path_text cs) → (e == len) ≡ is_last cs
unfolding path_text
last_component [] e len h = ground arith
last_component (c ∷ cs) e len h = ground (arith, h)

-- Behind a component the next one starts, or the path ends.
ends_there :
    (p : Bytes) (len e : ℕ) (cs : List (List ℕ))
    → At p e (path_text cs)
    → len ≡ e + length (path_text cs)
    → ((e < len) × (p e ≡ 47)) ⊎ (e ≡ len)
unfolding path_text text
ends_there p len e [] at end = inr (omega (arith, end))
ends_there p len e (c ∷ cs) at end = inl (omega (arith, end), ap p (omega arith) ∙ at 0)

Agrees-component :
    (p : Bytes) (len : ℕ) (follow : Bool) (ind e : ℕ) (cs : List (List ℕ)) (node : Node)
    (next : ℕ → ℕ → ℕ → S Walked) (s : System)
    → (e == len) ≡ is_last cs
    → Agrees (descend follow cs node.fs node.n s) (next (e + 1) node.fs node.n s)
    → Agrees
        ((if is_last cs && not follow
            then pure (reached node.fs node.n)
            else if has_type node.inode inode_symlink_type
            then pure linked
            else descend follow cs node.fs node.n)
          s)
        (after_component p len follow ind e next node s)
unfolding after_component
Agrees-component p len follow ind e cs node next s last q =
    rw (after_component, last)
      (Agrees-ends (is_last cs && not follow) (has_type node.inode inode_symlink_type) node
        (follow_link p len ind e node) (descend follow cs node.fs node.n)
        (next (e + 1) node.fs node.n) s q)

walk_lem :
    (p : Bytes) (len : ℕ) (follow : Bool) (cs : List (List ℕ)) (i fuel fs n : ℕ) (s : System)
    → AreComponents cs
    → Stands p len i fuel cs
    → Agrees (descend follow cs fs n s) (walk fuel p len follow (i + 1) fs n s)
unfolding descend walk Agrees path_text AreComponents text
walk_lem p len follow [] i zero fs n s ok st = refl
walk_lem p len follow [] i (suc fuel) fs n s ok st =
    let over : ltb (i + 1) len ≡ false = ground (arith, st.end) in rw (component_round, over) refl
walk_lem p len follow (c ∷ cs) i zero fs n s ok st =
    absurd (omega (arith, st.enough, st.end, ok.0.some_char, length-append c (path_text cs)))
walk_lem p len follow (c ∷ cs) i (suc fuel) fs n s ok st =
    let ind = i + 1 in
    let e = ind + length c in
    let sum = length-append c (path_text cs) in
    let shifted : At p ind (c ++ path_text cs) =
      λ k. let step : ind + k ≡ i + suc k = omega arith in ap p step ∙ st.at (suc k) in
    let behind = At-append p ind c (path_text cs) shifted in
    let end : len ≡ e + length (path_text cs) = omega (arith, st.end, sum) in
    let free = no_slash p ind c (path_text cs) shifted ok.0.chars in
    let pos = ok.0.some_char in
    let found =
      component_end_lem p len ind e free (ends_there p len e cs behind end) (omega arith)
        (omega arith) in
    let round =
      round_lem p len follow (walk fuel p len follow) ind e fs n c s found
        (component-text p ind c (path_text cs) shifted) (omega arith) (omega arith)
        (omega (arith, ok.0.short)) in
    subst (Agrees (descend follow (c ∷ cs) fs n s)) (sym round) (
      Agrees-bind (enter fs n (text c) s) _ _ (λ found' s'. Agrees-option found' _ _ s' (λ node.
        Agrees-component p len follow ind e cs node (walk fuel p len follow) s'
          (last_component cs e len end)
          (walk_lem p len follow cs e fuel node.fs node.n s' ok.1
            (record { at = behind; end = end; enough = omega (arith, st.enough, pos) })))))

NoSlash-append :
    (xs ys : List ℕ)
    → NoSlash xs
    → ((k : ℕ) → k < length ys → text ys k ≢ 0)
    → (k : ℕ) → k < length (xs ++ ys)
    → text (xs ++ ys) k ≢ 0
unfolding NoSlash text
NoSlash-append [] ys n h k l = h k l
NoSlash-append (x ∷ xs) ys n h zero l = n.0
NoSlash-append (x ∷ xs) ys n h (suc k) l = NoSlash-append xs ys n.2 h k (omega (arith, l))

path_text-full :
    (cs : List (List ℕ))
    → AreComponents cs
    → (k : ℕ) → k < length (path_text cs)
    → text (path_text cs) k ≢ 0
unfolding path_text text AreComponents
path_text-full [] ok k h = absurd (omega (arith, h))
path_text-full (c ∷ cs) ok zero h = λ e. absurd (omega (arith, e))
path_text-full (c ∷ cs) ok (suc k) h =
    NoSlash-append c (path_text cs) ok.0.chars (path_text-full cs ok.1) k (omega (arith, h))

splice_lem :
    (p : Bytes) (cs : List (List ℕ)) (follow : Bool) (next : Bytes → S (Option (ℕ × ℕ)))
    (s : System)
    → At p 0 (path_text cs)
    → AreComponents cs
    → length (path_text cs) < 4096
    → Answers (descend follow cs s.root_fs root_inode_n s) (splice_round p follow next s)
unfolding splice_round
splice_lem p cs follow next s at ok short =
    let len = length (path_text cs) in
    let measured : name_length p 4096 0 ≡ len =
      name_length-text p 4096 0 (path_text cs) at (path_text-full cs ok) short ∙ omega arith in
    let whole : (len == 4096) ≡ false = ground (arith, short) in
    let walked =
      walk_lem p len follow cs 0 len s.root_fs root_inode_n s ok
        (record { at = at; end = omega arith; enough = omega arith }) in
    rw (splice_round, measured, whole)
      (Answers-walked (descend follow cs s.root_fs root_inode_n s)
        (walk len p len follow 1 s.root_fs root_inode_n s) next walked)

-- For a path of up to 4095 characters that is written from components of 1 to 255 characters, with
-- a '/' before each, `lookup_path` goes down from the root directory of the root file system name
-- by name, across mount points: it returns the file system and the inode that this leads to, and
-- `false` where a name is missing or no directory is there to look in, with the same change of the
-- system. Nothing is said where a symbolic link is met that the walk has to follow.
pub lookup_path-descend :
    (c : List ℕ) (cs : List (List ℕ)) (follow : Bool) (s : System)
    → AreComponents (c ∷ cs)
    → length (path_text (c ∷ cs)) < 4096
    → Answers
        (descend follow (c ∷ cs) s.root_fs root_inode_n s)
        (lookup_path (text (path_text (c ∷ cs))) follow s)
unfolding lookup_path splice_loop text path_text
lookup_path-descend c cs follow s ok short =
    splice_lem (text (path_text (c ∷ cs))) (c ∷ cs) follow (λ p. splice_loop 8 p follow) s
      (λ k. ap (text (path_text (c ∷ cs))) (omega arith)) ok short
