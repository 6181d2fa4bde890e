-- ===== src/Fs/Directory/Block/Remove.antt =====
-- The scan of `dir_remove` on a block of entries that is laid out.
use deprecat_os.Prelude.{
  ℕ, zero, suc, ◌+◌, ◌%◌, ◌^◌, ◌≤◌, ◌<◌, ◌≡◌, ◌≢◌, ◌∙◌, ◌⊎◌, ap, subst, refl, sym, true, false,
  List, [], ◌∷◌, get_or, arith, Bool-cases, inl, inr, ◌==◌, ltb,
}
use deprecat_os.Fs.Bytes.{Bytes, set16, set32, get16-set16, get32-set32, set32-Apart}
use deprecat_os.Fs.Directory.Block.{
  Name, stored, Removal, malformed, absent, removed, entry_inode, curr_entry_size, is_named,
  remove_entry, remove_entry_on, insert_entry,
}
use deprecat_os.Fs.Directory.Block.View.{
  Laid, Laid-end, inodes_of, Same, IsName, Agree, Laid-Agree, inodes_of-Agree, EntryKept-Agree,
  is_bad-Laid, is_named-Agree, is_named-Same, get16-Agree, get32-Agree,
}
use deprecat_os.Fs.Directory.Block.Inodes.{inodes_first, inodes_unused, inodes_skip, inodes_entry}
use deprecat_os.Fs.Directory.Block.Insert.{Inserted, InsertOk, insert_entry_lem}

set16-Apart : (b : Bytes) (o v k : ℕ) → (k < o) ⊎ (o + 2 ≤ k) → set16 b o v k ≡ b k
unfolding set16
set16-Apart b o v k h = ground arith

-- The entries from `c` on after the removal of the first that is named, for `inode_n`.
pub record Removed (b b' : Bytes) (c : ℕ) (ns : List ℕ) (name : Name) (inode_n : ℕ) : Type 0 where
  pub sizes : List ℕ
  pub laid : Laid b' c sizes
  pub below : (k : ℕ) → k < c → b' k ≡ b k
  pub found : inodes_of b c ns name ≡ inode_n ∷ inodes_of b' c sizes name
  pub others : (x : Name) → ¬ (Same name x) → inodes_of b' c sizes x ≡ inodes_of b c ns x

-- What a removal may answer.
unfoldable pub RemoveOk : Bytes → ℕ → List ℕ → Name → Removal → Type 0
RemoveOk b c ns name malformed = ⊥
RemoveOk b c ns name absent = inodes_of b c ns name ≡ []
RemoveOk b c ns name (removed b' inode_n) = Removed b b' c ns name inode_n

-- An entry with the name has no other.
not_named :
    (b : Bytes) (c : ℕ) (name x : Name)
    → is_named b c name ≡ true
    → ¬ (Same name x)
    → is_named b c x ≡ false
not_named b c name x e d = elim (Bool-cases (is_named b c x)) [
  | inl t ↦ absurd (d (is_named-Same b c name x e t))
  | inr f ↦ f
]

-- The first entry of the block is marked unused.
clear-Removed :
    (b : Bytes) (n : ℕ) (ns : List ℕ) (name : Name)
    → Laid b 0 (n ∷ ns)
    → is_named b 0 name ≡ true
    → Removed b (set32 b 0 0) 0 (n ∷ ns) name (entry_inode b 0)
unfolding Laid
clear-Removed b n ns name l e =
    let b' = set32 b 0 0 in
    let unused = get32-set32 b 0 0 (omega arith) in
    let apart : (k : ℕ) → 4 ≤ k → b' k ≡ b k = λ k p. set32-Apart b 0 0 k (inl (omega arith)) in
    let same : Agree b b' (0 + n) 4096 = λ k p q. apart k (omega (arith, l.1)) in
    let size = get16-Agree b b' (0 + 4) (λ k p q. apart k (omega arith)) in
    record {
      sizes = n ∷ ns;
      laid = (
        size ∙ l.0,
        l.1,
        omega (arith, apart 6 (omega arith), l.2),
        Laid-Agree b b' (0 + n) ns same l.3,
      );
      below = λ k p. absurd (omega arith);
      found =
          inodes_first b 0 n ns name e
          ∙ ap (λ r. entry_inode b 0 ∷ r)
              (sym (
                inodes_unused b' 0 n ns name unused
                ∙ inodes_of-Agree b b' (0 + n) ns name same l.3));
      others = λ x d.
          inodes_unused b' 0 n ns x unused
          ∙ inodes_of-Agree b b' (0 + n) ns x same l.3
          ∙ sym (inodes_skip b 0 n ns x (not_named b 0 name x e d));
    }

-- The entry before takes the removed one's place.
merge-Removed :
    (b : Bytes) (p m n : ℕ) (ns : List ℕ) (name : Name)
    → Laid b p (m ∷ n ∷ ns)
    → is_named b p name ≡ false
    → is_named b (p + m) name ≡ true
    → Removed b
        (set16 b (p + 4) ((curr_entry_size b p + n) % 65536))
        p
        (m ∷ n ∷ ns)
        name
        (entry_inode b (p + m))
unfolding Laid
merge-Removed b p m n ns name l f e =
    let s = (curr_entry_size b p + n) % 65536 in
    let b' = set16 b (p + 4) s in
    let last = Laid-end b (p + m + n) ns l.3.3 in
    let sum : s ≡ m + n = omega (arith, l.0, last) in
    let apart : (k : ℕ) → (k < p + 4) ⊎ (p + 4 + 2 ≤ k) → b' k ≡ b k =
      λ k q. set16-Apart b (p + 4) s k q in
    let end : p + (m + n) ≡ p + m + n = omega arith in
    let same : Agree b b' (p + m + n) 4096 = λ k q r. apart k (inr (omega (arith, l.1))) in
    let rest : (x : Name) → inodes_of b' (p + (m + n)) ns x ≡ inodes_of b (p + m + n) ns x =
      λ x. ap (λ k. inodes_of b' k ns x) end ∙ inodes_of-Agree b b' (p + m + n) ns x same l.3.3 in
    let named : (x : Name) → is_named b' p x ≡ is_named b p x = λ x.
      is_named-Agree b b' p x (λ k q r. apart k (inl (omega arith)))
        (λ k q r. apart k (inr (omega arith))) in
    let inode = get32-Agree b b' p (λ k q r. apart k (inl (omega arith))) in
    record {
      sizes = (m + n) ∷ ns;
      laid = (
        get16-set16 b (p + 4) s (omega arith) ∙ sum,
        omega (arith, l.1),
        omega (arith, apart (p + 6) (inr (omega arith)), l.2),
        subst (λ k. Laid b' k ns) (sym end) (Laid-Agree b b' (p + m + n) ns same l.3.3),
      );
      below = λ k q. apart k (inl (omega arith));
      found =
          inodes_skip b p m (n ∷ ns) name f
          ∙ inodes_first b (p + m) n ns name e
          ∙ ap (λ r. entry_inode b (p + m) ∷ r)
              (sym (inodes_skip b' p (m + n) ns name (named name ∙ f) ∙ rest name));
      others = λ x d.
          inodes_entry b b' p (m + n) m ns (n ∷ ns) x (named x) inode
            (rest x ∙ sym (inodes_skip b (p + m) n ns x (not_named b (p + m) name x e d)));
    }

-- An entry that the scan passes.
pass-RemoveOk :
    (b : Bytes) (p m : ℕ) (ns : List ℕ) (name : Name) (r : Removal)
    → Laid b p (m ∷ ns)
    → is_named b p name ≡ false
    → RemoveOk b (p + m) ns name r
    → RemoveOk b p (m ∷ ns) name r
unfolding RemoveOk Laid
pass-RemoveOk b p m ns name malformed l f ok = ok
pass-RemoveOk b p m ns name absent l f ok = inodes_skip b p m ns name f ∙ ok
pass-RemoveOk b p m ns name (removed b' inode_n) l f ok =
    let kept = EntryKept-Agree b b' p m l.1 l.2 (λ k q r. ok.below k r) in
    record {
      sizes = m ∷ ok.sizes;
      laid = (kept.size ∙ l.0, l.1, omega (arith, kept.len, l.2), ok.laid);
      below = λ k q. ok.below k (omega arith);
      found =
          inodes_skip b p m ns name f
          ∙ ok.found
          ∙ ap (λ r. inode_n ∷ r) (sym (inodes_skip b' p m ok.sizes name (kept.named name ∙ f)));
      others =
          λ x d. inodes_entry b b' p m m ok.sizes ns x (kept.named x) kept.inode (ok.others x d);
    }

module _ (b : Bytes) (name : Name) where
  remove_from :
      (fuel p m : ℕ) (ns : List ℕ)
      → Laid b p (m ∷ ns)
      → is_named b p name ≡ false
      → 4096 ≤ p + m + fuel
      → RemoveOk b p (m ∷ ns) name (remove_entry fuel b name p (p + m))
  unfolding remove_entry_on Laid RemoveOk inodes_of
  remove_from zero p m [] l f h = inodes_skip b p m [] name f ∙ refl
  remove_from zero p m (n ∷ ns) l f h =
      absurd (omega (arith, Laid-end b (p + m + n) ns l.3.3, l.3.1))
  remove_from (suc fuel) p m [] l f h =
      let outside : ltb (p + m) 4096 ≡ false = ground (arith, l.3) in
      rw (remove_entry, outside) (inodes_skip b p m [] name f ∙ refl)
  remove_from (suc fuel) p m (n ∷ ns) l f h =
      let last = Laid-end b (p + m + n) ns l.3.3 in
      let good = is_bad-Laid b (p + m) n ns l.3 in
      let inside : ltb (p + m) 4096 ≡ true = ground (arith, l.3.1) in
      let later : (p + m == 0) ≡ false = ground (arith, l.1) in
      elim (Bool-cases (is_named b (p + m) name)) [
        | inl e ↦
            rw (remove_entry, inside, good, e, later, l.3.0) (merge-Removed b p m n ns name l f e)
        | inr g ↦
            rw (remove_entry, inside, good, g, l.3.0)
              (pass-RemoveOk b p m (n ∷ ns) name (remove_entry fuel b name (p + m) (p + m + n)) l f
                (remove_from fuel (p + m) n ns l.3 g (omega (arith, l.3.1))))
      ]

  remove_first :
      (fuel : ℕ) (ns : List ℕ)
      → Laid b 0 ns
      → 4096 ≤ fuel
      → RemoveOk b 0 ns name (remove_entry fuel b name 0 0)
  unfolding remove_entry_on Laid RemoveOk
  remove_first fuel [] l h = absurd (omega (arith, l))
  remove_first zero (n ∷ ns) l h = absurd (omega arith)
  remove_first (suc fuel) (n ∷ ns) l h =
      let good = is_bad-Laid b 0 n ns l in
      elim (Bool-cases (is_named b 0 name)) [
        | inl e ↦ rw (remove_entry, good, e) (clear-Removed b n ns name l e)
        | inr f ↦ rw (remove_entry, good, f, l.0) (remove_from fuel 0 n ns l f (omega (arith, l.1)))
      ]

-- In a block of entries that is laid out the scan of `dir_remove` ends within 4096 rounds and
-- never finds the block malformed. It reports that the name is absent only if no entry in use has
-- it. Else it returns the first inode of the name; the new block is laid out, the name stands for
-- the inodes behind that one, and every other name stands for what it stood for.
pub remove_entry_lem :
    (b : Bytes) (ns : List ℕ) (name : Name)
    → Laid b 0 ns
    → RemoveOk b 0 ns name (remove_entry 4096 b name 0 0)
remove_entry_lem b ns name l = remove_first b name 4096 ns l (omega arith)

-- What a removal after an insertion gives.
pub record Undone (b b' : Bytes) (ns : List ℕ) (name : Name) (child : ℕ) : Type 0 where
  pub again : Bytes
  pub sizes : List ℕ
  pub runs : remove_entry 4096 b' name 0 0 ≡ removed again child
  pub laid : Laid again 0 sizes
  pub gone : inodes_of again 0 sizes name ≡ []
  pub others : (x : Name) → ¬ (Same name x) → inodes_of again 0 sizes x ≡ inodes_of b 0 ns x

abbrev rest : List ℕ → List ℕ
rest [] = []
rest (_ ∷ xs) = xs

undo :
    {b b' : Bytes} {ns : List ℕ} {name : Name} {child : ℕ} (r : Removal)
    (i : Inserted b b' 0 ns name child)
    → remove_entry 4096 b' name 0 0 ≡ r
    → inodes_of b 0 ns name ≡ []
    → RemoveOk b' 0 i.sizes name r
    → Undone b b' ns name child
unfolding RemoveOk
undo malformed i runs new ok = absurd ok
undo absent i runs new ok = absurd (ground (arith, ok, i.added new))
undo {b} {b'} {ns} {name} {child} (removed again inode_n) i runs new ok =
    let both : child ∷ [] ≡ inode_n ∷ inodes_of again 0 ok.sizes name =
      sym (i.added new) ∙ ok.found in
    record {
      again = again;
      sizes = ok.sizes;
      runs = runs ∙ ap (removed again) (sym (ap (λ l. get_or l 0 0) both));
      laid = ok.laid;
      gone = sym (ap rest both);
      others = λ x d. ok.others x d ∙ i.others x d;
    }

-- In a block of entries that is laid out and has no entry for the name, when the scan of
-- `dir_insert` stores the name for an inode, the scan of `dir_remove` on the new block returns
-- that inode, and afterwards the name stands for nothing and every other name for what it stood
-- for before the insertion.
pub remove_entry-insert_entry :
    (b b' : Bytes) (ns : List ℕ) (name : Name) (len child type : ℕ)
    → Laid b 0 ns
    → IsName name len
    → child ≢ 0
    → child < 2 ^ 32
    → inodes_of b 0 ns name ≡ []
    → insert_entry 4096 b name len child type 0 ≡ stored b'
    → Undone b b' ns name child
unfolding InsertOk
remove_entry-insert_entry b b' ns name len child type l ok live small new e =
    let i =
      subst (InsertOk b 0 ns name len child) e
        (insert_entry_lem b ns name len child type l ok live small) in
    undo (remove_entry 4096 b' name 0 0) i refl new (remove_entry_lem b' i.sizes name i.laid)
