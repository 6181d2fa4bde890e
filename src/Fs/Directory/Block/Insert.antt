-- ===== src/Fs/Directory/Block/Insert.antt =====
-- The scan of `dir_insert` on a block of entries that is laid out.
use deprecat_os.Prelude.{
  ℕ, zero, suc, ◌+◌, ◌-◌, ◌^◌, ◌≤◌, ◌<◌, ◌≡◌, ◌≢◌, ◌∙◌, ◌⊎◌, ap, subst, sym, true, false, List, [],
  ◌∷◌, arith, Bool-cases, inl, inr, ◌==◌, ltb, leb, ◌&&◌,
}
use deprecat_os.Fs.Bytes.{Bytes}
use deprecat_os.Fs.Directory.Block.{
  Name, Insertion, corrupt, full, stored, entry_inode, curr_entry_size, true_size, align4, is_named,
  store_entry, insert_entry, insert_entry_on,
}
use deprecat_os.Fs.Directory.Block.View.{
  Laid, Laid-end, inodes_of, Same, IsName, Agree, Laid-Agree, inodes_of-Agree, EntryKept-Agree,
  is_bad-Laid, is_named-Agree, get16-Agree, get32-Agree,
}
use deprecat_os.Fs.Directory.Block.Inodes.{inodes_unused, inodes_none, inodes_skip, inodes_entry}
use deprecat_os.Fs.Directory.Block.Store.{
  inodes_new, inodes_old, Holds-store_entry, size_of_stored, stored_len, stored_outside, split,
  split_outside, split_first, split_second,
}

-- The entries from `c` on after the insertion of `name` for `child`.
pub record Inserted (b b' : Bytes) (c : ℕ) (ns : List ℕ) (name : Name) (child : ℕ) : Type 0 where
  pub sizes : List ℕ
  pub laid : Laid b' c sizes
  pub below : (k : ℕ) → k < c → b' k ≡ b k
  pub added : inodes_of b c ns name ≡ [] → inodes_of b' c sizes name ≡ child ∷ []
  pub others : (x : Name) → ¬ (Same name x) → inodes_of b' c sizes x ≡ inodes_of b c ns x

-- An unused entry of size `n` takes the name.
fill-Inserted :
    (b : Bytes) (c n : ℕ) (ns : List ℕ) (name : Name) (len child type : ℕ)
    → Laid b c (n ∷ ns)
    → IsName name len
    → child ≢ 0
    → child < 2 ^ 32
    → entry_inode b c ≡ 0
    → align4 (8 + len) ≤ n
    → Inserted b (store_entry b c name len child type) c (n ∷ ns) name child
unfolding Laid inodes_of is_named
fill-Inserted b c n ns name len child type l ok live small unused room =
    let b' = store_entry b c name len child type in
    let last = Laid-end b (c + n) ns l.3 in
    let holds = Holds-store_entry b c name len child type ok live small in
    let same : Agree b b' (c + n) 4096 =
      λ k p q. stored_outside b c name len child type k (inr (omega arith)) in
    record {
      sizes = n ∷ ns;
      laid = (
        size_of_stored b c name len child type ∙ l.0,
        l.1,
        omega (arith, stored_len b c name len child type),
        Laid-Agree b b' (c + n) ns same l.3,
      );
      below = λ k p. stored_outside b c name len child type k (inl p);
      added = λ e.
          inodes_new b' c n ns name child holds
          ∙ ap (λ l'. child ∷ l')
              (inodes_of-Agree b b' (c + n) ns name same l.3
                ∙ sym (inodes_unused b c n ns name unused)
                ∙ e);
      others = λ x d.
          inodes_old b' c n ns name child x holds d
          ∙ inodes_of-Agree b b' (c + n) ns x same l.3
          ∙ sym (inodes_unused b c n ns x unused);
    }

-- The slack behind an entry of size `n` takes the name.
split-Inserted :
    (b : Bytes) (c n : ℕ) (ns : List ℕ) (name : Name) (len child type : ℕ)
    → Laid b c (n ∷ ns)
    → IsName name len
    → child ≢ 0
    → child < 2 ^ 32
    → align4 (8 + len) ≤ n - true_size b c
    → Inserted b
        (store_entry (split b c n (true_size b c)) (c + true_size b c) name len child type)
        c
        (n ∷ ns)
        name
        child
unfolding Laid inodes_of
split-Inserted b c n ns name len child type l ok live small room =
    let t = true_size b c in
    let s = split b c n t in
    let b' = store_entry s (c + t) name len child type in
    let last = Laid-end b (c + n) ns l.3 in
    let holds = Holds-store_entry s (c + t) name len child type ok live small in
    let head : (k : ℕ) → (k < c + 4) ⊎ ((c + 6 ≤ k) × (k < c + t)) → b' k ≡ b k = λ k h.
      stored_outside s (c + t) name len child type k (ground arith)
      ∙ split_outside b c n t k (ground arith) in
    let size : (k : ℕ) → c + 4 ≤ k → k < c + 6 → b' k ≡ s k =
      λ k p q. stored_outside s (c + t) name len child type k (inl (omega arith)) in
    let same : Agree b b' (c + n) 4096 = λ k p q.
      stored_outside s (c + t) name len child type k (inr (omega arith))
      ∙ split_outside b c n t k (ground arith) in
    let next : c + t + (n - t) ≡ c + n = omega arith in
    let rest : (x : Name) → inodes_of b' (c + t + (n - t)) ns x ≡ inodes_of b (c + n) ns x =
      λ x. ap (λ k. inodes_of b' k ns x) next ∙ inodes_of-Agree b b' (c + n) ns x same l.3 in
    let named : (x : Name) → is_named b' c x ≡ is_named b c x = λ x.
      is_named-Agree b b' c x (λ k p q. head k (inl (omega arith)))
        (λ k p q. head k (inr (omega arith, omega arith))) in
    let inode = get32-Agree b b' c (λ k p q. head k (inl (omega arith))) in
    let len_kept = head (c + 6) (inr (omega arith, omega arith)) in
    let first_size : curr_entry_size b' c ≡ t =
      get16-Agree s b' (c + 4) (λ k p q. size k p (omega arith))
      ∙ split_first b c n t (omega arith) (omega arith) in
    let second_size : curr_entry_size b' (c + t) ≡ n - t =
      size_of_stored s (c + t) name len child type
      ∙ split_second b c n t (omega arith) (omega arith) in
    record {
      sizes = t ∷ (n - t) ∷ ns;
      laid = (
        first_size,
        omega arith,
        omega (arith, len_kept),
        (
          second_size,
          omega arith,
          omega (arith, stored_len s (c + t) name len child type),
          subst (λ k. Laid b' k ns) (sym next) (Laid-Agree b b' (c + n) ns same l.3),
        ),
      );
      below = λ k p. head k (inl (omega arith));
      added = λ e.
          let none_before = inodes_none b c n ns name e in
          inodes_skip b' c t ((n - t) ∷ ns) name (named name ∙ none_before.0)
          ∙ inodes_new b' (c + t) (n - t) ns name child holds
          ∙ ap (λ l'. child ∷ l') (rest name ∙ none_before.1);
      others = λ x d.
          inodes_entry b b' c t n ((n - t) ∷ ns) ns x (named x) inode
            (inodes_old b' (c + t) (n - t) ns name child x holds d ∙ rest x);
    }

-- An entry that the scan passes.
pass-Inserted :
    {b b' : Bytes} (c n : ℕ) (ns : List ℕ) {name : Name} {child : ℕ}
    → Laid b c (n ∷ ns)
    → Inserted b b' (c + n) ns name child
    → Inserted b b' c (n ∷ ns) name child
unfolding Laid
pass-Inserted {b} {b'} c n ns {name} {child} l i =
    let kept = EntryKept-Agree b b' c n l.1 l.2 (λ k p q. i.below k q) in
    record {
      sizes = n ∷ i.sizes;
      laid = (kept.size ∙ l.0, l.1, omega (arith, kept.len, l.2), i.laid);
      below = λ k p. i.below k (omega arith);
      added = λ e.
          let before = inodes_none b c n ns name e in
          inodes_skip b' c n i.sizes name (kept.named name ∙ before.0) ∙ i.added before.1;
      others = λ x d. inodes_entry b b' c n n i.sizes ns x (kept.named x) kept.inode (i.others x d);
    }

-- No entry has room for a name of `len` characters: no unused one, and no slack behind one.
unfoldable pub NoRoom : Bytes → ℕ → List ℕ → ℕ → Type 0
NoRoom b c [] len = Unit {0}
NoRoom b c (n ∷ ns) len =
    (entry_inode b c ≡ 0 → n < align4 (8 + len))
    × (n - true_size b c < align4 (8 + len))
    × NoRoom b (c + n) ns len

-- What an insertion may answer.
unfoldable pub InsertOk : Bytes → ℕ → List ℕ → Name → ℕ → ℕ → Insertion → Type 0
InsertOk b c ns name len child corrupt = ⊥
InsertOk b c ns name len child full = NoRoom b c ns len
InsertOk b c ns name len child (stored b') = Inserted b b' c ns name child

pass-InsertOk :
    (b : Bytes) (c n : ℕ) (ns : List ℕ) (name : Name) (len child : ℕ) (r : Insertion)
    → Laid b c (n ∷ ns)
    → (entry_inode b c ≡ 0 → n < align4 (8 + len)) × (n - true_size b c < align4 (8 + len))
    → InsertOk b (c + n) ns name len child r
    → InsertOk b c (n ∷ ns) name len child r
unfolding InsertOk NoRoom
pass-InsertOk b c n ns name len child corrupt l full_up i = i
pass-InsertOk b c n ns name len child full l full_up i = (full_up.0, full_up.1, i)
pass-InsertOk b c n ns name len child (stored b') l full_up i = pass-Inserted c n ns l i

module _ (b : Bytes) (name : Name) (len child type : ℕ) where
  insert_from :
      (fuel c : ℕ) (ns : List ℕ)
      → Laid b c ns
      → 4096 ≤ c + fuel
      → IsName name len
      → child ≢ 0
      → child < 2 ^ 32
      → InsertOk b c ns name len child (insert_entry fuel b name len child type c)
  unfolding insert_entry_on Laid split InsertOk NoRoom
  insert_from zero c [] l h ok live small = tt
  insert_from zero c (n ∷ ns) l h ok live small =
      absurd (omega (arith, Laid-end b (c + n) ns l.3, l.1))
  insert_from (suc fuel) c [] l h ok live small =
      let outside : ltb c 4096 ≡ false = ground arith in rw (insert_entry, outside) tt
  insert_from (suc fuel) c (n ∷ ns) l h ok live small =
      let last = Laid-end b (c + n) ns l.3 in
      let good = is_bad-Laid b c n ns l in
      let inside : ltb c 4096 ≡ true = ground arith in
      elim (Bool-cases (entry_inode b c == 0 && leb (align4 (8 + len)) n)) [
        | inl t ↦
            rw (insert_entry, inside, good, l.0, t)
              (fill-Inserted b c n ns name len child type l ok live small (ground arith)
                (ground arith))
        | inr f ↦ elim (Bool-cases (leb (align4 (8 + len)) (n - true_size b c))) [
          | inl t ↦
              rw (insert_entry, inside, good, l.0, f, t)
                (split-Inserted b c n ns name len child type l ok live small (ground arith))
          | inr g ↦
              rw (insert_entry, inside, good, l.0, f, g)
                (pass-InsertOk b c n ns name len child
                  (insert_entry fuel b name len child type (c + n)) l
                  (λ u. ground arith, ground arith)
                  (insert_from fuel (c + n) ns l.3 (omega arith) ok live small))
        ]
      ]

-- In a block of entries that is laid out, for a name of 1 to 255 ASCII characters and an inode
-- other than 0, the scan of `dir_insert` ends within 4096 rounds and never finds the block
-- corrupt. It reports a full block only if no entry has room. Else the new block is laid out, a
-- name that no entry had stands for the inode alone, and every other name stands for what it stood
-- for.
pub insert_entry_lem :
    (b : Bytes) (ns : List ℕ) (name : Name) (len child type : ℕ)
    → Laid b 0 ns
    → IsName name len
    → child ≢ 0
    → child < 2 ^ 32
    → InsertOk b 0 ns name len child (insert_entry 4096 b name len child type 0)
insert_entry_lem b ns name len child type l ok live small =
    insert_from b name len child type 4096 0 ns l (omega arith) ok live small
