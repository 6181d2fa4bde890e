-- ===== src/Fs/Directory/Block/Store.antt =====
-- What `dir_insert` stores: a new entry, in the place of an unused one or in the slack of another.
use deprecat_os.Prelude.{
  ℕ, ◌+◌, ◌-◌, ◌^◌, ◌≤◌, ◌<◌, ◌≡◌, ◌≢◌, ◌⊎◌, ◌∙◌, ap, sym, true, false, List, ◌∷◌, arith,
  Bool-cases, inl, inr, write,
}
use deprecat_os.Fs.Bytes.{Bytes, get16, set16, set32, get32-set32, set32-Apart}
use deprecat_os.Fs.Directory.Block.{
  Name, entry_inode, curr_entry_size, name_len_lo, is_named, store_name, store_entry,
}
use deprecat_os.Fs.Directory.Block.Inodes.{inodes_first, inodes_skip}
use deprecat_os.Fs.Directory.Block.View.{
  inodes_of, Same, IsName, get16-Agree, get32-Agree, is_named-true, is_named-Same,
}

-- The entry at `c` is in use for `child` under `name` and under no other name.
pub record Holds (b : Bytes) (c : ℕ) (name : Name) (child : ℕ) : Type 0 where
  pub inode : entry_inode b c ≡ child
  pub named : is_named b c name ≡ true
  pub others : (x : Name) → ¬ (Same name x) → is_named b c x ≡ false

module _ (b : Bytes) (c : ℕ) (name : Name) (len child type : ℕ) where
  abbrev pub after : Bytes
  after = store_entry b c name len child type

  pub stored_outside : (k : ℕ) → (k < c) ⊎ (c + 8 + len ≤ k) → after k ≡ b k
  unfolding store_entry store_name write
  stored_outside k h = ground (arith, set32-Apart b c child k)

  stored_head : (k : ℕ) → c ≤ k → k < c + 6 → after k ≡ set32 b c child k
  unfolding store_entry store_name write
  stored_head k p q = ground arith

  pub stored_len : name_len_lo after c ≡ len
  unfolding store_entry store_name write
  stored_len = ground arith

  stored_char : (k : ℕ) → k < len → after (c + 8 + k) ≡ name k
  unfolding store_entry store_name write
  stored_char k h = let e : c + 8 + k - (c + 8) ≡ k = omega arith in ground (arith, ap name e)

  pub size_of_stored : curr_entry_size after c ≡ curr_entry_size b c
  size_of_stored = get16-Agree b after (c + 4) (λ k p q.
      stored_head k (omega arith) (omega arith) ∙ set32-Apart b c child k (inl (omega arith)))

  stored_inode : child < 2 ^ 32 → entry_inode after c ≡ child
  stored_inode h =
      get32-Agree (set32 b c child) after c (λ k p q. stored_head k p (omega arith))
      ∙ get32-set32 b c child h

  pub Holds-store_entry : IsName name len → child ≢ 0 → child < 2 ^ 32 → Holds after c name child
  Holds-store_entry ok live small =
      let inode = stored_inode small in
      let named =
        is_named-true after c len name ok (λ e. live (sym inode ∙ e)) stored_len stored_char in
      record {
        inode = inode;
        named = named;
        others = λ x differs. elim (Bool-cases (is_named after c x)) [
          | inl e ↦ absurd (differs (is_named-Same after c name x named e))
          | inr e ↦ e
        ];
      }

-- An entry cut to its true size and the slack behind it made an entry of its own.
unfoldable pub split : Bytes → ℕ → ℕ → ℕ → Bytes
split b c n t = set16 (set16 b (c + 4) t) (c + t + 4) (n - t)

module _ (b : Bytes) (c n t : ℕ) where
  pub split_outside :
      (k : ℕ) → (k < c + 4) ⊎ ((c + 6 ≤ k) × (k < c + t)) ⊎ (c + t + 6 ≤ k) → split b c n t k ≡ b k
  unfolding split set16
  split_outside k h = ground arith

  pub split_first : 8 ≤ t → t < 65536 → curr_entry_size (split b c n t) c ≡ t
  unfolding split set16 get16
  split_first h q = ground arith

  pub split_second : 8 ≤ t → n < 65536 → curr_entry_size (split b c n t) (c + t) ≡ n - t
  unfolding split set16 get16
  split_second h q = ground arith

pub inodes_new :
    (b : Bytes) (c n : ℕ) (ns : List ℕ) (name : Name) (child : ℕ)
    → Holds b c name child
    → inodes_of b c (n ∷ ns) name ≡ child ∷ inodes_of b (c + n) ns name
inodes_new b c n ns name child h =
    inodes_first b c n ns name h.named ∙ ap (λ i. i ∷ inodes_of b (c + n) ns name) h.inode

pub inodes_old :
    (b : Bytes) (c n : ℕ) (ns : List ℕ) (name : Name) (child : ℕ) (x : Name)
    → Holds b c name child
    → ¬ (Same name x)
    → inodes_of b c (n ∷ ns) x ≡ inodes_of b (c + n) ns x
inodes_old b c n ns name child x h d = inodes_skip b c n ns x (h.others x d)
