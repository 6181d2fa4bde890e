-- ===== src/Fs/Directory/Block/View.antt =====
-- A block of entries as what each name stands for.
use deprecat_os.Prelude.{
  ℕ, zero, suc, ◌+◌, ◌≤◌, ◌<◌, ◌≡◌, ◌≢◌, ◌∙◌, ap, refl, sym, true, false, List, [], ◌∷◌, arith,
  ◌==◌, if◌then◌else◌, Bool-cases, inl, inr,
}
use deprecat_os.Fs.Bytes.{Bytes, get16, get32}
use deprecat_os.Fs.Directory.Block.{
  Name, entry_inode, curr_entry_size, name_len_lo, true_size, comp_chars, comp_name, is_named,
  is_bad,
}

-- From `c` on the entries of the block have these sizes, hold their names, and end with the block.
unfoldable pub Laid : Bytes → ℕ → List ℕ → Type 0
Laid b c [] = c ≡ 4096
Laid b c (n ∷ ns) = (curr_entry_size b c ≡ n) × (8 ≤ n) × (true_size b c ≤ n) × Laid b (c + n) ns

-- The inodes that a name stands for, in the order of the entries.
unfoldable pub inodes_of : Bytes → ℕ → List ℕ → Name → List ℕ
inodes_of b c [] name = []
inodes_of b c (n ∷ ns) name =
    let rest = inodes_of b (c + n) ns name in
    if is_named b c name then entry_inode b c ∷ rest else rest

-- Two names are the same string.
pub record Same (a b : Name) : Type 0 where
  pub len : ℕ
  pub chars : (i : ℕ) → i < len → a i ≡ b i
  pub end_left : a len ≡ 0
  pub end_right : b len ≡ 0

-- A name of `len` characters of ASCII.
pub record IsName (name : Name) (len : ℕ) : Type 0 where
  pub short : (0 < len) × (len < 256)
  pub ascii : (i : ℕ) → i < len → name i < 128
  pub end : name len ≡ 0

pub Laid-end : (b : Bytes) (c : ℕ) (ns : List ℕ) → Laid b c ns → c ≤ 4096
unfolding Laid
Laid-end b c [] l = omega arith
Laid-end b c (n ∷ ns) l = omega (arith, Laid-end b (c + n) ns l.3)

-- What agrees with a block from `c` on, or on one entry, has the same entries there.
abbrev pub Agree : Bytes → Bytes → ℕ → ℕ → Type 0
Agree b b' from to = (k : ℕ) → from ≤ k → k < to → b' k ≡ b k

comp_chars-Agree :
    (b b' : Bytes) (at len i : ℕ) (name : Name)
    → Agree b b' at (at + i + len)
    → comp_chars b' at len i name ≡ comp_chars b at len i name
unfolding comp_chars
comp_chars-Agree b b' at zero i name h = refl
comp_chars-Agree b b' at (suc len) i name h =
    let rest = comp_chars-Agree b b' at len (i + 1) name (λ k p q. h k p (omega arith)) in
    ground (arith, h (at + i) (omega arith) (omega arith), rest)

pub get16-Agree : (b b' : Bytes) (o : ℕ) → Agree b b' o (o + 2) → get16 b' o ≡ get16 b o
unfolding get16
get16-Agree b b' o h =
    omega (arith, h o (omega arith) (omega arith), h (o + 1) (omega arith) (omega arith))

pub get32-Agree : (b b' : Bytes) (o : ℕ) → Agree b b' o (o + 4) → get32 b' o ≡ get32 b o
unfolding get32
get32-Agree b b' o h = omega (
  arith,
  h o (omega arith) (omega arith),
  h (o + 1) (omega arith) (omega arith),
  h (o + 2) (omega arith) (omega arith),
  h (o + 3) (omega arith) (omega arith),
)

-- What the name of an entry needs of it.
pub is_named-Agree :
    (b b' : Bytes) (c : ℕ) (name : Name)
    → Agree b b' c (c + 4)
    → Agree b b' (c + 6) (c + 8 + name_len_lo b c)
    → is_named b' c name ≡ is_named b c name
unfolding is_named comp_name
is_named-Agree b b' c name low high =
    let inode = get32-Agree b b' c low in
    let len = high (c + 6) (omega arith) (omega arith) in
    let chars =
      comp_chars-Agree b b' (c + 8) (name_len_lo b c) 0 name
        (λ k p q. high k (omega arith) (omega arith)) in
    rw (inode, len, chars)

-- A block and another that agree on an entry of size `n`.
pub record EntryKept (b b' : Bytes) (c : ℕ) : Type 0 where
  pub size : curr_entry_size b' c ≡ curr_entry_size b c
  pub len : name_len_lo b' c ≡ name_len_lo b c
  pub inode : entry_inode b' c ≡ entry_inode b c
  pub named : (name : Name) → is_named b' c name ≡ is_named b c name

pub EntryKept-Agree :
    (b b' : Bytes) (c n : ℕ) → 8 ≤ n → true_size b c ≤ n → Agree b b' c (c + n) → EntryKept b b' c
EntryKept-Agree b b' c n least fits h = record {
  size = get16-Agree b b' (c + 4) (λ k p q. h k (omega arith) (omega arith));
  len = h (c + 6) (omega arith) (omega arith);
  inode = get32-Agree b b' c (λ k p q. h k (omega arith) (omega arith));
  named = λ name.
      is_named-Agree b b' c name (λ k p q. h k (omega arith) (omega arith))
        (λ k p q. h k (omega arith) (omega arith));
}

pub Laid-Agree :
    (b b' : Bytes) (c : ℕ) (ns : List ℕ) → Agree b b' c 4096 → Laid b c ns → Laid b' c ns
unfolding Laid
Laid-Agree b b' c [] h l = l
Laid-Agree b b' c (n ∷ ns) h l =
    let last = Laid-end b (c + n) ns l.3 in
    let kept = EntryKept-Agree b b' c n l.1 l.2 (λ k p q. h k p (omega arith)) in
    (
      kept.size ∙ l.0,
      l.1,
      omega (arith, kept.len, l.2),
      Laid-Agree b b' (c + n) ns (λ k p q. h k (omega arith) q) l.3,
    )

pub inodes_of-Agree :
    (b b' : Bytes) (c : ℕ) (ns : List ℕ) (name : Name)
    → Agree b b' c 4096
    → Laid b c ns
    → inodes_of b' c ns name ≡ inodes_of b c ns name
unfolding Laid inodes_of
inodes_of-Agree b b' c [] name h l = refl
inodes_of-Agree b b' c (n ∷ ns) name h l =
    let last = Laid-end b (c + n) ns l.3 in
    let kept = EntryKept-Agree b b' c n l.1 l.2 (λ k p q. h k p (omega arith)) in
    let rest = inodes_of-Agree b b' (c + n) ns name (λ k p q. h k (omega arith) q) l.3 in
    rw (kept.named name, kept.inode, rest)

-- The characters that a comparison has found equal.
comp_chars-chars :
    (b : Bytes) (at len i : ℕ) (name : Name)
    → comp_chars b at len i name ≡ true
    → (k : ℕ) → i ≤ k
    → k < i + len
    → name k ≡ b (at + k)
unfolding comp_chars
comp_chars-chars b at zero i name e k p q = absurd (omega arith)
comp_chars-chars b at (suc len) i name e k p q = elim (Bool-cases (k == i)) [
  | inl here ↦
      let same : k ≡ i = ground arith in
      let found : name i ≡ b (at + i) = ground arith in
      ap name same ∙ found ∙ ap (λ j. b (at + j)) (sym same)
  | inr later ↦ comp_chars-chars b at len (i + 1) name (ground arith) k (ground arith) (omega arith)
]

pub is_named-Same :
    (b : Bytes) (c : ℕ) (x y : Name) → is_named b c x ≡ true → is_named b c y ≡ true → Same x y
unfolding is_named comp_name
is_named-Same b c x y ex ey = record {
  len = name_len_lo b c;
  chars = λ i p.
      comp_chars-chars b (c + 8) (name_len_lo b c) 0 x (ground arith) i (omega arith) (omega arith)
      ∙ sym (
          comp_chars-chars b (c + 8) (name_len_lo b c) 0 y (ground arith) i (omega arith)
            (omega arith));
  end_left = ground arith;
  end_right = ground arith;
}

comp_chars-true :
    (b : Bytes) (at len i : ℕ) (name : Name)
    → ((k : ℕ) → i ≤ k → k < i + len → b (at + k) ≡ name k)
    → ((k : ℕ) → k < i + len → name k < 128)
    → comp_chars b at len i name ≡ true
unfolding comp_chars
comp_chars-true b at zero i name e a = refl
comp_chars-true b at (suc len) i name e a = ground (
  arith,
  e i,
  a i,
  comp_chars-true b at len (i + 1) name (λ k p q. e k (omega arith) (omega arith))
      (λ k q. a k (omega arith)),
)

-- An entry that holds a name is named so.
pub is_named-true :
    (b : Bytes) (c len : ℕ) (name : Name)
    → IsName name len
    → entry_inode b c ≢ 0
    → name_len_lo b c ≡ len
    → ((k : ℕ) → k < len → b (c + 8 + k) ≡ name k)
    → is_named b c name ≡ true
unfolding is_named comp_name
is_named-true b c len name ok live l e =
    let chars =
      comp_chars-true b (c + 8) len 0 name (λ k p q. e k (omega arith))
        (λ k q. ok.ascii k (omega arith)) in
    rw l (ground (arith, ok.end))

-- The guard that the scans put before an entry does not refuse one of a block that is laid out.
pub is_bad-Laid : (b : Bytes) (c n : ℕ) (ns : List ℕ) → Laid b c (n ∷ ns) → is_bad b c ≡ false
unfolding Laid is_bad
is_bad-Laid b c n ns l = let last = Laid-end b (c + n) ns l.3 in ground arith
