-- ===== src/Fs/Path/Spell.antt =====
-- A path written from its components, and how `lookup_path` finds them in it.
use deprecat_os.Prelude.{
  ℕ, zero, suc, ◌+◌, ◌-◌, ◌≤◌, ◌<◌, ◌≡◌, ◌≢◌, ◌∙◌, ◌⊎◌, inl, inr, ap, refl, sym, fun_ext, List, [],
  ◌∷◌, ◌++◌, length, arith, Bool-cases, ◌==◌, ltb,
}
use deprecat_os.Fs.Bytes.{Bytes}
use deprecat_os.Fs.Directory.Link.{name_length}
use deprecat_os.Fs.Path.{slash_loop, component_end, component}

-- The characters, and a NUL behind them.
unfoldable pub text : List ℕ → Bytes
text [] k = 0
text (x ∷ xs) zero = x
text (x ∷ xs) (suc k) = text xs k

-- A '/' before each component.
unfoldable pub path_text : List (List ℕ) → List ℕ
path_text [] = []
path_text (c ∷ cs) = 47 ∷ (c ++ path_text cs)

unfoldable pub NoSlash : List ℕ → Type 0
NoSlash [] = Unit {0}
NoSlash (x ∷ xs) = (x ≢ 0) × (x ≢ 47) × NoSlash xs

-- 1 to 255 characters, none of them '/' or NUL.
pub record IsComponent (c : List ℕ) : Type 0 where
  pub chars : NoSlash c
  pub some_char : 0 < length c
  pub short : length c < 256

unfoldable pub AreComponents : List (List ℕ) → Type 0
AreComponents [] = Unit {0}
AreComponents (c ∷ cs) = IsComponent c × AreComponents cs

pub text-append : (xs ys : List ℕ) (k : ℕ) → text (xs ++ ys) (length xs + k) ≡ text ys k
unfolding text
text-append [] ys k = ap (text ys) (omega arith)
text-append (x ∷ xs) ys k =
    let step : suc (length xs) + k ≡ suc (length xs + k) = omega arith in
    ap (text (x ∷ (xs ++ ys))) step ∙ text-append xs ys k

text-left : (xs ys : List ℕ) (k : ℕ) → k < length xs → text (xs ++ ys) k ≡ text xs k
unfolding text
text-left [] ys k h = absurd (omega (arith, h))
text-left (x ∷ xs) ys zero h = refl
text-left (x ∷ xs) ys (suc k) h = text-left xs ys k (omega (arith, h))

text-end : (xs : List ℕ) (k : ℕ) → length xs ≤ k → text xs k ≡ 0
unfolding text
text-end [] k h = refl
text-end (x ∷ xs) zero h = absurd (omega (arith, h))
text-end (x ∷ xs) (suc k) h = text-end xs k (omega (arith, h))

text-NoSlash :
    (xs : List ℕ) (k : ℕ) → NoSlash xs → k < length xs → (text xs k ≢ 0) × (text xs k ≢ 47)
unfolding text NoSlash
text-NoSlash [] k n h = absurd (omega (arith, h))
text-NoSlash (x ∷ xs) zero n h = (n.0, n.1)
text-NoSlash (x ∷ xs) (suc k) n h = text-NoSlash xs k n.2 (omega (arith, h))

-- The characters stand in the path from `i` on, and a NUL behind them.
abbrev pub At : Bytes → ℕ → List ℕ → Type 0
At p i xs = (k : ℕ) → p (i + k) ≡ text xs k

-- What ends a component at `e`.
abbrev Ends : Bytes → ℕ → ℕ → Type 0
Ends p len e = ((e < len) × (p e ≡ 47)) ⊎ (e ≡ len)

slash_loop_lem :
    (p : Bytes) (len e fuel q : ℕ)
    → ((k : ℕ) → q ≤ k → k < e → p k ≢ 47)
    → Ends p len e
    → q ≤ e
    → e < fuel + q
    → slash_loop p len fuel (p q) (q + 1) ≡ e + 1
unfolding slash_loop
slash_loop_lem p len e zero q free ends low enough = absurd (omega (arith, low, enough))
slash_loop_lem p len e (suc fuel) q free (inl (inside, slash)) low enough =
    elim (Bool-cases (q == e)) [
      | inl same ↦
          let at : p q ≡ 47 = ap p (ground (arith, same)) ∙ slash in ground (arith, at, same)
      | inr before ↦
          let go : p q ≢ 47 = free q (omega arith) (ground (arith, before)) in
          ground (
            arith,
            go,
            before,
            slash_loop_lem p len e fuel (q + 1) (λ k h. free k (omega (arith, h)))
                (inl (inside, slash)) (ground (arith, before)) (omega arith),
          )
    ]
slash_loop_lem p len e (suc fuel) q free (inr end) low enough = elim (Bool-cases (q == e)) [
  | inl same ↦ ground (arith, same, end)
  | inr before ↦
      let go : p q ≢ 47 = free q (omega arith) (ground (arith, before)) in
      ground (
        arith,
        go,
        before,
        end,
        slash_loop_lem p len e fuel (q + 1) (λ k h. free k (omega (arith, h))) (inr end)
            (ground (arith, before)) (omega arith),
      )
]

pub component_end_lem :
    (p : Bytes) (len i e : ℕ)
    → ((k : ℕ) → i ≤ k → k < e → p k ≢ 47)
    → Ends p len e
    → i < e
    → e ≤ len
    → component_end p len i ≡ e
unfolding component_end slash_loop
component_end_lem p len i e free ends pos within =
    let first : p i ≢ 47 = free i (omega arith) pos in
    ground (arith, first, slash_loop_lem p len e (len + 1) i free ends (omega arith) (omega arith))

module _ (p : Bytes) (i : ℕ) (c rest : List ℕ) (at : At p i (c ++ rest)) where
  At-left : (k : ℕ) → k < length c → p (i + k) ≡ text c k
  At-left k h = at k ∙ text-left c rest k h

  pub At-append : At p (i + length c) rest
  At-append k =
      let step : i + length c + k ≡ i + (length c + k) = omega arith in
      ap p step ∙ at (length c + k) ∙ text-append c rest k

  pub component-text : component p i (i + length c) ≡ text c
  unfolding component
  component-text = fun_ext λ k. elim (Bool-cases (ltb k (length c))) [
    | inl e ↦ ground (arith, At-left k (ground arith))
    | inr e ↦ ground (arith, text-end c k (ground arith))
  ]

  pub no_slash : NoSlash c → (k : ℕ) → i ≤ k → k < i + length c → p k ≢ 47
  no_slash plain k lo hi =
      let there : p k ≡ text c (k - i) = ap p (omega arith) ∙ At-left (k - i) (omega arith) in
      let char = (text-NoSlash c (k - i) plain (omega arith)).1 in λ e. char (sym there ∙ e)

pub name_length-text :
    (p : Bytes) (left i : ℕ) (xs : List ℕ)
    → At p i xs
    → ((k : ℕ) → k < length xs → text xs k ≢ 0)
    → length xs < left
    → name_length p left i ≡ i + length xs
unfolding name_length text
name_length-text p zero i xs at full h = absurd (omega (arith, h))
name_length-text p (suc left) i [] at full h =
    let here : p i ≡ 0 = ap p (omega arith) ∙ at 0 in ground (arith, here)
name_length-text p (suc left) i (x ∷ xs) at full h =
    let here : p i ≡ x = ap p (omega arith) ∙ at 0 in
    let char : x ≢ 0 = full 0 (omega arith) in
    let next : At p (i + 1) xs =
      λ k. let step : i + 1 + k ≡ i + suc k = omega arith in ap p step ∙ at (suc k) in
    ground (
      arith,
      here,
      char,
      name_length-text p left (i + 1) xs next (λ k l. full (suc k) (omega arith))
          (omega (arith, h)),
    )
