-- ===== src/Text/Laws.antt =====
-- What the string functions do with strings.
use deprecat_os.Prelude.{
  ℕ, zero, suc, ◌+◌, ◌≤◌, ◌<◌, ◌≡◌, ◌≢◌, ◌⊎◌, refl, inl, inr, Bool, true, false, Bool-cases, Option,
  some, ◌==◌, write, arith,
}
use deprecat_os.Mem.{Memory}
use deprecat_os.Text.{max_comp_len, strlen_loop, strlen, streq_loop, streq, strcat_loop, strcat}

-- The string at `s` has `n` characters.
pub record IsText (m : Memory) (s n : ℕ) : Type 0 where
  pub ended : m (s + n) ≡ 0
  pub inside : (i : ℕ) → i < n → m (s + i) ≢ 0

strlen_loop_lem :
    (m : Memory) (s n left i : ℕ) → IsText m s n → i ≤ n → n < i + left → strlen_loop m s left i ≡ n
unfolding strlen_loop
strlen_loop_lem m s n zero i t l h = absurd (omega arith)
strlen_loop_lem m s n (suc left) i t l h = elim (Bool-cases (i == n)) [
  | inl e ↦
      let e' : i ≡ n = ground arith in
      let z : (m (s + i) == 0) ≡ true = rw e' (ground (arith, t.ended)) in rw (strlen_loop, z) e'
  | inr ne ↦
      let z : (m (s + i) == 0) ≡ false = ground (arith, t.inside i) in
      rw (strlen_loop, z) (strlen_loop_lem m s n left (i + 1) t (ground arith) (omega arith))
]

pub strlen_lem : (m : Memory) (s n : ℕ) → IsText m s n → n < max_comp_len → strlen m s ≡ n
unfolding strlen
strlen_lem m s n t h = strlen_loop_lem m s n max_comp_len 0 t (omega arith) (omega arith)

-- The memory during the loop of `strcat`: `i` characters are copied.
record Copied (m m' : Memory) (dst b i : ℕ) : Type 0 where
  done : (j : ℕ) → j < i → m' (dst + j) ≡ m (b + j)
  rest : (x : ℕ) → (x < dst) ⊎ (dst + i ≤ x) → m' x ≡ m x

-- `strcat` has appended the string at `b`.
pub record Appended (m m' : Memory) (dst b k : ℕ) : Type 0 where
  pub done : (j : ℕ) → j ≤ k → m' (dst + j) ≡ m (b + j)
  pub rest : (x : ℕ) → (x < dst) ⊎ (dst + k < x) → m' x ≡ m x

Copied-next :
    (m m' : Memory) (dst b i : ℕ)
    → Copied m m' dst b i
    → m' (b + i) ≡ m (b + i)
    → Copied m (write m' (dst + i) (m' (b + i))) dst b (i + 1)
unfolding write
Copied-next m m' dst b i c e = record {
  done = λ j h. elim (Bool-cases (j == i)) [
    | inl s ↦ let s' : j ≡ i = ground arith in rw s' (ground arith)
    | inr t ↦ ground (arith, c.done j)
  ];
  rest = λ x h. ground (arith, c.rest x);
}

Copied-last :
    (m m' : Memory) (dst b k i : ℕ)
    → IsText m b k
    → Copied m m' dst b i
    → i ≡ k
    → Appended m (write m' (dst + i) 0) dst b k
unfolding write
Copied-last m m' dst b k i t c e = record {
  done = λ j h. elim (Bool-cases (j == k)) [
    | inl s ↦ let s' : j ≡ k = ground arith in rw s' (ground (arith, t.ended))
    | inr ne ↦ ground (arith, c.done j)
  ];
  rest = λ x h. ground (arith, c.rest x);
}

strcat_loop_lem :
    (m : Memory) (dst b k fuel i : ℕ) (m' : Memory)
    → IsText m b k
    → (dst + k < b) ⊎ (b + k < dst)
    → i ≤ k
    → k < i + fuel
    → Copied m m' dst b i
    → (r : Memory) × (strcat_loop fuel dst b i m' ≡ some r) × Appended m r dst b k
unfolding strcat_loop
strcat_loop_lem m dst b k zero i m' t sep l h c = absurd (omega arith)
strcat_loop_lem m dst b k (suc fuel) i m' t sep l h c =
    let source : m' (b + i) ≡ m (b + i) = c.rest (b + i) (ground arith) in
    elim (Bool-cases (i == k)) [
      | inl e ↦
          let e' : i ≡ k = ground arith in
          let z : (m' (b + i) == 0) ≡ true = rw (source, e') (ground (arith, t.ended)) in
          rw (strcat_loop, z) (write m' (dst + i) 0, refl, Copied-last m m' dst b k i t c e')
      | inr ne ↦
          let z : (m' (b + i) == 0) ≡ false = rw source (ground (arith, t.inside i)) in
          rw (strcat_loop, z)
            (strcat_loop_lem m dst b k fuel (i + 1) (write m' (dst + i) (m' (b + i))) t sep
              (ground arith) (omega arith) (Copied-next m m' dst b i c source))
    ]

-- For a string of n characters at `a`, shorter than MAX_COMP_LEN, and one of k at `b` that lies
-- apart from where it goes, `strcat` ends within k + 1 rounds; the second string and its NUL then
-- stand behind the first, and nothing else has changed.
pub strcat_lem :
    (fuel : ℕ) (m : Memory) (a b n k : ℕ)
    → IsText m a n
    → IsText m b k
    → n < max_comp_len
    → (a + n + k < b) ⊎ (b + k < a + n)
    → k < fuel
    → (r : Memory) × (strcat fuel m a b ≡ some r) × Appended m r (a + n) b k
unfolding strcat
strcat_lem fuel m a b n k ta tb h sep f = rw (strlen_lem m a n ta h) (
    strcat_loop_lem m (a + n) b k fuel 0 m tb sep (omega arith) (omega arith)
      (record { done = λ j p. absurd (omega arith); rest = λ x p. refl }))

-- What `streq` answers.
pub data Answer (m : Memory) (a b n k : ℕ) : Option Bool → Type 0 where
  same : n ≡ k → ((j : ℕ) → j ≤ n → m (a + j) ≡ m (b + j)) → Answer m a b n k (some true)
  other : (i : ℕ) → i ≤ n → i ≤ k → m (a + i) ≢ m (b + i) → Answer m a b n k (some false)

end_lem : (m : Memory) (s n i : ℕ) → IsText m s n → i ≤ n → m (s + i) ≢ 0 → i < n
end_lem m s n i t l ne = elim (Bool-cases (i == n)) [
  | inl e ↦ let e' : i ≡ n = ground arith in absurd (ne (rw e' t.ended))
  | inr lt ↦ ground arith
]

streq_loop_lem :
    (fuel : ℕ) (m : Memory) (a b n k i : ℕ)
    → IsText m a n
    → IsText m b k
    → i ≤ n
    → i ≤ k
    → n < i + fuel
    → ((j : ℕ) → j < i → m (a + j) ≡ m (b + j))
    → Answer m a b n k (streq_loop fuel m a b i)
unfolding streq_loop
streq_loop_lem zero m a b n k i ta tb p q f h = absurd (omega arith)
streq_loop_lem (suc fuel) m a b n k i ta tb p q f h = elim (Bool-cases (m (a + i) == m (b + i))) [
  | inr differ ↦ rw (streq_loop, differ) (other i p q (ground arith))
  | inl agree ↦
      let e : m (a + i) ≡ m (b + i) = ground arith in
      let upto : (j : ℕ) → j < i + 1 → m (a + j) ≡ m (b + j) = λ j l. elim (Bool-cases (j == i)) [
        | inl s ↦ let s' : j ≡ i = ground arith in rw s' e
        | inr t ↦ h j (ground arith)
      ] in
      elim (Bool-cases (m (a + i) == 0)) [
        | inl z ↦
            let at_n : i ≡ n = ground (arith, ta.inside i) in
            let at_k : i ≡ k = ground (arith, tb.inside i) in
            rw (streq_loop, agree, z) (same (omega arith) (λ j l. upto j (omega arith)))
        | inr nz ↦
            let not_n : i < n = end_lem m a n i ta p (ground arith) in
            let not_k : i < k = end_lem m b k i tb q (ground arith) in
            rw (streq_loop, agree, nz)
              (streq_loop_lem fuel m a b n k (i + 1) ta tb (omega arith) (omega arith) (omega arith)
                upto)
      ]
]

-- For a string of n characters at `a` and one at `b`, `streq` ends within n + 1 rounds, and says
-- that they are the same exactly when they have the same characters.
pub streq_lem :
    (fuel : ℕ) (m : Memory) (a b n k : ℕ)
    → IsText m a n
    → IsText m b k
    → n < fuel
    → Answer m a b n k (streq fuel m a b)
unfolding streq
streq_lem fuel m a b n k ta tb f =
    streq_loop_lem fuel m a b n k 0 ta tb (omega arith) (omega arith) (omega arith)
      (λ j p. absurd (omega arith))
