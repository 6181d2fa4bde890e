-- ===== src/Division/Laws.antt =====
-- The shift and subtract loop against quotient and remainder.
use deprecat_os.Prelude.{
  ℕ, zero, suc, ◌+◌, ◌-◌, ◌*◌, ◌/◌, ◌%◌, ◌^◌, ◌≤◌, ◌<◌, ◌≡◌, ◌∙◌, refl, ap, subst, bit_or, false,
  Bool-cases, some, ◌==◌, leb, inl, inr, arith,
}
use native.Mathlib.Nat.{
  add-mul-div_right, add-mul-mod_self_right, div-eq_of_lt, mod-eq_of_lt, two-pow-succ,
  mul-le-mul_right, add-mul, le-mul_of_pos_right,
}
use deprecat_os.Bits.{bit_or_step, pow_pos}
use deprecat_os.Division.{Division, round, rounds, udivmoddi4}

-- Where the loop stands: `hi` has been divided, and `lo`, below `p`, is to come.
record Divides (n d p t : ℕ) (s : Division) : Type 0 where
  hi : ℕ
  lo : ℕ
  whole : n ≡ hi * p + lo
  lo_lt : lo < p
  left : s.n ≡ lo * t
  divided : hi ≡ s.q * d + s.r
  r_lt : s.r < d
  hi_lt : hi < t

or_zero : (n x : ℕ) → x ≤ n → bit_or x 0 ≡ x
or_zero zero x h = let z : x ≡ 0 = omega arith in rw z refl
or_zero (suc n) x h = elim (Bool-cases (x == 0)) [
  | inl e ↦ let z : x ≡ 0 = ground arith in rw z refl
  | inr e ↦
      let le : x / 2 ≤ n = ground arith in omega (arith, bit_or_step x 0, or_zero n (x / 2) le)
]

or_bit : (x b : ℕ) → b < 2 → bit_or (x * 2) b ≡ x * 2 + b
or_bit x b h =
    let low : b / 2 ≡ 0 = omega arith in
    let high : x * 2 / 2 ≡ x = omega arith in
    let halves : bit_or (x * 2 / 2) (b / 2) ≡ x = rw (low, high, or_zero x x (omega arith)) in
    omega (arith, bit_or_step (x * 2) b, halves)

mul_gap : (a h t : ℕ) → a < h → a * t + t ≤ h * t
mul_gap a h t l = omega (arith, mul-le-mul_right t l)

-- The next bit of `n`, and what is then left.
data NextBit (h t lo : ℕ) (b : ℕ) : Type 0 where
  next : (lo' : ℕ) → lo ≡ b * h + lo' → lo' < h → lo' * t < 2 ^ 63 → b < 2 → NextBit h t lo b

next_bit :
    (h t lo n : ℕ) → lo < h + h → 0 < t → h * t ≡ 2 ^ 63 → n ≡ lo * t → NextBit h t lo (n / 2 ^ 63)
next_bit h t lo n l pt e en = elim (Bool-cases (leb h lo)) [
  | inl ge ↦
      let le : h ≤ lo = ground arith in
      let lo' = lo - h in
      let whole : lo ≡ lo' + h = omega arith in
      let small = mul_gap lo' h t (omega arith) in
      let sum : lo * t ≡ lo' * t + h * t = ap (λ x. x * t) whole ∙ add-mul lo' h t in
      let one : n / 2 ^ 63 ≡ 1 = omega arith in
      rw one (next lo' (omega arith) (omega arith) (omega arith) (omega arith))
  | inr lt ↦
      let less : lo < h = ground arith in
      let small = mul_gap lo h t less in
      let none : n / 2 ^ 63 ≡ 0 = omega arith in
      rw none (next lo (omega arith) less (omega arith) (omega arith))
]

-- The numbers of a round, from its bit `b`.
module _ (n d h t hi lo q r b lo' : ℕ) (b_lt : b < 2) (split : lo ≡ b * h + lo') where
  whole_lem : n ≡ hi * (h + h) + lo → n ≡ (hi * 2 + b) * h + lo'
  whole_lem e = grind arith

  left_lem : h * t ≡ 2 ^ 63 → lo' * t < 2 ^ 63 → lo * t * 2 % 2 ^ 64 ≡ lo' * (t + t)
  left_lem e s =
      let le : lo * t ≡ b * (h * t) + lo' * t = grind arith in
      let weight : b * (h * t) ≡ b * 2 ^ 63 = ap (λ x. b * x) e in
      let ri : lo' * (t + t) ≡ lo' * t + lo' * t = grind arith in omega arith

  kept_lem : hi ≡ q * d + r → hi * 2 + b ≡ q * 2 * d + (r * 2 + b)
  kept_lem e = grind arith

  taken_lem : hi ≡ q * d + r → d ≤ r * 2 + b → hi * 2 + b ≡ (q * 2 + 1) * d + (r * 2 + b - d)
  taken_lem e l = let m : (q * 2 + 1) * d ≡ q * d + q * d + d = grind arith in omega arith

round_lem :
    (n d h t : ℕ) (s : Division)
    → 0 < t
    → h * t ≡ 2 ^ 63
    → t ≤ 2 ^ 63
    → Divides n d (h + h) t s
    → Divides n d h (t + t) (round d s)
unfolding round
round_lem n d h t s pt e ht v = elim (next_bit h t v.lo s.n v.lo_lt pt e v.left) [
  | next lo' split lt small b_lt ↦
      let b = s.n / 2 ^ 63 in
      let q_le : s.q ≤ s.q * d = le-mul_of_pos_right s.q (omega arith) in
      let r2 : s.r * 2 % 2 ^ 64 ≡ s.r * 2 = omega arith in
      let q2 : s.q * 2 % 2 ^ 64 ≡ s.q * 2 = omega arith in
      let r_or : bit_or (s.r * 2) b ≡ s.r * 2 + b = or_bit s.r b b_lt in
      let q_or : bit_or (s.q * 2) 1 ≡ s.q * 2 + 1 = or_bit s.q 1 (omega arith) in
      let whole = whole_lem n d h t v.hi v.lo s.q s.r b lo' b_lt split v.whole in
      let left0 = left_lem n d h t v.hi v.lo s.q s.r b lo' b_lt split e small in
      let left : s.n * 2 % 2 ^ 64 ≡ lo' * (t + t) = ap (λ x. x * 2 % 2 ^ 64) v.left ∙ left0 in
      elim (Bool-cases (leb d (s.r * 2 + b))) [
        | inl y ↦
            let taken =
              taken_lem n d h t v.hi v.lo s.q s.r b lo' b_lt split v.divided (ground arith) in
            rw (r2, r_or, q2, q_or, y)
              (record {
                hi = v.hi * 2 + b;
                lo = lo';
                whole = whole;
                lo_lt = lt;
                left = left;
                divided = taken;
                r_lt = ground arith;
                hi_lt = omega arith;
              })
        | inr y ↦
            let kept = kept_lem n d h t v.hi v.lo s.q s.r b lo' b_lt split v.divided in
            rw (r2, r_or, q2, y)
              (record {
                hi = v.hi * 2 + b;
                lo = lo';
                whole = whole;
                lo_lt = lt;
                left = left;
                divided = kept;
                r_lt = ground arith;
                hi_lt = omega arith;
              })
      ]
]

twice : (a b : ℕ) → (a + a) * b ≡ a * (b + b)
twice a b = grind arith

pow_sum : (k j m : ℕ) → k + j ≡ m → 2 ^ j * 2 ^ k ≡ 2 ^ m
pow_sum k zero m e = let same : k ≡ m = omega arith in rw same (omega arith)
pow_sum k (suc j) m e =
    let rest : 2 ^ j * 2 ^ suc k ≡ 2 ^ m = pow_sum (suc k) j m (omega arith) in
    let split : 2 ^ suc j * 2 ^ k ≡ 2 ^ j * 2 ^ suc k =
      rw (two-pow-succ j, two-pow-succ k) (twice (2 ^ j) (2 ^ k)) in
    split ∙ rest

rounds_lem :
    (n d k j : ℕ) → n < 2 ^ 64 → 0 < d → k + j ≡ 64 → Divides n d (2 ^ j) (2 ^ k) (rounds d n k)
unfolding rounds
rounds_lem n d zero j h p e =
    let same : j ≡ 64 = omega arith in
    rw same (record {
      hi = 0;
      lo = n;
      whole = omega arith;
      lo_lt = h;
      left = omega arith;
      divided = omega arith;
      r_lt = p;
      hi_lt = omega arith;
    })
rounds_lem n d (suc k) j h p e =
    let before = rounds_lem n d k (suc j) h p (omega arith) in
    let twice_p : 2 ^ suc j ≡ 2 ^ j + 2 ^ j = omega (arith, two-pow-succ j) in
    let twice_t : 2 ^ suc k ≡ 2 ^ k + 2 ^ k = omega (arith, two-pow-succ k) in
    let scale = pow_sum k j 63 (omega arith) in
    let small : 2 ^ k ≤ 2 ^ 63 = grind (arith, le-mul_of_pos_right (2 ^ k) (pow_pos j)) in
    let now =
      round_lem n d (2 ^ j) (2 ^ k) (rounds d n k) (pow_pos k) scale small
        (subst (λ x. Divides n d x (2 ^ k) (rounds d n k)) twice_p before) in
    rw twice_t now

-- For a 64-bit number and a divisor other than 0 the shift and subtract loop of `__udivmoddi4`
-- returns the quotient and the remainder.
pub udivmoddi4_lem : (n d : ℕ) → n < 2 ^ 64 → 0 < d → udivmoddi4 n d ≡ some (n / d, n % d)
unfolding udivmoddi4
udivmoddi4_lem n d h p =
    let v = rounds_lem n d 64 0 h p refl in
    let nz : (d == 0) ≡ false = ground arith in
    let last = rounds d n 64 in
    let whole : n ≡ last.r + last.q * d = omega (arith, v.whole, v.divided, v.lo_lt) in
    let zero_div : last.r / d ≡ 0 = div-eq_of_lt v.r_lt in
    let sum : n / d ≡ last.r / d + last.q =
      ap (λ x. x / d) whole ∙ add-mul-div_right last.r last.q p in
    let quotient : n / d ≡ last.q = omega (arith, sum, zero_div) in
    let rest : n % d ≡ last.r =
      ap (λ x. x % d) whole ∙ add-mul-mod_self_right last.r last.q d ∙ mod-eq_of_lt v.r_lt in
    rw (nz, quotient, rest)
