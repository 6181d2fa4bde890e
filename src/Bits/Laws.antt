-- ===== src/Bits/Laws.antt =====
-- The laws of single bits, from the digit recursion of the native operations.
use Prim.Native.Nat.{digits, bit_and-bitwise, bit_or-bitwise}
use native.Mathlib.Nat.{two-pow-succ, pow-succ', div-div-eq-div-mul}
use deprecat_os.Prelude.{
  ℕ, zero, suc, ◌+◌, ◌-◌, ◌*◌, ◌/◌, ◌%◌, ◌^◌, ◌≤◌, ◌<◌, min, max, bit_and, bit_or, ◌≡◌, refl, ◌∙◌,
  sym, ap, arith, ◌==◌, if◌then◌else◌,
}

-- The bit of weight `2 ^ k`.
unfoldable pub bit : ℕ → ℕ → ℕ
bit x zero = x % 2
bit x (suc k) = bit (x / 2) k

-- An operation digit by digit: `rest` of the second number is left where the first is used up.
module _ (rest : ℕ → ℕ) (op : ℕ → ℕ → ℕ) where
  -- Any two amounts of fuel that reach the first number give the same digits.
  digits_fuel : (x y f g : ℕ) → x ≤ f → x ≤ g → digits rest op f x y ≡ digits rest op g x y
  digits_fuel (suc x) y (suc f) (suc g) h k =
      let halves = digits_fuel (suc x / 2) (y / 2) f g in
      ap (λ d. d * 2 + op (suc x % 2) (y % 2)) (halves (omega arith) (omega arith))
  digits_fuel (suc x) y zero _ h k = absurd (omega arith)
  digits_fuel (suc x) y _ zero h k = absurd (omega arith)
  digits_fuel zero y zero zero h k = refl
  digits_fuel zero y (suc f) zero h k = refl
  digits_fuel zero y zero (suc g) h k = refl
  digits_fuel zero y (suc f) (suc g) h k = refl

  digits_step :
      (f : ℕ → ℕ → ℕ)
      → ((x y : ℕ) → f x y ≡ digits rest op x x y)
      → ((y : ℕ) → rest y ≡ rest (y / 2) * 2 + op 0 (y % 2))
      → (x y : ℕ) → f x y ≡ f (x / 2) (y / 2) * 2 + op (x % 2) (y % 2)
  digits_step f e last zero y = e 0 y ∙ last y ∙ ap (λ d. d * 2 + op 0 (y % 2)) (sym (e 0 (y / 2)))
  digits_step f e last (suc x) y =
      let fuel = digits_fuel (suc x / 2) (y / 2) x (suc x / 2) in
      let half = fuel (omega arith) (omega arith) ∙ sym (e (suc x / 2) (y / 2)) in
      e (suc x) y ∙ ap (λ d. d * 2 + op (suc x % 2) (y % 2)) half

pub bit_and_step : (x y : ℕ) → bit_and x y ≡ bit_and (x / 2) (y / 2) * 2 + min (x % 2) (y % 2)
bit_and_step = digits_step (λ _. zero) min bit_and bit_and-bitwise (λ y. omega arith)

pub bit_or_step : (x y : ℕ) → bit_or x y ≡ bit_or (x / 2) (y / 2) * 2 + max (x % 2) (y % 2)
bit_or_step = digits_step (λ y. y) max bit_or bit_or-bitwise (λ y. omega arith)

-- One equation for all positions, from the equation of the digits.
bit_of_step :
    (op f : ℕ → ℕ → ℕ)
    → ((a b : ℕ) → f a b ≡ f (a / 2) (b / 2) * 2 + op (a % 2) (b % 2))
    → ((x y : ℕ) → x ≤ 1 → y ≤ 1 → op x y ≤ 1)
    → (k a b : ℕ) → bit (f a b) k ≡ op (bit a k) (bit b k)
unfolding bit
bit_of_step op f e small zero a b =
    omega (arith, e a b, small (a % 2) (b % 2) (omega arith) (omega arith))
bit_of_step op f e small (suc k) a b =
    let half : f a b / 2 ≡ f (a / 2) (b / 2) =
      omega (arith, e a b, small (a % 2) (b % 2) (omega arith) (omega arith)) in
    ap (λ n. bit n k) half ∙ bit_of_step op f e small k (a / 2) (b / 2)

pub bit-or : (k a b : ℕ) → bit (bit_or a b) k ≡ max (bit a k) (bit b k)
bit-or = bit_of_step max bit_or bit_or_step (λ x y p q. omega arith)

pub bit-and : (k a b : ℕ) → bit (bit_and a b) k ≡ min (bit a k) (bit b k)
bit-and = bit_of_step min bit_and bit_and_step (λ x y p q. omega arith)

pub bit-le-one : (k a : ℕ) → bit a k ≤ 1
unfolding bit
bit-le-one zero a = omega arith
bit-le-one (suc k) a = bit-le-one k (a / 2)

pub bit-zero : (k : ℕ) → bit 0 k ≡ 0
unfolding bit
bit-zero zero = refl
bit-zero (suc k) = bit-zero k

suc_eq_zero : (j : ℕ) → (if suc j == 0 then 1 else 0) ≡ zero
suc_eq_zero j = ground arith

-- `1 << k` has one bit.
pub bit-pow : (k j : ℕ) → bit (2 ^ k) j ≡ (if j == k then 1 else 0)
unfolding bit
bit-pow zero zero = refl
bit-pow zero (suc j) = omega (arith, bit-zero j, suc_eq_zero j)
bit-pow (suc k) zero = ground (arith, two-pow-succ k)
bit-pow (suc k) (suc j) =
    let half : 2 ^ suc k / 2 ≡ 2 ^ k = omega (arith, two-pow-succ k) in
    ap (λ n. bit n j) half ∙ bit-pow k j ∙ ground arith

pub pow_pos : (n : ℕ) → 0 < 2 ^ n
pow_pos zero = omega arith
pow_pos (suc n) = omega (arith, two-pow-succ n, pow_pos n)

no_bits_fuel : (f x : ℕ) → x < f → bit_and x 0 ≡ 0
no_bits_fuel zero x h = absurd (omega arith)
no_bits_fuel (suc f) zero h = refl
no_bits_fuel (suc f) (suc x) h =
    let upper = no_bits_fuel f (suc x / 2) (omega arith) in
    omega (arith, upper, bit_and_step (suc x) 0)

no_bits : (x : ℕ) → bit_and x 0 ≡ 0
no_bits x = no_bits_fuel (suc x) x (omega arith)

-- `~x` on words of `n` bits.
unfoldable pub complement : ℕ → ℕ → ℕ
complement n x = 2 ^ n - 1 - x

pub bit-complement : (n x k : ℕ) → x < 2 ^ n → k < n → bit (complement n x) k ≡ 1 - bit x k
unfolding bit complement
bit-complement zero x k h lt = absurd (omega arith)
bit-complement (suc n) x zero h lt = omega (arith, two-pow-succ n)
bit-complement (suc n) x (suc k) h lt =
    let half : (2 ^ suc n - 1 - x) / 2 ≡ 2 ^ n - 1 - x / 2 = omega (arith, two-pow-succ n) in
    ap (λ m. bit m k) half
    ∙ bit-complement n (x / 2) k (omega (arith, two-pow-succ n)) (omega arith)

bit_and-one : (x : ℕ) → bit_and x 1 ≡ x % 2
bit_and-one x = let upper = no_bits (x / 2) in omega (arith, upper, bit_and_step x 1)

-- A word of ones.
pub bit-ones : (k : ℕ) → k < 32 → bit 4294967295 k ≡ 1
unfolding complement
bit-ones k h = omega (arith, bit-complement 32 0 k (omega arith) h, bit-zero k)

-- `(x >> k) & 1` reads the bit.
pub bit-shift : (k x : ℕ) → bit_and (x / 2 ^ k) 1 ≡ bit x k
unfolding bit
bit-shift zero x = bit_and-one (x / 1) ∙ omega arith
bit-shift (suc k) x =
    let halves : x / 2 ^ suc k ≡ x / 2 / 2 ^ k =
      ap (λ d. x / d) (pow-succ' 2 k) ∙ sym (div-div-eq-div-mul x 2 (2 ^ k)) in
    ap (λ n. bit_and n 1) halves ∙ bit-shift k (x / 2)

-- `x |= 1 << k`.
pub bit-set : (x k j : ℕ) → bit (bit_or x (2 ^ k)) j ≡ (if j == k then 1 else bit x j)
bit-set x k j = ground (arith, bit-or j x (2 ^ k), bit-pow k j, bit-le-one j x)

pub pow-lt-pow : (k n : ℕ) → k < n → 2 ^ k < 2 ^ n
pow-lt-pow zero zero h = elim h [ ]
pow-lt-pow zero (suc n) h = omega (arith, two-pow-succ n, pow_pos n)
pow-lt-pow (suc k) zero h = elim h [ ]
pow-lt-pow (suc k) (suc n) h =
    omega (arith, two-pow-succ n, two-pow-succ k, pow-lt-pow k n (omega arith))

-- `x &= ~(1 << k)` on words of `n` bits.
pub bit-clear :
    (n x k j : ℕ)
    → k < n
    → j < n
    → bit (bit_and x (complement n (2 ^ k))) j ≡ (if j == k then 0 else bit x j)
bit-clear n x k j hk hj = ground (
  arith,
  bit-and j x (complement n (2 ^ k)),
  bit-complement n (2 ^ k) j (pow-lt-pow k n hk) hj,
  bit-pow k j,
  bit-le-one j x,
)

pub bit_or-lt : (n a b : ℕ) → a < 2 ^ n → b < 2 ^ n → bit_or a b < 2 ^ n
bit_or-lt zero a b ha hb =
    let za : a ≡ 0 = omega arith in let zb : b ≡ 0 = omega arith in rw (za, zb) (omega arith)
bit_or-lt (suc n) a b ha hb = omega (
  arith,
  two-pow-succ n,
  bit_or_step a b,
  bit_or-lt n (a / 2) (b / 2) (omega (arith, two-pow-succ n)) (omega (arith, two-pow-succ n)),
)

pub bit_and-le : (n a b : ℕ) → a < 2 ^ n → bit_and a b ≤ a
bit_and-le zero a b ha = let za : a ≡ 0 = omega arith in rw za (omega (arith, bit_and-bitwise 0 b))
bit_and-le (suc n) a b ha =
    omega (arith, bit_and_step a b, bit_and-le n (a / 2) (b / 2) (omega (arith, two-pow-succ n)))

-- A word of `n` bits that are all set.
pub all_ones : (n x : ℕ) → x < 2 ^ n → ((k : ℕ) → k < n → bit x k ≡ 1) → x ≡ 2 ^ n - 1
unfolding bit
all_ones zero x h ones = omega arith
all_ones (suc n) x h ones = omega (
  arith,
  two-pow-succ n,
  pow_pos n,
  ones 0 (omega arith),
  all_ones n (x / 2) (omega (arith, two-pow-succ n)) (λ k lt. ones (suc k) (omega arith)),
)

-- `x & (1 << k)`
pub bit_and-pow : (k x : ℕ) → bit_and x (2 ^ k) ≡ bit x k * 2 ^ k
unfolding bit
bit_and-pow zero x = omega (arith, bit_and-one x)
bit_and-pow (suc k) x =
    let half : 2 ^ suc k / 2 ≡ 2 ^ k = omega (arith, two-pow-succ k) in
    let rest : bit_and (x / 2) (2 ^ suc k / 2) ≡ bit (x / 2) k * 2 ^ k =
      ap (bit_and (x / 2)) half ∙ bit_and-pow k (x / 2) in
    let double = ap (λ (t : ℕ). bit (x / 2) k * t) (pow-succ' 2 k) in
    omega (arith, bit_and_step x (2 ^ suc k), rest, double, two-pow-succ k)
