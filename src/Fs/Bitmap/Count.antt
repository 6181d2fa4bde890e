-- ===== src/Fs/Bitmap/Count.antt =====
-- The number of free items in a bitmap.
use deprecat_os.Prelude.{
  ℕ, zero, suc, ◌+◌, ◌-◌, ◌≤◌, ◌<◌, ◌≡◌, ◌≢◌, refl, inl, inr, arith, ◌==◌, Bool-cases,
}
use deprecat_os.Fs.Bytes.{Bytes}
use deprecat_os.Fs.Bitmap.Bit.{used}

-- How many of the first `n` items are free.
unfoldable pub free_items : Bytes → ℕ → ℕ
free_items b zero = 0
free_items b (suc n) = free_items b n + (1 - used b n)

pub free_items-le : (b : Bytes) (n : ℕ) → free_items b n ≤ n
unfolding free_items
free_items-le b zero = omega arith
free_items-le b (suc n) = omega (arith, free_items-le b n)

pub free_items_same :
    (b c : Bytes) (n : ℕ)
    → ((j : ℕ) → j < n → used c j ≡ used b j)
    → free_items c n ≡ free_items b n
unfolding free_items
free_items_same b c zero h = refl
free_items_same b c (suc n) h =
    omega (arith, h n (omega arith), free_items_same b c n (λ j p. h j (omega arith)))

-- A change of one item changes the number by that item.
pub free_items_change :
    (b c : Bytes) (i n : ℕ)
    → i < n
    → ((j : ℕ) → j < n → j ≢ i → used c j ≡ used b j)
    → free_items c n + (1 - used b i) ≡ free_items b n + (1 - used c i)
unfolding free_items
free_items_change b c i zero lt h = absurd (omega arith)
free_items_change b c i (suc n) lt h = elim (Bool-cases (i == n)) [
  | inl e ↦
      let e' : i ≡ n = ground arith in
      rw e' (omega (arith, free_items_same b c n (λ j p. h j (omega arith) (omega arith))))
  | inr ne ↦
      let ne' : n ≢ i = ground arith in
      omega (
        arith,
        h n (omega arith) ne',
        free_items_change b c i n (ground arith) (λ j p q. h j (omega arith) q),
      )
]

pub full_of : (b : Bytes) (n : ℕ) → ((j : ℕ) → j < n → used b j ≡ 1) → free_items b n ≡ 0
unfolding free_items
full_of b zero h = refl
full_of b (suc n) h = omega (arith, h n (omega arith), full_of b n (λ j p. h j (omega arith)))
