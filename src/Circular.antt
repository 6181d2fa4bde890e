-- ===== src/Circular.antt =====
-- Arrays of 256 cells whose indices are `unsigned char`, read round the end: what the ring of
-- etc/lib/rb and the queue of kernel/process/queue have in common.
use deprecat_os.Prelude.{
  ℕ, zero, suc, ◌+◌, ◌-◌, ◌%◌, ◌≤◌, ◌<◌, ◌≡◌, refl, ap, List, [], ◌∷◌, ◌++◌, arith, length, write,
  write_other,
}
use mathlib.Core.Path.{ap₂}

-- The number of cells from `tail` up to `head`.
abbrev pub distance : ℕ → ℕ → ℕ
distance head tail = (head + 256 - tail) % 256

module _ {ℓ} {A : Type ℓ} where
  -- The `n` cells from index `t` on.
  unfoldable pub window : (ℕ → A) → ℕ → ℕ → List A
  window a t zero = []
  window a t (suc n) = a t ∷ window a ((t + 1) % 256) n

  pub length-window : (a : ℕ → A) (t n : ℕ) → length (window a t n) ≡ n
  unfolding window
  length-window a t zero = refl
  length-window a t (suc n) = omega (arith, length-window a ((t + 1) % 256) n)

  pub window-zero : (a : ℕ → A) (t : ℕ) → window a t 0 ≡ []
  unfolding window
  window-zero a t = refl

  -- A write outside the window is not seen.
  pub window-write_out :
      (a : ℕ → A) (i : ℕ) (v : A) (n t : ℕ)
      → i < 256
      → t < 256
      → n ≤ distance i t
      → window (write a i v) t n ≡ window a t n
  unfolding window
  window-write_out a i v zero t hi ht out = refl
  window-write_out a i v (suc n) t hi ht out =
      ap₂ ◌∷◌ (write_other a i v t (λ e. omega arith))
        (window-write_out a i v n ((t + 1) % 256) hi (omega arith) (omega arith))

  pub window_snoc :
      (a : ℕ → A) (n t i : ℕ)
      → t < 256
      → i ≡ (t + n) % 256
      → window a t (suc n) ≡ window a t n ++ (a i ∷ [])
  unfolding window
  window_snoc a zero t i ht e = let e' : t ≡ i = omega arith in rw e'
  window_snoc a (suc n) t i ht e =
      ap (λ l. a t ∷ l) (window_snoc a n ((t + 1) % 256) i (omega arith) (omega arith))

  pub window_head :
      (a : ℕ → A) (t n : ℕ) → 0 < n → window a t n ≡ a t ∷ window a ((t + 1) % 256) (n - 1)
  unfolding window
  window_head a t zero h = absurd (omega arith)
  window_head a t (suc n) h = ap (λ k. a t ∷ window a ((t + 1) % 256) k) (omega arith)
