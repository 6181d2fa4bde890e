-- ===== src/Prelude/Lists.antt =====
-- Lists measured and indexed by native numbers, and stores of numbers: a C array whose bounds
-- other code keeps is a function from the index, written at one place by `write`.
use Prim.Native.Nat.{ℕ, zero, suc, ◌+◌}
use mathlib.Core.Path.{◌≡◌}
use mathlib.Core.Logic.{◌≢◌}
use mathlib.Core.List.{List, [], ◌∷◌, ◌++◌}
use native.Mathlib.Omega.{arith}
use deprecat_os.Prelude.Tests.{◌==◌, if◌then◌else◌}

module _ {ℓ} {A : Type ℓ} where
  abbrev pub length : List A → ℕ
  length [] = 0
  length (_ ∷ xs) = suc (length xs)

  abbrev pub get_or : List A → ℕ → A → A
  get_or [] _ d = d
  get_or (x ∷ _) zero _ = x
  get_or (_ ∷ xs) (suc i) d = get_or xs i d

  pub length-append : (xs ys : List A) → length (xs ++ ys) ≡ length xs + length ys
  length-append [] ys = omega arith
  length-append (x ∷ xs) ys = omega (arith, length-append xs ys)

  -- `a[i] = v`
  unfoldable pub write : (ℕ → A) → ℕ → A → ℕ → A
  write a i v j = if j == i then v else a j

  pub write_same : (a : ℕ → A) (i : ℕ) (v : A) → write a i v i ≡ v
  unfolding write
  write_same a i v = ground arith

  pub write_other : (a : ℕ → A) (i : ℕ) (v : A) (j : ℕ) → j ≢ i → write a i v j ≡ a j
  unfolding write
  write_other a i v j h = ground arith
