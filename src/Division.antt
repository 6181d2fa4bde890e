-- ===== src/Division.antt =====
-- etc/lib/longops/longops.c: the 64-bit division that the compiler's code calls.
pub mod Laws
mod Tests
use deprecat_os.Prelude.{
  ℕ, zero, suc, ◌+◌, ◌-◌, ◌*◌, ◌/◌, ◌%◌, ◌^◌, bit_or, Bool, true, false, Option, none, some, ◌==◌,
  leb, if◌then◌else◌, map,
}
use mathlib.Core.Option

-- The locals of the loop.
pub record Division : Type 0 where
  pub n : ℕ
  pub q : ℕ
  pub r : ℕ

-- One round of the loop.
unfoldable pub round : ℕ → Division → Division
round d s =
    let r = bit_or (s.r * 2 % 2 ^ 64) (s.n / 2 ^ 63) in
    let q = s.q * 2 % 2 ^ 64 in
    if leb d r
    then record { n = s.n * 2 % 2 ^ 64; q = bit_or q 1; r = r - d }
    else record { n = s.n * 2 % 2 ^ 64; q = q; r = r }

-- The locals after the first `k` rounds.
unfoldable pub rounds : ℕ → ℕ → ℕ → Division
rounds d n zero = record { n = n; q = 0; r = 0 }
rounds d n (suc k) = round d (rounds d n k)

-- Quotient and remainder; `none` is the division fault.
unfoldable pub udivmoddi4 : ℕ → ℕ → Option (ℕ × ℕ)
udivmoddi4 n d = let last = rounds d n 64 in if d == 0 then none else some (last.q, last.r)

unfoldable pub udivdi3 : ℕ → ℕ → Option ℕ
udivdi3 n d = Option.map (λ x. x.0) (udivmoddi4 n d)

unfoldable pub umoddi3 : ℕ → ℕ → Option ℕ
umoddi3 n d = Option.map (λ x. x.1) (udivmoddi4 n d)
