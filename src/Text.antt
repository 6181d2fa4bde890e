-- ===== src/Text.antt =====
-- etc/lib/strlen, etc/lib/streq and etc/lib/strcat: the functions on strings that end in a NUL,
-- on the memory of `Mem`. The loops without a bound of their own run on fuel.
pub mod Laws
mod Tests
use deprecat_os.Prelude.{
  ℕ, zero, suc, ◌+◌, ◌%◌, ◌^◌, Bool, true, false, ◌||◌, Option, none, some, ◌==◌, leb,
  if◌then◌else◌, write,
}
use deprecat_os.Mem.{Memory}

abbrev pub max_comp_len : ℕ
max_comp_len = 1000000000

-- The loop of `strlen`, `left` rounds from `i` on.
unfoldable pub strlen_loop : Memory → ℕ → ℕ → ℕ → ℕ
strlen_loop m s zero i = max_comp_len + 1
strlen_loop m s (suc left) i = elim (m (s + i) == 0) [
  | true ↦ i
  | false ↦ strlen_loop m s left (i + 1)
]

unfoldable pub strlen : Memory → ℕ → ℕ
strlen m s = strlen_loop m s max_comp_len 0

-- The loop of `streq`; `none` is a loop that is still running.
unfoldable pub streq_loop : ℕ → Memory → ℕ → ℕ → ℕ → Option Bool
streq_loop zero m a b i = none
streq_loop (suc fuel) m a b i = elim (m (a + i) == m (b + i)) [
  | true ↦ elim (m (a + i) == 0) [ true ↦ some true | false ↦ streq_loop fuel m a b (i + 1) ]
  | false ↦ some false
]

unfoldable pub streq : ℕ → Memory → ℕ → ℕ → Option Bool
streq fuel m a b = streq_loop fuel m a b 0

-- The loop of `strcat` and the write of the NUL behind it.
unfoldable pub strcat_loop : ℕ → ℕ → ℕ → ℕ → Memory → Option Memory
strcat_loop zero dst b i m = none
strcat_loop (suc fuel) dst b i m = elim (m (b + i) == 0) [
  | true ↦ some (write m (dst + i) 0)
  | false ↦ strcat_loop fuel dst b (i + 1) (write m (dst + i) (m (b + i)))
]

unfoldable pub strcat : ℕ → Memory → ℕ → ℕ → Option Memory
strcat fuel m a b = strcat_loop fuel (a + strlen m a) b 0 m

-- `some none` is the null pointer.
unfoldable pub strncat : ℕ → Memory → ℕ → ℕ → ℕ → Option (Option Memory)
strncat fuel m a b overflow =
    let refused = leb overflow (strlen m a) || leb overflow ((strlen m a + strlen m b) % 2 ^ 32) in
    if refused
    then some none
    else elim (strcat fuel m a b) [ none ↦ none | some m' ↦ some (some m') ]
