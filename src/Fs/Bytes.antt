-- ===== src/Fs/Bytes.antt =====
-- Buffers of bytes and the little-endian fields of the packed structs that the C code lays over
-- them: a `uint16_t` or `uint32_t` at a byte offset.
use deprecat_os.Prelude.{ℕ, ◌+◌, ◌*◌, ◌/◌, ◌%◌, ◌^◌, ◌≤◌, ◌<◌, ◌≡◌, ◌⊎◌, arith, ◌==◌, if◌then◌else◌}

abbrev pub Bytes : Type 0
Bytes = ℕ → ℕ

unfoldable pub get16 : Bytes → ℕ → ℕ
get16 b o = b o + 256 * b (o + 1)

unfoldable pub get32 : Bytes → ℕ → ℕ
get32 b o = b o + 256 * b (o + 1) + 65536 * b (o + 2) + 16777216 * b (o + 3)

unfoldable pub set16 : Bytes → ℕ → ℕ → Bytes
set16 b o v k = if k == o then v % 256 else if k == o + 1 then v / 256 % 256 else b k

unfoldable pub set32 : Bytes → ℕ → ℕ → Bytes
set32 b o v k =
    if k == o
    then v % 256
    else if k == o + 1
    then v / 256 % 256
    else if k == o + 2
    then v / 65536 % 256
    else if k == o + 3
    then v / 16777216 % 256
    else b k

-- The fields at `o` and `p`, of `m` and `n` bytes, have no byte in common.
abbrev pub Apart : ℕ → ℕ → ℕ → ℕ → Type 0
Apart o m p n = (o + m ≤ p) ⊎ (p + n ≤ o)

pub get16-set16 : (b : Bytes) (o v : ℕ) → v < 65536 → get16 (set16 b o v) o ≡ v
unfolding get16 set16
get16-set16 b o v h = ground arith

pub get16-set16-Apart : (b : Bytes) (o v p : ℕ) → Apart o 2 p 2 → get16 (set16 b o v) p ≡ get16 b p
unfolding get16 set16
get16-set16-Apart b o v p h = ground arith

pub get32-set16-Apart : (b : Bytes) (o v p : ℕ) → Apart o 2 p 4 → get32 (set16 b o v) p ≡ get32 b p
unfolding get32 set16
get32-set16-Apart b o v p h = ground arith

pub get32-set32 : (b : Bytes) (o v : ℕ) → v < 2 ^ 32 → get32 (set32 b o v) o ≡ v
unfolding get32 set32
get32-set32 b o v h = ground arith

pub set32-Apart : (b : Bytes) (o v k : ℕ) → Apart o 4 k 1 → set32 b o v k ≡ b k
unfolding set32
set32-Apart b o v k h = ground arith

pub get32-set32-Apart : (b : Bytes) (o v p : ℕ) → Apart o 4 p 4 → get32 (set32 b o v) p ≡ get32 b p
unfolding get32
get32-set32-Apart b o v p h = ground (
  arith,
  set32-Apart b o v p,
  set32-Apart b o v (p + 1),
  set32-Apart b o v (p + 2),
  set32-Apart b o v (p + 3),
)

pub get16-set32-Apart : (b : Bytes) (o v p : ℕ) → Apart o 4 p 2 → get16 (set32 b o v) p ≡ get16 b p
unfolding get16
get16-set32-Apart b o v p h = ground (arith, set32-Apart b o v p, set32-Apart b o v (p + 1))
