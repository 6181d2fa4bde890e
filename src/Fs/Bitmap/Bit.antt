-- ===== src/Fs/Bitmap/Bit.antt =====
-- A bitmap as a sequence of bits, and what the byte operations do to it.
use deprecat_os.Prelude.{
  ℕ, ◌/◌, ◌%◌, ◌^◌, ◌≡◌, ◌⊎◌, inl, inr, bit_and, bit_or, arith, ◌==◌, if◌then◌else◌, write,
}
use deprecat_os.Bits.{bit, complement, bit-set, bit-clear, bit_and-pow, pow_pos, bit-le-one}
use deprecat_os.Fs.Bytes.{Bytes}
use deprecat_os.Fs.Bitmap.{is_free}

-- Bit `i` of the bitmap: 1 if the item is taken.
abbrev pub used : Bytes → ℕ → ℕ
used b i = bit (b (i / 8)) (i % 8)

pub bit-cases : (x k : ℕ) → (bit x k ≡ 0) ⊎ (bit x k ≡ 1)
bit-cases x k = ground (arith, bit-le-one k x)

-- The test of the code, `!(byte & (1 << k))`, reads the bit.
pub is_free-bit : (x k : ℕ) → is_free x k ≡ (bit x k == 0)
is_free-bit x k = elim (bit-cases x k) [
  | inl zero_bit ↦ rw (bit_and-pow k x, zero_bit) (ground arith)
  | inr one_bit ↦ rw (bit_and-pow k x, one_bit) (ground (arith, pow_pos k))
]

-- `bitmap[i / 8] |= 1 << (i % 8)` takes the item `i` and no other.
pub used-take :
    (b : Bytes) (i j : ℕ)
    → used (write b (i / 8) (bit_or (b (i / 8)) (2 ^ (i % 8)))) j ≡ (if j == i then 1 else used b j)
unfolding write
used-take b i j = ground (arith, bit-set (b (i / 8)) (i % 8) (j % 8))

-- `bitmap[i / 8] &= ~(1 << (i % 8))` gives back the item `i` and no other.
pub used-give :
    (b : Bytes) (i j : ℕ)
    → used (write b (i / 8) (bit_and (b (i / 8)) (complement 8 (2 ^ (i % 8))))) j
      ≡ (if j == i then 0 else used b j)
unfolding write
used-give b i j = ground (arith, bit-clear 8 (b (i / 8)) (i % 8) (j % 8))
