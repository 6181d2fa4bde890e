-- ===== src/Fs/Bitmap/Search.antt =====
-- The searches of the allocators for a group and for a bit.
use deprecat_os.Prelude.{
  ℕ, zero, suc, ◌+◌, ◌*◌, ◌/◌, ◌%◌, ◌≤◌, ◌<◌, ◌≡◌, ◌∙◌, refl, ap, subst, inl, inr, true, false,
  Option, none, some, arith, ◌==◌, ltb, Bool-cases, ltb→lt, ltb→le,
}
use deprecat_os.Bits.{bit}
use deprecat_os.Fs.Bytes.{Bytes}
use deprecat_os.Fs.Volume.{FsInfo}
use deprecat_os.Fs.Bitmap.{Kind, unalloc_cnt, is_free, find_group, scan_bits, scan_bytes}
use deprecat_os.Fs.Bitmap.Bit.{used, is_free-bit, bit-cases}

-- What the inner loop found in the bits from `k` on, `left` of them.
pub record FreeBit (x k left idx k' idx' : ℕ) : Type 0 where
  pub from : k ≤ k'
  pub below : k' < k + left
  pub index : idx' + k ≡ idx + k'
  pub free : bit x k' ≡ 0
  pub first : (j : ℕ) → k ≤ j → j < k' → bit x j ≡ 1

abbrev pub BitsTaken : ℕ → ℕ → ℕ → Type 0
BitsTaken x k left = (j : ℕ) → k ≤ j → j < k + left → bit x j ≡ 1

abbrev pub ScanBits : ℕ → ℕ → ℕ → ℕ → Option (ℕ × ℕ) → Type 0
ScanBits x k left idx none = BitsTaken x k left
ScanBits x k left idx (some (k', idx')) = FreeBit x k left idx k' idx'

pub taken_of : (x k : ℕ) → is_free x k ≡ false → bit x k ≡ 1
taken_of x k h =
    let e = is_free-bit x k in
    elim (bit-cases x k) [ inl zero_bit ↦ ground arith | inr one_bit ↦ one_bit ]

pub free_of : (x k : ℕ) → is_free x k ≡ true → bit x k ≡ 0
free_of x k h =
    let e = is_free-bit x k in
    elim (bit-cases x k) [ inl zero_bit ↦ zero_bit | inr one_bit ↦ ground arith ]

ScanBits-later :
    (x k left idx : ℕ) (o : Option (ℕ × ℕ))
    → bit x k ≡ 1
    → ScanBits x (k + 1) left (idx + 1) o
    → ScanBits x k (suc left) idx o
ScanBits-later x k left idx none one_bit h = λ j p q. elim (Bool-cases (j == k)) [
  | inl e ↦ let e' : j ≡ k = ground arith in rw e' one_bit
  | inr ne ↦ h j (ground arith) (omega arith)
]
ScanBits-later x k left idx (some (k', idx')) one_bit h = record {
  from = omega arith;
  below = omega arith;
  index = omega arith;
  free = h.free;
  first = λ j p q. elim (Bool-cases (j == k)) [
    | inl e ↦ let e' : j ≡ k = ground arith in rw e' one_bit
    | inr ne ↦ h.first j (ground arith) q
  ];
}

pub scan_bits_lem : (x left k idx : ℕ) → ScanBits x k left idx (scan_bits x left k idx)
unfolding scan_bits
scan_bits_lem x zero k idx = λ j p q. absurd (omega arith)
scan_bits_lem x (suc left) k idx = elim (Bool-cases (is_free x k)) [
  | inl free ↦
      rw (free, scan_bits)
        (record {
          from = omega arith;
          below = omega arith;
          index = refl;
          free = free_of x k free;
          first = λ j p q. absurd (omega arith);
        })
  | inr taken ↦
      rw (taken, scan_bits)
        (ScanBits-later x k left idx _ (taken_of x k taken)
          (scan_bits_lem x left (k + 1) (idx + 1)))
]

-- The first free item of a bitmap, from the byte `byte_idx` on, `left` bytes.
pub record FreeItem (b : Bytes) (byte_idx left byte_idx' k i : ℕ) : Type 0 where
  pub byte_at : byte_idx' ≡ i / 8
  pub bit_at : k ≡ i % 8
  pub from : 8 * byte_idx ≤ i
  pub below : i < 8 * (byte_idx + left)
  pub free : used b i ≡ 0
  pub first : (j : ℕ) → 8 * byte_idx ≤ j → j < i → used b j ≡ 1

abbrev pub ItemsTaken : Bytes → ℕ → ℕ → Type 0
ItemsTaken b byte_idx left = (j : ℕ) → 8 * byte_idx ≤ j → j < 8 * (byte_idx + left) → used b j ≡ 1

abbrev pub ScanBytes : Bytes → ℕ → ℕ → Option (ℕ × ℕ × ℕ) → Type 0
ScanBytes b byte_idx left none = ItemsTaken b byte_idx left
ScanBytes b byte_idx left (some (byte_idx', k, i)) = FreeItem b byte_idx left byte_idx' k i

-- The bits of one byte, as items.
items_of_byte : (b : Bytes) (n j : ℕ) → 8 * n ≤ j → j < 8 * n + 8 → used b j ≡ bit (b n) (j % 8)
items_of_byte b n j p q = let e : j / 8 ≡ n = omega arith in rw e

ScanBytes-later :
    (b : Bytes) (n left : ℕ) (o : Option (ℕ × ℕ × ℕ))
    → BitsTaken (b n) 0 8
    → ScanBytes b (n + 1) left o
    → ScanBytes b n (suc left) o
ScanBytes-later b n left none full h = λ j p q. elim (Bool-cases (ltb j (8 * n + 8))) [
  | inl here ↦ items_of_byte b n j p (ltb→lt _ _ here) ∙ full (j % 8) (omega arith) (omega arith)
  | inr later ↦ let le = ltb→le j (8 * n + 8) later in h j (omega arith) (omega arith)
]
ScanBytes-later b n left (some (n', k, i)) full h = record {
  byte_at = h.byte_at;
  bit_at = h.bit_at;
  from = omega arith;
  below = omega arith;
  free = h.free;
  first = λ j p q. elim (Bool-cases (ltb j (8 * n + 8))) [
    | inl here ↦ items_of_byte b n j p (ltb→lt _ _ here) ∙ full (j % 8) (omega arith) (omega arith)
    | inr later ↦ let le = ltb→le j (8 * n + 8) later in h.first j (omega arith) q
  ];
}

scan_bytes_here :
    (b : Bytes) (n left k i : ℕ) → FreeBit (b n) 0 8 (8 * n) k i → FreeItem b n (suc left) n k i
scan_bytes_here b n left k i h = record {
  byte_at = omega arith;
  bit_at = omega arith;
  from = omega arith;
  below = omega arith;
  free =
      let e : i % 8 ≡ k = omega arith in
      items_of_byte b n i (omega arith) (omega arith) ∙ ap (bit (b n)) e ∙ h.free;
  first =
      λ j p q. items_of_byte b n j p (omega arith) ∙ h.first (j % 8) (omega arith) (omega arith);
}

-- The scan of a bitmap from a byte on, with the index of that byte's first item, finds the first
-- free item, and finds none only if all are taken.
pub scan_bytes_lem :
    (b : Bytes) (left n idx : ℕ) → idx ≡ 8 * n → ScanBytes b n left (scan_bytes b left n idx)
unfolding scan_bytes
scan_bytes_lem b zero n idx e = λ j p q. absurd (omega arith)
scan_bytes_lem b (suc left) n idx e =
    go (scan_bits (b n) 8 0 idx) refl (scan_bits_lem (b n) 8 0 idx)
      (scan_bytes_lem b left (n + 1) (idx + 8) (omega arith))
  where
    go :
        (o : Option (ℕ × ℕ))
        → scan_bits (b n) 8 0 idx ≡ o
        → ScanBits (b n) 0 8 idx o
        → ScanBytes b (n + 1) left (scan_bytes b left (n + 1) (idx + 8))
        → ScanBytes b n (suc left) (scan_bytes b (suc left) n idx)
    go none eq full rest = rw (eq, scan_bytes) (ScanBytes-later b n left _ full rest)
    go (some (k, i)) eq found rest =
        rw (eq, scan_bytes)
          (scan_bytes_here b n left k i (subst (λ x. FreeBit (b n) 0 8 x k i) e found))

-- The first group with a free item.
abbrev pub FindGroup : Kind → FsInfo → ℕ → ℕ → Option ℕ → Type 0
FindGroup k fs left g none = (j : ℕ) → g ≤ j → j < g + left → unalloc_cnt k fs j ≡ 0
FindGroup k fs left g (some g') =
    (g ≤ g')
    × (g' < g + left)
    × (0 < unalloc_cnt k fs g')
    × ((j : ℕ) → g ≤ j → j < g' → unalloc_cnt k fs j ≡ 0)

FindGroup-later :
    (k : Kind) (fs : FsInfo) (left g : ℕ) (o : Option ℕ)
    → unalloc_cnt k fs g ≡ 0
    → FindGroup k fs left (g + 1) o
    → FindGroup k fs (suc left) g o
FindGroup-later k fs left g none e h = λ j p q. elim (Bool-cases (j == g)) [
  | inl eq ↦ let e' : j ≡ g = ground arith in rw e' e
  | inr ne ↦ h j (ground arith) (omega arith)
]
FindGroup-later k fs left g (some g') e h = (
  omega arith,
  omega arith,
  h.2,
  λ j p q. elim (Bool-cases (j == g)) [
    | inl eq ↦ let e' : j ≡ g = ground arith in rw e' e
    | inr ne ↦ h.3 j (ground arith) q
  ],
)

pub find_group_lem :
    (k : Kind) (fs : FsInfo) (left g : ℕ) → FindGroup k fs left g (find_group k fs left g)
unfolding find_group
find_group_lem k fs zero g = λ j p q. absurd (omega arith)
find_group_lem k fs (suc left) g = elim (Bool-cases (ltb 0 (unalloc_cnt k fs g))) [
  | inl some_left ↦
      rw (some_left, find_group)
        (omega arith, omega arith, ltb→lt _ _ some_left, λ j p q. absurd (omega arith))
  | inr none_left ↦
      let e : unalloc_cnt k fs g ≡ 0 = ground arith in
      rw (none_left, find_group)
        (FindGroup-later k fs left g _ e (find_group_lem k fs left (g + 1)))
]
