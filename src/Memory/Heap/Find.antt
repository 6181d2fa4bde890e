-- ===== src/Memory/Heap/Find.antt =====
-- The search of `kmalloc` for a block that fits, and what it does with the block.
use deprecat_os.Prelude.{
  ℕ, zero, suc, ◌+◌, ◌-◌, ◌%◌, ◌^◌, ◌≤◌, ◌<◌, ◌≡◌, ap, refl, true, false, ◌&&◌, List, [], ◌∷◌, ◌++◌,
  length, arith, Bool-cases, inl, inr, ◌⊎◌, ltb, leb, if◌then◌else◌, write,
}
use deprecat_os.Memory.Heap.{Fit, fits, none_fits, free_at, find_fit, put_header, take_block}
use deprecat_os.Memory.Heap.Blocks.{Block, Tiled, used, end_at, Tiled-end, end_at-le}

-- A free block of the size at `at`, among the others.
pub record Found (wanted c : ℕ) (bs : List Block) (at : ℕ) : Type 0 where
  pub xs : List Block
  pub b : Block
  pub ys : List Block
  pub split : bs ≡ xs ++ (b ∷ ys)
  pub place : at ≡ end_at c xs
  pub free : b.free ≡ true
  pub enough : wanted ≤ b.size

-- The block at `h` is the last.
pub record LastOf (c : ℕ) (bs : List Block) (h : ℕ) : Type 0 where
  pub xs : List Block
  pub b : Block
  pub split : bs ≡ xs ++ (b ∷ [])
  pub place : h ≡ end_at c xs

-- No free block is as large.
unfoldable pub NoneFit : ℕ → List Block → Type 0
NoneFit wanted [] = Unit {0}
NoneFit wanted (b ∷ bs) = (b.free ≡ true → b.size < wanted) × NoneFit wanted bs

unfoldable pub FindFit : ℕ → ℕ → List Block → ℕ → Fit → Type 0
FindFit wanted c bs h0 (fits at) = Found wanted c bs at
FindFit wanted c [] h0 (none_fits h) = h ≡ h0
FindFit wanted c (b ∷ bs) h0 (none_fits h) = NoneFit wanted (b ∷ bs) × LastOf c (b ∷ bs) h

FindFit-cons :
    (wanted c : ℕ) (b : Block) (bs : List Block) (h0 : ℕ) (r : Fit)
    → (b.free ≡ true → b.size < wanted)
    → FindFit wanted (c + 8 + b.size) bs c r
    → FindFit wanted c (b ∷ bs) h0 r
unfolding FindFit NoneFit end_at
FindFit-cons wanted c b bs h0 (fits at) less f = record {
  xs = b ∷ f.xs;
  b = f.b;
  ys = f.ys;
  split = ap (λ zs. b ∷ zs) f.split;
  place = f.place;
  free = f.free;
  enough = f.enough;
}
FindFit-cons wanted c b [] h0 (none_fits h) less f =
    ((less, tt), record { xs = []; b = b; split = refl; place = f })
FindFit-cons wanted c b (y ∷ ys) h0 (none_fits h) less f = (
  (less, f.0),
  record { xs = b ∷ f.1.xs; b = f.1.b; split = ap (λ zs. b ∷ zs) f.1.split; place = f.1.place },
)

pub find_fit_lem :
    (fuel : ℕ) (w : ℕ → ℕ) (e wanted c h0 : ℕ) (bs : List Block)
    → Tiled w c bs e
    → length bs ≤ fuel
    → e < 2 ^ 32
    → FindFit wanted c bs h0 (find_fit fuel w e wanted c h0)
unfolding find_fit Tiled FindFit end_at
find_fit_lem zero w e wanted c h0 [] t enough small = refl
find_fit_lem zero w e wanted c h0 (b ∷ bs) t enough small = absurd (omega (arith, enough))
find_fit_lem (suc fuel) w e wanted c h0 [] t enough small =
    let stop : ltb c e ≡ false = ground (arith, t) in rw stop refl
find_fit_lem (suc fuel) w e wanted c h0 (b ∷ bs) t enough small =
    let end = Tiled-end w (c + 8 + b.size) bs e t.3 in
    let within = end_at-le (c + 8 + b.size) bs in
    let inside : ltb c e ≡ true = ground arith in
    let next : (c + (8 + w c)) % 2 ^ 32 ≡ c + 8 + b.size = omega (arith, t.0) in
    elim (Bool-cases (b.free && leb wanted b.size)) [
      | inl g ↦
          let test : free_at w c && leb wanted (w c) ≡ true = ground (arith, t.0, t.1, g) in
          rw (inside, test)
            (record {
              xs = [];
              b = b;
              ys = bs;
              split = refl;
              place = refl;
              free = ground arith;
              enough = ground arith;
            })
      | inr g ↦
          let test : free_at w c && leb wanted (w c) ≡ false = ground (arith, t.0, t.1, g) in
          rw (inside, test, next)
            (FindFit-cons wanted c b bs h0 _ (λ f. ground arith)
              (find_fit_lem fuel w e wanted (c + 8 + b.size) c bs t.3 (omega (arith, enough))
                small))
    ]

-- What becomes of a free block of which `wanted` bytes are taken.
unfoldable pub taken_block : ℕ → Block → Block
taken_block wanted b = record {
  size = if ltb 8 (b.size - wanted) then wanted else b.size;
  free = false;
}

unfoldable pub leftover : ℕ → Block → List Block
leftover wanted b =
    if ltb 8 (b.size - wanted) then record { size = b.size - wanted - 8; free = true } ∷ [] else []

pub Tiled-taken :
    (w : ℕ → ℕ) (h wanted : ℕ) (b : Block)
    → w h ≡ b.size
    → b.size % 4 ≡ 0
    → wanted % 4 ≡ 0
    → wanted ≤ b.size
    → Tiled (take_block h wanted w) h (taken_block wanted b ∷ leftover wanted b) (h + 8 + b.size)
unfolding Tiled taken_block leftover take_block put_header write
Tiled-taken w h wanted b size whole even enough = elim (Bool-cases (ltb 8 (b.size - wanted))) [
  | inl g ↦
      let g' : ltb 8 (w h - wanted) ≡ true = ground (arith, size, g) in
      rw (g, g')
        (
          ground arith,
          ground arith,
          even,
          (ground (arith, size), ground arith, omega arith, ground arith),
        )
  | inr g ↦
      let g' : ltb 8 (w h - wanted) ≡ false = ground (arith, size, g) in
      rw (g, g') (ground (arith, size), ground arith, whole, refl)
]

pub take_block-same :
    (w : ℕ → ℕ) (h wanted : ℕ) (b : Block) (k : ℕ)
    → w h ≡ b.size
    → wanted ≤ b.size
    → (k < h) ⊎ (h + 8 + b.size ≤ k)
    → take_block h wanted w k ≡ w k
unfolding take_block put_header write
take_block-same w h wanted b k size enough out = elim (Bool-cases (ltb 8 (w h - wanted))) [
  | inl g ↦ rw g (ground (arith, size, out))
  | inr g ↦ rw g (ground (arith, size, out))
]

pub used-leftover :
    (h wanted : ℕ) (b : Block) (ys : List Block)
    → wanted ≤ b.size
    → used (h + 8 + (taken_block wanted b).size) (leftover wanted b ++ ys)
      ≡ used (h + 8 + b.size) ys
unfolding taken_block leftover used
used-leftover h wanted b ys enough = elim (Bool-cases (ltb 8 (b.size - wanted))) [
  | inl g ↦
      let step : h + 8 + wanted + 8 + (b.size - wanted - 8) ≡ h + 8 + b.size = ground arith in
      rw g (ap (λ k. used k ys) step)
  | inr g ↦ rw g refl
]

pub taken-enough : (wanted : ℕ) (b : Block) → wanted ≤ b.size → wanted ≤ (taken_block wanted b).size
unfolding taken_block
taken-enough wanted b h = ground arith

pub taken-in_use : (wanted : ℕ) (b : Block) → (taken_block wanted b).free ≡ false
unfolding taken_block
taken-in_use wanted b = refl
