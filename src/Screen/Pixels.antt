-- ===== src/Screen/Pixels.antt =====
-- The pixels of a cell are bytes of the frame buffer.
use deprecat_os.Prelude.{
  ℕ, zero, suc, ◌+◌, ◌*◌, ◌≤◌, ◌<◌, ◌≡◌, subst, ◌⊎◌, inl, inr, refl, Bool, true, false, write,
  arith, leb, if◌then◌else◌, Bool-cases,
}
use native.Mathlib.Nat.{mul-le-mul_right}
use deprecat_os.Mem.{Memory, store32}
use deprecat_os.Screen.Draw.{
  Geometry, for_loop, put_pixel, cell_loop, blit_glyph, is_set, palette, black,
}

-- At least one cell, and room for all cells in the frame buffer.
pub record Fits (g : Geometry) : Type 0 where
  pub some_row : 0 < g.rows
  pub some_col : 0 < g.cols
  pub lines : g.rows * 16 ≤ g.height
  pub width : g.cols * 32 ≤ g.pitch

-- No byte outside the frame buffer has changed.
abbrev pub Outside : Geometry → Memory → Memory → Type 0
Outside g m0 m = (a : ℕ) → (a < g.base) ⊎ (g.base + g.height * g.pitch ≤ a) → m a ≡ m0 a

pub if-keeps :
    {A : Type 0} (P : A → Type 0) (t : Bool) (a b : A)
    → (t ≡ true → P a)
    → (t ≡ false → P b)
    → P (if t then a else b)
if-keeps P true a b p q = p refl
if-keeps P false a b p q = q refl

pub for_loop-counts :
    {A : Type 0} (P : ℕ → A → Type 0) (n i : ℕ) (body : ℕ → A → A) (a : A)
    → ((k : ℕ) (b : A) → i ≤ k → k < i + n → P k b → P (k + 1) (body k b))
    → P i a
    → P (i + n) (for_loop n i body a)
unfolding for_loop
for_loop-counts P zero i body a step p = subst (λ k. P k a) (omega arith) p
for_loop-counts P (suc n) i body a step p =
    subst (λ k. P k (for_loop n (i + 1) body (body i a))) (omega arith)
      (for_loop-counts P n (i + 1) body (body i a)
        (λ k b lo hi q. step k b (omega arith) (omega arith) q)
        (step i a (omega arith) (omega arith) p))

pub for_loop-keeps :
    {A : Type 0} (P : A → Type 0) (n i : ℕ) (body : ℕ → A → A) (a : A)
    → ((k : ℕ) (b : A) → i ≤ k → k < i + n → P b → P (body k b))
    → P a
    → P (for_loop n i body a)
for_loop-keeps P n i body a step p = for_loop-counts (λ k. P) n i body a step p

-- A place in a line `y` of `n` places, of `h` lines.
pub place-lt : (y h n x : ℕ) → y < h → x < n → y * n + x < h * n
place-lt y h n x p q =
    let step : (y + 1) * n ≤ h * n = mul-le-mul_right n (omega arith) in
    let wide : (y + 1) * n ≡ y * n + n = omega arith in omega (arith, step, wide)

module _ (g : Geometry) (fit : Fits g) (m0 : Memory) where
  pub put_pixel-Outside :
      (y x v : ℕ) (m : Memory)
      → y < g.height
      → 4 * x + 3 < g.pitch
      → Outside g m0 m
      → Outside g m0 (put_pixel g y x v m)
  unfolding put_pixel store32 write
  put_pixel-Outside y x v m p q o a h =
      let inside = place-lt y g.height g.pitch (4 * x + 3) p q in ground (arith, inside, o a h)

  pub cell_loop-Outside :
      (r c : ℕ) (body : ℕ → ℕ → ℕ → ℕ → Memory → Memory) (m : Memory)
      → r < g.rows
      → c < g.cols
      → ((i b y x : ℕ) (m' : Memory)
          → y < g.height
          → 4 * x + 3 < g.pitch
          → Outside g m0 m'
          → Outside g m0 (body i b y x m'))
      → Outside g m0 m
      → Outside g m0 (cell_loop r c body m)
  unfolding cell_loop
  cell_loop-Outside r c body m p q step o =
      for_loop-keeps (Outside g m0) 16 0 _ m
        (λ i m' lo hi o'.
          for_loop-keeps (Outside g m0) 8 0 _ m'
            (λ b m'' lo' hi' o''.
              step i b (r * 16 + i) (c * 8 + b) m'' (omega (arith, fit.lines))
                (omega (arith, fit.width)) o'')
            o')
        o

  pub blit_glyph-Outside :
      (r c ch color : ℕ) (m : Memory)
      → r < g.rows
      → c < g.cols
      → Outside g m0 m
      → Outside g m0 (blit_glyph g r c ch color m)
  unfolding blit_glyph
  blit_glyph-Outside r c ch color m p q o = elim (Bool-cases (leb 16 color)) [
    | inl e ↦ rw e o
    | inr e ↦ rw e (
        cell_loop-Outside r c
          (λ i b y x. put_pixel g y x (if is_set g ch i b then palette color else palette black)) m
          p q
          (λ i b y x.
            put_pixel-Outside y x (if is_set g ch i b then palette color else palette black))
          o)
  ]
