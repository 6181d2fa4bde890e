-- ===== src/Screen/Draw.antt =====
-- kernel/drivers/fb/fbController.c: the cells of the text screen, and how one is drawn as pixels.
use deprecat_os.Prelude.{
  ℕ, zero, suc, ◌+◌, ◌-◌, ◌*◌, ◌/◌, ◌%◌, ◌^◌, Bool, not, ◌&&◌, List, [], ◌∷◌, ◌==◌, leb,
  if◌then◌else◌,
}
use deprecat_os.Bits.{bit}
use deprecat_os.Mem.{Memory, store32}

-- FBChar
pub record Cell : Type 0 where
  pub c : ℕ
  pub color : ℕ

-- What `fb_init` sets and nothing changes, and `font8x16`.
pub record Geometry : Type 0 where
  pub cols : ℕ
  pub rows : ℕ
  pub base : ℕ
  pub pitch : ℕ
  pub height : ℕ
  pub font : ℕ → ℕ

-- The other static variables, with the bytes of the memory that the screen shows.
pub record Screen : Type 0 where
  pub col : ℕ
  pub row : ℕ
  pub cursor_col : ℕ
  pub cursor_row : ℕ
  pub shadow : ℕ → Cell
  pub history : ℕ → Cell
  pub head : ℕ
  pub count : ℕ
  pub view_offset : ℕ
  pub scrollback_on : Bool
  pub vram : Memory

abbrev pub glyph_width : ℕ
glyph_width = 8

abbrev pub glyph_height : ℕ
glyph_height = 16

abbrev pub palette_size : ℕ
palette_size = 16

-- `palette`
abbrev pub nth_color : List ℕ → ℕ → ℕ
nth_color [] k = 0
nth_color (x ∷ xs) zero = x
nth_color (x ∷ xs) (suc k) = nth_color xs k

unfoldable pub palette : ℕ → ℕ
palette = nth_color (
    0 ∷ 170 ∷ 43520 ∷ 43690 ∷ 11141120 ∷ 11141290 ∷ 11162880 ∷ 11184810 ∷ 5592405 ∷ 5592575
    ∷ 5635925 ∷ 5636095 ∷ 16733525 ∷ 16733695 ∷ 16777045 ∷ 16777215 ∷ [])

abbrev pub black : ℕ
black = 0

abbrev pub white : ℕ
white = 15

abbrev pub blank : Cell
blank = record { c = 32; color = 0 }

-- A `for` loop: `body` for the `n` numbers from `i` on.
unfoldable pub for_loop : {A : Type 0} → ℕ → ℕ → (ℕ → A → A) → A → A
for_loop zero i body a = a
for_loop (suc n) i body a = for_loop n (i + 1) body (body i a)

-- `line[x] = v`, in the line `y` of pixels.
unfoldable pub put_pixel : Geometry → ℕ → ℕ → ℕ → Memory → Memory
unfolding store32
put_pixel g y x v m =
    store32 m (g.base + y * g.pitch + 4 * x) (v % 256) (v / 2 ^ 8 % 256) (v / 2 ^ 16 % 256)
      (v / 2 ^ 24 % 256)

-- Row `i` of the glyph of a character, as bits.
abbrev pub is_set : Geometry → ℕ → ℕ → ℕ → Bool
is_set g ch i b = not (bit (g.font (ch * glyph_height + i)) (7 - b) == 0)

-- The loops over the pixels of the cell at `r` and `c`, each written by `body` from its row and
-- column in the cell and the number of its column on the screen.
unfoldable pub cell_loop : ℕ → ℕ → (ℕ → ℕ → ℕ → ℕ → Memory → Memory) → Memory → Memory
unfolding for_loop
cell_loop r c body =
    for_loop glyph_height 0
      (λ i. for_loop glyph_width 0 (λ b. body i b (r * glyph_height + i) (c * glyph_width + b)))

unfoldable pub blit_glyph : Geometry → ℕ → ℕ → ℕ → ℕ → Memory → Memory
unfolding cell_loop put_pixel palette
blit_glyph g r c ch color m =
    if leb palette_size color
    then m
    else cell_loop r c
        (λ i b y x. put_pixel g y x (if is_set g ch i b then palette color else palette black)) m

-- `shadow[row * cols + col]`
abbrev pub cell_at : Geometry → Screen → Cell
cell_at g s = s.shadow (s.row * g.cols + s.col)

unfoldable pub draw_cursor : Geometry → Screen → Screen
unfolding cell_loop put_pixel palette
draw_cursor g s =
    let ch = (cell_at g s).c in
    let block = cell_loop s.row s.col (λ i b y x. put_pixel g y x (palette white)) s.vram in
    let letter =
      cell_loop s.row s.col
        (λ i b y x m. if is_set g ch i b then put_pixel g y x (palette black) m else m) block in
    record s { vram = if ch == 32 then block else letter; cursor_col = s.col; cursor_row = s.row }

unfoldable pub draw_char_forced : Geometry → ℕ → ℕ → Screen → Screen
unfolding blit_glyph
draw_char_forced g c color s = if leb palette_size color then s else record s {
  vram = blit_glyph g s.row s.col c color s.vram;
  shadow = λ k. if k == s.row * g.cols + s.col then record { c = c; color = color } else s.shadow k;
}

unfoldable pub draw_char : Geometry → ℕ → ℕ → Screen → Screen
unfolding draw_char_forced
draw_char g c color s =
    let curr = cell_at g s in
    if curr.c == c && curr.color == color then s else draw_char_forced g c color s

-- The cell under the cursor is drawn again.
unfoldable pub del_cursor : Geometry → Screen → Screen
unfolding draw_char_forced
del_cursor g s =
    let at = record s { col = s.cursor_col; row = s.cursor_row } in
    let curr = cell_at g at in
    record (draw_char_forced g curr.c curr.color at) { col = s.col; row = s.row }
