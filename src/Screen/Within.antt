-- ===== src/Screen/Within.antt =====
-- What a drawn cell leaves alone.
use deprecat_os.Prelude.{
  ℕ, ◌+◌, ◌*◌, ◌≤◌, ◌<◌, ◌≡◌, inl, inr, refl, false, ◌&&◌, arith, ◌==◌, leb, if◌then◌else◌,
  Bool-cases,
}
use deprecat_os.Screen.Draw.{
  Geometry, Screen, put_pixel, draw_cursor, draw_char_forced, draw_char, del_cursor, is_set,
  palette, black, white, cell_at,
}
use deprecat_os.Screen.Pixels.{
  Fits, Outside, if-keeps, place-lt, put_pixel-Outside, cell_loop-Outside, blit_glyph-Outside,
}

-- The state is within bounds, and nothing has changed outside the cells, the history and the frame
-- buffer; the cursor that is shown is in the grid.
pub record Within (g : Geometry) (s0 s : Screen) : Type 0 where
  pub cursor_row_lt : s.cursor_row < g.rows
  pub cursor_col_lt : s.cursor_col < g.cols
  pub head_lt : s.head < 256
  pub count_le : s.count ≤ 256
  pub view_le : s.view_offset ≤ s.count
  pub pixels : Outside g s0.vram s.vram
  pub cells : (k : ℕ) → g.rows * g.cols ≤ k → s.shadow k ≡ s0.shadow k
  pub lines : (k : ℕ) → 256 * g.cols ≤ k → s.history k ≡ s0.history k

-- Where the next character goes is in the grid.
pub record InGrid (g : Geometry) (s : Screen) : Type 0 where
  pub row_lt : s.row < g.rows
  pub col_lt : s.col < g.cols

module _ (g : Geometry) (fit : Fits g) (s0 : Screen) where
  pub draw_cursor-Within : (s : Screen) → InGrid g s → Within g s0 s → Within g s0 (draw_cursor g s)
  unfolding draw_cursor
  draw_cursor-Within s i w =
      let block =
        cell_loop-Outside g fit s0.vram s.row s.col (λ i b y x. put_pixel g y x (palette white))
          s.vram i.row_lt i.col_lt (λ i b y x. put_pixel-Outside g fit s0.vram y x (palette white))
          w.pixels in
      let letter =
        cell_loop-Outside g fit s0.vram s.row s.col
          (λ i b y x m.
            if is_set g (cell_at g s).c i b then put_pixel g y x (palette black) m else m)
          _ i.row_lt i.col_lt
          (λ i b y x m' p q o. elim (Bool-cases (is_set g (cell_at g s).c i b)) [
            | inl e ↦ rw e (put_pixel-Outside g fit s0.vram y x (palette black) m' p q o)
            | inr e ↦ rw e o
          ])
          block in
      record {
        cursor_row_lt = i.row_lt;
        cursor_col_lt = i.col_lt;
        head_lt = w.head_lt;
        count_le = w.count_le;
        view_le = w.view_le;
        cells = w.cells;
        lines = w.lines;
        pixels = elim (Bool-cases ((cell_at g s).c == 32)) [
          | inl e ↦ rw e block
          | inr e ↦ rw e letter
        ];
      }

  pub draw_char_forced-Within :
      (c color : ℕ) (s : Screen)
      → InGrid g s
      → Within g s0 s
      → Within g s0 (draw_char_forced g c color s)
  unfolding draw_char_forced
  draw_char_forced-Within c color s i w =
      if-keeps (Within g s0) (leb 16 color) _ _ (λ e. w)
        (λ e. record {
          cursor_row_lt = w.cursor_row_lt;
          cursor_col_lt = w.cursor_col_lt;
          head_lt = w.head_lt;
          count_le = w.count_le;
          view_le = w.view_le;
          lines = w.lines;
          pixels =
              blit_glyph-Outside g fit s0.vram s.row s.col c color s.vram i.row_lt i.col_lt
                w.pixels;
          cells = λ k h.
              let inside = place-lt s.row g.rows g.cols s.col i.row_lt i.col_lt in
              let other : (k == s.row * g.cols + s.col) ≡ false = ground (arith, inside, h) in
              rw other (w.cells k h);
        })

  draw_char_forced-place :
      (c color : ℕ) (s : Screen)
      → ((draw_char_forced g c color s).row ≡ s.row) × ((draw_char_forced g c color s).col ≡ s.col)
  unfolding draw_char_forced
  draw_char_forced-place c color s =
      if-keeps (λ (t : Screen). (t.row ≡ s.row) × (t.col ≡ s.col)) (leb 16 color) _ _
        (λ e. (refl, refl)) (λ e. (refl, refl))

  pub draw_char-Within :
      (c color : ℕ) (s : Screen) → InGrid g s → Within g s0 s → Within g s0 (draw_char g c color s)
  unfolding draw_char
  draw_char-Within c color s i w =
      if-keeps (Within g s0) ((cell_at g s).c == c && (cell_at g s).color == color) _ _ (λ e. w)
        (λ e. draw_char_forced-Within c color s i w)

  pub draw_char-InGrid : (c color : ℕ) (s : Screen) → InGrid g s → InGrid g (draw_char g c color s)
  unfolding draw_char
  draw_char-InGrid c color s i =
      let p = draw_char_forced-place c color s in
      if-keeps (InGrid g) ((cell_at g s).c == c && (cell_at g s).color == color) _ _ (λ e. i)
        (λ e. record {
          row_lt = omega (arith, p.0, i.row_lt);
          col_lt = omega (arith, p.1, i.col_lt);
        })

  -- Only the place of the next character is moved.
  pub Within-moved :
      (row col : ℕ) (s : Screen) → Within g s0 s → Within g s0 (record s { row = row; col = col })
  Within-moved row col s w = record {
    cursor_row_lt = w.cursor_row_lt;
    cursor_col_lt = w.cursor_col_lt;
    head_lt = w.head_lt;
    count_le = w.count_le;
    view_le = w.view_le;
    pixels = w.pixels;
    cells = w.cells;
    lines = w.lines;
  }

  pub del_cursor-Within : (s : Screen) → Within g s0 s → Within g s0 (del_cursor g s)
  unfolding del_cursor
  del_cursor-Within s w =
      let at = record s { col = s.cursor_col; row = s.cursor_row } in
      Within-moved s.row s.col _ (
        draw_char_forced-Within (cell_at g at).c (cell_at g at).color at
          (record { row_lt = w.cursor_row_lt; col_lt = w.cursor_col_lt })
          (Within-moved s.cursor_row s.cursor_col s w))

  pub draw_cursor-InGrid : (s : Screen) → InGrid g s → InGrid g (draw_cursor g s)
  unfolding draw_cursor
  draw_cursor-InGrid s i = record { row_lt = i.row_lt; col_lt = i.col_lt }

  pub del_cursor-InGrid : (s : Screen) → InGrid g s → InGrid g (del_cursor g s)
  unfolding del_cursor
  del_cursor-InGrid s i = record { row_lt = i.row_lt; col_lt = i.col_lt }
