-- ===== src/Screen/Safety.antt =====
-- Whatever is drawn, the screen stays within its cells, its history and its frame buffer.
use deprecat_os.Prelude.{
  ℕ, ◌+◌, ◌-◌, ◌*◌, ◌≤◌, ◌<◌, ◌≡◌, ◌∙◌, refl, false, arith, ◌==◌, if◌then◌else◌,
}
use native.Mathlib.Nat.{mul-le-mul_right}
use deprecat_os.Mem.{Memory, memmove, memset}
use deprecat_os.Mem.Laws.{memmove_lem, memset_lem}
use deprecat_os.Screen.Draw.{Cell, Geometry, Screen, blank, del_cursor}
use deprecat_os.Screen.{save_line, move_line, move_lines, shift_cells, scroll}
use deprecat_os.Screen.Pixels.{Fits, Outside, for_loop-keeps, place-lt}
use deprecat_os.Screen.Within.{
  Within, InGrid, draw_cursor-Within, draw_cursor-InGrid, del_cursor-Within,
}

module _ (g : Geometry) (fit : Fits g) where
  shift_cells-high :
      (shadow : ℕ → Cell) (k : ℕ) → g.rows * g.cols ≤ k → shift_cells g shadow k ≡ shadow k
  unfolding shift_cells move_lines move_line
  shift_cells-high shadow k h =
      let Same : (ℕ → Cell) → Type 0 = λ f. f k ≡ shadow k in
      let put : (r c : ℕ) (x : Cell) (f : ℕ → Cell)
          → r < g.rows
          → c < g.cols
          → Same f
          → (if k == r * g.cols + c then x else f k) ≡ shadow k =
        λ r c x f p q o.
          let inside = place-lt r g.rows g.cols c p q in
          let other : (k == r * g.cols + c) ≡ false = ground (arith, inside, h) in rw other o in
      for_loop-keeps Same g.cols 0 _ _
        (λ c f lo hi o. put (g.rows - 1) c blank f (omega (arith, fit.some_row)) (omega arith) o)
        (for_loop-keeps Same (g.rows - 1) 1 _ shadow
          (λ r f lo hi o.
            for_loop-keeps Same g.cols 0 _ f
              (λ c f' lo' hi' o'.
                put (r - 1) c (f' (r * g.cols + c)) f' (omega arith) (omega arith) o')
              o)
          refl)

  -- The lines of pixels move up and the last one is cleared.
  scrolled-Outside :
      (m0 m : Memory)
      → Outside g m0 m
      → Outside g m0 (
          memset
            (g.base + (g.rows - 1) * 16 * g.pitch)
            0
            (16 * g.pitch)
            (memmove g.base (g.base + 16 * g.pitch) ((g.rows - 1) * 16 * g.pitch) m))
  scrolled-Outside m0 m o a h =
      let rest = (g.rows - 1) * 16 * g.pitch in
      let line = 16 * g.pitch in
      let room : ((g.rows - 1) * 16 + 16) * g.pitch ≤ g.height * g.pitch =
        mul-le-mul_right g.pitch (omega (arith, fit.lines, fit.some_row)) in
      let sum : ((g.rows - 1) * 16 + 16) * g.pitch ≡ rest + line = omega arith in
      let within : rest + line ≤ g.height * g.pitch = omega (arith, room, sum) in
      let moved = memmove g.base (g.base + line) rest m in
      let cleared = memset_lem line (g.base + rest) 0 moved a in
      let copied = memmove_lem rest g.base (g.base + line) m a in
      ground (arith, cleared, copied, within, o a h)

  module _ (s0 : Screen) where
    save_line-Within : (s : Screen) → Within g s0 s → Within g s0 (save_line g s)
    unfolding save_line
    save_line-Within s w =
        let last : s.head * g.cols + g.cols ≤ 256 * g.cols =
          let upto : (s.head + 1) * g.cols ≤ 256 * g.cols =
            mul-le-mul_right g.cols (omega (arith, w.head_lt)) in
          omega (arith, upto) in
        record {
          cursor_row_lt = w.cursor_row_lt;
          cursor_col_lt = w.cursor_col_lt;
          head_lt = omega arith;
          count_le = ground (arith, w.count_le);
          view_le = ground (arith, w.view_le);
          pixels = w.pixels;
          cells = w.cells;
          lines = λ k h. ground (arith, last, w.lines k h);
        }

    pub scroll-Within : (s : Screen) → Within g s0 s → Within g s0 (scroll g s)
    unfolding scroll
    scroll-Within s w =
        let v = save_line-Within (del_cursor g s) (del_cursor-Within g fit s0 s w) in
        draw_cursor-Within g fit s0 _
          (record { row_lt = omega (arith, fit.some_row); col_lt = fit.some_col })
          (record {
            cursor_row_lt = v.cursor_row_lt;
            cursor_col_lt = v.cursor_col_lt;
            head_lt = v.head_lt;
            count_le = v.count_le;
            view_le = v.view_le;
            lines = v.lines;
            pixels = scrolled-Outside s0.vram _ v.pixels;
            cells = λ k h. shift_cells-high _ k h ∙ v.cells k h;
          })

    pub scroll-InGrid : (s : Screen) → InGrid g (scroll g s)
    unfolding scroll
    scroll-InGrid s =
        draw_cursor-InGrid g fit s0 _
          (record { row_lt = omega (arith, fit.some_row); col_lt = fit.some_col })
