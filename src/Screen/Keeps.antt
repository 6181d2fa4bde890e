-- ===== src/Screen/Keeps.antt =====
-- What each function of kernel/drivers/fb/fbController.c keeps.
use deprecat_os.Prelude.{
  ℕ, zero, suc, ◌+◌, ◌-◌, ◌*◌, ◌≤◌, ◌<◌, Bool, not, ◌&&◌, ◌||◌, arith, ◌==◌, ltb, leb,
}
use deprecat_os.Screen.Draw.{Cell, Geometry, Screen, draw_char}
use deprecat_os.Screen.{
  viewed, scrolled_to, paint, view_repaint, snap_to_live, fb_scrollback, upd_row, upd_col, go_live,
  show_cursor, fb_draw_char_no_upd, fb_draw_char_upd, draw_string, fb_set_cursor_no_upd,
  fb_set_cursor, fb_clear_screen, fb_set_scrollback,
}
use deprecat_os.Screen.Pixels.{Fits, Outside, if-keeps, for_loop-keeps, blit_glyph-Outside}
use deprecat_os.Screen.Within.{
  Within, InGrid, draw_cursor-Within, draw_cursor-InGrid, draw_char-Within, draw_char-InGrid,
  Within-moved, del_cursor-Within, del_cursor-InGrid,
}
use deprecat_os.Screen.Safety.{scroll-Within, scroll-InGrid}

-- Within bounds, with the place of the next character in the grid.
abbrev pub Safe : Geometry → Screen → Screen → Type 0
Safe g s0 s = Within g s0 s × InGrid g s

module _ (g : Geometry) (fit : Fits g) (s0 : Screen) where
  paint-Within : (cell : ℕ → ℕ → Cell) (s : Screen) → Within g s0 s → Within g s0 (paint g cell s)
  unfolding paint
  paint-Within cell s w = record {
    cursor_row_lt = w.cursor_row_lt;
    cursor_col_lt = w.cursor_col_lt;
    head_lt = w.head_lt;
    count_le = w.count_le;
    view_le = w.view_le;
    cells = w.cells;
    lines = w.lines;
    pixels =
        for_loop-keeps (Outside g s0.vram) g.rows 0 _ s.vram
          (λ r m lo hi o.
            for_loop-keeps (Outside g s0.vram) g.cols 0 _ m
              (λ c m' lo' hi' o'.
                blit_glyph-Outside g fit s0.vram r c (cell r c).c (cell r c).color m' (omega arith)
                  (omega arith) o')
              o)
          w.pixels;
  }

  paint-InGrid : (cell : ℕ → ℕ → Cell) (s : Screen) → InGrid g s → InGrid g (paint g cell s)
  unfolding paint
  paint-InGrid cell s i = record { row_lt = i.row_lt; col_lt = i.col_lt }

  snap_to_live-Safe : (s : Screen) → Safe g s0 s → Safe g s0 (snap_to_live g s)
  unfolding snap_to_live
  snap_to_live-Safe s p =
      let live : ℕ → ℕ → Cell = λ r c. s.shadow (r * g.cols + c) in
      let i = paint-InGrid live s p.1 in
      (draw_cursor-Within g fit s0 _ i (paint-Within live s p.0), draw_cursor-InGrid g fit s0 _ i)

  at_view :
      (v : ℕ) (s : Screen) → v ≤ s.count → Safe g s0 s → Safe g s0 (record s { view_offset = v })
  at_view v s h p =
      let w = p.0 in
      (
        record {
          cursor_row_lt = w.cursor_row_lt;
          cursor_col_lt = w.cursor_col_lt;
          head_lt = w.head_lt;
          count_le = w.count_le;
          view_le = h;
          pixels = w.pixels;
          cells = w.cells;
          lines = w.lines;
        },
        record { row_lt = p.1.row_lt; col_lt = p.1.col_lt },
      )

  scrolled_to-le : (delta : ℕ) (s : Screen) → scrolled_to delta s ≤ s.count
  unfolding scrolled_to
  scrolled_to-le delta s = ground arith

  pub fb_scrollback-Safe :
      (delta : ℕ) (s : Screen) → Safe g s0 s → Safe g s0 (fb_scrollback g delta s)
  unfolding fb_scrollback view_repaint
  fb_scrollback-Safe delta s p =
      let off = scrolled_to delta s in
      let moved : Screen = record s { view_offset = off } in
      let q = at_view off s (scrolled_to-le delta s) p in
      if-keeps (Safe g s0) (not s.scrollback_on || off == s.view_offset) _ _ (λ e. p)
        (λ e.
          if-keeps (Safe g s0) (off == 0) _ _ (λ e'. snap_to_live-Safe moved q)
            (λ e'.
              (paint-Within (viewed g moved) moved q.0, paint-InGrid (viewed g moved) moved q.1)))

  upd_row-Safe : (s : Screen) → Within g s0 s → s.col < g.cols → Safe g s0 (upd_row g s)
  unfolding upd_row
  upd_row-Safe s w c =
      let w' = Within-moved g fit s0 (s.row + 1) s.col s w in
      if-keeps (Safe g s0) (ltb (s.row + 1) g.rows) _ _
        (λ e. (w', record { row_lt = ground (arith, e); col_lt = c }))
        (λ e. (scroll-Within g fit s0 _ w', scroll-InGrid g fit s0 _))

  upd_col-Safe : (s : Screen) → Safe g s0 s → Safe g s0 (upd_col g s)
  unfolding upd_col
  upd_col-Safe s p =
      if-keeps (Safe g s0) (ltb (s.col + 1) g.cols) _ _
        (λ e. (
          Within-moved g fit s0 s.row (s.col + 1) s p.0,
          record { row_lt = p.1.row_lt; col_lt = ground (arith, e) },
        ))
        (λ e. upd_row-Safe _ (Within-moved g fit s0 s.row 0 s p.0) fit.some_col)

  go_live-Safe : (s : Screen) → Safe g s0 s → Safe g s0 (go_live g s)
  unfolding go_live
  go_live-Safe s p =
      if-keeps (Safe g s0) (s.view_offset == 0) _ _ (λ e. p)
        (λ e. snap_to_live-Safe _ (at_view 0 s (omega arith) p))

  show_cursor-Safe : (s : Screen) → Safe g s0 s → Safe g s0 (show_cursor g s)
  unfolding show_cursor
  show_cursor-Safe s p =
      let i = del_cursor-InGrid g fit s0 s p.1 in
      (
        draw_cursor-Within g fit s0 _ i (del_cursor-Within g fit s0 s p.0),
        draw_cursor-InGrid g fit s0 _ i,
      )

  draw_char-Safe : (c color : ℕ) (s : Screen) → Safe g s0 s → Safe g s0 (draw_char g c color s)
  draw_char-Safe c color s p =
      (draw_char-Within g fit s0 c color s p.1 p.0, draw_char-InGrid g fit s0 c color s p.1)

  pub fb_draw_char_no_upd-Safe :
      (c color : ℕ) (s : Screen) → Safe g s0 s → Safe g s0 (fb_draw_char_no_upd g c color s)
  unfolding fb_draw_char_no_upd
  fb_draw_char_no_upd-Safe c color s p =
      let live = go_live g s in
      let q = go_live-Safe s p in
      if-keeps (Safe g s0) (not (c == 8) && not (c == 10)) _ _
        (λ e. upd_col-Safe _ (draw_char-Safe c color live q))
        (λ e.
          if-keeps (Safe g s0) (not (c == 10)) _ _
            (λ e'.
              if-keeps (Safe g s0) (ltb 0 live.col) _ _
                (λ e''. draw_char-Safe 32 0 _ (
                  Within-moved g fit s0 live.row (live.col - 1) live q.0,
                  record { row_lt = q.1.row_lt; col_lt = omega (arith, q.1.col_lt) },
                ))
                (λ e''. q))
            (λ e'.
              let down = upd_row-Safe live q.0 q.1.col_lt in
              (
                Within-moved g fit s0 _ 0 _ down.0,
                record { row_lt = down.1.row_lt; col_lt = fit.some_col },
              )))

  pub fb_draw_char_upd-Safe :
      (c color : ℕ) (s : Screen) → Safe g s0 s → Safe g s0 (fb_draw_char_upd g c color s)
  unfolding fb_draw_char_upd
  fb_draw_char_upd-Safe c color s p = show_cursor-Safe _ (fb_draw_char_no_upd-Safe c color s p)

  pub draw_string-Safe :
      (draw : ℕ → Screen → Screen)
      → ((c : ℕ) (s : Screen) → Safe g s0 s → Safe g s0 (draw c s))
      → (fuel : ℕ) (str : ℕ → ℕ) (i : ℕ) (s : Screen) → Safe g s0 s
      → Safe g s0 (draw_string draw fuel str i s)
  unfolding draw_string
  draw_string-Safe draw step zero str i s p = p
  draw_string-Safe draw step (suc fuel) str i s p =
      if-keeps (Safe g s0) (str i == 0) _ _ (λ e. p)
        (λ e. draw_string-Safe draw step fuel str (i + 1) _ (step (str i) s p))

  pub fb_set_cursor_no_upd-Safe :
      (r c : ℕ) (s : Screen) → Safe g s0 s → Safe g s0 (fb_set_cursor_no_upd g r c s).1
  unfolding fb_set_cursor_no_upd
  fb_set_cursor_no_upd-Safe r c s p =
      let q = go_live-Safe s p in
      if-keeps (λ (t : Bool × Screen). Safe g s0 t.1) (leb g.rows r || leb g.cols c) _ _ (λ e. q)
        (λ e. (
          Within-moved g fit s0 r c _ q.0,
          record { row_lt = ground (arith, e); col_lt = ground (arith, e) },
        ))

  pub fb_set_cursor-Safe :
      (r c : ℕ) (s : Screen) → Safe g s0 s → Safe g s0 (fb_set_cursor g r c s).1
  unfolding fb_set_cursor
  fb_set_cursor-Safe r c s p =
      let q = fb_set_cursor_no_upd-Safe r c s p in
      if-keeps (λ (t : Bool × Screen). Safe g s0 t.1) (fb_set_cursor_no_upd g r c s).0 _ _
        (λ e. show_cursor-Safe _ q) (λ e. q)

  pub fb_clear_screen-Safe : (s : Screen) → Safe g s0 s → Safe g s0 (fb_clear_screen g s)
  unfolding fb_clear_screen
  fb_clear_screen-Safe s p =
      let cleared =
        for_loop-keeps (Safe g s0) g.rows 0 _ (go_live g s)
          (λ r t lo hi q.
            for_loop-keeps (Safe g s0) g.cols 0 _ t
              (λ c t' lo' hi' q'. draw_char-Safe 32 0 _ (
                Within-moved g fit s0 r c t' q'.0,
                record { row_lt = omega arith; col_lt = omega arith },
              ))
              q)
          (go_live-Safe s p) in
      show_cursor-Safe _ (
        Within-moved g fit s0 0 0 _ cleared.0,
        record { row_lt = fit.some_row; col_lt = fit.some_col },
      )

  pub fb_set_scrollback-Safe :
      (b : Bool) (s : Screen) → Safe g s0 s → Safe g s0 (fb_set_scrollback b s)
  unfolding fb_set_scrollback
  fb_set_scrollback-Safe b s p =
      let w = p.0 in
      (
        record {
          cursor_row_lt = w.cursor_row_lt;
          cursor_col_lt = w.cursor_col_lt;
          head_lt = w.head_lt;
          count_le = w.count_le;
          view_le = w.view_le;
          pixels = w.pixels;
          cells = w.cells;
          lines = w.lines;
        },
        record { row_lt = p.1.row_lt; col_lt = p.1.col_lt },
      )
