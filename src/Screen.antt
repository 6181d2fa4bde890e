-- ===== src/Screen.antt =====
-- kernel/drivers/fb/fbController.c: the text screen with its cursor, and the lines that have left it.
-- The frame buffer is the bytes of the memory from `base` on, which ends below 4 GiB.
pub mod Draw
pub mod Pixels
pub mod Within
pub mod Safety
pub mod Keeps
pub mod Calls
pub mod Scrolled
pub mod Init
mod Tests
use deprecat_os.Prelude.{
  ℕ, zero, suc, ◌+◌, ◌-◌, ◌*◌, ◌/◌, ◌%◌, ◌^◌, Bool, true, false, not, ◌&&◌, ◌||◌, ◌==◌, ltb, leb,
  if◌then◌else◌,
}
use deprecat_os.Mem.{memmove, memset}
use deprecat_os.Screen.Draw.{
  Cell, Geometry, Screen, glyph_height, blank, for_loop, blit_glyph, draw_cursor, draw_char,
  del_cursor,
}

abbrev pub history_lines : ℕ
history_lines = 256

-- The first line goes to the history, in the place `head`.
unfoldable pub save_line : Geometry → Screen → Screen
save_line g s = record s {
  history = λ k.
      if leb (s.head * g.cols) k && ltb k (s.head * g.cols + g.cols)
      then s.shadow (k - s.head * g.cols)
      else s.history k;
  head = (s.head + 1) % history_lines;
  count = if ltb s.count history_lines then s.count + 1 else s.count;
}

abbrev pub put_cell : ℕ → Cell → (ℕ → Cell) → ℕ → Cell
put_cell at x f k = if k == at then x else f k

-- The loops that move the lines of the shadow up.
unfoldable pub move_line : Geometry → ℕ → (ℕ → Cell) → ℕ → Cell
unfolding for_loop
move_line g r = for_loop g.cols 0 (λ c f. put_cell ((r - 1) * g.cols + c) (f (r * g.cols + c)) f)

unfoldable pub move_lines : Geometry → (ℕ → Cell) → ℕ → Cell
unfolding move_line
move_lines g = for_loop (g.rows - 1) 1 (move_line g)

-- They move up, and the last line is cleared.
unfoldable pub shift_cells : Geometry → (ℕ → Cell) → ℕ → Cell
unfolding move_lines
shift_cells g shadow =
    for_loop g.cols 0 (λ c. put_cell ((g.rows - 1) * g.cols + c) blank) (move_lines g shadow)

unfoldable pub scroll : Geometry → Screen → Screen
unfolding save_line shift_cells memmove memset
scroll g s =
    let saved = save_line g (del_cursor g s) in
    let line = glyph_height * g.pitch in
    let rest = (g.rows - 1) * glyph_height * g.pitch in
    draw_cursor g (record saved {
      shadow = shift_cells g saved.shadow;
      row = g.rows - 1;
      col = 0;
      vram = memset (g.base + rest) 0 line (memmove g.base (g.base + line) rest saved.vram);
    })

-- The cell at `r` and `c` as the view shows it, `logical` lines behind the start of the history.
unfoldable pub viewed : Geometry → Screen → ℕ → ℕ → Cell
viewed g s r c =
    let logical = s.count + r - s.view_offset in
    if ltb logical s.count
    then s.history ((s.head + logical + history_lines - s.count) % history_lines * g.cols + c)
    else s.shadow ((logical - s.count) * g.cols + c)

-- All cells drawn.
unfoldable pub paint : Geometry → (ℕ → ℕ → Cell) → Screen → Screen
unfolding for_loop blit_glyph
paint g cell s = record s {
  vram =
      for_loop g.rows 0
        (λ r. for_loop g.cols 0 (λ c. blit_glyph g r c (cell r c).c (cell r c).color)) s.vram;
}

unfoldable pub view_repaint : Geometry → Screen → Screen
unfolding paint viewed
view_repaint g s = paint g (viewed g s) s

unfoldable pub snap_to_live : Geometry → Screen → Screen
unfolding paint draw_cursor
snap_to_live g s = draw_cursor g (paint g (λ r c. s.shadow (r * g.cols + c)) s)

-- `off`, an `int` on 32 bits as `delta` is, within 0 and `count`.
unfoldable pub scrolled_to : ℕ → Screen → ℕ
scrolled_to delta s =
    let off = (s.view_offset + delta) % 2 ^ 32 in
    if leb (2 ^ 31) off then 0 else if ltb s.count off then s.count else off

unfoldable pub fb_scrollback : Geometry → ℕ → Screen → Screen
unfolding scrolled_to view_repaint snap_to_live
fb_scrollback g delta s =
    let off = scrolled_to delta s in
    let moved = record s { view_offset = off } in
    if not s.scrollback_on || off == s.view_offset
    then s
    else if off == 0
    then snap_to_live g moved
    else view_repaint g moved

unfoldable pub upd_row : Geometry → Screen → Screen
unfolding scroll
upd_row g s = let s' = record s { row = s.row + 1 } in if ltb s'.row g.rows then s' else scroll g s'

unfoldable pub upd_col : Geometry → Screen → Screen
unfolding upd_row
upd_col g s =
    if ltb (s.col + 1) g.cols
    then record s { col = s.col + 1 }
    else upd_row g (record s { col = 0 })

-- The view goes back to the live screen.
unfoldable pub go_live : Geometry → Screen → Screen
unfolding snap_to_live
go_live g s = if s.view_offset == 0 then s else snap_to_live g (record s { view_offset = 0 })

unfoldable pub fb_draw_char_no_upd : Geometry → ℕ → ℕ → Screen → Screen
unfolding go_live upd_col upd_row
fb_draw_char_no_upd g c color s =
    let live = go_live g s in
    if not (c == 8) && not (c == 10)
    then upd_col g (draw_char g c color live)
    else if not (c == 10)
    then if ltb 0 live.col then draw_char g 32 0 (record live { col = live.col - 1 }) else live
    else record (upd_row g live) { col = 0 }

unfoldable pub show_cursor : Geometry → Screen → Screen
show_cursor g s = draw_cursor g (del_cursor g s)

unfoldable pub fb_draw_char_upd : Geometry → ℕ → ℕ → Screen → Screen
unfolding show_cursor fb_draw_char_no_upd
fb_draw_char_upd g c color s = show_cursor g (fb_draw_char_no_upd g c color s)

-- The loop of `fb_draw_string`, on fuel, from `i` on.
unfoldable pub draw_string : (ℕ → Screen → Screen) → ℕ → (ℕ → ℕ) → ℕ → Screen → Screen
draw_string draw zero str i s = s
draw_string draw (suc fuel) str i s =
    if str i == 0 then s else draw_string draw fuel str (i + 1) (draw (str i) s)

unfoldable pub fb_draw_string : Geometry → ℕ → (ℕ → ℕ) → ℕ → Screen → Screen
unfolding draw_string fb_draw_char_upd
fb_draw_string g fuel str color s = draw_string (λ c. fb_draw_char_upd g c color) fuel str 0 s

unfoldable pub fb_draw_string_no_upd : Geometry → ℕ → (ℕ → ℕ) → ℕ → Screen → Screen
unfolding draw_string fb_draw_char_no_upd
fb_draw_string_no_upd g fuel str color s =
    draw_string (λ c. fb_draw_char_no_upd g c color) fuel str 0 s

unfoldable pub fb_set_cursor_no_upd : Geometry → ℕ → ℕ → Screen → Bool × Screen
unfolding go_live
fb_set_cursor_no_upd g in_row in_col s =
    let live = go_live g s in
    if leb g.rows in_row || leb g.cols in_col
    then (false, live)
    else (true, record live { row = in_row; col = in_col })

unfoldable pub fb_set_cursor : Geometry → ℕ → ℕ → Screen → Bool × Screen
unfolding fb_set_cursor_no_upd show_cursor
fb_set_cursor g in_row in_col s =
    let (set, s') = fb_set_cursor_no_upd g in_row in_col s in
    if set then (true, show_cursor g s') else (false, s')

unfoldable pub fb_clear_screen : Geometry → Screen → Screen
unfolding go_live show_cursor for_loop
fb_clear_screen g s =
    let cleared =
      for_loop g.rows 0
        (λ r.
          for_loop g.cols 0
            (λ c t. draw_char g blank.c blank.color (record t { row = r; col = c })))
        (go_live g s) in
    show_cursor g (record cleared { row = 0; col = 0 })

unfoldable pub fb_set_scrollback : Bool → Screen → Screen
fb_set_scrollback b s = record s { scrollback_on = b }

abbrev pub fb_get_screen_dims : Geometry → ℕ × ℕ
fb_get_screen_dims g = (g.rows, g.cols)

abbrev pub fb_get_cursor : Screen → ℕ × ℕ
fb_get_cursor s = (s.row, s.col)
