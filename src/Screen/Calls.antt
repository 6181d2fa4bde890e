-- ===== src/Screen/Calls.antt =====
-- The calls of kernel/drivers/fb/fbController.c in any order.
use deprecat_os.Prelude.{ℕ, Bool, List, [], ◌∷◌}
use deprecat_os.Screen.Draw.{Geometry, Screen}
use deprecat_os.Screen.{
  fb_scrollback, fb_draw_char_no_upd, fb_draw_char_upd, fb_draw_string, fb_draw_string_no_upd,
  fb_set_cursor_no_upd, fb_set_cursor, fb_clear_screen, fb_set_scrollback,
}
use deprecat_os.Screen.Pixels.{Fits}
use deprecat_os.Screen.Keeps.{
  Safe, fb_scrollback-Safe, fb_draw_char_no_upd-Safe, fb_draw_char_upd-Safe, draw_string-Safe,
  fb_set_cursor_no_upd-Safe, fb_set_cursor-Safe, fb_clear_screen-Safe, fb_set_scrollback-Safe,
}

-- A call, with its arguments; a string comes with the fuel of its loop.
pub data Call : Type 0 where
  draw_char_upd draw_char_no_upd : ℕ → ℕ → Call
  draw_string_upd draw_string_no_upd : ℕ → (ℕ → ℕ) → ℕ → Call
  set_cursor set_cursor_no_upd : ℕ → ℕ → Call
  clear_screen : Call
  scrollback : ℕ → Call
  set_scrollback : Bool → Call

unfoldable pub call : Geometry → Call → Screen → Screen
call g (draw_char_upd c color) s = fb_draw_char_upd g c color s
call g (draw_char_no_upd c color) s = fb_draw_char_no_upd g c color s
call g (draw_string_upd fuel str color) s = fb_draw_string g fuel str color s
call g (draw_string_no_upd fuel str color) s = fb_draw_string_no_upd g fuel str color s
call g (set_cursor r c) s = (fb_set_cursor g r c s).1
call g (set_cursor_no_upd r c) s = (fb_set_cursor_no_upd g r c s).1
call g clear_screen s = fb_clear_screen g s
call g (scrollback delta) s = fb_scrollback g delta s
call g (set_scrollback b) s = fb_set_scrollback b s

unfoldable pub run : Geometry → List Call → Screen → Screen
run g [] s = s
run g (c ∷ cs) s = run g cs (call g c s)

module _ (g : Geometry) (fit : Fits g) (s0 : Screen) where
  call-Safe : (c : Call) (s : Screen) → Safe g s0 s → Safe g s0 (call g c s)
  unfolding call fb_draw_string fb_draw_string_no_upd
  call-Safe (draw_char_upd c color) s p = fb_draw_char_upd-Safe g fit s0 c color s p
  call-Safe (draw_char_no_upd c color) s p = fb_draw_char_no_upd-Safe g fit s0 c color s p
  call-Safe (draw_string_upd fuel str color) s p =
      draw_string-Safe g fit s0 (λ c. fb_draw_char_upd g c color)
        (λ c. fb_draw_char_upd-Safe g fit s0 c color) fuel str 0 s p
  call-Safe (draw_string_no_upd fuel str color) s p =
      draw_string-Safe g fit s0 (λ c. fb_draw_char_no_upd g c color)
        (λ c. fb_draw_char_no_upd-Safe g fit s0 c color) fuel str 0 s p
  call-Safe (set_cursor r c) s p = fb_set_cursor-Safe g fit s0 r c s p
  call-Safe (set_cursor_no_upd r c) s p = fb_set_cursor_no_upd-Safe g fit s0 r c s p
  call-Safe clear_screen s p = fb_clear_screen-Safe g fit s0 s p
  call-Safe (scrollback delta) s p = fb_scrollback-Safe g fit s0 delta s p
  call-Safe (set_scrollback b) s p = fb_set_scrollback-Safe g fit s0 b s p

  run-Safe_on : (cs : List Call) (s : Screen) → Safe g s0 s → Safe g s0 (run g cs s)
  unfolding run
  run-Safe_on [] s p = p
  run-Safe_on (c ∷ cs) s p = run-Safe_on cs (call g c s) (call-Safe c s p)

-- On a screen of at least one cell whose cells lie in the frame buffer, from a state within
-- bounds, whatever calls of the drawing functions run with whatever arguments and in whatever
-- order, the cursor and the place of the next character stay in the grid, the view in the history
-- and the history in its 256 lines, and no byte outside the frame buffer, no cell outside the
-- shadow and none outside the history has changed.
pub run-Safe :
    (g : Geometry) (s : Screen) (cs : List Call) → Fits g → Safe g s s → Safe g s (run g cs s)
run-Safe g s cs fit p = run-Safe_on g fit s cs s p
