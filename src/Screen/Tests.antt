-- ===== src/Screen/Tests.antt =====
-- The theorems of the screen on a screen of 2 rows and 3 columns.
use deprecat_os.Prelude.{◌+◌, ◌≡◌, refl, true, List, [], ◌∷◌, arith}
use deprecat_os.Screen.Draw.{Geometry, Screen}
use deprecat_os.Screen.{scroll, viewed}
use deprecat_os.Screen.Pixels.{Fits}
use deprecat_os.Screen.Calls.{
  Call, draw_char_upd, set_cursor, scrollback, clear_screen, run, run-Safe,
}
use deprecat_os.Screen.Keeps.{Safe}
use deprecat_os.Screen.Scrolled.{viewed-scroll}

abbrev geometry : Geometry
geometry = record { cols = 3; rows = 2; base = 4096; pitch = 96; height = 32; font = λ k. k }

-- The first cell has an 'A' and five lines have left the screen.
abbrev screen : Screen
screen = record {
  col = 1;
  row = 1;
  cursor_col = 1;
  cursor_row = 1;
  shadow = λ k. record { c = 65 + k; color = 7 };
  history = λ k. record { c = 97 + k; color = 7 };
  head = 5;
  count = 5;
  view_offset = 0;
  scrollback_on = true;
  vram = λ k. 0;
}

geometry-Fits : Fits geometry
geometry-Fits = record {
  some_row = omega arith;
  some_col = omega arith;
  lines = omega arith;
  width = omega arith;
}

screen-Safe : Safe geometry screen screen
screen-Safe = (
  record {
    cursor_row_lt = omega arith;
    cursor_col_lt = omega arith;
    head_lt = omega arith;
    count_le = omega arith;
    view_le = omega arith;
    pixels = λ a h. refl;
    cells = λ k h. refl;
    lines = λ k h. refl;
  },
  record { row_lt = omega arith; col_lt = omega arith },
)

abbrev calls : List Call
calls = draw_char_upd 10 7 ∷ draw_char_upd 65 7 ∷ scrollback 2 ∷ set_cursor 9 9 ∷ clear_screen ∷ []

run-Safe_example : Safe geometry screen (run geometry calls screen)
run-Safe_example = run-Safe geometry screen calls geometry-Fits screen-Safe

viewed-scroll_example :
    viewed geometry (record (scroll geometry screen) { view_offset = 2 }) 1 2
    ≡ viewed geometry (record screen { view_offset = 1 }) 1 2
viewed-scroll_example =
    viewed-scroll geometry screen 1 1 2 geometry-Fits (omega arith) (omega arith) (omega arith)
      (omega arith) (omega arith) (omega arith)
