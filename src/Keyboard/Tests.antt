-- ===== src/Keyboard/Tests.antt =====
-- The keyboard driver's theorems at an idle keyboard.
use deprecat_os.Prelude.{◌≡◌, refl, true, false, not, [], ◌∷◌, arith, ◌==◌, if◌then◌else◌}
use deprecat_os.Keyboard.{Keyboard, keyboard_handler, keyboard_run}
use deprecat_os.Keyboard.Keys.{key_q}
use deprecat_os.Keyboard.Chars.{keycode_to_char, char_to_keycode}
use deprecat_os.Keyboard.Scancodes.{scancode_to_keycode}
use deprecat_os.Keyboard.Laws.{
  byte_of, has_char, char_to_keycode-keycode_to_char, keyboard_handler-keys_down,
  keyboard_run-pause,
}

abbrev idle : Keyboard
idle = record {
  keys_down = λ _. false;
  capslock = false;
  scrollock = false;
  numlock = false;
  e0_pending = false;
  e1_skip = 0;
  g_rb = record { queue = λ _. 0; head = 0; tail = 0 };
}

q_has_char : has_char key_q ≡ true
unfolding keycode_to_char
q_has_char = refl

char_to_keycode-keycode_to_char_example : char_to_keycode (keycode_to_char true false key_q) ≡ key_q
char_to_keycode-keycode_to_char_example =
    char_to_keycode-keycode_to_char true false key_q (omega arith) q_has_char

code_16 : scancode_to_keycode 16 ≡ key_q
unfolding scancode_to_keycode
code_16 = refl

keyboard_handler-keys_down_example :
    (keyboard_handler 25 idle (byte_of 16 false)).0.keys_down 16
    ≡ (if 16 == scancode_to_keycode 16 then not false else false)
keyboard_handler-keys_down_example =
    keyboard_handler-keys_down 25 idle 16 false 16 refl refl (omega arith)
      (λ e. absurd (omega (arith, code_16, e)))

keyboard_run-pause_example :
    keyboard_run 25 idle (225 ∷ 29 ∷ 69 ∷ 225 ∷ 157 ∷ 197 ∷ []) ≡ (idle, [])
keyboard_run-pause_example = keyboard_run-pause 25 idle 29 69 225 157 197 refl
