-- ===== src/Keyboard.antt =====
-- kernel/drivers/keyboard/keyboard.c: from the bytes of the keyboard controller to the ring of
-- characters. The frame buffer that the scroll keys move is a parameter: its number of rows is
-- given, and the scrolls asked of it are returned.
pub mod Keys
pub mod Switch
pub mod Scancodes
pub mod Chars
pub mod Laws
mod Tests
use deprecat_os.Prelude.{
  ℕ, zero, suc, ◌+◌, ◌-◌, ◌*◌, ◌%◌, ◌/◌, ◌^◌, bit_and, Bool, true, false, ◌&&◌, ◌||◌, not, List, [],
  ◌∷◌, ◌++◌, ◌==◌, if◌then◌else◌,
}
use deprecat_os.Ring
use deprecat_os.Ring.{Ring}
use Keys.{
  key_none, key_capslock, key_scrolllock, key_numlock, key_up, key_down, key_pgup, key_pgdn,
  key_lshift, key_rshift,
}
use Scancodes.{scancode_to_keycode, extended_scancode_to_keycode}
use Chars.{keycode_to_char, char_to_keycode}

-- The globals and the static variables of `keyboard_handler`.
pub record Keyboard : Type 0 where
  pub keys_down : ℕ → Bool
  pub capslock : Bool
  pub scrollock : Bool
  pub numlock : Bool
  pub e0_pending : Bool
  pub e1_skip : ℕ
  pub g_rb : Ring

-- `fb_scrollback` of a positive or a negative number of rows.
pub data Scroll : Type 0 where
  back forward : ℕ → Scroll

abbrev pub shift_held : Keyboard → Bool
shift_held k = k.keys_down key_rshift || k.keys_down key_lshift

-- `keycode_to_char` reads the keys that are down.
abbrev pub typed_char : Keyboard → ℕ → ℕ
typed_char k key = keycode_to_char (shift_held k) k.capslock key

-- The three lock keys, and the state of the key itself.
unfoldable pub note_key : Keyboard → ℕ → Bool → Keyboard
note_key k key released = record k {
  capslock = if key == key_capslock && not released then not k.capslock else k.capslock;
  scrollock = if key == key_scrolllock && not released then not k.scrollock else k.scrollock;
  numlock = if key == key_numlock && not released then not k.numlock else k.numlock;
  keys_down = λ j. if j == key then not released else k.keys_down j;
}

-- The last lines: the character goes to the ring, and is lost if the ring is full.
unfoldable pub type_key : Keyboard → ℕ → Bool → Keyboard
type_key k key released =
    if not released && not (typed_char k key == 0)
    then record k { g_rb = (Ring.push k.g_rb (typed_char k key)).0 }
    else k

-- From the test of `key` on.
unfoldable pub handle_key : ℕ → Keyboard → ℕ → Bool → Keyboard × List Scroll
handle_key rows k key released =
    let k' = note_key k key released in
    if key == key_none
    then (k, [])
    else if not released && (key == key_up || key == key_down) && shift_held k'
    then (k', (if key == key_up then back 1 else forward 1) ∷ [])
    else if not released && (key == key_pgup || key == key_pgdn)
    then (
      type_key k' key released,
      (if key == key_pgup then back (rows - 1) else forward (rows - 1)) ∷ [],
    )
    else (type_key k' key released, [])

-- `scancode & 0x7F`
abbrev pub strip_key : ℕ → ℕ
strip_key key = bit_and key 127

unfoldable pub keyboard_handler : ℕ → Keyboard → ℕ → Keyboard × List Scroll
keyboard_handler rows k scancode =
    let released = not (bit_and scancode 128 == 0) in
    let raw_key = strip_key scancode in
    if not (k.e1_skip == 0)
    then (record k { e1_skip = k.e1_skip - 1 }, [])
    else if scancode == 224
    then (record k { e0_pending = true }, [])
    else if scancode == 225
    then (record k { e1_skip = 5 }, [])
    else if k.e0_pending
    then handle_key rows (record k { e0_pending = false }) (extended_scancode_to_keycode raw_key)
        released
    else handle_key rows k (scancode_to_keycode raw_key) released

-- The bytes of the controller in their order.
unfoldable pub keyboard_run : ℕ → Keyboard → List ℕ → Keyboard × List Scroll
keyboard_run rows k [] = (k, [])
keyboard_run rows k (c ∷ cs) =
    let (k', out) = keyboard_handler rows k c in
    let (k'', rest) = keyboard_run rows k' cs in (k'', out ++ rest)

unfoldable pub is_key_held : Keyboard → ℕ → Bool
is_key_held k key = k.keys_down (char_to_keycode key)
