-- ===== src/Keyboard/Laws.antt =====
-- The tables of the keyboard driver against one another, and the state that the handler keeps.
use deprecat_os.Prelude.{
  ℕ, zero, suc, ◌+◌, ◌-◌, ◌<◌, ◌≡◌, ◌≢◌, ◌∙◌, refl, sym, ap, bit_and, Bool, true, false, ◌&&◌, ◌||◌,
  not, Bool-cases, List, [], ◌∷◌, ◌==◌, if◌then◌else◌, arith, inl, inr,
}
use deprecat_os.Keyboard.{
  Keyboard, typed_char, note_key, type_key, handle_key, strip_key, keyboard_handler, keyboard_run,
}
use deprecat_os.Keyboard.Keys.{
  key_esc, key_backspace, key_up, key_down, key_left, key_right, key_numpad_slash, key_numpad_enter,
  key_count, key_none, key_slash, key_enter,
}
use deprecat_os.Keyboard.Chars.{keycode_to_char, char_to_keycode}
use deprecat_os.Keyboard.Scancodes.{scancode_to_keycode}

-- A test on every number below `n`.
all_below : ℕ → (ℕ → Bool) → Bool
all_below zero p = true
all_below (suc n) p = p n && all_below n p

all_below_lem : (n : ℕ) (p : ℕ → Bool) → all_below n p ≡ true → (i : ℕ) → i < n → p i ≡ true
unfolding all_below
all_below_lem zero p h i l = absurd (omega arith)
all_below_lem (suc n) p h i l = elim (Bool-cases (i == n)) [
  | inl e ↦ let e' : i ≡ n = ground arith in rw e' (ground arith)
  | inr ne ↦ all_below_lem n p (ground arith) i (ground arith)
]

-- The key that `char_to_keycode` gives for the character of a key: no key for Backspace, Esc and
-- the arrows, and the main key for the two of the number pad.
abbrev pub key_of_char : ℕ → ℕ
key_of_char key =
    if key == key_backspace
      || key == key_esc
      || key == key_up
      || key == key_down
      || key == key_left
      || key == key_right
    then key_none
    else if key == key_numpad_slash
    then key_slash
    else if key == key_numpad_enter
    then key_enter
    else key

abbrev pub has_char : ℕ → Bool
has_char key = not (keycode_to_char false false key == 0)

round_trip : Bool → Bool → ℕ → Bool
round_trip shift caps key =
    not (has_char key) || (char_to_keycode (keycode_to_char shift caps key) == key_of_char key)

round_trips : (shift caps : Bool) → all_below key_count (round_trip shift caps) ≡ true
unfolding all_below round_trip keycode_to_char char_to_keycode
round_trips true true = refl
round_trips true false = refl
round_trips false true = refl
round_trips false false = refl

-- For every key that has a character, in each state of the shift keys and of caps lock,
-- `char_to_keycode` of its character is no key for Backspace, Esc and the four arrows, the main
-- key for the slash and the Enter of the number pad, and the key itself for every other.
pub char_to_keycode-keycode_to_char :
    (shift capslock : Bool) (key : ℕ)
    → key < key_count
    → has_char key ≡ true
    → char_to_keycode (keycode_to_char shift capslock key) ≡ key_of_char key
unfolding round_trip
char_to_keycode-keycode_to_char shift capslock key h own =
    let r =
      all_below_lem key_count (round_trip shift capslock) (round_trips shift capslock) key h in
    ground arith

-- The byte of a press or a release.
abbrev pub byte_of : ℕ → Bool → ℕ
byte_of c released = if released then c + 128 else c

byte_test : ℕ → Bool
byte_test c =
    bit_and c 128 == 0
    && bit_and c 127 == c
    && not (bit_and (c + 128) 128 == 0)
    && bit_and (c + 128) 127 == c

byte_tests : all_below 128 byte_test ≡ true
unfolding all_below byte_test
byte_tests = refl

byte_lem :
    (c : ℕ) (released : Bool)
    → c < 128
    → (not (bit_and (byte_of c released) 128 == 0) ≡ released)
      × (strip_key (byte_of c released) ≡ c)
unfolding byte_test
byte_lem c true h =
    let t = all_below_lem 128 byte_test byte_tests c h in (ground arith, ground arith)
byte_lem c false h =
    let t = all_below_lem 128 byte_test byte_tests c h in (ground arith, ground arith)

type_key-keys_down :
    (k : Keyboard) (key : ℕ) (r : Bool) → (type_key k key r).keys_down ≡ k.keys_down
unfolding type_key
type_key-keys_down k key r = elim (Bool-cases (not r && not (typed_char k key == 0))) [
  | inl e ↦ rw e refl
  | inr e ↦ rw e refl
]

handle_key-keys_down :
    (rows : ℕ) (k : Keyboard) (key : ℕ) (released : Bool) (j : ℕ)
    → key ≢ 0
    → (handle_key rows k key released).0.keys_down j
      ≡ (if j == key then not released else k.keys_down j)
unfolding handle_key note_key
handle_key-keys_down rows k key released j h =
    ground (arith, ap (λ f. f j) (type_key-keys_down (note_key k key released) key released))

no_prefix :
    (c : ℕ) (r : Bool)
    → c < 128
    → scancode_to_keycode c ≢ 0
    → (byte_of c r == 224) ≡ false × (byte_of c r == 225) ≡ false
unfolding scancode_to_keycode
no_prefix c false h ne = (ground arith, ground arith)
no_prefix c true h ne = (
  elim (Bool-cases (c == 96)) [
    | inl e ↦ let e' : c ≡ 96 = ground arith in absurd (ne (rw e' refl))
    | inr n ↦ ground arith
  ],
  elim (Bool-cases (c == 97)) [
    | inl e ↦ let e' : c ≡ 97 = ground arith in absurd (ne (rw e' refl))
    | inr n ↦ ground arith
  ],
)

plain_lem :
    (rows : ℕ) (k : Keyboard) (c : ℕ) (released : Bool)
    → k.e1_skip ≡ 0
    → k.e0_pending ≡ false
    → c < 128
    → scancode_to_keycode c ≢ 0
    → keyboard_handler rows k (byte_of c released)
      ≡ handle_key rows k (scancode_to_keycode c) released
unfolding keyboard_handler
plain_lem rows k c released skip e0 h ne =
    let (rel, raw) = byte_lem c released h in
    let (a, b) = no_prefix c released h ne in
    let running : (k.e1_skip == 0) ≡ true = ground arith in
    simp (keyboard_handler, running, a, b, e0, rel, raw)

-- Outside a prefix, the byte of a press or a release of a key that the plain table knows sets the
-- state of that key and of no other.
pub keyboard_handler-keys_down :
    (rows : ℕ) (k : Keyboard) (c : ℕ) (released : Bool) (j : ℕ)
    → k.e1_skip ≡ 0
    → k.e0_pending ≡ false
    → c < 128
    → scancode_to_keycode c ≢ 0
    → (keyboard_handler rows k (byte_of c released)).0.keys_down j
      ≡ (if j == scancode_to_keycode c then not released else k.keys_down j)
keyboard_handler-keys_down rows k c released j skip e0 h ne =
    ap (λ o. o.0.keys_down j) (plain_lem rows k c released skip e0 h ne)
    ∙ handle_key-keys_down rows k (scancode_to_keycode c) released j ne

pause_start :
    (rows : ℕ) (k : Keyboard)
    → k.e1_skip ≡ 0
    → keyboard_handler rows k 225 ≡ (record k { e1_skip = 5 }, [])
unfolding keyboard_handler
pause_start rows k h =
    let running : (k.e1_skip == 0) ≡ true = ground arith in simp (keyboard_handler, running)

pause_byte :
    (rows : ℕ) (k : Keyboard) (n c : ℕ)
    → keyboard_handler rows (record k { e1_skip = suc n }) c ≡ (record k { e1_skip = n }, [])
unfolding keyboard_handler
pause_byte rows k n c =
    let skipping : (suc n == 0) ≡ false = ground arith in
    let one_less : suc n - 1 ≡ n = omega arith in simp (keyboard_handler, skipping, one_less)

run_step :
    (rows : ℕ) (k k' : Keyboard) (c : ℕ) (cs : List ℕ)
    → keyboard_handler rows k c ≡ (k', [])
    → keyboard_run rows k (c ∷ cs) ≡ keyboard_run rows k' cs
unfolding keyboard_run
run_step rows k k' c cs e = rw e refl

-- Outside a pause sequence, the prefix 0xE1 and any five bytes leave the keyboard as it was and
-- scroll nothing.
pub keyboard_run-pause :
    (rows : ℕ) (k : Keyboard) (a b c d e : ℕ)
    → k.e1_skip ≡ 0
    → keyboard_run rows k (225 ∷ a ∷ b ∷ c ∷ d ∷ e ∷ []) ≡ (k, [])
unfolding keyboard_run
keyboard_run-pause rows k a b c d e h =
    let after : ℕ → Keyboard = λ n. record k { e1_skip = n } in
    run_step rows k (after 5) 225 (a ∷ b ∷ c ∷ d ∷ e ∷ []) (pause_start rows k h)
    ∙ run_step rows (after 5) (after 4) a (b ∷ c ∷ d ∷ e ∷ []) (pause_byte rows k 4 a)
    ∙ run_step rows (after 4) (after 3) b (c ∷ d ∷ e ∷ []) (pause_byte rows k 3 b)
    ∙ run_step rows (after 3) (after 2) c (d ∷ e ∷ []) (pause_byte rows k 2 c)
    ∙ run_step rows (after 2) (after 1) d (e ∷ []) (pause_byte rows k 1 d)
    ∙ run_step rows (after 1) (after 0) e [] (pause_byte rows k 0 e)
    ∙ ap (λ n. (after n, [])) (sym h)
