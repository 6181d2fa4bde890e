-- ===== src/Keyboard/Chars.antt =====
-- `keycode_to_char` and `char_to_keycode` of kernel/drivers/keyboard/keyboard.c. A character is
-- its code; the codes of the arrows are from 128 on.
use deprecat_os.Prelude.{ℕ, Bool, not, List, [], ◌∷◌, ◌==◌, if◌then◌else◌}
use deprecat_os.Keyboard.Keys.{
  key_none, key_esc, key_1, key_2, key_3, key_4, key_5, key_6, key_7, key_8, key_9, key_0,
  key_minus, key_equals, key_backspace, key_tab, key_q, key_w, key_e, key_r, key_t, key_y, key_u,
  key_i, key_o, key_p, key_lbracket, key_rbracket, key_enter, key_a, key_s, key_d, key_f, key_g,
  key_h, key_j, key_k, key_l, key_semicolon, key_apostrophe, key_grave, key_backslash, key_z, key_x,
  key_c, key_v, key_b, key_n, key_m, key_comma, key_period, key_slash, key_space, key_up, key_down,
  key_left, key_right, key_numpad_enter, key_numpad_slash,
}
use deprecat_os.Keyboard.Switch.{switch}

-- The cases that ask for `uppercase`: the lower and the upper character.
abbrev letter_cases : List (ℕ × (ℕ × ℕ))
letter_cases =
    (key_a, (97, 65))
    ∷ (key_b, (98, 66))
    ∷ (key_c, (99, 67))
    ∷ (key_d, (100, 68))
    ∷ (key_e, (101, 69))
    ∷ (key_f, (102, 70))
    ∷ (key_g, (103, 71))
    ∷ (key_h, (104, 72))
    ∷ (key_i, (105, 73))
    ∷ (key_j, (106, 74))
    ∷ (key_k, (107, 75))
    ∷ (key_l, (108, 76))
    ∷ (key_m, (109, 77))
    ∷ (key_n, (110, 78))
    ∷ (key_o, (111, 79))
    ∷ (key_p, (112, 80))
    ∷ (key_q, (113, 81))
    ∷ (key_r, (114, 82))
    ∷ (key_s, (115, 83))
    ∷ (key_t, (116, 84))
    ∷ (key_u, (117, 85))
    ∷ (key_v, (118, 86))
    ∷ (key_w, (119, 87))
    ∷ (key_x, (120, 88))
    ∷ (key_y, (121, 89))
    ∷ (key_z, (122, 90))
    ∷ []

-- The other cases: the character without and with the shift key.
abbrev symbol_cases : List (ℕ × (ℕ × ℕ))
symbol_cases =
    (key_1, (49, 33))
    ∷ (key_2, (50, 64))
    ∷ (key_3, (51, 35))
    ∷ (key_4, (52, 36))
    ∷ (key_5, (53, 37))
    ∷ (key_6, (54, 94))
    ∷ (key_7, (55, 38))
    ∷ (key_8, (56, 42))
    ∷ (key_9, (57, 40))
    ∷ (key_0, (48, 41))
    ∷ (key_minus, (45, 95))
    ∷ (key_equals, (61, 43))
    ∷ (key_lbracket, (91, 123))
    ∷ (key_rbracket, (93, 125))
    ∷ (key_semicolon, (59, 58))
    ∷ (key_apostrophe, (39, 34))
    ∷ (key_grave, (96, 126))
    ∷ (key_backslash, (92, 124))
    ∷ (key_comma, (44, 60))
    ∷ (key_period, (46, 62))
    ∷ (key_slash, (47, 63))
    ∷ (key_numpad_slash, (47, 47))
    ∷ (key_numpad_enter, (10, 10))
    ∷ (key_space, (32, 32))
    ∷ (key_tab, (9, 9))
    ∷ (key_enter, (10, 10))
    ∷ (key_backspace, (8, 8))
    ∷ (key_esc, (27, 27))
    ∷ (key_left, (130, 130))
    ∷ (key_right, (131, 131))
    ∷ (key_up, (128, 128))
    ∷ (key_down, (129, 129))
    ∷ []

-- `shift` is the state of the shift keys.
unfoldable pub keycode_to_char : Bool → Bool → ℕ → ℕ
keycode_to_char shift capslock key =
    let uppercase = if shift then not capslock else capslock in
    let (lower, upper) = switch letter_cases (0, 0) key in
    let (plain, shifted) = switch symbol_cases (0, 0) key in
    if lower == 0 then if shift then shifted else plain else if uppercase then upper else lower

abbrev char_cases : List (ℕ × ℕ)
char_cases =
    (97, key_a)
    ∷ (65, key_a)
    ∷ (98, key_b)
    ∷ (66, key_b)
    ∷ (99, key_c)
    ∷ (67, key_c)
    ∷ (100, key_d)
    ∷ (68, key_d)
    ∷ (101, key_e)
    ∷ (69, key_e)
    ∷ (102, key_f)
    ∷ (70, key_f)
    ∷ (103, key_g)
    ∷ (71, key_g)
    ∷ (104, key_h)
    ∷ (72, key_h)
    ∷ (105, key_i)
    ∷ (73, key_i)
    ∷ (106, key_j)
    ∷ (74, key_j)
    ∷ (107, key_k)
    ∷ (75, key_k)
    ∷ (108, key_l)
    ∷ (76, key_l)
    ∷ (109, key_m)
    ∷ (77, key_m)
    ∷ (110, key_n)
    ∷ (78, key_n)
    ∷ (111, key_o)
    ∷ (79, key_o)
    ∷ (112, key_p)
    ∷ (80, key_p)
    ∷ (113, key_q)
    ∷ (81, key_q)
    ∷ (114, key_r)
    ∷ (82, key_r)
    ∷ (115, key_s)
    ∷ (83, key_s)
    ∷ (116, key_t)
    ∷ (84, key_t)
    ∷ (117, key_u)
    ∷ (85, key_u)
    ∷ (118, key_v)
    ∷ (86, key_v)
    ∷ (119, key_w)
    ∷ (87, key_w)
    ∷ (120, key_x)
    ∷ (88, key_x)
    ∷ (121, key_y)
    ∷ (89, key_y)
    ∷ (122, key_z)
    ∷ (90, key_z)
    ∷ (49, key_1)
    ∷ (33, key_1)
    ∷ (50, key_2)
    ∷ (64, key_2)
    ∷ (51, key_3)
    ∷ (35, key_3)
    ∷ (52, key_4)
    ∷ (36, key_4)
    ∷ (53, key_5)
    ∷ (37, key_5)
    ∷ (54, key_6)
    ∷ (94, key_6)
    ∷ (55, key_7)
    ∷ (38, key_7)
    ∷ (56, key_8)
    ∷ (42, key_8)
    ∷ (57, key_9)
    ∷ (40, key_9)
    ∷ (48, key_0)
    ∷ (41, key_0)
    ∷ (45, key_minus)
    ∷ (95, key_minus)
    ∷ (61, key_equals)
    ∷ (43, key_equals)
    ∷ (91, key_lbracket)
    ∷ (123, key_lbracket)
    ∷ (93, key_rbracket)
    ∷ (125, key_rbracket)
    ∷ (59, key_semicolon)
    ∷ (58, key_semicolon)
    ∷ (39, key_apostrophe)
    ∷ (34, key_apostrophe)
    ∷ (96, key_grave)
    ∷ (126, key_grave)
    ∷ (92, key_backslash)
    ∷ (124, key_backslash)
    ∷ (44, key_comma)
    ∷ (60, key_comma)
    ∷ (46, key_period)
    ∷ (62, key_period)
    ∷ (47, key_slash)
    ∷ (63, key_slash)
    ∷ (32, key_space)
    ∷ (9, key_tab)
    ∷ (10, key_enter)
    ∷ []

unfoldable pub char_to_keycode : ℕ → ℕ
char_to_keycode c = switch char_cases key_none c
