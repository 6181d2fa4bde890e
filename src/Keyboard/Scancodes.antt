-- ===== src/Keyboard/Scancodes.antt =====
-- `scancode_to_keycode` and `extended_scancode_to_keycode` of
-- kernel/drivers/keyboard/keyboard.c: their `switch`es are lists of cases.
use deprecat_os.Prelude.{ℕ, List, [], ◌∷◌}
use deprecat_os.Keyboard.Keys.{
  key_none, key_esc, key_1, key_2, key_3, key_4, key_5, key_6, key_7, key_8, key_9, key_0,
  key_minus, key_equals, key_backspace, key_tab, key_q, key_w, key_e, key_r, key_t, key_y, key_u,
  key_i, key_o, key_p, key_lbracket, key_rbracket, key_enter, key_lctrl, key_a, key_s, key_d, key_f,
  key_g, key_h, key_j, key_k, key_l, key_semicolon, key_apostrophe, key_grave, key_lshift,
  key_backslash, key_z, key_x, key_c, key_v, key_b, key_n, key_m, key_comma, key_period, key_slash,
  key_rshift, key_numpad_star, key_lalt, key_space, key_capslock, key_f1, key_f2, key_f3, key_f4,
  key_f5, key_f6, key_f7, key_f8, key_f9, key_f10, key_numlock, key_scrolllock, key_f11, key_f12,
  key_rctrl, key_ralt, key_up, key_down, key_left, key_right, key_home, key_end, key_pgup, key_pgdn,
  key_insert, key_delete, key_numpad_enter, key_numpad_slash, key_lgui, key_rgui, key_menu,
  key_printscreen,
}
use deprecat_os.Keyboard.Switch.{switch}

abbrev plain_cases : List (ℕ × ℕ)
plain_cases =
    (1, key_esc)
    ∷ (2, key_1)
    ∷ (3, key_2)
    ∷ (4, key_3)
    ∷ (5, key_4)
    ∷ (6, key_5)
    ∷ (7, key_6)
    ∷ (8, key_7)
    ∷ (9, key_8)
    ∷ (10, key_9)
    ∷ (11, key_0)
    ∷ (12, key_minus)
    ∷ (13, key_equals)
    ∷ (14, key_backspace)
    ∷ (15, key_tab)
    ∷ (16, key_q)
    ∷ (17, key_w)
    ∷ (18, key_e)
    ∷ (19, key_r)
    ∷ (20, key_t)
    ∷ (21, key_y)
    ∷ (22, key_u)
    ∷ (23, key_i)
    ∷ (24, key_o)
    ∷ (25, key_p)
    ∷ (26, key_lbracket)
    ∷ (27, key_rbracket)
    ∷ (28, key_enter)
    ∷ (29, key_lctrl)
    ∷ (30, key_a)
    ∷ (31, key_s)
    ∷ (32, key_d)
    ∷ (33, key_f)
    ∷ (34, key_g)
    ∷ (35, key_h)
    ∷ (36, key_j)
    ∷ (37, key_k)
    ∷ (38, key_l)
    ∷ (39, key_semicolon)
    ∷ (40, key_apostrophe)
    ∷ (41, key_grave)
    ∷ (42, key_lshift)
    ∷ (43, key_backslash)
    ∷ (44, key_z)
    ∷ (45, key_x)
    ∷ (46, key_c)
    ∷ (47, key_v)
    ∷ (48, key_b)
    ∷ (49, key_n)
    ∷ (50, key_m)
    ∷ (51, key_comma)
    ∷ (52, key_period)
    ∷ (53, key_slash)
    ∷ (54, key_rshift)
    ∷ (55, key_numpad_star)
    ∷ (56, key_lalt)
    ∷ (57, key_space)
    ∷ (58, key_capslock)
    ∷ (59, key_f1)
    ∷ (60, key_f2)
    ∷ (61, key_f3)
    ∷ (62, key_f4)
    ∷ (63, key_f5)
    ∷ (64, key_f6)
    ∷ (65, key_f7)
    ∷ (66, key_f8)
    ∷ (67, key_f9)
    ∷ (68, key_f10)
    ∷ (69, key_numlock)
    ∷ (70, key_scrolllock)
    ∷ (87, key_f11)
    ∷ (88, key_f12)
    ∷ []

abbrev extended_cases : List (ℕ × ℕ)
extended_cases =
    (28, key_numpad_enter)
    ∷ (29, key_rctrl)
    ∷ (53, key_numpad_slash)
    ∷ (55, key_printscreen)
    ∷ (56, key_ralt)
    ∷ (71, key_home)
    ∷ (72, key_up)
    ∷ (73, key_pgup)
    ∷ (75, key_left)
    ∷ (77, key_right)
    ∷ (79, key_end)
    ∷ (80, key_down)
    ∷ (81, key_pgdn)
    ∷ (82, key_insert)
    ∷ (83, key_delete)
    ∷ (91, key_lgui)
    ∷ (92, key_rgui)
    ∷ (93, key_menu)
    ∷ []

unfoldable pub scancode_to_keycode : ℕ → ℕ
scancode_to_keycode scancode = switch plain_cases key_none scancode

unfoldable pub extended_scancode_to_keycode : ℕ → ℕ
extended_scancode_to_keycode scancode = switch extended_cases key_none scancode
