-- ===== src/Keyboard/Keys/Main.antt =====
-- The enumeration `KeyCode` of kernel/drivers/keyboard/keyboard.h, to the rows of letters.
use deprecat_os.Prelude.{ℕ}

abbrev pub key_none : ℕ
key_none = 0

abbrev pub key_esc : ℕ
key_esc = 1

abbrev pub key_1 : ℕ
key_1 = 2

abbrev pub key_2 : ℕ
key_2 = 3

abbrev pub key_3 : ℕ
key_3 = 4

abbrev pub key_4 : ℕ
key_4 = 5

abbrev pub key_5 : ℕ
key_5 = 6

abbrev pub key_6 : ℕ
key_6 = 7

abbrev pub key_7 : ℕ
key_7 = 8

abbrev pub key_8 : ℕ
key_8 = 9

abbrev pub key_9 : ℕ
key_9 = 10

abbrev pub key_0 : ℕ
key_0 = 11

abbrev pub key_minus : ℕ
key_minus = 12

abbrev pub key_equals : ℕ
key_equals = 13

abbrev pub key_backspace : ℕ
key_backspace = 14

abbrev pub key_tab : ℕ
key_tab = 15

abbrev pub key_q : ℕ
key_q = 16

abbrev pub key_w : ℕ
key_w = 17

abbrev pub key_e : ℕ
key_e = 18

abbrev pub key_r : ℕ
key_r = 19

abbrev pub key_t : ℕ
key_t = 20

abbrev pub key_y : ℕ
key_y = 21

abbrev pub key_u : ℕ
key_u = 22

abbrev pub key_i : ℕ
key_i = 23

abbrev pub key_o : ℕ
key_o = 24

abbrev pub key_p : ℕ
key_p = 25

abbrev pub key_lbracket : ℕ
key_lbracket = 26

abbrev pub key_rbracket : ℕ
key_rbracket = 27

abbrev pub key_enter : ℕ
key_enter = 28

abbrev pub key_lctrl : ℕ
key_lctrl = 29

abbrev pub key_a : ℕ
key_a = 30

abbrev pub key_s : ℕ
key_s = 31

abbrev pub key_d : ℕ
key_d = 32

abbrev pub key_f : ℕ
key_f = 33

abbrev pub key_g : ℕ
key_g = 34

abbrev pub key_h : ℕ
key_h = 35

abbrev pub key_j : ℕ
key_j = 36

abbrev pub key_k : ℕ
key_k = 37

abbrev pub key_l : ℕ
key_l = 38

abbrev pub key_semicolon : ℕ
key_semicolon = 39

abbrev pub key_apostrophe : ℕ
key_apostrophe = 40

abbrev pub key_grave : ℕ
key_grave = 41

abbrev pub key_lshift : ℕ
key_lshift = 42

abbrev pub key_backslash : ℕ
key_backslash = 43

abbrev pub key_z : ℕ
key_z = 44

abbrev pub key_x : ℕ
key_x = 45

abbrev pub key_c : ℕ
key_c = 46

abbrev pub key_v : ℕ
key_v = 47

abbrev pub key_b : ℕ
key_b = 48

abbrev pub key_n : ℕ
key_n = 49

abbrev pub key_m : ℕ
key_m = 50

abbrev pub key_comma : ℕ
key_comma = 51

abbrev pub key_period : ℕ
key_period = 52

abbrev pub key_slash : ℕ
key_slash = 53

abbrev pub key_rshift : ℕ
key_rshift = 54

abbrev pub key_numpad_star : ℕ
key_numpad_star = 55
