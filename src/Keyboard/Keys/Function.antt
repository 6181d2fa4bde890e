-- ===== src/Keyboard/Keys/Function.antt =====
-- The enumeration `KeyCode` of kernel/drivers/keyboard/keyboard.h, the rest.
use deprecat_os.Prelude.{ℕ}

abbrev pub key_lalt : ℕ
key_lalt = 56

abbrev pub key_space : ℕ
key_space = 57

abbrev pub key_capslock : ℕ
key_capslock = 58

abbrev pub key_f1 : ℕ
key_f1 = 59

abbrev pub key_f2 : ℕ
key_f2 = 60

abbrev pub key_f3 : ℕ
key_f3 = 61

abbrev pub key_f4 : ℕ
key_f4 = 62

abbrev pub key_f5 : ℕ
key_f5 = 63

abbrev pub key_f6 : ℕ
key_f6 = 64

abbrev pub key_f7 : ℕ
key_f7 = 65

abbrev pub key_f8 : ℕ
key_f8 = 66

abbrev pub key_f9 : ℕ
key_f9 = 67

abbrev pub key_f10 : ℕ
key_f10 = 68

abbrev pub key_numlock : ℕ
key_numlock = 69

abbrev pub key_scrolllock : ℕ
key_scrolllock = 70

abbrev pub key_f11 : ℕ
key_f11 = 71

abbrev pub key_f12 : ℕ
key_f12 = 72

abbrev pub key_rctrl : ℕ
key_rctrl = 73

abbrev pub key_ralt : ℕ
key_ralt = 74

abbrev pub key_up : ℕ
key_up = 75

abbrev pub key_down : ℕ
key_down = 76

abbrev pub key_left : ℕ
key_left = 77

abbrev pub key_right : ℕ
key_right = 78

abbrev pub key_home : ℕ
key_home = 79

abbrev pub key_end : ℕ
key_end = 80

abbrev pub key_pgup : ℕ
key_pgup = 81

abbrev pub key_pgdn : ℕ
key_pgdn = 82

abbrev pub key_insert : ℕ
key_insert = 83

abbrev pub key_delete : ℕ
key_delete = 84

abbrev pub key_numpad_enter : ℕ
key_numpad_enter = 85

abbrev pub key_numpad_slash : ℕ
key_numpad_slash = 86

abbrev pub key_lgui : ℕ
key_lgui = 87

abbrev pub key_rgui : ℕ
key_rgui = 88

abbrev pub key_menu : ℕ
key_menu = 89

abbrev pub key_printscreen : ℕ
key_printscreen = 90

abbrev pub key_pause : ℕ
key_pause = 91

abbrev pub key_count : ℕ
key_count = 92
