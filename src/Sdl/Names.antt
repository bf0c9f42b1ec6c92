-- ===== src/Sdl/Names.antt =====
-- Each name stands in the list of the names.
use nemu_riscv.Base.{ℕ, ◌≡◌, refl, get_elem?, some}
use nemu_riscv.Sdl.{KeyName, key_names}
use nemu_riscv.Sdl.{
  sdlk_escape, sdlk_f1, sdlk_f2, sdlk_f3, sdlk_f4, sdlk_f5, sdlk_f6, sdlk_f7, sdlk_f8, sdlk_f9,
  sdlk_f10, sdlk_f11, sdlk_f12, sdlk_scrollock, sdlk_backquote, sdlk_1, sdlk_2, sdlk_3, sdlk_4,
  sdlk_5, sdlk_6, sdlk_7, sdlk_8, sdlk_9, sdlk_0, sdlk_minus, sdlk_equals, sdlk_backspace, sdlk_tab,
  sdlk_q, sdlk_w, sdlk_e, sdlk_r, sdlk_t, sdlk_y, sdlk_u, sdlk_i, sdlk_o, sdlk_p, sdlk_leftbracket,
  sdlk_rightbracket, sdlk_slash, sdlk_capslock, sdlk_a, sdlk_s, sdlk_d, sdlk_f, sdlk_g, sdlk_h,
  sdlk_j, sdlk_k, sdlk_l, sdlk_semicolon, sdlk_quote, sdlk_return, sdlk_lshift, sdlk_z, sdlk_x,
  sdlk_c, sdlk_v, sdlk_b, sdlk_n, sdlk_m, sdlk_comma, sdlk_period, sdlk_backslash, sdlk_rshift,
  sdlk_lctrl, sdlk_lalt, sdlk_space, sdlk_ralt, sdlk_rctrl, sdlk_insert, sdlk_home, sdlk_pageup,
  sdlk_delete, sdlk_end, sdlk_pagedown, sdlk_up, sdlk_left, sdlk_down, sdlk_right, sdlk_numlock,
  sdlk_kp_divide, sdlk_kp_multiply, sdlk_kp_minus, sdlk_kp_plus, sdlk_kp7, sdlk_kp8, sdlk_kp9,
  sdlk_kp4, sdlk_kp5, sdlk_kp6, sdlk_kp1, sdlk_kp2, sdlk_kp3, sdlk_kp0, sdlk_kp_equals,
  sdlk_kp_enter,
}

unfoldable pub position : KeyName → ℕ
position sdlk_escape = 0
position sdlk_f1 = 1
position sdlk_f2 = 2
position sdlk_f3 = 3
position sdlk_f4 = 4
position sdlk_f5 = 5
position sdlk_f6 = 6
position sdlk_f7 = 7
position sdlk_f8 = 8
position sdlk_f9 = 9
position sdlk_f10 = 10
position sdlk_f11 = 11
position sdlk_f12 = 12
position sdlk_scrollock = 13
position sdlk_backquote = 14
position sdlk_1 = 15
position sdlk_2 = 16
position sdlk_3 = 17
position sdlk_4 = 18
position sdlk_5 = 19
position sdlk_6 = 20
position sdlk_7 = 21
position sdlk_8 = 22
position sdlk_9 = 23
position sdlk_0 = 24
position sdlk_minus = 25
position sdlk_equals = 26
position sdlk_backspace = 27
position sdlk_tab = 28
position sdlk_q = 29
position sdlk_w = 30
position sdlk_e = 31
position sdlk_r = 32
position sdlk_t = 33
position sdlk_y = 34
position sdlk_u = 35
position sdlk_i = 36
position sdlk_o = 37
position sdlk_p = 38
position sdlk_leftbracket = 39
position sdlk_rightbracket = 40
position sdlk_slash = 41
position sdlk_capslock = 42
position sdlk_a = 43
position sdlk_s = 44
position sdlk_d = 45
position sdlk_f = 46
position sdlk_g = 47
position sdlk_h = 48
position sdlk_j = 49
position sdlk_k = 50
position sdlk_l = 51
position sdlk_semicolon = 52
position sdlk_quote = 53
position sdlk_return = 54
position sdlk_lshift = 55
position sdlk_z = 56
position sdlk_x = 57
position sdlk_c = 58
position sdlk_v = 59
position sdlk_b = 60
position sdlk_n = 61
position sdlk_m = 62
position sdlk_comma = 63
position sdlk_period = 64
position sdlk_backslash = 65
position sdlk_rshift = 66
position sdlk_lctrl = 67
position sdlk_lalt = 68
position sdlk_space = 69
position sdlk_ralt = 70
position sdlk_rctrl = 71
position sdlk_insert = 72
position sdlk_home = 73
position sdlk_pageup = 74
position sdlk_delete = 75
position sdlk_end = 76
position sdlk_pagedown = 77
position sdlk_up = 78
position sdlk_left = 79
position sdlk_down = 80
position sdlk_right = 81
position sdlk_numlock = 82
position sdlk_kp_divide = 83
position sdlk_kp_multiply = 84
position sdlk_kp_minus = 85
position sdlk_kp_plus = 86
position sdlk_kp7 = 87
position sdlk_kp8 = 88
position sdlk_kp9 = 89
position sdlk_kp4 = 90
position sdlk_kp5 = 91
position sdlk_kp6 = 92
position sdlk_kp1 = 93
position sdlk_kp2 = 94
position sdlk_kp3 = 95
position sdlk_kp0 = 96
position sdlk_kp_equals = 97
position sdlk_kp_enter = 98

pub get_elem?-position : (name : KeyName) → get_elem? key_names (position name) ≡ some name
unfolding position
get_elem?-position sdlk_escape = refl
get_elem?-position _ = refl
