-- ===== src/Serial/Keys.antt =====
-- What a key event sends to the UART (SDLK_to_ascii and serial_enqueue of src/dev/serial.c).
pub mod Typing
use nemu_riscv.Base.{
  ℕ, Bool, true, false, leb, if◌then◌else◌, update, Option, none, some, List, [], ◌∷◌,
}
use nemu_riscv.Sdl.{Sdl, KeyName, key_names, EventType, sdl_keydown, sdl_keyup}
use nemu_riscv.Sdl.Switch.{find_key}
use nemu_riscv.Sdl.{
  sdlk_escape, sdlk_f1, sdlk_f2, sdlk_f3, sdlk_f4, sdlk_f5, sdlk_f6, sdlk_f7, sdlk_f8, sdlk_f9,
  sdlk_f10, sdlk_f11, sdlk_f12, sdlk_scrollock, sdlk_backquote, sdlk_1, sdlk_2, sdlk_3, sdlk_4,
  sdlk_5, sdlk_6, sdlk_7, sdlk_8, sdlk_9, sdlk_0, sdlk_minus, sdlk_equals, sdlk_backspace, sdlk_tab,
  sdlk_q, sdlk_w, sdlk_e, sdlk_r, sdlk_t, sdlk_y, sdlk_u, sdlk_i, sdlk_o, sdlk_p, sdlk_leftbracket,
  sdlk_rightbracket, sdlk_slash, sdlk_capslock, sdlk_a, sdlk_s, sdlk_d, sdlk_f, sdlk_g, sdlk_h,
  sdlk_j, sdlk_k, sdlk_l, sdlk_semicolon, sdlk_quote, sdlk_return, sdlk_lshift, sdlk_z, sdlk_x,
  sdlk_c, sdlk_v, sdlk_b, sdlk_n, sdlk_m, sdlk_comma, sdlk_period, sdlk_backslash, sdlk_rshift,
  sdlk_lctrl, sdlk_lalt, sdlk_space, sdlk_ralt, sdlk_rctrl, sdlk_insert, sdlk_home, sdlk_pageup,
  sdlk_delete, sdlk_end, sdlk_pagedown, sdlk_up, sdlk_left, sdlk_down, sdlk_right, sdlk_numlock,
  sdlk_kp_divide, sdlk_kp_multiply, sdlk_kp_minus, sdlk_kp_plus, sdlk_kp7, sdlk_kp8, sdlk_kp9,
  sdlk_kp4, sdlk_kp5, sdlk_kp6, sdlk_kp1, sdlk_kp2, sdlk_kp3, sdlk_kp0, sdlk_kp_equals,
  sdlk_kp_enter,
}
use nemu_riscv.Serial.{Serial, enqueue_string}

-- The cases of `SDLK_to_ascii`: the characters before the terminating 0.
unfoldable pub ascii_of : KeyName → List ℕ
ascii_of sdlk_escape = 0x1b ∷ []
ascii_of sdlk_f1 = 0x1b ∷ b'O' ∷ b'P' ∷ []
ascii_of sdlk_f2 = 0x1b ∷ b'O' ∷ b'Q' ∷ []
ascii_of sdlk_f3 = 0x1b ∷ b'O' ∷ b'R' ∷ []
ascii_of sdlk_f4 = 0x1b ∷ b'O' ∷ b'S' ∷ []
ascii_of sdlk_f5 = 0x1b ∷ b'[' ∷ b'1' ∷ b'5' ∷ b'~' ∷ []
ascii_of sdlk_f6 = 0x1b ∷ b'[' ∷ b'1' ∷ b'7' ∷ b'~' ∷ []
ascii_of sdlk_f7 = 0x1b ∷ b'[' ∷ b'1' ∷ b'8' ∷ b'~' ∷ []
ascii_of sdlk_f8 = 0x1b ∷ b'[' ∷ b'1' ∷ b'9' ∷ b'~' ∷ []
ascii_of sdlk_f9 = 0x1b ∷ b'[' ∷ b'2' ∷ b'0' ∷ b'~' ∷ []
ascii_of sdlk_f10 = 0x1b ∷ b'[' ∷ b'2' ∷ b'1' ∷ b'~' ∷ []
ascii_of sdlk_f11 = 0x1b ∷ b'[' ∷ b'2' ∷ b'2' ∷ b'~' ∷ []
ascii_of sdlk_f12 = 0x1b ∷ b'[' ∷ b'2' ∷ b'4' ∷ b'~' ∷ []
ascii_of sdlk_backquote = b'`' ∷ []
ascii_of sdlk_1 = b'1' ∷ []
ascii_of sdlk_2 = b'2' ∷ []
ascii_of sdlk_3 = b'3' ∷ []
ascii_of sdlk_4 = b'4' ∷ []
ascii_of sdlk_5 = b'5' ∷ []
ascii_of sdlk_6 = b'6' ∷ []
ascii_of sdlk_7 = b'7' ∷ []
ascii_of sdlk_8 = b'8' ∷ []
ascii_of sdlk_9 = b'9' ∷ []
ascii_of sdlk_0 = b'0' ∷ []
ascii_of sdlk_minus = b'-' ∷ []
ascii_of sdlk_equals = b'=' ∷ []
ascii_of sdlk_backspace = 0x8 ∷ []
ascii_of sdlk_tab = 0x9 ∷ []
ascii_of sdlk_q = b'q' ∷ []
ascii_of sdlk_w = b'w' ∷ []
ascii_of sdlk_e = b'e' ∷ []
ascii_of sdlk_r = b'r' ∷ []
ascii_of sdlk_t = b't' ∷ []
ascii_of sdlk_y = b'y' ∷ []
ascii_of sdlk_u = b'u' ∷ []
ascii_of sdlk_i = b'i' ∷ []
ascii_of sdlk_o = b'o' ∷ []
ascii_of sdlk_p = b'p' ∷ []
ascii_of sdlk_leftbracket = b'{' ∷ []
ascii_of sdlk_rightbracket = b'}' ∷ []
ascii_of sdlk_slash = 0x5c ∷ []
ascii_of sdlk_a = b'a' ∷ []
ascii_of sdlk_s = b's' ∷ []
ascii_of sdlk_d = b'd' ∷ []
ascii_of sdlk_f = b'f' ∷ []
ascii_of sdlk_g = b'g' ∷ []
ascii_of sdlk_h = b'h' ∷ []
ascii_of sdlk_j = b'j' ∷ []
ascii_of sdlk_k = b'k' ∷ []
ascii_of sdlk_l = b'l' ∷ []
ascii_of sdlk_semicolon = b';' ∷ []
ascii_of sdlk_quote = 0x27 ∷ []
ascii_of sdlk_return = 0xa ∷ []
ascii_of sdlk_lshift = []
ascii_of sdlk_z = b'z' ∷ []
ascii_of sdlk_x = b'x' ∷ []
ascii_of sdlk_c = b'c' ∷ []
ascii_of sdlk_v = b'v' ∷ []
ascii_of sdlk_b = b'b' ∷ []
ascii_of sdlk_n = b'n' ∷ []
ascii_of sdlk_m = b'm' ∷ []
ascii_of sdlk_comma = b';' ∷ []
ascii_of sdlk_period = b'.' ∷ []
ascii_of sdlk_backslash = b'/' ∷ []
ascii_of sdlk_rshift = []
ascii_of sdlk_lctrl = []
ascii_of sdlk_lalt = []
ascii_of sdlk_space = b' ' ∷ []
ascii_of sdlk_ralt = []
ascii_of sdlk_rctrl = []
ascii_of sdlk_insert = 0x1b ∷ b'[' ∷ b'2' ∷ b'~' ∷ []
ascii_of sdlk_home = 0x1b ∷ b'[' ∷ b'1' ∷ b'~' ∷ []
ascii_of sdlk_pageup = 0x1b ∷ b'[' ∷ b'5' ∷ b'~' ∷ []
ascii_of sdlk_delete = 0x7f ∷ []
ascii_of sdlk_end = 0x1b ∷ b'[' ∷ b'4' ∷ b'~' ∷ []
ascii_of sdlk_pagedown = 0x1b ∷ b'[' ∷ b'6' ∷ b'~' ∷ []
ascii_of sdlk_up = 0x1b ∷ b'[' ∷ b'A' ∷ []
ascii_of sdlk_left = 0x1b ∷ b'[' ∷ b'D' ∷ []
ascii_of sdlk_down = 0x1b ∷ b'[' ∷ b'B' ∷ []
ascii_of sdlk_right = 0x1b ∷ b'[' ∷ b'C' ∷ []
ascii_of sdlk_kp_divide = b'/' ∷ []
ascii_of sdlk_kp_multiply = b'*' ∷ []
ascii_of sdlk_kp_minus = b'-' ∷ []
ascii_of sdlk_kp_plus = b'+' ∷ []
ascii_of sdlk_kp7 = b'7' ∷ []
ascii_of sdlk_kp8 = b'8' ∷ []
ascii_of sdlk_kp9 = b'9' ∷ []
ascii_of sdlk_kp4 = b'4' ∷ []
ascii_of sdlk_kp5 = b'5' ∷ []
ascii_of sdlk_kp6 = b'6' ∷ []
ascii_of sdlk_kp1 = b'1' ∷ []
ascii_of sdlk_kp2 = b'2' ∷ []
ascii_of sdlk_kp3 = b'3' ∷ []
ascii_of sdlk_kp0 = b'0' ∷ []
ascii_of sdlk_kp_equals = b'=' ∷ []
ascii_of sdlk_kp_enter = 0xa ∷ []
ascii_of _ = []

unfoldable pub sdlk_to_ascii : Sdl → ℕ → List ℕ
unfolding ascii_of find_key
sdlk_to_ascii sdl key = elim (find_key sdl key_names key) [ none ↦ [] | some name ↦ ascii_of name ]

abbrev pub set_pressed : Serial → ℕ → Bool → Serial
set_pressed s key pressed = record s { sdlk_state = update s.sdlk_state key pressed }

-- The end of `serial_enqueue`: the key's characters into the queue.
unfoldable pub send_key : Sdl → Serial → ℕ → Serial
unfolding sdlk_to_ascii enqueue_string
send_key sdl s key = enqueue_string s (sdlk_to_ascii sdl key)

-- `serial_enqueue` of a key below SDLK_LAST.
unfoldable pub enqueue_event : Sdl → Serial → EventType → ℕ → Serial
unfolding send_key
enqueue_event sdl s sdl_keydown key =
    if s.sdlk_state key then s else send_key sdl (set_pressed s key true) key
enqueue_event sdl s sdl_keyup key = set_pressed s key false
enqueue_event sdl s _ key = send_key sdl s key

unfoldable pub serial_enqueue : Sdl → Serial → EventType → ℕ → Serial
unfolding enqueue_event
serial_enqueue sdl s type key = if leb sdl.sdlk_last key then s else enqueue_event sdl s type key
