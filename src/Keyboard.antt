-- ===== src/Keyboard.antt =====
-- The keyboard of src/dev/keyboard.c: the scan codes of the keys, and the queue of scan codes. No
-- row of the memory map reaches `kb_read`.
pub mod Codes
pub mod Queue
use nemu_riscv.Base.{
  ℕ, ◌+◌, ◌%◌, not_eq, ◌==◌, leb, if◌then◌else◌, update, Option, none, some, List, [], ◌∷◌,
}
use nemu_riscv.Base.{Outcome, ok, abort, ◌>>=◌, ◌>>◌, cpu_assert}
use nemu_riscv.Sdl.{Sdl, KeyName, key_names, EventType, sdl_keyup}
use nemu_riscv.Sdl.Switch.{find_key}
use nemu_riscv.Sdl.{
  sdlk_escape, sdlk_f1, sdlk_f2, sdlk_f3, sdlk_f4, sdlk_f5, sdlk_f6, sdlk_f7, sdlk_f8, sdlk_f9,
  sdlk_f10, sdlk_f11, sdlk_f12, sdlk_scrollock, sdlk_backquote, sdlk_1, sdlk_2, sdlk_3, sdlk_4,
  sdlk_5, sdlk_6, sdlk_7, sdlk_8, sdlk_9, sdlk_0, sdlk_minus, sdlk_equals, sdlk_backspace, sdlk_tab,
  sdlk_q, sdlk_w, sdlk_e, sdlk_r, sdlk_t, sdlk_y, sdlk_u, sdlk_i, sdlk_o, sdlk_p, sdlk_leftbracket,
  sdlk_rightbracket, sdlk_slash, sdlk_capslock, sdlk_a, sdlk_s, sdlk_d, sdlk_f, sdlk_g, sdlk_h,
  sdlk_j, sdlk_k, sdlk_l, sdlk_semicolon, sdlk_quote, sdlk_return, sdlk_lshift, sdlk_z, sdlk_x,
  sdlk_c, sdlk_v, sdlk_b, sdlk_n, sdlk_m, sdlk_comma, sdlk_period, sdlk_backslash, sdlk_rshift,
  sdlk_lctrl, sdlk_lalt, sdlk_space, sdlk_ralt, sdlk_rctrl, sdlk_insert, sdlk_home, sdlk_pageup,
  sdlk_delete, sdlk_end, sdlk_pagedown, sdlk_up, sdlk_left, sdlk_down, sdlk_right, sdlk_numlock,
  sdlk_kp_divide, sdlk_kp_multiply, sdlk_kp_minus, sdlk_kp_plus, sdlk_kp7, sdlk_kp8, sdlk_kp9,
  sdlk_kp4, sdlk_kp5, sdlk_kp6, sdlk_kp1, sdlk_kp2, sdlk_kp3, sdlk_kp0, sdlk_kp_equals,
  sdlk_kp_enter,
}

abbrev pub keyboard_queue_len : ℕ
keyboard_queue_len = 1024

abbrev pub kb_code : ℕ
kb_code = 0x0

abbrev pub kb_stat : ℕ
kb_stat = 0x4

abbrev pub kb_size : ℕ
kb_size = 0x10

-- `scancode_t`
pub record Scancode : Type 0 where
  pub downcode : ℕ
  pub upcode : ℕ

-- The cases of `SDLK_to_scancode`.
unfoldable pub scancode_of : KeyName → Scancode
scancode_of sdlk_escape = record { downcode = 0x76; upcode = 0xF076 }
scancode_of sdlk_f1 = record { downcode = 0x05; upcode = 0xF005 }
scancode_of sdlk_f2 = record { downcode = 0x06; upcode = 0xF006 }
scancode_of sdlk_f3 = record { downcode = 0x04; upcode = 0xF004 }
scancode_of sdlk_f4 = record { downcode = 0x0C; upcode = 0xF00C }
scancode_of sdlk_f5 = record { downcode = 0x03; upcode = 0xF003 }
scancode_of sdlk_f6 = record { downcode = 0x0B; upcode = 0xF00B }
scancode_of sdlk_f7 = record { downcode = 0x83; upcode = 0xF083 }
scancode_of sdlk_f8 = record { downcode = 0x0A; upcode = 0xF00A }
scancode_of sdlk_f9 = record { downcode = 0x01; upcode = 0xF001 }
scancode_of sdlk_f10 = record { downcode = 0x09; upcode = 0xF009 }
scancode_of sdlk_f11 = record { downcode = 0x78; upcode = 0xF078 }
scancode_of sdlk_f12 = record { downcode = 0x07; upcode = 0xF007 }
scancode_of sdlk_scrollock = record { downcode = 0x7E; upcode = 0xF07E }
scancode_of sdlk_backquote = record { downcode = 0x0E; upcode = 0xF00E }
scancode_of sdlk_1 = record { downcode = 0x16; upcode = 0xF016 }
scancode_of sdlk_2 = record { downcode = 0x1E; upcode = 0xF01E }
scancode_of sdlk_3 = record { downcode = 0x26; upcode = 0xF026 }
scancode_of sdlk_4 = record { downcode = 0x25; upcode = 0xF025 }
scancode_of sdlk_5 = record { downcode = 0x2E; upcode = 0xF02E }
scancode_of sdlk_6 = record { downcode = 0x36; upcode = 0xF036 }
scancode_of sdlk_7 = record { downcode = 0x3D; upcode = 0xF03D }
scancode_of sdlk_8 = record { downcode = 0x3E; upcode = 0xF03E }
scancode_of sdlk_9 = record { downcode = 0x46; upcode = 0xF046 }
scancode_of sdlk_0 = record { downcode = 0x45; upcode = 0xF045 }
scancode_of sdlk_minus = record { downcode = 0x4E; upcode = 0xF04E }
scancode_of sdlk_equals = record { downcode = 0x55; upcode = 0xF055 }
scancode_of sdlk_backspace = record { downcode = 0x66; upcode = 0xF066 }
scancode_of sdlk_tab = record { downcode = 0x0D; upcode = 0xF00D }
scancode_of sdlk_q = record { downcode = 0x15; upcode = 0xF015 }
scancode_of sdlk_w = record { downcode = 0x1D; upcode = 0xF01D }
scancode_of sdlk_e = record { downcode = 0x24; upcode = 0xF024 }
scancode_of sdlk_r = record { downcode = 0x2D; upcode = 0xF02D }
scancode_of sdlk_t = record { downcode = 0x2C; upcode = 0xF02C }
scancode_of sdlk_y = record { downcode = 0x35; upcode = 0xF035 }
scancode_of sdlk_u = record { downcode = 0x3C; upcode = 0xF03C }
scancode_of sdlk_i = record { downcode = 0x43; upcode = 0xF043 }
scancode_of sdlk_o = record { downcode = 0x44; upcode = 0xF044 }
scancode_of sdlk_p = record { downcode = 0x4D; upcode = 0xF04D }
scancode_of sdlk_leftbracket = record { downcode = 0x54; upcode = 0xF054 }
scancode_of sdlk_rightbracket = record { downcode = 0x5B; upcode = 0xF05B }
scancode_of sdlk_slash = record { downcode = 0x5D; upcode = 0xF05D }
scancode_of sdlk_capslock = record { downcode = 0x58; upcode = 0xF058 }
scancode_of sdlk_a = record { downcode = 0x1C; upcode = 0xF01C }
scancode_of sdlk_s = record { downcode = 0x1B; upcode = 0xF01B }
scancode_of sdlk_d = record { downcode = 0x23; upcode = 0xF023 }
scancode_of sdlk_f = record { downcode = 0x2B; upcode = 0xF02B }
scancode_of sdlk_g = record { downcode = 0x34; upcode = 0xF034 }
scancode_of sdlk_h = record { downcode = 0x33; upcode = 0xF033 }
scancode_of sdlk_j = record { downcode = 0x3B; upcode = 0xF03B }
scancode_of sdlk_k = record { downcode = 0x42; upcode = 0xF042 }
scancode_of sdlk_l = record { downcode = 0x4B; upcode = 0xF04B }
scancode_of sdlk_semicolon = record { downcode = 0x4C; upcode = 0xF04C }
scancode_of sdlk_quote = record { downcode = 0x52; upcode = 0xF052 }
scancode_of sdlk_return = record { downcode = 0x5A; upcode = 0xF05A }
scancode_of sdlk_lshift = record { downcode = 0x12; upcode = 0xF012 }
scancode_of sdlk_z = record { downcode = 0x1A; upcode = 0xF01A }
scancode_of sdlk_x = record { downcode = 0x22; upcode = 0xF022 }
scancode_of sdlk_c = record { downcode = 0x21; upcode = 0xF021 }
scancode_of sdlk_v = record { downcode = 0x2A; upcode = 0xF02A }
scancode_of sdlk_b = record { downcode = 0x32; upcode = 0xF032 }
scancode_of sdlk_n = record { downcode = 0x31; upcode = 0xF031 }
scancode_of sdlk_m = record { downcode = 0x3A; upcode = 0xF03A }
scancode_of sdlk_comma = record { downcode = 0x41; upcode = 0xF041 }
scancode_of sdlk_period = record { downcode = 0x49; upcode = 0xF049 }
scancode_of sdlk_backslash = record { downcode = 0x4A; upcode = 0xF04A }
scancode_of sdlk_rshift = record { downcode = 0x59; upcode = 0xF059 }
scancode_of sdlk_lctrl = record { downcode = 0x14; upcode = 0xF014 }
scancode_of sdlk_lalt = record { downcode = 0x11; upcode = 0xF011 }
scancode_of sdlk_space = record { downcode = 0x29; upcode = 0xF029 }
scancode_of sdlk_ralt = record { downcode = 0xE011; upcode = 0xE0F011 }
scancode_of sdlk_rctrl = record { downcode = 0xE014; upcode = 0xE0F014 }
scancode_of sdlk_insert = record { downcode = 0xE070; upcode = 0xE0F070 }
scancode_of sdlk_home = record { downcode = 0xE06C; upcode = 0xE0F06C }
scancode_of sdlk_pageup = record { downcode = 0xE07D; upcode = 0xE0F07D }
scancode_of sdlk_delete = record { downcode = 0xE071; upcode = 0xE0F071 }
scancode_of sdlk_end = record { downcode = 0xE069; upcode = 0xE0F069 }
scancode_of sdlk_pagedown = record { downcode = 0xE07A; upcode = 0xE0F07A }
scancode_of sdlk_up = record { downcode = 0xE075; upcode = 0xE0F075 }
scancode_of sdlk_left = record { downcode = 0xE06B; upcode = 0xE0F06B }
scancode_of sdlk_down = record { downcode = 0xE072; upcode = 0xE0F072 }
scancode_of sdlk_right = record { downcode = 0xE074; upcode = 0xE0F074 }
scancode_of sdlk_numlock = record { downcode = 0x77; upcode = 0xF077 }
scancode_of sdlk_kp_divide = record { downcode = 0xE04A; upcode = 0xE0F04A }
scancode_of sdlk_kp_multiply = record { downcode = 0x7C; upcode = 0xF07C }
scancode_of sdlk_kp_minus = record { downcode = 0x7B; upcode = 0xF07B }
scancode_of sdlk_kp_plus = record { downcode = 0x79; upcode = 0xF079 }
scancode_of sdlk_kp7 = record { downcode = 0x6C; upcode = 0xF06C }
scancode_of sdlk_kp8 = record { downcode = 0x75; upcode = 0xF075 }
scancode_of sdlk_kp9 = record { downcode = 0x7D; upcode = 0xF07D }
scancode_of sdlk_kp4 = record { downcode = 0x6B; upcode = 0xF06B }
scancode_of sdlk_kp5 = record { downcode = 0x73; upcode = 0xF073 }
scancode_of sdlk_kp6 = record { downcode = 0x74; upcode = 0xF074 }
scancode_of sdlk_kp1 = record { downcode = 0x69; upcode = 0xF069 }
scancode_of sdlk_kp2 = record { downcode = 0x72; upcode = 0xF072 }
scancode_of sdlk_kp3 = record { downcode = 0x7A; upcode = 0xF07A }
scancode_of sdlk_kp0 = record { downcode = 0x70; upcode = 0xF070 }
scancode_of sdlk_kp_equals = record { downcode = 0x71; upcode = 0xF071 }
scancode_of sdlk_kp_enter = record { downcode = 0xE05A; upcode = 0xE0F05A }

unfoldable pub sdlk_to_scancode : Sdl → ℕ → Scancode
unfolding scancode_of find_key
sdlk_to_scancode sdl key = elim (find_key sdl key_names key) [
  | none ↦ record { downcode = 0; upcode = 0 }
  | some name ↦ scancode_of name
]

pub record Keyboard : Type 0 where
  pub keyboard_queue : ℕ → ℕ
  pub keyboard_f : ℕ
  pub keyboard_r : ℕ

-- The scan code that an event of this type sends.
abbrev pub code_sent : EventType → Scancode → ℕ
code_sent sdl_keyup c = c.upcode
code_sent _ c = c.downcode

-- One scan code into the queue, unless it is 0 or the queue is full.
unfoldable pub enqueue_code : Keyboard → ℕ → Keyboard
enqueue_code k scancode =
    let next = (k.keyboard_r + 1) % keyboard_queue_len in
    let stored = record k {
      keyboard_queue = update k.keyboard_queue k.keyboard_r scancode;
      keyboard_r = next;
    } in
    if scancode == 0 then k else if not_eq next k.keyboard_f then stored else k

unfoldable pub keyboard_enqueue : Sdl → Keyboard → EventType → ℕ → Keyboard
unfolding enqueue_code sdlk_to_scancode
keyboard_enqueue sdl k type key =
    if leb sdl.sdlk_last key then k else enqueue_code k (code_sent type (sdlk_to_scancode sdl key))

unfoldable pub kb_read : Keyboard → ℕ → ℕ → Outcome (ℕ × Keyboard)
kb_read k addr len = do
  cpu_assert (leb addr kb_size)
  cpu_assert (len == 4)
  if addr == kb_stat
      then ok (if k.keyboard_f == k.keyboard_r then 0 else 1, k)
      else if addr == kb_code
      then ok (
        k.keyboard_queue k.keyboard_f,
        record k { keyboard_f = (k.keyboard_f + 1) % keyboard_queue_len },
      )
      else abort
