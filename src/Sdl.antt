-- ===== src/Sdl.antt =====
-- What src/dev/keyboard.c, src/dev/serial.c and src/device.c take from SDL: the key symbols, the
-- types of events, and the event that a poll leaves. The values of the symbols are SDL's and so a
-- parameter, with the laws that a `switch` over them needs to compile, and that SDLK_LAST is behind
-- them.
pub mod Switch
pub mod Names
use nemu_riscv.Base.{ℕ, ◌<◌, ◌≡◌, List, [], ◌∷◌}

-- The symbols that the source names.
pub data KeyName : Type 0 where
  sdlk_escape sdlk_f1 sdlk_f2 sdlk_f3 sdlk_f4 sdlk_f5 sdlk_f6 sdlk_f7 sdlk_f8 sdlk_f9 sdlk_f10 :
      KeyName
  sdlk_f11 sdlk_f12 sdlk_scrollock sdlk_backquote sdlk_1 sdlk_2 sdlk_3 sdlk_4 sdlk_5 sdlk_6 :
      KeyName
  sdlk_7 sdlk_8 sdlk_9 sdlk_0 sdlk_minus sdlk_equals sdlk_backspace sdlk_tab sdlk_q sdlk_w : KeyName
  sdlk_e sdlk_r sdlk_t sdlk_y sdlk_u sdlk_i sdlk_o sdlk_p sdlk_leftbracket sdlk_rightbracket :
      KeyName
  sdlk_slash sdlk_capslock sdlk_a sdlk_s sdlk_d sdlk_f sdlk_g sdlk_h sdlk_j sdlk_k sdlk_l : KeyName
  sdlk_semicolon sdlk_quote sdlk_return sdlk_lshift sdlk_z sdlk_x sdlk_c sdlk_v sdlk_b sdlk_n :
      KeyName
  sdlk_m sdlk_comma sdlk_period sdlk_backslash sdlk_rshift sdlk_lctrl sdlk_lalt sdlk_space : KeyName
  sdlk_ralt sdlk_rctrl sdlk_insert sdlk_home sdlk_pageup sdlk_delete sdlk_end sdlk_pagedown :
      KeyName
  sdlk_up sdlk_left sdlk_down sdlk_right sdlk_numlock sdlk_kp_divide sdlk_kp_multiply : KeyName
  sdlk_kp_minus sdlk_kp_plus sdlk_kp7 sdlk_kp8 sdlk_kp9 sdlk_kp4 sdlk_kp5 sdlk_kp6 sdlk_kp1 :
      KeyName
  sdlk_kp2 sdlk_kp3 sdlk_kp0 sdlk_kp_equals sdlk_kp_enter : KeyName

pub record Sdl : Type 0 where
  pub keysym : KeyName → ℕ
  pub sdlk_last : ℕ
  pub keysym_injective : (j k : KeyName) → keysym j ≡ keysym k → j ≡ k
  pub keysym_lt : (k : KeyName) → keysym k < sdlk_last

-- `SDL_EventType`, by the types that `device_update` tells apart.
pub data EventType : Type 0 where
  sdl_keydown sdl_keyup sdl_quit other_event : EventType

-- `SDL_Event` after `SDL_PollEvent`; `sym` is `event.key.keysym.sym`.
pub record Event : Type 0 where
  pub event_type : EventType
  pub sym : ℕ

-- In the order of the cases in src/dev/keyboard.c.
abbrev pub key_names : List KeyName
key_names =
    sdlk_escape ∷ sdlk_f1 ∷ sdlk_f2 ∷ sdlk_f3 ∷ sdlk_f4 ∷ sdlk_f5 ∷ sdlk_f6 ∷ sdlk_f7 ∷ sdlk_f8
    ∷ sdlk_f9 ∷ sdlk_f10 ∷ sdlk_f11 ∷ sdlk_f12 ∷ sdlk_scrollock ∷ sdlk_backquote ∷ sdlk_1 ∷ sdlk_2
    ∷ sdlk_3 ∷ sdlk_4 ∷ sdlk_5 ∷ sdlk_6 ∷ sdlk_7 ∷ sdlk_8 ∷ sdlk_9 ∷ sdlk_0 ∷ sdlk_minus
    ∷ sdlk_equals ∷ sdlk_backspace ∷ sdlk_tab ∷ sdlk_q ∷ sdlk_w ∷ sdlk_e ∷ sdlk_r ∷ sdlk_t ∷ sdlk_y
    ∷ sdlk_u ∷ sdlk_i ∷ sdlk_o ∷ sdlk_p ∷ sdlk_leftbracket ∷ sdlk_rightbracket ∷ sdlk_slash
    ∷ sdlk_capslock ∷ sdlk_a ∷ sdlk_s ∷ sdlk_d ∷ sdlk_f ∷ sdlk_g ∷ sdlk_h ∷ sdlk_j ∷ sdlk_k ∷ sdlk_l
    ∷ sdlk_semicolon ∷ sdlk_quote ∷ sdlk_return ∷ sdlk_lshift ∷ sdlk_z ∷ sdlk_x ∷ sdlk_c ∷ sdlk_v
    ∷ sdlk_b ∷ sdlk_n ∷ sdlk_m ∷ sdlk_comma ∷ sdlk_period ∷ sdlk_backslash ∷ sdlk_rshift
    ∷ sdlk_lctrl ∷ sdlk_lalt ∷ sdlk_space ∷ sdlk_ralt ∷ sdlk_rctrl ∷ sdlk_insert ∷ sdlk_home
    ∷ sdlk_pageup ∷ sdlk_delete ∷ sdlk_end ∷ sdlk_pagedown ∷ sdlk_up ∷ sdlk_left ∷ sdlk_down
    ∷ sdlk_right ∷ sdlk_numlock ∷ sdlk_kp_divide ∷ sdlk_kp_multiply ∷ sdlk_kp_minus ∷ sdlk_kp_plus
    ∷ sdlk_kp7 ∷ sdlk_kp8 ∷ sdlk_kp9 ∷ sdlk_kp4 ∷ sdlk_kp5 ∷ sdlk_kp6 ∷ sdlk_kp1 ∷ sdlk_kp2
    ∷ sdlk_kp3 ∷ sdlk_kp0 ∷ sdlk_kp_equals ∷ sdlk_kp_enter ∷ []
