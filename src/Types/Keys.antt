-- ===== src/Types/Keys.antt =====
-- A key event keeps the types of the UART (serial_enqueue of src/dev/serial.c).
use nemu_riscv.Base.{ℕ, ◌+◌, ◌%◌, ◌^◌, ◌<◌, arith, Bool, true, false, leb, if-ensures, not_eq}
use nemu_riscv.Base.{List, [], ◌∷◌, none, some, Option}
use nemu_riscv.Sdl.{
  Sdl, KeyName, sdlk_escape, EventType, key_names, sdl_keydown, sdl_keyup, sdl_quit, other_event,
}
use nemu_riscv.Sdl.Switch.{find_key}
use nemu_riscv.Serial.{Serial, enqueue_string}
use nemu_riscv.Serial.Keys.{
  ascii_of, sdlk_to_ascii, set_pressed, send_key, enqueue_event, serial_enqueue,
}
use nemu_riscv.Serial.Fifo.{stored}
use nemu_riscv.Types.{IsTypedSerial}

abbrev AllWords : List ℕ → Type 0
AllWords [] = Unit {0}
AllWords (ch ∷ p) = (ch < 2 ^ 32) × AllWords p

ascii_of-AllWords : (name : KeyName) → AllWords (ascii_of name)
unfolding ascii_of
ascii_of-AllWords sdlk_escape = omega arith
ascii_of-AllWords _ = omega arith

found-AllWords : (o : Option KeyName) → AllWords (elim o [ none ↦ [] | some name ↦ ascii_of name ])
found-AllWords none = tt
found-AllWords (some name) = ascii_of-AllWords name

enqueue_string-IsTyped :
    (s : Serial) (p : List ℕ) → IsTypedSerial s → AllWords p → IsTypedSerial (enqueue_string s p)
unfolding enqueue_string
enqueue_string-IsTyped s [] h hp = h
enqueue_string-IsTyped s (ch ∷ p) h hp =
    if-ensures IsTypedSerial (not_eq ((s.serial_r + 1) % 1024) s.serial_f)
      (enqueue_string-IsTyped (stored s ch) p
        (record {
          queue = λ i. ground (arith, h.queue i);
          front = h.front;
          rear = omega arith;
          ctrl = h.ctrl;
        })
        hp.1)
      h

set_pressed-IsTyped :
    (s : Serial) (key : ℕ) (b : Bool) → IsTypedSerial s → IsTypedSerial (set_pressed s key b)
set_pressed-IsTyped s key b h = record {
  queue = h.queue;
  front = h.front;
  rear = h.rear;
  ctrl = h.ctrl;
}

send_key-IsTyped :
    (sdl : Sdl) (s : Serial) (key : ℕ) → IsTypedSerial s → IsTypedSerial (send_key sdl s key)
unfolding send_key sdlk_to_ascii
send_key-IsTyped sdl s key h =
    enqueue_string-IsTyped s _ h (found-AllWords (find_key sdl key_names key))

enqueue_event-IsTyped :
    (sdl : Sdl) (s : Serial) (type : EventType) (key : ℕ)
    → IsTypedSerial s
    → IsTypedSerial (enqueue_event sdl s type key)
unfolding enqueue_event
enqueue_event-IsTyped sdl s sdl_keydown key h =
    if-ensures IsTypedSerial (s.sdlk_state key) h
      (send_key-IsTyped sdl (set_pressed s key true) key (set_pressed-IsTyped s key true h))
enqueue_event-IsTyped sdl s sdl_keyup key h = set_pressed-IsTyped s key false h
enqueue_event-IsTyped sdl s sdl_quit key h = send_key-IsTyped sdl s key h
enqueue_event-IsTyped sdl s other_event key h = send_key-IsTyped sdl s key h

pub serial_enqueue-IsTyped :
    (sdl : Sdl) (s : Serial) (type : EventType) (key : ℕ)
    → IsTypedSerial s
    → IsTypedSerial (serial_enqueue sdl s type key)
unfolding serial_enqueue
serial_enqueue-IsTyped sdl s type key h =
    if-ensures IsTypedSerial (leb sdl.sdlk_last key) h (enqueue_event-IsTyped sdl s type key h)
