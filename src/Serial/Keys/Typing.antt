-- ===== src/Serial/Keys/Typing.antt =====
-- Typing at the UART (serial_enqueue of src/dev/serial.c): a press sends the key's characters once.
use nemu_riscv.Base.{ℕ, ◌+◌, ◌%◌, ◌≡◌, refl, ap, ◌∙◌, true, false, leb}
use nemu_riscv.Base.{update_self, List, [], ◌∷◌, ◌++◌, Bool-cases, inl, inr, not_eq}
use nemu_riscv.Base.{take}
use nemu_riscv.Sdl.{Sdl, sdl_keydown, sdl_keyup}
use nemu_riscv.Serial.{Serial, enqueue_string}
use nemu_riscv.Serial.Fifo.{
  IsFifo, contents, stored, enqueue_string-contents, enqueue_string-room, enqueue_string-full,
}
use nemu_riscv.Serial.Keys.{sdlk_to_ascii, serial_enqueue, send_key, set_pressed}

enqueue_string-sdlk_state_nil : (s : Serial) → (enqueue_string s []).sdlk_state ≡ s.sdlk_state
unfolding enqueue_string
enqueue_string-sdlk_state_nil s = refl

enqueue_string-sdlk_state :
    (s : Serial) (p : List ℕ) → (enqueue_string s p).sdlk_state ≡ s.sdlk_state
enqueue_string-sdlk_state s [] = enqueue_string-sdlk_state_nil s
enqueue_string-sdlk_state s (ch ∷ p) =
    elim (Bool-cases (not_eq ((s.serial_r + 1) % 1024) s.serial_f)) [
      | inl room ↦
          ap (λ t. t.sdlk_state) (enqueue_string-room s ch p room)
          ∙ enqueue_string-sdlk_state (stored s ch) p
      | inr full ↦ ap (λ t. t.sdlk_state) (enqueue_string-full s ch p full)
    ]

-- The queue after the characters of a key have been sent.
abbrev pub typed : Sdl → Serial → ℕ → List ℕ
typed sdl s key = take 1023 (contents s ++ sdlk_to_ascii sdl key)

send_key-contents :
    (sdl : Sdl) (s : Serial) (key : ℕ)
    → IsFifo s
    → IsFifo (send_key sdl s key)
      × (contents (send_key sdl s key) ≡ typed sdl s key)
      × ((send_key sdl s key).sdlk_state ≡ s.sdlk_state)
unfolding send_key
send_key-contents sdl s key h =
    let (fifo, same) = enqueue_string-contents s (sdlk_to_ascii sdl key) h in
    (fifo, same, enqueue_string-sdlk_state s (sdlk_to_ascii sdl key))

-- A key that is held down is ignored.
held_ignored :
    (sdl : Sdl) (s : Serial) (key : ℕ)
    → s.sdlk_state key ≡ true
    → serial_enqueue sdl s sdl_keydown key ≡ s
unfolding serial_enqueue
held_ignored sdl s key held = elim (Bool-cases (leb sdl.sdlk_last key)) [
  | inl outside ↦ rw outside refl
  | inr inside ↦ rw (inside, held) refl
]

-- Where both indices of the queue are inside the array, and the key is below SDLK_LAST and not held
-- down: a press appends the key's characters to the queue (cut at 1023) and notes that it is held.
-- Presses that follow change nothing, until a release, which leaves the queue alone and notes that
-- the key is up again.
pub serial_enqueue_press :
    (sdl : Sdl) (s : Serial) (key : ℕ)
    → IsFifo s
    → leb sdl.sdlk_last key ≡ false
    → s.sdlk_state key ≡ false
    → (s' : Serial) × (serial_enqueue sdl s sdl_keydown key ≡ s')
      × IsFifo s'
      × (contents s' ≡ typed sdl s key)
      × (serial_enqueue sdl s' sdl_keydown key ≡ s')
      × (contents (serial_enqueue sdl s' sdl_keyup key) ≡ contents s')
      × ((serial_enqueue sdl s' sdl_keyup key).sdlk_state key ≡ false)
unfolding serial_enqueue
serial_enqueue_press sdl s key h inside up =
    let s1 = set_pressed s key true in
    let s' = send_key sdl s1 key in
    let (fifo, same, state) = send_key-contents sdl s1 key h in
    let held : s'.sdlk_state key ≡ true =
      ap (λ f. f key) state ∙ update_self s.sdlk_state key true in
    (
      s',
      rw (inside, up) refl,
      fifo,
      same,
      unfold serial_enqueue in held_ignored sdl s' key held,
      rw inside refl,
      rw inside (update_self s'.sdlk_state key false),
    )
