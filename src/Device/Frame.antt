-- ===== src/Device/Frame.antt =====
-- What the timer signal does to the devices and the screen, and what it leaves alone
-- (device_update of src/device.c).
use nemu_riscv.Base.{
  ℕ, ◌+◌, ◌/◌, ◌%◌, ◌<◌, ◌≡◌, ◌≢◌, ◌∙◌, refl, ap, arith, Bool, true, ◌==◌, if◌then◌else◌, u64,
  Bool-cases, inl, inr,
}
use nemu_riscv.Base.{ok, >>=-eq-ok, >>-eq-ok, ok-injective, cpu_assert, Returns, Returns->>=}
use nemu_riscv.Sdl.{Sdl, Event, EventType, sdl_keydown, sdl_keyup, sdl_quit, other_event}
use nemu_riscv.Video.{update_screen, rgb_m12_to_m32, vmem_color}
use nemu_riscv.Video.Screen.{update_screen_lem}
use nemu_riscv.Serial.{Serial}
use nemu_riscv.Serial.Keys.{serial_enqueue}
use nemu_riscv.Keyboard.{Keyboard, keyboard_enqueue}
use nemu_riscv.Device.{World, device_update, refresh, handle_event, press_or_release, set_serial}

-- The machine is as before but for the UART.
abbrev pub SameButSerial : World → World → Type 0
SameButSerial w w' = w'.machine ≡ set_serial w.machine w'.machine.sys.serial

-- The screen is that of the machine's frame buffer, if the update falls due.
abbrev IsRefreshed : World → ℕ → ℕ → World → Type 0
IsRefreshed w x y w' =
    (w'.machine ≡ w.machine)
    × (w'.keyboard ≡ w.keyboard)
    × (w'.jiffy ≡ w.jiffy)
    × (w.jiffy % 4 ≡ 0
        → w'.pixels x y ≡ rgb_m12_to_m32 (vmem_color w.machine.sys.vmem (y / 2) (x / 2)))

refresh-IsRefreshed :
    (w : World) (x y : ℕ) → x < 800 → y < 600 → Returns (IsRefreshed w x y) (refresh w)
unfolding refresh
refresh-IsRefreshed w x y hx hy = elim (Bool-cases (w.jiffy % 4 == 0)) [
  | inl due ↦ rw due (
      Returns->>= (IsRefreshed w x y) (update_screen w.machine.sys.vmem w.pixels) _
        (update_screen_lem w.machine.sys.vmem w.pixels x y hx hy)
        λ p shown. (refl, refl, refl, λ h. shown))
  | inr other ↦ rw other (refl, refl, refl, λ h. ground arith)
]

-- What the UART and the keyboard make of an event: a press and a release reach both.
abbrev pub serial_after : Sdl → EventType → ℕ → Serial → Serial
serial_after sdl sdl_keydown key s = serial_enqueue sdl s sdl_keydown key
serial_after sdl sdl_keyup key s = serial_enqueue sdl s sdl_keyup key
serial_after sdl sdl_quit key s = s
serial_after sdl other_event key s = s

abbrev pub keyboard_after : Sdl → EventType → ℕ → Keyboard → Keyboard
keyboard_after sdl sdl_keydown key k = keyboard_enqueue sdl k sdl_keydown key
keyboard_after sdl sdl_keyup key k = keyboard_enqueue sdl k sdl_keyup key
keyboard_after sdl sdl_quit key k = k
keyboard_after sdl other_event key k = k

abbrev IsHandled : Sdl → EventType → ℕ → World → World → Type 0
IsHandled sdl type key w w' =
    (w'.machine ≡ set_serial w.machine (serial_after sdl type key w.machine.sys.serial))
    × (w'.keyboard ≡ keyboard_after sdl type key w.keyboard)
    × (w'.pixels ≡ w.pixels)
    × (w'.jiffy ≡ w.jiffy)

handle_event-IsHandled :
    (sdl : Sdl) (type : EventType) (key : ℕ) (w : World)
    → type ≢ sdl_quit
    → Returns (IsHandled sdl type key w) (handle_event sdl type key w)
unfolding handle_event press_or_release
handle_event-IsHandled sdl sdl_keydown key w h = (refl, refl, refl, refl)
handle_event-IsHandled sdl sdl_keyup key w h = (refl, refl, refl, refl)
handle_event-IsHandled sdl sdl_quit key w h = absurd (h refl)
handle_event-IsHandled sdl other_event key w h = (refl, refl, refl, refl)

-- On an event that is not SDL_QUIT and with the timer set again, the handler of the timer signal
-- returns. It counts the jiffy. A press or a release of a key reaches the UART and the keyboard, in
-- the state that they were in, and another event neither. The rest of the machine is as before: the
-- CPU, the memory, the other devices, the queue of instructions and `nemu_state`. If the new jiffy is
-- a multiple of 4, then each pixel of the window shows its cell of the frame buffer.
pub device_update_lem :
    (sdl : Sdl) (event : Event) (w : World) (x y : ℕ)
    → event.event_type ≢ sdl_quit
    → x < 800
    → y < 600
    → Returns
        (λ w'.
          (w'.machine
            ≡ set_serial w.machine
                (serial_after sdl event.event_type event.sym w.machine.sys.serial))
          × (w'.keyboard ≡ keyboard_after sdl event.event_type event.sym w.keyboard)
          × (w'.jiffy ≡ u64 (w.jiffy + 1))
          × (u64 (w.jiffy + 1) % 4 ≡ 0
              → w'.pixels x y ≡ rgb_m12_to_m32 (vmem_color w.machine.sys.vmem (y / 2) (x / 2))))
        (device_update sdl event true w)
unfolding device_update
device_update_lem sdl event w x y h hx hy =
    let w0 : World = record w { jiffy = u64 (w.jiffy + 1) } in
    Returns->>= _ (refresh w0) _ (refresh-IsRefreshed w0 x y hx hy) λ w1 r1.
      Returns->>= _ (handle_event sdl event.event_type event.sym w1) _
        (handle_event-IsHandled sdl event.event_type event.sym w1 h)
        λ w2 r2.
          let (machine1, keyboard1, jiffy1, shown) = r1 in
          let (machine2, keyboard2, pixels2, jiffy2) = r2 in
          (
            machine2
                ∙ ap (λ m. set_serial m (serial_after sdl event.event_type event.sym m.sys.serial))
                    machine1,
            keyboard2 ∙ ap (keyboard_after sdl event.event_type event.sym) keyboard1,
            jiffy2 ∙ jiffy1,
            λ due. ap (λ p. p x y) pixels2 ∙ shown due,
          )

handle_event-SameButSerial :
    (sdl : Sdl) (type : EventType) (key : ℕ) (w w' : World)
    → handle_event sdl type key w ≡ ok w'
    → SameButSerial w w'
unfolding handle_event press_or_release
handle_event-SameButSerial sdl sdl_keydown key w w' e = rw (← (ok-injective e)) refl
handle_event-SameButSerial sdl sdl_keyup key w w' e = rw (← (ok-injective e)) refl
handle_event-SameButSerial sdl sdl_quit key w w' e = absurd (cc)
handle_event-SameButSerial sdl other_event key w w' e = rw (← (ok-injective e)) refl

refresh-machine : (w w' : World) → refresh w ≡ ok w' → w'.machine ≡ w.machine
unfolding refresh
refresh-machine w w' e =
    let (p, e1, e2) =
      >>=-eq-ok
        (if w.jiffy % 4 == 0 then update_screen w.machine.sys.vmem w.pixels else ok w.pixels) e in
    cc

-- A timer signal that returns has touched no more of the machine than the UART.
pub device_update-SameButSerial :
    (sdl : Sdl) (event : Event) (timer_set : Bool) (w w' : World)
    → device_update sdl event timer_set w ≡ ok w'
    → SameButSerial w w'
unfolding device_update
device_update-SameButSerial sdl event timer_set w w' e =
    let (w1, e1, f1) = >>=-eq-ok (refresh (record w { jiffy = u64 (w.jiffy + 1) })) e in
    let (w2, e2, f2) = >>=-eq-ok (handle_event sdl event.event_type event.sym w1) f1 in
    let (set, e3) = >>-eq-ok (cpu_assert timer_set) f2 in
    let same = handle_event-SameButSerial sdl event.event_type event.sym w1 w2 e2 in
    rw (← (ok-injective e3))
      (same ∙ ap (λ m. set_serial m w2.machine.sys.serial) (refresh-machine _ w1 e1))
