-- ===== src/Device.antt =====
-- The timer signal of src/device.c: the screen every fourth time, one SDL event, and the timer
-- again; and its set-up. SDL and the timer are outside: the event that the poll leaves, and whether
-- the calls succeed, are arguments. (The source does not look at what `SDL_PollEvent` returns: with
-- no event, it goes by whatever the variable holds.) `sigint_handler` is that of
-- src/monitor/monitor.c.
pub mod Frame
pub mod Interleave
use nemu_riscv.Base.{
  ℕ, List, [], ◌∷◌, ◌+◌, ◌/◌, ◌%◌, Bool, ◌==◌, if◌then◌else◌, u64, Outcome, ok, exit, ◌>>=◌, ◌>>◌,
  cpu_assert,
}
use nemu_riscv.Sdl.{Sdl, Event, EventType, sdl_keydown, sdl_keyup, sdl_quit, other_event}
use nemu_riscv.Serial.{Serial}
use nemu_riscv.Serial.Keys.{serial_enqueue}
use nemu_riscv.Keyboard.{Keyboard, keyboard_enqueue}
use nemu_riscv.Video.{Pixels, update_screen}
use nemu_riscv.System.{System, nemu_stop}
use nemu_riscv.Run.{Machine, set_state}

abbrev pub timer_hz : ℕ
timer_hz = 100

abbrev pub vga_hz : ℕ
vga_hz = 25

-- The machine, and what only the timer signal touches.
pub record World : Type 0 where
  pub machine : Machine
  pub keyboard : Keyboard
  pub pixels : Pixels
  pub jiffy : ℕ

abbrev pub set_serial : Machine → Serial → Machine
set_serial m serial = record m { sys = record (m.sys) { serial = serial } }

unfoldable pub refresh : World → Outcome World
refresh w = do
  pixels' ←
      (if w.jiffy % (timer_hz / vga_hz) == 0
        then update_screen w.machine.sys.vmem w.pixels
        else ok w.pixels)
  ok (record w { pixels = pixels' })

-- A key event goes to the UART and to the keyboard.
unfoldable pub press_or_release : Sdl → EventType → ℕ → World → World
press_or_release sdl type key w = record w {
  machine = set_serial w.machine (serial_enqueue sdl w.machine.sys.serial type key);
  keyboard = keyboard_enqueue sdl w.keyboard type key;
}

unfoldable pub handle_event : Sdl → EventType → ℕ → World → Outcome World
unfolding press_or_release
handle_event sdl sdl_keyup key w = ok (press_or_release sdl sdl_keyup key w)
handle_event sdl sdl_keydown key w = ok (press_or_release sdl sdl_keydown key w)
handle_event sdl sdl_quit key w = exit
handle_event sdl other_event key w = ok w

unfoldable pub device_update : Sdl → Event → Bool → World → Outcome World
unfolding refresh handle_event
device_update sdl event timer_set w = do
  w1 ← refresh (record w { jiffy = u64 (w.jiffy + 1) })
  w2 ← handle_event sdl event.event_type event.sym w1
  cpu_assert timer_set
  ok w2

-- `SDL_Init`, `sigaction` and `setitimer` succeed or not.
unfoldable pub init_sdl : Bool → Bool → Bool → Outcome (Unit {0})
init_sdl initialised handled timer_set = do
  cpu_assert initialised
  cpu_assert handled
  cpu_assert timer_set

unfoldable pub init_device : Bool → Bool → Bool → Outcome (Unit {0})
unfolding init_sdl
init_device initialised handled timer_set = init_sdl initialised handled timer_set

unfoldable pub sigint_handler : World → World
sigint_handler w = record w { machine = set_state w.machine nemu_stop }

-- Never called. Each `SDL_PollEvent` takes the oldest of the pending events, until there is none.
unfoldable pub sdl_clear_event_queue : List Event → List Event
sdl_clear_event_queue [] = []
sdl_clear_event_queue (event ∷ events) = sdl_clear_event_queue events
