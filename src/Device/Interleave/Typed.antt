-- ===== src/Device/Interleave/Typed.antt =====
-- The types of all the state are kept in whatever order instructions and signals come.
use nemu_riscv.Base.{ℕ, ◌+◌, ◌%◌, ◌^◌, ◌<◌, ◌==◌, ok, arith, Bool, u64, Ensures}
use nemu_riscv.Base.{Ensures-ok, Ensures-exit, Ensures->>=, Ensures->>, cpu_assert, if◌then◌else◌}
use nemu_riscv.Sdl.{Sdl, Event, EventType, sdl_keydown, sdl_keyup, sdl_quit, other_event}
use nemu_riscv.System.{nemu_stop}
use nemu_riscv.Video.{update_screen}
use nemu_riscv.Serial.{Serial}
use nemu_riscv.Keyboard.Queue.{IsQueue, keyboard_enqueue-codes}
use nemu_riscv.Run.{Machine}
use nemu_riscv.Types.{IsTypedSerial}
use nemu_riscv.Types.Loads.{with_serial-IsTyped}
use nemu_riscv.Types.Keys.{serial_enqueue-IsTyped}
use nemu_riscv.Types.Step.{IsTypedMachine, step-IsTyped, set_state-IsTyped}
use nemu_riscv.Device.{
  World, device_update, refresh, handle_event, press_or_release, sigint_handler, set_serial,
}
use nemu_riscv.Device.Interleave.{Config, Tick, Reach}
use nemu_riscv.Device.Interleave.{instruction, goes_on, returns, timer, interrupt, start, later}

pub record IsTypedWorld (w : World) : Type 0 where
  pub machine : IsTypedMachine w.machine
  pub keyboard : IsQueue w.keyboard
  pub jiffy : w.jiffy < 2 ^ 64

refresh-IsTyped : (w : World) → IsTypedWorld w → Ensures IsTypedWorld (refresh w)
unfolding refresh
refresh-IsTyped w h =
    Ensures->>= {P = λ p. Unit {0}} IsTypedWorld
      (if w.jiffy % 4 == 0 then update_screen w.machine.sys.vmem w.pixels else ok w.pixels)
      (λ p e. tt)
      λ p hp.
        Ensures-ok IsTypedWorld
          (record { machine = h.machine; keyboard = h.keyboard; jiffy = h.jiffy })

set_serial-IsTyped :
    (m : Machine) (serial : Serial)
    → IsTypedMachine m
    → IsTypedSerial serial
    → IsTypedMachine (set_serial m serial)
set_serial-IsTyped m serial h hs = record {
  cpu = h.cpu;
  sys = with_serial-IsTyped m.sys serial h.sys hs;
  queue = h.queue;
}

press_or_release-IsTyped :
    (sdl : Sdl) (type : EventType) (key : ℕ) (w : World)
    → IsTypedWorld w
    → IsTypedWorld (press_or_release sdl type key w)
unfolding press_or_release
press_or_release-IsTyped sdl type key w h =
    let (queue, same) = keyboard_enqueue-codes sdl w.keyboard type key h.keyboard in
    record {
      machine =
          set_serial-IsTyped w.machine _ h.machine
            (serial_enqueue-IsTyped sdl w.machine.sys.serial type key h.machine.sys.serial_typed);
      keyboard = queue;
      jiffy = h.jiffy;
    }

handle_event-IsTyped :
    (sdl : Sdl) (type : EventType) (key : ℕ) (w : World)
    → IsTypedWorld w
    → Ensures IsTypedWorld (handle_event sdl type key w)
unfolding handle_event
handle_event-IsTyped sdl sdl_keydown key w h =
    Ensures-ok IsTypedWorld (press_or_release-IsTyped sdl sdl_keydown key w h)
handle_event-IsTyped sdl sdl_keyup key w h =
    Ensures-ok IsTypedWorld (press_or_release-IsTyped sdl sdl_keyup key w h)
handle_event-IsTyped sdl sdl_quit key w h = Ensures-exit IsTypedWorld
handle_event-IsTyped sdl other_event key w h = Ensures-ok IsTypedWorld h

device_update-IsTyped :
    (sdl : Sdl) (event : Event) (timer_set : Bool) (w : World)
    → IsTypedWorld w
    → Ensures IsTypedWorld (device_update sdl event timer_set w)
unfolding device_update
device_update-IsTyped sdl event timer_set w h =
    let w0 : World = record w { jiffy = u64 (w.jiffy + 1) } in
    Ensures->>= IsTypedWorld (refresh w0)
      (refresh-IsTyped w0
        (record { machine = h.machine; keyboard = h.keyboard; jiffy = omega arith }))
      λ w1 h1.
        Ensures->>= IsTypedWorld (handle_event sdl event.event_type event.sym w1)
          (handle_event-IsTyped sdl event.event_type event.sym w1 h1)
          λ w2 h2. Ensures->> IsTypedWorld (cpu_assert timer_set) (Ensures-ok IsTypedWorld h2)

Tick-IsTyped :
    (sdl : Sdl) (c d : Config) → Tick sdl c d → IsTypedWorld c.world → IsTypedWorld d.world
unfolding sigint_handler
Tick-IsTyped sdl c d (instruction {w} {m} steps) h = record {
  machine = step-IsTyped w.machine h.machine m steps;
  keyboard = h.keyboard;
  jiffy = h.jiffy;
}
Tick-IsTyped sdl c d (goes_on running) h = h
Tick-IsTyped sdl c d (returns stopped) h = h
Tick-IsTyped sdl c d (timer {p} {w} {w'} event timer_set updates) h =
    device_update-IsTyped sdl event timer_set w h w' updates
Tick-IsTyped sdl c d (interrupt {p} {w}) h = record {
  machine = set_state-IsTyped w.machine nemu_stop h.machine;
  keyboard = h.keyboard;
  jiffy = h.jiffy;
}

-- From a configuration in which every variable is within its C type, each one that instructions,
-- timer signals with whatever events, and SIGINTs reach in any order is such a configuration: words
-- of 32 bits in the registers, the CSRs and the pc, bytes in the memories, and all the indices of
-- the rings of the UART, the keyboard and the instruction queue inside their arrays.
pub Reach-IsTyped :
    (sdl : Sdl) (c d : Config) → IsTypedWorld c.world → Reach sdl c d → IsTypedWorld d.world
Reach-IsTyped sdl c d h start = h
Reach-IsTyped sdl c e h (later {d} r t) = Tick-IsTyped sdl d e t (Reach-IsTyped sdl c d h r)
