-- ===== src/Device/Interleave.antt =====
-- The loop of `cpu_exec` (src/cpu/cpu-exec.c) and the signal handlers that interrupt it: the timer
-- signal and SIGINT. A signal may come before or after each instruction, so also between the test
-- of `nemu_state` and the instruction that follows; that one comes in the middle of an instruction
-- or of another handler is left out, and so is the count of the rounds (2 ^ 64 - 1 of them).
pub mod Typed
pub mod Stopped
use nemu_riscv.Base.{ok, ◌≡◌, Bool, true, false}
use nemu_riscv.Sdl.{Sdl, Event}
use nemu_riscv.Run.{Machine, step, is_running}
use nemu_riscv.Device.{World, device_update, sigint_handler}

-- Before an instruction, before the test that follows it, and after the loop.
pub data Phase : Type 0 where
  at_step at_test returned : Phase

pub record Config : Type 0 where
  pub phase : Phase
  pub world : World

pub data Tick (sdl : Sdl) : Config → Config → Type 0 where
  instruction :
      {w : World} {m : Machine}
      → step w.machine ≡ ok m
      → Tick sdl
          (record { phase = at_step; world = w })
          (record { phase = at_test; world = record w { machine = m } })
  goes_on :
      {w : World}
      → is_running w.machine.sys.nemu_state ≡ true
      → Tick sdl (record { phase = at_test; world = w }) (record { phase = at_step; world = w })
  returns :
      {w : World}
      → is_running w.machine.sys.nemu_state ≡ false
      → Tick sdl (record { phase = at_test; world = w }) (record { phase = returned; world = w })
  timer :
      {p : Phase} {w w' : World} (event : Event) (timer_set : Bool)
      → device_update sdl event timer_set w ≡ ok w'
      → Tick sdl (record { phase = p; world = w }) (record { phase = p; world = w' })
  interrupt :
      {p : Phase} {w : World}
      → Tick sdl (record { phase = p; world = w }) (record { phase = p; world = sigint_handler w })

-- Any number of them, from the configuration `c` on.
pub data Reach (sdl : Sdl) (c : Config) : Config → Type 0 where
  start : Reach sdl c c
  later : {d e : Config} → Reach sdl c d → Tick sdl d e → Reach sdl c e
