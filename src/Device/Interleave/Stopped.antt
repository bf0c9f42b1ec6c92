-- ===== src/Device/Interleave/Stopped.antt =====
-- An ended or interrupted emulation runs no further instruction (src/cpu/cpu-exec.c).
use nemu_riscv.Base.{◌≡◌, ◌≢◌, ◌∙◌, refl, sym, ap, false}
use nemu_riscv.Sdl.{Sdl}
use nemu_riscv.Run.{is_running}
use nemu_riscv.System.{System, NemuState, nemu_stop}
use nemu_riscv.Serial.{Serial}
use nemu_riscv.Device.{World, sigint_handler}
use nemu_riscv.Device.Frame.{device_update-SameButSerial}
use nemu_riscv.Device.Interleave.{at_step, at_test, Config, Tick, Reach}
use nemu_riscv.Device.Interleave.{instruction, goes_on, returns, timer, interrupt, start, later}

-- The system but for the UART and `nemu_state`.
abbrev with_signals : System → Serial → NemuState → System
with_signals s serial state = record s { serial = serial; nemu_state = state }

-- No instruction is due, and none has run since `c`.
pub record IsHalted (c d : Config) : Type 0 where
  pub phase : d.phase ≢ at_step
  pub stopped : is_running d.world.machine.sys.nemu_state ≡ false
  pub cpu : d.world.machine.cpu ≡ c.world.machine.cpu
  pub queue : d.world.machine.queue ≡ c.world.machine.queue
  pub sys :
      d.world.machine.sys
      ≡ with_signals c.world.machine.sys d.world.machine.sys.serial d.world.machine.sys.nemu_state

Tick-IsHalted : (sdl : Sdl) (c d e : Config) → Tick sdl d e → IsHalted c d → IsHalted c e
unfolding sigint_handler
Tick-IsHalted sdl c d e (instruction steps) h = absurd (h.phase refl)
Tick-IsHalted sdl c d e (goes_on running) h = absurd (let s = h.stopped in cc)
Tick-IsHalted sdl c d e (returns stopped) h = record {
  phase = λ p. cc;
  stopped = h.stopped;
  cpu = h.cpu;
  queue = h.queue;
  sys = h.sys;
}
Tick-IsHalted sdl c d e (timer {p} {w} {w'} event timer_set updates) h =
    let same = device_update-SameButSerial sdl event timer_set w w' updates in
    record {
      phase = h.phase;
      stopped = ap (λ m. is_running m.sys.nemu_state) same ∙ h.stopped;
      cpu = ap (λ m. m.cpu) same ∙ h.cpu;
      queue = ap (λ m. m.queue) same ∙ h.queue;
      sys =
          ap (λ m. m.sys) same
          ∙ ap (λ (s : System). record s { serial = w'.machine.sys.serial }) h.sys
          ∙ ap (with_signals c.world.machine.sys w'.machine.sys.serial)
              (sym (ap (λ m. m.sys.nemu_state) same));
    }
Tick-IsHalted sdl c d e interrupt h = record {
  phase = h.phase;
  stopped = refl;
  cpu = h.cpu;
  queue = h.queue;
  sys = ap (λ (s : System). record s { nemu_state = nemu_stop }) h.sys;
}

Reach-IsHalted : (sdl : Sdl) (c d e : Config) → IsHalted c d → Reach sdl d e → IsHalted c e
Reach-IsHalted sdl c d e h start = h
Reach-IsHalted sdl c b e h (later {d} r t) =
    Tick-IsHalted sdl c d e t (Reach-IsHalted sdl c b d h r)

-- Where the loop tests `nemu_state` and finds it not NEMU_RUNNING, after the trap or a SIGINT: in
-- whatever order the loop and the signals go on, no further instruction is due or runs. The CPU and
-- the queue of instructions stay as they are, and so does the system but for the UART and
-- `nemu_state`, which does not become NEMU_RUNNING.
pub Reach-stopped :
    (sdl : Sdl) (w : World) (d : Config)
    → is_running w.machine.sys.nemu_state ≡ false
    → Reach sdl (record { phase = at_test; world = w }) d
    → IsHalted (record { phase = at_test; world = w }) d
Reach-stopped sdl w d h r =
    Reach-IsHalted sdl _ _ d
      (record { phase = λ p. cc; stopped = h; cpu = refl; queue = refl; sys = refl }) r
