-- ===== src/Run/Traced.antt =====
-- `cpu_exec` of src/cpu/cpu-exec.c with the calls that Run leaves out: those of the assembler trace
-- (ENABLE_ASM_TRACER, as in the Makefile), in the loop and at the ends of the handlers of
-- src/cpu/exec-handlers.h, and the register log of MODE_LOG.
pub mod Alike
pub mod Ran
pub mod Listing
pub mod Defined
use nemu_riscv.Base.{ℕ, zero, suc, ◌+◌, ◌==◌, bit_and, u32, true, false, if◌then◌else◌}
use nemu_riscv.Base.{List, [], ◌∷◌, ◌++◌, Option, none, some, Outcome, ok, ◌>>=◌, ◌>>◌, cpu_assert}
use nemu_riscv.System.{mode_log, nemu_stop, nemu_running, nemu_end}
use nemu_riscv.Memory.{instr_fetch}
use nemu_riscv.Decode.{dispatch}
use nemu_riscv.Exec.{Cpu, exec}
use nemu_riscv.InstrQueue.{instr_enqueue_pc, instr_enqueue_instr}
use nemu_riscv.Assertion.{Block, print_registers}
use nemu_riscv.Tracer.{Tracer, trace_append, trace_flush}
use nemu_riscv.Tracer.Text.{pc_text, word_text, handler_text}
use nemu_riscv.Run.{Machine, is_running, set_state}

-- `log` is what `print_registers` has printed, and `ninstr` its static counter.
pub record Traced : Type 0 where
  pub machine : Machine
  pub tracer : Tracer
  pub ninstr : ℕ
  pub log : List Block

-- What a handler that calls `trace_append` appends.
unfoldable pub append_text : Tracer → Option (List ℕ) → Outcome Tracer
append_text t none = ok t
append_text t (some text) = do r ← trace_append t text; ok r.1

-- The registers are printed only where the mode is MODE_LOG and nothing else.
unfoldable pub log_registers : ℕ → Cpu → ℕ → ℕ → List Block × ℕ
unfolding print_registers
log_registers mode c ninstr inst =
    let printed = print_registers c ninstr inst in
    if mode == mode_log then (printed.0 ∷ [], printed.1) else ([], ninstr)

unfoldable pub traced_step : Traced → Outcome Traced
traced_step x = do
  let m = x.machine
  let queue = instr_enqueue_pc m.queue m.cpu.pc
  t1 ← trace_append x.tracer (pc_text m.cpu.pc)
  cpu_assert (bit_and m.cpu.pc 0x3 == 0)
  (inst, sys) ← instr_fetch m.sys m.cpu.pc
  t2 ← trace_append t1.1 (word_text inst)
  t3 ← trace_flush t2.1
  handler ← dispatch inst
  (cpu', sys') ← exec handler inst m.cpu sys
  t4 ← append_text t3 (handler_text handler inst)
  let logged = log_registers sys'.work_mode cpu' x.ninstr inst
  ok (record {
    machine = record {
      cpu = record cpu' { pc = u32 (cpu'.pc + 4) };
      sys = sys';
      queue = instr_enqueue_instr queue inst;
    };
    tracer = t4;
    ninstr = logged.1;
    log = x.log ++ logged.0;
  })

unfoldable pub traced_loop : ℕ → Traced → Outcome Traced
traced_loop zero x = ok (
    if is_running x.machine.sys.nemu_state
    then record x { machine = set_state (x.machine) nemu_stop }
    else x)
traced_loop (suc n) x = traced_step x >>= λ y. elim (is_running y.machine.sys.nemu_state) [
  | true ↦ traced_loop n y
  | false ↦ ok y
]

unfoldable pub traced_exec : ℕ → Traced → Outcome Traced
traced_exec n x = elim x.machine.sys.nemu_state [
  | nemu_end ↦ ok x
  | nemu_stop ↦ traced_loop n (record x { machine = set_state (x.machine) nemu_running })
  | nemu_running ↦ traced_loop n (record x { machine = set_state (x.machine) nemu_running })
]
