-- ===== src/Run.antt =====
-- The loop of `cpu_exec` (src/cpu/cpu-exec.c), with DEBUG defined as in the Makefile. Traced adds
-- what it prints (the assembler trace, and the registers in MODE_LOG); the signal handlers between
-- two instructions are those of Device.Interleave.
pub mod Inversion
pub mod Compose
pub mod Alignment
pub mod Defined
pub mod Traced
pub mod StoreLoad
use nemu_riscv.Base.{ℕ, zero, suc, ◌+◌, Bool, true, false, ◌==◌, if◌then◌else◌, bit_and, u32}
use nemu_riscv.Base.{Outcome, ok, ◌>>=◌, ◌>>◌, cpu_assert}
use nemu_riscv.System.{System, NemuState, nemu_stop, nemu_running, nemu_end}
use nemu_riscv.Memory.{instr_fetch}
use nemu_riscv.Decode.{dispatch}
use nemu_riscv.Exec.{Cpu, exec}
use nemu_riscv.InstrQueue.{InstrQueue, instr_enqueue_pc, instr_enqueue_instr}

pub record Machine : Type 0 where
  pub cpu : Cpu
  pub sys : System
  pub queue : InstrQueue

abbrev pub cpu_init_pc : ℕ
cpu_init_pc = 0xbfc00000

unfoldable pub init_cpu : Cpu → ℕ → Cpu
init_cpu c entry = record c { pc = entry }

abbrev pub is_running : NemuState → Bool
is_running nemu_running = true
is_running nemu_stop = false
is_running nemu_end = false

abbrev pub set_state : Machine → NemuState → Machine
set_state m state = record m { sys = record (m.sys) { nemu_state = state } }

-- The body of the loop, up to the test of `nemu_state`.
unfoldable pub step : Machine → Outcome Machine
step m = do
  let queue = instr_enqueue_pc m.queue m.cpu.pc
  cpu_assert (bit_and m.cpu.pc 0x3 == 0)
  (inst, sys) ← instr_fetch m.sys m.cpu.pc
  handler ← dispatch inst
  (cpu', sys') ← exec handler inst m.cpu sys
  ok (record {
    cpu = record cpu' { pc = u32 (cpu'.pc + 4) };
    sys = sys';
    queue = instr_enqueue_instr queue inst;
  })

-- The loop with `n` rounds left, and what follows it.
unfoldable pub exec_loop : ℕ → Machine → Outcome Machine
exec_loop zero m = ok (if is_running m.sys.nemu_state then set_state m nemu_stop else m)
exec_loop (suc n) m =
    step m >>= λ m'. elim (is_running m'.sys.nemu_state) [ true ↦ exec_loop n m' | false ↦ ok m' ]

unfoldable pub cpu_exec : ℕ → Machine → Outcome Machine
cpu_exec n m = elim m.sys.nemu_state [
  | nemu_end ↦ ok m
  | nemu_stop ↦ exec_loop n (set_state m nemu_running)
  | nemu_running ↦ exec_loop n (set_state m nemu_running)
]

-- Never called.
unfoldable pub signal_exception : ℕ → Outcome (Unit {0})
signal_exception code = cpu_assert false
