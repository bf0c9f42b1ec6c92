-- ===== src/Assertion.antt =====
-- What a `CPUAssert` that fails does (include/debug.h): it prints the instruction queue and the
-- registers (`print_registers` of src/cpu/cpu-exec.c) and aborts. The other modules keep the abort
-- alone. The registers come with the word at the pc, which `vaddr_read_safe` reads: where that read
-- fails an assertion of its own, the dump starts again, and so on. `depth` bounds the nesting. The
-- lines are those with data in them; the headings and the message are left out.
pub mod Nesting
use nemu_riscv.Base.{ℕ, zero, suc, ◌+◌, ◌%◌, ◌^◌, List, [], ◌∷◌, u32}
use nemu_riscv.Base.{Outcome, ok, abort, exit, fault, unfinished}
use nemu_riscv.System.{System}
use nemu_riscv.Bus.{vaddr_read_safe}
use nemu_riscv.Exec.{Cpu}
use nemu_riscv.InstrQueue.{IqElement, InstrQueue, print_instr_queue}

-- A block of lines: the queue, or the registers with `ninstr` and the instruction.
pub data Block : Type 0 where
  instr_queue : List IqElement → Block
  registers : Cpu → ℕ → ℕ → Block

-- `print_registers`, with its static counter before and after.
unfoldable pub print_registers : Cpu → ℕ → ℕ → Block × ℕ
print_registers c ninstr instr = (registers c ninstr instr, u32 (ninstr + 1))

-- What is printed, and how it ends.
unfoldable pub failed_cpu_assert :
    ℕ → System → Cpu → InstrQueue → ℕ → List Block × Outcome (Unit {0})
unfolding print_registers
failed_cpu_assert zero s c q ninstr = ([], unfinished)
failed_cpu_assert (suc depth) s c q ninstr =
    let nested = failed_cpu_assert depth s c q ninstr in
    let queue = instr_queue (print_instr_queue q) in
    elim (vaddr_read_safe s c.pc 4) [
      | ok r ↦ (queue ∷ (print_registers c ninstr r.0).0 ∷ [], abort)
      | abort ↦ (queue ∷ nested.0, nested.1)
      | exit ↦ (queue ∷ [], exit)
      | fault ↦ (queue ∷ [], fault)
      | unfinished ↦ (queue ∷ [], unfinished)
    ]
