-- ===== src/Isa/Program.antt =====
-- `cpu_exec` of src/cpu/cpu-exec.c runs a program as the manual says, as long as it meets only
-- instructions that the tables and the handlers carry out so.
use nemu_riscv.Base.{ℕ, suc, ◌%◌, ◌≡◌, if◌then◌else◌}
use nemu_riscv.Base.{Outcome, ok}
use nemu_riscv.System.{System, nemu_stop, nemu_running, nemu_end}
use nemu_riscv.Memory.{instr_fetch}
use nemu_riscv.Decode.{Handler}
use nemu_riscv.Decode.Manual.{Encodes, IsFound}
use nemu_riscv.Exec.{Cpu}
use nemu_riscv.InstrQueue.{InstrQueue, instr_enqueue_pc, instr_enqueue_instr}
use nemu_riscv.Run.{Machine, is_running}
use nemu_riscv.Base.{Bool}
use nemu_riscv.Isa.{isa}
use nemu_riscv.Isa.Exact.{IsExact}

-- The manual's instruction at the pc takes the first state to the second.
pub record Retires (has_csr : ℕ → Bool) (c : Cpu) (s : System) (c' : Cpu) (s' : System)
    : Type 0 where
  pub inst : ℕ
  pub handler : Handler
  pub fetched : System
  pub aligned : c.pc % 4 ≡ 0
  pub fetches : instr_fetch s c.pc ≡ ok (inst, fetched)
  pub encodes : Encodes handler inst
  pub found : IsFound handler inst
  pub exact : IsExact has_csr handler inst c fetched
  pub retires : isa has_csr handler inst c fetched ≡ ok (c', s')

-- A run of at most `n` instructions: of `n`, or up to the one that ends the emulation.
pub data IsaRun (has_csr : ℕ → Bool) : ℕ → Cpu → System → Cpu → System → Type 0 where
  all_done : {c : Cpu} {s : System} → IsaRun has_csr 0 c s c s
  goes_on :
      {n : ℕ} {c c1 c' : Cpu} {s s1 s' : System}
      → Retires has_csr c s c1 s1
      → s1.nemu_state ≡ nemu_running
      → IsaRun has_csr n c1 s1 c' s'
      → IsaRun has_csr (suc n) c s c' s'
  ends_here :
      {n : ℕ} {c c' : Cpu} {s s' : System}
      → Retires has_csr c s c' s'
      → s'.nemu_state ≡ nemu_end
      → IsaRun has_csr (suc n) c s c' s'

abbrev HasZero : Cpu × System → Type 0
HasZero r = r.0.gpr 0 ≡ 0

-- What the emulator records of the instruction in its queue.
abbrev recorded : Machine → ℕ → InstrQueue
recorded m inst = instr_enqueue_instr (instr_enqueue_pc m.queue m.cpu.pc) inst

-- The state that `cpu_exec` leaves behind the last instruction.
abbrev pub stopped : System → System
stopped s = if is_running s.nemu_state then record s { nemu_state = nemu_stop } else s

abbrev pub EndsAt : Outcome Machine → Cpu → System → Type 0
EndsAt o c s = (m : Machine) × (o ≡ ok m) × (m.cpu ≡ c) × (m.sys ≡ stopped s)
