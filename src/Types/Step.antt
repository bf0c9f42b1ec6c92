-- ===== src/Types/Step.antt =====
-- The loop of `cpu_exec` keeps the types of all the state (src/cpu/cpu-exec.c).
use nemu_riscv.Base.{ℕ, zero, suc, ◌+◌, ◌^◌, ◌<◌, ◌≡◌, ◌==◌, arith, ok, Ensures}
use nemu_riscv.Base.{
  Ensures-ok, Ensures-elim, if-ensures, sym, ◌∙◌, Ensures->>=, Ensures->>, bit_and, cpu_assert, u32,
  inl, inr,
}
use nemu_riscv.System.{NemuState, nemu_stop, nemu_running}
use nemu_riscv.Memory.{instr_fetch}
use nemu_riscv.Decode.{dispatch}
use nemu_riscv.Exec.{exec}
use nemu_riscv.InstrQueue.{InstrQueue, instr_enqueue_pc, instr_enqueue_instr}
use nemu_riscv.Run.{Machine, step, exec_loop, cpu_exec, set_state, is_running}
use nemu_riscv.Run.Compose.{ended?, cpu_exec-ended, cpu_exec-active}
use nemu_riscv.Types.{IsTypedSystem}
use nemu_riscv.Types.Loads.{load_mem-IsLoaded}
use nemu_riscv.Types.Cpu.{IsTypedCpu, exec-IsTyped, set_pc-IsTyped}

pub record IsTypedQueue (q : InstrQueue) : Type 0 where
  pub pc_ptr : q.pc_ptr < 8
  pub instr_ptr : q.instr_ptr < 8
  pub pcs : (i : ℕ) → (q.iq i).pc < 2 ^ 32
  pub instrs : (i : ℕ) → (q.iq i).instr < 2 ^ 32

pub record IsTypedMachine (m : Machine) : Type 0 where
  pub cpu : IsTypedCpu m.cpu
  pub sys : IsTypedSystem m.sys
  pub queue : IsTypedQueue m.queue

instr_enqueue_pc-IsTyped :
    (q : InstrQueue) (pc : ℕ) → IsTypedQueue q → pc < 2 ^ 32 → IsTypedQueue (instr_enqueue_pc q pc)
unfolding instr_enqueue_pc
instr_enqueue_pc-IsTyped q pc h hpc = record {
  pc_ptr = omega arith;
  instr_ptr = h.pc_ptr;
  pcs = λ i. ground (arith, h.pcs i);
  instrs = λ i. ground (arith, h.instrs i, h.instrs q.pc_ptr);
}

instr_enqueue_instr-IsTyped :
    (q : InstrQueue) (instr : ℕ)
    → IsTypedQueue q
    → instr < 2 ^ 32
    → IsTypedQueue (instr_enqueue_instr q instr)
unfolding instr_enqueue_instr
instr_enqueue_instr-IsTyped q instr h hi = record {
  pc_ptr = h.pc_ptr;
  instr_ptr = h.instr_ptr;
  pcs = λ i. ground (arith, h.pcs i, h.pcs q.instr_ptr);
  instrs = λ i. ground (arith, h.instrs i);
}

pub set_state-IsTyped :
    (m : Machine) (state : NemuState) → IsTypedMachine m → IsTypedMachine (set_state m state)
set_state-IsTyped m state h = record {
  cpu = h.cpu;
  sys = record {
    ddr_bytes = h.sys.ddr_bytes;
    bram_bytes = h.sys.bram_bytes;
    vmem_bytes = h.sys.vmem_bytes;
    serial_typed = h.sys.serial_typed;
    mac_typed = h.sys.mac_typed;
  };
  queue = h.queue;
}

pub step-IsTyped : (m : Machine) → IsTypedMachine m → Ensures IsTypedMachine (step m)
unfolding step instr_fetch
step-IsTyped m h = Ensures->> IsTypedMachine (cpu_assert (bit_and m.cpu.pc 0x3 == 0)) (
    Ensures->>= IsTypedMachine (instr_fetch m.sys m.cpu.pc)
      (load_mem-IsLoaded m.sys m.cpu.pc 4 h.sys)
      λ f hf.
        Ensures->>= {P = λ o. Unit {0}} IsTypedMachine (dispatch f.0) (λ o e. tt)
          λ o ho.
            Ensures->>= IsTypedMachine (exec o f.0 m.cpu f.1)
              (exec-IsTyped o f.0 m.cpu f.1 hf.0 h.cpu hf.1)
              λ r hr. Ensures-ok IsTypedMachine (record {
                cpu = set_pc-IsTyped r.0 (u32 (r.0.pc + 4)) hr.0 (omega arith);
                sys = hr.1;
                queue =
                    instr_enqueue_instr-IsTyped (instr_enqueue_pc m.queue m.cpu.pc) f.0
                      (instr_enqueue_pc-IsTyped m.queue m.cpu.pc h.queue h.cpu.pc) hf.0;
              }))

exec_loop-IsTyped :
    (n : ℕ) (m : Machine) → IsTypedMachine m → Ensures IsTypedMachine (exec_loop n m)
unfolding exec_loop
exec_loop-IsTyped zero m h =
    Ensures-ok IsTypedMachine
      (if-ensures IsTypedMachine (is_running m.sys.nemu_state) (set_state-IsTyped m nemu_stop h) h)
exec_loop-IsTyped (suc n) m h = Ensures->>= IsTypedMachine (step m) (step-IsTyped m h) λ m' h'.
    Ensures-elim IsTypedMachine (is_running m'.sys.nemu_state) (exec_loop-IsTyped n m' h')
      (Ensures-ok IsTypedMachine h')

-- From a state in which every variable is within its C type, each run that returns leaves one: the
-- registers, the CSRs and the pc are 32-bit words, the cells of the memories bytes, the registers
-- of the PHY 16-bit words, and the indices of the UART's and of the instruction queue's rings below
-- 1024 and 8.
pub cpu_exec-IsTyped :
    (n : ℕ) (m m' : Machine) → IsTypedMachine m → cpu_exec n m ≡ ok m' → IsTypedMachine m'
cpu_exec-IsTyped n m m' h e = elim (ended? m.sys.nemu_state) [
  | inl ended ↦ Ensures-ok IsTypedMachine h m' (sym (cpu_exec-ended n m ended) ∙ e)
  | inr active ↦
      exec_loop-IsTyped n (set_state m nemu_running) (set_state-IsTyped m nemu_running h) m'
        (sym (cpu_exec-active n m active) ∙ e)
]
