-- ===== src/Run/Inversion.antt =====
-- What an instruction that `cpu_exec` has executed consists of (src/cpu/cpu-exec.c).
use nemu_riscv.Base.{ℕ, ◌+◌, ◌≡◌, arith, ok, >>=-eq-ok, cpu_assert, bit_and, ◌==◌, u32}
use nemu_riscv.System.{System}
use nemu_riscv.Memory.{instr_fetch}
use nemu_riscv.Decode.{Handler, dispatch}
use nemu_riscv.Exec.{Cpu, exec}
use nemu_riscv.InstrQueue.{instr_enqueue_pc, instr_enqueue_instr}
use nemu_riscv.Run.{Machine, step}

pub record Executed (m m' : Machine) : Type 0 where
  pub inst : ℕ
  pub fetched : System
  pub handler : Handler
  pub cpu' : Cpu
  pub sys' : System
  pub aligned : bit_and m.cpu.pc 0x3 ≡ 0
  pub fetches : instr_fetch m.sys m.cpu.pc ≡ ok (inst, fetched)
  pub dispatches : dispatch inst ≡ ok handler
  pub executes : exec handler inst m.cpu fetched ≡ ok (cpu', sys')
  pub result : m' ≡ record {
    cpu = record cpu' { pc = u32 (cpu'.pc + 4) };
    sys = sys';
    queue = instr_enqueue_instr (instr_enqueue_pc m.queue m.cpu.pc) inst;
  }

pub step-Executed : (m m' : Machine) → step m ≡ ok m' → Executed m m'
unfolding step
step-Executed m m' e =
    let (u, e0, e1) = >>=-eq-ok (cpu_assert (bit_and m.cpu.pc 0x3 == 0)) e in
    let (f, e2, e3) = >>=-eq-ok (instr_fetch m.sys m.cpu.pc) e1 in
    let (h, e4, e5) = >>=-eq-ok (dispatch f.0) e3 in
    let (r, e6, e7) = >>=-eq-ok (exec h f.0 m.cpu f.1) e5 in
    record {
      inst = f.0;
      fetched = f.1;
      handler = h;
      cpu' = r.0;
      sys' = r.1;
      aligned = ground arith;
      fetches = e2;
      dispatches = e4;
      executes = e6;
      result = cc;
    }
