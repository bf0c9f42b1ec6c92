-- ===== src/Run/Defined.antt =====
-- Which instructions can run into undefined behaviour (src/cpu/cpu-exec.c,
-- src/cpu/exec-handlers.h).
use nemu_riscv.Base.{ℕ, ◌%◌, ◌≤◌, ◌≡◌, ◌≢◌, inl, inr, sym, ◌∙◌, arith, ◌==◌, true, ok}
use nemu_riscv.Base.{IsDefined, IsDefined->>=, IsDefined-cpu_assert, bit_and, bit_and_mask}
use nemu_riscv.Address.{prot_addr}
use nemu_riscv.Address.Laws.{prot_addr-mod}
use nemu_riscv.Inst.{rs1, rs2}
use nemu_riscv.System.{System}
use nemu_riscv.Memory.{instr_fetch, load_mem, store_mem}
use nemu_riscv.Memory.Safety.{IsWordInFrame, load_mem-IsDefined, store_mem-IsDefined}
use nemu_riscv.Ram.Access.{four}
use nemu_riscv.Decode.{Handler, dispatch, inv}
use nemu_riscv.Decode.{AluOp, alu, load, store, LoadOp, StoreOp}
use nemu_riscv.Decode.{add}
use nemu_riscv.Decode.{div, rem, divu, remu}
use nemu_riscv.Decode.Tables.{dispatch_total}
use nemu_riscv.Alu.{alu_value, divides}
use nemu_riscv.Exec.{
  Cpu, exec, exec_alu, exec_load, exec_store, load_len, load_addr, store_len, store_addr,
}
use nemu_riscv.Exec.{is_aligned}
use nemu_riscv.Exec.Aligned.{load_aligned, store_aligned, load_len-IsLen, store_len-IsLen}
use nemu_riscv.Run.{Machine, step}

-- The quotient is one that C defines.
abbrev pub IsDivisible : AluOp → ℕ → ℕ → Type 0
IsDivisible div a b = divides a b ≡ true
IsDivisible rem a b = divides a b ≡ true
IsDivisible divu a b = b ≢ 0
IsDivisible remu a b = b ≢ 0
IsDivisible _ a b = Unit {0}

-- A division that C defines, a store outside the Ethernet controller, and a load that is in the frame
-- buffer only at a multiple of 4.
abbrev pub IsHarmless : Handler → ℕ → Cpu → Type 0
IsHarmless (alu o) inst c = IsDivisible o (c.gpr (rs1 inst)) (c.gpr (rs2 inst))
IsHarmless (store o) inst c =
    0x1ff00000 ≤ prot_addr (store_addr inst c) → 0x1ff10000 ≤ prot_addr (store_addr inst c)
IsHarmless (load o) inst c = IsWordInFrame (load_addr inst c)
IsHarmless _ inst c = Unit {0}

alu_value-IsDefined : (o : AluOp) (a b : ℕ) → IsDivisible o a b → IsDefined (alu_value o a b)
unfolding alu_value
alu_value-IsDefined div a b h = rw h tt
alu_value-IsDefined rem a b h = rw h tt
alu_value-IsDefined divu a b h = ground arith
alu_value-IsDefined remu a b h = ground arith
alu_value-IsDefined add a b h = tt
alu_value-IsDefined _ a b h = tt

module _ (inst : ℕ) (c : Cpu) (s : System) where
  exec_alu-IsDefined : (o : AluOp) → IsHarmless (alu o) inst c → IsDefined (exec (alu o) inst c s)
  unfolding exec exec_alu
  exec_alu-IsDefined o h =
      IsDefined->>= (exec_alu o inst c) _
        (IsDefined->>= (alu_value o (c.gpr (rs1 inst)) (c.gpr (rs2 inst))) _
          (alu_value-IsDefined o _ _ h) λ v e. tt)
        λ c' e. tt

  exec_load-IsDefined : (o : LoadOp) → IsHarmless (load o) inst c → IsDefined (exec_load o inst c s)
  unfolding exec_load
  exec_load-IsDefined o h =
      IsDefined-cpu_assert (is_aligned (load_len o) (load_addr inst c)) _ λ fits.
        let even : load_addr inst c % load_len o ≡ 0 =
          (let same = sym (load_aligned o (load_addr inst c)) ∙ fits in ground arith) in
        IsDefined->>= (load_mem s (load_addr inst c) (load_len o)) _
          (load_mem-IsDefined s (load_addr inst c) (load_len o) (load_len-IsLen o) even h) λ r e. tt

  exec_store-IsDefined :
      (o : StoreOp) → IsHarmless (store o) inst c → IsDefined (exec_store o inst c s)
  unfolding exec_store
  exec_store-IsDefined o h =
      IsDefined-cpu_assert (is_aligned (store_len o) (store_addr inst c)) _ λ fits.
        let even : store_addr inst c % store_len o ≡ 0 =
          (let same = sym (store_aligned o (store_addr inst c)) ∙ fits in ground arith) in
        IsDefined->>= (store_mem s (store_addr inst c) (store_len o) (c.gpr (rs2 inst))) _
          (store_mem-IsDefined s (store_addr inst c) (store_len o) (c.gpr (rs2 inst))
            (store_len-IsLen o) even h)
          λ s' e. tt

exec-IsDefined :
    (h : Handler) (inst : ℕ) (c : Cpu) (s : System)
    → IsHarmless h inst c
    → IsDefined (exec h inst c s)
unfolding exec
exec-IsDefined (alu o) inst c s x = exec_alu-IsDefined inst c s o x
exec-IsDefined (load o) inst c s x = exec_load-IsDefined inst c s o x
exec-IsDefined (store o) inst c s x = exec_store-IsDefined inst c s o x
exec-IsDefined inv inst c s x = tt
exec-IsDefined _ inst c s x = tt

dispatch-IsDefined : (inst : ℕ) → IsDefined (dispatch inst)
dispatch-IsDefined inst = elim (dispatch_total inst) [
  | inl found ↦ let (h, e) = found.1 in rw e tt
  | inr aborts ↦ rw (aborts.1) tt
]

-- Without the calls of the trace: if what the word at the pc leads to is harmless, the body of the
-- loop returns, aborts or exits.
pub step-IsDefined :
    (m : Machine)
    → ((inst : ℕ) (fetched : System) (h : Handler)
        → instr_fetch m.sys m.cpu.pc ≡ ok (inst, fetched)
        → dispatch inst ≡ ok h
        → IsHarmless h inst m.cpu)
    → IsDefined (step m)
unfolding step instr_fetch
step-IsDefined m harmless = IsDefined-cpu_assert (bit_and m.cpu.pc 0x3 == 0) _ λ fits.
    let even : m.cpu.pc % 4 ≡ 0 = ground (arith, bit_and_mask 2 m.cpu.pc) in
    let word : IsWordInFrame m.cpu.pc = λ lo hi. omega (arith, prot_addr-mod m.cpu.pc) in
    IsDefined->>= (instr_fetch m.sys m.cpu.pc) _
      (load_mem-IsDefined m.sys m.cpu.pc 4 four even word)
      λ f e1. IsDefined->>= (dispatch f.0) _ (dispatch-IsDefined f.0) λ h e2.
        IsDefined->>= (exec h f.0 m.cpu f.1) _
          (exec-IsDefined h f.0 m.cpu f.1 (harmless f.0 f.1 h e1 e2)) λ r e3. tt
