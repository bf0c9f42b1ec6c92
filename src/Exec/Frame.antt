-- ===== src/Exec/Frame.antt =====
-- What the handlers of src/cpu/exec-handlers.h leave as it is.
use nemu_riscv.Base.{ℕ, ◌≡◌, ◌≢◌, arith, ok, Ensures}
use nemu_riscv.Base.{update, Bool-cases, inl, inr, ◌==◌, >>=-eq-ok}
use mathlib.Core.Path.{subst, fun_ext}
use nemu_riscv.Inst.{rd, imm_11_0}
use nemu_riscv.System.{System}
use nemu_riscv.Decode.{AluOp, LoadOp, StoreOp, CsrOp, Handler, inv, fence, auipc, lui, jal, jalr}
use nemu_riscv.Decode.{ecall_ebreak, alu, alui, branch, load, store, csr}
use nemu_riscv.Decode.{csrrw}
use nemu_riscv.Exec.{Cpu, exec, exec_alu, exec_alui, exec_branch, exec_load, exec_store, exec_csr}
use nemu_riscv.Exec.{exec_jalr, exec_jal, exec_lui, exec_auipc, set_gpr}

-- The handlers that assign to the pc.
abbrev pub Jumps : Handler → Type 0
Jumps (branch o) = Unit {0}
Jumps jal = Unit {0}
Jumps jalr = Unit {0}
Jumps _ = ⊥

-- The CPU keeps `hi` and `lo`, every register but `gpr[rd]` and `csr[imm_11_0]`, and the pc where
-- `Stays` holds.
pub record Kept (Stays : Type 0) (inst : ℕ) (c c' : Cpu) : Type 0 where
  pub hi : c'.hi ≡ c.hi
  pub lo : c'.lo ≡ c.lo
  pub regs : (j : ℕ) → j ≢ rd inst → c'.gpr j ≡ c.gpr j
  pub csrs : (j : ℕ) → j ≢ imm_11_0 inst → c'.csr_file j ≡ c.csr_file j
  pub pc : Stays → c'.pc ≡ c.pc

module _ (Stays : Type 0) (inst : ℕ) (c : Cpu) where
  Kept-refl : Kept Stays inst c c
  Kept-refl = ground arith

  Kept-set_gpr : (v : ℕ) → Kept Stays inst c (set_gpr c (rd inst) v)
  Kept-set_gpr v = ground arith

  exec_csr-Kept : (o : CsrOp) → Kept Stays inst c (exec_csr o inst c)
  unfolding exec_csr
  exec_csr-Kept csrrw = ground arith
  exec_csr-Kept _ = ground arith

  exec_alu-Kept : (o : AluOp) → Ensures (Kept Stays inst c) (exec_alu o inst c)
  unfolding exec_alu
  exec_alu-Kept o c' e = ground arith

  exec_load-Kept :
      (o : LoadOp) (s : System) → Ensures (λ r. Kept Stays inst c r.0) (exec_load o inst c s)
  unfolding exec_load
  exec_load-Kept o s r e = ground arith

  exec_store-Kept :
      (o : StoreOp) (s : System) → Ensures (λ r. Kept Stays inst c r.0) (exec_store o inst c s)
  unfolding exec_store
  exec_store-Kept o s r e = ground arith

-- The CPU after any handler that returns.
pub exec-Kept :
    (h : Handler) (inst : ℕ) (c : Cpu) (s : System)
    → Ensures (λ r. Kept (¬ Jumps h) inst c r.0) (exec h inst c s)
unfolding exec exec_alui exec_branch exec_jal exec_jalr exec_lui exec_auipc
exec-Kept inv inst c s r e = ground arith
exec-Kept fence inst c s r e = ground arith
exec-Kept ecall_ebreak inst c s r e = ground arith
exec-Kept lui inst c s r e = ground arith
exec-Kept auipc inst c s r e = ground arith
exec-Kept jal inst c s r e = ground arith
exec-Kept jalr inst c s r e = ground arith
exec-Kept (alu o) inst c s r e =
    let (c', e1, e2) = >>=-eq-ok (exec_alu o inst c) e in
    let r_cpu : c' ≡ r.0 = cc in
    subst (Kept (¬ ⊥) inst c) r_cpu (exec_alu-Kept (¬ ⊥) inst c o c' e1)
exec-Kept (alui o) inst c s r e = ground arith
exec-Kept (branch o) inst c s r e = ground arith
exec-Kept (load o) inst c s r e = exec_load-Kept (¬ Jumps (load o)) inst c o s r e
exec-Kept (store o) inst c s r e = exec_store-Kept (¬ Jumps (store o)) inst c o s r e
exec-Kept (csr o) inst c s r e =
    let r_cpu : exec_csr o inst c ≡ r.0 = cc in
    subst (Kept (¬ ⊥) inst c) r_cpu (exec_csr-Kept (¬ ⊥) inst c o)

changed_at : (f g : ℕ → ℕ) (i : ℕ) → ((j : ℕ) → j ≢ i → g j ≡ f j) → g ≡ update f i (g i)
changed_at f g i h = fun_ext λ j. elim (Bool-cases (i == j)) [
  | inl same ↦ let here : i ≡ j = ground arith in ground arith
  | inr differs ↦ let other : j ≢ i = λ e. ground arith in let kept = h j other in ground arith
]

-- Whatever handler runs: if it returns, the only general register that may have changed is
-- `gpr[rd]`, and the only control register `csr[imm_11_0]`; `hi` and `lo` keep their values.
pub exec_frame :
    (h : Handler) (inst : ℕ) (c c' : Cpu) (s s' : System)
    → exec h inst c s ≡ ok (c', s')
    → (c'.gpr ≡ update c.gpr (rd inst) (c'.gpr (rd inst)))
      × (c'.csr_file ≡ update c.csr_file (imm_11_0 inst) (c'.csr_file (imm_11_0 inst)))
      × (c'.hi ≡ c.hi)
      × (c'.lo ≡ c.lo)
exec_frame h inst c c' s s' e =
    let kept = exec-Kept h inst c s (c', s') e in
    (
      changed_at c.gpr c'.gpr (rd inst) kept.regs,
      changed_at c.csr_file c'.csr_file (imm_11_0 inst) kept.csrs,
      kept.hi,
      kept.lo,
    )

-- A handler that is neither a branch nor a jump, and returns, leaves the pc alone.
exec_pc :
    (h : Handler) (inst : ℕ) (c c' : Cpu) (s s' : System)
    → ¬ Jumps h
    → exec h inst c s ≡ ok (c', s')
    → c'.pc ≡ c.pc
exec_pc h inst c c' s s' stays e = (exec-Kept h inst c s (c', s') e).pc stays
