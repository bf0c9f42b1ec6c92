-- ===== src/Exec.antt =====
-- The CPU state of include/cpu/reg.h and the handlers of src/cpu/exec-handlers.h. Each handler
-- takes the instruction word and returns the CPU and the system after it, before `cpu_exec` adds 4
-- to the pc. The calls of `trace_append` are in Run.Traced.
pub mod Inversion
pub mod Branches
pub mod Frame
pub mod Aligned
use nemu_riscv.Base.{
  ℕ, ◌+◌, ◌*◌, ◌-◌, ◌^◌, Bool, ltb, leb, ◌==◌, not_eq, if◌then◌else◌, u8, u16, u32,
}
use nemu_riscv.Base.{◌<<◌, bit_and, bit_or, not32, update, ltb_ℤ, int32, signed, pattern_of}
use nemu_riscv.Base.{Outcome, ok, abort, ◌>>=◌, ◌>>◌, cpu_assert}
use nemu_riscv.Inst.{rd, rs1, rs2, imm_11_0, simm_11_0, imm_4_0, imm_11_5, simm_11}
use nemu_riscv.Inst.{imm_11, imm_4_1, imm_10_5, simm_12, imm_31_12, simm_31_12}
use nemu_riscv.System.{System, nemu_end}
use nemu_riscv.Memory.{load_mem, store_mem}
use nemu_riscv.Decode.{BranchOp, beq, bne, blt, bge, bltu, bgeu, LoadOp, lb, lh, lw, lbu, lhu}
use nemu_riscv.Decode.{StoreOp, sb, sh, sw, CsrOp, csrrw, csrrs, csrrc, csrrwi, csrrsi, csrrci}
use nemu_riscv.Decode.{Handler, inv, fence, auipc, lui, jal, jalr, ecall_ebreak}
use nemu_riscv.Decode.{AluOp, AluiOp, alu, alui, branch, load, store, csr}
use nemu_riscv.Alu.{alu_value, alui_value}

-- `CPU_state`; the index of `gpr` has 5 bits and that of `csr` 12.
pub record Cpu : Type 0 where
  pub gpr : ℕ → ℕ
  pub csr_file : ℕ → ℕ
  pub hi : ℕ
  pub lo : ℕ
  pub pc : ℕ

abbrev pub set_gpr : Cpu → ℕ → ℕ → Cpu
set_gpr c i v = record c { gpr = update c.gpr i v }

abbrev pub set_csr : Cpu → ℕ → ℕ → Cpu
set_csr c i v = record c { csr_file = update c.csr_file i v }

unfoldable pub exec_alu : AluOp → ℕ → Cpu → Outcome Cpu
exec_alu o inst c = do
  v ← alu_value o (c.gpr (rs1 inst)) (c.gpr (rs2 inst))
  ok (set_gpr c (rd inst) v)

unfoldable pub exec_alui : AluiOp → ℕ → Cpu → Cpu
exec_alui o inst c = set_gpr c (rd inst) (alui_value o (c.gpr (rs1 inst)) inst)

-- BRANCH_SIMM, as a 32-bit pattern.
unfoldable pub branch_simm : ℕ → ℕ
branch_simm inst =
    bit_or (bit_or (bit_or (imm_4_1 inst << 1) (imm_10_5 inst << 5)) (imm_11 inst << 11))
      (u32 (pattern_of 32 (simm_12 inst) << 12))

-- The tests as they stand; that of `bne` is the one of `beq`.
unfoldable pub branch_taken : BranchOp → ℕ → ℕ → Bool
branch_taken beq a b = a == b
branch_taken bne a b = a == b
branch_taken blt a b = ltb_ℤ (int32 a) (int32 b)
branch_taken bge a b = if ltb_ℤ (int32 a) (int32 b) then Bool.false else Bool.true
branch_taken bltu a b = ltb a b
branch_taken bgeu a b = leb b a

unfoldable pub exec_branch : BranchOp → ℕ → Cpu → Cpu
exec_branch o inst c =
    if branch_taken o (c.gpr (rs1 inst)) (c.gpr (rs2 inst))
    then record c { pc = u32 (c.pc + u32 (branch_simm inst << 1)) }
    else c

-- CHECK_ALIGNED_ADDR
abbrev pub is_aligned : ℕ → ℕ → Bool
is_aligned align addr = bit_and addr (align - 1) == 0

abbrev pub load_len : LoadOp → ℕ
load_len lb = 1
load_len lbu = 1
load_len lh = 2
load_len lhu = 2
load_len lw = 4

-- The casts round `load_mem`.
unfoldable pub extend : LoadOp → ℕ → ℕ
extend lw v = v
extend lb v = pattern_of 32 (signed 8 (u8 v))
extend lbu v = v
extend lh v = pattern_of 32 (signed 16 (u16 v))
extend lhu v = v

abbrev pub load_addr : ℕ → Cpu → ℕ
load_addr inst c = u32 (c.gpr (rs1 inst) + pattern_of 32 (simm_11_0 inst))

unfoldable pub exec_load : LoadOp → ℕ → Cpu → System → Outcome (Cpu × System)
unfolding extend
exec_load o inst c s = do
  cpu_assert (is_aligned (load_len o) (load_addr inst c))
  (v, s') ← load_mem s (load_addr inst c) (load_len o)
  ok (set_gpr c (rd inst) (extend o v), s')

-- STORE_SIMM
unfoldable pub store_simm : ℕ → ℕ
store_simm inst = bit_or (bit_or (imm_4_0 inst << 0) (imm_11_5 inst << 5)) (simm_11 inst << 12)

abbrev pub store_len : StoreOp → ℕ
store_len sb = 1
store_len sh = 2
store_len sw = 4

abbrev pub store_addr : ℕ → Cpu → ℕ
store_addr inst c = u32 (c.gpr (rs1 inst) + store_simm inst)

unfoldable pub exec_store : StoreOp → ℕ → Cpu → System → Outcome (Cpu × System)
exec_store o inst c s = do
  cpu_assert (is_aligned (store_len o) (store_addr inst c))
  s' ← store_mem s (store_addr inst c) (store_len o) (c.gpr (rs2 inst))
  ok (c, s')

-- The assignments in their order: `gpr[rd]` is written before `csr` and before `gpr[rs1]` is read
-- again. The immediate forms take the number `rs1` itself.
unfoldable pub exec_csr : CsrOp → ℕ → Cpu → Cpu
exec_csr csrrci inst c =
    let old = c.csr_file (imm_11_0 inst) in
    let c' = set_gpr c (rd inst) old in
    if not_eq (rs1 inst) 0
    then set_csr c' (imm_11_0 inst) (bit_and (c'.csr_file (imm_11_0 inst)) (not32 (rs1 inst)))
    else c
exec_csr csrrsi inst c =
    let old = c.csr_file (imm_11_0 inst) in
    let c' = set_gpr c (rd inst) old in
    if not_eq (rs1 inst) 0
    then set_csr c' (imm_11_0 inst) (bit_or (c'.csr_file (imm_11_0 inst)) (rs1 inst))
    else c
exec_csr csrrwi inst c =
    let c' = set_gpr c (rd inst) (c.csr_file (imm_11_0 inst)) in
    if not_eq (c.gpr (rd inst)) 0 then set_csr c' (imm_11_0 inst) (rs1 inst) else c
exec_csr csrrc inst c =
    let c' = set_gpr c (rd inst) (c.csr_file (imm_11_0 inst)) in
    set_csr c' (imm_11_0 inst) (bit_and (c'.csr_file (imm_11_0 inst)) (not32 (c'.gpr (rs1 inst))))
exec_csr csrrs inst c =
    let c' = set_gpr c (rd inst) (c.csr_file (imm_11_0 inst)) in
    set_csr c' (imm_11_0 inst) (bit_or (c'.csr_file (imm_11_0 inst)) (c'.gpr (rs1 inst)))
exec_csr csrrw inst c =
    let c' = set_gpr c (rd inst) (c.csr_file (imm_11_0 inst)) in
    if not_eq (c.gpr (rd inst)) 0 then set_csr c' (imm_11_0 inst) (c'.gpr (rs1 inst)) else c

-- `gpr[rd]` is written first, then `gpr[rs1]` is read.
unfoldable pub exec_jalr : ℕ → Cpu → Cpu
exec_jalr inst c =
    let c' = set_gpr c (rd inst) (u32 (c.pc + 4)) in record c' { pc = c'.gpr (rs1 inst) }

unfoldable pub exec_jal : ℕ → Cpu → Cpu
exec_jal inst c =
    let c' = set_gpr c (rd inst) (u32 (c.pc + 4)) in
    record c' { pc = u32 (c'.pc + u32 (pattern_of 32 (simm_31_12 inst) << 12)) }

unfoldable pub exec_lui : ℕ → Cpu → Cpu
exec_lui inst c = set_gpr c (rd inst) (imm_31_12 inst << 12)

unfoldable pub exec_auipc : ℕ → Cpu → Cpu
exec_auipc inst c = set_gpr c (rd inst) (u32 (c.pc + imm_31_12 inst << 12))

-- The handler at a label.
unfoldable pub exec : Handler → ℕ → Cpu → System → Outcome (Cpu × System)
exec inv inst c s = ok (c, record s { nemu_state = nemu_end })
exec fence inst c s = ok (c, s)
exec ecall_ebreak inst c s = abort
exec lui inst c s = ok (exec_lui inst c, s)
exec auipc inst c s = ok (exec_auipc inst c, s)
exec jal inst c s = ok (exec_jal inst c, s)
exec jalr inst c s = ok (exec_jalr inst c, s)
exec (alu o) inst c s = do c' ← exec_alu o inst c; ok (c', s)
exec (alui o) inst c s = ok (exec_alui o inst c, s)
exec (branch o) inst c s = ok (exec_branch o inst c, s)
exec (load o) inst c s = exec_load o inst c s
exec (store o) inst c s = exec_store o inst c s
exec (csr o) inst c s = ok (exec_csr o inst c, s)
