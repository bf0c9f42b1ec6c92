-- ===== src/Exec/Branches.antt =====
-- The branch and store offsets of src/cpu/exec-handlers.h, against the immediates of the manual, and
-- where a branch goes.
use nemu_riscv.Base.{
  ℕ, ◌+◌, ◌*◌, ◌/◌, ◌%◌, ◌-◌, ◌^◌, ◌<◌, ◌≡◌, refl, arith, bit_or-add_low, u32, zero, suc,
}
use nemu_riscv.Base.{pattern_of, signed, ◌<<◌, if◌then◌else◌, bit_or}
use nemu_riscv.Inst.{rs1, rs2, field}
use nemu_riscv.Decode.{BranchOp, beq, bne}
use nemu_riscv.Exec.{Cpu, branch_simm, branch_taken, exec_branch, store_simm}

-- The B-type immediate of the manual: bits 12, 11, 10-5 and 4-1 of an even offset of 13 bits.
abbrev pub b_immediate : ℕ → ℕ
b_immediate inst =
    field 31 1 inst * 2 ^ 12
    + field 7 1 inst * 2 ^ 11
    + field 25 6 inst * 2 ^ 5
    + field 8 4 inst * 2

-- The S-type immediate of the manual, a number of 12 bits.
abbrev pub s_immediate : ℕ → ℕ
s_immediate inst = field 25 7 inst * 2 ^ 5 + field 7 5 inst

branch_parts :
    (a b c d : ℕ)
    → a < 16
    → b < 64
    → c < 2
    → d % 2 ^ 12 ≡ 0
    → bit_or (bit_or (bit_or (a << 1) (b << 5)) (c << 11)) d ≡ a * 2 + b * 2 ^ 5 + c * 2 ^ 11 + d
branch_parts a b c d ha hb hc hd = rw (
  bit_or-add_low 5 (a << 1) (b << 5) (omega arith) (omega arith),
  bit_or-add_low 11 (a << 1 + b << 5) (c << 11) (omega arith) (omega arith),
  bit_or-add_low 12 (a << 1 + b << 5 + c << 11) d (omega arith) hd,
)

sign_part : (b : ℕ) → b < 2 → u32 (pattern_of 32 (signed 1 b) << 12) ≡ b * (2 ^ 32 - 2 ^ 12)
sign_part zero h = refl
sign_part (suc zero) h = refl
sign_part (suc (suc b)) h = absurd (omega arith)

-- BRANCH_SIMM is the manual's offset, extended by its sign to 32 bits.
branch_simm_lem : (inst : ℕ) → branch_simm inst ≡ pattern_of 32 (signed 13 (b_immediate inst))
unfolding branch_simm
branch_simm_lem inst =
    rw
      (
        sign_part (field 31 1 inst) (omega arith),
        branch_parts (field 8 4 inst) (field 25 6 inst) (field 7 1 inst)
            (field 31 1 inst * (2 ^ 32 - 2 ^ 12)) (omega arith) (omega arith) (omega arith)
            (omega arith),
      )
      (ground arith)

-- STORE_SIMM is the manual's immediate, and 4096 more where its sign bit is set: that bit is added
-- in a place above the twelve, not extended. (The sign-extended immediate would be 4096 less.)
pub store_simm_lem :
    (inst : ℕ) → store_simm inst ≡ s_immediate inst + 4096 * (s_immediate inst / 2048)
unfolding store_simm
store_simm_lem inst =
    rw
      (
        bit_or-add_low 5 (field 7 5 inst << 0) (field 25 7 inst << 5) (omega arith) (omega arith),
        bit_or-add_low 12 (field 7 5 inst << 0 + field 25 7 inst << 5) (field 31 1 inst << 12)
            (omega arith) (omega arith),
      )
      (omega arith)

twice_wrap : (p s : ℕ) → u32 (p + u32 (s << 1)) ≡ u32 (p + 2 * s)
twice_wrap p s = omega arith

-- A branch that is taken adds twice the manual's offset to the pc, to which `cpu_exec` adds another
-- 4; a branch that is not taken leaves the pc to that addition alone. No other part of the CPU
-- changes.
pub exec_branch_target :
    (o : BranchOp) (inst : ℕ) (c : Cpu)
    → exec_branch o inst c ≡ (
        if branch_taken o (c.gpr (rs1 inst)) (c.gpr (rs2 inst))
        then record c { pc = u32 (c.pc + 2 * pattern_of 32 (signed 13 (b_immediate inst))) }
        else c)
unfolding exec_branch
exec_branch_target o inst c = rw (branch_simm_lem inst, twice_wrap)

-- `bne` is `beq`: at every state it does the same, so it branches on equal registers.
exec-bne : (inst : ℕ) (c : Cpu) → exec_branch bne inst c ≡ exec_branch beq inst c
unfolding exec_branch branch_taken
exec-bne inst c = refl
