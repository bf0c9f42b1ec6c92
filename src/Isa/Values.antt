-- ===== src/Isa/Values.antt =====
-- The values that src/cpu/exec-handlers.h puts into `gpr[rd]` are those of the manual.
use nemu_riscv.Base.{ℕ, ◌*◌, ◌/◌, ◌%◌, ◌^◌, ◌<◌, ◌≡◌, refl, ap, ◌∙◌, arith}
use nemu_riscv.Base.{◌*ℤ◌, int32, signed, pattern_of, u64, true, ok, ltb_ℤ, Bool, false}
use nemu_riscv.Inst.{field, simm_11_0, imm_11_0, shamt}
use nemu_riscv.Decode.{AluOp, add, sub, and, or, xor, slt, sltu, sll, srl, sra}
use nemu_riscv.Decode.{mul, mulh, mulhu, mulhsu, div, rem, divu, remu}
use nemu_riscv.Decode.{AluiOp, addi, slli, slti, sltiu, xori, srli, ori, andi, srai}
use nemu_riscv.Decode.{LoadOp, lb, lh, lw, lbu, lhu}
use nemu_riscv.Alu.{alu_value, alui_value, flag}
use nemu_riscv.Run.Defined.{IsDivisible}
use nemu_riscv.Exec.{extend}
use nemu_riscv.Isa.{isa_alu, isa_alui, i_immediate, isa_extend, test}
use nemu_riscv.Isa.Words.{
  upper_of, lower_of, read_back, pattern-mul_mixed, signed_less_lem, masked, sar_lem, pos-times,
}
use nemu_riscv.Isa.Division.{quot_word_lem, rem_word_lem}

pub i_immediate_lem : (inst : ℕ) → pattern_of 32 (simm_11_0 inst) ≡ i_immediate inst
i_immediate_lem inst = ground arith

i_immediate-lt : (inst : ℕ) → i_immediate inst < 2 ^ 32
i_immediate-lt inst = ground arith

simm-int32 : (inst : ℕ) → simm_11_0 inst ≡ int32 (i_immediate inst)
simm-int32 inst = ground arith

flag-test : (b : Bool) → flag b ≡ test b
flag-test true = refl
flag-test false = refl

-- On 32-bit operands, each register instruction computes what the manual says, where C defines the
-- expression of its handler: for the four divisions at a divisor other than 0, and for `div` and `rem`
-- not at -2 ^ 31 by -1.
pub alu_value-isa :
    (o : AluOp) (a b : ℕ)
    → a < 2 ^ 32
    → b < 2 ^ 32
    → IsDivisible o a b
    → alu_value o a b ≡ ok (isa_alu o a b)
unfolding alu_value isa_alu
alu_value-isa add a b ha hb d = refl
alu_value-isa sub a b ha hb d = ap ok (omega arith)
alu_value-isa and a b ha hb d = refl
alu_value-isa or a b ha hb d = refl
alu_value-isa xor a b ha hb d = refl
alu_value-isa slt a b ha hb d = ap ok (ap flag (signed_less_lem a b ha hb) ∙ flag-test _)
alu_value-isa sltu a b ha hb d = ap ok (flag-test _)
alu_value-isa sll a b ha hb d = rw (masked b) refl
alu_value-isa srl a b ha hb d = rw (masked b) refl
alu_value-isa sra a b ha hb d = rw (masked b) (ap ok (sar_lem a (b % 32) ha (omega arith)))
alu_value-isa mul a b ha hb d = ap ok (lower_of (int32 a *ℤ int32 b))
alu_value-isa mulh a b ha hb d = ap ok (upper_of (int32 a *ℤ int32 b))
alu_value-isa mulhu a b ha hb d = rw (pos-times a b) (ap ok (omega arith))
alu_value-isa mulhsu a b ha hb d = ap ok (
    upper_of (signed 64 (u64 (pattern_of 64 (int32 a) * b)))
    ∙ ap (λ (t : ℕ). t / 2 ^ 32)
        (read_back (u64 (pattern_of 64 (int32 a) * b)) (omega arith) ∙ pattern-mul_mixed a b ha))
alu_value-isa div a b ha hb d = rw d (ap ok (quot_word_lem a b ha hb (ground arith)))
alu_value-isa rem a b ha hb d = rw d (ap ok (rem_word_lem a b ha hb (ground arith)))
alu_value-isa divu a b ha hb d = ground arith
alu_value-isa remu a b ha hb d = ground arith

-- So does each immediate instruction, but `sltiu` only with an immediate that is not negative.
pub alui_value-isa :
    (o : AluiOp) (a inst : ℕ)
    → a < 2 ^ 32
    → (o ≡ sltiu → field 31 1 inst ≡ 0)
    → alui_value o a inst ≡ isa_alui o a inst
unfolding alui_value isa_alui
alui_value-isa addi a inst ha h = rw (i_immediate_lem inst) refl
alui_value-isa slli a inst ha h = refl
alui_value-isa srli a inst ha h = refl
alui_value-isa srai a inst ha h = sar_lem a (shamt inst) ha (omega arith)
alui_value-isa andi a inst ha h = rw (i_immediate_lem inst) refl
alui_value-isa ori a inst ha h = rw (i_immediate_lem inst) refl
alui_value-isa xori a inst ha h = rw (i_immediate_lem inst) refl
alui_value-isa sltiu a inst ha h =
    let plus : i_immediate inst ≡ imm_11_0 inst = let p = h refl in ground arith in
    rw plus (flag-test _)
alui_value-isa slti a inst ha h =
    ap (λ t. flag (ltb_ℤ (int32 a) t)) (simm-int32 inst)
    ∙ ap flag (signed_less_lem a (i_immediate inst) ha (i_immediate-lt inst))
    ∙ flag-test _

-- The extension of a loaded value.
-- What the unsigned loads rely on: `lbu` and `lhu` do not cut what `load_mem` returns.
abbrev pub IsCut : LoadOp → ℕ → Type 0
IsCut lbu v = v < 2 ^ 8
IsCut lhu v = v < 2 ^ 16
IsCut _ v = Unit {0}

pub extend-isa : (o : LoadOp) (v : ℕ) → IsCut o v → extend o v ≡ isa_extend o v
unfolding extend isa_extend
extend-isa lb v h = ground arith
extend-isa lh v h = ground arith
extend-isa lw v h = refl
extend-isa lbu v h = omega arith
extend-isa lhu v h = omega arith
