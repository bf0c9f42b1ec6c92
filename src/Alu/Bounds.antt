-- ===== src/Alu/Bounds.antt =====
-- What src/cpu/exec-handlers.h puts into `gpr[rd]` is a 32-bit word.
use nemu_riscv.Base.{ℕ, ◌^◌, ◌<◌, arith, Ensures, Bool, true, false}
use nemu_riscv.Base.{ℤ, pos, negsuc, pattern_of, bit_and, bit_and-lt, bit_or-lt, bit_xor-lt}
use nemu_riscv.Base.{◌>>◌, ok, ◌≡◌, defined}
use nemu_riscv.Decode.{AluOp, add, sub, and, or, xor, slt, sltu, sll, srl, sra}
use nemu_riscv.Decode.{mul, mulh, mulhu, mulhsu, div, rem, divu, remu}
use nemu_riscv.Decode.{AluiOp, addi, slli, slti, sltiu, xori, srli, ori, andi, srai}
use nemu_riscv.Inst.{simm_11_0, shamt}
use nemu_riscv.Alu.{alu_value, alui_value, flag}
use native.Mathlib.Nat.{div-le_self, mod-le}

pub pattern_of-lt : (n : ℤ) → pattern_of 32 n < 2 ^ 32
pattern_of-lt (pos n) = omega arith
pattern_of-lt (negsuc n) = omega arith

flag-lt : (b : Bool) → flag b < 2 ^ 32
flag-lt true = omega arith
flag-lt false = omega arith

Ensures-ok-lt : (w : ℕ) → w < 2 ^ 32 → Ensures (λ v. v < 2 ^ 32) (ok w)
Ensures-ok-lt w h v e = let w-eq : w ≡ v = cc in omega arith

Ensures-defined-lt : (b : Bool) (w : ℕ) → w < 2 ^ 32 → Ensures (λ v. v < 2 ^ 32) (defined b >> ok w)
Ensures-defined-lt true w h v e = Ensures-ok-lt w h v e
Ensures-defined-lt false w h v e = absurd (cc)

-- Every register instruction on 32-bit operands that returns gives a 32-bit result.
pub alu_value-lt :
    (o : AluOp) (a b : ℕ) → a < 2 ^ 32 → b < 2 ^ 32 → (v : ℕ) → alu_value o a b ≡ ok v → v < 2 ^ 32
unfolding alu_value
alu_value-lt add a b ha hb = Ensures-ok-lt _ (omega arith)
alu_value-lt sub a b ha hb = Ensures-ok-lt _ (omega arith)
alu_value-lt and a b ha hb = Ensures-ok-lt _ (bit_and-lt 32 a b ha)
alu_value-lt or a b ha hb = Ensures-ok-lt _ (bit_or-lt 32 a b ha hb)
alu_value-lt xor a b ha hb = Ensures-ok-lt _ (bit_xor-lt 32 a b ha hb)
alu_value-lt slt a b ha hb = Ensures-ok-lt _ (flag-lt _)
alu_value-lt sltu a b ha hb = Ensures-ok-lt _ (flag-lt _)
alu_value-lt sll a b ha hb = Ensures-ok-lt _ (omega arith)
alu_value-lt srl a b ha hb = Ensures-ok-lt _ (omega (arith, div-le_self a (2 ^ bit_and b 0x1f)))
alu_value-lt sra a b ha hb = Ensures-ok-lt _ (pattern_of-lt _)
alu_value-lt mul a b ha hb = Ensures-ok-lt _ (pattern_of-lt _)
alu_value-lt mulh a b ha hb = Ensures-ok-lt _ (pattern_of-lt _)
alu_value-lt mulhu a b ha hb = Ensures-ok-lt _ (omega arith)
alu_value-lt mulhsu a b ha hb = Ensures-ok-lt _ (pattern_of-lt _)
alu_value-lt div a b ha hb = Ensures-defined-lt _ _ (pattern_of-lt _)
alu_value-lt rem a b ha hb = Ensures-defined-lt _ _ (pattern_of-lt _)
alu_value-lt divu a b ha hb = Ensures-defined-lt _ _ (omega (arith, div-le_self a b))
alu_value-lt remu a b ha hb = Ensures-defined-lt _ _ (omega (arith, mod-le a b))

-- Every immediate instruction on a 32-bit operand gives a 32-bit result.
pub alui_value-lt : (o : AluiOp) (a inst : ℕ) → a < 2 ^ 32 → alui_value o a inst < 2 ^ 32
unfolding alui_value
alui_value-lt addi a inst ha = omega arith
alui_value-lt slli a inst ha = omega arith
alui_value-lt srli a inst ha = omega (arith, div-le_self a (2 ^ shamt inst))
alui_value-lt srai a inst ha = pattern_of-lt _
alui_value-lt andi a inst ha = bit_and-lt 32 a _ ha
alui_value-lt ori a inst ha = bit_or-lt 32 a _ ha (pattern_of-lt (simm_11_0 inst))
alui_value-lt xori a inst ha = bit_xor-lt 32 a _ ha (pattern_of-lt (simm_11_0 inst))
alui_value-lt sltiu a inst ha = flag-lt _
alui_value-lt slti a inst ha = flag-lt _
