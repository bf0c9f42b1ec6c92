-- ===== src/Alu.antt =====
-- What the register and immediate instructions of src/cpu/exec-handlers.h compute from their
-- operands. `gpr` holds 32-bit patterns; a cast to `int32_t` is `int32`, and an `int` stored into
-- `gpr` or added to it is taken as its 32-bit pattern. A division by zero and the one signed quotient
-- that does not fit are undefined in C (the host's instruction traps).
pub mod Bounds
pub mod Divide
pub mod Multiply
use nemu_riscv.Base.{ℕ, ◌+◌, ◌*◌, ◌/◌, ◌%◌, ◌-◌, ◌^◌, Bool, true, false, ltb, ◌==◌, not_eq, ◌||◌}
use nemu_riscv.Base.{◌&&◌, if◌then◌else◌, u32, u64, sub32, shr, ◌<<◌, bit_and, bit_or, bit_xor}
use nemu_riscv.Base.{ℤ, ◌*ℤ◌, ltb_ℤ, int32, signed, pattern_of, sar, truncated_quot, truncated_rem}
use nemu_riscv.Base.{Outcome, ok, ◌>>◌, ◌>>=◌, defined}
use nemu_riscv.Decode.{AluOp, add, sub, and, or, xor, slt, sltu, sll, srl, sra}
use nemu_riscv.Decode.{mul, mulh, mulhu, mulhsu, div, rem, divu, remu}
use nemu_riscv.Decode.{AluiOp, addi, slli, slti, sltiu, xori, srli, ori, andi, srai}
use nemu_riscv.Inst.{imm_11_0, simm_11_0, shamt}

-- A comparison as the `int` that C makes of it.
abbrev pub flag : Bool → ℕ
flag b = if b then 1 else 0

-- The divisor is not 0, and the quotient is not 2 ^ 31.
abbrev pub divides : ℕ → ℕ → Bool
divides a b = not_eq b 0 && (not_eq a (2 ^ 31) || not_eq b (2 ^ 32 - 1))

-- The value put into `gpr[rd]`, from `gpr[rs1]` and `gpr[rs2]`.
unfoldable pub alu_value : AluOp → ℕ → ℕ → Outcome ℕ
alu_value add a b = ok (u32 (a + b))
alu_value sub a b = ok (sub32 a b)
alu_value and a b = ok (bit_and a b)
alu_value or a b = ok (bit_or a b)
alu_value xor a b = ok (bit_xor a b)
alu_value slt a b = ok (flag (ltb_ℤ (int32 a) (int32 b)))
alu_value sltu a b = ok (flag (ltb a b))
alu_value sll a b = ok (u32 (a << bit_and b 0x1f))
alu_value srl a b = ok (shr a (bit_and b 0x1f))
alu_value sra a b = ok (pattern_of 32 (sar (int32 a) (bit_and b 0x1f)))
alu_value mul a b = ok (pattern_of 32 (int32 a *ℤ int32 b))
alu_value mulh a b = ok (pattern_of 32 (sar (int32 a *ℤ int32 b) 32))
alu_value mulhu a b = ok (u32 (shr (u64 (a * b)) 32))
alu_value mulhsu a b =
    -- the product of an `int64_t` and a `uint64_t` is taken in `uint64_t`
    ok (pattern_of 32 (sar (signed 64 (u64 (pattern_of 64 (int32 a) * b))) 32))
alu_value div a b = defined (divides a b) >> ok (pattern_of 32 (truncated_quot (int32 a) (int32 b)))
alu_value rem a b = defined (divides a b) >> ok (pattern_of 32 (truncated_rem (int32 a) (int32 b)))
alu_value divu a b = defined (not_eq b 0) >> ok (a / b)
alu_value remu a b = defined (not_eq b 0) >> ok (a % b)

-- The value put into `gpr[rd]`, from `gpr[rs1]` and the instruction.
unfoldable pub alui_value : AluiOp → ℕ → ℕ → ℕ
alui_value addi a inst = u32 (a + pattern_of 32 (simm_11_0 inst))
alui_value slli a inst = u32 (a << shamt inst)
alui_value srli a inst = shr a (shamt inst)
alui_value srai a inst = pattern_of 32 (sar (int32 a) (shamt inst))
alui_value andi a inst = bit_and a (pattern_of 32 (simm_11_0 inst))
alui_value ori a inst = bit_or a (pattern_of 32 (simm_11_0 inst))
alui_value xori a inst = bit_xor a (pattern_of 32 (simm_11_0 inst))
alui_value sltiu a inst = flag (ltb a (imm_11_0 inst))
alui_value slti a inst = flag (ltb_ℤ (int32 a) (simm_11_0 inst))
