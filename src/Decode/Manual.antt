-- ===== src/Decode/Manual.antt =====
-- The opcode, `func3` and `func7` that the RISC-V manual gives to each instruction, independent of
-- the tables of src/cpu/exec-handlers.h.
use nemu_riscv.Base.{ℕ, ◌≡◌}
use nemu_riscv.Inst.{op, func3, func7}
use nemu_riscv.Decode.{AluOp, add, sub, and, or, xor, slt, sltu, sll, srl, sra}
use nemu_riscv.Decode.{mul, mulh, mulhu, mulhsu, div, rem, divu, remu}
use nemu_riscv.Decode.{AluiOp, addi, slli, slti, sltiu, xori, srli, ori, andi, srai}
use nemu_riscv.Decode.{BranchOp, beq, bne, blt, bge, bltu, bgeu, LoadOp, lb, lh, lw, lbu, lhu}
use nemu_riscv.Decode.{StoreOp, sb, sh, sw, CsrOp, csrrw, csrrs, csrrc, csrrwi, csrrsi, csrrci}
use nemu_riscv.Decode.{Handler, inv, fence, auipc, lui, jal, jalr, ecall_ebreak}
use nemu_riscv.Decode.{alu, alui, branch, load, store, csr}

abbrev pub alu_func7 : AluOp → ℕ
alu_func7 add = 0
alu_func7 sll = 0
alu_func7 slt = 0
alu_func7 sltu = 0
alu_func7 xor = 0
alu_func7 srl = 0
alu_func7 or = 0
alu_func7 and = 0
alu_func7 sub = 32
alu_func7 sra = 32
alu_func7 mul = 1
alu_func7 mulh = 1
alu_func7 mulhsu = 1
alu_func7 mulhu = 1
alu_func7 div = 1
alu_func7 divu = 1
alu_func7 rem = 1
alu_func7 remu = 1

abbrev pub alu_func3 : AluOp → ℕ
alu_func3 add = 0
alu_func3 sub = 0
alu_func3 mul = 0
alu_func3 sll = 1
alu_func3 mulh = 1
alu_func3 slt = 2
alu_func3 mulhsu = 2
alu_func3 sltu = 3
alu_func3 mulhu = 3
alu_func3 xor = 4
alu_func3 div = 4
alu_func3 srl = 5
alu_func3 sra = 5
alu_func3 divu = 5
alu_func3 or = 6
alu_func3 rem = 6
alu_func3 and = 7
alu_func3 remu = 7

abbrev pub alui_func3 : AluiOp → ℕ
alui_func3 addi = 0
alui_func3 slli = 1
alui_func3 slti = 2
alui_func3 sltiu = 3
alui_func3 xori = 4
alui_func3 srli = 5
alui_func3 srai = 5
alui_func3 ori = 6
alui_func3 andi = 7

-- Only the shifts have a `func7`; the others have the upper immediate there.
abbrev pub AluiFunc7 : AluiOp → ℕ → Type 0
AluiFunc7 slli f7 = f7 ≡ 0
AluiFunc7 srli f7 = f7 ≡ 0
AluiFunc7 srai f7 = f7 ≡ 32
AluiFunc7 _ f7 = Unit {0}

abbrev pub branch_func3 : BranchOp → ℕ
branch_func3 beq = 0
branch_func3 bne = 1
branch_func3 blt = 4
branch_func3 bge = 5
branch_func3 bltu = 6
branch_func3 bgeu = 7

abbrev pub load_func3 : LoadOp → ℕ
load_func3 lb = 0
load_func3 lh = 1
load_func3 lw = 2
load_func3 lbu = 4
load_func3 lhu = 5

abbrev pub store_func3 : StoreOp → ℕ
store_func3 sb = 0
store_func3 sh = 1
store_func3 sw = 2

abbrev pub csr_func3 : CsrOp → ℕ
csr_func3 csrrw = 1
csr_func3 csrrs = 2
csr_func3 csrrc = 3
csr_func3 csrrwi = 5
csr_func3 csrrsi = 6
csr_func3 csrrci = 7

-- The word is an encoding of the instruction.
abbrev pub Encodes : Handler → ℕ → Type 0
Encodes inv inst = ⊥
Encodes fence inst = op inst ≡ 0x0f
Encodes auipc inst = op inst ≡ 0x17
Encodes lui inst = op inst ≡ 0x37
Encodes jal inst = op inst ≡ 0x6f
Encodes jalr inst = (op inst ≡ 0x67) × (func3 inst ≡ 0)
Encodes ecall_ebreak inst = (op inst ≡ 0x73) × (func3 inst ≡ 0)
Encodes (alu o) inst = (op inst ≡ 0x33) × (func3 inst ≡ alu_func3 o) × (func7 inst ≡ alu_func7 o)
Encodes (alui o) inst = (op inst ≡ 0x13) × (func3 inst ≡ alui_func3 o) × AluiFunc7 o (func7 inst)
Encodes (branch o) inst = (op inst ≡ 0x63) × (func3 inst ≡ branch_func3 o)
Encodes (load o) inst = (op inst ≡ 0x03) × (func3 inst ≡ load_func3 o)
Encodes (store o) inst = (op inst ≡ 0x23) × (func3 inst ≡ store_func3 o)
Encodes (csr o) inst = (op inst ≡ 0x73) × (func3 inst ≡ csr_func3 o)

-- The instructions that the tables place as the manual does: all but the immediate instructions
-- and the two jumps.
abbrev pub IsPlaced : Handler → Type 0
IsPlaced jal = ⊥
IsPlaced jalr = ⊥
IsPlaced (alui o) = ⊥
IsPlaced _ = Unit {0}

-- The encodings that the tables lead to their handlers: not the jumps, and of the immediate
-- instructions only those whose upper seven bits are 0.
abbrev pub IsFound : Handler → ℕ → Type 0
IsFound jal inst = ⊥
IsFound jalr inst = ⊥
IsFound (alui o) inst = func7 inst ≡ 0
IsFound _ inst = Unit {0}
