-- ===== src/Isa.antt =====
-- What the RISC-V manual (RV32IM with Zicsr) says of each instruction, independent of the handlers
-- of src/cpu/exec-handlers.h. The state and the memory are those of the emulator: `gpr` is the
-- register file, read with register 0 fixed at zero, and an access to memory is one of
-- src/memory.c. An exception has no handler to go to: it is `abort`. `has_csr` is the set of CSRs
-- that the hart implements, each as 32 bits of plain storage, as `mscratch` is.
pub mod Words
pub mod Branches
pub mod Division
pub mod Values
pub mod Exact
pub mod Program
use nemu_riscv.Base.{
  ℕ, ◌+◌, ◌*◌, ◌/◌, ◌%◌, ◌-◌, ◌^◌, Bool, ltb, leb, ◌==◌, not_eq, if◌then◌else◌, true, false, ◌&&◌,
}
use nemu_riscv.Base.{ℤ, pos, ◌*ℤ◌, bit_and, bit_or, bit_xor, update, int32, pattern_of, not32}
use nemu_riscv.Base.{Outcome, ok, abort, ◌>>=◌, ◌>>◌, cpu_assert}
use nemu_riscv.Inst.{field, rd, rs1, rs2, imm_11_0, shamt}
use nemu_riscv.System.{System}
use nemu_riscv.Memory.{load_mem, store_mem}
use nemu_riscv.Decode.{AluOp, add, sub, and, or, xor, slt, sltu, sll, srl, sra}
use nemu_riscv.Decode.{mul, mulh, mulhu, mulhsu, div, rem, divu, remu}
use nemu_riscv.Decode.{AluiOp, addi, slli, slti, sltiu, xori, srli, ori, andi, srai}
use nemu_riscv.Decode.{BranchOp, beq, bne, blt, bge, bltu, bgeu, LoadOp, lb, lh, lw, lbu, lhu}
use nemu_riscv.Decode.{StoreOp, sb, sh, sw, CsrOp, csrrw, csrrs, csrrc, csrrwi, csrrsi, csrrci}
use nemu_riscv.Decode.{Handler, inv, fence, auipc, lui, jal, jalr, ecall_ebreak}
use nemu_riscv.Decode.{alu, alui, branch, load, store, csr}
use nemu_riscv.Exec.{Cpu, set_gpr, set_csr, load_len, store_len}
use nemu_riscv.Exec.Branches.{b_immediate, s_immediate}

-- A number of `w` bits, extended by its sign to 32.
abbrev pub sign_extend : ℕ → ℕ → ℕ
sign_extend w v = if ltb v (2 ^ (w - 1)) then v else v + (2 ^ 32 - 2 ^ w)

abbrev pub i_immediate : ℕ → ℕ
i_immediate inst = sign_extend 12 (imm_11_0 inst)

-- The upper twenty bits of the word, in their places.
abbrev pub u_immediate : ℕ → ℕ
u_immediate inst = (inst - inst % 2 ^ 12) % 2 ^ 32

abbrev pub j_immediate : ℕ → ℕ
j_immediate inst =
    field 31 1 inst * 2 ^ 20
    + field 12 8 inst * 2 ^ 12
    + field 20 1 inst * 2 ^ 11
    + field 21 10 inst * 2

abbrev pub read_x : Cpu → ℕ → ℕ
read_x c i = if i == 0 then 0 else c.gpr i

abbrev pub write_x : Cpu → ℕ → ℕ → Cpu
write_x c i v = if i == 0 then c else set_gpr c i v

abbrev pub next : Cpu → Cpu
next c = record c { pc = (c.pc + 4) % 2 ^ 32 }

-- `a < b` of the signed readings: of the words with the sign bits flipped.
abbrev pub signed_less : ℕ → ℕ → Bool
signed_less a b = ltb ((a + 2 ^ 31) % 2 ^ 32) ((b + 2 ^ 31) % 2 ^ 32)

abbrev pub test : Bool → ℕ
test true = 1
test false = 0

abbrev pub is_negative : ℕ → Bool
is_negative a = leb (2 ^ 31) a

abbrev pub magnitude : ℕ → ℕ
magnitude a = if is_negative a then 2 ^ 32 - a else a

abbrev pub opposite : ℕ → ℕ
opposite a = (2 ^ 32 - a) % 2 ^ 32

-- The sign bit fills the places that the shift leaves free.
abbrev pub shift_right_signed : ℕ → ℕ → ℕ
shift_right_signed a k = a / 2 ^ k + (if is_negative a then 2 ^ 32 - 2 ^ (32 - k) else 0)

-- The two halves of a product, in 64 bits.
abbrev pub low_half : ℤ → ℕ
low_half z = pattern_of 64 z % 2 ^ 32

abbrev pub high_half : ℤ → ℕ
high_half z = pattern_of 64 z / 2 ^ 32

-- The signed quotient is the one of the magnitudes, negated where the signs differ, and the
-- remainder has the sign of the dividend; by zero they are -1 and the dividend.
abbrev pub signed_quot : ℕ → ℕ → ℕ
signed_quot a b =
    if b == 0
    then 2 ^ 32 - 1
    else if is_negative a
    then (if is_negative b then magnitude a / magnitude b else opposite (magnitude a / magnitude b))
    else if is_negative b
    then opposite (magnitude a / magnitude b)
    else magnitude a / magnitude b

abbrev pub signed_rem : ℕ → ℕ → ℕ
signed_rem a b =
    if b == 0
    then a
    else if is_negative a
    then opposite (magnitude a % magnitude b)
    else magnitude a % magnitude b

unfoldable pub isa_alu : AluOp → ℕ → ℕ → ℕ
isa_alu add a b = (a + b) % 2 ^ 32
isa_alu sub a b = (a + opposite b) % 2 ^ 32
isa_alu and a b = bit_and a b
isa_alu or a b = bit_or a b
isa_alu xor a b = bit_xor a b
isa_alu slt a b = test (signed_less a b)
isa_alu sltu a b = test (ltb a b)
isa_alu sll a b = a * 2 ^ (b % 32) % 2 ^ 32
isa_alu srl a b = a / 2 ^ (b % 32)
isa_alu sra a b = shift_right_signed a (b % 32)
isa_alu mul a b = low_half (int32 a *ℤ int32 b)
isa_alu mulh a b = high_half (int32 a *ℤ int32 b)
isa_alu mulhu a b = high_half (pos a *ℤ pos b)
isa_alu mulhsu a b = high_half (int32 a *ℤ pos b)
isa_alu div a b = signed_quot a b
isa_alu rem a b = signed_rem a b
isa_alu divu a b = if b == 0 then 2 ^ 32 - 1 else a / b
isa_alu remu a b = if b == 0 then a else a % b

unfoldable pub isa_alui : AluiOp → ℕ → ℕ → ℕ
isa_alui addi a inst = (a + i_immediate inst) % 2 ^ 32
isa_alui slti a inst = test (signed_less a (i_immediate inst))
isa_alui sltiu a inst = test (ltb a (i_immediate inst))
isa_alui xori a inst = bit_xor a (i_immediate inst)
isa_alui ori a inst = bit_or a (i_immediate inst)
isa_alui andi a inst = bit_and a (i_immediate inst)
isa_alui slli a inst = a * 2 ^ shamt inst % 2 ^ 32
isa_alui srli a inst = a / 2 ^ shamt inst
isa_alui srai a inst = shift_right_signed a (shamt inst)

unfoldable pub isa_taken : BranchOp → ℕ → ℕ → Bool
isa_taken beq a b = a == b
isa_taken bne a b = not_eq a b
isa_taken blt a b = signed_less a b
isa_taken bge a b = if signed_less a b then false else true
isa_taken bltu a b = ltb a b
isa_taken bgeu a b = if ltb a b then false else true

unfoldable pub isa_extend : LoadOp → ℕ → ℕ
isa_extend lb v = sign_extend 8 (v % 2 ^ 8)
isa_extend lh v = sign_extend 16 (v % 2 ^ 16)
isa_extend lw v = v
isa_extend lbu v = v % 2 ^ 8
isa_extend lhu v = v % 2 ^ 16

-- The new value of the CSR, from the old one and the source (`rs1` or its number).
unfoldable pub isa_csr : CsrOp → ℕ → ℕ → ℕ
isa_csr csrrw old source = source
isa_csr csrrwi old source = source
isa_csr csrrs old source = bit_or old source
isa_csr csrrsi old source = bit_or old source
isa_csr csrrc old source = bit_and old (not32 source)
isa_csr csrrci old source = bit_and old (not32 source)

abbrev pub csr_source : CsrOp → ℕ → Cpu → ℕ
csr_source csrrwi inst c = rs1 inst
csr_source csrrsi inst c = rs1 inst
csr_source csrrci inst c = rs1 inst
csr_source _ inst c = read_x c (rs1 inst)

-- The effective addresses.
abbrev pub isa_load_addr : ℕ → Cpu → ℕ
isa_load_addr inst c = (read_x c (rs1 inst) + i_immediate inst) % 2 ^ 32

abbrev pub isa_store_addr : ℕ → Cpu → ℕ
isa_store_addr inst c = (read_x c (rs1 inst) + sign_extend 12 (s_immediate inst)) % 2 ^ 32

-- Whether the instruction writes its CSR: the forms that set and clear bits do not, where the field
-- `rs1` is 0.
abbrev pub csr_writes : CsrOp → ℕ → Bool
csr_writes csrrw inst = true
csr_writes csrrwi inst = true
csr_writes _ inst = not_eq (rs1 inst) 0

-- No exception: the CSR is there, and one whose number starts with the bits 11 is not written.
abbrev pub csr_allowed : (ℕ → Bool) → CsrOp → ℕ → Bool
csr_allowed has_csr o inst =
    has_csr (imm_11_0 inst)
    && (if csr_writes o inst then not_eq (imm_11_0 inst / 2 ^ 10) 3 else true)

-- One instruction, the pc included.
unfoldable pub isa : (ℕ → Bool) → Handler → ℕ → Cpu → System → Outcome (Cpu × System)
isa has_csr inv inst c s = abort
isa has_csr ecall_ebreak inst c s = abort
isa has_csr fence inst c s = ok (next c, s)
isa has_csr lui inst c s = ok (next (write_x c (rd inst) (u_immediate inst)), s)
isa has_csr auipc inst c s = ok (next (write_x c (rd inst) ((c.pc + u_immediate inst) % 2 ^ 32)), s)
isa has_csr jal inst c s = ok (
  record (write_x c (rd inst) ((c.pc + 4) % 2 ^ 32)) {
    pc = (c.pc + sign_extend 21 (j_immediate inst)) % 2 ^ 32;
  },
  s,
)
isa has_csr jalr inst c s = ok (
  record (write_x c (rd inst) ((c.pc + 4) % 2 ^ 32)) {
    pc = (read_x c (rs1 inst) + i_immediate inst) % 2 ^ 32 / 2 * 2;
  },
  s,
)
isa has_csr (alu o) inst c s =
    ok (next (write_x c (rd inst) (isa_alu o (read_x c (rs1 inst)) (read_x c (rs2 inst)))), s)
isa has_csr (alui o) inst c s =
    ok (next (write_x c (rd inst) (isa_alui o (read_x c (rs1 inst)) inst)), s)
isa has_csr (branch o) inst c s = ok (
  (if isa_taken o (read_x c (rs1 inst)) (read_x c (rs2 inst))
      then record c { pc = (c.pc + sign_extend 13 (b_immediate inst)) % 2 ^ 32 }
      else next c),
  s,
)
isa has_csr (load o) inst c s = do
  cpu_assert (isa_load_addr inst c % load_len o == 0)
  (v, s') ← load_mem s (isa_load_addr inst c) (load_len o)
  ok (next (write_x c (rd inst) (isa_extend o v)), s')
isa has_csr (store o) inst c s = do
  cpu_assert (isa_store_addr inst c % store_len o == 0)
  s' ← store_mem s (isa_store_addr inst c) (store_len o) (read_x c (rs2 inst))
  ok (next c, s')
isa has_csr (csr o) inst c s = do
  cpu_assert (csr_allowed has_csr o inst)
  let old = c.csr_file (imm_11_0 inst)
  ok (
    next (set_csr (write_x c (rd inst) old) (imm_11_0 inst) (isa_csr o old (csr_source o inst c))),
    s,
  )
