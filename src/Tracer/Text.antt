-- ===== src/Tracer/Text.antt =====
-- The texts of the trace: what `vsprintf` makes of the formats that src/cpu/cpu-exec.c and the
-- handlers of src/cpu/exec-handlers.h give to `trace_append`, and the names of the registers.
use nemu_riscv.Base.{ℕ, zero, suc, ◌+◌, ◌-◌, ◌/◌, ◌%◌, ltb, if◌then◌else◌, ℤ, pos, negsuc, length}
use nemu_riscv.Base.{List, [], ◌∷◌, ◌++◌, Option, none, some, get_or, replicate}
use nemu_riscv.Inst.{rd, rs1, rs2, simm_11_0, shamt, imm_31_12}
use nemu_riscv.Exec.{store_simm}
use nemu_riscv.Decode.{AluOp, AluiOp, LoadOp, StoreOp, Handler, alu, alui, load, store, lui}
use nemu_riscv.Decode.{auipc, jalr, add, sub, and, or, xor, slt, sltu, sll, srl, sra, mul, mulh}
use nemu_riscv.Decode.{mulhu, mulhsu, div, rem, divu, remu, addi, slli, slti, sltiu, xori, srli}
use nemu_riscv.Decode.{ori, andi, srai, lb, lh, lw, lbu, lhu, sb, sh, sw}

-- The digits of C's conversions, at most `k` of them.
abbrev pub digit : ℕ → ℕ
digit d = if ltb d 10 then b'0' + d else b'a' + (d - 10)

unfoldable pub digits : ℕ → ℕ → ℕ → List ℕ
digits base zero n = []
digits base (suc k) n =
    let rest = digits base k (n / base) in
    if ltb n base then digit n ∷ [] else rest ++ digit (n % base) ∷ []

-- `%x` of a word, and `%d` of an `int`: eight and ten digits are enough.
abbrev pub hex : ℕ → List ℕ
hex n = digits 16 8 n

abbrev pub decimal : ℤ → List ℕ
decimal (pos n) = digits 10 10 n
decimal (negsuc n) = b'-' ∷ digits 10 10 (n + 1)

-- The width in `%8x` and `%08x`.
abbrev pub padded : ℕ → List ℕ → List ℕ
padded ch text = replicate (8 - length text) ch ++ text

abbrev pub spaces : List ℕ
spaces = b' ' ∷ b' ' ∷ b' ' ∷ b' ' ∷ []

-- "%8x:    "
unfoldable pub pc_text : ℕ → List ℕ
pc_text pc = padded b' ' (hex pc) ++ b':' ∷ spaces

-- "%08x    "
unfoldable pub word_text : ℕ → List ℕ
word_text inst = padded b'0' (hex inst) ++ spaces

unfoldable pub regs : List (List ℕ)
regs =
    (b'z' ∷ b'e' ∷ b'r' ∷ b'o' ∷ [])
    ∷ (b'a' ∷ b't' ∷ [])
    ∷ (b'v' ∷ b'0' ∷ [])
    ∷ (b'v' ∷ b'1' ∷ [])
    ∷ (b'a' ∷ b'0' ∷ [])
    ∷ (b'a' ∷ b'1' ∷ [])
    ∷ (b'a' ∷ b'2' ∷ [])
    ∷ (b'a' ∷ b'3' ∷ [])
    ∷ (b't' ∷ b'0' ∷ [])
    ∷ (b't' ∷ b'1' ∷ [])
    ∷ (b't' ∷ b'2' ∷ [])
    ∷ (b't' ∷ b'3' ∷ [])
    ∷ (b't' ∷ b'4' ∷ [])
    ∷ (b't' ∷ b'5' ∷ [])
    ∷ (b't' ∷ b'6' ∷ [])
    ∷ (b't' ∷ b'7' ∷ [])
    ∷ (b's' ∷ b'0' ∷ [])
    ∷ (b's' ∷ b'1' ∷ [])
    ∷ (b's' ∷ b'2' ∷ [])
    ∷ (b's' ∷ b'3' ∷ [])
    ∷ (b's' ∷ b'4' ∷ [])
    ∷ (b's' ∷ b'5' ∷ [])
    ∷ (b's' ∷ b'6' ∷ [])
    ∷ (b's' ∷ b'7' ∷ [])
    ∷ (b't' ∷ b'8' ∷ [])
    ∷ (b't' ∷ b'9' ∷ [])
    ∷ (b'k' ∷ b'0' ∷ [])
    ∷ (b'k' ∷ b'1' ∷ [])
    ∷ (b'g' ∷ b'p' ∷ [])
    ∷ (b's' ∷ b'p' ∷ [])
    ∷ (b'f' ∷ b'p' ∷ [])
    ∷ (b'r' ∷ b'a' ∷ [])
    ∷ []

abbrev pub reg : ℕ → List ℕ
reg i = get_or regs i []

unfoldable pub alu_name : AluOp → List ℕ
alu_name add = b'a' ∷ b'd' ∷ b'd' ∷ []
alu_name sub = b's' ∷ b'u' ∷ b'b' ∷ []
alu_name and = b'a' ∷ b'n' ∷ b'd' ∷ []
alu_name or = b'o' ∷ b'r' ∷ []
alu_name xor = b'x' ∷ b'o' ∷ b'r' ∷ []
alu_name slt = b's' ∷ b'l' ∷ b't' ∷ []
alu_name sltu = b's' ∷ b'l' ∷ b't' ∷ b'u' ∷ []
alu_name sll = b's' ∷ b'l' ∷ b'l' ∷ []
alu_name srl = b's' ∷ b'r' ∷ b'l' ∷ []
alu_name sra = b's' ∷ b'r' ∷ b'a' ∷ []
alu_name mul = b'm' ∷ b'u' ∷ b'l' ∷ []
alu_name mulh = b'm' ∷ b'u' ∷ b'l' ∷ b'h' ∷ []
alu_name mulhu = b'm' ∷ b'u' ∷ b'l' ∷ b'h' ∷ b'u' ∷ []
alu_name mulhsu = b'm' ∷ b'u' ∷ b'l' ∷ b'h' ∷ b's' ∷ b'u' ∷ []
alu_name div = b'd' ∷ b'i' ∷ b'v' ∷ []
alu_name rem = b'r' ∷ b'e' ∷ b'm' ∷ []
alu_name divu = b'd' ∷ b'i' ∷ b'v' ∷ b'u' ∷ []
alu_name remu = b'r' ∷ b'e' ∷ b'm' ∷ b'u' ∷ []

unfoldable pub alui_name : AluiOp → List ℕ
alui_name addi = b'a' ∷ b'd' ∷ b'd' ∷ b'i' ∷ []
alui_name slli = b's' ∷ b'l' ∷ b'l' ∷ b'i' ∷ []
alui_name slti = b's' ∷ b'l' ∷ b't' ∷ b'i' ∷ []
alui_name sltiu = b's' ∷ b'l' ∷ b't' ∷ b'i' ∷ b'u' ∷ []
alui_name xori = b'x' ∷ b'o' ∷ b'r' ∷ b'i' ∷ []
alui_name srli = b's' ∷ b'r' ∷ b'l' ∷ b'i' ∷ []
alui_name ori = b'o' ∷ b'r' ∷ b'i' ∷ []
alui_name andi = b'a' ∷ b'n' ∷ b'd' ∷ b'i' ∷ []
alui_name srai = b's' ∷ b'r' ∷ b'a' ∷ b'i' ∷ []

-- `inst.I.shamt` in the shifts, `inst.I.simm_11_0` elsewhere.
unfoldable pub alui_operand : AluiOp → ℕ → ℤ
alui_operand slli inst = pos (shamt inst)
alui_operand srli inst = pos (shamt inst)
alui_operand srai inst = pos (shamt inst)
alui_operand _ inst = simm_11_0 inst

unfoldable pub load_name : LoadOp → List ℕ
load_name lb = b'l' ∷ b'b' ∷ []
load_name lh = b'l' ∷ b'h' ∷ []
load_name lw = b'l' ∷ b'w' ∷ []
load_name lbu = b'l' ∷ b'b' ∷ b'u' ∷ []
load_name lhu = b'l' ∷ b'h' ∷ b'u' ∷ []

unfoldable pub store_name : StoreOp → List ℕ
store_name sb = b's' ∷ b'b' ∷ []
store_name sh = b's' ∷ b'h' ∷ []
store_name sw = b's' ∷ b'w' ∷ []

-- "%s,%d(%s)" behind the name
abbrev pub memory_text : ℕ → ℤ → ℕ → List ℕ
memory_text r offset base = b'\t' ∷ reg r ++ b',' ∷ decimal offset ++ b'(' ∷ reg base ++ b')' ∷ []

-- What the handler appends, if it calls `trace_append`.
unfoldable pub handler_text : Handler → ℕ → Option (List ℕ)
handler_text (alu o) inst =
    some (alu_name o ++ b'\t' ∷ reg (rd inst) ++ b',' ∷ reg (rs1 inst) ++ b',' ∷ reg (rs2 inst))
handler_text (alui o) inst = some (
    alui_name o
    ++ b'\t' ∷ reg (rd inst)
    ++ b',' ∷ reg (rs1 inst)
    ++ b',' ∷ decimal (alui_operand o inst))
handler_text (load o) inst = some (load_name o ++ memory_text (rd inst) (simm_11_0 inst) (rs1 inst))
handler_text (store o) inst =
    some (store_name o ++ memory_text (rs2 inst) (pos (store_simm inst)) (rs1 inst))
handler_text lui inst =
    some (b'l' ∷ b'u' ∷ b'i' ∷ b'\t' ∷ reg (rd inst) ++ b',' ∷ hex (imm_31_12 inst))
handler_text auipc inst =
    some (b'a' ∷ b'u' ∷ b'i' ∷ b'p' ∷ b'c' ∷ b'\t' ∷ reg (rd inst) ++ b',' ∷ hex (imm_31_12 inst))
handler_text jalr inst = some (b'j' ∷ b'a' ∷ b'l' ∷ b'r' ∷ b'\t' ∷ reg (rd inst))
handler_text _ inst = none
