-- ===== src/Inst.antt =====
-- The fields of an instruction word (the union `Inst` of include/cpu/reg.h). The compiler lays
-- bit-fields out from the lowest bit. `int32_t` fields are read in two's complement; `simm_11` of
-- the S-type is declared `uint32_t`, so it is not. The J-type is never used and left out.
pub mod Layout
use nemu_riscv.Base.{ℕ, ◌%◌, ◌^◌, shr, ℤ, signed}

-- The `w` bits from bit `k` on.
abbrev pub field : ℕ → ℕ → ℕ → ℕ
field k w val = shr val k % 2 ^ w

abbrev pub op : ℕ → ℕ
op val = field 0 7 val

abbrev pub rd : ℕ → ℕ
rd val = field 7 5 val

abbrev pub func3 : ℕ → ℕ
func3 val = field 12 3 val

abbrev pub rs1 : ℕ → ℕ
rs1 val = field 15 5 val

abbrev pub rs2 : ℕ → ℕ
rs2 val = field 20 5 val

abbrev pub func7 : ℕ → ℕ
func7 val = field 25 7 val

-- I-type
abbrev pub imm_11_0 : ℕ → ℕ
imm_11_0 val = field 20 12 val

abbrev pub simm_11_0 : ℕ → ℤ
simm_11_0 val = signed 12 (field 20 12 val)

abbrev pub shamt : ℕ → ℕ
shamt val = field 20 5 val

-- S-type
abbrev pub imm_4_0 : ℕ → ℕ
imm_4_0 val = field 7 5 val

abbrev pub imm_11_5 : ℕ → ℕ
imm_11_5 val = field 25 7 val

abbrev pub simm_11 : ℕ → ℕ
simm_11 val = field 31 1 val

-- B-type
abbrev pub imm_11 : ℕ → ℕ
imm_11 val = field 7 1 val

abbrev pub imm_4_1 : ℕ → ℕ
imm_4_1 val = field 8 4 val

abbrev pub imm_10_5 : ℕ → ℕ
imm_10_5 val = field 25 6 val

abbrev pub simm_12 : ℕ → ℤ
simm_12 val = signed 1 (field 31 1 val)

-- U-type
abbrev pub imm_31_12 : ℕ → ℕ
imm_31_12 val = field 12 20 val

abbrev pub simm_31_12 : ℕ → ℤ
simm_31_12 val = signed 20 (field 12 20 val)
