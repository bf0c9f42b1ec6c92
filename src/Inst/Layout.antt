-- ===== src/Inst/Layout.antt =====
-- The instruction formats of the RISC-V manual, against the bit-fields of include/cpu/reg.h.
use nemu_riscv.Base.{ℕ, ◌+◌, ◌*◌, ◌/◌, ◌^◌, ◌<◌, ◌≡◌, arith}
use nemu_riscv.Inst.{op, rd, func3, rs1, rs2, func7, imm_11_0}

-- The R-type: `func7 rs2 rs1 func3 rd op` from the highest bit to the lowest. The other formats use
-- the same places for the fields that they share with it.
abbrev pub encode_r : ℕ → ℕ → ℕ → ℕ → ℕ → ℕ → ℕ
encode_r f7 s2 s1 f3 d o = f7 * 2 ^ 25 + s2 * 2 ^ 20 + s1 * 2 ^ 15 + f3 * 2 ^ 12 + d * 2 ^ 7 + o

-- The I-type: `imm[11:0] rs1 func3 rd op`.
abbrev pub encode_i : ℕ → ℕ → ℕ → ℕ → ℕ → ℕ
encode_i imm s1 f3 d o = imm * 2 ^ 20 + s1 * 2 ^ 15 + f3 * 2 ^ 12 + d * 2 ^ 7 + o

module _ (f7 s2 s1 f3 d o : ℕ) where
  -- The fields of an R-type word are what it was put together from.
  fields-encode_r :
      s2 < 2 ^ 5
      → s1 < 2 ^ 5
      → f3 < 2 ^ 3
      → d < 2 ^ 5
      → o < 2 ^ 7
      → f7 < 2 ^ 7
      → let inst = encode_r f7 s2 s1 f3 d o in
        (op inst ≡ o)
        × (rd inst ≡ d)
        × (func3 inst ≡ f3)
        × (rs1 inst ≡ s1)
        × (rs2 inst ≡ s2)
        × (func7 inst ≡ f7)
        × (inst < 2 ^ 32)
  fields-encode_r h2 h1 h3 hd ho h7 = omega arith

-- Every 32-bit word is the R-type word of its fields.
encode_r-fields :
    (inst : ℕ)
    → inst < 2 ^ 32
    → encode_r (func7 inst) (rs2 inst) (rs1 inst) (func3 inst) (rd inst) (op inst) ≡ inst
encode_r-fields inst h = omega arith

-- The upper part of an I-type immediate stands where the R-type has `func7`.
pub fields-encode_i :
    (imm s1 f3 d o : ℕ)
    → imm < 2 ^ 12
    → s1 < 2 ^ 5
    → f3 < 2 ^ 3
    → d < 2 ^ 5
    → o < 2 ^ 7
    → let inst = encode_i imm s1 f3 d o in
      (op inst ≡ o)
      × (rd inst ≡ d)
      × (func3 inst ≡ f3)
      × (rs1 inst ≡ s1)
      × (imm_11_0 inst ≡ imm)
      × (func7 inst ≡ imm / 32)
fields-encode_i imm s1 f3 d o hi h1 h3 hd ho = omega arith
