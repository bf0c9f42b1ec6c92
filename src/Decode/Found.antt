-- ===== src/Decode/Found.antt =====
-- Which encodings of the manual the tables of src/cpu/exec-handlers.h lead to their handlers.
use nemu_riscv.Base.{ℕ, ◌≡◌, ◌≢◌, ◌↔◌, inl, inr, sym, ◌∙◌, arith, ok, ◌==◌, Bool-cases}
use nemu_riscv.Inst.{func7}
use nemu_riscv.Decode.{Handler, dispatch, inv, jal, jalr}
use nemu_riscv.Decode.{alui}
use nemu_riscv.Decode.{AluiOp, addi, slli, srli, srai}
use nemu_riscv.Decode.Manual.{Encodes, IsFound, AluiFunc7, alui_func3}
use nemu_riscv.Decode.Tables.{
  dispatch-Encodes, dispatch-alui, dispatch-alui_wide, dispatch-jal, dispatch-jalr,
}

srai_or_short : (o : AluiOp) (f7 : ℕ) → AluiFunc7 o f7 → f7 ≡ 0 → o ≢ srai
srai_or_short srai f7 r short e = absurd (omega arith)
srai_or_short addi f7 r short e = absurd (cc)
srai_or_short slli f7 r short e = absurd (cc)
srai_or_short _ f7 r short e = absurd (cc)

-- The right shifts have a `func7` of their own, which is not 1.
no_shift : (o : AluiOp) (f7 : ℕ) → AluiFunc7 o f7 → f7 ≡ 1 → alui_func3 o ≢ 5
no_shift srai f7 r one e = absurd (omega arith)
no_shift srli f7 r one e = absurd (omega arith)
no_shift addi f7 r one e = absurd (omega arith)
no_shift _ f7 r one e = absurd (omega arith)

pub dispatch-IsFound :
    (h : Handler) (inst : ℕ) → Encodes h inst → IsFound h inst → dispatch inst ≡ ok h
dispatch-IsFound jal inst e f = absurd f
dispatch-IsFound jalr inst e f = absurd f
dispatch-IsFound inv inst e f = absurd e
dispatch-IsFound (alui o) inst (p, q, r) short =
    dispatch-alui o inst (srai_or_short o (func7 inst) r short) p q short
dispatch-IsFound h inst e f = dispatch-Encodes h inst tt e

found : (h : Handler) (inst : ℕ) → Encodes h inst → dispatch inst ≡ ok h → IsFound h inst
found jal inst e d = let other = dispatch-jal inst e in absurd (cc)
found jalr inst e d = let other = dispatch-jalr inst e in absurd (cc)
found (alui o) inst (p, q, r) d = elim (Bool-cases (func7 inst == 0)) [
  | inl short ↦ ground arith
  | inr wide ↦
      let other =
        dispatch-alui_wide inst p (λ e. ground arith)
          (λ one e. no_shift o (func7 inst) r one (sym q ∙ e)) in
      absurd (cc)
]
found h inst e d = tt

-- A word that encodes an instruction of the manual reaches the handler of that instruction if and only
-- if it is neither `jal` nor `jalr`, nor an immediate instruction whose upper seven bits (the `func7`
-- of the shifts, the top of the other immediates) are not all 0.
pub dispatch_iff_IsFound :
    (h : Handler) (inst : ℕ) → Encodes h inst → (dispatch inst ≡ ok h) ↔ IsFound h inst
dispatch_iff_IsFound h inst e = (found h inst e, dispatch-IsFound h inst e)
