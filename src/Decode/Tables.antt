-- ===== src/Decode/Tables.antt =====
-- Which instruction words reach which handler (the tables of src/cpu/exec-handlers.h).
use nemu_riscv.Base.{ℕ, zero, suc, ◌/◌, ◌%◌, ◌<◌, ◌≡◌, ◌≢◌, refl, arith}
use nemu_riscv.Base.{
  Outcome, ok, abort, ◌>>=◌, bit_and_mask, List, [], ◌∷◌, length, Bool-cases, inl, inr, ◌⊎◌,
}
use nemu_riscv.Base.{◌==◌}
use nemu_riscv.Inst.{op, func3, func7}
use nemu_riscv.Decode.{Handler, Entry, dispatch, enter, at, opcode_table, branch_table, load_table}
use nemu_riscv.Decode.{store_table, alui_table_0, alui_table_32, alu_table_0, alu_table_1}
use nemu_riscv.Decode.{alu_table_32, csr_table}
use nemu_riscv.Decode.{exec_load, exec_alui, exec_store, exec_alu, exec_branch, exec_csr, goto}
use nemu_riscv.Decode.{inv, fence, auipc, lui, jal, jalr, ecall_ebreak}
use nemu_riscv.Decode.{alu, alui, branch, load, store, csr}
use nemu_riscv.Base.{Bool, true, false, if◌then◌else◌, ◌∙◌}
use nemu_riscv.Decode.{add, srai, beq, lb, sb, csrrw}
use nemu_riscv.Decode.{AluOp, AluiOp, BranchOp, LoadOp, StoreOp, CsrOp}
use nemu_riscv.Decode.Manual.{Encodes, IsPlaced, alu_func3, alu_func7, alui_func3}
use nemu_riscv.Decode.Manual.{branch_func3, load_func3, store_func3, csr_func3}

-- An index inside a table is defined.
at_total {ℓ} : {A : Type ℓ} (xs : List A) (i : ℕ) → i < length xs → (a : A) × (at xs i ≡ ok a)
unfolding at
at_total [] i h = absurd (omega arith)
at_total (x ∷ xs) zero h = (x, refl)
at_total (x ∷ xs) (suc i) h = at_total xs i (omega arith)

abbrev pub Arrives : Outcome Handler → Type 0
Arrives m = (h : Handler) × (m ≡ ok h)

if_Arrives :
    (b : Bool) (x y : Outcome Handler) → Arrives x → Arrives y → Arrives (if b then x else y)
if_Arrives true x y hx hy = hx
if_Arrives false x y hx hy = hy

enter_total : (e : Entry) (inst : ℕ) → Arrives (enter e inst)
unfolding enter load_table store_table branch_table csr_table alui_table_0 alui_table_32 alu_table_0
    alu_table_1 alu_table_32
enter_total exec_load inst = at_total load_table (func3 inst) (omega arith)
enter_total exec_store inst = at_total store_table (func3 inst) (omega arith)
enter_total exec_branch inst = at_total branch_table (func3 inst) (omega arith)
enter_total exec_csr inst = at_total csr_table (func3 inst) (omega arith)
enter_total exec_alui inst =
    if_Arrives (func7 inst == 0) _ _ (at_total alui_table_0 (func3 inst) (omega arith)) (
      if_Arrives (func7 inst == 1) _ _ (at_total alui_table_32 (func3 inst) (omega arith))
        (inv, refl))
enter_total exec_alu inst =
    if_Arrives (func7 inst == 0) _ _ (at_total alu_table_0 (func3 inst) (omega arith)) (
      if_Arrives (func7 inst == 1) _ _ (at_total alu_table_1 (func3 inst) (omega arith)) (
        if_Arrives (func7 inst == 32) _ _ (at_total alu_table_32 (func3 inst) (omega arith))
          (inv, refl)))
enter_total (goto handler) inst = (handler, refl)

-- The body behind the assertion on the two low bits.
dispatch_body :
    (inst : ℕ)
    → op inst % 4 ≡ 3
    → dispatch inst ≡ (at opcode_table (op inst / 4) >>= λ e. enter e inst)
unfolding dispatch
dispatch_body inst h = rw (bit_and_mask 2 (op inst), h)

-- A word whose opcode is known goes on from the entry of that opcode.
dispatch-op :
    (inst o : ℕ) (e : Entry)
    → op inst ≡ o
    → o % 4 ≡ 3
    → at opcode_table (o / 4) ≡ ok e
    → dispatch inst ≡ enter e inst
dispatch-op inst o e p q r = rw (dispatch_body inst (omega arith), p, r)

at-load_table : (o : LoadOp) → at load_table (load_func3 o) ≡ ok (load o)
unfolding at load_table
at-load_table lb = refl
at-load_table _ = refl

at-store_table : (o : StoreOp) → at store_table (store_func3 o) ≡ ok (store o)
unfolding at store_table
at-store_table sb = refl
at-store_table _ = refl

at-branch_table : (o : BranchOp) → at branch_table (branch_func3 o) ≡ ok (branch o)
unfolding at branch_table
at-branch_table beq = refl
at-branch_table _ = refl

at-csr_table : (o : CsrOp) → at csr_table (csr_func3 o) ≡ ok (csr o)
unfolding at csr_table
at-csr_table csrrw = refl
at-csr_table _ = refl

at-csr_table_zero : at csr_table 0 ≡ ok ecall_ebreak
unfolding at csr_table
at-csr_table_zero = refl

enter-alu :
    (o : AluOp) (inst : ℕ)
    → func3 inst ≡ alu_func3 o
    → func7 inst ≡ alu_func7 o
    → enter exec_alu inst ≡ ok (alu o)
unfolding enter alu_table_0 alu_table_1 alu_table_32 at
enter-alu add inst p q = rw (p, q)
enter-alu _ inst p q = rw (p, q)

-- An instruction that is placed as in the manual reaches its handler.
pub dispatch-Encodes : (h : Handler) (inst : ℕ) → IsPlaced h → Encodes h inst → dispatch inst ≡ ok h
unfolding enter opcode_table at
dispatch-Encodes inv inst pl e = absurd e
dispatch-Encodes jal inst pl e = absurd pl
dispatch-Encodes jalr inst pl e = absurd pl
dispatch-Encodes (alui o) inst pl e = absurd pl
dispatch-Encodes fence inst pl e = dispatch-op inst 0x0f (goto fence) e refl refl
dispatch-Encodes auipc inst pl e = dispatch-op inst 0x17 (goto auipc) e refl refl
dispatch-Encodes lui inst pl e = dispatch-op inst 0x37 (goto lui) e refl refl
dispatch-Encodes ecall_ebreak inst pl (p, q) =
    dispatch-op inst 0x73 exec_csr p refl refl ∙ rw q at-csr_table_zero
dispatch-Encodes (alu o) inst pl (p, q, r) =
    dispatch-op inst 0x33 exec_alu p refl refl ∙ enter-alu o inst q r
dispatch-Encodes (branch o) inst pl (p, q) =
    dispatch-op inst 0x63 exec_branch p refl refl ∙ rw q (at-branch_table o)
dispatch-Encodes (load o) inst pl (p, q) =
    dispatch-op inst 0x03 exec_load p refl refl ∙ rw q (at-load_table o)
dispatch-Encodes (store o) inst pl (p, q) =
    dispatch-op inst 0x23 exec_store p refl refl ∙ rw q (at-store_table o)
dispatch-Encodes (csr o) inst pl (p, q) =
    dispatch-op inst 0x73 exec_csr p refl refl ∙ rw q (at-csr_table o)

pub dispatch_compressed : (inst : ℕ) → op inst % 4 ≢ 3 → dispatch inst ≡ abort
unfolding dispatch
dispatch_compressed inst h = ground (arith, bit_and_mask 2 (op inst))

-- Whatever the word, the tables are never left: a word whose two low bits are set reaches some
-- handler, and any other fails the assertion.
pub dispatch_total :
    (inst : ℕ)
    → ((op inst % 4 ≡ 3) × Arrives (dispatch inst)) ⊎ ((op inst % 4 ≢ 3) × (dispatch inst ≡ abort))
unfolding opcode_table
dispatch_total inst = elim (Bool-cases (op inst % 4 == 3)) [
  | inl same ↦
      let full : op inst % 4 ≡ 3 = ground arith in
      let (e, p) = at_total opcode_table (op inst / 4) (omega arith) in
      inl (full, rw (dispatch_body inst full, p) (enter_total e inst))
  | inr differs ↦
      let compressed : op inst % 4 ≢ 3 = λ e. ground arith in
      inr (compressed, dispatch_compressed inst compressed)
]

enter-alui :
    (o : AluiOp) (inst : ℕ)
    → o ≢ srai
    → func3 inst ≡ alui_func3 o
    → func7 inst ≡ 0
    → enter exec_alui inst ≡ ok (alui o)
unfolding enter alui_table_0 alui_table_32 at
enter-alui srai inst no_srai p q = absurd (no_srai refl)
enter-alui _ inst no_srai p q = rw (p, q)

at-alui_table_32 : (i : ℕ) → i < 8 → i ≢ 5 → at alui_table_32 i ≡ ok inv
unfolding at alui_table_32
at-alui_table_32 zero h ne = refl
at-alui_table_32 (suc zero) h ne = refl
at-alui_table_32 (suc (suc zero)) h ne = refl
at-alui_table_32 (suc (suc (suc zero))) h ne = refl
at-alui_table_32 (suc (suc (suc (suc zero)))) h ne = refl
at-alui_table_32 (suc (suc (suc (suc (suc zero))))) h ne = absurd (ne refl)
at-alui_table_32 (suc (suc (suc (suc (suc (suc zero)))))) h ne = refl
at-alui_table_32 (suc (suc (suc (suc (suc (suc (suc zero))))))) h ne = refl
at-alui_table_32 (suc (suc (suc (suc (suc (suc (suc (suc i)))))))) h ne = absurd (omega arith)

enter-alui_wide :
    (inst : ℕ) → func7 inst ≢ 0 → (func7 inst ≡ 1 → func3 inst ≢ 5) → enter exec_alui inst ≡ ok inv
unfolding enter
enter-alui_wide inst wide shift = elim (Bool-cases (func7 inst == 1)) [
  | inl one ↦
      let is_one : func7 inst ≡ 1 = ground arith in
      rw is_one (at-alui_table_32 (func3 inst) (omega arith) (shift is_one))
  | inr other ↦ ground arith
]

-- An immediate instruction other than `srai` reaches its handler if the upper seven bits of its
-- immediate are 0, that is, with immediates from 0 to 31.
pub dispatch-alui :
    (o : AluiOp) (inst : ℕ)
    → o ≢ srai
    → op inst ≡ 0x13
    → func3 inst ≡ alui_func3 o
    → func7 inst ≡ 0
    → dispatch inst ≡ ok (alui o)
unfolding enter opcode_table at
dispatch-alui o inst no_srai p q r =
    dispatch-op inst 0x13 exec_alui p refl refl ∙ enter-alui o inst no_srai q r

-- Where those seven bits are not 0 (nor 1 with the `func3` of the right shifts) the word is invalid:
-- `addi` and the like with a larger or a negative immediate, and the manual's `srai`.
pub dispatch-alui_wide :
    (inst : ℕ)
    → op inst ≡ 0x13
    → func7 inst ≢ 0
    → (func7 inst ≡ 1 → func3 inst ≢ 5)
    → dispatch inst ≡ ok inv
unfolding enter opcode_table at
dispatch-alui_wide inst p wide shift =
    dispatch-op inst 0x13 exec_alui p refl refl ∙ enter-alui_wide inst wide shift

-- The manual's `jal` reaches the handler of `jalr`.
pub dispatch-jal : (inst : ℕ) → Encodes jal inst → dispatch inst ≡ ok jalr
unfolding enter opcode_table at
dispatch-jal inst p = dispatch-op inst 0x6f (goto jalr) p refl refl

-- The manual's `jalr` is invalid.
pub dispatch-jalr : (inst : ℕ) → Encodes jalr inst → dispatch inst ≡ ok inv
unfolding enter opcode_table at
dispatch-jalr inst e = dispatch-op inst 0x67 (goto inv) e.0 refl refl
