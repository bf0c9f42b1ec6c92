-- ===== src/Isa/Branches.antt =====
-- Where the branches of src/cpu/exec-handlers.h agree with the manual.
use nemu_riscv.Base.{ℕ, ◌+◌, ◌-◌, ◌*◌, ◌%◌, ◌^◌, ◌<◌, ◌≡◌, ◌↔◌, refl, sym, ap, ◌∙◌, arith}
use nemu_riscv.Base.{
  Bool, true, false, Outcome, ok, ok-injective, ◌>>=◌, u32, signed, pattern_of, if◌then◌else◌,
}
use nemu_riscv.Inst.{rs1, rs2}
use nemu_riscv.System.{System}
use nemu_riscv.Decode.{BranchOp, beq, bne, blt, bge, bltu, bgeu, branch}
use nemu_riscv.Exec.{Cpu, exec, branch_taken}
use nemu_riscv.Exec.Branches.{b_immediate, exec_branch_target}
use nemu_riscv.Types.{IsWords}
use nemu_riscv.Isa.{isa, isa_taken, read_x, sign_extend, next}
use nemu_riscv.Isa.Words.{signed_less_lem}

-- The 4 that `cpu_exec` adds.
abbrev pub pc_added : Cpu × System → Outcome (Cpu × System)
pc_added r = ok (next r.0, r.1)

-- `bne` branches where the manual does not.
abbrev handler_takes : BranchOp → Bool → Bool
handler_takes bne taken = if taken then false else true
handler_takes _ taken = taken

branch_taken_lem :
    (o : BranchOp) (a b : ℕ)
    → a < 2 ^ 32
    → b < 2 ^ 32
    → branch_taken o a b ≡ handler_takes o (isa_taken o a b)
unfolding branch_taken isa_taken
branch_taken_lem beq a b ha hb = refl
branch_taken_lem bne a b ha hb = ground arith
branch_taken_lem blt a b ha hb = signed_less_lem a b ha hb
branch_taken_lem bge a b ha hb = rw (signed_less_lem a b ha hb) refl
branch_taken_lem bltu a b ha hb = refl
branch_taken_lem bgeu a b ha hb = ground arith

-- The pc after the branch, with the offset `b` of 13 bits.
abbrev handler_pc : Bool → ℕ → ℕ → ℕ
handler_pc true p b = u32 (u32 (p + 2 * sign_extend 13 b) + 4)
handler_pc false p b = u32 (p + 4)

abbrev manual_pc : Bool → ℕ → ℕ → ℕ
manual_pc true p b = (p + sign_extend 13 b) % 2 ^ 32
manual_pc false p b = (p + 4) % 2 ^ 32

-- The offsets at which the two agree, by what the manual's test says: -4 where the branch is taken.
-- For `bne` it is 4 where it is taken and 0 where it is not.
abbrev pub IsExactBranch : BranchOp → Bool → ℕ → Type 0
IsExactBranch bne true b = b ≡ 4
IsExactBranch bne false b = b ≡ 0
IsExactBranch _ true b = b ≡ 2 ^ 13 - 4
IsExactBranch _ false b = Unit {0}

twice_and_four :
    (p b : ℕ) → b < 2 ^ 13 → (handler_pc true p b ≡ manual_pc true p b) ↔ (b ≡ 2 ^ 13 - 4)
twice_and_four p b h = ground arith

pcs_meet :
    (o : BranchOp) (taken : Bool) (p b : ℕ)
    → b < 2 ^ 13
    → b % 2 ≡ 0
    → (handler_pc (handler_takes o taken) p b ≡ manual_pc taken p b) ↔ IsExactBranch o taken b
pcs_meet bne true p b h even = ground arith
pcs_meet bne false p b h even = ground arith
pcs_meet beq true p b h even = twice_and_four p b h
pcs_meet beq false p b h even = (λ e. tt, λ e. refl)
pcs_meet blt true p b h even = twice_and_four p b h
pcs_meet blt false p b h even = (λ e. tt, λ e. refl)
pcs_meet bge true p b h even = twice_and_four p b h
pcs_meet bge false p b h even = (λ e. tt, λ e. refl)
pcs_meet bltu true p b h even = twice_and_four p b h
pcs_meet bltu false p b h even = (λ e. tt, λ e. refl)
pcs_meet bgeu true p b h even = twice_and_four p b h
pcs_meet bgeu false p b h even = (λ e. tt, λ e. refl)

extended : (b : ℕ) → b < 2 ^ 13 → pattern_of 32 (signed 13 b) ≡ sign_extend 13 b
extended b h = ground arith

at_pc :
    (c : Cpu) (s : System) (taken : Bool) (b : ℕ)
    → pc_added (if taken then record c { pc = u32 (c.pc + 2 * sign_extend 13 b) } else c, s)
      ≡ ok (record c { pc = handler_pc taken c.pc b }, s)
at_pc c s true b = refl
at_pc c s false b = refl

at_manual_pc :
    (c : Cpu) (s : System) (taken : Bool) (b : ℕ)
    → ◌≡◌ {A = Outcome (Cpu × System)}
        (ok ((if taken then record c { pc = (c.pc + sign_extend 13 b) % 2 ^ 32 } else next c), s))
        (ok (record c { pc = manual_pc taken c.pc b }, s))
at_manual_pc c s true b = refl
at_manual_pc c s false b = refl

module _ (inst : ℕ) (c : Cpu) (words : IsWords c.gpr) (zero_x : c.gpr 0 ≡ 0) where
  pub read_x_lem : (i : ℕ) → read_x c i ≡ c.gpr i
  read_x_lem i = ground arith

  -- The manual's test.
  abbrev taken_at : BranchOp → Bool
  taken_at o = isa_taken o (c.gpr (rs1 inst)) (c.gpr (rs2 inst))

  handler_branches :
      (o : BranchOp) (s : System)
      → (exec (branch o) inst c s >>= pc_added)
        ≡ ok
            (record c { pc = handler_pc (handler_takes o (taken_at o)) c.pc (b_immediate inst) }, s)
  unfolding exec
  handler_branches o s =
      rw
        (
          exec_branch_target o inst c,
          branch_taken_lem o _ _ (words (rs1 inst)) (words (rs2 inst)),
          extended (b_immediate inst) (omega arith),
        )
        (at_pc c s (handler_takes o (taken_at o)) (b_immediate inst))

  manual_branches :
      (has_csr : ℕ → Bool) (o : BranchOp) (s : System)
      → isa has_csr (branch o) inst c s
        ≡ ok (record c { pc = manual_pc (taken_at o) c.pc (b_immediate inst) }, s)
  unfolding isa
  manual_branches has_csr o s =
      rw (read_x_lem (rs1 inst), read_x_lem (rs2 inst))
        (at_manual_pc c s (taken_at o) (b_immediate inst))

-- With 32-bit registers and register 0 at zero, a branch with the 4 that `cpu_exec` adds has the
-- manual's outcome if and only if its offset is one of a few: any where the branch is not taken, and
-- -4 (2 ^ 13 - 4 as a number of 13 bits) where it is taken. For `bne` it is 4 where the manual takes
-- it, and 0 where it does not.
pub exec_branch-isa_iff :
    (has_csr : ℕ → Bool) (o : BranchOp) (inst : ℕ) (c : Cpu) (s : System)
    → IsWords c.gpr
    → c.gpr 0 ≡ 0
    → ((exec (branch o) inst c s >>= pc_added) ≡ isa has_csr (branch o) inst c s)
      ↔ IsExactBranch o (isa_taken o (c.gpr (rs1 inst)) (c.gpr (rs2 inst))) (b_immediate inst)
exec_branch-isa_iff has_csr o inst c s words zero_x =
    let handler = handler_branches inst c words zero_x o s in
    let manual = manual_branches inst c words zero_x has_csr o s in
    let taken = isa_taken o (c.gpr (rs1 inst)) (c.gpr (rs2 inst)) in
    let (there, back) = pcs_meet o taken c.pc (b_immediate inst) (omega arith) (omega arith) in
    (
      (λ e. there (ap (λ r. r.0.pc) (ok-injective (sym handler ∙ e ∙ manual)))),
      (λ b. handler ∙ ap (λ (p : ℕ). ok (record c { pc = p }, s)) (back b) ∙ sym manual),
    )
