-- ===== src/Run/Alignment.antt =====
-- The pc stays on a word boundary, except after `jalr` (src/cpu/cpu-exec.c and exec-handlers.h).
use nemu_riscv.Base.{ℕ, ◌%◌, ◌^◌, ◌≡◌, ◌≢◌, ◌∙◌, sym, refl, ap, arith, abort, ok}
use nemu_riscv.Base.{◌<◌, Ensures, bit_and, bit_and_mask, pattern_of, signed}
use nemu_riscv.System.{System}
use nemu_riscv.Decode.{Handler, jal, jalr, BranchOp}
use nemu_riscv.Decode.{branch}
use nemu_riscv.Exec.{Cpu, exec, exec_branch, exec_jal}
use nemu_riscv.Exec.Branches.{exec_branch_target, b_immediate}
use nemu_riscv.Exec.Frame.{exec-Kept}
use nemu_riscv.Run.{Machine, step}
use nemu_riscv.Memory.{instr_fetch}
use nemu_riscv.Decode.{dispatch}
use nemu_riscv.Run.Inversion.{step-Executed}

abbrev IsAligned : ℕ → Type 0
IsAligned pc = pc % 4 ≡ 0

offset_even : (b : ℕ) → b % 2 ≡ 0 → b < 2 ^ 13 → pattern_of 32 (signed 13 b) % 2 ≡ 0
offset_even b h l = ground arith

exec_branch-IsAligned :
    (o : BranchOp) (inst : ℕ) (c : Cpu) → IsAligned c.pc → IsAligned ((exec_branch o inst c).pc)
exec_branch-IsAligned o inst c h =
    let even = offset_even (b_immediate inst) (omega arith) (omega arith) in
    rw (exec_branch_target o inst c) (ground arith)

exec_jal-IsAligned : (inst : ℕ) (c : Cpu) → IsAligned c.pc → IsAligned ((exec_jal inst c).pc)
unfolding exec_jal
exec_jal-IsAligned inst c h = omega arith

-- From a word-aligned pc, every handler but `jalr` that returns leaves a word-aligned pc.
pub exec-IsAligned :
    (h : Handler) (inst : ℕ) (c : Cpu) (s : System)
    → h ≢ jalr
    → IsAligned c.pc
    → Ensures (λ r. IsAligned r.0.pc) (exec h inst c s)
unfolding exec
exec-IsAligned jalr inst c s n a r e = absurd (n refl)
exec-IsAligned jal inst c s n a r e =
    let r_cpu : exec_jal inst c ≡ r.0 = cc in rw (← r_cpu) (exec_jal-IsAligned inst c a)
exec-IsAligned (branch o) inst c s n a r e =
    let r_cpu : exec_branch o inst c ≡ r.0 = cc in rw (← r_cpu) (exec_branch-IsAligned o inst c a)
exec-IsAligned h inst c s n a r e = let k = exec-Kept h inst c s r e in rw (k.pc (λ j. j)) a

-- At a pc that is no multiple of 4 nothing is executed: the assertion fails, whatever the memory
-- holds.
step_unaligned : (m : Machine) → m.cpu.pc % 4 ≢ 0 → step m ≡ abort
unfolding step
step_unaligned m unaligned =
    let masked : bit_and m.cpu.pc 0x3 ≡ m.cpu.pc % 4 = bit_and_mask 2 m.cpu.pc in
    rw masked (ground arith)

-- An instruction that is executed, and does not reach the handler of `jalr`, leaves a pc that is a
-- multiple of 4.
step-IsAligned :
    (m m' : Machine) (inst : ℕ) (sys : System)
    → instr_fetch m.sys m.cpu.pc ≡ ok (inst, sys)
    → dispatch inst ≢ ok jalr
    → step m ≡ ok m'
    → m'.cpu.pc % 4 ≡ 0
step-IsAligned m m' inst sys fetched no_jalr e =
    let x = step-Executed m m' e in
    let both : ok (inst, sys) ≡ ok (x.inst, x.fetched) = sym fetched ∙ x.fetches in
    let same : inst ≡ x.inst = cc in
    let other : x.handler ≢ jalr =
      λ h. no_jalr (ap dispatch same ∙ x.dispatches ∙ ap (λ t. ok t) h) in
    let masked : bit_and m.cpu.pc 0x3 ≡ m.cpu.pc % 4 = bit_and_mask 2 m.cpu.pc in
    let after =
      exec-IsAligned x.handler x.inst m.cpu x.fetched other (sym masked ∙ x.aligned)
        (x.cpu', x.sys') x.executes in
    rw (ap (λ t. t.cpu.pc) x.result) (omega arith)
