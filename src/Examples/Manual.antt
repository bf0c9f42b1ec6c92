-- ===== src/Examples/Manual.antt =====
-- The theorems that compare the emulator with the manual, at concrete words and at the program.
use nemu_riscv.Base.{◌≡◌, ◌↔◌, refl, arith, ok, ◌>>=◌, update, [], ◌∷◌}
use nemu_riscv.System.{System, nemu_running, nemu_end, hit_good_trap}
use nemu_riscv.Address.{prot_addr}
use nemu_riscv.Ram.{read_handler}
use nemu_riscv.Decode.{dispatch, alui, addi}
use nemu_riscv.Decode.Manual.{IsFound}
use nemu_riscv.Decode.Found.{dispatch_iff_IsFound}
use nemu_riscv.Exec.{Cpu, exec}
use nemu_riscv.Base.{ℕ, Bool, true, ◌==◌, abort}
use nemu_riscv.Memory.{load_mem}
use nemu_riscv.Decode.{load, lbu, csr, csrrw}
use nemu_riscv.Isa.{isa, isa_extend}
use nemu_riscv.Isa.Branches.{IsExactBranch, pc_added, exec_branch-isa_iff}
use nemu_riscv.Isa.{isa_taken}
use nemu_riscv.Inst.{rs1, rs2}
use nemu_riscv.Decode.{beq, branch}
use nemu_riscv.Exec.Branches.{b_immediate}
use nemu_riscv.Examples.{zeros, blank, reset_cpu, program}

-- `addi x1, x0, -1`, which the tables do not find.
dispatch_iff_IsFound_example :
    (dispatch 0xfff00093 ≡ ok (alui addi)) ↔ IsFound (alui addi) 0xfff00093
dispatch_iff_IsFound_example = dispatch_iff_IsFound (alui addi) 0xfff00093 (refl, refl, tt)

-- A hart with `mscratch` alone.
abbrev scratch_only : ℕ → Bool
scratch_only number = number == 0x340

abbrev two_values : Cpu
two_values = record reset_cpu { gpr = update (update zeros 1 30) 2 12 }

-- `beq x0, x0, -4`
exec_branch-isa_iff_example :
    ((exec (branch beq) 0xfe000ee3 reset_cpu blank >>= pc_added)
      ≡ isa scratch_only (branch beq) 0xfe000ee3 reset_cpu blank)
    ↔ IsExactBranch beq
        (isa_taken beq (reset_cpu.gpr (rs1 0xfe000ee3)) (reset_cpu.gpr (rs2 0xfe000ee3)))
        (b_immediate 0xfe000ee3)
exec_branch-isa_iff_example =
    exec_branch-isa_iff scratch_only beq 0xfe000ee3 reset_cpu blank (λ i. omega arith) refl

abbrev running : System
running = record blank { ddr = program; nemu_state = nemu_running }

abbrev after_addi : Cpu
after_addi = record reset_cpu { gpr = update zeros 1 5; pc = 0x80001004 }

abbrev after_lui : Cpu
after_lui = record reset_cpu { gpr = update (update zeros 1 5) 2 0x10000000; pc = 0x80001008 }

abbrev after_sb : Cpu
after_sb = record after_lui { pc = 0x8000100c }

abbrev ended : System
ended = record running { nemu_state = nemu_end; stderr = hit_good_trap ∷ [] }

-- `lbu x3, 0(x1)` with 0x80 at the address: the manual cuts the byte, and writes it without a sign.
lbu_of_manual :
    isa scratch_only
      (load lbu)
      0x0000c183
      (record reset_cpu { gpr = update zeros 1 0x80002000 })
      (record blank { ddr = update zeros 0x2000 0x80 })
    ≡ ok (
      record reset_cpu { gpr = update (update zeros 1 0x80002000) 3 0x80; pc = 0x80001004 },
      record blank { ddr = update zeros 0x2000 0x80 },
    )
unfolding isa isa_extend load_mem prot_addr read_handler
lbu_of_manual = refl

-- `csrrw x3, 0xc00, x1`: an exception, both on a hart without that CSR and on one that has it, since
-- it is read-only.
cycle_of_manual :
    (isa scratch_only (csr csrrw) 0xc00091f3 reset_cpu blank ≡ abort)
    × (isa (λ number. true) (csr csrrw) 0xc00091f3 reset_cpu blank ≡ abort)
unfolding isa
cycle_of_manual = (refl, refl)
