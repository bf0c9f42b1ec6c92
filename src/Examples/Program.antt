-- ===== src/Examples/Program.antt =====
-- A program of a store and a load: `sb x2, 0(x1)` and `lb x3, 0(x4)`, where x1 and x4 stand for the
-- same byte in two segments.
use nemu_riscv.Base.{ℕ, ◌≡◌, refl, inl, arith, if◌then◌else◌, ◌==◌, Returns}
use nemu_riscv.Ram.{load_host}
use nemu_riscv.Address.{prot_addr}
use nemu_riscv.System.{nemu_stop}
use nemu_riscv.Memory.FastPath.{IsMemory}
use nemu_riscv.Decode.{sb, lb, dispatch, at, opcode_table, store_table, load_table}
use nemu_riscv.Exec.{set_gpr, extend, store_simm}
use nemu_riscv.Run.{Machine, cpu_exec}
use nemu_riscv.Run.StoreLoad.{Holds, IsPlace, cpu_exec-store-load}
use nemu_riscv.Examples.{booted, blank, reset_cpu}

abbrev bytes : ℕ → ℕ
bytes i =
    if i == 0x1000
    then 0x23
    else if i == 0x1001
    then 0x80
    else if i == 0x1002
    then 0x20
    else if i == 0x1004
    then 0x83
    else if i == 0x1005
    then 0x01
    else if i == 0x1006
    then 0x02
    else 0

abbrev registers : ℕ → ℕ
registers i =
    if i == 1 then 0x80002000 else if i == 2 then 0x123456f0 else if i == 4 then 0xa0002000 else 0

abbrev copying : Machine
copying = record booted {
  cpu = record (reset_cpu) { gpr = registers };
  sys = record blank { ddr = bytes };
}

copying-IsMemory : IsMemory copying.sys
copying-IsMemory = record { ddr_bytes = λ i. ground arith; bram_bytes = λ i. omega arith }

first-Holds : Holds copying.sys 0x80001000 0x00208023
unfolding prot_addr load_host
first-Holds = record { aligned = refl; above = omega arith; fits = omega arith; word_there = refl }

second-Holds : Holds copying.sys 0x80001004 0x00020183
unfolding prot_addr load_host
second-Holds = record { aligned = refl; above = omega arith; fits = omega arith; word_there = refl }

target-IsPlace : IsPlace 0x80002000 1
unfolding prot_addr
target-IsPlace = record { aligned = refl; above = omega arith; fits = omega arith }

alias-IsPlace : IsPlace 0xa0002000 1
unfolding prot_addr
alias-IsPlace = record { aligned = refl; above = omega arith; fits = omega arith }

-- The byte 0xf0 comes back with its sign.
cpu_exec-store-load_example :
    Returns
      (λ m'.
        (m'.sys.nemu_state ≡ nemu_stop)
        × (m'.cpu ≡ record (set_gpr copying.cpu 3 0xfffffff0) { pc = 0x80001008 }))
      (cpu_exec 2 copying)
unfolding prot_addr dispatch at opcode_table store_table load_table extend store_simm
cpu_exec-store-load_example =
    cpu_exec-store-load copying 0x00208023 0x00020183 sb lb (λ e. cc) copying-IsMemory first-Holds
      second-Holds refl refl refl refl target-IsPlace alias-IsPlace (inl (omega arith))
