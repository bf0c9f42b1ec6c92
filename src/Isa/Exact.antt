-- ===== src/Isa/Exact.antt =====
-- Where a handler of src/cpu/exec-handlers.h, with the 4 that `cpu_exec` adds to the pc, does what
-- the manual says.
use nemu_riscv.Base.{ℕ, ◌+◌, ◌%◌, ◌^◌, ◌≡◌, ◌≢◌, ◌⊎◌, arith}
use nemu_riscv.Inst.{field, rd, rs1, rs2}
use nemu_riscv.System.{System}
use nemu_riscv.Memory.{load_mem}
use nemu_riscv.Decode.{Handler, inv, fence, auipc, lui, jal, jalr, ecall_ebreak}
use nemu_riscv.Decode.{alu, alui, branch, load, store, csr, sltiu}
use nemu_riscv.Decode.{LoadOp}
use nemu_riscv.Decode.{CsrOp, csrrw, csrrs, csrrc, csrrwi, csrrsi, csrrci}
use nemu_riscv.Exec.{Cpu}
use nemu_riscv.Exec.{load_addr, load_len}
use nemu_riscv.Exec.Branches.{b_immediate}
use nemu_riscv.Types.{IsWords}
use nemu_riscv.Isa.{isa_alu, isa_alui, isa_taken, read_x}
use nemu_riscv.Isa.{u_immediate}
use nemu_riscv.Isa.Branches.{IsExactBranch, read_x_lem}
use nemu_riscv.Run.Defined.{IsDivisible}
use nemu_riscv.Base.{Bool, true, Ensures}
use nemu_riscv.Isa.{csr_allowed}
use nemu_riscv.Base.{◌≤◌, Ensures-ok}
use nemu_riscv.Decode.{lbu, lhu}
use nemu_riscv.Ram.{load_host}
use nemu_riscv.Ram.Access.{IsBytes, load_host-lt}
use nemu_riscv.Address.{prot_addr}
use nemu_riscv.System.{ddr_size}
use nemu_riscv.Memory.FastPath.{IsMemory}
use nemu_riscv.Memory.StoreLoad.{load_mem-ddr}
use nemu_riscv.Exec.Aligned.{load_len-IsLen}
use nemu_riscv.Isa.Values.{IsCut}

-- The write reaches a register that can hold the value: not register 0, or 0.
abbrev pub Lands : ℕ → ℕ → Type 0
Lands inst v = (rd inst ≢ 0) ⊎ (v ≡ 0)

-- The CSR instructions: the CSR may be used, the destination is neither register 0 nor the source,
-- and what the handler tests in place of `rd` or `rs1` is not 0.
abbrev pub IsExactCsr : (ℕ → Bool) → CsrOp → ℕ → Cpu → Type 0
IsExactCsr has_csr csrrw inst c =
    (csr_allowed has_csr csrrw inst ≡ true)
    × (rd inst ≢ 0)
    × (rd inst ≢ rs1 inst)
    × (c.gpr (rd inst) ≢ 0)
IsExactCsr has_csr csrrs inst c =
    (csr_allowed has_csr csrrs inst ≡ true) × (rd inst ≢ 0) × (rd inst ≢ rs1 inst)
IsExactCsr has_csr csrrc inst c =
    (csr_allowed has_csr csrrc inst ≡ true) × (rd inst ≢ 0) × (rd inst ≢ rs1 inst)
IsExactCsr has_csr csrrwi inst c =
    (csr_allowed has_csr csrrwi inst ≡ true) × (rd inst ≢ 0) × (c.gpr (rd inst) ≢ 0)
IsExactCsr has_csr csrrsi inst c =
    (csr_allowed has_csr csrrsi inst ≡ true) × (rd inst ≢ 0) × (rs1 inst ≢ 0)
IsExactCsr has_csr csrrci inst c =
    (csr_allowed has_csr csrrci inst ≡ true) × (rd inst ≢ 0) × (rs1 inst ≢ 0)

-- The instructions, by their operands, that the handlers carry out as the manual says. What is left
-- out: writes to register 0 of another value than 0, divisions that C leaves undefined, `sltiu` and
-- stores with a negative immediate, unsigned loads of more bits than their width (from the registers
-- of the Ethernet controller), CSRs that the hart does not let the instruction use, branches but for
-- the offsets of `IsExactBranch`, and the jumps.
abbrev pub IsExact : (ℕ → Bool) → Handler → ℕ → Cpu → System → Type 0
IsExact has_csr inv inst c s = ⊥
IsExact has_csr jal inst c s = ⊥
IsExact has_csr jalr inst c s = ⊥
IsExact has_csr fence inst c s = Unit {0}
IsExact has_csr ecall_ebreak inst c s = Unit {0}
IsExact has_csr lui inst c s = Lands inst (u_immediate inst)
IsExact has_csr auipc inst c s = Lands inst ((c.pc + u_immediate inst) % 2 ^ 32)
IsExact has_csr (alu o) inst c s =
    IsDivisible o (c.gpr (rs1 inst)) (c.gpr (rs2 inst))
    × Lands inst (isa_alu o (c.gpr (rs1 inst)) (c.gpr (rs2 inst)))
IsExact has_csr (alui o) inst c s =
    (o ≡ sltiu → field 31 1 inst ≡ 0) × Lands inst (isa_alui o (c.gpr (rs1 inst)) inst)
IsExact has_csr (branch o) inst c s =
    IsExactBranch o (isa_taken o (c.gpr (rs1 inst)) (c.gpr (rs2 inst))) (b_immediate inst)
IsExact has_csr (load o) inst c s =
    (rd inst ≢ 0) × Ensures (λ r. IsCut o r.0) (load_mem s (load_addr inst c) (load_len o))
IsExact has_csr (store o) inst c s = field 31 1 inst ≡ 0
IsExact has_csr (csr o) inst c s = IsExactCsr has_csr o inst c

host_word-IsCut :
    (o : LoadOp) (p : ℕ → ℕ) (a : ℕ) → IsBytes p → IsCut o (load_host p a (load_len o))
host_word-IsCut lbu p a h = omega (arith, load_host-lt p a 1 h)
host_word-IsCut lhu p a h = omega (arith, load_host-lt p a 2 h)
host_word-IsCut _ p a h = tt

-- In the DDR every load is cut to its width.
load_mem-IsCut :
    (o : LoadOp) (s : System) (a : ℕ)
    → IsMemory s
    → 0x1000 ≤ a
    → prot_addr a + load_len o ≤ ddr_size
    → Ensures (λ r. IsCut o r.0) (load_mem s a (load_len o))
load_mem-IsCut o s a mem above fits =
    rw (load_mem-ddr s a (load_len o) (load_len-IsLen o) above mem.ddr_bytes fits)
      (Ensures-ok (λ r. IsCut o r.0) (host_word-IsCut o s.ddr (prot_addr a) mem.ddr_bytes))

module _ (has_csr : ℕ → Bool) (inst : ℕ) (c : Cpu) (words : IsWords c.gpr)
    (zero_x : c.gpr 0 ≡ 0) where
  abbrev reads : (i : ℕ) → read_x c i ≡ c.gpr i
  reads = read_x_lem inst c words zero_x
