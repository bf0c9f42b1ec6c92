-- ===== src/Types/Cpu.antt =====
-- Every handler of src/cpu/exec-handlers.h keeps the types of the CPU, the memory and the devices.
use nemu_riscv.Base.{ℕ, ◌+◌, ◌^◌, ◌<◌, arith, Ensures}
use nemu_riscv.Base.{Ensures-ok, Ensures-abort, Ensures->>=, Ensures->>, if-ensures}
use nemu_riscv.Base.{bit_and-lt, bit_or-lt, not32, not_eq, cpu_assert, u32, ◌<<◌}
use nemu_riscv.Inst.{rd, rs1, rs2, imm_11_0}
use nemu_riscv.System.{System}
use nemu_riscv.Memory.{load_mem, store_mem}
use nemu_riscv.Decode.{AluOp, LoadOp, StoreOp, CsrOp, Handler, inv, fence, auipc, lui, jal}
use nemu_riscv.Decode.{
  jalr, ecall_ebreak, alu, alui, branch, load, store, csr, lb, lh, lw, lbu, lhu,
}
use nemu_riscv.Decode.{csrrw, csrrs, csrrc, csrrwi, csrrsi, csrrci, BranchOp}
use nemu_riscv.Alu.{alu_value, alui_value}
use nemu_riscv.Alu.Bounds.{alu_value-lt, alui_value-lt, pattern_of-lt}
use nemu_riscv.Exec.{Cpu, exec, exec_alu, exec_alui, exec_branch, exec_load, exec_store, exec_csr}
use nemu_riscv.Exec.{exec_jalr, exec_jal, exec_lui, exec_auipc, set_gpr, set_csr, extend, load_len}
use nemu_riscv.Exec.{load_addr, store_len, store_addr, is_aligned, branch_taken, branch_simm}
use nemu_riscv.Types.{IsWords, IsTypedSystem}
use nemu_riscv.Types.Loads.{load_mem-IsLoaded}
use nemu_riscv.Types.Stores.{store_mem-IsTyped}

pub record IsTypedCpu (c : Cpu) : Type 0 where
  pub gpr : IsWords c.gpr
  pub csrs : IsWords c.csr_file
  pub hi : c.hi < 2 ^ 32
  pub lo : c.lo < 2 ^ 32
  pub pc : c.pc < 2 ^ 32

set_gpr-IsTyped : (c : Cpu) (i v : ℕ) → IsTypedCpu c → v < 2 ^ 32 → IsTypedCpu (set_gpr c i v)
set_gpr-IsTyped c i v h hv = record {
  gpr = λ j. ground (arith, h.gpr j);
  csrs = h.csrs;
  hi = h.hi;
  lo = h.lo;
  pc = h.pc;
}

set_csr-IsTyped : (c : Cpu) (i v : ℕ) → IsTypedCpu c → v < 2 ^ 32 → IsTypedCpu (set_csr c i v)
set_csr-IsTyped c i v h hv = record {
  gpr = h.gpr;
  csrs = λ j. ground (arith, h.csrs j);
  hi = h.hi;
  lo = h.lo;
  pc = h.pc;
}

pub set_pc-IsTyped :
    (c : Cpu) (v : ℕ) → IsTypedCpu c → v < 2 ^ 32 → IsTypedCpu (record c { pc = v })
set_pc-IsTyped c v h hv = record { gpr = h.gpr; csrs = h.csrs; hi = h.hi; lo = h.lo; pc = hv }

extend-lt : (o : LoadOp) (v : ℕ) → v < 2 ^ 32 → extend o v < 2 ^ 32
unfolding extend
extend-lt lw v h = h
extend-lt lb v h = pattern_of-lt _
extend-lt lbu v h = h
extend-lt lh v h = pattern_of-lt _
extend-lt lhu v h = h

abbrev IsTyped : Cpu × System → Type 0
IsTyped r = IsTypedCpu r.0 × IsTypedSystem r.1

module _ (inst : ℕ) (c : Cpu) (h : IsTypedCpu c) where
  exec_alu-IsTyped : (o : AluOp) → Ensures IsTypedCpu (exec_alu o inst c)
  unfolding exec_alu
  exec_alu-IsTyped o =
      Ensures->>= IsTypedCpu (alu_value o (c.gpr (rs1 inst)) (c.gpr (rs2 inst)))
        (alu_value-lt o _ _ (h.gpr (rs1 inst)) (h.gpr (rs2 inst)))
        λ v hv. Ensures-ok IsTypedCpu (set_gpr-IsTyped c (rd inst) v h hv)

  exec_branch-IsTyped : (o : BranchOp) → IsTypedCpu (exec_branch o inst c)
  unfolding exec_branch
  exec_branch-IsTyped o =
      if-ensures IsTypedCpu (branch_taken o (c.gpr (rs1 inst)) (c.gpr (rs2 inst)))
        (set_pc-IsTyped c (u32 (c.pc + u32 (branch_simm inst << 1))) h (omega arith)) h

  -- The destination has the value of the CSR.
  csr_read : Cpu
  csr_read = set_gpr c (rd inst) (c.csr_file (imm_11_0 inst))

  csr_read-IsTyped : IsTypedCpu csr_read
  unfolding csr_read
  csr_read-IsTyped = set_gpr-IsTyped c (rd inst) _ h (h.csrs (imm_11_0 inst))

  csr_write-IsTyped : (v : ℕ) → v < 2 ^ 32 → IsTypedCpu (set_csr csr_read (imm_11_0 inst) v)
  csr_write-IsTyped v hv = set_csr-IsTyped csr_read (imm_11_0 inst) v csr_read-IsTyped hv

  exec_csr-IsTyped : (o : CsrOp) → IsTypedCpu (exec_csr o inst c)
  unfolding exec_csr csr_read
  exec_csr-IsTyped csrrci =
      if-ensures IsTypedCpu (not_eq (rs1 inst) 0)
        (csr_write-IsTyped _ (bit_and-lt 32 _ (not32 (rs1 inst)) (h.csrs (imm_11_0 inst)))) h
  exec_csr-IsTyped csrrsi =
      if-ensures IsTypedCpu (not_eq (rs1 inst) 0)
        (csr_write-IsTyped _ (bit_or-lt 32 _ (rs1 inst) (h.csrs (imm_11_0 inst)) (omega arith))) h
  exec_csr-IsTyped csrrwi =
      if-ensures IsTypedCpu (not_eq (c.gpr (rd inst)) 0)
        (csr_write-IsTyped (rs1 inst) (omega arith)) h
  exec_csr-IsTyped csrrc =
      csr_write-IsTyped _
        (bit_and-lt 32 _ (not32 (csr_read.gpr (rs1 inst))) (h.csrs (imm_11_0 inst)))
  exec_csr-IsTyped csrrs =
      csr_write-IsTyped _
        (bit_or-lt 32 _ _ (h.csrs (imm_11_0 inst)) (csr_read-IsTyped.gpr (rs1 inst)))
  exec_csr-IsTyped csrrw =
      if-ensures IsTypedCpu (not_eq (c.gpr (rd inst)) 0)
        (csr_write-IsTyped _ (csr_read-IsTyped.gpr (rs1 inst))) h

  exec_load-IsTyped :
      (o : LoadOp) (s : System) → IsTypedSystem s → Ensures IsTyped (exec_load o inst c s)
  unfolding exec_load
  exec_load-IsTyped o s hs =
      Ensures->> IsTyped (cpu_assert (is_aligned (load_len o) (load_addr inst c))) (
        Ensures->>= IsTyped (load_mem s (load_addr inst c) (load_len o))
          (load_mem-IsLoaded s (load_addr inst c) (load_len o) hs)
          λ r hr. Ensures-ok IsTyped (set_gpr-IsTyped c (rd inst) _ h (extend-lt o r.0 hr.0), hr.1))

  exec_store-IsTyped :
      (o : StoreOp) (s : System) → IsTypedSystem s → Ensures IsTyped (exec_store o inst c s)
  unfolding exec_store
  exec_store-IsTyped o s hs =
      Ensures->> IsTyped (cpu_assert (is_aligned (store_len o) (store_addr inst c))) (
        Ensures->>= IsTyped (store_mem s (store_addr inst c) (store_len o) (c.gpr (rs2 inst)))
          (store_mem-IsTyped s (store_addr inst c) (store_len o) (c.gpr (rs2 inst)) hs
            (h.gpr (rs2 inst)))
          λ s' hs'. Ensures-ok IsTyped (h, hs'))

-- An instruction on well-typed operands gives well-typed results.
pub exec-IsTyped :
    (o : Handler) (inst : ℕ) (c : Cpu) (s : System)
    → inst < 2 ^ 32
    → IsTypedCpu c
    → IsTypedSystem s
    → Ensures IsTyped (exec o inst c s)
unfolding exec exec_alui exec_jal exec_jalr exec_lui exec_auipc
exec-IsTyped inv inst c s hi hc hs = Ensures-ok IsTyped (
  hc,
  record {
    ddr_bytes = hs.ddr_bytes;
    bram_bytes = hs.bram_bytes;
    vmem_bytes = hs.vmem_bytes;
    serial_typed = hs.serial_typed;
    mac_typed = hs.mac_typed;
  },
)
exec-IsTyped fence inst c s hi hc hs = Ensures-ok IsTyped (hc, hs)
exec-IsTyped ecall_ebreak inst c s hi hc hs = Ensures-abort IsTyped
exec-IsTyped lui inst c s hi hc hs =
    Ensures-ok IsTyped (set_gpr-IsTyped c (rd inst) _ hc (omega arith), hs)
exec-IsTyped auipc inst c s hi hc hs =
    Ensures-ok IsTyped (set_gpr-IsTyped c (rd inst) _ hc (omega arith), hs)
exec-IsTyped jal inst c s hi hc hs =
    let linked = set_gpr-IsTyped c (rd inst) (u32 (c.pc + 4)) hc (omega arith) in
    Ensures-ok IsTyped (set_pc-IsTyped _ _ linked (omega arith), hs)
exec-IsTyped jalr inst c s hi hc hs =
    let linked = set_gpr-IsTyped c (rd inst) (u32 (c.pc + 4)) hc (omega arith) in
    Ensures-ok IsTyped (set_pc-IsTyped _ _ linked (linked.gpr (rs1 inst)), hs)
exec-IsTyped (alu o) inst c s hi hc hs =
    Ensures->>= IsTyped (exec_alu o inst c) (exec_alu-IsTyped inst c hc o)
      λ c' hc'. Ensures-ok IsTyped (hc', hs)
exec-IsTyped (alui o) inst c s hi hc hs = Ensures-ok IsTyped (
  set_gpr-IsTyped c (rd inst) (alui_value o (c.gpr (rs1 inst)) inst) hc
      (alui_value-lt o _ inst (hc.gpr (rs1 inst))),
  hs,
)
exec-IsTyped (branch o) inst c s hi hc hs = Ensures-ok IsTyped (exec_branch-IsTyped inst c hc o, hs)
exec-IsTyped (load o) inst c s hi hc hs = exec_load-IsTyped inst c hc o s hs
exec-IsTyped (store o) inst c s hi hc hs = exec_store-IsTyped inst c hc o s hs
exec-IsTyped (csr o) inst c s hi hc hs = Ensures-ok IsTyped (exec_csr-IsTyped inst c hc o, hs)
