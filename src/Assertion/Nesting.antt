-- ===== src/Assertion/Nesting.antt =====
-- Where the dump of a failed `CPUAssert` (include/debug.h) ends, and where it calls itself for ever.
use nemu_riscv.InstrQueue.{instr_enqueue_pc}
use nemu_riscv.Base.{
  replicate, ℕ, zero, suc, ◌+◌, ◌-◌, ◌%◌, ◌≤◌, ◌<◌, ◌≡◌, ◌⊎◌, inl, inr, refl, ap, arith,
}
use nemu_riscv.Base.{
  List, [], ◌∷◌, none, some, Outcome, ok, abort, unfinished, bit_and_mask, u32, ltb, leb, true,
  false, Bool-cases, bit_and, ◌^◌,
}
use nemu_riscv.Address.{prot_addr}
use nemu_riscv.Ram.{load_host, read_masked_word}
use nemu_riscv.System.{System, ddr_size, ddr_read}
use nemu_riscv.Bus.{
  vaddr_read_safe, vaddr_read, find_region, gpio_base, gpio_size, region_at, invalid_read,
}
use nemu_riscv.Bus.Access.{find_region-ddr}
use nemu_riscv.Memory.{instr_fetch, load_mem}
use nemu_riscv.Exec.{Cpu}
use nemu_riscv.InstrQueue.{InstrQueue, print_instr_queue}
use nemu_riscv.Run.{Machine, step}
use nemu_riscv.Assertion.{Block, instr_queue, registers, failed_cpu_assert}
use native.Mathlib.Nat.{sub-zero}

find_region-gpio : (a : ℕ) → gpio_base ≤ a → a < gpio_base + gpio_size → find_region a ≡ some 3
unfolding find_region
find_region-gpio a p q = ground arith

ddr_read-ok : (s : System) (a : ℕ) → a + 4 ≤ ddr_size → (w : ℕ) × (ddr_read s a 4 ≡ ok (w, s))
unfolding ddr_read read_masked_word
ddr_read-ok s a h =
    let inside : ltb a ddr_size ≡ true = ground arith in
    let end : leb (u32 (a + 4)) ddr_size ≡ true = ground arith in
    let four : leb (a + 4) ddr_size ≡ true = ground arith in
    (
      bit_and (load_host s.ddr a 4) (2 ^ 32 - 1),
      rw (ddr_read, inside, end, read_masked_word, four) refl,
    )

-- The places where the read of the word at the pc succeeds: in the DDR, or in no region at all.
abbrev pub IsReadable : ℕ → Type 0
IsReadable pc = (prot_addr pc + 4 ≤ ddr_size) ⊎ (find_region (prot_addr pc) ≡ none)

vaddr_read_safe-ok :
    (s : System) (pc : ℕ) → IsReadable pc → (w : ℕ) × (vaddr_read_safe s pc 4 ≡ ok (w, s))
unfolding vaddr_read_safe region_at
vaddr_read_safe-ok s pc (inl inside) =
    let (w, e) = ddr_read-ok s (prot_addr pc) inside in
    (w, rw (vaddr_read_safe, find_region-ddr (prot_addr pc) (omega arith), sub-zero) e)
vaddr_read_safe-ok s pc (inr nowhere) = (0, rw (vaddr_read_safe, nowhere) refl)

-- At a pc in the DDR or in no region, the dump prints the queue and the registers once and aborts.
failed_cpu_assert-ends :
    (s : System) (c : Cpu) (q : InstrQueue) (ninstr depth : ℕ)
    → IsReadable c.pc
    → (instr : ℕ) × (failed_cpu_assert (suc depth) s c q ninstr
        ≡ (instr_queue (print_instr_queue q) ∷ registers c ninstr instr ∷ [], abort))
unfolding failed_cpu_assert
failed_cpu_assert-ends s c q ninstr depth h =
    let (w, e) = vaddr_read_safe-ok s c.pc h in (w, rw (failed_cpu_assert, e) refl)

nested_for_ever :
    (s : System) (c : Cpu) (q : InstrQueue) (ninstr : ℕ)
    → vaddr_read_safe s c.pc 4 ≡ abort
    → (depth : ℕ)
    → failed_cpu_assert depth s c q ninstr
      ≡ (replicate depth (instr_queue (print_instr_queue q)), unfinished)
unfolding failed_cpu_assert
nested_for_ever s c q ninstr e zero = refl
nested_for_ever s c q ninstr e (suc depth) =
    rw (failed_cpu_assert, e)
      (ap (λ (r : List Block × Outcome (Unit {0})). (instr_queue (print_instr_queue q) ∷ r.0, r.1))
        (nested_for_ever s c q ninstr e depth))

module _ (s : System) (pc : ℕ) (lo : gpio_base ≤ prot_addr pc)
    (hi : prot_addr pc < gpio_base + gpio_size) where
  vaddr_read_safe-gpio : vaddr_read_safe s pc 4 ≡ abort
  unfolding vaddr_read_safe region_at invalid_read
  vaddr_read_safe-gpio = rw (vaddr_read_safe, find_region-gpio (prot_addr pc) lo hi) refl

  instr_fetch-gpio : instr_fetch s pc ≡ abort
  unfolding instr_fetch load_mem vaddr_read region_at invalid_read
  instr_fetch-gpio = elim (Bool-cases (leb 0x1000 pc)) [
    | inl checked ↦
        let no_ddr : ltb (prot_addr pc) ddr_size ≡ false = ground arith in
        let no_bram : leb 0x1fc00000 (prot_addr pc) ≡ false = ground arith in
        let above : leb 0 (prot_addr pc) ≡ true = ground arith in
        rw (instr_fetch, checked, above, no_ddr, no_bram, find_region-gpio (prot_addr pc) lo hi)
          refl
    | inr low ↦ rw (instr_fetch, low) refl
  ]

-- An aligned jump into the region of the trap device, which cannot be read: the fetch fails an
-- assertion, and the dump of that assertion, after `instr_enqueue_pc` has put the pc into the queue,
-- fails the same one in reading the word at the pc. It prints that queue again and again, for any
-- depth, and never reaches the abort.
pub jump_to_trap_device :
    (m : Machine) (ninstr depth : ℕ)
    → m.cpu.pc % 4 ≡ 0
    → gpio_base ≤ prot_addr m.cpu.pc
    → prot_addr m.cpu.pc < gpio_base + gpio_size
    → let queue = instr_enqueue_pc m.queue m.cpu.pc in
      (step m ≡ abort)
      × (failed_cpu_assert depth m.sys m.cpu queue ninstr
          ≡ (replicate depth (instr_queue (print_instr_queue queue)), unfinished))
unfolding step
jump_to_trap_device m ninstr depth aligned lo hi = (
  rw (bit_and_mask 2 m.cpu.pc, aligned, instr_fetch-gpio m.sys m.cpu.pc lo hi) refl,
  nested_for_ever m.sys m.cpu (instr_enqueue_pc m.queue m.cpu.pc) ninstr
      (vaddr_read_safe-gpio m.sys m.cpu.pc lo hi) depth,
)
