-- ===== src/InstrQueue.antt =====
-- The ring of the last eight instructions, kept for the dump at an assertion (src/cpu/iq.c).
pub mod Recent
use nemu_riscv.Base.{ℕ, zero, suc, ◌+◌, ◌%◌, Bool, true, false, ◌==◌, if◌then◌else◌, update}
use nemu_riscv.Base.{List, [], ◌∷◌}

-- `iq_element_t`
pub record IqElement : Type 0 where
  pub pc : ℕ
  pub instr : ℕ
  pub instr_enq : Bool

pub record InstrQueue : Type 0 where
  pub pc_ptr : ℕ
  pub instr_ptr : ℕ
  pub iq : ℕ → IqElement

abbrev pub nr_instr : ℕ
nr_instr = 8

unfoldable pub instr_enqueue_pc : InstrQueue → ℕ → InstrQueue
instr_enqueue_pc q pc = record q {
  instr_ptr = q.pc_ptr;
  iq = update q.iq q.pc_ptr (record (q.iq q.pc_ptr) { pc = pc; instr_enq = false });
  pc_ptr = (q.pc_ptr + 1) % nr_instr;
}

unfoldable pub instr_enqueue_instr : InstrQueue → ℕ → InstrQueue
instr_enqueue_instr q instr = record q {
  iq = update q.iq q.instr_ptr (record (q.iq q.instr_ptr) { instr_enq = true; instr = instr });
}

unfoldable pub get_current_instr : InstrQueue → ℕ
get_current_instr q = if (q.iq q.instr_ptr).instr_enq then (q.iq q.instr_ptr).instr else 0

-- The lines of `print_instr_queue`, as the elements printed: a `do` loop from `pc_ptr` round to
-- `pc_ptr`, with `fuel` rounds at most.
unfoldable pub print_from : ℕ → InstrQueue → ℕ → List IqElement
print_from zero q i = []
print_from (suc fuel) q i =
    let i' = (i + 1) % nr_instr in
    let rest = print_from fuel q i' in q.iq i ∷ (if i' == q.pc_ptr then [] else rest)

unfoldable pub print_instr_queue : InstrQueue → List IqElement
unfolding print_from
print_instr_queue q = print_from nr_instr q q.pc_ptr
