-- ===== src/InstrQueue/Recent.antt =====
-- The dump of src/cpu/iq.c shows the last eight instructions in the order of their execution.
use nemu_riscv.Base.{ℕ, zero, suc, ◌<◌, ◌≡◌, ◌∙◌, refl, sym, ap, arith}
use nemu_riscv.Base.{append-snoc, append-nil, length, List, [], ◌∷◌, ◌++◌, true}
use nemu_riscv.InstrQueue.{IqElement, InstrQueue, instr_enqueue_pc, instr_enqueue_instr, print_from}
use nemu_riscv.InstrQueue.{print_instr_queue}

-- An executed instruction, as `cpu_exec` records it.
abbrev pub record_instr : InstrQueue → ℕ × ℕ → InstrQueue
record_instr q (pc, instr) = instr_enqueue_instr (instr_enqueue_pc q pc) instr

abbrev pub record_all : InstrQueue → List (ℕ × ℕ) → InstrQueue
record_all q [] = q
record_all q (i ∷ is) = record_all (record_instr q i) is

abbrev pub element : ℕ × ℕ → IqElement
element (pc, instr) = record { pc = pc; instr = instr; instr_enq = true }

abbrev pub tail : List IqElement → List IqElement
tail [] = []
tail (x ∷ xs) = xs

abbrev pub elements : List (ℕ × ℕ) → List IqElement
elements [] = []
elements (i ∷ is) = element i ∷ elements is

abbrev pub drop : ℕ → List IqElement → List IqElement
drop zero xs = xs
drop (suc n) [] = []
drop (suc n) (x ∷ xs) = drop n xs

drop-tail :
    (n : ℕ) (xs : List IqElement) (e : IqElement) (ys : List IqElement)
    → drop n (tail (xs ++ e ∷ []) ++ ys) ≡ drop (suc n) (xs ++ e ∷ ys)
drop-tail n [] e ys = refl
drop-tail n (x ∷ xs) e ys = ap (drop n) (append-snoc xs e ys)

-- One more instruction drops the oldest line of the dump and adds the newest.
record_instr-print :
    (q : InstrQueue) (i : ℕ × ℕ)
    → q.pc_ptr < 8
    → print_instr_queue (record_instr q i) ≡ tail (print_instr_queue q ++ element i ∷ [])
unfolding print_instr_queue print_from instr_enqueue_pc instr_enqueue_instr
record_instr-print q (pc, instr) h = ground arith

record_instr-pc_ptr : (q : InstrQueue) (i : ℕ × ℕ) → (record_instr q i).pc_ptr < 8
unfolding instr_enqueue_pc instr_enqueue_instr
record_instr-pc_ptr q (pc, instr) = omega arith

-- From a ring whose index is below 8: after instructions have been recorded, the dump is what it was with these lines added at its end
-- and as many dropped at its start: with eight or more, the last eight instructions in order.
pub record_all-print :
    (q : InstrQueue) (is : List (ℕ × ℕ))
    → q.pc_ptr < 8
    → print_instr_queue (record_all q is) ≡ drop (length is) (print_instr_queue q ++ elements is)
record_all-print q [] h = sym (append-nil (print_instr_queue q))
record_all-print q (i ∷ is) h =
    let rest = record_all-print (record_instr q i) is (record_instr-pc_ptr q i) in
    let first = record_instr-print q i h in
    rest
    ∙ ap (λ xs. drop (length is) (xs ++ elements is)) first
    ∙ drop-tail (length is) (print_instr_queue q) (element i) (elements is)
