-- ===== src/Run/Traced/Alike.antt =====
-- The trace and the register log change nothing in the run, once the buffer has been set up by a
-- flush (src/cpu/cpu-exec.c).
use nemu_riscv.Base.{ℕ, ◌+◌, ◌==◌, ◌≡◌, refl, sym, ap, ◌∙◌, arith, append-nil, append-snoc}
use nemu_riscv.Base.{bit_and, u32, length-append, List, [], ◌∷◌, ◌++◌, Option, none, some, ok}
use nemu_riscv.Base.{cpu_assert, Returns, Returns->>=}
use nemu_riscv.Base.{Simulates, Simulates-same, Simulates-right}
use nemu_riscv.Memory.{instr_fetch}
use nemu_riscv.Decode.{Handler, dispatch}
use nemu_riscv.Exec.{exec}
use nemu_riscv.InstrQueue.{instr_enqueue_pc, instr_enqueue_instr}
use nemu_riscv.Tracer.{Tracer, trace_append, trace_flush}
use nemu_riscv.Tracer.Line.{IsPending, IsLine-IsPending, trace_append-IsLine, trace_flush-IsLine}
use nemu_riscv.Tracer.Text.{pc_text, word_text, handler_text}
use nemu_riscv.Tracer.Bounds.{
  IsText, IsText-append, IsHandlerText, pc_text-IsText, word_text-IsText, handler_text-IsText,
}
use nemu_riscv.Run.{Machine, step}
use nemu_riscv.Run.Inversion.{Executed}
use nemu_riscv.Run.Traced.{Traced, append_text, log_registers, traced_step}

-- Between two instructions: the pending text is short and stands in the buffer.
pub record IsReady (pending : List ℕ) (t : Tracer) : Type 0 where
  pub short : IsText 29 pending
  pub stands : IsPending pending t

-- The pending text after an instruction.
abbrev pub text_or : Option (List ℕ) → List ℕ
text_or none = []
text_or (some text) = text

-- The empty line that the handler prints, if it appends a text.
abbrev pub blank_for : Option (List ℕ) → List (List ℕ)
blank_for none = []
blank_for (some text) = [] ∷ []

abbrev pub lines_of : List ℕ → Machine → Handler → ℕ → List (List ℕ)
lines_of pending m h inst =
    [] ∷ [] ∷ ((pending ++ pc_text m.cpu.pc) ++ word_text inst) ∷ blank_for (handler_text h inst)

append_text-IsReady :
    (t : Tracer) (text : Option (List ℕ))
    → t.asm_buf_p ≡ some 0
    → IsHandlerText text
    → Returns
        (λ t'. IsReady (text_or text) t' × (t'.lines ≡ t.lines ++ blank_for text))
        (append_text t text)
unfolding append_text
append_text-IsReady t none flushed h = (
  record { short = record { printed = tt; short = omega arith }; stands = flushed },
  sym (append-nil t.lines),
)
append_text-IsReady t (some text) flushed h =
    Returns->>= _ (trace_append t text) _
      (trace_append-IsLine t [] text flushed h.printed (omega (arith, h.short)))
      λ r line. (record { short = h; stands = IsLine-IsPending text r.1 line.0 }, line.1)

-- What an instruction prints, one call after the other.
module _ {ℓ} {A : Type ℓ} where
  lines-snoc :
      (l0 l1 l2 l3 l4 rest : List A) (a b c : A)
      → l1 ≡ l0 ++ a ∷ []
      → l2 ≡ l1 ++ b ∷ []
      → l3 ≡ l2 ++ c ∷ []
      → l4 ≡ l3 ++ rest
      → l4 ≡ l0 ++ a ∷ b ∷ c ∷ rest
  lines-snoc l0 l1 l2 l3 l4 rest a b c e1 e2 e3 e4 =
      e4
      ∙ ap (λ l. l ++ rest) e3
      ∙ append-snoc l2 c rest
      ∙ ap (λ l. l ++ c ∷ rest) e2
      ∙ append-snoc l1 b (c ∷ rest)
      ∙ ap (λ l. l ++ b ∷ c ∷ rest) e1
      ∙ append-snoc l0 a (b ∷ c ∷ rest)

-- One round of both: the machines are the same, and what the traced one has printed.
pub record Round (x : Traced) (pending : List ℕ) (m : Machine) (y : Traced) : Type 0 where
  pub same : y.machine ≡ m
  pub executed : Executed x.machine m
  pub ready : IsReady (text_or (handler_text executed.handler executed.inst)) y.tracer
  pub printed :
      y.tracer.lines ≡ x.tracer.lines ++ lines_of pending x.machine executed.handler executed.inst
  pub logged :
      y.log
      ≡ x.log ++ (log_registers executed.sys'.work_mode executed.cpu' x.ninstr executed.inst).0
  pub counted :
      y.ninstr ≡ (log_registers executed.sys'.work_mode executed.cpu' x.ninstr executed.inst).1

pub traced_step-Round :
    (x : Traced) (pending : List ℕ)
    → IsReady pending x.tracer
    → Simulates (Round x pending) (step x.machine) (traced_step x)
unfolding step traced_step
traced_step-Round x pending ready =
    let m = x.machine in
    let line1 = pending ++ pc_text m.cpu.pc in
    let short1 = IsText-append pending _ ready.short (pc_text-IsText m.cpu.pc) in
    Simulates-right _ _ (trace_append x.tracer (pc_text m.cpu.pc)) _
      (trace_append-IsLine x.tracer pending _ ready.stands (pc_text-IsText m.cpu.pc).printed
        (omega (arith, ready.short.short, (pc_text-IsText m.cpu.pc).short)))
      λ t1 h1. Simulates-same _ (cpu_assert (bit_and m.cpu.pc 0x3 == 0)) _ _ λ u e1.
        Simulates-same _ (instr_fetch m.sys m.cpu.pc) _ _ λ f e2.
          let word = word_text-IsText f.0 in
          Simulates-right _ _ (trace_append t1.1 (word_text f.0)) _
            (trace_append-IsLine t1.1 line1 _ (IsLine-IsPending line1 t1.1 h1.0) word.printed
              (omega (arith, short1.short, word.short)))
            λ t2 h2.
              Simulates-right _ _ (trace_flush t2.1) _
                (trace_flush-IsLine t2.1 (line1 ++ word_text f.0) h2.0
                  (omega (arith, short1.short, word.short, length-append line1 (word_text f.0))))
                λ t3 h3. Simulates-same _ (dispatch f.0) _ _ λ h e3.
                  Simulates-same _ (exec h f.0 m.cpu f.1) _ _ λ r e4.
                    let m' : Machine = record {
                      cpu = record (r.0) { pc = u32 (r.0.pc + 4) };
                      sys = r.1;
                      queue = instr_enqueue_instr (instr_enqueue_pc m.queue m.cpu.pc) f.0;
                    } in
                    Simulates-right (Round x pending) (ok m') (append_text t3 (handler_text h f.0))
                      _
                      (append_text-IsReady t3 (handler_text h f.0) h3.1 (handler_text-IsText h f.0))
                      λ t4 ready'. record {
                        same = refl;
                        executed = record {
                          inst = f.0;
                          fetched = f.1;
                          handler = h;
                          cpu' = r.0;
                          sys' = r.1;
                          aligned = ground arith;
                          fetches = e2;
                          dispatches = e3;
                          executes = e4;
                          result = refl;
                        };
                        ready = ready'.0;
                        printed = lines-snoc _ _ _ _ _ _ _ _ _ h1.1 h2.1 h3.0 ready'.1;
                        logged = refl;
                        counted = refl;
                      }
