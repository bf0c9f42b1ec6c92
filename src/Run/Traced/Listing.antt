-- ===== src/Run/Traced/Listing.antt =====
-- What a run prints as its trace and as its register log, and that printing it changes nothing
-- (src/cpu/cpu-exec.c).
use nemu_riscv.Base.{ℕ, suc, ◌≡◌, ◌≢◌, refl, ◌∙◌, arith, inl, inr}
use nemu_riscv.Base.{List, ◌++◌, ok, fault, ◌>>=◌}
use nemu_riscv.Base.{Simulates-map, Simulates-eq, Simulates-Returns, Returns, none}
use nemu_riscv.System.{nemu_running, nemu_end}
use nemu_riscv.Assertion.{Block}
use nemu_riscv.Tracer.Line.{trace_append_null}
use nemu_riscv.Tracer.Text.{pc_text}
use nemu_riscv.Run.{Machine, cpu_exec, set_state}
use nemu_riscv.Run.Traced.{Traced, traced_step, traced_loop, traced_exec}
use nemu_riscv.Run.Traced.Alike.{IsReady}
use nemu_riscv.Run.Traced.Ran.{IsListing, running, NemuState-cases, traced_exec-Ran}

-- Where a text of at most 29 characters, none of them 0, stands in the buffer since the last flush:
-- the run with the trace and the register log ends as the run without them does, failures included,
-- and with the same machine where it returns.
pub traced_exec-cpu_exec :
    (n : ℕ) (x : Traced) (pending : List ℕ)
    → IsReady pending x.tracer
    → (traced_exec n x >>= λ y. ok y.machine) ≡ cpu_exec n x.machine
unfolding cpu_exec traced_exec
traced_exec-cpu_exec n x pending ready = elim (NemuState-cases x.machine.sys.nemu_state) [
  | inl ended ↦ rw ended refl
  | inr active ↦
      Simulates-eq (λ y. y.machine) (cpu_exec n x.machine) (traced_exec n x)
        (Simulates-map _ (cpu_exec n x.machine) (traced_exec n x)
          (traced_exec-Ran n x pending x.machine.sys.nemu_state refl active ready) λ m y r. r.same)
]

-- Where a text of at most 29 characters, none of them 0, stands in the buffer since the last flush,
-- the emulation has not ended and the run without the trace returns: the run with it returns, and the trace prints for each instruction two empty lines, a line, and one more
-- empty line where its handler appends a text. The line is the text of the instruction before it (for
-- the first one, what stands in the buffer), its own pc and its word. Where the mode is MODE_LOG,
-- and only there, it also prints for each instruction the registers as the handler leaves them, with a
-- counter that goes up by one modulo 2 ^ 32.
pub traced_exec-IsListing :
    (n : ℕ) (x : Traced) (pending : List ℕ) (m : Machine)
    → IsReady pending x.tracer
    → x.machine.sys.nemu_state ≢ nemu_end
    → cpu_exec n x.machine ≡ ok m
    → Returns
        (λ y.
          (lines : List (List ℕ)) × (log : List Block) × IsListing n
            (set_state x.machine nemu_running)
            pending
            x.ninstr
            lines
            log
          × (y.tracer.lines ≡ x.tracer.lines ++ lines)
          × (y.log ≡ x.log ++ log))
        (traced_exec n x)
traced_exec-IsListing n x pending m ready active e =
    Simulates-Returns _ _ (cpu_exec n x.machine) (traced_exec n x) m
      (traced_exec-Ran n x pending x.machine.sys.nemu_state refl active ready) e
      λ y r. (r.lines, r.log, r.listing, r.printed, r.logged)

traced_exec-active :
    (n : ℕ) (x : Traced)
    → x.machine.sys.nemu_state ≢ nemu_end
    → traced_exec n x ≡ traced_loop n (running x)
unfolding traced_exec
traced_exec-active n x active = ground arith

traced_loop_null : (n : ℕ) (x : Traced) → x.tracer.asm_buf_p ≡ none → traced_loop (suc n) x ≡ fault
unfolding traced_loop traced_step
traced_loop_null n x null = rw (trace_append_null x.tracer (pc_text x.machine.cpu.pc) null) refl

-- As C starts the program, `asm_buf_p` is NULL: unless the emulation has ended, the first instruction
-- is undefined behaviour, whatever it is.
pub traced_exec_null :
    (n : ℕ) (x : Traced)
    → x.tracer.asm_buf_p ≡ none
    → x.machine.sys.nemu_state ≢ nemu_end
    → traced_exec (suc n) x ≡ fault
traced_exec_null n x null active =
    traced_exec-active (suc n) x active ∙ traced_loop_null n (running x) null
