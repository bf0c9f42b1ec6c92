-- ===== src/Run/Traced/Ran.antt =====
-- The loops of the run with the trace and of the run without it, side by side
-- (src/cpu/cpu-exec.c), and what the first one has printed.
use mathlib.Core.Path.{subst}
use nemu_riscv.Base.{
  ℕ, zero, suc, ◌+◌, ◌%◌, ◌^◌, ◌≡◌, ◌≢◌, refl, sym, ap, ◌∙◌, arith, ◌⊎◌, inl, inr, Bool, true,
  false, if◌then◌else◌,
}
use nemu_riscv.Base.{List, [], ◌∷◌, ◌++◌, append-nil, append_assoc, ok}
use nemu_riscv.Base.{Simulates, Simulates->>=, Simulates-map}
use nemu_riscv.System.{NemuState, nemu_stop, nemu_running, nemu_end}
use nemu_riscv.Assertion.{Block, registers, print_registers}
use nemu_riscv.Exec.{Cpu}
use nemu_riscv.Tracer.Text.{handler_text}
use nemu_riscv.Run.{Machine, step, exec_loop, cpu_exec, is_running, set_state}
use nemu_riscv.Run.Inversion.{Executed}
use nemu_riscv.Run.Traced.{Traced, log_registers, traced_step, traced_loop, traced_exec}
use nemu_riscv.Run.Traced.Alike.{IsReady, Round, lines_of, text_or, traced_step-Round}

-- What `print_registers` prints after an instruction, and its counter: only where the mode is
-- MODE_LOG.
pub record IsLogged (mode : ℕ) (c : Cpu) (ninstr inst : ℕ) (blocks : List Block) (counter : ℕ)
    : Type 0 where
  pub in_log :
      mode ≡ 5 → (blocks ≡ registers c ninstr inst ∷ []) × (counter ≡ (ninstr + 1) % 2 ^ 32)
  pub elsewhere : mode ≢ 5 → (blocks ≡ []) × (counter ≡ ninstr)

-- What the trace of a run of at most `n` instructions prints, and its register log. In the line of
-- an instruction is the text of the instruction before it.
pub data IsListing : ℕ → Machine → List ℕ → ℕ → List (List ℕ) → List Block → Type 0 where
  no_line : {m : Machine} {pending : List ℕ} {ninstr : ℕ} → IsListing zero m pending ninstr [] []
  last_line :
      {n : ℕ} {m m' : Machine} {pending : List ℕ} {ninstr counter : ℕ} {blocks : List Block}
      (e : Executed m m')
      → IsLogged e.sys'.work_mode e.cpu' ninstr e.inst blocks counter
      → is_running m'.sys.nemu_state ≡ false
      → IsListing (suc n) m pending ninstr (lines_of pending m e.handler e.inst) blocks
  first_line :
      {n : ℕ} {m m' : Machine} {pending : List ℕ} {ninstr counter : ℕ} {blocks : List Block}
      {lines : List (List ℕ)} {log : List Block} (e : Executed m m')
      → IsLogged e.sys'.work_mode e.cpu' ninstr e.inst blocks counter
      → is_running m'.sys.nemu_state ≡ true
      → IsListing n m' (text_or (handler_text e.handler e.inst)) counter lines log
      → IsListing
          (suc n)
          m
          pending
          ninstr
          (lines_of pending m e.handler e.inst ++ lines)
          (blocks ++ log)

abbrev logged_by : {m m' : Machine} → Executed m m' → ℕ → List Block × ℕ
logged_by e ninstr = log_registers e.sys'.work_mode e.cpu' ninstr e.inst

log_registers-IsLogged :
    (mode : ℕ) (c : Cpu) (ninstr inst : ℕ)
    → IsLogged mode c ninstr inst
        (log_registers mode c ninstr inst).0
        (log_registers mode c ninstr inst).1
unfolding log_registers print_registers
log_registers-IsLogged mode c ninstr inst = record {
  in_log = λ h. ground arith;
  elsewhere = λ h. ground arith;
}

pub record Ran (n : ℕ) (x : Traced) (pending : List ℕ) (m : Machine) (y : Traced) : Type 0 where
  pub same : y.machine ≡ m
  pub lines : List (List ℕ)
  pub log : List Block
  pub listing : IsListing n x.machine pending x.ninstr lines log
  pub printed : y.tracer.lines ≡ x.tracer.lines ++ lines
  pub logged : y.log ≡ x.log ++ log

Ran-none :
    (x : Traced) (pending : List ℕ) (b : Bool)
    → Ran zero x pending
        (if b then set_state x.machine nemu_stop else x.machine)
        (if b then record x { machine = set_state (x.machine) nemu_stop } else x)
Ran-none x pending true = record {
  same = refl;
  lines = [];
  log = [];
  listing = IsListing.no_line;
  printed = sym (append-nil x.tracer.lines);
  logged = sym (append-nil x.log);
}
Ran-none x pending false = record {
  same = refl;
  lines = [];
  log = [];
  listing = IsListing.no_line;
  printed = sym (append-nil x.tracer.lines);
  logged = sym (append-nil x.log);
}

module _ (n : ℕ) (x : Traced) (pending : List ℕ) (m : Machine) (y : Traced) where
  module _ (r : Round x pending m y) where
    Ran-last : is_running m.sys.nemu_state ≡ false → Ran (suc n) x pending m y
    Ran-last ends = record {
      same = r.same;
      lines = lines_of pending x.machine r.executed.handler r.executed.inst;
      log = (logged_by r.executed x.ninstr).0;
      listing = IsListing.last_line r.executed (log_registers-IsLogged _ _ _ _) ends;
      printed = r.printed;
      logged = r.logged;
    }

    Ran-more :
        (m' : Machine) (z : Traced)
        → is_running m.sys.nemu_state ≡ true
        → Ran n y (text_or (handler_text r.executed.handler r.executed.inst)) m' z
        → Ran (suc n) x pending m' z
    Ran-more m' z running more = record {
      same = more.same;
      lines = lines_of pending x.machine r.executed.handler r.executed.inst ++ more.lines;
      log = (logged_by r.executed x.ninstr).0 ++ more.log;
      listing = IsListing.first_line r.executed (log_registers-IsLogged _ _ _ _) running (
          subst
            (λ k.
              IsListing n m (text_or (handler_text r.executed.handler r.executed.inst)) k more.lines
                more.log)
            r.counted
            (subst
              (λ k.
                IsListing n k (text_or (handler_text r.executed.handler r.executed.inst)) y.ninstr
                  more.lines more.log)
              r.same more.listing));
      printed =
          more.printed
          ∙ ap (λ l. l ++ more.lines) r.printed
          ∙ append_assoc x.tracer.lines _ more.lines;
      logged = more.logged ∙ ap (λ l. l ++ more.log) r.logged ∙ append_assoc x.log _ more.log;
    }

-- What both loops do after an instruction.
Simulates-continue :
    (n : ℕ) (m : Machine) (y : Traced) (R : Machine → Traced → Type 0) (b : Bool)
    → is_running m.sys.nemu_state ≡ b
    → y.machine ≡ m
    → (b ≡ true → Simulates R (exec_loop n m) (traced_loop n y))
    → (b ≡ false → R m y)
    → Simulates R
        (elim (is_running m.sys.nemu_state) [ true ↦ exec_loop n m | false ↦ ok m ])
        (elim (is_running y.machine.sys.nemu_state) [ true ↦ traced_loop n y | false ↦ ok y ])
Simulates-continue n m y R true state same more done =
    let state' = ap (λ k. is_running k.sys.nemu_state) same ∙ state in
    rw (state, state') (more refl)
Simulates-continue n m y R false state same more done =
    let state' = ap (λ k. is_running k.sys.nemu_state) same ∙ state in
    rw (state, state') (done refl)

traced_loop-Ran :
    (n : ℕ) (x : Traced) (pending : List ℕ)
    → IsReady pending x.tracer
    → Simulates (Ran n x pending) (exec_loop n x.machine) (traced_loop n x)
unfolding exec_loop traced_loop
traced_loop-Ran zero x pending ready = Ran-none x pending (is_running x.machine.sys.nemu_state)
traced_loop-Ran (suc n) x pending ready =
    Simulates->>= _ (step x.machine) (traced_step x) _ _ (traced_step-Round x pending ready)
      λ m y r.
        Simulates-continue n m y (Ran (suc n) x pending) (is_running m.sys.nemu_state) refl r.same
          (λ running.
            let more =
              traced_loop-Ran n y (text_or (handler_text r.executed.handler r.executed.inst))
                r.ready in
            subst (λ k. Simulates (Ran (suc n) x pending) (exec_loop n k) (traced_loop n y)) r.same
              (Simulates-map _ (exec_loop n y.machine) (traced_loop n y) more
                λ m' z. Ran-more n x pending m y r m' z running))
          (Ran-last n x pending m y r)

abbrev pub running : Traced → Traced
running x = record x { machine = set_state (x.machine) nemu_running }

pub NemuState-cases : (s : NemuState) → (s ≡ nemu_end) ⊎ (s ≢ nemu_end)
NemuState-cases nemu_end = inl refl
NemuState-cases nemu_stop = inr λ e. cc
NemuState-cases nemu_running = inr λ e. cc

pub traced_exec-Ran :
    (n : ℕ) (x : Traced) (pending : List ℕ) (state : NemuState)
    → x.machine.sys.nemu_state ≡ state
    → state ≢ nemu_end
    → IsReady pending x.tracer
    → Simulates (Ran n (running x) pending) (cpu_exec n x.machine) (traced_exec n x)
unfolding cpu_exec traced_exec
traced_exec-Ran n x pending nemu_stop e active ready =
    rw e (traced_loop-Ran n (running x) pending ready)
traced_exec-Ran n x pending nemu_running e active ready =
    rw e (traced_loop-Ran n (running x) pending ready)
traced_exec-Ran n x pending nemu_end e active ready = absurd (active refl)
