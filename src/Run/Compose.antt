-- ===== src/Run/Compose.antt =====
-- Running `m` and then `n` instructions is running `m + n`; an ended emulation stays ended
-- (`cpu_exec` of src/cpu/cpu-exec.c).
use nemu_riscv.Base.{ℕ, zero, suc, ◌+◌, ◌≡◌, ◌≢◌, ◌⊎◌, inl, inr, refl, sym, arith, ap, ◌∙◌, Outcome}
use nemu_riscv.Base.{ok, ◌>>=◌, Ensures, >>=-cong, >>=-assoc, >>=-eq-ok, true, false, if◌then◌else◌}
use nemu_riscv.System.{System, NemuState, nemu_stop, nemu_running, nemu_end}
use nemu_riscv.Memory.{instr_fetch}
use nemu_riscv.Memory.Effects.{ReadsOnly, GoesOnOrEnds, load_mem-ReadsOnly, store_mem-GoesOn}
use nemu_riscv.Decode.{Handler, inv}
use nemu_riscv.Decode.{alu, store, load}
use nemu_riscv.Exec.{Cpu, exec, exec_alu, load_len, load_addr, store_len, store_addr}
use nemu_riscv.Exec.Inversion.{exec_load-Loaded, exec_store-Stored}
use nemu_riscv.Run.{Machine, step, exec_loop, cpu_exec, is_running, set_state}
use nemu_riscv.Run.Inversion.{step-Executed}
use nemu_riscv.Inst.{rs2}
use native.Mathlib.Nat.{zero-add, suc-add}

instr_fetch-ReadsOnly : (s : System) (a : ℕ) → Ensures (ReadsOnly s) (instr_fetch s a)
unfolding instr_fetch
instr_fetch-ReadsOnly s a = load_mem-ReadsOnly s a 4

exec-GoesOn :
    (h : Handler) (inst : ℕ) (c : Cpu) (s : System)
    → Ensures (λ r. GoesOnOrEnds s r.1) (exec h inst c s)
unfolding exec
exec-GoesOn (load o) inst c s r e =
    let l = exec_load-Loaded o inst c s r e in
    let state : l.s'.nemu_state ≡ s.nemu_state =
      ap (λ t. t.nemu_state)
        (load_mem-ReadsOnly s (load_addr inst c) (load_len o) (l.v, l.s') l.loads) in
    inl (ap (λ t. t.1.nemu_state) l.result ∙ state)
exec-GoesOn (store o) inst c s r e =
    let l = exec_store-Stored o inst c s r e in
    let state : r.1.nemu_state ≡ l.s'.nemu_state = ap (λ t. t.1.nemu_state) l.result in
    rw state (store_mem-GoesOn s (store_addr inst c) (store_len o) (c.gpr (rs2 inst)) l.s' l.stores)
exec-GoesOn (alu o) inst c s r e = let (c', e1, e2) = >>=-eq-ok (exec_alu o inst c) e in inl (cc)
exec-GoesOn inv inst c s r e = ground arith
exec-GoesOn _ inst c s r e = ground arith

-- An instruction leaves `nemu_state` as it is or ends the emulation.
step-GoesOn : (m m' : Machine) → step m ≡ ok m' → GoesOnOrEnds m.sys m'.sys
step-GoesOn m m' e =
    let x = step-Executed m m' e in
    let state : m'.sys.nemu_state ≡ x.sys'.nemu_state = ap (λ t. t.sys.nemu_state) x.result in
    let fetched : x.fetched.nemu_state ≡ m.sys.nemu_state =
      ap (λ t. t.nemu_state) (instr_fetch-ReadsOnly m.sys m.cpu.pc (x.inst, x.fetched) x.fetches) in
    rw (state, ← fetched) (exec-GoesOn x.handler x.inst m.cpu x.fetched (x.cpu', x.sys') x.executes)

set_state_self : (m : Machine) → m.sys.nemu_state ≡ nemu_running → set_state m nemu_running ≡ m
set_state_self m h = λ i. set_state m (sym h i)

-- What `exec_loop` does after one instruction.
abbrev pub continue : ℕ → Machine → Outcome Machine
continue n m = elim (is_running m.sys.nemu_state) [ true ↦ exec_loop n m | false ↦ ok m ]

pub cpu_exec-ended : (k : ℕ) (m : Machine) → m.sys.nemu_state ≡ nemu_end → cpu_exec k m ≡ ok m
unfolding cpu_exec
cpu_exec-ended k m h = rw h

pub cpu_exec-active :
    (k : ℕ) (m : Machine)
    → m.sys.nemu_state ≢ nemu_end
    → cpu_exec k m ≡ exec_loop k (set_state m nemu_running)
unfolding cpu_exec
cpu_exec-active k m h = ground arith

pub continue-running :
    (n : ℕ) (m : Machine) → m.sys.nemu_state ≡ nemu_running → continue n m ≡ exec_loop n m
continue-running n m h =
    ap (λ state. elim (is_running state) [ true ↦ exec_loop n m | false ↦ ok m ]) h

pub continue-ended : (n : ℕ) (m : Machine) → m.sys.nemu_state ≡ nemu_end → continue n m ≡ ok m
continue-ended n m h =
    ap (λ state. elim (is_running state) [ true ↦ exec_loop n m | false ↦ ok m ]) h

continue-add :
    (n k : ℕ) (m : Machine)
    → (m.sys.nemu_state ≡ nemu_running) ⊎ (m.sys.nemu_state ≡ nemu_end)
    → (m.sys.nemu_state ≡ nemu_running → exec_loop (n + k) m ≡ (exec_loop n m >>= cpu_exec k))
    → continue (n + k) m ≡ (continue n m >>= cpu_exec k)
continue-add n k m (inl running) ih =
    continue-running (n + k) m running
    ∙ ih running
    ∙ sym (ap (λ o. o >>= cpu_exec k) (continue-running n m running))
continue-add n k m (inr ended) ih =
    continue-ended (n + k) m ended
    ∙ sym (cpu_exec-ended k m ended)
    ∙ sym (ap (λ o. o >>= cpu_exec k) (continue-ended n m ended))

running_or_ended :
    (m m' : Machine)
    → m.sys.nemu_state ≡ nemu_running
    → GoesOnOrEnds m.sys m'.sys
    → (m'.sys.nemu_state ≡ nemu_running) ⊎ (m'.sys.nemu_state ≡ nemu_end)
running_or_ended m m' h (inl same) = inl (same ∙ h)
running_or_ended m m' h (inr ended) = inr ended

pub ended? : (state : NemuState) → (state ≡ nemu_end) ⊎ (state ≢ nemu_end)
ended? nemu_end = inl refl
ended? nemu_stop = inr (λ e. cc)
ended? nemu_running = inr (λ e. cc)

exec_loop-add :
    (n k : ℕ) (m : Machine)
    → m.sys.nemu_state ≡ nemu_running
    → exec_loop (n + k) m ≡ (exec_loop n m >>= cpu_exec k)
unfolding exec_loop
exec_loop-add zero k m h =
    let running : is_running m.sys.nemu_state ≡ true = ap is_running h in
    rw (zero-add, running)
      (sym (ap (exec_loop k) (set_state_self m h))
        ∙ sym (cpu_exec-active k (set_state m nemu_stop) (λ e. cc)))
exec_loop-add (suc n) k m h =
    rw (suc-add, >>=-assoc)
      (>>=-cong (step m) _ _ λ m' e.
        continue-add n k m' (running_or_ended m m' h (step-GoesOn m m' e)) (exec_loop-add n k m'))

-- To run `n + k` instructions is to run `n`, and `k` in the state that this leaves: with the same
-- result, failures included, wherever the emulation ends in between.
pub cpu_exec-add : (n k : ℕ) (m : Machine) → cpu_exec (n + k) m ≡ (cpu_exec n m >>= cpu_exec k)
cpu_exec-add n k m = elim (ended? m.sys.nemu_state) [
  | inl ended ↦
      rw (cpu_exec-ended (n + k) m ended, cpu_exec-ended n m ended) (sym (cpu_exec-ended k m ended))
  | inr active ↦
      rw (cpu_exec-active (n + k) m active, cpu_exec-active n m active)
        (exec_loop-add n k (set_state m nemu_running) refl)
]

-- The state that the loop leaves: NEMU_STOP or NEMU_END.
abbrev IsFinal : Machine → Type 0
IsFinal m = (m.sys.nemu_state ≡ nemu_stop) ⊎ (m.sys.nemu_state ≡ nemu_end)

continue-IsFinal :
    (n : ℕ) (m : Machine)
    → (m.sys.nemu_state ≡ nemu_running) ⊎ (m.sys.nemu_state ≡ nemu_end)
    → (m.sys.nemu_state ≡ nemu_running → Ensures IsFinal (exec_loop n m))
    → Ensures IsFinal (continue n m)
continue-IsFinal n m (inl running) ih m' e = ih running m' (sym (continue-running n m running) ∙ e)
continue-IsFinal n m (inr ended) ih m' e =
    let same : ok m ≡ ok m' = sym (continue-ended n m ended) ∙ e in
    let m-eq : m ≡ m' = cc in inr (sym (ap (λ t. t.sys.nemu_state) m-eq) ∙ ended)

exec_loop-IsFinal :
    (n : ℕ) (m : Machine) → m.sys.nemu_state ≡ nemu_running → Ensures IsFinal (exec_loop n m)
unfolding exec_loop
exec_loop-IsFinal zero m h m' e =
    let running : is_running m.sys.nemu_state ≡ true = ap is_running h in
    let same : ok (set_state m nemu_stop) ≡ ok m' =
      sym (ap (λ b. ok (if b then set_state m nemu_stop else m)) running) ∙ e in
    let m-eq : set_state m nemu_stop ≡ m' = cc in inl (sym (ap (λ t. t.sys.nemu_state) m-eq))
exec_loop-IsFinal (suc n) m h m' e =
    let (m1, e1, e2) = >>=-eq-ok (step m) e in
    continue-IsFinal n m1 (running_or_ended m m1 h (step-GoesOn m m1 e1)) (exec_loop-IsFinal n m1)
      m' e2

cpu_exec-IsFinal : (n : ℕ) (m : Machine) → Ensures IsFinal (cpu_exec n m)
cpu_exec-IsFinal n m m' e = elim (ended? m.sys.nemu_state) [
  | inl ended ↦
      let same : ok m ≡ ok m' = sym (cpu_exec-ended n m ended) ∙ e in
      let m-eq : m ≡ m' = cc in inr (sym (ap (λ t. t.sys.nemu_state) m-eq) ∙ ended)
  | inr active ↦
      exec_loop-IsFinal n (set_state m nemu_running) refl m' (sym (cpu_exec-active n m active) ∙ e)
]

stop_or_stays :
    (m : Machine)
    → IsFinal m
    → (m.sys.nemu_state ≡ nemu_stop)
      ⊎ ((m.sys.nemu_state ≡ nemu_end) × ((k : ℕ) → cpu_exec k m ≡ ok m))
stop_or_stays m (inl stops) = inl stops
stop_or_stays m (inr ended) = inr (ended, λ k. cpu_exec-ended k m ended)

-- After a return, `nemu_state` is NEMU_STOP or NEMU_END, never NEMU_RUNNING. An ended emulation does
-- not run any more: each further call returns the machine as it is.
pub cpu_exec_final :
    (n : ℕ) (m m' : Machine)
    → cpu_exec n m ≡ ok m'
    → (m'.sys.nemu_state ≡ nemu_stop)
      ⊎ ((m'.sys.nemu_state ≡ nemu_end) × ((k : ℕ) → cpu_exec k m' ≡ ok m'))
cpu_exec_final n m m' e = stop_or_stays m' (cpu_exec-IsFinal n m m' e)
