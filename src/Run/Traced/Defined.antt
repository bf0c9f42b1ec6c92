-- ===== src/Run/Traced/Defined.antt =====
-- Which instructions can run into undefined behaviour, with the trace (src/cpu/cpu-exec.c,
-- src/cpu/exec-handlers.h).
use nemu_riscv.Base.{ℕ, ◌≡◌, List, ok, IsDefined, Simulates-IsDefined}
use nemu_riscv.System.{System}
use nemu_riscv.Memory.{instr_fetch}
use nemu_riscv.Decode.{Handler, dispatch}
use nemu_riscv.Run.{step}
use nemu_riscv.Run.Defined.{IsHarmless, step-IsDefined}
use nemu_riscv.Run.Traced.{Traced, traced_step}
use nemu_riscv.Run.Traced.Alike.{IsReady, traced_step-Round}

-- Once the buffer of the trace has been set up by a flush, with a text of at most 29 characters
-- since, none of them 0, an instruction is undefined nowhere but in a division that C leaves undefined, in a store
-- into the Ethernet controller, and in a load from the frame buffer at an address that is no
-- multiple of 4: if what the word at the pc leads to is none of these, the body of the loop, with the
-- trace and the register log, returns, aborts or exits. A failed assertion counts as an abort, without
-- its dump.
pub traced_step-IsDefined :
    (x : Traced) (pending : List ℕ)
    → IsReady pending x.tracer
    → ((inst : ℕ) (fetched : System) (h : Handler)
        → instr_fetch x.machine.sys x.machine.cpu.pc ≡ ok (inst, fetched)
        → dispatch inst ≡ ok h
        → IsHarmless h inst x.machine.cpu)
    → IsDefined (traced_step x)
traced_step-IsDefined x pending ready harmless =
    Simulates-IsDefined _ (step x.machine) (traced_step x) (traced_step-Round x pending ready)
      (step-IsDefined x.machine harmless)
