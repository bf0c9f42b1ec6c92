-- ===== src/Examples/Traced.antt =====
-- The theorems on the trace, at the program of three instructions.
use mathlib.Core.Path.{subst}
use nemu_riscv.Base.{
  ℕ, ◌≡◌, refl, none, some, Option, List, [], ◌∷◌, ok, fault, Returns, ◌>>=◌, arith,
}
use nemu_riscv.System.{nemu_running}
use nemu_riscv.Memory.{instr_fetch, store_mem}
use nemu_riscv.Address.{prot_addr}
use nemu_riscv.Ram.{read_handler}
use nemu_riscv.Decode.{alui, addi, store, sw, dispatch, at, opcode_table, alui_table_0, store_table}
use nemu_riscv.Exec.{exec, exec_alui, exec_lui, exec_store, store_simm}
use nemu_riscv.Bus.{vaddr_write, region_at, find_region}
use nemu_riscv.System.{gpio_write}
use nemu_riscv.Assertion.{Block}
use nemu_riscv.Base.{get_or}
use nemu_riscv.Tracer.{trace_append, trace_flush, write_text, string_at}
use nemu_riscv.Tracer.Text.{
  word_text, digits, pc_text, regs, alui_name, alui_operand, store_name, handler_text,
}
use nemu_riscv.Run.{Machine, step, cpu_exec, exec_loop, set_state}
use nemu_riscv.Run.Traced.{
  Traced, append_text, log_registers, traced_step, traced_loop, traced_exec,
}
use nemu_riscv.Run.Traced.Alike.{IsReady}
use nemu_riscv.Run.Traced.Ran.{IsListing}
use nemu_riscv.Base.{IsDefined}
use nemu_riscv.System.{System}
use nemu_riscv.Decode.{Handler}
use nemu_riscv.Run.Defined.{IsHarmless}
use nemu_riscv.Run.Traced.Defined.{traced_step-IsDefined}
use nemu_riscv.Run.Traced.Listing.{traced_exec-cpu_exec, traced_exec-IsListing, traced_exec_null}
use nemu_riscv.Examples.{booted, zeros, value_or}

-- `addi at,zero,5`
text_of_addi :
    handler_text (alui addi) 0x00500093
    ≡ some (
        b'a' ∷ b'd' ∷ b'd' ∷ b'i' ∷ b'\t' ∷ b'a' ∷ b't' ∷ b',' ∷ b'z' ∷ b'e' ∷ b'r' ∷ b'o' ∷ b','
        ∷ b'5' ∷ [])
unfolding handler_text alui_name alui_operand regs digits
text_of_addi = refl

-- `sw zero,8188(v0)`: the offset of -4 without its sign.
text_of_sw :
    handler_text (store sw) 0xfe012e23
    ≡ some (
        b's' ∷ b'w' ∷ b'\t' ∷ b'z' ∷ b'e' ∷ b'r' ∷ b'o' ∷ b',' ∷ b'8' ∷ b'1' ∷ b'8' ∷ b'8' ∷ b'('
        ∷ b'v' ∷ b'0' ∷ b')' ∷ [])
unfolding handler_text store_name store_simm regs digits
text_of_sw = refl

pc_text_wide :
    pc_text 0x1000
    ≡ b' ' ∷ b' ' ∷ b' ' ∷ b' ' ∷ b'1' ∷ b'0' ∷ b'0' ∷ b'0' ∷ b':' ∷ b' ' ∷ b' ' ∷ b' ' ∷ b' ' ∷ []
unfolding pc_text digits
pc_text_wide = refl

abbrev traced_from : Option ℕ → Traced
traced_from p = record {
  machine = booted;
  tracer = record { asm_buf = zeros; asm_buf_p = p; lines = [] };
  ninstr = 0;
  log = [];
}

flushed-IsReady : IsReady [] ((traced_from (some 0)).tracer)
flushed-IsReady = record { short = record { printed = tt; short = omega arith }; stands = refl }

-- The word at the entry point is `addi x1, x0, 5`.
booted-IsHarmless :
    (inst : ℕ) (fetched : System) (h : Handler)
    → instr_fetch booted.sys booted.cpu.pc ≡ ok (inst, fetched)
    → dispatch inst ≡ ok h
    → IsHarmless h inst booted.cpu
unfolding instr_fetch prot_addr read_handler dispatch at opcode_table alui_table_0
booted-IsHarmless inst fetched h e d =
    let word : 0x00500093 ≡ inst = cc in
    let entry : dispatch 0x00500093 ≡ ok h = cc in
    let handler : alui addi ≡ h = cc in subst (λ k. IsHarmless k inst booted.cpu) handler tt

traced_step-IsDefined_example : IsDefined (traced_step (traced_from (some 0)))
traced_step-IsDefined_example =
    traced_step-IsDefined (traced_from (some 0)) [] flushed-IsReady booted-IsHarmless

abbrev finished : Machine
finished = value_or (cpu_exec 10 booted) booted

traced_exec-cpu_exec_example :
    (traced_exec 10 (traced_from (some 0)) >>= λ y. ok y.machine) ≡ cpu_exec 10 booted
traced_exec-cpu_exec_example = traced_exec-cpu_exec 10 (traced_from (some 0)) [] flushed-IsReady

traced_exec-IsListing_example :
    Returns
      (λ y.
        (lines : List (List ℕ)) × (log : List Block) × IsListing 10
          (set_state booted nemu_running)
          []
          0
          lines
          log
        × (y.tracer.lines ≡ lines)
        × (y.log ≡ log))
      (traced_exec 10 (traced_from (some 0)))
unfolding cpu_exec exec_loop step instr_fetch prot_addr read_handler dispatch at opcode_table
    alui_table_0 exec exec_alui exec_lui store_table exec_store store_simm store_mem vaddr_write
    region_at find_region gpio_write
traced_exec-IsListing_example =
    traced_exec-IsListing 10 (traced_from (some 0)) [] finished flushed-IsReady (λ e. cc) refl

traced_exec_null_example : traced_exec 3 (traced_from none) ≡ fault
traced_exec_null_example = traced_exec_null 2 (traced_from none) refl (λ e. cc)

-- Behind two empty lines, a line, and three empty lines: the second line starts with the text of the first instruction.
second_line :
    get_or ((value_or (traced_exec 2 (traced_from (some 0))) (traced_from none)).tracer.lines) 6 []
    ≡ b'a' ∷ b'd' ∷ b'd' ∷ b'i' ∷ b'\t' ∷ b'a' ∷ b't' ∷ b',' ∷ b'z' ∷ b'e' ∷ b'r' ∷ b'o' ∷ b','
      ∷ b'5' ∷ b'8' ∷ b'0' ∷ b'0' ∷ b'0' ∷ b'1' ∷ b'0' ∷ b'0' ∷ b'4' ∷ b':' ∷ b' ' ∷ b' ' ∷ b' '
      ∷ b' ' ∷ b'1' ∷ b'0' ∷ b'0' ∷ b'0' ∷ b'0' ∷ b'1' ∷ b'3' ∷ b'7' ∷ b' ' ∷ b' ' ∷ b' ' ∷ b' '
      ∷ []
unfolding traced_exec traced_loop traced_step instr_fetch prot_addr read_handler dispatch at
    opcode_table alui_table_0 exec exec_alui exec_lui handler_text alui_name alui_operand regs
    digits pc_text word_text append_text log_registers trace_append trace_flush write_text string_at
second_line = refl
