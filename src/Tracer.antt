-- ===== src/Tracer.antt =====
-- The assembler trace of src/cpu/cpu-exec.c, which the Makefile switches on (ENABLE_ASM_TRACER and
-- DEBUG). The text that `vsprintf` writes is an argument of `trace_append`; those of the program's
-- calls are in Tracer.Text. `asm_buf_p` is an index of `asm_buf`; `none` is the NULL that it starts
-- with. `lines` is what both functions have printed, line by line and without the line ends.
pub mod Line
pub mod Text
pub mod Bounds
pub mod Digits
use nemu_riscv.Base.{
  ℕ, zero, suc, ◌+◌, ◌≡◌, ◌==◌, leb, if◌then◌else◌, update, length, List, [], ◌∷◌, ◌++◌,
}
use nemu_riscv.Base.{Option, none, some, Outcome, ok, fault, ◌>>=◌, ◌>>◌, cpu_assert, defined}

abbrev pub asm_buf_size : ℕ
asm_buf_size = 512

pub record Tracer : Type 0 where
  pub asm_buf : ℕ → ℕ
  pub asm_buf_p : Option ℕ
  pub lines : List (List ℕ)

-- What `vsprintf` writes: the text and a 0 behind it.
unfoldable pub write_text : (ℕ → ℕ) → ℕ → List ℕ → ℕ → ℕ
write_text buf a [] = update buf a 0
write_text buf a (ch ∷ text) = write_text (update buf a ch) (a + 1) text

-- The line that it prints is empty.
unfoldable pub trace_append : Tracer → List ℕ → Outcome (ℕ × Tracer)
unfolding write_text
trace_append t text = elim t.asm_buf_p [
  | none ↦ fault
  | some p ↦
      defined (leb (p + length text + 1) asm_buf_size)
      >> cpu_assert (leb (p + length text) asm_buf_size)
      >> ok (
        length text,
        record t {
          asm_buf = write_text (t.asm_buf) p text;
          asm_buf_p = some (p + length text);
          lines = t.lines ++ [] ∷ [];
        },
      )
]

-- The string at an index of `asm_buf` with `left` bytes left.
unfoldable pub string_at : ℕ → (ℕ → ℕ) → ℕ → Outcome (List ℕ)
string_at zero buf a = fault
string_at (suc left) buf a =
    let rest = string_at left buf (a + 1) in
    if buf a == 0 then ok [] else (rest >>= λ text. ok (buf a ∷ text))

unfoldable pub trace_flush : Tracer → Outcome Tracer
unfolding string_at
trace_flush t = do
  line ← string_at asm_buf_size t.asm_buf 0
  ok (record t { asm_buf_p = some 0; lines = t.lines ++ line ∷ [] })
