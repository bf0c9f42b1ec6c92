-- ===== src/Tracer/Line.antt =====
-- A line of the trace is what was appended since the last flush (src/cpu/cpu-exec.c).
use nemu_riscv.Base.{
  ℕ, zero, suc, ◌+◌, ◌<◌, ◌≡◌, refl, ap, arith, true, false, leb, le→leb, update, length,
  length-append,
}
use nemu_riscv.Base.{List, [], ◌∷◌, ◌++◌, none, some, ok, fault, Returns}
use nemu_riscv.Base.{◌==◌, sym, ◌∙◌}
use nemu_riscv.Tracer.{Tracer, write_text, trace_append, string_at, trace_flush}

-- The string from `a` on is this text.
abbrev Holds : (ℕ → ℕ) → ℕ → List ℕ → Type 0
Holds buf a [] = buf a ≡ 0
Holds buf a (ch ∷ text) = (buf a ≡ ch) × (0 < ch) × Holds buf (a + 1) text

abbrev pub AllPrinted : List ℕ → Type 0
AllPrinted [] = Unit {0}
AllPrinted (ch ∷ text) = (0 < ch) × AllPrinted text

write_text-before :
    (buf : ℕ → ℕ) (a : ℕ) (text : List ℕ) (j : ℕ) → j < a → write_text buf a text j ≡ buf j
unfolding write_text
write_text-before buf a [] j h = ground arith
write_text-before buf a (ch ∷ text) j h =
    ground (arith, write_text-before (update buf a ch) (a + 1) text j)

write_text-Holds :
    (buf : ℕ → ℕ) (a : ℕ) (text : List ℕ) → AllPrinted text → Holds (write_text buf a text) a text
unfolding write_text
write_text-Holds buf a [] h = ground arith
write_text-Holds buf a (ch ∷ text) h =
    let written = write_text-before (update buf a ch) (a + 1) text a (omega arith) in
    (written ∙ ground arith, h.0, write_text-Holds (update buf a ch) (a + 1) text h.1)

write_text-append :
    (buf : ℕ → ℕ) (a e : ℕ) (line text : List ℕ)
    → Holds buf a line
    → AllPrinted text
    → e ≡ a + length line
    → Holds (write_text buf e text) a (line ++ text)
write_text-append buf a e [] text h ht at_end =
    let same : e ≡ a = omega arith in rw same (write_text-Holds buf a text ht)
write_text-append buf a e (ch ∷ line) text (first, some_ch, rest) ht at_end = (
  write_text-before buf e text a (omega arith) ∙ first,
  some_ch,
  write_text-append buf (a + 1) e line text rest ht (omega arith),
)

string_at-Holds :
    (left : ℕ) (buf : ℕ → ℕ) (a : ℕ) (line : List ℕ)
    → Holds buf a line
    → length line < left
    → string_at left buf a ≡ ok line
unfolding string_at
string_at-Holds zero buf a line h fits = absurd (omega arith)
string_at-Holds (suc left) buf a [] h fits = rw h refl
string_at-Holds (suc left) buf a (zero ∷ line) (first, some_ch, rest) fits = absurd (omega arith)
string_at-Holds (suc left) buf a (suc ch ∷ line) (first, some_ch, rest) fits =
    let nonzero : (suc ch == 0) ≡ false = ground arith in
    rw (first, nonzero, string_at-Holds left buf (a + 1) line rest (omega arith)) refl

-- The line so far stands in the buffer, and the index is at its end.
abbrev pub IsLine : List ℕ → Tracer → Type 0
IsLine line t = (t.asm_buf_p ≡ some (length line)) × Holds t.asm_buf 0 line

-- The line stands in the buffer, and an empty line has been printed.
abbrev pub IsAppended : Tracer → List ℕ → Tracer → Type 0
IsAppended t line t' = IsLine line t' × (t'.lines ≡ t.lines ++ [] ∷ [])

trace_append-first :
    (t : Tracer) (text : List ℕ)
    → t.asm_buf_p ≡ some 0
    → AllPrinted text
    → length text < 512
    → Returns (λ r. IsAppended t text r.1) (trace_append t text)
unfolding trace_append
trace_append-first t text start h fits =
    let inside : leb (0 + length text + 1) 512 ≡ true = le→leb _ 512 (omega arith) in
    let checked : leb (0 + length text) 512 ≡ true = le→leb _ 512 (omega arith) in
    rw (start, inside, checked) ((ap some (omega arith), write_text-Holds t.asm_buf 0 text h), refl)

trace_append-more :
    (t : Tracer) (line text : List ℕ)
    → IsLine line t
    → AllPrinted text
    → length line + length text < 512
    → Returns (λ r. IsAppended t (line ++ text) r.1) (trace_append t text)
unfolding trace_append
trace_append-more t line text (at_end, holds) h fits =
    let inside : leb (length line + length text + 1) 512 ≡ true = le→leb _ 512 (omega arith) in
    let checked : leb (length line + length text) 512 ≡ true = le→leb _ 512 (omega arith) in
    rw (at_end, inside, checked)
      (
        (
          ap some (sym (length-append line text)),
          write_text-append t.asm_buf 0 (length line) line text holds h (omega arith),
        ),
        refl,
      )

pub trace_flush-IsLine :
    (t : Tracer) (line : List ℕ)
    → IsLine line t
    → length line < 512
    → Returns (λ t'. (t'.lines ≡ t.lines ++ line ∷ []) × (t'.asm_buf_p ≡ some 0)) (trace_flush t)
unfolding trace_flush
trace_flush-IsLine t line (at_end, holds) fits =
    rw (string_at-Holds 512 t.asm_buf 0 line holds fits) (refl, refl)

-- What has been appended since the last flush. The flush itself leaves the old bytes in the buffer.
abbrev pub IsPending : List ℕ → Tracer → Type 0
IsPending [] t = t.asm_buf_p ≡ some 0
IsPending (ch ∷ line) t = IsLine (ch ∷ line) t

pub IsLine-IsPending : (line : List ℕ) (t : Tracer) → IsLine line t → IsPending line t
IsLine-IsPending [] t h = h.0
IsLine-IsPending (ch ∷ line) t h = h

pub trace_append-IsLine :
    (t : Tracer) (line text : List ℕ)
    → IsPending line t
    → AllPrinted text
    → length line + length text < 512
    → Returns (λ r. IsAppended t (line ++ text) r.1) (trace_append t text)
trace_append-IsLine t [] text h printed fits = trace_append-first t text h printed (omega arith)
trace_append-IsLine t (ch ∷ line) text h printed fits =
    trace_append-more t (ch ∷ line) text h printed fits

-- Before the first flush `asm_buf_p` is NULL, as C initialises it: the first `trace_append` is
-- undefined behaviour, whatever its text.
pub trace_append_null :
    (t : Tracer) (text : List ℕ) → t.asm_buf_p ≡ none → trace_append t text ≡ fault
unfolding trace_append
trace_append_null t text null = rw null refl
