-- ===== src/Tracer/Bounds.antt =====
-- The texts of the trace hold no 0 and are short (src/cpu/cpu-exec.c and exec-handlers.h).
use nemu_riscv.Base.{ℕ, zero, suc, ◌+◌, ◌-◌, ◌/◌, ◌%◌, ◌≤◌, ◌<◌, ltb, arith, length, length-append}
use nemu_riscv.Base.{
  List, [], ◌∷◌, ◌++◌, Option, none, some, get_or, replicate, ℤ, pos, negsuc, if-ensures,
}
use nemu_riscv.Inst.{rd, rs1, rs2, simm_11_0, imm_31_12}
use nemu_riscv.Exec.{store_simm}
use nemu_riscv.Decode.{
  Handler, AluOp, AluiOp, LoadOp, StoreOp, alu, alui, load, store, lui, auipc, jalr,
}
use nemu_riscv.Decode.{add, addi, lb, sb}
use nemu_riscv.Tracer.Line.{AllPrinted}
use nemu_riscv.Tracer.Text.{digit, digits, decimal, hex, padded, spaces, pc_text}
use nemu_riscv.Tracer.Text.{word_text, regs, reg, alu_name, alui_name, alui_operand, load_name}
use nemu_riscv.Tracer.Text.{store_name, memory_text, handler_text}

-- No 0 in it, and at most `k` characters.
pub record IsText (k : ℕ) (text : List ℕ) : Type 0 where
  pub printed : AllPrinted text
  pub short : length text ≤ k

AllPrinted-append : (a b : List ℕ) → AllPrinted a → AllPrinted b → AllPrinted (a ++ b)
AllPrinted-append [] b h k = k
AllPrinted-append (ch ∷ a) b h k = (h.0, AllPrinted-append a b h.1 k)

pub IsText-append : {j k : ℕ} (a b : List ℕ) → IsText j a → IsText k b → IsText (j + k) (a ++ b)
IsText-append a b h k = record {
  printed = AllPrinted-append a b h.printed k.printed;
  short = omega (arith, h.short, k.short, length-append a b);
}

IsText-cons : {k : ℕ} (ch : ℕ) (text : List ℕ) → 0 < ch → IsText k text → IsText (1 + k) (ch ∷ text)
IsText-cons ch text some_ch h = record {
  printed = (some_ch, h.printed);
  short = omega (arith, h.short);
}

pub IsText-≤ : {j k : ℕ} (text : List ℕ) → j ≤ k → IsText j text → IsText k text
IsText-≤ text le h = record { printed = h.printed; short = omega (arith, h.short) }

empty : IsText 0 []
empty = record { printed = tt; short = omega arith }

digit-lt : (d : ℕ) → 0 < digit d
digit-lt d = ground arith

one_digit : (d : ℕ) → IsText 1 (digit d ∷ [])
one_digit d = record { printed = (digit-lt d, tt); short = omega arith }

digits-IsText : (base k n : ℕ) → IsText k (digits base k n)
unfolding digits
digits-IsText base zero n = record { printed = tt; short = omega arith }
digits-IsText base (suc k) n =
    if-ensures (IsText (suc k)) (ltb n base) (IsText-≤ _ (omega arith) (one_digit n)) (
      IsText-≤ _ (omega arith) (
        IsText-append (digits base k (n / base)) (digit (n % base) ∷ [])
          (digits-IsText base k (n / base)) (one_digit (n % base))))

decimal-IsText : (n : ℤ) → IsText 11 (decimal n)
decimal-IsText (pos n) = IsText-≤ _ (omega arith) (digits-IsText 10 10 n)
decimal-IsText (negsuc n) = IsText-cons b'-' _ (omega arith) (digits-IsText 10 10 (n + 1))

replicate-IsText : (n ch : ℕ) → 0 < ch → IsText n (replicate n ch)
replicate-IsText zero ch h = record { printed = tt; short = omega arith }
replicate-IsText (suc n) ch h =
    IsText-≤ _ (omega arith) (IsText-cons ch (replicate n ch) h (replicate-IsText n ch h))

padded-IsText : (ch : ℕ) (text : List ℕ) → 0 < ch → IsText 8 text → IsText 8 (padded ch text)
padded-IsText ch text some_ch h =
    let whole : IsText (length text) text = record { printed = h.printed; short = omega arith } in
    IsText-≤ _ (omega (arith, h.short))
      (IsText-append _ text (replicate-IsText (8 - length text) ch some_ch) whole)

colon-IsText : IsText 5 (b':' ∷ spaces)
colon-IsText = record { printed = omega arith; short = omega arith }

spaces-IsText : IsText 4 spaces
spaces-IsText = record { printed = omega arith; short = omega arith }

pub pc_text-IsText : (pc : ℕ) → IsText 13 (pc_text pc)
unfolding pc_text
pc_text-IsText pc =
    IsText-append (padded b' ' (hex pc)) (b':' ∷ spaces)
      (padded-IsText b' ' (hex pc) (omega arith) (digits-IsText 16 8 pc)) colon-IsText

pub word_text-IsText : (inst : ℕ) → IsText 12 (word_text inst)
unfolding word_text
word_text-IsText inst =
    IsText-append (padded b'0' (hex inst)) spaces
      (padded-IsText b'0' (hex inst) (omega arith) (digits-IsText 16 8 inst)) spaces-IsText

-- Every name in `regs` has at most four characters; where the index is past the end, the text is
-- empty.
abbrev AllTexts : ℕ → List (List ℕ) → Type 0
AllTexts k [] = Unit {0}
AllTexts k (text ∷ texts) = (AllPrinted text × (length text ≤ k)) × AllTexts k texts

get_or-IsText :
    (k : ℕ) (texts : List (List ℕ)) (i : ℕ) → AllTexts k texts → IsText k (get_or texts i [])
get_or-IsText k [] i h = record { printed = tt; short = omega arith }
get_or-IsText k (text ∷ texts) zero h = record { printed = h.0.0; short = h.0.1 }
get_or-IsText k (text ∷ texts) (suc i) h = get_or-IsText k texts i h.1

regs-AllTexts : AllTexts 4 regs
unfolding regs
regs-AllTexts = omega arith

reg-IsText : (i : ℕ) → IsText 4 (reg i)
reg-IsText i = get_or-IsText 4 regs i regs-AllTexts

alu_name-IsText : (o : AluOp) → IsText 6 (alu_name o)
unfolding alu_name
alu_name-IsText add = record { printed = omega arith; short = omega arith }
alu_name-IsText _ = record { printed = omega arith; short = omega arith }

alui_name-IsText : (o : AluiOp) → IsText 6 (alui_name o)
unfolding alui_name
alui_name-IsText addi = record { printed = omega arith; short = omega arith }
alui_name-IsText _ = record { printed = omega arith; short = omega arith }

load_name-IsText : (o : LoadOp) → IsText 6 (load_name o)
unfolding load_name
load_name-IsText lb = record { printed = omega arith; short = omega arith }
load_name-IsText _ = record { printed = omega arith; short = omega arith }

store_name-IsText : (o : StoreOp) → IsText 6 (store_name o)
unfolding store_name
store_name-IsText sb = record { printed = omega arith; short = omega arith }
store_name-IsText _ = record { printed = omega arith; short = omega arith }

-- A register behind the character `ch`.
reg_after : (ch i : ℕ) → 0 < ch → IsText 5 (ch ∷ reg i)
reg_after ch i h = IsText-cons ch (reg i) h (reg-IsText i)

memory_text-IsText : (r : ℕ) (offset : ℤ) (base : ℕ) → IsText 23 (memory_text r offset base)
memory_text-IsText r offset base =
    let comma = IsText-cons b',' (decimal offset) (omega arith) (decimal-IsText offset) in
    let two = IsText-append (b'\t' ∷ reg r) _ (reg_after b'\t' r (omega arith)) comma in
    let three = IsText-append _ (b'(' ∷ reg base) two (reg_after b'(' base (omega arith)) in
    IsText-append _ (b')' ∷ []) three (IsText-cons b')' [] (omega arith) empty)

abbrev pub IsHandlerText : Option (List ℕ) → Type 0
IsHandlerText none = Unit {0}
IsHandlerText (some text) = IsText 29 text

-- Two registers and a third operand behind the name.
operands-IsText :
    (name last : List ℕ) (r base : ℕ)
    → IsText 6 name
    → IsText 11 last
    → IsText 29 (name ++ b'\t' ∷ reg r ++ b',' ∷ reg base ++ b',' ∷ last)
operands-IsText name last r base h k =
    let one = IsText-append name _ h (reg_after b'\t' r (omega arith)) in
    let two = IsText-append _ (b',' ∷ reg base) one (reg_after b',' base (omega arith)) in
    IsText-≤ _ (omega arith)
      (IsText-append _ (b',' ∷ last) two (IsText-cons b',' last (omega arith) k))

upper-IsText :
    (name : List ℕ) (r imm : ℕ) → IsText 6 name → IsText 29 (name ++ reg r ++ b',' ∷ hex imm)
upper-IsText name r imm h =
    let one = IsText-append name (reg r) h (reg-IsText r) in
    IsText-≤ _ (omega arith) (
      IsText-append _ (b',' ∷ hex imm) one
        (IsText-cons b',' (hex imm) (omega arith) (digits-IsText 16 8 imm)))

name-IsText : {k : ℕ} (name : List ℕ) → AllPrinted name → length name ≤ k → IsText k name
name-IsText name h l = record { printed = h; short = l }

pub handler_text-IsText : (h : Handler) (inst : ℕ) → IsHandlerText (handler_text h inst)
unfolding handler_text
handler_text-IsText (alu o) inst =
    operands-IsText (alu_name o) (reg (rs2 inst)) (rd inst) (rs1 inst) (alu_name-IsText o)
      (IsText-≤ _ (omega arith) (reg-IsText (rs2 inst)))
handler_text-IsText (alui o) inst =
    operands-IsText (alui_name o) _ (rd inst) (rs1 inst) (alui_name-IsText o)
      (decimal-IsText (alui_operand o inst))
handler_text-IsText (load o) inst =
    IsText-append (load_name o) _ (load_name-IsText o)
      (memory_text-IsText (rd inst) (simm_11_0 inst) (rs1 inst))
handler_text-IsText (store o) inst =
    IsText-append (store_name o) _ (store_name-IsText o)
      (memory_text-IsText (rs2 inst) (pos (store_simm inst)) (rs1 inst))
handler_text-IsText lui inst =
    upper-IsText (b'l' ∷ b'u' ∷ b'i' ∷ b'\t' ∷ []) (rd inst) (imm_31_12 inst)
      (name-IsText _ (omega arith) (omega arith))
handler_text-IsText auipc inst =
    upper-IsText (b'a' ∷ b'u' ∷ b'i' ∷ b'p' ∷ b'c' ∷ b'\t' ∷ []) (rd inst) (imm_31_12 inst)
      (name-IsText _ (omega arith) (omega arith))
handler_text-IsText jalr inst = IsText-≤ _ (omega arith) (
    IsText-append (b'j' ∷ b'a' ∷ b'l' ∷ b'r' ∷ b'\t' ∷ []) (reg (rd inst))
      (name-IsText {k = 5} _ (omega arith) (omega arith)) (reg-IsText (rd inst)))
handler_text-IsText _ inst = tt
