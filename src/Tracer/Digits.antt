-- ===== src/Tracer/Digits.antt =====
-- The digits that the trace prints are those of the number: eight hexadecimal or ten decimal digits
-- are enough for a word (`%x` and `%d` in src/cpu/exec-handlers.h).
use nemu_riscv.Base.{
  ℕ, zero, suc, ◌+◌, ◌-◌, ◌*◌, ◌/◌, ◌%◌, ◌^◌, ◌<◌, ◌≤◌, ◌≡◌, inl, inr, refl, arith,
}
use nemu_riscv.Base.{ap, ◌∙◌, ltb, if◌then◌else◌, Bool-cases, lt→ltb, List, [], ◌∷◌, ◌++◌}
use native.Mathlib.Nat.{div-add-mod', mod-lt, div-lt_iff_lt-mul, pow-suc, pow-zero, one-mul}
use nemu_riscv.Tracer.Text.{digit, digits, hex}

-- The number that a digit stands for.
abbrev digit_value : ℕ → ℕ
digit_value ch = if ltb ch b'a' then ch - b'0' else ch - b'a' + 10

-- The number that a string of digits stands for, where `n` stands for what is before it.
abbrev read_digits : ℕ → ℕ → List ℕ → ℕ
read_digits base n [] = n
read_digits base n (ch ∷ text) = read_digits base (n * base + digit_value ch) text

digit_value-digit : (d : ℕ) → d < 16 → digit_value (digit d) ≡ d
digit_value-digit d h = ground arith

read_digits-append :
    (base n : ℕ) (a b : List ℕ)
    → read_digits base n (a ++ b) ≡ read_digits base (read_digits base n a) b
read_digits-append base n [] b = refl
read_digits-append base n (ch ∷ a) b = read_digits-append base (n * base + digit_value ch) a b

module _ (base : ℕ) (large : 1 < base) (small : base ≤ 16) where
  read_digits-one : (n d : ℕ) → d < base → read_digits base n (digit d ∷ []) ≡ n * base + d
  read_digits-one n d h = ap (λ v. n * base + v) (digit_value-digit d (omega arith))

  -- The last digit, behind those of the quotient.
  read_digits-last :
      (n : ℕ) (text : List ℕ)
      → read_digits base 0 text ≡ n / base
      → read_digits base 0 (text ++ digit (n % base) ∷ []) ≡ n
  read_digits-last n text h =
      read_digits-append base 0 text (digit (n % base) ∷ [])
      ∙ read_digits-one (read_digits base 0 text) (n % base) (mod-lt n (omega arith))
      ∙ ap (λ v. v * base + n % base) h
      ∙ div-add-mod' n base

  -- `k` digits are enough below `base ^ k`.
  read_digits-digits : (k n : ℕ) → n < base ^ suc k → read_digits base 0 (digits base (suc k) n) ≡ n
  unfolding digits
  read_digits-digits zero n fits =
      let one : n < base = ground (arith, pow-suc base 0, pow-zero base, one-mul base) in
      rw (lt→ltb n base one) (read_digits-one 0 n one ∙ omega arith)
  read_digits-digits (suc k) n fits = elim (Bool-cases (ltb n base)) [
    | inl one ↦ rw one (read_digits-one 0 n (ground arith) ∙ omega arith)
    | inr many ↦
        let fewer : n / base < base ^ suc k =
          (div-lt_iff_lt-mul (omega arith)).1 (rw (← pow-suc base (suc k)) fits) in
        rw many (
          read_digits-last n (digits base (suc k) (n / base))
            (read_digits-digits k (n / base) fewer))
  ]

-- The word in the trace is the word: its eight digits read back.
read_digits-hex : (n : ℕ) → n < 2 ^ 32 → read_digits 16 0 (hex n) ≡ n
read_digits-hex n h = read_digits-digits 16 (omega arith) (omega arith) 7 n h
