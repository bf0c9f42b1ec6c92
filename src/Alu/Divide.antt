-- ===== src/Alu/Divide.antt =====
-- Signed division of src/cpu/exec-handlers.h, on 32-bit patterns.
use nemu_riscv.Base.{
  ℕ, suc, ◌+◌, ◌-◌, ◌*◌, ◌/◌, ◌%◌, ◌^◌, ◌≤◌, ◌<◌, ◌≡◌, ◌⊎◌, inl, inr, refl, sym, ap, ◌∙◌, arith,
}
use nemu_riscv.Base.{
  pos, negsuc, sub_ℕ, int32, pattern_of, u32, ok, fault, false, true, Bool-cases, ltb,
  if◌then◌else◌,
}
use nemu_riscv.Base.{truncated_quot, truncated_rem, ◌==◌}
use nemu_riscv.Decode.{div, rem}
use nemu_riscv.Alu.{alu_value, divides}
use native.Mathlib.Nat.{mul-add, zero-mul, add-mul, div-add-mod', mod-lt, div-le_self}

-- The absolute value of a word read in two's complement.
abbrev pub word_abs : ℕ → ℕ
word_abs w = if ltb w (2 ^ 31) then w else 2 ^ 32 - w

-- The word of -k.
abbrev pub negate : ℕ → ℕ
negate k = (2 ^ 32 - k) % 2 ^ 32

-- The quotient `q` and the remainder `r` of `a` by `b`, as words.
abbrev pub IsDivision : ℕ → ℕ → ℕ → ℕ → Type 0
IsDivision a b q r =
    (u32 (q * b + r) ≡ a)
    × (word_abs r < word_abs b)
    × (a < 2 ^ 31 → r < 2 ^ 31)
    × (2 ^ 31 ≤ a → (r ≡ 0) ⊎ (2 ^ 31 ≤ r))

pub pattern-negate : (k : ℕ) → k < 2 ^ 32 → pattern_of 32 (sub_ℕ 0 k) ≡ negate k
pattern-negate k h = ground arith

split_product : (q k b s : ℕ) → q + k ≡ s → q * b + k * b ≡ s * b
split_product q k b s h = sym (add-mul q k b) ∙ ap (λ t. t * b) h

positive : (a b : ℕ) → a < 2 ^ 31 → b < 2 ^ 31 → 0 < b → IsDivision a b (a / b) (a % b)
positive a b ha hb some_b =
    let whole = div-add-mod' a b in
    let below = mod-lt a some_b in
    (omega arith, ground arith, (λ h. omega arith), (λ h. absurd (omega arith)))

-- What `negate` adds to the number, times `b`: nothing or `b` times 2 ^ 32.
negate_product :
    (k b : ℕ) → k < 2 ^ 32 → (negate k * b + k * b ≡ 0) ⊎ (negate k * b + k * b ≡ 2 ^ 32 * b)
negate_product k b h = elim (Bool-cases (k == 0)) [
  | inl zero_k ↦
      let none_left : k ≡ 0 = ground arith in
      inl (split_product (negate k) k b 0 (omega arith) ∙ zero-mul b)
  | inr some_k ↦
      let some_left : 0 < k = ground arith in
      inr (split_product (negate k) k b (2 ^ 32) (omega arith))
]

module _ (a b : ℕ) (ha : a < 2 ^ 32) (hb : b < 2 ^ 32) where
  negative_positive :
      2 ^ 31 ≤ a
      → b < 2 ^ 31
      → 0 < b
      → IsDivision a b (negate ((2 ^ 32 - a) / b)) (negate ((2 ^ 32 - a) % b))
  negative_positive la sb some_b =
      let m = 2 ^ 32 - a in
      let whole = div-add-mod' m b in
      let below = mod-lt m some_b in
      let less = div-le_self m b in
      let law : u32 (negate (m / b) * b + negate (m % b)) ≡ a =
        elim (negate_product (m / b) b (omega arith)) [
          | inl none_left ↦ omega arith
          | inr some_left ↦ omega arith
        ] in
      (law, ground arith, (λ h. absurd (omega arith)), (λ h. ground arith))

  positive_negative :
      a < 2 ^ 31 → 2 ^ 31 ≤ b → IsDivision a b (negate (a / (2 ^ 32 - b))) (a % (2 ^ 32 - b))
  positive_negative sa lb =
      let n = 2 ^ 32 - b in
      let some_n : 0 < n = omega arith in
      let whole = div-add-mod' a n in
      let below = mod-lt a some_n in
      let less = div-le_self a n in
      let q = negate (a / n) in
      let both : q * n + q * b ≡ q * 2 ^ 32 =
        sym (mul-add q n b) ∙ ap (λ (t : ℕ). q * t) (omega arith) in
      let law : u32 (q * b + a % n) ≡ a = elim (negate_product (a / n) n (omega arith)) [
        | inl none_left ↦ omega arith
        | inr some_left ↦ omega arith
      ] in
      (law, ground arith, (λ h. omega arith), (λ h. absurd (omega arith)))

  negative_negative :
      2 ^ 31 ≤ a
      → 2 ^ 31 ≤ b
      → IsDivision a b ((2 ^ 32 - a) / (2 ^ 32 - b)) (negate ((2 ^ 32 - a) % (2 ^ 32 - b)))
  negative_negative la lb =
      let m = 2 ^ 32 - a in
      let n = 2 ^ 32 - b in
      let some_n : 0 < n = omega arith in
      let whole = div-add-mod' m n in
      let below = mod-lt m some_n in
      let q = m / n in
      let both : q * n + q * b ≡ q * 2 ^ 32 =
        sym (mul-add q n b) ∙ ap (λ (t : ℕ). q * t) (omega arith) in
      let law : u32 (q * b + negate (m % n)) ≡ a = omega arith in
      (law, ground arith, (λ h. absurd (omega arith)), (λ h. ground arith))

pub int32-pos : (a : ℕ) → a < 2 ^ 31 → int32 a ≡ pos a
int32-pos a h = ground arith

pub int32-negsuc : (a : ℕ) → 2 ^ 31 ≤ a → int32 a ≡ negsuc (2 ^ 32 - 1 - a)
int32-negsuc a h = ground arith

-- The two results, as words.
abbrev pub quot_word : ℕ → ℕ → ℕ
quot_word a b = pattern_of 32 (truncated_quot (int32 a) (int32 b))

abbrev pub rem_word : ℕ → ℕ → ℕ
rem_word a b = pattern_of 32 (truncated_rem (int32 a) (int32 b))

-- They are those of the absolute values, negated where the signs say so.
words_of_parts :
    (a b : ℕ) → a < 2 ^ 32 → b < 2 ^ 32 → 0 < b → IsDivision a b (quot_word a b) (rem_word a b)
unfolding truncated_quot truncated_rem
words_of_parts a b ha hb some_b = elim (Bool-cases (ltb a (2 ^ 31))) [
  | inl small_a ↦ elim (Bool-cases (ltb b (2 ^ 31))) [
    | inl small_b ↦
        let sa : a < 2 ^ 31 = ground arith in
        let sb : b < 2 ^ 31 = ground arith in
        let q : a / b % 2 ^ 32 ≡ a / b = omega (arith, div-le_self a b) in
        let r : a % b % 2 ^ 32 ≡ a % b = omega (arith, mod-lt a some_b) in
        rw (int32-pos a sa, int32-pos b sb, q, r) (positive a b sa sb some_b)
    | inr large_b ↦
        let sa : a < 2 ^ 31 = ground arith in
        let lb : 2 ^ 31 ≤ b = ground arith in
        let some_n : 0 < 2 ^ 32 - b = omega arith in
        let n : suc (2 ^ 32 - 1 - b) ≡ 2 ^ 32 - b = omega arith in
        let q = pattern-negate (a / (2 ^ 32 - b)) (omega (arith, div-le_self a (2 ^ 32 - b))) in
        let r : a % (2 ^ 32 - b) % 2 ^ 32 ≡ a % (2 ^ 32 - b) = omega (arith, mod-lt a some_n) in
        rw (int32-pos a sa, int32-negsuc b lb, n, q, r) (positive_negative a b ha hb sa lb)
  ]
  | inr large_a ↦ elim (Bool-cases (ltb b (2 ^ 31))) [
    | inl small_b ↦
        let la : 2 ^ 31 ≤ a = ground arith in
        let sb : b < 2 ^ 31 = ground arith in
        let m : suc (2 ^ 32 - 1 - a) ≡ 2 ^ 32 - a = omega arith in
        let q = pattern-negate ((2 ^ 32 - a) / b) (omega (arith, div-le_self (2 ^ 32 - a) b)) in
        let r = pattern-negate ((2 ^ 32 - a) % b) (omega (arith, mod-lt (2 ^ 32 - a) some_b)) in
        rw (int32-negsuc a la, int32-pos b sb, m, q, r) (negative_positive a b ha hb la sb some_b)
    | inr large_b ↦
        let la : 2 ^ 31 ≤ a = ground arith in
        let lb : 2 ^ 31 ≤ b = ground arith in
        let m : suc (2 ^ 32 - 1 - a) ≡ 2 ^ 32 - a = omega arith in
        let some_n : 0 < 2 ^ 32 - b = omega arith in
        let n : suc (2 ^ 32 - 1 - b) ≡ 2 ^ 32 - b = omega arith in
        let q : (2 ^ 32 - a) / (2 ^ 32 - b) % 2 ^ 32 ≡ (2 ^ 32 - a) / (2 ^ 32 - b) =
          omega (arith, div-le_self (2 ^ 32 - a) (2 ^ 32 - b)) in
        let r =
          pattern-negate ((2 ^ 32 - a) % (2 ^ 32 - b))
            (omega (arith, mod-lt (2 ^ 32 - a) some_n)) in
        rw (int32-negsuc a la, int32-negsuc b lb, m, n, q, r) (negative_negative a b ha hb la lb)
  ]
]

-- `div` and `rem` of 32-bit words, where C defines them (the divisor is not 0, and not -1 under the
-- dividend -2 ^ 31), give words `q` and `r` with q * b + r ≡ a modulo 2 ^ 32. The absolute value of
-- `r` is below that of `b`, and `r` is 0 or has the sign of `a`. Elsewhere both are undefined.
pub div-rem :
    (a b : ℕ)
    → a < 2 ^ 32
    → b < 2 ^ 32
    → ((divides a b ≡ false) × (alu_value div a b ≡ fault) × (alu_value rem a b ≡ fault))
      ⊎ ((divides a b ≡ true)
          × (q : ℕ) × (r : ℕ) × (alu_value div a b ≡ ok q)
          × (alu_value rem a b ≡ ok r)
          × IsDivision a b q r)
unfolding alu_value
div-rem a b ha hb = elim (Bool-cases (divides a b)) [
  | inl fits ↦
      let some_b : 0 < b = ground arith in
      inr (
        fits,
        quot_word a b,
        rem_word a b,
        rw fits refl,
        rw fits refl,
        words_of_parts a b ha hb some_b,
      )
  | inr bad ↦ inl (bad, rw bad refl, rw bad refl)
]
