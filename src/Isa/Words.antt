-- ===== src/Isa/Words.antt =====
-- Facts on words read in two's complement, for the comparison of src/cpu/exec-handlers.h with the manual.
use nemu_riscv.Base.{
  ℕ, zero, suc, ◌+◌, ◌-◌, ◌*◌, ◌/◌, ◌%◌, ◌^◌, ◌≤◌, ◌<◌, ◌≡◌, inl, inr, sym, ap, ◌∙◌, arith,
}
use nemu_riscv.Base.{ℤ, pos, negsuc, ◌*ℤ◌, sub_ℕ, int32, signed, pattern_of, sar, u64, leb, ltb}
use nemu_riscv.Base.{true, false, Bool-cases, bit_and_mask, bit_and, ltb_ℤ}
use nemu_riscv.Isa.{shift_right_signed}
use native.Mathlib.Nat.{
  add-mul, div-add-mod', mod-lt, div-le_self, div-eq_of_lt-le, mul-zero, zero-mul, add-zero,
  mul-one, pow-zero, one-le-pow, lt_of_mul-lt-mul_right, pow-le-pow_right,
}
use native.Mathlib.Numerals.{unary_clauses}

-- A quotient by its bounds.
quotient : (n d q : ℕ) → q * d ≤ n → n < q * d + d → n / d ≡ q
quotient n d q lo hi = div-eq_of_lt-le d lo (omega (arith, add-mul q 1 d))

pub upper_of : (z : ℤ) → pattern_of 32 (sar z 32) ≡ pattern_of 64 z / 2 ^ 32
unfolding sar
upper_of (pos n) = omega arith
upper_of (negsuc n) = omega arith

pub lower_of : (z : ℤ) → pattern_of 32 z ≡ pattern_of 64 z % 2 ^ 32
lower_of (pos n) = omega arith
lower_of (negsuc n) = omega arith

pub read_back : (w : ℕ) → w < 2 ^ 64 → pattern_of 64 (signed 64 w) ≡ w
read_back w h = ground arith

scaled : (n b : ℕ) → n < 2 ^ 64 → (2 ^ 64 - 1 - n) * b + suc n * b ≡ 2 ^ 64 * b
scaled n b h = sym (add-mul (2 ^ 64 - 1 - n) (suc n) b) ∙ ap (λ (t : ℕ). t * b) (omega arith)

minus_pattern : (x y b : ℕ) → x + y ≡ 2 ^ 64 * b → x % 2 ^ 64 ≡ pattern_of 64 (sub_ℕ 0 y)
minus_pattern x y b h = ground arith

pub pos-times : (a b : ℕ) → pos a *ℤ pos b ≡ pos (a * b)
unfolding ◌*ℤ◌
pos-times a b =
    let none_left : a * 0 + 0 * b ≡ 0 = omega arith in
    let all_left : a * b + 0 * 0 ≡ a * b = omega arith in rw (none_left, all_left) (ground arith)

negsuc-times : (n b : ℕ) → negsuc n *ℤ pos b ≡ sub_ℕ 0 (suc n * b)
unfolding ◌*ℤ◌
negsuc-times n b =
    let none_left : 0 * b + suc n * 0 ≡ 0 = omega arith in
    let all_left : 0 * 0 + suc n * b ≡ suc n * b = omega arith in rw (none_left, all_left)

-- The product of an `int64_t` and a `uint64_t`, taken in `uint64_t`, has the digits of the exact one.
pub pattern-mul_mixed :
    (a b : ℕ) → a < 2 ^ 32 → u64 (pattern_of 64 (int32 a) * b) ≡ pattern_of 64 (int32 a *ℤ pos b)
unfolding ◌*ℤ◌
pattern-mul_mixed a b ha = elim (Bool-cases (ltb a (2 ^ 31))) [
  | inl small ↦
      let here : int32 a ≡ pos a = ground arith in
      rw here (simp (mul-zero, zero-mul) (ground arith))
  | inr large ↦
      let here : int32 a ≡ negsuc (2 ^ 32 - 1 - a) = ground arith in
      let wide : pattern_of 64 (negsuc (2 ^ 32 - 1 - a)) ≡ 2 ^ 64 - 1 - (2 ^ 32 - 1 - a) =
        omega arith in
      rw (here, wide, negsuc-times)
        (minus_pattern ((2 ^ 64 - 1 - (2 ^ 32 - 1 - a)) * b) (suc (2 ^ 32 - 1 - a) * b) b
          (scaled (2 ^ 32 - 1 - a) b (omega arith)))
]

pub signed_less_lem :
    (a b : ℕ)
    → a < 2 ^ 32
    → b < 2 ^ 32
    → ltb_ℤ (int32 a) (int32 b) ≡ ltb ((a + 2 ^ 31) % 2 ^ 32) ((b + 2 ^ 31) % 2 ^ 32)
signed_less_lem a b ha hb = ground arith

pub masked : (b : ℕ) → bit_and b 0x1f ≡ b % 32
masked b = bit_and_mask 5 b

pow_split : (j k : ℕ) → 2 ^ j * 2 ^ k ≡ 2 ^ (j + k)
pow_split j zero = rw (add-zero, pow-zero, mul-one)
pow_split j (suc k) = simp unary_clauses (grind (arith, pow_split j k))

-- Rounding down a negative number: from the top, rounding up.
from_top :
    (a k d : ℕ)
    → a < 2 ^ 32
    → d * 2 ^ k ≡ 2 ^ 32
    → (a / 2 ^ k < d) × ((2 ^ 32 - 1 - a) / 2 ^ k ≡ d - 1 - a / 2 ^ k)
from_top a k d ha whole =
    let some_p : 0 < 2 ^ k = omega (arith, one-le-pow k 2 (omega arith)) in
    let q = a / 2 ^ k in
    let parts = div-add-mod' a (2 ^ k) in
    let rest = mod-lt a some_p in
    let fits : q < d = lt_of_mul-lt-mul_right (2 ^ k) (omega arith) in
    let both : (d - 1 - q) * 2 ^ k + (q + 1) * 2 ^ k ≡ 2 ^ 32 =
      sym (add-mul (d - 1 - q) (q + 1) (2 ^ k)) ∙ ap (λ (t : ℕ). t * 2 ^ k) (omega arith) ∙ whole in
    let one : (q + 1) * 2 ^ k ≡ q * 2 ^ k + 2 ^ k = grind arith in
    (fits, quotient (2 ^ 32 - 1 - a) (2 ^ k) (d - 1 - q) (omega arith) (omega arith))

pub sar_lem :
    (a k : ℕ) → a < 2 ^ 32 → k < 32 → pattern_of 32 (sar (int32 a) k) ≡ shift_right_signed a k
unfolding sar
sar_lem a k ha hk = elim (Bool-cases (ltb a (2 ^ 31))) [
  | inl small ↦
      let here : int32 a ≡ pos a = ground arith in
      let plus : leb (2 ^ 31) a ≡ false = ground arith in
      let stays : a / 2 ^ k ≤ a = div-le_self a (2 ^ k) in rw (here, plus) (omega arith)
  | inr large ↦
      let here : int32 a ≡ negsuc (2 ^ 32 - 1 - a) = ground arith in
      let minus : leb (2 ^ 31) a ≡ true = ground arith in
      let back : 32 - k + k ≡ 32 = omega arith in
      let whole : 2 ^ (32 - k) * 2 ^ k ≡ 2 ^ 32 =
        pow_split (32 - k) k ∙ ap (λ (t : ℕ). 2 ^ t) back in
      let (below, down) = from_top a k (2 ^ (32 - k)) ha whole in
      let most : 2 ^ (32 - k) ≤ 2 ^ 32 =
        pow-le-pow_right {n = 2} (omega arith) {i = 32 - k} {j = 32} (omega arith) in
      rw (here, minus) (omega arith)
]
