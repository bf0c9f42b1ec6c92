-- ===== src/Alu/Multiply.antt =====
-- Multiplication and unsigned division of src/cpu/exec-handlers.h.
use nemu_riscv.Base.{
  ℕ, zero, suc, ◌+◌, ◌-◌, ◌*◌, ◌/◌, ◌%◌, ◌^◌, ◌≤◌, ◌<◌, ◌≡◌, ◌⊎◌, inl, inr, refl, sym, ap, ◌∙◌,
  arith,
}
use nemu_riscv.Base.{
  sub_ℕ, ◌*ℤ◌, int32, pattern_of, u32, u64, ok, fault, pos_part, neg_part, *ℤ_lem, ltb, Bool-cases,
}
use nemu_riscv.Decode.{mul, mulhu, divu, remu}
use nemu_riscv.Alu.{alu_value}
use native.Mathlib.Nat.{mul_comm, mul-add, mul-zero, zero-mul, div-add-mod', mod-lt, mul-le-mul}

sub_pattern : (x y : ℕ) → (x + (2 ^ 32 - y % 2 ^ 32)) % 2 ^ 32 ≡ pattern_of 32 (sub_ℕ x y)
sub_pattern x y = ground arith

-- The parts of a word read in two's complement: the word, or what it lacks of 2 ^ 32.
abbrev Parts : ℕ → ℕ → ℕ → Type 0
Parts a p n = ((p ≡ a) × (n ≡ 0)) ⊎ ((p ≡ 0) × (n + a ≡ 2 ^ 32))

int32-Parts : (a : ℕ) → a < 2 ^ 32 → Parts a (pos_part (int32 a)) (neg_part (int32 a))
int32-Parts a h = elim (Bool-cases (ltb a (2 ^ 31))) [
  | inl small ↦ inl (ground arith)
  | inr large ↦ inr (ground arith)
]

split_product : (a b n : ℕ) → n + b ≡ 2 ^ 32 → a * n + a * b ≡ 2 ^ 32 * a
split_product a b n h = sym (mul-add a n b) ∙ ap (λ t. a * t) h ∙ mul_comm a (2 ^ 32)

Parts-product :
    (a b p n q m : ℕ)
    → Parts a p n
    → Parts b q m
    → (p * q + n * m + (2 ^ 32 - (p * m + n * q) % 2 ^ 32)) % 2 ^ 32 ≡ a * b % 2 ^ 32
Parts-product a b p n q m (inl (pa, na)) (inl (qb, mb)) =
    rw (pa, na, qb, mb, mul-zero, zero-mul) (omega arith)
Parts-product a b p n q m (inl (pa, na)) (inr (qb, mb)) =
    rw (pa, na, qb, mul-zero, zero-mul, zero-mul) (omega (arith, split_product a b m mb))
Parts-product a b p n q m (inr (pa, na)) (inl (qb, mb)) =
    rw (pa, qb, mb, mul-zero, zero-mul, zero-mul)
      (omega (arith, split_product b a n na, mul_comm n b, mul_comm a b))
Parts-product a b p n q m (inr (pa, na)) (inr (qb, mb)) =
    rw (pa, qb, mul-zero, zero-mul, mul-zero)
      (omega (arith, split_product n b m mb, split_product b a n na, mul_comm n b, mul_comm a b))

-- The signed product of two words, cut to 32 bits, is the unsigned one, cut to 32 bits.
pattern-mul : (a b : ℕ) → a < 2 ^ 32 → b < 2 ^ 32 → pattern_of 32 (int32 a *ℤ int32 b) ≡ u32 (a * b)
pattern-mul a b ha hb =
    ap (pattern_of 32) (*ℤ_lem (int32 a) (int32 b))
    ∙ sym (
        sub_pattern
          (pos_part (int32 a) * pos_part (int32 b) + neg_part (int32 a) * neg_part (int32 b))
          (pos_part (int32 a) * neg_part (int32 b) + neg_part (int32 a) * pos_part (int32 b)))
    ∙ Parts-product a b (pos_part (int32 a)) (neg_part (int32 a)) (pos_part (int32 b))
        (neg_part (int32 b)) (int32-Parts a ha) (int32-Parts b hb)

word_product-lt : (a b : ℕ) → a < 2 ^ 32 → b < 2 ^ 32 → a * b < 2 ^ 64
word_product-lt a b ha hb =
    let most : a * b ≤ (2 ^ 32 - 1) * (2 ^ 32 - 1) =
      mul-le-mul {n₂ = 2 ^ 32 - 1} {m₂ = 2 ^ 32 - 1} (omega arith) (omega arith) in
    omega arith

-- `mul` and `mulhu` together give the product of two words: its lower and its upper half.
pub mul-mulhu :
    (a b : ℕ)
    → a < 2 ^ 32
    → b < 2 ^ 32
    → (low : ℕ) × (high : ℕ) × (alu_value mul a b ≡ ok low)
      × (alu_value mulhu a b ≡ ok high)
      × (high * 2 ^ 32 + low ≡ a * b)
unfolding alu_value
mul-mulhu a b ha hb =
    let high : u32 (u64 (a * b) / 2 ^ 32) ≡ u32 (a * b / 2 ^ 32) =
      omega (arith, word_product-lt a b ha hb) in
    (
      u32 (a * b),
      u32 (a * b / 2 ^ 32),
      ap ok (pattern-mul a b ha hb),
      ap ok high,
      omega (arith, word_product-lt a b ha hb),
    )

-- `divu` and `remu` by a divisor that is not 0 give the quotient and the remainder; by 0 both are
-- undefined.
divu-remu :
    (a b : ℕ)
    → ((b ≡ 0) × (alu_value divu a b ≡ fault) × (alu_value remu a b ≡ fault))
      ⊎ ((q : ℕ) × (r : ℕ) × (alu_value divu a b ≡ ok q)
          × (alu_value remu a b ≡ ok r)
          × (q * b + r ≡ a)
          × (r < b))
unfolding alu_value
divu-remu a zero = inl (refl, refl, refl)
divu-remu a (suc b) = inr (
  a / suc b,
  a % suc b,
  ground arith,
  ground arith,
  div-add-mod' a (suc b),
  mod-lt a (omega arith),
)
