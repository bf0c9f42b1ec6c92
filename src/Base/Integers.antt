-- ===== src/Base/Integers.antt =====
-- Signed integers over the native numbers, for what C computes in `int32_t` and `int64_t`.
use Prim.Native.Nat.{ℕ, suc, ◌+◌, ◌-◌, ◌*◌, ◌/◌, ◌%◌, ◌^◌, ◌<◌}
use mathlib.Core.Path.{◌≡◌, refl}
use mathlib.Core.Bool.{Bool}
use nemu_riscv.Base.Tests.{ltb, leb, if◌then◌else◌}

-- `negsuc n` is -(n + 1).
pub data ℤ : Type 0 where
  pos : ℕ → ℤ
  negsuc : ℕ → ℤ

abbrev pub pos_part : ℤ → ℕ
pos_part (pos n) = n
pos_part (negsuc n) = 0

abbrev pub neg_part : ℤ → ℕ
neg_part (pos n) = 0
neg_part (negsuc n) = suc n

-- a - b, as an integer.
abbrev pub sub_ℕ : ℕ → ℕ → ℤ
sub_ℕ a b = if leb b a then pos (a - b) else negsuc (b - a - 1)

infixl 65 ◌+ℤ◌
infixl 70 ◌*ℤ◌
infix 50 ◌<ℤ◌
unfoldable pub ◌+ℤ◌ : ℤ → ℤ → ℤ
a +ℤ b = sub_ℕ (pos_part a + pos_part b) (neg_part a + neg_part b)

unfoldable pub ◌*ℤ◌ : ℤ → ℤ → ℤ
a *ℤ b =
    sub_ℕ (pos_part a * pos_part b + neg_part a * neg_part b)
      (pos_part a * neg_part b + neg_part a * pos_part b)

-- Each factor by its positive and its negative part.
pub *ℤ_lem :
    (a b : ℤ)
    → a *ℤ b
      ≡ sub_ℕ
          (pos_part a * pos_part b + neg_part a * neg_part b)
          (pos_part a * neg_part b + neg_part a * pos_part b)
unfolding ◌*ℤ◌
*ℤ_lem a b = refl

abbrev pub ◌<ℤ◌ : ℤ → ℤ → Type 0
a <ℤ b = pos_part a + neg_part b < pos_part b + neg_part a

abbrev pub ltb_ℤ : ℤ → ℤ → Bool
ltb_ℤ a b = ltb (pos_part a + neg_part b) (pos_part b + neg_part a)

-- Division and remainder of C: the quotient is rounded towards zero, and the remainder has the sign
-- of the dividend. The divisor is not zero where they are used.
unfoldable pub truncated_quot : ℤ → ℤ → ℤ
truncated_quot (pos a) (pos b) = pos (a / b)
truncated_quot (pos a) (negsuc b) = sub_ℕ 0 (a / suc b)
truncated_quot (negsuc a) (pos b) = sub_ℕ 0 (suc a / b)
truncated_quot (negsuc a) (negsuc b) = pos (suc a / suc b)

unfoldable pub truncated_rem : ℤ → ℤ → ℤ
truncated_rem (pos a) (pos b) = pos (a % b)
truncated_rem (pos a) (negsuc b) = pos (a % suc b)
truncated_rem (negsuc a) (pos b) = sub_ℕ 0 (suc a % b)
truncated_rem (negsuc a) (negsuc b) = sub_ℕ 0 (suc a % suc b)

-- The arithmetic shift to the right, which rounds down: `x >> k` on a signed type.
unfoldable pub sar : ℤ → ℕ → ℤ
sar (pos n) k = pos (n / 2 ^ k)
sar (negsuc n) k = negsuc (n / 2 ^ k)
