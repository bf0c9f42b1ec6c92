-- ===== src/Base/Bits.antt =====
-- `&`, `|` and `^` at variables: a low mask is a remainder, disjoint fields add up, and the results
-- stay within the width. Each law goes by induction on the width, one binary digit at a time.
use Prim.Native.Nat.{ℕ, zero, suc, ◌+◌, ◌-◌, ◌*◌, ◌/◌, ◌%◌, ◌^◌, ◌≤◌, ◌<◌, min, max, differ}
use Prim.Native.Nat.{bit_and, bit_or, bit_xor, digits, bitwise}
use Prim.Native.Nat.{bit_and-bitwise, bit_or-bitwise, bit_xor-bitwise}
use mathlib.Core.Path.{◌≡◌, refl, ap}
use native.Mathlib.Nat.{pow-suc, one-le-pow, le_refl}
use native.Mathlib.Omega.{arith}

module _ (last : ℕ → ℕ) (op : ℕ → ℕ → ℕ) where
  -- Any two counts of digits that cover `a` serve alike.
  digits_enough : (m n a b : ℕ) → a ≤ m → a ≤ n → digits last op m a b ≡ digits last op n a b
  digits_enough zero zero a b p q = refl
  digits_enough zero (suc n) zero b p q = refl
  digits_enough zero (suc n) (suc a) b p q = absurd (omega arith)
  digits_enough (suc m) zero zero b p q = refl
  digits_enough (suc m) zero (suc a) b p q = absurd (omega arith)
  digits_enough (suc m) (suc n) zero b p q = refl
  digits_enough (suc m) (suc n) (suc a) b p q =
      omega (arith, digits_enough m n (suc a / 2) (b / 2) (omega arith) (omega arith))

  low_digit :
      (a b : ℕ)
      → bitwise last op (suc a) b ≡ bitwise last op (suc a / 2) (b / 2) * 2 + op (suc a % 2) (b % 2)
  low_digit a b =
      omega (arith, digits_enough a (suc a / 2) (suc a / 2) (b / 2) (omega arith) (le_refl _))

pub and_digit : (a b : ℕ) → bit_and a b ≡ bit_and (a / 2) (b / 2) * 2 + min (a % 2) (b % 2)
and_digit zero b = simp bit_and-bitwise (omega arith)
and_digit (suc a) b = simp bit_and-bitwise (low_digit (λ y. 0) min a b)

or_digit : (a b : ℕ) → bit_or a b ≡ bit_or (a / 2) (b / 2) * 2 + max (a % 2) (b % 2)
or_digit zero b = simp bit_or-bitwise (omega arith)
or_digit (suc a) b = simp bit_or-bitwise (low_digit (λ y. y) max a b)

xor_digit : (a b : ℕ) → bit_xor a b ≡ bit_xor (a / 2) (b / 2) * 2 + differ (a % 2) (b % 2)
xor_digit zero b = simp bit_xor-bitwise (omega arith)
xor_digit (suc a) b = simp bit_xor-bitwise (low_digit (λ y. y) differ a b)

differ_bit : (a b : ℕ) → a < 2 → b < 2 → differ a b < 2
differ_bit zero b p q = q
differ_bit (suc zero) zero p q = p
differ_bit (suc zero) (suc b) p q = omega arith
differ_bit (suc (suc a)) b p q = absurd (omega arith)

-- The results fit the width of the operands.
pub bit_and-lt : (k a b : ℕ) → a < 2 ^ k → bit_and a b < 2 ^ k
bit_and-lt zero zero b p = simp bit_and-bitwise (omega arith)
bit_and-lt zero (suc a) b p = absurd (omega arith)
bit_and-lt (suc k) a b p =
    let e : 2 ^ suc k ≡ 2 ^ k * 2 = pow-suc 2 k in
    omega (arith, e, and_digit a b, bit_and-lt k (a / 2) (b / 2) (omega (arith, e)))

pub bit_or-lt : (k a b : ℕ) → a < 2 ^ k → b < 2 ^ k → bit_or a b < 2 ^ k
bit_or-lt zero zero b p q = simp bit_or-bitwise q
bit_or-lt zero (suc a) b p q = absurd (omega arith)
bit_or-lt (suc k) a b p q =
    let e : 2 ^ suc k ≡ 2 ^ k * 2 = pow-suc 2 k in
    omega
      (arith, e, or_digit a b, bit_or-lt k (a / 2) (b / 2) (omega (arith, e)) (omega (arith, e)))

pub bit_xor-lt : (k a b : ℕ) → a < 2 ^ k → b < 2 ^ k → bit_xor a b < 2 ^ k
bit_xor-lt zero zero b p q = simp bit_xor-bitwise q
bit_xor-lt zero (suc a) b p q = absurd (omega arith)
bit_xor-lt (suc k) a b p q =
    let e : 2 ^ suc k ≡ 2 ^ k * 2 = pow-suc 2 k in
    omega (
      arith,
      e,
      xor_digit a b,
      differ_bit (a % 2) (b % 2) (omega arith) (omega arith),
      bit_xor-lt k (a / 2) (b / 2) (omega (arith, e)) (omega (arith, e)),
    )

bit_and-zero : (k a : ℕ) → a < 2 ^ k → bit_and a 0 ≡ 0
bit_and-zero zero zero p = refl
bit_and-zero zero (suc a) p = absurd (omega arith)
bit_and-zero (suc k) a p =
    omega (arith, and_digit a 0, bit_and-zero k (a / 2) (omega (arith, pow-suc 2 k)))

lt-two_pow : (a : ℕ) → a < 2 ^ a
lt-two_pow zero = omega arith
lt-two_pow (suc a) = omega (arith, lt-two_pow a, pow-suc 2 a)

mask_of_fields : (k q r : ℕ) → r < 2 ^ k → bit_and (q * 2 ^ k + r) (2 ^ k - 1) ≡ r
mask_of_fields zero q r h =
    let none_left : q * 2 ^ 0 + r < 2 ^ (q + r) = omega (arith, lt-two_pow (q + r)) in
    omega (arith, bit_and-zero (q + r) (q * 2 ^ 0 + r) none_left)
mask_of_fields (suc k) q r h =
    let e : 2 ^ suc k ≡ 2 ^ k * 2 = pow-suc 2 k in
    let double : q * 2 ^ suc k ≡ 2 * (q * 2 ^ k) = omega (arith, ap (λ (t : ℕ). q * t) e) in
    ground (
      arith,
      e,
      double,
      and_digit (q * 2 ^ suc k + r) (2 ^ suc k - 1),
      mask_of_fields k q (r / 2) (omega (arith, e)),
    )

-- A mask of `k` low ones takes the remainder by `2 ^ k`.
pub bit_and_mask : (k a : ℕ) → bit_and a (2 ^ k - 1) ≡ a % 2 ^ k
bit_and_mask k a =
    ground (arith, one-le-pow k 2 (omega arith), mask_of_fields k (a / 2 ^ k) (a % 2 ^ k))

bit_or-zero : (k a : ℕ) → a < 2 ^ k → bit_or a 0 ≡ a
bit_or-zero zero zero p = refl
bit_or-zero zero (suc a) p = absurd (omega arith)
bit_or-zero (suc k) a p =
    omega (arith, or_digit a 0, bit_or-zero k (a / 2) (omega (arith, pow-suc 2 k)))

-- A field above `k` bits and a field within them: `|` is their sum.
pub bit_or_fields : (k q r : ℕ) → r < 2 ^ k → bit_or (q * 2 ^ k) r ≡ q * 2 ^ k + r
bit_or_fields zero q r h = ground (arith, bit_or-zero q q (lt-two_pow q))
bit_or_fields (suc k) q r h =
    let e : 2 ^ suc k ≡ 2 ^ k * 2 = pow-suc 2 k in
    let double : q * 2 ^ suc k ≡ 2 * (q * 2 ^ k) = omega (arith, ap (λ (t : ℕ). q * t) e) in
    ground
      (arith, double, e, or_digit (q * 2 ^ suc k) r, bit_or_fields k q (r / 2) (omega (arith, e)))

-- The same for a left operand whose low `k` bits are known to be zero.
pub bit_or-add : (k a r : ℕ) → a % 2 ^ k ≡ 0 → r < 2 ^ k → bit_or a r ≡ a + r
bit_or-add k a r e h =
    let whole : a / 2 ^ k * 2 ^ k ≡ a = omega arith in rw whole at (bit_or_fields k (a / 2 ^ k) r h)

bit_or_comm_below : (k a b : ℕ) → a < 2 ^ k → b < 2 ^ k → bit_or a b ≡ bit_or b a
bit_or_comm_below zero a b p q =
    let a_zero : a ≡ 0 = omega arith in let b_zero : b ≡ 0 = omega arith in rw (a_zero, b_zero)
bit_or_comm_below (suc k) a b p q =
    let e : 2 ^ suc k ≡ 2 ^ k * 2 = pow-suc 2 k in
    omega (
      arith,
      or_digit a b,
      or_digit b a,
      bit_or_comm_below k (a / 2) (b / 2) (omega (arith, e)) (omega (arith, e)),
    )

pub bit_or_comm : (a b : ℕ) → bit_or a b ≡ bit_or b a
bit_or_comm a b =
    bit_or_comm_below (a + b) a b (omega (arith, lt-two_pow (a + b)))
      (omega (arith, lt-two_pow (a + b)))

-- The field within `k` bits on the left.
pub bit_or-add_low : (k r a : ℕ) → r < 2 ^ k → a % 2 ^ k ≡ 0 → bit_or r a ≡ r + a
bit_or-add_low k r a h e = omega (arith, bit_or_comm r a, bit_or-add k a r e h)

pub bit_and-even : (a b : ℕ) → b % 2 ≡ 0 → bit_and a b % 2 ≡ 0
bit_and-even a b h = omega (arith, and_digit a b)
