-- ===== src/Isa/Division.antt =====
-- The signed quotient and remainder of src/cpu/exec-handlers.h are the manual's, where the handlers
-- define them.
use nemu_riscv.Base.{ℕ, suc, ◌-◌, ◌/◌, ◌%◌, ◌^◌, ◌≤◌, ◌<◌, ◌≡◌, arith, inl, inr, ltb}
use nemu_riscv.Base.{Bool-cases}
use nemu_riscv.Base.{truncated_quot, truncated_rem}
use nemu_riscv.Alu.Divide.{quot_word, rem_word, int32-pos, int32-negsuc, pattern-negate}
use nemu_riscv.Isa.{signed_quot, signed_rem}
use native.Mathlib.Nat.{div-le_self, mod-lt}

module _ (a b : ℕ) (ha : a < 2 ^ 32) (hb : b < 2 ^ 32) (some_b : 0 < b) where
  pub quot_word_lem : quot_word a b ≡ signed_quot a b
  unfolding truncated_quot
  quot_word_lem = elim (Bool-cases (ltb a (2 ^ 31))) [
    | inl small_a ↦ elim (Bool-cases (ltb b (2 ^ 31))) [
      | inl small_b ↦
          let q : a / b % 2 ^ 32 ≡ a / b = omega (arith, div-le_self a b) in
          rw (int32-pos a (ground arith), int32-pos b (ground arith)) (ground arith)
      | inr large_b ↦
          let n : suc (2 ^ 32 - 1 - b) ≡ 2 ^ 32 - b = omega arith in
          let q = pattern-negate (a / (2 ^ 32 - b)) (omega (arith, div-le_self a (2 ^ 32 - b))) in
          rw (int32-pos a (ground arith), int32-negsuc b (ground arith), n, q) (ground arith)
    ]
    | inr large_a ↦
        let low : 2 ^ 31 ≤ a = ground arith in
        let m : suc (2 ^ 32 - 1 - a) ≡ 2 ^ 32 - a = omega arith in
        elim (Bool-cases (ltb b (2 ^ 31))) [
          | inl small_b ↦
              let q =
                pattern-negate ((2 ^ 32 - a) / b) (omega (arith, div-le_self (2 ^ 32 - a) b)) in
              rw (int32-negsuc a (ground arith), int32-pos b (ground arith), m, q) (ground arith)
          | inr large_b ↦
              let n : suc (2 ^ 32 - 1 - b) ≡ 2 ^ 32 - b = omega arith in
              let q : (2 ^ 32 - a) / (2 ^ 32 - b) % 2 ^ 32 ≡ (2 ^ 32 - a) / (2 ^ 32 - b) =
                omega (arith, div-le_self (2 ^ 32 - a) (2 ^ 32 - b)) in
              rw (int32-negsuc a (ground arith), int32-negsuc b (ground arith), m, n, q)
                (ground arith)
        ]
  ]

  pub rem_word_lem : rem_word a b ≡ signed_rem a b
  unfolding truncated_rem
  rem_word_lem = elim (Bool-cases (ltb a (2 ^ 31))) [
    | inl small_a ↦ elim (Bool-cases (ltb b (2 ^ 31))) [
      | inl small_b ↦
          let r = mod-lt a some_b in
          rw (int32-pos a (ground arith), int32-pos b (ground arith)) (ground arith)
      | inr large_b ↦
          let n : suc (2 ^ 32 - 1 - b) ≡ 2 ^ 32 - b = omega arith in
          let some_n : 0 < 2 ^ 32 - b = omega arith in
          let r = mod-lt a some_n in
          rw (int32-pos a (ground arith), int32-negsuc b (ground arith), n) (ground arith)
    ]
    | inr large_a ↦
        let m : suc (2 ^ 32 - 1 - a) ≡ 2 ^ 32 - a = omega arith in
        elim (Bool-cases (ltb b (2 ^ 31))) [
          | inl small_b ↦
              let r =
                pattern-negate ((2 ^ 32 - a) % b) (omega (arith, mod-lt (2 ^ 32 - a) some_b)) in
              rw (int32-negsuc a (ground arith), int32-pos b (ground arith), m, r) (ground arith)
          | inr large_b ↦
              let n : suc (2 ^ 32 - 1 - b) ≡ 2 ^ 32 - b = omega arith in
              let some_n : 0 < 2 ^ 32 - b = omega arith in
              let r =
                pattern-negate ((2 ^ 32 - a) % (2 ^ 32 - b))
                  (omega (arith, mod-lt (2 ^ 32 - a) some_n)) in
              rw (int32-negsuc a (ground arith), int32-negsuc b (ground arith), m, n, r)
                (ground arith)
        ]
  ]
