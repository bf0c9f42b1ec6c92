-- ===== src/VoidPtr.antt =====
-- The class `VoidPtr` of include/nemu.h: arithmetic on `void *`, which the ELF loader uses. (The
-- Makefile compiles the C files as C++.) A pointer is an address of the host, a number of 64 bits;
-- that it stays inside its array is tested where it is used (Elf). An `int` that is passed on as a
-- `size_t` is extended by its sign.
pub mod Laws
use nemu_riscv.Base.{ℕ, ◌+◌, ◌-◌, ◌%◌, ◌^◌, ◌==◌, Bool, ltb, if◌then◌else◌, u64}
use nemu_riscv.Base.{int32, pattern_of, Outcome, ok, ◌>>=◌, ◌>>◌, defined, not_eq}

-- An `int` given by its 32-bit pattern, as a `size_t`.
abbrev pub size_t : ℕ → ℕ
size_t n = pattern_of 64 (int32 n)

-- `-dec` of an `int`; that of the least one does not fit.
unfoldable pub negative : ℕ → Outcome ℕ
negative dec = do defined (not_eq dec (2 ^ 31)); ok ((2 ^ 32 - dec) % 2 ^ 32)

-- `operator+`
unfoldable pub plus : ℕ → ℕ → ℕ
plus ptr inc = u64 (ptr + inc)

-- `operator-`
unfoldable pub minus : ℕ → ℕ → Outcome ℕ
unfolding plus negative
minus ptr dec = do neg ← negative dec; ok (plus ptr (size_t neg))

-- `operator+=` and `operator-=`, the second with its `size_t` cut to an `int`.
unfoldable pub plus_assign : ℕ → ℕ → ℕ
unfolding plus
plus_assign ptr inc = plus ptr inc

unfoldable pub minus_assign : ℕ → ℕ → Outcome ℕ
unfolding minus
minus_assign ptr dec = minus ptr (dec % 2 ^ 32)

-- `operator++` and `operator--` with an `int`: in C++ these are the postfix forms, which the
-- compiler calls with 0.
unfoldable pub increment : ℕ → ℕ → ℕ
unfolding plus
increment ptr inc = plus ptr (size_t inc)

unfoldable pub decrement : ℕ → ℕ → Outcome ℕ
unfolding minus
decrement ptr dec = minus ptr dec

abbrev pub post_increment : ℕ → ℕ
post_increment ptr = increment ptr 0

abbrev pub post_decrement : ℕ → Outcome ℕ
post_decrement ptr = decrement ptr 0

-- `operator!`
abbrev pub is_null : ℕ → Bool
is_null ptr = ptr == 0
