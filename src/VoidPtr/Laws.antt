-- ===== src/VoidPtr/Laws.antt =====
-- What the operators of `VoidPtr` (include/nemu.h) do to an address.
use nemu_riscv.Base.{ℕ, ◌%◌, ◌^◌, ◌<◌, ◌≡◌, arith, ok}
use nemu_riscv.VoidPtr.{plus, minus, plus_assign, minus_assign, negative, increment, decrement}
use nemu_riscv.VoidPtr.{post_increment, post_decrement}

-- Going forward by less than 2 ^ 31 bytes and back again by as many, in either form, leaves every
-- pointer as it was, also where the sum wraps round.
minus-plus : (ptr n : ℕ) → ptr < 2 ^ 64 → n < 2 ^ 31 → minus (plus ptr n) n ≡ ok ptr
unfolding minus plus negative
minus-plus ptr n hp hn = ground arith

minus_assign-plus_assign :
    (ptr n : ℕ) → ptr < 2 ^ 64 → n < 2 ^ 31 → minus_assign (plus_assign ptr n) n ≡ ok ptr
unfolding minus_assign plus_assign
minus_assign-plus_assign ptr n hp hn =
    let cut : n % 2 ^ 32 ≡ n = omega arith in rw (minus_assign, cut) (minus-plus ptr n hp hn)

-- `p++` and `p--` do not move the pointer.
post_increment_stays :
    (ptr : ℕ) → ptr < 2 ^ 64 → (post_increment ptr ≡ ptr) × (post_decrement ptr ≡ ok ptr)
unfolding increment decrement minus plus negative
post_increment_stays ptr h = (ground arith, ground arith)
