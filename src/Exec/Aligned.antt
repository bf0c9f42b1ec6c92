-- ===== src/Exec/Aligned.antt =====
-- The alignment test of src/cpu/exec-handlers.h as a remainder.
use nemu_riscv.Base.{ℕ, ◌%◌, ◌^◌, ◌≡◌, ◌==◌, refl, bit_and_mask}
use nemu_riscv.Ram.Access.{IsLen, one, two, four}
use nemu_riscv.Decode.{LoadOp, lb, lh, lw, lbu, lhu, StoreOp, sb, sh, sw}
use nemu_riscv.Exec.{is_aligned, load_len, store_len}

aligned_lem : (k a : ℕ) → is_aligned (2 ^ k) a ≡ (a % 2 ^ k == 0)
aligned_lem k a = rw (bit_and_mask k a) refl

pub load_aligned : (o : LoadOp) (a : ℕ) → is_aligned (load_len o) a ≡ (a % load_len o == 0)
load_aligned lb a = aligned_lem 0 a
load_aligned lbu a = aligned_lem 0 a
load_aligned lh a = aligned_lem 1 a
load_aligned lhu a = aligned_lem 1 a
load_aligned lw a = aligned_lem 2 a

pub store_aligned : (o : StoreOp) (a : ℕ) → is_aligned (store_len o) a ≡ (a % store_len o == 0)
store_aligned sb a = aligned_lem 0 a
store_aligned sh a = aligned_lem 1 a
store_aligned sw a = aligned_lem 2 a

pub load_len-IsLen : (o : LoadOp) → IsLen (load_len o)
load_len-IsLen lb = one
load_len-IsLen lbu = one
load_len-IsLen lh = two
load_len-IsLen lhu = two
load_len-IsLen lw = four

pub store_len-IsLen : (o : StoreOp) → IsLen (store_len o)
store_len-IsLen sb = one
store_len-IsLen sh = two
store_len-IsLen sw = four
