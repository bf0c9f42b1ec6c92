-- ===== src/Types/Bytes.antt =====
-- The accesses to byte arrays read 32-bit words and write bytes (src/cpu/cpu-exec.c,
-- include/device.h).
use nemu_riscv.Base.{ℕ, ◌+◌, ◌&&◌, arith, zero, suc, Ensures}
use nemu_riscv.Base.{Ensures-ok, Ensures-abort, Ensures->>}
use nemu_riscv.Base.{bit_and-lt, bit_or-lt, bit_and_mask, update, bit_and, leb, defined}
use nemu_riscv.Ram.{read_handler, write_handler, load_host, read_masked_word}
use nemu_riscv.Ram.{write_masked_word}
use nemu_riscv.Ram.Access.{IsBytes, load_host-lt, store_host-IsBytes}
use nemu_riscv.Types.Devices.{IsWord}

pub read_masked_word-lt :
    (size : ℕ) (buf : ℕ → ℕ) (addr len : ℕ)
    → IsBytes buf
    → Ensures IsWord (read_masked_word size buf addr len)
unfolding read_masked_word
read_masked_word-lt size buf addr len h = Ensures->> IsWord (defined (leb 1 len && leb len 4)) (
    Ensures->> IsWord (defined (leb (addr + 4) size))
      (Ensures-ok IsWord (bit_and-lt 32 (load_host buf addr 4) _ (load_host-lt buf addr 4 h))))

pub write_masked_word-IsBytes :
    (size : ℕ) (buf : ℕ → ℕ) (addr len word : ℕ)
    → IsBytes buf
    → Ensures IsBytes (write_masked_word size buf addr len word)
unfolding write_masked_word
write_masked_word-IsBytes size buf addr len word h =
    Ensures->> IsBytes (defined (leb len 4 && leb (addr + len) size))
      (Ensures-ok IsBytes (store_host-IsBytes buf addr len word h))

pub read_handler-lt :
    (size : ℕ) (p : ℕ → ℕ) (a len : ℕ) → IsBytes p → Ensures IsWord (read_handler size p a len)
unfolding read_handler
read_handler-lt size p a zero h = Ensures-abort IsWord
read_handler-lt size p a (suc zero) h =
    Ensures->> IsWord (defined (leb (a + 1) size)) (Ensures-ok IsWord (omega (arith, h a)))
read_handler-lt size p a (suc (suc zero)) h =
    Ensures->> IsWord (defined (leb (a + 2) size))
      (Ensures-ok IsWord (bit_or-lt 32 _ _ (omega (arith, h (a + 1))) (omega (arith, h a))))
read_handler-lt size p a (suc (suc (suc zero))) h = Ensures->> IsWord (defined (leb (a + 3) size)) (
    Ensures-ok IsWord (
      bit_or-lt 32 _ _ (bit_or-lt 32 _ _ (omega (arith, h (a + 2))) (omega (arith, h (a + 1))))
        (omega (arith, h a))))
read_handler-lt size p a (suc (suc (suc (suc zero)))) h =
    Ensures->> IsWord (defined (leb (a + 4) size)) (
      Ensures-ok IsWord (
        bit_or-lt 32 _ _
          (bit_or-lt 32 _ _ (bit_or-lt 32 _ _ (omega (arith, h (a + 3))) (omega (arith, h (a + 2))))
            (omega (arith, h (a + 1))))
          (omega (arith, h a))))
read_handler-lt size p a (suc (suc (suc (suc (suc n))))) h = Ensures-abort IsWord

update_low-IsBytes : (p : ℕ → ℕ) (a w : ℕ) → IsBytes p → IsBytes (update p a (bit_and w 0xff))
update_low-IsBytes p a w h i = ground (arith, h i, bit_and_mask 8 w)

pub write_handler-IsBytes :
    (size : ℕ) (p : ℕ → ℕ) (a len word : ℕ)
    → IsBytes p
    → Ensures IsBytes (write_handler size p a len word)
unfolding write_handler
write_handler-IsBytes size p a zero word h = Ensures-abort IsBytes
write_handler-IsBytes size p a (suc zero) word h =
    Ensures->> IsBytes (defined (leb (a + 1) size)) (Ensures-ok IsBytes λ i. ground (arith, h i))
write_handler-IsBytes size p a (suc (suc zero)) word h =
    Ensures->> IsBytes (defined (leb (a + 2) size))
      (Ensures-ok IsBytes (update_low-IsBytes _ _ _ (update_low-IsBytes p a word h)))
write_handler-IsBytes size p a (suc (suc (suc zero))) word h =
    Ensures->> IsBytes (defined (leb (a + 3) size)) (
      Ensures-ok IsBytes
        (update_low-IsBytes _ _ _ (update_low-IsBytes _ _ _ (update_low-IsBytes p a word h))))
write_handler-IsBytes size p a (suc (suc (suc (suc zero)))) word h =
    Ensures->> IsBytes (defined (leb (a + 4) size)) (
      Ensures-ok IsBytes (
        update_low-IsBytes _ _ _
          (update_low-IsBytes _ _ _ (update_low-IsBytes _ _ _ (update_low-IsBytes p a word h)))))
write_handler-IsBytes size p a (suc (suc (suc (suc (suc n))))) word h = Ensures-abort IsBytes
