-- ===== src/Ram.antt =====
-- Byte arrays as the emulator reads and writes them: `read_handler` and `write_handler` of
-- src/cpu/cpu-exec.c, `read_masked_word` and `write_masked_word` of include/device.h. An array
-- `uint8_t buf[size]` is a function of the index with its size beside it; each access checks the
-- bytes it touches, and one outside is undefined behaviour (`fault`).
pub mod Access
use nemu_riscv.Base.{ℕ, zero, suc, ◌+◌, ◌-◌, ◌*◌, ◌/◌, ◌^◌, bit_and, bit_or}
use nemu_riscv.Base.{leb, ◌&&◌, update, u8, u32, ◌<<◌, shr}
use nemu_riscv.Base.{Outcome, ok, abort, ◌>>=◌, ◌>>◌, defined}

-- `read_handler(&buf[a], len)`; the last clauses are the `default` of its `switch`.
unfoldable pub read_handler : ℕ → (ℕ → ℕ) → ℕ → ℕ → Outcome ℕ
read_handler size p a (suc zero) = do defined (leb (a + 1) size); ok (p a)
read_handler size p a (suc (suc zero)) = do
  defined (leb (a + 2) size)
  ok (bit_or (p (a + 1) << 8) (p a))
read_handler size p a (suc (suc (suc zero))) = do
  defined (leb (a + 3) size)
  ok (bit_or (bit_or (p (a + 2) << 16) (p (a + 1) << 8)) (p a))
read_handler size p a (suc (suc (suc (suc zero)))) = do
  defined (leb (a + 4) size)
  ok (bit_or (bit_or (bit_or (p (a + 3) << 24) (p (a + 2) << 16)) (p (a + 1) << 8)) (p a))
read_handler size p a _ = abort

-- `write_handler(&buf[a], len, data)`
unfoldable pub write_handler : ℕ → (ℕ → ℕ) → ℕ → ℕ → ℕ → Outcome (ℕ → ℕ)
write_handler size p a (suc zero) word = do defined (leb (a + 1) size); ok (update p a (u8 word))
write_handler size p a (suc (suc zero)) word = do
  defined (leb (a + 2) size)
  let p0 = update p a (bit_and word 0xff)
  ok (update p0 (a + 1) (bit_and (shr word 8) 0xff))
write_handler size p a (suc (suc (suc zero))) word = do
  defined (leb (a + 3) size)
  let p0 = update p a (bit_and word 0xff)
  let p1 = update p0 (a + 1) (bit_and (shr word 8) 0xff)
  ok (update p1 (a + 2) (bit_and (shr word 16) 0xff))
write_handler size p a (suc (suc (suc (suc zero)))) word = do
  defined (leb (a + 4) size)
  let p0 = update p a (bit_and word 0xff)
  let p1 = update p0 (a + 1) (bit_and (shr word 8) 0xff)
  let p2 = update p1 (a + 2) (bit_and (shr word 16) 0xff)
  ok (update p2 (a + 3) (bit_and (shr word 24) 0xff))
write_handler size p a _ word = abort

-- What the (little-endian) host loads from the `n` bytes at `a`.
unfoldable pub load_host : (ℕ → ℕ) → ℕ → ℕ → ℕ
load_host p a zero = 0
load_host p a (suc n) = p a + 256 * load_host p (a + 1) n

-- `memcpy(&buf[a], &data, n)` from a word of the little-endian host.
unfoldable pub store_host : (ℕ → ℕ) → ℕ → ℕ → ℕ → ℕ → ℕ
store_host p a zero word = p
store_host p a (suc n) word = store_host (update p a (u8 word)) (a + 1) n (word / 256)

-- Always loads four bytes at `addr`, and masks off those above `len`. A shift by 32 bits or by a
-- negative number is undefined. So is in C the load through a `uint32_t *` where `addr` is no
-- multiple of 4; it is taken here as an x86 host does it, the word of the four bytes.
unfoldable pub read_masked_word : ℕ → (ℕ → ℕ) → ℕ → ℕ → Outcome ℕ
unfolding load_host
read_masked_word size buf addr len = do
  defined (leb 1 len && leb len 4)
  let mask = shr (2 ^ 32 - 1) ((4 - len) * 8)
  defined (leb (addr + 4) size)
  ok (bit_and (load_host buf addr 4) mask)

-- `memcpy` of more than the four bytes of `data` is undefined.
unfoldable pub write_masked_word : ℕ → (ℕ → ℕ) → ℕ → ℕ → ℕ → Outcome (ℕ → ℕ)
unfolding store_host
write_masked_word size buf addr len word = do
  defined (leb len 4 && leb (addr + len) size)
  ok (store_host buf addr len word)
