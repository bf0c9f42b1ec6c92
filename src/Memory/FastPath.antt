-- ===== src/Memory/FastPath.antt =====
-- The fast path of `load_mem` and `store_mem` does what the search in the memory map does.
use nemu_riscv.Base.{ℕ, ◌+◌, ◌-◌, ◌≤◌, ◌<◌, ◌≡◌, arith, ok}
use native.Mathlib.Nat.{sub-zero}
use nemu_riscv.Base.{fault}
use nemu_riscv.Ram.{load_host, store_host, read_masked_word}
use nemu_riscv.Ram.Access.{IsBytes, IsLen, read_handler_lem, read_masked_word_lem}
use nemu_riscv.Ram.Access.{write_handler_lem, write_masked_word_lem, IsLen-bounds}
use nemu_riscv.Address.{prot_addr}
use nemu_riscv.System.{System, ddr_size, bram_base, bram_size}
use nemu_riscv.System.{ddr_read, ddr_write, bram_read}
use nemu_riscv.Bus.{vaddr_read, vaddr_write}
use nemu_riscv.Bus.Access.{vaddr_read-ddr, vaddr_write-ddr, vaddr_read-bram}
use nemu_riscv.Memory.{load_mem, store_mem}

-- What the CPU's memory contains are bytes.
pub record IsMemory (s : System) : Type 0 where
  pub ddr_bytes : IsBytes s.ddr
  pub bram_bytes : IsBytes s.bram

module _ (s : System) (a len : ℕ) (width : IsLen len) where
  ddr_read_lem : IsBytes s.ddr → a + 4 ≤ ddr_size → ddr_read s a len ≡ ok (load_host s.ddr a len, s)
  unfolding ddr_read
  ddr_read_lem h fits =
      ground (arith, IsLen-bounds width, read_masked_word_lem ddr_size s.ddr a len h width fits)

  bram_read_lem :
      IsBytes s.bram → a + 4 ≤ bram_size → bram_read s a len ≡ ok (load_host s.bram a len, s)
  unfolding bram_read
  bram_read_lem h fits =
      ground (arith, IsLen-bounds width, read_masked_word_lem bram_size s.bram a len h width fits)

  ddr_write_lem :
      (word : ℕ)
      → a + len ≤ ddr_size
      → ddr_write s a len word ≡ ok (record s { ddr = store_host s.ddr a len word })
  unfolding ddr_write
  ddr_write_lem word fits =
      ground (arith, IsLen-bounds width, write_masked_word_lem ddr_size s.ddr a len word width fits)

-- The address is not in the last three bytes of the DDR or of the block RAM.
abbrev pub IsClear : ℕ → Type 0
IsClear pa =
    (pa < ddr_size → pa + 4 ≤ ddr_size)
    × (bram_base ≤ pa → pa < bram_base + bram_size → pa + 4 ≤ bram_base + bram_size)

-- Where memory holds bytes, for an access of one, two or four bytes from 0x1000 on that does not begin
-- in the last three bytes of one of the two arrays, `load_mem` returns what
-- `vaddr_read` returns: value, state and failures.
pub load_mem-eq-vaddr_read :
    (s : System) (a len : ℕ)
    → IsMemory s
    → IsLen len
    → 0x1000 ≤ a
    → IsClear (prot_addr a)
    → load_mem s a len ≡ vaddr_read s a len
unfolding load_mem
load_mem-eq-vaddr_read s a len mem width above clear = ground (
  arith,
  IsLen-bounds width,
  vaddr_read-ddr s a len,
  vaddr_read-bram s a len,
  ddr_read_lem s (prot_addr a) len width mem.ddr_bytes,
  bram_read_lem s (prot_addr a - bram_base) len width mem.bram_bytes,
  read_handler_lem ddr_size s.ddr (prot_addr a) len mem.ddr_bytes width,
  read_handler_lem bram_size s.bram (prot_addr a - bram_base) len mem.bram_bytes width,
  sub-zero (prot_addr a),
)

-- For one, two or four bytes from 0x1000 on, where the bytes lie in the DDR or the address lies outside it, `store_mem` does
-- what `vaddr_write` does.
pub store_mem-eq-vaddr_write :
    (s : System) (a len word : ℕ)
    → IsLen len
    → 0x1000 ≤ a
    → (prot_addr a < ddr_size → prot_addr a + len ≤ ddr_size)
    → store_mem s a len word ≡ vaddr_write s a len word
unfolding store_mem
store_mem-eq-vaddr_write s a len word width above fits = ground (
  arith,
  vaddr_write-ddr s a len word,
  ddr_write_lem s (prot_addr a) len width word,
  write_handler_lem ddr_size s.ddr (prot_addr a) len word width,
  sub-zero (prot_addr a),
)

-- In the last three bytes of the DDR (of memory that holds bytes, for an access of one, two or four
-- bytes from 0x1000 on) the two differ: `vaddr_read` loads four bytes, past the end of
-- the array, also where the access itself fits and `load_mem` returns its bytes.
pub vaddr_read-past_end :
    (s : System) (a len : ℕ)
    → IsMemory s
    → IsLen len
    → 0x1000 ≤ a
    → prot_addr a + len ≤ ddr_size
    → ddr_size < prot_addr a + 4
    → (vaddr_read s a len ≡ fault) × (load_mem s a len ≡ ok (load_host s.ddr (prot_addr a) len, s))
unfolding load_mem ddr_read read_masked_word
vaddr_read-past_end s a len mem width above fits past = ground (
  arith,
  IsLen-bounds width,
  vaddr_read-ddr s a len,
  read_handler_lem ddr_size s.ddr (prot_addr a) len mem.ddr_bytes width,
  sub-zero (prot_addr a),
)
