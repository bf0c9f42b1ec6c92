-- ===== src/Memory.antt =====
-- The CPU's loads and stores (`load_mem` and `store_mem` of src/cpu/cpu-exec.c): a fast path into
-- the DDR (and, for loads, the block RAM), and `vaddr_read` and `vaddr_write` for everything else.
-- The Makefile defines DEBUG, so the preventive checks are part of the code.
pub mod FastPath
pub mod StoreLoad
pub mod Safety
pub mod Effects
use nemu_riscv.Base.{ℕ, ◌+◌, ◌-◌, ◌&&◌, ltb, leb, if◌then◌else◌}
use nemu_riscv.Base.{Outcome, ok, ◌>>=◌, ◌>>◌, cpu_assert}
use nemu_riscv.Ram.{read_handler, write_handler}
use nemu_riscv.Address.{prot_addr}
use nemu_riscv.System.{System, ddr_base, ddr_size, bram_base, bram_size}
use nemu_riscv.Bus.{vaddr_read, vaddr_write}

-- A read of memory, which leaves the system as it is.
abbrev pub fast_read : System → Outcome ℕ → Outcome (ℕ × System)
fast_read s m = m >>= λ word. ok (word, s)

unfoldable pub load_mem : System → ℕ → ℕ → Outcome (ℕ × System)
load_mem s addr len = do
  cpu_assert (leb 0x1000 addr)
  let pa = prot_addr addr
  if leb ddr_base pa && ltb pa (ddr_base + ddr_size)
      then fast_read s (read_handler ddr_size s.ddr (pa - ddr_base) len)
      else if leb bram_base pa && ltb pa (bram_base + bram_size)
      then fast_read s (read_handler bram_size s.bram (pa - bram_base) len)
      else vaddr_read s addr len

unfoldable pub store_mem : System → ℕ → ℕ → ℕ → Outcome System
store_mem s addr len word = do
  cpu_assert (leb 0x1000 addr)
  let pa = prot_addr addr
  if leb ddr_base pa && ltb pa (ddr_base + ddr_size)
      then (write_handler ddr_size s.ddr (pa - ddr_base) len word >>= λ ddr'.
          ok (record s { ddr = ddr' }))
      else vaddr_write s addr len word

unfoldable pub instr_fetch : System → ℕ → Outcome (ℕ × System)
unfolding load_mem
instr_fetch s addr = load_mem s addr 4
