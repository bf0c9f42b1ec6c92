-- ===== src/Examples/Memory.antt =====
-- The theorems on memory and on the memory map, at concrete states.
use nemu_riscv.Base.{ℕ, ◌≡◌, inr, refl, arith, ok}
use nemu_riscv.Ram.Access.{two, four}
use nemu_riscv.Address.{prot_addr}
use nemu_riscv.System.{System}
use nemu_riscv.Bus.{vaddr_read, vaddr_write}
use nemu_riscv.Memory.{load_mem, store_mem}
use nemu_riscv.Memory.FastPath.{IsMemory, load_mem-eq-vaddr_read, store_mem-eq-vaddr_write}
use nemu_riscv.Memory.StoreLoad.{load_mem-store_mem, load_mem-store_mem_apart}
use nemu_riscv.Examples.{blank}

blank-IsMemory : IsMemory blank
blank-IsMemory = record { ddr_bytes = λ i. omega arith; bram_bytes = λ i. omega arith }

-- Two bytes stored through kseg0 and loaded through kseg1.
load_mem-store_mem_example :
    (s' : System) × (store_mem blank 0x80001002 2 0x12345678 ≡ ok s')
    × IsMemory s'
    × (load_mem s' 0xA0001002 2 ≡ ok (0x5678, s'))
unfolding prot_addr
load_mem-store_mem_example =
    load_mem-store_mem blank 0x80001002 0xA0001002 2 0x12345678 blank-IsMemory two (omega arith)
      (omega arith) (omega arith) refl

load_mem-store_mem_apart_example :
    (s' : System) × (v : ℕ) × (store_mem blank 0x80001002 2 0x12345678 ≡ ok s')
    × (load_mem blank 0x80001004 4 ≡ ok (v, blank))
    × (load_mem s' 0x80001004 4 ≡ ok (v, s'))
unfolding prot_addr
load_mem-store_mem_apart_example =
    load_mem-store_mem_apart blank 0x80001002 2 0x12345678 0x80001004 4 blank-IsMemory two
      (omega arith) (omega arith) four (omega arith) (omega arith) (inr (omega arith))

load_mem-eq-vaddr_read_example : load_mem blank 0xbfc00010 4 ≡ vaddr_read blank 0xbfc00010 4
unfolding prot_addr
load_mem-eq-vaddr_read_example =
    load_mem-eq-vaddr_read blank 0xbfc00010 4 blank-IsMemory four (omega arith) (omega arith)

store_mem-eq-vaddr_write_example : store_mem blank 0x80001002 2 7 ≡ vaddr_write blank 0x80001002 2 7
unfolding prot_addr
store_mem-eq-vaddr_write_example =
    store_mem-eq-vaddr_write blank 0x80001002 2 7 two (omega arith) (λ h. omega arith)
