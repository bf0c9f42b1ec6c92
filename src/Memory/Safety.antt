-- ===== src/Memory/Safety.antt =====
-- No aligned load leaves the arrays, and no aligned store does outside the Ethernet controller.
use nemu_riscv.Base.{ℕ, ◌+◌, ◌*◌, ◌-◌, ◌%◌, ◌≤◌, ◌<◌, ◌≡◌, arith, IsDefined}
use nemu_riscv.Ram.Access.{IsLen, one, two, four, IsLen-bounds, write_masked_word_lem}
use nemu_riscv.Ram.{read_handler, write_handler}
use nemu_riscv.Address.{prot_addr}
use nemu_riscv.Address.Laws.{prot_addr-mod}
use nemu_riscv.System.{System, ddr_size, bram_base, bram_size, gpio_write, bram_write}
use nemu_riscv.Memory.{load_mem, store_mem}
use nemu_riscv.Serial.{serial_read, serial_write}
use nemu_riscv.Mac.{mac_read}
use nemu_riscv.Video.{vga_read, vga_write}
use nemu_riscv.Bus.{
  vaddr_read, vaddr_write, region_at, find_region, on_serial_read, on_mac_read, badp_read,
  invalid_read,
}
use nemu_riscv.Bus.{badp_write}
use nemu_riscv.Bus.{on_vga_read, on_serial_write, on_vga_write}

read_handler-IsDefined :
    (size : ℕ) (p : ℕ → ℕ) (a len : ℕ)
    → IsLen len
    → a + len ≤ size
    → IsDefined (read_handler size p a len)
unfolding read_handler
read_handler-IsDefined size p a len one h = ground arith
read_handler-IsDefined size p a len two h = ground arith
read_handler-IsDefined size p a len four h = ground arith

write_handler-IsDefined :
    (size : ℕ) (p : ℕ → ℕ) (a len word : ℕ)
    → IsLen len
    → a + len ≤ size
    → IsDefined (write_handler size p a len word)
unfolding write_handler
write_handler-IsDefined size p a len word one h = ground arith
write_handler-IsDefined size p a len word two h = ground arith
write_handler-IsDefined size p a len word four h = ground arith

module _ (s : System) (a len : ℕ) where
  on_serial_read-IsDefined : IsDefined (on_serial_read s a len)
  unfolding on_serial_read serial_read
  on_serial_read-IsDefined = ground arith

  on_mac_read-IsDefined : IsDefined (on_mac_read s a len)
  unfolding on_mac_read mac_read
  on_mac_read-IsDefined = ground arith

  on_vga_read-IsDefined : IsLen len → a < 0x100000 → a % 4 ≡ 0 → IsDefined (on_vga_read s a len)
  unfolding on_vga_read vga_read
  on_vga_read-IsDefined width h even = ground (arith, IsLen-bounds width)

  on_serial_write-IsDefined : (word : ℕ) → IsDefined (on_serial_write s a len word)
  unfolding on_serial_write serial_write
  on_serial_write-IsDefined word = ground arith

  on_vga_write-IsDefined : (word : ℕ) → IsLen len → IsDefined (on_vga_write s a len word)
  unfolding on_vga_write vga_write
  on_vga_write-IsDefined word width = ground (arith, IsLen-bounds width)

  gpio_write-IsDefined : (word : ℕ) → IsDefined (gpio_write s a len word)
  unfolding gpio_write
  gpio_write-IsDefined word = ground arith

-- In the frame buffer the address is a multiple of 4.
abbrev pub IsWordInFrame : ℕ → Type 0
IsWordInFrame a = 0x10400000 ≤ prot_addr a → prot_addr a < 0x10500000 → prot_addr a % 4 ≡ 0

module _ (s : System) (a len : ℕ) where
  -- Outside the two memories nothing that is read is undefined.
  vaddr_read-IsDefined :
      IsLen len
      → ddr_size ≤ prot_addr a
      → (bram_base ≤ prot_addr a → bram_base + bram_size ≤ prot_addr a)
      → IsWordInFrame a
      → IsDefined (vaddr_read s a len)
  unfolding vaddr_read region_at find_region badp_read invalid_read
  vaddr_read-IsDefined width low high frame = ground (
    arith,
    on_serial_read-IsDefined s (prot_addr a - 0x1fe50000) len,
    on_mac_read-IsDefined s (prot_addr a - 0x1ff00000) len,
    on_vga_read-IsDefined s (prot_addr a - 0x10400000) len width,
  )

-- An aligned access that begins inside an array of whole pages lies inside it.
aligned_fits :
    (a base pages len : ℕ)
    → IsLen len
    → a % len ≡ 0
    → base % 4096 ≡ 0
    → prot_addr a < base + 4096 * pages
    → base ≤ prot_addr a
    → prot_addr a - base + len ≤ 4096 * pages
aligned_fits a base pages len one al page h l = omega arith
aligned_fits a base pages len two al page h l = omega (arith, prot_addr-mod a)
aligned_fits a base pages len four al page h l = omega (arith, prot_addr-mod a)

-- A load of one, two or four bytes at a multiple of its length is undefined nowhere but in the frame
-- buffer, at an address that is no multiple of 4.
pub load_mem-IsDefined :
    (s : System) (a len : ℕ)
    → IsLen len
    → a % len ≡ 0
    → IsWordInFrame a
    → IsDefined (load_mem s a len)
unfolding load_mem
load_mem-IsDefined s a len width aligned frame = ground (
  arith,
  aligned_fits a 0 32768 len width aligned,
  aligned_fits a bram_base 256 len width aligned,
  read_handler-IsDefined ddr_size s.ddr (prot_addr a - 0) len width,
  read_handler-IsDefined bram_size s.bram (prot_addr a - bram_base) len width,
  vaddr_read-IsDefined s a len width,
)

-- Outside the Ethernet controller an aligned store never is undefined.
vaddr_write-IsDefined :
    (s : System) (a len word : ℕ)
    → IsLen len
    → a % len ≡ 0
    → ddr_size ≤ prot_addr a
    → (0x1ff00000 ≤ prot_addr a → 0x1ff10000 ≤ prot_addr a)
    → IsDefined (vaddr_write s a len word)
unfolding vaddr_write region_at find_region badp_write bram_write
vaddr_write-IsDefined s a len word width aligned low high = ground (
  arith,
  IsLen-bounds width,
  aligned_fits a bram_base 256 len width aligned,
  write_masked_word_lem bram_size s.bram (prot_addr a - bram_base) len word width,
  gpio_write-IsDefined s (prot_addr a - 0x10000000) len word,
  on_serial_write-IsDefined s (prot_addr a - 0x1fe50000) len word,
  on_vga_write-IsDefined s (prot_addr a - 0x10400000) len word width,
)

-- A store of one, two or four bytes at a multiple of its length is undefined nowhere but in the
-- Ethernet controller, whose address registers copy as many bytes as a length register says.
pub store_mem-IsDefined :
    (s : System) (a len word : ℕ)
    → IsLen len
    → a % len ≡ 0
    → (0x1ff00000 ≤ prot_addr a → 0x1ff10000 ≤ prot_addr a)
    → IsDefined (store_mem s a len word)
unfolding store_mem
store_mem-IsDefined s a len word width aligned high = ground (
  arith,
  aligned_fits a 0 32768 len width aligned,
  write_handler-IsDefined ddr_size s.ddr (prot_addr a - 0) len word width,
  vaddr_write-IsDefined s a len word width aligned,
)
