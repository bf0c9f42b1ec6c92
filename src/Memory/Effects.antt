-- ===== src/Memory/Effects.antt =====
-- Which parts of the system an access changes.
use nemu_riscv.Base.{ℕ, ◌≡◌, refl, arith, ok, Ensures, ◌⊎◌, inl}
use nemu_riscv.System.{System, nemu_end, ddr_read, ddr_write, bram_read, bram_write, gpio_write}
use nemu_riscv.Bus.Access.{vaddr_read-devices, vaddr_write-devices}
use nemu_riscv.Bus.{vaddr_read, vaddr_write}
use nemu_riscv.Bus.{on_serial_read, on_serial_write, on_mac_read, on_mac_write}
use nemu_riscv.Bus.{on_vga_read, on_vga_write}
use nemu_riscv.Memory.{load_mem, store_mem}

-- Nothing but the UART, whose queue a read may pop.
abbrev pub ReadsOnly : System → ℕ × System → Type 0
ReadsOnly s r = r.1 ≡ record s { serial = r.1.serial }

module _ (s : System) (a len : ℕ) where
  ddr_read-ReadsOnly : Ensures (ReadsOnly s) (ddr_read s a len)
  unfolding ddr_read
  ddr_read-ReadsOnly r e = ground arith

  bram_read-ReadsOnly : Ensures (ReadsOnly s) (bram_read s a len)
  unfolding bram_read
  bram_read-ReadsOnly r e = ground arith

  on_serial_read-ReadsOnly : Ensures (ReadsOnly s) (on_serial_read s a len)
  unfolding on_serial_read
  on_serial_read-ReadsOnly r e = ground arith

  on_mac_read-ReadsOnly : Ensures (ReadsOnly s) (on_mac_read s a len)
  unfolding on_mac_read
  on_mac_read-ReadsOnly r e = ground arith

  on_vga_read-ReadsOnly : Ensures (ReadsOnly s) (on_vga_read s a len)
  unfolding on_vga_read
  on_vga_read-ReadsOnly r e = ground arith

vaddr_read-ReadsOnly : (s : System) (a len : ℕ) → Ensures (ReadsOnly s) (vaddr_read s a len)
vaddr_read-ReadsOnly s a len =
    vaddr_read-devices s a len (ReadsOnly s) refl (λ i. ddr_read-ReadsOnly s i len)
      (λ i. bram_read-ReadsOnly s i len) (λ i. on_serial_read-ReadsOnly s i len)
      (λ i. on_mac_read-ReadsOnly s i len) (λ i. on_vga_read-ReadsOnly s i len)

-- A load changes nothing in the system but the UART.
pub load_mem-ReadsOnly :
    (s : System) (a len : ℕ) (r : ℕ × System) → load_mem s a len ≡ ok r → ReadsOnly s r
unfolding load_mem
load_mem-ReadsOnly s a len r e = ground (arith, vaddr_read-ReadsOnly s a len r)

-- The emulation goes on as before, or has ended.
abbrev pub GoesOnOrEnds : System → System → Type 0
GoesOnOrEnds s s' = (s'.nemu_state ≡ s.nemu_state) ⊎ (s'.nemu_state ≡ nemu_end)

module _ (s : System) (a len word : ℕ) where
  ddr_write-GoesOn : Ensures (GoesOnOrEnds s) (ddr_write s a len word)
  unfolding ddr_write
  ddr_write-GoesOn r e = ground arith

  bram_write-GoesOn : Ensures (GoesOnOrEnds s) (bram_write s a len word)
  unfolding bram_write
  bram_write-GoesOn r e = ground arith

  gpio_write-GoesOn : Ensures (GoesOnOrEnds s) (gpio_write s a len word)
  unfolding gpio_write
  gpio_write-GoesOn r e = ground arith

  on_serial_write-GoesOn : Ensures (GoesOnOrEnds s) (on_serial_write s a len word)
  unfolding on_serial_write
  on_serial_write-GoesOn r e = ground arith

  on_mac_write-GoesOn : Ensures (GoesOnOrEnds s) (on_mac_write s a len word)
  unfolding on_mac_write
  on_mac_write-GoesOn r e = ground arith

  on_vga_write-GoesOn : Ensures (GoesOnOrEnds s) (on_vga_write s a len word)
  unfolding on_vga_write
  on_vga_write-GoesOn r e = ground arith

vaddr_write-GoesOn :
    (s : System) (a len word : ℕ) → Ensures (GoesOnOrEnds s) (vaddr_write s a len word)
vaddr_write-GoesOn s a len word =
    vaddr_write-devices s a len word (GoesOnOrEnds s) (inl refl)
      (λ i. ddr_write-GoesOn s i len word) (λ i. bram_write-GoesOn s i len word)
      (λ i. gpio_write-GoesOn s i len word) (λ i. on_serial_write-GoesOn s i len word)
      (λ i. on_mac_write-GoesOn s i len word) (λ i. on_vga_write-GoesOn s i len word)

-- A store ends the emulation or leaves `nemu_state` as it is.
pub store_mem-GoesOn :
    (s : System) (a len word : ℕ) → Ensures (GoesOnOrEnds s) (store_mem s a len word)
unfolding store_mem
store_mem-GoesOn s a len word r e = ground (arith, vaddr_write-GoesOn s a len word r)
