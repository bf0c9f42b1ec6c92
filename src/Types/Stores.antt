-- ===== src/Types/Stores.antt =====
-- Stores of 32-bit words keep the types of the memory and of the devices (`store_mem` of
-- src/cpu/cpu-exec.c).
use nemu_riscv.Base.{ℕ, ◌-◌, ◌^◌, ◌<◌, ◌==◌, Ensures}
use nemu_riscv.Base.{Ensures-ok, Ensures-exit, Ensures->>=, Ensures->>, Ensures-if}
use nemu_riscv.Base.{leb, cpu_assert, defined}
use nemu_riscv.Ram.{write_handler}
use nemu_riscv.Ram.{write_masked_word}
use nemu_riscv.Ram.Access.{IsBytes, store_host-IsBytes}
use nemu_riscv.Serial.{serial_write}
use nemu_riscv.Mac.{mac_write}
use nemu_riscv.Video.{vga_write, check_vga}
use nemu_riscv.Address.{prot_addr}
use nemu_riscv.System.{System, ddr_write, bram_write, gpio_write, check_ddr}
use nemu_riscv.System.{check_bram, ddr_size, ddr_base, bram_size}
use nemu_riscv.Bus.{on_serial_write, on_mac_write}
use nemu_riscv.Bus.{on_vga_write, vaddr_write}
use nemu_riscv.Bus.Access.{vaddr_write-devices}
use nemu_riscv.Memory.{store_mem}
use nemu_riscv.Types.{IsTypedSystem}
use nemu_riscv.Types.Devices.{mac_write-IsTyped, serial_write-IsTyped}
use nemu_riscv.Types.Bytes.{write_masked_word-IsBytes, write_handler-IsBytes}
use nemu_riscv.Types.Loads.{with_serial-IsTyped}

with_ddr :
    (s : System) (p : ℕ → ℕ) → IsTypedSystem s → IsBytes p → IsTypedSystem (record s { ddr = p })
with_ddr s p h hp = record {
  ddr_bytes = hp;
  bram_bytes = h.bram_bytes;
  vmem_bytes = h.vmem_bytes;
  serial_typed = h.serial_typed;
  mac_typed = h.mac_typed;
}

module _ (s : System) (h : IsTypedSystem s) (a len word : ℕ) where
  ddr_write-IsTyped : Ensures IsTypedSystem (ddr_write s a len word)
  unfolding ddr_write
  ddr_write-IsTyped = Ensures->> IsTypedSystem (cpu_assert (check_ddr a len)) (
      Ensures->>= IsTypedSystem (write_masked_word ddr_size s.ddr a len word)
        (write_masked_word-IsBytes ddr_size s.ddr a len word h.ddr_bytes)
        λ p hp. Ensures-ok IsTypedSystem (with_ddr s p h hp))

  bram_write-IsTyped : Ensures IsTypedSystem (bram_write s a len word)
  unfolding bram_write
  bram_write-IsTyped = Ensures->> IsTypedSystem (cpu_assert (check_bram a len)) (
      Ensures->>= IsTypedSystem (write_masked_word bram_size s.bram a len word)
        (write_masked_word-IsBytes bram_size s.bram a len word h.bram_bytes)
        λ p hp. Ensures-ok IsTypedSystem (record {
          ddr_bytes = h.ddr_bytes;
          bram_bytes = hp;
          vmem_bytes = h.vmem_bytes;
          serial_typed = h.serial_typed;
          mac_typed = h.mac_typed;
        }))

  gpio_write-IsTyped : Ensures IsTypedSystem (gpio_write s a len word)
  unfolding gpio_write
  gpio_write-IsTyped = Ensures->> IsTypedSystem (cpu_assert (a == 0)) (
      Ensures->> IsTypedSystem (cpu_assert (len == 1)) (
        Ensures-if IsTypedSystem _ (Ensures-exit IsTypedSystem) (
          Ensures-ok IsTypedSystem (record {
            ddr_bytes = h.ddr_bytes;
            bram_bytes = h.bram_bytes;
            vmem_bytes = h.vmem_bytes;
            serial_typed = h.serial_typed;
            mac_typed = h.mac_typed;
          }))))

  on_serial_write-IsTyped : word < 2 ^ 32 → Ensures IsTypedSystem (on_serial_write s a len word)
  unfolding on_serial_write
  on_serial_write-IsTyped hw =
      Ensures->>= IsTypedSystem (serial_write s.serial a len word)
        (serial_write-IsTyped s.serial a len word h.serial_typed hw)
        λ t ht. Ensures-ok IsTypedSystem (with_serial-IsTyped s t h ht)

  on_mac_write-IsTyped : word < 2 ^ 32 → Ensures IsTypedSystem (on_mac_write s a len word)
  unfolding on_mac_write
  on_mac_write-IsTyped hw =
      Ensures->>= IsTypedSystem (mac_write s.mac a len word)
        (mac_write-IsTyped s.mac a len word h.mac_typed hw)
        λ m hm. Ensures-ok IsTypedSystem (record {
          ddr_bytes = h.ddr_bytes;
          bram_bytes = h.bram_bytes;
          vmem_bytes = h.vmem_bytes;
          serial_typed = h.serial_typed;
          mac_typed = hm;
        })

  on_vga_write-IsTyped : Ensures IsTypedSystem (on_vga_write s a len word)
  unfolding on_vga_write vga_write
  on_vga_write-IsTyped =
      Ensures->>= {P = IsBytes} IsTypedSystem (vga_write s.vmem a len word)
        (Ensures->> IsBytes (cpu_assert (check_vga a len)) (
          Ensures->> IsBytes (defined (leb len 4))
            (Ensures-ok IsBytes (store_host-IsBytes s.vmem a len word h.vmem_bytes))))
        λ p hp. Ensures-ok IsTypedSystem (record {
          ddr_bytes = h.ddr_bytes;
          bram_bytes = h.bram_bytes;
          vmem_bytes = hp;
          serial_typed = h.serial_typed;
          mac_typed = h.mac_typed;
        })

vaddr_write-IsTyped :
    (s : System) (a len word : ℕ)
    → IsTypedSystem s
    → word < 2 ^ 32
    → Ensures IsTypedSystem (vaddr_write s a len word)
vaddr_write-IsTyped s a len word h hw =
    vaddr_write-devices s a len word IsTypedSystem h (λ i. ddr_write-IsTyped s h i len word)
      (λ i. bram_write-IsTyped s h i len word) (λ i. gpio_write-IsTyped s h i len word)
      (λ i. on_serial_write-IsTyped s h i len word hw) (λ i. on_mac_write-IsTyped s h i len word hw)
      (λ i. on_vga_write-IsTyped s h i len word)

-- A store of a 32-bit word leaves the system well-typed.
pub store_mem-IsTyped :
    (s : System) (a len word : ℕ)
    → IsTypedSystem s
    → word < 2 ^ 32
    → Ensures IsTypedSystem (store_mem s a len word)
unfolding store_mem
store_mem-IsTyped s a len word h hw = Ensures->> IsTypedSystem (cpu_assert (leb 0x1000 a)) (
    Ensures-if IsTypedSystem _
      (Ensures->>= IsTypedSystem (write_handler ddr_size s.ddr (prot_addr a - ddr_base) len word)
        (write_handler-IsBytes ddr_size s.ddr (prot_addr a - ddr_base) len word h.ddr_bytes)
        λ p hp. Ensures-ok IsTypedSystem (with_ddr s p h hp))
      (vaddr_write-IsTyped s a len word h hw))
