-- ===== src/Types/Loads.antt =====
-- Loads give 32-bit words and keep the types of the devices (`load_mem` of src/cpu/cpu-exec.c).
use nemu_riscv.Base.{◌%◌, ◌==◌}
use nemu_riscv.Base.{ℕ, ◌+◌, ◌-◌, ◌^◌, ◌<◌, ◌&&◌, arith, ok, Ensures}
use nemu_riscv.Base.{Ensures-ok, Outcome, ◌>>=◌, Ensures->>=, Ensures->>, Ensures-if}
use nemu_riscv.Base.{bit_and-lt, leb, cpu_assert, defined}
use nemu_riscv.Ram.{load_host}
use nemu_riscv.Ram.Access.{load_host-lt}
use nemu_riscv.Serial.{Serial, serial_read}
use nemu_riscv.Video.{vga_read, check_vga, vmem_size}
use nemu_riscv.Address.{prot_addr}
use nemu_riscv.System.{System, ddr_read, bram_read, check_ddr}
use nemu_riscv.System.{check_bram, ddr_size, ddr_base, bram_size, bram_base}
use nemu_riscv.Bus.{on_serial_read, on_mac_read, vaddr_read}
use nemu_riscv.Bus.{on_vga_read}
use nemu_riscv.Bus.Access.{vaddr_read-devices}
use nemu_riscv.Memory.{load_mem}
use nemu_riscv.Types.{IsTypedSystem, IsTypedSerial}
use nemu_riscv.Types.Devices.{mac_read-lt, serial_read-IsTyped}
use nemu_riscv.Types.Devices.{IsWord}
use nemu_riscv.Types.Bytes.{read_masked_word-lt, read_handler-lt}

-- A word and the system after it was read.
abbrev pub IsLoaded : ℕ × System → Type 0
IsLoaded r = (r.0 < 2 ^ 32) × IsTypedSystem r.1

fast_read-IsLoaded :
    (s : System) (m : Outcome ℕ)
    → IsTypedSystem s
    → Ensures IsWord m
    → Ensures IsLoaded (m >>= λ word. ok (word, s))
fast_read-IsLoaded s m h hm = Ensures->>= IsLoaded m hm λ w hw. Ensures-ok IsLoaded (hw, h)

pub with_serial-IsTyped :
    (s : System) (serial : Serial)
    → IsTypedSystem s
    → IsTypedSerial serial
    → IsTypedSystem (record s { serial = serial })
with_serial-IsTyped s serial h hp = record {
  ddr_bytes = h.ddr_bytes;
  bram_bytes = h.bram_bytes;
  vmem_bytes = h.vmem_bytes;
  serial_typed = hp;
  mac_typed = h.mac_typed;
}

module _ (s : System) (h : IsTypedSystem s) (a len : ℕ) where
  ddr_read-IsLoaded : Ensures IsLoaded (ddr_read s a len)
  unfolding ddr_read
  ddr_read-IsLoaded =
      Ensures->> IsLoaded (cpu_assert (check_ddr a len))
        (fast_read-IsLoaded s _ h (read_masked_word-lt ddr_size s.ddr a len h.ddr_bytes))

  bram_read-IsLoaded : Ensures IsLoaded (bram_read s a len)
  unfolding bram_read
  bram_read-IsLoaded =
      Ensures->> IsLoaded (cpu_assert (check_bram a len))
        (fast_read-IsLoaded s _ h (read_masked_word-lt bram_size s.bram a len h.bram_bytes))

  on_serial_read-IsLoaded : Ensures IsLoaded (on_serial_read s a len)
  unfolding on_serial_read
  on_serial_read-IsLoaded =
      Ensures->>= IsLoaded (serial_read s.serial a len)
        (serial_read-IsTyped s.serial a len h.serial_typed)
        λ r hr. Ensures-ok IsLoaded (hr.0, with_serial-IsTyped s r.1 h hr.1)

  on_mac_read-IsLoaded : Ensures IsLoaded (on_mac_read s a len)
  unfolding on_mac_read
  on_mac_read-IsLoaded = fast_read-IsLoaded s _ h (mac_read-lt s.mac a len h.mac_typed)

  on_vga_read-IsLoaded : Ensures IsLoaded (on_vga_read s a len)
  unfolding on_vga_read vga_read
  on_vga_read-IsLoaded = fast_read-IsLoaded s _ h (
      Ensures->> IsWord (cpu_assert (check_vga a len)) (
        Ensures->> IsWord (defined (a % 4 == 0 && leb 1 len && leb len 4 && leb (a + 4) vmem_size))
          (Ensures-ok IsWord
            (bit_and-lt 32 (load_host s.vmem a 4) _ (load_host-lt s.vmem a 4 h.vmem_bytes)))))

vaddr_read-IsLoaded :
    (s : System) (a len : ℕ) → IsTypedSystem s → Ensures IsLoaded (vaddr_read s a len)
vaddr_read-IsLoaded s a len h =
    vaddr_read-devices s a len IsLoaded (omega arith, h) (λ i. ddr_read-IsLoaded s h i len)
      (λ i. bram_read-IsLoaded s h i len) (λ i. on_serial_read-IsLoaded s h i len)
      (λ i. on_mac_read-IsLoaded s h i len) (λ i. on_vga_read-IsLoaded s h i len)

-- A load returns a 32-bit word, and leaves the system well-typed.
pub load_mem-IsLoaded :
    (s : System) (a len : ℕ) → IsTypedSystem s → Ensures IsLoaded (load_mem s a len)
unfolding load_mem
load_mem-IsLoaded s a len h = Ensures->> IsLoaded (cpu_assert (leb 0x1000 a)) (
    Ensures-if IsLoaded _
      (fast_read-IsLoaded s _ h
        (read_handler-lt ddr_size s.ddr (prot_addr a - ddr_base) len h.ddr_bytes))
      (Ensures-if IsLoaded _
        (fast_read-IsLoaded s _ h
          (read_handler-lt bram_size s.bram (prot_addr a - bram_base) len h.bram_bytes))
        (vaddr_read-IsLoaded s a len h)))
