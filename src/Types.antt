-- ===== src/Types.antt =====
-- The C types of the emulator's variables as bounds: `uint8_t` and `uint32_t` arrays, the 16-bit
-- registers of the PHY, the indices of the UART's ring. The models keep plain natural numbers, so
-- that every operation stays within these bounds is a theorem about it.
pub mod Devices
pub mod Bytes
pub mod Loads
pub mod Stores
pub mod Cpu
pub mod Keys
pub mod Step
use nemu_riscv.Base.{ℕ, ◌^◌, ◌<◌}
use nemu_riscv.Ram.Access.{IsBytes}
use nemu_riscv.Serial.{Serial}
use nemu_riscv.Mac.{Mac}
use nemu_riscv.System.{System}

-- Every cell holds a 32-bit word.
abbrev pub IsWords : (ℕ → ℕ) → Type 0
IsWords f = (i : ℕ) → f i < 2 ^ 32

pub record IsTypedSerial (s : Serial) : Type 0 where
  pub queue : IsWords s.serial_queue
  pub front : s.serial_f < 1024
  pub rear : s.serial_r < 1024
  pub ctrl : s.uartlite_ctrl_reg < 2 ^ 32

pub record IsTypedMac (m : Mac) : Type 0 where
  pub regs : IsWords m.word
  pub ping : IsBytes m.ping_mac
  pub pong : IsBytes m.pong_mac
  pub phy : (i j : ℕ) → m.phy_regs i j < 2 ^ 16

pub record IsTypedSystem (s : System) : Type 0 where
  pub ddr_bytes : IsBytes s.ddr
  pub bram_bytes : IsBytes s.bram
  pub vmem_bytes : IsBytes s.vmem
  pub serial_typed : IsTypedSerial s.serial
  pub mac_typed : IsTypedMac s.mac
