-- ===== src/Examples.antt =====
-- Concrete states of the emulator for the tests and the instances of the theorems.
pub mod Memory
pub mod Emulation
pub mod Devices
pub mod Keys
pub mod Startup
pub mod Signals
pub mod Manual
pub mod Traced
pub mod Program
use nemu_riscv.Base.{
  ℕ, true, false, List, [], ◌∷◌, Outcome, ok, abort, exit, fault, unfinished, if◌then◌else◌, ◌==◌,
  update,
}
use nemu_riscv.Ram.{store_host}
use nemu_riscv.Serial.{Serial}
use nemu_riscv.Mac.{Mac}
use nemu_riscv.System.{System, nemu_stop, mode_gdb}
use nemu_riscv.Exec.{Cpu}
use nemu_riscv.InstrQueue.{IqElement, InstrQueue}
use nemu_riscv.Run.{Machine}

abbrev pub zeros : ℕ → ℕ
zeros i = 0

abbrev pub idle_serial : Serial
idle_serial = record {
  serial_queue = zeros;
  serial_f = 0;
  serial_r = 0;
  uartlite_ctrl_reg = 0;
  sdlk_state = λ key. false;
  stdout = [];
}

abbrev pub idle_mac : Mac
idle_mac = record {
  word = zeros;
  ping_mac = zeros;
  pong_mac = zeros;
  phy_regs = λ phy. zeros;
  inited = false;
}

abbrev pub blank : System
blank = record {
  ddr = zeros;
  ddr_mapped_size = 0;
  bram = zeros;
  bram_mapped_size = 0;
  bram_mapped = false;
  vmem = zeros;
  serial = idle_serial;
  mac = idle_mac;
  nemu_state = nemu_stop;
  work_mode = mode_gdb;
  stderr = [];
}

abbrev pub reset_cpu : Cpu
reset_cpu = record { gpr = zeros; csr_file = zeros; hi = 0; lo = 0; pc = 0x80001000 }

abbrev pub empty_element : IqElement
empty_element = record { pc = 0; instr = 0; instr_enq = false }

abbrev pub empty_queue : InstrQueue
empty_queue = record { pc_ptr = 0; instr_ptr = 0; iq = λ i. empty_element }

-- `addi x1, x0, 5`, then `lui x2, 0x10000`, then `sb x0, 0(x2)`, which ends the emulation.
abbrev pub program : ℕ → ℕ
program i =
    if i == 0x1000
    then 0x93
    else if i == 0x1002
    then 0x50
    else if i == 0x1004
    then 0x37
    else if i == 0x1005
    then 0x01
    else if i == 0x1007
    then 0x10
    else if i == 0x1008
    then 0x23
    else if i == 0x100a
    then 0x01
    else 0

abbrev pub booted : Machine
booted = record { cpu = reset_cpu; sys = record blank { ddr = program }; queue = empty_queue }

-- The value of an outcome, or a value in place of it.
abbrev pub value_or {ℓ} : {A : Type ℓ} → Outcome A → A → A
value_or (ok a) d = a
value_or abort d = d
value_or exit d = d
value_or unfinished d = d
value_or fault d = d
