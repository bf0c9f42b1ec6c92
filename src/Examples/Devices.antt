-- ===== src/Examples/Devices.antt =====
-- The theorems on the devices and on the instruction queue, at concrete states.
use nemu_riscv.InstrQueue.{InstrQueue, instr_enqueue_pc}
use nemu_riscv.Base.{ℕ, ◌/◌, ◌%◌, ◌≡◌, ◌⊎◌, refl, arith, ok, Returns, List, [], ◌∷◌, ◌++◌}
use nemu_riscv.Base.{replicate, ◌<◌, ◌≤◌, fault, abort, unfinished, update, ◌==◌, if◌then◌else◌}
use nemu_riscv.Ram.Access.{IsBytes}
use nemu_riscv.Address.{prot_addr}
use nemu_riscv.Mac.{mac_read, set_word, tx_ping_tsr, tx_pong, tx_pong_tplr, tx_pong_tsr}
use nemu_riscv.Mac.Station.{
  Programmed, program_ping, program_pong, program_address, buffer_byte, transmit_busy,
}
use nemu_riscv.Mac.Layout.{StaysWithin, mac_write-StaysWithin}
use nemu_riscv.Assertion.{instr_queue, failed_cpu_assert}
use nemu_riscv.Assertion.Nesting.{jump_to_trap_device}
use nemu_riscv.Run.{Machine, step}
use nemu_riscv.Examples.{reset_cpu, booted}
use nemu_riscv.Serial.{Serial, enqueue_string, serial_read, uartlite_rx, uartlite_stat}
use nemu_riscv.Base.{take}
use nemu_riscv.Serial.{uartlite_rx}
use nemu_riscv.Serial.Interrupted.{interrupted_read, interrupted_read-oldest}
use nemu_riscv.Serial.Fifo.{IsFifo, contents, enqueue_string-contents, serial_read-contents}
use nemu_riscv.Mac.{Mac, mac_write, mdio_ctrl, init_phy}
use nemu_riscv.Mac.Mdio.{read_phy, read_phy_lem, mac_write-idle}
use nemu_riscv.Video.{update_screen, rgb_m12_to_m32, vmem_color}
use nemu_riscv.Video.Screen.{update_screen_lem}
use nemu_riscv.InstrQueue.{print_instr_queue}
use nemu_riscv.InstrQueue.Recent.{record_all, elements, drop, record_all-print}
use nemu_riscv.Examples.{idle_serial, idle_mac, zeros, empty_queue, value_or}

-- "ab" into the last two cells of the array.
abbrev at_the_end : Serial
at_the_end = record idle_serial { serial_f = 1022; serial_r = 1023 }

enqueue_string-contents_example :
    IsFifo (enqueue_string at_the_end (97 ∷ 98 ∷ []))
    × (contents (enqueue_string at_the_end (97 ∷ 98 ∷ [])) ≡ 0 ∷ 97 ∷ 98 ∷ [])
enqueue_string-contents_example =
    enqueue_string-contents at_the_end (97 ∷ 98 ∷ []) (omega arith, omega arith)

serial_read-contents_example :
    ((contents at_the_end ≡ [])
      × (serial_read at_the_end uartlite_stat 4 ≡ ok (0, at_the_end))
      × (serial_read at_the_end uartlite_rx 4
          ≡ ok (at_the_end.serial_queue at_the_end.serial_f, at_the_end)))
    ⊎ ((x : ℕ) × (s' : Serial) × (contents at_the_end ≡ x ∷ contents s')
        × IsFifo s'
        × (serial_read at_the_end uartlite_stat 4 ≡ ok (1, at_the_end))
        × (serial_read at_the_end uartlite_rx 4 ≡ ok (x, s')))
serial_read-contents_example = serial_read-contents at_the_end 4 (omega arith, omega arith)

read_phy_lem_example : read_phy idle_mac 1 2 ≡ ok (0x8, (init_phy idle_mac).phy_regs 1 2)
read_phy_lem_example = read_phy_lem idle_mac 1 2 (omega arith) (omega arith)

abbrev controlled : Mac
controlled = value_or (mac_write idle_mac mdio_ctrl 4 0x9) idle_mac

mac_write-idle_example : controlled.word (mdio_ctrl / 4) % 2 ≡ 0
unfolding mac_write
mac_write-idle_example = mac_write-idle idle_mac 4 0x9 controlled refl

update_screen_lem_example :
    Returns
      (λ p. p 799 599 ≡ rgb_m12_to_m32 (vmem_color zeros 299 399))
      (update_screen zeros (λ x y. 0))
update_screen_lem_example = update_screen_lem zeros (λ x y. 0) 799 599 (omega arith) (omega arith)

abbrev two_instrs : List (ℕ × ℕ)
two_instrs = (0x80001000, 0x00500093) ∷ (0x80001004, 0x10000137) ∷ []

record_all-print_example :
    print_instr_queue (record_all empty_queue two_instrs)
    ≡ drop 2 (print_instr_queue empty_queue ++ elements two_instrs)
record_all-print_example = record_all-print empty_queue two_instrs (omega arith)

-- The address 02:00:00:00:00:07.
abbrev own_address : ℕ → ℕ
own_address i = if i == 0 then 2 else if i == 5 then 7 else 0

own_address-IsBytes : IsBytes own_address
own_address-IsBytes i = ground arith

program_address_example :
    Programmed
      (program_ping idle_mac own_address 2)
      tx_ping_tsr
      (λ t. t.ping_mac)
      (λ t. t.pong_mac)
      idle_mac
      own_address
      2
    × Programmed
        (program_pong idle_mac own_address 2)
        tx_pong_tsr
        (λ t. t.pong_mac)
        (λ t. t.ping_mac)
        idle_mac
        own_address
        2
program_address_example = program_address idle_mac own_address 2 own_address-IsBytes (omega arith)

-- A frame of 60 bytes.
abbrev framed : Mac
framed = record idle_mac { word = update zeros (tx_pong_tplr / 4) 60 }

transmit_busy_example :
    (mac_write framed tx_ping_tsr 4 1 ≡ ok (set_word framed tx_ping_tsr 1))
    × (mac_read (set_word framed tx_ping_tsr 1) tx_ping_tsr 4 ≡ ok 1)
    × (((60 ≤ 6)
          × (m' : Mac) × (mac_write framed tx_pong_tsr 4 1 ≡ ok m')
          × ((i : ℕ) → i < 60 → m'.pong_mac i ≡ buffer_byte framed tx_pong i)
          × (mac_read m' tx_pong_tsr 4 ≡ ok 0))
        ⊎ ((6 < 60) × (mac_write framed tx_pong_tsr 4 1 ≡ fault)))
transmit_busy_example = transmit_busy framed

abbrev rewritten : Mac
rewritten = value_or (mac_write idle_mac 0x1ffc 4 1) idle_mac

mac_write-StaysWithin_example : StaysWithin idle_mac rewritten
unfolding mac_write
mac_write-StaysWithin_example = mac_write-StaysWithin idle_mac rewritten 0x1ffc 4 1 refl

abbrev lost : Machine
lost = record booted { cpu = record reset_cpu { pc = 0x90000000 } }

abbrev lost_queue : InstrQueue
lost_queue = instr_enqueue_pc lost.queue 0x90000000

jump_to_trap_device_example :
    (step lost ≡ abort)
    × (failed_cpu_assert 2 lost.sys lost.cpu lost_queue 0
        ≡ (replicate 2 (instr_queue (print_instr_queue lost_queue)), unfinished))
unfolding prot_addr
jump_to_trap_device_example = jump_to_trap_device lost 0 2 refl (omega arith) (omega arith)

-- One byte is in the queue; `b` comes while it is read, behind the test.
interrupted_read-oldest_example :
    (s' : Serial) × (interrupted_read [] (98 ∷ []) at_the_end uartlite_rx 1
      ≡ ok (at_the_end.serial_queue 1022, s'))
    × IsFifo s'
    × (at_the_end.serial_queue 1022 ∷ contents s'
        ≡ take 1023 (take 1023 (contents at_the_end ++ []) ++ 98 ∷ []))
interrupted_read-oldest_example =
    interrupted_read-oldest at_the_end [] (98 ∷ []) 1 (at_the_end.serial_queue 1022) []
      (omega arith, omega arith) refl
