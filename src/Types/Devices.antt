-- ===== src/Types/Devices.antt =====
-- The Ethernet controller and the UART keep their types (src/dev/mac.c, src/dev/serial.c).
use nemu_riscv.Base.{ℕ, ◌/◌, ◌^◌, ◌<◌, arith, Ensures}
use nemu_riscv.Base.{
  bit_and-lt, bit_or-lt, not32, bit_and, u16, not_eq, ◌==◌, Ensures-if, Ensures-ok, Ensures-abort,
  Ensures->>=, Ensures->>, if-ensures,
}
use nemu_riscv.Base.{leb, ◌&&◌, cpu_assert, defined}
use nemu_riscv.Ram.Access.{IsBytes}
use nemu_riscv.Serial.{
  serial_peek, serial_size, uartlite_rx, uartlite_tx, uartlite_stat, uartlite_ctrl,
}
use nemu_riscv.Mac.{
  copy_mac, phyaddr, regnum, mdio_wr, tx_ping_tsr, tx_ping_tplr, tx_pong, tx_pong_tsr,
}
use nemu_riscv.Mac.{tx_pong_tplr, program_mask, prog_mac_addr, mdiosts_mask, check_mac, is_plain}
use nemu_riscv.Mac.{active_phy, mdio_op, mdio_addr, mdio_rd, mdio_ctrl}
use nemu_riscv.Serial.{Serial, serial_read, serial_write}
use nemu_riscv.Mac.{Mac, set_word, set_phy, init_phy, mii_write, mii_transaction, clear_mdiosts}
use nemu_riscv.Mac.{write_ping_tsr, write_pong_tsr, write_mdio_ctrl, mac_read, mac_write}
use nemu_riscv.Types.{IsTypedSerial, IsTypedMac}

set_word-IsTyped : (m : Mac) (a v : ℕ) → IsTypedMac m → v < 2 ^ 32 → IsTypedMac (set_word m a v)
unfolding set_word
set_word-IsTyped m a v h hv = record {
  regs = λ i. ground (arith, h.regs i);
  ping = h.ping;
  pong = h.pong;
  phy = h.phy;
}

set_phy-IsTyped : (m : Mac) (i j v : ℕ) → IsTypedMac m → v < 2 ^ 16 → IsTypedMac (set_phy m i j v)
unfolding set_phy
set_phy-IsTyped m i j v h hv = record {
  regs = h.regs;
  ping = h.ping;
  pong = h.pong;
  phy = λ p q. ground (arith, h.phy p q, h.phy i q);
}

copy_mac-IsBytes :
    (mac word : ℕ → ℕ) (base n : ℕ) → IsBytes mac → IsBytes (copy_mac mac word base n)
unfolding copy_mac
copy_mac-IsBytes mac word base n h i = ground (arith, h i)

init_phy-IsTyped : (m : Mac) → IsTypedMac m → IsTypedMac (init_phy m)
unfolding init_phy set_phy
init_phy-IsTyped m h = if-ensures IsTypedMac m.inited h (record {
  regs = h.regs;
  ping = h.ping;
  pong = h.pong;
  phy = λ i j. ground (arith, h.phy i j, h.phy 1 j);
})

mii_write-IsTyped :
    (m : Mac) (phy reg word : ℕ)
    → IsTypedMac m
    → word < 2 ^ 16
    → Ensures IsTypedMac (mii_write m phy reg word)
unfolding mii_write
mii_write-IsTyped m phy reg word h hw =
    Ensures-if IsTypedMac (not_eq phy active_phy) (Ensures-ok IsTypedMac h) (
      Ensures-if IsTypedMac (reg == 0)
        (Ensures-ok IsTypedMac (
          if-ensures IsTypedMac (not_eq (bit_and word 0x8000) 0)
            (set_phy-IsTyped m phy 1 _ h (bit_or-lt 16 _ _ (h.phy phy 1) (omega arith)))
            (set_phy-IsTyped m phy reg word h hw)))
        (Ensures-abort IsTypedMac))

mii_transaction-IsTyped : (m : Mac) → IsTypedMac m → Ensures IsTypedMac (mii_transaction m)
unfolding mii_transaction
mii_transaction-IsTyped m h =
    let h1 = init_phy-IsTyped m h in
    let a = (init_phy m).word (mdio_addr / 4) in
    Ensures-if IsTypedMac (mdio_op a == 0)
      (mii_write-IsTyped (init_phy m) (phyaddr a) (regnum a) (u16 ((init_phy m).word (mdio_wr / 4)))
        h1 (omega arith))
      (Ensures-ok IsTypedMac (
        set_word-IsTyped (init_phy m) mdio_rd ((init_phy m).phy_regs (phyaddr a) (regnum a)) h1
          (omega (arith, h1.phy (phyaddr a) (regnum a)))))

write_ping_tsr-IsTyped :
    (m : Mac) (word : ℕ) → IsTypedMac m → word < 2 ^ 32 → Ensures IsTypedMac (write_ping_tsr m word)
unfolding write_ping_tsr
write_ping_tsr-IsTyped m word h hw =
    let h1 = set_word-IsTyped m tx_ping_tsr word h hw in
    let m1 = set_word m tx_ping_tsr word in
    let n = m1.word (tx_ping_tplr / 4) in
    let mac' : ℕ → ℕ = copy_mac m1.ping_mac m1.word 0 n in
    let programmed : IsTypedMac (record m1 { ping_mac = mac' }) = record {
      regs = h1.regs;
      ping = copy_mac-IsBytes m1.ping_mac m1.word 0 n h1.ping;
      pong = h1.pong;
      phy = h1.phy;
    } in
    Ensures-if IsTypedMac (not_eq (bit_and word program_mask) 0)
      (Ensures->> IsTypedMac (defined (leb n 6)) (
        Ensures-ok IsTypedMac (
          set_word-IsTyped (record m1 { ping_mac = mac' }) tx_ping_tsr _ programmed
            (bit_and-lt 32 word (not32 prog_mac_addr) hw))))
      (Ensures-ok IsTypedMac h1)

write_pong_tsr-IsTyped :
    (m : Mac) (word : ℕ) → IsTypedMac m → word < 2 ^ 32 → Ensures IsTypedMac (write_pong_tsr m word)
unfolding write_pong_tsr
write_pong_tsr-IsTyped m word h hw =
    let h1 = set_word-IsTyped m tx_pong_tsr word h hw in
    let m1 = set_word m tx_pong_tsr word in
    let n = m1.word (tx_pong_tplr / 4) in
    let mac' : ℕ → ℕ = copy_mac m1.pong_mac m1.word (tx_pong / 4) n in
    let programmed : IsTypedMac (record m1 { pong_mac = mac' }) = record {
      regs = h1.regs;
      ping = h1.ping;
      pong = copy_mac-IsBytes m1.pong_mac m1.word (tx_pong / 4) n h1.pong;
      phy = h1.phy;
    } in
    Ensures-if IsTypedMac (not_eq (bit_and word prog_mac_addr) 0)
      (Ensures->> IsTypedMac (defined (leb n 6)) (
        Ensures-ok IsTypedMac (
          set_word-IsTyped (record m1 { pong_mac = mac' }) tx_pong_tsr _ programmed
            (bit_and-lt 32 word (not32 prog_mac_addr) hw))))
      (Ensures-ok IsTypedMac h1)

write_mdio_ctrl-IsTyped :
    (m : Mac) (word : ℕ)
    → IsTypedMac m
    → word < 2 ^ 32
    → Ensures IsTypedMac (write_mdio_ctrl m word)
unfolding write_mdio_ctrl clear_mdiosts
write_mdio_ctrl-IsTyped m word h hw =
    let h1 = set_word-IsTyped m mdio_ctrl word h hw in
    let m1 = set_word m mdio_ctrl word in
    Ensures-if IsTypedMac (not_eq (bit_and word mdiosts_mask) 0)
      (Ensures->>= IsTypedMac (mii_transaction m1) (mii_transaction-IsTyped m1 h1) λ m2 h2.
        Ensures-ok IsTypedMac
          (set_word-IsTyped m2 mdio_ctrl _ h2 (bit_and-lt 32 _ (not32 mdiosts_mask) (h2.regs _))))
      (Ensures-ok IsTypedMac h1)

pub mac_write-IsTyped :
    (m : Mac) (addr len word : ℕ)
    → IsTypedMac m
    → word < 2 ^ 32
    → Ensures IsTypedMac (mac_write m addr len word)
unfolding mac_write
mac_write-IsTyped m addr len word h hw = Ensures->> IsTypedMac (cpu_assert (check_mac addr len)) (
    Ensures-if IsTypedMac (addr == tx_ping_tsr) (write_ping_tsr-IsTyped m word h hw) (
      Ensures-if IsTypedMac (addr == tx_pong_tsr) (write_pong_tsr-IsTyped m word h hw) (
        Ensures-if IsTypedMac (addr == mdio_ctrl) (write_mdio_ctrl-IsTyped m word h hw) (
          Ensures-if IsTypedMac (is_plain addr)
            (Ensures-ok IsTypedMac (set_word-IsTyped m addr word h hw))
            (Ensures-abort IsTypedMac)))))

abbrev pub IsWord : ℕ → Type 0
IsWord w = w < 2 ^ 32

pub mac_read-lt : (m : Mac) (addr len : ℕ) → IsTypedMac m → Ensures IsWord (mac_read m addr len)
unfolding mac_read
mac_read-lt m addr len h =
    Ensures->> IsWord (cpu_assert (check_mac addr len))
      (Ensures-if IsWord _ (Ensures-ok IsWord (h.regs (addr / 4))) (Ensures-abort IsWord))

pub serial_write-IsTyped :
    (s : Serial) (addr len word : ℕ)
    → IsTypedSerial s
    → word < 2 ^ 32
    → Ensures IsTypedSerial (serial_write s addr len word)
unfolding serial_write
serial_write-IsTyped s addr len word h hw =
    Ensures->> IsTypedSerial (cpu_assert (leb addr serial_size)) (
      Ensures-if IsTypedSerial (addr == uartlite_tx)
        (Ensures-ok IsTypedSerial
          (record { queue = h.queue; front = h.front; rear = h.rear; ctrl = h.ctrl }))
        (Ensures-if IsTypedSerial (addr == uartlite_ctrl)
          (Ensures-ok IsTypedSerial
            (record { queue = h.queue; front = h.front; rear = h.rear; ctrl = hw }))
          (Ensures-abort IsTypedSerial)))

serial_peek-lt :
    (s : Serial) (addr len : ℕ) → IsTypedSerial s → Ensures IsWord (serial_peek s addr len)
unfolding serial_peek
serial_peek-lt s addr len h = Ensures->> IsWord (cpu_assert (leb addr serial_size)) (
    Ensures-if IsWord (addr == uartlite_rx) (Ensures-ok IsWord (h.queue s.serial_f)) (
      Ensures-if IsWord (addr == uartlite_stat)
        (Ensures-ok IsWord
          (if-ensures IsWord (s.serial_f == s.serial_r) (omega arith) (omega arith)))
        (Ensures-if IsWord (addr == uartlite_ctrl) (Ensures-ok IsWord h.ctrl)
          (Ensures-abort IsWord))))

abbrev pub IsReading : ℕ × Serial → Type 0
IsReading r = (r.0 < 2 ^ 32) × IsTypedSerial r.1

pub serial_read-IsTyped :
    (s : Serial) (addr len : ℕ) → IsTypedSerial s → Ensures IsReading (serial_read s addr len)
unfolding serial_read
serial_read-IsTyped s addr len h = Ensures->> IsReading (cpu_assert (leb addr serial_size)) (
    Ensures->>= IsReading (serial_peek s addr len) (serial_peek-lt s addr len h) λ w hw.
      Ensures-ok IsReading (
        hw,
        if-ensures IsTypedSerial (addr == uartlite_rx && not_eq s.serial_f s.serial_r)
            (record { queue = h.queue; front = omega arith; rear = h.rear; ctrl = h.ctrl }) h,
      ))
