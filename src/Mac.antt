-- ===== src/Mac.antt =====
-- The Ethernet controller of src/dev/mac.c (emaclite protocol): its register file, the MDIO
-- transactions with the PHY, and the two station addresses. `struct emaclite_regs` is an array of
-- `u32`s: the register at byte offset `a` is `word (a / 4)`. The `printf`s that trace the accesses
-- are left out.
mod Mii
pub mod Mdio
pub mod Station
pub mod Layout
use nemu_riscv.Base.{ℕ, ◌+◌, ◌-◌, ◌*◌, ◌/◌, ◌%◌, ◌^◌, Bool, true, ◌&&◌, ◌||◌, ◌==◌, not_eq}
use nemu_riscv.Base.{ltb, leb, if◌then◌else◌, update, u16, u32, bit_and, bit_or, not32, shr}
use nemu_riscv.Mac.Mii.{
  phy_detect_reg, phy_detect_mask, mii_bmcr, mii_bmsr, mii_physid1, mii_physid2, mii_advertise,
  mii_lpa, bmcr_fulldplx, bmcr_anenable, bmcr_speed100, bmcr_reset, bmsr_ercap, bmsr_lstatus,
  bmsr_anegcapable, bmsr_anegcomplete, bmsr_10half, bmsr_10full, bmsr_100half, bmsr_100full,
  advertise_csma, advertise_10half, advertise_10full, advertise_100half, advertise_100full,
  lpa_10half, lpa_10full, lpa_100half, lpa_1000xpause_asym, lpa_pause_cap, lpa_pause_asym,
  lpa_lpack,
}
use nemu_riscv.Base.{Outcome, ok, abort, ◌>>=◌, ◌>>◌, cpu_assert, defined}

-- Byte offsets of the registers.
abbrev pub mdio_addr : ℕ
mdio_addr = 0x7e4

abbrev pub mdio_wr : ℕ
mdio_wr = 0x7e8

abbrev pub mdio_rd : ℕ
mdio_rd = 0x7ec

abbrev pub mdio_ctrl : ℕ
mdio_ctrl = 0x7f0

abbrev pub tx_ping_tplr : ℕ
tx_ping_tplr = 0x7f4

abbrev pub tx_ping_tsr : ℕ
tx_ping_tsr = 0x7fc

abbrev pub tx_pong : ℕ
tx_pong = 0x800

abbrev pub tx_pong_tplr : ℕ
tx_pong_tplr = 0xff4

abbrev pub tx_pong_tsr : ℕ
tx_pong_tsr = 0xffc

abbrev pub rx_ping : ℕ
rx_ping = 0x1000

abbrev pub rx_ping_rsr : ℕ
rx_ping_rsr = 0x17fc

abbrev pub rx_pong : ℕ
rx_pong = 0x1800

abbrev pub rx_pong_rsr : ℕ
rx_pong_rsr = 0x1ffc

abbrev pub mac_size : ℕ
mac_size = 0x10000

-- XEL_TSR_PROGRAM_MASK, XEL_TSR_PROG_MAC_ADDR and XEL_MDIOCTRL_MDIOSTS_MASK
abbrev pub program_mask : ℕ
program_mask = 0x2

abbrev pub prog_mac_addr : ℕ
prog_mac_addr = 0x3

abbrev pub mdiosts_mask : ℕ
mdiosts_mask = 0x1

pub record Mac : Type 0 where
  pub word : ℕ → ℕ  -- `regs`
  pub ping_mac : ℕ → ℕ
  pub pong_mac : ℕ → ℕ
  pub phy_regs : ℕ → ℕ → ℕ
  pub inited : Bool

abbrev pub active_phy : ℕ
active_phy = 1

unfoldable pub set_word : Mac → ℕ → ℕ → Mac
set_word m a v = record m { word = update m.word (a / 4) v }

unfoldable pub set_phy : Mac → ℕ → ℕ → ℕ → Mac
set_phy m phy reg v = record m { phy_regs = update m.phy_regs phy (update (m.phy_regs phy) reg v) }

-- The first transaction fills the registers of the one PHY that is there.
unfoldable pub init_phy : Mac → Mac
unfolding set_phy
init_phy m =
    if m.inited
    then m
    else let m = set_phy m active_phy mii_physid1 0x181 in
      let m = set_phy m active_phy mii_physid2 0xb8a0 in
      let m = set_phy m active_phy phy_detect_reg phy_detect_mask in
      let bmcr = bit_or (bit_or bmcr_speed100 bmcr_anenable) bmcr_fulldplx in
      let m = set_phy m active_phy mii_bmcr bmcr in
      let bmsr =
        bit_or
          (bit_or
            (bit_or (bit_or (bit_or (bit_or bmsr_100full bmsr_100half) bmsr_10full) bmsr_10half)
              bmsr_anegcapable)
            bmsr_ercap)
          0x40 in
      let m = set_phy m active_phy mii_bmsr bmsr in
      let advertise =
        bit_or
          (bit_or (bit_or (bit_or advertise_100full advertise_100half) advertise_10full)
            advertise_10half)
          advertise_csma in
      let m = set_phy m active_phy mii_advertise advertise in
      let lpa =
        bit_or
          (bit_or
            (bit_or
              (bit_or
                (bit_or (bit_or (bit_or lpa_lpack lpa_pause_asym) lpa_pause_cap)
                  lpa_1000xpause_asym)
                lpa_100half)
              lpa_10full)
            lpa_10half)
          0x1 in
      let m = set_phy m active_phy mii_lpa lpa in record m { inited = true }

-- The fields of `mdio_addr_t`.
abbrev pub regnum : ℕ → ℕ
regnum a = a % 2 ^ 5

abbrev pub phyaddr : ℕ → ℕ
phyaddr a = shr a 5 % 2 ^ 5

abbrev pub mdio_op : ℕ → ℕ
mdio_op a = shr a 10 % 2

unfoldable pub mii_write : Mac → ℕ → ℕ → ℕ → Outcome Mac
unfolding set_phy
mii_write m phy reg word =
    if not_eq phy active_phy
    then ok m
    else if reg == mii_bmcr
    then ok (
        if not_eq (bit_and word bmcr_reset) 0
        then set_phy m phy mii_bmsr
            (bit_or (m.phy_regs phy mii_bmsr) (bit_or bmsr_anegcomplete bmsr_lstatus))
        else set_phy m phy reg word)
    else abort

unfoldable pub mii_transaction : Mac → Outcome Mac
unfolding init_phy mii_write set_word
mii_transaction m =
    let m = init_phy m in
    let a = m.word (mdio_addr / 4) in
    let phy = phyaddr a in
    let reg = regnum a in
    if mdio_op a == 0
    then mii_write m phy reg (u16 (m.word (mdio_wr / 4)))
    else ok (set_word m mdio_rd (m.phy_regs phy reg))

abbrev pub check_mac : ℕ → ℕ → Bool
check_mac addr len = ltb addr mac_size && leb (u32 (addr + len)) mac_size

-- lo <= a && a <= hi
abbrev pub within : ℕ → ℕ → ℕ → Bool
within lo hi a = leb lo a && leb a hi

unfoldable pub mac_read : Mac → ℕ → ℕ → Outcome ℕ
mac_read m addr len = do
  cpu_assert (check_mac addr len)
  if addr == tx_ping_tsr
        || addr == tx_pong_tsr
        || within rx_ping (rx_ping_rsr - 4) addr
        || within rx_pong (rx_pong_rsr - 4) addr
        || addr == mdio_rd
        || addr == mdio_ctrl
      then ok (m.word (addr / 4))
      else abort

-- `memcpy(&mac.addr[0], &regs.buffer, n)` into the six bytes of a `mac_addr_t`; `base` is the index
-- of the buffer's first word.
unfoldable pub copy_mac : (ℕ → ℕ) → (ℕ → ℕ) → ℕ → ℕ → ℕ → ℕ
copy_mac mac word base n i =
    if ltb i n then shr (word (base + i / 4)) (8 * (i % 4)) % 256 else mac i

unfoldable pub write_ping_tsr : Mac → ℕ → Outcome Mac
unfolding set_word copy_mac
write_ping_tsr m word =
    let m = set_word m tx_ping_tsr word in
    let n = m.word (tx_ping_tplr / 4) in
    let programmed = record m { ping_mac = copy_mac m.ping_mac m.word 0 n } in
    if not_eq (bit_and word program_mask) 0
    then (defined (leb n 6)
        >> ok (set_word programmed tx_ping_tsr (bit_and word (not32 prog_mac_addr))))
    else ok m

unfoldable pub write_pong_tsr : Mac → ℕ → Outcome Mac
unfolding set_word copy_mac
write_pong_tsr m word =
    let m = set_word m tx_pong_tsr word in
    let n = m.word (tx_pong_tplr / 4) in
    let programmed = record m { pong_mac = copy_mac m.pong_mac m.word (tx_pong / 4) n } in
    if not_eq (bit_and word prog_mac_addr) 0
    then (defined (leb n 6)
        >> ok (set_word programmed tx_pong_tsr (bit_and word (not32 prog_mac_addr))))
    else ok m

unfoldable pub clear_mdiosts : Mac → Mac
unfolding set_word
clear_mdiosts m = set_word m mdio_ctrl (bit_and (m.word (mdio_ctrl / 4)) (not32 mdiosts_mask))

unfoldable pub write_mdio_ctrl : Mac → ℕ → Outcome Mac
unfolding set_word mii_transaction clear_mdiosts
write_mdio_ctrl m word =
    let m = set_word m mdio_ctrl word in
    if not_eq (bit_and word mdiosts_mask) 0
    then (mii_transaction m >>= λ m'. ok (clear_mdiosts m'))
    else ok m

-- The registers that are only stored.
abbrev pub is_plain : ℕ → Bool
is_plain addr =
    addr == tx_ping_tplr
    || addr == tx_pong_tplr
    || within 0 (mdio_addr - 4) addr
    || within tx_pong (tx_pong_tplr - 4) addr
    || addr == rx_ping_rsr
    || addr == rx_pong_rsr
    || addr == mdio_addr
    || addr == mdio_wr

unfoldable pub mac_write : Mac → ℕ → ℕ → ℕ → Outcome Mac
unfolding write_ping_tsr write_pong_tsr write_mdio_ctrl set_word
mac_write m addr len word = do
  cpu_assert (check_mac addr len)
  if addr == tx_ping_tsr
      then write_ping_tsr m word
      else if addr == tx_pong_tsr
      then write_pong_tsr m word
      else if addr == mdio_ctrl
      then write_mdio_ctrl m word
      else if is_plain addr
      then ok (set_word m addr word)
      else abort
