-- ===== src/Mac/Layout.antt =====
-- The bounds of the Ethernet controller's state (src/dev/mac.c): what an access may touch.
use nemu_riscv.Base.{ℕ, ◌+◌, ◌*◌, ◌/◌, ◌≤◌, ◌<◌, ◌≡◌, ◌≢◌, ◌∙◌, refl, arith}
use nemu_riscv.Base.{
  List, [], ◌∷◌, ok, Ensures, Ensures-ok, Ensures->>=, Ensures->>, Ensures-if, Ensures-abort,
}
use nemu_riscv.Base.{
  if-ensures, Bool-cases, inl, inr, ◌==◌, not_eq, true, false, bit_and, u16, cpu_assert,
}
use nemu_riscv.Mac.{
  Mac, mac_read, mac_write, write_ping_tsr, write_pong_tsr, write_mdio_ctrl, set_word,
}
use nemu_riscv.Mac.{
  set_phy, init_phy, mii_write, mii_transaction, clear_mdiosts, copy_mac, check_mac,
}
use nemu_riscv.Mac.{active_phy, is_plain}
use nemu_riscv.Mac.{
  tx_ping_tsr as ping_tsr, tx_pong_tsr as pong_tsr, mdio_ctrl, mdiosts_mask, mdio_op, mdio_addr,
  mdio_rd, mdio_wr, phyaddr, regnum,
}

-- The members of `struct emaclite_regs`.
pub data Member : Type 0 where
  tx_ping reserved1 mdioaddr mdiowr mdiord mdioctrl tx_ping_tplr global_interrupt : Member
  tx_ping_tsr tx_pong reserved2 tx_pong_tplr reserved3 tx_pong_tsr rx_ping reserved4 : Member
  rx_ping_rsr rx_pong reserved5 rx_pong_rsr : Member

-- The members in their order, with the number of `u32`s that each takes.
abbrev pub emaclite_regs : List (Member × ℕ)
emaclite_regs =
    (tx_ping, 1)
    ∷ (reserved1, 504)
    ∷ (mdioaddr, 1)
    ∷ (mdiowr, 1)
    ∷ (mdiord, 1)
    ∷ (mdioctrl, 1)
    ∷ (tx_ping_tplr, 1)
    ∷ (global_interrupt, 1)
    ∷ (tx_ping_tsr, 1)
    ∷ (tx_pong, 1)
    ∷ (reserved2, 508)
    ∷ (tx_pong_tplr, 1)
    ∷ (reserved3, 1)
    ∷ (tx_pong_tsr, 1)
    ∷ (rx_ping, 1)
    ∷ (reserved4, 510)
    ∷ (rx_ping_rsr, 1)
    ∷ (rx_pong, 1)
    ∷ (reserved5, 510)
    ∷ (rx_pong_rsr, 1)
    ∷ []

-- Each member with the byte offset at which it starts, and the size of the whole in words.
abbrev pub placed_from : ℕ → List (Member × ℕ) → List (Member × ℕ)
placed_from start [] = []
placed_from start (x ∷ rest) = (x.0, start * 4) ∷ placed_from (start + x.1) rest

abbrev pub words_of : List (Member × ℕ) → ℕ
words_of [] = 0
words_of (x ∷ rest) = x.1 + words_of rest

-- The offsets are the addresses of the `#define`s, by which Mac names the registers.
placed :
    placed_from 0 emaclite_regs
    ≡ (tx_ping, 0x0)
      ∷ (reserved1, 0x4)
      ∷ (mdioaddr, 0x7e4)
      ∷ (mdiowr, 0x7e8)
      ∷ (mdiord, 0x7ec)
      ∷ (mdioctrl, 0x7f0)
      ∷ (tx_ping_tplr, 0x7f4)
      ∷ (global_interrupt, 0x7f8)
      ∷ (tx_ping_tsr, 0x7fc)
      ∷ (tx_pong, 0x800)
      ∷ (reserved2, 0x804)
      ∷ (tx_pong_tplr, 0xff4)
      ∷ (reserved3, 0xff8)
      ∷ (tx_pong_tsr, 0xffc)
      ∷ (rx_ping, 0x1000)
      ∷ (reserved4, 0x1004)
      ∷ (rx_ping_rsr, 0x17fc)
      ∷ (rx_pong, 0x1800)
      ∷ (reserved5, 0x1804)
      ∷ (rx_pong_rsr, 0x1ffc)
      ∷ []
placed = refl

size : words_of emaclite_regs ≡ 0x800
size = refl

-- What an operation may change: the registers inside the struct, the six bytes of each address, and
-- the registers of the one PHY.
pub record StaysWithin (m m' : Mac) : Type 0 where
  pub regs : (i : ℕ) → words_of emaclite_regs ≤ i → m'.word i ≡ m.word i
  pub ping : (i : ℕ) → 6 ≤ i → m'.ping_mac i ≡ m.ping_mac i
  pub pong : (i : ℕ) → 6 ≤ i → m'.pong_mac i ≡ m.pong_mac i
  pub phys : (p r : ℕ) → p ≢ active_phy → m'.phy_regs p r ≡ m.phy_regs p r

same : (m : Mac) → StaysWithin m m
same m = ground arith

both : (m n k : Mac) → StaysWithin m n → StaysWithin n k → StaysWithin m k
both m n k h g = record {
  regs = λ i p. g.regs i p ∙ h.regs i p;
  ping = λ i p. g.ping i p ∙ h.ping i p;
  pong = λ i p. g.pong i p ∙ h.pong i p;
  phys = λ p r ne. g.phys p r ne ∙ h.phys p r ne;
}

set_word-within : (m : Mac) (a v : ℕ) → a < 0x2000 → StaysWithin m (set_word m a v)
unfolding set_word
set_word-within m a v h = ground arith

set_phy-within : (m : Mac) (reg v : ℕ) → StaysWithin m (set_phy m active_phy reg v)
unfolding set_phy
set_phy-within m reg v = ground arith

init_phy-within : (m : Mac) → StaysWithin m (init_phy m)
unfolding init_phy set_phy
init_phy-within m = if-ensures (StaysWithin m) m.inited (same m) (record {
  regs = λ i p. refl;
  ping = λ i p. refl;
  pong = λ i p. refl;
  phys = λ p r ne. let other : (active_phy == p) ≡ false = ground arith in rw other refl;
})

mii_write-within : (m : Mac) (phy reg w : ℕ) → Ensures (StaysWithin m) (mii_write m phy reg w)
unfolding mii_write
mii_write-within m phy reg w = elim (Bool-cases (not_eq phy active_phy)) [
  | inl other ↦ rw other (Ensures-ok (StaysWithin m) (same m))
  | inr active ↦
      let here : phy ≡ active_phy = ground arith in
      rw here (
        Ensures-if (StaysWithin m) (reg == 0)
          (Ensures-ok (StaysWithin m) (
            if-ensures (StaysWithin m) (not_eq (bit_and w 0x8000) 0) (set_phy-within m 1 _)
              (set_phy-within m reg w)))
          (Ensures-abort (StaysWithin m)))
]

mii_transaction-within : (m : Mac) → Ensures (StaysWithin m) (mii_transaction m)
unfolding mii_transaction
mii_transaction-within m =
    let ready = init_phy m in
    Ensures-if (StaysWithin m) (mdio_op (ready.word (mdio_addr / 4)) == 0)
      (λ r e. both m ready r (init_phy-within m) (
        mii_write-within ready (phyaddr (ready.word (mdio_addr / 4)))
          (regnum (ready.word (mdio_addr / 4))) (u16 (ready.word (mdio_wr / 4))) r e))
      (Ensures-ok (StaysWithin m)
        (both m ready _ (init_phy-within m) (set_word-within ready mdio_rd _ (omega arith))))

write_ping_tsr-within : (m : Mac) (w : ℕ) → Ensures (StaysWithin m) (write_ping_tsr m w)
unfolding write_ping_tsr set_word copy_mac
write_ping_tsr-within m w r e = ground arith

write_pong_tsr-within : (m : Mac) (w : ℕ) → Ensures (StaysWithin m) (write_pong_tsr m w)
unfolding write_pong_tsr set_word copy_mac
write_pong_tsr-within m w r e = ground arith

write_mdio_ctrl-within : (m : Mac) (w : ℕ) → Ensures (StaysWithin m) (write_mdio_ctrl m w)
unfolding write_mdio_ctrl clear_mdiosts
write_mdio_ctrl-within m w =
    let stored = set_word m mdio_ctrl w in
    let first = set_word-within m mdio_ctrl w (omega arith) in
    Ensures-if (StaysWithin m) (not_eq (bit_and w mdiosts_mask) 0)
      (Ensures->>= (StaysWithin m) (mii_transaction stored) (mii_transaction-within stored) λ t h.
        Ensures-ok (StaysWithin m)
          (both m stored _ first (both stored t _ h (set_word-within t mdio_ctrl _ (omega arith)))))
      (Ensures-ok (StaysWithin m) first)

is_plain-lt : (addr : ℕ) → is_plain addr ≡ true → addr < 0x2000
is_plain-lt addr h = ground arith

mac_write-within : (m : Mac) (addr len w : ℕ) → Ensures (StaysWithin m) (mac_write m addr len w)
unfolding mac_write
mac_write-within m addr len w = Ensures->> (StaysWithin m) (cpu_assert (check_mac addr len)) (
    Ensures-if (StaysWithin m) (addr == ping_tsr) (write_ping_tsr-within m w) (
      Ensures-if (StaysWithin m) (addr == pong_tsr) (write_pong_tsr-within m w) (
        Ensures-if (StaysWithin m) (addr == mdio_ctrl) (write_mdio_ctrl-within m w)
          (elim (Bool-cases (is_plain addr)) [
            | inl plain ↦
                rw plain
                  (Ensures-ok (StaysWithin m) (set_word-within m addr w (is_plain-lt addr plain)))
            | inr unknown ↦ rw unknown (Ensures-abort (StaysWithin m))
          ]))))

abbrev IsRegister : Mac → ℕ → ℕ → Type 0
IsRegister m addr v = (addr / 4 < words_of emaclite_regs) × (v ≡ m.word (addr / 4))

-- A read that returns gives a register inside the struct.
mac_read-IsRegister : (m : Mac) (addr len : ℕ) → Ensures (IsRegister m addr) (mac_read m addr len)
unfolding mac_read
mac_read-IsRegister m addr len v e = ground arith

-- Whatever the address, the length and the data: a write that returns has changed no register past
-- the end of the struct (the region of the device is eight times as long), no byte past the six of
-- either station address, and no PHY but the active one.
pub mac_write-StaysWithin :
    (m m' : Mac) (addr len w : ℕ) → mac_write m addr len w ≡ ok m' → StaysWithin m m'
mac_write-StaysWithin m m' addr len w e = mac_write-within m addr len w m' e
