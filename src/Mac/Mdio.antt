-- ===== src/Mac/Mdio.antt =====
-- Reading a PHY register through the MDIO registers of src/dev/mac.c, as the emaclite driver does.
use nemu_riscv.Base.{ℕ, ◌+◌, ◌*◌, ◌/◌, ◌%◌, ◌^◌, ◌<◌, ◌≡◌, ◌∙◌, refl, sym, ap, arith}
use nemu_riscv.Base.{
  not_eq, bit_and_mask, bit_and-even, cpu_assert, if◌then◌else◌, ◌==◌, u16, Outcome, ok, ◌>>=◌,
  Bool, true, false, bit_and, Ensures, >>=-eq-ok,
}
use nemu_riscv.Mac.{Mac, mac_read, mac_write, mdio_addr, mdio_ctrl, mdio_rd, mdio_wr, init_phy}
use nemu_riscv.Mac.{write_mdio_ctrl, mii_transaction, mii_write, set_word, set_phy, clear_mdiosts}
use nemu_riscv.Mac.{check_mac, phyaddr, regnum, mdio_op}

-- The address word of a read (bit 10), the enable bit, and the start bit.
abbrev pub mdio_read : ℕ → ℕ → ℕ
mdio_read phy reg = 2 ^ 10 + phy * 2 ^ 5 + reg

abbrev pub read_phy : Mac → ℕ → ℕ → Outcome (ℕ × ℕ)
read_phy m phy reg = do
  m1 ← mac_write m mdio_addr 4 (mdio_read phy reg)
  m2 ← mac_write m1 mdio_ctrl 4 0x9
  status ← mac_read m2 mdio_ctrl 4
  value ← mac_read m2 mdio_rd 4
  ok (status, value)

if-apply :
    (b : Bool) (f : Mac → Mac) (x y : Mac) → f (if b then x else y) ≡ (if b then f x else f y)
if-apply true f x y = refl
if-apply false f x y = refl

init_phy-set_word : (m : Mac) (a v : ℕ) → set_word (init_phy m) a v ≡ init_phy (set_word m a v)
unfolding init_phy set_phy set_word
init_phy-set_word m a v = if-apply m.inited (λ t. set_word t a v) m _

-- `mii_transaction` once the PHY's registers are there.
abbrev command : Mac → Outcome Mac
command m =
    let phy = phyaddr (m.word (mdio_addr / 4)) in
    let reg = regnum (m.word (mdio_addr / 4)) in
    if mdio_op (m.word (mdio_addr / 4)) == 0
    then mii_write m phy reg (u16 (m.word (mdio_wr / 4)))
    else ok (set_word m mdio_rd (m.phy_regs phy reg))

mii_transaction-command : (m : Mac) → mii_transaction m ≡ command (init_phy m)
unfolding mii_transaction
mii_transaction-command m = refl

command-read :
    (m : Mac) (phy reg : ℕ)
    → phy < 32
    → reg < 32
    → m.word (mdio_addr / 4) ≡ mdio_read phy reg
    → command m ≡ ok (set_word m mdio_rd (m.phy_regs phy reg))
command-read m phy reg hp hr h =
    let p : phyaddr (m.word (mdio_addr / 4)) ≡ phy = rw h (omega arith) in
    let r : regnum (m.word (mdio_addr / 4)) ≡ reg = rw h (omega arith) in
    let o : mdio_op (m.word (mdio_addr / 4)) ≡ 1 = rw h (omega arith) in rw (p, r, o) refl

-- The driver's two writes.
abbrev started : Mac → ℕ → ℕ → Mac
started m phy reg = set_word (set_word m mdio_addr (mdio_read phy reg)) mdio_ctrl 0x9

started-transaction :
    (m : Mac) (phy reg : ℕ)
    → phy < 32
    → reg < 32
    → mii_transaction (started m phy reg)
      ≡ ok (set_word (started (init_phy m) phy reg) mdio_rd ((init_phy m).phy_regs phy reg))
unfolding set_word
started-transaction m phy reg hp hr =
    let moved : init_phy (started m phy reg) ≡ started (init_phy m) phy reg =
      sym (init_phy-set_word (set_word m mdio_addr (mdio_read phy reg)) mdio_ctrl 0x9)
      ∙ ap (λ t. set_word t mdio_ctrl 0x9)
          (sym (init_phy-set_word m mdio_addr (mdio_read phy reg))) in
    mii_transaction-command (started m phy reg)
    ∙ ap command moved
    ∙ command-read (started (init_phy m) phy reg) phy reg hp hr refl

-- For numbers of a PHY and of a register below 32: writing the address word and the start bit
-- performs the transaction. The control register then reads as idle, with its enable bit, and the
-- data register holds the PHY's register.
pub read_phy_lem :
    (m : Mac) (phy reg : ℕ)
    → phy < 32
    → reg < 32
    → read_phy m phy reg ≡ ok (0x8, (init_phy m).phy_regs phy reg)
unfolding mac_write mac_read write_mdio_ctrl set_word clear_mdiosts
read_phy_lem m phy reg hp hr = rw (started-transaction m phy reg hp hr) refl

cleared-idle : (m : Mac) → (clear_mdiosts m).word (mdio_ctrl / 4) % 2 ≡ 0
unfolding clear_mdiosts set_word
cleared-idle m = bit_and-even (m.word (mdio_ctrl / 4)) _ refl

-- What `write_mdio_ctrl` does after the store, by the status bit written.
abbrev transact : Bool → Mac → Outcome Mac
transact starts m = if starts then (mii_transaction m >>= λ m'. ok (clear_mdiosts m')) else ok m

transact-idle :
    (starts : Bool) (m : Mac)
    → (starts ≡ false → m.word (mdio_ctrl / 4) % 2 ≡ 0)
    → Ensures (λ m'. m'.word (mdio_ctrl / 4) % 2 ≡ 0) (transact starts m)
transact-idle true m h m' e =
    let (t, e1, e2) = >>=-eq-ok (mii_transaction m) e in
    let same : clear_mdiosts t ≡ m' = cc in rw (← same) (cleared-idle t)
transact-idle false m h m' e = let same : m ≡ m' = cc in rw (← same) (h refl)

write_mdio_ctrl-idle :
    (m : Mac) (v : ℕ) → Ensures (λ m'. m'.word (mdio_ctrl / 4) % 2 ≡ 0) (write_mdio_ctrl m v)
unfolding write_mdio_ctrl set_word
write_mdio_ctrl-idle m v =
    let low : bit_and v 0x1 ≡ v % 2 = bit_and_mask 1 v in
    transact-idle (not_eq (bit_and v 0x1) 0) (set_word m mdio_ctrl v) (λ e. ground arith)

-- Whatever is written to the control register, and whatever transaction that starts: if the write
-- returns, the status bit is clear, so a driver that polls it does not wait.
pub mac_write-idle :
    (m : Mac) (len v : ℕ) (m' : Mac)
    → mac_write m mdio_ctrl len v ≡ ok m'
    → m'.word (mdio_ctrl / 4) % 2 ≡ 0
unfolding mac_write
mac_write-idle m len v m' e =
    let (u, e1, e2) = >>=-eq-ok (cpu_assert (check_mac mdio_ctrl len)) e in
    write_mdio_ctrl-idle m v m' e2
