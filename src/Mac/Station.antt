-- ===== src/Mac/Station.antt =====
-- Programming the station address through the transmit buffers of src/dev/mac.c, as the emaclite
-- driver does: six bytes into the buffer, the length, then the two program bits of the status
-- register.
use nemu_riscv.Base.{ℕ, zero, suc, ◌+◌, ◌-◌, ◌*◌, ◌/◌, ◌%◌, ◌^◌, ◌≤◌, ◌<◌, ◌≡◌, refl, ap, arith}
use native.Mathlib.Nat.{add-zero}
use nemu_riscv.Base.{
  update, true, Bool-cases, ◌⊎◌, inl, inr, bit_and, bit_and_mask, and_digit, Outcome, ok, fault,
  ◌>>=◌, leb, shr,
}
use nemu_riscv.Ram.Access.{IsBytes}
use nemu_riscv.Mac.{Mac, mac_read, mac_write, tx_ping_tplr, tx_ping_tsr, tx_pong, tx_pong_tplr}
use nemu_riscv.Mac.{tx_pong_tsr, write_ping_tsr, write_pong_tsr, set_word, copy_mac}

-- The two words that hold six bytes, and what the driver reads back of the status.
abbrev pub first_word : (ℕ → ℕ) → ℕ
first_word b = b 0 + b 1 * 2 ^ 8 + b 2 * 2 ^ 16 + b 3 * 2 ^ 24

abbrev pub second_word : (ℕ → ℕ) → ℕ
second_word b = b 4 + b 5 * 2 ^ 8

abbrev pub program_ping : Mac → (ℕ → ℕ) → ℕ → Outcome Mac
program_ping m b status = do
  m1 ← mac_write m 0 4 (first_word b)
  m2 ← mac_write m1 4 4 (second_word b)
  m3 ← mac_write m2 tx_ping_tplr 4 6
  mac_write m3 tx_ping_tsr 4 (status * 4 + 3)

abbrev pub program_pong : Mac → (ℕ → ℕ) → ℕ → Outcome Mac
program_pong m b status = do
  m1 ← mac_write m tx_pong 4 (first_word b)
  m2 ← mac_write m1 (tx_pong + 4) 4 (second_word b)
  m3 ← mac_write m2 tx_pong_tplr 4 6
  mac_write m3 tx_pong_tsr 4 (status * 4 + 3)

-- A set low bit over a clear one, and over a set one.
and_clear : (x y : ℕ) → bit_and (x * 2 + 1) (y * 2) ≡ bit_and x y * 2
and_clear x y =
    let left : (x * 2 + 1) / 2 ≡ x = omega arith in
    let right : y * 2 / 2 ≡ y = omega arith in
    omega (arith, rw (left, right) at (and_digit (x * 2 + 1) (y * 2)))

and_set : (x y : ℕ) → bit_and (x * 2 + 1) (y * 2 + 1) ≡ bit_and x y * 2 + 1
and_set x y =
    let left : (x * 2 + 1) / 2 ≡ x = omega arith in
    let right : (y * 2 + 1) / 2 ≡ y = omega arith in
    omega (arith, rw (left, right) at (and_digit (x * 2 + 1) (y * 2 + 1)))

halves : (x : ℕ) → x * 4 + 3 ≡ (x * 2 + 1) * 2 + 1
halves x = omega arith

-- `x & ~3` of a 32-bit word.
bit_and-clear_low : (x : ℕ) → x < 2 ^ 30 → bit_and (x * 4 + 3) (2 ^ 32 - 1 - 3) ≡ x * 4
bit_and-clear_low x h =
    rw (halves x, and_clear (x * 2 + 1) (2 ^ 31 - 2), and_clear x (2 ^ 30 - 1), bit_and_mask 30 x)
      (omega arith)

bit_and-program : (x : ℕ) → bit_and (x * 4 + 3) 0x2 ≡ 2
bit_and-program x =
    rw (halves x, and_clear (x * 2 + 1) 1, and_set x 0, bit_and_mask 0 x) (omega arith)

bit_and-either : (x : ℕ) → bit_and (x * 4 + 3) 0x3 ≡ 3
bit_and-either x = rw (bit_and_mask 2 (x * 4 + 3)) (omega arith)

-- The bytes that the copy takes.
copy-bytes :
    (mac word : ℕ → ℕ) (base : ℕ) (b : ℕ → ℕ)
    → IsBytes b
    → word base ≡ first_word b
    → word (base + 1) ≡ second_word b
    → (i : ℕ) → i < 6
    → copy_mac mac word base 6 i ≡ b i
unfolding copy_mac
copy-bytes mac word base b h e0 e1 zero p = rw (add-zero, e0) (omega (arith, h 0, h 1, h 2, h 3))
copy-bytes mac word base b h e0 e1 (suc zero) p =
    rw (add-zero, e0) (omega (arith, h 0, h 1, h 2, h 3))
copy-bytes mac word base b h e0 e1 (suc (suc zero)) p =
    rw (add-zero, e0) (omega (arith, h 0, h 1, h 2, h 3))
copy-bytes mac word base b h e0 e1 (suc (suc (suc zero))) p =
    rw (add-zero, e0) (omega (arith, h 0, h 1, h 2, h 3))
copy-bytes mac word base b h e0 e1 (suc (suc (suc (suc zero)))) p = rw e1 (omega (arith, h 4, h 5))
copy-bytes mac word base b h e0 e1 (suc (suc (suc (suc (suc zero))))) p =
    rw e1 (omega (arith, h 4, h 5))
copy-bytes mac word base b h e0 e1 (suc (suc (suc (suc (suc (suc i)))))) p = absurd (omega arith)

-- The state that a programming of the address of six bytes leaves.
abbrev pub Programmed : Outcome Mac → ℕ → (Mac → ℕ → ℕ) → (Mac → ℕ → ℕ) → Mac → (ℕ → ℕ) → ℕ → Type 0
Programmed o tsr addr other m b status =
    (m' : Mac) × (o ≡ ok m')
    × ((i : ℕ) → i < 6 → addr m' i ≡ b i)
    × (other m' ≡ other m)
    × (mac_read m' tsr 4 ≡ ok (status * 4))

module _ (m : Mac) (b : ℕ → ℕ) (status : ℕ) (hb : IsBytes b) (hs : status < 2 ^ 30) where
  -- The registers as the copy finds them.
  filled : ℕ → ℕ → ℕ → ℕ → ℕ
  filled base tplr tsr =
      update
        (update (update (update m.word (base / 4) (first_word b)) ((base + 4) / 4) (second_word b))
          (tplr / 4) 6)
        (tsr / 4) (status * 4 + 3)

  program_ping_lem :
      Programmed
        (program_ping m b status)
        tx_ping_tsr
        (λ t. t.ping_mac)
        (λ t. t.pong_mac)
        m
        b
        status
  unfolding mac_write mac_read write_ping_tsr set_word filled
  program_ping_lem = rw (bit_and-program status) (
    _,
    refl,
    copy-bytes m.ping_mac (filled 0 tx_ping_tplr tx_ping_tsr) 0 b hb refl refl,
    refl,
    ap ok (bit_and-clear_low status hs),
  )

  program_pong_lem :
      Programmed
        (program_pong m b status)
        tx_pong_tsr
        (λ t. t.pong_mac)
        (λ t. t.ping_mac)
        m
        b
        status
  unfolding mac_write mac_read write_pong_tsr set_word filled
  program_pong_lem = rw (bit_and-either status) (
    _,
    refl,
    copy-bytes m.pong_mac (filled tx_pong tx_pong_tplr tx_pong_tsr) (tx_pong / 4) b hb refl refl,
    refl,
    ap ok (bit_and-clear_low status hs),
  )

-- Six bytes written into either transmit buffer, the length 6, and a status word with both program
-- bits become the station address of that buffer. The other address stays, and the status register
-- then reads as it was written with these two bits cleared, which is what the driver waits for.
pub program_address :
    (m : Mac) (b : ℕ → ℕ) (status : ℕ)
    → IsBytes b
    → status < 2 ^ 30
    → Programmed
        (program_ping m b status)
        tx_ping_tsr
        (λ t. t.ping_mac)
        (λ t. t.pong_mac)
        m
        b
        status
      × Programmed
          (program_pong m b status)
          tx_pong_tsr
          (λ t. t.pong_mac)
          (λ t. t.ping_mac)
          m
          b
          status
program_address m b status hb hs =
    (program_ping_lem m b status hb hs, program_pong_lem m b status hb hs)

-- Byte `i` of a buffer.
abbrev pub buffer_byte : Mac → ℕ → ℕ → ℕ
buffer_byte m base i = shr (m.word (base / 4 + i / 4)) (8 * (i % 4)) % 256

-- What the pong buffer does with a short frame.
short_frame :
    (m : Mac)
    → m.word (tx_pong_tplr / 4) ≤ 6
    → (m' : Mac) × (mac_write m tx_pong_tsr 4 1 ≡ ok m')
      × ((i : ℕ) → i < m.word (tx_pong_tplr / 4) → m'.pong_mac i ≡ buffer_byte m tx_pong i)
      × (mac_read m' tx_pong_tsr 4 ≡ ok 0)
unfolding mac_write mac_read write_pong_tsr set_word copy_mac
short_frame m short =
    let fits : leb (m.word (tx_pong_tplr / 4)) 6 ≡ true = ground arith in
    rw fits (_, refl, (λ i below. ground arith), refl)

-- The driver's transmission of a frame sets the busy bit alone. In the ping buffer that only stores
-- the bit, which then reads as set. In the pong buffer it is taken for the programming of an
-- address: with a length of at most 6 the frame's first bytes become the address, that many, and
-- the status reads as 0; with a longer frame the copy leaves the six bytes of the address, which is
-- undefined.
pub transmit_busy :
    (m : Mac)
    → (mac_write m tx_ping_tsr 4 1 ≡ ok (set_word m tx_ping_tsr 1))
      × (mac_read (set_word m tx_ping_tsr 1) tx_ping_tsr 4 ≡ ok 1)
      × (((m.word (tx_pong_tplr / 4) ≤ 6)
            × (m' : Mac) × (mac_write m tx_pong_tsr 4 1 ≡ ok m')
            × ((i : ℕ) → i < m.word (tx_pong_tplr / 4) → m'.pong_mac i ≡ buffer_byte m tx_pong i)
            × (mac_read m' tx_pong_tsr 4 ≡ ok 0))
          ⊎ ((6 < m.word (tx_pong_tplr / 4)) × (mac_write m tx_pong_tsr 4 1 ≡ fault)))
unfolding mac_write mac_read write_ping_tsr write_pong_tsr set_word
transmit_busy m = (
  refl,
  refl,
  elim (Bool-cases (leb (m.word (tx_pong_tplr / 4)) 6)) [
    | inl fits ↦
        let short : m.word (tx_pong_tplr / 4) ≤ 6 = ground arith in
        let (m', e, copied, idle) = short_frame m short in inl (short, m', e, copied, idle)
    | inr wide ↦ let long : 6 < m.word (tx_pong_tplr / 4) = ground arith in inr (long, ground arith)
  ],
)
