-- ===== src/Address/Laws.antt =====
-- What `prot_addr` does to an address (include/memory.h).
use nemu_riscv.Base.{ℕ, ◌+◌, ◌%◌, ◌^◌, ◌<◌, ◌≡◌, arith, bit_and_mask, true, false}
use nemu_riscv.Address.{is_unmapped, is_uncached, iomap, prot_addr}

pub iomap_lem : (a : ℕ) → iomap a ≡ a % 2 ^ 29
unfolding iomap
iomap_lem a = bit_and_mask 29 a

-- Below the unmapped segments an address stands for itself.
pub prot_addr_low : (a : ℕ) → a < 0x80000000 → prot_addr a ≡ a
unfolding prot_addr
prot_addr_low a h = ground arith

-- kseg0 (at 0x80000000) and kseg1 (at 0xA0000000) are two windows on the same 512 MB: the physical
-- address `a` is reached through both, and directly. `is_unmapped` holds of the two windows, and
-- `is_uncached` of the second alone.
prot_addr_segments :
    (a : ℕ)
    → a < 2 ^ 29
    → (prot_addr a ≡ a)
      × (prot_addr (0x80000000 + a) ≡ a)
      × (prot_addr (0xA0000000 + a) ≡ a)
      × (is_unmapped (0x80000000 + a) ≡ true)
      × (is_uncached (0x80000000 + a) ≡ false)
      × (is_uncached (0xA0000000 + a) ≡ true)
unfolding prot_addr is_uncached
prot_addr_segments a h =
    ground (arith, bit_and_mask 29 (0x80000000 + a), bit_and_mask 29 (0xA0000000 + a))

-- Translating twice is translating once.
pub prot_addr_idem : (a : ℕ) → prot_addr (prot_addr a) ≡ prot_addr a
unfolding prot_addr
prot_addr_idem a = ground (arith, bit_and_mask 29 a)

-- A multiple of 4096 is added to or taken from the address, so alignment is kept.
pub prot_addr-mod : (a : ℕ) → prot_addr a % 4096 ≡ a % 4096
unfolding prot_addr
prot_addr-mod a = ground (arith, bit_and_mask 29 a)
