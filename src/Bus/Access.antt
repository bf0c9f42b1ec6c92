-- ===== src/Bus/Access.antt =====
-- Which device an access of src/memory.c reaches.
use nemu_riscv.Base.{ℕ, ◌+◌, ◌-◌, ◌≤◌, ◌<◌, ◌≡◌, arith, Option, none, some, ok}
use nemu_riscv.Base.{get_elem?}
use native.Mathlib.Nat.{sub-zero}
use nemu_riscv.Address.{prot_addr}
use nemu_riscv.System.{System, ddr_size, bram_base, bram_size}
use nemu_riscv.System.{ddr_read, ddr_write, bram_read, bram_write}
use nemu_riscv.Base.{List, [], ◌∷◌, zero, suc, Ensures, fault, inl, inr, Option-cases, >>=-eq-ok}
use mathlib.Core.Path.{subst}
use nemu_riscv.System.{gpio_write}
use nemu_riscv.Bus.{Reader, Writer, badp_read, badp_write, invalid_read, on_serial_read}
use nemu_riscv.Bus.{on_serial_write, on_mac_read, on_mac_write, on_vga_read, on_vga_write}
use nemu_riscv.Bus.{MmapRegion, find_region, region_at, mmap_table, vaddr_read, vaddr_write}

pub find_region-ddr : (a : ℕ) → a < ddr_size → find_region a ≡ some 1
unfolding find_region
find_region-ddr a h = ground arith

find_region-bram : (a : ℕ) → bram_base ≤ a → a < bram_base + bram_size → find_region a ≡ some 2
unfolding find_region
find_region-bram a p q = ground arith

module _ (s : System) (a len : ℕ) where
  -- In the DDR, in each segment, an access goes to the handlers of the DDR.
  pub vaddr_read-ddr : prot_addr a < ddr_size → vaddr_read s a len ≡ ddr_read s (prot_addr a) len
  unfolding vaddr_read region_at
  vaddr_read-ddr h = rw (find_region-ddr (prot_addr a) h, sub-zero)

  pub vaddr_write-ddr :
      (word : ℕ)
      → prot_addr a < ddr_size
      → vaddr_write s a len word ≡ ddr_write s (prot_addr a) len word
  unfolding vaddr_write region_at
  vaddr_write-ddr word h = rw (find_region-ddr (prot_addr a) h, sub-zero)

  -- In the block RAM the handlers take the offset.
  pub vaddr_read-bram :
      bram_base ≤ prot_addr a
      → prot_addr a < bram_base + bram_size
      → vaddr_read s a len ≡ bram_read s (prot_addr a - bram_base) len
  unfolding vaddr_read region_at
  vaddr_read-bram p q = rw (find_region-bram (prot_addr a) p q)

  pub vaddr_write-bram :
      (word : ℕ)
      → bram_base ≤ prot_addr a
      → prot_addr a < bram_base + bram_size
      → vaddr_write s a len word ≡ bram_write s (prot_addr a - bram_base) len word
  unfolding vaddr_write region_at
  vaddr_write-bram word p q = rw (find_region-bram (prot_addr a) p q)

-- What holds of every row holds of the row that an access selects.
abbrev AllRows : (MmapRegion → Type 0) → List MmapRegion → Type 0
AllRows P [] = Unit {0}
AllRows P (region ∷ rest) = P region × AllRows P rest

get_elem?-AllRows :
    (P : MmapRegion → Type 0) (rs : List MmapRegion) (i : ℕ) (r : MmapRegion)
    → AllRows P rs
    → get_elem? rs i ≡ some r
    → P r
get_elem?-AllRows P [] i r h e = absurd (cc)
get_elem?-AllRows P (q ∷ rs) zero r h e = let same : q ≡ r = cc in subst P same h.0
get_elem?-AllRows P (q ∷ rs) (suc i) r h e = get_elem?-AllRows P rs i r h.1 e

region_at-AllRows :
    (P : MmapRegion → Type 0) (o : Option ℕ) → AllRows P mmap_table → Ensures P (region_at o)
unfolding region_at
region_at-AllRows P none h r e = absurd (cc)
region_at-AllRows P (some i) h r e = elim (Option-cases (get_elem? mmap_table i)) [
  | inl miss ↦ absurd (let bad : fault ≡ ok r = rw miss at e in cc)
  | inr hit ↦
      let found : ok hit.0 ≡ ok r = rw (hit.1) at e in
      let same : hit.0 ≡ r = cc in get_elem?-AllRows P mmap_table i r h (rw same at hit.1)
]

vaddr_read-AllRows :
    (s : System) (a len : ℕ) (Q : ℕ × System → Type 0)
    → AllRows (λ region. (i : ℕ) → Ensures Q (region.read s i len)) mmap_table
    → Ensures Q (vaddr_read s a len)
unfolding vaddr_read
vaddr_read-AllRows s a len Q h r e =
    let (region, found, e') = >>=-eq-ok (region_at (find_region (prot_addr a))) e in
    region_at-AllRows (λ region. (i : ℕ) → Ensures Q (region.read s i len)) _ h region found
      (prot_addr a - region.start) r e'

vaddr_write-AllRows :
    (s : System) (a len word : ℕ) (Q : System → Type 0)
    → AllRows (λ region. (i : ℕ) → Ensures Q (region.write s i len word)) mmap_table
    → Ensures Q (vaddr_write s a len word)
unfolding vaddr_write
vaddr_write-AllRows s a len word Q h r e =
    let (region, found, e') = >>=-eq-ok (region_at (find_region (prot_addr a))) e in
    region_at-AllRows (λ region. (i : ℕ) → Ensures Q (region.write s i len word)) _ h region found
      (prot_addr a - region.start) r e'

abbrev Reads : System → ℕ → (ℕ × System → Type 0) → Reader → Type 0
Reads s len Q read = (i : ℕ) → Ensures Q (read s i len)

abbrev Writes : System → ℕ → ℕ → (System → Type 0) → Writer → Type 0
Writes s len word Q write = (i : ℕ) → Ensures Q (write s i len word)

-- What every device's `read` ensures, at whatever offset, is ensured by `vaddr_read`. (The trap
-- device cannot be read.)
pub vaddr_read-devices :
    (s : System) (a len : ℕ) (Q : ℕ × System → Type 0)
    → Q (0, s)
    → Reads s len Q ddr_read
    → Reads s len Q bram_read
    → Reads s len Q on_serial_read
    → Reads s len Q on_mac_read
    → Reads s len Q on_vga_read
    → Ensures Q (vaddr_read s a len)
unfolding mmap_table badp_read invalid_read
vaddr_read-devices s a len Q badp ddr bram serial mac vga = vaddr_read-AllRows s a len Q (
  (λ i r e. let same : (0, s) ≡ r = cc in subst Q same badp),
  (ddr, (bram, ((λ i r e. absurd (cc)), (serial, (mac, (vga, tt)))))),
)

-- The same for the writes.
pub vaddr_write-devices :
    (s : System) (a len word : ℕ) (Q : System → Type 0)
    → Q s
    → Writes s len word Q ddr_write
    → Writes s len word Q bram_write
    → Writes s len word Q gpio_write
    → Writes s len word Q on_serial_write
    → Writes s len word Q on_mac_write
    → Writes s len word Q on_vga_write
    → Ensures Q (vaddr_write s a len word)
unfolding mmap_table badp_write
vaddr_write-devices s a len word Q badp ddr bram gpio serial mac vga =
    vaddr_write-AllRows s a len word Q (
      (λ i r e. let same : s ≡ r = cc in subst Q same badp),
      (ddr, (bram, (gpio, (serial, (mac, (vga, tt)))))),
    )
