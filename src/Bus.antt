-- ===== src/Bus.antt =====
-- The memory map of src/memory.c: the table of regions, the search in it, and the accesses that go
-- through it. A row of `mmap_table` holds functions, as in the source; `none` is a NULL there, and
-- a call of it is undefined behaviour. The last row gives two functions only, so its `map` and
-- `peek` are NULL. `CPUAssert` also prints registers before it aborts; only the abort is kept.
pub mod Regions
pub mod Access
use nemu_riscv.Base.{ℕ, zero, suc, ◌+◌, ◌-◌, ◌*◌, Bool, true, false, ◌&&◌, ◌||◌, ltb, leb}
use nemu_riscv.Base.{if◌then◌else◌, Option, none, some, List, [], ◌∷◌, get_elem?}
use nemu_riscv.Base.{Outcome, ok, abort, fault, ◌>>=◌, ◌>>◌, cpu_assert}
use nemu_riscv.Address.{is_unmapped, iomap, prot_addr}
use nemu_riscv.Serial.{serial_peek, serial_read, serial_write, serial_size}
use nemu_riscv.Mac.{mac_read, mac_write, mac_size}
use nemu_riscv.Video.{vga_read, vga_write}
use nemu_riscv.System.{System, Pointer, ddr_base, ddr_size, bram_base, bram_size}
use nemu_riscv.System.{ddr_map, ddr_read, ddr_write, bram_map, bram_read, bram_write, gpio_write}

abbrev pub Reader : Type 0
Reader = System → ℕ → ℕ → Outcome (ℕ × System)

abbrev pub Writer : Type 0
Writer = System → ℕ → ℕ → ℕ → Outcome System

abbrev pub Mapper : Type 0
Mapper = System → ℕ → ℕ → Outcome (Pointer × System)

-- `struct mmap_region`
pub record MmapRegion : Type 0 where
  pub start : ℕ
  pub end : ℕ
  pub read : Reader
  pub write : Writer
  pub map : Option Mapper
  pub peek : Option Reader

unfoldable pub badp_read : Reader
badp_read s addr len = ok (0, s)

unfoldable pub badp_write : Writer
badp_write s addr len word = ok s

unfoldable pub invalid_read : Reader
invalid_read s addr len = abort

unfoldable pub invalid_write : Writer
invalid_write s addr len word = abort

-- The devices with a state of their own, on the whole system.
unfoldable pub on_serial_read : Reader
on_serial_read s addr len = do
  (word, serial') ← serial_read s.serial addr len
  ok (word, record s { serial = serial' })

unfoldable pub on_serial_peek : Reader
on_serial_peek s addr len = do word ← serial_peek s.serial addr len; ok (word, s)

unfoldable pub on_serial_write : Writer
on_serial_write s addr len word = do
  serial' ← serial_write s.serial addr len word
  ok (record s { serial = serial' })

unfoldable pub on_mac_read : Reader
on_mac_read s addr len = do word ← mac_read s.mac addr len; ok (word, s)

unfoldable pub on_mac_write : Writer
on_mac_write s addr len word = do mac' ← mac_write s.mac addr len word; ok (record s { mac = mac' })

unfoldable pub on_vga_read : Reader
on_vga_read s addr len = do word ← vga_read s.vmem addr len; ok (word, s)

unfoldable pub on_vga_write : Writer
on_vga_write s addr len word = do
  vmem' ← vga_write s.vmem addr len word
  ok (record s { vmem = vmem' })

abbrev pub row : ℕ → ℕ → Reader → Writer → Option Mapper → Option Reader → MmapRegion
row start size read write map peek = record {
  start = start;
  end = start + size;
  read = read;
  write = write;
  map = map;
  peek = peek;
}

-- The bases and sizes of include/device.h.
abbrev pub serial_addr : ℕ
serial_addr = 0x1fe50000

abbrev pub badp_addr : ℕ
badp_addr = 0x1fe96000

abbrev pub badp_size : ℕ
badp_size = 0x1000

abbrev pub mac_addr : ℕ
mac_addr = 0x1ff00000

abbrev pub vga_base : ℕ
vga_base = 0x10400000

abbrev pub vga_size : ℕ
vga_size = 0x100000

abbrev pub gpio_base : ℕ
gpio_base = 0x10000000

abbrev pub gpio_size : ℕ
gpio_size = 0x1000

-- The rows in the order of the source.
unfoldable pub mmap_table : List MmapRegion
mmap_table =
    row badp_addr badp_size badp_read badp_write none (some badp_read)
    ∷ row ddr_base ddr_size ddr_read ddr_write (some ddr_map) (some ddr_read)
    ∷ row bram_base bram_size bram_read bram_write (some bram_map) (some bram_read)
    ∷ row gpio_base gpio_size invalid_read gpio_write none (some invalid_read)
    ∷ row serial_addr serial_size on_serial_read on_serial_write none (some on_serial_peek)
    ∷ row mac_addr mac_size on_mac_read on_mac_write none (some on_mac_read)
    ∷ row vga_base vga_size on_vga_read on_vga_write none none
    ∷ []

abbrev pub holds : MmapRegion → ℕ → Bool
holds region addr = leb region.start addr && ltb addr region.end

-- The loop of `find_region` from row `i` on; the result -1 is `none`.
unfoldable pub find_from : ℕ → List MmapRegion → ℕ → Option ℕ
find_from addr [] i = none
find_from addr (region ∷ rest) i = if holds region addr then some i else find_from addr rest (suc i)

unfoldable pub find_region : ℕ → Option ℕ
unfolding find_from mmap_table
find_region addr = find_from addr mmap_table 0

-- `mmap_table[idx]` for the index found; a `none` fails the assertion that follows the search.
unfoldable pub region_at : Option ℕ → Outcome MmapRegion
unfolding mmap_table
region_at none = abort
region_at (some idx) = elim (get_elem? mmap_table idx) [ none ↦ fault | some region ↦ ok region ]

-- A call of a pointer that may be NULL.
abbrev pub callee {ℓ} : {F : Type ℓ} → Option F → Outcome F
callee none = fault
callee (some f) = ok f

-- A pointer that an assertion has tested.
abbrev pub tested {ℓ} : {F : Type ℓ} → Option F → Outcome F
tested none = abort
tested (some f) = ok f

unfoldable pub paddr_map : System → ℕ → ℕ → Outcome (Pointer × System)
paddr_map s addr len = do
  cpu_assert (is_unmapped addr)
  region ← region_at (find_region (iomap addr))
  mapper ← tested region.map
  mapper s (iomap addr - region.start) len

unfoldable pub vaddr_read : System → ℕ → ℕ → Outcome (ℕ × System)
vaddr_read s addr len = do
  let pa = prot_addr addr
  region ← region_at (find_region pa)
  region.read s (pa - region.start) len

unfoldable pub vaddr_write : System → ℕ → ℕ → ℕ → Outcome System
vaddr_write s addr len word = do
  let pa = prot_addr addr
  region ← region_at (find_region pa)
  region.write s (pa - region.start) len word

unfoldable pub paddr_peek : System → ℕ → ℕ → Outcome (ℕ × System)
paddr_peek s addr len = do
  region ← region_at (find_region addr)
  peek ← callee region.peek
  peek s (addr - region.start) len

-- The accesses of the debugger: an address outside every region reads 0 and ignores a write.
unfoldable pub vaddr_read_safe : System → ℕ → ℕ → Outcome (ℕ × System)
vaddr_read_safe s addr len =
    let pa = prot_addr addr in
    elim (find_region pa) [
      | none ↦ ok (0, s)
      | some idx ↦ region_at (some idx) >>= λ region. region.read s (pa - region.start) len
    ]

unfoldable pub vaddr_write_safe : System → ℕ → ℕ → ℕ → Outcome System
vaddr_write_safe s addr len word =
    let pa = prot_addr addr in
    elim (find_region pa) [
      | none ↦ ok s
      | some idx ↦ region_at (some idx) >>= λ region. region.write s (pa - region.start) len word
    ]

-- The two regions [x, y) and [a, b) have an address in common.
unfoldable pub region_collide : ℕ → ℕ → ℕ → ℕ → Bool
region_collide x y a b = leb x a && ltb a y || ltb x b && leb b y || leb a x && leb y b

-- The inner loop of `init_mmio`: row `i` against the rows after it.
unfoldable pub check_row : MmapRegion → List MmapRegion → Outcome (Unit {0})
check_row region [] = ok tt
check_row region (other ∷ rest) =
    cpu_assert
      (if region_collide region.start region.end other.start other.end then false else true)
    >> check_row region rest

unfoldable pub check_rows : List MmapRegion → Outcome (Unit {0})
unfolding check_row
check_rows [] = ok tt
check_rows (region ∷ rest) = check_row region rest >> check_rows rest

unfoldable pub init_mmio : Outcome (Unit {0})
unfolding check_rows mmap_table
init_mmio = check_rows mmap_table
