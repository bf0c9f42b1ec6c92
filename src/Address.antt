-- ===== src/Address.antt =====
-- The segments of the address space and the translation of unmapped addresses: `is_unmapped`,
-- `is_uncached`, `iomap` and `prot_addr` of include/memory.h. Addresses are `uint32_t`.
pub mod Laws
use nemu_riscv.Base.{ℕ, ◌&&◌, Bool, leb, ltb, bit_and, if◌then◌else◌}

abbrev pub unmapped_base : ℕ
unmapped_base = 0x80000000

abbrev pub unmapped_end : ℕ
unmapped_end = 0xC0000000

abbrev pub uncached_base : ℕ
uncached_base = 0xA0000000

abbrev pub uncached_end : ℕ
uncached_end = 0xC0000000

unfoldable pub is_unmapped : ℕ → Bool
is_unmapped addr = leb unmapped_base addr && ltb addr unmapped_end

unfoldable pub is_uncached : ℕ → Bool
is_uncached addr = leb uncached_base addr && ltb addr uncached_end

unfoldable pub iomap : ℕ → ℕ
iomap vaddr = bit_and vaddr 0x1FFFFFFF

unfoldable pub prot_addr : ℕ → ℕ
unfolding is_unmapped iomap
prot_addr addr = if is_unmapped addr then iomap addr else addr
