-- ===== src/Elf.antt =====
-- Loading an ELF file (load_elf of src/monitor/monitor.c). `elf.h` is outside: `ElfLayout` gives the
-- size of its two structures and where the bytes of a file hold the fields that the loader uses.
pub mod Segments
use nemu_riscv.Base.{
  ℕ, zero, suc, ◌+◌, ◌-◌, ◌*◌, ◌^◌, Bool, ◌&&◌, ◌==◌, ltb, leb, if◌then◌else◌, sub32,
}
use nemu_riscv.Base.{Outcome, ok, ◌>>=◌, ◌>>◌, cpu_assert, defined}
use nemu_riscv.Ram.{load_host}
use nemu_riscv.System.{System, Pointer, in_ddr, in_bram, ddr_size, bram_size}
use nemu_riscv.Bus.{paddr_map}
use nemu_riscv.Files.{Buffer}

-- The fields of `Elf32_Ehdr` at the start of a file, and those of the `Elf32_Phdr` at an offset.
pub record ElfLayout : Type 0 where
  pub ehdr_size : ℕ
  pub phdr_size : ℕ
  pub e_entry : (ℕ → ℕ) → ℕ
  pub e_phnum : (ℕ → ℕ) → ℕ
  pub e_phentsize : (ℕ → ℕ) → ℕ
  pub e_phoff : (ℕ → ℕ) → ℕ
  pub p_type : (ℕ → ℕ) → ℕ → ℕ
  pub p_vaddr : (ℕ → ℕ) → ℕ → ℕ
  pub p_memsz : (ℕ → ℕ) → ℕ → ℕ
  pub p_offset : (ℕ → ℕ) → ℕ → ℕ
  pub p_filesz : (ℕ → ℕ) → ℕ → ℕ
  pub pt_load : ℕ

abbrev pub elf_magic : ℕ
elf_magic = 0x464c457f

-- `n` bytes of the array from `a` on become `source 0`, `source 1` and so on.
abbrev pub overlay : (ℕ → ℕ) → ℕ → ℕ → (ℕ → ℕ) → ℕ → ℕ
overlay p a n source j = if leb a j && ltb j (a + n) then source (j - a) else p j

-- `memcpy(p, source, n)` and `memset(p, 0, n)` into the array that the pointer stands in.
unfoldable pub fill : System → Pointer → ℕ → (ℕ → ℕ) → Outcome System
fill s (in_ddr a) n source = do
  defined (leb (a + n) ddr_size)
  ok (record s { ddr = overlay s.ddr a n source })
fill s (in_bram a) n source = do
  defined (leb (a + n) bram_size)
  ok (record s { bram = overlay s.bram a n source })

abbrev pub advance : Pointer → ℕ → Pointer
advance (in_ddr a) n = in_ddr (a + n)
advance (in_bram a) n = in_bram (a + n)

-- One program header: the bytes of the file, then zeros.
unfoldable pub load_segment : ElfLayout → Buffer → ℕ → System → Outcome System
unfolding fill
load_segment elf buf ph s =
    let filesz = elf.p_filesz buf.bytes ph in
    let memsz = elf.p_memsz buf.bytes ph in
    let offset = elf.p_offset buf.bytes ph in
    if elf.p_type buf.bytes ph == elf.pt_load
    then (paddr_map s (elf.p_vaddr buf.bytes ph) memsz >>= λ mapped.
        defined (leb (offset + filesz) buf.size)
        >> fill mapped.1 mapped.0 filesz (λ i. buf.bytes (offset + i))
        >>= λ s'. fill s' (advance mapped.0 filesz) (sub32 memsz filesz) (λ i. 0))
    else ok s

-- The loop over the program headers, with `left` of them left from number `i` on. The product is of
-- two `int`s.
unfoldable pub load_segments : ElfLayout → Buffer → ℕ → ℕ → System → Outcome System
unfolding load_segment
load_segments elf buf zero i s = ok s
load_segments elf buf (suc left) i s = do
  defined (ltb (i * elf.e_phentsize buf.bytes) (2 ^ 31))
  let ph = i * elf.e_phentsize buf.bytes + elf.e_phoff buf.bytes
  defined (leb (ph + elf.phdr_size) buf.size)
  s' ← load_segment elf buf ph s
  load_segments elf buf left (i + 1) s'

-- `load_elf` once the file is read: the entry point, and the system with the segments.
unfoldable pub load_elf_file : ElfLayout → Buffer → System → Outcome (ℕ × System)
unfolding load_segments
load_elf_file elf buf s = do
  defined (leb elf.ehdr_size buf.size && leb 4 buf.size)
  cpu_assert (load_host buf.bytes 0 4 == elf_magic)
  s' ← load_segments elf buf (elf.e_phnum buf.bytes) 0 s
  ok (elf.e_entry buf.bytes, s')
