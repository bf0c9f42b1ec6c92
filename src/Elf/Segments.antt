-- ===== src/Elf/Segments.antt =====
-- Where the bytes of an ELF file come to stand in the DDR (load_elf of src/monitor/monitor.c).
use nemu_riscv.Base.{
  ℕ, zero, suc, ◌+◌, ◌-◌, ◌*◌, ◌^◌, ◌≤◌, ◌<◌, ◌≡◌, refl, ap, ◌∙◌, arith, Bool, true, Bool-cases,
}
use nemu_riscv.Base.{
  inl, inr, ◌&&◌, ◌==◌, leb, ltb, le→leb, lt→ltb, if-ensures, if◌then◌else◌, sub32, u32,
}
use nemu_riscv.Base.{Outcome, ok, Returns, Returns-map, Returns->>=}
use native.Mathlib.Nat.{sub-zero}
use nemu_riscv.Ram.{load_host}
use nemu_riscv.Address.{is_unmapped, iomap}
use nemu_riscv.System.{System, Pointer, in_ddr, ddr_size, ddr_map}
use nemu_riscv.Bus.{paddr_map, region_at}
use nemu_riscv.Bus.Access.{find_region-ddr}
use nemu_riscv.Files.{Buffer}
use nemu_riscv.Elf.{ElfLayout, elf_magic, overlay, fill, load_segment, load_segments, load_elf_file}

-- The offset of the program header of a number.
abbrev pub header : ElfLayout → Buffer → ℕ → ℕ
header elf buf i = i * elf.e_phentsize buf.bytes + elf.e_phoff buf.bytes

-- A segment that is loaded has its place in the DDR, and its bytes in the file.
pub record IsPlaced (elf : ElfLayout) (buf : Buffer) (ph : ℕ) : Type 0 where
  pub unmapped : is_unmapped (elf.p_vaddr buf.bytes ph) ≡ true
  pub inside : iomap (elf.p_vaddr buf.bytes ph) < ddr_size
  pub fits : iomap (elf.p_vaddr buf.bytes ph) + elf.p_memsz buf.bytes ph ≤ ddr_size
  pub shorter : elf.p_filesz buf.bytes ph ≤ elf.p_memsz buf.bytes ph
  pub in_file : elf.p_offset buf.bytes ph + elf.p_filesz buf.bytes ph ≤ buf.size

abbrev pub is_load : ElfLayout → Buffer → ℕ → Bool
is_load elf buf ph = elf.p_type buf.bytes ph == elf.pt_load

-- The header of a number is in the file, and so is the segment that it describes.
abbrev pub HeaderIsPlaced : ElfLayout → Buffer → ℕ → Type 0
HeaderIsPlaced elf buf i =
    (i * elf.e_phentsize buf.bytes < 2 ^ 31)
    × (header elf buf i + elf.phdr_size ≤ buf.size)
    × (is_load elf buf (header elf buf i) ≡ true → IsPlaced elf buf (header elf buf i))

-- The memory with one segment, byte by byte.
abbrev pub segment_image : ElfLayout → Buffer → ℕ → (ℕ → ℕ) → ℕ → ℕ
segment_image elf buf ph p j =
    let a = iomap (elf.p_vaddr buf.bytes ph) in
    if is_load elf buf ph && leb a j && ltb j (a + elf.p_memsz buf.bytes ph)
    then (if ltb j (a + elf.p_filesz buf.bytes ph)
        then buf.bytes (elf.p_offset buf.bytes ph + (j - a))
        else 0)
    else p j

-- The memory with the segments of the `left` headers from number `i` on.
abbrev pub image : ElfLayout → Buffer → ℕ → ℕ → (ℕ → ℕ) → ℕ → ℕ
image elf buf zero i p = p
image elf buf (suc left) i p =
    image elf buf left (i + 1) (segment_image elf buf (header elf buf i) p)

segment_image-cong :
    (elf : ElfLayout) (buf : Buffer) (ph : ℕ) (p q : ℕ → ℕ)
    → ((j : ℕ) → p j ≡ q j)
    → (j : ℕ) → segment_image elf buf ph p j ≡ segment_image elf buf ph q j
segment_image-cong elf buf ph p q same j = rw (same j) refl

-- The pointer is into the DDR, whose bytes are as before.
abbrev MapsTo : Outcome (Pointer × System) → ℕ → System → Type 0
MapsTo o a s =
    (s' : System) × (o ≡ ok (in_ddr a, s'))
    × (s' ≡ record s { ddr_mapped_size = s'.ddr_mapped_size })

ddr_map-MapsTo :
    (s : System) (a len : ℕ) → a < ddr_size → a + len ≤ ddr_size → MapsTo (ddr_map s a len) a s
unfolding ddr_map
ddr_map-MapsTo s a len h fits =
    let below : ltb a ddr_size ≡ true = lt→ltb a ddr_size h in
    let top : leb (u32 (a + len)) ddr_size ≡ true = le→leb _ ddr_size (omega arith) in
    (
      (if leb s.ddr_mapped_size (u32 (a + len))
          then record s { ddr_mapped_size = u32 (a + len) }
          else s),
      rw (below, top) refl,
      if-ensures (λ (s' : System). s' ≡ record s { ddr_mapped_size = s'.ddr_mapped_size })
          (leb s.ddr_mapped_size (u32 (a + len))) refl refl,
    )

paddr_map-MapsTo :
    (s : System) (v len : ℕ)
    → is_unmapped v ≡ true
    → iomap v < ddr_size
    → iomap v + len ≤ ddr_size
    → MapsTo (paddr_map s v len) (iomap v) s
unfolding paddr_map region_at
paddr_map-MapsTo s v len unmapped h fits =
    rw (unmapped, find_region-ddr (iomap v) h, sub-zero) (ddr_map-MapsTo s (iomap v) len h fits)

-- All but the bytes of the DDR and the count of those that are mapped.
abbrev pub SameElse : System → System → Type 0
SameElse s s' = s' ≡ record s { ddr = s'.ddr; ddr_mapped_size = s'.ddr_mapped_size }

with_ddr-SameElse :
    (s s1 : System) (p : ℕ → ℕ)
    → s1 ≡ record s { ddr_mapped_size = s1.ddr_mapped_size }
    → SameElse s (record s1 { ddr = p })
with_ddr-SameElse s s1 p same = ap (λ (t : System). record t { ddr = p }) same

SameElse-trans : (s s1 s2 : System) → SameElse s s1 → SameElse s1 s2 → SameElse s s2
SameElse-trans s s1 s2 h1 h2 =
    h2 ∙ ap (λ (t : System). record t { ddr = s2.ddr; ddr_mapped_size = s2.ddr_mapped_size }) h1

-- The bytes of the file, and zeros after them, are the segment.
overlays-segment :
    (elf : ElfLayout) (buf : Buffer) (ph : ℕ) (p : ℕ → ℕ) (j : ℕ)
    → IsPlaced elf buf ph
    → is_load elf buf ph ≡ true
    → overlay
        (overlay p
          (iomap (elf.p_vaddr buf.bytes ph))
          (elf.p_filesz buf.bytes ph)
          (λ i. buf.bytes (elf.p_offset buf.bytes ph + i)))
        (iomap (elf.p_vaddr buf.bytes ph) + elf.p_filesz buf.bytes ph)
        (sub32 (elf.p_memsz buf.bytes ph) (elf.p_filesz buf.bytes ph))
        (λ i. 0)
        j
      ≡ segment_image elf buf ph p j
overlays-segment elf buf ph p j placed load =
    let fits = placed.fits in let shorter = placed.shorter in rw load (ground arith)

load_segment-image :
    (elf : ElfLayout) (buf : Buffer) (ph : ℕ) (s : System)
    → (is_load elf buf ph ≡ true → IsPlaced elf buf ph)
    → Returns
        (λ s'. ((j : ℕ) → s'.ddr j ≡ segment_image elf buf ph s.ddr j) × SameElse s s')
        (load_segment elf buf ph s)
unfolding load_segment fill
load_segment-image elf buf ph s placed = elim (Bool-cases (is_load elf buf ph)) [
  | inl load ↦
      let here = placed load in
      let a = iomap (elf.p_vaddr buf.bytes ph) in
      let filesz = elf.p_filesz buf.bytes ph in
      let memsz = elf.p_memsz buf.bytes ph in
      let fits : a + memsz ≤ ddr_size = here.fits in
      let shorter : filesz ≤ memsz = here.shorter in
      let head : leb (a + filesz) ddr_size ≡ true = le→leb _ ddr_size (omega arith) in
      let rest : leb (a + filesz + sub32 memsz filesz) ddr_size ≡ true =
        le→leb _ ddr_size (omega arith) in
      let (s1, maps, same) =
        paddr_map-MapsTo s (elf.p_vaddr buf.bytes ph) (elf.p_memsz buf.bytes ph) here.unmapped
          here.inside here.fits in
      let in_file = le→leb _ buf.size here.in_file in
      rw (load, maps, in_file, head, rest)
        (
          (λ j.
              rw (ap (λ (t : System). t.ddr) same)
                (rw load at (overlays-segment elf buf ph s.ddr j here load))),
          with_ddr-SameElse s s1 _ same,
        )
  | inr other ↦ rw other ((λ j. refl), refl)
]

-- The loop over the headers, where each segment that it loads has its place.
load_segments-image :
    (elf : ElfLayout) (buf : Buffer) (left i : ℕ) (s : System) (p : ℕ → ℕ)
    → ((j : ℕ) → s.ddr j ≡ p j)
    → ((k : ℕ) → i ≤ k → k < i + left → HeaderIsPlaced elf buf k)
    → Returns
        (λ s'. ((j : ℕ) → s'.ddr j ≡ image elf buf left i p j) × SameElse s s')
        (load_segments elf buf left i s)
unfolding load_segments
load_segments-image elf buf zero i s p same placed = (same, refl)
load_segments-image elf buf (suc left) i s p same placed =
    let (product, inside, place) = placed i (omega arith) (omega arith) in
    rw (lt→ltb _ (2 ^ 31) product, le→leb _ buf.size inside)
      (Returns->>= _ (load_segment elf buf (header elf buf i) s) _
        (load_segment-image elf buf (header elf buf i) s place)
        λ s1 (loaded, kept).
          Returns-map (load_segments elf buf left (i + 1) s1)
            (load_segments-image elf buf left (i + 1) s1
              (segment_image elf buf (header elf buf i) p)
              (λ j. loaded j ∙ segment_image-cong elf buf (header elf buf i) s.ddr p same j)
              (λ k above below. placed k (omega arith) (omega arith)))
            λ s2 (image_of, kept_too). (image_of, SameElse-trans s s1 s2 kept kept_too))

-- Of a file that starts with the magic number and holds its ELF header, its program headers and the
-- bytes of its segments, where each segment of type PT_LOAD has a place in the DDR, seen through an
-- unmapped address, and no more bytes in the file than in memory: `load_elf` returns the entry
-- point, and then the DDR is as if each segment in turn had been put in byte by byte: the bytes of
-- the file, then zeros up to the segment's size, and the byte before elsewhere. Nothing else of the
-- system changes but the count of the mapped bytes.
pub load_elf_file-image :
    (elf : ElfLayout) (buf : Buffer) (s : System)
    → elf.ehdr_size ≤ buf.size
    → 4 ≤ buf.size
    → load_host buf.bytes 0 4 ≡ elf_magic
    → ((k : ℕ) → k < elf.e_phnum buf.bytes → HeaderIsPlaced elf buf k)
    → Returns
        (λ r.
          (r.0 ≡ elf.e_entry buf.bytes)
          × ((j : ℕ) → r.1.ddr j ≡ image elf buf (elf.e_phnum buf.bytes) 0 s.ddr j)
          × SameElse s r.1)
        (load_elf_file elf buf s)
unfolding load_elf_file
load_elf_file-image elf buf s whole four magic placed =
    rw (le→leb _ buf.size whole, le→leb 4 buf.size four, magic)
      (Returns->>= _ (load_segments elf buf (elf.e_phnum buf.bytes) 0 s) _
        (load_segments-image elf buf (elf.e_phnum buf.bytes) 0 s s.ddr (λ j. refl)
          (λ k above below. placed k (omega arith)))
        λ s' (same, kept). (refl, same, kept))
