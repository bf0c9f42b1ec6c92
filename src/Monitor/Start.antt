-- ===== src/Monitor/Start.antt =====
-- From an ELF file to the first instruction (init_monitor of src/monitor/monitor.c, src/main.c).
use nemu_riscv.Base.{ℕ, ◌^◌, ◌<◌, ◌≤◌, ◌≡◌, ◌∙◌, refl, ap, ok}
use nemu_riscv.Ram.{load_host}
use nemu_riscv.System.{System, bram_init}
use nemu_riscv.Run.{init_cpu}
use nemu_riscv.Base.{none, some, [], ◌∷◌, Returns, Returns->>=, if-ensures}
use nemu_riscv.Exec.{Cpu}
use nemu_riscv.Files.{FileName, Buffer, read_file}
use nemu_riscv.Elf.{ElfLayout, elf_magic, load_elf_file}
use nemu_riscv.Elf.Segments.{HeaderIsPlaced, image, load_elf_file-image}
use nemu_riscv.Monitor.{
  Setting, Monitor, keep_first, opt_elf, parse_args, load_file, load_elf, init_monitor,
}
use nemu_riscv.Elf.Segments.{SameElse}
use nemu_riscv.Base.{◌^◌}
use nemu_riscv.Tracer.{Tracer}

-- The bytes of an ELF file whose headers and segments have their places.
abbrev pub IsElf : ElfLayout → Buffer → Type 0
IsElf elf buf =
    (elf.ehdr_size ≤ buf.size)
    × (4 ≤ buf.size)
    × (load_host buf.bytes 0 4 ≡ elf_magic)
    × ((k : ℕ) → k < elf.e_phnum buf.bytes → HeaderIsPlaced elf buf k)

-- The machine after `init_monitor` has loaded an ELF file.
pub record IsBootedFrom (elf : ElfLayout) (buf : Buffer) (m m' : Monitor) : Type 0 where
  pub entry : m'.elf_entry ≡ elf.e_entry buf.bytes
  pub pc : m'.machine.cpu.pc ≡ 0xbfc00000
  pub regs : m'.machine.cpu.gpr ≡ m.machine.cpu.gpr
  pub memory :
      (j : ℕ) → m'.machine.sys.ddr j ≡ image elf buf (elf.e_phnum buf.bytes) 0 m.machine.sys.ddr j

bram_init-ddr : (s : System) (entry : ℕ) → (bram_init s entry).ddr ≡ s.ddr
unfolding bram_init
bram_init-ddr s entry = if-ensures (λ (t : System). t.ddr ≡ s.ddr) s.bram_mapped refl refl

load_file-Returns :
    (e : Setting) (m : Monitor) (name : FileName) (buf : Buffer)
    → m.elf_file ≡ some name
    → read_file e.links e.calls e.host name ≡ ok (some buf)
    → IsElf e.elf buf
    → Returns
        (λ m'.
          (m'.elf_entry ≡ e.elf.e_entry buf.bytes)
          × (m'.machine.cpu ≡ m.machine.cpu)
          × ((j : ℕ)
              → m'.machine.sys.ddr j
                ≡ image e.elf buf (e.elf.e_phnum buf.bytes) 0 m.machine.sys.ddr j)
          × SameElse m.machine.sys m'.machine.sys)
        (load_file e m)
unfolding load_file load_elf
load_file-Returns e m name buf given reads (whole, four_bytes, magic, placed) =
    rw (load_file, given, load_elf, given, reads)
      (Returns->>= _ (load_elf_file e.elf buf m.machine.sys) _
        (load_elf_file-image e.elf buf m.machine.sys whole four_bytes magic placed)
        λ r (entry, memory, kept). (entry, refl, memory, kept))

-- With `-e`, a file name that is read to a buffer with the bytes of an ELF file, whose headers and
-- segments of type PT_LOAD have their places, `init_monitor` returns: the entry point is that of the
-- file, the DDR is as if each segment had been put in byte by byte, the registers are as before, and
-- the first pc is 0xbfc00000.
pub init_monitor-IsBootedFrom :
    (e : Setting) (m : Monitor) (name : FileName) (buf : Buffer)
    → m.elf_file ≡ none
    → read_file e.links e.calls e.host name ≡ ok (some buf)
    → IsElf e.elf buf
    → Returns (λ r. IsBootedFrom e.elf buf m r.0) (init_monitor e (opt_elf name ∷ []) m)
unfolding init_monitor parse_args init_cpu
init_monitor-IsBootedFrom e m name buf unset reads elf =
    let m1 : Monitor = record m { elf_file = keep_first m.elf_file name } in
    let set : keep_first m.elf_file name ≡ some name = rw unset refl in
    Returns->>= _ (load_file e m1) _ (load_file-Returns e m1 name buf set reads elf)
      λ m2 (entry, cpu, memory, kept). record {
        entry = entry;
        pc = refl;
        regs = ap (λ (c : Cpu). c.gpr) cpu;
        memory = λ j. ap (λ p. p j) (bram_init-ddr m2.machine.sys m2.elf_entry) ∙ memory j;
      }
