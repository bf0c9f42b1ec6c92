-- ===== src/Examples/Startup.antt =====
-- The theorems on reading files, on loading them and on the options, at concrete
-- files and states.
use nemu_riscv.Base.{
  ℕ, zero, suc, ◌+◌, ◌-◌, ◌≤◌, ◌<◌, ◌≡◌, refl, arith, false, ltb, ◌==◌, if◌then◌else◌,
}
use nemu_riscv.Base.{List, [], ◌∷◌, get_or, Option, none, some, ok, Returns}
use nemu_riscv.Ram.{load_host}
use nemu_riscv.Address.{is_unmapped, iomap}
use nemu_riscv.Files.{FileName, File, Host, Stat, Buffer, read_file}
use nemu_riscv.Files.Reads.{ReadsFile, read_file-Returns, read_file_short}
use nemu_riscv.Elf.{ElfLayout, load_elf_file}
use nemu_riscv.Elf.Segments.{SameElse, HeaderIsPlaced, image, load_elf_file-image}
use nemu_riscv.Monitor.{
  Setting, Monitor, Opt, opt_elf, opt_batch, opt_symbol, opt_commit, parse_args, init_monitor,
}
use nemu_riscv.Tracer.{Tracer}
use nemu_riscv.Monitor.Options.{IsParsed, parse_args-IsParsed}
use nemu_riscv.Monitor.Start.{IsBootedFrom, init_monitor-IsBootedFrom}
use nemu_riscv.Examples.{zeros, blank}
use nemu_riscv.Examples

-- An ELF file of one segment: 4 bytes at 0x80001000, and 4 zeros behind them.
abbrev elf_bytes : List ℕ
elf_bytes =
    0x7f ∷ 0x45 ∷ 0x4c ∷ 0x46 ∷ 1 ∷ 1 ∷ 1 ∷ 0 ∷ 0 ∷ 0 ∷ 0 ∷ 0 ∷ 0 ∷ 0 ∷ 0 ∷ 0 ∷ 2 ∷ 0 ∷ 0xf3 ∷ 0 ∷ 1
    ∷ 0 ∷ 0 ∷ 0 ∷ 0 ∷ 0x10 ∷ 0 ∷ 0x80 ∷ 52 ∷ 0 ∷ 0 ∷ 0 ∷ 0 ∷ 0 ∷ 0 ∷ 0 ∷ 0 ∷ 0 ∷ 0 ∷ 0 ∷ 52 ∷ 0 ∷ 32
    ∷ 0 ∷ 1 ∷ 0 ∷ 0 ∷ 0 ∷ 0 ∷ 0 ∷ 0 ∷ 0 ∷ 1 ∷ 0 ∷ 0 ∷ 0 ∷ 84 ∷ 0 ∷ 0 ∷ 0 ∷ 0 ∷ 0x10 ∷ 0 ∷ 0x80 ∷ 0
    ∷ 0x10 ∷ 0 ∷ 0x80 ∷ 4 ∷ 0 ∷ 0 ∷ 0 ∷ 8 ∷ 0 ∷ 0 ∷ 0 ∷ 5 ∷ 0 ∷ 0 ∷ 0 ∷ 0 ∷ 0x10 ∷ 0 ∷ 0 ∷ 0x93 ∷ 0
    ∷ 0x50 ∷ 0 ∷ []

abbrev elf_file : File
elf_file = record { file_size = 88; byte = λ i. get_or elf_bytes i 0 }

abbrev regular : Stat
regular = record { is_link = false; st_size = 88 }

-- A host with this one file, under every name, whose `read` is given.
abbrev host_with : (ℕ → ℕ → ℕ → Option ℕ) → Host
host_with read = record {
  lstat = λ name. some regular;
  readlink = λ name. [];
  open_file = λ name. some elf_file;
  read = λ name. read;
  fresh = zeros;
}

abbrev prog : FileName
prog = b'p' ∷ []

-- One byte for each call.
abbrev slow : Host
slow = host_with (λ call offset n. some 1)

slow-ReadsFile : ReadsFile slow prog elf_file
slow-ReadsFile call offset n asked left = (1, refl, omega arith, omega arith, omega arith)

read_file-Returns_example :
    Returns (λ r. (buf : Buffer) × (r ≡ some buf) × (buf.size ≡ 88)) (read_file 1 88 slow prog)
read_file-Returns_example =
    read_file-Returns slow prog regular elf_file 0 refl refl refl refl (omega arith) slow-ReadsFile

-- 40 bytes by the first call, and the rest by the second.
abbrev halting : Host
halting = host_with (λ call offset n. if call == 0 then some 40 else some n)

read_file_short_example :
    Returns
      (λ r.
        (buf : Buffer) × (r ≡ some buf)
        × ((i : ℕ) → i < 88 - 40 → buf.bytes i ≡ get_or elf_bytes (40 + i) 0)
        × ((i : ℕ) → 88 - 40 ≤ i → i < 40 → buf.bytes i ≡ get_or elf_bytes i 0))
      (read_file 1 2 halting prog)
read_file_short_example =
    read_file_short halting prog regular elf_file 0 0 40 refl refl refl refl (omega arith)
      (omega arith) (omega arith) refl refl

-- The offsets of the fields in `Elf32_Ehdr` and `Elf32_Phdr`.
abbrev elf32 : ElfLayout
elf32 = record {
  ehdr_size = 52;
  phdr_size = 32;
  e_entry = λ p. load_host p 24 4;
  e_phoff = λ p. load_host p 28 4;
  e_phentsize = λ p. load_host p 42 2;
  e_phnum = λ p. load_host p 44 2;
  p_type = λ p ph. load_host p ph 4;
  p_offset = λ p ph. load_host p (ph + 4) 4;
  p_vaddr = λ p ph. load_host p (ph + 8) 4;
  p_filesz = λ p ph. load_host p (ph + 16) 4;
  p_memsz = λ p ph. load_host p (ph + 20) 4;
  pt_load = 1;
}

abbrev loaded : Buffer
loaded = record { size = 88; bytes = λ i. if ltb i 88 then get_or elf_bytes (0 + i) 0 else 0 }

loaded-HeaderIsPlaced : (k : ℕ) → k < elf32.e_phnum loaded.bytes → HeaderIsPlaced elf32 loaded k
unfolding load_host is_unmapped iomap
loaded-HeaderIsPlaced zero h = (
  omega arith,
  omega arith,
  λ load. record {
    unmapped = refl;
    inside = omega arith;
    fits = omega arith;
    shorter = omega arith;
    in_file = omega arith;
  },
)
loaded-HeaderIsPlaced (suc k) h = absurd (omega arith)

load_elf_file-image_example :
    Returns
      (λ r.
        (r.0 ≡ elf32.e_entry loaded.bytes)
        × ((j : ℕ) → r.1.ddr j ≡ image elf32 loaded (elf32.e_phnum loaded.bytes) 0 zeros j)
        × SameElse blank r.1)
      (load_elf_file elf32 loaded blank)
unfolding load_host
load_elf_file-image_example =
    load_elf_file-image elf32 loaded blank (omega arith) (omega arith) refl loaded-HeaderIsPlaced

abbrev fast : Setting
fast = record { host = host_with (λ call offset n. some n); elf = elf32; links = 1; calls = 1 }

abbrev fresh_monitor : Monitor
fresh_monitor = record {
  elf_entry = 0xbfc00000;
  elf_file = none;
  symbol_file = none;
  img_file = none;
  kernel_img = none;
  machine = record (Examples.booted) { sys = blank };
}

abbrev two_files : List Opt
two_files = opt_elf prog ∷ opt_commit ∷ opt_symbol prog ∷ opt_elf [] ∷ opt_batch ∷ []

parse_args-IsParsed_example :
    Returns (IsParsed two_files fresh_monitor) (parse_args fast two_files fresh_monitor)
parse_args-IsParsed_example = parse_args-IsParsed fast two_files fresh_monitor tt

fast_read_file : read_file 1 1 (host_with (λ call offset n. some n)) prog ≡ ok (some loaded)
unfolding read_file
fast_read_file = refl

init_monitor-IsBootedFrom_example :
    Returns
      (λ r. IsBootedFrom elf32 loaded fresh_monitor r.0)
      (init_monitor fast (opt_elf prog ∷ []) fresh_monitor)
unfolding load_host
init_monitor-IsBootedFrom_example =
    init_monitor-IsBootedFrom fast fresh_monitor prog loaded refl fast_read_file
      (omega arith, omega arith, refl, loaded-HeaderIsPlaced)

-- The trace before the first flush, and after one.
abbrev null_tracer : Tracer
null_tracer = record { asm_buf = zeros; asm_buf_p = none; lines = [] }

abbrev flushed_tracer : Tracer
flushed_tracer = record { asm_buf = zeros; asm_buf_p = some 0; lines = [] }
