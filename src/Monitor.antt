-- ===== src/Monitor.antt =====
-- Starting the emulator (src/monitor/monitor.c and src/main.c): the options, the image or the ELF
-- file, the boot code and the first pc. `getopt_long` is outside: what its calls give, one after the
-- other, is a list. What the monitor prints is left out, and so is `symbol_file`'s use (there is none).
pub mod Options
pub mod Boot
pub mod Start
pub mod Image
use nemu_riscv.Base.{ℕ, ◌+◌, ◌*◌, ◌^◌, ◌-◌, Bool, true, false, ◌==◌, u32, bit_and, bit_or, not_eq}
use nemu_riscv.Base.{
  if◌then◌else◌, List, [], ◌∷◌, Option, none, some, Outcome, ok, abort, exit, fault, ◌>>=◌, ◌>>◌,
}
use nemu_riscv.System.{System, ddr_base, mode_batch, mode_diff, mode_log, bram_init}
use nemu_riscv.Address.{unmapped_base}
use nemu_riscv.Bus.{paddr_map, init_mmio}
use nemu_riscv.Files.{FileName, Host, Buffer, get_file_size, read_file}
use nemu_riscv.Elf.{ElfLayout, fill, load_elf_file}
use nemu_riscv.Exec.{Cpu}
use nemu_riscv.Run.{Machine, cpu_init_pc, init_cpu}
use nemu_riscv.Run.Traced.{Traced, traced_exec}
use nemu_riscv.Tracer.{Tracer}
use nemu_riscv.Device.{init_device}

abbrev pub uimage_base : ℕ
uimage_base = unmapped_base + ddr_base + 32 * 1024 * 1024

-- What a call of `getopt_long` gives; `opt_other` is any value without a `case`.
pub data Opt : Type 0 where
  opt_symbol opt_uimage opt_elf opt_image : FileName → Opt
  opt_diff opt_batch opt_commit opt_help opt_other : Opt

-- The variables of the file and the machine.
pub record Monitor : Type 0 where
  pub elf_entry : ℕ
  pub elf_file : Option FileName
  pub symbol_file : Option FileName
  pub img_file : Option FileName
  pub kernel_img : Option FileName
  pub machine : Machine

abbrev pub set_sys : Monitor → System → Monitor
set_sys m sys = record m { machine = record (m.machine) { sys = sys } }

abbrev pub or_mode : Monitor → ℕ → Monitor
or_mode m flags =
    set_sys m (record (m.machine.sys) { work_mode = bit_or m.machine.sys.work_mode flags })

-- What the host, the layout of ELF files and the bounds on loops are.
pub record Setting : Type 0 where
  pub host : Host
  pub elf : ElfLayout
  pub links : ℕ
  pub calls : ℕ

-- The length that `paddr_map` takes has 32 bits; `memcpy` from NULL is undefined.
unfoldable pub load_image : Setting → Option FileName → ℕ → System → Outcome System
load_image e none vaddr s = abort
load_image e (some img) vaddr s = do
  size ← get_file_size e.links e.host img
  read ← read_file e.links e.calls e.host img
  (p, s') ← paddr_map s vaddr (u32 size)
  elim read [ none ↦ fault | some buf ↦ fill s' p size buf.bytes ]

-- What is before the last '.', where `strrchr` finds one.
unfoldable pub before_dot : FileName → Option FileName
before_dot [] = none
before_dot (ch ∷ rest) = elim (before_dot rest) [
  | some stem ↦ some (ch ∷ stem)
  | none ↦ if ch == b'.' then some [] else none
]

-- Never called. Both names are then the same string, which is cut at the dot.
unfoldable pub assume_elf_file : Monitor → Outcome Monitor
assume_elf_file m = elim (m.img_file) [
  | none ↦ fault
  | some img ↦ elim (before_dot img) [
    | none ↦ ok m
    | some stem ↦ ok (record m { elf_file = some stem; img_file = some stem })
  ]
]

unfoldable pub load_elf : Setting → Monitor → Outcome Monitor
load_elf e m = elim m.elf_file [
  | none ↦ abort
  | some name ↦ read_file e.links e.calls e.host name >>= λ read. elim read [
    | none ↦ abort
    | some buf ↦ load_elf_file (e.elf) buf (m.machine.sys) >>= λ loaded.
        ok (record (set_sys m loaded.1) { symbol_file = some name; elf_entry = loaded.0 })
  ]
]

-- `old` if it is set, else `new`: the later ones of two options are ignored.
abbrev pub keep_first : Option FileName → FileName → Option FileName
keep_first none new = some new
keep_first (some old) new = some old

unfoldable pub parse_arg : Setting → Opt → Monitor → Outcome Monitor
unfolding load_image
parse_arg e (opt_symbol name) m = ok (record m { symbol_file = some name })
parse_arg e (opt_uimage name) m = do
  let m' = record m { kernel_img = some name }
  sys ← load_image e (some name) uimage_base m'.machine.sys
  ok (set_sys m' sys)
parse_arg e opt_diff m = ok (or_mode m mode_diff)
parse_arg e opt_batch m = ok (or_mode m mode_batch)
parse_arg e opt_commit m = ok (or_mode m mode_log)
parse_arg e (opt_elf name) m = ok (record m { elf_file = keep_first m.elf_file name })
parse_arg e (opt_image name) m = ok (record m { img_file = keep_first m.img_file name })
parse_arg e opt_help m = exit
parse_arg e opt_other m = exit

unfoldable pub parse_args : Setting → List Opt → Monitor → Outcome Monitor
unfolding parse_arg
parse_args e [] m = ok m
parse_args e (opt ∷ rest) m = parse_arg e opt m >>= parse_args e rest

-- The ELF file if there is one, else the image.
unfoldable pub load_file : Setting → Monitor → Outcome Monitor
unfolding load_elf load_image
load_file e m = elim m.elf_file [
  | some name ↦ load_elf e m
  | none ↦ load_image e (m.img_file) cpu_init_pc (m.machine.sys) >>= λ sys. ok (set_sys m sys)
]

-- The Boolean is whether SIGINT has the handler.
unfoldable pub init_monitor : Setting → List Opt → Monitor → Outcome (Monitor × Bool)
unfolding parse_args load_file
init_monitor e opts m = do
  m1 ← parse_args e opts m
  m2 ← load_file e m1
  let sys = bram_init m2.machine.sys m2.elf_entry
  let cpu = init_cpu m2.machine.cpu cpu_init_pc
  ok (
    record m2 { machine = record (m2.machine) { cpu = cpu; sys = sys } },
    bit_and sys.work_mode mode_batch == 0,
  )

-- What `cpu_exec` starts with: the counter of `print_registers` is 0 and nothing has been logged.
abbrev pub started : Machine → Tracer → Traced
started m t = record { machine = m; tracer = t; ninstr = 0; log = [] }

-- `main`, without the signals; the Booleans are whether the calls of `init_device` succeed. The
-- state of the trace is an argument, as the machine is.
unfoldable pub main : Setting → List Opt → Bool → Bool → Bool → Tracer → Monitor → Outcome Traced
unfolding init_monitor
main e opts initialised handled timer_set t m = do
  init_mmio
  (m', catches) ← init_monitor e opts m
  init_device initialised handled timer_set
  traced_exec (2 ^ 64 - 1) (started m'.machine t)
