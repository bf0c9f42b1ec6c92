-- ===== src/Monitor/Options.antt =====
-- What a list of options sets (parse_args of src/monitor/monitor.c).
use nemu_riscv.Base.{
  ℕ, ◌≡◌, refl, List, [], ◌∷◌, Option, none, some, Returns, Returns-map, ◌∙◌, bit_or,
}
use nemu_riscv.System.{mode_batch}
use nemu_riscv.Files.{FileName}
use nemu_riscv.Monitor.{Opt, opt_symbol, opt_uimage, opt_elf, opt_image, opt_diff, opt_batch}
use nemu_riscv.Monitor.{opt_commit, opt_help, opt_other, Setting, Monitor, parse_args}
use nemu_riscv.System.{mode_diff, mode_log}
use nemu_riscv.Monitor.{or_mode, keep_first}

-- Neither `-u`, which loads an image at once, nor one that prints the help and ends.
abbrev pub AllPlain : List Opt → Type 0
AllPlain [] = Unit {0}
AllPlain (opt_uimage name ∷ rest) = ⊥
AllPlain (opt_help ∷ rest) = ⊥
AllPlain (opt_other ∷ rest) = ⊥
AllPlain (opt_symbol name ∷ rest) = AllPlain rest
AllPlain (opt_elf name ∷ rest) = AllPlain rest
AllPlain (opt_image name ∷ rest) = AllPlain rest
AllPlain (opt_diff ∷ rest) = AllPlain rest
AllPlain (opt_batch ∷ rest) = AllPlain rest
AllPlain (opt_commit ∷ rest) = AllPlain rest

-- The first `-e` and the first `-i`, and the last `-S`.
abbrev pub first_elf : List Opt → Option FileName
first_elf [] = none
first_elf (opt_elf name ∷ rest) = some name
first_elf (opt ∷ rest) = first_elf rest

abbrev pub first_image : List Opt → Option FileName
first_image [] = none
first_image (opt_image name ∷ rest) = some name
first_image (opt ∷ rest) = first_image rest

abbrev pub last_symbol : Option FileName → List Opt → Option FileName
last_symbol old [] = old
last_symbol old (opt_symbol name ∷ rest) = last_symbol (some name) rest
last_symbol old (opt ∷ rest) = last_symbol old rest

abbrev flag_of : Opt → ℕ → ℕ
flag_of opt_diff mode = bit_or mode mode_diff
flag_of opt_batch mode = bit_or mode mode_batch
flag_of opt_commit mode = bit_or mode mode_log
flag_of opt mode = mode

abbrev pub all_flags : List Opt → ℕ → ℕ
all_flags [] mode = mode
all_flags (opt ∷ rest) mode = all_flags rest (flag_of opt mode)

abbrev or_else : Option FileName → Option FileName → Option FileName
or_else none new = new
or_else (some old) new = some old

-- What plain options make of the variables.
pub record IsParsed (opts : List Opt) (m m' : Monitor) : Type 0 where
  pub elf : m'.elf_file ≡ or_else m.elf_file (first_elf opts)
  pub img : m'.img_file ≡ or_else m.img_file (first_image opts)
  pub symbols : m'.symbol_file ≡ last_symbol m.symbol_file opts
  pub entry : m'.elf_entry ≡ m.elf_entry
  pub kernel : m'.kernel_img ≡ m.kernel_img
  pub machine : m'.machine ≡ record (m.machine) {
    sys = record (m.machine.sys) { work_mode = all_flags opts m.machine.sys.work_mode };
  }

keep_first-or_else :
    (old : Option FileName) (name : FileName) (later : Option FileName)
    → or_else (keep_first old name) later ≡ or_else old (some name)
keep_first-or_else none name later = refl
keep_first-or_else (some file) name later = refl

or_else-none : (old : Option FileName) → old ≡ or_else old none
or_else-none none = refl
or_else-none (some file) = refl

-- With options other than `-u`, `-h` and unknown ones, `parse_args` returns: with the names of the
-- first `-e` and of the first `-i` where none was set before, the name of the last `-S`, and the
-- flags of all of `-D`, `-b` and `-c` in `work_mode`. Nothing else changes.
pub parse_args-IsParsed :
    (e : Setting) (opts : List Opt) (m : Monitor)
    → AllPlain opts
    → Returns (IsParsed opts m) (parse_args e opts m)
unfolding parse_args
parse_args-IsParsed e [] m h = record {
  elf = or_else-none m.elf_file;
  img = or_else-none m.img_file;
  symbols = refl;
  entry = refl;
  kernel = refl;
  machine = refl;
}
parse_args-IsParsed e (opt_elf name ∷ rest) m h =
    Returns-map (parse_args e rest _)
      (parse_args-IsParsed e rest (record m { elf_file = keep_first m.elf_file name }) h)
      λ m' p. record {
        elf = p.elf ∙ keep_first-or_else m.elf_file name (first_elf rest);
        img = p.img;
        symbols = p.symbols;
        entry = p.entry;
        kernel = p.kernel;
        machine = p.machine;
      }
parse_args-IsParsed e (opt_image name ∷ rest) m h =
    Returns-map (parse_args e rest _)
      (parse_args-IsParsed e rest (record m { img_file = keep_first m.img_file name }) h)
      λ m' p. record {
        elf = p.elf;
        img = p.img ∙ keep_first-or_else m.img_file name (first_image rest);
        symbols = p.symbols;
        entry = p.entry;
        kernel = p.kernel;
        machine = p.machine;
      }
parse_args-IsParsed e (opt_symbol name ∷ rest) m h =
    Returns-map (parse_args e rest _)
      (parse_args-IsParsed e rest (record m { symbol_file = some name }) h)
      λ m' p. record {
        elf = p.elf;
        img = p.img;
        symbols = p.symbols;
        entry = p.entry;
        kernel = p.kernel;
        machine = p.machine;
      }
parse_args-IsParsed e (opt_uimage name ∷ rest) m h = absurd h
parse_args-IsParsed e (opt_help ∷ rest) m h = absurd h
parse_args-IsParsed e (opt_other ∷ rest) m h = absurd h
parse_args-IsParsed e (opt_diff ∷ rest) m h =
    Returns-map (parse_args e rest _) (parse_args-IsParsed e rest (or_mode m mode_diff) h) λ m' p.
      record {
        elf = p.elf;
        img = p.img;
        symbols = p.symbols;
        entry = p.entry;
        kernel = p.kernel;
        machine = p.machine;
      }
parse_args-IsParsed e (opt_batch ∷ rest) m h =
    Returns-map (parse_args e rest _) (parse_args-IsParsed e rest (or_mode m mode_batch) h) λ m' p.
      record {
        elf = p.elf;
        img = p.img;
        symbols = p.symbols;
        entry = p.entry;
        kernel = p.kernel;
        machine = p.machine;
      }
parse_args-IsParsed e (opt_commit ∷ rest) m h =
    Returns-map (parse_args e rest _) (parse_args-IsParsed e rest (or_mode m mode_log) h) λ m' p.
      record {
        elf = p.elf;
        img = p.img;
        symbols = p.symbols;
        entry = p.entry;
        kernel = p.kernel;
        machine = p.machine;
      }
