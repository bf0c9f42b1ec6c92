-- ===== src/Monitor/Image.antt =====
-- The name that `assume_elf_file` takes for the ELF file (src/monitor/monitor.c).
use nemu_riscv.Base.{◌≡◌, refl, [], ◌∷◌, ◌++◌, none, some, ok}
use nemu_riscv.Files.{FileName}
use nemu_riscv.Monitor.{Monitor, before_dot, assume_elf_file}

before_dot-append :
    (stem ext : FileName) → before_dot ext ≡ none → before_dot (stem ++ b'.' ∷ ext) ≡ some stem
unfolding before_dot
before_dot-append [] ext h = rw h refl
before_dot-append (ch ∷ stem) ext h = rw (before_dot-append stem ext h) refl

-- Where the image is `stem`, a dot and an extension without one, the ELF file is `stem`, and so is
-- the image from then on.
assume_elf_file_lem :
    (m : Monitor) (stem ext : FileName)
    → m.img_file ≡ some (stem ++ b'.' ∷ ext)
    → before_dot ext ≡ none
    → assume_elf_file m ≡ ok (record m { elf_file = some stem; img_file = some stem })
unfolding assume_elf_file
assume_elf_file_lem m stem ext img h = rw (assume_elf_file, img, before_dot-append stem ext h) refl
