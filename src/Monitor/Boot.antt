-- ===== src/Monitor/Boot.antt =====
-- The first instruction (init_monitor of src/monitor/monitor.c, bram_init of src/dev/bram.c).
use nemu_riscv.Base.{
  ℕ, suc, ◌+◌, ◌/◌, ◌%◌, ◌^◌, ◌<◌, ◌≡◌, ◌≢◌, ◌∙◌, refl, ap, sym, arith, false, ok, abort,
}
use nemu_riscv.Base.{bit_or, bit_and, bit_or-add, shr, inl}
use nemu_riscv.Ram.{load_host, store_host, read_handler}
use nemu_riscv.Ram.Access.{
  IsBytes, four, load_host-store_host, load_host_outside, store_host-IsBytes, read_handler_lem,
}
use nemu_riscv.Decode.Tables.{dispatch_compressed}
use nemu_riscv.Address.{prot_addr}
use nemu_riscv.System.{System, bram_init, bram_size, nemu_running, nemu_end}
use nemu_riscv.Memory.{load_mem, instr_fetch}
use nemu_riscv.Run.{Machine, cpu_init_pc, init_cpu, step, exec_loop, cpu_exec, set_state}
use nemu_riscv.Monitor.{}
use nemu_riscv.Run.Compose.{cpu_exec-active}

-- The first word of the boot code.
abbrev boot_word : ℕ → ℕ
boot_word entry = bit_or 0x3c080000 (shr entry 16)

boot_word-sum : (entry : ℕ) → entry < 2 ^ 32 → boot_word entry ≡ 0x3c080000 + entry / 2 ^ 16
boot_word-sum entry h = bit_or-add 16 0x3c080000 (entry / 2 ^ 16) (omega arith) (omega arith)

module _ (p : ℕ → ℕ) (w0 w1 w2 w3 : ℕ) where
  abbrev two_words : ℕ → ℕ
  two_words = store_host (store_host p 0 4 w0) 4 4 w1

  abbrev four_words : ℕ → ℕ
  four_words = store_host (store_host two_words 8 4 w2) 12 4 w3

  four_words-IsBytes : IsBytes p → IsBytes four_words
  four_words-IsBytes h =
      store_host-IsBytes _ 12 4 w3
        (store_host-IsBytes _ 8 4 w2 (store_host-IsBytes _ 4 4 w1 (store_host-IsBytes p 0 4 w0 h)))

  first_word : load_host four_words 0 4 ≡ w0 % 256 ^ 4
  first_word =
      load_host_outside (store_host two_words 8 4 w2) 12 4 w3 0 4 (inl (omega arith))
      ∙ load_host_outside two_words 8 4 w2 0 4 (inl (omega arith))
      ∙ load_host_outside (store_host p 0 4 w0) 4 4 w1 0 4 (inl (omega arith))
      ∙ load_host-store_host p 0 4 w0

abbrev boot_code : (ℕ → ℕ) → ℕ → ℕ → ℕ
boot_code p entry =
    four_words p (boot_word entry) (bit_or 0x25080000 (bit_and entry 0xFFFF)) 0x01000008 0

bram_init-boot_code :
    (s : System) (entry : ℕ)
    → s.bram_mapped ≡ false
    → bram_init s entry ≡ record s { bram = boot_code s.bram entry }
unfolding bram_init
bram_init-boot_code s entry plain = rw plain refl

boot_code-read :
    (p : ℕ → ℕ) (entry : ℕ)
    → IsBytes p
    → entry < 2 ^ 32
    → read_handler bram_size (boot_code p entry) 0 4 ≡ ok (0x3c080000 + entry / 2 ^ 16)
boot_code-read p entry h small =
    let fits : (0x3c080000 + entry / 2 ^ 16) % 256 ^ 4 ≡ 0x3c080000 + entry / 2 ^ 16 =
      omega arith in
    read_handler_lem bram_size (boot_code p entry) 0 4 (four_words-IsBytes p _ _ _ _ h) four
      (omega arith)
    ∙ ap ok (first_word p _ _ _ _ ∙ ap (λ (w : ℕ). w % 256 ^ 4) (boot_word-sum entry small) ∙ fits)

-- The fetch at the first pc.
boot_code-fetch :
    (s : System) (entry : ℕ)
    → IsBytes s.bram
    → entry < 2 ^ 32
    → instr_fetch (record s { bram = boot_code s.bram entry }) cpu_init_pc
      ≡ ok (0x3c080000 + entry / 2 ^ 16, record s { bram = boot_code s.bram entry })
unfolding instr_fetch load_mem prot_addr
boot_code-fetch s entry h small = rw (boot_code-read s.bram entry h small) refl

-- The machine as `init_monitor` leaves it.
abbrev pub booted : Machine → ℕ → Machine
booted m entry = record m { cpu = init_cpu m.cpu cpu_init_pc; sys = bram_init m.sys entry }

step-booted :
    (m : Machine) (entry : ℕ)
    → m.sys.bram_mapped ≡ false
    → IsBytes m.sys.bram
    → entry < 2 ^ 32
    → entry / 2 ^ 16 % 4 ≢ 3
    → step (booted m entry) ≡ abort
unfolding step init_cpu
step-booted m entry plain h small odd =
    rw
      (
        bram_init-boot_code m.sys entry plain,
        boot_code-fetch m.sys entry h small,
        dispatch_compressed (0x3c080000 + entry / 2 ^ 16) (λ e. odd (omega arith)),
      )
      refl

pub bram_init-state :
    (s : System) (entry : ℕ) → s.bram_mapped ≡ false → (bram_init s entry).nemu_state ≡ s.nemu_state
bram_init-state s entry plain = ap (λ t. t.nemu_state) (bram_init-boot_code s entry plain)

set_state-booted :
    (m : Machine) (entry : ℕ)
    → m.sys.bram_mapped ≡ false
    → set_state (booted m entry) nemu_running ≡ booted (set_state m nemu_running) entry
set_state-booted m entry plain =
    let running = set_state m nemu_running in
    rw (bram_init-boot_code m.sys entry plain, bram_init-boot_code running.sys entry plain) refl

exec_loop-booted :
    (n : ℕ) (m : Machine) (entry : ℕ)
    → m.sys.bram_mapped ≡ false
    → IsBytes m.sys.bram
    → entry < 2 ^ 32
    → entry / 2 ^ 16 % 4 ≢ 3
    → exec_loop (suc n) (booted m entry) ≡ abort
unfolding exec_loop
exec_loop-booted n m entry plain h small odd = rw (step-booted m entry plain h small odd) refl

-- Where no image was loaded to the start of the block RAM, and bits 16 and 17 of the entry point
-- are not both 1: the boot code that `bram_init` writes makes the emulator abort at its first
-- instruction, unless the emulation has ended before. (The word is a MIPS instruction.)
pub cpu_exec-booted :
    (n : ℕ) (m : Machine) (entry : ℕ)
    → m.sys.nemu_state ≢ nemu_end
    → m.sys.bram_mapped ≡ false
    → IsBytes m.sys.bram
    → entry < 2 ^ 32
    → entry / 2 ^ 16 % 4 ≢ 3
    → cpu_exec (suc n) (booted m entry) ≡ abort
cpu_exec-booted n m entry active plain h small odd =
    let running = set_state m nemu_running in
    cpu_exec-active (suc n) (booted m entry)
      (λ e. active (sym (bram_init-state m.sys entry plain) ∙ e))
    ∙ ap (exec_loop (suc n)) (set_state-booted m entry plain)
    ∙ exec_loop-booted n running entry plain h small odd
