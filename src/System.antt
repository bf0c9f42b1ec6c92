-- ===== src/System.antt =====
-- What the emulator keeps besides the CPU, and the devices that are plain memory: the DDR of
-- src/dev/ddr.c, the block RAM of src/dev/bram.c, the trap device of src/dev/gpio.c, and
-- `nemu_state` and `work_mode` of include/monitor.h.
pub mod Mapped
use nemu_riscv.Base.{ℕ, ◌+◌, ◌*◌, Bool, true, ◌&&◌, ◌==◌, not_eq, ltb, leb}
use nemu_riscv.Base.{if◌then◌else◌, u8, u32, bit_and, bit_or, shr, List, [], ◌∷◌, ◌++◌}
use nemu_riscv.Base.{Outcome, ok, exit, ◌>>=◌, ◌>>◌, cpu_assert}
use nemu_riscv.Ram.{read_masked_word, write_masked_word, store_host}
use nemu_riscv.Serial.{Serial}
use nemu_riscv.Mac.{Mac}

-- NEMU_STOP, NEMU_RUNNING and NEMU_END
pub data NemuState : Type 0 where
  nemu_stop nemu_running nemu_end : NemuState

abbrev pub mode_gdb : ℕ
mode_gdb = 0

abbrev pub mode_batch : ℕ
mode_batch = 1

abbrev pub mode_diff : ℕ
mode_diff = bit_or 2 mode_batch

abbrev pub mode_log : ℕ
mode_log = bit_or 4 mode_batch

abbrev pub ddr_base : ℕ
ddr_base = 0x00000000

abbrev pub ddr_size : ℕ
ddr_size = 128 * 1024 * 1024

abbrev pub bram_base : ℕ
bram_base = 0x1fc00000

abbrev pub bram_size : ℕ
bram_size = 1024 * 1024

-- What `gpio_write` prints.
pub data TrapMessage : Type 0 where
  hit_good_trap : TrapMessage
  hit_bad_trap : ℕ → TrapMessage

pub record System : Type 0 where
  pub ddr : ℕ → ℕ
  pub ddr_mapped_size : ℕ
  pub bram : ℕ → ℕ
  pub bram_mapped_size : ℕ
  pub bram_mapped : Bool
  pub vmem : ℕ → ℕ
  pub serial : Serial
  pub mac : Mac
  pub nemu_state : NemuState
  pub work_mode : ℕ
  pub stderr : List TrapMessage

-- What `ddr_map` and `bram_map` return: `&ddr[i]` or `&bram[i]`.
pub data Pointer : Type 0 where
  in_ddr : ℕ → Pointer
  in_bram : ℕ → Pointer

abbrev pub check_ddr : ℕ → ℕ → Bool
check_ddr addr len = ltb addr ddr_size && leb (u32 (addr + len)) ddr_size

unfoldable pub ddr_map : System → ℕ → ℕ → Outcome (Pointer × System)
ddr_map s addr len = do
  cpu_assert (check_ddr addr len)
  let top = u32 (addr + len)
  ok (in_ddr addr, if leb s.ddr_mapped_size top then record s { ddr_mapped_size = top } else s)

-- `map_result_t`: the start of an array, and how far it has been mapped.
pub record MapResult : Type 0 where
  pub p : Pointer
  pub size : ℕ

unfoldable pub ddr_mapped_result : System → MapResult
ddr_mapped_result s = record { p = in_ddr 0; size = s.ddr_mapped_size }

unfoldable pub ddr_read : System → ℕ → ℕ → Outcome (ℕ × System)
ddr_read s addr len = do
  cpu_assert (check_ddr addr len)
  word ← read_masked_word ddr_size s.ddr addr len
  ok (word, s)

unfoldable pub ddr_write : System → ℕ → ℕ → ℕ → Outcome System
ddr_write s addr len word = do
  cpu_assert (check_ddr addr len)
  ddr' ← write_masked_word ddr_size s.ddr addr len word
  ok (record s { ddr = ddr' })

abbrev pub check_bram : ℕ → ℕ → Bool
check_bram addr len = ltb addr bram_size && leb (u32 (addr + len)) bram_size

unfoldable pub bram_map : System → ℕ → ℕ → Outcome (Pointer × System)
bram_map s addr len = do
  cpu_assert (check_bram addr len)
  let top = u32 (addr + len)
  let marked = if addr == 0 then record s { bram_mapped = true } else s
  ok (
    in_bram addr,
    if leb marked.bram_mapped_size top then record marked { bram_mapped_size = top } else marked,
  )

unfoldable pub bram_mapped_result : System → MapResult
bram_mapped_result s = record { p = in_bram 0; size = s.bram_mapped_size }

unfoldable pub bram_read : System → ℕ → ℕ → Outcome (ℕ × System)
bram_read s addr len = do
  cpu_assert (check_bram addr len)
  word ← read_masked_word bram_size s.bram addr len
  ok (word, s)

unfoldable pub bram_write : System → ℕ → ℕ → ℕ → Outcome System
bram_write s addr len word = do
  cpu_assert (check_bram addr len)
  bram' ← write_masked_word bram_size s.bram addr len word
  ok (record s { bram = bram' })

-- Four words of boot code, unless an image was loaded over them.
unfoldable pub bram_init : System → ℕ → System
unfolding store_host
bram_init s entry =
    let p0 = store_host s.bram 0 4 (bit_or 0x3c080000 (shr entry 16)) in
    let p1 = store_host p0 4 4 (bit_or 0x25080000 (bit_and entry 0xFFFF)) in
    let p2 = store_host p1 8 4 0x01000008 in
    let p3 = store_host p2 12 4 0x00000000 in if s.bram_mapped then s else record s { bram = p3 }

-- The number in the message of a bad trap is the value of the test, as in the source.
unfoldable pub gpio_write : System → ℕ → ℕ → ℕ → Outcome System
gpio_write s addr len word = do
  cpu_assert (addr == 0)
  cpu_assert (len == 1)
  let message = if u8 word == 0 then hit_good_trap else hit_bad_trap (if u8 word == 0 then 1 else 0)
  let ended = record s { stderr = s.stderr ++ message ∷ []; nemu_state = nemu_end }
  if not_eq (bit_and s.work_mode mode_batch) 0 then exit else ok ended
