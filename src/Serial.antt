-- ===== src/Serial.antt =====
-- The UART of src/dev/serial.c (uartlite protocol): the receive queue, the registers and the
-- output. `serial_queue` holds `int`s that come from `char`s; they are kept as the 32-bit patterns
-- that `serial_peek` returns. What `putchar` prints is the list `stdout`, oldest first.
pub mod Fifo
pub mod Interrupted
pub mod Keys
use nemu_riscv.Base.{ℕ, ◌+◌, ◌%◌, Bool, not_eq, ◌==◌, ◌&&◌, leb, if◌then◌else◌, update, u8}
use nemu_riscv.Base.{List, [], ◌∷◌, ◌++◌, true, false}
use nemu_riscv.Base.{Outcome, ok, abort, ◌>>=◌, ◌>>◌, cpu_assert}

abbrev pub uartlite_rx : ℕ
uartlite_rx = 0x0

abbrev pub uartlite_tx : ℕ
uartlite_tx = 0x4

abbrev pub uartlite_stat : ℕ
uartlite_stat = 0x8

abbrev pub uartlite_ctrl : ℕ
uartlite_ctrl = 0xC

abbrev pub serial_queue_len : ℕ
serial_queue_len = 1024

abbrev pub serial_size : ℕ
serial_size = 0x10

pub record Serial : Type 0 where
  pub serial_queue : ℕ → ℕ
  pub serial_f : ℕ
  pub serial_r : ℕ
  pub uartlite_ctrl_reg : ℕ
  pub sdlk_state : ℕ → Bool
  pub stdout : List ℕ

-- One byte into the queue, or dropped if the queue is full.
unfoldable pub serial_enqueue_ascii : Serial → ℕ → Serial
serial_enqueue_ascii s ch =
    let next = (s.serial_r + 1) % serial_queue_len in
    if not_eq next s.serial_f
    then record s { serial_queue = update s.serial_queue s.serial_r ch; serial_r = next }
    else s

-- The `while` loop of `serial_enqueue` over the rest of the string, which ends by `break` at the
-- first character that finds the queue full.
unfoldable pub enqueue_string : Serial → List ℕ → Serial
enqueue_string s [] = s
enqueue_string s (ch ∷ p) =
    let next = (s.serial_r + 1) % serial_queue_len in
    let stored = record s { serial_queue = update s.serial_queue s.serial_r ch; serial_r = next } in
    let rest = enqueue_string stored p in if not_eq next s.serial_f then rest else s

unfoldable pub serial_peek : Serial → ℕ → ℕ → Outcome ℕ
serial_peek s addr len = do
  cpu_assert (leb addr serial_size)
  if addr == uartlite_rx
      then ok (s.serial_queue s.serial_f)
      else if addr == uartlite_stat
      then ok (if s.serial_f == s.serial_r then 0 else 1)
      else if addr == uartlite_ctrl
      then ok s.uartlite_ctrl_reg
      else abort

unfoldable pub serial_read : Serial → ℕ → ℕ → Outcome (ℕ × Serial)
unfolding serial_peek
serial_read s addr len = do
  cpu_assert (leb addr serial_size)
  word ← serial_peek s addr len
  let pops = addr == uartlite_rx && not_eq s.serial_f s.serial_r
  let popped = record s { serial_f = (s.serial_f + 1) % serial_queue_len }
  ok (word, if pops then popped else s)

unfoldable pub serial_write : Serial → ℕ → ℕ → ℕ → Outcome Serial
serial_write s addr len word = do
  cpu_assert (leb addr serial_size)
  if addr == uartlite_tx
      then ok (record s { stdout = s.stdout ++ u8 word ∷ [] })
      else if addr == uartlite_ctrl
      then ok (record s { uartlite_ctrl_reg = word })
      else abort
