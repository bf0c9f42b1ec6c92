-- ===== src/Serial/Fifo.antt =====
-- The receive queue of src/dev/serial.c as a bounded queue: the bytes between `serial_f` and
-- `serial_r`, oldest first.
use nemu_riscv.Base.{ℕ, ◌+◌, ◌%◌, ◌<◌, ◌≡◌, ◌≢◌, ◌∙◌, sym, ap, arith}
use nemu_riscv.Base.{List, [], ◌∷◌, ◌++◌, append-snoc, update}
use nemu_riscv.Base.{true, false, ◌==◌, not_eq, if◌then◌else◌, Bool-cases, ◌⊎◌, inl, inr}
use nemu_riscv.Base.{ok}
use nemu_riscv.Ring.{
  items, ring_count, ring_items, ring_items-store, ring_items-next, take-ring_items_full,
  take-ring_items_nil,
}
use nemu_riscv.Base.{take}
use nemu_riscv.Serial.{Serial, enqueue_string, serial_read, serial_peek}
use nemu_riscv.Serial.{serial_queue_len, uartlite_rx, uartlite_stat}

abbrev pub contents : Serial → List ℕ
contents s = ring_items s.serial_queue s.serial_f s.serial_r

-- Both indices are inside the array.
abbrev pub IsFifo : Serial → Type 0
IsFifo s = (s.serial_f < 1024) × (s.serial_r < 1024)

-- The queue after one more byte.
abbrev pub stored : Serial → ℕ → Serial
stored s ch = record s {
  serial_queue = update s.serial_queue s.serial_r ch;
  serial_r = (s.serial_r + 1) % serial_queue_len;
}

pub enqueue_string-room :
    (s : Serial) (ch : ℕ) (p : List ℕ)
    → not_eq ((s.serial_r + 1) % 1024) s.serial_f ≡ true
    → enqueue_string s (ch ∷ p) ≡ enqueue_string (stored s ch) p
unfolding enqueue_string
enqueue_string-room s ch p room = ap (λ b. if b then enqueue_string (stored s ch) p else s) room

pub enqueue_string-full :
    (s : Serial) (ch : ℕ) (p : List ℕ)
    → not_eq ((s.serial_r + 1) % 1024) s.serial_f ≡ false
    → enqueue_string s (ch ∷ p) ≡ s
unfolding enqueue_string
enqueue_string-full s ch p full = ap (λ b. if b then enqueue_string (stored s ch) p else s) full

enqueue_string-nil :
    (s : Serial)
    → IsFifo s
    → IsFifo (enqueue_string s []) × (contents (enqueue_string s []) ≡ take 1023 (contents s ++ []))
unfolding enqueue_string
enqueue_string-nil s h = (h, sym (take-ring_items_nil s.serial_queue s.serial_f s.serial_r))

-- Where both indices are inside the array, enqueueing a string appends it to the queue, cut where
-- the queue holds 1023 bytes: what is there stays in order, and only the end of the string is lost.
-- The indices stay inside the array.
pub enqueue_string-contents :
    (s : Serial) (p : List ℕ)
    → IsFifo s
    → IsFifo (enqueue_string s p) × (contents (enqueue_string s p) ≡ take 1023 (contents s ++ p))
enqueue_string-contents s [] h = enqueue_string-nil s h
enqueue_string-contents s (ch ∷ p) (hf, hr) =
    elim (Bool-cases (not_eq ((s.serial_r + 1) % 1024) s.serial_f)) [
      | inl room ↦
          let (fifo, rest) = enqueue_string-contents (stored s ch) p (hf, omega arith) in
          let one_more =
            ring_items-store s.serial_queue s.serial_f s.serial_r ch hf hr (λ e. ground arith) in
          let joined =
            ap (λ xs. take 1023 (xs ++ p)) one_more
            ∙ ap (take 1023) (append-snoc (contents s) ch p) in
          rw (enqueue_string-room s ch p room) (fifo, rest ∙ joined)
      | inr full ↦
          let fits =
            take-ring_items_full s.serial_queue s.serial_f s.serial_r (ch ∷ p) hf hr
              (ground arith) in
          rw (enqueue_string-full s ch p full) ((hf, hr), sym fits)
    ]

abbrev popped : Serial → Serial
popped s = record s { serial_f = (s.serial_f + 1) % serial_queue_len }

serial_read-empty :
    (s : Serial) (len : ℕ)
    → s.serial_f ≡ s.serial_r
    → (serial_read s uartlite_rx len ≡ ok (s.serial_queue s.serial_f, s))
      × (serial_read s uartlite_stat len ≡ ok (0, s))
unfolding serial_read serial_peek
serial_read-empty s len same = ground arith

serial_read-pops :
    (s : Serial) (len : ℕ)
    → s.serial_f ≢ s.serial_r
    → (serial_read s uartlite_rx len ≡ ok (s.serial_queue s.serial_f, popped s))
      × (serial_read s uartlite_stat len ≡ ok (1, s))
unfolding serial_read serial_peek
serial_read-pops s len differ = ground arith

-- Where both indices are inside the array: with an empty queue, the status register reads 0, and a
-- read of the receive register changes nothing. Otherwise the status register reads 1, and a read of the receive register returns the
-- oldest byte and takes it out of the queue.
pub serial_read-contents :
    (s : Serial) (len : ℕ)
    → IsFifo s
    → ((contents s ≡ [])
        × (serial_read s uartlite_stat len ≡ ok (0, s))
        × (serial_read s uartlite_rx len ≡ ok (s.serial_queue s.serial_f, s)))
      ⊎ ((x : ℕ) × (s' : Serial) × (contents s ≡ x ∷ contents s')
          × IsFifo s'
          × (serial_read s uartlite_stat len ≡ ok (1, s))
          × (serial_read s uartlite_rx len ≡ ok (x, s')))
serial_read-contents s len (hf, hr) = elim (Bool-cases (s.serial_f == s.serial_r)) [
  | inl same ↦
      let equal : s.serial_f ≡ s.serial_r = ground arith in
      let none_left : ring_count s.serial_f s.serial_r ≡ 0 = omega arith in
      let (rx, stat) = serial_read-empty s len equal in
      inl (ap (items s.serial_queue s.serial_f) none_left, stat, rx)
  | inr apart ↦
      let differ : s.serial_f ≢ s.serial_r = λ e. ground arith in
      let (rx, stat) = serial_read-pops s len differ in
      inr (
        s.serial_queue s.serial_f,
        popped s,
        ring_items-next s.serial_queue s.serial_f s.serial_r hf hr differ,
        (omega arith, hr),
        stat,
        rx,
      )
]
