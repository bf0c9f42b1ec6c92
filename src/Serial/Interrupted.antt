-- ===== src/Serial/Interrupted.antt =====
-- `serial_read` of src/dev/serial.c with the timer signal in the middle of it. The handler of the
-- signal calls `serial_enqueue`, so it changes the queue between the reads of its indices.
use nemu_riscv.Base.{ℕ, ◌+◌, ◌%◌, ◌≡◌, ◌≢◌, ◌∙◌, refl, sym, ap, arith}
use nemu_riscv.Base.{List, [], ◌∷◌, ◌++◌, take, not_eq, ◌==◌, ◌&&◌, leb}
use nemu_riscv.Base.{Outcome, ok, ◌>>=◌, ◌>>◌, cpu_assert, if◌then◌else◌}
use nemu_riscv.Ring.{items, ring_count, ring_items-next}
use nemu_riscv.Serial.{Serial, enqueue_string, serial_read, serial_peek}
use nemu_riscv.Serial.{serial_queue_len, serial_size, uartlite_rx}
use nemu_riscv.Serial.Fifo.{contents, IsFifo, stored, enqueue_string-contents}

-- The signals that come after the call of `serial_peek` enqueue `early`, and those that come after
-- the test of the indices `late`.
unfoldable pub interrupted_read : List ℕ → List ℕ → Serial → ℕ → ℕ → Outcome (ℕ × Serial)
interrupted_read early late s addr len = do
  cpu_assert (leb addr serial_size)
  word ← serial_peek s addr len
  let t = enqueue_string s early
  let pops = addr == uartlite_rx && not_eq t.serial_f t.serial_r
  let u = enqueue_string t late
  ok (word, if pops then record u { serial_f = (u.serial_f + 1) % serial_queue_len } else u)

-- Without a signal this is `serial_read`.
interrupted_read-nil :
    (s : Serial) (addr len : ℕ) → interrupted_read [] [] s addr len ≡ serial_read s addr len
unfolding interrupted_read serial_read enqueue_string
interrupted_read-nil s addr len = refl

serial_f-enqueue_string : (s : Serial) (p : List ℕ) → (enqueue_string s p).serial_f ≡ s.serial_f
unfolding enqueue_string
serial_f-enqueue_string s [] = refl
serial_f-enqueue_string s (ch ∷ p) = ground (arith, serial_f-enqueue_string (stored s ch) p)

abbrev popped : Serial → Serial
popped s = record s { serial_f = (s.serial_f + 1) % serial_queue_len }

contents-empty : (s : Serial) → s.serial_f ≡ s.serial_r → contents s ≡ []
contents-empty s same =
    let none_left : ring_count s.serial_f s.serial_r ≡ 0 = omega arith in
    ap (items s.serial_queue s.serial_f) none_left

-- A queue that holds something has indices that differ.
indices-differ : (s : Serial) (x : ℕ) (xs : List ℕ) → contents s ≡ x ∷ xs → s.serial_f ≢ s.serial_r
indices-differ s x xs h same = let nothing = contents-empty s same in absurd (cc)

interrupted_read-rx :
    (s : Serial) (early late : List ℕ) (len : ℕ)
    → (enqueue_string s early).serial_f ≢ (enqueue_string s early).serial_r
    → interrupted_read early late s uartlite_rx len
      ≡ ok (s.serial_queue s.serial_f, popped (enqueue_string (enqueue_string s early) late))
unfolding interrupted_read serial_peek
interrupted_read-rx s early late len differ = ground arith

-- What a read at the receive register leaves, where its test finds a byte: the first byte is gone.
read_takes_first :
    (s : Serial) (early late : List ℕ) (len x : ℕ) (xs : List ℕ)
    → IsFifo s
    → take 1023 (contents s ++ early) ≡ x ∷ xs
    → (s' : Serial) × (interrupted_read early late s uartlite_rx len
        ≡ ok (s.serial_queue s.serial_f, s'))
      × IsFifo s'
      × (x ∷ contents s' ≡ take 1023 ((x ∷ xs) ++ late))
read_takes_first s early late len x xs fifo some_byte =
    let t = enqueue_string s early in
    let u = enqueue_string t late in
    let (fifo_t, after_t) = enqueue_string-contents s early fifo in
    let (fifo_u, after_u) = enqueue_string-contents t late fifo_t in
    let all : contents u ≡ take 1023 ((x ∷ xs) ++ late) =
      after_u ∙ ap (λ q. take 1023 (q ++ late)) (after_t ∙ some_byte) in
    let differ_t = indices-differ t x xs (after_t ∙ some_byte) in
    let differ_u = indices-differ u x (take 1022 (xs ++ late)) all in
    let next = ring_items-next u.serial_queue u.serial_f u.serial_r fifo_u.0 fifo_u.1 differ_u in
    let both : u.serial_queue u.serial_f ∷ contents (popped u) ≡ x ∷ take 1022 (xs ++ late) =
      sym next ∙ all in
    let front : u.serial_queue u.serial_f ≡ x = cc in
    (
      popped u,
      interrupted_read-rx s early late len differ_t,
      (omega arith, fifo_u.1),
      ap (λ y. y ∷ contents (popped u)) (sym front) ∙ sym next ∙ all,
    )

-- Where both indices are inside the array and the queue holds a byte: whatever signals enqueue after
-- `serial_peek` and after the test, the read returns the oldest byte, and the queue is as if that byte
-- had been taken after both (cut where it holds 1023 bytes).
pub interrupted_read-oldest :
    (s : Serial) (early late : List ℕ) (len x : ℕ) (xs : List ℕ)
    → IsFifo s
    → contents s ≡ x ∷ xs
    → (s' : Serial) × (interrupted_read early late s uartlite_rx len ≡ ok (x, s'))
      × IsFifo s'
      × (x ∷ contents s' ≡ take 1023 (take 1023 (contents s ++ early) ++ late))
interrupted_read-oldest s early late len x xs fifo holds =
    let joined : take 1023 (contents s ++ early) ≡ x ∷ take 1022 (xs ++ early) =
      ap (λ q. take 1023 (q ++ early)) holds in
    let (s', reads, fifo', left) =
      read_takes_first s early late len x (take 1022 (xs ++ early)) fifo joined in
    let next =
      ring_items-next s.serial_queue s.serial_f s.serial_r fifo.0 fifo.1
        (indices-differ s x xs holds) in
    let word : s.serial_queue s.serial_f ≡ x = cc in
    (
      s',
      reads ∙ ap (λ w. ok (w, s')) word,
      fifo',
      left ∙ ap (λ q. take 1023 (q ++ late)) (sym joined),
    )
