-- ===== src/Ring.antt =====
-- Rings of 1024 entries with a front and a rear index, as the UART of src/dev/serial.c and the
-- keyboard of src/dev/keyboard.c keep them: one entry stays free, so that equal indices mean empty.
use nemu_riscv.Base.{ℕ, zero, suc, ◌+◌, ◌-◌, ◌%◌, ◌≤◌, ◌<◌, ◌≡◌, ◌≢◌, ◌∙◌, refl, sym, ap, arith}
use nemu_riscv.Base.{append-nil, List, [], ◌∷◌, ◌++◌, length, take, update, update_self, update_ne}

-- The `n` entries from index `f` on, round the array.
abbrev pub items : (ℕ → ℕ) → ℕ → ℕ → List ℕ
items q f zero = []
items q f (suc n) = q f ∷ items q ((f + 1) % 1024) n

-- How many entries the indices enclose.
abbrev pub ring_count : ℕ → ℕ → ℕ
ring_count f r = (r + 1024 - f) % 1024

-- The entries, oldest first.
abbrev pub ring_items : (ℕ → ℕ) → ℕ → ℕ → List ℕ
ring_items q f r = items q f (ring_count f r)

length-items : (q : ℕ → ℕ) (f n : ℕ) → length (items q f n) ≡ n
length-items q f zero = refl
length-items q f (suc n) = ap suc (length-items q ((f + 1) % 1024) n)

items-update :
    (q : ℕ → ℕ) (f n i v : ℕ)
    → f < 1024
    → n < 1024
    → i ≡ (f + n) % 1024
    → items (update q i v) f n ≡ items q f n
items-update q f zero i v hf hn hi = refl
items-update q f (suc n) i v hf hn hi =
    let differs : i ≢ f = λ e. omega arith in
    let rest = items-update q ((f + 1) % 1024) n i v (omega arith) (omega arith) (omega arith) in
    let first : update q i v f ≡ q f = update_ne q v differs in λ j. first j ∷ rest j

items-snoc :
    (q : ℕ → ℕ) (f n : ℕ) → f < 1024 → items q f (suc n) ≡ items q f n ++ q ((f + n) % 1024) ∷ []
items-snoc q f zero hf = let same : (f + 0) % 1024 ≡ f = omega arith in rw same
items-snoc q f (suc n) hf =
    let same : ((f + 1) % 1024 + n) % 1024 ≡ (f + suc n) % 1024 = omega arith in
    rw (← same) (ap (λ xs. q f ∷ xs) (items-snoc q ((f + 1) % 1024) n (omega arith)))

take-append-fits : (xs ys : List ℕ) (n : ℕ) → n ≡ length xs → take n (xs ++ ys) ≡ xs
take-append-fits [] ys zero h = refl
take-append-fits [] ys (suc n) h = absurd (omega arith)
take-append-fits (x ∷ xs) ys zero h = absurd (omega arith)
take-append-fits (x ∷ xs) ys (suc n) h = ap (λ t. x ∷ t) (take-append-fits xs ys n (omega arith))

take_all : (xs : List ℕ) (n : ℕ) → length xs ≤ n → take n xs ≡ xs
take_all [] zero h = refl
take_all [] (suc n) h = refl
take_all (x ∷ xs) zero h = absurd (omega arith)
take_all (x ∷ xs) (suc n) h = ap (λ t. x ∷ t) (take_all xs n (omega arith))

pub length-ring_items : (q : ℕ → ℕ) (f r : ℕ) → length (ring_items q f r) ≡ ring_count f r
length-ring_items q f r = length-items q f (ring_count f r)

-- A ring holds 1023 entries at most.
pub take-ring_items : (q : ℕ → ℕ) (f r : ℕ) → take 1023 (ring_items q f r) ≡ ring_items q f r
take-ring_items q f r =
    take_all (ring_items q f r) 1023 (rw (length-items q f (ring_count f r)) (omega arith))

-- An entry stored at the rear index, of a ring that is not full, comes last.
pub ring_items-store :
    (q : ℕ → ℕ) (f r v : ℕ)
    → f < 1024
    → r < 1024
    → (r + 1) % 1024 ≢ f
    → ring_items (update q r v) f ((r + 1) % 1024) ≡ ring_items q f r ++ v ∷ []
ring_items-store q f r v hf hr room =
    let more : ring_count f ((r + 1) % 1024) ≡ suc (ring_count f r) = omega arith in
    let last : (f + ring_count f r) % 1024 ≡ r = omega arith in
    let written : update q r v ((f + ring_count f r) % 1024) ≡ v =
      ap (update q r v) last ∙ update_self q r v in
    let before = items-update q f (ring_count f r) r v hf (omega arith) (sym last) in
    ap (items (update q r v) f) more
    ∙ items-snoc (update q r v) f (ring_count f r) hf
    ∙ (λ j. before j ++ written j ∷ [])

-- The entry at the front index comes first.
pub ring_items-next :
    (q : ℕ → ℕ) (f r : ℕ)
    → f < 1024
    → r < 1024
    → f ≢ r
    → ring_items q f r ≡ q f ∷ ring_items q ((f + 1) % 1024) r
ring_items-next q f r hf hr differ =
    let less : ring_count f r ≡ suc (ring_count ((f + 1) % 1024) r) = omega arith in
    ap (items q f) less

-- A full ring stays as it is when what follows is cut to 1023 entries.
pub take-ring_items_full :
    (q : ℕ → ℕ) (f r : ℕ) (more : List ℕ)
    → f < 1024
    → r < 1024
    → (r + 1) % 1024 ≡ f
    → take 1023 (ring_items q f r ++ more) ≡ ring_items q f r
take-ring_items_full q f r more hf hr full =
    let filled : ring_count f r ≡ 1023 = omega arith in
    take-append-fits (ring_items q f r) more 1023
      (sym filled ∙ sym (length-items q f (ring_count f r)))

pub take-ring_items_nil :
    (q : ℕ → ℕ) (f r : ℕ) → take 1023 (ring_items q f r ++ []) ≡ ring_items q f r
take-ring_items_nil q f r = ap (take 1023) (append-nil (ring_items q f r)) ∙ take-ring_items q f r
