-- ===== src/Ram/Access.antt =====
-- The two ways to read a byte array agree, and so do the two ways to write it; what is written is
-- read back, and no other byte changes.
use nemu_riscv.Base.{ℕ, zero, suc, ◌+◌, ◌*◌, ◌/◌, ◌%◌, ◌^◌, ◌≤◌, ◌<◌, bit_or}
use nemu_riscv.Base.{◌≡◌, refl, ap, arith, update, u8, ok, le→leb, ◌⊎◌}
use nemu_riscv.Base.{bit_or_fields, bit_or-add, bit_and_mask, ◌<<◌, sym, ◌∙◌}
use native.Mathlib.Nat.{pow-suc, add_assoc, one-le-pow, mod-lt, mod-eq_of_lt}
use native.Mathlib.Nat.{add-mul-mod_self_right, div-add-mod}
use mathlib.Core.Path.{◌≡⟨◌⟩◌, ◌∎}
use nemu_riscv.Ram.{read_handler, write_handler, load_host, store_host}
use nemu_riscv.Ram.{read_masked_word, write_masked_word}

-- Every cell holds a byte.
abbrev pub IsBytes : (ℕ → ℕ) → Type 0
IsBytes p = (i : ℕ) → p i < 256

-- The lengths that the emulator passes.
pub data IsLen : ℕ → Type 0 where
  one : IsLen 1
  two : IsLen 2
  four : IsLen 4

pub load_host-lt : (p : ℕ → ℕ) (a n : ℕ) → IsBytes p → load_host p a n < 256 ^ n
unfolding load_host
load_host-lt p a zero h = omega arith
load_host-lt p a (suc n) h = omega (arith, pow-suc 256 n, load_host-lt p (a + 1) n h, h a)

-- `p[a..a+4)` written as one sum.
load_host_four :
    (p : ℕ → ℕ) (a : ℕ)
    → load_host p a 4 ≡ p (a + 3) * 2 ^ 24 + p (a + 2) * 2 ^ 16 + p (a + 1) * 2 ^ 8 + p a
unfolding load_host
load_host_four p a = rw (add_assoc, add_assoc) (omega arith)

or_bytes :
    (d c b a : ℕ)
    → d < 256
    → c < 256
    → b < 256
    → a < 256
    → bit_or (bit_or (bit_or (d << 24) (c << 16)) (b << 8)) a
      ≡ d * 2 ^ 24 + c * 2 ^ 16 + b * 2 ^ 8 + a
or_bytes d c b a hd hc hb ha = rw (
  bit_or-add 24 (d << 24) (c << 16) (omega arith) (omega arith),
  bit_or-add 16 (d << 24 + c << 16) (b << 8) (omega arith) (omega arith),
  bit_or-add 8 (d << 24 + c << 16 + b << 8) a (omega arith) (omega arith),
)

-- `read_handler` puts the bytes together as the host does.
pub read_handler_lem :
    (size : ℕ) (p : ℕ → ℕ) (a len : ℕ)
    → IsBytes p
    → IsLen len
    → a + len ≤ size
    → read_handler size p a len ≡ ok (load_host p a len)
unfolding read_handler load_host
read_handler_lem size p a len h one fits = rw (le→leb (a + 1) size fits) (ap ok (omega arith))
read_handler_lem size p a len h two fits =
    rw (le→leb (a + 2) size fits)
      (ap ok (omega (arith, h a, bit_or_fields 8 (p (a + 1)) (p a) (h a))))
read_handler_lem size p a len h four fits = rw (le→leb (a + 4) size fits) (
    ap ok (
      or_bytes (p (a + 3)) (p (a + 2)) (p (a + 1)) (p a) (h _) (h _) (h _) (h _)
      ∙ sym (load_host_four p a)))

load_host_prefix :
    (p : ℕ → ℕ) (a len : ℕ)
    → IsBytes p
    → IsLen len
    → load_host p a 4 % 2 ^ (8 * len) ≡ load_host p a len
unfolding load_host
load_host_prefix p a len h one = omega (arith, h a)
load_host_prefix p a len h two = omega (arith, h a, h (a + 1))
load_host_prefix p a len h four = omega (arith, load_host-lt p a 4 h)

-- `read_masked_word` loads four bytes and keeps the lowest `len`, so it needs four in the array.
pub read_masked_word_lem :
    (size : ℕ) (p : ℕ → ℕ) (a len : ℕ)
    → IsBytes p
    → IsLen len
    → a + 4 ≤ size
    → read_masked_word size p a len ≡ ok (load_host p a len)
unfolding read_masked_word
read_masked_word_lem size p a len h one fits =
    rw (le→leb (a + 4) size fits, bit_and_mask 8 (load_host p a 4))
      (ap ok (load_host_prefix p a 1 h one))
read_masked_word_lem size p a len h two fits =
    rw (le→leb (a + 4) size fits, bit_and_mask 16 (load_host p a 4))
      (ap ok (load_host_prefix p a 2 h two))
read_masked_word_lem size p a len h four fits =
    rw (le→leb (a + 4) size fits, bit_and_mask 32 (load_host p a 4))
      (ap ok (load_host_prefix p a 4 h four))

-- `write_handler` stores what `memcpy` stores.
pub write_handler_lem :
    (size : ℕ) (p : ℕ → ℕ) (a len word : ℕ)
    → IsLen len
    → a + len ≤ size
    → write_handler size p a len word ≡ ok (store_host p a len word)
unfolding write_handler store_host
write_handler_lem size p a len word one fits = rw (le→leb (a + 1) size fits)
write_handler_lem size p a len word two fits =
    rw (le→leb (a + 2) size fits, bit_and_mask 8 word, bit_and_mask 8 (word / 256))
write_handler_lem size p a len word four fits =
    let i2 : a + 1 + 1 ≡ a + 2 = omega arith in
    let i3 : a + 2 + 1 ≡ a + 3 = omega arith in
    let w2 : word / 256 / 256 ≡ word / 2 ^ 16 = omega arith in
    let w3 : word / 2 ^ 16 / 256 ≡ word / 2 ^ 24 = omega arith in
    rw (
      le→leb (a + 4) size fits,
      i2,
      i3,
      w2,
      w3,
      bit_and_mask 8 word,
      bit_and_mask 8 (word / 2 ^ 8),
      bit_and_mask 8 (word / 2 ^ 16),
      bit_and_mask 8 (word / 2 ^ 24),
    )

pub write_masked_word_lem :
    (size : ℕ) (p : ℕ → ℕ) (a len word : ℕ)
    → IsLen len
    → a + len ≤ size
    → write_masked_word size p a len word ≡ ok (store_host p a len word)
unfolding write_masked_word
write_masked_word_lem size p a len word one fits = rw (le→leb (a + 1) size fits)
write_masked_word_lem size p a len word two fits = rw (le→leb (a + 2) size fits)
write_masked_word_lem size p a len word four fits = rw (le→leb (a + 4) size fits)

-- A store leaves every byte outside its range as it was.
pub store_host_outside :
    (p : ℕ → ℕ) (a n word j : ℕ) → (j < a) ⊎ (a + n ≤ j) → store_host p a n word j ≡ p j
unfolding store_host
store_host_outside p a zero word j h = refl
store_host_outside p a (suc n) word j h =
    ground (arith, store_host_outside (update p a (u8 word)) (a + 1) n (word / 256) j)

-- The remainder by `m * 256`, from the lowest byte and the remainder of the rest by `m`.
mod_byte : (m word : ℕ) → 1 ≤ m → word % (m * 256) ≡ word % 256 + 256 * (word / 256 % m)
mod_byte m word h =
    word % (m * 256)
    ≡⟨ ap (λ k. k % (m * 256)) split ⟩ (low + word / 256 / m * (m * 256)) % (m * 256)
    ≡⟨ add-mul-mod_self_right low (word / 256 / m) (m * 256) ⟩ low % (m * 256)
    ≡⟨ mod-eq_of_lt (omega (arith, mod-lt (word / 256) h)) ⟩ low ∎
  where
    low : ℕ
    low = word % 256 + 256 * (word / 256 % m)

    split : word ≡ low + word / 256 / m * (m * 256)
    split = omega (arith, ap (λ (t : ℕ). t * 256) (div-add-mod (word / 256) m))

-- A load of what was stored gives the word back, cut to its length.
pub load_host-store_host :
    (p : ℕ → ℕ) (a n word : ℕ) → load_host (store_host p a n word) a n ≡ word % 256 ^ n
unfolding load_host store_host
load_host-store_host p a zero word = omega arith
load_host-store_host p a (suc n) word =
    let p' : ℕ → ℕ = update p a (u8 word) in
    ground (
      arith,
      mod_byte (256 ^ n) word (one-le-pow n 256 (omega arith)),
      pow-suc 256 n,
      load_host-store_host p' (a + 1) n (word / 256),
      store_host_outside p' (a + 1) n (word / 256) a,
    )

pub store_host-IsBytes : (p : ℕ → ℕ) (a n word : ℕ) → IsBytes p → IsBytes (store_host p a n word)
unfolding store_host
store_host-IsBytes p a zero word h = h
store_host-IsBytes p a (suc n) word h =
    store_host-IsBytes (update p a (u8 word)) (a + 1) n (word / 256) (λ i. ground (arith, h i))

pub IsLen-bounds : {n : ℕ} → IsLen n → (1 ≤ n) × (n ≤ 4)
IsLen-bounds one = omega arith
IsLen-bounds two = omega arith
IsLen-bounds four = omega arith

-- A load beside the stored bytes does not see the store.
pub load_host_outside :
    (p : ℕ → ℕ) (a n word b m : ℕ)
    → (b + m ≤ a) ⊎ (a + n ≤ b)
    → load_host (store_host p a n word) b m ≡ load_host p b m
unfolding load_host
load_host_outside p a n word b zero h = refl
load_host_outside p a n word b (suc m) h =
    ground (arith, store_host_outside p a n word b, load_host_outside p a n word (b + 1) m)
