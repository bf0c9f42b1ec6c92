-- ===== src/Files/Reads.antt =====
-- When `read_file` of src/monitor/monitor.c ends, and with which bytes.
use nemu_riscv.Base.{
  ℕ, zero, suc, ◌+◌, ◌-◌, ◌^◌, ◌≤◌, ◌<◌, ◌≡◌, refl, arith, lt→ltb, ap, u64, if◌then◌else◌, ltb,
  true, false, Bool-cases,
}
use nemu_riscv.Base.{take, List, [], ◌∷◌, inl, inr, ok, fault, Returns, Returns->>=, ◌>>=◌, some}
use native.Mathlib.Nat.{sub-zero}
use nemu_riscv.Files.{Host, File, FileName, Stat, Buffer, Reading, read_once, read_loop, read_file}
use nemu_riscv.Files.{get_file_size, c_string}

-- What POSIX documents of `read` on a regular file of this length: it gives no more than what is
-- asked for and no more than is left, and not nothing where both are more.
abbrev pub ReadsFile : Host → FileName → File → Type 0
ReadsFile host name file =
    (call offset n : ℕ)
    → 0 < n
    → offset < file.file_size
    → (k : ℕ) × (host.read name call offset n ≡ some k)
      × (0 < k)
      × (k ≤ n)
      × (offset + k ≤ file.file_size)

-- After a call that gave `k` bytes.
abbrev advanced : File → Reading → ℕ → Reading
advanced file r k = record {
  len = u64 (r.len + k);
  bytes = λ i. if ltb i k then file.byte (r.offset + i) else r.bytes i;
  call = r.call + 1;
  offset = r.offset + k;
}

read_once-advanced :
    (host : Host) (name : FileName) (file : File) (size : ℕ) (r : Reading) (k : ℕ)
    → host.read name r.call r.offset (size - r.len) ≡ some k
    → read_once host name file size r ≡ advanced file r k
unfolding read_once
read_once-advanced host name file size r k given = rw (read_once, given) refl

read_loop-more :
    (calls : ℕ) (host : Host) (name : FileName) (file : File) (size : ℕ) (r : Reading) (k : ℕ)
    → r.len < size
    → host.read name r.call r.offset (size - r.len) ≡ some k
    → read_loop (suc calls) host name file size r
      ≡ read_loop calls host name file size (advanced file r k)
unfolding read_loop
read_loop-more calls host name file size r k less given =
    let more : ltb r.len size ≡ true = lt→ltb r.len size less in
    rw (read_loop, more)
      (ap (read_loop calls host name file size) (read_once-advanced host name file size r k given))

read_loop-done :
    (calls : ℕ) (host : Host) (name : FileName) (file : File) (size : ℕ) (r : Reading)
    → size ≤ r.len
    → read_loop calls host name file size r ≡ ok r.bytes
unfolding read_loop
read_loop-done zero host name file size r all = ground arith
read_loop-done (suc calls) host name file size r all = ground arith

-- Before the first call.
abbrev unread : Host → Reading
unread host = record { len = 0; bytes = host.fresh; call = 0; offset = 0 }

read_loop-Returns :
    (host : Host) (name : FileName) (file : File) (calls : ℕ) (r : Reading)
    → ReadsFile host name file
    → file.file_size < 2 ^ 64
    → r.offset ≡ r.len
    → r.len ≤ file.file_size
    → file.file_size ≤ r.len + calls
    → Returns (λ bytes. Unit {0}) (read_loop calls host name file file.file_size r)
read_loop-Returns host name file zero r reads small same within enough =
    rw (read_loop-done zero host name file file.file_size r (omega arith)) tt
read_loop-Returns host name file (suc calls) r reads small same within enough =
    elim (Bool-cases (ltb r.len file.file_size)) [
      | inl less ↦
          let below : r.len < file.file_size = ground arith in
          let (k, given, some_bytes, asked, left) =
            reads r.call r.offset (file.file_size - r.len) (omega arith) (omega arith) in
          rw (read_loop-more calls host name file file.file_size r k below given) (
            read_loop-Returns host name file calls (advanced file r k) reads small (omega arith)
              (omega arith) (omega arith))
      | inr all ↦ rw (read_loop-done (suc calls) host name file file.file_size r (ground arith)) tt
    ]

-- The bytes of a C string, its end left out.
abbrev AllNonzero : List ℕ → Type 0
AllNonzero [] = Unit {0}
AllNonzero (ch ∷ rest) = (0 < ch) × AllNonzero rest

c_string-fault : (p : List ℕ) (n : ℕ) → AllNonzero p → c_string (take n p) ≡ fault
unfolding c_string
c_string-fault p zero h = refl
c_string-fault [] (suc n) h = refl
c_string-fault (zero ∷ p) (suc n) h = absurd (omega arith)
c_string-fault (suc ch ∷ p) (suc n) h = rw (c_string-fault p n h.1) refl

plain_size :
    (links : ℕ) (host : Host) (name : FileName) (status : Stat)
    → host.lstat name ≡ some status
    → status.is_link ≡ false
    → get_file_size (suc links) host name ≡ ok status.st_size
unfolding get_file_size
plain_size links host name status found plain = rw (get_file_size, found, plain) refl

-- On a regular file below 2 ^ 64 bytes, whose status tells its size and whose reads are as POSIX
-- documents, `read_file` returns after as many calls of `read` as the file has bytes, or fewer: with
-- a buffer of the file's size.
pub read_file-Returns :
    (host : Host) (name : FileName) (status : Stat) (file : File) (links : ℕ)
    → host.lstat name ≡ some status
    → status.is_link ≡ false
    → status.st_size ≡ file.file_size
    → host.open_file name ≡ some file
    → file.file_size < 2 ^ 64
    → ReadsFile host name file
    → Returns
        (λ r. (buf : Buffer) × (r ≡ some buf) × (buf.size ≡ file.file_size))
        (read_file (suc links) file.file_size host name)
unfolding read_file
read_file-Returns host name status file links found plain fits opens small reads =
    let size = plain_size links host name status found plain in
    rw (size, opens, fits)
      (Returns->>= _ (read_loop file.file_size host name file file.file_size _) _
        (read_loop-Returns host name file file.file_size (unread host) reads small refl
          (omega arith) (omega arith))
        λ bytes done. (record { size = file.file_size; bytes = bytes }, refl, refl))

-- The loop from its start, where one call gives all the bytes.
read_loop-whole :
    (host : Host) (name : FileName) (file : File) (calls : ℕ)
    → 0 < file.file_size
    → file.file_size < 2 ^ 64
    → host.read name 0 0 file.file_size ≡ some file.file_size
    → Returns
        (λ bytes. (i : ℕ) → i < file.file_size → bytes i ≡ file.byte i)
        (read_loop (suc calls) host name file file.file_size (unread host))
read_loop-whole host name file calls some_bytes small given =
    rw
      (
        read_loop-more calls host name file file.file_size (unread host) file.file_size some_bytes
            (rw sub-zero given),
        read_loop-done calls host name file file.file_size
            (advanced file (unread host) file.file_size) (omega arith),
      )
      (λ i within. ground arith)

-- On a regular file that is not empty and below 2 ^ 64 bytes, whose status tells its size, and of
-- which one call of `read` gives all the bytes: `read_file` returns a buffer of these bytes.
pub read_file-whole :
    (host : Host) (name : FileName) (status : Stat) (file : File) (links calls : ℕ)
    → host.lstat name ≡ some status
    → status.is_link ≡ false
    → status.st_size ≡ file.file_size
    → host.open_file name ≡ some file
    → 0 < file.file_size
    → file.file_size < 2 ^ 64
    → host.read name 0 0 file.file_size ≡ some file.file_size
    → Returns
        (λ r.
          (buf : Buffer) × (r ≡ some buf)
          × (buf.size ≡ file.file_size)
          × ((i : ℕ) → i < buf.size → buf.bytes i ≡ file.byte i))
        (read_file (suc links) (suc calls) host name)
unfolding read_file
read_file-whole host name status file links calls found plain fits opens some_bytes small given =
    rw (plain_size links host name status found plain, opens, fits)
      (Returns->>= _ (read_loop (suc calls) host name file file.file_size _) _
        (read_loop-whole host name file calls some_bytes small given)
        λ bytes same. (record { size = file.file_size; bytes = bytes }, refl, refl, same))

-- On a regular file below 2 ^ 64 bytes, whose status tells its size, where `read` gives the first `k`
-- bytes, more than none and not all, and then all the rest: the second call writes to the start of the
-- buffer again, and `read_file` returns there the file from `k` on; of the first `k` bytes, those
-- that the rest does not reach are left behind it.
pub read_file_short :
    (host : Host) (name : FileName) (status : Stat) (file : File) (links calls k : ℕ)
    → host.lstat name ≡ some status
    → status.is_link ≡ false
    → status.st_size ≡ file.file_size
    → host.open_file name ≡ some file
    → 0 < k
    → k < file.file_size
    → file.file_size < 2 ^ 64
    → host.read name 0 0 file.file_size ≡ some k
    → host.read name 1 k (file.file_size - k) ≡ some (file.file_size - k)
    → Returns
        (λ r.
          (buf : Buffer) × (r ≡ some buf)
          × ((i : ℕ) → i < file.file_size - k → buf.bytes i ≡ file.byte (k + i))
          × ((i : ℕ) → file.file_size - k ≤ i → i < k → buf.bytes i ≡ file.byte i))
        (read_file (suc links) (suc (suc calls)) host name)
unfolding read_file
read_file_short host name status file links calls k found plain fits opens some_bytes fewer small
      first second =
    let after = advanced file (unread host) k in
    let offset : 0 + k ≡ k = omega arith in
    let small_k : u64 k ≡ k = omega arith in
    rw
      (
        plain_size links host name status found plain,
        opens,
        fits,
        read_loop-more (suc calls) host name file file.file_size (unread host) k (omega arith)
            (rw sub-zero first),
        read_loop-more calls host name file file.file_size after (file.file_size - k) (omega arith)
            (rw (offset, small_k) second),
        read_loop-done calls host name file file.file_size
            (advanced file after (file.file_size - k)) (omega arith),
      )
      (
        record { size = file.file_size; bytes = (advanced file after (file.file_size - k)).bytes },
        refl,
        (λ i h. ground arith),
        (λ i h below. ground arith),
      )

-- The name of a symbolic link that `lstat` finds, with a target of bytes other than 0: the buffer
-- that takes the target has no terminating 0, so `get_file_size` reads past its end, whatever the
-- number of links that it may follow.
pub get_file_size_link :
    (host : Host) (name : FileName) (status : Stat) (links : ℕ)
    → host.lstat name ≡ some status
    → status.is_link ≡ true
    → AllNonzero (host.readlink name)
    → get_file_size (suc links) host name ≡ fault
unfolding get_file_size
get_file_size_link host name status links found link target =
    rw (get_file_size, found, link)
      (ap (λ o. o >>= get_file_size links host)
        (c_string-fault (host.readlink name) status.st_size target))
