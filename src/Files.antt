-- ===== src/Files.antt =====
-- Reading a whole file (get_file_size and read_file of src/monitor/monitor.c). The operating system
-- is outside: `Host` says what its calls give. A file name is the list of its bytes, and `malloc`
-- is taken to succeed.
pub mod Reads
use nemu_riscv.Base.{ℕ, zero, suc, ◌+◌, ◌-◌, ◌^◌, Bool, true, false, ltb, if◌then◌else◌, u64, take}
use nemu_riscv.Base.{List, [], ◌∷◌, Option, none, some, Outcome, ok, fault, unfinished, ◌>>=◌}

abbrev pub FileName : Type 0
FileName = List ℕ

pub record Stat : Type 0 where
  pub is_link : Bool
  pub st_size : ℕ

-- An open file: its length and its bytes.
pub record File : Type 0 where
  pub file_size : ℕ
  pub byte : ℕ → ℕ

-- `read name call offset n` is the number of bytes that the call of `read` with this number gives,
-- for `n` bytes at this offset of the file, or `none` for -1.
pub record Host : Type 0 where
  pub lstat : FileName → Option Stat
  pub readlink : FileName → List ℕ
  pub open_file : FileName → Option File
  pub read : FileName → ℕ → ℕ → ℕ → Option ℕ
  pub fresh : ℕ → ℕ  -- what `malloc` leaves in the buffer

-- What `malloc` gave, and what is there.
pub record Buffer : Type 0 where
  pub size : ℕ
  pub bytes : ℕ → ℕ

-- The string that starts a buffer with these bytes; past its end the behaviour is undefined.
unfoldable pub c_string : List ℕ → Outcome FileName
c_string [] = fault
c_string (zero ∷ rest) = ok []
c_string (suc ch ∷ rest) = do name ← c_string rest; ok (suc ch ∷ name)

-- With at most `links` names to look up, so one link less to follow. The status of a name that `lstat`
-- does not find is not initialised.
unfoldable pub get_file_size : ℕ → Host → FileName → Outcome ℕ
unfolding c_string
get_file_size zero host name = unfinished
get_file_size (suc links) host name = elim (host.lstat name) [
  | none ↦ fault
  | some status ↦ elim (status.is_link) [
    | true ↦ c_string (take (status.st_size) (host.readlink name)) >>= get_file_size links host
    | false ↦ ok (status.st_size)
  ]
]

-- The state of the loop of `read_file`, with the number of calls of `read` and the file's offset.
pub record Reading : Type 0 where
  pub len : ℕ
  pub bytes : ℕ → ℕ
  pub call : ℕ
  pub offset : ℕ

-- `len += read(fd, buf, size - len)`: the bytes go to the start of the buffer.
unfoldable pub read_once : Host → FileName → File → ℕ → Reading → Reading
read_once host name file size r = elim (host.read name r.call r.offset (size - r.len)) [
  | none ↦ record r { len = u64 (r.len + (2 ^ 64 - 1)); call = r.call + 1 }
  | some n ↦ record {
    len = u64 (r.len + n);
    bytes = λ i. if ltb i n then file.byte (r.offset + i) else r.bytes i;
    call = r.call + 1;
    offset = r.offset + n;
  }
]

-- The loop, with `calls` rounds at most.
unfoldable pub read_loop : ℕ → Host → FileName → File → ℕ → Reading → Outcome (ℕ → ℕ)
unfolding read_once
read_loop zero host name file size r = if ltb r.len size then unfinished else ok r.bytes
read_loop (suc calls) host name file size r = elim (ltb r.len size) [
  | true ↦ read_loop calls host name file size (read_once host name file size r)
  | false ↦ ok r.bytes
]

-- A result `none` is NULL.
unfoldable pub read_file : ℕ → ℕ → Host → FileName → Outcome (Option Buffer)
unfolding get_file_size read_loop
read_file links calls host name = do
  size ← get_file_size links host name
  elim (host.open_file name) [
    | none ↦ ok none
    | some file ↦
        let start : Reading = record { len = 0; bytes = host.fresh; call = 0; offset = 0 } in
        read_loop calls host name file size start >>= λ bytes.
        ok (some (record { size = size; bytes = bytes }))
  ]
