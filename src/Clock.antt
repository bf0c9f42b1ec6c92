-- ===== src/Clock.antt =====
-- The time base of src/cpu/cpu-exec.c: `get_current_time`, and the start time that `init_cpu` sets.
-- What `gettimeofday` gives is an argument.
use nemu_riscv.Base.{ℕ, ◌+◌, ◌-◌, ◌*◌, ◌^◌, ◌≤◌, ◌<◌, ◌≡◌, arith, u64}

-- `struct timeval`
pub record Timeval : Type 0 where
  pub tv_sec : ℕ
  pub tv_usec : ℕ

-- In microseconds, with `nemu_start_time`.
unfoldable pub get_current_time : Timeval → ℕ → ℕ
get_current_time t nemu_start_time = u64 (t.tv_sec * 1000000 + t.tv_usec + 2 ^ 64 - nemu_start_time)

-- What `init_cpu` makes of `nemu_start_time`.
unfoldable pub start_time : Timeval → ℕ → ℕ
unfolding get_current_time
start_time t nemu_start_time = get_current_time t nemu_start_time

abbrev microseconds : Timeval → ℕ
microseconds t = t.tv_sec * 1000000 + t.tv_usec

-- After the first `init_cpu` the time is what has passed since, in microseconds.
get_current_time_elapsed :
    (t t' : Timeval)
    → microseconds t ≤ microseconds t'
    → microseconds t' < 2 ^ 64
    → get_current_time t' (start_time t 0) ≡ microseconds t' - microseconds t
unfolding get_current_time start_time
get_current_time_elapsed t t' h k = omega arith
