-- ===== src/Exec/Inversion.antt =====
-- What a load or store instruction that returns has done (src/cpu/exec-handlers.h).
use nemu_riscv.Base.{ℕ, ◌≡◌, arith, ok, >>=-eq-ok, cpu_assert, true}
use nemu_riscv.Inst.{rd, rs2}
use nemu_riscv.System.{System}
use nemu_riscv.Memory.{load_mem, store_mem}
use nemu_riscv.Decode.{LoadOp, StoreOp}
use nemu_riscv.Exec.{Cpu, exec_load, exec_store, is_aligned, load_len, load_addr, store_len}
use nemu_riscv.Exec.{store_addr, set_gpr, extend}

pub record Loaded (o : LoadOp) (inst : ℕ) (c : Cpu) (s : System) (r : Cpu × System) : Type 0 where
  pub v : ℕ
  pub s' : System
  pub aligned : is_aligned (load_len o) (load_addr inst c) ≡ true
  pub loads : load_mem s (load_addr inst c) (load_len o) ≡ ok (v, s')
  pub result : r ≡ (set_gpr c (rd inst) (extend o v), s')

pub exec_load-Loaded :
    (o : LoadOp) (inst : ℕ) (c : Cpu) (s : System) (r : Cpu × System)
    → exec_load o inst c s ≡ ok r
    → Loaded o inst c s r
unfolding exec_load
exec_load-Loaded o inst c s r e =
    let (u, e0, e1) = >>=-eq-ok (cpu_assert (is_aligned (load_len o) (load_addr inst c))) e in
    let (v, e2, e3) = >>=-eq-ok (load_mem s (load_addr inst c) (load_len o)) e1 in
    record { v = v.0; s' = v.1; aligned = ground arith; loads = e2; result = cc }

pub record Stored (o : StoreOp) (inst : ℕ) (c : Cpu) (s : System) (r : Cpu × System) : Type 0 where
  pub s' : System
  pub aligned : is_aligned (store_len o) (store_addr inst c) ≡ true
  pub stores : store_mem s (store_addr inst c) (store_len o) (c.gpr (rs2 inst)) ≡ ok s'
  pub result : r ≡ (c, s')

pub exec_store-Stored :
    (o : StoreOp) (inst : ℕ) (c : Cpu) (s : System) (r : Cpu × System)
    → exec_store o inst c s ≡ ok r
    → Stored o inst c s r
unfolding exec_store
exec_store-Stored o inst c s r e =
    let (u, e0, e1) = >>=-eq-ok (cpu_assert (is_aligned (store_len o) (store_addr inst c))) e in
    let (s', e2, e3) =
      >>=-eq-ok (store_mem s (store_addr inst c) (store_len o) (c.gpr (rs2 inst))) e1 in
    record { s' = s'; aligned = ground arith; stores = e2; result = cc }
