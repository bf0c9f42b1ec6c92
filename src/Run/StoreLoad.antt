-- ===== src/Run/StoreLoad.antt =====
-- A program of a store and a load: what is fetched, decoded, stored and loaded by `cpu_exec`
-- (src/cpu/cpu-exec.c, exec-handlers.h).
use nemu_riscv.Base.{ℕ, suc, ◌+◌, ◌%◌, ◌^◌, ◌≤◌, ◌≡◌, ◌≢◌, ◌⊎◌, refl, ap, ◌∙◌}
use nemu_riscv.Base.{ok, Returns, bit_and_mask, u32, if◌then◌else◌, ◌>>=◌}
use nemu_riscv.Ram.{load_host}
use nemu_riscv.Ram.Access.{four, load_host-store_host, load_host_outside}
use nemu_riscv.Address.{prot_addr}
use nemu_riscv.Inst.{rd, rs2}
use nemu_riscv.System.{System, ddr_size, nemu_running, nemu_stop, nemu_end}
use nemu_riscv.Memory.{instr_fetch, load_mem}
use nemu_riscv.Memory.FastPath.{IsMemory}
use nemu_riscv.Memory.StoreLoad.{load_mem-ddr, store_mem-ddr, stored, stored-IsMemory}
use nemu_riscv.Decode.{Handler, dispatch, StoreOp, LoadOp, store, load}
use nemu_riscv.Exec.{Cpu, exec, exec_load, exec_store, load_len, load_addr, store_len, store_addr}
use nemu_riscv.Exec.{set_gpr, extend}
use nemu_riscv.Exec.Aligned.{load_aligned, store_aligned, load_len-IsLen, store_len-IsLen}
use nemu_riscv.Run.{Machine, step, exec_loop, cpu_exec, is_running, set_state}
use nemu_riscv.Run.Compose.{cpu_exec-active, continue, continue-running}
use nemu_riscv.InstrQueue.{instr_enqueue_pc, instr_enqueue_instr}

-- The word of an instruction, at an aligned pc in the DDR.
pub record Holds (s : System) (pc word : ℕ) : Type 0 where
  pub aligned : pc % 4 ≡ 0
  pub above : 0x1000 ≤ pc
  pub fits : prot_addr pc + 4 ≤ ddr_size
  pub word_there : load_host s.ddr (prot_addr pc) 4 ≡ word

abbrev pub after : Machine → ℕ → Cpu → System → Machine
after m inst c' s' = record {
  cpu = record c' { pc = u32 (c'.pc + 4) };
  sys = s';
  queue = instr_enqueue_instr (instr_enqueue_pc m.queue m.cpu.pc) inst;
}

-- An instruction that is in the DDR is executed.
step-Holds :
    (m : Machine) (inst : ℕ) (h : Handler) (c' : Cpu) (s' : System)
    → IsMemory m.sys
    → Holds m.sys m.cpu.pc inst
    → dispatch inst ≡ ok h
    → exec h inst m.cpu m.sys ≡ ok (c', s')
    → step m ≡ ok (after m inst c' s')
unfolding step instr_fetch
step-Holds m inst h c' s' mem w d e =
    let fetched : load_mem m.sys m.cpu.pc 4 ≡ ok (inst, m.sys) =
      load_mem-ddr m.sys m.cpu.pc 4 four w.above mem.ddr_bytes w.fits
      ∙ ap (λ v. ok (v, m.sys)) w.word_there in
    rw (bit_and_mask 2 m.cpu.pc, w.aligned, fetched, d, e) refl

-- An address that a load or store of `len` bytes can have in the DDR.
pub record IsPlace (a len : ℕ) : Type 0 where
  pub aligned : a % len ≡ 0
  pub above : 0x1000 ≤ a
  pub fits : prot_addr a + len ≤ ddr_size

exec_store_lem :
    (o : StoreOp) (inst : ℕ) (c : Cpu) (s : System)
    → IsPlace (store_addr inst c) (store_len o)
    → exec (store o) inst c s
      ≡ ok (c, stored s (store_addr inst c) (store_len o) (c.gpr (rs2 inst)))
unfolding exec exec_store
exec_store_lem o inst c s p =
    rw
      (
        store_aligned o (store_addr inst c),
        p.aligned,
        store_mem-ddr s (store_addr inst c) (store_len o) (store_len-IsLen o) p.above
            (c.gpr (rs2 inst)) p.fits,
      )
      refl

exec_load_lem :
    (o : LoadOp) (inst : ℕ) (c : Cpu) (s : System)
    → IsMemory s
    → IsPlace (load_addr inst c) (load_len o)
    → exec (load o) inst c s
      ≡ ok (
        set_gpr c
            (rd inst)
            (extend o (load_host s.ddr (prot_addr (load_addr inst c)) (load_len o))),
        s,
      )
unfolding exec exec_load
exec_load_lem o inst c s mem p =
    rw
      (
        load_aligned o (load_addr inst c),
        p.aligned,
        load_mem-ddr s (load_addr inst c) (load_len o) (load_len-IsLen o) p.above mem.ddr_bytes
            p.fits,
      )
      refl

-- A round of the loop that goes on, and the end of the loop.
exec_loop-next :
    (n : ℕ) (m m1 : Machine)
    → step m ≡ ok m1
    → m1.sys.nemu_state ≡ nemu_running
    → exec_loop (suc n) m ≡ exec_loop n m1
unfolding exec_loop
exec_loop-next n m m1 e running = ap (λ o. o >>= continue n) e ∙ continue-running n m1 running

exec_loop-stops :
    (m : Machine) → m.sys.nemu_state ≡ nemu_running → exec_loop 0 m ≡ ok (set_state m nemu_stop)
unfolding exec_loop
exec_loop-stops m running = ap (λ s. ok (if is_running s then set_state m nemu_stop else m)) running

-- From a machine that has not ended, whose memory holds bytes, with a store of `so` at the pc and a
-- load of `lo`, of as many bytes, behind it, both words in the DDR at aligned addresses from 0x1000
-- on: where the two instructions address the same place in the DDR, aligned and from 0x1000 on, and
-- the store does not overwrite the word of the load, running two instructions returns and stops. The
-- load's destination then holds what the store's register held, cut to the width and extended as `lo`
-- does, the pc is behind the two instructions, and the CPU is otherwise as before.
pub cpu_exec-store-load :
    (m : Machine) (w1 w2 : ℕ) (so : StoreOp) (lo : LoadOp)
    → m.sys.nemu_state ≢ nemu_end
    → IsMemory m.sys
    → Holds m.sys m.cpu.pc w1
    → Holds m.sys (u32 (m.cpu.pc + 4)) w2
    → dispatch w1 ≡ ok (store so)
    → dispatch w2 ≡ ok (load lo)
    → load_len lo ≡ store_len so
    → prot_addr (load_addr w2 m.cpu) ≡ prot_addr (store_addr w1 m.cpu)
    → IsPlace (store_addr w1 m.cpu) (store_len so)
    → IsPlace (load_addr w2 m.cpu) (load_len lo)
    → (prot_addr (u32 (m.cpu.pc + 4)) + 4 ≤ prot_addr (store_addr w1 m.cpu))
      ⊎ (prot_addr (store_addr w1 m.cpu) + store_len so ≤ prot_addr (u32 (m.cpu.pc + 4)))
    → Returns
        (λ m'.
          (m'.sys.nemu_state ≡ nemu_stop)
          × (m'.cpu
              ≡ record (set_gpr m.cpu
                  (rd w2)
                  (extend lo (m.cpu.gpr (rs2 w1) % 256 ^ store_len so))) {
                    pc = u32 (u32 (m.cpu.pc + 4) + 4);
                  }))
        (cpu_exec 2 m)
cpu_exec-store-load m w1 w2 so lo active mem h1 h2 d1 d2 width same place1 place2 apart =
    let a = store_addr w1 m.cpu in
    let m0 = set_state m nemu_running in
    let v = m.cpu.gpr (rs2 w1) in
    let s1 = stored m0.sys a (store_len so) v in
    let m1 = after m0 w1 m.cpu s1 in
    let mem0 : IsMemory m0.sys = record {
      ddr_bytes = mem.ddr_bytes;
      bram_bytes = mem.bram_bytes;
    } in
    let mem1 = stored-IsMemory m0.sys a (store_len so) v mem0 in
    let holds0 : Holds m0.sys m.cpu.pc w1 = record {
      aligned = h1.aligned;
      above = h1.above;
      fits = h1.fits;
      word_there = h1.word_there;
    } in
    let e1 =
      step-Holds m0 w1 (store so) m.cpu s1 mem0 holds0 d1
        (exec_store_lem so w1 m.cpu m0.sys place1) in
    let holds1 : Holds s1 (u32 (m.cpu.pc + 4)) w2 = record {
      aligned = h2.aligned;
      above = h2.above;
      fits = h2.fits;
      word_there =
          load_host_outside m.sys.ddr (prot_addr a) (store_len so) v _ 4 apart ∙ h2.word_there;
    } in
    let got = load_host s1.ddr (prot_addr (load_addr w2 m.cpu)) (load_len lo) in
    let c2 = set_gpr m1.cpu (rd w2) (extend lo got) in
    let e2 =
      step-Holds m1 w2 (load lo) c2 s1 mem1 holds1 d2 (exec_load_lem lo w2 m1.cpu s1 mem1 place2) in
    let value : got ≡ v % 256 ^ store_len so =
      rw (same, width) (load_host-store_host m.sys.ddr (prot_addr a) (store_len so) v) in
    rw
      (
        cpu_exec-active 2 m active,
        exec_loop-next 1 m0 m1 e1 refl,
        exec_loop-next 0 m1 (after m1 w2 c2 s1) e2 refl,
        exec_loop-stops (after m1 w2 c2 s1) refl,
      )
      (
        refl,
        ap (λ k. record (set_gpr m.cpu (rd w2) (extend lo k)) { pc = u32 (u32 (m.cpu.pc + 4) + 4) })
            value,
      )
