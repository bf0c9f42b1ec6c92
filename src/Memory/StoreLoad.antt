-- ===== src/Memory/StoreLoad.antt =====
-- What `store_mem` puts into the DDR is what `load_mem` finds there, through any segment.
use nemu_riscv.Base.{ℕ, ◌+◌, ◌%◌, ◌^◌, ◌≤◌, ◌≡◌, arith, ok, ◌⊎◌, ap, ◌∙◌}
use native.Mathlib.Nat.{sub-zero}
use nemu_riscv.Ram.{load_host, store_host}
use nemu_riscv.Ram.Access.{IsBytes, IsLen, IsLen-bounds, read_handler_lem, write_handler_lem}
use nemu_riscv.Ram.Access.{load_host-store_host, load_host_outside, store_host-IsBytes}
use nemu_riscv.Address.{prot_addr}
use nemu_riscv.System.{System, ddr_size}
use nemu_riscv.Memory.{load_mem, store_mem}
use nemu_riscv.Memory.FastPath.{IsMemory}

module _ (s : System) (a len : ℕ) (width : IsLen len) (above : 0x1000 ≤ a) where
  -- A load from the DDR.
  pub load_mem-ddr :
      IsBytes s.ddr
      → prot_addr a + len ≤ ddr_size
      → load_mem s a len ≡ ok (load_host s.ddr (prot_addr a) len, s)
  unfolding load_mem
  load_mem-ddr h fits = ground (
    arith,
    IsLen-bounds width,
    read_handler_lem ddr_size s.ddr (prot_addr a) len h width,
    sub-zero (prot_addr a),
  )

  -- A store into the DDR.
  pub store_mem-ddr :
      (word : ℕ)
      → prot_addr a + len ≤ ddr_size
      → store_mem s a len word ≡ ok (record s { ddr = store_host s.ddr (prot_addr a) len word })
  unfolding store_mem
  store_mem-ddr word fits = ground (
    arith,
    IsLen-bounds width,
    write_handler_lem ddr_size s.ddr (prot_addr a) len word width,
    sub-zero (prot_addr a),
  )

-- The system after a store into the DDR.
abbrev pub stored : System → ℕ → ℕ → ℕ → System
stored s a len word = record s { ddr = store_host s.ddr (prot_addr a) len word }

pub stored-IsMemory : (s : System) (a len word : ℕ) → IsMemory s → IsMemory (stored s a len word)
stored-IsMemory s a len word mem = record {
  ddr_bytes = store_host-IsBytes s.ddr (prot_addr a) len word mem.ddr_bytes;
  bram_bytes = mem.bram_bytes;
}

-- Where memory holds bytes, a store at an address from 0x1000 on, of one, two or four bytes that lie
-- in the DDR, succeeds and leaves memory that holds bytes.
-- A load of the same width, at an address `b` from 0x1000 on that stands for the same place, then
-- returns the word cut to its width and changes nothing.
pub load_mem-store_mem :
    (s : System) (a b len word : ℕ)
    → IsMemory s
    → IsLen len
    → 0x1000 ≤ a
    → 0x1000 ≤ b
    → prot_addr a + len ≤ ddr_size
    → prot_addr b ≡ prot_addr a
    → (s' : System) × (store_mem s a len word ≡ ok s')
      × IsMemory s'
      × (load_mem s' b len ≡ ok (word % 256 ^ len, s'))
load_mem-store_mem s a b len word mem width above above_b fits same =
    let s' = stored s a len word in
    let mem' = stored-IsMemory s a len word mem in
    (
      s',
      store_mem-ddr s a len width above word fits,
      mem',
      load_mem-ddr s' b len width above_b mem'.ddr_bytes (omega arith)
          ∙ ap (λ v. ok (v, s')) (rw same (load_host-store_host s.ddr (prot_addr a) len word)),
    )

-- Where memory holds bytes, and for addresses from 0x1000 on and accesses of one, two or four bytes:
-- a load from the DDR, of `n` bytes that lie before or behind those that a store writes there,
-- returns after the store what it returns before.
pub load_mem-store_mem_apart :
    (s : System) (a len word c n : ℕ)
    → IsMemory s
    → IsLen len
    → 0x1000 ≤ a
    → prot_addr a + len ≤ ddr_size
    → IsLen n
    → 0x1000 ≤ c
    → prot_addr c + n ≤ ddr_size
    → (prot_addr c + n ≤ prot_addr a) ⊎ (prot_addr a + len ≤ prot_addr c)
    → (s' : System) × (v : ℕ) × (store_mem s a len word ≡ ok s')
      × (load_mem s c n ≡ ok (v, s))
      × (load_mem s' c n ≡ ok (v, s'))
load_mem-store_mem_apart s a len word c n mem width above fits width_c above_c fits_c apart =
    let s' = stored s a len word in
    let mem' = stored-IsMemory s a len word mem in
    (
      s',
      load_host s.ddr (prot_addr c) n,
      store_mem-ddr s a len width above word fits,
      load_mem-ddr s c n width_c above_c mem.ddr_bytes fits_c,
      load_mem-ddr s' c n width_c above_c mem'.ddr_bytes fits_c
          ∙ ap (λ v. ok (v, s'))
              (load_host_outside s.ddr (prot_addr a) len word (prot_addr c) n apart),
    )
