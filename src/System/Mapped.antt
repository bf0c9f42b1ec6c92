-- ===== src/System/Mapped.antt =====
-- How far the DDR and the block RAM have been mapped (src/dev/ddr.c, src/dev/bram.c).
use nemu_riscv.Base.{ℕ, ◌+◌, ◌≤◌, ◌≡◌, ◌⊎◌, arith, Ensures, u32}
use nemu_riscv.System.{System, in_ddr, in_bram, ddr_map, ddr_mapped_result}
use nemu_riscv.System.{bram_map, bram_mapped_result}

-- The size has grown to the end of the mapping, if that is further on.
abbrev IsGrown : ℕ → ℕ → ℕ → Type 0
IsGrown old top new = (top ≤ new) × (old ≤ new) × ((new ≡ old) ⊎ (new ≡ top))

ddr_map-IsGrown :
    (s : System) (a len : ℕ)
    → Ensures
        (λ r.
          IsGrown (ddr_mapped_result s).size (u32 (a + len)) (ddr_mapped_result r.1).size
          × (r.0 ≡ in_ddr a))
        (ddr_map s a len)
unfolding ddr_map ddr_mapped_result
ddr_map-IsGrown s a len r e = ground arith

bram_map-IsGrown :
    (s : System) (a len : ℕ)
    → Ensures
        (λ r.
          IsGrown (bram_mapped_result s).size (u32 (a + len)) (bram_mapped_result r.1).size
          × (r.0 ≡ in_bram a))
        (bram_map s a len)
unfolding bram_map bram_mapped_result
bram_map-IsGrown s a len r e = ground arith
