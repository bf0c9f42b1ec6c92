-- ===== src/Examples/Emulation.antt =====
-- The theorems on `cpu_exec`, at a program of three instructions.
use nemu_riscv.Base.{ℕ, ◌≡◌, ◌⊎◌, refl, ok, ◌>>=◌, [], ◌∷◌}
use nemu_riscv.System.{nemu_stop, nemu_end, hit_good_trap}
use nemu_riscv.Memory.{instr_fetch, store_mem}
use nemu_riscv.Address.{prot_addr}
use nemu_riscv.Ram.{read_handler}
use nemu_riscv.Decode.{dispatch, at, opcode_table, alui_table_0, store_table}
use nemu_riscv.Exec.{exec, exec_alui, exec_lui, exec_store, store_simm}
use nemu_riscv.Bus.{vaddr_write, region_at, find_region}
use nemu_riscv.System.{gpio_write}
use nemu_riscv.Run.{Machine, step, cpu_exec, exec_loop}
use nemu_riscv.Run.Compose.{cpu_exec-add, cpu_exec_final}
use nemu_riscv.Examples.{booted, value_or}

abbrev finished : Machine
finished = value_or (cpu_exec 10 booted) booted

-- The program stores to the trap device, which ends it.
finished_hits_good_trap :
    (finished.sys.nemu_state ≡ nemu_end) × (finished.sys.stderr ≡ hit_good_trap ∷ [])
unfolding cpu_exec exec_loop step instr_fetch prot_addr read_handler dispatch at opcode_table
    alui_table_0 exec exec_alui exec_lui store_table exec_store store_simm store_mem vaddr_write
    region_at find_region gpio_write
finished_hits_good_trap = (refl, refl)

cpu_exec-add_example : cpu_exec 3 booted ≡ (cpu_exec 1 booted >>= cpu_exec 2)
cpu_exec-add_example = cpu_exec-add 1 2 booted

cpu_exec_final_example :
    (finished.sys.nemu_state ≡ nemu_stop)
    ⊎ ((finished.sys.nemu_state ≡ nemu_end) × ((k : ℕ) → cpu_exec k finished ≡ ok finished))
unfolding cpu_exec exec_loop step instr_fetch prot_addr read_handler dispatch at opcode_table
    alui_table_0 exec exec_alui exec_lui store_table exec_store store_simm store_mem vaddr_write
    region_at find_region gpio_write
cpu_exec_final_example = cpu_exec_final 10 booted finished refl
