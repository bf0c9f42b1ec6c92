-- ===== src/Examples/Signals.antt =====
-- The theorems on the types of the state and on signals, at concrete states.
use nemu_riscv.Base.{refl, arith}
use nemu_riscv.Run.{Machine, step, cpu_exec, exec_loop, set_state}
use nemu_riscv.Memory.{instr_fetch}
use nemu_riscv.Address.{prot_addr}
use nemu_riscv.Ram.{read_handler}
use nemu_riscv.Decode.{dispatch, at, opcode_table, alui_table_0}
use nemu_riscv.Exec.{exec, exec_alui}
use nemu_riscv.Types.Step.{IsTypedMachine, cpu_exec-IsTyped}
use nemu_riscv.System.{nemu_end}
use nemu_riscv.Device.{World, sigint_handler}
use nemu_riscv.Device.Interleave.{
  Config, Reach, at_step, at_test, returned, start, later, interrupt, returns, instruction,
}
use nemu_riscv.Device.Interleave.Typed.{IsTypedWorld, Reach-IsTyped}
use nemu_riscv.Device.Interleave.Stopped.{IsHalted, Reach-stopped}
use nemu_riscv.Examples.{booted, value_or}
use nemu_riscv.Examples.Keys.{counted, started}

pub booted-IsTyped : IsTypedMachine booted
booted-IsTyped = record {
  cpu = record {
    gpr = λ i. omega arith;
    csrs = λ i. omega arith;
    hi = omega arith;
    lo = omega arith;
    pc = omega arith;
  };
  sys = record {
    ddr_bytes = λ i. ground arith;
    bram_bytes = λ i. omega arith;
    vmem_bytes = λ i. omega arith;
    serial_typed = record {
      queue = λ i. omega arith;
      front = omega arith;
      rear = omega arith;
      ctrl = omega arith;
    };
    mac_typed = record {
      regs = λ i. omega arith;
      ping = λ i. omega arith;
      pong = λ i. omega arith;
      phy = λ i j. omega arith;
    };
  };
  queue = record {
    pc_ptr = omega arith;
    instr_ptr = omega arith;
    pcs = λ i. omega arith;
    instrs = λ i. omega arith;
  };
}

-- After one instruction of the program.
abbrev done : Machine
done = value_or (cpu_exec 1 booted) booted

cpu_exec-IsTyped_example : IsTypedMachine done
unfolding cpu_exec exec_loop step instr_fetch prot_addr read_handler dispatch at opcode_table
    alui_table_0 exec exec_alui
cpu_exec-IsTyped_example = cpu_exec-IsTyped 1 booted done booted-IsTyped refl

abbrev first : Machine
first = value_or (step booted) booted

-- One instruction, a SIGINT after it, and the return of `cpu_exec`.
abbrev before : Config
before = record { phase = at_step; world = started }

abbrev after : Config
after = record { phase = returned; world = sigint_handler (record started { machine = first }) }

interrupted : Reach counted before after
unfolding sigint_handler step instr_fetch prot_addr read_handler dispatch at opcode_table
    alui_table_0 exec exec_alui
interrupted = later (later (later start (instruction {m = first} refl)) interrupt) (returns refl)

Reach-IsTyped_example : IsTypedWorld after.world
Reach-IsTyped_example =
    Reach-IsTyped counted before after
      (record {
        machine = booted-IsTyped;
        keyboard = (omega arith, omega arith);
        jiffy = omega arith;
      })
      interrupted

-- The machine that the trap has ended.
abbrev trapped : World
trapped = record started { machine = set_state booted nemu_end }

abbrev over : Config
over = record { phase = returned; world = sigint_handler trapped }

signalled : Reach counted (record { phase = at_test; world = trapped }) over
unfolding sigint_handler
signalled = later (later start interrupt) (returns refl)

Reach-stopped_example : IsHalted (record { phase = at_test; world = trapped }) over
Reach-stopped_example = Reach-stopped counted trapped over refl signalled
