-- ===== src/Lib.antt =====
-- NEMU, an emulator of a RISC-V machine with 32-bit registers, in C.
--
-- The program is one loop, `cpu_exec` (src/cpu/cpu-exec.c), that fetches a word at the pc,
-- dispatches it by tables of labels, runs the handler (both in src/cpu/exec-handlers.h), and adds
-- 4 to the pc. Loads, stores and fetches take a fast path into the arrays of the DDR and the
-- block RAM, or go through the memory map (src/memory.c) to the devices of src/dev. A ring of the
-- last eight instructions (src/cpu/iq.c) is printed when an assertion fails. `main` (src/main.c)
-- calls the monitor (src/monitor/monitor.c), which reads the options and loads an ELF file or an
-- image; then it sets the timer (src/device.c) and starts the loop. The timer signal then interrupts the
-- loop: its handler copies the frame buffer to the window and passes a key event on to the queues
-- of the UART and of the keyboard (src/dev/serial.c, src/dev/keyboard.c).
--
-- Where each part is modelled:
--   Base         C's machine words, arrays and tests; `Outcome`: a value, `abort()` (a failed
--                assertion), `exit(0)`, undefined behaviour (`fault`), or `unfinished`, where
--                the rounds that a loop is allowed are used up
--   Ram          the accesses to byte arrays: read_handler and write_handler of src/cpu/cpu-exec.c,
--                read_masked_word and write_masked_word of include/device.h
--   Address      the address segments of include/memory.h
--   Serial, Mac, Video   the UART, the Ethernet controller and the frame buffer of src/dev
--   System       the emulator's state besides the CPU; src/dev/ddr.c, bram.c and gpio.c
--   Bus          mmap_table, find_region, the vaddr_... and paddr_... accesses and init_mmio of
--                src/memory.c
--   Memory       load_mem, store_mem and instr_fetch of src/cpu/cpu-exec.c
--   Inst, Decode, Alu, Exec   the fields of an instruction word and the CPU state
--                (include/cpu/reg.h), the dispatch tables, and the handlers
--   Isa          the RISC-V manual's instructions on the same state, independent of the handlers; which
--                CSRs the hart has is an argument, `has_csr`, and an exception is an `abort`
--   InstrQueue   src/cpu/iq.c
--   Run          init_cpu and cpu_exec of src/cpu/cpu-exec.c; Run.Traced is cpu_exec with the calls
--                of the assembler trace and the register log of MODE_LOG
--   Clock        get_current_time and the start time of init_cpu
--   Assertion    CPUAssert of include/debug.h, with print_registers of src/cpu/cpu-exec.c
--   VoidPtr      the class VoidPtr of include/nemu.h
--   Tracer       trace_append and trace_flush of src/cpu/cpu-exec.c; Tracer.Text has the texts that
--                cpu_exec and the handlers append, with the names of the registers
--   Ring         rings of 1024 entries, as the UART and the keyboard have them
--   Sdl          what the program takes from SDL: key symbols (a parameter) and events
--   Keyboard, Serial.Keys   src/dev/keyboard.c, and the keys of src/dev/serial.c
--   Device       the timer signal and the set-up of src/device.c; Device.Interleave is the step
--                relation of the loop and the signals
--   Files, Elf, Monitor   get_file_size and read_file, load_elf, and the rest of
--                src/monitor/monitor.c, with `main` of src/main.c
--   Types        the C types of the state as bounds, and that every operation keeps them
--   Examples     concrete states, and the theorems at these
-- The children of a module hold its theorems and are named for what they show.
--
-- How C is read. A w-bit word is a natural number with its wrap-around written out; an `int` that
-- is stored into a register is taken as its 32-bit pattern. An array that the program writes is a
-- function of the index, and an access that can leave the array is tested (`fault`). The host is
-- little-endian and its compiler lays bit-fields out from the lowest bit, and a shift of a
-- negative number is what gcc makes of it. State is passed explicitly: the globals of the files
-- are fields of `Cpu`, `System` and `Machine`. A NULL function pointer in the memory map is
-- `none`, and its call is a `fault`. Names are the source's in lower case (BRANCH_SIMM is
-- `branch_simm`); `and_`, `or_`, `xor_` and `div_` lose their underscore, and `csr` of the CPU is
-- `csr_file`.
--
-- What is outside is a parameter: SDL's key symbols (`Sdl`), the host's files (`Host`, with what
-- POSIX documents of `read` as the hypothesis `ReadsFile`), the layout of ELF files
-- (`ElfLayout`), what `getopt_long` gives, and whether the set-up calls succeed.
--
-- Loops. `cpu_exec` takes the number of instructions, so its loop recurses on it; a count that
-- wraps (`cpu_exec(-1)`) is a large number. The loops over the map, over a string, over the
-- screen, over the options and over the program headers recurse on what is left. The do-while
-- loop of `print_instr_queue` takes fuel for eight rounds: it visits the eight cells of the ring
-- once each. The loop of `read_file` takes the number of calls of `read`, and `get_file_size`
-- that of the names it may look up: for a regular file, as many calls as it has bytes, and one
-- name, are enough.
--
-- A failed `CPUAssert` is `abort` everywhere but in Assertion: there its dump is written out, which
-- reads the word at the pc and can fail the next assertion. The depth of this nesting is fuel, and
-- one level is enough where that read succeeds.
--
-- A load through a `uint32_t *` at an address that is no multiple of 4 is undefined in C. In vga_read
-- (src/dev/video.c) it is a `fault`; in read_masked_word (include/device.h) it is taken as an x86 host
-- does it. The loads of the CPU reach the latter nowhere: they take the fast path to both memories.
--
-- Signals come between two instructions or between an instruction and the test that follows it,
-- and do not interrupt each other. A signal in the middle of an instruction is left out, but for
-- Serial.Interrupted, where it comes between the statements of serial_read.
--
-- With ENABLE_ASM_TRACER, as the Makefile has it, the buffer of the trace is not set up before the
-- first instruction. `main` and Run.Traced have the trace; `cpu_exec` of Run, on which the other
-- modules stand, leaves it out. The digits of `%x` and
-- `%d` are at most eight and ten, which are enough for a word.
--
-- Not modelled: what is printed (the help, the messages), except for the characters that the UART
-- writes, the lines of the trace, the register log, the dump of an assertion and the verdict of the
-- trap device; the SPI controller, which is compiled out; the macros of include/common.h,
-- include/macro.h and include/cpu/x86_64.h, which nothing of the emulator's state depends on.
pub mod Base
pub mod Ram
pub mod Address
pub mod Serial
pub mod Mac
pub mod Video
pub mod System
pub mod Bus
pub mod Memory
pub mod Inst
pub mod Decode
pub mod Alu
pub mod Exec
pub mod InstrQueue
pub mod Run
pub mod Clock
pub mod Isa
pub mod Assertion
pub mod VoidPtr
pub mod Ring
pub mod Sdl
pub mod Keyboard
pub mod Device
pub mod Files
pub mod Elf
pub mod Monitor
pub mod Tracer
pub mod Types
pub mod Examples
