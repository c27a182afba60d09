-- ===== src/Lib.antt =====
-- cRISC-V, an emulator of a RISC-V machine (RV32I) in C: its core, memory and bus.
--
-- A core takes each instruction through five stages, one to a cycle, and goes through traps in
-- three more. It reaches the memory over a bus, a list of devices behind one mutex. The RAM device
-- hands an access over to a memory segment, which has a permission for each byte: memory may be
-- readable, writable, or readable only after it was written.
--
-- Which file models what:
--   * Config: the constants of src/config.h.
--   * Mmu: src/mmu.h and src/mmu.c, one function to each of `mmu_*`; the struct `mmu_t` is the record
--     `Mmu`, which the functions take and return. The three arrays are functions of the index, each
--     with its allocated length, and an access outside it is the stop `out_of_bounds`. Its theorems
--     are in Mmu/Transfer (what the transfers do), Mmu/ReadBack, Mmu/Allocate, Mmu/Safe and Mmu/Raw.
--   * Mmio: the types of src/mmio.h. Memory: src/memory.c.
--   * Csr: src/csr.h and src/csr.c; theorems in Csr/Access.
--   * Bus: src/bus.h and src/bus.c. `locked` is the mutex; the calls through the pointers of a device
--     are `dev_read`, `dev_write`, `dev_read_single` and `dev_write_single`, by the kind of device.
--     Theorems are in Bus/Total (single accesses at any address), Bus/Settled, Bus/ReadBack,
--     Bus/Multiple, Bus/Burst, Bus/Bytes, Bus/Loaded, Bus/Text and Bus/Failure.
--   * Cpu: src/cpu.h and src/cpu.c. Cpu/Isa has the numbers of the instructions, Cpu/State the records,
--     Cpu/Decode, Cpu/Execute (with a child for the cases of the `switch`) and Cpu/Stages the stages,
--     up to `core_cycle`. Theorems: Cpu/Formats (the decoder), Cpu/Arithmetic, Cpu/Immediate,
--     Cpu/Load, Cpu/Store, Cpu/Branch and Cpu/Upper (the instructions, from the word to the state after
--     four cycles), Cpu/Trap, Cpu/Prefetch, Cpu/Words (a burst and single reads), Cpu/Abort (a fetch that
--     fails), Cpu/Sound (what every cycle keeps), Cpu/Bounds and Cpu/Bounded (that its values fit their C types). Cpu/Refine says how
--     a core with its bus and segment represents the abstract machine of Spec/Machine; its children
--     follow a fetch, an instruction and a run.
--   * Elf: src/elf32.h and src/elf32.c; theorems in Elf/Load (one segment), Elf/Whole (a file, in the words
--     of Elf/Segments) and Elf/One (a segment among those of a file).
--   * Syscall: src/syscall.h and src/syscall.c, over a `Host` that stands for the host's calls. Theorems:
--     Syscall/Frame, Syscall/Transfer, Syscall/Break.
--   * Emulator: src/emulator.c; Emulator/Main: its `load_file` and `emulator_run`, and src/main.c. Theorems:
--     Emulator/Init (the start), Emulator/Start, Emulator/Stack, Emulator/Frame and Emulator/Prepare (what
--     the program finds in its memory), Emulator/Call (system calls), Emulator/Rounds (the thread as it
--     runs a program), Emulator/Load (from `main` to the loaded program), Emulator/Ends (from there to
--     its exit).
--   * Spec: the instruction set as its manual defines it, apart from the code; Spec/Machine has a machine
--     of registers and memory that takes an instruction in one step. Exceptions, CSRs and FENCE are not in
--     it, and an address need not be aligned.
--   * Base: shared helpers; Tests: the theorems at concrete inputs.
--
-- A call that fails an assertion, reaches outside an object, goes through a null pointer or waits for
-- a mutex of its own thread gives `stop`. Unsigned integers are numbers with each wrap written out;
-- an `int32_t` is its 32-bit pattern. Loops run for the rounds that their bounds give, and
-- `bus_read_string` for the room that its buffer has. `cpu_thread` runs for a number of rounds, and says
-- whether the loop goes on: the theorems say how many a result takes.
--
-- Parameters of the model: the answers of `malloc` and `realloc` (`Heap`), the calls to the host
-- (`Host`), the function of the video device, and what an uninitialised byte on the stack holds
-- (`old_byte`). There is one core, as in src/config.h, so the bus is used by one thread.
--
-- Not modelled: failures of the C library while a file is read, and of `malloc` in the loader and the
-- system calls; the threads themselves: `emulator_run` waits for its one thread, so it is that thread's
-- loop; the video device, whose files are not in the repository; the guest program in src/riscv; and what
-- is only printed.
pub mod Base
pub mod Config
pub mod Mmu
pub mod Mmio
pub mod Memory
pub mod Csr
pub mod Bus
pub mod Cpu
pub mod Elf
pub mod Syscall
pub mod Emulator
pub mod Spec
pub mod Tests
