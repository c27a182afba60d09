-- ===== src/Cpu.antt =====
-- src/cpu.h and src/cpu.c: a core, which takes an instruction through five stages, one to a cycle.
pub mod Isa
pub mod State
pub mod Decode
pub mod Execute
pub mod Stages
pub mod Fields
pub mod Formats
pub mod Run
pub mod Arithmetic
pub mod Immediate
pub mod Load
pub mod Store
pub mod Branch
pub mod Upper
pub mod Trap
pub mod Keeps
pub mod Sound
pub mod Bounds
pub mod Bounded
pub mod Prefetch
pub mod Words
pub mod Abort
pub mod Refine
