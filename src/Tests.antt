-- ===== src/Tests.antt =====
-- Runs of the models of src/*.c on a small segment, a bus and a core, and the theorems on them.
mod Sample
mod Segment
mod Access
mod Core
mod Registers
mod Machine
mod Calls
mod Text
mod Refinement
mod Starting
mod Limits
mod Image
