-- ===== src/Spec.antt =====
-- The RV32I base instruction set as its manual defines it, apart from the code: the encoding of the
-- formats and what the instructions compute.
pub mod Encode
pub mod Alu
pub mod Branch
pub mod Access
pub mod Machine
