-- ===== src/Spec/Branch.antt =====
-- When each branch is taken, by the values of its two registers, and its place in the encoding.
use criscv.Base.{ℕ, Bool, not, ltb, ◌==◌, signed32, ltb_ℤ}

pub data BranchOp : Type 0 where
  beq bne blt bge bltu bgeu : BranchOp

unfoldable pub branch_funct3 : BranchOp → ℕ
branch_funct3 beq = 0
branch_funct3 bne = 1
branch_funct3 blt = 4
branch_funct3 bge = 5
branch_funct3 bltu = 6
branch_funct3 bgeu = 7

unfoldable pub taken : BranchOp → ℕ → ℕ → Bool
taken beq a b = a == b
taken bne a b = not (a == b)
taken blt a b = ltb_ℤ (signed32 a) (signed32 b)
taken bge a b = not (ltb_ℤ (signed32 a) (signed32 b))
taken bltu a b = ltb a b
taken bgeu a b = not (ltb a b)
