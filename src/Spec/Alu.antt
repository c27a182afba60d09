-- ===== src/Spec/Alu.antt =====
-- What the arithmetic instructions compute on 32-bit patterns, with their places in the encoding.
use criscv.Base.{
  ℕ, ◌+◌, ◌-◌, ◌*◌, ◌/◌, ◌%◌, ◌^◌, bit_and, bit_or, bit_xor, ltb, flag, signed32, ltb_ℤ, sar32,
}

pub data AluOp : Type 0 where
  add sub sll slt sltu xor srl sra or and : AluOp

unfoldable pub funct3 : AluOp → ℕ
funct3 add = 0
funct3 sub = 0
funct3 sll = 1
funct3 slt = 2
funct3 sltu = 3
funct3 xor = 4
funct3 srl = 5
funct3 sra = 5
funct3 or = 6
funct3 and = 7

unfoldable pub funct7 : AluOp → ℕ
funct7 sub = 0b0100000
funct7 sra = 0b0100000
funct7 _ = 0

-- A shift takes the low five bits of the second operand.
unfoldable pub alu : AluOp → ℕ → ℕ → ℕ
alu add a b = (a + b) % 2 ^ 32
alu sub a b = (a + 2 ^ 32 - b) % 2 ^ 32
alu sll a b = a * 2 ^ (b % 32) % 2 ^ 32
alu slt a b = flag (ltb_ℤ (signed32 a) (signed32 b))
alu sltu a b = flag (ltb a b)
alu xor a b = bit_xor a b
alu srl a b = a / 2 ^ (b % 32)
alu sra a b = sar32 a (b % 32)
alu or a b = bit_or a b
alu and a b = bit_and a b
