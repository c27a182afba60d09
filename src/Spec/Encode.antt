-- ===== src/Spec/Encode.antt =====
-- The six formats of an instruction word, with its fields as numbers. An immediate is given by the
-- bits of its two's complement: 12 of them, 13 for a branch and 21 for JAL.
use criscv.Base.{ℕ, ◌+◌, ◌-◌, ◌*◌, ◌/◌, ◌%◌, ◌^◌}

unfoldable pub encode_r : ℕ → ℕ → ℕ → ℕ → ℕ → ℕ → ℕ
encode_r funct7 rs2 rs1 funct3 rd opcode =
    funct7 * 2 ^ 25 + rs2 * 2 ^ 20 + rs1 * 2 ^ 15 + funct3 * 2 ^ 12 + rd * 2 ^ 7 + opcode

unfoldable pub encode_i : ℕ → ℕ → ℕ → ℕ → ℕ → ℕ
encode_i imm rs1 funct3 rd opcode =
    imm * 2 ^ 20 + rs1 * 2 ^ 15 + funct3 * 2 ^ 12 + rd * 2 ^ 7 + opcode

unfoldable pub encode_s : ℕ → ℕ → ℕ → ℕ → ℕ → ℕ
encode_s imm rs2 rs1 funct3 opcode =
    imm / 2 ^ 5 * 2 ^ 25
    + rs2 * 2 ^ 20
    + rs1 * 2 ^ 15
    + funct3 * 2 ^ 12
    + imm % 2 ^ 5 * 2 ^ 7
    + opcode

-- Bits 12, 10-5, 4-1 and 11 of the immediate; bit 0 is 0.
unfoldable pub encode_b : ℕ → ℕ → ℕ → ℕ → ℕ → ℕ
encode_b imm rs2 rs1 funct3 opcode =
    imm / 2 ^ 12 % 2 * 2 ^ 31
    + imm / 2 ^ 5 % 2 ^ 6 * 2 ^ 25
    + rs2 * 2 ^ 20
    + rs1 * 2 ^ 15
    + funct3 * 2 ^ 12
    + imm / 2 % 2 ^ 4 * 2 ^ 8
    + imm / 2 ^ 11 % 2 * 2 ^ 7
    + opcode

-- The upper 20 bits.
unfoldable pub encode_u : ℕ → ℕ → ℕ → ℕ
encode_u imm rd opcode = imm * 2 ^ 12 + rd * 2 ^ 7 + opcode

-- Bits 20, 10-1, 11 and 19-12 of the immediate; bit 0 is 0.
unfoldable pub encode_j : ℕ → ℕ → ℕ → ℕ
encode_j imm rd opcode =
    imm / 2 ^ 20 % 2 * 2 ^ 31
    + imm / 2 % 2 ^ 10 * 2 ^ 21
    + imm / 2 ^ 11 % 2 * 2 ^ 20
    + imm / 2 ^ 12 % 2 ^ 8 * 2 ^ 12
    + rd * 2 ^ 7
    + opcode

-- The 32-bit pattern of an immediate of 12 bits: its sign bit is repeated above.
unfoldable pub extend12 : ℕ → ℕ
extend12 x = (x + (2 ^ 32 - 2 ^ 12) * (x / 2 ^ 11)) % 2 ^ 32

-- Those of the 13 bits of a branch's immediate, and of the 21 of JAL's.
unfoldable pub extend13 : ℕ → ℕ
extend13 x = (x + (2 ^ 32 - 2 ^ 13) * (x / 2 ^ 12)) % 2 ^ 32

unfoldable pub extend21 : ℕ → ℕ
extend21 x = (x + (2 ^ 32 - 2 ^ 21) * (x / 2 ^ 20)) % 2 ^ 32
