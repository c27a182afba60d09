-- ===== src/Cpu/Decode.antt =====
-- The stage `decode`: the fields of the instruction word, cut to the widths of the bit-fields of
-- `instr_t`, and the values of the two source registers.
use criscv.Base.{
  ℕ, ◌*◌, ◌-◌, ◌%◌, ◌^◌, bit_and, bit_or, false, ◌==◌, if◌then◌else◌, Result, ok, shr, shl32, sar32,
}
use criscv.Cpu.Isa.{
  OpType, unknown, r_type, i_type, s_type, b_type, u_type, j_type, c_type, decode_type_table,
}
use criscv.Cpu.State.{Instr, Core, cause_trap, illegal_instruction}

-- The macro `REG_R`.
abbrev pub reg_r : Core → ℕ → ℕ
reg_r core x = if x == 0 then 0 else core.registers x

-- What all formats share.
unfoldable pub decode_common : Core → Instr
decode_common core =
    let i = core.instruction in
    let opcode = bit_and i 0x7f in
    let rs1 = bit_and (shr i 15) 31 in
    let rs2 = bit_and (shr i 20) 31 in
    record core.decoded {
      is_jump = false;
      write_rd = false;
      write_mem = false;
      read_mem = false;
      opcode = opcode;
      optype = decode_type_table opcode;
      rs1 = rs1;
      rs1v = reg_r core rs1;
      rs2 = rs2;
      rs2v = reg_r core rs2;
      funct3 = bit_and (shr i 12) 7;
      shamt = bit_and (shr i 20) 31;
      rd = bit_and (shr i 7) 31;
      funct7 = 0;
    }

-- The immediates of the `switch`. A branch's is kept without its lowest bit, which is 0.
unfoldable pub s_imm : ℕ → ℕ
s_imm i = bit_or (bit_and (shr i 7) 0b11111) (bit_and (shr i 20) 0xffffe0) % 2 ^ 12

unfoldable pub b_imm : ℕ → ℕ
b_imm i =
    let imm12 = bit_and (shr i 31) 1 in
    let imm105 = bit_and (shr i 25) 0b111111 in
    let imm41 = bit_and (shr i 8) 0xf in
    let imm11 = bit_and (shr i 7) 1 in
    let bimm =
      bit_or (bit_or (bit_or (imm12 * 2 ^ 12) (imm105 * 2 ^ 5)) (imm41 * 2 ^ 1)) (imm11 * 2 ^ 11) in
    shr bimm 1 % 2 ^ 12

unfoldable pub j_imm : ℕ → ℕ
j_imm i =
    let imm20 = bit_and (shr i 31) 0b1 in
    let imm101 = bit_and (shr i 21) 0b1111111111 in
    let imm11 = bit_and (shr i 20) 0b1 in
    let imm1912 = bit_and (shr i 12) 0b11111111 in
    let imm =
      bit_or (bit_or (bit_or (imm20 * 2 ^ 20) (imm101 * 2 ^ 1)) (imm11 * 2 ^ 11))
        (imm1912 * 2 ^ 12) in
    sar32 (shl32 imm 11) 12 % 2 ^ 20

-- The `switch` over the format.
unfoldable pub decode_format : OpType → ℕ → Core → Result Core
decode_format c_type i core = ok core
decode_format r_type i core =
    ok (record core { decoded = record core.decoded { funct7 = shr i 25 % 2 ^ 7 } })
decode_format i_type i core =
    ok (record core { decoded = record core.decoded { imm12 = bit_and (shr i 20) (2 ^ 12 - 1) } })
decode_format s_type i core = ok (record core { decoded = record core.decoded { imm12 = s_imm i } })
decode_format b_type i core = ok (record core { decoded = record core.decoded { imm12 = b_imm i } })
decode_format u_type i core =
    ok (record core { decoded = record core.decoded { imm20 = bit_and (shr i 12) 0xfffff } })
decode_format j_type i core = ok (record core { decoded = record core.decoded { imm20 = j_imm i } })
decode_format unknown i core = cause_trap core illegal_instruction

unfoldable pub decode : Core → Result Core
decode core =
    let dec = decode_common core in
    decode_format dec.optype core.instruction (record core { decoded = dec })
