-- ===== src/Cpu/Isa.antt =====
-- The instruction set as src/cpu.h numbers it: the formats, the table from opcodes to formats, and
-- the numbers that `execute` switches on.
use criscv.Base.{ℕ, ◌*◌, ◌^◌, bit_or, ◌==◌, if◌then◌else◌}

-- `optype_t`; `c_type` is for the system instructions.
pub data OpType : Type 0 where
  unknown r_type i_type s_type b_type u_type j_type c_type : OpType

-- `decode_type_table`: the entries that are not `Unknown`.
unfoldable pub decode_type_table : ℕ → OpType
decode_type_table opcode =
    if opcode == 0b0000011
    then i_type
    else if opcode == 0b0010011
    then i_type
    else if opcode == 0b0010111
    then u_type
    else if opcode == 0b0100011
    then s_type
    else if opcode == 0b0110011
    then r_type
    else if opcode == 0b0110111
    then u_type
    else if opcode == 0b1100011
    then b_type
    else if opcode == 0b1100111
    then i_type
    else if opcode == 0b1101111
    then j_type
    else if opcode == 0b1110011
    then c_type
    else unknown

-- The macro `_OP`.
abbrev pub op : ℕ → ℕ → ℕ → ℕ
op opcode funct3 funct7 = bit_or (bit_or opcode (funct3 * 2 ^ 7)) (funct7 * 2 ^ 11)

-- `opcode_t`
abbrev pub op_lui : ℕ
op_lui = op 0b0110111 0 0

abbrev pub op_auipc : ℕ
op_auipc = op 0b0010111 0 0

abbrev pub op_jal : ℕ
op_jal = op 0b1101111 0 0

abbrev pub op_jalr : ℕ
op_jalr = op 0b1100111 0 0

abbrev pub op_beq : ℕ
op_beq = op 0b1100011 0 0

abbrev pub op_bne : ℕ
op_bne = op 0b1100011 1 0

abbrev pub op_blt : ℕ
op_blt = op 0b1100011 4 0

abbrev pub op_bge : ℕ
op_bge = op 0b1100011 5 0

abbrev pub op_bltu : ℕ
op_bltu = op 0b1100011 6 0

abbrev pub op_bgeu : ℕ
op_bgeu = op 0b1100011 7 0

abbrev pub op_lb : ℕ
op_lb = op 0b0000011 0 0

abbrev pub op_lh : ℕ
op_lh = op 0b0000011 1 0

abbrev pub op_lw : ℕ
op_lw = op 0b0000011 2 0

abbrev pub op_lbu : ℕ
op_lbu = op 0b0000011 4 0

abbrev pub op_lhu : ℕ
op_lhu = op 0b0000011 5 0

abbrev pub op_sb : ℕ
op_sb = op 0b0100011 0 0

abbrev pub op_sh : ℕ
op_sh = op 0b0100011 1 0

abbrev pub op_sw : ℕ
op_sw = op 0b0100011 2 0

abbrev pub op_addi : ℕ
op_addi = op 0b0010011 0 0

abbrev pub op_slti : ℕ
op_slti = op 0b0010011 2 0

abbrev pub op_sltiu : ℕ
op_sltiu = op 0b0010011 3 0

abbrev pub op_xori : ℕ
op_xori = op 0b0010011 4 0

abbrev pub op_ori : ℕ
op_ori = op 0b0010011 6 0

abbrev pub op_andi : ℕ
op_andi = op 0b0010011 7 0

abbrev pub op_slli : ℕ
op_slli = op 0b0010011 1 0

abbrev pub op_srli : ℕ
op_srli = op 0b0010011 5 0

abbrev pub op_srai : ℕ
op_srai = op 0b0010011 5 1

abbrev pub op_add : ℕ
op_add = op 0b0110011 0 0

abbrev pub op_sub : ℕ
op_sub = op 0b0110011 0 1

abbrev pub op_sll : ℕ
op_sll = op 0b0110011 1 0

abbrev pub op_slt : ℕ
op_slt = op 0b0110011 2 0

abbrev pub op_sltu : ℕ
op_sltu = op 0b0110011 3 0

abbrev pub op_xor : ℕ
op_xor = op 0b0110011 4 0

abbrev pub op_srl : ℕ
op_srl = op 0b0110011 5 0

abbrev pub op_sra : ℕ
op_sra = op 0b0110011 5 1

abbrev pub op_or : ℕ
op_or = op 0b0110011 6 0

abbrev pub op_and : ℕ
op_and = op 0b0110011 7 0

abbrev pub op_ecall : ℕ
op_ecall = op 0b1110011 0 0
