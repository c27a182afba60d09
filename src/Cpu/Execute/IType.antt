-- ===== src/Cpu/Execute/IType.antt =====
-- `case I` of `execute`: register with immediate, loads and JALR.
use criscv.Base.{
  ℕ, bit_and, bit_or, bit_xor, true, ltb, ◌==◌, if◌then◌else◌, flag, Option, none, some, Result, ok,
  stop, assert_failed, add32, shl32, sar32, shr, signed32, ltb_ℤ,
}
use criscv.Mmio.{AccessWidth, byte, halfword, word}
use criscv.Cpu.Isa.{
  op_jalr, op_lb, op_lbu, op_lh, op_lhu, op_lw, op_addi, op_slti, op_sltiu, op_xori, op_ori,
  op_andi, op_slli, op_srli, op_srai,
}
use criscv.Cpu.State.{Core}
use criscv.Cpu.Execute.RType.{op_of}

-- `(dec->imm12<<20)>>20`
unfoldable pub se_imm12 : ℕ → ℕ
se_imm12 imm12 = sar32 (shl32 imm12 20) 20

-- The cases that compute: `a` is `rs1v`, `imm` the extended immediate.
unfoldable pub alu_i : ℕ → ℕ → ℕ → ℕ → Option ℕ
alu_i op a imm shamt =
    if op == op_addi
    then some (add32 a imm)
    else if op == op_slti
    then some (flag (ltb_ℤ (signed32 a) (signed32 imm)))
    else if op == op_sltiu
    then some (flag (ltb a imm))
    else if op == op_xori
    then some (bit_xor a imm)
    else if op == op_ori
    then some (bit_or a (bit_and imm 0xfff))
    else if op == op_andi
    then some (bit_and a imm)
    else if op == op_slli
    then some (shl32 a shamt)
    else if op == op_srli
    then some (shr a shamt)
    else if op == op_srai
    then some (sar32 a shamt)
    else none

-- A load: the access that the stage MEMORY makes. The value left in `aluOut` is overwritten there.
unfoldable pub load : Core → AccessWidth → ℕ → ℕ → Core
load core aw offset out = record core {
  alu_out = out;
  decoded = record core.decoded { mem_offset = offset; mem_access_width = aw; read_mem = true };
}

unfoldable pub finish_i : Option ℕ → Core → Result Core
finish_i (some v) core = ok (record core { alu_out = v })
finish_i none core = stop assert_failed

unfoldable pub execute_i : Core → Result Core
unfolding op_of
execute_i core =
    let dec = core.decoded in
    let op = op_of dec in
    let imm = se_imm12 dec.imm12 in
    let target = add32 dec.rs1v imm in
    let c = record core { decoded = record dec { write_rd = true } } in
    if op == op_jalr
    then ok (record c {
      alu_out = add32 core.pc 4;
      decoded = record c.decoded { is_jump = true; jump_target = target };
    })
    else if op == op_lb
    then ok (load c byte target (bit_and dec.rs2v 0xff))
    else if op == op_lbu
    then ok (load c byte target (bit_and dec.rs2v 0xff))
    else if op == op_lhu
    then ok (load c halfword target (bit_and dec.rs2v 0xffff))
    else if op == op_lh
    then ok (load c halfword target (sar32 (shl32 (bit_and dec.rs2v 0xffff) 16) 16))
    else if op == op_lw
    then ok (load c word target (bit_and dec.rs2v 0xffffffff))
    else finish_i (alu_i op dec.rs1v imm dec.shamt) c
