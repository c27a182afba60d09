-- ===== src/Cpu/Execute/Others.antt =====
-- `case S`, `case B`, `case U`, `case J` and `case C` of `execute`: stores, branches, upper
-- immediates, JAL and system instructions.
use criscv.Base.{
  ℕ, ◌*◌, ◌^◌, bit_and, bit_or, bit_xor, true, require, ◌>>◌, ltb, leb, if◌then◌else◌,
}
use criscv.Base.{
  flag, not, ◌==◌, Result, ok, stop, assert_failed, add32, sub32, shl32, sar32, signed32,
}
use criscv.Base.{ltb_ℤ}
use criscv.Mmio.{AccessWidth, byte, halfword, word}
use criscv.Cpu.Isa.{
  op_sb, op_sh, op_sw, op_beq, op_bne, op_blt, op_bge, op_bltu, op_bgeu, op_lui, op_auipc, op_jal,
  op_ecall,
}
use criscv.Cpu.State.{Instr, Core, cause_trap, illegal_instruction, env_call_umode}
use criscv.Cpu.Execute.IType.{se_imm12}

-- The number that `case S` and `case B` switch on.
unfoldable pub op3_of : Instr → ℕ
op3_of dec = bit_or dec.opcode (dec.funct3 * 2 ^ 7)

-- A store: the access that the stage MEMORY makes.
unfoldable pub store : Core → AccessWidth → ℕ → Core
store core aw value = record core {
  alu_out = value;
  decoded = record core.decoded { mem_access_width = aw };
}

unfoldable pub execute_s : Core → Result Core
unfolding op3_of
execute_s core =
    let dec = core.decoded in
    let op = op3_of dec in
    let offset = add32 dec.rs1v (se_imm12 dec.imm12) in
    let c = record core { decoded = record dec { write_mem = true; mem_offset = offset } } in
    if op == op_sb
    then ok (store c byte (bit_and dec.rs2v 0xff))
    else if op == op_sh
    then ok (store c halfword (bit_and dec.rs2v 0xffff))
    else if op == op_sw
    then ok (store c word (bit_and dec.rs2v 0xffffffff))
    else stop assert_failed

-- The `switch` of `case B`, which has no `default`: `old` is what `aluOut` holds.
unfoldable pub alu_b : ℕ → ℕ → ℕ → ℕ → ℕ
alu_b op a b old =
    if op == op_beq
    then flag (a == b)
    else if op == op_bne
    then flag (not (a == b))
    else if op == op_blt
    then flag (ltb_ℤ (signed32 a) (signed32 b))
    else if op == op_bltu
    then flag (ltb a b)
    else if op == op_bge
    then flag (not (ltb_ℤ (signed32 a) (signed32 b)))
    else if op == op_bgeu
    then flag (leb b a)
    else old

unfoldable pub execute_b : Core → Result Core
unfolding op3_of
execute_b core =
    let dec = core.decoded in
    let out = alu_b (op3_of dec) dec.rs1v dec.rs2v core.alu_out in
    ok (record core {
      alu_out = out;
      decoded = record dec {
        jump_target = add32 core.pc (sar32 (shl32 dec.imm12 20) 19);
        is_jump = out == 1;
      };
    })

-- `(dec->imm20 ^ m) - m`, with `m` the sign bit of the immediate.
unfoldable pub se_imm20 : ℕ → ℕ
se_imm20 imm20 = sub32 (bit_xor imm20 (2 ^ 19)) (2 ^ 19)

-- `OP_LUI & 0x7f` is the opcode alone.
unfoldable pub execute_u : Core → Result Core
execute_u core =
    let dec = core.decoded in
    let c = record core { decoded = record dec { write_rd = true } } in
    if dec.opcode == bit_and op_lui 0x7f
    then ok (record c { alu_out = shl32 dec.imm20 12 })
    else if dec.opcode == bit_and op_auipc 0x7f
    then ok (record c { alu_out = add32 (shl32 (se_imm20 dec.imm20) 12) core.pc })
    else stop assert_failed

-- The assertion of the default is `false == dec->opcode`.
unfoldable pub execute_j : Core → Result Core
execute_j core =
    let dec = record core.decoded { is_jump = true; write_rd = true } in
    if dec.opcode == bit_and op_jal 0x7f
    then ok (record core {
      alu_out = add32 core.pc 4;
      decoded = record dec { jump_target = add32 (shl32 (se_imm20 dec.imm20) 1) core.pc };
    })
    else (require (dec.opcode == 0) assert_failed >> ok (record core { decoded = dec }))

-- The switch is on the opcode alone, which is that of ECALL for every system instruction.
unfoldable pub execute_c : Core → Result Core
execute_c core =
    if core.decoded.opcode == op_ecall
    then cause_trap core env_call_umode
    else cause_trap core illegal_instruction
