-- ===== src/Cpu/Execute/RType.antt =====
-- `case R` of `execute`: register with register.
use criscv.Base.{
  ℕ, ◌*◌, ◌^◌, bit_and, bit_or, bit_xor, true, ltb, ◌==◌, if◌then◌else◌, flag, Option, none, some,
  Result, ok, add32, sub32, shl32, shr, signed32, ltb_ℤ,
}
use criscv.Cpu.Isa.{op_add, op_sub, op_sll, op_slt, op_sltu, op_xor, op_srl, op_sra, op_or, op_and}
use criscv.Cpu.State.{Instr, Core, cause_trap, illegal_instruction}

-- The number that `case R` and `case I` switch on: of `funct7` only the top two bits are looked at.
unfoldable pub op_of : Instr → ℕ
op_of dec = bit_or (bit_or dec.opcode (dec.funct3 * 2 ^ 7)) (shr dec.funct7 5 * 2 ^ 11)

-- The `switch`; `none` is its `default`.
unfoldable pub alu_r : ℕ → ℕ → ℕ → Option ℕ
alu_r op a b =
    if op == op_add
    then some (add32 a b)
    else if op == op_sub
    then some (sub32 a b)
    else if op == op_sll
    then some (shl32 a (bit_and b 31))
    else if op == op_slt
    then some (flag (ltb_ℤ (signed32 a) (signed32 b)))
    else if op == op_sltu
    then some (flag (ltb a b))
    else if op == op_xor
    then some (bit_xor a b)
    else if op == op_srl
    then some (shr a (bit_and b 31))
    else if op == op_sra
    then some (shr a (bit_and b 31))
    else if op == op_or
    then some (bit_or a b)
    else if op == op_and
    then some (bit_and a b)
    else none

unfoldable pub finish_r : Option ℕ → Core → Result Core
finish_r (some v) core = ok (record core { alu_out = v })
finish_r none core = cause_trap core illegal_instruction

unfoldable pub execute_r : Core → Result Core
unfolding op_of
execute_r core =
    let dec = core.decoded in
    finish_r (alu_r (op_of dec) dec.rs1v dec.rs2v)
      (record core { decoded = record dec { write_rd = true } })
