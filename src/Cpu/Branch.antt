-- ===== src/Cpu/Branch.antt =====
-- Branches, from the word to the next address.
use criscv.Base.{
  ℕ, ◌+◌, ◌*◌, ◌/◌, ◌%◌, ◌^◌, ◌<◌, ◌≡◌, refl, arith, bit_or, Bool, true, false, ◌==◌, if◌then◌else◌,
  flag, ok, add32, sar32, shl32,
}
use criscv.Bus.{Bus}
use criscv.Spec.Encode.{encode_b, extend13}
use criscv.Spec.Branch.{BranchOp, beq, bne, blt, bge, bltu, bgeu, branch_funct3, taken}
use criscv.Cpu.Isa.{b_type, decode_type_table}
use criscv.Cpu.State.{Core, Instr}
use criscv.Cpu.Decode.{reg_r}
use criscv.Cpu.Execute.{execute, execute_format, execute_b, alu_b, op3_of}
use criscv.Cpu.Formats.{common, decode-encode_b}
use criscv.Cpu.Run.{Understood, cycles, fetched, decoded, executed, Retired, cycles-Retired}

-- `((imm12) << 20) >> 19` on half of the immediate is its sign extension.
offset-extend13 :
    (imm : ℕ) → imm < 2 ^ 13 → imm % 2 ≡ 0 → sar32 (shl32 (imm / 2) 20) 19 ≡ extend13 imm
unfolding extend13
offset-extend13 imm h even = ground arith

branch_number : BranchOp → ℕ
branch_number op = bit_or 0x63 (branch_funct3 op * 2 ^ 7)

alu_b-taken : (op : BranchOp) (a b old : ℕ) → alu_b (branch_number op) a b old ≡ flag (taken op a b)
unfolding alu_b branch_number branch_funct3 taken
alu_b-taken beq a b old = refl
alu_b-taken bne a b old = refl
alu_b-taken blt a b old = refl
alu_b-taken bge a b old = refl
alu_b-taken bltu a b old = refl
alu_b-taken bgeu a b old = ground arith

flag-is : (b : Bool) → (flag b == 1) ≡ b
flag-is true = refl
flag-is false = refl

abbrev branch_instr : Core → BranchOp → ℕ → ℕ → ℕ → Instr
branch_instr core op imm rs2 rs1 =
    record (common core b_type rs2 rs1 (branch_funct3 op) (imm / 2 % 16 * 2 + imm / 2 ^ 11 % 2)
      0x63) { imm12 = imm / 2 }

abbrev branching : Core → BranchOp → ℕ → ℕ → ℕ → Instr
branching core op imm rs2 rs1 = record (branch_instr core op imm rs2 rs1) {
  jump_target = add32 core.pc (extend13 imm);
  is_jump = taken op (reg_r core rs1) (reg_r core rs2);
}

execute-branch :
    (core : Core) (w : ℕ) (op : BranchOp) (imm rs2 rs1 : ℕ)
    → imm < 2 ^ 13
    → imm % 2 ≡ 0
    → execute (decoded core w (branch_instr core op imm rs2 rs1))
      ≡ ok (
          executed core w
            (branching core op imm rs2 rs1)
            (flag (taken op (reg_r core rs1) (reg_r core rs2))))
unfolding execute execute_format execute_b op3_of branch_number
execute-branch core w op imm rs2 rs1 h even = rw (
  alu_b-taken op (reg_r core rs1) (reg_r core rs2) core.alu_out,
  flag-is (taken op (reg_r core rs1) (reg_r core rs2)),
  offset-extend13 imm h even,
)

-- BEQ, BNE, BLT, BGE, BLTU and BGEU do what the manual says, in any condition of the core and for any
-- register numbers below 32 and any even immediate of 13 bits: four cycles after the word was
-- fetched, `pc` is at the immediate, sign-extended, from the branch if the condition holds of `rs1`
-- and `rs2`, and else at the next word; no register changes, the core is about to fetch, and the bus
-- is as it was.
pub cycles-taken :
    (core : Core) (bus : Bus) (op : BranchOp) (imm rs2 rs1 : ℕ)
    → imm < 2 ^ 13
    → imm % 2 ≡ 0
    → rs2 < 32
    → rs1 < 32
    → (c : Core) × (cycles 4 (fetched core (encode_b imm rs2 rs1 (branch_funct3 op) 0x63)) bus
        ≡ ok (c, bus))
      × Retired core core.registers
          (if taken op (reg_r core rs1) (reg_r core rs2)
            then add32 core.pc (extend13 imm)
            else add32 core.pc 4)
          c
unfolding decode_type_table branch_funct3
cycles-taken core bus op imm rs2 rs1 h even h2 h1 =
    let w = encode_b imm rs2 rs1 (branch_funct3 op) 0x63 in
    let l3 : branch_funct3 op < 8 = ground arith in
    cycles-Retired core bus w (branch_instr core op imm rs2 rs1) (branching core op imm rs2 rs1)
      (flag (taken op (reg_r core rs1) (reg_r core rs2)))
      (decode-encode_b (fetched core w) imm rs2 rs1 (branch_funct3 op) 0x63 h2 h1 l3 (omega arith) h
        even refl refl)
      (execute-branch core w op imm rs2 rs1 h even) refl refl

pub branch-Understood :
    (core : Core) (op : BranchOp) (imm rs2 rs1 : ℕ)
    → imm < 2 ^ 13
    → imm % 2 ≡ 0
    → rs2 < 32
    → rs1 < 32
    → Understood core (encode_b imm rs2 rs1 (branch_funct3 op) 0x63)
unfolding decode_type_table branch_funct3
branch-Understood core op imm rs2 rs1 h even h2 h1 =
    let w = encode_b imm rs2 rs1 (branch_funct3 op) 0x63 in
    let l3 : branch_funct3 op < 8 = ground arith in
    record {
      dec = branch_instr core op imm rs2 rs1;
      dec' = branching core op imm rs2 rs1;
      value = flag (taken op (reg_r core rs1) (reg_r core rs2));
      taken_apart =
          decode-encode_b (fetched core w) imm rs2 rs1 (branch_funct3 op) 0x63 h2 h1 l3
            (omega arith) h even refl refl;
      done = execute-branch core w op imm rs2 rs1 h even;
    }
