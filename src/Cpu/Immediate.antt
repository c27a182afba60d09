-- ===== src/Cpu/Immediate.antt =====
-- Register-immediate instructions, from the word to the registers.
use criscv.Base.{ℕ, ◌*◌, ◌%◌, ◌^◌, ◌<◌, ◌≡◌, refl, arith, bit_or, true, ok, some, add32}
use criscv.Base.Bits.{and_mask}
use criscv.Bus.{Bus}
use criscv.Spec.Encode.{encode_i, extend12}
use criscv.Spec.Alu.{AluOp, add, sub, sll, slt, sltu, xor, srl, sra, or, and, funct3, alu}
use criscv.Cpu.Isa.{i_type, decode_type_table}
use criscv.Cpu.State.{Core}
use criscv.Cpu.Decode.{reg_r}
use criscv.Cpu.Execute.{execute, execute_format, execute_i, alu_i, op_of, finish_i, se_imm12}
use criscv.Cpu.Formats.{common, decode-encode_i}
use criscv.Cpu.Run.{
  Understood, cycles, fetched, decoded, executed, Retired, set_register, cycles-Retired,
}

pub se_imm12-extend12 : (imm : ℕ) → imm < 2 ^ 12 → se_imm12 imm ≡ extend12 imm
unfolding se_imm12 extend12
se_imm12-extend12 imm h = ground arith

-- The immediates for which the code does what the manual says. A shift has 5 bits; ORI does not
-- extend the sign; SRAI shifts zeros in; there is no SUBI.
abbrev pub HasImmediate : AluOp → ℕ → Type 0
HasImmediate sll imm = imm < 32
HasImmediate srl imm = imm < 32
HasImmediate or imm = imm < 2 ^ 11
HasImmediate sub imm = ⊥
HasImmediate sra imm = ⊥
HasImmediate _ imm = imm < 2 ^ 12

HasImmediate-lt : (op : AluOp) (imm : ℕ) → HasImmediate op imm → (imm < 2 ^ 12) × (funct3 op < 8)
unfolding funct3
HasImmediate-lt add imm h = omega arith
HasImmediate-lt sub imm h = absurd h
HasImmediate-lt sll imm h = omega arith
HasImmediate-lt slt imm h = omega arith
HasImmediate-lt sltu imm h = omega arith
HasImmediate-lt xor imm h = omega arith
HasImmediate-lt srl imm h = omega arith
HasImmediate-lt sra imm h = absurd h
HasImmediate-lt or imm h = omega arith
HasImmediate-lt and imm h = omega arith

extend12-small : (imm : ℕ) → imm < 2 ^ 11 → extend12 imm ≡ imm
unfolding extend12
extend12-small imm h = omega arith

-- The number that `case I` switches on.
abbrev immediate_number : AluOp → ℕ
immediate_number op = bit_or (bit_or 0x13 (funct3 op * 2 ^ 7)) 0

alu_i-alu :
    (op : AluOp) (a imm : ℕ)
    → HasImmediate op imm
    → alu_i (immediate_number op) a (extend12 imm) (imm % 32) ≡ some (alu op a (extend12 imm))
unfolding alu_i funct3 alu
alu_i-alu add a imm h = refl
alu_i-alu sub a imm h = absurd h
alu_i-alu sll a imm h = rw (extend12-small imm (omega arith))
alu_i-alu slt a imm h = refl
alu_i-alu sltu a imm h = refl
alu_i-alu xor a imm h = refl
alu_i-alu srl a imm h = rw (extend12-small imm (omega arith))
alu_i-alu sra a imm h = absurd h
alu_i-alu or a imm h =
    let same : imm % 2 ^ 12 ≡ imm = omega arith in rw (extend12-small imm h, and_mask 12 imm, same)
alu_i-alu and a imm h = refl

-- The loads and JALR are other cases.
execute_i-alu_i :
    (core : Core) (w : ℕ) (op : AluOp) (imm rs1 rd : ℕ)
    → let dec = record (common core i_type (imm % 32) rs1 (funct3 op) rd 0x13) { imm12 = imm } in
      execute_i (decoded core w dec)
      ≡ finish_i
          (alu_i (immediate_number op) (reg_r core rs1) (se_imm12 imm) (imm % 32))
          (decoded core w (record dec { write_rd = true }))
unfolding execute_i op_of funct3
execute_i-alu_i core w add imm rs1 rd = refl
execute_i-alu_i core w sub imm rs1 rd = refl
execute_i-alu_i core w sll imm rs1 rd = refl
execute_i-alu_i core w slt imm rs1 rd = refl
execute_i-alu_i core w sltu imm rs1 rd = refl
execute_i-alu_i core w xor imm rs1 rd = refl
execute_i-alu_i core w srl imm rs1 rd = refl
execute_i-alu_i core w sra imm rs1 rd = refl
execute_i-alu_i core w or imm rs1 rd = refl
execute_i-alu_i core w and imm rs1 rd = refl

execute-alu_i :
    (core : Core) (w : ℕ) (op : AluOp) (imm rs1 rd : ℕ)
    → HasImmediate op imm
    → let dec = record (common core i_type (imm % 32) rs1 (funct3 op) rd 0x13) { imm12 = imm } in
      execute (decoded core w dec)
      ≡ ok (
          executed core w (record dec { write_rd = true }) (alu op (reg_r core rs1) (extend12 imm)))
unfolding execute execute_format finish_i
execute-alu_i core w op imm rs1 rd h =
    let small = (HasImmediate-lt op imm h).0 in
    rw (
      execute_i-alu_i core w op imm rs1 rd,
      se_imm12-extend12 imm small,
      alu_i-alu op (reg_r core rs1) imm h,
    )

-- ADDI, SLTI, SLTIU, XORI, ANDI, SLLI and SRLI do what the manual says, in any condition of the
-- core and for any register numbers below 32 and any immediate, and so does ORI with an immediate
-- that is not negative: four cycles after the word was fetched, `rd` holds the result of the
-- operation on `rs1` and the sign-extended immediate (x0 stays 0), `pc` is the next word's, the core
-- is about to fetch, and the bus is as it was.
pub cycles-alu_i :
    (core : Core) (bus : Bus) (op : AluOp) (imm rs1 rd : ℕ)
    → HasImmediate op imm
    → rs1 < 32
    → rd < 32
    → (c : Core) × (cycles 4 (fetched core (encode_i imm rs1 (funct3 op) rd 0x13)) bus
        ≡ ok (c, bus))
      × Retired core
          (set_register core.registers rd (alu op (reg_r core rs1) (extend12 imm)))
          (add32 core.pc 4)
          c
unfolding decode_type_table
cycles-alu_i core bus op imm rs1 rd h h1 hd =
    let (small, l3) = HasImmediate-lt op imm h in
    let w = encode_i imm rs1 (funct3 op) rd 0x13 in
    let dec = record (common core i_type (imm % 32) rs1 (funct3 op) rd 0x13) { imm12 = imm } in
    cycles-Retired core bus w dec (record dec { write_rd = true })
      (alu op (reg_r core rs1) (extend12 imm))
      (decode-encode_i (fetched core w) imm rs1 (funct3 op) rd 0x13 h1 l3 hd (omega arith) small
        refl refl)
      (execute-alu_i core w op imm rs1 rd h) refl refl

pub alu_i-Understood :
    (core : Core) (op : AluOp) (imm rs1 rd : ℕ)
    → HasImmediate op imm
    → rs1 < 32
    → rd < 32
    → Understood core (encode_i imm rs1 (funct3 op) rd 0x13)
unfolding decode_type_table
alu_i-Understood core op imm rs1 rd h h1 hd =
    let (small, l3) = HasImmediate-lt op imm h in
    let w = encode_i imm rs1 (funct3 op) rd 0x13 in
    let dec = record (common core i_type (imm % 32) rs1 (funct3 op) rd 0x13) { imm12 = imm } in
    record {
      dec = dec;
      dec' = record dec { write_rd = true };
      value = alu op (reg_r core rs1) (extend12 imm);
      taken_apart =
          decode-encode_i (fetched core w) imm rs1 (funct3 op) rd 0x13 h1 l3 hd (omega arith) small
            refl refl;
      done = execute-alu_i core w op imm rs1 rd h;
    }
