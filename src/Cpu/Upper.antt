-- ===== src/Cpu/Upper.antt =====
-- LUI, AUIPC, JAL and JALR, from the word to the register and the next address.
use criscv.Base.{ℕ, ◌*◌, ◌/◌, ◌%◌, ◌^◌, ◌<◌, ◌≡◌, refl, arith, true, ok, add32, shl32}
use criscv.Base.Bits.{xor_top}
use criscv.Bus.{Bus}
use criscv.Spec.Encode.{encode_i, encode_u, encode_j, extend12, extend21}
use criscv.Cpu.Isa.{i_type, u_type, j_type, decode_type_table}
use criscv.Cpu.State.{Core, Instr}
use criscv.Cpu.Decode.{reg_r}
use criscv.Cpu.Execute.{execute, execute_format, execute_i, execute_u, execute_j, op_of, se_imm20}
use criscv.Cpu.Formats.{common, decode-encode_i, decode-encode_u, decode-encode_j, j_bits}
use criscv.Cpu.Immediate.{se_imm12-extend12}
use criscv.Cpu.Run.{
  Understood, cycles, fetched, decoded, executed, Retired, set_register, cycles-Retired,
}

-- `(imm20 ^ m) - m`, shifted left by 12, is the upper immediate.
upper-se_imm20 : (imm : ℕ) → imm < 2 ^ 20 → shl32 (se_imm20 imm) 12 ≡ imm * 2 ^ 12
unfolding se_imm20
upper-se_imm20 imm h = ground (arith, xor_top 19 imm h)

-- Half of JAL's immediate, extended and doubled.
jump-se_imm20 : (imm : ℕ) → imm < 2 ^ 21 → imm % 2 ≡ 0 → shl32 (se_imm20 (imm / 2)) 1 ≡ extend21 imm
unfolding se_imm20 extend21
jump-se_imm20 imm h even = ground (arith, xor_top 19 (imm / 2) (omega arith))

module _ (core : Core) (w imm rd : ℕ) where
  abbrev pub upper_instr : ℕ → Instr
  upper_instr opcode =
      record (common core u_type (imm / 2 ^ 8 % 32) (imm / 2 ^ 3 % 32) (imm % 8) rd opcode) {
        imm20 = imm;
      }

  execute-lui :
      imm < 2 ^ 20
      → execute (decoded core w (upper_instr 0x37))
        ≡ ok (executed core w (record (upper_instr 0x37) { write_rd = true }) (imm * 2 ^ 12))
  unfolding execute execute_format execute_u
  execute-lui h = let fits : shl32 imm 12 ≡ imm * 2 ^ 12 = omega arith in rw fits

  execute-auipc :
      imm < 2 ^ 20
      → execute (decoded core w (upper_instr 0x17))
        ≡ ok (
            executed core w
              (record (upper_instr 0x17) { write_rd = true })
              (add32 (imm * 2 ^ 12) core.pc))
  unfolding execute execute_format execute_u
  execute-auipc h = rw (upper-se_imm20 imm h)

-- LUI and AUIPC do what the manual says, in any condition of the core and for any `rd` below 32 and
-- any immediate of 20 bits: four cycles after the word was fetched, `rd` holds the immediate in its
-- upper 20 bits, for AUIPC with the address of the instruction added (x0 stays 0), `pc` is the next
-- word's, the core is about to fetch, and the bus is as it was.
pub cycles-upper :
    (core : Core) (bus : Bus) (imm rd : ℕ)
    → imm < 2 ^ 20
    → rd < 32
    → ((c : Core) × (cycles 4 (fetched core (encode_u imm rd 0x37)) bus ≡ ok (c, bus))
        × Retired core (set_register core.registers rd (imm * 2 ^ 12)) (add32 core.pc 4) c)
      × ((c : Core) × (cycles 4 (fetched core (encode_u imm rd 0x17)) bus ≡ ok (c, bus))
          × Retired core
              (set_register core.registers rd (add32 (imm * 2 ^ 12) core.pc))
              (add32 core.pc 4)
              c)
unfolding decode_type_table
cycles-upper core bus imm rd h hd =
    let lui = encode_u imm rd 0x37 in
    let auipc = encode_u imm rd 0x17 in
    let dec = upper_instr core lui imm rd 0x37 in
    let dec' = upper_instr core auipc imm rd 0x17 in
    (
      cycles-Retired core bus lui dec (record dec { write_rd = true }) (imm * 2 ^ 12)
          (decode-encode_u (fetched core lui) imm rd 0x37 hd (omega arith) h refl refl)
          (execute-lui core lui imm rd h) refl refl,
      cycles-Retired core bus auipc dec' (record dec' { write_rd = true })
          (add32 (imm * 2 ^ 12) core.pc)
          (decode-encode_u (fetched core auipc) imm rd 0x17 hd (omega arith) h refl refl)
          (execute-auipc core auipc imm rd h) refl refl,
    )

abbrev jal_instr : Core → ℕ → ℕ → Instr
jal_instr core imm rd =
    record (common core j_type (j_bits imm / 2 ^ 8 % 32) (j_bits imm / 2 ^ 3 % 32) (j_bits imm % 8)
      rd 0x6f) { imm20 = imm / 2 }

abbrev jalr_instr : Core → ℕ → ℕ → ℕ → Instr
jalr_instr core imm rs1 rd = record (common core i_type (imm % 32) rs1 0 rd 0x67) { imm12 = imm }

abbrev jumping : Instr → ℕ → Instr
jumping dec target = record dec { is_jump = true; write_rd = true; jump_target = target }

execute-jal :
    (core : Core) (w imm rd : ℕ)
    → imm < 2 ^ 21
    → imm % 2 ≡ 0
    → execute (decoded core w (jal_instr core imm rd))
      ≡ ok (
          executed core w
            (jumping (jal_instr core imm rd) (add32 (extend21 imm) core.pc))
            (add32 core.pc 4))
unfolding execute execute_format execute_j
execute-jal core w imm rd h even = rw (jump-se_imm20 imm h even)

execute-jalr :
    (core : Core) (w imm rs1 rd : ℕ)
    → imm < 2 ^ 12
    → execute (decoded core w (jalr_instr core imm rs1 rd))
      ≡ ok (
          executed core w
            (jumping (jalr_instr core imm rs1 rd) (add32 (reg_r core rs1) (extend12 imm)))
            (add32 core.pc 4))
unfolding execute execute_format execute_i op_of
execute-jalr core w imm rs1 rd h = rw (se_imm12-extend12 imm h)

-- JAL and JALR, in any condition of the core and for any register numbers below 32, any even
-- immediate of 21 bits for JAL and any of 12 bits for JALR: four cycles after the word was fetched,
-- `rd` holds the address of the next word (x0 stays 0), and `pc` is the sign-extended immediate added
-- to the address of the instruction or, for JALR, to `rs1` as it was, of which the manual would clear
-- the lowest bit; the core is about to fetch, and the bus is as it was.
pub cycles-jump :
    (core : Core) (bus : Bus) (imm imm' rs1 rd : ℕ)
    → imm < 2 ^ 21
    → imm % 2 ≡ 0
    → imm' < 2 ^ 12
    → rs1 < 32
    → rd < 32
    → ((c : Core) × (cycles 4 (fetched core (encode_j imm rd 0x6f)) bus ≡ ok (c, bus))
        × Retired core
            (set_register core.registers rd (add32 core.pc 4))
            (add32 (extend21 imm) core.pc)
            c)
      × ((c : Core) × (cycles 4 (fetched core (encode_i imm' rs1 0 rd 0x67)) bus ≡ ok (c, bus))
          × Retired core
              (set_register core.registers rd (add32 core.pc 4))
              (add32 (reg_r core rs1) (extend12 imm'))
              c)
unfolding decode_type_table
cycles-jump core bus imm imm' rs1 rd h even h' h1 hd =
    let jal = encode_j imm rd 0x6f in
    let jalr = encode_i imm' rs1 0 rd 0x67 in
    let dec = jal_instr core imm rd in
    let dec' = jalr_instr core imm' rs1 rd in
    (
      cycles-Retired core bus jal dec (jumping dec (add32 (extend21 imm) core.pc)) (add32 core.pc 4)
          (decode-encode_j (fetched core jal) imm rd 0x6f hd (omega arith) h even refl refl)
          (execute-jal core jal imm rd h even) refl refl,
      cycles-Retired core bus jalr dec' (jumping dec' (add32 (reg_r core rs1) (extend12 imm')))
          (add32 core.pc 4)
          (decode-encode_i (fetched core jalr) imm' rs1 0 rd 0x67 h1 (omega arith) hd (omega arith)
            h' refl refl)
          (execute-jalr core jalr imm' rs1 rd h') refl refl,
    )

pub upper-Understood :
    (core : Core) (imm rd : ℕ)
    → imm < 2 ^ 20
    → rd < 32
    → Understood core (encode_u imm rd 0x37) × Understood core (encode_u imm rd 0x17)
unfolding decode_type_table
upper-Understood core imm rd h hd =
    let lui = encode_u imm rd 0x37 in
    let auipc = encode_u imm rd 0x17 in
    let dec = upper_instr core lui imm rd 0x37 in
    let dec' = upper_instr core auipc imm rd 0x17 in
    (
      record {
        dec = dec;
        dec' = record dec { write_rd = true };
        value = imm * 2 ^ 12;
        taken_apart = decode-encode_u (fetched core lui) imm rd 0x37 hd (omega arith) h refl refl;
        done = execute-lui core lui imm rd h;
      },
      record {
        dec = dec';
        dec' = record dec' { write_rd = true };
        value = add32 (imm * 2 ^ 12) core.pc;
        taken_apart = decode-encode_u (fetched core auipc) imm rd 0x17 hd (omega arith) h refl refl;
        done = execute-auipc core auipc imm rd h;
      },
    )

pub jal-Understood :
    (core : Core) (imm rd : ℕ)
    → imm < 2 ^ 21
    → imm % 2 ≡ 0
    → rd < 32
    → Understood core (encode_j imm rd 0x6f)
unfolding decode_type_table
jal-Understood core imm rd h even hd =
    let w = encode_j imm rd 0x6f in
    record {
      dec = jal_instr core imm rd;
      dec' = jumping (jal_instr core imm rd) (add32 (extend21 imm) core.pc);
      value = add32 core.pc 4;
      taken_apart = decode-encode_j (fetched core w) imm rd 0x6f hd (omega arith) h even refl refl;
      done = execute-jal core w imm rd h even;
    }

pub jalr-Understood :
    (core : Core) (imm rs1 rd : ℕ)
    → imm < 2 ^ 12
    → rs1 < 32
    → rd < 32
    → Understood core (encode_i imm rs1 0 rd 0x67)
unfolding decode_type_table
jalr-Understood core imm rs1 rd h h1 hd =
    let w = encode_i imm rs1 0 rd 0x67 in
    record {
      dec = jalr_instr core imm rs1 rd;
      dec' = jumping (jalr_instr core imm rs1 rd) (add32 (reg_r core rs1) (extend12 imm));
      value = add32 core.pc 4;
      taken_apart =
          decode-encode_i (fetched core w) imm rs1 0 rd 0x67 h1 (omega arith) hd (omega arith) h
            refl refl;
      done = execute-jalr core w imm rs1 rd h;
    }
