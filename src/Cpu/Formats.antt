-- ===== src/Cpu/Formats.antt =====
-- `decode` on an encoded word of each format: the fields of the instruction that it makes.
use criscv.Base.{
  ℕ, ◌+◌, ◌-◌, ◌*◌, ◌/◌, ◌%◌, ◌^◌, ◌<◌, ◌≡◌, refl, ap, ◌∙◌, arith, bit_and, false, ok,
}
use criscv.Base.Bits.{and_mask}
use criscv.Spec.Encode.{encode_r, encode_i, encode_s, encode_b, encode_u, encode_j}
use criscv.Cpu.Isa.{OpType, r_type, i_type, s_type, b_type, u_type, j_type, decode_type_table}
use criscv.Cpu.State.{Core, Instr}
use criscv.Cpu.Decode.{reg_r, decode, decode_format, s_imm, b_imm, j_imm}
use criscv.Cpu.Fields.{decode_common-fields, s_imm-encode, b_imm-encode, j_imm-encode}

-- The instruction before the `switch` over the format.
abbrev pub common : Core → OpType → ℕ → ℕ → ℕ → ℕ → ℕ → Instr
common core format rs2 rs1 f3 rd opcode = record core.decoded {
  is_jump = false;
  write_rd = false;
  write_mem = false;
  read_mem = false;
  opcode = opcode;
  optype = format;
  rs1 = rs1;
  rs1v = reg_r core rs1;
  rs2 = rs2;
  rs2v = reg_r core (rs2);
  funct3 = f3;
  shamt = rs2;
  rd = rd;
  funct7 = 0;
}

module _ (core : Core) (hi rs2 rs1 f3 rd opcode : ℕ) (format : OpType) where
  decode_lem :
      rs1 < 32
      → f3 < 8
      → rd < 32
      → opcode < 128
      → hi % 32 ≡ rs2
      → decode_type_table opcode ≡ format
      → core.instruction ≡ hi * 2 ^ 20 + rs1 * 2 ^ 15 + f3 * 2 ^ 12 + rd * 2 ^ 7 + opcode
      → decode core
        ≡ decode_format format core.instruction
            (record core { decoded = common core format rs2 rs1 f3 rd opcode })
  unfolding decode
  decode_lem h1 h3 hd ho e2 known word =
      rw (decode_common-fields core hi rs1 f3 rd opcode word h1 h3 hd ho, known, e2)

module _ (core : Core) (rs2 rs1 f3 rd opcode : ℕ) (h2 : rs2 < 32) (h1 : rs1 < 32) (h3 : f3 < 8)
    (hd : rd < 32) (ho : opcode < 128) where
  pub decode-encode_r :
      (f7 : ℕ)
      → f7 < 128
      → decode_type_table opcode ≡ r_type
      → core.instruction ≡ encode_r f7 rs2 rs1 f3 rd opcode
      → decode core
        ≡ ok (record core {
          decoded = record (common core r_type rs2 rs1 f3 rd opcode) { funct7 = f7 };
        })
  unfolding decode_format encode_r
  decode-encode_r f7 h7 known word =
      let e : core.instruction / 2 ^ 25 % 2 ^ 7 ≡ f7 = omega arith in
      rw (
        decode_lem core (f7 * 32 + rs2) rs2 rs1 f3 rd opcode r_type h1 h3 hd ho (omega arith) known
            (omega arith),
        e,
      )

module _ (core : Core) (imm rs1 f3 rd opcode : ℕ) (h1 : rs1 < 32) (h3 : f3 < 8) (hd : rd < 32)
    (ho : opcode < 128) where
  pub decode-encode_i :
      imm < 2 ^ 12
      → decode_type_table opcode ≡ i_type
      → core.instruction ≡ encode_i imm rs1 f3 rd opcode
      → decode core
        ≡ ok (record core {
          decoded = record (common core i_type (imm % 32) rs1 f3 rd opcode) { imm12 = imm };
        })
  unfolding encode_i decode_format
  decode-encode_i hi known word =
      let e : bit_and (core.instruction / 2 ^ 20) (2 ^ 12 - 1) ≡ imm =
        and_mask 12 (core.instruction / 2 ^ 20) ∙ omega arith in
      rw (decode_lem core imm (imm % 32) rs1 f3 rd opcode i_type h1 h3 hd ho refl known word, e)

module _ (core : Core) (imm rs2 rs1 f3 opcode : ℕ) (h2 : rs2 < 32) (h1 : rs1 < 32) (h3 : f3 < 8)
    (ho : opcode < 128) where
  -- `decode` takes a word of the format S apart into its registers, `funct3` and its immediate of 12
  -- bits, with the values that the registers hold, for any fields in range.
  pub decode-encode_s :
      imm < 2 ^ 12
      → decode_type_table opcode ≡ s_type
      → core.instruction ≡ encode_s imm rs2 rs1 f3 opcode
      → decode core
        ≡ ok (record core {
          decoded = record (common core s_type rs2 rs1 f3 (imm % 32) opcode) { imm12 = imm };
        })
  unfolding encode_s decode_format
  decode-encode_s hi known word =
      let e : s_imm core.instruction ≡ imm =
        ap s_imm (word ∙ omega arith)
        ∙ s_imm-encode imm (rs2 * 2 ^ 8 + rs1 * 2 ^ 3 + f3) opcode hi (omega arith) ho in
      rw (
        decode_lem core (imm / 32 * 32 + rs2) rs2 rs1 f3 (imm % 32) opcode s_type h1 h3
            (omega arith) ho (omega arith) known (omega arith),
        e,
      )

  -- `decode` takes a word of the format B apart into its registers, `funct3` and half its immediate of
  -- 13 bits, which is even, with the values that the registers hold, for any fields in range.
  pub decode-encode_b :
      imm < 2 ^ 13
      → imm % 2 ≡ 0
      → decode_type_table opcode ≡ b_type
      → core.instruction ≡ encode_b imm rs2 rs1 f3 opcode
      → decode core
        ≡ ok (record core {
          decoded =
              record (common core b_type rs2 rs1 f3 (imm / 2 % 16 * 2 + imm / 2 ^ 11 % 2) opcode) {
                imm12 = imm / 2;
              };
        })
  unfolding encode_b decode_format
  decode-encode_b hi even known word =
      let e : b_imm core.instruction ≡ imm / 2 =
        ap b_imm (word ∙ omega arith)
        ∙ b_imm-encode imm (rs2 * 2 ^ 8 + rs1 * 2 ^ 3 + f3) opcode hi even (omega arith) ho in
      rw (
        decode_lem core (imm / 2 ^ 12 % 2 * 2 ^ 11 + imm / 2 ^ 5 % 2 ^ 6 * 2 ^ 5 + rs2) rs2 rs1 f3
            (imm / 2 % 16 * 2 + imm / 2 ^ 11 % 2) opcode b_type h1 h3 (omega arith) ho (omega arith)
            known (omega arith),
        e,
      )

-- The upper 20 bits of a word of the format J.
abbrev pub j_bits : ℕ → ℕ
j_bits imm =
    imm / 2 ^ 20 % 2 * 2 ^ 19
    + imm / 2 % 2 ^ 10 * 2 ^ 9
    + imm / 2 ^ 11 % 2 * 2 ^ 8
    + imm / 2 ^ 12 % 2 ^ 8

module _ (core : Core) (imm rd opcode : ℕ) (hd : rd < 32) (ho : opcode < 128) where
  pub decode-encode_u :
      imm < 2 ^ 20
      → decode_type_table opcode ≡ u_type
      → core.instruction ≡ encode_u imm rd opcode
      → decode core
        ≡ ok (record core {
          decoded =
              record (common core u_type
                (imm / 2 ^ 8 % 32)
                (imm / 2 ^ 3 % 32)
                (imm % 8)
                rd
                opcode) { imm20 = imm };
        })
  unfolding encode_u decode_format
  decode-encode_u hi known word =
      let e : bit_and (core.instruction / 2 ^ 12) 0xfffff ≡ imm =
        and_mask 20 (core.instruction / 2 ^ 12) ∙ omega arith in
      rw (
        decode_lem core (imm / 2 ^ 8) (imm / 2 ^ 8 % 32) (imm / 2 ^ 3 % 32) (imm % 8) rd opcode
            u_type (omega arith) (omega arith) hd ho refl known (omega arith),
        e,
      )

  -- `decode` takes a word of the format J apart into `rd` and half its immediate of 21 bits, which is
  -- even, for any fields in range.
  pub decode-encode_j :
      imm < 2 ^ 21
      → imm % 2 ≡ 0
      → decode_type_table opcode ≡ j_type
      → core.instruction ≡ encode_j imm rd opcode
      → decode core
        ≡ ok (record core {
          decoded =
              record (common core j_type
                (j_bits imm / 2 ^ 8 % 32)
                (j_bits imm / 2 ^ 3 % 32)
                (j_bits imm % 8)
                rd
                opcode) { imm20 = imm / 2 };
        })
  unfolding encode_j decode_format
  decode-encode_j hi even known word =
      let e : j_imm core.instruction ≡ imm / 2 =
        ap j_imm (word ∙ omega arith)
        ∙ j_imm-encode imm (rd * 2 ^ 7 + opcode) hi even (omega arith) in
      rw (
        decode_lem core (j_bits imm / 2 ^ 8) (j_bits imm / 2 ^ 8 % 32) (j_bits imm / 2 ^ 3 % 32)
            (j_bits imm % 8) rd opcode j_type (omega arith) (omega arith) hd ho refl known
            (omega arith),
        e,
      )
