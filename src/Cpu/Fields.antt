-- ===== src/Cpu/Fields.antt =====
-- `decode` takes each format apart into the fields that were encoded.
use criscv.Base.{
  ℕ, ◌+◌, ◌*◌, ◌/◌, ◌%◌, ◌^◌, ◌<◌, ◌≡◌, ◌∙◌, arith, bit_and, bit_or, false, shl32, sar32,
}
use criscv.Base.Bits.{and_mask, or_fields, or_insert, or_comm, and_step}
use criscv.Cpu.Isa.{decode_type_table}
use criscv.Cpu.State.{Core}
use criscv.Cpu.Decode.{reg_r, decode_common, s_imm, b_imm, j_imm}

-- The fields that all formats share, of a word that is `hi` above its low 20 bits.
module _ (core : Core) (hi rs1 funct3 rd opcode : ℕ)
    (word : core.instruction ≡ hi * 2 ^ 20 + rs1 * 2 ^ 15 + funct3 * 2 ^ 12 + rd * 2 ^ 7 + opcode)
    (h1 : rs1 < 32) (h3 : funct3 < 8) (hd : rd < 32) (ho : opcode < 128) where
  pub decode_common-fields : decode_common core ≡ record core.decoded {
    is_jump = false;
    write_rd = false;
    write_mem = false;
    read_mem = false;
    opcode = opcode;
    optype = decode_type_table opcode;
    rs1 = rs1;
    rs1v = reg_r core rs1;
    rs2 = hi % 32;
    rs2v = reg_r core (hi % 32);
    funct3 = funct3;
    shamt = hi % 32;
    rd = rd;
    funct7 = 0;
  }
  unfolding decode_common
  decode_common-fields =
      let i = core.instruction in
      let e_op : bit_and i 0x7f ≡ opcode = and_mask 7 i ∙ omega arith in
      let e_rd : bit_and (i / 2 ^ 7) 31 ≡ rd = and_mask 5 (i / 2 ^ 7) ∙ omega arith in
      let e_f3 : bit_and (i / 2 ^ 12) 7 ≡ funct3 = and_mask 3 (i / 2 ^ 12) ∙ omega arith in
      let e_1 : bit_and (i / 2 ^ 15) 31 ≡ rs1 = and_mask 5 (i / 2 ^ 15) ∙ omega arith in
      let e_2 : bit_and (i / 2 ^ 20) 31 ≡ hi % 32 = and_mask 5 (i / 2 ^ 20) ∙ omega arith in
      rw (e_op, e_rd, e_f3, e_1, e_2)

and_mask_s : (x : ℕ) → bit_and x 0xffffe0 ≡ x / 32 % 2 ^ 19 * 32
and_mask_s x = omega (
  arith,
  and_step x 0xffffe0,
  and_step (x / 2) 0x7ffff0,
  and_step (x / 2 / 2) 0x3ffff8,
  and_step (x / 2 / 2 / 2) 0x1ffffc,
  and_step (x / 2 / 2 / 2 / 2) 0xffffe,
  and_mask 19 (x / 2 / 2 / 2 / 2 / 2),
)

-- The immediates, of a word that has the opcode and other fields in the places `lo` and `mid`.
pub s_imm-encode :
    (imm mid lo : ℕ)
    → imm < 2 ^ 12
    → mid < 2 ^ 13
    → lo < 2 ^ 7
    → s_imm (imm / 2 ^ 5 * 2 ^ 25 + mid * 2 ^ 12 + imm % 2 ^ 5 * 2 ^ 7 + lo) ≡ imm
unfolding s_imm
s_imm-encode imm mid lo hi hm hl =
    let i = imm / 2 ^ 5 * 2 ^ 25 + mid * 2 ^ 12 + imm % 2 ^ 5 * 2 ^ 7 + lo in
    let low : bit_and (i / 2 ^ 7) 0b11111 ≡ imm % 2 ^ 5 = and_mask 5 (i / 2 ^ 7) ∙ omega arith in
    let high : bit_and (i / 2 ^ 20) 0xffffe0 ≡ imm / 2 ^ 5 * 2 ^ 5 =
      and_mask_s (i / 2 ^ 20) ∙ omega arith in
    rw
      (
        low,
        high,
        or_comm (imm % 2 ^ 5) (imm / 2 ^ 5 * 2 ^ 5),
        or_fields 5 (imm / 2 ^ 5) (imm % 2 ^ 5) (omega arith),
      )
      (omega arith)

-- `((imm) << 11) >> 12`, cut to 20 bits, halves it.
shifted : (imm : ℕ) → imm < 2 ^ 21 → imm % 2 ≡ 0 → sar32 (shl32 imm 11) 12 % 2 ^ 20 ≡ imm / 2
shifted imm hi even = ground arith

-- The fields of a branch's immediate, and of JAL's, put together.
b_join :
    (a b c d : ℕ)
    → b < 2 ^ 6
    → c < 2 ^ 4
    → d < 2
    → bit_or (bit_or (bit_or (a * 2 ^ 12) (b * 2 ^ 5)) (c * 2 ^ 1)) (d * 2 ^ 11)
      ≡ a * 2 ^ 12 + d * 2 ^ 11 + b * 2 ^ 5 + c * 2
b_join a b c d hb hc hd =
    let regroup : a * 2 ^ 12 + b * 2 ^ 5 ≡ (a * 2 ^ 7 + b) * 2 ^ 5 = omega arith in
    let above : (a * 2 ^ 7 + b) * 2 ^ 5 + c * 2 ≡ a * 2 ^ 1 * 2 ^ 11 + (b * 2 ^ 5 + c * 2) =
      omega arith in
    rw
      (
        or_fields 12 a (b * 2 ^ 5) (omega arith),
        regroup,
        or_fields 5 (a * 2 ^ 7 + b) (c * 2) (omega arith),
        above,
        or_insert 1 11 a (b * 2 ^ 5 + c * 2) d (omega arith) (omega arith),
      )
      (omega arith)

j_join :
    (a b c d : ℕ)
    → b < 2 ^ 10
    → c < 2
    → d < 2 ^ 8
    → bit_or (bit_or (bit_or (a * 2 ^ 20) (b * 2 ^ 1)) (c * 2 ^ 11)) (d * 2 ^ 12)
      ≡ a * 2 ^ 20 + d * 2 ^ 12 + c * 2 ^ 11 + b * 2
j_join a b c d hb hc hd =
    let above : a * 2 ^ 20 + b * 2 ≡ a * 2 ^ 8 * 2 ^ 1 * 2 ^ 11 + b * 2 = omega arith in
    let again : (a * 2 ^ 8 * 2 ^ 1 + c) * 2 ^ 11 + b * 2
        ≡ a * 2 ^ 8 * 2 ^ 12 + (c * 2 ^ 11 + b * 2) =
      omega arith in
    rw
      (
        or_fields 20 a (b * 2) (omega arith),
        above,
        or_insert 1 11 (a * 2 ^ 8) (b * 2) c (omega arith) (omega arith),
        again,
        or_insert 8 12 a (c * 2 ^ 11 + b * 2) d (omega arith) (omega arith),
      )
      (omega arith)

-- Of a branch the code keeps half the immediate.
pub b_imm-encode :
    (imm mid lo : ℕ)
    → imm < 2 ^ 13
    → imm % 2 ≡ 0
    → mid < 2 ^ 13
    → lo < 2 ^ 7
    → b_imm (
        imm / 2 ^ 12 % 2 * 2 ^ 31
        + imm / 2 ^ 5 % 2 ^ 6 * 2 ^ 25
        + mid * 2 ^ 12
        + imm / 2 % 2 ^ 4 * 2 ^ 8
        + imm / 2 ^ 11 % 2 * 2 ^ 7
        + lo)
      ≡ imm / 2
unfolding b_imm
b_imm-encode imm mid lo hi even hm hl =
    let i =
      imm / 2 ^ 12 % 2 * 2 ^ 31
      + imm / 2 ^ 5 % 2 ^ 6 * 2 ^ 25
      + mid * 2 ^ 12
      + imm / 2 % 2 ^ 4 * 2 ^ 8
      + imm / 2 ^ 11 % 2 * 2 ^ 7
      + lo in
    let a = imm / 2 ^ 12 % 2 in
    let b = imm / 2 ^ 5 % 2 ^ 6 in
    let c = imm / 2 % 2 ^ 4 in
    let d = imm / 2 ^ 11 % 2 in
    let e_a : bit_and (i / 2 ^ 31) 1 ≡ a = and_mask 1 (i / 2 ^ 31) ∙ omega arith in
    let e_b : bit_and (i / 2 ^ 25) 0b111111 ≡ b = and_mask 6 (i / 2 ^ 25) ∙ omega arith in
    let e_c : bit_and (i / 2 ^ 8) 0xf ≡ c = and_mask 4 (i / 2 ^ 8) ∙ omega arith in
    let e_d : bit_and (i / 2 ^ 7) 1 ≡ d = and_mask 1 (i / 2 ^ 7) ∙ omega arith in
    rw (e_a, e_b, e_c, e_d, b_join a b c d (omega arith) (omega arith) (omega arith)) (omega arith)

-- Of JAL's immediate it keeps half as well.
pub j_imm-encode :
    (imm lo : ℕ)
    → imm < 2 ^ 21
    → imm % 2 ≡ 0
    → lo < 2 ^ 12
    → j_imm (
        imm / 2 ^ 20 % 2 * 2 ^ 31
        + imm / 2 % 2 ^ 10 * 2 ^ 21
        + imm / 2 ^ 11 % 2 * 2 ^ 20
        + imm / 2 ^ 12 % 2 ^ 8 * 2 ^ 12
        + lo)
      ≡ imm / 2
unfolding j_imm
j_imm-encode imm lo hi even hl =
    let i =
      imm / 2 ^ 20 % 2 * 2 ^ 31
      + imm / 2 % 2 ^ 10 * 2 ^ 21
      + imm / 2 ^ 11 % 2 * 2 ^ 20
      + imm / 2 ^ 12 % 2 ^ 8 * 2 ^ 12
      + lo in
    let a = imm / 2 ^ 20 % 2 in
    let b = imm / 2 % 2 ^ 10 in
    let c = imm / 2 ^ 11 % 2 in
    let d = imm / 2 ^ 12 % 2 ^ 8 in
    let e_a : bit_and (i / 2 ^ 31) 1 ≡ a = and_mask 1 (i / 2 ^ 31) ∙ omega arith in
    let e_b : bit_and (i / 2 ^ 21) 0b1111111111 ≡ b = and_mask 10 (i / 2 ^ 21) ∙ omega arith in
    let e_c : bit_and (i / 2 ^ 20) 1 ≡ c = and_mask 1 (i / 2 ^ 20) ∙ omega arith in
    let e_d : bit_and (i / 2 ^ 12) 0b11111111 ≡ d = and_mask 8 (i / 2 ^ 12) ∙ omega arith in
    let whole : a * 2 ^ 20 + d * 2 ^ 12 + c * 2 ^ 11 + b * 2 ≡ imm = omega arith in
    rw (e_a, e_b, e_c, e_d, j_join a b c d (omega arith) (omega arith) (omega arith), whole)
      (shifted imm hi even)
