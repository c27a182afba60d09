-- ===== src/Cpu/Bounds.antt =====
-- That each value of the core fits the 32 bits that its C type has: what the instructions compute.
use criscv.Base.{
  ℕ, ◌/◌, ◌^◌, ◌<◌, ◌≡◌, refl, arith, bit_and, Bool, true, false, Bool-cases, inl, inr, Option,
  none, some, ok, flag, sar32, shl32, shr, ltb,
}
use native.Mathlib.Nat.{div-le_self}
use criscv.Base.Bits.{or_lt, and_lt, xor_lt}
use criscv.Cpu.Execute.{
  alu_r, alu_i, alu_b, se_imm12, execute_r, execute_i, finish_r, finish_i, load, op_of,
  execute_format, execute_s, execute_b, execute_u, execute_j, execute_c, store, op3_of,
}
use criscv.Cpu.Isa.{OpType, unknown, r_type, i_type, s_type, b_type, u_type, j_type, c_type}
use criscv.Cpu.Decode.{decode, decode_common, decode_format, reg_r}
use criscv.Cpu.State.{Core, cause_trap, env_call_umode, illegal_instruction}
use criscv.Csr.{csr_read_write32}

flag_lt : (b : Bool) → flag b < 2 ^ 32
flag_lt true = omega arith
flag_lt false = omega arith

div_lt : (a d : ℕ) → a < 2 ^ 32 → a / d < 2 ^ 32
div_lt a d h = let small = div-le_self a d in omega arith

sar32_lt : (a k : ℕ) → a < 2 ^ 32 → sar32 a k < 2 ^ 32
sar32_lt a k h = elim (Bool-cases (ltb a (2 ^ 31))) [
  | inl e ↦ rw e (div_lt a (2 ^ k) h)
  | inr e ↦ rw e (omega arith)
]

se_imm12_lt : (imm : ℕ) → se_imm12 imm < 2 ^ 32
unfolding se_imm12
se_imm12_lt imm = sar32_lt (shl32 imm 20) 20 (omega arith)

pub alu_r_lt : (op a b v : ℕ) → a < 2 ^ 32 → b < 2 ^ 32 → alu_r op a b ≡ some v → v < 2 ^ 32
unfolding alu_r
alu_r_lt op a b v ha hb h = ground (
  arith,
  div_lt a (2 ^ bit_and b 31) ha,
  or_lt 32 a b ha hb,
  and_lt 32 a b ha,
  xor_lt 32 a b ha hb,
)

pub alu_i_lt :
    (op a imm shamt v : ℕ) → a < 2 ^ 32 → imm < 2 ^ 32 → alu_i op a imm shamt ≡ some v → v < 2 ^ 32
unfolding alu_i
alu_i_lt op a imm shamt v ha hi h =
    let low : bit_and imm 0xfff < 2 ^ 32 = and_lt 32 imm 0xfff hi in
    ground (
      arith,
      div_lt a (2 ^ shamt) ha,
      sar32_lt a shamt ha,
      or_lt 32 a (bit_and imm 0xfff) ha low,
      and_lt 32 a imm ha,
      xor_lt 32 a imm ha hi,
    )

pub alu_b_lt : (op a b old : ℕ) → old < 2 ^ 32 → alu_b op a b old < 2 ^ 32
unfolding alu_b
alu_b_lt op a b old h = ground arith

-- What the stages between the fetch and the writeback compute.
pub record IsNarrow (core : Core) : Type 0 where
  pub pc_fits : core.pc < 2 ^ 32
  pub out_fits : core.alu_out < 2 ^ 32
  pub rs1_fits : core.decoded.rs1v < 2 ^ 32
  pub rs2_fits : core.decoded.rs2v < 2 ^ 32
  pub target_fits : core.decoded.jump_target < 2 ^ 32
  pub offset_fits : core.decoded.mem_offset < 2 ^ 32

pub cause_trap-IsNarrow :
    (core c : Core) (cause : ℕ) → IsNarrow core → cause_trap core cause ≡ ok c → IsNarrow c
unfolding cause_trap csr_read_write32
cause_trap-IsNarrow core c cause n h = ground arith

finish_r-IsNarrow :
    (o : Option ℕ) (core c : Core)
    → IsNarrow core
    → ((v : ℕ) → o ≡ some v → v < 2 ^ 32)
    → finish_r o core ≡ ok c
    → IsNarrow c
unfolding finish_r
finish_r-IsNarrow none core c n fits h = cause_trap-IsNarrow core c _ n h
finish_r-IsNarrow (some v) core c n fits h = let small = fits v refl in ground arith

finish_i-IsNarrow :
    (o : Option ℕ) (core c : Core)
    → IsNarrow core
    → ((v : ℕ) → o ≡ some v → v < 2 ^ 32)
    → finish_i o core ≡ ok c
    → IsNarrow c
unfolding finish_i
finish_i-IsNarrow none core c n fits h = cc
finish_i-IsNarrow (some v) core c n fits h = let small = fits v refl in ground arith

execute_r-IsNarrow : (core c : Core) → IsNarrow core → execute_r core ≡ ok c → IsNarrow c
unfolding execute_r
execute_r-IsNarrow core c n h =
    let dec = core.decoded in
    finish_r-IsNarrow _ (record core { decoded = record dec { write_rd = true } }) c
      (record {
        pc_fits = n.pc_fits;
        out_fits = n.out_fits;
        rs1_fits = n.rs1_fits;
        rs2_fits = n.rs2_fits;
        target_fits = n.target_fits;
        offset_fits = n.offset_fits;
      })
      (λ v. alu_r_lt _ dec.rs1v dec.rs2v v n.rs1_fits n.rs2_fits) h

execute_i-IsNarrow : (core c : Core) → IsNarrow core → execute_i core ≡ ok c → IsNarrow c
unfolding execute_i load
execute_i-IsNarrow core c n h =
    let dec = core.decoded in
    let imm = se_imm12 dec.imm12 in
    let low = and_lt 32 dec.rs2v 0xff n.rs2_fits in
    let half = and_lt 32 dec.rs2v 0xffff n.rs2_fits in
    let all = and_lt 32 dec.rs2v 0xffffffff n.rs2_fits in
    let signed = sar32_lt (shl32 (bit_and dec.rs2v 0xffff) 16) 16 (omega arith) in
    let rest = alu_i (op_of dec) dec.rs1v imm dec.shamt in
    ground (
      arith,
      low,
      half,
      all,
      signed,
      finish_i-IsNarrow rest (record core { decoded = record dec { write_rd = true } }) c
          (record {
            pc_fits = n.pc_fits;
            out_fits = n.out_fits;
            rs1_fits = n.rs1_fits;
            rs2_fits = n.rs2_fits;
            target_fits = n.target_fits;
            offset_fits = n.offset_fits;
          })
          (λ v. alu_i_lt (op_of dec) dec.rs1v imm dec.shamt v n.rs1_fits (se_imm12_lt dec.imm12)),
    )

execute_s-IsNarrow : (core c : Core) → IsNarrow core → execute_s core ≡ ok c → IsNarrow c
unfolding execute_s store
execute_s-IsNarrow core c n h =
    let v = core.decoded.rs2v in
    ground (
      arith,
      and_lt 32 v 0xff n.rs2_fits,
      and_lt 32 v 0xffff n.rs2_fits,
      and_lt 32 v 0xffffffff n.rs2_fits,
    )

execute_b-IsNarrow : (core c : Core) → IsNarrow core → execute_b core ≡ ok c → IsNarrow c
unfolding execute_b
execute_b-IsNarrow core c n h =
    let dec = core.decoded in
    ground (arith, alu_b_lt (op3_of dec) dec.rs1v dec.rs2v core.alu_out n.out_fits)

execute_u-IsNarrow : (core c : Core) → IsNarrow core → execute_u core ≡ ok c → IsNarrow c
unfolding execute_u
execute_u-IsNarrow core c n h = ground arith

execute_j-IsNarrow : (core c : Core) → IsNarrow core → execute_j core ≡ ok c → IsNarrow c
unfolding execute_j
execute_j-IsNarrow core c n h = ground arith

pub execute-IsNarrow :
    (format : OpType) (core c : Core)
    → IsNarrow core
    → execute_format format core ≡ ok c
    → IsNarrow c
unfolding execute_format execute_c
execute-IsNarrow unknown core c n h = cause_trap-IsNarrow core c _ n h
execute-IsNarrow r_type core c n h = execute_r-IsNarrow core c n h
execute-IsNarrow i_type core c n h = execute_i-IsNarrow core c n h
execute-IsNarrow s_type core c n h = execute_s-IsNarrow core c n h
execute-IsNarrow b_type core c n h = execute_b-IsNarrow core c n h
execute-IsNarrow u_type core c n h = execute_u-IsNarrow core c n h
execute-IsNarrow j_type core c n h = execute_j-IsNarrow core c n h
execute-IsNarrow c_type core c n h = ground (
  arith,
  cause_trap-IsNarrow core c env_call_umode n,
  cause_trap-IsNarrow core c illegal_instruction n,
)

reg_r_lt : (core : Core) (x : ℕ) → ((y : ℕ) → core.registers y < 2 ^ 32) → reg_r core x < 2 ^ 32
reg_r_lt core x h = let fits = h x in ground arith

decode_common-IsNarrow :
    (core : Core)
    → IsNarrow core
    → ((y : ℕ) → core.registers y < 2 ^ 32)
    → IsNarrow (record core { decoded = decode_common core })
unfolding decode_common
decode_common-IsNarrow core n h =
    let i = core.instruction in
    record {
      pc_fits = n.pc_fits;
      out_fits = n.out_fits;
      rs1_fits = reg_r_lt core (bit_and (shr i 15) 31) h;
      rs2_fits = reg_r_lt core (bit_and (shr i 20) 31) h;
      target_fits = n.target_fits;
      offset_fits = n.offset_fits;
    }

decode_format-IsNarrow :
    (format : OpType) (i : ℕ) (core c : Core)
    → IsNarrow core
    → decode_format format i core ≡ ok c
    → IsNarrow c
unfolding decode_format
decode_format-IsNarrow unknown i core c n h = cause_trap-IsNarrow core c _ n h
decode_format-IsNarrow r_type i core c n h = ground arith
decode_format-IsNarrow i_type i core c n h = ground arith
decode_format-IsNarrow s_type i core c n h = ground arith
decode_format-IsNarrow b_type i core c n h = ground arith
decode_format-IsNarrow u_type i core c n h = ground arith
decode_format-IsNarrow j_type i core c n h = ground arith
decode_format-IsNarrow c_type i core c n h = ground arith

pub decode-IsNarrow :
    (core c : Core)
    → IsNarrow core
    → ((y : ℕ) → core.registers y < 2 ^ 32)
    → decode core ≡ ok c
    → IsNarrow c
unfolding decode
decode-IsNarrow core c n fits h =
    decode_format-IsNarrow _ core.instruction (record core { decoded = decode_common core }) c
      (decode_common-IsNarrow core n fits) h
