-- ===== src/Cpu/Arithmetic.antt =====
-- Register-register instructions, from the word to the registers.
use criscv.Base.{
  ℕ, ◌*◌, ◌/◌, ◌^◌, ◌<◌, ◌≡◌, ◌≢◌, refl, arith, bit_or, true, ◌==◌, if◌then◌else◌, ok, some, add32,
  update,
}
use criscv.Base.Bits.{and_mask}
use criscv.Bus.{Bus}
use criscv.Spec.Encode.{encode_r}
use criscv.Spec.Alu.{AluOp, add, sub, sll, slt, sltu, xor, srl, sra, or, and, funct3, funct7, alu}
use criscv.Cpu.Isa.{r_type, decode_type_table}
use criscv.Cpu.State.{Core}
use criscv.Cpu.Decode.{reg_r}
use criscv.Cpu.Execute.{execute, execute_format, execute_r, alu_r, op_of, finish_r}
use criscv.Cpu.Formats.{common, decode-encode_r}
use criscv.Cpu.Run.{cycles, fetched, decoded, executed, Retired, Understood, cycles-Retired}

-- The number that `case R` switches on.
abbrev op_number : AluOp → ℕ
op_number op = bit_or (bit_or 0x33 (funct3 op * 2 ^ 7)) (funct7 op / 2 ^ 5 * 2 ^ 11)

alu_r-alu : (op : AluOp) (a b : ℕ) → op ≢ sra → alu_r (op_number op) a b ≡ some (alu op a b)
unfolding alu_r funct3 funct7 alu
alu_r-alu add a b h = refl
alu_r-alu sub a b h = refl
alu_r-alu sll a b h = rw (and_mask 5 b)
alu_r-alu slt a b h = refl
alu_r-alu sltu a b h = refl
alu_r-alu xor a b h = refl
alu_r-alu srl a b h = rw (and_mask 5 b)
alu_r-alu sra a b h = absurd (h refl)
alu_r-alu or a b h = refl
alu_r-alu and a b h = refl

funct-lt : (op : AluOp) → (funct3 op < 8) × (funct7 op < 128)
unfolding funct3 funct7
funct-lt add = omega arith
funct-lt sub = omega arith
funct-lt sll = omega arith
funct-lt slt = omega arith
funct-lt sltu = omega arith
funct-lt xor = omega arith
funct-lt srl = omega arith
funct-lt sra = omega arith
funct-lt or = omega arith
funct-lt and = omega arith

execute-alu :
    (core : Core) (w : ℕ) (op : AluOp) (rs2 rs1 rd : ℕ)
    → op ≢ sra
    → let dec = record (common core r_type rs2 rs1 (funct3 op) rd 0x33) { funct7 = funct7 op } in
      execute (decoded core w dec)
      ≡ ok (
          executed core w
            (record dec { write_rd = true })
            (alu op (reg_r core rs1) (reg_r core rs2)))
unfolding execute execute_format execute_r op_of finish_r
execute-alu core w op rs2 rs1 rd h = rw (alu_r-alu op (reg_r core rs1) (reg_r core rs2) h)

-- ADD, SUB, SLL, SLT, SLTU, XOR, SRL, OR and AND do what the manual says, in any condition of the
-- core and for any register numbers below 32: four cycles after the word was fetched, `rd` holds the
-- result of the operation on `rs1` and `rs2` (x0 stays 0), `pc` is the next word's, the core is
-- about to fetch, and the bus is as it was.
pub cycles-alu :
    (core : Core) (bus : Bus) (op : AluOp) (rs2 rs1 rd : ℕ)
    → rs2 < 32
    → rs1 < 32
    → rd < 32
    → op ≢ sra
    → (c : Core) × (cycles 4 (fetched core (encode_r (funct7 op) rs2 rs1 (funct3 op) rd 0x33)) bus
        ≡ ok (c, bus))
      × Retired core
          (update core.registers rd
            (if rd == 0 then 0 else alu op (reg_r core rs1) (reg_r core rs2)))
          (add32 core.pc 4)
          c
unfolding decode_type_table
cycles-alu core bus op rs2 rs1 rd h2 h1 hd h =
    let (l3, l7) = funct-lt op in
    let w = encode_r (funct7 op) rs2 rs1 (funct3 op) rd 0x33 in
    let dec = record (common core r_type rs2 rs1 (funct3 op) rd 0x33) { funct7 = funct7 op } in
    cycles-Retired core bus w dec (record dec { write_rd = true })
      (alu op (reg_r core rs1) (reg_r core rs2))
      (decode-encode_r (fetched core w) rs2 rs1 (funct3 op) rd 0x33 h2 h1 l3 hd (omega arith)
        (funct7 op) l7 refl refl)
      (execute-alu core w op rs2 rs1 rd h) refl refl

pub alu-Understood :
    (core : Core) (op : AluOp) (rs2 rs1 rd : ℕ)
    → rs2 < 32
    → rs1 < 32
    → rd < 32
    → op ≢ sra
    → Understood core (encode_r (funct7 op) rs2 rs1 (funct3 op) rd 0x33)
unfolding decode_type_table
alu-Understood core op rs2 rs1 rd h2 h1 hd h =
    let (l3, l7) = funct-lt op in
    let w = encode_r (funct7 op) rs2 rs1 (funct3 op) rd 0x33 in
    let dec = record (common core r_type rs2 rs1 (funct3 op) rd 0x33) { funct7 = funct7 op } in
    record {
      dec = dec;
      dec' = record dec { write_rd = true };
      value = alu op (reg_r core rs1) (reg_r core rs2);
      taken_apart =
          decode-encode_r (fetched core w) rs2 rs1 (funct3 op) rd 0x33 h2 h1 l3 hd (omega arith)
            (funct7 op) l7 refl refl;
      done = execute-alu core w op rs2 rs1 rd h;
    }
