-- ===== src/Spec/Machine.antt =====
-- An abstract machine: the program counter, the registers and a memory of bytes, which an instruction
-- changes in one step. It has no pipeline and no bus. Of the exceptions that the manual has, it models none.
use criscv.Base.{
  ℕ, zero, suc, ◌+◌, ◌-◌, ◌*◌, ◌/◌, ◌%◌, ◌^◌, Bool, ◌&&◌, leb, ltb, ◌==◌, if◌then◌else◌, ◌||◌,
  update,
}
use criscv.Spec.Encode.{
  encode_r, encode_i, encode_s, encode_b, encode_u, encode_j, extend12, extend13, extend21,
}
use criscv.Spec.Alu.{AluOp, funct3, funct7, alu}
use criscv.Spec.Branch.{BranchOp, branch_funct3, taken}
use criscv.Spec.Access.{
  LoadOp, lb, lh, lw, lbu, lhu, load_funct3, StoreOp, sb, sh, sw, store_funct3,
}

-- The instructions with their fields, in the order of the word: `rs2`, `rs1`, `rd`, with an immediate
-- in front.
pub data Instruction : Type 0 where
  op : AluOp → ℕ → ℕ → ℕ → Instruction
  op_imm : AluOp → ℕ → ℕ → ℕ → Instruction
  load : LoadOp → ℕ → ℕ → ℕ → Instruction
  store : StoreOp → ℕ → ℕ → ℕ → Instruction
  branch : BranchOp → ℕ → ℕ → ℕ → Instruction
  jal lui auipc : ℕ → ℕ → Instruction
  jalr : ℕ → ℕ → ℕ → Instruction

unfoldable pub encode : Instruction → ℕ
encode (op o rs2 rs1 rd) = encode_r (funct7 o) rs2 rs1 (funct3 o) rd 0x33
encode (op_imm o imm rs1 rd) = encode_i imm rs1 (funct3 o) rd 0x13
encode (load o imm rs1 rd) = encode_i imm rs1 (load_funct3 o) rd 0x03
encode (store o imm rs2 rs1) = encode_s imm rs2 rs1 (store_funct3 o) 0x23
encode (branch o imm rs2 rs1) = encode_b imm rs2 rs1 (branch_funct3 o) 0x63
encode (jal imm rd) = encode_j imm rd 0x6f
encode (lui imm rd) = encode_u imm rd 0x37
encode (auipc imm rd) = encode_u imm rd 0x17
encode (jalr imm rs1 rd) = encode_i imm rs1 0 rd 0x67

-- `readable` has the addresses that may be read: a store adds those it wrote.
pub record Machine : Type 0 where
  pub pc : ℕ
  pub registers : ℕ → ℕ
  pub memory : ℕ → ℕ
  pub readable : ℕ → Bool

abbrev pub register : Machine → ℕ → ℕ
register m x = if x == 0 then 0 else m.registers x

-- The number in the `n` bytes from an address on, the low byte first, and byte `k` of a number.
unfoldable pub number_at : (ℕ → ℕ) → ℕ → ℕ → ℕ
number_at memory a zero = 0
number_at memory a (suc n) = memory a + 256 * number_at memory (a + 1) n

unfoldable pub byte_of : ℕ → ℕ → ℕ
byte_of v zero = v % 256
byte_of v (suc k) = byte_of (v / 256) k

unfoldable pub load_size : LoadOp → ℕ
load_size lb = 1
load_size lh = 2
load_size lw = 4
load_size lbu = 1
load_size lhu = 2

unfoldable pub store_size : StoreOp → ℕ
store_size sb = 1
store_size sh = 2
store_size sw = 4

-- LB and LH repeat the sign bit.
unfoldable pub extended : LoadOp → ℕ → ℕ
extended lb x = x + (2 ^ 32 - 2 ^ 8) * (x / 2 ^ 7)
extended lh x = x + (2 ^ 32 - 2 ^ 16) * (x / 2 ^ 15)
extended _ x = x

abbrev pub address : Machine → ℕ → ℕ → ℕ
address m imm rs1 = (register m rs1 + extend12 imm) % 2 ^ 32

-- Whether an address is one of the `n` from `a` on.
abbrev pub covered : ℕ → ℕ → ℕ → Bool
covered a n j = leb a j && ltb j (a + n)

unfoldable pub put_bytes : ℕ → ℕ → ℕ → (ℕ → ℕ) → ℕ → ℕ
put_bytes a n v memory j = if covered a n j then byte_of v (j - a) else memory j

abbrev pub next : Machine → ℕ
next m = (m.pc + 4) % 2 ^ 32

-- The machine with `rd` set, x0 staying 0, that goes on at `pc`.
unfoldable pub set : Machine → ℕ → ℕ → ℕ → Machine
set m rd v pc = record m { registers = update m.registers rd (if rd == 0 then 0 else v); pc = pc }

unfoldable pub step : Instruction → Machine → Machine
unfolding set
step (op o rs2 rs1 rd) m = set m rd (alu o (register m rs1) (register m rs2)) (next m)
step (op_imm o imm rs1 rd) m = set m rd (alu o (register m rs1) (extend12 imm)) (next m)
step (load o imm rs1 rd) m =
    set m rd (extended o (number_at m.memory (address m imm rs1) (load_size o))) (next m)
step (store o imm rs2 rs1) m =
    let a = address m imm rs1 in
    record m {
      memory = put_bytes a (store_size o) (register m rs2) m.memory;
      readable = λ j. covered a (store_size o) j || m.readable j;
      pc = next m;
    }
step (branch o imm rs2 rs1) m = record m {
  pc = if taken o (register m rs1) (register m rs2) then (m.pc + extend13 imm) % 2 ^ 32 else next m;
}
step (jal imm rd) m = set m rd (next m) ((extend21 imm + m.pc) % 2 ^ 32)
step (lui imm rd) m = set m rd (imm * 2 ^ 12) (next m)
step (auipc imm rd) m = set m rd ((imm * 2 ^ 12 + m.pc) % 2 ^ 32) (next m)
step (jalr imm rs1 rd) m = set m rd (next m) (address m imm rs1 / 2 * 2)
