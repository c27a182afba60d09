-- ===== src/Cpu/Refine/Step.antt =====
-- One instruction of the core, after its fetch, against one step of the abstract machine.
use criscv.Base.{ℕ, ◌*◌, ◌%◌, ◌/◌, ◌^◌, ◌<◌, ◌≡◌, refl, arith, ok}
use criscv.Bus.{Bus}
use criscv.Cpu.State.{Core}
use criscv.Cpu.Run.{cycles, fetched, Retired}
use criscv.Cpu.Arithmetic.{cycles-alu}
use criscv.Cpu.Immediate.{cycles-alu_i}
use criscv.Cpu.Branch.{cycles-taken}
use criscv.Cpu.Upper.{cycles-jump, cycles-upper}
use criscv.Cpu.Refine.{Layout, Represents, Agrees}
use criscv.Cpu.Refine.Fetch.{Ready}
use criscv.Cpu.Refine.Retire.{Backs-moved, Retired-Represents}
use criscv.Spec.Alu.{AluOp}
use criscv.Spec.Branch.{BranchOp}
use criscv.Spec.Machine.{
  Instruction, op, op_imm, branch, jal, lui, auipc, jalr, encode, step, Machine, set, address,
}

-- Four cycles of the core after a fetch that lead to what represents `m'`.
abbrev pub Follows : Layout → Core → Bus → Instruction → Machine → Type 0
Follows lay core bus i m' =
    (c : Core) × (b : Bus) × (cycles 4 (fetched core (encode i)) bus ≡ ok (c, b))
    × Represents lay c b m'

module _ (lay : Layout) (core : Core) (bus : Bus) (m : Machine) (r : Ready lay core bus m) where
  -- An instruction that leaves the bus as it is.
  moved :
      (w : ℕ) (registers registers' : ℕ → ℕ) (pc pc' : ℕ)
      → registers ≡ registers'
      → pc ≡ pc'
      → (c : Core) × (cycles 4 (fetched core w) bus ≡ ok (c, bus)) × Retired core registers pc c
      → (c : Core) × (b : Bus) × (cycles 4 (fetched core w) bus ≡ ok (c, b))
        × Represents lay c b (record m { registers = registers'; pc = pc' })
  moved w registers registers' pc pc' er ep (c, run, kept) =
      let m' = record m { registers = registers'; pc = pc' } in
      (
        c,
        bus,
        run,
        Retired-Represents lay core c bus bus m m' registers pc r kept
            (Backs-moved lay bus m registers' pc' r.backs) (λ a lo hi. refl) er ep,
      )

  pub step-op :
      (o : AluOp) (rs2 rs1 rd : ℕ)
      → Agrees lay (op o rs2 rs1 rd) m
      → Follows lay core bus (op o rs2 rs1 rd) (step (op o rs2 rs1 rd) m)
  unfolding encode step set Agrees
  step-op o rs2 rs1 rd (h, h2, h1, hd) =
      moved _ _ _ _ _ (rw r.same_registers) (rw r.same_pc)
        (cycles-alu core bus o rs2 rs1 rd h2 h1 hd h)

  pub step-op_imm :
      (o : AluOp) (imm rs1 rd : ℕ)
      → Agrees lay (op_imm o imm rs1 rd) m
      → Follows lay core bus (op_imm o imm rs1 rd) (step (op_imm o imm rs1 rd) m)
  unfolding encode step set Agrees
  step-op_imm o imm rs1 rd (h, h1, hd) =
      moved _ _ _ _ _ (rw r.same_registers) (rw r.same_pc)
        (cycles-alu_i core bus o imm rs1 rd h h1 hd)

  pub step-branch :
      (o : BranchOp) (imm rs2 rs1 : ℕ)
      → Agrees lay (branch o imm rs2 rs1) m
      → Follows lay core bus (branch o imm rs2 rs1) (step (branch o imm rs2 rs1) m)
  unfolding encode step Agrees
  step-branch o imm rs2 rs1 (h, even, h2, h1) =
      moved _ _ _ _ _ r.same_registers (rw (r.same_registers, r.same_pc))
        (cycles-taken core bus o imm rs2 rs1 h even h2 h1)

  pub step-upper :
      (imm rd : ℕ)
      → imm < 2 ^ 20
      → rd < 32
      → Follows lay core bus (lui imm rd) (step (lui imm rd) m)
        × Follows lay core bus (auipc imm rd) (step (auipc imm rd) m)
  unfolding encode step set
  step-upper imm rd h hd =
      let both = cycles-upper core bus imm rd h hd in
      (
        moved _ _ _ _ _ (rw r.same_registers) (rw r.same_pc) both.0,
        moved _ _ _ _ _ (rw (r.same_registers, r.same_pc)) (rw r.same_pc) both.1,
      )

  pub step-jump :
      (imm imm' rs1 rd : ℕ)
      → imm < 2 ^ 21
      → imm % 2 ≡ 0
      → imm' < 2 ^ 12
      → rs1 < 32
      → rd < 32
      → address m imm' rs1 % 2 ≡ 0
      → Follows lay core bus (jal imm rd) (step (jal imm rd) m)
        × Follows lay core bus (jalr imm' rs1 rd) (step (jalr imm' rs1 rd) m)
  unfolding encode step set
  step-jump imm imm' rs1 rd h even h' h1 hd even' =
      let both = cycles-jump core bus imm imm' rs1 rd h even h' h1 hd in
      let whole : address m imm' rs1 ≡ address m imm' rs1 / 2 * 2 = omega arith in
      (
        moved _ _ _ _ _ (rw (r.same_registers, r.same_pc)) (rw r.same_pc) both.0,
        moved _ _ _ _ _ (rw (r.same_registers, r.same_pc)) (rw r.same_registers whole) both.1,
      )
