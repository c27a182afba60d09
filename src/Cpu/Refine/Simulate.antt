-- ===== src/Cpu/Refine/Simulate.antt =====
-- Runs of the core against runs of the abstract machine.
use criscv.Base.{ℕ, zero, suc, ◌+◌, ◌*◌, ◌≤◌, ◌≡◌, refl, ◌∙◌, ap, arith, Result, ok, stop, ◌>>=◌}
use criscv.Bus.{Bus}
use criscv.Cpu.State.{Core}
use criscv.Cpu.Stages.{core_cycle}
use criscv.Cpu.Run.{cycles, fetched, Understood}
use criscv.Cpu.Arithmetic.{alu-Understood}
use criscv.Cpu.Immediate.{alu_i-Understood}
use criscv.Cpu.Load.{load-Understood}
use criscv.Cpu.Store.{store-Understood}
use criscv.Cpu.Branch.{branch-Understood}
use criscv.Cpu.Upper.{upper-Understood, jal-Understood, jalr-Understood}
use criscv.Cpu.Refine.{Layout, Represents, Agrees, Runs, done, more}
use criscv.Cpu.Refine.Fetch.{Ready, fetch-Ready}
use criscv.Cpu.Refine.Step.{Follows, step-op, step-op_imm, step-branch, step-upper, step-jump}
use criscv.Cpu.Refine.Transfer.{step-load, step-store}
use criscv.Spec.Encode.{extend12}
use criscv.Spec.Machine.{
  Instruction, op, op_imm, load, store, branch, jal, lui, auipc, jalr, encode, Machine, number_at,
  step,
}

-- A run in two parts.
append :
    (m : Result (Core × Bus)) (a b : ℕ) (c d : Core) (x y : Bus)
    → ((e : Core) (z : Bus) → cycles a e z ≡ ok (c, x) → cycles (a + b) e z ≡ ok (d, y))
    → (m >>= λ r. cycles a r.0 r.1) ≡ ok (c, x)
    → (m >>= λ r. cycles (a + b) r.0 r.1) ≡ ok (d, y)
append (stop why) a b c d x y again h = cc
append (ok (e, z)) a b c d x y again h = again e z h

pub cycles-add :
    (a b : ℕ) (core c d : Core) (bus x y : Bus)
    → cycles a core bus ≡ ok (c, x)
    → cycles b c x ≡ ok (d, y)
    → cycles (a + b) core bus ≡ ok (d, y)
unfolding cycles
cycles-add zero b core c d bus x y h k =
    let e : 0 + b ≡ b = omega arith in
    let same_core : core ≡ c = cc in
    let same_bus : bus ≡ x = cc in rw e (rw (same_core, same_bus) k)
cycles-add (suc a) b core c d bus x y h k =
    let e : suc a + b ≡ suc (a + b) = omega arith in
    rw e
      (append (core_cycle core bus) a b c d x y (λ z w first. cycles-add a b z c d w x y first k) h)

no_cycles : (core : Core) (bus : Bus) → cycles 0 core bus ≡ ok (core, bus)
unfolding cycles
no_cycles core bus = refl

pub step-Ready :
    (lay : Layout) (core : Core) (bus : Bus) (m : Machine) (i : Instruction)
    → Ready lay core bus m
    → Agrees lay i m
    → Follows lay core bus i (step i m)
unfolding Agrees extend12
step-Ready lay core bus m (op o rs2 rs1 rd) r a = step-op lay core bus m r o rs2 rs1 rd a
step-Ready lay core bus m (op_imm o imm rs1 rd) r a = step-op_imm lay core bus m r o imm rs1 rd a
step-Ready lay core bus m (load o imm rs1 rd) r a = step-load lay core bus m r o imm rs1 rd a
step-Ready lay core bus m (store o imm rs2 rs1) r a = step-store lay core bus m r o imm rs2 rs1 a
step-Ready lay core bus m (branch o imm rs2 rs1) r a = step-branch lay core bus m r o imm rs2 rs1 a
step-Ready lay core bus m (jal imm rd) r (h, even, hd) =
    (step-jump lay core bus m r imm 0 0 rd h even (omega arith) (omega arith) hd refl).0
step-Ready lay core bus m (lui imm rd) r (h, hd) = (step-upper lay core bus m r imm rd h hd).0
step-Ready lay core bus m (auipc imm rd) r (h, hd) = (step-upper lay core bus m r imm rd h hd).1
step-Ready lay core bus m (jalr imm rs1 rd) r (h, h1, hd, even) =
    (step-jump lay core bus m r 0 imm rs1 rd (omega arith) refl h h1 hd even).1

pub Agrees-Understood :
    (lay : Layout) (core : Core) (bus : Bus) (m : Machine) (i : Instruction)
    → Agrees lay i m
    → Understood core (encode i)
unfolding Agrees encode
Agrees-Understood lay core bus m (op o rs2 rs1 rd) (h, h2, h1, hd) =
    alu-Understood core o rs2 rs1 rd h2 h1 hd h
Agrees-Understood lay core bus m (op_imm o imm rs1 rd) (h, h1, hd) =
    alu_i-Understood core o imm rs1 rd h h1 hd
Agrees-Understood lay core bus m (load o imm rs1 rd) (h, h1, hd, lo, hi, readable, plain) =
    load-Understood core o imm rs1 rd h h1 hd
Agrees-Understood lay core bus m (store o imm rs2 rs1) (h, h2, h1, lo, hi) =
    store-Understood core bus o imm rs2 rs1 h h2 h1
Agrees-Understood lay core bus m (branch o imm rs2 rs1) (h, even, h2, h1) =
    branch-Understood core o imm rs2 rs1 h even h2 h1
Agrees-Understood lay core bus m (jal imm rd) (h, even, hd) = jal-Understood core imm rd h even hd
Agrees-Understood lay core bus m (lui imm rd) (h, hd) = (upper-Understood core imm rd h hd).0
Agrees-Understood lay core bus m (auipc imm rd) (h, hd) = (upper-Understood core imm rd h hd).1
Agrees-Understood lay core bus m (jalr imm rs1 rd) (h, h1, hd, even) =
    jalr-Understood core imm rs1 rd h h1 hd

-- One instruction takes five cycles, the fetch among them.
five_cycles :
    (lay : Layout) (core : Core) (bus : Bus) (m : Machine) (i : Instruction)
    → Represents lay core bus m
    → lay.code_start ≤ m.pc
    → m.pc + 32 ≤ lay.code_end
    → number_at m.memory m.pc 4 ≡ encode i
    → Agrees lay i m
    → (c : Core) × (b : Bus) × (cycles 5 core bus ≡ ok (c, b)) × Represents lay c b (step i m)
five_cycles lay core bus m i r lo hi word a =
    let (c, b, first, ready) = fetch-Ready lay core bus m r lo hi in
    let (c', b', run, again) = step-Ready lay c b m i ready a in
    (
      c',
      b',
      cycles-add 1 4 core (fetched c (encode i)) c' bus b b'
          (first ∙ ap (λ (w : ℕ). ok (fetched c w, b)) word) run,
      again,
    )

-- The core runs programs as the abstract machine of the manual does. If the core, its bus and its
-- segment represent the machine, and the machine comes to another state in `n` steps, each of an
-- instruction that the two take alike and that begins in the code, at least 32 bytes before its end, then
-- the core runs for five cycles for each of them without a stop, and represents the machine in that
-- state: the same registers, program counter and bytes of memory, whatever was prefetched. The code is
-- a readable part of the segment; the 32 bytes are what a fetch may read ahead, and an instruction
-- nearer to the end is not covered, even one that was prefetched. Loads, stores and jumps are
-- among the instructions; not taken alike are SRA, SRAI, ORI of a negative immediate, LB and LH of a
-- negative number, JALR to an odd address, a load of what may not be read and a store outside the data,
-- which lie apart from the code.
pub cycles-Runs :
    (lay : Layout) (n : ℕ) (core : Core) (bus : Bus) (m m' : Machine)
    → Represents lay core bus m
    → Runs lay n m m'
    → (c : Core) × (b : Bus) × (cycles (n * 5) core bus ≡ ok (c, b)) × Represents lay c b m'
cycles-Runs lay zero core bus m m' r done = (core, bus, no_cycles core bus, r)
cycles-Runs lay (suc n) core bus m m' r (more i lo hi word a rest) =
    let (c, b, first, again) = five_cycles lay core bus m i r lo hi word a in
    let (c', b', run, last) = cycles-Runs lay n c b (step i m) m' again rest in
    let count : suc n * 5 ≡ 5 + n * 5 = omega arith in
    (
      c',
      b',
      ap (λ (k : ℕ). cycles k core bus) count ∙ cycles-add 5 (n * 5) core c c' bus b b' first run,
      last,
    )
