-- ===== src/Cpu/Refine/Transfer.antt =====
-- The loads and stores of the core against those of the abstract machine.
use criscv.Base.{
  ℕ, zero, suc, ◌+◌, ◌-◌, ◌%◌, ◌^◌, ◌<◌, ◌≤◌, ◌≡◌, refl, sym, ◌∙◌, ap, arith, ok, true, false,
  slice, u8, get_or, length, le→ltb, ◌||◌,
}
use criscv.Mmio.{AccessWidth, byte, halfword, word}
use criscv.Mmu.{Mmu, mmu_ok, mperm_read, mperm_write, allows}
use criscv.Mmu.Loops.{all_allow, all_allow_intro}
use criscv.Mmu.Transfer.{read_result, after_write}
use criscv.Mmu.ReadBack.{write_result-inside}
use criscv.Memory.{le_value, le_bytes, mult, read_value, write_value}
use criscv.Memory.Words.{length-write_value}
use criscv.Base.Bits.{and_mask}
use criscv.Bus.{Bus, bus_ok, bus_read_single, bus_write_single}
use criscv.Bus.Access.{settled, bus_read_single-ram, bus_write_single-ram}
use criscv.Cpu.State.{Core}
use criscv.Cpu.Decode.{reg_r}
use criscv.Cpu.Load.{cycles-load, effective}
use criscv.Cpu.Store.{cycles_store-done, stored}
use criscv.Cpu.Refine.{Layout, Backs, Agrees}
use criscv.Cpu.Refine.Fetch.{Ready}
use criscv.Cpu.Refine.Memory.{number_at-Backs, readable_range, settled-Backs, stored_size-Backs}
use criscv.Cpu.Refine.Step.{Follows}
use criscv.Cpu.Refine.Retire.{Backs-moved, Retired-Represents}
use criscv.Spec.Access.{LoadOp, lb, lh, lw, lbu, lhu, StoreOp, sb, sh, sw, load_width, store_width}
use criscv.Spec.Machine.{
  load, store, encode, load_size, store_size, byte_of, put_bytes, covered, extended, step, Machine,
  number_at, register, next, set, address,
}

load_size-width : (o : LoadOp) → mult (load_width o) ≡ load_size o
unfolding load_size load_width
load_size-width lb = refl
load_size-width lh = refl
load_size-width lw = refl
load_size-width lbu = refl
load_size-width lhu = refl

store_size-width : (o : StoreOp) → mult (store_width o) ≡ store_size o
unfolding store_size store_width
store_size-width sb = refl
store_size-width sh = refl
store_size-width sw = refl

read_value-slice :
    (aw : AccessWidth) (old i : ℕ) (f : ℕ → ℕ)
    → read_value aw old (slice f i (mult aw)) ≡ le_value (slice f i (mult aw))
unfolding read_value le_value
read_value-slice byte old i f = omega arith
read_value-slice halfword old i f = refl
read_value-slice word old i f = refl

store_size-pos : (o : StoreOp) → 0 < store_size o
unfolding store_size
store_size-pos o = ground arith

-- What is stored of `v` are its low bytes.
write_value-byte_of :
    (o : StoreOp) (v j : ℕ)
    → j < store_size o
    → get_or (write_value (store_width o) (stored o v)) j 0 ≡ byte_of v j
unfolding write_value le_bytes byte_of store_size store_width
write_value-byte_of sb v zero h = ground (arith, and_mask 8 (v % 2 ^ 8))
write_value-byte_of sb v (suc j) h = absurd (omega arith)
write_value-byte_of sh v zero h = ground (arith, and_mask 16 (v % 2 ^ 16))
write_value-byte_of sh v (suc zero) h = ground (arith, and_mask 16 (v % 2 ^ 16))
write_value-byte_of sh v (suc (suc j)) h = absurd (omega arith)
write_value-byte_of sw v zero h = omega arith
write_value-byte_of sw v (suc zero) h = omega arith
write_value-byte_of sw v (suc (suc zero)) h = omega arith
write_value-byte_of sw v (suc (suc (suc zero))) h = omega arith
write_value-byte_of sw v (suc (suc (suc (suc j)))) h = absurd (omega arith)

read_result-inside :
    (mmu : Mmu) (a n : ℕ)
    → mmu.base ≤ a
    → a + n ≤ mmu.base + mmu.size
    → all_allow n (a - mmu.base) mperm_read mmu ≡ true
    → read_result mmu a n ≡ (n, slice mmu.bytes (a - mmu.base) n, record mmu { state = mmu_ok })
unfolding read_result
read_result-inside mmu a n lo hi allowed =
    rw (le→ltb a mmu.base lo, le→ltb (mmu.base + mmu.size) (a + n) hi, allowed)

pub number_at-cong :
    (f g : ℕ → ℕ) (n a : ℕ)
    → ((j : ℕ) → a ≤ j → j < a + n → f j ≡ g j)
    → number_at f a n ≡ number_at g a n
unfolding number_at
number_at-cong f g zero a h = refl
number_at-cong f g (suc n) a h = rw (
  h a (omega arith) (omega arith),
  number_at-cong f g n (a + 1) (λ j jl jh. h j (omega arith) (omega arith)),
)

abbrev pub stored_at : Machine → ℕ → StoreOp → ℕ → Machine
stored_at m a o v = record m {
  memory = put_bytes a (store_size o) v m.memory;
  readable = λ j. covered a (store_size o) j || m.readable j;
}

pub put_bytes-elsewhere :
    (a n v : ℕ) (memory : ℕ → ℕ) (j : ℕ)
    → covered a n j ≡ false
    → put_bytes a n v memory j ≡ memory j
unfolding put_bytes
put_bytes-elsewhere a n v memory j e = rw e

module _ (lay : Layout) (bus : Bus) (m : Machine) (k : Backs lay bus m) (a : ℕ) where
  loaded :
      (aw : AccessWidth)
      → lay.start ≤ a
      → a + mult aw ≤ lay.end
      → ((j : ℕ) → a ≤ j → j < a + mult aw → m.readable j ≡ true)
      → (b : Bus) × (bus_read_single bus a aw ≡ ok (number_at m.memory a (mult aw), b))
        × (b.status ≡ bus_ok)
        × Backs lay b m
  loaded aw lo hi readable =
      let pos : 0 < mult aw = ground arith in
      let (dev, hit, is_ram, w) = k.all_ram a lo (omega arith) in
      let starts = k.starts in
      let ends = k.ends in
      let space = k.valid.in_space in
      let allowed =
        readable_range lay bus m k a (mult aw) lo hi
          λ j jl jh. k.may_read j (omega arith) (omega arith) (readable j jl jh) in
      let inside = read_result-inside bus.mmu a (mult aw) (omega arith) (omega arith) allowed in
      let value = read_value-slice aw (u8 bus.old_byte) (a - bus.mmu.base) bus.mmu.bytes in
      (
        settled bus lay.device dev (record bus.mmu { state = mmu_ok }),
        rw (
          bus_read_single-ram bus k.is_free k.valid a (omega arith) lay.device dev hit is_ram aw,
          inside,
          value,
          number_at-Backs lay bus m k a (mult aw) lo hi,
        ),
        refl,
        settled-Backs lay bus m k a dev hit,
      )

  pub put_at :
      (o : StoreOp) (v : ℕ)
      → lay.data_start ≤ a
      → a + store_size o ≤ lay.data_end
      → (b : Bus) × (bus_write_single bus a (stored o v) (store_width o) ≡ ok b)
        × (b.status ≡ bus_ok)
        × Backs lay b (record m {
          memory = put_bytes a (store_size o) v m.memory;
          readable = λ j. covered a (store_size o) j || m.readable j;
        })
  put_at o v lo hi =
      let src = write_value (store_width o) (stored o v) in
      let n : length src ≡ store_size o =
        length-write_value (store_width o) (stored o v) ∙ store_size-width o in
      let inside = k.data_inside in
      let starts = k.starts in
      let ends = k.ends in
      let space = k.valid.in_space in
      let pos : 0 < length src = omega (arith, store_size-pos o) in
      let (dev, hit, is_ram, w) = k.all_ram a (omega arith) (omega arith) in
      let allowed : all_allow (length src) (a - bus.mmu.base) mperm_write bus.mmu ≡ true =
        all_allow_intro (length src) (a - bus.mmu.base) mperm_write bus.mmu λ j jl jh.
          let back : j + bus.mmu.base - bus.mmu.base ≡ j = omega arith in
          ap (λ (x : ℕ). allows (bus.mmu.perm x) mperm_write) (sym back)
          ∙ k.data_writable (j + bus.mmu.base) (omega arith) (omega arith) in
      let written = write_result-inside bus.mmu src a (omega arith) (omega arith) allowed in
      (
        settled bus lay.device dev (after_write bus.mmu src a),
        rw (
          bus_write_single-ram bus k.is_free k.valid a (omega arith) lay.device dev hit is_ram
              (store_width o) (stored o v) w,
          written,
        ),
        refl,
        stored_size-Backs lay bus m k a v src lo (omega arith)
            (λ j jh. write_value-byte_of o v j (omega arith)) (store_size o) dev n hit,
      )

  -- A store to the data leaves the words of the code as they were.
  code_kept :
      (n v : ℕ)
      → lay.data_start ≤ a
      → a + n ≤ lay.data_end
      → (x : ℕ) → lay.code_start ≤ x
      → x + 4 ≤ lay.code_end
      → number_at (put_bytes a n v m.memory) x 4 ≡ number_at m.memory x 4
  code_kept n v lo hi x xl xh =
      let apart = k.apart in
      number_at-cong (put_bytes a n v m.memory) m.memory 4 x
        λ j jl jh. put_bytes-elsewhere a n v m.memory j (ground arith)

module _ (lay : Layout) (core : Core) (bus : Bus) (m : Machine) (r : Ready lay core bus m) where
  finish-load :
      (o : LoadOp) (imm rs1 rd : ℕ) (b : Bus)
      → imm < 2 ^ 12
      → rs1 < 32
      → rd < 32
      → let x = number_at m.memory (address m imm rs1) (load_size o) in
        extended o x ≡ x
        → bus_read_single bus (address m imm rs1) (load_width o) ≡ ok (x, b)
        → b.status ≡ bus_ok
        → Backs lay b m
        → Follows lay core bus (load o imm rs1 rd) (step (load o imm rs1 rd) m)
  unfolding encode step set
  finish-load o imm rs1 rd b h h1 hd plain got good k =
      let a = address m imm rs1 in
      let x = number_at m.memory a (load_size o) in
      let at : effective core rs1 imm ≡ a = rw r.same_registers in
      let m' = set m rd (extended o x) (next m) in
      let (c, run, kept) = cycles-load core o imm rs1 rd h h1 hd bus x b (rw at got) good in
      (
        c,
        b,
        run,
        Retired-Represents lay core c bus b m m' _ _ r kept
            (Backs-moved lay b m m'.registers m'.pc k) (λ y yl yh. refl)
            (rw (r.same_registers, plain)) (rw r.same_pc),
      )

  pub step-load :
      (o : LoadOp) (imm rs1 rd : ℕ)
      → Agrees lay (load o imm rs1 rd) m
      → Follows lay core bus (load o imm rs1 rd) (step (load o imm rs1 rd) m)
  unfolding Agrees
  step-load o imm rs1 rd (h, h1, hd, lo, hi, readable, plain) =
      let size = load_size-width o in
      let a = address m imm rs1 in
      let (b, got, good, k) =
        loaded lay bus m r.backs a (load_width o) lo (rw size hi) (rw size readable) in
      finish-load o imm rs1 rd b h h1 hd plain (rw size at got) good k

  finish-store :
      (o : StoreOp) (imm rs2 rs1 : ℕ) (b : Bus)
      → imm < 2 ^ 12
      → rs2 < 32
      → rs1 < 32
      → let a = address m imm rs1 in
        lay.data_start ≤ a
        → a + store_size o ≤ lay.data_end
        → bus_write_single bus a (stored o (register m rs2)) (store_width o) ≡ ok b
        → b.status ≡ bus_ok
        → Backs lay b (stored_at m a o (register m rs2))
        → Follows lay core bus (store o imm rs2 rs1) (step (store o imm rs2 rs1) m)
  unfolding encode step
  finish-store o imm rs2 rs1 b h h2 h1 lo hi put good k =
      let a = address m imm rs1 in
      let at : effective core rs1 imm ≡ a = rw r.same_registers in
      let value : reg_r core rs2 ≡ register m rs2 = rw r.same_registers in
      let m' = step (store o imm rs2 rs1) m in
      let (c, run, kept) =
        cycles_store-done core bus o imm rs2 rs1 h h2 h1 b (rw (at, value) put) good in
      (
        c,
        b,
        run,
        Retired-Represents lay core c bus b m m' _ _ r kept
            (Backs-moved lay b (stored_at m a o (register m rs2)) m.registers (next m) k)
            (code_kept lay bus m r.backs a (store_size o) (register m rs2) lo hi) r.same_registers
            (rw r.same_pc),
      )

  pub step-store :
      (o : StoreOp) (imm rs2 rs1 : ℕ)
      → Agrees lay (store o imm rs2 rs1) m
      → Follows lay core bus (store o imm rs2 rs1) (step (store o imm rs2 rs1) m)
  unfolding Agrees
  step-store o imm rs2 rs1 (h, h2, h1, lo, hi) =
      let a = address m imm rs1 in
      let (b, put, good, k) = put_at lay bus m r.backs a o (register m rs2) lo hi in
      finish-store o imm rs2 rs1 b h h2 h1 lo hi put good k
