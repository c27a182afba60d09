-- ===== src/Cpu/Load.antt =====
-- Loads, from the word to the register or the trap.
use criscv.Base.{
  ℕ, ◌%◌, ◌^◌, ◌<◌, ◌≡◌, refl, arith, bit_and, true, false, ok, add32, sar32, shl32, ◌⊎◌, inl, inr,
}
use criscv.Bus.{Bus, bus_ok, address_not_found, find, bus_read_single}
use criscv.Bus.Total.{load_result, bus_read_single_lem}
use mathlib.Core.Path.{subst}
use criscv.Bus.Loaded.{number_loaded, load_result-number_loaded}
use criscv.Spec.Machine.{load_size}
use criscv.Bus.Settled.{load_result-IsSettled}
use criscv.Mmu.Transfer.{IsValid}
use criscv.Spec.Encode.{encode_i, extend12}
use criscv.Spec.Access.{LoadOp, lb, lh, lw, lbu, lhu, load_funct3, load_width}
use criscv.Cpu.Isa.{i_type, decode_type_table}
use criscv.Cpu.State.{Core, Instr, load_access_fault}
use criscv.Cpu.Decode.{reg_r, decode}
use criscv.Cpu.Execute.{execute, execute_format, execute_i, op_of, load}
use criscv.Cpu.Formats.{common, decode-encode_i}
use criscv.Cpu.Immediate.{se_imm12-extend12}
use criscv.Cpu.Run.{
  Understood, cycles, fetched, decoded, executed, Retired, Trapped, set_register,
  cycles_load-Retired, cycles_load-Trapped,
}

-- The address that a load or store goes to.
abbrev pub effective : Core → ℕ → ℕ → ℕ
effective core rs1 imm = add32 (reg_r core rs1) (extend12 imm)

abbrev load_instr : Core → LoadOp → ℕ → ℕ → ℕ → Instr
load_instr core op imm rs1 rd =
    record (common core i_type (imm % 32) rs1 (load_funct3 op) rd 0x03) { imm12 = imm }

abbrev loading : Core → LoadOp → ℕ → ℕ → ℕ → Instr
loading core op imm rs1 rd = record (load_instr core op imm rs1 rd) {
  write_rd = true;
  read_mem = true;
  mem_offset = effective core rs1 imm;
  mem_access_width = load_width op;
}

execute-load :
    (core : Core) (w : ℕ) (op : LoadOp) (imm rs1 rd : ℕ)
    → imm < 2 ^ 12
    → (v : ℕ) × (execute (decoded core w (load_instr core op imm rs1 rd))
        ≡ ok (executed core w (loading core op imm rs1 rd) v))
unfolding execute execute_format execute_i op_of load load_funct3 load_width
execute-load core w lb imm rs1 rd h =
    (bit_and (reg_r core (imm % 32)) 0xff, rw (se_imm12-extend12 imm h))
execute-load core w lh imm rs1 rd h =
    (sar32 (shl32 (bit_and (reg_r core (imm % 32)) 0xffff) 16) 16, rw (se_imm12-extend12 imm h))
execute-load core w lw imm rs1 rd h =
    (bit_and (reg_r core (imm % 32)) 0xffffffff, rw (se_imm12-extend12 imm h))
execute-load core w lbu imm rs1 rd h =
    (bit_and (reg_r core (imm % 32)) 0xff, rw (se_imm12-extend12 imm h))
execute-load core w lhu imm rs1 rd h =
    (bit_and (reg_r core (imm % 32)) 0xffff, rw (se_imm12-extend12 imm h))

module _ (core : Core) (op : LoadOp) (imm rs1 rd : ℕ) (h : imm < 2 ^ 12) (h1 : rs1 < 32)
    (hd : rd < 32) where
  abbrev load_word : ℕ
  load_word = encode_i imm rs1 (load_funct3 op) rd 0x03

  abbrev dec : Instr
  dec = load_instr core op imm rs1 rd

  funct3_lt : load_funct3 op < 8
  unfolding load_funct3
  funct3_lt = ground arith

  taken_apart :
      decode (fetched core load_word) ≡ ok (record (fetched core load_word) { decoded = dec })
  unfolding decode_type_table
  taken_apart =
      decode-encode_i (fetched core load_word) imm rs1 (load_funct3 op) rd 0x03 h1 funct3_lt hd
        (omega arith) h refl refl

  pub cycles-load :
      (bus : Bus) (r : ℕ) (b : Bus)
      → bus_read_single bus (effective core rs1 imm) (load_width op) ≡ ok (r, b)
      → b.status ≡ bus_ok
      → (c : Core) × (cycles 4 (fetched core load_word) bus ≡ ok (c, b))
        × Retired core (set_register core.registers rd r) (add32 core.pc 4) c
  cycles-load bus r b got good =
      let (v, done) = execute-load core load_word op imm rs1 rd h in
      cycles_load-Retired core bus load_word dec (loading core op imm rs1 rd) v taken_apart done r b
        refl got good

  load_traps :
      (bus : Bus) (r : ℕ) (b : Bus)
      → bus_read_single bus (effective core rs1 imm) (load_width op) ≡ ok (r, b)
      → b.status ≡ address_not_found
      → (c : Core) × (cycles 3 (fetched core load_word) bus ≡ ok (c, b))
        × Trapped core load_access_fault c
  load_traps bus r b got bad =
      let (v, done) = execute-load core load_word op imm rs1 rd h in
      cycles_load-Trapped core bus load_word dec (loading core op imm rs1 rd) v taken_apart done r b
        refl got bad

pub load-Understood :
    (core : Core) (op : LoadOp) (imm rs1 rd : ℕ)
    → imm < 2 ^ 12
    → rs1 < 32
    → rd < 32
    → Understood core (encode_i imm rs1 (load_funct3 op) rd 0x03)
load-Understood core op imm rs1 rd h h1 hd =
    let w = encode_i imm rs1 (load_funct3 op) rd 0x03 in
    let (v, done) = execute-load core w op imm rs1 rd h in
    record {
      dec = load_instr core op imm rs1 rd;
      dec' = loading core op imm rs1 rd;
      value = v;
      taken_apart = taken_apart core op imm rs1 rd h h1 hd;
      done = done;
    }

-- The same number, in other words.
Retired-set_register :
    (core c : Core) (rd v x : ℕ)
    → v ≡ x
    → Retired core (set_register core.registers rd v) (add32 core.pc 4) c
    → Retired core (set_register core.registers rd x) (add32 core.pc 4) c
Retired-set_register core c rd v x same =
    subst (λ (y : ℕ). Retired core (set_register core.registers rd y) (add32 core.pc 4) c) same

-- A load with the mutex free and the segment well-formed, for any register numbers below 32 and any
-- immediate of 12 bits, ends in one of two ways. Where a device answers at the sum of `rs1` and the
-- sign-extended immediate, four cycles after the fetch `rd` holds the number that stands there in as many
-- bytes as the instruction reads, low byte first, without its sign extended for LB and LH either, and
-- `pc` is the next word's. What the segment refuses counts as 0, or for one byte as whatever the
-- local variable held, and the CSR device answers 0. Where no device answers, after three cycles the
-- core is about to trap with the cause `LOAD_ACCESS_FAULT`, its registers and `pc` unchanged.
pub cycles-load_result :
    (core : Core) (bus : Bus) (op : LoadOp) (imm rs1 rd : ℕ)
    → imm < 2 ^ 12
    → rs1 < 32
    → rd < 32
    → bus.locked ≡ false
    → IsValid bus.mmu
    → let a = effective core rs1 imm in
      let w = encode_i imm rs1 (load_funct3 op) rd 0x03 in
      let x = number_loaded (find bus.devices a) bus a (load_size op) in
      let b = (load_result (find bus.devices a) bus a (load_width op)).1 in
      ((c : Core) × (cycles 4 (fetched core w) bus ≡ ok (c, b))
        × (b.status ≡ bus_ok)
        × Retired core (set_register core.registers rd x) (add32 core.pc 4) c)
      ⊎ ((c : Core) × (cycles 3 (fetched core w) bus ≡ ok (c, b))
          × (b.status ≡ address_not_found)
          × Trapped core load_access_fault c)
cycles-load_result core bus op imm rs1 rd h h1 hd free v =
    let a = effective core rs1 imm in
    let out = load_result (find bus.devices a) bus a (load_width op) in
    let got = bus_read_single_lem bus free v a (omega arith) (load_width op) in
    let number = load_result-number_loaded (find bus.devices a) bus a op in
    elim (load_result-IsSettled (find bus.devices a) bus a (load_width op) v).reported [
      | inl good ↦
          let (c, run, kept) = cycles-load core op imm rs1 rd h h1 hd bus out.0 out.1 got good in
          inl (c, run, good, Retired-set_register core c rd out.0 _ number kept)
      | inr bad ↦
          let (c, run, kept) = load_traps core op imm rs1 rd h h1 hd bus out.0 out.1 got bad in
          inr (c, run, bad, kept)
    ]
