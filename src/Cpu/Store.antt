-- ===== src/Cpu/Store.antt =====
-- Stores, from the word to the memory or the trap, and a load after a store.
use criscv.Base.{
  ℕ, ◌+◌, ◌%◌, ◌^◌, ◌<◌, ◌≤◌, ◌-◌, ◌≡◌, refl, arith, true, false, ok, some, add32, ◌⊎◌, inl, inr,
}
use criscv.Base.Bits.{and_mask}
use criscv.Mmio.{word, MmioDevice, ram}
use criscv.Mmu.{mperm_write}
use criscv.Mmu.Loops.{all_allow}
use criscv.Mmu.Transfer.{IsValid}
use criscv.Mmu.ReadBack.{Opens}
use criscv.Memory.Words.{width_mod}
use criscv.Bus.{Bus, bus_ok, address_not_found, find, may_write, bus_write_single}
use criscv.Bus.ReadBack.{bus_read_single-bus_write_single}
use criscv.Spec.Encode.{encode_i, encode_s}
use criscv.Spec.Access.{StoreOp, lw, sb, sh, sw, store_funct3, store_width, load_funct3, load_width}
use criscv.Cpu.Isa.{s_type, decode_type_table}
use criscv.Cpu.State.{Core, Instr, store_access_fault}
use criscv.Cpu.Decode.{reg_r, decode}
use criscv.Cpu.Execute.{execute, execute_format, execute_s, op3_of, store}
use criscv.Cpu.Formats.{common, decode-encode_s}
use criscv.Cpu.Immediate.{se_imm12-extend12}
use criscv.Cpu.Run.{
  cycles, fetched, decoded, executed, Retired, Trapped, Retired-cong, set_register, Understood,
  cycles_store-Retired, cycles_store-Trapped,
}
use criscv.Cpu.Load.{effective, cycles-load}

abbrev store_instr : Core → StoreOp → ℕ → ℕ → ℕ → Instr
store_instr core op imm rs2 rs1 =
    record (common core s_type rs2 rs1 (store_funct3 op) (imm % 32) 0x23) { imm12 = imm }

abbrev storing : Core → StoreOp → ℕ → ℕ → ℕ → Instr
storing core op imm rs2 rs1 = record (store_instr core op imm rs2 rs1) {
  write_mem = true;
  mem_offset = effective core rs1 imm;
  mem_access_width = store_width op;
}

-- What a store of `v` hands to the bus.
abbrev pub stored : StoreOp → ℕ → ℕ
stored op v = v % width_mod (store_width op)

execute-store :
    (core : Core) (w : ℕ) (op : StoreOp) (imm rs2 rs1 : ℕ)
    → imm < 2 ^ 12
    → execute (decoded core w (store_instr core op imm rs2 rs1))
      ≡ ok (executed core w (storing core op imm rs2 rs1) (stored op (reg_r core rs2)))
unfolding execute execute_format execute_s op3_of store store_funct3 store_width
execute-store core w sb imm rs2 rs1 h = rw (se_imm12-extend12 imm h, and_mask 8 (reg_r core rs2))
execute-store core w sh imm rs2 rs1 h = rw (se_imm12-extend12 imm h, and_mask 16 (reg_r core rs2))
execute-store core w sw imm rs2 rs1 h = rw (se_imm12-extend12 imm h, and_mask 32 (reg_r core rs2))

module _ (core : Core) (bus : Bus) (op : StoreOp) (imm rs2 rs1 : ℕ) (h : imm < 2 ^ 12)
    (h2 : rs2 < 32) (h1 : rs1 < 32) where
  abbrev store_word : ℕ
  store_word = encode_s imm rs2 rs1 (store_funct3 op) 0x23

  abbrev dec : Instr
  dec = store_instr core op imm rs2 rs1

  funct3_lt : store_funct3 op < 8
  unfolding store_funct3
  funct3_lt = ground arith

  taken_apart :
      decode (fetched core store_word) ≡ ok (record (fetched core store_word) { decoded = dec })
  unfolding decode_type_table
  taken_apart =
      decode-encode_s (fetched core store_word) imm rs2 rs1 (store_funct3 op) 0x23 h2 h1 funct3_lt
        (omega arith) h refl refl

  -- Where the bus reports no error.
  pub cycles_store-done :
      (b : Bus)
      → bus_write_single bus (effective core rs1 imm) (stored op (reg_r core rs2)) (store_width op)
        ≡ ok b
      → b.status ≡ bus_ok
      → (c : Core) × (cycles 4 (fetched core store_word) bus ≡ ok (c, b))
        × Retired core core.registers (add32 core.pc 4) c
  cycles_store-done b put good =
      cycles_store-Retired core bus store_word dec (storing core op imm rs2 rs1)
        (stored op (reg_r core rs2)) taken_apart (execute-store core store_word op imm rs2 rs1 h) b
        refl refl put good

  -- A store, for any register numbers below 32 and any immediate of 12 bits, changes no register. It
  -- hands the low bits of `rs2`, as many as its width has, to the bus at the sum of `rs1` and the
  -- sign-extended immediate. Where the bus then reports no error, `pc` is the next word's four cycles
  -- after the fetch; where it found no device, after three cycles the core is about to trap with the
  -- cause `STORE_ACCESS_FAULT`.
  pub cycles-store :
      (b : Bus)
      → bus_write_single bus (effective core rs1 imm) (stored op (reg_r core rs2)) (store_width op)
        ≡ ok b
      → (b.status ≡ bus_ok) ⊎ (b.status ≡ address_not_found)
      → ((c : Core) × (cycles 4 (fetched core store_word) bus ≡ ok (c, b))
          × (b.status ≡ bus_ok)
          × Retired core core.registers (add32 core.pc 4) c)
        ⊎ ((c : Core) × (cycles 3 (fetched core store_word) bus ≡ ok (c, b))
            × (b.status ≡ address_not_found)
            × Trapped core store_access_fault c)
  cycles-store b put (inl good) =
      let (c, run, kept) = cycles_store-done b put good in inl (c, run, good, kept)
  cycles-store b put (inr bad) =
      let (c, run, kept) =
        cycles_store-Trapped core bus store_word dec (storing core op imm rs2 rs1)
          (stored op (reg_r core rs2)) taken_apart (execute-store core store_word op imm rs2 rs1 h)
          b refl refl put bad in
      inr (c, run, bad, kept)

pub store-Understood :
    (core : Core) (bus : Bus) (op : StoreOp) (imm rs2 rs1 : ℕ)
    → imm < 2 ^ 12
    → rs2 < 32
    → rs1 < 32
    → Understood core (encode_s imm rs2 rs1 (store_funct3 op) 0x23)
store-Understood core bus op imm rs2 rs1 h h2 h1 = record {
  dec = store_instr core op imm rs2 rs1;
  dec' = storing core op imm rs2 rs1;
  value = stored op (reg_r core rs2);
  taken_apart = taken_apart core bus op imm rs2 rs1 h h2 h1;
  done = execute-store core (encode_s imm rs2 rs1 (store_funct3 op) 0x23) op imm rs2 rs1 h;
}

-- After SW has stored `rs2`, LW from the same address puts the value of `rs2` into `rd`, eight cycles
-- besides the fetches later, and both instructions go on to the next word: for any register numbers
-- below 32 and any immediate of 12 bits, if the mutex is free, the segment well-formed, the four
-- bytes lie in it and belong to a RAM device that may be written, and each of them may be written and
-- was readable or read-after-write.
pub cycles-load_store :
    (core : Core) (bus : Bus) (imm rs2 rs1 rd i : ℕ) (dev : MmioDevice)
    → imm < 2 ^ 12
    → rs2 < 32
    → rs1 < 32
    → rd < 32
    → bus.locked ≡ false
    → IsValid bus.mmu
    → find bus.devices (effective core rs1 imm) ≡ some (i, dev)
    → dev.driver ≡ ram
    → may_write dev ≡ true
    → bus.mmu.base ≤ effective core rs1 imm
    → effective core rs1 imm + 4 ≤ bus.mmu.base + bus.mmu.size
    → all_allow 4 (effective core rs1 imm - bus.mmu.base) mperm_write bus.mmu ≡ true
    → Opens bus.mmu (effective core rs1 imm - bus.mmu.base) 4
    → (c : Core) × (b : Bus) × (c' : Core) × (b' : Bus) × (cycles 4
          (fetched core (encode_s imm rs2 rs1 (store_funct3 sw) 0x23))
          bus
        ≡ ok (c, b))
      × (cycles 4 (fetched c (encode_i imm rs1 (load_funct3 lw) rd 0x03)) b ≡ ok (c', b'))
      × Retired c
          (set_register core.registers rd (reg_r core rs2 % 2 ^ 32))
          (add32 (add32 core.pc 4) 4)
          c'
unfolding store_width load_width
cycles-load_store core bus imm rs2 rs1 rd i dev h h2 h1 hd free v hit is_ram w lo hi allowed opens =
    let value = stored sw (reg_r core rs2) in
    let (b, b', put, got, good, good') =
      bus_read_single-bus_write_single bus (effective core rs1 imm) value i dev word free v
        (omega arith) hit is_ram w lo hi allowed opens in
    let hs = execute-store core (store_word core bus sw imm rs2 rs1 h h2 h1) sw imm rs2 rs1 h in
    let (c, run, kept) =
      cycles_store-Retired core bus (store_word core bus sw imm rs2 rs1 h h2 h1)
        (store_instr core sw imm rs2 rs1) (storing core sw imm rs2 rs1) value
        (taken_apart core bus sw imm rs2 rs1 h h2 h1) hs b refl refl put good in
    let same : effective c rs1 imm ≡ effective core rs1 imm = rw kept.next_registers in
    let cut : value % 2 ^ 32 ≡ reg_r core rs2 % 2 ^ 32 = omega arith in
    let (c', run', kept') =
      cycles-load c lw imm rs1 rd h h1 hd b (value % 2 ^ 32) b' (rw same got) good' in
    let registers : set_register c.registers rd (value % 2 ^ 32)
        ≡ set_register core.registers rd (reg_r core rs2 % 2 ^ 32) =
      rw (kept.next_registers, cut) in
    let pc : add32 c.pc 4 ≡ add32 (add32 core.pc 4) 4 = rw kept.next_pc in
    (c, b, c', b', run, run', Retired-cong registers pc kept')
