-- ===== src/Cpu/Run.antt =====
-- Several cycles in a row, and an instruction that goes through its four stages after the fetch.
use criscv.Base.{
  ℕ, zero, suc, ◌+◌, ◌≡◌, refl, ◌∙◌, arith, true, false, Bool-cases, inl, inr, ◌==◌, if◌then◌else◌,
  Bool, ◌⊎◌, Result, ok, ◌>>=◌, u64, add32, update,
}
use criscv.Bus.{Bus, bus_ok, address_not_found, bus_read_single, bus_write_single}
use criscv.Cpu.State.{
  Core, Instr, in_decode, in_execute, in_fetch, in_writeback, in_trap, enter, cause_trap,
  load_access_fault, store_access_fault,
}
use criscv.Csr.{mcause, csr_read_write32}
use criscv.Cpu.Decode.{decode}
use criscv.Cpu.Execute.{execute}
use criscv.Cpu.Stages.{core_cycle, run_stage, memory_access, report, writeback, staged}

unfoldable pub cycles : ℕ → Core → Bus → Result (Core × Bus)
cycles zero core bus = ok (core, bus)
cycles (suc n) core bus = core_cycle core bus >>= λ r. cycles n r.0 r.1

-- A core, in any condition, that has just fetched the word `w`.
abbrev pub fetched : Core → ℕ → Core
fetched core w = record core { state = in_decode; instruction = w }

-- `c` is `core` four cycles later, before the next fetch, with the given registers and `pc`, and
-- nothing else changed that outlives an instruction; the prefetched words are dropped or, at the next
-- word, kept.
pub record Retired (core : Core) (registers : ℕ → ℕ) (pc : ℕ) (c : Core) : Type 0 where
  pub next_state : c.state ≡ in_fetch
  pub next_registers : c.registers ≡ registers
  pub next_pc : c.pc ≡ pc
  pub next_cycle : c.cycle ≡ u64 (core.cycle + 4)
  pub same_csr : c.csr ≡ core.csr
  pub same_trap_state : c.trap_state ≡ core.trap_state
  pub same_prefetch : c.prefetch ≡ core.prefetch
  pub same_handler : c.trap_handler ≡ core.trap_handler
  pub flushed_or_next :
      (c.prefetch_cnt ≡ 0) ⊎ ((c.prefetch_cnt ≡ core.prefetch_cnt) × (c.pc ≡ add32 core.pc 4))

pub Retired-cong :
    {core c : Core} {r r' : ℕ → ℕ} {p p' : ℕ}
    → r ≡ r'
    → p ≡ p'
    → Retired core r p c
    → Retired core r' p' c
Retired-cong er ep s = record {
  next_state = s.next_state;
  next_registers = s.next_registers ∙ er;
  next_pc = s.next_pc ∙ ep;
  next_cycle = s.next_cycle;
  same_csr = s.same_csr;
  same_trap_state = s.same_trap_state;
  same_prefetch = s.same_prefetch;
  same_handler = s.same_handler;
  flushed_or_next = s.flushed_or_next;
}

-- `c` is `core` about to enter a trap for `cause`; the instruction had no other effect.
pub record Trapped (core : Core) (cause : ℕ) (c : Core) : Type 0 where
  pub trap_next : c.state ≡ in_trap
  pub trap_entered : c.trap_state ≡ enter
  pub trap_cause : c.csr ≡ update core.csr mcause cause
  pub trap_registers : c.registers ≡ core.registers
  pub trap_pc : c.pc ≡ core.pc

-- The registers after `rd` was set; x0 is always 0.
abbrev pub set_register : (ℕ → ℕ) → ℕ → ℕ → ℕ → ℕ
set_register registers rd v = update registers rd (if rd == 0 then 0 else v)

-- The core before `execute`, with the instruction `dec`, and after it.
abbrev pub decoded : Core → ℕ → Instr → Core
decoded core w dec = record core {
  instruction = w;
  decoded = dec;
  state = in_execute;
  cycle = u64 (core.cycle + 1);
}

abbrev pub executed : Core → ℕ → Instr → ℕ → Core
executed core w dec v = record core {
  instruction = w;
  decoded = dec;
  alu_out = v;
  state = in_execute;
  cycle = u64 (core.cycle + 1);
}

-- The core after `memory_access`, with the result `v`, and after `writeback`.
abbrev retiring : Core → ℕ → Instr → ℕ → Core
retiring core w dec v = record (executed core w dec v) {
  state = in_writeback;
  cycle = u64 (u64 (u64 (core.cycle + 1) + 1) + 1);
}

abbrev retired : Core → ℕ → Instr → ℕ → Core
retired core w dec v = staged in_fetch (writeback (retiring core w dec v))

-- The core after `cause_trap` in the stage MEMORY.
abbrev trapped : Core → ℕ → Core
trapped core cause = record core {
  state = in_trap;
  trap_state = enter;
  csr = update core.csr mcause cause;
  cycle = u64 (u64 (core.cycle + 1) + 1);
}

trapped-Trapped :
    (core : Core) (w : ℕ) (dec : Instr) (v cause : ℕ)
    → Trapped core cause (trapped (executed core w dec v) cause)
trapped-Trapped core w dec v cause = record {
  trap_next = refl;
  trap_entered = refl;
  trap_cause = refl;
  trap_registers = refl;
  trap_pc = refl;
}

-- `writeback` in one piece.
pub writeback_lem :
    (core : Core)
    → writeback core ≡ record core {
      registers =
          if core.decoded.write_rd
          then set_register core.registers core.decoded.rd core.alu_out
          else core.registers;
      pc = if core.decoded.is_jump then core.decoded.jump_target else add32 core.pc 4;
      prefetch_cnt = if core.decoded.is_jump then 0 else core.prefetch_cnt;
    }
unfolding writeback
writeback_lem core = elim (Bool-cases core.decoded.is_jump) [
  | inl j ↦ elim (Bool-cases core.decoded.write_rd) [ inl r ↦ rw (j, r) | inr r ↦ rw (j, r) ]
  | inr j ↦ elim (Bool-cases core.decoded.write_rd) [ inl r ↦ rw (j, r) | inr r ↦ rw (j, r) ]
]

flushed :
    (jumps : Bool) (core : Core) (target : ℕ)
    → ((if jumps then 0 else core.prefetch_cnt) ≡ 0)
      ⊎ (((if jumps then 0 else core.prefetch_cnt) ≡ core.prefetch_cnt)
          × ((if jumps then target else add32 core.pc 4) ≡ add32 core.pc 4))
flushed true core target = inl refl
flushed false core target = inr (refl, refl)

retired-Retired :
    (core : Core) (w : ℕ) (dec : Instr) (v : ℕ)
    → Retired core
        (if dec.write_rd then set_register core.registers dec.rd v else core.registers)
        (if dec.is_jump then dec.jump_target else add32 core.pc 4)
        (retired core w dec v)
retired-Retired core w dec v = rw (writeback_lem (retiring core w dec v)) (record {
  next_state = refl;
  next_registers = refl;
  next_pc = refl;
  next_cycle = omega arith;
  same_csr = refl;
  same_trap_state = refl;
  same_prefetch = refl;
  same_handler = refl;
  flushed_or_next = flushed dec.is_jump core dec.jump_target;
})

-- The core, wherever it stands, decodes and executes the word `w` without a trap.
pub record Understood (core : Core) (w : ℕ) : Type 0 where
  pub dec : Instr
  pub dec' : Instr
  pub value : ℕ
  pub taken_apart : decode (fetched core w) ≡ ok (record (fetched core w) { decoded = dec })
  pub done : execute (decoded core w dec) ≡ ok (executed core w dec' value)

-- An instruction word `w` that `decode` takes apart as `dec`.
module _ (core : Core) (bus : Bus) (w : ℕ) (dec dec' : Instr) (v : ℕ)
    (taken_apart : decode (fetched core w) ≡ ok (record (fetched core w) { decoded = dec }))
    (done : execute (decoded core w dec) ≡ ok (executed core w dec' v)) where
  -- It uses no memory.
  pub cycles-Retired :
      dec'.read_mem ≡ false
      → dec'.write_mem ≡ false
      → (c : Core) × (cycles 4 (fetched core w) bus ≡ ok (c, bus))
        × Retired core
            (if dec'.write_rd then set_register core.registers dec'.rd v else core.registers)
            (if dec'.is_jump then dec'.jump_target else add32 core.pc 4)
            c
  unfolding cycles core_cycle run_stage memory_access
  cycles-Retired r m =
      (retired core w dec' v, rw (taken_apart, done, r, m), retired-Retired core w dec' v)

  -- A load, for which the bus gives `r`.
  pub cycles_load-Retired :
      (r : ℕ) (b : Bus)
      → dec'.read_mem ≡ true
      → bus_read_single bus dec'.mem_offset dec'.mem_access_width ≡ ok (r, b)
      → b.status ≡ bus_ok
      → (c : Core) × (cycles 4 (fetched core w) bus ≡ ok (c, b))
        × Retired core
            (if dec'.write_rd then set_register core.registers dec'.rd r else core.registers)
            (if dec'.is_jump then dec'.jump_target else add32 core.pc 4)
            c
  unfolding cycles core_cycle run_stage memory_access report
  cycles_load-Retired r b m got good =
      (retired core w dec' r, rw (taken_apart, done, m, got, good), retired-Retired core w dec' r)

  pub cycles_store-Retired :
      (b : Bus)
      → dec'.read_mem ≡ false
      → dec'.write_mem ≡ true
      → bus_write_single bus dec'.mem_offset v dec'.mem_access_width ≡ ok b
      → b.status ≡ bus_ok
      → (c : Core) × (cycles 4 (fetched core w) bus ≡ ok (c, b))
        × Retired core
            (if dec'.write_rd then set_register core.registers dec'.rd v else core.registers)
            (if dec'.is_jump then dec'.jump_target else add32 core.pc 4)
            c
  unfolding cycles core_cycle run_stage memory_access report
  cycles_store-Retired b r m put good = (
    retired core w dec' v,
    rw (taken_apart, done, r, m, put, good),
    retired-Retired core w dec' v,
  )

  -- Where the bus finds no device, the core is about to trap.
  pub cycles_load-Trapped :
      (r : ℕ) (b : Bus)
      → dec'.read_mem ≡ true
      → bus_read_single bus dec'.mem_offset dec'.mem_access_width ≡ ok (r, b)
      → b.status ≡ address_not_found
      → (c : Core) × (cycles 3 (fetched core w) bus ≡ ok (c, b)) × Trapped core load_access_fault c
  unfolding cycles core_cycle run_stage memory_access report cause_trap csr_read_write32
  cycles_load-Trapped r b m got bad = (
    trapped (executed core w dec' r) load_access_fault,
    rw (taken_apart, done, m, got, bad),
    trapped-Trapped core w dec' r load_access_fault,
  )

  pub cycles_store-Trapped :
      (b : Bus)
      → dec'.read_mem ≡ false
      → dec'.write_mem ≡ true
      → bus_write_single bus dec'.mem_offset v dec'.mem_access_width ≡ ok b
      → b.status ≡ address_not_found
      → (c : Core) × (cycles 3 (fetched core w) bus ≡ ok (c, b)) × Trapped core store_access_fault c
  unfolding cycles core_cycle run_stage memory_access report cause_trap csr_read_write32
  cycles_store-Trapped b r m put bad = (
    trapped (executed core w dec' v) store_access_fault,
    rw (taken_apart, done, r, m, put, bad),
    trapped-Trapped core w dec' v store_access_fault,
  )
