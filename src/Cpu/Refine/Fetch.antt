-- ===== src/Cpu/Refine/Fetch.antt =====
-- The fetch of a core that represents the abstract machine.
use criscv.Base.{
  ℕ, ◌+◌, ◌^◌, ◌*◌, ◌<◌, ◌≤◌, ◌≡◌, sym, ◌∙◌, ap, arith, inl, inr, Bool-cases, ok, ◌==◌, le→leb, u64,
  true, false,
}
use criscv.Mmio.{word}
use criscv.Mmu.{mmu_ok}
use criscv.Bus.{Bus}
use criscv.Bus.Access.{settled}
use criscv.Bus.Multiple.{bus_read_multiple-ram}
use criscv.Cpu.State.{Core}
use criscv.Cpu.Stages.{core_cycle, run_stage, fetch, fill, filled, next_prefetched}
use criscv.Cpu.Run.{cycles, fetched}
use criscv.Cpu.Prefetch.{
  Mirrors, word_in, advanced, taken_next, refilled, first, rest, refilled-first, refilled-Mirrors,
  fetched_bytes,
}
use criscv.Spec.Machine.{Machine, number_at}
use criscv.Cpu.Refine.{Layout, Backs, Represents}
use criscv.Cpu.Refine.Memory.{number_at-Backs, readable_range, settled-Backs}

-- The core has fetched: the words that it has left are those after the instruction.
pub record Ready (lay : Layout) (core : Core) (bus : Bus) (m : Machine) : Type 0 where
  pub backs : Backs lay bus m
  pub same_pc : core.pc ≡ m.pc
  pub has_handler : core.trap_handler ≡ true
  pub same_registers : core.registers ≡ m.registers
  pub mirrors : Mirrors (advanced core) bus.mmu
  pub ahead :
      0 < core.prefetch_cnt
      → (lay.code_start ≤ core.pc + 4) × (core.pc + 4 + 4 * core.prefetch_cnt ≤ lay.code_end)

abbrev ticked : Core → Core
ticked core = record core { cycle = u64 (core.cycle + 1) }

module _ (lay : Layout) (core : Core) (bus : Bus) (m : Machine) (r : Represents lay core bus m)
    (lo : lay.code_start ≤ m.pc) (hi : m.pc + 32 ≤ lay.code_end) where
  low : bus.mmu.base ≤ core.pc
  low =
      let pc = r.same_pc in
      let starts = r.backs.starts in let inside = r.backs.code_inside.0 in omega arith

  high : core.pc + 32 ≤ bus.mmu.base + bus.mmu.size
  high =
      let pc = r.same_pc in
      let ends = r.backs.ends in let inside = r.backs.code_inside.1 in omega arith

  inside :
      (lay.start ≤ core.pc)
      × (lay.code_start ≤ core.pc)
      × (core.pc + 32 ≤ lay.code_end)
      × (core.pc + 32 ≤ lay.end)
  inside =
      let pc = r.same_pc in
      let code = r.backs.code_inside in (omega arith, omega arith, omega arith, omega arith)

  in_space : core.pc < 2 ^ 32
  in_space = let v = r.backs.valid.in_space in omega (arith, high)

  word_in-number_at : word_in bus.mmu core.pc ≡ number_at m.memory m.pc 4
  word_in-number_at =
      let pc = r.same_pc in
      let starts = r.backs.starts in
      let inside = r.backs.code_inside in
      sym (
        ap (λ (a : ℕ). number_at m.memory a 4) (sym pc)
        ∙ number_at-Backs lay bus m r.backs core.pc 4 (omega arith) (omega arith))

  fetch_left :
      0 < core.prefetch_cnt
      → (c : Core) × (b : Bus) × (cycles 1 core bus ≡ ok (fetched c (word_in bus.mmu core.pc), b))
        × Ready lay c b m
  unfolding cycles core_cycle run_stage fetch next_prefetched
  fetch_left pos =
      let n = core.prefetch_cnt in
      let left = r.mirrors.left in
      let ahead = r.ahead pos in
      let more : (n == 0) ≡ false = ground arith in
      let word = first core bus.mmu r.mirrors pos in
      let c = ticked (taken_next core) in
      let after = rest core bus.mmu r.mirrors pos in
      (
        c,
        bus,
        rw (r.fetches, more, le→leb n 7 left) (ap (λ (w : ℕ). ok (fetched c w, bus)) word),
        record {
          backs = r.backs;
          same_pc = r.same_pc;
          has_handler = r.has_handler;
          same_registers = r.same_registers;
          mirrors = record { left = after.left; mirrored = after.mirrored };
          ahead = λ h. (omega arith, omega arith);
        },
      )

  fetch_empty :
      core.prefetch_cnt ≡ 0
      → (c : Core) × (b : Bus) × (cycles 1 core bus ≡ ok (fetched c (word_in bus.mmu core.pc), b))
        × Ready lay c b m
  unfolding cycles core_cycle run_stage fetch fill filled
  fetch_empty none_left =
      let (dev, hit, is_ram, w) = r.backs.all_ram core.pc inside.0 (omega (arith, inside.3)) in
      let here = refilled-first core bus.mmu low in
      let bytes = fetched_bytes core bus.mmu low in
      let c = ticked (refilled core bytes) in
      let b = settled bus lay.device dev (record bus.mmu { state = mmu_ok }) in
      let after = refilled-Mirrors core (record bus.mmu { state = mmu_ok }) low in
      let allowed =
        readable_range lay bus m r.backs core.pc 32 inside.0 inside.3
          λ j jl jh. r.backs.code_readable j (omega (arith, inside.1)) (omega (arith, inside.2)) in
      (
        c,
        b,
        rw
            (
              r.fetches,
              none_left,
              bus_read_multiple-ram bus r.backs.is_free r.backs.valid core.pc in_space lay.device
                  dev hit is_ram 8 word (omega arith) low high allowed,
            )
            (ap (λ (w : ℕ). ok (fetched c w, b)) here),
        record {
          backs = settled-Backs lay bus m r.backs core.pc dev hit;
          same_pc = r.same_pc;
          has_handler = r.has_handler;
          same_registers = r.same_registers;
          mirrors = record { left = after.left; mirrored = after.mirrored };
          ahead = λ h. (omega (arith, inside.1), omega (arith, inside.2));
        },
      )

  -- One cycle fetches the word of the memory at the program counter.
  pub fetch-Ready :
      (c : Core) × (b : Bus) × (cycles 1 core bus ≡ ok (fetched c (number_at m.memory m.pc 4), b))
      × Ready lay c b m
  fetch-Ready = rw (← word_in-number_at) (elim (Bool-cases (core.prefetch_cnt == 0)) [
    | inl e ↦ fetch_empty (ground arith)
    | inr e ↦ fetch_left (ground arith)
  ])
