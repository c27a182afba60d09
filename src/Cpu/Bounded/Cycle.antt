-- ===== src/Cpu/Bounded/Cycle.antt =====
-- The other stages, and the whole cycle.
use criscv.Base.{◌⊎◌, inl, inr, ◌^◌, ◌<◌, ℕ, ◌≡◌, arith, ok}
use criscv.Bus.{Bus}
use criscv.Bus.Bytes.{IsTidy}
use criscv.Csr.{csr_read_write32, csr_read_clear32}
use criscv.Cpu.State.{
  Core, in_fetch, in_decode, in_execute, in_memory, in_writeback, in_trap, CoreState, TrapState,
  no_trap, enter, handle, exit,
}
use criscv.Cpu.Decode.{decode}
use criscv.Cpu.Execute.{execute}
use criscv.Cpu.Stages.{
  core_cycle, run_stage, staged, trap, trap_step, fetch, memory_access, writeback,
}
use criscv.Cpu.Run.{writeback_lem}
use criscv.Cpu.Keeps.{decode-Keeps, execute-Keeps, memory_access-Keeps}
use criscv.Cpu.Sound.{after-ok, both-ok}
use criscv.Cpu.Bounds.{decode-IsNarrow, execute-IsNarrow}
use criscv.Cpu.Bounded.{IsBounded, staged-IsBounded, kept-IsBounded, AreBounded, same_bus}
use criscv.Cpu.Bounded.Fetch.{fetch-AreBounded}
use criscv.Cpu.Bounded.Memory.{memory_access-IsNarrow}

writeback-IsBounded : (core : Core) → IsBounded core → IsBounded (writeback core)
writeback-IsBounded core w =
    let n = w.narrow in
    let target = n.target_fits in
    rw (writeback_lem core) (record {
      narrow = record {
        pc_fits = ground arith;
        out_fits = n.out_fits;
        rs1_fits = n.rs1_fits;
        rs2_fits = n.rs2_fits;
        target_fits = n.target_fits;
        offset_fits = n.offset_fits;
      };
      registers_fit = λ x. let old = w.registers_fit x in let new = n.out_fits in ground arith;
      saved_fit = w.saved_fit;
      prefetch_fits = w.prefetch_fits;
      instruction_fits = w.instruction_fits;
    })

either_fits :
    (f g h : ℕ → ℕ)
    → ((x : ℕ) → g x < 2 ^ 32)
    → ((x : ℕ) → h x < 2 ^ 32)
    → (f ≡ g) ⊎ (f ≡ h)
    → (x : ℕ) → f x < 2 ^ 32
either_fits f g h fits fits' (inl e) = rw e fits
either_fits f g h fits fits' (inr e) = rw e fits'

-- What a step of a trap does: it saves the registers, or puts the saved ones back.
record Swaps (core c : Core) : Type 0 where
  same_or_restored : (c.registers ≡ core.registers) ⊎ (c.registers ≡ core.trap_regs)
  same_or_saved : (c.trap_regs ≡ core.trap_regs) ⊎ (c.trap_regs ≡ core.registers)
  same_prefetch : c.prefetch ≡ core.prefetch
  same_instruction : c.instruction ≡ core.instruction
  same_decoded : c.decoded ≡ core.decoded
  same_out : c.alu_out ≡ core.alu_out
  pc_fits : c.pc < 2 ^ 32

trap_step-Swaps :
    (t : TrapState) (core c : Core) → core.pc < 2 ^ 32 → trap_step t core ≡ ok c → Swaps core c
unfolding trap_step csr_read_write32 csr_read_clear32
trap_step-Swaps no_trap core c fits h = cc
trap_step-Swaps enter core c fits h = ground arith
trap_step-Swaps handle core c fits h = ground arith
trap_step-Swaps exit core c fits h = ground arith

trap_step-IsBounded :
    (t : TrapState) (core c : Core) → IsBounded core → trap_step t core ≡ ok c → IsBounded c
trap_step-IsBounded t core c w h =
    let s = trap_step-Swaps t core c w.narrow.pc_fits h in
    record {
      narrow = record {
        pc_fits = s.pc_fits;
        out_fits = rw s.same_out w.narrow.out_fits;
        rs1_fits = rw s.same_decoded w.narrow.rs1_fits;
        rs2_fits = rw s.same_decoded w.narrow.rs2_fits;
        target_fits = rw s.same_decoded w.narrow.target_fits;
        offset_fits = rw s.same_decoded w.narrow.offset_fits;
      };
      registers_fit =
          either_fits c.registers core.registers core.trap_regs w.registers_fit w.saved_fit
            s.same_or_restored;
      saved_fit =
          either_fits c.trap_regs core.trap_regs core.registers w.saved_fit w.registers_fit
            s.same_or_saved;
      prefetch_fits = rw s.same_prefetch w.prefetch_fits;
      instruction_fits = rw s.same_instruction w.instruction_fits;
    }

run_stage-AreBounded :
    (at : CoreState) (core c : Core) (bus b : Bus)
    → IsBounded core
    → IsTidy bus
    → run_stage at core bus ≡ ok (c, b)
    → AreBounded (c, b)
unfolding run_stage trap execute
run_stage-AreBounded in_trap core c bus b w t h =
    let (x, e, same) = after-ok (staged in_fetch) (trap core) c bus b h in
    (
      rw (← same) (staged-IsBounded x in_fetch (trap_step-IsBounded core.trap_state core x w e)),
      rw (← same_bus (staged in_fetch) (trap core) c bus b h) t,
    )
run_stage-AreBounded in_fetch core c bus b w t h =
    let (x, e, same) = both-ok (staged in_decode) (fetch core bus) c b h in
    let (w', t') = fetch-AreBounded core bus (x, b) w t e in
    (rw (← same) (staged-IsBounded x in_decode w'), t')
run_stage-AreBounded in_decode core c bus b w t h =
    let (x, e, same) = after-ok (staged in_execute) (decode core) c bus b h in
    let n = decode-IsNarrow core x w.narrow w.registers_fit e in
    (
      rw (← same)
          (staged-IsBounded x in_execute (kept-IsBounded core x w (decode-Keeps core x e) n)),
      rw (← same_bus (staged in_execute) (decode core) c bus b h) t,
    )
run_stage-AreBounded in_execute core c bus b w t h =
    let (x, e, same) = after-ok (staged in_memory) (execute core) c bus b h in
    let format = core.decoded.optype in
    let n = execute-IsNarrow format core x w.narrow e in
    (
      rw (← same) (
          staged-IsBounded x in_memory (kept-IsBounded core x w (execute-Keeps format core x e) n)),
      rw (← same_bus (staged in_memory) (execute core) c bus b h) t,
    )
run_stage-AreBounded in_memory core c bus b w t h =
    let (x, e, same) = both-ok (staged in_writeback) (memory_access core bus) c b h in
    let (n, t') = memory_access-IsNarrow core x bus b w.narrow t e in
    (
      rw (← same) (
          staged-IsBounded x in_writeback
            (kept-IsBounded core x w (memory_access-Keeps core x bus b e) n)),
      t',
    )
run_stage-AreBounded in_writeback core c bus b w t h =
    let same : staged in_fetch (writeback core) ≡ c = ground arith in
    let kept : bus ≡ b = ground arith in
    (
      rw (← same) (staged-IsBounded (writeback core) in_fetch (writeback-IsBounded core w)),
      rw (← kept) t,
    )

-- Every cycle that returns, in whatever stage, keeps the bounds of the 32-bit values: the program
-- counter, the registers and those saved for a trap, the fetched word and the prefetched ones, the
-- result, the operands, the target of a jump and the address of an access are below 2^32, and each
-- element of the segment is a byte. For that the mutex is free and the segment well-formed before,
-- and they are so after.
pub core_cycle-AreBounded :
    (core c : Core) (bus b : Bus)
    → IsBounded core
    → IsTidy bus
    → core_cycle core bus ≡ ok (c, b)
    → IsBounded c × IsTidy b
unfolding core_cycle
core_cycle-AreBounded core c bus b w t h = run_stage-AreBounded core.state core c bus b w t h
