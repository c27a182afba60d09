-- ===== src/Cpu/Sound.antt =====
-- What every cycle keeps: the state of a trap, x0 and the number of prefetched words.
use criscv.Base.{
  ℕ, ap, ◌≤◌, ◌≡◌, refl, arith, Bool, true, false, if◌then◌else◌, Result, ok, stop, ◌>>=◌, List,
}
use criscv.Bus.{Bus}
use criscv.Cpu.Run.{writeback_lem}
use criscv.Csr.{csr_read_write32, csr_read_clear32}
use criscv.Cpu.State.{
  Core, CoreState, in_fetch, in_decode, in_execute, in_memory, in_writeback, in_trap, TrapState,
  no_trap, enter, handle, exit, core_init, cause_trap,
}
use criscv.Cpu.Decode.{decode}
use criscv.Cpu.Execute.{execute}
use criscv.Cpu.Stages.{
  core_cycle, run_stage, staged, trap, trap_step, fetch, fill, filled, next_prefetched,
  memory_access, writeback,
}
use criscv.Cpu.Keeps.{Keeps, decode-Keeps, execute-Keeps, memory_access-Keeps}

abbrev pub is_in_trap : CoreState → Bool
is_in_trap in_trap = true
is_in_trap _ = false

abbrev pub is_active : TrapState → Bool
is_active no_trap = false
is_active _ = true

-- The state is TRAP exactly while a trap is active, x0 is 0 and will be after a trap, and the
-- prefetched words fit their array.
pub record IsSound (core : Core) : Type 0 where
  pub trapping : is_in_trap core.state ≡ is_active core.trap_state
  pub zero_reads_0 : core.registers 0 ≡ 0
  pub saved_zero : core.trap_regs 0 ≡ 0
  pub prefetch_fits : core.prefetch_cnt ≤ 7

-- A stage that only keeps, or traps, leaves a sound core sound.
staged-IsSound :
    (core c : Core) (next : CoreState)
    → IsSound core
    → is_in_trap core.state ≡ false
    → is_in_trap next ≡ false
    → Keeps core c
    → IsSound (staged next c)
staged-IsSound core c next s out out' kept = ground arith

-- A stage that returned, with what follows it.
pub after-ok :
    (f : Core → Core) (m : Result Core) (c : Core) (bus b : Bus)
    → ◌>>=◌ {Y = Core × Bus} m (λ x. ok (f x, bus)) ≡ ok (c, b)
    → (x : Core) × (m ≡ ok x) × (f x ≡ c)
after-ok f (stop why) c bus b h = cc
after-ok f (ok x) c bus b h = (x, refl, ground arith)

pub both-ok :
    (f : Core → Core) (m : Result (Core × Bus)) (c : Core) (b : Bus)
    → ◌>>=◌ {Y = Core × Bus} m (λ r. ok (f r.0, r.1)) ≡ ok (c, b)
    → (x : Core) × (m ≡ ok (x, b)) × (f x ≡ c)
both-ok f (stop why) c b h = cc
both-ok f (ok (x, b')) c b h =
    let kept : b' ≡ b = ground arith in (x, ap (λ (q : Bus). ok (x, q)) kept, ground arith)

-- `fetch`, by what the bus answers.
fill-IsSound :
    (m : Result (ℕ × List ℕ × Bus)) (core c : Core) (b : Bus)
    → IsSound core
    → core.state ≡ in_fetch
    → (m >>= λ r. filled core r.0 r.1 r.2) ≡ ok (c, b)
    → IsSound (staged in_decode c)
unfolding filled cause_trap csr_read_write32
fill-IsSound (stop why) core c b s at h = cc
fill-IsSound (ok (n, bytes, b')) core c b s at h = ground arith

next-IsSound :
    (core c : Core)
    → IsSound core
    → core.state ≡ in_fetch
    → next_prefetched core ≡ ok c
    → IsSound (staged in_decode c)
unfolding next_prefetched
next-IsSound core c s at h = ground arith

-- `fetch`, by whether a word is left.
fetched-IsSound :
    (empty : Bool) (core c : Core) (bus b : Bus)
    → IsSound core
    → core.state ≡ in_fetch
    → (if empty then fill core bus else (next_prefetched core >>= λ c'. ok (c', bus))) ≡ ok (c, b)
    → IsSound (staged in_decode c)
unfolding fill
fetched-IsSound true core c bus b s at h = fill-IsSound _ core c b s at h
fetched-IsSound false core c bus b s at h =
    let (c', e, same) = after-ok (λ x. x) (next_prefetched core) c bus b h in
    rw (← same) (next-IsSound core c' s at e)

fetch-IsSound :
    (core c : Core) (bus b : Bus)
    → IsSound core
    → core.state ≡ in_fetch
    → fetch core bus ≡ ok (c, b)
    → IsSound (staged in_decode c)
unfolding fetch
fetch-IsSound core c bus b s at h = fetched-IsSound _ core c bus b s at h

writeback-IsSound :
    (core : Core)
    → IsSound core
    → core.state ≡ in_writeback
    → IsSound (staged in_fetch (writeback core))
writeback-IsSound core s at = rw (writeback_lem core) (ground arith)

trap_step-IsSound :
    (t : TrapState) (core c : Core)
    → IsSound core
    → core.trap_state ≡ t
    → core.state ≡ in_trap
    → trap_step t core ≡ ok c
    → IsSound (staged in_fetch c)
unfolding trap_step csr_read_write32 csr_read_clear32
trap_step-IsSound no_trap core c s e at h = cc
trap_step-IsSound enter core c s e at h = ground arith
trap_step-IsSound handle core c s e at h = ground arith
trap_step-IsSound exit core c s e at h = ground arith

run_stage-IsSound :
    (at : CoreState) (core c : Core) (bus b : Bus)
    → IsSound core
    → core.state ≡ at
    → run_stage at core bus ≡ ok (c, b)
    → IsSound c
unfolding run_stage trap execute
run_stage-IsSound in_trap core c bus b s at h =
    let (x, e, same) = after-ok (staged in_fetch) (trap core) c bus b h in
    rw (← same) (trap_step-IsSound core.trap_state core x s refl at e)
run_stage-IsSound in_fetch core c bus b s at h =
    let (x, e, same) = both-ok (staged in_decode) (fetch core bus) c b h in
    rw (← same) (fetch-IsSound core x bus b s at e)
run_stage-IsSound in_decode core c bus b s at h =
    let (x, e, same) = after-ok (staged in_execute) (decode core) c bus b h in
    rw (← same) (staged-IsSound core x in_execute s (rw at) refl (decode-Keeps core x e))
run_stage-IsSound in_execute core c bus b s at h =
    let (x, e, same) = after-ok (staged in_memory) (execute core) c bus b h in
    rw (← same)
      (staged-IsSound core x in_memory s (rw at) refl (execute-Keeps core.decoded.optype core x e))
run_stage-IsSound in_memory core c bus b s at h =
    let (x, e, same) = both-ok (staged in_writeback) (memory_access core bus) c b h in
    rw (← same)
      (staged-IsSound core x in_writeback s (rw at) refl (memory_access-Keeps core x bus b e))
run_stage-IsSound in_writeback core c bus b s at h =
    let same : staged in_fetch (writeback core) ≡ c = ground arith in
    rw (← same) (writeback-IsSound core s at)

-- Every cycle that returns, in whatever stage, keeps four things true of the core: the state is TRAP
-- exactly while a trap is active, x0 is 0, x0 is 0 among the registers saved for a trap, and the
-- number of prefetched words is at most 7.
pub core_cycle-IsSound :
    (core c : Core) (bus b : Bus) → IsSound core → core_cycle core bus ≡ ok (c, b) → IsSound c
unfolding core_cycle
core_cycle-IsSound core c bus b s h = run_stage-IsSound core.state core c bus b s refl h

pub core_init-IsSound :
    (core c : Core) (num pc : ℕ)
    → core.trap_state ≡ no_trap
    → core.trap_regs 0 ≡ 0
    → core_init core num pc ≡ ok c
    → IsSound c
unfolding core_init
core_init-IsSound core c num pc out saved h = ground arith
