-- ===== src/Emulator/Rounds.antt =====
-- The thread of src/emulator.c as it runs a program: the rounds of the instructions that do not trap.
use criscv.Base.{
  ℕ, zero, suc, ◌+◌, ◌*◌, ◌≤◌, ◌≡◌, refl, sym, ap, ◌∙◌, arith, Bool, true, false, Result, ok, stop,
  ◌>>=◌, if◌then◌else◌,
}
use criscv.Bus.{Bus}
use criscv.Cpu.State.{Core, in_fetch, in_memory, in_writeback}
use criscv.Cpu.Stages.{core_cycle, run_stage, memory_access, staged}
use criscv.Cpu.Keeps.{memory_access-Keeps}
use criscv.Cpu.Sound.{both-ok}
use criscv.Cpu.Run.{cycles, fetched, decoded, executed, Understood}
use criscv.Cpu.Refine.{Layout, Backs, Represents, Agrees, Runs, done, more}
use criscv.Cpu.Refine.Fetch.{fetch-Ready}
use criscv.Cpu.Refine.Simulate.{step-Ready, Agrees-Understood}
use criscv.Spec.Machine.{Machine, Instruction, encode, number_at, step}
use criscv.Syscall.{Host, handle_syscall}
use criscv.Emulator.{is_handling, cpu_thread, thread_round}
use criscv.Emulator.Call.{calling, cpu_thread-exit, round_goes_on, cpu_thread-suc}

-- The two halves of a run of cycles.
split_cycle :
    (n : ℕ) (m : Result (Core × Bus)) (c : Core) (b : Bus)
    → (m >>= λ r. cycles n r.0 r.1) ≡ ok (c, b)
    → (d : Core) × (x : Bus) × (m ≡ ok (d, x)) × (cycles n d x ≡ ok (c, b))
split_cycle n (stop why) c b h = cc
split_cycle n (ok (d, x)) c b h = (d, x, refl, h)

cycles-split :
    (n : ℕ) (core c : Core) (bus b : Bus)
    → cycles (suc n) core bus ≡ ok (c, b)
    → (d : Core) × (x : Bus) × (core_cycle core bus ≡ ok (d, x)) × (cycles n d x ≡ ok (c, b))
unfolding cycles
cycles-split n core c bus b h = split_cycle n (core_cycle core bus) c b h

-- The cycle of the stage MEMORY never ends in the handling of a trap.
memory-quiet :
    (core c : Core) (bus b : Bus)
    → core.state ≡ in_memory
    → core_cycle core bus ≡ ok (c, b)
    → is_handling c.state c.trap_state ≡ false
unfolding core_cycle run_stage
memory-quiet core c bus b at h =
    let here = ap (λ st. run_stage st core bus) (sym at) ∙ h in
    let (x, e, same) = both-ok (staged in_writeback) (memory_access core bus) c b here in
    let kept = (memory_access-Keeps core x bus b e).same_or_trap in rw (← same) (ground arith)

module _ {S : Type 0} (host : Host S) where
  cpu_thread-one :
      (c d : Core) (bus b : Bus) (s : S)
      → core_cycle c bus ≡ ok (d, b)
      → is_handling d.state d.trap_state ≡ false
      → cpu_thread host 1 c bus s ≡ ok (true, d, b, s)
  cpu_thread-one c d bus b s cycled quiet =
      cpu_thread-suc host 0 c d bus b s s (round_goes_on host c d bus b s cycled quiet)
      ∙ unfold cpu_thread in refl

  cpu_thread_more :
      (m : Result (Bool × Core × Bus × S)) (a b : ℕ) (d : Core) (y : Bus) (s' : S)
      (r : Result (Bool × Core × Bus × S))
      → ((e : Core) (z : Bus) (t : S)
          → cpu_thread host a e z t ≡ ok (true, d, y, s')
          → cpu_thread host (a + b) e z t ≡ r)
      → (m >>= λ (goes_on, c, x, t).
          let rest = cpu_thread host a c x t in if goes_on then rest else ok (false, c, x, t))
        ≡ ok (true, d, y, s')
      → (m >>= λ (goes_on, c, x, t).
          let rest = cpu_thread host (a + b) c x t in if goes_on then rest else ok (false, c, x, t))
        ≡ r
  cpu_thread_more (stop why) a b d y s' r again h = cc
  cpu_thread_more (ok (true, c, x, t)) a b d y s' r again h = again c x t h
  cpu_thread_more (ok (false, c, x, t)) a b d y s' r again h = cc

  -- Rounds that go on, and those after them.
  pub cpu_thread-add :
      (a b : ℕ) (core c : Core) (bus x : Bus) (s t : S) (r : Result (Bool × Core × Bus × S))
      → cpu_thread host a core bus s ≡ ok (true, c, x, t)
      → cpu_thread host b c x t ≡ r
      → cpu_thread host (a + b) core bus s ≡ r
  unfolding cpu_thread
  cpu_thread-add zero b core c bus x s t r h k =
      let e : 0 + b ≡ b = omega arith in
      let same_core : core ≡ c = cc in
      let same_bus : bus ≡ x = cc in
      let same_host : s ≡ t = cc in rw e (rw (same_core, same_bus, same_host) k)
  cpu_thread-add (suc a) b core c bus x s t r h k =
      let e : suc a + b ≡ suc (a + b) = omega arith in
      rw e (
        cpu_thread_more (thread_round host core bus s) a b c x t r
          (λ d z u first. cpu_thread-add a b d c z x u t r first k) h)

  no_more : (f c : Core) (z b : Bus) → cycles 0 f z ≡ ok (c, b) → (f ≡ c) × (z ≡ b)
  unfolding cycles
  no_more f c z b h = (cc, cc)

  last_cycle :
      (e c : Core) (y b : Bus) (s : S)
      → cycles 1 e y ≡ ok (c, b)
      → is_handling c.state c.trap_state ≡ false
      → cpu_thread host 1 e y s ≡ ok (true, c, b, s)
  last_cycle e c y b s run at =
      let (f, z, cycled, none_left) = cycles-split 0 e c y b run in
      let same = no_more f c z b none_left in
      cpu_thread-one e c y b s (rw (← same.0, ← same.1) cycled) at

  last_two :
      (e c : Core) (y b : Bus) (s : S)
      → e.state ≡ in_memory
      → cycles 2 e y ≡ ok (c, b)
      → c.state ≡ in_fetch
      → cpu_thread host 2 e y s ≡ ok (true, c, b, s)
  last_two e c y b s here run at =
      let (f, z, cycled, rest) = cycles-split 1 e c y b run in
      cpu_thread-add 1 1 e f y z s s (ok (true, c, b, s))
        (cpu_thread-one e f y z s cycled (memory-quiet e f y z here cycled))
        (last_cycle f c z b s rest (rw at))

  -- Four rounds after the fetch of an instruction that is decoded and executed without a trap.
  cpu_thread-Understood :
      (core c : Core) (bus b : Bus) (w : ℕ) (s : S)
      → Understood core w
      → cycles 4 (fetched core w) bus ≡ ok (c, b)
      → c.state ≡ in_fetch
      → cpu_thread host 4 (fetched core w) bus s ≡ ok (true, c, b, s)
  cpu_thread-Understood core c bus b w s u run at =
      let after = staged in_memory (executed core w u.dec' u.value) in
      let one : core_cycle (fetched core w) bus ≡ ok (decoded core w u.dec, bus) =
        unfold core_cycle run_stage in rw u.taken_apart in
      let two : core_cycle (decoded core w u.dec) bus ≡ ok (after, bus) =
        unfold core_cycle run_stage in rw u.done in
      let rest : cycles 2 after bus ≡ ok (c, b) = unfold cycles in rw (one, two) at run in
      cpu_thread-add 1 3 (fetched core w) (decoded core w u.dec) bus bus s s (ok (true, c, b, s))
        (cpu_thread-one (fetched core w) (decoded core w u.dec) bus bus s one refl)
        (cpu_thread-add 1 2 (decoded core w u.dec) after bus bus s s (ok (true, c, b, s))
          (cpu_thread-one (decoded core w u.dec) after bus bus s two refl)
          (last_two after c bus b s refl rest at))

  -- An instruction takes five rounds.
  five_rounds :
      (lay : Layout) (core : Core) (bus : Bus) (s : S) (m : Machine) (i : Instruction)
      → Represents lay core bus m
      → lay.code_start ≤ m.pc
      → m.pc + 32 ≤ lay.code_end
      → number_at m.memory m.pc 4 ≡ encode i
      → Agrees lay i m
      → (c : Core) × (b : Bus) × (cpu_thread host 5 core bus s ≡ ok (true, c, b, s))
        × Represents lay c b (step i m)
  five_rounds lay core bus s m i r lo hi word a =
      let (c, b, first, ready) = fetch-Ready lay core bus m r lo hi in
      let (c', b', run, again) = step-Ready lay c b m i ready a in
      let at = first ∙ ap (λ (w : ℕ). ok (fetched c w, b)) word in
      (
        c',
        b',
        cpu_thread-add 1 4 core (fetched c (encode i)) bus b s s (ok (true, c', b', s))
            (last_cycle core (fetched c (encode i)) bus b s at refl)
            (cpu_thread-Understood c c' b b' (encode i) s (Agrees-Understood lay c b m i a) run
              again.fetches),
        again,
      )

  -- The thread runs a program as the abstract machine does, in five rounds for each instruction.
  pub cpu_thread-Runs :
      (lay : Layout) (n : ℕ) (core : Core) (bus : Bus) (s : S) (m m' : Machine)
      → Represents lay core bus m
      → Runs lay n m m'
      → (c : Core) × (b : Bus) × (cpu_thread host (n * 5) core bus s ≡ ok (true, c, b, s))
        × Represents lay c b m'
  cpu_thread-Runs lay zero core bus s m m' r done = (core, bus, unfold cpu_thread in refl, r)
  cpu_thread-Runs lay (suc n) core bus s m m' r (more i lo hi word a rest) =
      let (c, b, first, again) = five_rounds lay core bus s m i r lo hi word a in
      let (c', b', run, last) = cpu_thread-Runs lay n c b s (step i m) m' again rest in
      let count : suc n * 5 ≡ 5 + n * 5 = omega arith in
      (
        c',
        b',
        ap (λ (k : ℕ). cpu_thread host k core bus s) count
            ∙ cpu_thread-add 5 (n * 5) core c bus b s s (ok (true, c', b', s)) first run,
        last,
      )

  -- A program that comes to an ECALL for `exit` ends the thread: if the core, its bus and its segment
  -- represent the abstract machine, the machine comes in `n` steps, each of an instruction in the code
  -- that core and machine take alike, to the word of ECALL, with 93 in x17, and the ECALL and each
  -- instruction before it begin at least 32 bytes before the end of the code, as far as a fetch may
  -- read ahead, then the loop of the thread is left after five rounds for each instruction and four for the call, or has been left
  -- however many rounds are allowed beyond. The registers and the memory are those of the machine, and
  -- no call of the host was made.
  pub cpu_thread-ends :
      (lay : Layout) (n k : ℕ) (core : Core) (bus : Bus) (s : S) (m m' : Machine)
      → Represents lay core bus m
      → Runs lay n m m'
      → lay.code_start ≤ m'.pc
      → m'.pc + 32 ≤ lay.code_end
      → number_at m'.memory m'.pc 4 ≡ 0x73
      → m'.registers 17 ≡ 93
      → (c : Core) × (b : Bus) × (cpu_thread host (n * 5 + (4 + k)) core bus s
          ≡ ok (false, c, b, s))
        × (c.registers ≡ m'.registers)
        × Backs lay b m'
  cpu_thread-ends lay n k core bus s m m' r runs lo hi word exits =
      let (c, b, before, there) = cpu_thread-Runs lay n core bus s m m' r runs in
      let (d, x, first, ready) = fetch-Ready lay c b m' there lo hi in
      let at = first ∙ ap (λ (w : ℕ). ok (fetched d w, x)) word in
      let number : d.registers 17 ≡ 93 = ap (λ (f : ℕ → ℕ). f 17) ready.same_registers ∙ exits in
      let last : cpu_thread host (suc (suc (suc k))) (fetched d 0x73) x s
          ≡ ok (false, calling d 0x73, x, s) =
        cpu_thread-exit host d x s 0x73 refl ready.has_handler k (calling d 0x73) x s
          (unfold handle_syscall in rw number) in
      let count : 4 + k ≡ 1 + suc (suc (suc k)) = omega arith in
      (
        calling d 0x73,
        x,
        cpu_thread-add (n * 5) (4 + k) core c bus b s s (ok (false, calling d 0x73, x, s)) before (
            ap (λ (j : ℕ). cpu_thread host j c b s) count
            ∙ cpu_thread-add 1 (suc (suc (suc k))) c (fetched d 0x73) b x s s
                (ok (false, calling d 0x73, x, s)) (last_cycle c (fetched d 0x73) b x s at refl)
                last),
        ready.same_registers,
        ready.backs,
      )
