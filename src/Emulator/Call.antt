-- ===== src/Emulator/Call.antt =====
-- A system call from the guest's instruction to the next, and the traps that end the program.
use criscv.Base.{
  ℕ, suc, ◌+◌, ◌-◌, ◌%◌, ◌^◌, ◌<◌, ◌≡◌, ◌≢◌, refl, ap, sym, ◌∙◌, arith, Bool, true, false, inl, inr,
  Result, ok, update, u32, u64, add32, bit_and,
}
use criscv.Base.Bits.{and_mask}
use criscv.Bus.{Bus}
use criscv.Csr.{mcause, mepc, csr_read_write32, csr_read_clear32}
use criscv.Cpu.Isa.{c_type, decode_type_table}
use criscv.Cpu.State.{
  Core, in_trap, in_fetch, in_execute, no_trap, enter, handle, exit, cause_trap, env_call_umode,
}
use criscv.Cpu.Decode.{decode, decode_format, decode_common}
use criscv.Cpu.Execute.{execute, execute_format, execute_c}
use criscv.Cpu.Stages.{core_cycle, run_stage, trap, trap_step}
use criscv.Cpu.Run.{fetched}
use criscv.Cpu.Trap.{opcode-decode_common, optype-decode_common}
use criscv.Syscall.{Host, handle_syscall}
use criscv.Syscall.Frame.{handle_syscall-Answered}
use criscv.Emulator.{is_handling, cpu_thread, thread_round, trap_handler, handle_umode_call}

-- The core that the handler works on, for a trap that `cause` names, `n` cycles after the fetch of `w`.
abbrev handling : Core → ℕ → ℕ → ℕ → Core
handling core w cause n = record (fetched core w) {
  decoded = decode_common (fetched core w);
  trap_regs = core.registers;
  prefetch_cnt = 0;
  trap_pc = core.pc;
  state = in_trap;
  trap_state = handle;
  cycle = n;
  csr =
      update
        (update (update (update core.csr mcause cause) mepc core.pc) mcause
          (bit_and cause (2 ^ 32 - 1)))
        mepc (bit_and core.pc (2 ^ 32 - 1));
}

abbrev pub calling : Core → ℕ → Core
calling core w = handling core w env_call_umode (u64 (u64 (u64 (core.cycle + 1) + 1) + 1))

-- The core after the call, with the given registers.
abbrev resumed : Core → ℕ → (ℕ → ℕ) → Core
resumed core w registers = record (calling core w) {
  trap_regs = registers;
  registers = registers;
  pc = add32 core.pc 4;
  csr = update (calling core w).csr mepc (bit_and (bit_and core.pc (2 ^ 32 - 1)) (2 ^ 32 - 1));
  state = in_fetch;
  trap_state = no_trap;
  cycle = u64 (u64 (u64 (u64 (u64 (core.cycle + 1) + 1) + 1) + 1) + 1);
}

-- The core after each of the first three cycles of a system call.
abbrev taken_apart : Core → ℕ → Core
taken_apart core w = record (fetched core w) {
  decoded = decode_common (fetched core w);
  state = in_execute;
  cycle = u64 (core.cycle + 1);
}

abbrev trapping : Core → ℕ → Core
trapping core w = record (taken_apart core w) {
  state = in_trap;
  trap_state = enter;
  csr = update core.csr mcause env_call_umode;
  cycle = u64 (u64 (core.cycle + 1) + 1);
}

abbrev trapped : Core → ℕ → Core
trapped core w = record (calling core w) {
  csr = update (update core.csr mcause env_call_umode) mepc core.pc;
}

module _ (core : Core) (bus : Bus) (w : ℕ) (system : w % 2 ^ 7 ≡ 0x73) where
  first : core_cycle (fetched core w) bus ≡ ok (taken_apart core w, bus)
  unfolding core_cycle run_stage decode decode_format decode_type_table
  first =
      let format : (decode_common (fetched core w)).optype ≡ c_type =
        optype-decode_common (fetched core w) ∙ ap decode_type_table system in
      rw format

  second : core_cycle (taken_apart core w) bus ≡ ok (trapping core w, bus)
  unfolding core_cycle run_stage execute execute_format execute_c decode_type_table cause_trap
      csr_read_write32
  second =
      let dec = fetched core w in
      let format : (decode_common dec).optype ≡ c_type =
        optype-decode_common dec ∙ ap decode_type_table system in
      let opcode : (decode_common dec).opcode ≡ 0x73 = opcode-decode_common dec ∙ system in
      rw (format, opcode)

  third : core_cycle (trapping core w) bus ≡ ok (trapped core w, bus)
  unfolding core_cycle run_stage trap trap_step csr_read_write32
  third = refl

abbrev answered : Core → ℕ → (ℕ → ℕ) → Core
answered core w registers = record (calling core w) { trap_regs = registers }

module _ (core : Core) (bus : Bus) (w : ℕ) (registers : ℕ → ℕ) where
  abbrev leaving : Core
  leaving = record (answered core w registers) {
    trap_state = exit;
    cycle = u64 (u64 (u64 (u64 (core.cycle + 1) + 1) + 1) + 1);
  }

  fourth : core_cycle (answered core w registers) bus ≡ ok (leaving, bus)
  unfolding core_cycle run_stage trap trap_step
  fourth = refl

  fifth : core.pc < 2 ^ 32 → core_cycle leaving bus ≡ ok (resumed core w registers, bus)
  unfolding core_cycle run_stage trap trap_step csr_read_clear32
  fifth small =
      let epc : u32 (bit_and core.pc (2 ^ 32 - 1)) ≡ core.pc =
        ap u32 (and_mask 32 core.pc) ∙ omega arith in
      rw epc

module _ {S : Type 0} (host : Host S) (c c' : Core) (bus b : Bus) (s : S)
    (cycled : core_cycle c bus ≡ ok (c', b)) where
  pub round_goes_on :
      is_handling c'.state c'.trap_state ≡ false → thread_round host c bus s ≡ ok (true, c', b, s)
  unfolding thread_round
  round_goes_on out = rw (cycled, out)

  round-trap_handler :
      is_handling c'.state c'.trap_state ≡ true
      → c'.trap_handler ≡ true
      → thread_round host c bus s ≡ trap_handler host c' b s
  unfolding thread_round
  round-trap_handler here set = rw (cycled, here, set)

pub cpu_thread-suc :
    {S : Type 0} (host : Host S) (n : ℕ) (c c' : Core) (bus b : Bus) (s s' : S)
    → thread_round host c bus s ≡ ok (true, c', b, s')
    → cpu_thread host (suc n) c bus s ≡ cpu_thread host n c' b s'
unfolding cpu_thread
cpu_thread-suc host n c c' bus b s s' round = rw round

module _ {S : Type 0} (host : Host S) (core : Core) (bus : Bus) (s : S) (w : ℕ)
    (system : w % 2 ^ 7 ≡ 0x73) (has_handler : core.trap_handler ≡ true) where
  abbrev pub call : Core → Result (Bool × Core × Bus × S)
  call c =
      handle_syscall host c bus s (core.registers 17) (core.registers 10) (core.registers 11)
        (core.registers 12)

  trap_handler-call : trap_handler host (trapped core w) bus s ≡ call (calling core w)
  unfolding trap_handler handle_umode_call csr_read_clear32
  trap_handler-call = refl

  third_round : thread_round host (trapping core w) bus s ≡ call (calling core w)
  third_round =
      round-trap_handler host (trapping core w) (trapped core w) bus bus s (third core bus w system)
        refl has_handler
      ∙ trap_handler-call

  to_third :
      (n : ℕ)
      → cpu_thread host (suc (suc n)) (fetched core w) bus s
        ≡ cpu_thread host n (trapping core w) bus s
  to_third n =
      cpu_thread-suc host (suc n) (fetched core w) (taken_apart core w) bus bus s s (
        round_goes_on host (fetched core w) (taken_apart core w) bus bus s (first core bus w system)
          refl)
      ∙ cpu_thread-suc host n (taken_apart core w) (trapping core w) bus bus s s (
          round_goes_on host (taken_apart core w) (trapping core w) bus bus s
            (second core bus w system) refl)

  -- A call that returns false ends the program: a thread that has just fetched a system instruction
  -- leaves its loop in the third round, however many follow, if the core has a handler.
  pub cpu_thread-exit :
      (n : ℕ) (d : Core) (b : Bus) (s' : S)
      → call (calling core w) ≡ ok (false, d, b, s')
      → cpu_thread host (suc (suc (suc n))) (fetched core w) bus s ≡ ok (false, d, b, s')
  unfolding cpu_thread
  cpu_thread-exit n d b s' called = to_third (suc n) ∙ (rw (third_round, called))

  module _ (small : core.pc < 2 ^ 32) where
    thread_resumes :
        (registers : ℕ → ℕ) (b : Bus) (s' : S)
        → call (calling core w) ≡ ok (true, answered core w registers, b, s')
        → cpu_thread host 5 (fetched core w) bus s ≡ ok (true, resumed core w registers, b, s')
    thread_resumes registers b s' called =
        to_third 3
        ∙ cpu_thread-suc host 2 (trapping core w) (answered core w registers) bus b s s'
            (third_round ∙ called)
        ∙ cpu_thread-suc host 1 (answered core w registers) (leaving core b w registers) b b s' s' (
            round_goes_on host (answered core w registers) (leaving core b w registers) b b s'
              (fourth core b w registers) refl)
        ∙ cpu_thread-suc host 0 (leaving core b w registers) (resumed core w registers) b b s' s' (
            round_goes_on host (leaving core b w registers) (resumed core w registers) b b s'
              (fifth core b w registers small) refl)
        ∙ unfold cpu_thread in refl

    -- A system call that returns true, of any number and with any host, takes five rounds of the thread
    -- from the fetched system instruction to the next fetch, if `pc` fits in 32 bits and the core has a
    -- handler: x10 then holds the answer of the call, if it left one, every other register what it held
    -- before, and `pc` the address of the next word; the trap is over, and the bus and the host are as
    -- the call left them.
    pub cpu_thread-call :
        (d : Core) (b : Bus) (s' : S)
        → call (calling core w) ≡ ok (true, d, b, s')
        → (c : Core) × (cpu_thread host 5 (fetched core w) bus s ≡ ok (true, c, b, s'))
          × (c.registers ≡ d.trap_regs)
          × ((i : ℕ) → i ≢ 10 → c.registers i ≡ core.registers i)
          × (c.pc ≡ add32 core.pc 4)
          × (c.state ≡ in_fetch)
          × (c.trap_state ≡ no_trap)
    cpu_thread-call d b s' called =
        elim (handle_syscall-Answered (calling core w) d b s' true host bus s (core.registers 17)
          (core.registers 10) (core.registers 11) (core.registers 12) called) [
            | inl same ↦ (
              resumed core w core.registers,
              thread_resumes core.registers b s' (called ∙ ap (λ x. ok (true, x, b, s')) same),
              sym (ap Core.trap_regs same),
              λ i other. refl,
              refl,
              refl,
              refl,
            )
            | inr (x, same) ↦
                let registers = update core.registers 10 x in
                (
                  resumed core w registers,
                  thread_resumes registers b s' (called ∙ ap (λ y. ok (true, y, b, s')) same),
                  sym (ap Core.trap_regs same),
                  λ i other. ground arith,
                  refl,
                  refl,
                  refl,
                )
          ]
