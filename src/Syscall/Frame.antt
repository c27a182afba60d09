-- ===== src/Syscall/Frame.antt =====
-- What a system call leaves alone.
use criscv.Base.{
  ℕ, ◌≡◌, arith, Bool, true, false, if◌then◌else◌, Bool-cases, ◌⊎◌, inl, inr, ltb, leb, Result, ok,
  stop, ◌>>=◌, ◌>>◌, require, update, u32, List, take, drop, length, ◌++◌, bit_or, assert_failed,
}
use criscv.Mmu.{Mmu, mmu_allocate, mperm_raw, mperm_write}
use criscv.Mmio.{byte}
use criscv.Bus.{Bus, is_bus_ok, bus_read_multiple, bus_write_multiple, bus_read_string}
use criscv.Cpu.State.{Core}
use criscv.Syscall.{
  Host, set_result, sys_read, sys_write, sys_fstat, sys_close, sys_open, sys_lseek, sys_brk,
  handle_syscall, requested_increase,
}

-- `c` is `core`, or `core` with an answer for x10.
abbrev pub Answered : Core → Core → Type 0
Answered core c =
    (c ≡ core) ⊎ ((x : ℕ) × (c ≡ record core { trap_regs = update core.trap_regs 10 x }))

module _ {S : Type 0} (core c : Core) (b : Bus) (s' : S) (goes_on : Bool) where
  -- The shapes of the calls, by what the bus or the segment answers.
  stored-Answered :
      (m : Result (ℕ × Bus)) (x : ℕ) (s : S)
      → ◌>>=◌ {Y = Bool × Core × Bus × S} m (λ r. ok (true, set_result core x, r.1, s))
        ≡ ok (goes_on, c, b, s')
      → Answered core c
  unfolding set_result
  stored-Answered (stop why) x s h = cc
  stored-Answered (ok r) x s h = inr (u32 x, ground arith)

  loaded-Answered :
      (p q : Bool) (m : Result (ℕ × List ℕ × Bus)) (f : List ℕ → ℕ × S)
      → (require p assert_failed
          >> (require q assert_failed
              >> ◌>>=◌ {Y = Bool × Core × Bus × S} m
                  (λ r. ok (true, set_result core (f r.1).0, r.2, (f r.1).1))))
        ≡ ok (goes_on, c, b, s')
      → Answered core c
  unfolding set_result
  loaded-Answered false q m f h = cc
  loaded-Answered true false m f h = cc
  loaded-Answered true true (stop why) f h = cc
  loaded-Answered true true (ok r) f h = inr (u32 (f r.1).0, ground arith)

  opened-Answered :
      (m : Result (List ℕ × Bus)) (f : List ℕ → ℕ × S) (s : S)
      → ◌>>=◌ {Y = Bool × Core × Bus × S} m (λ r.
        if is_bus_ok r.1.status
        then ok (true, set_result core (f r.0).0, r.1, (f r.0).1)
        else ok (false, core, r.1, s))
        ≡ ok (goes_on, c, b, s')
      → Answered core c
  unfolding set_result
  opened-Answered (stop why) f s h = cc
  opened-Answered (ok r) f s h = elim (Bool-cases (is_bus_ok r.1.status)) [
    | inl e ↦ inr (u32 (f r.0).0, ground arith)
    | inr e ↦ inl (ground arith)
  ]

  grown-Answered :
      (grows : Bool) (m : Result (ℕ × Mmu)) (bus : Bus) (x y : ℕ) (s : S)
      → (if grows
          then ◌>>=◌ {Y = Bool × Core × Bus × S} m
              (λ r. ok (true, set_result core x, record bus { mmu = r.1 }, s))
          else ok (true, set_result core y, bus, s))
        ≡ ok (goes_on, c, b, s')
      → Answered core c
  unfolding set_result
  grown-Answered true (stop why) bus x y s h = cc
  grown-Answered true (ok r) bus x y s h = inr (u32 x, ground arith)
  grown-Answered false m bus x y s h = inr (u32 y, ground arith)

  module _ (host : Host S) (bus : Bus) (s : S) where
    sys_read-Answered :
        (arg0 arg1 arg2 : ℕ)
        → sys_read host core bus s arg0 arg1 arg2 ≡ ok (goes_on, c, b, s')
        → Answered core c
    unfolding sys_read
    sys_read-Answered arg0 arg1 arg2 h =
        stored-Answered (bus_write_multiple bus arg1 (host.host_read s arg0 arg2).1 arg2 byte)
          (host.host_read s arg0 arg2).0 (host.host_read s arg0 arg2).2 h

    sys_fstat-Answered :
        (arg0 arg1 : ℕ)
        → sys_fstat host core bus s arg0 arg1 ≡ ok (goes_on, c, b, s')
        → Answered core c
    unfolding sys_fstat
    sys_fstat-Answered arg0 arg1 h =
        stored-Answered (bus_write_multiple bus arg1 (take 112 (host.host_fstat s arg0).1) 112 byte)
          (host.host_fstat s arg0).0 (host.host_fstat s arg0).2 h

    sys_lseek-Answered :
        (arg0 arg1 arg2 : ℕ)
        → sys_lseek host core bus s arg0 arg1 arg2 ≡ ok (goes_on, c, b, s')
        → Answered core c
    unfolding sys_lseek set_result
    sys_lseek-Answered arg0 arg1 arg2 h =
        inr (u32 (host.host_lseek s arg0 arg1 arg2).0, ground arith)

    sys_close-Answered :
        (arg0 : ℕ) → sys_close host core bus s arg0 ≡ ok (goes_on, c, b, s') → Answered core c
    unfolding sys_close set_result
    sys_close-Answered arg0 h = elim (Bool-cases (leb arg0 2)) [
      | inl e ↦ inr (0, ground arith)
      | inr e ↦ inr (u32 (host.host_close s arg0).0, ground arith)
    ]

    sys_write-Answered :
        (arg0 arg1 arg2 : ℕ)
        → sys_write host core bus s arg0 arg1 arg2 ≡ ok (goes_on, c, b, s')
        → Answered core c
    unfolding sys_write
    sys_write-Answered arg0 arg1 arg2 h =
        loaded-Answered (leb arg0 2) (ltb arg2 256) (bus_read_multiple bus arg1 arg2 byte)
          (λ dst. host.host_write s arg0 (take arg2 (dst ++ drop (length dst) host.old_stack)) arg2)
          h

    sys_open-Answered :
        (arg0 arg1 arg2 : ℕ)
        → sys_open host core bus s arg0 arg1 arg2 ≡ ok (goes_on, c, b, s')
        → Answered core c
    unfolding sys_open
    sys_open-Answered arg0 arg1 arg2 h =
        opened-Answered (bus_read_string bus arg0 256) (λ buf. host.host_open s buf arg1 arg2) s h

    sys_brk-Answered :
        (arg0 : ℕ) → sys_brk host core bus s arg0 ≡ ok (goes_on, c, b, s') → Answered core c
    unfolding sys_brk
    sys_brk-Answered arg0 h =
        grown-Answered (ltb 0 (requested_increase arg0))
          (mmu_allocate bus.mmu (requested_increase arg0) (bit_or mperm_raw mperm_write)) bus arg0
          (u32 bus.mmu.curr_vaddr) s h

    -- A system call that returns, of any number and with any host, changes nothing of the core but what
    -- the guest will find in x10, if that.
    pub handle_syscall-Answered :
        (n arg0 arg1 arg2 : ℕ)
        → handle_syscall host core bus s n arg0 arg1 arg2 ≡ ok (goes_on, c, b, s')
        → Answered core c
    unfolding handle_syscall
    handle_syscall-Answered n arg0 arg1 arg2 h = ground (
      arith,
      sys_brk-Answered arg0,
      sys_read-Answered arg0 arg1 arg2,
      sys_write-Answered arg0 arg1 arg2,
      sys_open-Answered arg0 arg1 arg2,
      sys_close-Answered arg0,
      sys_lseek-Answered arg0 arg1 arg2,
      sys_fstat-Answered arg0 arg1,
    )
