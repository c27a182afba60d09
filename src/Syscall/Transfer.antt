-- ===== src/Syscall/Transfer.antt =====
-- What `read` of the guest does to its memory.
use criscv.Base.{
  ℕ, ◌+◌, ◌*◌, ◌^◌, ◌<◌, ◌-◌, ap, ◌≡◌, refl, arith, true, false, ◌==◌, if◌then◌else◌, eq→==, ◌⊎◌,
  inl, inr, some, length, List, ok, ltb, ◌||◌, Bool-cases,
}
use criscv.Mmio.{MmioDevice, ram, byte}
use criscv.Mmu.{Mmu, mperm_write}
use criscv.Mmu.Loops.{all_allow}
use criscv.Mmu.Transfer.{IsValid, after_write, write_result}
use criscv.Memory.{is_mmu_ok}
use criscv.Memory.Words.{settle}
use criscv.Bus.{Bus, bus_ok, device_failure, find, put, may_write, is_ready, bus_write_multiple}
use criscv.Bus.Failure.{answer, bus_write_multiple-ram}
use criscv.Cpu.State.{Core}
use criscv.Syscall.{Host, sys_read, set_result}

write_result-cases :
    (mmu : Mmu) (src : List ℕ) (a : ℕ)
    → (write_result mmu src a ≡ (length src, after_write mmu src a))
      ⊎ (((write_result mmu src a).0 ≡ 0) × (is_mmu_ok (write_result mmu src a).1.state ≡ false))
unfolding write_result
write_result-cases mmu src a =
    elim (Bool-cases (ltb a mmu.base || ltb (mmu.base + mmu.size) (a + length src))) [
      | inl e ↦ rw e (inr (refl, refl))
      | inr e ↦ rw e (elim (Bool-cases (all_allow (length src) (a - mmu.base) mperm_write mmu)) [
        | inl e' ↦ rw e' (inl refl)
        | inr e' ↦ rw e' (inr (refl, refl))
      ])
    ]

module _ {S : Type 0} (host : Host S) (core : Core) (bus : Bus) (s : S) (arg0 arg1 arg2 i : ℕ)
    (dev : MmioDevice) (free : bus.locked ≡ false) (v : IsValid bus.mmu) (fits : arg1 < 2 ^ 32)
    (small : arg2 < 2 ^ 32) (hit : find bus.devices arg1 ≡ some (i, dev))
    (is_ram : dev.driver ≡ ram) (w : may_write dev ≡ true) (idle : is_ready dev.state ≡ true)
    (full : length (host.host_read s arg0 arg2).1 ≡ arg2) where
  abbrev ret : ℕ
  ret = (host.host_read s arg0 arg2).0

  abbrev mem : List ℕ
  mem = (host.host_read s arg0 arg2).1

  transferred :
      let r = write_result bus.mmu mem arg1 in
      let b = record bus {
        devices = put bus.devices i (settle dev r.1);
        mmu = r.1;
        locked = true;
      } in
      bus_write_multiple bus arg1 mem arg2 byte
      ≡ ok (
          if answer r == arg2
          then (arg2, record b { status = bus_ok; locked = false })
          else (0, record b { status = device_failure }))
  transferred =
      let all : arg2 * 1 ≡ length mem = omega (arith, full) in
      bus_write_multiple-ram bus free v arg1 fits i dev hit is_ram w idle mem arg2 byte all
        (rw (full) small)

  -- `sys_read` into the RAM device, writable and ready, with the mutex free, the segment well-formed,
  -- sizes and addresses of 32 bits, and a host that fills the whole buffer, answers in x10 what the host
  -- did. If the segment accepts the range, it holds all of the buffer, however much of it the host has
  -- read, and the mutex is free again. If it refuses a range that is not empty, the call succeeds all
  -- the same, and the mutex stays locked.
  pub sys_read_lem :
      0 < arg2
      → (b : Bus) × (sys_read host core bus s arg0 arg1 arg2
          ≡ ok (true, set_result core ret, b, (host.host_read s arg0 arg2).2))
        × (((write_result bus.mmu mem arg1 ≡ (arg2, after_write bus.mmu mem arg1))
              × (b.mmu ≡ after_write bus.mmu mem arg1)
              × (b.locked ≡ false)
              × (b.status ≡ bus_ok))
            ⊎ (((write_result bus.mmu mem arg1).0 ≡ 0)
                × (b.locked ≡ true)
                × (b.status ≡ device_failure)))
  unfolding sys_read answer
  sys_read_lem pos =
      let r = write_result bus.mmu mem arg1 in
      let b = record bus {
        devices = put bus.devices i (settle dev r.1);
        mmu = r.1;
        locked = true;
      } in
      elim (write_result-cases bus.mmu mem arg1) [
        | inl e ↦
            let all : answer r ≡ arg2 = rw (e, full) in
            (
              record b { status = bus_ok; locked = false },
              rw (transferred, eq→== (answer r) arg2 all),
              inl (rw (e, full), ap (λ (x : ℕ × Mmu). x.1) e, refl, refl),
            )
        | inr (none_written, failed) ↦
            let fewer : (answer r == arg2) ≡ false = rw failed (ground arith) in
            (
              record b { status = device_failure },
              rw (transferred, fewer),
              inr (none_written, refl, refl),
            )
      ]
