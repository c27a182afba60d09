-- ===== src/Cpu/Abort.antt =====
-- A fetch that reads ahead of what can be read.
use criscv.Base.{
  ℕ, ◌+◌, ◌-◌, ◌^◌, ◌<◌, ◌≤◌, ◌≡◌, refl, arith, true, false, Bool-cases, inl, inr, ◌⊎◌,
}
use criscv.Base.{some, [], ok, stop, assert_failed, u32, ◌||◌, ltb}
use criscv.Mmio.{MmioDevice, word, ram, error}
use criscv.Mmu.{Mmu, mperm_read, allows}
use criscv.Mmu.Loops.{all_allow, all_allow-at}
use criscv.Mmu.Transfer.{IsValid, read_result, mmu_read_into_lem}
use criscv.Memory.{read_ram, is_mmu_ok}
use criscv.Bus.{Bus, bus_ok, device_failure, put, find, bus_read_multiple, read_many_at}
use criscv.Bus.Access.{lock-free, bus_find_device-hit}
use criscv.Bus.Multiple.{dev_read-ram}
use criscv.Csr.{csr_read_write32}
use criscv.Cpu.State.{Core, in_fetch, cause_trap}
use criscv.Cpu.Stages.{core_cycle, run_stage, fetch, fill, filled}

-- A range with a byte in it that is beyond the segment, or may not be read.
read_result-refused :
    (mmu : Mmu) (a n j : ℕ)
    → a ≤ j
    → j < a + n
    → (mmu.base + mmu.size ≤ j) ⊎ (allows (mmu.perm (j - mmu.base)) mperm_read ≡ false)
    → (is_mmu_ok (read_result mmu a n).2.state ≡ false) × ((read_result mmu a n).1 ≡ [])
unfolding read_result
read_result-refused mmu a n j lo hi bad =
    elim (Bool-cases (ltb a mmu.base || ltb (mmu.base + mmu.size) (a + n))) [
      | inl e ↦ rw e (refl, refl)
      | inr e ↦ elim (Bool-cases (all_allow n (a - mmu.base) mperm_read mmu)) [
        | inl f ↦
            let base_low : mmu.base ≤ a = ground arith in
            let inside : a + n ≤ mmu.base + mmu.size = ground arith in
            let allowed =
              all_allow-at n (a - mmu.base) mperm_read mmu (j - mmu.base) f (omega arith)
                (omega arith) in
            absurd (elim bad [ inl far ↦ omega arith | inr shut ↦ cc ])
        | inr f ↦ rw (e, f) (refl, refl)
      ]
    ]

module _ (bus : Bus) (free : bus.locked ≡ false) (v : IsValid bus.mmu) (offs : ℕ)
    (fits : offs < 2 ^ 32) (i : ℕ) (dev : MmioDevice) (hit : find bus.devices offs ≡ some (i, dev))
    (is_ram : dev.driver ≡ ram) where
  read_ram-refused :
      is_mmu_ok (read_result bus.mmu offs 32).2.state ≡ false
      → (read_result bus.mmu offs 32).1 ≡ []
      → read_ram dev bus.mmu offs 8 word
        ≡ ok (0, [], record dev { state = error }, (read_result bus.mmu offs 32).2)
  unfolding read_ram
  read_ram-refused bad none_read =
      rw (mmu_read_into_lem bus.mmu v offs 32 fits (omega arith), bad, none_read)

  bus_read_multiple-refused :
      is_mmu_ok (read_result bus.mmu offs 32).2.state ≡ false
      → (read_result bus.mmu offs 32).1 ≡ []
      → (b : Bus) × (bus_read_multiple bus offs 8 word ≡ ok (0, [], b))
  unfolding bus_read_multiple read_many_at
  bus_read_multiple-refused bad none_read =
      let narrow : u32 offs ≡ offs = omega arith in
      let searched = record bus { locked = true; status = bus_ok } in
      (
        record bus {
          devices = put bus.devices i (record dev { state = error });
          mmu = (read_result bus.mmu offs 32).2;
          locked = false;
          status = device_failure;
        },
        rw (
          lock-free bus free,
          bus_find_device-hit (record bus { locked = true }) offs hit,
          dev_read-ram bus free v offs fits i dev hit is_ram searched 8 word,
          narrow,
          read_ram-refused bad none_read,
        ),
      )

-- A fetch with no prefetched word left reads 32 bytes, and where one of them lies beyond the segment or
-- may not be read the program aborts in that cycle, on an assertion that always fails, even where the
-- word at `pc` itself can be read: with the mutex free, the segment well-formed, and a RAM device at
-- `pc` in the 32-bit space.
pub core_cycle-assert_failed :
    (core : Core) (bus : Bus) (i j : ℕ) (dev : MmioDevice)
    → core.state ≡ in_fetch
    → core.prefetch_cnt ≡ 0
    → bus.locked ≡ false
    → IsValid bus.mmu
    → core.pc < 2 ^ 32
    → find bus.devices core.pc ≡ some (i, dev)
    → dev.driver ≡ ram
    → core.pc ≤ j
    → j < core.pc + 32
    → (bus.mmu.base + bus.mmu.size ≤ j)
      ⊎ (allows (bus.mmu.perm (j - bus.mmu.base)) mperm_read ≡ false)
    → core_cycle core bus ≡ stop assert_failed
unfolding core_cycle run_stage fetch fill filled cause_trap csr_read_write32
core_cycle-assert_failed core bus i j dev at empty free v fits hit is_ram lo hi bad =
    let (refused, none_read) = read_result-refused bus.mmu core.pc 32 j lo hi bad in
    let (b, read) =
      bus_read_multiple-refused bus free v core.pc fits i dev hit is_ram refused none_read in
    rw (at, empty, read)
