-- ===== src/Bus/Burst.antt =====
-- What `bus_read_multiple` gives and leaves, at whatever address.
use criscv.Base.{
  ℕ, ◌*◌, ◌^◌, ◌<◌, ◌≡◌, refl, arith, ◌==◌, ◌&&◌, true, Bool-cases, sym, ◌∙◌, [], inl, inr,
  null_call, false, Option, none, some, Result, ok, stop, List, u32, u64, if◌then◌else◌,
}
use criscv.Mmio.{AccessWidth, MmioDevice, Driver, ram, csr_mmio, ready, error}
use criscv.Mmu.{Mmu}
use criscv.Mmu.Transfer.{IsValid, read_result, mmu_read_into_lem}
use criscv.Mmu.Safe.{read_result-IsValid}
use criscv.Memory.{mult, read_ram, is_mmu_ok}
use criscv.Bus.{
  Bus, bus_ok, device_failure, dev_read, bus_read_multiple, read_many_at, find, update_device,
  unlock,
}
use criscv.Bus.Access.{missed, lock-free, bus_find_device-hit, bus_find_device-miss}
use criscv.Bus.Multiple.{dev_read-ram}
use criscv.Bus.Bytes.{AllBytes, HoldsBytes, IsTidy, read_result-AllBytes, read_result-HoldsBytes}

-- What `read_ram` makes of the segment's answer.
abbrev ram_answer : MmioDevice → ℕ → ℕ → ℕ × List ℕ × Mmu → ℕ × List ℕ × MmioDevice × Mmu
ram_answer dev count total (ret, buf, m) =
    if is_mmu_ok m.state && (ret == total)
    then (count, buf, record dev { state = ready }, m)
    else (0, buf, record dev { state = error }, m)

read_ram_lem :
    (dev : MmioDevice) (mmu : Mmu) (offs count : ℕ) (aw : AccessWidth)
    → IsValid mmu
    → offs < 2 ^ 32
    → count * mult aw < 2 ^ 32
    → read_ram dev mmu offs count aw
      ≡ ok (ram_answer dev count (count * mult aw) (read_result mmu offs (count * mult aw)))
unfolding read_ram
read_ram_lem dev mmu offs count aw v fits small =
    let size : u64 (count * mult aw) ≡ count * mult aw = omega arith in
    rw (size, mmu_read_into_lem mmu v offs (count * mult aw) fits small)

-- What a burst stored, and the bus after it.
abbrev pub IsBurst : ℕ × List ℕ × Bus → Type 0
IsBurst r = AllBytes r.1 × IsTidy r.2

ram_answer-tidy :
    (dev : MmioDevice) (count total : ℕ) (r : ℕ × List ℕ × Mmu)
    → ((ram_answer dev count total r).1 ≡ r.1) × ((ram_answer dev count total r).3 ≡ r.2)
ram_answer-tidy dev count total r = ground arith

-- `read_many_at` after the device answered.
abbrev many_answer : Bus → ℕ → ℕ → ℕ × List ℕ × MmioDevice × Mmu → ℕ × List ℕ × Bus
many_answer bus i count (ret, dst, dev, mmu) =
    let b = update_device bus i dev mmu in
    if ret == count
    then (count, dst, unlock b)
    else (0, dst, unlock (record b { status = device_failure }))

many_answer-IsBurst :
    (bus : Bus) (i count : ℕ) (r : ℕ × List ℕ × MmioDevice × Mmu)
    → AllBytes r.1
    → IsValid r.3
    → HoldsBytes r.3
    → IsBurst (many_answer bus i count r)
unfolding update_device unlock
many_answer-IsBurst bus i count (ret, dst, dev, mmu) all v held =
    let tidy : (b : Bus) → b.locked ≡ false → b.mmu ≡ mmu → IsTidy b =
      λ b free same. record { is_free = free; valid = rw same v; holds = rw same held } in
    elim (Bool-cases (ret == count)) [
      | inl e ↦ rw e (all, tidy _ refl refl)
      | inr e ↦ rw e (all, tidy _ refl refl)
    ]

many_ok :
    (bus : Bus) (i count : ℕ) (r : ℕ × List ℕ × MmioDevice × Mmu)
    → (if r.0 == count
        then ok (count, r.1, unlock (update_device bus i r.2 r.3))
        else ok (0, r.1, unlock (record (update_device bus i r.2 r.3) { status = device_failure })))
      ≡ ok (many_answer bus i count r)
many_ok bus i count r = elim (Bool-cases (r.0 == count)) [ inl e ↦ rw e | inr e ↦ rw e ]

module _ (bus : Bus) (t : IsTidy bus) (offs count : ℕ) (aw : AccessWidth) (fits : offs < 2 ^ 32)
    (small : count * mult aw < 2 ^ 32) where
  answered : MmioDevice → ℕ × List ℕ × MmioDevice × Mmu
  answered dev = ram_answer dev count (count * mult aw) (read_result bus.mmu offs (count * mult aw))

  answered-IsBurst :
      (b : Bus) (i : ℕ) (dev : MmioDevice) → IsBurst (many_answer b i count (answered dev))
  unfolding answered
  answered-IsBurst b i dev =
      let n = count * mult aw in
      let (bytes, segment) = ram_answer-tidy dev count n (read_result bus.mmu offs n) in
      many_answer-IsBurst b i count (answered dev)
        (rw bytes (read_result-AllBytes bus.mmu offs n t.holds))
        (rw segment (read_result-IsValid bus.mmu offs n t.valid))
        (rw segment (read_result-HoldsBytes bus.mmu offs n t.holds))

  abbrev searched : Bus
  searched = record bus { locked = true; status = bus_ok }

  many_hit : Driver → ℕ → MmioDevice → Result (ℕ × List ℕ × Bus)
  unfolding answered
  many_hit ram i dev = ok (many_answer searched i count (answered dev))
  many_hit csr_mmio i dev = stop null_call

  many_result : Option (ℕ × MmioDevice) → Result (ℕ × List ℕ × Bus)
  unfolding many_hit
  many_result none = ok (0, [], missed bus)
  many_result (some (i, dev)) = many_hit dev.driver i dev

  hit_lem :
      (d : Driver) (i : ℕ) (dev : MmioDevice)
      → find bus.devices offs ≡ some (i, dev)
      → dev.driver ≡ d
      → bus_read_multiple bus offs count aw ≡ many_hit d i dev
  unfolding bus_read_multiple read_many_at dev_read answered many_hit
  hit_lem ram i dev hit e =
      let narrow : u32 offs ≡ offs = omega arith in
      rw
        (
          lock-free bus t.is_free,
          bus_find_device-hit (record bus { locked = true }) offs hit,
          dev_read-ram bus t.is_free t.valid offs fits i dev hit e searched count aw,
          narrow,
          read_ram_lem dev bus.mmu offs count aw t.valid fits small,
        )
        (many_ok searched i count (answered dev))
  hit_lem csr_mmio i dev hit e =
      rw (lock-free bus t.is_free, bus_find_device-hit (record bus { locked = true }) offs hit, e)
        (ground arith)

  bus_read_multiple_lem :
      (o : Option (ℕ × MmioDevice))
      → find bus.devices offs ≡ o
      → bus_read_multiple bus offs count aw ≡ many_result o
  unfolding many_result
  bus_read_multiple_lem none miss =
      unfold bus_read_multiple read_many_at unlock in
      rw (lock-free bus t.is_free, bus_find_device-miss (record bus { locked = true }) offs miss)
  bus_read_multiple_lem (some (i, dev)) hit = hit_lem dev.driver i dev hit refl

  hit-IsBurst :
      (d : Driver) (i : ℕ) (dev : MmioDevice) (r : ℕ × List ℕ × Bus)
      → many_hit d i dev ≡ ok r
      → IsBurst r
  unfolding many_hit
  hit-IsBurst ram i dev r h =
      let same : many_answer searched i count (answered dev) ≡ r = ground arith in
      rw (← same) (answered-IsBurst searched i dev)
  hit-IsBurst csr_mmio i dev r h = cc

  result-IsBurst :
      (o : Option (ℕ × MmioDevice)) (r : ℕ × List ℕ × Bus) → many_result o ≡ ok r → IsBurst r
  unfolding many_result AllBytes
  result-IsBurst none r h =
      let same : (0, [], missed bus) ≡ r = ground arith in
      rw (← same) (tt, record { is_free = refl; valid = t.valid; holds = t.holds })
  result-IsBurst (some (i, dev)) r h = hit-IsBurst dev.driver i dev r h

  -- A burst that returns stored bytes, and left a tidy bus.
  pub bus_read_multiple-IsBurst :
      (r : ℕ × List ℕ × Bus) → bus_read_multiple bus offs count aw ≡ ok r → IsBurst r
  bus_read_multiple-IsBurst r h =
      result-IsBurst (find bus.devices offs) r
        (sym (bus_read_multiple_lem (find bus.devices offs) refl) ∙ h)
