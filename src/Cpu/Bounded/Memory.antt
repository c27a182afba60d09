-- ===== src/Cpu/Bounded/Memory.antt =====
-- The stage `memory_access` keeps the bounds.
use mathlib.Core.Path.{subst}
use criscv.Base.{
  ℕ, ◌^◌, ◌<◌, ◌≡◌, refl, sym, ◌∙◌, arith, Bool, true, false, if◌then◌else◌, Result, ok, stop,
  ◌>>=◌,
}
use criscv.Bus.{Bus, find, bus_read_single, bus_write_single, BusStatus, is_bus_ok}
use criscv.Mmio.{AccessWidth}
use criscv.Bus.Total.{load_result, bus_read_single_lem, bus_write_single_lem}
use criscv.Bus.Bytes.{IsTidy, load_result-IsTidy, store_result-IsTidy}
use criscv.Cpu.State.{Core, cause_trap}
use criscv.Cpu.Stages.{memory_access, report, load_cause, store_cause}
use criscv.Cpu.Sound.{after-ok}
use criscv.Cpu.Bounds.{cause_trap-IsNarrow, IsNarrow}
use criscv.Cpu.Bounded.{same_bus}

-- `report`, by whether the access succeeded.
reported-IsNarrow :
    (good : Bool) (cause : ℕ) (core c : Core) (bus b : Bus)
    → IsNarrow core
    → if◌then◌else◌ {A = Result (Core × Bus)} good
        (ok (core, bus))
        (cause_trap core cause >>= λ c'. ok (c', bus))
      ≡ ok (c, b)
    → IsNarrow c × (bus ≡ b)
reported-IsNarrow true cause core c bus b n h =
    let same : core ≡ c = ground arith in (rw (← same) n, ground arith)
reported-IsNarrow false cause core c bus b n h =
    let (c', e, same) = after-ok (λ x. x) (cause_trap core cause) c bus b h in
    (
      rw (← same) (cause_trap-IsNarrow core c' cause n e),
      same_bus (λ x. x) (cause_trap core cause) c bus b h,
    )

report-IsNarrow :
    (cause : BusStatus → ℕ) (core c : Core) (bus b : Bus)
    → IsNarrow core
    → report cause core bus ≡ ok (c, b)
    → IsNarrow c × (bus ≡ b)
unfolding report
report-IsNarrow cause core c bus b n h =
    reported-IsNarrow (is_bus_ok bus.status) (cause bus.status) core c bus b n h

-- `memory_access`, by what the bus answers.
accessed-IsNarrow :
    (loads stores : Bool) (m : Result (ℕ × Bus)) (n : Result Bus) (core c : Core) (bus b : Bus)
    → IsNarrow core
    → IsTidy bus
    → ((v : ℕ) (b' : Bus) → m ≡ ok (v, b') → (v < 2 ^ 32) × IsTidy b')
    → ((b' : Bus) → n ≡ ok b' → IsTidy b')
    → (if loads
        then (m >>= λ r. report load_cause (record core { alu_out = r.0 }) r.1)
        else (if stores then (n >>= λ b'. report store_cause core b') else ok (core, bus)))
      ≡ ok (c, b)
    → IsNarrow c × IsTidy b
accessed-IsNarrow true stores (stop why) n core c bus b w t load store h = cc
accessed-IsNarrow true stores (ok (v, b')) n core c bus b w t load store h =
    let (fits, tidy) = load v b' refl in
    let with_value : IsNarrow (record core { alu_out = v }) = record {
      pc_fits = w.pc_fits;
      out_fits = fits;
      rs1_fits = w.rs1_fits;
      rs2_fits = w.rs2_fits;
      target_fits = w.target_fits;
      offset_fits = w.offset_fits;
    } in
    let (n', same) = report-IsNarrow load_cause (record core { alu_out = v }) c b' b with_value h in
    (n', rw (← same) tidy)
accessed-IsNarrow false true m (stop why) core c bus b w t load store h = cc
accessed-IsNarrow false true m (ok b') core c bus b w t load store h =
    let (n', same) = report-IsNarrow store_cause core c b' b w h in
    (n', rw (← same) (store b' refl))
accessed-IsNarrow false false m n core c bus b w t load store h =
    let same : core ≡ c = ground arith in
    let kept : bus ≡ b = ground arith in (rw (← same) w, rw (← kept) t)

load-IsTidy :
    (bus b : Bus) (offs v : ℕ) (aw : AccessWidth)
    → IsTidy bus
    → offs < 2 ^ 32
    → bus_read_single bus offs aw ≡ ok (v, b)
    → (v < 2 ^ 32) × IsTidy b
load-IsTidy bus b offs v aw t fits h =
    let out = load_result (find bus.devices offs) bus offs aw in
    let e : ok out ≡ ok (v, b) = sym (bus_read_single_lem bus t.is_free t.valid offs fits aw) ∙ h in
    let same : out ≡ (v, b) = ground arith in
    let small = load_result-IsTidy (find bus.devices offs) bus offs aw t in
    subst (λ (q : ℕ × Bus). (q.0 < 2 ^ 32) × IsTidy q.1) same small

store-IsTidy :
    (bus b : Bus) (offs value : ℕ) (aw : AccessWidth)
    → IsTidy bus
    → offs < 2 ^ 32
    → bus_write_single bus offs value aw ≡ ok b
    → IsTidy b
store-IsTidy bus b offs value aw t fits h =
    store_result-IsTidy (find bus.devices offs) bus b offs value aw t
      (sym (bus_write_single_lem bus t.is_free t.valid offs fits aw value) ∙ h)

pub memory_access-IsNarrow :
    (core c : Core) (bus b : Bus)
    → IsNarrow core
    → IsTidy bus
    → memory_access core bus ≡ ok (c, b)
    → IsNarrow c × IsTidy b
unfolding memory_access
memory_access-IsNarrow core c bus b n t h =
    let dec = core.decoded in
    accessed-IsNarrow dec.read_mem dec.write_mem _ _ core c bus b n t
      (λ v b' e. load-IsTidy bus b' dec.mem_offset v dec.mem_access_width t n.offset_fits e)
      (λ b' e.
        store-IsTidy bus b' dec.mem_offset core.alu_out dec.mem_access_width t n.offset_fits e)
      h
