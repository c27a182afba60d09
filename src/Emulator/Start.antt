-- ===== src/Emulator/Start.antt =====
-- What `emulator_run` of src/emulator.c allocates and writes before the core starts.
use criscv.Base.{
  ℕ, ◌+◌, ◌-◌, ◌^◌, ◌<◌, ◌≤◌, ◌≡◌, refl, ◌∙◌, arith, ok, List, length, slice, true, false, some,
  eq→==, leb,
}
use criscv.Mmio.{MmioDevice, ram, byte}
use criscv.Mmu.{written, Mmu, mperm_write, allows, mmu_allocate}
use criscv.Mmu.Loops.{alter, within, overlay, all_allow, all_allow_intro}
use criscv.Mmu.Transfer.{IsValid, after_write}
use criscv.Mmu.Allocate.{aligned, allocate_result, mmu_allocate_lem}
use criscv.Mmu.ReadBack.{write_result-inside, slice-overlay, after_write-IsValid}
use criscv.Memory.Words.{settle}
use criscv.Bus.{Bus, find, put, may_write, is_ready, bus_write_multiple}
use criscv.Bus.Find.{SamePlace, find-put, find-put-elsewhere, find_same}
use criscv.Bus.ReadBack.{settle-SamePlace}
use criscv.Bus.Access.{settled}
use criscv.Bus.Failure.{bus_write_multiple-ram, answer}

-- The mutex is free, the segment is well-formed, and all of it belongs to one RAM device, at place `i`,
-- that is ready and may be written.
pub record IsUsable (i : ℕ) (bus : Bus) : Type 0 where
  pub is_free : bus.locked ≡ false
  pub valid : IsValid bus.mmu
  pub all_ready :
      (a : ℕ)
      → bus.mmu.base ≤ a
      → a < bus.mmu.base + bus.mmu.size
      → (dev : MmioDevice) × (find bus.devices a ≡ some (i, dev))
        × (dev.driver ≡ ram)
        × (may_write dev ≡ true)
        × (is_ready dev.state ≡ true)

-- The segment after a block of `n` bytes, writable and read-after-write, was found in it.
abbrev pub granted : Mmu → ℕ → Mmu
granted mmu n = record mmu {
  curr_vaddr = mmu.curr_vaddr + aligned n;
  perm = alter (λ _. 10) (mmu.curr_vaddr - mmu.base) n mmu.perm;
}

module _ (i : ℕ) (bus : Bus) (u : IsUsable i bus) where
  pub granted-IsUsable :
      (n : ℕ)
      → bus.mmu.curr_vaddr + aligned n < bus.mmu.base + bus.mmu.size
      → IsUsable i (record bus { mmu = granted bus.mmu n })
  granted-IsUsable n room =
      let v = u.valid in
      record { is_free = u.is_free; valid = omega arith; all_ready = u.all_ready }

  pub mmu_allocate-granted :
      (n : ℕ)
      → n < 2 ^ 31
      → bus.mmu.curr_vaddr + aligned n < bus.mmu.base + bus.mmu.size
      → mmu_allocate bus.mmu n 10 ≡ ok (bus.mmu.curr_vaddr, granted bus.mmu n)
  unfolding allocate_result
  mmu_allocate-granted n small room =
      let there_is : leb (bus.mmu.base + bus.mmu.size) (bus.mmu.curr_vaddr + aligned n) ≡ false =
        ground arith in
      mmu_allocate_lem bus.mmu u.valid n 10 small ∙ (rw there_is)

  devices_ready :
      (a : ℕ) (dev dev' : MmioDevice)
      → find bus.devices a ≡ some (i, dev)
      → SamePlace dev dev'
      → is_ready dev'.state ≡ true
      → (b : ℕ) → bus.mmu.base ≤ b
      → b < bus.mmu.base + bus.mmu.size
      → (d : MmioDevice) × (find (put bus.devices i dev') b ≡ some (i, d))
        × (d.driver ≡ ram)
        × (may_write d ≡ true)
        × (is_ready d.state ≡ true)
  devices_ready a dev dev' hit same idle b lo hi =
      let (d, found, is_ram, w, was) = u.all_ready b lo hi in
      let (d', found', s) = find-put-elsewhere bus.devices a b i i dev dev' d hit same found in
      let again = find-put bus.devices a i dev dev' hit same in
      let one = find_same (put bus.devices i dev') a b i dev' d' again found' in
      (d', found', s.same_driver ∙ is_ram, rw s.same_perm w, rw one idle)

  -- Bytes written to a range that may be written.
  pub write-IsUsable :
      (a : ℕ) (src : List ℕ)
      → bus.mmu.base ≤ a
      → 0 < length src
      → a + length src ≤ bus.mmu.base + bus.mmu.size
      → ((j : ℕ) → a - bus.mmu.base ≤ j → j < a - bus.mmu.base + length src → bus.mmu.perm j ≡ 10)
      → (b : Bus) × (bus_write_multiple bus a src (length src) byte ≡ ok (length src, b))
        × (b.mmu ≡ after_write bus.mmu src a)
        × IsUsable i b
  unfolding allows answer
  write-IsUsable a src lo pos hi open_ =
      let (dev, hit, is_ram, w, idle) = u.all_ready a lo (omega arith) in
      let v = u.valid in
      let allowed : all_allow (length src) (a - bus.mmu.base) mperm_write bus.mmu ≡ true =
        all_allow_intro (length src) (a - bus.mmu.base) mperm_write bus.mmu
          λ j p q. rw (open_ j p q) in
      let m = after_write bus.mmu src a in
      let written = write_result-inside bus.mmu src a lo hi allowed in
      (
        settled bus i dev m,
        bus_write_multiple-ram bus u.is_free v a (omega arith) i dev hit is_ram w idle src
              (length src) byte (omega arith) (omega arith)
            ∙ (rw (written, eq→== (length src) (length src) refl)),
        refl,
        record {
          is_free = refl;
          valid = after_write-IsValid bus.mmu src a v;
          all_ready = devices_ready a dev (settle dev m) hit (settle-SamePlace dev m) refl;
        },
      )

-- An argument of the program, with its zero byte, in a block of its own.
pub record Placed (i : ℕ) (bus : Bus) (src : List ℕ) (b : Bus) : Type 0 where
  pub usable : IsUsable i b
  pub same_base : b.mmu.base ≡ bus.mmu.base
  pub same_size : b.mmu.size ≡ bus.mmu.size
  pub next_block : b.mmu.curr_vaddr ≡ bus.mmu.curr_vaddr + aligned (length src)
  pub text : slice b.mmu.bytes (bus.mmu.curr_vaddr - bus.mmu.base) (length src) ≡ src
  pub content_is : b.mmu.bytes ≡ overlay src (bus.mmu.curr_vaddr - bus.mmu.base) bus.mmu.bytes
  pub below :
      (j : ℕ)
      → j < bus.mmu.curr_vaddr - bus.mmu.base
      → (b.mmu.bytes j ≡ bus.mmu.bytes j) × (b.mmu.perm j ≡ bus.mmu.perm j)

module _ (i : ℕ) (bus : Bus) (u : IsUsable i bus) (src : List ℕ) (pos : 0 < length src)
    (small : length src < 2 ^ 31)
    (room : bus.mmu.curr_vaddr + aligned (length src) < bus.mmu.base + bus.mmu.size) where
  abbrev at : ℕ
  at = bus.mmu.curr_vaddr - bus.mmu.base

  below_block :
      (j : ℕ)
      → j < at
      → (overlay src at bus.mmu.bytes j ≡ bus.mmu.bytes j)
        × (alter written at (length src) (alter (λ _. 10) at (length src) bus.mmu.perm) j
            ≡ bus.mmu.perm j)
  below_block j h = let out : within at (length src) j ≡ false = ground arith in (rw out, rw out)

  place_argument_lem :
      (b : Bus)
      → b.mmu ≡ after_write (granted bus.mmu (length src)) src bus.mmu.curr_vaddr
      → IsUsable i b
      → Placed i bus src b
  place_argument_lem b same usable = record {
    usable = usable;
    same_base = rw same;
    same_size = rw same;
    next_block = rw same;
    content_is = rw same;
    text = rw same (slice-overlay src at bus.mmu.bytes);
    below = λ j h. rw same (below_block j h);
  }

  pub place_argument :
      (b : Bus) × (mmu_allocate bus.mmu (length src) 10
        ≡ ok (bus.mmu.curr_vaddr, granted bus.mmu (length src)))
      × (bus_write_multiple
            (record bus { mmu = granted bus.mmu (length src) })
            bus.mmu.curr_vaddr
            src
            (length src)
            byte
          ≡ ok (length src, b))
      × Placed i bus src b
  place_argument =
      let v = u.valid in
      let here = record bus { mmu = granted bus.mmu (length src) } in
      let (b, wrote, same, usable) =
        write-IsUsable i here (granted-IsUsable i bus u (length src) room) bus.mmu.curr_vaddr src
          v.curr_low pos (omega arith)
          λ j p q. let inside : within at (length src) j ≡ true = ground arith in rw inside in
      (
        b,
        mmu_allocate-granted i bus u (length src) small room,
        wrote,
        place_argument_lem b same usable,
      )
