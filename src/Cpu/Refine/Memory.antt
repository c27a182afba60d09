-- ===== src/Cpu/Refine/Memory.antt =====
-- The memory behind the bus against that of the abstract machine: a read keeps them alike, and a store
-- changes both in the same way.
use criscv.Base.{
  ℕ, zero, suc, ◌+◌, ◌-◌, ◌<◌, ◌≤◌, ◌≡◌, refl, sym, ap, ◌∙◌, arith, true, false, ◌⊎◌, some, List,
  slice, length, get_or, bit_and, bit_or, inl, inr, Bool-cases, ◌||◌,
}
use criscv.Base.Bits.{and_mask}
use criscv.Mmio.{MmioDevice, ram}
use criscv.Mmu.{mmu_ok, mperm_read, mperm_write, mperm_raw, allows, written}
use criscv.Mmu.Loops.{overlay, alter, within, all_allow, all_allow_intro}
use criscv.Mmu.Transfer.{after_write}
use criscv.Mmu.ReadBack.{written_readable, after_write-IsValid}
use criscv.Memory.{le_value}
use criscv.Bus.{Bus, find, put, may_write}
use criscv.Bus.Loaded.{number_at-slice}
use criscv.Bus.Find.{SamePlace, find-put-elsewhere}
use criscv.Bus.ReadBack.{settle-SamePlace}
use criscv.Bus.Access.{settled}
use criscv.Memory.Words.{settle}
use criscv.Spec.Machine.{Machine, number_at, byte_of, covered, put_bytes}
use criscv.Cpu.Refine.{Layout, Backs}

module _ (lay : Layout) (bus : Bus) (m : Machine) (k : Backs lay bus m) where
  -- A range of the segment as a number.
  pub number_at-Backs :
      (a n : ℕ)
      → lay.start ≤ a
      → a + n ≤ lay.end
      → number_at m.memory a n ≡ le_value (slice bus.mmu.bytes (a - bus.mmu.base) n)
  number_at-Backs a n lo hi = number_at-slice m.memory bus.mmu.bytes n a (a - bus.mmu.base) λ j hj.
      let low = k.starts in
      k.same_bytes (a + j) (omega arith) (omega arith) ∙ ap bus.mmu.bytes (omega arith)

  pub readable_range :
      (a n : ℕ)
      → lay.start ≤ a
      → a + n ≤ lay.end
      → ((j : ℕ) → a ≤ j → j < a + n → allows (bus.mmu.perm (j - bus.mmu.base)) mperm_read ≡ true)
      → all_allow n (a - bus.mmu.base) mperm_read bus.mmu ≡ true
  readable_range a n lo hi h = all_allow_intro n (a - bus.mmu.base) mperm_read bus.mmu λ j low high.
      let starts = k.starts in
      let at : j + bus.mmu.base - bus.mmu.base ≡ j = omega arith in
      ap (λ (x : ℕ). allows (bus.mmu.perm x) mperm_read) (sym at)
      ∙ h (j + bus.mmu.base) (omega arith) (omega arith)

  -- The devices after one of them changed its state.
  devices_stay :
      (a : ℕ) (dev dev' : MmioDevice)
      → find bus.devices a ≡ some (lay.device, dev)
      → SamePlace dev dev'
      → (b : ℕ) → lay.start ≤ b
      → b < lay.end
      → (d : MmioDevice) × (find (put bus.devices lay.device dev') b ≡ some (lay.device, d))
        × (d.driver ≡ ram)
        × (may_write d ≡ true)
  devices_stay a dev dev' hit same b lo hi =
      let (d, found, is_ram, w) = k.all_ram b lo hi in
      let (d', found', s) =
        find-put-elsewhere bus.devices a b lay.device lay.device dev dev' d hit same found in
      (d', found', s.same_driver ∙ is_ram, rw s.same_perm w)

  pub settled-Backs :
      (a : ℕ) (dev : MmioDevice)
      → find bus.devices a ≡ some (lay.device, dev)
      → Backs lay (settled bus lay.device dev (record bus.mmu { state = mmu_ok })) m
  settled-Backs a dev hit =
      let v = k.valid in
      let mmu = record bus.mmu { state = mmu_ok } in
      record {
        is_free = refl;
        valid = record {
          bytes_fit = v.bytes_fit;
          perm_fit = v.perm_fit;
          dirty_fit = v.dirty_fit;
          in_space = v.in_space;
          not_null = v.not_null;
          curr_low = v.curr_low;
          curr_high = v.curr_high;
        };
        starts = k.starts;
        ends = k.ends;
        code_inside = k.code_inside;
        data_inside = k.data_inside;
        apart = k.apart;
        all_ram = devices_stay a dev (settle dev mmu) hit (settle-SamePlace dev mmu);
        same_bytes = k.same_bytes;
        may_read = k.may_read;
        code_readable = k.code_readable;
        data_writable = k.data_writable;
        data_opens = k.data_opens;
      }

opened_writable : (b : ℕ) → b < 2 → bit_and (bit_or 6 b) mperm_write ≡ mperm_write
opened_writable zero h = refl
opened_writable (suc zero) h = refl
opened_writable (suc (suc b)) h = absurd (omega arith)

written_writable : (p : ℕ) → allows p mperm_write ≡ true → allows (written p) mperm_write ≡ true
unfolding allows written
written_writable p h = ground (arith, opened_writable (bit_and p 1), and_mask 1 p)

-- A store of `src`, the low bytes of `v`, to the data.
module _ (lay : Layout) (bus : Bus) (m : Machine) (k : Backs lay bus m) (a v : ℕ) (src : List ℕ)
    (lo : lay.data_start ≤ a) (hi : a + length src ≤ lay.data_end)
    (same : (j : ℕ) → j < length src → get_or src j 0 ≡ byte_of v j) where
  abbrev first : ℕ
  first = a - bus.mmu.base

  abbrev stored_memory : Machine
  stored_memory = record m {
    memory = put_bytes a (length src) v m.memory;
    readable = λ j. covered a (length src) j || m.readable j;
  }

  within-covered :
      (b : ℕ)
      → lay.start ≤ b
      → within first (length src) (b - bus.mmu.base) ≡ covered a (length src) b
  within-covered b low = let starts = k.starts in let inside = k.data_inside.0 in ground arith

  abbrev opened : ℕ → ℕ
  opened = alter written first (length src) bus.mmu.perm

  stored_bytes :
      (b : ℕ)
      → lay.start ≤ b
      → b < lay.end
      → put_bytes a (length src) v m.memory b ≡ overlay src first bus.mmu.bytes (b - bus.mmu.base)
  unfolding put_bytes
  stored_bytes b low high = elim (Bool-cases (covered a (length src) b)) [
    | inl e ↦
        let starts = k.starts in
        let inside = k.data_inside.0 in
        let above : a ≤ b = ground arith in
        let below : b < a + length src = ground arith in
        let at : b - bus.mmu.base - first ≡ b - a = omega arith in
        rw (within-covered b low, e)
          (sym (ap (λ (x : ℕ). get_or src x 0) at ∙ same (b - a) (omega arith)))
    | inr e ↦ rw (within-covered b low, e) (k.same_bytes b low high)
  ]

  opened_read :
      (b : ℕ)
      → lay.start ≤ b
      → allows (bus.mmu.perm (b - bus.mmu.base)) mperm_read ≡ true
      → allows (opened (b - bus.mmu.base)) mperm_read ≡ true
  opened_read b low h = elim (Bool-cases (within first (length src) (b - bus.mmu.base))) [
    | inl e ↦ rw e (written_readable (bus.mmu.perm (b - bus.mmu.base)) (inr h))
    | inr e ↦ rw e h
  ]

  opened_data :
      (b : ℕ)
      → lay.data_start ≤ b
      → b < lay.data_end
      → (allows (opened (b - bus.mmu.base)) mperm_write ≡ true)
        × ((bit_and (opened (b - bus.mmu.base)) mperm_raw ≡ mperm_raw)
            ⊎ (allows (opened (b - bus.mmu.base)) mperm_read ≡ true))
  opened_data b low high =
      let w = k.data_writable b low high in
      let o = k.data_opens b low high in
      let p = bus.mmu.perm (b - bus.mmu.base) in
      elim (Bool-cases (within first (length src) (b - bus.mmu.base))) [
        | inl e ↦ rw e (written_writable p w, inr (written_readable p o))
        | inr e ↦ rw e (w, o)
      ]

  code_stays :
      (b : ℕ)
      → lay.code_start ≤ b
      → b < lay.code_end
      → within first (length src) (b - bus.mmu.base) ≡ false
  code_stays b low high =
      let starts = k.starts in
      let inside = k.code_inside.0 in
      let inside_data = k.data_inside.0 in let apart = k.apart in ground arith

  stored_reads :
      (b : ℕ)
      → lay.start ≤ b
      → b < lay.end
      → (covered a (length src) b || m.readable b) ≡ true
      → allows (opened (b - bus.mmu.base)) mperm_read ≡ true
  stored_reads b low high h = elim (Bool-cases (covered a (length src) b)) [
    | inl e ↦
        let above : lay.data_start ≤ b = ground arith in
        let below : b < lay.data_end = ground arith in
        rw (within-covered b low, e)
          (written_readable (bus.mmu.perm (b - bus.mmu.base)) (k.data_opens b above below))
    | inr e ↦ rw (within-covered b low, e) (k.may_read b low high (ground arith))
  ]

  stored-Backs :
      (dev : MmioDevice)
      → find bus.devices a ≡ some (lay.device, dev)
      → Backs lay (settled bus lay.device dev (after_write bus.mmu src a)) stored_memory
  stored-Backs dev hit =
      let mmu = after_write bus.mmu src a in
      record {
        is_free = refl;
        valid = after_write-IsValid bus.mmu src a k.valid;
        starts = k.starts;
        ends = k.ends;
        code_inside = k.code_inside;
        data_inside = k.data_inside;
        apart = k.apart;
        all_ram = devices_stay lay bus m k a dev (settle dev mmu) hit (settle-SamePlace dev mmu);
        same_bytes = stored_bytes;
        may_read = stored_reads;
        code_readable = λ b low high. rw (code_stays b low high) (k.code_readable b low high);
        data_writable = λ b low high. (opened_data b low high).0;
        data_opens = λ b low high. (opened_data b low high).1;
      }

  pub stored_size-Backs :
      (n : ℕ) (dev : MmioDevice)
      → length src ≡ n
      → find bus.devices a ≡ some (lay.device, dev)
      → Backs lay (settled bus lay.device dev (after_write bus.mmu src a)) record m {
        memory = put_bytes a n v m.memory;
        readable = λ j. covered a n j || m.readable j;
      }
  stored_size-Backs n dev e hit = rw (← e) (stored-Backs dev hit)
