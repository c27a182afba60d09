-- ===== src/Cpu/Prefetch.antt =====
-- The prefetched words: every fetch gives the word of the memory at `pc`.
use criscv.Base.{
  ℕ, zero, suc, ◌+◌, ◌-◌, ◌*◌, ◌<◌, ◌≤◌, ◌^◌, ◌≡◌, refl, ap, sym, ◌∙◌, arith, true, false, some,
  inl, inr, Bool-cases, List, take, drop, slice, ok, ◌==◌, le→leb,
}
use criscv.Mmio.{MmioDevice, word, ram}
use criscv.Mmu.{Mmu, mmu_ok, mperm_read}
use criscv.Mmu.Loops.{all_allow}
use criscv.Mmu.Transfer.{IsValid}
use criscv.Memory.{le_value}
use criscv.Bus.{Bus, find}
use criscv.Bus.Multiple.{bus_read_multiple-ram}
use criscv.Bus.Access.{settled}
use criscv.Cpu.State.{Core}
use criscv.Cpu.Stages.{fetch, fill, filled, next_prefetched, word_at}

take-slice : {A : Type 0} (f : ℕ → A) (i n l : ℕ) → n ≤ l → take n (slice f i l) ≡ slice f i n
take-slice f i zero l h = refl
take-slice f i (suc n) zero h = absurd (omega arith)
take-slice f i (suc n) (suc l) h = rw (take-slice f (i + 1) n l (omega arith))

drop-slice :
    {A : Type 0} (f : ℕ → A) (i m l : ℕ) → m ≤ l → drop m (slice f i l) ≡ slice f (i + m) (l - m)
drop-slice f i zero l h =
    let here : i + 0 ≡ i = omega arith in let all : l - 0 ≡ l = omega arith in rw (here, all)
drop-slice f i (suc m) zero h = absurd (omega arith)
drop-slice f i (suc m) (suc l) h =
    let next : i + suc m ≡ i + 1 + m = omega arith in
    let fewer : suc l - suc m ≡ l - m = omega arith in
    rw (next, fewer) (drop-slice f (i + 1) m l (omega arith))

-- The word of the memory at an address.
abbrev pub word_in : Mmu → ℕ → ℕ
word_in mmu a = le_value (slice mmu.bytes (a - mmu.base) 4)

pub word_at-slice :
    (mmu : Mmu) (pc k n : ℕ)
    → mmu.base ≤ pc
    → k < n
    → word_at (slice mmu.bytes (pc - mmu.base) (n * 4)) k ≡ word_in mmu (pc + 4 * k)
unfolding word_at
word_at-slice mmu pc k n lo h =
    let i = pc - mmu.base in
    let here : i + 4 * k ≡ pc + 4 * k - mmu.base = omega arith in
    let from = drop-slice mmu.bytes i (4 * k) (n * 4) (omega arith) in
    let cut = take-slice mmu.bytes (i + 4 * k) 4 (n * 4 - 4 * k) (omega arith) in
    ap (λ xs. le_value (take 4 xs)) from ∙ ap le_value (cut ∙ ap (λ j. slice mmu.bytes j 4) here)

-- The prefetched words that are left are those of the memory from `pc` on.
pub record Mirrors (core : Core) (mmu : Mmu) : Type 0 where
  pub left : core.prefetch_cnt ≤ 7
  pub mirrored :
      (k : ℕ)
      → k < core.prefetch_cnt
      → core.prefetch (7 - core.prefetch_cnt + k) ≡ word_in mmu (core.pc + 4 * k)

abbrev pub advanced : Core → Core
advanced core = record core { pc = core.pc + 4 }

-- The core after the next word was taken.
abbrev pub taken_next : Core → Core
taken_next core = record core {
  instruction = core.prefetch (7 - core.prefetch_cnt);
  prefetch_cnt = core.prefetch_cnt - 1;
}

module _ (core : Core) (mmu : Mmu) (m : Mirrors core mmu) (pos : 0 < core.prefetch_cnt) where
  pub first : core.prefetch (7 - core.prefetch_cnt) ≡ word_in mmu core.pc
  first =
      let e = m.mirrored 0 pos in
      let at : 7 - core.prefetch_cnt + 0 ≡ 7 - core.prefetch_cnt = omega arith in
      let here : core.pc + 4 * 0 ≡ core.pc = omega arith in
      ap core.prefetch (sym at) ∙ e ∙ ap (word_in mmu) here

  pub rest : Mirrors (advanced (taken_next core)) mmu
  rest =
      let n = core.prefetch_cnt in
      record {
        left = omega (arith, m.left);
        mirrored = λ k h.
            let at : 7 - (n - 1) + k ≡ 7 - n + suc k = omega (arith, m.left) in
            let here : core.pc + 4 * suc k ≡ core.pc + 4 + 4 * k = omega arith in
            ap core.prefetch at ∙ m.mirrored (suc k) (omega arith) ∙ ap (word_in mmu) here;
      }

-- The core after a fill.
abbrev pub refilled : Core → List ℕ → Core
refilled core bytes = record core {
  instruction = word_at bytes 0;
  prefetch = λ k. word_at bytes (k + 1);
  prefetch_cnt = 7;
}

module _ (core : Core) (mmu : Mmu) (lo : mmu.base ≤ core.pc) where
  abbrev pub fetched_bytes : List ℕ
  fetched_bytes = slice mmu.bytes (core.pc - mmu.base) 32

  pub refilled-first : word_at fetched_bytes 0 ≡ word_in mmu core.pc
  refilled-first =
      let here : core.pc + 4 * 0 ≡ core.pc = omega arith in
      word_at-slice mmu core.pc 0 8 lo (omega arith) ∙ ap (word_in mmu) here

  pub refilled-Mirrors : Mirrors (advanced (refilled core fetched_bytes)) mmu
  refilled-Mirrors = record {
    left = omega arith;
    mirrored = λ k h.
        let at : 7 - 7 + k + 1 ≡ k + 1 = omega arith in
        let here : core.pc + 4 * (k + 1) ≡ core.pc + 4 + 4 * k = omega arith in
        ap (word_at fetched_bytes) at
        ∙ word_at-slice mmu core.pc (k + 1) 8 lo (omega arith)
        ∙ ap (word_in mmu) here;
  }

-- A fetch gives the word that the memory holds at `pc`, prefetched or not, and what stays prefetched
-- are again the words of the memory from the next address on, if it was so before: with the mutex
-- free, the segment well-formed, a RAM device at `pc` in the 32-bit space, and 32 readable bytes there.
-- The memory stays as it is.
pub fetch-word_in :
    (core : Core) (bus : Bus) (i : ℕ) (dev : MmioDevice)
    → Mirrors core bus.mmu
    → bus.locked ≡ false
    → IsValid bus.mmu
    → core.pc < 2 ^ 32
    → find bus.devices core.pc ≡ some (i, dev)
    → dev.driver ≡ ram
    → bus.mmu.base ≤ core.pc
    → core.pc + 32 ≤ bus.mmu.base + bus.mmu.size
    → all_allow 32 (core.pc - bus.mmu.base) mperm_read bus.mmu ≡ true
    → (c : Core) × (b : Bus) × (fetch core bus ≡ ok (c, b))
      × (c.pc ≡ core.pc)
      × (c.instruction ≡ word_in bus.mmu core.pc)
      × Mirrors (record c { pc = core.pc + 4 }) b.mmu
      × (b.mmu.bytes ≡ bus.mmu.bytes)
unfolding fetch fill filled next_prefetched
fetch-word_in core bus i dev m free v fits hit is_ram lo hi allowed =
    elim (Bool-cases (core.prefetch_cnt == 0)) [
      | inl empty ↦ (
        refilled core (fetched_bytes core bus.mmu lo),
        settled bus i dev (record bus.mmu { state = mmu_ok }),
        rw (
          empty,
          bus_read_multiple-ram bus free v core.pc fits i dev hit is_ram 8 word (omega arith) lo hi
              allowed,
        ),
        refl,
        refilled-first core bus.mmu lo,
        refilled-Mirrors core (record bus.mmu { state = mmu_ok }) lo,
        refl,
      )
      | inr some_left ↦ (
        taken_next core,
        bus,
        rw (some_left, le→leb core.prefetch_cnt 7 m.left),
        refl,
        first core bus.mmu m (ground arith),
        rest core bus.mmu m (ground arith),
        refl,
      )
    ]
