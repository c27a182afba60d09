-- ===== src/Cpu/Words.antt =====
-- The words that a burst gives, and those that single reads give.
use criscv.Base.{
  ℕ, ◌+◌, ◌-◌, ◌*◌, ◌<◌, ◌≤◌, ◌≡◌, ◌∙◌, arith, true, false, some, List, slice, ok, le→ltb,
}
use criscv.Mmio.{MmioDevice, word, ram}
use criscv.Mmu.{mmu_ok, mperm_read}
use criscv.Mmu.Loops.{all_allow, all_allow_intro, all_allow-at}
use criscv.Mmu.Transfer.{IsValid, read_result}
use criscv.Memory.{read_value}
use criscv.Bus.{Bus, find, bus_read_single, bus_read_multiple}
use criscv.Bus.Access.{settled, bus_read_single-ram}
use criscv.Bus.Multiple.{bus_read_multiple-ram}
use criscv.Cpu.Stages.{word_at}
use criscv.Cpu.Prefetch.{word_in, word_at-slice}

module _ (bus : Bus) (free : bus.locked ≡ false) (v : IsValid bus.mmu) (i : ℕ) (dev : MmioDevice)
    (is_ram : dev.driver ≡ ram) where
  single_word :
      (a : ℕ)
      → find bus.devices a ≡ some (i, dev)
      → bus.mmu.base ≤ a
      → a + 4 ≤ bus.mmu.base + bus.mmu.size
      → all_allow 4 (a - bus.mmu.base) mperm_read bus.mmu ≡ true
      → bus_read_single bus a word
        ≡ ok (word_in bus.mmu a, settled bus i dev (record bus.mmu { state = mmu_ok }))
  unfolding read_result read_value
  single_word a hit lo hi allowed =
      bus_read_single-ram bus free v a (omega arith) i dev hit is_ram word
      ∙ (rw (le→ltb a bus.mmu.base lo, le→ltb (bus.mmu.base + bus.mmu.size) (a + 4) hi, allowed))

  -- Where one RAM device answers at the start and at a word further on, in a well-formed segment whose
  -- bytes in the range can be read, and the mutex is free, `bus_read_multiple` of `n` words gives
  -- at each place the word that `bus_read_single` gives at its address, and both leave the same bus.
  pub bus_read_multiple-bus_read_single :
      (offs n k : ℕ)
      → find bus.devices offs ≡ some (i, dev)
      → find bus.devices (offs + 4 * k) ≡ some (i, dev)
      → k < n
      → bus.mmu.base ≤ offs
      → offs + n * 4 ≤ bus.mmu.base + bus.mmu.size
      → all_allow (n * 4) (offs - bus.mmu.base) mperm_read bus.mmu ≡ true
      → (bytes : List ℕ) × (b : Bus) × (bus_read_multiple bus offs n word ≡ ok (n, bytes, b))
        × (bus_read_single bus (offs + 4 * k) word ≡ ok (word_at bytes k, b))
  bus_read_multiple-bus_read_single offs n k hit hit' less lo hi allowed =
      let first = offs - bus.mmu.base in
      let there : offs + 4 * k - bus.mmu.base ≡ first + 4 * k = omega arith in
      let part : all_allow 4 (offs + 4 * k - bus.mmu.base) mperm_read bus.mmu ≡ true =
        all_allow_intro 4 (offs + 4 * k - bus.mmu.base) mperm_read bus.mmu λ j from to.
          all_allow-at (n * 4) first mperm_read bus.mmu j allowed (omega arith) (omega arith) in
      (
        slice bus.mmu.bytes first (n * 4),
        settled bus i dev (record bus.mmu { state = mmu_ok }),
        bus_read_multiple-ram bus free v offs (omega arith) i dev hit is_ram n word (omega arith) lo
            hi allowed,
        rw (word_at-slice bus.mmu offs k n lo less)
            (single_word (offs + 4 * k) hit' (omega arith) (omega arith) part),
      )
