-- ===== src/Memory/Words.antt =====
-- Values of the three widths through the RAM device.
use criscv.Base.{
  ℕ, ◌*◌, ◌%◌, ◌^◌, ◌<◌, ◌≡◌, refl, sym, ◌∙◌, arith, length, ok, u64, true, if◌then◌else◌,
}
use criscv.Base.Bits.{and_mask}
use criscv.Mmio.{AccessWidth, byte, halfword, word, MmioDevice, ready, error}
use criscv.Memory.{
  le_bytes, le_value, mult, write_value, read_value, is_mmu_ok, read_ram_single, write_ram_single,
  write_ram, read_ram,
}
use criscv.Mmu.{Mmu}
use criscv.Mmu.Transfer.{IsValid, write_result, read_result, mmu_write_from_lem, mmu_read_into_lem}

pub length-write_value : (aw : AccessWidth) (v : ℕ) → length (write_value aw v) ≡ mult aw
unfolding write_value
length-write_value byte v = refl
length-write_value halfword v = refl
length-write_value word v = refl

-- The number of values of a width.
abbrev pub width_mod : AccessWidth → ℕ
width_mod byte = 2 ^ 8
width_mod halfword = 2 ^ 16
width_mod word = 2 ^ 32

pub read_value-write_value :
    (aw : AccessWidth) (old v : ℕ) → read_value aw old (write_value aw v) ≡ v % width_mod aw
unfolding read_value write_value le_bytes le_value
read_value-write_value byte old v = omega (arith, and_mask 8 v)
read_value-write_value halfword old v = omega (arith, and_mask 16 v)
read_value-write_value word old v = omega arith

small : (aw : AccessWidth) → mult aw < 2 ^ 32
small byte = omega arith
small halfword = omega arith
small word = omega arith

one_read : (aw : AccessWidth) → u64 (1 * mult aw) ≡ mult aw
one_read byte = refl
one_read halfword = refl
one_read word = refl

one_write : (aw : AccessWidth) (v : ℕ) → u64 (1 * mult aw) ≡ length (write_value aw v)
one_write aw v = one_read aw ∙ sym (length-write_value aw v)

read_result_ok :
    (mmu : Mmu) (offs n : ℕ)
    → is_mmu_ok (read_result mmu offs n).2.state ≡ true
    → (read_result mmu offs n).0 ≡ n
unfolding read_result
read_result_ok mmu offs n h = ground arith

-- The state that a transfer leaves in the device.
abbrev pub settle : MmioDevice → Mmu → MmioDevice
settle ram m =
    if is_mmu_ok m.state then record ram { state = ready } else record ram { state = error }

module _ (ram : MmioDevice) (mmu : Mmu) (v : IsValid mmu) (offs : ℕ) (aw : AccessWidth)
    (fits : offs < 2 ^ 32) where
  -- A store always returns; the segment is then as `write_result` says.
  pub write_ram_single_lem :
      (value : ℕ)
      → let m = (write_result mmu (write_value aw value) offs).1 in
        write_ram_single ram mmu offs value aw ≡ ok (settle ram m, m)
  unfolding write_ram_single write_ram
  write_ram_single_lem value =
      rw
        (
          one_write aw value,
          mmu_write_from_lem mmu v (write_value aw value) offs fits
              (rw length-write_value (small aw)),
        )
        (ground arith)

  -- A load always returns, and changes only the two states.
  pub read_ram_single_lem :
      (old : ℕ)
      → let r = read_result mmu offs (mult aw) in
        read_ram_single ram mmu old offs aw ≡ ok (read_value aw old r.1, settle ram r.2, r.2)
  unfolding read_ram_single read_ram
  read_ram_single_lem old =
      rw (one_read aw, mmu_read_into_lem mmu v offs (mult aw) fits (small aw))
        (ground (arith, read_result_ok mmu offs (mult aw)))
