-- ===== src/Bus/Bytes.antt =====
-- That the elements of the segment are bytes, and with them what the bus reads and writes.
use criscv.Base.{
  ℕ, zero, suc, ◌+◌, ◌-◌, ◌^◌, ◌<◌, ◌≡◌, refl, arith, false, Option, none, some, ok, List, [], ◌∷◌,
  slice, take, drop, get_or, u8,
}
use criscv.Mmio.{AccessWidth, byte, halfword, word, MmioDevice, Driver, ram, csr_mmio}
use criscv.Mmu.{Mmu}
use criscv.Mmu.Loops.{overlay}
use criscv.Mmu.Transfer.{IsValid, write_result, read_result}
use criscv.Mmu.Safe.{read_result-IsValid, write_result-IsValid}
use criscv.Memory.{mult, le_value, le_bytes, read_value, write_value}
use criscv.Bus.{Bus, address_not_found}
use criscv.Bus.Total.{load_hit, load_result, store_hit, store_result}

-- Numbers that fit a `uint8_t`.
unfoldable pub AllBytes : List ℕ → Type 0
AllBytes [] = Unit {0}
AllBytes (x ∷ xs) = (x < 256) × AllBytes xs

abbrev pub HoldsBytes : Mmu → Type 0
HoldsBytes mmu = (i : ℕ) → mmu.bytes i < 256

slice-AllBytes : (f : ℕ → ℕ) (i n : ℕ) → ((j : ℕ) → f j < 256) → AllBytes (slice f i n)
unfolding AllBytes
slice-AllBytes f i zero h = tt
slice-AllBytes f i (suc n) h = (h i, slice-AllBytes f (i + 1) n h)

pub drop-AllBytes : (n : ℕ) (xs : List ℕ) → AllBytes xs → AllBytes (drop n xs)
unfolding AllBytes
drop-AllBytes zero xs h = h
drop-AllBytes (suc n) [] h = h
drop-AllBytes (suc n) (x ∷ xs) h = drop-AllBytes n xs h.1

get_or_lt : (xs : List ℕ) (i : ℕ) → AllBytes xs → get_or xs i 0 < 256
unfolding AllBytes
get_or_lt [] i h = omega arith
get_or_lt (x ∷ xs) zero h = h.0
get_or_lt (x ∷ xs) (suc i) h = get_or_lt xs i h.1

pub le_value-take : (xs : List ℕ) → AllBytes xs → le_value (take 4 xs) < 2 ^ 32
unfolding AllBytes le_value
le_value-take [] h = omega arith
le_value-take (a ∷ []) h = omega arith
le_value-take (a ∷ b ∷ []) (p, (q, h)) = omega arith
le_value-take (a ∷ b ∷ c ∷ []) (p, (q, (r, h))) = omega arith
le_value-take (a ∷ b ∷ c ∷ d ∷ xs) (p, (q, (r, (s, h)))) = omega arith

-- What a load of a width gives, from some bytes.
read_value_lt :
    (aw : AccessWidth) (old i : ℕ) (f : ℕ → ℕ)
    → ((j : ℕ) → f j < 256)
    → read_value aw (u8 old) (slice f i (mult aw)) < 2 ^ 32
unfolding read_value le_value
read_value_lt byte old i f h = let a = h i in omega arith
read_value_lt halfword old i f h = let a = h i in let b = h (i + 1) in omega arith
read_value_lt word old i f h =
    let a = h i in
    let b = h (i + 1) in let c = h (i + 1 + 1) in let d = h (i + 1 + 1 + 1) in omega arith

read_value-none_lt : (aw : AccessWidth) (old : ℕ) → read_value aw (u8 old) [] < 2 ^ 32
unfolding read_value le_value
read_value-none_lt byte old = omega arith
read_value-none_lt halfword old = omega arith
read_value-none_lt word old = omega arith

write_value-AllBytes : (aw : AccessWidth) (v : ℕ) → AllBytes (write_value aw v)
unfolding write_value le_bytes AllBytes
write_value-AllBytes byte v = (omega arith, tt)
write_value-AllBytes halfword v = (omega arith, (omega arith, tt))
write_value-AllBytes word v = (omega arith, (omega arith, (omega arith, (omega arith, tt))))

overlay_lt :
    (src : List ℕ) (i : ℕ) (f : ℕ → ℕ) (j : ℕ) → AllBytes src → f j < 256 → overlay src i f j < 256
overlay_lt src i f j h fits = let new = get_or_lt src (j - i) h in ground arith

pub write_result-HoldsBytes :
    (mmu : Mmu) (src : List ℕ) (vaddr : ℕ)
    → AllBytes src
    → HoldsBytes mmu
    → HoldsBytes (write_result mmu src vaddr).1
unfolding write_result
write_result-HoldsBytes mmu src vaddr h held i =
    let old = held i in
    let new = overlay_lt src (vaddr - mmu.base) mmu.bytes i h old in ground arith

pub read_result-AllBytes :
    (mmu : Mmu) (vaddr n : ℕ) → HoldsBytes mmu → AllBytes (read_result mmu vaddr n).1
unfolding read_result AllBytes
read_result-AllBytes mmu vaddr n held =
    let all = slice-AllBytes mmu.bytes (vaddr - mmu.base) n held in ground arith

pub read_result-HoldsBytes :
    (mmu : Mmu) (vaddr n : ℕ) → HoldsBytes mmu → HoldsBytes (read_result mmu vaddr n).2
unfolding read_result
read_result-HoldsBytes mmu vaddr n held i = let old = held i in ground arith

read_result_lt :
    (mmu : Mmu) (vaddr old : ℕ) (aw : AccessWidth)
    → HoldsBytes mmu
    → read_value aw (u8 old) (read_result mmu vaddr (mult aw)).1 < 2 ^ 32
unfolding read_result
read_result_lt mmu vaddr old aw held =
    let some_bytes = read_value_lt aw old (vaddr - mmu.base) mmu.bytes held in
    let no_bytes = read_value-none_lt aw old in ground arith

-- A bus between two accesses: the mutex is free, the segment well-formed, and its elements are bytes.
pub record IsTidy (bus : Bus) : Type 0 where
  pub is_free : bus.locked ≡ false
  pub valid : IsValid bus.mmu
  pub holds : HoldsBytes bus.mmu

load_hit-IsTidy :
    (d : Driver) (bus : Bus) (i : ℕ) (dev : MmioDevice) (offs : ℕ) (aw : AccessWidth)
    → IsTidy bus
    → ((load_hit d bus i dev offs aw).0 < 2 ^ 32) × IsTidy (load_hit d bus i dev offs aw).1
unfolding load_hit
load_hit-IsTidy ram bus i dev offs aw t = (
  read_result_lt bus.mmu offs bus.old_byte aw t.holds,
  record {
    is_free = refl;
    valid = read_result-IsValid bus.mmu offs (mult aw) t.valid;
    holds = read_result-HoldsBytes bus.mmu offs (mult aw) t.holds;
  },
)
load_hit-IsTidy csr_mmio bus i dev offs aw t =
    (omega arith, record { is_free = refl; valid = t.valid; holds = t.holds })

pub load_result-IsTidy :
    (o : Option (ℕ × MmioDevice)) (bus : Bus) (offs : ℕ) (aw : AccessWidth)
    → IsTidy bus
    → ((load_result o bus offs aw).0 < 2 ^ 32) × IsTidy (load_result o bus offs aw).1
unfolding load_result
load_result-IsTidy none bus offs aw t =
    (omega arith, record { is_free = refl; valid = t.valid; holds = t.holds })
load_result-IsTidy (some (i, dev)) bus offs aw t = load_hit-IsTidy dev.driver bus i dev offs aw t

store_hit-IsTidy :
    (d : Driver) (bus : Bus) (i : ℕ) (dev : MmioDevice) (offs value : ℕ) (aw : AccessWidth)
    → IsTidy bus
    → IsTidy (store_hit d bus i dev offs value aw)
unfolding store_hit
store_hit-IsTidy ram bus i dev offs value aw t = record {
  is_free = refl;
  valid = write_result-IsValid bus.mmu (write_value aw value) offs t.valid;
  holds =
      write_result-HoldsBytes bus.mmu (write_value aw value) offs (write_value-AllBytes aw value)
        t.holds;
}
store_hit-IsTidy csr_mmio bus i dev offs value aw t = record {
  is_free = refl;
  valid = t.valid;
  holds = t.holds;
}

pub store_result-IsTidy :
    (o : Option (ℕ × MmioDevice)) (bus b : Bus) (offs value : ℕ) (aw : AccessWidth)
    → IsTidy bus
    → store_result o bus offs value aw ≡ ok b
    → IsTidy b
unfolding store_result
store_result-IsTidy none bus b offs value aw t h =
    let same : record bus { status = address_not_found; locked = false } ≡ b = ground arith in
    rw (← same) (record { is_free = refl; valid = t.valid; holds = t.holds })
store_result-IsTidy (some (i, dev)) bus b offs value aw t h =
    let same : store_hit dev.driver bus i dev offs value aw ≡ b = ground arith in
    rw (← same) (store_hit-IsTidy dev.driver bus i dev offs value aw t)
