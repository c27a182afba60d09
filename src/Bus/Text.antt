-- ===== src/Bus/Text.antt =====
-- `bus_read_string` returns the text up to its zero byte.
use criscv.Base.{
  ℕ, zero, suc, ◌+◌, ◌-◌, ◌^◌, ◌≤◌, ◌<◌, ◌≡◌, ◌≢◌, refl, ap, ◌∙◌, arith, true, false, ◌==◌, List,
  [], ◌∷◌, ◌++◌, length, some, ok, u8, add64, le→ltb, lt→ltb,
}
use criscv.Mmio.{MmioDevice, byte, ram}
use criscv.Mmu.{mmu_ok, mperm_read, allows}
use criscv.Mmu.Loops.{all_allow}
use criscv.Mmu.Transfer.{IsValid, read_result}
use criscv.Memory.{read_value}
use criscv.Memory.Words.{settle}
use criscv.Bus.{Bus, bus_ok, is_bus_ok, find, bus_read_single, string_loop, bus_read_string}
use criscv.Bus.Find.{find-put-elsewhere}
use criscv.Bus.Access.{settled, bus_read_single-ram}

-- A RAM device answers at the address, and the byte there may be read and is `x`.
pub record Holds (bus : Bus) (a x : ℕ) : Type 0 where
  pub index : ℕ
  pub device : MmioDevice
  pub hit : find bus.devices a ≡ some (index, device)
  pub is_ram : device.driver ≡ ram
  pub above : bus.mmu.base ≤ a
  pub below : a < bus.mmu.base + bus.mmu.size
  pub readable : allows (bus.mmu.perm (a - bus.mmu.base)) mperm_read ≡ true
  pub content : bus.mmu.bytes (a - bus.mmu.base) ≡ x

-- A text, none of whose bytes is 0, and the 0 at its end.
abbrev pub HoldsText : Bus → ℕ → List ℕ → Type 0
HoldsText bus a [] = Holds bus a 0
HoldsText bus a (x ∷ text) = Holds bus a x × (x ≢ 0) × (x < 256) × HoldsText bus (a + 1) text

-- The bus after a load of the byte.
abbrev loaded : (bus : Bus) (a x : ℕ) → Holds bus a x → Bus
loaded bus a x h = settled bus h.index h.device (record bus.mmu { state = mmu_ok })

load-byte :
    (bus : Bus) (a x : ℕ) (h : Holds bus a x)
    → bus.locked ≡ false
    → IsValid bus.mmu
    → a < 2 ^ 32
    → bus_read_single bus a byte ≡ ok (x, loaded bus a x h)
unfolding read_result read_value all_allow
load-byte bus a x h free v fits =
    let lo = le→ltb a bus.mmu.base h.above in
    let hi = le→ltb (bus.mmu.base + bus.mmu.size) (a + 1) (omega (arith, h.below)) in
    rw (
      bus_read_single-ram bus free v a fits h.index h.device h.hit h.is_ram byte,
      lo,
      hi,
      h.readable,
      h.content,
    )

Holds-loaded :
    (bus : Bus) (a x a' x' : ℕ) (h : Holds bus a x)
    → Holds bus a' x'
    → Holds (loaded bus a x h) a' x'
Holds-loaded bus a x a' x' h h' =
    let (d, found, same) =
      find-put-elsewhere bus.devices a a' h.index h'.index h.device
        (settle h.device (record bus.mmu { state = mmu_ok })) h'.device h.hit (ground arith)
        h'.hit in
    record {
      index = h'.index;
      device = d;
      hit = found;
      is_ram = same.same_driver ∙ h'.is_ram;
      above = h'.above;
      below = h'.below;
      readable = h'.readable;
      content = h'.content;
    }

loaded-IsValid :
    (bus : Bus) (a x : ℕ) (h : Holds bus a x) → IsValid bus.mmu → IsValid (loaded bus a x h).mmu
loaded-IsValid bus a x h v = omega arith

HoldsText-loaded :
    (bus : Bus) (a x : ℕ) (h : Holds bus a x) (a' : ℕ) (text : List ℕ)
    → HoldsText bus a' text
    → HoldsText (loaded bus a x h) a' text
HoldsText-loaded bus a x h a' [] held = Holds-loaded bus a x a' 0 h held
HoldsText-loaded bus a x h a' (y ∷ text) (held, pos, small, rest) =
    (Holds-loaded bus a x a' y h held, pos, small, HoldsText-loaded bus a x h (a' + 1) text rest)

string_loop_more :
    (bus b b' : Bus) (offs i room x : ℕ) (rest : List ℕ)
    → bus_read_single bus (add64 offs i) byte ≡ ok (x, b)
    → x ≢ 0
    → x < 256
    → b.status ≡ bus_ok
    → string_loop b offs (i + 1) room ≡ ok (rest, b')
    → string_loop bus offs i (suc room) ≡ ok (x ∷ rest, b')
unfolding string_loop
string_loop_more bus b b' offs i room x rest got pos small good again =
    let char : u8 x ≡ x = omega arith in
    let more : (u8 x == 0) ≡ false = ground arith in
    let fine : is_bus_ok b.status ≡ true = ap is_bus_ok good in
    rw (got, more, fine, again) (ap (λ y. ok (y ∷ rest, b')) char)

string_loop_lem :
    (bus : Bus) (offs i room : ℕ) (text : List ℕ)
    → bus.locked ≡ false
    → IsValid bus.mmu
    → offs + i + length text < 2 ^ 32
    → length text < room
    → HoldsText bus (offs + i) text
    → (b : Bus) × (string_loop bus offs i room ≡ ok (text ++ (0 ∷ []), b))
      × (b.status ≡ bus_ok)
      × (b.locked ≡ false)
unfolding string_loop
string_loop_lem bus offs i zero text free v fits small held = absurd (omega arith)
string_loop_lem bus offs i (suc room) [] free v fits small held =
    let here : add64 offs i ≡ offs + i = omega arith in
    (
      loaded bus (offs + i) 0 held,
      rw (here, load-byte bus (offs + i) 0 held free v (omega arith)),
      refl,
      refl,
    )
string_loop_lem bus offs i (suc room) (x ∷ text) free v fits small (held, pos, low, rest) =
    let here : add64 offs i ≡ offs + i = omega arith in
    let next : offs + (i + 1) ≡ offs + i + 1 = omega arith in
    let b = loaded bus (offs + i) x held in
    let kept = HoldsText-loaded bus (offs + i) x held (offs + i + 1) text rest in
    let (b', read, good, free') =
      string_loop_lem b offs (i + 1) room text refl (loaded-IsValid bus (offs + i) x held v)
        (omega arith) (omega arith) (rw next kept) in
    let got : bus_read_single bus (add64 offs i) byte ≡ ok (x, b) =
      rw here (load-byte bus (offs + i) x held free v (omega arith)) in
    (
      b',
      string_loop_more bus b b' offs i room x (text ++ (0 ∷ [])) got pos low refl read,
      good,
      free',
    )

-- A text in readable memory of a RAM device, none of whose bytes is 0 but the one that ends it, is
-- what `bus_read_string` returns, with that 0, and the status `BUS_OK`: if the mutex is free, which it
-- is again after, the segment well-formed, the text in the 32-bit space, and shorter than the room.
pub bus_read_string_lem :
    (bus : Bus) (offs room : ℕ) (text : List ℕ)
    → bus.locked ≡ false
    → IsValid bus.mmu
    → offs + length text < 2 ^ 32
    → length text < room
    → HoldsText bus offs text
    → (b : Bus) × (bus_read_string bus offs room ≡ ok (text ++ (0 ∷ []), b))
      × (b.status ≡ bus_ok)
      × (b.locked ≡ false)
unfolding bus_read_string
bus_read_string_lem bus offs room text free v fits small held =
    let start : offs + 0 ≡ offs = omega arith in
    let (b, read, good, free') =
      string_loop_lem bus offs 0 room text free v (omega arith) small (rw start held) in
    (b, rw (lt→ltb 0 room (omega arith), read), good, free')
