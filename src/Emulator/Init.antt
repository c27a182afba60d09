-- ===== src/Emulator/Init.antt =====
-- What `emulator_init` of src/emulator.c makes: a bus that a program can be loaded into and run on.
use criscv.Base.{
  ℕ, ◌+◌, ◌-◌, ◌/◌, ◌^◌, ◌<◌, ◌≤◌, ◌≡◌, refl, arith, true, false, ◌&&◌, Bool, some, none, ok,
  Result, ◌>>=◌, if◌then◌else◌, stop, null_call,
}
use criscv.Config.{ram_start, ram_size}
use criscv.Memory.{init_ram}
use criscv.Csr.{csr_mmio_init}
use criscv.Mmu.{Mmu, Heap, mmu_init, dirty_page_size}
use criscv.Mmu.Loops.{alter, within}
use criscv.Mmu.Transfer.{IsValid, mmu_setperm_lem}
use criscv.Bus.{Bus, find, covers, bus_init, init}
use criscv.Emulator.{ram_device, main_bus, emulator_init}
use criscv.Emulator.Start.{IsUsable}

-- The segment that `mmu_init` makes.
abbrev pub first_segment : Heap → ℕ → ℕ → Mmu
first_segment heap base size = record {
  size = size;
  base = base;
  curr_vaddr = base;
  bytes = λ _. 0;
  bytes_len = size;
  perm = alter (λ _. 10) (base - base) size heap.old_perm;
  perm_len = size;
  dirty = λ _. false;
  dirty_len = size / dirty_page_size + 1;
  state = heap.old_state;
}

abbrev unmarked : Heap → ℕ → ℕ → Mmu
unmarked heap base size = record (first_segment heap base size) { perm = heap.old_perm }

pub first_segment-IsValid :
    (heap : Heap) (base size : ℕ)
    → 0 < base
    → base + size < 2 ^ 32
    → IsValid (first_segment heap base size)
first_segment-IsValid heap base size low fits = omega arith

unmarked-IsValid :
    (heap : Heap) (base size : ℕ)
    → 0 < base
    → base + size < 2 ^ 32
    → IsValid (unmarked heap base size)
unmarked-IsValid heap base size low fits = omega arith

pub mmu_init_lem :
    (heap : Heap) (base size : ℕ)
    → (heap.grants_mmu && heap.grants_bytes && heap.grants_dirty && heap.grants_perm) ≡ true
    → 0 < base
    → base + size < 2 ^ 32
    → mmu_init heap base size ≡ ok (some (first_segment heap base size))
unfolding mmu_init
mmu_init_lem heap base size grants low fits = rw (
  grants,
  mmu_setperm_lem (unmarked heap base size) (unmarked-IsValid heap base size low fits) base size 10
      (omega arith) (omega arith),
)

-- The bus when `video_init` is called.
abbrev pub first_bus : Heap → ℕ → Bus
first_bus heap old_byte = bus_init (main_bus (first_segment heap ram_start ram_size) old_byte)

pub first_bus-find :
    (heap : Heap) (old_byte a : ℕ)
    → ram_start ≤ a
    → a < ram_start + ram_size
    → find (first_bus heap old_byte).devices a ≡ some (0, ram_device)
unfolding bus_init init init_ram csr_mmio_init find covers
first_bus-find heap old_byte a lo hi = ground arith

pub first_bus-IsUsable : (heap : Heap) (old_byte : ℕ) → IsUsable 0 (first_bus heap old_byte)
unfolding bus_init
first_bus-IsUsable heap old_byte = record {
  is_free = refl;
  valid = first_segment-IsValid heap ram_start ram_size (omega arith) (omega arith);
  all_ready =
      λ a lo hi. (ram_device, first_bus-find heap old_byte a lo (omega arith), refl, refl, refl);
}

first_bus-fresh :
    (heap : Heap) (old_byte j : ℕ)
    → j < ram_size
    → ((first_bus heap old_byte).mmu.bytes j ≡ 0) × ((first_bus heap old_byte).mmu.perm j ≡ 10)
unfolding bus_init
first_bus-fresh heap old_byte j h =
    let inside : within (ram_start - ram_start) ram_size j ≡ true = ground arith in
    (refl, rw inside)

first_bus-empty :
    (heap : Heap) (old_byte : ℕ)
    → (first_bus heap old_byte).mmu.curr_vaddr ≡ (first_bus heap old_byte).mmu.base
unfolding bus_init
first_bus-empty heap old_byte = refl

-- Where the host has the memory, `emulator_init` hands the video device a bus on which a program can be
-- loaded and prepared, and answers by what that device does: the mutex is free, the segment is well-formed
-- and all of it belongs to the RAM device, ready and writable, nothing is allocated in it, and every byte
-- is 0, and may be written and then be read.
pub emulator_init_lem :
    (heap : Heap) (video_init : Bus → Result (Bool × Bus)) (old_byte : ℕ)
    → (heap.grants_mmu && heap.grants_bytes && heap.grants_dirty && heap.grants_perm) ≡ true
    → (bus : Bus) × (emulator_init heap video_init old_byte
        ≡ (video_init bus >>= λ (shown, b). ok (if shown then some b else none)))
      × IsUsable 0 bus
      × (bus.mmu.curr_vaddr ≡ bus.mmu.base)
      × ((j : ℕ) → j < ram_size → (bus.mmu.bytes j ≡ 0) × (bus.mmu.perm j ≡ 10))
emulator_init_lem heap video_init old_byte grants = (
  first_bus heap old_byte,
  unfold emulator_init in
      rw (mmu_init_lem heap ram_start ram_size grants (omega arith) (omega arith)),
  first_bus-IsUsable heap old_byte,
  first_bus-empty heap old_byte,
  first_bus-fresh heap old_byte,
)

-- Where the host has not, the program uses a null pointer.
pub emulator_init_short :
    (heap : Heap) (video_init : Bus → Result (Bool × Bus)) (old_byte : ℕ)
    → (heap.grants_mmu && heap.grants_bytes && heap.grants_dirty && heap.grants_perm) ≡ false
    → emulator_init heap video_init old_byte ≡ stop null_call
unfolding emulator_init mmu_init
emulator_init_short heap video_init old_byte short = rw short
