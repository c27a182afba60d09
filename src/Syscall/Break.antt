-- ===== src/Syscall/Break.antt =====
-- What `brk` of the guest does to its heap.
use criscv.Base.{ℕ, ◌≡◌, ◌≢◌, refl, arith, true, false, ok, u32, sub32, ◌==◌}
use criscv.Mmu.Transfer.{IsValid}
use criscv.Mmu.Allocate.{allocate_result, mmu_allocate_lem}
use criscv.Bus.{Bus}
use criscv.Cpu.State.{Core}
use criscv.Syscall.{Host, sys_brk, set_result, requested_increase}

increase : (arg0 : ℕ) → arg0 ≢ 0 → requested_increase arg0 ≡ 0x100
unfolding requested_increase
increase arg0 pos =
    let none_left : sub32 arg0 arg0 ≡ 0 = omega arith in
    let asked : (arg0 == 0) ≡ false = ground arith in rw (asked, none_left)

-- On a well-formed segment, `sys_brk` with 0 answers the address of the next block. With any other
-- break it answers that break, and allocates 256 bytes, wherever the break lies and whether or not
-- they were there to be had.
pub sys_brk_lem :
    {S : Type 0} (host : Host S) (core : Core) (bus : Bus) (s : S) (arg0 : ℕ)
    → IsValid bus.mmu
    → arg0 ≢ 0
    → (sys_brk host core bus s 0 ≡ ok (true, set_result core bus.mmu.curr_vaddr, bus, s))
      × (sys_brk host core bus s arg0
          ≡ ok (
            true,
            set_result core arg0,
            record bus { mmu = (allocate_result bus.mmu 0x100 10).1 },
            s,
          ))
unfolding sys_brk
sys_brk_lem host core bus s arg0 v pos =
    let curr : u32 bus.mmu.curr_vaddr ≡ bus.mmu.curr_vaddr = omega arith in
    let no_increase : requested_increase 0 ≡ 0 = unfold requested_increase in refl in
    (
      rw (no_increase, curr, curr),
      rw (increase arg0 pos, mmu_allocate_lem bus.mmu v 0x100 10 (omega arith)),
    )
