-- ===== src/Mmu/Safe.antt =====
-- Well-formedness is kept, over any sequence of calls on one segment.
use criscv.Base.{ℕ, ◌^◌, ◌<◌, ◌≡◌, refl, arith, List, [], ◌∷◌, length, Result, ok, ◌>>=◌}
use criscv.Mmu.{Mmu, mmu_write_from, mmu_read_into, mmu_allocate}
use criscv.Mmu.Transfer.{IsValid, mmu_write_from_lem, mmu_read_into_lem, write_result, read_result}
use criscv.Mmu.Allocate.{mmu_allocate_lem, allocate_result}

-- A call on the segment. An address is a `vaddr_t`.
pub data Call : Type 0 where
  write : List ℕ → ℕ → Call
  read : ℕ → ℕ → Call
  allocate : ℕ → ℕ → Call

pub perform : Mmu → Call → Result Mmu
perform mmu (write src vaddr) = mmu_write_from mmu src vaddr (length src) >>= λ r. ok r.1
perform mmu (read vaddr n) = mmu_read_into mmu vaddr n >>= λ r. ok r.2
perform mmu (allocate n p) = mmu_allocate mmu n p >>= λ r. ok r.1

pub perform_all : Mmu → List Call → Result Mmu
perform_all mmu [] = ok mmu
perform_all mmu (c ∷ cs) = perform mmu c >>= λ m. perform_all m cs

-- Addresses and sizes are below 2 ^ 32, though a size is a `size_t`; a block is smaller than 2 ^ 31.
abbrev pub Fits : Call → Type 0
Fits (write src vaddr) = (vaddr < 2 ^ 32) × (length src < 2 ^ 32)
Fits (read vaddr n) = (vaddr < 2 ^ 32) × (n < 2 ^ 32)
Fits (allocate n p) = n < 2 ^ 31

abbrev pub AllFit : List Call → Type 0
AllFit [] = Unit {0}
AllFit (c ∷ cs) = Fits c × AllFit cs

pub write_result-IsValid :
    (mmu : Mmu) (src : List ℕ) (vaddr : ℕ) → IsValid mmu → IsValid (write_result mmu src vaddr).1
unfolding write_result
write_result-IsValid mmu src vaddr v = ground arith

pub read_result-IsValid :
    (mmu : Mmu) (vaddr n : ℕ) → IsValid mmu → IsValid (read_result mmu vaddr n).2
unfolding read_result
read_result-IsValid mmu vaddr n v = ground arith

allocate_result-IsValid : (mmu : Mmu) (n p : ℕ) → IsValid mmu → IsValid (allocate_result mmu n p).1
unfolding allocate_result
allocate_result-IsValid mmu n p v = ground arith

perform-IsValid :
    (mmu : Mmu) (c : Call) → IsValid mmu → Fits c → (m : Mmu) × (perform mmu c ≡ ok m) × IsValid m
unfolding perform
perform-IsValid mmu (write src vaddr) v f = (
  (write_result mmu src vaddr).1,
  rw (mmu_write_from_lem mmu v src vaddr f.0 f.1),
  write_result-IsValid mmu src vaddr v,
)
perform-IsValid mmu (read vaddr n) v f = (
  (read_result mmu vaddr n).2,
  rw (mmu_read_into_lem mmu v vaddr n f.0 f.1),
  read_result-IsValid mmu vaddr n v,
)
perform-IsValid mmu (allocate n p) v f = (
  (allocate_result mmu n p).1,
  rw (mmu_allocate_lem mmu v n p f),
  allocate_result-IsValid mmu n p v,
)

-- No sequence of reads, writes and allocations on a well-formed segment, each read and write at an
-- address below 2 ^ 32 and of fewer than 2 ^ 32 bytes, and each block smaller than 2 ^ 31, fails an
-- assertion or accesses an array outside its bounds, and it leaves the segment well-formed. A larger
-- size, which `size_t` allows, is not covered.
pub perform_all-IsValid :
    (mmu : Mmu) (cs : List Call)
    → IsValid mmu
    → AllFit cs
    → (m : Mmu) × (perform_all mmu cs ≡ ok m) × IsValid m
unfolding perform_all
perform_all-IsValid mmu [] v f = (mmu, refl, v)
perform_all-IsValid mmu (c ∷ cs) v f =
    let (m, e, w) = perform-IsValid mmu c v f.0 in
    let (m', e', w') = perform_all-IsValid m cs w f.1 in (m', rw (e, e'), w')
