-- ===== src/Mmu/Transfer.antt =====
-- What `mmu_write_from`, `mmu_read_into` and `mmu_setperm` do to a well-formed segment.
use criscv.Base.{
  ℕ, ◌+◌, ◌-◌, ◌/◌, ◌^◌, ◌≤◌, ◌<◌, ◌≡◌, arith, true, ◌||◌, ltb, if◌then◌else◌, Bool-cases, inl, inr,
  List, [], length, slice, ok, add64, sub32, le→leb,
}
use criscv.Mmu.{
  Mmu, mmu_ok, read_page_fault, write_page_fault, access_denied, mperm_write, mperm_read, written,
  dirty_page_size, mmu_setperm, mmu_check_access, write_allowed, mmu_write_from, mmu_read_into,
}
use criscv.Mmu.Loops.{
  alter, overlay, all_allow, setperm_loop_lem, check_loop_lem, copy_in_lem, copy_out_lem,
  perms_loop_lem, dirty_loop_lem,
}

-- The arrays are as long as the segment says, the segment lies in the 32-bit address space, above
-- address 0, and the next block to allocate begins in it or at its end.
pub record IsValid (mmu : Mmu) : Type 0 where
  pub bytes_fit : mmu.bytes_len ≡ mmu.size
  pub perm_fit : mmu.perm_len ≡ mmu.size
  pub dirty_fit : mmu.size / dirty_page_size < mmu.dirty_len
  pub in_space : mmu.base + mmu.size < 2 ^ 32
  pub not_null : 0 < mmu.base
  pub curr_low : mmu.base ≤ mmu.curr_vaddr
  pub curr_high : mmu.curr_vaddr ≤ mmu.base + mmu.size

-- The segment after `src` was written at `vaddr`.
abbrev pub after_write : Mmu → List ℕ → ℕ → Mmu
after_write mmu src vaddr =
    let first = vaddr - mmu.base in
    let n = length src in
    let dbi = first / dirty_page_size in
    record mmu {
      bytes = overlay src first mmu.bytes;
      perm = alter written first n mmu.perm;
      dirty = alter (λ _. true) dbi ((first + n) / dirty_page_size - dbi) mmu.dirty;
      state = mmu_ok;
    }

-- A write outside the segment, or to a range of which some byte may not be written, writes nothing.
unfoldable pub write_result : Mmu → List ℕ → ℕ → ℕ × Mmu
write_result mmu src vaddr =
    if ltb vaddr mmu.base || ltb (mmu.base + mmu.size) (vaddr + length src)
    then (0, record mmu { state = read_page_fault })
    else (if all_allow (length src) (vaddr - mmu.base) mperm_write mmu
        then (length src, after_write mmu src vaddr)
        else (0, record mmu { state = access_denied }))

-- A read outside the segment, or of a range of which some byte may not be read, reads nothing.
unfoldable pub read_result : Mmu → ℕ → ℕ → ℕ × List ℕ × Mmu
read_result mmu vaddr size =
    if ltb vaddr mmu.base || ltb (mmu.base + mmu.size) (vaddr + size)
    then (0, [], record mmu { state = write_page_fault })
    else (if all_allow size (vaddr - mmu.base) mperm_read mmu
        then (size, slice mmu.bytes (vaddr - mmu.base) size, record mmu { state = mmu_ok })
        else (0, [], record mmu { state = access_denied }))

module _ (mmu : Mmu) (v : IsValid mmu) where
  pub mmu_setperm_lem :
      (vaddr size p : ℕ)
      → mmu.base ≤ vaddr
      → vaddr + size ≤ mmu.base + mmu.size
      → mmu_setperm mmu vaddr size p
        ≡ ok (record mmu { perm = alter (λ _. p) (vaddr - mmu.base) size mmu.perm })
  unfolding mmu_setperm
  mmu_setperm_lem vaddr size p lo hi =
      let first : sub32 vaddr mmu.base ≡ vaddr - mmu.base = omega arith in
      let rounds : add64 (vaddr - mmu.base) size - (vaddr - mmu.base) ≡ size = omega arith in
      rw
        (
          le→leb mmu.base vaddr lo,
          le→leb (add64 vaddr size) (add64 mmu.base mmu.size) (omega arith),
          first,
          rounds,
        )
        (setperm_loop_lem size (vaddr - mmu.base) p mmu (omega arith))

  mmu_check_access_lem :
      (vaddr size perm : ℕ)
      → mmu.base ≤ vaddr
      → vaddr + size ≤ mmu.base + mmu.size
      → mmu_check_access mmu vaddr size perm ≡ ok (all_allow size (vaddr - mmu.base) perm mmu)
  unfolding mmu_check_access
  mmu_check_access_lem vaddr size perm lo hi =
      let first : sub32 vaddr mmu.base ≡ vaddr - mmu.base = omega arith in
      let rounds : add64 (vaddr - mmu.base) size - (vaddr - mmu.base) ≡ size = omega arith in
      rw (first, rounds) (check_loop_lem size (vaddr - mmu.base) perm mmu (omega arith))

  write_allowed_lem :
      (src : List ℕ) (vaddr : ℕ)
      → mmu.base ≤ vaddr
      → vaddr + length src ≤ mmu.base + mmu.size
      → write_allowed mmu src (vaddr - mmu.base) (length src)
        ≡ ok (length src, after_write mmu src vaddr)
  unfolding write_allowed
  write_allowed_lem src vaddr lo hi =
      let n = length src in
      let first = vaddr - mmu.base in
      let dbi = first / dirty_page_size in
      let last : add64 first n ≡ first + n = omega arith in
      let rounds : first + n - first ≡ n = omega arith in
      let copied = record mmu { bytes = overlay src first mmu.bytes; state = mmu_ok } in
      let opened = record copied { perm = alter written first n mmu.perm } in
      rw (
        copy_in_lem first src (record mmu { state = mmu_ok }) (omega arith),
        last,
        rounds,
        perms_loop_lem n first copied (omega arith),
        dirty_loop_lem ((first + n) / dirty_page_size - dbi) dbi opened (omega arith),
      )

  -- On a well-formed segment `mmu_write_from` always returns, with the result of `write_result`.
  pub mmu_write_from_lem :
      (src : List ℕ) (vaddr : ℕ)
      → vaddr < 2 ^ 32
      → length src < 2 ^ 32
      → mmu_write_from mmu src vaddr (length src) ≡ ok (write_result mmu src vaddr)
  unfolding mmu_write_from write_result
  mmu_write_from_lem src vaddr hv hn =
      let n = length src in
      let top : add64 mmu.base mmu.size ≡ mmu.base + mmu.size = omega arith in
      let end : add64 vaddr n ≡ vaddr + n = omega arith in
      elim (Bool-cases (ltb vaddr mmu.base || ltb (mmu.base + mmu.size) (vaddr + n))) [
        | inl e ↦ rw (top, end, e)
        | inr e ↦
            let lo : mmu.base ≤ vaddr = ground arith in
            let hi : vaddr + n ≤ mmu.base + mmu.size = ground arith in
            let first : sub32 vaddr mmu.base ≡ vaddr - mmu.base = omega arith in
            rw
              (
                top,
                end,
                e,
                le→leb mmu.base vaddr lo,
                le→leb vaddr (mmu.base + mmu.size) (omega arith),
                mmu_check_access_lem vaddr n mperm_write lo hi,
              )
              (elim (Bool-cases (all_allow n (vaddr - mmu.base) mperm_write mmu)) [
                | inl a ↦ rw (a, first) (write_allowed_lem src vaddr lo hi)
                | inr a ↦ rw a
              ])
      ]

  -- On a well-formed segment `mmu_read_into` always returns, with the result of `read_result`.
  pub mmu_read_into_lem :
      (vaddr size : ℕ)
      → vaddr < 2 ^ 32
      → size < 2 ^ 32
      → mmu_read_into mmu vaddr size ≡ ok (read_result mmu vaddr size)
  unfolding mmu_read_into read_result
  mmu_read_into_lem vaddr n hv hn =
      let top : add64 mmu.base mmu.size ≡ mmu.base + mmu.size = omega arith in
      let end : add64 vaddr n ≡ vaddr + n = omega arith in
      elim (Bool-cases (ltb vaddr mmu.base || ltb (mmu.base + mmu.size) (vaddr + n))) [
        | inl e ↦ rw (top, end, e)
        | inr e ↦
            let lo : mmu.base ≤ vaddr = ground arith in
            let hi : vaddr + n ≤ mmu.base + mmu.size = ground arith in
            let first : sub32 vaddr mmu.base ≡ vaddr - mmu.base = omega arith in
            rw (top, end, e, mmu_check_access_lem vaddr n mperm_read lo hi)
              (elim (Bool-cases (all_allow n (vaddr - mmu.base) mperm_read mmu)) [
                | inl a ↦ rw (a, first, copy_out_lem n (vaddr - mmu.base) mmu (omega arith))
                | inr a ↦ rw a
              ])
      ]
