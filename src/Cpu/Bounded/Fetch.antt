-- ===== src/Cpu/Bounded/Fetch.antt =====
-- The stage `fetch` keeps the bounds.
use criscv.Base.{
  ℕ, ◌+◌, ◌-◌, ◌*◌, ◌^◌, ◌<◌, ◌≡◌, refl, arith, Bool, true, false, if◌then◌else◌, List, drop,
  Result, ok, stop, ◌>>=◌,
}
use criscv.Bus.{Bus, bus_read_multiple}
use criscv.Mmio.{word}
use criscv.Bus.Bytes.{AllBytes, IsTidy, drop-AllBytes, le_value-take}
use criscv.Bus.Burst.{IsBurst, bus_read_multiple-IsBurst}
use criscv.Csr.{csr_read_write32}
use criscv.Cpu.State.{Core, cause_trap}
use criscv.Cpu.Stages.{fetch, fill, filled, next_prefetched, word_at}
use criscv.Cpu.Sound.{after-ok}
use criscv.Cpu.Bounded.{IsBounded, AreBounded}

word_at_lt : (bytes : List ℕ) (k : ℕ) → AllBytes bytes → word_at bytes k < 2 ^ 32
unfolding word_at
word_at_lt bytes k all = le_value-take (drop (4 * k) bytes) (drop-AllBytes (4 * k) bytes all)

filled-done :
    (core : Core) (n : ℕ) (bytes : List ℕ) (bus : Bus) (r : Core × Bus)
    → filled core n bytes bus ≡ ok r
    → (
      record core {
        instruction = word_at bytes 0;
        prefetch = λ k. word_at bytes (k + 1);
        prefetch_cnt = 7;
      },
      bus,
    )
      ≡ r
unfolding filled cause_trap csr_read_write32
filled-done core n bytes bus r h = ground arith

filled-AreBounded :
    (core : Core) (n : ℕ) (bytes : List ℕ) (bus : Bus) (r : Core × Bus)
    → IsBounded core
    → IsBurst (n, bytes, bus)
    → filled core n bytes bus ≡ ok r
    → AreBounded r
filled-AreBounded core n bytes bus r w (all, t) h = rw (← filled-done core n bytes bus r h) (
  record {
    narrow = record {
      pc_fits = w.narrow.pc_fits;
      out_fits = w.narrow.out_fits;
      rs1_fits = w.narrow.rs1_fits;
      rs2_fits = w.narrow.rs2_fits;
      target_fits = w.narrow.target_fits;
      offset_fits = w.narrow.offset_fits;
    };
    registers_fit = w.registers_fit;
    saved_fit = w.saved_fit;
    prefetch_fits = λ k. word_at_lt bytes (k + 1) all;
    instruction_fits = word_at_lt bytes 0 all;
  },
  t,
)

-- `fill`, by what the bus answers.
answered-AreBounded :
    (m : Result (ℕ × List ℕ × Bus)) (core : Core) (r : Core × Bus)
    → IsBounded core
    → ((q : ℕ × List ℕ × Bus) → m ≡ ok q → IsBurst q)
    → (m >>= λ q. filled core q.0 q.1 q.2) ≡ ok r
    → AreBounded r
answered-AreBounded (stop why) core r w good h = cc
answered-AreBounded (ok (n, bytes, b)) core r w good h =
    filled-AreBounded core n bytes b r w (good (n, bytes, b) refl) h

next-IsBounded : (core c : Core) → IsBounded core → next_prefetched core ≡ ok c → IsBounded c
unfolding next_prefetched
next-IsBounded core c w h =
    let same : record core {
      instruction = core.prefetch (7 - core.prefetch_cnt);
      prefetch_cnt = core.prefetch_cnt - 1;
    }
        ≡ c =
      ground arith in
    rw (← same) (record {
      narrow = record {
        pc_fits = w.narrow.pc_fits;
        out_fits = w.narrow.out_fits;
        rs1_fits = w.narrow.rs1_fits;
        rs2_fits = w.narrow.rs2_fits;
        target_fits = w.narrow.target_fits;
        offset_fits = w.narrow.offset_fits;
      };
      registers_fit = w.registers_fit;
      saved_fit = w.saved_fit;
      prefetch_fits = w.prefetch_fits;
      instruction_fits = w.prefetch_fits (7 - core.prefetch_cnt);
    })

-- `fetch`, by whether a word is left.
fetched-AreBounded :
    (empty : Bool) (core : Core) (bus : Bus) (r : Core × Bus)
    → IsBounded core
    → IsTidy bus
    → (if empty then fill core bus else (next_prefetched core >>= λ c'. ok (c', bus))) ≡ ok r
    → AreBounded r
unfolding fill
fetched-AreBounded true core bus r w t h =
    answered-AreBounded (bus_read_multiple bus core.pc 8 word) core r w
      (bus_read_multiple-IsBurst bus t core.pc 8 word w.narrow.pc_fits (omega arith)) h
fetched-AreBounded false core bus (c, b) w t h =
    let (c', e, same) = after-ok (λ x. x) (next_prefetched core) c bus b h in
    let kept : bus ≡ b = ground arith in (rw (← same) (next-IsBounded core c' w e), rw (← kept) t)

pub fetch-AreBounded :
    (core : Core) (bus : Bus) (r : Core × Bus)
    → IsBounded core
    → IsTidy bus
    → fetch core bus ≡ ok r
    → AreBounded r
unfolding fetch
fetch-AreBounded core bus r w t h = fetched-AreBounded _ core bus r w t h
