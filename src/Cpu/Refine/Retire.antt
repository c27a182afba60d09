-- ===== src/Cpu/Refine/Retire.antt =====
-- A retired instruction leaves the core as the abstract machine is, if what it did is what that did.
use criscv.Base.{
  ℕ, ◌+◌, ◌-◌, ◌*◌, ◌<◌, ◌≤◌, ◌≡◌, sym, ◌∙◌, ap, arith, inl, inr, Bool-cases, ◌==◌, add32,
}
use criscv.Bus.{Bus}
use criscv.Cpu.State.{Core}
use criscv.Cpu.Run.{Retired}
use criscv.Cpu.Prefetch.{Mirrors, word_in}
use criscv.Cpu.Refine.{Layout, Backs, Represents}
use criscv.Cpu.Refine.Fetch.{Ready}
use criscv.Cpu.Refine.Memory.{number_at-Backs}
use criscv.Spec.Machine.{Machine, number_at}

pub Backs-moved :
    (lay : Layout) (bus : Bus) (m : Machine) (registers : ℕ → ℕ) (pc : ℕ)
    → Backs lay bus m
    → Backs lay bus (record m { registers = registers; pc = pc })
Backs-moved lay bus m registers pc k = record {
  is_free = k.is_free;
  valid = k.valid;
  starts = k.starts;
  ends = k.ends;
  code_inside = k.code_inside;
  data_inside = k.data_inside;
  apart = k.apart;
  all_ram = k.all_ram;
  same_bytes = k.same_bytes;
  may_read = k.may_read;
  code_readable = k.code_readable;
  data_writable = k.data_writable;
  data_opens = k.data_opens;
}

-- What follows when an instruction is retired, if the memory of the code stays as it was.
module _ (lay : Layout) (core c : Core) (bus b : Bus) (m m' : Machine) (registers : ℕ → ℕ) (pc : ℕ)
    (r : Ready lay core bus m) (kept : Retired core registers pc c) (k : Backs lay b m')
    (same_code : (a : ℕ)
      → lay.code_start ≤ a
      → a + 4 ≤ lay.code_end
      → number_at m'.memory a 4 ≡ number_at m.memory a 4) where
  word_in-same :
      (a : ℕ) → lay.code_start ≤ a → a + 4 ≤ lay.code_end → word_in bus.mmu a ≡ word_in b.mmu a
  word_in-same a lo hi =
      let inside = k.code_inside in
      sym (number_at-Backs lay bus m r.backs a 4 (omega arith) (omega arith))
      ∙ sym (same_code a lo hi)
      ∙ number_at-Backs lay b m' k a 4 (omega arith) (omega arith)

  Mirrors-dropped : c.prefetch_cnt ≡ 0 → Mirrors c b.mmu
  Mirrors-dropped e = record { left = omega arith; mirrored = λ j h. absurd (omega arith) }

  Mirrors-kept :
      0 < core.prefetch_cnt
      → c.prefetch_cnt ≡ core.prefetch_cnt
      → c.pc ≡ add32 core.pc 4
      → Mirrors c b.mmu × (lay.code_start ≤ c.pc) × (c.pc + 4 * c.prefetch_cnt ≤ lay.code_end)
  Mirrors-kept pos count at =
      let ahead = r.ahead pos in
      let inside = r.backs.code_inside in
      let ends = r.backs.ends in
      let space = r.backs.valid.in_space in
      let pc_is : c.pc ≡ core.pc + 4 = at ∙ omega arith in
      (
        record {
          left = omega (arith, r.mirrors.left);
          mirrored = λ j h.
              let place : 7 - c.prefetch_cnt + j ≡ 7 - core.prefetch_cnt + j = omega arith in
              let there : core.pc + 4 + 4 * j ≡ c.pc + 4 * j = omega arith in
              ap c.prefetch place
              ∙ ap (λ (f : ℕ → ℕ). f (7 - core.prefetch_cnt + j)) kept.same_prefetch
              ∙ r.mirrors.mirrored j (omega arith)
              ∙ word_in-same (core.pc + 4 + 4 * j) (omega arith) (omega arith)
              ∙ ap (word_in b.mmu) there;
        },
        omega arith,
        omega arith,
      )

  pub Retired-Represents : registers ≡ m'.registers → pc ≡ m'.pc → Represents lay c b m'
  Retired-Represents er ep = elim kept.flushed_or_next [
    | inl e ↦ record {
      backs = k;
      fetches = kept.next_state;
      has_handler = kept.same_handler ∙ r.has_handler;
      same_pc = kept.next_pc ∙ ep;
      same_registers = kept.next_registers ∙ er;
      mirrors = Mirrors-dropped e;
      ahead = λ h. absurd (omega arith);
    }
    | inr e ↦ elim (Bool-cases (core.prefetch_cnt == 0)) [
      | inl z ↦ record {
        backs = k;
        fetches = kept.next_state;
        has_handler = kept.same_handler ∙ r.has_handler;
        same_pc = kept.next_pc ∙ ep;
        same_registers = kept.next_registers ∙ er;
        mirrors = Mirrors-dropped (ground arith);
        ahead = λ h. absurd (ground arith);
      }
      | inr z ↦
          let all = Mirrors-kept (ground arith) e.0 e.1 in
          record {
            backs = k;
            fetches = kept.next_state;
            has_handler = kept.same_handler ∙ r.has_handler;
            same_pc = kept.next_pc ∙ ep;
            same_registers = kept.next_registers ∙ er;
            mirrors = all.0;
            ahead = λ h. (all.1, all.2);
          }
    ]
  ]
