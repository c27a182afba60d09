-- ===== src/Emulator/Frame.antt =====
-- The frame that `emulator_run` of src/emulator.c leaves on the stack, and the texts above it.
use criscv.Base.{
  leb, ltb, ◌&&◌, ℕ, zero, suc, ◌+◌, ◌-◌, ◌*◌, ◌^◌, ◌<◌, ◌≤◌, ◌≡◌, ◌≢◌, refl, sym, ap, ◌∙◌, arith,
  List, [], ◌∷◌, length, get_or, update, slice, true, false, inl, inr, bit_and,
}
use criscv.Config.{stack_size}
use criscv.Mmu.{Mmu, mperm_read, mperm_raw, allows}
use criscv.Mmu.Transfer.{IsValid}
use criscv.Mmu.Allocate.{aligned}
use criscv.Bus.{Bus}
use criscv.Cpu.State.{Core, cpu_init, in_fetch, no_trap}
use criscv.Cpu.Prefetch.{word_in}
use criscv.Spec.Machine.{Machine}
use criscv.Cpu.Refine.{Layout, Backs}
use criscv.Cpu.Refine.Memory.{number_at-Backs}
use criscv.Emulator.Stack.{stacked, stacked-others, number_at-stacked}
use criscv.Emulator.Start.{IsUsable}

pub slice-cong :
    (f g : ℕ → ℕ) (i n : ℕ) → ((j : ℕ) → i ≤ j → j < i + n → f j ≡ g j) → slice f i n ≡ slice g i n
slice-cong f g i zero h = refl
slice-cong f g i (suc n) h = rw (
  h i (omega arith) (omega arith),
  slice-cong f g (i + 1) n (λ j lo hi. h j (omega arith) (omega arith)),
)

-- The code, and the stack as the data.
abbrev pub start_layout : ℕ → Mmu → ℕ → ℕ → Layout
start_layout i mmu code_start code_end = record {
  start = mmu.base;
  end = mmu.base + mmu.size;
  code_start = code_start;
  code_end = code_end;
  data_start = mmu.curr_vaddr;
  data_end = mmu.curr_vaddr + stack_size;
  device = i;
}

abbrev pub content : ℕ → (ℕ → ℕ) → ℕ → ℕ → Machine
content base bytes code_start code_end = record {
  pc = 0;
  registers = λ _. 0;
  memory = λ a. bytes (a - base);
  readable = λ a. leb code_start a && ltb a code_end;
}

-- What is on the stack, the first pushed first.
abbrev pub frame : ℕ → ℕ → List ℕ
frame av0 av1 = 0 ∷ 0 ∷ 0 ∷ av1 ∷ av0 ∷ 42 ∷ []

module _ (i : ℕ) (bus : Bus) (u : IsUsable i bus) (code_start code_end : ℕ)
    (code_low : bus.mmu.base ≤ code_start) (code_high : code_end ≤ bus.mmu.curr_vaddr) where
  abbrev mmu : Mmu
  mmu = bus.mmu

  pub start-Backs :
      (b : Bus) (bytes : ℕ → ℕ)
      → IsUsable i b
      → b.mmu.base ≡ mmu.base
      → b.mmu.size ≡ mmu.size
      → b.mmu.bytes ≡ bytes
      → mmu.curr_vaddr + stack_size ≤ mmu.base + mmu.size
      → ((j : ℕ)
          → mmu.curr_vaddr - mmu.base ≤ j
          → j < mmu.curr_vaddr - mmu.base + stack_size
          → b.mmu.perm j ≡ 10)
      → ((a : ℕ)
          → code_start ≤ a
          → a < code_end
          → allows (b.mmu.perm (a - b.mmu.base)) mperm_read ≡ true)
      → Backs
          (start_layout i mmu code_start code_end)
          b
          (content mmu.base bytes code_start code_end)
  unfolding allows
  start-Backs b bytes ub same_base same_size is room raw reads =
      let v = u.valid in
      record {
        is_free = ub.is_free;
        valid = ub.valid;
        starts = same_base;
        ends = omega arith;
        code_inside = (omega arith, omega arith);
        data_inside = (omega arith, omega arith);
        apart = inl (omega arith);
        all_ram = λ a lo hi.
            let (dev, found, is_ram, w, idle) = ub.all_ready a (omega arith) (omega arith) in
            (dev, found, is_ram, w);
        same_bytes =
            λ a lo hi. ap bytes (omega arith) ∙ ap (λ (f : ℕ → ℕ). f (a - b.mmu.base)) (sym is);
        may_read = λ a lo hi h. reads a (ground arith) (ground arith);
        code_readable = reads;
        data_writable = λ a lo hi. rw (raw (a - b.mmu.base) (omega arith) (omega arith));
        data_opens = λ a lo hi. inl (
            ap (λ (x : ℕ). bit_and x mperm_raw) (raw (a - b.mmu.base) (omega arith) (omega arith)));
      }

-- `c` is the core about to run, and `b` its bus, for a program that starts at `entry` with two
-- arguments: the stack is the block of `stack_size` bytes from the old `curr_vaddr` on, the texts of
-- the arguments follow it, each in a block of its own, and on the stack stand, from the stack pointer
-- upwards, 42, the addresses of the two texts, and three zeros.
pub record Started (bus : Bus) (entry : ℕ) (argv0 argv1 : List ℕ) (c : Core) (b : Bus)
    : Type 0 where
  pub at_entry : c.pc ≡ entry
  pub fetches : c.state ≡ in_fetch
  pub none_prefetched : c.prefetch_cnt ≡ 0
  pub no_trap_yet : c.trap_state ≡ no_trap
  pub handled : c.trap_handler ≡ true
  pub return_address : c.registers 1 ≡ 0x1337c0de
  pub stack_pointer : c.registers 2 ≡ bus.mmu.curr_vaddr + stack_size - 24
  pub other_registers : (x : ℕ) → x ≢ 1 → x ≢ 2 → c.registers x ≡ 0
  pub is_free : b.locked ≡ false
  pub valid : IsValid b.mmu
  pub on_stack :
      (k : ℕ)
      → k < 6
      → word_in b.mmu (bus.mmu.curr_vaddr + stack_size - 4 * (k + 1))
        ≡ get_or
            (frame
              (bus.mmu.curr_vaddr + stack_size)
              (bus.mmu.curr_vaddr + stack_size + aligned (length argv0)))
            k
            0
  pub program_name :
      slice b.mmu.bytes (bus.mmu.curr_vaddr + stack_size - bus.mmu.base) (length argv0) ≡ argv0
  pub argument :
      slice b.mmu.bytes
        (bus.mmu.curr_vaddr + stack_size + aligned (length argv0) - bus.mmu.base)
        (length argv1)
      ≡ argv1

-- The bytes above the stack stay when it is written to.
module _ (i : ℕ) (mmu : Mmu) (code_start code_end : ℕ) (bytes : ℕ → ℕ) (b' : Bus) (xs : List ℕ)
    (k : Backs
      (start_layout i mmu code_start code_end)
      b'
      (stacked (content mmu.base bytes code_start code_end) (mmu.curr_vaddr + stack_size) xs))
    (deep : 4 * length xs ≤ mmu.curr_vaddr + stack_size) where
  pub above_stack :
      (at n : ℕ)
      → mmu.curr_vaddr + stack_size ≤ at
      → at + n ≤ mmu.base + mmu.size
      → mmu.base ≤ mmu.curr_vaddr
      → slice b'.mmu.bytes (at - mmu.base) n ≡ slice bytes (at - mmu.base) n
  above_stack at n lo hi low = slice-cong b'.mmu.bytes bytes (at - mmu.base) n λ j jl jh.
      let starts = k.starts in
      let there : j + mmu.base - b'.mmu.base ≡ j = omega arith in
      let here : j + mmu.base - mmu.base ≡ j = omega arith in
      sym (ap b'.mmu.bytes there)
      ∙ sym (k.same_bytes (j + mmu.base) (omega arith) (omega arith))
      ∙ stacked-others xs (content mmu.base bytes code_start code_end) (mmu.curr_vaddr + stack_size)
          (j + mmu.base) deep (inr (omega arith))
      ∙ ap bytes here

  pub stack_word :
      (n : ℕ)
      → n < length xs
      → mmu.base ≤ mmu.curr_vaddr
      → 4 * length xs ≤ stack_size
      → mmu.curr_vaddr + stack_size ≤ mmu.base + mmu.size
      → ((j : ℕ) → j < length xs → get_or xs j 0 < 2 ^ 32)
      → word_in b'.mmu (mmu.curr_vaddr + stack_size - 4 * (n + 1)) ≡ get_or xs n 0
  stack_word n h low room high fits =
      let top = mmu.curr_vaddr + stack_size in
      sym (
        number_at-Backs (start_layout i mmu code_start code_end) b'
          (stacked (content mmu.base bytes code_start code_end) top xs) k (top - 4 * (n + 1)) 4
          (omega arith) (omega arith))
      ∙ number_at-stacked xs (content mmu.base bytes code_start code_end) top n deep h fits

-- The registers when the core starts.
abbrev pub first_registers : ℕ → ℕ → ℕ
first_registers top = update (update (update (λ _. 0) 1 0x1337c0de) 2 top) 2 (top - 24)

abbrev pub started_core : ℕ → ℕ → Core
started_core entry top = record cpu_init {
  pc = entry;
  registers = first_registers top;
  trap_handler = true;
}

pub frame_fits :
    (av0 av1 : ℕ)
    → av0 < 2 ^ 32
    → av1 < 2 ^ 32
    → (k : ℕ) → k < 6
    → get_or (frame av0 av1) k 0 < 2 ^ 32
frame_fits av0 av1 h0 h1 k h = ground arith
