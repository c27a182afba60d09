-- ===== src/Emulator/Prepare.antt =====
-- How `emulator_run` of src/emulator.c hands the program over to the core: the stack, the arguments, the
-- registers.
use criscv.Base.{
  ℕ, ◌+◌, ◌-◌, ◌^◌, ◌<◌, ◌≤◌, ◌≡◌, refl, sym, ap, ◌∙◌, arith, ok, List, length, update, slice, true,
  false, add32,
}
use criscv.Config.{stack_size}
use criscv.Mmu.{Mmu, mmu_allocate, mmu_allocate_raw, mperm_read, allows}
use criscv.Mmu.Loops.{within, overlay}
use criscv.Mmu.Allocate.{aligned}
use criscv.Mmio.{byte}
use criscv.Bus.{Bus, bus_write_multiple}
use criscv.Cpu.State.{Core, cpu_init, core_init}
use criscv.Spec.Machine.{Machine}
use criscv.Cpu.Refine.{Backs}
use criscv.Emulator.{prepare, push_all}
use criscv.Emulator.Stack.{stacked, push_all-Backs}
use criscv.Emulator.Start.{
  IsUsable, Placed, granted, granted-IsUsable, mmu_allocate-granted, place_argument,
}
use criscv.Emulator.Frame.{
  slice-cong, start_layout, content, frame, start-Backs, Started, above_stack, stack_word,
  started_core, frame_fits,
}

module _ (i : ℕ) (bus : Bus) (u : IsUsable i bus) (entry : ℕ) (argv0 argv1 : List ℕ)
    (pos0 : 0 < length argv0) (pos1 : 0 < length argv1) (small0 : length argv0 < 2 ^ 31)
    (small1 : length argv1 < 2 ^ 31)
    (room : bus.mmu.curr_vaddr + stack_size + aligned (length argv0) + aligned (length argv1)
      < bus.mmu.base + bus.mmu.size)
    (code_start code_end : ℕ) (code_low : bus.mmu.base ≤ code_start)
    (code_high : code_end ≤ bus.mmu.curr_vaddr)
    (code_reads : (a : ℕ)
      → code_start ≤ a
      → a < code_end
      → allows (bus.mmu.perm (a - bus.mmu.base)) mperm_read ≡ true) where
  abbrev top : ℕ
  top = bus.mmu.curr_vaddr + stack_size

  abbrev with_stack : Bus
  with_stack = record bus { mmu = granted bus.mmu stack_size }

  abbrev av1 : ℕ
  av1 = top + aligned (length argv0)

  -- The bytes of the segment with the two arguments, and the machine that then starts.
  abbrev pub argument_bytes : ℕ → ℕ
  argument_bytes =
      overlay argv1 (av1 - bus.mmu.base) (overlay argv0 (top - bus.mmu.base) bus.mmu.bytes)

  abbrev pub pushed : Machine
  pushed = stacked (content bus.mmu.base argument_bytes code_start code_end) top (frame top av1)

  argument_bytes_are :
      (b0 b1 : Bus)
      → Placed i with_stack argv0 b0
      → Placed i b0 argv1 b1
      → b1.mmu.bytes ≡ argument_bytes
  argument_bytes_are b0 b1 p0 p1 =
      let base0 = p0.same_base in
      let next0 = p0.next_block in
      let place : b0.mmu.curr_vaddr - b0.mmu.base ≡ av1 - bus.mmu.base = omega arith in
      p1.content_is
      ∙ ap (λ (x : ℕ). overlay argv1 x b0.mmu.bytes) place
      ∙ ap (λ (f : ℕ → ℕ). overlay argv1 (av1 - bus.mmu.base) f) p0.content_is

  -- What the two arguments and the stack make of the bus and of the core.
  started :
      (b0 b1 b2 : Bus)
      → Placed i with_stack argv0 b0
      → Placed i b0 argv1 b1
      → Backs (start_layout i bus.mmu code_start code_end) b2 pushed
      → Started bus entry argv0 argv1 (started_core entry top) b2
  unfolding cpu_init
  started b0 b1 b2 p0 p1 k =
      let v = u.valid in
      let is = argument_bytes_are b0 b1 p0 p1 in
      let fits = frame_fits top av1 (omega arith) (omega arith) in
      let same_base : b1.mmu.base ≡ bus.mmu.base = p1.same_base ∙ p0.same_base in
      let base0 = p0.same_base in
      let next0 = p0.next_block in
      let xs = frame top av1 in
      let above = above_stack i bus.mmu code_start code_end argument_bytes b2 xs k (omega arith) in
      let place : av1 - bus.mmu.base ≡ b0.mmu.curr_vaddr - b0.mmu.base = omega arith in
      record {
        at_entry = refl;
        fetches = refl;
        none_prefetched = refl;
        no_trap_yet = refl;
        handled = refl;
        return_address = refl;
        stack_pointer = refl;
        other_registers = λ x one two. ground arith;
        is_free = k.is_free;
        valid = k.valid;
        on_stack = λ n h.
            stack_word i bus.mmu code_start code_end argument_bytes b2 xs k (omega arith) n h
              v.curr_low (omega arith) (omega arith) fits;
        program_name =
            above top (length argv0) (omega arith) (omega arith) v.curr_low
            ∙ ap (λ (f : ℕ → ℕ). slice f (top - bus.mmu.base) (length argv0)) (sym is)
            ∙ slice-cong b1.mmu.bytes b0.mmu.bytes (top - bus.mmu.base) (length argv0)
                (λ j jl jh. (p1.below j (omega arith)).0)
            ∙ p0.text;
        argument =
            above av1 (length argv1) (omega arith) (omega arith) v.curr_low
            ∙ ap (λ (f : ℕ → ℕ). slice f (av1 - bus.mmu.base) (length argv1)) (sym is)
            ∙ ap (λ (x : ℕ). slice b1.mmu.bytes x (length argv1)) place
            ∙ p1.text;
      }

  stack_raw :
      (b0 b1 : Bus)
      → Placed i with_stack argv0 b0
      → Placed i b0 argv1 b1
      → (j : ℕ) → bus.mmu.curr_vaddr - bus.mmu.base ≤ j
      → j < bus.mmu.curr_vaddr - bus.mmu.base + stack_size
      → b1.mmu.perm j ≡ 10
  stack_raw b0 b1 p0 p1 j lo hi =
      let v = u.valid in
      let base0 = p0.same_base in
      let next0 = p0.next_block in
      let inside : within (bus.mmu.curr_vaddr - bus.mmu.base) stack_size j ≡ true = ground arith in
      (p1.below j (omega arith)).1 ∙ (p0.below j (omega arith)).1 ∙ rw inside

  code_stays_readable :
      (b0 b1 : Bus)
      → Placed i with_stack argv0 b0
      → Placed i b0 argv1 b1
      → (a : ℕ) → code_start ≤ a
      → a < code_end
      → allows (b1.mmu.perm (a - b1.mmu.base)) mperm_read ≡ true
  code_stays_readable b0 b1 p0 p1 a lo hi =
      let v = u.valid in
      let base0 = p0.same_base in
      let next0 = p0.next_block in
      let base : b1.mmu.base ≡ bus.mmu.base = p1.same_base ∙ p0.same_base in
      let j = a - bus.mmu.base in
      let out : within (bus.mmu.curr_vaddr - bus.mmu.base) stack_size j ≡ false = ground arith in
      let same : b1.mmu.perm j ≡ bus.mmu.perm j =
        (p1.below j (omega arith)).1 ∙ (p0.below j (omega arith)).1 ∙ rw out in
      rw base (rw same (code_reads a lo hi))

  abbrev unpushed : Core
  unpushed = record cpu_init {
    pc = entry;
    registers = update (update (λ _. 0) 1 0x1337c0de) 2 top;
    trap_handler = true;
  }

  -- `prepare`, from what each of its calls gives.
  prepare_steps :
      (b0 b1 b2 : Bus) (m0 m1 : Mmu) (av1 n0 n1 : ℕ) (d : Core)
      → mmu_allocate bus.mmu stack_size 10 ≡ ok (bus.mmu.curr_vaddr, granted bus.mmu stack_size)
      → mmu_allocate (granted bus.mmu stack_size) (length argv0) 10 ≡ ok (top, m0)
      → bus_write_multiple (record bus { mmu = m0 }) top argv0 (length argv0) byte ≡ ok (n0, b0)
      → mmu_allocate b0.mmu (length argv1) 10 ≡ ok (b0.mmu.curr_vaddr, m1)
      → bus_write_multiple (record b0 { mmu = m1 }) b0.mmu.curr_vaddr argv1 (length argv1) byte
        ≡ ok (n1, b1)
      → b0.mmu.curr_vaddr ≡ av1
      → push_all unpushed b1 (frame top av1) ≡ ok (d, b2)
      → prepare bus entry argv0 argv1 ≡ ok (d, b2)
  unfolding prepare core_init cpu_init mmu_allocate_raw
  prepare_steps b0 b1 b2 m0 m1 av1 n0 n1 d stack found0 wrote0 found1 wrote1 same pushed =
      let v = u.valid in
      let narrow : add32 bus.mmu.curr_vaddr stack_size ≡ top = omega arith in
      rw (stack, found0, wrote0, found1, wrote1, narrow, same) pushed

  finish :
      (b0 b1 : Bus)
      → mmu_allocate (granted bus.mmu stack_size) (length argv0) 10
        ≡ ok (top, granted (granted bus.mmu stack_size) (length argv0))
      → bus_write_multiple
          (record bus { mmu = granted (granted bus.mmu stack_size) (length argv0) })
          top
          argv0
          (length argv0)
          byte
        ≡ ok (length argv0, b0)
      → mmu_allocate b0.mmu (length argv1) 10
        ≡ ok (b0.mmu.curr_vaddr, granted b0.mmu (length argv1))
      → bus_write_multiple
          (record b0 { mmu = granted b0.mmu (length argv1) })
          b0.mmu.curr_vaddr
          argv1
          (length argv1)
          byte
        ≡ ok (length argv1, b1)
      → Placed i with_stack argv0 b0
      → Placed i b0 argv1 b1
      → (b : Bus) × (prepare bus entry argv0 argv1 ≡ ok (started_core entry top, b))
        × Started bus entry argv0 argv1 (started_core entry top) b
        × Backs (start_layout i bus.mmu code_start code_end) b pushed
  finish b0 b1 found0 wrote0 found1 wrote1 p0 p1 =
      let v = u.valid in
      let xs = frame top av1 in
      let lay = start_layout i bus.mmu code_start code_end in
      let base : b1.mmu.base ≡ bus.mmu.base = p1.same_base ∙ p0.same_base in
      let size : b1.mmu.size ≡ bus.mmu.size = p1.same_size ∙ p0.same_size in
      let k =
        start-Backs i bus u code_start code_end code_low code_high b1 argument_bytes p1.usable base
          size (argument_bytes_are b0 b1 p0 p1) (omega arith) (stack_raw b0 b1 p0 p1)
          (code_stays_readable b0 b1 p0 p1) in
      let (b2, down, k2) =
        push_all-Backs lay xs unpushed b1 (content bus.mmu.base argument_bytes code_start code_end)
          top k refl (omega arith) (omega arith) (frame_fits top av1 (omega arith) (omega arith)) in
      (
        b2,
        prepare_steps b0 b1 b2 _ _ av1 _ _ (started_core entry top)
            (mmu_allocate-granted i bus u stack_size (omega arith) (omega arith)) found0 wrote0
            found1 wrote1 p0.next_block down,
        started b0 b1 b2 p0 p1 k2,
        k2,
      )

  pub prepared :
      (b : Bus) × (prepare bus entry argv0 argv1 ≡ ok (started_core entry top, b))
      × Started bus entry argv0 argv1 (started_core entry top) b
      × Backs (start_layout i bus.mmu code_start code_end) b pushed
  prepared =
      let v = u.valid in
      let ws = granted-IsUsable i bus u stack_size (omega arith) in
      let (b0, found0, wrote0, p0) =
        place_argument i with_stack ws argv0 pos0 small0 (omega arith) in
      let base0 = p0.same_base in
      let size0 = p0.same_size in
      let next0 = p0.next_block in
      let (b1, found1, wrote1, p1) =
        place_argument i b0 p0.usable argv1 pos1 small1 (omega arith) in
      finish b0 b1 found0 wrote0 found1 wrote1 p0 p1

module _ (i : ℕ) (bus : Bus) (u : IsUsable i bus) (entry : ℕ) (argv0 argv1 : List ℕ)
    (pos0 : 0 < length argv0) (pos1 : 0 < length argv1) (small0 : length argv0 < 2 ^ 31)
    (small1 : length argv1 < 2 ^ 31)
    (room : bus.mmu.curr_vaddr + stack_size + aligned (length argv0) + aligned (length argv1)
      < bus.mmu.base + bus.mmu.size) where
  -- `emulator_run` prepares the core and the memory: on a bus whose mutex is free, with a well-formed
  -- segment that belongs to one RAM device, ready and writable, and with more room above `curr_vaddr`
  -- than the stack and the two arguments take, each with its zero byte and shorter than 2 ^ 31. The
  -- core is about to fetch at the entry point, its handler set; x1 is 0x1337c0de, x2 points to the six
  -- words on the stack (42, the addresses of the two texts, three zeros), and every other register is
  -- 0. The texts stand where the two words point, and the mutex is free and the segment well-formed.
  pub prepare_lem :
      (c : Core) × (b : Bus) × (prepare bus entry argv0 argv1 ≡ ok (c, b))
      × Started bus entry argv0 argv1 c b
  prepare_lem =
      let v = u.valid in
      let base = bus.mmu.base in
      let (b, run, started, backs) =
        prepared i bus u entry argv0 argv1 pos0 pos1 small0 small1 room base base (omega arith)
          v.curr_low (λ a lo hi. absurd (omega arith)) in
      (started_core entry (bus.mmu.curr_vaddr + stack_size), b, run, started)
