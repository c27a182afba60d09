-- ===== src/Tests/Sample.antt =====
-- The inputs of the tests: a segment of 64 bytes, and a bus with it and the CSR device.
use criscv.Base.{refl, arith, true, false, [], ◌∷◌, Result, ok, stop, update, ℕ, List, ◌+◌}
use criscv.Mmio.{MmioDevice, ready, ram}
use criscv.Mmu.{Mmu, Heap, mmu_ok}
use criscv.Mmu.Transfer.{IsValid}
use criscv.Csr.{csr_mmio_device}
use criscv.Bus.{Bus, bus_ok}
use criscv.Cpu.State.{Core, cpu_init}
use criscv.Syscall.{Host}

-- Every byte is writable and read-after-write.
abbrev pub segment : Mmu
segment = record {
  size = 64;
  base = 0x100;
  curr_vaddr = 0x100;
  bytes = λ _. 0;
  bytes_len = 64;
  perm = λ _. 10;
  perm_len = 64;
  dirty = λ _. false;
  dirty_len = 2;
  state = mmu_ok;
}

pub segment-IsValid : IsValid segment
segment-IsValid = record {
  bytes_fit = refl;
  perm_fit = refl;
  dirty_fit = omega arith;
  in_space = omega arith;
  not_null = omega arith;
  curr_low = omega arith;
  curr_high = omega arith;
}

abbrev pub ram_device : MmioDevice
ram_device = record { base_address = 0x100; size = 64; perm = 3; state = ready; driver = ram }

abbrev pub sample_bus : Bus
sample_bus = record {
  devices = csr_mmio_device ∷ ram_device ∷ [];
  locked = false;
  status = bus_ok;
  mmu = segment;
  old_byte = 0;
}

abbrev pub generous : Heap
generous = record {
  grants_mmu = true;
  grants_bytes = true;
  grants_dirty = true;
  grants_perm = true;
  old_state = mmu_ok;
  old_bytes = λ _. 0;
  old_perm = λ _. 0;
  old_dirty = λ _. false;
}

-- x5 is 30, x6 is 42, and x8 is an address of the RAM device.
abbrev pub sample_core : Core
sample_core = record cpu_init {
  pc = 0x10000;
  registers = update (update (update (λ _. 0) 5 30) 6 42) 8 0x104;
}

-- The value of a run that returns, and `d` for one that does not.
abbrev pub value_or {ℓ} : {A : Type ℓ} → Result A → A → A
value_or (ok a) d = a
value_or (stop e) d = d

abbrev pub two_bytes : List ℕ
two_bytes = 9 ∷ 0 ∷ []

-- The state of the host is a number of calls; a read gives one byte of the two asked for.
abbrev pub sample_host : Host ℕ
sample_host = record {
  host_read = λ s fd n. (1, two_bytes, s + 1);
  host_write = λ s fd buf n. (n, s + 1);
  host_fstat = λ s fd. (0, [], s + 1);
  host_close = λ s fd. (0, s + 1);
  host_open = λ s name flags mode. (3, s + 1);
  host_lseek = λ s fd offset whence. (offset, s + 1);
  old_stack = [];
}
