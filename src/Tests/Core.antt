-- ===== src/Tests/Core.antt =====
-- The theorems on src/cpu.c, applied to a core and a bus.
use criscv.Base.{◌≡◌, ◌⊎◌, inl, inr, refl, arith, ok, update, some}
use criscv.Mmu.{allows}
use criscv.Mmu.Loops.{all_allow}
use criscv.Bus.{Bus, bus_ok, address_not_found, find, covers, bus_write_single}
use criscv.Bus.Loaded.{number_loaded, number_hit}
use criscv.Spec.Machine.{load_size, number_at}
use criscv.Mmio.{halfword}
use criscv.Mmu.Transfer.{IsValid}
use criscv.Tests.Sample.{segment, sample_core, sample_bus, segment-IsValid, ram_device}
use criscv.Bus.Total.{load_result, store_result, bus_write_single_lem}
use criscv.Spec.Encode.{
  encode_r, encode_i, encode_s, encode_b, encode_j, extend12, extend13, extend21,
}
use criscv.Spec.Alu.{sub, alu, funct3, funct7}
use criscv.Spec.Branch.{blt, branch_funct3, taken}
use criscv.Spec.Access.{lh, sb, load_funct3, load_width, store_funct3, store_width}
use criscv.Cpu.State.{Core, cpu_init, load_access_fault, store_access_fault}
use criscv.Cpu.Run.{cycles, fetched, Retired, Trapped}
use criscv.Cpu.Arithmetic.{cycles-alu}
use criscv.Cpu.Load.{effective, cycles-load_result}
use criscv.Cpu.Store.{cycles-store, cycles-load_store, stored}
use criscv.Cpu.Branch.{cycles-taken}
use criscv.Cpu.Upper.{cycles-jump}

-- `sub x7, x6, x5`
cycles-alu_example :
    (c : Core) × (cycles 4 (fetched sample_core 0x405303b3) sample_bus ≡ ok (c, sample_bus))
    × Retired sample_core (update sample_core.registers 7 12) 0x10004 c
unfolding cpu_init encode_r alu funct7 funct3
cycles-alu_example =
    cycles-alu sample_core sample_bus sub 5 6 7 (omega arith) (omega arith) (omega arith)
      (ground arith)

-- A segment of readable bytes 0xfe, and `lh x7, 4(x8)`.
abbrev full_bus : Bus
full_bus = record sample_bus { mmu = record segment { bytes = λ _. 0xfe; perm = λ _. 6 } }

full_bus-IsValid : IsValid full_bus.mmu
full_bus-IsValid = record {
  bytes_fit = refl;
  perm_fit = refl;
  dirty_fit = omega arith;
  in_space = omega arith;
  not_null = omega arith;
  curr_low = omega arith;
  curr_high = omega arith;
}

cycles-load_result_example :
    let b = (load_result (some (1, ram_device)) full_bus 0x108 halfword).1 in
    ((c : Core) × (cycles 4 (fetched sample_core (encode_i 4 8 (load_funct3 lh) 7 0x03)) full_bus
        ≡ ok (c, b))
      × (b.status ≡ bus_ok)
      × Retired sample_core (update sample_core.registers 7 0xfefe) 0x10004 c)
    ⊎ ((c : Core) × (cycles 3 (fetched sample_core (encode_i 4 8 (load_funct3 lh) 7 0x03)) full_bus
          ≡ ok (c, b))
        × (b.status ≡ address_not_found)
        × Trapped sample_core load_access_fault c)
unfolding cpu_init find covers extend12 load_width load_size number_loaded number_hit number_at
    all_allow allows
cycles-load_result_example =
    cycles-load_result sample_core full_bus lh 4 8 7 (omega arith) (omega arith) (omega arith) refl
      full_bus-IsValid

abbrev missed_bus : Bus
missed_bus = record sample_bus { status = address_not_found }

no_device :
    bus_write_single sample_bus (effective sample_core 5 4) (stored sb 42) (store_width sb)
    ≡ ok missed_bus
unfolding cpu_init extend12 find covers store_result store_width
no_device =
    bus_write_single_lem sample_bus refl segment-IsValid 34 (omega arith) (store_width sb) 42

-- `sb x6, 4(x5)`, where no device is
cycles-store_example :
    ((c : Core) × (cycles 4 (fetched sample_core (encode_s 4 6 5 (store_funct3 sb) 0x23)) sample_bus
        ≡ ok (c, missed_bus))
      × (missed_bus.status ≡ bus_ok)
      × Retired sample_core sample_core.registers 0x10004 c)
    ⊎ ((c : Core) × (cycles 3
            (fetched sample_core (encode_s 4 6 5 (store_funct3 sb) 0x23))
            sample_bus
          ≡ ok (c, missed_bus))
        × (missed_bus.status ≡ address_not_found)
        × Trapped sample_core store_access_fault c)
unfolding cpu_init
cycles-store_example =
    cycles-store sample_core sample_bus sb 4 6 5 (omega arith) (omega arith) (omega arith)
      missed_bus no_device (inr refl)

-- `sw x6, 4(x8)`, `lw x7, 4(x8)`
cycles-load_store_example :
    (c : Core) × (b : Bus) × (c' : Core) × (b' : Bus) × (cycles 4
        (fetched sample_core 0x00642223)
        sample_bus
      ≡ ok (c, b))
    × (cycles 4 (fetched c 0x00442383) b ≡ ok (c', b'))
    × Retired c (update sample_core.registers 7 42) 0x10008 c'
unfolding cpu_init encode_s encode_i store_funct3 load_funct3 extend12 find covers all_allow allows
cycles-load_store_example =
    cycles-load_store sample_core sample_bus 4 6 8 7 1 ram_device (omega arith) (omega arith)
      (omega arith) (omega arith) refl segment-IsValid refl refl refl (omega arith) (omega arith)
      refl (λ j p q. inl refl)

-- `blt x5, x6, -8`
cycles-taken_example :
    (c : Core) × (cycles 4 (fetched sample_core 0xfe62cce3) sample_bus ≡ ok (c, sample_bus))
    × Retired sample_core sample_core.registers 0xfff8 c
unfolding cpu_init encode_b branch_funct3 taken extend13
cycles-taken_example =
    cycles-taken sample_core sample_bus blt 0x1ff8 6 5 (omega arith) refl (omega arith)
      (omega arith)

-- `jal x1, 8`, `jalr x1, 4(x8)`
cycles-jump_example :
    ((c : Core) × (cycles 4 (fetched sample_core 0x008000ef) sample_bus ≡ ok (c, sample_bus))
      × Retired sample_core (update sample_core.registers 1 0x10004) 0x10008 c)
    × ((c : Core) × (cycles 4 (fetched sample_core 0x004400e7) sample_bus ≡ ok (c, sample_bus))
        × Retired sample_core (update sample_core.registers 1 0x10004) 0x108 c)
unfolding cpu_init encode_j encode_i extend12 extend21
cycles-jump_example =
    cycles-jump sample_core sample_bus 8 4 8 1 (omega arith) refl (omega arith) (omega arith)
      (omega arith)
