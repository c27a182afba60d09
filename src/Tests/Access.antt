-- ===== src/Tests/Access.antt =====
-- The theorems on src/bus.c, applied to a bus with the CSR device and a RAM device.
use criscv.Base.{ℕ, ◌≡◌, refl, arith, true, inl, List, [], ◌∷◌, some, ok}
use criscv.Mmio.{halfword, word}
use criscv.Mmu.{allows}
use criscv.Mmu.Loops.{all_allow}
use criscv.Mmu.Transfer.{after_write, write_result}
use criscv.Mmu.ReadBack.{write_result-inside}
use criscv.Bus.{Bus, bus_ok, device_failure, find, covers, bus_read_single, bus_write_single}
use criscv.Bus.{bus_write_multiple}
use criscv.Bus.Total.{load_result, store_result, bus_read_single_lem, bus_write_single_lem}
use criscv.Bus.Settled.{IsSettled, bus_read_single-IsSettled}
use criscv.Bus.ReadBack.{bus_read_single-bus_write_single}
use criscv.Bus.Failure.{bus_write_multiple-wide}
use criscv.Tests.Sample.{segment, segment-IsValid, ram_device, sample_bus}

found : find sample_bus.devices 0x108 ≡ some (1, ram_device)
unfolding find covers
found = refl

bus_read_single-bus_write_single_example :
    (b : Bus) × (b' : Bus) × (bus_write_single sample_bus 0x108 0x12345678 halfword ≡ ok b)
    × (bus_read_single b 0x108 halfword ≡ ok (0x5678, b'))
    × (b.status ≡ bus_ok)
    × (b'.status ≡ bus_ok)
unfolding all_allow allows
bus_read_single-bus_write_single_example =
    bus_read_single-bus_write_single sample_bus 0x108 0x12345678 1 ram_device halfword refl
      segment-IsValid (omega arith) found refl refl (omega arith) (omega arith) refl
      (λ j p q. inl refl)

bus_read_single-IsSettled_example :
    (r : ℕ) × (b : Bus) × (bus_read_single sample_bus 0x20 word ≡ ok (r, b)) × IsSettled b
bus_read_single-IsSettled_example =
    bus_read_single-IsSettled sample_bus 0x20 word refl segment-IsValid (omega arith)

bus_read_single_lem_example :
    bus_read_single sample_bus 0x108 word
    ≡ ok (load_result (some (1, ram_device)) sample_bus 0x108 word)
unfolding find covers
bus_read_single_lem_example =
    bus_read_single_lem sample_bus refl segment-IsValid 0x108 (omega arith) word

bus_write_single_lem_example :
    bus_write_single sample_bus 0x108 77 word
    ≡ store_result (some (1, ram_device)) sample_bus 0x108 77 word
unfolding find covers
bus_write_single_lem_example =
    bus_write_single_lem sample_bus refl segment-IsValid 0x108 (omega arith) word 77

abbrev halves : List ℕ
halves = 1 ∷ 2 ∷ 3 ∷ 4 ∷ []

halves_written : write_result segment halves 0x108 ≡ (4, after_write segment halves 0x108)
unfolding all_allow allows
halves_written = write_result-inside segment halves 0x108 (omega arith) (omega arith) refl

bus_write_multiple-wide_example :
    (b : Bus) × (bus_write_multiple sample_bus 0x108 halves 2 halfword ≡ ok (0, b))
    × (b.mmu ≡ after_write segment halves 0x108)
    × (b.status ≡ device_failure)
    × (b.locked ≡ true)
bus_write_multiple-wide_example =
    bus_write_multiple-wide sample_bus refl segment-IsValid 0x108 (omega arith) 1 ram_device found
      refl refl refl halves 2 halfword (ground arith) (omega arith) refl (omega arith)
      halves_written
