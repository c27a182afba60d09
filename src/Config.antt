-- ===== src/Config.antt =====
-- src/config.h: the memory map and the sizes.
use criscv.Base.{ℕ, ◌+◌, ◌-◌, ◌*◌, ◌^◌}

abbrev pub prefetch_size : ℕ
prefetch_size = 8

abbrev pub numcores : ℕ
numcores = 1

abbrev pub ram_start : ℕ
ram_start = 0x10000

abbrev pub ram_end : ℕ
ram_end = 0x7ffff

abbrev pub ram_size : ℕ
ram_size = ram_end - ram_start

abbrev pub video_ram_start : ℕ
video_ram_start = ram_end

abbrev pub video_ram_size : ℕ
video_ram_size = 640 * 480 * 4

abbrev pub video_ram_end : ℕ
video_ram_end = video_ram_start + video_ram_size

abbrev pub csr_mmap_base_addr : ℕ
csr_mmap_base_addr = video_ram_end

abbrev pub stack_size : ℕ
stack_size = 2 ^ 12
