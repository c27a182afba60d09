-- ===== src/Mmio.antt =====
-- src/mmio.h: devices on the bus.
use criscv.Base.{ℕ}

pub data AccessWidth : Type 0 where
  byte halfword word : AccessWidth

-- `mmio_perm_t`
abbrev pub read_perm : ℕ
read_perm = 1

abbrev pub write_perm : ℕ
write_perm = 2

pub data DeviceState : Type 0 where
  ready busy error : DeviceState

-- Which functions the pointers of a device lead to: those of memory.c or those of csr.c.
pub data Driver : Type 0 where
  ram csr_mmio : Driver

-- `mmio_device_t`, less `next`, for which the bus has a list, and `user`: the one segment of
-- memory stands beside the devices.
pub record MmioDevice : Type 0 where
  pub base_address : ℕ
  pub size : ℕ
  pub perm : ℕ
  pub state : DeviceState
  pub driver : Driver
