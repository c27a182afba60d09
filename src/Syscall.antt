-- ===== src/Syscall.antt =====
-- src/syscall.h and src/syscall.c: the system calls of a guest. `core->bus` stands beside the core, and
-- `emu->mmu` is the segment of the bus. No failure of `malloc` is modelled.
pub mod Frame
pub mod Break
pub mod Transfer
use criscv.Base.{
  ℕ, ◌+◌, ◌-◌, ◌^◌, ◌%◌, bit_and, bit_or, Bool, true, false, ltb, leb, ◌==◌, if◌then◌else◌, List,
  ◌++◌, length, take, drop, update, u32, add32, sub32, Result, ok, stop, assert_failed, require,
  ◌>>=◌, ◌>>◌,
}
use criscv.Mmio.{byte}
use criscv.Mmu.{mmu_allocate, mperm_write, mperm_raw}
use criscv.Bus.{Bus, is_bus_ok, bus_read_multiple, bus_write_multiple, bus_read_string}
use criscv.Cpu.State.{Core}

-- The calls to the host, over its state. Each answers with an `int`, as a 32-bit pattern; `host_read`
-- and `host_fstat` also with what the buffer then holds, all of it. `old_stack` is what an
-- uninitialised buffer holds.
pub record Host (S : Type 0) : Type 0 where
  pub host_read : S → ℕ → ℕ → ℕ × List ℕ × S
  pub host_write : S → ℕ → List ℕ → ℕ → ℕ × S
  pub host_fstat : S → ℕ → ℕ × List ℕ × S
  pub host_close : S → ℕ → ℕ × S
  pub host_open : S → List ℕ → ℕ → ℕ → ℕ × S
  pub host_lseek : S → ℕ → ℕ → ℕ → ℕ × S
  pub old_stack : List ℕ

-- `core->trap_regs[10] = x`
unfoldable pub set_result : Core → ℕ → Core
set_result core x = record core { trap_regs = update core.trap_regs 10 (u32 x) }

abbrev pub sys_close_num : ℕ
sys_close_num = 57

abbrev pub sys_lseek_num : ℕ
sys_lseek_num = 62

abbrev pub sys_read_num : ℕ
sys_read_num = 63

abbrev pub sys_write_num : ℕ
sys_write_num = 64

abbrev pub sys_fstat_num : ℕ
sys_fstat_num = 80

abbrev pub sys_exit_num : ℕ
sys_exit_num = 93

abbrev pub sys_exit_group_num : ℕ
sys_exit_group_num = 94

abbrev pub sys_brk_num : ℕ
sys_brk_num = 214

abbrev pub sys_open_num : ℕ
sys_open_num = 1024

-- Of `sys_brk`: the increase in the size of the heap.
unfoldable pub requested_increase : ℕ → ℕ
requested_increase arg0 =
    let vaddr = arg0 in if arg0 == 0 then 0 else bit_and (add32 (sub32 arg0 vaddr) 0x100) 0xffffff00

module _ {S : Type 0} (host : Host S) where
  -- Each call gives what it returns, the core, the bus and the host.
  unfoldable pub sys_read : Core → Bus → S → ℕ → ℕ → ℕ → Result (Bool × Core × Bus × S)
  unfolding set_result
  sys_read core bus s arg0 arg1 arg2 = do
    let (ret, mem, s') = host.host_read s arg0 arg2
    (_, b) ← bus_write_multiple bus arg1 mem arg2 byte
    ok (true, set_result core ret, b, s')

  unfoldable pub sys_write : Core → Bus → S → ℕ → ℕ → ℕ → Result (Bool × Core × Bus × S)
  unfolding set_result
  sys_write core bus s arg0 arg1 arg2 = do
    require (leb arg0 2) assert_failed
    require (ltb arg2 256) assert_failed
    (_, dst, b) ← bus_read_multiple bus arg1 arg2 byte
    let buf = dst ++ drop (length dst) host.old_stack
    let (ret, s') = host.host_write s arg0 (take arg2 buf) arg2
    ok (true, set_result core ret, b, s')

  unfoldable pub sys_fstat : Core → Bus → S → ℕ → ℕ → Result (Bool × Core × Bus × S)
  unfolding set_result
  sys_fstat core bus s arg0 arg1 = do
    let (ret, buf, s') = host.host_fstat s arg0
    (_, b) ← bus_write_multiple bus arg1 (take 112 buf) 112 byte
    ok (true, set_result core ret, b, s')

  unfoldable pub sys_close : Core → Bus → S → ℕ → Result (Bool × Core × Bus × S)
  unfolding set_result
  sys_close core bus s arg0 =
      if leb arg0 2
      then ok (true, set_result core 0, bus, s)
      else (let (ret, s') = host.host_close s arg0 in ok (true, set_result core ret, bus, s'))

  unfoldable pub sys_open : Core → Bus → S → ℕ → ℕ → ℕ → Result (Bool × Core × Bus × S)
  unfolding set_result
  sys_open core bus s arg0 arg1 arg2 = do
    (buf, b) ← bus_read_string bus arg0 256
    let (ret, s') = host.host_open s buf arg1 arg2
    if is_bus_ok b.status then ok (true, set_result core ret, b, s') else ok (false, core, b, s)

  unfoldable pub sys_lseek : Core → Bus → S → ℕ → ℕ → ℕ → Result (Bool × Core × Bus × S)
  unfolding set_result
  sys_lseek core bus s arg0 arg1 arg2 =
      let (ret, s') = host.host_lseek s arg0 arg1 arg2 in ok (true, set_result core ret, bus, s')

  unfoldable pub sys_brk : Core → Bus → S → ℕ → Result (Bool × Core × Bus × S)
  unfolding set_result
  sys_brk core bus s arg0 =
      if ltb 0 (requested_increase arg0)
      then (do
        (_, m) ← mmu_allocate bus.mmu (requested_increase arg0) (bit_or mperm_raw mperm_write)
        ok (true, set_result core arg0, record bus { mmu = m }, s))
      else ok (true, set_result core (u32 bus.mmu.curr_vaddr), bus, s)

  -- The `switch` on the number `n` of the call.
  unfoldable pub handle_syscall : Core → Bus → S → ℕ → ℕ → ℕ → ℕ → Result (Bool × Core × Bus × S)
  handle_syscall core bus s n arg0 arg1 arg2 =
      if n == sys_exit_num
      then ok (false, core, bus, s)
      else if n == sys_exit_group_num
      then ok (false, core, bus, s)
      else if n == sys_brk_num
      then sys_brk core bus s arg0
      else if n == sys_read_num
      then sys_read core bus s arg0 arg1 arg2
      else if n == sys_write_num
      then sys_write core bus s arg0 arg1 arg2
      else if n == sys_open_num
      then sys_open core bus s arg0 arg1 arg2
      else if n == sys_close_num
      then sys_close core bus s arg0
      else if n == sys_lseek_num
      then sys_lseek core bus s arg0 arg1 arg2
      else if n == sys_fstat_num
      then sys_fstat core bus s arg0 arg1
      else ok (false, core, bus, s)
