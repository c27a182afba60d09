-- ===== src/Cpu/Keeps.antt =====
-- What the stages between the fetch and the writeback leave alone.
use criscv.Base.{
  ℕ, ◌≡◌, arith, Bool, true, false, if◌then◌else◌, ◌⊎◌, Option, none, some, Result, ok, stop, ◌>>=◌,
}
use criscv.Bus.{Bus, BusStatus}
use criscv.Csr.{csr_read_write32}
use criscv.Cpu.Isa.{OpType, unknown, r_type, i_type, s_type, b_type, u_type, j_type, c_type}
use criscv.Cpu.State.{Core, Instr, in_trap, enter, cause_trap, illegal_instruction, env_call_umode}
use criscv.Cpu.Decode.{decode, decode_common, decode_format}
use criscv.Cpu.Execute.{
  execute_format, execute_r, execute_i, execute_s, execute_b, execute_u, execute_j, execute_c,
  finish_r, finish_i, alu_i, op_of, se_imm12, load, store,
}
use criscv.Cpu.Stages.{load_cause, store_cause, memory_access, report}

-- What a stage between the fetch and the writeback does to those members: nothing, or a trap.
pub record Keeps (core c : Core) : Type 0 where
  pub same_registers : c.registers ≡ core.registers
  pub same_saved : c.trap_regs ≡ core.trap_regs
  pub same_count : c.prefetch_cnt ≡ core.prefetch_cnt
  pub same_pc : c.pc ≡ core.pc
  pub same_prefetch : c.prefetch ≡ core.prefetch
  pub same_instruction : c.instruction ≡ core.instruction
  pub same_or_trap :
      ((c.state ≡ core.state) × (c.trap_state ≡ core.trap_state))
      ⊎ ((c.state ≡ in_trap) × (c.trap_state ≡ enter))

-- Another instruction in the core makes no difference.
Keeps-decoded :
    (core c : Core) (dec : Instr) → Keeps (record core { decoded = dec }) c → Keeps core c
Keeps-decoded core c dec kept = record {
  same_registers = kept.same_registers;
  same_saved = kept.same_saved;
  same_count = kept.same_count;
  same_pc = kept.same_pc;
  same_prefetch = kept.same_prefetch;
  same_instruction = kept.same_instruction;
  same_or_trap = kept.same_or_trap;
}

cause_trap-Keeps : (core c : Core) (cause : ℕ) → cause_trap core cause ≡ ok c → Keeps core c
unfolding cause_trap csr_read_write32
cause_trap-Keeps core c cause h = ground arith

finish_r-Keeps : (o : Option ℕ) (core c : Core) → finish_r o core ≡ ok c → Keeps core c
unfolding finish_r
finish_r-Keeps none core c h = cause_trap-Keeps core c _ h
finish_r-Keeps (some v) core c h = ground arith

finish_i-Keeps : (o : Option ℕ) (core c : Core) → finish_i o core ≡ ok c → Keeps core c
unfolding finish_i
finish_i-Keeps none core c h = cc
finish_i-Keeps (some v) core c h = ground arith

execute_i-Keeps : (core c : Core) → execute_i core ≡ ok c → Keeps core c
unfolding execute_i load
execute_i-Keeps core c h =
    let dec = core.decoded in
    let rest = alu_i (op_of dec) dec.rs1v (se_imm12 dec.imm12) dec.shamt in
    ground (arith, finish_i-Keeps rest (record core { decoded = record dec { write_rd = true } }) c)

execute_s-Keeps : (core c : Core) → execute_s core ≡ ok c → Keeps core c
unfolding execute_s store
execute_s-Keeps core c h = ground arith

execute_u-Keeps : (core c : Core) → execute_u core ≡ ok c → Keeps core c
unfolding execute_u
execute_u-Keeps core c h = ground arith

execute_j-Keeps : (core c : Core) → execute_j core ≡ ok c → Keeps core c
unfolding execute_j
execute_j-Keeps core c h = ground arith

pub execute-Keeps :
    (format : OpType) (core c : Core) → execute_format format core ≡ ok c → Keeps core c
unfolding execute_format execute_r execute_b execute_c
execute-Keeps unknown core c h = cause_trap-Keeps core c _ h
execute-Keeps r_type core c h =
    let dec = record core.decoded { write_rd = true } in
    Keeps-decoded core c dec (finish_r-Keeps _ (record core { decoded = dec }) c h)
execute-Keeps i_type core c h = execute_i-Keeps core c h
execute-Keeps s_type core c h = execute_s-Keeps core c h
execute-Keeps b_type core c h = ground arith
execute-Keeps u_type core c h = execute_u-Keeps core c h
execute-Keeps j_type core c h = execute_j-Keeps core c h
execute-Keeps c_type core c h =
    ground
      (arith, cause_trap-Keeps core c env_call_umode, cause_trap-Keeps core c illegal_instruction)

decode_format-Keeps :
    (format : OpType) (i : ℕ) (core c : Core) → decode_format format i core ≡ ok c → Keeps core c
unfolding decode_format
decode_format-Keeps unknown i core c h = cause_trap-Keeps core c _ h
decode_format-Keeps r_type i core c h = ground arith
decode_format-Keeps i_type i core c h = ground arith
decode_format-Keeps s_type i core c h = ground arith
decode_format-Keeps b_type i core c h = ground arith
decode_format-Keeps u_type i core c h = ground arith
decode_format-Keeps j_type i core c h = ground arith
decode_format-Keeps c_type i core c h = ground arith

pub decode-Keeps : (core c : Core) → decode core ≡ ok c → Keeps core c
unfolding decode
decode-Keeps core c h =
    Keeps-decoded core c (decode_common core)
      (decode_format-Keeps _ core.instruction (record core { decoded = decode_common core }) c h)

report-Keeps :
    (cause : BusStatus → ℕ) (core c : Core) (bus b : Bus)
    → report cause core bus ≡ ok (c, b)
    → Keeps core c
unfolding report cause_trap csr_read_write32
report-Keeps cause core c bus b h = ground arith

-- `memory_access`, by what the bus answers.
answered-Keeps :
    (loads stores : Bool) (m : Result (ℕ × Bus)) (n : Result Bus) (core c : Core) (bus b : Bus)
    → (if loads
        then (m >>= λ r. report load_cause (record core { alu_out = r.0 }) r.1)
        else (if stores then (n >>= λ b'. report store_cause core b') else ok (core, bus)))
      ≡ ok (c, b)
    → Keeps core c
answered-Keeps true stores (stop why) n core c bus b h = cc
answered-Keeps true stores (ok (r, b')) n core c bus b h =
    let kept = report-Keeps load_cause (record core { alu_out = r }) c b' b h in
    record {
      same_registers = kept.same_registers;
      same_saved = kept.same_saved;
      same_count = kept.same_count;
      same_pc = kept.same_pc;
      same_prefetch = kept.same_prefetch;
      same_instruction = kept.same_instruction;
      same_or_trap = kept.same_or_trap;
    }
answered-Keeps false true m (stop why) core c bus b h = cc
answered-Keeps false true m (ok b') core c bus b h = report-Keeps store_cause core c b' b h
answered-Keeps false false m n core c bus b h = ground arith

pub memory_access-Keeps :
    (core c : Core) (bus b : Bus) → memory_access core bus ≡ ok (c, b) → Keeps core c
unfolding memory_access
memory_access-Keeps core c bus b h =
    answered-Keeps core.decoded.read_mem core.decoded.write_mem _ _ core c bus b h
