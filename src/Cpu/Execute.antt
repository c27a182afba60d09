-- ===== src/Cpu/Execute.antt =====
-- The stage `execute`: one `switch` over the formats, with a child module for the cases of each.
mod RType
mod IType
mod Others
unfoldable pub use RType.*
unfoldable pub use IType.*
unfoldable pub use Others.*
use criscv.Base.{Result}
use criscv.Cpu.Isa.{OpType, unknown, r_type, i_type, s_type, b_type, u_type, j_type, c_type}
use criscv.Cpu.State.{Core, cause_trap, illegal_instruction}

unfoldable pub execute_format : OpType → Core → Result Core
execute_format r_type core = execute_r core
execute_format i_type core = execute_i core
execute_format s_type core = execute_s core
execute_format b_type core = execute_b core
execute_format u_type core = execute_u core
execute_format j_type core = execute_j core
execute_format c_type core = execute_c core
execute_format unknown core = cause_trap core illegal_instruction

unfoldable pub execute : Core → Result Core
execute core = execute_format core.decoded.optype core
