-- ===== src/User.antt =====
-- user/src/syscall.rs and user/src/lib.rs: how a program calls the kernel. An `ecall` instruction
-- traps with the registers that are set here.
pub mod Calls
pub mod Start
use package.hj.Base.{ℕ, ◌+◌, ◌-◌, ◌^◌, bit_or, ltb, set, usize_mod, if◌then◌else◌}
use package.hj.Trap.Context.{TrapContext}

abbrev pub syscall_write : ℕ
syscall_write = 64

abbrev pub syscall_mmap : ℕ
syscall_mmap = 90

abbrev pub syscall_munmap : ℕ
syscall_munmap = 215

abbrev pub syscall_exit : ℕ
syscall_exit = 93

abbrev pub syscall_yield : ℕ
syscall_yield = 124

abbrev pub syscall_task_info : ℕ
syscall_task_info = bit_or (2 ^ 63) 1

-- `args` is a0, a1, a2.
pub record Request : Type 0 where
  pub id : ℕ
  pub a0 : ℕ
  pub a1 : ℕ
  pub a2 : ℕ

-- The context with which the call traps.
unfoldable pub syscall : Request → TrapContext → TrapContext
syscall r context = record context {
  x = set (set (set (set context.x 10 r.a0) 11 r.a1) 12 r.a2) 17 r.id;
}

unfoldable pub sys_write : (fd buffer len : ℕ) → Request
sys_write fd buffer len = record { id = syscall_write; a0 = fd; a1 = buffer; a2 = len }

-- `xstate as usize`: the bits of an `i32`, extended by its sign.
abbrev pub as_usize : ℕ → ℕ
as_usize xstate = if ltb xstate (2 ^ 31) then xstate else xstate + (usize_mod - 2 ^ 32)

unfoldable pub sys_exit : ℕ → Request
sys_exit xstate = record { id = syscall_exit; a0 = as_usize xstate; a1 = 0; a2 = 0 }

unfoldable pub sys_yield : Request
sys_yield = record { id = syscall_yield; a0 = 0; a1 = 0; a2 = 0 }

unfoldable pub sys_task_info : (task_id data_addr : ℕ) → Request
sys_task_info task_id data_addr = record {
  id = syscall_task_info;
  a0 = task_id;
  a1 = data_addr;
  a2 = 0;
}

unfoldable pub sys_mmap : (addr len prot : ℕ) → Request
sys_mmap addr len prot = record { id = syscall_mmap; a0 = addr; a1 = len; a2 = prot }

unfoldable pub sys_munmap : (addr len : ℕ) → Request
sys_munmap addr len = record { id = syscall_munmap; a0 = addr; a1 = len; a2 = 0 }
