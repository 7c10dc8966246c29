-- ===== src/User/Start.antt =====
-- user/src/lib.rs and user/src/task.rs: the start of a program, and what it is told about a task.
use hj.Base.{ℕ, ◌-◌, List, replicate}
use hj.Mm.Memory.{Memory, clear_bytes}
use hj.User.{Request, sys_write, sys_exit, sys_yield, sys_task_info, sys_mmap, sys_munmap}

abbrev pub max_syscalls_tracked : ℕ
max_syscalls_tracked = 6

pub data TaskState : Type 0 where
  ready running killed exited unused : TaskState

pub record TaskStatistics : Type 0 where
  pub mtime_first_run_start : ℕ
  pub mtime_last_run_start : ℕ
  pub mtime_last_run_end : ℕ
  pub mtime_total_executed : ℕ
  pub mtime_total_waiting : ℕ
  pub switch_count : ℕ
  pub syscall_counts : List (ℕ × ℕ)

pub record TaskInfo : Type 0 where
  pub task_id : ℕ
  pub state : TaskState
  pub stastics : TaskStatistics

unfoldable pub new_init : TaskStatistics
new_init = record {
  mtime_first_run_start = 0;
  mtime_last_run_start = 0;
  mtime_last_run_end = 0;
  mtime_total_executed = 0;
  mtime_total_waiting = 0;
  switch_count = 0;
  syscall_counts = replicate max_syscalls_tracked (0, 0);
}

unfoldable pub new_placeholder : TaskInfo
unfolding new_init
new_placeholder = record { task_id = 0; state = unused; stastics = new_init }

unfoldable pub clear_bss : (bss_start bss_end : ℕ) → Memory → Memory
clear_bss bss_start bss_end = clear_bytes (bss_end - bss_start) bss_start

-- `_start` up to the trap of `sys_exit`: the memory then, and the call. A return of the call would
-- panic, but the kernel never returns from it. `main` is the program's.
unfoldable pub start : (Memory → ℕ × Memory) → (bss_start bss_end : ℕ) → Memory → Memory × Request
unfolding clear_bss
start main bss_start bss_end memory =
    let (code, memory') = main (clear_bss bss_start bss_end memory) in (memory', sys_exit code)

-- The functions that pass their arguments on.
unfoldable pub write : (fd buffer len : ℕ) → Request
write fd buffer len = sys_write fd buffer len

unfoldable pub exit : ℕ → Request
exit exit_code = sys_exit exit_code

unfoldable pub yield_now : Request
yield_now = sys_yield

unfoldable pub get_task_info : (task_id data_addr : ℕ) → Request
get_task_info task_id data_addr = sys_task_info task_id data_addr

unfoldable pub mmap : (addr len prot : ℕ) → Request
mmap addr len prot = sys_mmap addr len prot

unfoldable pub munmap : (addr len : ℕ) → Request
munmap addr len = sys_munmap addr len
