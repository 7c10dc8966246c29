-- ===== src/Syscall.antt =====
-- os/src/syscall.rs: the dispatch of system calls, with the calls of syscall/io.rs and process.rs.
-- A result is the `usize` that `isize` values become in the register. The user memory accesses of
-- uaccess.S and the test of UTF-8 are arguments. Logging is left out.
pub mod Mm
pub mod Coverage
pub mod Schedule
use package.hj.Base.{
  ℕ, ◌+◌, ◌-◌, ◌*◌, ◌^◌, Bool, true, false, not, Option, none, some, List, ◌⊎◌, inl, inr, ◌==◌,
  if◌then◌else◌, usize_mod,
}
use package.hj.Outcome.{Outcome, Cmd, ok, err, panic, pure, abort, ◌>>=◌, ◌>>◌}
use package.hj.Mm.{check_u_va_range}
use package.hj.Task.{
  Kernel, Run, TaskInfo, exchange_current_task_state, get_current_task_id, get_task_info,
  run_next_task,
}
use package.hj.Task.State.{TaskState, ready, running, exited}
use Mm.{mmap, munmap, minus_one}

abbrev pub fd_stdout : ℕ
fd_stdout = 1

abbrev pub syscall_write : ℕ
syscall_write = 64

abbrev pub syscall_mmap : ℕ
syscall_mmap = 90

abbrev pub syscall_munmap : ℕ
syscall_munmap = 215

abbrev pub syscall_exit : ℕ
syscall_exit = 93

abbrev pub syscall_yield : ℕ
syscall_yield = 124

abbrev pub syscall_task_info : ℕ
syscall_task_info = 2 ^ 63 + 1

-- A call returns to its caller, or leaves for another task.
pub data Control : Type 0 where
  returned : ℕ → Control
  left : Run → Control

-- The accesses to user memory: the number of bytes that failed, with the bytes that were read; and
-- the standard library's test of UTF-8. `task_info_size` is `size_of::<TaskInfo>()`.
pub record Uaccess : Type 1 where
  pub copy_from_user : {E : Type 0} → ℕ → ℕ → Cmd Kernel E (ℕ × List ℕ)
  pub copy_to_user : {E : Type 0} → TaskInfo → ℕ → ℕ → Cmd Kernel E ℕ
  pub print : {E : Type 0} → List ℕ → Cmd Kernel E (Unit {0})
  pub is_utf8 : List ℕ → Bool
  pub task_info_size : ℕ

module _ {E : Type 0} where
  -- `exchange_current_task_state(Running, new)`, whose error panics.
  unfoldable pub leave_running : TaskState → Cmd Kernel E (Unit {0})
  leave_running new k = elim (exchange_current_task_state running new k) [
    | ok _ k' ↦ ok tt k'
    | err _ _ ↦ panic
    | panic ↦ panic
  ]

  unfoldable pub sys_exit : ℕ → Cmd Kernel E Control
  sys_exit exit_code = do
    task_id ← get_current_task_id
    leave_running exited
    run ← run_next_task
    pure (left run)

  unfoldable pub sys_yield : Cmd Kernel E Control
  sys_yield = do
    task_id ← get_current_task_id
    leave_running ready
    run ← run_next_task
    pure (left run)

  module _ (u : Uaccess) where
    unfoldable pub sys_write : (fd buf count : ℕ) → Cmd Kernel E ℕ
    sys_write fd buf count =
        if not (fd == fd_stdout)
        then pure minus_one
        else if not (check_u_va_range buf count)
        then pure minus_one
        else (do
          (failed_len, dst) ← Uaccess.copy_from_user u buf count
          if not (failed_len == 0)
              then pure minus_one
              else if u.is_utf8 dst
              then Uaccess.print u dst >> pure count
              else abort)

    unfoldable pub sys_task_info : (task_id data_addr : ℕ) → Cmd Kernel E ℕ
    sys_task_info task_id data_addr =
        if not (check_u_va_range data_addr u.task_info_size) then pure minus_one else λ k.
        elim (get_task_info task_id k.all_tasks) [
          | none ↦ ok minus_one k
          | some task_info ↦
              (do
                failed_len ← Uaccess.copy_to_user u task_info data_addr u.task_info_size
                pure (if failed_len == 0 then 0 else minus_one))
                k
        ]

    unfoldable pub syscall_handler : ℕ → (a0 a1 a2 : ℕ) → Cmd Kernel E Control
    syscall_handler syscall_id a0 a1 a2 =
        if syscall_id == syscall_write
        then (do result ← sys_write a0 a1 a2; pure (returned result))
        else if syscall_id == syscall_mmap
        then (do result ← mmap a0 a1 a2; pure (returned result))
        else if syscall_id == syscall_munmap
        then (do result ← munmap a0 a1; pure (returned result))
        else if syscall_id == syscall_exit
        then sys_exit a0
        else if syscall_id == syscall_yield
        then sys_yield
        else if syscall_id == syscall_task_info
        then (do result ← sys_task_info a0 a1; pure (returned result))
        else abort
