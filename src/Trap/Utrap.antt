-- ===== src/Trap/Utrap.antt =====
-- os/src/trap/utrap.rs: traps from user mode. Logging is left out.
use hj.Base.{ℕ, ◌⊎◌, inl, inr, get_elem?, set, if◌then◌else◌, wrapping_add}
use hj.Outcome.{Cmd, pure, abort, or_panic, ◌>>=◌, ◌>>◌}
use hj.Mm.{check_u_va}
use hj.Mm.Vm.{VmError}
use hj.Riscv.Scause.{
  Cause, match_cause, supervisor_timer_interrupt, user_environment_call, store_or_amo_page_fault,
  load_page_fault, illegal_instruction, instruction_page_fault,
}
use hj.Syscall.{Control, returned, left, Uaccess, leave_running, syscall_handler}
use hj.Task.{
  Kernel, Run, get_current_task_id, record_current_run_end, record_current_syscall, run_next_task,
}
use hj.Task.State.{ready, killed}
use hj.Trap.Context.{TrapContext, do_page_fault}

-- How the handler ends: in the trapped task, with its context, or in another task.
pub data Resume : Type 0 where
  back : TrapContext → Resume
  gone : Run → Resume

abbrev pub finish_call : TrapContext → Control → Resume
finish_call context (returned value) = back (record context { x = set context.x 10 value })
finish_call context (left run) = gone run

module _ {E : Type 0} where
  unfoldable pub sleep_task : Cmd Kernel E (Unit {0})
  sleep_task = leave_running ready >> record_current_run_end

  unfoldable pub kill_task : Cmd Kernel E (Unit {0})
  kill_task = leave_running killed >> record_current_run_end

  abbrev pub run_another : Cmd Kernel E (Unit {0}) → Cmd Kernel E Resume
  run_another stop = do stop; run ← run_next_task; pure (gone run)

  abbrev pub after_page_fault : TrapContext → VmError ⊎ Unit {0} → Cmd Kernel E Resume
  after_page_fault context (inl e) = run_another kill_task
  after_page_fault context (inr done) = pure (back context)

  -- A page fault that cannot be repaired kills the task.
  unfoldable pub user_page_fault : TrapContext → ℕ → ℕ → ℕ → Cmd Kernel E Resume
  user_page_fault context task_id stval min_permissions = do
    result ← do_page_fault task_id stval min_permissions
    after_page_fault context result

  unfoldable pub environment_call : Uaccess → TrapContext → Cmd Kernel E Resume
  environment_call u context = do
    syscall_id ← or_panic (get_elem? context.x 17)
    record_current_syscall syscall_id >>= λ _. pure tt
    let next = record context { sepc = wrapping_add context.sepc 4 }
    a0 ← or_panic (get_elem? context.x 10)
    a1 ← or_panic (get_elem? context.x 11)
    a2 ← or_panic (get_elem? context.x 12)
    control ← syscall_handler u syscall_id a0 a1 a2
    pure (finish_call next control)

  -- The handler, by cause. The causes that are not listed panic.
  unfoldable pub handle_cause :
      Uaccess → Cause → TrapContext → (task_id stval : ℕ) → Cmd Kernel E Resume
  handle_cause u supervisor_timer_interrupt context task_id stval = run_another sleep_task
  handle_cause u user_environment_call context task_id stval = environment_call u context
  handle_cause u store_or_amo_page_fault context task_id stval =
      if check_u_va stval then user_page_fault context task_id stval 20 else abort
  handle_cause u load_page_fault context task_id stval =
      if check_u_va stval then user_page_fault context task_id stval 18 else abort
  handle_cause u illegal_instruction context task_id stval = run_another kill_task
  handle_cause u instruction_page_fault context task_id stval = run_another kill_task
  handle_cause u _ context task_id stval = abort

  unfoldable pub u_trap_handler : Uaccess → TrapContext → (scause stval : ℕ) → Cmd Kernel E Resume
  u_trap_handler u context scause stval = do
    task_id ← get_current_task_id
    handle_cause u (match_cause scause) context task_id stval
