-- ===== src/Tests/Schedule.antt =====
-- The theorems on the list of tasks at concrete kernels: three tasks, of which the second runs.
use hj.Base.{◌≡◌, ◌≢◌, inl, refl, true, none, [], ◌∷◌, arith, replicate}
use hj.Outcome.{ok}
use hj.Outcome.Post.{Ends, Ends-ok}
use hj.Tests.{kernel, task}
use hj.Task.{Kernel, Run, switched, run_next_task, get_current_task_id, update_space}
use hj.Riscv.Scause.{match_cause, is_interrupt, match_interrupt_cause, supervisor_timer_interrupt}
use hj.Task.State.{TaskState, TaskContext, ready, running, killed}
use hj.Task.Schedule.{IsScheduled}
use hj.Task.Schedule.Next.{Resumes, run_next_task-Resumes}
use hj.Task.Schedule.Alike.{Alike-refl}
use hj.Syscall.{Uaccess, sys_yield, sys_exit, syscall_handler}
use hj.Syscall.Schedule.{KeepsTasks}
use hj.Trap.Context.{TrapContext, do_page_fault}
use hj.Mm.Vm.{VmError}
use hj.Trap.Utrap.{gone, handle_cause, user_page_fault, u_trap_handler}
use hj.Trap.Schedule.{Resumed, Switched, u_trap_handler-Ends, u_trap_handler-Switched}
use hj.Trap.Kill.{Killed, user_page_fault-Killed}
use hj.Trap.Reach.{here, next_step, compute, trap_gone, Reach-IsScheduled}

abbrev running_kernel : Kernel
running_kernel = record kernel { all_tasks = task 1 ready ∷ task 2 running ∷ task 3 ready ∷ [] }

running_kernel-IsScheduled : IsScheduled running running_kernel
unfolding hj.Task.State.same_state
running_kernel-IsScheduled = record {
  unique = λ j. ground arith;
  busy = refl;
  task_id = 2;
  tcb = task 2 running;
  current = (refl, refl);
  in_state = refl;
}

abbrev yielding_kernel : Kernel
yielding_kernel = record kernel { all_tasks = task 1 ready ∷ task 2 killed ∷ task 3 ready ∷ [] }

yielding_kernel-IsScheduled : IsScheduled killed yielding_kernel
unfolding hj.Task.State.same_state
yielding_kernel-IsScheduled = record {
  unique = λ j. ground arith;
  busy = refl;
  task_id = 2;
  tcb = task 2 killed;
  current = (refl, refl);
  in_state = refl;
}

killed-running : killed ≢ running
killed-running = cc

run_next_task-Resumes_example : Resumes {E = Unit {0}} (run_next_task yielding_kernel)
run_next_task-Resumes_example =
    run_next_task-Resumes (Unit {0}) killed yielding_kernel yielding_kernel-IsScheduled
      killed-running

-- Accesses that succeed without a page fault, on memory that is zero.
abbrev pub plain_access : Uaccess
plain_access = record {
  copy_from_user = λ va len k. ok (0, replicate len 0) k;
  copy_to_user = λ info va len k. ok 0 k;
  print = λ bytes k. ok tt k;
  is_utf8 = λ bytes. true;
  task_info_size = 176;
}

plain_access-KeepsTasks : KeepsTasks plain_access
plain_access-KeepsTasks = record {
  from_user = λ E va len k. Ends-ok _ _ _ (Alike-refl k);
  to_user = λ E info va len k. Ends-ok _ _ _ (Alike-refl k);
  prints = λ E bytes k. Ends-ok _ _ _ (Alike-refl k);
}

abbrev pub trapped : TrapContext
trapped = record { x = replicate 32 64; sstatus = 0; sepc = 0x10000; task_id = 2 }

u_trap_handler-Ends_example :
    Ends {E = Unit {0}} (Unit {0}) Resumed (u_trap_handler plain_access trapped 8 0 running_kernel)
u_trap_handler-Ends_example =
    u_trap_handler-Ends (Unit {0}) running_kernel running_kernel-IsScheduled plain_access
      plain_access-KeepsTasks trapped 8 0

timer_interrupt : match_cause 0x8000_0000_0000_0005 ≡ supervisor_timer_interrupt
unfolding match_cause is_interrupt match_interrupt_cause
timer_interrupt = refl

u_trap_handler-Switched_example :
    Ends {E = Unit {0}} ⊥ Switched
      (u_trap_handler plain_access trapped 0x8000_0000_0000_0005 0 running_kernel)
u_trap_handler-Switched_example =
    u_trap_handler-Switched (Unit {0}) plain_access running_kernel trapped 0x8000_0000_0000_0005 0
      running_kernel-IsScheduled (inl timer_interrupt)

abbrev pub new_kernel : Kernel
new_kernel = record kernel { all_tasks = []; next_task_id = 1; current = none }

timer_run :
    (next : TaskContext) × (k' : Kernel) × (u_trap_handler {E = ⊥} plain_access trapped
        0x8000_0000_0000_0005 0 running_kernel
      ≡ ok (gone (switched next)) k')
unfolding u_trap_handler handle_cause match_cause is_interrupt match_interrupt_cause
    get_current_task_id hj.Trap.Utrap.sleep_task hj.Syscall.leave_running
    hj.Task.exchange_current_task_state hj.Task.State.same_state hj.Task.update_tcb
    hj.Task.record_current_run_end hj.Task.read_time run_next_task hj.Task.take
    hj.Task.State.record_run_end hj.Task.take_at hj.Task.put_away hj.Task.get_next_task_id
    hj.Task.enter_task hj.Task.read_time_ms hj.Task.set_next_timer_interrupt
timer_run = (_, _, refl)

Reach-IsScheduled_example : IsScheduled running timer_run.1
Reach-IsScheduled_example =
    Reach-IsScheduled plain_access plain_access-KeepsTasks {k = running_kernel} {k' = timer_run.1}
      (next_step (trap_gone trapped timer_run.0 0x8000_0000_0000_0005 0 timer_run.2)
        (next_step (compute (Alike-refl timer_run.1)) here))
      running_kernel-IsScheduled

-- The accesses find no area for address 0, so the fault there kills the task.
unrepaired :
    (k1 : Kernel) × (e : VmError) × (do_page_fault {E = Unit {0}} 2 0 20 running_kernel
      ≡ ok (inl e) k1)
unfolding do_page_fault update_space hj.Mm.Vm.Space.map_fault_page hj.Mm.vpn_from_va
    hj.Mm.Vm.Space.map hj.Mm.Vm.Space.find_area hj.Mm.Vm.contain_vpn
unrepaired = (_, _, refl)

user_page_fault-Killed_example :
    Ends {E = Unit {0}} ⊥ (Killed 2 running_kernel) (user_page_fault trapped 2 0 20 running_kernel)
unfolding running_kernel-IsScheduled
user_page_fault-Killed_example =
    user_page_fault-Killed (Unit {0}) running_kernel unrepaired.0 trapped 0 20 unrepaired.1
      running_kernel-IsScheduled unrepaired.2
