-- ===== src/Trap/Schedule.antt =====
-- The traps from user mode of os/src/trap/utrap.rs keep the invariant of the list of tasks.
use hj.Base.{ℕ, ◌≡◌, ◌≢◌, sym, subst, Option, none, some, inl, inr, ◌⊎◌, get_elem?}
use hj.Outcome.{Outcome, Cmd, ok, and_then, or_panic}
use hj.Outcome.Post.{Ends, Ends-and_then, Ends-weaken, Ends-if, Ends-ok, Ends-panic}
use hj.Mm.{check_u_va}
use hj.Mm.Vm.{VmError}
use hj.Riscv.Scause.{
  Cause, match_cause, supervisor_timer_interrupt, user_environment_call, store_or_amo_page_fault,
  load_page_fault, illegal_instruction, instruction_page_fault,
}
use hj.Syscall.{Control, returned, left, Uaccess}
use hj.Syscall.Schedule.{
  Ran, Continues, KeepsTasks, leave_running-Ends, run_next_task-Ends, syscall_handler-Ends,
}
use hj.Task.{Kernel}
use hj.Task.State.{TaskState, ready, running, killed}
use hj.Task.Schedule.{IsScheduled}
use hj.Task.Schedule.Records.{
  IsKept, and_then-get_current_task_id, update_space-Ends, record_current_run_end-Ends,
  record_current_syscall-Ends,
}
use hj.Trap.Context.{TrapContext, do_page_fault}
use hj.Trap.Utrap.{
  Resume, back, gone, sleep_task, kill_task, run_another, user_page_fault, environment_call,
  after_page_fault, finish_call, handle_cause, u_trap_handler,
}

-- After the handler a task runs again, or none is left.
abbrev pub Resumed : Resume → Kernel → Type 0
Resumed (back context) k = IsScheduled running k
Resumed (gone run) k = Ran run k

-- After it another task runs, or none is left.
abbrev pub Switched : Resume → Kernel → Type 0
Switched (back context) k = ⊥
Switched (gone run) k = Ran run k

ready-running : ready ≢ running
ready-running = cc

killed-running : killed ≢ running
killed-running = cc

run_another-Ends :
    (E : Type 0) (new : TaskState) (k : Kernel) (stop : Cmd Kernel E (Unit {0}))
    → new ≢ running
    → Ends {E = E} ⊥ (IsKept new) (stop k)
    → Ends {E = E} ⊥ Switched (run_another stop k)
run_another-Ends E new k stop leaving stopped = Ends-and_then _ _ _ _ _ stopped λ _ k1 kept.
    Ends-and_then _ _ _ _ _ (run_next_task-Ends E k1 new leaving kept)
      λ run k2 ran. Ends-ok _ _ _ ran

module _ (E : Type 0) (k : Kernel) (h : IsScheduled running k) where
  sleep_task-Ends : Ends {E = E} ⊥ Switched (run_another sleep_task k)
  unfolding sleep_task
  sleep_task-Ends = run_another-Ends E ready k sleep_task ready-running (
      Ends-and_then _ _ _ _ _ (leave_running-Ends E k ready h)
        λ _ k1 kept. record_current_run_end-Ends E ready k1 kept)

  kill_task-Ends : Ends {E = E} ⊥ Switched (run_another kill_task k)
  unfolding kill_task
  kill_task-Ends = run_another-Ends E killed k kill_task killed-running (
      Ends-and_then _ _ _ _ _ (leave_running-Ends E k killed h)
        λ _ k1 kept. record_current_run_end-Ends E killed k1 kept)

module _ (E : Type 0) where
  Switched-Resumed : (resume : Resume) (k : Kernel) → Switched resume k → Resumed resume k
  Switched-Resumed (back context) k p = absurd p
  Switched-Resumed (gone run) k p = p

  may_panic : (o : Outcome Kernel E Resume) → Ends ⊥ Switched o → Ends (Unit {0}) Resumed o
  may_panic o e = Ends-weaken ⊥ (Unit {0}) Switched Resumed o (λ no. tt) Switched-Resumed e

  or_panic-Ends :
      {A : Type 0} (P : Resume → Kernel → Type 0) (k : Kernel) (v : Option A)
      (f : A → Cmd Kernel E Resume)
      → ((a : A) → Ends (Unit {0}) P (f a k))
      → Ends (Unit {0}) P (and_then (or_panic v k) f)
  or_panic-Ends P k none f e = Ends-panic _ _ _ tt
  or_panic-Ends P k (some a) f e = e a

module _ (E : Type 0) (k : Kernel) (h : IsScheduled running k) where
  user_page_fault-Ends :
      (context : TrapContext) (stval permissions : ℕ)
      → Ends {E = E} (Unit {0}) Resumed (user_page_fault context h.task_id stval permissions k)
  unfolding user_page_fault do_page_fault
  user_page_fault-Ends context stval permissions =
      Ends-and_then _ _ _ _ _ (update_space-Ends E running k h _) repaired
    where
      repaired :
          (result : VmError ⊎ Unit {0}) (k1 : Kernel)
          → IsScheduled running k1
          → Ends {E = E} (Unit {0}) Resumed (after_page_fault context result k1)
      repaired (inl e) k1 kept = may_panic E _ (kill_task-Ends E k1 kept)
      repaired (inr done) k1 kept = Ends-ok _ _ _ kept

finish_call-Resumed :
    (E : Type 0) (context : TrapContext) (control : Control) (k : Kernel)
    → Continues control k
    → Ends {E = E} (Unit {0}) Resumed (ok (finish_call context control) k)
finish_call-Resumed E context (returned value) k p = Ends-ok _ _ _ p
finish_call-Resumed E context (left run) k p = Ends-ok _ _ _ p

module _ (E : Type 0) (k : Kernel) (h : IsScheduled running k) where
  module _ (u : Uaccess) (keeps : KeepsTasks u) where
    environment_call-Ends :
        (context : TrapContext) → Ends {E = E} (Unit {0}) Resumed (environment_call u context k)
    unfolding environment_call
    environment_call-Ends context =
        or_panic-Ends E Resumed k (get_elem? context.x 17) _ λ syscall_id.
          Ends-and_then _ (IsKept running) _ _ _
            (Ends-weaken ⊥ (Unit {0}) _ (IsKept running) _ (λ no. tt) (λ _ k1 kept. kept)
              (Ends-and_then _ _ (IsKept running) _ _
                (record_current_syscall-Ends E running k h syscall_id)
                λ b k1 kept. Ends-ok _ _ _ kept))
            λ _ k1 kept. or_panic-Ends E Resumed k1 (get_elem? context.x 10) _ λ a0.
              or_panic-Ends E Resumed k1 (get_elem? context.x 11) _ λ a1.
                or_panic-Ends E Resumed k1 (get_elem? context.x 12) _ λ a2.
                  Ends-and_then _ _ _ _ _
                    (syscall_handler-Ends u keeps E k1 kept syscall_id a0 a1 a2)
                    (finish_call-Resumed E _)

    handle_cause-Ends :
        (cause : Cause) (context : TrapContext) (stval : ℕ)
        → Ends {E = E} (Unit {0}) Resumed (handle_cause u cause context h.task_id stval k)
    unfolding handle_cause
    handle_cause-Ends supervisor_timer_interrupt context stval =
        may_panic E _ (sleep_task-Ends E k h)
    handle_cause-Ends user_environment_call context stval = environment_call-Ends context
    handle_cause-Ends store_or_amo_page_fault context stval =
        Ends-if _ _ (check_u_va stval) _ _ k (λ _. user_page_fault-Ends E k h context stval 20)
          λ _. Ends-panic _ _ _ tt
    handle_cause-Ends load_page_fault context stval =
        Ends-if _ _ (check_u_va stval) _ _ k (λ _. user_page_fault-Ends E k h context stval 18)
          λ _. Ends-panic _ _ _ tt
    handle_cause-Ends illegal_instruction context stval = may_panic E _ (kill_task-Ends E k h)
    handle_cause-Ends instruction_page_fault context stval = may_panic E _ (kill_task-Ends E k h)
    handle_cause-Ends _ context stval = Ends-panic _ _ _ tt

    -- From a kernel in which one task runs, the current one, all the others are ready and no id is
    -- used twice, a trap with any context and cause either panics or ends in such a kernel again,
    -- in the same task or in another, or with no task left, where the kernel shuts down; the
    -- accesses to user memory are taken to change no id, state or current task.
    pub u_trap_handler-Ends :
        (context : TrapContext) (scause stval : ℕ)
        → Ends {E = E} (Unit {0}) Resumed (u_trap_handler u context scause stval k)
    unfolding u_trap_handler
    u_trap_handler-Ends context scause stval =
        and_then-get_current_task_id E running k h _ _ _
          (handle_cause-Ends (match_cause scause) context stval)

-- The causes at which the task gives up the processor, or loses it.
abbrev pub TakesAway : Cause → Type 0
TakesAway cause =
    (cause ≡ supervisor_timer_interrupt)
    ⊎ (cause ≡ illegal_instruction)
    ⊎ (cause ≡ instruction_page_fault)

-- From a kernel in which one task runs, the current one, all the others are ready and no id is
-- used twice, a timer interrupt, an illegal instruction or an instruction page fault never panics:
-- another task, or the same one again, is entered, which is then the one that runs, or no task is
-- left and the kernel shuts down.
pub u_trap_handler-Switched :
    (E : Type 0) (u : Uaccess) (k : Kernel) (context : TrapContext) (scause stval : ℕ)
    → IsScheduled running k
    → TakesAway (match_cause scause)
    → Ends {E = E} ⊥ Switched (u_trap_handler u context scause stval k)
unfolding u_trap_handler handle_cause
u_trap_handler-Switched E u k context scause stval h taken =
    and_then-get_current_task_id E running k h _ _ _ (go (match_cause scause) taken)
  where
    go :
        (cause : Cause)
        → TakesAway cause
        → Ends {E = E} ⊥ Switched (handle_cause u cause context h.task_id stval k)
    go cause (inl timer) =
        subst (λ c. Ends {E = E} ⊥ Switched (handle_cause u c context h.task_id stval k))
          (sym timer) (sleep_task-Ends E k h)
    go cause (inr (inl illegal)) =
        subst (λ c. Ends {E = E} ⊥ Switched (handle_cause u c context h.task_id stval k))
          (sym illegal) (kill_task-Ends E k h)
    go cause (inr (inr fault)) =
        subst (λ c. Ends {E = E} ⊥ Switched (handle_cause u c context h.task_id stval k))
          (sym fault) (kill_task-Ends E k h)
