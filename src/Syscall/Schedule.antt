-- ===== src/Syscall/Schedule.antt =====
-- The system calls of os/src/syscall.rs keep the invariant of the list of tasks.
use hj.Base.{
  ℕ, ◌≡◌, ◌≢◌, refl, ap, ◌∙◌, true, not, Option, none, some, List, [], ◌==◌, if◌then◌else◌, bit_and,
  complement,
}
use hj.Outcome.{Outcome, ok, err, panic, and_then, pure}
use hj.Outcome.Post.{Ends, Ends-and_then, Ends-weaken, Ends-if, Ends-ok, Ends-panic}
use hj.Mm.{check_u_va_range}
use hj.Task.{Kernel, Run, switched, shut_down, run_next_task, get_task_info, TaskInfo}
use hj.Task.State.{TaskState, ready, running, exited, same_state, set_state}
use hj.Task.Exchange.{exchange_found, same_state_refl}
use hj.Task.Schedule.{IsScheduled, update-IsScheduled}
use hj.Task.Schedule.Next.{Resumes, run_next_task-Resumes}
use hj.Task.Schedule.Records.{IsKept, and_then-get_current_task_id, update_space-Ends}
use hj.Task.Schedule.Alike.{Alike, Alike-IsScheduled}
use hj.Syscall.{
  Control, returned, left, Uaccess, leave_running, sys_exit, sys_yield, sys_write, sys_task_info,
  fd_stdout, syscall_handler, syscall_write, syscall_mmap, syscall_munmap, syscall_exit,
  syscall_yield, syscall_task_info,
}
use hj.Syscall.Mm.{mmap, munmap, mmap_area, munmap_area, all_prot_flags, minus_one}

-- Where the processor goes next: to a running task, or nowhere once no task is left.
abbrev pub Ran : Run → Kernel → Type 0
Ran (switched context) k = IsScheduled running k
Ran shut_down k = k.all_tasks ≡ []

abbrev pub Continues : Control → Kernel → Type 0
Continues (returned value) k = IsScheduled running k
Continues (left run) k = Ran run k

module _ (E : Type 0) (k : Kernel) where
  pub leave_running-Ends :
      (new : TaskState) → IsScheduled running k → Ends {E = E} ⊥ (IsKept new) (leave_running new k)
  unfolding leave_running Ends
  leave_running-Ends new h =
      rw
        (
          leave_running,
          exchange_found running new k h.task_id h.tcb true h.current.0 h.current.1
              (ap (λ s. same_state s running) h.in_state ∙ same_state_refl running),
        )
        (update-IsScheduled running new k _ h (set_state new) (λ t. refl) refl refl refl)

  -- A task that is not running leaves for good or for later.
  pub run_next_task-Ends :
      (new : TaskState) → new ≢ running → IsScheduled new k → Ends {E = E} ⊥ Ran (run_next_task k)
  unfolding Ends Resumes
  run_next_task-Ends new leaving h = go (run_next_task k) (run_next_task-Resumes E new k h leaving)
    where
      go : (o : Outcome Kernel E Run) → Resumes o → Ends ⊥ Ran o
      go (ok (switched context) k') r = r
      go (ok shut_down k') r = r
      go (err e k') r = r
      go panic r = r

module _ (E : Type 0) (k : Kernel) where
  -- The rest of `sys_exit` and `sys_yield`.
  pub leave_and_run-Ends :
      (new : TaskState)
      → new ≢ running
      → IsScheduled running k
      → Ends {E = E} ⊥ Continues (
          and_then
            (leave_running new k)
            λ _ k1. and_then (run_next_task k1) λ run k2. ok (left run) k2)
  leave_and_run-Ends new leaving h =
      Ends-and_then ⊥ (IsKept new) Continues _ _ (leave_running-Ends E k new h) λ _ k1 kept.
        Ends-and_then ⊥ Ran Continues _ _ (run_next_task-Ends E k1 new leaving kept)
          λ run k2 ran. Ends-ok _ _ _ ran

ready-running : ready ≢ running
ready-running = cc

exited-running : exited ≢ running
exited-running = cc

module _ (E : Type 0) (k : Kernel) (h : IsScheduled running k) where
  -- Where the running task is scheduled, `sys_yield` and `sys_exit` never panic.
  pub sys_yield-Ends : Ends {E = E} ⊥ Continues (sys_yield k)
  unfolding sys_yield
  sys_yield-Ends =
      and_then-get_current_task_id E running k h ⊥ Continues _
        (leave_and_run-Ends E k ready ready-running h)

  pub sys_exit-Ends : (code : ℕ) → Ends {E = E} ⊥ Continues (sys_exit code k)
  unfolding sys_exit
  sys_exit-Ends code =
      and_then-get_current_task_id E running k h ⊥ Continues _
        (leave_and_run-Ends E k exited exited-running h)

  -- `mmap` and `munmap` may panic inside the space.
  pub mmap-Ends :
      (addr len prot : ℕ) → Ends {E = E} (Unit {0}) (IsKept running) (mmap addr len prot k)
  unfolding mmap
  mmap-Ends addr len prot =
      Ends-if _ _ (not (check_u_va_range addr len)) _ _ k (λ _. Ends-ok _ _ _ h)
        λ _.
          Ends-if _ _ (not (bit_and prot (complement all_prot_flags) == 0)) _ _ k
            (λ _. Ends-ok _ _ _ h)
            λ _. and_then-get_current_task_id E running k h _ _ _ (
              Ends-and_then _ _ _ _ _ (update_space-Ends E running k h (mmap_area addr len prot))
                λ result k' kept. Ends-ok _ _ _ kept)

  pub munmap-Ends : (addr len : ℕ) → Ends {E = E} (Unit {0}) (IsKept running) (munmap addr len k)
  unfolding munmap
  munmap-Ends addr len =
      Ends-if _ _ (not (check_u_va_range addr len)) _ _ k (λ _. Ends-ok _ _ _ h)
        λ _.
          Ends-if _ _ (len == 0) _ _ k (λ _. Ends-ok _ _ _ h)
            λ _. and_then-get_current_task_id E running k h _ _ _ (
              Ends-and_then _ _ _ _ _ (update_space-Ends E running k h (munmap_area addr len))
                λ result k' kept. Ends-ok _ _ _ kept)

-- What the accesses to user memory promise: a page fault on the way is repaired in the space of the
-- current task, which changes neither the current task nor any id or state. They may panic.
pub record KeepsTasks (u : Uaccess) : Type 1 where
  pub from_user :
      (E : Type 0) (va len : ℕ) (k : Kernel)
      → Ends {E = E} (Unit {0}) (λ _ k'. Alike k k') (Uaccess.copy_from_user u va len k)
  pub to_user :
      (E : Type 0) (info : TaskInfo) (va len : ℕ) (k : Kernel)
      → Ends {E = E} (Unit {0}) (λ _ k'. Alike k k') (Uaccess.copy_to_user u info va len k)
  pub prints :
      (E : Type 0) (bytes : List ℕ) (k : Kernel)
      → Ends {E = E} (Unit {0}) (λ _ k'. Alike k k') (Uaccess.print u bytes k)

module _ (u : Uaccess) (kept : KeepsTasks u) (E : Type 0) (k : Kernel)
    (h : IsScheduled running k) where
  sys_write-Ends :
      (fd buf count : ℕ) → Ends {E = E} (Unit {0}) (IsKept running) (sys_write u fd buf count k)
  unfolding sys_write
  sys_write-Ends fd buf count =
      Ends-if _ _ (not (fd == fd_stdout)) _ _ k (λ _. Ends-ok _ _ _ h)
        λ _.
          Ends-if _ _ (not (check_u_va_range buf count)) _ _ k (λ _. Ends-ok _ _ _ h)
            λ _.
              Ends-and_then _ _ _ _ _ (kept.from_user E buf count k) λ (failed_len, dst) k1 alike.
                let h1 = Alike-IsScheduled running k k1 h alike in
                Ends-if _ _ (not (failed_len == 0)) _ _ k1 (λ _. Ends-ok _ _ _ h1)
                  λ _.
                    Ends-if _ _ (u.is_utf8 dst) _ _ k1
                      (λ _.
                        Ends-and_then _ _ _ _ _ (kept.prints E dst k1)
                          λ _ k2 same. Ends-ok _ _ _ (Alike-IsScheduled running k1 k2 h1 same))
                      (λ _. Ends-panic _ _ _ tt)

  sys_task_info-Ends :
      (task_id addr : ℕ) → Ends {E = E} (Unit {0}) (IsKept running) (sys_task_info u task_id addr k)
  unfolding sys_task_info
  sys_task_info-Ends task_id addr =
      Ends-if _ _ (not (check_u_va_range addr u.task_info_size)) _ _ k (λ _. Ends-ok _ _ _ h)
        λ _. found (get_task_info task_id k.all_tasks)
    where
      found :
          (info : Option TaskInfo)
          → Ends {E = E} (Unit {0}) (IsKept running) (elim info [
            | none ↦ ok minus_one k
            | some task_info ↦
                and_then
                  (Uaccess.copy_to_user u task_info addr u.task_info_size k)
                  (λ failed_len. pure (if failed_len == 0 then 0 else minus_one))
          ])
      found none = Ends-ok _ _ _ h
      found (some info) =
          Ends-and_then _ _ _ _ _ (kept.to_user E info addr u.task_info_size k)
            λ _ k1 alike. Ends-ok _ _ _ (Alike-IsScheduled running k k1 h alike)

  -- Every system call of a scheduled task goes on in a scheduled task, or panics.
  pub syscall_handler-Ends :
      (syscall_id a0 a1 a2 : ℕ)
      → Ends {E = E} (Unit {0}) Continues (syscall_handler u syscall_id a0 a1 a2 k)
  unfolding syscall_handler
  syscall_handler-Ends syscall_id a0 a1 a2 =
      Ends-if _ _ (syscall_id == syscall_write) _ _ k (λ _. returns _ (sys_write-Ends a0 a1 a2))
        λ _.
          Ends-if _ _ (syscall_id == syscall_mmap) _ _ k (λ _. returns _ (mmap-Ends E k h a0 a1 a2))
            λ _.
              Ends-if _ _ (syscall_id == syscall_munmap) _ _ k
                (λ _. returns _ (munmap-Ends E k h a0 a1))
                λ _.
                  Ends-if _ _ (syscall_id == syscall_exit) _ _ k
                    (λ _. leaves _ (sys_exit-Ends E k h a0))
                    λ _.
                      Ends-if _ _ (syscall_id == syscall_yield) _ _ k
                        (λ _. leaves _ (sys_yield-Ends E k h))
                        λ _.
                          Ends-if _ _ (syscall_id == syscall_task_info) _ _ k
                            (λ _. returns _ (sys_task_info-Ends a0 a1)) λ _. Ends-panic _ _ _ tt
    where
      returns :
          (o : Outcome Kernel E ℕ)
          → Ends (Unit {0}) (IsKept running) o
          → Ends (Unit {0}) Continues (and_then o λ result. pure (returned result))
      returns o e = Ends-and_then _ _ _ _ _ e λ result k' kept. Ends-ok _ _ _ kept

      leaves : (o : Outcome Kernel E Control) → Ends ⊥ Continues o → Ends (Unit {0}) Continues o
      leaves o e = Ends-weaken ⊥ (Unit {0}) Continues Continues o (λ no. tt) (λ c k' p. p) e
