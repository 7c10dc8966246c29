-- ===== src/Task/Schedule/Records.antt =====
-- The calls of os/src/task.rs on the current task keep the invariant of the list of tasks.
use hj.Base.{ℕ, ◌+◌, ◌≡◌, refl, sym, ◌∙◌, subst}
use hj.Outcome.{Outcome, Cmd, ok, err, panic, and_then, or_panic, pure}
use hj.Outcome.Post.{Ends, Ends-and_then}
use hj.Mm.PageAlloc.{Machine}
use hj.Mm.Vm.{VmError, VmSpace}
use hj.Task.{
  Kernel, update_tcb, update_space, finish_space, get_current_task_id, read_time,
  record_current_run_end, record_current_syscall,
}
use hj.Task.State.{TaskState, TaskControlBlock, record_run_end, record_syscall}
use hj.Task.Exchange.{update_tcb_found}
use hj.Task.Schedule.{IsScheduled, update-IsScheduled}

-- Code that leaves the list scheduled, its current task in the state.
abbrev pub IsKept : {A : Type 0} → TaskState → A → Kernel → Type 0
IsKept state a k = IsScheduled state k

module _ (E : Type 0) (state : TaskState) (k : Kernel) (h : IsScheduled state k) where
  pub and_then-get_current_task_id :
      {A : Type 0} (M : Type 0) (P : A → Kernel → Type 0) (f : ℕ → Cmd Kernel E A)
      → Ends M P (f h.task_id k)
      → Ends M P (and_then (get_current_task_id k) f)
  unfolding get_current_task_id
  and_then-get_current_task_id M P f e =
      subst (λ c. Ends M P (and_then (or_panic c k) f)) (sym h.current.0) e

  pub update_tcb-Ends :
      (new : TaskState) (f : TaskControlBlock → TaskControlBlock)
      → ((t : TaskControlBlock) → (f t).task_id ≡ t.task_id)
      → (f h.tcb).state ≡ new
      → Ends {E = E} ⊥ (IsKept new) (update_tcb h.task_id f k)
  unfolding Ends
  update_tcb-Ends new f keeps gets =
      subst (Ends {E = E} ⊥ (IsKept new)) (sym (update_tcb_found E h.task_id f k h.tcb h.current.1))
        (update-IsScheduled state new k _ h f keeps gets refl refl)

  -- A method of the task's space may panic.
  pub update_space-Ends :
      (c : Cmd (Machine × VmSpace) VmError (Unit {0}))
      → Ends {E = E} (Unit {0}) (IsKept state) (update_space h.task_id c k)
  unfolding Ends update_space
  update_space-Ends c =
      subst (Ends {E = E} (Unit {0}) (IsKept state)) (sym lookup)
        (finished (c (k.machine, h.tcb.vm_space)))
    where
      lookup :
          update_space {E = E} h.task_id c k
          ≡ finish_space h.task_id k (c (k.machine, h.tcb.vm_space))
      lookup = rw (update_space, h.current.1) refl

      finished :
          (o : Outcome (Machine × VmSpace) VmError (Unit {0}))
          → Ends {E = E} (Unit {0}) (IsKept state) (finish_space h.task_id k o)
      finished (ok _ (m, space)) =
          update-IsScheduled state state k _ h (λ t. record t { vm_space = space }) (λ t. refl)
            h.in_state refl refl
      finished (err e (m, space)) =
          update-IsScheduled state state k _ h (λ t. record t { vm_space = space }) (λ t. refl)
            h.in_state refl refl
      finished panic = tt

module _ (E : Type 0) (state : TaskState) (k : Kernel) (h : IsScheduled state k) where
  abbrev k1 : Kernel
  k1 = record k { reads = k.reads + 1 }

  pub run_end_lem :
      record_current_run_end {E = E} k ≡ update_tcb h.task_id (record_run_end (k.clock k.reads)) k1
  unfolding record_current_run_end get_current_task_id read_time
  run_end_lem = simp (h.current.0, h.current.1) refl

  pub record_current_run_end-Ends : Ends {E = E} ⊥ (IsKept state) (record_current_run_end k)
  unfolding record_run_end Ends
  record_current_run_end-Ends =
      let ended = record_run_end (k.clock k.reads) in
      subst (Ends {E = E} ⊥ (IsKept state))
        (sym (run_end_lem ∙ update_tcb_found E h.task_id ended k1 h.tcb h.current.1))
        (update-IsScheduled state state k _ h ended (λ t. refl) h.in_state refl refl)

  syscall_lem :
      (syscall_id : ℕ)
      → record_current_syscall {E = E} syscall_id k
        ≡ and_then
            (update_tcb h.task_id (λ t. (record_syscall syscall_id t).0) k)
            (λ _. pure (record_syscall syscall_id h.tcb).1)
  unfolding record_current_syscall get_current_task_id
  syscall_lem syscall_id = simp (h.current.0, h.current.1) refl

  pub record_current_syscall-Ends :
      (syscall_id : ℕ) → Ends {E = E} ⊥ (IsKept state) (record_current_syscall syscall_id k)
  unfolding record_syscall Ends
  record_current_syscall-Ends syscall_id =
      subst (Ends {E = E} ⊥ (IsKept state)) (sym (syscall_lem syscall_id)) (
        Ends-and_then ⊥ (IsKept state) (IsKept state) _ _
          (update_tcb-Ends E state k h state (λ t. (record_syscall syscall_id t).0) (λ t. refl)
            h.in_state)
          (λ _ k' kept. kept))
