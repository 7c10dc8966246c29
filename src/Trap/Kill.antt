-- ===== src/Trap/Kill.antt =====
-- The end of a task in os/src/trap/utrap.rs: it is taken out of the list, and no other is.
use hj.Base.{ℕ, ◌+◌, ◌≡◌, ◌≢◌, refl, sym, ap, ◌∙◌, subst, true, inl, ◌⊎◌, arith, ◌==◌, update_first}
use mathlib.Core.Option
use hj.Outcome.{Outcome, Cmd, ok, err, panic, and_then}
use hj.Outcome.Post.{Ends, Ends-and_then, Ends-both, Ends-ok, Ends-weaken, Ends-from}
use hj.Mm.PageAlloc.{Machine}
use hj.Mm.Vm.{VmError, VmSpace}
use hj.Mm.Vm.Space.{map_fault_page}
use hj.Syscall.{leave_running}
use hj.Syscall.Schedule.{Ran, leave_running-Ends, run_next_task-Ends}
use hj.Task.{Kernel, has_id, update_space, finish_space, record_current_run_end, run_next_task}
use hj.Task.Exchange.{exchange_found, same_state_refl, update_tcb_found}
use hj.Task.State.{
  TaskState, running, killed, TaskControlBlock, same_state, set_state, record_run_end,
}
use hj.Task.Schedule.{bit, count, count-update_first, IsScheduled}
use hj.Task.Schedule.Leaver.{Leaver, run_next_task-Leaver}
use hj.Task.Schedule.Records.{IsKept, record_current_run_end-Ends, update_space-Ends, run_end_lem}
use hj.Trap.Context.{TrapContext, do_page_fault}
use hj.Trap.Schedule.{Switched}
use hj.Trap.Utrap.{Resume, gone, kill_task, after_page_fault, user_page_fault}

-- The same task is current, and each id is used as often.
pub record SameIds (k k' : Kernel) : Type 0 where
  pub current : k'.current ≡ k.current
  pub ids : (j : ℕ) → count (has_id j) k'.all_tasks ≡ count (has_id j) k.all_tasks

SameIds-trans : (k k1 k2 : Kernel) → SameIds k k1 → SameIds k1 k2 → SameIds k k2
SameIds-trans k k1 k2 f g = record { current = g.current ∙ f.current; ids = λ j. g.ids j ∙ f.ids j }

update-SameIds :
    (state : TaskState) (k k' : Kernel) (h : IsScheduled state k)
    (f : TaskControlBlock → TaskControlBlock)
    → ((t : TaskControlBlock) → (f t).task_id ≡ t.task_id)
    → k'.current ≡ k.current
    → k'.all_tasks ≡ update_first (has_id h.task_id) f k.all_tasks
    → SameIds k k'
update-SameIds state k k' h f keeps same changed = record {
  current = same;
  ids = λ j. omega (
    arith,
    ap (count (has_id j)) changed,
    count-update_first (has_id h.task_id) (has_id j) f k.all_tasks h.tcb h.current.1,
    ap (λ i. bit (i == j)) (keeps h.tcb),
  );
}

module _ (E : Type 0) (state : TaskState) (k : Kernel) (h : IsScheduled state k) where
  record_current_run_end-SameIds :
      Ends {E = E} ⊥ (λ done k'. SameIds k k') (record_current_run_end k)
  unfolding record_run_end Ends
  record_current_run_end-SameIds =
      let ended = record_run_end (k.clock k.reads) in
      let k1 = record k { reads = k.reads + 1 } in
      subst (Ends {E = E} ⊥ (λ done k'. SameIds k k'))
        (sym (run_end_lem E state k h ∙ update_tcb_found E h.task_id ended k1 h.tcb h.current.1))
        (update-SameIds state k _ h ended (λ t. refl) refl refl)

  update_space-SameIds :
      (c : Cmd (Machine × VmSpace) VmError (Unit {0}))
      → Ends {E = E} (Unit {0}) (λ result k'. SameIds k k') (update_space h.task_id c k)
  unfolding Ends update_space
  update_space-SameIds c =
      subst (Ends {E = E} (Unit {0}) (λ result k'. SameIds k k')) (sym lookup)
        (finished (c (k.machine, h.tcb.vm_space)))
    where
      lookup :
          update_space {E = E} h.task_id c k
          ≡ finish_space h.task_id k (c (k.machine, h.tcb.vm_space))
      lookup = rw (update_space, h.current.1) refl

      finished :
          (o : Outcome (Machine × VmSpace) VmError (Unit {0}))
          → Ends {E = E} (Unit {0}) (λ result k'. SameIds k k') (finish_space h.task_id k o)
      finished (ok _ (m, space)) =
          update-SameIds state k _ h (λ t. record t { vm_space = space }) (λ t. refl) refl refl
      finished (err e (m, space)) =
          update-SameIds state k _ h (λ t. record t { vm_space = space }) (λ t. refl) refl refl
      finished panic = tt

module _ (E : Type 0) (k : Kernel) (h : IsScheduled running k) where
  leave_running-SameIds :
      (new : TaskState) → Ends {E = E} ⊥ (λ done k'. SameIds k k') (leave_running new k)
  unfolding leave_running Ends
  leave_running-SameIds new =
      rw
        (
          leave_running,
          exchange_found running new k h.task_id h.tcb true h.current.0 h.current.1
              (ap (λ s. same_state s running) h.in_state ∙ same_state_refl running),
        )
        (update-SameIds running k _ h (set_state new) (λ t. refl) refl refl)

  kill_task-SameIds : Ends {E = E} ⊥ (λ done k'. IsScheduled killed k' × SameIds k k') (kill_task k)
  unfolding kill_task
  kill_task-SameIds =
      Ends-and_then ⊥ (λ done k1. IsScheduled killed k1 × SameIds k k1) _ _ _
        (Ends-both _ _ _ _ _ (leave_running-Ends E k killed h) (leave_running-SameIds killed))
        λ done k1 (kept, same).
          Ends-weaken ⊥ ⊥ _ _ _ (λ no. no)
            (λ done' k2 (kept', same'). (kept', SameIds-trans k k1 k2 same same'))
            (Ends-both ⊥ ⊥ (IsKept killed) (λ done' k2. SameIds k1 k2) _
              (record_current_run_end-Ends E killed k1 kept)
              (record_current_run_end-SameIds E killed k1 kept))

-- Another task runs, or none is left, and the task is no longer in the list, where the others are.
abbrev pub Killed : ℕ → Kernel → Resume → Kernel → Type 0
Killed task_id k resume k' = Switched resume k' × Leaver task_id k k'

killed-running : killed ≢ running
killed-running = cc

-- From a kernel in which one task runs, the current one, all the others are ready and no id is
-- used twice, a page fault that the space of that task cannot repair does not panic: the task is
-- killed, that is, no task with its id is left, while each other id is used as often as before;
-- and a ready task is entered, which is then the one that runs, or no task is left and the kernel
-- shuts down.
pub user_page_fault-Killed :
    (E : Type 0) (k k1 : Kernel) (context : TrapContext) (stval permissions : ℕ) (e : VmError)
    (h : IsScheduled running k)
    → do_page_fault {E = E} h.task_id stval permissions k ≡ ok (inl e) k1
    → Ends {E = E} ⊥ (Killed h.task_id k) (user_page_fault context h.task_id stval permissions k)
unfolding user_page_fault do_page_fault
user_page_fault-Killed E k k1 context stval permissions e h failed =
    subst (λ o. Ends ⊥ (Killed h.task_id k) (and_then o (after_page_fault context))) (sym failed)
      (Ends-and_then _ _ _ _ _ (kill_task-SameIds E k1 kept.0) killed_at)
  where
    refused : VmError ⊎ Unit {0}
    refused = inl e

    kept : IsScheduled running k1 × SameIds k k1
    kept =
        Ends-from E (Unit {0})
          (λ (result : VmError ⊎ Unit {0}) k'. IsScheduled running k' × SameIds k k') {a = refused}
          (subst (Ends (Unit {0}) (λ result k'. IsScheduled running k' × SameIds k k')) failed (
            Ends-both _ _ _ _ _ (update_space-Ends E running k h (map_fault_page stval permissions))
              (update_space-SameIds E running k h (map_fault_page stval permissions))))

    killed_at :
        (done : Unit {0}) (k2 : Kernel)
        → IsScheduled killed k2 × SameIds k1 k2
        → Ends {E = E} ⊥
            (Killed h.task_id k)
            (and_then (run_next_task k2) λ run k3. ok (gone run) k3)
    killed_at done k2 (h2, same) =
        let ids = SameIds-trans k k1 k2 kept.1 same in
        let at : h2.task_id ≡ h.task_id =
          Option.some-injective h2.task_id h.task_id
            (sym h2.current.0 ∙ ids.current ∙ h.current.0) in
        Ends-and_then ⊥ (λ run k3. Ran run k3 × Leaver h2.task_id k2 k3) _ _ _
          (Ends-both ⊥ (Unit {0}) _ _ _ (run_next_task-Ends E k2 killed killed-running h2)
            (run_next_task-Leaver E k2 h2))
          λ run k3 (ran, leaver). Ends-ok _ _ _ (
            ran,
            record {
              gone_id = subst (λ i. count (has_id i) k3.all_tasks ≡ 0) at leaver.gone_id;
              other_ids =
                  λ j other. leaver.other_ids j (λ same_id. other (sym at ∙ same_id)) ∙ ids.ids j;
            },
          )
