-- ===== src/Task/Schedule/Leaver.antt =====
-- A killed task that `run_next_task` of os/src/task.rs leaves: it is taken out of the list, and no
-- other is.
use mathlib.Core.List.{Perm}
use mathlib.Core.Option
use hj.Base.{
  ℕ, ◌+◌, ◌≡◌, ◌≢◌, sym, ap, ◌∙◌, subst, true, none, some, Option, [], ◌∷◌, inl, inr, arith,
  Bool-cases, ◌==◌, ==→≡,
}
use hj.Outcome.{Outcome, ok, err, panic}
use hj.Outcome.Post.{Ends, Ends-ok, Ends-panic}
use hj.Task.{Kernel, Run, switched, shut_down, has_id, run_next_task}
use hj.Task.Enter.{run_next_task-Runs}
use hj.Task.State.{ready, running, killed, set_state, record_run_start}
use hj.Task.Switch.{PutAway, Leaves, Next, Runs}
use hj.Task.Schedule.{bit, count, count-Perm, count-append, count-found, IsScheduled}

-- The current task is gone for good, and each other id is used as often as before.
pub record Leaver (task_id : ℕ) (k k' : Kernel) : Type 0 where
  pub gone_id : count (has_id task_id) k'.all_tasks ≡ 0
  pub other_ids :
      (j : ℕ) → task_id ≢ j → count (has_id j) k'.all_tasks ≡ count (has_id j) k.all_tasks

-- What is entered stays in the list.
Next-ids :
    (first : Option ℕ) (k : Kernel) (run : Run) (k' : Kernel) (j : ℕ)
    → Next first k run k'
    → count (has_id j) k'.all_tasks ≡ count (has_id j) k.all_tasks
unfolding record_run_start
Next-ids none k run k' j next = ap (λ z. count (has_id j) z.all_tasks) next.1
Next-ids (some task_id) k shut_down k' j next = absurd next
Next-ids (some task_id) k (switched context) k' j (tcb, rest, found, perm, entered, after) =
    let started = record_run_start (k.clock (k.reads + 1 + 1)) (set_state running tcb) in
    omega (
      arith,
      ap (λ z. count (has_id j) z.all_tasks) after,
      count-append (has_id j) rest (started ∷ []),
      count-Perm (has_id j) perm,
    )

module _ (E : Type 0) (k : Kernel) (h : IsScheduled killed k) where
  -- Of the list without the current task, the ids.
  removed : (k1 : Kernel) → Perm (h.tcb ∷ k1.all_tasks) k.all_tasks → Leaver h.task_id k k1
  removed k1 perm = record {
    gone_id = omega (arith, count-Perm (has_id h.task_id) perm, ap bit is_it, h.unique h.task_id);
    other_ids = λ j other. elim (Bool-cases (h.tcb.task_id == j)) [
      | inl hit ↦
          absurd (other (sym (==→≡ h.tcb.task_id h.task_id is_it) ∙ ==→≡ h.tcb.task_id j hit))
      | inr miss ↦ omega (arith, count-Perm (has_id j) perm, ap bit miss)
    ];
  }
    where
      is_it : has_id h.task_id h.tcb ≡ true
      is_it = (count-found (has_id h.task_id) k.all_tasks h.tcb h.current.1).0

  put_away-Leaver : (k1 : Kernel) → PutAway h.tcb k k1 → Leaver h.task_id k k1
  put_away-Leaver k1 (inl (queued, same, perm)) = absurd (killed-ready (sym h.in_state ∙ queued))
    where
      killed-ready : killed ≢ ready
      killed-ready = cc
  put_away-Leaver k1 (inr (ended, dropped, perm)) = removed k1 perm

  leaves-Leaver : (k1 : Kernel) → Leaves k.current k k1 → Leaver h.task_id k k1
  leaves-Leaver k1 l = elim (subst (λ c. Leaves c k k1) h.current.0 l) [
    | inl (absent, _) ↦ absurd (Option.none-ne-some h.tcb (sym absent ∙ h.current.1))
    | inr (tcb, found, away) ↦ put_away-Leaver k1 (
        subst (λ t. PutAway t k k1) (Option.some-injective tcb h.tcb (sym found ∙ h.current.1))
          away)
  ]

  pub run_next_task-Leaver :
      Ends {E = E} (Unit {0}) (λ run k'. Leaver h.task_id k k') (run_next_task k)
  run_next_task-Leaver = go (run_next_task k) (run_next_task-Runs E k)
    where
      go :
          (o : Outcome Kernel E Run)
          → Runs k o
          → Ends (Unit {0}) (λ run k'. Leaver h.task_id k k') o
      go (ok run k') (k1, left, next) =
          let leaver = leaves-Leaver k1 left in
          Ends-ok _ _ _ (record {
            gone_id = Next-ids _ k1 run k' h.task_id next ∙ leaver.gone_id;
            other_ids = λ j other. Next-ids _ k1 run k' j next ∙ leaver.other_ids j other;
          })
      go (err e k') runs = absurd runs
      go panic runs = Ends-panic _ _ _ tt
