-- ===== src/Task/Schedule/Next.antt =====
-- `run_next_task` of os/src/task.rs keeps the invariant of the list of tasks.
use mathlib.Core.Option
use hj.Base.{
  ℕ, ◌+◌, ◌≡◌, ◌≢◌, refl, sym, ap, ◌∙◌, subst, Bool, true, not, Option, none, some, List, [], ◌∷◌,
  inl, inr, find, arith, Bool-cases,
}
use hj.Outcome.{Outcome, ok, err, panic}
use hj.Task.{Kernel, Run, switched, shut_down, has_id, is_ready, run_next_task}
use hj.Task.State.{TaskState, running, TaskControlBlock, set_state, record_run_start}
use hj.Task.Switch.{PutAway, Leaves, Enters, Next, Runs, IsStillRunning}
use hj.Task.Enter.{run_next_task-Runs}
use hj.Task.Schedule.{
  bit, count, count-Perm, count-append, count-found, find-append, is_busy, busy_in, IsScheduled,
  IsRested, bit-is_busy,
}

-- The task that left is queued again or gone.
PutAway-IsRested :
    (new : TaskState) (k k1 : Kernel) (h : IsScheduled new k) → PutAway h.tcb k k1 → IsRested k1
PutAway-IsRested new k k1 h (inl (is_ready_now, same, perm)) = record {
  unique = λ j. omega (arith, h.unique j, count-Perm (has_id j) perm);
  busy = omega (arith, h.busy, count-Perm is_busy perm, ap busy_in (sym h.in_state ∙ is_ready_now));
}
PutAway-IsRested new k k1 h (inr (ended, dropped, perm)) = record {
  unique = λ j. omega (arith, h.unique j, count-Perm (has_id j) perm);
  busy = omega (arith, h.busy, count-Perm is_busy perm, bit-is_busy h.tcb new h.in_state);
}

Leaves-IsRested :
    (new : TaskState) (k k1 : Kernel) → IsScheduled new k → Leaves k.current k k1 → IsRested k1
Leaves-IsRested new k k1 h l = elim (subst (λ c. Leaves c k k1) h.current.0 l) [
  | inl (absent, _) ↦ absurd (Option.none-ne-some h.tcb (sym absent ∙ h.current.1))
  | inr (tcb, found, away) ↦
      PutAway-IsRested new k k1 h (
        subst (λ t. PutAway t k k1) (Option.some-injective tcb h.tcb (sym found ∙ h.current.1))
          away)
]

-- Where all are ready and none is found ready, none is left.
none_left :
    (tasks : List TaskControlBlock)
    → count is_busy tasks ≡ 0
    → find is_ready tasks ≡ none
    → tasks ≡ []
none_left [] rested e = refl
none_left (t ∷ tasks) rested e = elim (Bool-cases (is_ready t)) [
  | inl hit ↦ absurd (Option.none-ne-some t (sym (rw hit at e)))
  | inr miss ↦ absurd (omega (arith, ap (λ b. bit (not b)) miss))
]

module _ (k : Kernel) (rested : IsRested k) where
  enters-IsScheduled :
      (task_id : ℕ) (run : Run) (k' : Kernel) → Enters task_id k run k' → IsScheduled running k'
  unfolding record_run_start
  enters-IsScheduled task_id shut_down k' e = absurd e
  enters-IsScheduled task_id (switched context) k' (tcb, rest, found, perm, entered, after) =
      subst (IsScheduled running) (sym after) (record {
        unique = λ j. omega (
          arith,
          count-append (has_id j) rest (started ∷ []),
          counted (has_id j),
          rested.unique j,
        );
        busy = omega (
          arith,
          count-append is_busy rest (started ∷ []),
          counted is_busy,
          bit-is_busy started running refl,
          rested.busy,
        );
        task_id = task_id;
        tcb = started;
        current = (refl, find-append (has_id task_id) rest started alone is_it);
        in_state = refl;
      })
    where
      started : TaskControlBlock
      started = record_run_start (k.clock (k.reads + 1 + 1)) (set_state running tcb)

      counted : (q : TaskControlBlock → Bool) → bit (q tcb) + count q rest ≡ count q k.all_tasks
      counted q = count-Perm q perm

      is_it : has_id task_id tcb ≡ true
      is_it = (count-found (has_id task_id) k.all_tasks tcb found).0

      alone : count (has_id task_id) rest ≡ 0
      alone = omega (arith, counted (has_id task_id), rested.unique task_id, ap bit is_it)

-- What the next task finds: it runs, the invariant holds, or nothing is left.
module _ {E : Type 0} where
  unfoldable pub Resumes : Outcome Kernel E Run → Type 0
  Resumes (ok (switched context) k') = IsScheduled running k'
  Resumes (ok shut_down k') = k'.all_tasks ≡ []
  Resumes (err e k') = ⊥
  Resumes panic = ⊥

pub Next-Resumes :
    (E : Type 0) (k1 k' : Kernel) (run : Run) (first : Option TaskControlBlock)
    → IsRested k1
    → find is_ready k1.all_tasks ≡ first
    → Next (Option.map (λ tcb. tcb.task_id) first) k1 run k'
    → Resumes {E = E} (ok run k')
unfolding Resumes
Next-Resumes E k1 k' shut_down none rested e next =
    ap (λ k. k.all_tasks) next.1 ∙ none_left k1.all_tasks rested.busy e
Next-Resumes E k1 k' (switched context) none rested e next = absurd cc
Next-Resumes E k1 k' shut_down (some tcb) rested e next = absurd next
Next-Resumes E k1 k' (switched context) (some tcb) rested e next =
    enters-IsScheduled k1 rested tcb.task_id (switched context) k' next

-- Where all tasks but the current one are ready, no id is used twice, and the current one is in
-- the list and not in the running state, run_next_task does not panic: the task that it enters is
-- then the only one that runs, and it shuts down only when no task is left.
pub run_next_task-Resumes :
    (E : Type 0) (new : TaskState) (k : Kernel)
    → IsScheduled new k
    → new ≢ running
    → Resumes {E = E} (run_next_task k)
unfolding Resumes
run_next_task-Resumes E new k h leaving = go (run_next_task k) (run_next_task-Runs E k)
  where
    go : (o : Outcome Kernel E Run) → Runs k o → Resumes o
    go (ok run k') (k1, left, next) =
        Next-Resumes E k1 k' run (find is_ready k1.all_tasks) (Leaves-IsRested new k k1 h left) refl
          next
    go (err e k') runs = runs
    go panic runs =
        let (tcb, found, still) = subst (λ c. IsStillRunning c k) h.current.0 runs in
        let same = Option.some-injective tcb h.tcb (sym found ∙ h.current.1) in
        leaving (sym h.in_state ∙ ap (λ t. t.state) (sym same) ∙ still)
