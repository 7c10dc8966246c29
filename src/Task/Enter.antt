-- ===== src/Task/Enter.antt =====
-- The entering half of `run_next_task` of os/src/task.rs, and the whole.
use hj.Base.{
  ℕ, ◌≡◌, refl, sym, subst, Bool, true, false, Option, none, some, List, [], ◌∷◌, ◌⊎◌, inl, inr,
  ◌==◌, find, arith, Bool-cases, ==_refl,
}
use mathlib.Core.Option
use hj.Outcome.{Outcome, ok, err, panic, and_then}
use hj.Task.{
  Kernel, Run, has_id, is_ready, get_next_task_id, take, enter_task, start_taken, enter_next,
  leave_task, run_next_task, set_next_timer_interrupt, read_time, read_time_ms,
}
use hj.Task.State.{TaskControlBlock}
use hj.Task.Take.{get_next_task_id_lem}
use hj.Task.Switch.{IsTaken, take-IsTaken, leave_task-IsLeft, Leaves, IsLeft, Runs, HasEntered}

start_taken-HasEntered :
    (E : Type 0) (task_id : ℕ) (k : Kernel) (first : TaskControlBlock)
    → find (has_id task_id) k.all_tasks ≡ some first
    → (o : Outcome Kernel E (Option TaskControlBlock)) → IsTaken task_id k o
    → HasEntered task_id k (and_then o (start_taken task_id))
unfolding read_time read_time_ms set_next_timer_interrupt
start_taken-HasEntered E task_id k first found (ok none k') h = cc
start_taken-HasEntered E task_id k first found (ok (some tcb) k') h =
    subst (λ z. HasEntered task_id k (start_taken {E = E} task_id (some tcb) z)) (sym h.0)
      (tcb, k'.all_tasks, h.2, h.3, refl, refl)
start_taken-HasEntered E task_id k first found (err e k') h = h
start_taken-HasEntered E task_id k first found panic h = h

find_cons :
    (p : TaskControlBlock → Bool) (tcb : TaskControlBlock) (tasks : List TaskControlBlock)
    (b : Bool) (first : TaskControlBlock)
    → p tcb ≡ b
    → find p (tcb ∷ tasks) ≡ some first
    → (tcb ≡ first) ⊎ (find p tasks ≡ some first)
find_cons p tcb tasks true first hit e = inl (Option.some-injective tcb first (rw hit at e))
find_cons p tcb tasks false first miss e = inr (rw miss at e)

ne_refl : (n : ℕ) → ¬ ((n == n) ≡ false)
ne_refl n e = ground (arith, ==_refl n)

-- A task of the list is found by its id, or another with the same id is.
find_same_id :
    (p : TaskControlBlock → Bool) (tasks : List TaskControlBlock) (first : TaskControlBlock)
    → find p tasks ≡ some first
    → (tcb : TaskControlBlock) × (find (has_id first.task_id) tasks ≡ some tcb)
find_same_id p [] first e = cc
find_same_id p (tcb ∷ tasks) first e = elim (Bool-cases (has_id first.task_id tcb)) [
  | inl hit ↦ rw hit (tcb, refl)
  | inr miss ↦ rw miss (elim (find_cons p tcb tasks (p tcb) first refl e) [
    | inl same ↦
        absurd (ne_refl first.task_id (subst (λ t. has_id first.task_id t ≡ false) same miss))
    | inr other ↦ find_same_id p tasks first other
  ])
]

enter_next-Next :
    (E : Type 0) (k : Kernel) (next : Option TaskControlBlock)
    → find is_ready k.all_tasks ≡ next
    → (k0 : Kernel) → Leaves k0.current k0 k
    → Runs {E = E} k0 (enter_next (Option.map (λ tcb. tcb.task_id) next) k)
unfolding enter_task
enter_next-Next E k none e k0 left = (k, left, rw e (refl, refl))
enter_next-Next E k (some first) e k0 left =
    let (tcb, found) = find_same_id is_ready k.all_tasks first e in
    reach (and_then (take first.task_id k) (start_taken first.task_id))
      (start_taken-HasEntered E first.task_id k tcb found _ (take-IsTaken E first.task_id k))
  where
    reach : (o : Outcome Kernel E Run) → HasEntered first.task_id k o → Runs {E = E} k0 o
    reach (ok run k') h = (k, left, rw e h)
    reach (err x k') h = h
    reach panic h = absurd h

-- For every kernel state: `run_next_task` panics only if the task that leaves is still running.
-- Otherwise that task is queued again when it is ready and dropped with its pages when it ended,
-- and then the task with the id of the first ready task is taken, marked running, put at the end
-- of the list and entered in its context, with its statistics, the timer and the current task
-- brought up to date; with no ready task the machine shuts down. No other task is lost, added or
-- changed.
pub run_next_task-Runs : (E : Type 0) (k : Kernel) → Runs {E = E} k (run_next_task k)
unfolding run_next_task
run_next_task-Runs E k = go (leave_task k.current k) (leave_task-IsLeft E k.current k)
  where
    go :
        (o : Outcome Kernel E (Unit {0}))
        → IsLeft k.current k o
        → Runs {E = E} k (and_then o (λ _ k1. enter_next (get_next_task_id k1.all_tasks) k1))
    go (ok done k1) h =
        subst (λ next. Runs {E = E} k (enter_next next k1))
          (sym (get_next_task_id_lem k1.all_tasks))
          (enter_next-Next E k1 (find is_ready k1.all_tasks) refl k h)
    go (err x k1) h = h
    go panic h = h
