-- ===== src/Task/Switch.antt =====
-- `run_next_task` of os/src/task.rs: which task leaves, which is entered, and that no other is
-- lost.
use mathlib.Core.List.{Perm, perm_append_comm}
use mathlib.Core.List.Perm
use hj.Base.{
  ℕ, ◌+◌, ◌/◌, ◌≡◌, refl, sym, subst, Option, none, some, List, [], ◌∷◌, ◌++◌, ◌⊎◌, inl, inr, find,
  wrapping_add,
}
use mathlib.Core.Option
use hj.Outcome.{Outcome, ok, err, panic, and_then}
use hj.Mm.Vm.User.{drop_space}
use hj.Task.{
  Kernel, Run, switched, shut_down, has_id, is_ready, take_at, take, take_position, keep_taken,
  put_away, put_away_taken, leave_task, read_time, timebase_frequency,
}
use hj.Task.State.{
  TaskState, ready, running, killed, exited, TaskControlBlock, set_state, record_run_start,
}
use hj.Task.Take.{Hit, position-Hit, Takes, take_at-Takes}

module _ {E : Type 0} where
  -- What `take` does to the kernel.
  abbrev pub IsTaken : ℕ → Kernel → Outcome Kernel E (Option TaskControlBlock) → Type 0
  IsTaken task_id k (ok none k') = (k' ≡ k) × (find (has_id task_id) k.all_tasks ≡ none)
  IsTaken task_id k (ok (some tcb) k') =
      (k' ≡ record k { all_tasks = k'.all_tasks; reads = k.reads + 1 })
      × (tcb.task_id ≡ task_id)
      × (find (has_id task_id) k.all_tasks ≡ some tcb)
      × Perm (tcb ∷ k'.all_tasks) k.all_tasks
  IsTaken task_id k (err e k') = ⊥
  IsTaken task_id k panic = ⊥

keep_taken-IsTaken :
    (E : Type 0) (task_id : ℕ) (k : Kernel) (tcb : TaskControlBlock)
    → find (has_id task_id) k.all_tasks ≡ some tcb
    → (r : Option (TaskControlBlock × List TaskControlBlock)) → Takes task_id k.all_tasks r
    → IsTaken {E = E} task_id k (keep_taken r (record k { reads = k.reads + 1 }))
keep_taken-IsTaken E task_id k tcb found none h = cc
keep_taken-IsTaken E task_id k tcb found (some (tcb', rest)) h = (refl, h.0, h.1, h.2)

take_position-IsTaken :
    (E : Type 0) (task_id : ℕ) (k : Kernel) (r : Option ℕ)
    → Hit (has_id task_id) k.all_tasks r
    → IsTaken {E = E} task_id k (take_position r k)
unfolding Hit read_time
take_position-IsTaken E task_id k none h = (refl, h)
take_position-IsTaken E task_id k (some index) (tcb, get, hit, found) =
    let time = k.clock k.reads in
    keep_taken-IsTaken E task_id k tcb found (take_at index time k.all_tasks)
      (take_at-Takes task_id time k.all_tasks index tcb get hit found)

-- `take` takes the first task with the id and loses no other; it never panics.
pub take-IsTaken :
    (E : Type 0) (task_id : ℕ) (k : Kernel) → IsTaken {E = E} task_id k (take task_id k)
unfolding take
take-IsTaken E task_id k =
    take_position-IsTaken E task_id k _ (position-Hit (has_id task_id) k.all_tasks)

-- A task that leaves: it is queued again, or it is dropped with its pages.
abbrev pub PutAway : TaskControlBlock → (k k' : Kernel) → Type 0
PutAway tcb k k' =
    (tcb.state ≡ ready) × (k'.machine ≡ k.machine) × Perm k'.all_tasks k.all_tasks
    ⊎ ((tcb.state ≡ killed) ⊎ (tcb.state ≡ exited))
      × (k'.machine ≡ drop_space tcb.vm_space k.machine)
      × Perm (tcb ∷ k'.all_tasks) k.all_tasks

-- The task that `tp` leads to, as it leaves; one that is not in the list has left before.
abbrev pub Leaves : Option ℕ → (k k' : Kernel) → Type 0
Leaves none k k' = k' ≡ k
Leaves (some task_id) k k' =
    (find (has_id task_id) k.all_tasks ≡ none) × (k' ≡ k)
    ⊎ (tcb : TaskControlBlock) × (find (has_id task_id) k.all_tasks ≡ some tcb) × PutAway tcb k k'

-- The leaving task is still running: what `run_next_task` must not be called with.
abbrev pub IsStillRunning : Option ℕ → Kernel → Type 0
IsStillRunning none k = ⊥
IsStillRunning (some task_id) k =
    (tcb : TaskControlBlock) × (find (has_id task_id) k.all_tasks ≡ some tcb)
    × (tcb.state ≡ running)

-- What happens to the kernel when a task is entered: its state, its statistics, its place in the
-- list, the timer and the current task.
abbrev pub Enters : ℕ → Kernel → Run → Kernel → Type 0
Enters task_id k shut_down k' = ⊥
Enters task_id k (switched context) k' =
    (tcb : TaskControlBlock) × (rest : List TaskControlBlock) × (find (has_id task_id) k.all_tasks
      ≡ some tcb)
    × Perm (tcb ∷ rest) k.all_tasks
    × (context ≡ tcb.context)
    × (k' ≡ record k {
      all_tasks = rest ++ record_run_start (k.clock (k.reads + 1 + 1)) (set_state running tcb) ∷ [];
      reads = k.reads + 1 + 1 + 1 + 1;
      current = some task_id;
      mtimecmp = wrapping_add (timebase_frequency / 100) (k.clock (k.reads + 1 + 1 + 1));
    })

abbrev pub Next : Option ℕ → Kernel → Run → Kernel → Type 0
Next none k run k' = (run ≡ shut_down) × (k' ≡ k)
Next (some task_id) k run k' = Enters task_id k run k'

module _ {E : Type 0} where
  abbrev pub IsLeft : Option ℕ → Kernel → Outcome Kernel E (Unit {0}) → Type 0
  IsLeft current k (ok _ k') = Leaves current k k'
  IsLeft current k (err e k') = ⊥
  IsLeft current k panic = IsStillRunning current k

  -- What `run_next_task` promises.
  abbrev pub Runs : Kernel → Outcome Kernel E Run → Type 0
  Runs k (ok run k') =
      (k1 : Kernel) × Leaves k.current k k1
      × Next (Option.map (λ tcb. tcb.task_id) (find is_ready k1.all_tasks)) k1 run k'
  Runs k (err e k') = ⊥
  Runs k panic = IsStillRunning k.current k

  abbrev pub HasEntered : ℕ → Kernel → Outcome Kernel E Run → Type 0
  HasEntered task_id k (ok run k') = Enters task_id k run k'
  HasEntered task_id k (err e k') = ⊥
  HasEntered task_id k panic = ⊥

put_away-IsLeft :
    (E : Type 0) (task_id : ℕ) (k : Kernel) (rest : List TaskControlBlock) (reads : ℕ)
    (tcb : TaskControlBlock) (state : TaskState)
    → tcb.state ≡ state
    → find (has_id task_id) k.all_tasks ≡ some tcb
    → Perm (tcb ∷ rest) k.all_tasks
    → IsLeft {E = E}
        (some task_id)
        k
        (put_away tcb state (record k { all_tasks = rest; reads = reads }))
unfolding put_away
put_away-IsLeft E task_id k rest reads tcb ready e found perm =
    inr (tcb, found, inl (e, refl, Perm.trans (perm_append_comm rest (tcb ∷ [])) perm))
put_away-IsLeft E task_id k rest reads tcb running e found perm = (tcb, found, e)
put_away-IsLeft E task_id k rest reads tcb killed e found perm =
    inr (tcb, found, inr (inl e, refl, perm))
put_away-IsLeft E task_id k rest reads tcb exited e found perm =
    inr (tcb, found, inr (inr e, refl, perm))

put_away_taken-IsLeft :
    (E : Type 0) (task_id : ℕ) (k : Kernel) (o : Outcome Kernel E (Option TaskControlBlock))
    → IsTaken task_id k o
    → IsLeft (some task_id) k (and_then o put_away_taken)
put_away_taken-IsLeft E task_id k (ok none k') h = inl (h.1, h.0)
put_away_taken-IsLeft E task_id k (ok (some tcb) k') h =
    subst (λ z. IsLeft {E = E} (some task_id) k (put_away tcb tcb.state z)) (sym h.0)
      (put_away-IsLeft E task_id k k'.all_tasks (k.reads + 1) tcb tcb.state refl h.2 h.3)
put_away_taken-IsLeft E task_id k (err e k') h = h
put_away_taken-IsLeft E task_id k panic h = absurd h

pub leave_task-IsLeft :
    (E : Type 0) (current : Option ℕ) (k : Kernel) → IsLeft {E = E} current k (leave_task current k)
leave_task-IsLeft E none k = refl
leave_task-IsLeft E (some task_id) k =
    put_away_taken-IsLeft E task_id k (take task_id k) (take-IsTaken E task_id k)
