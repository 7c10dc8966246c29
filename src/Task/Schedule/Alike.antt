-- ===== src/Task/Schedule/Alike.antt =====
-- Kernels whose tasks agree in their ids and states: what the invariant of the list of tasks reads.
use hj.Base.{
  ℕ, ◌+◌, ◌≤◌, ◌≡◌, refl, sym, ap, ◌∙◌, subst, Bool, not, Bool-cases, some, List, [], ◌∷◌, inl, inr,
  find, ◌==◌,
}
use mathlib.Core.Option
use hj.Task.{Kernel, has_id}
use hj.Task.State.{TaskState, ready, same_state, TaskControlBlock}
use hj.Task.Schedule.{bit, count, IsScheduled}

abbrev pub AlikeTasks : (old new : List TaskControlBlock) → Type 0
AlikeTasks [] [] = Unit {0}
AlikeTasks [] (t' ∷ new) = ⊥
AlikeTasks (t ∷ old) [] = ⊥
AlikeTasks (t ∷ old) (t' ∷ new) =
    (t'.task_id ≡ t.task_id) × (t'.state ≡ t.state) × AlikeTasks old new

-- The current task is the same, and the tasks have the same ids and states, one by one.
abbrev pub Alike : (k k' : Kernel) → Type 0
Alike k k' = (k'.current ≡ k.current) × AlikeTasks k.all_tasks k'.all_tasks

AlikeTasks-refl : (tasks : List TaskControlBlock) → AlikeTasks tasks tasks
AlikeTasks-refl [] = tt
AlikeTasks-refl (t ∷ tasks) = (refl, refl, AlikeTasks-refl tasks)

pub Alike-refl : (k : Kernel) → Alike k k
Alike-refl k = (refl, AlikeTasks-refl k.all_tasks)

count-AlikeTasks :
    (q : ℕ → TaskState → Bool) (old new : List TaskControlBlock)
    → AlikeTasks old new
    → count (λ t. q t.task_id t.state) new ≡ count (λ t. q t.task_id t.state) old
count-AlikeTasks q [] [] h = refl
count-AlikeTasks q [] (t' ∷ new) h = absurd h
count-AlikeTasks q (t ∷ old) [] h = absurd h
count-AlikeTasks q (t ∷ old) (t' ∷ new) h =
    rw (h.0, h.1) (ap (λ n. bit (q t.task_id t.state) + n) (count-AlikeTasks q old new h.2))

find-AlikeTasks :
    (task_id : ℕ) (old new : List TaskControlBlock) (tcb : TaskControlBlock)
    → AlikeTasks old new
    → find (has_id task_id) old ≡ some tcb
    → (tcb' : TaskControlBlock) × (find (has_id task_id) new ≡ some tcb') × (tcb'.state ≡ tcb.state)
find-AlikeTasks task_id [] new tcb h e = cc
find-AlikeTasks task_id (t ∷ old) [] tcb h e = absurd h
find-AlikeTasks task_id (t ∷ old) (t' ∷ new) tcb h e =
    let same_id = ap (λ i. i == task_id) h.0 in
    elim (Bool-cases (has_id task_id t)) [
      | inl hit ↦ (
        t',
        rw (same_id ∙ hit) refl,
        h.1 ∙ ap (λ t. t.state) (Option.some-injective t tcb (rw hit at e)),
      )
      | inr miss ↦
          let (tcb', found, same) = find-AlikeTasks task_id old new tcb h.2 (rw miss at e) in
          (tcb', rw (same_id ∙ miss) found, same)
    ]

pub Alike-IsScheduled :
    (state : TaskState) (k k' : Kernel) → IsScheduled state k → Alike k k' → IsScheduled state k'
Alike-IsScheduled state k k' h alike =
    let (tcb, found, same) =
      find-AlikeTasks h.task_id k.all_tasks k'.all_tasks h.tcb alike.1 h.current.1 in
    record {
      unique = λ j.
          subst (λ n. n ≤ 1)
            (sym (count-AlikeTasks (λ i s. i == j) k.all_tasks k'.all_tasks alike.1)) (h.unique j);
      busy =
          count-AlikeTasks (λ i s. not (same_state s ready)) k.all_tasks k'.all_tasks alike.1
          ∙ h.busy;
      task_id = h.task_id;
      tcb = tcb;
      current = (alike.0 ∙ h.current.0, found);
      in_state = same ∙ h.in_state;
    }
