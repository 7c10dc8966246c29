-- ===== src/Task/Exchange.antt =====
-- The change of the current task's state: `exchange_current_task_state` of os/src/task.rs.
use hj.Base.{
  ℕ, ◌≡◌, ◌≢◌, inl, inr, refl, sym, ap, ◌∙◌, Bool, true, false, Option, none, some, List, [], ◌∷◌,
  if◌then◌else◌, find, update_first, arith, Bool-cases, Option-cases,
}
use mathlib.Core.Option
use hj.Outcome.{Outcome, ok, err, panic}
use hj.Task.{Kernel, has_id, exchange_current_task_state, get_current_task_id, update_tcb}
use hj.Task.State.{
  TaskState, ready, running, killed, exited, same_state, TaskControlBlock, set_state,
}

same_state-true : (a b : TaskState) → same_state a b ≡ true → a ≡ b
unfolding same_state
same_state-true ready ready e = refl
same_state-true ready running e = absurd cc
same_state-true ready killed e = absurd cc
same_state-true ready exited e = absurd cc
same_state-true running ready e = absurd cc
same_state-true running running e = refl
same_state-true running killed e = absurd cc
same_state-true running exited e = absurd cc
same_state-true killed ready e = absurd cc
same_state-true killed running e = absurd cc
same_state-true killed killed e = refl
same_state-true killed exited e = absurd cc
same_state-true exited ready e = absurd cc
same_state-true exited running e = absurd cc
same_state-true exited killed e = absurd cc
same_state-true exited exited e = refl

pub same_state_refl : (a : TaskState) → same_state a a ≡ true
unfolding same_state
same_state_refl ready = refl
same_state_refl running = refl
same_state_refl killed = refl
same_state_refl exited = refl

same_state-false : (a b : TaskState) → same_state a b ≡ false → a ≢ b
same_state-false a b e p = true_not (sym (same_state_refl a) ∙ ap (same_state a) p ∙ e)
  where
    true_not : ¬ (true ≡ false)
    true_not h = absurd cc

find-update_first_self :
    (task_id : ℕ) (new : TaskState) (tasks : List TaskControlBlock) (tcb : TaskControlBlock)
    → find (has_id task_id) tasks ≡ some tcb
    → find (has_id task_id) (update_first (has_id task_id) (set_state new) tasks)
      ≡ some (set_state new tcb)
find-update_first_self task_id new [] tcb e = cc
find-update_first_self task_id new (t ∷ tasks) tcb e = elim (Bool-cases (has_id task_id t)) [
  | inl hit ↦ rw (hit, hit) (ap (Option.map (set_state new)) (rw hit at e))
  | inr miss ↦ rw (miss, miss) (find-update_first_self task_id new tasks tcb (rw miss at e))
]

find-update_first_ne :
    (task_id j : ℕ) (new : TaskState) (tasks : List TaskControlBlock)
    → j ≢ task_id
    → find (has_id j) (update_first (has_id task_id) (set_state new) tasks) ≡ find (has_id j) tasks
find-update_first_ne task_id j new [] ne = refl
find-update_first_ne task_id j new (t ∷ tasks) ne = elim (Bool-cases (has_id task_id t)) [
  | inl hit ↦ elim (Bool-cases (has_id j t)) [
    | inl same ↦ absurd (ne (ground arith))
    | inr other ↦ rw (hit, other) refl
  ]
  | inr miss ↦
      let rest = find-update_first_ne task_id j new tasks ne in
      elim (Bool-cases (has_id j t)) [
        | inl same ↦ rw (miss, same) refl
        | inr other ↦ rw (miss, other) rest
      ]
]

-- The first task with the id is in the new state, and no task with another id changed.
abbrev pub IsChanged : ℕ → TaskControlBlock → TaskState → (k k' : Kernel) → Type 0
IsChanged task_id tcb new k k' =
    (k' ≡ record k { all_tasks = k'.all_tasks })
    × (find (has_id task_id) k'.all_tasks ≡ some (set_state new tcb))
    × ((j : ℕ) → j ≢ task_id → find (has_id j) k'.all_tasks ≡ find (has_id j) k.all_tasks)

-- What the call promises, with the current task's id and the first task that has it.
abbrev pub Exchanges :
    (expected new : TaskState)
    → Kernel
    → (current : Option ℕ) → Option TaskControlBlock
    → Outcome Kernel TaskState TaskState
    → Type 0
Exchanges expected new k (some task_id) (some tcb) (ok old k') =
    (old ≡ expected) × (tcb.state ≡ expected) × IsChanged task_id tcb new k k'
Exchanges expected new k (some task_id) (some tcb) (err found k') =
    (k' ≡ k) × (found ≡ tcb.state) × (tcb.state ≢ expected)
Exchanges expected new k (some task_id) (some tcb) panic = ⊥
Exchanges expected new k (some task_id) none (ok old k') = ⊥
Exchanges expected new k (some task_id) none (err found k') = ⊥
Exchanges expected new k (some task_id) none panic = Unit {0}
Exchanges expected new k none first (ok old k') = ⊥
Exchanges expected new k none first (err found k') = ⊥
Exchanges expected new k none first panic = Unit {0}

abbrev pub first_with : Option ℕ → List TaskControlBlock → Option TaskControlBlock
first_with none tasks = none
first_with (some task_id) tasks = find (has_id task_id) tasks

pub update_tcb_found :
    (E : Type 0) (task_id : ℕ) (f : TaskControlBlock → TaskControlBlock) (k : Kernel)
    (tcb : TaskControlBlock)
    → find (has_id task_id) k.all_tasks ≡ some tcb
    → update_tcb {E = E} task_id f k
      ≡ ok tt (record k { all_tasks = update_first (has_id task_id) f k.all_tasks })
unfolding update_tcb
update_tcb_found E task_id f k tcb found = rw (update_tcb, found) refl

-- The call with the current task's id and the task as arguments.
pub exchange_found :
    (expected new : TaskState) (k : Kernel) (task_id : ℕ) (tcb : TaskControlBlock) (same : Bool)
    → k.current ≡ some task_id
    → find (has_id task_id) k.all_tasks ≡ some tcb
    → same_state tcb.state expected ≡ same
    → exchange_current_task_state expected new k ≡ (
        if same
        then ok expected
            (record k { all_tasks = update_first (has_id task_id) (set_state new) k.all_tasks })
        else err tcb.state k)
unfolding exchange_current_task_state get_current_task_id
exchange_found expected new k task_id tcb true e found same =
    simp (e, found, same, update_tcb_found TaskState task_id (set_state new) k tcb found) refl
exchange_found expected new k task_id tcb false e found same = simp (e, found, same) refl

exchange_none :
    (expected new : TaskState) (k : Kernel)
    → k.current ≡ none
    → exchange_current_task_state expected new k ≡ panic
unfolding exchange_current_task_state get_current_task_id
exchange_none expected new k e = rw e refl

exchange_absent :
    (expected new : TaskState) (k : Kernel) (task_id : ℕ)
    → k.current ≡ some task_id
    → find (has_id task_id) k.all_tasks ≡ none
    → exchange_current_task_state expected new k ≡ panic
unfolding exchange_current_task_state get_current_task_id
exchange_absent expected new k task_id e absent = simp (e, absent) refl

-- For every kernel: with no current task, or no task of the list with its id, the call panics.
-- Otherwise it looks at the first such task: in the expected state it is put into the new state,
-- and no task with another id changes; in any other state nothing changes and the error is that
-- state.
pub exchange_current_task_state-Exchanges :
    (expected new : TaskState) (k : Kernel)
    → Exchanges expected new k k.current
        (first_with k.current k.all_tasks)
        (exchange_current_task_state expected new k)
exchange_current_task_state-Exchanges expected new k = go k.current refl
  where
    go :
        (current : Option ℕ)
        → k.current ≡ current
        → Exchanges expected new k k.current
            (first_with k.current k.all_tasks)
            (exchange_current_task_state expected new k)
    go none e = simp (exchange_none expected new k e, e) tt
    go (some task_id) e = elim (Option-cases (find (has_id task_id) k.all_tasks)) [
      | inl absent ↦ simp (exchange_absent expected new k task_id e absent, e, absent) tt
      | inr (tcb, found) ↦ elim (Bool-cases (same_state tcb.state expected)) [
        | inl same ↦
            simp (exchange_found expected new k task_id tcb true e found same, e, found)
              (
                refl,
                same_state-true tcb.state expected same,
                (
                  refl,
                  find-update_first_self task_id new k.all_tasks tcb found,
                  λ j ne. find-update_first_ne task_id j new k.all_tasks ne,
                ),
              )
        | inr differs ↦
            simp (exchange_found expected new k task_id tcb false e found differs, e, found)
              (refl, refl, same_state-false tcb.state expected differs)
      ]
    ]
