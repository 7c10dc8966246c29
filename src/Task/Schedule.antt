-- ===== src/Task/Schedule.antt =====
-- The invariant of the list of tasks in os/src/task.rs, in terms of the ids and the states alone.
mod Count
pub mod Next
pub mod Records
pub mod Alike
pub mod Leaver
use package.hj.Base.{
  ℕ, ◌+◌, ◌≤◌, ◌≡◌, refl, ap, ◌∙◌, Bool, true, not, Option, some, find, update_first, ◌==◌, arith,
}
use package.hj.Task.{Kernel, has_id, is_ready}
use package.hj.Task.State.{TaskState, ready, running, killed, exited, TaskControlBlock, same_state}
pub use Count.*

abbrev pub is_busy : TaskControlBlock → Bool
is_busy tcb = not (is_ready tcb)

-- The current task is the first with its id.
abbrev pub IsCurrent : ℕ → TaskControlBlock → Kernel → Type 0
IsCurrent task_id tcb k =
    (k.current ≡ some task_id) × (find (has_id task_id) k.all_tasks ≡ some tcb)

-- How many of the tasks in a state are not ready: one, or none.
abbrev pub busy_in : TaskState → ℕ
busy_in ready = 0
busy_in running = 1
busy_in killed = 1
busy_in exited = 1

-- No id is used twice, the current task is in the state, and every other task is ready. Between two
-- traps the state is `running`; a task that leaves has another.
pub record IsScheduled (state : TaskState) (k : Kernel) : Type 0 where
  pub unique : (j : ℕ) → count (has_id j) k.all_tasks ≤ 1
  pub busy : count is_busy k.all_tasks ≡ busy_in state
  pub task_id : ℕ
  pub tcb : TaskControlBlock
  pub current : IsCurrent task_id tcb k
  pub in_state : tcb.state ≡ state

-- No task is current: none but ready tasks are left.
pub record IsRested (k : Kernel) : Type 0 where
  pub unique : (j : ℕ) → count (has_id j) k.all_tasks ≤ 1
  pub busy : count is_busy k.all_tasks ≡ 0

pub bit-is_busy :
    (tcb : TaskControlBlock) (state : TaskState)
    → tcb.state ≡ state
    → bit (is_busy tcb) ≡ busy_in state
unfolding same_state
bit-is_busy tcb ready e = rw e refl
bit-is_busy tcb running e = rw e refl
bit-is_busy tcb killed e = rw e refl
bit-is_busy tcb exited e = rw e refl

-- A change of the current task, under its id.
pub update-IsScheduled :
    (state new : TaskState) (k k' : Kernel) (h : IsScheduled state k)
    (f : TaskControlBlock → TaskControlBlock)
    → ((t : TaskControlBlock) → (f t).task_id ≡ t.task_id)
    → (f h.tcb).state ≡ new
    → k'.current ≡ k.current
    → k'.all_tasks ≡ update_first (has_id h.task_id) f k.all_tasks
    → IsScheduled new k'
update-IsScheduled state new k k' h f keeps gets same changed = record {
  unique = λ j. omega (
    arith,
    ap (count (has_id j)) changed,
    counts (has_id j),
    ap (λ i. bit (i == j)) (keeps h.tcb),
    h.unique j,
  );
  busy = omega (
    arith,
    ap (count is_busy) changed,
    counts is_busy,
    bit-is_busy h.tcb state h.in_state,
    bit-is_busy (f h.tcb) new gets,
    h.busy,
  );
  task_id = h.task_id;
  tcb = f h.tcb;
  current = (
    same ∙ h.current.0,
    ap (find (has_id h.task_id)) changed
        ∙ find-update_first (has_id h.task_id) f k.all_tasks h.tcb h.current.1 (
            ap (λ i. i == h.task_id) (keeps h.tcb)
            ∙ (count-found (has_id h.task_id) k.all_tasks h.tcb h.current.1).0),
  );
  in_state = gets;
}
  where
    counts :
        (q : TaskControlBlock → Bool)
        → count q (update_first (has_id h.task_id) f k.all_tasks) + bit (q h.tcb)
          ≡ count q k.all_tasks + bit (q (f h.tcb))
    counts q = count-update_first (has_id h.task_id) q f k.all_tasks h.tcb h.current.1
