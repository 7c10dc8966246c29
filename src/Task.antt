-- ===== src/Task.antt =====
-- os/src/task.rs: the list of tasks, and the switch from one to the next.
-- The kernel runs on one hart with interrupts off, so the lock of the list never waits. The clock
-- is a sequence of readings. `tp` leads to the trap context of the running task; of it the model
-- keeps the task id. `__switch` saves the registers through a pointer to a local variable of
-- `run_next_task`, out of which the task has been moved, so no task of the list is written.
pub mod State
pub mod Take
pub mod Switch
pub mod Exchange
pub mod Enter
pub mod Schedule
pub mod Apps
pub mod Start
use package.hj.Base.{
  ℕ, ◌+◌, ◌-◌, ◌*◌, ◌/◌, ◌%◌, Bool, Option, none, some, List, [], ◌∷◌, ◌++◌, ◌⊎◌, inl, inr, ◌==◌,
  if◌then◌else◌, length, position, find, update_first, swap, swap_remove, get_elem?, wrapping_add,
}
use package.hj.Outcome.{
  Outcome, Cmd, ok, err, panic, pure, fail, abort, or_panic, modify, ◌>>=◌, ◌>>◌,
}
use package.hj.Mm.PageAlloc.{Machine}
use package.hj.Mm.Vm.{VmError, VmSpace}
use package.hj.Mm.Vm.User.{drop_space}
use State.{
  TaskState, ready, running, killed, exited, same_state, TaskContext, TaskStatistics,
  TaskControlBlock, set_state, record_run_start, record_run_end, record_syscall,
}

abbrev pub timebase_frequency : ℕ
timebase_frequency = 10_000_000

pub record Kernel : Type 0 where
  pub machine : Machine
  pub all_tasks : List TaskControlBlock
  pub next_task_id : ℕ
  -- The id in the trap context that `tp` leads to, if `tp` is not 0.
  pub current : Option ℕ
  -- The readings of the time counter, and how many were made.
  pub clock : ℕ → ℕ
  pub reads : ℕ
  pub mtimecmp : ℕ

abbrev pub has_id : ℕ → TaskControlBlock → Bool
has_id task_id tcb = tcb.task_id == task_id

abbrev pub is_ready : TaskControlBlock → Bool
is_ready tcb = same_state tcb.state ready

unfoldable pub get_next_task_id : List TaskControlBlock → Option ℕ
get_next_task_id tasks = elim (position is_ready tasks) [
  | none ↦ none
  | some i ↦ elim (get_elem? tasks i) [ none ↦ none | some tcb ↦ some tcb.task_id ]
]

-- The task is swapped to a place that the time picks, and removed there.
unfoldable pub take_at :
    ℕ → ℕ → List TaskControlBlock → Option (TaskControlBlock × List TaskControlBlock)
take_at index time tasks =
    let rand_index = time % length tasks in
    let swapped = swap index rand_index tasks in
    elim (get_elem? swapped rand_index) [
      | none ↦ none
      | some tcb ↦ some (tcb, swap_remove rand_index swapped)
    ]

unfoldable pub take_task_tcb :
    ℕ → ℕ → List TaskControlBlock → Option (TaskControlBlock × List TaskControlBlock)
unfolding take_at
take_task_tcb task_id time tasks = elim (position (has_id task_id) tasks) [
  | none ↦ none
  | some index ↦ take_at index time tasks
]

-- Where control goes: to the context of another task, or nowhere.
pub data Run : Type 0 where
  switched : TaskContext → Run
  shut_down : Run

abbrev task_list : List TaskControlBlock → Kernel → Kernel
task_list tasks k = record k { all_tasks = tasks }

module _ {E : Type 0} where
  unfoldable pub read_time : Cmd Kernel E ℕ
  read_time k = ok (k.clock k.reads) (record k { reads = k.reads + 1 })

  unfoldable pub read_time_ms : Cmd Kernel E ℕ
  read_time_ms = do time ← read_time; pure (time / (timebase_frequency / 1_000))

  unfoldable pub set_next_timer_interrupt : Cmd Kernel E (Unit {0})
  set_next_timer_interrupt = do
    now ← read_time
    modify λ k. record k { mtimecmp = wrapping_add (timebase_frequency / 100) now }

  unfoldable pub get_current_task_id : Cmd Kernel E ℕ
  get_current_task_id k = or_panic k.current k

  abbrev pub keep_taken :
      Option (TaskControlBlock × List TaskControlBlock) → Cmd Kernel E (Option TaskControlBlock)
  keep_taken none = abort
  keep_taken (some (tcb, tasks)) = λ k. ok (some tcb) (task_list tasks k)

  -- The time is read only if the task is found.
  abbrev pub take_position : Option ℕ → Cmd Kernel E (Option TaskControlBlock)
  take_position none = pure none
  take_position (some index) = read_time >>= λ time k. keep_taken (take_at index time k.all_tasks) k

  unfoldable pub take : ℕ → Cmd Kernel E (Option TaskControlBlock)
  take task_id k = take_position (position (has_id task_id) k.all_tasks) k

  -- A task that leaves the running state: it is queued again, or dropped with its space.
  unfoldable pub put_away : TaskControlBlock → TaskState → Cmd Kernel E (Unit {0})
  put_away tcb ready = modify (λ k. task_list (k.all_tasks ++ tcb ∷ []) k)
  put_away tcb running = abort
  put_away tcb killed = modify (λ k. record k { machine = drop_space tcb.vm_space k.machine })
  put_away tcb exited = modify (λ k. record k { machine = drop_space tcb.vm_space k.machine })

  abbrev pub put_away_taken : Option TaskControlBlock → Cmd Kernel E (Unit {0})
  put_away_taken none = pure tt
  put_away_taken (some tcb) = put_away tcb tcb.state

  abbrev pub leave_task : Option ℕ → Cmd Kernel E (Unit {0})
  leave_task none = pure tt
  leave_task (some task_id) = take task_id >>= put_away_taken

  -- The context that is entered is that of the task as it stands in the list.
  abbrev pub start_taken : ℕ → Option TaskControlBlock → Cmd Kernel E Run
  start_taken task_id none = abort
  start_taken task_id (some tcb) = do
    let next_context = tcb.context
    time_ms ← read_time_ms
    time ← read_time
    modify λ k. task_list (k.all_tasks ++ record_run_start time (set_state running tcb) ∷ []) k
    set_next_timer_interrupt
    modify λ k. record k { current = some task_id }
    pure (switched next_context)

  unfoldable pub enter_task : ℕ → Cmd Kernel E Run
  enter_task task_id = take task_id >>= start_taken task_id

  abbrev pub enter_next : Option ℕ → Cmd Kernel E Run
  enter_next none = pure shut_down
  enter_next (some task_id) = enter_task task_id

  unfoldable pub run_next_task : Cmd Kernel E Run
  run_next_task = do
    current ← (λ k. ok k.current k)
    leave_task current
    next ← (λ k. ok (get_next_task_id k.all_tasks) k)
    enter_next next

  -- `update_tcb` with a pure function: the first task with the id is changed.
  unfoldable pub update_tcb : ℕ → (TaskControlBlock → TaskControlBlock) → Cmd Kernel E (Unit {0})
  update_tcb task_id f k = elim (find (has_id task_id) k.all_tasks) [
    | none ↦ panic
    | some _ ↦ ok tt (task_list (update_first (has_id task_id) f k.all_tasks) k)
  ]

  abbrev pub finish_space :
      ℕ
      → Kernel
      → Outcome (Machine × VmSpace) VmError (Unit {0})
      → Outcome Kernel E (VmError ⊎ Unit {0})
  finish_space task_id k (ok _ (m, space)) = ok (inr tt) (record k {
    machine = m;
    all_tasks = update_first (has_id task_id) (λ tcb. record tcb { vm_space = space }) k.all_tasks;
  })
  finish_space task_id k (err e (m, space)) = ok (inl e) (record k {
    machine = m;
    all_tasks = update_first (has_id task_id) (λ tcb. record tcb { vm_space = space }) k.all_tasks;
  })
  finish_space task_id k panic = panic

  -- `update_tcb` with a method of the task's space, whose result is kept.
  unfoldable pub update_space :
      ℕ → Cmd (Machine × VmSpace) VmError (Unit {0}) → Cmd Kernel E (VmError ⊎ Unit {0})
  update_space task_id c k = elim (find (has_id task_id) k.all_tasks) [
    | none ↦ panic
    | some tcb ↦ finish_space task_id k (c (k.machine, tcb.vm_space))
  ]

  unfoldable pub record_current_run_end : Cmd Kernel E (Unit {0})
  record_current_run_end = do
    task_id ← get_current_task_id
    tcb ← (λ k. or_panic (find (has_id task_id) k.all_tasks) k)
    time ← read_time
    update_tcb task_id (record_run_end time)

  unfoldable pub record_current_syscall : ℕ → Cmd Kernel E Bool
  record_current_syscall syscall_id = do
    task_id ← get_current_task_id
    tcb ← (λ k. or_panic (find (has_id task_id) k.all_tasks) k)
    let recorded = record_syscall syscall_id tcb
    update_tcb task_id (λ t. (record_syscall syscall_id t).0)
    pure recorded.1

-- The error is the state that was found.
unfoldable pub exchange_current_task_state : TaskState → TaskState → Cmd Kernel TaskState TaskState
exchange_current_task_state expected new = do
  task_id ← get_current_task_id
  tcb ← (λ k. or_panic (find (has_id task_id) k.all_tasks) k)
  if same_state tcb.state expected
      then (do update_tcb task_id (set_state new); pure expected)
      else fail tcb.state

pub record TaskInfo : Type 0 where
  pub task_id : ℕ
  pub state : TaskState
  pub statistics : TaskStatistics

unfoldable pub get_task_info : ℕ → List TaskControlBlock → Option TaskInfo
get_task_info task_id tasks = elim (find (has_id task_id) tasks) [
  | none ↦ none
  | some tcb ↦ some (record { task_id = task_id; state = tcb.state; statistics = tcb.statistics })
]
