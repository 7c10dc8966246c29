-- ===== src/Task/State.antt =====
-- os/src/task/state.rs: the task control block and the statistics of a task.
-- Sums and differences of times wrap, as in release code. The clock is an argument.
pub mod Counts
pub mod Accounting
use package.hj.Base.{
  ℕ, ◌+◌, ◌%◌, Bool, true, false, Option, none, some, List, [], ◌∷◌, ◌||◌, ◌==◌, if◌then◌else◌,
  replicate, wrapping_add, wrapping_sub, usize_mod,
}
use package.hj.Mm.Vm.{VmSpace}

abbrev pub max_syscalls_tracked : ℕ
max_syscalls_tracked = 6

pub data TaskState : Type 0 where
  ready running killed exited : TaskState

pub TaskState-discrete : Discrete TaskState
TaskState-discrete = hlevel

-- `==` on states.
unfoldable pub same_state : TaskState → TaskState → Bool
same_state ready ready = true
same_state running running = true
same_state killed killed = true
same_state exited exited = true
same_state _ _ = false

pub record TaskContext : Type 0 where
  pub saved : List ℕ
  pub ra : ℕ
  pub sp : ℕ
  pub tp : ℕ
  pub satp : ℕ

unfoldable pub context_new_initial : (ra sp tp satp : ℕ) → TaskContext
context_new_initial ra sp tp satp = record {
  saved = replicate 12 0;
  ra = ra;
  sp = sp;
  tp = tp;
  satp = satp;
}

pub record TaskStatistics : Type 0 where
  pub mtime_first_run_start : ℕ
  pub mtime_last_run_start : ℕ
  pub mtime_last_run_end : ℕ
  pub mtime_total_executed : ℕ
  pub mtime_total_waiting : ℕ
  pub switch_count : ℕ
  -- (syscall_id, called_times)
  pub syscall_counts : List (ℕ × ℕ)

unfoldable pub new_zeros : TaskStatistics
new_zeros = record {
  mtime_first_run_start = 0;
  mtime_last_run_start = 0;
  mtime_last_run_end = 0;
  mtime_total_executed = 0;
  mtime_total_waiting = 0;
  switch_count = 0;
  syscall_counts = replicate max_syscalls_tracked (0, 0);
}

-- The first slot that holds the id, or that is empty, counts the call.
unfoldable pub count_call : ℕ → List (ℕ × ℕ) → List (ℕ × ℕ) × Bool
count_call syscall_id [] = ([], false)
count_call syscall_id ((id, times) ∷ slots) =
    let (slots', found) = count_call syscall_id slots in
    if (id == syscall_id) || (id == 0)
    then ((syscall_id, wrapping_add times 1) ∷ slots, true)
    else ((id, times) ∷ slots', found)

unfoldable pub increase_syscall_count : ℕ → TaskStatistics → TaskStatistics × Bool
increase_syscall_count syscall_id t =
    let (counts, found) = count_call syscall_id t.syscall_counts in
    (record t { syscall_counts = counts }, found)

pub record TaskControlBlock : Type 0 where
  pub task_id : ℕ
  pub vm_space : VmSpace
  pub state : TaskState
  pub context : TaskContext
  pub statistics : TaskStatistics

-- `NEXT_TASK_ID.fetch_add(1)` gives the id; the counter after it is the second result.
unfoldable pub new_ready : ℕ → VmSpace → (ra kernel_sp tp satp : ℕ) → TaskControlBlock × ℕ
new_ready next_task_id vm_space ra kernel_sp tp satp = (
  record {
    task_id = next_task_id;
    vm_space = vm_space;
    state = ready;
    context = context_new_initial ra kernel_sp tp satp;
    statistics = new_zeros;
  },
  wrapping_add next_task_id 1,
)

abbrev pub set_state : TaskState → TaskControlBlock → TaskControlBlock
set_state new_state tcb = record tcb { state = new_state }

unfoldable pub run_start_statistics : ℕ → TaskStatistics → TaskStatistics
run_start_statistics time t =
    if t.mtime_first_run_start == 0
    then record t { mtime_first_run_start = time; mtime_last_run_start = time }
    else record t {
      mtime_total_waiting =
          wrapping_add t.mtime_total_waiting (wrapping_sub time t.mtime_last_run_end);
      mtime_last_run_start = time;
    }

unfoldable pub record_run_start : ℕ → TaskControlBlock → TaskControlBlock
unfolding run_start_statistics
record_run_start time tcb = record tcb { statistics = run_start_statistics time tcb.statistics }

unfoldable pub run_end_statistics : ℕ → TaskStatistics → TaskStatistics
run_end_statistics time t = record t {
  mtime_last_run_end = time;
  mtime_total_executed =
      wrapping_add t.mtime_total_executed (wrapping_sub time t.mtime_last_run_start);
  switch_count = wrapping_add t.switch_count 1;
}

unfoldable pub record_run_end : ℕ → TaskControlBlock → TaskControlBlock
unfolding run_end_statistics
record_run_end time tcb = record tcb { statistics = run_end_statistics time tcb.statistics }

unfoldable pub record_syscall : ℕ → TaskControlBlock → TaskControlBlock × Bool
unfolding increase_syscall_count count_call
record_syscall syscall_id tcb =
    let (t, found) = increase_syscall_count syscall_id tcb.statistics in
    (record tcb { statistics = t }, found)
