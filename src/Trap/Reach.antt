-- ===== src/Trap/Reach.antt =====
-- The kernel from trap to trap: what the tasks of os/src/task.rs and the handler of
-- os/src/trap/utrap.rs reach.
use hj.Base.{ℕ, ◌≡◌, subst}
use hj.Outcome.{ok}
use hj.Outcome.Post.{Ends}
use hj.Syscall.{Uaccess}
use hj.Syscall.Schedule.{KeepsTasks}
use hj.Task.{Kernel, switched}
use hj.Task.State.{TaskContext, running}
use hj.Task.Schedule.{IsScheduled}
use hj.Task.Schedule.Alike.{Alike, Alike-IsScheduled}
use hj.Trap.Context.{TrapContext}
use hj.Trap.Utrap.{back, gone, u_trap_handler}
use hj.Trap.Schedule.{Resumed, u_trap_handler-Ends}

-- A step of the system: the running task computes, and a page fault of its or of the kernel's may
-- change spaces; or it traps, and the handler goes back to it or to another task.
pub data Step (u : Uaccess) : Kernel → Kernel → Type 0 where
  compute : {k k' : Kernel} → Alike k k' → Step u k k'
  trap_back :
      {k k' : Kernel} (context next : TrapContext) (scause stval : ℕ)
      → u_trap_handler {E = ⊥} u context scause stval k ≡ ok (back next) k'
      → Step u k k'
  trap_gone :
      {k k' : Kernel} (context : TrapContext) (next : TaskContext) (scause stval : ℕ)
      → u_trap_handler {E = ⊥} u context scause stval k ≡ ok (gone (switched next)) k'
      → Step u k k'

pub data Reach (u : Uaccess) : Kernel → Kernel → Type 0 where
  here : {k : Kernel} → Reach u k k
  next_step : {k k1 k' : Kernel} → Step u k k1 → Reach u k1 k' → Reach u k k'

module _ (u : Uaccess) (keeps : KeepsTasks u) where
  Step-IsScheduled : {k k' : Kernel} → Step u k k' → IsScheduled running k → IsScheduled running k'
  unfolding Ends
  Step-IsScheduled {k = k} {k' = k'} (compute alike) h = Alike-IsScheduled running k k' h alike
  Step-IsScheduled {k = k} (trap_back context next scause stval e) h =
      subst (Ends (Unit {0}) Resumed) e (u_trap_handler-Ends ⊥ k h u keeps context scause stval)
  Step-IsScheduled {k = k} (trap_gone context next scause stval e) h =
      subst (Ends (Unit {0}) Resumed) e (u_trap_handler-Ends ⊥ k h u keeps context scause stval)

  -- From a kernel in which exactly one task runs, it is the current one, all others are ready and
  -- no id is used twice, the same holds however many traps with whatever causes follow, as long as
  -- the kernel neither panics nor shuts down; the accesses to user memory are taken to change no
  -- id, state or current task.
  pub Reach-IsScheduled :
      {k k' : Kernel} → Reach u k k' → IsScheduled running k → IsScheduled running k'
  Reach-IsScheduled here h = h
  Reach-IsScheduled (next_step step rest) h = Reach-IsScheduled rest (Step-IsScheduled step h)
