-- ===== src/Task/Start/First.antt =====
-- What `start` of os/src/task.rs leaves: the invariant of the list of tasks holds from the first task
-- on.
use hj.Base.{
  ℕ, zero, suc, ◌+◌, ◌≤◌, ◌<◌, ◌≡◌, ◌⊎◌, refl, sym, ap, ◌∙◌, subst, Bool, false, none, List, [],
  ◌∷◌, ◌++◌, inl, inr, arith, ◌==◌, Bool-cases, ==→≡, usize_mod, wrapping_add, find,
}
use hj.Outcome.{Outcome, ok, err, panic, and_then}
use hj.Outcome.Post.{Ends, Ends-weaken, Ends-ok, Ends-panic, Ends-from, Ends-err, Ends-panicked}
use hj.Mm.PageAlloc.{Machine}
use hj.Mm.Vm.{VmError, VmSpace}
use hj.Mm.Vm.User.{ElfFile, new_user}
use hj.Syscall.Schedule.{Ran}
use hj.Task.{Kernel, Run, switched, shut_down, has_id, is_ready, run_next_task}
use hj.Task.Apps.{get_total_apps, get_app_elf}
use hj.Task.Enter.{run_next_task-Runs}
use hj.Task.Start.{push_task, push_new, add_task, add_tasks, run_first, start}
use hj.Task.State.{TaskControlBlock, new_ready, same_state}
use hj.Task.Switch.{Runs, Leaves, IsStillRunning}
use hj.Task.Schedule.{bit, count, count-append, is_busy, IsRested}
use hj.Task.Schedule.Next.{Resumes, Next-Resumes}
use Prim.Native.String.{String}

-- No task is current, all are ready, and the ids are below the next one, each used once.
pub record IsStarting (k : Kernel) : Type 0 where
  pub absent : k.current ≡ none
  pub busy : count is_busy k.all_tasks ≡ 0
  pub unique : (j : ℕ) → count (has_id j) k.all_tasks ≤ 1
  pub unused : (j : ℕ) → k.next_task_id ≤ j → count (has_id j) k.all_tasks ≡ 0

-- A new task has the next id.
push-IsStarting :
    (k k' : Kernel) (tcb : TaskControlBlock)
    → IsStarting k
    → tcb.task_id ≡ k.next_task_id
    → is_busy tcb ≡ false
    → k'.current ≡ k.current
    → k'.all_tasks ≡ k.all_tasks ++ tcb ∷ []
    → k'.next_task_id ≡ k.next_task_id + 1
    → IsStarting k'
push-IsStarting k k' tcb h id rests same pushed next = record {
  absent = same ∙ h.absent;
  busy = omega (arith, ap (count is_busy) pushed, added is_busy, ap bit rests, h.busy);
  unique = λ j. elim (Bool-cases (tcb.task_id == j)) [
    | inl hit ↦ omega (
      arith,
      ap (count (has_id j)) pushed,
      added (has_id j),
      ap bit hit,
      h.unused j (omega (arith, ==→≡ tcb.task_id j hit)),
    )
    | inr miss ↦
        omega (arith, ap (count (has_id j)) pushed, added (has_id j), ap bit miss, h.unique j)
  ];
  unused = λ j low. elim (Bool-cases (tcb.task_id == j)) [
    | inl hit ↦ absurd (omega (arith, ==→≡ tcb.task_id j hit))
    | inr miss ↦ omega (
      arith,
      ap (count (has_id j)) pushed,
      added (has_id j),
      ap bit miss,
      h.unused j (omega arith),
    )
  ];
}
  where
    added :
        (q : TaskControlBlock → Bool)
        → count q (k.all_tasks ++ tcb ∷ []) ≡ count q k.all_tasks + bit (q tcb)
    added q = omega (arith, count-append q k.all_tasks (tcb ∷ []))

module _ (restore_u_ctx : ℕ) (elf_new : List ℕ → String ⊎ ElfFile) (E : Type 0) where
  -- What a round of the loop keeps, with `left` rounds to go.
  abbrev Prepared : {A : Type 0} → ℕ → A → Kernel × ℕ → Type 0
  Prepared left a (k, sstatus) = IsStarting k × (k.next_task_id + left < usize_mod)

  push_task-Prepared :
      (left : ℕ) (space : VmSpace) (m : Machine) (s : Kernel × ℕ)
      → Prepared (suc left) tt s
      → Prepared left tt (push_task restore_u_ctx elf_new space m s)
  unfolding push_task new_ready same_state
  push_task-Prepared left space m (k, sstatus) (h, small) =
      let next : wrapping_add k.next_task_id 1 ≡ k.next_task_id + 1 = omega arith in
      (push-IsStarting k _ _ h refl refl refl refl next, omega arith)

  -- `new_user` fails or panics, or it makes a space and `later` holds once its task is pushed.
  pub Stuck :
      (Kernel × ℕ → Type 0) → Kernel × ℕ → Outcome (Machine × Unit {0}) VmError VmSpace → Type 0
  Stuck later s (ok space (m, _)) = later (push_task restore_u_ctx elf_new space m s)
  Stuck later s (err e s') = Unit {0}
  Stuck later s panic = Unit {0}

  -- For one of the `left` programs from `i` on, `new_user` fails or panics on its bytes, in the state
  -- that the programs before it lead to.
  pub Unmade : (num_apps left i : ℕ) → Kernel × ℕ → Type 0
  Unmade num_apps zero i s = ⊥
  Unmade num_apps (suc left) i (k, sstatus) =
      Stuck (Unmade num_apps left (i + 1)) (k, sstatus)
        (new_user elf_new (get_app_elf k.machine.memory num_apps i) (k.machine, tt))

  add_tasks-Ends :
      (num_apps left i : ℕ) (s : Kernel × ℕ)
      → Prepared left tt s
      → Ends {E = E}
          (Unmade num_apps left i s)
          (Prepared 0)
          (add_tasks restore_u_ctx elf_new num_apps left i s)
  unfolding add_tasks add_task Stuck Unmade
  add_tasks-Ends num_apps zero i s h = Ends-ok _ _ _ h
  add_tasks-Ends num_apps (suc left) i (k, sstatus) h =
      added (new_user elf_new (get_app_elf k.machine.memory num_apps i) (k.machine, tt))
        (add_tasks-Ends num_apps left (i + 1))
    where
      added :
          (o : Outcome (Machine × Unit {0}) VmError VmSpace)
          → ((s : Kernel × ℕ)
              → Prepared left tt s
              → Ends {E = E}
                  (Unmade num_apps left (i + 1) s)
                  (Prepared 0)
                  (add_tasks restore_u_ctx elf_new num_apps left (i + 1) s))
          → Ends {E = E} (Stuck (Unmade num_apps left (i + 1)) (k, sstatus) o) (Prepared 0) (
              and_then
                (push_new restore_u_ctx elf_new (k, sstatus) o)
                λ _. add_tasks restore_u_ctx elf_new num_apps left (i + 1))
      added (ok space (m, _)) next =
          next (push_task restore_u_ctx elf_new space m (k, sstatus))
            (push_task-Prepared left space m (k, sstatus) h)
      added (err e s') next = Ends-panic _ _ _ tt
      added panic next = Ends-panic _ _ _ tt

  run_next_task-Ran : (k : Kernel) → IsStarting k → Ends {E = E} ⊥ Ran (run_next_task k)
  unfolding Ends Resumes
  run_next_task-Ran k h = go (run_next_task k) (run_next_task-Runs E k)
    where
      rested : (k1 : Kernel) → k1 ≡ k → IsRested k1
      rested k1 e = subst IsRested (sym e) (record { unique = h.unique; busy = h.busy })

      ran : (run : Run) (k' : Kernel) → Resumes {E = E} (ok run k') → Ran run k'
      ran (switched context) k' r = r
      ran shut_down k' r = r

      go : (o : Outcome Kernel E Run) → Runs k o → Ends ⊥ Ran o
      go (ok run k') (k1, left, next) = ran run k' (
          Next-Resumes E k1 k' run (find is_ready k1.all_tasks)
            (rested k1 (subst (λ c. Leaves c k k1) h.absent left)) refl next)
      go (err e k') runs = runs
      go panic runs = subst (λ c. IsStillRunning c k) h.absent runs

  -- From a kernel with no task and no current task, and whose next id leaves room for all the
  -- programs of the table, start panics only where new_user fails or panics on the bytes of one of
  -- the programs, in the state that the programs before it lead to; otherwise one task runs, the
  -- current one, all others are ready and no id is used twice, or there is no task and the kernel
  -- shuts down.
  pub start-Ran :
      (num_apps : ℕ) (k : Kernel) (sstatus : ℕ)
      → k.current ≡ none
      → k.all_tasks ≡ []
      → k.next_task_id + get_total_apps k.machine.memory num_apps < usize_mod
      → Ends {E = E}
          (Unmade num_apps (get_total_apps k.machine.memory num_apps) 0 (k, sstatus))
          Ran
          (start restore_u_ctx elf_new num_apps (k, sstatus))
  unfolding start
  start-Ran num_apps k sstatus absent empty room = first _ _ (
      add_tasks-Ends num_apps (get_total_apps k.machine.memory num_apps) 0 (k, sstatus)
        (starting, room))
    where
      starting : IsStarting k
      starting = record {
        absent = absent;
        busy = rw empty refl;
        unique = λ j. rw empty (omega arith);
        unused = λ j low. rw empty refl;
      }

      first :
          (M : Type 0) (o : Outcome (Kernel × ℕ) E (Unit {0}))
          → Ends M (Prepared 0) o
          → Ends M Ran (run_first restore_u_ctx elf_new o)
      first M (ok done (k1, sstatus1)) h =
          Ends-weaken ⊥ M Ran Ran (run_next_task k1) (λ no. absurd no) (λ run k' r. r)
            (run_next_task-Ran k1 (Ends-from _ _ _ h).0)
      first M (err e s1) h = absurd (Ends-err _ _ e s1 h)
      first M panic h = Ends-panic _ _ _ (Ends-panicked _ _ _ h)
