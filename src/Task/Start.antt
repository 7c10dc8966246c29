-- ===== src/Task/Start.antt =====
-- `start` and `add_task` of os/src/task.rs: the tasks of the embedded programs, and the first switch.
-- The state is the kernel and the register sstatus. The address of `__restore_u_ctx` of trap.S, the
-- ELF parser and the address of the table of programs are arguments. A pointer to the kernel stack
-- is an address of the direct map.
pub mod First
use package.hj.Base.{ℕ, zero, suc, ◌+◌, ◌*◌, ◌⊎◌, List, [], ◌∷◌, ◌++◌, wrapping_sub}
use package.hj.Outcome.{Outcome, Cmd, ok, err, panic, pure, abort, ◌>>=◌, ◌>>◌, and_then}
use package.hj.Mm.Memory.{Memory, write_word}
use package.hj.Mm.PageAlloc.{Machine}
use package.hj.Mm.Sv39.{root_get_satp}
use package.hj.Mm.Vm.{VmError, VmSpace}
use package.hj.Mm.Vm.User.{ElfFile, new_user}
use package.hj.Task.{Kernel, Run, run_next_task}
use package.hj.Task.Apps.{get_total_apps, get_app_elf}
use package.hj.Task.State.{TaskControlBlock, new_ready}
use package.hj.Trap.Context.{TrapContext, context_new_initial}
use Prim.Native.String.{String}

-- `size_of::<TrapContext>()`: 32 registers and 3 fields.
abbrev pub trap_context_size : ℕ
trap_context_size = 8 * (32 + 3)

unfoldable pub write_words : ℕ → List ℕ → Memory → Memory
write_words a [] m = m
write_words a (w ∷ ws) m = write_words (a + 8) ws (write_word a w m)

-- `write_volatile` of the context, in the order of its fields.
unfoldable pub write_trap_context : ℕ → TrapContext → Memory → Memory
unfolding write_words
write_trap_context a context m =
    write_words a (context.x ++ context.sstatus ∷ context.sepc ∷ context.task_id ∷ []) m

module _ (restore_u_ctx : ℕ) (elf_new : List ℕ → String ⊎ ElfFile) where
  -- The task of a new space.
  unfoldable pub push_task : VmSpace → Machine → Kernel × ℕ → Kernel × ℕ
  unfolding write_trap_context
  push_task vm_space m (k, sstatus) =
      let satp = root_get_satp vm_space.root_pgt in
      let kernel_sp = wrapping_sub vm_space.k_stack_end trap_context_size in
      let (tcb, next_task_id) =
        new_ready k.next_task_id vm_space restore_u_ctx kernel_sp kernel_sp satp in
      let (trap_context, sstatus') =
        context_new_initial vm_space.entry_addr vm_space.u_stack_end tcb.task_id sstatus in
      (
        record k {
          machine = record m { memory = write_trap_context kernel_sp trap_context m.memory };
          all_tasks = k.all_tasks ++ tcb ∷ [];
          next_task_id = next_task_id;
        },
        sstatus',
      )

  module _ {E : Type 0} where
    abbrev pub push_new :
        Kernel × ℕ
        → Outcome (Machine × Unit {0}) VmError VmSpace
        → Outcome (Kernel × ℕ) E (Unit {0})
    push_new s (ok vm_space (m, _)) = ok tt (push_task vm_space m s)
    push_new s (err e s') = panic
    push_new s panic = panic

    unfoldable pub add_task : List ℕ → Cmd (Kernel × ℕ) E (Unit {0})
    unfolding push_task
    add_task elf_bytes (k, sstatus) =
        push_new (k, sstatus) (new_user elf_new elf_bytes (k.machine, tt))

    -- The loop of `start`, from the program `i` on.
    unfoldable pub add_tasks : (num_apps left i : ℕ) → Cmd (Kernel × ℕ) E (Unit {0})
    unfolding add_task
    add_tasks num_apps zero i = pure tt
    add_tasks num_apps (suc left) i =
        (λ (k, sstatus). add_task (get_app_elf k.machine.memory num_apps i) (k, sstatus))
        >> add_tasks num_apps left (i + 1)

    abbrev pub run_first : Outcome (Kernel × ℕ) E (Unit {0}) → Outcome Kernel E Run
    run_first (ok _ (k, sstatus)) = run_next_task k
    run_first (err e (k, sstatus)) = err e k
    run_first panic = panic

    unfoldable pub start : ℕ → Kernel × ℕ → Outcome Kernel E Run
    unfolding add_tasks
    start num_apps (k, sstatus) =
        run_first (add_tasks num_apps (get_total_apps k.machine.memory num_apps) 0 (k, sstatus))
