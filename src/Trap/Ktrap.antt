-- ===== src/Trap/Ktrap.antt =====
-- os/src/trap/ktrap.rs: traps from the kernel, which are faults of its accesses to user memory.
-- The addresses of the two instructions that access user memory, and of the code after a failure,
-- are those of the labels in uaccess.S. `saved_task` is the task id in the trap context that the
-- saved `tp` leads to, if `tp` is not 0.
use hj.Base.{ℕ, inl, inr, Bool, Option, some, ◌==◌, if◌then◌else◌}
use hj.Outcome.{Cmd, pure, abort, ◌>>=◌}
use hj.Riscv.Scause.{Cause, match_cause, store_or_amo_page_fault, load_page_fault}
use hj.Task.{Kernel}
use hj.Trap.Context.{TrapContext, do_page_fault}

pub record Labels : Type 0 where
  pub uaccess_lb : ℕ
  pub uaccess_sb : ℕ
  pub uaccess_fix : ℕ

module _ (l : Labels) where
  unfoldable pub is_load_user_fault : ℕ → Bool
  is_load_user_fault sepc = sepc == l.uaccess_lb

  unfoldable pub is_store_user_fault : ℕ → Bool
  is_store_user_fault sepc = sepc == l.uaccess_sb

  unfoldable pub get_uaccess_fix : ℕ
  get_uaccess_fix = l.uaccess_fix

  module _ {E : Type 0} where
    -- A fault that cannot be repaired goes on at the code for failures.
    unfoldable pub kernel_page_fault : TrapContext → ℕ → ℕ → ℕ → Cmd Kernel E TrapContext
    kernel_page_fault context task_id stval min_permissions = do
      result ← do_page_fault task_id stval min_permissions
      pure (elim result [ inl e ↦ record context { sepc = get_uaccess_fix } | inr done ↦ context ])

    unfoldable pub handle_cause :
        Cause → TrapContext → Option ℕ → (sepc stval : ℕ) → Cmd Kernel E TrapContext
    handle_cause load_page_fault context (some task_id) sepc stval =
        if is_load_user_fault sepc then kernel_page_fault context task_id stval 18 else abort
    handle_cause store_or_amo_page_fault context (some task_id) sepc stval =
        if is_store_user_fault sepc then kernel_page_fault context task_id stval 20 else abort
    handle_cause _ context saved_task sepc stval = abort

    unfoldable pub k_trap_handler :
        TrapContext → Option ℕ → (scause sepc stval : ℕ) → Cmd Kernel E TrapContext
    k_trap_handler context saved_task scause sepc stval =
        handle_cause (match_cause scause) context saved_task sepc stval
