-- ===== src/Trap/Context.antt =====
-- os/src/trap.rs: the registers that a trap saves, and the repair of a page fault.
use hj.Base.{ℕ, List, ◌⊎◌, replicate, set}
use hj.Outcome.{Cmd}
use hj.Mm.Vm.{VmError}
use hj.Mm.Vm.Space.{map_fault_page}
use hj.Riscv.Sstatus.{set_spp_user}
use hj.Task.{Kernel, update_space}

-- `x` holds the registers x0 to x31.
pub record TrapContext : Type 0 where
  pub x : List ℕ
  pub sstatus : ℕ
  pub sepc : ℕ
  pub task_id : ℕ

-- `sstatus` is the register; its new value is the second result.
unfoldable pub context_new_initial : (entry_addr user_sp task_id sstatus : ℕ) → TrapContext × ℕ
context_new_initial entry_addr user_sp task_id sstatus =
    let (value, sstatus') = set_spp_user sstatus in
    (
      record {
        x = set (replicate 32 0) 2 user_sp;
        sstatus = value;
        sepc = entry_addr;
        task_id = task_id;
      },
      sstatus',
    )

-- The result of the space's method is the result.
unfoldable pub do_page_fault : {E : Type 0} → ℕ → ℕ → ℕ → Cmd Kernel E (VmError ⊎ Unit {0})
do_page_fault task_id stval min_permissions =
    update_space task_id (map_fault_page stval min_permissions)
