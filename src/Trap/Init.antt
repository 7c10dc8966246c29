-- ===== src/Trap/Init.antt =====
-- `init` of os/src/trap.rs: the registers that the kernel sets before the first task. The address of
-- `__stvec` of trap.S is an argument.
use hj.Base.{ℕ, Bool}
use hj.Outcome.{Cmd, ok, assert, modify, ◌>>=◌, ◌>>◌}
use hj.Riscv.Sstatus.{set_sie, set_stie}
use hj.Riscv.Stvec.{install, direct}

pub record Registers : Type 0 where
  pub sscratch : ℕ
  pub stvec : ℕ
  pub sstatus : ℕ
  pub sie : ℕ

module _ {E : Type 0} where
  unfoldable pub enable_interrupts : Cmd Registers E (Unit {0})
  enable_interrupts = modify λ r. record r { sstatus = (set_sie r.sstatus).1 }

  unfoldable pub enable_timer_interrupts : Cmd Registers E (Unit {0})
  enable_timer_interrupts = modify λ r. record r { sie = (set_stie r.sie).1 }

  unfoldable pub install_stvec : ℕ → Cmd Registers E Bool
  install_stvec stvec_addr r =
      let (stvec_ok, stvec') = install stvec_addr direct r.stvec in
      ok stvec_ok (record r { stvec = stvec' })

  unfoldable pub init : ℕ → Cmd Registers E (Unit {0})
  unfolding enable_interrupts enable_timer_interrupts install_stvec
  init stvec_addr = do
    modify λ r. record r { sscratch = 0 }
    stvec_ok ← install_stvec stvec_addr
    assert stvec_ok
    enable_interrupts
    enable_timer_interrupts
