-- ===== src/Mm/Boot.antt =====
-- `init` and `clear_bss` of os/src/mm.rs, and `activate_kernel_space` of os/src/mm/vm.rs.
-- The state is the machine with the register satp of the hart. What the heap's `init` does to the
-- memory is an argument.
use hj.Base.{ℕ, ◌-◌}
use hj.Outcome.{Outcome, Cmd, ok, err, panic, modify, ◌>>◌}
use hj.Mm.Memory.{Memory, clear_bytes}
use hj.Mm.PageAlloc.{Machine}
use hj.Mm.Vm.{VmError}
use hj.Mm.Vm.Kernel.{Layout, init_kernel_satp}

abbrev State : Type 0
State = Machine × ℕ

-- `expect` on the result of a call: an error panics.
unfoldable pub expect : {E A : Type 0} → Outcome State E A → Outcome State E A
expect (ok a s) = ok a s
expect (err e s) = panic
expect panic = panic

-- The loop over the addresses `bss_start..bss_end`, which has no rounds where that is empty.
unfoldable pub clear_bss : (bss_start bss_end : ℕ) → Memory → Memory
clear_bss bss_start bss_end = clear_bytes (bss_end - bss_start) bss_start

unfoldable pub activate_kernel_space : {E : Type 0} → Cmd State E (Unit {0})
activate_kernel_space = modify (λ (m, satp). (m, m.kernel_satp))

abbrev on_memory : (Memory → Memory) → State → State
on_memory f (m, satp) = (record m { memory = f m.memory }, satp)

unfoldable pub init :
    (Memory → Memory) → (bss_start bss_end : ℕ) → Layout → Cmd State VmError (Unit {0})
init heap_init bss_start bss_end layout = do
  modify (on_memory (clear_bss bss_start bss_end))
  modify (on_memory heap_init)
  λ s. expect (init_kernel_satp layout s)
  activate_kernel_space
