-- ===== src/Riscv.antt =====
-- riscv/src/regs: the values of the control and status registers.
pub mod Satp
pub mod Scause
pub mod Sstatus
pub mod Stvec
pub mod Access
