-- ===== src/Riscv/Satp.antt =====
-- riscv/src/regs/satp.rs: the register that holds the root page table and the paging mode.
use hj.Base.{ℕ, bit_and, bit_or, shl}

pub data Mode : Type 0 where
  bare sv39 sv48 sv57 sv64 : Mode

unfoldable pub get_mode_value : Mode → ℕ
get_mode_value bare = 0
get_mode_value sv39 = 8
get_mode_value sv48 = 9
get_mode_value sv57 = 10
get_mode_value sv64 = 11

unfoldable pub compute_value : ℕ → Mode → ℕ
unfolding get_mode_value
compute_value ppn' mode =
    let ppn = bit_and ppn' 0xfff_ffff_ffff in
    let mode_value = get_mode_value mode in bit_or (shl mode_value 60) ppn
