-- ===== src/Riscv/Stvec.antt =====
-- riscv/src/regs/stvec.rs: the installation of the trap handler. The register is the state.
use hj.Base.{
  ℕ, ◌+◌, ◌/◌, ◌%◌, ◌≡◌, Bool, true, false, bit_and, bit_or, not, ◌==◌, if◌then◌else◌, arith,
}
use hj.Bits.{bit_and_low, bit_or_fields}

pub data Mode : Type 0 where
  direct vectored : Mode

unfoldable pub handler_addr : ℕ → Mode → ℕ
handler_addr base_addr direct = base_addr
handler_addr base_addr vectored = bit_or base_addr 1

-- The result, and the register after the call.
unfoldable pub install : ℕ → Mode → ℕ → Bool × ℕ
unfolding handler_addr
install base_addr mode stvec =
    if not (bit_and base_addr 3 == 0) then (false, stvec) else (true, handler_addr base_addr mode)

abbrev pub mode_bit : Mode → ℕ
mode_bit direct = 0
mode_bit vectored = 1

-- For every base address, `install` succeeds exactly when the address is a multiple of 4, and
-- then the register holds it with the mode in its low bit; a refused address leaves the register
-- as it was.
pub install_lem :
    (base_addr stvec : ℕ) (mode : Mode)
    → install base_addr mode stvec
      ≡ (if base_addr % 4 == 0 then (true, base_addr + mode_bit mode) else (false, stvec))
unfolding install handler_addr
install_lem base_addr stvec direct = ground (arith, bit_and_low 2 base_addr)
install_lem base_addr stvec vectored =
    ground (arith, bit_and_low 2 base_addr, bit_or_fields 2 (base_addr / 4) 1)
