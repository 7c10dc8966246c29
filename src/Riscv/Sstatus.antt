-- ===== src/Riscv/Sstatus.antt =====
-- riscv/src/regs/sstatus.rs and sie.rs: bits that are set and cleared in a register.
-- Each function takes the register and gives its result and the register after the call.
use hj.Base.{ℕ, ◌^◌, bit_and, bit_or, complement}

abbrev pub sie_bit : ℕ
sie_bit = 2 ^ 1

abbrev pub spp_bit : ℕ
spp_bit = 2 ^ 8

abbrev pub sum_bit : ℕ
sum_bit = 2 ^ 18

abbrev pub stie_bit : ℕ
stie_bit = 2 ^ 5

-- The instructions `csrrc` and `csrrs`: the old value, and the new register.
unfoldable pub csrrc : ℕ → ℕ → ℕ × ℕ
csrrc mask csr = (csr, bit_and csr (complement mask))

unfoldable pub csrrs : ℕ → ℕ → ℕ × ℕ
csrrs mask csr = (csr, bit_or csr mask)

unfoldable pub set_spp_user : ℕ → ℕ × ℕ
unfolding csrrc
set_spp_user csr =
    let (result, csr') = csrrc spp_bit csr in (bit_and result (complement spp_bit), csr')

unfoldable pub set_sie : ℕ → ℕ × ℕ
unfolding csrrs
set_sie csr = csrrs sie_bit csr

unfoldable pub set_sum_permit : ℕ → ℕ × ℕ
unfolding csrrs
set_sum_permit csr = csrrs sum_bit csr

unfoldable pub set_sum_deny : ℕ → ℕ × ℕ
unfolding csrrc
set_sum_deny csr = csrrc sum_bit csr

unfoldable pub set_stie : ℕ → ℕ × ℕ
unfolding csrrs
set_stie csr = csrrs stie_bit csr
