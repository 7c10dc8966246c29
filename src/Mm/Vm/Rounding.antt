-- ===== src/Mm/Vm/Rounding.antt =====
-- The rounding of addresses in `map_phys_mem`, and the table that `get_kernel_satp_ppn` finds.
use hj.Base.{ℕ, ◌+◌, ◌-◌, ◌*◌, ◌%◌, ◌^◌, ◌≤◌, ◌<◌, ◌≡◌, some, arith}
use hj.Bits.{bit_and_low, bit_or_fields}
use hj.Mm.PageAlloc.{Machine}
use hj.Mm.Sv39.{RootPgt, root_get_satp}
use hj.Mm.Vm.Kernel.{
  compute_phy_mem_page_start, compute_phy_mem_large_page_start, compute_phy_mem_large_page_end,
  get_kernel_satp_ppn,
}
use hj.Riscv.Satp.{compute_value, get_mode_value, sv39}
use hj.Mm.{ppn_from_pa}

-- `r` is the least multiple of `step` that is not below `a`.
abbrev pub IsRoundUp : (step a r : ℕ) → Type 0
IsRoundUp step a r = (a ≤ r) × (r < a + step) × (r % step ≡ 0)

-- `r` is the greatest multiple of `step` that is not above `a`.
abbrev pub IsRoundDown : (step a r : ℕ) → Type 0
IsRoundDown step a r = (r ≤ a) × (a < r + step) × (r % step ≡ 0)

-- An address that is not above the last page is rounded up to a page, one that is not above the
-- last large page is rounded up to a large page, and every 64-bit address is rounded down to a
-- large page.
pub phy_mem_rounding :
    (a b c : ℕ)
    → a ≤ 2 ^ 64 - 2 ^ 12
    → b ≤ 2 ^ 64 - 2 ^ 21
    → c < 2 ^ 64
    → IsRoundUp (2 ^ 12) a (compute_phy_mem_page_start a)
      × IsRoundUp (2 ^ 21) b (compute_phy_mem_large_page_start b)
      × IsRoundDown (2 ^ 21) c (compute_phy_mem_large_page_end c)
unfolding compute_phy_mem_page_start compute_phy_mem_large_page_start compute_phy_mem_large_page_end
phy_mem_rounding a b c high_a high_b high_c = (
  ground (arith, bit_and_low 12 a),
  ground (arith, bit_and_low 21 b),
  ground (arith, bit_and_low 21 c),
)

compute_value_lem : (p : ℕ) → p < 2 ^ 44 → compute_value p sv39 ≡ 8 * 2 ^ 60 + p
unfolding compute_value get_mode_value
compute_value_lem p h = ground (arith, bit_and_low 44 p, bit_or_fields 60 8 p)

-- Where the register was set from a root table whose page number is below 2 ^ 44,
-- `get_kernel_satp_ppn` gives that page number back.
pub get_kernel_satp_ppn-root_get_satp :
    (root : RootPgt) (m : Machine)
    → root.ppn < 2 ^ 44
    → m.kernel_satp ≡ root_get_satp root
    → get_kernel_satp_ppn m ≡ some root.ppn
unfolding get_kernel_satp_ppn root_get_satp compute_value ppn_from_pa
get_kernel_satp_ppn-root_get_satp root m h e =
    ground (arith, compute_value_lem root.ppn h, bit_and_low 44 m.kernel_satp)
