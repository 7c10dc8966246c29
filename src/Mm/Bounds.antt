-- ===== src/Mm/Bounds.antt =====
-- The page numbers and the checks of addresses in mm.rs, as arithmetic.
use hj.Base.{ℕ, ◌+◌, ◌-◌, ◌*◌, ◌/◌, ◌%◌, ◌^◌, ◌≤◌, ◌<◌, ◌≡◌, ◌↔◌, ◌⊎◌, arith}
use hj.Base.{true, some, none, bit_and, usize_mod}
use hj.Bits.{bit_and_high}
use hj.Mm.{
  kernel_va_offset, user_space_end, get_va_from_pa, get_pa_from_va, check_u_va_range, ppn_from_pa,
  ppn_get_pa, vpn_from_va, vpn_get_va,
}

-- The page numbers of canonical addresses: the low and the high half.
abbrev pub IsVpn : ℕ → Type 0
IsVpn v = (v < 2 ^ 26) ⊎ (2 ^ 52 - 2 ^ 26 ≤ v) × (v < 2 ^ 52)

canonical : (va : ℕ) → bit_and va 0xffff_ffc0_0000_0000 ≡ 2 ^ 38 * (va / 2 ^ 38 % 2 ^ 26)
canonical va = bit_and_high 38 26 va

-- A 64-bit address has a page number exactly when it is canonical.
pub vpn_from_va_lem :
    (va : ℕ)
    → va < usize_mod
    → ((va < 2 ^ 38) ⊎ (kernel_va_offset ≤ va) → vpn_from_va va ≡ some (va / 2 ^ 12))
      × (2 ^ 38 ≤ va → va < kernel_va_offset → vpn_from_va va ≡ none)
unfolding vpn_from_va
vpn_from_va_lem va h = (λ c. ground (arith, canonical va), λ p q. ground (arith, canonical va))

-- A page number taken from a 64-bit address is canonical, and its address with the offset in the
-- page is the address again.
pub vpn_get_va-vpn_from_va :
    (va v : ℕ)
    → va < usize_mod
    → vpn_from_va va ≡ some v
    → IsVpn v × (vpn_get_va v + va % 2 ^ 12 ≡ va)
unfolding vpn_from_va vpn_get_va
vpn_get_va-vpn_from_va va v h e = ground (arith, canonical va)

-- For a physical address below 2 ^ 38, the kernel's address for it exists, lies in the upper
-- half, and leads back to it.
pub get_pa_from_va-get_va_from_pa :
    (pa : ℕ)
    → pa < 2 ^ 38
    → (va : ℕ) × (get_va_from_pa pa ≡ some va)
      × (kernel_va_offset ≤ va)
      × (get_pa_from_va va ≡ some pa)
unfolding get_va_from_pa get_pa_from_va
get_pa_from_va-get_va_from_pa pa h =
    (pa + kernel_va_offset, ground arith, omega arith, ground arith)

-- A page number below 2 ^ 44 is the page number of its page's address.
pub ppn_from_pa-ppn_get_pa : (p : ℕ) → p < 2 ^ 44 → ppn_from_pa (ppn_get_pa p) ≡ some p
unfolding ppn_from_pa ppn_get_pa
ppn_from_pa-ppn_get_pa p h = ground arith

-- For 64-bit values, the check accepts a range exactly when it starts below the end of user
-- space, ends at most there, and is not the empty range at address 0.
pub check_u_va_range_iff :
    (start len : ℕ)
    → start < usize_mod
    → len < usize_mod
    → (check_u_va_range start len ≡ true)
      ↔ (start < user_space_end) × (start + len ≤ user_space_end) × (0 < start + len)
unfolding check_u_va_range
check_u_va_range_iff start len p q = (λ h. ground arith, λ h. ground arith)
