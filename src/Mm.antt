-- ===== src/Mm.antt =====
-- os/src/mm.rs: the constants of the memory layout, the direct map between physical and kernel
-- addresses, the checks of user addresses, and the page numbers.
-- A function that panics returns `none` there. Addresses and page numbers are `usize` values.
pub mod Bounds
pub mod Memory
pub mod PageAlloc
pub mod Sv39
pub mod Vm
pub mod Boot
use package.hj.Base.{ℕ, ◌+◌, ◌-◌, ◌*◌, ◌^◌, Bool, Option, none, some, List, [], ◌∷◌, ◌&&◌, ◌||◌}
use package.hj.Base.{bit_and, ltb, leb, ◌==◌, if◌then◌else◌, usize_mod, shl, shr, wrapping_sub}

-- The (base_pa, size_bytes) pairs of the MMIO scheme.
abbrev pub qemu_virt_mmio : List (ℕ × ℕ)
qemu_virt_mmio =
    (0x0010_0000, 0x1000)
    ∷ (0x0010_1000, 0x1000)
    ∷ (0x0200_0000, 0x1_0000)
    ∷ (0x0c00_0000, 0x60_0000)
    ∷ (0x1000_0000, 0x100)
    ∷ (0x1001_0000, 0x1000)
    ∷ []

abbrev pub mem_start_pa : ℕ
mem_start_pa = 0x8000_0000

abbrev pub mem_size_bytes : ℕ
mem_size_bytes = 128 * 2 ^ 20

abbrev pub page_size_order : ℕ
page_size_order = 12

abbrev pub page_size_bytes : ℕ
page_size_bytes = 2 ^ 12

abbrev pub large_page_size_bytes : ℕ
large_page_size_bytes = 2 ^ 21

abbrev pub kernel_va_offset : ℕ
kernel_va_offset = 0xffff_ffc0_0000_0000

abbrev pub user_space_end : ℕ
user_space_end = 0x40_0000_0000 - page_size_bytes

abbrev pub user_stack_max_size_bytes : ℕ
user_stack_max_size_bytes = 8 * 2 ^ 20

-- `pa.checked_add(KERNEL_VA_OFFSET)`
unfoldable pub get_va_from_pa : ℕ → Option ℕ
get_va_from_pa pa =
    if ltb (pa + kernel_va_offset) usize_mod then some (pa + kernel_va_offset) else none

-- `va.checked_sub(KERNEL_VA_OFFSET)`
unfoldable pub get_pa_from_va : ℕ → Option ℕ
get_pa_from_va va = if leb kernel_va_offset va then some (va - kernel_va_offset) else none

-- Whether the address is inside user space.
unfoldable pub check_u_va : ℕ → Bool
check_u_va va = ltb va user_space_end

-- Whether the whole range is inside user space. `end - 1` wraps in release code.
unfoldable pub check_u_va_range : ℕ → ℕ → Bool
unfolding check_u_va
check_u_va_range start len =
    check_u_va start && ltb (start + len) usize_mod && check_u_va (wrapping_sub (start + len) 1)

-- Physical page numbers.
abbrev pub Ppn : Type 0
Ppn = ℕ

abbrev pub max_pa : ℕ
max_pa = 2 ^ 56 - 1

-- Virtual page numbers.
abbrev pub Vpn : Type 0
Vpn = ℕ

unfoldable pub is_valid_pa : ℕ → Bool
is_valid_pa pa = ltb pa max_pa

unfoldable pub ppn_from_pa : ℕ → Option Ppn
unfolding is_valid_pa
ppn_from_pa pa = if is_valid_pa pa then some (shr pa page_size_order) else none

unfoldable pub ppn_get_pa : Ppn → ℕ
ppn_get_pa ppn = shl ppn page_size_order

-- Bits 63 to 39 must equal bit 38.
unfoldable pub is_valid_va : ℕ → Bool
is_valid_va va =
    let mask : ℕ = 0xffff_ffc0_0000_0000 in (bit_and va mask == 0) || (bit_and va mask == mask)

unfoldable pub vpn_from_va : ℕ → Option Vpn
unfolding is_valid_va
vpn_from_va va = if is_valid_va va then some (shr va page_size_order) else none

unfoldable pub vpn_get_va : Vpn → ℕ
vpn_get_va vpn = shl vpn page_size_order
