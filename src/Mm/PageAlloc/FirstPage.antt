-- ===== src/Mm/PageAlloc/FirstPage.antt =====
-- The first page that the allocator of os/src/mm/page_alloc.rs may hand out.
use hj.Base.{ℕ, ◌+◌, ◌-◌, ◌*◌, ◌/◌, ◌^◌, ◌≤◌, ◌<◌, ◌≡◌, some, usize_mod, arith}
use hj.Bits.{bit_and_low}
use hj.Mm.{kernel_va_offset, get_pa_from_va, ppn_from_pa, is_valid_pa}
use hj.Mm.PageAlloc.{compute_first_unused_ppn}

-- For an end of the kernel's image in its half of the 64-bit addresses, the first page is the first
-- that begins at or after that end.
pub compute_first_unused_ppn_lem :
    (kernel_end : ℕ)
    → kernel_va_offset ≤ kernel_end
    → kernel_end < usize_mod
    → (p : ℕ) × (compute_first_unused_ppn kernel_end ≡ some p)
      × (kernel_end ≤ p * 2 ^ 12 + kernel_va_offset)
      × (p * 2 ^ 12 + kernel_va_offset < kernel_end + 2 ^ 12)
unfolding compute_first_unused_ppn get_pa_from_va ppn_from_pa is_valid_pa
compute_first_unused_ppn_lem kernel_end low high =
    let pa = kernel_end - kernel_va_offset in
    ((pa + 4095) / 2 ^ 12, ground (arith, bit_and_low 12 pa), omega arith, omega arith)
