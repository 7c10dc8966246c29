-- ===== src/Syscall/Coverage.antt =====
-- What `mmap` and `munmap` of os/src/syscall/mm.rs ask of the address space.
use hj.Base.{
  ℕ, zero, suc, ◌+◌, ◌*◌, ◌/◌, ◌%◌, ◌^◌, ◌≤◌, ◌<◌, ◌≡◌, ◌≢◌, ◌↔◌, inl, true, some, bit_or,
  usize_mod, arith, refl,
}
use hj.Mm.{check_u_va_range, vpn_from_va}
use hj.Mm.Bounds.{vpn_from_va_lem, check_u_va_range_iff}
use hj.Mm.PageAlloc.{Machine}
use hj.Mm.Sv39.{
  is_valid_flags, flag_v, has_unknown_flags_set, has_v_flag_clear, is_reserved_xwr_encodings,
}
use hj.Mm.Vm.{VmSpace, anonymous}
use hj.Mm.Vm.Space.{add_new_area, unmap}
use hj.Syscall.Mm.{mmap_area, munmap_area, to_permissions}

-- The pages from `start` to `end` are those that hold a byte of the range.
abbrev pub Covers : (addr len start end : ℕ) → Type 0
Covers addr len start end =
    (v : ℕ) → ((start ≤ v) × (v < end)) ↔ ((addr < (v + 1) * 2 ^ 12) × (v * 2 ^ 12 < addr + len))

-- For a range that the check accepts and that is not empty, both calls pass exactly the pages of
-- the range on to the address space, and compute their page numbers without a panic.
pub mmap_munmap_Covers :
    (addr len prot : ℕ) (s : Machine × VmSpace)
    → addr < usize_mod
    → len < usize_mod
    → 0 < len
    → check_u_va_range addr len ≡ true
    → (start : ℕ) × (end : ℕ) × (mmap_area addr len prot s
        ≡ add_new_area start end anonymous (to_permissions prot) s)
      × (munmap_area addr len s ≡ unmap start end s)
      × Covers addr len start end
unfolding mmap_area munmap_area
mmap_munmap_Covers addr len prot s p q r c =
    let (inside, fits, _) = (check_u_va_range_iff addr len p q).0 c in
    let last = addr + len + 4095 in
    let first_page : vpn_from_va addr ≡ some (addr / 2 ^ 12) =
      (vpn_from_va_lem addr p).0 (inl (omega arith)) in
    let no_wrap : ((addr + len) % usize_mod + 4095) % usize_mod ≡ last = omega arith in
    let last_page = (vpn_from_va_lem last (omega arith)).0 (inl (omega arith)) in
    (
      addr / 2 ^ 12,
      last / 2 ^ 12,
      rw (first_page, no_wrap, last_page) refl,
      rw (first_page, no_wrap, last_page) refl,
      λ v. (λ h. omega arith, λ h. omega arith),
    )

-- Among the values of `prot` that `mmap` accepts, the page table accepts the flags of the new
-- pages exactly when writing does not come without reading: all but 4 and 5.
pub mmap_permissions_iff :
    (prot : ℕ)
    → prot < 8
    → (is_valid_flags (bit_or (to_permissions prot) flag_v) ≡ true) ↔ ((prot ≢ 4) × (prot ≢ 5))
unfolding is_valid_flags to_permissions has_unknown_flags_set has_v_flag_clear
    is_reserved_xwr_encodings
mmap_permissions_iff zero h = ground arith
mmap_permissions_iff (suc zero) h = ground arith
mmap_permissions_iff (suc (suc zero)) h = ground arith
mmap_permissions_iff (suc (suc (suc zero))) h = ground arith
mmap_permissions_iff (suc (suc (suc (suc zero)))) h = ground arith
mmap_permissions_iff (suc (suc (suc (suc (suc zero))))) h = ground arith
mmap_permissions_iff (suc (suc (suc (suc (suc (suc zero)))))) h = ground arith
mmap_permissions_iff (suc (suc (suc (suc (suc (suc (suc zero))))))) h = ground arith
mmap_permissions_iff (suc (suc (suc (suc (suc (suc (suc (suc n)))))))) h = absurd (omega arith)
