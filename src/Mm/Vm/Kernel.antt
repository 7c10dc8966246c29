-- ===== src/Mm/Vm/Kernel.antt =====
-- The kernel's own mappings: `init_kernel_satp` and the ranges that it maps.
-- A loop `(start..end).step_by(step)` recurs on its number of rounds.
use hj.Base.{
  wrapping_add, ℕ, zero, suc, ◌+◌, ◌-◌, ◌/◌, Option, List, [], ◌∷◌, bit_and, leb, ◌==◌,
  if◌then◌else◌,
}
use hj.Outcome.{Outcome, Cmd, ok, err, panic, pure, assert, or_panic, map_err, ◌>>=◌, ◌>>◌}
use hj.Mm.{
  Ppn, page_size_bytes, large_page_size_bytes, qemu_virt_mmio, mem_start_pa, mem_size_bytes,
  get_va_from_pa, get_pa_from_va, ppn_from_pa, vpn_from_va, page_size_order,
}
use hj.Mm.PageAlloc.{Machine, drop_pages}
use hj.Mm.Sv39.{RootPgt, map_create, map_create_large, root_new, root_get_satp}
use hj.Mm.Vm.{VmError, create_root_pgt_failed, pgt_error, permission_r, to_pte_flags}
use hj.Base.{shl}

abbrev KernelCmd : Type 0
KernelCmd = Cmd (Machine × RootPgt) VmError (Unit {0})

-- The addresses that the linker script defines.
pub record Layout : Type 0 where
  pub text_start : ℕ
  pub text_end : ℕ
  pub kernel_stack_start : ℕ
  pub kernel_stack_end : ℕ
  pub rodata_start : ℕ
  pub rodata_end : ℕ
  pub data_start : ℕ
  pub data_end : ℕ
  pub bss_start : ℕ
  pub bss_end : ℕ
  pub kernel_end : ℕ

abbrev pub rounds : ℕ → ℕ → ℕ → ℕ
rounds start end step = (end - start + (step - 1)) / step

unfoldable pub map_range_loop : ℕ → ℕ → ℕ → KernelCmd
map_range_loop zero va pte_flags = pure tt
map_range_loop (suc left) va pte_flags = do
  vpn ← or_panic (vpn_from_va va)
  pa ← or_panic (get_pa_from_va va)
  ppn ← or_panic (ppn_from_pa pa)
  map_err (pgt_error vpn) (map_create vpn ppn pte_flags)
  map_range_loop left (va + page_size_bytes) pte_flags

unfoldable pub map_kernel_range : ℕ → ℕ → ℕ → KernelCmd
map_kernel_range start_va end_va permissions = do
  pte_flags ← to_pte_flags permissions
  map_range_loop (rounds start_va end_va page_size_bytes) start_va pte_flags

unfoldable pub map_range_large_loop : ℕ → ℕ → ℕ → KernelCmd
map_range_large_loop zero va pte_flags = pure tt
map_range_large_loop (suc left) va pte_flags = do
  vpn ← or_panic (vpn_from_va va)
  pa ← or_panic (get_pa_from_va va)
  ppn ← or_panic (ppn_from_pa pa)
  map_err (pgt_error vpn) (map_create_large vpn ppn pte_flags)
  map_range_large_loop left (va + large_page_size_bytes) pte_flags

unfoldable pub map_kernel_range_large : ℕ → ℕ → ℕ → KernelCmd
map_kernel_range_large start_va end_va permissions = do
  assert (bit_and start_va (large_page_size_bytes - 1) == 0)
  assert (bit_and end_va (large_page_size_bytes - 1) == 0)
  pte_flags ← to_pte_flags permissions
  map_range_large_loop (rounds start_va end_va large_page_size_bytes) start_va pte_flags

-- PERMISSION_R | PERMISSION_W
abbrev pub permission_rw : ℕ
permission_rw = 6

unfoldable pub map_virt_mmio : List (ℕ × ℕ) → KernelCmd
map_virt_mmio [] = pure tt
map_virt_mmio ((start_pa, size) ∷ ranges) = do
  start_va ← or_panic (get_va_from_pa start_pa)
  end_va ← or_panic (get_va_from_pa (start_pa + size))
  map_kernel_range start_va end_va permission_rw
  map_virt_mmio ranges

module _ (layout : Layout) where
  open layout use {
    text_start, text_end, kernel_stack_start, kernel_stack_end, rodata_start, rodata_end,
    data_start, data_end, bss_start, bss_end, kernel_end,
  }

  -- PERMISSION_R | PERMISSION_X
  unfoldable pub map_kernel_text : KernelCmd
  map_kernel_text = map_kernel_range text_start text_end 10

  unfoldable pub map_kernel_stack : KernelCmd
  map_kernel_stack = map_kernel_range kernel_stack_start kernel_stack_end permission_rw

  unfoldable pub map_kernel_rodata : KernelCmd
  map_kernel_rodata = map_kernel_range rodata_start rodata_end permission_r

  unfoldable pub map_kernel_data : KernelCmd
  map_kernel_data = map_kernel_range data_start data_end permission_rw

  unfoldable pub map_kernel_bss : KernelCmd
  map_kernel_bss = map_kernel_range bss_start bss_end permission_rw

-- The three functions that round to a page or to a large page. A sum past the last address wraps, as
-- it does without overflow checks.
unfoldable pub compute_phy_mem_page_start : ℕ → ℕ
compute_phy_mem_page_start kernel_end =
    let rest = bit_and kernel_end (page_size_bytes - 1) in
    if rest == 0 then kernel_end else wrapping_add (kernel_end - rest) page_size_bytes

unfoldable pub compute_phy_mem_large_page_start : ℕ → ℕ
compute_phy_mem_large_page_start kernel_end =
    let rest = bit_and kernel_end (large_page_size_bytes - 1) in
    if rest == 0 then kernel_end else wrapping_add (kernel_end - rest) large_page_size_bytes

unfoldable pub compute_phy_mem_large_page_end : ℕ → ℕ
compute_phy_mem_large_page_end phy_mem_end =
    let rest = bit_and phy_mem_end (large_page_size_bytes - 1) in
    if rest == 0 then phy_mem_end else phy_mem_end - rest

unfoldable pub map_phys_mem : Layout → KernelCmd
map_phys_mem layout = do
  let start_va = compute_phy_mem_page_start layout.kernel_end
  end_va ← or_panic (get_va_from_pa (mem_start_pa + mem_size_bytes))
  let large_start_va = compute_phy_mem_large_page_start start_va
  let large_end_va = compute_phy_mem_large_page_end end_va
  if leb large_end_va large_start_va then map_kernel_range start_va end_va permission_rw else (do
    map_kernel_range start_va large_start_va permission_rw
    map_kernel_range_large large_start_va large_end_va permission_rw
    map_kernel_range large_end_va end_va permission_rw)

-- All the ranges, in their order.
unfoldable pub map_kernel : Layout → KernelCmd
map_kernel layout = do
  map_virt_mmio qemu_virt_mmio
  map_kernel_text layout
  map_kernel_stack layout
  map_kernel_rodata layout
  map_kernel_data layout
  map_kernel_bss layout
  map_phys_mem layout

module _ {R : Type 0} where
  -- The root table is a local of `init_kernel_satp`: on success it is forgotten, and its pages
  -- stay; an error drops it.
  abbrev leave :
      R → Outcome (Machine × RootPgt) VmError (Unit {0}) → Outcome (Machine × R) VmError (Unit {0})
  leave self (ok _ (m, root)) = ok tt (record m { kernel_satp = root_get_satp root }, self)
  leave self (err e (m, root)) = err e (drop_pages root.pages m, self)
  leave self panic = panic

  unfoldable pub init_kernel_satp : Layout → Cmd (Machine × R) VmError (Unit {0})
  init_kernel_satp layout = map_err create_root_pgt_failed root_new >>= λ root (m, self).
      leave self (map_kernel layout (m, root))

-- `get_kernel_satp_ppn`
unfoldable pub get_kernel_satp_ppn : Machine → Option Ppn
get_kernel_satp_ppn m = ppn_from_pa (shl (bit_and m.kernel_satp 0xfff_ffff_ffff) page_size_order)
