-- ===== src/Syscall/Mm.antt =====
-- os/src/syscall/mm.rs: `mmap` and `munmap`.
use hj.Base.{
  ℕ, ◌-◌, ◌⊎◌, inl, inr, not, bit_and, bit_or, ◌==◌, if◌then◌else◌, complement, usize_mod,
  wrapping_add,
}
use hj.Outcome.{Cmd, pure, or_panic, ◌>>=◌}
use hj.Mm.{Vpn, check_u_va_range, page_size_bytes, vpn_from_va}
use hj.Mm.PageAlloc.{Machine}
use hj.Mm.Vm.{VmError, VmSpace, anonymous, permission_r, permission_w, permission_x, permission_u}
use hj.Mm.Vm.Space.{add_new_area}
use hj.Mm.Vm.Space
use hj.Task.{Kernel, get_current_task_id, update_space}

-- `-1` in a register.
abbrev pub minus_one : ℕ
minus_one = usize_mod - 1

abbrev pub prot_exec : ℕ
prot_exec = 1

abbrev pub prot_read : ℕ
prot_read = 2

abbrev pub prot_write : ℕ
prot_write = 4

-- PROT_EXEC | PROT_READ | PROT_WRITE
abbrev pub all_prot_flags : ℕ
all_prot_flags = 7

unfoldable pub to_permissions : ℕ → ℕ
to_permissions prot =
    let read =
      if not (bit_and prot prot_read == 0)
      then bit_or permission_u permission_r
      else permission_u in
    let write = if not (bit_and prot prot_write == 0) then bit_or read permission_w else read in
    if not (bit_and prot prot_exec == 0) then bit_or write permission_x else write

abbrev SpaceCmd : Type 0
SpaceCmd = Cmd (Machine × VmSpace) VmError (Unit {0})

-- The page numbers of both calls: from the page of the first address to that of the last.
abbrev with_vpns : (addr len : ℕ) → (Vpn → Vpn → SpaceCmd) → SpaceCmd
with_vpns addr len f = do
  start_vpn ← or_panic (vpn_from_va addr)
  end_vpn ← or_panic (vpn_from_va (wrapping_add (wrapping_add addr len) (page_size_bytes - 1)))
  f start_vpn end_vpn

unfoldable pub mmap_area : (addr len prot : ℕ) → SpaceCmd
mmap_area addr len prot =
    with_vpns addr len
      λ start_vpn end_vpn. add_new_area start_vpn end_vpn anonymous (to_permissions prot)

unfoldable pub munmap_area : (addr len : ℕ) → SpaceCmd
munmap_area addr len = with_vpns addr len Space.unmap

abbrev pub to_result : VmError ⊎ Unit {0} → ℕ
to_result (inl e) = minus_one
to_result (inr done) = 0

module _ {E : Type 0} where
  unfoldable pub mmap : (addr len prot : ℕ) → Cmd Kernel E ℕ
  mmap addr len prot =
      if not (check_u_va_range addr len)
      then pure minus_one
      else if not (bit_and prot (complement all_prot_flags) == 0)
      then pure minus_one
      else (do
        task_id ← get_current_task_id
        result ← update_space task_id (mmap_area addr len prot)
        pure (to_result result))

  unfoldable pub munmap : (addr len : ℕ) → Cmd Kernel E ℕ
  munmap addr len =
      if not (check_u_va_range addr len) then pure minus_one else if len == 0 then pure 0 else (do
        task_id ← get_current_task_id
        result ← update_space task_id (munmap_area addr len)
        pure (to_result result))
