-- ===== src/Mm/Vm/User.antt =====
-- The making of a user space: `VMSpace::new_user`.
-- The ELF parser is the crate xmas_elf: its results are an argument, `elf_new`.
use hj.Base.{
  ℕ, zero, suc, ◌+◌, ◌-◌, ◌%◌, ◌⊎◌, inl, inr, Bool, Option, none, some, List, [], ◌∷◌, ◌&&◌, bit_or,
  min, ltb, leb, ◌==◌, not, if◌then◌else◌, length, take, drop, wrapping_add,
}
use hj.Outcome.{
  Outcome, Cmd, ok, err, panic, pure, fail, abort, or_panic, ok_or, map_err, on_err, modify, ◌>>=◌,
  ◌>>◌,
}
use hj.Mm.{
  Ppn, Vpn, page_size_bytes, user_space_end, user_stack_max_size_bytes, vpn_from_va, vpn_get_va,
  ppn_get_pa,
}
use hj.Mm as Addresses
use hj.Mm.Memory.{store_bytes}
use hj.Mm.PageAlloc.{
  page_get_ppn, Machine, alloc_page, alloc_zeroed_page, drop_page, drop_pages, get_pa_mut_ptr,
}
use hj.Mm.Sv39.{root_new_copy, get_ptes_mut}
use hj.Mm.Vm.{
  anonymous, VmError, create_root_pgt_failed, elf_error, align_data_failed, acquire_page_failed,
  VmArea, VmSpace, area_new, permission_r, permission_w, permission_x, permission_u, to_pte_flags,
}
use hj.Mm.Vm as Vm
use hj.Mm.Vm.Pages.{insert, drop_option, drop_area, drop_areas}
use hj.Mm.Vm.Space.{map_page, push_area}
use hj.Mm.Vm.Kernel.{get_kernel_satp_ppn}
use Prim.Native.String.{String}

abbrev State : Type 0
State = Machine × VmSpace

-- What the parser reports of a program header and of a file.
pub data SegmentType : Type 0 where
  load other : SegmentType

pub record ProgramHeader : Type 0 where
  pub ph_type : String ⊎ SegmentType
  pub align : ℕ
  pub offset : ℕ
  pub file_size : ℕ
  pub virtual_addr : ℕ
  pub mem_size : ℕ
  pub is_read : Bool
  pub is_write : Bool
  pub is_execute : Bool

pub record ElfFile : Type 0 where
  pub program_headers : List ProgramHeader
  pub entry_point : ℕ

unfoldable pub get_permissions_from_ph_flags : ProgramHeader → ℕ
get_permissions_from_ph_flags ph =
    let read = if ph.is_read then bit_or permission_u permission_r else permission_u in
    let write = if ph.is_write then bit_or read permission_w else read in
    if ph.is_execute then bit_or write permission_x else write

-- Both page numbers panic outside the canonical addresses.
unfoldable pub create_area_from_ph : ProgramHeader → Cmd State VmError VmArea
create_area_from_ph ph = do
  start_vpn ← or_panic (vpn_from_va ph.virtual_addr)
  end_vpn ←
      or_panic (
        vpn_from_va (wrapping_add (wrapping_add ph.virtual_addr ph.mem_size) (page_size_bytes - 1)))
  pure (area_new start_vpn end_vpn anonymous (get_permissions_from_ph_flags ph))

-- At most a page is copied.
unfoldable pub copy_data : ℕ → List ℕ → Cmd State VmError (Unit {0})
copy_data pa bytes = do
  start ← or_panic (get_pa_mut_ptr pa)
  modify λ (m, space).
      (record m { memory = store_bytes start (take page_size_bytes bytes) m.memory }, space)

-- `&bytes[from..to]`, which panics out of range.
unfoldable pub slice : List ℕ → ℕ → ℕ → Option (List ℕ)
slice bytes from to =
    if leb from to && leb to (length bytes) then some (take (to - from) (drop from bytes)) else none

abbrev on_machine : (Machine → Machine) → State → State
on_machine f (m, space) = (f m, space)

module _ (elf_bytes : List ℕ) where
  -- The bytes of the file for one page, if any are left.
  unfoldable pub fill_page : Ppn → ℕ → ℕ → Cmd State VmError ℕ
  fill_page ppn data_start data_end =
      if ltb data_start data_end
      then (do
        bytes ←
            or_panic
              (slice elf_bytes data_start (min (wrapping_add data_start page_size_bytes) data_end))
        copy_data (ppn_get_pa ppn) bytes
        pure (wrapping_add data_start page_size_bytes))
      else pure data_start

  -- The loop over the pages of a segment. An error drops the page of the round and the area.
  unfoldable pub map_segment_pages : ℕ → Vpn → ℕ → ℕ → ℕ → VmArea → Cmd State VmError VmArea
  map_segment_pages zero vpn data_start data_end pte_flags area = pure area
  map_segment_pages (suc left) vpn data_start data_end pte_flags area = do
    page ← on_err (on_machine (drop_area area)) (alloc_zeroed_page >>= ok_or acquire_page_failed)
    data_start' ← fill_page (page_get_ppn page) data_start data_end
    on_err (on_machine (λ m. drop_area area (drop_page page m)))
        (map_page vpn (page_get_ppn page) pte_flags)
    let added = insert vpn page area.pages
    modify (on_machine (drop_option added.1))
    map_segment_pages left (vpn + 1) data_start' data_end pte_flags
        (record area { pages = added.0 })

  unfoldable pub map_user_elf_segment : ProgramHeader → Cmd State VmError (Unit {0})
  map_user_elf_segment ph =
      if ph.align == 0
      then abort
      else if not (page_size_bytes % ph.align == 0)
      then fail (align_data_failed ph.align)
      else (do
        area ← create_area_from_ph ph
        pte_flags ← to_pte_flags area.permissions
        let data_end = wrapping_add ph.offset ph.file_size
        filled ←
            map_segment_pages (area.end_vpn - area.start_vpn) area.start_vpn ph.offset data_end
              pte_flags area
        modify (push_area filled))

  abbrev map_header : String ⊎ SegmentType → ProgramHeader → Cmd State VmError (Unit {0})
  map_header (inl msg) ph = fail (elf_error msg)
  map_header (inr other) ph = pure tt
  map_header (inr load) ph = map_user_elf_segment ph

  unfoldable pub map_headers : List ProgramHeader → Cmd State VmError (Unit {0})
  map_headers [] = pure tt
  map_headers (ph ∷ phs) = map_header ph.ph_type ph >> map_headers phs

  unfoldable pub map_user_elf : (List ℕ → String ⊎ ElfFile) → Cmd State VmError (Unit {0})
  map_user_elf elf_new = elim (elf_new elf_bytes) [
    | inl msg ↦ fail (elf_error msg)
    | inr elf ↦ do
      map_headers elf.program_headers
      modify λ (m, space). (m, record space { entry_addr = elf.entry_point })
  ]

-- An error of `map_create` drops the page.
unfoldable pub add_user_stack_area : Cmd State VmError (Unit {0})
add_user_stack_area = do
  let permissions = bit_or (bit_or permission_r permission_w) permission_u
  pte_flags ← to_pte_flags permissions
  page ← alloc_zeroed_page >>= ok_or acquire_page_failed
  vpn ← or_panic (vpn_from_va (user_space_end - page_size_bytes))
  on_err (on_machine (drop_page page)) (map_page vpn (page_get_ppn page) pte_flags)
  end_vpn ← or_panic (vpn_from_va user_space_end)
  start_vpn ← or_panic (vpn_from_va (user_space_end - user_stack_max_size_bytes))
  let area = area_new start_vpn end_vpn anonymous permissions
  modify (push_area (record area { pages = (vpn, page) ∷ [] }))
  modify λ (m, space). (m, record space { u_stack_end = user_space_end })

unfoldable pub add_kernel_stack_area : Cmd State VmError (Unit {0})
add_kernel_stack_area = do
  page ← alloc_page >>= ok_or acquire_page_failed
  let start = wrapping_add (ppn_get_pa (page_get_ppn page)) Addresses.kernel_va_offset
  start_vpn ← or_panic (vpn_from_va start)
  end_vpn ← or_panic (vpn_from_va (wrapping_add start page_size_bytes))
  let area = area_new start_vpn end_vpn Vm.kernel_va_offset (bit_or permission_r permission_w)
  modify (push_area (record area { pages = (start_vpn, page) ∷ [] }))
  modify λ (m, space). (m, record space { k_stack_end = vpn_get_va end_vpn })

-- The drop of a `VMSpace`: the pages of its tables, then those of its areas.
unfoldable pub drop_space : VmSpace → Machine → Machine
drop_space space m = drop_areas space.areas (drop_pages space.root_pgt.pages m)

module _ {R : Type 0} where
  abbrev deliver : R → Outcome State VmError (Unit {0}) → Outcome (Machine × R) VmError VmSpace
  deliver self (ok _ (m, space)) = ok space (m, self)
  deliver self (err e (m, space)) = err e (drop_space space m, self)
  deliver self panic = panic

  unfoldable pub new_user : (List ℕ → String ⊎ ElfFile) → List ℕ → Cmd (Machine × R) VmError VmSpace
  new_user elf_new elf_bytes = do
    satp_ppn ← (λ s. or_panic (get_kernel_satp_ppn s.0) s)
    entries ← or_panic (get_ptes_mut satp_ppn)
    root ← map_err create_root_pgt_failed (root_new_copy entries)
    λ (m, self). deliver self (
        (map_user_elf elf_bytes elf_new >> add_user_stack_area >> add_kernel_stack_area) (
          m,
          record { root_pgt = root; areas = []; entry_addr = 0; u_stack_end = 0; k_stack_end = 0 },
        ))
