-- ===== src/Mm/Vm/Space.antt =====
-- The operations on the areas of a `VMSpace`.
use hj.Base.{
  ℕ, zero, suc, Bool, some, List, [], ◌∷◌, ◌++◌, ◌&&◌, ◌||◌, not, bit_and, leb, ◌==◌, if◌then◌else◌,
  complement, length, get_elem?, set, swap_remove, find, all,
}
use hj.Outcome.{Cmd, pure, fail, abort, or_panic, ok_or, map_err, on_err, modify, zoom, ◌>>=◌, ◌>>◌}
use hj.Mm.{Vpn, vpn_from_va}
use hj.Mm.PageAlloc.{Page, page_get_ppn, Machine, alloc_zeroed_page}
use hj.Mm.Sv39.Unmap
use hj.Mm.Sv39.{RootPgt, map_create}
use hj.Mm.Vm.{
  MapType, anonymous, kernel_va_offset, VmError, pgt_error, no_area_contain_vpn,
  invalid_permissions, permission_denied, acquire_page_failed, area_overlapping, empty_area, VmArea,
  VmSpace, area_new, contain_vpn, to_pte_flags, all_permission_flags,
}
use hj.Mm.Vm.Pages.{insert, remove, split_off, drop_option, drop_map, drop_area}

abbrev State : Type 0
State = Machine × VmSpace

-- A call of a method of `self.root_pgt`.
unfoldable pub on_root_pgt : {E A : Type 0} → Cmd (Machine × RootPgt) E A → Cmd State E A
on_root_pgt c = zoom (λ space. space.root_pgt) (λ root space. record space { root_pgt = root }) c

-- A call of `self.root_pgt.map_create`, with its error wrapped.
unfoldable pub map_page : Vpn → ℕ → ℕ → Cmd State VmError (Unit {0})
map_page vpn ppn pte_flags = map_err (pgt_error vpn) (on_root_pgt (map_create vpn ppn pte_flags))

unfoldable pub find_area : Vpn → Cmd State VmError VmArea
find_area vpn = λ s. ok_or (no_area_contain_vpn vpn) (find (λ a. contain_vpn a vpn) s.1.areas) s

-- The change of the area that `find_area_mut` refers to: the first that contains the page.
unfoldable pub update_area : Vpn → (VmArea → VmArea) → List VmArea → List VmArea
update_area vpn f [] = []
update_area vpn f (area ∷ areas) =
    let rest = update_area vpn f areas in
    if contain_vpn area vpn then f area ∷ areas else area ∷ rest

abbrev pub with_pages : (List (Vpn × Page) → List (Vpn × Page)) → VmArea → VmArea
with_pages f area = record area { pages = f area.pages }

-- `area.pages.insert(vpn, page)`; a page that it replaces is dropped.
unfoldable pub insert_page : Vpn → Page → VmArea → State → State
insert_page vpn page area (m, space) = (
  drop_option (insert vpn page area.pages).1 m,
  record space {
    areas = update_area vpn (with_pages (λ pages. (insert vpn page pages).0)) space.areas;
  },
)

-- `area.pages.remove(&vpn)`; the page is dropped.
unfoldable pub remove_page : Vpn → Page → State → State
remove_page vpn page (m, space) = (
  drop_option (some page) m,
  record space { areas = update_area vpn (with_pages (remove vpn)) space.areas },
)

abbrev check_map_type : MapType → Cmd State VmError (Unit {0})
check_map_type anonymous = pure tt
check_map_type kernel_va_offset = abort

-- `VMSpace::map`
unfoldable pub map : Vpn → ℕ → Cmd State VmError (Unit {0})
map vpn min_permissions = do
  area ← find_area vpn
  let permissions = area.permissions
  if not (bit_and min_permissions permissions == min_permissions)
      then fail (permission_denied vpn min_permissions)
      else (do
        check_map_type area.map_type
        page ← alloc_zeroed_page >>= ok_or acquire_page_failed
        modify (insert_page vpn page area)
        pte_flags ← to_pte_flags permissions
        on_err (remove_page vpn page) (map_page vpn (page_get_ppn page) pte_flags))

unfoldable pub map_fault_page : ℕ → ℕ → Cmd State VmError (Unit {0})
map_fault_page va min_permissions = do vpn ← or_panic (vpn_from_va va); map vpn min_permissions

abbrev pub no_overlap : Vpn → Vpn → VmArea → Bool
no_overlap start_vpn end_vpn area = leb area.end_vpn start_vpn || leb end_vpn area.start_vpn

abbrev pub push_area : VmArea → State → State
push_area area (m, space) = (m, record space { areas = space.areas ++ area ∷ [] })

unfoldable pub add_new_area : Vpn → Vpn → MapType → ℕ → Cmd State VmError (Unit {0})
add_new_area start_vpn end_vpn map_type permissions =
    if leb end_vpn start_vpn
    then fail (empty_area start_vpn end_vpn)
    else if not (bit_and permissions (complement all_permission_flags) == 0)
    then fail (invalid_permissions permissions)
    else λ s.
        (if all (no_overlap start_vpn end_vpn) s.1.areas
            then modify (push_area (area_new start_vpn end_vpn map_type permissions))
            else fail (area_overlapping start_vpn end_vpn))
          s

abbrev set_area : ℕ → VmArea → State → State
set_area i area (m, space) = (m, record space { areas = set space.areas i area })

abbrev on_machine : (Machine → Machine) → State → State
on_machine f (m, space) = (f m, space)

-- `self.root_pgt.unmap`, with its error wrapped for the area.
unfoldable pub unmap_pages : VmArea → Vpn → Vpn → Cmd State VmError (Unit {0})
unmap_pages area from to = map_err (pgt_error area.start_vpn) (on_root_pgt (Unmap.unmap from to))

module _ (start_vpn end_vpn : Vpn) where
  -- The four cases of the loop's body, on area `i`.
  unfoldable pub remove_whole : ℕ → VmArea → Cmd State VmError (Unit {0})
  remove_whole i area = do
    unmap_pages area area.start_vpn area.end_vpn
    modify (λ (m, space). (drop_area area m, record space { areas = swap_remove i space.areas }))

  unfoldable pub remove_front : ℕ → VmArea → Cmd State VmError (Unit {0})
  remove_front i area = do
    unmap_pages area area.start_vpn end_vpn
    let split = split_off end_vpn area.pages
    modify (set_area i (record area { start_vpn = end_vpn; pages = split.1 }))
    modify (on_machine (drop_map split.0))

  unfoldable pub remove_back : ℕ → VmArea → Cmd State VmError (Unit {0})
  remove_back i area = do
    unmap_pages area start_vpn area.end_vpn
    let split = split_off start_vpn area.pages
    modify (set_area i (record area { end_vpn = start_vpn; pages = split.0 }))
    modify (on_machine (drop_map split.1))

  unfoldable pub remove_middle : ℕ → VmArea → Cmd State VmError (Unit {0})
  remove_middle i area = do
    unmap_pages area start_vpn end_vpn
    let upper = split_off start_vpn area.pages
    let split = split_off end_vpn upper.1
    modify (on_machine (drop_map split.0))
    modify (set_area i (record area { end_vpn = start_vpn; pages = upper.0 }))
    modify (push_area (record area { start_vpn = end_vpn; pages = split.1 }))

  unfoldable pub unmap_area : ℕ → VmArea → Cmd State VmError (Unit {0})
  unmap_area i area =
      if no_overlap start_vpn end_vpn area
      then pure tt
      else if leb start_vpn area.start_vpn && leb area.end_vpn end_vpn
      then remove_whole i area
      else if leb start_vpn area.start_vpn
      then remove_front i area
      else if leb area.end_vpn end_vpn
      then remove_back i area
      else remove_middle i area

  -- The loop over the areas below index `i`, from the last to the first.
  unfoldable pub unmap_below : ℕ → Cmd State VmError (Unit {0})
  unmap_below zero = pure tt
  unmap_below (suc i) = do
    area ← (λ s. or_panic (get_elem? s.1.areas i) s)
    unmap_area i area
    unmap_below i

unfoldable pub unmap : Vpn → Vpn → Cmd State VmError (Unit {0})
unmap start_vpn end_vpn = λ s. unmap_below start_vpn end_vpn (length s.1.areas) s
