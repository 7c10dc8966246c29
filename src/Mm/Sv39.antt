-- ===== src/Mm/Sv39.antt =====
-- os/src/mm/sv39.rs: page table entries and the three-level page tables.
-- A table is addressed by its pointer; the literal levels of the source's arrays are the fields of
-- `ParsedVpn`. Loops recur on the rounds left.
pub mod Pte
pub mod Tree
pub mod Maps
pub mod MapCreate
pub mod Zeroed
pub mod Steady
pub mod Unmap
pub mod Leaf
pub mod Child
pub mod Grow
pub mod Steps
pub mod Fresh
use package.hj.Base.{
  ℕ, zero, suc, ◌+◌, ◌-◌, ◌*◌, ◌^◌, Bool, true, false, ◌&&◌, ◌||◌, not, Option, none, some, List,
  [], ◌∷◌, ◌++◌, bit_and, bit_or, ltb, leb, ◌==◌, if◌then◌else◌, shl, shr, complement, length,
}
use package.hj.Outcome.{Cmd, ok, pure, fail, abort, assert, or_panic, ok_or, ◌>>=◌, ◌>>◌}
use package.hj.Mm.{
  Ppn, Vpn, page_size_order, page_size_bytes, large_page_size_bytes, ppn_from_pa, ppn_get_pa,
  vpn_from_va, vpn_get_va,
}
use package.hj.Mm.Memory.{read_word, write_word, copy_bytes}
use package.hj.Mm.PageAlloc.{
  Page, page_get_ppn, Machine, get_pa_mut_ptr, alloc_page, alloc_zeroed_page,
}
use package.hj.Riscv.Satp.{sv39, compute_value}

abbrev pub ptes_per_table : ℕ
ptes_per_table = 512

pub record ParsedVpn : Type 0 where
  pub vpn_0 : ℕ
  pub vpn_1 : ℕ
  pub vpn_2 : ℕ

unfoldable pub parse_vpn : Vpn → ParsedVpn
parse_vpn vpn =
    let va = vpn_get_va vpn in
    record {
      vpn_0 = bit_and (shr va 12) 0x1ff;
      vpn_1 = bit_and (shr va 21) 0x1ff;
      vpn_2 = bit_and (shr va 30) 0x1ff;
    }

-- `pages` holds the page of the root and those of the child tables that were made for it.
pub record RootPgt : Type 0 where
  pub ppn : Ppn
  pub pages : List Page

pub data PgtError : Type 0 where
  acquire_page_failed : PgtError
  invalid_pte_flags : ℕ → PgtError
  -- An attempt to map a page that is mapped.
  double_mapping : Vpn → Ppn → PgtError

abbrev pub all_flags : ℕ
all_flags = 0x3ff

abbrev pub flag_v : ℕ
flag_v = 1

abbrev pub flag_r : ℕ
flag_r = 2

abbrev pub flag_w : ℕ
flag_w = 4

abbrev pub flag_x : ℕ
flag_x = 8

abbrev pub flag_u : ℕ
flag_u = 16

-- A page table entry is its word.
abbrev pub Pte : Type 0
Pte = ℕ

unfoldable pub has_unknown_flags_set : ℕ → Bool
has_unknown_flags_set pte_flags = not (bit_and pte_flags (complement all_flags) == 0)

unfoldable pub has_v_flag_clear : ℕ → Bool
has_v_flag_clear pte_flags = bit_and pte_flags flag_v == 0

unfoldable pub is_reserved_xwr_encodings : ℕ → Bool
is_reserved_xwr_encodings pte_flags =
    let xwr = shr (bit_and pte_flags (bit_or (bit_or flag_x flag_w) flag_r)) 1 in
    (xwr == 2) || (xwr == 6)

unfoldable pub is_valid_flags : ℕ → Bool
unfolding has_unknown_flags_set has_v_flag_clear is_reserved_xwr_encodings
is_valid_flags pte_flags =
    if has_unknown_flags_set pte_flags
      || has_v_flag_clear pte_flags
      || is_reserved_xwr_encodings pte_flags
    then false
    else true

unfoldable pub pte_new : {S : Type 0} → Ppn → ℕ → Cmd S PgtError Pte
pte_new ppn pte_flags =
    if not (is_valid_flags pte_flags)
    then fail (invalid_pte_flags pte_flags)
    else pure (bit_or (shl ppn 10) pte_flags)

unfoldable pub is_valid : Pte → Bool
is_valid pte = not (bit_and pte flag_v == 0)

unfoldable pub pte_get_ppn : Pte → Option Ppn
pte_get_ppn pte =
    let ppn = bit_and (shr pte 10) 0xfff_ffff_ffff in ppn_from_pa (shl ppn page_size_order)

unfoldable pub is_leaf : Pte → Bool
unfolding is_valid
is_leaf pte = is_valid pte && not (bit_and pte (bit_or flag_x flag_w) == 0)

-- The view of a page as a table; its pointer.
unfoldable pub get_ptes_mut : Ppn → Option ℕ
get_ptes_mut ppn = get_pa_mut_ptr (ppn_get_pa ppn)

module _ {R E : Type 0} where
  -- `table[i]`, read and written. An index out of bounds panics.
  unfoldable pub load_pte : ℕ → ℕ → Cmd (Machine × R) E Pte
  load_pte table i (m, self) =
      if ltb i ptes_per_table
      then ok (read_word m.memory (table + 8 * i)) (m, self)
      else abort (m, self)

  unfoldable pub store_pte : ℕ → ℕ → Pte → Cmd (Machine × R) E (Unit {0})
  store_pte table i pte (m, self) =
      if ltb i ptes_per_table
      then ok tt (record m { memory = write_word (table + 8 * i) pte m.memory }, self)
      else abort (m, self)

-- `RootPgt::new` and `new_copy`: the new object is the result.
unfoldable pub root_new : {R : Type 0} → Cmd (Machine × R) PgtError RootPgt
root_new = do
  page ← alloc_zeroed_page >>= ok_or acquire_page_failed
  pure (record { ppn = page_get_ppn page; pages = page ∷ [] })

-- `entries` is the pointer of the table that is copied.
unfoldable pub root_new_copy : {R : Type 0} → ℕ → Cmd (Machine × R) PgtError RootPgt
root_new_copy {R} entries = do
  page ← alloc_page >>= ok_or acquire_page_failed
  ptr ← or_panic (get_pa_mut_ptr (ppn_get_pa (page_get_ppn page)))
  copy ptr
  pure (record { ppn = page_get_ppn page; pages = page ∷ [] })
  where
    copy : ℕ → Cmd (Machine × R) PgtError (Unit {0})
    copy ptr (m, self) =
        ok tt (record m { memory = copy_bytes (8 * ptes_per_table) entries ptr m.memory }, self)

unfoldable pub root_get_satp : RootPgt → ℕ
root_get_satp root = compute_value root.ppn sv39

-- The pages are not dropped; their number is returned.
unfoldable pub forget_self : RootPgt → ℕ
forget_self root = length root.pages

module _ {E : Type 0} where
  unfoldable pub root_ppn : Cmd (Machine × RootPgt) E Ppn
  root_ppn (m, self) = ok self.ppn (m, self)

  -- `self.pages.push(page)`
  unfoldable pub push_page : Page → Cmd (Machine × RootPgt) E (Unit {0})
  push_page page (m, self) = ok tt (m, record self { pages = self.pages ++ page ∷ [] })

-- The table below entry `i` is made if it is not there.
unfoldable pub ensure_table : ℕ → ℕ → Cmd (Machine × RootPgt) PgtError (Unit {0})
ensure_table table i = do
  pte ← load_pte table i
  if not (is_valid pte)
      then (do
        page ← alloc_zeroed_page >>= ok_or acquire_page_failed
        new ← pte_new (page_get_ppn page) flag_v
        store_pte table i new
        push_page page)
      else pure tt

-- One round of the walk to the leaf table, at entry `i` of `table`.
unfoldable pub next_table : Vpn → Ppn → ℕ → ℕ → Cmd (Machine × RootPgt) PgtError ℕ
next_table vpn ppn i table = do
  ensure_table table i
  pte ← load_pte table i
  if is_leaf pte
      then fail (double_mapping vpn ppn)
      else (do child ← or_panic (pte_get_ppn pte); or_panic (get_ptes_mut child))

unfoldable pub map_create : Vpn → Ppn → ℕ → Cmd (Machine × RootPgt) PgtError (Unit {0})
map_create vpn ppn pte_flags = do
  let parsed_vpn = parse_vpn vpn
  leaf_pte ← pte_new ppn pte_flags
  root ← root_ppn
  table2 ← or_panic (get_ptes_mut root)
  table1 ← next_table vpn ppn parsed_vpn.vpn_2 table2
  table0 ← next_table vpn ppn parsed_vpn.vpn_1 table1
  pte ← load_pte table0 parsed_vpn.vpn_0
  if is_valid pte then fail (double_mapping vpn ppn) else store_pte table0 parsed_vpn.vpn_0 leaf_pte

unfoldable pub map_create_large : Vpn → Ppn → ℕ → Cmd (Machine × RootPgt) PgtError (Unit {0})
map_create_large vpn' ppn' pte_flags = do
  let mask = complement (large_page_size_bytes - 1)
  vpn ← or_panic (vpn_from_va (bit_and (vpn_get_va vpn') mask))
  ppn ← or_panic (ppn_from_pa (bit_and (ppn_get_pa ppn') mask))
  let parsed_vpn = parse_vpn vpn
  leaf_pte ← pte_new ppn pte_flags
  root ← root_ppn
  level2_table ← or_panic (get_ptes_mut root)
  level1_table ← next_table vpn ppn parsed_vpn.vpn_2 level2_table
  pte ← load_pte level1_table parsed_vpn.vpn_1
  if is_leaf pte
      then fail (double_mapping vpn ppn)
      else store_pte level1_table parsed_vpn.vpn_1 leaf_pte
