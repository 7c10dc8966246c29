-- ===== src/Mm/Sv39/Steps.antt =====
-- One access to a table, and the three ways of `ensure_table`, as equations.
use hj.Base.{
  ℕ, ◌+◌, ◌*◌, ◌^◌, ◌<◌, ◌≡◌, refl, true, false, none, some, [], ◌∷◌, ◌++◌, arith, lt→ltb,
}
use hj.Outcome.{ok, err}
use hj.Mm.{Ppn, ppn_get_pa, get_va_from_pa}
use hj.Mm.Memory.{write_word, clear_bytes}
use hj.Mm.PageAlloc.{
  PageAllocator, Page, Machine, alloc, alloc_page, zero_page, alloc_zeroed_page, get_pa_mut_ptr,
}
use hj.Mm.Sv39.{
  Pte, RootPgt, acquire_page_failed, get_ptes_mut, load_pte, store_pte, is_valid, is_valid_flags,
  push_page, ensure_table,
}
use hj.Mm.Sv39.Pte.{pte_new_ok}
use hj.Mm.Sv39.Tree.{ptr, entry}

pub get_ptes_mut-ptr : (p : Ppn) → p < 2 ^ 26 → get_ptes_mut p ≡ some (ptr p)
unfolding get_ptes_mut get_pa_mut_ptr get_va_from_pa ppn_get_pa
get_ptes_mut-ptr p h = ground arith

page_ptr : (p : Ppn) → p < 2 ^ 26 → get_pa_mut_ptr (ppn_get_pa p) ≡ some (ptr p)
unfolding get_pa_mut_ptr get_va_from_pa ppn_get_pa
page_ptr p h = ground arith

module _ {R E : Type 0} (m : Machine) (self : R) where
  pub load_pte-entry :
      (p : Ppn) (i : ℕ)
      → i < 512
      → load_pte {E = E} (ptr p) i (m, self) ≡ ok (entry m.memory p i) (m, self)
  unfolding load_pte entry
  load_pte-entry p i h = rw (lt→ltb i 512 h)

  pub store_pte_entry :
      (p : Ppn) (i : ℕ) (e : Pte)
      → i < 512
      → store_pte {E = E} (ptr p) i e (m, self)
        ≡ ok tt (record m { memory = write_word (ptr p + 8 * i) e m.memory }, self)
  unfolding store_pte
  store_pte_entry p i e h = rw (lt→ltb i 512 h)

  pub alloc_zeroed_page-none :
      (a : PageAllocator)
      → alloc m.allocator ≡ (none, a)
      → alloc_zeroed_page {E = E} (m, self) ≡ ok none (record m { allocator = a }, self)
  unfolding alloc_zeroed_page alloc_page zero_page
  alloc_zeroed_page-none a e = rw e

  pub alloc_zeroed_page-some :
      (page : Page) (a : PageAllocator)
      → alloc m.allocator ≡ (some page, a)
      → page.ppn < 2 ^ 26
      → alloc_zeroed_page {E = E} (m, self)
        ≡ ok
            (some page)
            (record m { allocator = a; memory = clear_bytes 4096 (ptr page.ppn) m.memory }, self)
  unfolding alloc_zeroed_page alloc_page zero_page
  alloc_zeroed_page-some page a e h = rw (e, page_ptr page.ppn h)

valid_v : is_valid_flags 1 ≡ true
unfolding is_valid_flags
valid_v = refl

module _ (m : Machine) (self : RootPgt) (p : Ppn) (i : ℕ) (small : i < 512) where
  pub ensure_table-there :
      is_valid (entry m.memory p i) ≡ true → ensure_table (ptr p) i (m, self) ≡ ok tt (m, self)
  unfolding ensure_table
  ensure_table-there v = rw (load_pte-entry m self p i small, v)

  pub ensure_table-full :
      (a : PageAllocator)
      → is_valid (entry m.memory p i) ≡ false
      → alloc m.allocator ≡ (none, a)
      → ensure_table (ptr p) i (m, self)
        ≡ err acquire_page_failed (record m { allocator = a }, self)
  unfolding ensure_table
  ensure_table-full a v e =
      rw (load_pte-entry m self p i small, v, alloc_zeroed_page-none m self a e)

  -- What a made table leaves.
  abbrev pub made : Page → PageAllocator → Machine × RootPgt
  made page a = (
    record m {
      allocator = a;
      memory =
          write_word (ptr p + 8 * i) (page.ppn * 1024 + 1)
            (clear_bytes 4096 (ptr page.ppn) m.memory);
    },
    record self { pages = self.pages ++ page ∷ [] },
  )

  pub ensure_table-made :
      (page : Page) (a : PageAllocator)
      → is_valid (entry m.memory p i) ≡ false
      → alloc m.allocator ≡ (some page, a)
      → page.ppn < 2 ^ 26
      → ensure_table (ptr p) i (m, self) ≡ ok tt (made page a)
  unfolding ensure_table push_page
  ensure_table-made page a v e h = rw (
    load_pte-entry m self p i small,
    v,
    alloc_zeroed_page-some m self page a e h,
    pte_new_ok _ page.ppn 1 (omega arith) valid_v (omega arith),
    store_pte_entry _ _ p i (page.ppn * 1024 + 1) small,
  )
