-- ===== src/Mm/PageAlloc.antt =====
-- os/src/mm/page_alloc.rs: the allocator of physical pages, and the machine's state.
-- The kernel runs on one hart with interrupts off, so taking the spin lock never waits.
pub mod FirstPage
use package.hj.Base.{ℕ, ◌+◌, ◌-◌, Option, none, some, List, [], ◌∷◌, bit_and}
use package.hj.Base.{leb, ◌==◌, if◌then◌else◌}
use package.hj.Outcome.{Cmd, ok, pure, or_panic, ◌>>=◌, ◌>>◌}
use package.hj.Mm.{
  Ppn, page_size_bytes, mem_start_pa, mem_size_bytes, get_va_from_pa, get_pa_from_va, ppn_from_pa,
  ppn_get_pa,
}
use package.hj.Mm.Memory.{Memory, clear_bytes}

-- The head of `recycled_ppn` is the end of the source's vector.
pub record PageAllocator : Type 0 where
  pub next_unused_ppn : Ppn
  -- The exclusive upper bound.
  pub max_ppn : Ppn
  pub recycled_ppn : List Ppn

pub record Page : Type 0 where
  pub ppn : Ppn

abbrev pub page_get_ppn : Page → Ppn
page_get_ppn page = page.ppn

-- The statics of the kernel that the memory code changes.
pub record Machine : Type 0 where
  pub allocator : PageAllocator
  pub memory : Memory
  pub kernel_satp : ℕ

unfoldable pub compute_first_unused_ppn : ℕ → Option Ppn
compute_first_unused_ppn kernel_end = elim (get_pa_from_va kernel_end) [
  | none ↦ none
  | some kernel_end_pa ↦
      if bit_and kernel_end_pa (page_size_bytes - 1) == 0
      then ppn_from_pa kernel_end_pa
      else ppn_from_pa (kernel_end_pa + page_size_bytes)
]

unfoldable pub compute_max_ppn : Option Ppn
compute_max_ppn =
    if bit_and mem_start_pa (page_size_bytes - 1) == 0
    then (if bit_and mem_size_bytes (page_size_bytes - 1) == 0
        then ppn_from_pa (mem_start_pa + mem_size_bytes)
        else none)
    else none

-- `PageAllocator::alloc`
unfoldable pub alloc : PageAllocator → Option Page × PageAllocator
alloc a = elim a.recycled_ppn [
  | ppn ∷ rest ↦ (some (record { ppn = ppn }), record a { recycled_ppn = rest })
  | [] ↦ if leb a.max_ppn a.next_unused_ppn then (none, a) else (
    some (record { ppn = a.next_unused_ppn }),
    record a { next_unused_ppn = a.next_unused_ppn + 1 },
  )
]

-- `PageAllocator::dealloc`
unfoldable pub dealloc : Page → PageAllocator → PageAllocator
dealloc page a = record a { recycled_ppn = page_get_ppn page ∷ a.recycled_ppn }

-- `Page::drop`
unfoldable pub drop_page : Page → Machine → Machine
unfolding dealloc
drop_page page m = record m { allocator = dealloc page m.allocator }

-- The drop of a vector of pages, from the first to the last, and `dealloc_pages`.
unfoldable pub drop_pages : List Page → Machine → Machine
unfolding drop_page
drop_pages [] m = m
drop_pages (page ∷ pages) m = drop_pages pages (drop_page page m)

-- A pointer for the physical address `pa`; the overflow of the sum panics.
unfoldable pub get_pa_mut_ptr : ℕ → Option ℕ
get_pa_mut_ptr pa = get_va_from_pa pa

module _ {R E : Type 0} where
  unfoldable pub alloc_page : Cmd (Machine × R) E (Option Page)
  alloc_page (m, self) =
      let (page, a) = alloc m.allocator in ok page (record m { allocator = a }, self)

  -- The loop of `alloc_zeroed_page`.
  unfoldable pub zero_page : ℕ → Cmd (Machine × R) E (Unit {0})
  zero_page ptr (m, self) =
      ok tt (record m { memory = clear_bytes page_size_bytes ptr m.memory }, self)

  unfoldable pub alloc_zeroed_page : Cmd (Machine × R) E (Option Page)
  alloc_zeroed_page = alloc_page >>= elim [
    | none ↦ pure none
    | some page ↦ do
      ptr ← or_panic (get_pa_mut_ptr (ppn_get_pa (page_get_ppn page)))
      zero_page ptr
      pure (some page)
  ]
