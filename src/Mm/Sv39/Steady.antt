-- ===== src/Mm/Sv39/Steady.antt =====
-- The methods of a page table never take back a page that the allocator handed out.
use hj.Base.{
  ℕ, ◌≤◌, inl, inr, Bool, true, false, Option, none, some, List, [], ◌∷◌, not, ltb, leb, arith,
  Bool-cases, if◌then◌else◌,
}
use hj.Outcome.{Outcome, Cmd, ok, err, panic, pure, fail, or_panic, ok_or, and_then, ◌>>=◌}
use hj.Mm.{Ppn, Vpn, ppn_get_pa}
use hj.Mm.PageAlloc.{
  PageAllocator, Page, Machine, alloc, alloc_page, zero_page, alloc_zeroed_page, get_pa_mut_ptr,
  page_get_ppn,
}
use hj.Mm.Sv39.{
  Pte, RootPgt, PgtError, acquire_page_failed, load_pte, store_pte, is_valid, is_leaf, pte_new,
  pte_get_ppn, get_ptes_mut, push_page, root_ppn, ensure_table, next_table, map_create,
  is_valid_flags,
}

-- From the state where the next page is `n`, the next page is no lower one.
unfoldable pub Steady : {A : Type 0} → ℕ → Outcome (Machine × RootPgt) PgtError A → Type 0
Steady n (ok a s) = n ≤ s.0.allocator.next_unused_ppn
Steady n (err e s) = n ≤ s.0.allocator.next_unused_ppn
Steady n panic = Unit {0}

abbrev pub Keeps : {A : Type 0} → Cmd (Machine × RootPgt) PgtError A → Type 0
Keeps c = (s : Machine × RootPgt) → Steady s.0.allocator.next_unused_ppn (c s)

lower :
    {B : Type 0} {n n' : ℕ} (o : Outcome (Machine × RootPgt) PgtError B)
    → n ≤ n'
    → Steady n' o
    → Steady n o
unfolding Steady
lower (ok b s) l h = omega arith
lower (err e s) l h = omega arith
lower panic l h = tt

and_then-Steady :
    {A B : Type 0} (n : ℕ) (o : Outcome (Machine × RootPgt) PgtError A)
    (k : A → Cmd (Machine × RootPgt) PgtError B)
    → Steady n o
    → ((a : A) → Keeps (k a))
    → Steady n (and_then o k)
unfolding Steady
and_then-Steady n (ok a s) k h next = lower (k a s) h (next a s)
and_then-Steady n (err e s) k h next = h
and_then-Steady n panic k h next = tt

next_step :
    {A B : Type 0} (c : Cmd (Machine × RootPgt) PgtError A)
    (k : A → Cmd (Machine × RootPgt) PgtError B)
    → Keeps c
    → ((a : A) → Keeps (k a))
    → Keeps (c >>= k)
next_step c k h next s = and_then-Steady s.0.allocator.next_unused_ppn (c s) k (h s) next

pure-Keeps : {A : Type 0} (a : A) → Keeps (pure a)
unfolding Steady
pure-Keeps a s = omega arith

fail-Keeps : (A : Type 0) (e : PgtError) → Keeps {A = A} (fail e)
unfolding Steady
fail-Keeps A e s = omega arith

or_panic-Keeps : {A : Type 0} (o : Option A) → Keeps (or_panic o)
unfolding Steady
or_panic-Keeps (some a) s = omega arith
or_panic-Keeps none s = tt

ok_or-Keeps : {A : Type 0} (e : PgtError) (o : Option A) → Keeps (ok_or e o)
unfolding Steady
ok_or-Keeps e (some a) s = omega arith
ok_or-Keeps e none s = omega arith

if-Keeps :
    {A : Type 0} (b : Bool) (c d : Cmd (Machine × RootPgt) PgtError A)
    → Keeps c
    → Keeps d
    → Keeps (if b then c else d)
if-Keeps true c d h k s = h s
if-Keeps false c d h k s = k s

load_pte-Keeps : (table i : ℕ) → Keeps (load_pte table i)
unfolding Steady load_pte
load_pte-Keeps table i (m, self) = elim (Bool-cases (ltb i 512)) [
  | inl h ↦ rw h (omega arith)
  | inr h ↦ rw h tt
]

store_pte-Keeps : (table i : ℕ) (e : Pte) → Keeps (store_pte table i e)
unfolding Steady store_pte
store_pte-Keeps table i e (m, self) = elim (Bool-cases (ltb i 512)) [
  | inl h ↦ rw h (omega arith)
  | inr h ↦ rw h tt
]

abbrev parted : Ppn → Ppn → List Ppn → PageAllocator
parted next max ps = record { next_unused_ppn = next; max_ppn = max; recycled_ppn = ps }

pub alloc_next : (a : PageAllocator) → a.next_unused_ppn ≤ ((alloc a).1).next_unused_ppn
unfolding alloc
alloc_next a = parts a.next_unused_ppn a.max_ppn a.recycled_ppn
  where
    parts :
        (next max : Ppn) (ps : List Ppn) → next ≤ ((alloc (parted next max ps)).1).next_unused_ppn
    parts next max (p ∷ ps) = omega arith
    parts next max [] = elim (Bool-cases (leb max next)) [
      | inl full ↦ rw full (omega arith)
      | inr free ↦ rw free (omega arith)
    ]

taken : Keeps alloc_page
unfolding Steady alloc_page
taken (m, self) = alloc_next m.allocator

zeroed : (ptr : ℕ) → Keeps (zero_page ptr)
unfolding Steady zero_page
zeroed ptr (m, self) = omega arith

pushed : (page : Page) → Keeps (push_page page)
unfolding Steady push_page
pushed page (m, self) = omega arith

rooted : Keeps root_ppn
unfolding Steady root_ppn
rooted (m, self) = omega arith

alloc_zeroed_page-Keeps : Keeps alloc_zeroed_page
unfolding alloc_zeroed_page
alloc_zeroed_page-Keeps = next_step alloc_page _ taken (elim [
  | none ↦ pure-Keeps none
  | some page ↦
      next_step (or_panic (get_pa_mut_ptr (ppn_get_pa (page_get_ppn page)))) _ (or_panic-Keeps _)
        (λ ptr. next_step (zero_page ptr) _ (zeroed ptr) (λ done. pure-Keeps (some page)))
])

pte_new-Keeps : (ppn flags : ℕ) → Keeps (pte_new ppn flags)
unfolding pte_new
pte_new-Keeps ppn flags = if-Keeps (not (is_valid_flags flags)) _ _ (fail-Keeps _ _) (pure-Keeps _)

ensure_table-Keeps : (table i : ℕ) → Keeps (ensure_table table i)
unfolding ensure_table
ensure_table-Keeps table i = next_step (load_pte table i) _ (load_pte-Keeps table i) (λ pte.
    if-Keeps (not (is_valid pte)) _ _
      (next_step (alloc_zeroed_page >>= ok_or acquire_page_failed) _
        (next_step alloc_zeroed_page _ alloc_zeroed_page-Keeps (ok_or-Keeps acquire_page_failed))
        (λ page. next_step (pte_new _ _) _ (pte_new-Keeps _ _) (λ new.
          next_step (store_pte table i new) _ (store_pte-Keeps table i new) (λ done. pushed page))))
      (pure-Keeps tt))

next_table-Keeps : (vpn : Vpn) (ppn : Ppn) (i table : ℕ) → Keeps (next_table vpn ppn i table)
unfolding next_table
next_table-Keeps vpn ppn i table =
    next_step (ensure_table table i) _ (ensure_table-Keeps table i) (λ done.
      next_step (load_pte table i) _ (load_pte-Keeps table i) (λ pte.
        if-Keeps (is_leaf pte) _ _ (fail-Keeps _ _) (
          next_step (or_panic (pte_get_ppn pte)) _ (or_panic-Keeps _)
            (λ child. or_panic-Keeps (get_ptes_mut child)))))

-- `map_create` hands out pages or not, and takes none back.
pub map_create-Keeps : (vpn : Vpn) (ppn : Ppn) (flags : ℕ) → Keeps (map_create vpn ppn flags)
unfolding map_create
map_create-Keeps vpn ppn flags =
    next_step (pte_new ppn flags) _ (pte_new-Keeps ppn flags) (λ leaf_pte.
      next_step root_ppn _ rooted (λ root.
        next_step (or_panic (get_ptes_mut root)) _ (or_panic-Keeps _) (λ table2.
          next_step (next_table vpn ppn _ table2) _ (next_table-Keeps vpn ppn _ table2) (λ table1.
            next_step (next_table vpn ppn _ table1) _ (next_table-Keeps vpn ppn _ table1) (λ table0.
              next_step (load_pte table0 _) _ (load_pte-Keeps table0 _) (λ pte.
                if-Keeps (is_valid pte) _ _ (fail-Keeps _ _)
                  (store_pte-Keeps table0 _ leaf_pte)))))))
