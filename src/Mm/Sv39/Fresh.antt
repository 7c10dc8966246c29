-- ===== src/Mm/Sv39/Fresh.antt =====
-- Allocation against the uses of the pages: page_alloc.rs never hands out a page in use.
use hj.Base.{
  ◌≤◌, ◌<◌, ◌≡◌, ◌≢◌, refl, Option, none, some, List, [], ◌∷◌, arith, ap, ◌∙◌, Bool-cases, inl, inr,
  leb, ◌^◌,
}
use hj.Mm.{Ppn}
use hj.Mm.PageAlloc.{PageAllocator, Page, alloc, dealloc}
use hj.Mm.Sv39.Tree.{Role, unused, Roles, assign, IsFree, AllFree, NotIn, IsFresh}

AllFree-assign :
    (ρ : Roles) (p next : Ppn) (r : Role) (ps : List Ppn)
    → NotIn p ps
    → AllFree ρ next ps
    → AllFree (assign ρ p r) next ps
AllFree-assign ρ p next r [] n f = tt
AllFree-assign ρ p next r (q ∷ qs) n f = (ground arith, f.1, AllFree-assign ρ p next r qs n.1 f.2)

AllFree-suc :
    (ρ : Roles) (next next' : Ppn) (ps : List Ppn)
    → next ≤ next'
    → AllFree ρ next ps
    → AllFree ρ next' ps × NotIn next ps
AllFree-suc ρ next next' [] h f = (tt, tt)
AllFree-suc ρ next next' (q ∷ qs) h f =
    let (f', n) = AllFree-suc ρ next next' qs h f.2 in
    ((f.0, omega arith, f'), ((λ e. omega arith), n))

NotIn-used :
    (ρ : Roles) (next p : Ppn) (ps : List Ppn) → AllFree ρ next ps → ρ p ≢ unused → NotIn p ps
NotIn-used ρ next p [] f used = tt
NotIn-used ρ next p (q ∷ qs) f used =
    ((λ e. used (ap ρ e ∙ f.0.0)), NotIn-used ρ next p qs f.2 used)

abbrev allocator : Ppn → Ppn → List Ppn → PageAllocator
allocator next max ps = record { next_unused_ppn = next; max_ppn = max; recycled_ppn = ps }

-- What `alloc` returns: nothing, and no change; or a page that had no use, and whatever use it is
-- put to, the rest stays fresh.
abbrev pub Grants : Roles → PageAllocator → Option Page × PageAllocator → Type 0
Grants ρ a (none, b) = (b ≡ a) × (a.recycled_ppn ≡ []) × (a.max_ppn ≤ a.next_unused_ppn)
Grants ρ a (some page, b) = IsFree ρ page.ppn × ((r : Role) → IsFresh (assign ρ page.ppn r) b)

Grants-parts :
    (ρ : Roles) (next max : Ppn) (ps : List Ppn)
    → IsFresh ρ (allocator next max ps)
    → Grants ρ (allocator next max ps) (alloc (allocator next max ps))
unfolding alloc
Grants-parts ρ next max (p ∷ ps) f = (
  f.recycled.0,
  λ r. record {
    recycled = AllFree-assign ρ p next r ps f.distinct.0 f.recycled.2;
    distinct = f.distinct.1;
    rest = λ q l h. ground (arith, f.rest q l h);
    bound = f.bound;
  },
)
Grants-parts ρ next max [] f = elim (Bool-cases (leb max next)) [
  | inl full ↦ rw full (refl, refl, ground arith)
  | inr free ↦ rw free (
    (f.rest next (omega arith) (ground arith), ground (arith, f.bound)),
    λ r. record {
      recycled = tt;
      distinct = tt;
      rest = λ q l h. ground (arith, f.rest q);
      bound = f.bound;
    },
  )
]

-- On an allocator that is fresh for the uses of the pages, `alloc` returns a page that has no
-- use, such that the allocator stays fresh whatever the page is used for; or it returns nothing
-- and changes nothing, and no page is left, recycled or new.
pub alloc-Grants : {ρ : Roles} (a : PageAllocator) → IsFresh ρ a → Grants ρ a (alloc a)
alloc-Grants {ρ} a f = Grants-parts ρ a.next_unused_ppn a.max_ppn a.recycled_ppn f

-- The page that `alloc` returns counts as handed out.
handed-parts :
    (ρ : Roles) (next max : Ppn) (ps : List Ppn) (page : Page)
    → IsFresh ρ (allocator next max ps)
    → (alloc (allocator next max ps)).0 ≡ some page
    → page.ppn < ((alloc (allocator next max ps)).1).next_unused_ppn
unfolding alloc
handed-parts ρ next max (p ∷ ps) page f e =
    let same : p ≡ page.ppn = ap ppn_of e in omega (arith, same, f.recycled.1)
  where
    ppn_of : Option Page → Ppn
    ppn_of none = p
    ppn_of (some q) = q.ppn
handed-parts ρ next max [] page f e = elim (Bool-cases (leb max next)) [
  | inl full ↦ absurd (both (rw full at e))
  | inr free ↦
      let same : next ≡ page.ppn = ap ppn_of (rw free at e) in rw free (omega (arith, same))
]
  where
    both : ¬ (none ≡ some page)
    both z = absurd cc

    ppn_of : Option Page → Ppn
    ppn_of none = next
    ppn_of (some q) = q.ppn

pub alloc_handed :
    {ρ : Roles} (a : PageAllocator) (page : Page)
    → IsFresh ρ a
    → (alloc a).0 ≡ some page
    → page.ppn < ((alloc a).1).next_unused_ppn
alloc_handed {ρ} a page f e = handed-parts ρ a.next_unused_ppn a.max_ppn a.recycled_ppn page f e

-- On a fresh allocator, the drop of a page that is in use and was handed out leaves the
-- allocator fresh for the uses without that page.
pub dealloc-IsFresh :
    {ρ : Roles} (a : PageAllocator) (page : Page)
    → IsFresh ρ a
    → ρ page.ppn ≢ unused
    → page.ppn < a.next_unused_ppn
    → page.ppn < 2 ^ 26
    → IsFresh (assign ρ page.ppn unused) (dealloc page a)
unfolding dealloc
dealloc-IsFresh {ρ} a page f used below small =
    let out = NotIn-used ρ a.next_unused_ppn page.ppn a.recycled_ppn f.recycled used in
    record {
      recycled = (
        (ground arith, small),
        below,
        AllFree-assign ρ page.ppn a.next_unused_ppn unused a.recycled_ppn out f.recycled,
      );
      distinct = (out, f.distinct);
      rest = λ q l h. ground (arith, f.rest q l h);
      bound = f.bound;
    }
