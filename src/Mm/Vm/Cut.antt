-- ===== src/Mm/Vm/Cut.antt =====
-- What a part of `VMSpace::unmap` changes: the areas, the walks of the hardware, and the free pages.
use hj.Base.{
  ℕ, ◌+◌, ◌%◌, ◌^◌, ◌≤◌, ◌<◌, ◌≡◌, ◌⊎◌, inl, inr, refl, sym, ap, ◌∙◌, none, some, List, [], ◌∷◌,
  arith, Bool-cases, ltb, leb,
}
use hj.Mm.{Vpn, Ppn}
use hj.Mm.Memory.{Memory}
use hj.Mm.PageAlloc.{page_get_ppn, Machine, dealloc, drop_page, drop_pages}
use hj.Mm.Sv39.Tree.{Roles, walk, IsTree}
use hj.Mm.Sv39.Unmap.Clear.{Clears}
use hj.Mm.Sv39.Unmap.Upper.{Stops, Stops-end, Stops-Clears}
use hj.Mm.Vm.{VmArea}
use hj.Mm.Vm.AddArea.{Disjoint}
use hj.Mm.Vm.Pages.{PageMap, drop_map}
use hj.Mm.Vm.View.{Seen, view, Inside, Outside, seen, side_cases, held, times, times_paged}
use hj.Mm.Vm.View.Trim.{Clear, Trims}

-- The machine with other memory and another list of free pages.
abbrev pub with_free : Machine → Memory → List Ppn → Machine
with_free m mem free = record m {
  allocator = record m.allocator { recycled_ppn = free };
  memory = mem;
}

abbrev pub free_of : Machine → List Ppn
free_of m = m.allocator.recycled_ppn

-- The drop of a map makes its pages free, and changes nothing else.
pub drop_map-free :
    (pages : PageMap) (m : Machine)
    → (free : List Ppn) × (drop_map pages m ≡ with_free m m.memory free)
      × ((p : Ppn) → times p free ≡ times p (free_of m) + times_paged p pages)
unfolding drop_map drop_pages drop_page dealloc times times_paged
drop_map-free [] m = (free_of m, refl, λ p. omega arith)
drop_map-free ((k, page) ∷ rest) m =
    let (free, same, sum) =
      drop_map-free rest (with_free m m.memory (page_get_ppn page ∷ free_of m)) in
    (free, same, λ p. omega (arith, sum p))

module _ (ρ : Roles) (root s e stop : ℕ) where
  -- The page is in the range and was in an area: now it is in no area and not mapped.
  pub record Removed (u : Vpn) (m : Machine) (areas : List VmArea) (m' : Machine)
      (areas' : List VmArea) : Type 0 where
    pub from : s ≤ u
    pub below : u < e
    pub before : (x : Seen) × (view areas u ≡ some x)
    pub after : view areas' u ≡ none
    pub unmapped : walk m'.memory root u ≡ none

  abbrev pub Same : Vpn → Machine → List VmArea → Machine → List VmArea → Type 0
  Same u m areas m' areas' =
      (view areas' u ≡ view areas u) × (walk m'.memory root u ≡ walk m.memory root u)

  pub record Cut (m : Machine) (areas : List VmArea) (m' : Machine) (areas' : List VmArea)
      : Type 0 where
    pub tree : IsTree ρ m'.memory root
    pub stops : Stops root e stop m'.memory
    pub disjoint : Disjoint areas'
    pub pages : (u : Vpn) → u < 2 ^ 27 → Same u m areas m' areas' ⊎ Removed u m areas m' areas'
    -- The range does not reach page numbers of more than 27 bits.
    pub high : (u : Vpn) → 2 ^ 27 ≤ u → view areas' u ≡ view areas u
    -- No page is lost or in two places: what the areas no longer hold is free.
    pub balance :
        (p : Ppn) → times p (free_of m') + held p areas' ≡ times p (free_of m) + held p areas
    pub more : (p : Ppn) → times p (free_of m) ≤ times p (free_of m')
    pub others : m' ≡ with_free m m'.memory (free_of m')

  pub Cut-refl :
      (m : Machine) (areas : List VmArea)
      → IsTree ρ m.memory root
      → Stops root e stop m.memory
      → Disjoint areas
      → Cut m areas m areas
  Cut-refl m areas tree stops d = record {
    tree = tree;
    stops = stops;
    disjoint = d;
    pages = λ u h. inl (refl, refl);
    high = λ u h. refl;
    balance = λ p. refl;
    more = λ p. omega arith;
    others = refl;
  }

  pub Cut-trans :
      {m m1 m2 : Machine} {areas areas1 areas2 : List VmArea}
      → Cut m areas m1 areas1
      → Cut m1 areas1 m2 areas2
      → Cut m areas m2 areas2
  Cut-trans {m} {m1} {m2} {areas} {areas1} {areas2} f g = record {
    tree = g.tree;
    stops = g.stops;
    disjoint = g.disjoint;
    pages = λ u h. elim (f.pages u h) [
      | inl (fv, fw) ↦ elim (g.pages u h) [
        | inl (gv, gw) ↦ inl (gv ∙ fv, gw ∙ fw)
        | inr r ↦ inr (record {
          from = r.from;
          below = r.below;
          before = (r.before.0, sym fv ∙ r.before.1);
          after = r.after;
          unmapped = r.unmapped;
        })
      ]
      | inr r ↦ inr (record {
        from = r.from;
        below = r.below;
        before = r.before;
        after = elim (g.pages u h) [ inl (gv, gw) ↦ gv ∙ r.after | inr r' ↦ r'.after ];
        unmapped = elim (g.pages u h) [ inl (gv, gw) ↦ gw ∙ r.unmapped | inr r' ↦ r'.unmapped ];
      })
    ];
    high = λ u h. g.high u h ∙ f.high u h;
    balance = λ p. g.balance p ∙ f.balance p;
    more = λ p. omega (arith, f.more p, g.more p);
    others = g.others ∙ ap (λ x. with_free x m2.memory (free_of m2)) f.others;
  }

  -- One area is trimmed, and its pages in the range are unmapped.
  pub Cut-Clears :
      {m m' : Machine} {areas areas' : List VmArea} (a : VmArea) (lo hi : ℕ)
      → IsTree ρ m.memory root
      → Stops root e stop m.memory
      → hi ≤ e
      → ((u : Vpn) → Inside a u → s ≤ u → u < e → (lo ≤ u) × (u < hi))
      → ((u : Vpn) → lo ≤ u → u < hi → Inside a u × (s ≤ u))
      → Trims s e a areas areas'
      → Clears ρ root hi lo hi m.memory m'.memory
      → ((p : Ppn) → times p (free_of m') + held p areas' ≡ times p (free_of m) + held p areas)
      → ((p : Ppn) → times p (free_of m) ≤ times p (free_of m'))
      → m' ≡ with_free m m'.memory (free_of m')
      → Cut m areas m' areas'
  Cut-Clears {m} {m'} {areas} {areas'} a lo hi tree stops le into outof t c balance more others =
      record {
        tree = c.tree;
        stops =
            Stops-end stops.beyond
              (Stops-Clears lo hi tree c (Stops-end (omega (arith, le, stops.beyond)) stops));
        disjoint = t.disjoint;
        pages = pages;
        high = λ u h. t.kept u (inr (inr (omega (arith, h, stops.beyond, stops.bound))));
        balance = balance;
        more = more;
        others = others;
      }
    where
      range : (u : Vpn) → ((lo ≤ u) × (u < hi)) ⊎ ((u < lo) ⊎ (hi ≤ u))
      range u = elim (Bool-cases (leb lo u)) [
        | inl l ↦ elim (Bool-cases (ltb u hi)) [
          | inl b ↦ inl (ground arith, ground arith)
          | inr n ↦ inr (ground arith)
        ]
        | inr n ↦ inr (ground arith)
      ]

      away :
          (u : Vpn)
          → u < 2 ^ 27
          → (u < lo) ⊎ (hi ≤ u)
          → (u % 2 ^ 27 < lo) ⊎ (hi ≤ u % 2 ^ 27) ⊎ (hi ≤ u % 2 ^ 27)
      away u h n = ground (arith, h, n)

      spared : (u : Vpn) → (u < lo) ⊎ (hi ≤ u) → Outside a u ⊎ Clear s e u
      spared u n = elim (side_cases a u) [
        | inr o ↦ inl o
        | inl i ↦ elim (Bool-cases (leb s u)) [
          | inr before ↦ inr (ground arith)
          | inl l ↦ elim (Bool-cases (ltb u e)) [
            | inr after ↦ inr (ground arith)
            | inl b ↦
                let within = into u i (ground (arith, l)) (ground (arith, b)) in
                absurd (ground (arith, within, n))
          ]
        ]
      ]

      pages : (u : Vpn) → u < 2 ^ 27 → Same u m areas m' areas' ⊎ Removed u m areas m' areas'
      pages u h = elim (range u) [
        | inl (l, b) ↦
            let (i, f) = outof u l b in
            inr (record {
              from = f;
              below = omega (arith, le);
              before = (seen a u, t.there u i);
              after = t.gone u i f (omega (arith, le));
              unmapped = c.gone u (omega (arith, l, h)) (omega (arith, b, h)) (omega (arith, b, h));
            })
        | inr n ↦ inl (t.kept u (spared u n), c.others u (away u h n))
      ]
