-- ===== src/Mm/Vm/Unmap/Removes.antt =====
-- `VMSpace::unmap` of os/src/mm/vm.rs as a whole: the range is removed, and nothing else.
use hj.Base.{
  ℕ, zero, suc, ◌+◌, ◌%◌, ◌^◌, ltb, Bool-cases, ◌≤◌, ◌<◌, ◌≡◌, ◌⊎◌, inl, inr, refl, sym, ap, subst,
  ◌∙◌, true, none, some, List, [], ◌∷◌, ◌++◌, length, get_elem?, all, arith,
}
use hj.Outcome.Post.{Ends, Ends-ok, Ends-and_then, Ends-weaken}
use hj.Mm.{Vpn, Ppn}
use hj.Mm.PageAlloc.{Machine}
use hj.Mm.Sv39.Tree.{Roles, walk, IsTree}
use hj.Mm.Memory.{Memory}
use hj.Mm.Sv39.Unmap.Clear.{walk-SameFields}
use hj.Mm.Sv39.Unmap.Upper.{Stops}
use hj.Mm.Vm.{VmArea, VmSpace}
use hj.Mm.Vm.AddArea.{Disjoint}
use hj.Mm.Vm.Space.{no_overlap, unmap_area, unmap_below, unmap}
use hj.Mm.Vm.View.{Seen, view, view-Outside, held, times}
use hj.Mm.Vm.View.Order.{
  shift, append_nil, append_assoc, get_between, last_cases, Disjoint-Permᴰ, length-append,
}
use hj.Mm.Vm.View.Trim.{Clear}
use hj.Mm.Vm.Cut.{with_free, free_of, Cut, Cut-refl, Cut-trans}
use hj.Mm.Vm.Unmap.{Did, unmap_area-Did}

module _ (ρ : Roles) (s e stop : ℕ) where
  Did-trans :
      (m : Machine) (space : VmSpace) (m1 : Machine) (areas1 : List VmArea) (s' : Machine × VmSpace)
      → Cut ρ space.root_pgt.ppn s e stop m space.areas m1 areas1
      → Did ρ s e stop m1 (record space { areas = areas1 }) [] s'
      → Did ρ s e stop m space [] s'
  Did-trans m space m1 areas1 s' c d = record {
    cut = Cut-trans ρ space.root_pgt.ppn s e stop c d.cut;
    rest = d.rest;
    behind = d.behind;
    parts = d.parts;
    spared = d.spared;
  }

  unmap_below-Did :
      (n : ℕ) (m : Machine) (space : VmSpace) (before after : List VmArea)
      → s ≤ e
      → length before ≡ n
      → space.areas ≡ before ++ after
      → all (no_overlap s e) after ≡ true
      → IsTree ρ m.memory space.root_pgt.ppn
      → Stops space.root_pgt.ppn e stop m.memory
      → Disjoint space.areas
      → Ends ⊥ (λ done s'. Did ρ s e stop m space [] s') (unmap_below s e n (m, space))
  unfolding unmap_below
  unmap_below-Did zero m space [] after ordered count split clear tree stops d =
      Ends-ok _ _ _ (record {
        cut = Cut-refl ρ space.root_pgt.ppn s e stop m space.areas tree stops d;
        rest = refl;
        behind = after;
        parts = split;
        spared = clear;
      })
  unmap_below-Did zero m space (b ∷ bs) after ordered count split clear tree stops d =
      absurd (omega (arith, count))
  unmap_below-Did (suc n) m space before after ordered count split clear tree stops d =
      elim (last_cases before) [
        | inl e0 ↦ absurd (omega (arith, count, ap length e0))
        | inr (xs, a, e1) ↦
            let here : space.areas ≡ xs ++ a ∷ after =
              split ∙ ap (λ ys. ys ++ after) e1 ∙ append_assoc xs (a ∷ []) after in
            let index : length xs ≡ n =
              omega (arith, count, ap length e1, length-append xs (a ∷ [])) in
            let at_n : get_elem? space.areas n ≡ some a =
              subst (λ i. get_elem? space.areas i ≡ some a) index
                (ap (λ ys. get_elem? ys (length xs)) here ∙ get_between xs a after) in
            let filled : a.start_vpn < a.end_vpn =
              (Disjoint-Permᴰ (shift xs a after) (subst Disjoint here d)).0 in
            rw at_n (
              Ends-and_then ⊥ _ _ _ _
                (subst
                  (λ i.
                    Ends ⊥ (λ done s'. Did ρ s e stop m space xs s')
                      (unmap_area s e i a (m, space)))
                  index
                  (unmap_area-Did ρ s e stop m space a xs after tree stops d here clear ordered
                    filled))
                (λ done (m', space') did.
                  let areas' = space'.areas in
                  subst
                    (λ z.
                      Ends ⊥ (λ done s'. Did ρ s e stop m space [] s') (unmap_below s e n (m', z)))
                    (sym did.rest)
                    (Ends-weaken ⊥ ⊥ _ _ _ (λ no. no)
                      (λ done s' next. Did-trans m space m' areas' s' did.cut next)
                      (unmap_below-Did n m' (record space { areas = areas' }) xs did.behind ordered
                        index did.parts did.spared did.cut.tree did.cut.stops did.cut.disjoint))))
      ]

-- Areas that do not overlap the range contain none of its pages.
view_spared :
    (s e u : ℕ) (areas : List VmArea)
    → all (no_overlap s e) areas ≡ true
    → s ≤ u
    → u < e
    → view areas u ≡ none
unfolding view
view_spared s e u [] h l b = refl
view_spared s e u (a ∷ areas) h l b =
    view-Outside a areas u (ground arith) ∙ view_spared s e u areas (ground arith) l b

-- What is left of a space after the pages from `s` up to `e` were removed.
pub record Removes (ρ : Roles) (s e stop : Vpn) (m : Machine) (space : VmSpace)
    (s' : Machine × VmSpace) : Type 0 where
  -- No page of the range is in an area, and none that was in an area is mapped.
  pub inside : (u : Vpn) → s ≤ u → u < e → view s'.1.areas u ≡ none
  pub unmapped :
      (u : Vpn) (x : Seen)
      → s ≤ u
      → u < e
      → view space.areas u ≡ some x
      → walk s'.0.memory space.root_pgt.ppn u ≡ none
  -- The areas say the same of every page outside the range.
  pub kept : (u : Vpn) → Clear s e u → view s'.1.areas u ≡ view space.areas u
  -- The hardware's walk reads the low 27 bits of a page number. It is as before where they name a
  -- page outside the range, or one that was in no area: what mapped it stays.
  pub kept_walk :
      (u : Vpn)
      → Clear s e (u % 2 ^ 27) ⊎ (view space.areas (u % 2 ^ 27) ≡ none)
      → walk s'.0.memory space.root_pgt.ppn u ≡ walk m.memory space.root_pgt.ppn u
  -- A page that the areas no longer hold is free, once for each time it was held.
  pub balance :
      (p : Ppn)
      → times p (free_of s'.0) + held p s'.1.areas ≡ times p (free_of m) + held p space.areas
  pub more : (p : Ppn) → times p (free_of m) ≤ times p (free_of s'.0)
  pub stops : Stops space.root_pgt.ppn e stop s'.0.memory
  pub tree : IsTree ρ s'.0.memory space.root_pgt.ppn
  pub disjoint : Disjoint s'.1.areas
  pub others :
      (s'.0 ≡ with_free m s'.0.memory (free_of s'.0)) × (s'.1 ≡ record space { areas = s'.1.areas })

pub unmap-Removes :
    (ρ : Roles) (m : Machine) (space : VmSpace) (s e stop : ℕ)
    → s ≤ e
    → IsTree ρ m.memory space.root_pgt.ppn
    → Stops space.root_pgt.ppn e stop m.memory
    → Disjoint space.areas
    → Ends ⊥ (λ done s'. Removes ρ s e stop m space s') (unmap s e (m, space))
unfolding unmap
unmap-Removes ρ m space s e stop ordered tree stops d =
    Ends-weaken ⊥ ⊥ _ _ _ (λ no. no) (λ done s' did. removes s' did)
      (unmap_below-Did ρ s e stop (length space.areas) m space space.areas [] ordered refl
        (sym (append_nil space.areas)) refl tree stops d)
  where
    removes :
        (s' : Machine × VmSpace) → Did ρ s e stop m space [] s' → Removes ρ s e stop m space s'
    removes s' did = record {
      inside = inside;
      unmapped = λ u x l b v. elim (did.cut.pages u (small u b)) [
        | inl (same, walked) ↦ absurd (both (sym v ∙ sym same ∙ inside u l b))
        | inr r ↦ r.unmapped
      ];
      kept = kept;
      kept_walk = λ u c.
          walk_low s'.0.memory u
          ∙ elim (did.cut.pages (u % 2 ^ 27) (omega arith)) [
            | inl same ↦ same.1
            | inr r ↦ elim c [
              | inl clear ↦ absurd (ground (arith, clear, r.from, r.below))
              | inr nothing ↦ absurd (both (sym r.before.1 ∙ nothing))
            ]
          ]
          ∙ sym (walk_low m.memory u);
      balance = did.cut.balance;
      more = did.cut.more;
      stops = did.cut.stops;
      tree = did.cut.tree;
      disjoint = did.cut.disjoint;
      others = (did.cut.others, did.rest);
    }
      where
        both : {x : Seen} → ¬ (some x ≡ none)
        both z = absurd cc

        inside : (u : Vpn) → s ≤ u → u < e → view s'.1.areas u ≡ none
        inside u l b =
            view_spared s e u s'.1.areas
              (subst (λ xs. all (no_overlap s e) xs ≡ true) (sym did.parts) did.spared) l b

        walk_low :
            (mem : Memory) (u : Vpn)
            → walk mem space.root_pgt.ppn u ≡ walk mem space.root_pgt.ppn (u % 2 ^ 27)
        walk_low mem u =
            walk-SameFields mem space.root_pgt.ppn u (u % 2 ^ 27)
              (omega arith, omega arith, omega arith)

        kept : (u : Vpn) → Clear s e u → view s'.1.areas u ≡ view space.areas u
        kept u clear = elim (Bool-cases (ltb u (2 ^ 27))) [
          | inr h ↦ did.cut.high u (ground (arith, h))
          | inl h ↦ elim (did.cut.pages u (ground (arith, h))) [
            | inl same ↦ same.0
            | inr r ↦ absurd (ground (arith, clear, r.from, r.below))
          ]
        ]

        small : (u : Vpn) → u < e → u < 2 ^ 27
        small u b = omega (arith, stops.beyond, stops.bound)
