-- ===== src/Mm/Vm/Unmap.antt =====
-- `VMSpace::unmap` of os/src/mm/vm.rs: what it does to the areas, the page table and the free pages.
pub mod Removes
use mathlib.Core.List.{Permᴰ}
use mathlib.Core.List.Permᴰ
use package.hj.Base.{
  Bool, ℕ, zero, suc, ◌+◌, ◌^◌, ◌≤◌, ◌<◌, ◌≡◌, ◌⊎◌, inl, inr, refl, sym, ap, subst, ◌∙◌, true,
  false, Option, none, some, List, [], ◌∷◌, ◌++◌, ◌&&◌, ltb, leb, length, get_elem?, set,
  swap_remove, all, arith, Bool-cases, if◌then◌else◌,
}
use package.hj.Outcome.{Outcome, ok, err, panic, and_then, outcome_map_err, put_back}
use package.hj.Outcome.Post.{Ends, Ends-ok, Ends-and_then, Ends-weaken, Ends-if}
use package.hj.Mm.{Vpn, Ppn}
use package.hj.Mm.Memory.{Memory}
use package.hj.Mm.PageAlloc.{PageAllocator, Machine}
use package.hj.Mm.Sv39.{RootPgt, PgtError}
use package.hj.Mm.Sv39.Tree.{Roles, walk, IsTree}
use package.hj.Mm.Sv39.Unmap
use package.hj.Mm.Sv39.Unmap.Clear.{Clears}
use package.hj.Mm.Sv39.Unmap.Upper.{Stops, Stops-end}
use package.hj.Mm.Sv39.Unmap.Range.{unmap_tree}
use package.hj.Mm.Vm.{VmArea, VmSpace, VmError}
use package.hj.Mm.Vm.AddArea.{Disjoint}
use package.hj.Mm.Vm.Pages.{PageMap, split_off, drop_map, drop_area}
use package.hj.Mm.Vm.Space.{
  on_root_pgt, unmap_pages, no_overlap, remove_whole, remove_front, remove_back, remove_middle,
  unmap_area, unmap_below, unmap,
}
use package.hj.Mm.Vm.View.{Seen, view, Inside, Outside, held, times, times_paged}
use package.hj.Mm.Vm.View.Order.{
  shift, behind, snoc, append_nil, append_assoc, get_between, set_between, last_cases,
  swap_remove_last, swap_remove_between, all-Permᴰ, held-Permᴰ, held-append,
}
use package.hj.Mm.Vm.View.Trim.{Trimmed, Trims-Trimmed, times_paged-split_off}
use package.hj.Mm.Vm.View.Pieces.{
  upper_piece, lower_piece, whole-Trimmed, front-Trimmed, back-Trimmed, middle-Trimmed,
}
use package.hj.Mm.Vm.View.Left.{Left, whole_left, set_left, push_left}
use package.hj.Mm.Vm.Cut.{with_free, free_of, drop_map-free, Cut, Cut-refl, Cut-trans, Cut-Clears}

-- What an outcome of the page table's method becomes for the space.
lifted :
    (P : Machine × RootPgt → Type 0) (space : VmSpace) (f : PgtError → VmError)
    (o : Outcome (Machine × RootPgt) PgtError (Unit {0}))
    → Ends ⊥ (λ done s'. P s') o
    → Ends ⊥
        (λ done s'. (root : RootPgt) × (s'.1 ≡ record space { root_pgt = root }) × P (s'.0, root))
        (outcome_map_err f (put_back (λ root space. record space { root_pgt = root }) space o))
unfolding Ends
lifted P space f (ok done (m, root)) h = (root, refl, h)
lifted P space f (err e s) h = h
lifted P space f panic h = h

unmap_pages-Clears :
    (ρ : Roles) (m : Machine) (space : VmSpace) (area : VmArea) (lo hi stop : ℕ)
    → IsTree ρ m.memory space.root_pgt.ppn
    → Stops space.root_pgt.ppn hi stop m.memory
    → Ends ⊥
        (λ done s'.
          (mem' : Memory) × (s' ≡ (record m { memory = mem' }, space))
          × Clears ρ space.root_pgt.ppn hi lo hi m.memory mem')
        (unmap_pages area lo hi (m, space))
unfolding unmap_pages on_root_pgt
unmap_pages-Clears ρ m space area lo hi stop tree stops =
    Ends-weaken ⊥ ⊥ _ _ _ (λ no. no)
      (λ done (m', space') (root, same, (mem', e, c)).
        (mem', ap (λ z. (m', z)) same ∙ ap (λ r. (r.0, record space { root_pgt = r.1 })) e, c))
      (lifted _ space _ _ (unmap_tree ρ m space.root_pgt lo hi stop tree stops))

module _ (ρ : Roles) (s e stop : ℕ) (m : Machine) (space : VmSpace) where
  -- After the areas behind `before` were dealt with.
  pub record Did (before : List VmArea) (s' : Machine × VmSpace) : Type 0 where
    pub cut : Cut ρ space.root_pgt.ppn s e stop m space.areas s'.0 s'.1.areas
    pub rest : s'.1 ≡ record space { areas = s'.1.areas }
    pub behind : List VmArea
    pub parts : s'.1.areas ≡ before ++ behind
    pub spared : all (no_overlap s e) behind ≡ true

  abbrev root : ℕ
  root = space.root_pgt.ppn

  module _ (a : VmArea) (before after : List VmArea) (tree : IsTree ρ m.memory root)
      (stops : Stops root e stop m.memory) (d : Disjoint space.areas)
      (split : space.areas ≡ before ++ a ∷ after) (clear : all (no_overlap s e) after ≡ true) where
    balance :
        (dropped : PageMap) (ps areas' : List VmArea) (p : Ppn)
        → times_paged p dropped + held p ps ≡ times_paged p a.pages
        → Permᴰ (ps ++ (before ++ after)) areas'
        → times_paged p dropped + held p areas' ≡ held p space.areas
    unfolding held
    balance dropped ps areas' p share perm = omega (
      arith,
      share,
      held-Permᴰ p perm,
      held-append p ps (before ++ after),
      ap (held p) split,
      held-Permᴰ p (shift before a after),
    )

    trimmed :
        (lo hi : ℕ) (mem' : Memory) (dropped : PageMap) (ps areas' : List VmArea)
        → hi ≤ e
        → ((u : Vpn) → Inside a u → s ≤ u → u < e → (lo ≤ u) × (u < hi))
        → ((u : Vpn) → lo ≤ u → u < hi → Inside a u × (s ≤ u))
        → Clears ρ root hi lo hi m.memory mem'
        → Trimmed s e a ps
        → ((p : Ppn) → times_paged p dropped + held p ps ≡ times_paged p a.pages)
        → Left s e a before after space.areas split clear ps areas'
        → Did before
            (drop_map dropped (record m { memory = mem' }), record space { areas = areas' })
    trimmed lo hi mem' dropped ps areas' le into outof c t share left =
        let (free, same, sum) = drop_map-free dropped (record m { memory = mem' }) in
        subst (λ m'. Did before (m', record space { areas = areas' })) (sym same)
          (record {
            cut =
                Cut-Clears ρ root s e stop a lo hi tree stops le into outof
                  (Trims-Trimmed s e a ps (before ++ after) space.areas areas' t d
                    (subst (λ xs. Permᴰ xs (a ∷ before ++ after)) (sym split)
                      (shift before a after))
                    left.perm)
                  c (λ p. omega (arith, sum p, balance dropped ps areas' p (share p) left.perm))
                  (λ p. omega (arith, sum p)) refl;
            rest = refl;
            behind = left.behind;
            parts = left.parts;
            spared = left.spared;
          })

    -- The rest of a case, after its call of the page table.
    finish :
        (lo hi : ℕ) (k : Machine × VmSpace → Machine × VmSpace)
        → hi ≤ e
        → ((mem' : Memory)
            → Clears ρ root hi lo hi m.memory mem'
            → Did before (k (record m { memory = mem' }, space)))
        → Ends ⊥
            (λ done s'. Did before s')
            (and_then (unmap_pages a lo hi (m, space)) (λ done s'. ok tt (k s')))
    finish lo hi k le next =
        Ends-and_then ⊥ _ _ _ _
          (unmap_pages-Clears ρ m space a lo hi stop tree
            (Stops-end (omega (arith, le, stops.beyond)) stops))
          (λ done s' (mem', same, c).
            Ends-ok _ _ _ (subst (λ s'. Did before (k s')) (sym same) (next mem' c)))

    -- The four cases of the overlap.
    remove_whole-Did :
        s ≤ a.start_vpn
        → a.end_vpn ≤ e
        → Ends ⊥ (λ done s'. Did before s') (remove_whole s e (length before) a (m, space))
    unfolding remove_whole held
    remove_whole-Did l h =
        finish a.start_vpn a.end_vpn
          (λ s'. (drop_area a s'.0, record s'.1 { areas = swap_remove (length before) s'.1.areas }))
          h
          (λ mem' c.
            trimmed a.start_vpn a.end_vpn mem' a.pages [] (swap_remove (length before) space.areas)
              h (λ u i f g. i) (λ u f g. ((f, g), omega (arith, l, f))) c (whole-Trimmed a s e l h)
              (λ p. omega arith) (whole_left s e a before after space.areas split clear))

    remove_front-Did :
        s ≤ a.start_vpn
        → a.start_vpn < e
        → e < a.end_vpn
        → Ends ⊥ (λ done s'. Did before s') (remove_front s e (length before) a (m, space))
    unfolding remove_front held
    remove_front-Did l b h =
        let piece = upper_piece a e (split_off e a.pages).1 in
        finish a.start_vpn e
          (λ s'. (
            drop_map (split_off e a.pages).0 s'.0,
            record s'.1 { areas = set s'.1.areas (length before) piece },
          ))
          (omega arith)
          (λ mem' c.
            trimmed a.start_vpn e mem' (split_off e a.pages).0 (piece ∷ [])
              (set space.areas (length before) piece) (omega arith) (λ u i f g. (i.0, g))
              (λ u f g. ((f, omega (arith, g, h)), omega (arith, l, f))) c
              (front-Trimmed a s e l b h) (λ p. omega (arith, times_paged-split_off p e a.pages))
              (set_left s e a before after space.areas split clear piece (ground arith)))

    remove_back-Did :
        a.start_vpn < s
        → s < a.end_vpn
        → a.end_vpn ≤ e
        → Ends ⊥ (λ done s'. Did before s') (remove_back s e (length before) a (m, space))
    unfolding remove_back held
    remove_back-Did l b h =
        let piece = lower_piece a s (split_off s a.pages).0 in
        finish s a.end_vpn
          (λ s'. (
            drop_map (split_off s a.pages).1 s'.0,
            record s'.1 { areas = set s'.1.areas (length before) piece },
          ))
          h
          (λ mem' c.
            trimmed s a.end_vpn mem' (split_off s a.pages).1 (piece ∷ [])
              (set space.areas (length before) piece) h (λ u i f g. (f, i.1))
              (λ u f g. ((omega (arith, l, f), g), f)) c (back-Trimmed a s e l b h)
              (λ p. omega (arith, times_paged-split_off p s a.pages))
              (set_left s e a before after space.areas split clear piece (ground arith)))

    remove_middle-Did :
        a.start_vpn < s
        → s ≤ e
        → e < a.end_vpn
        → Ends ⊥ (λ done s'. Did before s') (remove_middle s e (length before) a (m, space))
    unfolding remove_middle held
    remove_middle-Did l b h =
        let upper = (split_off s a.pages).1 in
        let lower_area = lower_piece a s (split_off s a.pages).0 in
        let upper_area = upper_piece a e (split_off e upper).1 in
        finish s e
          (λ s'. (
            drop_map (split_off e upper).0 s'.0,
            record s'.1 { areas = set s'.1.areas (length before) lower_area ++ upper_area ∷ [] },
          ))
          (omega arith)
          (λ mem' c.
            trimmed s e mem' (split_off e upper).0 (lower_area ∷ upper_area ∷ [])
              (set space.areas (length before) lower_area ++ upper_area ∷ []) (omega arith)
              (λ u i f g. (f, g)) (λ u f g. ((omega (arith, l, f), omega (arith, g, h)), f)) c
              (middle-Trimmed a s e l b h)
              (λ p.
                omega (arith, times_paged-split_off p s a.pages, times_paged-split_off p e upper))
              (push_left s e a before after space.areas split clear lower_area upper_area
                (ground arith) (ground arith)))

    -- The body of the loop.
    pub unmap_area-Did :
        s ≤ e
        → a.start_vpn < a.end_vpn
        → Ends ⊥ (λ done s'. Did before s') (unmap_area s e (length before) a (m, space))
    unfolding unmap_area
    unmap_area-Did ordered filled =
        Ends-if _ _ (no_overlap s e a) _ _ (m, space)
          (λ apart. Ends-ok _ _ _ (record {
            cut = Cut-refl ρ root s e stop m space.areas tree stops d;
            rest = refl;
            behind = a ∷ after;
            parts = split;
            spared = ground (arith, apart, clear);
          }))
          (λ overlap.
            Ends-if _ _ (leb s a.start_vpn && leb a.end_vpn e) _ _ (m, space)
              (λ whole. remove_whole-Did (ground arith) (ground arith))
              (λ part.
                Ends-if _ _ (leb s a.start_vpn) _ _ (m, space)
                  (λ front. remove_front-Did (ground arith) (ground arith) (ground arith))
                  (λ later.
                    Ends-if _ _ (leb a.end_vpn e) _ _ (m, space)
                      (λ back. remove_back-Did (ground arith) (ground arith) (ground arith))
                      (λ middle. remove_middle-Did (ground arith) ordered (ground arith)))))
