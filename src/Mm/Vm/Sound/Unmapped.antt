-- ===== src/Mm/Vm/Sound/Unmapped.antt =====
-- `VMSpace::unmap` of os/src/mm/vm.rs keeps the invariant of the space.
use hj.Base.{
  ℕ, ◌+◌, ◌%◌, ◌^◌, ◌≤◌, ◌<◌, ◌≡◌, ◌≢◌, ◌⊎◌, inl, inr, refl, sym, ap, ◌∙◌, subst, false, none, some,
  List, ltb, leb, arith, Bool-cases, Option-cases, if◌then◌else◌,
}
use hj.Outcome.Post.{Ends, Ends-weaken}
use hj.Mm.{Vpn, Ppn}
use hj.Mm.Memory.{Memory}
use hj.Mm.PageAlloc.{Machine}
use hj.Mm.Sv39.Tree.{unused, other, Roles, walk, IsFree, IsFresh}
use hj.Mm.Sv39.Unmap.Upper.{Stops-end}
use hj.Mm.Vm.{VmArea, VmSpace}
use hj.Mm.Vm.Space.{unmap}
use hj.Mm.Vm.View.{Seen, view, held, times}
use hj.Mm.Vm.View.Trim.{Clear}
use hj.Mm.Vm.Cut.{with_free, free_of}
use hj.Mm.Vm.Unmap.Removes.{Removes, unmap-Removes}
use hj.Mm.Vm.Sound.{shown, Agrees, Owned, Lawful, Sound}
use hj.Mm.Vm.Sound.Free.{Distinct-times, times-Distinct, AllFree-times, times-AllFree, lose-IsTree}

-- The pages that the areas no longer hold have no use.
abbrev pub freed : Roles → List VmArea → List VmArea → Roles
freed ρ areas areas' p = if ltb (held p areas') (held p areas) then unused else ρ p

module _ (ρ : Roles) (m : Machine) (areas : List VmArea) (free' : List Ppn) (areas' : List VmArea)
    (fresh : IsFresh ρ m.allocator) (owned : Owned ρ m areas)
    (balance : (p : Ppn) → times p free' + held p areas' ≡ times p (free_of m) + held p areas)
    (more : (p : Ppn) → times p (free_of m) ≤ times p free') where
  abbrev ρ' : Roles
  ρ' = freed ρ areas areas'

  not_other : {p : Ppn} → ρ p ≡ unused → ρ p ≢ other
  not_other {p} a b = absurd (ground (arith, a, b))

  -- A page that is held is not free.
  apart : (p : Ppn) → 1 ≤ held p areas → times p (free_of m) ≡ 0
  apart p h = elim (Bool-cases (leb 1 (times p (free_of m)))) [
    | inr none_free ↦ ground arith
    | inl one ↦
        let found =
          AllFree-times ρ m.allocator.next_unused_ppn p (free_of m) fresh.recycled (ground arith) in
        absurd (not_other found.0.0 (owned p h).0)
  ]

  once : (p : Ppn) → times p free' ≤ 1
  once p = elim (Bool-cases (leb 1 (held p areas))) [
    | inl some_held ↦
        let h : 1 ≤ held p areas = ground arith in
        omega (arith, apart p h, (owned p h).3, balance p)
    | inr none_held ↦
        let z : held p areas ≡ 0 = ground arith in
        omega (arith, z, balance p, Distinct-times p (free_of m) fresh.distinct)
  ]

  returned_page : (p : Ppn) → 1 ≤ times p free' → IsFree ρ' p × (p < m.allocator.next_unused_ppn)
  returned_page p h = elim (Bool-cases (ltb (held p areas') (held p areas))) [
    | inl less ↦ let own = owned p (ground arith) in rw less ((refl, own.2), own.1)
    | inr same ↦ rw same (
        AllFree-times ρ m.allocator.next_unused_ppn p (free_of m) fresh.recycled
          (ground (arith, balance p)))
  ]

  pub freed-lose : (p : Ppn) → (ρ' p ≡ ρ p) ⊎ ((ρ p ≡ other) × (ρ' p ≡ unused))
  freed-lose p = elim (Bool-cases (ltb (held p areas') (held p areas))) [
    | inl less ↦ rw less (inr ((owned p (ground arith)).0, refl))
    | inr same ↦ rw same (inl refl)
  ]

  pub freed-IsFresh : IsFresh ρ' (record m.allocator { recycled_ppn = free' })
  freed-IsFresh = record {
    recycled = times-AllFree ρ' m.allocator.next_unused_ppn free' returned_page;
    distinct = times-Distinct free' once;
    rest = λ p l h. elim (Bool-cases (ltb (held p areas') (held p areas))) [
      | inl less ↦ rw less refl
      | inr same ↦ rw same (fresh.rest p l h)
    ];
    bound = fresh.bound;
  }

  pub freed-Owned : (mem' : Memory) → Owned ρ' (with_free m mem' free') areas'
  freed-Owned mem' p h =
      let own = owned p (omega (arith, h, balance p, more p)) in
      let same : ltb (held p areas') (held p areas) ≡ false = ground (arith, h, own.3) in
      rw same (own.0, own.1, own.2, omega (arith, balance p, more p, own.3))

module _ (ρ : Roles) (s e : Vpn) (m : Machine) (space : VmSpace) (sound : Sound ρ (m, space))
    (s' : Machine × VmSpace) (r : Removes ρ s e sound.stop m space s') where
  kept_low :
      (u : Vpn)
      → u < 2 ^ 26
      → Clear s e u ⊎ (view space.areas u ≡ none)
      → walk s'.0.memory space.root_pgt.ppn u ≡ walk m.memory space.root_pgt.ppn u
  kept_low u h c =
      let low : u ≡ u % 2 ^ 27 = omega (arith, h) in
      r.kept_walk u (subst (λ v. Clear s e v ⊎ (view space.areas v ≡ none)) low c)

  removed_view :
      (u : Vpn)
      → u < 2 ^ 26
      → (view s'.1.areas u ≡ none) × (walk s'.0.memory space.root_pgt.ppn u ≡ none)
        ⊎ (view s'.1.areas u ≡ view space.areas u)
          × (walk s'.0.memory space.root_pgt.ppn u ≡ walk m.memory space.root_pgt.ppn u)
  removed_view u h = elim (Bool-cases (leb s u)) [
    | inr before ↦ clear (inl (ground arith))
    | inl from ↦ elim (Bool-cases (ltb u e)) [
      | inr after ↦ clear (inr (ground arith))
      | inl below ↦
          let gone = r.inside u (ground arith) (ground arith) in
          elim (Option-cases (view space.areas u)) [
            | inl nothing ↦ inr (gone ∙ sym nothing, kept_low u h (inr nothing))
            | inr (x, there) ↦ inl (gone, r.unmapped u x (ground arith) (ground arith) there)
          ]
    ]
  ]
    where
      clear :
          Clear s e u
          → (view s'.1.areas u ≡ none) × (walk s'.0.memory space.root_pgt.ppn u ≡ none)
            ⊎ (view s'.1.areas u ≡ view space.areas u)
              × (walk s'.0.memory space.root_pgt.ppn u ≡ walk m.memory space.root_pgt.ppn u)
      clear c = inr (r.kept u c, kept_low u h (inl c))

  removed-Agrees : Agrees s'.0.memory space.root_pgt.ppn s'.1.areas
  removed-Agrees u h = elim (removed_view u h) [
    | inl (v, w) ↦ w ∙ ap shown (sym v)
    | inr (v, w) ↦ w ∙ sound.agrees u h ∙ ap shown (sym v)
  ]

  removed-Lawful : Lawful s'.1.areas
  removed-Lawful u x h seen = elim (removed_view u h) [
    | inl (v, w) ↦ absurd (both (sym seen ∙ v))
    | inr (v, w) ↦ sound.lawful u x h (sym v ∙ seen)
  ]
    where
      both : {x : Seen} → ¬ (some x ≡ none)
      both z = absurd cc

  pub removed-Sound : Sound (freed ρ space.areas s'.1.areas) s'
  removed-Sound =
      let areas' = s'.1.areas in
      let free' = free_of s'.0 in
      let ρ' = freed ρ space.areas areas' in
      let lose =
        freed-lose ρ m space.areas free' areas' sound.inv.fresh sound.owned r.balance r.more in
      subst (Sound ρ')
        (ap (λ z. (z, record space { areas = areas' })) (sym r.others.0)
          ∙ ap (λ z. (s'.0, z)) (sym r.others.1))
        (record {
          inv = record {
            tree = lose-IsTree ρ ρ' s'.0.memory space.root_pgt.ppn lose r.tree;
            fresh =
                freed-IsFresh ρ m space.areas free' areas' sound.inv.fresh sound.owned r.balance
                  r.more;
          };
          disjoint = r.disjoint;
          agrees = removed-Agrees;
          owned =
              freed-Owned ρ m space.areas free' areas' sound.inv.fresh sound.owned r.balance r.more
                s'.0.memory;
          lawful = removed-Lawful;
          stop = sound.stop;
          stops = Stops-end sound.stops.beyond r.stops;
        })

pub unmap-Sound :
    (ρ : Roles) (m : Machine) (space : VmSpace) (s e : ℕ)
    → s ≤ e
    → e ≤ 2 ^ 26
    → Sound ρ (m, space)
    → Ends ⊥
        (λ done s'. Sound (freed ρ space.areas s'.1.areas) s' × (s'.1.root_pgt ≡ space.root_pgt))
        (unmap s e (m, space))
unmap-Sound ρ m space s e ordered user sound =
    Ends-weaken ⊥ ⊥ _ _ _ (λ no. no)
      (λ done s' r. (removed-Sound ρ s e m space sound s' r, ap (λ z. z.root_pgt) r.others.1))
      (unmap-Removes ρ m space s e sound.stop ordered sound.inv.tree
        (Stops-end (omega (arith, sound.stops.beyond)) sound.stops) sound.disjoint)
