-- ===== src/Mm/Vm/Sound/Added.antt =====
-- `VMSpace::add_new_area` of os/src/mm/vm.rs keeps the invariant of the space.
use hj.Base.{
  ℕ, ◌≡◌, ◌⊎◌, inl, inr, refl, sym, ap, ◌∙◌, subst, Option, none, some, List, [], ◌∷◌, ◌++◌, arith,
  Option-cases,
}
use hj.Outcome.{Outcome, ok, err, panic}
use hj.Mm.{Vpn, Ppn}
use hj.Mm.PageAlloc.{Machine}
use hj.Mm.Sv39.Tree.{Roles}
use hj.Mm.Vm.{VmArea, VmSpace, VmError, anonymous, area_new}
use hj.Mm.Vm.AddArea.{Disjoint, Allowed, Adds, add_new_area-Adds}
use hj.Mm.Vm.Pages.{lookup}
use hj.Mm.Vm.Space.{add_new_area}
use hj.Mm.Vm.View.{
  Seen, view, held, times_paged, side_cases, view-Inside, view-Outside, view-append_some,
  view-append_none,
}
use hj.Mm.Vm.View.Order.{held-append}
use hj.Mm.Vm.Sound.{shown, Sound}

module _ (ρ : Roles) (m : Machine) (space : VmSpace) (start end : Vpn) (permissions : ℕ)
    (sound : Sound ρ (m, space)) where
  abbrev added : VmArea
  added = area_new start end anonymous permissions

  abbrev areas' : List VmArea
  areas' = space.areas ++ added ∷ []

  -- A page that an old area contains, one that the new area contains, or one in no area.
  added_view :
      (u : Vpn)
      → (view areas' u ≡ view space.areas u)
        ⊎ (view space.areas u ≡ none) × (view areas' u ≡ some (anonymous, permissions, none))
  unfolding view area_new lookup
  added_view u = elim (Option-cases (view space.areas u)) [
    | inr (x, there) ↦ inl (view-append_some space.areas (added ∷ []) u there ∙ sym there)
    | inl nothing ↦ elim (side_cases added u) [
      | inl i ↦
          inr (
            nothing,
            view-append_none space.areas (added ∷ []) u nothing ∙ view-Inside added [] u i,
          )
      | inr o ↦ inl (
          view-append_none space.areas (added ∷ []) u nothing
          ∙ view-Outside added [] u o
          ∙ sym nothing)
    ]
  ]

  same_held : (p : Ppn) → held p areas' ≡ held p space.areas
  unfolding held area_new times_paged
  same_held p = omega (arith, held-append p space.areas (added ∷ []))

  pub added-Sound :
      Allowed permissions → Disjoint areas' → Sound ρ (m, record space { areas = areas' })
  added-Sound allowed apart = record {
    inv = sound.inv;
    disjoint = apart;
    agrees = λ u h. elim (added_view u) [
      | inl same ↦ sound.agrees u h ∙ ap shown (sym same)
      | inr (nothing, new) ↦ sound.agrees u h ∙ ap shown nothing ∙ ap shown (sym new)
    ];
    owned = λ p h.
        let own = sound.owned p (omega (arith, h, same_held p)) in
        (own.0, own.1, own.2, omega (arith, own.3, same_held p));
    lawful = λ u x h there. elim (added_view u) [
      | inl same ↦ sound.lawful u x h (sym same ∙ there)
      | inr (nothing, new) ↦ subst (λ o. Says o) (sym new ∙ there) (refl, allowed)
    ];
    stop = sound.stop;
    stops = sound.stops;
  }
    where
      Says : Option Seen → Type 0
      Says none = Unit {0}
      Says (some x) = (x.0 ≡ anonymous) × Allowed x.1

  -- Each outcome leaves a space with the invariant.
  abbrev pub Stays : Outcome (Machine × VmSpace) VmError (Unit {0}) → Type 0
  Stays (ok done s') = Sound ρ s'
  Stays (err e s') = Sound ρ s'
  Stays panic = ⊥

  pub add_new_area-Sound : Stays (add_new_area start end anonymous permissions (m, space))
  add_new_area-Sound =
      stays _ (add_new_area-Adds (m, space) start end anonymous permissions sound.disjoint)
    where
      stays :
          (o : Outcome (Machine × VmSpace) VmError (Unit {0}))
          → Adds (m, space) start end anonymous permissions o
          → Stays o
      stays (ok done s') h = subst (Sound ρ) (sym h.2) (added-Sound h.1 h.3)
      stays (err e s') h = subst (Sound ρ) (sym h.0) sound
      stays panic h = h
