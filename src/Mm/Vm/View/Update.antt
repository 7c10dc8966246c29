-- ===== src/Mm/Vm/View/Update.antt =====
-- A change of the pages of the area that `find_area_mut` of os/src/mm/vm.rs finds.
use mathlib.Core.Option
use hj.Base.{
  ℕ, ◌+◌, ◌≡◌, inl, inr, refl, sym, ap, ◌∙◌, subst, true, false, some, List, [], ◌∷◌, find, arith,
  Bool-cases,
}
use hj.Mm.{Vpn, Ppn}
use hj.Mm.Vm.{VmArea, contain_vpn}
use hj.Mm.Vm.AddArea.{Apart, Disjoint}
use hj.Mm.Vm.Pages.{PageMap, lookup}
use hj.Mm.Vm.Space.{update_area, with_pages}
use hj.Mm.Vm.View.{view, held, times_paged, side_cases, view-Inside, view-Outside}

module _ (vpn : Vpn) (f : PageMap → PageMap) where
  abbrev pub updated : List VmArea → List VmArea
  updated areas = update_area vpn (with_pages f) areas

  hit_lem :
      (a : VmArea) (areas : List VmArea)
      → contain_vpn a vpn ≡ true
      → updated (a ∷ areas) ≡ with_pages f a ∷ areas
  unfolding update_area
  hit_lem a areas h = rw (h, updated) refl

  miss_lem :
      (a : VmArea) (areas : List VmArea)
      → contain_vpn a vpn ≡ false
      → updated (a ∷ areas) ≡ a ∷ updated areas
  unfolding update_area
  miss_lem a areas h = rw (h, updated) refl

  Apart-updated : (b : VmArea) (areas : List VmArea) → Apart b areas → Apart b (updated areas)
  unfolding update_area
  Apart-updated b [] h = h
  Apart-updated b (a ∷ areas) h = elim (Bool-cases (contain_vpn a vpn)) [
    | inl hit ↦ subst (Apart b) (sym (hit_lem a areas hit)) (h.0, h.1)
    | inr miss ↦ subst (Apart b) (sym (miss_lem a areas miss)) (h.0, Apart-updated b areas h.1)
  ]

  Apart-with_pages :
      (a : VmArea) (areas : List VmArea) → Apart a areas → Apart (with_pages f a) areas
  Apart-with_pages a [] h = h
  Apart-with_pages a (b ∷ areas) h = (h.0, Apart-with_pages a areas h.1)

  pub updated-Disjoint : (areas : List VmArea) → Disjoint areas → Disjoint (updated areas)
  unfolding update_area
  updated-Disjoint [] d = d
  updated-Disjoint (a ∷ areas) d = elim (Bool-cases (contain_vpn a vpn)) [
    | inl hit ↦ subst Disjoint (sym (hit_lem a areas hit)) (d.0, Apart-with_pages a areas d.1, d.2)
    | inr miss ↦
        subst Disjoint (sym (miss_lem a areas miss))
          (d.0, Apart-updated a areas d.1, updated-Disjoint areas d.2)
  ]

  -- A page whose entry in the map stays the same.
  pub view-updated_ne :
      (u : Vpn)
      → ((pages : PageMap) → lookup u (f pages) ≡ lookup u pages)
      → (areas : List VmArea) → view (updated areas) u ≡ view areas u
  unfolding update_area
  view-updated_ne u same [] = refl
  view-updated_ne u same (a ∷ areas) = elim (Bool-cases (contain_vpn a vpn)) [
    | inl hit ↦ ap (λ xs. view xs u) (hit_lem a areas hit) ∙ (elim (side_cases a u) [
      | inl i ↦
          view-Inside (with_pages f a) areas u i
          ∙ ap (λ page. some (a.map_type, a.permissions, page)) (same a.pages)
          ∙ sym (view-Inside a areas u i)
      | inr o ↦ view-Outside (with_pages f a) areas u o ∙ sym (view-Outside a areas u o)
    ])
    | inr miss ↦ ap (λ xs. view xs u) (miss_lem a areas miss) ∙ (elim (side_cases a u) [
      | inl i ↦ view-Inside a (updated areas) u i ∙ sym (view-Inside a areas u i)
      | inr o ↦
          view-Outside a (updated areas) u o
          ∙ view-updated_ne u same areas
          ∙ sym (view-Outside a areas u o)
    ])
  ]

  -- What holds of the found area, by its equation or by that of the rest.
  pub view-updated :
      (areas : List VmArea) (area : VmArea)
      → find (λ a. contain_vpn a vpn) areas ≡ some area
      → view (updated areas) vpn ≡ some (area.map_type, area.permissions, lookup vpn (f area.pages))
  unfolding view contain_vpn
  view-updated [] area e = absurd cc
  view-updated (a ∷ areas) area e = elim (Bool-cases (contain_vpn a vpn)) [
    | inl hit ↦
        let same : a ≡ area = Option.some-injective a area (rw hit at e) in
        ap (λ xs. view xs vpn) (hit_lem a areas hit)
        ∙ found (with_pages f a) areas hit
        ∙ ap (λ z. some (z.map_type, z.permissions, lookup vpn (f z.pages))) same
    | inr miss ↦
        ap (λ xs. view xs vpn) (miss_lem a areas miss)
        ∙ passed a (updated areas) miss
        ∙ view-updated areas area (rw miss at e)
  ]
    where
      found :
          (b : VmArea) (bs : List VmArea)
          → contain_vpn b vpn ≡ true
          → view (b ∷ bs) vpn ≡ some (b.map_type, b.permissions, lookup vpn b.pages)
      found b bs h = rw (view, h) refl

      passed :
          (b : VmArea) (bs : List VmArea)
          → contain_vpn b vpn ≡ false
          → view (b ∷ bs) vpn ≡ view bs vpn
      passed b bs h = rw (view, h) refl

  pub held-updated :
      (p : Ppn) (n : ℕ) (areas : List VmArea) (area : VmArea)
      → find (λ a. contain_vpn a vpn) areas ≡ some area
      → times_paged p (f area.pages) ≡ n + times_paged p area.pages
      → held p (updated areas) ≡ n + held p areas
  unfolding held
  held-updated p n [] area e h = absurd cc
  held-updated p n (a ∷ areas) area e h = elim (Bool-cases (contain_vpn a vpn)) [
    | inl hit ↦
        let same : a ≡ area = Option.some-injective a area (rw hit at e) in
        omega (
          arith,
          ap (held p) (hit_lem a areas hit),
          h,
          ap (λ z. times_paged p (f z.pages)) same,
          ap (λ z. times_paged p z.pages) same,
        )
    | inr miss ↦
        omega
          (arith, ap (held p) (miss_lem a areas miss), held-updated p n areas area (rw miss at e) h)
  ]

-- A change that is taken back.
pub updated-updated :
    (vpn : Vpn) (f g : PageMap → PageMap) (areas : List VmArea) (area : VmArea)
    → find (λ a. contain_vpn a vpn) areas ≡ some area
    → g (f area.pages) ≡ area.pages
    → updated vpn g (updated vpn f areas) ≡ areas
unfolding contain_vpn
updated-updated vpn f g [] area e h = absurd cc
updated-updated vpn f g (a ∷ areas) area e h = elim (Bool-cases (contain_vpn a vpn)) [
  | inl hit ↦
      let same : a ≡ area = Option.some-injective a area (rw hit at e) in
      ap (updated vpn g) (hit_lem vpn f a areas hit)
      ∙ hit_lem vpn g (with_pages f a) areas hit
      ∙ ap (λ pages. record a { pages = pages } ∷ areas)
          (ap (λ z. g (f z.pages)) same ∙ h ∙ sym (ap (λ z. z.pages) same))
  | inr miss ↦
      ap (updated vpn g) (miss_lem vpn f a areas miss)
      ∙ miss_lem vpn g a (updated vpn f areas) miss
      ∙ ap (λ xs. a ∷ xs) (updated-updated vpn f g areas area (rw miss at e) h)
]
