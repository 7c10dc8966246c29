-- ===== src/Mm/Vm/View.antt =====
-- What the areas of a `VMSpace` say of a page, whatever the order of the areas.
pub mod Order
pub mod Trim
pub mod Pieces
pub mod Left
pub mod Fill
pub mod Update
use mathlib.Core.List.{Permᴰ}
use package.hj.Base.{
  ℕ, ◌+◌, ◌≤◌, ◌<◌, ◌≡◌, ◌⊎◌, inl, inr, refl, sym, ap, ◌∙◌, Bool, true, false, Option, none, some,
  List, [], ◌∷◌, ◌++◌, ltb, leb, ◌==◌, if◌then◌else◌, keep, arith, Bool-cases,
}
use package.hj.Mm.{Vpn, Ppn}
use package.hj.Mm.PageAlloc.{Page, page_get_ppn, Machine}
use package.hj.Mm.Vm.{MapType, VmArea, contain_vpn}
use package.hj.Mm.Vm.Pages.{PageMap, lookup}
use package.hj.Mm.Vm.AddArea.{Apart, Disjoint}

-- How a page is mapped, with which permissions, and to which page of its own, if it has one yet.
abbrev pub Seen : Type 0
Seen = MapType × ℕ × Option Page

abbrev pub seen : VmArea → Vpn → Seen
seen area u = (area.map_type, area.permissions, lookup u area.pages)

-- What the first area that contains the page says.
unfoldable pub view : List VmArea → Vpn → Option Seen
view [] u = none
view (area ∷ areas) u = if contain_vpn area u then some (seen area u) else view areas u

abbrev pub Inside : VmArea → Vpn → Type 0
Inside area u = (area.start_vpn ≤ u) × (u < area.end_vpn)

abbrev pub Outside : VmArea → Vpn → Type 0
Outside area u = (u < area.start_vpn) ⊎ (area.end_vpn ≤ u)

pub side_cases : (a : VmArea) (u : Vpn) → Inside a u ⊎ Outside a u
unfolding contain_vpn
side_cases a u = elim (Bool-cases (contain_vpn a u)) [
  | inl inside ↦ inl (ground arith, ground arith)
  | inr outside ↦ inr (ground arith)
]

pub view-Inside :
    (a : VmArea) (areas : List VmArea) (u : Vpn) → Inside a u → view (a ∷ areas) u ≡ some (seen a u)
unfolding view contain_vpn
view-Inside a areas u h =
    let lower : leb a.start_vpn u ≡ true = ground (arith, h.0) in
    let upper : ltb u a.end_vpn ≡ true = ground (arith, h.1) in rw (lower, upper) refl

pub view-Outside :
    (a : VmArea) (areas : List VmArea) (u : Vpn) → Outside a u → view (a ∷ areas) u ≡ view areas u
unfolding view contain_vpn
view-Outside a areas u h = let no : contain_vpn a u ≡ false = ground (arith, h) in rw no refl

pub view-Apart :
    (a : VmArea) (areas : List VmArea) (u : Vpn) → Apart a areas → Inside a u → view areas u ≡ none
unfolding view
view-Apart a [] u h i = refl
view-Apart a (b ∷ bs) u h i = view-Outside b bs u (ground (arith, h.0, i)) ∙ view-Apart a bs u h.1 i

-- The views of two lists of areas, the one after the other.
pub view-append_some :
    (xs ys : List VmArea) (u : Vpn) {x : Seen} → view xs u ≡ some x → view (xs ++ ys) u ≡ some x
unfolding view
view-append_some [] ys u e = absurd cc
view-append_some (a ∷ xs) ys u e = elim (side_cases a u) [
  | inl i ↦ view-Inside a (xs ++ ys) u i ∙ sym (view-Inside a xs u i) ∙ e
  | inr o ↦
      view-Outside a (xs ++ ys) u o ∙ view-append_some xs ys u (sym (view-Outside a xs u o) ∙ e)
]

pub view-append_none :
    (xs ys : List VmArea) (u : Vpn) → view xs u ≡ none → view (xs ++ ys) u ≡ view ys u
unfolding view
view-append_none [] ys u e = refl
view-append_none (a ∷ xs) ys u e = elim (side_cases a u) [
  | inl i ↦ absurd (both (sym (view-Inside a xs u i) ∙ e))
  | inr o ↦
      view-Outside a (xs ++ ys) u o ∙ view-append_none xs ys u (sym (view-Outside a xs u o) ∙ e)
]
  where
    both : {x : Seen} → ¬ (some x ≡ none)
    both z = absurd cc

-- How often a page's number stands in a list of numbers, and among the pages of the areas.
unfoldable pub times : Ppn → List Ppn → ℕ
times p [] = 0
times p (q ∷ qs) = (if q == p then 1 else 0) + times p qs

unfoldable pub times_paged : Ppn → PageMap → ℕ
times_paged p [] = 0
times_paged p ((k, page) ∷ rest) = (if page_get_ppn page == p then 1 else 0) + times_paged p rest

unfoldable pub held : Ppn → List VmArea → ℕ
held p [] = 0
held p (area ∷ areas) = times_paged p area.pages + held p areas
