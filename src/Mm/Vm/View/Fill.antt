-- ===== src/Mm/Vm/View/Fill.antt =====
-- A page put into the area that contains it, as `VMSpace::map` of os/src/mm/vm.rs does.
use mathlib.Core.Option
use hj.Base.{
  ◌+◌, ◌≡◌, ◌≢◌, inl, inr, refl, ap, true, false, none, some, List, [], ◌∷◌, ltb, ◌==◌, find, arith,
  Bool-cases, ==→≡, ==→≢, if◌then◌else◌,
}
use hj.Mm.{Vpn, Ppn}
use hj.Mm.PageAlloc.{Page, page_get_ppn}
use hj.Mm.Vm.{VmArea, contain_vpn}
use hj.Mm.Vm.Pages.{PageMap, insert, lookup, remove}
use hj.Mm.Vm.View.{seen, view, times_paged}

-- The area that `find_area_mut` finds is the one that the view shows.
pub find-view :
    (vpn : Vpn) (areas : List VmArea) (area : VmArea)
    → find (λ a. contain_vpn a vpn) areas ≡ some area
    → view areas vpn ≡ some (seen area vpn)
unfolding view
find-view vpn [] area e = absurd cc
find-view vpn (a ∷ areas) area e = elim (Bool-cases (contain_vpn a vpn)) [
  | inl hit ↦
      let same : a ≡ area = Option.some-injective a area (rw hit at e) in
      rw hit (ap (λ z. some (seen z vpn)) same)
  | inr miss ↦ rw miss (find-view vpn areas area (rw miss at e))
]

pub find-view-none :
    (vpn : Vpn) (areas : List VmArea)
    → find (λ a. contain_vpn a vpn) areas ≡ none
    → view areas vpn ≡ none
unfolding view
find-view-none vpn [] e = refl
find-view-none vpn (a ∷ areas) e = elim (Bool-cases (contain_vpn a vpn)) [
  | inl hit ↦ absurd (both (rw hit at e))
  | inr miss ↦ rw miss (find-view-none vpn areas (rw miss at e))
]
  where
    both : ¬ (some a ≡ none)
    both z = absurd cc

-- The map after the insertion of a page that it does not hold.
module _ (vpn : Vpn) (page : Page) where
  some_not_none : {p : Page} → ¬ (some p ≡ none)
  some_not_none z = absurd cc

  abbrev pub inserted : PageMap → PageMap
  inserted pages = (insert vpn page pages).0

  pub insert-replaced :
      (pages : PageMap) → lookup vpn pages ≡ none → (insert vpn page pages).1 ≡ none
  unfolding insert lookup
  insert-replaced [] h = refl
  insert-replaced ((k, old) ∷ rest) h = elim (Bool-cases (vpn == k)) [
    | inl hit ↦ absurd (some_not_none (rw hit at h))
    | inr miss ↦ elim (Bool-cases (ltb vpn k)) [
      | inl before ↦ rw before refl
      | inr after ↦ rw (after, miss) (insert-replaced rest (rw miss at h))
    ]
  ]

  module _ (k : Vpn) (old : Page) (rest : PageMap) where
    before_lem : ltb vpn k ≡ true → inserted ((k, old) ∷ rest) ≡ (vpn, page) ∷ (k, old) ∷ rest
    unfolding insert
    before_lem h = rw (h, inserted) refl

    at_lem : ltb vpn k ≡ false → (vpn == k) ≡ true → inserted ((k, old) ∷ rest) ≡ (vpn, page) ∷ rest
    unfolding insert
    at_lem h e = rw (h, e, inserted) refl

    after_lem :
        ltb vpn k ≡ false
        → (vpn == k) ≡ false
        → inserted ((k, old) ∷ rest) ≡ (k, old) ∷ inserted rest
    unfolding insert
    after_lem h e = rw (h, e, inserted) refl

  pub lookup-inserted : (pages : PageMap) → lookup vpn (inserted pages) ≡ some page
  unfolding insert lookup
  lookup-inserted [] = let same : (vpn == vpn) ≡ true = ground arith in rw same refl
  lookup-inserted ((k, old) ∷ rest) =
      let same : (vpn == vpn) ≡ true = ground arith in
      elim (Bool-cases (ltb vpn k)) [
        | inl before ↦ rw (before_lem k old rest before) (rw same refl)
        | inr after ↦ elim (Bool-cases (vpn == k)) [
          | inl hit ↦ rw (at_lem k old rest after hit) (rw same refl)
          | inr miss ↦ rw (after_lem k old rest after miss) (rw miss (lookup-inserted rest))
        ]
      ]

  pub lookup-inserted_ne :
      (pages : PageMap) (u : Vpn) → u ≢ vpn → lookup u (inserted pages) ≡ lookup u pages
  unfolding insert lookup
  lookup-inserted_ne [] u ne = let miss : (u == vpn) ≡ false = ground (arith, ne) in rw miss refl
  lookup-inserted_ne ((k, old) ∷ rest) u ne =
      let apart : (u == vpn) ≡ false = ground (arith, ne) in
      elim (Bool-cases (ltb vpn k)) [
        | inl before ↦ rw (before_lem k old rest before) (rw apart refl)
        | inr after ↦ elim (Bool-cases (vpn == k)) [
          | inl hit ↦
              let other : (u == k) ≡ false = ground (arith, ne, ==→≡ vpn k hit) in
              rw (at_lem k old rest after hit) (rw (apart, other) refl)
          | inr miss ↦ rw (after_lem k old rest after miss) (elim (Bool-cases (u == k)) [
            | inl found ↦ rw found refl
            | inr lost ↦ rw lost (lookup-inserted_ne rest u ne)
          ])
        ]
      ]

  pub times_paged-inserted :
      (p : Ppn) (pages : PageMap)
      → lookup vpn pages ≡ none
      → times_paged p (inserted pages)
        ≡ (if page_get_ppn page == p then 1 else 0) + times_paged p pages
  unfolding insert lookup times_paged
  times_paged-inserted p [] h = refl
  times_paged-inserted p ((k, old) ∷ rest) h = elim (Bool-cases (vpn == k)) [
    | inl hit ↦ absurd (some_not_none (rw hit at h))
    | inr miss ↦ elim (Bool-cases (ltb vpn k)) [
      | inl before ↦ rw (before_lem k old rest before) refl
      | inr after ↦
          rw (after_lem k old rest after miss)
            (omega (arith, times_paged-inserted p rest (rw miss at h)))
    ]
  ]

  remove_absent : (pages : PageMap) → lookup vpn pages ≡ none → remove vpn pages ≡ pages
  unfolding lookup remove
  remove_absent [] h = refl
  remove_absent ((k, old) ∷ rest) h = elim (Bool-cases (vpn == k)) [
    | inl hit ↦ absurd (some_not_none (rw hit at h))
    | inr miss ↦
        let other : (k == vpn) ≡ false = ground (arith, ==→≢ vpn k miss) in
        rw other (ap (λ z. (k, old) ∷ z) (remove_absent rest (rw miss at h)))
  ]

  pub remove-inserted :
      (pages : PageMap) → lookup vpn pages ≡ none → remove vpn (inserted pages) ≡ pages
  unfolding insert lookup remove
  remove-inserted [] h = let same : (vpn == vpn) ≡ true = ground arith in rw same refl
  remove-inserted ((k, old) ∷ rest) h = elim (Bool-cases (vpn == k)) [
    | inl hit ↦ absurd (some_not_none (rw hit at h))
    | inr miss ↦
        let other : (k == vpn) ≡ false = ground (arith, ==→≢ vpn k miss) in
        let same : (vpn == vpn) ≡ true = ground arith in
        elim (Bool-cases (ltb vpn k)) [
          | inl before ↦
              rw (before_lem k old rest before)
                (rw (same, other) (ap (λ z. (k, old) ∷ z) (remove_absent rest (rw miss at h))))
          | inr after ↦
              rw (after_lem k old rest after miss)
                (rw other (ap (λ z. (k, old) ∷ z) (remove-inserted rest (rw miss at h))))
        ]
  ]
