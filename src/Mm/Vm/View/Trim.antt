-- ===== src/Mm/Vm/View/Trim.antt =====
-- What `VMSpace::unmap` leaves of one area: no piece, one, or two.
use mathlib.Core.List.{Permᴰ}
use hj.Base.{
  ◌+◌, ◌≤◌, ◌<◌, ◌≡◌, ◌⊎◌, inl, inr, refl, sym, ap, ◌∙◌, Bool, true, false, none, some, List, [],
  ◌∷◌, ◌++◌, ltb, leb, ◌==◌, keep, arith, Bool-cases, ==→≡,
}
use hj.Mm.{Vpn, Ppn}
use hj.Mm.Vm.{VmArea}
use hj.Mm.Vm.Pages.{PageMap, lookup, split_off}
use hj.Mm.Vm.AddArea.{Apart, Disjoint}
use hj.Mm.Vm.View.{
  seen, view, Inside, Outside, side_cases, view-Inside, view-Outside, view-Apart, view-append_some,
  view-append_none, times_paged,
}
use hj.Mm.Vm.View.Order.{Disjoint-Permᴰ, view-Permᴰ}

-- A map that keeps the page `u` finds the same there.
lookup-keep :
    (q : Vpn → Bool) (u : Vpn) (pages : PageMap)
    → q u ≡ true
    → lookup u (keep (λ kv. q kv.0) pages) ≡ lookup u pages
unfolding lookup
lookup-keep q u [] h = refl
lookup-keep q u ((k, page) ∷ rest) h = elim (Bool-cases (u == k)) [
  | inl hit ↦ let kept : q k ≡ true = ap q (sym (==→≡ u k hit)) ∙ h in rw kept (rw hit refl)
  | inr miss ↦ elim (Bool-cases (q k)) [
    | inl kept ↦ rw kept (rw miss (lookup-keep q u rest h))
    | inr lost ↦ rw lost (rw miss (lookup-keep q u rest h))
  ]
]

pub lookup-lower :
    (u v : Vpn) (pages : PageMap) → u < v → lookup u (split_off v pages).0 ≡ lookup u pages
unfolding split_off
lookup-lower u v pages h = lookup-keep (λ k. ltb k v) u pages (ground (arith, h))

pub lookup-upper :
    (u v : Vpn) (pages : PageMap) → v ≤ u → lookup u (split_off v pages).1 ≡ lookup u pages
unfolding split_off
lookup-upper u v pages h = lookup-keep (λ k. leb v k) u pages (ground (arith, h))

-- A split shares the pages out.
pub times_paged-split_off :
    (p : Ppn) (v : Vpn) (pages : PageMap)
    → times_paged p (split_off v pages).0 + times_paged p (split_off v pages).1
      ≡ times_paged p pages
unfolding split_off times_paged
times_paged-split_off p v [] = refl
times_paged-split_off p v ((k, page) ∷ rest) = elim (Bool-cases (ltb k v)) [
  | inl lower ↦
      let other : leb v k ≡ false = ground arith in
      rw (lower, other) (omega (arith, times_paged-split_off p v rest))
  | inr upper ↦
      let other : leb v k ≡ true = ground arith in
      rw (upper, other) (omega (arith, times_paged-split_off p v rest))
]

module _ (a : VmArea) where
  abbrev pub Within : List VmArea → Type 0
  Within [] = Unit {0}
  Within (b ∷ bs) = (a.start_vpn ≤ b.start_vpn) × (b.end_vpn ≤ a.end_vpn) × Within bs

  view-Within : (ps : List VmArea) (u : Vpn) → Within ps → Outside a u → view ps u ≡ none
  unfolding view
  view-Within [] u w o = refl
  view-Within (b ∷ bs) u w o =
      view-Outside b bs u (ground (arith, w.0, w.1, o)) ∙ view-Within bs u w.2 o

Apart-Within :
    (a b : VmArea) (r : List VmArea)
    → a.start_vpn ≤ b.start_vpn
    → b.end_vpn ≤ a.end_vpn
    → Apart a r
    → Apart b r
Apart-Within a b [] l u h = tt
Apart-Within a b (c ∷ cs) l u h = (ground (arith, h.0), Apart-Within a b cs l u h.1)

Apart-append : (b : VmArea) (ps r : List VmArea) → Apart b ps → Apart b r → Apart b (ps ++ r)
Apart-append b [] r h n = n
Apart-append b (c ∷ cs) r h n = (h.0, Apart-append b cs r h.1 n)

Disjoint-append :
    (a : VmArea) (ps r : List VmArea)
    → Within a ps
    → Disjoint ps
    → Apart a r
    → Disjoint r
    → Disjoint (ps ++ r)
Disjoint-append a [] r w d n e = e
Disjoint-append a (b ∷ bs) r w d n e = (
  d.0,
  Apart-append b bs r d.1 (Apart-Within a b r w.0 w.1 n),
  Disjoint-append a bs r w.2 d.2 n e,
)

abbrev pub Clear : (s e u : Vpn) → Type 0
Clear s e u = (u < s) ⊎ (e ≤ u)

-- The pieces `ps` are the area without the pages from `s` up to `e`.
pub record Trimmed (s e : Vpn) (a : VmArea) (ps : List VmArea) : Type 0 where
  pub disjoint : Disjoint ps
  pub within : Within a ps
  pub stays : (u : Vpn) → Inside a u → Clear s e u → view ps u ≡ some (seen a u)
  pub goes : (u : Vpn) → s ≤ u → u < e → view ps u ≡ none

-- What becomes of each page where the pieces take the place of the area.
pub record Trims (s e : Vpn) (a : VmArea) (areas areas' : List VmArea) : Type 0 where
  pub disjoint : Disjoint areas'
  pub kept : (u : Vpn) → Outside a u ⊎ Clear s e u → view areas' u ≡ view areas u
  pub gone : (u : Vpn) → Inside a u → s ≤ u → u < e → view areas' u ≡ none
  pub there : (u : Vpn) → Inside a u → view areas u ≡ some (seen a u)

pub Trims-Trimmed :
    (s e : Vpn) (a : VmArea) (ps r areas areas' : List VmArea)
    → Trimmed s e a ps
    → Disjoint areas
    → Permᴰ areas (a ∷ r)
    → Permᴰ (ps ++ r) areas'
    → Trims s e a areas areas'
Trims-Trimmed s e a ps r areas areas' t d p q = record {
  disjoint = Disjoint-Permᴰ q after;
  kept = kept;
  gone = gone;
  there = there;
}
  where
    before : Disjoint (a ∷ r)
    before = Disjoint-Permᴰ p d

    after : Disjoint (ps ++ r)
    after = Disjoint-append a ps r t.within t.disjoint before.1 before.2

    there : (u : Vpn) → Inside a u → view areas u ≡ some (seen a u)
    there u i = sym (view-Permᴰ p d u) ∙ view-Inside a r u i

    gone : (u : Vpn) → Inside a u → s ≤ u → u < e → view areas' u ≡ none
    gone u i l h =
        view-Permᴰ q after u ∙ view-append_none ps r u (t.goes u l h) ∙ view-Apart a r u before.1 i

    kept : (u : Vpn) → Outside a u ⊎ Clear s e u → view areas' u ≡ view areas u
    kept u c = elim (side_cases a u) [
      | inl i ↦
          let clear : Clear s e u = ground (arith, i, c) in
          view-Permᴰ q after u ∙ view-append_some ps r u (t.stays u i clear) ∙ sym (there u i)
      | inr o ↦
          view-Permᴰ q after u
          ∙ view-append_none ps r u (view-Within a ps u t.within o)
          ∙ sym (view-Outside a r u o)
          ∙ view-Permᴰ p d u
    ]
