-- ===== src/Mm/Vm/AddArea.antt =====
-- `VMSpace::add_new_area`: areas never overlap.
use hj.Base.{
  ℕ, ◌≤◌, ◌<◌, ◌≡◌, ◌⊎◌, inl, inr, refl, true, List, [], ◌∷◌, ◌++◌, leb, ◌==◌, bit_and, complement,
  all, arith, Bool-cases,
}
use hj.Outcome.{Outcome, ok, err, panic}
use hj.Mm.{Vpn}
use hj.Mm.PageAlloc.{Machine}
use hj.Mm.Vm.{
  MapType, VmError, invalid_permissions, area_overlapping, empty_area, VmArea, VmSpace, area_new,
  all_permission_flags,
}
use hj.Mm.Vm.Space.{add_new_area, no_overlap}

-- No two areas share a page.
abbrev pub Apart : VmArea → List VmArea → Type 0
Apart a [] = Unit {0}
Apart a (b ∷ bs) = ((b.end_vpn ≤ a.start_vpn) ⊎ (a.end_vpn ≤ b.start_vpn)) × Apart a bs

abbrev pub Disjoint : List VmArea → Type 0
Disjoint [] = Unit {0}
Disjoint (a ∷ bs) = (a.start_vpn < a.end_vpn) × Apart a bs × Disjoint bs

abbrev pub Allowed : ℕ → Type 0
Allowed permissions = bit_and permissions (complement all_permission_flags) ≡ 0

-- The four outcomes, each with its exact condition.
module _ (s : Machine × VmSpace) (start end : Vpn) (map_type : MapType) (permissions : ℕ) where
  abbrev new_area : VmArea
  new_area = area_new start end map_type permissions

  abbrev pub Adds : Outcome (Machine × VmSpace) VmError (Unit {0}) → Type 0
  Adds (ok _ s') =
      (start < end)
      × Allowed permissions
      × (s' ≡ (s.0, record s.1 { areas = s.1.areas ++ new_area ∷ [] }))
      × Disjoint (s.1.areas ++ new_area ∷ [])
  Adds (err e s') =
      (s' ≡ s)
      × ((e ≡ empty_area start end) × (end ≤ start)
          ⊎ (e ≡ invalid_permissions permissions) × (start < end) × ¬ (Allowed permissions)
          ⊎ (e ≡ area_overlapping start end)
            × (start < end)
            × Allowed permissions
            × ¬ (Apart new_area s.1.areas))
  Adds panic = ⊥

Apart-snoc :
    (a b : VmArea) (bs : List VmArea)
    → Apart a bs
    → (b.end_vpn ≤ a.start_vpn) ⊎ (a.end_vpn ≤ b.start_vpn)
    → Apart a (bs ++ b ∷ [])
Apart-snoc a b [] h n = (n, tt)
Apart-snoc a b (c ∷ cs) h n = (h.0, Apart-snoc a b cs h.1 n)

Disjoint-snoc :
    (bs : List VmArea) (b : VmArea)
    → Disjoint bs
    → b.start_vpn < b.end_vpn
    → Apart b bs
    → Disjoint (bs ++ b ∷ [])
Disjoint-snoc [] b d h n = (h, tt, tt)
Disjoint-snoc (a ∷ bs) b d h n =
    (d.0, Apart-snoc a b bs d.1 (ground (arith, n.0)), Disjoint-snoc bs b d.2 h n.1)

Apart-all :
    (a : VmArea) (bs : List VmArea) → all (no_overlap a.start_vpn a.end_vpn) bs ≡ true → Apart a bs
Apart-all a [] h = tt
Apart-all a (b ∷ bs) h = (ground arith, Apart-all a bs (ground arith))

all-Apart :
    (a : VmArea) (bs : List VmArea) → Apart a bs → all (no_overlap a.start_vpn a.end_vpn) bs ≡ true
all-Apart a [] h = refl
all-Apart a (b ∷ bs) h = ground (arith, all-Apart a bs h.1, h.0)

-- On disjoint areas `add_new_area` never panics. It adds the area at the end exactly when the range
-- is not empty, the permissions are known and no area overlaps it, and the areas stay disjoint;
-- else it changes nothing, and the error is the first of these conditions that fails.
pub add_new_area-Adds :
    (s : Machine × VmSpace) (start end : Vpn) (map_type : MapType) (permissions : ℕ)
    → Disjoint s.1.areas
    → Adds s start end map_type permissions (add_new_area start end map_type permissions s)
unfolding add_new_area area_new
add_new_area-Adds s start end map_type permissions d = elim (Bool-cases (leb end start)) [
  | inl e ↦ rw e (refl, inl (refl, ground arith))
  | inr ne ↦
      let p = bit_and permissions (complement all_permission_flags) == 0 in
      elim (Bool-cases p) [
        | inr bad ↦ rw (ne, bad) (refl, inr (inl (refl, ground arith, λ z. ground arith)))
        | inl good ↦ elim (Bool-cases (all (no_overlap start end) s.1.areas)) [
          | inl free ↦
              let a = area_new start end map_type permissions in
              let apart = Apart-all a s.1.areas free in
              rw (ne, good, free)
                (ground arith, ground arith, refl, Disjoint-snoc s.1.areas a d (ground arith) apart)
          | inr busy ↦
              let a = area_new start end map_type permissions in
              rw (ne, good, busy)
                (
                  refl,
                  inr (
                      inr (
                        refl,
                        ground arith,
                        ground arith,
                        λ z. ground (arith, all-Apart a s.1.areas z),
                      )),
                )
        ]
      ]
]
