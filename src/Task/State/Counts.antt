-- ===== src/Task/State/Counts.antt =====
-- The counts of system calls in state.rs, as a map from ids to numbers of calls.
use hj.Base.{
  ℕ, ◌≡◌, ◌≢◌, ◌⊎◌, inl, inr, refl, Bool, true, false, List, [], ◌∷◌, ◌||◌, ◌==◌, if◌then◌else◌,
  wrapping_add, arith, Bool-cases, subst, ap,
}
use hj.Task.State.{count_call}

abbrev pub Slots : Type 0
Slots = List (ℕ × ℕ)

-- How often the calls of an id were counted.
abbrev pub called : ℕ → Slots → ℕ
called id [] = 0
called id ((j, times) ∷ slots) = if j == id then times else called id slots

abbrev pub AllEmpty : Slots → Type 0
AllEmpty [] = Unit {0}
AllEmpty ((j, times) ∷ slots) = (j ≡ 0) × (times ≡ 0) × AllEmpty slots

abbrev pub Missing : ℕ → Slots → Type 0
Missing id [] = Unit {0}
Missing id ((j, times) ∷ slots) = (j ≢ id) × Missing id slots

-- The ids are different, and the empty slots come last.
abbrev pub IsTracked : Slots → Type 0
IsTracked [] = Unit {0}
IsTracked ((j, times) ∷ slots) =
    (j ≡ 0) × (times ≡ 0) × AllEmpty slots ⊎ (j ≢ 0) × Missing j slots × IsTracked slots

abbrev pub HasNoEmpty : Slots → Type 0
HasNoEmpty slots = Missing 0 slots

-- The call is counted and no other count changes; or it is not counted, since every slot is
-- taken by another id, and nothing changes.
abbrev pub Counts : ℕ → Slots → Slots × Bool → Type 0
Counts id slots (slots', true) =
    (called id slots' ≡ wrapping_add (called id slots) 1)
    × ((j : ℕ) → j ≢ 0 → j ≢ id → called j slots' ≡ called j slots)
    × IsTracked slots'
Counts id slots (slots', false) = (slots' ≡ slots) × Missing id slots × HasNoEmpty slots

called-AllEmpty : (id : ℕ) (slots : Slots) → AllEmpty slots → called id slots ≡ 0
called-AllEmpty id [] e = refl
called-AllEmpty id ((j, times) ∷ slots) e = ground (arith, called-AllEmpty id slots e.2)

Missing-AllEmpty : (id : ℕ) (slots : Slots) → id ≢ 0 → AllEmpty slots → Missing id slots
Missing-AllEmpty id [] h e = tt
Missing-AllEmpty id ((j, times) ∷ slots) h e = (λ z. ground arith, Missing-AllEmpty id slots h e.2)

IsTracked-AllEmpty : (slots : Slots) → AllEmpty slots → IsTracked slots
IsTracked-AllEmpty [] e = tt
IsTracked-AllEmpty ((j, times) ∷ slots) e = inl e

Missing-count_call :
    (id k : ℕ) (slots : Slots) → k ≢ id → Missing k slots → Missing k (count_call id slots).0
unfolding count_call
Missing-count_call id k [] ne m = tt
Missing-count_call id k ((j, times) ∷ slots) ne m = elim (Bool-cases ((j == id) || (j == 0))) [
  | inl hit ↦ rw hit ((λ e. ne (ground arith)), m.1)
  | inr miss ↦ rw miss (m.0, Missing-count_call id k slots ne m.1)
]

Counts-hit :
    (id j times : ℕ) (slots : Slots)
    → id ≢ 0
    → IsTracked ((j, times) ∷ slots)
    → (j == id) || (j == 0) ≡ true
    → Counts id ((j, times) ∷ slots) ((id, wrapping_add times 1) ∷ slots, true)
Counts-hit id j times slots h t hit = elim t [
  | inl e ↦ (
    ground (arith, called-AllEmpty id slots e.2),
    λ k p q. ground (arith, called-AllEmpty k slots e.2),
    inr (h, Missing-AllEmpty id slots h e.2, IsTracked-AllEmpty slots e.2),
  )
  | inr n ↦
      let same : j ≡ id = ground arith in
      (ground arith, λ k p q. ground arith, inr (h, subst (λ k. Missing k slots) same n.1, n.2))
]

Counts-miss :
    (id j times : ℕ) (slots : Slots) (r : Slots × Bool)
    → IsTracked ((j, times) ∷ slots)
    → j ≢ id
    → j ≢ 0
    → Missing j r.0
    → (IsTracked slots → Counts id slots r)
    → Counts id ((j, times) ∷ slots) ((j, times) ∷ r.0, r.1)
Counts-miss id j times slots (slots', true) t ne used missing c = elim t [
  | inl e ↦ absurd (used e.0)
  | inr n ↦
      let (counted, kept, tracked) = c n.2 in
      (ground arith, λ k p q. ground (arith, kept k), inr (used, missing, tracked))
]
Counts-miss id j times slots (slots', false) t ne used missing c = elim t [
  | inl e ↦ absurd (used e.0)
  | inr n ↦
      let (same, absent, full) = c n.2 in
      (ap (λ z. (j, times) ∷ z) same, (ne, absent), (used, full))
]

-- For an id that is not 0 and a table in order: `count_call` adds one to the id's count, modulo
-- 2 ^ 64, and keeps all other counts and the order; or it refuses the call and changes nothing, and
-- every slot is used by another id.
pub count_call-Counts :
    (id : ℕ) (slots : Slots) → id ≢ 0 → IsTracked slots → Counts id slots (count_call id slots)
unfolding count_call
count_call-Counts id [] h t = (refl, tt, tt)
count_call-Counts id ((j, times) ∷ slots) h t = elim (Bool-cases ((j == id) || (j == 0))) [
  | inl hit ↦ rw hit (Counts-hit id j times slots h t hit)
  | inr miss ↦
      let ne : j ≢ id = λ e. ground arith in
      rw miss (
        Counts-miss id j times slots (count_call id slots) t ne (λ e. ground arith)
          (elim t [ inl e ↦ absurd (ground arith) | inr n ↦ Missing-count_call id j slots ne n.1 ])
          (λ t'. count_call-Counts id slots h t'))
]
