-- ===== src/Mm/Vm/Sound/Free.antt =====
-- The list of free pages by the number of times that a page stands in it, and pages set free.
use hj.Base.{
  ℕ, ◌≤◌, ◌<◌, ◌≡◌, ◌≢◌, ◌⊎◌, inl, inr, refl, sym, ap, ◌∙◌, subst, true, List, [], ◌∷◌, ◌==◌, arith,
  Bool-cases, ==→≡,
}
use hj.Mm.{Ppn}
use hj.Mm.Memory.{Memory}
use hj.Mm.Sv39.Tree.{
  Role, unused, other, Roles, below, is_upper, IsTree, IsFree, AllFree, NotIn, Distinct,
}
use hj.Mm.Vm.View.{times}

pub times-NotIn : (p : Ppn) (ps : List Ppn) → times p ps ≡ 0 → NotIn p ps
unfolding times
times-NotIn p [] h = tt
times-NotIn p (q ∷ qs) h = elim (Bool-cases (q == p)) [
  | inl hit ↦ absurd (omega (arith, rw hit at h))
  | inr miss ↦ (ground (arith, miss), times-NotIn p qs (omega (arith, rw miss at h)))
]

pub NotIn-times : (p : Ppn) (ps : List Ppn) → NotIn p ps → times p ps ≡ 0
unfolding times
NotIn-times p [] h = refl
NotIn-times p (q ∷ qs) h = elim (Bool-cases (q == p)) [
  | inl hit ↦ absurd (h.0 (sym (==→≡ q p hit)))
  | inr miss ↦ rw miss (omega (arith, NotIn-times p qs h.1))
]

pub Distinct-times : (p : Ppn) (ps : List Ppn) → Distinct ps → times p ps ≤ 1
unfolding times
Distinct-times p [] d = omega arith
Distinct-times p (q ∷ qs) d = elim (Bool-cases (q == p)) [
  | inl hit ↦ rw hit (omega (arith, NotIn-times p qs (subst (λ r. NotIn r qs) (==→≡ q p hit) d.0)))
  | inr miss ↦ rw miss (omega (arith, Distinct-times p qs d.1))
]

pub times-Distinct : (ps : List Ppn) → ((p : Ppn) → times p ps ≤ 1) → Distinct ps
unfolding times
times-Distinct [] h = tt
times-Distinct (q ∷ qs) h =
    (times-NotIn q qs (ground (arith, h q)), times-Distinct qs (λ p. ground (arith, h p)))

pub AllFree-times :
    (ρ : Roles) (next : Ppn) (p : Ppn) (ps : List Ppn)
    → AllFree ρ next ps
    → 1 ≤ times p ps
    → IsFree ρ p × (p < next)
unfolding times
AllFree-times ρ next p [] f h = absurd (omega arith)
AllFree-times ρ next p (q ∷ qs) f h = elim (Bool-cases (q == p)) [
  | inl hit ↦ subst (λ r. IsFree ρ r × (r < next)) (==→≡ q p hit) (f.0, f.1)
  | inr miss ↦ AllFree-times ρ next p qs f.2 (omega (arith, rw miss at h))
]

pub times-AllFree :
    (ρ : Roles) (next : Ppn) (ps : List Ppn)
    → ((p : Ppn) → 1 ≤ times p ps → IsFree ρ p × (p < next))
    → AllFree ρ next ps
unfolding times
times-AllFree ρ next [] h = tt
times-AllFree ρ next (q ∷ qs) h =
    let here = h q (ground arith) in
    (here.0, here.1, times-AllFree ρ next qs (λ p n. h p (ground (arith, n))))

-- Pages that are no tables may lose their use.
module _ (ρ ρ' : Roles) (mem : Memory) (root : Ppn)
    (lose : (p : Ppn) → (ρ' p ≡ ρ p) ⊎ ((ρ p ≡ other) × (ρ' p ≡ unused))) where
  table_kept : (p : Ppn) → ρ p ≢ other → ρ' p ≡ ρ p
  table_kept p h = elim (lose p) [ inl same ↦ same | inr gone ↦ absurd (h gone.0) ]

  below_table : (r : Role) (i : ℕ) → is_upper r ≡ true → below r i ≢ other
  below_table r i h e = ground arith

  upper_table : (r : Role) → is_upper r ≡ true → r ≢ other
  upper_table r h e = ground arith

  pub lose-IsTree : IsTree ρ mem root → IsTree ρ' mem root
  lose-IsTree tree = record {
    root_top = table_kept root (λ e. ground (arith, tree.root_top)) ∙ tree.root_top;
    frames = λ p used. elim (lose p) [
      | inl same ↦ tree.frames p (λ z. used (same ∙ z))
      | inr gone ↦ absurd (used gone.1)
    ];
    links = λ p i up small next. elim (lose p) [
      | inr gone ↦ absurd (ground (arith, ap is_upper gone.1))
      | inl same ↦
          let up' : is_upper (ρ p) ≡ true = rw same at up in
          let old = tree.links p i up' small next in
          (
            table_kept _ (λ z. below_table (ρ p) i up' (sym old.0 ∙ z))
                ∙ old.0
                ∙ ap (λ r. below r i) (sym same),
            old.1,
          )
    ];
  }
