-- ===== src/Mm/Vm/View/Order.antt =====
-- The order of the areas of a `VMSpace`: what areas that share no page say does not depend on it.
use mathlib.Core.List.{Permᴰ}
use mathlib.Core.List.Permᴰ
use hj.Base.{
  ℕ, ◌+◌, ◌-◌, ◌≤◌, ◌≡◌, ◌⊎◌, inl, inr, refl, sym, ap, subst, ◌∙◌, some, List, [], ◌∷◌, ◌++◌,
  length, get_elem?, set, take, swap_remove, all, Bool, true, arith,
}
use hj.Mm.{Vpn, Ppn}
use hj.Mm.Vm.{VmArea}
use hj.Mm.Vm.AddArea.{Apart, Disjoint}
use hj.Mm.Vm.View.{view, view-Inside, view-Outside, side_cases, held, times_paged}

module _ {ℓ} {A : Type ℓ} where
  pub shift : (xs : List A) (a : A) (ys : List A) → Permᴰ (xs ++ a ∷ ys) (a ∷ xs ++ ys)
  shift [] a ys = Permᴰ.refl (a ∷ ys)
  shift (x ∷ xs) a ys = Permᴰ.trans (Permᴰ.cons refl (shift xs a ys)) (Permᴰ.swap refl refl)

  pub behind : (xs : List A) {ys zs : List A} → Permᴰ ys zs → Permᴰ (xs ++ ys) (xs ++ zs)
  behind [] p = p
  behind (x ∷ xs) p = Permᴰ.cons refl (behind xs p)

  pub append_nil : (xs : List A) → xs ++ [] ≡ xs
  append_nil [] = refl
  append_nil (x ∷ xs) = ap (λ z. x ∷ z) (append_nil xs)

  pub snoc : (xs : List A) (a : A) → Permᴰ (xs ++ a ∷ []) (a ∷ xs)
  snoc xs a = subst (λ ys. Permᴰ (xs ++ a ∷ []) (a ∷ ys)) (append_nil xs) (shift xs a [])

  pub append_assoc : (xs ys zs : List A) → (xs ++ ys) ++ zs ≡ xs ++ (ys ++ zs)
  append_assoc [] ys zs = refl
  append_assoc (x ∷ xs) ys zs = ap (λ z. x ∷ z) (append_assoc xs ys zs)

  -- The element between two parts.
  pub get_between :
      (xs : List A) (a : A) (ys : List A) → get_elem? (xs ++ a ∷ ys) (length xs) ≡ some a
  get_between [] a ys = refl
  get_between (x ∷ xs) a ys = get_between xs a ys

  pub set_between :
      (xs : List A) (a b : A) (ys : List A) → set (xs ++ a ∷ ys) (length xs) b ≡ xs ++ b ∷ ys
  set_between [] a b ys = refl
  set_between (x ∷ xs) a b ys = ap (λ z. x ∷ z) (set_between xs a b ys)

  pub length-append : (xs ys : List A) → length (xs ++ ys) ≡ length xs + length ys
  length-append [] ys = omega arith
  length-append (x ∷ xs) ys = omega (arith, length-append xs ys)

  take_before : (xs ys : List A) → take (length xs) (xs ++ ys) ≡ xs
  take_before [] ys = ground arith
  take_before (x ∷ xs) ys = ap (λ z. x ∷ z) (take_before xs ys)

  -- A list is empty or has a last element.
  pub last_cases : (xs : List A) → (xs ≡ []) ⊎ ((ys : List A) × (a : A) × (xs ≡ ys ++ a ∷ []))
  last_cases [] = inl refl
  last_cases (x ∷ xs) = elim (last_cases xs) [
    | inl e ↦ inr ([], x, ap (λ z. x ∷ z) e)
    | inr (ys, a, e) ↦ inr (x ∷ ys, a, ap (λ z. x ∷ z) e)
  ]

  swap_remove_at :
      (zs : List A) (i n : ℕ) (last : A)
      → length zs - 1 ≡ n
      → get_elem? zs n ≡ some last
      → swap_remove i zs ≡ take n (set zs i last)
  swap_remove_at zs i n last e g =
      let at : get_elem? zs (length zs - 1) ≡ some last = ap (get_elem? zs) e ∙ g in
      rw (at, swap_remove) (ap (λ k. take k (set zs i last)) e)

  -- `swap_remove` of the last element, and of another one.
  pub swap_remove_last : (xs : List A) (a : A) → swap_remove (length xs) (xs ++ a ∷ []) ≡ xs
  swap_remove_last xs a =
      swap_remove_at (xs ++ a ∷ []) (length xs) (length xs) a
        (omega (arith, length-append xs (a ∷ []))) (get_between xs a [])
      ∙ ap (take (length xs)) (set_between xs a a [])
      ∙ take_before xs (a ∷ [])

  pub swap_remove_between :
      (xs : List A) (a : A) (ys : List A) (b : A)
      → swap_remove (length xs) (xs ++ a ∷ (ys ++ b ∷ [])) ≡ xs ++ b ∷ ys
  swap_remove_between xs a ys b =
      let whole : xs ++ a ∷ (ys ++ b ∷ []) ≡ (xs ++ a ∷ ys) ++ b ∷ [] =
        sym (append_assoc xs (a ∷ ys) (b ∷ [])) in
      let short : length (xs ++ a ∷ ys) ≡ length (xs ++ b ∷ ys) =
        omega (arith, length-append xs (a ∷ ys), length-append xs (b ∷ ys)) in
      let n : length (xs ++ a ∷ (ys ++ b ∷ [])) - 1 ≡ length (xs ++ b ∷ ys) =
        omega (arith, short, ap length whole, length-append (xs ++ a ∷ ys) (b ∷ [])) in
      swap_remove_at (xs ++ a ∷ (ys ++ b ∷ [])) (length xs) (length (xs ++ b ∷ ys)) b n (
        ap (λ zs. get_elem? zs (length (xs ++ b ∷ ys))) whole
        ∙ ap (get_elem? ((xs ++ a ∷ ys) ++ b ∷ [])) (sym short)
        ∙ get_between (xs ++ a ∷ ys) b [])
      ∙ ap (take (length (xs ++ b ∷ ys))) (set_between xs a b (ys ++ b ∷ []))
      ∙ ap (take (length (xs ++ b ∷ ys))) (sym (append_assoc xs (b ∷ ys) (b ∷ [])))
      ∙ take_before (xs ++ b ∷ ys) (b ∷ [])

  pub all-Permᴰ : (p : A → Bool) {xs ys : List A} → Permᴰ xs ys → all p xs ≡ true → all p ys ≡ true
  all-Permᴰ p Permᴰ.nil h = h
  all-Permᴰ p (Permᴰ.cons e q) h = ground (arith, ap p e, h, all-Permᴰ p q (ground (arith, h)))
  all-Permᴰ p (Permᴰ.swap e f) h = ground (arith, ap p e, ap p f, h)
  all-Permᴰ p (Permᴰ.trans q r) h = all-Permᴰ p r (all-Permᴰ p q h)

-- What the order leaves unchanged.
Apart-Permᴰ : (a : VmArea) {xs ys : List VmArea} → Permᴰ xs ys → Apart a xs → Apart a ys
Apart-Permᴰ a Permᴰ.nil h = h
Apart-Permᴰ a (Permᴰ.cons e p) h =
    (subst (λ b. (b.end_vpn ≤ a.start_vpn) ⊎ (a.end_vpn ≤ b.start_vpn)) e h.0, Apart-Permᴰ a p h.1)
Apart-Permᴰ a (Permᴰ.swap e f) h = (
  subst (λ b. (b.end_vpn ≤ a.start_vpn) ⊎ (a.end_vpn ≤ b.start_vpn)) f h.1.0,
  (subst (λ b. (b.end_vpn ≤ a.start_vpn) ⊎ (a.end_vpn ≤ b.start_vpn)) e h.0, h.1.1),
)
Apart-Permᴰ a (Permᴰ.trans p q) h = Apart-Permᴰ a q (Apart-Permᴰ a p h)

swap-Disjoint : (a b : VmArea) (l : List VmArea) → Disjoint (a ∷ b ∷ l) → Disjoint (b ∷ a ∷ l)
swap-Disjoint a b l d = (d.2.0, (ground (arith, d.1.0), d.2.1), (d.0, d.1.1, d.2.2))

pub Disjoint-Permᴰ : {xs ys : List VmArea} → Permᴰ xs ys → Disjoint xs → Disjoint ys
Disjoint-Permᴰ Permᴰ.nil d = d
Disjoint-Permᴰ (Permᴰ.cons {a = a} {l₂ = l₂} e p) d =
    subst (λ b. Disjoint (b ∷ l₂)) e (d.0, Apart-Permᴰ a p d.1, Disjoint-Permᴰ p d.2)
Disjoint-Permᴰ (Permᴰ.swap {a = a} {b = b} {b' = c} {l = l} e f) d =
    subst (λ a'. Disjoint (a' ∷ c ∷ l)) f
      (subst (λ b'. Disjoint (b ∷ b' ∷ l)) e (swap-Disjoint a b l d))
Disjoint-Permᴰ (Permᴰ.trans p q) d = Disjoint-Permᴰ q (Disjoint-Permᴰ p d)

swap-view :
    (a b : VmArea) (l : List VmArea) (u : Vpn)
    → Disjoint (a ∷ b ∷ l)
    → view (b ∷ a ∷ l) u ≡ view (a ∷ b ∷ l) u
swap-view a b l u d = elim (side_cases a u) [
  | inl i ↦
      view-Outside b (a ∷ l) u (ground (arith, d.1.0, i))
      ∙ view-Inside a l u i
      ∙ sym (view-Inside a (b ∷ l) u i)
  | inr o ↦ elim (side_cases b u) [
    | inl i ↦
        view-Inside b (a ∷ l) u i ∙ sym (view-Inside b l u i) ∙ sym (view-Outside a (b ∷ l) u o)
    | inr o' ↦
        view-Outside b (a ∷ l) u o'
        ∙ view-Outside a l u o
        ∙ sym (view-Outside a (b ∷ l) u o ∙ view-Outside b l u o')
  ]
]

pub view-Permᴰ :
    {xs ys : List VmArea} → Permᴰ xs ys → Disjoint xs → (u : Vpn) → view ys u ≡ view xs u
view-Permᴰ Permᴰ.nil d u = refl
view-Permᴰ (Permᴰ.cons {a = a} {l₁ = l₁} {l₂ = l₂} e p) d u =
    subst (λ b. view (b ∷ l₂) u ≡ view (a ∷ l₁) u) e
      (elim (side_cases a u) [
        | inl i ↦ view-Inside a l₂ u i ∙ sym (view-Inside a l₁ u i)
        | inr o ↦ view-Outside a l₂ u o ∙ view-Permᴰ p d.2 u ∙ sym (view-Outside a l₁ u o)
      ])
view-Permᴰ (Permᴰ.swap {a = a} {b = b} {b' = c} {l = l} e f) d u =
    subst (λ a'. view (a' ∷ c ∷ l) u ≡ view (a ∷ b ∷ l) u) f
      (subst (λ b'. view (b ∷ b' ∷ l) u ≡ view (a ∷ b ∷ l) u) e (swap-view a b l u d))
view-Permᴰ (Permᴰ.trans p q) d u = view-Permᴰ q (Disjoint-Permᴰ p d) u ∙ view-Permᴰ p d u

pub held-Permᴰ : {xs ys : List VmArea} (p : Ppn) → Permᴰ xs ys → held p ys ≡ held p xs
unfolding held
held-Permᴰ p Permᴰ.nil = refl
held-Permᴰ p (Permᴰ.cons e h) = omega (arith, ap (λ b. times_paged p b.pages) e, held-Permᴰ p h)
held-Permᴰ p (Permᴰ.swap e f) =
    omega (arith, ap (λ b. times_paged p b.pages) e, ap (λ b. times_paged p b.pages) f)
held-Permᴰ p (Permᴰ.trans h k) = held-Permᴰ p k ∙ held-Permᴰ p h

pub held-append : (p : Ppn) (xs ys : List VmArea) → held p (xs ++ ys) ≡ held p xs + held p ys
unfolding held
held-append p [] ys = omega arith
held-append p (a ∷ xs) ys = omega (arith, held-append p xs ys)
