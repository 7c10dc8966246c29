-- ===== src/Task/Schedule/Count.antt =====
-- How often a test holds in a list: the same for every order.
use mathlib.Core.Logic.{∥∥₁_elim}
use mathlib.Core.List.{Perm, Permᴰ}
use mathlib.Core.Option
use native.Mathlib.Nat.{ℕ_set}
use hj.Base.{
  ℕ, ◌+◌, ◌≤◌, ◌≡◌, refl, ap, ◌∙◌, Bool, true, false, some, List, [], ◌∷◌, ◌++◌, inl, inr, find,
  update_first, arith, Bool-cases,
}

abbrev pub bit : Bool → ℕ
bit true = 1
bit false = 0

module _ {A : Type 0} (p : A → Bool) where
  abbrev pub count : List A → ℕ
  count [] = 0
  count (x ∷ xs) = bit (p x) + count xs

  count-Permᴰ : {xs ys : List A} → Permᴰ xs ys → count xs ≡ count ys
  count-Permᴰ Permᴰ.nil = refl
  count-Permᴰ (Permᴰ.cons {a = a} e h) = omega (arith, ap (λ x. bit (p x)) e, count-Permᴰ h)
  count-Permᴰ (Permᴰ.swap e f) = omega (arith, ap (λ x. bit (p x)) e, ap (λ x. bit (p x)) f)
  count-Permᴰ (Permᴰ.trans h k) = count-Permᴰ h ∙ count-Permᴰ k

  pub count-Perm : {xs ys : List A} → Perm xs ys → count xs ≡ count ys
  count-Perm {xs} {ys} h = ∥∥₁_elim h (ℕ_set (count xs) (count ys)) count-Permᴰ

  pub count-append : (xs ys : List A) → count (xs ++ ys) ≡ count xs + count ys
  count-append [] ys = omega arith
  count-append (x ∷ xs) ys = omega (arith, count-append xs ys)

module _ {A : Type 0} (p : A → Bool) where
  -- What is found is counted.
  pub count-found : (xs : List A) (a : A) → find p xs ≡ some a → (p a ≡ true) × (1 ≤ count p xs)
  count-found [] a e = cc
  count-found (x ∷ xs) a e = elim (Bool-cases (p x)) [
    | inl hit ↦ ground arith
    | inr miss ↦ ground (arith, count-found xs a)
  ]

  -- A change of the first element that is found counts for it alone.
  pub count-update_first :
      (q : A → Bool) (f : A → A) (xs : List A) (a : A)
      → find p xs ≡ some a
      → count q (update_first p f xs) + bit (q a) ≡ count q xs + bit (q (f a))
  count-update_first q f [] a e = cc
  count-update_first q f (x ∷ xs) a e = elim (Bool-cases (p x)) [
    | inl hit ↦
        let same : x ≡ a = Option.some-injective x a (rw hit at e) in
        rw hit (omega (arith, ap (λ y. bit (q y)) same, ap (λ y. bit (q (f y))) same))
    | inr miss ↦ rw miss (omega (arith, count-update_first q f xs a (rw miss at e)))
  ]

  pub find-update_first :
      (f : A → A) (xs : List A) (a : A)
      → find p xs ≡ some a
      → p (f a) ≡ true
      → find p (update_first p f xs) ≡ some (f a)
  find-update_first f [] a e h = cc
  find-update_first f (x ∷ xs) a e h = elim (Bool-cases (p x)) [
    | inl hit ↦
        let same : x ≡ a = Option.some-injective x a (rw hit at e) in
        let again : p (f x) ≡ true = ap (λ y. p (f y)) same ∙ h in
        rw hit (rw again (ap (λ y. some (f y)) same))
    | inr miss ↦ rw miss (rw miss (find-update_first f xs a (rw miss at e) h))
  ]

  -- In a list where the test holds nowhere, an added element is the one found.
  pub find-append :
      (xs : List A) (x : A) → count p xs ≡ 0 → p x ≡ true → find p (xs ++ x ∷ []) ≡ some x
  find-append [] x none_there h = rw h
  find-append (y ∷ xs) x none_there h = elim (Bool-cases (p y)) [
    | inl hit ↦ absurd (omega (arith, ap bit hit))
    | inr miss ↦ rw miss (find-append xs x (omega arith) h)
  ]
