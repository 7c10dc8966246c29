-- ===== src/Mm/Vm/View/Left.antt =====
-- The list of areas that each overlap case of `VMSpace::unmap` leaves, up to the order.
use mathlib.Core.List.{Permᴰ}
use mathlib.Core.List.Permᴰ
use hj.Base.{
  ℕ, ◌≡◌, inl, inr, refl, sym, ap, subst, ◌∙◌, true, List, [], ◌∷◌, ◌++◌, length, set, swap_remove,
  all, arith,
}
use hj.Mm.Vm.{VmArea}
use hj.Mm.Vm.Space.{no_overlap}
use hj.Mm.Vm.View.Order.{
  shift, behind, snoc, append_nil, append_assoc, set_between, last_cases, swap_remove_last,
  swap_remove_between, all-Permᴰ,
}

-- Area `a` stands between the areas that the loop has still to visit and those that it has left.
module _ (s e : ℕ) (a : VmArea) (before after areas : List VmArea)
    (split : areas ≡ before ++ a ∷ after) (clear : all (no_overlap s e) after ≡ true) where
  -- The list of areas that a case leaves.
  pub record Left (ps areas' : List VmArea) : Type 0 where
    pub behind : List VmArea
    pub parts : areas' ≡ before ++ behind
    pub spared : all (no_overlap s e) behind ≡ true
    pub perm : Permᴰ (ps ++ (before ++ after)) areas'

  pub whole_left : Left [] (swap_remove (length before) areas)
  whole_left = elim (last_cases after) [
    | inl none_after ↦
        let parts : swap_remove (length before) areas ≡ before ++ [] =
          ap (swap_remove (length before)) (split ∙ ap (λ xs. before ++ a ∷ xs) none_after)
          ∙ swap_remove_last before a
          ∙ sym (append_nil before) in
        record {
          behind = [];
          parts = parts;
          spared = refl;
          perm =
              subst (λ xs. Permᴰ (before ++ after) xs) (sym parts)
                (subst (λ xs. Permᴰ (before ++ after) (before ++ xs)) none_after
                  (Permᴰ.refl (before ++ after)));
        }
    | inr (ys, b, with_last) ↦
        let parts : swap_remove (length before) areas ≡ before ++ b ∷ ys =
          ap (swap_remove (length before)) (split ∙ ap (λ xs. before ++ a ∷ xs) with_last)
          ∙ swap_remove_between before a ys b in
        let turned : Permᴰ after (b ∷ ys) =
          subst (λ xs. Permᴰ xs (b ∷ ys)) (sym with_last) (snoc ys b) in
        record {
          behind = b ∷ ys;
          parts = parts;
          spared = all-Permᴰ (no_overlap s e) turned clear;
          perm = subst (λ xs. Permᴰ (before ++ after) xs) (sym parts) (behind before turned);
        }
  ]

  pub set_left :
      (b : VmArea) → no_overlap s e b ≡ true → Left (b ∷ []) (set areas (length before) b)
  set_left b h =
      let parts : set areas (length before) b ≡ before ++ b ∷ after =
        ap (λ xs. set xs (length before) b) split ∙ set_between before a b after in
      record {
        behind = b ∷ after;
        parts = parts;
        spared = ground (arith, h, clear);
        perm =
            subst (λ xs. Permᴰ (b ∷ before ++ after) xs) (sym parts)
              (Permᴰ.symm (shift before b after));
      }

  pub push_left :
      (b c : VmArea)
      → no_overlap s e b ≡ true
      → no_overlap s e c ≡ true
      → Left (b ∷ c ∷ []) (set areas (length before) b ++ c ∷ [])
  push_left b c h k =
      let parts : set areas (length before) b ++ c ∷ [] ≡ before ++ (b ∷ after ++ c ∷ []) =
        ap (λ xs. set xs (length before) b ++ c ∷ []) split
        ∙ ap (λ xs. xs ++ c ∷ []) (set_between before a b after)
        ∙ append_assoc before (b ∷ after) (c ∷ []) in
      record {
        behind = b ∷ after ++ c ∷ [];
        parts = parts;
        spared = ground (
          arith,
          h,
          all-Permᴰ (no_overlap s e) (Permᴰ.symm (snoc after c)) (ground (arith, k, clear)),
        );
        perm =
            subst (λ xs. Permᴰ (b ∷ c ∷ before ++ after) xs) (sym parts)
              (Permᴰ.trans
                (Permᴰ.cons refl (
                  Permᴰ.trans (Permᴰ.symm (snoc (before ++ after) c)) (
                    subst (λ xs. Permᴰ ((before ++ after) ++ c ∷ []) xs)
                      (append_assoc before after (c ∷ []))
                      (Permᴰ.refl ((before ++ after) ++ c ∷ [])))))
                (Permᴰ.symm (shift before b (after ++ c ∷ []))));
      }
