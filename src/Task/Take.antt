-- ===== src/Task/Take.antt =====
-- `take_task_tcb` and `get_next_task_id` of task.rs: what is taken, and what is left.
use mathlib.Core.List.{Perm, perm-cons, perm_append_comm}
use mathlib.Core.List.Perm
use hj.Base.{
  ℕ, zero, suc, ◌-◌, ◌%◌, ◌<◌, ◌≡◌, ◌⊎◌, inl, inr, refl, sym, ap, ◌∙◌, subst, Bool, true, false,
  Option, none, some, List, [], ◌∷◌, ◌++◌, length, get_elem?, set, take, position, find, swap,
  swap_remove, arith, Bool-cases,
}
use hj.Base.{==→≡}
use hj.Task.{has_id, is_ready, get_next_task_id, take_at, take_task_tcb}
use hj.Task.State.{TaskControlBlock}
use mathlib.Core.Option

module _ {ℓ} {A : Type ℓ} where
  pub length-set : (xs : List A) (i : ℕ) (v : A) → length (set xs i v) ≡ length xs
  length-set [] i v = refl
  length-set (x ∷ xs) zero v = refl
  length-set (x ∷ xs) (suc i) v = ap suc (length-set xs i v)

  pub get-set_self :
      (xs : List A) (i : ℕ) (v : A) → i < length xs → get_elem? (set xs i v) i ≡ some v
  get-set_self [] i v h = absurd (omega arith)
  get-set_self (x ∷ xs) zero v h = refl
  get-set_self (x ∷ xs) (suc i) v h = get-set_self xs i v (omega arith)

  pub get-set :
      (xs : List A) (i j : ℕ) (v : A) → (i ≡ j) ⊎ (get_elem? (set xs i v) j ≡ get_elem? xs j)
  get-set [] i j v = inr refl
  get-set (x ∷ xs) zero zero v = inl refl
  get-set (x ∷ xs) zero (suc j) v = inr refl
  get-set (x ∷ xs) (suc i) zero v = inr refl
  get-set (x ∷ xs) (suc i) (suc j) v = elim (get-set xs i j v) [
    | inl e ↦ inl (ap suc e)
    | inr e ↦ inr e
  ]

  get_in : (xs : List A) (i : ℕ) → i < length xs → (a : A) × (get_elem? xs i ≡ some a)
  get_in [] i h = absurd (omega arith)
  get_in (x ∷ xs) zero h = (x, refl)
  get_in (x ∷ xs) (suc i) h = get_in xs i (omega arith)

  in_range : (xs : List A) (i : ℕ) {a : A} → get_elem? xs i ≡ some a → i < length xs
  in_range [] i e = cc
  in_range (x ∷ xs) zero e = omega arith
  in_range (x ∷ xs) (suc i) e = omega (arith, in_range xs i e)

  -- A write exchanges the old element for the new one.
  exchange :
      (xs : List A) (i : ℕ) (a b : A) → get_elem? xs i ≡ some a → Perm (a ∷ set xs i b) (b ∷ xs)
  exchange [] i a b e = absurd (ground arith)
  exchange (x ∷ xs) zero a b e =
      subst (λ z. Perm (a ∷ b ∷ xs) (b ∷ z ∷ xs)) (ground arith) (Perm.swap b a xs)
  exchange (x ∷ xs) (suc i) a b e =
      Perm.trans (Perm.swap x a (set xs i b))
        (Perm.trans (Perm.cons x (exchange xs i a b e)) (Perm.swap b x xs))

  swap_lem :
      (xs : List A) (i j : ℕ) (a : A)
      → get_elem? xs i ≡ some a
      → j < length xs
      → Perm (swap i j xs) xs
        × (get_elem? (swap i j xs) j ≡ some a)
        × (length (swap i j xs) ≡ length xs)
  swap_lem xs i j a e h =
      let (b, eb) = get_in xs j h in
      let at_j : get_elem? (set xs i b) j ≡ some b = elim (get-set xs i j b) [
        | inl same ↦
            subst (λ k. get_elem? (set xs i b) k ≡ some b) same
              (get-set_self xs i b (in_range xs i e))
        | inr kept ↦ kept ∙ eb
      ] in
      let first = exchange (set xs i b) j b a at_j in
      let second = exchange xs i a b e in
      rw (e, eb, swap)
        (
          (perm-cons b).0 (Perm.trans first second),
          get-set_self (set xs i b) j a (rw length-set h),
          length-set (set xs i b) j a ∙ length-set xs i b,
        )

  -- The last element, split off.
  snoc_take :
      (xs : List A) (n : ℕ) {a : A}
      → length xs ≡ suc n
      → get_elem? xs n ≡ some a
      → take n xs ++ a ∷ [] ≡ xs
  snoc_take [] n h e = absurd (omega arith)
  snoc_take (x ∷ []) zero h e = ap (λ z. z ∷ []) (sym (ground arith))
  snoc_take (x ∷ y ∷ xs) zero h e = absurd (omega arith)
  snoc_take (x ∷ xs) (suc n) h e = ap (λ z. x ∷ z) (snoc_take xs n (omega arith) e)

  swap_remove_lem :
      (xs : List A) (i : ℕ) (a : A) → get_elem? xs i ≡ some a → Perm (a ∷ swap_remove i xs) xs
  swap_remove_lem xs i a e =
      let n = length xs - 1 in
      let h = in_range xs i e in
      let (last, el) = get_in xs n (omega arith) in
      let at_n : get_elem? (set xs i last) n ≡ some last = elim (get-set xs i n last) [
        | inl same ↦
            subst (λ k. get_elem? (set xs i last) k ≡ some last) same (get-set_self xs i last h)
        | inr kept ↦ kept ∙ el
      ] in
      let short = take n (set xs i last) in
      let whole : short ++ last ∷ [] ≡ set xs i last =
        snoc_take (set xs i last) n (omega (arith, length-set xs i last)) at_n in
      let moved : Perm (last ∷ a ∷ short) (a ∷ set xs i last) =
        Perm.trans (Perm.swap a last short) (
          Perm.cons a
            (subst (λ z. Perm (last ∷ short) z) whole (perm_append_comm (last ∷ []) short))) in
      rw (el, swap_remove) ((perm-cons last).0 (Perm.trans moved (exchange xs i a last e)))

  unfoldable pub Hit : (A → Bool) → List A → Option ℕ → Type ℓ
  Hit p xs none = find p xs ≡ none
  Hit p xs (some i) = (a : A) × (get_elem? xs i ≡ some a) × (p a ≡ true) × (find p xs ≡ some a)

  Hit-suc :
      (p : A → Bool) (x : A) (xs : List A) (r : Option ℕ)
      → p x ≡ false
      → Hit p xs r
      → Hit p (x ∷ xs) (elim r [ none ↦ none | some i ↦ some (suc i) ])
  unfolding Hit
  Hit-suc p x xs none miss h = rw miss h
  Hit-suc p x xs (some i) miss (a, get, hit, found) = (a, get, hit, rw miss found)

  pub position-Hit : (p : A → Bool) (xs : List A) → Hit p xs (position p xs)
  unfolding Hit
  position-Hit p [] = refl
  position-Hit p (x ∷ xs) = elim (Bool-cases (p x)) [
    | inl hit ↦ rw hit (x, refl, hit, rw hit)
    | inr miss ↦ rw miss (Hit-suc p x xs (position p xs) miss (position-Hit p xs))
  ]

-- What `take_task_tcb` promises: the first task with the id, and all the other tasks, each as often
-- as before; or nothing, where no task has the id.
abbrev pub Takes :
    ℕ → List TaskControlBlock → Option (TaskControlBlock × List TaskControlBlock) → Type 0
Takes task_id tasks none = find (has_id task_id) tasks ≡ none
Takes task_id tasks (some (tcb, rest)) =
    (tcb.task_id ≡ task_id) × (find (has_id task_id) tasks ≡ some tcb) × Perm (tcb ∷ rest) tasks

take_at_lem :
    (time : ℕ) (tasks : List TaskControlBlock) (index : ℕ) {tcb : TaskControlBlock}
    → get_elem? (swap index (time % length tasks) tasks) (time % length tasks) ≡ some tcb
    → take_at index time tasks
      ≡ some (tcb, swap_remove (time % length tasks) (swap index (time % length tasks) tasks))
unfolding take_at
take_at_lem time tasks index at = rw (take_at, at) refl

pub take_at-Takes :
    (task_id time : ℕ) (tasks : List TaskControlBlock) (index : ℕ) (tcb : TaskControlBlock)
    → get_elem? tasks index ≡ some tcb
    → has_id task_id tcb ≡ true
    → find (has_id task_id) tasks ≡ some tcb
    → Takes task_id tasks (take_at index time tasks)
take_at-Takes task_id time tasks index tcb get hit found =
    let rand = time % length tasks in
    let (perm, at, same) =
      swap_lem tasks index rand tcb get (omega (arith, in_range tasks index get)) in
    subst (λ r. Takes task_id tasks r) (sym (take_at_lem time tasks index at))
      (==→≡ tcb.task_id task_id hit, found, Perm.trans (swap_remove_lem _ rand tcb at) perm)

-- For every id, time and list: `take_task_tcb` takes the first task with the id and leaves all
-- the others, each as often as before, or it returns nothing and no task has the id.
pub take_task_tcb-Takes :
    (task_id time : ℕ) (tasks : List TaskControlBlock)
    → Takes task_id tasks (take_task_tcb task_id time tasks)
unfolding take_task_tcb Hit
take_task_tcb-Takes task_id time tasks =
    split (position (has_id task_id) tasks) (position-Hit (has_id task_id) tasks)
  where
    split :
        (r : Option ℕ)
        → Hit (has_id task_id) tasks r
        → Takes task_id tasks (elim r [ none ↦ none | some index ↦ take_at index time tasks ])
    split none h = h
    split (some index) (tcb, get, hit, found) =
        take_at-Takes task_id time tasks index tcb get hit found

-- For every list, the next task's id is that of the first ready task; with none ready there is
-- none.
pub get_next_task_id_lem :
    (tasks : List TaskControlBlock)
    → get_next_task_id tasks ≡ Option.map (λ tcb. tcb.task_id) (find is_ready tasks)
unfolding get_next_task_id Hit
get_next_task_id_lem tasks = split (position is_ready tasks) (position-Hit is_ready tasks)
  where
    split :
        (r : Option ℕ)
        → Hit is_ready tasks r
        → (elim r [
          | none ↦ none
          | some i ↦ elim (get_elem? tasks i) [ none ↦ none | some tcb ↦ some tcb.task_id ]
        ])
          ≡ Option.map (λ tcb. tcb.task_id) (find is_ready tasks)
    split none h = rw h
    split (some i) (tcb, get, hit, found) = rw (get, found)
