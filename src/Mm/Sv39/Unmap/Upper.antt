-- ===== src/Mm/Sv39/Unmap/Upper.antt =====
-- The two outer loops of `RootPgt::unmap` of os/src/mm/sv39.rs against the walk of the hardware.
use hj.Base.{
  Bool, ℕ, ◌+◌, ◌*◌, ◌/◌, ◌%◌, ◌^◌, ◌<◌, ◌≤◌, ◌≡◌, refl, ap, ◌∙◌, true, false, none, not, arith,
  ◌==◌,
}
use hj.Mm.Memory.{Memory}
use hj.Mm.Sv39.{Pte, is_valid, is_leaf}
use hj.Mm.Sv39.Pte.{is_valid_odd, is_leaf_bits}
use hj.Mm.Sv39.Tree.{entry, child, walk, walk_1, mid, Roles, below, IsTree, IsNext}
use hj.Mm.Sv39.Unmap.Clear.{Clears}

pub not-true : {b : Bool} → not b ≡ true → b ≡ false
not-true {b = true} e = absurd cc
not-true {b = false} e = refl

pub not-false : {b : Bool} → not b ≡ false → b ≡ true
not-false {b = true} e = refl
not-false {b = false} e = absurd cc

-- The loops end at the lowest table number `stop`, in the order of the pages: it is there, the end of
-- the range is not past its last page, and no table up to it has a leaf at an upper level.
pub record Stops (root end stop : ℕ) (mem : Memory) : Type 0 where
  pub bound : stop < 2 ^ 18
  pub beyond : end ≤ stop * 512 + 511
  pub pointer2 : is_valid (entry mem root (stop / 512)) ≡ true
  pub pointer1 : is_valid (entry mem (child (entry mem root (stop / 512))) (stop % 512)) ≡ true
  pub leafless2 : (a : ℕ) → a * 512 ≤ stop → is_leaf (entry mem root a) ≡ false
  pub leafless1 :
      (a b : ℕ)
      → b < 512
      → a * 512 + b ≤ stop
      → is_valid (entry mem root a) ≡ true
      → is_leaf (entry mem (child (entry mem root a)) b) ≡ false

-- The same last table serves every end that is not past its last page.
pub Stops-end :
    {root end end' stop : ℕ} {mem : Memory}
    → end' ≤ stop * 512 + 511
    → Stops root end stop mem
    → Stops root end' stop mem
Stops-end le stops = record {
  bound = stops.bound;
  beyond = le;
  pointer2 = stops.pointer2;
  pointer1 = stops.pointer1;
  leafless2 = stops.leafless2;
  leafless1 = stops.leafless1;
}

pub is_next : (e : Pte) → is_valid e ≡ true → is_leaf e ≡ false → IsNext e
is_next e v more =
    let odd : e % 2 ≡ 1 = ground (arith, is_valid_odd e) in (odd, ground (arith, is_leaf_bits e))

module _ {ρ : Roles} {root end stop : ℕ} where
  -- The table below a valid entry of the root.
  pub below_root :
      {mem : Memory}
      → IsTree ρ mem root
      → Stops root end stop mem
      → (a : ℕ) → a < 512
      → a * 512 ≤ stop
      → is_valid (entry mem root a) ≡ true
      → (ρ (child (entry mem root a)) ≡ mid a) × (entry mem root a / 2 % 8 ≡ 0)
  below_root {mem} tree s a ha reach v =
      let down =
        tree.links root a (rw tree.root_top) ha
          (is_next (entry mem root a) v (s.leafless2 a reach)) in
      (down.0 ∙ ap (λ r. below r a) tree.root_top, down.1)

  pub Stops-Clears :
      {mem mem' : Memory} (lo hi : ℕ)
      → IsTree ρ mem root
      → Clears ρ root end lo hi mem mem'
      → Stops root end stop mem
      → Stops root end stop mem'
  Stops-Clears {mem} {mem'} lo hi tree c s = record {
    bound = s.bound;
    beyond = s.beyond;
    pointer2 = rw (same (stop / 512) (omega (arith, s.bound))) s.pointer2;
    pointer1 = rw (same (stop / 512) (omega (arith, s.bound))) (
        rw
          (same_below (stop / 512) (stop % 512) (omega (arith, s.bound)) (omega arith) (omega arith)
            s.pointer2)
          s.pointer1);
    leafless2 = λ a l. rw (same a (omega (arith, s.bound))) (s.leafless2 a l);
    leafless1 = λ a b hb l v.
        let ha : a < 512 = omega (arith, s.bound) in
        let v0 = rw (same a ha) at v in
        rw (same a ha) (rw (same_below a b ha hb (omega arith) v0) (s.leafless1 a b hb l v0));
  }
    where
      same : (a : ℕ) → a < 512 → entry mem' root a ≡ entry mem root a
      same a ha = c.kept root a (rw tree.root_top) ha

      same_below :
          (a b : ℕ)
          → a < 512
          → b < 512
          → a * 512 ≤ stop
          → is_valid (entry mem root a) ≡ true
          → entry mem' (child (entry mem root a)) b ≡ entry mem (child (entry mem root a)) b
      same_below a b ha hb l v =
          c.kept (child (entry mem root a)) b (rw ((below_root tree s a ha l v).0)) hb

-- A walk that meets an entry that is not valid.
pub walk-invalid2 :
    (mem : Memory) (root a u : ℕ)
    → u / 2 ^ 18 % 512 ≡ a
    → is_valid (entry mem root a) ≡ false
    → walk mem root u ≡ none
unfolding walk
walk-invalid2 mem root a u f v =
    let even : (entry mem root a % 2 == 0) ≡ true =
      ground (arith, is_valid_odd (entry mem root a)) in
    rw (f, even) refl

pub walk-invalid1 :
    (mem : Memory) (root a b c1 u : ℕ)
    → u / 2 ^ 18 % 512 ≡ a
    → u / 512 % 512 ≡ b
    → IsNext (entry mem root a)
    → entry mem root a / 2 % 8 ≡ 0
    → child (entry mem root a) ≡ c1
    → is_valid (entry mem c1 b) ≡ false
    → walk mem root u ≡ none
unfolding walk walk_1
walk-invalid1 mem root a b c1 u f2 f1 next plain leads v =
    let valid : (entry mem root a % 2 == 0) ≡ false = ground (arith, next.0) in
    let point : (entry mem root a / 2 % 8 == 0) ≡ true = ground (arith, plain) in
    let even : (entry mem c1 b % 2 == 0) ≡ true = ground (arith, is_valid_odd (entry mem c1 b)) in
    rw (f2, valid, point, leads, f1, even) refl
