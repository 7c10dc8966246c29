-- ===== src/Mm/Sv39/Leaf.antt =====
-- The write of a leaf entry in a table of the lowest level.
use hj.Base.{
  ℕ, ◌+◌, ◌*◌, ◌/◌, ◌%◌, ◌^◌, ◌<◌, ◌≡◌, ◌≢◌, ◌⊎◌, inl, inr, sym, ap, ◌∙◌, true, false, none, some,
  arith, ◌==◌, ==→≡, ==→≢, Bool-cases,
}
use hj.Mm.{Ppn, Vpn}
use hj.Mm.Memory.{Memory, write_word}
use hj.Mm.Sv39.{Pte}
use hj.Mm.Sv39.Tree.{
  ptr, entry, child, walk_0, walk_1, walk, mid, low, Roles, is_upper, below, IsNext, IsTree,
  entry-write_self, entry-write_ne,
}
use hj.Mm.Sv39.Grow.{walk_next}

-- Two page numbers that a walk cannot tell apart have the same three fields.
abbrev pub SameFields : Vpn → Vpn → Type 0
SameFields u v =
    (u / 2 ^ 18 % 512 ≡ v / 2 ^ 18 % 512) × (u / 512 % 512 ≡ v / 512 % 512) × (u % 512 ≡ v % 512)

-- A walk that goes through pointers to the table `c0`.
pub record Path3 (mem : Memory) (root c1 c0 : Ppn) (v : Vpn) : Type 0 where
  pub next2 : IsNext (entry mem root (v / 2 ^ 18 % 512))
  pub plain2 : entry mem root (v / 2 ^ 18 % 512) / 2 % 8 ≡ 0
  pub leads2 : child (entry mem root (v / 2 ^ 18 % 512)) ≡ c1
  pub next1 : IsNext (entry mem c1 (v / 512 % 512))
  pub plain1 : entry mem c1 (v / 512 % 512) / 2 % 8 ≡ 0
  pub leads1 : child (entry mem c1 (v / 512 % 512)) ≡ c0

pub walk-Path3 :
    (mem : Memory) (root c1 c0 : Ppn) (v : Vpn)
    → Path3 mem root c1 c0 v
    → walk mem root v ≡ walk_0 mem c0 v
unfolding walk walk_1
walk-Path3 mem root c1 c0 v path =
    let e2 = entry mem root (v / 2 ^ 18 % 512) in
    let e1 = entry mem c1 (v / 512 % 512) in
    let valid2 : (e2 % 2 == 0) ≡ false = ground (arith, path.next2.0) in
    let point2 : (e2 / 2 % 8 == 0) ≡ true = ground (arith, path.plain2) in
    let valid1 : (e1 % 2 == 0) ≡ false = ground (arith, path.next1.0) in
    let point1 : (e1 / 2 % 8 == 0) ≡ true = ground (arith, path.plain1) in
    rw (valid2, point2, path.leads2) (rw (valid1, point1, path.leads1))

module _ (ρ : Roles) (mem : Memory) (root c1 c0 : Ppn) (v : Vpn) (tree : IsTree ρ mem root)
    (path : Path3 mem root c1 c0 v) (role1 : ρ c1 ≡ mid (v / 2 ^ 18 % 512))
    (role0 : ρ c0 ≡ low (v / 2 ^ 18 % 512) (v / 512 % 512)) (leaf : Pte)
    (fits : leaf < 2 ^ 64) where
  abbrev written : Memory
  written = write_word (ptr c0 + 8 * (v % 512)) leaf mem

  -- Entries of the tables above are as they were.
  pub upper_kept :
      (q : Ppn) (j : ℕ) → is_upper (ρ q) ≡ true → j < 512 → entry written q j ≡ entry mem q j
  upper_kept q j up h =
      entry-write_ne mem c0 (v % 512) q j leaf (omega arith) h (inl (λ e. ground (arith, ap ρ e)))

  pub written-IsTree : IsTree ρ written root
  written-IsTree = record {
    root_top = tree.root_top;
    frames = tree.frames;
    links =
        λ q j up h next. let e = upper_kept q j up h in rw e (tree.links q j up h (rw e at next));
  }

  root_upper : is_upper (ρ root) ≡ true
  root_upper = rw tree.root_top

  c1_upper : is_upper (ρ c1) ≡ true
  c1_upper = rw role1

  pub written-Path3 : Path3 written root c1 c0 v
  written-Path3 =
      let e2 = upper_kept root (v / 2 ^ 18 % 512) root_upper (omega arith) in
      let e1 = upper_kept c1 (v / 512 % 512) c1_upper (omega arith) in
      record {
        next2 = rw e2 path.next2;
        plain2 = rw e2 path.plain2;
        leads2 = rw e2 path.leads2;
        next1 = rw e1 path.next1;
        plain1 = rw e1 path.plain1;
        leads1 = rw e1 path.leads1;
      }

  -- A write of 0 unmaps the page.
  pub written-walk_zero : leaf ≡ 0 → walk written root v ≡ none
  written-walk_zero zero = walk-Path3 written root c1 c0 v written-Path3 ∙ found
    where
      found : walk_0 written c0 v ≡ none
      found =
          let e = entry-write_self mem c0 (v % 512) leaf fits in
          let even : (leaf % 2 == 0) ≡ true = ground arith in unfold walk_0 in rw (e, even)

  pub written-walk_self : leaf % 2 ≡ 1 → walk written root v ≡ some (0, leaf)
  written-walk_self valid = walk-Path3 written root c1 c0 v written-Path3 ∙ found
    where
      found : walk_0 written c0 v ≡ some (0, leaf)
      found =
          let e = entry-write_self mem c0 (v % 512) leaf fits in
          let odd : (leaf % 2 == 0) ≡ false = ground arith in unfold walk_0 in rw (e, odd)

  module _ (u : Vpn) (apart : ¬ SameFields u v) where
    differ :
        (q : Ppn) → ρ q ≡ low (u / 2 ^ 18 % 512) (u / 512 % 512) → (c0 ≢ q) ⊎ (v % 512 ≢ u % 512)
    differ q is_low = elim (Bool-cases (c0 == q)) [
      | inl e ↦
          let roles : low (u / 2 ^ 18 % 512) (u / 512 % 512)
              ≡ low (v / 2 ^ 18 % 512) (v / 512 % 512) =
            sym is_low ∙ ap ρ (sym (==→≡ c0 q e)) ∙ role0 in
          inr (λ z. apart (ground arith, ground arith, sym z))
      | inr ne ↦ inl (==→≢ c0 q ne)
    ]

    low_same :
        (q : Ppn)
        → ρ q ≡ low (u / 2 ^ 18 % 512) (u / 512 % 512)
        → walk_0 written q u ≡ walk_0 mem q u
    unfolding walk_0
    low_same q is_low =
        let e =
          entry-write_ne mem c0 (v % 512) q (u % 512) leaf (omega arith) (omega arith)
            (differ q is_low) in
        rw e

    mid_same : (q : Ppn) → ρ q ≡ mid (u / 2 ^ 18 % 512) → walk_1 written q u ≡ walk_1 mem q u
    unfolding walk_1
    mid_same q is_mid =
        let j = u / 512 % 512 in
        let up : is_upper (ρ q) ≡ true = rw is_mid in
        rw (upper_kept q j up (omega arith)) (
          walk_next (entry mem q j) (some (1, entry mem q j)) λ a b.
            let down = tree.links q j up (omega arith) (a, omega arith) in
            low_same (child (entry mem q j)) (down.0 ∙ ap (λ r. below r j) is_mid))

    pub written-walk_ne : walk written root u ≡ walk mem root u
    unfolding walk
    written-walk_ne =
        let j = u / 2 ^ 18 % 512 in
        rw (upper_kept root j root_upper (omega arith)) (
          walk_next (entry mem root j) (some (2, entry mem root j)) λ a b.
            let down = tree.links root j root_upper (omega arith) (a, omega arith) in
            mid_same (child (entry mem root j)) (down.0 ∙ ap (λ r. below r j) tree.root_top))
