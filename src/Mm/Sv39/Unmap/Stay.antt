-- ===== src/Mm/Sv39/Unmap/Stay.antt =====
-- Where the loops of `RootPgt::unmap` end, after other methods of os/src/mm/sv39.rs.
use hj.Base.{
  ℕ, ◌+◌, ◌-◌, ◌*◌, ◌/◌, ◌%◌, ◌^◌, ◌<◌, ◌≤◌, ◌≡◌, ◌≢◌, inl, inr, refl, sym, ap, ◌∙◌, true, false,
  Option, none, some, ◌==◌, ltb, arith, Bool-cases, ==→≡, ==→≢,
}
use hj.Mm.{Ppn, Vpn}
use hj.Mm.Bounds.{IsVpn}
use hj.Mm.Memory.{Memory}
use hj.Mm.Sv39.{Pte, is_valid, is_leaf}
use hj.Mm.Sv39.Pte.{is_valid_odd, is_leaf_bits}
use hj.Mm.Sv39.Tree.{entry, child, walk, walk_1, walk_0, Roles, is_upper, IsTree, IsNext}
use hj.Mm.Sv39.Unmap.Upper.{Stops, is_next, below_root}

-- The level at which a walk ends, or 3 for a fault.
abbrev level : Option (ℕ × Pte) → ℕ
level none = 3
level (some (l, e)) = l

-- A page below given entries of the two upper tables, and not a given one.
pick :
    (vpn a b : ℕ)
    → a < 512
    → b < 512
    → (v : Vpn) × IsVpn v × (v ≢ vpn) × (v / 2 ^ 18 % 512 ≡ a) × (v / 512 % 512 ≡ b)
pick vpn a b ha hb = elim (Bool-cases (ltb a 256)) [
  | inl lower ↦
      let v = a * 2 ^ 18 + b * 512 in
      let h : a < 256 = ground arith in
      elim (Bool-cases (v == vpn)) [
        | inr ne ↦ (v, inl (omega (arith, h)), ==→≢ v vpn ne, omega arith, omega arith)
        | inl e ↦ (
          v + 1,
          inl (omega (arith, h)),
          λ z. omega (arith, z, ==→≡ v vpn e),
          omega arith,
          omega arith,
        )
      ]
  | inr upper ↦
      let v = a * 2 ^ 18 + b * 512 + (2 ^ 52 - 2 ^ 27) in
      let h : 256 ≤ a = ground arith in
      elim (Bool-cases (v == vpn)) [
        | inr ne ↦
            (v, inr (omega (arith, h), omega (arith, h)), ==→≢ v vpn ne, omega arith, omega arith)
        | inl e ↦ (
          v + 1,
          inr (omega (arith, h), omega (arith, h)),
          λ z. omega (arith, z, ==→≡ v vpn e),
          omega arith,
          omega arith,
        )
      ]
]

level_0 : (mem : Memory) (p v : ℕ) → (level (walk_0 mem p v) ≢ 2) × (level (walk_0 mem p v) ≢ 1)
unfolding walk_0
level_0 mem p v = elim (Bool-cases (entry mem p (v % 512) % 2 == 0)) [
  | inl fault ↦ rw fault ((λ z. omega arith), (λ z. omega arith))
  | inr valid ↦ rw valid ((λ z. omega arith), (λ z. omega arith))
]

level_1 : (mem : Memory) (p v : ℕ) → level (walk_1 mem p v) ≢ 2
unfolding walk_1
level_1 mem p v =
    let e = entry mem p (v / 512 % 512) in
    elim (Bool-cases (e % 2 == 0)) [
      | inl fault ↦ rw fault (λ z. omega arith)
      | inr valid ↦ elim (Bool-cases (e / 2 % 8 == 0)) [
        | inl next ↦ rw (valid, next) ((level_0 mem (child e) v).0)
        | inr leaf ↦ rw (valid, leaf) (λ z. omega arith)
      ]
    ]

-- The walk at an upper entry that is not valid, or a pointer, or a leaf.
walk_fault :
    (mem : Memory) (root v : ℕ)
    → is_valid (entry mem root (v / 2 ^ 18 % 512)) ≡ false
    → walk mem root v ≡ none
unfolding walk
walk_fault mem root v h =
    let e = entry mem root (v / 2 ^ 18 % 512) in
    let even : (e % 2 == 0) ≡ true = ground (arith, is_valid_odd e) in rw even refl

walk_pointer :
    (mem : Memory) (root v : ℕ)
    → is_valid (entry mem root (v / 2 ^ 18 % 512)) ≡ true
    → entry mem root (v / 2 ^ 18 % 512) / 2 % 8 ≡ 0
    → walk mem root v ≡ walk_1 mem (child (entry mem root (v / 2 ^ 18 % 512))) v
unfolding walk
walk_pointer mem root v h plain =
    let e = entry mem root (v / 2 ^ 18 % 512) in
    let odd : (e % 2 == 0) ≡ false = ground (arith, is_valid_odd e) in
    let next : (e / 2 % 8 == 0) ≡ true = ground (arith, plain) in rw (odd, next) refl

walk_leaf :
    (mem : Memory) (root v : ℕ)
    → is_leaf (entry mem root (v / 2 ^ 18 % 512)) ≡ true
    → level (walk mem root v) ≡ 2
unfolding walk
walk_leaf mem root v h =
    let e = entry mem root (v / 2 ^ 18 % 512) in
    let odd : (e % 2 == 0) ≡ false = ground (arith, is_leaf_bits e) in
    let leaf : (e / 2 % 8 == 0) ≡ false = ground (arith, is_leaf_bits e) in rw (odd, leaf) refl

walk_1_leaf :
    (mem : Memory) (p v : ℕ)
    → is_leaf (entry mem p (v / 512 % 512)) ≡ true
    → level (walk_1 mem p v) ≡ 1
unfolding walk_1
walk_1_leaf mem p v h =
    let e = entry mem p (v / 512 % 512) in
    let odd : (e % 2 == 0) ≡ false = ground (arith, is_leaf_bits e) in
    let leaf : (e / 2 % 8 == 0) ≡ false = ground (arith, is_leaf_bits e) in rw (odd, leaf) refl

walk_1_leafless :
    (mem : Memory) (p v : ℕ)
    → (is_valid (entry mem p (v / 512 % 512)) ≡ true → entry mem p (v / 512 % 512) / 2 % 8 ≡ 0)
    → level (walk_1 mem p v) ≢ 1
unfolding walk_1
walk_1_leafless mem p v plain =
    let e = entry mem p (v / 512 % 512) in
    elim (Bool-cases (e % 2 == 0)) [
      | inl fault ↦ rw fault (λ z. omega arith)
      | inr valid ↦
          let next : (e / 2 % 8 == 0) ≡ true = ground (arith, is_valid_odd e, plain) in
          rw (valid, next) ((level_0 mem (child e) v).1)
    ]

-- What a method keeps: the pointers of the upper tables, and every walk but the one of a page.
module _ {ρ ρ' : Roles} {root end stop : ℕ} {mem mem' : Memory} (vpn : Vpn)
    (tree : IsTree ρ mem root) (tree' : IsTree ρ' mem' root)
    (kept : (q : Ppn) (j : ℕ)
      → is_upper (ρ q) ≡ true
      → j < 512
      → IsNext (entry mem q j)
      → entry mem' q j ≡ entry mem q j)
    (walks : (u : Vpn) → IsVpn u → u ≢ vpn → walk mem' root u ≡ walk mem root u)
    (stops : Stops root end stop mem) where
  next2 : (a : ℕ) → a * 512 ≤ stop → is_valid (entry mem root a) ≡ true → IsNext (entry mem root a)
  next2 a l v = is_next (entry mem root a) v (stops.leafless2 a l)

  small : (a : ℕ) → a * 512 ≤ stop → a < 512
  small a l = omega (arith, stops.bound)

  same2 :
      (a : ℕ)
      → a * 512 ≤ stop
      → is_valid (entry mem root a) ≡ true
      → entry mem' root a ≡ entry mem root a
  same2 a l v = kept root a (rw tree.root_top) (small a l) (next2 a l v)

  -- Before, no walk ends at the second level.
  before2 : (v a : ℕ) → v / 2 ^ 18 % 512 ≡ a → a * 512 ≤ stop → level (walk mem root v) ≢ 2
  before2 v a e l z = elim (Bool-cases (is_valid (entry mem root a))) [
    | inr invalid ↦
        let fault = walk_fault mem root v (rw e invalid) in
        absurd (omega (arith, z, ap level fault))
    | inl valid ↦
        let down = (below_root tree stops a (small a l) l valid).1 in
        level_1 mem (child (entry mem root (v / 2 ^ 18 % 512))) v
          (sym (ap level (walk_pointer mem root v (rw e valid) (rw e down))) ∙ z)
  ]

  before1 :
      (v a b : ℕ)
      → v / 2 ^ 18 % 512 ≡ a
      → v / 512 % 512 ≡ b
      → b < 512
      → a * 512 + b ≤ stop
      → level (walk mem root v) ≢ 1
  before1 v a b e f hb l z = elim (Bool-cases (is_valid (entry mem root a))) [
    | inr invalid ↦
        let fault = walk_fault mem root v (rw e invalid) in
        absurd (omega (arith, z, ap level fault))
    | inl valid ↦
        let first : a * 512 ≤ stop = omega arith in
        let down = below_root tree stops a (small a first) first valid in
        walk_1_leafless mem (child (entry mem root (v / 2 ^ 18 % 512))) v
          (rw (e, f)
            (λ v1.
              (tree.links (child (entry mem root a)) b (rw down.0) hb
                (is_next _ v1 (stops.leafless1 a b hb l valid))).1))
          (sym (ap level (walk_pointer mem root v (rw e valid) (rw e down.1))) ∙ z)
  ]

  leafless2' : (a : ℕ) → a * 512 ≤ stop → is_leaf (entry mem' root a) ≡ false
  leafless2' a l = elim (Bool-cases (is_leaf (entry mem' root a))) [
    | inr leafless ↦ leafless
    | inl leaf ↦
        let (v, canonical, ne, e, f) = pick vpn a 0 (small a l) (omega arith) in
        absurd (
          before2 v a e l
            (sym (ap level (walks v canonical ne)) ∙ walk_leaf mem' root v (rw e leaf)))
  ]

  leafless1' :
      (a b : ℕ)
      → b < 512
      → a * 512 + b ≤ stop
      → is_valid (entry mem' root a) ≡ true
      → is_leaf (entry mem' (child (entry mem' root a)) b) ≡ false
  leafless1' a b hb l valid =
      elim (Bool-cases (is_leaf (entry mem' (child (entry mem' root a)) b))) [
        | inr leafless ↦ leafless
        | inl leaf ↦
            let first : a * 512 ≤ stop = omega arith in
            let (v, canonical, ne, e, f) = pick vpn a b (small a first) hb in
            let plain =
              (tree'.links root a (rw tree'.root_top) (small a first)
                (is_next (entry mem' root a) valid (leafless2' a first))).1 in
            absurd (
              before1 v a b e f hb l (
                sym (ap level (walks v canonical ne))
                ∙ ap level (walk_pointer mem' root v (rw e valid) (rw e plain))
                ∙ walk_1_leaf mem' (child (entry mem' root (v / 2 ^ 18 % 512))) v (rw (e, f) leaf)))
      ]

  pub Stops-stay : Stops root end stop mem'
  Stops-stay =
      let a = stop / 512 in
      let b = stop % 512 in
      let l : a * 512 ≤ stop = omega arith in
      let same = same2 a l stops.pointer2 in
      let down = below_root tree stops a (small a l) l stops.pointer2 in
      let same1 = kept (child (entry mem root a)) b (rw down.0) (omega arith) (
        is_next _ stops.pointer1
          (stops.leafless1 a b (omega arith) (omega arith) stops.pointer2)) in
      record {
        bound = stops.bound;
        beyond = stops.beyond;
        pointer2 = rw same stops.pointer2;
        pointer1 = rw same (rw same1 stops.pointer1);
        leafless2 = leafless2';
        leafless1 = leafless1';
      }
