-- ===== src/Mm/Sv39/Maps.antt =====
-- What `RootPgt::map_create` of os/src/mm/sv39.rs promises, in terms of the hardware's walk.
use hj.Base.{
  ℕ, ◌+◌, ◌*◌, ◌/◌, ◌%◌, ◌^◌, ◌<◌, ◌≡◌, ◌≢◌, ◌⊎◌, sym, ap, ◌∙◌, true, false, Option, none, some,
  arith, ◌==◌,
}
use hj.Outcome.{Outcome, ok, err, panic}
use hj.Mm.{Ppn, Vpn}
use hj.Mm.Bounds.{IsVpn}
use hj.Mm.PageAlloc.{Machine, alloc}
use hj.Mm.Memory.{Memory}
use hj.Mm.Sv39.{
  Pte, RootPgt, PgtError, acquire_page_failed, invalid_pte_flags, double_mapping, is_valid, is_leaf,
  is_valid_flags,
}
use hj.Mm.Sv39.Pte.{is_valid_odd, is_leaf_bits}
use hj.Mm.Sv39.Tree.{entry, child, walk, walk_0, walk_1, unused, Roles, is_upper, IsNext}
use hj.Mm.Sv39.Leaf.{SameFields}
use hj.Mm.Sv39.Child.{Inv, Extends}

pub SameFields-eq : (u v : Vpn) → IsVpn u → IsVpn v → SameFields u v → u ≡ v
SameFields-eq u v hu hv same = omega arith

-- A leaf at one of the upper levels is found by the walk.
pub walk_leaf_2 :
    (mem : Memory) (root : Ppn) (v : Vpn)
    → is_leaf (entry mem root (v / 2 ^ 18 % 512)) ≡ true
    → walk mem root v ≢ none
unfolding walk
walk_leaf_2 mem root v leaf = ground (arith, is_leaf_bits (entry mem root (v / 2 ^ 18 % 512)))

pub walk_leaf_1 :
    (mem : Memory) (root c1 : Ppn) (v : Vpn)
    → IsNext (entry mem root (v / 2 ^ 18 % 512))
    → entry mem root (v / 2 ^ 18 % 512) / 2 % 8 ≡ 0
    → child (entry mem root (v / 2 ^ 18 % 512)) ≡ c1
    → is_leaf (entry mem c1 (v / 512 % 512)) ≡ true
    → walk mem root v ≢ none
unfolding walk walk_1
walk_leaf_1 mem root c1 v next plain leads leaf =
    let e2 = entry mem root (v / 2 ^ 18 % 512) in
    let e1 = entry mem c1 (v / 512 % 512) in
    let valid : (e2 % 2 == 0) ≡ false = ground (arith, next.0) in
    let point : (e2 / 2 % 8 == 0) ≡ true = ground (arith, plain) in
    rw (valid, point, leads) (ground (arith, is_leaf_bits e1))

module _ (ρ : Roles) (s : Machine × RootPgt) (vpn : Vpn) (ppn : Ppn) (flags : ℕ) where
  abbrev before : Vpn → Option (ℕ × Pte)
  before = walk s.0.memory s.1.ppn

  -- The page is mapped to the frame, with the flags; every other walk is as before.
  pub record Mapped (s' : Machine × RootPgt) : Type 0 where
    pub roles' : Roles
    pub inv : Inv roles' s'
    -- The pages in use keep their use, and the upper tables their pointers.
    pub kept : (q : Ppn) → ρ q ≢ unused → roles' q ≡ ρ q
    pub pointers :
        (q : Ppn) (j : ℕ)
        → is_upper (ρ q) ≡ true
        → j < 512
        → IsNext (entry s.0.memory q j)
        → entry s'.0.memory q j ≡ entry s.0.memory q j
    pub root : s'.1.ppn ≡ s.1.ppn
    pub was : before vpn ≡ none
    pub now : walk s'.0.memory s.1.ppn vpn ≡ some (0, ppn * 1024 + flags)
    pub others : (u : Vpn) → IsVpn u → u ≢ vpn → walk s'.0.memory s.1.ppn u ≡ before u

  -- No walk changed, though tables may have been made.
  pub record Refused (e : PgtError) (s' : Machine × RootPgt) : Type 0 where
    pub roles' : Roles
    pub extends : Extends ρ s roles' s'
    pub reason :
        (e ≡ double_mapping vpn ppn) × (before vpn ≢ none)
        ⊎ (e ≡ acquire_page_failed) × ((alloc s'.0.allocator).0 ≡ none)
        ⊎ (e ≡ invalid_pte_flags flags) × (is_valid_flags flags ≡ false)

  abbrev pub Maps : Outcome (Machine × RootPgt) PgtError (Unit {0}) → Type 0
  Maps (ok _ s') = Mapped s'
  Maps (err e s') = Refused e s'
  Maps panic = ⊥

pub Extends-trans :
    {ρ ρ1 ρ2 : Roles} {s s1 s2 : Machine × RootPgt}
    → Extends ρ s ρ1 s1
    → Extends ρ1 s1 ρ2 s2
    → Extends ρ s ρ2 s2
Extends-trans {ρ} {s} {s1} {s2} a b = record {
  inv = b.inv;
  grows = record {
    kept = λ q u. let e = a.grows.kept q u in b.grows.kept q (λ z. u (sym e ∙ z)) ∙ e;
    pointers = λ q j u h n.
        let e = a.grows.kept q u in
        let p = a.grows.pointers q j u h n in
        b.grows.pointers q j (λ z. u (sym e ∙ z)) h (rw p n) ∙ p;
  };
  root = b.root ∙ a.root;
  walks = λ v.
      ap (λ r. walk s2.0.memory r v) (sym a.root)
      ∙ b.walks v
      ∙ ap (λ r. walk s1.0.memory r v) a.root
      ∙ a.walks v;
}

pub walk_0_valid :
    (mem : Memory) (p : Ppn) (v : Vpn)
    → is_valid (entry mem p (v % 512)) ≡ true
    → walk_0 mem p v ≢ none
unfolding walk_0
walk_0_valid mem p v h = ground (arith, is_valid_odd (entry mem p (v % 512)))

pub walk_0_invalid :
    (mem : Memory) (p : Ppn) (v : Vpn)
    → is_valid (entry mem p (v % 512)) ≡ false
    → walk_0 mem p v ≡ none
unfolding walk_0
walk_0_invalid mem p v h = ground (arith, is_valid_odd (entry mem p (v % 512)))
