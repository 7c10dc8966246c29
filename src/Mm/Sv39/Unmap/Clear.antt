-- ===== src/Mm/Sv39/Unmap/Clear.antt =====
-- What a part of `RootPgt::unmap` of os/src/mm/sv39.rs does to the walks of the hardware.
use hj.Base.{
  ℕ, ◌+◌, ◌*◌, ◌/◌, ◌%◌, ◌^◌, ◌<◌, ◌≤◌, ◌≡◌, ◌⊎◌, inl, inr, refl, ◌∙◌, true, none, arith,
  Bool-cases, ltb, ltb→lt,
}
use hj.Mm.{Ppn, Vpn}
use hj.Mm.Memory.{Memory, write_word}
use hj.Mm.Sv39.Tree.{ptr, entry, walk, walk_0, walk_1, mid, low, Roles, is_upper, IsTree}
use hj.Mm.Sv39.Leaf.{
  Path3, SameFields, upper_kept, written-IsTree, written-walk_zero, written-walk_ne,
}

-- The page number that a table's entry at the three indices is for.
abbrev pub at : (a b c : ℕ) → ℕ
at a b c = a * 2 ^ 18 + b * 512 + c

-- From `lo` up to `hi`, but not from `end` on, every page is unmapped; all other walks are as
-- before, and so are the upper tables.
pub record Clears (ρ : Roles) (root end lo hi : ℕ) (mem mem' : Memory) : Type 0 where
  pub tree : IsTree ρ mem' root
  pub kept : (q j : ℕ) → is_upper (ρ q) ≡ true → j < 512 → entry mem' q j ≡ entry mem q j
  pub gone :
      (u : Vpn) → lo ≤ u % 2 ^ 27 → u % 2 ^ 27 < hi → u % 2 ^ 27 < end → walk mem' root u ≡ none
  pub others :
      (u : Vpn)
      → (u % 2 ^ 27 < lo) ⊎ (hi ≤ u % 2 ^ 27) ⊎ (end ≤ u % 2 ^ 27)
      → walk mem' root u ≡ walk mem root u

module _ {ρ : Roles} {root end : ℕ} where
  -- What is not mapped needs no write.
  pub Clears-skip :
      {mem : Memory} (lo hi : ℕ)
      → IsTree ρ mem root
      → ((u : Vpn) → lo ≤ u % 2 ^ 27 → u % 2 ^ 27 < hi → u % 2 ^ 27 < end → walk mem root u ≡ none)
      → Clears ρ root end lo hi mem mem
  Clears-skip lo hi tree nothing = record {
    tree = tree;
    kept = λ q j up h. refl;
    gone = nothing;
    others = λ u h. refl;
  }

  pub Clears-trans :
      {mem mem1 mem2 : Memory} (lo mi hi : ℕ)
      → lo ≤ mi
      → mi ≤ hi
      → Clears ρ root end lo mi mem mem1
      → Clears ρ root end mi hi mem1 mem2
      → Clears ρ root end lo hi mem mem2
  Clears-trans lo mi hi l r first second = record {
    tree = second.tree;
    kept = λ q j up h. second.kept q j up h ∙ first.kept q j up h;
    gone = λ u a b c. elim (Bool-cases (ltb (u % 2 ^ 27) mi)) [
      | inl before ↦
          let h = ltb→lt (u % 2 ^ 27) mi before in second.others u (inl h) ∙ first.gone u a h c
      | inr after ↦ second.gone u (ground arith) b c
    ];
    others = λ u h. second.others u (ground arith) ∙ first.others u (ground arith);
  }

  -- Fewer pages before the end.
  pub Clears-stop :
      {mem mem' : Memory} (lo hi : ℕ)
      → end ≤ hi
      → Clears ρ root end lo hi mem mem'
      → Clears ρ root end lo end mem mem'
  Clears-stop lo hi l c = record {
    tree = c.tree;
    kept = c.kept;
    gone = λ u a b d. c.gone u a (omega arith) d;
    others = λ u h. c.others u (ground arith);
  }

pub walk-SameFields :
    (mem : Memory) (root : Ppn) (u v : Vpn) → SameFields u v → walk mem root u ≡ walk mem root v
unfolding walk walk_1 walk_0
walk-SameFields mem root u v (f2, f1, f0) = rw (f2, f1, f0) refl

-- The write of a zero at an entry of a lowest table.
module _ (ρ : Roles) (mem : Memory) (root end c1 c0 v : ℕ) (tree : IsTree ρ mem root)
    (small : v < 2 ^ 27) (path : Path3 mem root c1 c0 v) (role1 : ρ c1 ≡ mid (v / 2 ^ 18 % 512))
    (role0 : ρ c0 ≡ low (v / 2 ^ 18 % 512) (v / 512 % 512)) (before : v < end) where
  pub write-Clears : Clears ρ root end v (v + 1) mem (write_word (ptr c0 + 8 * (v % 512)) 0 mem)
  write-Clears = record {
    tree = written-IsTree ρ mem root c1 c0 v tree path role1 role0 0 (omega arith);
    kept = upper_kept ρ mem root c1 c0 v tree path role1 role0 0 (omega arith);
    gone = λ u l h d.
        walk-SameFields _ root u v (omega arith, omega arith, omega arith)
        ∙ written-walk_zero ρ mem root c1 c0 v tree path role1 role0 0 (omega arith) refl;
    others = λ u h.
        written-walk_ne ρ mem root c1 c0 v tree path role1 role0 0 (omega arith) u
          (λ same. omega (arith, h, same.0, same.1, same.2));
  }
