-- ===== src/Mm/Sv39/Unmap/Loops.antt =====
-- The loops of `RootPgt::unmap` of os/src/mm/sv39.rs against the walk of the hardware.
use hj.Base.{
  ℕ, zero, suc, ◌+◌, ◌*◌, ◌/◌, ◌%◌, ◌^◌, ◌<◌, ◌≤◌, ◌≡◌, ◌⊎◌, inl, refl, sym, subst, arith, leb, shl,
}
use hj.Outcome.{Outcome}
use hj.Outcome.Post.{Ends, Ends-ok, Ends-weaken, Ends-if}
use hj.Mm.Memory.{Memory, write_word}
use hj.Mm.PageAlloc.{Machine}
use hj.Mm.Sv39.{RootPgt, PgtError}
use hj.Mm.Sv39.Tree.{ptr, entry, child, mid, low, Roles, IsTree, IsNext}
use hj.Mm.Sv39.Leaf.{Path3, written-Path3}
use hj.Mm.Sv39.Steps.{store_pte_entry}
use hj.Mm.Sv39.Unmap.{Flow, returned, finished, unmap_level0}
use hj.Mm.Sv39.Unmap.Clear.{at, Clears, Clears-skip, Clears-trans, write-Clears}

-- Where a walk at the same upper fields goes.
Path3-move :
    (mem : Memory) (root c1 c0 u v : ℕ)
    → u / 2 ^ 18 % 512 ≡ v / 2 ^ 18 % 512
    → u / 512 % 512 ≡ v / 512 % 512
    → Path3 mem root c1 c0 u
    → Path3 mem root c1 c0 v
Path3-move mem root c1 c0 u v f2 f1 path = record {
  next2 = subst (λ i. IsNext (entry mem root i)) f2 path.next2;
  plain2 = subst (λ i. entry mem root i / 2 % 8 ≡ 0) f2 path.plain2;
  leads2 = subst (λ i. child (entry mem root i) ≡ c1) f2 path.leads2;
  next1 = subst (λ i. IsNext (entry mem c1 i)) f1 path.next1;
  plain1 = subst (λ i. entry mem c1 i / 2 % 8 ≡ 0) f1 path.plain1;
  leads1 = subst (λ i. child (entry mem c1 i) ≡ c0) f1 path.leads1;
}

at-0 : (a b c : ℕ) → a < 512 → b < 512 → c < 512 → at a b c % 512 ≡ c
at-0 a b c ha hb hc = omega arith

at-1 : (a b c : ℕ) → a < 512 → b < 512 → c < 512 → at a b c / 512 % 512 ≡ b
at-1 a b c ha hb hc = omega arith

at-2 : (a b c : ℕ) → a < 512 → b < 512 → c < 512 → at a b c / 2 ^ 18 % 512 ≡ a
at-2 a b c ha hb hc = omega arith

at-shl : (a b c : ℕ) → a < 512 → b < 512 → c < 512 → shl a 18 + shl b 9 + c ≡ at a b c
at-shl a b c ha hb hc = omega arith

-- How the innermost loop ends, from entry `c` of the table on.
abbrev pub Went0 : (end a b c : ℕ) → Flow → Type 0
Went0 end a b c returned = end ≤ at a b 511
Went0 end a b c (finished z) = (z ≡ 0) × ((c ≡ 512) ⊎ (at a b 511 < end))

module _ (ρ : Roles) (m : Machine) (self : RootPgt) (end : ℕ) where
  abbrev pub state : Memory → Machine × RootPgt
  state mem = (record m { memory = mem }, self)

  -- The memory after a part of the loops, and how it went on.
  abbrev pub Cleared : {A : Type 0} → ℕ → ℕ → Memory → (A → Type 0) → A → Machine × RootPgt → Type 0
  Cleared lo hi mem Went flow s' =
      (mem' : Memory) × (s' ≡ state mem') × Clears ρ self.ppn end lo hi mem mem' × Went flow

  -- A part after a part.
  pub Cleared-trans :
      {A : Type 0} (lo mi hi : ℕ) (mem mem1 : Memory) (Went Went' : A → Type 0)
      (o : Outcome (Machine × RootPgt) PgtError A)
      → lo ≤ mi
      → mi ≤ hi
      → Clears ρ self.ppn end lo mi mem mem1
      → ((flow : A) → Went flow → Went' flow)
      → Ends ⊥ (Cleared mi hi mem1 Went) o
      → Ends ⊥ (Cleared lo hi mem Went') o
  Cleared-trans lo mi hi mem mem1 Went Went' o l r first went e =
      Ends-weaken ⊥ ⊥ (Cleared mi hi mem1 Went) (Cleared lo hi mem Went') o (λ no. no)
        (λ flow s' h. (h.0, h.1, Clears-trans lo mi hi l r first h.2, went flow h.3)) e

  module _ (a b c1 c0 : ℕ) (ha : a < 512) (hb : b < 512) (role1 : ρ c1 ≡ mid a)
      (role0 : ρ c0 ≡ low a b) where
    went :
        (c : ℕ)
        → c < 512
        → at a b c < end
        → (flow : Flow) → Went0 end a b (c + 1) flow
        → Went0 end a b c flow
    went c hc before returned h = h
    went c hc before (finished z) h = (h.0, omega (arith, h.1))

    moved :
        (c : ℕ) (mem : Memory)
        → c < 512
        → Path3 mem self.ppn c1 c0 (at a b 0)
        → Path3 mem self.ppn c1 c0 (at a b c)
    moved c mem hc path =
        Path3-move mem self.ppn c1 c0 (at a b 0) (at a b c) (omega arith) (omega arith) path

    role1_at : (c : ℕ) → c < 512 → ρ c1 ≡ mid (at a b c / 2 ^ 18 % 512)
    role1_at c hc = subst (λ i. ρ c1 ≡ mid i) (sym (at-2 a b c ha hb hc)) role1

    role0_at : (c : ℕ) → c < 512 → ρ c0 ≡ low (at a b c / 2 ^ 18 % 512) (at a b c / 512 % 512)
    role0_at c hc =
        subst (λ i. ρ c0 ≡ low i (at a b c / 512 % 512)) (sym (at-2 a b c ha hb hc))
          (subst (λ j. ρ c0 ≡ low a j) (sym (at-1 a b c ha hb hc)) role0)

    write-cell :
        (c : ℕ) (mem : Memory)
        → c < 512
        → IsTree ρ mem self.ppn
        → Path3 mem self.ppn c1 c0 (at a b 0)
        → at a b c < end
        → Clears ρ self.ppn end (at a b c) (at a b (c + 1)) mem (write_word (ptr c0 + 8 * c) 0 mem)
    write-cell c mem hc tree path before =
        subst
          (λ i.
            Clears ρ self.ppn end (at a b c) (at a b (c + 1)) mem
              (write_word (ptr c0 + 8 * i) 0 mem))
          (at-0 a b c ha hb hc)
          (subst
            (λ hi.
              Clears ρ self.ppn end (at a b c) hi mem
                (write_word (ptr c0 + 8 * (at a b c % 512)) 0 mem))
            (omega arith)
            (write-Clears ρ mem self.ppn end c1 c0 (at a b c) tree (omega arith)
              (moved c mem hc path) (role1_at c hc) (role0_at c hc) before))

    still :
        (c : ℕ) (mem : Memory)
        → c < 512
        → IsTree ρ mem self.ppn
        → Path3 mem self.ppn c1 c0 (at a b 0)
        → Path3 (write_word (ptr c0 + 8 * c) 0 mem) self.ppn c1 c0 (at a b 0)
    still c mem hc tree path =
        subst (λ i. Path3 (write_word (ptr c0 + 8 * i) 0 mem) self.ppn c1 c0 (at a b 0))
          (at-0 a b c ha hb hc)
          (Path3-move _ self.ppn c1 c0 (at a b c) (at a b 0) (omega arith) (omega arith) (
            written-Path3 ρ mem self.ppn c1 c0 (at a b c) tree (moved c mem hc path) (role1_at c hc)
              (role0_at c hc) 0 (omega arith)))

    pub level0-Cleared :
        (left c : ℕ) (mem : Memory)
        → left + c ≡ 512
        → IsTree ρ mem self.ppn
        → Path3 mem self.ppn c1 c0 (at a b 0)
        → Ends ⊥
            (Cleared (at a b c) (at a b 512) mem (Went0 end a b c))
            (unmap_level0 end left a b c (ptr c0) (state mem))
    unfolding unmap_level0
    level0-Cleared zero c mem sum tree path = Ends-ok _ _ _ (
      mem,
      refl,
      Clears-skip _ _ tree (λ u l h d. absurd (omega arith)),
      (refl, inl (omega arith)),
    )
    level0-Cleared (suc left) c mem sum tree path =
        Ends-if _ _ (leb end (shl a 18 + shl b 9 + c)) _ _ (state mem)
          (λ past. Ends-ok _ _ _ (
            mem,
            refl,
            Clears-skip _ _ tree
                (λ u l h d. absurd (ground (arith, at-shl a b c ha hb (omega arith)))),
            ground (arith, at-shl a b c ha hb (omega arith)),
          ))
          (λ more.
            let hc : c < 512 = omega arith in
            let before : at a b c < end = ground (arith, at-shl a b c ha hb hc) in
            let cell = write-cell c mem hc tree path before in
            let mem1 = write_word (ptr c0 + 8 * c) 0 mem in
            rw (store_pte_entry {E = PgtError} (record m { memory = mem }) self c0 c 0 hc) (
              Cleared-trans (at a b c) (at a b (c + 1)) (at a b 512) mem mem1
                (Went0 end a b (c + 1)) (Went0 end a b c) _ (omega arith) (omega arith) cell
                (went c hc before)
                (level0-Cleared left (c + 1) mem1 (omega arith) cell.tree
                  (still c mem hc tree path))))
