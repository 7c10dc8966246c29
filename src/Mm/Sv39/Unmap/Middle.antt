-- ===== src/Mm/Sv39/Unmap/Middle.antt =====
-- The middle loop of `RootPgt::unmap` of os/src/mm/sv39.rs against the walk of the hardware.
use hj.Base.{
  ℕ, zero, suc, ◌+◌, ◌-◌, ◌*◌, ◌/◌, ◌%◌, ◌^◌, ◌<◌, ◌≤◌, ◌≡◌, ◌⊎◌, inl, inr, refl, sym, ap, subst,
  ◌∙◌, true, false, not, arith, ◌==◌, Bool-cases, ==→≡, ==→≢,
}
use hj.Outcome.{assert, or_panic, ◌>>=◌, ◌>>◌}
use hj.Outcome.Post.{Ends, Ends-ok, Ends-and_then, Ends-if}
use hj.Mm.Memory.{Memory}
use hj.Mm.PageAlloc.{Machine}
use hj.Mm.Sv39.{Pte, RootPgt, PgtError, is_valid, is_leaf, pte_get_ppn, get_ptes_mut}
use hj.Mm.Sv39.Pte.{pte_get_ppn_field}
use hj.Mm.Sv39.Tree.{ptr, entry, child, unused, mid, low, Roles, below, IsTree, IsNext}
use hj.Mm.Sv39.Leaf.{Path3}
use hj.Mm.Sv39.Steps.{get_ptes_mut-ptr, load_pte-entry}
use hj.Mm.Sv39.Unmap.{Flow, returned, finished, continue1, unmap_level0, unmap_level1}
use hj.Mm.Sv39.Unmap.Clear.{at, Clears, Clears-skip, Clears-trans}
use hj.Mm.Sv39.Unmap.Loops.{state, Cleared, Cleared-trans, Went0, level0-Cleared}
use hj.Mm.Sv39.Unmap.Upper.{
  not-true, not-false, Stops, is_next, below_root, Stops-Clears, walk-invalid1,
}

-- The table `c1` stands below entry `a` of the root.
pub record Below (ρ : Roles) (root end stop a c1 : ℕ) (mem : Memory) : Type 0 where
  pub tree : IsTree ρ mem root
  pub stops : Stops root end stop mem
  pub valid : is_valid (entry mem root a) ≡ true
  pub leads : child (entry mem root a) ≡ c1

module _ (ρ : Roles) (m : Machine) (self : RootPgt) (end stop a c1 : ℕ) (ha : a < 512) where
  abbrev InTable : Memory → Type 0
  InTable mem = Below ρ self.ppn end stop a c1 mem

  InTable-Clears :
      {mem mem' : Memory} (lo hi : ℕ)
      → InTable mem
      → Clears ρ self.ppn end lo hi mem mem'
      → InTable mem'
  InTable-Clears lo hi t c =
      let same = c.kept self.ppn a (rw t.tree.root_top) ha in
      record {
        tree = c.tree;
        stops = Stops-Clears lo hi t.tree c t.stops;
        valid = rw same t.valid;
        leads = rw same t.leads;
      }

  -- At the last table the entry is valid.
  last_table :
      {mem : Memory} (b : ℕ)
      → b < 512
      → InTable mem
      → a * 512 + b ≡ stop
      → is_valid (entry mem c1 b) ≡ true
  last_table {mem} b hb t e =
      let e2 : stop / 512 ≡ a = omega (arith, e) in
      let e1 : stop % 512 ≡ b = omega (arith, e) in
      let p = t.stops.pointer1 in
      subst (λ c. is_valid (entry mem c b) ≡ true) t.leads
        (subst (λ i. is_valid (entry mem (child (entry mem self.ppn i)) b) ≡ true) e2
          (subst (λ j. is_valid (entry mem (child (entry mem self.ppn (stop / 512))) j) ≡ true) e1
            p))

  abbrev pub Went1 : Flow → Type 0
  Went1 returned = end ≤ at (a + 1) 0 0
  Went1 (finished z) = (z ≡ 0) × ((a + 1) * 512 ≤ stop)

  abbrev Passes : ℕ → (b c : ℕ) → Memory → Type 0
  Passes left b c mem =
      Ends ⊥ (Cleared ρ m self end (at a b c) (at (a + 1) 0 0) mem Went1)
        (unmap_level1 end left a b c (ptr c1) (state ρ m self end mem))

  -- The rest of the loop after the inner loop.
  after_level0 :
      (left b c : ℕ) (mem : Memory)
      → b < 512
      → c < 512
      → InTable mem
      → ((mem' : Memory) → InTable mem' → a * 512 + (b + 1) ≤ stop → Passes left (b + 1) 0 mem')
      → (flow : Flow) (s' : Machine × RootPgt)
      → Cleared ρ m self end (at a b c) (at a b 512) mem (Went0 end a b c) flow s'
      → Ends ⊥
          (Cleared ρ m self end (at a b c) (at (a + 1) 0 0) mem Went1)
          (continue1 (unmap_level1 end left a (b + 1) 0 (ptr c1)) flow s')
  after_level0 left b c mem hb hc t next returned s' h = Ends-ok _ _ _ (
    h.0,
    h.1,
    Clears-trans (at a b c) (at a b 512) (at (a + 1) 0 0) (omega arith) (omega arith) h.2
        (Clears-skip _ _ h.2.tree (λ u l r d. absurd (omega (arith, h.3)))),
    omega (arith, h.3),
  )
  after_level0 left b c mem hb hc t next (finished z) s' h =
      subst
        (λ o.
          Ends ⊥ (Cleared ρ m self end (at a b c) (at (a + 1) 0 0) mem Went1)
            (unmap_level1 end left a (b + 1) 0 (ptr c1) o))
        (sym h.1)
        (Cleared-trans ρ m self end (at a b c) (at a (b + 1) 0) (at (a + 1) 0 0) mem h.0 Went1 Went1
          _ (omega arith) (omega arith)
          (subst (λ hi. Clears ρ self.ppn end (at a b c) hi mem h.0) (omega arith) h.2)
          (λ flow w. w)
          (next h.0 (InTable-Clears _ _ t h.2) (omega (arith, h.3.1, t.stops.beyond))))

  not_last :
      {mem : Memory} (b : ℕ)
      → b < 512
      → InTable mem
      → is_valid (entry mem c1 b) ≡ false
      → a * 512 + b ≤ stop
      → a * 512 + (b + 1) ≤ stop
  not_last {mem} b hb t v reach = elim (Bool-cases (a * 512 + b == stop)) [
    | inl hit ↦ absurd (both (sym (last_table b hb t (==→≡ (a * 512 + b) stop hit)) ∙ v))
    | inr miss ↦ omega (arith, ==→≢ (a * 512 + b) stop miss)
  ]
    where
      both : ¬ (true ≡ false)
      both e = absurd cc

  -- The facts on the way to the table below entry `b`.
  module _ (b : ℕ) (mem : Memory) (hb : b < 512) (reach : a * 512 + b ≤ stop)
      (t : InTable mem) where
    abbrev e1 : Pte
    e1 = entry mem c1 b

    down : (ρ (child (entry mem self.ppn a)) ≡ mid a) × (entry mem self.ppn a / 2 % 8 ≡ 0)
    down = below_root t.tree t.stops a ha (omega arith) t.valid

    role1 : ρ c1 ≡ mid a
    role1 = subst (λ c. ρ c ≡ mid a) t.leads down.0

    root-IsNext : IsNext (entry mem self.ppn a)
    root-IsNext = is_next (entry mem self.ppn a) t.valid (t.stops.leafless2 a (omega arith))

    leafless : is_leaf e1 ≡ false
    leafless =
        subst (λ c. is_leaf (entry mem c b) ≡ false) t.leads
          (t.stops.leafless1 a b hb reach t.valid)

    invalid_step :
        (left c : ℕ)
        → c < 512
        → is_valid e1 ≡ false
        → ((mem' : Memory) → InTable mem' → a * 512 + (b + 1) ≤ stop → Passes left (b + 1) 0 mem')
        → Ends ⊥
            (Cleared ρ m self end (at a b c) (at (a + 1) 0 0) mem Went1)
            (unmap_level1 end left a (b + 1) 0 (ptr c1) (state ρ m self end mem))
    invalid_step left c hc v next =
        Cleared-trans ρ m self end (at a b c) (at a (b + 1) 0) (at (a + 1) 0 0) mem mem Went1 Went1
          _ (omega arith) (omega arith)
          (Clears-skip _ _ t.tree (λ u l r d.
            walk-invalid1 mem self.ppn a b c1 u (omega arith) (omega arith) root-IsNext down.1
              t.leads v))
          (λ flow w. w) (next mem t (not_last b hb t v reach))

    module _ (v : is_valid e1 ≡ true) where
      next1 : IsNext e1
      next1 = is_next e1 v leafless

      links1 : (ρ (child e1) ≡ low a b) × (e1 / 2 % 8 ≡ 0)
      links1 =
          let l = t.tree.links c1 b (rw role1) hb next1 in (l.0 ∙ ap (λ r. below r b) role1, l.1)

      frame1 : child e1 < 2 ^ 26
      frame1 = t.tree.frames (child e1) (λ z. absurd (differ (sym links1.0 ∙ z)))
        where
          differ : ¬ (low a b ≡ unused)
          differ e = absurd cc

      path1 : Path3 mem self.ppn c1 (child e1) (at a b 0)
      path1 =
          let f2 : at a b 0 / 2 ^ 18 % 512 ≡ a = omega arith in
          let f1 : at a b 0 / 512 % 512 ≡ b = omega arith in
          record {
            next2 = subst (λ i. IsNext (entry mem self.ppn i)) (sym f2) root-IsNext;
            plain2 = subst (λ i. entry mem self.ppn i / 2 % 8 ≡ 0) (sym f2) down.1;
            leads2 = subst (λ i. child (entry mem self.ppn i) ≡ c1) (sym f2) t.leads;
            next1 = subst (λ i. IsNext (entry mem c1 i)) (sym f1) next1;
            plain1 = subst (λ i. entry mem c1 i / 2 % 8 ≡ 0) (sym f1) links1.1;
            leads1 = subst (λ i. child (entry mem c1 i) ≡ child e1) (sym f1) refl;
          }

      valid_step :
          (left c : ℕ)
          → c < 512
          → ((mem' : Memory) → InTable mem' → a * 512 + (b + 1) ≤ stop → Passes left (b + 1) 0 mem')
          → Ends ⊥ (Cleared ρ m self end (at a b c) (at (a + 1) 0 0) mem Went1) (
              (do
                assert (not (is_leaf e1))
                child ← or_panic (pte_get_ppn e1)
                table0 ← or_panic (get_ptes_mut child)
                flow ← unmap_level0 end (512 - c) a b c table0
                continue1 (unmap_level1 end left a (b + 1) 0 (ptr c1)) flow)
                (state ρ m self end mem))
      valid_step left c hc next =
          rw (leafless, pte_get_ppn_field e1, get_ptes_mut-ptr (child e1) frame1)
            (Ends-and_then _ _ _ _ _
              (level0-Cleared ρ m self end a b c1 (child e1) ha hb role1 links1.0 (512 - c) c mem
                (omega arith) t.tree path1)
              (after_level0 left b c mem hb hc t next))

  pub level1-Passes :
      (left b c : ℕ) (mem : Memory)
      → left + b ≡ 512
      → c < 512
      → (c ≡ 0) ⊎ (b < 512)
      → a * 512 + b ≤ stop
      → InTable mem
      → Passes left b c mem
  unfolding unmap_level1
  level1-Passes zero b c mem sum hc first reach t = Ends-ok _ _ _ (
    mem,
    refl,
    Clears-skip _ _ t.tree (λ u l r d. absurd (omega (arith, first))),
    (omega (arith, first), omega arith),
  )
  level1-Passes (suc left) b c mem sum hc first reach t =
      let hb : b < 512 = omega arith in
      let next : ((mem' : Memory)
          → InTable mem'
          → a * 512 + (b + 1) ≤ stop
          → Passes left (b + 1) 0 mem') =
        λ mem' t' reach'.
          level1-Passes left (b + 1) 0 mem' (omega arith) (omega arith) (inl refl) reach' t' in
      rw (load_pte-entry {E = PgtError} (record m { memory = mem }) self c1 b hb) (
        Ends-if _ _ (not (is_valid (entry mem c1 b))) _ _ (state ρ m self end mem)
          (λ v. invalid_step b mem hb reach t left c hc (not-true v) next)
          (λ v. valid_step b mem hb reach t (not-false v) left c hc next))
