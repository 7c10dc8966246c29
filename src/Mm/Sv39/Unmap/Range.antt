-- ===== src/Mm/Sv39/Unmap/Range.antt =====
-- `RootPgt::unmap` of os/src/mm/sv39.rs against the walk of the hardware.
use hj.Base.{
  leb, ℕ, zero, suc, ◌+◌, ◌-◌, ◌*◌, ◌/◌, ◌%◌, ◌^◌, ◌<◌, ◌≤◌, ◌≡◌, inl, inr, refl, sym, subst, ◌∙◌,
  true, false, not, arith, ◌==◌, Bool-cases, ==→≡, ==→≢,
}
use hj.Outcome.{assert, or_panic, ◌>>=◌, ◌>>◌}
use hj.Outcome.Post.{Ends, Ends-ok, Ends-and_then, Ends-weaken, Ends-if}
use hj.Mm.Memory.{Memory}
use hj.Mm.PageAlloc.{Machine}
use hj.Mm.Sv39.{Pte, RootPgt, PgtError, is_valid, is_leaf, pte_get_ppn, get_ptes_mut}
use hj.Mm.Sv39.Pte.{pte_get_ppn_field}
use hj.Mm.Sv39.Tree.{ptr, entry, child, unused, top, mid, Roles, IsTree}
use hj.Mm.Sv39.Steps.{get_ptes_mut-ptr, load_pte-entry}
use hj.Mm.Sv39.Unmap.{Flow, returned, finished, continue2, unmap_level1, unmap_level2}
use hj.Mm.Sv39.Unmap.Clear.{at, Clears, Clears-skip, Clears-trans, Clears-stop}
use hj.Mm.Sv39.Unmap.Loops.{state, Cleared, Cleared-trans}
use hj.Mm.Sv39.Unmap.Upper.{not-true, not-false, Stops, below_root, Stops-Clears, walk-invalid2}
use hj.Mm.Sv39.{root_ppn}
use hj.Mm.Sv39.Pte.{parse_vpn_fields}
use hj.Mm.Sv39.Child.{Inv}
use hj.Mm.Sv39.Unmap.{unmap}
use hj.Mm.Sv39.Unmap.Middle.{Went1, level1-Passes}

module _ (ρ : Roles) (m : Machine) (self : RootPgt) (end stop : ℕ) where
  -- What the outer loop works on.
  abbrev Whole : Memory → Type 0
  Whole mem = IsTree ρ mem self.ppn × Stops self.ppn end stop mem

  abbrev Went2 : Unit {0} → Type 0
  Went2 done = Unit {0}

  abbrev Covers : ℕ → (a b c : ℕ) → Memory → Type 0
  Covers left a b c mem =
      Ends ⊥ (Cleared ρ m self end (at a b c) (2 ^ 27) mem Went2)
        (unmap_level2 end left a b c (ptr self.ppn) (state ρ m self end mem))

  abbrev Next2 : ℕ → ℕ → Type 0
  Next2 left a = (mem' : Memory) → Whole mem' → (a + 1) * 512 ≤ stop → Covers left (a + 1) 0 0 mem'

  Whole-Clears :
      {mem mem' : Memory} (lo hi : ℕ)
      → Whole mem
      → Clears ρ self.ppn end lo hi mem mem'
      → Whole mem'
  Whole-Clears lo hi w c = (c.tree, Stops-Clears lo hi w.0 c w.1)

  module _ (a b c : ℕ) (mem : Memory) (ha : a < 512) (hb : b < 512) (hc : c < 512)
      (reach : a * 512 + b ≤ stop) (w : Whole mem) where
    abbrev e2 : Pte
    e2 = entry mem self.ppn a

    after_level1 :
        (left : ℕ)
        → Next2 left a
        → (flow : Flow) (s' : Machine × RootPgt)
        → Cleared ρ m self end
            (at a b c)
            (at (a + 1) 0 0)
            mem
            (Went1 ρ m self end stop a (child e2) ha)
            flow
            s'
        → Ends ⊥
            (Cleared ρ m self end (at a b c) (2 ^ 27) mem Went2)
            (continue2 (λ first0. unmap_level2 end left (a + 1) 0 first0 (ptr self.ppn)) flow s')
    after_level1 left next returned s' h = Ends-ok _ _ _ (
      h.0,
      h.1,
      Clears-trans (at a b c) (at (a + 1) 0 0) (2 ^ 27) (omega arith) (omega arith) h.2
          (Clears-skip _ _ h.2.tree (λ u l r d. absurd (omega (arith, h.3)))),
      tt,
    )
    after_level1 left next (finished z) s' h =
        subst
          (λ o.
            Ends ⊥ (Cleared ρ m self end (at a b c) (2 ^ 27) mem Went2)
              (unmap_level2 end left (a + 1) 0 z (ptr self.ppn) o))
          (sym h.1)
          (subst
            (λ first0.
              Ends ⊥ (Cleared ρ m self end (at a b c) (2 ^ 27) mem Went2)
                (unmap_level2 end left (a + 1) 0 first0 (ptr self.ppn) (state ρ m self end h.0)))
            (sym h.3.0)
            (Cleared-trans ρ m self end (at a b c) (at (a + 1) 0 0) (2 ^ 27) mem h.0 Went2 Went2 _
              (omega arith) (omega arith) h.2 (λ done w. w)
              (next h.0 (Whole-Clears _ _ w h.2) h.3.1)))

    invalid_step2 :
        (left : ℕ)
        → is_valid e2 ≡ false
        → Next2 left a
        → Ends ⊥
            (Cleared ρ m self end (at a b c) (2 ^ 27) mem Went2)
            (unmap_level2 end left (a + 1) 0 0 (ptr self.ppn) (state ρ m self end mem))
    invalid_step2 left v next =
        Cleared-trans ρ m self end (at a b c) (at (a + 1) 0 0) (2 ^ 27) mem mem Went2 Went2 _
          (omega arith) (omega arith)
          (Clears-skip _ _ w.0 (λ u l r d. walk-invalid2 mem self.ppn a u (omega arith) v))
          (λ done w. w)
          (next mem w (elim (Bool-cases (stop / 512 == a)) [
            | inl hit ↦ absurd (
                both (
                  sym (
                    subst (λ i. is_valid (entry mem self.ppn i) ≡ true) (==→≡ (stop / 512) a hit)
                      w.1.pointer2)
                  ∙ v))
            | inr miss ↦ omega (arith, ==→≢ (stop / 512) a miss)
          ]))
      where
        both : ¬ (true ≡ false)
        both e = absurd cc

    valid_step2 :
        (left : ℕ)
        → is_valid e2 ≡ true
        → Next2 left a
        → Ends ⊥ (Cleared ρ m self end (at a b c) (2 ^ 27) mem Went2) (
            (do
              assert (not (is_leaf e2))
              child ← or_panic (pte_get_ppn e2)
              table1 ← or_panic (get_ptes_mut child)
              flow ← unmap_level1 end (512 - b) a b c table1
              continue2 (λ first0. unmap_level2 end left (a + 1) 0 first0 (ptr self.ppn)) flow)
              (state ρ m self end mem))
    valid_step2 left v next =
        rw (w.1.leafless2 a (omega arith), pte_get_ppn_field e2, get_ptes_mut-ptr (child e2) frame)
          (Ends-and_then _ _ _ _ _
            (level1-Passes ρ m self end stop a (child e2) ha (512 - b) b c mem (omega arith) hc
              (inr hb) reach (record { tree = w.0; stops = w.1; valid = v; leads = refl }))
            (after_level1 left next))
      where
        differ : ¬ (mid a ≡ unused)
        differ e = absurd cc

        frame : child e2 < 2 ^ 26
        frame =
            w.0.frames (child e2)
              (λ z. absurd (differ (sym (below_root w.0 w.1 a ha (omega arith) v).0 ∙ z)))

  level2-Covers :
      (left a b c : ℕ) (mem : Memory)
      → left + a ≡ 512
      → b < 512
      → c < 512
      → a * 512 + b ≤ stop
      → Whole mem
      → Covers left a b c mem
  unfolding unmap_level2
  level2-Covers zero a b c mem sum hb hc reach w = absurd (omega (arith, w.1.bound))
  level2-Covers (suc left) a b c mem sum hb hc reach w =
      let ha : a < 512 = omega arith in
      let next : Next2 left a = λ mem' w' reach'.
        level2-Covers left (a + 1) 0 0 mem' (omega arith) (omega arith) (omega arith) (omega arith)
          w' in
      rw (load_pte-entry {E = PgtError} (record m { memory = mem }) self self.ppn a ha) (
        Ends-if _ _ (not (is_valid (entry mem self.ppn a))) _ _ (state ρ m self end mem)
          (λ v. invalid_step2 a b c mem ha hb hc reach w left (not-true v) next)
          (λ v. valid_step2 a b c mem ha hb hc reach w left (not-false v) next))

-- `unmap` needs the tree alone, and changes the memory alone.
pub unmap_tree :
    (ρ : Roles) (m : Machine) (self : RootPgt) (start end stop : ℕ)
    → IsTree ρ m.memory self.ppn
    → Stops self.ppn end stop m.memory
    → Ends ⊥
        (λ done s'.
          (mem' : Memory) × (s' ≡ (record m { memory = mem' }, self))
          × Clears ρ self.ppn end start end m.memory mem')
        (unmap start end (m, self))
unfolding unmap root_ppn
unmap_tree ρ m self start end stop tree stops =
    Ends-if _ _ (leb end start) _ _ (m, self)
      (λ none_left.
        Ends-ok _ _ _
          (m.memory, refl, Clears-skip start end tree (λ u l r d. absurd (ground arith))))
      (λ some_left.
        let small : start < end = ground arith in
        let low_start : start < 2 ^ 27 = omega (arith, stops.beyond, stops.bound) in
        let fields = parse_vpn_fields start (omega arith) in
        let whole : at (start / 2 ^ 18 % 512) (start / 512 % 512) (start % 512) ≡ start =
          omega arith in
        rw (get_ptes_mut-ptr self.ppn frame, fields.0, fields.1, fields.2)
          (Ends-weaken ⊥ ⊥ _ _ _ (λ no. no) (λ done s' h. unmapped whole s' h)
            (level2-Covers ρ m self end stop (512 - start / 2 ^ 18 % 512) (start / 2 ^ 18 % 512)
              (start / 512 % 512) (start % 512) m.memory (omega arith) (omega arith) (omega arith)
              (omega (arith, stops.beyond)) (tree, stops))))
  where
    used : ¬ (top ≡ unused)
    used e = absurd cc

    frame : self.ppn < 2 ^ 26
    frame = tree.frames self.ppn (λ z. absurd (used (sym tree.root_top ∙ z)))

    unmapped :
        {lo : ℕ}
        → lo ≡ start
        → (s' : Machine × RootPgt)
        → (mem' : Memory) × (s' ≡ (record m { memory = mem' }, self))
          × Clears ρ self.ppn end lo (2 ^ 27) m.memory mem'
          × Unit {0}
        → (mem' : Memory) × (s' ≡ (record m { memory = mem' }, self))
          × Clears ρ self.ppn end start end m.memory mem'
    unmapped e s' (mem', same, c, done) =
        let c' = subst (λ lo. Clears ρ self.ppn end lo (2 ^ 27) m.memory mem') e c in
        (mem', same, Clears-stop start (2 ^ 27) (omega (arith, stops.beyond, stops.bound)) c')

-- On a tree of tables with a fresh allocator, where a lowest table holds a page at or after the
-- end and no table up to it has a leaf at an upper level, unmap never fails or panics: in terms of
-- the hardware's walk, the pages from the first up to the end, without it, are unmapped, every
-- other walk is as before, and the invariant holds afterwards.
pub unmap-Clears :
    (ρ : Roles) (m : Machine) (self : RootPgt) (start end stop : ℕ)
    → Inv ρ (m, self)
    → Stops self.ppn end stop m.memory
    → Ends ⊥
        (λ done s'.
          Inv ρ s'
          × (mem' : Memory) × (s' ≡ (record m { memory = mem' }, self))
          × Clears ρ self.ppn end start end m.memory mem')
        (unmap start end (m, self))
unmap-Clears ρ m self start end stop inv stops =
    Ends-weaken ⊥ ⊥ _ _ _ (λ no. no)
      (λ done s' (mem', same, c).
        (subst (Inv ρ) (sym same) (record { tree = c.tree; fresh = inv.fresh }), mem', same, c))
      (unmap_tree ρ m self start end stop inv.tree stops)
