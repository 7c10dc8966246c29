-- ===== src/Mm/Sv39/Child.antt =====
-- One round of the walk in `map_create`: the table below an entry, made where it is missing.
use hj.Base.{
  ℕ, ◌+◌, ◌*◌, ◌/◌, ◌%◌, ◌<◌, ◌≡◌, ◌⊎◌, inl, inr, refl, sym, ap, ◌∙◌, true, false, Option, none,
  some, arith, Bool-cases,
}
use hj.Outcome.{Outcome, ok, err, panic}
use hj.Mm.{Ppn, Vpn}
use hj.Mm.PageAlloc.{PageAllocator, Page, Machine, alloc}
use hj.Mm.Sv39.{
  Pte, RootPgt, PgtError, acquire_page_failed, double_mapping, is_valid, is_leaf, pte_get_ppn,
  next_table,
}
use hj.Mm.Sv39.Pte.{is_valid_odd, is_leaf_bits, pte_get_ppn_field}
use hj.Mm.Sv39.Tree.{
  ptr, entry, child, walk, Roles, is_upper, below, assign, IsNext, IsTree, IsFresh,
}
use hj.Mm.Sv39.Fresh.{Grants, alloc-Grants}
use hj.Mm.Sv39.Steps.{
  get_ptes_mut-ptr, load_pte-entry, ensure_table-there, ensure_table-full, ensure_table-made, made,
}
use hj.Mm.Sv39.Grow.{Grows, below_used, at_slot, grown-Grows, grown-IsTree, grown-walk}

-- The state of a root page table with its machine.
pub record Inv (ρ : Roles) (s : Machine × RootPgt) : Type 0 where
  pub tree : IsTree ρ s.0.memory s.1.ppn
  pub fresh : IsFresh ρ s.0.allocator

-- The tree grew, if at all: no walk changed.
pub record Extends (ρ : Roles) (s : Machine × RootPgt) (ρ' : Roles) (s' : Machine × RootPgt)
    : Type 0 where
  pub inv : Inv ρ' s'
  pub grows : Grows ρ s.0.memory ρ' s'.0.memory
  pub root : s'.1.ppn ≡ s.1.ppn
  pub walks : (v : Vpn) → walk s'.0.memory s.1.ppn v ≡ walk s.0.memory s.1.ppn v

module _ (ρ : Roles) (s : Machine × RootPgt) (vpn : Vpn) (ppn : Ppn) (p : Ppn) (i : ℕ) where
  pub record Found (t : ℕ) (s' : Machine × RootPgt) : Type 0 where
    pub roles' : Roles
    pub extends : Extends ρ s roles' s'
    pub page : Ppn
    pub pointer : t ≡ ptr page
    pub role : roles' page ≡ below (ρ p) i
    pub is_next : IsNext (entry s'.0.memory p i)
    pub leads : child (entry s'.0.memory p i) ≡ page
    pub plain : entry s'.0.memory p i / 2 % 8 ≡ 0

  pub record Failed (e : PgtError) (s' : Machine × RootPgt) : Type 0 where
    pub unchanged : s' ≡ s
    pub reason :
        (e ≡ double_mapping vpn ppn) × (is_leaf (entry s.0.memory p i) ≡ true)
        ⊎ (e ≡ acquire_page_failed) × ((alloc s.0.allocator).0 ≡ none)

  abbrev pub Next : Outcome (Machine × RootPgt) PgtError ℕ → Type 0
  Next (ok t s') = Found t s'
  Next (err e s') = Failed e s'
  Next panic = ⊥

pub Grows-refl : (ρ : Roles) (s : Machine × RootPgt) → Grows ρ s.0.memory ρ s.0.memory
Grows-refl ρ s = record { kept = λ q u. refl; pointers = λ q j u h n. refl }

pub Extends-refl : {ρ : Roles} {s : Machine × RootPgt} → Inv ρ s → Extends ρ s ρ s
Extends-refl {ρ} {s} inv = record {
  inv = inv;
  grows = Grows-refl ρ s;
  root = refl;
  walks = λ v. refl;
}

module _ (ρ : Roles) (m : Machine) (self : RootPgt) (vpn : Vpn) (ppn : Ppn) (p : Ppn) (i : ℕ)
    (inv : Inv ρ (m, self)) (upper : is_upper (ρ p) ≡ true) (small : i < 512) where
  abbrev e : Pte
  e = entry m.memory p i

  there : is_valid e ≡ true → Next ρ (m, self) vpn ppn p i (next_table vpn ppn i (ptr p) (m, self))
  unfolding next_table
  there v =
      let odd : e % 2 ≡ 1 = ground (arith, is_valid_odd e) in
      elim (Bool-cases (is_leaf e)) [
        | inl leaf ↦
            rw (ensure_table-there m self p i small v, load_pte-entry m self p i small, leaf)
              (record { unchanged = refl; reason = inl (refl, leaf) })
        | inr more ↦
            let next : IsNext e = (odd, ground (arith, is_leaf_bits e)) in
            let down = inv.tree.links p i upper small next in
            let fits = inv.tree.frames (child e) (λ z. below_used (ρ p) i upper (sym down.0 ∙ z)) in
            rw
              (
                ensure_table-there m self p i small v,
                load_pte-entry m self p i small,
                more,
                pte_get_ppn_field e,
                get_ptes_mut-ptr (child e) fits,
              )
              (record {
                roles' = ρ;
                extends = Extends-refl inv;
                page = child e;
                pointer = refl;
                role = down.0;
                is_next = next;
                leads = refl;
                plain = down.1;
              })
      ]

  missing :
      (r : Option Page × PageAllocator)
      → is_valid e ≡ false
      → alloc m.allocator ≡ r
      → Grants ρ m.allocator r
      → Next ρ (m, self) vpn ppn p i (next_table vpn ppn i (ptr p) (m, self))
  unfolding next_table
  missing (none, a) v given g = rw (ensure_table-full m self p i small a v given) (record {
    unchanged = ap (λ b. (record m { allocator = b }, self)) g.0;
    reason = inr (refl, ap (λ x. x.0) given);
  })
  missing (some page, a) v given g =
      let c = page.ppn in
      let empty : e % 2 ≡ 0 = ground (arith, is_valid_odd e) in
      let slot = at_slot ρ m.memory self.ppn p i c inv.tree upper small g.0.0 g.0.1 empty in
      let new : Pte = c * 1024 + 1 in
      let plain_new : is_leaf new ≡ false = ground (arith, is_leaf_bits new) in
      let field : pte_get_ppn new ≡ some c = ground (arith, pte_get_ppn_field new) in
      let s' = made m self p i small page a in
      rw
        (
          ensure_table-made m self p i small page a v given g.0.1,
          load_pte-entry s'.0 s'.1 p i small,
          slot,
          plain_new,
          field,
          get_ptes_mut-ptr c g.0.1,
        )
        (record {
          roles' = assign ρ c (below (ρ p) i);
          extends = record {
            inv = record {
              tree = grown-IsTree ρ m.memory self.ppn p i c inv.tree upper small g.0.0 g.0.1 empty;
              fresh = g.1 (below (ρ p) i);
            };
            grows = grown-Grows ρ m.memory self.ppn p i c inv.tree upper small g.0.0 g.0.1 empty;
            root = refl;
            walks = grown-walk ρ m.memory self.ppn p i c inv.tree upper small g.0.0 g.0.1 empty;
          };
          page = c;
          pointer = refl;
          role = ground arith;
          is_next = rw slot (omega arith);
          leads = rw slot (omega arith);
          plain = rw slot (omega arith);
        })

  -- From a table of the tree, a round never panics. It finds or makes the table below, and no walk
  -- changes; or it fails at a leaf or for want of a page, and nothing changes.
  pub next_table-Next : Next ρ (m, self) vpn ppn p i (next_table vpn ppn i (ptr p) (m, self))
  next_table-Next = elim (Bool-cases (is_valid e)) [
    | inl v ↦ there v
    | inr v ↦ missing (alloc m.allocator) v refl (alloc-Grants m.allocator inv.fresh)
  ]
