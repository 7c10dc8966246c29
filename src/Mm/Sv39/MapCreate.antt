-- ===== src/Mm/Sv39/MapCreate.antt =====
-- `RootPgt::map_create` against the hardware's walk.
use hj.Base.{
  ℕ, ◌+◌, ◌*◌, ◌/◌, ◌%◌, ◌^◌, ◌<◌, ◌≡◌, ◌≢◌, inl, inr, refl, sym, ap, subst, ◌∙◌, true, false,
  arith, if◌then◌else◌, Bool-cases, usize_mod,
}
use hj.Outcome.{Outcome, Cmd, ok, err, panic, fail, and_then, ◌>>=◌}
use hj.Mm.{Ppn, Vpn}
use hj.Mm.Bounds.{IsVpn}
use hj.Mm.PageAlloc.{Machine, alloc}
use hj.Mm.Memory.{Memory, write_word}
use hj.Mm.Sv39.{
  Pte, RootPgt, PgtError, invalid_pte_flags, double_mapping, is_valid, is_valid_flags, load_pte,
  store_pte, next_table, map_create, root_ppn,
}
use hj.Mm.Sv39.Pte.{is_valid_flags_iff, pte_new_ok, pte_new_err, parse_vpn_fields}
use hj.Mm.Sv39.Tree.{ptr, entry, Roles, is_upper, unused, top, mid, low, below, IsTree}
use hj.Mm.Sv39.Steps.{get_ptes_mut-ptr, load_pte-entry, store_pte_entry}
use hj.Mm.Sv39.Leaf.{
  Path3, upper_kept, walk-Path3, written-IsTree, written-walk_self, written-walk_ne,
}
use hj.Mm.Sv39.Grow.{upper_used}
use hj.Mm.Sv39.Child.{Inv, Extends, Extends-refl, Found, Next, next_table-Next}
use hj.Mm.Sv39.Maps.{
  SameFields-eq, walk_leaf_2, walk_leaf_1, Maps, Extends-trans, walk_0_valid, walk_0_invalid,
}

module _ (vpn : Vpn) (ppn : Ppn) (flags : ℕ) (canonical : IsVpn vpn) (fits : ppn < 2 ^ 44)
    (good : is_valid_flags flags ≡ true) (small : flags < 1024) (odd : flags % 2 ≡ 1) where
  abbrev i2 : ℕ
  i2 = vpn / 2 ^ 18 % 512

  abbrev i1 : ℕ
  i1 = vpn / 512 % 512

  abbrev last : ℕ → Cmd (Machine × RootPgt) PgtError (Unit {0})
  last table0 = do
    pte ← load_pte table0 (vpn % 512)
    if is_valid pte
        then fail (double_mapping vpn ppn)
        else store_pte table0 (vpn % 512) (ppn * 1024 + flags)

  abbrev lower : ℕ → Cmd (Machine × RootPgt) PgtError (Unit {0})
  lower table1 = next_table vpn ppn i1 table1 >>= last

  abbrev stored : Memory → Ppn → Memory
  stored mem c0 = write_word (ptr c0 + 8 * (vpn % 512)) (ppn * 1024 + flags) mem

  map_create_steps :
      (m : Machine) (self : RootPgt)
      → self.ppn < 2 ^ 26
      → map_create vpn ppn flags (m, self)
        ≡ and_then (next_table vpn ppn i2 (ptr self.ppn) (m, self)) lower
  unfolding map_create root_ppn
  map_create_steps m self h =
      let fields = parse_vpn_fields vpn (omega arith) in
      rw (
        pte_new_ok _ ppn flags fits good small,
        get_ptes_mut-ptr self.ppn h,
        fields.0,
        fields.1,
        fields.2,
      )

  module _ (ρ : Roles) (m : Machine) (self : RootPgt) (start : Inv ρ (m, self)) where
    abbrev s : Machine × RootPgt
    s = (m, self)

    written :
        (s2 : Machine × RootPgt) (ρ2 : Roles) (c1 c0 : Ppn)
        → Extends ρ s ρ2 s2
        → Path3 s2.0.memory self.ppn c1 c0 vpn
        → ρ2 c1 ≡ mid i2
        → ρ2 c0 ≡ low i2 i1
        → Maps ρ s vpn ppn flags (last (ptr c0) s2)
    written (m2, self2) ρ2 c1 c0 ext path role1 role0 =
        let mem = m2.memory in
        let tree = subst (λ r. IsTree ρ2 mem r) ext.root ext.inv.tree in
        let e = entry mem c0 (vpn % 512) in
        let leaf : Pte = ppn * 1024 + flags in
        let before_is = walk-Path3 mem self.ppn c1 c0 vpn path in
        elim (Bool-cases (is_valid e)) [
          | inl v ↦
              rw (load_pte-entry m2 self2 c0 (vpn % 512) (omega arith), v)
                (record {
                  roles' = ρ2;
                  extends = ext;
                  reason =
                      inl
                        (refl, λ z. walk_0_valid mem c0 vpn v (sym before_is ∙ ext.walks vpn ∙ z));
                })
          | inr v ↦
              rw
                (
                  load_pte-entry m2 self2 c0 (vpn % 512) (omega arith),
                  v,
                  store_pte_entry m2 self2 c0 (vpn % 512) leaf (omega arith),
                )
                (record {
                  roles' = ρ2;
                  inv = record {
                    tree =
                        subst (λ r. IsTree ρ2 (stored mem c0) r) (sym ext.root)
                          (written-IsTree ρ2 mem self.ppn c1 c0 vpn tree path role1 role0 leaf
                            (omega arith));
                    fresh = ext.inv.fresh;
                  };
                  kept = ext.grows.kept;
                  pointers = λ q j up h next.
                      let used = upper_used (ρ q) up in
                      let up2 : is_upper (ρ2 q) ≡ true = rw (ext.grows.kept q used) up in
                      upper_kept ρ2 mem self.ppn c1 c0 vpn tree path role1 role0 leaf (omega arith)
                        q j up2 h
                      ∙ ext.grows.pointers q j used h next;
                  root = ext.root;
                  was = sym (ext.walks vpn) ∙ before_is ∙ walk_0_invalid mem c0 vpn v;
                  now =
                      written-walk_self ρ2 mem self.ppn c1 c0 vpn tree path role1 role0 leaf
                        (omega arith) (omega arith);
                  others = λ u hu ne.
                      written-walk_ne ρ2 mem self.ppn c1 c0 vpn tree path role1 role0 leaf
                        (omega arith) u (λ same. ne (SameFields-eq u vpn hu canonical same))
                      ∙ ext.walks u;
                })
        ]

    module _ {t1 : ℕ} {s1 : Machine × RootPgt} (f : Found ρ s vpn ppn self.ppn i2 t1 s1) where
      at_mid : f.roles' f.page ≡ mid i2
      at_mid = f.role ∙ ap (λ r. below r i2) start.tree.root_top

      root_kept : f.roles' self.ppn ≡ top
      root_kept = ap f.roles' (sym f.extends.root) ∙ f.extends.inv.tree.root_top

      -- The second round of the walk, after the first.
      second :
          (r : Outcome (Machine × RootPgt) PgtError ℕ)
          → Next f.roles' s1 vpn ppn f.page i1 r
          → Maps ρ s vpn ppn flags (and_then r last)
      second (ok t s2) g =
          let used : f.roles' self.ppn ≢ unused = λ z. ground (arith, root_kept) in
          let used1 : f.roles' f.page ≢ unused = λ z. ground (arith, at_mid) in
          let same = g.extends.grows.pointers self.ppn i2 used (omega arith) f.is_next in
          rw g.pointer (
            written s2 g.roles' f.page g.page (Extends-trans f.extends g.extends)
              (record {
                next2 = rw same f.is_next;
                plain2 = rw same f.plain;
                leads2 = rw same f.leads;
                next1 = g.is_next;
                plain1 = g.plain;
                leads1 = g.leads;
              })
              (g.extends.grows.kept f.page used1 ∙ at_mid) (g.role ∙ ap (λ r. below r i1) at_mid))
      second (err e s2) g = record {
        roles' = f.roles';
        extends = subst (λ x. Extends ρ s f.roles' x) (sym g.unchanged) f.extends;
        reason = elim g.reason [
          | inl (same, leaf) ↦ inl (
            same,
            λ z.
                walk_leaf_1 s1.0.memory self.ppn f.page vpn f.is_next f.plain f.leads leaf
                  (f.extends.walks vpn ∙ z),
          )
          | inr (same, full) ↦
              inr (inl (same, ap (λ x. (alloc x.0.allocator).0) g.unchanged ∙ full))
        ];
      }
      second panic g = absurd g

      after_first : Maps ρ s vpn ppn flags (lower t1 s1)
      after_first = rw f.pointer (
          second (next_table vpn ppn i1 (ptr f.page) s1) (
            next_table-Next f.roles' s1.0 s1.1 vpn ppn f.page i1 f.extends.inv (rw at_mid)
              (omega arith)))

    first :
        (r : Outcome (Machine × RootPgt) PgtError ℕ)
        → Next ρ s vpn ppn self.ppn i2 r
        → Maps ρ s vpn ppn flags (and_then r lower)
    first (ok t s1) f = after_first f
    first (err e s1) g = record {
      roles' = ρ;
      extends = subst (λ x. Extends ρ s ρ x) (sym g.unchanged) (Extends-refl start);
      reason = elim g.reason [
        | inl (same, leaf) ↦ inl (same, walk_leaf_2 m.memory self.ppn vpn leaf)
        | inr (same, full) ↦ inr (inl (same, ap (λ x. (alloc x.0.allocator).0) g.unchanged ∙ full))
      ];
    }
    first panic g = absurd g

    good_Maps : Maps ρ s vpn ppn flags (map_create vpn ppn flags s)
    good_Maps =
        let root_small = start.tree.frames self.ppn (λ z. ground (arith, start.tree.root_top)) in
        rw (map_create_steps m self root_small) (
          first (next_table vpn ppn i2 (ptr self.ppn) s) (
            next_table-Next ρ m self vpn ppn self.ppn i2 start (rw start.tree.root_top)
              (omega arith)))

bad_flags :
    (vpn : Vpn) (ppn : Ppn) (flags : ℕ) (s : Machine × RootPgt)
    → is_valid_flags flags ≡ false
    → map_create vpn ppn flags s ≡ err (invalid_pte_flags flags) s
unfolding map_create
bad_flags vpn ppn flags s bad = rw (pte_new_err s ppn flags bad)

-- On a tree of tables with a fresh allocator, for a canonical page number, `map_create` never
-- panics. If it succeeds, the page was not mapped, the hardware's walk now finds the frame with
-- the flags, at the lowest level, and every other walk is as before. If it fails, no walk has
-- changed, and the error says why: the page is mapped, no page is left, or the flags are not
-- valid. In both cases the tables are a tree and the allocator fresh.
pub map_create-Maps :
    (ρ : Roles) (s : Machine × RootPgt) (vpn : Vpn) (ppn : Ppn) (flags : ℕ)
    → Inv ρ s
    → IsVpn vpn
    → ppn < 2 ^ 44
    → flags < usize_mod
    → Maps ρ s vpn ppn flags (map_create vpn ppn flags s)
map_create-Maps ρ s vpn ppn flags start canonical fits word =
    elim (Bool-cases (is_valid_flags flags)) [
      | inl good ↦
          let (small, odd, _) = (is_valid_flags_iff flags word).0 good in
          good_Maps vpn ppn flags canonical fits good small odd ρ s.0 s.1 start
      | inr bad ↦
          rw (bad_flags vpn ppn flags s bad)
            (record { roles' = ρ; extends = Extends-refl start; reason = inr (inr (refl, bad)) })
    ]
