-- ===== src/Mm/Sv39/Zeroed.antt =====
-- A page that `alloc_zeroed_page` hands out for anything but a table: no walk changes.
use hj.Base.{
  ℕ, ◌/◌, ◌%◌, ◌^◌, ◌<◌, ◌≡◌, ◌≢◌, inl, inr, sym, ap, ◌∙◌, true, some, arith, ◌==◌, Bool-cases,
}
use hj.Mm.{Ppn, Vpn}
use hj.Mm.Memory.{Memory, clear_bytes}
use hj.Mm.Sv39.Tree.{
  ptr, entry, child, walk_0, walk_1, walk, unused, other, mid, low, Roles, is_upper, assign, IsTree,
  entry-clear_ne,
}
use hj.Mm.Sv39.Grow.{upper_used, below_used, walk_next}

module _ (ρ : Roles) (mem : Memory) (root c : Ppn) (tree : IsTree ρ mem root)
    (free : ρ c ≡ unused) where
  abbrev pub zeroed : Memory
  zeroed = clear_bytes 4096 (ptr c) mem

  other_page : (q : Ppn) → ρ q ≢ unused → c ≢ q
  other_page q used e = used (ap ρ (sym e) ∙ free)

  pub zeroed_kept : (q : Ppn) (j : ℕ) → ρ q ≢ unused → j < 512 → entry zeroed q j ≡ entry mem q j
  zeroed_kept q j used h = entry-clear_ne mem c q j h (other_page q used)

  pub zeroed-IsTree : c < 2 ^ 26 → IsTree (assign ρ c other) zeroed root
  zeroed-IsTree fits = record {
    root_top = ground (arith, tree.root_top, other_page root);
    frames = λ q used. ground (arith, tree.frames q);
    links = λ q j up h next. elim (Bool-cases (q == c)) [
      | inl e ↦ absurd (ground arith)
      | inr ne ↦
          let same : assign ρ c other q ≡ ρ q = rw ne in
          let up' : is_upper (ρ q) ≡ true = rw same at up in
          let e = zeroed_kept q j (upper_used (ρ q) up') h in
          let old = tree.links q j up' h (rw e at next) in
          ground (arith, below_used (ρ q) j up', other_page (child (entry mem q j)))
    ];
  }

  walk_0_same : (q : Ppn) (v : Vpn) → ρ q ≢ unused → walk_0 zeroed q v ≡ walk_0 mem q v
  unfolding walk_0
  walk_0_same q v used = rw (zeroed_kept q (v % 512) used (omega arith))

  walk_1_same : (q : Ppn) (k : ℕ) (v : Vpn) → ρ q ≡ mid k → walk_1 zeroed q v ≡ walk_1 mem q v
  unfolding walk_1
  walk_1_same q k v is_mid =
      let j = v / 512 % 512 in
      let used : ρ q ≢ unused = λ e. ground arith in
      rw (zeroed_kept q j used (omega arith)) (
        walk_next (entry mem q j) (some (1, entry mem q j)) λ a b.
          let down = tree.links q j (rw is_mid) (omega arith) (ground arith) in
          let is_low : ρ (child (entry mem q j)) ≡ low k j = rw is_mid at down.0 in
          walk_0_same (child (entry mem q j)) v (rw is_low (λ z. cc)))

  pub zeroed-walk : (v : Vpn) → walk zeroed root v ≡ walk mem root v
  unfolding walk
  zeroed-walk v =
      let j = v / 2 ^ 18 % 512 in
      let used : ρ root ≢ unused = λ e. ground (arith, tree.root_top) in
      rw (zeroed_kept root j used (omega arith)) (
        walk_next (entry mem root j) (some (2, entry mem root j)) λ a b.
          let down = tree.links root j (rw tree.root_top) (omega arith) (ground arith) in
          let is_mid : ρ (child (entry mem root j)) ≡ mid j = rw tree.root_top at down.0 in
          walk_1_same (child (entry mem root j)) j v is_mid)
