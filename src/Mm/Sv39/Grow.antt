-- ===== src/Mm/Sv39/Grow.antt =====
-- A table that is made for an empty entry leaves the tree a tree, and every walk as it was.
use hj.Base.{
  ℕ, ◌+◌, ◌*◌, ◌/◌, ◌%◌, ◌^◌, ◌<◌, ◌≡◌, ◌≢◌, ◌⊎◌, inl, inr, Option, sym, ap, ◌∙◌, true, false, none,
  some, arith, ◌==◌, if◌then◌else◌, Bool-cases,
}
use hj.Mm.{Ppn, Vpn}
use hj.Mm.Memory.{Memory, write_word, clear_bytes}
use hj.Mm.Sv39.{Pte}
use hj.Mm.Sv39.Tree.{
  ptr, entry, child, walk_0, walk_1, walk, Role, unused, mid, low, Roles, is_upper, below, assign,
  IsNext, IsTree, entry-write_self, entry-write_ne, entry-clear_self, entry-clear_ne,
}

-- What a growing tree keeps: the use of each page, and each pointer in a page in use.
pub record Grows (ρ : Roles) (mem : Memory) (ρ' : Roles) (mem' : Memory) : Type 0 where
  pub kept : (q : Ppn) → ρ q ≢ unused → ρ' q ≡ ρ q
  pub pointers :
      (q : Ppn) (j : ℕ)
      → ρ q ≢ unused
      → j < 512
      → IsNext (entry mem q j)
      → entry mem' q j ≡ entry mem q j

pub upper_used : (r : Role) → is_upper r ≡ true → r ≢ unused
upper_used r h e = ground arith

pub below_used : (r : Role) (i : ℕ) → is_upper r ≡ true → below r i ≢ unused
below_used r i h e = ground arith

-- A table of zeros faults on every walk.
walk_0_empty :
    (mem : Memory) (c : Ppn) (v : Vpn)
    → ((j : ℕ) → j < 512 → entry mem c j ≡ 0)
    → walk_0 mem c v ≡ none
unfolding walk_0
walk_0_empty mem c v z = rw (z (v % 512) (omega arith))

walk_1_empty :
    (mem : Memory) (c : Ppn) (v : Vpn)
    → ((j : ℕ) → j < 512 → entry mem c j ≡ 0)
    → walk_1 mem c v ≡ none
unfolding walk_1
walk_1_empty mem c v z = rw (z (v / 512 % 512) (omega arith))

-- Two walks that read the same entry agree if they agree below it.
pub walk_next :
    (e : Pte) {a b : Option (ℕ × Pte)} (c : Option (ℕ × Pte))
    → (e % 2 ≡ 1 → e / 2 % 8 ≡ 0 → a ≡ b)
    → (if e % 2 == 0 then none else if e / 2 % 8 == 0 then a else c)
      ≡ (if e % 2 == 0 then none else if e / 2 % 8 == 0 then b else c)
walk_next e c same = elim (Bool-cases (e % 2 == 0)) [
  | inl fault ↦ rw fault
  | inr valid ↦ elim (Bool-cases (e / 2 % 8 == 0)) [
    | inl next ↦ rw (valid, next) (same (ground arith) (ground arith))
    | inr leaf ↦ rw (valid, leaf)
  ]
]

module _ (ρ : Roles) (mem : Memory) (root p : Ppn) (i : ℕ) (c : Ppn) (tree : IsTree ρ mem root)
    (upper : is_upper (ρ p) ≡ true) (small : i < 512) (free : ρ c ≡ unused) (fits : c < 2 ^ 26)
    (empty : entry mem p i % 2 ≡ 0) where
  abbrev grown : Memory
  grown = write_word (ptr p + 8 * i) (c * 1024 + 1) (clear_bytes 4096 (ptr c) mem)

  abbrev roles : Roles
  roles = assign ρ c (below (ρ p) i)

  other_page : (q : Ppn) → ρ q ≢ unused → c ≢ q
  other_page q used e = used (ap ρ (sym e) ∙ free)

  pub at_slot : entry grown p i ≡ c * 1024 + 1
  at_slot = entry-write_self (clear_bytes 4096 (ptr c) mem) p i (c * 1024 + 1) (omega arith)

  at_kept :
      (q : Ppn) (j : ℕ)
      → ρ q ≢ unused
      → j < 512
      → (p ≢ q) ⊎ (i ≢ j)
      → entry grown q j ≡ entry mem q j
  at_kept q j used h ne =
      entry-write_ne (clear_bytes 4096 (ptr c) mem) p i q j (c * 1024 + 1) small h ne
      ∙ entry-clear_ne mem c q j h (other_page q used)

  at_new : (j : ℕ) → j < 512 → entry grown c j ≡ 0
  at_new j h =
      entry-write_ne (clear_bytes 4096 (ptr c) mem) p i c j (c * 1024 + 1) small h
        (inl (λ e. other_page p (upper_used (ρ p) upper) (sym e)))
      ∙ entry-clear_self mem c j h

  -- Each entry of a page in use is the new pointer, or as it was.
  cases :
      (q : Ppn) (j : ℕ)
      → ρ q ≢ unused
      → j < 512
      → (p ≡ q) × (i ≡ j) ⊎ (entry grown q j ≡ entry mem q j)
  cases q j used h = ground (arith, at_kept q j)

  pub grown-Grows : Grows ρ mem roles grown
  grown-Grows = record {
    kept = λ q used. ground (arith, other_page q used);
    pointers = λ q j used h next. ground (arith, cases q j used h);
  }

  below_c : roles c ≡ below (ρ p) i
  below_c = ground arith

  grown_links :
      (q : Ppn) (j : ℕ)
      → is_upper (roles q) ≡ true
      → j < 512
      → IsNext (entry grown q j)
      → (roles (child (entry grown q j)) ≡ below (roles q) j) × (entry grown q j / 2 % 8 ≡ 0)
  grown_links q j up h next = elim (Bool-cases (q == c)) [
    | inl e ↦ absurd (ground (arith, at_new j h))
    | inr ne ↦
        let same : roles q ≡ ρ q = rw ne in
        let up' : is_upper (ρ q) ≡ true = rw same at up in
        let used = upper_used (ρ q) up' in
        elim (cases q j used h) [
          | inl (e1, e2) ↦ ground (arith, at_slot, below_c)
          | inr e ↦
              let old = tree.links q j up' h (rw e at next) in
              ground (arith, below_used (ρ q) j up', other_page (child (entry mem q j)))
        ]
  ]

  pub grown-IsTree : IsTree roles grown root
  grown-IsTree = record {
    root_top = ground (arith, tree.root_top, other_page root);
    frames = λ q used. ground (arith, tree.frames q);
    links = grown_links;
  }

  walk_0_same :
      (q : Ppn) (v : Vpn)
      → is_upper (ρ q) ≡ false
      → ρ q ≢ unused
      → walk_0 grown q v ≡ walk_0 mem q v
  unfolding walk_0
  walk_0_same q v leaf used =
      rw (at_kept q (v % 512) used (omega arith) (inl (λ e. ground (arith, ap ρ e))))

  -- At the slot both walks fault: before, at the entry; after, in the new table.
  walk_slot :
      (f : Memory × Ppn → Option (ℕ × Pte)) (level q j : ℕ)
      → p ≡ q
      → i ≡ j
      → f (grown, c) ≡ none
      → (let e = entry grown q j in
          if e % 2 == 0
          then none
          else if e / 2 % 8 == 0
          then f (grown, child e)
          else some (level, e))
        ≡ (let e = entry mem q j in
            if e % 2 == 0
            then none
            else if e / 2 % 8 == 0
            then f (mem, child e)
            else some (level, e))
  walk_slot f level q j e1 e2 dead =
      let new : entry grown q j ≡ c * 1024 + 1 = rw (← e1, ← e2) at_slot in
      let old : (entry mem q j % 2 == 0) ≡ true = rw (← e1, ← e2, empty) in
      let back : child (c * 1024 + 1) ≡ c = omega arith in
      let odd : ((c * 1024 + 1) % 2 == 0) ≡ false = ground arith in
      let next : ((c * 1024 + 1) / 2 % 8 == 0) ≡ true = ground arith in
      rw (new, old, odd, next, back, dead)

  walk_1_same : (q : Ppn) (k : ℕ) (v : Vpn) → ρ q ≡ mid k → walk_1 grown q v ≡ walk_1 mem q v
  unfolding walk_1
  walk_1_same q k v is_mid =
      let j = v / 512 % 512 in
      let used : ρ q ≢ unused = λ e. ground arith in
      elim (cases q j used (omega arith)) [
        | inl (e1, e2) ↦
            walk_slot (λ f. walk_0 f.0 f.1 v) 1 q j e1 e2 (walk_0_empty grown c v at_new)
        | inr e ↦ rw e (
            walk_next (entry mem q j) (some (1, entry mem q j)) λ a b.
              let down = tree.links q j (rw is_mid) (omega arith) (ground arith) in
              let is_low : ρ (child (entry mem q j)) ≡ low k j = rw is_mid at down.0 in
              walk_0_same (child (entry mem q j)) v (rw is_low) (rw is_low (λ z. cc)))
      ]

  pub grown-walk : (v : Vpn) → walk grown root v ≡ walk mem root v
  unfolding walk
  grown-walk v =
      let j = v / 2 ^ 18 % 512 in
      let used : ρ root ≢ unused = λ e. ground (arith, tree.root_top) in
      elim (cases root j used (omega arith)) [
        | inl (e1, e2) ↦
            walk_slot (λ f. walk_1 f.0 f.1 v) 2 root j e1 e2 (walk_1_empty grown c v at_new)
        | inr e ↦ rw e (
            walk_next (entry mem root j) (some (2, entry mem root j)) λ a b.
              let down = tree.links root j (rw tree.root_top) (omega arith) (ground arith) in
              let is_mid : ρ (child (entry mem root j)) ≡ mid j = rw tree.root_top at down.0 in
              walk_1_same (child (entry mem root j)) j v is_mid)
      ]
