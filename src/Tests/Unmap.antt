-- ===== src/Tests/Unmap.antt =====
-- The theorem on `unmap` at a root table with one table of each lower level: pages 0x10 to 0x13.
use hj.Base.{
  ℕ, ◌+◌, ◌*◌, ◌/◌, ◌%◌, ◌<◌, ◌≤◌, ◌≡◌, ◌≢◌, ◌⊎◌, inl, inr, refl, ◌∙◌, subst, true, false, [],
  arith, ◌==◌, Bool-cases, ==→≡, ==→≢,
}
use hj.Outcome.Post.{Ends}
use hj.Mm.Memory.{Memory, read_word, write_word}
use hj.Mm.PageAlloc.{Machine}
use hj.Mm.Sv39.{RootPgt, is_valid, is_leaf}
use hj.Mm.Sv39.Tree.{
  Roles, unused, top, mid, low, assign, entry, ptr, child, is_upper, below, IsNext, entry-write_ne,
}
use hj.Mm.Sv39.Child.{Inv}
use hj.Mm.Sv39.Unmap.{unmap}
use hj.Mm.Sv39.Unmap.Clear.{Clears}
use hj.Mm.Sv39.Unmap.Upper.{Stops}
use hj.Mm.Sv39.Unmap.Range.{unmap-Clears}

abbrev top_page : ℕ
top_page = 0x80400

abbrev mid_page : ℕ
mid_page = 0x80401

abbrev low_page : ℕ
low_page = 0x80402

abbrev linked : Memory
linked =
    write_word (ptr mid_page + 8 * 0) (low_page * 1024 + 1)
      (write_word (ptr top_page + 8 * 0) (mid_page * 1024 + 1) (λ _. 0))

abbrev roles : Roles
roles = assign (assign (assign (λ _. unused) top_page top) mid_page (mid 0)) low_page (low 0 0)

abbrev table_machine : Machine
table_machine = record {
  allocator = record { next_unused_ppn = 0x80403; max_ppn = 0x88000; recycled_ppn = [] };
  memory = linked;
  kernel_satp = 0;
}

abbrev table_root : RootPgt
table_root = record { ppn = top_page; pages = [] }

zero_entry : (p i : ℕ) → entry (λ _. 0) p i ≡ 0
unfolding entry read_word
zero_entry p i = refl

other_entry :
    (p i : ℕ) → i < 512 → (top_page ≢ p) ⊎ (0 ≢ i) → (mid_page ≢ p) ⊎ (0 ≢ i) → entry linked p i ≡ 0
other_entry p i h n1 n2 =
    entry-write_ne _ mid_page 0 p i (low_page * 1024 + 1) (omega arith) h n2
    ∙ entry-write_ne (λ _. 0) top_page 0 p i (mid_page * 1024 + 1) (omega arith) h n1
    ∙ zero_entry p i

top_entry : entry linked top_page 0 ≡ mid_page * 1024 + 1
unfolding entry read_word write_word
top_entry = refl

mid_entry : entry linked mid_page 0 ≡ low_page * 1024 + 1
unfolding entry read_word write_word
mid_entry = refl

not_next : {e : ℕ} → e ≡ 0 → ¬ (e % 2 ≡ 1)
not_next p h = omega arith

linked-links :
    (p i : ℕ)
    → is_upper (roles p) ≡ true
    → i < 512
    → IsNext (entry linked p i)
    → (roles (child (entry linked p i)) ≡ below (roles p) i) × (entry linked p i / 2 % 8 ≡ 0)
linked-links p i up h next = elim (Bool-cases (0 == i)) [
  | inr other ↦
      let ne : 0 ≢ i = ==→≢ 0 i other in
      absurd (not_next (other_entry p i h (inr ne) (inr ne)) next.0)
  | inl first ↦ elim (Bool-cases (top_page == p)) [
    | inl at_top ↦
        subst
          (λ q.
            (roles (child (entry linked q i)) ≡ below (roles q) i) × (entry linked q i / 2 % 8 ≡ 0))
          (==→≡ top_page p at_top)
          (subst
            (λ j.
              (roles (child (entry linked top_page j)) ≡ below (roles top_page) j)
              × (entry linked top_page j / 2 % 8 ≡ 0))
            (==→≡ 0 i first) (rw top_entry (refl, refl)))
    | inr not_top ↦ elim (Bool-cases (mid_page == p)) [
      | inl at_mid ↦
          subst
            (λ q.
              (roles (child (entry linked q i)) ≡ below (roles q) i)
              × (entry linked q i / 2 % 8 ≡ 0))
            (==→≡ mid_page p at_mid)
            (subst
              (λ j.
                (roles (child (entry linked mid_page j)) ≡ below (roles mid_page) j)
                × (entry linked mid_page j / 2 % 8 ≡ 0))
              (==→≡ 0 i first) (rw mid_entry (refl, refl)))
      | inr not_mid ↦ absurd (
          not_next
            (other_entry p i h (inl (==→≢ top_page p not_top)) (inl (==→≢ mid_page p not_mid)))
            next.0)
    ]
  ]
]

table-Inv : Inv roles (table_machine, table_root)
table-Inv = record {
  tree = record { root_top = refl; frames = λ p used. ground arith; links = linked-links };
  fresh = record {
    recycled = tt;
    distinct = tt;
    rest = λ p l u. ground arith;
    bound = omega arith;
  };
}

zero_first : (a : ℕ) → a * 512 ≤ 0 → 0 ≡ a
zero_first a l = omega arith

zero_second : (a b : ℕ) → a * 512 + b ≤ 0 → 0 ≡ b
zero_second a b l = omega arith

table-Stops : Stops top_page 0x14 0 linked
unfolding is_valid is_leaf
table-Stops = record {
  bound = omega arith;
  beyond = omega arith;
  pointer2 = rw top_entry refl;
  pointer1 = rw (top_entry, mid_entry) refl;
  leafless2 = λ a l.
      subst (λ a. is_leaf (entry linked top_page a) ≡ false) (zero_first a l) (rw top_entry refl);
  leafless1 = λ a b hb l v.
      subst (λ a. is_leaf (entry linked (child (entry linked top_page a)) b) ≡ false)
        (zero_first a (omega arith))
        (subst (λ b. is_leaf (entry linked (child (entry linked top_page 0)) b) ≡ false)
          (zero_second a b l) (rw (top_entry, mid_entry) refl));
}

unmap_example :
    Ends ⊥
      (λ done s'.
        Inv roles s'
        × (mem' : Memory) × (s' ≡ (record table_machine { memory = mem' }, table_root))
        × Clears roles top_page 0x14 0x10 0x14 linked mem')
      (unmap 0x10 0x14 (table_machine, table_root))
unmap_example = unmap-Clears roles table_machine table_root 0x10 0x14 0 table-Inv table-Stops
