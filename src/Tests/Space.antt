-- ===== src/Tests/Space.antt =====
-- The theorems on a user space at a space with one area, and tables for the kernel's half alone.
use hj.Base.{
  Option, ℕ, ◌+◌, ◌*◌, ◌/◌, ◌%◌, ◌^◌, ◌<◌, ◌≤◌, ◌≡◌, ◌≢◌, ◌⊎◌, inl, inr, refl, sym, ap, ◌∙◌, subst,
  false, List, [], ◌∷◌, none, some, arith, ◌==◌, Bool-cases, ==→≡, ==→≢,
}
use hj.Outcome.{Outcome, ok, err, panic}
use hj.Outcome.Post.{Ends}
use hj.Mm.{vpn_from_va, is_valid_va}
use hj.Mm.Memory.{Memory, read_word, write_word}
use hj.Mm.PageAlloc.{Machine, Page}
use hj.Mm.Sv39.{RootPgt, is_valid, is_leaf}
use hj.Mm.Sv39.Tree.{
  Roles, unused, top, mid, low, other, assign, entry, ptr, child, below, walk, IsTree,
  entry-write_ne,
}
use hj.Mm.Sv39.Child.{Inv}
use hj.Mm.Sv39.Unmap.Upper.{Stops}
use hj.Mm.Vm.{VmArea, VmSpace, VmError, anonymous, area_new}
use hj.Mm.Vm.Space.{unmap, map_fault_page, add_new_area}
use hj.Mm.Vm.View.{Seen, view, held, times_paged, side_cases, view-Inside, view-Outside}
use hj.Mm.Vm.Pages.{lookup}
use hj.Mm.Vm.AddArea.{Allowed}
use hj.Mm.Vm.Unmap.Removes.{Removes}
use hj.Mm.Vm.Sound.{shown, Sound, Agrees, Lawful}
use hj.Mm.Vm.Sound.Added.{add_new_area-Sound}
use hj.Mm.Vm.Sound.Unmapped.{unmap-Sound}
use hj.Mm.Vm.Sound.Promise.{MapSound}
use hj.Mm.Vm.Sound.Mapped.{map_fault_page-Sound}
use hj.Mm.Vm.Sound.Runs.{Left, returned, failed, done, mmap, munmap, fault, Runs-Sound}

abbrev top_page : ℕ
top_page = 0x80400

abbrev mid_page : ℕ
mid_page = 0x80401

abbrev low_page : ℕ
low_page = 0x80402

-- The root's entry 256 is the first of the kernel's half.
abbrev linked : Memory
linked =
    write_word (ptr mid_page + 8 * 0) (low_page * 1024 + 1)
      (write_word (ptr top_page + 8 * 256) (mid_page * 1024 + 1) (λ _. 0))

abbrev roles : Roles
roles =
    assign
      (assign (assign (assign (λ _. unused) top_page top) mid_page (mid 256)) low_page (low 256 0))
      0x80403 other

abbrev space_machine : Machine
space_machine = record {
  allocator = record { next_unused_ppn = 0x80404; max_ppn = 0x88000; recycled_ppn = [] };
  memory = linked;
  kernel_satp = 0;
}

abbrev space_root : RootPgt
space_root = record { ppn = top_page; pages = [] }

abbrev area_with : List (ℕ × Page) → VmArea
area_with pages = record {
  start_vpn = 0x10;
  end_vpn = 0x18;
  map_type = anonymous;
  permissions = 22;
  pages = pages;
}

abbrev space_with : List (ℕ × Page) → VmSpace
space_with pages = record {
  root_pgt = space_root;
  areas = area_with pages ∷ [];
  entry_addr = 0x10000;
  u_stack_end = 0;
  k_stack_end = 0;
}

zero_entry : (p i : ℕ) → entry (λ _. 0) p i ≡ 0
unfolding entry read_word
zero_entry p i = refl

other_entry :
    (p i : ℕ)
    → i < 512
    → (top_page ≢ p) ⊎ (256 ≢ i)
    → (mid_page ≢ p) ⊎ (0 ≢ i)
    → entry linked p i ≡ 0
other_entry p i h n1 n2 =
    entry-write_ne _ mid_page 0 p i (low_page * 1024 + 1) (omega arith) h n2
    ∙ entry-write_ne (λ _. 0) top_page 256 p i (mid_page * 1024 + 1) (omega arith) h n1
    ∙ zero_entry p i

top_entry : entry linked top_page 256 ≡ mid_page * 1024 + 1
unfolding entry read_word write_word
top_entry = refl

mid_entry : entry linked mid_page 0 ≡ low_page * 1024 + 1
unfolding entry read_word write_word
mid_entry = refl

not_next : {e : ℕ} → e ≡ 0 → ¬ (e % 2 ≡ 1)
not_next p h = omega arith

-- The two entries that are not zero.
entry_cases :
    (p i : ℕ)
    → i < 512
    → (top_page ≡ p) × (256 ≡ i) ⊎ (mid_page ≡ p) × (0 ≡ i) ⊎ (entry linked p i ≡ 0)
entry_cases p i h = elim (Bool-cases (256 == i)) [
  | inl last ↦ elim (Bool-cases (top_page == p)) [
    | inl at_top ↦ inl (==→≡ top_page p at_top, ==→≡ 256 i last)
    | inr not_top ↦
        inr (inr (other_entry p i h (inl (==→≢ top_page p not_top)) (inr (λ z. ground arith))))
  ]
  | inr not_last ↦ elim (Bool-cases (0 == i)) [
    | inr not_first ↦
        inr (inr (other_entry p i h (inr (==→≢ 256 i not_last)) (inr (==→≢ 0 i not_first))))
    | inl first ↦ elim (Bool-cases (mid_page == p)) [
      | inl at_mid ↦ inr (inl (==→≡ mid_page p at_mid, ==→≡ 0 i first))
      | inr not_mid ↦
          inr (inr (other_entry p i h (inr (==→≢ 256 i not_last)) (inl (==→≢ mid_page p not_mid))))
    ]
  ]
]

abbrev Links : ℕ → ℕ → Type 0
Links p i = (roles (child (entry linked p i)) ≡ below (roles p) i) × (entry linked p i / 2 % 8 ≡ 0)

linked-IsTree : IsTree roles linked top_page
linked-IsTree = record {
  root_top = refl;
  frames = λ p used. ground arith;
  links = λ p i up h next. elim (entry_cases p i h) [
    | inl (e, f) ↦ subst (λ p. Links p i) e (subst (Links top_page) f (rw top_entry (refl, refl)))
    | inr (inl (e, f)) ↦
        subst (λ p. Links p i) e (subst (Links mid_page) f (rw mid_entry (refl, refl)))
    | inr (inr zero) ↦ absurd (not_next zero next.0)
  ];
}

linked-Inv : Inv roles (space_machine, space_root)
linked-Inv = record {
  tree = linked-IsTree;
  fresh = record {
    recycled = tt;
    distinct = tt;
    rest = λ p l u. ground arith;
    bound = omega arith;
  };
}

-- No entry of an upper table is a leaf.
leafless : (p i : ℕ) → i < 512 → is_leaf (entry linked p i) ≡ false
unfolding is_leaf
leafless p i h = elim (entry_cases p i h) [
  | inl (e, f) ↦
      subst (λ p. is_leaf (entry linked p i) ≡ false) e
        (subst (λ i. is_leaf (entry linked top_page i) ≡ false) f (rw top_entry refl))
  | inr (inl (e, f)) ↦
      subst (λ p. is_leaf (entry linked p i) ≡ false) e
        (subst (λ i. is_leaf (entry linked mid_page i) ≡ false) f (rw mid_entry refl))
  | inr (inr zero) ↦ rw zero refl
]

linked-Stops : (end : ℕ) → end ≤ 2 ^ 26 → Stops top_page end (2 ^ 17) linked
unfolding is_valid
linked-Stops end h = record {
  bound = omega arith;
  beyond = omega arith;
  pointer2 = rw top_entry refl;
  pointer1 = rw top_entry (rw mid_entry refl);
  leafless2 = λ a l. leafless top_page a (omega arith);
  leafless1 = λ a b hb l v. leafless (child (entry linked top_page a)) b hb;
}

user_walk : (u : ℕ) → u < 2 ^ 26 → walk linked top_page u ≡ none
unfolding walk
user_walk u h =
    let zero : entry linked top_page (u / 2 ^ 18 % 512) ≡ 0 =
      other_entry top_page (u / 2 ^ 18 % 512) (omega arith) (inr (λ z. omega arith))
        (inl (λ z. omega arith)) in
    rw zero refl

abbrev one_page : List (ℕ × Page)
one_page = (0x12, record { ppn = 0x80403 }) ∷ []

abbrev start_state : Machine × VmSpace
start_state = (space_machine, space_with [])

start_Agrees : Agrees linked top_page (area_with [] ∷ [])
unfolding view lookup
start_Agrees u h = elim (side_cases (area_with []) u) [
  | inl i ↦ user_walk u h ∙ ap shown (sym (view-Inside (area_with []) [] u i))
  | inr o ↦ user_walk u h ∙ ap shown (sym (view-Outside (area_with []) [] u o))
]

start_Lawful : Lawful (area_with [] ∷ [])
unfolding view
start_Lawful u x h there = elim (side_cases (area_with []) u) [
  | inl i ↦ subst Says (sym (view-Inside (area_with []) [] u i) ∙ there) (refl, refl)
  | inr o ↦ absurd (both (sym (view-Outside (area_with []) [] u o) ∙ there))
]
  where
    Says : Option Seen → Type 0
    Says none = Unit {0}
    Says (some y) = (y.0 ≡ anonymous) × Allowed y.1

    both : ¬ (none ≡ some x)
    both z = absurd cc

start_Sound : Sound roles start_state
unfolding held times_paged
start_Sound = record {
  inv = linked-Inv;
  disjoint = (omega arith, tt, tt);
  agrees = start_Agrees;
  owned = λ p h. absurd (omega (arith, h));
  lawful = start_Lawful;
  stop = 2 ^ 17;
  stops = linked-Stops (2 ^ 26) (omega arith);
}

at_page : vpn_from_va 0x12abc ≡ some 0x12
unfolding vpn_from_va is_valid_va
at_page = refl

-- A run: a new area, a fault in the old one, and a removal across its middle.
fault_end :
    (m : Machine) (space : VmSpace) (o : Outcome (Machine × VmSpace) VmError (Unit {0}))
    → MapSound roles m space 0x12 18 o
    → (s : Machine × VmSpace) × Left o s × (ρ : Roles) × Sound ρ s
fault_end m space (ok x s) h = (s, returned, h.roles', h.sound)
fault_end m space (err e s) h = (s, failed, h.roles', h.sound)
fault_end m space panic h = absurd h

unmap_end :
    (P : Machine × VmSpace → Type 0) (o : Outcome (Machine × VmSpace) VmError (Unit {0}))
    → Ends ⊥ (λ done s. P s) o
    → (s : Machine × VmSpace) × Left o s
unfolding Ends
unmap_end P (ok x s) h = (s, returned)
unmap_end P (err e s) h = absurd h
unmap_end P panic h = absurd h

abbrev grown_state : Machine × VmSpace
grown_state = (
  space_machine,
  record (space_with []) { areas = area_with [] ∷ area_new 0x20 0x28 anonymous 22 ∷ [] },
)

mmap_ends : Left (add_new_area 0x20 0x28 anonymous 22 start_state) grown_state
unfolding add_new_area
mmap_ends = returned

grown_Sound : Sound roles grown_state
unfolding add_new_area
grown_Sound = add_new_area-Sound roles space_machine (space_with []) 0x20 0x28 22 start_Sound

abbrev faulted :
    (s : Machine × VmSpace) × Left (map_fault_page 0x12abc 18 grown_state) s
    × (ρ : Roles) × Sound ρ s
faulted = fault_end grown_state.0 grown_state.1 (map_fault_page 0x12abc 18 grown_state) (
    map_fault_page-Sound roles grown_state.0 grown_state.1 0x12abc 0x12 18 grown_Sound at_page
      (omega arith) (user_walk 0x12 (omega arith)))

abbrev removed : (s : Machine × VmSpace) × Left (unmap 0x12 0x14 faulted.0) s
removed =
    unmap_end _ (unmap 0x12 0x14 faulted.0) (
      unmap-Sound faulted.2 faulted.0.0 faulted.0.1 0x12 0x14 (omega arith) (omega arith) faulted.3)

Runs-Sound_example : (ρ' : Roles) × Sound ρ' removed.0
Runs-Sound_example = Runs-Sound roles start_state removed.0 start_Sound (
    mmap 0x20 0x28 22 mmap_ends (
      fault 0x12abc 0x12 18 at_page (omega arith) (user_walk 0x12 (omega arith)) faulted.1
        (munmap 0x12 0x14 (omega arith) (omega arith) removed.1 done)))
