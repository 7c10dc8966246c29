-- ===== src/Mm/Vm/Sound/Filled.antt =====
-- `VMSpace::map` of os/src/mm/vm.rs: the space with the new page in its area, before it is mapped.
use mathlib.Core.Option
use hj.Base.{
  ℕ, ◌+◌, ◌*◌, ◌/◌, ◌%◌, ◌^◌, ◌≤◌, ◌<◌, ◌≡◌, ◌≢◌, inl, inr, sym, ap, ◌∙◌, subst, none, some, List,
  bit_and, bit_or, ◌==◌, find, arith, Bool-cases, ==→≡, ==→≢, if◌then◌else◌, usize_mod, complement,
}
use hj.Bits.{bit_and_high, bit_or_fields}
use hj.Mm.{Vpn, Ppn}
use hj.Mm.Bounds.{IsVpn}
use hj.Mm.Memory.{Memory, clear_bytes}
use hj.Mm.PageAlloc.{Page, Machine, alloc}
use hj.Mm.Sv39.{flag_v}
use hj.Mm.Sv39.Tree.{ptr, Role, unused, other, Roles, assign, walk}
use hj.Mm.Sv39.Child.{Inv}
use hj.Mm.Sv39.Fresh.{Grants, alloc-Grants, alloc_handed}
use hj.Mm.Sv39.Zeroed.{zeroed-IsTree, zeroed-walk}
use hj.Mm.Sv39.Steady.{alloc_next}
use hj.Mm.Vm.{VmArea, VmSpace, contain_vpn, all_permission_flags}
use hj.Mm.Vm.Pages.{lookup}
use hj.Mm.Vm.View.{seen, view, held}
use hj.Mm.Vm.View.Fill.{
  find-view, inserted, lookup-inserted, lookup-inserted_ne, times_paged-inserted,
}
use hj.Mm.Vm.View.Update.{updated, view-updated, view-updated_ne, held-updated}
use hj.Mm.Vm.Sound.{shown, Agrees, Owned, Lawful, Sound}

-- The flags that `to_pte_flags` makes fit a word.
abbrev pub flags_of : ℕ → ℕ
flags_of permissions = bit_or (bit_and permissions all_permission_flags) flag_v

pub flags_bound : (permissions : ℕ) → flags_of permissions < usize_mod
flags_bound permissions =
    let q = permissions / 2 ^ 1 % 2 ^ 4 in
    let low : bit_and permissions 30 ≡ q * 2 ^ 1 = omega (arith, bit_and_high 1 4 permissions) in
    omega (arith, ap (λ x. bit_or x 1) low, bit_or_fields 1 q 1 (omega arith))

-- From the area and the page that `map` found on.
module _ (ρ : Roles) (m : Machine) (space : VmSpace) (vpn : Vpn) (area : VmArea) (page : Page)
    (sound : Sound ρ (m, space)) (user : vpn < 2 ^ 26)
    (found : find (λ a. contain_vpn a vpn) space.areas ≡ some area)
    (absent : lookup vpn area.pages ≡ none) (given : (alloc m.allocator).0 ≡ some page) where
  abbrev pub with_page : List VmArea
  with_page = updated vpn (inserted vpn page) space.areas

  abbrev pub m1 : Machine
  m1 = record m {
    allocator = (alloc m.allocator).1;
    memory = clear_bytes 4096 (ptr page.ppn) m.memory;
  }

  abbrev pub space1 : VmSpace
  space1 = record space { areas = with_page }

  abbrev pub ρ1 : Roles
  ρ1 = assign ρ page.ppn other

  abbrev pub root : Ppn
  root = space.root_pgt.ppn

  abbrev pub next1 : ℕ
  next1 = ((alloc m.allocator).1).next_unused_ppn

  grants : Grants ρ m.allocator (some page, (alloc m.allocator).1)
  grants =
      subst (λ o. Grants ρ m.allocator (o, (alloc m.allocator).1)) given
        (alloc-Grants m.allocator sound.inv.fresh)

  pub was_free : ρ page.ppn ≡ unused
  was_free = grants.0.0

  pub small : page.ppn < 2 ^ 26
  small = grants.0.1

  pub start : Inv ρ1 (m1, space.root_pgt)
  start = record {
    tree = zeroed-IsTree ρ m.memory root page.ppn sound.inv.tree was_free small;
    fresh = grants.1 other;
  }

  pub not_other : {r : Role} → r ≡ unused → ¬ (r ≡ other)
  not_other a b = absurd (ground (arith, a, b))

  -- A page of an area is another page.
  held_ne : (p : Ppn) → 1 ≤ held p space.areas → p ≢ page.ppn
  held_ne p h e = not_other (ap ρ e ∙ was_free) (sound.owned p h).0

  held_role : (p : Ppn) → 1 ≤ held p space.areas → ρ1 p ≡ other
  held_role p h = ground (arith, held_ne p h, (sound.owned p h).0)

  pub page_role : ρ1 page.ppn ≡ other
  page_role = ground arith

  pub other_used : {r : Role} → r ≡ other → r ≢ unused
  other_used a b = not_other b a

  pub view_vpn : view space.areas vpn ≡ some (seen area vpn)
  view_vpn = find-view vpn space.areas area found

  pub now_seen : view with_page vpn ≡ some (area.map_type, area.permissions, some page)
  now_seen =
      view-updated vpn (inserted vpn page) space.areas area found
      ∙ ap (λ o. some (area.map_type, area.permissions, o)) (lookup-inserted vpn page area.pages)

  pub others_seen : (u : Vpn) → u ≢ vpn → view with_page u ≡ view space.areas u
  others_seen u ne =
      view-updated_ne vpn (inserted vpn page) u (λ pages. lookup-inserted_ne vpn page pages u ne)
        space.areas

  held_now : (p : Ppn) → held p with_page ≡ (if page.ppn == p then 1 else 0) + held p space.areas
  held_now p =
      held-updated vpn (inserted vpn page) p (if page.ppn == p then 1 else 0) space.areas area found
        (times_paged-inserted vpn page p area.pages absent)

  -- The pages that are held, after further pages were handed out.
  pub mapped-Owned :
      (ρ' : Roles) (m' : Machine)
      → ((q : Ppn) → ρ1 q ≢ unused → ρ' q ≡ ρ1 q)
      → next1 ≤ m'.allocator.next_unused_ppn
      → Owned ρ' m' with_page
  mapped-Owned ρ' m' kept later p h = elim (Bool-cases (page.ppn == p)) [
    | inl here ↦
        let same : page.ppn ≡ p = ==→≡ page.ppn p here in
        let none_held : held p space.areas ≡ 0 = ground (arith, held_ne p, same) in
        let one : held p with_page ≡ 1 = held_now p ∙ rw here (omega (arith, none_held)) in
        let handed = alloc_handed m.allocator page sound.inv.fresh given in
        (
          subst (λ q. ρ' q ≡ other) same (kept page.ppn (other_used page_role) ∙ page_role),
          omega (arith, same, handed, later),
          omega (arith, same, small),
          omega (arith, one),
        )
    | inr away ↦
        let as_before : held p with_page ≡ held p space.areas =
          held_now p ∙ rw away (omega arith) in
        let old = held_ne p in
        let own = sound.owned p (omega (arith, h, as_before)) in
        let role = held_role p (omega (arith, h, as_before)) in
        (
          kept p (other_used role) ∙ role,
          omega (arith, own.1, alloc_next m.allocator, later),
          own.2,
          omega (arith, own.3, as_before),
        )
  ]

  pub kept-Owned :
      (ρ' : Roles) (m' : Machine)
      → ((q : Ppn) → q ≢ page.ppn → ρ1 q ≢ unused → ρ' q ≡ ρ1 q)
      → next1 ≤ m'.allocator.next_unused_ppn
      → Owned ρ' m' space.areas
  kept-Owned ρ' m' kept later p h =
      let own = sound.owned p h in
      let role = held_role p h in
      (
        kept p (held_ne p h) (other_used role) ∙ role,
        omega (arith, own.1, alloc_next m.allocator, later),
        own.2,
        own.3,
      )

  pub mapped-Agrees :
      (mem' : Memory)
      → walk mem' root vpn ≡ some (0, page.ppn * 1024 + flags_of area.permissions)
      → ((u : Vpn) → IsVpn u → u ≢ vpn → walk mem' root u ≡ walk m1.memory root u)
      → Agrees mem' root with_page
  mapped-Agrees mem' now others u h = elim (Bool-cases (u == vpn)) [
    | inl here ↦
        subst (λ v. walk mem' root v ≡ shown (view with_page v)) (sym (==→≡ u vpn here))
          (now ∙ ap shown (sym now_seen))
    | inr away ↦
        let ne = ==→≢ u vpn away in
        others u (inl h) ne
        ∙ zeroed-walk ρ m.memory root page.ppn sound.inv.tree was_free u
        ∙ sound.agrees u h
        ∙ ap shown (sym (others_seen u ne))
  ]

  pub mapped-Lawful : Lawful with_page
  mapped-Lawful u x h there = elim (Bool-cases (u == vpn)) [
    | inl here ↦
        let old = sound.lawful vpn (seen area vpn) user view_vpn in
        let same : (area.map_type, area.permissions, some page) ≡ x =
          Option.some-injective _ x
            (sym now_seen ∙ ap (view with_page) (sym (==→≡ u vpn here)) ∙ there) in
        (
          ap (λ z. z.0) (sym same) ∙ old.0,
          ap (λ z. bit_and z.1 (complement all_permission_flags)) (sym same) ∙ old.1,
        )
    | inr away ↦ sound.lawful u x h (sym (others_seen u (==→≢ u vpn away)) ∙ there)
  ]
