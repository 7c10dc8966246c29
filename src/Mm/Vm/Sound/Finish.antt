-- ===== src/Mm/Vm/Sound/Finish.antt =====
-- What is left when `VMSpace::map` of os/src/mm/vm.rs ends, with the page mapped or taken out again.
use hj.Base.{
  ℕ, ◌^◌, ◌≤◌, ◌<◌, ◌≡◌, ◌≢◌, ◌⊎◌, inl, inr, refl, sym, ap, ◌∙◌, subst, true, false, none, some,
  List, bit_and, ◌==◌, find, arith, Bool-cases, ==→≡,
}
use hj.Outcome.{Outcome, ok, err, panic, outcome_on_err, outcome_map_err, put_back}
use hj.Mm.{Vpn, Ppn}
use hj.Mm.PageAlloc.{Page, Machine, alloc, drop_page}
use hj.Mm.Sv39.{RootPgt, PgtError, is_valid_flags, map_create}
use hj.Mm.Sv39 as Sv39
use hj.Mm.Sv39.Tree.{unused, other, Roles, assign, is_upper, entry, IsTree, walk}
use hj.Mm.Sv39.Child.{Inv}
use hj.Mm.Sv39.Maps.{Maps, Mapped, Refused}
use hj.Mm.Sv39.Fresh.{alloc_handed, dealloc-IsFresh}
use hj.Mm.Sv39.Zeroed.{zeroed_kept, zeroed-walk}
use hj.Mm.Sv39.Grow.{upper_used}
use hj.Mm.Sv39.Unmap.Upper.{Stops}
use hj.Mm.Sv39.Unmap.Stay.{Stops-stay}
use hj.Mm.Sv39.Steady.{Steady}
use hj.Mm.Vm.{
  VmArea, VmSpace, VmError, pgt_error, permission_denied, acquire_page_failed, contain_vpn,
  anonymous,
}
use hj.Mm.Vm.Pages.{lookup, remove}
use hj.Mm.Vm.Space.{remove_page}
use hj.Mm.Vm.View.{seen, view}
use hj.Mm.Vm.View.Fill.{inserted, remove-inserted}
use hj.Mm.Vm.View.Update.{updated, updated-Disjoint, updated-updated}
use hj.Mm.Vm.Sound.{shown, Sound}
use hj.Mm.Vm.Sound.Promise.{MapOk, MapFailed, MapSound}
use hj.Mm.Vm.Sound.Free.{lose-IsTree}
use hj.Mm.Vm.Sound.Filled.{
  flags_of, with_page, m1, ρ1, was_free, small, start, now_seen, others_seen, view_vpn,
  mapped-Owned, kept-Owned, mapped-Agrees, mapped-Lawful, page_role, other_used,
}

module _ (ρ : Roles) (m : Machine) (space : VmSpace) (vpn : Vpn) (min_permissions : ℕ)
    (sound : Sound ρ (m, space)) (user : vpn < 2 ^ 26) where
  -- From the area and the page that `map` found on.
  module _ (area : VmArea) (page : Page)
      (found : find (λ a. contain_vpn a vpn) space.areas ≡ some area)
      (absent : lookup vpn area.pages ≡ none) (given : (alloc m.allocator).0 ≡ some page)
      (allowed : bit_and min_permissions area.permissions ≡ min_permissions) where
    abbrev areas1 : List VmArea
    areas1 = with_page ρ m space vpn area page sound user found absent given

    abbrev m1' : Machine
    m1' = m1 ρ m space vpn area page sound user found absent given

    abbrev roles1 : Roles
    roles1 = ρ1 ρ m space vpn area page sound user found absent given

    abbrev finished :
        Outcome (Machine × RootPgt) PgtError (Unit {0})
        → Outcome (Machine × VmSpace) VmError (Unit {0})
    finished o = outcome_on_err (remove_page vpn page) (
        outcome_map_err (pgt_error vpn) (
          put_back (λ root space. record space { root_pgt = root })
            (record space { areas = areas1 }) o))

    root_page : Inv roles1 (m1', space.root_pgt)
    root_page = start ρ m space vpn area page sound user found absent given

    pub none_mapped : walk m1'.memory space.root_pgt.ppn vpn ≡ none
    none_mapped =
        zeroed-walk ρ m.memory space.root_pgt.ppn page.ppn sound.inv.tree
          (was_free ρ m space vpn area page sound user found absent given) vpn
        ∙ sound.agrees vpn user
        ∙ ap shown (view_vpn ρ m space vpn area page sound user found absent given)
        ∙ ap (λ o. shown (some (area.map_type, area.permissions, o))) absent

    -- The tables of the space are as they were.
    zeroed_same :
        (u : Vpn) → walk m1'.memory space.root_pgt.ppn u ≡ walk m.memory space.root_pgt.ppn u
    zeroed_same u =
        zeroed-walk ρ m.memory space.root_pgt.ppn page.ppn sound.inv.tree
          (was_free ρ m space vpn area page sound user found absent given) u

    table_role : (q : Ppn) → is_upper (ρ q) ≡ true → roles1 q ≡ ρ q
    table_role q up =
        ground (arith, up, was_free ρ m space vpn area page sound user found absent given)

    table_kept :
        (q : Ppn) (j : ℕ)
        → is_upper (ρ q) ≡ true
        → j < 512
        → entry m1'.memory q j ≡ entry m.memory q j
    table_kept q j up h =
        zeroed_kept ρ m.memory space.root_pgt.ppn page.ppn sound.inv.tree
          (was_free ρ m space vpn area page sound user found absent given) q j (upper_used (ρ q) up)
          h

    was_anonymous : area.map_type ≡ anonymous
    was_anonymous =
        (sound.lawful vpn (seen area vpn) user
          (view_vpn ρ m space vpn area page sound user found absent given)).0

    mapped :
        (m' : Machine) (root' : RootPgt)
        → Mapped roles1 (m1', space.root_pgt) vpn page.ppn (flags_of area.permissions) (m', root')
        → ((alloc m.allocator).1).next_unused_ppn ≤ m'.allocator.next_unused_ppn
        → MapOk ρ m space vpn min_permissions
            (m', record space { root_pgt = root'; areas = areas1 })
    mapped m' root' h later = record {
      roles' = h.roles';
      sound = record {
        inv = h.inv;
        disjoint = updated-Disjoint vpn (inserted vpn page) space.areas sound.disjoint;
        agrees =
            subst (λ r. (u : Vpn) → u < 2 ^ 26 → walk m'.memory r u ≡ shown (view areas1 u))
              (sym h.root)
              (mapped-Agrees ρ m space vpn area page sound user found absent given m'.memory h.now
                h.others);
        owned =
            mapped-Owned ρ m space vpn area page sound user found absent given h.roles' m' h.kept
              later;
        lawful = mapped-Lawful ρ m space vpn area page sound user found absent given;
        stop = sound.stop;
        stops =
            subst (λ r. Stops r (2 ^ 26) sound.stop m'.memory) (sym h.root)
              (Stops-stay vpn sound.inv.tree
                (subst (λ r. IsTree h.roles' m'.memory r) h.root h.inv.tree)
                (λ q j up small next.
                  let e = table_kept q j up small in
                  h.pointers q j (rw (table_role q up) up) small (rw e next) ∙ e)
                (λ u hu ne. h.others u hu ne ∙ zeroed_same u) sound.stops);
      };
      page = page;
      free = was_free ρ m space vpn area page sound user found absent given;
      permissions = area.permissions;
      allowed = allowed;
      was =
          view_vpn ρ m space vpn area page sound user found absent given
          ∙ ap (λ t. some (t, area.permissions, lookup vpn area.pages)) was_anonymous
          ∙ ap (λ o. some (anonymous, area.permissions, o)) absent;
      now =
          now_seen ρ m space vpn area page sound user found absent given
          ∙ ap (λ t. some (t, area.permissions, some page)) was_anonymous;
      others = others_seen ρ m space vpn area page sound user found absent given;
      walks = λ u hu ne.
          h.others u hu ne
          ∙ zeroed-walk ρ m.memory space.root_pgt.ppn page.ppn sound.inv.tree
              (was_free ρ m space vpn area page sound user found absent given) u;
    }

    -- The page is taken out again, and dropped.
    failed :
        (e : PgtError) (m' : Machine) (root' : RootPgt)
        → Refused roles1
            (m1', space.root_pgt)
            vpn
            page.ppn
            (flags_of area.permissions)
            e
            (m', root')
        → ((alloc m.allocator).1).next_unused_ppn ≤ m'.allocator.next_unused_ppn
        → MapFailed ρ m space vpn min_permissions (pgt_error vpn e) (
          drop_page page m',
          record space { root_pgt = root'; areas = updated vpn (remove vpn) areas1 },
        )
    unfolding drop_page
    failed e m' root' h later =
        subst
          (λ xs.
            MapFailed ρ m space vpn min_permissions (pgt_error vpn e)
              (drop_page page m', record space { root_pgt = root'; areas = xs }))
          (sym taken_out)
          (record {
            roles' = roles2;
            sound = record {
              inv = record {
                tree = lose-IsTree h.roles' roles2 m'.memory root'.ppn lose h.extends.inv.tree;
                fresh =
                    dealloc-IsFresh m'.allocator page h.extends.inv.fresh
                      (other_used ρ m space vpn area page sound user found absent given is_other)
                      (omega (arith, handed, later))
                      (small ρ m space vpn area page sound user found absent given);
              };
              disjoint = sound.disjoint;
              agrees = λ u b.
                  subst (λ r. walk m'.memory r u ≡ shown (view space.areas u)) (sym h.extends.root)
                    (same_walk u ∙ sound.agrees u b);
              owned =
                  kept-Owned ρ m space vpn area page sound user found absent given roles2
                    (drop_page page m') (λ q ne used. back q ne ∙ h.extends.grows.kept q used)
                    later;
              lawful = sound.lawful;
              stop = sound.stop;
              stops =
                  subst (λ r. Stops r (2 ^ 26) sound.stop m'.memory) (sym h.extends.root)
                    (Stops-stay vpn sound.inv.tree
                      (subst (λ r. IsTree h.roles' m'.memory r) h.extends.root h.extends.inv.tree)
                      (λ q j up small next.
                        let e = table_kept q j up small in
                        let up1 : is_upper (roles1 q) ≡ true = rw (table_role q up) up in
                        h.extends.grows.pointers q j (upper_used (roles1 q) up1) small (rw e next)
                        ∙ e)
                      (λ u hu ne. same_walk u) sound.stops);
            };
            areas = refl;
            walks = same_walk;
            reason = inr (
              seen area vpn,
              view_vpn ρ m space vpn area page sound user found absent given,
              reason,
            );
          })
      where
        roles2 : Roles
        roles2 = assign h.roles' page.ppn unused

        taken_out : updated vpn (remove vpn) areas1 ≡ space.areas
        taken_out =
            updated-updated vpn (inserted vpn page) (remove vpn) space.areas area found
              (remove-inserted vpn page area.pages absent)

        is_other : h.roles' page.ppn ≡ other
        is_other =
            h.extends.grows.kept page.ppn (
              other_used ρ m space vpn area page sound user found absent given
                (page_role ρ m space vpn area page sound user found absent given))
            ∙ page_role ρ m space vpn area page sound user found absent given

        back : (q : Ppn) → q ≢ page.ppn → roles2 q ≡ h.roles' q
        back q ne = ground (arith, ne)

        lose : (q : Ppn) → (roles2 q ≡ h.roles' q) ⊎ ((h.roles' q ≡ other) × (roles2 q ≡ unused))
        lose q = elim (Bool-cases (q == page.ppn)) [
          | inl here ↦ inr (ap h.roles' (==→≡ q page.ppn here) ∙ is_other, rw here refl)
          | inr away ↦ inl (rw away refl)
        ]

        handed : page.ppn < ((alloc m.allocator).1).next_unused_ppn
        handed = alloc_handed m.allocator page sound.inv.fresh given

        same_walk :
            (u : Vpn) → walk m'.memory space.root_pgt.ppn u ≡ walk m.memory space.root_pgt.ppn u
        same_walk u =
            h.extends.walks u
            ∙ zeroed-walk ρ m.memory space.root_pgt.ppn page.ppn sound.inv.tree
                (was_free ρ m space vpn area page sound user found absent given) u

        reason :
            (pgt_error vpn e ≡ permission_denied vpn min_permissions)
              × (bit_and min_permissions area.permissions ≢ min_permissions)
            ⊎ (pgt_error vpn e ≡ acquire_page_failed) × ((alloc m.allocator).0 ≡ none)
            ⊎ (pgt_error vpn e ≡ pgt_error vpn Sv39.acquire_page_failed)
            ⊎ (pgt_error vpn e ≡ pgt_error vpn (Sv39.invalid_pte_flags (flags_of area.permissions)))
              × (is_valid_flags (flags_of area.permissions) ≡ false)
        reason = elim h.reason [
          | inl (same, was_mapped) ↦ absurd (was_mapped none_mapped)
          | inr (inl (same, full)) ↦ inr (inr (inl (ap (pgt_error vpn) same)))
          | inr (inr (same, bad)) ↦ inr (inr (inr (ap (pgt_error vpn) same, bad)))
        ]

    pub finish :
        (o : Outcome (Machine × RootPgt) PgtError (Unit {0}))
        → Maps roles1 (m1', space.root_pgt) vpn page.ppn (flags_of area.permissions) o
        → Steady ((alloc m.allocator).1).next_unused_ppn o
        → MapSound ρ m space vpn min_permissions (finished o)
    unfolding Steady remove_page
    finish (ok done (m', root')) h later = mapped m' root' h later
    finish (err e (m', root')) h later = failed e m' root' h later
    finish panic h later = h
