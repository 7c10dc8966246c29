-- ===== src/Mm/Vm/Sound/Mapped.antt =====
-- `VMSpace::map` and `VMSpace::map_fault_page` of os/src/mm/vm.rs keep the invariant of the space.
use hj.Base.{
  ℕ, ◌^◌, ◌<◌, ◌≡◌, ◌≢◌, inl, inr, refl, sym, ap, ◌∙◌, subst, true, false, none, some, bit_and,
  complement, ◌==◌, find, arith, Bool-cases, Option-cases, ==→≡, ==→≢,
}
use hj.Mm.{Vpn, vpn_from_va}
use hj.Mm.PageAlloc.{Page, Machine, alloc}
use hj.Mm.Sv39.Tree.{Roles, walk}
use hj.Mm.Sv39.MapCreate.{map_create-Maps}
use hj.Mm.Sv39.Fresh.{Grants, alloc-Grants}
use hj.Mm.Sv39.Steps.{alloc_zeroed_page-none, alloc_zeroed_page-some}
use hj.Mm.Sv39.Steady.{map_create-Keeps}
use hj.Mm.Vm.{
  VmArea, VmSpace, VmError, no_area_contain_vpn, permission_denied, acquire_page_failed,
  contain_vpn, to_pte_flags, all_permission_flags,
}
use hj.Mm.Vm.Pages.{lookup}
use hj.Mm.Vm.Space.{map, map_fault_page, find_area, map_page, on_root_pgt, insert_page}
use hj.Mm.Vm.View.{seen, view}
use hj.Mm.Vm.View.Fill.{find-view, find-view-none, insert-replaced}
use hj.Mm.Vm.Sound.{shown, Sound}
use hj.Mm.Vm.Sound.Filled.{flags_of, flags_bound, start, small}
use hj.Mm.Vm.Sound.Promise.{MapFailed, Reason, MapSound}
use hj.Mm.Vm.Sound.Finish.{finish}

module _ (ρ : Roles) (m : Machine) (space : VmSpace) (vpn : Vpn) (min_permissions : ℕ)
    (sound : Sound ρ (m, space)) (user : vpn < 2 ^ 26) where
  -- The state is as it was.
  unchanged :
      (e : VmError)
      → Reason ρ m space vpn min_permissions e
      → MapFailed ρ m space vpn min_permissions e (m, space)
  unchanged e reason = record {
    roles' = ρ;
    sound = sound;
    areas = refl;
    walks = λ u. refl;
    reason = reason;
  }

  module _ (area : VmArea) (found : find (λ a. contain_vpn a vpn) space.areas ≡ some area) where
    there : view space.areas vpn ≡ some (seen area vpn)
    there = find-view vpn space.areas area found

    -- A page that is not mapped is not in the area's map.
    not_there : walk m.memory space.root_pgt.ppn vpn ≡ none → lookup vpn area.pages ≡ none
    not_there fault = elim (Option-cases (lookup vpn area.pages)) [
      | inl absent ↦ absent
      | inr (page, present) ↦ absurd (
          both (
            ap (λ o. shown (some (area.map_type, area.permissions, o))) (sym present)
            ∙ ap shown (sym there)
            ∙ sym (sound.agrees vpn user)
            ∙ fault))
    ]
      where
        both : {x : ℕ × ℕ} → ¬ (some x ≡ none)
        both z = absurd cc

    given_Sound :
        (page : Page)
        → lookup vpn area.pages ≡ none
        → bit_and min_permissions area.permissions ≡ min_permissions
        → (alloc m.allocator).0 ≡ some page
        → MapSound ρ m space vpn min_permissions (map vpn min_permissions (m, space))
    unfolding map find_area map_page on_root_pgt insert_page to_pte_flags
    given_Sound page absent allowed given =
        let lawful = sound.lawful vpn (seen area vpn) user there in
        let fits = small ρ m space vpn area page sound user found absent given in
        let enough : (bit_and min_permissions area.permissions == min_permissions) ≡ true =
          ground (arith, allowed) in
        let known : (bit_and area.permissions (complement all_permission_flags) == 0) ≡ true =
          ground (arith, lawful.1) in
        let pair : alloc m.allocator ≡ (some page, (alloc m.allocator).1) =
          ap (λ o. (o, (alloc m.allocator).1)) given in
        rw
          (
            found,
            enough,
            lawful.0,
            alloc_zeroed_page-some m space page (alloc m.allocator).1 pair fits,
            insert-replaced vpn page area.pages absent,
            known,
          )
          (finish ρ m space vpn min_permissions sound user area page found absent given allowed _
            (map_create-Maps _ _ vpn page.ppn (flags_of area.permissions)
              (start ρ m space vpn area page sound user found absent given) (inl user)
              (omega (arith, fits)) (flags_bound area.permissions))
            (map_create-Keeps vpn page.ppn (flags_of area.permissions) _))

    full_Sound :
        bit_and min_permissions area.permissions ≡ min_permissions
        → (alloc m.allocator).0 ≡ none
        → MapSound ρ m space vpn min_permissions (map vpn min_permissions (m, space))
    unfolding map find_area
    full_Sound allowed full =
        let lawful = sound.lawful vpn (seen area vpn) user there in
        let after = (alloc m.allocator).1 in
        let enough : (bit_and min_permissions area.permissions == min_permissions) ≡ true =
          ground (arith, allowed) in
        let pair : alloc m.allocator ≡ (none, after) = ap (λ o. (o, after)) full in
        let grants : Grants ρ m.allocator (none, after) =
          subst (λ o. Grants ρ m.allocator (o, after)) full
            (alloc-Grants m.allocator sound.inv.fresh) in
        rw (found, enough, lawful.0, alloc_zeroed_page-none m space after pair)
          (subst
            (λ a.
              MapFailed ρ m space vpn min_permissions acquire_page_failed
                (record m { allocator = a }, space))
            (sym grants.0)
            (unchanged acquire_page_failed (inr (seen area vpn, there, inr (inl (refl, full))))))

    denied_Sound :
        bit_and min_permissions area.permissions ≢ min_permissions
        → MapSound ρ m space vpn min_permissions (map vpn min_permissions (m, space))
    unfolding map find_area
    denied_Sound denied =
        let less : (bit_and min_permissions area.permissions == min_permissions) ≡ false =
          ground (arith, denied) in
        rw (found, less)
          (unchanged (permission_denied vpn min_permissions)
            (inr (seen area vpn, there, inl (refl, denied))))

    found_Sound :
        walk m.memory space.root_pgt.ppn vpn ≡ none
        → MapSound ρ m space vpn min_permissions (map vpn min_permissions (m, space))
    found_Sound fault =
        elim (Bool-cases (bit_and min_permissions area.permissions == min_permissions)) [
          | inr less ↦ denied_Sound (==→≢ _ _ less)
          | inl enough ↦ elim (Option-cases (alloc m.allocator).0) [
            | inl full ↦ full_Sound (==→≡ _ _ enough) full
            | inr (page, given) ↦ given_Sound page (not_there fault) (==→≡ _ _ enough) given
          ]
        ]

  map-Sound :
      walk m.memory space.root_pgt.ppn vpn ≡ none
      → MapSound ρ m space vpn min_permissions (map vpn min_permissions (m, space))
  unfolding map find_area
  map-Sound fault = elim (Option-cases (find (λ a. contain_vpn a vpn) space.areas)) [
    | inr (area, found) ↦ found_Sound area found fault
    | inl nowhere ↦
        rw nowhere
          (unchanged (no_area_contain_vpn vpn) (inl (refl, find-view-none vpn space.areas nowhere)))
  ]

pub map_fault_page-Sound :
    (ρ : Roles) (m : Machine) (space : VmSpace) (va : ℕ) (vpn : Vpn) (min_permissions : ℕ)
    → Sound ρ (m, space)
    → vpn_from_va va ≡ some vpn
    → vpn < 2 ^ 26
    → walk m.memory space.root_pgt.ppn vpn ≡ none
    → MapSound ρ m space vpn min_permissions (map_fault_page va min_permissions (m, space))
unfolding map_fault_page
map_fault_page-Sound ρ m space va vpn min_permissions sound page user fault =
    rw page (map-Sound ρ m space vpn min_permissions sound user fault)
