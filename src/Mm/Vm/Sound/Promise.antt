-- ===== src/Mm/Vm/Sound/Promise.antt =====
-- What `VMSpace::map` of os/src/mm/vm.rs promises, for each way in which it may end.
use hj.Base.{ℕ, ◌≡◌, ◌≢◌, ◌⊎◌, false, none, some, bit_and}
use hj.Outcome.{Outcome, ok, err, panic}
use hj.Mm.{Vpn}
use hj.Mm.Bounds.{IsVpn}
use hj.Mm.PageAlloc.{Page, Machine, alloc}
use hj.Mm.Sv39.{RootPgt, PgtError, is_valid_flags, map_create}
use hj.Mm.Sv39 as Sv39
use hj.Mm.Sv39.Tree.{unused, Roles, walk}
use hj.Mm.Vm.{
  VmSpace, VmError, pgt_error, no_area_contain_vpn, permission_denied, acquire_page_failed,
  anonymous,
}
use hj.Mm.Vm.View.{Seen, view}
use hj.Mm.Vm.Sound.{Sound}
use hj.Mm.Vm.Sound.Filled.{flags_of}

module _ (ρ : Roles) (m : Machine) (space : VmSpace) (vpn : Vpn) (min_permissions : ℕ) where
  -- The page is mapped to a page that had no use, as its area says; nothing else changed.
  pub record MapOk (s' : Machine × VmSpace) : Type 0 where
    pub roles' : Roles
    pub sound : Sound roles' s'
    pub page : Page
    pub free : ρ page.ppn ≡ unused
    pub permissions : ℕ
    pub allowed : bit_and min_permissions permissions ≡ min_permissions
    pub was : view space.areas vpn ≡ some (anonymous, permissions, none)
    pub now : view s'.1.areas vpn ≡ some (anonymous, permissions, some page)
    pub others : (u : Vpn) → u ≢ vpn → view s'.1.areas u ≡ view space.areas u
    pub walks :
        (u : Vpn)
        → IsVpn u
        → u ≢ vpn
        → walk s'.0.memory space.root_pgt.ppn u ≡ walk m.memory space.root_pgt.ppn u

  abbrev pub Reason : VmError → Type 0
  Reason e =
      (e ≡ no_area_contain_vpn vpn) × (view space.areas vpn ≡ none)
      ⊎ (x : Seen) × (view space.areas vpn ≡ some x)
        × ((e ≡ permission_denied vpn min_permissions)
              × (bit_and min_permissions x.1 ≢ min_permissions)
            ⊎ (e ≡ acquire_page_failed) × ((alloc m.allocator).0 ≡ none)
            ⊎ (e ≡ pgt_error vpn Sv39.acquire_page_failed)
            ⊎ (e ≡ pgt_error vpn (Sv39.invalid_pte_flags (flags_of x.1)))
              × (is_valid_flags (flags_of x.1) ≡ false))

  -- No area and no walk changed, though tables may have been made.
  pub record MapFailed (e : VmError) (s' : Machine × VmSpace) : Type 0 where
    pub roles' : Roles
    pub sound : Sound roles' s'
    pub areas : s'.1.areas ≡ space.areas
    pub walks :
        (u : Vpn) → walk s'.0.memory space.root_pgt.ppn u ≡ walk m.memory space.root_pgt.ppn u
    pub reason : Reason e

  abbrev pub MapSound : Outcome (Machine × VmSpace) VmError (Unit {0}) → Type 0
  MapSound (ok done s') = MapOk s'
  MapSound (err e s') = MapFailed e s'
  MapSound panic = ⊥
