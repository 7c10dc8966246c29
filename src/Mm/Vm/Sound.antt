-- ===== src/Mm/Vm/Sound.antt =====
-- The invariant of a `VmSpace` and its machine: the page table shows what the areas say.
pub mod Free
pub mod Unmapped
pub mod Mapped
pub mod Filled
pub mod Promise
pub mod Finish
pub mod Added
pub mod Runs
use package.hj.Base.{ℕ, ◌+◌, ◌*◌, ◌^◌, ◌≤◌, ◌<◌, ◌≡◌, Option, none, some, List, bit_or, bit_and}
use package.hj.Mm.{Vpn, Ppn}
use package.hj.Mm.PageAlloc.{Machine, page_get_ppn}
use package.hj.Mm.Memory.{Memory}
use package.hj.Mm.Sv39.{Pte, flag_v}
use package.hj.Mm.Sv39.Tree.{Roles, other, walk}
use package.hj.Mm.Sv39.Child.{Inv}
use package.hj.Mm.Sv39.Unmap.Upper.{Stops}
use package.hj.Mm.Vm.{VmArea, VmSpace, anonymous, all_permission_flags}
use package.hj.Mm.Vm.AddArea.{Disjoint, Allowed}
use package.hj.Mm.Vm.View.{Seen, view, held}

-- The entry for a page: none until it has a page of its own.
abbrev pub shown : Option Seen → Option (ℕ × Pte)
shown none = none
shown (some (map_type, permissions, none)) = none
shown (some (map_type, permissions, some page)) =
    some (0, page_get_ppn page * 1024 + bit_or (bit_and permissions all_permission_flags) flag_v)

-- For user pages, whose numbers are below 2 ^ 26.
abbrev pub Agrees : Memory → Ppn → List VmArea → Type 0
Agrees mem root areas = (u : Vpn) → u < 2 ^ 26 → walk mem root u ≡ shown (view areas u)

-- The pages of the areas were handed out, are no tables, and no two places hold the same one.
abbrev pub Owned : Roles → Machine → List VmArea → Type 0
Owned ρ m areas =
    (p : Ppn)
    → 1 ≤ held p areas
    → (ρ p ≡ other) × (p < m.allocator.next_unused_ppn) × (p < 2 ^ 26) × (held p areas ≤ 1)

-- A user page's area is anonymous, and its permissions are known ones.
abbrev pub Lawful : List VmArea → Type 0
Lawful areas =
    (u : Vpn) (x : Seen) → u < 2 ^ 26 → view areas u ≡ some x → (x.0 ≡ anonymous) × Allowed x.1

pub record Sound (ρ : Roles) (s : Machine × VmSpace) : Type 0 where
  pub inv : Inv ρ (s.0, s.1.root_pgt)
  pub disjoint : Disjoint s.1.areas
  pub agrees : Agrees s.0.memory s.1.root_pgt.ppn s.1.areas
  pub owned : Owned ρ s.0 s.1.areas
  pub lawful : Lawful s.1.areas
  -- The loops of `unmap` end for every range of user pages.
  pub stop : ℕ
  pub stops : Stops s.1.root_pgt.ppn (2 ^ 26) stop s.0.memory
