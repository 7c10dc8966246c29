-- ===== src/Mm/Vm/Sound/Runs.antt =====
-- Any sequence of mmap, munmap and page faults on a `VmSpace` of os/src/mm/vm.rs.
use hj.Base.{ℕ, ◌^◌, ◌≤◌, ◌<◌, ◌≡◌, none, some}
use hj.Outcome.{Outcome, ok, err}
use hj.Outcome.Post.{Ends, Ends-from, Ends-err}
use hj.Mm.{Vpn, vpn_from_va}
use hj.Mm.PageAlloc.{Machine}
use hj.Mm.Sv39.Tree.{Roles, walk}
use hj.Mm.Vm.{VmSpace, VmError, anonymous}
use hj.Mm.Vm.Space.{add_new_area, unmap, map_fault_page}
use hj.Mm.Vm.Sound.{Sound}
use hj.Mm.Vm.Sound.Added.{Stays, add_new_area-Sound}
use hj.Mm.Vm.Sound.Unmapped.{unmap-Sound}
use hj.Mm.Vm.Sound.Promise.{MapSound}
use hj.Mm.Vm.Sound.Mapped.{map_fault_page-Sound}

abbrev pub State : Type 0
State = Machine × VmSpace

-- How a method may end: with a value or an error, and the state that it left.
pub data Left : Outcome State VmError (Unit {0}) → State → Type 0 where
  returned : {s : State} → Left (ok tt s) s
  failed : {e : VmError} {s : State} → Left (err e s) s

-- The steps that system calls and faults of a user program make on its space: new areas for any
-- range, the removal of a range of user pages, and faults at user pages that are not mapped. Each
-- may succeed or fail.
pub data Runs : State → State → Type 0 where
  done : {s : State} → Runs s s
  mmap :
      {s s1 s2 : State} (start end : Vpn) (permissions : ℕ)
      → Left (add_new_area start end anonymous permissions s) s1
      → Runs s1 s2
      → Runs s s2
  munmap :
      {s s1 s2 : State} (start end : Vpn)
      → start ≤ end
      → end ≤ 2 ^ 26
      → Left (unmap start end s) s1
      → Runs s1 s2
      → Runs s s2
  fault :
      {s s1 s2 : State} (va : ℕ) (vpn : Vpn) (min_permissions : ℕ)
      → vpn_from_va va ≡ some vpn
      → vpn < 2 ^ 26
      → walk s.0.memory s.1.root_pgt.ppn vpn ≡ none
      → Left (map_fault_page va min_permissions s) s1
      → Runs s1 s2
      → Runs s s2

abbrev pub SoundAgain : State → Type 0
SoundAgain s = (ρ : Roles) × Sound ρ s

mmap_step :
    (ρ : Roles) (s : State) (start end permissions : ℕ) (sound : Sound ρ s)
    {o : Outcome State VmError (Unit {0})} {s1 : State}
    → Stays ρ s.0 s.1 start end permissions sound o
    → Left o s1
    → SoundAgain s1
mmap_step ρ s start end permissions sound h returned = (ρ, h)
mmap_step ρ s start end permissions sound h failed = (ρ, h)

munmap_step :
    (P : State → Type 0) {o : Outcome State VmError (Unit {0})} {s1 : State}
    → Ends ⊥ (λ done s'. P s') o
    → Left o s1
    → P s1
munmap_step P h returned = Ends-from _ _ _ h
munmap_step P h failed = absurd (Ends-err _ _ _ _ h)

fault_step :
    (ρ : Roles) (s : State) (vpn min_permissions : ℕ) {o : Outcome State VmError (Unit {0})}
    {s1 : State}
    → MapSound ρ s.0 s.1 vpn min_permissions o
    → Left o s1
    → SoundAgain s1
fault_step ρ s vpn min_permissions h returned = (h.roles', h.sound)
fault_step ρ s vpn min_permissions h failed = (h.roles', h.sound)

-- A space is sound where its page table is a tree of tables, none of them shared, no page that the
-- allocator can hand out is in use or there twice, its areas share no page, the hardware finds
-- each user page mapped as the areas say, the pages of the areas are theirs alone, all these pages
-- have numbers below 2 ^ 26, the area of each user page is anonymous with known permissions, and a
-- lowest table holds a page past the user pages, with no leaf at an upper level up to there, so
-- that the loops of the page table's unmap end: from a sound space, every sequence of new
-- anonymous areas, removals of ranges of user pages that do not end before they start, and faults
-- at user pages that are not mapped leads to a sound space again, whether they succeed or fail.
pub Runs-Sound : (ρ : Roles) (s s' : State) → Sound ρ s → Runs s s' → (ρ' : Roles) × Sound ρ' s'
Runs-Sound ρ s s' sound done = (ρ, sound)
Runs-Sound ρ s s' sound (mmap {s1 = s1} start end permissions left more) =
    let (ρ1, sound1) =
      mmap_step ρ s start end permissions sound
        (add_new_area-Sound ρ s.0 s.1 start end permissions sound) left in
    Runs-Sound ρ1 s1 s' sound1 more
Runs-Sound ρ s s' sound (munmap {s1 = s1} start end ordered user left more) =
    let (sound1, root) = munmap_step _ (unmap-Sound ρ s.0 s.1 start end ordered user sound) left in
    Runs-Sound _ s1 s' sound1 more
Runs-Sound ρ s s' sound (fault {s1 = s1} va vpn min_permissions page user missing left more) =
    let (ρ1, sound1) =
      fault_step ρ s vpn min_permissions
        (map_fault_page-Sound ρ s.0 s.1 va vpn min_permissions sound page user missing) left in
    Runs-Sound ρ1 s1 s' sound1 more
