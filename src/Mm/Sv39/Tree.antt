-- ===== src/Mm/Sv39/Tree.antt =====
-- The page tables below a root: what a walk finds, and that the tables form a tree.
use hj.Base.{
  ℕ, ◌+◌, ◌*◌, ◌/◌, ◌%◌, ◌^◌, ◌≤◌, ◌<◌, ◌≡◌, ◌≢◌, ◌⊎◌, Bool, true, false, Option, none, some, List,
  [], ◌∷◌, ◌==◌, if◌then◌else◌, arith,
}
use hj.Mm.{Ppn, Vpn, kernel_va_offset}
use hj.Mm.Memory.{Memory, read_word, write_word, clear_bytes}
use hj.Mm.Memory.Words.{
  read_word-write_word_self, read_word-write_word_ne, read_word_ext, read_word_zero, clear_bytes_at,
}
use hj.Mm.PageAlloc.{PageAllocator}
use hj.Mm.Sv39.{Pte}

-- The kernel's pointer to a page.
abbrev pub ptr : Ppn → ℕ
ptr p = p * 4096 + kernel_va_offset

-- Entry `i` of the table in page `p`.
unfoldable pub entry : Memory → Ppn → ℕ → Pte
entry mem p i = read_word mem (ptr p + 8 * i)

abbrev pub child : Pte → Ppn
child e = e / 1024 % 2 ^ 44

-- The walk of the Sv39 hardware: the entry it ends at, with its level, or none for a fault. The
-- three bits above V tell a pointer to the next table from a leaf.
unfoldable pub walk_0 : Memory → Ppn → Vpn → Option (ℕ × Pte)
walk_0 mem p v = let e = entry mem p (v % 512) in if e % 2 == 0 then none else some (0, e)

unfoldable pub walk_1 : Memory → Ppn → Vpn → Option (ℕ × Pte)
walk_1 mem p v =
    let e = entry mem p (v / 512 % 512) in
    if e % 2 == 0 then none else if e / 2 % 8 == 0 then walk_0 mem (child e) v else some (1, e)

unfoldable pub walk : Memory → Ppn → Vpn → Option (ℕ × Pte)
walk mem p v =
    let e = entry mem p (v / 2 ^ 18 % 512) in
    if e % 2 == 0 then none else if e / 2 % 8 == 0 then walk_1 mem (child e) v else some (2, e)

-- What a physical page is used for: nothing, the root table, the table below an entry of the root,
-- the table below an entry of that one, or anything else.
pub data Role : Type 0 where
  unused top other : Role
  mid : ℕ → Role
  low : ℕ → ℕ → Role

abbrev pub Roles : Type 0
Roles = Ppn → Role

abbrev pub is_upper : Role → Bool
is_upper top = true
is_upper (mid i) = true
is_upper (low i j) = false
is_upper unused = false
is_upper other = false

-- The role of the table below entry `i` of a table.
abbrev pub below : Role → ℕ → Role
below top i = mid i
below (mid k) i = low k i
below (low k j) i = other
below unused i = other
below other i = other

abbrev pub assign : Roles → Ppn → Role → Roles
assign ρ p r q = if q == p then r else ρ q

-- A valid entry that `is_leaf` takes for a pointer.
abbrev pub IsNext : Pte → Type 0
IsNext e = (e % 2 ≡ 1) × (e / 4 % 4 ≡ 0)

-- Each table has one role, and a pointer leads to the table that its place calls for. So no table
-- is shared between two places. No pointer has the R bit, which `is_leaf` does not look at.
pub record IsTree (ρ : Roles) (mem : Memory) (root : Ppn) : Type 0 where
  pub root_top : ρ root ≡ top
  pub frames : (p : Ppn) → ρ p ≢ unused → p < 2 ^ 26
  pub links :
      (p : Ppn) (i : ℕ)
      → is_upper (ρ p) ≡ true
      → i < 512
      → IsNext (entry mem p i)
      → (ρ (child (entry mem p i)) ≡ below (ρ p) i) × (entry mem p i / 2 % 8 ≡ 0)

-- No page that the allocator can hand out has a use, and none is handed out twice.
abbrev pub IsFree : Roles → Ppn → Type 0
IsFree ρ p = (ρ p ≡ unused) × (p < 2 ^ 26)

abbrev pub AllFree : Roles → Ppn → List Ppn → Type 0
AllFree ρ next [] = Unit {0}
AllFree ρ next (p ∷ ps) = IsFree ρ p × (p < next) × AllFree ρ next ps

abbrev pub NotIn : Ppn → List Ppn → Type 0
NotIn p [] = Unit {0}
NotIn p (q ∷ qs) = (p ≢ q) × NotIn p qs

abbrev pub Distinct : List Ppn → Type 0
Distinct [] = Unit {0}
Distinct (p ∷ ps) = NotIn p ps × Distinct ps

pub record IsFresh (ρ : Roles) (a : PageAllocator) : Type 0 where
  pub recycled : AllFree ρ a.next_unused_ppn a.recycled_ppn
  pub distinct : Distinct a.recycled_ppn
  pub rest : (p : Ppn) → a.next_unused_ppn ≤ p → p < a.max_ppn → ρ p ≡ unused
  pub bound : a.max_ppn ≤ 2 ^ 26

-- Reads of entries after the two writes of this file's code.
pub entry-write_self :
    (mem : Memory) (p i : ℕ) (e : Pte)
    → e < 2 ^ 64
    → entry (write_word (ptr p + 8 * i) e mem) p i ≡ e
unfolding entry
entry-write_self mem p i e h = read_word-write_word_self mem (ptr p + 8 * i) e h

pub entry-write_ne :
    (mem : Memory) (p i q j : ℕ) (e : Pte)
    → i < 512
    → j < 512
    → (p ≢ q) ⊎ (i ≢ j)
    → entry (write_word (ptr p + 8 * i) e mem) q j ≡ entry mem q j
unfolding entry
entry-write_ne mem p i q j e hi hj ne =
    read_word-write_word_ne mem (ptr p + 8 * i) e (ptr q + 8 * j) (omega arith)

pub entry-clear_self :
    (mem : Memory) (p j : ℕ) → j < 512 → entry (clear_bytes 4096 (ptr p) mem) p j ≡ 0
unfolding entry
entry-clear_self mem p j h =
    read_word_zero (clear_bytes 4096 (ptr p) mem) (ptr p + 8 * j)
      λ b l u. ground (arith, clear_bytes_at 4096 (ptr p) mem b)

pub entry-clear_ne :
    (mem : Memory) (p q j : ℕ)
    → j < 512
    → p ≢ q
    → entry (clear_bytes 4096 (ptr p) mem) q j ≡ entry mem q j
unfolding entry
entry-clear_ne mem p q j h ne =
    read_word_ext mem (clear_bytes 4096 (ptr p) mem) (ptr q + 8 * j)
      λ b l u. ground (arith, clear_bytes_at 4096 (ptr p) mem b)
