-- ===== src/Mm/Sv39/Unmap.antt =====
-- `RootPgt::unmap` of os/src/mm/sv39.rs.
pub mod Clear
pub mod Loops
pub mod Upper
pub mod Middle
pub mod Range
pub mod Stay
use package.hj.Base.{ℕ, zero, suc, ◌+◌, ◌-◌, not, leb, if◌then◌else◌, shl}
use package.hj.Outcome.{Cmd, pure, abort, assert, or_panic, ◌>>=◌, ◌>>◌}
use package.hj.Mm.{Vpn}
use package.hj.Mm.PageAlloc.{Machine}
use package.hj.Mm.Sv39.{
  ptes_per_table, RootPgt, PgtError, parse_vpn, is_valid, is_leaf, pte_get_ppn, get_ptes_mut,
  load_pte, store_pte, root_ppn,
}

-- How a loop of `unmap` ends: by `return`, or at its last round, with what then stands in
-- `parsed_vpn[0]`.
pub data Flow : Type 0 where
  returned : Flow
  finished : ℕ → Flow

-- After an inner loop: the outer one goes on, or the method has returned.
abbrev pub continue1 :
    Cmd (Machine × RootPgt) PgtError Flow → Flow → Cmd (Machine × RootPgt) PgtError Flow
continue1 rest returned = pure returned
continue1 rest (finished first0) = rest

abbrev pub continue2 :
    (ℕ → Cmd (Machine × RootPgt) PgtError (Unit {0}))
    → Flow
    → Cmd (Machine × RootPgt) PgtError (Unit {0})
continue2 rest returned = pure tt
continue2 rest (finished first0) = rest first0

module _ (end_vpn : Vpn) where
  unfoldable pub unmap_level0 : ℕ → (vpn2 vpn1 vpn0 : ℕ) → ℕ → Cmd (Machine × RootPgt) PgtError Flow
  unmap_level0 zero vpn2 vpn1 vpn0 table0 = pure (finished 0)
  unmap_level0 (suc left) vpn2 vpn1 vpn0 table0 =
      let vpn = shl vpn2 18 + shl vpn1 9 + vpn0 in
      if leb end_vpn vpn
      then pure returned
      else (do store_pte table0 vpn0 0; unmap_level0 left vpn2 vpn1 (vpn0 + 1) table0)

  unfoldable pub unmap_level1 :
      ℕ → (vpn2 vpn1 first0 : ℕ) → ℕ → Cmd (Machine × RootPgt) PgtError Flow
  unmap_level1 zero vpn2 vpn1 first0 table1 = pure (finished first0)
  unmap_level1 (suc left) vpn2 vpn1 first0 table1 = do
    pte1 ← load_pte table1 vpn1
    if not (is_valid pte1) then unmap_level1 left vpn2 (vpn1 + 1) 0 table1 else (do
      assert (not (is_leaf pte1))
      child ← or_panic (pte_get_ppn pte1)
      table0 ← or_panic (get_ptes_mut child)
      flow ← unmap_level0 (ptes_per_table - first0) vpn2 vpn1 first0 table0
      continue1 (unmap_level1 left vpn2 (vpn1 + 1) 0 table1) flow)

  -- The loop over the root table ends by `return`, or in a panic.
  unfoldable pub unmap_level2 :
      ℕ → (vpn2 first1 first0 : ℕ) → ℕ → Cmd (Machine × RootPgt) PgtError (Unit {0})
  unmap_level2 zero vpn2 first1 first0 table2 = abort
  unmap_level2 (suc left) vpn2 first1 first0 table2 = do
    pte2 ← load_pte table2 vpn2
    if not (is_valid pte2) then unmap_level2 left (vpn2 + 1) 0 0 table2 else (do
      assert (not (is_leaf pte2))
      child ← or_panic (pte_get_ppn pte2)
      table1 ← or_panic (get_ptes_mut child)
      flow ← unmap_level1 (ptes_per_table - first1) vpn2 first1 first0 table1
      continue2 (λ first0'. unmap_level2 left (vpn2 + 1) 0 first0' table2) flow)

unfoldable pub unmap : Vpn → Vpn → Cmd (Machine × RootPgt) PgtError (Unit {0})
unmap start_vpn end_vpn = if leb end_vpn start_vpn then pure tt else (do
  let parsed_vpn = parse_vpn start_vpn
  root ← root_ppn
  table2 ← or_panic (get_ptes_mut root)
  unmap_level2 end_vpn (ptes_per_table - parsed_vpn.vpn_2) parsed_vpn.vpn_2 parsed_vpn.vpn_1
      parsed_vpn.vpn_0 table2)
