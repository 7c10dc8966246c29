-- ===== src/Mm/Sv39/Pte.antt =====
-- Entries and page numbers of sv39.rs as arithmetic: what `PTE::new` packs, `is_valid`, `is_leaf`
-- and `get_ppn` read back; the fields of `parse_vpn`.
use hj.Base.{ℕ, ◌+◌, ◌*◌, ◌/◌, ◌%◌, ◌^◌, ◌<◌, ◌≡◌, ◌≢◌, ◌↔◌, arith}
use hj.Base.{true, false, some, bit_and, shl, usize_mod, ◌==◌}
use hj.Outcome.{ok, err}
use hj.Bits.{bit_and_low, bit_and_high, bit_or_fields}
use hj.Mm.{Ppn, Vpn, vpn_get_va, ppn_from_pa}
use hj.Mm.Sv39.{
  Pte, invalid_pte_flags, parse_vpn, is_valid_flags, pte_new, is_valid, pte_get_ppn, is_leaf,
}

v_bit : (pte : ℕ) → bit_and pte 1 ≡ pte % 2
v_bit pte = bit_and_low 1 pte

xw_bits : (pte : ℕ) → bit_and pte 12 ≡ 4 * (pte / 4 % 4)
xw_bits pte = bit_and_high 2 2 pte

pub is_valid_odd : (pte : Pte) → is_valid pte ≡ (pte % 2 == 1)
unfolding is_valid
is_valid_odd pte = ground (arith, v_bit pte)

pub is_leaf_bits : (pte : Pte) → (is_leaf pte ≡ true) ↔ (pte % 2 ≡ 1) × (pte / 4 % 4 ≢ 0)
unfolding is_leaf
is_leaf_bits pte = ground (arith, v_bit pte, xw_bits pte)

pub pte_get_ppn_field : (pte : Pte) → pte_get_ppn pte ≡ some (pte / 1024 % 2 ^ 44)
unfolding pte_get_ppn ppn_from_pa
pte_get_ppn_field pte = ground (arith, bit_and_low 44 (pte / 1024))

-- The flags that the hardware accepts in an entry.
abbrev pub IsFlags : ℕ → Type 0
IsFlags f = (f < 1024) × (f % 2 ≡ 1) × (f / 2 % 4 ≢ 2)

-- For a 64-bit value, `is_valid_flags` accepts exactly the flags that fit ten bits, have V set,
-- and do not have W without R.
pub is_valid_flags_iff : (f : ℕ) → f < usize_mod → (is_valid_flags f ≡ true) ↔ IsFlags f
unfolding is_valid_flags
is_valid_flags_iff f h = ground (arith, bit_and_high 10 54 f, v_bit f, bit_and_high 1 3 f)

pub pte_new_ok :
    {S : Type 0} (s : S) (p : Ppn) (f : ℕ)
    → p < 2 ^ 44
    → is_valid_flags f ≡ true
    → f < 1024
    → pte_new p f s ≡ ok (p * 1024 + f) s
unfolding pte_new
pte_new_ok s p f hp hf small = ground (arith, bit_or_fields 10 p f)

pub pte_new_err :
    {S : Type 0} (s : S) (p : Ppn) (f : ℕ)
    → is_valid_flags f ≡ false
    → pte_new p f s ≡ err (invalid_pte_flags f) s
unfolding pte_new
pte_new_err s p f hf = rw hf

pub parse_vpn_fields :
    (v : Vpn)
    → v < 2 ^ 52
    → ((parse_vpn v).vpn_0 ≡ v % 512)
      × ((parse_vpn v).vpn_1 ≡ v / 512 % 512)
      × ((parse_vpn v).vpn_2 ≡ v / 2 ^ 18 % 512)
unfolding parse_vpn vpn_get_va
parse_vpn_fields v h = (
  omega (arith, bit_and_low 9 (shl v 12 / 2 ^ 12)),
  omega (arith, bit_and_low 9 (shl v 12 / 2 ^ 21)),
  omega (arith, bit_and_low 9 (shl v 12 / 2 ^ 30)),
)

-- An entry that `PTE::new` makes, for a frame below 2 ^ 44 and valid flags, is valid, gives back
-- the frame and the flags, and is a leaf for `is_leaf` exactly when W or X is set.
pub pte_new-pte_get_ppn :
    {S : Type 0} (s : S) (p : Ppn) (f : ℕ)
    → p < 2 ^ 44
    → f < usize_mod
    → is_valid_flags f ≡ true
    → (e : Pte) × (pte_new p f s ≡ ok e s)
      × (e % 1024 ≡ f)
      × (is_valid e ≡ true)
      × (pte_get_ppn e ≡ some p)
      × ((is_leaf e ≡ true) ↔ (f / 4 % 4 ≢ 0))
pte_new-pte_get_ppn s p f hp word good =
    let (small, odd, _) = (is_valid_flags_iff f word).0 good in
    let e = p * 1024 + f in
    (
      e,
      pte_new_ok s p f hp good small,
      omega arith,
      ground (arith, is_valid_odd e),
      ground (arith, pte_get_ppn_field e),
      (λ h. ground (arith, (is_leaf_bits e).0), λ h. (is_leaf_bits e).1 (omega arith)),
    )
