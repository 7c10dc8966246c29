-- ===== src/Bits.antt =====
-- `&`, `|` and `^` on words, as arithmetic: the laws that the masks of the kernel need.
mod Step
use Prim.Native.Nat.{bit_and-bitwise, bit_or-bitwise}
use Step.{bit_and_step, bit_or_step, bit_xor_step, differ_zero}
use native.Mathlib.Nat.{pow-suc, one-le-pow}
use hj.Base.{
  ℕ, zero, suc, ◌+◌, ◌-◌, ◌*◌, ◌/◌, ◌%◌, ◌^◌, ◌≤◌, ◌<◌, min, max, bit_and, bit_or, bit_xor,
}
use hj.Base.{◌≡◌, refl, ap, sym, subst, ◌∙◌, arith}

pub zero-bit_and : (b : ℕ) → bit_and 0 b ≡ 0
zero-bit_and b = bit_and-bitwise 0 b

pub zero-bit_or : (b : ℕ) → bit_or 0 b ≡ b
zero-bit_or b = bit_or-bitwise 0 b

double_shift : (k q : ℕ) → 2 ^ suc k * q ≡ 2 * (2 ^ k * q)
double_shift k q = omega (arith, ap (λ (t : ℕ). t * q) (pow-suc 2 k))

half_shift : (k lo q : ℕ) → (lo + 2 ^ suc k * q) / 2 ≡ lo / 2 + 2 ^ k * q
half_shift k lo q = omega (arith, double_shift k q)

-- Both operations work on the low `k` bits and on the rest apart.
pub bit_and_split :
    (k lo hi lo' hi' : ℕ)
    → lo < 2 ^ k
    → lo' < 2 ^ k
    → bit_and (lo + 2 ^ k * hi) (lo' + 2 ^ k * hi') ≡ bit_and lo lo' + 2 ^ k * bit_and hi hi'
bit_and_split zero lo hi lo' hi' p q = ground (arith, zero-bit_and 0)
bit_and_split (suc k) lo hi lo' hi' p q = ground (
  arith,
  pow-suc 2 k,
  double_shift k hi,
  double_shift k hi',
  double_shift k (bit_and hi hi'),
  half_shift k lo hi,
  half_shift k lo' hi',
  bit_and_step (lo + 2 ^ suc k * hi) (lo' + 2 ^ suc k * hi'),
  bit_and_step lo lo',
  bit_and_split k (lo / 2) hi (lo' / 2) hi',
)

pub bit_or_split :
    (k lo hi lo' hi' : ℕ)
    → lo < 2 ^ k
    → lo' < 2 ^ k
    → bit_or (lo + 2 ^ k * hi) (lo' + 2 ^ k * hi') ≡ bit_or lo lo' + 2 ^ k * bit_or hi hi'
bit_or_split zero lo hi lo' hi' p q = ground (arith, zero-bit_or 0)
bit_or_split (suc k) lo hi lo' hi' p q = ground (
  arith,
  pow-suc 2 k,
  double_shift k hi,
  double_shift k hi',
  double_shift k (bit_or hi hi'),
  half_shift k lo hi,
  half_shift k lo' hi',
  bit_or_step (lo + 2 ^ suc k * hi) (lo' + 2 ^ suc k * hi'),
  bit_or_step lo lo',
  bit_or_split k (lo / 2) hi (lo' / 2) hi',
)

-- A word that fits the mask passes it whole.
bit_and_fits : (k lo : ℕ) → lo < 2 ^ k → bit_and lo (2 ^ k - 1) ≡ lo
bit_and_fits zero lo p = ground (arith, zero-bit_and 0)
bit_and_fits (suc k) lo p =
    ground
      (arith, pow-suc 2 k, one-le-pow k 2, bit_and_step lo (2 ^ suc k - 1), bit_and_fits k (lo / 2))

below_only : (n a : ℕ) → a ≤ n → bit_and a 0 ≡ 0
below_only n zero h = zero-bit_and 0
below_only zero (suc a) h = absurd (omega arith)
below_only (suc n) (suc a) h =
    omega (arith, bit_and_step (suc a) 0, below_only n (suc a / 2) (omega arith))

pub bit_and-zero : (a : ℕ) → bit_and a 0 ≡ 0
bit_and-zero a = below_only a a (omega arith)

or_below : (n a : ℕ) → a ≤ n → bit_or a 0 ≡ a
or_below n zero h = zero-bit_or 0
or_below zero (suc a) h = absurd (omega arith)
or_below (suc n) (suc a) h =
    omega (arith, bit_or_step (suc a) 0, or_below n (suc a / 2) (omega arith))

pub bit_or-zero : (a : ℕ) → bit_or a 0 ≡ a
bit_or-zero a = or_below a a (omega arith)

-- A mask of `k` low ones keeps the remainder by `2 ^ k`.
pub bit_and_low : (k a : ℕ) → bit_and a (2 ^ k - 1) ≡ a % 2 ^ k
bit_and_low k a = ground (
  arith,
  one-le-pow k 2,
  bit_and_split k (a % 2 ^ k) (a / 2 ^ k) (2 ^ k - 1) 0,
  bit_and-zero (a / 2 ^ k),
  bit_and_fits k (a % 2 ^ k),
)

-- A mask of ones from bit `k` on, `j` of them.
pub bit_and_high : (k j a : ℕ) → bit_and a (2 ^ k * (2 ^ j - 1)) ≡ 2 ^ k * (a / 2 ^ k % 2 ^ j)
bit_and_high k j a = ground (
  arith,
  one-le-pow k 2,
  bit_and_split k (a % 2 ^ k) (a / 2 ^ k) 0 (2 ^ j - 1),
  bit_and-zero (a % 2 ^ k),
  bit_and_low j (a / 2 ^ k),
)

-- `(q << k) | r` is a sum where `r` fits below.
pub bit_or_fields : (k q r : ℕ) → r < 2 ^ k → bit_or (q * 2 ^ k) r ≡ q * 2 ^ k + r
bit_or_fields k q r h =
    ground (arith, one-le-pow k 2, bit_or_split k 0 q r 0, zero-bit_or r, bit_or-zero q)

-- `^` with a single bit takes that bit off again.
pub bit_xor_off : (k lo : ℕ) → lo < 2 ^ k → bit_xor (lo + 2 ^ k) (2 ^ k) ≡ lo
bit_xor_off zero lo h = subst (λ n. bit_xor (n + 1) 1 ≡ n) (zero_is lo h) refl
  where
    zero_is : (n : ℕ) → n < 2 ^ 0 → 0 ≡ n
    zero_is n h = omega arith
bit_xor_off (suc k) lo h =
    let double = pow-suc 2 k in
    let a = lo + 2 ^ suc k in
    let b = 2 ^ suc k in
    let high : a / 2 ≡ lo / 2 + 2 ^ k = omega (arith, double) in
    let half : b / 2 ≡ 2 ^ k = omega (arith, double) in
    let low =
      differ_zero (a % 2) (b % 2) (lo % 2) (omega (arith, double)) (omega (arith, double)) in
    let rest : bit_xor (a / 2) (b / 2) ≡ lo / 2 =
      rw (high, half) (bit_xor_off k (lo / 2) (omega (arith, double))) in
    omega (arith, bit_xor_step a b, low, rest)
