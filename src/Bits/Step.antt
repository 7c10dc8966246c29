-- ===== src/Bits/Step.antt =====
-- The lowest binary digit of `&`, `|` and `^`, from the recursion that the native operations
-- stand for.
use Prim.Native.Nat.{digits, bitwise, bit_and-bitwise, bit_or-bitwise, bit_xor-bitwise, differ}
use hj.Base.{
  ℕ, zero, suc, ◌+◌, ◌*◌, ◌/◌, ◌%◌, ◌≤◌, min, max, bit_and, bit_or, bit_xor, ◌≡◌, refl, ap, arith,
}

module _ (z : ℕ → ℕ) (f : ℕ → ℕ → ℕ) where
  -- The fuel of the recursion does not matter, once it is at least the first operand.
  same_digits : (a b m n : ℕ) → a ≤ m → a ≤ n → digits z f m a b ≡ digits z f n a b
  same_digits zero b zero zero p q = refl
  same_digits zero b zero (suc n) p q = refl
  same_digits zero b (suc m) zero p q = refl
  same_digits zero b (suc m) (suc n) p q = refl
  same_digits (suc a) b zero n p q = absurd (omega arith)
  same_digits (suc a) b (suc m) zero p q = absurd (omega arith)
  same_digits (suc a) b (suc m) (suc n) p q =
      ap (λ (d : ℕ). d * 2 + f (suc a % 2) (b % 2))
        (same_digits (suc a / 2) (b / 2) m n (omega arith) (omega arith))

  lowest_digit :
      (a b : ℕ)
      → bitwise z f (suc a) b ≡ bitwise z f (suc a / 2) (b / 2) * 2 + f (suc a % 2) (b % 2)
  lowest_digit a b =
      ap (λ (d : ℕ). d * 2 + f (suc a % 2) (b % 2))
        (same_digits (suc a / 2) (b / 2) a (suc a / 2) (omega arith) (omega arith))

pub bit_and_step : (a b : ℕ) → bit_and a b ≡ bit_and (a / 2) (b / 2) * 2 + min (a % 2) (b % 2)
bit_and_step zero b = rw (bit_and-bitwise 0 b, bit_and-bitwise 0 (b / 2)) (omega arith)
bit_and_step (suc a) b =
    rw (bit_and-bitwise (suc a) b, bit_and-bitwise (suc a / 2) (b / 2))
      (lowest_digit (λ _. 0) min a b)

pub bit_or_step : (a b : ℕ) → bit_or a b ≡ bit_or (a / 2) (b / 2) * 2 + max (a % 2) (b % 2)
bit_or_step zero b = rw (bit_or-bitwise 0 b, bit_or-bitwise 0 (b / 2)) (omega arith)
bit_or_step (suc a) b =
    rw (bit_or-bitwise (suc a) b, bit_or-bitwise (suc a / 2) (b / 2))
      (lowest_digit (λ y. y) max a b)

halves : (b : ℕ) → b ≡ b / 2 * 2 + b % 2
halves b = omega arith

pub bit_xor_step : (a b : ℕ) → bit_xor a b ≡ bit_xor (a / 2) (b / 2) * 2 + differ (a % 2) (b % 2)
bit_xor_step zero b = rw (bit_xor-bitwise 0 b, bit_xor-bitwise 0 (b / 2)) (halves b)
bit_xor_step (suc a) b =
    rw (bit_xor-bitwise (suc a) b, bit_xor-bitwise (suc a / 2) (b / 2))
      (lowest_digit (λ y. y) differ a b)

pub differ_zero : (x y z : ℕ) → x ≡ z → y ≡ 0 → differ x y ≡ z
differ_zero zero zero z e h = e
differ_zero (suc x) zero z e h = e
differ_zero zero (suc y) z e h = absurd (omega arith)
differ_zero (suc x) (suc y) z e h = absurd (omega arith)
