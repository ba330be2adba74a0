-- ===== src/Prelude/Digits.antt =====
-- The native bit operations digit by digit: one equation each for the lowest binary digit.
use Prim.Native.Nat.{
  ℕ, zero, suc, ◌+◌, ◌*◌, ◌/◌, ◌%◌, ◌≤◌, ◌<◌, max, min, digits, bitwise, differ, bit_or, bit_xor,
  bit_and, bit_or-bitwise, bit_xor-bitwise, bit_and-bitwise,
}
use native.Mathlib.Nat.{le_refl}
use mathlib.Core.Path.{◌≡◌, refl}
use native.Mathlib.Omega.{arith}

-- Two amounts of fuel that both reach the left operand give the same digits.
module _ (rest : ℕ → ℕ) (op : ℕ → ℕ → ℕ) where
  same_digits : (b : ℕ) (n m a : ℕ) → a ≤ n → a ≤ m → digits rest op n a b ≡ digits rest op m a b
  same_digits b zero zero zero _ _ = refl
  same_digits b (suc n) zero zero _ _ = refl
  same_digits b zero (suc m) zero _ _ = refl
  same_digits b (suc n) (suc m) zero _ _ = refl
  same_digits b (suc n) (suc m) (suc a) h k =
      rw (same_digits (b / 2) n m (suc a / 2) (omega arith) (omega arith))
  same_digits b zero zero (suc a) h k = absurd (omega arith)
  same_digits b (suc n) zero (suc a) h k = absurd (omega arith)
  same_digits b zero (suc m) (suc a) h k = absurd (omega arith)

  low_digit :
      (a b : ℕ)
      → bitwise rest op (suc a) b ≡ bitwise rest op (suc a / 2) (b / 2) * 2 + op (suc a % 2) (b % 2)
  low_digit a b =
      omega (arith, same_digits (b / 2) a (suc a / 2) (suc a / 2) (omega arith) (le_refl _))

pub bit_or_step : (x y : ℕ) → bit_or x y ≡ bit_or (x / 2) (y / 2) * 2 + max (x % 2) (y % 2)
bit_or_step zero y = simp bit_or-bitwise (omega arith)
bit_or_step (suc x) y = simp bit_or-bitwise (low_digit (λ d. d) max x y)

pub bit_and_step : (x y : ℕ) → bit_and x y ≡ bit_and (x / 2) (y / 2) * 2 + min (x % 2) (y % 2)
bit_and_step zero y = simp bit_and-bitwise (omega arith)
bit_and_step (suc x) y = simp bit_and-bitwise (low_digit (λ d. 0) min x y)

differ_bits : (x y : ℕ) → x < 2 → y < 2 → differ x y ≡ (x + y) % 2
differ_bits zero zero _ _ = refl
differ_bits zero (suc zero) _ _ = refl
differ_bits (suc zero) zero _ _ = refl
differ_bits (suc zero) (suc zero) _ _ = refl
differ_bits (suc (suc x)) y h _ = absurd (omega arith)
differ_bits zero (suc (suc y)) _ h = absurd (omega arith)
differ_bits (suc zero) (suc (suc y)) _ h = absurd (omega arith)

pub zero-bit_xor : (b : ℕ) → bit_xor 0 b ≡ b
zero-bit_xor b = bit_xor-bitwise 0 b

pub bit_xor_step : (a b : ℕ) → bit_xor a b ≡ bit_xor (a / 2) (b / 2) * 2 + (a + b) % 2
bit_xor_step zero b = omega (arith, zero-bit_xor b, zero-bit_xor (b / 2))
bit_xor_step (suc a) b = simp bit_xor-bitwise (
    omega (
      arith,
      low_digit (λ y. y) differ a b,
      differ_bits (suc a % 2) (b % 2) (omega arith) (omega arith),
    ))
