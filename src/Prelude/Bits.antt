-- ===== src/Prelude/Bits.antt =====
-- Laws of the bit operations at variables, by recursion on the number of binary digits.
use Prim.Native.Nat.{
  ℕ, zero, suc, ◌+◌, ◌-◌, ◌*◌, ◌/◌, ◌%◌, ◌^◌, ◌≤◌, ◌<◌, bit_and, bit_or, bit_xor, bit_or-bitwise,
}
use native.Mathlib.Nat.{pow-suc, one-le-pow, div-div-eq-div-mul, mul_comm}
use mathlib.Core.Path.{◌≡◌, refl, ap}
use native.Mathlib.Omega.{arith}
use hawklive.Prelude.Digits.{bit_or_step, bit_and_step, bit_xor_step, zero-bit_xor}

half-lt : (k a : ℕ) → a < 2 ^ suc k → a / 2 < 2 ^ k
half-lt k a h = omega (arith, pow-suc 2 k)

pub mul-pow-suc : (c k : ℕ) → c * 2 ^ suc k ≡ 2 * (c * 2 ^ k)
mul-pow-suc c k = omega (arith, ap (λ (t : ℕ). c * t) (pow-suc 2 k))

pub le-mul-pow : (a k : ℕ) → a ≤ a * 2 ^ k
le-mul-pow a zero = omega arith
le-mul-pow a (suc k) = omega (arith, le-mul-pow a k, mul-pow-suc a k)

bit_xor-half : (a b : ℕ) → bit_xor a b / 2 ≡ bit_xor (a / 2) (b / 2)
bit_xor-half a b = omega (arith, bit_xor_step a b)

-- Numbers of k digits have an exclusive or of k digits.
pub bit_xor-lt : (k a b : ℕ) → a < 2 ^ k → b < 2 ^ k → bit_xor a b < 2 ^ k
bit_xor-lt zero zero zero p q = omega arith
bit_xor-lt zero zero (suc b) p q = absurd (omega arith)
bit_xor-lt zero (suc a) b p q = absurd (omega arith)
bit_xor-lt (suc k) a b p q = omega (
  arith,
  pow-suc 2 k,
  bit_xor_step a b,
  bit_xor-lt k (a / 2) (b / 2) (half-lt k a p) (half-lt k b q),
)

-- `a ^ b ^ b` is `a`.
pub bit_xor-cancel : (k a b : ℕ) → a < 2 ^ k → b < 2 ^ k → bit_xor (bit_xor a b) b ≡ a
bit_xor-cancel zero zero zero p q = refl
bit_xor-cancel zero zero (suc b) p q = absurd (omega arith)
bit_xor-cancel zero (suc a) b p q = absurd (omega arith)
bit_xor-cancel (suc k) a b p q = omega (
  arith,
  bit_xor_step a b,
  bit_xor_step (bit_xor a b) b,
  ap (λ (t : ℕ). bit_xor t (b / 2)) (bit_xor-half a b),
  bit_xor-cancel k (a / 2) (b / 2) (half-lt k a p) (half-lt k b q),
)

pub bit_xor_comm : (k a b : ℕ) → a < 2 ^ k → b < 2 ^ k → bit_xor a b ≡ bit_xor b a
bit_xor_comm zero zero zero p q = refl
bit_xor_comm zero zero (suc b) p q = absurd (omega arith)
bit_xor_comm zero (suc a) b p q = absurd (omega arith)
bit_xor_comm (suc k) a b p q = omega (
  arith,
  bit_xor_step a b,
  bit_xor_step b a,
  bit_xor_comm k (a / 2) (b / 2) (half-lt k a p) (half-lt k b q),
)

pub bit_xor-injective :
    (k a b c : ℕ) → a < 2 ^ k → b < 2 ^ k → c < 2 ^ k → bit_xor a c ≡ bit_xor b c → a ≡ b
bit_xor-injective k a b c p q r e =
    omega (arith, bit_xor-cancel k a c p r, bit_xor-cancel k b c q r, ap (λ (t : ℕ). bit_xor t c) e)

-- The digits from the k-th on are those of the right operand, if the left one has none there.
pub bit_xor-high :
    (k a b c : ℕ) → a < 2 ^ k → b < 2 ^ k → bit_xor a (b + c * 2 ^ k) ≡ bit_xor a b + c * 2 ^ k
bit_xor-high zero zero b c p q = omega (arith, zero-bit_xor b, zero-bit_xor (b + c * 1))
bit_xor-high zero (suc a) b c p q = absurd (omega arith)
bit_xor-high (suc k) a b c p q = ground (
  arith,
  mul-pow-suc c k,
  bit_xor_step a (b + c * 2 ^ suc k),
  bit_xor_step a b,
  bit_xor-high k (a / 2) (b / 2) c (half-lt k a p) (half-lt k b q),
)

bit_or-no_bits : (x fuel : ℕ) → x ≤ fuel → bit_or x 0 ≡ x
bit_or-no_bits zero fuel h = refl
bit_or-no_bits (suc x) zero h = absurd (omega arith)
bit_or-no_bits (suc x) (suc fuel) h =
    omega (arith, bit_or-no_bits (suc x / 2) fuel (omega arith), bit_or_step (suc x) 0)

bit_and-no_bits : (x fuel : ℕ) → x ≤ fuel → bit_and x 0 ≡ 0
bit_and-no_bits zero fuel h = refl
bit_and-no_bits (suc x) zero h = absurd (omega arith)
bit_and-no_bits (suc x) (suc fuel) h =
    omega (arith, bit_and-no_bits (suc x / 2) fuel (omega arith), bit_and_step (suc x) 0)

-- `hi << k | lo` is a sum where `lo` has at most k digits.
pub bit_or_high : (k hi lo : ℕ) → lo < 2 ^ k → bit_or (hi * 2 ^ k) lo ≡ hi * 2 ^ k + lo
bit_or_high zero hi zero p = omega (arith, bit_or-no_bits (hi * 1) (hi * 1) (omega arith))
bit_or_high zero hi (suc lo) p = absurd (omega arith)
bit_or_high (suc k) hi lo p = ground (
  arith,
  mul-pow-suc hi k,
  bit_or_step (hi * 2 ^ suc k) lo,
  bit_or_high k hi (lo / 2) (half-lt k lo p),
)

-- `lo | hi << k`, the same sum.
pub bit_or_low : (k lo hi : ℕ) → lo < 2 ^ k → bit_or lo (hi * 2 ^ k) ≡ lo + hi * 2 ^ k
bit_or_low zero zero hi p = omega (arith, bit_or-bitwise 0 (hi * 1))
bit_or_low zero (suc lo) hi p = absurd (omega arith)
bit_or_low (suc k) lo hi p = ground (
  arith,
  mul-pow-suc hi k,
  bit_or_step lo (hi * 2 ^ suc k),
  bit_or_low k (lo / 2) hi (half-lt k lo p),
)

mask_keeps : (k r c : ℕ) → r < 2 ^ k → bit_and (r + c * 2 ^ k) (2 ^ k - 1) ≡ r
mask_keeps zero r c p = rw (bit_and-no_bits (r + c * 1) (r + c * 1) (omega arith)) (omega arith)
mask_keeps (suc k) r c p = ground (
  arith,
  mul-pow-suc c k,
  pow-suc 2 k,
  bit_and_step (r + c * 2 ^ suc k) (2 ^ suc k - 1),
  mask_keeps k (r / 2) c (half-lt k r p),
)

-- A mask of k ones is the remainder by 2 ^ k.
pub bit_and_mask : (k a : ℕ) → bit_and a (2 ^ k - 1) ≡ a % 2 ^ k
bit_and_mask k a = ground (arith, one-le-pow k 2, mask_keeps k (a % 2 ^ k) (a / 2 ^ k))

-- `a & (1 << k)` is the k-th digit in its place.
pub bit_and-power : (k a : ℕ) → bit_and a (2 ^ k) ≡ a / 2 ^ k % 2 * 2 ^ k
bit_and-power zero a = omega (arith, bit_and_mask 1 a)
bit_and-power (suc k) a = ground (
  arith,
  pow-suc 2 k,
  bit_and_step a (2 ^ suc k),
  bit_and-power k (a / 2),
  mul-pow-suc (a / 2 ^ suc k % 2) k,
  div-div-eq-div-mul a 2 (2 ^ k),
  mul_comm (2 ^ k) 2,
  ap (λ (t : ℕ). a / t) (mul-pow-suc 1 k),
)
