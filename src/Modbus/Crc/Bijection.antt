-- ===== src/Modbus/Crc/Bijection.antt =====
-- The CRC register has 16 bits, and each step of the loops is one-to-one on it.
use hawklive.Prelude.{
  ℕ, zero, suc, ◌+◌, ◌/◌, ◌%◌, ◌^◌, ◌<◌, ◌≡◌, refl, List, [], ◌∷◌, ◌++◌, bit_and, bit_xor, arith,
  bit_xor-lt, bit_xor-cancel, bit_xor-injective, bit_xor_comm, bit_xor-high, bit_and_mask,
}
use hawklive.Modbus.Crc.{IsBytes, crc_bit, crc_bits, crc_from}

low_bit : (crc : ℕ) → bit_and crc 1 ≡ crc % 2
low_bit crc = bit_and_mask 1 crc

pub crc_bit-lt : (crc : ℕ) → crc < 2 ^ 16 → crc_bit crc < 2 ^ 16
unfolding crc_bit
crc_bit-lt crc h = ground (arith, bit_xor-lt 16 (crc / 2) 0xA001 (omega arith) (omega arith))

-- 0xA001 has its top bit set, so the top bit of the result tells which branch was taken.
odd_branch : (half : ℕ) → half < 2 ^ 15 → 2 ^ 15 < bit_xor half 0xA001 + 1
odd_branch half h = omega (arith, bit_xor-high 15 half 0x2001 1 h (omega arith))

pub crc_bit-injective : (a b : ℕ) → a < 2 ^ 16 → b < 2 ^ 16 → crc_bit a ≡ crc_bit b → a ≡ b
unfolding crc_bit
crc_bit-injective a b ha hb e = ground (
  arith,
  low_bit a,
  low_bit b,
  odd_branch (a / 2) (omega arith),
  odd_branch (b / 2) (omega arith),
  bit_xor-cancel 16 (a / 2) 0xA001 (omega arith) (omega arith),
  bit_xor-cancel 16 (b / 2) 0xA001 (omega arith) (omega arith),
)

pub crc_bits-lt : (n crc : ℕ) → crc < 2 ^ 16 → crc_bits n crc < 2 ^ 16
unfolding crc_bits
crc_bits-lt zero crc h = h
crc_bits-lt (suc n) crc h = crc_bits-lt n (crc_bit crc) (crc_bit-lt crc h)

pub crc_bits-injective : (n a b : ℕ) → a < 2 ^ 16 → b < 2 ^ 16 → crc_bits n a ≡ crc_bits n b → a ≡ b
unfolding crc_bits
crc_bits-injective zero a b ha hb e = e
crc_bits-injective (suc n) a b ha hb e =
    crc_bit-injective a b ha hb
      (crc_bits-injective n (crc_bit a) (crc_bit b) (crc_bit-lt a ha) (crc_bit-lt b hb) e)

pub absorb-lt : (crc byte : ℕ) → crc < 2 ^ 16 → byte < 256 → crc_bits 8 (bit_xor crc byte) < 2 ^ 16
absorb-lt crc byte h hb = crc_bits-lt 8 _ (bit_xor-lt 16 crc byte h (omega arith))

pub crc_from-lt :
    (crc : ℕ) (bytes : List ℕ) → crc < 2 ^ 16 → IsBytes bytes → crc_from crc bytes < 2 ^ 16
unfolding crc_from
crc_from-lt crc [] h hb = h
crc_from-lt crc (byte ∷ rest) h hb =
    crc_from-lt (crc_bits 8 (bit_xor crc byte)) rest (absorb-lt crc byte h hb.0) hb.1

-- The bytes that follow never bring two different registers together.
pub crc_from-injective :
    (a b : ℕ) (bytes : List ℕ)
    → a < 2 ^ 16
    → b < 2 ^ 16
    → IsBytes bytes
    → crc_from a bytes ≡ crc_from b bytes
    → a ≡ b
unfolding crc_from
crc_from-injective a b [] ha hb h e = e
crc_from-injective a b (byte ∷ rest) ha hb h e =
    bit_xor-injective 16 a b byte ha hb (omega (arith, h.0)) (
      crc_bits-injective 8 _ _ (bit_xor-lt 16 a byte ha (omega (arith, h.0)))
        (bit_xor-lt 16 b byte hb (omega (arith, h.0)))
        (crc_from-injective (crc_bits 8 (bit_xor a byte)) (crc_bits 8 (bit_xor b byte)) rest
          (absorb-lt a byte ha h.0) (absorb-lt b byte hb h.0) h.1 e))

-- One byte brings one register to different registers, unless it is the same byte.
pub absorb-injective :
    (crc a b : ℕ)
    → crc < 2 ^ 16
    → a < 256
    → b < 256
    → crc_bits 8 (bit_xor crc a) ≡ crc_bits 8 (bit_xor crc b)
    → a ≡ b
absorb-injective crc a b h ha hb e = bit_xor-injective 16 a b crc (omega arith) (omega arith) h (
    omega (
      arith,
      bit_xor_comm 16 a crc (omega arith) h,
      bit_xor_comm 16 b crc (omega arith) h,
      crc_bits-injective 8 _ _ (bit_xor-lt 16 crc a h (omega arith))
          (bit_xor-lt 16 crc b h (omega arith)) e,
    ))

pub crc_from-append :
    (crc : ℕ) (xs ys : List ℕ) → crc_from crc (xs ++ ys) ≡ crc_from (crc_from crc xs) ys
unfolding crc_from
crc_from-append crc [] ys = refl
crc_from-append crc (x ∷ xs) ys = crc_from-append (crc_bits 8 (bit_xor crc x)) xs ys
