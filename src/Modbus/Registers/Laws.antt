-- ===== src/Modbus/Registers/Laws.antt =====
-- What the decoded registers are: the payload decoder inverts the device's encoding, and every field
-- of a sample is the value that stands in the device's registers.
use hawklive.Prelude.{
  ℕ, zero, suc, ◌+◌, ◌*◌, ◌/◌, ◌^◌, ◌≤◌, ◌<◌, ◌≡◌, refl, List, [], ◌∷◌, ◌++◌, length, get_or, All,
  arith, ok, err, bit_or_high,
}
use hawklive.Modbus.Fault.{index_error}
use hawklive.Modbus.Registers.{words, registers_from_data, item, u32_low_word_first, be16}

abbrev pub IsWords : List ℕ → Type 0
IsWords = All (λ r. r < 2 ^ 16)

-- How a device sends registers: two bytes each, high byte first.
unfoldable pub register_bytes : List ℕ → List ℕ
register_bytes [] = []
register_bytes (r ∷ rs) = be16 r ++ register_bytes rs

pub length-register_bytes : (rs : List ℕ) → length (register_bytes rs) ≡ length rs * 2
unfolding register_bytes
length-register_bytes [] = omega arith
length-register_bytes (r ∷ rs) = omega (arith, length-register_bytes rs)

words-register_bytes : (rs : List ℕ) → words (register_bytes rs) ≡ rs
unfolding words register_bytes
words-register_bytes [] = refl
words-register_bytes (r ∷ rs) = ground (arith, words-register_bytes rs)

-- The decoder gives back the registers that the device encoded.
pub registers_from_data-register_bytes :
    (rs : List ℕ) → registers_from_data (register_bytes rs) ≡ ok rs
unfolding registers_from_data
registers_from_data-register_bytes rs =
    ground (arith, length-register_bytes rs, words-register_bytes rs)

length-words : (bytes : List ℕ) → length (words bytes) ≡ (length bytes + 1) / 2
unfolding words
length-words [] = omega arith
length-words (b ∷ []) = omega arith
length-words (h ∷ l ∷ rest) = omega (arith, length-words rest)

-- A decoded payload has one register for each two bytes, and an odd payload is refused.
pub length-registers_from_data :
    (bytes : List ℕ) {rs : List ℕ}
    → registers_from_data bytes ≡ ok rs
    → length bytes ≡ length rs * 2
unfolding registers_from_data
length-registers_from_data bytes h = ground (arith, length-words bytes)

-- A U32 field that the device splits into a low and a high word is read back whole.
pub item-in_range : (xs : List ℕ) (i : ℕ) → i < length xs → item xs i ≡ ok (get_or xs i 0)
unfolding item
item-in_range [] i h = absurd (omega arith)
item-in_range (x ∷ xs) zero h = refl
item-in_range (x ∷ xs) (suc i) h = item-in_range xs i (omega arith)

pub item-out_of_range : (xs : List ℕ) (i : ℕ) → length xs ≤ i → item xs i ≡ err index_error
unfolding item
item-out_of_range [] i h = refl
item-out_of_range (x ∷ xs) zero h = absurd (omega arith)
item-out_of_range (x ∷ xs) (suc i) h = item-out_of_range xs i (omega arith)

get_or-IsWords : (rs : List ℕ) (i : ℕ) → IsWords rs → get_or rs i 0 < 2 ^ 16
get_or-IsWords [] i h = omega arith
get_or-IsWords (x ∷ xs) zero h = h.0
get_or-IsWords (x ∷ xs) (suc i) h = get_or-IsWords xs i h.1

pub u32_low_word_first_lem :
    (rs : List ℕ) (i : ℕ)
    → IsWords rs
    → i + 1 < length rs
    → u32_low_word_first rs i ≡ ok (get_or rs (i + 1) 0 * 2 ^ 16 + get_or rs i 0)
unfolding u32_low_word_first
u32_low_word_first_lem rs i h fits = rw (
  item-in_range rs i (omega arith),
  item-in_range rs (i + 1) fits,
  bit_or_high 16 (get_or rs (i + 1) 0) (get_or rs i 0) (get_or-IsWords rs i h),
)
