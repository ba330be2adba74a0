-- ===== src/Modbus/Registers/Sample.antt =====
-- The sample against the device's register map: every field of `reading_of` is the value that the
-- protocol's table places in the registers.
use hawklive.Prelude.{
  ℕ, ◌+◌, ◌*◌, ◌/◌, ◌%◌, ◌^◌, ◌<◌, ◌≡◌, refl, String, Bool, List, [], ◌∷◌, ◌++◌, map, length,
  get_or, if◌then◌else◌, All, All-imply, arith, ◌==◌, Result, ok, traverse, bit_and-power,
}
use native.Mathlib.Nat.{one-le-pow}
use hawklive.Modbus.Registers.{
  particle_channels, float_channels, cleanliness_labels, label_for, be16, has_bit, particle,
  measurement, float_low_word_first, Reading, Label, known, unknown, reading_of,
}
use hawklive.Modbus.Registers.Laws.{IsWords, item-in_range, u32_low_word_first_lem}

-- Bit `b` of the alarm register, as arithmetic.
abbrev pub bit_at : ℕ → ℕ → Bool
bit_at raw b = raw / 2 ^ b % 2 == 1

pub has_bit-eq-bit_at : (raw b : ℕ) → has_bit raw b ≡ bit_at raw b
unfolding has_bit
has_bit-eq-bit_at raw b = grind (arith, bit_and-power b raw, one-le-pow b 2)

-- `f` succeeds on every element, so the loop collects its values.
traverse-map {ℓ} :
    {E A B : Type ℓ} (f : A → Result E B) (g : A → B) (xs : List A)
    → All (λ x. f x ≡ ok (g x)) xs
    → traverse f xs ≡ ok (map g xs)
unfolding traverse
traverse-map f g [] h = refl
traverse-map f g (x ∷ xs) h = rw (h.0, traverse-map f g xs h.1)

abbrev pub particle_value : List ℕ → String × ℕ → String × ℕ
particle_value rs (name, i) = (name, get_or rs (i + 1) 0 * 2 ^ 16 + get_or rs i 0)

particle_lem :
    (rs : List ℕ) (c : String × ℕ)
    → IsWords rs
    → c.1 + 1 < length rs
    → particle rs c ≡ ok (particle_value rs c)
unfolding particle
particle_lem rs (name, i) h fits = rw (u32_low_word_first_lem rs i h fits)

-- The cleanliness classes behind the codes 3 to 10.
abbrev pub class_label : ℕ → Label
class_label code =
    if code == 3
    then known "< CLASS 4"
    else if code == 4
    then known "CLASS 4"
    else if code == 5
    then known "CLASS 5"
    else if code == 6
    then known "CLASS 6"
    else if code == 7
    then known "CLASS 7"
    else if code == 8
    then known "CLASS 8"
    else if code == 9
    then known "CLASS 9"
    else if code == 10
    then known "> CLASS 9"
    else unknown code

class_label_lem : (code : ℕ) → label_for cleanliness_labels code ≡ class_label code
unfolding label_for
class_label_lem code = ground arith

-- Both words of a channel lie among the 26 registers.
abbrev InMap : String × ℕ → Type 0
InMap c = c.1 + 1 < 26

module _ {F : Type 0} (unpack : List ℕ → F) (round4 : F → F) where
  abbrev pub measurement_value : List ℕ → String × ℕ → String × F
  measurement_value rs (name, i) =
      (name, round4 (unpack (be16 (get_or rs (i + 1) 0) ++ be16 (get_or rs i 0))))

  -- The register map of the protocol: two words a channel, low word first; bits 0 to 5 of register
  -- 24; the cleanliness code in register 25.
  abbrev pub sample : ℕ → ℕ → ℕ × Label → List ℕ → Reading F
  sample time slave unit rs =
      let reg : ℕ → ℕ = λ i. get_or rs i 0 in
      let count : String → ℕ → String × ℕ = λ name i. (name, reg (i + 1) * 2 ^ 16 + reg i) in
      let float : String → ℕ → String × F = λ name i. measurement_value rs (name, i) in
      let bit : String → ℕ → String × Bool = λ name b. (name, bit_at (reg 24) b) in
      record {
        timestamp = time;
        slave = slave;
        particles =
            count "pm_0_3_um" 0
            ∷ count "pm_0_5_um" 2
            ∷ count "pm_1_0_um" 4
            ∷ count "pm_2_5_um" 6
            ∷ count "pm_5_0_um" 8
            ∷ count "pm_10_0_um" 10
            ∷ [];
        environment =
            float "flow" 12
            ∷ float "temperature" 14
            ∷ float "humidity" 16
            ∷ float "dew_point" 18
            ∷ float "wind_speed" 20
            ∷ float "pressure_diff" 22
            ∷ [];
        alarm_raw = reg 24;
        alarms =
            bit "pm_0_3_um" 0
            ∷ bit "pm_0_5_um" 1
            ∷ bit "pm_1_0_um" 2
            ∷ bit "pm_2_5_um" 3
            ∷ bit "pm_5_0_um" 4
            ∷ bit "pm_10_0_um" 5
            ∷ [];
        cleanliness_code = reg 25;
        cleanliness_label = class_label (reg 25);
        particle_unit_code = unit.0;
        particle_unit_label = unit.1;
        protocol_profile = "dpc8001-g-protocol-2025-06-04";
      }

  measurement_lem :
      (rs : List ℕ) (c : String × ℕ)
      → c.1 + 1 < length rs
      → measurement unpack round4 rs c ≡ ok (measurement_value rs c)
  unfolding measurement float_low_word_first
  measurement_lem rs (name, i) fits =
      rw (item-in_range rs i (omega arith), item-in_range rs (i + 1) fits)

  -- From 26 register words the sample is complete: the six particle counts stand in registers 0 to 11,
  -- flow, temperature, humidity, dew point, wind speed and pressure difference in 12 to 23, two words
  -- each with the low word first, the alarm of the n-th particle channel in bit n of register 24, and
  -- the cleanliness class in register 25.
  pub reading_of-eq-sample :
      (time slave : ℕ) (unit : ℕ × Label) (rs : List ℕ)
      → IsWords rs
      → length rs ≡ 26
      → reading_of unpack round4 time slave unit rs ≡ ok (sample time slave unit rs)
  unfolding reading_of
  reading_of-eq-sample time slave unit rs h size =
      rw
        (
          traverse-map (particle rs) (particle_value rs) particle_channels (
              All-imply InMap _ particle_channels (λ c k. particle_lem rs c h (omega arith))
                (omega arith)),
          traverse-map (measurement unpack round4 rs) (measurement_value rs) float_channels (
              All-imply InMap _ float_channels (λ c k. measurement_lem rs c (omega arith))
                (omega arith)),
          item-in_range rs 24 (omega arith),
          item-in_range rs 25 (omega arith),
        )
        (simp (has_bit-eq-bit_at, class_label_lem))
