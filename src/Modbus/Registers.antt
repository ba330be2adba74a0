-- ===== src/Modbus/Registers.antt =====
-- Register payloads and the sample that is read from them: `registers_from_data`,
-- `u32_low_word_first`, `float_low_word_first`, `validate_particle_unit` and the part of
-- `read_realtime` that both clients share. Floats belong to `struct.unpack` and `round`, which are
-- parameters: a type `F`, the decoding of four bytes, and the rounding to four digits.
pub mod Laws
pub mod Sample
use hawklive.Prelude.{
  ℕ, zero, suc, ◌+◌, ◌*◌, ◌/◌, ◌%◌, ◌^◌, String, Bool, not, List, [], ◌∷◌, ◌++◌, map, bit_and,
  bit_or, length, ◌==◌, if◌then◌else◌, Result, ok, err, ◌>>=◌, traverse,
}
use hawklive.Modbus.Fault.{Fault, odd_payload, unit_register_count, unsupported_unit, index_error}

abbrev pub particle_channels : List (String × ℕ)
particle_channels =
    ("pm_0_3_um", 0)
    ∷ ("pm_0_5_um", 2)
    ∷ ("pm_1_0_um", 4)
    ∷ ("pm_2_5_um", 6)
    ∷ ("pm_5_0_um", 8)
    ∷ ("pm_10_0_um", 10)
    ∷ []

abbrev pub float_channels : List (String × ℕ)
float_channels =
    ("flow", 12)
    ∷ ("temperature", 14)
    ∷ ("humidity", 16)
    ∷ ("dew_point", 18)
    ∷ ("wind_speed", 20)
    ∷ ("pressure_diff", 22)
    ∷ []

abbrev pub alarm_bits : List (String × ℕ)
alarm_bits =
    ("pm_0_3_um", 0)
    ∷ ("pm_0_5_um", 1)
    ∷ ("pm_1_0_um", 2)
    ∷ ("pm_2_5_um", 3)
    ∷ ("pm_5_0_um", 4)
    ∷ ("pm_10_0_um", 5)
    ∷ []

abbrev pub required_particle_unit_code : ℕ
required_particle_unit_code = 1

-- `LABELS.get(code, f"UNKNOWN({code})")`
pub data Label : Type 0 where
  known : String → Label
  unknown : ℕ → Label

unfoldable pub label_for : List (ℕ × String) → ℕ → Label
label_for [] code = unknown code
label_for ((c, text) ∷ rest) code = if c == code then known text else label_for rest code

abbrev pub cleanliness_labels : List (ℕ × String)
cleanliness_labels =
    (3, "< CLASS 4")
    ∷ (4, "CLASS 4")
    ∷ (5, "CLASS 5")
    ∷ (6, "CLASS 6")
    ∷ (7, "CLASS 7")
    ∷ (8, "CLASS 8")
    ∷ (9, "CLASS 9")
    ∷ (10, "> CLASS 9")
    ∷ []

abbrev pub particle_unit_labels : List (ℕ × String)
particle_unit_labels = (0, "PCS/L") ∷ (1, "PCS/28.3L") ∷ (2, "PCS/m3") ∷ (3, "PCS/2.83L") ∷ []

unfoldable pub validate_particle_unit : List ℕ → Result Fault (ℕ × Label)
unfolding label_for
validate_particle_unit (code ∷ []) =
    if code == required_particle_unit_code
    then ok (code, label_for particle_unit_labels code)
    else err (unsupported_unit code)
validate_particle_unit _ = err unit_register_count

-- `int.from_bytes(data[i : i + 2], "big")` for every second `i`.
pub words : List ℕ → List ℕ
words [] = []
words (byte ∷ []) = byte ∷ []
words (high ∷ low ∷ rest) = (high * 256 + low) ∷ words rest

unfoldable pub registers_from_data : List ℕ → Result Fault (List ℕ)
unfolding words
registers_from_data bytes = if length bytes % 2 == 0 then ok (words bytes) else err odd_payload

-- `registers[index]`, for an index that is not negative.
unfoldable pub item : List ℕ → ℕ → Result Fault ℕ
item [] i = err index_error
item (x ∷ xs) zero = ok x
item (x ∷ xs) (suc i) = item xs i

unfoldable pub u32_low_word_first : List ℕ → ℕ → Result Fault ℕ
unfolding item
u32_low_word_first registers index = do
  low ← item registers index
  high ← item registers (index + 1)
  ok (bit_or (high * 2 ^ 16) low)

-- `value.to_bytes(2, "big")`
abbrev pub be16 : ℕ → List ℕ
be16 value = value / 256 ∷ value % 256 ∷ []

unfoldable pub has_bit : ℕ → ℕ → Bool
has_bit raw bit = not (bit_and raw (2 ^ bit) == 0)

pub record Reading (F : Type 0) : Type 0 where
  pub timestamp : ℕ
  pub slave : ℕ
  pub particles : List (String × ℕ)
  pub environment : List (String × F)
  pub alarm_raw : ℕ
  pub alarms : List (String × Bool)
  pub cleanliness_code : ℕ
  pub cleanliness_label : Label
  pub particle_unit_code : ℕ
  pub particle_unit_label : Label
  pub protocol_profile : String

-- One entry of `particles`.
unfoldable pub particle : List ℕ → String × ℕ → Result Fault (String × ℕ)
particle registers (name, index) = do value ← u32_low_word_first registers index; ok (name, value)

module _ {F : Type 0} (unpack : List ℕ → F) (round4 : F → F) where
  unfoldable pub float_low_word_first : List ℕ → ℕ → Result Fault F
  unfolding item
  float_low_word_first registers index = do
    low ← item registers index
    high ← item registers (index + 1)
    ok (unpack (be16 high ++ be16 low))

  -- One entry of `environment`.
  unfoldable pub measurement : List ℕ → String × ℕ → Result Fault (String × F)
  measurement registers (name, index) = do
    value ← float_low_word_first registers index
    ok (name, round4 value)

  -- The sample that `read_realtime` builds from the unit and the 26 registers.
  unfoldable pub reading_of : ℕ → ℕ → ℕ × Label → List ℕ → Result Fault (Reading F)
  reading_of time slave unit registers = do
    particles ← traverse (particle registers) particle_channels
    environment ← traverse (measurement registers) float_channels
    alarm_raw ← item registers 24
    let alarms = map (λ (b : String × ℕ). (b.0, has_bit alarm_raw b.1)) alarm_bits
    cleanliness_code ← item registers 25
    ok (record {
      timestamp = time;
      slave = slave;
      particles = particles;
      environment = environment;
      alarm_raw = alarm_raw;
      alarms = alarms;
      cleanliness_code = cleanliness_code;
      cleanliness_label = label_for cleanliness_labels cleanliness_code;
      particle_unit_code = unit.0;
      particle_unit_label = unit.1;
      protocol_profile = "dpc8001-g-protocol-2025-06-04";
    })
