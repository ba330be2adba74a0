-- ===== src/Alarm/Config.antt =====
-- alarm_config.py: an alarm policy as it is sent and as it is stored, and `_metric_checks` of
-- monitoring_service.py, which compares a sample with it. `F` is the type of floats.
use Prim.Native.String.{count, compare}
use Prim.Native.Nat.{Ordering}
use hawklive.Prelude.{
  ℕ, ◌+◌, Bool, true, false, not, ◌&&◌, ◌||◌, Option, none, some, List, [], ◌∷◌, String, Result, ok,
  err, ◌>>=◌, ◌>>◌, guard, traverse, ltb, leb, ◌==◌, if◌then◌else◌,
}
use hawklive.Email.Tables.{is_some}
pub mod Valid
mod Tests

-- The six particle channels, in the order of PARTICLE_ALARM_CHANNELS.
pub data Channel : Type 0 where
  pm_0_3_um pm_0_5_um pm_1_0_um pm_2_5_um pm_5_0_um pm_10_0_um : Channel

abbrev pub particle_alarm_channels : List Channel
particle_alarm_channels =
    pm_0_3_um ∷ pm_0_5_um ∷ pm_1_0_um ∷ pm_2_5_um ∷ pm_5_0_um ∷ pm_10_0_um ∷ []

-- The four bounds of the environment.
pub data Bound : Type 0 where
  temperature_min temperature_max humidity_min humidity_max : Bound

-- The keys of a policy; `particle_5_max` is the key of older releases.
pub data Field : Type 0 where
  profile_name alarm_delay_seconds particle_5_max : Field
  max_field enabled_field : Channel → Field
  bound_field : Bound → Field

-- A value of a policy as it comes from JSON or from Python.
pub data Value (F : Type 0) : Type 0 where
  null : Value F
  boolean : Bool → Value F
  integer : ℕ → Value F
  real : F → Value F
  text : String → Value F

-- A mapping: `none` is a key that is missing.
abbrev pub Mapping : Type 0 → Type 0
Mapping F = Field → Option (Value F)

-- What int() makes of a value that it takes.
pub data Whole : Type 0 where
  negative : Whole
  natural : ℕ → Whole

-- What Python itself does with values: float() and int(), which may raise, math.isfinite, the order
-- of floats, a number as a float, str() with strip(), and strip() with casefold().
pub record Python (F : Type 0) : Type 0 where
  pub float : Value F → Option F
  pub int : Value F → Option Whole
  pub is_finite : F → Bool
  pub less : F → F → Bool
  pub of_number : ℕ → F
  pub stripped : Value F → String
  pub folded : String → String

-- The messages of ValueError that the normalisation raises.
pub data Refusal : Type 0 where
  must_be_boolean must_be_number must_be_finite : Field → Refusal
  name_too_long : Refusal
  negative_limit limit_required : Channel → Refusal
  temperature_order humidity_order delay_not_whole delay_out_of_range : Refusal

pub record Limit (F : Type 0) : Type 0 where
  pub channel : Channel
  pub limit : Option F
  pub enabled : Bool

pub record Thresholds (F : Type 0) : Type 0 where
  pub profile_name : String
  pub limits : List (Limit F)
  pub temperature_min : F
  pub temperature_max : F
  pub humidity_min : F
  pub humidity_max : F
  pub alarm_delay_seconds : ℕ

abbrev pub is_text : String → String → Bool
is_text a b = elim (compare a b) [ Ordering.eq ↦ true | _ ↦ false ]

abbrev pub is_yes : String → Bool
is_yes s = is_text s "1" || is_text s "true" || is_text s "yes" || is_text s "on"

abbrev pub is_no : String → Bool
is_no s = is_text s "0" || is_text s "false" || is_text s "no" || is_text s "off"

-- values.get(field, d)
abbrev pub get : {A : Type 0} → Option A → A → A
get none d = d
get (some v) d = v

abbrev pub or_custom : String → String
or_custom s = if count s == 0 then "Custom" else s

module _ {F : Type 0} (py : Python F) where
  -- DEFAULT_THRESHOLDS
  abbrev pub default_limit : Channel → Value F
  default_limit pm_0_5_um = real (py.of_number 100000)
  default_limit _ = null

  abbrev pub default_enabled : Channel → Bool
  default_enabled pm_0_5_um = true
  default_enabled _ = false

  abbrev pub default_bound : Bound → ℕ
  default_bound temperature_min = 18
  default_bound temperature_max = 25
  default_bound humidity_min = 40
  default_bound humidity_max = 70

  unfoldable pub default_thresholds : Mapping F
  default_thresholds profile_name = some (text "Class 100K")
  default_thresholds alarm_delay_seconds = some (integer 300)
  default_thresholds particle_5_max = none
  default_thresholds (max_field c) = some (default_limit c)
  default_thresholds (enabled_field c) = some (boolean (default_enabled c))
  default_thresholds (bound_field b) = some (real (py.of_number (default_bound b)))

  -- A value that is there and not None.
  abbrev pub given : Option (Value F) → Option (Value F)
  given (some null) = none
  given o = o

  abbrev pub or_else : Option (Value F) → Option (Value F) → Option (Value F)
  or_else none o = o
  or_else (some v) o = some v

  abbrev pub chained : Option (Mapping F) → Field → Option (Value F)
  chained none f = none
  chained (some m) f = m f

  -- The legacy key of the 0.5 µm limit.
  abbrev pub legacy : Mapping F → Option (Mapping F) → Option (Value F)
  legacy values fallback =
      if is_some (values (max_field pm_0_5_um))
      then none
      else or_else (given (values particle_5_max)) (
          if is_some (chained fallback (max_field pm_0_5_um))
          then none
          else given (chained fallback particle_5_max))

  abbrev pub overlaid : Option (Mapping F) → Field → Option (Value F)
  overlaid fallback f = or_else (given (chained fallback f)) (default_thresholds f)

  -- `base`: the defaults, over them what the fallback has, over that the legacy limit.
  unfoldable pub base : Mapping F → Option (Mapping F) → Field → Option (Value F)
  base values fallback (max_field pm_0_5_um) =
      or_else (legacy values fallback) (overlaid fallback (max_field pm_0_5_um))
  base values fallback f = overlaid fallback f

  -- values.get(field, base[field])
  abbrev pub value_of : Mapping F → Option (Mapping F) → Field → Value F
  value_of values fallback f = get (or_else (values f) (base values fallback f)) null

  unfoldable pub enabled_of : Field → Value F → Result Refusal Bool
  enabled_of field (boolean b) = ok b
  enabled_of field (integer n) =
      if n == 0 then ok false else if n == 1 then ok true else err (must_be_boolean field)
  enabled_of field (text s) =
      if is_yes (py.folded s)
      then ok true
      else if is_no (py.folded s)
      then ok false
      else err (must_be_boolean field)
  enabled_of field _ = err (must_be_boolean field)

  abbrev pub finite : Field → Option F → Result Refusal F
  finite field none = err (must_be_number field)
  finite field (some x) = if py.is_finite x then ok x else err (must_be_finite field)

  unfoldable pub finite_number : Field → Value F → Result Refusal F
  finite_number field v = finite field (py.float v)

  abbrev pub some_number : Result Refusal F → Result Refusal (Option F)
  some_number (ok x) = ok (some x)
  some_number (err e) = err e

  -- None or an empty text is no limit.
  abbrev pub limit_of : Field → Value F → Result Refusal (Option F)
  limit_of field null = ok none
  limit_of field (text s) =
      if count s == 0 then ok none else some_number (finite_number field (text s))
  limit_of field v = some_number (finite_number field v)

  abbrev pub not_negative : Option F → Bool
  not_negative none = true
  not_negative (some x) = not (py.less x (py.of_number 0))

  -- One round of the loop over PARTICLE_ALARM_CHANNELS.
  unfoldable pub channel_limit : Mapping F → Option (Mapping F) → Channel → Result Refusal (Limit F)
  channel_limit values fallback c = do
    enabled ← enabled_of (enabled_field c) (value_of values fallback (enabled_field c))
    limit ← limit_of (max_field c) (value_of values fallback (max_field c))
    guard (not_negative limit) (negative_limit c)
    guard (not enabled || is_some limit) (limit_required c)
    ok (record { channel = c; limit = limit; enabled = enabled })

  abbrev pub bound_of : Mapping F → Option (Mapping F) → Bound → Result Refusal F
  bound_of values fallback b =
      finite_number (bound_field b) (value_of values fallback (bound_field b))

  abbrev pub in_range : Option Whole → Result Refusal ℕ
  in_range none = err delay_not_whole
  in_range (some negative) = err delay_out_of_range
  in_range (some (natural n)) = if leb n 86400 then ok n else err delay_out_of_range

  -- `normalise_alarm_thresholds` for a mapping.
  unfoldable pub normalise_alarm_thresholds :
      Mapping F → Option (Mapping F) → Result Refusal (Thresholds F)
  normalise_alarm_thresholds values fallback =
      let name = or_custom (py.stripped (value_of values fallback profile_name)) in
      do
        guard (leb (count name) 100) name_too_long
        limits ← traverse (channel_limit values fallback) particle_alarm_channels
        t_min ← bound_of values fallback temperature_min
        t_max ← bound_of values fallback temperature_max
        h_min ← bound_of values fallback humidity_min
        h_max ← bound_of values fallback humidity_max
        guard (py.less t_min t_max) temperature_order
        guard (py.less h_min h_max) humidity_order
        delay ← in_range (py.int (value_of values fallback alarm_delay_seconds))
        ok (record {
          profile_name = name;
          limits = limits;
          temperature_min = t_min;
          temperature_max = t_max;
          humidity_min = h_min;
          humidity_max = h_max;
          alarm_delay_seconds = delay;
        })
