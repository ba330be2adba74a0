-- ===== src/Alarm/Config/Tests.antt =====
-- A policy sent in part, with floats that are whole numbers.
use hawklive.Prelude.{
  ℕ, Bool, true, false, Option, none, some, List, [], ◌∷◌, String, ◌≡◌, refl, ok, ltb, traverse,
}
use hawklive.Alarm.Machine.{Check}
use hawklive.Alarm.Config.{
  Channel, pm_0_3_um, pm_0_5_um, pm_1_0_um, pm_2_5_um, pm_5_0_um, pm_10_0_um, max_field,
  enabled_field, alarm_delay_seconds, Value, null, boolean, integer, real, text, Mapping, Whole,
  natural, Python, Limit, Thresholds, default_thresholds, base, enabled_of, finite_number,
  channel_limit, normalise_alarm_thresholds,
}
use hawklive.Alarm.Config.Valid.{IsValid, normalise_alarm_thresholds-IsValid}
use hawklive.Alarm.Checks.{Measurement, Wording, channel_check, metric_checks}
use hawklive.Alarm.Coverage.{Covers, metric_checks-Covers}

abbrev float_of : Value ℕ → Option ℕ
float_of (real n) = some n
float_of (integer n) = some n
float_of _ = none

abbrev int_of : Value ℕ → Option Whole
int_of (integer n) = some (natural n)
int_of _ = none

abbrev text_of : Value ℕ → String
text_of (text s) = s
text_of _ = "None"

abbrev python : Python ℕ
python = record {
  float = float_of;
  int = int_of;
  is_finite = λ n. true;
  less = ltb;
  of_number = λ n. n;
  stripped = text_of;
  folded = λ s. s;
}

-- The 0.3 µm channel is switched on with a limit, and the delay is changed.
abbrev sent : Mapping ℕ
sent (max_field pm_0_3_um) = some (integer 500)
sent (enabled_field pm_0_3_um) = some (text "on")
sent alarm_delay_seconds = some (integer 60)
sent _ = none

-- The policy until now, which has no limit for the 0.5 µm channel and does not use it.
abbrev current : Mapping ℕ
current (max_field pm_0_5_um) = some null
current (enabled_field pm_0_5_um) = some (boolean false)
current f = default_thresholds python f

abbrev setting : Channel → Option ℕ → Bool → Limit ℕ
setting c limit enabled = record { channel = c; limit = limit; enabled = enabled }

abbrev accepted : Thresholds ℕ
accepted = record {
  profile_name = "Class 100K";
  limits =
      setting pm_0_3_um (some 500) true
      ∷ setting pm_0_5_um (some 100000) false
      ∷ setting pm_1_0_um none false
      ∷ setting pm_2_5_um none false
      ∷ setting pm_5_0_um none false
      ∷ setting pm_10_0_um none false
      ∷ [];
  temperature_min = 18;
  temperature_max = 25;
  humidity_min = 40;
  humidity_max = 70;
  alarm_delay_seconds = 60;
}

-- The limit that the current policy has cleared comes back with the default.
cleared_limit_back : normalise_alarm_thresholds python sent (some current) ≡ ok accepted
unfolding normalise_alarm_thresholds channel_limit enabled_of finite_number base default_thresholds
    traverse
cleared_limit_back = refl

normalise_alarm_thresholds-IsValid_example : IsValid python accepted
normalise_alarm_thresholds-IsValid_example =
    normalise_alarm_thresholds-IsValid python sent (some current) accepted cleared_limit_back

abbrev wording : Wording ℕ
wording = record { above = λ n. "above"; outside = λ low high unit. unit }

-- A sample with both channels.
abbrev measured : Channel → Option ℕ
measured pm_0_3_um = some 700
measured pm_0_5_um = some 20
measured _ = none

abbrev sample : Measurement ℕ
sample = record { particles = measured; temperature = 26; humidity = 50 }

abbrev check : ℕ → ℕ → Bool → Bool → String → Check ℕ
check metric value enabled exceeded description = record {
  metric = metric;
  value = value;
  enabled = enabled;
  exceeded = exceeded;
  description = description;
}

abbrev checks : List (Check ℕ)
checks =
    check 0 700 true true "above"
    ∷ check 1 20 false false "above"
    ∷ check 2 0 false false "disabled"
    ∷ check 3 0 false false "disabled"
    ∷ check 4 0 false false "disabled"
    ∷ check 5 0 false false "disabled"
    ∷ check 6 26 true true "°C"
    ∷ check 7 50 true false "%RH"
    ∷ []

checks_made : metric_checks python wording sample accepted ≡ ok checks
unfolding metric_checks channel_check traverse
checks_made = refl

metric_checks-Covers_example : Covers python wording sample accepted checks
metric_checks-Covers_example =
    metric_checks-Covers python wording sent (some current) accepted sample checks
      cleared_limit_back checks_made
