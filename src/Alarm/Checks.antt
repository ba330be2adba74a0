-- ===== src/Alarm/Checks.antt =====
-- `_metric_checks` of monitoring_service.py: a sample against a policy.
use hawklive.Prelude.{
  ℕ, Bool, true, false, not, ◌&&◌, ◌||◌, Option, none, some, List, [], ◌∷◌, ◌++◌, String, Result,
  ok, ◌>>=◌, ◌>>◌, guard, traverse,
}
use hawklive.Email.Tables.{is_some, option_or}
use hawklive.Alarm.Machine.{Check}
use hawklive.Alarm.Config.{
  Channel, pm_0_3_um, pm_0_5_um, pm_1_0_um, pm_2_5_um, pm_5_0_um, pm_10_0_um, Python, Limit,
  Thresholds,
}

-- What a sample measured: `none` is a channel that is missing from it.
pub record Measurement (F : Type 0) : Type 0 where
  pub particles : Channel → Option F
  pub temperature : F
  pub humidity : F

pub data CheckError : Type 0 where
  channel_missing : Channel → CheckError

-- The metrics, as numbers.
abbrev pub metric_of : Channel → ℕ
metric_of pm_0_3_um = 0
metric_of pm_0_5_um = 1
metric_of pm_1_0_um = 2
metric_of pm_2_5_um = 3
metric_of pm_5_0_um = 4
metric_of pm_10_0_um = 5

abbrev pub temperature_metric : ℕ
temperature_metric = 6

abbrev pub humidity_metric : ℕ
humidity_metric = 7

-- How a limit is written: a number of particles, or a range with its unit.
pub record Wording (F : Type 0) : Type 0 where
  pub above : F → String
  pub outside : F → F → String → String

module _ {F : Type 0} (py : Python F) (wording : Wording F) where
  abbrev pub above_limit : F → Option F → Bool
  above_limit value none = false
  above_limit value (some threshold) = py.less threshold value

  abbrev pub wording_of : Option F → String
  wording_of none = "disabled"
  wording_of (some threshold) = wording.above threshold

  abbrev pub channel_value : Measurement F → Limit F → F
  channel_value sample l = option_or (py.of_number 0) (sample.particles l.channel)

  unfoldable pub channel_check : Measurement F → Limit F → Result CheckError (Check F)
  channel_check sample l = do
    guard (not (l.enabled && not (is_some (sample.particles l.channel))))
        (channel_missing l.channel)
    ok (record {
      metric = metric_of l.channel;
      value = channel_value sample l;
      enabled = l.enabled;
      exceeded = l.enabled && above_limit (channel_value sample l) l.limit;
      description = wording_of l.limit;
    })

  abbrev pub range_check : ℕ → F → F → F → String → Check F
  range_check metric value low high unit = record {
    metric = metric;
    value = value;
    enabled = true;
    exceeded = py.less value low || py.less high value;
    description = wording.outside low high unit;
  }

  -- The checks for a policy that is normalised.
  unfoldable pub metric_checks : Measurement F → Thresholds F → Result CheckError (List (Check F))
  metric_checks sample t = do
    checks ← traverse (channel_check sample) t.limits
    ok (
        checks
        ++ (range_check temperature_metric sample.temperature t.temperature_min t.temperature_max
              "°C"
            ∷ range_check humidity_metric sample.humidity t.humidity_min t.humidity_max "%RH"
            ∷ []))
