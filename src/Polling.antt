-- ===== src/Polling.antt =====
-- monitoring_service.py: the polling of one device (`_poll_device_scoped`, `_persist_sample`). All
-- the maps of the service are keyed by the device, so the state is what they hold for one. Times are
-- milliseconds; a poll reads each of its two clocks once, at its end. `R` is the type of what a
-- reading measured.
pub mod Outage
mod Tests
pub mod Backoff
use hawklive.Prelude.{
  ℕ, suc, ◌+◌, ◌-◌, ◌*◌, ◌^◌, min, max, Bool, true, false, not, ◌&&◌, ◌||◌, Option, none, some,
  List, [], ◌∷◌, ◌++◌, ltb, leb, ◌==◌, if◌then◌else◌,
}

pub record Options : Type 0 where
  pub demo : Bool
  pub poll_ms : ℕ
  pub record_ms : ℕ
  pub offline_backoff_max : ℕ

-- A reading as `record_reading` stores it.
pub record Sample (R : Type 0) : Type 0 where
  pub timestamp : ℕ
  pub reading : R

-- `latest[device_id]`: the last sample received, if any, overlaid with the last check.
pub record Latest (R : Type 0) : Type 0 where
  pub received : Option (Sample R)
  pub from_device : Bool
  pub online : Bool
  pub error : Option ℕ
  pub connection_checked_at : ℕ
  pub failure_count : ℕ
  pub retry_at : Option ℕ

pub data Log : Type 0 where
  device_connected device_sample_save_failed : Log
  device_recovered : ℕ → Log
  device_offline : ℕ → ℕ → ℕ → Log

pub record Slot (R : Type 0) : Type 0 where
  pub latest : Option (Latest R)
  pub failures : ℕ
  pub next_poll_at : ℕ
  pub last_recorded : Option ℕ
  -- `_failure_log_state`: the error, when it was logged, and the count then.
  pub failure_log : Option (ℕ × ℕ × ℕ)
  pub client_open : Bool
  -- The table of readings, whether it can be written, and the log.
  pub recorded : List (Sample R)
  pub writable : Bool
  pub logs : List Log

-- What the outside does in one poll: what `read_realtime` gives or raises, what the alarms of a
-- reading say (`none` where their evaluation raises), and the clocks.
pub record World (R : Type 0) : Type 0 where
  pub outcome : Option (Sample R)
  pub raised : ℕ
  pub changed : Option Bool
  pub wall : ℕ
  pub monotonic : ℕ
  -- The text of the error that storing raises.
  pub storage_error : ℕ

abbrev pub same : Option ℕ → ℕ → Bool
same none t = false
same (some s) t = s == t

abbrev pub or_zero : Option ℕ → ℕ
or_zero none = 0
or_zero (some t) = t

abbrev pub is_first : {R : Type 0} → Option (Latest R) → Bool
is_first none = true
is_first (some l) = false

abbrev pub offline_delay : Options → ℕ → ℕ
offline_delay o failure_count =
    min (min 2000 (max 1000 o.poll_ms) * 2 ^ min (failure_count - 1) 8) o.offline_backoff_max

-- `failure_count == 1 or error != previous_error or now - logged_at >= 300`
abbrev pub log_due : ℕ → ℕ → ℕ → Option (ℕ × ℕ × ℕ) → Bool
log_due failure_count error now none = true
log_due failure_count error now (some (previous, at, count)) =
    failure_count == 1 || not (error == previous) || leb (at + 300000) now

abbrev pub occurrences : ℕ → ℕ → Option (ℕ × ℕ × ℕ) → ℕ
occurrences failure_count error none = 1
occurrences failure_count error (some (previous, at, count)) =
    if error == previous then failure_count - count else 1

module _ {R : Type 0} where
  -- `_persist_sample`; `false` where storing raises.
  unfoldable pub persist_sample : Sample R → Slot R → Bool × Slot R
  persist_sample sample s =
      if same s.last_recorded sample.timestamp
      then (true, s)
      else if s.writable
      then (
        true,
        record s { recorded = s.recorded ++ sample ∷ []; last_recorded = some sample.timestamp },
      )
      else (false, s)

  abbrev pub add_log : Log → Slot R → Slot R
  add_log l s = record s { logs = s.logs ++ l ∷ [] }

  abbrev pub received_by : Options → World R → Sample R → Latest R
  received_by o w sample = record {
    received = some sample;
    from_device = not o.demo;
    online = true;
    error = none;
    connection_checked_at = w.wall;
    failure_count = 0;
    retry_at = none;
  }

  -- The reading is stored when it is the first, after a failure, when an alarm changed, or when the
  -- interval is over.
  abbrev pub is_due : Options → Bool → Sample R → Slot R → Bool
  is_due o changed sample s =
      is_first s.latest
      || ltb 0 s.failures
      || changed
      || leb (or_zero s.last_recorded + o.record_ms) sample.timestamp

  abbrev pub connection_log : Options → Bool → ℕ → Slot R → Slot R
  connection_log o first failures s =
      if not o.demo && ltb 0 failures
      then add_log (device_recovered failures) s
      else if not o.demo && first
      then add_log device_connected s
      else s

  unfoldable pub succeeded : Options → World R → Sample R → Slot R → Slot R → Slot R
  succeeded o w sample before s =
      connection_log o (is_first before.latest) before.failures (record s {
        latest = some (received_by o w sample);
        failures = 0;
        failure_log = none;
        next_poll_at = w.monotonic + max 100 o.poll_ms;
        client_open = not o.demo;
      })

  abbrev pub offline : World R → ℕ → ℕ → ℕ → Option (Latest R) → Latest R
  offline w error failure_count delay none = record {
    received = none;
    from_device = false;
    online = false;
    error = some error;
    connection_checked_at = w.wall;
    failure_count = failure_count;
    retry_at = some (w.wall + delay);
  }
  offline w error failure_count delay (some l) = record {
    received = l.received;
    from_device = l.from_device;
    online = false;
    error = some error;
    connection_checked_at = w.wall;
    failure_count = failure_count;
    retry_at = some (w.wall + delay);
  }

  abbrev pub saved : Bool × Slot R → Slot R
  saved (true, s) = s
  saved (false, s) = add_log device_sample_save_failed s

  -- The last sample received, of a device that was online.
  abbrev pub last_sample : Option (Latest R) → Option (Sample R)
  last_sample none = none
  last_sample (some l) = if l.online && l.from_device then l.received else none

  abbrev pub save_last : Option (Sample R) → Slot R → Slot R
  save_last none s = s
  save_last (some sample) s = saved (persist_sample sample s)

  abbrev pub failure_logged : ℕ → ℕ → ℕ → Slot R → Slot R
  failure_logged failure_count error now s =
      if log_due failure_count error now s.failure_log
      then add_log
          (device_offline error failure_count (occurrences failure_count error s.failure_log))
          (record s { failure_log = some (error, now, failure_count) })
      else s

  -- The `except` branch.
  unfoldable pub failed : Options → World R → ℕ → Slot R → Slot R
  failed o w error s =
      let failure_count = s.failures + 1 in
      let delay = offline_delay o failure_count in
      failure_logged failure_count error w.monotonic (
        save_last (last_sample s.latest) (record s {
          client_open = false;
          failures = failure_count;
          next_poll_at = w.monotonic + delay;
          latest = some (offline w error failure_count delay s.latest);
        }))

  abbrev pub stored : Options → World R → Sample R → Slot R → Bool × Slot R → Slot R
  stored o w sample before (true, s) = succeeded o w sample before s
  stored o w sample before (false, s) = failed o w w.storage_error s

  -- After the alarms are evaluated: an error there or in storing is a failure of the poll.
  abbrev pub evaluated : Options → World R → Sample R → Option Bool → Slot R → Slot R
  evaluated o w sample none s = failed o w w.raised s
  evaluated o w sample (some changed) s =
      stored o w sample s (if is_due o changed sample s then persist_sample sample s else (true, s))

  abbrev pub attempted : Options → World R → Option (Sample R) → Slot R → Slot R
  attempted o w none s = failed o w w.raised s
  attempted o w (some sample) s = evaluated o w sample w.changed s

  unfoldable pub poll_device : Options → World R → Slot R → Slot R
  poll_device o w s = attempted o w w.outcome s
