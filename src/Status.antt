-- ===== src/Status.antt =====
-- connection_status.py: what a collector reports of its devices, and what the cloud shows of it.
-- Times are milliseconds; `poll` is the interval of the polls, of which `poll * 5 / 2` is rounded down
-- to a millisecond.
pub mod Counts
mod Tests
use hawklive.Prelude.{
  ℕ, ◌+◌, ◌-◌, ◌*◌, ◌/◌, max, Bool, true, false, ◌&&◌, Option, none, some, List, [], ◌∷◌, map,
  length, count_where, ltb, leb, ◌==◌, if◌then◌else◌,
}

pub data State : Type 0 where
  unknown offline online : State

-- What `latest` has of a device, with 0 for a time that is missing; `checked_at` is the time of the
-- check or, without one, of the reading.
pub record Item : Type 0 where
  pub device_id : ℕ
  pub checked_at : ℕ
  pub retry_at : ℕ
  pub has_error : Bool
  -- `online`: True, False or missing.
  pub online_flag : Option Bool
  pub from_device : Bool

-- `checked_at` is 0 for a device that was not checked, for which the code reports None.
pub record DeviceState : Type 0 where
  pub device_id : ℕ
  pub state : State
  pub checked_at : ℕ

pub record Snapshot : Type 0 where
  pub device_states : List DeviceState
  pub device_total : ℕ
  pub device_online : ℕ
  pub device_offline : ℕ
  pub device_unknown : ℕ

abbrev pub is_online : State → Bool
is_online online = true
is_online _ = false

abbrev pub is_offline : State → Bool
is_offline offline = true
is_offline _ = false

abbrev pub is_unknown : State → Bool
is_unknown unknown = true
is_unknown _ = false

-- `readings.get(id, {})`: of several, the last one.
unfoldable pub reading_of : ℕ → List Item → Option Item
reading_of id [] = none
reading_of id (i ∷ is) =
    let rest = reading_of id is in
    elim rest [ some j ↦ some j | none ↦ if i.device_id == id then some i else none ]

abbrev pub valid_until : ℕ → Item → ℕ
valid_until poll i = max (i.checked_at + max 45000 (poll * 5 / 2)) (i.retry_at + 45000)

-- The check still counts.
abbrev pub current : Bool → ℕ → ℕ → Item → Bool
current running poll now i =
    running && ltb 0 i.checked_at && leb i.checked_at (now + 5000) && leb now (valid_until poll i)

abbrev pub says : Bool → Option Bool → Bool
says true (some true) = true
says false (some false) = true
says _ _ = false

unfoldable pub state_of : Bool → ℕ → ℕ → Item → State
state_of running poll now i =
    if current running poll now i
    then (if i.has_error && says false i.online_flag
        then offline
        else if i.from_device && says true i.online_flag
        then online
        else unknown)
    else unknown

abbrev pub device_state : Bool → ℕ → ℕ → ℕ → Option Item → DeviceState
device_state running poll now id none = record { device_id = id; state = unknown; checked_at = 0 }
device_state running poll now id (some i) = record {
  device_id = id;
  state = state_of running poll now i;
  checked_at = i.checked_at;
}

abbrev pub counted : List DeviceState → Snapshot
counted states = record {
  device_states = states;
  device_total = length states;
  device_online = count_where (λ d. is_online d.state) states;
  device_offline = count_where (λ d. is_offline d.state) states;
  device_unknown = count_where (λ d. is_unknown d.state) states;
}

abbrev pub states_of : Bool → ℕ → ℕ → List Item → List ℕ → List DeviceState
states_of running poll now latest [] = []
states_of running poll now latest (id ∷ ids) =
    device_state running poll now id (reading_of id latest) ∷ states_of running poll now latest ids

unfoldable pub device_snapshot : List ℕ → List Item → Bool → ℕ → ℕ → Snapshot
device_snapshot devices latest running poll now =
    counted (states_of running poll now latest devices)

-- The status that a collector sent last; `none` for the states of an older collector.
pub record Report : Type 0 where
  pub device_total : ℕ
  pub monitor_running : Bool
  pub device_states : Option (List DeviceState)
  pub device_online : ℕ

pub record CloudStatus : Type 0 where
  pub device_states : Option (List DeviceState)
  pub device_total : ℕ
  pub device_online : ℕ
  pub device_offline : ℕ
  pub device_unknown : ℕ
  pub device_status_known : Bool
  pub last_reported_device_online : ℕ

abbrev pub mask : Bool → DeviceState → DeviceState
mask known d = if known then d else record d { state = unknown }

abbrev pub status_with : Report → Bool → Option (List DeviceState) → CloudStatus
status_with r known (some ds) =
    let states = map (mask known) ds in
    record {
      device_states = some states;
      device_total = r.device_total;
      device_online = count_where (λ d. is_online d.state) states;
      device_offline = count_where (λ d. is_offline d.state) states;
      device_unknown = count_where (λ d. is_unknown d.state) states;
      device_status_known = known;
      last_reported_device_online = r.device_online;
    }
status_with r known none =
    let online_now = if known then r.device_online else 0 in
    record {
      device_states = none;
      device_total = r.device_total;
      device_online = online_now;
      device_offline = 0;
      device_unknown = r.device_total - online_now;
      device_status_known = known;
      last_reported_device_online = r.device_online;
    }

-- `total - online` is negative in the code for a report of more devices online than there are.
unfoldable pub cloud_device_status : Report → Bool → CloudStatus
cloud_device_status r connected = status_with r (connected && r.monitor_running) r.device_states
