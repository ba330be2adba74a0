-- ===== src/Alarm/Machine.antt =====
-- `_evaluate_alarms`: the state machine of one metric, and the loop over the checks of a sample.
pub mod Delay
use hawklive.Prelude.{
  ℕ, suc, ◌+◌, Bool, true, false, not, ◌&&◌, ◌||◌, Option, none, some, List, [], ◌∷◌, ◌++◌, String,
  any, count_where, ltb, leb, ◌==◌, if◌then◌else◌,
}
use hawklive.Alarm.Tables.{
  AlarmState, normal, pending_alarm, alarm_active, pending_clear, StateRow, EventRow, Database,
  open_of, open_from, find_row, upsert, delete_row, update_where, ended, ended_quietly,
}

-- The local variables `state`, `pending_since` and `active_since`.
pub record Cell : Type 0 where
  pub state : AlarmState
  pub pending_since : Option ℕ
  pub active_since : Option ℕ

-- What a transition does to the table of events.
pub data Action : Type 0 where
  keep start raise_peak finish : Action

-- `now - float(pending_since) >= delay`; `none` where `float(None)` raises TypeError.
abbrev pub waited : ℕ → ℕ → Option ℕ → Option Bool
waited delay now none = none
waited delay now (some since) = some (leb (since + delay) now)

abbrev pub after_wait : Option Bool → Cell × Action → Cell × Action → Option (Cell × Action)
after_wait none over still = none
after_wait (some true) over still = some over
after_wait (some false) over still = some still

-- One reading: `exceeded` says whether the limit is exceeded at time `now`.
unfoldable pub transition : ℕ → ℕ → Bool → AlarmState → Option ℕ → Option ℕ → Option (Cell × Action)
transition delay now true normal pending active =
    some (record { state = pending_alarm; pending_since = some now; active_since = active }, keep)
transition delay now false normal pending active =
    some (record { state = normal; pending_since = pending; active_since = active }, keep)
transition delay now false pending_alarm pending active =
    some (record { state = normal; pending_since = none; active_since = active }, keep)
transition delay now true pending_alarm pending active =
    after_wait (waited delay now pending)
      (record { state = alarm_active; pending_since = none; active_since = some now }, start)
      (record { state = pending_alarm; pending_since = pending; active_since = active }, keep)
transition delay now true alarm_active pending active =
    some
      (record { state = alarm_active; pending_since = pending; active_since = active }, raise_peak)
transition delay now false alarm_active pending active =
    some (record { state = pending_clear; pending_since = some now; active_since = active }, keep)
transition delay now true pending_clear pending active =
    some (record { state = alarm_active; pending_since = none; active_since = active }, keep)
transition delay now false pending_clear pending active =
    after_wait (waited delay now pending)
      (record { state = normal; pending_since = none; active_since = none }, finish)
      (record { state = pending_clear; pending_since = pending; active_since = active }, keep)

-- One element of `_metric_checks`.
pub record Check (V : Type 0) : Type 0 where
  pub metric : ℕ
  pub value : V
  pub enabled : Bool
  pub exceeded : Bool
  pub description : String

-- What `_evaluate_alarms` reads of the sample, the delay of the limits, and the ids that `uuid4`
-- draws: the one for the event of each metric.
pub record Sample : Type 0 where
  pub customer : ℕ
  pub site : ℕ
  pub cleanroom : ℕ
  pub device : ℕ
  pub source : ℕ
  pub now : ℕ
  pub delay : ℕ
  pub uuid : ℕ → ℕ

pub data Log : Type 0 where
  alarm_rule_disabled alarm_started alarm_cleared : ℕ → Log

-- One element of `alarm_details`.
pub record Detail (V : Type 0) : Type 0 where
  pub metric : ℕ
  pub value : V
  pub cell : Cell
  pub limit : String

pub record Evaluated (V : Type 0) : Type 0 where
  pub database : Database V
  pub changed : Bool
  pub logs : List Log
  pub details : List (Detail V)

abbrev pub is_normal : AlarmState → Bool
is_normal normal = true
is_normal _ = false

module _ {V : Type 0} (maximum : V → V → V) where
  abbrev pub new_event : Sample → Check V → EventRow V
  new_event s c = record {
    id = s.uuid c.metric;
    customer = s.customer;
    site = s.site;
    cleanroom = s.cleanroom;
    device = s.device;
    source = s.source;
    metric = c.metric;
    started_at = s.now;
    ended_at = none;
    trigger_value = c.value;
    peak_value = c.value;
    limit_description = c.description;
    synced_at = none;
  }

  -- SET peak_value = MAX(peak_value, ?), synced_at = NULL
  abbrev pub peaked : V → EventRow V → EventRow V
  peaked v e = record e { peak_value = maximum e.peak_value v; synced_at = none }

  unfoldable pub perform : Sample → Check V → Action → List (EventRow V) → List (EventRow V)
  perform s c keep events = events
  perform s c start events = events ++ new_event s c ∷ []
  perform s c raise_peak events =
      update_where (open_from s.device c.metric s.source) (peaked c.value) events
  perform s c finish events =
      update_where (open_from s.device c.metric s.source) (ended s.now) events

  abbrev pub action_logs : Check V → Action → List Log
  action_logs c start = alarm_started c.metric ∷ []
  action_logs c finish = alarm_cleared c.metric ∷ []
  action_logs c _ = []

  abbrev pub reports : Action → Bool
  reports start = true
  reports finish = true
  reports _ = false

  abbrev pub not_normal : Option (StateRow V) → Bool
  not_normal none = false
  not_normal (some r) = not (is_normal r.state)

  -- A rule that is switched off: its events end and its row goes.
  unfoldable pub disable : Sample → Check V → Database V → Evaluated V
  disable s c db =
      let row = find_row s.device c.metric db.states in
      let changed = ltb 0 (count_where (open_of s.device c.metric) db.events) || not_normal row in
      record {
        database = record {
          states = delete_row s.device c.metric db.states;
          events = update_where (open_of s.device c.metric) (ended s.now) db.events;
        };
        changed = changed;
        logs = if changed then alarm_rule_disabled c.metric ∷ [] else [];
        details = [];
      }

  -- The row that the machine goes on from: that of another source is given up, and its events end.
  abbrev pub current_row : Sample → Option (StateRow V) → Option (StateRow V)
  current_row s none = none
  current_row s (some r) = if r.source == s.source then some r else none

  abbrev pub current_events :
      Sample → Check V → Option (StateRow V) → List (EventRow V) → List (EventRow V)
  current_events s c none events = events
  current_events s c (some r) events =
      if r.source == s.source
      then events
      else update_where (open_from s.device c.metric r.source) (ended_quietly s.now) events

  abbrev pub cell_of : Option (StateRow V) → Cell
  cell_of none = record { state = normal; pending_since = none; active_since = none }
  cell_of (some r) = record {
    state = r.state;
    pending_since = r.pending_since;
    active_since = r.active_since;
  }

  abbrev pub row_of : Sample → Check V → Cell → StateRow V
  row_of s c cell = record {
    device = s.device;
    metric = c.metric;
    source = s.source;
    state = cell.state;
    pending_since = cell.pending_since;
    active_since = cell.active_since;
    current_value = c.value;
  }

  -- The row is stored and the transition's action done.
  abbrev pub store :
      Sample → Check V → List (StateRow V) → List (EventRow V) → Cell × Action → Evaluated V
  store s c states events (cell, action) = record {
    database = record {
      states = upsert (row_of s c cell) states;
      events = perform s c action events;
    };
    changed = reports action;
    logs = action_logs c action;
    details =
        record { metric = c.metric; value = c.value; cell = cell; limit = c.description } ∷ [];
  }

  abbrev pub map_option : {A B : Type 0} → (A → B) → Option A → Option B
  map_option f none = none
  map_option f (some a) = some (f a)

  abbrev pub and_then : {A B : Type 0} → Option A → (A → Option B) → Option B
  and_then none f = none
  and_then (some a) f = f a

  unfoldable pub evaluate_enabled : Sample → Check V → Database V → Option (Evaluated V)
  evaluate_enabled s c db =
      let row = find_row s.device c.metric db.states in
      let cell = cell_of (current_row s row) in
      map_option (store s c db.states (current_events s c row db.events))
        (transition s.delay s.now c.exceeded cell.state cell.pending_since cell.active_since)

  unfoldable pub evaluate_metric : Sample → Check V → Database V → Option (Evaluated V)
  evaluate_metric s c db = if c.enabled then evaluate_enabled s c db else some (disable s c db)

  abbrev pub join : Evaluated V → Evaluated V → Evaluated V
  join a b = record {
    database = b.database;
    changed = a.changed || b.changed;
    logs = a.logs ++ b.logs;
    details = a.details ++ b.details;
  }

  -- The loop; an exception in it undoes the transaction, and the whole call raises.
  unfoldable pub evaluate_checks : Sample → List (Check V) → Database V → Option (Evaluated V)
  evaluate_checks s [] db =
      some (record { database = db; changed = false; logs = []; details = [] })
  evaluate_checks s (c ∷ cs) db =
      and_then (evaluate_metric s c db)
        (λ first. map_option (join first) (evaluate_checks s cs first.database))

pub data AlarmStatus : Type 0 where
  status_alarm_active status_pending status_normal : AlarmStatus

-- `alarm_status` of the sample.
abbrev pub counts_active : AlarmState → Bool
counts_active alarm_active = true
counts_active pending_clear = true
counts_active _ = false

abbrev pub counts_pending : AlarmState → Bool
counts_pending pending_alarm = true
counts_pending _ = false

unfoldable pub alarm_status : {V : Type 0} → List (Detail V) → AlarmStatus
alarm_status details =
    if any (λ d. counts_active d.cell.state) details
    then status_alarm_active
    else if any (λ d. counts_pending d.cell.state) details
    then status_pending
    else status_normal
