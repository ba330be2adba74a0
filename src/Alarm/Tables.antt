-- ===== src/Alarm/Tables.antt =====
-- The tables `alarm_states` and `alarm_events` and the statements that `_evaluate_alarms` runs on
-- them. Identifiers (of devices, metrics, sources, events) are texts that the code only compares:
-- here they are numbers. `V` is the type of measured values, with the SQL function MAX.
pub mod Laws
use hawklive.Prelude.{
  ℕ, suc, Bool, true, false, not, ◌&&◌, ◌||◌, Option, none, some, List, [], ◌∷◌, ◌++◌, String, map,
  count_where, filter, ◌==◌, if◌then◌else◌,
}

pub data AlarmState : Type 0 where
  normal pending_alarm alarm_active pending_clear : AlarmState

pub record StateRow (V : Type 0) : Type 0 where
  pub device : ℕ
  pub metric : ℕ
  pub source : ℕ
  pub state : AlarmState
  pub pending_since : Option ℕ
  pub active_since : Option ℕ
  pub current_value : V

pub record EventRow (V : Type 0) : Type 0 where
  pub id : ℕ
  pub customer : ℕ
  pub site : ℕ
  pub cleanroom : ℕ
  pub device : ℕ
  pub source : ℕ
  pub metric : ℕ
  pub started_at : ℕ
  pub ended_at : Option ℕ
  pub trigger_value : V
  pub peak_value : V
  pub limit_description : String
  pub synced_at : Option ℕ

pub record Database (V : Type 0) : Type 0 where
  pub states : List (StateRow V)
  pub events : List (EventRow V)

abbrev pub is_none : Option ℕ → Bool
is_none none = true
is_none (some _) = false

module _ {V : Type 0} where
  -- WHERE device_id = ? AND metric = ?
  abbrev pub state_of : ℕ → ℕ → StateRow V → Bool
  state_of d m r = r.device == d && r.metric == m

  -- … AND ended_at IS NULL
  abbrev pub open_of : ℕ → ℕ → EventRow V → Bool
  open_of d m e = e.device == d && e.metric == m && is_none e.ended_at

  -- … AND source = ? AND ended_at IS NULL
  abbrev pub open_from : ℕ → ℕ → ℕ → EventRow V → Bool
  open_from d m s e = open_of d m e && e.source == s

  -- SELECT * FROM alarm_states WHERE device_id = ? AND metric = ?
  unfoldable pub find_row : ℕ → ℕ → List (StateRow V) → Option (StateRow V)
  find_row d m [] = none
  find_row d m (r ∷ rs) = if state_of d m r then some r else find_row d m rs

  -- INSERT … ON CONFLICT(device_id, metric) DO UPDATE
  unfoldable pub upsert : StateRow V → List (StateRow V) → List (StateRow V)
  upsert row [] = row ∷ []
  upsert row (r ∷ rs) =
      let rest = upsert row rs in if state_of row.device row.metric r then row ∷ rs else r ∷ rest

  -- DELETE FROM alarm_states WHERE device_id = ? AND metric = ?
  unfoldable pub delete_row : ℕ → ℕ → List (StateRow V) → List (StateRow V)
  delete_row d m = filter (λ r. not (state_of d m r))

  -- UPDATE alarm_events SET … WHERE …
  abbrev pub update_where :
      (EventRow V → Bool) → (EventRow V → EventRow V) → List (EventRow V) → List (EventRow V)
  update_where p f [] = []
  update_where p f (e ∷ es) = (if p e then f e else e) ∷ update_where p f es

  -- SET ended_at = ?, synced_at = NULL: the change is uploaded again.
  abbrev pub ended : ℕ → EventRow V → EventRow V
  ended now e = record e { ended_at = some now; synced_at = none }

  -- SET ended_at = COALESCE(ended_at, ?), with `synced_at` left as it is.
  abbrev pub ended_quietly : ℕ → EventRow V → EventRow V
  ended_quietly now e = record e { ended_at = some now }
