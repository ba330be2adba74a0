-- ===== src/Alarm/Tests.antt =====
-- The alarm machine on concrete readings.
use hawklive.Prelude.{ℕ, ◌≡◌, refl, true, false, none, some, [], ◌∷◌, max, map}
use hawklive.Alarm.Tables.{pending_alarm, alarm_active, StateRow, EventRow, Database, find_row}
use hawklive.Alarm.Machine.{
  Cell, keep, start, transition, Check, Sample, evaluate_checks, evaluate_enabled, Evaluated,
}
use hawklive.Alarm.Tables.Laws.{opens}
use hawklive.Alarm.Machine.Delay.{Reaches, begun, reading, Lasted, transition-Timely}
use hawklive.Alarm.Invariant.{IsConsistent, Evaluates}
use hawklive.Alarm.Evaluation.{evaluate_checks-Evaluates, evaluate_enabled-source_change}

abbrev sample_at : ℕ → ℕ → Sample
sample_at source now = record {
  customer = 1;
  site = 2;
  cleanroom = 3;
  device = 4;
  source = source;
  now = now;
  delay = 300;
  uuid = λ metric. metric;
}

abbrev temperature : Check ℕ
temperature = record {
  metric = 9;
  value = 31;
  enabled = true;
  exceeded = true;
  description = "outside 18–26 °C";
}

abbrev humidity : Check ℕ
humidity = record {
  metric = 10;
  value = 40;
  enabled = false;
  exceeded = false;
  description = "disabled";
}

abbrev empty : Database ℕ
empty = record { states = []; events = [] }

empty-IsConsistent : IsConsistent empty
unfolding find_row
empty-IsConsistent = record { tally = λ d m s. refl; waits = λ d m. refl }

evaluate_checks-Evaluates_example :
    Evaluates max (evaluate_checks max (sample_at 7 100) (temperature ∷ humidity ∷ []) empty)
evaluate_checks-Evaluates_example =
    evaluate_checks-Evaluates max (sample_at 7 100) (temperature ∷ humidity ∷ []) empty
      empty-IsConsistent

abbrev waiting_cell : Cell
waiting_cell = record { state = pending_alarm; pending_since = some 100; active_since = none }

waiting_cell-Reaches : Reaches 300 ((200, true) ∷ (100, true) ∷ []) waiting_cell
unfolding transition
waiting_cell-Reaches = reading 200 true keep (reading 100 true keep begun refl) refl

alarm_cell-start :
    transition 300 400 true pending_alarm (some 100) none
    ≡ some (record { state = alarm_active; pending_since = none; active_since = some 400 }, start)
unfolding transition
alarm_cell-start = refl

transition-Timely_example : Lasted 300 400 true ((400, true) ∷ (200, true) ∷ (100, true) ∷ [])
transition-Timely_example =
    transition-Timely 300 400 true start waiting_cell-Reaches alarm_cell-start

abbrev demo_row : StateRow ℕ
demo_row = record {
  device = 4;
  metric = 9;
  source = 6;
  state = alarm_active;
  pending_since = none;
  active_since = some 50;
  current_value = 30;
}

abbrev uploaded : EventRow ℕ
uploaded = record {
  id = 1;
  customer = 1;
  site = 2;
  cleanroom = 3;
  device = 4;
  source = 6;
  metric = 9;
  started_at = 50;
  ended_at = none;
  trigger_value = 30;
  peak_value = 30;
  limit_description = "outside 18–26 °C";
  synced_at = some 60;
}

abbrev switching : Database ℕ
switching = record { states = demo_row ∷ []; events = uploaded ∷ [] }

demo_row-found : find_row 4 9 switching.states ≡ some demo_row
unfolding find_row
demo_row-found = refl

evaluate_enabled-source_change_example :
    (e : Evaluated ℕ) × (evaluate_enabled max (sample_at 7 100) temperature switching ≡ some e)
    × (opens 4 9 6 e.database.events ≡ 0)
    × (map (λ e. e.synced_at) e.database.events ≡ some 60 ∷ [])
evaluate_enabled-source_change_example =
    evaluate_enabled-source_change max (sample_at 7 100) temperature switching demo_row
      demo_row-found refl
