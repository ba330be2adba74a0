-- ===== src/Alarm/Evaluation.antt =====
-- The evaluation of all the checks of a sample: no check raises, and the tables stay consistent.
use hawklive.Prelude.{
  ℕ, ◌≡◌, refl, ap, ap₂, ◌∙◌, ◌==◌, map, arith, if-both, Bool, true, false, Option, none, some,
  List, [], ◌∷◌,
}
use hawklive.Alarm.Tables.{
  normal, StateRow, EventRow, Database, open_from, find_row, update_where, ended_quietly,
}
use hawklive.Alarm.Tables.Laws.{opens, opens-ended_quietly}
use hawklive.Alarm.Machine.{
  Cell, keep, transition, perform, current_row, current_events, cell_of, store, Check, Sample,
  Evaluated, disable, join, map_option, and_then, evaluate_enabled, evaluate_metric,
  evaluate_checks,
}
use hawklive.Alarm.Invariant.{
  IsConsistent, Evaluates, disable-IsConsistent, evaluate_enabled-Evaluates,
}

-- A machine that starts anew opens and ends nothing.
normal-keeps :
    (delay now : ℕ) (exceeded : Bool)
    → (cell : Cell) × (transition delay now exceeded normal none none ≡ some (cell, keep))
unfolding transition
normal-keeps delay now true = (_, refl)
normal-keeps delay now false = (_, refl)

module _ {V : Type 0} (maximum : V → V → V) where
  evaluate_metric-Evaluates :
      (s : Sample) (c : Check V) (db : Database V)
      → IsConsistent db
      → Evaluates maximum (evaluate_metric maximum s c db)
  unfolding evaluate_metric
  evaluate_metric-Evaluates s c db h =
      if-both (Evaluates maximum) c.enabled (evaluate_enabled-Evaluates maximum s c db h) record {
        evaluated = disable maximum s c db;
        result = refl;
        consistent = disable-IsConsistent maximum s c db h;
      }

  -- From tables that agree, `_evaluate_alarms` raises on no sample and no list of checks, whichever
  -- of them are switched off, exceeded or of another source, and the tables agree afterwards: every
  -- device and metric has exactly one open event of the source of its row while the row is in an
  -- alarm, and no open event otherwise, and a row that waits has the time since which it does.
  pub evaluate_checks-Evaluates :
      (s : Sample) (cs : List (Check V)) (db : Database V)
      → IsConsistent db
      → Evaluates maximum (evaluate_checks maximum s cs db)
  unfolding evaluate_checks
  evaluate_checks-Evaluates s [] db h = record {
    evaluated = record { database = db; changed = false; logs = []; details = [] };
    result = refl;
    consistent = h;
  }
  evaluate_checks-Evaluates s (c ∷ cs) db h =
      let first = evaluate_metric-Evaluates s c db h in
      let rest = evaluate_checks-Evaluates s cs first.evaluated.database first.consistent in
      record {
        evaluated = join maximum first.evaluated rest.evaluated;
        result =
            ap
              (λ r.
                and_then maximum r λ e.
                  map_option maximum (join maximum e) (evaluate_checks maximum s cs e.database))
              first.result
            ∙ ap (map_option maximum (join maximum first.evaluated)) rest.result;
        consistent = rest.consistent;
      }

  marks : List (EventRow V) → List (Option ℕ)
  marks es = map (λ e. e.synced_at) es

  ended_quietly-marks :
      (p : EventRow V → Bool) (now : ℕ) (es : List (EventRow V))
      → marks (update_where p (ended_quietly now) es) ≡ marks es
  unfolding marks
  ended_quietly-marks p now [] = refl
  ended_quietly-marks p now (e ∷ es) =
      ap₂ (λ m ms. m ∷ ms)
        (if-both (λ e'. e'.synced_at ≡ e.synced_at) (p e) {a = ended_quietly now e} {b = e} refl
          refl)
        (ended_quietly-marks p now es)

  -- `evaluate_enabled`, by the row that it finds.
  abbrev evaluate_with : Sample → Check V → Database V → Option (StateRow V) → Option (Evaluated V)
  evaluate_with s c db row =
      let cell = cell_of maximum (current_row maximum s row) in
      map_option maximum (store maximum s c db.states (current_events maximum s c row db.events))
        (transition s.delay s.now c.exceeded cell.state cell.pending_since cell.active_since)

  switched :
      (s : Sample) (c : Check V) (db : Database V) (r : StateRow V)
      → (r.source == s.source) ≡ false
      → let es =
          update_where (open_from s.device c.metric r.source) (ended_quietly s.now) db.events in
        evaluate_with s c db (some r)
        ≡ map_option maximum
            (store maximum s c db.states es)
            (transition s.delay s.now c.exceeded normal none none)
  switched s c db r other = rw other refl

  -- A sample from another source than the row's ends every open event of the old source, and marks
  -- none of the events for another upload: the end of an event that was uploaded while it was open
  -- stays unknown to the cloud.
  pub evaluate_enabled-source_change :
      (s : Sample) (c : Check V) (db : Database V) (r : StateRow V)
      → find_row s.device c.metric db.states ≡ some r
      → (r.source == s.source) ≡ false
      → (e : Evaluated V) × (evaluate_enabled maximum s c db ≡ some e)
        × (opens s.device c.metric r.source e.database.events ≡ 0)
        × (map (λ e. e.synced_at) e.database.events ≡ map (λ e. e.synced_at) db.events)
  unfolding evaluate_enabled
  evaluate_enabled-source_change s c db r found other =
      let es =
        update_where (open_from s.device c.metric r.source) (ended_quietly s.now) db.events in
      let (cell, moved) = normal-keeps s.delay s.now c.exceeded in
      let result : evaluate_with s c db (some r)
          ≡ some (store maximum s c db.states es (cell, keep)) =
        switched s c db r other ∙ ap (map_option maximum (store maximum s c db.states es)) moved in
      (
        store maximum s c db.states es (cell, keep),
        ap (evaluate_with s c db) found ∙ result,
        unfold perform in
            ground (
              arith,
              opens-ended_quietly s.device c.metric r.source s.device c.metric r.source s.now
                  db.events,
            ),
        unfold perform marks in ended_quietly-marks _ s.now db.events,
      )
