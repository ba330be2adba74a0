-- ===== src/Alarm/Invariant.antt =====
-- The alarm tables agree: a device and a metric have an open event of a source exactly while the row
-- of their state machine is of that source and in an alarm, and then exactly one.
use hawklive.Prelude.{
  ℕ, ◌+◌, ◌≡◌, refl, ap, inl, inr, Bool-cases, Bool, true, false, not, ◌&&◌, Option, none, some,
  List, arith, leb, ◌==◌, if◌then◌else◌,
}
use hawklive.Alarm.Tables.{
  AlarmState, normal, pending_alarm, alarm_active, pending_clear, StateRow, EventRow, Database,
  is_none, open_from, find_row,
}
use hawklive.Alarm.Tables.Laws.{
  opens, find_row-upsert, find_row-delete_row, opens-ended, opens-ended_quietly, opens-ended_all,
  opens-update, opens-append,
}
use hawklive.Alarm.Machine.{
  Cell, Action, keep, start, raise_peak, finish, transition, waited, after_wait, Check, Sample,
  Evaluated, counts_active, new_event, peaked, perform, disable, current_row, current_events,
  cell_of, row_of, store, map_option, evaluate_enabled,
}

-- A state that waits has the time since which it waits.
abbrev pub timed : AlarmState → Option ℕ → Bool
timed pending_alarm since = not (is_none since)
timed pending_clear since = not (is_none since)
timed _ since = true

module _ {V : Type 0} where
  -- The number of open events of source `s` that the row calls for.
  abbrev pub due : ℕ → Option (StateRow V) → ℕ
  due s none = 0
  due s (some r) = if counts_active r.state && r.source == s then 1 else 0

  abbrev pub row_timed : Option (StateRow V) → Bool
  row_timed none = true
  row_timed (some r) = timed r.state r.pending_since

  pub record IsConsistent (db : Database V) : Type 0 where
    pub tally : (d m s : ℕ) → opens d m s db.events ≡ due s (find_row d m db.states)
    pub waits : (d m : ℕ) → row_timed (find_row d m db.states) ≡ true

-- What an action does to whether the machine is in an alarm.
abbrev alarm_after : Bool → Action → Bool
alarm_after before start = true
alarm_after before finish = false
alarm_after before _ = before

abbrev may_act : Bool → Action → Bool
may_act before start = not before
may_act before finish = before
may_act before raise_peak = before
may_act before keep = true

-- A timed machine takes the reading without an error, stays timed, and enters or leaves an alarm
-- exactly with the action that opens or ends the event.
record Moves (state : AlarmState) (r : Option (Cell × Action)) : Type 0 where
  cell : Cell
  action : Action
  result : r ≡ some (cell, action)
  timed_after : timed cell.state cell.pending_since ≡ true
  in_alarm : counts_active cell.state ≡ alarm_after (counts_active state) action
  allowed : may_act (counts_active state) action ≡ true

moved :
    {state : AlarmState} (cell : Cell) (action : Action)
    → timed cell.state cell.pending_since ≡ true
    → counts_active cell.state ≡ alarm_after (counts_active state) action
    → may_act (counts_active state) action ≡ true
    → Moves state (some (cell, action))
moved cell action t a m = record {
  cell = cell;
  action = action;
  result = refl;
  timed_after = t;
  in_alarm = a;
  allowed = m;
}

after_wait-Moves :
    (state : AlarmState) (delay now : ℕ) (since : Option ℕ) (over still : Cell × Action)
    → not (is_none since) ≡ true
    → Moves state (some over)
    → Moves state (some still)
    → Moves state (after_wait (waited delay now since) over still)
after_wait-Moves state delay now none over still h mo ms = cc
after_wait-Moves state delay now (some since) over still h mo ms =
    elim (Bool-cases (leb (since + delay) now)) [ inl e ↦ rw e mo | inr e ↦ rw e ms ]

transition-Moves :
    (delay now : ℕ) (exceeded : Bool) (state : AlarmState) (pending active : Option ℕ)
    → timed state pending ≡ true
    → Moves state (transition delay now exceeded state pending active)
unfolding transition
transition-Moves delay now true normal pending active h = moved _ _ refl refl refl
transition-Moves delay now false normal pending active h = moved _ _ refl refl refl
transition-Moves delay now true pending_alarm pending active h =
    after_wait-Moves pending_alarm delay now pending _ _ h (moved _ _ refl refl refl)
      (moved _ _ h refl refl)
transition-Moves delay now false pending_alarm pending active h = moved _ _ refl refl refl
transition-Moves delay now true alarm_active pending active h = moved _ _ refl refl refl
transition-Moves delay now false alarm_active pending active h = moved _ _ refl refl refl
transition-Moves delay now true pending_clear pending active h = moved _ _ refl refl refl
transition-Moves delay now false pending_clear pending active h =
    after_wait-Moves pending_clear delay now pending _ _ h (moved _ _ refl refl refl)
      (moved _ _ h refl refl)

module _ {V : Type 0} (maximum : V → V → V) where
  -- What an action does to the open events.
  opens-perform :
      (s : Sample) (c : Check V) (a : Action) (d m src : ℕ) (es : List (EventRow V))
      → opens d m src (perform maximum s c a es) ≡ (
          if s.device == d && c.metric == m && s.source == src
          then elim a [ start ↦ opens d m src es + 1 | finish ↦ 0 | _ ↦ opens d m src es ]
          else opens d m src es)
  unfolding perform
  opens-perform s c keep d m src es = ground arith
  opens-perform s c start d m src es =
      ground (arith, opens-append d m src es (new_event maximum s c))
  opens-perform s c raise_peak d m src es = ground (
    arith,
    opens-update (open_from s.device c.metric s.source) (peaked maximum c.value) d m src es
        (λ e. refl),
  )
  opens-perform s c finish d m src es =
      ground (arith, opens-ended d m src s.device c.metric s.source s.now es)

  -- The events of a source that the sample is not of have ended.
  opens-current :
      (s : Sample) (c : Check V) (row : Option (StateRow V)) (d m src : ℕ) (es : List (EventRow V))
      → opens d m src (current_events maximum s c row es) ≡ (elim row [
        | none ↦ opens d m src es
        | some r ↦
            if not (r.source == s.source) && s.device == d && c.metric == m && r.source == src
            then 0
            else opens d m src es
      ])
  opens-current s c none d m src es = refl
  opens-current s c (some r) d m src es =
      ground (arith, opens-ended_quietly d m src s.device c.metric r.source s.now es)

  store-IsConsistent :
      (s : Sample) (c : Check V) (db : Database V) (cell : Cell) (a : Action)
      → IsConsistent db
      → timed cell.state cell.pending_since ≡ true
      → let before =
          cell_of maximum (current_row maximum s (find_row s.device c.metric db.states)) in
        counts_active cell.state ≡ alarm_after (counts_active before.state) a
        → may_act (counts_active before.state) a ≡ true
        → IsConsistent
            (store maximum s c db.states
              (current_events maximum s c (find_row s.device c.metric db.states) db.events)
              (cell, a)).database
  store-IsConsistent s c db cell a h t now_active allowed = record {
    tally = λ d m src.
        let row = find_row s.device c.metric db.states in
        let es = current_events maximum s c row db.events in
        ground (
          arith,
          h.tally d m src,
          h.tally s.device c.metric src,
          now_active,
          allowed,
          find_row-upsert d m (row_of maximum s c cell) db.states,
          opens-perform s c a d m src es,
          opens-current s c row d m src db.events,
        );
    waits =
        λ d m. ground (arith, find_row-upsert d m (row_of maximum s c cell) db.states, h.waits d m);
  }

  pub disable-IsConsistent :
      (s : Sample) (c : Check V) (db : Database V)
      → IsConsistent db
      → IsConsistent (disable maximum s c db).database
  unfolding disable
  disable-IsConsistent s c db h = record {
    tally = λ d m src. ground (
      arith,
      h.tally d m src,
      find_row-delete_row d m s.device c.metric db.states,
      opens-ended_all d m src s.device c.metric s.now db.events,
    );
    waits = λ d m. ground (arith, h.waits d m, find_row-delete_row d m s.device c.metric db.states);
  }

  -- A check is evaluated without an error, and the tables agree afterwards.
  pub record Evaluates (r : Option (Evaluated V)) : Type 0 where
    pub evaluated : Evaluated V
    pub result : r ≡ some evaluated
    pub consistent : IsConsistent evaluated.database

  pub evaluate_enabled-Evaluates :
      (s : Sample) (c : Check V) (db : Database V)
      → IsConsistent db
      → Evaluates (evaluate_enabled maximum s c db)
  unfolding evaluate_enabled
  evaluate_enabled-Evaluates s c db h =
      let row = find_row s.device c.metric db.states in
      let cell = cell_of maximum (current_row maximum s row) in
      let m =
        transition-Moves s.delay s.now c.exceeded cell.state cell.pending_since cell.active_since
          (ground (arith, h.waits s.device c.metric)) in
      record {
        evaluated =
            store maximum s c db.states (current_events maximum s c row db.events)
              (m.cell, m.action);
        result =
            ap
              (map_option maximum
                (store maximum s c db.states (current_events maximum s c row db.events)))
              m.result;
        consistent = store-IsConsistent s c db m.cell m.action h m.timed_after m.in_alarm m.allowed;
      }
