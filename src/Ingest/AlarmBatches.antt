-- ===== src/Ingest/AlarmBatches.antt =====
-- A batch of alarm events: what it leaves of the events that are there, and what it answers.
mod Tests
use hawklive.Prelude.{
  ℕ, Bool, true, false, not, List, [], ◌∷◌, ◌++◌, map, ◌≡◌, refl, subst, sym, ap, ◌∙◌, append-nil,
  append_assoc, if-both, Result, ok, err, ◌>>=◌, ◌==◌,
}
use hawklive.Email.Tables.{Event, Cloud}
use hawklive.Ingest.Tables.{Identity, Assignment}
use hawklive.Ingest.Upload.{commit}
use hawklive.Ingest.Alarms.{
  AlarmEventIn, AlarmBatch, ingest_alarm, ingest_alarm_items, ingest_alarms,
}
use hawklive.Ingest.Events.{Extends, Extends-refl, Extends-trans, Stays, item-Stays}

module _ {V : Type 0} where
  abbrev pub event_uuids : List (AlarmEventIn V) → List ℕ
  event_uuids = map (λ e. e.event_uuid)

  -- The loop over the rest of a batch, some of which is accepted.
  abbrev Looped : List ℕ → List (AlarmEventIn V) → Cloud V → Result ℕ (List ℕ × Cloud V) → Type 0
  Looped accepted items db (ok (us, db')) =
      (us ≡ accepted ++ event_uuids items) × Extends db.events db'.events
  Looped accepted items db (err e) = Unit

  next-Looped :
      (accepted : List ℕ) (item : AlarmEventIn V) (items : List (AlarmEventIn V)) (db db' : Cloud V)
      (r : Result ℕ (List ℕ × Cloud V))
      → Extends db.events db'.events
      → Looped (accepted ++ (item.event_uuid ∷ [])) items db' r
      → Looped accepted (item ∷ items) db r
  next-Looped accepted item items db db' (err e) first rest = tt
  next-Looped accepted item items db db' (ok (us, db'')) first rest = (
    rest.0 ∙ append_assoc accepted (item.event_uuid ∷ []) (event_uuids items),
    Extends-trans db.events db'.events db''.events first rest.1,
  )

  step-Looped :
      (accepted : List ℕ) (item : AlarmEventIn V) (items : List (AlarmEventIn V)) (db : Cloud V)
      (m : Result ℕ (Cloud V)) (loop : Cloud V → Result ℕ (List ℕ × Cloud V))
      → Stays db m
      → ((db' : Cloud V) → Looped (accepted ++ (item.event_uuid ∷ [])) items db' (loop db'))
      → Looped accepted (item ∷ items) db (m >>= loop)
  step-Looped accepted item items db (err e) loop first rest = tt
  step-Looped accepted item items db (ok db') loop first rest =
      next-Looped accepted item items db db' (loop db') first (rest db')

  items-Looped :
      (now : ℕ) (uuid : ℕ → ℕ) (id : Identity) (ps : List Assignment)
      (items : List (AlarmEventIn V)) (accepted : List ℕ) (db : Cloud V)
      → Looped accepted items db (ingest_alarm_items now uuid id ps items accepted db)
  unfolding ingest_alarm_items
  items-Looped now uuid id ps [] accepted db = (sym (append-nil accepted), Extends-refl db.events)
  items-Looped now uuid id ps (item ∷ items) accepted db =
      step-Looped accepted item items db (ingest_alarm now uuid id ps item db)
        (ingest_alarm_items now uuid id ps items (accepted ++ (item.event_uuid ∷ [])))
        (item-Stays now uuid id ps item db)
        (items-Looped now uuid id ps items (accepted ++ (item.event_uuid ∷ [])))

  -- A batch is refused and changes nothing, or all of it is acknowledged and every event that was there
  -- still is, with what stays of it.
  abbrev pub IsTaken : AlarmBatch V → Cloud V → Result ℕ (List ℕ) × Cloud V → Type 0
  IsTaken batch db (err e, db') = db' ≡ db
  IsTaken batch db (ok us, db') = (us ≡ event_uuids batch.events) × Extends db.events db'.events

  commit-IsTaken :
      (batch : AlarmBatch V) (db : Cloud V) (r : Result ℕ (List ℕ × Cloud V))
      → Looped [] batch.events db r
      → IsTaken batch db (commit db r)
  commit-IsTaken batch db (err e) looped = refl
  commit-IsTaken batch db (ok (us, db')) looped = looped

-- A batch of alarm events is refused and changes nothing, or all of it is acknowledged; then every
-- event that was in the cloud still is, of the same owner, metric and start, and with the same end if
-- it had one.
pub ingest_alarms-IsTaken :
    {V : Type 0} (now : ℕ) (uuid : ℕ → ℕ) (id : Identity) (ps : List Assignment)
    (batch : AlarmBatch V) (db : Cloud V)
    → IsTaken batch db (ingest_alarms now uuid id ps batch db)
unfolding ingest_alarms
ingest_alarms-IsTaken now uuid id ps batch db =
    if-both (IsTaken batch db) (not (batch.site_id == id.site_id)) refl
      (commit-IsTaken batch db _ (items-Looped now uuid id ps batch.events [] db))
