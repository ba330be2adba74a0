-- ===== src/Ingest/Alarms.antt =====
-- `ingest_alarms` of cloud_api.py: the alarm events of a collector, each of which is handed to the
-- e-mail queue in the same transaction.
use hawklive.Prelude.{
  ℕ, Bool, true, not, ◌&&◌, Option, none, some, List, [], ◌∷◌, ◌++◌, String, Result, ok, err, ◌>>=◌,
  ◌==◌, if◌then◌else◌,
}
use hawklive.Email.Tables.{Event, Cloud, select, option_or}
use hawklive.Email.Enqueue.{enqueue_alarm}
use hawklive.Ingest.Tables.{Identity, Assignment, authorize_past}
use hawklive.Ingest.Upload.{commit}

-- AlarmEventIn, whose source is the device.
pub record AlarmEventIn (V : Type 0) : Type 0 where
  pub event_uuid : ℕ
  pub customer_id : ℕ
  pub site_id : ℕ
  pub cleanroom_id : ℕ
  pub device_id : ℕ
  pub metric : ℕ
  pub started_at : ℕ
  pub ended_at : Option ℕ
  pub trigger_value : V
  pub peak_value : V
  pub limit_description : String

pub record AlarmBatch (V : Type 0) : Type 0 where
  pub site_id : ℕ
  pub events : List (AlarmEventIn V)

-- COALESCE(alarm_events.ended_at, excluded.ended_at)
abbrev pub coalesce : Option ℕ → Option ℕ → Option ℕ
coalesce none new = new
coalesce (some t) new = some t

module _ {V : Type 0} where
  abbrev pub same_owner : Identity → AlarmEventIn V → Event V → Bool
  same_owner id item e =
      e.customer_id == id.customer_id
      && e.site_id == id.site_id
      && e.cleanroom_id == item.cleanroom_id
      && e.device_id == item.device_id

  abbrev pub new_event : Identity → AlarmEventIn V → Event V
  new_event id item = record {
    event_uuid = item.event_uuid;
    customer_id = id.customer_id;
    site_id = id.site_id;
    device_id = item.device_id;
    cleanroom_id = item.cleanroom_id;
    from_device = true;
    started_at = item.started_at;
    ended_at = item.ended_at;
    metric = item.metric;
    trigger_value = item.trigger_value;
    peak_value = item.peak_value;
    limit_description = item.limit_description;
  }

  abbrev pub merged : AlarmEventIn V → Event V → Event V
  merged item e = record e {
    ended_at = coalesce e.ended_at item.ended_at;
    peak_value = item.peak_value;
    limit_description = item.limit_description;
  }

  -- UPDATE of the row with that identifier.
  unfoldable pub merge_into : AlarmEventIn V → List (Event V) → List (Event V)
  merge_into item [] = []
  merge_into item (e ∷ es) =
      (if e.event_uuid == item.event_uuid then merged item e else e) ∷ merge_into item es

  -- `existing` decides what the INSERT … ON CONFLICT … DO UPDATE does; its own WHERE repeats the test
  -- of the owner.
  abbrev pub write_event :
      Identity → AlarmEventIn V → Option (Event V) → List (Event V) → Result ℕ (List (Event V))
  write_event id item none es = ok (es ++ (new_event id item ∷ []))
  write_event id item (some e) es =
      if same_owner id item e then ok (merge_into item es) else err 409

  abbrev pub with_events : Cloud V → List (Event V) → Cloud V
  with_events db es = record db { events = es }

  -- One round of the loop.
  unfoldable pub ingest_alarm :
      ℕ → (ℕ → ℕ) → Identity → List Assignment → AlarmEventIn V → Cloud V → Result ℕ (Cloud V)
  ingest_alarm now uuid id ps item db =
      if not (item.site_id == id.site_id && item.customer_id == id.customer_id)
      then err 403
      else authorize_past id
          (record { device_id = item.device_id; cleanroom_id = item.cleanroom_id })
          (option_or item.started_at item.ended_at) ps
        >>= λ names.
            write_event id item (select (λ e. e.event_uuid == item.event_uuid) db.events) db.events
            >>= λ es. ok (enqueue_alarm now uuid id.customer_id item.event_uuid (with_events db es))

  unfoldable pub ingest_alarm_items :
      ℕ
      → (ℕ → ℕ)
      → Identity
      → List Assignment
      → List (AlarmEventIn V)
      → List ℕ
      → Cloud V
      → Result ℕ (List ℕ × Cloud V)
  ingest_alarm_items now uuid id ps [] accepted db = ok (accepted, db)
  ingest_alarm_items now uuid id ps (item ∷ items) accepted db =
      ingest_alarm now uuid id ps item db >>= λ db'.
      ingest_alarm_items now uuid id ps items (accepted ++ (item.event_uuid ∷ [])) db'

  unfoldable pub ingest_alarms :
      ℕ
      → (ℕ → ℕ)
      → Identity
      → List Assignment
      → AlarmBatch V
      → Cloud V
      → Result ℕ (List ℕ) × Cloud V
  ingest_alarms now uuid id ps batch db =
      if not (batch.site_id == id.site_id)
      then (err 403, db)
      else commit db (ingest_alarm_items now uuid id ps batch.events [] db)
