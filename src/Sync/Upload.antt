-- ===== src/Sync/Upload.antt =====
-- `_upload_reading_rows`, `sync_once`, `_upload_alarm_rows` and `sync_alarms_once` of cloud_sync.py.
use hawklive.Prelude.{
  ℕ, ◌+◌, Bool, true, false, Option, none, some, List, [], ◌∷◌, Result, ok, err, if◌then◌else◌,
  length,
}
use hawklive.Prelude.Effects.{Effect, ◌>>=◌, pure}
use hawklive.Sync.Status.{Channel, readings, alarms, Error, Service, mark_success}
use hawklive.Sync.Queue.{
  Item, Options, Reply, Table, reading_table, alarm_table, judge, permanent_item_error, is_http,
  pending_rows, record_queue_failure, mark_synced, uuids,
}

-- What a queue works on: its table, and the cloud at the other end.
pub record Uplink (P C : Type 0) : Type 0 where
  pub rows : List (Item P)
  pub cloud : C

-- The cloud as the collector meets it: what a request with some rows answers and leaves behind, and
-- the time.
pub record Remote (P C : Type 0) : Type 0 where
  pub post : List (Item P) → C → Reply × C
  pub clock : C → ℕ

-- The name under which the thread of a queue reports.
abbrev pub channel_of : Table → Channel
channel_of reading_table = readings
channel_of alarm_table = alarms

abbrev pub State : Type 0 → Type 0 → Type 0
State P C = Service (Uplink P C)

module _ {P C : Type 0} where
  abbrev pub with_rows : (List (Item P) → List (Item P)) → State P C → State P C
  with_rows f s = record s { world = record s.world { rows = f s.world.rows } }

  abbrev pub time : Remote P C → State P C → ℕ
  time remote s = remote.clock s.world.cloud

  -- _record_queue_failure on the rows of a request.
  abbrev pub note_failure :
      Remote P C → Options → List (Item P) → Error → Bool → State P C → State P C
  note_failure remote o batch e permanent s =
      with_rows (record_queue_failure o (time remote s) (uuids batch) e permanent) s

  abbrev pub acknowledge : Remote P C → Table → List (Item P) → State P C → State P C
  acknowledge remote q batch s = record {
    status = mark_success (time remote s) (channel_of q) s.status;
    world = record {
      rows = mark_synced (time remote s) (uuids batch) s.world.rows;
      cloud = s.world.cloud;
    };
  }

  abbrev pub conclude :
      Remote P C → Table → List (Item P) → Option Error → Effect (State P C) Error ℕ
  conclude remote q batch none s = (ok (length batch), acknowledge remote q batch s)
  conclude remote q batch (some e) s = (err e, s)

  abbrev pub receive :
      Remote P C → Table → List (Item P) → State P C → Reply × C → Result Error ℕ × State P C
  receive remote q batch s (reply, cloud) =
      conclude remote q batch (judge (uuids batch) reply)
        (record s { world = record s.world { cloud = cloud } })

  -- `_upload_reading_rows` and `_upload_alarm_rows`
  unfoldable pub upload_rows : Remote P C → Table → List (Item P) → Effect (State P C) Error ℕ
  upload_rows remote q batch s = receive remote q batch s (remote.post batch s.world.cloud)

  -- What the loop makes of the upload of one row: only an HTTP error is caught there.
  abbrev pub settle_item :
      Remote P C → Options → Item P → Result Error ℕ × State P C → Result Error ℕ × State P C
  settle_item remote o r (ok n, s) = (ok n, s)
  settle_item remote o r (err e, s) =
      if permanent_item_error e
      then (ok 0, note_failure remote o (r ∷ []) e true s)
      else if is_http e
      then (err e, note_failure remote o (r ∷ []) e false s)
      else (err e, s)

  unfoldable pub sync_item : Remote P C → Table → Options → Item P → Effect (State P C) Error ℕ
  sync_item remote q o r s = settle_item remote o r (upload_rows remote q (r ∷ []) s)

  -- for row in rows: … sent += …
  unfoldable pub sync_items :
      Remote P C → Table → Options → List (Item P) → ℕ → Effect (State P C) Error ℕ
  sync_items remote q o [] sent = pure sent
  sync_items remote q o (r ∷ rs) sent =
      sync_item remote q o r >>= λ n. sync_items remote q o rs (sent + n)

  abbrev pub refuse :
      Remote P C → Table → Options → List (Item P) → Error → Effect (State P C) Error ℕ
  refuse remote q o [] e s = (ok 0, s)
  refuse remote q o (r ∷ []) e s = (ok 0, note_failure remote o (r ∷ []) e true s)
  refuse remote q o (r ∷ r' ∷ rs) e s = sync_items remote q o (r ∷ r' ∷ rs) 0 s

  abbrev pub settle_batch :
      Remote P C
      → Table
      → Options
      → List (Item P)
      → Result Error ℕ × State P C
      → Result Error ℕ × State P C
  settle_batch remote q o batch (ok n, s) = (ok n, s)
  settle_batch remote q o batch (err e, s) =
      if permanent_item_error e
      then refuse remote q o batch e s
      else (err e, note_failure remote o batch e false s)

  unfoldable pub sync_batch :
      Remote P C → Table → Options → List (Item P) → Effect (State P C) Error ℕ
  sync_batch remote q o [] s = (ok 0, s)
  sync_batch remote q o (r ∷ rs) s =
      settle_batch remote q o (r ∷ rs) (upload_rows remote q (r ∷ rs) s)

  abbrev pub sync_table : Remote P C → Table → Options → Effect (State P C) Error ℕ
  sync_table remote q o s = sync_batch remote q o (pending_rows q o s.world.rows) s

  unfoldable pub sync_once : Remote P C → Options → Effect (State P C) Error ℕ
  sync_once remote o = sync_table remote reading_table o

  unfoldable pub sync_alarms_once : Remote P C → Options → Effect (State P C) Error ℕ
  sync_alarms_once remote o = sync_table remote alarm_table o
