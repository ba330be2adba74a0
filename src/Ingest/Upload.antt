-- ===== src/Ingest/Upload.antt =====
-- `ingest_batch` and `ingest_latest` of cloud_api.py. An HTTPException is the number of its status; it
-- leaves the transaction, so nothing of the batch stays.
use hawklive.Prelude.{
  ℕ, Bool, not, ◌&&◌, List, [], ◌∷◌, ◌++◌, Result, ok, err, ◌>>=◌, leb, ◌==◌, if◌then◌else◌, any,
  length,
}
use hawklive.Ingest.Tables.{
  Identity, Assignment, ReadingIn, Reading, Latest, Database, Target, Names, authorize_past,
  authorize_now, retired,
}

-- The body of a request.
pub record Batch (V : Type 0) : Type 0 where
  pub site_id : ℕ
  pub readings : List (ReadingIn V)

pub record Accepted : Type 0 where
  pub accepted : ℕ
  pub ignored_device_ids : List ℕ

-- with connect() as db: …
abbrev pub commit : {S A : Type 0} → S → Result ℕ (A × S) → Result ℕ A × S
commit db (ok (a, db')) = (ok a, db')
commit db (err e) = (err e, db)

module _ {V : Type 0} where
  abbrev pub target : ReadingIn V → Target
  target item = record { device_id = item.device_id; cleanroom_id = item.cleanroom_id }

  abbrev pub of_tenant : Identity → ReadingIn V → Bool
  of_tenant id item = item.site_id == id.site_id && item.customer_id == id.customer_id

  abbrev pub row : Identity → Names → ReadingIn V → Reading V
  row id names item = record {
    record_uuid = item.record_uuid;
    customer_id = id.customer_id;
    site_id = id.site_id;
    cleanroom_id = item.cleanroom_id;
    cleanroom_name = names.cleanroom_name;
    device_id = item.device_id;
    device_name = names.device_name;
    measured_at = item.measured_at;
    values = item.values;
  }

  abbrev pub has : ℕ → List (Reading V) → Bool
  has uuid = any (λ r. r.record_uuid == uuid)

  -- INSERT INTO readings … ON CONFLICT(record_uuid) DO NOTHING
  unfoldable pub insert_reading : Reading V → List (Reading V) → List (Reading V)
  insert_reading r rs = if has r.record_uuid rs then rs else rs ++ (r ∷ [])

  -- One round of the loop of ingest_batch.
  unfoldable pub ingest_item :
      Identity → List Assignment → ReadingIn V → List (Reading V) → Result ℕ (List (Reading V))
  ingest_item id ps item rs =
      if not (of_tenant id item)
      then err 403
      else authorize_past id (target item) item.measured_at ps >>= λ names.
          ok (insert_reading (row id names item) rs)

  unfoldable pub ingest_items :
      Identity
      → List Assignment
      → List (ReadingIn V)
      → List (Reading V)
      → Result ℕ (List ℕ × List (Reading V))
  ingest_items id ps [] rs = ok ([], rs)
  ingest_items id ps (item ∷ items) rs = ingest_item id ps item rs >>= λ rs'.
      ingest_items id ps items rs' >>= λ done. ok (item.record_uuid ∷ done.0, done.1)

  abbrev pub stored : Database V → List ℕ × List (Reading V) → List ℕ × Database V
  stored db (accepted, rs) = (accepted, record db { readings = rs })

  unfoldable pub ingest_batch : Identity → Batch V → Database V → Result ℕ (List ℕ) × Database V
  ingest_batch id batch db =
      if not (batch.site_id == id.site_id)
      then (err 403, db)
      else commit db (
          ingest_items id db.assignments batch.readings db.readings >>= λ done. ok (stored db done))

  abbrev pub latest_row : ℕ → Identity → Names → ReadingIn V → Latest V
  latest_row now id names item = record {
    customer_id = id.customer_id;
    site_id = id.site_id;
    device_id = item.device_id;
    cleanroom_id = item.cleanroom_id;
    cleanroom_name = names.cleanroom_name;
    device_name = names.device_name;
    measured_at = item.measured_at;
    received_at = now;
    values = item.values;
  }

  abbrev pub same_key : Latest V → Latest V → Bool
  same_key a b =
      a.customer_id == b.customer_id && a.site_id == b.site_id && a.device_id == b.device_id

  -- INSERT … ON CONFLICT … DO UPDATE … WHERE excluded.measured_at >= latest_readings.measured_at
  unfoldable pub upsert_latest : Latest V → List (Latest V) → List (Latest V)
  upsert_latest l [] = l ∷ []
  upsert_latest l (x ∷ xs) =
      let rest = upsert_latest l xs in
      if same_key x l then (if leb x.measured_at l.measured_at then l else x) ∷ xs else x ∷ rest

  -- One round of the loop of ingest_latest: the devices it passed over, and the rows.
  unfoldable pub ingest_latest_item :
      ℕ
      → Identity
      → Database V
      → ReadingIn V
      → List ℕ × List (Latest V)
      → Result ℕ (List ℕ × List (Latest V))
  ingest_latest_item now id db item (ignored, ls) =
      if not (of_tenant id item)
      then err 403
      else if retired id (target item) item.measured_at db.assignments
      then ok (ignored ++ (item.device_id ∷ []), ls)
      else authorize_now id (target item) db.devices db.cleanrooms >>= λ names.
          ok (ignored, upsert_latest (latest_row now id names item) ls)

  unfoldable pub ingest_latest_items :
      ℕ
      → Identity
      → Database V
      → List (ReadingIn V)
      → List ℕ × List (Latest V)
      → Result ℕ (List ℕ × List (Latest V))
  ingest_latest_items now id db [] acc = ok acc
  ingest_latest_items now id db (item ∷ items) acc =
      ingest_latest_item now id db item acc >>= λ acc'. ingest_latest_items now id db items acc'

  abbrev pub refreshed : Batch V → Database V → List ℕ × List (Latest V) → Accepted × Database V
  refreshed batch db (ignored, ls) = (
    record { accepted = length batch.readings; ignored_device_ids = ignored },
    record db { latest = ls },
  )

  unfoldable pub ingest_latest :
      ℕ → Identity → Batch V → Database V → Result ℕ Accepted × Database V
  ingest_latest now id batch db =
      if not (batch.site_id == id.site_id)
      then (err 403, db)
      else commit db (
          ingest_latest_items now id db batch.readings ([], db.latest) >>= λ done.
          ok (refreshed batch db done))
