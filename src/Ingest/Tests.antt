-- ===== src/Ingest/Tests.antt =====
-- A batch of two readings of one device, and two instances of a collector.
use hawklive.Prelude.{
  ℕ, true, false, Option, none, some, [], ◌∷◌, ◌≡◌, refl, arith, Result, err, traverse, map,
}
use hawklive.Ingest.Tables.{
  Identity, Assignment, ReadingIn, Database, last_started, authorize_past, authorize_now, retired,
}
use hawklive.Ingest.Upload.{
  Batch, insert_reading, ingest_item, ingest_items, ingest_batch, upsert_latest, ingest_latest_item,
  ingest_latest_items, ingest_latest,
}
use hawklive.Ingest.Once.{IsMerged, admit, ingest_batch-refines}
use hawklive.Ingest.Again.{ingest_batch-again}
use hawklive.Ingest.Freshness.{IsFresh, ingest_latest-IsFresh}
use hawklive.Ingest.Lease.{EdgeToken, Nodes, Request, Holder, is_free, edge_identity}
use hawklive.Ingest.Exclusion.{edge_identity-exclusive}

abbrev identity : Identity
identity = record { customer_id = 1; site_id = 2 }

abbrev assignment : ℕ → Option ℕ → Assignment
assignment device ended = record {
  customer_id = 1;
  device_id = device;
  site_id = 2;
  cleanroom_id = 3;
  device_name = "D";
  cleanroom_name = "R";
  started_at = 50;
  ended_at = ended;
}

abbrev database : Database ℕ
database = record {
  readings = [];
  latest = [];
  assignments = assignment 4 none ∷ assignment 5 (some 90) ∷ [];
  devices =
      record { id = 4; customer_id = 1; site_id = 2; cleanroom_id = 3; name = "D"; enabled = true }
      ∷ [];
  cleanrooms = record { id = 3; customer_id = 1; name = "R" } ∷ [];
}

abbrev item : ℕ → ℕ → ℕ → ReadingIn ℕ
item uuid device time = record {
  record_uuid = uuid;
  customer_id = 1;
  site_id = 2;
  cleanroom_id = 3;
  device_id = device;
  measured_at = time;
  values = 7;
}

abbrev batch : Batch ℕ
batch = record { site_id = 2; readings = item 8 4 100 ∷ item 9 4 110 ∷ item 8 4 120 ∷ [] }

-- The second row of an identifier is acknowledged and left out.
two_rows :
    map (λ r. r.measured_at) (ingest_batch identity batch database).1.readings ≡ 100 ∷ 110 ∷ []
unfolding ingest_batch ingest_items ingest_item authorize_past last_started insert_reading
two_rows = refl

-- A reading of a device that was not there takes the whole batch with it.
refused_batch :
    ingest_batch identity (record batch { readings = item 8 4 100 ∷ item 9 5 100 ∷ [] }) database
    ≡ (err 403, database)
unfolding ingest_batch ingest_items ingest_item authorize_past last_started insert_reading
refused_batch = refl

ingest_batch-refines_example :
    IsMerged batch database
      (traverse (admit identity database.assignments) batch.readings)
      (ingest_batch identity batch database)
ingest_batch-refines_example = ingest_batch-refines identity batch database refl

ingest_batch-again_example :
    ingest_batch identity batch (ingest_batch identity batch database).1
    ≡ ingest_batch identity batch database
ingest_batch-again_example = ingest_batch-again identity batch database

-- A batch of the latest readings: one of a device that has gone, and one older than the other.
abbrev recent : Batch ℕ
recent = record { site_id = 2; readings = item 0 5 100 ∷ item 0 4 110 ∷ item 0 4 105 ∷ [] }

newest_stays :
    map (λ l. l.measured_at) (ingest_latest 130 identity recent database).1.latest ≡ 110 ∷ []
unfolding ingest_latest ingest_latest_items ingest_latest_item authorize_now retired upsert_latest
newest_stays = refl

ingest_latest-IsFresh_example :
    IsFresh identity recent database (ingest_latest 130 identity recent database)
ingest_latest-IsFresh_example = ingest_latest-IsFresh 130 identity recent database

abbrev edge_token : ℕ → EdgeToken
edge_token hash = record {
  token_hash = hash;
  customer_id = 1;
  site_id = 2;
  enabled = true;
  last_used_at = none;
}

abbrev nodes : Nodes
nodes = record {
  tokens = edge_token 77 ∷ edge_token 78 ∷ [];
  sites =
      record {
        id = 2;
        customer_id = 1;
        retired = false;
        active_collector_instance = none;
        active_collector_seen_at = none;
      }
      ∷ [];
}

abbrev from_instance : ℕ → ℕ → Request
from_instance token i = record { bearer = some token; instance_id = some i }

abbrev enter : ℕ → ℕ → Nodes → Result ℕ Holder × Nodes
enter now i db = edge_identity (λ raw. raw) (λ hash. hash) (λ i. true) now (from_instance 77 i) db

-- Another instance has to wait until the lease has run out.
turned_away : (enter 190 6 (enter 100 5 nodes).1).0 ≡ err 409
unfolding edge_identity is_free
turned_away = refl

abbrev holder : Holder
holder = record { identity = identity; instance_id = 5 }

-- The same instance comes back with another token of the site.
edge_identity-exclusive_example : holder.instance_id ≡ holder.instance_id
unfolding edge_identity is_free
edge_identity-exclusive_example =
    edge_identity-exclusive (λ raw. raw) (λ hash. hash) (λ i. true) 100 150 (from_instance 77 5)
      (from_instance 78 5) nodes holder holder refl refl refl (omega arith) (omega arith)
