-- ===== src/Link/Tests.antt =====
-- A collector with two readings, one of them refused, and the database of the cloud.
use hawklive.Prelude.{ℕ, true, none, some, [], ◌∷◌, ◌≡◌, refl, arith, ltb, map}
use hawklive.Sync.Status.{Status, mark_success}
use hawklive.Sync.Queue.{
  Item, Options, is_due, before, insert, order, pending_rows, pending_count, quarantined_count,
  judge, same_set, permanent_item_error, record_queue_failure, mark_synced,
}
use hawklive.Sync.Upload.{Remote, State, upload_rows, sync_item, sync_items, sync_batch, sync_once}
use hawklive.Sync.Delivery.{IsDelivered}
use hawklive.Ingest.Tables.{Identity, Database, last_started, authorize_past}
use hawklive.Ingest.Upload.{insert_reading, ingest_item, ingest_items, ingest_batch}
use hawklive.Link.{Measured, payload, post_readings, cloud}
use hawklive.Link.Stored.{IsStored, sync_once-IsStored}

abbrev options : Options
options = record { site_id = 2; customer_id = some 1; batch_size = 10; max_item_attempts = 2 }

abbrev identity : Identity
identity = record { customer_id = 1; site_id = 2 }

abbrev database : Database ℕ
database = record {
  readings = [];
  latest = [];
  assignments =
      record {
        customer_id = 1;
        device_id = 4;
        site_id = 2;
        cleanroom_id = 3;
        device_name = "D";
        cleanroom_name = "R";
        started_at = 50;
        ended_at = none;
      }
      ∷ [];
  devices = [];
  cleanrooms = [];
}

abbrev reading : ℕ → ℕ → ℕ → Item (Measured ℕ)
reading uuid time value = record {
  uuid = uuid;
  customer_id = 1;
  site_id = some 2;
  from_device = true;
  assigned = true;
  timestamp = time;
  synced_at = none;
  sync_attempts = 0;
  sync_error = none;
  sync_quarantined_at = none;
  content = record { cleanroom_id = 3; device_id = 4; values = value };
}

-- A value is well formed below 1000.
abbrev remote : Remote (Measured ℕ) (Database ℕ)
remote = cloud (λ v. ltb v 1000) identity options (λ db. 700)

abbrev status : Status
status = record {
  last_success_at = none;
  last_error_at = none;
  channel_errors = [];
  consecutive_failures = 0;
}

abbrev collector : State (Measured ℕ) (Database ℕ)
collector = record {
  status = status;
  world = record { rows = reading 8 120 7 ∷ reading 9 110 5000 ∷ []; cloud = database };
}

-- The batch is refused for the second reading; the first goes up alone.
one_of_two :
    (pending_count options (sync_once remote options collector).1.world.rows ≡ 1)
    × (map (λ r. r.record_uuid) (sync_once remote options collector).1.world.cloud.readings
        ≡ 8 ∷ [])
unfolding pending_count is_due sync_once sync_batch upload_rows sync_items sync_item judge same_set
    permanent_item_error record_queue_failure mark_synced pending_rows order insert before payload
    post_readings ingest_batch ingest_items ingest_item authorize_past last_started insert_reading
    mark_success
one_of_two = (refl, refl)

-- The second pass puts the second reading aside.
put_aside :
    let s = (sync_once remote options (sync_once remote options collector).1).1 in
    (pending_count options s.world.rows ≡ 0) × (quarantined_count options s.world.rows ≡ 1)
unfolding pending_count quarantined_count is_due sync_once sync_batch upload_rows sync_items
    sync_item judge same_set permanent_item_error record_queue_failure mark_synced pending_rows
    order insert before payload post_readings ingest_batch ingest_items ingest_item authorize_past
    last_started insert_reading mark_success
put_aside = (refl, refl)

sync_once-IsStored_example : IsDelivered IsStored (sync_once remote options collector).1
sync_once-IsStored_example =
    sync_once-IsStored (λ v. ltb v 1000) identity options (λ db. 700) collector
      (λ h. absurd (ground (arith, h)), (λ h. absurd (ground (arith, h)), tt))
