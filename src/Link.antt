-- ===== src/Link.antt =====
-- cloud_sync.py and cloud_api.py together: the queue of readings of a collector, uploaded to the
-- database of the cloud.
use hawklive.Prelude.{
  ℕ, Bool, true, false, not, ◌&&◌, Option, none, some, List, [], ◌∷◌, map, Result, ok, err, ltb,
  leb, if◌then◌else◌, any, length,
}
use hawklive.Email.Tables.{is_some, option_or}
use hawklive.Sync.Queue.{Item, Options, Reply, refused, answered}
use hawklive.Sync.Upload.{Remote}
use hawklive.Ingest.Tables.{Identity, ReadingIn, Database}
use hawklive.Ingest.Upload.{Batch, ingest_batch}
pub mod Stored
pub mod Tests

-- What a row of the queue holds besides its keys.
pub record Measured (V : Type 0) : Type 0 where
  pub cleanroom_id : ℕ
  pub device_id : ℕ
  pub values : V

module _ {V : Type 0} where
  -- An item of `_payload`. A row without a site has null there, which `is_valid` refuses.
  abbrev pub payload_item : Item (Measured V) → ReadingIn V
  payload_item r = record {
    record_uuid = r.uuid;
    customer_id = r.customer_id;
    site_id = option_or 0 r.site_id;
    cleanroom_id = r.content.cleanroom_id;
    device_id = r.content.device_id;
    measured_at = r.timestamp;
    values = r.content.values;
  }

  unfoldable pub payload : ℕ → List (Item (Measured V)) → Batch V
  payload site rows = record { site_id = site; readings = map payload_item rows }

  -- The checks of ReadingIn and ReadingBatch, where `well_formed` stands for those of the values.
  abbrev pub is_valid : (V → Bool) → Item (Measured V) → Bool
  is_valid well_formed r =
      is_some r.site_id && r.from_device && ltb 0 r.timestamp && well_formed r.content.values

  abbrev pub is_valid_batch : (V → Bool) → List (Item (Measured V)) → Bool
  is_valid_batch well_formed rows =
      leb 1 (length rows)
      && leb (length rows) 1000
      && not (any (λ r. not (is_valid well_formed r)) rows)

  abbrev pub respond : Result ℕ (List ℕ) × Database V → Reply × Database V
  respond (ok accepted, db) = (answered true accepted, db)
  respond (err code, db) = (refused code, db)

  -- A request to /api/v1/readings/batch with the token of that identity.
  unfoldable pub post_readings :
      (V → Bool) → Identity → ℕ → List (Item (Measured V)) → Database V → Reply × Database V
  post_readings well_formed id site rows db =
      if is_valid_batch well_formed rows
      then respond (ingest_batch id (payload site rows) db)
      else (refused 422, db)

  abbrev pub cloud :
      (V → Bool) → Identity → Options → (Database V → ℕ) → Remote (Measured V) (Database V)
  cloud well_formed id o clock = record {
    post = post_readings well_formed id o.site_id;
    clock = clock;
  }
