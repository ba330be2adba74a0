-- ===== src/Diagnostics/Stored.antt =====
-- diagnostics_api.py: the route that stores the log entries of collectors in the cloud, and the limit
-- on what it keeps of each.
use hawklive.Prelude.{
  ℕ, ◌+◌, ◌*◌, Bool, not, ◌&&◌, ◌||◌, List, [], ◌∷◌, ◌++◌, map, any, count_where, ltb, leb, ◌==◌,
  if◌then◌else◌, Result, ok, err,
}
use hawklive.Ingest.Tables.{Identity}
use hawklive.Diagnostics.{Entry, Texts}

-- A row of collector_diagnostic_logs, in the order of id.
pub record LogRow (T : Type 0) : Type 0 where
  pub customer_id : ℕ
  pub site_id : ℕ
  pub record_uuid : ℕ
  pub instance_id : ℕ
  pub measured_at : ℕ
  pub received_at : ℕ
  pub level : T
  pub event : T
  pub message : T

-- DiagnosticBatch
pub record LogBatch (T : Type 0) : Type 0 where
  pub site_id : ℕ
  pub logs : List (Entry T)

abbrev pub kept_per_node : ℕ
kept_per_node = 50000

abbrev pub kept_seconds : ℕ
kept_seconds = 30 * 86400

module _ {T : Type 0} where
  abbrev pub of_node : Identity → LogRow T → Bool
  of_node id x = x.customer_id == id.customer_id && x.site_id == id.site_id

  abbrev pub log_row : Texts T → Identity → ℕ → ℕ → Entry T → LogRow T
  log_row texts id instance now e = record {
    customer_id = id.customer_id;
    site_id = id.site_id;
    record_uuid = e.record_uuid;
    instance_id = instance;
    measured_at = e.timestamp;
    received_at = now;
    level = e.level;
    event = texts.redact e.event;
    message = texts.redact e.message;
  }

  -- ON CONFLICT(customer_id,site_id,record_uuid) DO NOTHING
  unfoldable pub insert_log : Identity → LogRow T → List (LogRow T) → List (LogRow T)
  insert_log id x rows =
      if any (λ y. of_node id y && y.record_uuid == x.record_uuid) rows
      then rows
      else rows ++ x ∷ []

  abbrev pub insert_logs : Identity → List (LogRow T) → List (LogRow T) → List (LogRow T)
  insert_logs id [] rows = rows
  insert_logs id (x ∷ xs) rows = insert_logs id xs (insert_log id x rows)

  -- Rows of the node that are over 30 days old, or have 50000 newer rows of the node, are deleted.
  abbrev pub is_dropped : Identity → ℕ → LogRow T → List (LogRow T) → Bool
  is_dropped id now x newer =
      of_node id x
      && (ltb (x.received_at + kept_seconds) now
          || leb kept_per_node (count_where (of_node id) newer))

  unfoldable pub prune_logs : Identity → ℕ → List (LogRow T) → List (LogRow T)
  prune_logs id now [] = []
  prune_logs id now (x ∷ xs) =
      let rest = prune_logs id now xs in if is_dropped id now x xs then rest else x ∷ rest

  -- `known` says whether the site of the token is there. An HTTPException is its status.
  unfoldable pub ingest :
      Texts T
      → Identity
      → ℕ
      → Bool
      → ℕ
      → LogBatch T
      → List (LogRow T)
      → Result ℕ (List ℕ) × List (LogRow T)
  ingest texts id instance known now batch rows =
      if not (batch.site_id == id.site_id)
      then (err 403, rows)
      else if not known
      then (err 404, rows)
      else (
        ok (map (λ e. e.record_uuid) batch.logs),
        prune_logs id now (insert_logs id (map (log_row texts id instance now) batch.logs) rows),
      )
