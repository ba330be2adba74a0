-- ===== src/Diagnostics/Tests.antt =====
-- Two log entries of a collector, and one that stayed from another tenant.
use hawklive.Prelude.{List, ℕ, ◌+◌, true, none, some, [], ◌∷◌, ◌≡◌, refl, map, length}
use hawklive.Sync.Queue.{answered, same_set}
use hawklive.Diagnostics.{Texts, Scope, Entry, Outbox, prune_queue, enqueue}
use hawklive.Diagnostics.Upload.{
  Readings, Sender, Collector, send_logs, delete_sent, sync_diagnostics_once,
}
use hawklive.Ingest.Tables.{Identity}
use hawklive.Diagnostics.Stored.{LogRow, LogBatch, log_row, insert_log, prune_logs, ingest}
use hawklive.Diagnostics.Kept.{IsLogged, ingest-IsLogged}

abbrev here : Scope
here = record { customer_id = 1; site_id = 2; instance_id = 3 }

abbrev elsewhere : Scope
elsewhere = record { customer_id = 9; site_id = 9; instance_id = 3 }

abbrev entry : ℕ → ℕ → Scope → Entry ℕ
entry seq at scope = record {
  seq = seq;
  record_uuid = 100 + seq;
  scope = scope;
  timestamp = at;
  level = 0;
  event = 0;
  message = 0;
}

-- The first entry is older than a week at 1000000.
abbrev outbox : Outbox ℕ
outbox = record {
  rows = entry 1 5 here ∷ entry 2 999000 elsewhere ∷ entry 3 999000 here ∷ [];
  sequence = 3;
  discarded = 0;
}

abbrev sender : Sender ℕ ℕ
sender = record {
  outbox = outbox;
  last_snapshot = 50;
  status = record {
    last_success_at = none;
    last_error_at = none;
    channel_errors = [];
    consecutive_failures = 0;
  };
  cloud = 0;
}

abbrev reads : Readings
reads = record {
  monotonic = 400;
  pruned_at = 1000000;
  uuid = 77;
  written_at = 1000000;
  enqueued_at = 1000000;
  marked_at = 1000000000;
}

abbrev collector : Collector ℕ ℕ
collector = record {
  texts = record { upper = λ t. t; cut = λ n t. t; redact = λ t. t };
  snapshot = λ n. n;
  info = 1;
  collector_snapshot = 2;
  redact = λ t. t;
  post = λ logs sent. (answered true (map (λ e. e.record_uuid) logs), length logs);
}

-- The expired entry is dropped; the other of the collector goes to the cloud with the snapshot, and the
-- one of the other tenant stays.
sync_two : (sync_diagnostics_once collector (some here) reads sender).0 ≡ some 2
unfolding sync_diagnostics_once prune_queue enqueue send_logs same_set
sync_two = refl

sync_keeps :
    (sync_diagnostics_once collector (some here) reads sender).1.outbox
    ≡ record { rows = entry 2 999000 elsewhere ∷ []; sequence = 4; discarded = 1 }
unfolding sync_diagnostics_once prune_queue enqueue send_logs same_set delete_sent
sync_keeps = refl

abbrev node : Identity
node = record { customer_id = 1; site_id = 2 }

abbrev texts : Texts ℕ
texts = record { upper = λ t. t; cut = λ n t. t; redact = λ t. t }

abbrev log_batch : LogBatch ℕ
log_batch = record { site_id = 2; logs = entry 1 999000 here ∷ entry 3 999000 here ∷ [] }

-- The first entry is there already, over 30 days old, beside one of another node.
abbrev stored : List (LogRow ℕ)
stored =
    log_row texts (record { customer_id = 9; site_id = 9 }) 3 5 (entry 8 5 elsewhere)
    ∷ log_row texts node 3 5 (entry 1 5 here)
    ∷ []

ingest_two :
    map (λ x. x.record_uuid) (ingest texts node 3 true 9000000 log_batch stored).1 ≡ 108 ∷ 103 ∷ []
unfolding ingest insert_log prune_logs
ingest_two = refl

ingest-IsLogged_example :
    IsLogged node log_batch stored (ingest texts node 3 true 9000000 log_batch stored)
ingest-IsLogged_example = ingest-IsLogged texts node 3 9000000 true log_batch stored
