-- ===== src/Diagnostics/Upload.antt =====
-- `sync_diagnostics_once` of cloud_sync.py: log entries go to the cloud, a hundred at a time, and leave
-- the queue where the cloud acknowledged them. `C` is the state of the cloud and of the way to it.
use hawklive.Prelude.{
  ℕ, ◌+◌, Bool, false, not, ◌&&◌, ◌||◌, Option, none, some, List, [], ◌∷◌, map, length, take,
  filter, leb, ◌==◌, if◌then◌else◌,
}
use hawklive.Email.Tables.{member}
use hawklive.Sync.Status.{Status, mark_success, diagnostics}
use hawklive.Sync.Queue.{Reply, answered, same_set}
use hawklive.Diagnostics.{Scope, Entry, Outbox, Texts, same_scope, prune_queue, enqueue}

-- What a pass reads from outside besides the cloud: `time.monotonic`, the clock and a drawn
-- identifier.
pub record Readings : Type 0 where
  pub monotonic : ℕ
  pub pruned_at : ℕ
  pub uuid : ℕ
  pub written_at : ℕ
  pub enqueued_at : ℕ
  -- In milliseconds, as in Sync.
  pub marked_at : ℕ

-- The collector: its queue, `_last_diagnostic_snapshot`, what it shows of its channels, and the cloud.
pub record Sender (T C : Type 0) : Type 0 where
  pub outbox : Outbox T
  pub last_snapshot : ℕ
  pub status : Status
  pub cloud : C

-- The snapshot as a text, made of what was discarded; the level and the name that it is queued with;
-- and the request, whose messages are redacted again with the token of the collector.
pub record Collector (T C : Type 0) : Type 0 where
  pub texts : Texts T
  pub snapshot : ℕ → T
  pub info : T
  pub collector_snapshot : T
  pub redact : T → T
  pub post : List (Entry T) → C → Reply × C

-- payload.get("ok") with the identifiers that were sent as `accepted`
abbrev pub acknowledged : List ℕ → Reply → Bool
acknowledged sent (answered fine accepted) = fine && same_set accepted sent
acknowledged sent _ = false

-- now - last >= 300 or not last
abbrev pub snapshot_due : ℕ → ℕ → Bool
snapshot_due now last = leb (last + 300) now || last == 0

module _ {T : Type 0} where
  -- ORDER BY seq LIMIT 100
  abbrev pub batch_of : Scope → List (Entry T) → List (Entry T)
  batch_of scope rows = take 100 (filter (λ e. same_scope scope e.scope) rows)

  abbrev pub uuids_of : List (Entry T) → List ℕ
  uuids_of rows = map (λ e. e.record_uuid) rows

  abbrev pub is_sent : Scope → List ℕ → Entry T → Bool
  is_sent scope sent e = same_scope scope e.scope && member e.record_uuid sent

  unfoldable pub delete_sent : Scope → List ℕ → List (Entry T) → List (Entry T)
  delete_sent scope sent rows = filter (λ e. not (is_sent scope sent e)) rows

module _ {T C : Type 0} where
  abbrev pub pruned : Readings → Sender T C → Sender T C
  pruned r s = record s { outbox = prune_queue r.pruned_at s.outbox }

  abbrev pub with_snapshot : Collector T C → Scope → Readings → Sender T C → Sender T C
  with_snapshot c scope r s =
      if snapshot_due r.monotonic s.last_snapshot
      then record s {
        outbox =
            enqueue c.texts r.uuid scope r.written_at r.enqueued_at c.info c.collector_snapshot
              (c.snapshot s.outbox.discarded) s.outbox;
        last_snapshot = r.monotonic;
      }
      else s

  abbrev pub redacted : Collector T C → Entry T → Entry T
  redacted c e = record e { message = c.redact e.message }

  -- `none` where the pass raises.
  abbrev pub receive : Scope → ℕ → List (Entry T) → Sender T C → Reply × C → Option ℕ × Sender T C
  receive scope now logs s (reply, cloud) =
      let answered_s = record s { cloud = cloud } in
      if acknowledged (uuids_of logs) reply
      then (
        some (length logs),
        record answered_s {
          outbox = record s.outbox { rows = delete_sent scope (uuids_of logs) s.outbox.rows };
          status = mark_success now diagnostics s.status;
        },
      )
      else (none, answered_s)

  unfoldable pub send_logs :
      Collector T C → Scope → ℕ → List (Entry T) → Sender T C → Option ℕ × Sender T C
  send_logs c scope now [] s = (some 0, s)
  send_logs c scope now (e ∷ es) s =
      receive scope now (e ∷ es) s (c.post (map (redacted c) (e ∷ es)) s.cloud)

  abbrev pub prepared : Collector T C → Scope → Readings → Sender T C → Sender T C
  prepared c scope r s = with_snapshot c scope r (pruned r s)

  abbrev pub send_prepared : Collector T C → Scope → ℕ → Sender T C → Option ℕ × Sender T C
  send_prepared c scope now s = send_logs c scope now (batch_of scope s.outbox.rows) s

  -- `none` for the scope is a collector that has no customer yet.
  unfoldable pub sync_diagnostics_once :
      Collector T C → Option Scope → Readings → Sender T C → Option ℕ × Sender T C
  sync_diagnostics_once c none r s = (some 0, s)
  sync_diagnostics_once c (some scope) r s =
      send_prepared c scope r.marked_at (prepared c scope r s)
