-- ===== src/Diagnostics.antt =====
-- collector_diagnostics.py and `sync_diagnostics_once` of cloud_sync.py: the bounded queue of log
-- entries of a collector, and its way to the cloud. `T` is the type of texts; identifiers are numbers,
-- times are seconds.
pub mod Bounded
pub mod Upload
pub mod Accounted
pub mod Stored
pub mod Kept
mod Tests
use hawklive.Prelude.{
  ℕ, suc, ◌+◌, ◌-◌, ◌*◌, Bool, true, false, not, ◌&&◌, ◌||◌, Option, none, some, List, [], ◌∷◌,
  ◌++◌, map, length, drop, take, any, filter, ltb, leb, ◌==◌, if◌then◌else◌, Result, ok, err,
}

abbrev pub local_log_limit : ℕ
local_log_limit = 20000

abbrev pub local_log_seconds : ℕ
local_log_seconds = 7 * 86400

pub record Scope : Type 0 where
  pub customer_id : ℕ
  pub site_id : ℕ
  pub instance_id : ℕ

-- A row of diagnostic_outbox.
pub record Entry (T : Type 0) : Type 0 where
  pub seq : ℕ
  pub record_uuid : ℕ
  pub scope : Scope
  pub timestamp : ℕ
  pub level : T
  pub event : T
  pub message : T

-- The rows in the order of seq, the last seq that was given out, and diagnostic_queue_stats.
pub record Outbox (T : Type 0) : Type 0 where
  pub rows : List (Entry T)
  pub sequence : ℕ
  pub discarded : ℕ

-- str.upper, a slice from the start, and redact.
pub record Texts (T : Type 0) : Type 0 where
  pub upper : T → T
  pub cut : ℕ → T → T
  pub redact : T → T

abbrev pub same_scope : Scope → Scope → Bool
same_scope a b =
    a.customer_id == b.customer_id && a.site_id == b.site_id && a.instance_id == b.instance_id

module _ {T : Type 0} where
  -- not timestamp < now - LOCAL_LOG_SECONDS
  abbrev pub is_recent : ℕ → Entry T → Bool
  is_recent now e = not (ltb (e.timestamp + local_log_seconds) now)

  -- All but the newest rows, as far as the limit.
  abbrev pub newest : List (Entry T) → List (Entry T)
  newest rows = drop (length rows - local_log_limit) rows

  unfoldable pub prune_queue : ℕ → Outbox T → Outbox T
  prune_queue now o =
      let recent = filter (is_recent now) o.rows in
      let expired = length o.rows - length recent in
      let kept = newest recent in
      let overflow = length recent - length kept in
      let pruned = record o { rows = kept } in
      if ltb 0 (expired + overflow)
      then record pruned { discarded = o.discarded + (expired + overflow) }
      else pruned

  abbrev pub new_entry : Texts T → ℕ → Scope → ℕ → T → T → T → ℕ → Entry T
  new_entry texts uuid scope now level event message seq = record {
    seq = seq;
    record_uuid = uuid;
    scope = scope;
    timestamp = now;
    level = texts.cut 16 (texts.upper level);
    event = texts.cut 100 (texts.redact event);
    message = texts.redact message;
  }

  abbrev pub insert_entry : (ℕ → Entry T) → Outbox T → Outbox T
  insert_entry entry o = record o {
    rows = o.rows ++ entry (suc o.sequence) ∷ [];
    sequence = suc o.sequence;
  }

  -- `uuid` is drawn; the clock is read for the row and again for what is pruned.
  unfoldable pub enqueue : Texts T → ℕ → Scope → ℕ → ℕ → T → T → T → Outbox T → Outbox T
  enqueue texts uuid scope now later level event message o =
      prune_queue later (insert_entry (new_entry texts uuid scope now level event message) o)
