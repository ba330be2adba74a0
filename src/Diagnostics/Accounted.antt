-- ===== src/Diagnostics/Accounted.antt =====
-- What becomes of the rows of the queue of log entries in a pass.
use hawklive.Prelude.{
  ℕ, suc, ◌+◌, ◌≤◌, not, ◌&&◌, Option, none, some, List, ◌≡◌, length, filter, if◌then◌else◌,
}
use hawklive.Email.Tables.{member}
use hawklive.Diagnostics.{Entry, Scope, local_log_limit, same_scope}
use hawklive.Diagnostics.Bounded.{IsCounted}
use hawklive.Diagnostics.Upload.{Readings, Sender, snapshot_due, uuids_of}

-- The rows of other collectors and of other tenants.
abbrev pub others : {T : Type 0} → Scope → List (Entry T) → List (Entry T)
others scope rows = filter (λ e. not (same_scope scope e.scope)) rows

-- The rows that are not of the scope, or not among those rows.
abbrev pub besides : {T : Type 0} → Scope → List (Entry T) → List (Entry T) → List (Entry T)
besides scope batch rows =
    filter (λ e. not (same_scope scope e.scope && member e.record_uuid (uuids_of batch))) rows

-- A pass that raises leaves as many rows as were prepared; one that returns a number sent that batch,
-- of a hundred rows at most, and leaves exactly the other rows, and what was discarded as it was.
abbrev pub IsAccounted :
    {T C : Type 0} → ℕ → Scope → List (Entry T) → Sender T C → Option ℕ × Sender T C → Type 0
IsAccounted total scope batch before (none, s) =
    IsCounted total s.outbox × (s.outbox ≡ before.outbox)
IsAccounted total scope batch before (some n, s) =
    (length s.outbox.rows ≤ local_log_limit)
    × (n ≡ length batch)
    × (n ≤ 100)
    × (s.outbox.rows ≡ besides scope batch before.outbox.rows)
    × (others scope s.outbox.rows ≡ others scope before.outbox.rows)
    × (s.outbox.discarded ≡ before.outbox.discarded)

module _ {T C : Type 0} where
  -- The rows of the queue with what was discarded, and the snapshot if one is due.
  abbrev pub total_of : Readings → Sender T C → ℕ
  total_of r s =
      let n = length s.outbox.rows + s.outbox.discarded in
      if snapshot_due r.monotonic s.last_snapshot then suc n else n
