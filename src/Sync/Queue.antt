-- ===== src/Sync/Queue.antt =====
-- `sync_once` and `sync_alarms_once`: a batch of rows is sent, the rows of a batch that the cloud
-- refuses are sent one by one, and a row that is refused again and again is put aside. `P` is what a
-- row holds besides its keys, `C` is the state of the cloud and of the way to it.
use hawklive.Prelude.{
  ℕ, ◌+◌, Bool, true, false, not, ◌&&◌, ◌||◌, Option, none, some, List, [], ◌∷◌, map, ltb, leb,
  ◌==◌, if◌then◌else◌, any, take, filter, count_where,
}
use hawklive.Email.Tables.{is_some, member}
use hawklive.Sync.Status.{Error, http, unreachable, unreadable, rejected, unacknowledged}

-- A row of readings or of alarm_events; `timestamp` is started_at there. Rows stand in the order of
-- their ids.
pub record Item (P : Type 0) : Type 0 where
  pub uuid : ℕ
  pub customer_id : ℕ
  pub site_id : Option ℕ
  pub from_device : Bool
  pub assigned : Bool
  pub timestamp : ℕ
  pub synced_at : Option ℕ
  pub sync_attempts : ℕ
  pub sync_error : Option Error
  pub sync_quarantined_at : Option ℕ
  pub content : P

pub record Options : Type 0 where
  pub site_id : ℕ
  pub customer_id : Option ℕ
  pub batch_size : ℕ
  pub max_item_attempts : ℕ

-- What came back for a request: `unreadable` is a body or an identifier that raises ValueError.
pub data Reply : Type 0 where
  refused : ℕ → Reply
  no_answer : Reply
  no_reading : Reply
  answered : Bool → List ℕ → Reply

-- The two tables: only a reading has to name a cleanroom and a device.
pub data Table : Type 0 where
  reading_table alarm_table : Table

abbrev pub same_site : ℕ → Option ℕ → Bool
same_site site none = false
same_site site (some s) = s == site

abbrev pub of_customer : Option ℕ → ℕ → Bool
of_customer none c = true
of_customer (some customer) c = c == customer

-- accepted == {canonical_uuid(value) for value in sent}
unfoldable pub same_set : List ℕ → List ℕ → Bool
same_set accepted sent =
    not (any (λ a. not (member a sent)) accepted) && not (any (λ s. not (member s accepted)) sent)

-- The error that a reply raises, if it does.
unfoldable pub judge : List ℕ → Reply → Option Error
judge sent (refused code) = some (http code)
judge sent no_answer = some unreachable
judge sent no_reading = some unreadable
judge sent (answered fine accepted) =
    if not fine then some rejected else if same_set accepted sent then none else some unacknowledged

-- `_permanent_item_error`
unfoldable pub permanent_item_error : Error → Bool
permanent_item_error (http code) = code == 400 || code == 422
permanent_item_error _ = false

abbrev pub is_http : Error → Bool
is_http (http code) = true
is_http _ = false

-- COALESCE(sync_quarantined_at, ?)
abbrev pub coalesce : Option ℕ → ℕ → Option ℕ
coalesce none t = some t
coalesce (some s) t = some s

abbrev pub earlier : ℕ → Option ℕ → Option ℕ
earlier t none = some t
earlier t (some u) = if ltb u t then some u else some t

module _ {P : Type 0} where
  abbrev pub needs_place : Table → Item P → Bool
  needs_place reading_table r = r.assigned
  needs_place alarm_table r = true

  -- synced_at IS NULL AND site_id = ? AND source = 'device' AND sync_quarantined_at IS NULL AND …
  unfoldable pub is_due : Table → Options → Item P → Bool
  is_due q o r =
      not (is_some r.synced_at)
      && same_site o.site_id r.site_id
      && r.from_device
      && not (is_some r.sync_quarantined_at)
      && needs_place q r
      && of_customer o.customer_id r.customer_id

  -- ORDER BY sync_attempts, timestamp
  unfoldable pub before : Item P → Item P → Bool
  before x y =
      ltb x.sync_attempts y.sync_attempts
      || (x.sync_attempts == y.sync_attempts && leb x.timestamp y.timestamp)

  unfoldable pub insert : Item P → List (Item P) → List (Item P)
  insert x [] = x ∷ []
  insert x (y ∷ ys) = let rest = insert x ys in if before x y then x ∷ y ∷ ys else y ∷ rest

  unfoldable pub order : List (Item P) → List (Item P)
  order [] = []
  order (x ∷ xs) = insert x (order xs)

  -- `_pending_rows`
  unfoldable pub pending_rows : Table → Options → List (Item P) → List (Item P)
  pending_rows q o rs = take o.batch_size (order (filter (is_due q o) rs))

  unfoldable pub pending_count : Options → List (Item P) → ℕ
  pending_count o = count_where (is_due reading_table o)

  -- The count of one table; quarantined_count adds both.
  unfoldable pub quarantined_count : Options → List (Item P) → ℕ
  quarantined_count o = count_where (λ r.
      same_site o.site_id r.site_id
      && r.from_device
      && is_some r.sync_quarantined_at
      && of_customer o.customer_id r.customer_id)

  unfoldable pub unassigned_count : Table → Options → List (Item P) → ℕ
  unassigned_count q o = count_where (λ r.
      r.from_device
      && not (is_some r.synced_at)
      && not (is_some r.sync_quarantined_at)
      && not (same_site o.site_id r.site_id)
      && needs_place q r)

  unfoldable pub oldest_pending_at : Options → List (Item P) → Option ℕ
  oldest_pending_at o [] = none
  oldest_pending_at o (r ∷ rs) =
      let rest = oldest_pending_at o rs in
      if is_due reading_table o r then earlier r.timestamp rest else rest

  -- UPDATE … SET … WHERE … IN (…)
  abbrev pub update : List ℕ → (Item P → Item P) → List (Item P) → List (Item P)
  update ids f = map (λ r. if member r.uuid ids then f r else r)

  abbrev pub fail_row : ℕ → ℕ → Error → Bool → Item P → Item P
  fail_row now limit e true r = record r {
    sync_attempts = r.sync_attempts + 1;
    sync_error = some e;
    sync_quarantined_at =
        if leb limit (r.sync_attempts + 1)
        then coalesce r.sync_quarantined_at now
        else r.sync_quarantined_at;
  }
  fail_row now limit e false r = record r { sync_error = some e }

  -- `_record_queue_failure`, whose count of rows put aside only goes to the log.
  unfoldable pub record_queue_failure :
      Options → ℕ → List ℕ → Error → Bool → List (Item P) → List (Item P)
  record_queue_failure o now ids e permanent =
      update ids (fail_row now o.max_item_attempts e permanent)

  abbrev pub mark_row : ℕ → Item P → Item P
  mark_row now r = record r { synced_at = some now; sync_error = none; sync_quarantined_at = none }

  -- UPDATE … SET synced_at = ?, sync_error = NULL, sync_quarantined_at = NULL WHERE …
  unfoldable pub mark_synced : ℕ → List ℕ → List (Item P) → List (Item P)
  mark_synced now ids = update ids (mark_row now)

  abbrev pub uuids : List (Item P) → List ℕ
  uuids = map (λ r. r.uuid)
