-- ===== src/Sync/Tests.antt =====
-- A queue of two readings, one of which the cloud refuses.
use hawklive.Prelude.{
  ◌≤◌, ◌+◌, ℕ, zero, ◌*◌, ◌^◌, Bool, true, false, not, ◌&&◌, ◌||◌, none, some, List, [], ◌∷◌, ◌≡◌,
  ◌↔◌, refl, subst, sym, inl, inr, arith, ok, err, if◌then◌else◌, Bool-cases, any, All, All-imply,
  ==_refl, ◌==◌,
}
use hawklive.Email.Tables.{member}
use hawklive.Sync.Status.{
  latest, heartbeat, http, mark_failure, unreachable, unacknowledged, Status, Service, Plan,
  connected, connection_state, mark_success, channel_round,
}
use hawklive.Sync.Queue.{
  Item, Options, Reply, refused, no_answer, answered, reading_table, alarm_table, same_set, judge,
  permanent_item_error, is_due, before, insert, order, pending_rows, pending_count,
  unassigned_count, oldest_pending_at, mark_synced, uuids,
}
use hawklive.Sync.Upload.{Remote, State, upload_rows, sync_batch, sync_once, sync_alarms_once}
use hawklive.Sync.Delivery.{IsCounted, sync_once-IsCounted}
use hawklive.Sync.Drain.{IsDecisive, passes, passes-drain}
use hawklive.Sync.Retry.{sync_once-resends, mark_synced-none_due}
use hawklive.Sync.Channels.{
  error_of, channel_errors-apart, mark_success-connected, OnlyOf, Waits, channel_round-Waits,
}

abbrev options : Options
options = record { site_id = 2; customer_id = some 1; batch_size = 10; max_item_attempts = 2 }

abbrev item : ℕ → ℕ → Item ℕ
item uuid time = record {
  uuid = uuid;
  customer_id = 1;
  site_id = some 2;
  from_device = true;
  assigned = true;
  timestamp = time;
  synced_at = none;
  sync_attempts = 0;
  sync_error = none;
  sync_quarantined_at = none;
  content = 0;
}

-- A cloud that counts requests and takes no row of the identifier 9.
abbrev picky : Remote ℕ ℕ
picky = record {
  post = λ batch n.
      if member 9 (uuids batch) then (refused 422, n) else (answered true (uuids batch), n);
  clock = λ n. 500;
}

-- A cloud that cannot be reached.
abbrev silent : Remote ℕ ℕ
silent = record { post = λ batch n. (no_answer, n); clock = λ n. 500 }

abbrev status : Status
status = record {
  last_success_at = some 400;
  last_error_at = none;
  channel_errors = [];
  consecutive_failures = 0;
}

abbrev queue : State ℕ ℕ
queue = record {
  status = status;
  world = record { rows = item 8 120 ∷ item 9 110 ∷ []; cloud = 0 };
}

-- The older row goes first.
first_batch : uuids (pending_rows reading_table options queue.world.rows) ≡ 9 ∷ 8 ∷ []
unfolding pending_rows order insert before is_due
first_batch = refl

counts :
    (pending_count options queue.world.rows ≡ 2)
    × (unassigned_count reading_table options queue.world.rows ≡ 0)
    × (oldest_pending_at options queue.world.rows ≡ some 110)
unfolding pending_count unassigned_count oldest_pending_at is_due
counts = (refl, refl, refl)

-- An alarm event goes up without a cleanroom.
alarm_up :
    (sync_alarms_once picky options (record queue {
      world = record { rows = record (item 8 120) { assigned = false } ∷ []; cloud = 0 };
    })).0
    ≡ ok 1
unfolding sync_alarms_once sync_batch upload_rows pending_rows order insert before is_due judge
    same_set mark_synced mark_success
alarm_up = refl

sync_once-IsCounted_example : All (IsCounted options) (sync_once picky options queue).1.world.rows
sync_once-IsCounted_example = sync_once-IsCounted picky options queue (λ h. refl, (λ h. refl, tt))

not_missing :
    (ys xs : List ℕ) → All (λ a. member a ys ≡ true) xs → any (λ a. not (member a ys)) xs ≡ false
not_missing ys [] all = refl
not_missing ys (x ∷ xs) all =
    subst (λ b. (not b || any (λ a. not (member a ys)) xs) ≡ false) (sym all.0)
      (not_missing ys xs all.1)

All-member : (xs : List ℕ) → All (λ a. member a xs ≡ true) xs
All-member [] = tt
All-member (x ∷ xs) = (
  subst (λ b. (b || member x xs) ≡ true) (sym (==_refl x)) refl,
  All-imply (λ a. member a xs ≡ true) (λ a. member a (x ∷ xs) ≡ true) xs (λ a h. later (x == a) h)
      (All-member xs),
)
  where
    later : (b : Bool) {c : Bool} → c ≡ true → (b || c) ≡ true
    later true h = refl
    later false h = h

same_set_refl : (xs : List ℕ) → same_set xs xs ≡ true
unfolding same_set
same_set_refl xs =
    subst (λ b. (not b && not b) ≡ true) (sym (not_missing xs xs (All-member xs))) refl

picky-IsDecisive : IsDecisive picky
unfolding judge permanent_item_error
picky-IsDecisive batch n =
    let us = uuids batch in
    let choose : Bool → Reply × ℕ = λ b. if b then (refused 422, n) else (answered true us, n) in
    elim (Bool-cases (member 9 us)) [
      | inl e ↦
          inr (http 422, subst (λ b. judge us (choose b).0 ≡ some (http 422)) (sym e) refl, refl)
      | inr e ↦ inl (
          subst (λ b. judge us (choose b).0 ≡ none) (sym e)
            (subst (λ b. (if b then none else some unacknowledged) ≡ none) (sym (same_set_refl us))
              refl))
    ]

passes-drain_example : pending_count options (passes picky options 6 queue).world.rows ≡ 0
unfolding is_due
passes-drain_example =
    passes-drain picky options 6 queue picky-IsDecisive (omega arith) (omega arith)

sync_once-resends_example :
    ((sync_once silent options queue).0 ≡ err unreachable)
    × (uuids (pending_rows reading_table options (sync_once silent options queue).1.world.rows)
        ≡ 9 ∷ 8 ∷ [])
unfolding pending_rows order insert before is_due judge permanent_item_error
sync_once-resends_example =
    sync_once-resends silent options queue (item 9 110) (item 8 120 ∷ []) unreachable refl refl refl

mark_synced-none_due_example :
    All
      (λ r. member r.uuid (8 ∷ []) ≡ true → is_due alarm_table options r ≡ false)
      (mark_synced 500 (8 ∷ []) (item 8 120 ∷ []))
mark_synced-none_due_example =
    mark_synced-none_due alarm_table options 500 (8 ∷ []) (item 8 120 ∷ [])

mark_success-connected_example :
    (connection_state 90500 true 0 0 (mark_success 500 latest status) ≡ connected) ↔ (
      (true ≡ true)
      × (90500 ≤ 500 + 90000)
      × OnlyOf latest status.channel_errors
      × (zero ≡ 0)
      × (zero ≡ 0))
mark_success-connected_example = mark_success-connected 500 90500 0 0 true latest status

abbrev service : Service ℕ
service = record { status = status; world = 0 }

abbrev plan : Plan
plan = record { name = latest; interval = 10000; drain = false }

channel_round-Waits_example :
    Waits
      (λ k. 1000 * 2 ^ k)
      500
      plan
      3
      (err unreachable)
      (channel_round (λ k. 1000 * 2 ^ k) 500 true plan (λ s. (err unreachable, s)) 3 service)
channel_round-Waits_example =
    channel_round-Waits (λ k. 1000 * 2 ^ k) 500 plan (λ s. (err unreachable, s)) 3 service
      (λ k. omega arith)

channel_errors-apart_example :
    (error_of heartbeat (mark_success 500 latest status).channel_errors ≡ none)
    × (error_of heartbeat (mark_failure 500 latest (http 500) status).channel_errors ≡ none)
channel_errors-apart_example = channel_errors-apart 500 latest heartbeat (http 500) status
