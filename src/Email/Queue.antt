-- ===== src/Email/Queue.antt =====
-- `claim_notification`, `finish_notification` and `deliver_one`: the life of a row of the queue.
use hawklive.Prelude.{
  ℕ, ◌+◌, ◌-◌, ◌*◌, ◌^◌, min, Bool, true, false, not, ◌&&◌, ◌||◌, Option, none, some, List, [], ◌∷◌,
  any, ltb, leb, ◌==◌, if◌then◌else◌,
}
use hawklive.Email.Tables.{
  Kind, Status, pending, sending, sent, failed, cancelled, LastError, delivery_outcome_unknown,
  Payload, Notification, Settings, Event, Cloud, select, is_some, same, member, is_test, is_alarm,
  is_recovery, is_pending, is_sending, update_where, event_of, device_email_suppressed,
}

abbrev pub max_attempts : ℕ
max_attempts = 5

abbrev pub lease_seconds : ℕ
lease_seconds = 300

-- What `settings_data` returns of the policy.
pub record Policy : Type 0 where
  pub enabled : Bool
  pub recipients : List ℕ
  pub notify_recovery : Bool

abbrev pub policy_of : Option Settings → Policy
policy_of none = record { enabled = false; recipients = []; notify_recovery = true }
policy_of (some p) = record {
  enabled = p.enabled;
  recipients = p.recipients;
  notify_recovery = p.notify_recovery;
}

unfoldable pub settings_data : ℕ → List Settings → Policy
settings_data customer ps = policy_of (select (λ p. p.customer_id == customer) ps)

-- What a worker has of the row that it claimed.
pub record Job (V : Type 0) : Type 0 where
  pub id : ℕ
  pub customer_id : ℕ
  pub kind : Kind
  pub recipient : ℕ
  pub payload : Option (Payload V)
  pub attempts : ℕ
  pub event_uuid : Option ℕ
  pub claim_token : ℕ

pub data Claim (V : Type 0) : Type 0 where
  nothing skipped : Claim V
  claimed : Job V → Claim V

abbrev pub expired : ℕ → Option ℕ → Bool
expired now none = false
expired now (some t) = leb t now

abbrev pub sent_time : ℕ → Option LastError → Option ℕ → Option ℕ
sent_time now none before = some now
sent_time now (some e) before = before

abbrev pub backoff : ℕ → ℕ
backoff attempts = min 3600 (60 * 2 ^ (attempts - 1))

module _ {V : Type 0} where
  -- (status='pending' AND next_attempt_at<=now()) OR (status='sending' AND lease_until<=now())
  abbrev pub due : ℕ → Notification V → Bool
  due now n =
      (is_pending n.status && leb n.next_attempt_at now)
      || (is_sending n.status && expired now n.lease_until)

  abbrev pub earlier : Notification V → Notification V → Bool
  earlier m n = ltb m.created_at n.created_at || (m.created_at == n.created_at && ltb m.id n.id)

  abbrev pub pick : Notification V → Option (Notification V) → Notification V
  pick n none = n
  pick n (some m) = if earlier m n then m else n

  -- ORDER BY created_at, id LIMIT 1
  unfoldable pub earliest :
      (Notification V → Bool) → List (Notification V) → Option (Notification V)
  earliest p [] = none
  earliest p (n ∷ ns) = let rest = earliest p ns in if p n then some (pick n rest) else rest

  abbrev pub event_open : Option (Event V) → Bool
  event_open none = false
  event_open (some a) = not (is_some a.ended_at)

  abbrev pub open_event : ℕ → Option ℕ → Cloud V → Bool
  open_event customer none db = false
  open_event customer (some e) db = event_open (event_of customer e db.events)

  abbrev pub suppressed : ℕ → ℕ → Option ℕ → Cloud V → Bool
  suppressed now customer none db = true
  suppressed now customer (some e) db = device_email_suppressed now customer e db

  -- `cancelled`: the policy, the event and the device no longer call for the message.
  unfoldable pub withdrawn : ℕ → ℕ → Kind → ℕ → Option ℕ → Cloud V → Bool
  withdrawn now customer kind recipient event db =
      let policy = settings_data customer db.settings in
      not (member recipient policy.recipients)
      || (not (is_test kind)
          && (not policy.enabled || (is_recovery kind && not policy.notify_recovery)))
      || (is_alarm kind && not (open_event customer event db))
      || (not (is_test kind) && suppressed now customer event db)

  -- UPDATE email_notifications SET … WHERE id = …
  abbrev pub set_row : ℕ → (Notification V → Notification V) → Cloud V → Cloud V
  set_row id f db = record db { notifications = update_where (λ n. n.id == id) f db.notifications }

  abbrev pub withdraw : Bool → Notification V → Notification V
  withdraw uncertain n = record n {
    status = if uncertain then failed else cancelled;
    last_error = if uncertain then some delivery_outcome_unknown else none;
    claim_token = none;
    lease_until = none;
  }

  abbrev pub give_up : Notification V → Notification V
  give_up n = record n {
    status = failed;
    last_error = some delivery_outcome_unknown;
    claim_token = none;
    lease_until = none;
  }

  abbrev pub lease : ℕ → ℕ → ℕ → Notification V → Notification V
  lease now token attempts n = record n {
    status = sending;
    attempts = attempts;
    claim_token = some token;
    lease_until = some (now + lease_seconds);
  }

  abbrev pub job_of : ℕ → Notification V → Job V
  job_of token n = record {
    id = n.id;
    customer_id = n.customer_id;
    kind = n.kind;
    recipient = n.recipient;
    payload = n.payload;
    attempts = n.attempts + 1;
    event_uuid = n.event_uuid;
    claim_token = token;
  }

  abbrev pub claim_row : ℕ → ℕ → Cloud V → Option (Notification V) → Claim V × Cloud V
  claim_row now token db none = (nothing, db)
  claim_row now token db (some n) =
      if withdrawn now n.customer_id n.kind n.recipient n.event_uuid db
      then (skipped, set_row n.id (withdraw (is_sending n.status)) db)
      else if leb max_attempts n.attempts
      then (skipped, set_row n.id give_up db)
      else (claimed (job_of token n), set_row n.id (lease now token (n.attempts + 1)) db)

  -- `locked` are the ids of the rows that other transactions hold (SKIP LOCKED), and `token` is what
  -- `uuid4` draws.
  unfoldable pub claim_notification : ℕ → ℕ → (ℕ → Bool) → Cloud V → Claim V × Cloud V
  claim_notification now token locked db =
      claim_row now token db (earliest (λ n. due now n && not (locked n.id)) db.notifications)

  -- The row's status after the send, which raised `error` if any.
  abbrev pub finish_status : ℕ → Job V → Option LastError → Cloud V → Status
  finish_status now job none db = sent
  finish_status now job (some e) db =
      if withdrawn now job.customer_id job.kind job.recipient job.event_uuid db
      then cancelled
      else if leb max_attempts job.attempts
      then failed
      else pending

  abbrev pub finish_row : ℕ → Job V → Option LastError → Status → Notification V → Notification V
  finish_row now job error status n = record n {
    status = status;
    last_error = error;
    sent_at = sent_time now error n.sent_at;
    next_attempt_at = now + backoff job.attempts;
    claim_token = none;
    lease_until = none;
  }

  -- WHERE id=… AND status='sending' AND claim_token=…
  abbrev pub held : Job V → Notification V → Bool
  held job n = n.id == job.id && is_sending n.status && same n.claim_token job.claim_token

  unfoldable pub finish_notification : ℕ → Job V → Option LastError → Cloud V → Bool × Cloud V
  finish_notification now job error db = (
    any (held job) db.notifications,
    record db {
      notifications =
          update_where (held job) (finish_row now job error (finish_status now job error db))
            db.notifications;
    },
  )

  abbrev pub delivered :
      (Job V → Option LastError) → (Cloud V → Cloud V) → ℕ → Claim V → Cloud V → Bool × Cloud V
  delivered sender change finished nothing db = (false, db)
  delivered sender change finished skipped db = (true, db)
  delivered sender change finished (claimed job) db =
      (true, (finish_notification finished job (sender job) (change db)).1)

  -- `sender` gives the error that the send raises, if any, of those that the code catches; `finished`
  -- is the time at which it has returned, and `change` what others did to the database meanwhile.
  unfoldable pub deliver_one :
      (Job V → Option LastError)
      → (Cloud V → Cloud V)
      → ℕ
      → ℕ
      → ℕ
      → (ℕ → Bool)
      → Cloud V
      → Bool × Cloud V
  deliver_one sender change now finished token locked db =
      let r = claim_notification now token locked db in delivered sender change finished r.0 r.1
