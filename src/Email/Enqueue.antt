-- ===== src/Email/Enqueue.antt =====
-- `enqueue`, `enqueue_alarm`, and the parts of email_api.py that put rows on the queue or withdraw
-- them: the saved policy and the test message.
use hawklive.Prelude.{
  ℕ, ◌+◌, Bool, true, false, not, ◌&&◌, ◌||◌, Option, none, some, List, [], ◌∷◌, ◌++◌, any, ltb,
  ◌==◌, if◌then◌else◌, length,
}
use hawklive.Email.Tables.{
  Kind, alarm, recovery, test, pending, cancelled, Payload, Notification, Settings, Event, Cloud,
  select, chain, is_some, same, member, is_test, is_alarm, is_recovery, is_pending, update_where,
  event_of, device_email_suppressed,
}

pub data TestReply : Type 0 where
  no_recipients too_soon : TestReply
  queued : ℕ → TestReply

abbrev pub same_event : Option ℕ → Option ℕ → Bool
same_event (some a) (some b) = a == b
same_event _ _ = false

abbrev pub same_kind : Kind → Kind → Bool
same_kind alarm alarm = true
same_kind recovery recovery = true
same_kind test test = true
same_kind _ _ = false

-- SELECT recipients, … WHERE customer_id = … AND enabled = true
abbrev pub active_policy : ℕ → List Settings → Option Settings
active_policy customer = select (λ p. p.customer_id == customer && p.enabled)

-- SET enabled_since = CASE WHEN … AND NOT enabled THEN now() ELSE enabled_since END
abbrev pub resaved : ℕ → Settings → Settings → Settings
resaved now p old = record p {
  enabled_since = if p.enabled && not old.enabled then now else old.enabled_since;
  last_test_at = old.last_test_at;
}

abbrev pub first_saved : ℕ → Settings → Settings
first_saved now p = record p { enabled_since = now; last_test_at = none }

-- INSERT … ON CONFLICT DO NOTHING, then UPDATE.
unfoldable pub save_row : ℕ → Settings → List Settings → List Settings
save_row now p [] = first_saved now p ∷ []
save_row now p (q ∷ qs) =
    let rest = save_row now p qs in
    if q.customer_id == p.customer_id then resaved now p q ∷ qs else q ∷ rest

abbrev pub recently : ℕ → Option ℕ → Bool
recently now none = false
recently now (some t) = ltb now (t + 60)

abbrev pub is_empty : List ℕ → Bool
is_empty [] = true
is_empty (_ ∷ _) = false

abbrev pub update_settings : ℕ → (Settings → Settings) → List Settings → List Settings
update_settings customer f [] = []
update_settings customer f (q ∷ qs) =
    (if q.customer_id == customer then f q else q) ∷ update_settings customer f qs

module _ {V : Type 0} where
  -- UNIQUE(customer_id, event_uuid, kind, recipient), where two NULLs differ.
  abbrev pub conflicts : ℕ → Option ℕ → Kind → ℕ → Notification V → Bool
  conflicts customer event kind recipient n =
      n.customer_id == customer
      && same_event n.event_uuid event
      && same_kind n.kind kind
      && n.recipient == recipient

  -- The row that INSERT makes, with the defaults of the table.
  abbrev pub fresh : ℕ → ℕ → ℕ → Kind → ℕ → Option (Payload V) → Option ℕ → Notification V
  fresh now id customer kind recipient payload event = record {
    id = id;
    customer_id = customer;
    event_uuid = event;
    kind = kind;
    recipient = recipient;
    payload = payload;
    status = pending;
    attempts = 0;
    last_error = none;
    next_attempt_at = now;
    created_at = now;
    sent_at = none;
    claim_token = none;
    lease_until = none;
  }

  -- INSERT … ON CONFLICT … DO NOTHING
  unfoldable pub enqueue :
      ℕ
      → ℕ
      → ℕ
      → Kind
      → ℕ
      → Option (Payload V)
      → Option ℕ
      → List (Notification V)
      → List (Notification V)
  enqueue now id customer kind recipient payload event ns =
      if any (conflicts customer event kind recipient) ns
      then ns
      else ns ++ fresh now id customer kind recipient payload event ∷ []

  -- `for recipient in …: enqueue(…)`; `uuid4` draws the id of each.
  unfoldable pub enqueue_each :
      ℕ
      → (ℕ → ℕ)
      → ℕ
      → Kind
      → List ℕ
      → Option (Payload V)
      → Option ℕ
      → List (Notification V)
      → List (Notification V)
  enqueue_each now uuid customer kind [] payload event ns = ns
  enqueue_each now uuid customer kind (r ∷ rs) payload event ns =
      enqueue_each now uuid customer kind rs payload event
        (enqueue now (uuid r) customer kind r payload event ns)

  abbrev pub cancel : Notification V → Notification V
  cancel n = record n { status = cancelled }

  -- The active-state messages of the event that still wait.
  abbrev pub obsolete : ℕ → ℕ → Notification V → Bool
  obsolete customer event n =
      n.customer_id == customer && same n.event_uuid event && is_alarm n.kind && is_pending n.status

  -- The persisted event with the names of its cleanroom and of its device, if that is enabled.
  abbrev pub persisted : ℕ → ℕ → Cloud V → Option (Event V × Payload V)
  persisted customer event db = chain (event_of customer event db.events) λ a.
      chain (select (λ r. r.id == a.cleanroom_id && r.customer_id == customer) db.cleanrooms)
        λ room.
          chain
            (select (λ d. d.id == a.device_id && d.customer_id == customer && d.enabled) db.devices)
            λ device. some (
              a,
              record {
                event_uuid = event;
                started_at = a.started_at;
                ended_at = a.ended_at;
                metric = a.metric;
                trigger_value = a.trigger_value;
                peak_value = a.peak_value;
                limit = a.limit_description;
                room = room.name;
                device = device.name;
              },
            )

  abbrev pub kind_of : Event V → Kind
  kind_of a = if is_some a.ended_at then recovery else alarm

  -- A simulated event, or one from before the subscription.
  abbrev pub not_notified : Settings → Event V → Bool
  not_notified policy a = not a.from_device || ltb a.started_at policy.enabled_since

  abbrev pub notify :
      ℕ
      → (ℕ → ℕ)
      → ℕ
      → ℕ
      → Settings
      → Event V × Payload V
      → List (Notification V)
      → List (Notification V)
  notify now uuid customer event policy (a, payload) ns =
      if not_notified policy a
      then ns
      else (let recovered = is_some a.ended_at in
          let left = if recovered then update_where (obsolete customer event) cancel ns else ns in
          if recovered && not policy.notify_recovery
          then left
          else enqueue_each now uuid customer (kind_of a) policy.recipients (some payload)
              (some event) left)

  abbrev pub notified :
      ℕ
      → (ℕ → ℕ)
      → ℕ
      → ℕ
      → Cloud V
      → Option Settings
      → Option (Event V × Payload V)
      → List (Notification V)
  notified now uuid customer event db none row = db.notifications
  notified now uuid customer event db (some policy) none = db.notifications
  notified now uuid customer event db (some policy) (some row) =
      notify now uuid customer event policy row db.notifications

  unfoldable pub enqueue_alarm : ℕ → (ℕ → ℕ) → ℕ → ℕ → Cloud V → Cloud V
  enqueue_alarm now uuid customer event db =
      if device_email_suppressed now customer event db then db else record db {
        notifications =
            notified now uuid customer event db (active_policy customer db.settings)
              (persisted customer event db);
      }

  -- The rows that a saved policy withdraws.
  abbrev pub withdrawn_by : Settings → Notification V → Bool
  withdrawn_by p n =
      n.customer_id == p.customer_id
      && is_pending n.status
      && (not (member n.recipient p.recipients)
          || (not (is_test n.kind) && not p.enabled)
          || (is_recovery n.kind && not p.notify_recovery))

  -- PUT /api/email-alerts, with a policy that the request's schema accepted; of `p`, the times are
  -- not read.
  unfoldable pub save_settings : ℕ → Settings → Cloud V → Cloud V
  save_settings now p db = record db {
    settings = save_row now p db.settings;
    notifications = update_where (withdrawn_by p) cancel db.notifications;
  }

  abbrev pub send_test : ℕ → (ℕ → ℕ) → ℕ → Cloud V → Option Settings → TestReply × Cloud V
  send_test now uuid customer db none = (no_recipients, db)
  send_test now uuid customer db (some p) =
      if is_empty p.recipients
      then (no_recipients, db)
      else if recently now p.last_test_at
      then (too_soon, db)
      else (
        queued (length p.recipients),
        record db {
          notifications =
              enqueue_each now uuid customer test p.recipients none none db.notifications;
          settings =
              update_settings customer (λ q. record q { last_test_at = some now }) db.settings;
        },
      )

  -- POST /api/email-alerts/test, when SMTP is configured.
  unfoldable pub test_email : ℕ → (ℕ → ℕ) → ℕ → Cloud V → TestReply × Cloud V
  test_email now uuid customer db =
      send_test now uuid customer db (select (λ p. p.customer_id == customer) db.settings)
