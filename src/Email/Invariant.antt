-- ===== src/Email/Invariant.antt =====
-- The rows of the queue: at most five attempts, and a token and a lease exactly while a worker sends.
use hawklive.Prelude.{
  ℕ, ◌+◌, ◌≤◌, ◌≡◌, refl, sym, ap, subst, ◌∙◌, inl, inr, if-both, Bool-cases, Bool, true, false,
  not, ◌&&◌, Option, none, some, List, [], ◌∷◌, arith, All, All-append, any, leb, ◌==◌,
  if◌then◌else◌,
}
use hawklive.Email.Tables.{
  Kind, Status, pending, sending, sent, failed, cancelled, LastError, Payload, Notification,
  Settings, Cloud, is_some, is_pending, is_sending, update_where, device_email_suppressed,
}
use hawklive.Email.Enqueue.{
  conflicts, enqueue, enqueue_each, cancel, obsolete, active_policy, persisted, notified,
  enqueue_alarm, withdrawn_by, save_settings, kind_of, not_notified,
}
use hawklive.Email.Queue.{
  Job, Claim, nothing, skipped, claimed, delivered, withdrawn, withdraw, give_up, lease, claim_row,
  claim_notification, finish_status, held, finish_notification, deliver_one,
}

pending-sending : (s : Status) → is_pending s ≡ true → is_sending s ≡ false
pending-sending pending e = refl
pending-sending sending e = cc
pending-sending sent e = refl
pending-sending failed e = refl
pending-sending cancelled e = refl

module _ {V : Type 0} where
  pub record IsWellFormed (n : Notification V) : Type 0 where
    pub bounded : n.attempts ≤ 5
    pub token : is_some n.claim_token ≡ is_sending n.status
    pub leased : is_some n.lease_until ≡ is_sending n.status

  pub All-update_where :
      (P : Notification V → Type 0) (p : Notification V → Bool)
      (f : Notification V → Notification V) (ns : List (Notification V))
      → ((n : Notification V) → p n ≡ true → P n → P (f n))
      → All P ns
      → All P (update_where p f ns)
  All-update_where P p f [] h all = tt
  All-update_where P p f (n ∷ ns) h (a, all) = (
    elim (Bool-cases (p n)) [
      | inl e ↦ subst P (sym (ap (λ t. if t then f n else n) e)) (h n e a)
      | inr e ↦ subst P (sym (ap (λ t. if t then f n else n) e)) a
    ],
    All-update_where P p f ns h all,
  )

  pub cancel-IsWellFormed :
      (n : Notification V) → is_pending n.status ≡ true → IsWellFormed n → IsWellFormed (cancel n)
  cancel-IsWellFormed n e w = record {
    bounded = w.bounded;
    token = w.token ∙ pending-sending n.status e;
    leased = w.leased ∙ pending-sending n.status e;
  }

  enqueue-IsWellFormed :
      (now id customer : ℕ) (kind : Kind) (r : ℕ) (payload : Option (Payload V)) (event : Option ℕ)
      (ns : List (Notification V))
      → All IsWellFormed ns
      → All IsWellFormed (enqueue now id customer kind r payload event ns)
  unfolding enqueue
  enqueue-IsWellFormed now id customer kind r payload event ns h =
      if-both (All IsWellFormed) (any (conflicts customer event kind r) ns) h (
        All-append IsWellFormed ns _ h
          (record { bounded = omega arith; token = refl; leased = refl }, tt))

  pub enqueue_each-IsWellFormed :
      (now : ℕ) (uuid : ℕ → ℕ) (customer : ℕ) (kind : Kind) (rs : List ℕ)
      (payload : Option (Payload V)) (event : Option ℕ) (ns : List (Notification V))
      → All IsWellFormed ns
      → All IsWellFormed (enqueue_each now uuid customer kind rs payload event ns)
  unfolding enqueue_each
  enqueue_each-IsWellFormed now uuid customer kind [] payload event ns h = h
  enqueue_each-IsWellFormed now uuid customer kind (r ∷ rs) payload event ns h =
      enqueue_each-IsWellFormed now uuid customer kind rs payload event _
        (enqueue-IsWellFormed now (uuid r) customer kind r payload event ns h)

  notified-IsWellFormed :
      (now : ℕ) (uuid : ℕ → ℕ) (customer event : ℕ) (db : Cloud V) (p : Option Settings)
      (row : Option _)
      → All IsWellFormed db.notifications
      → All IsWellFormed (notified now uuid customer event db p row)
  notified-IsWellFormed now uuid customer event db none row h = h
  notified-IsWellFormed now uuid customer event db (some p) none h = h
  notified-IsWellFormed now uuid customer event db (some p) (some (a, payload)) h =
      let left =
        if-both (All IsWellFormed) (is_some a.ended_at)
          (All-update_where IsWellFormed (obsolete customer event) cancel db.notifications
            (λ n e w. cancel-IsWellFormed n (ground arith) w) h)
          h in
      if-both (All IsWellFormed) (not_notified p a) h (
        if-both (All IsWellFormed) (is_some a.ended_at && not p.notify_recovery) left (
          enqueue_each-IsWellFormed now uuid customer (kind_of a) p.recipients (some payload)
            (some event) _ left))

  -- Reporting an event, whatever it is and whatever the policy, keeps well-formed rows well-formed, and
  -- the rows that it adds are well-formed.
  pub enqueue_alarm-IsWellFormed :
      (now : ℕ) (uuid : ℕ → ℕ) (customer event : ℕ) (db : Cloud V)
      → All IsWellFormed db.notifications
      → All IsWellFormed (enqueue_alarm now uuid customer event db).notifications
  unfolding enqueue_alarm
  enqueue_alarm-IsWellFormed now uuid customer event db h =
      let row = persisted customer event db in
      let queue = notified now uuid customer event db (active_policy customer db.settings) row in
      if-both (λ (d : Cloud V). All IsWellFormed d.notifications)
        (device_email_suppressed now customer event db) {a = db}
        {b = record db { notifications = queue }} h
        (notified-IsWellFormed now uuid customer event db _ row h)

  -- Saving a policy keeps well-formed rows well-formed, those that it withdraws among them.
  pub save_settings-IsWellFormed :
      (now : ℕ) (p : Settings) (db : Cloud V)
      → All IsWellFormed db.notifications
      → All IsWellFormed (save_settings now p db).notifications
  unfolding save_settings
  save_settings-IsWellFormed now p db h =
      All-update_where IsWellFormed (withdrawn_by p) cancel db.notifications
        (λ n e w. cancel-IsWellFormed n (ground arith) w) h

  give_up-IsWellFormed : (n : Notification V) → IsWellFormed n → IsWellFormed (give_up n)
  give_up-IsWellFormed n w = record { bounded = w.bounded; token = refl; leased = refl }

  withdraw-IsWellFormed :
      (uncertain : Bool) (n : Notification V) → IsWellFormed n → IsWellFormed (withdraw uncertain n)
  withdraw-IsWellFormed true n w = record { bounded = w.bounded; token = refl; leased = refl }
  withdraw-IsWellFormed false n w = record { bounded = w.bounded; token = refl; leased = refl }

  claim_row-IsWellFormed :
      (now token : ℕ) (db : Cloud V) (r : Option (Notification V))
      → All IsWellFormed db.notifications
      → All IsWellFormed (claim_row now token db r).1.notifications
  claim_row-IsWellFormed now token db none h = h
  claim_row-IsWellFormed now token db (some n) h =
      let P : Claim V × Cloud V → Type 0 = λ r. All IsWellFormed r.1.notifications in
      if-both P (withdrawn now n.customer_id n.kind n.recipient n.event_uuid db)
        (All-update_where IsWellFormed _ _ db.notifications
          (λ m e w. withdraw-IsWellFormed (is_sending n.status) m w) h)
        (elim (Bool-cases (leb 5 n.attempts)) [
          | inl e ↦ rw e (
              All-update_where IsWellFormed _ _ db.notifications (λ m e w. give_up-IsWellFormed m w)
                h)
          | inr e ↦ rw e (
              All-update_where IsWellFormed (λ m. m.id == n.id) (lease now token (n.attempts + 1))
                db.notifications
                (λ m _ w. record { bounded = ground (arith, e); token = refl; leased = refl }) h)
        ])

  pub claim_notification-IsWellFormed :
      (now token : ℕ) (locked : ℕ → Bool) (db : Cloud V)
      → All IsWellFormed db.notifications
      → All IsWellFormed (claim_notification now token locked db).1.notifications
  unfolding claim_notification
  claim_notification-IsWellFormed now token locked db h = claim_row-IsWellFormed now token db _ h

  finish_status-sending :
      (now : ℕ) (job : Job V) (error : Option LastError) (db : Cloud V)
      → is_sending (finish_status now job error db) ≡ false
  finish_status-sending now job none db = refl
  finish_status-sending now job (some e) db =
      if-both (λ s. is_sending s ≡ false)
        (withdrawn now job.customer_id job.kind job.recipient job.event_uuid db) {a = cancelled}
        refl
        (if-both (λ s. is_sending s ≡ false) (leb 5 job.attempts) {a = failed} {b = pending} refl
          refl)

  pub finish_notification-IsWellFormed :
      (now : ℕ) (job : Job V) (error : Option LastError) (db : Cloud V)
      → All IsWellFormed db.notifications
      → All IsWellFormed (finish_notification now job error db).1.notifications
  unfolding finish_notification
  finish_notification-IsWellFormed now job error db h =
      All-update_where IsWellFormed (held job) _ db.notifications
        (λ n e w. record {
          bounded = w.bounded;
          token = sym (finish_status-sending now job error db);
          leased = sym (finish_status-sending now job error db);
        })
        h

  delivered-IsWellFormed :
      (sender : Job V → Option LastError) (change : Cloud V → Cloud V) (finished : ℕ) (c : Claim V)
      (db : Cloud V)
      → ((d : Cloud V)
          → All IsWellFormed d.notifications
          → All IsWellFormed (change d).notifications)
      → All IsWellFormed db.notifications
      → All IsWellFormed (delivered sender change finished c db).1.notifications
  delivered-IsWellFormed sender change finished nothing db keeps h = h
  delivered-IsWellFormed sender change finished skipped db keeps h = h
  delivered-IsWellFormed sender change finished (claimed job) db keeps h =
      finish_notification-IsWellFormed finished job (sender job) (change db) (keeps db h)

  -- Whatever the row that a worker claims, whatever its send raises, and whatever others do to the
  -- database in between that keeps the rows well-formed: after `deliver_one` no row has had more than
  -- five attempts, and a row has a claim token, and a lease, exactly while its status is `sending`.
  pub deliver_one-IsWellFormed :
      (sender : Job V → Option LastError) (change : Cloud V → Cloud V) (now finished token : ℕ)
      (locked : ℕ → Bool) (db : Cloud V)
      → ((d : Cloud V)
          → All IsWellFormed d.notifications
          → All IsWellFormed (change d).notifications)
      → All IsWellFormed db.notifications
      → All IsWellFormed (deliver_one sender change now finished token locked db).1.notifications
  unfolding deliver_one
  deliver_one-IsWellFormed sender change now finished token locked db keeps h =
      let r = claim_notification now token locked db in
      delivered-IsWellFormed sender change finished r.0 r.1 keeps
        (claim_notification-IsWellFormed now token locked db h)
