-- ===== src/Email/Repeat.antt =====
-- Events come in more than once: what a repeated `enqueue_alarm` does.
use hawklive.Prelude.{
  ℕ, ◌≡◌, refl, ap, ◌∙◌, inl, inr, if-both, Bool-cases, Bool, true, false, not, ◌&&◌, ◌||◌, Option,
  none, some, List, [], ◌∷◌, ◌++◌, arith, All, All-append, any, if◌then◌else◌,
}
use hawklive.Email.Tables.{
  Kind, alarm, recovery, test, Payload, Notification, Settings, Event, Cloud, is_some, update_where,
  device_email_suppressed,
}
use hawklive.Email.Enqueue.{
  same_kind, conflicts, fresh, enqueue, enqueue_each, cancel, obsolete, active_policy, persisted,
  not_notified, notified, enqueue_alarm,
}

same_kind_refl : (k : Kind) → same_kind k k ≡ true
same_kind_refl alarm = refl
same_kind_refl recovery = refl
same_kind_refl test = refl

module _ {V : Type 0} where
  any-append :
      (p : Notification V → Bool) (ns ms : List (Notification V))
      → any p (ns ++ ms) ≡ (any p ns || any p ms)
  any-append p [] ms = refl
  any-append p (n ∷ ns) ms = ground (arith, any-append p ns ms)

  enqueue-keeps :
      (p : Notification V → Bool) (now id c : ℕ) (k : Kind) (r : ℕ) (payload : Option (Payload V))
      (event : Option ℕ) (ns : List (Notification V))
      → any p ns ≡ true
      → any p (enqueue now id c k r payload event ns) ≡ true
  unfolding enqueue
  enqueue-keeps p now id c k r payload event ns h =
      if-both (λ l. any p l ≡ true) (any (conflicts c event k r) ns) h
        (ground (arith, any-append p ns (fresh now id c k r payload event ∷ []), h))

  enqueue_each-keeps :
      (p : Notification V → Bool) (now : ℕ) (uuid : ℕ → ℕ) (c : ℕ) (k : Kind) (rs : List ℕ)
      (payload : Option (Payload V)) (event : Option ℕ) (ns : List (Notification V))
      → any p ns ≡ true
      → any p (enqueue_each now uuid c k rs payload event ns) ≡ true
  unfolding enqueue_each
  enqueue_each-keeps p now uuid c k [] payload event ns h = h
  enqueue_each-keeps p now uuid c k (r ∷ rs) payload event ns h =
      enqueue_each-keeps p now uuid c k rs payload event _
        (enqueue-keeps p now (uuid r) c k r payload event ns h)

  enqueue-present :
      (now id c : ℕ) (k : Kind) (r : ℕ) (payload : Option (Payload V)) (e : ℕ)
      (ns : List (Notification V))
      → any (conflicts c (some e) k r) (enqueue now id c k r payload (some e) ns) ≡ true
  unfolding enqueue
  enqueue-present now id c k r payload e ns = ground (
    arith,
    any-append (conflicts c (some e) k r) ns (fresh now id c k r payload (some e) ∷ []),
    same_kind_refl k,
  )

  abbrev Present : ℕ → Kind → ℕ → List (Notification V) → ℕ → Type 0
  Present c k e ns r = any (conflicts c (some e) k r) ns ≡ true

  enqueue_each-Present :
      (now : ℕ) (uuid : ℕ → ℕ) (c : ℕ) (k : Kind) (rs : List ℕ) (payload : Option (Payload V))
      (e : ℕ) (ns : List (Notification V))
      → All (Present c k e (enqueue_each now uuid c k rs payload (some e) ns)) rs
  unfolding enqueue_each
  enqueue_each-Present now uuid c k [] payload e ns = tt
  enqueue_each-Present now uuid c k (r ∷ rs) payload e ns =
      let ns' = enqueue now (uuid r) c k r payload (some e) ns in
      (
        enqueue_each-keeps (conflicts c (some e) k r) now uuid c k rs payload (some e) ns'
            (enqueue-present now (uuid r) c k r payload e ns),
        enqueue_each-Present now uuid c k rs payload e ns',
      )

  enqueue_each-again :
      (now : ℕ) (uuid : ℕ → ℕ) (c : ℕ) (k : Kind) (rs : List ℕ) (payload : Option (Payload V))
      (e : ℕ) (ns : List (Notification V))
      → All (Present c k e ns) rs
      → enqueue_each now uuid c k rs payload (some e) ns ≡ ns
  unfolding enqueue_each enqueue
  enqueue_each-again now uuid c k [] payload e ns h = refl
  enqueue_each-again now uuid c k (r ∷ rs) payload e ns h =
      ap
        (λ t.
          enqueue_each now uuid c k rs payload (some e)
            (if t then ns else ns ++ fresh now (uuid r) c k r payload (some e) ∷ []))
        h.0
      ∙ enqueue_each-again now uuid c k rs payload e ns h.1

  abbrev Left : ℕ → ℕ → Notification V → Type 0
  Left c e n = obsolete c e n ≡ false

  enqueue_each-Left :
      (now : ℕ) (uuid : ℕ → ℕ) (c : ℕ) (rs : List ℕ) (payload : Option (Payload V)) (e : ℕ)
      (ns : List (Notification V))
      → All (Left c e) ns
      → All (Left c e) (enqueue_each now uuid c recovery rs payload (some e) ns)
  unfolding enqueue_each enqueue
  enqueue_each-Left now uuid c [] payload e ns h = h
  enqueue_each-Left now uuid c (r ∷ rs) payload e ns h =
      enqueue_each-Left now uuid c rs payload e _ (
        if-both (All (Left c e)) (any (conflicts c (some e) recovery r) ns) h
          (All-append (Left c e) ns _ h (ground arith, tt)))

  cancelled-Left :
      (c e : ℕ) (ns : List (Notification V))
      → All (Left c e) (update_where (obsolete c e) cancel ns)
  cancelled-Left c e [] = tt
  cancelled-Left c e (n ∷ ns) = (ground arith, cancelled-Left c e ns)

  update-Left :
      (c e : ℕ) (ns : List (Notification V))
      → All (Left c e) ns
      → update_where (obsolete c e) cancel ns ≡ ns
  update-Left c e [] h = refl
  update-Left c e (n ∷ ns) h = rw (h.0, update-Left c e ns h.1) refl

  -- `notify`, by what it tests.
  abbrev body :
      Bool
      → Bool
      → Bool
      → ℕ
      → (ℕ → ℕ)
      → ℕ
      → ℕ
      → List ℕ
      → Option (Payload V)
      → List (Notification V)
      → List (Notification V)
  body skip recovered wants now uuid c e rs payload ns =
      if skip
      then ns
      else (let left = if recovered then update_where (obsolete c e) cancel ns else ns in
          if recovered && not wants
          then left
          else enqueue_each now uuid c (if recovered then recovery else alarm) rs payload (some e)
              left)

  body-again :
      (skip recovered wants : Bool) (now now' : ℕ) (uuid uuid' : ℕ → ℕ) (c e : ℕ) (rs : List ℕ)
      (payload : Option (Payload V)) (ns : List (Notification V))
      → body skip recovered wants now' uuid' c e rs payload
          (body skip recovered wants now uuid c e rs payload ns)
        ≡ body skip recovered wants now uuid c e rs payload ns
  body-again true recovered wants now now' uuid uuid' c e rs payload ns = refl
  body-again false false wants now now' uuid uuid' c e rs payload ns =
      enqueue_each-again now' uuid' c alarm rs payload e _
        (enqueue_each-Present now uuid c alarm rs payload e ns)
  body-again false true false now now' uuid uuid' c e rs payload ns =
      update-Left c e _ (cancelled-Left c e ns)
  body-again false true true now now' uuid uuid' c e rs payload ns =
      let ns' = update_where (obsolete c e) cancel ns in
      ap (enqueue_each now' uuid' c recovery rs payload (some e))
        (update-Left c e _ (enqueue_each-Left now uuid c rs payload e ns' (cancelled-Left c e ns)))
      ∙ enqueue_each-again now' uuid' c recovery rs payload e _
          (enqueue_each-Present now uuid c recovery rs payload e ns')

  abbrev queue_of : Cloud V → List (Notification V) → Cloud V
  queue_of db ns = record db { notifications = ns }

  notified-again :
      (now : ℕ) (uuid uuid' : ℕ → ℕ) (c e : ℕ) (db : Cloud V) (p : Option Settings)
      (row : Option (Event V × Payload V))
      → notified now uuid' c e (queue_of db (notified now uuid c e db p row)) p row
        ≡ notified now uuid c e db p row
  notified-again now uuid uuid' c e db none row = refl
  notified-again now uuid uuid' c e db (some p) none = refl
  notified-again now uuid uuid' c e db (some p) (some (a, payload)) =
      body-again (not_notified p a) (is_some a.ended_at) p.notify_recovery now now uuid uuid' c e
        p.recipients (some payload) db.notifications

  -- An event that is reported again right after and at the same time, with whatever ids the database would
  -- draw, adds no message and withdraws none: the second report leaves the queue as the first one left
  -- it.
  pub enqueue_alarm-again :
      (now : ℕ) (uuid uuid' : ℕ → ℕ) (customer event : ℕ) (db : Cloud V)
      → enqueue_alarm now uuid' customer event (enqueue_alarm now uuid customer event db)
        ≡ enqueue_alarm now uuid customer event db
  unfolding enqueue_alarm device_email_suppressed
  enqueue_alarm-again now uuid uuid' customer event db =
      let row = persisted customer event db in
      let p = active_policy customer db.settings in
      let ns = notified now uuid customer event db p row in
      elim (Bool-cases (device_email_suppressed now customer event db)) [
        | inl e ↦ rw (e, e) refl
        | inr e ↦
            rw (e, e) (ap (queue_of db) (notified-again now uuid uuid' customer event db p row))
      ]
