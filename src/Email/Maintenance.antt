-- ===== src/Email/Maintenance.antt =====
-- device_lifecycle.py: the maintenance of a device, which pauses its e-mails.
use hawklive.Prelude.{
  ℕ, ◌+◌, ◌*◌, ◌≤◌, ◌<◌, ◌≡◌, refl, ap, subst, ◌∙◌, ◌⊎◌, inl, inr, if-both, Bool, true, false, not,
  ◌&&◌, ◌||◌, Option, none, some, List, [], ◌∷◌, ◌++◌, arith, All, any, ltb, leb, ◌==◌,
  if◌then◌else◌,
}
use hawklive.Email.Tables.{
  Notification, Event, Device, Period, Cloud, select, is_pending, same, update_where, event_of,
  device_of, until, pauses, paused, event_paused, device_email_suppressed, is_some, option_or,
}
use hawklive.Email.Enqueue.{cancel, enqueue_alarm}

pub data Reply : Type 0 where
  bad_request not_found deleted_device already_paused : Reply
  active : Bool → Reply

-- The device's period that has not ended.
abbrev pub running : ℕ → ℕ → ℕ → Period → Bool
running now customer device m =
    m.customer_id == customer && m.device_id == device && ltb now (until m)

abbrev pub new_period : ℕ → ℕ → ℕ → ℕ → Period
new_period now customer device ends_at = record {
  customer_id = customer;
  device_id = device;
  started_at = now;
  ends_at = ends_at;
  ended_at = none;
}

abbrev pub end_periods : ℕ → ℕ → ℕ → List Period → List Period
end_periods now customer device [] = []
end_periods now customer device (m ∷ ms) =
    (if m.customer_id == customer
        && m.device_id == device
        && not (is_some m.ended_at)
        && ltb now m.ends_at
      then record m { ended_at = some now }
      else m)
    ∷ end_periods now customer device ms

select-passes :
    {A : Type 0} (p : A → Bool) (xs : List A) (a : A) → select p xs ≡ some a → p a ≡ true
select-passes p [] a h = cc
select-passes p (x ∷ xs) a h = ground (arith, h, select-passes p xs a)

ended_cases :
    (o : Option ℕ) (e : ℕ)
    → ((is_some o ≡ true) × (option_or e o ≡ option_or 0 o))
      ⊎ ((is_some o ≡ false) × (option_or e o ≡ e))
ended_cases none e = inr (refl, refl)
ended_cases (some t) e = inl (refl, refl)

-- Once a device's maintenance was ended none of its periods runs, if none had its end noted ahead.
pub end_periods-none_running :
    (now customer device : ℕ) (ms : List Period)
    → All (λ m. option_or 0 m.ended_at ≤ now) ms
    → any (running now customer device) (end_periods now customer device ms) ≡ false
end_periods-none_running now customer device [] h = refl
end_periods-none_running now customer device (m ∷ ms) (h, hs) =
    ground (
      arith,
      h,
      ended_cases m.ended_at m.ends_at,
      end_periods-none_running now customer device ms hs,
    )

any-there :
    (p : Period → Bool) (before : List Period) (m : Period) (after : List Period)
    → p m ≡ true
    → any p (before ++ m ∷ after) ≡ true
any-there p [] m after h = ground (arith, h)
any-there p (b ∷ before) m after h = ground (arith, any-there p before m after h)

module _ {V : Type 0} where
  -- The messages that wait for events of the device.
  abbrev pub of_device : ℕ → ℕ → List (Event V) → Notification V → Bool
  of_device customer device events n =
      n.customer_id == customer
      && is_pending n.status
      && any
          (λ a.
            same n.event_uuid a.event_uuid && a.customer_id == customer && a.device_id == device)
          events

  abbrev pub begin : ℕ → ℕ → ℕ → ℕ → Cloud V → Cloud V
  begin now customer device ends_at db = record db {
    periods = new_period now customer device ends_at ∷ db.periods;
    notifications = update_where (of_device customer device db.events) cancel db.notifications;
  }

  abbrev pub start_on : ℕ → ℕ → ℕ → ℕ → Cloud V → Option Device → Reply × Cloud V
  start_on now customer device ends_at db none = (not_found, db)
  start_on now customer device ends_at db (some d) =
      if not d.enabled
      then (deleted_device, db)
      else if any (running now customer device) db.periods
      then (already_paused, db)
      else (active true, begin now customer device ends_at db)

  -- `reason` says whether the stripped reason has text.
  unfoldable pub start_maintenance : ℕ → ℕ → ℕ → Bool → ℕ → Cloud V → Reply × Cloud V
  start_maintenance now customer device reason ends_at db =
      if not reason || not (leb (now + 60) ends_at && leb ends_at (now + 7 * 86400))
      then (bad_request, db)
      else start_on now customer device ends_at db (device_of customer device db.devices)

  abbrev pub end_on : ℕ → ℕ → ℕ → Cloud V → Option Device → Reply × Cloud V
  end_on now customer device db none = (not_found, db)
  end_on now customer device db (some d) =
      (active false, record db { periods = end_periods now customer device db.periods })

  unfoldable pub end_maintenance : ℕ → ℕ → ℕ → Cloud V → Reply × Cloud V
  end_maintenance now customer device db =
      end_on now customer device db (device_of customer device db.devices)

  -- What was started: a period of the device that has not ended is there in front.
  Begun : ℕ → ℕ → ℕ → ℕ → Cloud V → Reply × Cloud V → Type 0
  Begun now customer device ends_at db (active on, db') =
      db'.periods ≡ new_period now customer device ends_at ∷ db.periods
  Begun now customer device ends_at db (_, db') = Unit

  start_on-Begun :
      (now customer device ends_at : ℕ) (db : Cloud V) (d : Option Device)
      → Begun now customer device ends_at db (start_on now customer device ends_at db d)
  unfolding Begun
  start_on-Begun now customer device ends_at db none = tt
  start_on-Begun now customer device ends_at db (some d) =
      let B = Begun now customer device ends_at db in
      if-both B (not d.enabled) {a = (deleted_device, db)} tt (
        if-both B (any (running now customer device) db.periods) {a = (already_paused, db)}
          {b = (active true, begin now customer device ends_at db)} tt refl)

  start_maintenance-Begun :
      (now customer device ends_at : ℕ) (reason : Bool) (db : Cloud V)
      → Begun now customer device ends_at db
          (start_maintenance now customer device reason ends_at db)
  unfolding start_maintenance Begun
  start_maintenance-Begun now customer device ends_at reason db =
      if-both (Begun now customer device ends_at db)
        (not reason || not (leb (now + 60) ends_at && leb ends_at (now + 7 * 86400)))
        {a = (bad_request, db)}
        {b = start_on now customer device ends_at db (device_of customer device db.devices)} tt
        (start_on-Begun now customer device ends_at db _)

  under_way :
      (now t customer device ends_at : ℕ) (periods before after : List Period) (a : Event V)
      (d : Option Device)
      → periods ≡ before ++ new_period now customer device ends_at ∷ after
      → (a.customer_id == customer) ≡ true
      → (a.device_id == device) ≡ true
      → now ≤ t
      → t < ends_at
      → paused t periods a d ≡ true
  under_way now t customer device ends_at periods before after a none e c f l u = refl
  under_way now t customer device ends_at periods before after a (some d) e c f l u =
      let here : pauses t a (new_period now customer device ends_at) ≡ true =
        ground (arith, c, f, l, u) in
      ap (λ ms. not d.enabled || any (pauses t a) ms) e
      ∙ ap (λ b. not d.enabled || b)
          (any-there (pauses t a) before (new_period now customer device ends_at) after here)
      ∙ or-true (not d.enabled)
    where
      or-true : (b : Bool) → (b || true) ≡ true
      or-true b = ground arith

  suppressed-under_way :
      (now t customer device ends_at uuid : ℕ) (before after : List Period) (db : Cloud V)
      (a : Event V)
      → db.periods ≡ before ++ new_period now customer device ends_at ∷ after
      → event_of customer uuid db.events ≡ some a
      → (a.device_id == device) ≡ true
      → now ≤ t
      → t < ends_at
      → device_email_suppressed t customer uuid db ≡ true
  unfolding device_email_suppressed
  suppressed-under_way now t customer device ends_at uuid before after db a e found f l u =
      let passes =
        select-passes (λ a. a.customer_id == customer && a.event_uuid == uuid) db.events a found in
      ap (event_paused t customer db) found
      ∙ under_way now t customer device ends_at db.periods before after a
          (device_of customer a.device_id db.devices) e (ground (arith, passes)) f l u

  -- From the start of a maintenance until it is over, no event of the device is mailed about while none
  -- of the periods that were there is ended or removed, whatever else is done to the database and
  -- whether the event was there at the start or came since: its e-mails are suppressed, and a report of
  -- it leaves the database as it is.
  pub start_maintenance-suppresses :
      (now t customer device ends_at uuid : ℕ) (draw : ℕ → ℕ) (reason on : Bool)
      (db db' later : Cloud V) (since : List Period) (a : Event V)
      → start_maintenance now customer device reason ends_at db ≡ (active on, db')
      → later.periods ≡ since ++ db'.periods
      → event_of customer uuid later.events ≡ some a
      → (a.device_id == device) ≡ true
      → now ≤ t
      → t < ends_at
      → (device_email_suppressed t customer uuid later ≡ true)
        × (enqueue_alarm t draw customer uuid later ≡ later)
  unfolding Begun enqueue_alarm
  start_maintenance-suppresses now t customer device ends_at uuid draw reason on db db' later since
        a started same_periods found f l u =
      let begun =
        subst (Begun now customer device ends_at db) started
          (start_maintenance-Begun now customer device ends_at reason db) in
      let off =
        suppressed-under_way now t customer device ends_at uuid since db.periods later a
          (same_periods ∙ ap (λ ms. since ++ ms) begun) found f l u in
      (off, rw off refl)
