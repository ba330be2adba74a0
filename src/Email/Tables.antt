-- ===== src/Email/Tables.antt =====
-- The tables of the cloud database that the e-mail queue reads and writes. Identifiers and addresses
-- are texts that the code only compares: here they are numbers. Times are seconds. `V` is the type of
-- measured values.
use hawklive.Prelude.{
  ℕ, Bool, true, false, not, ◌&&◌, ◌||◌, Option, none, some, List, [], ◌∷◌, String, any, min, ltb,
  leb, ◌==◌, if◌then◌else◌,
}

pub data Kind : Type 0 where
  alarm recovery test : Kind

pub data Status : Type 0 where
  pending sending sent failed cancelled : Status

pub data LastError : Type 0 where
  delivery_outcome_unknown : LastError
  exception_name : String → LastError

-- The payload of an alarm or a recovery; a test has none.
pub record Payload (V : Type 0) : Type 0 where
  pub event_uuid : ℕ
  pub started_at : ℕ
  pub ended_at : Option ℕ
  pub metric : ℕ
  pub trigger_value : V
  pub peak_value : V
  pub limit : String
  pub room : String
  pub device : String

-- A row of email_notifications.
pub record Notification (V : Type 0) : Type 0 where
  pub id : ℕ
  pub customer_id : ℕ
  pub event_uuid : Option ℕ
  pub kind : Kind
  pub recipient : ℕ
  pub payload : Option (Payload V)
  pub status : Status
  pub attempts : ℕ
  pub last_error : Option LastError
  pub next_attempt_at : ℕ
  pub created_at : ℕ
  pub sent_at : Option ℕ
  pub claim_token : Option ℕ
  pub lease_until : Option ℕ

-- A row of email_alert_settings.
pub record Settings : Type 0 where
  pub customer_id : ℕ
  pub enabled : Bool
  pub recipients : List ℕ
  pub notify_recovery : Bool
  pub enabled_since : ℕ
  pub last_test_at : Option ℕ

-- A row of alarm_events, with the name of its cleanroom.
pub record Event (V : Type 0) : Type 0 where
  pub event_uuid : ℕ
  pub customer_id : ℕ
  pub site_id : ℕ
  pub device_id : ℕ
  pub cleanroom_id : ℕ
  pub from_device : Bool
  pub started_at : ℕ
  pub ended_at : Option ℕ
  pub metric : ℕ
  pub trigger_value : V
  pub peak_value : V
  pub limit_description : String

pub record Device : Type 0 where
  pub id : ℕ
  pub customer_id : ℕ
  pub enabled : Bool
  pub name : String

pub record Cleanroom : Type 0 where
  pub id : ℕ
  pub customer_id : ℕ
  pub name : String

-- A row of device_maintenance_periods.
pub record Period : Type 0 where
  pub customer_id : ℕ
  pub device_id : ℕ
  pub started_at : ℕ
  pub ends_at : ℕ
  pub ended_at : Option ℕ

pub record Cloud (V : Type 0) : Type 0 where
  pub notifications : List (Notification V)
  pub settings : List Settings
  pub events : List (Event V)
  pub devices : List Device
  pub cleanrooms : List Cleanroom
  pub periods : List Period

-- SELECT … WHERE …, of which the code reads the first row.
abbrev pub select : {A : Type 0} → (A → Bool) → List A → Option A
select p [] = none
select p (x ∷ xs) = if p x then some x else select p xs

abbrev pub chain : {A B : Type 0} → Option A → (A → Option B) → Option B
chain none f = none
chain (some a) f = f a

abbrev pub is_some : {A : Type 0} → Option A → Bool
is_some none = false
is_some (some _) = true

abbrev pub option_or : {A : Type 0} → A → Option A → A
option_or d none = d
option_or d (some a) = a

abbrev pub same : Option ℕ → ℕ → Bool
same none x = false
same (some y) x = y == x

abbrev pub member : ℕ → List ℕ → Bool
member x = any (λ y. y == x)

abbrev pub is_test : Kind → Bool
is_test test = true
is_test _ = false

abbrev pub is_alarm : Kind → Bool
is_alarm alarm = true
is_alarm _ = false

abbrev pub is_recovery : Kind → Bool
is_recovery recovery = true
is_recovery _ = false

abbrev pub is_pending : Status → Bool
is_pending pending = true
is_pending _ = false

abbrev pub is_sending : Status → Bool
is_sending sending = true
is_sending _ = false

-- UPDATE email_notifications SET … WHERE …
abbrev pub update_where :
    {V : Type 0}
    → (Notification V → Bool)
    → (Notification V → Notification V)
    → List (Notification V)
    → List (Notification V)
update_where p f [] = []
update_where p f (n ∷ ns) = (if p n then f n else n) ∷ update_where p f ns

abbrev pub device_of : ℕ → ℕ → List Device → Option Device
device_of customer id = select (λ d. d.id == id && d.customer_id == customer)

-- LEAST(m.ends_at, COALESCE(m.ended_at, m.ends_at))
abbrev pub until : Period → ℕ
until m = min m.ends_at (option_or m.ends_at m.ended_at)

abbrev pub begun_by_end : ℕ → Option ℕ → Bool
begun_by_end started none = true
begun_by_end started (some end_time) = leb started end_time

module _ {V : Type 0} where
  abbrev pub event_of : ℕ → ℕ → List (Event V) → Option (Event V)
  event_of customer uuid = select (λ e. e.customer_id == customer && e.event_uuid == uuid)

  -- A period that runs now or that the event falls into.
  abbrev pub pauses : ℕ → Event V → Period → Bool
  pauses now a m =
      m.customer_id == a.customer_id
      && m.device_id == a.device_id
      && ((leb m.started_at now && ltb now (until m))
          || (begun_by_end m.started_at a.ended_at && ltb a.started_at (until m)))

  -- NOT d.enabled OR EXISTS (…), or true where the join has no row.
  abbrev pub paused : ℕ → List Period → Event V → Option Device → Bool
  paused now periods a none = true
  paused now periods a (some d) = not d.enabled || any (pauses now a) periods

  abbrev pub event_paused : ℕ → ℕ → Cloud V → Option (Event V) → Bool
  event_paused now customer db none = true
  event_paused now customer db (some a) =
      paused now db.periods a (device_of customer a.device_id db.devices)

  unfoldable pub device_email_suppressed : ℕ → ℕ → ℕ → Cloud V → Bool
  device_email_suppressed now customer uuid db =
      event_paused now customer db (event_of customer uuid db.events)
