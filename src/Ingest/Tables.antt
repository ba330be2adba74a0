-- ===== src/Ingest/Tables.antt =====
-- The tables that uploads of collectors read and write, and whom an upload may name. Identifiers are
-- texts that the code only compares: here they are numbers. `V` is what a reading measures.
use hawklive.Prelude.{
  ℕ, Bool, true, false, not, ◌&&◌, Option, none, some, List, [], ◌∷◌, String, Result, ok, err, ltb,
  leb, ◌==◌, if◌then◌else◌, any, filter,
}
use hawklive.Email.Tables.{select}

-- What edge_identity finds for the token of a collector.
pub record Identity : Type 0 where
  pub customer_id : ℕ
  pub site_id : ℕ

-- A row of device_assignment_periods.
pub record Assignment : Type 0 where
  pub customer_id : ℕ
  pub device_id : ℕ
  pub site_id : ℕ
  pub cleanroom_id : ℕ
  pub device_name : String
  pub cleanroom_name : String
  pub started_at : ℕ
  pub ended_at : Option ℕ

pub record Device : Type 0 where
  pub id : ℕ
  pub customer_id : ℕ
  pub site_id : ℕ
  pub cleanroom_id : ℕ
  pub name : String
  pub enabled : Bool

pub record Cleanroom : Type 0 where
  pub id : ℕ
  pub customer_id : ℕ
  pub name : String

-- ReadingIn and LatestReadingIn; the names in it are not used.
pub record ReadingIn (V : Type 0) : Type 0 where
  pub record_uuid : ℕ
  pub customer_id : ℕ
  pub site_id : ℕ
  pub cleanroom_id : ℕ
  pub device_id : ℕ
  pub measured_at : ℕ
  pub values : V

-- A row of readings.
pub record Reading (V : Type 0) : Type 0 where
  pub record_uuid : ℕ
  pub customer_id : ℕ
  pub site_id : ℕ
  pub cleanroom_id : ℕ
  pub cleanroom_name : String
  pub device_id : ℕ
  pub device_name : String
  pub measured_at : ℕ
  pub values : V

-- A row of latest_readings.
pub record Latest (V : Type 0) : Type 0 where
  pub customer_id : ℕ
  pub site_id : ℕ
  pub device_id : ℕ
  pub cleanroom_id : ℕ
  pub cleanroom_name : String
  pub device_name : String
  pub measured_at : ℕ
  pub received_at : ℕ
  pub values : V

pub record Database (V : Type 0) : Type 0 where
  pub readings : List (Reading V)
  pub latest : List (Latest V)
  pub assignments : List Assignment
  pub devices : List Device
  pub cleanrooms : List Cleanroom

-- What an upload names.
pub record Target : Type 0 where
  pub device_id : ℕ
  pub cleanroom_id : ℕ

-- The names of a cleanroom and of a device.
pub record Names : Type 0 where
  pub cleanroom_name : String
  pub device_name : String

abbrev pub of_target : Identity → Target → Assignment → Bool
of_target id t p =
    p.customer_id == id.customer_id
    && p.device_id == t.device_id
    && p.site_id == id.site_id
    && p.cleanroom_id == t.cleanroom_id

abbrev pub ends_after : ℕ → Option ℕ → Bool
ends_after at none = true
ends_after at (some e) = leb at e

-- started_at <= at AND (ended_at IS NULL OR ended_at >= at)
abbrev pub covers : ℕ → Assignment → Bool
covers at p = leb p.started_at at && ends_after at p.ended_at

abbrev pub later_of : Assignment → Option Assignment → Assignment
later_of p none = p
later_of p (some q) = if ltb p.started_at q.started_at then q else p

-- ORDER BY started_at DESC LIMIT 1
unfoldable pub last_started : List Assignment → Option Assignment
last_started [] = none
last_started (p ∷ ps) = some (later_of p (last_started ps))

abbrev pub names_of : Option Assignment → Result ℕ Names
names_of none = err 403
names_of (some p) = ok (record { cleanroom_name = p.cleanroom_name; device_name = p.device_name })

-- authorize_ingest_target where historical_at is given.
unfoldable pub authorize_past : Identity → Target → ℕ → List Assignment → Result ℕ Names
authorize_past id t at ps =
    names_of (last_started (filter (λ p. of_target id t p && covers at p) ps))

abbrev pub join : Option Device → Option Cleanroom → Result ℕ Names
join (some d) (some r) = ok (record { cleanroom_name = r.name; device_name = d.name })
join _ _ = err 403

-- authorize_ingest_target where it is not: the device as it is assigned now.
unfoldable pub authorize_now : Identity → Target → List Device → List Cleanroom → Result ℕ Names
authorize_now id t ds rs =
    join
      (select
        (λ d.
          d.id == t.device_id
          && d.customer_id == id.customer_id
          && d.site_id == id.site_id
          && d.cleanroom_id == t.cleanroom_id
          && d.enabled)
        ds)
      (select (λ r. r.id == t.cleanroom_id && r.customer_id == id.customer_id) rs)

-- A period of that device and place that is open and has begun.
abbrev pub current_at : Target → ℕ → ℕ → Assignment → Bool
current_at t site at p =
    p.device_id == t.device_id
    && p.site_id == site
    && p.cleanroom_id == t.cleanroom_id
    && is_open p.ended_at
    && leb p.started_at at
  where
    is_open : Option ℕ → Bool
    is_open none = true
    is_open (some _) = false

-- The target was assigned once and is not at that time.
unfoldable pub retired : Identity → Target → ℕ → List Assignment → Bool
retired id t at ps = any (of_target id t) ps && not (any (current_at t id.site_id at) ps)
