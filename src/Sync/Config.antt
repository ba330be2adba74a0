-- ===== src/Sync/Config.antt =====
-- The configuration of a collector in cloud_sync.py: `pull_config_once`,
-- `_create_topology_item_once` and `_apply_configuration_payload`, with the revision that is kept over a
-- restart. `R` is what a configuration says, `W` the rest of the world: the database that the applier
-- writes and the cloud.
use hawklive.Prelude.{
  ℕ, Bool, true, false, ◌&&◌, Option, none, some, List, [], ◌∷◌, Result, ok, err, ◌==◌,
  if◌then◌else◌,
}
use hawklive.Prelude.Effects.{Effect, ◌>>=◌, pure, raise, ensure}
use hawklive.Email.Tables.{is_some, same}
use hawklive.Sync.Status.{Channel, Error, invalid, Status, mark_success}

pub data ApplyStatus : Type 0 where
  awaiting applied failed : ApplyStatus

-- A device of a configuration; an empty host is none.
pub record DeviceIn : Type 0 where
  pub enabled : Bool
  pub host : Option ℕ

-- The field `data` of an answer. A customer or a site of empty text is none, and so is a revision that
-- is no number; one that is missing is 0. `rooms_listed` says whether the rooms are a list: `devices` are
-- those of all rooms, of those that are well formed.
pub record Payload (R : Type 0) : Type 0 where
  pub site_id : Option ℕ
  pub customer_id : Option ℕ
  pub site_name : Option ℕ
  pub revision : Option ℕ
  pub devices : List DeviceIn
  pub rooms_listed : Bool
  pub rooms : R

-- The fields of CloudSyncService that have to do with the configuration.
pub record Node (W : Type 0) : Type 0 where
  pub site_id : ℕ
  pub customer_id : Option ℕ
  pub site_name : Option ℕ
  pub assigned_hosts : List ℕ
  pub desired_config_revision : Option ℕ
  pub last_config_revision : Option ℕ
  pub saved_revision : Option ℕ
  pub config_apply_status : ApplyStatus
  pub config_apply_error : Option Error
  pub config_ready : Bool
  pub status : Status
  pub world : W

-- The outside: what a request answers, the applier if there is one, the time, and the name of the
-- channel that runs.
pub record Remote (R W : Type 0) : Type 0 where
  pub request : W → Result Error (Payload R) × W
  pub applier : Option (Payload R → W → Result Error Unit × W)
  -- What the write of the revision that is kept raises, which leaves the kept one as it was.
  pub save : ℕ → W → Option Error
  pub clock : W → ℕ
  pub channel : Channel

abbrev pub with_host : Option ℕ → List ℕ → List ℕ
with_host none hosts = hosts
with_host (some h) hosts = h ∷ hosts

abbrev pub host_of : DeviceIn → List ℕ → List ℕ
host_of d hosts = if d.enabled then with_host d.host hosts else hosts

-- `assigned_hosts`, a set, here a list.
unfoldable pub hosts_of : List DeviceIn → List ℕ
hosts_of [] = []
hosts_of (d ∷ ds) = host_of d (hosts_of ds)

-- self.site_name = … or self.site_name
abbrev pub renamed : Option ℕ → Option ℕ → Option ℕ
renamed none old = old
renamed (some n) old = some n

-- An identifier or a number that has to be there.
abbrev pub the : {S : Type 0} → Option ℕ → Effect S Error ℕ
the none = raise invalid
the (some n) = pure n

-- Whether the answer names the customer of the node; a node without one is like no answer.
abbrev pub same_customer : Option ℕ → Option ℕ → Bool
same_customer (some a) (some b) = a == b
same_customer _ _ = false

module _ {W : Type 0} where
  -- The revision in memory is set before it is written; where the write raises, the status stays.
  abbrev pub save_revision : ℕ → Option Error → Node W → Result Error Bool × Node W
  save_revision revision none s = (
    ok true,
    record s {
      saved_revision = some revision;
      config_apply_status = applied;
      config_apply_error = none;
    },
  )
  save_revision revision (some e) s = (err e, s)

  abbrev pub conclude_apply :
      (ℕ → W → Option Error) → ℕ → Node W → Result Error Unit × W → Result Error Bool × Node W
  conclude_apply save revision s (ok _, w) =
      save_revision revision (save revision w)
        (record s { world = w; last_config_revision = some revision })
  conclude_apply save revision s (err e, w) =
      (err e, record s { world = w; config_apply_status = failed; config_apply_error = some e })

  abbrev pub unchanged : Node W → Result Error Bool × Node W
  unchanged s = (ok false, record s { config_apply_status = applied; config_apply_error = none })

  -- The state after a restart: `_load_applied_config_revision`.
  unfoldable pub restarted : Node W → Node W
  restarted s = record s {
    customer_id = none;
    site_name = none;
    assigned_hosts = [];
    desired_config_revision = none;
    last_config_revision = s.saved_revision;
    config_apply_status = if is_some s.saved_revision then applied else awaiting;
    config_apply_error = none;
    config_ready = false;
  }

module _ {R W : Type 0} where
  abbrev pub noted : Payload R → ℕ → Node W → Node W
  noted d revision s = record s {
    desired_config_revision = some revision;
    site_name = renamed d.site_name s.site_name;
    assigned_hosts = hosts_of d.devices;
  }

  abbrev pub run_applier :
      Remote R W
      → Option (Payload R → W → Result Error Unit × W)
      → Payload R
      → ℕ
      → Effect (Node W) Error Bool
  run_applier remote none d revision s = (ok false, record s { config_apply_status = awaiting })
  run_applier remote (some apply) d revision s =
      conclude_apply remote.save revision s (apply d s.world)

  -- `_apply_configuration_payload`
  unfoldable pub apply_configuration_payload :
      Remote R W → Payload R → ℕ → Effect (Node W) Error Bool
  apply_configuration_payload remote d revision s =
      if same s.last_config_revision revision
      then unchanged (noted d revision s)
      else run_applier remote remote.applier d revision (noted d revision s)

  -- A request: its errors raise, and what it did to the world stays.
  abbrev pub answered : Node W → Result Error (Payload R) × W → Result Error (Payload R) × Node W
  answered s (r, w) = (r, record s { world = w })

  abbrev pub ask : Remote R W → Effect (Node W) Error (Payload R)
  ask remote s = answered s (remote.request s.world)

  abbrev pub succeeded : Remote R W → Node W → Node W
  succeeded remote s = record s {
    status = mark_success (remote.clock s.world) remote.channel s.status;
  }

  -- What pull_config_once does with an answer, step by step.
  abbrev pub finish_pull : Remote R W → ℕ → Bool → Effect (Node W) Error ℕ
  finish_pull remote revision changed s =
      (ok (if changed then revision else 0), succeeded remote (record s { config_ready = true }))

  abbrev pub apply_pulled : Remote R W → Payload R → ℕ → Effect (Node W) Error ℕ
  apply_pulled remote d revision =
      apply_configuration_payload remote d revision >>= finish_pull remote revision

  abbrev pub with_revision : Remote R W → Payload R → Effect (Node W) Error ℕ
  with_revision remote d = the d.revision >>= apply_pulled remote d

  abbrev pub with_customer : Remote R W → Payload R → ℕ → Effect (Node W) Error ℕ
  with_customer remote d customer s =
      with_revision remote d (record s { customer_id = some customer })

  abbrev pub for_customer : Remote R W → Payload R → Unit {0} → Effect (Node W) Error ℕ
  for_customer remote d _ = the d.customer_id >>= with_customer remote d

  abbrev pub accept_configuration : Remote R W → Payload R → Effect (Node W) Error ℕ
  accept_configuration remote d s =
      (ensure (same d.site_id s.site_id) invalid >>= for_customer remote d) s

  abbrev pub pull_with :
      Remote R W → Option (Payload R → W → Result Error Unit × W) → Effect (Node W) Error ℕ
  pull_with remote none = pure 0
  pull_with remote (some apply) = ask remote >>= accept_configuration remote

  unfoldable pub pull_config_once : Remote R W → Effect (Node W) Error ℕ
  pull_config_once remote = pull_with remote remote.applier

  -- `if not self.customer_id: self.pull_config_once()`
  abbrev pub ensure_customer : Remote R W → Option ℕ → Effect (Node W) Error ℕ
  ensure_customer remote none = pull_config_once remote
  ensure_customer remote (some c) = pure 0

  abbrev pub finish_topology : Remote R W → Payload R → Bool → Effect (Node W) Error R
  finish_topology remote d changed s = (ok d.rooms, succeeded remote s)

  abbrev pub apply_topology : Remote R W → Payload R → ℕ → Effect (Node W) Error R
  apply_topology remote d revision =
      apply_configuration_payload remote d revision >>= finish_topology remote d

  abbrev pub with_rooms : Remote R W → Payload R → Unit {0} → Effect (Node W) Error R
  with_rooms remote d _ = the d.revision >>= apply_topology remote d

  abbrev pub accept_topology : Remote R W → Payload R → Effect (Node W) Error R
  accept_topology remote d s =
      (ensure
            (same_customer d.customer_id s.customer_id
              && same d.site_id s.site_id
              && d.rooms_listed)
            invalid
          >>= with_rooms remote d)
        s

  abbrev pub create_item : Remote R W → Remote R W → ℕ → Effect (Node W) Error R
  create_item remote create _ = ask create >>= accept_topology remote

  -- `_create_topology_item_once`, where `create` sends the new item.
  unfoldable pub create_topology_item_once : Remote R W → Remote R W → Effect (Node W) Error R
  create_topology_item_once remote create s =
      (ensure_customer remote s.customer_id >>= create_item remote create) s
