-- ===== src/Sync/Status.antt =====
-- What the worker of cloud_sync.py knows of its channels: `_mark_success`, `_mark_failure`,
-- `connection_status` and one round of the loop of `_run_channel`. Times are milliseconds. The text
-- `last_error` is the join of the errors of the channels and is not kept apart from them.
use hawklive.Prelude.{
  ℕ, ◌+◌, ◌-◌, min, Bool, true, false, not, ◌&&◌, ◌||◌, Option, none, some, List, [], ◌∷◌, Result,
  ok, err, leb, ◌==◌, if◌then◌else◌, filter,
}
use hawklive.Prelude.Effects.{Effect}

-- The names of the channels that `_run` starts, and the name of a thread outside them.
pub data Channel : Type 0 where
  config heartbeat latest readings alarms diagnostics discovery connection : Channel

-- What a request to the cloud can raise.
pub data Error : Type 0 where
  http : ℕ → Error
  unreachable unreadable rejected unacknowledged invalid apply_failed : Error

abbrev pub number : Channel → ℕ
number config = 0
number heartbeat = 1
number latest = 2
number readings = 3
number alarms = 4
number diagnostics = 5
number discovery = 6
number connection = 7

abbrev pub same_channel : Channel → Channel → Bool
same_channel a b = number a == number b

pub record ChannelError : Type 0 where
  pub channel : Channel
  pub error : Error

pub record Status : Type 0 where
  pub last_success_at : Option ℕ
  pub last_error_at : Option ℕ
  pub channel_errors : List ChannelError
  pub consecutive_failures : ℕ

-- self._channel_errors.pop(name, None)
abbrev pub pop_error : Channel → List ChannelError → List ChannelError
pop_error name = filter (λ e. not (same_channel e.channel name))

-- self._channel_errors[name] = …, which keeps the place of a name that is there.
unfoldable pub put_error : Channel → Error → List ChannelError → List ChannelError
put_error name e [] = record { channel = name; error = e } ∷ []
put_error name e (x ∷ xs) =
    let rest = put_error name e xs in
    if same_channel x.channel name then record { channel = name; error = e } ∷ xs else x ∷ rest

abbrev pub is_empty : {A : Type 0} → List A → Bool
is_empty [] = true
is_empty (x ∷ xs) = false

unfoldable pub mark_success : ℕ → Channel → Status → Status
mark_success now name s =
    let errors = pop_error name s.channel_errors in
    record {
      last_success_at = some now;
      last_error_at = s.last_error_at;
      channel_errors = errors;
      consecutive_failures = if is_empty errors then 0 else s.consecutive_failures;
    }

unfoldable pub mark_failure : ℕ → Channel → Error → Status → Status
mark_failure now name e s = record {
  last_success_at = s.last_success_at;
  last_error_at = some now;
  channel_errors = put_error name e s.channel_errors;
  consecutive_failures = s.consecutive_failures + 1;
}

-- `connected`: a success not more than 90 seconds ago.
abbrev pub recent : ℕ → Option ℕ → Bool
recent now none = false
recent now (some t) = leb (now - t) 90000

pub data Connection : Type 0 where
  stopped failing attention connected connecting : Connection

-- The field `state` of connection_status; `failing` is the text "error".
unfoldable pub connection_state : ℕ → Bool → ℕ → ℕ → Status → Connection
connection_state now running quarantined unassigned s =
    let contact = recent now s.last_success_at in
    if not running
    then stopped
    else if not (is_empty s.channel_errors) && not contact
    then failing
    else if not (quarantined == 0) || not (unassigned == 0) || not (is_empty s.channel_errors)
    then attention
    else if contact
    then connected
    else connecting

abbrev pub urgent : Channel → Bool
urgent latest = true
urgent heartbeat = true
urgent _ = false

-- name not in {"config", "diagnostics"}
abbrev pub gated : Channel → Bool
gated config = false
gated diagnostics = false
gated _ = true

abbrev pub limit : Channel → ℕ
limit name = if urgent name then 30000 else 300000

-- `draw n` is round(2 ** n * random.uniform(0.8, 1.2), 1) in milliseconds.
abbrev pub delay : (ℕ → ℕ) → Channel → ℕ → ℕ
delay draw name failure_count = min (limit name) (draw (min failure_count 8))

-- What a channel works on: the state of the worker, and what its own action reads and writes.
pub record Service (W : Type 0) : Type 0 where
  pub status : Status
  pub world : W

abbrev pub clear_error : Channel → Status → Status
clear_error name t = record {
  last_success_at = t.last_success_at;
  last_error_at = t.last_error_at;
  channel_errors = pop_error name t.channel_errors;
  consecutive_failures = t.consecutive_failures;
}

-- What _run_channel keeps of its loop, and for how long it waits before the next round.
pub record Round (W : Type 0) : Type 0 where
  pub failure_count : ℕ
  pub wait : ℕ
  pub service : Service W

-- How a channel is run: its name, its interval, and whether it drains a queue.
pub record Plan : Type 0 where
  pub name : Channel
  pub interval : ℕ
  pub drain : Bool

-- The channels that `_run` starts; the intervals of three of them come from the environment.
unfoldable pub channels : ℕ → ℕ → ℕ → Bool → List Plan
channels config_interval heartbeat_interval discovery_interval remote =
    record { name = config; interval = config_interval; drain = false }
    ∷ record { name = heartbeat; interval = heartbeat_interval; drain = false }
    ∷ record { name = latest; interval = 10000; drain = false }
    ∷ record { name = readings; interval = 10000; drain = true }
    ∷ record { name = alarms; interval = 10000; drain = true }
    ∷ record { name = diagnostics; interval = 30000; drain = true }
    ∷ (if remote
        then record { name = discovery; interval = discovery_interval; drain = false } ∷ []
        else [])

module _ {W : Type 0} where
  abbrev pub settle : (ℕ → ℕ) → ℕ → Plan → ℕ → Result Error ℕ × Service W → Round W
  settle draw now plan n (ok sent, s) = record {
    failure_count = 0;
    wait = if plan.drain && not (sent == 0) then 2000 else plan.interval;
    service = record { status = clear_error plan.name s.status; world = s.world };
  }
  settle draw now plan n (err e, s) = record {
    failure_count = n + 1;
    wait = delay draw plan.name (n + 1);
    service = record { status = mark_failure now plan.name e s.status; world = s.world };
  }

  -- A round of the loop, where `ready` says that a configuration was applied or that none is to be.
  unfoldable pub channel_round :
      (ℕ → ℕ) → ℕ → Bool → Plan → Effect (Service W) Error ℕ → ℕ → Service W → Round W
  channel_round draw now ready plan action n s =
      if gated plan.name && not ready
      then record { failure_count = n; wait = 250; service = s }
      else settle draw now plan n (action s)
