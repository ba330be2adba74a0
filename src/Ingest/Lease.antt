-- ===== src/Ingest/Lease.antt =====
-- `edge_identity` of cloud_api.py: a token of a collector names its site, and one instance of a
-- collector at a time holds the site.
use hawklive.Prelude.{
  ℕ, ◌+◌, Bool, true, not, ◌&&◌, ◌||◌, Option, none, some, List, Result, ok, err, ◌==◌, ltb,
  if◌then◌else◌, any, map,
}
use hawklive.Email.Tables.{select, option_or}
use hawklive.Ingest.Tables.{Identity}

abbrev pub collector_lease_seconds : ℕ
collector_lease_seconds = 90

-- A row of edge_tokens.
pub record EdgeToken : Type 0 where
  pub token_hash : ℕ
  pub customer_id : ℕ
  pub site_id : ℕ
  pub enabled : Bool
  pub last_used_at : Option ℕ

-- What a row of sites holds of its collector.
pub record Site : Type 0 where
  pub id : ℕ
  pub customer_id : ℕ
  pub retired : Bool
  pub active_collector_instance : Option ℕ
  pub active_collector_seen_at : Option ℕ

pub record Nodes : Type 0 where
  pub tokens : List EdgeToken
  pub sites : List Site

-- What a request carries: the text after "Bearer ", if there is one, and the instance, if it is named.
pub record Request : Type 0 where
  pub bearer : Option ℕ
  pub instance_id : Option ℕ

-- The identity that a handler gets.
pub record Holder : Type 0 where
  pub identity : Identity
  pub instance_id : ℕ

abbrev pub held_by : ℕ → Option ℕ → Bool
held_by instance none = true
held_by instance (some i) = i == instance

abbrev pub lapsed : ℕ → Option ℕ → Bool
lapsed now none = true
lapsed now (some seen) = ltb (seen + collector_lease_seconds) now

-- The condition of the update: the site is free for the instance.
unfoldable pub is_free : ℕ → ℕ → EdgeToken → Site → Bool
is_free now instance t s =
    s.id == t.site_id
    && s.customer_id == t.customer_id
    && not s.retired
    && (held_by instance s.active_collector_instance || lapsed now s.active_collector_seen_at)

abbrev pub hold : ℕ → ℕ → Site → Site
hold now instance s = record s {
  active_collector_instance = some instance;
  active_collector_seen_at = some now;
}

abbrev pub use_token : ℕ → ℕ → EdgeToken → EdgeToken
use_token now hash t = record t {
  last_used_at = if t.token_hash == hash then some now else t.last_used_at;
}

abbrev pub granted : ℕ → ℕ → EdgeToken → Nodes → Result ℕ Holder × Nodes
granted now instance t db = (
  ok (record {
    identity = record { customer_id = t.customer_id; site_id = t.site_id };
    instance_id = instance;
  }),
  record {
    tokens = map (use_token now t.token_hash) db.tokens;
    sites = map (λ s. if is_free now instance t s then hold now instance s else s) db.sites;
  },
)

abbrev pub take_lease : ℕ → ℕ → EdgeToken → Nodes → Result ℕ Holder × Nodes
take_lease now instance t db =
    if any (is_free now instance t) db.sites then granted now instance t db else (err 409, db)

abbrev pub with_token : ℕ → ℕ → Option EdgeToken → Nodes → Result ℕ Holder × Nodes
with_token now instance none db = (err 401, db)
with_token now instance (some t) db = take_lease now instance t db

-- `digest` is sha256, `legacy` the name of a collector that sends none, and `well_formed` the match
-- with COLLECTOR_INSTANCE_PATTERN.
abbrev pub with_instance : (ℕ → Bool) → ℕ → ℕ → ℕ → Nodes → Result ℕ Holder × Nodes
with_instance well_formed now instance hash db =
    if not (well_formed instance)
    then (err 400, db)
    else with_token now instance (select (λ t. t.token_hash == hash && t.enabled) db.tokens) db

abbrev pub with_bearer :
    (ℕ → ℕ) → (ℕ → ℕ) → (ℕ → Bool) → ℕ → Option ℕ → Option ℕ → Nodes → Result ℕ Holder × Nodes
with_bearer digest legacy well_formed now none instance db = (err 401, db)
with_bearer digest legacy well_formed now (some raw) instance db =
    with_instance well_formed now (option_or (legacy (digest raw)) instance) (digest raw) db

unfoldable pub edge_identity :
    (ℕ → ℕ) → (ℕ → ℕ) → (ℕ → Bool) → ℕ → Request → Nodes → Result ℕ Holder × Nodes
edge_identity digest legacy well_formed now r db =
    with_bearer digest legacy well_formed now r.bearer r.instance_id db
