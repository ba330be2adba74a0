-- ===== src/Sync/Restart/Tests.antt =====
-- A collector whose cloud offers revision 3, and an applier that takes it or refuses it.
use hawklive.Prelude.{
  ℕ, Bool, true, false, Option, none, some, [], ◌∷◌, ◌≡◌, refl, subst, arith, Result, ok, err,
}
use hawklive.Sync.Status.{config, Error, apply_failed, mark_success}
use hawklive.Sync.Config.{
  awaiting, failed, Payload, Node, Remote, hosts_of, apply_configuration_payload, pull_config_once,
  create_topology_item_once, restarted,
}
use hawklive.Sync.Revision.{IsCurrent, IsSaving, IsApplying}
use hawklive.Sync.Restart.{Step, done, then_step, Steps-IsCurrent}

-- The database of the collector has a revision; a configuration is fine or is refused.
abbrev outcome : Bool → Payload Bool → Option ℕ → Result Error Unit × Option ℕ
outcome true d w = (ok tt, d.revision)
outcome false d w = (err apply_failed, w)

abbrev apply : Payload Bool → Option ℕ → Result Error Unit × Option ℕ
apply d w = outcome d.rooms d w

abbrev payload : ℕ → Bool → Payload Bool
payload revision fine = record {
  site_id = some 2;
  customer_id = some 1;
  site_name = none;
  revision = some revision;
  devices =
      record { enabled = true; host = some 44 } ∷ record { enabled = false; host = some 45 } ∷ [];
  rooms_listed = true;
  rooms = fine;
}

abbrev remote : Bool → Remote Bool (Option ℕ)
remote fine = record {
  request = λ w. (ok (payload 3 fine), w);
  applier = some apply;
  save = λ r w. none;
  clock = λ w. 500;
  channel = config;
}

abbrev create : ℕ → Option ℕ → Result Error (Payload Bool) × Option ℕ
create item w = (ok (payload item true), w)

abbrev node : Node (Option ℕ)
node = record {
  site_id = 2;
  customer_id = none;
  site_name = none;
  assigned_hosts = [];
  desired_config_revision = none;
  last_config_revision = none;
  saved_revision = none;
  config_apply_status = awaiting;
  config_apply_error = none;
  config_ready = false;
  status = record {
    last_success_at = none;
    last_error_at = none;
    channel_errors = [];
    consecutive_failures = 0;
  };
  world = none;
}

-- The first pull applies the revision, the second finds it applied.
pulled_twice :
    let s = (pull_config_once (remote true) node).1 in
    ((pull_config_once (remote true) node).0 ≡ ok 3)
    × (s.world ≡ some 3)
    × (s.assigned_hosts ≡ 44 ∷ [])
    × ((pull_config_once (remote true) s).0 ≡ ok 0)
unfolding pull_config_once apply_configuration_payload hosts_of mark_success
pulled_twice = (refl, refl, refl, refl)

-- A configuration that is refused leaves the node as one that has to pull again.
refused :
    let s = (pull_config_once (remote false) node).1 in
    (s.config_apply_status ≡ failed) × (s.last_config_revision ≡ none) × (s.config_ready ≡ false)
unfolding pull_config_once apply_configuration_payload hosts_of mark_success
refused = (refl, refl, refl)

abbrev Has : ℕ → Option ℕ → Type 0
Has r w = w ≡ some r

-- What holds of the applier of the node holds of every applier that it has.
abbrev At :
    ((Payload Bool → Option ℕ → Result Error Unit × Option ℕ) → Type 0)
    → Option (Payload Bool → Option ℕ → Result Error Unit × Option ℕ)
    → Type 0
At Q none = Unit
At Q (some f) = Q f

outcome-done :
    (fine : Bool) (d : Payload Bool) (r : ℕ) (w : Option ℕ)
    → d.revision ≡ some r
    → (outcome fine d w).0 ≡ ok tt
    → Has r (outcome fine d w).1
outcome-done true d r w at h = at
outcome-done false d r w at h = absurd (ground (arith, h))

outcome-undone :
    (fine : Bool) (d : Payload Bool) (r : ℕ) (w : Option ℕ) (e : Error)
    → (outcome fine d w).0 ≡ err e
    → Has r w
    → Has r (outcome fine d w).1
outcome-undone true d r w e h has = absurd (ground (arith, h))
outcome-undone false d r w e h has = has

remote-IsApplying : (fine : Bool) → IsApplying (remote fine) Has
remote-IsApplying fine = record {
  asked = λ r w h. h;
  done = λ f d r w there.
      subst (At λ g. d.revision ≡ some r → (g d w).0 ≡ ok tt → Has r (g d w).1) there
        (outcome-done d.rooms d r w);
  undone = λ f d r w e there.
      subst (At λ g. (g d w).0 ≡ err e → Has r w → Has r (g d w).1) there
        (outcome-undone d.rooms d r w e);
}

abbrev created_four : Node (Option ℕ)
created_four =
    (create_topology_item_once (remote true) (record (remote true) { request = create 4 })
      (pull_config_once (remote true) node).1).1

saved_last : created_four.last_config_revision ≡ created_four.saved_revision
unfolding create_topology_item_once pull_config_once apply_configuration_payload
saved_last = refl

-- The write of the revision that is kept raises: the revision in memory runs ahead of it, and the next
-- pull finds the configuration applied and writes nothing.
unsaved :
    let failing = record (remote true) { save = λ r w. some apply_failed } in
    let s = (pull_config_once failing node).1 in
    (s.last_config_revision ≡ some 3)
    × (s.saved_revision ≡ none)
    × (s.config_apply_status ≡ awaiting)
    × ((pull_config_once (remote true) s).0 ≡ ok 0)
    × ((pull_config_once (remote true) s).1.saved_revision ≡ none)
unfolding pull_config_once apply_configuration_payload hosts_of mark_success
unsaved = (refl, refl, refl, refl, refl)

-- Revision 3 is pulled, item 4 is created, and the collector is started again.
Steps-IsCurrent_example : IsCurrent (IsSaving (remote true)) Has (
    restarted
      (create_topology_item_once
        (remote true)
        (record (remote true) { request = create 4 })
        (pull_config_once (remote true) node).1).1)
Steps-IsCurrent_example =
    Steps-IsCurrent (remote true) create Has (remote-IsApplying true) (λ item r w h. h) node _
      (then_step _ _ _ (Step.pulled node)
        (then_step _ _ _ (Step.created 4 _) (then_step _ _ _ (Step.started _ saved_last) (done _))))
      (record {
        kept = λ _. refl;
        there = λ r h. absurd (ground (arith, h));
        shown = λ h. absurd (ground (arith, h));
      })
