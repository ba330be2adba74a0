-- ===== src/Sync/Restart.antt =====
-- What pulls, creations and restarts keep of the configuration of a collector.
mod Tests
use hawklive.Prelude.{
  ℕ, Bool, true, false, not, ◌&&◌, Option, none, some, List, [], ◌∷◌, ◌≡◌, refl, subst, sym, ap,
  ◌∙◌, arith, Result, ok, err, ◌==◌, if◌then◌else◌,
}
use hawklive.Prelude.Effects.{Effect, ◌>>=◌, ensure}
use hawklive.Email.Tables.{is_some, same}
use hawklive.Sync.Status.{Error, invalid}
use hawklive.Sync.Config.{
  ApplyStatus, applied, awaiting, Payload, Node, Remote, apply_configuration_payload, ask, the,
  succeeded, finish_pull, apply_pulled, with_customer, for_customer, accept_configuration,
  pull_with, pull_config_once, ensure_customer, same_customer, finish_topology, apply_topology,
  with_rooms, accept_topology, create_item, create_topology_item_once, restarted,
}
use hawklive.Sync.Revision.{
  IsCurrent, IsSaving, IsApplying, Keeps, bind-Keeps, ensure-Keeps, the-Keeps, apply-IsCurrent,
  ask-IsCurrent, same-IsCurrent,
}

module _ {R W : Type 0} (remote : Remote R W) (Has : ℕ → W → Type 0)
    (law : IsApplying remote Has) where
  abbrev I : Node W → Type 0
  I = IsCurrent (IsSaving remote) Has

  apply_pulled-IsCurrent :
      (d : Payload R) (r : ℕ) → d.revision ≡ some r → Keeps I (apply_pulled remote d r)
  apply_pulled-IsCurrent d r at =
      bind-Keeps I (apply_configuration_payload remote d r) (finish_pull remote r)
        (apply-IsCurrent remote Has law d r at)
        (λ changed s i. same-IsCurrent remote Has law s _ refl refl refl refl i)

  with_customer-IsCurrent :
      (d : Payload R) (customer : ℕ) → Keeps I (with_customer remote d customer)
  with_customer-IsCurrent d customer s i =
      the-Keeps I d.revision (apply_pulled remote d) (apply_pulled-IsCurrent d)
        (record s { customer_id = some customer })
        (same-IsCurrent remote Has law s _ refl refl refl refl i)

  accept-IsCurrent : (d : Payload R) → Keeps I (accept_configuration remote d)
  accept-IsCurrent d s i =
      bind-Keeps I (ensure (same d.site_id s.site_id) invalid) (for_customer remote d)
        (ensure-Keeps I (same d.site_id s.site_id) invalid)
        (λ _.
          the-Keeps I d.customer_id (with_customer remote d) (λ c _. with_customer-IsCurrent d c))
        s i

  pull_with-IsCurrent :
      (a : Option (Payload R → W → Result Error Unit × W)) → Keeps I (pull_with remote a)
  pull_with-IsCurrent none = λ s i. i
  pull_with-IsCurrent (some apply) =
      bind-Keeps I (ask remote) (accept_configuration remote)
        (ask-IsCurrent remote Has law remote law.asked) accept-IsCurrent

  pull-IsCurrent : Keeps I (pull_config_once remote)
  unfolding pull_config_once
  pull-IsCurrent = pull_with-IsCurrent remote.applier

  apply_topology-IsCurrent :
      (d : Payload R) (r : ℕ) → d.revision ≡ some r → Keeps I (apply_topology remote d r)
  apply_topology-IsCurrent d r at =
      bind-Keeps I (apply_configuration_payload remote d r) (finish_topology remote d)
        (apply-IsCurrent remote Has law d r at)
        (λ changed s i. same-IsCurrent remote Has law s _ refl refl refl refl i)

  accept_topology-IsCurrent : (d : Payload R) → Keeps I (accept_topology remote d)
  accept_topology-IsCurrent d s i =
      bind-Keeps I (ensure _ invalid) (with_rooms remote d) (ensure-Keeps I _ invalid)
        (λ _. the-Keeps I d.revision (apply_topology remote d) (apply_topology-IsCurrent d)) s i

  ensure_customer-IsCurrent : (c : Option ℕ) → Keeps I (ensure_customer remote c)
  ensure_customer-IsCurrent none = pull-IsCurrent
  ensure_customer-IsCurrent (some c) = λ s i. i

  topology-IsCurrent :
      (create : Remote R W)
      → ((r : ℕ) (w : W) → Has r w → Has r (create.request w).1)
      → Keeps I (create_topology_item_once remote create)
  unfolding create_topology_item_once
  topology-IsCurrent create h s i =
      bind-Keeps I (ensure_customer remote s.customer_id) (create_item remote create)
        (ensure_customer-IsCurrent s.customer_id)
        (λ _.
          bind-Keeps I (ask create) (accept_topology remote) (ask-IsCurrent remote Has law create h)
            accept_topology-IsCurrent)
        s i

  restarted-IsCurrent :
      (s : Node W) → s.last_config_revision ≡ s.saved_revision → I s → I (restarted s)
  unfolding restarted
  restarted-IsCurrent s same_kept i = record {
    kept = λ _. refl;
    there = λ r e. i.there r (same_kept ∙ e);
    shown = shown_of s.saved_revision;
  }
    where
      shown_of :
          (o : Option ℕ) → (if is_some o then applied else awaiting) ≡ applied → is_some o ≡ true
      shown_of none h = absurd (ground (arith, h))
      shown_of (some r) h = refl

-- What happens to the configuration of a collector: it is pulled, an item of the topology is created
-- with the identifier of the request that sends it, or the collector is started again while the
-- revision that is kept is the one in memory, as it is unless the last write of it raised.
pub data Step {R W : Type 0} (remote : Remote R W) (create : ℕ → W → Result Error (Payload R) × W)
    : Node W → Node W → Type 0 where
  pulled : (s : Node W) → Step remote create s (pull_config_once remote s).1
  created :
      (item : ℕ) (s : Node W)
      → Step remote create s
          (create_topology_item_once remote (record remote { request = create item }) s).1
  started :
      (s : Node W) → s.last_config_revision ≡ s.saved_revision → Step remote create s (restarted s)

pub data Steps {R W : Type 0} (remote : Remote R W) (create : ℕ → W → Result Error (Payload R) × W)
    : Node W → Node W → Type 0 where
  done : (s : Node W) → Steps remote create s s
  then_step :
      (a b c : Node W) → Step remote create a b → Steps remote create b c → Steps remote create a c

module _ {R W : Type 0} (remote : Remote R W) (create : ℕ → W → Result Error (Payload R) × W)
    (Has : ℕ → W → Type 0) (law : IsApplying remote Has)
    (kept : (item r : ℕ) (w : W) → Has r w → Has r (create item w).1) where
  step-IsCurrent :
      (a b : Node W)
      → Step remote create a b
      → IsCurrent (IsSaving remote) Has a
      → IsCurrent (IsSaving remote) Has b
  step-IsCurrent a _ (pulled _) i = pull-IsCurrent remote Has law a i
  step-IsCurrent a _ (created item _) i =
      topology-IsCurrent remote Has law (record remote { request = create item }) (kept item) a i
  step-IsCurrent a _ (started _ e) i = restarted-IsCurrent remote Has law a e i

  -- After any pulls, creations and restarts the configuration of the revision in memory is in the
  -- collector's database, and the configuration shows as applied only if there is one; pulls that raise
  -- are included, also those that raise as the revision to be kept is written. If no such write ever
  -- raises, the revision in memory is the one that is kept. A restart is one at which the revision that
  -- is kept is the one in memory; all that was so at the start; and the applier writes a configuration
  -- with its revision or nothing.
  pub Steps-IsCurrent :
      (a b : Node W)
      → Steps remote create a b
      → IsCurrent (IsSaving remote) Has a
      → IsCurrent (IsSaving remote) Has b
  Steps-IsCurrent a _ (done _) i = i
  Steps-IsCurrent a c (then_step _ b _ step steps) i =
      Steps-IsCurrent b c steps (step-IsCurrent a b step i)
