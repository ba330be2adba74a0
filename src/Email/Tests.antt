-- ===== src/Email/Tests.antt =====
-- The queue on one alarm of one device.
use hawklive.Prelude.{
  List, ℕ, ◌≡◌, refl, true, false, none, some, [], ◌∷◌, All, arith, length, ◌+◌, ◌==◌,
}
use hawklive.Email.Tables.{alarm, Settings, Event, Period, Cloud, device_email_suppressed}
use hawklive.Email.Enqueue.{enqueue, enqueue_each, enqueue_alarm, save_settings}
use hawklive.Email.Queue.{
  Job, Claim, claimed, settings_data, earliest, withdrawn, claim_notification, finish_notification,
}
use hawklive.Email.Invariant.{IsWellFormed, enqueue_alarm-IsWellFormed}
use hawklive.Email.Life.{Step, done, then_step, Steps-IsWellFormed}
use hawklive.Email.Leases.{Outcome, claim_notification-Outcome, finish_notification-taken_over}
use hawklive.Email.Maintenance.{Reply, active, start_maintenance, start_maintenance-suppresses}
use hawklive.Email.Repeat.{enqueue_alarm-again}

abbrev policy : Settings
policy = record {
  customer_id = 1;
  enabled = true;
  recipients = 11 ∷ 12 ∷ [];
  notify_recovery = true;
  enabled_since = 50;
  last_test_at = none;
}

abbrev event : Event ℕ
event = record {
  event_uuid = 5;
  customer_id = 1;
  site_id = 2;
  device_id = 4;
  cleanroom_id = 3;
  from_device = true;
  started_at = 100;
  ended_at = none;
  metric = 9;
  trigger_value = 31;
  peak_value = 33;
  limit_description = "outside 18–26 °C";
}

abbrev cloud : Cloud ℕ
cloud = record {
  notifications = [];
  settings = policy ∷ [];
  events = event ∷ [];
  devices = record { id = 4; customer_id = 1; enabled = true; name = "D" } ∷ [];
  cleanrooms = record { id = 3; customer_id = 1; name = "R" } ∷ [];
  periods = [];
}

abbrev reported : Cloud ℕ
reported = enqueue_alarm 200 (λ r. r) 1 5 cloud

two_messages : length reported.notifications ≡ 2
unfolding enqueue_alarm enqueue_each enqueue device_email_suppressed
two_messages = refl

reported-IsWellFormed : All IsWellFormed reported.notifications
reported-IsWellFormed = enqueue_alarm-IsWellFormed 200 (λ r. r) 1 5 cloud tt

claim_notification-Outcome_example :
    Outcome 300 77 (λ id. false) reported (claim_notification 300 77 (λ id. false) reported)
claim_notification-Outcome_example = claim_notification-Outcome 300 77 (λ id. false) reported

abbrev job : ℕ → ℕ → Job ℕ
job token attempts = record {
  id = 11;
  customer_id = 1;
  kind = alarm;
  recipient = 11;
  payload = some (record {
    event_uuid = 5;
    started_at = 100;
    ended_at = none;
    metric = 9;
    trigger_value = 31;
    peak_value = 33;
    limit = "outside 18–26 °C";
    room = "R";
    device = "D";
  });
  attempts = attempts;
  event_uuid = some 5;
  claim_token = token;
}

-- The lease of the first worker ran out, and the second one claimed the row.
abbrev first_claim : Claim ℕ × Cloud ℕ
first_claim = claim_notification 300 77 (λ id. false) reported

abbrev second_claim : Claim ℕ × Cloud ℕ
second_claim = claim_notification 600 78 (λ id. id == 12) first_claim.1

second_claim-claims :
    claim_notification 600 78 (λ id. id == 12) first_claim.1 ≡ (claimed (job 78 2), second_claim.1)
unfolding claim_notification earliest withdrawn settings_data enqueue_alarm enqueue_each enqueue
    device_email_suppressed
second_claim-claims = refl

finish_notification-taken_over_example :
    finish_notification 610 (job 77 1) none second_claim.1 ≡ (false, second_claim.1)
finish_notification-taken_over_example =
    finish_notification-taken_over 600 610 78 (λ id. id == 12) first_claim.1 second_claim.1
      (job 77 1) (job 78 2) none second_claim-claims refl (omega arith)

enqueue_alarm-again_example :
    enqueue_alarm 200 (λ r. r + 100) 1 5 (enqueue_alarm 200 (λ r. r) 1 5 cloud)
    ≡ enqueue_alarm 200 (λ r. r) 1 5 cloud
enqueue_alarm-again_example = enqueue_alarm-again 200 (λ r. r) (λ r. r + 100) 1 5 cloud

-- A maintenance of the device for an hour.
abbrev maintained : Reply × Cloud ℕ
maintained = start_maintenance 300 1 4 true 3900 cloud

maintained-starts : maintained ≡ (active true, maintained.1)
unfolding start_maintenance
maintained-starts = refl

-- An event of the device that starts while the maintenance runs.
abbrev during : Cloud ℕ
during = record maintained.1 {
  events = record event { event_uuid = 6; started_at = 900 } ∷ maintained.1.events;
}

start_maintenance-suppresses_example :
    (device_email_suppressed 1000 1 6 during ≡ true)
    × (enqueue_alarm 1000 (λ r. r) 1 6 during ≡ during)
start_maintenance-suppresses_example =
    start_maintenance-suppresses 300 1000 1 4 3900 6 (λ r. r) true true cloud maintained.1 during []
      (record event { event_uuid = 6; started_at = 900 }) maintained-starts refl refl refl
      (omega arith) (omega arith)

abbrev periods : List Period
periods =
    record { customer_id = 1; device_id = 4; started_at = 100; ends_at = 3900; ended_at = none }
    ∷ []

-- The event is reported, a worker claims its message, and the policy is switched off meanwhile.
Steps-IsWellFormed_example :
    All IsWellFormed
      (save_settings 310
        (record policy { enabled = false })
        (claim_notification 300 77
          (λ id. false)
          (enqueue_alarm 200 (λ r. r) 1 5 cloud)).1).notifications
Steps-IsWellFormed_example =
    Steps-IsWellFormed
      (then_step (Step.reported 200 (λ r. r) 1 5 cloud) (
        then_step (Step.claim 300 77 (λ id. false) (enqueue_alarm 200 (λ r. r) 1 5 cloud)) (
          then_step
            (Step.saved 310 (record policy { enabled = false })
              (claim_notification 300 77 (λ id. false) (enqueue_alarm 200 (λ r. r) 1 5 cloud)).1)
            done)))
      tt
