-- ===== src/Ingest/AlarmBatches/Tests.antt =====
-- The start and the end of one alarm, and the e-mails that they cause.
use hawklive.Prelude.{ℕ, ◌+◌, true, none, some, List, [], ◌∷◌, map, ◌≡◌, refl, Option, length}
use hawklive.Email.Tables.{Cloud, device_email_suppressed}
use hawklive.Email.Enqueue.{enqueue, enqueue_each, enqueue_alarm}
use hawklive.Ingest.Tables.{Identity, Assignment, last_started, authorize_past}
use hawklive.Ingest.Alarms.{
  AlarmEventIn, AlarmBatch, merge_into, ingest_alarm, ingest_alarm_items, ingest_alarms,
}
use hawklive.Ingest.AlarmBatches.{IsTaken, ingest_alarms-IsTaken}

abbrev identity : Identity
identity = record { customer_id = 1; site_id = 2 }

abbrev assignments : List Assignment
assignments =
    record {
      customer_id = 1;
      device_id = 4;
      site_id = 2;
      cleanroom_id = 3;
      device_name = "D";
      cleanroom_name = "R";
      started_at = 50;
      ended_at = none;
    }
    ∷ []

abbrev cloud : Cloud ℕ
cloud = record {
  notifications = [];
  settings =
      record {
        customer_id = 1;
        enabled = true;
        recipients = 11 ∷ [];
        notify_recovery = true;
        enabled_since = 50;
        last_test_at = none;
      }
      ∷ [];
  events = [];
  devices = record { id = 4; customer_id = 1; enabled = true; name = "D" } ∷ [];
  cleanrooms = record { id = 3; customer_id = 1; name = "R" } ∷ [];
  periods = [];
}

abbrev event : Option ℕ → ℕ → AlarmEventIn ℕ
event ended peak = record {
  event_uuid = 5;
  customer_id = 1;
  site_id = 2;
  cleanroom_id = 3;
  device_id = 4;
  metric = 6;
  started_at = 100;
  ended_at = ended;
  trigger_value = 27;
  peak_value = peak;
  limit_description = "outside 18–25 °C";
}

abbrev batch : Option ℕ → ℕ → AlarmBatch ℕ
batch ended peak = record { site_id = 2; events = event ended peak ∷ [] }

abbrev began : Cloud ℕ
began = (ingest_alarms 110 (λ r. r) identity assignments (batch none 28) cloud).1

-- The end is taken, its message is queued once, and another end does not replace it.
ended_once :
    let over =
      (ingest_alarms 130 (λ r. r + 100) identity assignments (batch (some 120) 29) began).1 in
    let again =
      (ingest_alarms 140 (λ r. r + 200) identity assignments (batch (some 125) 29) over).1 in
    (map (λ e. e.ended_at) again.events ≡ some 120 ∷ []) × (length again.notifications ≡ 2)
unfolding ingest_alarms ingest_alarm_items ingest_alarm merge_into authorize_past last_started
    enqueue_alarm enqueue_each enqueue device_email_suppressed
ended_once = (refl, refl)

ingest_alarms-IsTaken_example :
    IsTaken
      (batch (some 120) 29)
      began
      (ingest_alarms 130 (λ r. r + 100) identity assignments (batch (some 120) 29) began)
ingest_alarms-IsTaken_example =
    ingest_alarms-IsTaken 130 (λ r. r + 100) identity assignments (batch (some 120) 29) began
