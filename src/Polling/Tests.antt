-- ===== src/Polling/Tests.antt =====
-- A device that answers once and then not.
use hawklive.Prelude.{◌+◌, ℕ, ◌≤◌, ◌≡◌, refl, true, false, none, some, [], ◌∷◌, min}
use hawklive.Polling.{
  Options, Sample, Slot, World, offline_delay, persist_sample, failed, poll_device,
}
use hawklive.Polling.Outage.{poll_all, Kept, IsSaved, poll_all-outage, poll_device-saves_last}
use hawklive.Polling.Backoff.{Scheduled, offline_delay-bounds, poll_device-Scheduled}

abbrev options : Options
options = record { demo = false; poll_ms = 5000; record_ms = 60000; offline_backoff_max = 10000 }

abbrev sample : Sample ℕ
sample = record { timestamp = 70000; reading = 23 }

abbrev online : Slot ℕ
online = record {
  latest = some (record {
    received = some sample;
    from_device = true;
    online = true;
    error = none;
    connection_checked_at = 70000;
    failure_count = 0;
    retry_at = none;
  });
  failures = 0;
  next_poll_at = 75000;
  last_recorded = some 60000;
  failure_log = none;
  client_open = true;
  recorded = record { timestamp = 60000; reading = 22 } ∷ [];
  writable = true;
  logs = [];
}

abbrev silent : ℕ → World ℕ
silent now = record {
  outcome = none;
  raised = 1;
  changed = some false;
  wall = now;
  monotonic = now;
  storage_error = 2;
}

-- The polls one after the other.
abbrev after_one : Slot ℕ
after_one = poll_device options (silent 75000) online

abbrev after_two : Slot ℕ
after_two = poll_device options (silent 77000) after_one

once : after_one.failures ≡ 0 + 1
unfolding poll_device failed persist_sample
once = refl

twice : after_two.failures ≡ after_one.failures + 1
unfolding poll_device failed persist_sample
twice = refl

thrice : (poll_device options (silent 81000) after_two).failures ≡ after_two.failures + 1
unfolding poll_device failed persist_sample
thrice = refl

poll_all-outage_example :
    Kept online (poll_all options (silent 75000 ∷ silent 77000 ∷ silent 81000 ∷ []) online)
poll_all-outage_example =
    poll_all-outage options (silent 75000 ∷ silent 77000 ∷ silent 81000 ∷ []) online
      (once, (twice, (thrice, tt)))

poll_device-saves_last_example : IsSaved sample online (poll_device options (silent 75000) online)
poll_device-saves_last_example =
    poll_device-saves_last options (silent 75000) online sample once refl refl

poll_device-Scheduled_example :
    Scheduled options (silent 75000) online (poll_device options (silent 75000) online)
poll_device-Scheduled_example = poll_device-Scheduled options (silent 75000) online

offline_delay-bounds_example :
    (min 1000 10000 ≤ offline_delay options 3)
    × (offline_delay options 3 ≤ 10000)
    × (offline_delay options 3 ≤ offline_delay options 4)
offline_delay-bounds_example = offline_delay-bounds options 3
