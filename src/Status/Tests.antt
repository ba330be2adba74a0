-- ===== src/Status/Tests.antt =====
-- A collector of two devices, one of which was read.
use hawklive.Prelude.{◌+◌, ◌≡◌, true, false, some, [], ◌∷◌}
use hawklive.Status.{online, Item, Report, reading_of, device_snapshot}
use hawklive.Status.Counts.{device_snapshot-classifies}

abbrev item : Item
item = record {
  device_id = 1;
  checked_at = 100000;
  retry_at = 0;
  has_error = false;
  online_flag = some true;
  from_device = true;
}

device_snapshot-classifies_example :
    let s = device_snapshot (1 ∷ 2 ∷ []) (item ∷ []) true 10000 120000 in
    (s.device_online ≡ 1)
    × (s.device_offline ≡ 0)
    × (s.device_online + s.device_offline + s.device_unknown ≡ 2)
unfolding reading_of
device_snapshot-classifies_example =
    device_snapshot-classifies (1 ∷ 2 ∷ []) (item ∷ []) true 10000 120000

abbrev report : Report
report = record {
  device_total = 2;
  monitor_running = true;
  device_states = some (record { device_id = 1; state = online; checked_at = 100000 } ∷ []);
  device_online = 1;
}
