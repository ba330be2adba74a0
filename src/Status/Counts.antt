-- ===== src/Status/Counts.antt =====
-- The numbers of devices that a snapshot gives, and what stands behind a state.
use hawklive.Prelude.{
  ℕ, suc, ◌+◌, ◌≡◌, refl, ap, ap₂, ◌∙◌, sym, subst, ltb, leb, max, ◌*◌, ◌/◌, ◌||◌, Bool, true,
  false, ◌&&◌, Option, none, some, List, [], ◌∷◌, arith, map, length, count_where, if◌then◌else◌,
}
use hawklive.Status.{
  State, online, offline, unknown, Item, DeviceState, is_online, is_offline, is_unknown, current,
  says, state_of, device_state, reading_of, states_of, device_snapshot, Report, mask, status_with,
  cloud_device_status,
}

one_kind :
    (s : State)
    → (if is_online s then 1 else 0)
        + (if is_offline s then 1 else 0)
        + (if is_unknown s then 1 else 0)
      ≡ 1
one_kind online = refl
one_kind offline = refl
one_kind unknown = refl

counts_add_up :
    (ds : List DeviceState)
    → count_where (λ d. is_online d.state) ds
        + count_where (λ d. is_offline d.state) ds
        + count_where (λ d. is_unknown d.state) ds
      ≡ length ds
counts_add_up [] = refl
counts_add_up (d ∷ ds) = ground (arith, one_kind d.state, counts_add_up ds)

length-states_of :
    (running : Bool) (poll now : ℕ) (latest : List Item) (devices : List ℕ)
    → length (states_of running poll now latest devices) ≡ length devices
length-states_of running poll now latest [] = refl
length-states_of running poll now latest (id ∷ ids) =
    ap suc (length-states_of running poll now latest ids)

-- A check of the device that counts: it was made while the monitor runs, at most five seconds ahead of
-- now, and not longer ago than 45 seconds or two and a half polls, or the next try is not over 45
-- seconds overdue.
abbrev pub counts : Bool → ℕ → ℕ → Item → Bool
counts running poll now i =
    running
    && ltb 0 i.checked_at
    && leb i.checked_at (now + 5000)
    && (leb now (i.checked_at + 45000)
        || leb now (i.checked_at + poll * 5 / 2)
        || leb now (i.retry_at + 45000))

-- A check that counts read the device itself and did not fail.
abbrev pub was_read : Bool → ℕ → ℕ → Option Item → Bool
was_read running poll now none = false
was_read running poll now (some i) =
    counts running poll now i && i.from_device && says true i.online_flag

-- A check that counts failed.
abbrev pub was_lost : Bool → ℕ → ℕ → Option Item → Bool
was_lost running poll now none = false
was_lost running poll now (some i) =
    counts running poll now i && i.has_error && says false i.online_flag

by_tests :
    (c e f : Bool) (o : Option Bool)
    → is_online (
        if c
        then (if e && says false o then offline else if f && says true o then online else unknown)
        else unknown)
      ≡ (c && f && says true o)
by_tests false e f o = refl
by_tests true false false o = refl
by_tests true false true none = refl
by_tests true false true (some true) = refl
by_tests true false true (some false) = refl
by_tests true true false none = refl
by_tests true true false (some true) = refl
by_tests true true false (some false) = refl
by_tests true true true none = refl
by_tests true true true (some true) = refl
by_tests true true true (some false) = refl

-- A device is shown online exactly when its last check read the device itself without failing, while
-- the monitor runs, and the check is neither from the future nor out of date.
pub state_of-online :
    (running : Bool) (poll now : ℕ) (i : Item)
    → is_online (state_of running poll now i)
      ≡ (current running poll now i && i.from_device && says true i.online_flag)
unfolding state_of
state_of-online running poll now i =
    by_tests (current running poll now i) i.has_error i.from_device i.online_flag

by_tests_offline :
    (c e f : Bool) (o : Option Bool)
    → is_offline (
        if c
        then (if e && says false o then offline else if f && says true o then online else unknown)
        else unknown)
      ≡ (c && e && says false o)
by_tests_offline false e f o = refl
by_tests_offline true false false o = refl
by_tests_offline true false true none = refl
by_tests_offline true false true (some true) = refl
by_tests_offline true false true (some false) = refl
by_tests_offline true true false none = refl
by_tests_offline true true false (some true) = refl
by_tests_offline true true false (some false) = refl
by_tests_offline true true true none = refl
by_tests_offline true true true (some true) = refl
by_tests_offline true true true (some false) = refl

within_either :
    (now a b c : ℕ)
    → leb now (max (a + max 45000 b) c) ≡ (leb now (a + 45000) || leb now (a + b) || leb now c)
within_either now a b c = ground arith

current-counts :
    (running : Bool) (poll now : ℕ) (i : Item)
    → current running poll now i ≡ counts running poll now i
current-counts running poll now i =
    ap (λ b. running && ltb 0 i.checked_at && leb i.checked_at (now + 5000) && b)
      (within_either now i.checked_at (poll * 5 / 2) (i.retry_at + 45000))

state-online :
    (running : Bool) (poll now id : ℕ) (o : Option Item)
    → is_online (device_state running poll now id o).state ≡ was_read running poll now o
state-online running poll now id none = refl
state-online running poll now id (some i) =
    state_of-online running poll now i
    ∙ ap (λ c. c && i.from_device && says true i.online_flag) (current-counts running poll now i)

state-offline :
    (running : Bool) (poll now id : ℕ) (o : Option Item)
    → is_offline (device_state running poll now id o).state ≡ was_lost running poll now o
unfolding state_of
state-offline running poll now id none = refl
state-offline running poll now id (some i) =
    by_tests_offline (current running poll now i) i.has_error i.from_device i.online_flag
    ∙ ap (λ c. c && i.has_error && says false i.online_flag) (current-counts running poll now i)

count-states_of :
    (p : State → Bool) (q : Option Item → Bool) (running : Bool) (poll now : ℕ) (latest : List Item)
    (devices : List ℕ)
    → ((id : ℕ) (o : Option Item) → p (device_state running poll now id o).state ≡ q o)
    → count_where (λ d. p d.state) (states_of running poll now latest devices)
      ≡ count_where (λ id. q (reading_of id latest)) devices
count-states_of p q running poll now latest [] h = refl
count-states_of p q running poll now latest (id ∷ ids) h =
    ap₂ (λ b n. if b then suc n else n) (h id (reading_of id latest))
      (count-states_of p q running poll now latest ids h)

-- A snapshot counts as online the devices whose last check counts, read the device itself and did not
-- fail, as offline those whose last check counts and failed, and every other device as unknown. A
-- check counts while the monitor runs if its time is known, is at most five seconds ahead, and is not
-- longer ago than 45 seconds or two and a half polls, or if its retry is not over 45 seconds overdue.
pub device_snapshot-classifies :
    (devices : List ℕ) (latest : List Item) (running : Bool) (poll now : ℕ)
    → let s = device_snapshot devices latest running poll now in
      (s.device_online
        ≡ count_where (λ id. was_read running poll now (reading_of id latest)) devices)
      × (s.device_offline
          ≡ count_where (λ id. was_lost running poll now (reading_of id latest)) devices)
      × (s.device_online + s.device_offline + s.device_unknown ≡ length devices)
unfolding device_snapshot
device_snapshot-classifies devices latest running poll now = (
  count-states_of is_online (was_read running poll now) running poll now latest devices
      (state-online running poll now),
  count-states_of is_offline (was_lost running poll now) running poll now latest devices
      (state-offline running poll now),
  counts_add_up (states_of running poll now latest devices)
      ∙ length-states_of running poll now latest devices,
)

masked_counts :
    (ds : List DeviceState)
    → (count_where (λ d. is_online d.state) (map (mask false) ds) ≡ 0)
      × (count_where (λ d. is_offline d.state) (map (mask false) ds) ≡ 0)
masked_counts [] = (refl, refl)
masked_counts (d ∷ ds) = ((masked_counts ds).0, (masked_counts ds).1)

status_off :
    (r : Report) (o : Option (List DeviceState))
    → let s = status_with r false o in
      (s.device_online ≡ 0) × (s.device_offline ≡ 0) × (s.device_status_known ≡ false)
status_off r none = (refl, refl, refl)
status_off r (some ds) = ((masked_counts ds).0, (masked_counts ds).1, refl)

-- Without a connection, or without a running monitor, the cloud shows no device as online or offline,
-- whatever the collector reported.
pub cloud_device_status-disconnected :
    (r : Report) (connected : Bool)
    → (connected && r.monitor_running) ≡ false
    → let s = cloud_device_status r connected in
      (s.device_online ≡ 0) × (s.device_offline ≡ 0) × (s.device_status_known ≡ false)
unfolding cloud_device_status
cloud_device_status-disconnected r connected h =
    subst
      (λ known.
        let s = status_with r known r.device_states in
        (s.device_online ≡ 0) × (s.device_offline ≡ 0) × (s.device_status_known ≡ false))
      (sym h) (status_off r r.device_states)
