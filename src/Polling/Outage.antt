-- ===== src/Polling/Outage.antt =====
-- What an outage does to the table of readings.
use hawklive.Prelude.{
  ℕ, arith, if-both, not, ◌&&◌, ltb, ◌+◌, ◌≡◌, refl, sym, ap, subst, ◌∙◌, ◌⊎◌, inl, inr, ==_iff,
  Bool-cases, Bool, true, false, Option, none, some, List, [], ◌∷◌, ◌++◌, if◌then◌else◌,
}
use hawklive.Polling.{
  Options, Log, device_recovered, device_connected, add_log, is_due, stored, evaluated, attempted,
  succeeded, connection_log, Sample, Latest, Slot, World, same, persist_sample, saved, last_sample,
  save_last, offline, offline_delay, failure_logged, log_due, failed, poll_device,
}

same-some : (o : Option ℕ) (t : ℕ) → same o t ≡ true → o ≡ some t
same-some none t h = cc
same-some (some s) t h = ap some ((==_iff s t).0 h)

module _ {R : Type 0} where
  -- The polls of a device, one after the other.
  unfoldable pub poll_all : Options → List (World R) → Slot R → Slot R
  poll_all o [] s = s
  poll_all o (w ∷ ws) s = poll_all o ws (poll_device o w s)

  -- Nothing is stored, or the last sample of the device is, once.
  abbrev pub Kept : Slot R → Slot R → Type 0
  Kept s s' =
      (s'.recorded ≡ s.recorded)
      ⊎ ((sample : Sample R) × (last_sample s.latest ≡ some sample)
          × (s'.recorded ≡ s.recorded ++ sample ∷ []))

  offline-last :
      (w : World R) (e n d : ℕ) (l : Option (Latest R))
      → last_sample (some (offline w e n d l)) ≡ none
  offline-last w e n d none = refl
  offline-last w e n d (some l) = refl

  pub logged-keeps :
      {A : Type 0} (f : Slot R → A) (n e t : ℕ) (s : Slot R)
      → ((l : List _) (h : Option _) → f (record s { logs = l; failure_log = h }) ≡ f s)
      → f (failure_logged n e t s) ≡ f s
  logged-keeps f n e t s h = elim (Bool-cases (log_due n e t s.failure_log)) [
    | inl q ↦ rw q (h _ _)
    | inr q ↦ rw q refl
  ]

  pub connection_log-keeps :
      {A : Type 0} (f : Slot R → A) (o : Options) (first : Bool) (n : ℕ) (s : Slot R)
      → ((l : List Log) → f (record s { logs = l }) ≡ f s)
      → f (connection_log o first n s) ≡ f s
  connection_log-keeps f o first n s h =
      if-both (λ s'. f s' ≡ f s) (not o.demo && ltb 0 n) {a = add_log (device_recovered n) s}
        {b = if not o.demo && first then add_log device_connected s else s} (h _)
        (if-both (λ s'. f s' ≡ f s) (not o.demo && first) {a = add_log device_connected s} {b = s}
          (h _) refl)

  record Stored (sample : Sample R) (s s' : Slot R) : Type 0 where
    recorded_after : (s'.recorded ≡ s.recorded) ⊎ (s'.recorded ≡ s.recorded ++ sample ∷ [])
    latest_after : s'.latest ≡ s.latest

  persist_sample-Stored :
      (sample : Sample R) (s : Slot R) → Stored sample s (saved (persist_sample sample s))
  unfolding persist_sample
  persist_sample-Stored sample s =
      let now_stored : Bool × Slot R = (
        true,
        record s { recorded = s.recorded ++ sample ∷ []; last_recorded = some sample.timestamp },
      ) in
      let or_not : Bool × Slot R = if s.writable then now_stored else (false, s) in
      elim (Bool-cases (same s.last_recorded sample.timestamp)) [
        | inl e ↦
            subst (λ t. Stored sample s (saved (if t then (true, s) else or_not))) (sym e)
              record { recorded_after = inl refl; latest_after = refl }
        | inr e ↦
            subst (λ t. Stored sample s (saved (if t then (true, s) else or_not))) (sym e)
              (elim (Bool-cases s.writable) [
                | inl w ↦
                    subst (λ t. Stored sample s (saved (if t then now_stored else (false, s))))
                      (sym w) record { recorded_after = inr refl; latest_after = refl }
                | inr w ↦
                    subst (λ t. Stored sample s (saved (if t then now_stored else (false, s))))
                      (sym w) record { recorded_after = inl refl; latest_after = refl }
              ])
      ]

  save_last-Kept :
      (o : Option (Sample R)) (s : Slot R)
      → let s' = save_last o s in
        (s'.latest ≡ s.latest)
        × ((s'.recorded ≡ s.recorded)
            ⊎ ((sample : Sample R) × (o ≡ some sample) × (s'.recorded ≡ s.recorded ++ sample ∷ [])))
  save_last-Kept none s = (refl, inl refl)
  save_last-Kept (some sample) s =
      let st = persist_sample-Stored sample s in
      (st.latest_after, elim st.recorded_after [ inl e ↦ inl e | inr e ↦ inr (sample, refl, e) ])

  abbrev pub went_offline : Options → World R → ℕ → Slot R → Slot R
  went_offline o w e s =
      let delay = offline_delay o (s.failures + 1) in
      record s {
        client_open = false;
        failures = s.failures + 1;
        next_poll_at = w.monotonic + delay;
        latest = some (offline w e (s.failures + 1) delay s.latest);
      }

  failed-Kept :
      (o : Options) (w : World R) (e : ℕ) (s : Slot R)
      → Kept s (failed o w e s) × (last_sample (failed o w e s).latest ≡ none)
  unfolding failed
  failed-Kept o w e s =
      let s1 = went_offline o w e s in
      let s2 = save_last (last_sample s.latest) s1 in
      let k = save_last-Kept (last_sample s.latest) s1 in
      let recorded_eq =
        logged-keeps (λ s. s.recorded) (s.failures + 1) e w.monotonic s2 (λ _ _. refl) in
      let latest_eq =
        logged-keeps (λ s. s.latest) (s.failures + 1) e w.monotonic s2 (λ _ _. refl) in
      (
        elim k.1 [
          | inl q ↦ inl (recorded_eq ∙ q)
          | inr (sample, h, q) ↦ inr (sample, h, recorded_eq ∙ q)
        ],
        ap last_sample (latest_eq ∙ k.0) ∙ offline-last w e (s.failures + 1) _ s.latest,
      )

  -- A poll that counts a failure is one that took the `except` branch.
  abbrev Failing : Options → World R → Slot R → Slot R → Type 0
  Failing o w s s' = s'.failures ≡ s.failures + 1 → (e : ℕ) × (s' ≡ failed o w e s)

  succeeded-failures :
      (o : Options) (w : World R) (sample : Sample R) (before s : Slot R)
      → (succeeded o w sample before s).failures ≡ 0
  unfolding succeeded
  succeeded-failures o w sample before s =
      connection_log-keeps (λ s. s.failures) o _ before.failures _ (λ _. refl)

  -- Storing that raises leaves everything as it was.
  Unstored : Slot R → Bool × Slot R → Type 0
  Unstored s (true, s') = Unit
  Unstored s (false, s') = s' ≡ s

  persist_sample-Unstored : (sample : Sample R) (s : Slot R) → Unstored s (persist_sample sample s)
  unfolding persist_sample Unstored
  persist_sample-Unstored sample s =
      let now_stored : Bool × Slot R = (
        true,
        record s { recorded = s.recorded ++ sample ∷ []; last_recorded = some sample.timestamp },
      ) in
      if-both (Unstored s) (same s.last_recorded sample.timestamp) {a = (true, s)}
        {b = if s.writable then now_stored else (false, s)} tt
        (if-both (Unstored s) s.writable {a = now_stored} {b = (false, s)} tt refl)

  stored-Failing :
      (o : Options) (w : World R) (sample : Sample R) (s : Slot R) (r : Bool × Slot R)
      → Unstored s r
      → Failing o w s (stored o w sample s r)
  unfolding Unstored
  stored-Failing o w sample s (true, s') u h =
      absurd (omega (arith, succeeded-failures o w sample s s', h))
  stored-Failing o w sample s (false, s') u h = (w.storage_error, ap (failed o w w.storage_error) u)

  evaluated-Failing :
      (o : Options) (w : World R) (sample : Sample R) (changed : Option Bool) (s : Slot R)
      → Failing o w s (evaluated o w sample changed s)
  unfolding Unstored
  evaluated-Failing o w sample none s = λ h. (w.raised, refl)
  evaluated-Failing o w sample (some changed) s = stored-Failing o w sample s _ (
      if-both (Unstored s) (is_due o changed sample s) {a = persist_sample sample s} {b = (true, s)}
        (persist_sample-Unstored sample s) tt)

  attempted-Failing :
      (o : Options) (w : World R) (outcome : Option (Sample R)) (s : Slot R)
      → Failing o w s (attempted o w outcome s)
  attempted-Failing o w none s = λ h. (w.raised, refl)
  attempted-Failing o w (some sample) s = evaluated-Failing o w sample w.changed s

  failed_poll : (o : Options) (w : World R) (s : Slot R) → Failing o w s (poll_device o w s)
  unfolding poll_device
  failed_poll o w s = attempted-Failing o w w.outcome s

  -- Every one of the polls fails: it counts one more failure.
  abbrev pub AllFail : Options → List (World R) → Slot R → Type 0
  AllFail o [] s = Unit
  AllFail o (w ∷ ws) s =
      ((poll_device o w s).failures ≡ s.failures + 1) × AllFail o ws (poll_device o w s)

  failed_poll-Kept :
      (o : Options) (w : World R) (s : Slot R)
      → (poll_device o w s).failures ≡ s.failures + 1
      → Kept s (poll_device o w s) × (last_sample (poll_device o w s).latest ≡ none)
  failed_poll-Kept o w s h =
      let f = failed_poll o w s h in
      subst (λ s'. Kept s s' × (last_sample s'.latest ≡ none)) (sym f.1) (failed-Kept o w f.0 s)

  quiet :
      (o : Options) (ws : List (World R)) (s : Slot R)
      → AllFail o ws s
      → last_sample s.latest ≡ none
      → (poll_all o ws s).recorded ≡ s.recorded
  unfolding poll_all
  quiet o [] s h l = refl
  quiet o (w ∷ ws) s (h, hs) l =
      let k = failed_poll-Kept o w s h in
      let same_recorded : (poll_device o w s).recorded ≡ s.recorded = elim k.0 [
        | inl q ↦ q
        | inr (sample, some_sample, q) ↦ cc
      ] in
      quiet o ws (poll_device o w s) hs k.1 ∙ same_recorded

  -- However many polls of a device fail one after the other, because the device cannot be read or
  -- because the alarms or the table of readings raise, they add at most one reading to the table: the
  -- last sample that the device gave while it was online, as it was received.
  pub poll_all-outage :
      (o : Options) (ws : List (World R)) (s : Slot R) → AllFail o ws s → Kept s (poll_all o ws s)
  unfolding poll_all
  poll_all-outage o [] s h = inl refl
  poll_all-outage o (w ∷ ws) s (h, hs) =
      let k = failed_poll-Kept o w s h in
      let rest = quiet o ws (poll_device o w s) hs k.1 in
      elim k.0 [ inl q ↦ inl (rest ∙ q) | inr (sample, l, q) ↦ inr (sample, l, rest ∙ q) ]

  abbrev pub IsSaved : Sample R → Slot R → Slot R → Type 0
  IsSaved sample s s' =
      (s'.recorded
        ≡ (if same s.last_recorded sample.timestamp then s.recorded else s.recorded ++ sample ∷ []))
      × (s'.last_recorded ≡ some sample.timestamp)

  persist_sample-IsSaved :
      (sample : Sample R) (s : Slot R)
      → s.writable ≡ true
      → IsSaved sample s (saved (persist_sample sample s))
  unfolding persist_sample
  persist_sample-IsSaved sample s w = elim (Bool-cases (same s.last_recorded sample.timestamp)) [
    | inl e ↦ rw e (refl, same-some s.last_recorded sample.timestamp e)
    | inr e ↦ rw (e, w) (refl, refl)
  ]

  -- When a poll fails, for whatever reason, the last sample of a device that was online is in the
  -- table afterwards if the table can be written, also where the recording interval was not over: it
  -- is appended, as it was received, unless the reading stored last is of its time.
  pub poll_device-saves_last :
      (o : Options) (w : World R) (s : Slot R) (sample : Sample R)
      → (poll_device o w s).failures ≡ s.failures + 1
      → last_sample s.latest ≡ some sample
      → s.writable ≡ true
      → IsSaved sample s (poll_device o w s)
  unfolding failed
  poll_device-saves_last o w s sample h l writable =
      let f = failed_poll o w s h in
      let s1 = went_offline o w f.0 s in
      let s2 = save_last (last_sample s.latest) s1 in
      let k = persist_sample-IsSaved sample s1 writable in
      subst (IsSaved sample s) (sym f.1) (
        logged-keeps (λ s. s.recorded) (s.failures + 1) f.0 w.monotonic s2 (λ _ _. refl)
            ∙ ap (λ o. (save_last o s1).recorded) l
            ∙ k.0,
        logged-keeps (λ s. s.last_recorded) (s.failures + 1) f.0 w.monotonic s2 (λ _ _. refl)
            ∙ ap (λ o. (save_last o s1).last_recorded) l
            ∙ k.1,
      )
