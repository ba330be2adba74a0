-- ===== src/Polling/Backoff.antt =====
-- When a device is polled next.
use hawklive.Prelude.{
  ℕ, zero, suc, ◌+◌, ◌-◌, ◌*◌, ◌^◌, ◌≤◌, ◌≡◌, refl, ap, sym, subst, ◌∙◌, min, max, arith, inl, inr,
  if-both, Bool-cases, Bool, true, false, not, ◌||◌, Option, none, some, ◌∷◌, [], ◌++◌, ltb, leb,
  if◌then◌else◌, mul-pow-suc, le-mul-pow,
}
use hawklive.Polling.{
  Options, Sample, Slot, World, same, is_first, or_zero, is_due, persist_sample, saved, last_sample,
  save_last, offline_delay, stored, evaluated, attempted, failed, succeeded, poll_device,
}
use hawklive.Polling.Outage.{logged-keeps, connection_log-keeps, went_offline}

double : (a k : ℕ) → a * 2 ^ k ≤ a * 2 ^ suc k
double a k = omega (arith, mul-pow-suc a k)

step_monotone : (a n : ℕ) → a * 2 ^ min (n - 1) 8 ≤ a * 2 ^ min (suc n - 1) 8
step_monotone a zero = omega arith
step_monotone a (suc n) = elim (Bool-cases (ltb n 8)) [
  | inl e ↦
      let l : min (suc n - 1) 8 ≡ n = ground (arith, e) in
      let r : min (suc (suc n) - 1) 8 ≡ suc n = ground (arith, e) in
      subst (λ k. a * 2 ^ k ≤ a * 2 ^ min (suc (suc n) - 1) 8) (sym l)
        (subst (λ k. a * 2 ^ n ≤ a * 2 ^ k) (sym r) (double a n))
  | inr e ↦
      let l : min (suc n - 1) 8 ≡ 8 = ground (arith, e) in
      let r : min (suc (suc n) - 1) 8 ≡ 8 = ground (arith, e) in
      subst (λ k. a * 2 ^ k ≤ a * 2 ^ min (suc (suc n) - 1) 8) (sym l)
        (subst (λ k. a * 2 ^ 8 ≤ a * 2 ^ k) (sym r) (omega arith))
]

-- Another failure never shortens the delay, which is at most the maximum, and at least a second or
-- the maximum, if that is less.
pub offline_delay-bounds :
    (o : Options) (n : ℕ)
    → (min 1000 o.offline_backoff_max ≤ offline_delay o n)
      × (offline_delay o n ≤ o.offline_backoff_max)
      × (offline_delay o n ≤ offline_delay o (suc n))
offline_delay-bounds o n =
    let base = min 2000 (max 1000 o.poll_ms) in
    (
      omega (arith, le-mul-pow base (min (n - 1) 8)),
      omega arith,
      omega (arith, step_monotone base n),
    )

module _ {R : Type 0} where
  -- A sample is due if it is the first, follows a failure, changes an alarm or comes an interval after
  -- the last one stored; storing raises nothing unless a sample that is due, and not the one stored
  -- last, cannot be written.
  abbrev pub stores : Options → Sample R → Bool → Slot R → Bool
  stores o sample changed s =
      let due =
        is_first s.latest
        || ltb 0 s.failures
        || changed
        || leb (or_zero s.last_recorded + o.record_ms) sample.timestamp in
      not due || same s.last_recorded sample.timestamp || s.writable

  -- A poll succeeds where the device is read, the alarms are evaluated and storing raises nothing.

  abbrev pub goes_well : Options → Option (Sample R) → Option Bool → Slot R → Bool
  goes_well o none changed s = false
  goes_well o (some sample) none s = false
  goes_well o (some sample) (some changed) s = stores o sample changed s

  abbrev pub Ends : Options → World R → Slot R → Slot R → Bool → Type 0
  Ends o w s s' true = (s'.failures ≡ 0) × (s'.next_poll_at ≡ w.monotonic + max 100 o.poll_ms)
  Ends o w s s' false =
      (s'.failures ≡ s.failures + 1)
      × (s'.next_poll_at ≡ w.monotonic + offline_delay o (s.failures + 1))

  abbrev pub Scheduled : Options → World R → Slot R → Slot R → Type 0
  Scheduled o w s s' = Ends o w s s' (goes_well o w.outcome w.changed s)

  -- Storing a sample touches neither the failures nor the time of the next poll.
  Apart : Slot R → Slot R → Type 0
  Apart s s' = (s'.failures ≡ s.failures) × (s'.next_poll_at ≡ s.next_poll_at)

  persist_sample-Apart : (sample : Sample R) (s : Slot R) → Apart s (persist_sample sample s).1
  unfolding persist_sample Apart
  persist_sample-Apart sample s =
      let now_stored : Bool × Slot R = (
        true,
        record s { recorded = s.recorded ++ sample ∷ []; last_recorded = some sample.timestamp },
      ) in
      let P : Bool × Slot R → Type 0 = λ r. Apart s r.1 in
      if-both P (same s.last_recorded sample.timestamp) {a = (true, s)}
        {b = if s.writable then now_stored else (false, s)} (refl, refl)
        (if-both P s.writable {a = now_stored} {b = (false, s)} (refl, refl) (refl, refl))

  saved-Apart : (s : Slot R) (r : Bool × Slot R) → Apart s r.1 → Apart s (saved r)
  unfolding Apart
  saved-Apart s (true, s') h = h
  saved-Apart s (false, s') h = h

  save_last-Apart : (m : Option (Sample R)) (s : Slot R) → Apart s (save_last m s)
  unfolding Apart
  save_last-Apart none s = (refl, refl)
  save_last-Apart (some sample) s =
      saved-Apart s (persist_sample sample s) (persist_sample-Apart sample s)

  failed-Ends :
      (o : Options) (w : World R) (e : ℕ) (s s' : Slot R)
      → Apart s s'
      → Ends o w s (failed o w e s') false
  unfolding failed Apart
  failed-Ends o w e s s' h =
      let n = s'.failures + 1 in
      let s1 = went_offline o w e s' in
      let s2 = save_last (last_sample s'.latest) s1 in
      let k = save_last-Apart (last_sample s'.latest) s1 in
      (
        logged-keeps (λ s. s.failures) n e w.monotonic s2 (λ _ _. refl) ∙ k.0 ∙ ap (λ n. n + 1) h.0,
        logged-keeps (λ s. s.next_poll_at) n e w.monotonic s2 (λ _ _. refl)
            ∙ k.1
            ∙ ap (λ n. w.monotonic + offline_delay o (n + 1)) h.0,
      )

  succeeded-Ends :
      (o : Options) (w : World R) (sample : Sample R) (s s' : Slot R)
      → Ends o w s (succeeded o w sample s s') true
  unfolding succeeded
  succeeded-Ends o w sample s s' = (
    connection_log-keeps (λ s. s.failures) o _ s.failures _ (λ _. refl),
    connection_log-keeps (λ s. s.next_poll_at) o _ s.failures _ (λ _. refl),
  )

  stored-Ends :
      (o : Options) (w : World R) (sample : Sample R) (s : Slot R) (r : Bool × Slot R)
      → Apart s r.1
      → Ends o w s (stored o w sample s r) r.0
  stored-Ends o w sample s (true, s') h = succeeded-Ends o w sample s s'
  stored-Ends o w sample s (false, s') h = failed-Ends o w w.storage_error s s' h

  abbrev tried : Options → Sample R → Bool → Slot R → Bool × Slot R
  tried o sample changed s =
      if is_due o changed sample s then persist_sample sample s else (true, s)

  tried_cases :
      (due there writable : Bool) (x y z v : Slot R)
      → let stored_now : Bool × Slot R = if writable then (true, y) else (false, z) in
        let kept : Bool × Slot R = if there then (true, x) else stored_now in
        let all : Bool × Slot R = if due then kept else (true, v) in
        all.0 ≡ (not due || there || writable)
  tried_cases true true w x y z v = refl
  tried_cases true false true x y z v = refl
  tried_cases true false false x y z v = refl
  tried_cases false t w x y z v = refl

  -- Whether a sample, due or not, is stored without an error.
  tried-stores :
      (o : Options) (changed : Bool) (sample : Sample R) (s : Slot R)
      → (tried o sample changed s).0 ≡ stores o sample changed s
  unfolding persist_sample
  tried-stores o changed sample s =
      tried_cases (is_due o changed sample s) (same s.last_recorded sample.timestamp) s.writable s
        (record s { recorded = s.recorded ++ sample ∷ []; last_recorded = some sample.timestamp }) s
        s

  attempted-Ends :
      (o : Options) (w : World R) (outcome : Option (Sample R)) (changed : Option Bool) (s : Slot R)
      → w.changed ≡ changed
      → Ends o w s (attempted o w outcome s) (goes_well o outcome changed s)
  unfolding Apart
  attempted-Ends o w none changed s e = failed-Ends o w w.raised s s (refl, refl)
  attempted-Ends o w (some sample) none s e =
      subst (λ c. Ends o w s (evaluated o w sample c s) false) (sym e)
        (failed-Ends o w w.raised s s (refl, refl))
  attempted-Ends o w (some sample) (some changed) s e =
      subst (λ c. Ends o w s (evaluated o w sample c s) (stores o sample changed s)) (sym e)
        (subst (Ends o w s (stored o w sample s (tried o sample changed s)))
          (tried-stores o changed sample s)
          (stored-Ends o w sample s (tried o sample changed s) (
            if-both (λ (r : Bool × Slot R). Apart s r.1) (is_due o changed sample s)
              {a = persist_sample sample s} {b = (true, s)} (persist_sample-Apart sample s)
              (refl, refl))))

  -- A poll in which the device is read, the alarms are evaluated and storing raises nothing clears the
  -- count of failures and sets the next poll one interval ahead. Every other poll adds one to the count
  -- and sets the next poll by the delay for that count. Storing raises where the table cannot be
  -- written and the sample is not the one stored last, but is the first, follows a failure, changes an
  -- alarm, or comes an interval after the last one stored.
  pub poll_device-Scheduled :
      (o : Options) (w : World R) (s : Slot R) → Scheduled o w s (poll_device o w s)
  unfolding poll_device
  poll_device-Scheduled o w s = attempted-Ends o w w.outcome w.changed s refl
