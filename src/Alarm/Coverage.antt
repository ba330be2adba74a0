-- ===== src/Alarm/Coverage.antt =====
-- What the checks of a sample cover.
use hawklive.Prelude.{
  Bool, true, not, ◌&&◌, Option, List, [], ◌∷◌, ◌++◌, ◌≡◌, refl, subst, sym, ap, ap₂, ◌∙◌, map,
  arith, ◌||◌, All, All-imply, ok, guard, traverse,
}
use hawklive.Email.Tables.{is_some}
use hawklive.Alarm.Machine.{Check}
use hawklive.Alarm.Config.{Python, Mapping, Limit, Thresholds, normalise_alarm_thresholds}
use hawklive.Alarm.Config.Valid.{
  IsValid, ok-bind, ok-guard, ok-injective, normalise_alarm_thresholds-IsValid,
}
use hawklive.Alarm.Checks.{
  Measurement, channel_missing, metric_of, Wording, channel_check, metric_checks,
}

map-append : {A B : Type 0} (f : A → B) (xs ys : List A) → map f (xs ++ ys) ≡ map f xs ++ map f ys
map-append f [] ys = refl
map-append f (x ∷ xs) ys = ap (λ l. f x ∷ l) (map-append f xs ys)

map-map :
    {A B D : Type 0} (f : A → B) (g : B → D) (xs : List A)
    → map g (map f xs) ≡ map (λ x. g (f x)) xs
map-map f g [] = refl
map-map f g (x ∷ xs) = ap (λ l. g (f x) ∷ l) (map-map f g xs)

module _ {F : Type 0} (py : Python F) (wording : Wording F) (sample : Measurement F) where
  -- An enabled channel was measured and has a limit.
  abbrev pub IsCovered : Limit F → Type 0
  IsCovered l =
      l.enabled ≡ true → (is_some (sample.particles l.channel) ≡ true) × (is_some l.limit ≡ true)

  covered :
      (l : Limit F)
      → not (l.enabled && not (is_some (sample.particles l.channel))) ≡ true
      → (not l.enabled || is_some l.limit) ≡ true
      → IsCovered l
  covered l h h' e = (
    both l.enabled (is_some (sample.particles l.channel)) h e,
    either l.enabled (is_some l.limit) h' e,
  )
    where
      both : (a b : Bool) → not (a && not b) ≡ true → a ≡ true → b ≡ true
      both a b h e = ground (arith, h, e)

      either : (a b : Bool) → (not a || b) ≡ true → a ≡ true → b ≡ true
      either a b h e = ground (arith, h, e)

  -- The checks of some limits.
  abbrev Checked : List (Limit F) → List (Check F) → Type 0
  Checked ls cs = (map (λ c. c.metric) cs ≡ map (λ l. metric_of l.channel) ls) × All IsCovered ls

  channel_checks-Checked :
      (ls : List (Limit F)) (cs : List (Check F))
      → All (λ l. (not l.enabled || is_some l.limit) ≡ true) ls
      → traverse (channel_check py wording sample) ls ≡ ok cs
      → Checked ls cs
  unfolding traverse channel_check
  channel_checks-Checked [] cs limited h = subst (Checked []) (ok-injective _ cs h) (refl, tt)
  channel_checks-Checked (l ∷ ls) cs limited h =
      let (c, first, h) = ok-bind (channel_check py wording sample l) _ cs h in
      let (rest, others, h) = ok-bind (traverse (channel_check py wording sample) ls) _ cs h in
      let there = not (l.enabled && not (is_some (sample.particles l.channel))) in
      let (_, measured, made) = ok-bind (guard there (channel_missing l.channel)) _ c first in
      let more = channel_checks-Checked ls rest limited.1 others in
      subst (Checked (l ∷ ls)) (ok-injective _ cs h) (
        ap₂ (λ x xs. x ∷ xs) (ap (λ x. x.metric) (sym (ok-injective _ c made))) more.0,
        (covered l (ok-guard there _ _ measured) limited.0, more.1),
      )

  -- A sample is checked against the six channels, the temperature and the humidity, each once, and
  -- every channel that is enabled was measured and has a limit.
  abbrev pub Covers : Thresholds F → List (Check F) → Type 0
  Covers t cs =
      (map (λ c. c.metric) cs ≡ 0 ∷ 1 ∷ 2 ∷ 3 ∷ 4 ∷ 5 ∷ 6 ∷ 7 ∷ []) × All IsCovered t.limits

  checks-Covers :
      (t : Thresholds F) (cs : List (Check F))
      → IsValid py t
      → metric_checks py wording sample t ≡ ok cs
      → Covers t cs
  unfolding metric_checks
  checks-Covers t cs valid h =
      let (some_checks, made, h) =
        ok-bind (traverse (channel_check py wording sample) t.limits) _ cs h in
      let (metrics, all) =
        channel_checks-Checked t.limits some_checks
          (All-imply _ (λ l. (not l.enabled || is_some l.limit) ≡ true) t.limits (λ l v. v.1)
            valid.limits.1)
          made in
      subst (Covers t) (ok-injective _ cs h) (
        map-append (λ c. c.metric) some_checks _
            ∙ ap (λ ms. ms ++ (6 ∷ 7 ∷ []))
                (metrics
                  ∙ sym (map-map (λ l. l.channel) metric_of t.limits)
                  ∙ ap (map metric_of) valid.limits.0),
        all,
      )

-- The checks of a sample against a policy that was accepted are one for each of the six channels, the
-- temperature and the humidity, in that order; where checks are made every enabled channel was
-- measured and has a limit.
pub metric_checks-Covers :
    {F : Type 0} (py : Python F) (wording : Wording F) (values : Mapping F)
    (fallback : Option (Mapping F)) (t : Thresholds F) (sample : Measurement F)
    (cs : List (Check F))
    → normalise_alarm_thresholds py values fallback ≡ ok t
    → metric_checks py wording sample t ≡ ok cs
    → Covers py wording sample t cs
metric_checks-Covers py wording values fallback t sample cs accepted made =
    checks-Covers py wording sample t cs
      (normalise_alarm_thresholds-IsValid py values fallback t accepted) made
