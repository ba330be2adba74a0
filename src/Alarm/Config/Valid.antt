-- ===== src/Alarm/Config/Valid.antt =====
-- What a policy that was accepted says.
use Prim.Native.String.{count}
use hawklive.Prelude.{
  ℕ, ◌≤◌, Bool, true, false, not, ◌||◌, Option, none, some, List, [], ◌∷◌, ◌≡◌, refl, subst, arith,
  map, ap₂, All, Result, ok, err, ◌>>=◌, guard, traverse, leb, leb→le,
}
use hawklive.Email.Tables.{is_some}
use hawklive.Alarm.Config.{
  Channel, Mapping, Whole, negative, natural, Bound, Python, Refusal, enabled_of, value_of,
  enabled_field, max_field, profile_name, alarm_delay_seconds, negative_limit, limit_required,
  name_too_long, temperature_order, humidity_order, temperature_min, temperature_max, humidity_min,
  humidity_max, Limit, Thresholds, particle_alarm_channels, or_custom, limit_of, not_negative,
  channel_limit, bound_of, in_range, normalise_alarm_thresholds,
}

-- A value that is returned after a step, and the one that the step returned.
pub ok-bind :
    {E A B : Type 0} (m : Result E A) (f : A → Result E B) (b : B)
    → (m >>= f) ≡ ok b
    → (a : A) × (m ≡ ok a) × (f a ≡ ok b)
ok-bind (ok a) f b h = (a, refl, h)
ok-bind (err e) f b h = absurd (ground (arith, h))

pub ok-guard : {E : Type 0} (b : Bool) (e : E) (u : Unit) → guard b e ≡ ok u → b ≡ true
ok-guard true e u h = refl
ok-guard false e u h = absurd (ground (arith, h))

pub ok-injective : {E A : Type 0} (a b : A) → ◌≡◌ {A = Result E A} (ok a) (ok b) → a ≡ b
ok-injective a b h = ground (arith, h)

module _ {F : Type 0} (py : Python F) where
  -- A limit is finite and not negative, and an enabled channel has one.
  abbrev pub IsLimit : Limit F → Type 0
  IsLimit l = (not_negative py l.limit ≡ true) × ((not l.enabled || is_some l.limit) ≡ true)

  abbrev pub AreLimits : List Channel → List (Limit F) → Type 0
  AreLimits cs ls = (map (λ l. l.channel) ls ≡ cs) × All IsLimit ls

  pub record IsValid (t : Thresholds F) : Type 0 where
    pub name : count t.profile_name ≤ 100
    pub limits : AreLimits particle_alarm_channels t.limits
    pub temperature : py.less t.temperature_min t.temperature_max ≡ true
    pub humidity : py.less t.humidity_min t.humidity_max ≡ true
    pub delay : t.alarm_delay_seconds ≤ 86400

  channel_limit-IsLimit :
      (values : Mapping F) (fallback : Option (Mapping F)) (c : Channel) (l : Limit F)
      → channel_limit py values fallback c ≡ ok l
      → (l.channel ≡ c) × IsLimit l
  unfolding channel_limit
  channel_limit-IsLimit values fallback c l h =
      let on = enabled_of py (enabled_field c) (value_of py values fallback (enabled_field c)) in
      let raw = limit_of py (max_field c) (value_of py values fallback (max_field c)) in
      let (enabled, _, h) = ok-bind on _ l h in
      let (limit, _, h) = ok-bind raw _ l h in
      let (_, low, h) = ok-bind (guard (not_negative py limit) (negative_limit c)) _ l h in
      let (_, there, h) = ok-bind (guard (not enabled || is_some limit) (limit_required c)) _ l h in
      subst (λ x. (x.channel ≡ c) × IsLimit x) (ok-injective _ l h)
        (refl, (ok-guard _ _ _ low, ok-guard _ _ _ there))

  channels-AreLimits :
      (values : Mapping F) (fallback : Option (Mapping F)) (cs : List Channel) (ls : List (Limit F))
      → traverse (channel_limit py values fallback) cs ≡ ok ls
      → AreLimits cs ls
  unfolding traverse
  channels-AreLimits values fallback [] ls h = subst (AreLimits []) (ok-injective _ ls h) (refl, tt)
  channels-AreLimits values fallback (c ∷ cs) ls h =
      let (l, first, h) = ok-bind (channel_limit py values fallback c) _ ls h in
      let (rest, others, h) = ok-bind (traverse (channel_limit py values fallback) cs) _ ls h in
      let one = channel_limit-IsLimit values fallback c l first in
      let more = channels-AreLimits values fallback cs rest others in
      subst (AreLimits (c ∷ cs)) (ok-injective _ ls h)
        (ap₂ (λ x xs. x ∷ xs) one.0 more.0, (one.1, more.1))

  in_range-bound : (w : Option Whole) (n : ℕ) → in_range py w ≡ ok n → n ≤ 86400
  in_range-bound none n h = absurd (ground (arith, h))
  in_range-bound (some negative) n h = absurd (ground (arith, h))
  in_range-bound (some (natural m)) n h = ground (arith, h)

-- A policy that is accepted, whatever was sent and whatever the fallback, has the six channels in
-- their order, no negative limit, a limit for every enabled channel, bounds in their order, a delay of
-- a day at most and a name of a hundred characters at most.
pub normalise_alarm_thresholds-IsValid :
    {F : Type 0} (py : Python F) (values : Mapping F) (fallback : Option (Mapping F))
    (t : Thresholds F)
    → normalise_alarm_thresholds py values fallback ≡ ok t
    → IsValid py t
unfolding normalise_alarm_thresholds
normalise_alarm_thresholds-IsValid {F = F} py values fallback t h =
    let name = or_custom (py.stripped (value_of py values fallback profile_name)) in
    let bound : Bound → Result Refusal F = bound_of py values fallback in
    let whole = in_range py (py.int (value_of py values fallback alarm_delay_seconds)) in
    let (_, named, h) = ok-bind (guard (leb (count name) 100) name_too_long) _ t h in
    let (limits, ordered, h) =
      ok-bind (traverse (channel_limit py values fallback) particle_alarm_channels) _ t h in
    let (t_min, _, h) = ok-bind (bound temperature_min) _ t h in
    let (t_max, _, h) = ok-bind (bound temperature_max) _ t h in
    let (h_min, _, h) = ok-bind (bound humidity_min) _ t h in
    let (h_max, _, h) = ok-bind (bound humidity_max) _ t h in
    let (_, warm, h) = ok-bind (guard (py.less t_min t_max) temperature_order) _ t h in
    let (_, wet, h) = ok-bind (guard (py.less h_min h_max) humidity_order) _ t h in
    let (delay, short, h) = ok-bind whole _ t h in
    subst (IsValid py) (ok-injective _ t h) (record {
      name = leb→le _ _ (ok-guard _ _ _ named);
      limits = channels-AreLimits py values fallback particle_alarm_channels limits ordered;
      temperature = ok-guard _ _ _ warm;
      humidity = ok-guard _ _ _ wet;
      delay =
          in_range-bound py (py.int (value_of py values fallback alarm_delay_seconds)) delay short;
    })
