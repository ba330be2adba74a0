-- ===== src/Sync/Channels.antt =====
-- What the state of the worker says, and how long a channel waits.
use hawklive.Prelude.{
  ℕ, suc, ◌+◌, ◌-◌, leb, All, ◌*◌, ◌^◌, ◌≤◌, ◌≡◌, refl, subst, sym, ap, ◌∙◌, ◌↔◌, min, arith, Bool,
  true, false, not, ◌&&◌, ◌||◌, Option, none, some, List, [], ◌∷◌, Result, ok, err, ◌==◌,
  if◌then◌else◌, if-both, Bool-cases, inl, inr, mul-pow-suc, le-mul-pow,
}
use hawklive.Prelude.Effects.{Effect}
use hawklive.Sync.Status.{
  Channel, number, same_channel, Error, ChannelError, Status, pop_error, put_error, is_empty,
  mark_success, mark_failure, stopped, failing, attention, connected, connecting, connection_state,
  urgent, gated, limit, delay, Service, Round, Plan, settle, channel_round,
}

state_cases :
    (running contact fine : Bool) (quarantined unassigned : ℕ)
    → ((if not running
          then stopped
          else if not fine && not contact
          then failing
          else if not (quarantined == 0) || not (unassigned == 0) || not fine
          then attention
          else if contact
          then connected
          else connecting)
        ≡ connected)
      ↔ ((running ≡ true) × (contact ≡ true) × (fine ≡ true) × (quarantined ≡ 0) × (unassigned ≡ 0))
state_cases running contact fine quarantined unassigned = ground arith

-- No error is of another channel.
abbrev pub OnlyOf : Channel → List ChannelError → Type 0
OnlyOf name es = All (λ e. same_channel e.channel name ≡ true) es

empty_iff :
    (name : Channel) (es : List ChannelError)
    → (is_empty (pop_error name es) ≡ true) ↔ OnlyOf name es
empty_iff name [] = ground arith
empty_iff name (e ∷ es) = elim (Bool-cases (same_channel e.channel name)) [
  | inl c ↦
      subst
        (λ b.
          (is_empty (if not b then e ∷ pop_error name es else pop_error name es) ≡ true)
          ↔ ((b ≡ true) × OnlyOf name es))
        (sym c) (ground (arith, empty_iff name es))
  | inr c ↦
      subst
        (λ b.
          (is_empty (if not b then e ∷ pop_error name es else pop_error name es) ≡ true)
          ↔ ((b ≡ true) × OnlyOf name es))
        (sym c) (ground arith)
]

-- A worker whose channel `name` had a success at a time shows as connected later exactly if it runs,
-- not more than 90 seconds have passed, no other channel has an error, no row is put aside and none
-- belongs to no site of its own.
pub mark_success-connected :
    (at later quarantined unassigned : ℕ) (running : Bool) (name : Channel) (s : Status)
    → (connection_state later running quarantined unassigned (mark_success at name s) ≡ connected)
      ↔ ((running ≡ true)
          × (later ≤ at + 90000)
          × OnlyOf name s.channel_errors
          × (quarantined ≡ 0)
          × (unassigned ≡ 0))
unfolding connection_state mark_success
mark_success-connected at later quarantined unassigned running name s =
    let cases =
      state_cases running (leb (later - at) 90000) (is_empty (pop_error name s.channel_errors))
        quarantined unassigned in
    let fine = empty_iff name s.channel_errors in
    let soon : (leb (later - at) 90000 ≡ true) ↔ (later ≤ at + 90000) = ground arith in
    (
      λ h. let c = cases.0 h in (c.0, soon.0 c.1, fine.0 c.2, c.3, c.4),
      λ c. cases.1 (c.0, soon.1 c.1, fine.1 c.2, c.3, c.4),
    )

-- A run that failed waits that long.
failed-wait :
    (draw : ℕ → ℕ) (name : Channel) (n : ℕ)
    → ((k : ℕ) → 800 * 2 ^ k ≤ draw k)
    → (1600 ≤ delay draw name (n + 1)) × (delay draw name (n + 1) ≤ limit name)
failed-wait draw name n h =
    let most : 30000 ≤ limit name =
      if-both (λ l. 30000 ≤ l) (urgent name) {a = 30000} {b = 300000} (omega arith) (omega arith) in
    let k : min (n + 1) 8 ≡ suc (min n 7) = omega arith in
    let drawn : 1600 ≤ draw (suc (min n 7)) =
      omega (arith, h (suc (min n 7)), mul-pow-suc 800 (min n 7), le-mul-pow 800 (min n 7)) in
    subst (λ i. (1600 ≤ min (limit name) (draw i)) × (min (limit name) (draw i) ≤ limit name))
      (sym k) (omega (arith, most, drawn), omega arith)

-- What a name has in the dictionary of errors.
abbrev pub error_of : Channel → List ChannelError → Option Error
error_of name [] = none
error_of name (e ∷ es) = if same_channel e.channel name then some e.error else error_of name es

and-false : (b : Bool) → (b && false) ≡ false
and-false true = refl
and-false false = refl

module _ {W : Type 0} (draw : ℕ → ℕ) (now : ℕ) (plan : Plan) (n : ℕ) where
  -- How a round ends that ran its action.
  abbrev pub Waits : Result Error ℕ → Round W → Type 0
  Waits (ok sent) r =
      (r.failure_count ≡ 0)
      × (r.wait ≡ (if plan.drain && not (sent == 0) then 2000 else plan.interval))
  Waits (err e) r = (r.failure_count ≡ n + 1) × (1600 ≤ r.wait) × (r.wait ≤ limit plan.name)

  settle-Waits :
      ((k : ℕ) → 800 * 2 ^ k ≤ draw k)
      → (p : Result Error ℕ × Service W) → Waits p.0 (settle draw now plan n p)
  settle-Waits h (ok sent, s) = (refl, refl)
  settle-Waits h (err e, s) =
      let bounds = failed-wait draw plan.name n h in (refl, bounds.0, bounds.1)

-- A channel whose action fails counts the failure and waits at least 1.6 seconds and at most the
-- limit of its name, 30 seconds or five minutes, where the drawn delay is not below 0.8 of its power
-- of two; one whose action returns counts from zero and waits its interval, or two seconds while it
-- drains a queue.
pub channel_round-Waits :
    {W : Type 0} (draw : ℕ → ℕ) (now : ℕ) (plan : Plan) (action : Effect (Service W) Error ℕ)
    (n : ℕ) (s : Service W)
    → ((k : ℕ) → 800 * 2 ^ k ≤ draw k)
    → Waits draw now plan n (action s).0 (channel_round draw now true plan action n s)
unfolding channel_round
channel_round-Waits draw now plan action n s h =
    subst
      (λ b. Waits draw now plan n (action s).0 (
        if b
        then record { failure_count = n; wait = 250; service = s }
        else settle draw now plan n (action s)))
      (sym (and-false (gated plan.name))) (settle-Waits draw now plan n h (action s))

==_sym : (a b : ℕ) → (a == b) ≡ (b == a)
==_sym a b = ground arith

-- A name found twice, as a name and as another's.
same_if : (a n o : ℕ) → (a == n) ≡ true → (a == o) ≡ (o == n)
same_if a n o h = ground arith

not_both : (a n o : ℕ) → (a == n) ≡ false → (a == o) ≡ true → (o == n) ≡ false
not_both a n o h h' = ground arith

skip_if :
    {A : Type 0} (on ao : Bool) (v rest new : Option A)
    → ao ≡ on
    → (if on then new else rest) ≡ (if on then new else if ao then v else rest)
skip_if true ao v rest new h = refl
skip_if false true v rest new h = absurd (ground (arith, h))
skip_if false false v rest new h = refl

keep_if :
    {A : Type 0} (on ao : Bool) (v rest new : Option A)
    → (ao ≡ true → on ≡ false)
    → (if ao then v else if on then new else rest) ≡ (if on then new else if ao then v else rest)
keep_if true true v rest new h = absurd (ground (arith, h refl))
keep_if true false v rest new h = refl
keep_if false ao v rest new h = refl

pop-error_of :
    (other name : Channel) (es : List ChannelError)
    → error_of other (pop_error name es)
      ≡ (if same_channel other name then none else error_of other es)
pop-error_of other name [] = sym (if-both (λ o. o ≡ none) (same_channel other name) refl refl)
pop-error_of other name (x ∷ xs) =
    let rest = pop_error name xs in
    let Good : Bool → Type 0 = λ b.
      error_of other (if not b then x ∷ rest else rest)
      ≡ (if same_channel other name then none else error_of other (x ∷ xs)) in
    let ao = same_channel x.channel other in
    let on = same_channel other name in
    elim (Bool-cases (same_channel x.channel name)) [
      | inl c ↦ subst Good (sym c) (
          pop-error_of other name xs
          ∙ skip_if on ao (some x.error) (error_of other xs) none
              (same_if (number x.channel) (number name) (number other) c))
      | inr c ↦ subst Good (sym c) (
          ap (λ o. if ao then some x.error else o) (pop-error_of other name xs)
          ∙ keep_if on ao (some x.error) (error_of other xs) none
              (not_both (number x.channel) (number name) (number other) c))
    ]

put-error_of :
    (other name : Channel) (e : Error) (es : List ChannelError)
    → error_of other (put_error name e es)
      ≡ (if same_channel other name then some e else error_of other es)
unfolding put_error
put-error_of other name e [] =
    ap (λ b. if b then some e else none) (==_sym (number name) (number other))
put-error_of other name e (x ∷ xs) =
    let rest = put_error name e xs in
    let new : ChannelError = record { channel = name; error = e } in
    let Good : Bool → Type 0 = λ b.
      error_of other (if b then new ∷ xs else x ∷ rest)
      ≡ (if same_channel other name then some e else error_of other (x ∷ xs)) in
    let ao = same_channel x.channel other in
    let on = same_channel other name in
    elim (Bool-cases (same_channel x.channel name)) [
      | inl c ↦ subst Good (sym c) (
          ap (λ b. if b then some e else error_of other xs) (==_sym (number name) (number other))
          ∙ skip_if on ao (some x.error) (error_of other xs) (some e)
              (same_if (number x.channel) (number name) (number other) c))
      | inr c ↦ subst Good (sym c) (
          ap (λ o. if ao then some x.error else o) (put-error_of other name e xs)
          ∙ keep_if on ao (some x.error) (error_of other xs) (some e)
              (not_both (number x.channel) (number name) (number other) c))
    ]

-- The errors of the other channels are left alone: after a success of one channel it has no error and
-- every other has what it had, and after a failure it has that error and every other what it had.
pub channel_errors-apart :
    (now : ℕ) (name other : Channel) (e : Error) (s : Status)
    → (error_of other (mark_success now name s).channel_errors
        ≡ (if same_channel other name then none else error_of other s.channel_errors))
      × (error_of other (mark_failure now name e s).channel_errors
          ≡ (if same_channel other name then some e else error_of other s.channel_errors))
unfolding mark_success mark_failure
channel_errors-apart now name other e s =
    (pop-error_of other name s.channel_errors, put-error_of other name e s.channel_errors)
