-- ===== src/Alarm/Machine/Delay.antt =====
-- The delay: what the readings before the start and the end of an alarm were.
use hawklive.Prelude.{
  ℕ, ◌+◌, ◌≤◌, ◌≡◌, inl, inr, Bool-cases, leb→le, Bool, true, false, Option, none, some, List, [],
  ◌∷◌, leb, subst,
}
use hawklive.Alarm.Tables.{AlarmState, normal, pending_alarm, alarm_active, pending_clear}
use hawklive.Alarm.Machine.{Cell, Action, start, finish, transition, waited, after_wait}

-- The readings of a machine, the last one first: when, and whether the limit was exceeded.
abbrev pub History : Type 0
History = List (ℕ × Bool)

-- The cells that a machine can be in after its readings.
pub data Reaches (delay : ℕ) : History → Cell → Type 0 where
  begun : Reaches delay [] (record { state = normal; pending_since = none; active_since = none })
  reading :
      {h : History} {cell cell' : Cell} (now : ℕ) (exceeded : Bool) (a : Action)
      → Reaches delay h cell
      → transition delay now exceeded cell.state cell.pending_since cell.active_since
        ≡ some (cell', a)
      → Reaches delay ((now, exceeded) ∷ h) cell'

-- All readings from the one at time `t` on were `b`.
pub data Since (b : Bool) (t : ℕ) : History → Type 0 where
  first : {h : History} → Since b t ((t, b) ∷ h)
  still : {h : History} (now : ℕ) → Since b t h → Since b t ((now, b) ∷ h)

Explained : History → AlarmState → Option ℕ → Type 0
Explained h pending_alarm (some t) = Since true t h
Explained h pending_clear (some t) = Since false t h
Explained h _ _ = Unit

-- All readings were `b` for the delay.
pub record Lasted (delay now : ℕ) (b : Bool) (h : History) : Type 0 where
  pub from_time : ℕ
  pub since : Since b from_time h
  pub long : from_time + delay ≤ now

abbrev pub Timely : ℕ → ℕ → Action → History → Type 0
Timely delay now start h = Lasted delay now true h
Timely delay now finish h = Lasted delay now false h
Timely delay now _ h = Unit

abbrev Sound : ℕ → ℕ → History → Option (Cell × Action) → Type 0
Sound delay now h none = Unit
Sound delay now h (some (cell, a)) =
    Explained h cell.state cell.pending_since × Timely delay now a h

after_wait-Sound :
    (delay now : ℕ) (h : History) (t : ℕ) (over waiting : Cell × Action)
    → (t + delay ≤ now → Sound delay now h (some over))
    → Sound delay now h (some waiting)
    → Sound delay now h (after_wait (waited delay now (some t)) over waiting)
after_wait-Sound delay now h t over waiting f g = elim (Bool-cases (leb (t + delay) now)) [
  | inl e ↦ rw e (f (leb→le (t + delay) now e))
  | inr e ↦ rw e g
]

transition-Sound :
    (delay now : ℕ) (h : History) (exceeded : Bool) (state : AlarmState) (p a : Option ℕ)
    → Explained h state p
    → Sound delay now ((now, exceeded) ∷ h) (transition delay now exceeded state p a)
unfolding transition Explained
transition-Sound delay now h true normal p a e = (first, tt)
transition-Sound delay now h false normal p a e = (tt, tt)
transition-Sound delay now h false pending_alarm p a e = (tt, tt)
transition-Sound delay now h true pending_alarm none a e = tt
transition-Sound delay now h true pending_alarm (some t) a e =
    after_wait-Sound delay now ((now, true) ∷ h) t _ _
      (λ long. (tt, record { from_time = t; since = still now e; long = long })) (still now e, tt)
transition-Sound delay now h true alarm_active p a e = (tt, tt)
transition-Sound delay now h false alarm_active p a e = (first, tt)
transition-Sound delay now h true pending_clear p a e = (tt, tt)
transition-Sound delay now h false pending_clear none a e = tt
transition-Sound delay now h false pending_clear (some t) a e =
    after_wait-Sound delay now ((now, false) ∷ h) t _ _
      (λ long. (tt, record { from_time = t; since = still now e; long = long })) (still now e, tt)

Reaches-Explained :
    (delay : ℕ) {h : History} {cell : Cell}
    → Reaches delay h cell
    → Explained h cell.state cell.pending_since
unfolding Explained
Reaches-Explained delay begun = tt
Reaches-Explained delay (reading {h} {cell} {cell'} now exceeded a r e) =
    (subst (Sound delay now ((now, exceeded) ∷ h)) e (
      transition-Sound delay now h exceeded cell.state cell.pending_since cell.active_since
        (Reaches-Explained delay r))).0

-- While one metric is read under one delay, with its rule on and from one source: however its machine
-- came to its cell, the reading that starts an alarm closes a stretch of readings that exceeded the
-- limit, without one that did not, which is at least the delay long; and the reading that ends an
-- alarm closes such a stretch of readings within the limit.
pub transition-Timely :
    (delay now : ℕ) (exceeded : Bool) {h : History} {cell cell' : Cell} (a : Action)
    → Reaches delay h cell
    → transition delay now exceeded cell.state cell.pending_since cell.active_since
      ≡ some (cell', a)
    → Timely delay now a ((now, exceeded) ∷ h)
transition-Timely delay now exceeded {h} {cell} {cell'} a r e =
    (subst (Sound delay now ((now, exceeded) ∷ h)) e (
      transition-Sound delay now h exceeded cell.state cell.pending_since cell.active_since
        (Reaches-Explained delay r))).1
