-- ===== src/Email/Life.antt =====
-- The life of the queue: what users, uploads and workers do with it one after the other.
use hawklive.Prelude.{
  ℕ, ◌+◌, ◌*◌, leb, not, any, ◌||◌, ◌&&◌, arith, if-both, Bool, Option, none, some, All,
}
use hawklive.Email.Tables.{test, LastError, Settings, Cloud, Device}
use hawklive.Email.Enqueue.{
  cancel, is_empty, recently, enqueue_alarm, save_settings, TestReply, send_test, test_email,
}
use hawklive.Email.Queue.{Job, claim_notification, finish_notification}
use hawklive.Email.Invariant.{
  IsWellFormed, enqueue_each-IsWellFormed, enqueue_alarm-IsWellFormed, save_settings-IsWellFormed,
  claim_notification-IsWellFormed, finish_notification-IsWellFormed, All-update_where,
  cancel-IsWellFormed,
}
use hawklive.Email.Maintenance.{Reply, running, of_device, start_on, start_maintenance}

module _ {V : Type 0} where
  -- What changes the queue: an event is reported, a policy is saved, a test is asked for, a
  -- maintenance begins, a worker
  -- claims a row or reports the end of a send, and another part of the program writes elsewhere.
  pub data Step : Cloud V → Cloud V → Type 0 where
    reported :
        (now : ℕ) (uuid : ℕ → ℕ) (customer event : ℕ) (db : Cloud V)
        → Step db (enqueue_alarm now uuid customer event db)
    saved : (now : ℕ) (p : Settings) (db : Cloud V) → Step db (save_settings now p db)
    tested :
        (now : ℕ) (uuid : ℕ → ℕ) (customer : ℕ) (db : Cloud V)
        → Step db (test_email now uuid customer db).1
    paused :
        (now customer device : ℕ) (reason : Bool) (ends_at : ℕ) (db : Cloud V)
        → Step db (start_maintenance now customer device reason ends_at db).1
    claim :
        (now token : ℕ) (locked : ℕ → Bool) (db : Cloud V)
        → Step db (claim_notification now token locked db).1
    finish :
        (now : ℕ) (job : Job V) (error : Option LastError) (db : Cloud V)
        → Step db (finish_notification now job error db).1
    elsewhere : (db other : Cloud V) → Step db (record other { notifications = db.notifications })

  pub data Steps : Cloud V → Cloud V → Type 0 where
    done : {a : Cloud V} → Steps a a
    then_step : {a b c : Cloud V} → Step a b → Steps b c → Steps a c

  send_test-IsWellFormed :
      (now : ℕ) (uuid : ℕ → ℕ) (customer : ℕ) (db : Cloud V) (p : Option Settings)
      → All IsWellFormed db.notifications
      → All IsWellFormed (send_test now uuid customer db p).1.notifications
  send_test-IsWellFormed now uuid customer db none h = h
  send_test-IsWellFormed now uuid customer db (some p) h =
      let Q : TestReply × Cloud V → Type 0 = λ r. All IsWellFormed r.1.notifications in
      if-both Q (is_empty p.recipients) h (
        if-both Q (recently now p.last_test_at) h (
          enqueue_each-IsWellFormed now uuid customer test p.recipients none none db.notifications
            h))

  start_on-IsWellFormed :
      (now customer device ends_at : ℕ) (db : Cloud V) (d : Option Device)
      → All IsWellFormed db.notifications
      → All IsWellFormed (start_on now customer device ends_at db d).1.notifications
  start_on-IsWellFormed now customer device ends_at db none h = h
  start_on-IsWellFormed now customer device ends_at db (some d) h =
      let Q : Reply × Cloud V → Type 0 = λ r. All IsWellFormed r.1.notifications in
      if-both Q (not d.enabled) h (
        if-both Q (any (running now customer device) db.periods) h (
          All-update_where IsWellFormed (of_device customer device db.events) cancel
            db.notifications (λ n e w. cancel-IsWellFormed n (ground arith) w) h))

  start_maintenance-IsWellFormed :
      (now customer device : ℕ) (reason : Bool) (ends_at : ℕ) (db : Cloud V)
      → All IsWellFormed db.notifications
      → All IsWellFormed (start_maintenance now customer device reason ends_at db).1.notifications
  unfolding start_maintenance
  start_maintenance-IsWellFormed now customer device reason ends_at db h =
      if-both (λ (r : Reply × Cloud V). All IsWellFormed r.1.notifications)
        (not reason || not (leb (now + 60) ends_at && leb ends_at (now + 7 * 86400))) h
        (start_on-IsWellFormed now customer device ends_at db _ h)

  step-IsWellFormed :
      {a b : Cloud V}
      → Step a b
      → All IsWellFormed a.notifications
      → All IsWellFormed b.notifications
  unfolding test_email
  step-IsWellFormed (reported now uuid customer event db) h =
      enqueue_alarm-IsWellFormed now uuid customer event db h
  step-IsWellFormed (saved now p db) h = save_settings-IsWellFormed now p db h
  step-IsWellFormed (tested now uuid customer db) h =
      send_test-IsWellFormed now uuid customer db _ h
  step-IsWellFormed (paused now customer device reason ends_at db) h =
      start_maintenance-IsWellFormed now customer device reason ends_at db h
  step-IsWellFormed (claim now token locked db) h =
      claim_notification-IsWellFormed now token locked db h
  step-IsWellFormed (finish now job error db) h =
      finish_notification-IsWellFormed now job error db h
  step-IsWellFormed (elsewhere db other) h = h

-- After any steps of users, uploads and workers, in any order, every row of the queue has at most five
-- attempts, and a claim token and a lease exactly while it is being sent, if that was so at the start.
pub Steps-IsWellFormed :
    {V : Type 0} {a b : Cloud V}
    → Steps a b
    → All IsWellFormed a.notifications
    → All IsWellFormed b.notifications
Steps-IsWellFormed done h = h
Steps-IsWellFormed (then_step step steps) h = Steps-IsWellFormed steps (step-IsWellFormed step h)
