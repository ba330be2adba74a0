-- ===== src/Modbus/Tcp/Deadline.antt =====
-- One sample takes at most two timeouts and the settling time, whatever the device does: the budget
-- that `read_realtime` sets is kept by every request of the sample.
use hawklive.Prelude.{
  ℕ, zero, suc, ◌+◌, ◌*◌, ◌≤◌, max, ◌≡◌, refl, true, false, List, [], ◌∷◌, ◌++◌, none, some, arith,
  Result, ok, err,
}
use hawklive.Prelude.Effects.{◌>>=◌, after, pure, lift}
use hawklive.Modbus.Fault.{Fault}
use hawklive.Modbus.Registers.{validate_particle_unit}
use hawklive.Modbus.Socket.{Incoming, discard}
use hawklive.Modbus.Socket.Stream.{recv_exact-clock}
use hawklive.Modbus.Tcp.{
  Client, Call, accept, read_response, request_pdu, settle, request_deadline, pdu_of,
  decode_registers, read_holding_registers, read_pairs, read_particle_unit, read_realtime_sample,
  read_realtime,
}
use hawklive.Modbus.Tcp.Exits.{
  settled, waiting, at_header, at_body, read_response-exits, request_pdu-exits,
}

-- The sample's deadline is set, it has not passed, and a connection that still has to settle has the
-- time for it.
pub record InBudget (limit : ℕ) (c : Client) : Type 0 where
  pub deadline : c.read_deadline ≡ some limit
  pub clock : c.clock ≤ limit
  pub room : c.first_request ≡ true → c.clock + c.connect_settle ≤ limit

-- What a client that has settled keeps.
record Settled (limit : ℕ) (c : Client) : Type 0 where
  deadline : c.read_deadline ≡ some limit
  clock : c.clock ≤ limit
  first : c.first_request ≡ false

Settled-InBudget : {limit : ℕ} {c : Client} → Settled limit c → InBudget limit c
Settled-InBudget s = record { deadline = s.deadline; clock = s.clock; room = λ e. ground arith }

accept-Settled :
    (limit slave unit : ℕ) (body : List ℕ) (c : Client)
    → Settled limit c
    → Settled limit (accept slave unit body c).1
unfolding accept
accept-Settled limit slave unit body c s = ground arith

module _ (limit deadline : ℕ) (early : deadline ≤ limit) where
  at_header-Settled : (c : Client) → Settled limit c → Settled limit (at_header deadline c)
  at_header-Settled c s = record {
    deadline = s.deadline;
    clock = omega (arith, recv_exact-clock deadline 7 c.clock c.incoming);
    first = s.first;
  }

  at_body-Settled :
      (size : ℕ) (c : Client) → Settled limit c → Settled limit (at_body deadline size c)
  at_body-Settled size c s =
      let h = at_header deadline c in
      record {
        deadline = s.deadline;
        clock = omega (
          arith,
          (at_header-Settled c s).clock,
          recv_exact-clock deadline size h.clock h.incoming,
        );
        first = s.first;
      }

  read_response-Settled :
      (fuel id : ℕ) (c : Client)
      → Settled limit c
      → Settled limit (read_response fuel id deadline c).1
  read_response-Settled zero id c s = unfold read_response in s
  read_response-Settled (suc fuel) id c s =
      read_response-exits (λ r. Settled limit r.1) fuel id deadline c
        (λ e failed. at_header-Settled c s) (λ n. at_header-Settled c s)
        (λ n. at_header-Settled c s) (λ size e failed. at_body-Settled size c s)
        (λ size unit body. accept-Settled limit c.slave unit body _ (at_body-Settled size c s))
        (λ size header got.
          read_response-Settled fuel id (at_body deadline size c) (at_body-Settled size c s))

discard-clock :
    (deadline clock : ℕ) (inc : Incoming) → (discard deadline clock inc).clock ≤ max clock deadline
unfolding discard
discard-clock deadline clock [] = omega arith
discard-clock deadline clock ((at, seg) ∷ later) =
    ground (arith, discard-clock deadline (max clock at) later)

settled-Settled : (limit : ℕ) (c : Client) → InBudget limit c → Settled limit (settled c).1
unfolding settle
settled-Settled limit c b =
    ground (arith, b.room, discard-clock (c.clock + c.connect_settle) c.clock c.incoming)

request_deadline-le :
    (limit : ℕ) (c : Client) → c.read_deadline ≡ some limit → request_deadline c ≤ limit
unfolding request_deadline
request_deadline-le limit c e = ground arith

request_pdu-InBudget :
    (limit : ℕ) (pdu : List ℕ) (c : Client)
    → InBudget limit c
    → InBudget limit (request_pdu pdu c).1
request_pdu-InBudget limit pdu c b =
    let s = settled-Settled limit c b in
    let in_time = request_deadline-le limit (settled c).1 s.deadline in
    Settled-InBudget (
      request_pdu-exits (λ r. Settled limit r.1) pdu c (λ e failed. s)
        (record { deadline = s.deadline; clock = s.clock; first = s.first })
        (λ early. record { deadline = s.deadline; clock = in_time; first = s.first })
        (λ early sent. record { deadline = s.deadline; clock = omega arith; first = s.first })
        (λ early sent.
          read_response-Settled limit (request_deadline (settled c).1)
            (request_deadline-le limit (settled c).1 s.deadline) _ _ (waiting pdu c)
            (record { deadline = s.deadline; clock = omega arith; first = s.first })))

-- A call that keeps the budget, whether it returns or raises.
abbrev KeepsBudget : {A : Type 0} → ℕ → Call A → Type 0
KeepsBudget limit m = (c : Client) → InBudget limit c → InBudget limit (m c).1

after-KeepsBudget :
    {A B : Type 0} (limit : ℕ) (f : A → Call B)
    → ((a : A) → KeepsBudget limit (f a))
    → (r : Result Fault A) (c : Client) → InBudget limit c
    → InBudget limit (after r f c).1
after-KeepsBudget limit f kf (ok a) c b = kf a c b
after-KeepsBudget limit f kf (err e) c b = b

read_holding_registers-KeepsBudget :
    (limit start quantity : ℕ) → KeepsBudget limit (read_holding_registers start quantity)
unfolding read_holding_registers
read_holding_registers-KeepsBudget limit start quantity c b =
    let pdu = pdu_of 0x03 start quantity in
    after-KeepsBudget limit (λ response. lift (decode_registers quantity response))
      (λ response c b. b) (request_pdu pdu c).0 (request_pdu pdu c).1
      (request_pdu-InBudget limit pdu c b)

read_pairs-KeepsBudget : (limit rounds start : ℕ) → KeepsBudget limit (read_pairs rounds start)
unfolding read_pairs
read_pairs-KeepsBudget limit zero start c b = b
read_pairs-KeepsBudget limit (suc rounds) start c b =
    let (pair, c') = read_holding_registers start 2 c in
    after-KeepsBudget limit (λ pair. do rest ← read_pairs rounds (start + 2); pure (pair ++ rest))
      (λ pair c b.
        after-KeepsBudget limit (λ rest. pure (pair ++ rest)) (λ rest c b. b)
          (read_pairs rounds (start + 2) c).0 (read_pairs rounds (start + 2) c).1
          (read_pairs-KeepsBudget limit rounds (start + 2) c b))
      pair c' (read_holding_registers-KeepsBudget limit start 2 c b)

read_particle_unit-KeepsBudget : (limit : ℕ) → KeepsBudget limit read_particle_unit
unfolding read_particle_unit
read_particle_unit-KeepsBudget limit c b =
    let (registers, c') = read_holding_registers 133 1 c in
    after-KeepsBudget limit (λ registers. lift (validate_particle_unit registers))
      (λ registers c b. b) registers c' (read_holding_registers-KeepsBudget limit 133 1 c b)

module _ {F : Type 0} (unpack : List ℕ → F) (round4 : F → F) where
  sample-KeepsBudget : (limit : ℕ) → KeepsBudget limit (read_realtime_sample unpack round4)
  unfolding read_realtime_sample
  sample-KeepsBudget limit c b =
      let (unit, c') = read_particle_unit c in
      after-KeepsBudget limit _
        (λ unit c b.
          let (registers, c'') = read_pairs 13 0 c in
          after-KeepsBudget limit _ (λ registers c b. b) registers c''
            (read_pairs-KeepsBudget limit 13 0 c b))
        unit c' (read_particle_unit-KeepsBudget limit c b)

  -- A sample ends, with a reading or an error, within two timeouts and the settling time, and it
  -- leaves no sample deadline behind.
  pub read_realtime-clock :
      (c : Client)
      → ((read_realtime unpack round4 c).1.clock ≤ c.clock + c.timeout * 2 + c.connect_settle)
        × ((read_realtime unpack round4 c).1.read_deadline ≡ none)
  unfolding read_realtime
  read_realtime-clock c =
      let limit = c.clock + c.timeout * 2 + c.connect_settle in
      let start : InBudget limit (record c { read_deadline = some limit }) = record {
        deadline = refl;
        clock = omega arith;
        room = λ first. omega arith;
      } in
      ((sample-KeepsBudget limit (record c { read_deadline = some limit }) start).clock, refl)
