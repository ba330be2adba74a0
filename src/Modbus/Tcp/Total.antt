-- ===== src/Modbus/Tcp/Total.antt =====
-- The client's loops end: the model's fuel, the number of bytes still to come, is always enough, and
-- no call lasts longer than its deadline allows.
use hawklive.Prelude.{
  ℕ, zero, suc, ◌+◌, ◌-◌, ◌≤◌, ◌<◌, max, ◌≡◌, refl, Bool, true, false, List, [], ◌∷◌, some, length,
  length-drop, arith, Result, ok, err, ap,
}
use hawklive.Modbus.Fault.{Fault, out_of_fuel}
use hawklive.Modbus.Socket.{Incoming, rest_of, recv_exact, discard}
use hawklive.Modbus.Tcp.Exits.{
  settled, waiting, at_header, at_body, read_response-exits, request_pdu-exits,
}
use hawklive.Modbus.Tcp.{
  Client, initial_settle, pending_bytes, accept, read_response, request_pdu, settle,
}

-- Whether a call ended because the model's loop did.
abbrev pub ran_out : {A : Type 0} → Result Fault A → Bool
ran_out (err out_of_fuel) = true
ran_out _ = false

abbrev taken : ℕ → Result Fault (List ℕ) → ℕ
taken need (ok bytes) = need
taken need (err e) = 0

rest_of-pending :
    (n at : ℕ) (seg : List ℕ) (later : Incoming)
    → n ≤ length seg
    → pending_bytes (rest_of n at seg later) + n ≡ length seg + pending_bytes later
unfolding pending_bytes
rest_of-pending n at seg later h = ground (arith, length-drop n seg)

-- A read takes what it returns from the bytes still to come.
recv_exact-pending :
    (deadline need clock : ℕ) (inc : Incoming)
    → let r = recv_exact deadline need clock inc in
      (pending_bytes r.left + taken need r.outcome ≤ pending_bytes inc)
      × (ran_out r.outcome ≡ false)
unfolding recv_exact pending_bytes
recv_exact-pending deadline zero clock inc = ground arith
recv_exact-pending deadline (suc n) clock [] = ground arith
recv_exact-pending deadline (suc n) clock ((at, seg) ∷ later) = ground (
  arith,
  rest_of-pending (suc n) at seg later,
  recv_exact-pending deadline (suc n - length seg) (max clock at) later,
)

accept-total :
    (slave unit : ℕ) (body : List ℕ) (c : Client) → ran_out (accept slave unit body c).0 ≡ false
unfolding accept
accept-total slave unit body c = ground arith

accept-clock :
    (slave unit : ℕ) (body : List ℕ) (c : Client) → (accept slave unit body c).1.clock ≡ c.clock
unfolding accept
accept-clock slave unit body c = ground arith

-- With more fuel than bytes to come the loop never runs out of fuel.
pub read_response-total :
    (fuel id deadline : ℕ) (c : Client)
    → pending_bytes c.incoming < fuel
    → ran_out (read_response fuel id deadline c).0 ≡ false
read_response-total zero id deadline c h = absurd (omega arith)
read_response-total (suc fuel) id deadline c h =
    let first = recv_exact-pending deadline 7 c.clock c.incoming in
    read_response-exits (λ r. ran_out r.0 ≡ false) fuel id deadline c
      (λ e failed. rw failed at first.1) (λ n. refl) (λ n. refl)
      (λ size e failed.
        rw failed at
          (recv_exact-pending deadline size (at_header deadline c).clock
            (at_header deadline c).incoming).1)
      (λ size unit body. accept-total c.slave unit body (at_body deadline size c))
      (λ size header got. read_response-total fuel id deadline (at_body deadline size c) (
        omega (
          arith,
          first.0,
          ap (taken 7) got,
          (recv_exact-pending deadline size (at_header deadline c).clock
              (at_header deadline c).incoming).0,
        )))

discard-total :
    (deadline clock : ℕ) (inc : Incoming) → ran_out (discard deadline clock inc).outcome ≡ false
unfolding discard
discard-total deadline clock [] = refl
discard-total deadline clock ((at, seg) ∷ later) =
    ground (arith, discard-total deadline (max clock at) later)

settle-total : (c : Client) → ran_out (settle c).0 ≡ false
unfolding settle
settle-total c = ground (arith, discard-total (c.clock + c.connect_settle) c.clock c.incoming)

-- No request ends because the model's loop ran out.
pub request_pdu-total : (pdu : List ℕ) (c : Client) → ran_out (request_pdu pdu c).0 ≡ false
request_pdu-total pdu c =
    request_pdu-exits (λ r. ran_out r.0 ≡ false) pdu c
      (λ e failed.
        rw failed at (
          settle-total (record c { request_sent = some false; diagnostic_stage = initial_settle })))
      refl (λ early. refl) (λ early sent. refl)
      (λ early sent.
        read_response-total (suc (pending_bytes (settled c).1.incoming)) _ _ (waiting pdu c)
          (omega arith))
