-- ===== src/Modbus/Tcp/Exits.antt =====
-- How a request ends: the exits of the loop's round and of `_request_pdu`, as rules. What holds at
-- each exit holds of the call.
use hawklive.Prelude.{
  ℕ, suc, ◌+◌, ◌-◌, ◌%◌, ◌<◌, ◌≤◌, ltb→ge, ◌≡◌, inl, inr, true, false, some, none, List, [], ◌∷◌,
  ◌++◌, get_or, bit_and_mask, Bool-cases, arith, ltb, leb, ◌&&◌, lt→ltb, ltb→lt, ◌==◌, Result, ok,
  err, Result-cases,
}
use hawklive.Modbus.Fault.{Fault, timed_out, socket_closed, unexpected_protocol, unexpected_length}
use hawklive.Modbus.Socket.{Received, recv_exact}
use hawklive.Modbus.Tcp.{
  Client, initial_settle, send_request, response_header, response_body, pending_bytes, accept,
  read_response, request_pdu, be_at, settle, send, mbap, next_transaction_id, request_deadline,
}

-- The client once what a new connection brings has been dropped.
abbrev pub settled : Client → Result Fault Unit × Client
settled c = settle (record c { request_sent = some false; diagnostic_stage = initial_settle })

abbrev pub next_id : Client → ℕ
next_id c = (c.transaction_id + 1) % 65536

pub settle-keeps :
    (c : Client)
    → ((settled c).1.slave ≡ c.slave)
      × ((settled c).1.transaction_id ≡ c.transaction_id)
      × ((settled c).1.sent ≡ c.sent)
unfolding settle
settle-keeps c = ground arith

-- The time at which the request is sent.
abbrev pub sent_at : Client → ℕ
sent_at c = (settled c).1.clock + (settled c).1.send_takes

-- The client as it starts to wait for the response.
abbrev pub waiting : List ℕ → Client → Client
waiting pdu c =
    let s = (settled c).1 in
    record s {
      clock = sent_at c;
      transaction_id = next_id c;
      diagnostic_stage = send_request;
      request_sent = some true;
      sent = s.sent ++ mbap (next_id c) s.slave pdu ∷ [];
    }

pub next_transaction_id_lem :
    (s : Client) → next_transaction_id s ≡ (ok (next_id s), record s { transaction_id = next_id s })
unfolding next_transaction_id
next_transaction_id_lem s = rw (bit_and_mask 16 (s.transaction_id + 1))

le→ltb : (a b : ℕ) → b ≤ a → ltb a b ≡ false
le→ltb a b h = ground arith

-- A request that is sent in time waits for its response.
pub request_pdu-waits :
    (pdu : List ℕ) (c : Client)
    → (settled c).0 ≡ ok tt
    → (settled c).1.writable ≡ true
    → (settled c).1.clock < request_deadline (settled c).1
    → sent_at c ≤ request_deadline (settled c).1
    → request_pdu pdu c
      ≡ read_response
          (suc (pending_bytes (settled c).1.incoming))
          (next_id c)
          (request_deadline (settled c).1)
          (waiting pdu c)
unfolding request_pdu request_deadline send
request_pdu-waits pdu c settles writable early sent =
    let transaction : (settled c).1.transaction_id ≡ c.transaction_id = (settle-keeps c).1 in
    rw settles (
      rw next_transaction_id_lem
        (rw (lt→ltb _ _ early) (rw (le→ltb _ _ sent) (rw writable (rw transaction)))))

-- The client after the header, and after the body.
abbrev pub at_header : ℕ → Client → Client
at_header deadline c =
    let r = recv_exact deadline 7 c.clock c.incoming in
    record c { diagnostic_stage = response_header; clock = r.clock; incoming = r.left }

abbrev pub body_read : ℕ → ℕ → Client → Received (List ℕ)
body_read deadline size c =
    recv_exact deadline size (at_header deadline c).clock (at_header deadline c).incoming

abbrev pub at_body : ℕ → ℕ → Client → Client
at_body deadline size c =
    let r = body_read deadline size c in
    record c { diagnostic_stage = response_body; clock = r.clock; incoming = r.left }

-- The exits of one round of the loop: whatever holds at each of them holds of the round.
pub read_response-exits {ℓ} :
    (Q : Result Fault (List ℕ) × Client → Type ℓ) (fuel id deadline : ℕ) (c : Client)
    → ((e : Fault)
        → (recv_exact deadline 7 c.clock c.incoming).outcome ≡ err e
        → Q (err e, at_header deadline c))
    → ((n : ℕ) → Q (err (unexpected_protocol n), at_header deadline c))
    → ((n : ℕ) → Q (err (unexpected_length n), at_header deadline c))
    → ((size : ℕ) (e : Fault)
        → (body_read deadline size c).outcome ≡ err e
        → Q (err e, at_body deadline size c))
    → ((size unit : ℕ) (body : List ℕ) → Q (accept c.slave unit body (at_body deadline size c)))
    → ((size : ℕ) (header : List ℕ)
        → (recv_exact deadline 7 c.clock c.incoming).outcome ≡ ok header
        → Q (read_response fuel id deadline (at_body deadline size c)))
    → Q (read_response (suc fuel) id deadline c)
unfolding read_response
read_response-exits Q fuel id deadline c no_header protocol bad_length no_body judged again =
    elim (Result-cases (recv_exact deadline 7 c.clock c.incoming).outcome) [
      | inr (e, failed) ↦ rw failed (no_header e failed)
      | inl (header, got) ↦
          let size = be_at header 4 in
          elim (Bool-cases (be_at header 2 == 0)) [
            | inr other ↦ rw (got, other) (protocol (be_at header 2))
            | inl standard ↦ elim (Bool-cases (leb 2 size && leb size 254)) [
              | inr outside ↦ rw (got, standard, outside) (bad_length size)
              | inl fits ↦ elim (Result-cases (body_read deadline (size - 1) c).outcome) [
                | inr (e, failed) ↦ rw (got, standard, fits, failed) (no_body (size - 1) e failed)
                | inl (body, whole) ↦ elim (Bool-cases (be_at header 0 == id)) [
                  | inl own ↦
                      rw (got, standard, fits, whole, own)
                        (judged (size - 1) (get_or header 6 0) body)
                  | inr stale ↦ rw (got, standard, fits, whole, stale) (again (size - 1) header got)
                ]
              ]
            ]
          ]
    ]

-- The exits of `_request_pdu`.
pub request_pdu-exits {ℓ} :
    (Q : Result Fault (List ℕ) × Client → Type ℓ) (pdu : List ℕ) (c : Client)
    → ((e : Fault) → (settled c).0 ≡ err e → Q (err e, (settled c).1))
    → Q (err timed_out, record (settled c).1 { transaction_id = next_id c })
    → ((settled c).1.clock < request_deadline (settled c).1
        → Q (
          err timed_out,
          record (settled c).1 {
            transaction_id = next_id c;
            diagnostic_stage = send_request;
            request_sent = none;
            clock = request_deadline (settled c).1;
          },
        ))
    → ((settled c).1.clock < request_deadline (settled c).1
        → sent_at c ≤ request_deadline (settled c).1
        → Q (
          err socket_closed,
          record (settled c).1 {
            transaction_id = next_id c;
            diagnostic_stage = send_request;
            request_sent = none;
            writable = false;
            clock = sent_at c;
          },
        ))
    → ((settled c).1.clock < request_deadline (settled c).1
        → sent_at c ≤ request_deadline (settled c).1
        → Q (
            read_response
              (suc (pending_bytes (settled c).1.incoming))
              (next_id c)
              (request_deadline (settled c).1)
              (waiting pdu c)))
    → Q (request_pdu pdu c)
unfolding request_pdu request_deadline send
request_pdu-exits Q pdu c unsettled late slow unsent waits =
    let transaction = (settle-keeps c).1 in
    elim (Result-cases (settled c).0) [
      | inr (e, failed) ↦ rw failed (unsettled e failed)
      | inl (_, done) ↦
          elim (Bool-cases (ltb (settled c).1.clock (request_deadline (settled c).1))) [
            | inr over ↦ rw done (rw next_transaction_id_lem (rw over (rw transaction late)))
            | inl early ↦ elim (Bool-cases (ltb (request_deadline (settled c).1) (sent_at c))) [
              | inl over ↦ rw done (
                  rw next_transaction_id_lem
                    (rw early (rw over (rw transaction (slow (ltb→lt _ _ early))))))
              | inr sent ↦ elim (Bool-cases (settled c).1.writable) [
                | inr broken ↦ rw done (
                    rw next_transaction_id_lem (
                      rw early (
                        rw sent (
                          rw broken
                            (rw transaction (unsent (ltb→lt _ _ early) (ltb→ge _ _ sent)))))))
                | inl writable ↦
                    rw (request_pdu-waits pdu c done writable (ltb→lt _ _ early) (ltb→ge _ _ sent))
                      (waits (ltb→lt _ _ early) (ltb→ge _ _ sent))
              ]
            ]
          ]
    ]
