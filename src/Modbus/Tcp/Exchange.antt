-- ===== src/Modbus/Tcp/Exchange.antt =====
-- A request and its response: `_request_pdu` and `read_holding_registers` against a device that
-- answers.
use hawklive.Prelude.{
  ℕ, suc, ◌*◌, ◌≤◌, ◌≡◌, refl, ap, sym, ◌∙◌, true, List, [], ◌∷◌, ◌++◌, bit_and, length, get_or,
  take-all, All, eq→==, arith, length-append, Result, ok,
}
use mathlib.Core.Path.{ap₂}
use hawklive.Modbus.Fault.{Fault}
use hawklive.Modbus.Registers.Laws.{
  register_bytes, length-register_bytes, registers_from_data-register_bytes,
}
use hawklive.Modbus.Socket.{Incoming}
use hawklive.Modbus.Socket.Stream.{stream}
use hawklive.Modbus.Tcp.{
  Client, mbap, pdu_of, accept, request_deadline, pending_bytes, request_pdu, decode_registers,
  read_holding_registers,
}
use hawklive.Modbus.Tcp.Exits.{settled, sent_at, next_id, settle-keeps, waiting, request_pdu-waits}
use hawklive.Modbus.Tcp.Requests.{
  Frame, wire, wires, IsComplete, IsStale, Holds, Answers, read_response-skips,
}

-- The situation of an exchange: the new connection has settled, the request can be sent, which is done
-- before the deadline, and before the deadline there arrive stale frames, the device's frame `f` for
-- this transaction, and `rest`.
pub record Exchange (f : Frame) (rest : List ℕ) (stale : List Frame) (c : Client) : Type 0 where
  pub settles : (settled c).0 ≡ ok tt
  pub writable : (settled c).1.writable ≡ true
  pub stale_frames : All (IsStale (next_id c)) stale
  pub complete : IsComplete f
  pub transaction : f.id ≡ next_id c
  pub unit : f.unit ≡ c.slave
  pub no_exception : bit_and (get_or f.body 0 0) 0x80 ≡ 0
  pub arrives :
      Holds
        (request_deadline (settled c).1)
        (wires stale ++ (wire f ++ rest))
        (record (settled c).1 { clock = sent_at c })

-- The exchange ends with the frame's body; the socket keeps what came after it, and one frame with
-- the next transaction id was sent.
pub record Exchanged (pdu : List ℕ) (f : Frame) (rest : List ℕ) (c : Client)
    (r : Result Fault (List ℕ) × Client) : Type 0 where
  pub body : r.0 ≡ ok f.body
  pub left : stream r.1.incoming ≡ rest
  pub sent : r.1.sent ≡ c.sent ++ mbap (next_id c) c.slave pdu ∷ []
  pub transaction : r.1.transaction_id ≡ next_id c

accept-own :
    (f : Frame) (c : Client) (slave : ℕ)
    → f.unit ≡ slave
    → bit_and (get_or f.body 0 0) 0x80 ≡ 0
    → ((accept slave f.unit f.body c).0 ≡ ok f.body)
      × ((accept slave f.unit f.body c).1.incoming ≡ c.incoming)
      × ((accept slave f.unit f.body c).1.sent ≡ c.sent)
      × ((accept slave f.unit f.body c).1.transaction_id ≡ c.transaction_id)
unfolding accept
accept-own f c slave u e = rw (eq→== f.unit slave u, e) (refl, refl, refl, refl)

pending-stream : (inc : Incoming) → pending_bytes inc ≡ length (stream inc)
unfolding pending_bytes stream
pending-stream [] = refl
pending-stream ((at, seg) ∷ later) =
    omega (arith, pending-stream later, length-append seg (stream later))

-- Each frame takes bytes, so there are fewer frames than bytes.
length-wires : (frames : List Frame) (rest : List ℕ) → length frames ≤ length (wires frames ++ rest)
unfolding mbap
length-wires [] rest = omega arith
length-wires (f ∷ fs) rest = omega (
  arith,
  length-wires fs rest,
  length-append (wire f ++ wires fs) rest,
  length-append (wire f) (wires fs),
  length-append (wires fs) rest,
)

Exchanged-of_Answers :
    (deadline : ℕ) (pdu : List ℕ) (f : Frame) (rest : List ℕ) (c : Client)
    (r : Result Fault (List ℕ) × Client)
    → f.unit ≡ c.slave
    → bit_and (get_or f.body 0 0) 0x80 ≡ 0
    → Answers deadline f rest (waiting pdu c) r
    → Exchanged pdu f rest c r
Exchanged-of_Answers deadline pdu f rest c r unit plain a =
    let (slave, transaction, sent) = settle-keeps c in
    let (body, incoming, sent', transaction') =
      accept-own f a.reader (waiting pdu c).slave (unit ∙ sym slave) plain in
    rw a.accepted (record {
      body = body;
      left = ap stream incoming ∙ a.holds.holds;
      sent = sent' ∙ a.kept.1 ∙ ap₂ (λ l n. l ++ mbap (next_id c) n pdu ∷ []) sent slave;
      transaction = transaction' ∙ a.kept.0;
    })

-- Stale frames of other transactions do not change the outcome of a request.
pub request_pdu-Exchanged :
    (pdu : List ℕ) (f : Frame) (rest : List ℕ) (stale : List Frame) (c : Client)
    → Exchange f rest stale c
    → Exchanged pdu f rest c (request_pdu pdu c)
request_pdu-Exchanged pdu f rest stale c x =
    rw
      (request_pdu-waits pdu c x.settles x.writable (omega (arith, x.arrives.clock))
        (omega (arith, x.arrives.clock)))
      (Exchanged-of_Answers (request_deadline (settled c).1) pdu f rest c _ x.unit x.no_exception (
        read_response-skips (request_deadline (settled c).1) (next_id c) f rest stale
          (suc (pending_bytes (settled c).1.incoming)) (waiting pdu c)
          (omega (
            arith,
            pending-stream (settled c).1.incoming,
            ap (λ (l : List ℕ). length l) x.arrives.holds,
            length-wires stale (wire f ++ rest),
          ))
          x.stale_frames x.complete x.transaction
          (record {
            in_time = x.arrives.in_time;
            clock = x.arrives.clock;
            holds = x.arrives.holds;
          })))

-- The device's answer to a read of `registers`.
abbrev pub read_body : List ℕ → List ℕ
read_body registers = 0x03 ∷ (length registers * 2) ∷ register_bytes registers

decode_registers-read_body :
    (registers : List ℕ) → decode_registers (length registers) (read_body registers) ≡ ok registers
unfolding decode_registers
decode_registers-read_body registers = ground (
  arith,
  length-register_bytes registers,
  take-all (register_bytes registers) (length registers * 2),
  registers_from_data-register_bytes registers,
)

-- Where the request is sent in time and the device's answer comes in time, `read_holding_registers`
-- returns its registers, whatever stale frames of other transactions come first and however the bytes
-- are cut.
pub read_holding_registers-Exchange :
    (start : ℕ) (registers : List ℕ) (rest : List ℕ) (stale : List Frame) (c : Client)
    → Exchange (record { id = next_id c; unit = c.slave; body = read_body registers }) rest stale c
    → (read_holding_registers start (length registers) c).0 ≡ ok registers
unfolding read_holding_registers
read_holding_registers-Exchange start registers rest stale c x =
    let done = request_pdu-Exchanged (pdu_of 0x03 start (length registers)) _ rest stale c x in
    rw done.body (decode_registers-read_body registers)
