-- ===== src/Modbus/Tcp/Requests.antt =====
-- The loop of `_request_pdu` on a stream of frames: frames of other transactions are passed over, and
-- the first frame of this transaction is the response.
use hawklive.Prelude.{
  ℕ, zero, suc, ◌+◌, ◌-◌, ◌*◌, ◌/◌, ◌%◌, ◌≤◌, ◌<◌, ◌≡◌, ◌≢◌, refl, ap, ◌∙◌, true, List, [], ◌∷◌,
  ◌++◌, length, take, drop, take-append, drop-append, length-append, append_assoc, All, eq→==,
  ne→==, arith, leb, ◌&&◌, ◌==◌, if◌then◌else◌, Result, ok,
}
use hawklive.Modbus.Fault.{Fault}
use hawklive.Modbus.Socket.{Received, recv_exact}
use hawklive.Modbus.Socket.Stream.{stream, InTime, ReadsOf, recv_exact-ReadsOf}
use hawklive.Modbus.Tcp.{Client, response_body, mbap, accept, read_response}

-- A frame on the wire: its transaction, its unit and its body.
pub record Frame : Type 0 where
  pub id : ℕ
  pub unit : ℕ
  pub body : List ℕ

abbrev pub wire : Frame → List ℕ
wire f = mbap f.id f.unit f.body

-- A frame that the loop reads to its end.
abbrev pub IsComplete : Frame → Type 0
IsComplete f = (f.id < 65536) × (1 ≤ length f.body) × (length f.body ≤ 253)

-- The client's socket holds these bytes, and they all arrive before the deadline.
pub record Holds (deadline : ℕ) (bytes : List ℕ) (c : Client) : Type 0 where
  pub in_time : InTime deadline c.incoming
  pub clock : c.clock < deadline
  pub holds : stream c.incoming ≡ bytes

-- The client after reading one frame.
abbrev after_frame : ℕ → ℕ → Client → Client
after_frame deadline size c =
    let header = recv_exact deadline 7 c.clock c.incoming in
    let body = recv_exact deadline size header.clock header.left in
    record c { diagnostic_stage = response_body; clock = body.clock; incoming = body.left }

abbrev header_of : Frame → List ℕ
header_of f =
    let size = length f.body + 1 in
    f.id / 256 ∷ f.id % 256 ∷ 0 ∷ 0 ∷ size / 256 ∷ size % 256 ∷ f.unit ∷ []

mbap-header : (f : Frame) (rest : List ℕ) → take 7 (wire f ++ rest) ≡ header_of f
unfolding mbap
mbap-header f rest = refl

mbap-body : (f : Frame) (rest : List ℕ) → drop 7 (wire f ++ rest) ≡ f.body ++ rest
unfolding mbap
mbap-body f rest = refl

module _ (deadline : ℕ) (f : Frame) (rest : List ℕ) (c : Client) (complete : IsComplete f)
    (holds : Holds deadline (wire f ++ rest) c) where
  first_read : ReadsOf deadline 7 c.incoming (recv_exact deadline 7 c.clock c.incoming)
  unfolding mbap
  first_read =
      recv_exact-ReadsOf deadline 7 c.clock c.incoming holds.clock holds.in_time
        (rw holds.holds (omega arith))

  abbrev header_read : Received (List ℕ)
  header_read = recv_exact deadline 7 c.clock c.incoming

  left_after_header : stream header_read.left ≡ f.body ++ rest
  left_after_header = first_read.left ∙ ap (drop 7) holds.holds ∙ mbap-body f rest

  second_read :
      ReadsOf deadline
        (length f.body)
        header_read.left
        (recv_exact deadline (length f.body) header_read.clock header_read.left)
  second_read =
      recv_exact-ReadsOf deadline (length f.body) header_read.clock header_read.left
        first_read.clock first_read.in_time
        (rw left_after_header (omega (arith, length-append f.body rest)))

  pub after_frame-Holds : Holds deadline rest (after_frame deadline (length f.body) c)
  after_frame-Holds = record {
    in_time = second_read.in_time;
    clock = second_read.clock;
    holds =
        second_read.left ∙ ap (drop (length f.body)) left_after_header ∙ drop-append f.body rest;
  }

  -- One round of the loop on a complete frame.
  pub read_response-frame :
      (fuel id : ℕ)
      → read_response (suc fuel) id deadline c
        ≡ (if f.id == id then accept c.slave f.unit f.body else read_response fuel id deadline)
            (after_frame deadline (length f.body) c)
  unfolding read_response
  read_response-frame fuel id =
      let header : header_read.outcome ≡ ok (header_of f) =
        first_read.outcome ∙ ap (λ l. ok (take 7 l)) holds.holds ∙ ap ok (mbap-header f rest) in
      let size : (length f.body + 1) / 256 * 256 + (length f.body + 1) % 256 ≡ length f.body + 1 =
        omega arith in
      let transaction : f.id / 256 * 256 + f.id % 256 ≡ f.id = omega arith in
      let body : (recv_exact deadline (length f.body) header_read.clock header_read.left).outcome
          ≡ ok f.body =
        second_read.outcome
        ∙ ap (λ l. ok (take (length f.body) l)) left_after_header
        ∙ ap ok (take-append f.body rest) in
      let fits : (leb 2 (length f.body + 1) && leb (length f.body + 1) 254) ≡ true = ground arith in
      let missing : length f.body + 1 - 1 ≡ length f.body = omega arith in
      rw (header, size, transaction, fits, missing, body)

abbrev pub wires : List Frame → List ℕ
wires [] = []
wires (f ∷ fs) = wire f ++ wires fs

-- A complete frame of another transaction: left behind by an earlier client.
abbrev pub IsStale : ℕ → Frame → Type 0
IsStale id f = IsComplete f × (f.id ≢ id)

-- What the loop ends with, and the client that it leaves.
pub record Answers (deadline : ℕ) (f : Frame) (rest : List ℕ) (c : Client)
    (r : Result Fault (List ℕ) × Client) : Type 0 where
  pub reader : Client
  pub accepted : r ≡ accept c.slave f.unit f.body reader
  pub holds : Holds deadline rest reader
  pub kept : (reader.transaction_id ≡ c.transaction_id) × (reader.sent ≡ c.sent)

Answers-later :
    {deadline : ℕ} {f : Frame} {rest : List ℕ} (c : Client) (size : ℕ)
    {r : Result Fault (List ℕ) × Client}
    → Answers deadline f rest (after_frame deadline size c) r
    → Answers deadline f rest c r
Answers-later c size a = record {
  reader = a.reader;
  accepted = a.accepted;
  holds = a.holds;
  kept = a.kept;
}

-- Stale frames are passed over; the first frame of the transaction is judged.
pub read_response-skips :
    (deadline id : ℕ) (f : Frame) (rest : List ℕ) (stale : List Frame) (fuel : ℕ) (c : Client)
    → length stale < fuel
    → All (IsStale id) stale
    → IsComplete f
    → f.id ≡ id
    → Holds deadline (wires stale ++ (wire f ++ rest)) c
    → Answers deadline f rest c (read_response fuel id deadline c)
read_response-skips deadline id f rest stale zero c h old complete same holds = absurd (omega arith)
read_response-skips deadline id f rest [] (suc fuel) c h old complete same holds = record {
  reader = after_frame deadline (length f.body) c;
  accepted = read_response-frame deadline f rest c complete holds fuel id ∙ rw (eq→== f.id id same);
  holds = after_frame-Holds deadline f rest c complete holds;
  kept = (refl, refl);
}
read_response-skips deadline id f rest (g ∷ stale) (suc fuel) c h old complete same holds =
    let bytes = wires stale ++ (wire f ++ rest) in
    let regrouped : Holds deadline (wire g ++ bytes) c = record {
      in_time = holds.in_time;
      clock = holds.clock;
      holds = holds.holds ∙ append_assoc (wire g) (wires stale) (wire f ++ rest);
    } in
    rw (read_response-frame deadline g bytes c old.0.0 regrouped fuel id) (
      rw (ne→== g.id id old.0.1) (
        Answers-later c (length g.body) (
          read_response-skips deadline id f rest stale fuel (after_frame deadline (length g.body) c)
            (omega arith) old.1 complete same
            (after_frame-Holds deadline g bytes c old.0.0 regrouped))))
