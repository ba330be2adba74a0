-- ===== src/Modbus/Tcp.antt =====
-- `Dcp8001TcpClient` of dcp8001_collector.py. A method is an effect on the client: it keeps what it
-- wrote when it raises. The socket and the clock are fields of the client; computing takes no time.
pub mod Exits
pub mod Requests
pub mod Exchange
pub mod Total
pub mod Deadline
use hawklive.Prelude.{
  ℕ, zero, suc, ◌+◌, ◌-◌, ◌*◌, ◌/◌, ◌%◌, ◌^◌, min, max, Bool, true, false, not, ◌&&◌, ◌||◌, List,
  [], ◌∷◌, ◌++◌, Option, none, some, bit_and, length, get_or, take, drop, ltb, leb, ◌==◌,
  if◌then◌else◌, Result, ok, err,
}
use hawklive.Prelude.Effects.{Effect, pure, raise, lift, gets, modify, ensure, ◌>>=◌, ◌>>◌}
use hawklive.Modbus.Fault.{
  Fault, timed_out, socket_closed, unexpected_protocol, unexpected_length, unexpected_slave,
  exception_response, unexpected_function, unexpected_byte_count, no_echo, index_error, out_of_fuel,
}
use hawklive.Modbus.Registers.{
  Label, Reading, registers_from_data, validate_particle_unit, reading_of, item,
}
use hawklive.Modbus.Socket.{Segment, Incoming, Received, recv_exact, discard}

-- `diagnostic_stage`
pub data Stage : Type 0 where
  connected initial_settle send_request response_header response_body response_validated : Stage

pub record Client : Type 0 where
  pub slave : ℕ
  pub timeout : ℕ
  pub connect_settle : ℕ
  pub transaction_id : ℕ
  pub first_request : Bool
  pub diagnostic_stage : Stage
  -- `none` after a send that failed part of the way.
  pub request_sent : Option Bool
  pub read_deadline : Option ℕ
  -- The world of the client: the clock, what will arrive, whether a send succeeds and how long it
  -- takes, what was sent.
  pub clock : ℕ
  pub incoming : Incoming
  pub writable : Bool
  pub send_takes : ℕ
  pub sent : List (List ℕ)

abbrev pub Call : Type 0 → Type 0
Call A = Effect Client Fault A

-- A call on the socket, with its clock and what it leaves.
abbrev pub on_socket : {A : Type 0} → (ℕ → Incoming → Received A) → Call A
on_socket f c =
    let r = f c.clock c.incoming in (r.outcome, record c { clock = r.clock; incoming = r.left })

abbrev pub set_stage : Stage → Call Unit
set_stage s = modify (λ c. record c { diagnostic_stage = s })

-- `__init__`, with the random transaction id and the time at which the connection stood.
unfoldable pub connect : ℕ → ℕ → ℕ → ℕ → ℕ → Incoming → Client
connect slave timeout connect_settle random clock incoming = record {
  slave = slave;
  timeout = timeout;
  connect_settle = connect_settle;
  transaction_id = random;
  first_request = true;
  diagnostic_stage = connected;
  request_sent = some false;
  read_deadline = none;
  clock = clock;
  incoming = incoming;
  writable = true;
  send_takes = 0;
  sent = [];
}

unfoldable pub next_transaction_id : Call ℕ
next_transaction_id c =
    let id = bit_and (c.transaction_id + 1) 0xFFFF in (ok id, record c { transaction_id = id })

-- `deadline = min(now + timeout, read_deadline)`
unfoldable pub request_deadline : Client → ℕ
request_deadline c = elim c.read_deadline [
  | none ↦ c.clock + c.timeout
  | some d ↦ min (c.clock + c.timeout) d
]

-- `int.from_bytes(header[i : i + 2], "big")`
abbrev pub be_at : List ℕ → ℕ → ℕ
be_at header i = get_or header i 0 * 256 + get_or header (i + 1) 0

-- `body[1] if len(body) > 1 else None`
unfoldable pub exception_code : List ℕ → Option ℕ
exception_code body = if ltb 1 (length body) then some (get_or body 1 0) else none

-- The frame around a PDU: transaction id, protocol 0, length, unit.
unfoldable pub mbap : ℕ → ℕ → List ℕ → List ℕ
mbap id unit pdu =
    let size = length pdu + 1 in id / 256 ∷ id % 256 ∷ 0 ∷ 0 ∷ size / 256 ∷ size % 256 ∷ unit ∷ pdu

-- The tests on a complete frame of this transaction.
unfoldable pub accept : ℕ → ℕ → List ℕ → Call (List ℕ)
accept slave unit body = do
  ensure (unit == slave) (unexpected_slave unit slave)
  ensure (bit_and (get_or body 0 0) 0x80 == 0)
      (exception_response (get_or body 0 0) (exception_code body))
  set_stage response_validated
  pure body

-- The `while True` loop: complete frames of other transactions are skipped.
unfoldable pub read_response : ℕ → ℕ → ℕ → Call (List ℕ)
read_response zero id deadline = raise out_of_fuel
read_response (suc fuel) id deadline = do
  set_stage response_header
  header ← on_socket (recv_exact deadline 7)
  let size = be_at header 4
  ensure (be_at header 2 == 0) (unexpected_protocol (be_at header 2))
  ensure (leb 2 size && leb size 254) (unexpected_length size)
  set_stage response_body
  body ← on_socket (recv_exact deadline (size - 1))
  slave ← gets (λ c. c.slave)
  let again = read_response fuel id deadline
  let this = accept slave (get_or header 6 0) body
  if be_at header 0 == id then this else again

-- The bytes that the peer will send; each round of the loop above takes at least eight.
unfoldable pub pending_bytes : Incoming → ℕ
pending_bytes [] = 0
pending_bytes ((at, seg) ∷ later) = length seg + pending_bytes later

unfoldable pub settle : Call Unit
settle c =
    if c.first_request
    then on_socket (discard (c.clock + c.connect_settle)) (record c { first_request = false })
    else (ok tt, c)

-- `settimeout(remaining)` and `sendall`, which raises at the deadline if it is not done by then.
unfoldable pub send : ℕ → List ℕ → Call Unit
send deadline frame c =
    let done = c.clock + c.send_takes in
    if ltb deadline done
    then (err timed_out, record c { clock = deadline; request_sent = none })
    else if c.writable
    then (ok tt, record c { clock = done; request_sent = some true; sent = c.sent ++ frame ∷ [] })
    else (err socket_closed, record c { clock = done; request_sent = none })

unfoldable pub request_pdu : List ℕ → Call (List ℕ)
request_pdu pdu = do
  modify (λ c. record c { request_sent = some false; diagnostic_stage = initial_settle })
  settle
  id ← next_transaction_id
  deadline ← gets request_deadline
  now ← gets (λ c. c.clock)
  ensure (ltb now deadline) timed_out
  slave ← gets (λ c. c.slave)
  set_stage send_request
  send deadline (mbap id slave pdu)
  fuel ← gets (λ c. suc (pending_bytes c.incoming))
  read_response fuel id deadline

-- The PDU of a request with two 16-bit arguments.
abbrev pub pdu_of : ℕ → ℕ → ℕ → List ℕ
pdu_of function first second =
    function
    ∷ bit_and (first / 2 ^ 8) 0xFF
    ∷ bit_and first 0xFF
    ∷ bit_and (second / 2 ^ 8) 0xFF
    ∷ bit_and second 0xFF
    ∷ []

-- The tests on a read response; `response[1]` raises where the body is one byte.
unfoldable pub decode_registers : ℕ → List ℕ → Result Fault (List ℕ)
unfolding item
decode_registers quantity response =
    let byte_count = get_or response 1 0 in
    if not (get_or response 0 0 == 0x03)
    then err (unexpected_function (get_or response 0 0))
    else if ltb (length response) 2
    then err index_error
    else if byte_count == quantity * 2
    then registers_from_data (take byte_count (drop 2 response))
    else err (unexpected_byte_count byte_count (quantity * 2))

unfoldable pub read_holding_registers : ℕ → ℕ → Call (List ℕ)
read_holding_registers start quantity = do
  response ← request_pdu (pdu_of 0x03 start quantity)
  lift (decode_registers quantity response)

abbrev pub same_bytes : List ℕ → List ℕ → Bool
same_bytes [] [] = true
same_bytes (x ∷ xs) (y ∷ ys) = x == y && same_bytes xs ys
same_bytes _ _ = false

unfoldable pub write_single_register : ℕ → ℕ → Call Unit
write_single_register address value = do
  response ← request_pdu (pdu_of 0x06 address value)
  ensure (same_bytes response (pdu_of 0x06 address value)) no_echo

unfoldable pub start_sampling : Call Unit
start_sampling = write_single_register 50 1

unfoldable pub stop_sampling : Call Unit
stop_sampling = write_single_register 50 0

-- `registers.extend(…)` for `start in range(first, 26, 2)`, `rounds` times.
unfoldable pub read_pairs : ℕ → ℕ → Call (List ℕ)
read_pairs zero start = pure []
read_pairs (suc rounds) start = do
  pair ← read_holding_registers start 2
  rest ← read_pairs rounds (start + 2)
  pure (pair ++ rest)

unfoldable pub read_particle_unit : Call (ℕ × Label)
read_particle_unit = do
  registers ← read_holding_registers 133 1
  lift (validate_particle_unit registers)

module _ {F : Type 0} (unpack : List ℕ → F) (round4 : F → F) where
  unfoldable pub read_realtime_sample : Call (Reading F)
  read_realtime_sample = do
    unit ← read_particle_unit
    registers ← read_pairs 13 0
    time ← gets (λ c. c.clock)
    slave ← gets (λ c. c.slave)
    lift (reading_of unpack round4 time slave unit registers)

  -- The deadline of the whole sample is set before and cleared after, whether or not it raises.
  unfoldable pub read_realtime : Call (Reading F)
  read_realtime c =
      let limit = c.clock + c.timeout * 2 + c.connect_settle in
      let (outcome, c') = read_realtime_sample (record c { read_deadline = some limit }) in
      (outcome, record c' { read_deadline = none })
