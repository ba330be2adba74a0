-- ===== src/Modbus/Tests.antt =====
-- The protocol on concrete frames.
use hawklive.Prelude.{
  ℕ, ◌+◌, ◌*◌, ◌≤◌, ◌≡◌, refl, none, List, [], ◌∷◌, ◌++◌, ok, err, arith, get_or, length, take,
  drop,
}
use hawklive.Modbus.Fault.{crc_mismatch}
use hawklive.Modbus.Crc.{IsBytes, crc16_modbus, crc_trailer, append_crc, check_crc}
use hawklive.Modbus.Crc.Frames.{check_crc-append_crc, check_crc_sound, check_crc-changed_byte}
use hawklive.Modbus.Registers.{Label, label_for, reading_of}
use hawklive.Modbus.Registers.Laws.{IsWords, register_bytes}
use hawklive.Modbus.Registers.Sample.{sample, reading_of-eq-sample}
use hawklive.Modbus.Socket.{Incoming, discard}
use hawklive.Modbus.Socket.Stream.{stream}
use hawklive.Modbus.Tcp.{
  Client, connect, read_holding_registers, read_realtime, settle, mbap, request_deadline,
}
use hawklive.Modbus.Tcp.Deadline.{read_realtime-clock}
use hawklive.Modbus.Tcp.Exits.{next_id}
use hawklive.Modbus.Tcp.Requests.{Frame}
use hawklive.Modbus.Tcp.Exchange.{Exchange, read_body, read_holding_registers-Exchange}
use hawklive.Modbus.Rtu
use hawklive.Modbus.Rtu.{Port}
use hawklive.Modbus.Rtu.Reply.{
  arriving_in, reply, read_holding_registers-reply, read_holding_registers-short_frame,
}

abbrev frame : List ℕ
frame = 1 ∷ 3 ∷ 0 ∷ 0 ∷ 0 ∷ 1 ∷ []

check_crc-append_crc_example : check_crc (append_crc frame) ≡ ok tt
check_crc-append_crc_example = check_crc-append_crc frame (omega arith)

framed-IsBytes : IsBytes (append_crc frame)
unfolding append_crc
framed-IsBytes = omega arith

check_crc_sound_example :
    (payload : List ℕ) × (2 ≤ length payload) × (append_crc frame ≡ append_crc payload)
check_crc_sound_example =
    check_crc_sound (append_crc frame) framed-IsBytes check_crc-append_crc_example

check_crc-changed_byte_example :
    check_crc ((1 ∷ 3 ∷ 7 ∷ 0 ∷ []) ++ crc_trailer (crc16_modbus (1 ∷ 3 ∷ 6 ∷ 0 ∷ [])))
    ≡ err (crc_mismatch (crc16_modbus (1 ∷ 3 ∷ 6 ∷ 0 ∷ [])) (crc16_modbus (1 ∷ 3 ∷ 7 ∷ 0 ∷ [])))
check_crc-changed_byte_example =
    check_crc-changed_byte (1 ∷ 3 ∷ []) (0 ∷ []) 6 7 (omega arith, (omega arith, tt))
      (omega arith, tt) (omega arith) (omega arith) (omega arith) (omega arith)

abbrev registers : List ℕ
registers =
    1 ∷ 2 ∷ 3 ∷ 4 ∷ 5 ∷ 6 ∷ 7 ∷ 8 ∷ 9 ∷ 10 ∷ 11 ∷ 12 ∷ 13 ∷ 14 ∷ 15 ∷ 16 ∷ 17 ∷ 18 ∷ 19 ∷ 20 ∷ 21
    ∷ 22 ∷ 23 ∷ 24 ∷ 25 ∷ 26 ∷ []

abbrev channel_unit : ℕ × Label
channel_unit = (1, label_for ((1, "particles/ft³") ∷ []) 1)

registers-IsWords : IsWords registers
registers-IsWords = omega arith

abbrev cut : Incoming
cut = (5, 1 ∷ 2 ∷ []) ∷ (6, 3 ∷ []) ∷ (8, 4 ∷ 5 ∷ []) ∷ []

abbrev client : Client
client = connect 1 1000 30 41 0 cut

read_realtime-clock_example :
    ((read_realtime (λ bytes. length bytes) (λ x. x) client).1.clock
      ≤ client.clock + client.timeout * 2 + client.connect_settle)
    × ((read_realtime (λ bytes. length bytes) (λ x. x) client).1.read_deadline ≡ none)
read_realtime-clock_example = read_realtime-clock (λ bytes. length bytes) (λ x. x) client

abbrev port : Port
port = record { slave = 1; clock = 0; buffered = 9 ∷ []; arriving = []; written = [] }

rest-size : length (drop 3 (reply 1 (5 ∷ 6 ∷ []))) ≡ 6
unfolding append_crc register_bytes
rest-size = refl

rest-short : length (drop 3 (reply 1 (5 ∷ 6 ∷ []))) ≤ 256
rest-short = omega (arith, rest-size)

read_holding_registers-reply_example :
    (Rtu.read_holding_registers 0 2
      (arriving_in port (take 3 (reply 1 (5 ∷ 6 ∷ []))) (drop 3 (reply 1 (5 ∷ 6 ∷ []))))).0
    ≡ ok (5 ∷ 6 ∷ [])
unfolding append_crc
read_holding_registers-reply_example =
    read_holding_registers-reply port 0 (5 ∷ 6 ∷ []) (take 3 (reply 1 (5 ∷ 6 ∷ [])))
      (drop 3 (reply 1 (5 ∷ 6 ∷ []))) refl rest-short

read_holding_registers-short_frame_example :
    (Rtu.read_holding_registers 0 1 (arriving_in port (append_crc (1 ∷ 3 ∷ 2 ∷ 0 ∷ [])) [])).0
    ≡ ok ((0 * 256 + get_or (crc_trailer (crc16_modbus (1 ∷ 3 ∷ 2 ∷ 0 ∷ []))) 0 0) ∷ [])
read_holding_registers-short_frame_example = read_holding_registers-short_frame port 0 0

reading_of-eq-sample_example :
    reading_of (λ bytes. length bytes) (λ x. x) 0 1 channel_unit registers
    ≡ ok (sample (λ bytes. length bytes) (λ x. x) 0 1 channel_unit registers)
reading_of-eq-sample_example =
    reading_of-eq-sample (λ bytes. length bytes) (λ x. x) 0 1 channel_unit registers
      registers-IsWords refl

-- A stale frame of transaction 7 comes before the answer of transaction 42, which is cut in two.
abbrev answered : Client
answered = record (connect 1 1000 30 41 0 []) {
  send_takes = 3;
  incoming =
      (35, 0 ∷ 7 ∷ 0 ∷ 0 ∷ 0 ∷ 3 ∷ 1 ∷ 3 ∷ 9 ∷ [])
      ∷ (40, 0 ∷ 42 ∷ 0 ∷ 0 ∷ 0 ∷ 5 ∷ 1 ∷ 3 ∷ [])
      ∷ (45, 2 ∷ 1 ∷ 4 ∷ [])
      ∷ [];
}

abbrev answer : Frame
answer = record { id = next_id answered; unit = answered.slave; body = read_body (260 ∷ []) }

abbrev stale_frame : Frame
stale_frame = record { id = 7; unit = 1; body = 3 ∷ 9 ∷ [] }

answered-Exchange : Exchange answer [] (stale_frame ∷ []) answered
unfolding connect settle discard stream mbap register_bytes request_deadline
answered-Exchange = record {
  settles = refl;
  writable = refl;
  stale_frames = ((omega arith, omega arith), tt);
  complete = omega arith;
  transaction = refl;
  unit = refl;
  no_exception = refl;
  arrives = record { in_time = omega arith; clock = omega arith; holds = refl };
}

read_holding_registers-Exchange_example : (read_holding_registers 0 1 answered).0 ≡ ok (260 ∷ [])
read_holding_registers-Exchange_example =
    read_holding_registers-Exchange 0 (260 ∷ []) [] (stale_frame ∷ []) answered answered-Exchange
