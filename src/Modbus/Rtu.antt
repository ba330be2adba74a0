-- ===== src/Modbus/Rtu.antt =====
-- `Dcp8001Client` of dcp8001_collector.py: the client on a serial line. The port is a field of the
-- client: what pyserial has buffered, and what comes in during each of the coming reads.
pub mod Reply
use hawklive.Prelude.{
  ℕ, ◌+◌, ◌-◌, ◌*◌, ◌/◌, ◌^◌, Bool, not, List, [], ◌∷◌, ◌++◌, Option, none, some, bit_and, length,
  get_or, take, drop, ltb, ◌==◌, if◌then◌else◌, Result, ok, err,
}
use hawklive.Prelude.Effects.{Effect, pure, lift, gets, modify, ensure, ◌>>=◌, ◌>>◌}
use hawklive.Modbus.Fault.{
  Fault, unexpected_slave, exception_response, unexpected_function, unexpected_byte_count, no_echo,
}
use hawklive.Modbus.Crc.{append_crc, check_crc}
use hawklive.Modbus.Registers.{
  Label, Reading, registers_from_data, validate_particle_unit, reading_of,
}
use hawklive.Modbus.Tcp.{pdu_of, same_bytes}

pub record Port : Type 0 where
  pub slave : ℕ
  pub clock : ℕ
  pub buffered : List ℕ
  pub arriving : List (List ℕ)
  pub written : List (List ℕ)

abbrev pub Call : Type 0 → Type 0
Call A = Effect Port Fault A

abbrev pub arrived : List (List ℕ) → List ℕ
arrived [] = []
arrived (now ∷ later) = now

abbrev pub later : List (List ℕ) → List (List ℕ)
later [] = []
later (now ∷ rest) = rest

-- `Serial.read(size)`: at most `size` bytes, fewer when the timeout ends it.
unfoldable pub read : ℕ → Call (List ℕ)
read size c =
    let bytes = c.buffered ++ arrived c.arriving in
    (ok (take size bytes), record c { buffered = drop size bytes; arriving = later c.arriving })

-- `reset_input_buffer`, `write` and `flush`.
unfoldable pub write_frame : List ℕ → Call Unit
write_frame frame = modify (λ c. record c { buffered = []; written = c.written ++ frame ∷ [] })

unfoldable pub receive : ℕ → Call (List ℕ)
receive expected = do
  response ← read expected
  let all = do more ← read 256; pure (response ++ more)
  if ltb (length response) expected then all else pure response

-- `response[2] if len(response) > 2 else None`
unfoldable pub response_code : List ℕ → Option ℕ
response_code response = if ltb 2 (length response) then some (get_or response 2 0) else none

-- The tests on the slave address and on the exception bit.
abbrev pub addressed : ℕ → List ℕ → Result Fault (List ℕ)
addressed slave response =
    if not (get_or response 0 0 == slave)
    then err (unexpected_slave (get_or response 0 0) slave)
    else if bit_and (get_or response 1 0) 0x80 == 0
    then ok response
    else err (exception_response (get_or response 1 0) (response_code response))

abbrev pub checked : {A : Type 0} → Result Fault Unit → Result Fault A → Result Fault A
checked (ok _) next = next
checked (err e) next = err e

-- The tests of `_request`; a frame that `check_crc` takes has at least four bytes.
unfoldable pub validate : ℕ → List ℕ → Result Fault (List ℕ)
validate slave response = checked (check_crc response) (addressed slave response)

unfoldable pub request : List ℕ → ℕ → Call (List ℕ)
request payload expected = do
  write_frame (append_crc payload)
  response ← receive expected
  slave ← gets (λ c. c.slave)
  lift (validate slave response)

-- The tests of `read_holding_registers` on a response.
unfoldable pub registers_of : ℕ → List ℕ → Result Fault (List ℕ)
registers_of quantity response =
    let byte_count = get_or response 2 0 in
    if not (get_or response 1 0 == 0x03)
    then err (unexpected_function (get_or response 1 0))
    else if byte_count == quantity * 2
    then registers_from_data (take byte_count (drop 3 response))
    else err (unexpected_byte_count byte_count (quantity * 2))

unfoldable pub read_holding_registers : ℕ → ℕ → Call (List ℕ)
read_holding_registers start quantity = do
  slave ← gets (λ c. c.slave)
  response ← request (slave ∷ pdu_of 0x03 start quantity) (5 + quantity * 2)
  lift (registers_of quantity response)

unfoldable pub write_single_register : ℕ → ℕ → Call Unit
write_single_register address value = do
  slave ← gets (λ c. c.slave)
  response ← request (slave ∷ pdu_of 0x06 address value) 8
  ensure (same_bytes (take (length response - 2) response) (slave ∷ pdu_of 0x06 address value))
      no_echo

unfoldable pub start_sampling : Call Unit
start_sampling = write_single_register 50 1

unfoldable pub stop_sampling : Call Unit
stop_sampling = write_single_register 50 0

unfoldable pub read_particle_unit : Call (ℕ × Label)
read_particle_unit = do
  registers ← read_holding_registers 133 1
  lift (validate_particle_unit registers)

module _ {F : Type 0} (unpack : List ℕ → F) (round4 : F → F) where
  unfoldable pub read_realtime : Call (Reading F)
  read_realtime = do
    unit ← read_particle_unit
    registers ← read_holding_registers 0 26
    time ← gets (λ c. c.clock)
    slave ← gets (λ c. c.slave)
    lift (reading_of unpack round4 time slave unit registers)
