-- ===== src/Modbus/Fault.antt =====
-- The exceptions that dcp8001_collector.py raises: one constructor for each raise site, with the
-- values that its message quotes.
use hawklive.Prelude.{ℕ, Option}

pub data Fault : Type 0 where
  -- ValueError
  too_short : Fault
  crc_mismatch : ℕ → ℕ → Fault
  odd_payload : Fault
  unexpected_slave : ℕ → ℕ → Fault
  exception_response : ℕ → Option ℕ → Fault
  unexpected_function : ℕ → Fault
  unexpected_byte_count : ℕ → ℕ → Fault
  no_echo : Fault
  unexpected_protocol : ℕ → Fault
  unexpected_length : ℕ → Fault
  unit_register_count : Fault
  -- UnsupportedParticleUnitError
  unsupported_unit : ℕ → Fault
  -- TimeoutError and ConnectionError
  timed_out : Fault
  socket_closed : Fault
  -- IndexError, where an index runs past what was received
  index_error : Fault
  -- The model's own: the loop of the model ran out of fuel, which `Tcp.Total` excludes.
  out_of_fuel : Fault
