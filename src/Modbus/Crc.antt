-- ===== src/Modbus/Crc.antt =====
-- `crc16_modbus`, `append_crc` and `check_crc` of dcp8001_collector.py. A byte is a number below 256
-- and a frame a list of bytes.
pub mod Bijection
pub mod Frames
use hawklive.Prelude.{
  ℕ, zero, suc, ◌+◌, ◌-◌, ◌*◌, ◌/◌, ◌^◌, ◌<◌, List, [], ◌∷◌, ◌++◌, bit_and, bit_or, bit_xor, length,
  get_or, take, All, ltb, ◌==◌, if◌then◌else◌, Result, ok, err,
}
use hawklive.Modbus.Fault.{Fault, too_short, crc_mismatch}

abbrev pub IsBytes : List ℕ → Type 0
IsBytes = All (λ b. b < 256)

-- The body of the inner loop.
pub crc_bit : ℕ → ℕ
crc_bit crc = if bit_and crc 0x0001 == 0 then crc / 2 ^ 1 else bit_xor (crc / 2 ^ 1) 0xA001

-- `for _ in range(8)`
pub crc_bits : ℕ → ℕ → ℕ
crc_bits zero crc = crc
crc_bits (suc n) crc = crc_bits n (crc_bit crc)

-- `for byte in data`
pub crc_from : ℕ → List ℕ → ℕ
crc_from crc [] = crc
crc_from crc (byte ∷ rest) = crc_from (crc_bits 8 (bit_xor crc byte)) rest

unfoldable pub crc16_modbus : List ℕ → ℕ
unfolding crc_bit crc_bits crc_from
crc16_modbus bytes = bit_and (crc_from 0xFFFF bytes) 0xFFFF

-- The two bytes that `append_crc` adds, low byte first.
unfoldable pub crc_trailer : ℕ → List ℕ
crc_trailer crc = bit_and crc 0xFF ∷ bit_and (crc / 2 ^ 8) 0xFF ∷ []

unfoldable pub append_crc : List ℕ → List ℕ
unfolding crc_trailer crc16_modbus
append_crc frame = frame ++ crc_trailer (crc16_modbus frame)

unfoldable pub check_crc : List ℕ → Result Fault Unit
unfolding crc16_modbus
check_crc frame =
    let size = length frame in
    let expected = crc16_modbus (take (size - 2) frame) in
    let actual = bit_or (get_or frame (size - 2) 0) (get_or frame (size - 1) 0 * 2 ^ 8) in
    if ltb size 4
    then err too_short
    else if actual == expected
    then ok tt
    else err (crc_mismatch actual expected)
