-- ===== src/Modbus/Rtu/Reply.antt =====
-- The replies that the client on a serial line takes.
use hawklive.Prelude.{
  ℕ, suc, ◌+◌, ◌*◌, ◌≤◌, ◌≡◌, refl, sym, ap, ◌∙◌, inl, inr, Bool-cases, List, [], ◌∷◌, ◌++◌, arith,
  length, get_or, take, drop, ltb, ok, if-both, take-append, lt→ltb, ==_refl, zero, length-append,
  append-nil,
}
use hawklive.Prelude.Effects.{after, pure, gets, lift, ◌>>=◌}
use hawklive.Modbus.Crc.{append_crc, crc_trailer, crc16_modbus}
use hawklive.Modbus.Crc.Frames.{check_crc-append_crc}
use hawklive.Modbus.Registers.{registers_from_data}
use hawklive.Modbus.Registers.Laws.{
  register_bytes, length-register_bytes, registers_from_data-register_bytes,
}
use hawklive.Modbus.Tcp.{pdu_of}
use hawklive.Modbus.Rtu.{
  Port, Call, arrived, read, write_frame, receive, validate, request, registers_of,
  read_holding_registers,
}

-- The reply of a device to the reading of the registers `rs`.
abbrev pub reply : ℕ → List ℕ → List ℕ
reply slave rs = append_crc (slave ∷ 3 ∷ length rs * 2 ∷ register_bytes rs)

take-short : (n : ℕ) (xs : List ℕ) → length xs ≤ n → take n xs ≡ xs
take-short zero [] h = refl
take-short zero (x ∷ xs) h = absurd (omega arith)
take-short (suc n) [] h = refl
take-short (suc n) (x ∷ xs) h = ap (λ l. x ∷ l) (take-short n xs (omega arith))

drop-short : (n : ℕ) (xs : List ℕ) → length xs ≤ n → drop n xs ≡ []
drop-short zero [] h = refl
drop-short zero (x ∷ xs) h = absurd (omega arith)
drop-short (suc n) [] h = refl
drop-short (suc n) (x ∷ xs) h = drop-short n xs (omega arith)

length-crc_trailer : (crc : ℕ) → length (crc_trailer crc) ≡ 2
unfolding crc_trailer
length-crc_trailer crc = refl

-- A port on which a reply comes in in two parts.
abbrev pub arriving_in : Port → List ℕ → List ℕ → Port
arriving_in c a b = record c { arriving = a ∷ b ∷ [] }

receive-split :
    (n : ℕ) (c : Port) (a b : List ℕ)
    → length a + length b ≤ n
    → length b ≤ 256
    → (receive n (record c { buffered = []; arriving = a ∷ b ∷ [] })).0 ≡ ok (a ++ b)
unfolding receive read
receive-split n c a [] size short = elim (Bool-cases (ltb (length a) n)) [
  | inl e ↦
      rw
        (
          take-short n a (omega (arith, size)),
          drop-short n a (omega (arith, size)),
          e,
          append-nil a,
        )
        refl
  | inr e ↦ rw (take-short n a (omega (arith, size)), e, append-nil a) refl
]
receive-split n c a (y ∷ b) size short =
    rw
      (
        take-short n a (omega (arith, size)),
        drop-short n a (omega (arith, size)),
        lt→ltb (length a) n (omega (arith, size)),
        take-short 256 (y ∷ b) short,
      )
      refl

validate-reply : (slave : ℕ) (rs : List ℕ) → validate slave (reply slave rs) ≡ ok (reply slave rs)
unfolding validate append_crc
validate-reply slave rs =
    let payload = slave ∷ 3 ∷ length rs * 2 ∷ register_bytes rs in
    rw (check_crc-append_crc payload (omega arith), ==_refl slave) refl

take-register_bytes :
    (rs ys : List ℕ) → take (length rs * 2) (register_bytes rs ++ ys) ≡ register_bytes rs
take-register_bytes rs ys =
    ap (λ n. take n (register_bytes rs ++ ys)) (sym (length-register_bytes rs))
    ∙ take-append (register_bytes rs) ys

registers_of-reply : (slave : ℕ) (rs : List ℕ) → registers_of (length rs) (reply slave rs) ≡ ok rs
unfolding registers_of append_crc
registers_of-reply slave rs =
    let payload = slave ∷ 3 ∷ length rs * 2 ∷ register_bytes rs in
    rw (==_refl (length rs * 2)) (
      ap registers_from_data (take-register_bytes rs (crc_trailer (crc16_modbus payload)))
      ∙ registers_from_data-register_bytes rs)

length-reply : (slave : ℕ) (rs : List ℕ) → length (reply slave rs) ≡ 5 + length rs * 2
unfolding append_crc
length-reply slave rs =
    let payload = slave ∷ 3 ∷ length rs * 2 ∷ register_bytes rs in
    omega (
      arith,
      length-append (register_bytes rs) (crc_trailer (crc16_modbus payload)),
      length-crc_trailer (crc16_modbus payload),
      length-register_bytes rs,
    )

receive-slave : (n : ℕ) (c : Port) → (receive n c).1.slave ≡ c.slave
unfolding receive read
receive-slave n c =
    if-both (λ (m : Call (List ℕ)). (m (read n c).1).1.slave ≡ c.slave)
      (ltb (length (take n (c.buffered ++ arrived c.arriving))) n)
      {a = do more ← read 256; pure (take n (c.buffered ++ arrived c.arriving) ++ more)}
      {b = pure (take n (c.buffered ++ arrived c.arriving))} refl refl

request-split :
    (c : Port) (payload a b : List ℕ) (n : ℕ)
    → length a + length b ≤ n
    → length b ≤ 256
    → (request payload n (arriving_in c a b)).0 ≡ validate c.slave (a ++ b)
unfolding request write_frame
request-split c payload a b n size short =
    let c' = record c {
      buffered = [];
      arriving = a ∷ b ∷ [];
      written = c.written ++ append_crc payload ∷ [];
    } in
    ap
      (λ r.
        (after r (λ response. do slave ← gets (λ c. c.slave); lift (validate slave response))
          (receive n c').1).0)
      (receive-split n c' a b size short)
    ∙ ap (λ slave. validate slave (a ++ b)) (receive-slave n c')

-- However the frame that a device sends for its registers is split over the two reads of the port,
-- and whatever the port had buffered before, the client reads those registers.
pub read_holding_registers-reply :
    (c : Port) (start : ℕ) (rs a b : List ℕ)
    → a ++ b ≡ reply c.slave rs
    → length b ≤ 256
    → (read_holding_registers start (length rs) (arriving_in c a b)).0 ≡ ok rs
unfolding read_holding_registers
read_holding_registers-reply c start rs a b e short =
    let n = 5 + length rs * 2 in
    let payload = c.slave ∷ pdu_of 0x03 start (length rs) in
    let size : length a + length b ≡ n =
      sym (length-append a b) ∙ ap length e ∙ length-reply c.slave rs in
    ap
      (λ r.
        (after r (λ response. lift (registers_of (length rs) response))
          (request payload n (arriving_in c a b)).1).0)
      (request-split c payload a b n (omega (arith, size)) short
        ∙ ap (validate c.slave) e
        ∙ validate-reply c.slave rs)
    ∙ registers_of-reply c.slave rs

short-validate :
    (slave byte : ℕ)
    → let frame = append_crc (slave ∷ 3 ∷ 2 ∷ byte ∷ []) in validate slave frame ≡ ok frame
unfolding validate append_crc
short-validate slave byte =
    rw (check_crc-append_crc (slave ∷ 3 ∷ 2 ∷ byte ∷ []) (omega arith), ==_refl slave) refl

short-registers_of :
    (slave byte : ℕ)
    → let frame = slave ∷ 3 ∷ 2 ∷ byte ∷ [] in
      registers_of 1 (append_crc frame)
      ≡ ok ((byte * 256 + get_or (crc_trailer (crc16_modbus frame)) 0 0) ∷ [])
unfolding registers_of append_crc registers_from_data crc_trailer
short-registers_of slave byte = refl

short_size : (slave byte : ℕ) → length (append_crc (slave ∷ 3 ∷ 2 ∷ byte ∷ [])) + 0 ≤ 7
unfolding append_crc crc_trailer
short_size slave byte = omega arith

-- A frame that says that it has two bytes of data but has one: the client takes it for a register,
-- and the first byte of the checksum for the register's low byte.
pub read_holding_registers-short_frame :
    (c : Port) (start byte : ℕ)
    → let frame = c.slave ∷ 3 ∷ 2 ∷ byte ∷ [] in
      (read_holding_registers start 1 (arriving_in c (append_crc frame) [])).0
      ≡ ok ((byte * 256 + get_or (crc_trailer (crc16_modbus frame)) 0 0) ∷ [])
unfolding read_holding_registers
read_holding_registers-short_frame c start byte =
    let frame = c.slave ∷ 3 ∷ 2 ∷ byte ∷ [] in
    let payload = c.slave ∷ pdu_of 0x03 start 1 in
    ap
      (λ r.
        (after r (λ response. lift (registers_of 1 response))
          (request payload 7 (arriving_in c (append_crc frame) [])).1).0)
      (request-split c payload (append_crc frame) [] 7 (short_size c.slave byte) (omega arith)
        ∙ ap (validate c.slave) (append-nil (append_crc frame))
        ∙ short-validate c.slave byte)
    ∙ short-registers_of c.slave byte
