-- ===== src/Modbus/Crc/Frames.antt =====
-- What `check_crc` accepts, and the corruption that it detects.
use hawklive.Prelude.{
  ℕ, suc, ◌+◌, ◌-◌, ◌*◌, ◌/◌, ◌^◌, ◌≤◌, ◌<◌, ◌≡◌, ◌≢◌, refl, ap, sym, List, [], ◌∷◌, ◌++◌, bit_and,
  bit_xor, arith, length, get_or, take, drop, length-append, take-append, take-append-drop,
  length-take, length-drop, All-drop, ◌∙◌, All-append, ◌==◌, if◌then◌else◌, bit_or_low,
  bit_and_mask, ok, err,
}
use mathlib.Core.Path.{subst}
use hawklive.Modbus.Fault.{crc_mismatch}
use hawklive.Modbus.Crc.{
  IsBytes, crc_bits, crc_from, crc16_modbus, crc_trailer, append_crc, check_crc,
}
use hawklive.Modbus.Crc.Bijection.{
  crc_from-lt, crc_from-injective, crc_from-append, absorb-lt, absorb-injective,
}

pub crc16-lt : (bytes : List ℕ) → crc16_modbus bytes < 2 ^ 16
unfolding crc16_modbus
crc16-lt bytes = omega (arith, bit_and_mask 16 (crc_from 0xFFFF bytes))

-- The mask at the end takes nothing away.
crc16-eq-crc_from : (bytes : List ℕ) → IsBytes bytes → crc16_modbus bytes ≡ crc_from 0xFFFF bytes
unfolding crc16_modbus
crc16-eq-crc_from bytes h =
    omega (arith, bit_and_mask 16 (crc_from 0xFFFF bytes), crc_from-lt 0xFFFF bytes (omega arith) h)

-- Two bytes stand behind a payload where `check_crc` looks for them.
get_or-past : (payload : List ℕ) (a b : ℕ) → get_or (payload ++ a ∷ b ∷ []) (length payload) 0 ≡ a
get_or-past [] a b = refl
get_or-past (x ∷ xs) a b = get_or-past xs a b

get_or-past_suc :
    (payload : List ℕ) (a b : ℕ) → get_or (payload ++ a ∷ b ∷ []) (suc (length payload)) 0 ≡ b
get_or-past_suc [] a b = refl
get_or-past_suc (x ∷ xs) a b = get_or-past_suc xs a b

-- `check_crc` compares the two last bytes, low byte first, with the CRC of what stands before them.
check_crc-split :
    (payload : List ℕ) (a b : ℕ)
    → 2 ≤ length payload
    → a < 256
    → check_crc (payload ++ a ∷ b ∷ []) ≡ (
        if a + b * 256 == crc16_modbus payload
        then ok tt
        else err (crc_mismatch (a + b * 256) (crc16_modbus payload)))
unfolding check_crc
check_crc-split payload a b h ha =
    let size = length-append payload (a ∷ b ∷ []) in
    let two : length (payload ++ a ∷ b ∷ []) - 2 ≡ length payload = omega (arith, size) in
    let one : length (payload ++ a ∷ b ∷ []) - 1 ≡ suc (length payload) = omega (arith, size) in
    rw
      (
        two,
        one,
        take-append payload (a ∷ b ∷ []),
        get_or-past payload a b,
        get_or-past_suc payload a b,
        bit_or_low 8 a b ha,
      )
      (ground (arith, size))

abbrev low_byte : ℕ → ℕ
low_byte crc = bit_and crc 0xFF

abbrev high_byte : ℕ → ℕ
high_byte crc = bit_and (crc / 2 ^ 8) 0xFF

low_byte-lt : (crc : ℕ) → low_byte crc < 256
low_byte-lt crc = omega (arith, bit_and_mask 8 crc)

trailer_sum : (crc : ℕ) → crc < 2 ^ 16 → low_byte crc + high_byte crc * 256 ≡ crc
trailer_sum crc h = omega (arith, bit_and_mask 8 crc, bit_and_mask 8 (crc / 2 ^ 8))

-- A frame under a 16-bit trailer is judged by comparing the trailer with the CRC.
check_crc-trailer :
    (payload : List ℕ) (crc : ℕ)
    → 2 ≤ length payload
    → crc < 2 ^ 16
    → check_crc (payload ++ crc_trailer crc) ≡ (
        if crc == crc16_modbus payload
        then ok tt
        else err (crc_mismatch crc (crc16_modbus payload)))
unfolding crc_trailer
check_crc-trailer payload crc h small =
    rw (check_crc-split payload (low_byte crc) (high_byte crc) h (low_byte-lt crc))
      (rw (trailer_sum crc small))

-- What `append_crc` makes of a payload of at least two bytes, `check_crc` accepts.
pub check_crc-append_crc :
    (payload : List ℕ) → 2 ≤ length payload → check_crc (append_crc payload) ≡ ok tt
unfolding append_crc
check_crc-append_crc payload h =
    rw (check_crc-trailer payload (crc16_modbus payload) h (crc16-lt payload)) (ground arith)

check_crc-length : (frame : List ℕ) → check_crc frame ≡ ok tt → 4 ≤ length frame
unfolding check_crc
check_crc-length frame h = ground arith

two_elements : (l : List ℕ) → length l ≡ 2 → (a : ℕ) × (b : ℕ) × (l ≡ a ∷ b ∷ [])
two_elements [] h = absurd (omega arith)
two_elements (a ∷ []) h = absurd (omega arith)
two_elements (a ∷ b ∷ []) h = (a, b, refl)
two_elements (a ∷ b ∷ c ∷ l) h = absurd (omega arith)

check_crc-trailer_bytes :
    (payload : List ℕ) (a b : ℕ)
    → 2 ≤ length payload
    → a < 256
    → b < 256
    → check_crc (payload ++ a ∷ b ∷ []) ≡ ok tt
    → crc_trailer (crc16_modbus payload) ≡ a ∷ b ∷ []
unfolding crc_trailer
check_crc-trailer_bytes payload a b h ha hb e = ground (
  arith,
  check_crc-split payload a b h ha,
  bit_and_mask 8 (crc16_modbus payload),
  bit_and_mask 8 (crc16_modbus payload / 256),
)

-- What `check_crc` accepts is a frame that `append_crc` makes, of at least two bytes.
pub check_crc_sound :
    (frame : List ℕ)
    → IsBytes frame
    → check_crc frame ≡ ok tt
    → (payload : List ℕ) × (2 ≤ length payload) × (frame ≡ append_crc payload)
unfolding append_crc
check_crc_sound frame hb h =
    let n = length frame - 2 in
    let long = check_crc-length frame h in
    let (a, b, e) = two_elements (drop n frame) (omega (arith, length-drop n frame)) in
    let whole : frame ≡ take n frame ++ a ∷ b ∷ [] =
      sym (take-append-drop n frame) ∙ ap (λ l. take n frame ++ l) e in
    let fits : 2 ≤ length (take n frame) = omega (arith, length-take n frame) in
    let bytes : IsBytes (a ∷ b ∷ []) = subst IsBytes e (All-drop _ n frame hb) in
    let accepted : check_crc (take n frame ++ a ∷ b ∷ []) ≡ ok tt = ap check_crc (sym whole) ∙ h in
    let trailer = check_crc-trailer_bytes (take n frame) a b fits bytes.0 bytes.1.0 accepted in
    (take n frame, fits, whole ∙ ap (λ l. take n frame ++ l) (sym trailer))

-- Payloads that differ in one byte have different CRCs.
crc16-changed_byte :
    (xs ys : List ℕ) (a b : ℕ)
    → IsBytes xs
    → IsBytes ys
    → a < 256
    → b < 256
    → crc16_modbus (xs ++ a ∷ ys) ≡ crc16_modbus (xs ++ b ∷ ys)
    → a ≡ b
crc16-changed_byte xs ys a b hx hy ha hb e =
    let before = crc_from 0xFFFF xs in
    let before-lt = crc_from-lt 0xFFFF xs (omega arith) hx in
    absorb-injective before a b before-lt ha hb (
      crc_from-injective (crc_bits 8 (bit_xor before a)) (crc_bits 8 (bit_xor before b)) ys
        (absorb-lt before a before-lt ha) (absorb-lt before b before-lt hb) hy
        (unfold crc_from in
          cc (
            e,
            crc_from-append 0xFFFF xs (a ∷ ys),
            crc_from-append 0xFFFF xs (b ∷ ys),
            crc16-eq-crc_from (xs ++ a ∷ ys) (All-append _ xs (a ∷ ys) hx (ha, hy)),
            crc16-eq-crc_from (xs ++ b ∷ ys) (All-append _ xs (b ∷ ys) hx (hb, hy)),
          )))

-- One byte of the payload that arrives changed is detected: the frame is refused as a mismatch.
pub check_crc-changed_byte :
    (xs ys : List ℕ) (a b : ℕ)
    → IsBytes xs
    → IsBytes ys
    → a < 256
    → b < 256
    → a ≢ b
    → 1 ≤ length xs + length ys
    → check_crc ((xs ++ b ∷ ys) ++ crc_trailer (crc16_modbus (xs ++ a ∷ ys)))
      ≡ err (crc_mismatch (crc16_modbus (xs ++ a ∷ ys)) (crc16_modbus (xs ++ b ∷ ys)))
check_crc-changed_byte xs ys a b hx hy ha hb ne h =
    let sent = crc16_modbus (xs ++ a ∷ ys) in
    let got = crc16_modbus (xs ++ b ∷ ys) in
    rw
      (check_crc-trailer (xs ++ b ∷ ys) sent (omega (arith, length-append xs (b ∷ ys)))
        (crc16-lt (xs ++ a ∷ ys)))
      (ground (arith, λ (e : sent ≡ got). ne (crc16-changed_byte xs ys a b hx hy ha hb e)))
