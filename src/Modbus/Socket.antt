-- ===== src/Modbus/Socket.antt =====
-- `_recv_exact` and `_discard_initial_data` of `Dcp8001TcpClient`, over a socket in time.
--
-- A socket is what will still arrive: segments with their times of arrival, in order. An empty
-- segment is the peer's orderly shutdown, for which `recv` returns b"", and an empty list is a peer
-- that stays silent. Times are numbers on the scale of `time.monotonic()`.
pub mod Stream
use hawklive.Prelude.{
  ℕ, zero, suc, ◌+◌, ◌-◌, max, List, [], ◌∷◌, ◌++◌, length, take, drop, ltb, leb, ◌==◌,
  if◌then◌else◌, Result, ok, err,
}
use hawklive.Modbus.Fault.{Fault, timed_out, socket_closed}

abbrev pub Segment : Type 0
Segment = ℕ × List ℕ

abbrev pub Incoming : Type 0
Incoming = List Segment

-- What a call leaves behind: its outcome, the clock, and the socket.
pub record Received (A : Type 0) : Type 0 where
  pub outcome : Result Fault A
  pub clock : ℕ
  pub left : Incoming

-- What stays of a segment when `n` of its bytes have been received.
abbrev pub rest_of : ℕ → ℕ → List ℕ → Incoming → Incoming
rest_of n at seg later = if length seg == n then later else (at, drop n seg) ∷ later

pub prepend : List ℕ → Received (List ℕ) → Received (List ℕ)
prepend chunk r = elim r.outcome [ ok more ↦ record r { outcome = ok (chunk ++ more) } | err e ↦ r ]

-- The loop of `_recv_exact`: `need` bytes are still missing. The first test of a round is the
-- deadline; then `recv` waits for the next segment, at most up to the deadline.
unfoldable pub recv_exact : ℕ → ℕ → ℕ → Incoming → Received (List ℕ)
unfolding prepend
recv_exact deadline zero clock inc = record { outcome = ok []; clock = clock; left = inc }
recv_exact deadline (suc n) clock [] = record {
  outcome = err timed_out;
  clock = max clock deadline;
  left = [];
}
recv_exact deadline (suc n) clock ((at, seg) ∷ later) =
    let more = recv_exact deadline (suc n - length seg) (max clock at) later in
    if leb deadline clock
    then record { outcome = err timed_out; clock = clock; left = (at, seg) ∷ later }
    else if leb deadline at
    then record { outcome = err timed_out; clock = deadline; left = (at, seg) ∷ later }
    else if length seg == 0
    then record { outcome = err socket_closed; clock = max clock at; left = (at, seg) ∷ later }
    else if leb (suc n) (length seg)
    then record {
      outcome = ok (take (suc n) seg);
      clock = max clock at;
      left = rest_of (suc n) at seg later;
    }
    else prepend seg more

-- `_discard_initial_data`: what arrives before the settling time ends is read and dropped.
unfoldable pub discard : ℕ → ℕ → Incoming → Received Unit
discard deadline clock [] = record { outcome = ok tt; clock = max clock deadline; left = [] }
discard deadline clock ((at, seg) ∷ later) =
    let more = discard deadline (max clock at) later in
    if leb deadline clock
    then record { outcome = ok tt; clock = clock; left = (at, seg) ∷ later }
    else if leb deadline at
    then record { outcome = ok tt; clock = deadline; left = (at, seg) ∷ later }
    else if length seg == 0
    then record { outcome = err socket_closed; clock = max clock at; left = (at, seg) ∷ later }
    else more
