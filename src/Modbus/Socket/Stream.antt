-- ===== src/Modbus/Socket/Stream.antt =====
-- A socket is a stream of bytes: what `recv_exact` returns depends on the bytes alone, not on how
-- they are cut into segments, and it never waits past its deadline.
use hawklive.Prelude.{
  ℕ, zero, suc, ◌+◌, ◌-◌, ◌≤◌, ◌<◌, max, ◌≡◌, refl, ap, sym, ◌∙◌, ◌⊎◌, inl, inr, Bool-cases, List,
  [], ◌∷◌, ◌++◌, length, take, drop, length-append, length-drop, All, arith, ◌==◌, ok,
}
use native.Mathlib.Nat.{sub-zero, suc-sub-suc}
use hawklive.Modbus.Socket.{Segment, Incoming, Received, rest_of, recv_exact, prepend}

-- The bytes that will arrive.
unfoldable pub stream : Incoming → List ℕ
stream [] = []
stream ((at, seg) ∷ later) = seg ++ stream later

-- Every segment arrives before the deadline, and none is a shutdown.
abbrev pub InTime : ℕ → Incoming → Type 0
InTime deadline = All (λ (s : Segment). (s.0 < deadline) × (1 ≤ length s.1))

-- The outcome of a read of `n` bytes from a stream that holds them.
pub record ReadsOf (deadline n : ℕ) (inc : Incoming) (r : Received (List ℕ)) : Type 0 where
  pub outcome : r.outcome ≡ ok (take n (stream inc))
  pub left : stream r.left ≡ drop n (stream inc)
  pub in_time : InTime deadline r.left
  pub clock : r.clock < deadline

take-short : (n : ℕ) (xs ys : List ℕ) → n ≤ length xs → take n (xs ++ ys) ≡ take n xs
take-short zero xs ys h = refl
take-short (suc n) [] ys h = absurd (omega arith)
take-short (suc n) (x ∷ xs) ys h = ap (λ l. x ∷ l) (take-short n xs ys (omega arith))

drop-short : (n : ℕ) (xs ys : List ℕ) → n ≤ length xs → drop n (xs ++ ys) ≡ drop n xs ++ ys
drop-short zero xs ys h = refl
drop-short (suc n) [] ys h = absurd (omega arith)
drop-short (suc n) (x ∷ xs) ys h = drop-short n xs ys (omega arith)

le_or_lt : (a b : ℕ) → (a ≤ b) ⊎ (b < a)
le_or_lt a b = omega arith

stream-length :
    (at : ℕ) (seg : List ℕ) (later : Incoming)
    → length (stream ((at, seg) ∷ later)) ≡ length seg + length (stream later)
unfolding stream
stream-length at seg later = length-append seg (stream later)

drop-all : (n : ℕ) (xs : List ℕ) → length xs ≡ n → drop n xs ≡ []
drop-all zero [] h = refl
drop-all zero (x ∷ xs) h = absurd (omega arith)
drop-all (suc n) [] h = refl
drop-all (suc n) (x ∷ xs) h = drop-all n xs (omega arith)

take-long :
    (n : ℕ) (xs ys : List ℕ) → length xs ≤ n → take n (xs ++ ys) ≡ xs ++ take (n - length xs) ys
take-long n [] ys h = rw sub-zero
take-long zero (x ∷ xs) ys h = absurd (omega arith)
take-long (suc n) (x ∷ xs) ys h = rw suc-sub-suc (ap (λ l. x ∷ l) (take-long n xs ys (omega arith)))

drop-long : (n : ℕ) (xs ys : List ℕ) → length xs ≤ n → drop n (xs ++ ys) ≡ drop (n - length xs) ys
drop-long n [] ys h = rw sub-zero
drop-long zero (x ∷ xs) ys h = absurd (omega arith)
drop-long (suc n) (x ∷ xs) ys h = rw suc-sub-suc (drop-long n xs ys (omega arith))

-- One round that gets all the missing bytes.
recv_exact-enough :
    (deadline n clock at : ℕ) (seg : List ℕ) (later : Incoming)
    → clock < deadline
    → at < deadline
    → suc n ≤ length seg
    → recv_exact deadline (suc n) clock ((at, seg) ∷ later) ≡ record {
      outcome = ok (take (suc n) seg);
      clock = max clock at;
      left = rest_of (suc n) at seg later;
    }
unfolding recv_exact
recv_exact-enough deadline n clock at seg later h k fits = ground arith

-- One round that gets some of them.
recv_exact-more :
    (deadline n clock at : ℕ) (seg : List ℕ) (later : Incoming)
    → clock < deadline
    → at < deadline
    → 1 ≤ length seg
    → length seg ≤ n
    → recv_exact deadline (suc n) clock ((at, seg) ∷ later)
      ≡ prepend seg (recv_exact deadline (suc n - length seg) (max clock at) later)
unfolding recv_exact
recv_exact-more deadline n clock at seg later h k some fits = ground arith

rest_of-stream :
    (n at : ℕ) (seg : List ℕ) (later : Incoming)
    → n ≤ length seg
    → stream (rest_of n at seg later) ≡ drop n seg ++ stream later
unfolding stream
rest_of-stream n at seg later h = elim (Bool-cases (length seg == n)) [
  | inl e ↦ rw e (rw (drop-all n seg (ground arith)) refl)
  | inr e ↦ rw e
]

rest_of-InTime :
    (deadline n at : ℕ) (seg : List ℕ) (later : Incoming)
    → at < deadline
    → n ≤ length seg
    → InTime deadline later
    → InTime deadline (rest_of n at seg later)
rest_of-InTime deadline n at seg later h k ready = elim (Bool-cases (length seg == n)) [
  | inl e ↦ rw e ready
  | inr e ↦ rw e ((h, ground (arith, length-drop n seg)), ready)
]

prepend-ReadsOf :
    (deadline n at : ℕ) (seg : List ℕ) (later : Incoming) (r : Received (List ℕ))
    → length seg ≤ n
    → ReadsOf deadline (n - length seg) later r
    → ReadsOf deadline n ((at, seg) ∷ later) (prepend seg r)
unfolding prepend stream
prepend-ReadsOf deadline n at seg later r fits reads = rw reads.outcome (record {
  outcome = ap ok (sym (take-long n seg (stream later) fits));
  left = reads.left ∙ sym (drop-long n seg (stream later) fits);
  in_time = reads.in_time;
  clock = reads.clock;
})

-- A read of bytes that all arrive in time returns the first of them, however they were cut.
pub recv_exact-ReadsOf :
    (deadline need clock : ℕ) (inc : Incoming)
    → clock < deadline
    → InTime deadline inc
    → need ≤ length (stream inc)
    → ReadsOf deadline need inc (recv_exact deadline need clock inc)
unfolding stream
recv_exact-ReadsOf deadline zero clock inc h ready fits =
    unfold recv_exact in record { outcome = refl; left = refl; in_time = ready; clock = h }
recv_exact-ReadsOf deadline (suc n) clock [] h ready fits = absurd (omega arith)
recv_exact-ReadsOf deadline (suc n) clock ((at, seg) ∷ later) h ready fits =
    let ((early, some), ready') = ready in
    elim (le_or_lt (suc n) (length seg)) [
      | inl le ↦ rw (recv_exact-enough deadline n clock at seg later h early le) (record {
        outcome = ap ok (sym (take-short (suc n) seg (stream later) le));
        left =
            rest_of-stream (suc n) at seg later le ∙ sym (drop-short (suc n) seg (stream later) le);
        in_time = rest_of-InTime deadline (suc n) at seg later early le ready';
        clock = omega arith;
      })
      | inr lt ↦ rw (recv_exact-more deadline n clock at seg later h early some (omega arith)) (
          prepend-ReadsOf deadline (suc n) at seg later _ (omega arith) (
            recv_exact-ReadsOf deadline (suc n - length seg) (max clock at) later (omega arith)
              ready' (omega (arith, stream-length at seg later))))
    ]

prepend-clock : (chunk : List ℕ) (r : Received (List ℕ)) → (prepend chunk r).clock ≡ r.clock
unfolding prepend
prepend-clock chunk r = ground arith

-- No read ends later than its deadline, unless it began later.
pub recv_exact-clock :
    (deadline need clock : ℕ) (inc : Incoming)
    → (recv_exact deadline need clock inc).clock ≤ max clock deadline
unfolding recv_exact
recv_exact-clock deadline zero clock inc = omega arith
recv_exact-clock deadline (suc n) clock [] = omega arith
recv_exact-clock deadline (suc n) clock ((at, seg) ∷ later) = ground (
  arith,
  prepend-clock seg (recv_exact deadline (suc n - length seg) (max clock at) later),
  recv_exact-clock deadline (suc n - length seg) (max clock at) later,
)
