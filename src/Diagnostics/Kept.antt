-- ===== src/Diagnostics/Kept.antt =====
-- What the cloud keeps of the log entries of collectors.
use hawklive.Prelude.{
  ℕ, suc, ◌+◌, ◌≤◌, Bool, true, false, not, ◌&&◌, ◌||◌, List, [], ◌∷◌, ◌++◌, ◌≡◌, refl, ap, sym,
  ◌∙◌, subst, map, any, filter, count_where, ltb, leb, ◌==◌, if◌then◌else◌, Result, ok, err, arith,
  if-both,
}
use hawklive.Ingest.Tables.{Identity}
use hawklive.Diagnostics.{Entry, Texts}
use hawklive.Diagnostics.Stored.{
  LogRow, LogBatch, kept_per_node, kept_seconds, of_node, log_row, insert_log, insert_logs,
  is_dropped, prune_logs, ingest,
}

-- The rows of other nodes.
abbrev pub elsewhere : {T : Type 0} → Identity → List (LogRow T) → List (LogRow T)
elsewhere id rows = filter (λ x. not (of_node id x)) rows

count-if :
    {A : Type 0} (p : A → Bool) (x : A) (xs : List A) (b : Bool)
    → count_where p (if b then xs else x ∷ xs)
      ≡ (if b then count_where p xs else (if p x then suc (count_where p xs) else count_where p xs))
count-if p x xs true = refl
count-if p x xs false = refl

filter-if :
    {A : Type 0} (p : A → Bool) (x : A) (xs : List A) (b : Bool)
    → (b ≡ true → not (p x) ≡ true)
    → filter p (if b then xs else x ∷ xs) ≡ (if p x then x ∷ filter p xs else filter p xs)
filter-if p x xs false h = refl
filter-if p x xs true h = passed (p x) (h refl)
  where
    passed : (c : Bool) → not c ≡ true → filter p xs ≡ (if c then x ∷ filter p xs else filter p xs)
    passed true k = absurd (ground (arith, k))
    passed false k = refl

-- The step of the induction: a row of the node stays only if fewer than 50000 come after it.
one_more :
    (node old : Bool) (limit left all : ℕ)
    → left ≤ limit
    → left ≤ all
    → ((if node && (old || leb limit all) then left else (if node then suc left else left)) ≤ limit)
      × ((if node && (old || leb limit all) then left else (if node then suc left else left))
          ≤ (if node then suc all else all))
one_more node old limit left all h k = (ground arith, ground arith)

module _ {T : Type 0} (id : Identity) (now : ℕ) where
  count-prune_logs :
      (rows : List (LogRow T))
      → (count_where (of_node id) (prune_logs id now rows) ≤ kept_per_node)
        × (count_where (of_node id) (prune_logs id now rows) ≤ count_where (of_node id) rows)
  unfolding prune_logs
  count-prune_logs [] = (omega arith, omega arith)
  count-prune_logs (x ∷ xs) =
      let rest = count-prune_logs xs in
      subst (λ n. (n ≤ kept_per_node) × (n ≤ count_where (of_node id) (x ∷ xs)))
        (sym (count-if (of_node id) x (prune_logs id now xs) (is_dropped id now x xs)))
        (one_more (of_node id x) (ltb (x.received_at + kept_seconds) now) kept_per_node
          (count_where (of_node id) (prune_logs id now xs)) (count_where (of_node id) xs) rest.0
          rest.1)

  elsewhere-prune_logs :
      (rows : List (LogRow T)) → elsewhere id (prune_logs id now rows) ≡ elsewhere id rows
  unfolding prune_logs
  elsewhere-prune_logs [] = refl
  elsewhere-prune_logs (x ∷ xs) =
      let p : LogRow T → Bool = λ y. not (of_node id y) in
      filter-if p x (prune_logs id now xs) (is_dropped id now x xs) (dropped_here (of_node id x) _)
      ∙ ap (λ l. if p x then x ∷ l else l) (elsewhere-prune_logs xs)
    where
      dropped_here : (a b : Bool) → (a && b) ≡ true → not (not a) ≡ true
      dropped_here a b h = ground arith

filter-append_one :
    {A : Type 0} (p : A → Bool) (x : A) (xs : List A)
    → p x ≡ false
    → filter p (xs ++ (x ∷ [])) ≡ filter p xs
filter-append_one p x [] h = ap (λ b. if b then x ∷ [] else []) h
filter-append_one p x (y ∷ ys) h = ap (λ l. if p y then y ∷ l else l) (filter-append_one p x ys h)

-- A refused batch changes nothing; one that is taken is acknowledged in full, leaves no more rows of
-- the node than the limit, and all rows of the others.
abbrev pub IsLogged :
    {T : Type 0}
    → Identity
    → LogBatch T
    → List (LogRow T)
    → Result ℕ (List ℕ) × List (LogRow T)
    → Type 0
IsLogged id batch before (err e, rows) = rows ≡ before
IsLogged id batch before (ok us, rows) =
    (us ≡ map (λ e. e.record_uuid) batch.logs)
    × (count_where (of_node id) rows ≤ kept_per_node)
    × (elsewhere id rows ≡ elsewhere id before)

module _ {T : Type 0} (texts : Texts T) (id : Identity) (instance_id now : ℕ) where
  elsewhere-insert_log :
      (e : Entry T) (rows : List (LogRow T))
      → elsewhere id (insert_log id (log_row texts id instance_id now e) rows) ≡ elsewhere id rows
  unfolding insert_log
  elsewhere-insert_log e rows =
      let x = log_row texts id instance_id now e in
      if-both (λ l. elsewhere id l ≡ elsewhere id rows)
        (any (λ y. of_node id y && y.record_uuid == x.record_uuid) rows) {a = rows}
        {b = rows ++ (x ∷ [])} refl
        (filter-append_one (λ y. not (of_node id y)) x rows (here id.customer_id id.site_id))
    where
      here : (a b : ℕ) → not ((a == a) && (b == b)) ≡ false
      here a b = ground arith

  elsewhere-insert_logs :
      (es : List (Entry T)) (rows : List (LogRow T))
      → elsewhere id (insert_logs id (map (log_row texts id instance_id now) es) rows)
        ≡ elsewhere id rows
  elsewhere-insert_logs [] rows = refl
  elsewhere-insert_logs (e ∷ es) rows =
      elsewhere-insert_logs es (insert_log id (log_row texts id instance_id now e) rows)
      ∙ elsewhere-insert_log e rows

  -- A batch of log entries is refused and changes nothing, or it is acknowledged in full; then no more
  -- than 50000 rows of the node are left, and the rows of every other node are as they were.
  pub ingest-IsLogged :
      (known : Bool) (batch : LogBatch T) (rows : List (LogRow T))
      → IsLogged id batch rows (ingest texts id instance_id known now batch rows)
  unfolding ingest
  ingest-IsLogged known batch rows =
      let rows' = insert_logs id (map (log_row texts id instance_id now) batch.logs) rows in
      if-both (IsLogged id batch rows) (not (batch.site_id == id.site_id)) refl (
        if-both (IsLogged id batch rows) (not known) refl (
          refl,
          (count-prune_logs id now rows').0,
          elsewhere-prune_logs id now rows' ∙ elsewhere-insert_logs batch.logs rows,
        ))
