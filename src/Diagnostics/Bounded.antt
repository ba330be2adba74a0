-- ===== src/Diagnostics/Bounded.antt =====
-- The queue of log entries stays within its limit, and counts what it drops.
use hawklive.Prelude.{
  ℕ, suc, ◌+◌, ◌-◌, ◌≤◌, Bool, true, false, List, [], ◌∷◌, ◌≡◌, refl, sym, subst, length, filter,
  ltb, if◌then◌else◌, length-drop, length-append, arith,
}
use hawklive.Diagnostics.{
  Entry, Outbox, Scope, Texts, local_log_limit, is_recent, newest, prune_queue, new_entry,
  insert_entry, enqueue,
}

shorter : (b : Bool) (m n : ℕ) → m ≤ n → (if b then suc m else m) ≤ suc n
shorter b m n h = ground arith

length-if :
    {A : Type 0} (b : Bool) (x : A) (xs : List A)
    → length (if b then x ∷ xs else xs) ≡ (if b then suc (length xs) else length xs)
length-if true x xs = refl
length-if false x xs = refl

pub length-filter : {A : Type 0} (p : A → Bool) (xs : List A) → length (filter p xs) ≤ length xs
length-filter p [] = omega arith
length-filter p (x ∷ xs) =
    subst (λ n. n ≤ suc (length xs)) (sym (length-if (p x) x (filter p xs)))
      (shorter (p x) (length (filter p xs)) (length xs) (length-filter p xs))

-- No more rows than the limit are left, and with those counted as discarded they make the total.
abbrev pub IsCounted : {T : Type 0} → ℕ → Outbox T → Type 0
IsCounted total o = (length o.rows ≤ local_log_limit) × (length o.rows + o.discarded ≡ total)

counted :
    (rows recent kept discarded limit : ℕ)
    → recent ≤ rows
    → kept ≡ recent - (recent - limit)
    → (b : Bool) → b ≡ ltb 0 ((rows - recent) + (recent - kept))
    → kept + (if b then discarded + ((rows - recent) + (recent - kept)) else discarded)
      ≡ rows + discarded
counted rows recent kept discarded limit below cut b h = ground arith

pruned-IsCounted :
    {T : Type 0} (total n : ℕ) (o : Outbox T) (kept : List (Entry T)) (b : Bool)
    → length kept ≤ local_log_limit
    → length kept + (if b then o.discarded + n else o.discarded) ≡ total
    → IsCounted total (
        if b
        then record o { rows = kept; discarded = o.discarded + n }
        else record o { rows = kept })
pruned-IsCounted total n o kept true short h = (short, h)
pruned-IsCounted total n o kept false short h = (short, h)

length-newest :
    {T : Type 0} (rows : List (Entry T))
    → length (newest rows) ≡ length rows - (length rows - local_log_limit)
length-newest rows = length-drop (length rows - local_log_limit) rows

pub prune_queue-IsCounted :
    {T : Type 0} (now : ℕ) (o : Outbox T)
    → IsCounted (length o.rows + o.discarded) (prune_queue now o)
unfolding prune_queue
prune_queue-IsCounted now o =
    let recent = filter (is_recent now) o.rows in
    let kept = newest recent in
    let n = (length o.rows - length recent) + (length recent - length kept) in
    pruned-IsCounted (length o.rows + o.discarded) n o kept (ltb 0 n)
      (omega (arith, length-newest recent))
      (counted (length o.rows) (length recent) (length kept) o.discarded local_log_limit
        (length-filter (is_recent now) o.rows) (length-newest recent) (ltb 0 n) refl)

-- After an entry is put on the queue no more than 20000 rows are on it; the rows and those counted as
-- discarded add up to one more than before.
pub enqueue-IsCounted :
    {T : Type 0} (texts : Texts T) (uuid : ℕ) (scope : Scope) (now later : ℕ)
    (level event message : T) (o : Outbox T)
    → IsCounted
        (suc (length o.rows + o.discarded))
        (enqueue texts uuid scope now later level event message o)
unfolding enqueue
enqueue-IsCounted texts uuid scope now later level event message o =
    let entry = new_entry texts uuid scope now level event message in
    subst (λ n. IsCounted n (prune_queue later (insert_entry entry o)))
      (omega (arith, length-append o.rows (entry (suc o.sequence) ∷ [])))
      (prune_queue-IsCounted later (insert_entry entry o))
