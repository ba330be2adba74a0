-- ===== src/Alarm/Tables/Laws.antt =====
-- What the statements on the tables do to the row of a key and to the number of open events of a
-- device, a metric and a source.
use hawklive.Prelude.{
  ℕ, ◌+◌, Bool, ◌&&◌, ◌≡◌, refl, none, some, List, [], ◌∷◌, ◌++◌, arith, count_where, ◌==◌,
  if◌then◌else◌,
}
use hawklive.Alarm.Tables.{
  StateRow, EventRow, open_of, open_from, find_row, upsert, delete_row, update_where, ended,
  ended_quietly,
}

module _ {V : Type 0} where
  abbrev pub row_key : ℕ → ℕ → StateRow V → Bool
  row_key d m row = row.device == d && row.metric == m

  pub find_row-upsert :
      (d m : ℕ) (row : StateRow V) (rs : List (StateRow V))
      → find_row d m (upsert row rs) ≡ (if row_key d m row then some row else find_row d m rs)
  unfolding find_row upsert
  find_row-upsert d m row [] = refl
  find_row-upsert d m row (r ∷ rs) = ground (arith, find_row-upsert d m row rs)

  pub find_row-delete_row :
      (d m d' m' : ℕ) (rs : List (StateRow V))
      → find_row d m (delete_row d' m' rs) ≡ (if d' == d && m' == m then none else find_row d m rs)
  unfolding find_row delete_row
  find_row-delete_row d m d' m' [] = ground arith
  find_row-delete_row d m d' m' (r ∷ rs) = ground (arith, find_row-delete_row d m d' m' rs)

  -- How many events of this device, metric and source are open.
  abbrev pub opens : ℕ → ℕ → ℕ → List (EventRow V) → ℕ
  opens d m s = count_where (open_from d m s)

  pub opens-ended :
      (d m s d' m' s' now : ℕ) (es : List (EventRow V))
      → opens d m s (update_where (open_from d' m' s') (ended now) es)
        ≡ (if d' == d && m' == m && s' == s then 0 else opens d m s es)
  opens-ended d m s d' m' s' now [] = ground arith
  opens-ended d m s d' m' s' now (e ∷ es) = ground (arith, opens-ended d m s d' m' s' now es)

  pub opens-ended_quietly :
      (d m s d' m' s' now : ℕ) (es : List (EventRow V))
      → opens d m s (update_where (open_from d' m' s') (ended_quietly now) es)
        ≡ (if d' == d && m' == m && s' == s then 0 else opens d m s es)
  opens-ended_quietly d m s d' m' s' now [] = ground arith
  opens-ended_quietly d m s d' m' s' now (e ∷ es) =
      ground (arith, opens-ended_quietly d m s d' m' s' now es)

  pub opens-ended_all :
      (d m s d' m' now : ℕ) (es : List (EventRow V))
      → opens d m s (update_where (open_of d' m') (ended now) es)
        ≡ (if d' == d && m' == m then 0 else opens d m s es)
  opens-ended_all d m s d' m' now [] = ground arith
  opens-ended_all d m s d' m' now (e ∷ es) = ground (arith, opens-ended_all d m s d' m' now es)

  -- An update that leaves an event's device, metric, source and end alone.
  pub opens-update :
      (p : EventRow V → Bool) (f : EventRow V → EventRow V) (d m s : ℕ) (es : List (EventRow V))
      → ((e : EventRow V) → open_from d m s (f e) ≡ open_from d m s e)
      → opens d m s (update_where p f es) ≡ opens d m s es
  opens-update p f d m s [] h = refl
  opens-update p f d m s (e ∷ es) h = ground (arith, h e, opens-update p f d m s es h)

  pub opens-append :
      (d m s : ℕ) (es : List (EventRow V)) (e : EventRow V)
      → opens d m s (es ++ e ∷ []) ≡ opens d m s es + (if open_from d m s e then 1 else 0)
  opens-append d m s [] e = ground arith
  opens-append d m s (x ∷ es) e = ground (arith, opens-append d m s es e)
