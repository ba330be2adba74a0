-- ===== src/Sync/Drain.antt =====
-- A queue empties where the cloud decides every request.
use hawklive.Prelude.{
  ℕ, zero, suc, ◌+◌, ◌≤◌, ◌<◌, Bool, true, false, none, some, List, [], ◌∷◌, ◌≡◌, refl, subst, sym,
  ap, ◌⊎◌, inl, inr, All, Result, ok, err, if◌then◌else◌, length, arith,
}
use hawklive.Sync.Status.{Error}
use hawklive.Sync.Queue.{
  Item, Options, Table, reading_table, judge, permanent_item_error, is_http, pending_rows,
  pending_count, record_queue_failure, mark_synced, uuids,
}
use hawklive.Sync.Upload.{
  Remote, State, note_failure, acknowledge, conclude, upload_rows, settle_item, sync_item,
  sync_items, settle_batch, sync_batch, sync_table, sync_once,
}
use hawklive.Sync.Passes.{requested, after-keeps, sync_items-keeps, sync_table-keeps}
use hawklive.Sync.Pending.{
  length-pending_rows, waits, pending_rows-waits, load, count-load, load-none, load-update,
  load-update_less, weight-mark_row, weight-fail_row, weight-fail_row_less,
}

module _ {P C : Type 0} where
  -- Every request is acknowledged in full or refused for its content.
  abbrev pub IsDecisive : Remote P C → Type 0
  IsDecisive remote =
      (batch : List (Item P)) (c : C)
      → (judge (uuids batch) (remote.post batch c).0 ≡ none)
        ⊎ ((e : Error) × (judge (uuids batch) (remote.post batch c).0 ≡ some e)
            × (permanent_item_error e ≡ true))

  -- The state after a number of passes over the queue of readings.
  unfoldable pub passes : Remote P C → Options → ℕ → State P C → State P C
  passes remote o zero s = s
  passes remote o (suc n) s = passes remote o n (sync_once remote o s).1

module _ {P C : Type 0} (remote : Remote P C) (q : Table) (o : Options) where
  abbrev left : State P C → ℕ
  left s = load q o s.world.rows

  mark-left :
      (batch : List (Item P)) (s : State P C)
      → left (acknowledge remote q batch (requested remote batch s)) ≤ left s
  unfolding mark_synced
  mark-left batch s =
      load-update q o (uuids batch) _ s.world.rows (λ r. omega (arith, weight-mark_row q o _ r))

  fail-left :
      (batch : List (Item P)) (e : Error) (permanent : Bool) (s : State P C)
      → left (note_failure remote o batch e permanent s) ≤ left s
  unfolding record_queue_failure
  fail-left batch e permanent s =
      load-update q o (uuids batch) _ s.world.rows (λ r. weight-fail_row q o _ e permanent r)

  mark-left_less :
      (r : Item P) (rs : List (Item P)) (s : State P C)
      → waits q o r.uuid s.world.rows ≡ true
      → left (acknowledge remote q (r ∷ rs) (requested remote (r ∷ rs) s)) < left s
  unfolding mark_synced
  mark-left_less r rs s w =
      load-update_less q o r.uuid (uuids (r ∷ rs)) _ s.world.rows
        (λ x. omega (arith, weight-mark_row q o _ x))
        (λ x d.
          ground
            (arith, d, weight-mark_row q o (remote.clock (remote.post (r ∷ rs) s.world.cloud).1) x))
        (ground arith) w

  fail-left_less :
      (r : Item P) (e : Error) (s : State P C)
      → waits q o r.uuid s.world.rows ≡ true
      → left (note_failure remote o (r ∷ []) e true s) < left s
  unfolding record_queue_failure
  fail-left_less r e s w =
      load-update_less q o r.uuid (uuids (r ∷ [])) _ s.world.rows
        (λ x. weight-fail_row q o _ e true x) (λ x d. weight-fail_row_less q o _ e x d)
        (ground arith) w

  sync_items-left :
      (k : ℕ) (rs : List (Item P)) (n : ℕ) (s : State P C)
      → left s < k
      → left (sync_items remote q o rs n s).1 < k
  sync_items-left k =
      sync_items-keeps remote q o (λ s. left s < k) (λ batch s i. i)
        (λ batch s i h. omega (arith, i, mark-left batch s))
        (λ batch e p s i. omega (arith, i, fail-left batch e p s))

  pub sync_table-left : (s : State P C) → left (sync_table remote q o s).1 ≤ left s
  sync_table-left s =
      sync_table-keeps remote q o (λ t. left t ≤ left s) (λ batch t i. i)
        (λ batch t i h. omega (arith, i, mark-left batch t))
        (λ batch e p t i. omega (arith, i, fail-left batch e p t)) s (omega arith)

  settle_item-refused :
      (r : Item P) (e : Error) (s : State P C)
      → permanent_item_error e ≡ true
      → settle_item remote o r (err e, s) ≡ (ok 0, note_failure remote o (r ∷ []) e true s)
  settle_item-refused r e s h =
      ap
        (λ b.
          if b
          then (ok 0, note_failure remote o (r ∷ []) e true s)
          else if is_http e
          then (err e, note_failure remote o (r ∷ []) e false s)
          else (err e, s))
        h

  sync_item-left :
      IsDecisive remote
      → (r : Item P) (s : State P C) → waits q o r.uuid s.world.rows ≡ true
      → left (sync_item remote q o r s).1 < left s
  unfolding sync_item upload_rows
  sync_item-left decisive r s w =
      let Less : Result Error ℕ × State P C → Type 0 = λ p. left p.1 < left s in
      let t = requested remote (r ∷ []) s in
      elim (decisive (r ∷ []) s.world.cloud) [
        | inl h ↦
            subst (λ j. Less (settle_item remote o r (conclude remote q (r ∷ []) j t))) (sym h)
              (mark-left_less r [] s w)
        | inr (e, h, permanent) ↦
            subst (λ j. Less (settle_item remote o r (conclude remote q (r ∷ []) j t))) (sym h)
              (subst Less (sym (settle_item-refused r e t permanent)) (fail-left_less r e t w))
      ]

  sync_items-left_less :
      IsDecisive remote
      → (r : Item P) (rs : List (Item P)) (n : ℕ) (s : State P C)
      → waits q o r.uuid s.world.rows ≡ true
      → left (sync_items remote q o (r ∷ rs) n s).1 < left s
  unfolding sync_items
  sync_items-left_less decisive r rs n s w =
      after-keeps remote q o (λ t. left t < left s) (λ batch t i. i)
        (λ batch t i h. omega (arith, i, mark-left batch t))
        (λ batch e p t i. omega (arith, i, fail-left batch e p t))
        (λ m. sync_items remote q o rs (n + m)) _ (λ m. sync_items-left (left s) rs (n + m))
        (sync_item-left decisive r s w)

  settle_batch-left :
      IsDecisive remote
      → (r : Item P) (rs : List (Item P)) (e : Error) (s t : State P C)
      → permanent_item_error e ≡ true
      → waits q o r.uuid t.world.rows ≡ true
      → left t ≡ left s
      → left (settle_batch remote q o (r ∷ rs) (err e, t)).1 < left s
  settle_batch-left decisive r [] e s t h w same =
      let Less : Result Error ℕ × State P C → Type 0 = λ p. left p.1 < left s in
      subst
        (λ b. Less (
          if b
          then (ok 0, note_failure remote o (r ∷ []) e true t)
          else (err e, note_failure remote o (r ∷ []) e false t)))
        (sym h) (omega (arith, fail-left_less r e t w, same))
  settle_batch-left decisive r (r' ∷ rs) e s t h w same =
      let Less : Result Error ℕ × State P C → Type 0 = λ p. left p.1 < left s in
      subst
        (λ b. Less (
          if b
          then sync_items remote q o (r ∷ r' ∷ rs) 0 t
          else (err e, note_failure remote o (r ∷ r' ∷ rs) e false t)))
        (sym h) (omega (arith, sync_items-left_less decisive r (r' ∷ rs) 0 t w, same))

  sync_batch-left :
      IsDecisive remote
      → (r : Item P) (rs : List (Item P)) (s : State P C) → waits q o r.uuid s.world.rows ≡ true
      → left (sync_batch remote q o (r ∷ rs) s).1 < left s
  unfolding sync_batch upload_rows
  sync_batch-left decisive r rs s w =
      let Less : Result Error ℕ × State P C → Type 0 = λ p. left p.1 < left s in
      let t = requested remote (r ∷ rs) s in
      elim (decisive (r ∷ rs) s.world.cloud) [
        | inl h ↦
            subst (λ j. Less (settle_batch remote q o (r ∷ rs) (conclude remote q (r ∷ rs) j t)))
              (sym h) (mark-left_less r rs s w)
        | inr (e, h, permanent) ↦
            subst (λ j. Less (settle_batch remote q o (r ∷ rs) (conclude remote q (r ∷ rs) j t)))
              (sym h) (settle_batch-left decisive r rs e s t permanent w refl)
      ]

  -- A pass that finds a row makes the work less.
  batch-left :
      IsDecisive remote
      → (s : State P C) (batch : List (Item P))
      → All (λ r. waits q o r.uuid s.world.rows ≡ true) batch
      → (batch ≡ []) ⊎ (left (sync_batch remote q o batch s).1 < left s)
  batch-left decisive s [] all = inl refl
  batch-left decisive s (r ∷ rs) all = inr (sync_batch-left decisive r rs s all.0)

  pub sync_table-left_less :
      IsDecisive remote
      → (s : State P C) → 1 ≤ o.batch_size
      → (left s ≡ 0) ⊎ (left (sync_table remote q o s).1 < left s)
  sync_table-left_less decisive s size =
      elim (batch-left decisive s (pending_rows q o s.world.rows)
        (pending_rows-waits q o s.world.rows)) [
          | inl e ↦
              let n : length (pending_rows q o s.world.rows) ≡ 0 = ap length e in
              inl (
                load-none q o s.world.rows
                  (omega (arith, n, size, length-pending_rows q o s.world.rows)))
          | inr less ↦ inr less
        ]

-- Where the cloud decides every request, by an acknowledgement or by a permanent refusal, no reading
-- waits any more after as many passes as the rows can still be sent: `load` adds, for every waiting
-- row, the refusals that it has left and one. No refused row stops the others for good.
pub passes-drain :
    {P C : Type 0} (remote : Remote P C) (o : Options) (n : ℕ) (s : State P C)
    → IsDecisive remote
    → 1 ≤ o.batch_size
    → load reading_table o s.world.rows ≤ n
    → pending_count o (passes remote o n s).world.rows ≡ 0
unfolding passes sync_once pending_count
passes-drain remote o zero s decisive size h =
    omega (arith, count-load reading_table o s.world.rows, h)
passes-drain remote o (suc n) s decisive size h =
    passes-drain remote o n (sync_once remote o s).1 decisive size
      (elim (sync_table-left_less remote reading_table o decisive s size) [
        | inl e ↦ omega (arith, e, sync_table-left remote reading_table o s)
        | inr less ↦ omega (arith, less, h)
      ])
