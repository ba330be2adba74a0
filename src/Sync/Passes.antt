-- ===== src/Sync/Passes.antt =====
-- Induction over a pass of a queue: what each request, each acknowledgement and each noted failure
-- keeps, a pass of `sync_once` or `sync_alarms_once` keeps.
use hawklive.Prelude.{
  ℕ, ◌+◌, Bool, true, false, Option, none, some, List, [], ◌∷◌, ◌≡◌, refl, Result, ok, err, if-both,
}
use hawklive.Prelude.Effects.{Effect, after}
use hawklive.Sync.Status.{Error}
use hawklive.Sync.Queue.{
  Item, Options, Table, judge, permanent_item_error, is_http, pending_rows, uuids,
}
use hawklive.Sync.Upload.{
  Remote, State, note_failure, acknowledge, conclude, upload_rows, settle_item, sync_item,
  sync_items, refuse, settle_batch, sync_batch, sync_table,
}

module _ {P C : Type 0} where
  -- The state after a request, its answer not yet looked at.
  abbrev pub requested : Remote P C → List (Item P) → State P C → State P C
  requested remote batch s = record s {
    world = record s.world { cloud = (remote.post batch s.world.cloud).1 };
  }

module _ {P C : Type 0} (remote : Remote P C) (q : Table) (o : Options) (I : State P C → Type 0)
    (request : (batch : List (Item P)) (s : State P C) → I s → I (requested remote batch s))
    (mark : (batch : List (Item P)) (s : State P C)
      → I s
      → judge (uuids batch) (remote.post batch s.world.cloud).0 ≡ none
      → I (acknowledge remote q batch (requested remote batch s)))
    (fail : (batch : List (Item P)) (e : Error) (permanent : Bool) (s : State P C)
      → I s
      → I (note_failure remote o batch e permanent s)) where
  conclude-keeps :
      (batch : List (Item P)) (s : State P C) (j : Option Error)
      → I s
      → judge (uuids batch) (remote.post batch s.world.cloud).0 ≡ j
      → I (conclude remote q batch j (requested remote batch s)).1
  conclude-keeps batch s none i h = mark batch s i h
  conclude-keeps batch s (some e) i h = request batch s i

  pub upload_rows-keeps :
      (batch : List (Item P)) (s : State P C) → I s → I (upload_rows remote q batch s).1
  unfolding upload_rows
  upload_rows-keeps batch s i = conclude-keeps batch s _ i refl

  settle_item-keeps :
      (r : Item P) (p : Result Error ℕ × State P C) → I p.1 → I (settle_item remote o r p).1
  settle_item-keeps r (ok n, s) i = i
  settle_item-keeps r (err e, s) i =
      if-both {A = Result Error ℕ × State P C} (λ p. I p.1) (permanent_item_error e)
        (fail (r ∷ []) e true s i)
        (if-both {A = Result Error ℕ × State P C} (λ p. I p.1) (is_http e)
          (fail (r ∷ []) e false s i) i)

  pub sync_item-keeps : (r : Item P) (s : State P C) → I s → I (sync_item remote q o r s).1
  unfolding sync_item
  sync_item-keeps r s i = settle_item-keeps r _ (upload_rows-keeps (r ∷ []) s i)

  pub after-keeps :
      (k : ℕ → Effect (State P C) Error ℕ) (p : Result Error ℕ × State P C)
      → ((m : ℕ) (s : State P C) → I s → I (k m s).1)
      → I p.1
      → I (after p.0 k p.1).1
  after-keeps k (ok m, s) h i = h m s i
  after-keeps k (err e, s) h i = i

  pub sync_items-keeps :
      (rs : List (Item P)) (n : ℕ) (s : State P C) → I s → I (sync_items remote q o rs n s).1
  unfolding sync_items
  sync_items-keeps [] n s i = i
  sync_items-keeps (r ∷ rs) n s i =
      after-keeps (λ m. sync_items remote q o rs (n + m)) _
        (λ m t j. sync_items-keeps rs (n + m) t j) (sync_item-keeps r s i)

  refuse-keeps :
      (batch : List (Item P)) (e : Error) (s : State P C) → I s → I (refuse remote q o batch e s).1
  refuse-keeps [] e s i = i
  refuse-keeps (r ∷ []) e s i = fail (r ∷ []) e true s i
  refuse-keeps (r ∷ r' ∷ rs) e s i = sync_items-keeps (r ∷ r' ∷ rs) 0 s i

  settle_batch-keeps :
      (batch : List (Item P)) (p : Result Error ℕ × State P C)
      → I p.1
      → I (settle_batch remote q o batch p).1
  settle_batch-keeps batch (ok n, s) i = i
  settle_batch-keeps batch (err e, s) i =
      if-both {A = Result Error ℕ × State P C} (λ p. I p.1) (permanent_item_error e)
        (refuse-keeps batch e s i) (fail batch e false s i)

  sync_batch-keeps :
      (batch : List (Item P)) (s : State P C) → I s → I (sync_batch remote q o batch s).1
  unfolding sync_batch
  sync_batch-keeps [] s i = i
  sync_batch-keeps (r ∷ rs) s i = settle_batch-keeps (r ∷ rs) _ (upload_rows-keeps (r ∷ rs) s i)

  pub sync_table-keeps : (s : State P C) → I s → I (sync_table remote q o s).1
  sync_table-keeps s i = sync_batch-keeps (pending_rows q o s.world.rows) s i
