-- ===== src/Link/Stored.antt =====
-- What the cloud has of the readings that a collector counts as uploaded.
use hawklive.Prelude.{
  ℕ, Bool, true, false, not, Option, none, some, List, [], ◌∷◌, map, ◌≡◌, refl, subst, sym, ap, ◌∙◌,
  Result, ok, err, ◌>>=◌, traverse, if◌then◌else◌, if-both, All, All-imply, ◌==◌, arith, eq→==,
}
use hawklive.Email.Tables.{is_some}
use hawklive.Sync.Queue.{Item, Options, Reply, judge, uuids}
use hawklive.Sync.Upload.{State, sync_once}
use hawklive.Sync.Delivery.{IsStoring, IsDelivered, sync_once-IsDelivered}
use hawklive.Ingest.Tables.{
  Identity, Assignment, ReadingIn, Reading, Database, Names, authorize_past,
}
use hawklive.Ingest.Upload.{Batch, target, of_tenant, row, has}
use hawklive.Ingest.Once.{
  or_else, lookup, admit, insert_all, record_uuids, has-lookup, lookup-insert_all,
}
use hawklive.Ingest.Again.{body, site_checked, ingest_batch-body, some-or_else, if-some}
use hawklive.Link.{Measured, payload_item, payload, is_valid_batch, respond, post_readings, cloud}

some_or_else : {A : Type 0} (o t : Option A) → is_some o ≡ true → is_some (or_else o t) ≡ true
some_or_else none t h = absurd (ground (arith, h))
some_or_else (some a) t h = refl

module _ {V : Type 0} where
  -- What is said of the rows of a batch, if it is not refused.
  abbrev IfOk : (List (Reading V) → Type 0) → Result ℕ (List (Reading V)) → Type 0
  IfOk Q (ok new) = Q new
  IfOk Q (err e) = Unit

  abbrev IfAdmitted : ReadingIn V → Result ℕ (Reading V) → Type 0
  IfAdmitted item (ok r) = r.record_uuid ≡ item.record_uuid
  IfAdmitted item (err e) = Unit

  bound-uuid :
      (id : Identity) (item : ReadingIn V) (m : Result ℕ Names)
      → IfAdmitted item (m >>= λ names. ok (row id names item))
  bound-uuid id item (err e) = tt
  bound-uuid id item (ok names) = refl

  admit-uuid :
      (id : Identity) (ps : List Assignment) (item : ReadingIn V)
      → IfAdmitted item (admit id ps item)
  admit-uuid id ps item =
      if-both (IfAdmitted item) (not (of_tenant id item)) tt
        (bound-uuid id item (authorize_past id (target item) item.measured_at ps))

  abbrev AllIn : List ℕ → List (Reading V) → Type 0
  AllIn us new = All (λ u. is_some (lookup u new) ≡ true) us

  AllIn-cons :
      (item : ReadingIn V) (us : List ℕ) (a : Result ℕ (Reading V))
      (t : Result ℕ (List (Reading V)))
      → IfAdmitted item a
      → IfOk (AllIn us) t
      → IfOk (AllIn (item.record_uuid ∷ us)) (a >>= λ y. t >>= λ ys. ok (y ∷ ys))
  AllIn-cons item us (err e) t h all = tt
  AllIn-cons item us (ok r) (err e) h all = tt
  AllIn-cons item us (ok r) (ok new) h all = (
    subst (λ b. is_some (if b then some r else lookup item.record_uuid new) ≡ true)
        (sym (eq→== r.record_uuid item.record_uuid h)) refl,
    All-imply (λ u. is_some (lookup u new) ≡ true) (λ u. is_some (lookup u (r ∷ new)) ≡ true) us
        (λ u h. if-some (r.record_uuid == u) r (lookup u new) h) all,
  )

  admitted-AllIn :
      (id : Identity) (ps : List Assignment) (items : List (ReadingIn V))
      → IfOk (AllIn (record_uuids items)) (traverse (admit id ps) items)
  unfolding traverse
  admitted-AllIn id ps [] = tt
  admitted-AllIn id ps (item ∷ items) =
      AllIn-cons item (record_uuids items) (admit id ps item) (traverse (admit id ps) items)
        (admit-uuid id ps item) (admitted-AllIn id ps items)

  -- What an answer of ingest_batch says of the database that it leaves.
  abbrev Kept : Database V → Database V → Type 0
  Kept db db' = (u : ℕ) → has u db.readings ≡ true → has u db'.readings ≡ true

  abbrev Answered : List ℕ → Result ℕ (List ℕ) × Database V → Type 0
  Answered us (err e, db') = Unit
  Answered us (ok accepted, db') = All (λ u. has u db'.readings ≡ true) us

  body-Kept :
      (us : List ℕ) (t : Result ℕ (List (Reading V))) (db : Database V) → Kept db (body us t db).1
  body-Kept us (err e) db u h = h
  body-Kept us (ok new) db u h =
      has-lookup u (insert_all new db.readings)
      ∙ ap is_some (lookup-insert_all u new db.readings)
      ∙ some_or_else (lookup u db.readings) (lookup u new) (sym (has-lookup u db.readings) ∙ h)

  body-Answered :
      (us : List ℕ) (t : Result ℕ (List (Reading V))) (db : Database V)
      → IfOk (AllIn us) t
      → Answered us (body us t db)
  body-Answered us (err e) db all = tt
  body-Answered us (ok new) db all =
      All-imply (λ u. is_some (lookup u new) ≡ true)
        (λ u. has u (insert_all new db.readings) ≡ true) us
        (λ u h.
          has-lookup u (insert_all new db.readings)
          ∙ ap is_some (lookup-insert_all u new db.readings)
          ∙ some-or_else (lookup u db.readings) (lookup u new) h)
        all

  checked-Kept :
      (id : Identity) (batch : Batch V) (db : Database V) (b : Bool)
      → Kept db (site_checked id batch db b).1
  checked-Kept id batch db true =
      body-Kept (record_uuids batch.readings) (traverse (admit id db.assignments) batch.readings) db
  checked-Kept id batch db false = λ u h. h

  checked-Answered :
      (id : Identity) (batch : Batch V) (db : Database V) (b : Bool)
      → Answered (record_uuids batch.readings) (site_checked id batch db b)
  checked-Answered id batch db true =
      body-Answered (record_uuids batch.readings)
        (traverse (admit id db.assignments) batch.readings) db
        (admitted-AllIn id db.assignments batch.readings)
  checked-Answered id batch db false = tt

  uuids-payload :
      (rows : List (Item (Measured V))) → record_uuids (map payload_item rows) ≡ uuids rows
  uuids-payload [] = refl
  uuids-payload (r ∷ rows) = ap (λ l. r.uuid ∷ l) (uuids-payload rows)

  -- The same of a request: where the collector sees no error, the cloud has the rows.
  abbrev Posted : List ℕ → Database V → Reply × Database V → Type 0
  Posted us db (reply, db') =
      Kept db db' × (judge us reply ≡ none → All (λ u. has u db'.readings ≡ true) us)

  respond-Posted :
      (us : List ℕ) (db : Database V) (p : Result ℕ (List ℕ) × Database V)
      → Kept db p.1
      → Answered us p
      → Posted us db (respond p)
  unfolding judge
  respond-Posted us db (ok accepted, db') k a = (k, λ _. a)
  respond-Posted us db (err e, db') k a = (k, λ h. absurd (ground (arith, h)))

  post_readings-Posted :
      (well_formed : V → Bool) (id : Identity) (site : ℕ) (rows : List (Item (Measured V)))
      (db : Database V)
      → Posted (uuids rows) db (post_readings well_formed id site rows db)
  unfolding post_readings judge payload
  post_readings-Posted well_formed id site rows db =
      let batch = payload site rows in
      let b = batch.site_id == id.site_id in
      if-both (Posted (uuids rows) db) (is_valid_batch well_formed rows)
        (subst (λ p. Posted (uuids rows) db (respond p)) (sym (ingest_batch-body id batch db))
          (respond-Posted (uuids rows) db (site_checked id batch db b) (checked-Kept id batch db b)
            (subst (λ us. Answered us (site_checked id batch db b)) (uuids-payload rows)
              (checked-Answered id batch db b))))
        (λ u h. h, λ h. absurd (ground (arith, h)))

  -- The cloud has a reading of that identifier.
  abbrev pub IsStored : ℕ → Database V → Type 0
  IsStored u db = has u db.readings ≡ true

  pub cloud-IsStoring :
      (well_formed : V → Bool) (id : Identity) (o : Options) (clock : Database V → ℕ)
      → IsStoring (cloud well_formed id o clock) IsStored
  cloud-IsStoring well_formed id o clock = record {
    kept = λ batch db. (post_readings-Posted well_formed id o.site_id batch db).0;
    acknowledged = λ batch db. (post_readings-Posted well_formed id o.site_id batch db).1;
  }

-- Whatever the cloud answers to the requests of a pass, every reading that the collector counts as
-- uploaded afterwards is in the cloud's table, if that was so before.
pub sync_once-IsStored :
    {V : Type 0} (well_formed : V → Bool) (id : Identity) (o : Options) (clock : Database V → ℕ)
    (s : State (Measured V) (Database V))
    → IsDelivered IsStored s
    → IsDelivered IsStored (sync_once (cloud well_formed id o clock) o s).1
sync_once-IsStored well_formed id o clock =
    sync_once-IsDelivered (cloud well_formed id o clock) IsStored
      (cloud-IsStoring well_formed id o clock) o
