-- ===== src/Ingest/Again.antt =====
-- A batch that is sent again, as a collector does that lost the answer, and what that makes of the
-- cloud as the collector meets it.
use hawklive.Prelude.{
  ℕ, Bool, true, false, not, Option, none, some, List, [], ◌∷◌, ◌++◌, ◌≡◌, refl, subst, sym, ap,
  ◌∙◌, Result, ok, err, ◌>>=◌, traverse, if◌then◌else◌, All, All-imply, ◌==◌, ==_refl,
}
use hawklive.Email.Tables.{is_some}
use hawklive.Ingest.Tables.{Identity, Reading, Database}
use hawklive.Ingest.Upload.{Batch, has, insert_reading, ingest_batch, stored, commit}
use hawklive.Ingest.Once.{
  or_else, lookup, admit, insert_all, record_uuids, settled, ingest_items-admit, has-lookup,
  lookup-insert_all,
}

pub some-or_else : {A : Type 0} (o t : Option A) → is_some t ≡ true → is_some (or_else o t) ≡ true
some-or_else none t h = h
some-or_else (some a) t h = refl

pub if-some :
    {A : Type 0} (b : Bool) (a : A) (o : Option A)
    → is_some o ≡ true
    → is_some (if b then some a else o) ≡ true
if-some true a o h = refl
if-some false a o h = h

module _ {V : Type 0} where
  lookup_self : (new : List (Reading V)) → All (λ r. is_some (lookup r.record_uuid new) ≡ true) new
  lookup_self [] = tt
  lookup_self (r ∷ new) = (
    subst (λ b. is_some (if b then some r else lookup r.record_uuid new) ≡ true)
        (sym (==_refl r.record_uuid)) refl,
    All-imply (λ x. is_some (lookup x.record_uuid new) ≡ true)
        (λ x. is_some (lookup x.record_uuid (r ∷ new)) ≡ true) new
        (λ x h. if-some (r.record_uuid == x.record_uuid) r (lookup x.record_uuid new) h)
        (lookup_self new),
  )

  insert_all-has :
      (new rs : List (Reading V)) → All (λ r. has r.record_uuid (insert_all new rs) ≡ true) new
  insert_all-has new rs =
      All-imply (λ r. is_some (lookup r.record_uuid new) ≡ true)
        (λ r. has r.record_uuid (insert_all new rs) ≡ true) new
        (λ r h.
          has-lookup r.record_uuid (insert_all new rs)
          ∙ ap is_some (lookup-insert_all r.record_uuid new rs)
          ∙ some-or_else (lookup r.record_uuid rs) (lookup r.record_uuid new) h)
        (lookup_self new)

  insert_all-there :
      (new rs : List (Reading V))
      → All (λ r. has r.record_uuid rs ≡ true) new
      → insert_all new rs ≡ rs
  unfolding insert_reading
  insert_all-there [] rs all = refl
  insert_all-there (r ∷ new) rs all =
      ap (λ b. insert_all new (if b then rs else rs ++ (r ∷ []))) all.0
      ∙ insert_all-there new rs all.1

  -- The body of ingest_batch, its rows given.
  abbrev pub body :
      List ℕ → Result ℕ (List (Reading V)) → Database V → Result ℕ (List ℕ) × Database V
  body us t db = commit db (settled us t db.readings >>= λ done. ok (stored db done))

  body-again :
      (us : List ℕ) (t : Result ℕ (List (Reading V))) (db : Database V)
      → body us t (body us t db).1 ≡ body us t db
  body-again us (err e) db = refl
  body-again us (ok new) db =
      ap (λ rs. (ok us, record db { readings = rs }))
        (insert_all-there new (insert_all new db.readings) (insert_all-has new db.readings))

  body-assignments :
      (us : List ℕ) (t : Result ℕ (List (Reading V))) (db : Database V)
      → (body us t db).1.assignments ≡ db.assignments
  body-assignments us (err e) db = refl
  body-assignments us (ok new) db = refl

  abbrev pub site_checked : Identity → Batch V → Database V → Bool → Result ℕ (List ℕ) × Database V
  site_checked id batch db b =
      if not b
      then (err 403, db)
      else body (record_uuids batch.readings) (traverse (admit id db.assignments) batch.readings) db

  pub ingest_batch-body :
      (id : Identity) (batch : Batch V) (db : Database V)
      → ingest_batch id batch db ≡ site_checked id batch db (batch.site_id == id.site_id)
  unfolding ingest_batch
  ingest_batch-body id batch db =
      ap
        (λ m.
          if not (batch.site_id == id.site_id)
          then (err 403, db)
          else commit db (m >>= λ done. ok (stored db done)))
        (ingest_items-admit id db.assignments batch.readings db.readings)

  checked-again :
      (id : Identity) (batch : Batch V) (db : Database V) (b : Bool)
      → site_checked id batch (site_checked id batch db b).1 b ≡ site_checked id batch db b
  checked-again id batch db false = refl
  checked-again id batch db true =
      let us = record_uuids batch.readings in
      let t = traverse (admit id db.assignments) batch.readings in
      ap (λ ps. body us (traverse (admit id ps) batch.readings) (body us t db).1)
        (body-assignments us t db)
      ∙ body-again us t db

-- A batch that is sent again is answered as it was the first time and adds nothing, refused batches
-- included.
pub ingest_batch-again :
    {V : Type 0} (id : Identity) (batch : Batch V) (db : Database V)
    → ingest_batch id batch (ingest_batch id batch db).1 ≡ ingest_batch id batch db
ingest_batch-again id batch db =
    let b = batch.site_id == id.site_id in
    ap (λ p. ingest_batch id batch p.1) (ingest_batch-body id batch db)
    ∙ ingest_batch-body id batch (site_checked id batch db b).1
    ∙ checked-again id batch db b
    ∙ sym (ingest_batch-body id batch db)
