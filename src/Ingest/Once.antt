-- ===== src/Ingest/Once.antt =====
-- What a batch of readings leaves in the cloud, stated over a table as a map from identifiers to
-- readings: the first reading of an identifier stays.
use hawklive.Prelude.{
  ℕ, Bool, true, false, not, Option, none, some, List, [], ◌∷◌, ◌++◌, map, ◌≡◌, refl, subst, sym,
  ap, ◌∙◌, inl, inr, Result, ok, err, ◌>>=◌, traverse, if◌then◌else◌, Bool-cases, ==_iff, eq→==,
  ◌==◌, ◌||◌, arith,
}
use hawklive.Email.Tables.{select, is_some}
use hawklive.Ingest.Tables.{Identity, Assignment, ReadingIn, Reading, Database, authorize_past}
use hawklive.Ingest.Upload.{
  Batch, target, of_tenant, row, has, insert_reading, ingest_item, ingest_items, ingest_batch,
  stored, commit,
}

-- The value that is there, or else another.
abbrev pub or_else : {A : Type 0} → Option A → Option A → Option A
or_else none o = o
or_else (some a) o = some a

or_else-none : {A : Type 0} (o : Option A) → o ≡ or_else o none
or_else-none none = refl
or_else-none (some a) = refl

or_else-some : {A : Type 0} (o t : Option A) → is_some o ≡ true → o ≡ or_else o t
or_else-some none t h = absurd (ground (arith, h))
or_else-some (some a) t h = refl

or_else-if :
    {A : Type 0} (o t : Option A) (b : Bool) (a : A)
    → or_else (or_else o (if b then some a else none)) t ≡ or_else o (if b then some a else t)
or_else-if none t true a = refl
or_else-if none t false a = refl
or_else-if (some x) t b a = refl

if-or_else :
    {A : Type 0} (b : Bool) (a : A) (o o' t : Option A)
    → o ≡ or_else o' t
    → (if b then some a else o) ≡ or_else (if b then some a else o') t
if-or_else true a o o' t h = refl
if-or_else false a o o' t h = h

or-is_some :
    {A : Type 0} (b c : Bool) (a : A) (o : Option A)
    → c ≡ is_some o
    → (b || c) ≡ is_some (if b then some a else o)
or-is_some true c a o h = refl
or-is_some false c a o h = h

if-bind :
    {A B : Type 0} (b : Bool) (e : ℕ) (m : Result ℕ A) (f : A → Result ℕ B)
    → ((if b then err e else m) >>= f) ≡ (if b then err e else (m >>= f))
if-bind true e m f = refl
if-bind false e m f = refl

bind_assoc :
    {A B D : Type 0} (m : Result ℕ A) (g : A → Result ℕ B) (f : B → Result ℕ D)
    → ((m >>= g) >>= f) ≡ (m >>= λ x. g x >>= f)
bind_assoc (ok a) g f = refl
bind_assoc (err e) g f = refl

module _ {V : Type 0} where
  -- The table as a map.
  abbrev pub lookup : ℕ → List (Reading V) → Option (Reading V)
  lookup u = select (λ r. r.record_uuid == u)

  -- The row that an item stands for, or the refusal.
  abbrev pub admit : Identity → List Assignment → ReadingIn V → Result ℕ (Reading V)
  admit id ps item =
      if not (of_tenant id item)
      then err 403
      else authorize_past id (target item) item.measured_at ps >>= λ names. ok (row id names item)

  abbrev pub insert_all : List (Reading V) → List (Reading V) → List (Reading V)
  insert_all [] rs = rs
  insert_all (r ∷ new) rs = insert_all new (insert_reading r rs)

  abbrev pub record_uuids : List (ReadingIn V) → List ℕ
  record_uuids = map (λ r. r.record_uuid)

  -- What a batch promises: it is refused and nothing changes, or every identifier is answered and the
  -- table is the old one with what is new.
  abbrev pub IsMerged :
      Batch V → Database V → Result ℕ (List (Reading V)) → Result ℕ (List ℕ) × Database V → Type 0
  IsMerged batch db (err e) p = p ≡ (err e, db)
  IsMerged batch db (ok new) p =
      (p.0 ≡ ok (record_uuids batch.readings))
      × ((u : ℕ) → lookup u p.1.readings ≡ or_else (lookup u db.readings) (lookup u new))

  select-append :
      (p : Reading V → Bool) (rs : List (Reading V)) (r : Reading V)
      → select p (rs ++ (r ∷ [])) ≡ or_else (select p rs) (if p r then some r else none)
  select-append p [] r = refl
  select-append p (x ∷ xs) r = if-or_else (p x) x _ _ _ (select-append p xs r)

  pub has-lookup : (u : ℕ) (rs : List (Reading V)) → has u rs ≡ is_some (lookup u rs)
  has-lookup u [] = refl
  has-lookup u (r ∷ rs) =
      or-is_some (r.record_uuid == u) (has u rs) r (lookup u rs) (has-lookup u rs)

  lookup-there :
      (u : ℕ) (r : Reading V) (rs : List (Reading V))
      → has r.record_uuid rs ≡ true
      → lookup u rs ≡ or_else (lookup u rs) (if r.record_uuid == u then some r else none)
  lookup-there u r rs h = elim (Bool-cases (r.record_uuid == u)) [
    | inl e ↦
        or_else-some (lookup u rs) _
          (sym (has-lookup u rs) ∙ subst (λ v. has v rs ≡ true) ((==_iff r.record_uuid u).0 e) h)
    | inr e ↦
        subst (λ b. lookup u rs ≡ or_else (lookup u rs) (if b then some r else none)) (sym e)
          (or_else-none (lookup u rs))
  ]

  lookup-insert :
      (u : ℕ) (r : Reading V) (rs : List (Reading V))
      → lookup u (insert_reading r rs)
        ≡ or_else (lookup u rs) (if r.record_uuid == u then some r else none)
  unfolding insert_reading
  lookup-insert u r rs =
      let Good : Bool → Type 0 = λ b.
        lookup u (if b then rs else rs ++ (r ∷ []))
        ≡ or_else (lookup u rs) (if r.record_uuid == u then some r else none) in
      elim (Bool-cases (has r.record_uuid rs)) [
        | inl e ↦ subst Good (sym e) (lookup-there u r rs e)
        | inr e ↦ subst Good (sym e) (select-append (λ x. x.record_uuid == u) rs r)
      ]

  pub lookup-insert_all :
      (u : ℕ) (new rs : List (Reading V))
      → lookup u (insert_all new rs) ≡ or_else (lookup u rs) (lookup u new)
  lookup-insert_all u [] rs = or_else-none (lookup u rs)
  lookup-insert_all u (r ∷ new) rs =
      lookup-insert_all u new (insert_reading r rs)
      ∙ ap (λ o. or_else o (lookup u new)) (lookup-insert u r rs)
      ∙ or_else-if (lookup u rs) (lookup u new) (r.record_uuid == u) r

  ingest_item-admit :
      (id : Identity) (ps : List Assignment) (item : ReadingIn V) (rs : List (Reading V))
      → ingest_item id ps item rs ≡ (admit id ps item >>= λ r. ok (insert_reading r rs))
  unfolding ingest_item
  ingest_item-admit id ps item rs =
      let b = not (of_tenant id item) in
      let m = authorize_past id (target item) item.measured_at ps in
      sym (
        if-bind b 403 (m >>= λ names. ok (row id names item)) (λ r. ok (insert_reading r rs))
        ∙ ap (λ k. if b then err 403 else k)
            (bind_assoc m (λ names. ok (row id names item)) (λ r. ok (insert_reading r rs))))

  abbrev answer : ℕ → List ℕ × List (Reading V) → Result ℕ (List ℕ × List (Reading V))
  answer uuid (us, rs) = ok (uuid ∷ us, rs)

  abbrev pub settled :
      List ℕ → Result ℕ (List (Reading V)) → List (Reading V) → Result ℕ (List ℕ × List (Reading V))
  settled us t rs = t >>= λ new. ok (us, insert_all new rs)

  -- The loop after its first round.
  items-admit :
      (uuid : ℕ) (us : List ℕ) (a : Result ℕ (Reading V)) (t : Result ℕ (List (Reading V)))
      (loop : List (Reading V) → Result ℕ (List ℕ × List (Reading V))) (rs : List (Reading V))
      → ((rs : List (Reading V)) → loop rs ≡ settled us t rs)
      → ((a >>= λ r. ok (insert_reading r rs)) >>= λ rs'. loop rs' >>= answer uuid)
        ≡ settled (uuid ∷ us) (a >>= λ y. t >>= λ ys. ok (y ∷ ys)) rs
  items-admit uuid us (err e) t loop rs h = refl
  items-admit uuid us (ok r) (err e) loop rs h =
      ap (λ l. l >>= answer uuid) (h (insert_reading r rs))
  items-admit uuid us (ok r) (ok new) loop rs h =
      ap (λ l. l >>= answer uuid) (h (insert_reading r rs))

  pub ingest_items-admit :
      (id : Identity) (ps : List Assignment) (items : List (ReadingIn V)) (rs : List (Reading V))
      → ingest_items id ps items rs ≡ settled (record_uuids items) (traverse (admit id ps) items) rs
  unfolding ingest_items traverse
  ingest_items-admit id ps [] rs = refl
  ingest_items-admit id ps (item ∷ items) rs =
      ap (λ m. m >>= λ rs'. ingest_items id ps items rs' >>= answer item.record_uuid)
        (ingest_item-admit id ps item rs)
      ∙ items-admit item.record_uuid (record_uuids items) (admit id ps item)
          (traverse (admit id ps) items) (ingest_items id ps items) rs
          (ingest_items-admit id ps items)

  merged :
      (batch : Batch V) (db : Database V) (t : Result ℕ (List (Reading V)))
      → IsMerged batch db t (
          commit db (
            (t >>= λ new. ok (record_uuids batch.readings, insert_all new db.readings)) >>= λ done.
            ok (stored db done)))
  merged batch db (err e) = refl
  merged batch db (ok new) = (refl, λ u. lookup-insert_all u new db.readings)

-- A batch for the site of the token is refused as a whole, and nothing changes, or it is acknowledged
-- in full and the table, read as a map from identifiers to readings, is the old map extended by the
-- rows of the batch: what is there stays, and of several rows of one identifier the first stays.
pub ingest_batch-refines :
    {V : Type 0} (id : Identity) (batch : Batch V) (db : Database V)
    → batch.site_id ≡ id.site_id
    → IsMerged batch db
        (traverse (admit id db.assignments) batch.readings)
        (ingest_batch id batch db)
unfolding ingest_batch
ingest_batch-refines id batch db h =
    let t = traverse (admit id db.assignments) batch.readings in
    subst
      (λ b. IsMerged batch db t (
        if not b
        then (err 403, db)
        else commit db (
            ingest_items id db.assignments batch.readings db.readings >>= λ done.
            ok (stored db done))))
      (sym (eq→== batch.site_id id.site_id h))
      (subst (λ m. IsMerged batch db t (commit db (m >>= λ done. ok (stored db done))))
        (sym (ingest_items-admit id db.assignments batch.readings db.readings)) (merged batch db t))
