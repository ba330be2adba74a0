-- ===== src/Ingest/Freshness.antt =====
-- What a batch of latest readings leaves in the cloud.
use hawklive.Prelude.{
  ℕ, ◌≤◌, ◌<◌, Bool, true, false, not, ◌||◌, List, [], ◌∷◌, ◌++◌, ◌≡◌, refl, length, ◌⊎◌, inl, inr,
  arith, Result, ok, err, ◌>>=◌, ◌==◌, if-both, All,
}
use hawklive.Email.Tables.{member}
use hawklive.Ingest.Tables.{Identity, ReadingIn, Latest, Database, Names, retired, authorize_now}
use hawklive.Ingest.Upload.{
  Batch, Accepted, commit, target, of_tenant, latest_row, upsert_latest, ingest_latest_item,
  ingest_latest_items, refreshed, ingest_latest,
}
use hawklive.Ingest.Newest.{newest, upsert_latest-Newer}

member-append_left : (u : ℕ) (xs ys : List ℕ) → member u xs ≡ true → member u (xs ++ ys) ≡ true
member-append_left u [] ys h = absurd (ground (arith, h))
member-append_left u (x ∷ xs) ys h = or_left (x == u) (member-append_left u xs ys) h
  where
    or_left : (b : Bool) {c d : Bool} → (c ≡ true → d ≡ true) → (b || c) ≡ true → (b || d) ≡ true
    or_left true f h = refl
    or_left false f h = f h

member-append_last : (u : ℕ) (xs : List ℕ) → member u (xs ++ (u ∷ [])) ≡ true
member-append_last u [] = ground arith
member-append_last u (x ∷ xs) = or_right (x == u) (member-append_last u xs)
  where
    or_right : (b : Bool) {c : Bool} → c ≡ true → (b || c) ≡ true
    or_right true h = refl
    or_right false h = h

module _ {V : Type 0} where
  abbrev Advances : List ℕ × List (Latest V) → List ℕ × List (Latest V) → Type 0
  Advances (ignored, ls) (ignored', ls') =
      ((k : Latest V) → newest k ls ≤ newest k ls')
      × ((u : ℕ) → member u ignored ≡ true → member u ignored' ≡ true)

  -- The row of the device of an item, of which only the key is looked at.
  abbrev pub key_of : Identity → ReadingIn V → Latest V
  key_of id item = latest_row 0 id (record { cleanroom_name = ""; device_name = "" }) item

  -- An item was passed over, or the row of its device is not older.
  abbrev pub IsSettled : Identity → List ℕ × List (Latest V) → ReadingIn V → Type 0
  IsSettled id (ignored, ls) item =
      (member item.device_id ignored ≡ true) ⊎ (item.measured_at < newest (key_of id item) ls)

  IsSettled-Advances :
      (id : Identity) (item : ReadingIn V) (a b : List ℕ × List (Latest V))
      → Advances a b
      → IsSettled id a item
      → IsSettled id b item
  IsSettled-Advances id item (ia, la) (ib, lb) more (inl h) = inl (more.1 item.device_id h)
  IsSettled-Advances id item (ia, la) (ib, lb) more (inr h) =
      inr (omega (arith, h, more.0 (key_of id item)))

  abbrev Step :
      Identity
      → List (ReadingIn V)
      → List ℕ × List (Latest V)
      → Result ℕ (List ℕ × List (Latest V))
      → Type 0
  Step id items a (ok b) = Advances a b × All (IsSettled id b) items
  Step id items a (err e) = Unit

  named-Step :
      (now : ℕ) (id : Identity) (item : ReadingIn V) (ignored : List ℕ) (ls : List (Latest V))
      (m : Result ℕ Names)
      → Step id
          (item ∷ [])
          (ignored, ls)
          (m >>= λ names. ok (ignored, upsert_latest (latest_row now id names item) ls))
  named-Step now id item ignored ls (err e) = tt
  named-Step now id item ignored ls (ok names) =
      let l = latest_row now id names item in
      (
        (λ k. (upsert_latest-Newer l k ls).0, λ u h. h),
        (inr ((upsert_latest-Newer l (key_of id item) ls).1 (ground arith)), tt),
      )

  item-Step :
      (now : ℕ) (id : Identity) (db : Database V) (item : ReadingIn V)
      (a : List ℕ × List (Latest V))
      → Step id (item ∷ []) a (ingest_latest_item now id db item a)
  unfolding ingest_latest_item
  item-Step now id db item (ignored, ls) =
      let S : Result ℕ (List ℕ × List (Latest V)) → Type 0 = Step id (item ∷ []) (ignored, ls) in
      if-both S (not (of_tenant id item)) tt (
        if-both S (retired id (target item) item.measured_at db.assignments)
          (
            (λ k. omega arith, λ u. member-append_left u ignored (item.device_id ∷ [])),
            (inl (member-append_last item.device_id ignored), tt),
          )
          (named-Step now id item ignored ls
            (authorize_now id (target item) db.devices db.cleanrooms)))

  Advances-trans : (a b c : List ℕ × List (Latest V)) → Advances a b → Advances b c → Advances a c
  Advances-trans (ia, la) (ib, lb) (ic, lc) f g =
      (λ k. omega (arith, f.0 k, g.0 k), λ u h. g.1 u (f.1 u h))

  cons-Step :
      (id : Identity) (item : ReadingIn V) (items : List (ReadingIn V))
      (a b : List ℕ × List (Latest V)) (m : Result ℕ (List ℕ × List (Latest V)))
      → Step id (item ∷ []) a (ok b)
      → Step id items b m
      → Step id (item ∷ items) a m
  cons-Step id item items a b (err e) first rest = tt
  cons-Step id item items a b (ok c) first rest = (
    Advances-trans a b c first.0 rest.0,
    (IsSettled-Advances id item b c rest.0 first.1.0, rest.1),
  )

  bind-Step :
      (id : Identity) (item : ReadingIn V) (items : List (ReadingIn V))
      (a : List ℕ × List (Latest V)) (m : Result ℕ (List ℕ × List (Latest V)))
      (loop : List ℕ × List (Latest V) → Result ℕ (List ℕ × List (Latest V)))
      → ((b : List ℕ × List (Latest V)) → Step id items b (loop b))
      → Step id (item ∷ []) a m
      → Step id (item ∷ items) a (m >>= loop)
  bind-Step id item items a (err e) loop rest first = tt
  bind-Step id item items a (ok b) loop rest first =
      cons-Step id item items a b (loop b) first (rest b)

  items-Step :
      (now : ℕ) (id : Identity) (db : Database V) (items : List (ReadingIn V))
      (a : List ℕ × List (Latest V))
      → Step id items a (ingest_latest_items now id db items a)
  unfolding ingest_latest_items
  items-Step now id db [] (ignored, ls) = ((λ k. omega arith, λ u h. h), tt)
  items-Step now id db (item ∷ items) a =
      bind-Step id item items a (ingest_latest_item now id db item a) _
        (λ b. items-Step now id db items b) (item-Step now id db item a)

  -- What an answer of ingest_latest says: of a batch that is taken, the whole number is accepted, no
  -- device's row is older than before, and every item was passed over or has a row not older than it.
  abbrev pub IsFresh : Identity → Batch V → Database V → Result ℕ Accepted × Database V → Type 0
  IsFresh id batch db (err e, db') = db' ≡ db
  IsFresh id batch db (ok r, db') =
      (r.accepted ≡ length batch.readings)
      × ((k : Latest V) → newest k db.latest ≤ newest k db'.latest)
      × All (IsSettled id (r.ignored_device_ids, db'.latest)) batch.readings

  commit-IsFresh :
      (id : Identity) (batch : Batch V) (db : Database V) (m : Result ℕ (List ℕ × List (Latest V)))
      → Step id batch.readings ([], db.latest) m
      → IsFresh id batch db (commit db (m >>= λ done. ok (refreshed batch db done)))
  commit-IsFresh id batch db (err e) step = refl
  commit-IsFresh id batch db (ok (ignored, ls)) step = (refl, step.0.0, step.1)

-- A batch of latest readings is refused and changes nothing, or every item of it is acknowledged: no
-- device's row gets older, and every item was passed over as one of a device that is no longer there
-- or has a row that is not older.
pub ingest_latest-IsFresh :
    {V : Type 0} (now : ℕ) (id : Identity) (batch : Batch V) (db : Database V)
    → IsFresh id batch db (ingest_latest now id batch db)
unfolding ingest_latest
ingest_latest-IsFresh now id batch db =
    if-both (IsFresh id batch db) (not (batch.site_id == id.site_id)) refl
      (commit-IsFresh id batch db _ (items-Step now id db batch.readings ([], db.latest)))
