-- ===== src/Sync/Retry.antt =====
-- What a pass leaves for the next one when the cloud cannot be reached.
use hawklive.Prelude.{
  ℕ, zero, suc, Bool, true, false, some, List, [], ◌∷◌, map, ◌≡◌, ap₂, arith, refl, subst, sym, ap,
  ◌∙◌, inl, inr, All, Result, err, if-both, if◌then◌else◌, filter, take, Bool-cases,
}
use hawklive.Email.Tables.{member}
use hawklive.Sync.Status.{Error}
use hawklive.Sync.Queue.{
  Item, Options, Table, reading_table, alarm_table, judge, permanent_item_error, is_due, before,
  insert, order, pending_rows, record_queue_failure, mark_row, mark_synced, uuids,
}
use hawklive.Sync.Upload.{
  Remote, State, note_failure, conclude, upload_rows, settle_batch, sync_batch, refuse, sync_once,
}
use hawklive.Sync.Passes.{requested}

module _ {P : Type 0} (g : Item P → Item P) where
  if-map :
      (b : Bool) (xs ys : List (Item P))
      → (if b then map g xs else map g ys) ≡ map g (if b then xs else ys)
  if-map true xs ys = refl
  if-map false xs ys = refl

  filter-map :
      (p : Item P → Bool) (xs : List (Item P))
      → ((x : Item P) → p (g x) ≡ p x)
      → filter p (map g xs) ≡ map g (filter p xs)
  filter-map p [] h = refl
  filter-map p (x ∷ xs) h =
      let rest = filter-map p xs h in
      ap (λ b. if b then g x ∷ filter p (map g xs) else filter p (map g xs)) (h x)
      ∙ ap (λ l. if p x then g x ∷ l else l) rest
      ∙ if-map (p x) (x ∷ filter p xs) (filter p xs)

  insert-map :
      (x : Item P) (ys : List (Item P))
      → ((x y : Item P) → before (g x) (g y) ≡ before x y)
      → insert (g x) (map g ys) ≡ map g (insert x ys)
  unfolding insert
  insert-map x [] h = refl
  insert-map x (y ∷ ys) h =
      ap (λ b. if b then g x ∷ g y ∷ map g ys else g y ∷ insert (g x) (map g ys)) (h x y)
      ∙ ap (λ l. if before x y then g x ∷ g y ∷ map g ys else g y ∷ l) (insert-map x ys h)
      ∙ if-map (before x y) (x ∷ y ∷ ys) (y ∷ insert x ys)

  order-map :
      (xs : List (Item P))
      → ((x y : Item P) → before (g x) (g y) ≡ before x y)
      → order (map g xs) ≡ map g (order xs)
  unfolding order
  order-map [] h = refl
  order-map (x ∷ xs) h = ap (λ l. insert (g x) l) (order-map xs h) ∙ insert-map x (order xs) h

  take-map : (n : ℕ) (xs : List (Item P)) → take n (map g xs) ≡ map g (take n xs)
  take-map zero xs = refl
  take-map (suc n) [] = refl
  take-map (suc n) (x ∷ xs) = ap (λ l. g x ∷ l) (take-map n xs)

  -- A rewriting that leaves what the selection looks at leaves the selection.
  pending_rows-map :
      (q : Table) (o : Options) (rs : List (Item P))
      → ((x : Item P) → is_due q o (g x) ≡ is_due q o x)
      → ((x y : Item P) → before (g x) (g y) ≡ before x y)
      → pending_rows q o (map g rs) ≡ map g (pending_rows q o rs)
  unfolding pending_rows
  pending_rows-map q o rs due same =
      ap (λ l. take o.batch_size (order l)) (filter-map (is_due q o) rs due)
      ∙ ap (λ l. take o.batch_size l) (order-map (filter (is_due q o) rs) same)
      ∙ take-map o.batch_size (order (filter (is_due q o) rs))

  uuids-map :
      (rs : List (Item P)) → ((x : Item P) → (g x).uuid ≡ x.uuid) → uuids (map g rs) ≡ uuids rs
  uuids-map [] h = refl
  uuids-map (r ∷ rs) h = ap₂ (λ u l. u ∷ l) (h r) (uuids-map rs h)

module _ {P : Type 0} where
  -- A row with an error noted, or the row as it was.
  abbrev noted : List ℕ → Error → Item P → Item P
  noted ids e r = if member r.uuid ids then record r { sync_error = some e } else r

  noted-keeps :
      {A : Type 0} (f : Item P → A) (ids : List ℕ) (e : Error) (r : Item P)
      → f (record r { sync_error = some e }) ≡ f r
      → f (noted ids e r) ≡ f r
  noted-keeps f ids e r h = if-both (λ x. f x ≡ f r) (member r.uuid ids) {b = r} h refl

  is_due-noted :
      (q : Table) (o : Options) (e : Error) (r : Item P)
      → is_due q o (record r { sync_error = some e }) ≡ is_due q o r
  unfolding is_due
  is_due-noted reading_table o e r = refl
  is_due-noted alarm_table o e r = refl

  before-noted :
      (ids : List ℕ) (e : Error) (x y : Item P)
      → before (noted ids e x) (noted ids e y) ≡ before x y
  unfolding before
  before-noted ids e x y =
      let x' = record x { sync_error = some e } in
      let y' = record y { sync_error = some e } in
      if-both (λ a. before a (noted ids e y) ≡ before x y) (member x.uuid ids) {a = x'} {b = x}
        (if-both (λ b. before x' b ≡ before x y) (member y.uuid ids) {a = y'} {b = y} refl refl)
        (if-both (λ b. before x b ≡ before x y) (member y.uuid ids) {a = y'} {b = y} refl refl)

  kept_batch :
      (o : Options) (rs : List (Item P)) (ids : List ℕ) (e : Error)
      → uuids (pending_rows reading_table o (map (noted ids e) rs))
        ≡ uuids (pending_rows reading_table o rs)
  kept_batch o rs ids e =
      ap uuids (
        pending_rows-map (noted ids e) reading_table o rs
          (λ r. noted-keeps (is_due reading_table o) ids e r (is_due-noted reading_table o e r))
          (before-noted ids e))
      ∙ uuids-map (noted ids e) (pending_rows reading_table o rs)
          (λ r. noted-keeps (λ x. x.uuid) ids e r refl)

-- A pass that the cloud does not decide raises its error and uses up no attempt: the next pass sends
-- the same rows in the same order.
pub sync_once-resends :
    {P C : Type 0} (remote : Remote P C) (o : Options) (s : State P C) (r : Item P)
    (rs : List (Item P)) (e : Error)
    → pending_rows reading_table o s.world.rows ≡ r ∷ rs
    → judge (uuids (r ∷ rs)) (remote.post (r ∷ rs) s.world.cloud).0 ≡ some e
    → permanent_item_error e ≡ false
    → ((sync_once remote o s).0 ≡ err e)
      × (uuids (pending_rows reading_table o (sync_once remote o s).1.world.rows) ≡ uuids (r ∷ rs))
unfolding sync_once sync_batch upload_rows record_queue_failure
sync_once-resends {P = P} {C = C} remote o s r rs e batch h transient =
    let Good : Result Error ℕ × State P C → Type 0 =
      λ p. (p.0 ≡ err e) × (uuids (pending_rows reading_table o p.1.world.rows) ≡ uuids (r ∷ rs)) in
    let t = requested remote (r ∷ rs) s in
    let ids = uuids (r ∷ rs) in
    subst (λ b. Good (sync_batch remote reading_table o b s)) (sym batch)
      (subst
        (λ j. Good (
          settle_batch remote reading_table o (r ∷ rs)
            (conclude remote reading_table (r ∷ rs) j t)))
        (sym h)
        (subst
          (λ b. Good (
            if b
            then refuse remote reading_table o (r ∷ rs) e t
            else (err e, note_failure remote o (r ∷ rs) e false t)))
          (sym transient) (refl, kept_batch o s.world.rows ids e ∙ ap uuids batch)))

-- An acknowledgement marks the rows that were sent, whatever was written to them since they were
-- read: none of them waits any more.
pub mark_synced-none_due :
    {P : Type 0} (q : Table) (o : Options) (now : ℕ) (ids : List ℕ) (rows : List (Item P))
    → All (λ r. member r.uuid ids ≡ true → is_due q o r ≡ false) (mark_synced now ids rows)
unfolding mark_synced is_due
mark_synced-none_due q o now ids [] = tt
mark_synced-none_due q o now ids (r ∷ rs) =
    let Good : Bool → Type 0 = λ b.
      member (if b then mark_row now r else r).uuid ids ≡ true
      → is_due q o (if b then mark_row now r else r) ≡ false in
    (
      elim (Bool-cases (member r.uuid ids)) [
        | inl e ↦ subst Good (sym e) (λ _. refl)
        | inr e ↦ subst Good (sym e) (λ h. absurd (ground (arith, e, h)))
      ],
      mark_synced-none_due q o now ids rs,
    )
