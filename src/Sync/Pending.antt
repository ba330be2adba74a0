-- ===== src/Sync/Pending.antt =====
-- The batch that `_pending_rows` selects, and how much work the rows of a queue still are.
use hawklive.Prelude.{
  ℕ, suc, ◌+◌, ◌-◌, ◌≤◌, ◌<◌, min, Bool, true, false, Option, none, some, List, [], ◌∷◌, ◌≡◌, refl,
  subst, sym, ◌∙◌, ap, ◌&&◌, ◌||◌, ◌==◌, leb, inl, inr, All, All-imply, All-take, Bool-cases,
  if-both, if◌then◌else◌, any, filter, count_where, length, length-take, arith, ◌⊎◌, ==_iff,
}
use hawklive.Email.Tables.{is_some, member}
use hawklive.Sync.Status.{Error}
use hawklive.Sync.Queue.{
  Item, Options, Table, reading_table, alarm_table, coalesce, is_due, before, insert, order,
  pending_rows, update, fail_row, mark_row,
}

or-true : (a : Bool) {b : Bool} → b ≡ true → (a || b) ≡ true
or-true true h = refl
or-true false h = h

is_some-coalesce : (q : Option ℕ) (now : ℕ) → is_some (coalesce q now) ≡ true
is_some-coalesce none now = refl
is_some-coalesce (some _) now = refl

and-cases : (a b : Bool) → (a && b) ≡ true → (a ≡ true) × (b ≡ true)
and-cases true b h = (refl, h)
and-cases false b h = absurd (ground (arith, h))

or-cases : (a b : Bool) → (a || b) ≡ true → (a ≡ true) ⊎ (b ≡ true)
or-cases true b h = inl refl
or-cases false b h = inr h

module _ {P : Type 0} where
  length-insert : (x : Item P) (ys : List (Item P)) → length (insert x ys) ≡ suc (length ys)
  unfolding insert
  length-insert x [] = refl
  length-insert x (y ∷ ys) =
      if-both {A = List (Item P)} (λ l. length l ≡ suc (suc (length ys))) (before x y) refl
        (ap suc (length-insert x ys))

  length-order : (xs : List (Item P)) → length (order xs) ≡ length xs
  unfolding order
  length-order [] = refl
  length-order (x ∷ xs) = length-insert x (order xs) ∙ ap suc (length-order xs)

  All-insert :
      (Q : Item P → Type 0) (x : Item P) (ys : List (Item P)) → Q x → All Q ys → All Q (insert x ys)
  unfolding insert
  All-insert Q x [] q all = (q, tt)
  All-insert Q x (y ∷ ys) q all =
      if-both (All Q) (before x y) (q, all) (all.0, All-insert Q x ys q all.1)

  All-order : (Q : Item P → Type 0) (xs : List (Item P)) → All Q xs → All Q (order xs)
  unfolding order
  All-order Q [] all = tt
  All-order Q (x ∷ xs) all = All-insert Q x (order xs) all.0 (All-order Q xs all.1)

  length-filter : (p : Item P → Bool) (xs : List (Item P)) → length (filter p xs) ≡ count_where p xs
  length-filter p [] = refl
  length-filter p (x ∷ xs) = elim (Bool-cases (p x)) [
    | inl e ↦ ground (arith, e, length-filter p xs)
    | inr e ↦ ground (arith, e, length-filter p xs)
  ]

  -- The batch has as many rows as wait, up to the size of a batch.
  pub length-pending_rows :
      (q : Table) (o : Options) (rs : List (Item P))
      → length (pending_rows q o rs) ≡ min o.batch_size (count_where (is_due q o) rs)
  unfolding pending_rows
  length-pending_rows q o rs =
      let waiting = filter (is_due q o) rs in
      length-take o.batch_size (order waiting)
      ∙ ap (λ n. min o.batch_size n) (length-order waiting ∙ length-filter (is_due q o) rs)

  -- A row of that identifier waits.
  abbrev pub waits : Table → Options → ℕ → List (Item P) → Bool
  waits q o u = any (λ r. is_due q o r && (r.uuid == u))

  here :
      (q : Table) (o : Options) (r : Item P) (rs : List (Item P))
      → is_due q o r ≡ true
      → waits q o r.uuid (r ∷ rs) ≡ true
  here q o r rs e = ground (arith, e)

  filter-waits :
      (q : Table) (o : Options) (rs : List (Item P))
      → All (λ r. waits q o r.uuid rs ≡ true) (filter (is_due q o) rs)
  filter-waits q o [] = tt
  filter-waits q o (r ∷ rs) =
      let later : All (λ x. waits q o x.uuid (r ∷ rs) ≡ true) (filter (is_due q o) rs) =
        All-imply (λ x. waits q o x.uuid rs ≡ true) (λ x. waits q o x.uuid (r ∷ rs) ≡ true) _
          (λ x h. or-true (is_due q o r && (r.uuid == x.uuid)) h) (filter-waits q o rs) in
      elim (Bool-cases (is_due q o r)) [
        | inl e ↦
            subst
              (λ b.
                All (λ x. waits q o x.uuid (r ∷ rs) ≡ true)
                  (if b then r ∷ filter (is_due q o) rs else filter (is_due q o) rs))
              (sym e) (here q o r rs e, later)
        | inr e ↦
            subst
              (λ b.
                All (λ x. waits q o x.uuid (r ∷ rs) ≡ true)
                  (if b then r ∷ filter (is_due q o) rs else filter (is_due q o) rs))
              (sym e) later
      ]

  pub pending_rows-waits :
      (q : Table) (o : Options) (rs : List (Item P))
      → All (λ r. waits q o r.uuid rs ≡ true) (pending_rows q o rs)
  unfolding pending_rows
  pending_rows-waits q o rs =
      let Q : Item P → Type 0 = λ r. waits q o r.uuid rs ≡ true in
      All-take Q o.batch_size _ (All-order Q _ (filter-waits q o rs))

  -- How often a row can still be sent before it is uploaded or put aside.
  abbrev pub weight : Table → Options → Item P → ℕ
  weight q o r = if is_due q o r then suc (o.max_item_attempts - r.sync_attempts) else 0

  abbrev pub load : Table → Options → List (Item P) → ℕ
  load q o [] = 0
  load q o (r ∷ rs) = weight q o r + load q o rs

  pub count-load :
      (q : Table) (o : Options) (rs : List (Item P)) → count_where (is_due q o) rs ≤ load q o rs
  count-load q o [] = omega arith
  count-load q o (r ∷ rs) = ground (arith, count-load q o rs)

  pub load-none :
      (q : Table) (o : Options) (rs : List (Item P))
      → count_where (is_due q o) rs ≡ 0
      → load q o rs ≡ 0
  load-none q o [] h = refl
  load-none q o (r ∷ rs) h = ground (arith, h, load-none q o rs)

  -- Rewriting rows whose weight does not grow.
  pub load-update :
      (q : Table) (o : Options) (ids : List ℕ) (f : Item P → Item P) (rs : List (Item P))
      → ((r : Item P) → weight q o (f r) ≤ weight q o r)
      → load q o (update ids f rs) ≤ load q o rs
  load-update q o ids f [] h = omega arith
  load-update q o ids f (r ∷ rs) h =
      let first : weight q o (if member r.uuid ids then f r else r) ≤ weight q o r =
        if-both (λ x. weight q o x ≤ weight q o r) (member r.uuid ids) {b = r} (h r)
          (omega arith) in
      omega (arith, load-update q o ids f rs h, first)

  -- A rewriting that makes every waiting row lighter, of rows one of which waits.
  pub load-update_less :
      (q : Table) (o : Options) (u : ℕ) (ids : List ℕ) (f : Item P → Item P) (rs : List (Item P))
      → ((r : Item P) → weight q o (f r) ≤ weight q o r)
      → ((r : Item P) → is_due q o r ≡ true → weight q o (f r) < weight q o r)
      → member u ids ≡ true
      → waits q o u rs ≡ true
      → load q o (update ids f rs) < load q o rs
  load-update_less q o u ids f [] h less m w = absurd (ground (arith, w))
  load-update_less q o u ids f (r ∷ rs) h less m w =
      elim (or-cases (is_due q o r && (r.uuid == u)) (waits q o u rs) w) [
        | inl here ↦
            let d = and-cases (is_due q o r) (r.uuid == u) here in
            let first : weight q o (if member r.uuid ids then f r else r) < weight q o r =
              subst (λ b. weight q o (if b then f r else r) < weight q o r)
                (sym (subst (λ v. member v ids ≡ true) (sym ((==_iff r.uuid u).0 d.1)) m))
                (less r d.0) in
            omega (arith, load-update q o ids f rs h, first)
        | inr there ↦
            let first : weight q o (if member r.uuid ids then f r else r) ≤ weight q o r =
              if-both (λ x. weight q o x ≤ weight q o r) (member r.uuid ids) {b = r} (h r)
                (omega arith) in
            omega (arith, load-update_less q o u ids f rs h less m there, first)
      ]

  pub weight-mark_row :
      (q : Table) (o : Options) (now : ℕ) (r : Item P) → weight q o (mark_row now r) ≡ 0
  unfolding is_due
  weight-mark_row q o now r = refl

  is_due-record :
      (q : Table) (o : Options) (r : Item P) (n : ℕ) (e : Option Error)
      → is_due q o (record r { sync_attempts = n; sync_error = e }) ≡ is_due q o r
  unfolding is_due
  is_due-record reading_table o r n e = refl
  is_due-record alarm_table o r n e = refl

  is_due-quarantined :
      (q : Table) (o : Options) (r : Item P)
      → is_some r.sync_quarantined_at ≡ true
      → is_due q o r ≡ false
  unfolding is_due
  is_due-quarantined q o r h = ground (arith, h)

  -- After a refusal a row is put aside, or it was not yet refused as often as the options say.
  fail_row-cases :
      (q : Table) (o : Options) (now : ℕ) (e : Error) (r : Item P)
      → (is_due q o (fail_row now o.max_item_attempts e true r) ≡ false)
        ⊎ ((is_due q o (fail_row now o.max_item_attempts e true r) ≡ is_due q o r)
            × (r.sync_attempts + 1 < o.max_item_attempts))
  fail_row-cases q o now e r = elim (Bool-cases (leb o.max_item_attempts (r.sync_attempts + 1))) [
    | inl t ↦ inl (
        is_due-quarantined q o (fail_row now o.max_item_attempts e true r) (
          subst
            (λ b.
              is_some (if b then coalesce r.sync_quarantined_at now else r.sync_quarantined_at)
              ≡ true)
            (sym t) (is_some-coalesce r.sync_quarantined_at now)))
    | inr t ↦ inr (
      subst
          (λ b.
            is_due q o (record r {
              sync_attempts = r.sync_attempts + 1;
              sync_error = some e;
              sync_quarantined_at =
                  if b then coalesce r.sync_quarantined_at now else r.sync_quarantined_at;
            })
            ≡ is_due q o r)
          (sym t) (is_due-record q o r (r.sync_attempts + 1) (some e)),
      ground (arith, t),
    )
  ]

  pub weight-fail_row_less :
      (q : Table) (o : Options) (now : ℕ) (e : Error) (r : Item P)
      → is_due q o r ≡ true
      → weight q o (fail_row now o.max_item_attempts e true r) < weight q o r
  weight-fail_row_less q o now e r d = elim (fail_row-cases q o now e r) [
    | inl g ↦ ground (arith, g, d)
    | inr g ↦ ground (arith, g.0, g.1, d)
  ]

  pub weight-fail_row :
      (q : Table) (o : Options) (now : ℕ) (e : Error) (permanent : Bool) (r : Item P)
      → weight q o (fail_row now o.max_item_attempts e permanent r) ≤ weight q o r
  weight-fail_row q o now e false r = ground (arith, is_due-record q o r r.sync_attempts (some e))
  weight-fail_row q o now e true r = elim (fail_row-cases q o now e r) [
    | inl g ↦ ground (arith, g)
    | inr g ↦ ground (arith, g.0, g.1)
  ]
