-- ===== src/Sync/Delivery.antt =====
-- What a row marked as uploaded says about the cloud, and when a row is put aside.
use hawklive.Prelude.{
  ℕ, ◌+◌, Bool, true, false, Option, none, some, List, [], ◌∷◌, ◌≡◌, refl, subst, sym, ◌∙◌, ◌||◌,
  ◌==◌, leb, inl, inr, All, All-imply, Bool-cases, ==_iff, if◌then◌else◌, arith,
}
use hawklive.Email.Tables.{is_some, member}
use hawklive.Sync.Status.{Error}
use hawklive.Sync.Queue.{
  Item, Options, Table, reading_table, alarm_table, judge, coalesce, update, fail_row,
  record_queue_failure, mark_row, mark_synced, uuids,
}
use hawklive.Sync.Upload.{Remote, State, sync_table, sync_once, sync_alarms_once}
use hawklive.Sync.Passes.{sync_table-keeps}

pub All-member : (Q : ℕ → Type 0) (u : ℕ) (ids : List ℕ) → All Q ids → member u ids ≡ true → Q u
All-member Q u [] all h = absurd (ground (arith, h))
All-member Q u (x ∷ xs) all h = elim (Bool-cases (x == u)) [
  | inl e ↦ subst Q ((==_iff x u).0 e) all.0
  | inr e ↦ All-member Q u xs all.1 (subst (λ b. (b || member u xs) ≡ true) e h)
]

module _ {P : Type 0} where
  All-update :
      (Q R : Item P → Type 0) (ids : List ℕ) (f : Item P → Item P) (rs : List (Item P))
      → ((r : Item P) → Q r → R r)
      → ((r : Item P) → Q r → member r.uuid ids ≡ true → R (f r))
      → All Q rs
      → All R (update ids f rs)
  All-update Q R ids f [] out hit all = tt
  All-update Q R ids f (r ∷ rs) out hit all = (
    elim (Bool-cases (member r.uuid ids)) [
      | inl e ↦ subst (λ b. R (if b then f r else r)) (sym e) (hit r all.0 e)
      | inr e ↦ subst (λ b. R (if b then f r else r)) (sym e) (out r all.0)
    ],
    All-update Q R ids f rs out hit all.1,
  )

  fail_row-keeps :
      (Q : Option ℕ → ℕ → Type 0) (now limit : ℕ) (e : Error) (permanent : Bool) (r : Item P)
      → Q r.synced_at r.uuid
      → Q (fail_row now limit e permanent r).synced_at (fail_row now limit e permanent r).uuid
  fail_row-keeps Q now limit e true r h = h
  fail_row-keeps Q now limit e false r h = h

  -- A row that is not uploaded is put aside exactly when it was refused often enough.
  abbrev pub IsCounted : Options → Item P → Type 0
  IsCounted o r =
      is_some r.synced_at ≡ false
      → is_some r.sync_quarantined_at ≡ leb o.max_item_attempts r.sync_attempts

  fail_row-IsCounted :
      (o : Options) (now : ℕ) (e : Error) (permanent : Bool) (r : Item P)
      → IsCounted o r
      → IsCounted o (fail_row now o.max_item_attempts e permanent r)
  fail_row-IsCounted o now e false r i h = i h
  fail_row-IsCounted o now e true r i h =
      elim (Bool-cases (leb o.max_item_attempts (r.sync_attempts + 1))) [
        | inl t ↦
            subst
              (λ b.
                is_some (if b then coalesce r.sync_quarantined_at now else r.sync_quarantined_at)
                ≡ b)
              (sym t) (is_some-coalesce r.sync_quarantined_at)
        | inr t ↦
            subst
              (λ b.
                is_some (if b then coalesce r.sync_quarantined_at now else r.sync_quarantined_at)
                ≡ b)
              (sym t) (i h ∙ ground (arith, t))
      ]
    where
      is_some-coalesce : (q : Option ℕ) → is_some (coalesce q now) ≡ true
      is_some-coalesce none = refl
      is_some-coalesce (some _) = refl

module _ {P C : Type 0} where
  -- What the cloud keeps: a row that it has it goes on having, and it has what it acknowledges.
  pub record IsStoring (remote : Remote P C) (Stored : ℕ → C → Type 0) : Type 0 where
    pub kept :
        (batch : List (Item P)) (c : C) (u : ℕ) → Stored u c → Stored u (remote.post batch c).1
    pub acknowledged :
        (batch : List (Item P)) (c : C)
        → judge (uuids batch) (remote.post batch c).0 ≡ none
        → All (λ u. Stored u (remote.post batch c).1) (uuids batch)

  -- The cloud has every row that is marked as uploaded.
  abbrev pub IsDelivered : (ℕ → C → Type 0) → State P C → Type 0
  IsDelivered Stored s =
      All (λ r. is_some r.synced_at ≡ true → Stored r.uuid s.world.cloud) s.world.rows

module _ {P C : Type 0} (remote : Remote P C) (Stored : ℕ → C → Type 0)
    (storing : IsStoring remote Stored) (o : Options) where
  table-IsDelivered :
      (q : Table) (s : State P C)
      → IsDelivered Stored s
      → IsDelivered Stored (sync_table remote q o s).1
  unfolding mark_synced record_queue_failure
  table-IsDelivered q =
      let Holds : C → Item P → Type 0 = λ c r. is_some r.synced_at ≡ true → Stored r.uuid c in
      let later : (batch : List (Item P)) (c : C) (r : Item P)
          → Holds c r
          → Holds (remote.post batch c).1 r =
        λ batch c r h e. storing.kept batch c r.uuid (h e) in
      sync_table-keeps remote q o (IsDelivered Stored)
        (λ batch s i.
          All-imply (Holds s.world.cloud) (Holds (remote.post batch s.world.cloud).1) s.world.rows
            (later batch s.world.cloud) i)
        (λ batch s i h.
          All-update (Holds s.world.cloud) (Holds (remote.post batch s.world.cloud).1) (uuids batch)
            _ s.world.rows (later batch s.world.cloud)
            (λ r _ m _.
              All-member (λ u. Stored u (remote.post batch s.world.cloud).1) r.uuid (uuids batch)
                (storing.acknowledged batch s.world.cloud h) m)
            i)
        (λ batch e permanent s i.
          All-update (Holds s.world.cloud) (Holds s.world.cloud) (uuids batch) _ s.world.rows
            (λ r h. h)
            (λ r h m.
              fail_row-keeps (λ t u. is_some t ≡ true → Stored u s.world.cloud) _ _ e permanent r h)
            i)

  pub sync_once-IsDelivered :
      (s : State P C) → IsDelivered Stored s → IsDelivered Stored (sync_once remote o s).1
  unfolding sync_once
  sync_once-IsDelivered = table-IsDelivered reading_table

  pub sync_alarms_once-IsDelivered :
      (s : State P C) → IsDelivered Stored s → IsDelivered Stored (sync_alarms_once remote o s).1
  unfolding sync_alarms_once
  sync_alarms_once-IsDelivered = table-IsDelivered alarm_table

-- Whatever the cloud answers, a pass leaves the rows put aside and the counts of refusals in step: a
-- row that is not uploaded is put aside exactly when it was refused as often as the options say.
pub sync_once-IsCounted :
    {P C : Type 0} (remote : Remote P C) (o : Options) (s : State P C)
    → All (IsCounted o) s.world.rows
    → All (IsCounted o) (sync_once remote o s).1.world.rows
unfolding sync_once mark_synced record_queue_failure
sync_once-IsCounted remote o =
    sync_table-keeps remote reading_table o (λ s. All (IsCounted o) s.world.rows) (λ batch s i. i)
      (λ batch s i h.
        All-update (IsCounted o) (IsCounted o) (uuids batch) (mark_row (remote.clock _))
          s.world.rows (λ r c. c) (λ r c m e. absurd (ground (arith, e))) i)
      (λ batch e permanent s i.
        All-update (IsCounted o) (IsCounted o) (uuids batch) _ s.world.rows (λ r c. c)
          (λ r c m. fail_row-IsCounted o _ e permanent r c) i)
