-- ===== src/Ingest/Events.antt =====
-- What uploads leave of an alarm event once it is in the cloud.
use hawklive.Prelude.{
  ℕ, Bool, true, false, not, ◌&&◌, Option, none, some, List, [], ◌∷◌, ◌++◌, ◌≡◌, refl, subst, sym,
  ap, ◌∙◌, arith, if-both, Result, ok, err, ◌>>=◌, ◌==◌, if◌then◌else◌,
}
use hawklive.Email.Tables.{Event, Cloud, select, device_email_suppressed}
use hawklive.Email.Enqueue.{enqueue_alarm}
use hawklive.Ingest.Tables.{Identity, Assignment, Names}
use hawklive.Ingest.Alarms.{
  AlarmEventIn, coalesce, same_owner, new_event, merged, merge_into, write_event, with_events,
  ingest_alarm,
}

coalesce-keeps : (o new : Option ℕ) (t : ℕ) → o ≡ some t → coalesce o new ≡ some t
coalesce-keeps none new t h = absurd (ground (arith, h))
coalesce-keeps (some s) new t h = h

some-injective : {A : Type 0} (a b : A) → some a ≡ some b → a ≡ b
some-injective a b h = ground (arith, h)

module _ {V : Type 0} where
  -- What stays of an event: whose it is, what began it, and its end once it has one.
  pub record IsKept (e e' : Event V) : Type 0 where
    pub customer : e'.customer_id ≡ e.customer_id
    pub site : e'.site_id ≡ e.site_id
    pub cleanroom : e'.cleanroom_id ≡ e.cleanroom_id
    pub device : e'.device_id ≡ e.device_id
    pub metric : e'.metric ≡ e.metric
    pub start : e'.started_at ≡ e.started_at
    pub end_time : (t : ℕ) → e.ended_at ≡ some t → e'.ended_at ≡ some t

  abbrev pub event_of : ℕ → List (Event V) → Option (Event V)
  event_of u = select (λ e. e.event_uuid == u)

  -- Every event of the first table is in the second, with what stays of it.
  abbrev pub Extends : List (Event V) → List (Event V) → Type 0
  Extends es es' =
      (u : ℕ) (e : Event V)
      → event_of u es ≡ some e
      → (e' : Event V) × (event_of u es' ≡ some e') × IsKept e e'

  IsKept-refl : (e : Event V) → IsKept e e
  IsKept-refl e = record {
    customer = refl;
    site = refl;
    cleanroom = refl;
    device = refl;
    metric = refl;
    start = refl;
    end_time = λ t h. h;
  }

  IsKept-trans : (a b c : Event V) → IsKept a b → IsKept b c → IsKept a c
  IsKept-trans a b c f g = record {
    customer = g.customer ∙ f.customer;
    site = g.site ∙ f.site;
    cleanroom = g.cleanroom ∙ f.cleanroom;
    device = g.device ∙ f.device;
    metric = g.metric ∙ f.metric;
    start = g.start ∙ f.start;
    end_time = λ t h. g.end_time t (f.end_time t h);
  }

  merged-IsKept : (item : AlarmEventIn V) (e : Event V) → IsKept e (merged item e)
  merged-IsKept item e = record {
    customer = refl;
    site = refl;
    cleanroom = refl;
    device = refl;
    metric = refl;
    start = refl;
    end_time = coalesce-keeps e.ended_at item.ended_at;
  }

  pub Extends-refl : (es : List (Event V)) → Extends es es
  Extends-refl es u e h = (e, h, IsKept-refl e)

  pub Extends-trans : (a b c : List (Event V)) → Extends a b → Extends b c → Extends a c
  Extends-trans a b c f g u e h =
      let (e', h', k) = f u e h in
      let (e'', h'', k') = g u e' h' in (e'', h'', IsKept-trans e e' e'' k k')

  -- The event is found, with what stays of it.
  abbrev Found : Option (Event V) → Event V → Type 0
  Found o e = (e' : Event V) × (o ≡ some e') × IsKept e e'

  pick :
      (b b' : Bool) (x x' e : Event V) (o o' : Option (Event V))
      → b' ≡ b
      → IsKept x x'
      → (if b then some x else o) ≡ some e
      → (o ≡ some e → Found o' e)
      → Found (if b' then some x' else o') e
  pick true true x x' e o o' c k h rest =
      (x', refl, subst (λ y. IsKept y x') (some-injective x e h) k)
  pick true false x x' e o o' c k h rest = absurd (ground (arith, c))
  pick false true x x' e o o' c k h rest = absurd (ground (arith, c))
  pick false false x x' e o o' c k h rest = rest h

  cons-Extends :
      (x x' : Event V) (xs xs' : List (Event V))
      → x'.event_uuid ≡ x.event_uuid
      → IsKept x x'
      → Extends xs xs'
      → Extends (x ∷ xs) (x' ∷ xs')
  cons-Extends x x' xs xs' same k rest u e h =
      pick (x.event_uuid == u) (x'.event_uuid == u) x x' e (event_of u xs) (event_of u xs')
        (ap (λ v. v == u) same) k h (rest u e)

  append-Extends : (es : List (Event V)) (new : Event V) → Extends es (es ++ (new ∷ []))
  append-Extends [] new = λ u e h. absurd (ground (arith, h))
  append-Extends (x ∷ xs) new =
      cons-Extends x x xs (xs ++ (new ∷ [])) refl (IsKept-refl x) (append-Extends xs new)

  merge_into-Extends :
      (item : AlarmEventIn V) (es : List (Event V)) → Extends es (merge_into item es)
  unfolding merge_into
  merge_into-Extends item [] = λ u e h. absurd (ground (arith, h))
  merge_into-Extends item (x ∷ xs) =
      let b = x.event_uuid == item.event_uuid in
      cons-Extends x (if b then merged item x else x) xs (merge_into item xs)
        (if-both (λ (y : Event V). y.event_uuid ≡ x.event_uuid) b {a = merged item x} {b = x} refl
          refl)
        (if-both (IsKept x) b (merged-IsKept item x) (IsKept-refl x)) (merge_into-Extends item xs)

  -- What an accepted item leaves; a refused one leaves nothing.
  abbrev Written : List (Event V) → Result ℕ (List (Event V)) → Type 0
  Written es (ok es') = Extends es es'
  Written es (err e) = Unit

  write_event-Written :
      (id : Identity) (item : AlarmEventIn V) (o : Option (Event V)) (es : List (Event V))
      → Written es (write_event id item o es)
  write_event-Written id item none es = append-Extends es (new_event id item)
  write_event-Written id item (some e) es =
      if-both (Written es) (same_owner id item e) (merge_into-Extends item es) tt

  abbrev pub Stays : Cloud V → Result ℕ (Cloud V) → Type 0
  Stays db (ok db') = Extends db.events db'.events
  Stays db (err e) = Unit

  enqueued :
      (now : ℕ) (uuid : ℕ → ℕ) (customer event : ℕ) (db : Cloud V)
      → (enqueue_alarm now uuid customer event db).events ≡ db.events
  unfolding enqueue_alarm
  enqueued now uuid customer event db =
      if-both (λ (d : Cloud V). d.events ≡ db.events)
        (device_email_suppressed now customer event db) {a = db} refl refl

  handed-Stays :
      (now : ℕ) (uuid : ℕ → ℕ) (customer event : ℕ) (db : Cloud V) (m : Result ℕ (List (Event V)))
      → Written db.events m
      → Stays db (m >>= λ es. ok (enqueue_alarm now uuid customer event (with_events db es)))
  handed-Stays now uuid customer event db (err e) w = tt
  handed-Stays now uuid customer event db (ok es) w =
      subst (Extends db.events) (sym (enqueued now uuid customer event (with_events db es))) w

  named-Stays :
      (now : ℕ) (uuid : ℕ → ℕ) (id : Identity) (item : AlarmEventIn V) (db : Cloud V)
      (a : Result ℕ Names)
      → Stays db (
          a >>= λ names.
          write_event id item (select (λ e. e.event_uuid == item.event_uuid) db.events) db.events
          >>= λ es. ok (enqueue_alarm now uuid id.customer_id item.event_uuid (with_events db es)))
  named-Stays now uuid id item db (err e) = tt
  named-Stays now uuid id item db (ok names) =
      handed-Stays now uuid id.customer_id item.event_uuid db _ (
        write_event-Written id item (select (λ e. e.event_uuid == item.event_uuid) db.events)
          db.events)

  pub item-Stays :
      (now : ℕ) (uuid : ℕ → ℕ) (id : Identity) (ps : List Assignment) (item : AlarmEventIn V)
      (db : Cloud V)
      → Stays db (ingest_alarm now uuid id ps item db)
  unfolding ingest_alarm
  item-Stays now uuid id ps item db =
      if-both (Stays db) (not (item.site_id == id.site_id && item.customer_id == id.customer_id)) tt
        (named-Stays now uuid id item db _)
