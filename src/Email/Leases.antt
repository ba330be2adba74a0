-- ===== src/Email/Leases.antt =====
-- Claims and leases: which row a worker gets, and what a worker whose lease was taken over can do.
use hawklive.Prelude.{
  ℕ, ◌+◌, ◌≤◌, ◌≡◌, ◌≢◌, refl, sym, ap₂, subst, inl, inr, if-both, Bool-cases, Bool, true, false,
  not, ◌&&◌, ◌⊎◌, filter, ap, Option, none, some, List, [], ◌∷◌, arith, All, All-imply, any, leb,
  ◌==◌, if◌then◌else◌,
}
use hawklive.Email.Tables.{LastError, Notification, Cloud, is_pending, is_sending, update_where}
use hawklive.Email.Queue.{
  Job, Claim, nothing, skipped, claimed, due, earliest, pick, earlier, withdrawn, withdraw, give_up,
  lease, job_of, set_row, claim_row, claim_notification, finish_status, finish_row, held,
  finish_notification,
}

module _ {V : Type 0} where
  -- The first of the rows that pass a test, in the order of their times and ids.
  pub record Chosen (p : Notification V → Bool) (ns : List (Notification V)) (n : Notification V)
      : Type 0 where
    pub passes : p n ≡ true
    pub listed : any (λ m. m.id == n.id) ns ≡ true
    pub first : All (λ m. p m ≡ true → earlier m n ≡ false) ns

  abbrev Chosen? :
      (Notification V → Bool) → List (Notification V) → Option (Notification V) → Type 0
  Chosen? p ns none = All (λ m. p m ≡ false) ns
  Chosen? p ns (some n) = Chosen p ns n

  step-Chosen :
      (p : Notification V → Bool) (n : Notification V) (ns : List (Notification V))
      (r : Option (Notification V))
      → Chosen? p ns r
      → Chosen? p (n ∷ ns) (if p n then some (pick n r) else r)
  step-Chosen p n ns none h = elim (Bool-cases (p n)) [
    | inl e ↦
        subst (λ t. Chosen? p (n ∷ ns) (if t then some n else none)) (sym e)
          record {
            passes = e;
            listed = ground arith;
            first = (
              (λ _. ground arith),
              All-imply (λ m. p m ≡ false) _ ns (λ m f t. ground (arith, f, t)) h,
            );
          }
    | inr e ↦ subst (λ t. Chosen? p (n ∷ ns) (if t then some n else none)) (sym e) (e, h)
  ]
  step-Chosen p n ns (some m) h = elim (Bool-cases (p n)) [
    | inl e ↦
        subst (λ t. Chosen? p (n ∷ ns) (if t then some (pick n (some m)) else some m)) (sym e)
          (elim (Bool-cases (earlier m n)) [
            | inl l ↦
                subst (λ t. Chosen p (n ∷ ns) (if t then m else n)) (sym l)
                  record {
                    passes = h.passes;
                    listed = ground (arith, h.listed);
                    first = ((λ _. ground (arith, l)), h.first);
                  }
            | inr l ↦
                subst (λ t. Chosen p (n ∷ ns) (if t then m else n)) (sym l)
                  record {
                    passes = e;
                    listed = ground arith;
                    first = (
                      (λ _. ground arith),
                      All-imply _ _ ns (λ k f t. ground (arith, f t, l)) h.first,
                    );
                  }
          ])
    | inr e ↦
        subst (λ t. Chosen? p (n ∷ ns) (if t then some (pick n (some m)) else some m)) (sym e)
          record {
            passes = h.passes;
            listed = ground (arith, h.listed);
            first = ((λ t. ground (arith, e, t)), h.first);
          }
  ]

  earliest-Chosen :
      (p : Notification V → Bool) (ns : List (Notification V)) → Chosen? p ns (earliest p ns)
  unfolding earliest
  earliest-Chosen p [] = tt
  earliest-Chosen p (n ∷ ns) = step-Chosen p n ns (earliest p ns) (earliest-Chosen p ns)

  abbrev waiting : ℕ → (ℕ → Bool) → Notification V → Bool
  waiting now locked n = due now n && not (locked n.id)

  -- What a claimed row was, and what its worker holds.
  pub record Granted (now token : ℕ) (locked : ℕ → Bool) (db : Cloud V) (job : Job V)
      (db' : Cloud V) : Type 0 where
    pub row : Notification V
    pub chosen : Chosen (waiting now locked) db.notifications row
    pub job_of_row : job ≡ job_of token row
    pub wanted : withdrawn now job.customer_id job.kind job.recipient job.event_uuid db ≡ false
    pub bounded : job.attempts ≤ 5
    pub holds : any (held job) db'.notifications ≡ true

  -- The row is neither waiting nor sent from any more, and nobody holds it.
  abbrev pub IsOff : ℕ → Notification V → Type 0
  IsOff id m =
      (m.id == id) ≡ true
      → (is_pending m.status ≡ false) × (is_sending m.status ≡ false) × (m.claim_token ≡ none)

  abbrev pub others : ℕ → List (Notification V) → List (Notification V)
  others id ns = filter (λ m. not (m.id == id)) ns

  -- A row that was skipped: no longer wanted, or out of attempts, and off the queue from now on, where
  -- the other rows stay as they were.
  pub record Skipped (now : ℕ) (locked : ℕ → Bool) (db db' : Cloud V) : Type 0 where
    pub row : Notification V
    pub chosen : Chosen (waiting now locked) db.notifications row
    pub useless :
        (withdrawn now row.customer_id row.kind row.recipient row.event_uuid db ≡ true)
        ⊎ (5 ≤ row.attempts)
    pub off : All (IsOff row.id) db'.notifications
    pub rest : others row.id db'.notifications ≡ others row.id db.notifications

  set_row-IsOff :
      (id : ℕ) (f : Notification V → Notification V) (ns : List (Notification V))
      → ((m : Notification V) → (f m).id ≡ m.id)
      → ((m : Notification V) → IsOff id (f m))
      → All (IsOff id) (update_where (λ m. m.id == id) f ns)
        × (others id (update_where (λ m. m.id == id) f ns) ≡ others id ns)
  set_row-IsOff id f [] same_id off = (tt, refl)
  set_row-IsOff id f (m ∷ ms) same_id off =
      let rest = set_row-IsOff id f ms same_id off in
      elim (Bool-cases (m.id == id)) [
        | inl e ↦
            let e' : ((f m).id == id) ≡ true = ground (arith, e, same_id m) in
            rw e ((off m, rest.0), rw e' rest.1)
        | inr e ↦ rw e ((λ h. absurd (ground (arith, e, h)), rest.0), rw e (ap (λ l. m ∷ l) rest.1))
      ]

  -- What each outcome of a claim means.
  abbrev pub Outcome : ℕ → ℕ → (ℕ → Bool) → Cloud V → Claim V × Cloud V → Type 0
  Outcome now token locked db (nothing, db') =
      All (λ n. waiting now locked n ≡ false) db.notifications × (db' ≡ db)
  Outcome now token locked db (skipped, db') = Skipped now locked db db'
  Outcome now token locked db (claimed job, db') = Granted now token locked db job db'

  withdraw-IsOff : (b : Bool) (id : ℕ) (m : Notification V) → IsOff id (withdraw b m)
  withdraw-IsOff true id m h = (refl, refl, refl)
  withdraw-IsOff false id m h = (refl, refl, refl)

  any-held :
      (now token : ℕ) (n : Notification V) (ns : List (Notification V))
      → any (λ m. m.id == n.id) ns ≡ true
      → any
          (held (job_of token n))
          (update_where (λ m. m.id == n.id) (lease now token (n.attempts + 1)) ns)
        ≡ true
  any-held now token n [] h = h
  any-held now token n (m ∷ ns) h = ground (arith, h, any-held now token n ns)

  claim_row-Outcome :
      (now token : ℕ) (locked : ℕ → Bool) (db : Cloud V) (r : Option (Notification V))
      → Chosen? (waiting now locked) db.notifications r
      → Outcome now token locked db (claim_row now token db r)
  claim_row-Outcome now token locked db none h = (h, refl)
  claim_row-Outcome now token locked db (some n) h =
      let P = Outcome now token locked db in
      let w = withdrawn now n.customer_id n.kind n.recipient n.event_uuid db in
      let off : Claim V × Cloud V = (skipped, set_row n.id (withdraw (is_sending n.status)) db) in
      let over : Claim V × Cloud V = (skipped, set_row n.id give_up db) in
      let on : Claim V × Cloud V =
        (claimed (job_of token n), set_row n.id (lease now token (n.attempts + 1)) db) in
      elim (Bool-cases w) [
        | inl e ↦
            subst (λ t. P (if t then off else if leb 5 n.attempts then over else on)) (sym e)
              (let q =
                  set_row-IsOff n.id (withdraw (is_sending n.status)) db.notifications (λ _. refl)
                    (withdraw-IsOff (is_sending n.status) n.id) in
                record { row = n; chosen = h; useless = inl e; off = q.0; rest = q.1 })
        | inr e ↦
            subst (λ t. P (if t then off else if leb 5 n.attempts then over else on)) (sym e)
              (elim (Bool-cases (leb 5 n.attempts)) [
                | inl l ↦
                    subst (λ t. P (if t then over else on)) (sym l)
                      (let q =
                          set_row-IsOff n.id give_up db.notifications (λ _. refl)
                            (λ m h. (refl, refl, refl)) in
                        record {
                          row = n;
                          chosen = h;
                          useless = inr (ground (arith, l));
                          off = q.0;
                          rest = q.1;
                        })
                | inr l ↦
                    subst (λ t. P (if t then over else on)) (sym l)
                      record {
                        row = n;
                        chosen = h;
                        job_of_row = refl;
                        wanted = e;
                        bounded = ground (arith, l);
                        holds = any-held now token n db.notifications h.listed;
                      }
              ])
      ]

  -- A claim is empty only when no row is due that no other worker has locked, and then changes
  -- nothing. Otherwise it is about the earliest such row. Either that row is skipped: the policy, the
  -- event or the device no longer want it or it had five attempts, and it is neither pending nor
  -- sending from now on, the other rows as they were. Or a job is given out, which is still wanted, is
  -- at most the fifth attempt, and whose token holds a row.
  pub claim_notification-Outcome :
      (now token : ℕ) (locked : ℕ → Bool) (db : Cloud V)
      → Outcome now token locked db (claim_notification now token locked db)
  unfolding claim_notification
  claim_notification-Outcome now token locked db =
      claim_row-Outcome now token locked db _
        (earliest-Chosen (waiting now locked) db.notifications)

  none-held :
      (old : Job V) (now token id attempts : ℕ) (ns : List (Notification V))
      → old.id ≡ id
      → old.claim_token ≢ token
      → let ns' = update_where (λ m. m.id == id) (lease now token attempts) ns in
        All (λ n. held old n ≡ false) ns'
  none-held old now token id attempts [] e d = tt
  none-held old now token id attempts (n ∷ ns) e d =
      (ground (arith, e, d), none-held old now token id attempts ns e d)

  update-none :
      (p : Notification V → Bool) (f : Notification V → Notification V) (ns : List (Notification V))
      → All (λ n. p n ≡ false) ns
      → (any p ns ≡ false) × (update_where p f ns ≡ ns)
  update-none p f [] h = (refl, refl)
  update-none p f (n ∷ ns) h =
      (ground (arith, h.0, (update-none p f ns h.1).0), rw (h.0, (update-none p f ns h.1).1) refl)

  Takes : Cloud V → Job V → ℕ → Claim V × Cloud V → Type 0
  Takes db old token (nothing, db') = Unit
  Takes db old token (skipped, db') = Unit
  Takes db old token (claimed job, db') =
      old.id ≡ job.id → All (λ n. held old n ≡ false) db'.notifications

  claim_row-Takes :
      (now token : ℕ) (db : Cloud V) (old : Job V) (r : Option (Notification V))
      → old.claim_token ≢ token
      → Takes db old token (claim_row now token db r)
  unfolding Takes
  claim_row-Takes now token db old none d = tt
  claim_row-Takes now token db old (some n) d =
      if-both (Takes db old token) (withdrawn now n.customer_id n.kind n.recipient n.event_uuid db)
        {a = (skipped, set_row n.id (withdraw (is_sending n.status)) db)} tt
        (if-both (Takes db old token) (leb 5 n.attempts) {a = (skipped, set_row n.id give_up db)}
          {b = (claimed (job_of token n), set_row n.id (lease now token (n.attempts + 1)) db)} tt
          (λ e. none-held old now token n.id (n.attempts + 1) db.notifications e d))

  -- When another worker claimed the row of a job, with a token of its own, the worker that had the
  -- job before reports its end in vain: whatever the outcome of its send, it is told so, and the
  -- database is left as it was.
  pub finish_notification-taken_over :
      (now then_now token : ℕ) (locked : ℕ → Bool) (db db' : Cloud V) (old job : Job V)
      (error : Option LastError)
      → claim_notification now token locked db ≡ (claimed job, db')
      → old.id ≡ job.id
      → old.claim_token ≢ token
      → finish_notification then_now old error db' ≡ (false, db')
  unfolding claim_notification finish_notification Takes
  finish_notification-taken_over now then_now token locked db db' old job error e same_row d =
      let r = earliest (waiting now locked) db.notifications in
      let none_held =
        subst (Takes db old token) e (claim_row-Takes now token db old r d) same_row in
      let u =
        update-none (held old)
          (finish_row then_now old error (finish_status then_now old error db')) db'.notifications
          none_held in
      ap₂ (λ b ns. (b, record db' { notifications = ns })) u.0 u.1
