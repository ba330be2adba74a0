-- ===== src/Ingest/Exclusion.antt =====
-- One instance of a collector holds a site.
use hawklive.Prelude.{
  ℕ, ◌+◌, ◌≤◌, Bool, true, false, not, ◌&&◌, ◌||◌, Option, none, some, List, [], ◌∷◌, ◌≡◌, refl,
  subst, sym, ◌∙◌, inl, inr, arith, Result, ok, err, ◌==◌, ltb, if◌then◌else◌, if-both, Bool-cases,
  any, map, count_where,
}
use hawklive.Email.Tables.{option_or}
use hawklive.Ingest.Lease.{
  EdgeToken, Site, Nodes, Request, Holder, is_free, hold, granted, take_lease, with_token,
  with_bearer, edge_identity,
}

abbrev held : ℕ → ℕ → EdgeToken → Site → Site
held now instance t s = if is_free now instance t s then hold now instance s else s

only : (a : Bool) {b : Bool} → b ≡ false → (a || b) ≡ true → a ≡ true
only true h h' = refl
only false h h' = absurd (ground (arith, h, h'))

rest : (a : Bool) {b : Bool} → a ≡ false → (a || b) ≡ true → b ≡ true
rest true h h' = absurd (ground (arith, h))
rest false h h' = h'

and_left : (a b c d : Bool) → a ≡ false → (a && b && c && d) ≡ false
and_left true b c d h = absurd (ground (arith, h))
and_left false b c d h = refl

any-none :
    (p q : Site → Bool) (ss : List Site)
    → ((s : Site) → q s ≡ false → p s ≡ false)
    → count_where q ss ≡ 0
    → any p ss ≡ false
any-none p q [] imp h = refl
any-none p q (s ∷ ss) imp h = elim (Bool-cases (q s)) [
  | inl e ↦ absurd (ground (arith, e, h))
  | inr e ↦
      let rest = any-none p q ss imp (ground (arith, e, h)) in
      subst (λ b. (b || any p ss) ≡ false) (sym (imp s e)) rest
]

-- What an answer of edge_identity says: a free site was found and is held now.
abbrev Leased : ℕ → Nodes → Result ℕ Holder × Nodes → Type 0
Leased now db (err e, db') = Unit
Leased now db (ok h, db') =
    (t : EdgeToken) × (t.site_id ≡ h.identity.site_id)
    × (any (is_free now h.instance_id t) db.sites ≡ true)
    × (db'.sites ≡ map (held now h.instance_id t) db.sites)

take_lease-Leased :
    (now instance : ℕ) (t : EdgeToken) (db : Nodes) → Leased now db (take_lease now instance t db)
take_lease-Leased now instance t db = elim (Bool-cases (any (is_free now instance t) db.sites)) [
  | inl e ↦
      subst (λ b. Leased now db (if b then granted now instance t db else (err 409, db))) (sym e)
        (t, refl, e, refl)
  | inr e ↦
      subst (λ b. Leased now db (if b then granted now instance t db else (err 409, db))) (sym e) tt
]

with_token-Leased :
    (now instance : ℕ) (o : Option EdgeToken) (db : Nodes)
    → Leased now db (with_token now instance o db)
with_token-Leased now instance none db = tt
with_token-Leased now instance (some t) db = take_lease-Leased now instance t db

edge_identity-Leased :
    (digest legacy : ℕ → ℕ) (well_formed : ℕ → Bool) (now : ℕ) (r : Request) (db : Nodes)
    → Leased now db (edge_identity digest legacy well_formed now r db)
unfolding edge_identity
edge_identity-Leased digest legacy well_formed now r db = bearer r.bearer
  where
    bearer :
        (raw : Option ℕ)
        → Leased now db (with_bearer digest legacy well_formed now raw r.instance_id db)
    bearer none = tt
    bearer (some raw) =
        let instance = option_or (legacy (digest raw)) r.instance_id in
        if-both (Leased now db) (not (well_formed instance)) tt
          (with_token-Leased now instance _ db)

module _ (now later instance other : ℕ) (t u : EdgeToken) (same : u.site_id ≡ t.site_id)
    (soon : later ≤ now + 90) where
  free_elsewhere :
      (at i : ℕ) (v : EdgeToken) (s : Site)
      → v.site_id ≡ t.site_id
      → (s.id == t.site_id) ≡ false
      → is_free at i v s ≡ false
  unfolding is_free
  free_elsewhere at i v s here e =
      and_left (s.id == v.site_id) _ _ _ (subst (λ site. (s.id == site) ≡ false) (sym here) e)

  held-id : (s : Site) → (held now instance t s).id ≡ s.id
  held-id s =
      if-both (λ x. x.id ≡ s.id) (is_free now instance t s) {a = hold now instance s} {b = s} refl
        refl

  holder_same :
      (at : ℕ) (a b c : Bool)
      → (a && b && c && ((instance == other) || ltb (now + 90) later)) ≡ true
      → other ≡ instance
  holder_same at a b c h = ground (arith, h, soon)

  elsewhere :
      (s : Site)
      → (s.id == t.site_id) ≡ false
      → is_free later other u (held now instance t s) ≡ false
  elsewhere s e =
      free_elsewhere later other u (held now instance t s) same
        (subst (λ i. (i == t.site_id) ≡ false) (sym (held-id s)) e)

  held-same :
      (s : Site)
      → is_free now instance t s ≡ true
      → is_free later other u (held now instance t s) ≡ true
      → other ≡ instance
  unfolding is_free
  held-same s free again =
      let taken : is_free later other u (hold now instance s) ≡ true =
        subst (λ b. is_free later other u (if b then hold now instance s else s) ≡ true) free
          again in
      holder_same later (s.id == u.site_id) (s.customer_id == u.customer_id) (not s.retired) taken

  map-none :
      (ss : List Site)
      → count_where (λ s. s.id == t.site_id) ss ≡ 0
      → any (is_free later other u) (map (held now instance t) ss) ≡ false
  map-none [] h = refl
  map-none (s ∷ ss) h = elim (Bool-cases (s.id == t.site_id)) [
    | inl e ↦ absurd (ground (arith, e, h))
    | inr e ↦
        subst (λ b. (b || any (is_free later other u) (map (held now instance t) ss)) ≡ false)
          (sym (elsewhere s e)) (map-none ss (ground (arith, e, h)))
  ]

  sites-same :
      (ss : List Site)
      → count_where (λ s. s.id == t.site_id) ss ≤ 1
      → any (is_free now instance t) ss ≡ true
      → any (is_free later other u) (map (held now instance t) ss) ≡ true
      → other ≡ instance
  sites-same [] one free again = absurd (ground (arith, free))
  sites-same (s ∷ ss) one free again = elim (Bool-cases (s.id == t.site_id)) [
    | inl e ↦
        let others : count_where (λ x. x.id == t.site_id) ss ≡ 0 = ground (arith, e, one) in
        held-same s
          (only (is_free now instance t s)
            (any-none (is_free now instance t) (λ x. x.id == t.site_id) ss
              (λ x f. free_elsewhere now instance t x refl f) others)
            free)
          (only (is_free later other u (held now instance t s)) (map-none ss others) again)
    | inr e ↦
        sites-same ss (ground (arith, e, one))
          (rest (is_free now instance t s) (free_elsewhere now instance t s refl e) free)
          (rest (is_free later other u (held now instance t s)) (elsewhere s e) again)
  ]

-- Of two requests after each other within 90 seconds that are let in for the same site, both come from
-- the same instance, where the id of a site is its own.
pub edge_identity-exclusive :
    (digest legacy : ℕ → ℕ) (well_formed : ℕ → Bool) (now later : ℕ) (r r' : Request) (db : Nodes)
    (h h' : Holder)
    → (edge_identity digest legacy well_formed now r db).0 ≡ ok h
    → (edge_identity digest legacy well_formed later r'
        (edge_identity digest legacy well_formed now r db).1).0
      ≡ ok h'
    → h'.identity.site_id ≡ h.identity.site_id
    → later ≤ now + 90
    → count_where (λ s. s.id == h.identity.site_id) db.sites ≤ 1
    → h'.instance_id ≡ h.instance_id
edge_identity-exclusive digest legacy well_formed now later r r' db h h' first second same soon
      one =
    let db' = (edge_identity digest legacy well_formed now r db).1 in
    let db'' = (edge_identity digest legacy well_formed later r' db').1 in
    let (t, site, free, left) =
      subst (λ a. Leased now db (a, db')) first
        (edge_identity-Leased digest legacy well_formed now r db) in
    let (u, site', free', left') =
      subst (λ a. Leased later db' (a, db'')) second
        (edge_identity-Leased digest legacy well_formed later r' db') in
    sites-same now later h.instance_id h'.instance_id t u (site' ∙ same ∙ sym site) soon db.sites
      (subst (λ i. count_where (λ s. s.id == i) db.sites ≤ 1) (sym site) one) free
      (subst (λ ss. any (is_free later h'.instance_id u) ss ≡ true) left free')
