-- ===== src/Sync/Revision.antt =====
-- The revision that a collector says it has applied is the one that its database has.
use hawklive.Prelude.{
  ℕ, Bool, true, false, Option, none, some, ◌≡◌, refl, subst, sym, ap, ◌∙◌, inl, inr, arith,
  Bool-cases, Result, ok, err, if◌then◌else◌,
}
use hawklive.Prelude.Effects.{Effect, after, ◌>>=◌, ensure}
use hawklive.Email.Tables.{is_some, same}
use hawklive.Sync.Status.{Error}
use hawklive.Sync.Config.{
  applied, Payload, Node, Remote, noted, save_revision, conclude_apply, run_applier, unchanged,
  apply_configuration_payload, ask, the,
}

module _ {W : Type 0} (Safe : Type 0) (Has : ℕ → W → Type 0) where
  -- The database has the revision in memory, which is the one kept over a restart if no write of that
  -- raises, and the configuration shows as applied only if there is one.
  pub record IsCurrent (s : Node W) : Type 0 where
    pub kept : Safe → s.last_config_revision ≡ s.saved_revision
    pub there : (r : ℕ) → s.last_config_revision ≡ some r → Has r s.world
    pub shown : s.config_apply_status ≡ applied → is_some s.last_config_revision ≡ true

-- No write of the revision that is kept raises.
abbrev pub IsSaving : {R W : Type 0} → Remote R W → Type 0
IsSaving {R} {W} remote = (r : ℕ) (w : W) → remote.save r w ≡ none

-- What the applier and the cloud do with the database of the collector: an applied configuration is
-- there with its revision, a failed one leaves what was there, and so does a request.
pub record IsApplying {R W : Type 0} (remote : Remote R W) (Has : ℕ → W → Type 0) : Type 0 where
  pub asked : (r : ℕ) (w : W) → Has r w → Has r (remote.request w).1
  pub done :
      (apply : Payload R → W → Result Error Unit × W) (d : Payload R) (r : ℕ) (w : W)
      → remote.applier ≡ some apply
      → d.revision ≡ some r
      → (apply d w).0 ≡ ok tt
      → Has r (apply d w).1
  pub undone :
      (apply : Payload R → W → Result Error Unit × W) (d : Payload R) (r : ℕ) (w : W) (e : Error)
      → remote.applier ≡ some apply
      → (apply d w).0 ≡ err e
      → Has r w
      → Has r (apply d w).1

same-is_some : (o : Option ℕ) (r : ℕ) → same o r ≡ true → is_some o ≡ true
same-is_some none r h = h
same-is_some (some _) r h = refl

module _ {S : Type 0} (I : S → Type 0) where
  abbrev pub Keeps : {A : Type 0} → Effect S Error A → Type 0
  Keeps m = (s : S) → I s → I (m s).1

  pub bind-Keeps :
      {A B : Type 0} (m : Effect S Error A) (f : A → Effect S Error B)
      → Keeps m
      → ((a : A) → Keeps (f a))
      → Keeps (m >>= f)
  bind-Keeps m f first rest s i = after_keeps (m s).0 (m s).1 (first s i)
    where
      after_keeps : (r : Result Error _) (t : S) → I t → I (after r f t).1
      after_keeps (ok a) t j = rest a t j
      after_keeps (err e) t j = j

  pub ensure-Keeps : (b : Bool) (e : Error) → Keeps (ensure b e)
  ensure-Keeps true e s i = i
  ensure-Keeps false e s i = i

  pub the-Keeps :
      {B : Type 0} (o : Option ℕ) (f : ℕ → Effect S Error B)
      → ((n : ℕ) → o ≡ some n → Keeps (f n))
      → Keeps (the o >>= f)
  the-Keeps none f h s i = i
  the-Keeps (some n) f h s i = h n refl s i

module _ {R W : Type 0} (remote : Remote R W) (Has : ℕ → W → Type 0)
    (law : IsApplying remote Has) where
  abbrev I : Node W → Type 0
  I = IsCurrent (IsSaving remote) Has

  save_revision-IsCurrent :
      (r : ℕ) (o : Option Error) (w : W) (s : Node W)
      → remote.save r w ≡ o
      → ((q : ℕ) → some r ≡ some q → Has q w)
      → I (save_revision r o (record s { world = w; last_config_revision = some r })).1
  save_revision-IsCurrent r none w s e has = record {
    kept = λ _. refl;
    there = has;
    shown = λ h. refl;
  }
  save_revision-IsCurrent r (some x) w s e has = record {
    kept = λ safe. cc (e, safe r w);
    there = has;
    shown = λ h. refl;
  }

  conclude-IsCurrent :
      (apply : Payload R → W → Result Error Unit × W) (d : Payload R) (r : ℕ) (s : Node W)
      (p : Result Error Unit × W)
      → remote.applier ≡ some apply
      → d.revision ≡ some r
      → apply d s.world ≡ p
      → I s
      → I (conclude_apply remote.save r s p).1
  conclude-IsCurrent apply d r s (ok u, w) there at done i =
      let here : (apply d s.world).0 ≡ ok tt = ap (λ q. q.0) done in
      let world : (apply d s.world).1 ≡ w = ap (λ q. q.1) done in
      save_revision-IsCurrent r (remote.save r w) w s refl
        (λ q e. subst (λ v. Has q v) world (law.done apply d q s.world there (at ∙ e) here))
  conclude-IsCurrent apply d r s (err e, w) there at done i =
      let here : (apply d s.world).0 ≡ err e = ap (λ q. q.0) done in
      let world : (apply d s.world).1 ≡ w = ap (λ q. q.1) done in
      record {
        kept = i.kept;
        there = λ q h.
            subst (λ v. Has q v) world (law.undone apply d q s.world e there here (i.there q h));
        shown = λ h. absurd (ground (arith, h));
      }

  run-IsCurrent :
      (a : Option (Payload R → W → Result Error Unit × W)) (d : Payload R) (r : ℕ) (s : Node W)
      → remote.applier ≡ a
      → d.revision ≡ some r
      → I s
      → I (run_applier remote a d r s).1
  run-IsCurrent none d r s there at i = record {
    kept = i.kept;
    there = i.there;
    shown = λ h. absurd (ground (arith, h));
  }
  run-IsCurrent (some apply) d r s there at i = conclude-IsCurrent apply d r s _ there at refl i

  pub apply-IsCurrent :
      (d : Payload R) (r : ℕ)
      → d.revision ≡ some r
      → Keeps I (apply_configuration_payload remote d r)
  unfolding apply_configuration_payload
  apply-IsCurrent d r at s i =
      let t = noted d r s in
      let Good : Bool → Type 0 =
        λ b. I (if b then unchanged t else run_applier remote remote.applier d r t).1 in
      elim (Bool-cases (same s.last_config_revision r)) [
        | inl e ↦ subst Good (sym e) (record {
          kept = i.kept;
          there = i.there;
          shown = λ _. same-is_some s.last_config_revision r e;
        })
        | inr e ↦ subst Good (sym e) (
            run-IsCurrent remote.applier d r t refl at
              (record { kept = i.kept; there = i.there; shown = i.shown }))
      ]

  pub ask-IsCurrent :
      (other : Remote R W)
      → ((r : ℕ) (w : W) → Has r w → Has r (other.request w).1)
      → Keeps I (ask other)
  ask-IsCurrent other h s i = record {
    kept = i.kept;
    there = λ r e. h r s.world (i.there r e);
    shown = i.shown;
  }

  -- Writing what the invariant does not look at.
  pub same-IsCurrent :
      (s t : Node W)
      → t.last_config_revision ≡ s.last_config_revision
      → t.saved_revision ≡ s.saved_revision
      → t.config_apply_status ≡ s.config_apply_status
      → t.world ≡ s.world
      → I s
      → I t
  same-IsCurrent s t l k a w i = record {
    kept = λ safe. l ∙ i.kept safe ∙ sym k;
    there = λ r e. subst (λ v. Has r v) (sym w) (i.there r (sym l ∙ e));
    shown = λ e. ap is_some l ∙ i.shown (sym a ∙ e);
  }
