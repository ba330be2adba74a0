-- ===== src/Ingest/Newest.antt =====
-- The table of latest readings never goes back in time.
use hawklive.Prelude.{
  ℕ, suc, ◌≤◌, ◌<◌, Bool, true, false, List, [], ◌∷◌, ◌≡◌, refl, subst, sym, inl, inr, arith, leb,
  if◌then◌else◌, if-both, Bool-cases,
}
use hawklive.Ingest.Tables.{Latest}
use hawklive.Ingest.Upload.{same_key, upsert_latest}

replaced :
    (bx bl by : Bool) (mx ml my old : ℕ)
    → by ≡ bx
    → bx ≡ bl
    → mx ≤ my
    → ml ≤ my
    → ((if bx then suc mx else old) ≤ (if by then suc my else old))
      × (bl ≡ true → ml < (if by then suc my else old))
replaced bx bl by mx ml my old h h' below below' = (ground arith, λ e. ground arith)

passed :
    (bx bl : Bool) (mx ml old new : ℕ)
    → (bl ≡ true → bx ≡ false)
    → old ≤ new
    → (bl ≡ true → ml < new)
    → ((if bx then suc mx else old) ≤ (if bx then suc mx else new))
      × (bl ≡ true → ml < (if bx then suc mx else new))
passed true bl mx ml old new apart more less = (omega arith, λ e. absurd (ground (arith, apart e)))
passed false bl mx ml old new apart more less = (more, less)

module _ {V : Type 0} where
  -- One more than the time of the row for that device, or zero without a row.
  abbrev pub newest : Latest V → List (Latest V) → ℕ
  newest k [] = 0
  newest k (x ∷ xs) = if same_key x k then suc x.measured_at else newest k xs

  -- The row that an upsert leaves in place of a row of the same device.
  abbrev later_row : Latest V → Latest V → Latest V
  later_row l x = if leb x.measured_at l.measured_at then l else x

  later_row-newer :
      (l x : Latest V)
      → (x.measured_at ≤ (later_row l x).measured_at)
        × (l.measured_at ≤ (later_row l x).measured_at)
  later_row-newer l x = elim (Bool-cases (leb x.measured_at l.measured_at)) [
    | inl e ↦ (ground (arith, e), ground (arith, e))
    | inr e ↦ (ground (arith, e), ground (arith, e))
  ]

  same_key_trans : (x l k : Latest V) → same_key x l ≡ true → same_key x k ≡ same_key l k
  same_key_trans x l k h = ground (arith, h)

  same_key_apart :
      (x l k : Latest V) → same_key x l ≡ false → same_key l k ≡ true → same_key x k ≡ false
  same_key_apart x l k h h' = ground (arith, h, h')

  later_row-key :
      (l x k : Latest V) → same_key x l ≡ true → same_key (later_row l x) k ≡ same_key x k
  later_row-key l x k h =
      if-both (λ y. same_key y k ≡ same_key x k) (leb x.measured_at l.measured_at) {a = l} {b = x}
        (sym (same_key_trans x l k h)) refl

  -- What an upsert does to the newest row of a device.
  abbrev pub Newer : Latest V → Latest V → List (Latest V) → List (Latest V) → Type 0
  Newer l k ls ls' =
      (newest k ls ≤ newest k ls') × (same_key l k ≡ true → l.measured_at < newest k ls')

  pub upsert_latest-Newer :
      (l k : Latest V) (ls : List (Latest V)) → Newer l k ls (upsert_latest l ls)
  unfolding upsert_latest
  upsert_latest-Newer l k [] = (
    omega arith,
    λ h. subst (λ b. l.measured_at < (if b then suc l.measured_at else 0)) (sym h) (omega arith),
  )
  upsert_latest-Newer l k (x ∷ xs) =
      let rest = upsert_latest l xs in
      let Good : Bool → Type 0 =
        λ b. Newer l k (x ∷ xs) (if b then later_row l x ∷ xs else x ∷ rest) in
      let ih = upsert_latest-Newer l k xs in
      let newer = later_row-newer l x in
      elim (Bool-cases (same_key x l)) [
        | inl e ↦ subst Good (sym e) (
            replaced (same_key x k) (same_key l k) (same_key (later_row l x) k) x.measured_at
              l.measured_at (later_row l x).measured_at (newest k xs) (later_row-key l x k e)
              (same_key_trans x l k e) newer.0 newer.1)
        | inr e ↦ subst Good (sym e) (
            passed (same_key x k) (same_key l k) x.measured_at l.measured_at (newest k xs)
              (newest k rest) (same_key_apart x l k e) ih.0 ih.1)
      ]
