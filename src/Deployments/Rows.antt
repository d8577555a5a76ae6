-- ===== src/Deployments/Rows.antt =====
-- The rows of `deployments` that api/app/services/device_updates.py reads by id and rewrites.
use edgewatch_telemetry.Prelude.{
  ℕ, ◌≤◌, ◌≡◌, refl, sym, ◌∙◌, ap, Option, none, some, List, [], ◌∷◌, ◌++◌, map, arith, ◌==◌, true,
  ==_iff, Bool-cases, inl, inr, if◌then◌else◌,
}
use mathlib.Core.Path.{subst}
use edgewatch_telemetry.Deployments.{DeploymentStatus, Deployment}
use edgewatch_telemetry.Prelude.{find}
use edgewatch_telemetry.Deployments.Statuses.{Kind, Changes, trans-Changes}

-- the row of an id
abbrev pub row_of : {F : Type 0} → ℕ → List (Deployment F) → Option (Deployment F)
row_of k rows = find (λ d. d.id == k) rows

-- The row of `k` is there, its status is `s` or one change of the kind from it, and it is at the
-- stage `n` or later.
abbrev pub At : {F : Type 0} → ℕ → Kind → DeploymentStatus → ℕ → List (Deployment F) → Type 0
At {F} k kind s n rows =
    (d : Deployment F) × (row_of k rows ≡ some d) × Changes kind s d.status × (n ≤ d.stage)

module _ {F : Type 0} where
  abbrev pub replace : Deployment F → List (Deployment F) → List (Deployment F)
  replace d rows = map (λ e. if e.id == d.id then d else e) rows

  row_of-replace :
      (k : ℕ) (d e : Deployment F) (rows : List (Deployment F))
      → row_of k rows ≡ some e
      → row_of k (replace d rows) ≡ some (if d.id == k then d else e)
  row_of-replace k d e [] h = ground arith
  row_of-replace k d e (x ∷ rows) h = ground (arith, row_of-replace k d e rows)

  pub row_of-replace_own :
      (d e : Deployment F) (rows : List (Deployment F))
      → row_of d.id rows ≡ some e
      → row_of d.id (replace d rows) ≡ some d
  row_of-replace_own d e rows h =
      subst (λ b. row_of d.id (replace d rows) ≡ some (if b then d else e))
        ((==_iff d.id d.id).1 refl) (row_of-replace d.id d e rows h)

  row_of-append :
      (k : ℕ) (d e : Deployment F) (rows : List (Deployment F))
      → row_of k rows ≡ some e
      → row_of k (rows ++ d ∷ []) ≡ some e
  row_of-append k d e [] h = ground arith
  row_of-append k d e (x ∷ rows) h = ground (arith, row_of-append k d e rows)

  pub row_of-id :
      (k : ℕ) (d : Deployment F) (rows : List (Deployment F)) → row_of k rows ≡ some d → d.id ≡ k
  row_of-id k d [] h = ground arith
  row_of-id k d (x ∷ rows) h = ground (arith, row_of-id k d rows)

  row_of_same :
      (old e : Deployment F) (o : Option (Deployment F)) → o ≡ some old → o ≡ some e → old ≡ e
  row_of_same old e o f g = ap (λ x. elim x [ some d ↦ d | none ↦ old ]) (sym f ∙ g)

  -- the rewrite of a row that keeps its id, and moves it on
  pub At-replace :
      (k n : ℕ) (kind : Kind) (s : DeploymentStatus) (old d : Deployment F)
      (rows : List (Deployment F))
      → row_of d.id rows ≡ some old
      → ((d.id == k) ≡ true → Changes kind old.status d.status)
      → old.stage ≤ d.stage
      → At k kind s n rows
      → At k kind s n (replace d rows)
  At-replace k n kind s old d rows found moved later (e, there, reached, low) =
      let replaced = row_of-replace k d e rows there in
      elim (Bool-cases (d.id == k)) [
        | inl own ↦
            let same : old ≡ e =
              row_of_same old e (row_of k rows)
                (subst (λ j. row_of j rows ≡ some old) ((==_iff d.id k).0 own) found) there in
            (
              d,
              subst (λ b. row_of k (replace d rows) ≡ some (if b then d else e)) own replaced,
              trans-Changes reached (subst (λ x. Changes kind x.status d.status) same (moved own)),
              omega (arith, low, later, ap (λ x. x.stage) same),
            )
        | inr other ↦ (
          e,
          subst (λ b. row_of k (replace d rows) ≡ some (if b then d else e)) other replaced,
          reached,
          low,
        )
      ]

  pub At-append :
      (k n : ℕ) (kind : Kind) (s : DeploymentStatus) (d : Deployment F) (rows : List (Deployment F))
      → At k kind s n rows
      → At k kind s n (rows ++ d ∷ [])
  At-append k n kind s d rows (e, there, reached, low) =
      (e, row_of-append k d e rows there, reached, low)
