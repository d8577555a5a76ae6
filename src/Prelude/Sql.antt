-- ===== src/Prelude/Sql.antt =====
-- What the services use of a SQL database through SQLAlchemy. A table is the list of its rows.
-- Filters, counts and updates are written out by the services; the order of rows that an ORDER BY
-- leaves equal is the database's own, so picking a first row is a parameter.
use Prim.Native.Nat.{ℕ, ◌≤◌}
use mathlib.Core.Bool.{Bool}
use edgewatch_telemetry.Prelude.Lists.{count, Contains}
use mathlib.Core.Path.{◌≡◌}
use mathlib.Core.Option.{Option, none, some}
use mathlib.Core.List.{List, [], ◌∷◌}

abbrev pub AllRows : {A : Type 0} → (A → Type 0) → List A → Type 0
AllRows P [] = Unit
AllRows P (x ∷ xs) = P x × AllRows P xs

abbrev pub IsSortedBy : {A : Type 0} → (A → ℕ) → List A → Type 0
IsSortedBy key [] = Unit
IsSortedBy key (x ∷ xs) = AllRows (λ b. key x ≤ key b) xs × IsSortedBy key xs

pub record Sql : Type 1 where
  -- `query.order_by(key.desc()).first()` on the rows that the query's filters leave
  pub newest : (A : Type 0) → (A → ℕ) → List A → Option A
  pub newest_nil : (A : Type 0) (key : A → ℕ) → newest A key [] ≡ none
  -- a row is found, and none has a greater key
  pub newest_cons :
      (A : Type 0) (key : A → ℕ) (x : A) (xs : List A)
      → (a : A) × (newest A key (x ∷ xs) ≡ some a)
        × Contains a (x ∷ xs)
        × AllRows (λ b. key b ≤ key a) (x ∷ xs)
  -- `query.order_by(key.asc()).all()`
  pub oldest_first : (A : Type 0) → (A → ℕ) → List A → List A
  -- the same rows, as often
  pub oldest_first_count :
      (A : Type 0) (key : A → ℕ) (p : A → Bool) (xs : List A)
      → count p (oldest_first A key xs) ≡ count p xs
  pub oldest_first_sorted :
      (A : Type 0) (key : A → ℕ) (xs : List A) → IsSortedBy key (oldest_first A key xs)
