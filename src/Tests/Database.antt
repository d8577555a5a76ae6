-- ===== src/Tests/Database.antt =====
-- A database that sorts by insertion: among rows of equal keys the one added first comes first.
use mathlib.Core.Path.{subst, sym}
use edgewatch_telemetry.Prelude.{
  ℕ, ◌≤◌, ◌≡◌, refl, Bool, Option, none, some, List, [], ◌∷◌, arith, leb, count, Contains,
  Bool-cases, inl, inr, if◌then◌else◌,
}
use edgewatch_telemetry.Prelude.Sql.{Sql, AllRows, IsSortedBy}

module _ (A : Type 0) (key : A → ℕ) where
  -- the greater of two rows by key, the first if they are equal
  later : A → A → A
  later a b = if leb (key b) (key a) then a else b

  latest_from : A → List A → A
  latest_from a [] = a
  latest_from a (x ∷ xs) = latest_from (later a x) xs

  unfoldable pub newest : List A → Option A
  unfolding latest_from later
  newest [] = none
  newest (x ∷ xs) = some (latest_from x xs)

  unfoldable pub insert : A → List A → List A
  insert a [] = a ∷ []
  insert a (x ∷ xs) = let rest = insert a xs in if leb (key a) (key x) then a ∷ x ∷ xs else x ∷ rest

  unfoldable pub oldest_first : List A → List A
  unfolding insert
  oldest_first [] = []
  oldest_first (x ∷ xs) = insert x (oldest_first xs)

  later_bounds : (a x : A) → (key a ≤ key (later a x)) × (key x ≤ key (later a x))
  unfolding later
  later_bounds a x = elim (Bool-cases (leb (key x) (key a))) [
    | inl first ↦ rw first (omega arith, ground arith)
    | inr after ↦ rw after (ground arith, omega arith)
  ]

  later-Contains : (a x : A) (xs : List A) → Contains (later a x) (a ∷ x ∷ xs)
  unfolding later
  later-Contains a x xs = elim (Bool-cases (leb (key x) (key a))) [
    | inl first ↦ rw first (inl refl)
    | inr after ↦ rw after (inr (inl refl))
  ]

  -- what is found from the greater of two rows on is found from all
  widen : (r a x : A) (xs : List A) → Contains r (later a x ∷ xs) → Contains r (a ∷ x ∷ xs)
  widen r a x xs (inl e) = subst (λ b. Contains b (a ∷ x ∷ xs)) (sym e) (later-Contains a x xs)
  widen r a x xs (inr m) = inr (inr m)

  latest_from_lem :
      (a : A) (xs : List A)
      → Contains (latest_from a xs) (a ∷ xs)
        × AllRows (λ b. key b ≤ key (latest_from a xs)) (a ∷ xs)
  unfolding latest_from
  latest_from_lem a [] = (inl refl, (omega arith, tt))
  latest_from_lem a (x ∷ xs) =
      let (m, (top, rest)) = latest_from_lem (later a x) xs in
      (
        widen (latest_from (later a x) xs) a x xs m,
        (omega (arith, later_bounds a x), (omega (arith, later_bounds a x), rest)),
      )

  AllRows-le :
      (n m : ℕ) (xs : List A) → n ≤ m → AllRows (λ b. m ≤ key b) xs → AllRows (λ b. n ≤ key b) xs
  AllRows-le n m [] h all = tt
  AllRows-le n m (x ∷ xs) h all = (omega arith, AllRows-le n m xs h all.1)

  count-insert : (p : A → Bool) (a : A) (xs : List A) → count p (insert a xs) ≡ count p (a ∷ xs)
  unfolding insert
  count-insert p a [] = refl
  count-insert p a (x ∷ xs) = ground (arith, count-insert p a xs)

  AllRows-insert :
      (n : ℕ) (a : A) (xs : List A)
      → n ≤ key a
      → AllRows (λ b. n ≤ key b) xs
      → AllRows (λ b. n ≤ key b) (insert a xs)
  unfolding insert
  AllRows-insert n a [] h all = (h, tt)
  AllRows-insert n a (x ∷ xs) h all = elim (Bool-cases (leb (key a) (key x))) [
    | inl first ↦ rw first (h, all)
    | inr after ↦ rw after (all.0, AllRows-insert n a xs h all.1)
  ]

  insert-IsSortedBy : (a : A) (xs : List A) → IsSortedBy key xs → IsSortedBy key (insert a xs)
  unfolding insert
  insert-IsSortedBy a [] h = (tt, tt)
  insert-IsSortedBy a (x ∷ xs) h = elim (Bool-cases (leb (key a) (key x))) [
    | inl first ↦
        rw first ((ground arith, AllRows-le (key a) (key x) xs (ground arith) h.0), (h.0, h.1))
    | inr after ↦
        rw after (AllRows-insert (key x) a xs (ground arith) h.0, insert-IsSortedBy a xs h.1)
  ]

  pub count-oldest_first : (p : A → Bool) (xs : List A) → count p (oldest_first xs) ≡ count p xs
  unfolding oldest_first
  count-oldest_first p [] = refl
  count-oldest_first p (x ∷ xs) =
      ground (arith, count-insert p x (oldest_first xs), count-oldest_first p xs)

  pub oldest_first-IsSortedBy : (xs : List A) → IsSortedBy key (oldest_first xs)
  unfolding oldest_first
  oldest_first-IsSortedBy [] = tt
  oldest_first-IsSortedBy (x ∷ xs) =
      insert-IsSortedBy x (oldest_first xs) (oldest_first-IsSortedBy xs)

  pub newest_nil : newest [] ≡ none
  unfolding newest
  newest_nil = refl

  pub newest_cons :
      (x : A) (xs : List A)
      → (a : A) × (newest (x ∷ xs) ≡ some a)
        × Contains a (x ∷ xs)
        × AllRows (λ b. key b ≤ key a) (x ∷ xs)
  unfolding newest
  newest_cons x xs = let (m, top) = latest_from_lem x xs in (latest_from x xs, refl, m, top)

abbrev pub database : Sql
database = record {
  newest = newest;
  newest_nil = newest_nil;
  newest_cons = newest_cons;
  oldest_first = oldest_first;
  oldest_first_count = count-oldest_first;
  oldest_first_sorted = oldest_first-IsSortedBy;
}
