-- ===== src/Prelude/Lists.antt =====
-- Lists measured by native numbers, filtered by Boolean tests.
use Prim.Native.Nat.{ℕ, zero, suc, ◌+◌, ◌-◌, ◌≤◌, min}
use mathlib.Core.Path.{◌≡◌, refl, sym, ap, ◌∙◌, subst}
use mathlib.Core.Logic.{◌⊎◌, inl, inr}
use mathlib.Core.Bool.{Bool, true, false}
use mathlib.Core.Option.{Option, none, some}
use mathlib.Core.List.{List, [], ◌∷◌, ◌++◌, map}
use native.Mathlib.Omega.{arith}
use edgewatch_telemetry.Prelude.Tests.{if◌then◌else◌, Bool-cases}

module _ {ℓ} {A : Type ℓ} where
  abbrev pub length : List A → ℕ
  length [] = 0
  length (x ∷ xs) = suc (length xs)

  abbrev pub take : ℕ → List A → List A
  take zero xs = []
  take (suc n) [] = []
  take (suc n) (x ∷ xs) = x ∷ take n xs

  abbrev pub drop : ℕ → List A → List A
  drop zero xs = xs
  drop (suc n) [] = []
  drop (suc n) (x ∷ xs) = drop n xs

  -- `[x for x in xs if p(x)]`
  abbrev pub filter : (A → Bool) → List A → List A
  filter p [] = []
  filter p (x ∷ xs) = let rest = filter p xs in if p x then x ∷ rest else rest

  -- how many elements pass the test
  abbrev pub count : (A → Bool) → List A → ℕ
  count p [] = 0
  count p (x ∷ xs) = let rest = count p xs in if p x then suc rest else rest

  -- `any(p(x) for x in xs)`
  abbrev pub any : (A → Bool) → List A → Bool
  any p [] = false
  any p (x ∷ xs) = let rest = any p xs in if p x then true else rest

  -- `all(p(x) for x in xs)`
  abbrev pub all : (A → Bool) → List A → Bool
  all p [] = true
  all p (x ∷ xs) = let rest = all p xs in if p x then rest else false

  pub length-append : (xs ys : List A) → length (xs ++ ys) ≡ length xs + length ys
  length-append [] ys = omega arith
  length-append (x ∷ xs) ys = omega (arith, length-append xs ys)

  pub length-take : (n : ℕ) (xs : List A) → length (take n xs) ≡ min n (length xs)
  length-take zero xs = omega arith
  length-take (suc n) [] = omega arith
  length-take (suc n) (x ∷ xs) = omega (arith, length-take n xs)

  pub length-drop : (n : ℕ) (xs : List A) → length (drop n xs) ≡ length xs - n
  length-drop zero xs = omega arith
  length-drop (suc n) [] = omega arith
  length-drop (suc n) (x ∷ xs) = omega (arith, length-drop n xs)

  pub length-filter : (p : A → Bool) (xs : List A) → length (filter p xs) ≡ count p xs
  length-filter p [] = refl
  length-filter p (x ∷ xs) = ground (arith, length-filter p xs)

  pub count-append : (p : A → Bool) (xs ys : List A) → count p (xs ++ ys) ≡ count p xs + count p ys
  count-append p [] ys = omega arith
  count-append p (x ∷ xs) ys = ground (arith, count-append p xs ys)

  pub count_congr : (p q : A → Bool) (xs : List A) → ((a : A) → p a ≡ q a) → count p xs ≡ count q xs
  count_congr p q [] h = refl
  count_congr p q (x ∷ xs) h = ground (arith, h x, count_congr p q xs h)

  pub count-le-length : (p : A → Bool) (xs : List A) → count p xs ≤ length xs
  count-le-length p [] = omega arith
  count-le-length p (x ∷ xs) = ground (arith, count-le-length p xs)

module _ {A : Type 0} where
  -- `a` stands in the list
  abbrev pub Contains : A → List A → Type 0
  Contains a [] = ⊥
  Contains a (x ∷ xs) = (a ≡ x) ⊎ Contains a xs

  pub count_none :
      (p : A → Bool) (xs : List A) (a : A) → count p xs ≡ 0 → Contains a xs → p a ≡ false
  count_none p [] a h m = absurd m
  count_none p (x ∷ xs) a h (inl e) = rw e (ground arith)
  count_none p (x ∷ xs) a h (inr m) = count_none p xs a (ground arith) m

  pub count_none_of :
      (p : A → Bool) (xs : List A) → ((a : A) → Contains a xs → p a ≡ false) → count p xs ≡ 0
  count_none_of p [] h = refl
  count_none_of p (x ∷ xs) h =
      ground (arith, h x (inl refl), count_none_of p xs (λ a m. h a (inr m)))

-- `[y for x in xs for y in f(x)]`
abbrev pub for_each : {A B : Type 0} → (A → List B) → List A → List B
for_each f [] = []
for_each f (x ∷ xs) = f x ++ for_each f xs

pub Contains-append :
    {A : Type 0} (a : A) (xs ys : List A) → Contains a (xs ++ ys) → Contains a xs ⊎ Contains a ys
Contains-append a [] ys m = inr m
Contains-append a (x ∷ xs) ys (inl e) = inl (inl e)
Contains-append a (x ∷ xs) ys (inr m) = elim (Contains-append a xs ys m) [
  | inl l ↦ inl (inr l)
  | inr r ↦ inr r
]

pub Contains-for_each :
    {A B : Type 0} (f : A → List B) (b : B) (xs : List A)
    → Contains b (for_each f xs)
    → (a : A) × Contains a xs × Contains b (f a)
Contains-for_each f b [] m = absurd m
Contains-for_each f b (x ∷ xs) m = elim (Contains-append b (f x) (for_each f xs) m) [
  | inl l ↦ (x, inl refl, l)
  | inr r ↦ let (a, there, h) = Contains-for_each f b xs r in (a, inr there, h)
]

pub Contains-map :
    {A B : Type 0} (f : A → B) (b : B) (xs : List A)
    → Contains b (map f xs)
    → (a : A) × Contains a xs × (b ≡ f a)
Contains-map f b [] m = absurd m
Contains-map f b (x ∷ xs) (inl e) = (x, inl refl, e)
Contains-map f b (x ∷ xs) (inr m) = let (a, there, h) = Contains-map f b xs m in (a, inr there, h)

pub Contains-filter :
    {A : Type 0} (p : A → Bool) (a : A) (xs : List A)
    → Contains a (filter p xs)
    → Contains a xs × (p a ≡ true)
Contains-filter p a [] m = absurd m
Contains-filter p a (x ∷ xs) m = elim (Bool-cases (p x)) [
  | inl kept ↦ elim (subst (λ b. Contains a (if b then x ∷ filter p xs else filter p xs)) kept m) [
    | inl e ↦ (inl e, ap p e ∙ kept)
    | inr there ↦ let (h, passes) = Contains-filter p a xs there in (inr h, passes)
  ]
  | inr dropped ↦
      let (h, passes) =
        Contains-filter p a xs
          (subst (λ b. Contains a (if b then x ∷ filter p xs else filter p xs)) dropped m) in
      (inr h, passes)
]

-- the first element that passes
abbrev pub find : {A : Type 0} → (A → Bool) → List A → Option A
find p [] = none
find p (x ∷ xs) = let rest = find p xs in if p x then some x else rest

-- what stands in a list stands in the lists made of it
pub append-Contains-left :
    {A : Type 0} (a : A) (xs ys : List A) → Contains a xs → Contains a (xs ++ ys)
append-Contains-left a [] ys m = absurd m
append-Contains-left a (x ∷ xs) ys (inl e) = inl e
append-Contains-left a (x ∷ xs) ys (inr m) = inr (append-Contains-left a xs ys m)

pub append-Contains-right :
    {A : Type 0} (a : A) (xs ys : List A) → Contains a ys → Contains a (xs ++ ys)
append-Contains-right a [] ys m = m
append-Contains-right a (x ∷ xs) ys m = inr (append-Contains-right a xs ys m)

pub map-Contains :
    {A B : Type 0} (f : A → B) (a : A) (xs : List A) → Contains a xs → Contains (f a) (map f xs)
map-Contains f a [] m = absurd m
map-Contains f a (x ∷ xs) (inl e) = inl (ap f e)
map-Contains f a (x ∷ xs) (inr m) = inr (map-Contains f a xs m)

pub for_each-Contains :
    {A B : Type 0} (f : A → List B) (a : A) (b : B) (xs : List A)
    → Contains a xs
    → Contains b (f a)
    → Contains b (for_each f xs)
for_each-Contains f a b [] m h = absurd m
for_each-Contains f a b (x ∷ xs) (inl e) h =
    append-Contains-left b (f x) _ (subst (λ y. Contains b (f y)) e h)
for_each-Contains f a b (x ∷ xs) (inr m) h =
    append-Contains-right b (f x) _ (for_each-Contains f a b xs m h)

pub filter-Contains :
    {A : Type 0} (p : A → Bool) (a : A) (xs : List A)
    → Contains a xs
    → p a ≡ true
    → Contains a (filter p xs)
filter-Contains p a [] m h = absurd m
filter-Contains p a (x ∷ xs) (inl e) h = rw (sym (ap p e) ∙ h) (inl e)
filter-Contains p a (x ∷ xs) (inr m) h =
    if_Contains p a x (filter p xs) (filter-Contains p a xs m h)
  where
    if_Contains :
        {A : Type 0} (p : A → Bool) (a x : A) (rest : List A)
        → Contains a rest
        → Contains a (if p x then x ∷ rest else rest)
    if_Contains p a x rest m = elim (Bool-cases (p x)) [
      | inl kept ↦ rw kept (inr m)
      | inr dropped ↦ rw dropped m
    ]
