-- ===== src/Prelude/Tables.antt =====
-- The rows of a table that a service updates one by one, or adds one to.
use Prim.Native.Nat.{◌≤◌}
use mathlib.Core.Path.{◌≡◌, refl, ap}
use mathlib.Core.Logic.{inl, inr}
use mathlib.Core.Bool.{Bool, true, false}
use mathlib.Core.List.{List, [], ◌∷◌, ◌++◌, map}
use native.Mathlib.Omega.{arith}
use edgewatch_telemetry.Prelude.Tests.{Bool-cases, if◌then◌else◌}
use edgewatch_telemetry.Prelude.Lists.{count, all}

-- fewer rows pass a test after an update, where those that do passed another one before it
pub count-map-le :
    {A : Type 0} (p q : A → Bool) (f : A → A) (rows : List A)
    → ((c : A) → p (f c) ≡ true → q c ≡ true)
    → count p (map f rows) ≤ count q rows
count-map-le p q f [] h = omega arith
count-map-le p q f (c ∷ cs) h = elim (Bool-cases (p (f c))) [
  | inl holds ↦ rw (holds, h c holds) (omega (arith, count-map-le p q f cs h))
  | inr fails ↦ rw fails (ground (arith, count-map-le p q f cs h))
]

module _ {A : Type 0} (p : A → Bool) (f : A → A) where
  pub count-map-none : (rows : List A) → ((c : A) → p (f c) ≡ false) → count p (map f rows) ≡ 0
  count-map-none [] h = refl
  count-map-none (c ∷ cs) h = rw (h c) (count-map-none cs h)

  pub all-map :
      (rows : List A)
      → ((c : A) → p c ≡ true → p (f c) ≡ true)
      → all p rows ≡ true
      → all p (map f rows) ≡ true
  all-map [] h k = refl
  all-map (c ∷ cs) h k = elim (Bool-cases (p c)) [
    | inl holds ↦ rw (h c holds) (all-map cs h (rw holds at k))
    | inr fails ↦ ground arith
  ]

pub all-append :
    {A : Type 0} (p : A → Bool) (rows : List A) (c : A)
    → all p rows ≡ true
    → p c ≡ true
    → all p (rows ++ c ∷ []) ≡ true
all-append p [] c k h = rw h refl
all-append p (x ∷ xs) c k h = ground (arith, all-append p xs c)

-- What a session without autoflush does: its query tests the rows that the database has, the first
-- list, and the changes are made to the session's objects of them, the second list.
abbrev pub update_found : {A : Type 0} → (A → Bool) → (A → A) → List A → List A → List A
update_found p g [] objects = objects
update_found p g (x ∷ xs) [] = []
update_found p g (x ∷ xs) (y ∷ ys) = (if p x then g y else y) ∷ update_found p g xs ys

pub update_found-map :
    {A : Type 0} (p : A → Bool) (f g : A → A) (xs : List A)
    → update_found p g xs (map f xs) ≡ map (λ x. if p x then g (f x) else f x) xs
update_found-map p f g [] = refl
update_found-map p f g (x ∷ xs) =
    ap (◌∷◌ (if p x then g (f x) else f x)) (update_found-map p f g xs)

pub update_found-same :
    {A : Type 0} (p : A → Bool) (g : A → A) (xs : List A)
    → update_found p g xs xs ≡ map (λ x. if p x then g x else x) xs
update_found-same p g [] = refl
update_found-same p g (x ∷ xs) = ap (◌∷◌ (if p x then g x else x)) (update_found-same p g xs)
