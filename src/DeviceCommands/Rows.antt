-- ===== src/DeviceCommands/Rows.antt =====
-- Lemmas on the rows of the table of commands (api/app/services/device_commands.py).
use edgewatch_telemetry.Prelude.{
  ℕ, suc, String, ◌≡◌, refl, ap, Bool, true, ◌&&◌, some, List, [], ◌∷◌, ◌++◌, map, filter, arith,
  count, str_eq, Bool-cases, inl, inr,
}
use mathlib.Core.Option
use mathlib.Core.Path.{subst}
use edgewatch_telemetry.DeviceCommands.{DeviceControlCommand, is_pending}
use edgewatch_telemetry.DeviceCommands.Operations.{find_row}
pub use edgewatch_telemetry.Prelude.Tables.{count-map-le, count-map-none, all-map, all-append}

-- a command that waits for the device
abbrev pub is_pending_for : String → DeviceControlCommand → Bool
is_pending_for device_id c = str_eq c.device_id device_id && is_pending c.status

abbrev pub pending_count : String → List DeviceControlCommand → ℕ
pending_count device_id rows = count (is_pending_for device_id) rows

pub filter_none :
    (p : DeviceControlCommand → Bool) (rows : List DeviceControlCommand)
    → count p rows ≡ 0
    → filter p rows ≡ []
filter_none p [] h = refl
filter_none p (c ∷ cs) h = elim (Bool-cases (p c)) [
  | inl holds ↦ absurd (zero_suc (rw holds at h))
  | inr fails ↦ rw fails (filter_none p cs (rw fails at h))
]
  where
    zero_suc : {n : ℕ} → suc n ≡ 0 → ⊥
    zero_suc h = omega arith

pub filter-append :
    (p : DeviceControlCommand → Bool) (xs ys : List DeviceControlCommand)
    → filter p (xs ++ ys) ≡ filter p xs ++ filter p ys
filter-append p [] ys = refl
filter-append p (x ∷ xs) ys = elim (Bool-cases (p x)) [
  | inl holds ↦ rw holds (ap (◌∷◌ x) (filter-append p xs ys))
  | inr fails ↦ rw fails (filter-append p xs ys)
]

pub map-append :
    (f : DeviceControlCommand → DeviceControlCommand) (xs ys : List DeviceControlCommand)
    → map f (xs ++ ys) ≡ map f xs ++ map f ys
map-append f [] ys = refl
map-append f (x ∷ xs) ys = ap (◌∷◌ (f x)) (map-append f xs ys)

pub find_row-append :
    (p : DeviceControlCommand → Bool) (rows : List DeviceControlCommand)
    (c found : DeviceControlCommand)
    → find_row p rows ≡ some found
    → find_row p (rows ++ c ∷ []) ≡ some found
find_row-append p [] c found h = ground arith
find_row-append p (x ∷ xs) c found h = ground (arith, find_row-append p xs c found)

-- an update that keeps the test finds the update of what was found
pub find_row-map :
    (p : DeviceControlCommand → Bool) (f : DeviceControlCommand → DeviceControlCommand)
    → ((c : DeviceControlCommand) → p (f c) ≡ p c)
    → (rows : List DeviceControlCommand) (found : DeviceControlCommand)
    → find_row p rows ≡ some found
    → find_row p (map f rows) ≡ some (f found)
find_row-map p f h [] found k = ground arith
find_row-map p f h (x ∷ xs) found k = elim (Bool-cases (p x)) [
  | inl holds ↦ rw (h x, holds) (ap (Option.map f) (rw holds at k))
  | inr fails ↦ rw ((h x, fails)) (find_row-map p f h xs found (rw fails at k))
]

pub find_row-holds :
    (p : DeviceControlCommand → Bool) (rows : List DeviceControlCommand)
    (found : DeviceControlCommand)
    → find_row p rows ≡ some found
    → p found ≡ true
find_row-holds p [] found k = ground arith
find_row-holds p (x ∷ xs) found k = elim (Bool-cases (p x)) [
  | inl holds ↦ subst (λ c. p c ≡ true) (some_inj (rw holds at k)) holds
  | inr fails ↦ find_row-holds p xs found (rw fails at k)
]
  where
    some_inj : {a b : DeviceControlCommand} → some a ≡ some b → a ≡ b
    some_inj e = cc e

pub map-twice :
    (f g : DeviceControlCommand → DeviceControlCommand) (rows : List DeviceControlCommand)
    → ((c : DeviceControlCommand) → g (f c) ≡ f c)
    → map g (map f rows) ≡ map f rows
map-twice f g [] h = refl
map-twice f g (x ∷ xs) h = rw (h x) (ap (◌∷◌ (f x)) (map-twice f g xs h))
