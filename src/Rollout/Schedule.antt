-- ===== src/Rollout/Schedule.antt =====
-- A normalized schedule (api/app/services/device_updates.py) climbs to 100 percent.
use mathlib.Core.Option
use mathlib.Core.Path.{subst}
use edgewatch_telemetry.Prelude.{
  ℕ, ◌≤◌, ◌<◌, ◌≡◌, ◌↔◌, refl, true, false, Option, none, some, List, [], ◌∷◌, arith, any, ltb,
  ◌==◌, Bool-cases, inl, inr, ==_iff, if_cases,
}
use edgewatch_telemetry.Prelude.Int.{ℤ, pos, negsuc, pos_part}
use edgewatch_telemetry.Rollout.{
  is_out_of_range, checked_stages, insert_stage, sorted_set, end_at_100, or_default_stages,
  normalize_rollout_stages,
}

-- strictly increasing percentages above `n`, up to 100
abbrev pub Above : ℕ → List ℕ → Type 0
Above n [] = Unit
Above n (x ∷ xs) = (n < x) × (x ≤ 100) × Above x xs

-- strictly increasing percentages above `n`, of which there are some and the last is 100
abbrev pub IsSchedule : ℕ → List ℕ → Type 0
IsSchedule n [] = ⊥
IsSchedule n (x ∷ []) = (n < x) × (x ≡ 100)
IsSchedule n (x ∷ (y ∷ ys)) = (n < x) × IsSchedule x (y ∷ ys)

insert_stage-Above :
    (n v : ℕ) (xs : List ℕ) → n < v → v ≤ 100 → Above n xs → Above n (insert_stage v xs)
unfolding insert_stage
insert_stage-Above n v [] low high h = (low, high, tt)
insert_stage-Above n v (x ∷ xs) low high (first, top, rest) =
    if_cases (Above n) (v == x) _ _ (λ same. (first, top, rest))
      (λ different.
        if_cases (Above n) (ltb v x) _ _ (λ before. (low, high, (ground arith, top, rest)))
          (λ after. (first, top, insert_stage-Above x v xs (ground arith) high rest)))

-- all within 1 and 100
abbrev AllPercent : List ℕ → Type 0
AllPercent [] = Unit
AllPercent (x ∷ xs) = (0 < x) × (x ≤ 100) × AllPercent xs

sorted_set-Above : (xs : List ℕ) → AllPercent xs → Above 0 (sorted_set xs)
unfolding sorted_set
sorted_set-Above [] h = tt
sorted_set-Above (x ∷ xs) (low, high, rest) =
    insert_stage-Above 0 x (sorted_set xs) low high (sorted_set-Above xs rest)

-- the accepted percentages, if they are
Accepted : Option (List ℕ) → Type 0
Accepted none = Unit
Accepted (some xs) = AllPercent xs

cons-Accepted :
    (v : ℤ) (rest : Option (List ℕ))
    → is_out_of_range v ≡ false
    → Accepted rest
    → Accepted (Option.map (◌∷◌ (pos_part v)) rest)
unfolding Accepted
cons-Accepted v none h k = tt
cons-Accepted (pos n) (some xs) h k = (ground arith, ground arith, k)
cons-Accepted (negsuc n) (some xs) h k = (ground arith, ground arith, k)

checked_stages-Accepted : (values : List ℤ) → Accepted (checked_stages values)
unfolding checked_stages Accepted
checked_stages-Accepted [] = tt
checked_stages-Accepted (v ∷ vs) =
    if_cases Accepted (is_out_of_range v) _ _ (λ out. tt)
      (λ within. cons-Accepted v (checked_stages vs) within (checked_stages-Accepted vs))

cons-IsSchedule : (n x : ℕ) (xs : List ℕ) → n < x → IsSchedule x xs → IsSchedule n (x ∷ xs)
cons-IsSchedule n x [] low h = absurd h
cons-IsSchedule n x (y ∷ ys) low h = (low, h)

end_at_100-IsSchedule :
    (n x : ℕ) (xs : List ℕ) → Above n (x ∷ xs) → IsSchedule n (end_at_100 (x ∷ xs))
unfolding end_at_100
end_at_100-IsSchedule n x [] (low, high, _) =
    if_cases (IsSchedule n) (x == 100) _ _ (λ full. (low, (==_iff x 100).0 full))
      (λ part. (low, (ground arith, refl)))
end_at_100-IsSchedule n x (y ∷ ys) (low, high, rest) =
    cons-IsSchedule n x (end_at_100 (y ∷ ys)) low (end_at_100-IsSchedule x y ys rest)

-- an insertion leaves a list that is not empty
insert_stage-cons :
    (P : List ℕ → Type 0) (v : ℕ) (xs : List ℕ)
    → ((y : ℕ) (ys : List ℕ) → P (y ∷ ys))
    → P (insert_stage v xs)
unfolding insert_stage
insert_stage-cons P v [] h = h v []
insert_stage-cons P v (x ∷ xs) h =
    if_cases P (v == x) _ _ (λ same. h x xs)
      (λ different.
        if_cases P (ltb v x) _ _ (λ before. h v (x ∷ xs)) (λ after. h x (insert_stage v xs)))

normalized-IsSchedule :
    (v : ℕ) (xs : List ℕ) → AllPercent (v ∷ xs) → IsSchedule 0 (end_at_100 (sorted_set (v ∷ xs)))
unfolding sorted_set
normalized-IsSchedule v xs h =
    insert_stage-cons (λ ys. Above 0 ys → IsSchedule 0 (end_at_100 ys)) v (sorted_set xs)
      (λ y ys above. end_at_100-IsSchedule 0 y ys above) (sorted_set-Above (v ∷ xs) h)

Scheduled : Option (List ℕ) → Type 0
Scheduled none = Unit
Scheduled (some stages) = IsSchedule 0 stages

cons-Scheduled :
    (v : ℤ) (rest : Option (List ℕ))
    → is_out_of_range v ≡ false
    → Accepted rest
    → Scheduled
        (Option.map (λ values. end_at_100 (sorted_set values)) (Option.map (◌∷◌ (pos_part v)) rest))
unfolding Scheduled Accepted
cons-Scheduled v none h k = tt
cons-Scheduled v (some xs) h k =
    normalized-IsSchedule (pos_part v) xs (cons-Accepted v (some xs) h k)

checked-Scheduled :
    (v : ℤ) (vs : List ℤ)
    → Scheduled (Option.map (λ values. end_at_100 (sorted_set values)) (checked_stages (v ∷ vs)))
unfolding checked_stages Scheduled
checked-Scheduled v vs =
    if_cases (λ o. Scheduled (Option.map (λ values. end_at_100 (sorted_set values)) o))
      (is_out_of_range v) _ _ (λ out. tt)
      (λ within. cons-Scheduled v (checked_stages vs) within (checked_stages-Accepted vs))

normalize-Scheduled : (stages : List ℤ) → Scheduled (normalize_rollout_stages stages)
unfolding normalize_rollout_stages or_default_stages
normalize-Scheduled [] = checked-Scheduled (pos 1) (pos 10 ∷ pos 50 ∷ pos 100 ∷ [])
normalize-Scheduled (v ∷ vs) = checked-Scheduled v vs

-- The stages that a deployment is given are, once normalized, strictly increasing percentages from 1
-- on, of which the last is 100, in whatever order and however often they were listed.
pub normalize_rollout_stages-IsSchedule :
    (stages : List ℤ) (normalized : List ℕ)
    → normalize_rollout_stages stages ≡ some normalized
    → IsSchedule 0 normalized
unfolding Scheduled
normalize_rollout_stages-IsSchedule stages normalized h =
    subst Scheduled h (normalize-Scheduled stages)

map-none : {A B : Type 0} (f : A → B) (o : Option A) → (Option.map f o ≡ none) ↔ (o ≡ none)
map-none f none = (λ h. refl, λ h. refl)
map-none f (some a) = (λ h. absurd (some_none h), λ h. absurd (some_none h))
  where
    some_none : {C : Type 0} {c : C} → some c ≡ none → ⊥
    some_none h = ground arith

checked_stages-none :
    (values : List ℤ) → (checked_stages values ≡ none) ↔ (any is_out_of_range values ≡ true)
unfolding checked_stages
checked_stages-none [] = (λ h. ground arith, λ h. ground arith)
checked_stages-none (v ∷ vs) = elim (Bool-cases (is_out_of_range v)) [
  | inl out ↦ rw out (λ h. refl, λ h. refl)
  | inr within ↦ rw within (
    λ h. (checked_stages-none vs).0 ((map-none (◌∷◌ (pos_part v)) (checked_stages vs)).0 h),
    λ h. (map-none (◌∷◌ (pos_part v)) (checked_stages vs)).1 ((checked_stages-none vs).1 h),
  )
]

-- Normalizing raises exactly if a listed percentage is below 1 or above 100.
pub normalize_rollout_stages_refused :
    (stages : List ℤ)
    → (normalize_rollout_stages stages ≡ none) ↔ (any is_out_of_range stages ≡ true)
unfolding normalize_rollout_stages or_default_stages
normalize_rollout_stages_refused [] = (
  λ h. (checked_stages-none (pos 1 ∷ pos 10 ∷ pos 50 ∷ pos 100 ∷ [])).0 (
      (map-none (λ values. end_at_100 (sorted_set values))
          (checked_stages (pos 1 ∷ pos 10 ∷ pos 50 ∷ pos 100 ∷ []))).0
        h),
  λ h. ground arith,
)
normalize_rollout_stages_refused (v ∷ vs) = (
  λ h.
      (checked_stages-none (v ∷ vs)).0
        ((map-none (λ values. end_at_100 (sorted_set values)) (checked_stages (v ∷ vs))).0 h),
  λ h.
      (map-none (λ values. end_at_100 (sorted_set values)) (checked_stages (v ∷ vs))).1
        ((checked_stages-none (v ∷ vs)).1 h),
)
