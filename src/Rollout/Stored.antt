-- ===== src/Rollout/Stored.antt =====
-- The schedule that a deployment stores, read again (api/app/services/device_updates.py).
use edgewatch_telemetry.Prelude.{ℕ, ◌<◌, ◌≡◌, refl, ◌∙◌, ap, false, some, List, [], ◌∷◌, map, arith}
use mathlib.Core.Option
use edgewatch_telemetry.Prelude.Int.{pos}
use edgewatch_telemetry.Rollout.{
  is_out_of_range, checked_stages, insert_stage, sorted_set, end_at_100, or_default_stages,
  normalize_rollout_stages,
}
use edgewatch_telemetry.Rollout.Schedule.{IsSchedule}

IsSchedule-below : (n : ℕ) (xs : List ℕ) → IsSchedule n xs → n < 100
IsSchedule-below n [] h = absurd h
IsSchedule-below n (x ∷ []) (low, full) = omega arith
IsSchedule-below n (x ∷ (y ∷ ys)) (low, rest) = omega (arith, IsSchedule-below x (y ∷ ys) rest)

checked_stages-stored :
    (n : ℕ) (xs : List ℕ) → IsSchedule n xs → checked_stages (map pos xs) ≡ some xs
unfolding checked_stages
checked_stages-stored n [] h = absurd h
checked_stages-stored n (x ∷ []) (low, full) = ground arith
checked_stages-stored n (x ∷ (y ∷ ys)) (low, rest) =
    let within : is_out_of_range (pos x) ≡ false =
      ground (arith, IsSchedule-below x (y ∷ ys) rest) in
    rw (within, checked_stages) (ap (Option.map (◌∷◌ x)) (checked_stages-stored x (y ∷ ys) rest))

IsSchedule-first : (n x : ℕ) (xs : List ℕ) → IsSchedule n (x ∷ xs) → n < x
IsSchedule-first n x [] (low, full) = low
IsSchedule-first n x (y ∷ ys) (low, rest) = low

insert_stage-first : (x y : ℕ) (ys : List ℕ) → x < y → insert_stage x (y ∷ ys) ≡ x ∷ (y ∷ ys)
unfolding insert_stage
insert_stage-first x y ys h = ground arith

sorted_set-stored : (n : ℕ) (xs : List ℕ) → IsSchedule n xs → sorted_set xs ≡ xs
unfolding sorted_set insert_stage
sorted_set-stored n [] h = absurd h
sorted_set-stored n (x ∷ []) h = refl
sorted_set-stored n (x ∷ (y ∷ ys)) (low, rest) =
    ap (insert_stage x) (sorted_set-stored x (y ∷ ys) rest)
    ∙ insert_stage-first x y ys (IsSchedule-first x y ys rest)

end_at_100-stored : (n : ℕ) (xs : List ℕ) → IsSchedule n xs → end_at_100 xs ≡ xs
unfolding end_at_100
end_at_100-stored n [] h = absurd h
end_at_100-stored n (x ∷ []) (low, full) = ground arith
end_at_100-stored n (x ∷ (y ∷ ys)) (low, rest) = ap (◌∷◌ x) (end_at_100-stored x (y ∷ ys) rest)

-- A schedule that normalizing gave, as a deployment stores it, normalizes to itself: reading it
-- again never raises.
pub normalize_rollout_stages-stored :
    (stages : List ℕ)
    → IsSchedule 0 stages
    → normalize_rollout_stages (map pos stages) ≡ some stages
unfolding normalize_rollout_stages or_default_stages
normalize_rollout_stages-stored [] h = absurd h
normalize_rollout_stages-stored (x ∷ xs) h =
    ap (Option.map (λ values. end_at_100 (sorted_set values))) (checked_stages-stored 0 (x ∷ xs) h)
    ∙ ap some (ap end_at_100 (sorted_set-stored 0 (x ∷ xs) h) ∙ end_at_100-stored 0 (x ∷ xs) h)
