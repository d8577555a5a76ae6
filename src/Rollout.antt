-- ===== src/Rollout.antt =====
-- The rollout stages of an over-the-air deployment: api/app/services/device_updates.py. A schedule
-- of percentages becomes numbers of targets, and each target is assigned the stage in which it is
-- updated.
pub mod Schedule
pub mod Stages
pub mod Stored
use edgewatch_telemetry.Prelude.{
  ℕ, suc, ◌+◌, ◌-◌, ◌*◌, ◌/◌, max, min, String, Bool, not, ◌||◌, Option, none, some, List, [], ◌∷◌,
  ltb, ◌==◌, length, if◌then◌else◌,
}
use mathlib.Core.Option
use edgewatch_telemetry.Prelude.Int.{ℤ, pos, pos_part, ltb_ℤ}

abbrev pub is_out_of_range : ℤ → Bool
is_out_of_range value = ltb_ℤ value (pos 1) || ltb_ℤ (pos 100) value

-- the percentages, and `none` for the ValueError of one out of range
unfoldable pub checked_stages : List ℤ → Option (List ℕ)
checked_stages [] = some []
checked_stages (value ∷ values) =
    let rest = checked_stages values in
    if is_out_of_range value then none else Option.map (◌∷◌ (pos_part value)) rest

-- `sorted(set(values))` with one value more
unfoldable pub insert_stage : ℕ → List ℕ → List ℕ
insert_stage value [] = value ∷ []
insert_stage value (x ∷ xs) =
    let rest = insert_stage value xs in
    if value == x then x ∷ xs else if ltb value x then value ∷ x ∷ xs else x ∷ rest

unfoldable pub sorted_set : List ℕ → List ℕ
unfolding insert_stage
sorted_set [] = []
sorted_set (value ∷ values) = insert_stage value (sorted_set values)

-- 100 is appended where it is not the last
unfoldable pub end_at_100 : List ℕ → List ℕ
end_at_100 [] = []
end_at_100 (x ∷ []) = if x == 100 then x ∷ [] else x ∷ 100 ∷ []
end_at_100 (x ∷ (y ∷ ys)) = x ∷ end_at_100 (y ∷ ys)

-- `stages or DEFAULT_ROLLOUT_STAGES_PCT`, where no stages and None are the same
unfoldable pub or_default_stages : List ℤ → List ℤ
or_default_stages [] = pos 1 ∷ pos 10 ∷ pos 50 ∷ pos 100 ∷ []
or_default_stages (value ∷ values) = value ∷ values

unfoldable pub normalize_rollout_stages : List ℤ → Option (List ℕ)
normalize_rollout_stages stages =
    Option.map (λ values. end_at_100 (sorted_set values))
      (checked_stages (or_default_stages stages))

-- `math.ceil(total * pct / 100.0)`, which floats compute exactly for fewer than 10^11 targets
abbrev pub ceil_percent : ℕ → ℕ → ℕ
ceil_percent total pct = (total * pct + 99) / 100

unfoldable pub counts_from : ℕ → ℕ → List ℕ → List ℕ
counts_from total prior [] = []
counts_from total prior (pct ∷ pcts) =
    let bounded = max prior (min total (max 1 (ceil_percent total pct))) in
    bounded ∷ counts_from total bounded pcts

-- `counts[-1] = total`
unfoldable pub set_last : ℕ → List ℕ → List ℕ
set_last total [] = []
set_last total (x ∷ []) = total ∷ []
set_last total (x ∷ (y ∷ ys)) = x ∷ set_last total (y ∷ ys)

unfoldable pub stage_threshold_counts : ℕ → List ℕ → List ℕ
stage_threshold_counts total stages =
    if total == 0 then 0 ∷ [] else set_last total (counts_from total 0 stages)

-- the loop of `_stage_for_index` from stage `stage_idx` on
unfoldable pub stage_from : ℕ → ℕ → List ℕ → ℕ
stage_from index stage_idx [] = stage_idx - 1
stage_from index stage_idx (cutoff ∷ cutoffs) =
    let later = stage_from index (suc stage_idx) cutoffs in
    if ltb index cutoff then stage_idx else later

unfoldable pub stage_for_index : ℕ → List ℕ → ℕ
unfolding stage_from
stage_for_index index stage_counts = stage_from index 0 stage_counts
