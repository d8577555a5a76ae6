-- ===== src/Tests/Rollout.antt =====
-- Rollouts of api/app/services/device_updates.py to 37 targets.
use edgewatch_telemetry.Prelude.{◌≤◌, ◌<◌, ◌≡◌, ◌↔◌, refl, some, List, [], ◌∷◌, arith}
use edgewatch_telemetry.Prelude.Int.{ℤ, pos}
use edgewatch_telemetry.Rollout.{
  normalize_rollout_stages, checked_stages, or_default_stages, sorted_set, end_at_100,
  stage_threshold_counts, stage_for_index,
}
use edgewatch_telemetry.Rollout.Schedule.{IsSchedule, normalize_rollout_stages-IsSchedule}
use edgewatch_telemetry.Rollout.Stages.{
  Climbs, reached, stage_threshold_counts-Climbs, stage_for_index_iff,
}

-- listed out of order, twice, and without a last stage
abbrev listed : List ℤ
listed = pos 50 ∷ pos 10 ∷ pos 50 ∷ []

normalized_stages : normalize_rollout_stages listed ≡ some (10 ∷ 50 ∷ 100 ∷ [])
unfolding normalize_rollout_stages checked_stages or_default_stages sorted_set end_at_100
normalized_stages = refl

normalize_rollout_stages-IsSchedule_example : IsSchedule 0 (10 ∷ 50 ∷ 100 ∷ [])
normalize_rollout_stages-IsSchedule_example =
    normalize_rollout_stages-IsSchedule listed (10 ∷ 50 ∷ 100 ∷ []) normalized_stages

schedule : IsSchedule 0 (10 ∷ 50 ∷ 100 ∷ [])
schedule = (omega arith, (omega arith, (omega arith, refl)))

stage_threshold_counts-Climbs_example : Climbs 37 1 (stage_threshold_counts 37 (10 ∷ 50 ∷ 100 ∷ []))
stage_threshold_counts-Climbs_example =
    stage_threshold_counts-Climbs 37 (10 ∷ 50 ∷ 100 ∷ []) (omega arith) schedule

climbing : Climbs 37 1 (4 ∷ 19 ∷ 37 ∷ [])
climbing = (omega arith, omega arith, (omega arith, omega arith, (omega arith, refl)))

stage_for_index_iff_example :
    (stage_for_index 12 (4 ∷ 19 ∷ 37 ∷ []) ≤ 1) ↔ (12 < reached 1 (4 ∷ 19 ∷ 37 ∷ []))
stage_for_index_iff_example =
    stage_for_index_iff 37 12 1 (4 ∷ 19 ∷ 37 ∷ []) climbing (omega arith) (omega arith)
