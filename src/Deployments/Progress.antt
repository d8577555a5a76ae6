-- ===== src/Deployments/Progress.antt =====
-- How a report moves a deployment on: `_evaluate_rollout_progress` of
-- api/app/services/device_updates.py. Its decision is a Verdict, which is then carried out.
use edgewatch_telemetry.Prelude.{
  ℕ, suc, ◌+◌, max, String, Bool, not, ◌&&◌, none, some, List, [], ◌∷◌, filter, length, ltb, leb,
  ◌==◌, if◌then◌else◌,
}
use Prim.Native.String.{◌++◌ as ◌+++◌}
use edgewatch_telemetry.Prelude.Int.{pos, clamp_nonneg}
use edgewatch_telemetry.Prelude.Text.{show}
use edgewatch_telemetry.Prelude.Dict.{Dict}
use edgewatch_telemetry.Prelude.Time.{Time, seconds}
use edgewatch_telemetry.Rollout.{normalize_rollout_stages}
use edgewatch_telemetry.Deployments.{
  Calls, Tables, DeploymentRow, Store, halted, completed, Deployment, DeploymentTarget, Outcome,
  done, value_error, is_active, is_terminal, is_failure, is_deferred,
}
use edgewatch_telemetry.Deployments.Selector.{is_empty_list}
use edgewatch_telemetry.Deployments.Operations.{event, store_deployment}

-- what becomes of an active deployment
pub data Verdict (F : Type 0) : Type 0 where
  wait : Verdict F
  defer_rate_exceeded : F → Verdict F
  failure_rate_exceeded : F → Verdict F
  no_quorum_timeout_exceeded : Verdict F
  stage_timeout_exceeded : Verdict F
  stage_advanced : Verdict F
  rollout_completed : Verdict F

-- the targets of a deployment that its stages so far reach
abbrev pub is_stage_target : ℕ → ℕ → DeploymentTarget → Bool
is_stage_target deployment_id stage row =
    row.deployment_id == deployment_id && leb row.stage_assigned stage

unfoldable pub stage_targets : {F : Type 0} → Deployment F → Store F → List DeploymentTarget
stage_targets deployment store =
    filter (is_stage_target deployment.id deployment.stage) store.deployment_targets

abbrev pub deferred_rows : List DeploymentTarget → List DeploymentTarget
deferred_rows rows = filter (λ row. is_deferred row.status) rows

abbrev pub observed_rows : List DeploymentTarget → List DeploymentTarget
observed_rows rows = filter (λ row. is_terminal row.status) rows

abbrev pub failure_rows : List DeploymentTarget → List DeploymentTarget
failure_rows rows = filter (λ row. is_failure row.status) (observed_rows rows)

abbrev pub defer_rate : (calls : Calls) → List DeploymentTarget → calls.floats.Value
defer_rate calls rows = calls.ratio (length (deferred_rows rows)) (length rows)

abbrev pub failure_rate : (calls : Calls) → List DeploymentTarget → calls.floats.Value
failure_rate calls rows = calls.ratio (length (failure_rows rows)) (length (observed_rows rows))

-- `(now - updated_at).total_seconds() > float(max(60, timeout_s))`
abbrev pub has_timed_out : Time → Time → ℕ → Bool
has_timed_out updated_at now timeout_s = ltb (updated_at + seconds (max 60 timeout_s)) now

-- for a number of stages and the targets reached so far, of which there may be none
unfoldable pub rollout_verdict :
    (calls : Calls)
    → DeploymentRow calls
    → ℕ
    → Time
    → List DeploymentTarget
    → Verdict calls.floats.Value
rollout_verdict calls deployment stage_count now rows =
    let observed = observed_rows rows in
    if is_empty_list rows
    then wait
    else if calls.floats.less deployment.defer_rate_threshold (defer_rate calls rows)
    then defer_rate_exceeded (defer_rate calls rows)
    else if not (is_empty_list observed)
        && calls.floats.less deployment.failure_rate_threshold (failure_rate calls rows)
    then failure_rate_exceeded (failure_rate calls rows)
    else if is_empty_list observed
        && has_timed_out deployment.updated_at now (clamp_nonneg deployment.no_quorum_timeout_s)
    then no_quorum_timeout_exceeded
    else if not (is_empty_list observed)
        && not (length observed == length rows)
        && has_timed_out deployment.updated_at now (clamp_nonneg deployment.stage_timeout_s)
    then stage_timeout_exceeded
    else if not (length observed == length rows)
    then wait
    else if ltb (suc deployment.stage) stage_count
    then stage_advanced
    else rollout_completed

-- the row that is written, with the event about it
unfoldable pub change :
    (calls : Calls)
    → DeploymentRow calls
    → String
    → Dict String
    → Time
    → Tables calls
    → DeploymentRow calls × Tables calls
unfolding event store_deployment
change calls changed event_type details now store =
    (changed, event calls changed.id event_type none details now (store_deployment changed store))

abbrev pub halt_deployment :
    (calls : Calls)
    → DeploymentRow calls
    → String
    → Dict String
    → Time
    → Tables calls
    → DeploymentRow calls × Tables calls
halt_deployment calls deployment reason details now store =
    change calls
      (record deployment { status = halted; halt_reason = some reason; updated_at = now })
      "deployment.halted" details now store

-- "... %.3f > %.3f"
abbrev pub exceeds : (calls : Calls) → String → calls.floats.Value → calls.floats.Value → String
exceeds calls name rate threshold =
    name +++ " " +++ calls.floats.format 3 rate +++ " > " +++ calls.floats.format 3 threshold

abbrev pub show_stage : ℕ → String
show_stage stage = show (pos stage)

unfoldable pub apply_verdict :
    (calls : Calls)
    → DeploymentRow calls
    → List ℕ
    → Time
    → Tables calls
    → Verdict calls.floats.Value
    → DeploymentRow calls × Tables calls
unfolding change
apply_verdict calls deployment stages now store wait = (deployment, store)
apply_verdict calls deployment stages now store (defer_rate_exceeded rate) =
    halt_deployment calls deployment
      (exceeds calls "defer_rate_exceeded" rate deployment.defer_rate_threshold)
      (("defer_rate", calls.json_float rate)
        ∷ ("threshold", calls.json_float deployment.defer_rate_threshold)
        ∷ ("stage", show_stage deployment.stage)
        ∷ [])
      now store
apply_verdict calls deployment stages now store (failure_rate_exceeded rate) =
    halt_deployment calls deployment
      (exceeds calls "failure_rate_exceeded" rate deployment.failure_rate_threshold)
      (("failure_rate", calls.json_float rate)
        ∷ ("threshold", calls.json_float deployment.failure_rate_threshold)
        ∷ ("stage", show_stage deployment.stage)
        ∷ [])
      now store
apply_verdict calls deployment stages now store no_quorum_timeout_exceeded =
    halt_deployment calls deployment "no_quorum_timeout_exceeded"
      (("reason", "no_quorum_timeout_exceeded") ∷ ("stage", show_stage deployment.stage) ∷ []) now
      store
apply_verdict calls deployment stages now store stage_timeout_exceeded =
    halt_deployment calls deployment "stage_timeout_exceeded"
      (("reason", "stage_timeout_exceeded") ∷ ("stage", show_stage deployment.stage) ∷ []) now store
apply_verdict calls deployment stages now store stage_advanced =
    change calls (record deployment { stage = suc deployment.stage; updated_at = now })
      "deployment.stage_advanced"
      (("stage", show_stage (suc deployment.stage))
        ∷ ("rollout_stages_pct", calls.json_stages stages)
        ∷ [])
      now store
apply_verdict calls deployment stages now store rollout_completed =
    change calls (record deployment { status = completed; halt_reason = none; updated_at = now })
      "deployment.completed" (("stage", show_stage deployment.stage) ∷ []) now store

-- A reading of the clock is also the time of the event's row.
unfoldable pub evaluate_rollout_progress :
    (calls : Calls)
    → DeploymentRow calls
    → Time
    → Tables calls
    → Outcome (DeploymentRow calls × Tables calls)
unfolding rollout_verdict apply_verdict stage_targets
evaluate_rollout_progress calls deployment now store =
    if not (is_active deployment.status)
    then done (deployment, store)
    else elim (normalize_rollout_stages deployment.rollout_stages_pct) [
      | none ↦ value_error
      | some stages ↦ done (
          apply_verdict calls deployment stages now store
            (rollout_verdict calls deployment (length stages) now (stage_targets deployment store)))
    ]
