-- ===== src/Deployments/Reports.antt =====
-- What devices report about an update: `report_device_update` of
-- api/app/services/device_updates.py.
use edgewatch_telemetry.Prelude.{
  find, ℕ, String, Bool, ◌||◌, ◌&&◌, Option, none, some, [], ◌∷◌, map, ◌==◌, str_eq, if◌then◌else◌,
}
use Prim.Native.String.{◌++◌ as ◌+++◌}
use edgewatch_telemetry.Prelude.Text.{strip, or_default}
use edgewatch_telemetry.Prelude.Dict.{Dict, set_item}
use edgewatch_telemetry.Prelude.Time.{Time}
use edgewatch_telemetry.Deployments.{
  Calls, Tables, DeploymentRow, Store, TargetStatus, queued, downloading, downloaded, verifying,
  applying, staged, switching, restarting, healthy, rolled_back, failed, deferred, ReleaseManifest,
  Deployment, DeploymentTarget, Outcome, value_error, lookup_error, is_ended, is_progressing,
  is_failure, is_healthy, is_deferred, target_status_name,
}
use edgewatch_telemetry.Deployments.Operations.{event, store_deployment, json_text}
use edgewatch_telemetry.Deployments.Progress.{show_stage, evaluate_rollout_progress}
use edgewatch_telemetry.Deployments.ReleaseStates.{update_release_state}

-- the status of a name in `REPORTABLE_TARGET_STATUSES`
unfoldable pub reportable_status : String → Option TargetStatus
reportable_status s =
    if str_eq s "queued"
    then some queued
    else if str_eq s "deferred"
    then some deferred
    else if str_eq s "downloading"
    then some downloading
    else if str_eq s "downloaded"
    then some downloaded
    else if str_eq s "verifying"
    then some verifying
    else if str_eq s "applying"
    then some applying
    else if str_eq s "staged"
    then some staged
    else if str_eq s "switching"
    then some switching
    else if str_eq s "restarting"
    then some restarting
    else if str_eq s "healthy"
    then some healthy
    else if str_eq s "rolled_back"
    then some rolled_back
    else if str_eq s "failed"
    then some failed
    else none

abbrev pub is_device_target : ℕ → String → DeploymentTarget → Bool
is_device_target deployment_id device_id row =
    row.deployment_id == deployment_id && str_eq row.device_id device_id

-- `if value: details[key] = value.strip()`
abbrev pub put_text : String → Option String → Dict String → Dict String
put_text key none details = details
put_text key (some value) details =
    if str_eq value "" then details else set_item key (strip value) details

-- `a or b or name`
abbrev pub first_text : Option String → Option String → String → String
first_text none none name = name
first_text none (some b) name = or_default b name
first_text (some a) none name = or_default a name
first_text (some a) (some b) name = or_default a (or_default b name)

unfoldable pub failure_reason_after :
    TargetStatus → Option String → Option String → Option String → Option String
failure_reason_after state reason_code reason_detail before =
    if is_failure state
    then some (strip (first_text reason_code reason_detail (target_status_name state)))
    else if is_healthy state || is_deferred state
    then none
    else before

unfoldable pub report_row :
    TargetStatus → Option String → Option String → Time → DeploymentTarget → DeploymentTarget
unfolding failure_reason_after
report_row state reason_code reason_detail ts target = record target {
  status = state;
  last_report_at = some ts;
  report_details =
      put_text "reason_detail" reason_detail
        (put_text "reason_code" reason_code target.report_details);
  failure_reason = failure_reason_after state reason_code reason_detail target.failure_reason;
}

-- the write of a changed target, which its deployment and its device identify
unfoldable pub store_target : {F : Type 0} → DeploymentTarget → Store F → Store F
store_target target store = record store {
  deployment_targets =
      map
        (λ row. if is_device_target target.deployment_id target.device_id row then target else row)
        store.deployment_targets;
}

-- what an accepted report writes before the deployment is evaluated, with `clock` the readings of the
-- clock after `ts`
unfoldable pub record_report :
    (calls : Calls)
    → DeploymentTarget
    → DeploymentRow calls
    → ReleaseManifest
    → TargetStatus
    → Option String
    → Option String
    → Time
    → Time
    → Tables calls
    → Tables calls
unfolding report_row store_target store_deployment event update_release_state
record_report calls target changed manifest state reason_code reason_detail ts clock store =
    let reported =
      store_deployment changed
        (store_target (report_row state reason_code reason_detail ts target) store) in
    let logged =
      event calls changed.id ("device.report." +++ target_status_name state) (some target.device_id)
        (("reason_code", json_text reason_code)
          ∷ ("reason_detail", json_text reason_detail)
          ∷ ("target_stage_assigned", show_stage target.stage_assigned)
          ∷ [])
        clock reported in
    update_release_state state changed manifest target.device_id ts logged

abbrev pub touched : {F : Type 0} → Time → Deployment F → Deployment F
touched ts deployment = record deployment { updated_at = ts }

unfoldable pub accept_report :
    (calls : Calls)
    → DeploymentTarget
    → DeploymentRow calls
    → ReleaseManifest
    → TargetStatus
    → Option String
    → Option String
    → Time
    → Time
    → Tables calls
    → Outcome (DeploymentRow calls × Tables calls)
unfolding record_report
accept_report calls target deployment manifest state reason_code reason_detail ts clock store =
    evaluate_rollout_progress calls (touched ts deployment) clock (
      record_report calls target (touched ts deployment) manifest state reason_code reason_detail ts
        clock store)

-- the joined rows of a target, its deployment and the deployment's manifest
unfoldable pub joined_target :
    {F : Type 0} → ℕ → String → Store F → Option (DeploymentTarget × Deployment F × ReleaseManifest)
joined_target deployment_id device_id store =
    elim (find (is_device_target deployment_id device_id) store.deployment_targets) [
      | none ↦ none
      | some target ↦ elim (find (λ d. d.id == deployment_id) store.deployments) [
        | none ↦ none
        | some deployment ↦ elim (find (λ m. m.id == deployment.manifest_id) store.manifests) [
          | none ↦ none
          | some manifest ↦ some (target, deployment, manifest)
        ]
      ]
    ]

unfoldable pub report_device_update :
    (calls : Calls)
    → ℕ
    → String
    → String
    → Option String
    → Option String
    → Time
    → Time
    → Tables calls
    → Outcome (DeploymentRow calls × Tables calls)
unfolding reportable_status joined_target
report_device_update calls deployment_id device_id state reason_code reason_detail ts clock store =
    elim (reportable_status (calls.world.lower (strip state))) [
      | none ↦ value_error
      | some reported ↦ elim (joined_target deployment_id device_id store) [
        | none ↦ lookup_error
        | some (target, deployment, manifest) ↦
            if is_ended deployment.status && is_progressing reported
            then value_error
            else accept_report calls target deployment manifest reported reason_code reason_detail
                ts clock store
      ]
    ]
