-- ===== src/Deployments/ReleaseStates.antt =====
-- The release a device runs, as its reports tell: `_device_release_state` and the part of
-- `report_device_update` on it, of api/app/services/device_updates.py.
use edgewatch_telemetry.Prelude.{
  find, String, Bool, false, not, Option, none, some, [], ◌∷◌, ◌++◌, map, str_eq, if◌then◌else◌,
}
use edgewatch_telemetry.Prelude.Time.{Time}
use edgewatch_telemetry.Deployments.{
  Store, TargetStatus, ReleaseManifest, Deployment, DeviceReleaseState, is_healthy, is_failed,
  is_rolled_back, is_in_progress,
}

abbrev pub is_state_of : String → DeviceReleaseState → Bool
is_state_of device_id row = str_eq row.device_id device_id

abbrev pub new_release_state : String → Time → DeviceReleaseState
new_release_state device_id now = record {
  device_id = device_id;
  current_tag = none;
  current_commit = none;
  current_manifest_id = none;
  current_artifact_sha256 = none;
  last_healthy_at = none;
  last_failed_tag = none;
  last_failed_manifest_id = none;
  rollback_tag = none;
  pending_manifest_id = none;
  pending_artifact_sha256 = none;
  last_deployment_id = none;
  updated_at = now;
}

-- `_device_release_state`: the row of the device, a new one where there is none
unfoldable pub device_release_state :
    {F : Type 0} → String → Time → Store F → DeviceReleaseState × Store F
device_release_state device_id now store =
    elim (find (is_state_of device_id) store.release_states) [
      | some row ↦ (row, store)
      | none ↦ (
        new_release_state device_id now,
        record store {
          release_states = store.release_states ++ new_release_state device_id now ∷ [];
        },
      )
    ]

-- `if tag:`
abbrev pub is_given : Option String → Bool
is_given none = false
is_given (some tag) = not (str_eq tag "")

-- what a report makes of the device's release state
unfoldable pub release_state_after :
    {F : Type 0}
    → TargetStatus
    → Deployment F
    → ReleaseManifest
    → Time
    → DeviceReleaseState
    → DeviceReleaseState
release_state_after state deployment manifest ts row =
    if is_healthy state
    then record row {
      current_tag = some manifest.git_tag;
      current_commit = some manifest.commit_sha;
      current_manifest_id = some manifest.id;
      current_artifact_sha256 = some manifest.artifact_sha256;
      pending_manifest_id = none;
      pending_artifact_sha256 = none;
      last_healthy_at = some ts;
      last_deployment_id = some deployment.id;
      updated_at = ts;
    }
    else if is_failed state
    then record row {
      last_failed_tag = some manifest.git_tag;
      last_failed_manifest_id = some manifest.id;
      rollback_tag = deployment.rollback_to_tag;
      last_deployment_id = some deployment.id;
      updated_at = ts;
    }
    else if is_in_progress state
    then record row {
      pending_manifest_id = some manifest.id;
      pending_artifact_sha256 = some manifest.artifact_sha256;
      last_deployment_id = some deployment.id;
      updated_at = ts;
    }
    else if is_rolled_back state
    then record row {
      current_tag =
          if is_given deployment.rollback_to_tag
          then deployment.rollback_to_tag
          else row.current_tag;
      pending_manifest_id = none;
      pending_artifact_sha256 = none;
      last_deployment_id = some deployment.id;
      updated_at = ts;
    }
    else row

unfoldable pub store_release_state : {F : Type 0} → DeviceReleaseState → Store F → Store F
store_release_state state store = record store {
  release_states =
      map (λ row. if is_state_of state.device_id row then state else row) store.release_states;
}

-- the device's release state after a report
unfoldable pub update_release_state :
    {F : Type 0} → TargetStatus → Deployment F → ReleaseManifest → String → Time → Store F → Store F
unfolding device_release_state release_state_after store_release_state
update_release_state state deployment manifest device_id ts store =
    let (row, with_row) = device_release_state device_id ts store in
    store_release_state (release_state_after state deployment manifest ts row) with_row
