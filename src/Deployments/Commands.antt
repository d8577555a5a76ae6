-- ===== src/Deployments/Commands.antt =====
-- The update command that a device fetches: `get_pending_update_command` of
-- api/app/services/device_updates.py.
use edgewatch_telemetry.Prelude.{
  ℕ, ◌+◌, ◌*◌, String, Bool, true, ◌&&◌, ◌||◌, Option, none, some, List, map, filter, ltb, for_each,
  leb, ◌==◌, str_eq, if◌then◌else◌,
}
use Prim.Native.String.{◌++◌ as ◌+++◌}
use edgewatch_telemetry.Prelude.Int.{ℤ, pos}
use edgewatch_telemetry.Prelude.Text.{strip, show}
use edgewatch_telemetry.Prelude.Dict.{Dict}
use edgewatch_telemetry.Prelude.Time.{Time}
use edgewatch_telemetry.Deployments.{
  Calls, Tables, Store, TargetStatus, OtaDevice, ReleaseManifest, Deployment, DeploymentTarget,
  is_active, is_progressing,
}
use edgewatch_telemetry.Prelude.{find}

pub record UpdateCommand : Type 0 where
  pub deployment_id : ℕ
  pub manifest_id : ℕ
  pub git_tag : String
  pub commit_sha : String
  pub update_type : String
  pub artifact_uri : String
  pub artifact_size : ℤ
  pub artifact_sha256 : String
  pub artifact_signature : String
  pub artifact_signature_scheme : String
  pub compatibility : Dict String
  pub issued_at : Time
  pub expires_at : Time
  pub signature : String
  pub signature_key_id : String
  pub rollback_to_tag : Option String
  pub health_timeout_s : ℤ
  pub power_guard_required : Bool
  pub target_status : TargetStatus
  pub updates_enabled : Bool
  pub busy_reason : Option String

-- a row of the query's join
pub record Candidate (F : Type 0) : Type 0 where
  pub target : DeploymentTarget
  pub deployment : Deployment F
  pub manifest : ReleaseManifest

-- the join on the targets' deployments and the deployments' manifests
unfoldable pub candidates : {F : Type 0} → Store F → List (Candidate F)
candidates store =
    for_each
      (λ target.
        for_each
          (λ deployment.
            map
              (λ manifest. record { target = target; deployment = deployment; manifest = manifest })
              (filter (λ m. m.id == deployment.manifest_id) store.manifests))
          (filter (λ d. d.id == target.deployment_id) store.deployments))
      store.deployment_targets

-- the filters of the query
unfoldable pub is_candidate : {F : Type 0} → String → Time → Candidate F → Bool
is_candidate device_id ts c =
    str_eq c.target.device_id device_id
    && is_active c.deployment.status
    && ltb ts c.deployment.command_expires_at
    && leb c.target.stage_assigned c.deployment.stage
    && is_progressing c.target.status
    && str_eq c.manifest.status "active"

-- `ORDER BY updated_at, created_at`, where a datetime is less than 10^18 microseconds
abbrev pub candidate_key : {F : Type 0} → Candidate F → ℕ
candidate_key c = c.deployment.updated_at * 1000000000000000000 + c.deployment.created_at

-- `str(lock or "").strip() or None` is no other manifest's id
abbrev pub is_unlocked : Option String → ℕ → Bool
is_unlocked none manifest_id = true
is_unlocked (some lock) manifest_id =
    str_eq (strip lock) "" || str_eq (show (pos manifest_id)) (strip lock)

unfoldable pub command_of : {F : Type 0} → OtaDevice → Candidate F → UpdateCommand
command_of device c = record {
  deployment_id = c.deployment.id;
  manifest_id = c.manifest.id;
  git_tag = c.manifest.git_tag;
  commit_sha = c.manifest.commit_sha;
  update_type = c.manifest.update_type;
  artifact_uri = c.manifest.artifact_uri;
  artifact_size = c.manifest.artifact_size;
  artifact_sha256 = c.manifest.artifact_sha256;
  artifact_signature = c.manifest.artifact_signature;
  artifact_signature_scheme = c.manifest.artifact_signature_scheme;
  compatibility = c.manifest.compatibility;
  issued_at = c.deployment.updated_at;
  expires_at = c.deployment.command_expires_at;
  signature = c.manifest.signature;
  signature_key_id = c.manifest.signature_key_id;
  rollback_to_tag = c.deployment.rollback_to_tag;
  health_timeout_s = c.deployment.health_timeout_s;
  power_guard_required = c.deployment.power_guard_required;
  target_status = c.target.status;
  updates_enabled = device.ota_updates_enabled;
  busy_reason = device.ota_busy_reason;
}

-- the command for the row that the query finds
unfoldable pub unlocked_command :
    {F : Type 0} → OtaDevice → Option (Candidate F) → Option UpdateCommand
unfolding command_of
unlocked_command device none = none
unlocked_command device (some c) =
    if is_unlocked device.ota_locked_manifest_id c.manifest.id
    then some (command_of device c)
    else none

unfoldable pub get_pending_update_command :
    (calls : Calls) → String → Time → Tables calls → Option UpdateCommand
unfolding candidates is_candidate unlocked_command
get_pending_update_command calls device_id ts store =
    elim (find (λ d. str_eq d.device_id device_id) store.devices) [
      | none ↦ none
      | some device ↦
          if device.ota_is_development
          then none
          else unlocked_command device (
              calls.world.sql.newest (Candidate calls.floats.Value) candidate_key
                (filter (is_candidate device_id ts) (candidates store)))
    ]

abbrev pub etag_of : (calls : Calls) → Option UpdateCommand → String
etag_of calls none = "none"
etag_of calls (some pending) =
    show (pos pending.deployment_id)
    +++ ":"
    +++ show (pos pending.manifest_id)
    +++ ":"
    +++ pending.git_tag
    +++ ":"
    +++ pending.commit_sha
    +++ ":"
    +++ pending.artifact_sha256
    +++ ":"
    +++ calls.isoformat pending.expires_at

unfoldable pub update_command_etag_fragment :
    (calls : Calls) → String → Time → Tables calls → String
unfolding get_pending_update_command
update_command_etag_fragment calls device_id ts store =
    etag_of calls (get_pending_update_command calls device_id ts store)
