-- ===== src/Deployments.antt =====
-- Over-the-air deployments: api/app/services/device_updates.py. A release manifest is deployed to the
-- devices that a selector picks, stage by stage (Rollout); the devices fetch commands and report.
-- A row's `id`, a fresh uuid4 in the program, is the number of ids drawn before it.
pub mod Selector
pub mod Manifests
pub mod Operations
pub mod Totals
pub mod Progress
pub mod ReleaseStates
pub mod Reports
pub mod Commands
pub mod Statuses
pub mod Rows
pub mod Moves
pub mod Lifecycle
pub mod Safety
pub mod Timeouts
pub mod Counts
pub mod Gating
pub mod Picked
pub mod Targets
pub mod Healthy
pub mod Liveness
pub mod Events
use edgewatch_telemetry.Prelude.{
  ℕ, String, Bool, true, false, Option, List, [], ◌∷◌, map, count, ◌≡◌,
}
use edgewatch_telemetry.Prelude.Sql.{AllRows}
use edgewatch_telemetry.Prelude.Int.{ℤ}
use edgewatch_telemetry.Prelude.Dict.{Dict}
use edgewatch_telemetry.Prelude.Float.{Floats}
use edgewatch_telemetry.Prelude.Time.{Time}
use edgewatch_telemetry.Alerting.{Session, Settings, World}

pub data DeploymentStatus : Type 0 where
  active paused aborted halted completed : DeploymentStatus

pub data TargetStatus : Type 0 where
  queued downloading downloaded verifying applying staged switching restarting : TargetStatus
  healthy rolled_back failed deferred : TargetStatus

-- a normalized target selector, `none` and `[]` for keys that it does not have
pub record TargetSelector : Type 0 where
  pub mode : String
  pub cohort : Option String
  pub channel : Option String
  pub labels : Dict String
  pub device_ids : List String

-- the columns of `devices` that deployments read
pub record OtaDevice : Type 0 where
  pub device_id : String
  pub enabled : Bool
  pub cohort : Option String
  pub labels : Dict String
  pub ota_channel : String
  pub ota_updates_enabled : Bool
  pub ota_busy_reason : Option String
  pub ota_is_development : Bool
  pub ota_locked_manifest_id : Option String

pub record ReleaseManifest : Type 0 where
  pub id : ℕ
  pub git_tag : String
  pub commit_sha : String
  pub update_type : String
  pub artifact_uri : String
  pub artifact_size : ℤ
  pub artifact_sha256 : String
  pub artifact_signature : String
  pub artifact_signature_scheme : String
  pub compatibility : Dict String
  pub signature : String
  pub signature_key_id : String
  pub constraints : Dict String
  pub created_by : String
  pub created_at : Time
  pub status : String

pub record Deployment (F : Type 0) : Type 0 where
  pub id : ℕ
  pub manifest_id : ℕ
  -- `strategy["rollout_stages_pct"]`
  pub rollout_stages_pct : List ℤ
  pub stage : ℕ
  pub status : DeploymentStatus
  pub halt_reason : Option String
  pub created_by : String
  pub created_at : Time
  pub updated_at : Time
  pub failure_rate_threshold : F
  pub no_quorum_timeout_s : ℤ
  pub stage_timeout_s : ℤ
  pub defer_rate_threshold : F
  pub command_expires_at : Time
  pub power_guard_required : Bool
  pub health_timeout_s : ℤ
  pub rollback_to_tag : Option String
  pub target_selector : TargetSelector

pub record DeploymentTarget : Type 0 where
  pub deployment_id : ℕ
  pub device_id : String
  pub stage_assigned : ℕ
  pub status : TargetStatus
  pub last_report_at : Option Time
  pub failure_reason : Option String
  pub report_details : Dict String

pub record DeviceReleaseState : Type 0 where
  pub device_id : String
  pub current_tag : Option String
  pub current_commit : Option String
  pub current_manifest_id : Option ℕ
  pub current_artifact_sha256 : Option String
  pub last_healthy_at : Option Time
  pub last_failed_tag : Option String
  pub last_failed_manifest_id : Option ℕ
  pub rollback_tag : Option String
  pub pending_manifest_id : Option ℕ
  pub pending_artifact_sha256 : Option String
  pub last_deployment_id : Option ℕ
  pub updated_at : Time

pub record DeploymentEvent : Type 0 where
  pub deployment_id : ℕ
  pub event_type : String
  pub device_id : Option String
  pub details : Dict String
  pub created_at : Time

-- the tables of the database, those of the alerting pipeline in `session`
pub record Store (F : Type 0) : Type 0 where
  pub session : Session
  pub devices : List OtaDevice
  pub manifests : List ReleaseManifest
  pub deployments : List (Deployment F)
  pub deployment_targets : List DeploymentTarget
  pub deployment_events : List DeploymentEvent
  pub release_states : List DeviceReleaseState
  pub next_id : ℕ

-- each text stands before or with the later ones in the order of texts `collates`
abbrev pub AreInOrder : (String → String → Bool) → List String → Type 0
AreInOrder collates [] = Unit
AreInOrder collates (s ∷ texts) =
    AllRows (λ t. collates s t ≡ true) texts × AreInOrder collates texts

-- What the service calls: the alerting pipeline's world and settings, float division, the JSON text
-- of a float, of a list of stages and of a selector, `s.lower()`, `datetime.isoformat()`, and the
-- database's order of texts with `ORDER BY device_id ASC`, which keeps the rows and orders their ids
-- by it.
pub record Calls : Type 1 where
  pub world : World
  pub settings : Settings
  pub floats : Floats
  pub ratio : ℕ → ℕ → floats.Value
  pub json_float : floats.Value → String
  pub json_stages : List ℕ → String
  pub json_selector : TargetSelector → String
  pub isoformat : Time → String
  pub by_device_id : List OtaDevice → List OtaDevice
  pub by_device_id_count :
      (p : OtaDevice → Bool) (rows : List OtaDevice) → count p (by_device_id rows) ≡ count p rows
  pub collates : String → String → Bool
  pub by_device_id_ordered :
      (rows : List OtaDevice) → AreInOrder collates (map (λ d. d.device_id) (by_device_id rows))

abbrev pub Tables : Calls → Type 0
Tables calls = Store calls.floats.Value

abbrev pub DeploymentRow : Calls → Type 0
DeploymentRow calls = Deployment calls.floats.Value

-- a call's result, or the exception that it raises, after which its transaction is rolled back
pub data Outcome (A : Type 0) : Type 0 where
  done : A → Outcome A
  value_error : Outcome A
  lookup_error : Outcome A

abbrev pub is_active : DeploymentStatus → Bool
is_active active = true
is_active _ = false

abbrev pub is_paused : DeploymentStatus → Bool
is_paused paused = true
is_paused _ = false

-- the statuses that end a deployment
abbrev pub is_ended : DeploymentStatus → Bool
is_ended aborted = true
is_ended completed = true
is_ended _ = false

abbrev pub status_name : DeploymentStatus → String
status_name active = "active"
status_name paused = "paused"
status_name aborted = "aborted"
status_name halted = "halted"
status_name completed = "completed"

-- `TERMINAL_TARGET_STATUSES`
abbrev pub is_terminal : TargetStatus → Bool
is_terminal healthy = true
is_terminal rolled_back = true
is_terminal failed = true
is_terminal _ = false

-- `PROGRESSING_TARGET_STATUSES`, the other ones
abbrev pub is_progressing : TargetStatus → Bool
is_progressing healthy = false
is_progressing rolled_back = false
is_progressing failed = false
is_progressing _ = true

abbrev pub is_failure : TargetStatus → Bool
is_failure failed = true
is_failure rolled_back = true
is_failure _ = false

abbrev pub is_queued : TargetStatus → Bool
is_queued queued = true
is_queued _ = false

abbrev pub is_deferred : TargetStatus → Bool
is_deferred deferred = true
is_deferred _ = false

abbrev pub is_healthy : TargetStatus → Bool
is_healthy healthy = true
is_healthy _ = false

abbrev pub is_failed : TargetStatus → Bool
is_failed failed = true
is_failed _ = false

abbrev pub is_rolled_back : TargetStatus → Bool
is_rolled_back rolled_back = true
is_rolled_back _ = false

-- at work on the update, from the download to the restart
abbrev pub is_in_progress : TargetStatus → Bool
is_in_progress downloading = true
is_in_progress downloaded = true
is_in_progress verifying = true
is_in_progress applying = true
is_in_progress staged = true
is_in_progress switching = true
is_in_progress restarting = true
is_in_progress _ = false

abbrev pub target_status_name : TargetStatus → String
target_status_name queued = "queued"
target_status_name downloading = "downloading"
target_status_name downloaded = "downloaded"
target_status_name verifying = "verifying"
target_status_name applying = "applying"
target_status_name staged = "staged"
target_status_name switching = "switching"
target_status_name restarting = "restarting"
target_status_name healthy = "healthy"
target_status_name rolled_back = "rolled_back"
target_status_name failed = "failed"
target_status_name deferred = "deferred"
