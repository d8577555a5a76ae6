-- ===== src/Deployments/Operations.antt =====
-- What operators do with over-the-air deployments: the creation, pause, resumption and abortion of
-- a deployment, of api/app/services/device_updates.py.
-- `stored_at` is a later reading of the clock, the time of the rows stored.
use edgewatch_telemetry.Prelude.{
  ℕ, suc, ◌+◌, max, String, Bool, not, Option, none, some, List, [], ◌∷◌, ◌++◌, map, ◌==◌, str_eq,
  length, if◌then◌else◌,
}
use edgewatch_telemetry.Prelude.Int.{ℤ, pos, clamp_nonneg}
use edgewatch_telemetry.Prelude.Text.{strip, or_default, show}
use edgewatch_telemetry.Prelude.Dict.{Dict}
use edgewatch_telemetry.Prelude.Time.{Time, seconds}
use edgewatch_telemetry.Rollout.{normalize_rollout_stages, stage_threshold_counts, stage_for_index}
use edgewatch_telemetry.Alerting.Notify.{PlatformEvent}
use edgewatch_telemetry.Alerting.Notify.Platform.{process_platform_event}
use edgewatch_telemetry.Deployments.{
  Calls, Tables, DeploymentRow, Store, DeploymentStatus, active, paused, aborted, queued,
  TargetSelector, ReleaseManifest, Deployment, DeploymentTarget, DeploymentEvent, Outcome, done,
  value_error, is_active, is_paused, is_ended, status_name,
}
use edgewatch_telemetry.Deployments.Selector.{
  RawSelector, normalize_target_selector, target_device_ids, is_empty_list,
}

-- the JSON text of a value that may be None
abbrev pub json_text : Option String → String
json_text none = "null"
json_text (some s) = s

-- the platform event of a deployment event, whose row has no time before it is flushed
unfoldable pub deployment_platform_event : ℕ → String → Option String → Dict String → PlatformEvent
deployment_platform_event deployment_id event_type device_id details = record {
  source_kind = "deployment_event";
  source_id = none;
  device_id = elim device_id [ some id ↦ id | none ↦ "" ];
  event_type = event_type;
  severity = "info";
  message = event_type;
  payload = ("deployment_id", show (pos deployment_id)) ∷ details;
  created_at = none;
}

-- `_event`
unfoldable pub event :
    (calls : Calls) → ℕ → String → Option String → Dict String → Time → Tables calls → Tables calls
unfolding deployment_platform_event
event calls deployment_id event_type device_id details stored_at store =
    let row : DeploymentEvent = record {
      deployment_id = deployment_id;
      event_type = event_type;
      device_id = device_id;
      details = details;
      created_at = stored_at;
    } in
    record store {
      deployment_events = store.deployment_events ++ row ∷ [];
      session =
          process_platform_event calls.world calls.settings
            (deployment_platform_event deployment_id event_type device_id details) stored_at
            store.session;
    }

-- the arguments of `create_deployment` beside its manifest
pub record DeploymentArguments (F : Type 0) : Type 0 where
  pub created_by : String
  pub target_selector : RawSelector
  pub rollout_stages_pct : List ℤ
  pub failure_rate_threshold : F
  pub no_quorum_timeout_s : ℤ
  pub stage_timeout_s : Option ℤ
  pub defer_rate_threshold : F
  pub health_timeout_s : ℤ
  pub command_ttl_s : ℤ
  pub power_guard_required : Bool
  pub rollback_to_tag : Option String

-- `tag.strip() if tag else None`
abbrev pub strip_tag : Option String → Option String
strip_tag none = none
strip_tag (some tag) = if str_eq tag "" then none else some (strip tag)

abbrev pub timeout_or : Option ℤ → ℤ → ℤ
timeout_or none other = other
timeout_or (some timeout_s) other = timeout_s

unfoldable pub deployment_row :
    {F : Type 0}
    → DeploymentArguments F
    → ReleaseManifest
    → TargetSelector
    → List ℕ
    → Time
    → ℕ
    → Deployment F
deployment_row a manifest selector stages ts id = record {
  id = id;
  manifest_id = manifest.id;
  rollout_stages_pct = map pos stages;
  stage = 0;
  status = active;
  halt_reason = none;
  created_by = strip a.created_by;
  created_at = ts;
  updated_at = ts;
  failure_rate_threshold = a.failure_rate_threshold;
  no_quorum_timeout_s = a.no_quorum_timeout_s;
  stage_timeout_s = timeout_or a.stage_timeout_s a.no_quorum_timeout_s;
  defer_rate_threshold = a.defer_rate_threshold;
  command_expires_at = ts + seconds (max 60 (clamp_nonneg a.command_ttl_s));
  power_guard_required = a.power_guard_required;
  health_timeout_s = a.health_timeout_s;
  rollback_to_tag = strip_tag a.rollback_to_tag;
  target_selector = selector;
}

-- the targets of the devices from the `idx`-th on
unfoldable pub new_targets : ℕ → List ℕ → ℕ → List String → List DeploymentTarget
new_targets deployment_id stage_counts idx [] = []
new_targets deployment_id stage_counts idx (device_id ∷ device_ids) =
    let target : DeploymentTarget = record {
      deployment_id = deployment_id;
      device_id = device_id;
      stage_assigned = stage_for_index idx stage_counts;
      status = queued;
      last_report_at = none;
      failure_reason = none;
      report_details = [];
    } in
    target ∷ new_targets deployment_id stage_counts (suc idx) device_ids

-- a deployment to devices that are given, of which there are some
unfoldable pub add_deployment :
    (calls : Calls)
    → DeploymentArguments calls.floats.Value
    → ReleaseManifest
    → TargetSelector
    → List ℕ
    → List String
    → Time
    → Time
    → Tables calls
    → DeploymentRow calls × Tables calls
unfolding deployment_row new_targets event
add_deployment calls a manifest selector stages target_ids ts stored_at store =
    let deployment = deployment_row a manifest selector stages ts store.next_id in
    let stage_counts = stage_threshold_counts (length target_ids) stages in
    (
      deployment,
      event calls deployment.id "deployment.created" none
          (("manifest_id", show (pos manifest.id))
            ∷ ("target_count", show (pos (length target_ids)))
            ∷ ("rollout_stages_pct", calls.json_stages stages)
            ∷ ("target_selector", calls.json_selector selector)
            ∷ [])
          stored_at
          (record store {
            deployments = store.deployments ++ deployment ∷ [];
            deployment_targets =
                store.deployment_targets ++ new_targets deployment.id stage_counts 0 target_ids;
            next_id = suc store.next_id;
          }),
    )

unfoldable pub create_deployment :
    (calls : Calls)
    → DeploymentArguments calls.floats.Value
    → ReleaseManifest
    → Time
    → Time
    → Tables calls
    → Outcome (DeploymentRow calls × Tables calls)
create_deployment calls a manifest ts stored_at store =
    elim (normalize_target_selector calls.world.lower a.target_selector) [
      | value_error ↦ value_error
      | Outcome.lookup_error ↦ Outcome.lookup_error
      | done selector ↦ elim (normalize_rollout_stages a.rollout_stages_pct) [
        | none ↦ value_error
        | some stages ↦
            let target_ids = target_device_ids calls selector store.devices in
            if is_empty_list target_ids
            then value_error
            else done
                (add_deployment calls a manifest selector stages target_ids ts stored_at store)
      ]
    ]

-- the write of a changed row
unfoldable pub store_deployment : {F : Type 0} → Deployment F → Store F → Store F
store_deployment deployment store = record store {
  deployments = map (λ d. if d.id == deployment.id then deployment else d) store.deployments;
}

unfoldable pub set_deployment_status :
    (calls : Calls)
    → DeploymentRow calls
    → DeploymentStatus
    → Option String
    → String
    → Time
    → Time
    → Tables calls
    → DeploymentRow calls × Tables calls
unfolding store_deployment event
set_deployment_status calls deployment status reason event_type now stored_at store =
    let changed : DeploymentRow calls = record deployment {
      status = status;
      halt_reason = reason;
      updated_at = now;
    } in
    (
      changed,
      event calls deployment.id event_type none
          (("status", status_name status) ∷ ("reason", json_text reason) ∷ []) stored_at
          (store_deployment changed store),
    )

unfoldable pub pause_deployment :
    (calls : Calls)
    → DeploymentRow calls
    → Time
    → Time
    → Tables calls
    → Outcome (DeploymentRow calls × Tables calls)
pause_deployment calls deployment now stored_at store =
    if not (is_active deployment.status)
    then value_error
    else done (
        set_deployment_status calls deployment paused deployment.halt_reason "deployment.paused" now
          stored_at store)

unfoldable pub resume_deployment :
    (calls : Calls)
    → DeploymentRow calls
    → Time
    → Time
    → Tables calls
    → Outcome (DeploymentRow calls × Tables calls)
resume_deployment calls deployment now stored_at store =
    if not (is_paused deployment.status)
    then value_error
    else done (
        set_deployment_status calls deployment active none "deployment.resumed" now stored_at store)

-- `(reason or "").strip() or "aborted by operator"`
abbrev pub abort_reason : Option String → String
abort_reason none = "aborted by operator"
abort_reason (some reason) = or_default (strip reason) "aborted by operator"

unfoldable pub abort_deployment :
    (calls : Calls)
    → DeploymentRow calls
    → Option String
    → Time
    → Time
    → Tables calls
    → Outcome (DeploymentRow calls × Tables calls)
abort_deployment calls deployment reason now stored_at store =
    if is_ended deployment.status
    then value_error
    else done (
        set_deployment_status calls deployment aborted (some (abort_reason reason))
          "deployment.aborted" now stored_at store)
