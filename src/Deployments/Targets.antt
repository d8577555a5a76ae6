-- ===== src/Deployments/Targets.antt =====
-- Which targets a new deployment has, and in which stage each is reached: `create_deployment` of
-- api/app/services/device_updates.py.
use edgewatch_telemetry.Prelude.{
  ℕ, ◌<◌, ◌≡◌, ◌&&◌, str_eq, String, Bool, Option, none, some, List, ◌++◌, map, length, count, leb,
  if◌then◌else◌,
}
use edgewatch_telemetry.Prelude.Int.{pos}
use edgewatch_telemetry.Prelude.Time.{Time}
use edgewatch_telemetry.Rollout.{stage_threshold_counts}
use edgewatch_telemetry.Rollout.Stages.{reached}
use edgewatch_telemetry.Deployments.{
  Calls, Tables, DeploymentRow, ReleaseManifest, TargetSelector, DeploymentTarget, AreInOrder,
  Outcome, done, value_error, lookup_error,
}
use edgewatch_telemetry.Deployments.Selector.{target_device_ids, is_empty_list}
use edgewatch_telemetry.Deployments.Operations.{DeploymentArguments, add_deployment}
use edgewatch_telemetry.Deployments.Picked.{is_picked}

-- the target is reached by the stages up to `k`
abbrev pub is_reached : ℕ → DeploymentTarget → Bool
is_reached k t = leb t.stage_assigned k

abbrev creation :
    (calls : Calls)
    → DeploymentArguments calls.floats.Value
    → ReleaseManifest
    → Time
    → Time
    → Tables calls
    → Outcome TargetSelector
    → Option (List ℕ)
    → Outcome (DeploymentRow calls × Tables calls)
creation calls a manifest ts stored_at store selected normalized = elim selected [
  | value_error ↦ value_error
  | lookup_error ↦ lookup_error
  | done selector ↦ elim normalized [
    | none ↦ value_error
    | some stages ↦
        let target_ids = target_device_ids calls selector store.devices in
        if is_empty_list target_ids
        then value_error
        else done (add_deployment calls a manifest selector stages target_ids ts stored_at store)
  ]
]

-- the numbers of targets that the stages of a new deployment reach, of as many as there are devices
-- picked
abbrev pub stage_counts_of : (calls : Calls) → List ℕ → Tables calls → DeploymentRow calls → List ℕ
stage_counts_of calls stages store d =
    stage_threshold_counts (count (is_picked d.target_selector) store.devices) stages

abbrev pub ids_of : List DeploymentTarget → List String
ids_of targets = map (λ t. t.device_id) targets

-- the targets that a deployment and its tables have gained
pub record HasTargets (calls : Calls) (stages : List ℕ) (k : ℕ) (store : Tables calls)
    (r : DeploymentRow calls × Tables calls) : Type 0 where
  pub targets : List DeploymentTarget
  pub added : r.1.deployment_targets ≡ store.deployment_targets ++ targets
  pub ordered : AreInOrder calls.collates (ids_of targets)
  -- each id as often as a device with it is picked
  pub picked :
      (id : String)
      → count (str_eq id) (ids_of targets)
        ≡ count (λ v. is_picked r.0.target_selector v && str_eq id v.device_id) store.devices
  pub total : length targets ≡ count (is_picked r.0.target_selector) store.devices
  pub nonempty : 0 < length targets
  pub stored : r.0.rollout_stages_pct ≡ map pos stages
  pub staged : count (is_reached k) targets ≡ reached k (stage_counts_of calls stages store r.0)
