-- ===== src/Deployments/Totals.antt =====
-- How far a deployment's targets are: `deployment_counts` of api/app/services/device_updates.py.
use edgewatch_telemetry.Prelude.{ℕ, suc, Bool, List, [], ◌∷◌, ◌==◌, filter, if◌then◌else◌}
use edgewatch_telemetry.Deployments.{
  Store, TargetStatus, DeploymentTarget, is_queued, is_in_progress, is_deferred, is_healthy,
  is_failed, is_rolled_back,
}

pub record DeploymentCounts : Type 0 where
  pub total_targets : ℕ
  pub queued_targets : ℕ
  pub in_progress_targets : ℕ
  pub deferred_targets : ℕ
  pub healthy_targets : ℕ
  pub failed_targets : ℕ
  pub rolled_back_targets : ℕ

-- one round of the loop of `deployment_counts`
unfoldable pub count_target : TargetStatus → DeploymentCounts → DeploymentCounts
count_target status counts =
    let c : DeploymentCounts = record counts { total_targets = suc counts.total_targets } in
    if is_queued status
    then record c { queued_targets = suc c.queued_targets }
    else if is_in_progress status
    then record c { in_progress_targets = suc c.in_progress_targets }
    else if is_deferred status
    then record c { deferred_targets = suc c.deferred_targets }
    else if is_healthy status
    then record c { healthy_targets = suc c.healthy_targets }
    else if is_failed status
    then record c { failed_targets = suc c.failed_targets }
    else if is_rolled_back status
    then record c { rolled_back_targets = suc c.rolled_back_targets }
    else c

unfoldable pub count_targets : DeploymentCounts → List DeploymentTarget → DeploymentCounts
unfolding count_target
count_targets counts [] = counts
count_targets counts (row ∷ rows) = count_targets (count_target row.status counts) rows

abbrev pub no_targets : DeploymentCounts
no_targets = record {
  total_targets = 0;
  queued_targets = 0;
  in_progress_targets = 0;
  deferred_targets = 0;
  healthy_targets = 0;
  failed_targets = 0;
  rolled_back_targets = 0;
}

abbrev pub is_target_of : ℕ → DeploymentTarget → Bool
is_target_of deployment_id row = row.deployment_id == deployment_id

unfoldable pub deployment_counts : {F : Type 0} → ℕ → Store F → DeploymentCounts
unfolding count_targets
deployment_counts deployment_id store =
    count_targets no_targets (filter (is_target_of deployment_id) store.deployment_targets)
