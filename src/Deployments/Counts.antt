-- ===== src/Deployments/Counts.antt =====
-- `deployment_counts` of api/app/services/device_updates.py counts every target once.
use edgewatch_telemetry.Prelude.{
  ℕ, suc, ◌+◌, ◌≡◌, true, false, Bool, List, [], ◌∷◌, arith, count, length, filter,
}
use edgewatch_telemetry.Deployments.{
  Store, TargetStatus, queued, downloading, downloaded, verifying, applying, staged, switching,
  restarting, healthy, rolled_back, failed, deferred, DeploymentTarget, is_queued, is_in_progress,
  is_deferred, is_healthy, is_failed, is_rolled_back,
}
use edgewatch_telemetry.Deployments.Totals.{
  DeploymentCounts, count_target, count_targets, no_targets, is_target_of, deployment_counts,
}

-- how many of the targets have a status of a class
abbrev pub in_class : (TargetStatus → Bool) → List DeploymentTarget → ℕ
in_class p rows = count (λ row. p row.status) rows

-- the counts after `rows` are those before, with the targets of each class added
abbrev pub IsCounted : DeploymentCounts → DeploymentCounts → List DeploymentTarget → Type 0
IsCounted before after rows =
    (after.total_targets ≡ before.total_targets + length rows)
    × (after.queued_targets ≡ before.queued_targets + in_class is_queued rows)
    × (after.in_progress_targets ≡ before.in_progress_targets + in_class is_in_progress rows)
    × (after.deferred_targets ≡ before.deferred_targets + in_class is_deferred rows)
    × (after.healthy_targets ≡ before.healthy_targets + in_class is_healthy rows)
    × (after.failed_targets ≡ before.failed_targets + in_class is_failed rows)
    × (after.rolled_back_targets ≡ before.rolled_back_targets + in_class is_rolled_back rows)

-- one or none
abbrev one_if : Bool → ℕ
one_if true = 1
one_if false = 0

one_target :
    (c : DeploymentCounts) (s : TargetStatus)
    → ((count_target s c).total_targets ≡ suc c.total_targets)
      × ((count_target s c).queued_targets ≡ c.queued_targets + one_if (is_queued s))
      × ((count_target s c).in_progress_targets ≡ c.in_progress_targets + one_if (is_in_progress s))
      × ((count_target s c).deferred_targets ≡ c.deferred_targets + one_if (is_deferred s))
      × ((count_target s c).healthy_targets ≡ c.healthy_targets + one_if (is_healthy s))
      × ((count_target s c).failed_targets ≡ c.failed_targets + one_if (is_failed s))
      × ((count_target s c).rolled_back_targets ≡ c.rolled_back_targets + one_if (is_rolled_back s))
unfolding count_target
one_target c queued = ground arith
one_target c downloading = ground arith
one_target c downloaded = ground arith
one_target c verifying = ground arith
one_target c applying = ground arith
one_target c staged = ground arith
one_target c switching = ground arith
one_target c restarting = ground arith
one_target c healthy = ground arith
one_target c rolled_back = ground arith
one_target c failed = ground arith
one_target c deferred = ground arith

count_targets-IsCounted :
    (c : DeploymentCounts) (rows : List DeploymentTarget) → IsCounted c (count_targets c rows) rows
unfolding count_targets
count_targets-IsCounted c [] = ground arith
count_targets-IsCounted c (row ∷ rows) =
    ground
      (arith, one_target c row.status, count_targets-IsCounted (count_target row.status c) rows)

-- the targets of all classes
abbrev pub classified : DeploymentCounts → ℕ
classified c =
    c.queued_targets + c.in_progress_targets + c.deferred_targets + c.healthy_targets
    + c.failed_targets + c.rolled_back_targets

one_class :
    (c : DeploymentCounts) (s : TargetStatus) → classified (count_target s c) ≡ suc (classified c)
unfolding count_target
one_class c queued = omega arith
one_class c downloading = omega arith
one_class c downloaded = omega arith
one_class c verifying = omega arith
one_class c applying = omega arith
one_class c staged = omega arith
one_class c switching = omega arith
one_class c restarting = omega arith
one_class c healthy = omega arith
one_class c rolled_back = omega arith
one_class c failed = omega arith
one_class c deferred = omega arith

count_targets-classified :
    (c : DeploymentCounts) (rows : List DeploymentTarget)
    → classified (count_targets c rows) ≡ classified c + length rows
unfolding count_targets
count_targets-classified c [] = omega arith
count_targets-classified c (row ∷ rows) =
    omega (arith, one_class c row.status, count_targets-classified (count_target row.status c) rows)

-- The counts of a deployment are the numbers of its targets, and of those in each class of
-- statuses; every target is in one class, so the classes add up to the total.
pub deployment_counts-IsCounted :
    {F : Type 0} (deployment_id : ℕ) (store : Store F)
    → IsCounted no_targets
        (deployment_counts deployment_id store)
        (filter (is_target_of deployment_id) store.deployment_targets)
      × (classified (deployment_counts deployment_id store)
          ≡ (deployment_counts deployment_id store).total_targets)
unfolding deployment_counts
deployment_counts-IsCounted deployment_id store =
    let rows = filter (is_target_of deployment_id) store.deployment_targets in
    let counted = count_targets-IsCounted no_targets rows in
    (counted, omega (arith, counted.0, count_targets-classified no_targets rows))
