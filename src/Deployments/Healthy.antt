-- ===== src/Deployments/Healthy.antt =====
-- What healthy targets make of the evaluation of a deployment, in
-- api/app/services/device_updates.py.
use edgewatch_telemetry.Prelude.{
  ℕ, suc, ◌≤◌, ◌<◌, ◌≡◌, inl, inr, refl, sym, ap, Bool, true, false, some, List, [], ◌∷◌, map,
  length, filter, all, arith, ltb, ◌==◌, ==_iff, ◌||◌, Bool-cases, if◌then◌else◌,
}
use mathlib.Core.Path.{subst}
use edgewatch_telemetry.Prelude.Time.{Time}
use edgewatch_telemetry.Deployments.{
  Calls, DeploymentRow, completed, TargetStatus, queued, downloading, downloaded, verifying,
  applying, staged, switching, restarting, healthy, rolled_back, failed, deferred, DeploymentTarget,
  Deployment, is_healthy, is_deferred, is_terminal, is_failure,
}
use edgewatch_telemetry.Deployments.Selector.{is_empty_list}
use edgewatch_telemetry.Deployments.Progress.{
  stage_advanced, rollout_completed, rollout_verdict, deferred_rows, observed_rows, defer_rate,
  failure_rate,
}
use edgewatch_telemetry.Prelude.{find}

healthy_class :
    (s : TargetStatus)
    → is_healthy s ≡ true
    → (is_deferred s ≡ false) × (is_terminal s ≡ true) × (is_failure s ≡ false)
healthy_class queued h = ground arith
healthy_class downloading h = ground arith
healthy_class downloaded h = ground arith
healthy_class verifying h = ground arith
healthy_class applying h = ground arith
healthy_class staged h = ground arith
healthy_class switching h = ground arith
healthy_class restarting h = ground arith
healthy_class healthy h = (refl, refl, refl)
healthy_class rolled_back h = ground arith
healthy_class failed h = ground arith
healthy_class deferred h = ground arith

abbrev pub all_healthy : List DeploymentTarget → Bool
all_healthy rows = all (λ row. is_healthy row.status) rows

healthy_rows :
    (rows : List DeploymentTarget)
    → all_healthy rows ≡ true
    → (length (deferred_rows rows) ≡ 0)
      × (observed_rows rows ≡ rows)
      × (length (filter (λ row. is_failure row.status) rows) ≡ 0)
healthy_rows [] h = (refl, refl, refl)
healthy_rows (row ∷ rows) h = elim (Bool-cases (is_healthy row.status)) [
  | inr other ↦ ground arith
  | inl good ↦
      let (a, b, c) = healthy_class row.status good in
      let (rest_deferred, rest_observed, rest_failed) = healthy_rows rows (ground arith) in
      (ground arith, rw b (ap (◌∷◌ row) rest_observed), ground arith)
]

-- Where all targets of the stages so far are healthy, and no share of none is too large, the
-- deployment moves on.
pub verdict-healthy :
    (calls : Calls) (d : DeploymentRow calls) (n : ℕ) (now : Time) (rows : List DeploymentTarget)
    → all_healthy rows ≡ true
    → is_empty_list rows ≡ false
    → calls.floats.less d.defer_rate_threshold (calls.ratio 0 (length rows)) ≡ false
    → calls.floats.less d.failure_rate_threshold (calls.ratio 0 (length rows)) ≡ false
    → rollout_verdict calls d n now rows
      ≡ (if ltb (suc d.stage) n then stage_advanced else rollout_completed)
unfolding rollout_verdict
verdict-healthy calls d n now rows h filled low_defer low_failure =
    let (none_deferred, all_observed, none_failed) = healthy_rows rows h in
    let defer_ok : calls.floats.less d.defer_rate_threshold (defer_rate calls rows) ≡ false =
      subst (λ m. calls.floats.less d.defer_rate_threshold (calls.ratio m (length rows)) ≡ false)
        (sym none_deferred) low_defer in
    let failure_ok : calls.floats.less d.failure_rate_threshold (failure_rate calls rows) ≡ false =
      subst
        (λ xs.
          calls.floats.less d.failure_rate_threshold
            (calls.ratio (length (filter (λ row. is_failure row.status) xs)) (length xs))
          ≡ false)
        (sym all_observed)
        (subst
          (λ m. calls.floats.less d.failure_rate_threshold (calls.ratio m (length rows)) ≡ false)
          (sym none_failed) low_failure) in
    let same_length : (length (observed_rows rows) == length rows) ≡ true =
      (==_iff (length (observed_rows rows)) (length rows)).1 (ap length all_observed) in
    let some_observed : is_empty_list (observed_rows rows) ≡ false =
      subst (λ xs. is_empty_list xs ≡ false) (sym all_observed) filled in
    rw (filled, defer_ok, some_observed, failure_ok, same_length, rollout_verdict) refl

module _ (t : DeploymentTarget) (p q : DeploymentTarget → Bool) (in_stage : p t ≡ true) where
  abbrev written : List DeploymentTarget → List DeploymentTarget
  written rows = map (λ row. if q row then t else row) rows

  pub written-filled :
      (found : DeploymentTarget) (rows : List DeploymentTarget)
      → find q rows ≡ some found
      → is_empty_list (filter p (written rows)) ≡ false
  written-filled found [] h = ground arith
  written-filled found (row ∷ rows) h = ground (arith, written-filled found rows)

  pub written-healthy :
      (rows : List DeploymentTarget)
      → is_healthy t.status ≡ true
      → all (λ row. is_healthy row.status || q row) (filter p rows) ≡ true
      → all_healthy (filter p (written rows)) ≡ true
  written-healthy [] good h = refl
  written-healthy (row ∷ rows) good h = ground (arith, written-healthy rows good)

-- the deployment has gone to its next stage, or is completed after its last one
pub data MovedOn {F : Type 0} (n : ℕ) (d : Deployment F) (d' : Deployment F) : Type 0 where
  to_next : suc d.stage < n → d'.stage ≡ suc d.stage → d'.status ≡ d.status → MovedOn n d d'
  to_end : n ≤ suc d.stage → d'.status ≡ completed → MovedOn n d d'
