-- ===== src/Deployments/Safety.antt =====
-- When a deployment moves on, halts and completes: `_evaluate_rollout_progress` of
-- api/app/services/device_updates.py.
use edgewatch_telemetry.Prelude.{
  ℕ, suc, ◌≤◌, ◌<◌, ◌≡◌, inl, inr, refl, sym, ◌∙◌, ap, Bool, true, false, some, List, [], ◌∷◌,
  length, filter, arith, ◌==◌, Contains, count-le-length, length-filter,
}
use edgewatch_telemetry.Prelude.Int.{clamp_nonneg}
use mathlib.Core.Path.{subst}
use edgewatch_telemetry.Prelude.Time.{Time}
use edgewatch_telemetry.Rollout.{normalize_rollout_stages}
use edgewatch_telemetry.Deployments.{
  Calls, Tables, DeploymentRow, halted, completed, DeploymentTarget, Outcome, done, value_error,
  lookup_error, is_active, is_terminal,
}
use edgewatch_telemetry.Deployments.Selector.{is_empty_list}
use edgewatch_telemetry.Deployments.Progress.{
  Verdict, wait, defer_rate_exceeded, failure_rate_exceeded, no_quorum_timeout_exceeded,
  stage_timeout_exceeded, stage_advanced, rollout_completed, stage_targets, rollout_verdict, change,
  apply_verdict, evaluate_rollout_progress, observed_rows, defer_rate, failure_rate, has_timed_out,
}

full-all :
    {A : Type 0} (p : A → Bool) (xs : List A) (a : A)
    → length (filter p xs) ≡ length xs
    → Contains a xs
    → p a ≡ true
full-all p [] a h m = absurd m
full-all p (x ∷ xs) a h (inl e) = rw e (ground (arith, length-filter p xs, count-le-length p xs))
full-all p (x ∷ xs) a h (inr m) =
    full-all p xs a (ground (arith, length-filter p xs, count-le-length p xs)) m

module _ (calls : Calls) (d : DeploymentRow calls) (n : ℕ) (now : Time)
    (rows : List DeploymentTarget) where
  -- the targets reached have all come to an end, and not too many of them failed
  pub record IsPassed : Type 0 where
    pub some_rows : is_empty_list rows ≡ false
    pub all_terminal : (t : DeploymentTarget) → Contains t rows → is_terminal t.status ≡ true
    pub few_deferred : calls.floats.less d.defer_rate_threshold (defer_rate calls rows) ≡ false
    pub few_failures : calls.floats.less d.failure_rate_threshold (failure_rate calls rows) ≡ false

  -- what the decisions to move on say of the lists
  abbrev Passes : Type 0
  Passes =
      (is_empty_list rows ≡ false)
      × (length (observed_rows rows) ≡ length rows)
      × (calls.floats.less d.defer_rate_threshold (defer_rate calls rows) ≡ false)
      × (calls.floats.less d.failure_rate_threshold (failure_rate calls rows) ≡ false)

  passes-IsPassed : Passes → IsPassed
  passes-IsPassed (filled, same, deferred, failures) = record {
    some_rows = filled;
    all_terminal = λ t m. full-all (λ row. is_terminal row.status) rows t same m;
    few_deferred = deferred;
    few_failures = failures;
  }

  -- why a deployment is halted
  pub data IsHaltReason : Type 0 where
    deferred :
        calls.floats.less d.defer_rate_threshold (defer_rate calls rows) ≡ true → IsHaltReason
    failures :
        calls.floats.less d.failure_rate_threshold (failure_rate calls rows) ≡ true → IsHaltReason
    no_quorum :
        length (observed_rows rows) ≡ 0
        → has_timed_out d.updated_at now (clamp_nonneg d.no_quorum_timeout_s) ≡ true
        → IsHaltReason
    stage_timeout :
        length (observed_rows rows) < length rows
        → has_timed_out d.updated_at now (clamp_nonneg d.stage_timeout_s) ≡ true
        → IsHaltReason

  -- what becomes of the deployment `d` with `n` stages, of which those so far reach `rows`
  pub data Progressed : DeploymentRow calls → Type 0 where
    waits : Progressed d
    halts :
        (d' : DeploymentRow calls)
        → d'.status ≡ halted
        → d'.stage ≡ d.stage
        → IsHaltReason
        → Progressed d'
    advances :
        (d' : DeploymentRow calls)
        → d'.status ≡ d.status
        → d'.stage ≡ suc d.stage
        → suc d.stage < n
        → IsPassed
        → Progressed d'
    completes :
        (d' : DeploymentRow calls)
        → d'.status ≡ completed
        → d'.stage ≡ d.stage
        → n ≤ suc d.stage
        → IsPassed
        → Progressed d'

  observed_none : (xs : List DeploymentTarget) → is_empty_list xs ≡ true → length xs ≡ 0
  observed_none [] h = refl
  observed_none (x ∷ xs) h = ground arith

  verdict-deferred :
      (r : calls.floats.Value)
      → rollout_verdict calls d n now rows ≡ defer_rate_exceeded r
      → calls.floats.less d.defer_rate_threshold (defer_rate calls rows) ≡ true
  unfolding rollout_verdict
  verdict-deferred r h = ground arith

  verdict-failures :
      (r : calls.floats.Value)
      → rollout_verdict calls d n now rows ≡ failure_rate_exceeded r
      → calls.floats.less d.failure_rate_threshold (failure_rate calls rows) ≡ true
  unfolding rollout_verdict
  verdict-failures r h = ground arith

  verdict-no_quorum :
      rollout_verdict calls d n now rows ≡ no_quorum_timeout_exceeded
      → (is_empty_list (observed_rows rows) ≡ true)
        × (has_timed_out d.updated_at now (clamp_nonneg d.no_quorum_timeout_s) ≡ true)
  unfolding rollout_verdict
  verdict-no_quorum h = ground arith

  verdict-stage_timeout :
      rollout_verdict calls d n now rows ≡ stage_timeout_exceeded
      → ((length (observed_rows rows) == length rows) ≡ false)
        × (has_timed_out d.updated_at now (clamp_nonneg d.stage_timeout_s) ≡ true)
  unfolding rollout_verdict
  verdict-stage_timeout h = ground arith

  filled_observed :
      (xs ys : List DeploymentTarget)
      → is_empty_list ys ≡ false
      → length xs ≡ length ys
      → is_empty_list xs ≡ false
  filled_observed [] [] h e = h
  filled_observed [] (y ∷ ys) h e = ground arith
  filled_observed (x ∷ xs) ys h e = refl

  verdict-advanced :
      rollout_verdict calls d n now rows ≡ stage_advanced → Passes × (suc d.stage < n)
  unfolding rollout_verdict
  verdict-advanced h = ground (arith, filled_observed (observed_rows rows) rows)

  verdict-completed :
      rollout_verdict calls d n now rows ≡ rollout_completed → Passes × (n ≤ suc d.stage)
  unfolding rollout_verdict
  verdict-completed h = ground (arith, filled_observed (observed_rows rows) rows)

  apply_verdict-Progressed :
      (stages : List ℕ) (store : Tables calls) (v : Verdict calls.floats.Value)
      → rollout_verdict calls d n now rows ≡ v
      → Progressed (apply_verdict calls d stages now store v).0
  unfolding apply_verdict change
  apply_verdict-Progressed stages store wait h = waits
  apply_verdict-Progressed stages store (defer_rate_exceeded rate) h =
      halts _ refl refl (deferred (verdict-deferred rate h))
  apply_verdict-Progressed stages store (failure_rate_exceeded rate) h =
      halts _ refl refl (failures (verdict-failures rate h))
  apply_verdict-Progressed stages store no_quorum_timeout_exceeded h =
      let (none_observed, late) = verdict-no_quorum h in
      halts _ refl refl (no_quorum (observed_none (observed_rows rows) none_observed) late)
  apply_verdict-Progressed stages store stage_timeout_exceeded h =
      let (fewer, late) = verdict-stage_timeout h in
      halts _ refl refl (
        stage_timeout
          (ground (
            arith,
            length-filter (λ row. is_terminal row.status) rows,
            count-le-length (λ row. is_terminal row.status) rows,
          ))
          late)
  apply_verdict-Progressed stages store stage_advanced h =
      let (passes, more) = verdict-advanced h in advances _ refl refl more (passes-IsPassed passes)
  apply_verdict-Progressed stages store rollout_completed h =
      let (passes, last) = verdict-completed h in
      completes _ refl refl last (passes-IsPassed passes)

abbrev result_or : {A S : Type 0} → A → Outcome (A × S) → A
result_or a (done (a', s)) = a'
result_or a value_error = a
result_or a lookup_error = a

-- What the evaluation of an active deployment makes of it: it waits, or it is halted because too
-- many targets deferred or failed, none reported in time or some did not, or all targets of the
-- stages so far have come to an end within the thresholds, and it advances by one stage, or, after
-- the last stage, completes.
pub evaluate_rollout_progress-Progressed :
    (calls : Calls) (d d' : DeploymentRow calls) (now : Time) (store store' : Tables calls)
    (stages : List ℕ)
    → is_active d.status ≡ true
    → normalize_rollout_stages d.rollout_stages_pct ≡ some stages
    → evaluate_rollout_progress calls d now store ≡ done (d', store')
    → Progressed calls d (length stages) now (stage_targets d store) d'
unfolding evaluate_rollout_progress
evaluate_rollout_progress-Progressed calls d d' now store store' stages running given h =
    let rows = stage_targets d store in
    let applied =
      apply_verdict calls d stages now store (rollout_verdict calls d (length stages) now rows) in
    let evaluated : evaluate_rollout_progress calls d now store ≡ done applied =
      rw (running, given, evaluate_rollout_progress) refl in
    subst (Progressed calls d (length stages) now rows) (ap (result_or d) (sym evaluated ∙ h)) (
      apply_verdict-Progressed calls d (length stages) now rows stages store
        (rollout_verdict calls d (length stages) now rows) refl)
