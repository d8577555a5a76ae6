-- ===== src/Deployments/Timeouts.antt =====
-- What a report halts a deployment for: `report_device_update` of
-- api/app/services/device_updates.py.
use edgewatch_telemetry.Prelude.{
  ℕ, ◌+◌, ◌≤◌, ◌≡◌, inl, inr, refl, sym, ◌∙◌, ◌⊎◌, ◌&&◌, String, Option, Option-cases, true, false,
  some, List, length, arith,
}
use edgewatch_telemetry.Prelude.Int.{clamp_nonneg}
use edgewatch_telemetry.Prelude.Time.{Time, seconds}
use edgewatch_telemetry.Rollout.{normalize_rollout_stages}
use edgewatch_telemetry.Deployments.{
  Calls, Tables, DeploymentRow, halted, DeploymentTarget, done, value_error, is_active, is_ended,
  is_progressing, ReleaseManifest, TargetStatus,
}
use edgewatch_telemetry.Deployments.Reports.{
  touched, reportable_status, joined_target, record_report, accept_report, report_device_update,
}
use edgewatch_telemetry.Prelude.Text.{strip}
use edgewatch_telemetry.Deployments.Progress.{
  stage_targets, evaluate_rollout_progress, defer_rate, failure_rate, has_timed_out,
}
use edgewatch_telemetry.Deployments.Safety.{
  Progressed, waits, halts, advances, completes, deferred, failures, no_quorum, stage_timeout,
  evaluate_rollout_progress-Progressed,
}

-- why a deployment is halted other than for a timeout
abbrev pub HasBadRate : (calls : Calls) → DeploymentRow calls → List DeploymentTarget → Type 0
HasBadRate calls d rows =
    (calls.floats.less d.defer_rate_threshold (defer_rate calls rows) ≡ true)
    ⊎ (calls.floats.less d.failure_rate_threshold (failure_rate calls rows) ≡ true)

halted-HasBadRate :
    (calls : Calls) (d d' : DeploymentRow calls) (n : ℕ) (ts clock : Time)
    (rows : List DeploymentTarget)
    → is_active d.status ≡ true
    → clock ≤ ts + seconds 60
    → d'.status ≡ halted
    → Progressed calls (touched ts d) n clock rows d'
    → HasBadRate calls d rows
halted-HasBadRate calls d d' n ts clock rows running soon over waits = ground arith
halted-HasBadRate calls d d' n ts clock rows running soon over (halts d'' s t reason) =
    elim reason [
      | deferred h ↦ inl h
      | failures h ↦ inr h
      | no_quorum e late ↦ absurd (in_time (clamp_nonneg d.no_quorum_timeout_s) late)
      | stage_timeout e late ↦ absurd (in_time (clamp_nonneg d.stage_timeout_s) late)
    ]
  where
    in_time : (timeout_s : ℕ) → has_timed_out ts clock timeout_s ≡ true → ⊥
    in_time timeout_s late = ground arith
halted-HasBadRate calls d d' n ts clock rows running soon over (advances d'' s t more p) =
    ground arith
halted-HasBadRate calls d d' n ts clock rows running soon over (completes d'' s t last p) =
    ground arith

-- the evaluation that succeeds has read the stages
stages_read :
    (calls : Calls) (d d' : DeploymentRow calls) (now : Time) (store store' : Tables calls)
    → is_active d.status ≡ true
    → evaluate_rollout_progress calls d now store ≡ done (d', store')
    → (stages : List ℕ) × (normalize_rollout_stages d.rollout_stages_pct ≡ some stages)
unfolding evaluate_rollout_progress
stages_read calls d d' now store store' running h =
    elim (Option-cases (normalize_rollout_stages d.rollout_stages_pct)) [
      | inl refused ↦
          let evaluated : evaluate_rollout_progress calls d now store ≡ value_error =
            rw (running, refused, evaluate_rollout_progress) refl in
          absurd (error_done (sym evaluated ∙ h))
      | inr found ↦ found
    ]
  where
    error_done : {A : Type 0} {a : A} → value_error ≡ done a → ⊥
    error_done e = ground arith

-- A report that is stored within a minute of the time that it takes halts an active deployment only
-- because too many of the targets of the stages so far, the report included, have deferred or
-- failed: never for a timeout, however long the deployment has waited for the report.
pub report_never_times_out :
    (calls : Calls) (k : ℕ) (device_id state : String) (code detail : Option String)
    (ts clock : Time) (store store' : Tables calls) (target : DeploymentTarget)
    (d d' : DeploymentRow calls) (manifest : ReleaseManifest) (reported : TargetStatus)
    → reportable_status (calls.world.lower (strip state)) ≡ some reported
    → joined_target k device_id store ≡ some (target, d, manifest)
    → is_active d.status ≡ true
    → clock ≤ ts + seconds 60
    → report_device_update calls k device_id state code detail ts clock store ≡ done (d', store')
    → d'.status ≡ halted
    → HasBadRate calls d (
        stage_targets d
          (record_report calls target (touched ts d) manifest reported code detail ts clock store))
unfolding report_device_update accept_report stage_targets
report_never_times_out calls k device_id state code detail ts clock store store' target d d'
      manifest reported given joined running soon h over =
    let recorded =
      record_report calls target (touched ts d) manifest reported code detail ts clock store in
    let going_on : (is_ended d.status && is_progressing reported) ≡ false = ground arith in
    let evaluates : report_device_update calls k device_id state code detail ts clock store
        ≡ evaluate_rollout_progress calls (touched ts d) clock recorded =
      rw (given, joined, going_on, report_device_update, accept_report) refl in
    let evaluated = sym evaluates ∙ h in
    let (stages, read) =
      stages_read calls (touched ts d) d' clock recorded store' running evaluated in
    halted-HasBadRate calls d d' (length stages) ts clock (stage_targets d recorded) running soon
      over
      (evaluate_rollout_progress-Progressed calls (touched ts d) d' clock recorded store' stages
        running read evaluated)
