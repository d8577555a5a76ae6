-- ===== src/Deployments/Moves.antt =====
-- What each operation of api/app/services/device_updates.py does to the row of a deployment.
use edgewatch_telemetry.Prelude.{
  ℕ, ◌≡◌, ◌==◌, refl, sym, String, true, Option, none, some, List, arith, Bool-cases, Option-cases,
  if_cases, inl, inr, if◌then◌else◌, ◌&&◌, length,
}
use mathlib.Core.Path.{subst}
use edgewatch_telemetry.Prelude.Text.{strip}
use edgewatch_telemetry.Prelude.Time.{Time}
use edgewatch_telemetry.Rollout.{normalize_rollout_stages}
use edgewatch_telemetry.Deployments.{
  Calls, Tables, DeploymentRow, DeploymentStatus, active, paused, aborted, halted, completed,
  ReleaseManifest, TargetSelector, DeploymentTarget, TargetStatus, Outcome, done, value_error,
  lookup_error, is_active, is_paused, is_ended, is_progressing,
}
use edgewatch_telemetry.Deployments.Selector.{
  normalize_target_selector, target_device_ids, is_empty_list,
}
use edgewatch_telemetry.Deployments.Operations.{
  event, DeploymentArguments, add_deployment, create_deployment, store_deployment,
  set_deployment_status, pause_deployment, resume_deployment, abort_deployment,
}
use edgewatch_telemetry.Deployments.Progress.{
  Verdict, wait, defer_rate_exceeded, failure_rate_exceeded, no_quorum_timeout_exceeded,
  stage_timeout_exceeded, stage_advanced, rollout_completed, stage_targets, rollout_verdict, change,
  apply_verdict, evaluate_rollout_progress,
}
use edgewatch_telemetry.Deployments.Reports.{
  reportable_status, store_target, touched, record_report, accept_report, joined_target,
  report_device_update,
}
use edgewatch_telemetry.Deployments.ReleaseStates.{
  is_state_of, update_release_state, device_release_state, store_release_state,
}
use edgewatch_telemetry.Prelude.{find}
use edgewatch_telemetry.Deployments.Statuses.{
  Kind, pausing, resuming, aborting, reporting, Changes, pause, halt, complete, from_active,
  from_paused, to_aborted,
}
use edgewatch_telemetry.Deployments.Rows.{
  row_of, At, replace, row_of-id, row_of-replace_own, At-replace, At-append,
}

-- what holds of the tables that a call leaves, if it does not raise
abbrev pub OnDone : {A S : Type 0} → (S → Type 0) → Outcome (A × S) → Type 0
OnDone P (done (a, store)) = P store
OnDone P value_error = Unit
OnDone P lookup_error = Unit

-- What keeps a row at its place: every write of an operation, of which the rest only adds to other
-- tables.
module _ (calls : Calls) (k n : ℕ) (kind : Kind) (s : DeploymentStatus) where
  abbrev pub AtIn : Tables calls → Type 0
  AtIn store = At k kind s n store.deployments

  -- where the deployment is the one of `k`, the operation is of this kind to it
  abbrev pub IsOf : Kind → DeploymentRow calls → Type 0
  IsOf own d = (d.id == k) ≡ true → kind ≡ own

  of_kind :
      (own : Kind) (d : DeploymentRow calls) (t : DeploymentStatus)
      → IsOf own d
      → Changes own d.status t
      → (d.id == k) ≡ true
      → Changes kind d.status t
  of_kind own d t of c here = subst (λ x. Changes x d.status t) (sym (of here)) c

  set_status-AtIn :
      (d : DeploymentRow calls) (status : DeploymentStatus) (reason : Option String)
      (event_type : String) (now stored_at : Time) (store : Tables calls)
      → row_of d.id store.deployments ≡ some d
      → ((d.id == k) ≡ true → Changes kind d.status status)
      → AtIn store
      → AtIn (set_deployment_status calls d status reason event_type now stored_at store).1
  unfolding set_deployment_status event store_deployment
  set_status-AtIn d status reason event_type now stored_at store found moved h =
      At-replace k n kind s d (record d { status = status; halt_reason = reason; updated_at = now })
        store.deployments found moved (omega arith) h

  apply_verdict-AtIn :
      (d : DeploymentRow calls) (stages : List ℕ) (now : Time) (store : Tables calls)
      (v : Verdict calls.floats.Value)
      → row_of d.id store.deployments ≡ some d
      → is_active d.status ≡ true
      → IsOf reporting d
      → AtIn store
      → AtIn (apply_verdict calls d stages now store v).1
  unfolding apply_verdict change event store_deployment
  apply_verdict-AtIn d stages now store wait found h of a = a
  apply_verdict-AtIn d stages now store (defer_rate_exceeded rate) found h of a =
      At-replace k n kind s d _ store.deployments found
        (of_kind reporting d halted of (from_active d.status halted reporting h halt)) (omega arith)
        a
  apply_verdict-AtIn d stages now store (failure_rate_exceeded rate) found h of a =
      At-replace k n kind s d _ store.deployments found
        (of_kind reporting d halted of (from_active d.status halted reporting h halt)) (omega arith)
        a
  apply_verdict-AtIn d stages now store no_quorum_timeout_exceeded found h of a =
      At-replace k n kind s d _ store.deployments found
        (of_kind reporting d halted of (from_active d.status halted reporting h halt)) (omega arith)
        a
  apply_verdict-AtIn d stages now store stage_timeout_exceeded found h of a =
      At-replace k n kind s d _ store.deployments found
        (of_kind reporting d halted of (from_active d.status halted reporting h halt)) (omega arith)
        a
  apply_verdict-AtIn d stages now store stage_advanced found h of a =
      At-replace k n kind s d _ store.deployments found (λ own. inl refl) (omega arith) a
  apply_verdict-AtIn d stages now store rollout_completed found h of a =
      At-replace k n kind s d _ store.deployments found
        (of_kind reporting d completed of (from_active d.status completed reporting h complete))
        (omega arith) a

  evaluate-AtIn :
      (d : DeploymentRow calls) (now : Time) (store : Tables calls)
      → row_of d.id store.deployments ≡ some d
      → IsOf reporting d
      → AtIn store
      → OnDone AtIn (evaluate_rollout_progress calls d now store)
  unfolding evaluate_rollout_progress
  evaluate-AtIn d now store found of a = elim (Bool-cases (is_active d.status)) [
    | inr other ↦ rw (other, evaluate_rollout_progress) a
    | inl running ↦ elim (Option-cases (normalize_rollout_stages d.rollout_stages_pct)) [
      | inl refused ↦ rw (running, refused, evaluate_rollout_progress) tt
      | inr (stages, given) ↦
          rw (running, given, evaluate_rollout_progress)
            (apply_verdict-AtIn d stages now store
              (rollout_verdict calls d (length stages) now (stage_targets d store)) found running of
              a)
    ]
  ]

  -- the deployments after the parts of a report that write other tables
  update_release_state-deployments :
      (state : TargetStatus) (d : DeploymentRow calls) (manifest : ReleaseManifest)
      (device_id : String) (ts : Time) (store : Tables calls)
      → (update_release_state state d manifest device_id ts store).deployments ≡ store.deployments
  unfolding update_release_state device_release_state store_release_state
  update_release_state-deployments state d manifest device_id ts store =
      elim (Option-cases (find (is_state_of device_id) store.release_states)) [
        | inl e ↦ rw (e, update_release_state, device_release_state) refl
        | inr (row, e) ↦ rw (e, update_release_state, device_release_state) refl
      ]

  record_report-deployments :
      (target : DeploymentTarget) (d : DeploymentRow calls) (manifest : ReleaseManifest)
      (state : TargetStatus) (code detail : Option String) (ts clock : Time) (store : Tables calls)
      → (record_report calls target d manifest state code detail ts clock store).deployments
        ≡ replace d store.deployments
  unfolding record_report event store_deployment store_target
  record_report-deployments target d manifest state code detail ts clock store =
      update_release_state-deployments state d manifest target.device_id ts _

  accept_report-AtIn :
      (target : DeploymentTarget) (d : DeploymentRow calls) (manifest : ReleaseManifest)
      (state : TargetStatus) (code detail : Option String) (ts clock : Time) (store : Tables calls)
      → row_of d.id store.deployments ≡ some d
      → IsOf reporting d
      → AtIn store
      → OnDone AtIn (accept_report calls target d manifest state code detail ts clock store)
  unfolding accept_report
  accept_report-AtIn target d manifest state code detail ts clock store found of a =
      let written =
        record_report-deployments target (touched ts d) manifest state code detail ts clock store in
      evaluate-AtIn (touched ts d) clock
        (record_report calls target (touched ts d) manifest state code detail ts clock store)
        (subst (λ x. row_of d.id x ≡ some (touched ts d)) (sym written)
          (row_of-replace_own (touched ts d) d store.deployments found))
        of
        (subst (At k kind s n) (sym written) (
          At-replace k n kind s d (touched ts d) store.deployments found (λ own. inl refl)
            (omega arith) a))

  pub own_row :
      (j : ℕ) (d : DeploymentRow calls) (rows : List (DeploymentRow calls))
      → row_of j rows ≡ some d
      → row_of d.id rows ≡ some d
  own_row j d rows h = subst (λ i. row_of i rows ≡ some d) (sym (row_of-id j d rows h)) h

  pub same_id :
      {own : Kind} (j : ℕ) (d : DeploymentRow calls)
      → d.id ≡ j
      → ((j == k) ≡ true → kind ≡ own)
      → IsOf own d
  same_id j d e of here = of (subst (λ i. (i == k) ≡ true) e here)

  joined_target-row :
      (j : ℕ) (device_id : String) (store : Tables calls)
      (r : DeploymentTarget × DeploymentRow calls × ReleaseManifest)
      → joined_target j device_id store ≡ some r
      → row_of j store.deployments ≡ some r.1
  unfolding joined_target
  joined_target-row j device_id store r h = ground arith

  pub report-AtIn :
      (j : ℕ) (device_id state : String) (code detail : Option String) (ts clock : Time)
      (store : Tables calls)
      → ((j == k) ≡ true → kind ≡ reporting)
      → AtIn store
      → OnDone AtIn (report_device_update calls j device_id state code detail ts clock store)
  unfolding report_device_update
  report-AtIn j device_id state code detail ts clock store of a =
      elim (Option-cases (reportable_status (calls.world.lower (strip state)))) [
        | inl e ↦ rw (e, report_device_update) tt
        | inr (reported, e) ↦ elim (Option-cases (joined_target j device_id store)) [
          | inl f ↦ rw (e, f, report_device_update) tt
          | inr ((target, d, manifest), f) ↦
              rw (e, f, report_device_update)
                (if_cases (OnDone AtIn) (is_ended d.status && is_progressing reported) _ _
                  (λ refused. tt)
                  (λ accepted.
                    accept_report-AtIn target d manifest reported code detail ts clock store
                      (own_row j d store.deployments
                        (joined_target-row j device_id store (target, d, manifest) f))
                      (same_id j d
                        (row_of-id j d store.deployments
                          (joined_target-row j device_id store (target, d, manifest) f))
                        of)
                      a))
        ]
      ]

  add_deployment-AtIn :
      (a : DeploymentArguments calls.floats.Value) (manifest : ReleaseManifest)
      (selector : TargetSelector) (stages : List ℕ) (target_ids : List String) (ts stored_at : Time)
      (store : Tables calls)
      → AtIn store
      → AtIn (add_deployment calls a manifest selector stages target_ids ts stored_at store).1
  unfolding add_deployment event
  add_deployment-AtIn a manifest selector stages target_ids ts stored_at store h =
      At-append k n kind s _ store.deployments h

  pub create-AtIn :
      (a : DeploymentArguments calls.floats.Value) (manifest : ReleaseManifest)
      (ts stored_at : Time) (store : Tables calls)
      → AtIn store
      → OnDone AtIn (create_deployment calls a manifest ts stored_at store)
  unfolding create_deployment
  create-AtIn a manifest ts stored_at store h =
      created (normalize_target_selector calls.world.lower a.target_selector)
        (normalize_rollout_stages a.rollout_stages_pct)
    where
      created :
          (selected : Outcome TargetSelector) (o : Option (List ℕ))
          → OnDone AtIn (elim selected [
            | value_error ↦ value_error
            | lookup_error ↦ lookup_error
            | done selector ↦ elim o [
              | none ↦ value_error
              | some stages ↦
                  let target_ids = target_device_ids calls selector store.devices in
                  if is_empty_list target_ids
                  then value_error
                  else done (
                      add_deployment calls a manifest selector stages target_ids ts stored_at store)
            ]
          ])
      created value_error o = tt
      created lookup_error o = tt
      created (done selector) none = tt
      created (done selector) (some stages) =
          if_cases (OnDone AtIn) (is_empty_list (target_device_ids calls selector store.devices)) _
            _ (λ empty. tt)
            (λ filled.
              add_deployment-AtIn a manifest selector stages
                (target_device_ids calls selector store.devices) ts stored_at store h)

  pub pause-AtIn :
      (d : DeploymentRow calls) (now stored_at : Time) (store : Tables calls)
      → row_of d.id store.deployments ≡ some d
      → IsOf pausing d
      → AtIn store
      → OnDone AtIn (pause_deployment calls d now stored_at store)
  unfolding pause_deployment
  pause-AtIn d now stored_at store found of h = elim (Bool-cases (is_active d.status)) [
    | inl running ↦
        rw (running, pause_deployment)
          (set_status-AtIn d paused d.halt_reason _ now stored_at store found
            (of_kind pausing d paused of (from_active d.status paused pausing running pause)) h)
    | inr other ↦ rw (other, pause_deployment) tt
  ]

  pub resume-AtIn :
      (d : DeploymentRow calls) (now stored_at : Time) (store : Tables calls)
      → row_of d.id store.deployments ≡ some d
      → IsOf resuming d
      → AtIn store
      → OnDone AtIn (resume_deployment calls d now stored_at store)
  unfolding resume_deployment
  resume-AtIn d now stored_at store found of h = elim (Bool-cases (is_paused d.status)) [
    | inl waiting ↦
        rw (waiting, resume_deployment)
          (set_status-AtIn d active none _ now stored_at store found
            (of_kind resuming d active of (from_paused d.status waiting)) h)
    | inr other ↦ rw (other, resume_deployment) tt
  ]

  pub abort-AtIn :
      (d : DeploymentRow calls) (reason : Option String) (now stored_at : Time)
      (store : Tables calls)
      → row_of d.id store.deployments ≡ some d
      → IsOf aborting d
      → AtIn store
      → OnDone AtIn (abort_deployment calls d reason now stored_at store)
  unfolding abort_deployment
  abort-AtIn d reason now stored_at store found of h = elim (Bool-cases (is_ended d.status)) [
    | inl ended ↦ rw (ended, abort_deployment) tt
    | inr going_on ↦
        rw (going_on, abort_deployment)
          (set_status-AtIn d aborted _ _ now stored_at store found
            (of_kind aborting d aborted of (to_aborted d.status going_on)) h)
  ]
