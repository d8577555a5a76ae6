-- ===== src/Deployments/Liveness.antt =====
-- That healthy devices move a deployment on: `report_device_update` of
-- api/app/services/device_updates.py.
use edgewatch_telemetry.Prelude.{
  ℕ, suc, ◌≤◌, ◌<◌, ◌≡◌, inl, inr, refl, sym, ◌∙◌, ap, String, Bool, true, false, Option, some,
  List, [], ◌∷◌, map, length, filter, all, arith, ltb, ltb→lt, ◌==◌, ==_iff, eq_iff, ◌||◌, ◌&&◌,
  Bool-cases, Option-cases, if◌then◌else◌,
}
use mathlib.Core.Path.{subst}
use edgewatch_telemetry.Prelude.Text.{strip}
use edgewatch_telemetry.Prelude.Time.{Time}
use edgewatch_telemetry.Rollout.{normalize_rollout_stages}
use edgewatch_telemetry.Deployments.{
  Calls, Tables, DeploymentRow, Store, TargetStatus, healthy, ReleaseManifest, DeploymentTarget,
  Deployment, done, is_active, is_ended, is_healthy, is_progressing,
}
use edgewatch_telemetry.Deployments.Selector.{is_empty_list}
use edgewatch_telemetry.Deployments.Operations.{event, store_deployment}
use edgewatch_telemetry.Deployments.Progress.{
  stage_advanced, rollout_completed, is_stage_target, stage_targets, change, apply_verdict,
  evaluate_rollout_progress,
}
use edgewatch_telemetry.Deployments.Reports.{
  is_device_target, reportable_status, report_row, store_target, touched, record_report,
  accept_report, joined_target, report_device_update,
}
use edgewatch_telemetry.Deployments.ReleaseStates.{
  is_state_of, update_release_state, device_release_state, store_release_state,
}
use edgewatch_telemetry.Prelude.{find}
use edgewatch_telemetry.Deployments.Healthy.{
  all_healthy, verdict-healthy, written-filled, written-healthy, MovedOn, to_next, to_end,
}

update_release_state-targets :
    {F : Type 0} (state : TargetStatus) (d : Deployment F) (manifest : ReleaseManifest)
    (device_id : String) (ts : Time) (store : Store F)
    → (update_release_state state d manifest device_id ts store).deployment_targets
      ≡ store.deployment_targets
unfolding update_release_state device_release_state store_release_state
update_release_state-targets state d manifest device_id ts store =
    elim (Option-cases (find (is_state_of device_id) store.release_states)) [
      | inl e ↦ rw (e, update_release_state, device_release_state) refl
      | inr (row, e) ↦ rw (e, update_release_state, device_release_state) refl
    ]

module _ (calls : Calls) where
  record_report-targets :
      (target : DeploymentTarget) (d : DeploymentRow calls) (manifest : ReleaseManifest)
      (state : TargetStatus) (code detail : Option String) (ts clock : Time) (store : Tables calls)
      → (record_report calls target d manifest state code detail ts clock store).deployment_targets
        ≡ map
            (λ row.
              if is_device_target target.deployment_id target.device_id row
              then report_row state code detail ts target
              else row)
            store.deployment_targets
  unfolding record_report event store_deployment store_target report_row
  record_report-targets target d manifest state code detail ts clock store =
      update_release_state-targets state d manifest target.device_id ts _

  evaluate-healthy :
      (d : DeploymentRow calls) (stages : List ℕ) (now : Time) (store : Tables calls)
      → is_active d.status ≡ true
      → normalize_rollout_stages d.rollout_stages_pct ≡ some stages
      → all_healthy (stage_targets d store) ≡ true
      → is_empty_list (stage_targets d store) ≡ false
      → calls.floats.less d.defer_rate_threshold (calls.ratio 0 (length (stage_targets d store)))
        ≡ false
      → calls.floats.less d.failure_rate_threshold (calls.ratio 0 (length (stage_targets d store)))
        ≡ false
      → (d' : DeploymentRow calls) × (store' : Tables calls) × (evaluate_rollout_progress calls d
            now store
          ≡ done (d', store'))
        × MovedOn (length stages) d d'
  unfolding evaluate_rollout_progress apply_verdict change
  evaluate-healthy d stages now store running given good filled low_defer low_failure =
      let decided =
        verdict-healthy calls d (length stages) now (stage_targets d store) good filled low_defer
          low_failure in
      let evaluated : evaluate_rollout_progress calls d now store
          ≡ done (
              apply_verdict calls d stages now store
                (if ltb (suc d.stage) (length stages) then stage_advanced else rollout_completed)) =
        rw (running, given, decided, evaluate_rollout_progress) refl in
      elim (Bool-cases (ltb (suc d.stage) (length stages))) [
        | inl more ↦ (
          _,
          _,
          subst
              (λ b.
                evaluate_rollout_progress calls d now store
                ≡ done (
                    apply_verdict calls d stages now store
                      (if b then stage_advanced else rollout_completed)))
              more evaluated,
          to_next (ltb→lt (suc d.stage) (length stages) more) refl refl,
        )
        | inr last ↦ (
          _,
          _,
          subst
              (λ b.
                evaluate_rollout_progress calls d now store
                ≡ done (
                    apply_verdict calls d stages now store
                      (if b then stage_advanced else rollout_completed)))
              last evaluated,
          to_end (ground arith) refl,
        )
      ]

  moved_touched :
      (n : ℕ) (ts : Time) (d d' : DeploymentRow calls)
      → MovedOn n (touched ts d) d'
      → MovedOn n d d'
  moved_touched n ts d d' (to_next more next same) = to_next more next same
  moved_touched n ts d d' (to_end last over) = to_end last over

  joined_target_lem :
      (k : ℕ) (device_id : String) (store : Tables calls) (target : DeploymentTarget)
      (d : DeploymentRow calls) (manifest : ReleaseManifest)
      → joined_target k device_id store ≡ some (target, d, manifest)
      → (find (is_device_target k device_id) store.deployment_targets ≡ some target)
        × (find (λ x. x.id == k) store.deployments ≡ some d)
  unfolding joined_target
  joined_target_lem k device_id store target d manifest h = ground arith

  find-passes : {A : Type 0} (p : A → Bool) (a : A) (xs : List A) → find p xs ≡ some a → p a ≡ true
  find-passes p a [] h = ground arith
  find-passes p a (x ∷ xs) h = elim (Bool-cases (p x)) [
    | inl good ↦ ground arith
    | inr bad ↦ find-passes p a xs (ground arith)
  ]

abbrev is_own_target : DeploymentTarget → DeploymentTarget → Bool
is_own_target target row = is_device_target target.deployment_id target.device_id row

-- what the evaluation after a healthy report finds
reported-healthy :
    (calls : Calls) (target : DeploymentTarget) (d : DeploymentRow calls)
    (manifest : ReleaseManifest) (code detail : Option String) (ts clock : Time)
    (store : Tables calls)
    → target.deployment_id ≡ d.id
    → target.stage_assigned ≤ d.stage
    → find (is_own_target target) store.deployment_targets ≡ some target
    → all (λ row. is_healthy row.status || is_own_target target row) (stage_targets d store) ≡ true
    → (all_healthy (
          stage_targets
            (touched ts d)
            (record_report calls target (touched ts d) manifest healthy code detail ts clock store))
        ≡ true)
      × (is_empty_list (
            stage_targets (touched ts d) (
              record_report calls target
                (touched ts d)
                manifest
                healthy
                code
                detail
                ts
                clock
                store))
          ≡ false)
unfolding stage_targets report_row
reported-healthy calls target d manifest code detail ts clock store own in_stage there others =
    let row = report_row healthy code detail ts target in
    let stage = is_stage_target d.id d.stage in
    let rows =
      record_report-targets calls target (touched ts d) manifest healthy code detail ts clock
        store in
    let reached : stage row ≡ true = ground arith in
    (
      subst (λ xs. all_healthy (filter stage xs) ≡ true) (sym rows)
          (written-healthy row stage (is_own_target target) reached store.deployment_targets refl
            others),
      subst (λ xs. is_empty_list (filter stage xs) ≡ false) (sym rows)
          (written-filled row stage (is_own_target target) reached target store.deployment_targets
            there),
    )

some_rows : (xs : List DeploymentTarget) → is_empty_list xs ≡ false → 0 < length xs
some_rows [] h = ground arith
some_rows (x ∷ xs) h = omega arith

-- the keys by which the joined rows were found
joined-keys :
    (calls : Calls) (k : ℕ) (device_id : String) (store : Tables calls) (target : DeploymentTarget)
    (d : DeploymentRow calls) (manifest : ReleaseManifest)
    → joined_target k device_id store ≡ some (target, d, manifest)
    → (target.deployment_id ≡ k) × (target.device_id ≡ device_id) × (d.id ≡ k)
joined-keys calls k device_id store target d manifest h =
    let (in_targets, in_deployments) =
      joined_target_lem calls k device_id store target d manifest h in
    let found =
      find-passes calls (is_device_target k device_id) target store.deployment_targets in_targets in
    let own = find-passes calls (λ x. x.id == k) d store.deployments in_deployments in
    (ground arith, (eq_iff target.device_id device_id).0 (ground arith), (==_iff d.id k).0 own)

-- Where the target's stage has been reached and all other targets of the stages so far are healthy,
-- a report that the target is healthy moves an active deployment on: to the next stage, or, after
-- the last one, to its completion. No share of none may exceed a threshold, which holds for
-- thresholds that are not negative.
pub report_device_update-MovedOn :
    (calls : Calls) (k : ℕ) (device_id state : String) (code detail : Option String)
    (ts clock : Time) (store : Tables calls) (target : DeploymentTarget) (d : DeploymentRow calls)
    (manifest : ReleaseManifest) (stages : List ℕ)
    → reportable_status (calls.world.lower (strip state)) ≡ some healthy
    → joined_target k device_id store ≡ some (target, d, manifest)
    → is_active d.status ≡ true
    → normalize_rollout_stages d.rollout_stages_pct ≡ some stages
    → target.stage_assigned ≤ d.stage
    → all (λ row. is_healthy row.status || is_device_target k device_id row) (stage_targets d store)
      ≡ true
    → ((n : ℕ) → 0 < n → calls.floats.less d.defer_rate_threshold (calls.ratio 0 n) ≡ false)
    → ((n : ℕ) → 0 < n → calls.floats.less d.failure_rate_threshold (calls.ratio 0 n) ≡ false)
    → (d' : DeploymentRow calls) × (store' : Tables calls) × (report_device_update calls k device_id
          state code detail ts clock store
        ≡ done (d', store'))
      × MovedOn (length stages) d d'
unfolding report_device_update accept_report
report_device_update-MovedOn calls k device_id state code detail ts clock store target d manifest
      stages reported joined running given in_stage others low_defer low_failure =
    let (own_deployment, own_device, own_row) =
      joined-keys calls k device_id store target d manifest joined in
    let by_own_keys : is_device_target k device_id ≡ is_own_target target =
      ap (λ j. is_device_target j device_id) (sym own_deployment)
      ∙ ap (is_device_target target.deployment_id) (sym own_device) in
    let (good, filled) =
      reported-healthy calls target d manifest code detail ts clock store
        (own_deployment ∙ sym own_row) in_stage
        (subst (λ q. find q store.deployment_targets ≡ some target) by_own_keys
          (joined_target_lem calls k device_id store target d manifest joined).0)
        (subst (λ q. all (λ row. is_healthy row.status || q row) (stage_targets d store) ≡ true)
          by_own_keys others) in
    let (d', store', evaluated, moved) =
      evaluate-healthy calls (touched ts d) stages clock
        (record_report calls target (touched ts d) manifest healthy code detail ts clock store)
        running given good filled (low_defer _ (some_rows _ filled))
        (low_failure _ (some_rows _ filled)) in
    let going_on : (is_ended d.status && is_progressing healthy) ≡ false = ground arith in
    (
      d',
      store',
      rw (reported, joined, going_on, report_device_update, accept_report) evaluated,
      moved_touched calls (length stages) ts d d' moved,
    )
