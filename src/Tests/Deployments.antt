-- ===== src/Tests/Deployments.antt =====
-- A deployment of api/app/services/device_updates.py in two stages to two devices.
use edgewatch_telemetry.Prelude.{
  ℕ, ◌*◌, ◌+◌, ◌≤◌, ◌≡◌, refl, String, true, false, none, some, List, [], ◌∷◌, arith, ltb, leb,
  le→leb, map, str_eq, if◌then◌else◌, filter, all, ◌||◌,
}
use edgewatch_telemetry.Prelude.Int.{pos}
use edgewatch_telemetry.Prelude.Float.{Floats}
use edgewatch_telemetry.Prelude.Time.{seconds}
use edgewatch_telemetry.Prelude.Text.{strip}
use edgewatch_telemetry.Rollout.{normalize_rollout_stages}
use edgewatch_telemetry.Rollout.Stored.{normalize_rollout_stages-stored}
use edgewatch_telemetry.Alerting.Notify.Destinations.{configured_destinations, collect}
use edgewatch_telemetry.Deployments.{
  active, aborted, halted, failed, healthy, is_healthy, queued, restarting, TargetSelector,
  OtaDevice, AreInOrder, ReleaseManifest, Deployment, DeploymentTarget, Calls, Tables, done,
}
use edgewatch_telemetry.Deployments.Operations.{
  event, DeploymentArguments, add_deployment, store_deployment,
}
use edgewatch_telemetry.Deployments.Progress.{
  failure_rate_exceeded, stage_advanced, stage_targets, change, rollout_verdict, apply_verdict,
  evaluate_rollout_progress,
}
use edgewatch_telemetry.Deployments.Reports.{
  reportable_status, is_device_target, touched, joined_target, record_report, accept_report,
  store_target, report_row, report_device_update,
}
use edgewatch_telemetry.Deployments.ReleaseStates.{
  update_release_state, device_release_state, store_release_state, release_state_after,
}
use edgewatch_telemetry.Deployments.Commands.{
  Candidate, candidates, is_candidate, command_of, unlocked_command, get_pending_update_command,
}
use edgewatch_telemetry.Deployments.Statuses.{Follows}
use edgewatch_telemetry.Deployments.Rows.{row_of}
use edgewatch_telemetry.Deployments.Lifecycle.{Operation, report, abort, run, kind_on, run-Follows}
use edgewatch_telemetry.Prelude.Sql.{AllRows, IsSortedBy}
use edgewatch_telemetry.Deployments.Safety.{Progressed, evaluate_rollout_progress-Progressed}
use edgewatch_telemetry.Deployments.Timeouts.{HasBadRate, report_never_times_out}
use edgewatch_telemetry.Deployments.Totals.{no_targets, is_target_of, deployment_counts}
use edgewatch_telemetry.Deployments.Counts.{IsCounted, classified, deployment_counts-IsCounted}
use edgewatch_telemetry.Deployments.Gating.{IsDue, get_pending_update_command-IsDue}
use edgewatch_telemetry.Deployments.Healthy.{MovedOn}
use edgewatch_telemetry.Deployments.Liveness.{report_device_update-MovedOn}
use edgewatch_telemetry.Deployments.Events.{carry_fields, event-no_posts}
use edgewatch_telemetry.Tests.Database.{database, newest, oldest_first}
use edgewatch_telemetry.Tests.Alerting.{world, settings, noon, empty}

-- a fraction
abbrev fractions : Floats
fractions = record {
  Value = ℕ × ℕ;
  less = λ a b. ltb (a.0 * b.1) (b.0 * a.1);
  at_least = λ a b. ltb (b.0 * a.1) (a.0 * b.1 + 1);
  format = λ digits a. "0.500";
}

-- the order of the two ids below
abbrev rank_of : String → ℕ
rank_of id = if str_eq id "pump-1" then 1 else 2

abbrev rank : OtaDevice → ℕ
rank d = rank_of d.device_id

ranked_all :
    (d : OtaDevice) (rows : List OtaDevice)
    → AllRows (λ e. rank d ≤ rank e) rows
    → AllRows (λ t. leb (rank_of d.device_id) (rank_of t) ≡ true) (map (λ e. e.device_id) rows)
ranked_all d [] h = tt
ranked_all d (e ∷ rows) (h, hs) = (le→leb (rank d) (rank e) h, ranked_all d rows hs)

ranked :
    (rows : List OtaDevice)
    → IsSortedBy rank rows
    → AreInOrder (λ s t. leb (rank_of s) (rank_of t)) (map (λ d. d.device_id) rows)
ranked [] h = tt
ranked (d ∷ rows) (h, hs) = (ranked_all d rows h, ranked rows hs)

abbrev calls : Calls
calls = record {
  world = world;
  settings = record settings { alert_webhook_kind = "generic" };
  floats = fractions;
  ratio = λ a b. (a, b);
  json_float = λ a. "0.5";
  json_stages = λ stages. "[50, 100]";
  json_selector = λ selector. "{}";
  isoformat = λ t. "0001-01-01T12:00:00+00:00";
  by_device_id = database.oldest_first OtaDevice rank;
  by_device_id_count = database.oldest_first_count OtaDevice rank;
  collates = λ s t. leb (rank_of s) (rank_of t);
  by_device_id_ordered = λ rows.
      ranked (database.oldest_first OtaDevice rank rows)
        (database.oldest_first_sorted OtaDevice rank rows);
}

abbrev device : OtaDevice
device = record {
  device_id = "pump-1";
  enabled = true;
  cohort = none;
  labels = [];
  ota_channel = "stable";
  ota_updates_enabled = true;
  ota_busy_reason = none;
  ota_is_development = false;
  ota_locked_manifest_id = none;
}

abbrev manifest : ReleaseManifest
manifest = record {
  id = 7;
  git_tag = "v1.2.3";
  commit_sha = "abc";
  update_type = "application_bundle";
  artifact_uri = "memory://v1.2.3";
  artifact_size = pos 1;
  artifact_sha256 = "0";
  artifact_signature = "";
  artifact_signature_scheme = "none";
  compatibility = [];
  signature = "sig";
  signature_key_id = "key";
  constraints = [];
  created_by = "admin";
  created_at = noon;
  status = "active";
}

abbrev everything : TargetSelector
everything = record { mode = "all"; cohort = none; channel = none; labels = []; device_ids = [] }

abbrev rollout : Deployment (ℕ × ℕ)
rollout = record {
  id = 8;
  manifest_id = 7;
  rollout_stages_pct = pos 50 ∷ pos 100 ∷ [];
  stage = 0;
  status = active;
  halt_reason = none;
  created_by = "admin";
  created_at = noon;
  updated_at = noon;
  failure_rate_threshold = (1, 5);
  no_quorum_timeout_s = pos 1800;
  stage_timeout_s = pos 1800;
  defer_rate_threshold = (1, 2);
  command_expires_at = noon + seconds 86400;
  power_guard_required = true;
  health_timeout_s = pos 300;
  rollback_to_tag = none;
  target_selector = everything;
}

abbrev first : DeploymentTarget
first = record {
  deployment_id = 8;
  device_id = "pump-1";
  stage_assigned = 0;
  status = restarting;
  last_report_at = none;
  failure_reason = none;
  report_details = [];
}

abbrev second : DeploymentTarget
second = record first { device_id = "pump-2"; stage_assigned = 1; status = queued }

abbrev store : Tables calls
store = record {
  session = empty;
  devices = device ∷ record device { device_id = "pump-2" } ∷ [];
  manifests = manifest ∷ [];
  deployments = rollout ∷ [];
  deployment_targets = first ∷ second ∷ [];
  deployment_events = [];
  release_states = [];
  next_id = 9;
}

abbrev schedule : List ℕ
schedule = 50 ∷ 100 ∷ []

-- paused, resumed, and then the first device restarts and is healthy
abbrev operations : List (Operation calls)
operations =
    Operation.pause 8 noon noon
    ∷ Operation.resume 8 noon noon
    ∷ report 8 "pump-1" "Healthy " none none noon noon
    ∷ abort 8 none noon noon
    ∷ []

run-Follows_example :
    (d' : Deployment (ℕ × ℕ)) × (row_of 8 (run calls operations store).deployments ≡ some d')
    × Follows (map (kind_on 8) operations) active d'.status
    × (0 ≤ d'.stage)
run-Follows_example = run-Follows calls operations store 8 rollout refl

abbrev aborted_store : Tables calls
aborted_store = record store { deployments = record rollout { status = aborted } ∷ [] }

-- the first device has updated itself
abbrev updated_store : Tables calls
updated_store = record store {
  deployment_targets = record first { status = healthy } ∷ second ∷ [];
}

two_stages : normalize_rollout_stages rollout.rollout_stages_pct ≡ some schedule
two_stages = normalize_rollout_stages-stored schedule (omega arith, (omega arith, refl))

-- the deployment and the tables after its evaluation
abbrev evaluated : Deployment (ℕ × ℕ) × Tables calls
evaluated = apply_verdict calls rollout schedule noon updated_store stage_advanced

evaluates : evaluate_rollout_progress calls rollout noon updated_store ≡ done evaluated
unfolding evaluate_rollout_progress rollout_verdict stage_targets
evaluates = rw (two_stages, evaluate_rollout_progress) refl

evaluate_rollout_progress-Progressed_example :
    Progressed calls rollout 2 noon (stage_targets rollout updated_store) evaluated.0
evaluate_rollout_progress-Progressed_example =
    evaluate_rollout_progress-Progressed calls rollout evaluated.0 noon updated_store evaluated.1
      schedule refl two_stages evaluates

-- the first device fails a day after the creation
abbrev late : ℕ
late = noon + seconds 90000

abbrev failed_store : Tables calls
failed_store =
    record_report calls first (touched late rollout) manifest failed none none late late store

abbrev halted_rollout : Deployment (ℕ × ℕ) × Tables calls
halted_rollout =
    apply_verdict calls (touched late rollout) schedule late failed_store
      (failure_rate_exceeded (1, 1))

late_evaluates :
    evaluate_rollout_progress calls (touched late rollout) late failed_store ≡ done halted_rollout
unfolding evaluate_rollout_progress rollout_verdict stage_targets record_report event
    store_deployment store_target report_row update_release_state device_release_state
    store_release_state release_state_after
late_evaluates = rw (two_stages, evaluate_rollout_progress) refl

late_report :
    report_device_update calls 8 "pump-1" "failed" none none late late store ≡ done halted_rollout
unfolding report_device_update accept_report reportable_status joined_target strip
late_report = late_evaluates

halted_late : halted_rollout.0.status ≡ halted
unfolding apply_verdict change
halted_late = refl

report_never_times_out_example : HasBadRate calls rollout (stage_targets rollout failed_store)
unfolding reportable_status strip joined_target
report_never_times_out_example =
    report_never_times_out calls 8 "pump-1" "failed" none none late late store halted_rollout.1
      first rollout halted_rollout.0 manifest failed refl refl refl (omega arith) late_report
      halted_late

abbrev candidate : Candidate (ℕ × ℕ)
candidate = record { target = first; deployment = rollout; manifest = manifest }

gets_command :
    get_pending_update_command calls "pump-1" noon store ≡ some (command_of device candidate)
unfolding get_pending_update_command candidates is_candidate unlocked_command newest
gets_command = refl

get_pending_update_command-IsDue_example :
    (d : OtaDevice) × (c : Candidate (ℕ × ℕ)) × IsDue calls "pump-1" noon store d c
    × (command_of device candidate ≡ command_of d c)
get_pending_update_command-IsDue_example =
    get_pending_update_command-IsDue calls "pump-1" noon store (command_of device candidate)
      gets_command

is_reported : reportable_status (world.lower (strip " healthy")) ≡ some healthy
unfolding reportable_status strip
is_reported = refl

is_joined : joined_target 8 "pump-1" store ≡ some (first, rollout, manifest)
unfolding joined_target
is_joined = refl

others :
    all
      (λ row. is_healthy row.status || is_device_target 8 "pump-1" row)
      (stage_targets rollout store)
    ≡ true
unfolding stage_targets
others = refl

report_device_update-MovedOn_example :
    (d' : Deployment (ℕ × ℕ)) × (store' : Tables calls) × (report_device_update calls 8 "pump-1"
        " healthy" none none noon noon store
      ≡ done (d', store'))
    × MovedOn 2 rollout d'
report_device_update-MovedOn_example =
    report_device_update-MovedOn calls 8 "pump-1" " healthy" none none noon noon store first rollout
      manifest schedule is_reported is_joined refl two_stages (omega arith) others
      (λ n h. ground arith) (λ n h. ground arith)

-- a destination that subscribes to deployment events
abbrev subscribed_store : Tables calls
subscribed_store = record store {
  session = record empty {
    notification_destinations = some (
        record {
          name = "ops";
          channel = "webhook";
          kind = "generic";
          webhook_url = "https://ops.example/hook";
          source_types = "deployment_event" ∷ [];
          event_types = [];
          enabled = true;
          created_at = noon;
        }
        ∷ []);
  };
}

generic_only :
    carry_fields (configured_destinations calls.world calls.settings subscribed_store.session)
    ≡ true
unfolding configured_destinations strip collect oldest_first
generic_only = refl

event-no_posts_example :
    (event calls 8 "deployment.paused" none [] noon subscribed_store).session.posts ≡ []
event-no_posts_example =
    event-no_posts calls 8 "deployment.paused" none [] noon subscribed_store generic_only

abbrev arguments : DeploymentArguments (ℕ × ℕ)
arguments = record {
  created_by = "admin";
  target_selector = record {
    mode = some " all ";
    cohort = none;
    channel = none;
    labels = [];
    device_ids = [];
  };
  rollout_stages_pct = pos 50 ∷ pos 50 ∷ [];
  failure_rate_threshold = (1, 5);
  no_quorum_timeout_s = pos 1800;
  stage_timeout_s = none;
  defer_rate_threshold = (1, 2);
  health_timeout_s = pos 300;
  command_ttl_s = pos 30;
  power_guard_required = true;
  rollback_to_tag = none;
}

-- the deployment and the tables after its creation
abbrev created : Deployment (ℕ × ℕ) × Tables calls
created =
    add_deployment calls arguments manifest everything schedule ("pump-1" ∷ "pump-2" ∷ []) noon noon
      store

deployment_counts-IsCounted_example :
    IsCounted no_targets
      (deployment_counts 8 store)
      (filter (is_target_of 8) store.deployment_targets)
    × (classified (deployment_counts 8 store) ≡ (deployment_counts 8 store).total_targets)
deployment_counts-IsCounted_example = deployment_counts-IsCounted 8 store
