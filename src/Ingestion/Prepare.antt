-- ===== src/Ingestion/Prepare.antt =====
-- Sorting the points of a request: `prepare_points` of api/app/services/ingest_pipeline.py.
use edgewatch_telemetry.Prelude.{
  ℕ, ◌+◌, String, ◌||◌, Option, none, some, List, [], ◌∷◌, ◌++◌, map, length, ltb, str_eq,
  if◌then◌else◌,
}
use Prim.Native.String.{◌++◌ as ◌+++◌}
use edgewatch_telemetry.Prelude.Text.{strip, sorted_texts}
use edgewatch_telemetry.Prelude.Time.{Time}
use edgewatch_telemetry.Ingestion.{CandidatePoint, QuarantinedPoint}
use edgewatch_telemetry.Ingestion.Contract.{
  TypeMismatch, TelemetryContract, type_name, validate_metrics_detailed,
}

-- `(raw or "").strip().lower()`, where it is an allowed source
unfoldable pub parse_ingest_source : (String → String) → Option String → String
parse_ingest_source lower none = "device"
parse_ingest_source lower (some raw) =
    let source = lower (strip raw) in
    if str_eq source "device"
      || str_eq source "replay"
      || str_eq source "pubsub"
      || str_eq source "backfill"
      || str_eq source "simulation"
    then source
    else "device"

unfoldable pub format_type_mismatch : TypeMismatch → String
format_type_mismatch mismatch =
    "metric '"
    +++ mismatch.key
    +++ "' expected type '"
    +++ type_name mismatch.expected
    +++ "' but got '"
    +++ mismatch.actual
    +++ "'"

-- The result, and the state of the loop. The drift summary repeats its parts.
pub record PreparedIngest (F : Type 0) : Type 0 where
  pub accepted_points : List (CandidatePoint F)
  pub quarantined_points : List (QuarantinedPoint F)
  pub unknown_metric_keys : List String
  pub type_mismatch_keys : List String
  pub type_mismatch_count : ℕ
  pub reject_errors : List String
  pub client_ts_min : Option Time
  pub client_ts_max : Option Time

unfoldable pub least_ts : Option Time → Time → Option Time
least_ts none ts = some ts
least_ts (some least) ts = if ltb ts least then some ts else some least

unfoldable pub greatest_ts : Option Time → Time → Option Time
greatest_ts none ts = some ts
greatest_ts (some most) ts = if ltb most ts then some ts else some most

-- where a point with these mismatches goes
unfoldable pub sort_point :
    {F : Type 0}
    → String
    → CandidatePoint F
    → List TypeMismatch
    → PreparedIngest F
    → PreparedIngest F
unfolding format_type_mismatch
sort_point type_mismatch_mode point [] state = record state {
  accepted_points = state.accepted_points ++ point ∷ [];
}
sort_point type_mismatch_mode point (m ∷ ms) state =
    let errors = map format_type_mismatch (m ∷ ms) in
    if str_eq type_mismatch_mode "reject"
    then record state { reject_errors = state.reject_errors ++ errors }
    else record state {
      quarantined_points =
          state.quarantined_points
          ++ record {
            message_id = point.message_id;
            ts = point.ts;
            metrics = point.metrics;
            errors = errors;
          }
            ∷ [];
    }

-- one round of the loop
unfoldable pub prepare_point :
    {F : Type 0}
    → TelemetryContract
    → String
    → PreparedIngest F
    → CandidatePoint F
    → PreparedIngest F
unfolding least_ts greatest_ts sort_point
prepare_point contract type_mismatch_mode state point =
    let (unknown_keys, mismatches) = validate_metrics_detailed contract point.metrics in
    sort_point type_mismatch_mode point mismatches (record state {
      client_ts_min = least_ts state.client_ts_min point.ts;
      client_ts_max = greatest_ts state.client_ts_max point.ts;
      unknown_metric_keys = state.unknown_metric_keys ++ unknown_keys;
      type_mismatch_keys = state.type_mismatch_keys ++ map (λ m. m.key) mismatches;
      type_mismatch_count = state.type_mismatch_count + length mismatches;
    })

unfoldable pub prepare_each :
    {F : Type 0}
    → TelemetryContract
    → String
    → PreparedIngest F
    → List (CandidatePoint F)
    → PreparedIngest F
unfolding prepare_point
prepare_each contract type_mismatch_mode state [] = state
prepare_each contract type_mismatch_mode state (point ∷ points) =
    prepare_each contract type_mismatch_mode (prepare_point contract type_mismatch_mode state point)
      points

abbrev pub nothing_prepared : {F : Type 0} → PreparedIngest F
nothing_prepared = record {
  accepted_points = [];
  quarantined_points = [];
  unknown_metric_keys = [];
  type_mismatch_keys = [];
  type_mismatch_count = 0;
  reject_errors = [];
  client_ts_min = none;
  client_ts_max = none;
}

-- The keys found are sets, sorted at the end.
unfoldable pub prepare_points :
    {F : Type 0} → TelemetryContract → String → List (CandidatePoint F) → PreparedIngest F
unfolding prepare_each
prepare_points contract type_mismatch_mode points =
    let state = prepare_each contract type_mismatch_mode nothing_prepared points in
    record state {
      unknown_metric_keys = sorted_texts state.unknown_metric_keys;
      type_mismatch_keys = sorted_texts state.type_mismatch_keys;
    }
