-- ===== src/Tests/Ingestion.antt =====
-- Requests to api/app/routes/ingest.py with a point that is new, one that is repeated and one with a
-- text for a number.
use edgewatch_telemetry.Prelude.{
  ℕ, ◌+◌, ◌≡◌, refl, true, not, none, some, List, [], ◌∷◌, map, filter, length, arith,
}
use edgewatch_telemetry.Prelude.Int.{pos, pos_part}
use edgewatch_telemetry.Prelude.Dict.{get_item}
use edgewatch_telemetry.Ingestion.{MetricValue, integer, CandidatePoint, Calls, Tables}
use edgewatch_telemetry.Ingestion.Contract.{
  MetricType, number, TelemetryContract, validate_metrics_detailed,
}
use edgewatch_telemetry.Ingestion.Prepare.{prepare_points}
use edgewatch_telemetry.Ingestion.Persist.{persist_points_for_batch}
use edgewatch_telemetry.Ingestion.Route.{IngestSettings, Answers, IngestResponse, response, ingest}
use edgewatch_telemetry.Ingestion.Sorting.{conforms, held, prepare_points-lists}
use edgewatch_telemetry.Ingestion.Once.{EachOnce, Batch, persist_all, persist_all-EachOnce}
use edgewatch_telemetry.Ingestion.Repeat.{persist_points_for_batch_idem}
use edgewatch_telemetry.Ingestion.Accounts.{ingest_accounts}
use edgewatch_telemetry.Tests.Alerting.{world, settings, floats, overrides, thresholds, noon, empty}

abbrev calls : Calls
calls = record {
  world = world;
  settings = settings;
  floats = floats;
  overrides = overrides;
  thresholds = thresholds;
  microphone = record {
    microphone_offline_db = 30;
    microphone_offline_open_consecutive_samples = pos 2;
    microphone_offline_resolve_consecutive_samples = pos 1;
  };
  to_float = pos_part;
  returned = λ ids. ids;
  returned_count = λ p ids. refl;
  newest_first = λ rows. rows;
}

abbrev store : Tables calls
store = record {
  session = empty;
  telemetry_points = [];
  telemetry_ingest_dedupe = [];
  ingestion_batches = [];
  drift_events = [];
  quarantined_telemetry = [];
  next_batch_id = 1;
  metrics = [];
  published = [];
}

abbrev contract : TelemetryContract
contract = record {
  version = "v1";
  sha256 = "0";
  metrics = ("water_pressure_psi", number) ∷ ("pump_on", MetricType.boolean) ∷ [];
}

abbrev low_pressure : CandidatePoint ℕ
low_pressure = record {
  message_id = "m1";
  ts = noon;
  metrics = ("water_pressure_psi", integer (pos 100)) ∷ ("new_metric", MetricValue.string "x") ∷ [];
}

abbrev mistyped : CandidatePoint ℕ
mistyped = record low_pressure {
  message_id = "m2";
  metrics = ("water_pressure_psi", MetricValue.string "high") ∷ [];
}

abbrev points : List (CandidatePoint ℕ)
points = low_pressure ∷ low_pressure ∷ mistyped ∷ []

prepare_points-lists_example :
    ((prepare_points contract "quarantine" points).accepted_points
      ≡ filter (conforms contract) points)
    × ((prepare_points contract "quarantine" points).quarantined_points
        ≡ map (held contract) (filter (λ p. not (conforms contract p)) points))
    × ((prepare_points contract "quarantine" points).reject_errors ≡ [])
prepare_points-lists_example = prepare_points-lists contract "quarantine" points

abbrev batches : List (Batch calls)
batches =
    record { device_id = "pump-1"; batch_id = 1; points = points }
    ∷ record { device_id = "pump-1"; batch_id = 2; points = points }
    ∷ []

persist_all-EachOnce_example : EachOnce calls (persist_all calls batches store)
persist_all-EachOnce_example = persist_all-EachOnce calls batches store (λ d m. (refl, omega arith))

persist_points_for_batch_idem_example :
    let stored = (persist_points_for_batch calls "pump-1" 1 points store).1 in
    persist_points_for_batch calls "pump-1" 2 points stored ≡ ((0, 3, none), stored)
persist_points_for_batch_idem_example =
    persist_points_for_batch_idem calls "pump-1" 1 2 points store

abbrev ingest_settings : IngestSettings
ingest_settings = record {
  max_points_per_request = 5000;
  unknown_keys_mode = "flag";
  type_mismatch_mode = "quarantine";
  ingest_pipeline_mode = "direct";
}

abbrev answers : Answers
answers = record {
  allowed = true;
  retry_after_s = 0;
  contract = some contract;
  is_published = true;
}

abbrev answer : IngestResponse
answer = record {
  device_id = "pump-1";
  batch_id = 1;
  accepted = 1;
  duplicates = 1;
  quarantined = 1;
}

ingested : (ingest calls ingest_settings answers "pump-1" none points store).0 ≡ response answer
unfolding ingest validate_metrics_detailed get_item
ingested = refl

ingest_accounts_example : answer.accepted + answer.duplicates + answer.quarantined ≡ length points
ingest_accounts_example =
    ingest_accounts calls ingest_settings answers "pump-1" none points store answer ingested
