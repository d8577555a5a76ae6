-- ===== src/Ingestion.antt =====
-- The ingestion of telemetry: api/app/services/ingest_pipeline.py checks the points of a request
-- against the contract (api/app/contracts.py), api/app/services/ingestion_runtime.py stores those
-- that are new and raises their alerts, and api/app/routes/ingest.py puts these together.
-- A row's `id` is the number of ids drawn before it. Times are in UTC already.
pub mod Contract
pub mod Prepare
pub mod Persist
pub mod Route
pub mod Sorting
pub mod Dedupe
pub mod Once
pub mod Repeat
pub mod Accounts
use edgewatch_telemetry.Prelude.{ℕ, String, Bool, Option, List, count, ◌≡◌}
use edgewatch_telemetry.Prelude.Int.{ℤ}
use edgewatch_telemetry.Prelude.Dict.{Dict}
use edgewatch_telemetry.Prelude.Float.{Floats}
use edgewatch_telemetry.Prelude.Time.{Time}
use edgewatch_telemetry.Alerting.{Session, Settings, World}
use edgewatch_telemetry.Alerting.Monitor.Metrics.{AlertThresholds, Overrides}
use edgewatch_telemetry.Alerting.Monitor.Microphone.{MicrophoneThresholds}

-- a value of a metric; one of another Python type by the name of its type
pub data MetricValue (F : Type 0) : Type 0 where
  null : MetricValue F
  boolean : Bool → MetricValue F
  integer : ℤ → MetricValue F
  float : F → MetricValue F
  string : String → MetricValue F
  other : String → MetricValue F

pub record CandidatePoint (F : Type 0) : Type 0 where
  pub message_id : String
  pub ts : Time
  pub metrics : Dict (MetricValue F)

pub record QuarantinedPoint (F : Type 0) : Type 0 where
  pub message_id : String
  pub ts : Time
  pub metrics : Dict (MetricValue F)
  pub errors : List String

pub record TelemetryPoint (F : Type 0) : Type 0 where
  pub message_id : String
  pub device_id : String
  pub batch_id : ℕ
  pub ts : Time
  pub metrics : Dict (MetricValue F)

pub record TelemetryIngestDedupe : Type 0 where
  pub device_id : String
  pub message_id : String
  pub point_ts : Time

pub record IngestionBatch : Type 0 where
  pub id : ℕ
  pub device_id : String
  pub contract_version : String
  pub contract_hash : String
  pub points_submitted : ℕ
  pub points_accepted : ℕ
  pub duplicates : ℕ
  pub points_quarantined : ℕ
  pub client_ts_min : Option Time
  pub client_ts_max : Option Time
  pub unknown_metric_keys : List String
  pub type_mismatch_keys : List String
  pub type_mismatch_count : ℕ
  pub source : String
  pub pipeline_mode : String
  pub processing_status : String

-- the keys and the count of an event's details
pub record DriftEvent : Type 0 where
  pub batch_id : ℕ
  pub device_id : String
  pub event_type : String
  pub action : String
  pub keys : List String
  pub key_count : ℕ

pub record QuarantinedTelemetry (F : Type 0) : Type 0 where
  pub batch_id : ℕ
  pub device_id : String
  pub message_id : String
  pub ts : Time
  pub metrics : Dict (MetricValue F)
  pub errors : List String

-- an observation of `record_ingest_points_metric`
pub record IngestPointsMetric : Type 0 where
  pub accepted : ℕ
  pub rejected : ℕ
  pub source : String
  pub pipeline_mode : String

-- the payload of a pubsub message
pub record PubsubBatch (F : Type 0) : Type 0 where
  pub batch_id : ℕ
  pub device_id : String
  pub source : String
  pub points : List (CandidatePoint F)

-- the tables of the database, those of the alerting pipeline in `session`, and what has been
-- observed and published
pub record Store (F : Type 0) : Type 0 where
  pub session : Session
  pub telemetry_points : List (TelemetryPoint F)
  pub telemetry_ingest_dedupe : List TelemetryIngestDedupe
  pub ingestion_batches : List IngestionBatch
  pub drift_events : List DriftEvent
  pub quarantined_telemetry : List (QuarantinedTelemetry F)
  pub next_batch_id : ℕ
  pub metrics : List IngestPointsMetric
  pub published : List (PubsubBatch F)

-- What the services call: the alerting pipeline with its settings and thresholds, `float(n)` of an
-- integer, the order in which `RETURNING` gives the rows inserted, which keeps them, and
-- `ORDER BY ts DESC, created_at DESC`.
pub record Calls : Type 1 where
  pub world : World
  pub settings : Settings
  pub floats : Floats
  pub overrides : Overrides floats.Value
  pub thresholds : AlertThresholds floats.Value
  pub microphone : MicrophoneThresholds floats.Value
  pub to_float : ℤ → floats.Value
  pub returned : List String → List String
  pub returned_count :
      (p : String → Bool) (ids : List String) → count p (returned ids) ≡ count p ids
  pub newest_first : List (TelemetryPoint floats.Value) → List (TelemetryPoint floats.Value)

abbrev pub Tables : Calls → Type 0
Tables calls = Store calls.floats.Value

abbrev pub Point : Calls → Type 0
Point calls = CandidatePoint calls.floats.Value
