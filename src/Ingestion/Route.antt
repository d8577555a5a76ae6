-- ===== src/Ingestion/Route.antt =====
-- The ingest endpoint, `ingest` of api/app/routes/ingest.py, for an authenticated device.
use edgewatch_telemetry.Prelude.{
  ℕ, suc, ◌+◌, String, Bool, not, Option, none, some, List, [], ◌∷◌, ◌++◌, take, length, ltb,
  str_eq, if◌then◌else◌,
}
use edgewatch_telemetry.Ingestion.{IngestionBatch, PubsubBatch, Store, Calls, Tables, Point}
use edgewatch_telemetry.Ingestion.Contract.{TelemetryContract}
use edgewatch_telemetry.Ingestion.Prepare.{PreparedIngest, parse_ingest_source, prepare_points}
use edgewatch_telemetry.Ingestion.Persist.{
  persist_points_for_batch, update_ingestion_batch, record_drift_events, record_quarantined_points,
  is_empty_list,
}

-- the settings that the endpoint reads
pub record IngestSettings : Type 0 where
  pub max_points_per_request : ℕ
  pub unknown_keys_mode : String
  pub type_mismatch_mode : String
  pub ingest_pipeline_mode : String

pub record IngestResponse : Type 0 where
  pub device_id : String
  pub batch_id : ℕ
  pub accepted : ℕ
  pub duplicates : ℕ
  pub quarantined : ℕ

-- the response, or the error of an HTTPException
pub data IngestResult : Type 0 where
  response : IngestResponse → IngestResult
  too_many_points : ℕ → IngestResult
  rate_limited : ℕ → IngestResult
  contract_unavailable : IngestResult
  -- the first errors and their number
  contract_rejected : ℕ → List String → ℕ → IngestResult
  publish_failed : ℕ → IngestResult

-- What the endpoint asks of others in a call: whether the rate limiter allows it, and else after how
-- many seconds, the contract if it can be loaded, and whether the message is published.
pub record Answers : Type 0 where
  pub allowed : Bool
  pub retry_after_s : ℕ
  pub contract : Option TelemetryContract
  pub is_published : Bool

unfoldable pub new_batch :
    {F : Type 0}
    → IngestSettings
    → TelemetryContract
    → String
    → String
    → ℕ
    → PreparedIngest F
    → ℕ
    → IngestionBatch
new_batch settings contract source device_id submitted prepared id = record {
  id = id;
  device_id = device_id;
  contract_version = contract.version;
  contract_hash = contract.sha256;
  points_submitted = submitted;
  points_accepted = 0;
  duplicates = 0;
  points_quarantined = length prepared.quarantined_points;
  client_ts_min = prepared.client_ts_min;
  client_ts_max = prepared.client_ts_max;
  unknown_metric_keys = prepared.unknown_metric_keys;
  type_mismatch_keys = prepared.type_mismatch_keys;
  type_mismatch_count = prepared.type_mismatch_count;
  source = source;
  pipeline_mode = settings.ingest_pipeline_mode;
  processing_status = "pending";
}

-- the lineage of a batch, whatever becomes of its points
unfoldable pub record_batch :
    {F : Type 0} → IngestSettings → IngestionBatch → PreparedIngest F → Store F → Store F
unfolding record_drift_events record_quarantined_points
record_batch settings batch prepared store =
    record_quarantined_points batch.id batch.device_id prepared.quarantined_points (
      record_drift_events batch.id batch.device_id prepared settings.unknown_keys_mode
        settings.type_mismatch_mode
        (record store {
          ingestion_batches = store.ingestion_batches ++ batch ∷ [];
          next_batch_id = suc store.next_batch_id;
        }))

-- `batch.processing_status = status`
unfoldable pub set_status : {F : Type 0} → IngestionBatch → String → Store F → Store F
unfolding update_ingestion_batch
set_status batch status =
    update_ingestion_batch batch.id batch.points_accepted batch.duplicates status

unfoldable pub observe : {F : Type 0} → IngestionBatch → ℕ → ℕ → Store F → Store F
observe batch accepted rejected store = record store {
  metrics =
      store.metrics
      ++ record {
        accepted = accepted;
        rejected = rejected;
        source = batch.source;
        pipeline_mode = batch.pipeline_mode;
      }
        ∷ [];
}

-- the response about a batch, with the metric about it
unfoldable pub respond : {F : Type 0} → IngestionBatch → ℕ → ℕ → Store F → IngestResult × Store F
unfolding observe
respond batch accepted duplicates store = (
  response (record {
    device_id = batch.device_id;
    batch_id = batch.id;
    accepted = accepted;
    duplicates = duplicates;
    quarantined = batch.points_quarantined;
  }),
  observe batch accepted batch.points_quarantined store,
)

module _ (calls : Calls) where
  -- the mode "direct": the points are stored at once
  unfoldable pub ingest_direct :
      IngestionBatch → List (Point calls) → Tables calls → IngestResult × Tables calls
  unfolding persist_points_for_batch update_ingestion_batch respond
  ingest_direct batch points store =
      let ((accepted, duplicates, newest_ts), stored) =
        persist_points_for_batch calls batch.device_id batch.id points store in
      respond batch accepted duplicates
        (update_ingestion_batch batch.id accepted duplicates "completed" stored)

  -- the other mode: the points are published, if there are some
  unfoldable pub ingest_queued :
      Bool → IngestionBatch → List (Point calls) → Tables calls → IngestResult × Tables calls
  unfolding set_status observe respond update_ingestion_batch
  ingest_queued is_published batch [] store = respond batch 0 0 (set_status batch "completed" store)
  ingest_queued is_published batch (p ∷ ps) store =
      let payload : PubsubBatch calls.floats.Value = record {
        batch_id = batch.id;
        device_id = batch.device_id;
        source = batch.source;
        points = p ∷ ps;
      } in
      let queued = set_status batch "queued" store in
      if is_published
      then respond batch (length (p ∷ ps)) 0
          (record queued { published = queued.published ++ payload ∷ [] })
      else (
        publish_failed batch.id,
        observe batch 0 (length (p ∷ ps) + batch.points_quarantined)
            (update_ingestion_batch batch.id 0 0 "publish_failed" queued),
      )

  -- what follows once the points are prepared and the batch is recorded
  unfoldable pub finish_batch :
      IngestSettings
      → Bool
      → IngestionBatch
      → PreparedIngest calls.floats.Value
      → Tables calls
      → IngestResult × Tables calls
  unfolding set_status observe ingest_direct ingest_queued
  finish_batch settings is_published batch prepared store =
      if not (is_empty_list prepared.reject_errors)
      then (
        contract_rejected batch.id (take 10 prepared.reject_errors) (length prepared.reject_errors),
        observe batch 0 batch.points_submitted (set_status batch "rejected" store),
      )
      else if str_eq settings.ingest_pipeline_mode "direct"
      then ingest_direct batch prepared.accepted_points store
      else ingest_queued is_published batch prepared.accepted_points store

  -- the points of a request, under the contract
  unfoldable pub ingest_under :
      IngestSettings
      → Bool
      → String
      → Option String
      → List (Point calls)
      → Tables calls
      → TelemetryContract
      → IngestResult × Tables calls
  unfolding new_batch record_batch finish_batch prepare_points parse_ingest_source
  ingest_under settings is_published device_id source_header points store contract =
      let source = parse_ingest_source calls.world.lower source_header in
      let prepared = prepare_points contract settings.type_mismatch_mode points in
      let batch =
        new_batch settings contract source device_id (length points) prepared store.next_batch_id in
      finish_batch settings is_published batch prepared (record_batch settings batch prepared store)

  unfoldable pub ingest :
      IngestSettings
      → Answers
      → String
      → Option String
      → List (Point calls)
      → Tables calls
      → IngestResult × Tables calls
  unfolding ingest_under
  ingest settings answers device_id source_header points store =
      if ltb settings.max_points_per_request (length points)
      then (too_many_points (length points), store)
      else if not answers.allowed
      then (rate_limited answers.retry_after_s, store)
      else elim answers.contract [
        | none ↦ (contract_unavailable, store)
        | some contract ↦
            ingest_under settings answers.is_published device_id source_header points store contract
      ]
