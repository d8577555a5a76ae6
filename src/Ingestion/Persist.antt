-- ===== src/Ingestion/Persist.antt =====
-- Storing the points of a batch, and the alerts that they raise:
-- api/app/services/ingestion_runtime.py. The database's own rule that a device and a message id stand
-- in one row of telemetry_points is not part of the tables here.
use edgewatch_telemetry.Prelude.{
  ℕ, ◌-◌, String, Bool, true, false, not, ◌&&◌, Option, none, some, List, [], ◌∷◌, ◌++◌, map,
  filter, any, length, find, ltb, ◌==◌, str_eq, if◌then◌else◌,
}
use edgewatch_telemetry.Prelude.Dict.{get_item}
use edgewatch_telemetry.Prelude.Time.{Time}
use edgewatch_telemetry.Alerting.{Device, Session}
use edgewatch_telemetry.Alerting.Monitor.{
  ensure_power_input_out_of_range_alerts, ensure_power_unsustainable_alerts,
}
use edgewatch_telemetry.Alerting.Monitor.Metrics.{
  ensure_water_pressure_alerts, ensure_oil_pressure_alerts, ensure_oil_level_alerts,
  ensure_drip_oil_level_alerts, ensure_oil_life_alerts, ensure_battery_alerts, ensure_signal_alerts,
}
use edgewatch_telemetry.Alerting.Monitor.Microphone.{ensure_microphone_offline_alerts}
use edgewatch_telemetry.Ingestion.{
  MetricValue, integer, float, CandidatePoint, QuarantinedPoint, TelemetryPoint,
  TelemetryIngestDedupe, IngestionBatch, DriftEvent, QuarantinedTelemetry, Store, Calls, Tables,
  Point,
}
use edgewatch_telemetry.Ingestion.Prepare.{PreparedIngest}

-- a row of `candidate_rows`
unfoldable pub candidate_row : {F : Type 0} → String → ℕ → CandidatePoint F → TelemetryPoint F
candidate_row device_id batch_id point = record {
  message_id = point.message_id;
  device_id = device_id;
  batch_id = batch_id;
  ts = point.ts;
  metrics = point.metrics;
}

-- `x in ids`
abbrev pub is_listed : String → List String → Bool
is_listed x ids = any (str_eq x) ids

-- `point_by_message_id`, the first point of each message id, of those not seen
unfoldable pub unique_from :
    {F : Type 0} → List String → List (CandidatePoint F) → List (CandidatePoint F)
unique_from seen [] = []
unique_from seen (point ∷ points) =
    let skip = unique_from seen points in
    let keep = point ∷ unique_from (point.message_id ∷ seen) points in
    if is_listed point.message_id seen then skip else keep

abbrev pub is_dedupe : String → String → TelemetryIngestDedupe → Bool
is_dedupe device_id message_id row =
    str_eq row.device_id device_id && str_eq row.message_id message_id

-- a row of `dedupe_rows`
abbrev pub dedupe_row : {F : Type 0} → String → CandidatePoint F → TelemetryIngestDedupe
dedupe_row device_id point = record {
  device_id = device_id;
  message_id = point.message_id;
  point_ts = point.ts;
}

-- the message id of a device has a row
abbrev pub is_seen : String → List TelemetryIngestDedupe → String → Bool
is_seen device_id rows message_id = any (is_dedupe device_id message_id) rows

-- The insertion with `ON CONFLICT DO NOTHING`, and the message ids inserted. A row of the statement
-- conflicts with those before it too.
unfoldable pub insert_dedupe :
    {F : Type 0}
    → String
    → List (CandidatePoint F)
    → List TelemetryIngestDedupe
    → List TelemetryIngestDedupe × List String
insert_dedupe device_id [] rows = (rows, [])
insert_dedupe device_id (point ∷ points) rows =
    let skip = insert_dedupe device_id points rows in
    let keep = insert_dedupe device_id points (rows ++ dedupe_row device_id point ∷ []) in
    if is_seen device_id rows point.message_id then skip else (keep.0, point.message_id ∷ keep.1)

-- `newest_ts` after a point
unfoldable pub newer : Option Time → Time → Option Time
newer none ts = some ts
newer (some newest) ts = if ltb newest ts then some ts else some newest

module _ (calls : Calls) (device_id : String) where
  -- a number that is no Boolean, as a float
  abbrev pub as_number : Option (MetricValue calls.floats.Value) → Option calls.floats.Value
  as_number none = none
  as_number (some (integer n)) = some (calls.to_float n)
  as_number (some (float x)) = some x
  as_number (some _) = none

  abbrev pub as_boolean : Option (MetricValue calls.floats.Value) → Option Bool
  as_boolean (some (MetricValue.boolean b)) = some b
  as_boolean _ = none

  -- the call of a monitor where its metric has a value
  abbrev pub check : {A : Type 0} → Option A → (A → Session → Session) → Session → Session
  check none monitor session = session
  check (some value) monitor session = monitor value session

  -- the levels that the microphone's query reads, newest first
  unfoldable pub microphone_points :
      List (TelemetryPoint calls.floats.Value) → List (Option calls.floats.Value)
  microphone_points points =
      map (λ p. as_number (get_item "microphone_level_db" p.metrics))
        (calls.newest_first (filter (λ p. str_eq p.device_id device_id) points))

  -- the value of a metric of a point
  abbrev pub number_of : Point calls → String → Option calls.floats.Value
  number_of point key = as_number (get_item key point.metrics)

  abbrev pub flag_of : Point calls → String → Option Bool
  flag_of point key = as_boolean (get_item key point.metrics)

  module _ (point : Point calls) where
    -- the seven monitors with a threshold, in the order of their calls
    unfoldable pub check_thresholds : Session → Session
    check_thresholds session =
        let thresholds = calls.thresholds in
        check (number_of point "signal_rssi_dbm")
          (λ x.
            ensure_signal_alerts calls.floats calls.world calls.settings calls.overrides thresholds
              device_id x point.ts)
          (check (number_of point "battery_v")
            (λ x.
              ensure_battery_alerts calls.floats calls.world calls.settings calls.overrides
                thresholds device_id x point.ts)
            (check (number_of point "oil_life_pct")
              (λ x.
                ensure_oil_life_alerts calls.floats calls.world calls.settings calls.overrides
                  thresholds device_id x point.ts)
              (check (number_of point "drip_oil_level_pct")
                (λ x.
                  ensure_drip_oil_level_alerts calls.floats calls.world calls.settings
                    calls.overrides thresholds device_id x point.ts)
                (check (number_of point "oil_level_pct")
                  (λ x.
                    ensure_oil_level_alerts calls.floats calls.world calls.settings calls.overrides
                      thresholds device_id x point.ts)
                  (check (number_of point "oil_pressure_psi")
                    (λ x.
                      ensure_oil_pressure_alerts calls.floats calls.world calls.settings
                        calls.overrides thresholds device_id x point.ts)
                    (check (number_of point "water_pressure_psi")
                      (λ x.
                        ensure_water_pressure_alerts calls.floats calls.world calls.settings
                          calls.overrides thresholds device_id x point.ts)
                      session))))))

    -- all monitors called on a point
    unfoldable pub check_point : List (TelemetryPoint calls.floats.Value) → Session → Session
    unfolding microphone_points check_thresholds
    check_point points session =
        check (flag_of point "power_unsustainable")
          (λ b. ensure_power_unsustainable_alerts calls.world calls.settings device_id b point.ts)
          (check (flag_of point "power_input_out_of_range")
            (λ b.
              ensure_power_input_out_of_range_alerts calls.world calls.settings device_id b
                point.ts)
            (check (number_of point "microphone_level_db")
              (λ db.
                ensure_microphone_offline_alerts calls.floats calls.world calls.settings device_id
                  calls.microphone (microphone_points points) db point.ts)
              (check_thresholds session)))

  -- the loop over the ids inserted
  unfoldable pub check_inserted :
      List (Point calls)
      → List (TelemetryPoint calls.floats.Value)
      → List String
      → Option Time × Session
      → Option Time × Session
  unfolding newer check_point
  check_inserted unique points [] state = state
  check_inserted unique points (message_id ∷ ids) (newest_ts, session) =
      elim (find (λ p. str_eq p.message_id message_id) unique) [
        | none ↦ check_inserted unique points ids (newest_ts, session)
        | some point ↦
            check_inserted unique points ids
              (newer newest_ts point.ts, check_point point points session)
      ]

  -- `last_seen_at` of the device's row, which only moves forward
  abbrev pub see : Time → Device → Device
  see newest_ts device =
      if str_eq device.device_id device_id
      then record device { last_seen_at = newer device.last_seen_at newest_ts }
      else device

  unfoldable pub see_device : Option Time → Session → Session
  unfolding newer
  see_device none session = session
  see_device (some newest_ts) session = record session {
    devices = map (see newest_ts) session.devices;
  }

  -- what follows the insertion: the points inserted are stored and checked
  unfoldable pub store_inserted :
      ℕ
      → ℕ
      → List (Point calls)
      → List TelemetryIngestDedupe × List String
      → Tables calls
      → (ℕ × ℕ × Option Time) × Tables calls
  unfolding candidate_row check_inserted see_device
  store_inserted batch_id submitted unique (dedupe, inserted) store =
      let telemetry_rows =
        filter (λ row. is_listed row.message_id inserted)
          (map (candidate_row device_id batch_id) unique) in
      let telemetry_points = store.telemetry_points ++ telemetry_rows in
      let inserted_message_ids = calls.returned inserted in
      let accepted = length inserted_message_ids in
      let (newest_ts, checked) =
        check_inserted unique telemetry_points inserted_message_ids (none, store.session) in
      (
        (accepted, submitted - accepted, newest_ts),
        record store {
          telemetry_ingest_dedupe = dedupe;
          telemetry_points = telemetry_points;
          session = see_device newest_ts checked;
        },
      )

  -- Accepted, duplicates and the newest time, and the tables afterwards.
  unfoldable pub persist_points_for_batch :
      ℕ → List (Point calls) → Tables calls → (ℕ × ℕ × Option Time) × Tables calls
  unfolding unique_from insert_dedupe store_inserted
  persist_points_for_batch batch_id [] store = ((0, 0, none), store)
  persist_points_for_batch batch_id (p ∷ ps) store =
      let unique = unique_from [] (p ∷ ps) in
      store_inserted batch_id (length (p ∷ ps)) unique
        (insert_dedupe device_id unique store.telemetry_ingest_dedupe) store

abbrev pub update_batch : ℕ → ℕ → ℕ → String → IngestionBatch → IngestionBatch
update_batch batch_id points_accepted duplicates processing_status batch =
    if batch.id == batch_id
    then record batch {
      points_accepted = points_accepted;
      duplicates = duplicates;
      processing_status = processing_status;
    }
    else batch

unfoldable pub update_ingestion_batch : {F : Type 0} → ℕ → ℕ → ℕ → String → Store F → Store F
update_ingestion_batch batch_id points_accepted duplicates processing_status store = record store {
  ingestion_batches =
      map (update_batch batch_id points_accepted duplicates processing_status)
        store.ingestion_batches;
}

abbrev pub is_empty_list : {A : Type 0} → List A → Bool
is_empty_list [] = true
is_empty_list (x ∷ xs) = false

-- the events about unknown keys and about mismatches
unfoldable pub drift_rows :
    {F : Type 0} → ℕ → String → PreparedIngest F → String → String → List DriftEvent
drift_rows batch_id device_id prepared unknown_keys_mode type_mismatch_mode =
    let unknown : List DriftEvent =
      if not (is_empty_list prepared.unknown_metric_keys) && str_eq unknown_keys_mode "flag"
      then record {
        batch_id = batch_id;
        device_id = device_id;
        event_type = "unknown_keys";
        action = "flagged";
        keys = prepared.unknown_metric_keys;
        key_count = length prepared.unknown_metric_keys;
      }
        ∷ []
      else [] in
    let action : String =
      if str_eq type_mismatch_mode "reject"
      then "rejected"
      else if str_eq type_mismatch_mode "quarantine"
      then "quarantined"
      else "flagged" in
    let mismatch : List DriftEvent =
      if not (is_empty_list prepared.type_mismatch_keys)
      then record {
        batch_id = batch_id;
        device_id = device_id;
        event_type = "type_mismatch";
        action = action;
        keys = prepared.type_mismatch_keys;
        key_count = prepared.type_mismatch_count;
      }
        ∷ []
      else [] in
    unknown ++ mismatch

unfoldable pub record_drift_events :
    {F : Type 0} → ℕ → String → PreparedIngest F → String → String → Store F → Store F
unfolding drift_rows
record_drift_events batch_id device_id prepared unknown_keys_mode type_mismatch_mode store =
    record store {
      drift_events =
          store.drift_events
          ++ drift_rows batch_id device_id prepared unknown_keys_mode type_mismatch_mode;
    }

abbrev pub quarantined_row : {F : Type 0} → ℕ → String → QuarantinedPoint F → QuarantinedTelemetry F
quarantined_row batch_id device_id point = record {
  batch_id = batch_id;
  device_id = device_id;
  message_id = point.message_id;
  ts = point.ts;
  metrics = point.metrics;
  errors = point.errors;
}

unfoldable pub record_quarantined_points :
    {F : Type 0} → ℕ → String → List (QuarantinedPoint F) → Store F → Store F
record_quarantined_points batch_id device_id points store = record store {
  quarantined_telemetry =
      store.quarantined_telemetry ++ map (quarantined_row batch_id device_id) points;
}
