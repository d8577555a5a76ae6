-- ===== src/Ingestion/Accounts.antt =====
-- That a response accounts for every point of its request: `ingest` of api/app/routes/ingest.py.
use edgewatch_telemetry.Prelude.{
  ℕ, suc, ◌+◌, ◌≤◌, ◌≡◌, refl, sym, ◌∙◌, ap, String, Bool, true, false, not, Option, List, [], ◌∷◌,
  count, all, length, length-filter, str_eq, ltb, Option-cases, inl, inr, arith, if_cases,
  if◌then◌else◌,
}
use mathlib.Core.Path.{subst}
use edgewatch_telemetry.Ingestion.{CandidatePoint, IngestionBatch, Calls, Tables, Point}
use edgewatch_telemetry.Ingestion.Contract.{TelemetryContract}
use edgewatch_telemetry.Ingestion.Prepare.{PreparedIngest, parse_ingest_source, prepare_points}
use edgewatch_telemetry.Ingestion.Persist.{
  is_listed, unique_from, insert_dedupe, store_inserted, persist_points_for_batch, is_empty_list,
}
use edgewatch_telemetry.Ingestion.Route.{
  IngestSettings, IngestResponse, IngestResult, response, too_many_points, rate_limited,
  contract_unavailable, contract_rejected, publish_failed, Answers, new_batch, record_batch,
  respond, ingest_direct, ingest_queued, finish_batch, ingest_under, ingest,
}
use edgewatch_telemetry.Ingestion.Sorting.{conforms, prepare_points-lists, prepare_points-counts}
use edgewatch_telemetry.Ingestion.Dedupe.{insert_dedupe-le}
use edgewatch_telemetry.Ingestion.Repeat.{length-returned}

unique_from-length :
    {F : Type 0} (seen : List String) (points : List (CandidatePoint F))
    → length (unique_from seen points) ≤ length points
unfolding unique_from
unique_from-length seen [] = omega arith
unique_from-length seen (p ∷ ps) =
    if_cases (λ (xs : List (CandidatePoint _)). length xs ≤ suc (length ps))
      (is_listed p.message_id seen) _ _ (λ known. omega (arith, unique_from-length seen ps))
      (λ new. omega (arith, unique_from-length (p.message_id ∷ seen) ps))

-- every point of a batch is accepted or a duplicate
pub persist-sum :
    (calls : Calls) (device_id : String) (batch_id : ℕ) (points : List (Point calls))
    (store : Tables calls)
    → (let (accepted, duplicates, newest_ts) =
          (persist_points_for_batch calls device_id batch_id points store).0 in
        accepted + duplicates)
      ≡ length points
unfolding persist_points_for_batch store_inserted
persist-sum calls device_id batch_id [] store = omega arith
persist-sum calls device_id batch_id (p ∷ ps) store =
    let unique = unique_from [] (p ∷ ps) in
    let rows = store.telemetry_ingest_dedupe in
    omega (
      arith,
      length-returned calls (insert_dedupe device_id unique rows).1,
      insert_dedupe-le device_id unique rows,
      unique_from-length [] (p ∷ ps),
    )

-- the points that a response speaks of
abbrev pub accounted : IngestResponse → ℕ
accounted r = r.accepted + r.duplicates + r.quarantined

-- A response speaks of `n` points; an error, of none.
abbrev pub Accounts : ℕ → IngestResult → Type 0
Accounts n (response r) = accounted r ≡ n
Accounts n (too_many_points m) = Unit
Accounts n (rate_limited s) = Unit
Accounts n contract_unavailable = Unit
Accounts n (contract_rejected id errors m) = Unit
Accounts n (publish_failed id) = Unit

module _ (calls : Calls) where
  direct-Accounts :
      (batch : IngestionBatch) (points : List (Point calls)) (store : Tables calls)
      → Accounts
          (length points + batch.points_quarantined)
          (ingest_direct calls batch points store).0
  unfolding ingest_direct respond
  direct-Accounts batch points store =
      omega (arith, persist-sum calls batch.device_id batch.id points store)

  queued-Accounts :
      (is_published : Bool) (batch : IngestionBatch) (points : List (Point calls))
      (store : Tables calls)
      → Accounts
          (length points + batch.points_quarantined)
          (ingest_queued calls is_published batch points store).0
  unfolding ingest_queued respond
  queued-Accounts is_published batch [] store = omega arith
  queued-Accounts true batch (p ∷ ps) store = omega arith
  queued-Accounts false batch (p ∷ ps) store = tt

  finish-Accounts :
      (settings : IngestSettings) (is_published : Bool) (batch : IngestionBatch)
      (prepared : PreparedIngest calls.floats.Value) (store : Tables calls) (n : ℕ)
      → (is_empty_list prepared.reject_errors ≡ true
          → length prepared.accepted_points + batch.points_quarantined ≡ n)
      → Accounts n (finish_batch calls settings is_published batch prepared store).0
  unfolding finish_batch
  finish-Accounts settings is_published batch prepared store n h =
      if_cases (λ (r : IngestResult × Tables calls). Accounts n r.0)
        (not (is_empty_list prepared.reject_errors)) _ _ (λ refused. tt)
        (λ taken.
          let sum = h (ground arith) in
          if_cases (λ (r : IngestResult × Tables calls). Accounts n r.0)
            (str_eq settings.ingest_pipeline_mode "direct") _ _
            (λ direct.
              subst (λ m. Accounts m (ingest_direct calls batch prepared.accepted_points store).0)
                sum (direct-Accounts batch prepared.accepted_points store))
            (λ queued.
              subst
                (λ m.
                  Accounts m
                    (ingest_queued calls is_published batch prepared.accepted_points store).0)
                sum (queued-Accounts is_published batch prepared.accepted_points store)))

module _ {A : Type 0} (p : A → Bool) where
  count-not : (xs : List A) → count p xs + count (λ x. not (p x)) xs ≡ length xs
  count-not [] = omega arith
  count-not (x ∷ xs) = ground (arith, count-not xs)

  all-count : (xs : List A) → all p xs ≡ true → count p xs ≡ length xs
  all-count [] h = refl
  all-count (x ∷ xs) h = ground (arith, all-count xs)

-- the points accepted and those in quarantine are all, unless some are rejected
prepared-sum :
    {F : Type 0} (contract : TelemetryContract) (mode : String) (points : List (CandidatePoint F))
    → is_empty_list (prepare_points contract mode points).reject_errors ≡ true
    → length (prepare_points contract mode points).accepted_points
        + length (prepare_points contract mode points).quarantined_points
      ≡ length points
prepared-sum contract mode points h =
    let (accepted, _, _) = prepare_points-lists contract mode points in
    let (quarantined, errors) = prepare_points-counts contract mode points in
    let kept : length (prepare_points contract mode points).accepted_points
        ≡ count (conforms contract) points =
      ap length accepted ∙ length-filter (conforms contract) points in
    sum_of (str_eq mode "reject") (all (conforms contract) points) _ _ _ _ _ kept quarantined
      (sym errors ∙ h) (count-not (conforms contract) points) (all-count (conforms contract) points)
  where
    sum_of :
        (refused all_conform : Bool) (a q c n m : ℕ)
        → a ≡ c
        → q ≡ (if refused then 0 else n)
        → (if refused then all_conform else true) ≡ true
        → c + n ≡ m
        → (all_conform ≡ true → c ≡ m)
        → a + q ≡ m
    sum_of refused all_conform a q c n m e f g h k = ground arith

ingest_under-Accounts :
    (calls : Calls) (settings : IngestSettings) (is_published : Bool) (device_id : String)
    (header : Option String) (points : List (Point calls)) (store : Tables calls)
    (contract : TelemetryContract)
    → Accounts
        (length points)
        (ingest_under calls settings is_published device_id header points store contract).0
unfolding ingest_under new_batch
ingest_under-Accounts calls settings is_published device_id header points store contract =
    let source = parse_ingest_source calls.world.lower header in
    let prepared = prepare_points contract settings.type_mismatch_mode points in
    let batch =
      new_batch settings contract source device_id (length points) prepared store.next_batch_id in
    finish-Accounts calls settings is_published batch prepared
      (record_batch settings batch prepared store) (length points)
      (prepared-sum contract settings.type_mismatch_mode points)

ingest-Accounts :
    (calls : Calls) (settings : IngestSettings) (answers : Answers) (device_id : String)
    (header : Option String) (points : List (Point calls)) (store : Tables calls)
    → Accounts (length points) (ingest calls settings answers device_id header points store).0
unfolding ingest
ingest-Accounts calls settings answers device_id header points store =
    if_cases (λ (r : IngestResult × Tables calls). Accounts (length points) r.0)
      (ltb settings.max_points_per_request (length points)) _ _ (λ many. tt)
      (λ few.
        if_cases (λ (r : IngestResult × Tables calls). Accounts (length points) r.0)
          (not answers.allowed) _ _ (λ limited. tt)
          (λ allowed. elim (Option-cases answers.contract) [
            | inl unavailable ↦ rw unavailable tt
            | inr (contract, loaded) ↦ rw loaded (
                ingest_under-Accounts calls settings answers.is_published device_id header points
                  store contract)
          ]))

-- Every response of the ingest endpoint accounts for all points of its request: those accepted, the
-- duplicates and those put into quarantine add up to the points submitted, in both pipeline modes.
pub ingest_accounts :
    (calls : Calls) (settings : IngestSettings) (answers : Answers) (device_id : String)
    (header : Option String) (points : List (Point calls)) (store : Tables calls)
    (r : IngestResponse)
    → (ingest calls settings answers device_id header points store).0 ≡ response r
    → r.accepted + r.duplicates + r.quarantined ≡ length points
ingest_accounts calls settings answers device_id header points store r h =
    subst (Accounts (length points)) h
      (ingest-Accounts calls settings answers device_id header points store)
