-- ===== src/Ingestion/Once.antt =====
-- That a telemetry point is stored once: `persist_points_for_batch` of
-- api/app/services/ingestion_runtime.py.
use mathlib.Core.Path.{subst}
use edgewatch_telemetry.Prelude.{
  ℕ, ◌≤◌, ◌≡◌, refl, sym, ◌∙◌, ap, String, Bool, false, not, ◌&&◌, List, [], ◌∷◌, ◌++◌, map, filter,
  count, count-append, str_eq, eq_iff, Bool-cases, inl, inr, arith, if_cases, ◌==◌, if◌then◌else◌,
}
use edgewatch_telemetry.Ingestion.{
  CandidatePoint, TelemetryPoint, TelemetryIngestDedupe, Calls, Tables, Point,
}
use edgewatch_telemetry.Ingestion.Persist.{
  candidate_row, is_listed, is_dedupe, is_seen, dedupe_row, unique_from, insert_dedupe,
  store_inserted, persist_points_for_batch,
}
use edgewatch_telemetry.Ingestion.Dedupe.{times, insert_dedupe-count, insert_dedupe-le_one}

str_eq_sym : (s t : String) → str_eq s t ≡ str_eq t s
str_eq_sym s t = elim (Bool-cases (str_eq s t)) [
  | inl same ↦ same ∙ sym ((eq_iff t s).1 (sym ((eq_iff s t).0 same)))
  | inr other ↦ elim (Bool-cases (str_eq t s)) [
    | inl same ↦ (eq_iff s t).1 (sym ((eq_iff t s).0 same)) ∙ sym same
    | inr also ↦ other ∙ sym also
  ]
]

is_listed-times : (m : String) (ids : List String) → is_listed m ids ≡ not (times m ids == 0)
is_listed-times m [] = refl
is_listed-times m (x ∷ ids) = ground (arith, str_eq_sym m x, is_listed-times m ids)

-- the points of a message id
abbrev pub of_id : {F : Type 0} → String → List (CandidatePoint F) → ℕ
of_id m points = count (λ p. str_eq p.message_id m) points

module _ {F : Type 0} where
  -- a message id is kept at most once, and not where it was seen before
  unique_from-le :
      (m : String) (seen : List String) (points : List (CandidatePoint F))
      → of_id m (unique_from seen points) ≤ (if is_listed m seen then 0 else 1)
  unfolding unique_from
  unique_from-le m seen [] = ground arith
  unique_from-le m seen (p ∷ ps) =
      if_cases (λ (xs : List (CandidatePoint F)). of_id m xs ≤ (if is_listed m seen then 0 else 1))
        (is_listed p.message_id seen) _ _ (λ known. unique_from-le m seen ps)
        (λ new. kept new (unique_from-le m (p.message_id ∷ seen) ps))
    where
      kept :
          is_listed p.message_id seen ≡ false
          → of_id m (unique_from (p.message_id ∷ seen) ps)
            ≤ (if is_listed m (p.message_id ∷ seen) then 0 else 1)
          → of_id m (p ∷ unique_from (p.message_id ∷ seen) ps) ≤ (if is_listed m seen then 0 else 1)
      kept new rest = elim (Bool-cases (str_eq p.message_id m)) [
        | inl same ↦
            let not_seen : is_listed m seen ≡ false =
              subst (λ x. is_listed x seen ≡ false) ((eq_iff p.message_id m).0 same) new in
            ground (arith, str_eq_sym p.message_id m)
        | inr other ↦ ground (arith, str_eq_sym p.message_id m)
      ]

  -- an id is inserted no more often than it stands in the points
  inserted-le :
      (device_id m : String) (points : List (CandidatePoint F)) (rows : List TelemetryIngestDedupe)
      → times m (insert_dedupe device_id points rows).1 ≤ of_id m points
  unfolding insert_dedupe
  inserted-le device_id m [] rows = omega arith
  inserted-le device_id m (p ∷ ps) rows =
      if_cases (λ (r : List TelemetryIngestDedupe × List String). times m r.1 ≤ of_id m (p ∷ ps))
        (is_seen device_id rows p.message_id) _ _
        (λ seen. ground (arith, inserted-le device_id m ps rows))
        (λ new. ground (arith, inserted-le device_id m ps (rows ++ dedupe_row device_id p ∷ [])))

abbrev pub is_point : {F : Type 0} → String → String → TelemetryPoint F → Bool
is_point device_id message_id row =
    str_eq row.device_id device_id && str_eq row.message_id message_id

module _ {F : Type 0} (device_id d m : String) (batch_id : ℕ) (ids : List String) where
  -- the rows stored of a message id
  stored-count :
      (points : List (CandidatePoint F))
      → count (is_point d m) (
          filter
            (λ row. is_listed row.message_id ids)
            (map (candidate_row device_id batch_id) points))
        ≡ (if str_eq device_id d && is_listed m ids then of_id m points else 0)
  unfolding candidate_row
  stored-count [] = ground arith
  stored-count (p ∷ ps) = elim (Bool-cases (str_eq p.message_id m)) [
    | inl same ↦
        let alike : is_listed p.message_id ids ≡ is_listed m ids =
          ap (λ x. is_listed x ids) ((eq_iff p.message_id m).0 same) in
        ground (arith, stored-count ps)
    | inr other ↦ ground (arith, stored-count ps)
  ]

-- Each point of a device and a message id is stored once for its row of message ids seen, of which
-- there is at most one.
abbrev pub EachOnce : (calls : Calls) → Tables calls → Type 0
EachOnce calls store =
    (d m : String)
    → (count (is_point d m) store.telemetry_points
        ≡ count (is_dedupe d m) store.telemetry_ingest_dedupe)
      × (count (is_dedupe d m) store.telemetry_ingest_dedupe ≤ 1)

-- of the points of a batch, those inserted are as many as those stored
same_rows :
    (own listed : Bool) (inserted unique : ℕ)
    → listed ≡ not (inserted == 0)
    → inserted ≤ unique
    → unique ≤ 1
    → (if own && listed then unique else 0) ≡ (if own then inserted else 0)
same_rows own listed inserted unique h k l = ground arith

module _ (calls : Calls) (device_id : String) (batch_id : ℕ) where
  persist-EachOnce :
      (points : List (Point calls)) (store : Tables calls)
      → EachOnce calls store
      → EachOnce calls (persist_points_for_batch calls device_id batch_id points store).1
  unfolding persist_points_for_batch store_inserted
  persist-EachOnce [] store h d m = h d m
  persist-EachOnce (p ∷ ps) store h d m =
      let (same, one) = h d m in
      let unique = unique_from [] (p ∷ ps) in
      let rows = store.telemetry_ingest_dedupe in
      let ids = (insert_dedupe device_id unique rows).1 in
      let stored = stored-count device_id d m batch_id ids unique in
      let alike =
        same_rows (str_eq device_id d) (is_listed m ids) (times m ids) (of_id m unique)
          (is_listed-times m ids) (inserted-le device_id m unique rows)
          (unique_from-le m [] (p ∷ ps)) in
      (
        omega (
          arith,
          count-append (is_point d m) store.telemetry_points (
              filter (λ row. is_listed row.message_id ids)
                (map (candidate_row device_id batch_id) unique)),
          stored,
          alike,
          insert_dedupe-count device_id d m unique rows,
          same,
        ),
        insert_dedupe-le_one device_id d m unique rows one,
      )

-- a batch that is stored, of a device
pub record Batch (calls : Calls) : Type 0 where
  pub device_id : String
  pub batch_id : ℕ
  pub points : List (Point calls)

unfoldable pub persist_all : (calls : Calls) → List (Batch calls) → Tables calls → Tables calls
unfolding persist_points_for_batch
persist_all calls [] store = store
persist_all calls (b ∷ bs) store =
    persist_all calls bs (persist_points_for_batch calls b.device_id b.batch_id b.points store).1

-- Through any sequence of batches of any devices, whatever they repeat, each device's message id
-- stands in at most one telemetry point, and in one exactly if it has been recorded as seen.
pub persist_all-EachOnce :
    (calls : Calls) (batches : List (Batch calls)) (store : Tables calls)
    → EachOnce calls store
    → EachOnce calls (persist_all calls batches store)
unfolding persist_all
persist_all-EachOnce calls [] store h = h
persist_all-EachOnce calls (b ∷ bs) store h =
    persist_all-EachOnce calls bs
      (persist_points_for_batch calls b.device_id b.batch_id b.points store).1
      (persist-EachOnce calls b.device_id b.batch_id b.points store h)
