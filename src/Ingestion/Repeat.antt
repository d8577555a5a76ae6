-- ===== src/Ingestion/Repeat.antt =====
-- That a batch may be sent again: `persist_points_for_batch` of
-- api/app/services/ingestion_runtime.py.
use mathlib.Core.Path.{subst}
use mathlib.Core.List.{append-nil}
use edgewatch_telemetry.Prelude.{
  ℕ, ◌-◌, ◌≡◌, refl, sym, ◌∙◌, ap, String, Bool, true, false, none, List, [], ◌∷◌, ◌++◌, map,
  filter, count, all, length, str_eq, eq_iff, Bool-cases, inl, inr, arith, if_cases,
}
use edgewatch_telemetry.Ingestion.{CandidatePoint, TelemetryIngestDedupe, Calls, Tables, Point}
use edgewatch_telemetry.Ingestion.Persist.{
  candidate_row, is_listed, is_seen, unique_from, insert_dedupe, check_inserted, see_device,
  store_inserted, persist_points_for_batch,
}
use edgewatch_telemetry.Ingestion.Dedupe.{all_seen, insert_dedupe-all_seen, insert_dedupe-nothing}

-- what holds of all ids of a list holds of one in it
all_in :
    (q : String → Bool) (x : String) (ids : List String)
    → all q ids ≡ true
    → is_listed x ids ≡ true
    → q x ≡ true
all_in q x [] h k = ground arith
all_in q x (y ∷ ids) h k = elim (Bool-cases (str_eq x y)) [
  | inl same ↦ subst (λ z. q z ≡ true) (sym ((eq_iff x y).0 same)) (ground arith)
  | inr other ↦ all_in q x ids (ground arith) (ground arith)
]

module _ {F : Type 0} (device_id : String) (rows : List TelemetryIngestDedupe) where
  unique-all_seen :
      (seen : List String) (points : List (CandidatePoint F))
      → all_seen device_id points rows ≡ true
      → all_seen device_id (unique_from seen points) rows ≡ true
  unfolding unique_from
  unique-all_seen seen [] h = refl
  unique-all_seen seen (p ∷ ps) h =
      if_cases (λ (xs : List (CandidatePoint F)). all_seen device_id xs rows ≡ true)
        (is_listed p.message_id seen) _ _ (λ known. unique-all_seen seen ps (ground arith))
        (λ new. ground (arith, unique-all_seen (p.message_id ∷ seen) ps))

  all_seen_of_unique :
      (seen : List String) (points : List (CandidatePoint F))
      → all (is_seen device_id rows) seen ≡ true
      → all_seen device_id (unique_from seen points) rows ≡ true
      → all_seen device_id points rows ≡ true
  unfolding unique_from
  all_seen_of_unique seen [] h k = refl
  all_seen_of_unique seen (p ∷ ps) h k = elim (Bool-cases (is_listed p.message_id seen)) [
    | inl known ↦
        let own = all_in (is_seen device_id rows) p.message_id seen h known in
        ground (arith, all_seen_of_unique seen ps)
    | inr new ↦ ground (arith, all_seen_of_unique (p.message_id ∷ seen) ps)
  ]

count-all : {A : Type 0} (xs : List A) → count (λ x. true) xs ≡ length xs
count-all [] = refl
count-all (x ∷ xs) = omega (arith, count-all xs)

nil_of_length : {A : Type 0} (xs : List A) → length xs ≡ 0 → xs ≡ []
nil_of_length [] h = refl
nil_of_length (x ∷ xs) h = ground arith

pub length-returned : (calls : Calls) (ids : List String) → length (calls.returned ids) ≡ length ids
length-returned calls ids =
    sym (count-all (calls.returned ids)) ∙ calls.returned_count (λ x. true) ids ∙ count-all ids

filter_none : {A : Type 0} (xs : List A) → filter (λ x. false) xs ≡ []
filter_none [] = refl
filter_none (x ∷ xs) = filter_none xs

module _ (calls : Calls) (device_id : String) (batch_id : ℕ) where
  minus_none : (n : ℕ) → n - 0 ≡ n
  minus_none n = omega arith

  store_inserted-nothing :
      (submitted : ℕ) (unique : List (Point calls)) (store : Tables calls)
      → store_inserted calls device_id batch_id submitted unique
          (store.telemetry_ingest_dedupe, [])
          store
        ≡ ((0, submitted, none), store)
  unfolding store_inserted
  store_inserted-nothing submitted unique store =
      let no_ids : calls.returned [] ≡ [] =
        nil_of_length (calls.returned []) (length-returned calls []) in
      let no_rows : store.telemetry_points
            ++ filter (λ row. false) (map (candidate_row device_id batch_id) unique)
          ≡ store.telemetry_points =
        ap (λ xs. store.telemetry_points ++ xs)
          (filter_none (map (candidate_row device_id batch_id) unique))
        ∙ append-nil store.telemetry_points in
      rw (no_rows, no_ids, store_inserted, check_inserted, see_device)
        (ap (λ n. ((0, n, none), store)) (minus_none submitted))

  -- Where all points have been seen, a batch is all duplicates: nothing is stored, no alert is
  -- raised and no time is seen.
  pub persist-seen :
      (points : List (Point calls)) (store : Tables calls)
      → all_seen device_id points store.telemetry_ingest_dedupe ≡ true
      → persist_points_for_batch calls device_id batch_id points store
        ≡ ((0, length points, none), store)
  unfolding persist_points_for_batch
  persist-seen [] store h = refl
  persist-seen (p ∷ ps) store h =
      let nothing =
        insert_dedupe-nothing device_id (unique_from [] (p ∷ ps)) store.telemetry_ingest_dedupe
          (unique-all_seen device_id store.telemetry_ingest_dedupe [] (p ∷ ps) h) in
      ap
        (λ r.
          store_inserted calls device_id batch_id (length (p ∷ ps)) (unique_from [] (p ∷ ps)) r
            store)
        nothing
      ∙ store_inserted-nothing (length (p ∷ ps)) (unique_from [] (p ∷ ps)) store

  persist-all_seen :
      (points : List (Point calls)) (store : Tables calls)
      → all_seen device_id points
          (persist_points_for_batch calls device_id batch_id points store).1.telemetry_ingest_dedupe
        ≡ true
  unfolding persist_points_for_batch store_inserted
  persist-all_seen [] store = refl
  persist-all_seen (p ∷ ps) store =
      let unique = unique_from [] (p ∷ ps) in
      let rows = store.telemetry_ingest_dedupe in
      all_seen_of_unique device_id (insert_dedupe device_id unique rows).0 [] (p ∷ ps) refl
        (insert_dedupe-all_seen device_id unique rows)

-- Sending a batch again, as a batch of whatever number, changes nothing: all its points are counted
-- as duplicates, no table is written and no alert is raised or resolved.
pub persist_points_for_batch_idem :
    (calls : Calls) (device_id : String) (batch_id batch_id' : ℕ) (points : List (Point calls))
    (store : Tables calls)
    → (let stored = (persist_points_for_batch calls device_id batch_id points store).1 in
        persist_points_for_batch calls device_id batch_id' points stored
        ≡ ((0, length points, none), stored))
persist_points_for_batch_idem calls device_id batch_id batch_id' points store =
    persist-seen calls device_id batch_id' points
      (persist_points_for_batch calls device_id batch_id points store).1
      (persist-all_seen calls device_id batch_id points store)
