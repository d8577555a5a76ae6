-- ===== src/Ingestion/Dedupe.antt =====
-- What the insertion with `ON CONFLICT DO NOTHING` of api/app/services/ingestion_runtime.py does to
-- the table of the message ids seen.
use mathlib.Core.Path.{subst}
use edgewatch_telemetry.Prelude.{
  ℕ, suc, ◌+◌, ◌≤◌, ◌≡◌, refl, String, Bool, true, false, not, ◌&&◌, ◌||◌, List, [], ◌∷◌, ◌++◌,
  count, any, all, length, length-append, count-append, str_eq, eq_iff, Bool-cases, inl, inr, arith,
  if_cases, ◌==◌, if◌then◌else◌,
}
use edgewatch_telemetry.Ingestion.{CandidatePoint, TelemetryIngestDedupe}
use edgewatch_telemetry.Ingestion.Persist.{is_dedupe, is_seen, dedupe_row, insert_dedupe}

any-append :
    {A : Type 0} (p : A → Bool) (xs ys : List A) → any p (xs ++ ys) ≡ (any p xs || any p ys)
any-append p [] ys = refl
any-append p (x ∷ xs) ys = ground (arith, any-append p xs ys)

pub any-count : {A : Type 0} (p : A → Bool) (xs : List A) → any p xs ≡ not (count p xs == 0)
any-count p [] = refl
any-count p (x ∷ xs) = ground (arith, any-count p xs)

grown_none : (b : Bool) (n : ℕ) → n ≡ n + (if b then 0 else 0)
grown_none b n = ground arith

-- a row more, of the device and the message id or of others
one_more :
    (own same : Bool) (before with_row after n : ℕ)
    → with_row ≡ before + (if own && same then 1 else 0)
    → after ≡ with_row + (if own then n else 0)
    → after ≡ before + (if own then (if same then suc n else n) else 0)
one_more own same before with_row after n h k = ground arith

unseen :
    (device_id m : String) (rows : List TelemetryIngestDedupe)
    → is_seen device_id rows m ≡ false
    → count (is_dedupe device_id m) rows ≡ 0
unseen device_id m rows h = ground (arith, any-count (is_dedupe device_id m) rows)

-- the rows and the ids of an insertion
abbrev Inserted : Type 0
Inserted = List TelemetryIngestDedupe × List String

-- the ids inserted that are `m`
abbrev pub times : String → List String → ℕ
times m ids = count (λ id. str_eq id m) ids

module _ {F : Type 0} (device_id : String) where
  -- each row inserted is one id
  pub insert_dedupe-length :
      (points : List (CandidatePoint F)) (rows : List TelemetryIngestDedupe)
      → length (insert_dedupe device_id points rows).0
        ≡ length rows + length (insert_dedupe device_id points rows).1
  unfolding insert_dedupe
  insert_dedupe-length [] rows = omega arith
  insert_dedupe-length (p ∷ ps) rows =
      if_cases (λ (r : Inserted). length r.0 ≡ length rows + length r.1)
        (is_seen device_id rows p.message_id) _ _ (λ seen. insert_dedupe-length ps rows)
        (λ new. omega (
          arith,
          insert_dedupe-length ps (rows ++ dedupe_row device_id p ∷ []),
          length-append rows (dedupe_row device_id p ∷ []),
        ))

  -- no more ids are inserted than there are points
  pub insert_dedupe-le :
      (points : List (CandidatePoint F)) (rows : List TelemetryIngestDedupe)
      → length (insert_dedupe device_id points rows).1 ≤ length points
  unfolding insert_dedupe
  insert_dedupe-le [] rows = omega arith
  insert_dedupe-le (p ∷ ps) rows =
      if_cases (λ (r : Inserted). length r.1 ≤ suc (length ps))
        (is_seen device_id rows p.message_id) _ _ (λ seen. omega (arith, insert_dedupe-le ps rows))
        (λ new. omega (arith, insert_dedupe-le ps (rows ++ dedupe_row device_id p ∷ [])))

  -- the rows of a message id grow by the times that it is inserted
  pub insert_dedupe-count :
      (d m : String) (points : List (CandidatePoint F)) (rows : List TelemetryIngestDedupe)
      → count (is_dedupe d m) (insert_dedupe device_id points rows).0
        ≡ count (is_dedupe d m) rows
          + (if str_eq device_id d then times m (insert_dedupe device_id points rows).1 else 0)
  unfolding insert_dedupe
  insert_dedupe-count d m [] rows = grown_none (str_eq device_id d) (count (is_dedupe d m) rows)
  insert_dedupe-count d m (p ∷ ps) rows =
      if_cases
        (λ (r : Inserted).
          count (is_dedupe d m) r.0
          ≡ count (is_dedupe d m) rows + (if str_eq device_id d then times m r.1 else 0))
        (is_seen device_id rows p.message_id) _ _ (λ seen. insert_dedupe-count d m ps rows)
        (λ new.
          one_more (str_eq device_id d) (str_eq p.message_id m) _ _ _ _
            (count-append (is_dedupe d m) rows (dedupe_row device_id p ∷ []))
            (insert_dedupe-count d m ps (rows ++ dedupe_row device_id p ∷ [])))

  -- a row of a message id that has none
  fresh_row :
      (d m : String) (p : CandidatePoint F) (rows : List TelemetryIngestDedupe)
      → is_seen device_id rows p.message_id ≡ false
      → count (is_dedupe d m) rows ≤ 1
      → count (is_dedupe d m) (rows ++ dedupe_row device_id p ∷ []) ≤ 1
  fresh_row d m p rows new h =
      let appended = count-append (is_dedupe d m) rows (dedupe_row device_id p ∷ []) in
      elim (Bool-cases (str_eq device_id d && str_eq p.message_id m)) [
        | inr other ↦ ground arith
        | inl own ↦
            let same_device : device_id ≡ d = (eq_iff device_id d).0 (ground arith) in
            let same_message : p.message_id ≡ m = (eq_iff p.message_id m).0 (ground arith) in
            let none_yet : count (is_dedupe d m) rows ≡ 0 =
              subst (λ x. count (is_dedupe d x) rows ≡ 0) same_message
                (subst (λ x. count (is_dedupe x p.message_id) rows ≡ 0) same_device
                  (unseen device_id p.message_id rows new)) in
            ground arith
      ]

  -- a message id is in at most one row, if it was before
  pub insert_dedupe-le_one :
      (d m : String) (points : List (CandidatePoint F)) (rows : List TelemetryIngestDedupe)
      → count (is_dedupe d m) rows ≤ 1
      → count (is_dedupe d m) (insert_dedupe device_id points rows).0 ≤ 1
  unfolding insert_dedupe
  insert_dedupe-le_one d m [] rows h = h
  insert_dedupe-le_one d m (p ∷ ps) rows h =
      if_cases (λ (r : Inserted). count (is_dedupe d m) r.0 ≤ 1)
        (is_seen device_id rows p.message_id) _ _ (λ seen. insert_dedupe-le_one d m ps rows h)
        (λ new.
          insert_dedupe-le_one d m ps (rows ++ dedupe_row device_id p ∷ [])
            (fresh_row d m p rows new h))

  -- a message id that has a row keeps it
  seen_stays :
      (m : String) (points : List (CandidatePoint F)) (rows : List TelemetryIngestDedupe)
      → is_seen device_id rows m ≡ true
      → is_seen device_id (insert_dedupe device_id points rows).0 m ≡ true
  seen_stays m points rows h = ground (
    arith,
    any-count (is_dedupe device_id m) rows,
    any-count (is_dedupe device_id m) (insert_dedupe device_id points rows).0,
    insert_dedupe-count device_id m points rows,
  )

  seen_row :
      (p : CandidatePoint F) (rows : List TelemetryIngestDedupe)
      → is_seen device_id (rows ++ dedupe_row device_id p ∷ []) p.message_id ≡ true
  seen_row p rows =
      let own_device = (eq_iff device_id device_id).1 refl in
      let own_message = (eq_iff p.message_id p.message_id).1 refl in
      ground
        (arith, any-append (is_dedupe device_id p.message_id) rows (dedupe_row device_id p ∷ []))

  abbrev pub all_seen : List (CandidatePoint F) → List TelemetryIngestDedupe → Bool
  all_seen points rows = all (λ p. is_seen device_id rows p.message_id) points

  -- after the insertion every point's message id has a row
  pub insert_dedupe-all_seen :
      (points : List (CandidatePoint F)) (rows : List TelemetryIngestDedupe)
      → all_seen points (insert_dedupe device_id points rows).0 ≡ true
  unfolding insert_dedupe
  insert_dedupe-all_seen [] rows = refl
  insert_dedupe-all_seen (p ∷ ps) rows =
      if_cases (λ (r : Inserted). all_seen (p ∷ ps) r.0 ≡ true)
        (is_seen device_id rows p.message_id) _ _
        (λ seen. and_then (seen_stays p.message_id ps rows seen) (insert_dedupe-all_seen ps rows))
        (λ new.
          let after = rows ++ dedupe_row device_id p ∷ [] in
          and_then (seen_stays p.message_id ps after (seen_row p rows))
            (insert_dedupe-all_seen ps after))
    where
      and_then : {a b : Bool} → a ≡ true → b ≡ true → (if a then b else false) ≡ true
      and_then h k = ground arith

  -- where every point's message id has a row, nothing is inserted
  pub insert_dedupe-nothing :
      (points : List (CandidatePoint F)) (rows : List TelemetryIngestDedupe)
      → all_seen points rows ≡ true
      → insert_dedupe device_id points rows ≡ (rows, [])
  unfolding insert_dedupe
  insert_dedupe-nothing [] rows h = refl
  insert_dedupe-nothing (p ∷ ps) rows h =
      let seen : is_seen device_id rows p.message_id ≡ true = ground arith in
      rw (seen, insert_dedupe) (insert_dedupe-nothing ps rows (ground arith))
