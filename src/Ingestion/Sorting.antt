-- ===== src/Ingestion/Sorting.antt =====
-- Where the points of a request go: `prepare_points` of api/app/services/ingest_pipeline.py.
use mathlib.Core.List.{append-nil, append_assoc}
use edgewatch_telemetry.Prelude.{
  ◌≡◌, refl, sym, ◌∙◌, ap, String, Bool, true, false, not, ◌||◌, List, [], ◌∷◌, ◌++◌, map, arith,
  all, count, length, length-filter, for_each, filter, str_eq, Bool-cases, inl, inr, if◌then◌else◌,
}
use edgewatch_telemetry.Ingestion.{CandidatePoint, QuarantinedPoint}
use edgewatch_telemetry.Ingestion.Contract.{
  TypeMismatch, TelemetryContract, validate_metrics_detailed,
}
use edgewatch_telemetry.Ingestion.Prepare.{
  PreparedIngest, format_type_mismatch, sort_point, prepare_point, prepare_each, prepare_points,
  nothing_prepared,
}
use edgewatch_telemetry.Ingestion.Persist.{is_empty_list}

-- the point's metrics have no mismatch
abbrev pub conforms : {F : Type 0} → TelemetryContract → CandidatePoint F → Bool
conforms contract point = is_empty_list (validate_metrics_detailed contract point.metrics).1

-- what is kept of a point in quarantine: all of it, and a text for each mismatch
abbrev pub mismatch_texts : {F : Type 0} → TelemetryContract → CandidatePoint F → List String
mismatch_texts contract point =
    map format_type_mismatch (validate_metrics_detailed contract point.metrics).1

abbrev pub held : {F : Type 0} → TelemetryContract → CandidatePoint F → QuarantinedPoint F
held contract point = record {
  message_id = point.message_id;
  ts = point.ts;
  metrics = point.metrics;
  errors = mismatch_texts contract point;
}

append_step :
    {A : Type 0} (c : Bool) (acc : List A) (p : A) (rest : List A)
    → (if c then acc ++ p ∷ [] else acc) ++ rest ≡ acc ++ (if c then p ∷ rest else rest)
append_step true acc p rest = append_assoc acc (p ∷ []) rest
append_step false acc p rest = refl

-- the same for a list to which a round adds unless the point conforms or the mode is "reject"
held_step :
    {A B : Type 0} (r c : Bool) (f : A → B) (acc : List B) (p : A) (rest : List A)
    → (if c || r then acc else acc ++ f p ∷ []) ++ (if r then [] else map f rest)
      ≡ acc ++ (if r then [] else map f (if not c then p ∷ rest else rest))
held_step true true f acc p rest = refl
held_step true false f acc p rest = refl
held_step false true f acc p rest = refl
held_step false false f acc p rest = append_assoc acc (f p ∷ []) (map f rest)

-- and for the errors of the mode "reject"
error_step :
    {A : Type 0} (r : Bool) (acc xs rest : List A)
    → (if r then acc ++ xs else acc) ++ (if r then rest else [])
      ≡ acc ++ (if r then xs ++ rest else [])
error_step true acc xs rest = append_assoc acc xs rest
error_step false acc xs rest = refl

nothing_held : {A : Type 0} (r : Bool) (acc : List A) → acc ≡ acc ++ (if r then [] else [])
nothing_held true acc = sym (append-nil acc)
nothing_held false acc = sym (append-nil acc)

no_errors : {A : Type 0} (r : Bool) (acc : List A) → acc ≡ (if r then acc ++ [] else acc)
no_errors true acc = sym (append-nil acc)
no_errors false acc = refl

module _ {F : Type 0} (contract : TelemetryContract) (mode : String) where
  -- what a round of the loop adds to the lists
  sort_point-lists :
      (point : CandidatePoint F) (ms : List TypeMismatch) (state : PreparedIngest F)
      → ((sort_point mode point ms state).accepted_points ≡ (
          if is_empty_list ms then state.accepted_points ++ point ∷ [] else state.accepted_points))
        × ((sort_point mode point ms state).quarantined_points ≡ (
            if is_empty_list ms || str_eq mode "reject"
            then state.quarantined_points
            else state.quarantined_points
              ++ record {
                message_id = point.message_id;
                ts = point.ts;
                metrics = point.metrics;
                errors = map format_type_mismatch ms;
              }
                ∷ []))
        × ((sort_point mode point ms state).reject_errors ≡ (
            if str_eq mode "reject"
            then state.reject_errors ++ map format_type_mismatch ms
            else state.reject_errors))
  unfolding sort_point
  sort_point-lists point [] state =
      (refl, refl, no_errors (str_eq mode "reject") state.reject_errors)
  sort_point-lists point (m ∷ ms) state = elim (Bool-cases (str_eq mode "reject")) [
    | inl refused ↦ rw (refused, sort_point) (refl, refl, refl)
    | inr kept ↦ rw (kept, sort_point) (refl, refl, refl)
  ]

  prepare_point-lists :
      (state : PreparedIngest F) (p : CandidatePoint F)
      → ((prepare_point contract mode state p).accepted_points ≡ (
          if conforms contract p then state.accepted_points ++ p ∷ [] else state.accepted_points))
        × ((prepare_point contract mode state p).quarantined_points ≡ (
            if conforms contract p || str_eq mode "reject"
            then state.quarantined_points
            else state.quarantined_points ++ held contract p ∷ []))
        × ((prepare_point contract mode state p).reject_errors ≡ (
            if str_eq mode "reject"
            then state.reject_errors ++ mismatch_texts contract p
            else state.reject_errors))
  unfolding prepare_point
  prepare_point-lists state p =
      sort_point-lists p (validate_metrics_detailed contract p.metrics).1 _

  -- a list after the loop, from a state before it
  prepare_each-lists :
      (state : PreparedIngest F) (points : List (CandidatePoint F))
      → ((prepare_each contract mode state points).accepted_points
          ≡ state.accepted_points ++ filter (conforms contract) points)
        × ((prepare_each contract mode state points).quarantined_points
            ≡ state.quarantined_points
              ++ (if str_eq mode "reject"
                  then []
                  else map (held contract) (filter (λ p. not (conforms contract p)) points)))
        × ((prepare_each contract mode state points).reject_errors
            ≡ state.reject_errors
              ++ (if str_eq mode "reject" then for_each (mismatch_texts contract) points else []))
  unfolding prepare_each prepare_point
  prepare_each-lists state [] = (
    sym (append-nil state.accepted_points),
    nothing_held (str_eq mode "reject") state.quarantined_points,
    nothing_held (str_eq mode "reject") state.reject_errors,
  )
  prepare_each-lists state (p ∷ ps) =
      let c = conforms contract p in
      let r = str_eq mode "reject" in
      let after = prepare_point contract mode state p in
      let (accepted, quarantined, errors) = prepare_point-lists state p in
      let (all_accepted, all_quarantined, all_errors) = prepare_each-lists after ps in
      (
        all_accepted
            ∙ ap (λ xs. xs ++ filter (conforms contract) ps) accepted
            ∙ append_step c state.accepted_points p (filter (conforms contract) ps),
        all_quarantined
            ∙ ap
                (λ xs.
                  xs
                  ++ (if r
                      then []
                      else map (held contract) (filter (λ p. not (conforms contract p)) ps)))
                quarantined
            ∙ held_step r c (held contract) state.quarantined_points p
                (filter (λ p. not (conforms contract p)) ps),
        all_errors
            ∙ ap (λ xs. xs ++ (if r then for_each (mismatch_texts contract) ps else [])) errors
            ∙ error_step r state.reject_errors (mismatch_texts contract p)
                (for_each (mismatch_texts contract) ps),
      )

-- The points accepted are those that conform to the contract, in their order. Of the others, in
-- their order, each is put into quarantine with its id, time, metrics and a text for each of its
-- mismatches; but in the mode "reject" none is, and the errors are the texts of all mismatches of
-- all points, in their order. In another mode there are no errors.
pub prepare_points-lists :
    {F : Type 0} (contract : TelemetryContract) (mode : String) (points : List (CandidatePoint F))
    → ((prepare_points contract mode points).accepted_points ≡ filter (conforms contract) points)
      × ((prepare_points contract mode points).quarantined_points ≡ (
          if str_eq mode "reject"
          then []
          else map (held contract) (filter (λ p. not (conforms contract p)) points)))
      × ((prepare_points contract mode points).reject_errors
          ≡ (if str_eq mode "reject" then for_each (mismatch_texts contract) points else []))
unfolding prepare_points
prepare_points-lists contract mode points = prepare_each-lists contract mode nothing_prepared points

texts_empty :
    (ms : List TypeMismatch) (rest : List String)
    → is_empty_list (map format_type_mismatch ms ++ rest)
      ≡ (if is_empty_list ms then is_empty_list rest else false)
texts_empty [] rest = refl
texts_empty (m ∷ ms) rest = refl

module _ {F : Type 0} (contract : TelemetryContract) where
  length-held :
      (r : Bool) (points : List (CandidatePoint F))
      → length (if r then [] else map (held contract) points) ≡ (if r then 0 else length points)
  length-held true points = refl
  length-held false [] = refl
  length-held false (p ∷ ps) = omega (arith, length-held false ps)

  errors_empty :
      (points : List (CandidatePoint F))
      → is_empty_list (for_each (mismatch_texts contract) points) ≡ all (conforms contract) points
  errors_empty [] = refl
  errors_empty (p ∷ ps) =
      texts_empty (validate_metrics_detailed contract p.metrics).1 _
      ∙ ap (λ b. if conforms contract p then b else false) (errors_empty ps)

  no_errors_in :
      (r : Bool) (points : List (CandidatePoint F))
      → is_empty_list (if r then for_each (mismatch_texts contract) points else [])
        ≡ (if r then all (conforms contract) points else true)
  no_errors_in true points = errors_empty points
  no_errors_in false points = refl

  pub prepare_points-counts :
      (mode : String) (points : List (CandidatePoint F))
      → (length (prepare_points contract mode points).quarantined_points
          ≡ (if str_eq mode "reject" then 0 else count (λ p. not (conforms contract p)) points))
        × (is_empty_list (prepare_points contract mode points).reject_errors
            ≡ (if str_eq mode "reject" then all (conforms contract) points else true))
  prepare_points-counts mode points =
      let (_, quarantined, errors) = prepare_points-lists contract mode points in
      (
        ap length quarantined
            ∙ length-held (str_eq mode "reject") (filter (λ p. not (conforms contract p)) points)
            ∙ ap (λ n. if str_eq mode "reject" then 0 else n)
                (length-filter (λ p. not (conforms contract p)) points),
        ap is_empty_list errors ∙ no_errors_in (str_eq mode "reject") points,
      )
