-- ===== src/Ingestion/Contract.antt =====
-- The telemetry contract: `validate_metrics_detailed` of api/app/contracts.py.
use edgewatch_telemetry.Prelude.{
  String, Bool, true, false, none, some, List, [], ◌∷◌, if◌then◌else◌,
}
use edgewatch_telemetry.Prelude.Dict.{Dict, get_item}
use edgewatch_telemetry.Ingestion.{MetricValue, null, integer, float, other}

pub data MetricType : Type 0 where
  number string boolean : MetricType

abbrev pub type_name : MetricType → String
type_name MetricType.number = "number"
type_name MetricType.string = "string"
type_name MetricType.boolean = "boolean"

-- `type(v).__name__`
abbrev pub value_type_name : {F : Type 0} → MetricValue F → String
value_type_name null = "NoneType"
value_type_name (MetricValue.boolean b) = "bool"
value_type_name (integer n) = "int"
value_type_name (float x) = "float"
value_type_name (MetricValue.string s) = "str"
value_type_name (other name) = name

pub record TypeMismatch : Type 0 where
  pub key : String
  pub expected : MetricType
  pub actual : String

-- the metrics of a contract, with their types
pub record TelemetryContract : Type 0 where
  pub version : String
  pub sha256 : String
  pub metrics : Dict MetricType

unfoldable pub value_matches_type : {F : Type 0} → MetricValue F → MetricType → Bool
value_matches_type (integer n) MetricType.number = true
value_matches_type (float x) MetricType.number = true
value_matches_type (MetricValue.string s) MetricType.string = true
value_matches_type (MetricValue.boolean b) MetricType.boolean = true
value_matches_type _ _ = false

abbrev pub is_null : {F : Type 0} → MetricValue F → Bool
is_null null = true
is_null _ = false

-- the unknown keys and the mismatches of metrics, the first of each first
unfoldable pub validate_metrics_detailed :
    {F : Type 0} → TelemetryContract → Dict (MetricValue F) → List String × List TypeMismatch
unfolding value_matches_type
validate_metrics_detailed contract [] = ([], [])
validate_metrics_detailed contract ((k, v) ∷ rest) =
    let (unknown_keys, mismatches) = validate_metrics_detailed contract rest in
    elim (get_item k contract.metrics) [
      | none ↦ (k ∷ unknown_keys, mismatches)
      | some expected ↦
          if is_null v
          then (unknown_keys, mismatches)
          else if value_matches_type v expected
          then (unknown_keys, mismatches)
          else (
            unknown_keys,
            record { key = k; expected = expected; actual = value_type_name v } ∷ mismatches,
          )
    ]
