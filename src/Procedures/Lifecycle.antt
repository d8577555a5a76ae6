-- ===== src/Procedures/Lifecycle.antt =====
-- Sequences of the operations of api/app/services/device_procedures.py.
use edgewatch_telemetry.Prelude.{ℕ, String, Option, List, [], ◌∷◌}
use edgewatch_telemetry.Prelude.Int.{ℤ}
use edgewatch_telemetry.Prelude.Time.{Time}
use edgewatch_telemetry.DeviceCommands.{Calls, Json}
use edgewatch_telemetry.Procedures.{DeviceProcedureDefinition, ProcedureTables}
use edgewatch_telemetry.Procedures.Operations.{
  expire_invocations, supersede_pending_invocations, DefinitionArguments, create_definition,
  enqueue_invocation, get_pending_invocation, ResultArguments, complete_invocation,
}

-- A call of the service that may write, on tables that are in step with the database: an enqueue
-- flushes, and the other calls end with their session or change nothing that a later one tests.
pub data Operation : Type 0 where
  expire : Option String → Time → Operation
  supersede : String → Time → Option ℕ → Operation
  define : DefinitionArguments → Operation
  enqueue :
      String
      → DeviceProcedureDefinition
      → String
      → Option (List (String × Json))
      → ℤ
      → Time
      → Operation
  fetch : String → Time → Operation
  complete : String → ℕ → ResultArguments → Time → Operation

unfoldable pub apply : Calls → Operation → ProcedureTables → ProcedureTables
apply calls (expire device_id ts) tables = (expire_invocations device_id ts tables).0
apply calls (supersede device_id ts exclude_id) tables =
    (supersede_pending_invocations device_id ts exclude_id tables.invocations tables).0
apply calls (define args) tables = (create_definition args tables).0
apply calls (enqueue device_id definition requester payload ttl_s ts) tables =
    (enqueue_invocation device_id definition requester payload ttl_s ts tables).0
apply calls (fetch device_id ts) tables = (get_pending_invocation calls device_id ts tables).0
apply calls (complete device_id invocation_id args ts) tables =
    (complete_invocation calls device_id invocation_id args ts tables).0

unfoldable pub run : Calls → List Operation → ProcedureTables → ProcedureTables
unfolding apply
run calls [] tables = tables
run calls (op ∷ ops) tables = run calls ops (apply calls op tables)
