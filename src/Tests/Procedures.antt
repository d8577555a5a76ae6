-- ===== src/Tests/Procedures.antt =====
-- Invocations of api/app/services/device_procedures.py for one pump.
use edgewatch_telemetry.Prelude.{refl, true, none, List, [], ◌∷◌, arith}
use edgewatch_telemetry.Prelude.Int.{pos}
use edgewatch_telemetry.Prelude.Time.{seconds}
use edgewatch_telemetry.Tests.DeviceCommands.{calls}
use edgewatch_telemetry.Procedures.{DeviceProcedureDefinition, ProcedureTables}
use edgewatch_telemetry.Procedures.Operations.{ResultArguments}
use edgewatch_telemetry.Procedures.Lifecycle.{Operation, enqueue, fetch, complete, run}
use edgewatch_telemetry.Procedures.Soundness.{IsSound, run-IsSound}

abbrev definition : DeviceProcedureDefinition
definition = record {
  id = 0;
  name = "capture_snapshot";
  description = none;
  request_schema = [];
  response_schema = [];
  timeout_s = 300;
  enabled = true;
  created_by = "admin";
}

abbrev tables : ProcedureTables
tables = record { definitions = definition ∷ []; invocations = []; next_id = 1 }

abbrev result : ResultArguments
result = record {
  status = "succeeded";
  result_payload = none;
  reason_code = none;
  reason_detail = none;
}

-- asked for twice, fetched, and answered, the first time for the invocation that was replaced
abbrev calls_of_a_day : List Operation
calls_of_a_day =
    enqueue "pump-1" definition "ann@site" none (pos 60) (seconds 10)
    ∷ enqueue "pump-1" definition "ann@site" none (pos 60) (seconds 20)
    ∷ fetch "pump-1" (seconds 30)
    ∷ complete "pump-1" 1 result (seconds 40)
    ∷ complete "pump-1" 2 result (seconds 50)
    ∷ []

run-IsSound_example : IsSound (run calls calls_of_a_day tables)
run-IsSound_example = run-IsSound calls calls_of_a_day tables ((λ d. omega arith), refl)
