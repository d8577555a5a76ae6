-- ===== src/Procedures/Operations.antt =====
-- The operations of api/app/services/device_procedures.py on its tables.
use edgewatch_telemetry.Prelude.{
  ℕ, suc, ◌+◌, max, String, Bool, true, false, not, ◌&&◌, ◌||◌, Option, none, some, List, [], ◌∷◌,
  ◌++◌, map, filter, find, ltb, leb, ◌==◌, str_eq, count, if◌then◌else◌,
}
use Prim.Native.String.{◌++◌ as ◌+++◌}
use edgewatch_telemetry.Prelude.Int.{ℤ, pos, clamp_nonneg}
use edgewatch_telemetry.Prelude.Text.{strip, show}
use edgewatch_telemetry.Prelude.Tables.{update_found}
use edgewatch_telemetry.Prelude.Time.{Time, seconds}
use edgewatch_telemetry.DeviceCommands.{Calls, Json}
use edgewatch_telemetry.Procedures.{
  ProcedureStatus, DeviceProcedureDefinition, DeviceProcedureInvocation, ProcedureTables, is_queued,
  is_waiting, given_or, stripped_or_none, queued, succeeded, failed, expired, superseded,
}

abbrev pub is_for : Option String → DeviceProcedureInvocation → Bool
is_for none row = true
is_for (some device_id) row = str_eq device_id "" || str_eq row.device_id device_id

abbrev pub is_overdue : Option String → Time → DeviceProcedureInvocation → Bool
is_overdue device_id ts row = is_waiting row.status && leb row.expires_at ts && is_for device_id row

abbrev pub expire_row : Option String → Time → DeviceProcedureInvocation → DeviceProcedureInvocation
expire_row device_id ts row =
    if is_overdue device_id ts row
    then record row { status = expired; completed_at = some (given_or row.completed_at ts) }
    else row

unfoldable pub expire_invocations : Option String → Time → ProcedureTables → ProcedureTables × ℕ
expire_invocations device_id ts tables = (
  record tables { invocations = map (expire_row device_id ts) tables.invocations },
  count (is_overdue device_id ts) tables.invocations,
)

abbrev pub is_excluded : Option ℕ → DeviceProcedureInvocation → Bool
is_excluded none row = false
is_excluded (some id) row = row.id == id

abbrev pub is_replaced : String → Option ℕ → DeviceProcedureInvocation → Bool
is_replaced device_id exclude_id row =
    str_eq row.device_id device_id && is_waiting row.status && not (is_excluded exclude_id row)

-- what superseding makes of an invocation that the query finds
abbrev pub supersede : Time → DeviceProcedureInvocation → DeviceProcedureInvocation
supersede ts row = record row {
  status = superseded;
  superseded_at = some ts;
  completed_at = some (given_or row.completed_at ts);
}

-- Sessions have no autoflush, so the query tests the rows `stored` in the database: it does not see
-- what the session has changed since its last flush.
unfoldable pub supersede_pending_invocations :
    String
    → Time
    → Option ℕ
    → List DeviceProcedureInvocation
    → ProcedureTables
    → ProcedureTables × ℕ
supersede_pending_invocations device_id ts exclude_id stored tables = (
  record tables {
    invocations =
        update_found (is_replaced device_id exclude_id) (supersede ts) stored tables.invocations;
  },
  count (is_replaced device_id exclude_id) stored,
)

pub record DefinitionArguments : Type 0 where
  pub name : String
  pub description : Option String
  pub request_schema : Option (List (String × Json))
  pub response_schema : Option (List (String × Json))
  pub timeout_s : ℤ
  pub enabled : Bool
  pub created_by : String

unfoldable pub create_definition :
    DefinitionArguments → ProcedureTables → ProcedureTables × DeviceProcedureDefinition
unfolding strip stripped_or_none
create_definition args tables =
    let row : DeviceProcedureDefinition = record {
      id = tables.next_id;
      name = strip args.name;
      description = stripped_or_none args.description;
      request_schema = given_or args.request_schema [];
      response_schema = given_or args.response_schema [];
      timeout_s = max 1 (clamp_nonneg args.timeout_s);
      enabled = args.enabled;
      created_by = strip args.created_by;
    } in
    (
      record tables { definitions = tables.definitions ++ row ∷ []; next_id = suc tables.next_id },
      row,
    )

-- the invocation that an enqueue adds, whose id is drawn by the flush
unfoldable pub new_invocation :
    String
    → DeviceProcedureDefinition
    → String
    → Option (List (String × Json))
    → ℤ
    → Time
    → ℕ
    → DeviceProcedureInvocation
unfolding strip
new_invocation device_id definition requester_email request_payload ttl_s ts id = record {
  id = id;
  device_id = device_id;
  definition_id = definition.id;
  request_payload = given_or request_payload [];
  result_payload = none;
  status = queued;
  reason_code = none;
  reason_detail = none;
  requester_email = strip requester_email;
  issued_at = ts;
  expires_at = ts + seconds (max 1 (clamp_nonneg ttl_s));
  acknowledged_at = none;
  completed_at = none;
  superseded_at = none;
}

abbrev pub add_invocation : DeviceProcedureInvocation → ProcedureTables → ProcedureTables
add_invocation row tables = record tables {
  invocations = tables.invocations ++ row ∷ [];
  next_id = suc tables.next_id;
}

-- The changes of the two queries are flushed with the new row.
unfoldable pub enqueue_invocation :
    String
    → DeviceProcedureDefinition
    → String
    → Option (List (String × Json))
    → ℤ
    → Time
    → ProcedureTables
    → ProcedureTables × DeviceProcedureInvocation
enqueue_invocation device_id definition requester_email request_payload ttl_s ts tables =
    let (kept, _) = expire_invocations (some device_id) ts tables in
    let (cleared, _) = supersede_pending_invocations device_id ts none tables.invocations kept in
    let row =
      new_invocation device_id definition requester_email request_payload ttl_s ts
        cleared.next_id in
    (add_invocation row cleared, row)

abbrev pub is_offered : String → Time → DeviceProcedureInvocation → Bool
is_offered device_id ts row =
    str_eq row.device_id device_id && is_queued row.status && ltb ts row.expires_at

-- The query tests `expires_at` itself, so that it finds no row that the session has just expired,
-- flushed or not. The second sort key, the id, only chooses among rows issued at one time, which `newest` leaves open.
unfoldable pub get_pending_invocation :
    Calls → String → Time → ProcedureTables → ProcedureTables × Option DeviceProcedureInvocation
get_pending_invocation calls device_id ts tables =
    let (kept, _) = expire_invocations (some device_id) ts tables in
    (
      kept,
      calls.sql.newest DeviceProcedureInvocation (λ row. row.issued_at)
          (filter (is_offered device_id ts) kept.invocations),
    )

abbrev pub fragment : Calls → Option DeviceProcedureInvocation → String
fragment calls none = "none"
fragment calls (some row) =
    show (pos row.id)
    +++ ":"
    +++ show (pos row.definition_id)
    +++ ":"
    +++ calls.isoformat row.expires_at

unfoldable pub pending_invocation_etag_fragment :
    Calls → String → Time → ProcedureTables → ProcedureTables × String
pending_invocation_etag_fragment calls device_id ts tables =
    let (kept, found) = get_pending_invocation calls device_id ts tables in
    (kept, fragment calls found)

pub record ResultArguments : Type 0 where
  pub status : String
  pub result_payload : Option (List (String × Json))
  pub reason_code : Option String
  pub reason_detail : Option String

abbrev pub result_status : String → Option ProcedureStatus
result_status normalized =
    if str_eq normalized "succeeded"
    then some succeeded
    else if str_eq normalized "failed"
    then some failed
    else none

unfoldable pub complete_row :
    ResultArguments → ProcedureStatus → Time → DeviceProcedureInvocation → DeviceProcedureInvocation
unfolding stripped_or_none
complete_row args normalized ts row = record row {
  status = normalized;
  acknowledged_at = some (given_or row.acknowledged_at ts);
  completed_at = some ts;
  result_payload = args.result_payload;
  reason_code = stripped_or_none args.reason_code;
  reason_detail = stripped_or_none args.reason_detail;
}

-- the filters of the query; the primary key leaves one row at most
abbrev pub is_row : String → ℕ → DeviceProcedureInvocation → Bool
is_row device_id invocation_id row = row.id == invocation_id && str_eq row.device_id device_id

abbrev pub complete_if :
    String
    → ℕ
    → ResultArguments
    → ProcedureStatus
    → Time
    → DeviceProcedureInvocation
    → DeviceProcedureInvocation
complete_if device_id invocation_id args normalized ts row =
    if is_row device_id invocation_id row then complete_row args normalized ts row else row

-- what `complete_invocation` answers: None, ValueError or the row
pub data Completion : Type 0 where
  not_found unsupported : Completion
  completed : DeviceProcedureInvocation → Completion

abbrev pub complete_with :
    String
    → ℕ
    → ResultArguments
    → Time
    → ProcedureTables
    → DeviceProcedureInvocation
    → Option ProcedureStatus
    → ProcedureTables × Completion
complete_with device_id invocation_id args ts tables row none = (tables, unsupported)
complete_with device_id invocation_id args ts tables row (some normalized) = (
  record tables {
    invocations = map (complete_if device_id invocation_id args normalized ts) tables.invocations;
  },
  completed (complete_row args normalized ts row),
)

abbrev pub complete_found :
    Calls
    → String
    → ℕ
    → ResultArguments
    → Time
    → ProcedureTables
    → Option DeviceProcedureInvocation
    → ProcedureTables × Completion
complete_found calls device_id invocation_id args ts tables none = (tables, not_found)
complete_found calls device_id invocation_id args ts tables (some row) =
    complete_with device_id invocation_id args ts tables row
      (result_status (calls.lower (strip args.status)))

unfoldable pub complete_invocation :
    Calls → String → ℕ → ResultArguments → Time → ProcedureTables → ProcedureTables × Completion
unfolding complete_row
complete_invocation calls device_id invocation_id args ts tables =
    complete_found calls device_id invocation_id args ts tables
      (find (is_row device_id invocation_id) tables.invocations)
