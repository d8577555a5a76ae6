-- ===== src/Procedures.antt =====
-- api/app/services/device_procedures.py: procedures that operators ask devices to run. The tables are
-- lists of rows in the order of their insertion; a row's `id`, a fresh uuid4 in the program, is the
-- number of ids drawn before it. A dict of JSON values is a list of entries. Each operation takes the
-- time `ts` that its first line resolves.
pub mod Operations
pub mod Lifecycle
pub mod Invariants
pub mod Soundness
use edgewatch_telemetry.Prelude.{
  ℕ, suc, ◌+◌, max, String, Bool, true, false, not, ◌&&◌, ◌||◌, Option, none, some, List, [], ◌∷◌,
  ◌++◌, map, filter, find, ltb, leb, ◌==◌, str_eq, count, if◌then◌else◌,
}
use Prim.Native.String.{◌++◌ as ◌+++◌}
use edgewatch_telemetry.Prelude.Int.{ℤ, pos, clamp_nonneg}
use edgewatch_telemetry.Prelude.Text.{strip, show}
use edgewatch_telemetry.Prelude.Time.{Time, seconds}
use edgewatch_telemetry.DeviceCommands.{Calls, Json}

pub data ProcedureStatus : Type 0 where
  queued in_progress succeeded failed expired superseded : ProcedureStatus

pub record DeviceProcedureDefinition : Type 0 where
  pub id : ℕ
  pub name : String
  pub description : Option String
  pub request_schema : List (String × Json)
  pub response_schema : List (String × Json)
  pub timeout_s : ℕ
  pub enabled : Bool
  pub created_by : String

pub record DeviceProcedureInvocation : Type 0 where
  pub id : ℕ
  pub device_id : String
  pub definition_id : ℕ
  pub request_payload : List (String × Json)
  pub result_payload : Option (List (String × Json))
  pub status : ProcedureStatus
  pub reason_code : Option String
  pub reason_detail : Option String
  pub requester_email : String
  pub issued_at : Time
  pub expires_at : Time
  pub acknowledged_at : Option Time
  pub completed_at : Option Time
  pub superseded_at : Option Time

pub record ProcedureTables : Type 0 where
  pub definitions : List DeviceProcedureDefinition
  pub invocations : List DeviceProcedureInvocation
  pub next_id : ℕ

-- the statuses that the queries for open invocations list
abbrev pub is_queued : ProcedureStatus → Bool
is_queued queued = true
is_queued _ = false

abbrev pub is_waiting : ProcedureStatus → Bool
is_waiting queued = true
is_waiting in_progress = true
is_waiting _ = false

-- `value or default` of a value that may be missing
abbrev pub given_or {ℓ} : {A : Type ℓ} → Option A → A → A
given_or none default = default
given_or (some value) default = value

-- `value.strip()` where that is a text, and nothing else
unfoldable pub stripped_or_none : Option String → Option String
unfolding strip
stripped_or_none none = none
stripped_or_none (some value) = if str_eq (strip value) "" then none else some (strip value)
