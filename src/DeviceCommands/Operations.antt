-- ===== src/DeviceCommands/Operations.antt =====
-- The operations of api/app/services/device_commands.py on the table of commands.
use edgewatch_telemetry.Prelude.{
  ℕ, suc, ◌+◌, max, String, Bool, true, false, not, ◌&&◌, ◌||◌, Option, none, some, List, [], ◌∷◌,
  ◌++◌, map, filter, ltb, leb, ◌==◌, str_eq, count, if◌then◌else◌,
}
use Prim.Native.String.{◌++◌ as ◌+++◌}
use edgewatch_telemetry.Prelude.Int.{ℤ, pos, clamp_nonneg}
use edgewatch_telemetry.Prelude.Text.{show}
use edgewatch_telemetry.Prelude.Tables.{update_found}
use edgewatch_telemetry.Prelude.Time.{Time, seconds}
use edgewatch_telemetry.DeviceCommands.{
  Calls, CommandStatus, pending, superseded, expired, acknowledged, Json, DeviceControls, text,
  boolean, integer, DeviceControlCommand, CommandTable, GraceValue, normalize_reason,
  safe_shutdown_grace_s, command_payload_from_device, update, is_pending, is_acknowledged,
}

-- `if device_id:`, where no device or an empty name means every device
abbrev pub is_for : Option String → DeviceControlCommand → Bool
is_for none c = true
is_for (some device_id) c = str_eq device_id "" || str_eq c.device_id device_id

abbrev pub is_due : Option String → Time → DeviceControlCommand → Bool
is_due device_id ts c = is_pending c.status && leb c.expires_at ts && is_for device_id c

abbrev pub expire_row : Option String → Time → DeviceControlCommand → DeviceControlCommand
expire_row device_id ts c = if is_due device_id ts c then record c { status = expired } else c

unfoldable pub expire_commands : Option String → Time → CommandTable → CommandTable × ℕ
expire_commands device_id ts table = (
  record table { rows = map (expire_row device_id ts) table.rows },
  count (is_due device_id ts) table.rows,
)

-- `exclude_id` of the query
abbrev pub is_excluded : Option ℕ → DeviceControlCommand → Bool
is_excluded none c = false
is_excluded (some id) c = c.id == id

abbrev pub is_superseded : String → Option ℕ → DeviceControlCommand → Bool
is_superseded device_id exclude_id c =
    str_eq c.device_id device_id && is_pending c.status && not (is_excluded exclude_id c)

-- what superseding makes of a command that the query finds
abbrev pub supersede : Time → DeviceControlCommand → DeviceControlCommand
supersede ts c = record c { status = superseded; superseded_at = some ts }

-- Sessions have no autoflush, so the query tests the rows `stored` in the database: it does not see
-- what the session has changed since its last flush.
unfoldable pub supersede_pending_commands :
    String → Time → Option ℕ → List DeviceControlCommand → CommandTable → CommandTable × ℕ
supersede_pending_commands device_id ts exclude_id stored table = (
  record table {
    rows = update_found (is_superseded device_id exclude_id) (supersede ts) stored table.rows;
  },
  count (is_superseded device_id exclude_id) stored,
)

-- the `DeviceControlCommand(...)` of an enqueue, whose id is drawn by the flush
unfoldable pub new_command :
    Calls → DeviceControls → ℤ → List (String × Json) → Time → ℕ → DeviceControlCommand
new_command calls device ttl_s payload_overrides ts id = record {
  id = id;
  device_id = device.device_id;
  command_payload = update (command_payload_from_device calls device) payload_overrides;
  status = pending;
  issued_at = ts;
  expires_at = ts + seconds (max 1 (clamp_nonneg ttl_s));
  acknowledged_at = none;
  superseded_at = none;
}

-- `session.add(command)` and `session.flush()`
unfoldable pub add_command : DeviceControlCommand → CommandTable → CommandTable
add_command command table = record {
  rows = table.rows ++ command ∷ [];
  next_id = suc table.next_id;
}

-- The changes of the two queries are flushed with the new row.
unfoldable pub enqueue_device_control_command :
    Calls
    → DeviceControls
    → ℤ
    → List (String × Json)
    → Time
    → CommandTable
    → CommandTable × DeviceControlCommand
enqueue_device_control_command calls device ttl_s payload_overrides ts table =
    let (kept, _) = expire_commands (some device.device_id) ts table in
    let (cleared, _) = supersede_pending_commands device.device_id ts none table.rows kept in
    let command = new_command calls device ttl_s payload_overrides ts cleared.next_id in
    (add_command command cleared, command)

-- the payload of a shutdown, over the device's own
unfoldable pub shutdown_overrides : GraceValue → String → List (String × Json)
shutdown_overrides shutdown_grace_s reason =
    ("operation_mode", text "disabled")
    ∷ ("shutdown_requested", boolean true)
    ∷ ("shutdown_grace_s", integer (safe_shutdown_grace_s shutdown_grace_s))
    ∷ ("shutdown_reason", text reason)
    ∷ []

-- `none` for the ValueError of a reason that is blank
unfoldable pub enqueue_device_shutdown_command :
    Calls
    → DeviceControls
    → String
    → GraceValue
    → ℤ
    → Time
    → CommandTable
    → Option (CommandTable × DeviceControlCommand)
enqueue_device_shutdown_command calls device reason shutdown_grace_s ttl_s ts table =
    elim (normalize_reason (some reason)) [
      | none ↦ none
      | some normalized_reason ↦ some (
          enqueue_device_control_command calls device ttl_s
            (shutdown_overrides shutdown_grace_s normalized_reason) ts table)
    ]

-- the filters of a query for what the device is to do
abbrev pub is_live : String → Time → DeviceControlCommand → Bool
is_live device_id ts c = str_eq c.device_id device_id && is_pending c.status && ltb ts c.expires_at

-- The query tests `expires_at` itself, so that it finds no row that the session has just expired,
-- flushed or not. The second sort key, the id, only chooses among rows issued at one time, which `newest` leaves open.
unfoldable pub get_pending_device_command :
    Calls → String → Time → CommandTable → CommandTable × Option DeviceControlCommand
get_pending_device_command calls device_id ts table =
    let (kept, _) = expire_commands (some device_id) ts table in
    (
      kept,
      calls.sql.newest DeviceControlCommand (λ c. c.issued_at)
          (filter (is_live device_id ts) kept.rows),
    )

-- `a or b` for a time that may be missing
abbrev pub or_now : Option Time → Time → Option Time
or_now none ts = some ts
or_now (some t) ts = some t

-- what an acknowledgement makes of its row: an overdue command expires first
unfoldable pub ack_status : Time → DeviceControlCommand → CommandStatus
ack_status ts c =
    let now_expired = is_pending c.status && leb c.expires_at ts in
    if now_expired then expired else if is_pending c.status then acknowledged else c.status

unfoldable pub ack_row : Time → DeviceControlCommand → DeviceControlCommand
unfolding ack_status
ack_row ts c =
    let status = ack_status ts c in
    record c {
      status = status;
      acknowledged_at =
          if is_acknowledged status then or_now c.acknowledged_at ts else c.acknowledged_at;
    }

-- the filters of the query; the primary key leaves one row at most
abbrev pub is_row : String → ℕ → DeviceControlCommand → Bool
is_row device_id command_id c = c.id == command_id && str_eq c.device_id device_id

abbrev pub find_row :
    (DeviceControlCommand → Bool) → List DeviceControlCommand → Option DeviceControlCommand
find_row p [] = none
find_row p (c ∷ cs) = let later = find_row p cs in if p c then some c else later

abbrev pub ack_if : String → ℕ → Time → DeviceControlCommand → DeviceControlCommand
ack_if device_id command_id ts c = if is_row device_id command_id c then ack_row ts c else c

unfoldable pub ack_device_command :
    String → ℕ → Time → CommandTable → CommandTable × Option DeviceControlCommand
ack_device_command device_id command_id ts table =
    elim (find_row (is_row device_id command_id) table.rows) [
      | none ↦ (table, none)
      | some row ↦ (
        record table { rows = map (ack_if device_id command_id ts) table.rows },
        some (ack_row ts row),
      )
    ]

-- the count and the latest expiry of what the device is to do
unfoldable pub pending_command_summary :
    Calls → String → Time → CommandTable → CommandTable × ℕ × Option Time
pending_command_summary calls device_id ts table =
    let (kept, _) = expire_commands (some device_id) ts table in
    let live = filter (is_live device_id ts) kept.rows in
    (
      kept,
      count (is_live device_id ts) kept.rows,
      elim (calls.sql.newest DeviceControlCommand (λ c. c.expires_at) live) [
        | none ↦ none
        | some latest ↦ some latest.expires_at
      ],
    )

unfoldable pub status_text : CommandStatus → String
status_text pending = "pending"
status_text superseded = "superseded"
status_text expired = "expired"
status_text acknowledged = "acknowledged"

unfoldable pub control_command_etag_fragment :
    Calls → String → Time → CommandTable → CommandTable × String
control_command_etag_fragment calls device_id ts table =
    let (kept, found) = get_pending_device_command calls device_id ts table in
    elim found [
      | none ↦ (kept, "none")
      | some c ↦ (
        kept,
        show (pos c.id) +++ ":" +++ calls.isoformat c.expires_at +++ ":" +++ status_text c.status,
      )
    ]
