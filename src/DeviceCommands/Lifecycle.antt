-- ===== src/DeviceCommands/Lifecycle.antt =====
-- The life of a command through any sequence of the operations of
-- api/app/services/device_commands.py.
use edgewatch_telemetry.Prelude.{
  ℕ, ◌≤◌, String, none, some, List, [], ◌∷◌, arith, eq_iff, str_eq, Bool-cases, Option-cases, inl,
  inr, Option,
}
use mathlib.Core.Path.{subst}
use edgewatch_telemetry.Prelude.Int.{ℤ}
use edgewatch_telemetry.Prelude.Time.{Time}
use edgewatch_telemetry.DeviceCommands.{
  Calls, Json, DeviceControls, CommandTable, GraceValue, normalize_reason,
}
use edgewatch_telemetry.DeviceCommands.Operations.{
  ack_device_command, expire_commands, supersede_pending_commands, enqueue_device_control_command,
  enqueue_device_shutdown_command, get_pending_device_command, pending_command_summary,
  shutdown_overrides,
}
use edgewatch_telemetry.DeviceCommands.Rows.{pending_count}
use edgewatch_telemetry.DeviceCommands.Queue.{
  enqueue-one_pending, enqueue-others, pending_count-expire, pending_count-supersede,
  pending_count-ack,
}

-- A call of the service that may write, on tables that are in step with the database: an enqueue
-- flushes, and the other calls end with their session or change nothing that a later one tests.
pub data Operation : Type 0 where
  expire : Option String → Time → Operation
  supersede : String → Time → Option ℕ → Operation
  enqueue : DeviceControls → ℤ → List (String × Json) → Time → Operation
  shutdown : DeviceControls → String → GraceValue → ℤ → Time → Operation
  fetch : String → Time → Operation
  acknowledge : String → ℕ → Time → Operation
  summary : String → Time → Operation

-- the table that a call leaves; one that raises leaves it as it was
unfoldable pub apply : Calls → Operation → CommandTable → CommandTable
apply calls (expire device_id ts) table = (expire_commands device_id ts table).0
apply calls (supersede device_id ts exclude_id) table =
    (supersede_pending_commands device_id ts exclude_id table.rows table).0
apply calls (enqueue device ttl_s overrides ts) table =
    (enqueue_device_control_command calls device ttl_s overrides ts table).0
apply calls (shutdown device reason grace ttl_s ts) table =
    elim (enqueue_device_shutdown_command calls device reason grace ttl_s ts table) [
      | none ↦ table
      | some (after, _) ↦ after
    ]
apply calls (fetch device_id ts) table = (get_pending_device_command calls device_id ts table).0
apply calls (acknowledge device_id command_id ts) table =
    (ack_device_command device_id command_id ts table).0
apply calls (summary device_id ts) table = (pending_command_summary calls device_id ts table).0

unfoldable pub run : Calls → List Operation → CommandTable → CommandTable
unfolding apply
run calls [] table = table
run calls (op ∷ ops) table = run calls ops (apply calls op table)

-- What every operation does to the table, it does by expiring, superseding, adding a new command
-- and acknowledging.
module _ (P : CommandTable → Type 0) (calls : Calls)
    (expired_ok : (device_id : Option String) (ts : Time) (t : CommandTable)
      → P t
      → P (expire_commands device_id ts t).0)
    (superseded_ok : (device_id : String) (ts : Time) (exclude_id : Option ℕ) (t : CommandTable)
      → P t
      → P (supersede_pending_commands device_id ts exclude_id t.rows t).0)
    (enqueued_ok : (device : DeviceControls) (ttl_s : ℤ) (overrides : List (String × Json))
        (ts : Time) (t : CommandTable)
      → P t
      → P (enqueue_device_control_command calls device ttl_s overrides ts t).0)
    (acked_ok : (device_id : String) (command_id : ℕ) (ts : Time) (t : CommandTable)
      → P t
      → P (ack_device_command device_id command_id ts t).0) where
  apply-keeps : (op : Operation) (t : CommandTable) → P t → P (apply calls op t)
  unfolding apply enqueue_device_shutdown_command get_pending_device_command pending_command_summary
  apply-keeps (expire device_id ts) t h = expired_ok device_id ts t h
  apply-keeps (supersede device_id ts exclude_id) t h = superseded_ok device_id ts exclude_id t h
  apply-keeps (enqueue device ttl_s overrides ts) t h = enqueued_ok device ttl_s overrides ts t h
  apply-keeps (shutdown device reason grace ttl_s ts) t h =
      elim (Option-cases (normalize_reason (some reason))) [
        | inl blank ↦ rw (blank, apply, enqueue_device_shutdown_command) h
        | inr (trimmed, given) ↦
            rw (given, apply, enqueue_device_shutdown_command)
              (enqueued_ok device ttl_s (shutdown_overrides grace trimmed) ts t h)
      ]
  apply-keeps (fetch device_id ts) t h = expired_ok (some device_id) ts t h
  apply-keeps (acknowledge device_id command_id ts) t h = acked_ok device_id command_id ts t h
  apply-keeps (summary device_id ts) t h = expired_ok (some device_id) ts t h

  pub run-keeps : (ops : List Operation) (t : CommandTable) → P t → P (run calls ops t)
  unfolding run
  run-keeps [] t h = h
  run-keeps (op ∷ ops) t h = run-keeps ops (apply calls op t) (apply-keeps op t h)

-- at most one command waits for each device
abbrev pub OnePending : CommandTable → Type 0
OnePending table = (d : String) → pending_count d table.rows ≤ 1

enqueue-OnePending :
    (calls : Calls) (device : DeviceControls) (ttl_s : ℤ) (overrides : List (String × Json))
    (ts : Time) (t : CommandTable)
    → OnePending t
    → OnePending (enqueue_device_control_command calls device ttl_s overrides ts t).0
enqueue-OnePending calls device ttl_s overrides ts t h d =
    elim (Bool-cases (str_eq device.device_id d)) [
      | inl same ↦
          let at_own = enqueue-one_pending calls device ttl_s overrides ts t in
          subst
            (λ x.
              pending_count x
                (enqueue_device_control_command calls device ttl_s overrides ts t).0.rows
              ≤ 1)
            ((eq_iff device.device_id d).0 same) (omega (arith, at_own))
      | inr other ↦ omega (arith, enqueue-others calls device ttl_s overrides ts t d other, h d)
    ]

-- Through any sequence of operations, from a table in which at most one command waits for each
-- device, at most one waits for each.
pub run-OnePending :
    (calls : Calls) (ops : List Operation) (t : CommandTable)
    → OnePending t
    → OnePending (run calls ops t)
run-OnePending calls =
    run-keeps OnePending calls
      (λ device_id ts t h d. omega (arith, pending_count-expire d device_id ts t, h d))
      (λ device_id ts exclude_id t h d.
        omega (arith, pending_count-supersede d device_id ts exclude_id t, h d))
      (enqueue-OnePending calls)
      (λ device_id command_id ts t h d.
        omega (arith, pending_count-ack d device_id command_id ts t, h d))
