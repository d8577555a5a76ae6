-- ===== src/Tests/DeviceCommands.antt =====
-- The command queue of api/app/services/device_commands.py for two pumps.
use edgewatch_telemetry.Prelude.{
  ℕ, ◌≡◌, refl, true, false, Option, none, some, List, [], ◌∷◌, map, arith, all, ltb, str_eq,
  if◌then◌else◌,
}
use edgewatch_telemetry.Prelude.Int.{pos}
use edgewatch_telemetry.Prelude.Text.{strip}
use edgewatch_telemetry.Prelude.Time.{seconds}
use edgewatch_telemetry.Tests.Database.{database}
use edgewatch_telemetry.DeviceCommands.{
  Calls, pending, superseded, expired, DeviceControls, DeviceControlCommand, CommandTable, string,
}
use edgewatch_telemetry.DeviceCommands.Operations.{
  enqueue_device_control_command, expire_commands, supersede_pending_commands, new_command,
  add_command, get_pending_device_command, pending_command_summary,
}
use edgewatch_telemetry.DeviceCommands.Lifecycle.{
  Operation, enqueue, fetch, acknowledge, shutdown, run, OnePending, run-OnePending,
}
use edgewatch_telemetry.DeviceCommands.Outcome.{has_id, settled_forever}
use edgewatch_telemetry.DeviceCommands.Operations.{find_row}
use edgewatch_telemetry.DeviceCommands.Delivery.{fetch_after_enqueue, summary_fetch}
use edgewatch_telemetry.DeviceCommands.Consistency.{is_consistent, run-Consistent}

abbrev pub calls : Calls
calls = record { sql = database; lower = λ s. s; isoformat = λ t. "2026-01-01T00:00:00+00:00" }

abbrev pump : DeviceControls
pump = record {
  device_id = "pump-1";
  operation_mode = "active";
  sleep_poll_interval_s = pos 604800;
  runtime_power_mode = "eco";
  deep_sleep_backend = "auto";
  alerts_muted_until = none;
  alerts_muted_reason = none;
}

-- a command of `pump` that expired, and one of another pump that waits
abbrev old_command : DeviceControlCommand
old_command = record {
  id = 0;
  device_id = "pump-1";
  command_payload = [];
  status = expired;
  issued_at = 0;
  expires_at = seconds 10;
  acknowledged_at = none;
  superseded_at = none;
}

abbrev table : CommandTable
table = record {
  rows =
      old_command
      ∷ record old_command {
        id = 1;
        device_id = "pump-2";
        status = pending;
        expires_at = seconds 900;
      }
      ∷ [];
  next_id = 2;
}

abbrev calls_of_an_hour : List Operation
calls_of_an_hour =
    enqueue pump (pos 60) [] (seconds 100)
    ∷ enqueue pump (pos 60) [] (seconds 110)
    ∷ fetch "pump-1" (seconds 120)
    ∷ acknowledge "pump-1" 3 (seconds 130)
    ∷ shutdown pump "winter" (string "90") (pos 600) (seconds 200)
    ∷ []

table-OnePending : OnePending table
table-OnePending d = ground arith

run-OnePending_example : OnePending (run calls calls_of_an_hour table)
run-OnePending_example = run-OnePending calls calls_of_an_hour table table-OnePending

run-Consistent_example : all is_consistent (run calls calls_of_an_hour table).rows ≡ true
run-Consistent_example = run-Consistent calls calls_of_an_hour table refl

settled_forever_example :
    find_row (has_id 0) (run calls calls_of_an_hour table).rows ≡ some old_command
settled_forever_example = settled_forever 0 old_command refl calls calls_of_an_hour table refl

fetch_after_enqueue_example :
    let (after, command) =
      enqueue_device_control_command calls pump (pos 60) [] (seconds 100) table in
    (get_pending_device_command calls "pump-1" (seconds 130) after).1
    ≡ (if ltb (seconds 130) command.expires_at then some command else none)
fetch_after_enqueue_example =
    fetch_after_enqueue calls pump (pos 60) [] (seconds 100) (seconds 130) table

summary_fetch_example :
    let (_, waiting, latest) = pending_command_summary calls "pump-2" (seconds 100) table in
    (waiting, latest)
    ≡ (elim (get_pending_device_command calls "pump-2" (seconds 100) table).1
        as (λ x. ℕ × Option ℕ) [ none ↦ (0, none) | some c ↦ (1, some c.expires_at) ])
summary_fetch_example = summary_fetch calls "pump-2" (seconds 100) table table-OnePending

winter_given : str_eq (strip "winter") "" ≡ false
unfolding strip
winter_given = refl

-- the pump's command, still pending after its expiry
abbrev overdue_table : CommandTable
overdue_table = record { rows = record old_command { status = pending } ∷ []; next_id = 1 }

-- An enqueue leaves it superseded and not expired: the second query still finds it pending.
overdue_is_superseded :
    map
      (λ c. c.status)
      (enqueue_device_control_command calls pump (pos 60) [] (seconds 100) overdue_table).0.rows
    ≡ superseded ∷ pending ∷ []
unfolding enqueue_device_control_command expire_commands supersede_pending_commands new_command
    add_command
overdue_is_superseded = refl
