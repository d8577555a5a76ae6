-- ===== src/DeviceCommands/Outcome.antt =====
-- What becomes of a single command of api/app/services/device_commands.py.
use edgewatch_telemetry.Prelude.{
  ℕ, String, ◌≡◌, ◌∙◌, Bool, true, not, ◌&&◌, some, List, arith, Option-cases, inl, inr, Option,
  if◌then◌else◌, is_some, ◌==◌, ap,
}
use edgewatch_telemetry.Prelude.Int.{ℤ}
use edgewatch_telemetry.Prelude.Time.{Time}
use edgewatch_telemetry.DeviceCommands.{
  Calls, Json, DeviceControls, DeviceControlCommand, CommandTable, is_pending, is_acknowledged,
}
use edgewatch_telemetry.DeviceCommands.Operations.{
  expire_row, ack_if, ack_row, ack_status, ack_device_command, find_row, is_row, expire_commands,
  supersede_pending_commands, new_command, add_command, enqueue_device_control_command,
}
use edgewatch_telemetry.DeviceCommands.Rows.{find_row-append, find_row-map}
use edgewatch_telemetry.DeviceCommands.Queue.{
  supersede_row, supersede-rows, clear_row, cleared_table, enqueue-rows,
}
use edgewatch_telemetry.DeviceCommands.Lifecycle.{Operation, run, run-keeps}

abbrev pub has_id : ℕ → DeviceControlCommand → Bool
has_id id c = c.id == id

-- it no longer waits, and if it was acknowledged, the time is recorded
abbrev pub is_settled : DeviceControlCommand → Bool
is_settled c =
    not (is_pending c.status)
    && (if is_acknowledged c.status then is_some c.acknowledged_at else true)

module _ (id : ℕ) (row : DeviceControlCommand) (settled : is_settled row ≡ true) where
  IsKept : CommandTable → Type 0
  IsKept t = find_row (has_id id) t.rows ≡ some row

  expire_row-settled : (device_id : Option String) (ts : Time) → expire_row device_id ts row ≡ row
  expire_row-settled device_id ts = ground arith

  supersede_row-settled :
      (device_id : String) (ts : Time) (exclude_id : Option ℕ)
      → supersede_row device_id ts exclude_id row ≡ row
  supersede_row-settled device_id ts exclude_id = ground arith

  ack_if-settled :
      (device_id : String) (command_id : ℕ) (ts : Time) → ack_if device_id command_id ts row ≡ row
  unfolding ack_row ack_status
  ack_if-settled device_id command_id ts = ground arith

  expire-IsKept :
      (device_id : Option String) (ts : Time) (t : CommandTable)
      → IsKept t
      → IsKept (expire_commands device_id ts t).0
  unfolding IsKept expire_commands
  expire-IsKept device_id ts t h =
      find_row-map (has_id id) (expire_row device_id ts) (λ c. ground arith) t.rows row h
      ∙ ap some (expire_row-settled device_id ts)

  supersede-IsKept :
      (device_id : String) (ts : Time) (exclude_id : Option ℕ) (t : CommandTable)
      → IsKept t
      → IsKept (supersede_pending_commands device_id ts exclude_id t.rows t).0
  unfolding IsKept
  supersede-IsKept device_id ts exclude_id t h = rw (supersede-rows device_id ts exclude_id t) (
      find_row-map (has_id id) (supersede_row device_id ts exclude_id) (λ c. ground arith) t.rows
        row h
      ∙ ap some (supersede_row-settled device_id ts exclude_id))

  clear_row-settled : (device_id : String) (ts : Time) → clear_row device_id ts row ≡ row
  clear_row-settled device_id ts = ground arith

  enqueue-IsKept :
      (calls : Calls) (device : DeviceControls) (ttl_s : ℤ) (overrides : List (String × Json))
      (ts : Time) (t : CommandTable)
      → IsKept t
      → IsKept (enqueue_device_control_command calls device ttl_s overrides ts t).0
  unfolding add_command IsKept
  enqueue-IsKept calls device ttl_s overrides ts t h =
      rw (enqueue-rows calls device ttl_s overrides ts t) (
        find_row-append (has_id id) (cleared_table device.device_id ts t).rows
          (new_command calls device ttl_s overrides ts t.next_id) row
          (find_row-map (has_id id) (clear_row device.device_id ts) (λ c. ground arith) t.rows row h
            ∙ ap some (clear_row-settled device.device_id ts)))

  ack-IsKept :
      (device_id : String) (command_id : ℕ) (ts : Time) (t : CommandTable)
      → IsKept t
      → IsKept (ack_device_command device_id command_id ts t).0
  unfolding IsKept ack_device_command ack_row
  ack-IsKept device_id command_id ts t h =
      elim (Option-cases (find_row (is_row device_id command_id) t.rows)) [
        | inl missing ↦ rw (missing, ack_device_command) h
        | inr (found, here) ↦
            rw (here, ack_device_command)
              (find_row-map (has_id id) (ack_if device_id command_id ts) (λ c. ground arith) t.rows
                  row h
                ∙ ap some (ack_if-settled device_id command_id ts))
      ]

  -- A command that was superseded, that expired, or that was acknowledged at a recorded time is found
  -- under its id unchanged after any sequence of operations.
  pub settled_forever :
      (calls : Calls) (ops : List Operation) (t : CommandTable)
      → find_row (has_id id) t.rows ≡ some row
      → find_row (has_id id) (run calls ops t).rows ≡ some row
  unfolding IsKept
  settled_forever calls =
      run-keeps IsKept calls expire-IsKept supersede-IsKept (enqueue-IsKept calls) ack-IsKept
