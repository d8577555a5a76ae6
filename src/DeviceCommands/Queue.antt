-- ===== src/DeviceCommands/Queue.antt =====
-- At most one command waits for each device: api/app/services/device_commands.py.
use text.Mathlib.TextPositions.{eq_refl}
use edgewatch_telemetry.Prelude.{
  ℕ, ◌≤◌, String, ◌≡◌, refl, ◌∙◌, true, false, none, some, List, [], ◌∷◌, arith, count-append,
  str_eq, Option-cases, ap, map, if◌then◌else◌, inl, inr, Option,
}
use edgewatch_telemetry.Prelude.Int.{ℤ}
use edgewatch_telemetry.Prelude.Tables.{update_found-map, update_found-same}
use edgewatch_telemetry.Prelude.Time.{Time}
use edgewatch_telemetry.DeviceCommands.{
  Calls, Json, DeviceControls, DeviceControlCommand, CommandTable,
}
use edgewatch_telemetry.DeviceCommands.Operations.{
  expire_row, is_superseded, supersede, ack_if, ack_row, ack_status, ack_device_command, find_row,
  is_row, expire_commands, supersede_pending_commands, new_command, add_command,
  enqueue_device_control_command,
}
use edgewatch_telemetry.DeviceCommands.Rows.{
  is_pending_for, pending_count, count-map-le, count-map-none,
}

pub pending_count-expire :
    (d : String) (device_id : Option String) (ts : Time) (table : CommandTable)
    → pending_count d (expire_commands device_id ts table).0.rows ≤ pending_count d table.rows
unfolding expire_commands
pending_count-expire d device_id ts table =
    count-map-le (is_pending_for d) (is_pending_for d) (expire_row device_id ts) table.rows
      (λ c h. ground arith)

-- the rows after superseding alone
abbrev pub supersede_row : String → Time → Option ℕ → DeviceControlCommand → DeviceControlCommand
supersede_row device_id ts exclude_id c =
    if is_superseded device_id exclude_id c then supersede ts c else c

pub supersede-rows :
    (device_id : String) (ts : Time) (exclude_id : Option ℕ) (t : CommandTable)
    → (supersede_pending_commands device_id ts exclude_id t.rows t).0
      ≡ record t { rows = map (supersede_row device_id ts exclude_id) t.rows }
unfolding supersede_pending_commands
supersede-rows device_id ts exclude_id t =
    ap (λ rows. record t { rows = rows })
      (update_found-same (is_superseded device_id exclude_id) (supersede ts) t.rows)

-- the rows after the two queries of an enqueue, of which the second sees nothing of the first
abbrev pub clear_row : String → Time → DeviceControlCommand → DeviceControlCommand
clear_row device_id ts c =
    if is_superseded device_id none c
    then supersede ts (expire_row (some device_id) ts c)
    else expire_row (some device_id) ts c

abbrev pub cleared_table : String → Time → CommandTable → CommandTable
cleared_table device_id ts t = record t { rows = map (clear_row device_id ts) t.rows }

pub clear-rows :
    (device_id : String) (ts : Time) (t : CommandTable)
    → (supersede_pending_commands device_id ts none t.rows
        (expire_commands (some device_id) ts t).0).0
      ≡ cleared_table device_id ts t
unfolding supersede_pending_commands expire_commands
clear-rows device_id ts t =
    ap (λ rows. record t { rows = rows })
      (update_found-map (is_superseded device_id none) (expire_row (some device_id) ts)
        (supersede ts) t.rows)

-- what an enqueue leaves
pub enqueue-rows :
    (calls : Calls) (device : DeviceControls) (ttl_s : ℤ) (overrides : List (String × Json))
    (ts : Time) (t : CommandTable)
    → enqueue_device_control_command calls device ttl_s overrides ts t ≡ (
        let command = new_command calls device ttl_s overrides ts t.next_id in
        (add_command command (cleared_table device.device_id ts t), command))
unfolding enqueue_device_control_command
enqueue-rows calls device ttl_s overrides ts t =
    ap
      (λ (cleared : CommandTable).
        let command = new_command calls device ttl_s overrides ts cleared.next_id in
        (add_command command cleared, command))
      (clear-rows device.device_id ts t)

pub pending_count-supersede :
    (d device_id : String) (ts : Time) (exclude_id : Option ℕ) (table : CommandTable)
    → pending_count d (supersede_pending_commands device_id ts exclude_id table.rows table).0.rows
      ≤ pending_count d table.rows
pending_count-supersede d device_id ts exclude_id table =
    rw (supersede-rows device_id ts exclude_id table) (
      count-map-le (is_pending_for d) (is_pending_for d) (supersede_row device_id ts exclude_id)
        table.rows (λ c h. ground arith))

pending_count-clear :
    (d device_id : String) (ts : Time) (table : CommandTable)
    → pending_count d (cleared_table device_id ts table).rows ≤ pending_count d table.rows
pending_count-clear d device_id ts table =
    count-map-le (is_pending_for d) (is_pending_for d) (clear_row device_id ts) table.rows
      (λ c h. ground arith)

-- clearing leaves nothing to wait
pub pending_count-clear_all :
    (device_id : String) (ts : Time) (table : CommandTable)
    → pending_count device_id (cleared_table device_id ts table).rows ≡ 0
pending_count-clear_all device_id ts table =
    count-map-none (is_pending_for device_id) (clear_row device_id ts) table.rows
      (λ c. ground arith)

pub pending_count-ack :
    (d device_id : String) (command_id : ℕ) (ts : Time) (table : CommandTable)
    → pending_count d (ack_device_command device_id command_id ts table).0.rows
      ≤ pending_count d table.rows
unfolding ack_device_command ack_row ack_status
pending_count-ack d device_id command_id ts table =
    elim (Option-cases (find_row (is_row device_id command_id) table.rows)) [
      | inl missing ↦ rw (missing, ack_device_command) (omega arith)
      | inr (row, found) ↦
          rw (found, ack_device_command)
            (count-map-le (is_pending_for d) (is_pending_for d) (ack_if device_id command_id ts)
              table.rows ack_waits)
    ]
  where
    ack_waits :
        (c : DeviceControlCommand)
        → is_pending_for d (ack_if device_id command_id ts c) ≡ true
        → is_pending_for d c ≡ true
    ack_waits c h = ground arith

module _ (calls : Calls) (device : DeviceControls) (ttl_s : ℤ) (overrides : List (String × Json))
    (ts : Time) (table : CommandTable) where
  -- Whatever waited before, exactly one command waits for a device after an enqueue for it.
  pub enqueue-one_pending :
      pending_count device.device_id
        (enqueue_device_control_command calls device ttl_s overrides ts table).0.rows
      ≡ 1
  unfolding new_command add_command
  enqueue-one_pending =
      let cleared = cleared_table device.device_id ts table in
      let command = new_command calls device ttl_s overrides ts cleared.next_id in
      rw (enqueue-rows calls device ttl_s overrides ts table) (
        count-append (is_pending_for device.device_id) cleared.rows (command ∷ [])
        ∙ rw (pending_count-clear_all device.device_id ts table, eq_refl device.device_id) refl)

  -- and of every other device no more commands wait than before
  pub enqueue-others :
      (d : String)
      → str_eq device.device_id d ≡ false
      → pending_count d
          (enqueue_device_control_command calls device ttl_s overrides ts table).0.rows
        ≤ pending_count d table.rows
  unfolding new_command add_command
  enqueue-others d other =
      let cleared = cleared_table device.device_id ts table in
      let command = new_command calls device ttl_s overrides ts cleared.next_id in
      rw
        (
          enqueue-rows calls device ttl_s overrides ts table,
          count-append (is_pending_for d) cleared.rows (command ∷ []),
          other,
        )
        (omega (arith, pending_count-clear d device.device_id ts table))
