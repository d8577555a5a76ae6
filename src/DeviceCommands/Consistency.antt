-- ===== src/DeviceCommands/Consistency.antt =====
-- The columns of a command agree with its status, and acknowledging is idempotent:
-- api/app/services/device_commands.py.
use edgewatch_telemetry.Prelude.{
  ℕ, ◌+◌, ◌*◌, max, String, ◌≡◌, refl, ◌∙◌, Bool, true, false, not, ◌&&◌, none, some, List, map,
  arith, Bool-cases, Option-cases, inl, inr, Option, all, ltb, is_some, lt→ltb,
}
use edgewatch_telemetry.Prelude.Int.{ℤ, clamp_nonneg}
use edgewatch_telemetry.Prelude.Time.{Time}
use edgewatch_telemetry.DeviceCommands.{
  Calls, Json, DeviceControls, DeviceControlCommand, CommandTable, CommandStatus, pending,
  superseded, expired, acknowledged,
}
use edgewatch_telemetry.DeviceCommands.Operations.{
  expire_row, ack_if, ack_row, ack_status, ack_device_command, find_row, is_row, expire_commands,
  supersede_pending_commands, new_command, add_command, enqueue_device_control_command,
}
use edgewatch_telemetry.DeviceCommands.Rows.{
  all-map, all-append, find_row-map, find_row-holds, map-twice,
}
use edgewatch_telemetry.DeviceCommands.Queue.{
  supersede_row, supersede-rows, clear_row, cleared_table, enqueue-rows,
}
use edgewatch_telemetry.DeviceCommands.Lifecycle.{Operation, run, run-keeps}

-- a time that is given and comes before another
abbrev pub is_before : Option Time → Time → Bool
is_before none limit = false
is_before (some t) limit = ltb t limit

-- by status, which of the two outcome times are recorded
abbrev pub outcome_ok : CommandStatus → Option Time → Option Time → Time → Bool
outcome_ok pending acked replaced limit = not (is_some acked) && not (is_some replaced)
outcome_ok superseded acked replaced limit = not (is_some acked) && is_some replaced
outcome_ok expired acked replaced limit = not (is_some acked) && not (is_some replaced)
outcome_ok acknowledged acked replaced limit = is_before acked limit && not (is_some replaced)

-- it expires after it is issued, was acknowledged if at all before it expired, and has the times of
-- its outcome and no others
abbrev pub is_consistent : DeviceControlCommand → Bool
is_consistent c =
    ltb c.issued_at c.expires_at
    && outcome_ok c.status c.acknowledged_at c.superseded_at c.expires_at

abbrev pub Consistent : CommandTable → Type 0
Consistent t = all is_consistent t.rows ≡ true

expire-Consistent :
    (device_id : Option String) (ts : Time) (t : CommandTable)
    → Consistent t
    → Consistent (expire_commands device_id ts t).0
unfolding expire_commands
expire-Consistent device_id ts t =
    all-map is_consistent (expire_row device_id ts) t.rows (λ c h. ground arith)

supersede-Consistent :
    (device_id : String) (ts : Time) (exclude_id : Option ℕ) (t : CommandTable)
    → Consistent t
    → Consistent (supersede_pending_commands device_id ts exclude_id t.rows t).0
supersede-Consistent device_id ts exclude_id t h =
    rw (supersede-rows device_id ts exclude_id t)
      (all-map is_consistent (supersede_row device_id ts exclude_id) t.rows (λ c k. ground arith) h)

clear-Consistent :
    (device_id : String) (ts : Time) (t : CommandTable)
    → Consistent t
    → Consistent (cleared_table device_id ts t)
clear-Consistent device_id ts t =
    all-map is_consistent (clear_row device_id ts) t.rows (λ c h. ground arith)

new_command-is_consistent :
    (calls : Calls) (device : DeviceControls) (ttl_s : ℤ) (overrides : List (String × Json))
    (ts : Time) (id : ℕ)
    → is_consistent (new_command calls device ttl_s overrides ts id) ≡ true
unfolding new_command
new_command-is_consistent calls device ttl_s overrides ts id =
    rw (lt→ltb ts (ts + max 1 (clamp_nonneg ttl_s) * 1000000) (omega arith)) refl

enqueue-Consistent :
    (calls : Calls) (device : DeviceControls) (ttl_s : ℤ) (overrides : List (String × Json))
    (ts : Time) (t : CommandTable)
    → Consistent t
    → Consistent (enqueue_device_control_command calls device ttl_s overrides ts t).0
unfolding add_command
enqueue-Consistent calls device ttl_s overrides ts t h =
    rw (enqueue-rows calls device ttl_s overrides ts t) (
      all-append is_consistent (cleared_table device.device_id ts t).rows
        (new_command calls device ttl_s overrides ts t.next_id)
        (clear-Consistent device.device_id ts t h)
        (new_command-is_consistent calls device ttl_s overrides ts t.next_id))

ack_row-is_consistent :
    (ts : Time) (c : DeviceControlCommand)
    → is_consistent c ≡ true
    → is_consistent (ack_row ts c) ≡ true
unfolding ack_row ack_status
ack_row-is_consistent ts c h = ground arith

ack-Consistent :
    (device_id : String) (command_id : ℕ) (ts : Time) (t : CommandTable)
    → Consistent t
    → Consistent (ack_device_command device_id command_id ts t).0
unfolding ack_device_command
ack-Consistent device_id command_id ts t h =
    elim (Option-cases (find_row (is_row device_id command_id) t.rows)) [
      | inl missing ↦ rw (missing, ack_device_command) h
      | inr (found, here) ↦
          rw (here, ack_device_command)
            (all-map is_consistent (ack_if device_id command_id ts) t.rows acked_ok h)
    ]
  where
    acked_ok :
        (c : DeviceControlCommand)
        → is_consistent c ≡ true
        → is_consistent (ack_if device_id command_id ts c) ≡ true
    acked_ok c k = elim (Bool-cases (is_row device_id command_id c)) [
      | inl its_own ↦ rw its_own (ack_row-is_consistent ts c k)
      | inr another ↦ rw another k
    ]

-- Through any sequence of operations, from a table whose commands are consistent, every command
-- stays so: it expires after it is issued; it has an acknowledgement time if and only if it is
-- acknowledged, and then one before its expiry; and it has a superseding time if and only if it is
-- superseded.
pub run-Consistent :
    (calls : Calls) (ops : List Operation) (t : CommandTable)
    → Consistent t
    → Consistent (run calls ops t)
run-Consistent calls =
    run-keeps Consistent calls expire-Consistent supersede-Consistent (enqueue-Consistent calls)
      ack-Consistent

ack_row-twice :
    (ts later : Time) (c : DeviceControlCommand) → ack_row later (ack_row ts c) ≡ ack_row ts c
unfolding ack_row ack_status
ack_row-twice ts later c = ground arith

ack_if-twice :
    (device_id : String) (command_id : ℕ) (ts later : Time) (c : DeviceControlCommand)
    → ack_if device_id command_id later (ack_if device_id command_id ts c)
      ≡ ack_if device_id command_id ts c
unfolding ack_row
ack_if-twice device_id command_id ts later c = elim (Bool-cases (is_row device_id command_id c)) [
  | inl its_own ↦ rw (its_own, its_own) (ack_row-twice ts later c)
  | inr another ↦ rw (another, another) refl
]

ack-found :
    (device_id : String) (command_id : ℕ) (ts : Time) (t : CommandTable)
    (found : DeviceControlCommand)
    → find_row (is_row device_id command_id) t.rows ≡ some found
    → ack_device_command device_id command_id ts t
      ≡ (record t { rows = map (ack_if device_id command_id ts) t.rows }, some (ack_row ts found))
unfolding ack_device_command
ack-found device_id command_id ts t found h = rw (h, ack_device_command) refl

ack-missing :
    (device_id : String) (command_id : ℕ) (ts : Time) (t : CommandTable)
    → find_row (is_row device_id command_id) t.rows ≡ none
    → ack_device_command device_id command_id ts t ≡ (t, none)
unfolding ack_device_command
ack-missing device_id command_id ts t h = rw (h, ack_device_command) refl

found_again :
    (device_id : String) (command_id : ℕ) (ts : Time) (t : CommandTable)
    (found : DeviceControlCommand)
    → find_row (is_row device_id command_id) t.rows ≡ some found
    → find_row (is_row device_id command_id) (map (ack_if device_id command_id ts) t.rows)
      ≡ some (ack_row ts found)
unfolding ack_row
found_again device_id command_id ts t found h =
    find_row-map (is_row device_id command_id) (ack_if device_id command_id ts) (λ c. ground arith)
      t.rows found h
    ∙ rw (find_row-holds (is_row device_id command_id) t.rows found h) refl

-- Acknowledging a command a second time, at any time, changes no row and answers with the same row.
pub ack_device_command_idem :
    (device_id : String) (command_id : ℕ) (ts later : Time) (t : CommandTable)
    → ack_device_command device_id command_id later (ack_device_command device_id command_id ts t).0
      ≡ ack_device_command device_id command_id ts t
ack_device_command_idem device_id command_id ts later t =
    elim (Option-cases (find_row (is_row device_id command_id) t.rows)) [
      | inl missing ↦
          rw (ack-missing device_id command_id ts t missing)
            (ack-missing device_id command_id later t missing)
      | inr (found, here) ↦
          let f = ack_if device_id command_id ts in
          rw (ack-found device_id command_id ts t found here) (
            ack-found device_id command_id later record t { rows = map f t.rows } (ack_row ts found)
              (found_again device_id command_id ts t found here)
            ∙ rw
                (
                  ack_row-twice ts later found,
                  map-twice f (ack_if device_id command_id later) t.rows
                      (ack_if-twice device_id command_id ts later),
                )
                refl)
    ]
