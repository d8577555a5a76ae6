-- ===== src/DeviceCommands/Delivery.antt =====
-- What a device fetches and what an operator reads: api/app/services/device_commands.py.
use text.Mathlib.TextPositions.{eq_refl}
use edgewatch_telemetry.Prelude.{
  ℕ, suc, ◌≤◌, String, ◌≡◌, refl, ◌∙◌, Bool, true, false, ◌⊎◌, none, some, List, [], ◌∷◌, ◌++◌, map,
  filter, arith, Bool-cases, inl, inr, Option, if◌then◌else◌, ltb, ap, length, length-filter,
}
use edgewatch_telemetry.Prelude.Int.{ℤ}
use edgewatch_telemetry.Prelude.Time.{Time}
use edgewatch_telemetry.DeviceCommands.{
  Calls, Json, DeviceControls, DeviceControlCommand, CommandTable,
}
use edgewatch_telemetry.DeviceCommands.Operations.{
  expire_row, is_live, expire_commands, new_command, add_command, enqueue_device_control_command,
  get_pending_device_command, pending_command_summary,
}
use edgewatch_telemetry.DeviceCommands.Rows.{
  is_pending_for, pending_count, count-map-le, filter_none, filter-append, map-append,
}
use edgewatch_telemetry.DeviceCommands.Queue.{pending_count-clear_all, cleared_table, enqueue-rows}
use edgewatch_telemetry.DeviceCommands.Lifecycle.{OnePending}

module _ (calls : Calls) where
  -- the first of a single row is that row
  newest_sole :
      (key : DeviceControlCommand → ℕ) (c : DeviceControlCommand)
      → calls.sql.newest DeviceControlCommand key (c ∷ []) ≡ some c
  newest_sole key c =
      let (a, found, here, _) = calls.sql.newest_cons DeviceControlCommand key c [] in
      found ∙ ap some (only a here)
    where
      only : (a : DeviceControlCommand) → (a ≡ c) ⊎ ⊥ → a ≡ c
      only a (inl e) = e
      only a (inr e) = absurd e

  -- of the rows that do not wait, none is fetched
  live_none :
      (d : String) (ts : Time) (rows : List DeviceControlCommand)
      → pending_count d rows ≡ 0
      → filter (is_live d ts) (map (expire_row (some d) ts) rows) ≡ []
  live_none d ts rows h = filter_none (is_live d ts) (map (expire_row (some d) ts) rows) (
      omega (
        arith,
        h,
        count-map-le (is_live d ts) (is_pending_for d) (expire_row (some d) ts) rows
            (λ c k. ground arith),
      ))

  live_new :
      (d : String) (ts : Time) (c : DeviceControlCommand)
      → is_pending_for d c ≡ true
      → filter (is_live d ts) (expire_row (some d) ts c ∷ [])
        ≡ (if ltb ts c.expires_at then c ∷ [] else [])
  live_new d ts c h = elim (Bool-cases (ltb ts c.expires_at)) [
    | inl before ↦
        let keeps : expire_row (some d) ts c ≡ c = ground arith in
        let lives : is_live d ts c ≡ true = ground arith in rw (keeps, lives, before) refl
    | inr after ↦
        let dead : is_live d ts (expire_row (some d) ts c) ≡ false = ground arith in
        rw (dead, after) refl
  ]

  fetch_last :
      (d : String) (ts : Time) (rows : List DeviceControlCommand) (c : DeviceControlCommand)
      → pending_count d rows ≡ 0
      → is_pending_for d c ≡ true
      → calls.sql.newest DeviceControlCommand
          (λ r. r.issued_at)
          (filter (is_live d ts) (map (expire_row (some d) ts) (rows ++ c ∷ [])))
        ≡ (if ltb ts c.expires_at then some c else none)
  fetch_last d ts rows c none_waits waits = rw (map-append (expire_row (some d) ts) rows (c ∷ [])) (
      rw
        (filter-append (is_live d ts) (map (expire_row (some d) ts) rows)
          (expire_row (some d) ts c ∷ []))
        (rw (live_none d ts rows none_waits, live_new d ts c waits)
          (first_of (ltb ts c.expires_at))))
    where
      first_of :
          (b : Bool)
          → calls.sql.newest DeviceControlCommand (λ r. r.issued_at) (if b then c ∷ [] else [])
            ≡ (if b then some c else none)
      first_of true = newest_sole (λ r. r.issued_at) c
      first_of false = calls.sql.newest_nil DeviceControlCommand (λ r. r.issued_at)

  new_command-waits :
      (device : DeviceControls) (ttl_s : ℤ) (overrides : List (String × Json)) (ts : Time) (id : ℕ)
      → is_pending_for device.device_id (new_command calls device ttl_s overrides ts id) ≡ true
  unfolding new_command
  new_command-waits device ttl_s overrides ts id = rw (eq_refl device.device_id) refl

  -- A device that asks after an enqueue for it, with no operation between, gets the command of the
  -- enqueue while the command has not expired, and nothing once it has.
  pub fetch_after_enqueue :
      (device : DeviceControls) (ttl_s : ℤ) (overrides : List (String × Json)) (ts later : Time)
      (t : CommandTable)
      → let (after, command) = enqueue_device_control_command calls device ttl_s overrides ts t in
        (get_pending_device_command calls device.device_id later after).1
        ≡ (if ltb later command.expires_at then some command else none)
  unfolding add_command get_pending_device_command expire_commands
  fetch_after_enqueue device ttl_s overrides ts later t =
      rw (enqueue-rows calls device ttl_s overrides ts t) (
        fetch_last device.device_id later (cleared_table device.device_id ts t).rows
          (new_command calls device ttl_s overrides ts t.next_id)
          (pending_count-clear_all device.device_id ts t)
          (new_command-waits device ttl_s overrides ts t.next_id))

  live-count :
      (d : String) (ts : Time) (t : CommandTable)
      → OnePending t
      → length (filter (is_live d ts) (map (expire_row (some d) ts) t.rows)) ≤ 1
  live-count d ts t one = omega (
    arith,
    one d,
    length-filter (is_live d ts) (map (expire_row (some d) ts) t.rows),
    count-map-le (is_live d ts) (is_pending_for d) (expire_row (some d) ts) t.rows
        (λ c k. ground arith),
  )

  -- the summary of the rows that wait, where at most one does
  summary_of_one :
      (live : List DeviceControlCommand)
      → length live ≤ 1
      → (
        length live,
        elim (calls.sql.newest DeviceControlCommand (λ c. c.expires_at) live)
            as (λ x. Option Time) [ none ↦ none | some latest ↦ some latest.expires_at ],
      )
        ≡ (elim (calls.sql.newest DeviceControlCommand (λ c. c.issued_at) live)
            as (λ x. ℕ × Option Time) [ none ↦ (0, none) | some c ↦ (1, some c.expires_at) ])
  summary_of_one [] h =
      rw
        (
          calls.sql.newest_nil DeviceControlCommand (λ c. c.expires_at),
          calls.sql.newest_nil DeviceControlCommand (λ c. c.issued_at),
        )
        refl
  summary_of_one (c ∷ []) h =
      rw (newest_sole (λ c. c.expires_at) c, newest_sole (λ c. c.issued_at) c) refl
  summary_of_one (c ∷ (x ∷ xs)) h = absurd (too_many h)
    where
      too_many : suc (suc (length xs)) ≤ 1 → ⊥
      too_many k = omega arith

  -- Where at most one command waits for each device, the summary that an operator reads counts the
  -- command that the device would fetch at that time, and gives its expiry.
  pub summary_fetch :
      (d : String) (ts : Time) (t : CommandTable)
      → OnePending t
      → let (_, waiting, latest) = pending_command_summary calls d ts t in
        (waiting, latest)
        ≡ (elim (get_pending_device_command calls d ts t).1 as (λ x. ℕ × Option Time) [
          | none ↦ (0, none)
          | some c ↦ (1, some c.expires_at)
        ])
  unfolding pending_command_summary get_pending_device_command expire_commands
  summary_fetch d ts t one =
      let kept = map (expire_row (some d) ts) t.rows in
      rw (← length-filter (is_live d ts) kept)
        (summary_of_one (filter (is_live d ts) kept) (live-count d ts t one))
