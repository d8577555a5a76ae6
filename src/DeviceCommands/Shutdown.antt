-- ===== src/DeviceCommands/Shutdown.antt =====
-- The shutdown command of api/app/services/device_commands.py.
use mathlib.Core.Path.{subst}
use package.text.Mathlib.TextPositions.{eq_refl}
use edgewatch_telemetry.Prelude.{
  String, ◌≡◌, refl, sym, ◌∙◌, true, false, none, some, List, [], ◌∷◌, arith, eq_iff, str_eq,
  Bool-cases, inl, inr, Option, if◌then◌else◌,
}
use edgewatch_telemetry.Prelude.Int.{ℤ, pos, negsuc, ◌≤ℤ◌}
use edgewatch_telemetry.Prelude.Text.{strip, parse_int}
use edgewatch_telemetry.Prelude.Time.{Time}
use edgewatch_telemetry.DeviceCommands.{
  Calls, Json, DeviceControls, DeviceControlCommand, CommandTable, GraceValue, flag, number, float,
  string, other, clamp_grace_s, safe_shutdown_grace_s, grace_of, put, update, get, pending, text,
  boolean, integer, normalize_reason, command_payload_from_device,
}
use edgewatch_telemetry.DeviceCommands.Operations.{
  new_command, enqueue_device_control_command, enqueue_device_shutdown_command, shutdown_overrides,
}

clamp_grace_s-bounds : (n : ℤ) → (pos 1 ≤ℤ clamp_grace_s n) × (clamp_grace_s n ≤ℤ pos 3600)
unfolding clamp_grace_s
clamp_grace_s-bounds (pos n) = ground arith
clamp_grace_s-bounds (negsuc n) = ground arith

grace_of-bounds : (n : Option ℤ) → (pos 1 ≤ℤ grace_of n) × (grace_of n ≤ℤ pos 3600)
unfolding grace_of
grace_of-bounds none = (omega arith, omega arith)
grace_of-bounds (some n) = clamp_grace_s-bounds n

-- Whatever grace period is asked for, of whatever type, a shutdown waits from 1 to 3600 seconds.
pub safe_shutdown_grace_s-bounds :
    (v : GraceValue) → (pos 1 ≤ℤ safe_shutdown_grace_s v) × (safe_shutdown_grace_s v ≤ℤ pos 3600)
unfolding safe_shutdown_grace_s
safe_shutdown_grace_s-bounds (flag b) = clamp_grace_s-bounds (if b then pos 1 else pos 0)
safe_shutdown_grace_s-bounds (number n) = clamp_grace_s-bounds n
safe_shutdown_grace_s-bounds (float n) = clamp_grace_s-bounds n
safe_shutdown_grace_s-bounds (string s) = elim (Bool-cases (str_eq (strip s) "")) [
  | inl blank ↦ rw blank (omega arith, omega arith)
  | inr given ↦ rw given (grace_of-bounds (parse_int (strip s)))
]
safe_shutdown_grace_s-bounds other = (omega arith, omega arith)

get-put :
    (key : String) (value : Json) (d : List (String × Json))
    → get key (put key value d) ≡ some value
unfolding get put
get-put key value [] = rw (eq_refl key) refl
get-put key value ((k, v) ∷ rest) = elim (Bool-cases (str_eq k key)) [
  | inl same ↦ rw same (rw same refl)
  | inr different ↦ rw different (rw different (get-put key value rest))
]

get-put_other :
    (key k : String) (value : Json) (d : List (String × Json))
    → str_eq k key ≡ false
    → get key (put k value d) ≡ get key d
unfolding get put
get-put_other key k value [] h = rw h refl
get-put_other key k value ((x, v) ∷ rest) h = elim (Bool-cases (str_eq x k)) [
  | inl same ↦
      let differs : str_eq x key ≡ false =
        subst (λ y. str_eq y key ≡ false) (sym ((eq_iff x k).0 same)) h in
      rw same (rw differs refl)
  | inr different ↦ rw different (elim (Bool-cases (str_eq x key)) [
    | inl here ↦ rw here refl
    | inr there ↦ rw there (get-put_other key k value rest h)
  ])
]

module _ (grace : GraceValue) (reason : String) (p : List (String × Json)) where
  overridden_mode :
      get "operation_mode" (update p (shutdown_overrides grace reason)) ≡ some (text "disabled")
  unfolding update shutdown_overrides
  overridden_mode =
      get-put_other "operation_mode" "shutdown_reason" _ _ refl
      ∙ get-put_other "operation_mode" "shutdown_grace_s" _ _ refl
      ∙ get-put_other "operation_mode" "shutdown_requested" _ _ refl
      ∙ get-put "operation_mode" _ _

  overridden_request :
      get "shutdown_requested" (update p (shutdown_overrides grace reason)) ≡ some (boolean true)
  unfolding update shutdown_overrides
  overridden_request =
      get-put_other "shutdown_requested" "shutdown_reason" _ _ refl
      ∙ get-put_other "shutdown_requested" "shutdown_grace_s" _ _ refl
      ∙ get-put "shutdown_requested" _ _

  overridden_grace :
      get "shutdown_grace_s" (update p (shutdown_overrides grace reason))
      ≡ some (integer (safe_shutdown_grace_s grace))
  unfolding update shutdown_overrides
  overridden_grace =
      get-put_other "shutdown_grace_s" "shutdown_reason" _ _ refl ∙ get-put "shutdown_grace_s" _ _

  overridden_reason :
      get "shutdown_reason" (update p (shutdown_overrides grace reason)) ≡ some (text reason)
  unfolding update shutdown_overrides
  overridden_reason = get-put "shutdown_reason" _ _

  kept_entry :
      get "runtime_power_mode" (update p (shutdown_overrides grace reason))
      ≡ get "runtime_power_mode" p
  unfolding update shutdown_overrides
  kept_entry =
      get-put_other "runtime_power_mode" "shutdown_reason" _ _ refl
      ∙ get-put_other "runtime_power_mode" "shutdown_grace_s" _ _ refl
      ∙ get-put_other "runtime_power_mode" "shutdown_requested" _ _ refl
      ∙ get-put_other "runtime_power_mode" "operation_mode" _ _ refl

-- A shutdown with a reason is enqueued as a pending command that disables the device, asks for the
-- shutdown, and carries the clamped grace period and the trimmed reason, next to the
-- device's own runtime power mode.
pub shutdown_payload :
    (calls : Calls) (device : DeviceControls) (reason : String) (grace : GraceValue) (ttl_s : ℤ)
    (ts : Time) (t : CommandTable)
    → str_eq (strip reason) "" ≡ false
    → (after : CommandTable) × (command : DeviceControlCommand) × (enqueue_device_shutdown_command
          calls device reason grace ttl_s ts t
        ≡ some (after, command))
      × (command.status ≡ pending)
      × (get "operation_mode" command.command_payload ≡ some (text "disabled"))
      × (get "shutdown_requested" command.command_payload ≡ some (boolean true))
      × (get "shutdown_grace_s" command.command_payload
          ≡ some (integer (safe_shutdown_grace_s grace)))
      × (get "shutdown_reason" command.command_payload ≡ some (text (strip reason)))
      × (get "runtime_power_mode" command.command_payload
          ≡ get "runtime_power_mode" (command_payload_from_device calls device))
unfolding enqueue_device_shutdown_command normalize_reason enqueue_device_control_command
    new_command
shutdown_payload calls device reason grace ttl_s ts t given =
    let p = command_payload_from_device calls device in
    let (after, command) =
      enqueue_device_control_command calls device ttl_s (shutdown_overrides grace (strip reason)) ts
        t in
    (
      after,
      command,
      rw (given, enqueue_device_shutdown_command) refl,
      refl,
      overridden_mode grace (strip reason) p,
      overridden_request grace (strip reason) p,
      overridden_grace grace (strip reason) p,
      overridden_reason grace (strip reason) p,
      kept_entry grace (strip reason) p,
    )
