-- ===== src/DeviceCommands.antt =====
-- api/app/services/device_commands.py: the queue of control commands that a device fetches and
-- acknowledges. The table `device_control_commands` is the list of its rows in the order of their
-- insertion. A row's `id`, the primary key and a fresh uuid4 in the program, is the number of ids
-- drawn before it. Each operation takes the time `ts` that its first line resolves.
pub mod Operations
pub mod Rows
pub mod Queue
pub mod Lifecycle
pub mod Outcome
pub mod Delivery
pub mod Shutdown
pub mod Consistency
use edgewatch_telemetry.Prelude.{
  ℕ, suc, ◌+◌, max, String, Bool, true, false, not, ◌&&◌, ◌||◌, Option, none, some, List, [], ◌∷◌,
  ◌++◌, map, filter, ltb, leb, ◌==◌, str_eq, count, if◌then◌else◌,
}
use Prim.Native.String.{◌++◌ as ◌+++◌}
use mathlib.Core.Option
use edgewatch_telemetry.Prelude.Int.{ℤ, pos, ltb_ℤ, clamp_nonneg, is_zero}
use edgewatch_telemetry.Prelude.Text.{strip, parse_int, or_default, show}
use edgewatch_telemetry.Prelude.Time.{Time, seconds}
use edgewatch_telemetry.Prelude.Sql.{Sql}

-- What the service calls: the database's ordering, `s.lower()`, and `datetime.isoformat()`.
pub record Calls : Type 1 where
  pub sql : Sql
  pub lower : String → String
  pub isoformat : Time → String

pub data CommandStatus : Type 0 where
  pending superseded expired acknowledged : CommandStatus

-- a value of the command's JSON payload
pub data Json : Type 0 where
  null : Json
  boolean : Bool → Json
  integer : ℤ → Json
  text : String → Json

-- the columns of `devices` that a command carries
pub record DeviceControls : Type 0 where
  pub device_id : String
  pub operation_mode : String
  pub sleep_poll_interval_s : ℤ
  pub runtime_power_mode : String
  pub deep_sleep_backend : String
  pub alerts_muted_until : Option Time
  pub alerts_muted_reason : Option String

pub record DeviceControlCommand : Type 0 where
  pub id : ℕ
  pub device_id : String
  pub command_payload : List (String × Json)
  pub status : CommandStatus
  pub issued_at : Time
  pub expires_at : Time
  pub acknowledged_at : Option Time
  pub superseded_at : Option Time

pub record CommandTable : Type 0 where
  pub rows : List DeviceControlCommand
  pub next_id : ℕ

unfoldable pub normalize_mode : (String → String) → String → String
unfolding strip
normalize_mode lower value =
    let mode = lower (strip (or_default value "active")) in
    if str_eq mode "active" || str_eq mode "sleep" || str_eq mode "disabled" then mode else "active"

unfoldable pub normalize_runtime_power_mode : (String → String) → String → String
unfolding strip
normalize_runtime_power_mode lower value =
    let mode = lower (strip (or_default value "continuous")) in
    if str_eq mode "continuous" || str_eq mode "eco" || str_eq mode "deep_sleep"
    then mode
    else "continuous"

unfoldable pub normalize_deep_sleep_backend : (String → String) → String → String
unfolding strip
normalize_deep_sleep_backend lower value =
    let backend = lower (strip (or_default value "auto")) in
    if str_eq backend "auto"
      || str_eq backend "pi5_rtc"
      || str_eq backend "external_supervisor"
      || str_eq backend "none"
    then backend
    else "auto"

unfoldable pub normalize_reason : Option String → Option String
normalize_reason none = none
normalize_reason (some value) =
    let trimmed = strip value in if str_eq trimmed "" then none else some trimmed

-- the value of the grace period, by its Python type; a finite float by its integer part
pub data GraceValue : Type 0 where
  flag : Bool → GraceValue
  number : ℤ → GraceValue
  float : ℤ → GraceValue
  string : String → GraceValue
  other : GraceValue

unfoldable pub clamp_grace_s : ℤ → ℤ
clamp_grace_s parsed =
    if ltb_ℤ parsed (pos 1) then pos 1 else if ltb_ℤ (pos 3600) parsed then pos 3600 else parsed

-- the grace period of a text, by its `int(text)`
unfoldable pub grace_of : Option ℤ → ℤ
unfolding clamp_grace_s
grace_of none = pos 30
grace_of (some n) = clamp_grace_s n

unfoldable pub safe_shutdown_grace_s : GraceValue → ℤ
unfolding clamp_grace_s grace_of
safe_shutdown_grace_s (flag b) = clamp_grace_s (if b then pos 1 else pos 0)
safe_shutdown_grace_s (number n) = clamp_grace_s n
safe_shutdown_grace_s (float n) = clamp_grace_s n
safe_shutdown_grace_s (string s) =
    if str_eq (strip s) "" then pos 30 else grace_of (parse_int (strip s))
safe_shutdown_grace_s other = pos 30

-- `text_or_null(d)` for the optional entries
abbrev text_or_null : Option String → Json
text_or_null none = null
text_or_null (some s) = text s

unfoldable pub command_payload_from_device : Calls → DeviceControls → List (String × Json)
unfolding normalize_mode normalize_runtime_power_mode normalize_deep_sleep_backend normalize_reason
command_payload_from_device calls device =
    ("operation_mode", text (normalize_mode calls.lower device.operation_mode))
    ∷ (
      "sleep_poll_interval_s",
      integer (
          if is_zero device.sleep_poll_interval_s
          then pos 604800
          else device.sleep_poll_interval_s),
    )
    ∷ (
      "runtime_power_mode",
      text (normalize_runtime_power_mode calls.lower device.runtime_power_mode),
    )
    ∷ (
      "deep_sleep_backend",
      text (normalize_deep_sleep_backend calls.lower device.deep_sleep_backend),
    )
    ∷ ("shutdown_requested", boolean false)
    ∷ ("shutdown_grace_s", integer (pos 30))
    ∷ ("alerts_muted_until", text_or_null (Option.map calls.isoformat device.alerts_muted_until))
    ∷ ("alerts_muted_reason", text_or_null (normalize_reason device.alerts_muted_reason))
    ∷ []

-- `d[key] = value`
unfoldable pub put : String → Json → List (String × Json) → List (String × Json)
put key value [] = (key, value) ∷ []
put key value ((k, v) ∷ rest) =
    let after = put key value rest in if str_eq k key then (k, value) ∷ rest else (k, v) ∷ after

-- `payload.update(overrides)`
unfoldable pub update : List (String × Json) → List (String × Json) → List (String × Json)
update payload [] = payload
update payload ((key, value) ∷ rest) = update (put key value payload) rest

-- `d.get(key)`
unfoldable pub get : String → List (String × Json) → Option Json
get key [] = none
get key ((k, v) ∷ rest) = let later = get key rest in if str_eq k key then some v else later

abbrev pub is_pending : CommandStatus → Bool
is_pending pending = true
is_pending superseded = false
is_pending expired = false
is_pending acknowledged = false

abbrev pub is_acknowledged : CommandStatus → Bool
is_acknowledged pending = false
is_acknowledged superseded = false
is_acknowledged expired = false
is_acknowledged acknowledged = true
