-- ===== src/Alerting/Monitor.antt =====
-- api/app/services/monitor.py: a device's status, and the alerts that open and resolve with its
-- connection and its metrics. The seven metric monitors and the two power monitors differ only in
-- their texts and thresholds: each calls `lifecycle`.
pub mod Status
pub mod Effects
pub mod Metrics
pub mod Readings
pub mod Hysteresis
pub mod Offline
pub mod Microphone
use edgewatch_telemetry.Prelude.{
  ℕ, ◌+◌, String, Bool, true, false, not, ◌&&◌, ◌||◌, Option, none, some, List, [], ◌∷◌, ◌++◌, map,
  filter, ◌==◌, str_eq, is_some, if◌then◌else◌,
}
use Prim.Native.String.{◌++◌ as ◌+++◌}
use edgewatch_telemetry.Prelude.Int.{ℤ, ltb_ℤ}
use edgewatch_telemetry.Prelude.Text.{strip, ends_with, or_default}
use edgewatch_telemetry.Prelude.Time.{Time, whole_seconds}
use edgewatch_telemetry.Prelude.Float.{Floats}
use edgewatch_telemetry.Alerting.{Device, Alert, Settings, Session, Transition, World}
use edgewatch_telemetry.Alerting.Notify.Process.{process_alert_notification}

pub data DeviceStatus : Type 0 where
  online offline unknown sleep disabled : DeviceStatus

unfoldable pub normalized_mode : (String → String) → String → String
normalized_mode lower mode =
    let m = lower (strip (or_default mode "active")) in
    if str_eq m "active" || str_eq m "sleep" || str_eq m "disabled" then m else "active"

unfoldable pub compute_status : (String → String) → Device → Time → DeviceStatus × Option ℤ
compute_status lower device now =
    let mode = normalized_mode lower device.operation_mode in
    elim device.last_seen_at [
      | none ↦
          if not device.enabled || str_eq mode "disabled"
          then (disabled, none)
          else if str_eq mode "sleep"
          then (sleep, none)
          else (unknown, none)
      | some seen ↦
          let elapsed = whole_seconds seen now in
          if not device.enabled || str_eq mode "disabled"
          then (disabled, some elapsed)
          else if str_eq mode "sleep"
          then (sleep, some elapsed)
          else if ltb_ℤ device.offline_after_s elapsed
          then (offline, some elapsed)
          else (online, some elapsed)
    ]

unfoldable pub is_resolution_event : String → Bool
unfolding ends_with
is_resolution_event t =
    str_eq t "DEVICE_ONLINE"
    || str_eq t "MICROPHONE_ONLINE"
    || str_eq t "POWER_SUSTAINABLE"
    || ends_with t "_OK"

-- an unresolved alert of the type for the device
abbrev pub is_open : String → String → Alert → Bool
is_open device_id alert_type a =
    str_eq a.device_id device_id && str_eq a.alert_type alert_type && not (is_some a.resolved_at)

abbrev pub mark_resolved : ℕ → Time → Alert → Alert
mark_resolved id now a = if a.id == id then record a { resolved_at = some now } else a

unfoldable pub resolve_alert : Alert → Time → Session → Session
resolve_alert alert now session = if is_some alert.resolved_at then session else record session {
  alerts = map (mark_resolved alert.id now) session.alerts;
  transitions =
      session.transitions
      ++ record { state = "close"; alert_type = alert.alert_type; severity = alert.severity } ∷ [];
}

-- the `Alert(...)` of a call, whose id is drawn when it is added
unfoldable pub new_alert : String → String → String → String → Time → Session → Alert
new_alert device_id alert_type severity message now session = record {
  id = session.next_id;
  device_id = device_id;
  alert_type = alert_type;
  severity = severity;
  message = message;
  created_at = now;
  resolved_at = none;
}

-- `session.add(alert)` and the metric of an opening
unfoldable pub add_alert : Alert → Session → Session
add_alert alert session = record session {
  alerts = session.alerts ++ alert ∷ [];
  next_id = session.next_id + 1;
  transitions =
      if not (is_resolution_event alert.alert_type)
      then session.transitions
        ++ record { state = "open"; alert_type = alert.alert_type; severity = alert.severity } ∷ []
      else session.transitions;
}

-- the loop over the open alerts
unfoldable pub resolve_all : List Alert → Time → Session → Session
resolve_all [] now session = session
resolve_all (a ∷ rest) now session = resolve_all rest now (resolve_alert a now session)

-- `status == "online"`
unfoldable pub is_status_online : DeviceStatus → Bool
is_status_online online = true
is_status_online _ = false

module _ (world : World) (settings : Settings) where
  -- `_create_alert`, with the alert that its caller makes
  unfoldable pub create_alert : String → String → String → String → Time → Session → Session
  create_alert device_id alert_type severity message now session =
      let alert = new_alert device_id alert_type severity message now session in
      process_alert_notification world settings alert now (add_alert alert session)

  -- the newest open alert of a type
  unfoldable pub open_alert : String → String → Session → Option Alert
  open_alert device_id alert_type session =
      world.sql.newest Alert (λ a. a.created_at)
        (filter (is_open device_id alert_type) session.alerts)

  -- The body that the monitors share: open where the reading is bad, and resolve with an event where
  -- it has recovered.
  unfoldable pub lifecycle :
      String → String → String → String → String → Bool → Bool → Time → Session → Session
  lifecycle device_id open_type ok_type open_message ok_message bad recovered now session =
      let open_row = open_alert device_id open_type session in
      if bad
      then (if is_some open_row
          then session
          else create_alert device_id open_type "warning" open_message now session)
      else elim open_row [
        | none ↦ session
        | some a ↦
            if recovered
            then create_alert device_id ok_type "info" ok_message now (resolve_alert a now session)
            else session
      ]

  unfoldable pub ensure_power_input_out_of_range_alerts : String → Bool → Time → Session → Session
  ensure_power_input_out_of_range_alerts device_id input_out_of_range now =
      lifecycle device_id "POWER_INPUT_OUT_OF_RANGE" "POWER_INPUT_OK"
        "Power input voltage is out of configured range."
        "Power input voltage returned to configured range." input_out_of_range true now

  unfoldable pub ensure_power_unsustainable_alerts : String → Bool → Time → Session → Session
  ensure_power_unsustainable_alerts device_id power_unsustainable now =
      lifecycle device_id "POWER_UNSUSTAINABLE" "POWER_SUSTAINABLE"
        "Power consumption is unsustainable for configured window."
        "Power consumption returned to sustainable range." power_unsustainable true now

  -- The text of a device's last time seen is a parameter: `str` of a datetime or None.
  unfoldable pub open_or_create_offline_alert :
      (Option Time → String) → Device → Time → Session → Session
  open_or_create_offline_alert seen_text device now session =
      if is_some (open_alert device.device_id "DEVICE_OFFLINE" session)
      then session
      else create_alert device.device_id "DEVICE_OFFLINE" "warning"
          ("Device '"
            +++ device.device_id
            +++ "' is offline (last seen: "
            +++ seen_text device.last_seen_at
            +++ ").")
          now session

  -- what becomes of the open alerts that the query found
  unfoldable pub resolve_rows : List Alert → Device → Time → Bool → Session → Session
  resolve_rows [] device now emit_online_event session = session
  resolve_rows (a ∷ rest) device now emit_online_event session =
      let resolved = resolve_all (a ∷ rest) now session in
      if emit_online_event
      then create_alert device.device_id "DEVICE_ONLINE" "info"
          ("Device '" +++ (device.device_id +++ "' is back online.")) now resolved
      else resolved

  unfoldable pub resolve_offline_alert_if_any : Device → Time → Bool → Session → Session
  resolve_offline_alert_if_any device now emit_online_event session =
      resolve_rows (filter (is_open device.device_id "DEVICE_OFFLINE") session.alerts) device now
        emit_online_event session

  -- the two branches of the loop of `ensure_offline_alerts`
  unfoldable pub apply_status :
      DeviceStatus → (Option Time → String) → Device → Time → Session → Session
  apply_status offline seen_text d now session =
      open_or_create_offline_alert seen_text d now session
  apply_status status seen_text d now session =
      resolve_offline_alert_if_any d now (is_status_online status) session

  -- the body of that loop
  unfoldable pub ensure_offline_alert : (Option Time → String) → Device → Time → Session → Session
  ensure_offline_alert seen_text d now session =
      apply_status (compute_status world.lower d now).0 seen_text d now session

  ensure_offline_each : (Option Time → String) → Time → List Device → Session → Session
  ensure_offline_each seen_text now [] session = session
  ensure_offline_each seen_text now (d ∷ ds) session =
      ensure_offline_each seen_text now ds (ensure_offline_alert seen_text d now session)

  unfoldable pub ensure_offline_alerts : (Option Time → String) → Time → Session → Session
  unfolding ensure_offline_each
  ensure_offline_alerts seen_text now session =
      ensure_offline_each seen_text now (filter (λ d. d.enabled) session.devices) session
