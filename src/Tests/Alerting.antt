-- ===== src/Tests/Alerting.antt =====
-- The alerting pipeline of api/app/services on a small database: one device, one webhook.
use edgewatch_telemetry.Prelude.{
  ℕ, ◌+◌, ◌<◌, max, String, ◌≡◌, ◌↔◌, sym, ◌∙◌, refl, true, false, Option, none, some, List, [],
  ◌∷◌, arith, count, length, ltb, leb, if◌then◌else◌,
}
use edgewatch_telemetry.Prelude.Int.{pos}
use edgewatch_telemetry.Prelude.Time.{Time, seconds}
use edgewatch_telemetry.Prelude.Float.{Floats}
use edgewatch_telemetry.Tests.Database.{database, newest, oldest_first}
use edgewatch_telemetry.Prelude.Text.{strip}
use edgewatch_telemetry.Alerting.{Device, Alert, Settings, Response, Session, World}
use edgewatch_telemetry.Alerting.Routing.{
  in_window, is_muted, dedupe_hit, throttle_hit, RoutingPolicy, AlertCandidate, in_quiet_hours,
  minute_of_day, parse_hhmm, decide, load_policy, should_notify,
}
use edgewatch_telemetry.Alerting.Routing.QuietHours.{minutes_after, in_quiet_hours_window}
use edgewatch_telemetry.Alerting.Routing.Decision.{IsDeliverable, decide_iff}
use edgewatch_telemetry.Alerting.Notify.Destinations.{configured_destinations}
use edgewatch_telemetry.Alerting.Notify.Webhook.{deliver}
use edgewatch_telemetry.Alerting.Notify.Process.{
  process_alert_notification, process_to, deliver_or_record, deliver_to, delivery_event,
  candidate_of, is_matching,
}
use edgewatch_telemetry.Alerting.Notify.Audit.{Trail, process_alert_notification-Trail}
use edgewatch_telemetry.Alerting.Notify.Dedupe.{delivery_silences_repeats, is_delivery}
use edgewatch_telemetry.Alerting.Monitor.{
  normalized_mode, offline, compute_status, ensure_offline_alert,
}
use edgewatch_telemetry.Alerting.Monitor.Status.{offline_exactly_after_limit, offline_until_seen}
use edgewatch_telemetry.Alerting.Monitor.Effects.{open_count}
use edgewatch_telemetry.Alerting.Monitor.Microphone.{microphone_step, microphone_step-open_count}
use edgewatch_telemetry.Alerting.Monitor.Metrics.{AlertThresholds, Overrides}
use edgewatch_telemetry.Alerting.Monitor.Readings.{
  Metric, run, run_hysteresis, run_one_alert_per_change,
}
use edgewatch_telemetry.Alerting.Monitor.Offline.{
  after_scan, ensure_offline_alert-open_count, ensure_offline_alert_idem,
}

-- every zone is unknown, every call succeeds
abbrev pub world : World
world = record {
  sql = database;
  local_time = λ tz now. none;
  sha256_hex = λ s. s;
  upper = λ s. s;
  lower = λ s. s;
  chat_id = λ url. some "";
  post = λ calls call. Response.status 200;
}

abbrev pub settings : Settings
settings = record {
  alert_dedupe_window_s = pos 900;
  alert_throttle_window_s = pos 3600;
  alert_throttle_max_notifications = pos 20;
  alert_quiet_hours_start = "22:00";
  alert_quiet_hours_end = "06:00";
  alert_quiet_hours_tz = "UTC";
  alert_webhook_url = some "https://hooks.example/1";
  alert_webhook_kind = "slack";
}

-- noon of the first day
abbrev pub noon : Time
noon = 43200000000

abbrev pump : Device
pump = record {
  device_id = "pump-1";
  offline_after_s = pos 300;
  operation_mode = "active";
  alerts_muted_until = none;
  alerts_muted_reason = none;
  last_seen_at = some noon;
  enabled = true;
}

abbrev pub empty : Session
empty = record {
  devices = pump ∷ [];
  alerts = [];
  alert_policies = [];
  notification_events = [];
  notification_destinations = none;
  next_id = 0;
  transitions = [];
  posts = [];
}

abbrev low_battery : Alert
low_battery = record {
  id = 0;
  device_id = "pump-1";
  alert_type = "BATTERY_LOW";
  severity = "warning";
  message = "Battery low";
  created_at = noon;
  resolved_at = none;
}

abbrev policy : RoutingPolicy
policy = record {
  dedupe_window_s = 900;
  throttle_window_s = 3600;
  throttle_max_notifications = 20;
  quiet_hours_start_minute = some (pos 1320);
  quiet_hours_end_minute = some (pos 360);
  quiet_hours_tz = "UTC";
  enabled = true;
  alerts_muted_until = none;
  alerts_muted_reason = none;
  policy_id = none;
}

abbrev candidate : AlertCandidate
candidate = record {
  alert_id = 0;
  device_id = "pump-1";
  alert_type = "BATTERY_LOW";
  severity = "warning";
  message = "Battery low";
}

in_quiet_hours_window_example :
    (in_quiet_hours world.local_time noon (some (pos 1320)) (some (pos 360)) "UTC" ≡ true)
    ↔ (minutes_after 1320 (minute_of_day world.local_time "UTC" noon) < minutes_after 1320 360)
unfolding minute_of_day
in_quiet_hours_window_example =
    in_quiet_hours_window world.local_time noon 1320 360 "UTC" (omega arith) (omega arith)
      (omega arith)

parse_evening : parse_hhmm (some " 22:30 ") ≡ some (pos 1350)
unfolding parse_hhmm
parse_evening = refl

decide_iff_example :
    ((decide world policy candidate noon "webhook" []).should_notify ≡ true)
    ↔ IsDeliverable world policy candidate noon []
decide_iff_example = decide_iff world policy candidate noon [] "webhook"

abbrev notified : Session
notified = process_alert_notification world settings low_battery noon empty

-- the callees of the pipeline, to run it
unfoldable pipeline : Session
unfolding process_alert_notification process_to configured_destinations should_notify load_policy
    decide deliver_or_record deliver_to deliver delivery_event newest oldest_first parse_hhmm
    minute_of_day in_quiet_hours in_window is_muted dedupe_hit throttle_hit strip
pipeline = notified

one_call : length notified.posts ≡ 1
unfolding pipeline
one_call = refl

one_delivery : count (is_delivery "pump-1" "BATTERY_LOW") notified.notification_events ≡ 1
unfolding pipeline
one_delivery = refl

process_alert_notification-Trail_example :
    Trail low_battery noon
      (max 1 (
        if (should_notify world settings empty
          (candidate_of low_battery)
          noon
          "webhook").should_notify
        then count
            (is_matching "alert" "BATTERY_LOW")
            (configured_destinations world settings empty)
        else 0))
      empty
      notified
process_alert_notification-Trail_example =
    process_alert_notification-Trail world low_battery noon settings empty

window_set : (load_policy settings world.sql empty "pump-1").dedupe_window_s ≡ 900
unfolding pipeline
window_set = refl

delivery_silences_repeats_example :
    (process_alert_notification world settings low_battery (noon + seconds 900) notified).posts
    ≡ notified.posts
delivery_silences_repeats_example =
    delivery_silences_repeats world settings low_battery low_battery noon (noon + seconds 900) empty
      (omega (arith, one_delivery)) refl refl (omega (arith, window_set))
      (rw window_set (omega arith))

overdue_pump : (compute_status world.lower pump (noon + seconds 301)).0 ≡ offline
unfolding normalized_mode strip
overdue_pump =
    offline_exactly_after_limit world.lower pump (noon + seconds 301) noon 300 refl refl refl refl

-- readings in tenths
abbrev pub floats : Floats
floats = record { Value = ℕ; less = ltb; at_least = λ a b. leb b a; format = λ n v. "" }

abbrev pub overrides : Overrides ℕ
overrides = record {
  default_water_pressure_low_psi = none;
  default_battery_low_v = some 118;
  default_signal_low_rssi_dbm = none;
}

abbrev pub thresholds : AlertThresholds ℕ
thresholds = record {
  water_pressure_low_psi = 300;
  water_pressure_recover_psi = 320;
  oil_pressure_low_psi = 200;
  oil_pressure_recover_psi = 220;
  oil_level_low_pct = 200;
  oil_level_recover_pct = 250;
  drip_oil_level_low_pct = 200;
  drip_oil_level_recover_pct = 250;
  oil_life_low_pct = 150;
  oil_life_recover_pct = 200;
  battery_low_v = 115;
  battery_recover_v = 121;
  signal_low_rssi_dbm = 10;
  signal_recover_rssi_dbm = 15;
}

-- opens, stays in the band, resolves
abbrev readings : List (ℕ × Time)
readings = (117, noon) ∷ (120, noon + 1) ∷ (122, noon + 2) ∷ (119, noon + 3) ∷ []

run_hysteresis_example :
    open_count "pump-1" "BATTERY_LOW"
      (run floats world settings overrides thresholds Metric.battery "pump-1" readings empty)
    ≡ 0
run_hysteresis_example =
    run_hysteresis floats world settings overrides thresholds Metric.battery "pump-1" readings false
      empty refl

run_one_alert_per_change_example :
    length
      (run floats world settings overrides thresholds Metric.battery "pump-1" readings empty).alerts
    ≡ 2
run_one_alert_per_change_example =
    run_one_alert_per_change floats world settings overrides thresholds Metric.battery "pump-1"
      readings false empty refl

seen_text : Option Time → String
seen_text t = ""

ensure_offline_alert-open_count_example :
    open_count "pump-1" "DEVICE_OFFLINE"
      (ensure_offline_alert world settings seen_text pump (noon + seconds 301) empty)
    ≡ after_scan world settings seen_text pump
        (compute_status world.lower pump (noon + seconds 301)).0
        0
ensure_offline_alert-open_count_example =
    ensure_offline_alert-open_count world settings seen_text pump (noon + seconds 301) empty

ensure_offline_alert_idem_example :
    let s' = ensure_offline_alert world settings seen_text pump (noon + seconds 301) empty in
    ensure_offline_alert world settings seen_text pump (noon + seconds 400) s' ≡ s'
ensure_offline_alert_idem_example =
    ensure_offline_alert_idem world settings seen_text pump (noon + seconds 301)
      (noon + seconds 400) empty
      (offline_until_seen world.lower pump (noon + seconds 301) (noon + seconds 400) overdue_pump
          (omega arith)
        ∙ sym overdue_pump)

microphone_step-open_count_example :
    open_count "pump-1" "MICROPHONE_OFFLINE"
      (microphone_step floats world settings "pump-1" 40 2 1 (30 ∷ 35 ∷ []) 30 noon empty)
    ≡ 1
microphone_step-open_count_example =
    microphone_step-open_count floats world settings "pump-1" 40 2 1 (30 ∷ 35 ∷ []) 30 noon false
      empty refl
