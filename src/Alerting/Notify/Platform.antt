-- ===== src/Alerting/Notify/Platform.antt =====
-- The same for a platform event: api/app/services/notifications.py.
use edgewatch_telemetry.Prelude.{
  String, Bool, false, ◌||◌, Option, none, some, List, [], ◌∷◌, if◌then◌else◌,
}
use edgewatch_telemetry.Prelude.Time.{Time}
use edgewatch_telemetry.Alerting.{NotificationEvent, Settings, Session, World}
use edgewatch_telemetry.Alerting.Notify.{NotificationDestinationConfig, PlatformEvent, record_event}
use edgewatch_telemetry.Alerting.Notify.Destinations.{configured_destinations}
use edgewatch_telemetry.Alerting.Notify.Webhook.{deliver_platform_event}
use edgewatch_telemetry.Alerting.Notify.Process.{is_matching}

-- the time of a row, where none is given the column's default: the time at which it is stored
unfoldable pub stored_time : Option Time → Time → Time
stored_time none stored_at = stored_at
stored_time (some created_at) stored_at = created_at

-- the row recorded about a platform event
unfoldable pub platform_row :
    PlatformEvent
    → String
    → Bool
    → String
    → String
    → Option String
    → Option String
    → Time
    → NotificationEvent
unfolding stored_time
platform_row event decision delivered reason channel fingerprint error_class stored_at = record {
  alert_id = none;
  device_id = event.device_id;
  source_kind = event.source_kind;
  source_id = event.source_id;
  alert_type = event.event_type;
  channel = channel;
  decision = decision;
  delivered = delivered;
  reason = reason;
  destination_fingerprint = fingerprint;
  error_class = error_class;
  payload = event.payload;
  created_at = stored_time event.created_at stored_at;
}

unfoldable pub deliver_event_to :
    World → PlatformEvent → Time → List NotificationDestinationConfig → Session → Bool × Session
unfolding deliver_platform_event platform_row record_event
deliver_event_to world event stored_at [] session = (false, session)
deliver_event_to world event stored_at (destination ∷ destinations) session =
    let wanted = is_matching event.source_kind event.event_type destination in
    let sent = deliver_platform_event world destination event session in
    let row =
      platform_row event sent.0.decision sent.0.delivered sent.0.reason destination.channel
        (some destination.destination_fingerprint) sent.0.error_class stored_at in
    let next : Session = if wanted then record_event row sent.1 else session in
    let rest = deliver_event_to world event stored_at destinations next in
    (wanted || rest.0, rest.1)

unfoldable pub process_platform_to :
    World → PlatformEvent → Time → List NotificationDestinationConfig → Session → Session
unfolding platform_row record_event
process_platform_to world event stored_at [] session =
    record_event
      (platform_row event "suppressed_no_adapter" false "no notification adapter configured"
        "webhook" none none stored_at)
      session
process_platform_to world event stored_at (d ∷ ds) session =
    let (matched, session') = deliver_event_to world event stored_at (d ∷ ds) session in
    if matched
    then session'
    else record_event
        (platform_row event "suppressed_no_matching_destination" false
          "no enabled destination matched source/event filters" "webhook" none none stored_at)
        session'

unfoldable pub process_platform_event : World → Settings → PlatformEvent → Time → Session → Session
process_platform_event world settings event stored_at session =
    process_platform_to world event stored_at (configured_destinations world settings session)
      session
