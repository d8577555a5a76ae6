-- ===== src/Alerting/Notify/Process.antt =====
-- An alert is delivered to each destination that matches, and the event recorded for every outcome:
-- api/app/services/notifications.py.
use edgewatch_telemetry.Prelude.{
  String, Bool, true, false, ◌&&◌, ◌||◌, Option, none, some, List, [], ◌∷◌, if◌then◌else◌,
}
use edgewatch_telemetry.Prelude.Int.{pos}
use edgewatch_telemetry.Prelude.Text.{show}
use edgewatch_telemetry.Prelude.Time.{Time}
use edgewatch_telemetry.Alerting.{Alert, NotificationEvent, Settings, Session, World}
use edgewatch_telemetry.Alerting.Routing.{AlertCandidate, RoutingDecision, should_notify}
use edgewatch_telemetry.Alerting.Notify.{
  DeliveryResult, NotificationDestinationConfig, is_in, record_event,
}
use edgewatch_telemetry.Alerting.Notify.Destinations.{configured_destinations}
use edgewatch_telemetry.Alerting.Notify.Webhook.{deliver}

abbrev pub is_empty : List String → Bool
is_empty [] = true
is_empty (x ∷ xs) = false

-- does the destination want events of this source and type?
abbrev pub is_matching : String → String → NotificationDestinationConfig → Bool
is_matching source_kind event_type destination =
    is_in source_kind destination.source_types
    && (is_empty destination.event_types || is_in event_type destination.event_types)

-- the row recorded about an alert
unfoldable pub alert_event :
    Alert
    → Time
    → String
    → Bool
    → String
    → String
    → Option String
    → Option String
    → NotificationEvent
alert_event alert now decision delivered reason channel fingerprint error_class = record {
  alert_id = some alert.id;
  device_id = alert.device_id;
  source_kind = "alert";
  source_id = some (show (pos alert.id));
  alert_type = alert.alert_type;
  channel = channel;
  decision = decision;
  delivered = delivered;
  reason = reason;
  destination_fingerprint = fingerprint;
  error_class = error_class;
  payload = ("severity", alert.severity) ∷ ("message", alert.message) ∷ [];
  created_at = now;
}

unfoldable pub delivery_event :
    Alert → Time → NotificationDestinationConfig → DeliveryResult → NotificationEvent
unfolding alert_event
delivery_event alert now destination delivery =
    alert_event alert now delivery.decision delivery.delivered delivery.reason destination.channel
      (some destination.destination_fingerprint) delivery.error_class

-- The loop over the destinations: whether one matched, and the session with an event for each that
-- did.
unfoldable pub deliver_to :
    World → Alert → Time → List NotificationDestinationConfig → Session → Bool × Session
unfolding record_event
deliver_to world alert now [] session = (false, session)
deliver_to world alert now (destination ∷ destinations) session =
    let wanted = is_matching "alert" alert.alert_type destination in
    let sent = deliver world destination alert session in
    let next : Session =
      if wanted
      then record_event (delivery_event alert now destination sent.0) sent.1
      else session in
    let rest = deliver_to world alert now destinations next in (wanted || rest.0, rest.1)

-- the events of the outcomes in which nothing is sent
unfoldable pub no_adapter_event : Alert → Time → NotificationEvent
unfolding alert_event
no_adapter_event alert now =
    alert_event alert now "suppressed_no_adapter" false "no notification adapter configured"
      "webhook" none none

unfoldable pub suppressed_event : Alert → Time → RoutingDecision → NotificationEvent
unfolding alert_event
suppressed_event alert now decision =
    alert_event alert now decision.decision false decision.reason decision.channel none none

unfoldable pub no_match_event : Alert → Time → NotificationEvent
unfolding alert_event
no_match_event alert now =
    alert_event alert now "suppressed_no_matching_destination" false
      "no enabled destination matched source/event filters" "webhook" none none

abbrev pub candidate_of : Alert → AlertCandidate
candidate_of alert = record {
  alert_id = alert.id;
  device_id = alert.device_id;
  alert_type = alert.alert_type;
  severity = alert.severity;
  message = alert.message;
}

-- the loop and, where nothing matched, its event
unfoldable pub deliver_or_record :
    World → Alert → Time → List NotificationDestinationConfig → Session → Session
unfolding no_match_event record_event
deliver_or_record world alert now destinations session =
    let (matched, session') = deliver_to world alert now destinations session in
    if matched then session' else record_event (no_match_event alert now) session'

-- `process_alert_notification` once its destinations are known
unfoldable pub process_to :
    World → Settings → Alert → Time → List NotificationDestinationConfig → Session → Session
unfolding no_adapter_event suppressed_event record_event
process_to world settings alert now [] session = record_event (no_adapter_event alert now) session
process_to world settings alert now (d ∷ ds) session =
    let decision = should_notify world settings session (candidate_of alert) now "webhook" in
    if decision.should_notify
    then deliver_or_record world alert now (d ∷ ds) session
    else record_event (suppressed_event alert now decision) session

unfoldable pub process_alert_notification : World → Settings → Alert → Time → Session → Session
process_alert_notification world settings alert now session =
    process_to world settings alert now (configured_destinations world settings session) session
