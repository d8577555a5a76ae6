-- ===== src/Deployments/Events.antt =====
-- What a deployment event sends: `_event` of api/app/services/device_updates.py hands
-- api/app/services/notifications.py an event without a time.
use edgewatch_telemetry.Prelude.{
  ℕ, ◌≡◌, refl, String, Bool, true, false, Option, none, List, [], ◌∷◌, all, arith, Bool-cases, inl,
  inr, not,
}
use edgewatch_telemetry.Prelude.Dict.{Dict}
use edgewatch_telemetry.Prelude.Time.{Time}
use edgewatch_telemetry.Alerting.{NotificationEvent, Session, World}
use edgewatch_telemetry.Alerting.Notify.{NotificationDestinationConfig, PlatformEvent, record_event}
use edgewatch_telemetry.Alerting.Notify.Destinations.{configured_destinations}
use edgewatch_telemetry.Alerting.Notify.Webhook.{
  has_text_body, delivery_exception, deliver_platform_event,
}
use edgewatch_telemetry.Alerting.Notify.Process.{is_matching}
use edgewatch_telemetry.Alerting.Notify.Platform.{
  deliver_event_to, process_platform_to, process_platform_event,
}
use edgewatch_telemetry.Deployments.{Calls, Tables}
use edgewatch_telemetry.Deployments.Operations.{deployment_platform_event, event}

-- the destinations whose calls carry the event's fields
abbrev pub carry_fields : List NotificationDestinationConfig → Bool
carry_fields destinations = all (λ d. not (has_text_body d.kind)) destinations

deliver_timeless :
    (world : World) (e : PlatformEvent) (d : NotificationDestinationConfig) (session : Session)
    → e.created_at ≡ none
    → has_text_body d.kind ≡ false
    → deliver_platform_event world d e session ≡ (delivery_exception "AttributeError", session)
unfolding deliver_platform_event
deliver_timeless world e d session timeless fields =
    rw (timeless, fields, deliver_platform_event) refl

record_event-posts :
    (row : NotificationEvent) (session : Session) → (record_event row session).posts ≡ session.posts
unfolding record_event
record_event-posts row session = refl

deliver_event_to-posts :
    (world : World) (e : PlatformEvent) (stored_at : Time)
    (destinations : List NotificationDestinationConfig) (session : Session)
    → e.created_at ≡ none
    → carry_fields destinations ≡ true
    → (deliver_event_to world e stored_at destinations session).1.posts ≡ session.posts
unfolding deliver_event_to
deliver_event_to-posts world e stored_at [] session timeless h = refl
deliver_event_to-posts world e stored_at (d ∷ ds) session timeless h =
    let fields : has_text_body d.kind ≡ false = ground arith in
    let sent = deliver_timeless world e d session timeless fields in
    elim (Bool-cases (is_matching e.source_kind e.event_type d)) [
      | inl wanted ↦
          rw (wanted, sent, deliver_event_to)
            (deliver_event_to-posts world e stored_at ds _ timeless (ground arith))
      | inr unwanted ↦
          rw (unwanted, deliver_event_to)
            (deliver_event_to-posts world e stored_at ds session timeless (ground arith))
    ]

process_platform_to-posts :
    (world : World) (e : PlatformEvent) (stored_at : Time)
    (destinations : List NotificationDestinationConfig) (session : Session)
    → e.created_at ≡ none
    → carry_fields destinations ≡ true
    → (process_platform_to world e stored_at destinations session).posts ≡ session.posts
unfolding process_platform_to record_event
process_platform_to-posts world e stored_at [] session timeless h = refl
process_platform_to-posts world e stored_at (d ∷ ds) session timeless h =
    let silent = deliver_event_to-posts world e stored_at (d ∷ ds) session timeless h in
    elim (Bool-cases (deliver_event_to world e stored_at (d ∷ ds) session).0) [
      | inl matched ↦ rw (matched, process_platform_to) silent
      | inr unmatched ↦ rw (unmatched, process_platform_to) silent
    ]

-- Where no configured destination is a slack, discord or telegram one, a deployment event, of
-- whatever type, makes no HTTP call, whatever its destinations subscribe to.
pub event-no_posts :
    (calls : Calls) (deployment_id : ℕ) (event_type : String) (device_id : Option String)
    (details : Dict String) (stored_at : Time) (store : Tables calls)
    → carry_fields (configured_destinations calls.world calls.settings store.session) ≡ true
    → (event calls deployment_id event_type device_id details stored_at store).session.posts
      ≡ store.session.posts
unfolding event process_platform_event deployment_platform_event
event-no_posts calls deployment_id event_type device_id details stored_at store h =
    process_platform_to-posts calls.world
      (deployment_platform_event deployment_id event_type device_id details) stored_at
      (configured_destinations calls.world calls.settings store.session) store.session refl h
