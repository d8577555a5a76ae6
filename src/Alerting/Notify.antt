-- ===== src/Alerting/Notify.antt =====
-- api/app/services/notifications.py: what a notification is made of and the event that records it.
-- Destinations finds where it goes, Webhook sends it, Process and Platform do so for an alert and for a
-- platform event.
pub mod Destinations
pub mod Webhook
pub mod Process
pub mod Platform
pub mod Audit
pub mod Dedupe
use edgewatch_telemetry.Prelude.{
  ℕ, suc, ◌+◌, String, Bool, true, false, not, ◌&&◌, ◌||◌, Option, none, some, List, [], ◌∷◌, ◌++◌,
  map, any, filter, leb, ltb, str_eq, if◌then◌else◌,
}
use Prim.Native.String.{◌++◌ as ◌+++◌}
use edgewatch_telemetry.Prelude.Int.{pos}
use edgewatch_telemetry.Prelude.Text.{strip, show}
use edgewatch_telemetry.Prelude.Time.{Time}
use edgewatch_telemetry.Alerting.{
  Alert, Body, Post, Response, NotificationEvent, NotificationDestination, Settings, Session, World,
}
use edgewatch_telemetry.Alerting.Routing.{AlertCandidate, RoutingDecision, should_notify}

pub record DeliveryResult : Type 0 where
  pub delivered : Bool
  pub decision : String
  pub reason : String
  pub error_class : Option String

pub record NotificationDestinationConfig : Type 0 where
  pub name : String
  pub channel : String
  pub kind : String
  pub webhook_url : String
  pub source_types : List String
  pub event_types : List String
  pub destination_fingerprint : String

pub record PlatformEvent : Type 0 where
  pub source_kind : String
  pub source_id : Option String
  pub device_id : String
  pub event_type : String
  pub severity : String
  pub message : String
  pub payload : List (String × String)
  -- `none` where it is the time of a row that has not been flushed
  pub created_at : Option Time

-- `raw in values`
abbrev pub is_in : String → List String → Bool
is_in raw values = any (str_eq raw) values

unfoldable pub record_event : NotificationEvent → Session → Session
record_event e session = record session {
  notification_events = session.notification_events ++ e ∷ [];
}
