-- ===== src/Alerting.antt =====
-- The alerting pipeline of the API: rows of api/app/models.py, the settings and thresholds that the
-- services read, and the database session on which they act. Monitor finds alerts, Notify delivers
-- them, and Routing decides whether a notification may go out.
-- A row's `id`, a fresh uuid4 in the program, is the number of ids drawn before it. The session's
-- `add` and `flush` append to a table. Sessions have no autoflush (api/app/db.py), so that a query does
-- not see what has not been flushed. Here it may see it, which makes no difference: every change of
-- the alerts ends in `_create_alert`, which flushes before the decision on the notification.
pub mod Routing
pub mod Notify
pub mod Monitor
use edgewatch_telemetry.Prelude.{ℕ, String, Bool, Option, List}
use edgewatch_telemetry.Prelude.Int.{ℤ}
use edgewatch_telemetry.Prelude.Time.{Time}
use edgewatch_telemetry.Prelude.Float.{Floats}
use edgewatch_telemetry.Prelude.Sql.{Sql}

-- the columns of `devices` that alerting reads
pub record Device : Type 0 where
  pub device_id : String
  pub offline_after_s : ℤ
  pub operation_mode : String
  pub alerts_muted_until : Option Time
  pub alerts_muted_reason : Option String
  pub last_seen_at : Option Time
  pub enabled : Bool

pub record Alert : Type 0 where
  pub id : ℕ
  pub device_id : String
  pub alert_type : String
  pub severity : String
  pub message : String
  pub created_at : Time
  pub resolved_at : Option Time

pub record AlertPolicy : Type 0 where
  pub id : ℕ
  pub device_id : Option String
  pub dedupe_window_s : ℤ
  pub throttle_window_s : ℤ
  pub throttle_max_notifications : ℤ
  pub quiet_hours_start_minute : Option ℤ
  pub quiet_hours_end_minute : Option ℤ
  pub quiet_hours_tz : String
  pub enabled : Bool
  pub created_at : Time

-- A payload is a dict of texts; another JSON value is its JSON text.
pub record NotificationEvent : Type 0 where
  pub alert_id : Option ℕ
  pub device_id : String
  pub source_kind : String
  pub source_id : Option String
  pub alert_type : String
  pub channel : String
  pub decision : String
  pub delivered : Bool
  pub reason : String
  pub destination_fingerprint : Option String
  pub error_class : Option String
  pub payload : List (String × String)
  pub created_at : Time

pub record NotificationDestination : Type 0 where
  pub name : String
  pub channel : String
  pub kind : String
  pub webhook_url : String
  pub source_types : List String
  pub event_types : List String
  pub enabled : Bool
  pub created_at : Time

-- the settings of api/app/config.py that alerting reads
pub record Settings : Type 0 where
  pub alert_dedupe_window_s : ℤ
  pub alert_throttle_window_s : ℤ
  pub alert_throttle_max_notifications : ℤ
  pub alert_quiet_hours_start : String
  pub alert_quiet_hours_end : String
  pub alert_quiet_hours_tz : String
  pub alert_webhook_url : Option String
  pub alert_webhook_kind : String

-- the JSON body of a webhook call, by the kind of its destination
pub data Body : Type 0 where
  slack discord : String → Body
  telegram : String → String → Body
  alert_fields : Alert → Body
  event_fields :
      String
      → Option String
      → String
      → String
      → String
      → String
      → List (String × String)
      → Time
      → Body

pub record Post : Type 0 where
  pub url : String
  pub body : Body

pub data Response : Type 0 where
  status : ℕ → Response
  -- the class of the exception that `requests.post` raises
  raised : String → Response

-- an observation of `record_alert_transition_metric`
pub record Transition : Type 0 where
  pub state : String
  pub alert_type : String
  pub severity : String

-- `notification_destinations` is `none` where the query for it raises, as before its migration.
pub record Session : Type 0 where
  pub devices : List Device
  pub alerts : List Alert
  pub alert_policies : List AlertPolicy
  pub notification_events : List NotificationEvent
  pub notification_destinations : Option (List NotificationDestination)
  pub next_id : ℕ
  pub transitions : List Transition
  -- the HTTP calls made so far, latest last
  pub posts : List Post

-- What the services call: the database's ordering, the time zones, and the network.
pub record World : Type 1 where
  pub sql : Sql
  -- hour and minute of a time in a zone, or `none` where `ZoneInfo` raises
  pub local_time : String → Time → Option (ℕ × ℕ)
  pub sha256_hex : String → String
  -- `s.upper()` and `s.lower()`
  pub upper : String → String
  pub lower : String → String
  -- the first `chat_id` of the URL's query, "" if it has none, or `none` where `urlsplit` raises
  pub chat_id : String → Option String
  -- the answer to a call, which may depend on all calls before it
  pub post : List Post → Post → Response
