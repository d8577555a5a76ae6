-- ===== src/Alerting/Notify/Webhook.antt =====
-- The webhook adapter of api/app/services/notifications.py.
use edgewatch_telemetry.Prelude.{
  Bool, ◌||◌, String, true, false, ◌&&◌, Option, none, some, [], ◌∷◌, ◌++◌, leb, ltb, str_eq,
  if◌then◌else◌,
}
use Prim.Native.String.{◌++◌ as ◌+++◌}
use edgewatch_telemetry.Prelude.Int.{pos}
use edgewatch_telemetry.Prelude.Text.{strip, show}
use edgewatch_telemetry.Alerting.{Alert, Body, Post, Response, Session, World}
use edgewatch_telemetry.Alerting.Notify.{
  DeliveryResult, NotificationDestinationConfig, PlatformEvent,
}

-- the JSON body of a call for a destination kind, or `none` where a telegram URL has no chat id
unfoldable pub body_for : String → String → String → Body → Option Body
body_for kind message chat_id otherwise =
    if str_eq kind "slack"
    then some (Body.slack message)
    else if str_eq kind "discord"
    then some (Body.discord message)
    else if str_eq kind "telegram"
    then (if str_eq chat_id "" then none else some (Body.telegram chat_id message))
    else some otherwise

unfoldable pub missing_chat_id : DeliveryResult
missing_chat_id = record {
  delivered = false;
  decision = "delivery_failed";
  reason = "telegram chat_id missing in webhook URL query";
  error_class = some "MISSING_CHAT_ID";
}

-- what the caller's `except Exception` makes of an exception
unfoldable pub delivery_exception : String → DeliveryResult
delivery_exception class_name = record {
  delivered = false;
  decision = "delivery_failed";
  reason = "exception while delivering";
  error_class = some class_name;
}

unfoldable pub result_of : Response → DeliveryResult
unfolding delivery_exception
result_of (Response.status code) =
    if leb 200 code && ltb code 300
    then record {
      delivered = true;
      decision = "delivered";
      reason = "webhook delivered";
      error_class = none;
    }
    else record {
      delivered = false;
      decision = "delivery_failed";
      reason = "webhook non-success response";
      error_class = some ("HTTP_" +++ show (pos code));
    }
result_of (Response.raised class_name) = delivery_exception class_name

-- `requests.post`, with the result that the adapter and its caller make of the answer
unfoldable pub send : World → String → Option Body → Session → DeliveryResult × Session
unfolding missing_chat_id result_of
send world url none session = (missing_chat_id, session)
send world url (some body) session =
    let request : Post = record { url = url; body = body } in
    (
      result_of (world.post session.posts request),
      record session { posts = session.posts ++ request ∷ [] },
    )

-- Both `deliver` methods read the URL's query only for telegram; a URL that `urlsplit` refuses
-- raises ValueError there.
unfoldable pub deliver_body :
    World → String → String → String → Body → Session → DeliveryResult × Session
unfolding body_for delivery_exception send
deliver_body world kind url message otherwise session = elim (world.chat_id url) [
  | some chat_id ↦ send world url (body_for kind message (strip chat_id) otherwise) session
  | none ↦
      if str_eq kind "telegram"
      then (delivery_exception "ValueError", session)
      else send world url (body_for kind message "" otherwise) session
]

-- `WebhookNotificationAdapter.deliver`, with the exceptions that its caller catches
unfoldable pub deliver :
    World → NotificationDestinationConfig → Alert → Session → DeliveryResult × Session
unfolding deliver_body
deliver world destination alert session =
    let message =
      "["
      +++ world.upper alert.severity
      +++ "] "
      +++ alert.alert_type
      +++ " for "
      +++ alert.device_id
      +++ ": "
      +++ alert.message in
    deliver_body world destination.kind destination.webhook_url message (Body.alert_fields alert)
      session

-- the kinds of destination whose body is the message alone
abbrev pub has_text_body : String → Bool
has_text_body kind = str_eq kind "slack" || str_eq kind "discord" || str_eq kind "telegram"

-- `event.created_at.isoformat()` raises AttributeError where there is no time; for the kinds whose
-- body is the message alone the body given for other kinds is not used.
unfoldable pub deliver_platform_event :
    World → NotificationDestinationConfig → PlatformEvent → Session → DeliveryResult × Session
unfolding deliver_body delivery_exception
deliver_platform_event world destination event session =
    let message =
      "["
      +++ world.upper event.severity
      +++ "] "
      +++ event.event_type
      +++ " for "
      +++ event.device_id
      +++ ": "
      +++ event.message in
    elim event.created_at [
      | some created_at ↦
          deliver_body world destination.kind destination.webhook_url message
            (Body.event_fields event.source_kind event.source_id event.device_id event.event_type
              event.severity event.message event.payload created_at)
            session
      | none ↦
          if has_text_body destination.kind
          then deliver_body world destination.kind destination.webhook_url message
              (Body.slack message) session
          else (delivery_exception "AttributeError", session)
    ]
