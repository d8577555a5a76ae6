-- ===== src/Alerting/Notify/Destinations.antt =====
-- The configured destinations of api/app/services/notifications.py.
use edgewatch_telemetry.Prelude.{
  String, not, ◌||◌, none, some, List, [], ◌∷◌, map, filter, str_eq, if◌then◌else◌,
}
use edgewatch_telemetry.Prelude.Text.{strip}
use edgewatch_telemetry.Alerting.{NotificationDestination, Settings, Session, World}
use edgewatch_telemetry.Alerting.Notify.{NotificationDestinationConfig, is_in}

-- `_fingerprint_destination(raw) or ""`
unfoldable pub destination_fingerprint : (String → String) → String → String
destination_fingerprint sha256_hex raw = if str_eq raw "" then "" else sha256_hex raw

-- `tuple(str(v).strip() for v in values if str(v).strip())`
unfoldable pub strip_all : List String → List String
strip_all values = filter (λ v. not (str_eq v "")) (map strip values)

-- `row.source_types or ["alert"]`
unfoldable pub or_alert : List String → List String
or_alert [] = "alert" ∷ []
or_alert (v ∷ vs) = v ∷ vs

unfoldable pub config_of : String → String → NotificationDestination → NotificationDestinationConfig
unfolding strip_all or_alert
config_of webhook_url fp row = record {
  name = row.name;
  channel = row.channel;
  kind = row.kind;
  webhook_url = webhook_url;
  source_types = strip_all (or_alert row.source_types);
  event_types = strip_all row.event_types;
  destination_fingerprint = fp;
}

-- the loop over the rows, with the fingerprints seen so far
unfoldable pub collect :
    (String → String)
    → List String
    → List NotificationDestination
    → List NotificationDestinationConfig
unfolding config_of destination_fingerprint
collect sha256_hex seen [] = []
collect sha256_hex seen (row ∷ rows) =
    let webhook_url = strip row.webhook_url in
    let fp = destination_fingerprint sha256_hex webhook_url in
    let skip = collect sha256_hex seen rows in
    let take = config_of webhook_url fp row ∷ collect sha256_hex (fp ∷ seen) rows in
    if str_eq webhook_url "" || str_eq fp "" || is_in fp seen then skip else take

-- the destination of the environment's settings
unfoldable pub env_destination : World → Settings → List NotificationDestinationConfig
unfolding destination_fingerprint
env_destination world settings =
    let url : String = strip (elim settings.alert_webhook_url [ none ↦ "" | some u ↦ u ]) in
    let fp = destination_fingerprint world.sha256_hex url in
    if str_eq url "" || str_eq fp ""
    then []
    else record {
      name = "env-default";
      channel = "webhook";
      kind = settings.alert_webhook_kind;
      webhook_url = url;
      source_types = "alert" ∷ [];
      event_types = [];
      destination_fingerprint = fp;
    }
      ∷ []

unfoldable pub or_else :
    List NotificationDestinationConfig
    → List NotificationDestinationConfig
    → List NotificationDestinationConfig
or_else [] fallback = fallback
or_else (d ∷ ds) fallback = d ∷ ds

unfoldable pub configured_destinations :
    World → Settings → Session → List NotificationDestinationConfig
unfolding collect env_destination or_else
configured_destinations world settings session =
    let rows : List NotificationDestination = elim session.notification_destinations [
      | none ↦ []
      | some all ↦
          world.sql.oldest_first NotificationDestination (λ d. d.created_at)
            (filter (λ d. d.enabled) all)
    ] in
    or_else (collect world.sha256_hex [] rows) (env_destination world settings)
