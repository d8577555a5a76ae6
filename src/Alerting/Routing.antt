-- ===== src/Alerting/Routing.antt =====
-- api/app/services/routing.py: may a notification about an alert go out now?
pub mod QuietHours
pub mod Decision
use edgewatch_telemetry.Prelude.{
  ℕ, ◌+◌, ◌-◌, ◌*◌, ◌/◌, ◌%◌, String, Bool, true, false, not, ◌&&◌, ◌||◌, Option, none, some, List,
  [], ◌∷◌, ltb, leb, str_eq, count, filter, is_some, if◌then◌else◌,
}
use Prim.Native.String.{◌++◌}
use edgewatch_telemetry.Prelude.Int.{ℤ, pos, pos_part, ltb_ℤ, leb_ℤ, clamp_nonneg}
use edgewatch_telemetry.Prelude.Text.{strip, split, parse_int}
use edgewatch_telemetry.Prelude.Time.{Time, seconds}
use edgewatch_telemetry.Prelude.Sql.{Sql}
use edgewatch_telemetry.Alerting.{Device, AlertPolicy, NotificationEvent, Settings, Session, World}

pub record AlertCandidate : Type 0 where
  pub alert_id : ℕ
  pub device_id : String
  pub alert_type : String
  pub severity : String
  pub message : String

pub record RoutingPolicy : Type 0 where
  pub dedupe_window_s : ℕ
  pub throttle_window_s : ℕ
  pub throttle_max_notifications : ℕ
  pub quiet_hours_start_minute : Option ℤ
  pub quiet_hours_end_minute : Option ℤ
  pub quiet_hours_tz : String
  pub enabled : Bool
  pub alerts_muted_until : Option Time
  pub alerts_muted_reason : Option String
  pub policy_id : Option ℕ

pub record RoutingDecision : Type 0 where
  pub should_notify : Bool
  pub decision : String
  pub reason : String
  pub channel : String
  pub policy_id : Option ℕ

-- hh:mm as its minute of the day, from the values of the two parts
hhmm_value : Option ℤ → Option ℤ → Option ℤ
hhmm_value (some hh) (some mm) =
    if ltb_ℤ hh (pos 0) || ltb_ℤ (pos 23) hh || ltb_ℤ mm (pos 0) || ltb_ℤ (pos 59) mm
    then none
    else some (pos (pos_part hh * 60 + pos_part mm))
hhmm_value _ _ = none

parse_parts : List String → Option ℤ
unfolding hhmm_value parse_int
parse_parts (h ∷ m ∷ []) = hhmm_value (parse_int h) (parse_int m)
parse_parts _ = none

unfoldable pub parse_hhmm : Option String → Option ℤ
unfolding parse_parts strip split
parse_hhmm none = none
parse_hhmm (some value) =
    let raw = strip value in if str_eq raw "" then none else parse_parts (split b':' raw)

-- the minute of the day in UTC, where midnight is a multiple of a day
unfoldable pub utc_minute : Time → ℕ
utc_minute now = (now / 60000000) % 1440

-- `local_now.hour * 60 + local_now.minute`, in UTC where the zone is unknown
unfoldable pub minute_of_day : (String → Time → Option (ℕ × ℕ)) → String → Time → ℕ
unfolding utc_minute
minute_of_day local_time tz now = elim (local_time tz now) [
  | none ↦ utc_minute now
  | some (h, m) ↦ h * 60 + m
]

-- is the minute in the window from `start` to `end`, which may cross midnight?
unfoldable pub in_window : ℤ → ℤ → ℤ → Bool
in_window start end minute =
    if leb_ℤ start end && leb_ℤ end start
    then false
    else if ltb_ℤ start end
    then leb_ℤ start minute && ltb_ℤ minute end
    else leb_ℤ start minute || ltb_ℤ minute end

unfoldable pub in_quiet_hours :
    (String → Time → Option (ℕ × ℕ)) → Time → Option ℤ → Option ℤ → String → Bool
in_quiet_hours local_time now (some start) (some end) tz_name =
    in_window start end (pos (minute_of_day local_time tz_name now))
in_quiet_hours local_time now _ _ tz_name = false

unfoldable pub default_policy : Settings → RoutingPolicy
unfolding parse_hhmm
default_policy settings = record {
  dedupe_window_s = clamp_nonneg settings.alert_dedupe_window_s;
  throttle_window_s = clamp_nonneg settings.alert_throttle_window_s;
  throttle_max_notifications = clamp_nonneg settings.alert_throttle_max_notifications;
  quiet_hours_start_minute = parse_hhmm (some settings.alert_quiet_hours_start);
  quiet_hours_end_minute = parse_hhmm (some settings.alert_quiet_hours_end);
  quiet_hours_tz = settings.alert_quiet_hours_tz;
  enabled = true;
  alerts_muted_until = none;
  alerts_muted_reason = none;
  policy_id = none;
}

-- `query.filter(Device.device_id == device_id).one_or_none()`; the key is unique
unfoldable pub find_device : String → List Device → Option Device
find_device device_id [] = none
find_device device_id (d ∷ ds) =
    let rest = find_device device_id ds in if str_eq d.device_id device_id then some d else rest

-- the policy row of the device, which is unique
find_policy : String → List AlertPolicy → Option AlertPolicy
find_policy device_id [] = none
find_policy device_id (p ∷ ps) =
    let rest = find_policy device_id ps in
    elim p.device_id [ none ↦ rest | some id ↦ if str_eq id device_id then some p else rest ]

is_global : AlertPolicy → Bool
is_global p = elim p.device_id [ none ↦ true | some _ ↦ false ]

-- `str(reason).strip() if reason else None`
muted_reason : Option String → Option String
muted_reason none = none
muted_reason (some reason) = if str_eq reason "" then none else some (strip reason)

from_row : Option Time → Option String → AlertPolicy → RoutingPolicy
from_row until reason row = record {
  dedupe_window_s = clamp_nonneg row.dedupe_window_s;
  throttle_window_s = clamp_nonneg row.throttle_window_s;
  throttle_max_notifications = clamp_nonneg row.throttle_max_notifications;
  quiet_hours_start_minute = row.quiet_hours_start_minute;
  quiet_hours_end_minute = row.quiet_hours_end_minute;
  quiet_hours_tz = row.quiet_hours_tz;
  enabled = row.enabled;
  alerts_muted_until = until;
  alerts_muted_reason = reason;
  policy_id = some row.id;
}

choose_policy : RoutingPolicy → Option Time → Option String → Option AlertPolicy → RoutingPolicy
unfolding from_row
choose_policy default until reason none = record default {
  alerts_muted_until = until;
  alerts_muted_reason = reason;
}
choose_policy default until reason (some row) = from_row until reason row

unfoldable pub load_policy : Settings → Sql → Session → String → RoutingPolicy
unfolding find_device find_policy is_global muted_reason choose_policy default_policy
load_policy settings sql session device_id =
    let device = find_device device_id session.devices in
    let until : Option Time = elim device [ none ↦ none | some d ↦ d.alerts_muted_until ] in
    let reason : Option String = elim device [
      | none ↦ none
      | some d ↦ muted_reason d.alerts_muted_reason
    ] in
    let row : Option AlertPolicy = elim (find_policy device_id session.alert_policies) [
      | some p ↦ some p
      | none ↦ sql.newest AlertPolicy (λ p. p.created_at) (filter is_global session.alert_policies)
    ] in
    choose_policy (default_policy settings) until reason row

-- a delivered notification for the device since the cutoff
abbrev pub is_delivered_since : String → Time → NotificationEvent → Bool
is_delivered_since device_id cutoff e =
    str_eq e.device_id device_id && e.delivered && leb cutoff e.created_at

unfoldable pub dedupe_hit : RoutingPolicy → AlertCandidate → Time → List NotificationEvent → Bool
dedupe_hit policy candidate now events =
    ltb 0 policy.dedupe_window_s
    && ltb 0 (
        count
          (λ e.
            str_eq e.alert_type candidate.alert_type
            && is_delivered_since candidate.device_id (now - seconds policy.dedupe_window_s) e)
          events)

unfoldable pub throttle_hit : RoutingPolicy → AlertCandidate → Time → List NotificationEvent → Bool
throttle_hit policy candidate now events =
    ltb 0 policy.throttle_window_s
    && ltb 0 policy.throttle_max_notifications
    && leb policy.throttle_max_notifications (
        count (is_delivered_since candidate.device_id (now - seconds policy.throttle_window_s))
          events)

-- `now < alerts_muted_until`
unfoldable pub is_muted : RoutingPolicy → Time → Bool
is_muted policy now = elim policy.alerts_muted_until [ none ↦ false | some t ↦ ltb now t ]

unfoldable pub muted_text : Option String → String
muted_text none = "alerts muted"
muted_text (some reason) = if str_eq reason "" then "alerts muted" else "alerts muted: " ++ reason

suppressed : String → String → String → RoutingPolicy → RoutingDecision
suppressed decision reason channel policy = record {
  should_notify = false;
  decision = decision;
  reason = reason;
  channel = channel;
  policy_id = policy.policy_id;
}

-- `should_notify` once the policy is loaded
unfoldable pub decide :
    World
    → RoutingPolicy
    → AlertCandidate
    → Time
    → String
    → List NotificationEvent
    → RoutingDecision
unfolding suppressed
decide world policy candidate now channel events =
    if not policy.enabled
    then suppressed "suppressed_disabled" "alert policy disabled" channel policy
    else if is_muted policy now
    then suppressed "suppressed_muted" (muted_text policy.alerts_muted_reason) channel policy
    else if in_quiet_hours world.local_time now policy.quiet_hours_start_minute
        policy.quiet_hours_end_minute policy.quiet_hours_tz
    then suppressed "suppressed_quiet_hours" "quiet hours active" channel policy
    else if dedupe_hit policy candidate now events
    then suppressed "suppressed_dedupe" "dedupe window" channel policy
    else if throttle_hit policy candidate now events
    then suppressed "suppressed_throttle" "throttle limit reached" channel policy
    else record {
      should_notify = true;
      decision = "deliver";
      reason = "policy allows delivery";
      channel = channel;
      policy_id = policy.policy_id;
    }

unfoldable pub should_notify :
    World → Settings → Session → AlertCandidate → Time → String → RoutingDecision
should_notify world settings session candidate now channel =
    decide world (load_policy settings world.sql session candidate.device_id) candidate now channel
      session.notification_events
