-- ===== src/Alerting/Routing/Decision.antt =====
-- When `should_notify` lets a notification out (api/app/services/routing.py), said without its
-- early returns.
use edgewatch_telemetry.Prelude.{
  ℕ, ◌+◌, ◌-◌, ◌≤◌, ◌<◌, String, ◌≡◌, ◌↔◌, Bool, true, false, ◌&&◌, some, List, arith, ltb, leb,
  str_eq, eq_iff, count, Contains, count_none, count_none_of, refl, Bool-cases, inl, inr,
  Option-cases, count_congr, ◌∙◌,
}
use edgewatch_telemetry.Prelude.Time.{Time, seconds}
use edgewatch_telemetry.Alerting.{NotificationEvent, World}
use edgewatch_telemetry.Alerting.Routing.{
  AlertCandidate, RoutingPolicy, is_delivered_since, is_muted, in_quiet_hours, dedupe_hit,
  throttle_hit, decide,
}

-- `e` is a notification delivered for the device no more than `window` before `now`
abbrev pub is_recent : String → Time → ℕ → NotificationEvent → Bool
is_recent device_id now window e =
    str_eq e.device_id device_id && e.delivered && leb now (e.created_at + window)

is_recent_lem :
    (device_id : String) (now : Time) (window : ℕ) (e : NotificationEvent)
    → is_delivered_since device_id (now - window) e ≡ is_recent device_id now window e
is_recent_lem device_id now window e = ground arith

module _ (world : World) (policy : RoutingPolicy) (candidate : AlertCandidate) (now : Time)
    (events : List NotificationEvent) where
  -- the conditions under which a notification may go out
  pub record IsDeliverable : Type 0 where
    pub enabled : policy.enabled ≡ true
    pub not_muted : (t : Time) → policy.alerts_muted_until ≡ some t → t ≤ now
    pub not_quiet :
        in_quiet_hours world.local_time now policy.quiet_hours_start_minute
          policy.quiet_hours_end_minute policy.quiet_hours_tz
        ≡ false
    -- nothing of this type has been delivered for the device within the dedupe window
    pub not_repeated :
        0 < policy.dedupe_window_s
        → (e : NotificationEvent) → Contains e events
        → e.alert_type ≡ candidate.alert_type
        → is_recent candidate.device_id now (seconds policy.dedupe_window_s) e ≡ false
    -- fewer than the allowed number have been delivered for the device within the throttle window
    pub not_throttled :
        0 < policy.throttle_window_s
        → 0 < policy.throttle_max_notifications
        → count (is_recent candidate.device_id now (seconds policy.throttle_window_s)) events
          < policy.throttle_max_notifications

  -- the events that `dedupe_hit` counts
  abbrev repeats : NotificationEvent → Bool
  repeats e =
      str_eq e.alert_type candidate.alert_type
      && is_delivered_since candidate.device_id (now - seconds policy.dedupe_window_s) e

  dedupe_miss :
      dedupe_hit policy candidate now events ≡ false
      → 0 < policy.dedupe_window_s
      → (e : NotificationEvent) → Contains e events
      → e.alert_type ≡ candidate.alert_type
      → is_recent candidate.device_id now (seconds policy.dedupe_window_s) e ≡ false
  unfolding dedupe_hit
  dedupe_miss h w e m t = ground (
    arith,
    count_none repeats events e (ground arith) m,
    eq_iff e.alert_type candidate.alert_type,
    is_recent_lem candidate.device_id now (seconds policy.dedupe_window_s) e,
  )

  dedupe_miss_of :
      (0 < policy.dedupe_window_s
        → (e : NotificationEvent) → Contains e events
        → e.alert_type ≡ candidate.alert_type
        → is_recent candidate.device_id now (seconds policy.dedupe_window_s) e ≡ false)
      → dedupe_hit policy candidate now events ≡ false
  unfolding dedupe_hit
  dedupe_miss_of h = elim (Bool-cases (ltb 0 policy.dedupe_window_s)) [
    | inr off ↦ ground arith
    | inl on ↦ ground (
      arith,
      count_none_of repeats events (λ e m.
          elim (Bool-cases (str_eq e.alert_type candidate.alert_type)) [
            | inr other ↦ ground arith
            | inl same ↦ ground (
              arith,
              h (ground arith) e m ((eq_iff e.alert_type candidate.alert_type).0 same),
              is_recent_lem candidate.device_id now (seconds policy.dedupe_window_s) e,
            )
          ]),
    )
  ]

  throttle_lem : throttle_hit policy candidate now events ≡ (
      ltb 0 policy.throttle_window_s
      && ltb 0 policy.throttle_max_notifications
      && leb policy.throttle_max_notifications
          (count (is_recent candidate.device_id now (seconds policy.throttle_window_s)) events))
  unfolding throttle_hit
  throttle_lem = rw (
      count_congr _ _ events
        (is_recent_lem candidate.device_id now (seconds policy.throttle_window_s)))

  throttle_miss :
      (0 < policy.throttle_window_s
        → 0 < policy.throttle_max_notifications
        → count (is_recent candidate.device_id now (seconds policy.throttle_window_s)) events
          < policy.throttle_max_notifications)
      → (ltb 0 policy.throttle_window_s
          && ltb 0 policy.throttle_max_notifications
          && leb policy.throttle_max_notifications
              (count (is_recent candidate.device_id now (seconds policy.throttle_window_s)) events))
        ≡ false
  throttle_miss h = ground arith

  decide_tests :
      (channel : String)
      → ((decide world policy candidate now channel events).should_notify ≡ true) ↔ (
          (policy.enabled ≡ true)
          × (is_muted policy now ≡ false)
          × (in_quiet_hours world.local_time now policy.quiet_hours_start_minute
                policy.quiet_hours_end_minute policy.quiet_hours_tz
              ≡ false)
          × (dedupe_hit policy candidate now events ≡ false)
          × (throttle_hit policy candidate now events ≡ false))
  unfolding decide
  decide_tests channel = (λ h. ground arith, λ h. ground arith)

  not_muted_of :
      is_muted policy now ≡ false → (t : Time) → policy.alerts_muted_until ≡ some t → t ≤ now
  unfolding is_muted
  not_muted_of h t e = ground arith

  is_muted_of :
      ((t : Time) → policy.alerts_muted_until ≡ some t → t ≤ now) → is_muted policy now ≡ false
  unfolding is_muted
  is_muted_of h = elim (Option-cases policy.alerts_muted_until) [
    | inl e ↦ rw e refl
    | inr (t, e) ↦ rw e (ground (arith, h t e))
  ]

  -- `decide` lets the notification out exactly if the policy is enabled, no mute is running, it is
  -- not in quiet hours, nothing of its type has been delivered for the device within the dedupe
  -- window (if that is not 0), and fewer than the maximum have been delivered for the device within
  -- the throttle window (if neither is 0).
  pub decide_iff :
      (channel : String)
      → ((decide world policy candidate now channel events).should_notify ≡ true) ↔ IsDeliverable
  decide_iff channel = (
    λ h.
        let (on, loud, awake, new, below) = (decide_tests channel).0 h in
        record {
          enabled = on;
          not_muted = not_muted_of loud;
          not_quiet = awake;
          not_repeated = dedupe_miss new;
          not_throttled = λ w m. ground (arith, throttle_lem);
        },
    λ d. (decide_tests channel).1 (
      d.enabled,
      is_muted_of d.not_muted,
      d.not_quiet,
      dedupe_miss_of d.not_repeated,
      throttle_lem ∙ throttle_miss d.not_throttled,
    ),
  )
