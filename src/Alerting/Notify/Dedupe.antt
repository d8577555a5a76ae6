-- ===== src/Alerting/Notify/Dedupe.antt =====
-- Deduplication end to end: what one delivered notification silences (api/app/services/routing.py
-- with api/app/services/notifications.py).
use mathlib.Core.Path.{subst}
use edgewatch_telemetry.Prelude.{
  ◌+◌, ◌≤◌, ◌<◌, String, ◌≡◌, refl, sym, ap, ◌∙◌, Bool, true, false, ◌&&◌, List, [], ◌∷◌, ◌++◌,
  arith, count, count-append, Contains, str_eq, eq_iff, Bool-cases, inl, inr,
}
use edgewatch_telemetry.Prelude.Time.{Time, seconds}
use edgewatch_telemetry.Prelude.Sql.{AllRows}
use edgewatch_telemetry.Alerting.{Alert, NotificationEvent, Session, Settings, World, Post}
use edgewatch_telemetry.Alerting.Routing.{load_policy, decide, should_notify}
use edgewatch_telemetry.Alerting.Routing.Decision.{decide_iff}
use edgewatch_telemetry.Alerting.Notify.{NotificationDestinationConfig, record_event}
use edgewatch_telemetry.Alerting.Notify.Destinations.{configured_destinations}
use edgewatch_telemetry.Alerting.Notify.Process.{
  process_to, process_alert_notification, candidate_of,
}
use edgewatch_telemetry.Alerting.Notify.Audit.{
  IsRowOf, process_alert_notification-Trail, with_trail,
}

-- a delivered notification about an alert of the type, for the device
abbrev pub is_delivery : String → String → NotificationEvent → Bool
is_delivery device_id alert_type e =
    str_eq e.device_id device_id && str_eq e.alert_type alert_type && e.delivered

module _ (world : World) (settings : Settings) where
  silent_when_refused :
      (alert : Alert) (now : Time) (ds : List NotificationDestinationConfig) (s : Session)
      → (should_notify world settings s (candidate_of alert) now "webhook").should_notify ≡ false
      → (process_to world settings alert now ds s).posts ≡ s.posts
  unfolding process_to record_event
  silent_when_refused alert now [] s h = refl
  silent_when_refused alert now (d ∷ ds) s h = rw h refl

  -- A delivered notification of the same type for the device, no older than the dedupe window,
  -- refuses the next one.
  refused_after_delivery :
      (alert : Alert) (now : Time) (s : Session) (e : NotificationEvent)
      → Contains e s.notification_events
      → is_delivery alert.device_id alert.alert_type e ≡ true
      → 0 < (load_policy settings world.sql s alert.device_id).dedupe_window_s
      → now
        ≤ e.created_at + seconds (load_policy settings world.sql s alert.device_id).dedupe_window_s
      → (should_notify world settings s (candidate_of alert) now "webhook").should_notify ≡ false
  unfolding should_notify
  refused_after_delivery alert now s e m d w recent =
      let policy = load_policy settings world.sql s alert.device_id in
      let answer = decide world policy (candidate_of alert) now "webhook" s.notification_events in
      elim (Bool-cases answer.should_notify) [
        | inr refused ↦ refused
        | inl allowed ↦
            let same = eq_iff e.alert_type alert.alert_type in
            let silent =
              ((decide_iff world policy (candidate_of alert) now s.notification_events "webhook").0
                  allowed).not_repeated
                w e m (same.0 (ground arith)) in
            absurd (ground (arith, silent))
      ]

  -- so nothing is sent
  silenced :
      (alert : Alert) (now : Time) (s : Session) (e : NotificationEvent)
      → Contains e s.notification_events
      → is_delivery alert.device_id alert.alert_type e ≡ true
      → 0 < (load_policy settings world.sql s alert.device_id).dedupe_window_s
      → now
        ≤ e.created_at + seconds (load_policy settings world.sql s alert.device_id).dedupe_window_s
      → (process_alert_notification world settings alert now s).posts ≡ s.posts
  unfolding process_alert_notification
  silenced alert now s e m d w recent =
      silent_when_refused alert now (configured_destinations world settings s) s
        (refused_after_delivery alert now s e m d w recent)

  policy-with_trail :
      (s : Session) (events : List NotificationEvent) (posts : List Post) (device_id : String)
      → load_policy settings world.sql (with_trail s events posts) device_id
        ≡ load_policy settings world.sql s device_id
  unfolding load_policy
  policy-with_trail s events posts device_id = refl

  -- no policy is changed by processing an alert
  policy-process_alert_notification :
      (alert : Alert) (now : Time) (s : Session) (device_id : String)
      → load_policy settings world.sql
          (process_alert_notification world settings alert now s)
          device_id
        ≡ load_policy settings world.sql s device_id
  policy-process_alert_notification alert now s device_id =
      let (rows, trail, _, _) = process_alert_notification-Trail world alert now settings s in
      ap (λ (x : Session). load_policy settings world.sql x device_id) trail
      ∙ policy-with_trail s _ _ device_id

  -- an element that a count found
  found :
      (p : NotificationEvent → Bool) (P : NotificationEvent → Type 0) (xs : List NotificationEvent)
      → AllRows P xs
      → 0 < count p xs
      → (e : NotificationEvent) × Contains e xs × (p e ≡ true) × P e
  found p P [] h c = absurd (omega arith)
  found p P (x ∷ xs) h c = elim (Bool-cases (p x)) [
    | inl hit ↦ (x, inl refl, hit, h.0)
    | inr miss ↦ let (e, m, hit, pe) = found p P xs h.1 (ground arith) in (e, inr m, hit, pe)
  ]

  Contains-append_right :
      {A : Type 0} (a : A) (xs ys : List A) → Contains a ys → Contains a (xs ++ ys)
  Contains-append_right a [] ys m = m
  Contains-append_right a (x ∷ xs) ys m = inr (Contains-append_right a xs ys m)

  -- Let processing an alert at `now` deliver a notification: it adds a delivered event for the
  -- alert's device and type. Then processing a second alert of that device and type at a time from
  -- `now` to the end of the dedupe window of the device's policy makes no HTTP call, if that window
  -- is not 0.
  pub delivery_silences_repeats :
      (alert next : Alert) (now later : Time) (s : Session)
      → let s' = process_alert_notification world settings alert now s in
        let window = (load_policy settings world.sql s alert.device_id).dedupe_window_s in
        let deliveries = is_delivery alert.device_id alert.alert_type in
        count deliveries s.notification_events < count deliveries s'.notification_events
        → next.device_id ≡ alert.device_id
        → next.alert_type ≡ alert.alert_type
        → 0 < window
        → later ≤ now + seconds window
        → (process_alert_notification world settings next later s').posts ≡ s'.posts
  delivery_silences_repeats alert next now later s more dev typ w recent =
      let s' = process_alert_notification world settings alert now s in
      let deliveries = is_delivery alert.device_id alert.alert_type in
      let (rows, trail, _, about) = process_alert_notification-Trail world alert now settings s in
      let added : s'.notification_events ≡ s.notification_events ++ rows =
        ap (λ (x : Session). x.notification_events) trail in
      let some_row : 0 < count deliveries rows =
        ground (
          arith,
          ap (count deliveries) added,
          count-append deliveries s.notification_events rows,
        ) in
      let (e, m, hit, row) = found deliveries (IsRowOf alert now) rows about some_row in
      let policy : load_policy settings world.sql s' next.device_id
          ≡ load_policy settings world.sql s alert.device_id =
        policy-process_alert_notification alert now s next.device_id
        ∙ ap (load_policy settings world.sql s) dev in
      silenced next later s' e
        (subst (Contains e) (sym added) (Contains-append_right e s.notification_events rows m))
        (rw dev (rw typ hit)) (rw policy w) (rw policy (rw row.4 recent))
