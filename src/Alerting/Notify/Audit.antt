-- ===== src/Alerting/Notify/Audit.antt =====
-- What processing an alert leaves behind (api/app/services/notifications.py): the rows of the audit
-- trail, and nothing else of the database.
use edgewatch_telemetry.Prelude.{
  ℕ, max, ◌≡◌, refl, some, List, [], ◌∷◌, ◌++◌, arith, ltb, count, length, length-append,
  if◌then◌else◌, Bool-cases, inl, inr,
}
use mathlib.Core.List.{append-nil, append_assoc}
use edgewatch_telemetry.Prelude.Time.{Time}
use edgewatch_telemetry.Prelude.Sql.{AllRows}
use edgewatch_telemetry.Alerting.{Alert, NotificationEvent, Session, Settings, World, Post}
use edgewatch_telemetry.Alerting.Routing.{should_notify}
use edgewatch_telemetry.Alerting.Notify.{NotificationDestinationConfig, record_event}
use edgewatch_telemetry.Alerting.Notify.Destinations.{configured_destinations}
use edgewatch_telemetry.Alerting.Notify.Webhook.{deliver}
use edgewatch_telemetry.Alerting.Notify.Process.{
  is_matching, delivery_event, deliver_to, deliver_or_record, process_to,
  process_alert_notification, candidate_of, alert_event, no_match_event, no_adapter_event,
  suppressed_event,
}

-- a row about the alert, recorded at `now`
abbrev pub IsRowOf : Alert → Time → NotificationEvent → Type 0
IsRowOf alert now e =
    (e.alert_id ≡ some alert.id)
    × (e.device_id ≡ alert.device_id)
    × (e.alert_type ≡ alert.alert_type)
    × (e.source_kind ≡ "alert")
    × (e.created_at ≡ now)

-- the session, with more notification events and more HTTP calls
abbrev pub with_trail : Session → List NotificationEvent → List Post → Session
with_trail s events posts = record s { notification_events = events; posts = posts }

module _ (world : World) (alert : Alert) (now : Time) where
  pub deliver-keeps :
      (d : NotificationDestinationConfig) (s : Session)
      → (deliver world d alert s).1
        ≡ with_trail s s.notification_events (deliver world d alert s).1.posts
  unfolding deliver
  deliver-keeps d s = ground arith

  -- the rows of the destinations that match, in their order
  pub rows_to : List NotificationDestinationConfig → Session → List NotificationEvent
  rows_to [] s = []
  rows_to (d ∷ ds) s =
      let sent = deliver world d alert s in
      let row = delivery_event alert now d sent.0 in
      if is_matching "alert" alert.alert_type d
      then row ∷ rows_to ds (record_event row sent.1)
      else rows_to ds s

  pub deliver_to-trail :
      (ds : List NotificationDestinationConfig) (s : Session)
      → (deliver_to world alert now ds s).1
        ≡ with_trail s
            (s.notification_events ++ rows_to ds s)
            (deliver_to world alert now ds s).1.posts
  unfolding deliver_to rows_to record_event
  deliver_to-trail [] s = rw append-nil refl
  deliver_to-trail (d ∷ ds) s =
      let (result, s') = deliver world d alert s in
      let row = delivery_event alert now d result in
      elim (Bool-cases (is_matching "alert" alert.alert_type d)) [
        | inr skipped ↦ rw skipped (deliver_to-trail ds s)
        | inl wanted ↦ rw wanted (
            ground (
              arith,
              deliver-keeps d s,
              deliver_to-trail ds (record_event row s'),
              append_assoc s.notification_events (row ∷ []) (rows_to ds (record_event row s')),
            ))
      ]

  pub length-rows_to :
      (ds : List NotificationDestinationConfig) (s : Session)
      → length (rows_to ds s) ≡ count (is_matching "alert" alert.alert_type) ds
  unfolding rows_to
  length-rows_to [] s = refl
  length-rows_to (d ∷ ds) s =
      let (result, s') = deliver world d alert s in
      ground (
        arith,
        length-rows_to ds s,
        length-rows_to ds (record_event (delivery_event alert now d result) s'),
      )

  pub rows_to-IsRowOf :
      (ds : List NotificationDestinationConfig) (s : Session)
      → AllRows (IsRowOf alert now) (rows_to ds s)
  unfolding rows_to delivery_event alert_event
  rows_to-IsRowOf [] s = tt
  rows_to-IsRowOf (d ∷ ds) s =
      let (result, s') = deliver world d alert s in
      elim (Bool-cases (is_matching "alert" alert.alert_type d)) [
        | inr skipped ↦ rw skipped (rows_to-IsRowOf ds s)
        | inl wanted ↦ rw wanted (
          (refl, refl, refl, refl, refl),
          rows_to-IsRowOf ds (record_event (delivery_event alert now d result) s'),
        )
      ]

  pub matched-deliver_to :
      (ds : List NotificationDestinationConfig) (s : Session)
      → (deliver_to world alert now ds s).0
        ≡ ltb 0 (count (is_matching "alert" alert.alert_type) ds)
  unfolding deliver_to
  matched-deliver_to [] s = refl
  matched-deliver_to (d ∷ ds) s = ground (
    arith,
    matched-deliver_to ds s,
    matched-deliver_to ds (
        record_event (delivery_event alert now d (deliver world d alert s).0)
          (deliver world d alert s).1),
  )

-- What a step that only notifies leaves of the session: new rows behind the old ones, `n` of them,
-- each about the alert, and perhaps HTTP calls.
abbrev pub Trail : Alert → Time → ℕ → Session → Session → Type 0
Trail alert now n s s' =
    (rows : List NotificationEvent) × (s' ≡ with_trail s (s.notification_events ++ rows) s'.posts)
    × (length rows ≡ n)
    × AllRows (IsRowOf alert now) rows

AllRows-append :
    {A : Type 0} (P : A → Type 0) (xs ys : List A)
    → AllRows P xs
    → AllRows P ys
    → AllRows P (xs ++ ys)
AllRows-append P [] ys h k = k
AllRows-append P (x ∷ xs) ys h k = (h.0, AllRows-append P xs ys h.1 k)

record_event-Trail :
    (alert : Alert) (now : Time) (e : NotificationEvent) (s : Session)
    → IsRowOf alert now e
    → Trail alert now 1 s (record_event e s)
unfolding record_event
record_event-Trail alert now e s h = (e ∷ [], refl, refl, (h, tt))

module _ (world : World) (alert : Alert) (now : Time) where
  deliver_or_record-Trail :
      (ds : List NotificationDestinationConfig) (s : Session)
      → Trail alert now
          (max 1 (count (is_matching "alert" alert.alert_type) ds))
          s
          (deliver_or_record world alert now ds s)
  unfolding deliver_or_record record_event alert_event
  deliver_or_record-Trail ds s =
      let rows = rows_to world alert now ds s in
      elim (Bool-cases (ltb 0 (count (is_matching "alert" alert.alert_type) ds))) [
        | inl some_match ↦ (
          rows,
          ground (
            arith,
            matched-deliver_to world alert now ds s,
            deliver_to-trail world alert now ds s,
          ),
          ground (arith, length-rows_to world alert now ds s),
          rows_to-IsRowOf world alert now ds s,
        )
        | inr no_match ↦ (
          rows ++ no_match_event alert now ∷ [],
          ground (
            arith,
            matched-deliver_to world alert now ds s,
            deliver_to-trail world alert now ds s,
            append_assoc s.notification_events rows (no_match_event alert now ∷ []),
          ),
          ground (
            arith,
            length-rows_to world alert now ds s,
            length-append rows (no_match_event alert now ∷ []),
          ),
          AllRows-append (IsRowOf alert now) rows (no_match_event alert now ∷ [])
              (rows_to-IsRowOf world alert now ds s) ((refl, refl, refl, refl, refl), tt),
        )
      ]

  process_to-Trail :
      (settings : Settings) (ds : List NotificationDestinationConfig) (s : Session)
      → Trail alert now
          (max 1 (
            if (should_notify world settings s (candidate_of alert) now "webhook").should_notify
            then count (is_matching "alert" alert.alert_type) ds
            else 0))
          s
          (process_to world settings alert now ds s)
  unfolding process_to no_adapter_event suppressed_event
  process_to-Trail settings [] s =
      let one : max 1 (
            if (should_notify world settings s (candidate_of alert) now "webhook").should_notify
            then 0
            else 0)
          ≡ 1 =
        ground arith in
      rw one
        (record_event-Trail alert now (no_adapter_event alert now) s (refl, refl, refl, refl, refl))
  process_to-Trail settings (d ∷ ds) s =
      let decision = should_notify world settings s (candidate_of alert) now "webhook" in
      elim (Bool-cases decision.should_notify) [
        | inl allowed ↦ rw allowed (deliver_or_record-Trail (d ∷ ds) s)
        | inr refused ↦ rw refused (
            record_event-Trail alert now (suppressed_event alert now decision) s
              (refl, refl, refl, refl, refl))
      ]

  -- Processing an alert adds notification events, every one about this alert and dated `now`, and
  -- changes no other table: as many events as configured destinations match if `should_notify`
  -- allows the notification, and never fewer than one.
  pub process_alert_notification-Trail :
      (settings : Settings) (s : Session)
      → Trail alert now
          (max 1 (
            if (should_notify world settings s (candidate_of alert) now "webhook").should_notify
            then count
                (is_matching "alert" alert.alert_type)
                (configured_destinations world settings s)
            else 0))
          s
          (process_alert_notification world settings alert now s)
  unfolding process_alert_notification
  process_alert_notification-Trail settings s =
      process_to-Trail settings (configured_destinations world settings s) s
