-- ===== src/Alerting/Monitor/Offline.antt =====
-- The offline monitor of api/app/services/monitor.py.
use edgewatch_telemetry.Prelude.{
  ℕ, ◌<◌, max, String, ◌≡◌, refl, sym, ap, ◌∙◌, Bool, true, false, Option, List, [], ◌∷◌, map,
  filter, arith, count, length, length-filter, count_none_of, Contains, is_some, ◌==◌, Bool-cases,
  inl, inr,
}
use mathlib.Core.Path.{subst}
use text.Mathlib.TextPositions.{eq_refl}
use edgewatch_telemetry.Prelude.Time.{Time}
use edgewatch_telemetry.Alerting.{Device, Alert, Session, Settings, World}
use edgewatch_telemetry.Alerting.Monitor.{
  DeviceStatus, offline, compute_status, is_open, mark_resolved, resolve_alert, resolve_all,
  resolve_rows, is_status_online, resolve_offline_alert_if_any, open_or_create_offline_alert,
  ensure_offline_alert, apply_status,
}
use edgewatch_telemetry.Alerting.Monitor.Effects.{
  open_count, open_count-create_alert, open_alert_lem, Contains-filter,
}

-- what resolving the rows one after the other makes of an alert
mark_all : List Alert → Time → Alert → Alert
mark_all [] now x = x
mark_all (r ∷ rs) now x = mark_all rs now (mark_resolved r.id now x)

map-map :
    {A B C : Type 0} (g : B → C) (f : A → B) (xs : List A)
    → map g (map f xs) ≡ map (λ x. g (f x)) xs
map-map g f [] = refl
map-map g f (x ∷ xs) = ap (λ ys. g (f x) ∷ ys) (map-map g f xs)

Contains-count :
    {A : Type 0} (p : A → Bool) (x : A) (xs : List A) → Contains x xs → p x ≡ true → 0 < count p xs
Contains-count p x [] m h = absurd m
Contains-count p x (y ∷ ys) (inl e) h = rw (← e) (ground arith)
Contains-count p x (y ∷ ys) (inr m) h = ground (arith, Contains-count p x ys m h)

map_id : {A : Type 0} (xs : List A) → map (λ x. x) xs ≡ xs
map_id [] = refl
map_id (x ∷ xs) = ap (◌∷◌ x) (map_id xs)

alerts-resolve_alert :
    (r : Alert) (now : Time) (s : Session)
    → is_some r.resolved_at ≡ false
    → (resolve_alert r now s).alerts ≡ map (mark_resolved r.id now) s.alerts
unfolding resolve_alert
alerts-resolve_alert r now s h = rw h refl

module _ (d t : String) (now : Time) where
  closed_stays :
      (rs : List Alert) (x : Alert)
      → is_open d t x ≡ false
      → is_open d t (mark_all rs now x) ≡ false
  unfolding mark_all
  closed_stays [] x h = h
  closed_stays (r ∷ rs) x h = closed_stays rs (mark_resolved r.id now x) (ground arith)

  listed_closes :
      (rs : List Alert) (x : Alert) → Contains x rs → is_open d t (mark_all rs now x) ≡ false
  unfolding mark_all
  listed_closes [] x m = absurd m
  listed_closes (r ∷ rs) x (inl e) =
      closed_stays rs (mark_resolved r.id now x) (rw (← e) (ground arith))
  listed_closes (r ∷ rs) x (inr m) = elim (Bool-cases (x.id == r.id)) [
    | inl same ↦ closed_stays rs (mark_resolved r.id now x) (rw same (ground arith))
    | inr other ↦
        let same : mark_resolved r.id now x ≡ x = rw other refl in
        subst (λ y. is_open d t (mark_all rs now y) ≡ false) (sym same) (listed_closes rs x m)
  ]

  Contains-filter_of :
      (p : Alert → Bool) (x : Alert) (xs : List Alert)
      → Contains x xs
      → p x ≡ true
      → Contains x (filter p xs)
  Contains-filter_of p x [] m h = absurd m
  Contains-filter_of p x (y ∷ ys) (inl e) h = rw (← e) (rw h (inl refl))
  Contains-filter_of p x (y ∷ ys) (inr m) h = elim (Bool-cases (p y)) [
    | inl kept ↦ rw kept (inr (Contains-filter_of p x ys m h))
    | inr dropped ↦ rw dropped (Contains-filter_of p x ys m h)
  ]

  -- marking every open alert closes all of them
  closed_by_mark_all :
      (xs : List Alert) (x : Alert)
      → Contains x xs
      → is_open d t (mark_all (filter (is_open d t) xs) now x) ≡ false
  closed_by_mark_all xs x m = elim (Bool-cases (is_open d t x)) [
    | inl open_x ↦
        listed_closes (filter (is_open d t) xs) x (Contains-filter_of (is_open d t) x xs m open_x)
    | inr closed_x ↦ closed_stays (filter (is_open d t) xs) x closed_x
  ]

  count-map :
      (p : Alert → Bool) (f : Alert → Alert) (xs : List Alert)
      → count p (map f xs) ≡ count (λ x. p (f x)) xs
  count-map p f [] = refl
  count-map p f (x ∷ xs) = ground (arith, count-map p f xs)

  alerts-resolve_all :
      (rs : List Alert) (s : Session)
      → ((a : Alert) → Contains a rs → is_open d t a ≡ true)
      → (resolve_all rs now s).alerts ≡ map (mark_all rs now) s.alerts
  unfolding resolve_all mark_all
  alerts-resolve_all [] s h = sym (map_id s.alerts)
  alerts-resolve_all (r ∷ rs) s h =
      let open_r : is_open d t r ≡ true = h r (inl refl) in
      alerts-resolve_all rs (resolve_alert r now s) (λ a m. h a (inr m))
      ∙ ap (map (mark_all rs now)) (alerts-resolve_alert r now s (ground arith))
      ∙ map-map (mark_all rs now) (mark_resolved r.id now) s.alerts

  open_count-resolve_all :
      (s : Session) → open_count d t (resolve_all (filter (is_open d t) s.alerts) now s) ≡ 0
  open_count-resolve_all s =
      let rows = filter (is_open d t) s.alerts in
      rw (alerts-resolve_all rows s (λ a m. (Contains-filter (is_open d t) a s.alerts m).1)) (
        count-map (is_open d t) (mark_all rows now) s.alerts
        ∙ count_none_of (λ x. is_open d t (mark_all rows now x)) s.alerts
            (closed_by_mark_all s.alerts))

-- A step of the offline monitor for one device.
module _ (world : World) (settings : Settings) (seen_text : Option Time → String) (d : Device) where
  abbrev status_at : Time → DeviceStatus
  status_at now = (compute_status world.lower d now).0

  -- the open offline alerts of the device
  abbrev offline_count : Session → ℕ
  offline_count s = open_count d.device_id "DEVICE_OFFLINE" s

  offline_count-open :
      (now : Time) (s : Session)
      → offline_count (open_or_create_offline_alert world settings seen_text d now s)
        ≡ max 1 (offline_count s)
  unfolding open_or_create_offline_alert
  offline_count-open now s =
      let device_id = d.device_id in
      elim (open_alert_lem world settings device_id "DEVICE_OFFLINE" s) [
        | inl (none_found, zero_open) ↦ rw none_found (
            open_count-create_alert world settings device_id "DEVICE_OFFLINE" "warning" _ device_id
              "DEVICE_OFFLINE" now s
            ∙ ground (arith, eq_refl device_id))
        | inr (a, found, stored, open_a) ↦ rw found (
            ground
              (arith, Contains-count (is_open device_id "DEVICE_OFFLINE") a s.alerts stored open_a))
      ]

  open_or_create_offline_alert_kept :
      (now : Time) (s : Session)
      → 0 < offline_count s
      → open_or_create_offline_alert world settings seen_text d now s ≡ s
  unfolding open_or_create_offline_alert
  open_or_create_offline_alert_kept now s h =
      elim (open_alert_lem world settings d.device_id "DEVICE_OFFLINE" s) [
        | inl (none_found, zero_open) ↦ absurd (omega arith)
        | inr (a, found, stored, open_a) ↦ rw found refl
      ]

  offline_count-rows :
      (rows : List Alert) (now : Time) (emit : Bool) (s : Session)
      → rows ≡ filter (is_open d.device_id "DEVICE_OFFLINE") s.alerts
      → offline_count (resolve_rows world settings rows d now emit s) ≡ 0
  unfolding resolve_rows
  offline_count-rows [] now emit s e =
      sym (length-filter (is_open d.device_id "DEVICE_OFFLINE") s.alerts) ∙ sym (ap length e)
  offline_count-rows (a ∷ rest) now emit s e =
      let resolved = resolve_all (a ∷ rest) now s in
      let closed : offline_count resolved ≡ 0 =
        rw e (open_count-resolve_all d.device_id "DEVICE_OFFLINE" now s) in
      elim emit as (λ b. offline_count (resolve_rows world settings (a ∷ rest) d now b s) ≡ 0) [
        | true ↦
            open_count-create_alert world settings d.device_id "DEVICE_ONLINE" "info" _ d.device_id
              "DEVICE_OFFLINE" now resolved
            ∙ ground (arith, closed)
        | false ↦ closed
      ]

  offline_count-resolve :
      (now : Time) (emit : Bool) (s : Session)
      → offline_count (resolve_offline_alert_if_any world settings d now emit s) ≡ 0
  unfolding resolve_offline_alert_if_any
  offline_count-resolve now emit s =
      offline_count-rows (filter (is_open d.device_id "DEVICE_OFFLINE") s.alerts) now emit s refl

  rows_kept :
      (rows : List Alert) (now : Time) (emit : Bool) (s : Session)
      → length rows ≡ 0
      → resolve_rows world settings rows d now emit s ≡ s
  unfolding resolve_rows
  rows_kept [] now emit s h = refl
  rows_kept (a ∷ rest) now emit s h = absurd (omega arith)

  resolve_offline_alert_kept :
      (now : Time) (emit : Bool) (s : Session)
      → offline_count s ≡ 0
      → resolve_offline_alert_if_any world settings d now emit s ≡ s
  unfolding resolve_offline_alert_if_any
  resolve_offline_alert_kept now emit s h =
      rows_kept (filter (is_open d.device_id "DEVICE_OFFLINE") s.alerts) now emit s
        (length-filter (is_open d.device_id "DEVICE_OFFLINE") s.alerts ∙ h)

  -- how many offline alerts a scan leaves open
  abbrev pub after_scan : DeviceStatus → ℕ → ℕ
  after_scan offline n = max 1 n
  after_scan _ n = 0

  offline_count-apply_status :
      (status : DeviceStatus) (now : Time) (s : Session)
      → offline_count (apply_status world settings status seen_text d now s)
        ≡ after_scan status (offline_count s)
  unfolding apply_status
  offline_count-apply_status offline now s = offline_count-open now s
  offline_count-apply_status status now s = offline_count-resolve now (is_status_online status) s

  apply_status_idem :
      (status : DeviceStatus) (now later : Time) (s : Session)
      → let s' = apply_status world settings status seen_text d now s in
        apply_status world settings status seen_text d later s' ≡ s'
  unfolding apply_status
  apply_status_idem offline now later s =
      open_or_create_offline_alert_kept later
        (open_or_create_offline_alert world settings seen_text d now s)
        (omega (arith, offline_count-open now s))
  apply_status_idem status now later s =
      resolve_offline_alert_kept later (is_status_online status)
        (resolve_offline_alert_if_any world settings d now (is_status_online status) s)
        (offline_count-resolve now (is_status_online status) s)

  -- After a scan of the device its open offline alerts follow its status: where it is offline there
  -- is at least one, exactly one unless several were open before, and otherwise there is none.
  pub ensure_offline_alert-open_count :
      (now : Time) (s : Session)
      → open_count d.device_id "DEVICE_OFFLINE"
          (ensure_offline_alert world settings seen_text d now s)
        ≡ after_scan
            (compute_status world.lower d now).0
            (open_count d.device_id "DEVICE_OFFLINE" s)
  unfolding ensure_offline_alert
  ensure_offline_alert-open_count now s =
      offline_count-apply_status (compute_status world.lower d now).0 now s

  -- Scanning the device again while its status is the same changes nothing: no alert, no
  -- notification, no HTTP call.
  pub ensure_offline_alert_idem :
      (now later : Time) (s : Session)
      → (compute_status world.lower d later).0 ≡ (compute_status world.lower d now).0
      → let s' = ensure_offline_alert world settings seen_text d now s in
        ensure_offline_alert world settings seen_text d later s' ≡ s'
  unfolding ensure_offline_alert
  ensure_offline_alert_idem now later s same =
      rw same (apply_status_idem (compute_status world.lower d now).0 now later s)
