-- ===== src/Alerting/Monitor/Microphone.antt =====
-- The microphone monitor of api/app/services/monitor.py, which opens and resolves its alert after
-- several consecutive levels.
use text.Mathlib.TextPositions.{eq_refl}
use edgewatch_telemetry.Prelude.{
  ℕ, zero, suc, ◌*◌, max, String, ◌≡◌, Bool, true, false, not, ◌&&◌, Option, none, some, List, [],
  ◌∷◌, all, arith, take, length, leb, Contains, ◌==◌, if◌then◌else◌, inl, inr,
}
use Prim.Native.String.{◌++◌}
use edgewatch_telemetry.Prelude.Int.{ℤ, clamp_nonneg}
use edgewatch_telemetry.Prelude.Time.{Time}
use edgewatch_telemetry.Prelude.Float.{Floats}
use edgewatch_telemetry.Alerting.{Alert, Session, Settings, World}
use edgewatch_telemetry.Alerting.Monitor.{is_open, create_alert, open_alert, resolve_alert}
use edgewatch_telemetry.Alerting.Monitor.Effects.{
  open_count, open_count-create_alert, open_alert_lem, open_count-resolve_alert,
}
use edgewatch_telemetry.Alerting.Monitor.Hysteresis.{as_count}

pub record MicrophoneThresholds (F : Type 0) : Type 0 where
  pub microphone_offline_db : F
  pub microphone_offline_open_consecutive_samples : ℤ
  pub microphone_offline_resolve_consecutive_samples : ℤ

-- the levels of the points that have one, until `limit` are found
unfoldable pub collect_levels : {F : Type 0} → ℕ → List (Option F) → List F
collect_levels zero points = []
collect_levels (suc limit) [] = []
collect_levels (suc limit) (none ∷ points) = collect_levels (suc limit) points
collect_levels (suc limit) (some level ∷ points) = level ∷ collect_levels limit points

-- The device's points come newest first: the level of each, and `none` for a point whose metrics
-- are no dict or have no number for it.
unfoldable pub recent_microphone_levels : {F : Type 0} → ℕ → List (Option F) → List F
unfolding collect_levels
recent_microphone_levels limit points =
    if limit == 0 then [] else collect_levels limit (take (max 10 (limit * 5)) points)

abbrev pub at_least_one : ℤ → ℕ
at_least_one samples = max 1 (clamp_nonneg samples)

-- enough levels, and the newest `n` of them pass the test
abbrev pub is_streak : {F : Type 0} → (F → Bool) → ℕ → List F → Bool
is_streak p n levels = leb n (length levels) && all p (take n levels)

module _ (floats : Floats) (world : World) (settings : Settings) (device_id : String) where
  open floats use {Value, less, at_least, format}

  -- the two branches, once the levels are known
  unfoldable pub microphone_step : Value → ℕ → ℕ → List Value → Value → Time → Session → Session
  microphone_step offline_db open_samples resolve_samples levels microphone_level_db now session =
      elim (open_alert world settings device_id "MICROPHONE_OFFLINE" session) [
        | some a ↦
            if is_streak (λ level. at_least level offline_db) resolve_samples levels
            then create_alert world settings device_id "MICROPHONE_ONLINE" "info"
                ("Microphone level recovered: " ++ (format 1 microphone_level_db ++ " dB.")) now
                (resolve_alert a now session)
            else session
        | none ↦
            if is_streak (λ level. less level offline_db) open_samples levels
            then create_alert world settings device_id "MICROPHONE_OFFLINE" "warning"
                ("Microphone level low: "
                  ++ (format 1 microphone_level_db
                      ++ (" dB (offline threshold: " ++ (format 1 offline_db ++ " dB)."))))
                now session
            else session
      ]

  unfoldable pub ensure_microphone_offline_alerts :
      MicrophoneThresholds Value → List (Option Value) → Value → Time → Session → Session
  ensure_microphone_offline_alerts thresholds points microphone_level_db now =
      let open_samples = at_least_one thresholds.microphone_offline_open_consecutive_samples in
      let resolve_samples =
        at_least_one thresholds.microphone_offline_resolve_consecutive_samples in
      microphone_step thresholds.microphone_offline_db open_samples resolve_samples
        (recent_microphone_levels (max open_samples resolve_samples) points) microphone_level_db now

  -- where none is open, a streak opens one
  opened :
      (bad good was_open : Bool) (message : String) (now : Time) (s : Session)
      → open_count device_id "MICROPHONE_OFFLINE" s ≡ as_count was_open
      → open_count device_id "MICROPHONE_OFFLINE" s ≡ 0
      → open_count device_id "MICROPHONE_OFFLINE" (
          if bad
          then create_alert world settings device_id "MICROPHONE_OFFLINE" "warning" message now s
          else s)
        ≡ as_count (if was_open then not good else bad)
  opened bad good true message now s before zero_open = ground arith
  opened false good false message now s before zero_open = zero_open
  opened true good false message now s before zero_open = ground (
    arith,
    open_count-create_alert world settings device_id "MICROPHONE_OFFLINE" "warning" message
        device_id "MICROPHONE_OFFLINE" now s,
    eq_refl device_id,
  )

  -- where one is open, a streak resolves it
  resolved :
      (bad good was_open : Bool) (message : String) (now : Time) (a : Alert) (s : Session)
      → open_count device_id "MICROPHONE_OFFLINE" s ≡ as_count was_open
      → Contains a s.alerts
      → is_open device_id "MICROPHONE_OFFLINE" a ≡ true
      → open_count device_id "MICROPHONE_OFFLINE" (
          if good
          then create_alert world settings device_id "MICROPHONE_ONLINE" "info" message now
              (resolve_alert a now s)
          else s)
        ≡ as_count (if was_open then not good else bad)
  resolved bad true was_open message now a s before stored is_open_a = ground (
    arith,
    open_count-create_alert world settings device_id "MICROPHONE_ONLINE" "info" message device_id
        "MICROPHONE_OFFLINE" now (resolve_alert a now s),
    open_count-resolve_alert device_id "MICROPHONE_OFFLINE" a now s stored is_open_a,
  )
  resolved bad false was_open message now a s before stored is_open_a = ground (
    arith,
    before,
    open_count-resolve_alert device_id "MICROPHONE_OFFLINE" a now s stored is_open_a,
  )

  -- From a session in which at most one microphone alert is open for the device, a reading leaves one
  -- open exactly in two cases: it was open and the levels are no streak of the length required to
  -- resolve at or above the threshold, or it was not and they are a streak of the length required to
  -- open below it; otherwise it leaves none.
  pub microphone_step-open_count :
      (offline_db : Value) (open_samples resolve_samples : ℕ) (levels : List Value)
      (microphone_level_db : Value) (now : Time) (was_open : Bool) (s : Session)
      → open_count device_id "MICROPHONE_OFFLINE" s ≡ as_count was_open
      → open_count device_id "MICROPHONE_OFFLINE"
          (microphone_step offline_db open_samples resolve_samples levels microphone_level_db now s)
        ≡ as_count (
            if was_open
            then not (is_streak (λ level. at_least level offline_db) resolve_samples levels)
            else is_streak (λ level. less level offline_db) open_samples levels)
  unfolding microphone_step
  microphone_step-open_count offline_db open_samples resolve_samples levels level now was_open s
        before =
      let bad = is_streak (λ x. less x offline_db) open_samples levels in
      let good = is_streak (λ x. at_least x offline_db) resolve_samples levels in
      elim (open_alert_lem world settings device_id "MICROPHONE_OFFLINE" s) [
        | inl (none_found, zero_open) ↦
            rw (none_found, microphone_step) (opened bad good was_open _ now s before zero_open)
        | inr (a, found, stored, is_open_a) ↦
            rw (found, microphone_step)
              (resolved bad good was_open _ now a s before stored is_open_a)
      ]
