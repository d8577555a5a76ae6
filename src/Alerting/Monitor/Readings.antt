-- ===== src/Alerting/Monitor/Readings.antt =====
-- A sequence of readings of a metric, through its monitor in api/app/services/monitor.py.
use edgewatch_telemetry.Prelude.{ℕ, ◌+◌, String, ◌≡◌, refl, Bool, List, [], ◌∷◌, arith, length}
use edgewatch_telemetry.Prelude.Time.{Time}
use edgewatch_telemetry.Prelude.Float.{Floats}
use edgewatch_telemetry.Alerting.{Session, Settings, World}
use edgewatch_telemetry.Alerting.Monitor.Effects.{open_count}
use edgewatch_telemetry.Alerting.Monitor.Hysteresis.{
  next_open, as_count, changed, lifecycle-next_open, length-lifecycle,
}
use edgewatch_telemetry.Alerting.Monitor.Metrics.{
  AlertThresholds, Overrides, override, ensure_water_pressure_alerts, ensure_oil_pressure_alerts,
  ensure_oil_level_alerts, ensure_drip_oil_level_alerts, ensure_oil_life_alerts,
  ensure_battery_alerts, ensure_signal_alerts,
}

pub data Metric : Type 0 where
  water_pressure oil_pressure oil_level drip_oil_level oil_life battery signal : Metric

-- the type of the alert that a metric opens
abbrev pub open_type : Metric → String
open_type Metric.water_pressure = "WATER_PRESSURE_LOW"
open_type Metric.oil_pressure = "OIL_PRESSURE_LOW"
open_type Metric.oil_level = "OIL_LEVEL_LOW"
open_type Metric.drip_oil_level = "DRIP_OIL_LEVEL_LOW"
open_type Metric.oil_life = "OIL_LIFE_LOW"
open_type Metric.battery = "BATTERY_LOW"
open_type Metric.signal = "SIGNAL_LOW"

module _ (floats : Floats) (world : World) (settings : Settings)
    (overrides : Overrides floats.Value) (thresholds : AlertThresholds floats.Value) where
  open floats use {Value, less, at_least}

  -- the threshold below which a metric's alert opens
  abbrev pub low : Metric → Value
  low Metric.water_pressure =
      override overrides.default_water_pressure_low_psi thresholds.water_pressure_low_psi
  low Metric.oil_pressure = thresholds.oil_pressure_low_psi
  low Metric.oil_level = thresholds.oil_level_low_pct
  low Metric.drip_oil_level = thresholds.drip_oil_level_low_pct
  low Metric.oil_life = thresholds.oil_life_low_pct
  low Metric.battery = override overrides.default_battery_low_v thresholds.battery_low_v
  low Metric.signal = override overrides.default_signal_low_rssi_dbm thresholds.signal_low_rssi_dbm

  -- the threshold from which it resolves
  abbrev pub recover : Metric → Value
  recover Metric.water_pressure = thresholds.water_pressure_recover_psi
  recover Metric.oil_pressure = thresholds.oil_pressure_recover_psi
  recover Metric.oil_level = thresholds.oil_level_recover_pct
  recover Metric.drip_oil_level = thresholds.drip_oil_level_recover_pct
  recover Metric.oil_life = thresholds.oil_life_recover_pct
  recover Metric.battery = thresholds.battery_recover_v
  recover Metric.signal = thresholds.signal_recover_rssi_dbm

  -- the call of the metric's monitor on one reading
  abbrev pub ensure : Metric → String → Value → Time → Session → Session
  ensure Metric.water_pressure =
      ensure_water_pressure_alerts floats world settings overrides thresholds
  ensure Metric.oil_pressure = ensure_oil_pressure_alerts floats world settings overrides thresholds
  ensure Metric.oil_level = ensure_oil_level_alerts floats world settings overrides thresholds
  ensure Metric.drip_oil_level =
      ensure_drip_oil_level_alerts floats world settings overrides thresholds
  ensure Metric.oil_life = ensure_oil_life_alerts floats world settings overrides thresholds
  ensure Metric.battery = ensure_battery_alerts floats world settings overrides thresholds
  ensure Metric.signal = ensure_signal_alerts floats world settings overrides thresholds

  abbrev pub run : Metric → String → List (Value × Time) → Session → Session
  run m device_id [] s = s
  run m device_id ((value, now) ∷ readings) s =
      run m device_id readings (ensure m device_id value now s)

  -- the automaton over the readings
  abbrev pub automaton : Metric → Bool → List (Value × Time) → Bool
  automaton m was_open [] = was_open
  automaton m was_open ((value, now) ∷ readings) =
      automaton m (next_open was_open (less value (low m)) (at_least value (recover m))) readings

  -- how often it moves
  abbrev pub changes : Metric → Bool → List (Value × Time) → ℕ
  changes m was_open [] = 0
  changes m was_open ((value, now) ∷ readings) =
      let is_now = next_open was_open (less value (low m)) (at_least value (recover m)) in
      changed was_open is_now + changes m is_now readings

  ensure-next_open :
      (m : Metric) (device_id : String) (value : Value) (now : Time) (was_open : Bool) (s : Session)
      → open_count device_id (open_type m) s ≡ as_count was_open
      → open_count device_id (open_type m) (ensure m device_id value now s)
        ≡ as_count (next_open was_open (less value (low m)) (at_least value (recover m)))
  unfolding ensure_water_pressure_alerts ensure_oil_pressure_alerts ensure_oil_level_alerts
      ensure_drip_oil_level_alerts ensure_oil_life_alerts ensure_battery_alerts ensure_signal_alerts
  ensure-next_open Metric.water_pressure device_id value now was_open s h =
      lifecycle-next_open world settings device_id _ _ _ _ _ _ was_open now s refl h
  ensure-next_open _ device_id value now was_open s h =
      lifecycle-next_open world settings device_id _ _ _ _ _ _ was_open now s refl h

  length-ensure :
      (m : Metric) (device_id : String) (value : Value) (now : Time) (was_open : Bool) (s : Session)
      → open_count device_id (open_type m) s ≡ as_count was_open
      → length (ensure m device_id value now s).alerts
        ≡ length s.alerts
          + changed was_open (next_open was_open (less value (low m)) (at_least value (recover m)))
  unfolding ensure_water_pressure_alerts ensure_oil_pressure_alerts ensure_oil_level_alerts
      ensure_drip_oil_level_alerts ensure_oil_life_alerts ensure_battery_alerts ensure_signal_alerts
  length-ensure Metric.water_pressure device_id value now was_open s h =
      length-lifecycle world settings device_id _ _ _ _ _ _ was_open now s h
  length-ensure _ device_id value now was_open s h =
      length-lifecycle world settings device_id _ _ _ _ _ _ was_open now s h

  -- From a session in which at most one alert of the metric is open for the device, any sequence of
  -- readings leaves exactly as many open as the hysteresis automaton says: one if it ends open and
  -- none if not. A reading below `low` opens, else one at least `recover` resolves, and any other
  -- changes nothing.
  pub run_hysteresis :
      (m : Metric) (device_id : String) (readings : List (Value × Time)) (was_open : Bool)
      (s : Session)
      → open_count device_id (open_type m) s ≡ as_count was_open
      → open_count device_id (open_type m) (run m device_id readings s)
        ≡ as_count (automaton m was_open readings)
  run_hysteresis m device_id [] was_open s h = h
  run_hysteresis m device_id ((value, now) ∷ readings) was_open s h =
      run_hysteresis m device_id readings
        (next_open was_open (less value (low m)) (at_least value (recover m)))
        (ensure m device_id value now s) (ensure-next_open m device_id value now was_open s h)

  -- From such a session a sequence of readings adds exactly one alert, an opening or a recovery, for
  -- each time that the automaton moves: readings that do not move it add none.
  pub run_one_alert_per_change :
      (m : Metric) (device_id : String) (readings : List (Value × Time)) (was_open : Bool)
      (s : Session)
      → open_count device_id (open_type m) s ≡ as_count was_open
      → length (run m device_id readings s).alerts ≡ length s.alerts + changes m was_open readings
  run_one_alert_per_change m device_id [] was_open s h = omega arith
  run_one_alert_per_change m device_id ((value, now) ∷ readings) was_open s h =
      let is_now = next_open was_open (less value (low m)) (at_least value (recover m)) in
      let s₁ = ensure m device_id value now s in
      omega (
        arith,
        length-ensure m device_id value now was_open s h,
        run_one_alert_per_change m device_id readings is_now s₁
            (ensure-next_open m device_id value now was_open s h),
      )
