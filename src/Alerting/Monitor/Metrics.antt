-- ===== src/Alerting/Monitor/Metrics.antt =====
-- The seven metric monitors of api/app/services/monitor.py, over the machine's floats, with the
-- thresholds of the edge policy (api/app/edge_policy.py) and the overrides of the settings.
use edgewatch_telemetry.Prelude.{String, Option, none, some}
use Prim.Native.String.{◌++◌}
use edgewatch_telemetry.Prelude.Time.{Time}
use edgewatch_telemetry.Prelude.Float.{Floats}
use edgewatch_telemetry.Alerting.{Session, Settings, World}
use edgewatch_telemetry.Alerting.Monitor.{lifecycle}

pub record AlertThresholds (F : Type 0) : Type 0 where
  pub water_pressure_low_psi : F
  pub water_pressure_recover_psi : F
  pub oil_pressure_low_psi : F
  pub oil_pressure_recover_psi : F
  pub oil_level_low_pct : F
  pub oil_level_recover_pct : F
  pub drip_oil_level_low_pct : F
  pub drip_oil_level_recover_pct : F
  pub oil_life_low_pct : F
  pub oil_life_recover_pct : F
  pub battery_low_v : F
  pub battery_recover_v : F
  pub signal_low_rssi_dbm : F
  pub signal_recover_rssi_dbm : F

-- the settings that override a threshold
pub record Overrides (F : Type 0) : Type 0 where
  pub default_water_pressure_low_psi : Option F
  pub default_battery_low_v : Option F
  pub default_signal_low_rssi_dbm : Option F

abbrev pub override : {F : Type 0} → Option F → F → F
override none threshold = threshold
override (some value) threshold = value

module _ (floats : Floats) where
  open floats use {Value, less, at_least, format}

  -- a monitor of a metric: opens below `low`, resolves from `recover` up
  abbrev monitor :
      World
      → Settings
      → String
      → String
      → String
      → String
      → Value
      → Value
      → Value
      → String
      → Time
      → Session
      → Session
  monitor world settings open_type ok_type open_message ok_message low recover value device_id now =
      lifecycle world settings device_id open_type ok_type open_message ok_message (less value low)
        (at_least value recover) now

  module _ (world : World) (settings : Settings) (overrides : Overrides Value)
      (thresholds : AlertThresholds Value) (device_id : String) (value : Value) (now : Time) where
    unfoldable pub ensure_water_pressure_alerts : Session → Session
    ensure_water_pressure_alerts =
        let low =
          override overrides.default_water_pressure_low_psi thresholds.water_pressure_low_psi in
        monitor world settings "WATER_PRESSURE_LOW" "WATER_PRESSURE_OK"
          ("Water pressure low: "
            ++ (format 1 value ++ (" psi (threshold: " ++ (format 1 low ++ " psi)."))))
          ("Water pressure recovered: " ++ (format 1 value ++ " psi.")) low
          thresholds.water_pressure_recover_psi value device_id now

    unfoldable pub ensure_oil_pressure_alerts : Session → Session
    ensure_oil_pressure_alerts =
        let low = thresholds.oil_pressure_low_psi in
        monitor world settings "OIL_PRESSURE_LOW" "OIL_PRESSURE_OK"
          ("Oil pressure low: "
            ++ (format 1 value ++ (" psi (threshold: " ++ (format 1 low ++ " psi)."))))
          ("Oil pressure recovered: " ++ (format 1 value ++ " psi.")) low
          thresholds.oil_pressure_recover_psi value device_id now

    unfoldable pub ensure_oil_level_alerts : Session → Session
    ensure_oil_level_alerts =
        let low = thresholds.oil_level_low_pct in
        monitor world settings "OIL_LEVEL_LOW" "OIL_LEVEL_OK"
          ("Oil level low: " ++ (format 1 value ++ ("% (threshold: " ++ (format 1 low ++ "%)."))))
          ("Oil level recovered: " ++ (format 1 value ++ "%.")) low thresholds.oil_level_recover_pct
          value device_id now

    unfoldable pub ensure_drip_oil_level_alerts : Session → Session
    ensure_drip_oil_level_alerts =
        let low = thresholds.drip_oil_level_low_pct in
        monitor world settings "DRIP_OIL_LEVEL_LOW" "DRIP_OIL_LEVEL_OK"
          ("Drip oil level low: "
            ++ (format 1 value ++ ("% (threshold: " ++ (format 1 low ++ "%)."))))
          ("Drip oil level recovered: " ++ (format 1 value ++ "%.")) low
          thresholds.drip_oil_level_recover_pct value device_id now

    unfoldable pub ensure_oil_life_alerts : Session → Session
    ensure_oil_life_alerts =
        let low = thresholds.oil_life_low_pct in
        monitor world settings "OIL_LIFE_LOW" "OIL_LIFE_OK"
          ("Oil life low: "
            ++ (format 1 value ++ ("% remaining (threshold: " ++ (format 1 low ++ "%)."))))
          ("Oil life recovered: " ++ (format 1 value ++ "%.")) low thresholds.oil_life_recover_pct
          value device_id now

    unfoldable pub ensure_battery_alerts : Session → Session
    ensure_battery_alerts =
        let low = override overrides.default_battery_low_v thresholds.battery_low_v in
        monitor world settings "BATTERY_LOW" "BATTERY_OK"
          ("Battery low: " ++ (format 2 value ++ (" V (threshold: " ++ (format 2 low ++ " V)."))))
          ("Battery recovered: " ++ (format 2 value ++ " V.")) low thresholds.battery_recover_v
          value device_id now

    unfoldable pub ensure_signal_alerts : Session → Session
    ensure_signal_alerts =
        let low = override overrides.default_signal_low_rssi_dbm thresholds.signal_low_rssi_dbm in
        monitor world settings "SIGNAL_LOW" "SIGNAL_OK"
          ("Signal weak: "
            ++ (format 0 value ++ (" dBm (threshold: " ++ (format 0 low ++ " dBm)."))))
          ("Signal recovered: " ++ (format 0 value ++ " dBm.")) low
          thresholds.signal_recover_rssi_dbm value device_id now
