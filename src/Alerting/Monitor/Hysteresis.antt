-- ===== src/Alerting/Monitor/Hysteresis.antt =====
-- The metric monitors of api/app/services/monitor.py implement a two-state automaton with
-- hysteresis: bad readings open the alert, recovered ones resolve it, those between keep it.
use edgewatch_telemetry.Prelude.{
  length, ◌+◌, ℕ, String, ◌≡◌, Bool, true, false, arith, str_eq, inl, inr, if◌then◌else◌,
}
use text.Mathlib.TextPositions.{eq_refl}
use edgewatch_telemetry.Prelude.Time.{Time}
use edgewatch_telemetry.Alerting.{Session, Settings, World}
use edgewatch_telemetry.Alerting.Monitor.{lifecycle, resolve_alert}
use edgewatch_telemetry.Alerting.Monitor.Effects.{
  open_count, open_count-create_alert, open_alert_lem, length-create_alert, length-resolve_alert,
  open_count-resolve_alert,
}

-- the automaton: is the alert open after a reading?
abbrev pub next_open : Bool → Bool → Bool → Bool
next_open was_open bad recovered = if bad then true else if recovered then false else was_open

-- 1 if the automaton moved
abbrev pub changed : Bool → Bool → ℕ
changed true false = 1
changed false true = 1
changed _ _ = 0

abbrev pub as_count : Bool → ℕ
as_count b = if b then 1 else 0

module _ (world : World) (settings : Settings)
    (device_id open_type ok_type open_message ok_message : String) where
  -- One reading moves the open alerts of the type as the automaton moves.
  pub lifecycle-next_open :
      (bad recovered was_open : Bool) (now : Time) (s : Session)
      → str_eq ok_type open_type ≡ false
      → open_count device_id open_type s ≡ as_count was_open
      → open_count device_id open_type (
          lifecycle world settings device_id open_type ok_type open_message ok_message bad recovered
            now s)
        ≡ as_count (next_open was_open bad recovered)
  unfolding lifecycle
  lifecycle-next_open bad recovered was_open now s types before =
      elim (open_alert_lem world settings device_id open_type s) [
        | inl (none_found, zero_open) ↦ rw none_found (
            ground (
              arith,
              open_count-create_alert world settings device_id open_type "warning" open_message
                  device_id open_type now s,
              eq_refl device_id,
              eq_refl open_type,
            ))
        | inr (a, found, stored, is_open_a) ↦ rw found (
            ground (
              arith,
              open_count-create_alert world settings device_id ok_type "info" ok_message device_id
                  open_type now (resolve_alert a now s),
              open_count-resolve_alert device_id open_type a now s stored is_open_a,
            ))
      ]

  -- One reading adds one alert if it moves the automaton, and none if not.
  pub length-lifecycle :
      (bad recovered was_open : Bool) (now : Time) (s : Session)
      → open_count device_id open_type s ≡ as_count was_open
      → length
          (lifecycle world settings device_id open_type ok_type open_message ok_message bad
            recovered now s).alerts
        ≡ length s.alerts + changed was_open (next_open was_open bad recovered)
  unfolding lifecycle
  length-lifecycle bad recovered was_open now s before =
      elim (open_alert_lem world settings device_id open_type s) [
        | inl (none_found, zero_open) ↦ rw none_found (
            ground (
              arith,
              length-create_alert world settings device_id open_type "warning" open_message now s,
            ))
        | inr (a, found, stored, is_open_a) ↦ rw found (
            ground (
              arith,
              length-create_alert world settings device_id ok_type "info" ok_message now
                  (resolve_alert a now s),
              length-resolve_alert a now s,
              open_count-resolve_alert device_id open_type a now s stored is_open_a,
            ))
      ]
