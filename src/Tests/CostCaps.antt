-- ===== src/Tests/CostCaps.antt =====
-- Runs of agent/cost_caps.py over a midnight.
use edgewatch_telemetry.Prelude.{
  ◌+◌, ◌≤◌, String, ◌≡◌, ◌≢◌, refl, List, [], ◌∷◌, arith, eq_iff, ltb, ◌⊎◌, if◌then◌else◌,
}
use edgewatch_telemetry.Prelude.Int.{ℤ, pos, negsuc}
use edgewatch_telemetry.Prelude.Text.{strip}
use edgewatch_telemetry.CostCaps.{
  CostCapsPolicy, CostCapState, Environment, saved, StateFile, ok, os_error, dump, init,
  record_bytes_sent, record_snapshot_capture, allow_snapshot_capture,
}
use edgewatch_telemetry.CostCaps.Daily.{
  with_bytes, record_all, DaysPass, bytes_sent_today_exact, allowed_snapshot_within_caps,
}
use edgewatch_telemetry.CostCaps.Storage.{IsDay, restart_keeps_counters, record_bytes_sent_atomic}

-- midnight falls after the third reading
abbrev env : Environment
env = record {
  utc_day_at = λ n. if ltb n 3 then "2026-01-01" else "2026-01-02";
  save_outcome = λ n. saved;
}

abbrev start : CostCapState
start = record {
  counters = record {
    utc_day = "2026-01-01";
    bytes_sent_today = 100;
    snapshots_today = 0;
    media_uploads_today = 0;
  };
  file = StateFile.missing;
  tmp = StateFile.missing;
  readings = 1;
  saves = 0;
}

abbrev policy : CostCapsPolicy
policy = record {
  max_bytes_per_day = 120;
  max_snapshots_per_day = 1;
  max_media_uploads_per_day = 1;
}

abbrev payloads : List ℤ
payloads = pos 20 ∷ negsuc 4 ∷ pos 7 ∷ pos 8 ∷ []

days_differ : ◌≢◌ {A = String} "2026-01-01" "2026-01-02"
days_differ = ground (arith, eq_iff "2026-01-01" "2026-01-02")

env-DaysPass : DaysPass env
env-DaysPass i j k h h' e = ground (arith, days_differ)

january-IsDay : IsDay "2026-01-01"
unfolding strip
january-IsDay = record { trimmed = refl; nonempty = ground (arith, eq_iff "2026-01-01" "") }

run_over_midnight : (record_all env payloads start).1.counters.bytes_sent_today ≡ 15
unfolding record_all record_bytes_sent
run_over_midnight = refl

bytes_sent_today_exact_example :
    let c = (record_all env payloads start).1.counters in
    (c.utc_day ≡ "2026-01-02") × (c.bytes_sent_today ≡ 0 + 15)
unfolding record_all record_bytes_sent
bytes_sent_today_exact_example =
    bytes_sent_today_exact env 0 payloads start env-DaysPass refl refl refl

allowed_snapshot_within_caps_example :
    let c = (record_snapshot_capture env (allow_snapshot_capture env policy start).1).1.counters in
    (c.snapshots_today ≤ 1) × (c.media_uploads_today ≤ 1)
unfolding allow_snapshot_capture record_snapshot_capture
allowed_snapshot_within_caps_example = allowed_snapshot_within_caps env policy start refl refl

restart_keeps_counters_example :
    let s' = (record_bytes_sent env (pos 20) start).1 in
    init env s'.file s'.tmp ≡ (
      ok tt,
      record { counters = s'.counters; file = s'.file; tmp = s'.tmp; readings = 1; saves = 0 },
    )
unfolding record_bytes_sent
restart_keeps_counters_example =
    restart_keeps_counters env env (pos 20) start january-IsDay refl refl

record_bytes_sent_atomic_example :
    let (r, s') = record_bytes_sent env (pos 20) start in
    let before = start.counters in
    ((r ≡ ok tt) × (s'.file ≡ dump (with_bytes 20 before)))
    ⊎ ((r ≡ os_error) × ((s'.file ≡ start.file) ⊎ (s'.file ≡ dump before)))
record_bytes_sent_atomic_example = record_bytes_sent_atomic env (pos 20) start
