-- ===== src/CostCaps/Storage.antt =====
-- The counters' file (agent/cost_caps.py): what a restart reads back, and what a failed save leaves.
use mathlib.Core.Path.{subst}
use edgewatch_telemetry.Prelude.{sym, ap, ◌∙◌, ℕ, String, ◌≡◌, ◌≢◌, ◌⊎◌, arith, eq_iff}
use edgewatch_telemetry.Prelude.Int.{ℤ, clamp_nonneg}
use edgewatch_telemetry.Prelude.Text.{strip}
use edgewatch_telemetry.CostCaps.{
  CostCapCounters, CostCapState, Environment, StateFile, ok, os_error, dump, load_or_default, init,
  record_bytes_sent,
}
use edgewatch_telemetry.CostCaps.Daily.{
  rolled, with_bytes, today, utc_day-rolled, counters-record_bytes_sent,
}

-- a day as `isoformat` writes it: text that `strip` leaves alone
pub record IsDay (d : String) : Type 0 where
  pub trimmed : strip d ≡ d
  pub nonempty : d ≢ ""

-- Loading the file that a save of some counters wrote gives those counters, and reads no clock, if
-- their day is not empty and has no space at its ends.
pub load_or_default-dump :
    (clock : ℕ → String) (c : CostCapCounters)
    → IsDay c.utc_day
    → load_or_default clock (dump c) ≡ (c, 0)
unfolding load_or_default dump
load_or_default-dump clock c h = rw h.trimmed (ground (arith, eq_iff c.utc_day ""))

init-dump :
    (env : Environment) (c : CostCapCounters) (tmp : StateFile)
    → IsDay c.utc_day
    → env.utc_day_at 0 ≡ c.utc_day
    → init env (dump c) tmp
      ≡ (ok tt, record { counters = c; file = dump c; tmp = tmp; readings = 1; saves = 0 })
unfolding init
init-dump env c tmp h same =
    rw h.trimmed (ground (arith, eq_iff c.utc_day "", eq_iff c.utc_day (env.utc_day_at 0)))

module _ (env : Environment) where
  file-record_bytes_sent :
      (n : ℤ) (s : CostCapState)
      → (record_bytes_sent env n s).0 ≡ ok tt
      → (record_bytes_sent env n s).1.file ≡ dump (record_bytes_sent env n s).1.counters
  unfolding record_bytes_sent
  file-record_bytes_sent n s h = ground arith

  -- A `record_bytes_sent` that raised nothing survives a restart on the same day: the counters that
  -- `__init__` makes of the file are those before the restart, nothing is saved again, and the
  -- clock has been read once.
  pub restart_keeps_counters :
      (env' : Environment) (n : ℤ) (s : CostCapState)
      → IsDay (today env s)
      → env'.utc_day_at 0 ≡ today env s
      → (record_bytes_sent env n s).0 ≡ ok tt
      → let s' = (record_bytes_sent env n s).1 in
        init env' s'.file s'.tmp ≡ (
          ok tt,
          record { counters = s'.counters; file = s'.file; tmp = s'.tmp; readings = 1; saves = 0 },
        )
  restart_keeps_counters env' n s day same h =
      let c = (record_bytes_sent env n s).1.counters in
      let on : c.utc_day ≡ today env s =
        ap (λ (c : CostCapCounters). c.utc_day) (counters-record_bytes_sent env n s h)
        ∙ utc_day-rolled env (today env s) s.counters in
      rw (file-record_bytes_sent n s h) (
        init-dump env' c (record_bytes_sent env n s).1.tmp (subst IsDay (sym on) day)
          (same ∙ sym on))

  -- However the saves of a `record_bytes_sent` end, also where a write breaks off, the file at the
  -- path is whole: the old one, the counters after the roll-over to the day of the call, or those with
  -- the payload counted. It has the payload counted if the call raises nothing, and not if it raises.
  pub record_bytes_sent_atomic :
      (n : ℤ) (s : CostCapState)
      → let (r, s') = record_bytes_sent env n s in
        let before = rolled (today env s) s.counters in
        ((r ≡ ok tt) × (s'.file ≡ dump (with_bytes (clamp_nonneg n) before)))
        ⊎ ((r ≡ os_error) × ((s'.file ≡ s.file) ⊎ (s'.file ≡ dump before)))
  unfolding record_bytes_sent
  record_bytes_sent_atomic n s = ground arith
