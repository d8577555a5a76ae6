-- ===== src/CostCaps/Daily.antt =====
-- What the methods of `CostCapState` (agent/cost_caps.py) count, and what the caps then allow.
use edgewatch_telemetry.Prelude.{
  ℕ, suc, ◌+◌, ◌≤◌, ◌<◌, String, ◌≡◌, refl, inl, inr, true, ◌||◌, List, [], ◌∷◌, length, arith,
  eq_iff, leb, le→leb, ltb, str_eq, if◌then◌else◌, sym, ap, ◌∙◌,
}
use edgewatch_telemetry.Prelude.Int.{ℤ, clamp_nonneg}
use edgewatch_telemetry.CostCaps.{
  CostCapsPolicy, CostCapCounters, CostCapState, Environment, succeeds, Result, ok, os_error,
  Result-cases, Action, new_day_counters, record_bytes_sent, record_snapshot_capture,
  allow_snapshot_capture, allow_telemetry_reason,
}

-- the counters that a method which finds the day `today` starts from
abbrev pub rolled : String → CostCapCounters → CostCapCounters
rolled today c = if str_eq c.utc_day today then c else new_day_counters today

abbrev pub with_bytes : ℕ → CostCapCounters → CostCapCounters
with_bytes n c = record c { bytes_sent_today = c.bytes_sent_today + n }

abbrev pub with_snapshot : CostCapCounters → CostCapCounters
with_snapshot c = record c {
  snapshots_today = c.snapshots_today + 1;
  media_uploads_today = c.media_uploads_today + 1;
}

module _ (env : Environment) where
  -- the day that the next reading of the clock gives
  abbrev pub today : CostCapState → String
  today s = env.utc_day_at s.readings

  pub utc_day-rolled : (d : String) (c : CostCapCounters) → (rolled d c).utc_day ≡ d
  unfolding new_day_counters
  utc_day-rolled d c = ground (arith, eq_iff c.utc_day d)

  pub counters-record_bytes_sent :
      (n : ℤ) (s : CostCapState)
      → (record_bytes_sent env n s).0 ≡ ok tt
      → (record_bytes_sent env n s).1.counters
        ≡ with_bytes (clamp_nonneg n) (rolled (today s) s.counters)
  unfolding record_bytes_sent
  counters-record_bytes_sent n s h = ground arith

  pub readings-record_bytes_sent :
      (n : ℤ) (s : CostCapState) → (record_bytes_sent env n s).1.readings ≡ s.readings + 1
  unfolding record_bytes_sent
  readings-record_bytes_sent n s = ground arith

  -- `record_bytes_sent` once for each payload, stopping at the first exception
  unfoldable pub record_all : List ℤ → Action (Unit {0})
  record_all [] s = (ok tt, s)
  record_all (n ∷ ns) s =
      let (r, s') = record_bytes_sent env n s in
      elim r [ ok _ ↦ record_all ns s' | os_error ↦ (os_error, s') ]

  -- the bytes of those payloads that are recorded on the day `d`, the first at reading `i`
  abbrev pub sent_on : String → ℕ → List ℤ → ℕ
  sent_on d i [] = 0
  sent_on d i (n ∷ ns) =
      let rest = sent_on d (i + 1) ns in
      if str_eq (env.utc_day_at i) d then clamp_nonneg n + rest else rest

  -- a day that is over does not come back
  abbrev pub DaysPass : Type 0
  DaysPass =
      (i j k : ℕ)
      → i ≤ j
      → j ≤ k
      → env.utc_day_at i ≡ env.utc_day_at k
      → env.utc_day_at j ≡ env.utc_day_at k

  -- What a run of `record_all` that ends on the day `d` leaves, from counters of reading `i`'s day.
  abbrev Totals : String → ℕ → ℕ → List ℤ → CostCapState → Type 0
  Totals d i bytes ns s' =
      (s'.counters.utc_day ≡ d)
      × (s'.counters.bytes_sent_today
          ≡ (if str_eq (env.utc_day_at i) d then bytes else 0) + sent_on d (i + 1) ns)

  -- One more payload in front of a run, counted on its own day.
  sums_step :
      (d : String) (i : ℕ) (n : ℤ) (ns : List ℤ) (s s₁ s' : CostCapState)
      → (env.utc_day_at i ≡ d → env.utc_day_at (i + 1) ≡ d)
      → s.readings ≡ i + 1
      → s.counters.utc_day ≡ env.utc_day_at i
      → s₁.counters ≡ with_bytes (clamp_nonneg n) (rolled (today s) s.counters)
      → Totals d (i + 1) s₁.counters.bytes_sent_today ns s'
      → Totals d i s.counters.bytes_sent_today (n ∷ ns) s'
  unfolding new_day_counters
  sums_step d i n ns s s₁ s' pass r day e (last, total) = (
    last,
    rw total (
        rw e (
          rw day (
            rw r (
              ground (
                arith,
                eq_iff (env.utc_day_at i) (env.utc_day_at (i + 1)),
                eq_iff (env.utc_day_at i) d,
                eq_iff (env.utc_day_at (i + 1)) d,
              ))))),
  )

  record_all-cons_ok :
      (n : ℤ) (ns : List ℤ) (s : CostCapState)
      → (record_bytes_sent env n s).0 ≡ ok tt
      → record_all (n ∷ ns) s ≡ record_all ns (record_bytes_sent env n s).1
  unfolding record_all
  record_all-cons_ok n ns s h = rw (h, record_all)

  record_all-cons_fail :
      (n : ℤ) (ns : List ℤ) (s : CostCapState)
      → (record_bytes_sent env n s).0 ≡ os_error
      → (record_all (n ∷ ns) s).0 ≡ os_error
  unfolding record_all
  record_all-cons_fail n ns s h = rw (h, record_all)

  record_all-Totals :
      (d : String) (i : ℕ) (ns : List ℤ) (s : CostCapState)
      → DaysPass
      → d ≡ env.utc_day_at (i + length ns)
      → s.readings ≡ i + 1
      → s.counters.utc_day ≡ env.utc_day_at i
      → (record_all ns s).0 ≡ ok tt
      → Totals d i s.counters.bytes_sent_today ns (record_all ns s).1
  record_all-Totals d i [] s pass e r day h =
      let here : i + 0 ≡ i = omega arith in
      unfold record_all in
      (
        day ∙ sym (e ∙ ap env.utc_day_at here),
        ground (arith, eq_iff (env.utc_day_at i) d, ap env.utc_day_at here),
      )
  record_all-Totals d i (n ∷ ns) s pass e r day h =
      let s₁ = (record_bytes_sent env n s).1 in
      elim (Result-cases (record_bytes_sent env n s).0) [
        | inl fine ↦
            let counted = counters-record_bytes_sent n s fine in
            let there : i + suc (length ns) ≡ i + 1 + length ns = omega arith in
            rw (record_all-cons_ok n ns s fine) (
              sums_step d i n ns s s₁ (record_all ns s₁).1
                (λ p.
                  pass i (i + 1) (i + suc (length ns)) (omega arith) (omega arith) (p ∙ e) ∙ sym e)
                r day counted
                (record_all-Totals d (i + 1) ns s₁ pass (e ∙ ap env.utc_day_at there)
                  (readings-record_bytes_sent n s ∙ ap (λ (k : ℕ). k + 1) r)
                  (ap (λ (c : CostCapCounters). c.utc_day) counted
                    ∙ utc_day-rolled (today s) s.counters
                    ∙ ap env.utc_day_at r)
                  (sym (
                      ap (λ (x : Result (Unit {0}) × CostCapState). x.0)
                        (record_all-cons_ok n ns s fine))
                    ∙ h)))
        | inr failed ↦ cc (record_all-cons_fail n ns s failed)
      ]

  -- Let the clock never return to a day that is over, and let the counters be those of the day of
  -- reading i, the clock's last. If a run of `record_bytes_sent` over payloads raises nothing, then
  -- it leaves the counters of the day d of its last reading, and `bytes_sent_today` is the sum of
  -- the payloads recorded on d (a negative one as 0), and of what was there before if d is the day
  -- of reading i.
  pub bytes_sent_today_exact :
      (i : ℕ) (payloads : List ℤ) (s : CostCapState)
      → DaysPass
      → s.readings ≡ i + 1
      → s.counters.utc_day ≡ env.utc_day_at i
      → (record_all payloads s).0 ≡ ok tt
      → let d = env.utc_day_at (i + length payloads) in
        let c = (record_all payloads s).1.counters in
        (c.utc_day ≡ d)
        × (c.bytes_sent_today
            ≡ (if str_eq (env.utc_day_at i) d then s.counters.bytes_sent_today else 0)
              + sent_on d (i + 1) payloads)
  bytes_sent_today_exact i payloads s pass r day h =
      record_all-Totals (env.utc_day_at (i + length payloads)) i payloads s pass refl r day h

  -- the answer of `allow_telemetry_reason`, by the day that it finds
  allow_telemetry_reason_lem :
      (reason : String) (policy : CostCapsPolicy) (s : CostCapState)
      → (allow_telemetry_reason env reason policy s).0 ≡ (
          if str_eq s.counters.utc_day (today s)
          then ok (
              if leb policy.max_bytes_per_day s.counters.bytes_sent_today
              then str_eq reason "heartbeat" || str_eq reason "startup"
              else true)
          else if succeeds (env.save_outcome s.saves)
          then ok (
              ltb 0 policy.max_bytes_per_day
              || (str_eq reason "heartbeat" || str_eq reason "startup"))
          else os_error)
  unfolding allow_telemetry_reason new_day_counters
  allow_telemetry_reason_lem reason policy s = ground arith

  counters-record_snapshot_capture :
      (s : CostCapState)
      → (record_snapshot_capture env s).0 ≡ ok tt
      → (record_snapshot_capture env s).1.counters ≡ with_snapshot (rolled (today s) s.counters)
  unfolding record_snapshot_capture
  counters-record_snapshot_capture s h = ground arith

  allowed_snapshot :
      (policy : CostCapsPolicy) (s : CostCapState)
      → (allow_snapshot_capture env policy s).0 ≡ ok true
      → let c = (allow_snapshot_capture env policy s).1.counters in
        (c.snapshots_today < policy.max_snapshots_per_day)
        × (c.media_uploads_today < policy.max_media_uploads_per_day)
  unfolding allow_snapshot_capture new_day_counters
  allowed_snapshot policy s h = ground arith

  -- Let the cap on bytes be reached by a `record_bytes_sent` that raises nothing. While the clock
  -- stays on that day `allow_telemetry_reason` allows exactly the reasons heartbeat and startup; if
  -- the next reading is of another day, and the roll-over is saved, it allows every reason exactly
  -- if the cap is not 0.
  pub heartbeat_only_until_midnight :
      (n : ℤ) (reason : String) (policy : CostCapsPolicy) (s : CostCapState)
      → let s' = (record_bytes_sent env n s).1 in
        (record_bytes_sent env n s).0 ≡ ok tt
        → policy.max_bytes_per_day ≤ s'.counters.bytes_sent_today
        → (allow_telemetry_reason env reason policy s').0 ≡ (
            if str_eq (today s) (today s')
            then ok (str_eq reason "heartbeat" || str_eq reason "startup")
            else if succeeds (env.save_outcome s'.saves)
            then ok (
                ltb 0 policy.max_bytes_per_day
                || (str_eq reason "heartbeat" || str_eq reason "startup"))
            else os_error)
  heartbeat_only_until_midnight n reason policy s h reached =
      let s' = (record_bytes_sent env n s).1 in
      let day : s'.counters.utc_day ≡ today s =
        ap (λ (c : CostCapCounters). c.utc_day) (counters-record_bytes_sent n s h)
        ∙ utc_day-rolled (today s) s.counters in
      allow_telemetry_reason_lem reason policy s' ∙ rw day (rw (le→leb _ _ reached))

  -- A snapshot captured after `allow_snapshot_capture` has allowed it, with neither call raising,
  -- leaves both counters within their caps, also if midnight falls between the two calls.
  pub allowed_snapshot_within_caps :
      (policy : CostCapsPolicy) (s : CostCapState)
      → (allow_snapshot_capture env policy s).0 ≡ ok true
      → let s' = (allow_snapshot_capture env policy s).1 in
        (record_snapshot_capture env s').0 ≡ ok tt
        → let c = (record_snapshot_capture env s').1.counters in
          (c.snapshots_today ≤ policy.max_snapshots_per_day)
          × (c.media_uploads_today ≤ policy.max_media_uploads_per_day)
  unfolding new_day_counters
  allowed_snapshot_within_caps policy s h k =
      let s' = (allow_snapshot_capture env policy s).1 in
      let captured = counters-record_snapshot_capture s' k in
      rw captured (ground (arith, allowed_snapshot policy s h))
