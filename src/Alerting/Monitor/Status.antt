-- ===== src/Alerting/Monitor/Status.antt =====
-- `compute_status` of api/app/services/monitor.py against the clock.
use edgewatch_telemetry.Prelude.{
  ℕ, zero, suc, ◌+◌, ◌-◌, ◌/◌, ◌≤◌, ◌∙◌, Option-cases, inl, inr, String, ◌≡◌, refl, true, some,
  arith, leb, if◌then◌else◌,
}
use edgewatch_telemetry.Prelude.Int.{ℤ, pos, negate, ltb_ℤ, pos_part, neg_part}
use edgewatch_telemetry.Prelude.Time.{Time, seconds, whole_seconds}
use edgewatch_telemetry.Alerting.{Device}
use edgewatch_telemetry.Alerting.Monitor.{online, offline, compute_status, normalized_mode}

parts-negate : (n : ℕ) → (pos_part (negate n) ≡ 0) × (neg_part (negate n) ≡ n)
parts-negate zero = (refl, refl)
parts-negate (suc n) = (refl, refl)

-- the whole seconds pass a limit when one second more than it has gone by
past_limit :
    (seen now limit : ℕ)
    → ltb_ℤ (pos limit) (whole_seconds seen now) ≡ leb (seen + seconds (limit + 1)) now
past_limit seen now limit = ground (arith, parts-negate ((seen - now) / 1000000))

-- time that passes keeps a limit passed
past_limit_later :
    (limit : ℤ) (seen now later : Time)
    → now ≤ later
    → ltb_ℤ limit (whole_seconds seen now) ≡ true
    → ltb_ℤ limit (whole_seconds seen later) ≡ true
past_limit_later limit seen now later le h =
    ground (arith, parts-negate ((seen - now) / 1000000), parts-negate ((seen - later) / 1000000))

-- the status that an enabled device in the mode active has, by the seconds since it was seen
since_seen :
    (lower : String → String) (device : Device) (now seen : Time)
    → device.enabled ≡ true
    → normalized_mode lower device.operation_mode ≡ "active"
    → device.last_seen_at ≡ some seen
    → (compute_status lower device now).0
      ≡ (if ltb_ℤ device.offline_after_s (whole_seconds seen now) then offline else online)
unfolding compute_status
since_seen lower device now seen on mode last = rw last (rw on (rw mode (ground arith)))

-- An enabled device in the mode active that was last seen at `seen`, with a limit of `limit`
-- seconds, is offline exactly when the clock is at least `limit` + 1 whole seconds past `seen`, and
-- online otherwise, also if `seen` lies in the clock's future.
pub offline_exactly_after_limit :
    (lower : String → String) (device : Device) (now seen : Time) (limit : ℕ)
    → device.enabled ≡ true
    → normalized_mode lower device.operation_mode ≡ "active"
    → device.last_seen_at ≡ some seen
    → device.offline_after_s ≡ pos limit
    → (compute_status lower device now).0
      ≡ (if leb (seen + seconds (limit + 1)) now then offline else online)
offline_exactly_after_limit lower device now seen limit on mode last after =
    since_seen lower device now seen on mode last ∙ rw after (rw past_limit refl)

-- A device that is offline is offline at every later time, as long as its row stays as it is.
pub offline_until_seen :
    (lower : String → String) (device : Device) (now later : Time)
    → (compute_status lower device now).0 ≡ offline
    → now ≤ later
    → (compute_status lower device later).0 ≡ offline
unfolding compute_status
offline_until_seen lower device now later h le = elim (Option-cases device.last_seen_at) [
  | inl never ↦ absurd (ground arith)
  | inr (seen, last) ↦ ground (arith, past_limit_later device.offline_after_s seen now later le)
]
