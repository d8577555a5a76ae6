-- ===== src/Alerting/Routing/QuietHours.antt =====
-- Quiet hours (api/app/services/routing.py): the window on the clock face, and the settings' hh:mm.
use edgewatch_telemetry.Prelude.{
  ℕ, ◌+◌, ◌-◌, ◌%◌, ◌*◌, ◌<◌, String, ◌≡◌, ◌↔◌, Bool, true, Option, none, some, arith, str_eq,
  if◌then◌else◌, List, [], ◌∷◌,
}
use edgewatch_telemetry.Prelude.Int.{ℤ, pos, negsuc}
use edgewatch_telemetry.Prelude.Text.{strip, split, parse_int}
use edgewatch_telemetry.Prelude.Time.{Time}
use edgewatch_telemetry.Alerting.Routing.{
  in_window, in_quiet_hours, minute_of_day, parse_hhmm, hhmm_value, parse_parts,
}

-- how many minutes after the minute `from` the minute `m` comes round on the clock face
abbrev pub minutes_after : ℕ → ℕ → ℕ
minutes_after from m = (m + 1440 - from) % 1440

-- Between minutes of the day, quiet hours are active exactly in the window that begins at `start`
-- and ends before `end` going round the clock: the minute comes sooner after `start` than `end`
-- does. Windows across midnight are included, and equal ends give an empty window.
pub in_quiet_hours_window :
    (local_time : String → Time → Option (ℕ × ℕ)) (now : Time) (start end : ℕ) (tz : String)
    → start < 1440
    → end < 1440
    → minute_of_day local_time tz now < 1440
    → (in_quiet_hours local_time now (some (pos start)) (some (pos end)) tz ≡ true)
      ↔ (minutes_after start (minute_of_day local_time tz now) < minutes_after start end)
unfolding in_quiet_hours in_window
in_quiet_hours_window local_time now start end tz hs he hm = (λ h. ground arith, λ h. ground arith)

hhmm_value_bounds :
    (h m : Option ℤ) (r : ℤ) → hhmm_value h m ≡ some r → (n : ℕ) × (r ≡ pos n) × (n < 1440)
unfolding hhmm_value
hhmm_value_bounds (some (pos h)) (some (pos m)) r e = (h * 60 + m, ground arith, ground arith)
hhmm_value_bounds (some (pos h)) (some (negsuc m)) r e = absurd (ground arith)
hhmm_value_bounds (some (negsuc h)) (some m) r e = absurd (ground arith)
hhmm_value_bounds (some h) none r e = cc
hhmm_value_bounds none m r e = cc

parse_parts_bounds :
    (parts : List String) (r : ℤ) → parse_parts parts ≡ some r → (n : ℕ) × (r ≡ pos n) × (n < 1440)
unfolding parse_parts
parse_parts_bounds (h ∷ m ∷ []) r e = hhmm_value_bounds (parse_int h) (parse_int m) r e
parse_parts_bounds [] r e = cc
parse_parts_bounds (h ∷ []) r e = cc
parse_parts_bounds (h ∷ m ∷ x ∷ xs) r e = cc

unless_none : (b : Bool) (o : Option ℤ) (r : ℤ) → (if b then none else o) ≡ some r → o ≡ some r
unless_none b o r e = ground arith

-- What `_parse_hhmm` accepts is a minute of the day.
pub parse_hhmm_bounds :
    (value : Option String) (r : ℤ) → parse_hhmm value ≡ some r → (n : ℕ) × (r ≡ pos n) × (n < 1440)
unfolding parse_hhmm
parse_hhmm_bounds none r e = cc
parse_hhmm_bounds (some value) r e =
    parse_parts_bounds (split b':' (strip value)) r
      (unless_none (str_eq (strip value) "") (parse_parts (split b':' (strip value))) r e)
