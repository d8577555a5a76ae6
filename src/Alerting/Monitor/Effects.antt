-- ===== src/Alerting/Monitor/Effects.antt =====
-- What opening and resolving do to the open alerts (api/app/services/monitor.py).
use edgewatch_telemetry.Prelude.{
  ℕ, suc, ◌+◌, ◌≤◌, ◌<◌, String, ◌≡◌, refl, sym, ap, ◌∙◌, Bool, true, ◌&&◌, none, some, List, [],
  ◌∷◌, ◌++◌, map, filter, arith, count, count-append, length-filter, Contains, str_eq, Bool-cases,
  ◌⊎◌, inl, inr, if◌then◌else◌, length, length-append,
}
use edgewatch_telemetry.Prelude.Time.{Time}
use edgewatch_telemetry.Alerting.{Alert, Session, Settings, World}
use edgewatch_telemetry.Alerting.Notify.Audit.{process_alert_notification-Trail}
use edgewatch_telemetry.Alerting.Monitor.{
  is_open, mark_resolved, resolve_alert, new_alert, add_alert, create_alert, open_alert,
}

-- how many alerts of the type are open for the device
abbrev pub open_count : String → String → Session → ℕ
open_count device_id alert_type s = count (is_open device_id alert_type) s.alerts

-- the first row of a filter's list is in the list and passes the test
filter-cons :
    {A : Type 0} (p : A → Bool) (x : A) (xs : List A) (a : A)
    → (Contains a (filter p xs) → Contains a xs × (p a ≡ true))
    → Contains a (filter p (x ∷ xs))
    → Contains a (x ∷ xs) × (p a ≡ true)
filter-cons p x xs a ih m = elim (Bool-cases (p x)) [
  | inl yes_x ↦ kept yes_x (rw yes_x at m)
  | inr no_x ↦ let (n, h) = ih (rw no_x at m) in (inr n, h)
]
  where
    kept : p x ≡ true → (a ≡ x) ⊎ Contains a (filter p xs) → Contains a (x ∷ xs) × (p a ≡ true)
    kept h (inl e) = (inl e, rw e h)
    kept h (inr n) = let (k, g) = ih n in (inr k, g)

pub Contains-filter :
    {A : Type 0} (p : A → Bool) (a : A) (xs : List A)
    → Contains a (filter p xs)
    → Contains a xs × (p a ≡ true)
Contains-filter p a [] m = absurd m
Contains-filter p a (x ∷ xs) m = filter-cons p x xs a (Contains-filter p a xs) m

module _ (world : World) (settings : Settings) where
  pub alerts-create_alert :
      (device_id alert_type severity message : String) (now : Time) (s : Session)
      → (create_alert world settings device_id alert_type severity message now s).alerts
        ≡ s.alerts ++ new_alert device_id alert_type severity message now s ∷ []
  unfolding create_alert add_alert
  alerts-create_alert device_id alert_type severity message now s =
      let alert = new_alert device_id alert_type severity message now s in
      let (rows, trail, _, _) =
        process_alert_notification-Trail world alert now settings (add_alert alert s) in
      ap (λ (x : Session). x.alerts) trail

  pub length-create_alert :
      (device_id alert_type severity message : String) (now : Time) (s : Session)
      → length (create_alert world settings device_id alert_type severity message now s).alerts
        ≡ length s.alerts + 1
  length-create_alert device_id alert_type severity message now s =
      ap length (alerts-create_alert device_id alert_type severity message now s)
      ∙ length-append s.alerts (new_alert device_id alert_type severity message now s ∷ [])

  -- A new alert is open under its own device and type, and under no other.
  pub open_count-create_alert :
      (device_id alert_type severity message d t : String) (now : Time) (s : Session)
      → open_count d t (create_alert world settings device_id alert_type severity message now s)
        ≡ open_count d t s + (if str_eq device_id d && str_eq alert_type t then 1 else 0)
  unfolding new_alert
  open_count-create_alert device_id alert_type severity message d t now s =
      rw (alerts-create_alert device_id alert_type severity message now s) (
        rw
          (count-append (is_open d t) s.alerts
            (new_alert device_id alert_type severity message now s ∷ []))
          (ground arith))

  -- The query finds an open alert exactly if there is one, and what it finds is open and in the
  -- table.
  pub open_alert_lem :
      (d t : String) (s : Session)
      → ((open_alert world settings d t s ≡ none) × (open_count d t s ≡ 0))
        ⊎ ((a : Alert) × (open_alert world settings d t s ≡ some a)
            × Contains a s.alerts
            × (is_open d t a ≡ true))
  unfolding open_alert
  open_alert_lem d t s = go (filter (is_open d t) s.alerts) refl
    where
      go :
          (rows : List Alert)
          → filter (is_open d t) s.alerts ≡ rows
          → ((world.sql.newest Alert (λ a. a.created_at) (filter (is_open d t) s.alerts) ≡ none)
              × (open_count d t s ≡ 0))
            ⊎ ((a : Alert) × (world.sql.newest Alert
                    (λ a. a.created_at)
                    (filter (is_open d t) s.alerts)
                  ≡ some a)
                × Contains a s.alerts
                × (is_open d t a ≡ true))
      go [] e = inl (
        rw e (world.sql.newest_nil Alert (λ a. a.created_at)),
        sym (length-filter (is_open d t) s.alerts) ∙ ap length e,
      )
      go (x ∷ xs) e =
          let (a, found, m, _) = world.sql.newest_cons Alert (λ a. a.created_at) x xs in
          let (stored, open_row) = Contains-filter (is_open d t) a s.alerts (rw e m) in
          inr (a, rw e found, stored, open_row)

length-map : {A B : Type 0} (f : A → B) (xs : List A) → length (map f xs) ≡ length xs
length-map f [] = refl
length-map f (x ∷ xs) = ap suc (length-map f xs)

-- Resolving never opens, and leaves fewer open alerts of the type if one with its id was open.
mark_resolved-le :
    (d t : String) (id : ℕ) (now : Time) (xs : List Alert)
    → count (is_open d t) (map (mark_resolved id now) xs) ≤ count (is_open d t) xs
mark_resolved-le d t id now [] = omega arith
mark_resolved-le d t id now (x ∷ xs) = ground (arith, mark_resolved-le d t id now xs)

mark_resolved-lt :
    (d t : String) (a : Alert) (now : Time) (xs : List Alert)
    → Contains a xs
    → is_open d t a ≡ true
    → count (is_open d t) (map (mark_resolved a.id now) xs) < count (is_open d t) xs
mark_resolved-lt d t a now [] m h = absurd m
mark_resolved-lt d t a now (x ∷ xs) (inl e) h =
    rw (← e) (ground (arith, mark_resolved-le d t a.id now xs))
mark_resolved-lt d t a now (x ∷ xs) (inr m) h = ground (arith, mark_resolved-lt d t a now xs m h)

pub open_count-resolve_alert :
    (d t : String) (a : Alert) (now : Time) (s : Session)
    → Contains a s.alerts
    → is_open d t a ≡ true
    → open_count d t (resolve_alert a now s) < open_count d t s
unfolding resolve_alert
open_count-resolve_alert d t a now s m h = ground (arith, mark_resolved-lt d t a now s.alerts m h)

pub length-resolve_alert :
    (a : Alert) (now : Time) (s : Session) → length (resolve_alert a now s).alerts ≡ length s.alerts
unfolding resolve_alert
length-resolve_alert a now s = ground (arith, length-map (mark_resolved a.id now) s.alerts)
