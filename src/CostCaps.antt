-- ===== src/CostCaps.antt =====
-- agent/cost_caps.py: the durable daily counters that cap what an edge device sends.
-- `CostCapState` is the record below with its file; a method is an action that reads the clock,
-- changes the record and may raise the OSError of `_save`.
-- Outside the program are the clock (the UTC day at each of its readings) and the disk (how each save
-- ends). JSON text is kept as the value that `json.loads` makes of it, so `_save`
-- stores the dict itself.
pub mod Daily
pub mod Storage
use Prim.Native.String.{◌++◌}
use edgewatch_telemetry.Prelude.{
  Option, none, some, ℕ, ◌+◌, ◌≡◌, refl, ◌⊎◌, inl, inr, String, Bool, true, false, ◌||◌, Option,
  none, some, leb, str_eq, if◌then◌else◌,
}
use edgewatch_telemetry.Prelude.Int.{ℤ, pos, clamp_nonneg, is_zero}
use edgewatch_telemetry.Prelude.Text.{strip, show}

pub record CostCapsPolicy : Type 0 where
  pub max_bytes_per_day : ℕ
  pub max_snapshots_per_day : ℕ
  pub max_media_uploads_per_day : ℕ

-- also the dict `self._counters`, whose values are never negative
pub record CostCapCounters : Type 0 where
  pub utc_day : String
  pub bytes_sent_today : ℕ
  pub snapshots_today : ℕ
  pub media_uploads_today : ℕ

-- What `json.loads` can give under a key: `whole n s` is a float equal to the integer n whose `str`
-- is s, and `other` any other float, list or object, with its truth value and its `str`.
pub data JsonValue : Type 0 where
  null : JsonValue
  bool : Bool → JsonValue
  int : ℤ → JsonValue
  whole : ℤ → String → JsonValue
  text : String → JsonValue
  other : Bool → String → JsonValue

-- A mapping as far as the four keys go; a missing key is `null`, as with `parsed.get`.
pub record JsonCounters : Type 0 where
  pub utc_day : JsonValue
  pub bytes_sent_today : JsonValue
  pub snapshots_today : JsonValue
  pub media_uploads_today : JsonValue

-- `self.path`: no file, one that cannot be read, text that is no JSON, JSON that is no mapping
pub data StateFile : Type 0 where
  missing unreadable malformed not_mapping : StateFile
  mapping : JsonCounters → StateFile

pub record CostCapState : Type 0 where
  pub counters : CostCapCounters
  pub file : StateFile
  -- the file beside it with the suffix .tmp
  pub tmp : StateFile
  -- readings of the clock, and saves, so far
  pub readings : ℕ
  pub saves : ℕ

-- How the steps of a save end: the directory cannot be made or the .tmp file not opened, the write
-- breaks off and leaves a .tmp file of whatever has come to the disk, the .tmp file is written but
-- does not replace the other, or all goes well.
pub data SaveOutcome : Type 0 where
  not_opened not_replaced saved : SaveOutcome
  broken_off : StateFile → SaveOutcome

abbrev pub succeeds : SaveOutcome → Bool
succeeds saved = true
succeeds _ = false

pub record Environment : Type 0 where
  pub utc_day_at : ℕ → String
  pub save_outcome : ℕ → SaveOutcome

pub data Result {ℓ} (A : Type ℓ) : Type ℓ where
  ok : A → Result A
  os_error : Result A

pub Result-cases : (r : Result (Unit {0})) → (r ≡ ok tt) ⊎ (r ≡ os_error)
Result-cases (ok tt) = inl refl
Result-cases os_error = inr refl

abbrev pub Action {ℓ} : Type ℓ → Type ℓ
Action A = CostCapState → Result A × CostCapState

infixl 5 ◌>>=◌ ◌>>◌
abbrev pub ◌>>=◌ {ℓ κ} : {A : Type ℓ} {B : Type κ} → Action A → (A → Action B) → Action B
◌>>=◌ m f s = let (r, s') = m s in elim r [ ok a ↦ f a s' | os_error ↦ (os_error, s') ]

abbrev pub ◌>>◌ {ℓ} : {B : Type ℓ} → Action (Unit {0}) → Action B → Action B
m >> k = m >>= λ _. k

abbrev pub pure {ℓ} : {A : Type ℓ} → A → Action A
pure a s = (ok a, s)

unfoldable pub coerce_non_negative_int : JsonValue → ℕ
coerce_non_negative_int (JsonValue.int n) = clamp_nonneg n
coerce_non_negative_int (JsonValue.whole n s) = clamp_nonneg n
coerce_non_negative_int _ = 0

-- `str(value or "")`
unfoldable pub text_or_empty : JsonValue → String
unfolding show
text_or_empty JsonValue.null = ""
text_or_empty (JsonValue.bool b) = if b then "True" else ""
text_or_empty (JsonValue.int n) = if is_zero n then "" else show n
text_or_empty (JsonValue.whole n s) = if is_zero n then "" else s
text_or_empty (JsonValue.text s) = s
text_or_empty (JsonValue.other truthy s) = if truthy then s else ""

unfoldable pub new_day_counters : String → CostCapCounters
new_day_counters day = record {
  utc_day = day;
  bytes_sent_today = 0;
  snapshots_today = 0;
  media_uploads_today = 0;
}

-- what `json.dumps` of the counters reads back as
unfoldable pub dump : CostCapCounters → StateFile
dump c = StateFile.mapping (record {
  utc_day = JsonValue.text c.utc_day;
  bytes_sent_today = JsonValue.int (pos c.bytes_sent_today);
  snapshots_today = JsonValue.int (pos c.snapshots_today);
  media_uploads_today = JsonValue.int (pos c.media_uploads_today);
})

-- The clock is read where no day is found, so the number of readings is returned with the counters.
unfoldable pub load_or_default : (ℕ → String) → StateFile → CostCapCounters × ℕ
unfolding coerce_non_negative_int text_or_empty new_day_counters
load_or_default utc_day_at (StateFile.mapping parsed) =
    let day = strip (text_or_empty parsed.utc_day) in
    (
      record {
        utc_day = if str_eq day "" then utc_day_at 0 else day;
        bytes_sent_today = coerce_non_negative_int parsed.bytes_sent_today;
        snapshots_today = coerce_non_negative_int parsed.snapshots_today;
        media_uploads_today = coerce_non_negative_int parsed.media_uploads_today;
      },
      if str_eq day "" then 1 else 0,
    )
load_or_default utc_day_at _ = (new_day_counters (utc_day_at 0), 1)

-- `mkdir`, `tmp.write_text` and `tmp.replace(self.path)`, by how they end; each OSError is passed on
unfoldable pub save_steps : SaveOutcome → CostCapState → Result (Unit {0}) × CostCapState
unfolding dump
save_steps not_opened s = (os_error, s)
save_steps (broken_off part) s = (os_error, record s { tmp = part })
save_steps not_replaced s = (os_error, record s { tmp = dump s.counters })
save_steps saved s = (ok tt, record s { file = dump s.counters; tmp = StateFile.missing })

-- The methods of a `CostCapState` in its environment.
module _ (env : Environment) where
  -- `_current_utc_day(self._now_fn())`
  unfoldable pub read_utc_day : Action String
  read_utc_day s = (ok (env.utc_day_at s.readings), record s { readings = s.readings + 1 })

  unfoldable pub save : Action (Unit {0})
  unfolding save_steps
  save s = save_steps (env.save_outcome s.saves) (record s { saves = s.saves + 1 })

  unfoldable pub set_counters : CostCapCounters → Action (Unit {0})
  set_counters c s = (ok tt, record s { counters = c })

  unfoldable pub get_counters : Action CostCapCounters
  get_counters s = (ok s.counters, s)

  unfoldable pub ensure_today : Action (Unit {0})
  unfolding read_utc_day get_counters set_counters save new_day_counters
  ensure_today = do
    today ← read_utc_day
    c ← get_counters
    if str_eq c.utc_day today then pure tt else (do set_counters (new_day_counters today); save)

  -- from the file and the .tmp file that are on the disk
  unfoldable pub init : StateFile → StateFile → Result (Unit {0}) × CostCapState
  unfolding load_or_default ensure_today
  init file tmp =
      let (c, n) = load_or_default env.utc_day_at file in
      ensure_today (record { counters = c; file = file; tmp = tmp; readings = n; saves = 0 })

  unfoldable pub counters : Action CostCapCounters
  unfolding ensure_today get_counters
  counters = do ensure_today; get_counters

  unfoldable pub cost_cap_active : CostCapsPolicy → Action Bool
  unfolding counters
  cost_cap_active policy = do
    c ← counters
    pure (
        leb policy.max_bytes_per_day c.bytes_sent_today
        || leb policy.max_snapshots_per_day c.snapshots_today
        || leb policy.max_media_uploads_per_day c.media_uploads_today)

  unfoldable pub telemetry_heartbeat_only : CostCapsPolicy → Action Bool
  unfolding counters
  telemetry_heartbeat_only policy = do
    c ← counters
    pure (leb policy.max_bytes_per_day c.bytes_sent_today)

  unfoldable pub allow_telemetry_reason : String → CostCapsPolicy → Action Bool
  unfolding telemetry_heartbeat_only
  allow_telemetry_reason reason policy = do
    only ← telemetry_heartbeat_only policy
    pure (if only then str_eq reason "heartbeat" || str_eq reason "startup" else true)

  unfoldable pub allow_snapshot_capture : CostCapsPolicy → Action Bool
  unfolding counters
  allow_snapshot_capture policy = do
    c ← counters
    pure (
        if leb policy.max_snapshots_per_day c.snapshots_today
        then false
        else if leb policy.max_media_uploads_per_day c.media_uploads_today
        then false
        else true)

  unfoldable pub record_bytes_sent : ℤ → Action (Unit {0})
  unfolding ensure_today get_counters set_counters save
  record_bytes_sent payload_bytes = do
    ensure_today
    let n = clamp_nonneg payload_bytes
    c ← get_counters
    set_counters (record c { bytes_sent_today = c.bytes_sent_today + n })
    save

  unfoldable pub record_snapshot_capture : Action (Unit {0})
  unfolding ensure_today get_counters set_counters save
  record_snapshot_capture = do
    ensure_today
    c ← get_counters
    set_counters (record c {
      snapshots_today = c.snapshots_today + 1;
      media_uploads_today = c.media_uploads_today + 1;
    })
    save

  -- The counters are read once for themselves and once more by `cost_cap_active`.
  unfoldable pub audit_metrics : CostCapsPolicy → Action (Bool × ℕ × ℕ × ℕ)
  unfolding counters cost_cap_active
  audit_metrics policy = do
    c ← counters
    active ← cost_cap_active policy
    pure (active, c.bytes_sent_today, c.media_uploads_today, c.snapshots_today)

-- the path that `from_env` takes from the environment's variable, or `none` for its CostCapError
unfoldable pub path_from_env : Option String → String → Option String
path_from_env variable device_id =
    let default = "./edgewatch_cost_caps_" ++ (device_id ++ ".json") in
    let raw = strip (elim variable [ none ↦ default | some value ↦ value ]) in
    if str_eq raw "" then none else some raw
