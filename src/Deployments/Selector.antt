-- ===== src/Deployments/Selector.antt =====
-- Which devices a deployment is for: `normalize_target_selector` and `_target_device_ids` of
-- api/app/services/device_updates.py.
use edgewatch_telemetry.Prelude.{
  String, Bool, true, false, not, ◌&&◌, ◌||◌, Option, none, some, List, [], ◌∷◌, map, filter, any,
  all, str_eq, is_some, if◌then◌else◌,
}
use edgewatch_telemetry.Prelude.Text.{strip, or_default, sorted_texts}
use edgewatch_telemetry.Prelude.Dict.{Dict, set_item, get_item}
use edgewatch_telemetry.Deployments.{TargetSelector, OtaDevice, Calls, Outcome, done, value_error}

-- A selector as it is sent, each value by its `str()`; keys that are missing or None are `none`, and
-- labels and ids that are no dict or no list are empty.
pub record RawSelector : Type 0 where
  pub mode : Option String
  pub cohort : Option String
  pub channel : Option String
  pub labels : Dict String
  pub device_ids : List String

-- `str(value).strip()` where there is anything left
unfoldable pub stripped : Option String → Option String
stripped none = none
stripped (some value) = let c = strip value in if str_eq c "" then none else some c

-- the labels whose key and value are not blank, a later one over an earlier one
unfoldable pub normalize_labels : Dict String → Dict String → Dict String
normalize_labels labels [] = labels
normalize_labels labels ((k, v) ∷ rest) =
    let key = strip k in
    let value = strip v in
    normalize_labels
      (if str_eq key "" || str_eq value "" then labels else set_item key value labels) rest

unfoldable pub normalize_ids : List String → List String
normalize_ids ids = sorted_texts (filter (λ v. not (str_eq v "")) (map strip ids))

abbrev pub is_empty_list : {A : Type 0} → List A → Bool
is_empty_list [] = true
is_empty_list (x ∷ xs) = false

-- has the selector what its mode requires?
unfoldable pub is_complete : TargetSelector → Bool
is_complete s =
    not (str_eq s.mode "cohort" && not (is_some s.cohort))
    && not (str_eq s.mode "channel" && not (is_some s.channel))
    && not (str_eq s.mode "labels" && is_empty_list s.labels)
    && not (str_eq s.mode "explicit_ids" && is_empty_list s.device_ids)

abbrev pub is_mode : String → Bool
is_mode mode =
    str_eq mode "all"
    || str_eq mode "cohort"
    || str_eq mode "labels"
    || str_eq mode "explicit_ids"
    || str_eq mode "channel"

-- `raw.get("mode") or "all"`
abbrev pub mode_or_all : Option String → String
mode_or_all none = "all"
mode_or_all (some mode) = or_default mode "all"

unfoldable pub normalize_target_selector : (String → String) → RawSelector → Outcome TargetSelector
unfolding is_complete stripped normalize_labels normalize_ids
normalize_target_selector lower raw =
    let mode = lower (strip (mode_or_all raw.mode)) in
    let normalized : TargetSelector = record {
      mode = mode;
      cohort = stripped raw.cohort;
      channel = stripped raw.channel;
      labels = normalize_labels [] raw.labels;
      device_ids = normalize_ids raw.device_ids;
    } in
    if not (is_mode mode)
    then value_error
    else if is_complete normalized
    then done normalized
    else value_error

-- `labels_map.get(k, "")`
abbrev pub label_or_empty : Option String → String
label_or_empty none = ""
label_or_empty (some value) = value

-- the device has each label that is required
unfoldable pub has_labels : Dict String → Dict String → Bool
has_labels required labels =
    all (λ kv. str_eq (strip (label_or_empty (get_item kv.0 labels))) (strip kv.1)) required

abbrev pub is_text : Option String → String → Bool
is_text none value = false
is_text (some t) value = str_eq t value

-- the condition that the mode adds to the query; a value that is missing selects no device
unfoldable pub is_selected : TargetSelector → OtaDevice → Bool
unfolding has_labels
is_selected s device =
    if str_eq s.mode "explicit_ids"
    then any (str_eq device.device_id) (filter (λ v. not (str_eq v "")) (map strip s.device_ids))
    else if str_eq s.mode "cohort"
    then (let cohort = strip (label_or_empty s.cohort) in
        not (str_eq cohort "") && is_text device.cohort cohort)
    else if str_eq s.mode "channel"
    then (let channel = strip (label_or_empty s.channel) in
        not (str_eq channel "")
        && not device.ota_is_development
        && str_eq device.ota_channel channel)
    else if str_eq s.mode "labels"
    then not (is_empty_list s.labels) && has_labels s.labels device.labels
    else true

unfoldable pub target_device_ids : Calls → TargetSelector → List OtaDevice → List String
unfolding is_selected
target_device_ids calls selector devices =
    map (λ device. device.device_id)
      (calls.by_device_id
        (filter (λ device. device.enabled && is_selected selector device) devices))
