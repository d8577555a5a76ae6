-- ===== src/Deployments/Picked.antt =====
-- The devices that a selector picks: `_target_device_ids` of api/app/services/device_updates.py.
use edgewatch_telemetry.Prelude.{
  ◌≡◌, refl, sym, ◌∙◌, true, ◌&&◌, filter, str_eq, length-filter, String, Bool, List, [], ◌∷◌, map,
  length, count, arith,
}
use edgewatch_telemetry.Deployments.{Calls, TargetSelector, OtaDevice, AreInOrder}
use edgewatch_telemetry.Deployments.Selector.{is_selected, target_device_ids}

-- the device is enabled and what the selector asks for
abbrev pub is_picked : TargetSelector → OtaDevice → Bool
is_picked selector device = device.enabled && is_selected selector device

count-map :
    {A B : Type 0} (p : B → Bool) (f : A → B) (xs : List A)
    → count p (map f xs) ≡ count (λ x. p (f x)) xs
count-map p f [] = refl
count-map p f (x ∷ xs) = ground (arith, count-map p f xs)

count-filter :
    {A : Type 0} (p q : A → Bool) (xs : List A) → count p (filter q xs) ≡ count (λ x. q x && p x) xs
count-filter p q [] = refl
count-filter p q (x ∷ xs) = ground (arith, count-filter p q xs)

length-count : {A : Type 0} (xs : List A) → length xs ≡ count (λ x. true) xs
length-count [] = refl
length-count (x ∷ xs) = omega (arith, length-count xs)

length-map : {A B : Type 0} (f : A → B) (xs : List A) → length (map f xs) ≡ length xs
length-map f [] = refl
length-map f (x ∷ xs) = omega (arith, length-map f xs)

module _ (calls : Calls) (selector : TargetSelector) (devices : List OtaDevice) where
  pub target_device_ids-picked :
      (id : String)
      → count (str_eq id) (target_device_ids calls selector devices)
        ≡ count (λ v. is_picked selector v && str_eq id v.device_id) devices
  unfolding target_device_ids
  target_device_ids-picked id =
      let picked = filter (is_picked selector) devices in
      count-map (str_eq id) (λ v. v.device_id) (calls.by_device_id picked)
      ∙ calls.by_device_id_count (λ v. str_eq id v.device_id) picked
      ∙ count-filter (λ v. str_eq id v.device_id) (is_picked selector) devices

  pub target_device_ids-total :
      length (target_device_ids calls selector devices) ≡ count (is_picked selector) devices
  unfolding target_device_ids
  target_device_ids-total =
      let picked = filter (is_picked selector) devices in
      length-map (λ v. v.device_id) (calls.by_device_id picked)
      ∙ length-count (calls.by_device_id picked)
      ∙ calls.by_device_id_count (λ v. true) picked
      ∙ sym (length-count picked)
      ∙ length-filter (is_picked selector) devices

  pub target_device_ids-AreInOrder :
      AreInOrder calls.collates (target_device_ids calls selector devices)
  unfolding target_device_ids
  target_device_ids-AreInOrder = calls.by_device_id_ordered (filter (is_picked selector) devices)
