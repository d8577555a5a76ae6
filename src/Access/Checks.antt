-- ===== src/Access/Checks.antt =====
-- How `ensure_device_access` of api/app/services/device_access.py checks the rows it has found.
use edgewatch_telemetry.Prelude.{
  ◌≤◌, ◌≡◌, sym, ◌∙◌, ap, refl, String, true, Option, none, some, List, [], ◌∷◌, ◌++◌, Contains,
  arith, Bool-cases, Option-cases, inl, inr, length, if◌then◌else◌,
}
use mathlib.Core.Path.{subst}
use edgewatch_telemetry.Access.{
  Calls, AccessRole, viewer, operator, owner, role_name, granted, denied, many_rows, is_among,
  role_named, normalize_access_role, allowed_access_roles, check_role, check_normalized, check_text,
  check_rows,
}

abbrev pub HaveRole : AccessRole → List String → Type 0
HaveRole role texts = (text : String) → Contains text texts → text ≡ role_name role

role_named-name : (role : AccessRole) → role_named (role_name role) ≡ some role
role_named-name viewer = refl
role_named-name operator = refl
role_named-name owner = refl

normalize_access_role-name :
    (calls : Calls) (role : AccessRole)
    → normalize_access_role calls.lower (role_name role) ≡ some role
unfolding normalize_access_role
normalize_access_role-name calls viewer = ap role_named (calls.lower_name viewer)
normalize_access_role-name calls operator = ap role_named (calls.lower_name operator)
normalize_access_role-name calls owner = ap role_named (calls.lower_name owner)

pub check_text-name :
    (calls : Calls) (role : AccessRole) (min_role : String)
    → check_text calls (some (role_name role)) min_role
      ≡ check_role role (allowed_access_roles calls.lower min_role)
unfolding check_text
check_text-name calls role min_role =
    ap (λ r. check_normalized r (allowed_access_roles calls.lower min_role))
      (normalize_access_role-name calls role)

pub check_role-granted :
    (role : AccessRole) (o : Option (List AccessRole))
    → check_role role o ≡ granted
    → (roles : List AccessRole) × (o ≡ some roles) × (is_among (role_name role) roles ≡ true)
check_role-granted role none h = absurd (ground arith)
check_role-granted role (some roles) h = elim (Bool-cases (is_among (role_name role) roles)) [
  | inl b ↦ (roles, refl, b)
  | inr b ↦ absurd (denied_granted (sym (ap (λ t. if t then granted else denied) b) ∙ h))
]
  where
    denied_granted : denied ≡ granted → ⊥
    denied_granted e = ground arith

greatest-Contains :
    (calls : Calls) (xs : List String) (a : String) → calls.greatest xs ≡ some a → Contains a xs
greatest-Contains calls [] a h = absurd (none_some (sym calls.greatest_nil ∙ h))
  where
    none_some : {a : String} → none ≡ some a → ⊥
    none_some g = ground arith
greatest-Contains calls (x ∷ xs) a h =
    let (b, found, there) = calls.greatest_cons x xs in
    subst (λ y. Contains y (x ∷ xs)) (some_eq b a (sym found ∙ h)) there
  where
    some_eq : (b a : String) → some b ≡ some a → b ≡ a
    some_eq b a e = ground arith

-- Access is granted on one of the rows.
pub check_rows-granted :
    (calls : Calls) (direct in_fleets : List String) (min_role : String)
    → check_rows calls direct in_fleets min_role ≡ granted
    → (text : String) × Contains text (direct ++ in_fleets)
      × (check_text calls (some text) min_role ≡ granted)
unfolding check_text
check_rows-granted calls [] in_fleets min_role h = elim (Option-cases (calls.greatest in_fleets)) [
  | inl e ↦ absurd (denied_granted (sym (ap (λ o. check_text calls o min_role) e) ∙ h))
  | inr (text, e) ↦ (
    text,
    greatest-Contains calls in_fleets text e,
    sym (ap (λ o. check_text calls o min_role) e) ∙ h,
  )
]
  where
    denied_granted : denied ≡ granted → ⊥
    denied_granted e = ground arith
check_rows-granted calls (text ∷ []) in_fleets min_role h = (text, inl refl, h)
check_rows-granted calls (text ∷ _ ∷ _) in_fleets min_role h = absurd (many_granted h)
  where
    many_granted : many_rows ≡ granted → ⊥
    many_granted e = ground arith

pub check_rows-HaveRole :
    (calls : Calls) (role : AccessRole) (direct in_fleets : List String) (text min_role : String)
    → length direct ≤ 1
    → HaveRole role (direct ++ in_fleets)
    → Contains text (direct ++ in_fleets)
    → check_rows calls direct in_fleets min_role ≡ check_text calls (some (role_name role)) min_role
unfolding check_text
check_rows-HaveRole calls role [] [] text min_role le same m = absurd m
check_rows-HaveRole calls role [] (x ∷ xs) text min_role le same m =
    let (a, found, there) = calls.greatest_cons x xs in
    ap (λ o. check_text calls o min_role) (found ∙ ap some (same a there))
check_rows-HaveRole calls role (t ∷ []) in_fleets text min_role le same m =
    ap (λ s. check_text calls (some s) min_role) (same t (inl refl))
check_rows-HaveRole calls role (t ∷ u ∷ rest) in_fleets text min_role le same m =
    absurd (omega arith)
