-- ===== src/Access/Agreement.antt =====
-- api/app/services/device_access.py: `ensure_device_access` against the devices that
-- `accessible_device_ids_subquery` lists.
use edgewatch_telemetry.Prelude.{
  ◌≤◌, ◌≡◌, sym, ◌∙◌, ap, refl, String, true, Bool, Option, none, some, List, ◌++◌, Contains,
  Contains-append, append-Contains-left, append-Contains-right, Bool-cases, inl, inr, length,
  if◌then◌else◌,
}
use mathlib.Core.Path.{subst}
use edgewatch_telemetry.Access.{
  Calls, Principal, AccessRole, role_name, Tables, DeviceScope, unrestricted, device_ids,
  invalid_scope, granted, denied, is_among, allowed_access_roles, direct_ids, direct_rows,
  fleet_rows, scope_of, is_exempt, check_role, check_text, check_rows,
  accessible_device_ids_subquery, ensure_device_access,
}
use edgewatch_telemetry.Access.Rows.{
  direct_rows-direct_ids, direct_ids-direct_rows, fleet_rows-fleet_ids, fleet_ids-fleet_rows,
}
use edgewatch_telemetry.Access.Checks.{
  HaveRole, check_text-name, check_role-granted, check_rows-granted, check_rows-HaveRole,
}

-- the device is in the scope
abbrev pub IsInScope : String → DeviceScope → Type 0
IsInScope id unrestricted = Unit
IsInScope id (device_ids ids) = Contains id ids
IsInScope id invalid_scope = ⊥

-- the rows that reach the device are the names of roles, as normalize_access_role stores them
abbrev pub AreStored : Tables → String → String → Type 0
AreStored tables email id =
    (text : String)
    → Contains text (direct_rows tables email id ++ fleet_rows tables email id)
    → (role : AccessRole) × (text ≡ role_name role)

rows-IsInScope :
    (calls : Calls) (tables : Tables) (email id min_role : String)
    → AreStored tables email id
    → check_rows calls (direct_rows tables email id) (fleet_rows tables email id) min_role ≡ granted
    → IsInScope id (scope_of tables email (allowed_access_roles calls.lower min_role))
rows-IsInScope calls tables email id min_role stored h =
    let (text, there, checked) = check_rows-granted calls _ _ min_role h in
    let (role, named) = stored text there in
    let (roles, allowed, among) = check_role-granted role _ (
      sym (check_text-name calls role min_role)
      ∙ subst (λ t. check_text calls (some t) min_role ≡ granted) named checked) in
    let accepted = subst (λ t. is_among t roles ≡ true) (sym named) among in
    rw allowed (elim (Contains-append text (direct_rows tables email id) _ there) [
      | inl d ↦
          append-Contains-left id _ _ (direct_rows-direct_ids tables email id text roles d accepted)
      | inr f ↦
          append-Contains-right id (direct_ids tables email roles) _
            (fleet_rows-fleet_ids tables email id text roles f accepted)
    ])

-- Where the grants that reach the device are stored under the names of roles, a device that
-- ensure_device_access lets the principal use is within the scope that accessible_device_ids_subquery
-- gives for the same role: there is no scope because the principal is exempt, or the device is listed.
pub ensure_device_access-IsInScope :
    (calls : Calls) (authz_enabled : Bool) (tables : Tables) (principal : Principal)
    (id min_role : String)
    → AreStored tables (calls.lower principal.email) id
    → ensure_device_access calls authz_enabled tables principal id min_role ≡ granted
    → IsInScope id (accessible_device_ids_subquery calls authz_enabled tables principal min_role)
unfolding ensure_device_access accessible_device_ids_subquery
ensure_device_access-IsInScope calls authz_enabled tables principal id min_role stored h =
    elim (Bool-cases (is_exempt authz_enabled principal)) [
      | inl b ↦ rw b tt
      | inr b ↦ rw b (
          rows-IsInScope calls tables (calls.lower principal.email) id min_role stored (
            sym (
              ap
                (λ t.
                  if t
                  then granted
                  else check_rows calls (direct_rows tables (calls.lower principal.email) id)
                      (fleet_rows tables (calls.lower principal.email) id) min_role)
                b)
            ∙ h))
    ]

in_scope-row :
    (tables : Tables) (email id : String) (o : Option (List AccessRole))
    → IsInScope id (scope_of tables email o)
    → (roles : List AccessRole) × (o ≡ some roles)
      × ((text : String) × Contains text (direct_rows tables email id ++ fleet_rows tables email id)
          × (is_among text roles ≡ true))
in_scope-row tables email id none m = absurd m
in_scope-row tables email id (some roles) m = (
  roles,
  refl,
  elim (Contains-append id (direct_ids tables email roles) _ m) [
    | inl d ↦
        let (text, there, among) = direct_ids-direct_rows tables email id roles d in
        (text, append-Contains-left text _ _ there, among)
    | inr f ↦
        let (text, there, among) = fleet_ids-fleet_rows tables email id roles f in
        (text, append-Contains-right text (direct_rows tables email id) _ there, among)
  ],
)

rows-granted :
    (calls : Calls) (tables : Tables) (email id min_role : String) (role : AccessRole)
    → length (direct_rows tables email id) ≤ 1
    → HaveRole role (direct_rows tables email id ++ fleet_rows tables email id)
    → IsInScope id (scope_of tables email (allowed_access_roles calls.lower min_role))
    → check_rows calls (direct_rows tables email id) (fleet_rows tables email id) min_role ≡ granted
rows-granted calls tables email id min_role role le same m =
    let (roles, allowed, (text, there, among)) = in_scope-row tables email id _ m in
    check_rows-HaveRole calls role _ _ text min_role le same there
    ∙ check_text-name calls role min_role
    ∙ ap (check_role role) allowed
    ∙ ap (λ b. if b then granted else denied)
        (subst (λ t. is_among t roles ≡ true) (same text there) among)

-- Where at most one grant is on the device itself, and the grants that reach it, on it or on its
-- fleets, all have one role, ensure_device_access lets the principal use each device within the
-- scope of accessible_device_ids_subquery.
pub accessible_device_ids_subquery-granted :
    (calls : Calls) (authz_enabled : Bool) (tables : Tables) (principal : Principal)
    (id min_role : String)
    → (role : AccessRole) → length (direct_rows tables (calls.lower principal.email) id) ≤ 1
    → HaveRole role (
        direct_rows tables (calls.lower principal.email) id
        ++ fleet_rows tables (calls.lower principal.email) id)
    → IsInScope id (accessible_device_ids_subquery calls authz_enabled tables principal min_role)
    → ensure_device_access calls authz_enabled tables principal id min_role ≡ granted
unfolding ensure_device_access accessible_device_ids_subquery
accessible_device_ids_subquery-granted calls authz_enabled tables principal id min_role role le same
      m =
    elim (Bool-cases (is_exempt authz_enabled principal)) [
      | inl b ↦ rw b refl
      | inr b ↦ rw b (
          rows-granted calls tables (calls.lower principal.email) id min_role role le same (
            subst
              (λ t. IsInScope id (
                if t
                then unrestricted
                else scope_of tables (calls.lower principal.email)
                    (allowed_access_roles calls.lower min_role)))
              b m))
    ]
