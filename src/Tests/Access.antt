-- ===== src/Tests/Access.antt =====
-- Grants of api/app/services/device_access.py on a device and on two fleets that it belongs to.
use edgewatch_telemetry.Prelude.{
  ℕ, ◌≤◌, ◌≡◌, refl, sym, String, true, Option, none, some, List, [], ◌∷◌, ◌++◌, length, inl, inr,
  leb, str_eq, if◌then◌else◌, Contains, arith, Bool, false,
}
use mathlib.Core.Path.{subst}
use edgewatch_telemetry.Access.{
  Calls, Principal, Tables, FleetAccessGrant, FleetDeviceMembership, operator, granted, denied,
  device_ids, normalize_access_role, allowed_access_roles, roles_from, is_among, direct_ids,
  fleet_ids, direct_rows, fleet_rows, check_text, accessible_device_ids_subquery,
  ensure_device_access,
}
use edgewatch_telemetry.Access.Checks.{HaveRole}
use edgewatch_telemetry.Access.Agreement.{
  IsInScope, AreStored, ensure_device_access-IsInScope, accessible_device_ids_subquery-granted,
}

-- the roles' names in the order of their letters
abbrev rank : String → ℕ
rank text = if str_eq text "viewer" then 2 else if str_eq text "owner" then 1 else 0

abbrev greater : String → Option String → String
greater x none = x
greater x (some y) = if leb (rank x) (rank y) then y else x

abbrev greatest : List String → Option String
greatest [] = none
greatest (x ∷ xs) = some (greater x (greatest xs))

if_Contains :
    (t : Bool) (x b : String) (xs : List String)
    → Contains b xs
    → Contains (if t then b else x) (x ∷ xs)
if_Contains true x b xs m = inr m
if_Contains false x b xs m = inl refl

greatest_lem :
    (x : String) (xs : List String)
    → (a : String) × (greatest (x ∷ xs) ≡ some a) × Contains a (x ∷ xs)
greatest_lem x [] = (x, refl, inl refl)
greatest_lem x (y ∷ ys) =
    let (b, found, there) = greatest_lem y ys in
    (
      greater x (greatest (y ∷ ys)),
      refl,
      subst (λ o. Contains (greater x o) (x ∷ y ∷ ys)) (sym found)
          (if_Contains _ x b (y ∷ ys) there),
    )

abbrev calls : Calls
calls = record {
  lower = λ s. s;
  lower_name = λ role. refl;
  greatest = greatest;
  greatest_nil = refl;
  greatest_cons = greatest_lem;
}

abbrev principal : Principal
principal = record { email = "ann@site"; role = "viewer" }

abbrev member : String → FleetDeviceMembership
member fleet = record { fleet_id = fleet; device_id = "pump-1" }

abbrev fleet_grant : String → String → FleetAccessGrant
fleet_grant fleet role = record {
  fleet_id = fleet;
  principal_email = "ann@site";
  access_role = role;
}

abbrev two_fleets : String → String → Tables
two_fleets first second = record {
  device_access_grants = [];
  fleet_access_grants = fleet_grant "north" first ∷ fleet_grant "south" second ∷ [];
  fleet_device_memberships = member "north" ∷ member "south" ∷ [];
}

operators :
    ensure_device_access calls true (two_fleets "operator" "operator") principal "pump-1" "viewer"
    ≡ granted
unfolding ensure_device_access direct_rows fleet_rows check_text is_among normalize_access_role
    allowed_access_roles roles_from
operators = refl

-- An owner by one fleet who is a viewer by another is refused as a viewer, though the device is
-- listed for owners.
masked :
    ensure_device_access calls true (two_fleets "viewer" "owner") principal "pump-1" "owner"
    ≡ denied
unfolding ensure_device_access direct_rows fleet_rows check_text is_among normalize_access_role
    allowed_access_roles roles_from
masked = refl

masked_is_listed :
    accessible_device_ids_subquery calls true (two_fleets "viewer" "owner") principal "owner"
    ≡ device_ids ("pump-1" ∷ [])
unfolding accessible_device_ids_subquery direct_ids fleet_ids is_among normalize_access_role
    allowed_access_roles roles_from
masked_is_listed = refl

two_operators : HaveRole operator ("operator" ∷ "operator" ∷ [])
two_operators text (inl e) = e
two_operators text (inr (inl e)) = e
two_operators text (inr (inr m)) = absurd m

operator_rows :
    HaveRole operator (fleet_rows (two_fleets "operator" "operator") "ann@site" "pump-1")
unfolding fleet_rows
operator_rows = two_operators

rows-AreStored : AreStored (two_fleets "operator" "operator") "ann@site" "pump-1"
unfolding direct_rows
rows-AreStored text m = (operator, operator_rows text m)

operators-IsInScope : IsInScope "pump-1" (
    accessible_device_ids_subquery calls true (two_fleets "operator" "operator") principal "viewer")
unfolding accessible_device_ids_subquery direct_ids fleet_ids is_among normalize_access_role
    allowed_access_roles roles_from
operators-IsInScope = inl refl

no_direct_rows : HaveRole operator (
    direct_rows (two_fleets "operator" "operator") "ann@site" "pump-1"
    ++ fleet_rows (two_fleets "operator" "operator") "ann@site" "pump-1")
unfolding direct_rows
no_direct_rows = operator_rows

few_direct_rows : length (direct_rows (two_fleets "operator" "operator") "ann@site" "pump-1") ≤ 1
unfolding direct_rows
few_direct_rows = omega arith

ensure_device_access-IsInScope_example : IsInScope "pump-1" (
    accessible_device_ids_subquery calls true (two_fleets "operator" "operator") principal "viewer")
ensure_device_access-IsInScope_example =
    ensure_device_access-IsInScope calls true (two_fleets "operator" "operator") principal "pump-1"
      "viewer" rows-AreStored operators

accessible_device_ids_subquery-granted_example :
    ensure_device_access calls true (two_fleets "operator" "operator") principal "pump-1" "viewer"
    ≡ granted
accessible_device_ids_subquery-granted_example =
    accessible_device_ids_subquery-granted calls true (two_fleets "operator" "operator") principal
      "pump-1" "viewer" operator few_direct_rows no_direct_rows operators-IsInScope
