-- ===== src/Access.antt =====
-- api/app/services/device_access.py: which devices a principal may use, by grants on a device and by
-- grants on a fleet that the device belongs to. Rows have the columns that are read. A grant's role is
-- text, as the database has it.
pub mod Rows
pub mod Checks
pub mod Agreement
use edgewatch_telemetry.Prelude.{
  ℕ, ◌≤◌, ◌≡◌, String, Bool, true, false, ◌&&◌, ◌||◌, Option, none, some, List, [], ◌∷◌, ◌++◌, map,
  filter, any, leb, str_eq, if◌then◌else◌, Contains, for_each,
}
use edgewatch_telemetry.Prelude.Text.{strip}

pub data AccessRole : Type 0 where
  viewer operator owner : AccessRole

-- the keys of `_ACCESS_ROLE_ORDER`; below, their values and their order
abbrev pub role_name : AccessRole → String
role_name viewer = "viewer"
role_name operator = "operator"
role_name owner = "owner"

-- What the service calls: `s.lower()`, which leaves lower-case words as they are, and the first of some texts in descending order, which is one
-- of them. The order of texts is the database's collation.
pub record Calls : Type 0 where
  pub lower : String → String
  pub lower_name : (role : AccessRole) → lower (role_name role) ≡ role_name role
  pub greatest : List String → Option String
  pub greatest_nil : greatest [] ≡ none
  pub greatest_cons :
      (x : String) (xs : List String)
      → (a : String) × (greatest (x ∷ xs) ≡ some a) × Contains a (x ∷ xs)

pub record Principal : Type 0 where
  pub email : String
  pub role : String

pub record DeviceAccessGrant : Type 0 where
  pub device_id : String
  pub principal_email : String
  pub access_role : String

pub record FleetAccessGrant : Type 0 where
  pub fleet_id : String
  pub principal_email : String
  pub access_role : String

pub record FleetDeviceMembership : Type 0 where
  pub fleet_id : String
  pub device_id : String

pub record Tables : Type 0 where
  pub device_access_grants : List DeviceAccessGrant
  pub fleet_access_grants : List FleetAccessGrant
  pub fleet_device_memberships : List FleetDeviceMembership

abbrev pub role_index : AccessRole → ℕ
role_index viewer = 0
role_index operator = 1
role_index owner = 2

abbrev pub access_roles : List AccessRole
access_roles = viewer ∷ operator ∷ owner ∷ []

abbrev pub role_named : String → Option AccessRole
role_named s =
    if str_eq s "viewer"
    then some viewer
    else if str_eq s "operator"
    then some operator
    else if str_eq s "owner"
    then some owner
    else none

-- nothing where it raises ValueError
unfoldable pub normalize_access_role : (String → String) → String → Option AccessRole
unfolding strip
normalize_access_role lower value = role_named (lower (strip value))

unfoldable pub roles_from : AccessRole → List AccessRole
roles_from min_role = filter (λ role. leb (role_index min_role) (role_index role)) access_roles

-- `text in roles`
unfoldable pub is_among : String → List AccessRole → Bool
is_among text roles = any (λ role. str_eq text (role_name role)) roles

abbrev pub min_roles : Option AccessRole → Option (List AccessRole)
min_roles none = none
min_roles (some min_role) = some (roles_from min_role)

unfoldable pub allowed_access_roles : (String → String) → String → Option (List AccessRole)
unfolding normalize_access_role
allowed_access_roles lower min_access_role = min_roles (normalize_access_role lower min_access_role)

-- the answer of `accessible_device_ids_subquery`: None, the ids, which a UNION lists once, or
-- ValueError
pub data DeviceScope : Type 0 where
  unrestricted : DeviceScope
  device_ids : List String → DeviceScope
  invalid_scope : DeviceScope

unfoldable pub direct_ids : Tables → String → List AccessRole → List String
unfolding is_among
direct_ids tables email roles =
    map (λ (g : DeviceAccessGrant). g.device_id)
      (filter (λ g. str_eq g.principal_email email && is_among g.access_role roles)
        tables.device_access_grants)

unfoldable pub fleet_ids : Tables → String → List AccessRole → List String
unfolding is_among
fleet_ids tables email roles =
    for_each
      (λ (m : FleetDeviceMembership).
        map (λ (g : FleetAccessGrant). m.device_id)
          (filter
            (λ g.
              str_eq g.fleet_id m.fleet_id
              && str_eq g.principal_email email
              && is_among g.access_role roles)
            tables.fleet_access_grants))
      tables.fleet_device_memberships

abbrev pub scope_of : Tables → String → Option (List AccessRole) → DeviceScope
scope_of tables email none = invalid_scope
scope_of tables email (some roles) =
    device_ids (direct_ids tables email roles ++ fleet_ids tables email roles)

abbrev pub is_exempt : Bool → Principal → Bool
is_exempt authz_enabled principal = if authz_enabled then str_eq principal.role "admin" else true

unfoldable pub accessible_device_ids_subquery :
    Calls → Bool → Tables → Principal → String → DeviceScope
unfolding direct_ids fleet_ids allowed_access_roles
accessible_device_ids_subquery calls authz_enabled tables principal min_access_role =
    if is_exempt authz_enabled principal
    then unrestricted
    else scope_of tables (calls.lower principal.email)
        (allowed_access_roles calls.lower min_access_role)

-- `ensure_device_access` returns, raises 403, raises ValueError, or finds two grants where the query
-- allows one
pub data Access : Type 0 where
  granted denied invalid_role many_rows : Access

abbrev pub check_role : AccessRole → Option (List AccessRole) → Access
check_role role none = invalid_role
check_role role (some roles) = if is_among (role_name role) roles then granted else denied

abbrev pub check_normalized : Option AccessRole → Option (List AccessRole) → Access
check_normalized none roles = invalid_role
check_normalized (some role) roles = check_role role roles

unfoldable pub check_text : Calls → Option String → String → Access
unfolding is_among normalize_access_role allowed_access_roles
check_text calls none min_access_role = denied
check_text calls (some text) min_access_role =
    check_normalized (normalize_access_role calls.lower text)
      (allowed_access_roles calls.lower min_access_role)

unfoldable pub direct_rows : Tables → String → String → List String
direct_rows tables email id =
    map (λ (g : DeviceAccessGrant). g.access_role)
      (filter (λ g. str_eq g.device_id id && str_eq g.principal_email email)
        tables.device_access_grants)

unfoldable pub fleet_rows : Tables → String → String → List String
fleet_rows tables email id =
    for_each
      (λ (m : FleetDeviceMembership).
        map (λ (g : FleetAccessGrant). g.access_role)
          (filter
            (λ g.
              str_eq g.fleet_id m.fleet_id
              && str_eq m.device_id id
              && str_eq g.principal_email email)
            tables.fleet_access_grants))
      tables.fleet_device_memberships

abbrev pub check_rows : Calls → List String → List String → String → Access
check_rows calls [] in_fleets min_access_role =
    check_text calls (calls.greatest in_fleets) min_access_role
check_rows calls (text ∷ []) in_fleets min_access_role =
    check_text calls (some text) min_access_role
check_rows calls (text ∷ _ ∷ _) in_fleets min_access_role = many_rows

unfoldable pub ensure_device_access : Calls → Bool → Tables → Principal → String → String → Access
unfolding direct_rows fleet_rows check_text
ensure_device_access calls authz_enabled tables principal id min_access_role =
    let email = calls.lower principal.email in
    if is_exempt authz_enabled principal
    then granted
    else check_rows calls (direct_rows tables email id) (fleet_rows tables email id) min_access_role
