-- ===== src/Access/Rows.antt =====
-- Grants on the two sides of api/app/services/device_access.py: the ids that
-- `accessible_device_ids_subquery` lists, and the roles that `ensure_device_access` looks up.
use edgewatch_telemetry.Prelude.{
  ◌≡◌, sym, refl, String, true, Bool, ◌&&◌, List, Contains, Contains-map, Contains-filter,
  Contains-for_each, map-Contains, filter-Contains, for_each-Contains, arith, str_eq, eq_iff, false,
}
use mathlib.Core.Path.{subst}
use edgewatch_telemetry.Access.{
  AccessRole, Tables, DeviceAccessGrant, FleetAccessGrant, is_among, direct_ids, fleet_ids,
  direct_rows, fleet_rows,
}

and_true : (a b : Bool) → (a && b) ≡ true → (a ≡ true) × (b ≡ true)
and_true true b h = (refl, h)
and_true false b h = absurd (ground arith)

true_and : (a b : Bool) → a ≡ true → b ≡ true → (a && b) ≡ true
true_and a b h k = rw (h, k) refl

-- A row of a direct grant that the role check accepts lists the device, ...
pub direct_rows-direct_ids :
    (tables : Tables) (email id text : String) (roles : List AccessRole)
    → Contains text (direct_rows tables email id)
    → is_among text roles ≡ true
    → Contains id (direct_ids tables email roles)
unfolding direct_rows direct_ids
direct_rows-direct_ids tables email id text roles m h =
    let (g, kept, e) = Contains-map _ text _ m in
    let (there, tested) =
      Contains-filter
        (λ (g : DeviceAccessGrant). str_eq g.device_id id && str_eq g.principal_email email) g
        tables.device_access_grants kept in
    let (same_id, same_email) = and_true _ _ tested in
    subst (λ i. Contains i (direct_ids tables email roles)) ((eq_iff g.device_id id).0 same_id)
      (map-Contains _ g _ (
        filter-Contains _ g tables.device_access_grants there
          (true_and _ _ same_email (subst (λ t. is_among t roles ≡ true) e h))))

-- ... and a device that is listed has such a row.
pub direct_ids-direct_rows :
    (tables : Tables) (email id : String) (roles : List AccessRole)
    → Contains id (direct_ids tables email roles)
    → (text : String) × Contains text (direct_rows tables email id) × (is_among text roles ≡ true)
unfolding direct_rows direct_ids
direct_ids-direct_rows tables email id roles m =
    let (g, kept, e) = Contains-map _ id _ m in
    let (there, tested) =
      Contains-filter
        (λ (g : DeviceAccessGrant). str_eq g.principal_email email && is_among g.access_role roles)
        g tables.device_access_grants kept in
    let (same_email, among) = and_true _ _ tested in
    (
      g.access_role,
      map-Contains _ g _ (
          filter-Contains _ g tables.device_access_grants there
            (true_and _ _ ((eq_iff g.device_id id).1 (sym e)) same_email)),
      among,
    )

pub fleet_rows-fleet_ids :
    (tables : Tables) (email id text : String) (roles : List AccessRole)
    → Contains text (fleet_rows tables email id)
    → is_among text roles ≡ true
    → Contains id (fleet_ids tables email roles)
unfolding fleet_rows fleet_ids
fleet_rows-fleet_ids tables email id text roles found h =
    let (m, member, in_map) = Contains-for_each _ text tables.fleet_device_memberships found in
    let (g, kept, e) = Contains-map _ text _ in_map in
    let (there, tested) =
      Contains-filter
        (λ (g : FleetAccessGrant).
          str_eq g.fleet_id m.fleet_id && str_eq m.device_id id && str_eq g.principal_email email)
        g tables.fleet_access_grants kept in
    let (rest, same_email) = and_true _ _ tested in
    let (same_fleet, same_id) = and_true _ _ rest in
    subst (λ i. Contains i (fleet_ids tables email roles)) ((eq_iff m.device_id id).0 same_id)
      (for_each-Contains _ m m.device_id tables.fleet_device_memberships member (
        map-Contains (λ (g : FleetAccessGrant). m.device_id) g _
          (filter-Contains _ g tables.fleet_access_grants there (
            true_and _ _ (true_and _ _ same_fleet same_email)
              (subst (λ t. is_among t roles ≡ true) e h)))))

pub fleet_ids-fleet_rows :
    (tables : Tables) (email id : String) (roles : List AccessRole)
    → Contains id (fleet_ids tables email roles)
    → (text : String) × Contains text (fleet_rows tables email id) × (is_among text roles ≡ true)
unfolding fleet_rows fleet_ids
fleet_ids-fleet_rows tables email id roles found =
    let (m, member, in_map) = Contains-for_each _ id tables.fleet_device_memberships found in
    let (g, kept, e) = Contains-map _ id _ in_map in
    let (there, tested) =
      Contains-filter
        (λ (g : FleetAccessGrant).
          str_eq g.fleet_id m.fleet_id
          && str_eq g.principal_email email
          && is_among g.access_role roles)
        g tables.fleet_access_grants kept in
    let (rest, among) = and_true _ _ tested in
    let (same_fleet, same_email) = and_true _ _ rest in
    (
      g.access_role,
      for_each-Contains _ m g.access_role tables.fleet_device_memberships member (
          map-Contains (λ (g : FleetAccessGrant). g.access_role) g _
            (filter-Contains _ g tables.fleet_access_grants there (
              true_and _ _ (true_and _ _ same_fleet ((eq_iff m.device_id id).1 (sym e)))
                same_email))),
      among,
    )
