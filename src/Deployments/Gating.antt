-- ===== src/Deployments/Gating.antt =====
-- Which devices get_item an update command: `get_pending_update_command` of
-- api/app/services/device_updates.py.
use edgewatch_telemetry.Prelude.{
  ℕ, ◌≤◌, ◌<◌, ◌≡◌, inl, inr, refl, sym, ◌∙◌, ap, String, true, false, Option, none, some, List, [],
  ◌∷◌, filter, arith, eq_iff, str_eq, ◌==◌, ==_iff, Contains, Contains-for_each, Contains-map,
  Contains-filter, Option-cases,
}
use mathlib.Core.Path.{subst}
use edgewatch_telemetry.Prelude.Time.{Time}
use edgewatch_telemetry.Prelude.Sql.{Sql, AllRows}
use edgewatch_telemetry.Deployments.{Calls, Tables, Store, OtaDevice, is_active, is_progressing}
use edgewatch_telemetry.Prelude.{find}
use edgewatch_telemetry.Deployments.Commands.{
  UpdateCommand, Candidate, candidates, is_candidate, candidate_key, is_unlocked, command_of,
  unlocked_command, get_pending_update_command,
}

-- the row of the join is made of rows of the tables that belong together
abbrev pub IsJoined : {F : Type 0} → Store F → Candidate F → Type 0
IsJoined store c =
    Contains c.target store.deployment_targets
    × Contains c.deployment store.deployments
    × Contains c.manifest store.manifests
    × (c.deployment.id ≡ c.target.deployment_id)
    × (c.manifest.id ≡ c.deployment.manifest_id)

candidates-IsJoined :
    {F : Type 0} (store : Store F) (c : Candidate F)
    → Contains c (candidates store)
    → IsJoined store c
unfolding candidates
candidates-IsJoined store c m =
    let (t, in_targets, m1) = Contains-for_each _ c store.deployment_targets m in
    let (d, in_joined, m2) =
      Contains-for_each _ c (filter (λ d. d.id == t.deployment_id) store.deployments) m1 in
    let (r, in_manifests, e) =
      Contains-map _ c (filter (λ r. r.id == d.manifest_id) store.manifests) m2 in
    let (in_deployments, same_deployment) =
      Contains-filter (λ d. d.id == t.deployment_id) d store.deployments in_joined in
    let (in_all, same_manifest) =
      Contains-filter (λ r. r.id == d.manifest_id) r store.manifests in_manifests in
    subst (IsJoined store) (sym e) (
      in_targets,
      in_deployments,
      in_all,
      (==_iff d.id t.deployment_id).0 same_deployment,
      (==_iff r.id d.manifest_id).0 same_manifest,
    )

newest-some :
    (sql : Sql) {A : Type 0} (key : A → ℕ) (xs : List A) (a : A)
    → sql.newest A key xs ≡ some a
    → Contains a xs × AllRows (λ b. key b ≤ key a) xs
newest-some sql key [] a h = absurd (none_some (sym (sql.newest_nil _ key) ∙ h))
  where
    none_some : {B : Type 0} {b : B} → none ≡ some b → ⊥
    none_some g = ground arith
newest-some sql {A} key (x ∷ xs) a h =
    let (b, found, there, most) = sql.newest_cons A key x xs in
    subst (λ y. Contains y (x ∷ xs) × AllRows (λ z. key z ≤ key y) (x ∷ xs))
      (ap (λ o. elim o [ some y ↦ y | none ↦ b ]) (sym found ∙ h)) (there, most)

-- the rows of an update that the device is to install now
pub record IsDue (calls : Calls) (device_id : String) (ts : Time) (store : Tables calls)
    (device : OtaDevice) (c : Candidate calls.floats.Value) : Type 0 where
  pub known : find (λ d. str_eq d.device_id device_id) store.devices ≡ some device
  pub not_development : device.ota_is_development ≡ false
  pub unlocked : is_unlocked device.ota_locked_manifest_id c.manifest.id ≡ true
  pub joined : IsJoined store c
  pub own : c.target.device_id ≡ device_id
  pub running : is_active c.deployment.status ≡ true
  pub unexpired : ts < c.deployment.command_expires_at
  pub reached : c.target.stage_assigned ≤ c.deployment.stage
  pub progressing : is_progressing c.target.status ≡ true
  pub active_manifest : c.manifest.status ≡ "active"
  -- no other such row has been written later
  pub newest :
      AllRows
        (λ b. candidate_key b ≤ candidate_key c)
        (filter (is_candidate device_id ts) (candidates store))

is_candidate_lem :
    {F : Type 0} (device_id : String) (ts : Time) (c : Candidate F)
    → is_candidate device_id ts c ≡ true
    → (str_eq c.target.device_id device_id ≡ true)
      × (is_active c.deployment.status ≡ true)
      × (ts < c.deployment.command_expires_at)
      × (c.target.stage_assigned ≤ c.deployment.stage)
      × (is_progressing c.target.status ≡ true)
      × (str_eq c.manifest.status "active" ≡ true)
unfolding is_candidate
is_candidate_lem device_id ts c h = ground arith

chosen :
    {F : Type 0} (device : OtaDevice) (o : Option (Candidate F)) (command : UpdateCommand)
    → unlocked_command device o ≡ some command
    → (c : Candidate F) × (o ≡ some c)
      × (is_unlocked device.ota_locked_manifest_id c.manifest.id ≡ true)
      × (command ≡ command_of device c)
unfolding unlocked_command
chosen device none command h = ground arith
chosen device (some c) command h = (c, refl, ground arith, ground arith)

-- the device and the row of a command
pending_found :
    (calls : Calls) (device_id : String) (ts : Time) (store : Tables calls)
    (command : UpdateCommand)
    → get_pending_update_command calls device_id ts store ≡ some command
    → (device : OtaDevice) × (find (λ d. str_eq d.device_id device_id) store.devices ≡ some device)
      × (device.ota_is_development ≡ false)
      × (unlocked_command device (
            calls.world.sql.newest
              (Candidate calls.floats.Value)
              candidate_key
              (filter (is_candidate device_id ts) (candidates store)))
          ≡ some command)
unfolding get_pending_update_command
pending_found calls device_id ts store command h =
    elim (Option-cases (find (λ d. str_eq d.device_id device_id) store.devices)) [
      | inl e ↦ ground arith
      | inr (device, e) ↦ (device, e, ground arith, ground arith)
    ]

-- A device gets an update command only for a deployment that is active and whose command has not
-- expired, of an active manifest, to a target of the device that the stages so far reach and that
-- has not come to an end, if the device is known, is not for development, and is not locked to
-- another manifest; of several such, for the one written last. The command carries their fields.
pub get_pending_update_command-IsDue :
    (calls : Calls) (device_id : String) (ts : Time) (store : Tables calls)
    (command : UpdateCommand)
    → get_pending_update_command calls device_id ts store ≡ some command
    → (device : OtaDevice) × (c : Candidate calls.floats.Value) × IsDue calls device_id ts store
        device c
      × (command ≡ command_of device c)
unfolding get_pending_update_command
get_pending_update_command-IsDue calls device_id ts store command h =
    let (device, known, not_development, picked) =
      pending_found calls device_id ts store command h in
    let rows = filter (is_candidate device_id ts) (candidates store) in
    let (c, first, unlocked, carried) =
      chosen device (calls.world.sql.newest (Candidate calls.floats.Value) candidate_key rows)
        command picked in
    let (there, newest) = newest-some calls.world.sql candidate_key rows c first in
    let (in_join, passes) =
      Contains-filter (is_candidate device_id ts) c (candidates store) there in
    let (own, running, unexpired, reached, progressing, active_manifest) =
      is_candidate_lem device_id ts c passes in
    (
      device,
      c,
      record {
        known = known;
        not_development = not_development;
        unlocked = unlocked;
        joined = candidates-IsJoined store c in_join;
        own = (eq_iff c.target.device_id device_id).0 own;
        running = running;
        unexpired = unexpired;
        reached = reached;
        progressing = progressing;
        active_manifest = (eq_iff c.manifest.status "active").0 active_manifest;
        newest = newest;
      },
      carried,
    )
