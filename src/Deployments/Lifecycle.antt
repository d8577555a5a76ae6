-- ===== src/Deployments/Lifecycle.antt =====
-- The life of a deployment through any sequence of operations of
-- api/app/services/device_updates.py. An operation that names a deployment reads it by its id.
use edgewatch_telemetry.Prelude.{
  ℕ, ◌≤◌, ◌≡◌, ◌==◌, refl, ap, map, String, Bool, true, false, Option, none, some, List, [], ◌∷◌,
  arith, Option-cases, inl, inr, if◌then◌else◌,
}
use edgewatch_telemetry.Prelude.Time.{Time}
use edgewatch_telemetry.Deployments.{
  Calls, Tables, DeploymentRow, DeploymentStatus, ReleaseManifest, Outcome, done, value_error,
  lookup_error, is_ended,
}
use edgewatch_telemetry.Deployments.Operations.{
  DeploymentArguments, create_deployment, pause_deployment, resume_deployment, abort_deployment,
}
use edgewatch_telemetry.Deployments.Manifests.{ManifestArguments, create_release_manifest}
use edgewatch_telemetry.Deployments.Reports.{report_device_update}
use edgewatch_telemetry.Deployments.Statuses.{
  Kind, pausing, resuming, aborting, reporting, idle, Follows, ended-Follows,
}
use edgewatch_telemetry.Deployments.Rows.{row_of, row_of-id}
use edgewatch_telemetry.Deployments.Moves.{
  OnDone, AtIn, own_row, same_id, report-AtIn, create-AtIn, pause-AtIn, resume-AtIn, abort-AtIn,
}

-- a call of the service that may write
pub data Operation (calls : Calls) : Type 0 where
  create_manifest : ManifestArguments → Time → Operation calls
  create : DeploymentArguments calls.floats.Value → ReleaseManifest → Time → Time → Operation calls
  pause : ℕ → Time → Time → Operation calls
  resume : ℕ → Time → Time → Operation calls
  abort : ℕ → Option String → Time → Time → Operation calls
  report : ℕ → String → String → Option String → Option String → Time → Time → Operation calls

-- the tables that a call leaves; one that raises leaves them as they were
abbrev pub after : {A S : Type 0} → S → Outcome (A × S) → S
after store (done (a, store')) = store'
after store value_error = store
after store lookup_error = store

-- the call on the deployment of an id, if there is one
unfoldable pub on_row :
    (calls : Calls)
    → ℕ
    → (DeploymentRow calls → Outcome (DeploymentRow calls × Tables calls))
    → Tables calls
    → Tables calls
on_row calls id call store = elim (row_of id store.deployments) [
  | none ↦ store
  | some d ↦ after store (call d)
]

unfoldable pub apply : (calls : Calls) → Operation calls → Tables calls → Tables calls
unfolding on_row
apply calls (create_manifest a stored_at) store =
    after store (create_release_manifest calls a stored_at store)
apply calls (create a manifest ts stored_at) store =
    after store (create_deployment calls a manifest ts stored_at store)
apply calls (Operation.pause id now stored_at) store =
    on_row calls id (λ d. pause_deployment calls d now stored_at store) store
apply calls (Operation.resume id now stored_at) store =
    on_row calls id (λ d. resume_deployment calls d now stored_at store) store
apply calls (abort id reason now stored_at) store =
    on_row calls id (λ d. abort_deployment calls d reason now stored_at store) store
apply calls (report id device_id state code detail ts clock) store =
    after store (report_device_update calls id device_id state code detail ts clock store)

unfoldable pub run : (calls : Calls) → List (Operation calls) → Tables calls → Tables calls
unfolding apply
run calls [] store = store
run calls (op ∷ ops) store = run calls ops (apply calls op store)

-- what an operation is to the deployment of `k`
abbrev pub kind_if : Bool → Kind → Kind
kind_if true kind = kind
kind_if false kind = idle

abbrev pub kind_on : {calls : Calls} → ℕ → Operation calls → Kind
kind_on k (create_manifest a stored_at) = idle
kind_on k (create a manifest ts stored_at) = idle
kind_on k (Operation.pause id now stored_at) = kind_if (id == k) pausing
kind_on k (Operation.resume id now stored_at) = kind_if (id == k) resuming
kind_on k (abort id reason now stored_at) = kind_if (id == k) aborting
kind_on k (report id device_id state code detail ts clock) = kind_if (id == k) reporting

kind_if-true : (b : Bool) (kind : Kind) → b ≡ true → kind_if b kind ≡ kind
kind_if-true b kind h = ap (λ x. kind_if x kind) h

module _ (calls : Calls) (k n : ℕ) (kind : Kind) (s : DeploymentStatus) where
  checked :
      (b : Bool) (o : Outcome (ReleaseManifest × Tables calls))
      → OnDone (AtIn calls k n kind s) o
      → OnDone (AtIn calls k n kind s) (if b then value_error else o)
  checked true o h = tt
  checked false o h = h

  manifest-AtIn :
      (a : ManifestArguments) (stored_at : Time) (store : Tables calls)
      → AtIn calls k n kind s store
      → OnDone (AtIn calls k n kind s) (create_release_manifest calls a stored_at store)
  unfolding create_release_manifest
  manifest-AtIn a stored_at store h = search checked

  after-AtIn :
      {A : Type 0} (store : Tables calls) (o : Outcome (A × Tables calls))
      → AtIn calls k n kind s store
      → OnDone (AtIn calls k n kind s) o
      → AtIn calls k n kind s (after store o)
  after-AtIn store (done (a, store')) h g = g
  after-AtIn store value_error h g = h
  after-AtIn store lookup_error h g = h

  on_row-AtIn :
      (id : ℕ) (call : DeploymentRow calls → Outcome (DeploymentRow calls × Tables calls))
      (store : Tables calls)
      → ((d : DeploymentRow calls)
          → d.id ≡ id
          → row_of d.id store.deployments ≡ some d
          → OnDone (AtIn calls k n kind s) (call d))
      → AtIn calls k n kind s store
      → AtIn calls k n kind s (on_row calls id call store)
  unfolding on_row
  on_row-AtIn id call store g h = elim (Option-cases (row_of id store.deployments)) [
    | inl e ↦ rw (e, on_row) h
    | inr (d, e) ↦
        rw (e, on_row)
          (after-AtIn store (call d) h (
            g d (row_of-id id d store.deployments e)
              (own_row calls k n kind s id d store.deployments e)))
  ]

-- before the operation nothing has changed yet
begun :
    (calls : Calls) (k n : ℕ) (s : DeploymentStatus) (kind : Kind) (store : Tables calls)
    → AtIn calls k n idle s store
    → AtIn calls k n kind s store
begun calls k n s kind store (d, there, inl e, low) = (d, there, inl e, low)
begun calls k n s kind store (d, there, inr m, low) = elim m [ ]

-- An operation makes at most one change of its kind, and takes the deployment back no stage.
apply-AtIn :
    (calls : Calls) (k n : ℕ) (s : DeploymentStatus) (op : Operation calls) (store : Tables calls)
    → AtIn calls k n idle s store
    → AtIn calls k n (kind_on k op) s (apply calls op store)
unfolding apply
apply-AtIn calls k n s (create_manifest a stored_at) store h =
    after-AtIn calls k n idle s store (create_release_manifest calls a stored_at store) h
      (manifest-AtIn calls k n idle s a stored_at store h)
apply-AtIn calls k n s (create a manifest ts stored_at) store h =
    after-AtIn calls k n idle s store (create_deployment calls a manifest ts stored_at store) h
      (create-AtIn calls k n idle s a manifest ts stored_at store h)
apply-AtIn calls k n s (Operation.pause id now stored_at) store h =
    let kind = kind_if (id == k) pausing in
    let h' = begun calls k n s kind store h in
    on_row-AtIn calls k n kind s id (λ d. pause_deployment calls d now stored_at store) store
      (λ d same found.
        pause-AtIn calls k n kind s d now stored_at store found
          (same_id calls k n kind s id d same (kind_if-true (id == k) pausing)) h')
      h'
apply-AtIn calls k n s (Operation.resume id now stored_at) store h =
    let kind = kind_if (id == k) resuming in
    let h' = begun calls k n s kind store h in
    on_row-AtIn calls k n kind s id (λ d. resume_deployment calls d now stored_at store) store
      (λ d same found.
        resume-AtIn calls k n kind s d now stored_at store found
          (same_id calls k n kind s id d same (kind_if-true (id == k) resuming)) h')
      h'
apply-AtIn calls k n s (abort id reason now stored_at) store h =
    let kind = kind_if (id == k) aborting in
    let h' = begun calls k n s kind store h in
    on_row-AtIn calls k n kind s id (λ d. abort_deployment calls d reason now stored_at store) store
      (λ d same found.
        abort-AtIn calls k n kind s d reason now stored_at store found
          (same_id calls k n kind s id d same (kind_if-true (id == k) aborting)) h')
      h'
apply-AtIn calls k n s (report id device_id state code detail ts clock) store h =
    let kind = kind_if (id == k) reporting in
    let h' = begun calls k n s kind store h in
    after-AtIn calls k n kind s store
      (report_device_update calls id device_id state code detail ts clock store) h'
      (report-AtIn calls k n kind s id device_id state code detail ts clock store
        (kind_if-true (id == k) reporting) h')

-- Through any sequence of operations a deployment keeps its row and never goes back a stage, and each
-- operation in turn leaves its status or makes the one change that is its own: a pause takes an active
-- one to paused, a resume a paused one to active, an abort an active, paused or halted one to aborted,
-- a report an active one to halted or completed; an operation on another deployment, or one that
-- creates something, makes none.
pub run-Follows :
    (calls : Calls) (ops : List (Operation calls)) (store : Tables calls) (k : ℕ)
    (d : DeploymentRow calls)
    → row_of k store.deployments ≡ some d
    → (d' : DeploymentRow calls) × (row_of k (run calls ops store).deployments ≡ some d')
      × Follows (map (kind_on k) ops) d.status d'.status
      × (d.stage ≤ d'.stage)
unfolding run
run-Follows calls [] store k d there = (d, there, refl, omega arith)
run-Follows calls (op ∷ ops) store k d there =
    let (d1, there1, changed, later1) =
      apply-AtIn calls k d.stage d.status op store (d, there, inl refl, omega arith) in
    let (d2, there2, followed, later2) = run-Follows calls ops (apply calls op store) k d1 there1 in
    (d2, there2, (d1.status, changed, followed), omega (arith, later1, later2))

-- A deployment that is aborted or completed has that status through any sequence of operations.
pub run-ended :
    (calls : Calls) (ops : List (Operation calls)) (store : Tables calls) (k : ℕ)
    (d : DeploymentRow calls)
    → row_of k store.deployments ≡ some d
    → is_ended d.status ≡ true
    → (d' : DeploymentRow calls) × (row_of k (run calls ops store).deployments ≡ some d')
      × (d'.status ≡ d.status)
run-ended calls ops store k d there ended =
    let (d', there', followed, later) = run-Follows calls ops store k d there in
    (d', there', ended-Follows (map (kind_on k) ops) d.status d'.status followed ended)
