-- ===== src/Procedures/Soundness.antt =====
-- Invocations of api/app/services/device_procedures.py stay sound through any sequence of operations.
use mathlib.Core.Path.{subst}
use edgewatch_telemetry.Prelude.{
  ℕ, ◌+◌, ◌*◌, max, ◌≡◌, ◌⊎◌, refl, ap, String, true, false, Option, none, some, List, [], ◌∷◌, map,
  arith, lt→ltb, str_eq, eq_iff, count-append, Bool-cases, Option-cases, inl, inr, find,
}
use edgewatch_telemetry.Prelude.Int.{ℤ, clamp_nonneg}
use edgewatch_telemetry.Prelude.Time.{Time}
use edgewatch_telemetry.Prelude.Tables.{count-map-le, all-map, all-append}
use edgewatch_telemetry.DeviceCommands.{Calls, Json}
use edgewatch_telemetry.Procedures.{
  ProcedureStatus, succeeded, failed, DeviceProcedureDefinition, DeviceProcedureInvocation,
  ProcedureTables,
}
use edgewatch_telemetry.Procedures.Operations.{
  create_definition, new_invocation, add_invocation, enqueue_invocation, get_pending_invocation,
  ResultArguments, result_status, complete_row, is_row, complete_if, complete_invocation,
  complete_with,
}
use edgewatch_telemetry.Prelude.Text.{strip}
use edgewatch_telemetry.Procedures.Invariants.{
  is_waiting_for, waiting_count, is_consistent, OneWaiting, Consistent, waiting_count-expire,
  waiting_count-supersede, waiting_count-clear, waiting_count-clear_all, cleared_tables, clear-rows,
  clear-Consistent, expire-Consistent, supersede-Consistent,
}
use edgewatch_telemetry.Procedures.Lifecycle.{
  Operation, expire, supersede, define, enqueue, fetch, complete, apply, run,
}

module _ (device_id : String) (definition : DeviceProcedureDefinition) (requester : String)
    (payload : Option (List (String × Json))) (ttl_s : ℤ) (ts : Time) (t : ProcedureTables) where
  enqueue-rows : enqueue_invocation device_id definition requester payload ttl_s ts t ≡ (
      let row = new_invocation device_id definition requester payload ttl_s ts t.next_id in
      (add_invocation row (cleared_tables device_id ts t), row))
  unfolding enqueue_invocation
  enqueue-rows =
      ap
        (λ (cleared : ProcedureTables).
          let row =
            new_invocation device_id definition requester payload ttl_s ts cleared.next_id in
          (add_invocation row cleared, row))
        (clear-rows device_id ts t)

  enqueue-OneWaiting :
      OneWaiting t
      → OneWaiting (enqueue_invocation device_id definition requester payload ttl_s ts t).0
  unfolding new_invocation
  enqueue-OneWaiting h d =
      let cleared = cleared_tables device_id ts t in
      let row = new_invocation device_id definition requester payload ttl_s ts t.next_id in
      rw (enqueue-rows, count-append (is_waiting_for d) cleared.invocations (row ∷ []))
        (elim (Bool-cases (str_eq device_id d)) [
          | inl same ↦
              let e = (eq_iff device_id d).0 same in
              rw same (
                omega (
                  arith,
                  subst (λ x. waiting_count x cleared ≡ 0) e
                      (waiting_count-clear_all device_id ts t),
                ))
          | inr other ↦ rw other (omega (arith, waiting_count-clear d device_id ts t, h d))
        ])

  enqueue-Consistent :
      Consistent t
      → Consistent (enqueue_invocation device_id definition requester payload ttl_s ts t).0
  unfolding new_invocation
  enqueue-Consistent h = rw enqueue-rows (
      all-append is_consistent (cleared_tables device_id ts t).invocations
        (new_invocation device_id definition requester payload ttl_s ts t.next_id)
        (clear-Consistent device_id ts t h)
        (rw (lt→ltb ts (ts + max 1 (clamp_nonneg ttl_s) * 1000000) (omega arith)) refl))

-- a result is one of success or failure
result_status-cases :
    (s : String)
    → (result_status s ≡ none)
      ⊎ (result_status s ≡ some succeeded)
      ⊎ (result_status s ≡ some failed)
result_status-cases s = elim (Bool-cases (str_eq s "succeeded")) [
  | inl a ↦ inr (inl (rw a refl))
  | inr a ↦ elim (Bool-cases (str_eq s "failed")) [
    | inl b ↦ inr (inr (rw (a, b) refl))
    | inr b ↦ inl (rw (a, b) refl)
  ]
]

complete_row-is_consistent :
    (args : ResultArguments) (normalized : ProcedureStatus) (ts : Time)
    (row : DeviceProcedureInvocation)
    → (normalized ≡ succeeded) ⊎ (normalized ≡ failed)
    → is_consistent row ≡ true
    → is_consistent (complete_row args normalized ts row) ≡ true
unfolding complete_row
complete_row-is_consistent args normalized ts row (inl e) h = rw e (ground arith)
complete_row-is_consistent args normalized ts row (inr e) h = rw e (ground arith)

complete_row-not_waiting :
    (d : String) (args : ResultArguments) (normalized : ProcedureStatus) (ts : Time)
    (row : DeviceProcedureInvocation)
    → (normalized ≡ succeeded) ⊎ (normalized ≡ failed)
    → is_waiting_for d (complete_row args normalized ts row) ≡ false
unfolding complete_row
complete_row-not_waiting d args normalized ts row (inl e) = rw e (ground arith)
complete_row-not_waiting d args normalized ts row (inr e) = rw e (ground arith)

-- A call of complete_invocation leaves the tables as they are or completes one row.
complete_with-keeps :
    (P : ProcedureTables → Type 0) (device_id : String) (id : ℕ) (args : ResultArguments)
    (ts : Time) (t : ProcedureTables) (row : DeviceProcedureInvocation) (s : String)
    → P t
    → ((normalized : ProcedureStatus)
        → (normalized ≡ succeeded) ⊎ (normalized ≡ failed)
        → P (record t {
          invocations = map (complete_if device_id id args normalized ts) t.invocations;
        }))
    → P (complete_with device_id id args ts t row (result_status s)).0
complete_with-keeps P device_id id args ts t row s h changed = elim (result_status-cases s) [
  | inl e ↦ rw e h
  | inr (inl e) ↦ rw e (changed succeeded (inl refl))
  | inr (inr e) ↦ rw e (changed failed (inr refl))
]

complete-keeps :
    (P : ProcedureTables → Type 0) (calls : Calls) (device_id : String) (id : ℕ)
    (args : ResultArguments) (ts : Time) (t : ProcedureTables)
    → P t
    → ((normalized : ProcedureStatus)
        → (normalized ≡ succeeded) ⊎ (normalized ≡ failed)
        → P (record t {
          invocations = map (complete_if device_id id args normalized ts) t.invocations;
        }))
    → P (complete_invocation calls device_id id args ts t).0
unfolding complete_invocation
complete-keeps P calls device_id id args ts t h changed =
    elim (Option-cases (find (is_row device_id id) t.invocations)) [
      | inl missing ↦ rw (missing, complete_invocation) h
      | inr (row, found) ↦
          rw (found, complete_invocation)
            (complete_with-keeps P device_id id args ts t row (calls.lower (strip args.status)) h
              changed)
    ]

complete-OneWaiting :
    (calls : Calls) (device_id : String) (id : ℕ) (args : ResultArguments) (ts : Time)
    (t : ProcedureTables)
    → OneWaiting t
    → OneWaiting (complete_invocation calls device_id id args ts t).0
complete-OneWaiting calls device_id id args ts t h =
    complete-keeps OneWaiting calls device_id id args ts t h (λ normalized e d. omega (
      arith,
      count-map-le (is_waiting_for d) (is_waiting_for d)
          (complete_if device_id id args normalized ts) t.invocations (waited normalized e d),
      h d,
    ))
  where
    false_true : false ≡ true → ⊥
    false_true b = ground arith

    waited :
        (normalized : ProcedureStatus)
        → (normalized ≡ succeeded) ⊎ (normalized ≡ failed)
        → (d : String) (row : DeviceProcedureInvocation)
        → is_waiting_for d (complete_if device_id id args normalized ts row) ≡ true
        → is_waiting_for d row ≡ true
    waited normalized e d row k = elim (Bool-cases (is_row device_id id row)) [
      | inl own ↦
          absurd (false_true (rw (own, complete_row-not_waiting d args normalized ts row e) at k))
      | inr other ↦ rw other at k
    ]

complete-Consistent :
    (calls : Calls) (device_id : String) (id : ℕ) (args : ResultArguments) (ts : Time)
    (t : ProcedureTables)
    → Consistent t
    → Consistent (complete_invocation calls device_id id args ts t).0
complete-Consistent calls device_id id args ts t h =
    complete-keeps Consistent calls device_id id args ts t h (λ normalized e.
      all-map is_consistent (complete_if device_id id args normalized ts) t.invocations
        (kept_consistent normalized e) h)
  where
    kept_consistent :
        (normalized : ProcedureStatus)
        → (normalized ≡ succeeded) ⊎ (normalized ≡ failed)
        → (row : DeviceProcedureInvocation) → is_consistent row ≡ true
        → is_consistent (complete_if device_id id args normalized ts row) ≡ true
    kept_consistent normalized e row k = elim (Bool-cases (is_row device_id id row)) [
      | inl own ↦ rw own (complete_row-is_consistent args normalized ts row e k)
      | inr other ↦ rw other k
    ]

abbrev pub IsSound : ProcedureTables → Type 0
IsSound t = OneWaiting t × Consistent t

apply-IsSound :
    (calls : Calls) (op : Operation) (t : ProcedureTables) → IsSound t → IsSound (apply calls op t)
unfolding apply create_definition get_pending_invocation
apply-IsSound calls (expire device_id ts) t (one, times) = (
  λ d. omega (arith, waiting_count-expire d device_id ts t, one d),
  expire-Consistent device_id ts t times,
)
apply-IsSound calls (supersede device_id ts exclude_id) t (one, times) = (
  λ d. omega (arith, waiting_count-supersede d device_id ts exclude_id t, one d),
  supersede-Consistent device_id ts exclude_id t times,
)
apply-IsSound calls (define args) t h = h
apply-IsSound calls (enqueue device_id definition requester payload ttl_s ts) t (one, times) = (
  enqueue-OneWaiting device_id definition requester payload ttl_s ts t one,
  enqueue-Consistent device_id definition requester payload ttl_s ts t times,
)
apply-IsSound calls (fetch device_id ts) t (one, times) = (
  λ d. omega (arith, waiting_count-expire d (some device_id) ts t, one d),
  expire-Consistent (some device_id) ts t times,
)
apply-IsSound calls (complete device_id id args ts) t (one, times) = (
  complete-OneWaiting calls device_id id args ts t one,
  complete-Consistent calls device_id id args ts t times,
)

-- Through any sequence of operations, from sound tables, the tables stay sound: for each device at
-- most one invocation is queued or in progress; every invocation expires after it is issued; it has
-- a completion time if and only if it is neither queued nor in progress, and an acknowledgement time
-- if and only if it succeeded or failed; one that is superseded has a superseding time, and one that
-- is queued, in progress or expired has none.
pub run-IsSound :
    (calls : Calls) (ops : List Operation) (t : ProcedureTables)
    → IsSound t
    → IsSound (run calls ops t)
unfolding run
run-IsSound calls [] t h = h
run-IsSound calls (op ∷ ops) t h =
    run-IsSound calls ops (apply calls op t) (apply-IsSound calls op t h)
