-- ===== src/Procedures/Invariants.antt =====
-- What an invocation of api/app/services/device_procedures.py records, and how expiring and
-- superseding change it.
use edgewatch_telemetry.Prelude.{
  ℕ, ◌≤◌, ◌≡◌, String, Bool, true, not, ◌&&◌, Option, none, some, arith, ap, map, if◌then◌else◌,
  count, all, ltb, str_eq, is_some,
}
use edgewatch_telemetry.Prelude.Time.{Time}
use edgewatch_telemetry.Prelude.Tables.{
  update_found-map, update_found-same, count-map-le, count-map-none, all-map,
}
use edgewatch_telemetry.Procedures.{
  ProcedureStatus, queued, in_progress, succeeded, failed, expired, superseded,
  DeviceProcedureInvocation, ProcedureTables, is_waiting,
}
use edgewatch_telemetry.Procedures.Operations.{
  expire_row, expire_invocations, is_replaced, supersede, supersede_pending_invocations,
}

-- an invocation that the device has still to run
abbrev pub is_waiting_for : String → DeviceProcedureInvocation → Bool
is_waiting_for device_id row = str_eq row.device_id device_id && is_waiting row.status

abbrev pub waiting_count : String → ProcedureTables → ℕ
waiting_count device_id tables = count (is_waiting_for device_id) tables.invocations

-- by status, which of the times of acknowledgement, completion and superseding are recorded
abbrev pub times_ok : ProcedureStatus → Bool → Bool → Bool → Bool
times_ok queued acked done replaced = not acked && not done && not replaced
times_ok in_progress acked done replaced = not acked && not done && not replaced
times_ok succeeded acked done replaced = acked && done
times_ok failed acked done replaced = acked && done
times_ok expired acked done replaced = not acked && done && not replaced
times_ok superseded acked done replaced = not acked && done && replaced

abbrev pub is_consistent : DeviceProcedureInvocation → Bool
is_consistent row =
    ltb row.issued_at row.expires_at
    && times_ok row.status (is_some row.acknowledged_at) (is_some row.completed_at)
        (is_some row.superseded_at)

abbrev pub OneWaiting : ProcedureTables → Type 0
OneWaiting tables = (d : String) → waiting_count d tables ≤ 1

abbrev pub Consistent : ProcedureTables → Type 0
Consistent tables = all is_consistent tables.invocations ≡ true

pub waiting_count-expire :
    (d : String) (device_id : Option String) (ts : Time) (t : ProcedureTables)
    → waiting_count d (expire_invocations device_id ts t).0 ≤ waiting_count d t
unfolding expire_invocations
waiting_count-expire d device_id ts t =
    count-map-le (is_waiting_for d) (is_waiting_for d) (expire_row device_id ts) t.invocations
      (λ row h. ground arith)

-- the rows after superseding alone
abbrev pub supersede_row :
    String → Time → Option ℕ → DeviceProcedureInvocation → DeviceProcedureInvocation
supersede_row device_id ts exclude_id row =
    if is_replaced device_id exclude_id row then supersede ts row else row

pub supersede-rows :
    (device_id : String) (ts : Time) (exclude_id : Option ℕ) (t : ProcedureTables)
    → (supersede_pending_invocations device_id ts exclude_id t.invocations t).0
      ≡ record t { invocations = map (supersede_row device_id ts exclude_id) t.invocations }
unfolding supersede_pending_invocations
supersede-rows device_id ts exclude_id t =
    ap (λ rows. record t { invocations = rows })
      (update_found-same (is_replaced device_id exclude_id) (supersede ts) t.invocations)

-- the rows after the two queries of an enqueue, of which the second sees nothing of the first
abbrev pub clear_row : String → Time → DeviceProcedureInvocation → DeviceProcedureInvocation
clear_row device_id ts row =
    if is_replaced device_id none row
    then supersede ts (expire_row (some device_id) ts row)
    else expire_row (some device_id) ts row

abbrev pub cleared_tables : String → Time → ProcedureTables → ProcedureTables
cleared_tables device_id ts t = record t {
  invocations = map (clear_row device_id ts) t.invocations;
}

pub clear-rows :
    (device_id : String) (ts : Time) (t : ProcedureTables)
    → (supersede_pending_invocations device_id ts none t.invocations
        (expire_invocations (some device_id) ts t).0).0
      ≡ cleared_tables device_id ts t
unfolding supersede_pending_invocations expire_invocations
clear-rows device_id ts t =
    ap (λ rows. record t { invocations = rows })
      (update_found-map (is_replaced device_id none) (expire_row (some device_id) ts) (supersede ts)
        t.invocations)

pub waiting_count-supersede :
    (d device_id : String) (ts : Time) (exclude_id : Option ℕ) (t : ProcedureTables)
    → waiting_count d (supersede_pending_invocations device_id ts exclude_id t.invocations t).0
      ≤ waiting_count d t
waiting_count-supersede d device_id ts exclude_id t =
    rw (supersede-rows device_id ts exclude_id t) (
      count-map-le (is_waiting_for d) (is_waiting_for d) (supersede_row device_id ts exclude_id)
        t.invocations (λ row h. ground arith))

pub waiting_count-clear :
    (d device_id : String) (ts : Time) (t : ProcedureTables)
    → waiting_count d (cleared_tables device_id ts t) ≤ waiting_count d t
waiting_count-clear d device_id ts t =
    count-map-le (is_waiting_for d) (is_waiting_for d) (clear_row device_id ts) t.invocations
      (λ row h. ground arith)

pub waiting_count-clear_all :
    (device_id : String) (ts : Time) (t : ProcedureTables)
    → waiting_count device_id (cleared_tables device_id ts t) ≡ 0
waiting_count-clear_all device_id ts t =
    count-map-none (is_waiting_for device_id) (clear_row device_id ts) t.invocations
      (λ row. ground arith)

pub expire-Consistent :
    (device_id : Option String) (ts : Time) (t : ProcedureTables)
    → Consistent t
    → Consistent (expire_invocations device_id ts t).0
unfolding expire_invocations
expire-Consistent device_id ts t =
    all-map is_consistent (expire_row device_id ts) t.invocations (λ row h. ground arith)

pub supersede-Consistent :
    (device_id : String) (ts : Time) (exclude_id : Option ℕ) (t : ProcedureTables)
    → Consistent t
    → Consistent (supersede_pending_invocations device_id ts exclude_id t.invocations t).0
supersede-Consistent device_id ts exclude_id t h = rw (supersede-rows device_id ts exclude_id t) (
    all-map is_consistent (supersede_row device_id ts exclude_id) t.invocations
      (λ row k. ground arith) h)

pub clear-Consistent :
    (device_id : String) (ts : Time) (t : ProcedureTables)
    → Consistent t
    → Consistent (cleared_tables device_id ts t)
clear-Consistent device_id ts t =
    all-map is_consistent (clear_row device_id ts) t.invocations (λ row h. ground arith)
