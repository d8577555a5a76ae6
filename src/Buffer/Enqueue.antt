-- ===== src/Buffer/Enqueue.antt =====
-- What an enqueue does to the queue of agent/buffer.py, on every outcome of its insertions.
use mathlib.Core.Path.{subst}
use edgewatch_telemetry.Prelude.{
  ℕ, suc, ◌+◌, ◌≤◌, String, ◌≡◌, refl, sym, ap, Bool, true, false, List, [], ◌∷◌, ◌++◌, arith,
  eq_iff, count, any, length, length-append, count-append, str_eq, Bool-cases, inl, inr,
  if◌then◌else◌, ◌==◌, if_cases,
}
use edgewatch_telemetry.Buffer.{
  QueueRow, InsertOutcome, Sqlite, BufferConfig, BufferState, has_message, insert_message,
  evict_oldest, enforce_db_size_limit, record_evictions,
}
use edgewatch_telemetry.Buffer.Operations.{
  Attempt, returned, database_error, finish_enqueue, insert_row, retry_insert, enqueue_op, enqueue,
  run_db,
}
use edgewatch_telemetry.Buffer.Operations.{recover}
use edgewatch_telemetry.Buffer.Rows.{Unique}
use edgewatch_telemetry.Buffer.Accounts.{
  evict_oldest-Lost, enforce_db_size_limit-Enforced, record_evictions-queue,
}

count-none_such :
    (p : QueueRow → Bool) (rows : List QueueRow) → any p rows ≡ false → count p rows ≡ 0
count-none_such p [] h = refl
count-none_such p (r ∷ rs) h = ground (arith, count-none_such p rs)

Unique-append :
    (row : QueueRow) (queue : List QueueRow)
    → Unique queue
    → any (has_message row.message_id) queue ≡ false
    → Unique (queue ++ row ∷ [])
Unique-append row queue u new id = elim (Bool-cases (str_eq row.message_id id)) [
  | inl same ↦
      let e = (eq_iff row.message_id id).0 same in
      let none_had : count (has_message id) queue ≡ 0 =
        subst (λ x. count (has_message x) queue ≡ 0) e
          (count-none_such (has_message row.message_id) queue new) in
      rw (count-append (has_message id) queue (row ∷ []), same) (omega (arith, none_had))
  | inr different ↦
      rw (count-append (has_message id) queue (row ∷ []), different) (omega (arith, u id))
]

-- the queue before and after an insertion
abbrev Inserted : List QueueRow → List QueueRow → Type 0
Inserted before after =
    Unique after × (length before ≤ length after) × (length after ≤ suc (length before))

insert_message-Inserted :
    (row : QueueRow) (queue : List QueueRow)
    → Unique queue
    → Inserted queue (insert_message row queue)
unfolding insert_message
insert_message-Inserted row queue u =
    if_cases (Inserted queue) (any (has_message row.message_id) queue) _ _
      (λ there. (u, omega arith, omega arith))
      (λ new. (
        Unique-append row queue u new,
        omega (arith, length-append queue (row ∷ [])),
        omega (arith, length-append queue (row ∷ [])),
      ))

module _ (sqlite : Sqlite) where
  -- By the result: a message that is accepted adds one row or none, and every other row that left is
  -- in the total of evictions; one that is refused adds none and counts none.
  unfoldable pub Accounted : Bool → BufferState → BufferState → Type 0
  Accounted true s s' =
      Unique s'.queue
      × (length s.queue + s.evictions_total ≤ length s'.queue + s'.evictions_total)
      × (length s'.queue + s'.evictions_total ≤ suc (length s.queue + s.evictions_total))
  Accounted false s s' =
      Unique s'.queue
      × (length s'.queue ≤ length s.queue)
      × (s'.evictions_total ≡ s.evictions_total)

  Attempted : BufferState → Attempt Bool × BufferState → Type 0
  Attempted s (returned b, s') = Accounted b s s'
  Attempted s (database_error corrupt, s') = Accounted false s s'

  finish_enqueue-Attempted :
      (config : BufferConfig) (evicted : ℕ) (s before : BufferState)
      → Unique s.queue
      → (length before.queue ≤ length s.queue + evicted)
      → (length s.queue + evicted ≤ suc (length before.queue))
      → (s.evictions_total ≡ before.evictions_total)
      → Attempted before (finish_enqueue sqlite config evicted s)
  unfolding finish_enqueue Attempted Accounted
  finish_enqueue-Attempted config evicted s before u low high total =
      let enforced = enforce_db_size_limit-Enforced sqlite config s u in
      let (over_quota, s₁) = enforce_db_size_limit sqlite config s in
      let (same, counted) = record_evictions-queue sqlite (evicted + over_quota) s₁ in
      let size : length (record_evictions sqlite (evicted + over_quota) s₁).queue
          ≡ length s₁.queue =
        ap length same in
      (
        subst Unique (sym same) enforced.unique,
        omega (arith, low, total, enforced.accounted, enforced.uncounted, counted, size),
        omega (arith, high, total, enforced.accounted, enforced.uncounted, counted, size),
      )

  retry_insert-Attempted :
      (config : BufferConfig) (row : QueueRow) (evicted : ℕ) (s before : BufferState)
      → Unique s.queue
      → (length before.queue ≡ length s.queue + evicted)
      → (s.evictions_total ≡ before.evictions_total)
      → Attempted before (retry_insert sqlite config row evicted s)
  unfolding retry_insert Attempted Accounted
  retry_insert-Attempted config row evicted s before u gone total =
      by_outcome (sqlite.insert_outcome s.inserts)
    where
      by_outcome :
          (o : InsertOutcome)
          → Attempted before (elim o as (λ x. Attempt Bool × BufferState) [
            | InsertOutcome.done ↦
                finish_enqueue sqlite config evicted
                  (insert_row sqlite row (record s { inserts = suc s.inserts }))
            | InsertOutcome.disk_full ↦ (returned false, record s { inserts = suc s.inserts })
            | InsertOutcome.raised corrupt ↦
                (database_error corrupt, record s { inserts = suc s.inserts })
          ])
      by_outcome InsertOutcome.done =
          let (u', low, high) = insert_message-Inserted row s.queue u in
          finish_enqueue-Attempted config evicted
            (insert_row sqlite row (record s { inserts = suc s.inserts })) before u'
            (omega (arith, low, gone)) (omega (arith, high, gone)) total
      by_outcome InsertOutcome.disk_full = (u, omega (arith, gone), total)
      by_outcome (InsertOutcome.raised corrupt) = (u, omega (arith, gone), total)

  enqueue_op-Attempted :
      (config : BufferConfig) (row : QueueRow) (s : BufferState)
      → Unique s.queue
      → Attempted s (enqueue_op sqlite config row s)
  unfolding enqueue_op Attempted Accounted
  enqueue_op-Attempted config row s u = by_outcome (sqlite.insert_outcome s.inserts)
    where
      by_outcome :
          (o : InsertOutcome)
          → Attempted s (elim o as (λ x. Attempt Bool × BufferState) [
            | InsertOutcome.done ↦
                finish_enqueue sqlite config 0
                  (insert_row sqlite row (record s { inserts = suc s.inserts }))
            | InsertOutcome.disk_full ↦
                (let (evicted, after) =
                    evict_oldest sqlite config.eviction_batch_size
                      (record s { inserts = suc s.inserts }) in
                  if evicted == 0
                  then (returned false, after)
                  else retry_insert sqlite config row evicted after)
            | InsertOutcome.raised corrupt ↦
                (database_error corrupt, record s { inserts = suc s.inserts })
          ])
      by_outcome InsertOutcome.done =
          let (u', low, high) = insert_message-Inserted row s.queue u in
          finish_enqueue-Attempted config 0
            (insert_row sqlite row (record s { inserts = suc s.inserts })) s u' (omega (arith, low))
            (omega (arith, high)) refl
      by_outcome InsertOutcome.disk_full =
          let s₁ = record s { inserts = suc s.inserts } in
          let (evicted, after) = evict_oldest sqlite config.eviction_batch_size s₁ in
          let (u', gone, total) = evict_oldest-Lost sqlite config.eviction_batch_size s₁ u in
          if_cases (Attempted s) (evicted == 0) _ _ (λ nothing. (u', omega (arith, gone), total))
            (λ some_went. retry_insert-Attempted config row evicted after s u' gone total)
      by_outcome (InsertOutcome.raised corrupt) = (u, omega arith, refl)

  -- Where the message ids are unique and no recovery replaces the file, an enqueue keeps them
  -- unique on every outcome. If it returns True, the rows in the queue and the evictions counted
  -- together grow by one at most, and do not shrink: every row that left was counted. If it returns
  -- False, the queue has not grown and nothing was counted.
  pub enqueue_accounts :
      (config : BufferConfig) (message_id : String) (payload : sqlite.Payload) (created_at : String)
      (s : BufferState)
      → Unique s.queue
      → sqlite.recovers ≡ false
      → let (accepted, s') = enqueue sqlite config message_id payload created_at s in
        Accounted accepted s s'
  unfolding enqueue run_db Attempted Accounted
  enqueue_accounts config message_id payload created_at s u lasting =
      recovered (enqueue_op sqlite config row s) (enqueue_op-Attempted config row s u)
    where
      row : QueueRow
      row = record {
        message_id = message_id;
        payload_json = sqlite.dumps payload;
        created_at = created_at;
      }

      recovered :
          (r : Attempt Bool × BufferState)
          → Attempted s r
          → Accounted
              (recover sqlite (enqueue_op sqlite config row) false r).0
              s
              (recover sqlite (enqueue_op sqlite config row) false r).1
      recovered (returned b, s') h = h
      recovered (database_error true, s') h = rw lasting h
      recovered (database_error false, s') h = h
