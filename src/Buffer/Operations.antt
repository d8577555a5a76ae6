-- ===== src/Buffer/Operations.antt =====
-- The operations of SqliteBuffer in agent/buffer.py on the queue.
use edgewatch_telemetry.Prelude.{
  ℕ, suc, ◌+◌, ◌-◌, String, Bool, true, false, ◌&&◌, none, some, List, [], map, filter, ltb, ◌==◌,
  length, take, if◌then◌else◌,
}
use edgewatch_telemetry.Prelude.Int.{ℤ, pos, negsuc, pos_part, neg_part}
use edgewatch_telemetry.Prelude.Time.{Time, seconds}
use edgewatch_telemetry.Buffer.{
  QueueRow, InsertOutcome, Sqlite, BufferConfig, BufferState, insert_message, delete_message,
  delete_messages, limit_rows, drop_oldest, evict_oldest, enforce_db_size_limit, record_evictions,
}

-- how a block of statements ends: with a result, or with an error of SQLite that says that the file
-- is corrupt or not
pub data Attempt (A : Type 0) : Type 0 where
  returned : A → Attempt A
  database_error : Bool → Attempt A

pub record BufferedMessage (A : Type 0) : Type 0 where
  pub message_id : String
  pub payload : A
  pub created_at : String

-- how many rows are above the maximum
abbrev pub excess : ℕ → ℤ → ℕ
excess n (pos max_messages) = n - max_messages
excess n (negsuc below) = n + suc below

module _ (sqlite : Sqlite) where
  -- the result of a second attempt, or the fallback
  abbrev pub or_fallback : {A : Type 0} → A → Attempt A × BufferState → A × BufferState
  or_fallback fallback (returned a, s) = (a, s)
  or_fallback fallback (database_error corrupt, s) = (fallback, s)

  abbrev pub recover :
      {A : Type 0}
      → (BufferState → Attempt A × BufferState)
      → A
      → Attempt A × BufferState
      → A × BufferState
  recover fn fallback (returned a, s) = (a, s)
  recover fn fallback (database_error corrupt, s) =
      let retried = or_fallback fallback (fn (record s { queue = [] })) in
      if corrupt && sqlite.recovers then retried else (fallback, s)

  unfoldable pub run_db :
      {A : Type 0} → (BufferState → Attempt A × BufferState) → A → BufferState → A × BufferState
  run_db fn fallback s = recover fn fallback (fn s)

  -- what follows an insertion, after `evicted` rows were evicted for it
  unfoldable pub finish_enqueue : BufferConfig → ℕ → BufferState → Attempt Bool × BufferState
  finish_enqueue config evicted s =
      let (over_quota, s') = enforce_db_size_limit sqlite config s in
      (returned true, record_evictions sqlite (evicted + over_quota) s')

  abbrev pub insert_row : QueueRow → BufferState → BufferState
  insert_row row s = record s { queue = insert_message row s.queue }

  -- the second insertion, into a disk from which rows were evicted
  unfoldable pub retry_insert :
      BufferConfig → QueueRow → ℕ → BufferState → Attempt Bool × BufferState
  retry_insert config row evicted s =
      let tried = record s { inserts = suc s.inserts } in
      elim (sqlite.insert_outcome s.inserts) [
        | InsertOutcome.done ↦ finish_enqueue config evicted (insert_row row tried)
        | InsertOutcome.disk_full ↦ (returned false, tried)
        | InsertOutcome.raised corrupt ↦ (database_error corrupt, tried)
      ]

  unfoldable pub enqueue_op : BufferConfig → QueueRow → BufferState → Attempt Bool × BufferState
  enqueue_op config row s =
      let tried = record s { inserts = suc s.inserts } in
      elim (sqlite.insert_outcome s.inserts) [
        | InsertOutcome.done ↦ finish_enqueue config 0 (insert_row row tried)
        | InsertOutcome.disk_full ↦
            let (evicted, after) = evict_oldest sqlite config.eviction_batch_size tried in
            if evicted == 0 then (returned false, after) else retry_insert config row evicted after
        | InsertOutcome.raised corrupt ↦ (database_error corrupt, tried)
      ]

  unfoldable pub enqueue :
      BufferConfig → String → sqlite.Payload → String → BufferState → Bool × BufferState
  enqueue config message_id payload created_at s =
      run_db
        (enqueue_op config (record {
          message_id = message_id;
          payload_json = sqlite.dumps payload;
          created_at = created_at;
        }))
        false s

  -- a payload that is no JSON, or no dict, is read as an empty one
  unfoldable pub read_row : QueueRow → BufferedMessage sqlite.Payload
  read_row row = record {
    message_id = row.message_id;
    payload = elim (sqlite.loads row.payload_json) [
      | none ↦ sqlite.empty_payload
      | some payload ↦ payload
    ];
    created_at = row.created_at;
  }

  unfoldable pub dequeue_batch : ℤ → BufferState → List (BufferedMessage sqlite.Payload)
  unfolding read_row
  dequeue_batch limit s = map read_row (limit_rows limit (sqlite.oldest_first s.queue))

  unfoldable pub delete : String → BufferState → BufferState
  delete message_id s = record s { queue = delete_message message_id s.queue }

  unfoldable pub queue_count : BufferState → ℕ
  queue_count s = length s.queue

  -- its time can be read and is before the cutoff, whose floats are taken to be exact
  unfoldable pub is_expired : ℤ → Time → QueueRow → Bool
  is_expired max_age_s now row = elim (sqlite.timestamp row.created_at) [
    | none ↦ false
    | some t ↦ ltb (t + seconds (pos_part max_age_s)) (now + seconds (neg_part max_age_s))
  ]

  unfoldable pub prune_age : ℤ → Time → List QueueRow → ℕ × List QueueRow
  prune_age max_age_s now queue =
      let expired = filter (is_expired max_age_s now) (sqlite.oldest_first queue) in
      (length expired, delete_messages expired queue)

  unfoldable pub prune_size : ℤ → List QueueRow → ℕ × List QueueRow
  prune_size max_messages queue =
      let to_drop = excess (length queue) max_messages in
      (length (take to_drop (sqlite.oldest_first queue)), drop_oldest sqlite to_drop queue)

  unfoldable pub prune : BufferConfig → ℤ → ℤ → Time → BufferState → ℕ × BufferState
  prune config max_messages max_age_s now s =
      let (too_old, young) = prune_age max_age_s now s.queue in
      let (too_many, few) = prune_size max_messages young in
      let (quota_evicted, s') = enforce_db_size_limit sqlite config (record s { queue = few }) in
      (too_old + too_many + quota_evicted, record_evictions sqlite quota_evicted s')
