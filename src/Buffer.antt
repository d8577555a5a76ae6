-- ===== src/Buffer.antt =====
-- agent/buffer.py, SqliteBuffer: the agent's queue of telemetry points in a SQLite file. The state
-- is the table `queue` with the counts of what was asked of SQLite and of the file system so far,
-- whose answers are parameters: an INSERT may find the disk full or raise, and the file may have any
-- size. Other statements succeed. A recovery moves the corrupt files away, or leaves them.
pub mod Operations
pub mod Rows
pub mod Accounts
pub mod Enqueue
pub mod Order
use edgewatch_telemetry.Prelude.{
  ℕ, zero, suc, ◌+◌, ◌-◌, max, String, ◌≡◌, Bool, true, false, not, ◌&&◌, Option, none, some, List,
  [], ◌∷◌, ◌++◌, map, filter, ltb, ◌==◌, str_eq, count, any, length, take, if◌then◌else◌,
}
use edgewatch_telemetry.Prelude.Int.{ℤ, pos, negsuc, pos_part, neg_part, clamp_nonneg}
use edgewatch_telemetry.Prelude.Text.{leb_text}
use edgewatch_telemetry.Prelude.Time.{Time, seconds}
use edgewatch_telemetry.Prelude.Sql.{AllRows}

-- a row of the table `queue`
pub record QueueRow : Type 0 where
  pub message_id : String
  pub payload_json : String
  pub created_at : String

abbrev pub IsOldestFirst : List QueueRow → Type 0
IsOldestFirst [] = Unit
IsOldestFirst (x ∷ xs) =
    AllRows (λ b. leb_text x.created_at b.created_at ≡ true) xs × IsOldestFirst xs

pub data InsertOutcome : Type 0 where
  done : InsertOutcome
  disk_full : InsertOutcome
  -- another error, which says that the file is corrupt or not
  raised : Bool → InsertOutcome

-- What the buffer calls.
pub record Sqlite : Type 1 where
  -- `ORDER BY created_at ASC`: the same rows, in order
  pub oldest_first : List QueueRow → List QueueRow
  pub oldest_first_count :
      (p : QueueRow → Bool) (xs : List QueueRow) → count p (oldest_first xs) ≡ count p xs
  pub oldest_first_sorted : (xs : List QueueRow) → IsOldestFirst (oldest_first xs)
  -- how the n-th INSERT ends, and the n-th size of the file with its log
  pub insert_outcome : ℕ → InsertOutcome
  pub file_bytes : ℕ → ℕ
  -- `recover_corruption` is set and the recovery succeeds
  pub recovers : Bool
  -- `datetime.fromisoformat`, as UTC where it has no zone
  pub timestamp : String → Option Time
  -- `json.dumps`, and `json.loads` where it finds a dict
  pub Payload : Type 0
  pub empty_payload : Payload
  pub dumps : Payload → String
  pub loads : String → Option Payload

pub record BufferConfig : Type 0 where
  pub max_db_bytes : Option ℕ
  pub eviction_batch_size : ℕ

pub record BufferState : Type 0 where
  pub queue : List QueueRow
  pub evictions_total : ℕ
  pub inserts : ℕ
  pub sizes : ℕ

-- the quota: none if it is not positive, and at least the size of the new file
unfoldable pub normalize_quota : Option ℤ → ℕ → Option ℕ
normalize_quota none minimum_bytes = none
normalize_quota (some max_db_bytes) minimum_bytes =
    let quota = clamp_nonneg max_db_bytes in
    if quota == 0 then none else if ltb quota minimum_bytes then some minimum_bytes else some quota

unfoldable pub configure : Option ℤ → ℤ → ℕ → BufferConfig
unfolding normalize_quota
configure max_db_bytes eviction_batch_size minimum_bytes = record {
  max_db_bytes = normalize_quota max_db_bytes minimum_bytes;
  eviction_batch_size = max 1 (clamp_nonneg eviction_batch_size);
}

abbrev pub has_message : String → QueueRow → Bool
has_message message_id row = str_eq row.message_id message_id

-- `INSERT OR IGNORE`
unfoldable pub insert_message : QueueRow → List QueueRow → List QueueRow
insert_message row queue =
    if any (has_message row.message_id) queue then queue else queue ++ row ∷ []

-- `DELETE FROM queue WHERE message_id = ?`
abbrev pub delete_message : String → List QueueRow → List QueueRow
delete_message message_id queue = filter (λ row. not (has_message message_id row)) queue

-- the deletions of the rows of a list, one after the other
unfoldable pub delete_messages : List QueueRow → List QueueRow → List QueueRow
delete_messages [] queue = queue
delete_messages (row ∷ rows) queue = delete_messages rows (delete_message row.message_id queue)

-- `LIMIT n`, and no limit for a negative number
abbrev pub limit_rows : ℤ → List QueueRow → List QueueRow
limit_rows (pos n) rows = take n rows
limit_rows (negsuc n) rows = rows

module _ (sqlite : Sqlite) where
  -- the oldest `n` rows are deleted
  unfoldable pub drop_oldest : ℕ → List QueueRow → List QueueRow
  unfolding delete_messages
  drop_oldest n queue = delete_messages (take n (sqlite.oldest_first queue)) queue

  unfoldable pub evict_oldest : ℕ → BufferState → ℕ × BufferState
  evict_oldest count s = (
    length (take (max 1 count) (sqlite.oldest_first s.queue)),
    record s { queue = drop_oldest (max 1 count) s.queue },
  )

  -- `self._db_bytes(include_wal=True)`
  unfoldable pub db_bytes : BufferState → ℕ × BufferState
  db_bytes s = (sqlite.file_bytes s.sizes, record s { sizes = suc s.sizes })

  -- the loop of `_enforce_db_size_limit`, from a size that was read
  unfoldable pub enforce_loop : ℕ → BufferConfig → ℕ → ℕ → ℕ → BufferState → ℕ × ℕ × BufferState
  unfolding db_bytes evict_oldest
  enforce_loop zero config quota evicted current s = (evicted, current, s)
  enforce_loop (suc fuel) config quota evicted current s =
      let (dropped, s₁) = evict_oldest config.eviction_batch_size s in
      let (bytes, s₂) = db_bytes s₁ in
      let rest = enforce_loop fuel config quota (evicted + dropped) bytes s₂ in
      if ltb quota current
      then (if dropped == 0 then (evicted, current, s₁) else rest)
      else (evicted, current, s)

  -- Every round deletes a row, so that the rows are fuel enough. Whether the file is vacuumed
  -- depends on one more size and changes no row.
  unfoldable pub enforce_db_size_limit : BufferConfig → BufferState → ℕ × BufferState
  enforce_db_size_limit config s = elim config.max_db_bytes [
    | none ↦ (0, s)
    | some quota ↦
        let (current, s₁) = db_bytes s in
        let (evicted, _, s₂) = enforce_loop (suc (length s.queue)) config quota 0 current s₁ in
        if ltb 0 evicted then (evicted, (db_bytes s₂).1) else (evicted, s₂)
  ]

  -- the printed size is one more reading
  unfoldable pub record_evictions : ℕ → BufferState → BufferState
  unfolding db_bytes
  record_evictions evicted s =
      if evicted == 0
      then s
      else (db_bytes (record s { evictions_total = s.evictions_total + evicted })).1
