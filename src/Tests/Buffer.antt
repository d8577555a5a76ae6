-- ===== src/Tests/Buffer.antt =====
-- A queue of agent/buffer.py whose SQLite sorts by insertion.
use edgewatch_telemetry.Prelude.{
  ◌+◌, ◌≤◌, String, ◌≡◌, refl, inl, inr, Bool, true, false, some, List, [], ◌∷◌, arith, count,
  length, ◌==◌, Bool-cases, if◌then◌else◌,
}
use mathlib.Core.Path.{subst}
use edgewatch_telemetry.Prelude.{str_eq, eq_iff}
use edgewatch_telemetry.Prelude.Int.{pos, clamp_nonneg}
use edgewatch_telemetry.Prelude.Time.{seconds}
use edgewatch_telemetry.Prelude.Sql.{AllRows}
use edgewatch_telemetry.Buffer.{enforce_loop}
use edgewatch_telemetry.Buffer.Operations.{enqueue, prune, dequeue_batch}
use edgewatch_telemetry.Buffer.Rows.{Unique}
use edgewatch_telemetry.Buffer.Accounts.{LoopEnd, enforce_loop-LoopEnd, prune_accounts}
use edgewatch_telemetry.Buffer.Enqueue.{Accounted, enqueue_accounts}
use edgewatch_telemetry.Buffer.Order.{AreOldest, dequeue_batch-AreOldest}
use edgewatch_telemetry.Prelude.Text.{leb_text}
use edgewatch_telemetry.Buffer.{
  QueueRow, IsOldestFirst, InsertOutcome, Sqlite, BufferConfig, BufferState,
}

leb_text_total : (s t : String) → leb_text s t ≡ false → leb_text t s ≡ true
unfolding leb_text
leb_text_total String.[] t h = ground arith
leb_text_total (String.◌∷◌ c s) String.[] h = refl
leb_text_total (String.◌∷◌ c s) (String.◌∷◌ d t) h = ground (arith, leb_text_total s t)

leb_text_trans : (s t u : String) → leb_text s t ≡ true → leb_text t u ≡ true → leb_text s u ≡ true
unfolding leb_text
leb_text_trans String.[] t u h k = refl
leb_text_trans (String.◌∷◌ c s) String.[] u h k = ground arith
leb_text_trans (String.◌∷◌ c s) (String.◌∷◌ d t) String.[] h k = ground arith
leb_text_trans (String.◌∷◌ c s) (String.◌∷◌ d t) (String.◌∷◌ e u) h k =
    ground (arith, leb_text_trans s t u)

abbrev before : QueueRow → QueueRow → Bool
before a b = leb_text a.created_at b.created_at

insert : QueueRow → List QueueRow → List QueueRow
insert a [] = a ∷ []
insert a (x ∷ xs) = let rest = insert a xs in if before a x then a ∷ x ∷ xs else x ∷ rest

unfoldable sorted : List QueueRow → List QueueRow
unfolding insert
sorted [] = []
sorted (x ∷ xs) = insert x (sorted xs)

AllRows-trans :
    (a x : QueueRow) (xs : List QueueRow)
    → before a x ≡ true
    → AllRows (λ b. before x b ≡ true) xs
    → AllRows (λ b. before a b ≡ true) xs
AllRows-trans a x [] h all = tt
AllRows-trans a x (y ∷ ys) h (first, rest) =
    (leb_text_trans a.created_at x.created_at y.created_at h first, AllRows-trans a x ys h rest)

AllRows-insert :
    (x a : QueueRow) (xs : List QueueRow)
    → before x a ≡ true
    → AllRows (λ b. before x b ≡ true) xs
    → AllRows (λ b. before x b ≡ true) (insert a xs)
unfolding insert
AllRows-insert x a [] h all = (h, tt)
AllRows-insert x a (y ∷ ys) h (first, rest) = elim (Bool-cases (before a y)) [
  | inl earlier ↦ rw earlier (h, (first, rest))
  | inr later ↦ rw later (first, AllRows-insert x a ys h rest)
]

insert-IsOldestFirst :
    (a : QueueRow) (xs : List QueueRow) → IsOldestFirst xs → IsOldestFirst (insert a xs)
unfolding insert
insert-IsOldestFirst a [] h = (tt, tt)
insert-IsOldestFirst a (x ∷ xs) (first, rest) = elim (Bool-cases (before a x)) [
  | inl earlier ↦ rw earlier ((earlier, AllRows-trans a x xs earlier first), (first, rest))
  | inr later ↦ rw later (
    AllRows-insert x a xs (leb_text_total a.created_at x.created_at later) first,
    insert-IsOldestFirst a xs rest,
  )
]

sorted-IsOldestFirst : (xs : List QueueRow) → IsOldestFirst (sorted xs)
unfolding sorted
sorted-IsOldestFirst [] = tt
sorted-IsOldestFirst (x ∷ xs) = insert-IsOldestFirst x (sorted xs) (sorted-IsOldestFirst xs)

count-insert :
    (p : QueueRow → Bool) (a : QueueRow) (xs : List QueueRow)
    → count p (insert a xs) ≡ count p (a ∷ xs)
unfolding insert
count-insert p a [] = refl
count-insert p a (x ∷ xs) = ground (arith, count-insert p a xs)

count-sorted : (p : QueueRow → Bool) (xs : List QueueRow) → count p (sorted xs) ≡ count p xs
unfolding sorted
count-sorted p [] = refl
count-sorted p (x ∷ xs) = ground (arith, count-insert p x (sorted xs), count-sorted p xs)

-- the disk is full at the first insertion, and the file is large until rows are evicted
abbrev sqlite : Sqlite
sqlite = record {
  oldest_first = sorted;
  oldest_first_count = count-sorted;
  oldest_first_sorted = sorted-IsOldestFirst;
  insert_outcome = λ n. if n == 0 then InsertOutcome.disk_full else InsertOutcome.done;
  file_bytes = λ n. if n == 0 then 8192 else 4096;
  recovers = false;
  timestamp = λ s. some (seconds 100);
  Payload = String;
  empty_payload = "";
  dumps = λ s. s;
  loads = some;
}

abbrev config : BufferConfig
config = record { max_db_bytes = some 5000; eviction_batch_size = 1 }

abbrev point : String → String → QueueRow
point id time = record { message_id = id; payload_json = "{}"; created_at = time }

abbrev state : BufferState
state = record {
  queue = point "b" "2026-01-02" ∷ point "a" "2026-01-01" ∷ [];
  evictions_total = 0;
  inserts = 0;
  sizes = 0;
}

a_or_b : (id : String) → str_eq "a" id ≡ true → str_eq "b" id ≡ false
a_or_b id h = subst (λ x. str_eq "b" x ≡ false) ((eq_iff "a" id).0 h) refl

queue-Unique : Unique state.queue
queue-Unique id = elim (Bool-cases (str_eq "a" id)) [
  | inl same ↦ rw (a_or_b id same, same) (omega arith)
  | inr different ↦ rw different (at_most_one (str_eq "b" id))
]
  where
    at_most_one : (b : Bool) → (if b then 1 else 0) ≤ 1
    at_most_one true = omega arith
    at_most_one false = omega arith

enqueue_accounts_example :
    let (accepted, s') = enqueue sqlite config "c" "{}" "2026-01-03" state in
    Accounted sqlite accepted state s'
enqueue_accounts_example =
    enqueue_accounts sqlite config "c" "{}" "2026-01-03" state queue-Unique refl

prune_accounts_example :
    let (deleted, s') = prune sqlite config (pos 1) (pos 60) (seconds 200) state in
    Unique s'.queue
    × (length state.queue ≡ length s'.queue + deleted)
    × (length s'.queue ≤ clamp_nonneg (pos 1))
    × (s'.evictions_total ≤ state.evictions_total + deleted)
prune_accounts_example =
    prune_accounts sqlite config (pos 1) (pos 60) (seconds 200) state queue-Unique

enforce_loop-LoopEnd_example :
    LoopEnd sqlite 5000 state 0 (enforce_loop sqlite 3 config 5000 0 8192 state)
enforce_loop-LoopEnd_example =
    enforce_loop-LoopEnd sqlite 3 config 5000 0 8192 state (omega arith) queue-Unique

dequeue_batch-AreOldest_example :
    AreOldest sqlite 1 state.queue (dequeue_batch sqlite (pos 1) state)
dequeue_batch-AreOldest_example = dequeue_batch-AreOldest sqlite 1 state
