-- ===== src/Buffer/Order.antt =====
-- What agent/buffer.py gives back of the queue, and in which order.
use edgewatch_telemetry.Prelude.{
  ℕ, zero, suc, min, ◌≡◌, ◌⊎◌, inl, inr, refl, ◌∙◌, ap, sym, Bool, Option-cases, none, some, List,
  [], ◌∷◌, ◌++◌, map, length, take, drop, count,
}
use mathlib.Core.Path.{subst}
use edgewatch_telemetry.Prelude.Int.{pos}
use edgewatch_telemetry.Buffer.{QueueRow, Sqlite, BufferState, IsOldestFirst}
use edgewatch_telemetry.Buffer.Operations.{BufferedMessage, read_row, dequeue_batch}
use edgewatch_telemetry.Buffer.Rows.{length-take_oldest}

take-drop : {A : Type 0} (n : ℕ) (xs : List A) → take n xs ++ drop n xs ≡ xs
take-drop zero xs = refl
take-drop (suc n) [] = refl
take-drop (suc n) (x ∷ xs) = ap (◌∷◌ x) (take-drop n xs)

module _ (sqlite : Sqlite) where
  -- the message has the row's id and time, and its payload, or an empty one where that is no dict
  abbrev pub IsMessageOf : QueueRow → BufferedMessage sqlite.Payload → Type 0
  IsMessageOf row m =
      (m.message_id ≡ row.message_id)
      × (m.created_at ≡ row.created_at)
      × ((sqlite.loads row.payload_json ≡ some m.payload)
          ⊎ ((sqlite.loads row.payload_json ≡ none) × (m.payload ≡ sqlite.empty_payload)))

  -- a message of each row in turn
  abbrev pub AreMessagesOf : List QueueRow → List (BufferedMessage sqlite.Payload) → Type 0
  AreMessagesOf [] [] = Unit
  AreMessagesOf [] (m ∷ ms) = ⊥
  AreMessagesOf (row ∷ rows) [] = ⊥
  AreMessagesOf (row ∷ rows) (m ∷ ms) = IsMessageOf row m × AreMessagesOf rows ms

  -- The messages are of the oldest `n` rows: the queue is these rows and the rest, which are none
  -- before them in time.
  pub record AreOldest (n : ℕ) (queue : List QueueRow)
      (messages : List (BufferedMessage sqlite.Payload)) : Type 0 where
    pub first : List QueueRow
    pub rest : List QueueRow
    pub same_rows : (p : QueueRow → Bool) → count p (first ++ rest) ≡ count p queue
    pub in_order : IsOldestFirst (first ++ rest)
    pub size : length first ≡ min n (length queue)
    pub messages_of : AreMessagesOf first messages

  read_row-IsMessageOf : (row : QueueRow) → IsMessageOf row (read_row sqlite row)
  unfolding read_row
  read_row-IsMessageOf row = elim (Option-cases (sqlite.loads row.payload_json)) [
    | inl e ↦ rw (e, read_row) (refl, refl, inr (refl, refl))
    | inr (payload, e) ↦ rw (e, read_row) (refl, refl, inl refl)
  ]

  map-AreMessagesOf : (rows : List QueueRow) → AreMessagesOf rows (map (read_row sqlite) rows)
  map-AreMessagesOf [] = tt
  map-AreMessagesOf (row ∷ rows) = (read_row-IsMessageOf row, map-AreMessagesOf rows)

  -- A batch of at most n messages has a message for each of the n oldest rows of the queue, or for
  -- each row if these are fewer, the oldest first. A message has its row's id, time and payload, an
  -- empty payload where the text is not a dict.
  pub dequeue_batch-AreOldest :
      (n : ℕ) (s : BufferState) → AreOldest n s.queue (dequeue_batch sqlite (pos n) s)
  unfolding dequeue_batch
  dequeue_batch-AreOldest n s =
      let rows = sqlite.oldest_first s.queue in
      let split = sym (take-drop n rows) in
      record {
        first = take n rows;
        rest = drop n rows;
        same_rows = λ p. ap (count p) (take-drop n rows) ∙ sqlite.oldest_first_count p s.queue;
        in_order = subst IsOldestFirst split (sqlite.oldest_first_sorted s.queue);
        size = length-take_oldest sqlite n s.queue;
        messages_of = map-AreMessagesOf (take n rows);
      }
