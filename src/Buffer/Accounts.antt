-- ===== src/Buffer/Accounts.antt =====
-- Every row that leaves the queue of agent/buffer.py is accounted for.
use mathlib.Core.Path.{subst}
use edgewatch_telemetry.Prelude.{
  ℕ, zero, suc, ◌+◌, ◌≤◌, ◌<◌, min, max, ◌≡◌, refl, sym, ap, ◌∙◌, ◌⊎◌, List, filter, arith, length,
  take, Option-cases, inl, inr, ltb, ◌==◌, if_cases, ==_iff,
}
use edgewatch_telemetry.Prelude.Int.{ℤ, pos, negsuc, clamp_nonneg}
use edgewatch_telemetry.Prelude.Time.{Time}
use edgewatch_telemetry.Buffer.{
  QueueRow, Sqlite, BufferConfig, BufferState, drop_oldest, evict_oldest, db_bytes, enforce_loop,
  enforce_db_size_limit, record_evictions,
}
use edgewatch_telemetry.Buffer.Operations.{excess, is_expired, prune_age, prune_size, prune}
use edgewatch_telemetry.Buffer.Rows.{
  Unique, Unique-delete_messages, length-delete_messages, length-take_oldest, length-drop_oldest,
  Covers-filter,
}

module _ (sqlite : Sqlite) where
  -- `n` rows have left the queue, and nothing was counted
  abbrev pub Lost : BufferState → ℕ → BufferState → Type 0
  Lost s n s' =
      Unique s'.queue
      × (length s.queue ≡ length s'.queue + n)
      × (s'.evictions_total ≡ s.evictions_total)

  pub evict_oldest-Lost :
      (n : ℕ) (s : BufferState)
      → Unique s.queue
      → Lost s (evict_oldest sqlite n s).0 (evict_oldest sqlite n s).1
  unfolding evict_oldest drop_oldest
  evict_oldest-Lost n s u = (
    Unique-delete_messages (take (max 1 n) (sqlite.oldest_first s.queue)) s.queue u,
    length-drop_oldest sqlite (max 1 n) s.queue u,
    refl,
  )

  -- A round that finds a row deletes one.
  evict_oldest_some :
      (n : ℕ) (s : BufferState) → (evict_oldest sqlite n s).0 ≡ min (max 1 n) (length s.queue)
  unfolding evict_oldest
  evict_oldest_some n s = length-take_oldest sqlite (max 1 n) s.queue

  -- the end of the loop: the rows that left are those counted, and either the size is within the
  -- quota or no row is left
  unfoldable pub LoopEnd : ℕ → BufferState → ℕ → ℕ × ℕ × BufferState → Type 0
  LoopEnd quota s evicted (total, current, s') =
      Unique s'.queue
      × (length s.queue + evicted ≡ length s'.queue + total)
      × (s'.evictions_total ≡ s.evictions_total)
      × ((current ≤ quota) ⊎ (length s'.queue ≡ 0))

  -- On more fuel than there are rows the eviction loop comes to its end: the last size read is
  -- within the quota or the queue is empty. The rows that left are those it counts, the message ids
  -- stay unique, and the total of evictions is not touched.
  pub enforce_loop-LoopEnd :
      (fuel : ℕ) (config : BufferConfig) (quota evicted current : ℕ) (s : BufferState)
      → length s.queue < fuel
      → Unique s.queue
      → LoopEnd quota s evicted (enforce_loop sqlite fuel config quota evicted current s)
  unfolding enforce_loop db_bytes LoopEnd
  enforce_loop-LoopEnd zero config quota evicted current s f u = absurd (none_left f)
    where
      none_left : {n : ℕ} → n < 0 → ⊥
      none_left h = omega arith
  enforce_loop-LoopEnd (suc fuel) config quota evicted current s f u =
      let (u₁, left, same) = evict_oldest-Lost config.eviction_batch_size s u in
      let dropped = (evict_oldest sqlite config.eviction_batch_size s).0 in
      let s₁ = (evict_oldest sqlite config.eviction_batch_size s).1 in
      let (bytes, s₂) = db_bytes sqlite s₁ in
      let some_left = evict_oldest_some config.eviction_batch_size s in
      if_cases (LoopEnd quota s evicted) (ltb quota current) _ _
        (λ over.
          if_cases (LoopEnd quota s evicted) (dropped == 0) _ _
            (λ empty.
              let nothing = (==_iff dropped 0).0 empty in
              (
                u₁,
                omega (arith, left, nothing),
                same,
                inr (omega (arith, left, nothing, some_left)),
              ))
            (λ more.
              let (u', total, kept, ended) =
                enforce_loop-LoopEnd fuel config quota (evicted + dropped) bytes s₂
                  (ground (arith, left, some_left)) u₁ in
              (u', omega (arith, left, total), kept ∙ same, ended)))
        (λ within. (u, omega arith, refl, inl (ground arith)))

  -- what enforcing a quota leaves: the rows that left are those returned
  pub record Enforced (s : BufferState) (evicted : ℕ) (s' : BufferState) : Type 0 where
    pub unique : Unique s'.queue
    pub accounted : length s.queue ≡ length s'.queue + evicted
    pub uncounted : s'.evictions_total ≡ s.evictions_total

  pub enforce_db_size_limit-Enforced :
      (config : BufferConfig) (s : BufferState)
      → Unique s.queue
      → Enforced s
          (enforce_db_size_limit sqlite config s).0
          (enforce_db_size_limit sqlite config s).1
  unfolding enforce_db_size_limit db_bytes LoopEnd
  enforce_db_size_limit-Enforced config s u = elim (Option-cases config.max_db_bytes) [
    | inl unlimited ↦
        rw (unlimited, enforce_db_size_limit)
          (record { unique = u; accounted = omega arith; uncounted = refl })
    | inr (quota, limited) ↦
        let (current, s₁) = db_bytes sqlite s in
        let (u', total, kept, _) =
          enforce_loop-LoopEnd (suc (length s.queue)) config quota 0 current s₁ (omega arith) u in
        rw (limited, enforce_db_size_limit)
          (if_cases (λ (r : ℕ × BufferState). Enforced s r.0 r.1)
            (ltb 0 (enforce_loop sqlite (suc (length s.queue)) config quota 0 current s₁).0) _ _
            (λ some_went. record {
              unique = u';
              accounted = omega (arith, total);
              uncounted = kept;
            })
            (λ none_went. record {
              unique = u';
              accounted = omega (arith, total);
              uncounted = kept;
            }))
  ]

  pub record_evictions-queue :
      (n : ℕ) (s : BufferState)
      → ((record_evictions sqlite n s).queue ≡ s.queue)
        × ((record_evictions sqlite n s).evictions_total ≡ s.evictions_total + n)
  unfolding record_evictions db_bytes
  record_evictions-queue n s =
      if_cases
        (λ (r : BufferState). (r.queue ≡ s.queue) × (r.evictions_total ≡ s.evictions_total + n))
        (n == 0) _ _ (λ nothing. (refl, omega (arith, (==_iff n 0).0 nothing)))
        (λ some_went. (refl, refl))

  prune_age-accounts :
      (max_age_s : ℤ) (now : Time) (queue : List QueueRow)
      → Unique queue
      → Unique (prune_age sqlite max_age_s now queue).1
        × (length queue
            ≡ length (prune_age sqlite max_age_s now queue).1
              + (prune_age sqlite max_age_s now queue).0)
  unfolding prune_age
  prune_age-accounts max_age_s now queue u =
      let victims = filter (is_expired sqlite max_age_s now) (sqlite.oldest_first queue) in
      (
        Unique-delete_messages victims queue u,
        length-delete_messages victims queue u
            (Covers-filter sqlite (is_expired sqlite max_age_s now) queue),
      )

  excess_bound : (n : ℕ) (m : ℤ) → n ≤ clamp_nonneg m + excess n m
  excess_bound n (pos m) = omega arith
  excess_bound n (negsuc m) = omega arith

  prune_size-accounts :
      (max_messages : ℤ) (queue : List QueueRow)
      → Unique queue
      → let r = prune_size sqlite max_messages queue in
        Unique r.1 × (length queue ≡ length r.1 + r.0) × (length r.1 ≤ clamp_nonneg max_messages)
  unfolding prune_size drop_oldest
  prune_size-accounts max_messages queue u =
      let to_drop = excess (length queue) max_messages in
      let gone = length-drop_oldest sqlite to_drop queue u in
      (
        Unique-delete_messages (take to_drop (sqlite.oldest_first queue)) queue u,
        gone,
        omega (
          arith,
          gone,
          length-take_oldest sqlite to_drop queue,
          excess_bound (length queue) max_messages,
        ),
      )

  -- Where the message ids are unique, pruning returns exactly the number of rows that left the
  -- queue, leaves at most `max_messages` (none if it is negative), keeps the ids unique, and adds to
  -- the total of evictions no more than it returns.
  pub prune_accounts :
      (config : BufferConfig) (max_messages max_age_s : ℤ) (now : Time) (s : BufferState)
      → Unique s.queue
      → let (deleted, s') = prune sqlite config max_messages max_age_s now s in
        Unique s'.queue
        × (length s.queue ≡ length s'.queue + deleted)
        × (length s'.queue ≤ clamp_nonneg max_messages)
        × (s'.evictions_total ≤ s.evictions_total + deleted)
  unfolding prune
  prune_accounts config max_messages max_age_s now s u =
      let (too_old, young) = prune_age sqlite max_age_s now s.queue in
      let (too_many, few) = prune_size sqlite max_messages young in
      let (u₁, aged) = prune_age-accounts max_age_s now s.queue u in
      let (u₂, sized, bound) = prune_size-accounts max_messages young u₁ in
      let enforced = enforce_db_size_limit-Enforced config (record s { queue = few }) u₂ in
      let (evicted, s₁) = enforce_db_size_limit sqlite config (record s { queue = few }) in
      let (same, total) = record_evictions-queue evicted s₁ in
      let size : length (record_evictions sqlite evicted s₁).queue ≡ length s₁.queue =
        ap length same in
      (
        subst Unique (sym same) enforced.unique,
        omega (arith, aged, sized, enforced.accounted, size),
        omega (arith, bound, enforced.accounted, size),
        omega (arith, total, enforced.uncounted),
      )
