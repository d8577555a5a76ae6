-- ===== src/Buffer/Rows.antt =====
-- Deleting rows by their message ids (agent/buffer.py), which are unique in the table.
use mathlib.Core.Path.{subst}
use text.Mathlib.TextPositions.{eq_refl}
use edgewatch_telemetry.Prelude.{
  ℕ, zero, suc, ◌+◌, ◌≤◌, min, String, ◌≡◌, refl, sym, Bool, true, false, not, ◌&&◌, List, [], ◌∷◌,
  filter, arith, eq_iff, count, length, take, str_eq, length-take, Bool-cases, inl, inr,
}
use edgewatch_telemetry.Buffer.{
  QueueRow, Sqlite, has_message, delete_message, delete_messages, drop_oldest,
}

-- no two rows have the same message id
abbrev pub Unique : List QueueRow → Type 0
Unique rows = (id : String) → count (has_message id) rows ≤ 1

count-filter-not :
    (p q : QueueRow → Bool) (rows : List QueueRow)
    → count p (filter (λ r. not (q r)) rows) + count (λ r. p r && q r) rows ≡ count p rows
count-filter-not p q [] = refl
count-filter-not p q (r ∷ rs) = ground (arith, count-filter-not p q rs)

count-filter_le :
    (p q : QueueRow → Bool) (rows : List QueueRow) → count p (filter q rows) ≤ count p rows
count-filter_le p q [] = omega arith
count-filter_le p q (r ∷ rs) = ground (arith, count-filter_le p q rs)

length-filter-not :
    (q : QueueRow → Bool) (rows : List QueueRow)
    → length (filter (λ r. not (q r)) rows) + count q rows ≡ length rows
length-filter-not q [] = refl
length-filter-not q (r ∷ rs) = ground (arith, length-filter-not q rs)

pub count-delete_messages :
    (p : QueueRow → Bool) (victims rows : List QueueRow)
    → count p (delete_messages victims rows) ≤ count p rows
unfolding delete_messages
count-delete_messages p [] rows = omega arith
count-delete_messages p (v ∷ vs) rows = omega (
  arith,
  count-delete_messages p vs (delete_message v.message_id rows),
  count-filter_le p (λ r. not (has_message v.message_id r)) rows,
)

count_never :
    (p : QueueRow → Bool) (rows : List QueueRow) → ((r : QueueRow) → p r ≡ false) → count p rows ≡ 0
count_never p [] h = refl
count_never p (r ∷ rs) h = rw (h r) (count_never p rs h)

-- no row has two ids
two_ids :
    (id other : String) (r : QueueRow)
    → str_eq other id ≡ false
    → (has_message id r && has_message other r) ≡ false
two_ids id other r h = elim (Bool-cases (str_eq r.message_id other)) [
  | inl same ↦
      subst (λ x. (str_eq x id && str_eq r.message_id other) ≡ false)
        (sym ((eq_iff r.message_id other).0 same)) (rw h refl)
  | inr different ↦ rw different (and_false (str_eq r.message_id id))
]
  where
    and_false : (b : Bool) → (b && false) ≡ false
    and_false true = refl
    and_false false = refl

-- Every id of the victims is an id of the rows, as often.
abbrev pub Covers : List QueueRow → List QueueRow → Type 0
Covers rows victims = (id : String) → count (has_message id) victims ≤ count (has_message id) rows

Covers-delete_message :
    (v : QueueRow) (vs rows : List QueueRow)
    → Unique rows
    → Covers rows (v ∷ vs)
    → Covers (delete_message v.message_id rows) vs
Covers-delete_message v vs rows u c id = elim (Bool-cases (str_eq v.message_id id)) [
  | inl same ↦
      let all_of_it : suc (count (has_message id) vs) ≤ count (has_message id) rows =
        rw same at (c id) in
      omega (arith, all_of_it, u id)
  | inr different ↦
      let others : count (has_message id) vs ≤ count (has_message id) rows =
        rw different at (c id) in
      omega (
        arith,
        others,
        count-filter-not (has_message id) (has_message v.message_id) rows,
        count_never (λ r. has_message id r && has_message v.message_id r) rows
            (λ r. two_ids id v.message_id r different),
      )
]

length-delete_message :
    (v : QueueRow) (vs rows : List QueueRow)
    → Unique rows
    → Covers rows (v ∷ vs)
    → length rows ≡ suc (length (delete_message v.message_id rows))
length-delete_message v vs rows u c =
    let there : suc (count (has_message v.message_id) vs) ≤ count (has_message v.message_id) rows =
      rw (eq_refl v.message_id) at (c v.message_id) in
    omega (arith, there, u v.message_id, length-filter-not (has_message v.message_id) rows)

Unique-delete_message :
    (id : String) (rows : List QueueRow) → Unique rows → Unique (delete_message id rows)
Unique-delete_message id rows u x =
    omega (arith, u x, count-filter_le (has_message x) (λ r. not (has_message id r)) rows)

pub Unique-delete_messages :
    (victims rows : List QueueRow) → Unique rows → Unique (delete_messages victims rows)
Unique-delete_messages victims rows u x =
    omega (arith, u x, count-delete_messages (has_message x) victims rows)

-- Deleting rows of the table deletes as many as are named.
pub length-delete_messages :
    (victims rows : List QueueRow)
    → Unique rows
    → Covers rows victims
    → length rows ≡ length (delete_messages victims rows) + length victims
unfolding delete_messages
length-delete_messages [] rows u c = omega arith
length-delete_messages (v ∷ vs) rows u c = omega (
  arith,
  length-delete_message v vs rows u c,
  length-delete_messages vs (delete_message v.message_id rows)
      (Unique-delete_message v.message_id rows u) (Covers-delete_message v vs rows u c),
)

count-take :
    (p : QueueRow → Bool) (n : ℕ) (rows : List QueueRow) → count p (take n rows) ≤ count p rows
count-take p zero rows = omega arith
count-take p (suc n) [] = omega arith
count-take p (suc n) (r ∷ rs) = ground (arith, count-take p n rs)

module _ (sqlite : Sqlite) where
  length-oldest_first : (rows : List QueueRow) → length (sqlite.oldest_first rows) ≡ length rows
  length-oldest_first rows = omega (
    arith,
    eq_iff,
    count_all (sqlite.oldest_first rows),
    count_all rows,
    sqlite.oldest_first_count (λ r. true) rows,
  )
    where
      count_all : (xs : List QueueRow) → count (λ r. true) xs ≡ length xs
      count_all [] = refl
      count_all (x ∷ xs) = omega (arith, count_all xs)

  -- of the oldest rows, `n` are deleted, or all
  pub length-take_oldest :
      (n : ℕ) (rows : List QueueRow)
      → length (take n (sqlite.oldest_first rows)) ≡ min n (length rows)
  length-take_oldest n rows =
      omega (arith, length-take n (sqlite.oldest_first rows), length-oldest_first rows)

  pub length-drop_oldest :
      (n : ℕ) (rows : List QueueRow)
      → Unique rows
      → length rows
        ≡ length (drop_oldest sqlite n rows) + length (take n (sqlite.oldest_first rows))
  unfolding drop_oldest
  length-drop_oldest n rows u =
      length-delete_messages (take n (sqlite.oldest_first rows)) rows u (λ id. omega (
        arith,
        eq_iff,
        count-take (has_message id) n (sqlite.oldest_first rows),
        sqlite.oldest_first_count (has_message id) rows,
      ))

  pub Covers-filter :
      (p : QueueRow → Bool) (rows : List QueueRow)
      → Covers rows (filter p (sqlite.oldest_first rows))
  Covers-filter p rows id = omega (
    arith,
    eq_iff,
    count-filter_le (has_message id) p (sqlite.oldest_first rows),
    sqlite.oldest_first_count (has_message id) rows,
  )
