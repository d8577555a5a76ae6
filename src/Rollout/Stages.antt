-- ===== src/Rollout/Stages.antt =====
-- How many targets each stage of a rollout reaches, and which (api/app/services/device_updates.py).
use edgewatch_telemetry.Prelude.{
  ltb→lt, lt→ltb, ℕ, zero, suc, ◌+◌, ◌≤◌, ◌<◌, max, min, ◌≡◌, ◌↔◌, refl, false, List, [], ◌∷◌,
  arith, ltb, ◌==◌, length, Bool-cases, inl, inr,
}
use edgewatch_telemetry.Rollout.{
  ceil_percent, counts_from, set_last, stage_threshold_counts, stage_from, stage_for_index,
}
use edgewatch_telemetry.Rollout.Schedule.{IsSchedule}

-- numbers of targets from `n` on that do not decrease, of which there are some and the last is all
abbrev pub Climbs : ℕ → ℕ → List ℕ → Type 0
Climbs total n [] = ⊥
Climbs total n (x ∷ []) = (n ≤ x) × (x ≡ total)
Climbs total n (x ∷ (y ∷ ys)) = (n ≤ x) × (x ≤ total) × Climbs total x (y ∷ ys)

cons-Climbs :
    (total n x : ℕ) (xs : List ℕ) → n ≤ x → x ≤ total → Climbs total x xs → Climbs total n (x ∷ xs)
cons-Climbs total n x [] low high c = absurd c
cons-Climbs total n x (y ∷ ys) low high c = (low, high, c)

counts_from-Climbs :
    (total n prior pct : ℕ) (pcts : List ℕ)
    → prior ≤ total
    → n ≤ max prior (min total 1)
    → n ≤ total
    → Climbs total n (set_last total (counts_from total prior (pct ∷ pcts)))
unfolding counts_from set_last
counts_from-Climbs total n prior pct [] h low all = (all, refl)
counts_from-Climbs total n prior pct (q ∷ qs) h low all =
    let bounded = max prior (min total (max 1 (ceil_percent total pct))) in
    cons-Climbs total n bounded (set_last total (counts_from total bounded (q ∷ qs))) (omega arith)
      (omega arith)
      (counts_from-Climbs total bounded bounded q qs (omega arith) (omega arith) (omega arith))

-- For a schedule of stages and some targets, the numbers of targets reached do not decrease from
-- stage to stage, each stage reaches at least one target, and the last reaches all.
pub stage_threshold_counts-Climbs :
    (total : ℕ) (stages : List ℕ)
    → 0 < total
    → IsSchedule 0 stages
    → Climbs total 1 (stage_threshold_counts total stages)
unfolding stage_threshold_counts
stage_threshold_counts-Climbs total [] h k = absurd k
stage_threshold_counts-Climbs total (x ∷ xs) h k =
    let some_targets : (total == 0) ≡ false = ground arith in
    rw some_targets (counts_from-Climbs total 1 0 x xs (omega arith) (omega arith) (omega arith))

-- the number of targets that the k-th stage reaches
abbrev pub reached : ℕ → List ℕ → ℕ
reached k [] = 0
reached zero (x ∷ xs) = x
reached (suc k) (x ∷ xs) = reached k xs

Climbs-reached :
    (total n k : ℕ) (xs : List ℕ) → Climbs total n xs → k < length xs → n ≤ reached k xs
Climbs-reached total n k [] c h = absurd c
Climbs-reached total n zero (x ∷ []) (low, all) h = low
Climbs-reached total n (suc k) (x ∷ []) (low, all) h = ground arith
Climbs-reached total n zero (x ∷ (y ∷ ys)) (low, high, c) h = low
Climbs-reached total n (suc k) (x ∷ (y ∷ ys)) (low, high, c) h =
    omega (arith, Climbs-reached total x k (y ∷ ys) c (omega arith))

stage_from-lower : (index stage x : ℕ) (xs : List ℕ) → stage ≤ stage_from index stage (x ∷ xs)
unfolding stage_from
stage_from-lower index stage x [] = ground arith
stage_from-lower index stage x (y ∷ ys) = ground (arith, stage_from-lower index (suc stage) y ys)

not_both : (a b : ℕ) → a < b → ltb a b ≡ false → ⊥
not_both a b g h = ground arith

-- By induction on the cutoffs: where the first is passed, the stage is found among the others.
stage_from_iff :
    (total n index stage k : ℕ) (xs : List ℕ)
    → Climbs total n xs
    → index < total
    → k < length xs
    → (stage_from index stage xs ≤ stage + k) ↔ (index < reached k xs)
unfolding stage_from
stage_from_iff total n index stage k [] c i h = absurd c
stage_from_iff total n index stage k (x ∷ []) (low, all) i h =
    rw (lt→ltb index x (omega arith), stage_from)
      (λ g. omega (arith, Climbs-reached total x k (x ∷ []) (omega arith, all) h), λ g. omega arith)
stage_from_iff total n index stage zero (x ∷ (y ∷ ys)) c i h = elim (Bool-cases (ltb index x)) [
  | inl before ↦ rw (before, stage_from) (λ g. ltb→lt index x before, λ g. omega arith)
  | inr after ↦
      rw (after, stage_from)
        (
          λ g. absurd (too_early g (stage_from-lower index (suc stage) y ys)),
          λ g. absurd (not_both index x g after),
        )
]
  where
    too_early : {m : ℕ} → m ≤ stage + 0 → suc stage ≤ m → ⊥
    too_early g l = omega arith
stage_from_iff total n index stage (suc k) (x ∷ (y ∷ ys)) (low, high, c) i h =
    let (forth, back) = stage_from_iff total x index (suc stage) k (y ∷ ys) c i (omega arith) in
    elim (Bool-cases (ltb index x)) [
      | inl before ↦
          rw (before, stage_from)
            (
              λ g.
                  omega (
                    arith,
                    ltb→lt index x before,
                    Climbs-reached total x k (y ∷ ys) c (omega arith),
                  ),
              λ g. omega arith,
            )
      | inr after ↦ rw (after, stage_from) (λ g. forth (omega arith), λ g. omega (arith, back g))
    ]

-- Where the numbers of targets climb to all of them, the targets assigned to the stages up to the
-- k-th are exactly the first ones, as many as that stage reaches.
pub stage_for_index_iff :
    (total index k : ℕ) (stage_counts : List ℕ)
    → Climbs total 1 stage_counts
    → index < total
    → k < length stage_counts
    → (stage_for_index index stage_counts ≤ k) ↔ (index < reached k stage_counts)
unfolding stage_for_index
stage_for_index_iff total index k stage_counts c i h =
    let (forth, back) = stage_from_iff total 1 index 0 k stage_counts c i h in
    (λ g. forth (omega arith), λ g. omega (arith, back g))
