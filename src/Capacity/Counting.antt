-- ===== src/Capacity/Counting.antt =====
-- internal/comrad/placement_capacity.go: what the demand counts.
use comrad.Prelude.{
  ℕ, max, zero, suc, ◌+◌, ◌*◌, ◌≤◌, ◌<◌, ◌≡◌, refl, String, not, List, [], ◌∷◌, Option, none, some,
  arith, ◌==◌, ltb, length, Bool-cases, inl, inr,
}
use comrad.Types.{Time, Task}
use comrad.Store.{Database}
use comrad.Prelude.Dict.{values}
use comrad.Capacity.{
  Demand, no_demand, count_task, count_tasks, profile_demand, demand_bucket, bump, in_bucket,
  active_buckets, smoothed_demand, ceil_div, smoothed,
}

pub sum : List ℕ → ℕ
sum [] = 0
sum (n ∷ ns) = n + sum ns

active_buckets-le : (ns : List ℕ) → active_buckets ns ≤ length ns
unfolding active_buckets
active_buckets-le [] = omega arith
active_buckets-le (n ∷ ns) = ground (arith, active_buckets-le ns)

product_bounds : (r m : ℕ) → 1 ≤ m → m ≤ 5 → (r ≤ r * m) × (r * m ≤ 5 * r)
product_bounds r m l h = (grind arith, grind arith)

-- Over five buckets, smoothing never makes more of the recent tasks than there are, and makes
-- nothing only of no tasks.
smoothed_demand_bounds :
    (recent : ℕ) (buckets : List ℕ)
    → length buckets ≡ 5
    → (smoothed_demand recent buckets ≤ recent) × (0 < recent → 0 < smoothed_demand recent buckets)
unfolding smoothed_demand ceil_div
smoothed_demand_bounds recent buckets l =
    let a = active_buckets-le buckets in
    let m = max 1 (active_buckets buckets) in
    let (lo, hi) = product_bounds recent m (omega arith) (omega arith) in
    (ground arith, ground arith)

-- Every recent task lies in one of the five buckets.
pub record Bucketed (d : Demand) : Type 0 where
  pub five : length d.buckets ≡ 5
  pub in_buckets : sum d.buckets ≡ d.recent

length-bump : (i : ℕ) (ns : List ℕ) → length (bump i ns) ≡ length ns
unfolding bump
length-bump i [] = refl
length-bump zero (n ∷ ns) = refl
length-bump (suc i) (n ∷ ns) = omega (arith, length-bump i ns)

sum-bump : (i : ℕ) (ns : List ℕ) → i < length ns → sum (bump i ns) ≡ suc (sum ns)
unfolding bump sum
sum-bump i [] h = absurd (omega arith)
sum-bump zero (n ∷ ns) h = omega arith
sum-bump (suc i) (n ∷ ns) h = omega (arith, sum-bump i ns (omega arith))

demand_bucket-lt : (created now b : ℕ) → demand_bucket created now ≡ some b → b < 5
unfolding demand_bucket
demand_bucket-lt created now b h = ground arith

in_bucket-Bucketed :
    (o : Option ℕ) (d : Demand)
    → ((b : ℕ) → o ≡ some b → b < 5)
    → Bucketed d
    → Bucketed (in_bucket o d)
in_bucket-Bucketed none d l b = b
in_bucket-Bucketed (some i) d l b = record {
  five = omega (arith, length-bump i d.buckets, b.five);
  in_buckets = omega (arith, sum-bump i d.buckets, l i refl, b.five, b.in_buckets);
}

count_task-Bucketed :
    (profile : String) (now : Time) (d : Demand) (t : Task)
    → Bucketed d
    → Bucketed (count_task profile now d t)
unfolding count_task
count_task-Bucketed profile now d t b = elim (Bool-cases (not (t.profile_id == profile))) [
  | inl other ↦ rw other b
  | inr own ↦ rw own (
      in_bucket-Bucketed (demand_bucket t.created_at now) _ (demand_bucket-lt t.created_at now)
        (record { five = b.five; in_buckets = b.in_buckets }))
]

count_tasks-Bucketed :
    (profile : String) (now : Time) (d : Demand) (ts : List Task)
    → Bucketed d
    → Bucketed (count_tasks profile now d ts)
unfolding count_tasks
count_tasks-Bucketed profile now d [] b = b
count_tasks-Bucketed profile now d (t ∷ ts) b =
    count_tasks-Bucketed profile now (count_task profile now d t) ts
      (count_task-Bucketed profile now d t b)

-- The demand of a profile counts each of its recent tasks in one of five buckets, and its smoothed
-- value is at most the number of these tasks, and zero only if there is none.
profile_demand-smoothed :
    (db : Database) (profile : String) (now : Time)
    → let d = profile_demand db profile now in
      Bucketed d × (smoothed d ≤ d.recent) × (ltb 0 (smoothed d) ≡ ltb 0 d.recent)
unfolding profile_demand sum
profile_demand-smoothed db profile now =
    let d = profile_demand db profile now in
    let b : Bucketed d =
      count_tasks-Bucketed profile now no_demand (values db.tasks)
        (record { five = refl; in_buckets = refl }) in
    let (u, l) = smoothed_demand_bounds d.recent d.buckets b.five in (b, u, ground (arith, u, l))
