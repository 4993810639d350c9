-- ===== src/Capacity.antt =====
-- internal/comrad/placement_capacity.go and placement_cooldown.go: how many copies of a profile a
-- policy asks for. Durations are in nanoseconds. A count of tasks is an unbounded number; the counts
-- that an administrator sets are signed 64-bit values.
pub mod Counting
pub mod Bounds
use comrad.Prelude.{
  ℕ, zero, suc, ◌+◌, ◌-◌, ◌*◌, ◌/◌, max, String, Bool, true, false, ◌&&◌, ◌||◌, not, List, [], ◌∷◌,
  Option, none, some, Int64, lt64, le64, max64, add64, ltb, leb, eqb, ◌==◌, if◌then◌else◌,
}
use comrad.Prelude.Dict.{Dict, values, map_values, get_or}
use comrad.Types.{
  Time, Task, TaskStatus, Node, PlacementPolicy, WorkloadProfile, RuntimeModelVariant, Requirements,
  Artifact, Error, is_queued, is_running, is_completed, is_failed, is_cancelled, after,
  zero_artifact, is_negative, min_warm_above_max, min_cached_above_max,
}
use comrad.Store.{Database}
use comrad.Profile.{profile_runtime_variants, effective_profile_for_variant}

abbrev pub Duration : Type 0
Duration = ℕ

abbrev pub auto_balance_demand_window : Duration
auto_balance_demand_window = 600000000000

abbrev pub auto_balance_demand_buckets : ℕ
auto_balance_demand_buckets = 5

abbrev pub default_cooldown : Duration
default_cooldown = 300000000000

-- The first negative one of the named values; Go's map leaves open which one is met first.
first_negative : List (String × Int64) → Option Error
first_negative [] = none
first_negative ((name, value) ∷ rest) =
    let later = first_negative rest in if lt64 value 0 then some (is_negative name) else later

abbrev pub policy_counts : PlacementPolicy → List (String × Int64)
policy_counts p =
    ("cachedCount", p.cached_count)
    ∷ ("warmCount", p.warm_count)
    ∷ ("minCachedCount", p.min_cached_count)
    ∷ ("maxCachedCount", p.max_cached_count)
    ∷ ("minWarmCount", p.min_warm_count)
    ∷ ("maxWarmCount", p.max_warm_count)
    ∷ ("maxCachedProfilesPerNode", p.max_cached_profiles_per_node)
    ∷ ("maxWarmProfilesPerNode", p.max_warm_profiles_per_node)
    ∷ []

limits_in_order : PlacementPolicy → Option Error
limits_in_order p =
    if lt64 0 p.max_warm_count && lt64 p.max_warm_count p.min_warm_count
    then some min_warm_above_max
    else if lt64 0 p.max_cached_count && lt64 p.max_cached_count p.min_cached_count
    then some min_cached_above_max
    else none

unfoldable pub validate_placement_policy : PlacementPolicy → Option Error
unfolding first_negative limits_in_order
validate_placement_policy p = elim (first_negative (policy_counts p)) [
  | some e ↦ some e
  | none ↦ limits_in_order p
]

unfoldable pub clamp_count : Int64 → Int64 → Int64 → Int64
clamp_count value min_value max_value =
    let raised = if lt64 value min_value then min_value else value in
    if lt64 0 max_value && lt64 max_value raised then max_value else raised

unfoldable pub ceil_div : ℕ → ℕ → ℕ
ceil_div value divisor = if eqb value 0 || eqb divisor 0 then 0 else (value + divisor - 1) / divisor

-- `demandBucket`.
unfoldable pub demand_bucket : Time → Time → Option ℕ
demand_bucket created now =
    let age = now - created in
    let bucket = age / (auto_balance_demand_window / auto_balance_demand_buckets) in
    if eqb created 0 || after created now
    then none
    else if leb auto_balance_demand_window age
    then none
    else if leb auto_balance_demand_buckets bucket
    then none
    else some bucket

-- `buckets[i]++` on the array of counts.
unfoldable pub bump : ℕ → List ℕ → List ℕ
bump i [] = []
bump zero (n ∷ ns) = suc n ∷ ns
bump (suc i) (n ∷ ns) = n ∷ bump i ns

unfoldable pub active_buckets : List ℕ → ℕ
active_buckets [] = 0
active_buckets (n ∷ ns) = let rest = active_buckets ns in if ltb 0 n then suc rest else rest

unfoldable pub smoothed_demand : ℕ → List ℕ → ℕ
unfolding active_buckets ceil_div
smoothed_demand recent buckets =
    if eqb recent 0
    then 0
    else ceil_div (recent * max 1 (active_buckets buckets)) (4 * auto_balance_demand_buckets)

pub record Demand : Type 0 where
  pub queued : ℕ
  pub running : ℕ
  pub recent : ℕ
  pub buckets : List ℕ

abbrev pub no_demand : Demand
no_demand = record { queued = 0; running = 0; recent = 0; buckets = 0 ∷ 0 ∷ 0 ∷ 0 ∷ 0 ∷ [] }

-- The loop body of `profileDemand`.
abbrev pub in_bucket : Option ℕ → Demand → Demand
in_bucket none d = d
in_bucket (some b) d = record d { recent = suc d.recent; buckets = bump b d.buckets }

unfoldable pub count_task : String → Time → Demand → Task → Demand
count_task profile now d task =
    let d1 = record d {
      queued = if is_queued task.status then suc d.queued else d.queued;
      running = if is_running task.status then suc d.running else d.running;
    } in
    if not (task.profile_id == profile) then d else in_bucket (demand_bucket task.created_at now) d1

unfoldable pub count_tasks : String → Time → Demand → List Task → Demand
count_tasks profile now d [] = d
count_tasks profile now d (t ∷ ts) = count_tasks profile now (count_task profile now d t) ts

unfoldable pub profile_demand : Database → String → Time → Demand
profile_demand db profile now = count_tasks profile now no_demand (values db.tasks)

abbrev pub smoothed : Demand → ℕ
smoothed d = smoothed_demand d.recent d.buckets

unfoldable pub task_terminal : TaskStatus → Bool
task_terminal s = is_completed s || is_failed s || is_cancelled s

unfoldable pub task_finished_at : Task → Time
task_finished_at task = elim task.completed_at [ none ↦ task.updated_at | some t ↦ t ]

-- `recentlyFinishedDemand`: `t.After(now.Add(-d))` is `now < t + d`.
unfoldable pub recently_finished : String → Time → Duration → List Task → ℕ
unfolding task_terminal task_finished_at
recently_finished profile now cooldown [] = 0
recently_finished profile now cooldown (t ∷ ts) =
    let rest = recently_finished profile now cooldown ts in
    let finished = task_finished_at t in
    if not (t.profile_id == profile) || not (task_terminal t.status)
    then rest
    else if ltb now (t.created_at + auto_balance_demand_window)
    then rest
    else if ltb now (finished + cooldown) && not (after finished now)
    then suc rest
    else rest

-- `autoBalanceCooldownDemand`. A clock that reads less than the cooldown stops at the zero time,
-- after which no task was created.
unfoldable pub cooldown_demand : Database → String → Time → Duration → ℕ
cooldown_demand db profile now cooldown =
    if eqb cooldown 0
    then 0
    else max (smoothed (profile_demand db profile (now - cooldown)))
        (recently_finished profile now cooldown (values db.tasks))

-- `managerAutoBalanceCooldown`.
unfoldable pub manager_auto_balance_cooldown : Duration → Duration
manager_auto_balance_cooldown configured = if ltb 0 configured then configured else default_cooldown

pub record PolicyCapacity : Type 0 where
  pub cached : Int64
  pub warm : Int64
  pub min_cached : Int64
  pub min_warm : Int64
  pub demand_queued : ℕ
  pub demand_running : ℕ
  pub demand_recent : ℕ
  pub demand_smoothed : ℕ

-- The capacity of a policy that balances itself, at a demand.
unfoldable pub balanced_capacity : PlacementPolicy → Demand → ℕ → PolicyCapacity
balanced_capacity policy d cooled =
    let min_warm =
      if eqb policy.min_warm_count 0 && lt64 0 policy.warm_count
      then policy.warm_count
      else policy.min_warm_count in
    let least = max64 policy.min_cached_count min_warm in
    let min_cached =
      if eqb least 0 && lt64 0 policy.cached_count then policy.cached_count else least in
    let demand = max (d.queued + d.running + smoothed d) cooled in
    let warm = clamp_count demand min_warm policy.max_warm_count in
    let cached =
      max64 (clamp_count (max64 warm min_cached) min_cached policy.max_cached_count) warm in
    record {
      cached = cached;
      warm = warm;
      min_cached = min_cached;
      min_warm = min_warm;
      demand_queued = d.queued;
      demand_running = d.running;
      demand_recent = d.recent;
      demand_smoothed = smoothed d;
    }

unfoldable pub effective_policy_capacity :
    Database → PlacementPolicy → Time → Duration → PolicyCapacity
effective_policy_capacity db policy now cooldown =
    let warm = max64 0 policy.warm_count in
    let cached = max64 warm policy.cached_count in
    if not policy.auto_balance
    then record {
      cached = cached;
      warm = warm;
      min_cached = cached;
      min_warm = warm;
      demand_queued = 0;
      demand_running = 0;
      demand_recent = 0;
      demand_smoothed = 0;
    }
    else balanced_capacity policy (profile_demand db policy.profile_id now)
        (cooldown_demand db policy.profile_id now cooldown)

-- `decoratePolicyEffectiveCapacityWithCooldown`.
decorated : Database → Time → Duration → PlacementPolicy → PlacementPolicy
decorated db now cooldown policy =
    let c = effective_policy_capacity db policy now cooldown in
    record policy {
      effective_cached_count = c.cached;
      effective_warm_count = c.warm;
      demand_queued = c.demand_queued;
      demand_running = c.demand_running;
      demand_recent = c.demand_recent;
      demand_smoothed = c.demand_smoothed;
    }

pub decorate_policies : Time → Duration → Database → Database
unfolding decorated
decorate_policies now cooldown db = record db {
  policies = map_values (decorated db now cooldown) db.policies;
}

pub desired_cached_count : PlacementPolicy → Int64
desired_cached_count p =
    if lt64 0 p.effective_cached_count || p.auto_balance
    then p.effective_cached_count
    else max64 p.cached_count p.warm_count

pub desired_warm_count : PlacementPolicy → Int64
desired_warm_count p =
    if lt64 0 p.effective_warm_count || p.auto_balance then p.effective_warm_count else p.warm_count

abbrev pub required_memory : Option Requirements → Int64
required_memory none = 0
required_memory (some req) =
    if lt64 0 req.unified_memory_bytes then req.unified_memory_bytes else req.ram_bytes

unfoldable pub profile_memory_bytes : WorkloadProfile → Int64
profile_memory_bytes profile = required_memory profile.requirements

artifact_bytes : Dict Artifact → List String → Int64
artifact_bytes artifacts [] = 0
artifact_bytes artifacts (id ∷ ids) =
    add64 (get_or zero_artifact id artifacts).size_bytes (artifact_bytes artifacts ids)

abbrev pub required_disk : Option Requirements → Int64
required_disk none = 0
required_disk (some req) = req.disk_bytes

unfoldable pub profile_disk_bytes : Database → WorkloadProfile → Int64
unfolding artifact_bytes
profile_disk_bytes db profile =
    if lt64 0 (required_disk profile.requirements)
    then required_disk profile.requirements
    else artifact_bytes db.artifacts profile.artifacts

variants_size : Database → WorkloadProfile → Int64 → List RuntimeModelVariant → Int64
variants_size db profile size [] = size
variants_size db profile size (v ∷ vs) =
    let effective = effective_profile_for_variant profile v in
    variants_size db profile
      (max64 size (add64 (profile_memory_bytes effective) (profile_disk_bytes db effective))) vs

unfoldable pub profile_placement_size : Database → WorkloadProfile → Int64
unfolding variants_size
profile_placement_size db profile = variants_size db profile 0 (profile_runtime_variants profile)

unfoldable pub node_memory_budget : Node → Int64
node_memory_budget node =
    if lt64 0 node.budgets.unified_memory_bytes
    then node.budgets.unified_memory_bytes
    else node.budgets.ram_bytes

unfoldable pub node_placement_budget : Node → Int64
node_placement_budget node = max64 (node_memory_budget node) node.budgets.disk_bytes
