-- ===== src/Plan.antt =====
-- internal/comrad/placement_plan.go: the planner's state and what a choice does to it. The explainer
-- is left out: it only records what it is told. A Go set is the list of its keys; a counter only
-- goes up from 0 and is an unbounded number.
pub mod Drain
pub mod Disk
use comrad.Prelude.{
  ℕ, suc, ◌+◌, ◌-◌, String, Bool, true, false, not, ◌&&◌, ◌||◌, List, [], ◌∷◌, ◌++◌, Option, none,
  some, Int64, lt64, le64, add64, eqb, ltb, leb, text_ltb, ◌==◌, if◌then◌else◌, length,
}
use comrad.Prelude.Dict.{Dict, get_or, insert}
use comrad.Prelude.Sets.{contains, unique_sorted}
use comrad.Prelude.Sort.{sort_stable}
use comrad.Prelude.Texts.{decimal}
use comrad.Types.{
  Time, Node, WorkloadProfile, PlacementPolicy, PlacementAssignment, Requirements, zero_assignment,
  failure_worker_flapping, failure_resource_exhausted_disk, failure_resource_exhausted_ram,
}
use comrad.Store.{Database}
use comrad.Fit.{assignment_id}
use comrad.Capacity.{PolicyCapacity, profile_memory_bytes, profile_disk_bytes, node_memory_budget}
use comrad.Flapping.{node_warm_placement_suppressed}
use comrad.Candidates.{PlacementCandidate, candidate_base_rejection_reasons, add_if}
use Prim.Native.String

pub record PolicyPlanItem : Type 0 where
  pub profile : WorkloadProfile
  pub policy : PlacementPolicy
  pub capacity : PolicyCapacity
  pub scarcity : ℕ
  pub size : Int64
  pub demand : ℕ

-- The fields of `placementPlanner` that change.
pub record Plan : Type 0 where
  pub assignments : List PlacementAssignment
  pub protected : List String
  pub warm_by_profile : Dict ℕ
  pub cache_by_profile : Dict ℕ
  pub slot_used : List String
  pub node_memory_used : Dict Int64
  pub node_disk_used : Dict Int64
  pub node_warm : Dict (List String)
  pub node_cache : Dict (List String)
  pub missing : Dict ℕ

-- `newPlacementPlanner`.
abbrev pub empty_plan : Plan
empty_plan = record {
  assignments = [];
  protected = [];
  warm_by_profile = [];
  cache_by_profile = [];
  slot_used = [];
  node_memory_used = [];
  node_disk_used = [];
  node_warm = [];
  node_cache = [];
  missing = [];
}

-- `set[k] = true`.
unfoldable pub add_key : String → List String → List String
add_key k keys = if contains keys k then keys else keys ++ k ∷ []

abbrev pub count_up : String → Dict ℕ → Dict ℕ
count_up k counts = insert k (suc (get_or 0 k counts)) counts

abbrev pub add_assignment : PlacementAssignment → Plan → Plan
add_assignment a plan = record plan { assignments = plan.assignments ++ a ∷ [] }

unfoldable pub node_has_profile_warm : Plan → String → String → Bool
node_has_profile_warm plan node profile = contains (get_or [] node plan.node_warm) profile

unfoldable pub node_has_profile_cache : Plan → String → String → Bool
node_has_profile_cache plan node profile = contains (get_or [] node plan.node_cache) profile

-- The limit is on when it is positive.
abbrev pub at_limit : Int64 → List String → Bool
at_limit limit keys = lt64 0 limit && leb limit (length keys)

unfoldable pub profile_limit_rejection_reason : Plan → PolicyPlanItem → String → Bool → String
profile_limit_rejection_reason plan item node warm =
    if warm
      && not (node_has_profile_warm plan node item.profile.id)
      && at_limit item.policy.max_warm_profiles_per_node (get_or [] node plan.node_warm)
    then "per_node_warm_profile_limit"
    else if not (node_has_profile_cache plan node item.profile.id)
        && at_limit item.policy.max_cached_profiles_per_node (get_or [] node plan.node_cache)
    then "per_node_cached_profile_limit"
    else ""

unfoldable pub within_profile_limit : Plan → PolicyPlanItem → String → Bool → Bool
within_profile_limit plan item node warm = profile_limit_rejection_reason plan item node warm == ""

unfoldable pub within_disk_budget : Database → Plan → Node → WorkloadProfile → Bool
within_disk_budget db plan node profile =
    if le64 node.budgets.disk_bytes 0
    then true
    else le64 (add64 (get_or 0 node.id plan.node_disk_used) (profile_disk_bytes db profile))
        node.budgets.disk_bytes

unfoldable pub within_memory_budget : Plan → Node → WorkloadProfile → Bool
within_memory_budget plan node profile =
    let budget = node_memory_budget node in
    let need = profile_memory_bytes profile in
    if le64 budget 0 || le64 need 0
    then true
    else le64 (add64 (get_or 0 node.id plan.node_memory_used) need) budget

unfoldable pub can_use_candidate :
    Database → Time → Plan → PolicyPlanItem → PlacementCandidate → Bool → Bool
can_use_candidate db now plan item c warm =
    if warm && node_warm_placement_suppressed c.node now
    then false
    else if not (within_profile_limit plan item c.node.id warm)
    then false
    else if not (within_disk_budget db plan c.node c.effective)
    then false
    else not warm || within_memory_budget plan c.node c.effective

abbrev pub needs_unified_memory : Option Requirements → Bool
needs_unified_memory none = false
needs_unified_memory (some req) = lt64 0 req.unified_memory_bytes

unfoldable pub placement_memory_reason : WorkloadProfile → String
placement_memory_reason profile =
    if needs_unified_memory profile.requirements
    then "resource_exhausted_unified_memory"
    else failure_resource_exhausted_ram

unfoldable pub node_budget_rejection_reasons :
    Database → Time → Plan → PolicyPlanItem → PlacementCandidate → Bool → List String
node_budget_rejection_reasons db now plan item c warm =
    let limit = profile_limit_rejection_reason plan item c.node.id warm in
    let r1 =
      add_if (warm && node_warm_placement_suppressed c.node now) failure_worker_flapping [] in
    let r2 = add_if (not (limit == "")) limit r1 in
    let r3 =
      add_if (not (within_disk_budget db plan c.node c.effective)) failure_resource_exhausted_disk
        r2 in
    add_if (warm && not (within_memory_budget plan c.node c.effective))
      (placement_memory_reason c.effective) r3

unfoldable pub hard_pin_rejection_reasons :
    Database → Time → Plan → PolicyPlanItem → PlacementCandidate → List String
hard_pin_rejection_reasons db now plan item c = unique_sorted (
    candidate_base_rejection_reasons item.policy c
    ++ node_budget_rejection_reasons db now plan item c true)

unfoldable pub mark_cache : Database → PolicyPlanItem → PlacementCandidate → Plan → Plan
mark_cache db item c plan =
    if node_has_profile_cache plan c.node.id item.profile.id then plan else record plan {
      node_disk_used =
          insert c.node.id
            (add64 (get_or 0 c.node.id plan.node_disk_used) (profile_disk_bytes db c.effective))
            plan.node_disk_used;
      node_cache =
          insert c.node.id (add_key item.profile.id (get_or [] c.node.id plan.node_cache))
            plan.node_cache;
      cache_by_profile = count_up item.profile.id plan.cache_by_profile;
    }

unfoldable pub mark_warm : Database → PolicyPlanItem → PlacementCandidate → Plan → Plan
mark_warm db item c plan = mark_cache db item c (record plan {
  slot_used = add_key c.slot.id plan.slot_used;
  node_memory_used =
      insert c.node.id
        (add64 (get_or 0 c.node.id plan.node_memory_used) (profile_memory_bytes c.effective))
        plan.node_memory_used;
  node_warm =
      insert c.node.id (add_key item.profile.id (get_or [] c.node.id plan.node_warm))
        plan.node_warm;
  warm_by_profile = count_up item.profile.id plan.warm_by_profile;
})

unfoldable pub missing_placement_assignment : String → ℕ → Bool → Time → PlacementAssignment
missing_placement_assignment profile selected warm now = record zero_assignment {
  id = assignment_id profile "" (String.◌++◌ "missing-" (decimal selected));
  profile_id = profile;
  desired_cached = true;
  desired_warm = warm;
  mismatch_reason = "insufficient_compatible_slots";
  updated_at = now;
}

-- `addAssignment(missingPlacementAssignment(…, p.nextMissing(…), …))`.
unfoldable pub add_missing_assignment : Time → String → Bool → Plan → Plan
add_missing_assignment now profile warm plan =
    add_assignment (missing_placement_assignment profile (get_or 0 profile plan.missing) warm now)
      (record plan { missing = count_up profile plan.missing })

unfoldable pub add_missing : Time → String → Bool → Plan → Plan
add_missing now profile warm plan =
    let added = add_missing_assignment now profile warm plan in
    record added {
      cache_by_profile = count_up profile added.cache_by_profile;
      warm_by_profile =
          if warm then count_up profile added.warm_by_profile else added.warm_by_profile;
    }
