-- ===== src/Planner.antt =====
-- internal/comrad/placement_plan.go: the steps of the planner, from the policies of the database to
-- the assignments.
pub mod Counting
pub mod Turns
pub mod Budget
use comrad.Prelude.{
  ℕ, zero, suc, ◌+◌, ◌-◌, String, Bool, true, false, not, ◌&&◌, ◌||◌, List, [], ◌∷◌, ◌++◌, Option,
  none, some, Int64, lt64, eqb, ltb, text_ltb, ◌==◌, if◌then◌else◌,
}
use comrad.Prelude.Dict.{Dict, lookup, get_or, insert, values}
use comrad.Prelude.Sets.{contains}
use comrad.Prelude.Sort.{sort_stable}
use comrad.Types.{
  Time, Node, Slot, WorkloadProfile, PlacementPolicy, PlacementAssignment, zero_node,
  failure_worker_flapping,
}
use comrad.Store.{Database}
use comrad.Accounting.{first_non_empty}
use comrad.Fit.{best_variant_for_slot, assignment_from_fit, sorted_slots, is_nil}
use comrad.Capacity.{Duration, effective_policy_capacity, profile_placement_size}
use comrad.Flapping.{node_warm_placement_suppressed}
use comrad.Candidates.{
  PlacementCandidate, placement_candidates, profile_scarcity, runtime_copy_protected,
  protected_runtime_candidate, slot_available_for_warm, cache_assignment_from_candidate,
}
use comrad.Plan.{
  PolicyPlanItem, Plan, empty_plan, add_key, add_assignment, node_has_profile_cache,
  can_use_candidate, hard_pin_rejection_reasons, mark_warm, mark_cache, add_missing_assignment,
  add_missing,
}
use comrad.Plan.Drain.{mark_draining_assignments}

abbrev pub by_policy_id : PlacementPolicy → PlacementPolicy → Bool
by_policy_id a b = text_ltb a.id b.id

-- `SortedPolicies` of internal/comrad/store.go.
unfoldable pub sorted_policies : Database → List PlacementPolicy
sorted_policies db = sort_stable by_policy_id (values db.policies)

policy_item : Database → Time → Duration → PlacementPolicy → WorkloadProfile → PolicyPlanItem
policy_item db now cooldown policy profile =
    let capacity = effective_policy_capacity db policy now cooldown in
    record {
      profile = profile;
      policy = policy;
      capacity = capacity;
      scarcity = profile_scarcity db profile policy;
      size = profile_placement_size db profile;
      demand = capacity.demand_queued + capacity.demand_running + capacity.demand_smoothed;
    }

unfoldable pub policy_items_of :
    Database → Time → Duration → List PlacementPolicy → List PolicyPlanItem
unfolding policy_item
policy_items_of db now cooldown [] = []
policy_items_of db now cooldown (policy ∷ policies) =
    let rest = policy_items_of db now cooldown policies in
    elim (lookup policy.profile_id db.profiles) [
      | none ↦ rest
      | some profile ↦ policy_item db now cooldown policy profile ∷ rest
    ]

unfoldable pub policy_items : Database → Time → Duration → List PolicyPlanItem
policy_items db now cooldown = policy_items_of db now cooldown (sorted_policies db)

unfoldable pub item_before : Bool → PolicyPlanItem → PolicyPlanItem → Bool
item_before extras a b =
    if extras && not (eqb a.demand b.demand)
    then ltb b.demand a.demand
    else if not (eqb a.scarcity b.scarcity)
    then ltb a.scarcity b.scarcity
    else if not (eqb a.size b.size)
    then lt64 b.size a.size
    else text_ltb a.profile.id b.profile.id

unfoldable pub sort_policy_items : Bool → List PolicyPlanItem → List PolicyPlanItem
sort_policy_items extras items = sort_stable (item_before extras) items

-- The assignment of a candidate that is chosen to be warm.
abbrev pub warm_assignment : Time → PolicyPlanItem → PlacementCandidate → PlacementAssignment
warm_assignment now item c =
    record (assignment_from_fit item.profile.id c.effective c.slot c.fit now) {
      desired_cached = true;
      desired_warm = true;
    }

-- A pin to a slot of the database.
unfoldable pub place_pinned_slot : Database → Time → PolicyPlanItem → Slot → Plan → Plan
place_pinned_slot db now item slot plan =
    let node = get_or zero_node slot.node_id db.nodes in
    let (effective, fit) = best_variant_for_slot item.profile node slot in
    let c : PlacementCandidate = record {
      slot = slot;
      node = node;
      profile = item.profile;
      effective = effective;
      fit = fit;
    } in
    let a = warm_assignment now item c in
    if node_warm_placement_suppressed node now
    then add_assignment (record a { mismatch_reason = failure_worker_flapping }) plan
    else if not (is_nil (hard_pin_rejection_reasons db now plan item c))
    then add_assignment
        (record a {
          mismatch_reason =
              first_non_empty (a.mismatch_reason ∷ "resource_exhausted_node_budget" ∷ []);
        })
        plan
    else mark_warm db item c (add_assignment a plan)

unfoldable pub place_pin : Database → Time → PolicyPlanItem → Option Slot → Plan → Plan
place_pin db now item none plan = add_missing_assignment now item.profile.id true plan
place_pin db now item (some slot) plan = place_pinned_slot db now item slot plan

unfoldable pub place_hard_pin : Database → Time → PolicyPlanItem → String → Plan → Plan
place_hard_pin db now item pin plan = place_pin db now item (lookup pin db.slots) plan

-- A loop that hands the plan from one turn to the next.
unfoldable pub each {ℓ} : {A : Type ℓ} → (A → Plan → Plan) → List A → Plan → Plan
each f [] plan = plan
each f (x ∷ xs) plan = each f xs (f x plan)

unfoldable pub place_hard_pins : Database → Time → List PolicyPlanItem → Plan → Plan
place_hard_pins db now items plan =
    each (λ item. each (place_hard_pin db now item) item.policy.hard_pinned_slots) items plan

-- The last item of a profile stands for it.
unfoldable pub policy_items_by_profile :
    List PolicyPlanItem → Dict PolicyPlanItem → Dict PolicyPlanItem
policy_items_by_profile [] out = out
policy_items_by_profile (item ∷ items) out =
    policy_items_by_profile items (insert item.profile.id item out)

unfoldable pub preserve_candidate :
    Database → Time → PolicyPlanItem → Option PlacementCandidate → Plan → Plan
preserve_candidate db now item none plan = plan
preserve_candidate db now item (some c) plan =
    let a = warm_assignment now item c in
    let added = add_assignment a plan in
    if can_use_candidate db now plan item c true
    then mark_warm db item c (record added { protected = add_key a.id added.protected })
    else plan

unfoldable pub preserve_slot : Database → Time → Dict PolicyPlanItem → Slot → Plan → Plan
preserve_slot db now by_profile slot plan =
    if not (runtime_copy_protected slot) || contains plan.slot_used slot.id
    then plan
    else elim (lookup slot.profile_id by_profile) [
      | none ↦ plan
      | some item ↦
          preserve_candidate db now item
            (protected_runtime_candidate db item.profile item.policy slot) plan
    ]

unfoldable pub preserve_runtime_copies : Database → Time → List PolicyPlanItem → Plan → Plan
preserve_runtime_copies db now items plan =
    each (preserve_slot db now (policy_items_by_profile items [])) (sorted_slots db) plan

-- The search of `nextWarmCandidate`.
unfoldable pub find_warm :
    Database → Time → Plan → PolicyPlanItem → List PlacementCandidate → Option PlacementCandidate
find_warm db now plan item [] = none
find_warm db now plan item (c ∷ cs) =
    let rest = find_warm db now plan item cs in
    if contains plan.slot_used c.slot.id
      || not (slot_available_for_warm c.slot item.profile c.effective)
    then rest
    else if can_use_candidate db now plan item c true
    then some c
    else rest

unfoldable pub next_warm_candidate :
    Database → Time → Plan → PolicyPlanItem → Option PlacementCandidate
next_warm_candidate db now plan item =
    find_warm db now plan item (placement_candidates db item.profile item.policy)

-- The search of `nextCacheCandidate`, with the nodes that it has seen.
unfoldable pub find_cache :
    Database
    → Time
    → Plan
    → PolicyPlanItem
    → List String
    → List PlacementCandidate
    → Option PlacementCandidate
find_cache db now plan item seen [] = none
find_cache db now plan item seen (c ∷ cs) =
    let skip = find_cache db now plan item seen cs in
    let rest = find_cache db now plan item (c.node.id ∷ seen) cs in
    if contains seen c.node.id || node_has_profile_cache plan c.node.id item.profile.id
    then skip
    else if can_use_candidate db now plan item c false
    then some c
    else rest

unfoldable pub next_cache_candidate :
    Database → Time → Plan → PolicyPlanItem → Option PlacementCandidate
next_cache_candidate db now plan item =
    find_cache db now plan item [] (placement_candidates db item.profile item.policy)

-- One turn of the loops `placeWarmUntil` and `placeCacheUntil`.
unfoldable pub place_warm :
    Database → Time → PolicyPlanItem → Option PlacementCandidate → Plan → Plan
place_warm db now item none plan = add_missing now item.profile.id true plan
place_warm db now item (some c) plan =
    mark_warm db item c (add_assignment (warm_assignment now item c) plan)

unfoldable pub place_cache :
    Database → Time → PolicyPlanItem → Option PlacementCandidate → Plan → Plan
place_cache db now item none plan = add_missing now item.profile.id false plan
place_cache db now item (some c) plan =
    mark_cache db item c
      (add_assignment (cache_assignment_from_candidate item.profile.id c now) plan)

-- A target counts when it is positive.
abbrev pub as_count : Int64 → ℕ
as_count target = if lt64 0 target then target else 0

abbrev pub warm_count_of : PolicyPlanItem → Plan → ℕ
warm_count_of item plan = get_or 0 item.profile.id plan.warm_by_profile

abbrev pub cache_count_of : PolicyPlanItem → Plan → ℕ
cache_count_of item plan = get_or 0 item.profile.id plan.cache_by_profile

unfoldable pub warm_turns : Database → Time → PolicyPlanItem → ℕ → ℕ → Plan → Plan
warm_turns db now item target zero plan = plan
warm_turns db now item target (suc fuel) plan =
    let rest =
      warm_turns db now item target fuel
        (place_warm db now item (next_warm_candidate db now plan item) plan) in
    if ltb (warm_count_of item plan) target then rest else plan

unfoldable pub cache_turns : Database → Time → PolicyPlanItem → ℕ → ℕ → Plan → Plan
cache_turns db now item target zero plan = plan
cache_turns db now item target (suc fuel) plan =
    let rest =
      cache_turns db now item target fuel
        (place_cache db now item (next_cache_candidate db now plan item) plan) in
    if ltb (cache_count_of item plan) target then rest else plan

-- The fuel is the target, since each turn counts one copy.
unfoldable pub place_warm_until :
    Database → Time → (PolicyPlanItem → Int64) → PolicyPlanItem → Plan → Plan
place_warm_until db now target item plan =
    warm_turns db now item (as_count (target item)) (as_count (target item)) plan

unfoldable pub place_cache_until :
    Database → Time → (PolicyPlanItem → Int64) → PolicyPlanItem → Plan → Plan
place_cache_until db now target item plan =
    cache_turns db now item (as_count (target item)) (as_count (target item)) plan

-- `planPlacementWithCooldown` up to the draining, which changes the assignments only.
unfoldable pub placed : Database → Time → List PolicyPlanItem → Plan
placed db now items =
    let needs = sort_policy_items false items in
    let extras = sort_policy_items true needs in
    let pinned = place_hard_pins db now items empty_plan in
    let kept = preserve_runtime_copies db now items pinned in
    let p1 = each (place_warm_until db now (λ i. i.capacity.min_warm)) needs kept in
    let p2 = each (place_cache_until db now (λ i. i.capacity.min_cached)) needs p1 in
    let p3 = each (place_warm_until db now (λ i. i.capacity.warm)) extras p2 in
    each (place_cache_until db now (λ i. i.capacity.cached)) extras p3

abbrev pub by_profile_and_slot : PlacementAssignment → PlacementAssignment → Bool
by_profile_and_slot a b =
    if a.profile_id == b.profile_id
    then text_ltb a.slot_id b.slot_id
    else text_ltb a.profile_id b.profile_id

-- `planPlacementWithCooldown`. `sortAssignments` leaves the order of ties open.
unfoldable pub plan_placement : Database → Time → Duration → List PlacementAssignment
plan_placement db now cooldown =
    let items = policy_items db now cooldown in
    let extras = sort_policy_items true (sort_policy_items false items) in
    sort_stable by_profile_and_slot (mark_draining_assignments extras (placed db now items))
