-- ===== src/Scenarios/Placement.antt =====
-- The theorems on profiles, fit, capacity and the planner, applied.
use comrad.Prelude.{
  ◌≡◌, ◌↔◌, ◌≤◌, ◌+◌, max, min, refl, true, false, [], ◌∷◌, arith, eq_iff, le64, ltb, eqb, ◌&&◌,
  if◌then◌else◌,
}
use comrad.Prelude.Dict.{lookup, insert, get_or, values}
use comrad.Types.{WorkloadProfile, zero_assignment}
use comrad.Profile.{profile_runtime_variants}
use comrad.Profile.Resolve.{all_candidates, resolve_llm_profile}
use comrad.Profile.Resolve.Best.{Outcome, resolve_llm_profile-Outcome}
use comrad.Fit.{fit_profile_to_slot, best_variant_for_slot}
use comrad.Fit.Admits.{Offers, IsAdmitted, fit_profile_to_slot-Admits}
use comrad.Fit.Best.{Chosen, best_variant_for_slot-Chosen}
use comrad.Capacity.{
  smoothed_demand, no_demand, balanced_capacity, smoothed, validate_placement_policy,
}
use comrad.Capacity.Bounds.{
  NaturalCounts, own_min_warm, balanced_capacity_bounds, validate_placement_policy-NaturalCounts,
}
use comrad.Plan.{empty_plan, Plan}
use comrad.Plan.Drain.{
  mark_draining_assignments, live_copies, warm_targets_by_profile, mark_draining_assignments_enough,
}
use comrad.Plan.Disk.{Keyed}
use comrad.Planner.{
  placed, place_warm_until, place_cache_until, warm_count_of, cache_count_of, as_count,
}
use comrad.Planner.Budget.{placed_disk_budget}
use comrad.Planner.Counting.{place_warm_until-count, place_cache_until-count}
use comrad.Scenarios.{site, gpu_node, ready_slot, embed_profile, warm_policy, warm_item}

fit_profile_to_slot-Admits_example :
    ((fit_profile_to_slot embed_profile gpu_node ready_slot).fits ≡ true)
    ↔ ((run : WorkloadProfile) × Offers embed_profile run × IsAdmitted run gpu_node ready_slot)
fit_profile_to_slot-Admits_example = fit_profile_to_slot-Admits embed_profile gpu_node ready_slot

best_variant_for_slot-Chosen_example :
    Chosen embed_profile gpu_node ready_slot
      (profile_runtime_variants embed_profile)
      (best_variant_for_slot embed_profile gpu_node ready_slot)
best_variant_for_slot-Chosen_example =
    best_variant_for_slot-Chosen embed_profile gpu_node ready_slot

resolve_llm_profile-Outcome_example :
    Outcome 100 (all_candidates "m" 100 (values site.profiles)) (resolve_llm_profile site "m" 100)
resolve_llm_profile-Outcome_example = resolve_llm_profile-Outcome site "m" 100

counts_natural : NaturalCounts warm_policy
counts_natural = record {
  cached_count = ground arith;
  warm_count = ground arith;
  min_cached_count = ground arith;
  max_cached_count = ground arith;
  min_warm_count = ground arith;
  max_warm_count = ground arith;
  max_cached_profiles_per_node = ground arith;
  max_warm_profiles_per_node = ground arith;
}

balanced_capacity_bounds_example :
    let c = balanced_capacity warm_policy no_demand 4 in
    let demand = max (no_demand.queued + no_demand.running + smoothed no_demand) 4 in
    let least = own_min_warm warm_policy in
    (c.warm ≤ c.cached)
    × (c.min_warm ≡ least)
    × (c.warm ≡ (
        if eqb warm_policy.max_warm_count 0
        then max least demand
        else min warm_policy.max_warm_count (max least demand)))
unfolding smoothed_demand
balanced_capacity_bounds_example =
    balanced_capacity_bounds warm_policy no_demand 4 counts_natural (ground arith)

validate_placement_policy-NaturalCounts_example :
    NaturalCounts warm_policy
    × ((ltb 0 warm_policy.max_warm_count
          && ltb warm_policy.max_warm_count warm_policy.min_warm_count)
        ≡ false)
    × ((ltb 0 warm_policy.max_cached_count
          && ltb warm_policy.max_cached_count warm_policy.min_cached_count)
        ≡ false)
unfolding validate_placement_policy
validate_placement_policy-NaturalCounts_example =
    validate_placement_policy-NaturalCounts warm_policy
      (
        ground arith,
        (
          ground arith,
          (
            ground arith,
            (ground arith, (ground arith, (ground arith, (ground arith, (ground arith, tt))))),
          ),
        ),
      )
      refl

place_warm_until-count_example :
    warm_count_of warm_item (place_warm_until site 30 (λ i. i.capacity.warm) warm_item empty_plan)
    ≡ max (warm_count_of warm_item empty_plan) (as_count warm_item.capacity.warm)
place_warm_until-count_example =
    place_warm_until-count site 30 (λ i. i.capacity.warm) warm_item empty_plan

place_cache_until-count_example :
    cache_count_of warm_item
      (place_cache_until site 30 (λ i. i.capacity.cached) warm_item empty_plan)
    ≡ max (cache_count_of warm_item empty_plan) (as_count warm_item.capacity.cached)
place_cache_until-count_example =
    place_cache_until-count site 30 (λ i. i.capacity.cached) warm_item empty_plan

site-Keyed : Keyed site
unfolding lookup
site-Keyed k n h = ground (arith, h, eq_iff "n1" k)

placed_disk_budget_example :
    le64 (get_or 0 "n1" (placed site 30 (warm_item ∷ [])).node_disk_used) 100 ≡ true
unfolding lookup
placed_disk_budget_example =
    placed_disk_budget site 30 (warm_item ∷ []) site-Keyed "n1" gpu_node refl (ground arith)

-- Two preserved copies, one more than the target.
abbrev crowded : Plan
crowded = record empty_plan {
  assignments =
      record zero_assignment { id = "x1"; profile_id = "p1"; slot_id = "s1"; desired_warm = true }
      ∷ record zero_assignment { id = "x2"; profile_id = "p1"; slot_id = "s2"; desired_warm = true }
      ∷ record zero_assignment { id = "x3"; profile_id = "p1"; slot_id = "s3"; desired_warm = true }
      ∷ [];
  protected = "x1" ∷ "x2" ∷ [];
}

mark_draining_assignments_enough_example :
    min
      (get_or 0 "p1" (warm_targets_by_profile (warm_item ∷ []) []))
      (live_copies "p1" crowded.assignments)
    ≤ live_copies "p1" (mark_draining_assignments (warm_item ∷ []) crowded)
unfolding warm_targets_by_profile get_or lookup insert
mark_draining_assignments_enough_example =
    mark_draining_assignments_enough (warm_item ∷ []) crowded "p1" (refl, (refl, (refl, tt)))
      (ground arith)
