-- ===== src/Planner/Counting.antt =====
-- internal/comrad/placement_plan.go: the loops of the planner end, at their targets.
use comrad.Prelude.{
  ℕ, zero, suc, max, ◌+◌, ◌≤◌, ◌≡◌, String, false, ◌||◌, ◌∷◌, List, [], Option, none, some, Int64,
  arith, eq_refl, if◌then◌else◌, Bool-cases, Option-cases, inl, inr,
}
use comrad.Prelude.Dict.{get_or-insert}
use comrad.Prelude.Sets.{contains}
use comrad.Types.{Time}
use comrad.Store.{Database}
use comrad.Candidates.{PlacementCandidate, placement_candidates}
use comrad.Plan.{
  PolicyPlanItem, Plan, node_has_profile_cache, can_use_candidate, mark_warm, mark_cache,
  add_missing, add_missing_assignment,
}
use comrad.Planner.{
  find_cache, next_cache_candidate, next_warm_candidate, place_warm, place_cache, as_count,
  warm_count_of, cache_count_of, warm_turns, cache_turns, place_warm_until, place_cache_until,
}

module _ (db : Database) (now : Time) (item : PolicyPlanItem) where
  place_warm-counts :
      (o : Option PlacementCandidate) (plan : Plan)
      → warm_count_of item (place_warm db now item o plan) ≡ suc (warm_count_of item plan)
  unfolding place_warm mark_warm mark_cache add_missing add_missing_assignment
  place_warm-counts none plan = ground (
    arith,
    get_or-insert 0 item.profile.id item.profile.id (suc (warm_count_of item plan))
        plan.warm_by_profile,
    eq_refl item.profile.id,
  )
  place_warm-counts (some c) plan = ground (
    arith,
    get_or-insert 0 item.profile.id item.profile.id (suc (warm_count_of item plan))
        plan.warm_by_profile,
    eq_refl item.profile.id,
  )

  find_cache-new :
      (plan : Plan) (seen : List String) (cs : List PlacementCandidate) (c : PlacementCandidate)
      → find_cache db now plan item seen cs ≡ some c
      → node_has_profile_cache plan c.node.id item.profile.id ≡ false
  unfolding find_cache
  find_cache-new plan seen [] c h = absurd (ground arith)
  find_cache-new plan seen (d ∷ cs) c h =
      elim (Bool-cases
        (contains seen d.node.id || node_has_profile_cache plan d.node.id item.profile.id)) [
          | inl e ↦ find_cache-new plan seen cs c (rw e at h)
          | inr e ↦
              let h' : (if can_use_candidate db now plan item d false
                    then some d
                    else find_cache db now plan item (d.node.id ∷ seen) cs)
                  ≡ some c =
                rw e at h in
              elim (Bool-cases (can_use_candidate db now plan item d false)) [
                | inl u ↦ let k : some d ≡ some c = rw u at h' in ground (arith, e, k)
                | inr u ↦ find_cache-new plan (d.node.id ∷ seen) cs c (rw u at h')
              ]
        ]

  place_cache-counts :
      (plan : Plan)
      → cache_count_of item (place_cache db now item (next_cache_candidate db now plan item) plan)
        ≡ suc (cache_count_of item plan)
  unfolding place_cache mark_cache add_missing add_missing_assignment next_cache_candidate
      node_has_profile_cache
  place_cache-counts plan =
      let up =
        get_or-insert 0 item.profile.id item.profile.id (suc (cache_count_of item plan))
          plan.cache_by_profile in
      let r = eq_refl item.profile.id in
      let cs = placement_candidates db item.profile item.policy in
      elim (Option-cases (find_cache db now plan item [] cs)) [
        | inl e ↦ rw e (ground (arith, up, r))
        | inr (c, e) ↦ rw e (ground (arith, up, r, find_cache-new plan [] cs c e))
      ]

  warm_turns-count :
      (target fuel : ℕ) (plan : Plan)
      → target ≤ fuel + warm_count_of item plan
      → warm_count_of item (warm_turns db now item target fuel plan)
        ≡ max (warm_count_of item plan) target
  unfolding warm_turns
  warm_turns-count target zero plan h = omega arith
  warm_turns-count target (suc fuel) plan h =
      let o = next_warm_candidate db now plan item in
      let up = place_warm-counts o plan in
      let rest = warm_turns-count target fuel (place_warm db now item o plan) (omega (arith, up)) in
      ground (arith, up, rest)

  cache_turns-count :
      (target fuel : ℕ) (plan : Plan)
      → target ≤ fuel + cache_count_of item plan
      → cache_count_of item (cache_turns db now item target fuel plan)
        ≡ max (cache_count_of item plan) target
  unfolding cache_turns
  cache_turns-count target zero plan h = omega arith
  cache_turns-count target (suc fuel) plan h =
      let o = next_cache_candidate db now plan item in
      let up = place_cache-counts plan in
      let rest =
        cache_turns-count target fuel (place_cache db now item o plan) (omega (arith, up)) in
      ground (arith, up, rest)

-- The fuel is enough: the loop for warm copies ends with the target, or with the copies that were
-- counted before where they are more.
pub place_warm_until-count :
    (db : Database) (now : Time) (target : PolicyPlanItem → Int64) (item : PolicyPlanItem)
    (plan : Plan)
    → warm_count_of item (place_warm_until db now target item plan)
      ≡ max (warm_count_of item plan) (as_count (target item))
unfolding place_warm_until
place_warm_until-count db now target item plan =
    warm_turns-count db now item (as_count (target item)) (as_count (target item)) plan
      (omega arith)

-- The fuel is enough: the loop for cached copies ends with the target, or with the copies that were
-- counted before where they are more.
pub place_cache_until-count :
    (db : Database) (now : Time) (target : PolicyPlanItem → Int64) (item : PolicyPlanItem)
    (plan : Plan)
    → cache_count_of item (place_cache_until db now target item plan)
      ≡ max (cache_count_of item plan) (as_count (target item))
unfolding place_cache_until
place_cache_until-count db now target item plan =
    cache_turns-count db now item (as_count (target item)) (as_count (target item)) plan
      (omega arith)
