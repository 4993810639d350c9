-- ===== src/Planner/Turns.antt =====
-- internal/comrad/placement_plan.go: the loops up to a target keep the disk budgets.
use comrad.Prelude.{
  ℕ, zero, suc, ◌≡◌, subst, String, true, false, not, ◌||◌, List, [], ◌∷◌, some, arith,
  if◌then◌else◌, ltb, Bool-cases, Option-cases, inl, inr, All,
}
use comrad.Prelude.Sets.{contains}
use comrad.Types.{Time}
use comrad.Store.{Database}
use comrad.Candidates.{PlacementCandidate, placement_candidates, slot_available_for_warm}
use comrad.Plan.{
  PolicyPlanItem, Plan, can_use_candidate, add_missing, add_missing_assignment, within_disk_budget,
  node_has_profile_cache,
}
use comrad.Plan.Disk.{
  Keyed, DiskWithin, Known, mark_cache-DiskWithin, mark_warm-DiskWithin, can_use_candidate-room,
  placement_candidates-Known,
}
use comrad.Planner.{
  each, find_warm, find_cache, next_warm_candidate, next_cache_candidate, place_warm, place_cache,
  warm_turns, cache_turns, warm_count_of, cache_count_of,
}

abbrev pub Within : Database → Plan → Type 0
Within db plan = DiskWithin db plan.node_disk_used

pub each-Within {ℓ} :
    {A : Type ℓ} (db : Database) (f : A → Plan → Plan) (xs : List A) (plan : Plan)
    → ((x : A) (p : Plan) → Within db p → Within db (f x p))
    → Within db plan
    → Within db (each f xs plan)
unfolding each
each-Within db f [] plan h w = w
each-Within db f (x ∷ xs) plan h w = each-Within db f xs (f x plan) h (h x plan w)

module _ (db : Database) (now : Time) (keyed : Keyed db) where
  find_warm-usable :
      (plan : Plan) (item : PolicyPlanItem) (cs : List PlacementCandidate) (c : PlacementCandidate)
      → All (Known db) cs
      → find_warm db now plan item cs ≡ some c
      → Known db c × (can_use_candidate db now plan item c true ≡ true)
  unfolding find_warm
  find_warm-usable plan item [] c a h = absurd (ground arith)
  find_warm-usable plan item (d ∷ cs) c a h =
      elim (Bool-cases (
        contains plan.slot_used d.slot.id
        || not (slot_available_for_warm d.slot item.profile d.effective))) [
          | inl e ↦ find_warm-usable plan item cs c a.1 (rw e at h)
          | inr e ↦
              let h' : (if can_use_candidate db now plan item d true
                    then some d
                    else find_warm db now plan item cs)
                  ≡ some c =
                rw e at h in
              elim (Bool-cases (can_use_candidate db now plan item d true)) [
                | inl u ↦
                    let k : some d ≡ some c = rw u at h' in
                    let s : d ≡ c = cc in
                    subst (λ x. Known db x × (can_use_candidate db now plan item x true ≡ true)) s
                      (a.0, u)
                | inr u ↦ find_warm-usable plan item cs c a.1 (rw u at h')
              ]
        ]

  find_cache-usable :
      (plan : Plan) (item : PolicyPlanItem) (seen : List String) (cs : List PlacementCandidate)
      (c : PlacementCandidate)
      → All (Known db) cs
      → find_cache db now plan item seen cs ≡ some c
      → Known db c × (can_use_candidate db now plan item c false ≡ true)
  unfolding find_cache
  find_cache-usable plan item seen [] c a h = absurd (ground arith)
  find_cache-usable plan item seen (d ∷ cs) c a h =
      elim (Bool-cases
        (contains seen d.node.id || node_has_profile_cache plan d.node.id item.profile.id)) [
          | inl e ↦ find_cache-usable plan item seen cs c a.1 (rw e at h)
          | inr e ↦
              let h' : (if can_use_candidate db now plan item d false
                    then some d
                    else find_cache db now plan item (d.node.id ∷ seen) cs)
                  ≡ some c =
                rw e at h in
              elim (Bool-cases (can_use_candidate db now plan item d false)) [
                | inl u ↦
                    let k : some d ≡ some c = rw u at h' in
                    let s : d ≡ c = cc in
                    subst (λ x. Known db x × (can_use_candidate db now plan item x false ≡ true)) s
                      (a.0, u)
                | inr u ↦ find_cache-usable plan item (d.node.id ∷ seen) cs c a.1 (rw u at h')
              ]
        ]

  place_warm-Within :
      (item : PolicyPlanItem) (plan : Plan)
      → Within db plan
      → Within db (place_warm db now item (next_warm_candidate db now plan item) plan)
  unfolding place_warm next_warm_candidate add_missing add_missing_assignment within_disk_budget
  place_warm-Within item plan w =
      let cs = placement_candidates db item.profile item.policy in
      elim (Option-cases (find_warm db now plan item cs)) [
        | inl e ↦ rw e w
        | inr (c, e) ↦
            let (known, usable) =
              find_warm-usable plan item cs c
                (placement_candidates-Known db item.profile item.policy) e in
            rw e (
              mark_warm-DiskWithin db item c _ keyed known
                (can_use_candidate-room db now plan item c true usable) w)
      ]

  place_cache-Within :
      (item : PolicyPlanItem) (plan : Plan)
      → Within db plan
      → Within db (place_cache db now item (next_cache_candidate db now plan item) plan)
  unfolding place_cache next_cache_candidate add_missing add_missing_assignment within_disk_budget
  place_cache-Within item plan w =
      let cs = placement_candidates db item.profile item.policy in
      elim (Option-cases (find_cache db now plan item [] cs)) [
        | inl e ↦ rw e w
        | inr (c, e) ↦
            let (known, usable) =
              find_cache-usable plan item [] cs c
                (placement_candidates-Known db item.profile item.policy) e in
            rw e (
              mark_cache-DiskWithin db item c _ keyed known
                (can_use_candidate-room db now plan item c false usable) w)
      ]

  pub warm_turns-Within :
      (item : PolicyPlanItem) (target fuel : ℕ) (plan : Plan)
      → Within db plan
      → Within db (warm_turns db now item target fuel plan)
  unfolding warm_turns
  warm_turns-Within item target zero plan w = w
  warm_turns-Within item target (suc fuel) plan w =
      elim (Bool-cases (ltb (warm_count_of item plan) target)) [
        | inl e ↦ rw e (warm_turns-Within item target fuel _ (place_warm-Within item plan w))
        | inr e ↦ rw e w
      ]

  pub cache_turns-Within :
      (item : PolicyPlanItem) (target fuel : ℕ) (plan : Plan)
      → Within db plan
      → Within db (cache_turns db now item target fuel plan)
  unfolding cache_turns
  cache_turns-Within item target zero plan w = w
  cache_turns-Within item target (suc fuel) plan w =
      elim (Bool-cases (ltb (cache_count_of item plan) target)) [
        | inl e ↦ rw e (cache_turns-Within item target fuel _ (place_cache-Within item plan w))
        | inr e ↦ rw e w
      ]
