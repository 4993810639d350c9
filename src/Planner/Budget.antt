-- ===== src/Planner/Budget.antt =====
-- internal/comrad/placement_plan.go: no plan counts more disk on a node than its budget.
use comrad.Prelude.{
  lt64, le64, ◌≡◌, refl, subst, String, true, false, not, ◌||◌, List, [], ◌∷◌, Option, none, some,
  arith, ◌==◌, Bool-cases, Option-cases, inl, inr,
}
use comrad.Prelude.Dict.{Dict, lookup, get_or, or_zero}
use comrad.Prelude.Sets.{contains, Blank, unique_sorted-Blank, Blank-of_append}
use comrad.Types.{
  Time, Node, Slot, WorkloadProfile, RuntimeModelVariant, zero_node, PlacementPolicy,
}
use comrad.Store.{Database}
use comrad.Profile.{profile_runtime_variants}
use comrad.Fit.{best_variant_for_slot, sorted_slots, is_nil}
use comrad.Flapping.{node_warm_placement_suppressed}
use comrad.Candidates.{
  PlacementCandidate, runtime_copy_protected, protected_runtime_candidate, current_variant,
  node_candidate, node_usable_for_placement, candidate_base_rejection_reasons,
  node_placement_rejection_reasons,
}
use comrad.Plan.{
  PolicyPlanItem, Plan, empty_plan, can_use_candidate, hard_pin_rejection_reasons,
  node_budget_rejection_reasons, add_missing_assignment, within_disk_budget,
}
use comrad.Plan.Disk.{Keyed, Known, mark_warm-DiskWithin, can_use_candidate-room}
use comrad.Planner.{
  place_pinned_slot, place_pin, place_hard_pin, place_hard_pins, policy_items_by_profile,
  preserve_candidate, preserve_slot, preserve_runtime_copies, place_warm_until, place_cache_until,
  sort_policy_items, placed,
}
use comrad.Planner.Turns.{Within, each-Within, warm_turns-Within, cache_turns-Within}

node_named :
    (c : PlacementCandidate) (item : PolicyPlanItem)
    → Blank (candidate_base_rejection_reasons item.policy c)
    → (c.node.id == "") ≡ false
unfolding candidate_base_rejection_reasons node_placement_rejection_reasons
node_named c item h = elim (Bool-cases (c.node.id == "")) [
  | inl e ↦
      let b = unique_sorted-Blank _ h in
      elim (Bool-cases c.fit.fits) [
        | inl f ↦ absurd (ground (arith, b, e, f))
        | inr f ↦ absurd (ground (arith, b, e, f))
      ]
  | inr e ↦ e
]

node_room :
    (db : Database) (now : Time) (plan : Plan) (item : PolicyPlanItem) (c : PlacementCandidate)
    → Blank (node_budget_rejection_reasons db now plan item c true)
    → within_disk_budget db plan c.node c.effective ≡ true
unfolding node_budget_rejection_reasons
node_room db now plan item c h = ground (arith, h)

no_disk : (db : Database) → Within db empty_plan
unfolding get_or lookup
no_disk db k n h pos = ground arith

found : (o : Option Node) → (or_zero zero_node o).id == "" ≡ false → o ≡ some (or_zero zero_node o)
found none h = absurd (ground arith)
found (some n) h = refl

module _ (db : Database) (now : Time) (keyed : Keyed db) where
  Blank-of_nil : (xs : List String) → is_nil xs ≡ true → Blank xs
  Blank-of_nil [] h = tt
  Blank-of_nil (x ∷ xs) h = absurd (ground arith)

  -- A pin that no reason rejects has a node, with room on its disk.
  hard_pin-room :
      (plan : Plan) (item : PolicyPlanItem) (c : PlacementCandidate)
      → is_nil (hard_pin_rejection_reasons db now plan item c) ≡ true
      → ((c.node.id == "") ≡ false) × (within_disk_budget db plan c.node c.effective ≡ true)
  unfolding hard_pin_rejection_reasons
  hard_pin-room plan item c h =
      let base = candidate_base_rejection_reasons item.policy c in
      let (l, r) =
        Blank-of_append base (node_budget_rejection_reasons db now plan item c true)
          (unique_sorted-Blank _ (Blank-of_nil _ h)) in
      (node_named c item l, node_room db now plan item c r)

  found_node :
      (k : String)
      → (get_or zero_node k db.nodes).id == "" ≡ false
      → lookup k db.nodes ≡ some (get_or zero_node k db.nodes)
  unfolding get_or
  found_node k h = found (lookup k db.nodes) h

  place_pinned_slot-Within :
      (item : PolicyPlanItem) (slot : Slot) (plan : Plan)
      → Within db plan
      → Within db (place_pinned_slot db now item slot plan)
  unfolding place_pinned_slot within_disk_budget
  place_pinned_slot-Within item slot plan w =
      let node = get_or zero_node slot.node_id db.nodes in
      let best = best_variant_for_slot item.profile node slot in
      let c : PlacementCandidate = record {
        slot = slot;
        node = node;
        profile = item.profile;
        effective = best.0;
        fit = best.1;
      } in
      elim (Bool-cases (node_warm_placement_suppressed node now)) [
        | inl e ↦ rw e w
        | inr e ↦ elim (Bool-cases (is_nil (hard_pin_rejection_reasons db now plan item c))) [
          | inl r ↦
              let (named, room) = hard_pin-room plan item c r in
              rw (e, r)
                (mark_warm-DiskWithin db item c _ keyed
                  (slot.node_id, found_node slot.node_id named) room w)
          | inr r ↦ rw (e, r) w
        ]
      ]

  place_pin-Within :
      (item : PolicyPlanItem) (o : Option Slot) (plan : Plan)
      → Within db plan
      → Within db (place_pin db now item o plan)
  unfolding place_pin add_missing_assignment
  place_pin-Within item none plan w = w
  place_pin-Within item (some slot) plan w = place_pinned_slot-Within item slot plan w

  place_hard_pin-Within :
      (item : PolicyPlanItem) (pin : String) (plan : Plan)
      → Within db plan
      → Within db (place_hard_pin db now item pin plan)
  unfolding place_hard_pin
  place_hard_pin-Within item pin plan w = place_pin-Within item (lookup pin db.slots) plan w

  current_variant-node :
      (profile : WorkloadProfile) (node : Node) (slot : Slot) (vs : List RuntimeModelVariant)
      (c : PlacementCandidate)
      → current_variant profile node slot vs ≡ some c
      → node ≡ c.node
  unfolding current_variant
  current_variant-node profile node slot [] c h = absurd (ground arith)
  current_variant-node profile node slot (v ∷ vs) c h =
      let rest = current_variant-node profile node slot vs c in ground (arith, rest)

  protected-Known :
      (profile : WorkloadProfile) (policy : PlacementPolicy) (slot : Slot) (c : PlacementCandidate)
      → protected_runtime_candidate db profile policy slot ≡ some c
      → Known db c
  unfolding protected_runtime_candidate
  protected-Known profile policy slot c h = elim (Option-cases (lookup slot.node_id db.nodes)) [
    | inl e ↦ absurd (ground (arith, e))
    | inr (n, e) ↦
        let h' : node_candidate profile policy slot (some n) ≡ some c = rw e at h in
        elim (Bool-cases (node_usable_for_placement n policy)) [
          | inl u ↦
              let same =
                current_variant-node profile n slot (profile_runtime_variants profile) c
                  (rw u at h') in
              (slot.node_id, subst (λ x. lookup slot.node_id db.nodes ≡ some x) same e)
          | inr u ↦ absurd (ground (arith, h', u))
        ]
  ]

  preserve_candidate-Within :
      (item : PolicyPlanItem) (o : Option PlacementCandidate) (plan : Plan)
      → ((c : PlacementCandidate) → o ≡ some c → Known db c)
      → Within db plan
      → Within db (preserve_candidate db now item o plan)
  unfolding preserve_candidate within_disk_budget
  preserve_candidate-Within item none plan known w = w
  preserve_candidate-Within item (some c) plan known w =
      elim (Bool-cases (can_use_candidate db now plan item c true)) [
        | inl e ↦ rw e (
            mark_warm-DiskWithin db item c _ keyed (known c refl)
              (can_use_candidate-room db now plan item c true e) w)
        | inr e ↦ rw e w
      ]

  preserve_slot-Within :
      (by_profile : Dict PolicyPlanItem) (slot : Slot) (plan : Plan)
      → Within db plan
      → Within db (preserve_slot db now by_profile slot plan)
  unfolding preserve_slot
  preserve_slot-Within by_profile slot plan w =
      elim (Bool-cases (not (runtime_copy_protected slot) || contains plan.slot_used slot.id)) [
        | inl e ↦ rw e w
        | inr e ↦ elim (Option-cases (lookup slot.profile_id by_profile)) [
          | inl l ↦ rw (e, l) w
          | inr (item, l) ↦
              rw (e, l)
                (preserve_candidate-Within item _ plan
                  (protected-Known item.profile item.policy slot) w)
        ]
      ]

placed-Within :
    (db : Database) (now : Time) (items : List PolicyPlanItem)
    → Keyed db
    → Within db (placed db now items)
unfolding placed place_hard_pins preserve_runtime_copies place_warm_until place_cache_until
placed-Within db now items keyed =
    let start : Within db empty_plan = no_disk db in
    let pinned =
      each-Within db _ items empty_plan
        (λ item p w.
          each-Within db _ item.policy.hard_pinned_slots p
            (λ pin q v. place_hard_pin-Within db now keyed item pin q v) w)
        start in
    let kept =
      each-Within db _ (sorted_slots db) _
        (λ slot p w. preserve_slot-Within db now keyed (policy_items_by_profile items []) slot p w)
        pinned in
    let needs = sort_policy_items false items in
    let extras = sort_policy_items true needs in
    let p1 = each-Within db _ needs _ (λ i p w. warm_turns-Within db now keyed i _ _ p w) kept in
    let p2 = each-Within db _ needs _ (λ i p w. cache_turns-Within db now keyed i _ _ p w) p1 in
    let p3 = each-Within db _ extras _ (λ i p w. warm_turns-Within db now keyed i _ _ p w) p2 in
    each-Within db _ extras _ (λ i p w. cache_turns-Within db now keyed i _ _ p w) p3

-- In a plan over nodes stored under their ids, the disk that the plan counts on a node with a
-- positive budget is never more than that budget, whatever the policies, pins and slots are.
pub placed_disk_budget :
    (db : Database) (now : Time) (items : List PolicyPlanItem)
    → Keyed db
    → (k : String) (node : Node) → lookup k db.nodes ≡ some node
    → lt64 0 node.budgets.disk_bytes ≡ true
    → le64 (get_or 0 node.id (placed db now items).node_disk_used) node.budgets.disk_bytes ≡ true
placed_disk_budget db now items keyed k node hn pos = placed-Within db now items keyed k node hn pos
