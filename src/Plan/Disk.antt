-- ===== src/Plan/Disk.antt =====
-- internal/comrad/placement_plan.go: the disk budgets of the nodes, and what a choice does to them.
use comrad.Prelude.{
  ◌≡◌, refl, sym, subst, ◌∙◌, String, Bool, true, List, [], ◌∷◌, Option, none, some, Int64, arith,
  lt64, le64, add64, ◌==◌, eq_iff, if◌then◌else◌, Bool-cases, inl, inr, All, All-append,
}
use comrad.Prelude.Dict.{Dict, lookup, get_or, get_or-insert}
use comrad.Prelude.Sort.{All-sort_stable}
use comrad.Types.{Time, Node, Slot, WorkloadProfile, RuntimeModelVariant, PlacementPolicy}
use comrad.Store.{Database}
use comrad.Profile.{effective_profile_for_variant, profile_runtime_variants}
use comrad.Fit.{fit_profile_to_slot, sorted_slots}
use comrad.Capacity.{profile_disk_bytes}
use comrad.Candidates.{
  PlacementCandidate, variant_candidates, slot_candidates, all_candidates, placement_candidates,
  better_candidate, node_usable_for_placement,
}
use comrad.Plan.{
  PolicyPlanItem, Plan, within_disk_budget, can_use_candidate, mark_cache, mark_warm,
  node_has_profile_cache,
}

-- Every node is stored under its id.
abbrev pub Keyed : Database → Type 0
Keyed db = (k : String) (n : Node) → lookup k db.nodes ≡ some n → n.id ≡ k

-- The disk that the plan counts on a node with a positive budget is within that budget.
abbrev pub DiskWithin : Database → Dict Int64 → Type 0
DiskWithin db used =
    (k : String) (n : Node)
    → lookup k db.nodes ≡ some n
    → lt64 0 n.budgets.disk_bytes ≡ true
    → le64 (get_or 0 n.id used) n.budgets.disk_bytes ≡ true

-- The candidate's node is one of the database.
abbrev pub Known : Database → PlacementCandidate → Type 0
Known db c = (k : String) × (lookup k db.nodes ≡ some c.node)

same_node :
    (db : Database) (k j : String) (n m : Node)
    → Keyed db
    → lookup k db.nodes ≡ some n
    → lookup j db.nodes ≡ some m
    → n.id ≡ m.id
    → n ≡ m
same_node db k j n m keyed hn hm e =
    let a : k ≡ j = sym (keyed k n hn) ∙ e ∙ keyed j m hm in
    let h : lookup j db.nodes ≡ some n = subst (λ x. lookup x db.nodes ≡ some n) a hn in cc

fits_of_check :
    (budget used need : Int64)
    → lt64 0 budget ≡ true
    → (if le64 budget 0 then true else le64 (add64 used need) budget) ≡ true
    → le64 (add64 used need) budget ≡ true
fits_of_check budget used need h c = ground arith

pub mark_cache-DiskWithin :
    (db : Database) (item : PolicyPlanItem) (c : PlacementCandidate) (plan : Plan)
    → Keyed db
    → Known db c
    → within_disk_budget db plan c.node c.effective ≡ true
    → DiskWithin db plan.node_disk_used
    → DiskWithin db (mark_cache db item c plan).node_disk_used
unfolding mark_cache within_disk_budget
mark_cache-DiskWithin db item c plan keyed (j, hj) room within k n hn pos =
    let used = add64 (get_or 0 c.node.id plan.node_disk_used) (profile_disk_bytes db c.effective) in
    let up = get_or-insert 0 c.node.id n.id used plan.node_disk_used in
    elim (Bool-cases (node_has_profile_cache plan c.node.id item.profile.id)) [
      | inl e ↦ rw e (within k n hn pos)
      | inr e ↦ rw e (elim (Bool-cases (c.node.id == n.id)) [
        | inl s ↦
            let same : n ≡ c.node =
              same_node db k j n c.node keyed hn hj (ground (arith, s, eq_iff c.node.id n.id)) in
            let pos' : lt64 0 c.node.budgets.disk_bytes ≡ true =
              subst (λ x. lt64 0 x.budgets.disk_bytes ≡ true) same pos in
            let bound = fits_of_check _ _ _ pos' room in
            let bound' : le64 used n.budgets.disk_bytes ≡ true =
              subst (λ x. le64 used x.budgets.disk_bytes ≡ true) (sym same) bound in
            rw (up, s) bound'
        | inr s ↦ rw (up, s) (within k n hn pos)
      ])
    ]

pub mark_warm-DiskWithin :
    (db : Database) (item : PolicyPlanItem) (c : PlacementCandidate) (plan : Plan)
    → Keyed db
    → Known db c
    → within_disk_budget db plan c.node c.effective ≡ true
    → DiskWithin db plan.node_disk_used
    → DiskWithin db (mark_warm db item c plan).node_disk_used
unfolding mark_warm within_disk_budget
mark_warm-DiskWithin db item c plan keyed known room within =
    mark_cache-DiskWithin db item c _ keyed known room within

pub can_use_candidate-room :
    (db : Database) (now : Time) (plan : Plan) (item : PolicyPlanItem) (c : PlacementCandidate)
    (warm : Bool)
    → can_use_candidate db now plan item c warm ≡ true
    → within_disk_budget db plan c.node c.effective ≡ true
unfolding can_use_candidate
can_use_candidate-room db now plan item c warm h = ground arith

module _ (db : Database) (profile : WorkloadProfile) (policy : PlacementPolicy) where
  variant_candidates-Known :
      (k : String) (node : Node) (slot : Slot) (vs : List RuntimeModelVariant)
      → lookup k db.nodes ≡ some node
      → All (Known db) (variant_candidates profile node slot vs)
  unfolding variant_candidates
  variant_candidates-Known k node slot [] h = tt
  variant_candidates-Known k node slot (v ∷ vs) h =
      let rest = variant_candidates-Known k node slot vs h in
      elim (Bool-cases
        (fit_profile_to_slot (effective_profile_for_variant profile v) node slot).fits) [
          | inl e ↦ rw e ((k, h), rest)
          | inr e ↦ rw e rest
        ]

  slot_candidates-Known :
      (slot : Slot) (o : Option Node)
      → lookup slot.node_id db.nodes ≡ o
      → All (Known db) (slot_candidates profile policy slot o)
  unfolding slot_candidates
  slot_candidates-Known slot none h = tt
  slot_candidates-Known slot (some node) h =
      elim (Bool-cases (node_usable_for_placement node policy)) [
        | inl e ↦
            rw e
              (variant_candidates-Known slot.node_id node slot (profile_runtime_variants profile) h)
        | inr e ↦ rw e tt
      ]

  all_candidates-Known :
      (slots : List Slot) → All (Known db) (all_candidates db.nodes profile policy slots)
  unfolding all_candidates
  all_candidates-Known [] = tt
  all_candidates-Known (slot ∷ slots) =
      All-append (Known db) (slot_candidates profile policy slot (lookup slot.node_id db.nodes))
        (all_candidates db.nodes profile policy slots)
        (slot_candidates-Known slot (lookup slot.node_id db.nodes) refl)
        (all_candidates-Known slots)

  pub placement_candidates-Known : All (Known db) (placement_candidates db profile policy)
  unfolding placement_candidates
  placement_candidates-Known =
      All-sort_stable (better_candidate profile.id policy) (Known db)
        (all_candidates db.nodes profile policy (sorted_slots db))
        (all_candidates-Known (sorted_slots db))
