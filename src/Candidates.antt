-- ===== src/Candidates.antt =====
-- internal/comrad/placement_plan.go and the rejection reasons of
-- internal/comrad/placement_explain.go: which slots a policy may use, in which order. Also
-- `nodeHasArtifacts` of internal/comrad/admin_state_cache.go and `containsArtifactID` of
-- internal/comrad/manager_cache_eviction.go.
use comrad.Prelude.{
  ℕ, ◌+◌, ◌*◌, ◌/◌, ◌%◌, String, Bool, true, false, not, ◌&&◌, ◌||◌, List, [], ◌∷◌, ◌++◌, Option,
  none, some, Int64, word, lt64, add64, sub64, neg64, eqb, text_ltb, ◌==◌, if◌then◌else◌, length,
}
use comrad.Prelude.Dict.{Dict, lookup}
use comrad.Prelude.Sets.{contains, has_all, unique_sorted}
use comrad.Prelude.Sort.{sort_stable}
use comrad.Prelude.Texts.{normalize_sha256}
use comrad.Types.{
  Time, Node, Slot, WorkloadProfile, RuntimeModelVariant, PlacementPolicy, PlacementAssignment,
  FitResult, is_online, is_offline, is_disabled, is_serving, is_loading, is_warming, is_unavailable,
  is_slot_error, failure_quarantined,
}
use comrad.Store.{Database}
use comrad.Profile.{
  profile_logical_model, profile_runtime_variants, effective_profile_for_variant,
  concrete_model_artifact_id, concrete_model_sha256,
}
use comrad.Fit.{fit_profile_to_slot, slot_profile_current, sorted_slots, assignment_id, is_nil}
use comrad.Capacity.{node_placement_budget}

pub record PlacementCandidate : Type 0 where
  pub slot : Slot
  pub node : Node
  pub profile : WorkloadProfile
  pub effective : WorkloadProfile
  pub fit : FitResult

unfoldable pub node_usable_for_placement : Node → PlacementPolicy → Bool
node_usable_for_placement node policy =
    if not (is_online node.state) || not node.approved || node.quarantined
    then false
    else if contains policy.constraints.deny_nodes node.id
        || contains policy.constraints.deny_nodes node.name
    then false
    else has_all node.tags policy.constraints.require_tags

abbrev pub gibibyte : ℕ
gibibyte = 1073741824

-- `a / (1 << 30)`, which Go rounds towards zero.
abbrev pub in_gibibytes : Int64 → Int64
in_gibibytes a = if lt64 a 0 then neg64 (neg64 a / gibibyte) else a / gibibyte

unfoldable pub placement_score : String → PlacementPolicy → PlacementCandidate → Int64
placement_score profile_id policy c =
    let preferred =
      if contains policy.constraints.prefer_nodes c.node.id
        || contains policy.constraints.prefer_nodes c.node.name
      then 1000000
      else 0 in
    let current = if slot_profile_current c.slot profile_id c.effective then 100000 else 0 in
    sub64 (add64 (preferred + current) (in_gibibytes (node_placement_budget c.node)))
      ((c.slot.failure_count * 100) % word)

-- The order of the candidates: the better score first, and the slot ids among equals.
unfoldable pub better_candidate :
    String → PlacementPolicy → PlacementCandidate → PlacementCandidate → Bool
better_candidate profile_id policy a b =
    let score_a = placement_score profile_id policy a in
    let score_b = placement_score profile_id policy b in
    if eqb score_a score_b then text_ltb a.slot.id b.slot.id else lt64 score_b score_a

-- The fitting variants of a slot.
unfoldable pub variant_candidates :
    WorkloadProfile → Node → Slot → List RuntimeModelVariant → List PlacementCandidate
variant_candidates profile node slot [] = []
variant_candidates profile node slot (v ∷ vs) =
    let rest = variant_candidates profile node slot vs in
    let effective = effective_profile_for_variant profile v in
    let fit = fit_profile_to_slot effective node slot in
    if fit.fits
    then record { slot = slot; node = node; profile = profile; effective = effective; fit = fit }
      ∷ rest
    else rest

unfoldable pub slot_candidates :
    WorkloadProfile → PlacementPolicy → Slot → Option Node → List PlacementCandidate
slot_candidates profile policy slot none = []
slot_candidates profile policy slot (some node) =
    if node_usable_for_placement node policy
    then variant_candidates profile node slot (profile_runtime_variants profile)
    else []

unfoldable pub all_candidates :
    Dict Node → WorkloadProfile → PlacementPolicy → List Slot → List PlacementCandidate
all_candidates nodes profile policy [] = []
all_candidates nodes profile policy (slot ∷ slots) =
    slot_candidates profile policy slot (lookup slot.node_id nodes)
    ++ all_candidates nodes profile policy slots

unfoldable pub placement_candidates :
    Database → WorkloadProfile → PlacementPolicy → List PlacementCandidate
placement_candidates db profile policy =
    sort_stable (better_candidate profile.id policy)
      (all_candidates db.nodes profile policy (sorted_slots db))

distinct_nodes : List String → List PlacementCandidate → ℕ
distinct_nodes seen [] = length seen
distinct_nodes seen (c ∷ cs) =
    distinct_nodes (if contains seen c.node.id then seen else c.node.id ∷ seen) cs

-- `profileScarcity` of internal/comrad/placement_capacity.go.
unfoldable pub profile_scarcity : Database → WorkloadProfile → PlacementPolicy → ℕ
unfolding distinct_nodes
profile_scarcity db profile policy =
    let n = distinct_nodes [] (placement_candidates db profile policy) in
    if eqb n 0 then gibibyte else n

unfoldable pub runtime_copy_protected : Slot → Bool
runtime_copy_protected slot =
    not (slot.active_task_id == "")
    || is_serving slot.state
    || is_loading slot.state
    || is_warming slot.state

unfoldable pub slot_available_for_warm : Slot → WorkloadProfile → WorkloadProfile → Bool
slot_available_for_warm slot profile effective =
    if not (slot.active_task_id == "")
    then false
    else if is_serving slot.state
    then slot_profile_current slot profile.id effective
    else not (is_unavailable slot.state) && not (is_slot_error slot.state)

-- The first variant that the slot holds decides.
unfoldable pub current_variant :
    WorkloadProfile → Node → Slot → List RuntimeModelVariant → Option PlacementCandidate
current_variant profile node slot [] = none
current_variant profile node slot (v ∷ vs) =
    let rest = current_variant profile node slot vs in
    let effective = effective_profile_for_variant profile v in
    let fit = fit_profile_to_slot effective node slot in
    if slot_profile_current slot profile.id effective
    then (if fit.fits
        then some (record {
          slot = slot;
          node = node;
          profile = profile;
          effective = effective;
          fit = fit;
        })
        else none)
    else rest

abbrev pub node_candidate :
    WorkloadProfile → PlacementPolicy → Slot → Option Node → Option PlacementCandidate
node_candidate profile policy slot none = none
node_candidate profile policy slot (some node) =
    if node_usable_for_placement node policy
    then current_variant profile node slot (profile_runtime_variants profile)
    else none

unfoldable pub protected_runtime_candidate :
    Database → WorkloadProfile → PlacementPolicy → Slot → Option PlacementCandidate
protected_runtime_candidate db profile policy slot =
    node_candidate profile policy slot (lookup slot.node_id db.nodes)

-- `if test { reasons = append(reasons, reason) }`.
abbrev pub add_if : Bool → String → List String → List String
add_if true reason reasons = reasons ++ reason ∷ []
add_if false reason reasons = reasons

unfoldable pub node_placement_rejection_reasons : Node → PlacementPolicy → List String
node_placement_rejection_reasons node policy =
    let state =
      if is_disabled node.state || node.mode == "disabled"
      then "node_disabled" ∷ []
      else if is_offline node.state
      then "node_offline" ∷ []
      else if not (is_online node.state)
      then "node_not_online" ∷ []
      else [] in
    let r1 = add_if (not node.approved) "node_not_approved" state in
    let r2 = add_if node.quarantined failure_quarantined r1 in
    let r3 =
      add_if
        (contains policy.constraints.deny_nodes node.id
          || contains policy.constraints.deny_nodes node.name)
        "node_denied" r2 in
    if node.id == ""
    then "node_missing" ∷ []
    else add_if (not (has_all node.tags policy.constraints.require_tags)) "missing_required_tags" r3

unfoldable pub candidate_base_rejection_reasons : PlacementPolicy → PlacementCandidate → List String
candidate_base_rejection_reasons policy c =
    let reasons = node_placement_rejection_reasons c.node policy in
    unique_sorted (if c.fit.fits then reasons else reasons ++ c.fit.reasons)

unfoldable pub contains_artifact_id : List String → String → Bool
contains_artifact_id [] id = false
contains_artifact_id (item ∷ items) id =
    let rest = contains_artifact_id items id in
    if normalize_sha256 item == normalize_sha256 id then true else rest

all_cached : List String → List String → Bool
all_cached cached [] = true
all_cached cached (a ∷ artifacts) =
    let rest = all_cached cached artifacts in if contains_artifact_id cached a then rest else false

unfoldable pub node_has_artifacts : Node → List String → Bool
unfolding all_cached
node_has_artifacts node artifacts =
    if is_nil artifacts then false else all_cached node.cached_artifacts artifacts

unfoldable pub cache_assignment_from_candidate :
    String → PlacementCandidate → Time → PlacementAssignment
cache_assignment_from_candidate profile_id c now = record {
  id = assignment_id profile_id c.node.id "cache";
  profile_id = profile_id;
  logical_model = profile_logical_model c.effective;
  runtime_variant_id = c.effective.runtime_variant_id;
  model_artifact_id = concrete_model_artifact_id c.effective;
  model_sha256 = concrete_model_sha256 c.effective;
  node_id = c.node.id;
  slot_id = "";
  desired_cached = true;
  desired_warm = false;
  actual_cached = node_has_artifacts c.node c.effective.artifacts;
  actual_warm = false;
  is_ready = false;
  draining = false;
  mismatch_reason = "";
  updated_at = now;
}
