-- ===== src/Scheduler.antt =====
-- internal/comrad/manager_scheduler.go: the choice of a ready slot for a task.
pub mod Ready
use comrad.Prelude.{
  ◌≡◌, String, Bool, true, false, not, ◌&&◌, ◌||◌, List, [], ◌∷◌, ◌++◌, Option, none, some, eqb,
  ltb, ◌==◌, if◌then◌else◌,
}
use comrad.Prelude.Dict.{get_or, values}
use comrad.Prelude.Sets.{contains}
use comrad.Prelude.Sort.{sort_stable}
use comrad.Types.{
  Node, Slot, Attempt, WorkloadProfile, RuntimeModelVariant, is_ready, is_online, is_failed,
  zero_node, zero_task, zero_profile, before,
}
use comrad.Store.{Database}
use comrad.Profile.{profile_runtime_variants, effective_profile_for_variant}
use comrad.Fit.{fit_profile_to_slot, slot_profile_current}
use comrad.Candidates.{PlacementCandidate}

attempt_slots : String → List Attempt → List String
attempt_slots task [] = []
attempt_slots task (a ∷ attempts) =
    let rest = attempt_slots task attempts in
    if a.task_id == task && is_failed a.status then a.slot_id ∷ rest else rest

unfoldable pub failed_slots_for_task : Database → String → List String
unfolding attempt_slots
failed_slots_for_task db task =
    (get_or zero_task task db.tasks).failed_slots ++ attempt_slots task (values db.attempts)

unfoldable pub slot_ready_for_profile : Slot → Node → String → List String → Bool
slot_ready_for_profile slot node profile_id failed =
    if not (slot.profile_id == profile_id)
      || not (is_ready slot.state)
      || not (slot.active_task_id == "")
      || not slot.accepts_new
    then false
    else if slot.quarantined || contains failed slot.id
    then false
    else is_online node.state && node.approved && not node.quarantined

-- `variantCandidates`, which leaves the candidate's profile out.
unfoldable pub ready_variants :
    WorkloadProfile → Node → Slot → List RuntimeModelVariant → List PlacementCandidate
ready_variants profile node slot [] = []
ready_variants profile node slot (v ∷ vs) =
    let rest = ready_variants profile node slot vs in
    let effective = effective_profile_for_variant profile v in
    let fit = fit_profile_to_slot effective node slot in
    if not (slot.runtime_variant_id == "")
      && not (slot.runtime_variant_id == effective.runtime_variant_id)
    then rest
    else if fit.fits && slot_profile_current slot profile.id effective
    then record {
      slot = slot;
      node = node;
      profile = zero_profile;
      effective = effective;
      fit = fit;
    }
      ∷ rest
    else rest

unfoldable pub ready_candidates_of :
    Database → WorkloadProfile → List String → List Slot → List PlacementCandidate
ready_candidates_of db profile failed [] = []
ready_candidates_of db profile failed (slot ∷ slots) =
    let rest = ready_candidates_of db profile failed slots in
    let node = get_or zero_node slot.node_id db.nodes in
    if slot_ready_for_profile slot node profile.id failed
    then ready_variants profile node slot (profile_runtime_variants profile) ++ rest
    else rest

unfoldable pub ready_slot_candidates :
    Database → WorkloadProfile → List String → List PlacementCandidate
ready_slot_candidates db profile failed = ready_candidates_of db profile failed (values db.slots)

-- `sort.Slice` leaves the order of ties open.
unfoldable pub ready_before : PlacementCandidate → PlacementCandidate → Bool
ready_before a b =
    if eqb a.slot.failure_count b.slot.failure_count
    then before a.slot.last_task_at b.slot.last_task_at
    else ltb a.slot.failure_count b.slot.failure_count

unfoldable pub first_connected :
    (String → Bool) → List PlacementCandidate → Option PlacementCandidate
first_connected connected [] = none
first_connected connected (c ∷ cs) =
    let rest = first_connected connected cs in if connected c.slot.node_id then some c else rest

-- `selectReadySlot` on its snapshot, below the three sweeps for what has expired. `connected` says
-- which nodes have a session.
unfoldable pub select_ready_slot :
    (String → Bool) → Database → WorkloadProfile → String → Option PlacementCandidate
select_ready_slot connected db profile task =
    first_connected connected
      (sort_stable ready_before (ready_slot_candidates db profile (failed_slots_for_task db task)))
