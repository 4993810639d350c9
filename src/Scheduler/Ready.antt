-- ===== src/Scheduler/Ready.antt =====
-- internal/comrad/manager_scheduler.go and internal/comrad/manager_chat.go: what the scheduler picks
-- can be reserved.
use comrad.Prelude.{
  ◌≡◌, refl, subst, String, Bool, true, false, not, ◌&&◌, List, [], ◌∷◌, none, some, arith, ◌==◌,
  Bool-cases, inl, inr, All, All-append,
}
use comrad.Prelude.Dict.{get_or, values}
use comrad.Prelude.Sets.{contains}
use comrad.Prelude.Sort.{All-sort_stable}
use comrad.Types.{
  Time, Node, Slot, Task, TaskStatus, Attempt, WorkloadProfile, RuntimeModelVariant, is_queued,
  is_cancelled, zero_node, zero_slot, zero_task,
}
use comrad.Store.{Database}
use comrad.Profile.{profile_runtime_variants, effective_profile_for_variant}
use comrad.Fit.{fit_profile_to_slot, slot_profile_current}
use comrad.Candidates.{PlacementCandidate}
use comrad.Attempts.{slot_is_free, reserve_attempt_in_db}
use comrad.Scheduler.{
  slot_ready_for_profile, ready_variants, ready_candidates_of, ready_slot_candidates, ready_before,
  first_connected, select_ready_slot, failed_slots_for_task,
}

-- Every slot is found under its id.
abbrev pub SlotsKeyed : Database → Type 0
SlotsKeyed db = All (λ s. get_or zero_slot s.id db.slots ≡ s) (values db.slots)

-- The candidate's slot is stored as it is, and free for the profile in the candidate's variant.
abbrev pub Offered : Database → WorkloadProfile → List String → PlacementCandidate → Type 0
Offered db profile failed c =
    (get_or zero_slot c.slot.id db.slots ≡ c.slot)
    × (slot_is_free c.slot profile c.effective ≡ true)
    × (contains failed c.slot.id ≡ false)

module _ (db : Database) (profile : WorkloadProfile) (failed : List String) where
  ready_is_free :
      (slot : Slot) (node : Node) (effective : WorkloadProfile)
      → slot_ready_for_profile slot node profile.id failed ≡ true
      → slot_profile_current slot profile.id effective ≡ true
      → (slot_is_free slot profile effective ≡ true) × (contains failed slot.id ≡ false)
  unfolding slot_ready_for_profile slot_profile_current
  ready_is_free slot node effective r c = (ground (arith, r, c), ground (arith, r))

  ready_variants-Offered :
      (slot : Slot) (node : Node) (vs : List RuntimeModelVariant)
      → get_or zero_slot slot.id db.slots ≡ slot
      → slot_ready_for_profile slot node profile.id failed ≡ true
      → All (Offered db profile failed) (ready_variants profile node slot vs)
  unfolding ready_variants
  ready_variants-Offered slot node [] k r = tt
  ready_variants-Offered slot node (v ∷ vs) k r =
      let rest = ready_variants-Offered slot node vs k r in
      let effective = effective_profile_for_variant profile v in
      elim (Bool-cases (
        not (slot.runtime_variant_id == "")
        && not (slot.runtime_variant_id == effective.runtime_variant_id))) [
          | inl e ↦ rw e rest
          | inr e ↦
              elim (Bool-cases (
                (fit_profile_to_slot effective node slot).fits
                && slot_profile_current slot profile.id effective)) [
                  | inl f ↦
                      let current : slot_profile_current slot profile.id effective ≡ true =
                        ground (arith, f) in
                      let (free, fresh) = ready_is_free slot node effective r current in
                      rw (e, f) ((k, free, fresh), rest)
                  | inr f ↦ rw (e, f) rest
                ]
        ]

  ready_candidates-Offered :
      (slots : List Slot)
      → All (λ s. get_or zero_slot s.id db.slots ≡ s) slots
      → All (Offered db profile failed) (ready_candidates_of db profile failed slots)
  unfolding ready_candidates_of
  ready_candidates-Offered [] k = tt
  ready_candidates-Offered (slot ∷ slots) k =
      let rest = ready_candidates-Offered slots k.1 in
      let node = get_or zero_node slot.node_id db.nodes in
      elim (Bool-cases (slot_ready_for_profile slot node profile.id failed)) [
        | inl r ↦ rw r (
            All-append (Offered db profile failed) _ _
              (ready_variants-Offered slot node (profile_runtime_variants profile) k.0 r) rest)
        | inr r ↦ rw r rest
      ]

first_connected-All {κ} :
    (P : PlacementCandidate → Type κ) (connected : String → Bool) (cs : List PlacementCandidate)
    (c : PlacementCandidate)
    → All P cs
    → first_connected connected cs ≡ some c
    → P c × (connected c.slot.node_id ≡ true)
unfolding first_connected
first_connected-All P connected [] c a h = absurd (ground arith)
first_connected-All P connected (d ∷ cs) c a h = elim (Bool-cases (connected d.slot.node_id)) [
  | inl e ↦
      let k : some d ≡ some c = rw e at h in
      let s : d ≡ c = cc in subst (λ x. P x × (connected x.slot.node_id ≡ true)) s (a.0, e)
  | inr e ↦ first_connected-All P connected cs c a.1 (rw e at h)
]

not_cancelled : (s : TaskStatus) → is_queued s ≡ true → is_cancelled s ≡ false
not_cancelled TaskStatus.cancelled h = absurd (ground (arith, h))
not_cancelled TaskStatus.queued h = refl
not_cancelled TaskStatus.running h = refl
not_cancelled TaskStatus.completed h = refl
not_cancelled TaskStatus.failed h = refl
not_cancelled (TaskStatus.other s) h = refl

-- In a database whose slots are found under their ids, the slot that the scheduler picks for a queued
-- task has a connected node, has not failed the task before, and is granted when it is reserved
-- before anything else changes.
pub select_ready_slot-reserve :
    (connected : String → Bool) (db : Database) (profile : WorkloadProfile) (task : Task)
    (c : PlacementCandidate)
    → SlotsKeyed db
    → is_queued (get_or zero_task task.id db.tasks).status ≡ true
    → select_ready_slot connected db profile task.id ≡ some c
    → (connected c.slot.node_id ≡ true)
      × (contains (failed_slots_for_task db task.id) c.slot.id ≡ false)
      × ((attempt : Attempt) (now : Time)
          → (reserve_attempt_in_db task profile c.effective c.slot attempt now db).1 ≡ none)
unfolding select_ready_slot ready_slot_candidates reserve_attempt_in_db
select_ready_slot-reserve connected db profile task c keyed queued h =
    let failed = failed_slots_for_task db task.id in
    let (offered, up) =
      first_connected-All (Offered db profile failed) connected _ c
        (All-sort_stable ready_before (Offered db profile failed) _
          (ready_candidates-Offered db profile failed (values db.slots) keyed))
        h in
    let running = not_cancelled (get_or zero_task task.id db.tasks).status queued in
    let (same, free, fresh) = offered in
    (up, fresh, λ attempt now. rw (running, queued, same, free) refl)
