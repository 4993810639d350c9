-- ===== src/Plan/Drain.antt =====
-- internal/comrad/placement_drain.go and `markDrainingAssignments` of
-- internal/comrad/placement_plan.go: which preserved copies are drained.
use comrad.Prelude.{
  ℕ, suc, ◌+◌, ◌-◌, ◌≤◌, ◌≡◌, min, refl, String, Bool, true, false, not, ◌&&◌, ◌||◌, List, [], ◌∷◌,
  Int64, lt64, leb, ◌==◌, eq_iff, if◌then◌else◌, arith, All,
}
use comrad.Prelude.Dict.{Dict, lookup, get_or, get_or-insert, insert, values}
use comrad.Prelude.Sets.{contains}
use comrad.Types.{Slot, PlacementAssignment, PlacementPolicy, is_ready}
use comrad.Store.{Database}
use comrad.Plan.{PolicyPlanItem, Plan, count_up}

unfoldable pub warm_targets_by_profile : List PolicyPlanItem → Dict Int64 → Dict Int64
warm_targets_by_profile [] out = out
warm_targets_by_profile (item ∷ items) out =
    warm_targets_by_profile items (insert item.profile.id item.capacity.warm out)

-- A copy that is wanted warm and can be.
abbrev pub is_warm_copy : PlacementAssignment → Bool
is_warm_copy a = a.desired_warm && a.mismatch_reason == ""

unfoldable pub desired_warm_counts : List PlacementAssignment → Dict ℕ → Dict ℕ
desired_warm_counts [] out = out
desired_warm_counts (a ∷ copies) out =
    desired_warm_counts copies (if is_warm_copy a then count_up a.profile_id out else out)

-- `counts[id] <= targets[id]`.
abbrev pub within_target : ℕ → Int64 → Bool
within_target count target = not (lt64 target 0) && leb count target

-- The loop of `markDrainingAssignments`. A copy that is drained is one of those counted, so the
-- count that goes down is not 0.
unfoldable pub drain :
    List String → Dict Int64 → Dict ℕ → List PlacementAssignment → List PlacementAssignment
drain protected targets counts [] = []
drain protected targets counts (a ∷ copies) =
    let keep = a ∷ drain protected targets counts copies in
    let fewer = insert a.profile_id (get_or 0 a.profile_id counts - 1) counts in
    let drained = record a { draining = true } ∷ drain protected targets fewer copies in
    if not (contains protected a.id) || not (is_warm_copy a)
    then keep
    else if within_target (get_or 0 a.profile_id counts) (get_or 0 a.profile_id targets)
    then keep
    else drained

unfoldable pub mark_draining_assignments : List PolicyPlanItem → Plan → List PlacementAssignment
mark_draining_assignments items plan =
    drain plan.protected (warm_targets_by_profile items [])
      (desired_warm_counts plan.assignments []) plan.assignments

-- `profileHasPolicy` of internal/comrad/admin_state_conditions.go.
unfoldable pub has_policy : String → List PlacementPolicy → Bool
has_policy profile [] = false
has_policy profile (p ∷ policies) =
    let rest = has_policy profile policies in if p.profile_id == profile then true else rest

-- The two sets of `warmSlotIntent`: the slots that an assignment wants warm, and those among them
-- that one drains.
abbrev pub names_warm : String → PlacementAssignment → Bool
names_warm slot a = not (a.slot_id == "") && is_warm_copy a && a.slot_id == slot

unfoldable pub slot_desired : String → List PlacementAssignment → Bool
slot_desired slot [] = false
slot_desired slot (a ∷ copies) = names_warm slot a || slot_desired slot copies

unfoldable pub slot_draining : String → List PlacementAssignment → Bool
slot_draining slot [] = false
slot_draining slot (a ∷ copies) = (names_warm slot a && a.draining) || slot_draining slot copies

unfoldable pub slot_drainable : Slot → Bool
slot_drainable slot =
    not (slot.profile_id == "")
    && is_ready slot.state
    && slot.active_task_id == ""
    && not slot.quarantined

abbrev pub placement_draining_reason : String
placement_draining_reason = "placement_draining"

-- The loop body of `applyPlacementDrainState`, at the key of the slot.
unfoldable pub drained_slot : Database → String → Slot → Slot
drained_slot db id slot =
    let copies = values db.assignments in
    if not (slot_drainable slot)
    then slot
    else if not (has_policy slot.profile_id (values db.policies))
    then slot
    else if slot_desired id copies && not (slot_draining id copies)
    then record slot {
      accepts_new = true;
      mismatch_reason =
          if slot.mismatch_reason == placement_draining_reason then "" else slot.mismatch_reason;
    }
    else record slot {
      accepts_new = false;
      mismatch_reason =
          if slot.mismatch_reason == "" then placement_draining_reason else slot.mismatch_reason;
    }

unfoldable pub drained_slots : Database → Dict Slot → Dict Slot
drained_slots db [] = []
drained_slots db ((id, slot) ∷ slots) = (id, drained_slot db id slot) ∷ drained_slots db slots

unfoldable pub apply_placement_drain_state : Database → Database
apply_placement_drain_state db = record db { slots = drained_slots db db.slots }

-- The copies of a profile that are to stay warm.
unfoldable pub live_copies : String → List PlacementAssignment → ℕ
live_copies profile [] = 0
live_copies profile (a ∷ copies) =
    let rest = live_copies profile copies in
    if is_warm_copy a && not a.draining && a.profile_id == profile then suc rest else rest

counts-live_copies :
    (profile : String) (copies : List PlacementAssignment) (out : Dict ℕ)
    → All (λ a. a.draining ≡ false) copies
    → get_or 0 profile (desired_warm_counts copies out)
      ≡ live_copies profile copies + get_or 0 profile out
unfolding desired_warm_counts live_copies
counts-live_copies profile [] out h = omega arith
counts-live_copies profile (a ∷ copies) out h =
    let rest =
      counts-live_copies profile copies (if is_warm_copy a then count_up a.profile_id out else out)
        h.1 in
    let up = get_or-insert 0 a.profile_id profile (suc (get_or 0 a.profile_id out)) out in
    ground (arith, h.0, rest, up, eq_iff a.profile_id profile)

-- Of `k` copies left among `count` in all, draining takes none below the target.
drain-live_copies :
    (profile : String) (protected : List String) (targets : Dict Int64) (counts : Dict ℕ)
    (copies : List PlacementAssignment)
    → All (λ a. a.draining ≡ false) copies
    → live_copies profile copies ≤ get_or 0 profile counts
    → lt64 (get_or 0 profile targets) 0 ≡ false
    → min (get_or 0 profile targets) (get_or 0 profile counts) + live_copies profile copies
      ≤ get_or 0 profile counts + live_copies profile (drain protected targets counts copies)
unfolding drain live_copies
drain-live_copies profile protected targets counts [] h l t = ground arith
drain-live_copies profile protected targets counts (a ∷ copies) h l t =
    let fewer = insert a.profile_id (get_or 0 a.profile_id counts - 1) counts in
    let keep = drain-live_copies profile protected targets counts copies h.1 in
    let less = drain-live_copies profile protected targets fewer copies h.1 in
    let down = get_or-insert 0 a.profile_id profile (get_or 0 a.profile_id counts - 1) counts in
    ground (arith, h.0, keep, less, down, eq_iff a.profile_id profile)

get_or-nil : (profile : String) → get_or {V = ℕ} 0 profile [] ≡ 0
unfolding get_or lookup
get_or-nil profile = refl

-- Where no copy is drained yet and the target of a profile is not negative, draining leaves at
-- least the target, or all its warm copies where there were fewer.
pub mark_draining_assignments_enough :
    (items : List PolicyPlanItem) (plan : Plan) (profile : String)
    → All (λ a. a.draining ≡ false) plan.assignments
    → lt64 (get_or 0 profile (warm_targets_by_profile items [])) 0 ≡ false
    → min
        (get_or 0 profile (warm_targets_by_profile items []))
        (live_copies profile plan.assignments)
      ≤ live_copies profile (mark_draining_assignments items plan)
unfolding mark_draining_assignments
mark_draining_assignments_enough items plan profile h t =
    let targets = warm_targets_by_profile items [] in
    let counts = desired_warm_counts plan.assignments [] in
    let c = counts-live_copies profile plan.assignments [] h in
    let e : get_or {V = ℕ} 0 profile [] ≡ 0 = get_or-nil profile in
    let d =
      drain-live_copies profile plan.protected targets counts plan.assignments h (omega (arith, c))
        t in
    omega (arith, c, d, e)
