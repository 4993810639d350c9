-- ===== src/Worker/Assignments.antt =====
-- internal/comrad/worker_assignment.go: whether a worker takes up an assignment, and which of its slots
-- fits. `verifyProfileArtifacts` of worker_artifact.go is here too, over the check of a file's digest.
use comrad.Prelude.{
  ℕ, ◌-◌, String, Bool, true, false, not, ◌&&◌, ◌||◌, List, [], ◌∷◌, Option, none, some, ltb, ◌==◌,
  if◌then◌else◌, any,
}
use comrad.Prelude.Dict.{Dict, get_or, lookup, insert, delete, values}
use comrad.Types.{Time, Slot, SlotState, WorkloadProfile, FitResult, zero_slot}
use comrad.Fit.{fit_profile_to_slot, slot_profile_current, is_nil}
use comrad.Worker.{ArtifactSpec, AssignmentPayload, RuntimeProcess, WorkerModel, assignment_key}

-- Five minutes, in nanoseconds.
abbrev pub assignment_failure_cooldown : ℕ
assignment_failure_cooldown = 300000000000

unfoldable pub record_assignment_failure : String → Time → WorkerModel → WorkerModel
record_assignment_failure key now w = record w {
  assignment_failures = insert key now w.assignment_failures;
}

within_cooldown : Option Time → Time → Bool
within_cooldown none now = false
within_cooldown (some t) now = ltb (now - t) assignment_failure_cooldown

unfoldable pub assignment_in_cooldown : String → Time → WorkerModel → Bool
unfolding within_cooldown
assignment_in_cooldown key now w = within_cooldown (lookup key w.assignment_failures) now

unfoldable pub begin_assignment : AssignmentPayload → WorkerModel → WorkerModel × Bool
begin_assignment payload w =
    let key = assignment_key payload.profile in
    if get_or false key w.active_assignments then (w, false) else (
      record w {
        assigns = insert key payload w.assigns;
        active_assignments = insert key true w.active_assignments;
      },
      true,
    )

unfoldable pub finish_assignment : AssignmentPayload → WorkerModel → WorkerModel
finish_assignment payload w = record w {
  active_assignments = delete (assignment_key payload.profile) w.active_assignments;
}

unfoldable pub worker_has_artifacts : Dict String → List ArtifactSpec → Bool
worker_has_artifacts cache artifacts =
    not (any (λ (a : ArtifactSpec). get_or "" a.id cache == "") artifacts) && not (is_nil artifacts)

unfoldable pub is_server_for : String → Option RuntimeProcess → Bool
is_server_for key none = false
is_server_for key (some proc) = proc.profile_key == key && proc.alive

-- `runtimeServerReady` of internal/comrad/worker_runtime.go.
unfoldable pub runtime_server_ready : String → String → WorkerModel → Bool
unfolding is_server_for
runtime_server_ready slot_id key w = is_server_for key (lookup slot_id w.runtimes)

-- What the state of a slot that is current for the profile says, unless the loop goes on.
state_satisfies : SlotState → Bool → Option Bool
state_satisfies SlotState.ready server = some server
state_satisfies SlotState.serving server = some server
state_satisfies SlotState.download_queued server = some true
state_satisfies SlotState.downloading server = some true
state_satisfies SlotState.cached server = some true
state_satisfies SlotState.loading server = some true
state_satisfies SlotState.warming server = some true
state_satisfies _ server = none

abbrev or_later : Bool → Option Bool → Bool
or_later later none = later
or_later later (some b) = b

unfoldable pub slots_satisfy : WorkloadProfile → WorkerModel → List Slot → Bool
unfolding state_satisfies
slots_satisfy profile w [] = false
slots_satisfy profile w (slot ∷ slots) =
    let later = slots_satisfy profile w slots in
    let server = runtime_server_ready slot.id (assignment_key profile) w in
    if not (slot_profile_current slot profile.id profile)
    then later
    else or_later later (state_satisfies slot.state server)

unfoldable pub assignment_already_satisfied : AssignmentPayload → Time → WorkerModel → Bool
assignment_already_satisfied payload now w =
    let key = assignment_key payload.profile in
    if assignment_in_cooldown key now w || get_or false key w.active_assignments
    then true
    else if payload.cached && not payload.warm
    then worker_has_artifacts w.cache payload.artifacts
    else slots_satisfy payload.profile w (values w.slots)

abbrev fit_slot : WorkloadProfile → WorkerModel → Slot → String × FitResult
fit_slot profile w slot = (slot.id, fit_profile_to_slot profile w.node slot)

first_fit : WorkloadProfile → WorkerModel → List Slot → String × FitResult
first_fit profile w [] = (
  "",
  record {
    profile_id = profile.id;
    logical_model = "";
    runtime_variant_id = "";
    slot_id = "";
    node_id = "";
    fits = false;
    reasons = "no_slots" ∷ [];
  },
)
first_fit profile w (slot ∷ slots) = fit_slot profile w slot

-- `localFit`: the preferred slot, or the one that a range over the map meets first.
unfoldable pub local_fit : WorkloadProfile → String → WorkerModel → String × FitResult
unfolding first_fit
local_fit profile preferred w =
    if preferred == ""
    then first_fit profile w (values w.slots)
    else fit_slot profile w (get_or zero_slot preferred w.slots)

assigned_artifacts : Option AssignmentPayload → List ArtifactSpec
assigned_artifacts none = []
assigned_artifacts (some a) = a.artifacts

-- Whether `verifyProfileArtifacts` reports no error; `matches` is VerifyFileSHA256 on a path and digest.
unfoldable pub verify_profile_artifacts :
    (String → String → Bool) → WorkloadProfile → WorkerModel → Bool
unfolding assigned_artifacts
verify_profile_artifacts matches profile w =
    let artifacts = assigned_artifacts (lookup (assignment_key profile) w.assigns) in
    not (is_nil artifacts)
    && not (
        any
          (λ (a : ArtifactSpec).
            let path = get_or "" a.id w.cache in path == "" || not (matches path a.sha256))
          artifacts)
