-- ===== src/Worker.antt =====
-- The state of a worker: internal/comrad/worker.go, and what internal/comrad/worker_task.go says of its
-- slots. A file, a process and a download are outside: what became of them is an argument. Messages
-- to the manager go to an outbox, which holds those that the queue took; their ids are left out.
pub mod Assignments
pub mod Evict
pub mod Evicted
pub mod Restarts
pub mod Recovered
pub mod Tasks
pub mod Reported
use comrad.Prelude.{
  suc, ℕ, String, Bool, true, false, not, ◌&&◌, ◌||◌, List, [], ◌∷◌, ◌++◌, Option, none, some,
  Int64, ◌==◌, if◌then◌else◌,
}
use comrad.Prelude.Dict.{Dict, get_or, insert, values}
use comrad.Types.{
  Time, Node, Slot, SlotState, WorkloadProfile, ComputeReport, is_ready, zero_slot, zero_profile,
}
use comrad.Profile.{
  profile_version, profile_logical_model, concrete_model_artifact_id, concrete_model_sha256,
}
use comrad.WorkerState.{SlotStatePayload}
use comrad.Attempts.{AttemptFailedPayload}
use comrad.Eviction.Intents.{ArtifactStatePayload}
use Prim.Native.String

-- A download's address, its torrent and its peers are left out.
pub record ArtifactSpec : Type 0 where
  pub id : String
  pub kind : String
  pub name : String
  pub sha256 : String
  pub size_bytes : Int64

pub record AssignmentPayload : Type 0 where
  pub profile : WorkloadProfile
  pub artifacts : List ArtifactSpec
  pub slot_id : String
  pub cached : Bool
  pub warm : Bool

-- A server process: the profile that it runs, and whether it lives.
pub record RuntimeProcess : Type 0 where
  pub profile_key : String
  pub alive : Bool

pub data WorkerMessage : Type 0 where
  slot_state : SlotStatePayload → WorkerMessage
  artifact_state : ArtifactStatePayload → WorkerMessage
  attempt_started : String → String → WorkerMessage
  attempt_failed : AttemptFailedPayload → WorkerMessage
  task_token : String → String → ℕ → WorkerMessage
  compute_report : ComputeReport → WorkerMessage

pub record WorkerModel : Type 0 where
  pub node : Node
  pub slots : Dict Slot
  pub assigns : Dict AssignmentPayload
  pub cache : Dict String
  pub warm : Dict WorkloadProfile
  pub active_assignments : Dict Bool
  pub assignment_failures : Dict Time
  pub active : Dict Bool
  pub runtimes : Dict RuntimeProcess
  pub runtime_restarts : Dict ℕ
  pub paused : Bool
  pub outbox : List WorkerMessage
  pub offered : ℕ
  pub is_full : ℕ → Bool

-- `enqueue`: the queue of 256 messages, which another goroutine empties, takes the message or is full
-- then and the message is lost. `is_full n` says which for the n-th message that it is offered.
abbrev pub enqueue : WorkerMessage → WorkerModel → WorkerModel
enqueue m w = record w {
  outbox = if w.is_full w.offered then w.outbox else w.outbox ++ m ∷ [];
  offered = suc w.offered;
}

unfoldable pub assignment_key : WorkloadProfile → String
assignment_key profile =
    if profile.runtime_variant_id == ""
    then profile.id
    else String.◌++◌ profile.id (String.◌++◌ "@" profile.runtime_variant_id)

abbrev for_slot : String → String → WorkloadProfile → Bool
for_slot variant id profile =
    profile.id == id && (variant == "" || profile.runtime_variant_id == variant)

first_assigned : (WorkloadProfile → Bool) → List AssignmentPayload → Option WorkloadProfile
first_assigned p [] = none
first_assigned p (a ∷ list) =
    let rest = first_assigned p list in if p a.profile then some a.profile else rest

first_profile : (WorkloadProfile → Bool) → List WorkloadProfile → Option WorkloadProfile
first_profile p [] = none
first_profile p (x ∷ list) = let rest = first_profile p list in if p x then some x else rest

or_first : Option WorkloadProfile → Option WorkloadProfile → WorkloadProfile → WorkloadProfile
or_first (some a) b fallback = a
or_first none (some b) fallback = b
or_first none none fallback = fallback

unfoldable pub warm_profile_for_slot : WorkerModel → String → String → WorkloadProfile
unfolding first_assigned first_profile or_first
warm_profile_for_slot w slot_id profile_id =
    let p = for_slot (get_or zero_slot slot_id w.slots).runtime_variant_id profile_id in
    or_first (first_assigned p (values w.assigns)) (first_profile p (values w.warm))
      (record zero_profile { id = profile_id; logical_model = profile_id })

-- The slot's profile and model, those of the warm profile.
abbrev with_profile : String → WorkloadProfile → Slot → Slot
with_profile profile_id profile slot = record slot {
  profile_id = profile_id;
  profile_version = profile_version profile;
  logical_model = profile_logical_model profile;
  runtime_variant_id = profile.runtime_variant_id;
  model_artifact_id = concrete_model_artifact_id profile;
  model_sha256 = concrete_model_sha256 profile;
}

abbrev payload_of : Slot → String → SlotState → String → String → SlotStatePayload
payload_of slot id state active reason = record {
  slot_id = id;
  state = state;
  profile_id = slot.profile_id;
  profile_version = slot.profile_version;
  logical_model = slot.logical_model;
  runtime_variant_id = slot.runtime_variant_id;
  model_artifact_id = slot.model_artifact_id;
  model_sha256 = slot.model_sha256;
  active_task_id = active;
  mismatch_reason = reason;
}

unfoldable pub set_slot_serving : String → String → String → WorkerModel → WorkerModel
set_slot_serving slot_id profile_id task_id w =
    let profile = warm_profile_for_slot w slot_id profile_id in
    let slot = record (with_profile profile_id profile (get_or zero_slot slot_id w.slots)) {
      state = SlotState.serving;
      active_task_id = task_id;
      accepts_new = false;
    } in
    enqueue (slot_state (payload_of slot slot_id SlotState.serving task_id ""))
      (record w { slots = insert slot_id slot w.slots })

-- A paused worker says that its ready slots are idle.
abbrev reported : Bool → SlotState → SlotState
reported paused state = if paused && is_ready state then SlotState.idle else state

unfoldable pub set_slot_state : String → SlotState → String → String → WorkerModel → WorkerModel
set_slot_state slot_id state profile_id reason w =
    let profile = warm_profile_for_slot w slot_id profile_id in
    let slot = record (with_profile profile_id profile (get_or zero_slot slot_id w.slots)) {
      state = state;
      active_task_id = "";
      mismatch_reason = reason;
      accepts_new = is_ready state;
    } in
    enqueue (slot_state (payload_of slot slot_id (reported w.paused state) "" reason))
      (record w { slots = insert slot_id slot w.slots })

first_slot_id : List Slot → String
first_slot_id [] = ""
first_slot_id (s ∷ slots) = s.id

-- `setAnySlotState`: the slot that a range over the map meets first.
unfoldable pub set_any_slot_state : SlotState → String → String → WorkerModel → WorkerModel
unfolding first_slot_id
set_any_slot_state state profile_id reason w =
    let id = first_slot_id (values w.slots) in
    if id == "" then w else set_slot_state id state profile_id reason w

unfoldable pub send_artifact_state : String → String → String → String → WorkerModel → WorkerModel
send_artifact_state artifact sha state error =
    enqueue (
      artifact_state
        (record { artifact_id = artifact; state = state; sha256 = sha; error = error }))

-- `sendSlotState` of internal/comrad/worker_cache_evict.go, which leaves out the model.
unfoldable pub send_slot_state : Slot → WorkerModel → WorkerModel
send_slot_state slot w =
    enqueue
      (slot_state (record {
        slot_id = slot.id;
        state = reported w.paused slot.state;
        profile_id = slot.profile_id;
        profile_version = 0;
        logical_model = "";
        runtime_variant_id = "";
        model_artifact_id = "";
        model_sha256 = "";
        active_task_id = slot.active_task_id;
        mismatch_reason = slot.mismatch_reason;
      }))
      w
