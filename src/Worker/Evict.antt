-- ===== src/Worker/Evict.antt =====
-- internal/comrad/worker_cache_evict.go: a worker evicts an artifact that nothing is serving. What the
-- removal of the file and the writing of the state file report is an argument.
use comrad.Prelude.{
  String, Bool, false, not, ◌&&◌, ◌||◌, List, [], ◌∷◌, ◌++◌, Option, none, some, any, ◌==◌,
  if◌then◌else◌,
}
use comrad.Prelude.Dict.{Dict, get_or, insert, delete, values}
use comrad.Prelude.Sets.{contains}
use comrad.Prelude.Texts.{normalize_sha256}
use comrad.Types.{
  Slot, SlotState, WorkloadProfile, Error, is_serving, zero_slot, zero_time, artifact_in_use,
  artifact_id_required, backend_failed,
}
use comrad.Profile.{profile_artifact_ids}
use comrad.Worker.{
  ArtifactSpec, AssignmentPayload, RuntimeProcess, WorkerModel, send_artifact_state,
  send_slot_state,
}

unfoldable pub profile_uses_artifact : String → WorkloadProfile → Bool
profile_uses_artifact artifact profile =
    any (λ id. normalize_sha256 id == artifact) (profile_artifact_ids profile)

unfoldable pub assignment_uses_artifact : String → AssignmentPayload → Bool
assignment_uses_artifact artifact a =
    profile_uses_artifact artifact a.profile
    || any (λ (s : ArtifactSpec). normalize_sha256 s.id == artifact) a.artifacts

-- `slotUsesArtifactLocked`, on the worker's assignments and warm profiles.
unfoldable pub slot_uses_artifact :
    List AssignmentPayload → List WorkloadProfile → String → Slot → Bool
slot_uses_artifact assigns warm artifact slot =
    normalize_sha256 slot.model_artifact_id == artifact
    || normalize_sha256 slot.model_sha256 == artifact
    || any
        (λ (a : AssignmentPayload).
          a.profile.id == slot.profile_id && assignment_uses_artifact artifact a)
        assigns
    || any (λ (p : WorkloadProfile). p.id == slot.profile_id && profile_uses_artifact artifact p)
        warm

pub record EvictionPlan : Type 0 where
  pub path : String
  pub slot_ids : List String
  pub profiles : List String

-- The loop over the slots: the keys of those that use the artifact, unless one is at work.
unfoldable pub plan_slots : (Slot → Bool) → Dict Slot → List String × Option Error
plan_slots uses [] = ([], none)
plan_slots uses ((id, slot) ∷ slots) =
    let (ids, err) = plan_slots uses slots in
    if not (uses slot)
    then (ids, err)
    else if is_serving slot.state || not (slot.active_task_id == "")
    then ([], some (artifact_in_use id))
    else (id ∷ ids, err)

-- The keys whose values pass the test and that the list does not have yet.
unfoldable pub add_keys {ℓ} : {V : Type ℓ} → (V → Bool) → Dict V → List String → List String
add_keys p [] keys = keys
add_keys p ((k, v) ∷ m) keys =
    add_keys p m (if p v && not (contains keys k) then keys ++ k ∷ [] else keys)

unfoldable pub planned :
    String × List String → List String × Option Error → EvictionPlan × Option Error
planned (path, profiles) (ids, none) =
    (record { path = path; slot_ids = ids; profiles = profiles }, none)
planned (path, profiles) (ids, some e) =
    (record { path = ""; slot_ids = []; profiles = [] }, some e)

-- `planArtifactEviction`. The keys of a map are met once, so the first of its two loops over profiles
-- may check for those that it has, as the second does.
unfoldable pub plan_artifact_eviction : String → WorkerModel → EvictionPlan × Option Error
plan_artifact_eviction artifact w =
    let assigned = add_keys (assignment_uses_artifact artifact) w.assigns [] in
    planned (get_or "" artifact w.cache, add_keys (profile_uses_artifact artifact) w.warm assigned)
      (plan_slots (slot_uses_artifact (values w.assigns) (values w.warm) artifact) w.slots)

unfoldable pub clear_evicted_slot : Slot → Slot
clear_evicted_slot slot = record slot {
  state = SlotState.idle;
  profile_id = "";
  profile_version = 0;
  logical_model = "";
  runtime_variant_id = "";
  model_artifact_id = "";
  model_sha256 = "";
  active_task_id = "";
  accepts_new = false;
  mismatch_reason = "artifact_evicted";
  last_ready = zero_time;
}

unfoldable pub delete_keys {ℓ} : {V : Type ℓ} → List String → Dict V → Dict V
delete_keys [] m = m
delete_keys (k ∷ keys) m = delete_keys keys (delete k m)

unfoldable pub clear_slots : List String → Dict Slot → Dict Slot
clear_slots [] slots = slots
clear_slots (id ∷ ids) slots =
    clear_slots ids (insert id (clear_evicted_slot (get_or zero_slot id slots)) slots)

-- The worker after `applyArtifactEviction`.
unfoldable pub apply_artifact_eviction : String → EvictionPlan → WorkerModel → WorkerModel
apply_artifact_eviction artifact plan w = record w {
  cache = delete artifact w.cache;
  assigns = delete_keys plan.profiles w.assigns;
  warm = delete_keys plan.profiles w.warm;
  runtimes = delete_keys plan.slot_ids w.runtimes;
  runtime_restarts = delete_keys plan.slot_ids w.runtime_restarts;
  slots = clear_slots plan.slot_ids w.slots;
}

unfoldable pub send_slots : List String → WorkerModel → WorkerModel
send_slots [] w = w
send_slots (id ∷ ids) w = send_slots ids (send_slot_state (get_or zero_slot id w.slots) w)

-- The servers of the slots are stopped; they leave the map later.
unfoldable pub stop_runtimes : List String → Dict RuntimeProcess → Dict RuntimeProcess
stop_runtimes ids [] = []
stop_runtimes ids ((id, p) ∷ runtimes) =
    (id, if contains ids id then record p { alive = false } else p) ∷ stop_runtimes ids runtimes

unfoldable pub stopped : EvictionPlan → WorkerModel → WorkerModel
stopped plan w = record w { runtimes = stop_runtimes plan.slot_ids w.runtimes }

unfoldable pub if_path : String → Option String → Option String
if_path path removed = if path == "" then none else removed

unfoldable pub evict_failed : String → Error → String → WorkerModel → WorkerModel × Option Error
evict_failed artifact e text w = (send_artifact_state artifact "" "evict_failed" text w, some e)

-- Below the stopping of the servers: what removing the file and saving the state report.
unfoldable pub evict_stopped :
    String → Option String → Option String → EvictionPlan → WorkerModel → WorkerModel × Option Error
evict_stopped artifact (some text) saved plan w = evict_failed artifact (backend_failed text) text w
evict_stopped artifact none (some text) plan w =
    evict_failed artifact (backend_failed text) text (apply_artifact_eviction artifact plan w)
evict_stopped artifact none none plan w = (
  send_artifact_state artifact "" "evicted" ""
      (send_slots plan.slot_ids (apply_artifact_eviction artifact plan w)),
  none,
)

unfoldable pub evict_planned :
    String
    → Option String
    → Option String
    → EvictionPlan × Option Error
    → WorkerModel
    → WorkerModel × Option Error
evict_planned artifact removed saved (plan, some e) w = evict_failed artifact e "artifact_in_use" w
evict_planned artifact removed saved (plan, none) w =
    evict_stopped artifact (if_path plan.path removed) saved plan (stopped plan w)

-- `evictArtifact`, on the artifact of the message: `removed` and `saved` are the errors, if any, of
-- removing a cached file and of writing the state.
unfoldable pub evict_artifact :
    Option String → Option String → String → WorkerModel → WorkerModel × Option Error
evict_artifact removed saved artifact_id w =
    let artifact = normalize_sha256 artifact_id in
    if artifact == ""
    then (w, some artifact_id_required)
    else evict_planned artifact removed saved (plan_artifact_eviction artifact w) w
