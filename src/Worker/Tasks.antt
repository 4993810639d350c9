-- ===== src/Worker/Tasks.antt =====
-- internal/comrad/worker_task.go: a worker executes a task. What the runtime streams is an argument;
-- measurements of time and of tokens are left out of a report, and so are the leases that a timer
-- renews and the recovery of the slot, which runs beside the task (Worker.Restarts).
use comrad.Prelude.{
  ℕ, suc, String, Bool, true, false, not, ◌||◌, List, [], ◌∷◌, Option, none, some, ◌==◌,
  if◌then◌else◌,
}
use comrad.Prelude.Dict.{has_key, insert, delete, lookup}
use comrad.Prelude.Texts.{join_commas}
use comrad.Profile.{profile_logical_model}
use comrad.Types.{
  Time, Slot, SlotState, TaskStatus, WorkloadProfile, ComputeReport, is_ready, is_cancelled,
  failure_cancelled_by_client,
}
use comrad.Fit.{slot_profile_current, is_nil}
use comrad.Attempts.{AttemptFailedPayload}
use comrad.Worker.{
  WorkerModel, attempt_started, attempt_failed, task_token, compute_report, enqueue,
  set_slot_serving, set_slot_state,
}
use comrad.Worker.Assignments.{local_fit, verify_profile_artifacts}

-- The messages, the limits and the temperature go to the runtime.
pub record ExecuteTaskPayload : Type 0 where
  pub task_id : String
  pub attempt_id : String
  pub slot_id : String
  pub profile : WorkloadProfile

-- What `streamRuntimeTokens` does: it hands over tokens, and then is done, fails, or is found cancelled.
pub data RuntimeEnd : Type 0 where
  done broken interrupted : RuntimeEnd

pub record RuntimeRun : Type 0 where
  pub tokens : List String
  pub ending : RuntimeEnd

-- `registerActiveAttempt`, whether the attempt was new.
unfoldable pub register_active_attempt : String → WorkerModel → WorkerModel × Bool
register_active_attempt id w =
    if has_key id w.active
    then (w, false)
    else (record w { active = insert id true w.active }, true)

unfoldable pub unregister_active_attempt : String → WorkerModel → WorkerModel
unregister_active_attempt id w = record w { active = delete id w.active }

-- The phase and the reason of a refusal.
abbrev pub TaskAdmissionFailure : Type 0
TaskAdmissionFailure = String × String

abbrev pub admission_check_failed : TaskAdmissionFailure
admission_check_failed = ("admission", "admission_check_failed")

admitted_on :
    (String → String → Bool)
    → ExecuteTaskPayload
    → WorkerModel
    → Option Slot
    → Option TaskAdmissionFailure
admitted_on matches payload w none = some admission_check_failed
admitted_on matches payload w (some slot) =
    let fit = (local_fit payload.profile payload.slot_id w).1 in
    if not (slot.active_task_id == "")
      || not (is_ready slot.state)
      || not (slot_profile_current slot payload.profile.id payload.profile)
    then some admission_check_failed
    else if not fit.fits
    then some ("admission", join_commas fit.reasons)
    else if not (verify_profile_artifacts matches payload.profile w)
    then some ("artifact_verification", "artifact_digest_mismatch")
    else none

-- `admitTask`; `matches` is the check of a file's digest.
unfoldable pub admit_task :
    (String → String → Bool) → ExecuteTaskPayload → WorkerModel → Option TaskAdmissionFailure
unfolding admitted_on
admit_task matches payload w = admitted_on matches payload w (lookup payload.slot_id w.slots)

unfoldable pub send_report :
    String
    → Time
    → ExecuteTaskPayload
    → String
    → String
    → TaskStatus
    → Bool
    → WorkerModel
    → WorkerModel
send_report fresh now payload phase reason status can_retry w =
    let report : ComputeReport = record {
      id = fresh;
      task_id = payload.task_id;
      attempt_id = payload.attempt_id;
      user_id = "";
      node_id = w.node.id;
      slot_id = payload.slot_id;
      profile_id = payload.profile.id;
      profile_version = 0;
      logical_model = profile_logical_model payload.profile;
      runtime_variant_id = payload.profile.runtime_variant_id;
      runtime_adapter = payload.profile.runtime_adapter;
      compute_cost = 0;
      status = status;
      phase = phase;
      failure_reason = reason;
      can_retry = can_retry;
      cancelled = is_cancelled status;
      created_at = now;
    } in
    enqueue (compute_report report) w

unfoldable pub fail_execution :
    String → Time → ExecuteTaskPayload → String → String → Bool → Bool → WorkerModel → WorkerModel
fail_execution fresh now payload phase reason can_retry first w =
    let failed : AttemptFailedPayload = record {
      task_id = payload.task_id;
      attempt_id = payload.attempt_id;
      phase = phase;
      failure_reason = reason;
      can_retry = can_retry;
      first_output_sent = first;
    } in
    send_report fresh now payload phase reason TaskStatus.failed can_retry
      (enqueue (attempt_failed failed) w)

-- `sendTaskToken` for each token, from an index on.
unfoldable pub send_task_tokens : ExecuteTaskPayload → List String → ℕ → WorkerModel → WorkerModel
send_task_tokens payload [] sent w = w
send_task_tokens payload (token ∷ tokens) sent w =
    send_task_tokens payload tokens (suc sent)
      (enqueue (task_token payload.attempt_id token sent) w)

-- What the end of the stream makes of the task; `first` says that a token was sent.
unfoldable pub task_ended :
    String → Time → ExecuteTaskPayload → Bool → RuntimeEnd → WorkerModel → WorkerModel
task_ended fresh now payload first done w =
    send_report fresh now payload "completed" "" TaskStatus.completed false
      (set_slot_state payload.slot_id SlotState.ready payload.profile.id "" w)
task_ended fresh now payload first broken w =
    fail_execution fresh now payload "runtime" "runtime_error" (not first) first w
task_ended fresh now payload first interrupted w =
    send_report fresh now payload "execution" failure_cancelled_by_client TaskStatus.cancelled false
      w

-- The task that is let in: its slot serves it, and the stream runs.
unfoldable pub run_task :
    String → Time → ExecuteTaskPayload → RuntimeRun → WorkerModel → WorkerModel
run_task fresh now payload run w =
    task_ended fresh now payload (not (is_nil run.tokens)) run.ending (
      send_task_tokens payload run.tokens 0 (
        enqueue (attempt_started payload.task_id payload.attempt_id)
          (set_slot_serving payload.slot_id payload.profile.id payload.task_id w)))

unfoldable pub run_unless :
    Option TaskAdmissionFailure
    → String
    → Time
    → ExecuteTaskPayload
    → RuntimeRun
    → WorkerModel
    → WorkerModel
run_unless (some (phase, reason)) fresh now payload run w =
    fail_execution fresh now payload phase reason true false w
run_unless none fresh now payload run w = run_task fresh now payload run w

unfoldable pub if_registered :
    (String → String → Bool)
    → String
    → Time
    → ExecuteTaskPayload
    → RuntimeRun
    → WorkerModel × Bool
    → WorkerModel
if_registered matches fresh now payload run (w, false) = w
if_registered matches fresh now payload run (w, true) =
    unregister_active_attempt payload.attempt_id
      (run_unless (admit_task matches payload w) fresh now payload run w)

unfoldable pub execute_task :
    (String → String → Bool)
    → String
    → Time
    → ExecuteTaskPayload
    → RuntimeRun
    → WorkerModel
    → WorkerModel
execute_task matches fresh now payload run w =
    if_registered matches fresh now payload run (register_active_attempt payload.attempt_id w)
