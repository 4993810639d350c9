-- ===== src/Client.antt =====
-- What a client asks of the manager: internal/comrad/manager_client.go, and how
-- internal/comrad/manager_chat.go reads the events of an attempt. The temperature of a request, a
-- float that is passed on, is left out, and so is the text of the answers.
pub mod Covered
use comrad.Prelude.{
  ℕ, suc, String, Bool, true, false, not, ◌&&◌, ◌||◌, List, [], ◌∷◌, Option, none, some, Int64,
  lt64, le64, eqb, ltb, ◌==◌, if◌then◌else◌,
}
use comrad.Prelude.Dict.{lookup, insert, get_or, values}
use comrad.Types.{
  Time, Task, TaskStatus, Attempt, User, WorkloadProfile, ComputeReport, Error, is_cancelled,
  is_completed, is_failed, zero_task,
}
use comrad.Store.{Database, add_audit}
use comrad.Accounting.{ensure_sufficient_available_balance}
use comrad.Profile.{profile_version, profile_logical_model}
use comrad.Attempts.{AttemptFailedPayload, mark_task_cancel_requested}

pub record ChatRequest : Type 0 where
  pub model : String
  pub stream : Bool
  pub max_tokens : Int64
  pub min_context : Int64
  pub comrad_min_context_tokens : Int64

pub record ChatOptions : Type 0 where
  pub min_context : Int64
  pub max_tokens : Int64

unfoldable pub default_chat_options : ChatRequest → ChatOptions
default_chat_options req =
    let asked =
      if lt64 req.min_context req.comrad_min_context_tokens
      then req.comrad_min_context_tokens
      else req.min_context in
    record {
      min_context = if eqb asked 0 then 1 else asked;
      max_tokens = if le64 req.max_tokens 0 then 128 else req.max_tokens;
    }

-- The queue of chats: how many are in it, of how many. A chat that does not fit is refused.
unfoldable pub acquire_queue : ℕ → ℕ → Option ℕ
acquire_queue capacity used = if ltb used capacity then some (suc used) else none

unfoldable pub new_chat_task : String → ChatRequest → WorkloadProfile → Int64 → User → Time → Task
new_chat_task fresh req profile min_context user now = record zero_task {
  id = fresh;
  user_id = user.id;
  kind = "llm.chat";
  model = req.model;
  profile_id = profile.id;
  profile_version = profile_version profile;
  logical_model = profile_logical_model profile;
  compute_cost = profile.compute_cost;
  min_context_tokens = min_context;
  status = TaskStatus.queued;
  stream = req.stream;
  created_at = now;
  updated_at = now;
}

stored_unless : Option Error → Task → Database → Database × Option Error
stored_unless none task db = (
  add_audit "task.created" "client" task.id task.created_at
      (record db { tasks = insert task.id task db.tasks }),
  none,
)
stored_unless (some e) task db = (db, some e)

unfoldable pub store_new_task : Task → Bool → Database → Database × Option Error
unfolding stored_unless
store_new_task task enforce db =
    stored_unless (ensure_sufficient_available_balance db task.user_id task.compute_cost enforce)
      task db

own_task : Option Task → User → Option Task
own_task none user = none
own_task (some task) user =
    if not (task.user_id == "") && not (task.user_id == user.id) then none else some task

-- `clientTask`: the tasks of other users are not there.
unfoldable pub client_task : Database → User → String → Option Task
unfolding own_task
client_task db user id = own_task (lookup id db.tasks) user

cancelled_if : Option Task → String → String → Time → Database → Database × Bool
cancelled_if none id reason now db = (db, false)
cancelled_if (some task) id reason now db = (mark_task_cancel_requested id reason now db, true)

-- The `/cancel` branch of `handleJobs`, whether it finds the job; `cancelTask` also tells the worker.
unfoldable pub cancel_job : User → String → String → Time → Database → Database × Bool
unfolding cancelled_if
cancel_job user id reason now db = cancelled_if (client_task db user id) id reason now db

unfoldable pub task_is_cancelled : Database → String → Bool
task_is_cancelled db id = is_cancelled (get_or zero_task id db.tasks).status

unfoldable pub task_has_first_output : String → List Attempt → Bool
task_has_first_output id [] = false
task_has_first_output id (a ∷ attempts) =
    let rest = task_has_first_output id attempts in
    if a.task_id == id && a.first_output_sent then true else rest

-- What an attempt reports to the waiting client.
pub data StreamEvent : Type 0 where
  token : String → StreamEvent
  failed : AttemptFailedPayload → StreamEvent
  report : ComputeReport → StreamEvent
  broken : String → StreamEvent

-- The status of a collected answer, 0 while it goes on, its reason, and whether to try again.
pub record CollectResult : Type 0 where
  pub content : String
  pub status : ℕ
  pub reason : String
  pub retry : Bool

abbrev pub collecting : CollectResult
collecting = record { content = ""; status = 0; reason = ""; retry = false }

abbrev pub try_again : CollectResult
try_again = record { content = ""; status = 0; reason = ""; retry = true }

abbrev pub given_up : String → CollectResult
given_up reason = record { content = ""; status = 503; reason = reason; retry = false }

unfoldable pub collect_failure_result : AttemptFailedPayload → CollectResult
collect_failure_result f =
    if not f.first_output_sent && f.can_retry then try_again else given_up f.failure_reason

unfoldable pub collect_report_result : ComputeReport → String → CollectResult
collect_report_result r content =
    if is_completed r.status
    then record { content = content; status = 200; reason = ""; retry = false }
    else if is_failed r.status && r.can_retry
    then try_again
    else given_up r.failure_reason

unfoldable pub collect_error_result : String → Bool → CollectResult
collect_error_result reason retry = if retry then try_again else given_up reason

-- `handleCollectEvent`, with the text collected so far.
unfoldable pub handle_collect_event : StreamEvent → String → String × CollectResult
handle_collect_event (token t) so_far = (Prim.Native.String.◌++◌ so_far t, collecting)
handle_collect_event (failed f) so_far = (so_far, collect_failure_result f)
handle_collect_event (report r) so_far = (so_far, collect_report_result r so_far)
handle_collect_event (broken reason) so_far = (so_far, collect_error_result reason (so_far == ""))

-- The result of an attempt, once its events end it. A retry starts from an empty text.
unfoldable pub collect_attempt : String → List StreamEvent → String × CollectResult
collect_attempt so_far [] = (so_far, collecting)
collect_attempt so_far (e ∷ events) =
    let (text, result) = handle_collect_event e so_far in
    let later = collect_attempt text events in
    if not (eqb result.status 0) || result.retry then (text, result) else later

-- What `writeStreamEvent` tells the loop: whether the stream is done, and whether to try again.
unfoldable pub write_stream_event : Database → Task → StreamEvent → Bool × Bool
write_stream_event db task (token t) = (false, false)
write_stream_event db task (failed f) =
    if not f.first_output_sent && f.can_retry then (false, true) else (true, false)
write_stream_event db task (report r) = (true, false)
write_stream_event db task (broken reason) =
    if not (task_has_first_output task.id (values db.attempts))
    then (false, true)
    else (true, false)
