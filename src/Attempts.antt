-- ===== src/Attempts.antt =====
-- The life of an attempt: internal/comrad/manager_chat.go (the reservation),
-- internal/comrad/manager_scheduler.go (failing and cancelling),
-- internal/comrad/manager_worker_messages.go (what workers say of it) and
-- internal/comrad/manager_worker_security.go (what they may say). Each operation is the callback of its `store.Update`. Durations in nanoseconds.
pub mod Reserve
pub mod Reports
pub mod Disconnect
pub mod Settle
pub mod Guarded
pub mod Requeued
use comrad.Prelude.{
  ℕ, ◌+◌, String, Bool, true, false, not, ◌&&◌, ◌||◌, List, [], ◌∷◌, Option, none, some, eqb, ◌==◌,
  if◌then◌else◌, Int64,
}
use comrad.Prelude.Dict.{Dict, get_or, has_key, insert, map_values}
use comrad.Prelude.Sets.{append_unique}
use comrad.Types.{
  Time, Node, NodeState, Slot, SlotState, Task, TaskStatus, Attempt, ComputeReport, WorkloadProfile,
  Error, task_cancelled, slot_unavailable, attempt_id_required, attempt_not_found,
  attempt_not_owned, attempt_of_other_task, is_cancelled, is_queued, is_completed, is_failed,
  is_running, is_ready, is_serving, zero_task, zero_slot, zero_attempt, zero_node,
  failure_worker_disconnected,
}
use comrad.Store.{Database, add_audit}
use comrad.Accounting.{first_non_empty, first_non_zero, apply_report_accounting}
use comrad.Profile.{profile_logical_model, profile_version}
use comrad.Flapping.{ManagerConfig, record_worker_flap_event}
use comrad.Quarantine.{record_slot_failure}
use comrad.Capacity.{task_terminal}

abbrev pub thirty_seconds : ℕ
thirty_seconds = 30000000000

unfoldable pub new_attempt :
    String → Task → WorkloadProfile → WorkloadProfile → Slot → Time → Attempt
new_attempt fresh task profile effective slot now = record {
  id = fresh;
  task_id = task.id;
  user_id = task.user_id;
  node_id = slot.node_id;
  slot_id = slot.id;
  profile_id = profile.id;
  profile_version = task.profile_version;
  logical_model = profile_logical_model effective;
  runtime_variant_id = effective.runtime_variant_id;
  runtime_adapter = effective.runtime_adapter;
  compute_cost = task.compute_cost;
  status = TaskStatus.running;
  phase = "assigned";
  failure_reason = "";
  can_retry = true;
  first_output_sent = false;
  lease_expires_at = now + thirty_seconds;
  started_at = now;
  first_output_at = none;
  completed_at = none;
}

-- The slot is free for a task of the profile, in the variant.
abbrev pub slot_is_free : Slot → WorkloadProfile → WorkloadProfile → Bool
slot_is_free current profile effective =
    not (
      not (is_ready current.state)
      || not (current.active_task_id == "")
      || not current.accepts_new
      || current.quarantined)
    && not (
        not (current.profile_id == profile.id)
        || not (current.runtime_variant_id == effective.runtime_variant_id))

abbrev pub serving_slot : String → Time → Slot → Slot
serving_slot task now slot = record slot {
  state = SlotState.serving;
  active_task_id = task;
  last_task_at = now;
  accepts_new = false;
}

abbrev pub running_task : WorkloadProfile → WorkloadProfile → Time → Task → Task
running_task profile effective now task = record task {
  status = TaskStatus.running;
  profile_id = profile.id;
  profile_version = profile_version profile;
  logical_model = profile_logical_model effective;
  runtime_variant_id = effective.runtime_variant_id;
  compute_cost = profile.compute_cost;
  updated_at = now;
}

-- The writes of a reservation that no guard refuses.
unfoldable pub reserved :
    Task → WorkloadProfile → WorkloadProfile → Slot → Attempt → Time → Database → Database
reserved task profile effective slot attempt now db =
    let current = get_or zero_slot slot.id db.slots in
    let stored = get_or zero_task task.id db.tasks in
    add_audit "attempt.assigned" "manager" attempt.id now (record db {
      slots = insert current.id (serving_slot task.id now current) db.slots;
      tasks = insert stored.id (running_task profile effective now stored) db.tasks;
      attempts = insert attempt.id attempt db.attempts;
    })

unfoldable pub reserve_attempt_in_db :
    Task
    → WorkloadProfile
    → WorkloadProfile
    → Slot
    → Attempt
    → Time
    → Database
    → Database × Option Error
reserve_attempt_in_db task profile effective slot attempt now db =
    let stored = get_or zero_task task.id db.tasks in
    if is_cancelled stored.status
    then (db, some task_cancelled)
    else if not (is_queued stored.status)
    then (db, some slot_unavailable)
    else if not (slot_is_free (get_or zero_slot slot.id db.slots) profile effective)
    then (db, some slot_unavailable)
    else (reserved task profile effective slot attempt now db, none)

unfoldable pub fail_task : String → String → Time → Database → Database
fail_task task_id reason now db =
    let task = get_or zero_task task_id db.tasks in
    if task_terminal task.status then db else record db {
      tasks =
          insert task_id
            (record task {
              status = TaskStatus.failed;
              failure_reason = reason;
              updated_at = now;
              completed_at = some now;
            })
            db.tasks;
    }

unfoldable pub mark_task_cancel_requested : String → String → Time → Database → Database
mark_task_cancel_requested task_id reason now db =
    let task = get_or zero_task task_id db.tasks in
    if task.id == "" || task_terminal task.status
    then db
    else add_audit "task.cancel_requested" "client" task.id now (record db {
      tasks =
          insert task.id
            (record task {
              status = TaskStatus.cancelled;
              failure_reason = reason;
              updated_at = now;
              completed_at = some now;
            })
            db.tasks;
    })

-- The attempt, or the error.
unfoldable pub require_worker_attempt : Database → String → String → String → Attempt × Option Error
require_worker_attempt db node_id attempt_id task_id =
    let attempt = get_or zero_attempt attempt_id db.attempts in
    if attempt_id == ""
    then (zero_attempt, some attempt_id_required)
    else if attempt.id == ""
    then (zero_attempt, some (attempt_not_found attempt_id))
    else if not (attempt.node_id == node_id)
    then (zero_attempt, some (attempt_not_owned attempt_id node_id))
    else if not (task_id == "") && not (attempt.task_id == task_id)
    then (zero_attempt, some (attempt_of_other_task attempt_id task_id))
    else (attempt, none)

-- A task whose attempt on a slot failed: it waits for another one, or it has failed.
unfoldable pub task_after_failure : Bool → String → String → Time → Task → Task
task_after_failure retry reason slot now task = record task {
  failure_reason = reason;
  updated_at = now;
  failed_slots = append_unique task.failed_slots slot;
  status = if retry then TaskStatus.queued else TaskStatus.failed;
  runtime_variant_id = if retry then "" else task.runtime_variant_id;
  completed_at = if retry then none else some now;
}

unfoldable pub write_task : Task → Database → Database
write_task task db = record db { tasks = insert task.id task db.tasks }

unfoldable pub write_slot : Database × Slot → Database
write_slot (db, slot) = record db { slots = insert slot.id slot db.slots }

unfoldable pub write_attempt : String → Attempt → Database → Database
write_attempt id attempt db = record db { attempts = insert id attempt db.attempts }

unfoldable pub mark_attempt_failed :
    ManagerConfig → String → String → String → Bool → Bool → Time → Database → Database
mark_attempt_failed cfg attempt_id phase reason can_retry first_output now db =
    let attempt = record (get_or zero_attempt attempt_id db.attempts) {
      status = TaskStatus.failed;
      phase = phase;
      failure_reason = reason;
      can_retry = can_retry;
      first_output_sent = first_output;
      completed_at = some now;
    } in
    let db1 = write_attempt attempt_id attempt db in
    let slot = record (get_or zero_slot attempt.slot_id db.slots) {
      state = SlotState.ready;
      active_task_id = "";
    } in
    let db2 =
      write_slot (
        record_slot_failure db1 slot reason now cfg.quarantine_threshold cfg.quarantine_duration) in
    write_task
      (task_after_failure (can_retry && not first_output) reason attempt.slot_id now
        (get_or zero_task attempt.task_id db.tasks))
      db2

pub record AttemptFailedPayload : Type 0 where
  pub task_id : String
  pub attempt_id : String
  pub phase : String
  pub failure_reason : String
  pub can_retry : Bool
  pub first_output_sent : Bool

unfoldable pub failed_attempt_written :
    ManagerConfig → AttemptFailedPayload → Attempt → Time → Database → Database
failed_attempt_written cfg payload authoritative now db =
    let attempt = record (get_or zero_attempt payload.attempt_id db.attempts) {
      status = TaskStatus.failed;
      phase = payload.phase;
      failure_reason = payload.failure_reason;
      can_retry = payload.can_retry;
      first_output_sent = payload.first_output_sent;
      completed_at = some now;
    } in
    let db1 = write_attempt attempt.id attempt db in
    let held = get_or zero_slot attempt.slot_id db.slots in
    let own = held.profile_id == attempt.profile_id in
    let slot = record held {
      active_task_id = "";
      state = if own then SlotState.ready else SlotState.idle;
      accepts_new = if own then true else held.accepts_new;
    } in
    let db2 = write_slot (
      record_slot_failure db1 slot payload.failure_reason now cfg.quarantine_threshold
        cfg.quarantine_duration) in
    add_audit "attempt.failed" "worker" attempt.id now (
      write_task
        (task_after_failure (payload.can_retry && not payload.first_output_sent)
          payload.failure_reason attempt.slot_id now
          (get_or zero_task authoritative.task_id db.tasks))
        db2)

-- The database as it is, with the error, or the one that is written.
unfoldable pub with_attempt : Option Error → Database → Database → Database × Option Error
with_attempt none db written = (written, none)
with_attempt (some e) db written = (db, some e)

-- `handleAttemptFailed`, without the event to the waiting client.
unfoldable pub handle_attempt_failed :
    ManagerConfig → String → AttemptFailedPayload → Time → Database → Database × Option Error
handle_attempt_failed cfg node_id payload now db =
    let (authoritative, err) =
      require_worker_attempt db node_id payload.attempt_id payload.task_id in
    with_attempt err db (failed_attempt_written cfg payload authoritative now db)

-- The other messages of a worker about its attempt.
unfoldable pub handle_attempt_started :
    String → String → String → Database → Database × Option Error
handle_attempt_started node_id attempt_id task_id db =
    let attempt = get_or zero_attempt attempt_id db.attempts in
    with_attempt (require_worker_attempt db node_id attempt_id task_id).1 db (
      write_attempt attempt.id (record attempt { phase = "running"; status = TaskStatus.running })
        db)

unfoldable pub handle_attempt_lease :
    String → String → String → Time → Database → Database × Option Error
handle_attempt_lease node_id attempt_id task_id now db =
    let attempt = get_or zero_attempt attempt_id db.attempts in
    with_attempt (require_worker_attempt db node_id attempt_id task_id).1 db
      (write_attempt attempt.id (record attempt { lease_expires_at = now + thirty_seconds }) db)

unfoldable pub record_first_output :
    String → String → String → Time → Database → Database × Option Error
record_first_output node_id attempt_id task_id now db =
    let attempt = get_or zero_attempt attempt_id db.attempts in
    with_attempt (require_worker_attempt db node_id attempt_id task_id).1 db (
      if attempt.first_output_sent
      then db
      else add_audit "attempt.first_output" "worker" attempt.id now (
          write_attempt attempt.id
            (record attempt {
              first_output_sent = true;
              first_output_at = some now;
              can_retry = false;
            })
            db))
