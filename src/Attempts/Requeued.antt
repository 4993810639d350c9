-- ===== src/Attempts/Requeued.antt =====
-- internal/comrad/manager_scheduler.go and manager_ws.go: a task that its client cancels, and the
-- disconnect of the worker that runs it.
use comrad.Prelude.{
  ℕ, ◌≡◌, refl, String, true, false, not, some, arith, ◌==◌, eq_iff, eq_refl, if◌then◌else◌,
  Bool-cases, inl, inr,
}
use comrad.Prelude.Dict.{get_or, insert, get_or-insert}
use comrad.Types.{Time, Slot, Task, TaskStatus, Attempt, failure_worker_disconnected, zero_task}
use comrad.Store.{Database}
use comrad.Capacity.{task_terminal}
use comrad.Flapping.{ManagerConfig}
use comrad.Quarantine.{record_slot_failure, note_node_failure}
use comrad.Attempts.{
  mark_task_cancel_requested, task_after_failure, write_task, write_slot, write_attempt,
}
use comrad.Attempts.Disconnect.{
  fail_disconnected_attempt, mark_disconnected_task, mark_disconnected_slot,
}

failure-tasks :
    (db : Database) (slot : Slot) (reason : String) (now : Time) (threshold duration : ℕ)
    → (record_slot_failure db slot reason now threshold duration).0.tasks ≡ db.tasks
unfolding record_slot_failure note_node_failure
failure-tasks db slot reason now threshold duration = ground arith

write_slot-tasks : (p : Database × Slot) → (write_slot p).tasks ≡ p.0.tasks
unfolding write_slot
write_slot-tasks (db, slot) = refl

mark_disconnected_slot-tasks :
    (cfg : ManagerConfig) (attempt : Attempt) (now : Time) (db : Database)
    → (mark_disconnected_slot cfg attempt now db).tasks ≡ db.tasks
unfolding mark_disconnected_slot
mark_disconnected_slot-tasks cfg attempt now db = rw (write_slot-tasks, failure-tasks) refl

mark_disconnected_task-status :
    (attempt : Attempt) (now : Time) (db : Database)
    → (get_or zero_task attempt.task_id db.tasks).id ≡ attempt.task_id
    → (get_or zero_task attempt.task_id (mark_disconnected_task attempt now db).tasks).status
      ≡ (if attempt.first_output_sent then TaskStatus.failed else TaskStatus.queued)
unfolding mark_disconnected_task write_task task_after_failure
mark_disconnected_task-status attempt now db stored =
    let task = get_or zero_task attempt.task_id db.tasks in
    let after =
      task_after_failure (not attempt.first_output_sent) failure_worker_disconnected attempt.slot_id
        now task in
    let up = get_or-insert zero_task task.id attempt.task_id after db.tasks in
    let same : (task.id == attempt.task_id) ≡ true =
      ground (arith, eq_iff task.id attempt.task_id, stored) in
    rw (up, same)
      (elim (Bool-cases attempt.first_output_sent) [ inl e ↦ rw e refl | inr e ↦ rw e refl ])

abbrev cancelled : String → String → Time → Task → Task
cancelled id reason now task = record task {
  id = id;
  status = TaskStatus.cancelled;
  failure_reason = reason;
  updated_at = now;
  completed_at = some now;
}

cancel-tasks :
    (id reason : String) (now : Time) (db : Database)
    → (id == "") ≡ false
    → (get_or zero_task id db.tasks).id ≡ id
    → task_terminal (get_or zero_task id db.tasks).status ≡ false
    → (mark_task_cancel_requested id reason now db).tasks
      ≡ insert id (cancelled id reason now (get_or zero_task id db.tasks)) db.tasks
unfolding mark_task_cancel_requested
cancel-tasks id reason now db named stored running = rw (stored, named, running) refl

cancel-stored :
    (id reason : String) (now : Time) (db : Database)
    → (id == "") ≡ false
    → (get_or zero_task id db.tasks).id ≡ id
    → task_terminal (get_or zero_task id db.tasks).status ≡ false
    → let task = get_or zero_task id (mark_task_cancel_requested id reason now db).tasks in
      (task.id ≡ id) × (task.status ≡ TaskStatus.cancelled)
cancel-stored id reason now db named stored running =
    let next = cancelled id reason now (get_or zero_task id db.tasks) in
    rw
      (
        cancel-tasks id reason now db named stored running,
        get_or-insert zero_task id id next db.tasks,
        eq_refl id,
      )
      (refl, refl)

-- A client cancels a task that is stored under its id and has not ended, and then the disconnect of
-- the worker fails the task's attempt. The task was cancelled, and is not any more: it is queued again
-- if the attempt had no output yet, and has failed otherwise.
pub cancelled_task-disconnected :
    (cfg : ManagerConfig) (key reason : String) (attempt : Attempt) (now later : Time)
    (db : Database)
    → (attempt.task_id == "") ≡ false
    → (get_or zero_task attempt.task_id db.tasks).id ≡ attempt.task_id
    → task_terminal (get_or zero_task attempt.task_id db.tasks).status ≡ false
    → let before = mark_task_cancel_requested attempt.task_id reason now db in
      let after = fail_disconnected_attempt cfg key attempt later before in
      ((get_or zero_task attempt.task_id before.tasks).status ≡ TaskStatus.cancelled)
      × ((get_or zero_task attempt.task_id after.tasks).status
          ≡ (if attempt.first_output_sent then TaskStatus.failed else TaskStatus.queued))
unfolding fail_disconnected_attempt write_attempt
cancelled_task-disconnected cfg key reason attempt now later db named stored running =
    let (kept, status) = cancel-stored attempt.task_id reason now db named stored running in
    (status, mark_disconnected_task-status _ later _ (rw (mark_disconnected_slot-tasks) kept))
