-- ===== src/Attempts/Disconnect.antt =====
-- internal/comrad/manager_ws.go: what a worker's disconnect does to its node, slots and attempts.
use comrad.Prelude.{String, false, not, ◌&&◌, ◌||◌, [], ◌∷◌, some, ◌==◌, if◌then◌else◌}
use comrad.Prelude.Dict.{Dict, get_or, insert, map_values}
use comrad.Types.{
  Time, Node, NodeState, SlotState, TaskStatus, Attempt, is_running, is_serving, zero_task,
  zero_slot, zero_node, failure_worker_disconnected,
}
use comrad.Store.{Database, add_audit}
use comrad.Flapping.{ManagerConfig, record_worker_flap_event}
use comrad.Quarantine.{record_slot_failure}
use comrad.Attempts.{task_after_failure, write_task, write_slot, write_attempt}

unfoldable pub mark_disconnected_node : Node → Database → Database
mark_disconnected_node node db =
    let gone = record node { state = NodeState.offline; connected_session = "" } in
    record db {
      nodes = insert gone.id gone db.nodes;
      slots =
          map_values
            (λ slot.
              if slot.node_id == gone.id && not (is_serving slot.state)
              then record slot {
                state = SlotState.unavailable;
                accepts_new = false;
                mismatch_reason = failure_worker_disconnected;
              }
              else slot)
            db.slots;
    }

unfoldable pub mark_disconnected_slot : ManagerConfig → Attempt → Time → Database → Database
mark_disconnected_slot cfg attempt now db =
    let slot = record (get_or zero_slot attempt.slot_id db.slots) {
      active_task_id = "";
      accepts_new = false;
      state = SlotState.unavailable;
      mismatch_reason = failure_worker_disconnected;
    } in
    write_slot (
      record_slot_failure db slot failure_worker_disconnected now cfg.quarantine_threshold
        cfg.quarantine_duration)

unfoldable pub mark_disconnected_task : Attempt → Time → Database → Database
mark_disconnected_task attempt now db =
    write_task
      (task_after_failure (not attempt.first_output_sent) failure_worker_disconnected
        attempt.slot_id now (get_or zero_task attempt.task_id db.tasks))
      db

unfoldable pub fail_disconnected_attempt :
    ManagerConfig → String → Attempt → Time → Database → Database
fail_disconnected_attempt cfg id attempt now db =
    let failed = record attempt {
      status = TaskStatus.failed;
      phase = failure_worker_disconnected;
      failure_reason = failure_worker_disconnected;
      can_retry = not attempt.first_output_sent;
      completed_at = some now;
    } in
    mark_disconnected_task failed now
      (mark_disconnected_slot cfg failed now (write_attempt id failed db))

unfoldable pub fail_attempts_of : ManagerConfig → String → Time → Dict Attempt → Database → Database
fail_attempts_of cfg node_id now [] db = db
fail_attempts_of cfg node_id now ((id, attempt) ∷ attempts) db =
    fail_attempts_of cfg node_id now attempts (
      if not (attempt.node_id == node_id) || not (is_running attempt.status)
      then db
      else fail_disconnected_attempt cfg id attempt now db)

-- `failRunningAttempts`, without the payloads that it hands to the waiting clients.
unfoldable pub fail_running_attempts :
    ManagerConfig → String → String → String → Time → Database → Database
fail_running_attempts cfg node_id session event now db =
    let node = get_or zero_node node_id db.nodes in
    let marked =
      if node.connected_session == session || node.connected_session == ""
      then mark_disconnected_node (record_worker_flap_event node event now cfg) db
      else db in
    add_audit "worker.disconnected" "worker" node_id now
      (fail_attempts_of cfg node_id now marked.attempts marked)
