-- ===== src/Attempts/Reports.antt =====
-- internal/comrad/manager_worker_messages.go (`handleComputeReport`) and
-- internal/comrad/manager_worker_security.go: the report that ends an attempt.
use comrad.Prelude.{String, not, ◌&&◌, [], ◌∷◌, Option, none, some, eqb, ◌==◌, if◌then◌else◌}
use comrad.Prelude.Dict.{get_or, has_key, insert}
use comrad.Prelude.Sets.{append_unique}
use comrad.Types.{
  Time, Slot, SlotState, Task, TaskStatus, Attempt, ComputeReport, Error, is_completed, is_failed,
  zero_task, zero_slot,
}
use comrad.Store.{Database, add_audit}
use comrad.Accounting.{first_non_empty, first_non_zero, apply_report_accounting}
use comrad.Flapping.{ManagerConfig}
use comrad.Quarantine.{record_slot_failure}
use comrad.Attempts.{require_worker_attempt, write_task, write_slot, write_attempt, with_attempt}

unfoldable pub apply_authoritative_report_fields : ComputeReport → Attempt → Task → ComputeReport
apply_authoritative_report_fields report attempt task = record report {
  task_id = attempt.task_id;
  user_id = first_non_empty (attempt.user_id ∷ task.user_id ∷ []);
  node_id = attempt.node_id;
  slot_id = attempt.slot_id;
  profile_id = first_non_empty (attempt.profile_id ∷ task.profile_id ∷ []);
  profile_version = first_non_zero (attempt.profile_version ∷ task.profile_version ∷ []);
  logical_model = first_non_empty (attempt.logical_model ∷ task.logical_model ∷ []);
  runtime_variant_id = first_non_empty (attempt.runtime_variant_id ∷ task.runtime_variant_id ∷ []);
  runtime_adapter = attempt.runtime_adapter;
  compute_cost = first_non_zero (attempt.compute_cost ∷ task.compute_cost ∷ []);
}

-- The slot after a report: it is free, and ready if it still serves the report's profile.
unfoldable pub slot_after_report : ComputeReport → Slot → Slot
slot_after_report report slot =
    let own = slot.profile_id == report.profile_id in
    record slot {
      active_task_id = "";
      state = if own then SlotState.ready else SlotState.idle;
      accepts_new = own;
      mismatch_reason =
          if is_completed report.status && own
          then ""
          else if own
          then report.failure_reason
          else slot.mismatch_reason;
    }

unfoldable pub task_after_report : ComputeReport → Attempt → Time → Task → Task
task_after_report report attempt now task =
    let retry = is_failed report.status && report.can_retry && not attempt.first_output_sent in
    record task {
      failure_reason = report.failure_reason;
      updated_at = now;
      status = if retry then TaskStatus.queued else report.status;
      runtime_variant_id = if retry then "" else task.runtime_variant_id;
      completed_at = if retry then none else some now;
      failed_slots =
          if retry then append_unique task.failed_slots report.slot_id else task.failed_slots;
    }

-- The writes for a new report; `f` and `g` are the fresh ids of the ledger's entries.
unfoldable pub report_written :
    ManagerConfig → String → String → ComputeReport → Attempt → Time → Database → Database
report_written cfg f g given attempt now db =
    let (charged, report) = apply_report_accounting f g now db given now in
    let attempt' = record attempt {
      status = report.status;
      phase = report.phase;
      failure_reason = report.failure_reason;
      can_retry = report.can_retry;
      completed_at = some now;
    } in
    let db1 =
      write_attempt attempt.id attempt'
        (record charged { reports = insert report.id report charged.reports }) in
    let db2 =
      write_task (task_after_report report attempt now (get_or zero_task report.task_id db.tasks))
        db1 in
    let slot = slot_after_report report (get_or zero_slot report.slot_id db.slots) in
    let db3 = write_slot (
      if is_failed report.status && not (is_failed attempt.status)
      then record_slot_failure db2 slot report.failure_reason now cfg.quarantine_threshold
          cfg.quarantine_duration
      else (db2, slot)) in
    add_audit "attempt.compute_report" "worker" report.attempt_id now db3

abbrev pub stamped : String → Time → ComputeReport → ComputeReport
stamped fresh now report = record report {
  id = if report.id == "" then fresh else report.id;
  created_at = if eqb report.created_at 0 then now else report.created_at;
}

-- `handleComputeReport`, without the event to the waiting client and the planning that follows.
unfoldable pub handle_compute_report :
    ManagerConfig
    → String
    → String
    → String
    → String
    → ComputeReport
    → Time
    → Database
    → Database × Option Error
handle_compute_report cfg fresh f g node_id given now db =
    let report = stamped fresh now given in
    let (attempt, err) = require_worker_attempt db node_id report.attempt_id report.task_id in
    let known =
      apply_authoritative_report_fields report attempt
        (get_or zero_task attempt.task_id db.tasks) in
    with_attempt err db
      (if has_key report.id db.reports then db else report_written cfg f g known attempt now db)
