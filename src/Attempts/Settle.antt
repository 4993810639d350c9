-- ===== src/Attempts/Settle.antt =====
-- internal/comrad/manager_worker_messages.go: the report of an attempt counts once.
use comrad.Prelude.{
  ℕ, ◌≡◌, refl, sym, subst, ◌∙◌, String, true, false, not, ◌&&◌, none, arith, ◌==◌, eq_iff,
  Bool-cases, Option-cases, inl, inr,
}
use comrad.Prelude.Dict.{get_or, has_key, insert, lookup-insert, has_key_of_lookup}
use comrad.Types.{Time, Slot, Attempt, ComputeReport, is_failed, zero_task}
use comrad.Store.{Database}
use comrad.Accounting.{
  apply_report_accounting, charge, priced, append_consumption_ledger, append_production_ledger,
  append_ledger_entry, apply_ledger_balance,
}
use comrad.Flapping.{ManagerConfig}
use comrad.Quarantine.{record_slot_failure, note_node_failure}
use comrad.Attempts.{require_worker_attempt, write_task, write_slot, write_attempt, with_attempt}
use comrad.Attempts.Reports.{
  apply_authoritative_report_fields, report_written, handle_compute_report, stamped,
}

accounting-reports :
    (f g : String) (clock : Time) (db : Database) (report : ComputeReport) (now : Time)
    → ((apply_report_accounting f g clock db report now).0.reports ≡ db.reports)
      × ((apply_report_accounting f g clock db report now).1.id ≡ report.id)
unfolding apply_report_accounting charge priced append_consumption_ledger append_production_ledger
    append_ledger_entry apply_ledger_balance
accounting-reports f g clock db report now = (ground arith, refl)

failure-reports :
    (db : Database) (slot : Slot) (reason : String) (now : Time) (threshold duration : ℕ)
    → (record_slot_failure db slot reason now threshold duration).0.reports ≡ db.reports
unfolding record_slot_failure note_node_failure
failure-reports db slot reason now threshold duration = ground arith

write_slot-reports : (p : Database × Slot) → (write_slot p).reports ≡ p.0.reports
unfolding write_slot
write_slot-reports (db, slot) = refl

report_written-has_key :
    (cfg : ManagerConfig) (f g : String) (given : ComputeReport) (attempt : Attempt) (now : Time)
    (db : Database)
    → has_key given.id (report_written cfg f g given attempt now db).reports ≡ true
unfolding report_written write_attempt write_task
report_written-has_key cfg f g given attempt now db =
    let charged = apply_report_accounting f g now db given now in
    let stored =
      has_key_of_lookup given.id (insert charged.1.id charged.1 charged.0.reports) charged.1 (
        ground (
          arith,
          lookup-insert charged.1.id given.id charged.1 charged.0.reports,
          eq_iff charged.1.id given.id,
          (accounting-reports f g now db given now).1,
        )) in
    elim (Bool-cases (is_failed charged.1.status && not (is_failed attempt.status))) [
      | inl e ↦ rw e (rw (write_slot-reports, failure-reports) stored)
      | inr e ↦ rw e (rw write_slot-reports stored)
    ]

known_report :
    (cfg : ManagerConfig) (fresh f g node_id : String) (given : ComputeReport) (now : Time)
    (db : Database)
    → has_key (stamped fresh now given).id db.reports ≡ true
    → (handle_compute_report cfg fresh f g node_id given now db).0 ≡ db
unfolding handle_compute_report with_attempt
known_report cfg fresh f g node_id given now db h =
    let r = stamped fresh now given in
    elim (Option-cases (require_worker_attempt db node_id r.attempt_id r.task_id).1) [
      | inl e ↦ rw (e, h) refl
      | inr (x, e) ↦ rw e refl
    ]

handled-has_key :
    (cfg : ManagerConfig) (fresh f g node_id : String) (given : ComputeReport) (now : Time)
    (db : Database)
    → (handle_compute_report cfg fresh f g node_id given now db).1 ≡ none
    → has_key
        (stamped fresh now given).id
        (handle_compute_report cfg fresh f g node_id given now db).0.reports
      ≡ true
unfolding handle_compute_report with_attempt apply_authoritative_report_fields
handled-has_key cfg fresh f g node_id given now db ok =
    let r = stamped fresh now given in
    let required = require_worker_attempt db node_id r.attempt_id r.task_id in
    let known =
      apply_authoritative_report_fields r required.0
        (get_or zero_task required.0.task_id db.tasks) in
    elim (Option-cases required.1) [
      | inl e ↦ elim (Bool-cases (has_key r.id db.reports)) [
        | inl k ↦ rw (e, k) k
        | inr k ↦ rw (e, k) (report_written-has_key cfg f g known required.0 now db)
      ]
      | inr (x, e) ↦ absurd (ground (arith, ok, e))
    ]

stamped-id :
    (fresh : String) (now : Time) (report : ComputeReport)
    → (report.id == "") ≡ false
    → (stamped fresh now report).id ≡ report.id
stamped-id fresh now report named = rw named refl

-- A report that has an id counts once: after it was handled without an error, a report with the same
-- id leaves the database as it is, whichever worker sends it and whenever.
pub handle_compute_report_once :
    (cfg : ManagerConfig) (fresh f g node_id : String) (given : ComputeReport) (now : Time)
    (db : Database)
    → (given.id == "") ≡ false
    → (handle_compute_report cfg fresh f g node_id given now db).1 ≡ none
    → (fresh' f' g' node_id' : String) (again : ComputeReport) (now' : Time) → again.id ≡ given.id
    → let after = (handle_compute_report cfg fresh f g node_id given now db).0 in
      (handle_compute_report cfg fresh' f' g' node_id' again now' after).0 ≡ after
handle_compute_report_once cfg fresh f g node_id given now db named ok fresh' f' g' node_id' again
      now' same =
    let id : (stamped fresh now given).id ≡ (stamped fresh' now' again).id =
      stamped-id fresh now given named
      ∙ sym same
      ∙ sym (stamped-id fresh' now' again (rw same named)) in
    known_report cfg fresh' f' g' node_id' again now' _ (
      subst
        (λ i. has_key i (handle_compute_report cfg fresh f g node_id given now db).0.reports ≡ true)
        id (handled-has_key cfg fresh f g node_id given now db ok))
