-- ===== src/Attempts/Guarded.antt =====
-- internal/comrad/manager_worker_messages.go and manager_worker_security.go: a worker changes its own
-- attempts only.
use comrad.Prelude.{
  ◌≡◌, ◌↔◌, refl, String, Bool, true, false, not, ◌&&◌, ◌||◌, Option, none, some, arith, ◌==◌,
  if◌then◌else◌,
}
use comrad.Prelude.Dict.{get_or}
use comrad.Types.{Time, ComputeReport, Error, zero_attempt}
use comrad.Store.{Database}
use comrad.Flapping.{ManagerConfig}
use comrad.Attempts.{
  AttemptFailedPayload, require_worker_attempt, with_attempt, handle_attempt_started,
  handle_attempt_lease, record_first_output, handle_attempt_failed,
}
use comrad.Attempts.Reports.{handle_compute_report}

-- The attempt is stored, is the worker's own, and is of the task that is named, where one is.
abbrev pub is_own : Database → String → String → String → Bool
is_own db node_id attempt_id task_id =
    let attempt = get_or zero_attempt attempt_id db.attempts in
    not (attempt_id == "")
    && not (attempt.id == "")
    && attempt.node_id == node_id
    && (task_id == "" || attempt.task_id == task_id)

-- A message is taken without an error exactly if it may be, and otherwise changes nothing.
abbrev pub IsGuarded : Bool → Database → Database × Option Error → Type 0
IsGuarded allowed db (after, err) =
    ((err ≡ none) ↔ (allowed ≡ true)) × (after ≡ (if allowed then after else db))

require_worker_attempt_iff :
    (db : Database) (node_id attempt_id task_id : String)
    → ((require_worker_attempt db node_id attempt_id task_id).1 ≡ none)
      ↔ (is_own db node_id attempt_id task_id ≡ true)
unfolding require_worker_attempt
require_worker_attempt_iff db node_id attempt_id task_id = ground arith

IsGuarded-by :
    (db written : Database) (err : Option Error) (allowed : Bool)
    → ((err ≡ none) ↔ (allowed ≡ true))
    → IsGuarded allowed db (with_attempt err db written)
unfolding with_attempt
IsGuarded-by db written none allowed same = (same, rw (same.0 refl) refl)
IsGuarded-by db written (some e) true same = absurd (ground (arith, same.1 refl))
IsGuarded-by db written (some e) false same = (same, refl)

with_attempt-IsGuarded :
    (db written : Database) (node_id attempt_id task_id : String)
    → IsGuarded
        (is_own db node_id attempt_id task_id)
        db
        (with_attempt (require_worker_attempt db node_id attempt_id task_id).1 db written)
with_attempt-IsGuarded db written node_id attempt_id task_id =
    IsGuarded-by db written (require_worker_attempt db node_id attempt_id task_id).1
      (is_own db node_id attempt_id task_id)
      (require_worker_attempt_iff db node_id attempt_id task_id)

-- Whatever a worker says of an attempt, that it started, that it lives, that it has its first output,
-- that it failed, or the report of it: the manager takes the message without an error exactly if the
-- attempt is stored, is the worker's own, and is of the task that is named, where one is. Otherwise the
-- whole database stays as it is, accounts and slots included.
pub worker_messages-IsGuarded :
    (cfg : ManagerConfig) (node_id attempt_id task_id fresh f g : String) (now : Time)
    (failure : AttemptFailedPayload) (report : ComputeReport) (db : Database)
    → let failed = record failure { attempt_id = attempt_id; task_id = task_id } in
      let reported = record report { attempt_id = attempt_id; task_id = task_id } in
      let own = is_own db node_id attempt_id task_id in
      IsGuarded own db (handle_attempt_started node_id attempt_id task_id db)
      × IsGuarded own db (handle_attempt_lease node_id attempt_id task_id now db)
      × IsGuarded own db (record_first_output node_id attempt_id task_id now db)
      × IsGuarded own db (handle_attempt_failed cfg node_id failed now db)
      × IsGuarded own db (handle_compute_report cfg fresh f g node_id reported now db)
unfolding handle_attempt_started handle_attempt_lease record_first_output handle_attempt_failed
    handle_compute_report
worker_messages-IsGuarded cfg node_id attempt_id task_id fresh f g now failure report db = (
  with_attempt-IsGuarded db _ node_id attempt_id task_id,
  with_attempt-IsGuarded db _ node_id attempt_id task_id,
  with_attempt-IsGuarded db _ node_id attempt_id task_id,
  with_attempt-IsGuarded db _ node_id attempt_id task_id,
  with_attempt-IsGuarded db _ node_id attempt_id task_id,
)
