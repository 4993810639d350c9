-- ===== src/Accounting.antt =====
-- internal/comrad/compute_accounting.go, and the users and adjustments of
-- internal/comrad/manager_accounting_admin.go. Random ids and clock readings are arguments.
pub mod Books
pub mod Preserved
pub mod Users
pub mod Reports
pub mod Conserved
use comrad.Prelude.{
  String, Bool, true, false, not, ◌&&◌, ◌||◌, List, [], ◌∷◌, ◌++◌, Option, none, some, Int64, word,
  lt64, le64, add64, sub64, neg64, eqb, ◌==◌, if◌then◌else◌, any, keep,
}
use comrad.Prelude.Dict.{Dict, get_or, insert, lookup, has_key, values}
use comrad.Types.{
  Time, Direction, User, ComputeLedgerEntry, ComputeReport, WorkloadProfile, Task, Error,
  is_completed, is_queued, is_running, zero_user, zero_attempt, zero_task, zero_node,
  insufficient_balance, user_id_required, user_not_found, user_exists, amount_is_zero,
}
use comrad.Store.{Database, Change, add_audit}

unfoldable pub first_non_empty : List String → String
first_non_empty [] = ""
first_non_empty (v ∷ vs) = let rest = first_non_empty vs in if v == "" then rest else v

unfoldable pub first_non_zero : List Int64 → Int64
first_non_zero [] = 0
first_non_zero (v ∷ vs) = let rest = first_non_zero vs in if eqb v 0 then rest else v

-- The `if` on the direction: any other direction moves nothing.
unfoldable pub moved : Direction → Int64 → Int64 → Int64
moved Direction.debit balance amount = sub64 balance amount
moved Direction.credit balance amount = add64 balance amount
moved _ balance amount = balance

unfoldable pub apply_ledger_balance : Database → ComputeLedgerEntry → Database
apply_ledger_balance db entry =
    let user = get_or zero_user entry.user_id db.users in
    if user.id == "" then db else record db {
      users =
          insert user.id
            (record user {
              compute_balance = moved entry.direction user.compute_balance entry.amount;
            })
            db.users;
    }

-- `fresh` is the id that `NewID` gives, and `clock` the time that `time.Now` gives.
unfoldable pub append_ledger_entry : String → Time → Database → ComputeLedgerEntry → Database
append_ledger_entry fresh clock db entry =
    let entry' = record entry {
      id = if entry.id == "" then fresh else entry.id;
      created_at = if eqb entry.created_at 0 then clock else entry.created_at;
    } in
    apply_ledger_balance (record db { compute_ledger = db.compute_ledger ++ entry' ∷ [] }) entry'

unfoldable pub ledger_exists_for_report : List ComputeLedgerEntry → String → Bool
ledger_exists_for_report [] report = false
ledger_exists_for_report (entry ∷ rest) report =
    let later = ledger_exists_for_report rest report in
    if entry.report_id == report then true else later

abbrev report_entry :
    String → Direction → String → String → ComputeReport → Time → ComputeLedgerEntry
report_entry kind direction reason user report now = record {
  id = "";
  kind = kind;
  user_id = user;
  task_id = report.task_id;
  attempt_id = report.attempt_id;
  report_id = report.id;
  node_id = report.node_id;
  slot_id = report.slot_id;
  profile_id = report.profile_id;
  profile_version = report.profile_version;
  compute_cost = report.compute_cost;
  amount = report.compute_cost;
  direction = direction;
  reason = reason;
  created_at = now;
}

abbrev consumption_entry : ComputeReport → Time → ComputeLedgerEntry
consumption_entry report now =
    report_entry "consume_compute" Direction.debit "completed task" report.user_id report now

abbrev production_entry : String → ComputeReport → Time → ComputeLedgerEntry
production_entry owner report now =
    report_entry "produce_compute" Direction.credit "completed task on owned node" owner report now

unfoldable pub append_consumption_ledger :
    String → Time → Database → ComputeReport → Time → Database
append_consumption_ledger fresh clock db report now =
    if has_key report.user_id db.users
    then append_ledger_entry fresh clock db (consumption_entry report now)
    else db

unfoldable pub append_production_ledger : String → Time → Database → ComputeReport → Time → Database
append_production_ledger fresh clock db report now =
    let node = get_or zero_node report.node_id db.nodes in
    if node.owner_user_id == ""
    then db
    else if has_key node.owner_user_id db.users
    then append_ledger_entry fresh clock db (production_entry node.owner_user_id report now)
    else db

-- The report with the attempt's and the task's word for what was used.
unfoldable pub priced : Database → ComputeReport → ComputeReport
priced db report =
    let attempt = get_or zero_attempt report.attempt_id db.attempts in
    let task = get_or zero_task report.task_id db.tasks in
    record report {
      user_id = first_non_empty (attempt.user_id ∷ task.user_id ∷ report.user_id ∷ []);
      profile_version =
          first_non_zero
            (attempt.profile_version ∷ task.profile_version ∷ report.profile_version ∷ []);
      compute_cost =
          first_non_zero (attempt.compute_cost ∷ task.compute_cost ∷ report.compute_cost ∷ []);
    }

-- The charge of a priced report: `f` and `g` are the two entries' fresh ids.
unfoldable pub charge : String → String → Time → Database → ComputeReport → Time → Database
charge f g clock db report now =
    if is_completed report.status
      && lt64 0 report.compute_cost
      && not (ledger_exists_for_report db.compute_ledger report.id)
    then append_production_ledger g clock (append_consumption_ledger f clock db report now) report
        now
    else db

-- `applyReportAccounting`, which also fills in the report.
unfoldable pub apply_report_accounting :
    String → String → Time → Database → ComputeReport → Time → Database × ComputeReport
unfolding charge priced
apply_report_accounting f g clock db report now =
    (charge f g clock db (priced db report) now, priced db report)

unfoldable pub pending_of : String → List Task → Int64
pending_of user [] = 0
pending_of user (t ∷ ts) =
    let rest = pending_of user ts in
    if t.user_id == user && (is_queued t.status || is_running t.status)
    then add64 t.compute_cost rest
    else rest

unfoldable pub pending_compute_cost : Database → String → Int64
pending_compute_cost db user = pending_of user (values db.tasks)

unfoldable pub ensure_sufficient_available_balance : Database → String → Int64 → Bool → Option Error
ensure_sufficient_available_balance db user cost enforce =
    let current = get_or zero_user user db.users in
    if not enforce || le64 cost 0
    then none
    else if lt64 (sub64 current.compute_balance (pending_compute_cost db user)) cost
    then some insufficient_balance
    else none

unfoldable pub ensure_sufficient_balance : Database → User → WorkloadProfile → Bool → Option Error
unfolding ensure_sufficient_available_balance
ensure_sufficient_balance db user profile enforce =
    ensure_sufficient_available_balance db user.id profile.compute_cost enforce

pub record AdminBalanceAdjustmentRequest : Type 0 where
  pub user_id : String
  pub amount : Int64
  pub reason : String

-- `adminAdjustmentEntry`, in the order of its checks.
unfoldable pub admin_adjustment_entry :
    AdminBalanceAdjustmentRequest → Time → ComputeLedgerEntry × Option Error
admin_adjustment_entry req now =
    let negative = lt64 req.amount 0 in
    let entry : ComputeLedgerEntry = record {
      id = "";
      kind = "admin_adjustment";
      user_id = req.user_id;
      task_id = "";
      attempt_id = "";
      report_id = "";
      node_id = "";
      slot_id = "";
      profile_id = "";
      profile_version = 0;
      compute_cost = 0;
      amount = if negative then neg64 req.amount else req.amount;
      direction = if negative then Direction.debit else Direction.credit;
      reason = if req.reason == "" then "admin adjustment" else req.reason;
      created_at = now;
    } in
    if req.user_id == ""
    then (entry, some user_id_required)
    else if eqb req.amount 0
    then (entry, some amount_is_zero)
    else (entry, none)

unfoldable pub store_admin_adjustment : String → Time → ComputeLedgerEntry → Change
store_admin_adjustment fresh clock entry db =
    if has_key entry.user_id db.users
    then (
      add_audit "compute.admin_adjustment" "admin" entry.user_id entry.created_at
          (append_ledger_entry fresh clock db entry),
      none,
    )
    else (db, some (user_not_found entry.user_id))

pub record CreateUserRequest : Type 0 where
  pub id : String
  pub name : String

-- `newUser`: the id and the name are never empty, since `NewID` never gives an empty text.
unfoldable pub new_user : String → Time → CreateUserRequest → User
new_user fresh now req =
    let id = if req.id == "" then fresh else req.id in
    record {
      id = id;
      name = if req.name == "" then id else req.name;
      compute_balance = 0;
      disabled = false;
      created_at = now;
    }

-- The update of `handleAdminUserCreate`.
unfoldable pub create_user : User → Change
create_user user db = if has_key user.id db.users then (db, some (user_exists user.id)) else (
  add_audit "user.created" "admin" user.id user.created_at
      (record db { users = insert user.id user db.users }),
  none,
)

pub record UpdateUserRequest : Type 0 where
  pub id : String
  pub name : String
  pub disabled : Bool

updated_user : UpdateUserRequest → Time → Database → Option User → Database × Option Error
updated_user req now db none = (db, some (user_not_found req.id))
updated_user req now db (some user) =
    let user' = record user {
      name = if req.name == "" then user.name else req.name;
      disabled = req.disabled;
    } in
    (
      add_audit "user.updated" "admin" user'.id now
          (record db { users = insert user'.id user' db.users }),
      none,
    )

unfoldable pub update_user : UpdateUserRequest → Time → Change
unfolding updated_user
update_user req now db =
    if req.id == ""
    then (db, some user_id_required)
    else updated_user req now db (lookup req.id db.users)
