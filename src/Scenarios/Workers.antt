-- ===== src/Scenarios/Workers.antt =====
-- The theorems on clients, bans and a worker's evictions, tasks and servers, applied.
use comrad.Prelude.{
  ◌-◌, ◌||◌, ◌≡◌, ◌≤◌, IsNatural, refl, suc, String, Bool, true, false, not, ◌&&◌, [], ◌∷◌, none,
  arith, ltb, ◌==◌, if◌then◌else◌,
}
use comrad.Prelude.Dict.{get_or, has_key, lookup, values}
use comrad.Prelude.Sets.{contains}
use comrad.Prelude.Texts.{normalize_sha256, to_lower, trim_space}
use comrad.Types.{
  SlotState, Task, zero_node, zero_slot, zero_user, zero_profile, is_ready, is_online,
}
use comrad.Store.{Database}
use comrad.Accounting.{ensure_sufficient_available_balance, pending_compute_cost, pending_of}
use comrad.Accounting.Conserved.{open_cost}
use comrad.Scheduler.{slot_ready_for_profile}
use comrad.Client.{store_new_task}
use comrad.Client.Covered.{store_new_task-covered}
use comrad.Admin.{unban}
use comrad.Admin.Unban.{unban-ready}
use comrad.Worker.{WorkerModel, assignment_key}
use comrad.Worker.Assignments.{runtime_server_ready}
use comrad.Worker.Restarts.{recover_runtime_slot, max_runtime_restart_attempts}
use comrad.Worker.Recovered.{is_started, recover_runtime_slot-bounded}
use comrad.Worker.Tasks.{ExecuteTaskPayload, RuntimeRun, RuntimeEnd, execute_task}
use comrad.Worker.Reported.{reports_of, execute_task_reports_once}
use comrad.Worker.Evict.{
  evict_artifact, evict_planned, plan_artifact_eviction, planned, plan_slots, slot_uses_artifact,
  evict_stopped, if_path,
}
use comrad.Worker.Evicted.{IsGone, evict_artifact-IsGone}
use comrad.Scenarios.{base, gpu_node, queued_task}

abbrev new_task : Task
new_task = record queued_task { id = "new"; user_id = "alice"; compute_cost = 4 }

abbrev funded : Database
funded = record base {
  users = ("alice", record zero_user { id = "alice"; compute_balance = 10 }) ∷ [];
  tasks = ("old", record queued_task { id = "old"; user_id = "alice"; compute_cost = 5 }) ∷ [];
}

store_new_task-covered_example :
    let after = (store_new_task new_task true funded).0 in
    let balance = (get_or zero_user "alice" after.users).compute_balance in
    IsNatural balance × (open_cost "alice" (values after.tasks) ≤ balance)
unfolding has_key open_cost values lookup get_or store_new_task ensure_sufficient_available_balance
    pending_compute_cost pending_of
store_new_task-covered_example =
    store_new_task-covered new_task funded refl refl (ground arith) (ground arith) (ground arith)
      (ground arith) refl

abbrev banned : Database
banned = record base {
  nodes = ("n1", record gpu_node { quarantined = true }) ∷ [];
  slots =
      (
        "s1",
        record zero_slot {
          id = "s1";
          node_id = "n1";
          state = SlotState.ready;
          profile_id = "chat";
          quarantined = true;
        },
      )
      ∷ [];
}

unban-ready_example :
    let (after, err) = unban "n1" "s1" 5 banned in
    let n = get_or zero_node "n1" banned.nodes in
    let s = get_or zero_slot "s1" banned.slots in
    (err ≡ none)
    × (slot_ready_for_profile
          (get_or zero_slot "s1" after.slots)
          (get_or zero_node "n1" after.nodes)
          s.profile_id
          []
        ≡ (is_ready s.state
            && s.active_task_id == ""
            && not (contains [] s.id)
            && is_online n.state
            && n.approved))
unfolding has_key lookup get_or
unban-ready_example = unban-ready "n1" "s1" 5 [] banned refl refl refl refl refl refl

abbrev warm_worker : WorkerModel
warm_worker = record {
  node = gpu_node;
  slots =
      (
        "s1",
        record zero_slot {
          id = "s1";
          state = SlotState.ready;
          profile_id = "chat";
          model_artifact_id = "sha256:a";
        },
      )
      ∷ [];
  assigns = [];
  cache = ("sha256:a", "/cache/a") ∷ [];
  warm = ("chat", record zero_profile { id = "chat"; artifacts = "sha256:a" ∷ [] }) ∷ [];
  active_assignments = [];
  assignment_failures = [];
  active = [];
  runtimes = ("s1", record { profile_key = "chat"; alive = true }) ∷ [];
  runtime_restarts = [];
  paused = false;
  outbox = [];
  offered = 0;
  is_full = λ n. false;
}

evict_artifact-IsGone_example :
    IsGone (normalize_sha256 "sha256:a") (evict_artifact none none "sha256:a" warm_worker).0
unfolding normalize_sha256 to_lower trim_space has_key lookup evict_artifact evict_planned
    plan_artifact_eviction planned plan_slots slot_uses_artifact evict_stopped if_path get_or
evict_artifact-IsGone_example =
    evict_artifact-IsGone none none "sha256:a" warm_worker refl (refl, tt) refl

abbrev chat_payload : ExecuteTaskPayload
chat_payload = record {
  task_id = "t1";
  attempt_id = "a1";
  slot_id = "s1";
  profile = record zero_profile { id = "chat" };
}

abbrev two_tokens : RuntimeRun
two_tokens = record { tokens = "hel" ∷ "lo" ∷ []; ending = RuntimeEnd.done }

-- Every file has its digest.
abbrev all_match : String → String → Bool
all_match path digest = true

execute_task_reports_once_example :
    let after = execute_task all_match "rep_1" 7 chat_payload two_tokens warm_worker in
    let lost = warm_worker.is_full (after.offered - 1) in
    (reports_of "a1" after.outbox ≡ (
      if has_key "a1" warm_worker.active || lost
      then reports_of "a1" warm_worker.outbox
      else suc (reports_of "a1" warm_worker.outbox)))
    × (has_key "a2" after.active ≡ has_key "a2" warm_worker.active)
execute_task_reports_once_example =
    execute_task_reports_once all_match "rep_1" 7 chat_payload two_tokens warm_worker "a2"

recover_runtime_slot-bounded_example :
    let used = get_or 0 "s1" warm_worker.runtime_restarts in
    let after =
      recover_runtime_slot false none "s1" chat_payload.profile "runtime_error" warm_worker in
    let restarts = ltb used max_runtime_restart_attempts in
    (get_or 0 "s1" after.runtime_restarts ≡ (if restarts then suc used else used))
    × (runtime_server_ready "s1" (assignment_key chat_payload.profile) after
        ≡ (restarts && is_started none))
    × ((get_or zero_slot "s1" after.slots).state
        ≡ (if restarts && is_started none then SlotState.ready else SlotState.error))
recover_runtime_slot-bounded_example =
    recover_runtime_slot-bounded none "s1" chat_payload.profile "runtime_error" warm_worker
