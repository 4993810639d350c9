-- ===== src/Scenarios/Work.antt =====
-- The theorems on slots, attempts and workers, applied.
use comrad.Prelude.{
  suc, ◌≡◌, ◌≢◌, ◌↔◌, ◌||◌, ◌&&◌, not, refl, inl, String, Bool, true, false, [], ◌∷◌, none, some,
  leb, ◌==◌, if◌then◌else◌,
}
use comrad.Prelude.Dict.{lookup, get_or, values}
use comrad.Prelude.Sets.{contains}
use comrad.Types.{
  Node, Slot, SlotState, TaskStatus, Attempt, zero_slot, zero_task, zero_profile, Time,
  WorkloadProfile, is_ready,
}
use comrad.Store.{Database}
use comrad.Candidates.{PlacementCandidate}
use comrad.Flapping.{record_worker_flap_event}
use comrad.Flapping.Window.{Recorded, record_worker_flap_event-Recorded}
use comrad.Quarantine.{record_slot_failure, quarantine_expired, quarantine_expired_node}
use comrad.Quarantine.Threshold.{banned_at, record_slot_failure_threshold}
use comrad.WorkerState.{
  SlotStatePayload, merge_existing_slot, normalize_worker_slot, merge_existing_node,
  update_slot_state,
}
use comrad.WorkerState.Merge.{
  merge_existing_slot-quarantine, merge_existing_node-admission, update_slot_state-owned,
}
use comrad.Capacity.{task_terminal}
use comrad.Attempts.{
  AttemptFailedPayload, reserve_attempt_in_db, require_worker_attempt, with_attempt,
  handle_attempt_started, handle_attempt_lease, record_first_output, handle_attempt_failed,
  mark_task_cancel_requested,
}
use comrad.Attempts.Reports.{handle_compute_report}
use comrad.Attempts.Disconnect.{fail_disconnected_attempt}
use comrad.Attempts.Guarded.{is_own, IsGuarded, worker_messages-IsGuarded}
use comrad.Attempts.Requeued.{cancelled_task-disconnected}
use comrad.Attempts.Reserve.{reserve_once}
use comrad.Attempts.Settle.{handle_compute_report_once}
use comrad.Scheduler.{
  select_ready_slot, failed_slots_for_task, ready_slot_candidates, ready_candidates_of,
  ready_variants, first_connected, slot_ready_for_profile,
}
use comrad.Prelude.Sort.{sort_stable, sort_insert}
use comrad.Prelude.Sets.{has_all}
use comrad.Prelude.Texts.{normalize_sha256, to_lower, trim_space}
use comrad.Profile.{
  normalize_variant, own_variant, effective_profile_for_variant, profile_runtime_variants,
  profile_version, profile_logical_model, concrete_model_artifact_id, concrete_model_sha256,
}
use comrad.Fit.{
  fit_profile_to_slot, fit_concrete, slot_profile_current, checked, check_node_admission,
  check_runtime_adapter, check_resources, check_llm_requirements, mark_if,
}
use comrad.Scheduler.Ready.{select_ready_slot-reserve}
use comrad.Prelude.Dict.{has_key}
use comrad.Security.{api_token_hash, authorize_worker_node}
use comrad.Security.Tokens.{authorize_worker_node-first}
use comrad.Scenarios.{
  site, config, gpu_node, ready_slot, queued_task, running_attempt, finished, embed_profile,
}

record_worker_flap_event-Recorded_example :
    Recorded "disconnect" 500 config gpu_node
      (record_worker_flap_event gpu_node "disconnect" 500 config)
record_worker_flap_event-Recorded_example =
    record_worker_flap_event-Recorded gpu_node "disconnect" 500 config refl

record_slot_failure_threshold_example :
    let after = (record_slot_failure site ready_slot "oom" 40 1 60).1 in
    let count = suc (get_or 0 "oom" ready_slot.failure_counters) in
    let reached = leb 1 count in
    (get_or 0 "oom" after.failure_counters ≡ count)
    × (after.quarantined ≡ (reached || ready_slot.quarantined))
    × (after.accepts_new ≡ (not reached && ready_slot.accepts_new))
    × ((reached && not (banned_at 40 after)) ≡ false)
record_slot_failure_threshold_example =
    record_slot_failure_threshold site ready_slot "oom" 40 1 60 "oom"

abbrev quarantined_slot : Slot
quarantined_slot = record ready_slot {
  quarantined = true;
  quarantine_reason = "oom";
  quarantine_until = some 100;
}

merge_existing_slot-quarantine_example :
    let slot =
      merge_existing_slot (normalize_worker_slot ready_slot gpu_node) quarantined_slot 50 in
    (slot.quarantined
      ≡ (quarantined_slot.quarantined && not (quarantine_expired 50 quarantined_slot)))
    × (slot.failure_counters ≡ quarantined_slot.failure_counters)
    × (slot.failure_count ≡ quarantined_slot.failure_count)
    × (slot.node_id ≡ gpu_node.id)
    × ((slot.quarantined && slot.accepts_new) ≡ false)
    × ((slot.accepts_new && not (is_ready slot.state)) ≡ false)
merge_existing_slot-quarantine_example =
    merge_existing_slot-quarantine ready_slot quarantined_slot gpu_node 50

abbrev pending_node : Node
pending_node = record gpu_node { approved = false; quarantined = true; quarantine_until = some 70 }

merge_existing_node-admission_example :
    let merged = merge_existing_node gpu_node pending_node false 50 in
    (merged.approved
      ≡ (false || (if pending_node.id == "" then gpu_node.approved else pending_node.approved)))
    × (merged.quarantined ≡ (
        if pending_node.id == ""
        then gpu_node.quarantined && not (quarantine_expired_node 50 gpu_node)
        else pending_node.quarantined && not (quarantine_expired_node 50 pending_node)))
merge_existing_node-admission_example = merge_existing_node-admission gpu_node pending_node false 50

abbrev says_ready : SlotStatePayload
says_ready = record {
  slot_id = "s1";
  state = SlotState.ready;
  profile_id = "p1";
  profile_version = 1;
  logical_model = "m";
  runtime_variant_id = "v1";
  model_artifact_id = "";
  model_sha256 = "";
  active_task_id = "";
  mismatch_reason = "";
}

update_slot_state-owned_example :
    let slot = get_or zero_slot "s1" site.slots in
    let after = update_slot_state 50 "n1" says_ready site in
    let owned = not (slot.id == "") && slot.node_id == "n1" in
    ((after.1 ≡ none) ↔ (owned ≡ true))
    × ((if owned then site else after.0) ≡ site)
    × ((get_or zero_slot slot.id after.0.slots).accepts_new ≡ (
        if owned
        then is_ready says_ready.state && not slot.quarantined
        else (get_or zero_slot slot.id site.slots).accepts_new))
update_slot_state-owned_example = update_slot_state-owned 50 "n1" says_ready site

abbrev working : Database
working = record site { attempts = ("a1", running_attempt) ∷ [] }

abbrev oom_failure : AttemptFailedPayload
oom_failure = record {
  task_id = "";
  attempt_id = "";
  phase = "runtime";
  failure_reason = "oom";
  can_retry = true;
  first_output_sent = false;
}

worker_messages-IsGuarded_example :
    let failed = record oom_failure { attempt_id = "a1"; task_id = "t1" } in
    let reported = record finished { attempt_id = "a1"; task_id = "t1" } in
    let own = is_own working "n1" "a1" "t1" in
    IsGuarded own working (handle_attempt_started "n1" "a1" "t1" working)
    × IsGuarded own working (handle_attempt_lease "n1" "a1" "t1" 60 working)
    × IsGuarded own working (record_first_output "n1" "a1" "t1" 60 working)
    × IsGuarded own working (handle_attempt_failed config "n1" failed 60 working)
    × IsGuarded own working (handle_compute_report config "r9" "f1" "g1" "n1" reported 60 working)
worker_messages-IsGuarded_example =
    worker_messages-IsGuarded config "n1" "a1" "t1" "r9" "f1" "g1" 60 oom_failure finished working

handle_compute_report_once_example :
    let after = (handle_compute_report config "r9" "f1" "g1" "n1" finished 60 working).0 in
    (handle_compute_report config "r8" "f2" "g2" "n1" finished 61 after).0 ≡ after
unfolding handle_compute_report require_worker_attempt with_attempt get_or lookup
handle_compute_report_once_example =
    handle_compute_report_once config "r9" "f1" "g1" "n1" finished 60 working refl refl "r8" "f2"
      "g2" "n1" finished 61 refl

abbrev busy_site : Database
busy_site = record working { tasks = ("t1", queued_task) ∷ [] }

cancelled_task-disconnected_example :
    let cancelled = mark_task_cancel_requested "t1" "cancelled_by_client" 55 busy_site in
    let after = fail_disconnected_attempt config "a1" running_attempt 60 cancelled in
    ((get_or zero_task "t1" cancelled.tasks).status ≡ TaskStatus.cancelled)
    × ((get_or zero_task "t1" after.tasks).status
        ≡ (if running_attempt.first_output_sent then TaskStatus.failed else TaskStatus.queued))
unfolding get_or lookup task_terminal
cancelled_task-disconnected_example =
    cancelled_task-disconnected config "a1" "cancelled_by_client" running_attempt 55 60 busy_site
      refl refl refl

abbrev effective_profile : WorkloadProfile
effective_profile = record embed_profile { runtime_variant_id = "v1" }

reserve_once_example :
    (reserve_attempt_in_db queued_task embed_profile effective_profile ready_slot running_attempt 51
      (reserve_attempt_in_db queued_task embed_profile effective_profile ready_slot running_attempt
        50 site).0).1
    ≢ none
unfolding reserve_attempt_in_db get_or lookup
reserve_once_example =
    reserve_once queued_task embed_profile effective_profile ready_slot running_attempt 50 site refl
      refl refl queued_task embed_profile effective_profile ready_slot running_attempt 51 (inl refl)

abbrev everywhere : String → Bool
everywhere n = true

abbrev picked : PlacementCandidate
picked =
    let v = normalize_variant effective_profile (own_variant effective_profile) in
    let effective = effective_profile_for_variant effective_profile v in
    record {
      slot = ready_slot;
      node = gpu_node;
      profile = zero_profile;
      effective = effective;
      fit = fit_profile_to_slot effective gpu_node ready_slot;
    }

ready_slot_picked : select_ready_slot everywhere site effective_profile "t1" ≡ some picked
unfolding select_ready_slot ready_slot_candidates ready_candidates_of ready_variants first_connected
    failed_slots_for_task slot_ready_for_profile contains sort_stable sort_insert
    fit_profile_to_slot profile_runtime_variants fit_concrete slot_profile_current
    effective_profile_for_variant normalize_variant checked check_node_admission
    check_runtime_adapter check_resources check_llm_requirements profile_version values get_or
    lookup profile_logical_model mark_if has_all concrete_model_artifact_id concrete_model_sha256
    normalize_sha256 to_lower trim_space
ready_slot_picked = refl

select_ready_slot-reserve_example :
    (everywhere "n1" ≡ true)
    × (contains (failed_slots_for_task site "t1") "s1" ≡ false)
    × ((attempt : Attempt) (now : Time)
        → (reserve_attempt_in_db queued_task effective_profile picked.effective ready_slot attempt
            now site).1
          ≡ none)
unfolding get_or lookup values
select_ready_slot-reserve_example =
    select_ready_slot-reserve everywhere site effective_profile queued_task picked (refl, tt) refl
      ready_slot_picked

-- A digest for the example: the text itself.
abbrev plain : String → String
plain s = s

authorize_worker_node-first_example :
    let given = authorize_worker_node plain "wnt_1" "" "n2" "" site in
    let later = authorize_worker_node plain "wnt_2" "" "n2" "wnt_1" given.0 in
    (given.1 ≡ "wnt_1")
    × (given.2 ≡ none)
    × ((later.2 ≡ none)
        ↔ (("" == "n2" || api_token_hash plain "wnt_1" == api_token_hash plain "wnt_1") ≡ true))
    × (later.0 ≡ given.0)
unfolding get_or lookup has_key
authorize_worker_node-first_example =
    authorize_worker_node-first plain "wnt_1" "" "n2" "" site refl refl refl "wnt_2" "" "wnt_1"
