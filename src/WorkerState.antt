-- ===== src/WorkerState.antt =====
-- internal/comrad/manager_worker_state.go, and the slot states of
-- internal/comrad/manager_worker_messages.go: what a worker says of its node and slots, joined with
-- what the manager knows of them.
pub mod Merge
use comrad.Prelude.{
  String, Bool, true, false, not, ◌&&◌, ◌||◌, List, [], ◌∷◌, Option, none, some, lt64, eqb, Int64,
  ◌==◌, if◌then◌else◌,
}
use comrad.Prelude.Dict.{get_or, insert}
use comrad.Types.{
  Time, Node, Slot, SlotState, NodeState, Error, slot_not_found, slot_not_owned, is_ready,
  zero_slot, failure_quarantined, target_darwin_arm64_metal,
}
use comrad.Store.{Database}
use comrad.Fit.{is_nil, is_none}
use comrad.Flapping.{clear_expired_worker_suppression}
use comrad.Quarantine.{
  quarantine_expired, quarantine_expired_node, clear_slot_quarantine, clear_node_quarantine,
  release_slot, release_node,
}
use Prim.Native.String

abbrev pub or_else {ℓ} : {A : Type ℓ} → A → Option A → A
or_else a none = a
or_else a (some b) = b

-- A slice that may be nil is an `Option`; `fresh` is the id that `NewID` gives.
unfoldable pub normalize_worker_node :
    String → Node → String → Option (List String) → Option (List String) → Time → Node
normalize_worker_node fresh node session cached warm now = record node {
  id = if node.id == "" then fresh else node.id;
  last_seen = now;
  state = NodeState.online;
  connected_session = session;
  mode = if node.mode == "" then "reserved_always" else node.mode;
  target =
      if node.target == "" && node.os == "darwin" && node.arch == "arm64"
      then target_darwin_arm64_metal
      else node.target;
  cached_artifacts = or_else node.cached_artifacts cached;
  warm_profiles = or_else node.warm_profiles warm;
}

unfoldable pub merge_existing_node_config : Node → Node → Node
merge_existing_node_config node existing = record node {
  tags = if not (is_nil existing.tags) && is_nil node.tags then existing.tags else node.tags;
  mode = if not (existing.mode == "") && node.mode == "" then existing.mode else node.mode;
}

unfoldable pub copy_node_failure_state : Node → Node → Node
copy_node_failure_state node existing = record node {
  last_failure = existing.last_failure;
  last_failure_at = existing.last_failure_at;
  p2p = if is_none node.p2p then existing.p2p else node.p2p;
  quarantined = existing.quarantined;
  quarantine_reason = existing.quarantine_reason;
  quarantine_until = existing.quarantine_until;
  recent_flap_events = existing.recent_flap_events;
  warm_placement_suppressed = existing.warm_placement_suppressed;
  warm_placement_suppression_reason = existing.warm_placement_suppression_reason;
  warm_placement_suppression_until = existing.warm_placement_suppression_until;
}

unfoldable pub merge_existing_node : Node → Node → Bool → Time → Node
merge_existing_node node existing auto_approve now =
    let known =
      if existing.id == ""
      then node
      else copy_node_failure_state
          (merge_existing_node_config (record node { approved = existing.approved }) existing)
          existing in
    let settled = clear_expired_worker_suppression (release_node now known) now in
    record settled { approved = if auto_approve then true else settled.approved }

-- The empty state of a slot that says none.
abbrev pub is_unset : SlotState → Bool
is_unset (SlotState.other s) = s == ""
is_unset _ = false

abbrev pub first_adapter : List String → String → String
first_adapter [] adapter = adapter
first_adapter (a ∷ as') adapter = if adapter == "" then a else adapter

unfoldable pub normalize_worker_slot : Slot → Node → Slot
normalize_worker_slot slot node =
    let state = if is_unset slot.state then SlotState.idle else slot.state in
    record slot {
      id = if slot.id == "" then String.◌++◌ node.id "/slot0" else slot.id;
      node_id = node.id;
      target = if slot.target == "" then node.target else slot.target;
      runtime_adapter = first_adapter node.runtime_adapters slot.runtime_adapter;
      state = state;
      accepts_new = is_ready state;
    }

-- `if old != "" && new == "" { new = old }`.
abbrev pub kept : String → String → String
kept new old = if not (old == "") && new == "" then old else new

unfoldable pub merge_slot_profile_state : Slot → Slot → Slot
merge_slot_profile_state slot old = record slot {
  profile_id = kept slot.profile_id old.profile_id;
  profile_version =
      if not (eqb old.profile_version 0) && eqb slot.profile_version 0
      then old.profile_version
      else slot.profile_version;
  runtime_variant_id = kept slot.runtime_variant_id old.runtime_variant_id;
  logical_model = kept slot.logical_model old.logical_model;
  model_artifact_id = kept slot.model_artifact_id old.model_artifact_id;
  model_sha256 = kept slot.model_sha256 old.model_sha256;
}

unfoldable pub copy_slot_failure_state : Slot → Slot → Slot
copy_slot_failure_state slot old = record slot {
  failure_count = old.failure_count;
  failure_counters = old.failure_counters;
  last_failure = old.last_failure;
  last_failure_at = old.last_failure_at;
  quarantined = old.quarantined;
  quarantine_reason = old.quarantine_reason;
  quarantine_until = old.quarantine_until;
}

abbrev pub quarantine_text : String → String
quarantine_text reason = String.◌++◌ failure_quarantined (String.◌++◌ ": " reason)

unfoldable pub merge_existing_slot : Slot → Slot → Time → Slot
merge_existing_slot slot old now =
    let merged =
      release_slot now (copy_slot_failure_state (merge_slot_profile_state slot old) old) in
    if merged.quarantined
    then record merged {
      accepts_new = false;
      mismatch_reason = quarantine_text merged.quarantine_reason;
    }
    else merged

unfoldable pub upsert_worker_slots : Node → Time → List Slot → Database → Database
upsert_worker_slots node now [] db = db
upsert_worker_slots node now (given ∷ slots) db =
    let slot = normalize_worker_slot given node in
    let merged = merge_existing_slot slot (get_or zero_slot slot.id db.slots) now in
    upsert_worker_slots node now slots (record db { slots = insert merged.id merged db.slots })

pub record SlotStatePayload : Type 0 where
  pub slot_id : String
  pub state : SlotState
  pub profile_id : String
  pub profile_version : Int64
  pub logical_model : String
  pub runtime_variant_id : String
  pub model_artifact_id : String
  pub model_sha256 : String
  pub active_task_id : String
  pub mismatch_reason : String

abbrev pub given_or : String → String → String
given_or new old = if new == "" then old else new

unfoldable pub apply_slot_model_payload : Slot → SlotStatePayload → Slot
apply_slot_model_payload slot payload = record slot {
  profile_version =
      if lt64 0 payload.profile_version then payload.profile_version else slot.profile_version;
  logical_model = given_or payload.logical_model slot.logical_model;
  runtime_variant_id = given_or payload.runtime_variant_id slot.runtime_variant_id;
  model_artifact_id = given_or payload.model_artifact_id slot.model_artifact_id;
  model_sha256 = given_or payload.model_sha256 slot.model_sha256;
}

unfoldable pub apply_slot_state_payload : Time → Slot → SlotStatePayload → Slot
apply_slot_state_payload clock slot payload =
    record (apply_slot_model_payload
      (record slot { state = payload.state; profile_id = payload.profile_id }) payload) {
        active_task_id = payload.active_task_id;
        mismatch_reason =
            if slot.quarantined
            then quarantine_text slot.quarantine_reason
            else payload.mismatch_reason;
        accepts_new = is_ready payload.state && not slot.quarantined;
        last_ready = if is_ready payload.state then clock else slot.last_ready;
      }

unfoldable pub update_slot_state :
    Time → String → SlotStatePayload → Database → Database × Option Error
update_slot_state clock node_id payload db =
    let slot = get_or zero_slot payload.slot_id db.slots in
    let slot' = apply_slot_state_payload clock slot payload in
    if slot.id == ""
    then (db, some (slot_not_found payload.slot_id))
    else if not (slot.node_id == node_id)
    then (db, some (slot_not_owned payload.slot_id node_id))
    else (record db { slots = insert slot'.id slot' db.slots }, none)
