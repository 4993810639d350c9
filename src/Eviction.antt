-- ===== src/Eviction.antt =====
-- internal/comrad/manager_cache_eviction.go: which cached artifacts the manager asks workers to
-- evict. Go's `map[string]map[string]bool` is a map of maps; a range over it is never made.
pub mod Intents
pub mod InUse
pub mod Targets
pub mod Settled
use comrad.Prelude.{
  String, Bool, true, false, not, ◌&&◌, ◌||◌, List, [], ◌∷◌, ◌++◌, Option, none, some, ◌==◌,
  if◌then◌else◌,
}
use comrad.Prelude.Dict.{Dict, lookup, get_or, insert, values}
use comrad.Prelude.Texts.{normalize_sha256, replace_separators}
use comrad.Types.{
  Node, Slot, SlotState, Attempt, WorkloadProfile, PlacementAssignment, UpdateRecord,
  CacheIntentRecord, is_running, is_serving, zero_slot, zero_intent,
}
use comrad.Store.{Database}
use comrad.Profile.{profile_artifact_ids, effective_profile_for_assignment}
use Prim.Native.String

abbrev pub intent_keep : String
intent_keep = "keep"

abbrev pub intent_evict_when_idle : String
intent_evict_when_idle = "evict_when_idle"

-- The artifacts marked on each node.
abbrev pub Marks : Type 0
Marks = Dict (Dict Bool)

-- `marks[node][artifact]`.
unfoldable pub marked : Marks → String → String → Bool
marked marks node artifact = get_or false artifact (get_or [] node marks)

unfoldable pub add_artifact : String → String → Marks → Marks
add_artifact node artifact_id marks =
    let artifact = normalize_sha256 artifact_id in
    if node == "" || artifact == ""
    then marks
    else insert node (insert artifact true (get_or [] node marks)) marks

unfoldable pub add_artifacts : String → List String → Marks → Marks
add_artifacts node [] marks = marks
add_artifacts node (id ∷ ids) marks = add_artifacts node ids (add_artifact node id marks)

unfoldable pub add_profile_artifacts : String → WorkloadProfile → Marks → Marks
add_profile_artifacts node profile marks = add_artifacts node (profile_artifact_ids profile) marks

-- The artifacts of a profile, if it is there.
unfoldable pub add_known_artifacts : String → Option WorkloadProfile → Marks → Marks
add_known_artifacts node none marks = marks
add_known_artifacts node (some profile) marks = add_profile_artifacts node profile marks

unfoldable pub effective_if_known :
    Option WorkloadProfile → PlacementAssignment → Option WorkloadProfile
effective_if_known none assignment = none
effective_if_known (some profile) assignment =
    some (effective_profile_for_assignment profile assignment)

-- The loops of `desiredArtifactsByNode`.
unfoldable pub mark_assignments : Database → List PlacementAssignment → Marks → Marks
mark_assignments db [] marks = marks
mark_assignments db (a ∷ assignments) marks = mark_assignments db assignments (
    if a.node_id == "" || not a.desired_cached
    then marks
    else add_known_artifacts a.node_id (effective_if_known (lookup a.profile_id db.profiles) a)
        marks)

keys {ℓ} : {V : Type ℓ} → Dict V → List String
keys [] = []
keys ((k, v) ∷ m) = k ∷ keys m

unfoldable pub update_targets : Database → UpdateRecord → List String
unfolding keys
update_targets db update = elim update.target_nodes [ [] ↦ keys db.nodes | x ∷ xs ↦ x ∷ xs ]

unfoldable pub mark_nodes : List String → String → Marks → Marks
mark_nodes [] artifact marks = marks
mark_nodes (node ∷ nodes) artifact marks =
    mark_nodes nodes artifact (add_artifact node artifact marks)

unfoldable pub mark_updates : Database → List UpdateRecord → Marks → Marks
mark_updates db [] marks = marks
mark_updates db (u ∷ updates) marks =
    mark_updates db updates (mark_nodes (update_targets db u) u.artifact_id marks)

unfoldable pub desired_artifacts_by_node : Database → Marks
desired_artifacts_by_node db =
    mark_updates db (values db.updates) (mark_assignments db (values db.assignments) [])

-- The loops of `activeArtifactsByNode`.
unfoldable pub mark_attempts : Database → List Attempt → Marks → Marks
mark_attempts db [] marks = marks
mark_attempts db (a ∷ attempts) marks =
    let slot = get_or zero_slot a.slot_id db.slots in
    mark_attempts db attempts (
      if not (is_running a.status)
      then marks
      else add_artifact a.node_id slot.model_artifact_id
          (add_known_artifacts a.node_id (lookup a.profile_id db.profiles) marks))

unfoldable pub mark_serving : List Slot → Marks → Marks
mark_serving [] marks = marks
mark_serving (slot ∷ slots) marks = mark_serving slots (
    if is_serving slot.state then add_artifact slot.node_id slot.model_artifact_id marks else marks)

unfoldable pub active_artifacts_by_node : Database → Marks
active_artifacts_by_node db =
    mark_serving (values db.slots) (mark_attempts db (values db.attempts) [])

state_busy : SlotState → Bool
state_busy SlotState.downloading = true
state_busy SlotState.loading = true
state_busy SlotState.warming = true
state_busy SlotState.serving = true
state_busy _ = false

unfoldable pub slot_busy_for_eviction : Slot → Bool
unfolding state_busy
slot_busy_for_eviction slot =
    if not (slot.active_task_id == "") then true else state_busy slot.state

unfoldable pub mark_busy : Database → List Slot → Marks → Marks
mark_busy db [] marks = marks
mark_busy db (slot ∷ slots) marks = mark_busy db slots (
    if not (slot_busy_for_eviction slot)
    then marks
    else add_known_artifacts slot.node_id (lookup slot.profile_id db.profiles)
        (add_artifact slot.node_id slot.model_artifact_id marks))

unfoldable pub eviction_busy_artifacts_by_node : Database → Marks
eviction_busy_artifacts_by_node db = mark_busy db (values db.slots) (active_artifacts_by_node db)

unfoldable pub cache_intent_id : String → String → String
cache_intent_id node artifact =
    replace_separators (String.◌++◌ node (String.◌++◌ "_" (normalize_sha256 artifact)))

unfoldable pub cache_intent_record : Database → String → String → CacheIntentRecord
cache_intent_record db node artifact =
    get_or zero_intent (cache_intent_id node artifact) db.cache_intents

pub record ArtifactEvictionTarget : Type 0 where
  pub node_id : String
  pub artifact_id : String
  pub reason : String

unfoldable pub stale_eviction_reason : CacheIntentRecord → String
stale_eviction_reason intent =
    if intent.action == intent_evict_when_idle then "admin_requested_idle" else ""

-- The artifact may not be evicted from the node on the manager's own account.
unfoldable pub must_stay : Database → Marks → Marks → String → String → Bool
must_stay db allowed busy node artifact =
    artifact == ""
    || marked allowed node artifact
    || marked busy node artifact
    || (cache_intent_record db node artifact).action == intent_keep

unfoldable pub node_evictions :
    Database → Marks → Marks → String → List String → List ArtifactEvictionTarget
node_evictions db allowed busy node [] = []
node_evictions db allowed busy node (cached ∷ ids) =
    let artifact = normalize_sha256 cached in
    let rest = node_evictions db allowed busy node ids in
    if must_stay db allowed busy node artifact
    then rest
    else record {
      node_id = node;
      artifact_id = artifact;
      reason = stale_eviction_reason (cache_intent_record db node artifact);
    }
      ∷ rest

unfoldable pub evictions_of_nodes :
    Database → Marks → Marks → List Node → List ArtifactEvictionTarget
evictions_of_nodes db allowed busy [] = []
evictions_of_nodes db allowed busy (node ∷ nodes) =
    node_evictions db allowed busy node.id node.cached_artifacts
    ++ evictions_of_nodes db allowed busy nodes

unfoldable pub stale_artifact_evictions : Database → List ArtifactEvictionTarget
stale_artifact_evictions db =
    evictions_of_nodes db (desired_artifacts_by_node db) (eviction_busy_artifacts_by_node db)
      (values db.nodes)
