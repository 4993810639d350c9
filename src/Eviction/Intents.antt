-- ===== src/Eviction/Intents.antt =====
-- internal/comrad/manager_cache_eviction.go and manager_cache_eviction_state.go: what an
-- administrator wants with a cached artifact, the records of evictions, and what a worker says of an
-- artifact (`updateArtifactState` of manager_worker_messages.go). An id that NewID draws is an argument.
use comrad.Prelude.{
  String, Bool, true, false, not, ◌&&◌, ◌||◌, List, [], ◌∷◌, ◌++◌, Option, none, some, ◌==◌,
  if◌then◌else◌,
}
use comrad.Prelude.Dict.{get_or, has_key, insert, delete, values}
use comrad.Prelude.Sets.{contains}
use comrad.Prelude.Texts.{normalize_sha256, to_lower, trim_space}
use comrad.Types.{
  Time, ArtifactEvictionRecord, CacheIntentRecord, Error, after, zero_time, zero_node,
  zero_eviction, zero_intent, node_not_found, artifact_not_cached, artifact_in_use,
}
use comrad.Store.{Database, add_audit}
use comrad.Candidates.{contains_artifact_id}
use comrad.Eviction.{
  marked, desired_artifacts_by_node, eviction_busy_artifacts_by_node, cache_intent_id, intent_keep,
  intent_evict_when_idle,
}
use Prim.Native.String

unfoldable pub normalize_cache_artifact_action : String → String
normalize_cache_artifact_action action =
    let a = to_lower (trim_space action) in
    if a == intent_keep || a == "pin"
    then intent_keep
    else if a == "evict"
    then "evict"
    else if a == intent_evict_when_idle || a == "evictwhenidle"
    then intent_evict_when_idle
    else ""

unfoldable pub clear_cache_intent_record : String → String → Database → Database
clear_cache_intent_record node artifact db = record db {
  cache_intents = delete (cache_intent_id node artifact) db.cache_intents;
}

-- The intent of the key: the stored one, or a new one.
intent_for : String → String → String → Time → CacheIntentRecord → CacheIntentRecord
intent_for id node artifact now stored =
    if stored.id == ""
    then record {
      id = id;
      node_id = node;
      artifact_id = artifact;
      action = "";
      requested_at = now;
      updated_at = zero_time;
    }
    else stored

unfoldable pub intent_written : String → String → String → Time → Database → Database
unfolding intent_for
intent_written node artifact action now db =
    let id = cache_intent_id node artifact in
    let intent = intent_for id node artifact now (get_or zero_intent id db.cache_intents) in
    add_audit (String.◌++◌ "cache.intent." action) "admin" artifact now (record db {
      cache_intents =
          insert id (record intent { action = action; updated_at = now }) db.cache_intents;
    })

unfoldable pub record_cache_intent :
    String → String → String → Time → Database → Database × Option Error
record_cache_intent node_id artifact_id action now db =
    let artifact = normalize_sha256 artifact_id in
    if not (has_key node_id db.nodes)
    then (db, some node_not_found)
    else if not (contains_artifact_id (get_or zero_node node_id db.nodes).cached_artifacts artifact)
    then (db, some artifact_not_cached)
    else if action == ""
    then (clear_cache_intent_record node_id artifact db, none)
    else (intent_written node_id artifact action now db, none)

-- `validateManualArtifactEviction`, on its snapshot.
unfoldable pub validate_manual_artifact_eviction : Database → String → String → Option Error
validate_manual_artifact_eviction db node_id artifact =
    if not (has_key node_id db.nodes)
    then some node_not_found
    else if not (contains_artifact_id (get_or zero_node node_id db.nodes).cached_artifacts artifact)
    then some artifact_not_cached
    else if marked (desired_artifacts_by_node db) node_id artifact
        || marked (eviction_busy_artifacts_by_node db) node_id artifact
    then some (artifact_in_use artifact)
    else none

-- The loop of `latestArtifactEvictionID`, from the id and the time that it holds.
latest_from : String → String → String → Time → List ArtifactEvictionRecord → String
latest_from node artifact id at [] = id
latest_from node artifact id at (r ∷ records) =
    let skip = latest_from node artifact id at records in
    let take = latest_from node artifact r.id r.updated_at records in
    if not (r.node_id == node) || not (normalize_sha256 r.artifact_id == artifact)
    then skip
    else if id == "" || after r.updated_at at
    then take
    else skip

unfoldable pub latest_artifact_eviction_id : Database → String → String → String
unfolding latest_from
latest_artifact_eviction_id db node artifact =
    latest_from node artifact "" zero_time (values db.artifact_evictions)

-- The record to write: the latest one, or a new one.
eviction_for : String → String → String → Time → ArtifactEvictionRecord → ArtifactEvictionRecord
eviction_for fresh node artifact now stored =
    if stored.id == ""
    then record stored { id = fresh; node_id = node; artifact_id = artifact; requested_at = now }
    else stored

unfoldable pub upsert_artifact_eviction_record :
    String → String → String → String → String → String → Time → Database → Database
unfolding eviction_for
upsert_artifact_eviction_record fresh node artifact_id reason status failure now db =
    let artifact = normalize_sha256 artifact_id in
    let id = latest_artifact_eviction_id db node artifact in
    let base =
      eviction_for fresh node artifact now (get_or zero_eviction id db.artifact_evictions) in
    let written = record base {
      reason = if reason == "" then base.reason else reason;
      status = status;
      failure = failure;
      updated_at = now;
    } in
    if node == "" || artifact == ""
    then db
    else record db { artifact_evictions = insert written.id written db.artifact_evictions }

unfoldable pub eviction_status_for_artifact_state : String → String
eviction_status_for_artifact_state state =
    if state == "evicted" then "evicted" else if state == "evict_failed" then "failed" else ""

unfoldable pub remove_artifact_id : List String → String → List String
remove_artifact_id [] id = []
remove_artifact_id (item ∷ items) id =
    let rest = remove_artifact_id items id in
    if normalize_sha256 item == normalize_sha256 id then rest else item ∷ rest

pub record ArtifactStatePayload : Type 0 where
  pub artifact_id : String
  pub state : String
  pub sha256 : String
  pub error : String

abbrev pub evicted : String → String → String → ArtifactStatePayload
evicted artifact sha err = record {
  artifact_id = artifact;
  state = "evicted";
  sha256 = sha;
  error = err;
}

-- The cached artifacts of a node after a message.
unfoldable pub cached_after : ArtifactStatePayload → List String → List String
cached_after payload cached =
    let verified =
      if payload.state == "verified" && not (contains cached payload.artifact_id)
      then cached ++ payload.artifact_id ∷ []
      else cached in
    if payload.state == "evicted" then remove_artifact_id verified payload.artifact_id else verified

-- The callback of `updateArtifactState`.
unfoldable pub update_artifact_state :
    String → String → ArtifactStatePayload → Time → Database → Database
update_artifact_state fresh node_id payload now db =
    let stored = get_or zero_node node_id db.nodes in
    let node = record stored { cached_artifacts = cached_after payload stored.cached_artifacts } in
    let cleared =
      if payload.state == "evicted"
      then clear_cache_intent_record node_id payload.artifact_id db
      else db in
    let status = eviction_status_for_artifact_state payload.state in
    let recorded =
      if status == ""
      then cleared
      else upsert_artifact_eviction_record fresh node_id payload.artifact_id "" status payload.error
          now cleared in
    add_audit (String.◌++◌ "worker.artifact_" payload.state) "worker" payload.artifact_id now
      (record recorded { nodes = insert node.id node recorded.nodes })

-- What becomes of a message to a worker: no session, a full queue, or sent.
pub data Delivery : Type 0 where
  no_session queue_full sent : Delivery

-- `dispatchArtifactEviction`: what it records, and whether the worker was asked.
unfoldable pub dispatch_artifact_eviction :
    Delivery → String → String → String → String → Time → Database → Database × Bool
dispatch_artifact_eviction no_session fresh node artifact reason now db = (
  upsert_artifact_eviction_record fresh node artifact reason "blocked" "worker_offline" now db,
  false,
)
dispatch_artifact_eviction queue_full fresh node artifact reason now db = (
  upsert_artifact_eviction_record fresh node artifact reason "blocked" "worker_send_queue_full" now
      db,
  false,
)
dispatch_artifact_eviction sent fresh node artifact reason now db =
    (upsert_artifact_eviction_record fresh node artifact reason "queued" "" now db, true)

-- The answers of the handlers.
pub data CacheAnswer : Type 0 where
  cache_kept eviction_queued eviction_deferred worker_is_offline : CacheAnswer
  refused : Error → CacheAnswer

unfoldable pub handle_keep_cache_action : String → String → Time → Database → Database × CacheAnswer
handle_keep_cache_action node artifact now db =
    let (after, err) = record_cache_intent node artifact intent_keep now db in
    (after, elim err [ none ↦ cache_kept | some e ↦ refused e ])

-- Below the record of the intent.
unfoldable pub evict_answer :
    Option Error → Delivery → String → String → String → Time → Database → Database × CacheAnswer
evict_answer (some e) delivery fresh node artifact now db = (db, refused e)
evict_answer none delivery fresh node artifact now db =
    let (asked, delivered) =
      dispatch_artifact_eviction delivery fresh node artifact "admin_requested" now db in
    if delivered
    then (add_audit "artifact.evict_requested" "admin" artifact now asked, eviction_queued)
    else (asked, worker_is_offline)

unfoldable pub unless_in_use :
    Option Error → Database → Database × CacheAnswer → Database × CacheAnswer
unless_in_use none db answer = answer
unless_in_use (some e) db answer = (db, refused e)

-- Each handler calls `validateManualArtifactEviction` and the store one after the other; here nothing
-- comes between the calls.
unfoldable pub handle_evict_cache_action :
    Delivery → String → String → String → Time → Database → Database × CacheAnswer
unfolding evict_answer
handle_evict_cache_action delivery fresh node artifact now db =
    let cleared = record_cache_intent node artifact "" now db in
    unless_in_use (validate_manual_artifact_eviction db node artifact) db
      (evict_answer cleared.1 delivery fresh node artifact now cleared.0)

deferred_unless : Bool → CacheAnswer
deferred_unless true = eviction_queued
deferred_unless false = eviction_deferred

idle_answer :
    Option Error
    → Option Error
    → Delivery
    → String
    → String
    → String
    → Time
    → Database
    → Database × CacheAnswer
unfolding deferred_unless
idle_answer (some e) in_use delivery fresh node artifact now db = (db, refused e)
idle_answer none (some e) delivery fresh node artifact now db = (db, eviction_deferred)
idle_answer none none delivery fresh node artifact now db =
    let (asked, delivered) =
      dispatch_artifact_eviction delivery fresh node artifact "admin_requested_idle" now db in
    (asked, deferred_unless delivered)

unfoldable pub handle_evict_when_idle_cache_action :
    Delivery → String → String → String → Time → Database → Database × CacheAnswer
unfolding idle_answer
handle_evict_when_idle_cache_action delivery fresh node artifact now db =
    let (wanted, err) = record_cache_intent node artifact intent_evict_when_idle now db in
    idle_answer err (validate_manual_artifact_eviction wanted node artifact) delivery fresh node
      artifact now wanted
