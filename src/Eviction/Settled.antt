-- ===== src/Eviction/Settled.antt =====
-- internal/comrad/manager_cache_eviction.go and manager_worker_messages.go: when the manager asks for
-- an eviction, and what is known once the worker has done it.
use comrad.Prelude.{
  ◌≡◌, ◌↔◌, refl, String, true, false, not, ◌&&◌, ◌||◌, List, [], ◌∷◌, arith, ◌==◌, eq_iff, eq_refl,
  if◌then◌else◌, Bool-cases, inl, inr,
}
use comrad.Prelude.Dict.{get_or, has_key, lookup-insert, lookup-delete}
use comrad.Prelude.Texts.{normalize_sha256}
use comrad.Types.{Time, zero_node, zero_intent}
use comrad.Store.{Database}
use comrad.Candidates.{contains_artifact_id}
use comrad.Eviction.{cache_intent_record, cache_intent_id}
use comrad.Eviction.InUse.{is_desired, is_busy, marked-desired, marked-busy}
use comrad.Eviction.Intents.{
  record_cache_intent, validate_manual_artifact_eviction, remove_artifact_id, evicted, cached_after,
  update_artifact_state, dispatch_artifact_eviction, clear_cache_intent_record,
  eviction_status_for_artifact_state, upsert_artifact_eviction_record, sent, eviction_queued,
  handle_evict_cache_action, evict_answer, unless_in_use,
}

contains-remove_artifact_id :
    (items : List String) (gone other : String)
    → contains_artifact_id (remove_artifact_id items gone) other
      ≡ (contains_artifact_id items other && not (normalize_sha256 gone == normalize_sha256 other))
unfolding contains_artifact_id remove_artifact_id
contains-remove_artifact_id [] gone other = refl
contains-remove_artifact_id (item ∷ items) gone other =
    let i = normalize_sha256 item in
    let g = normalize_sha256 gone in
    let o = normalize_sha256 other in
    ground (arith, contains-remove_artifact_id items gone other, eq_iff i g, eq_iff i o, eq_iff g o)

-- An administrator's eviction reaches the worker exactly if the node has the artifact cached and
-- neither an assignment or an update wants it nor work uses it there. The node has an id, the artifact
-- one in its normal form, and the worker's queue takes the message.
pub handle_evict_cache_action-queued :
    (fresh node artifact : String) (now : Time) (db : Database)
    → (node == "") ≡ false
    → (artifact == "") ≡ false
    → normalize_sha256 artifact ≡ artifact
    → ((handle_evict_cache_action sent fresh node artifact now db).1 ≡ eviction_queued) ↔ (
        (has_key node db.nodes
          && contains_artifact_id (get_or zero_node node db.nodes).cached_artifacts artifact
          && not (is_desired db node artifact)
          && not (is_busy db node artifact))
        ≡ true)
unfolding handle_evict_cache_action validate_manual_artifact_eviction record_cache_intent
    evict_answer dispatch_artifact_eviction unless_in_use
handle_evict_cache_action-queued fresh node artifact now db named text normal =
    let cached = contains_artifact_id (get_or zero_node node db.nodes).cached_artifacts artifact in
    let desired = marked-desired node artifact named text db in
    let busy = marked-busy node artifact named text db in
    rw normal (elim (Bool-cases (has_key node db.nodes)) [
      | inr e ↦ rw e (ground arith)
      | inl e ↦ elim (Bool-cases cached) [
        | inr c ↦ rw (e, c) (ground arith)
        | inl c ↦
            rw (e, c, desired, busy)
              (elim (Bool-cases (is_desired db node artifact || is_busy db node artifact)) [
                | inl u ↦ rw u (ground (arith, u))
                | inr u ↦ rw u (ground (arith, u))
              ])
      ]
    ])

-- The record of an eviction leaves the nodes and the intents.
upsert_artifact_eviction_record-nodes :
    (fresh node artifact reason status failure : String) (now : Time) (db : Database)
    → let after =
        upsert_artifact_eviction_record fresh node artifact reason status failure now db in
      (after.nodes ≡ db.nodes) × (after.cache_intents ≡ db.cache_intents)
unfolding upsert_artifact_eviction_record
upsert_artifact_eviction_record-nodes fresh node artifact reason status failure now db =
    elim (Bool-cases (node == "" || normalize_sha256 artifact == "")) [
      | inl e ↦ rw e (refl, refl)
      | inr e ↦ rw e (refl, refl)
    ]

-- A node is stored under its own id, and its worker says that an artifact is evicted. Then the manager
-- counts it as cached there no longer, and every other one as before; what an administrator wanted with
-- it is forgotten, and the other nodes are as they were.
pub update_artifact_state-evicted :
    (fresh node artifact sha err other other_node : String) (now : Time) (db : Database)
    → (get_or zero_node node db.nodes).id ≡ node
    → let after = update_artifact_state fresh node (evicted artifact sha err) now db in
      (contains_artifact_id (get_or zero_node node after.nodes).cached_artifacts other ≡ (
        contains_artifact_id (get_or zero_node node db.nodes).cached_artifacts other
        && not (normalize_sha256 artifact == normalize_sha256 other)))
      × (cache_intent_record after node artifact ≡ zero_intent)
      × (get_or zero_node other_node after.nodes ≡ (
          if node == other_node
          then get_or zero_node node after.nodes
          else get_or zero_node other_node db.nodes))
unfolding update_artifact_state cached_after cache_intent_record clear_cache_intent_record
    eviction_status_for_artifact_state get_or
update_artifact_state-evicted fresh node artifact sha err other other_node now db known =
    let stored = get_or zero_node node db.nodes in
    let cleared = clear_cache_intent_record node artifact db in
    let (nodes, intents) =
      upsert_artifact_eviction_record-nodes fresh node artifact "" "evicted" err now cleared in
    let next = record stored {
      id = node;
      cached_artifacts = remove_artifact_id stored.cached_artifacts artifact;
    } in
    let here = lookup-insert node node next db.nodes in
    let there = lookup-insert node other_node next db.nodes in
    let id = cache_intent_id node artifact in
    let forgotten = lookup-delete id id db.cache_intents in
    rw (nodes, intents, known)
      (rw (here, there, forgotten, eq_refl node, eq_refl id)
        (contains-remove_artifact_id stored.cached_artifacts artifact other, refl, ground arith))
