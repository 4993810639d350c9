-- ===== src/Eviction/Targets.antt =====
-- internal/comrad/manager_cache_eviction.go: what is asked to be evicted is what nothing needs.
use comrad.Prelude.{
  ◌≡◌, refl, String, Bool, false, not, ◌&&◌, List, [], ◌∷◌, ◌++◌, arith, All, ◌==◌, if◌then◌else◌,
  Bool-cases, inl, inr,
}
use comrad.Prelude.Dict.{values}
use comrad.Prelude.Texts.{normalize_sha256}
use comrad.Types.{Node}
use comrad.Store.{Database}
use comrad.Eviction.{
  intent_keep, cache_intent_record, ArtifactEvictionTarget, stale_eviction_reason, must_stay,
  node_evictions, evictions_of_nodes, stale_artifact_evictions, desired_artifacts_by_node,
  eviction_busy_artifacts_by_node,
}
use comrad.Eviction.InUse.{is_desired, is_busy, marked-desired, marked-busy}

-- Nothing keeps the artifact on the node: no assignment, no update, no work and no administrator.
unfoldable pub is_evictable : Database → String → String → Bool
is_evictable db node artifact =
    not (artifact == "")
    && not (is_desired db node artifact)
    && not (is_busy db node artifact)
    && not ((cache_intent_record db node artifact).action == intent_keep)

-- The evictable ones of the artifacts that a node has cached.
unfoldable pub evictable_of : Database → String → List String → List ArtifactEvictionTarget
evictable_of db node [] = []
evictable_of db node (cached ∷ ids) =
    let artifact = normalize_sha256 cached in
    let rest = evictable_of db node ids in
    if is_evictable db node artifact
    then record {
      node_id = node;
      artifact_id = artifact;
      reason = stale_eviction_reason (cache_intent_record db node artifact);
    }
      ∷ rest
    else rest

unfoldable pub evictable_of_nodes : Database → List Node → List ArtifactEvictionTarget
evictable_of_nodes db [] = []
evictable_of_nodes db (node ∷ nodes) =
    evictable_of db node.id node.cached_artifacts ++ evictable_of_nodes db nodes

must_stay-not_evictable :
    (db : Database) (node artifact : String)
    → (node == "") ≡ false
    → must_stay db (desired_artifacts_by_node db) (eviction_busy_artifacts_by_node db) node artifact
      ≡ not (is_evictable db node artifact)
unfolding must_stay is_evictable
must_stay-not_evictable db node artifact named = elim (Bool-cases (artifact == "")) [
  | inl e ↦ ground (arith, e)
  | inr e ↦
      let desired = marked-desired node artifact named e db in
      let busy = marked-busy node artifact named e db in rw (e, desired, busy) (ground arith)
]

node_evictions_evictable :
    (db : Database) (node : String) (ids : List String)
    → (node == "") ≡ false
    → node_evictions db (desired_artifacts_by_node db) (eviction_busy_artifacts_by_node db) node ids
      ≡ evictable_of db node ids
unfolding node_evictions evictable_of
node_evictions_evictable db node [] named = refl
node_evictions_evictable db node (cached ∷ ids) named = ground (
  arith,
  must_stay-not_evictable db node (normalize_sha256 cached) named,
  node_evictions_evictable db node ids named,
)

evictions_of_nodes_evictable :
    (db : Database) (nodes : List Node)
    → All (λ (n : Node). n.id == "" ≡ false) nodes
    → evictions_of_nodes db
        (desired_artifacts_by_node db)
        (eviction_busy_artifacts_by_node db)
        nodes
      ≡ evictable_of_nodes db nodes
unfolding evictions_of_nodes evictable_of_nodes
evictions_of_nodes_evictable db [] named = refl
evictions_of_nodes_evictable db (node ∷ nodes) named =
    rw
      (
        node_evictions_evictable db node.id node.cached_artifacts named.0,
        evictions_of_nodes_evictable db nodes named.1,
      )
      refl

-- The manager asks the nodes, all with ids, to evict exactly the cached artifacts that nothing keeps
-- there: no assignment or update that wants them, no running attempt, serving slot or busy slot that
-- uses them, and no intent to keep them.
pub stale_artifact_evictions_evictable :
    (db : Database)
    → All (λ (n : Node). n.id == "" ≡ false) (values db.nodes)
    → stale_artifact_evictions db ≡ evictable_of_nodes db (values db.nodes)
unfolding stale_artifact_evictions
stale_artifact_evictions_evictable db named =
    evictions_of_nodes_evictable db (values db.nodes) named
