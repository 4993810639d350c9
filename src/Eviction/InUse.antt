-- ===== src/Eviction/InUse.antt =====
-- internal/comrad/manager_cache_eviction.go: what the maps of desired and of busy artifacts say.
use comrad.Prelude.{
  ◌≡◌, refl, String, Bool, true, false, not, ◌&&◌, ◌||◌, List, [], ◌∷◌, Option, none, some, arith,
  any, ◌==◌, eq_iff, if◌then◌else◌,
}
use comrad.Prelude.Dict.{lookup, get_or, insert, values, get_or-insert}
use comrad.Prelude.Sets.{contains}
use comrad.Prelude.Texts.{normalize_sha256}
use comrad.Types.{
  Slot, Attempt, WorkloadProfile, PlacementAssignment, UpdateRecord, is_running, is_serving,
  zero_slot,
}
use comrad.Store.{Database}
use comrad.Profile.{profile_artifact_ids}
use comrad.Eviction.{
  Marks, marked, add_artifact, add_artifacts, add_profile_artifacts, add_known_artifacts,
  effective_if_known, mark_assignments, update_targets, mark_nodes, mark_updates,
  desired_artifacts_by_node, mark_attempts, mark_serving, active_artifacts_by_node,
  slot_busy_for_eviction, mark_busy, eviction_busy_artifacts_by_node,
}

-- One of the ids is the artifact's.
abbrev pub names : List String → String → Bool
names ids artifact = any (λ id. normalize_sha256 id == artifact) ids

abbrev pub names_of : Option WorkloadProfile → String → Bool
names_of none artifact = false
names_of (some profile) artifact = names (profile_artifact_ids profile) artifact

-- An assignment keeps the artifact cached on the node; an update brings it there.
unfoldable pub keeps_cached : Database → String → String → PlacementAssignment → Bool
keeps_cached db node artifact a =
    a.node_id == node
    && a.desired_cached
    && names_of (effective_if_known (lookup a.profile_id db.profiles) a) artifact

unfoldable pub brings : Database → String → String → UpdateRecord → Bool
brings db node artifact u =
    contains (update_targets db u) node && normalize_sha256 u.artifact_id == artifact

-- A running attempt, a serving slot and a busy slot use the artifact on the node.
unfoldable pub attempt_uses : Database → String → String → Attempt → Bool
attempt_uses db node artifact a =
    is_running a.status
    && a.node_id == node
    && (names_of (lookup a.profile_id db.profiles) artifact
        || normalize_sha256 (get_or zero_slot a.slot_id db.slots).model_artifact_id == artifact)

unfoldable pub slot_serves : String → String → Slot → Bool
slot_serves node artifact slot =
    is_serving slot.state
    && slot.node_id == node
    && normalize_sha256 slot.model_artifact_id == artifact

unfoldable pub slot_uses : Database → String → String → Slot → Bool
slot_uses db node artifact slot =
    slot_busy_for_eviction slot
    && slot.node_id == node
    && (normalize_sha256 slot.model_artifact_id == artifact
        || names_of (lookup slot.profile_id db.profiles) artifact)

unfoldable pub is_desired : Database → String → String → Bool
is_desired db node artifact =
    any (keeps_cached db node artifact) (values db.assignments)
    || any (brings db node artifact) (values db.updates)

unfoldable pub is_busy : Database → String → String → Bool
is_busy db node artifact =
    any (attempt_uses db node artifact) (values db.attempts)
    || any (slot_serves node artifact) (values db.slots)
    || any (slot_uses db node artifact) (values db.slots)

module _ (node artifact : String) (is_node : (node == "") ≡ false)
    (is_artifact : (artifact == "") ≡ false) where
  marked-add_artifact :
      (n id : String) (m : Marks)
      → marked (add_artifact n id m) node artifact
        ≡ (n == node && normalize_sha256 id == artifact || marked m node artifact)
  unfolding marked add_artifact
  marked-add_artifact n id m =
      let a = normalize_sha256 id in
      ground (
        arith,
        get_or-insert [] n node (insert a true (get_or [] n m)) m,
        get_or-insert false a artifact true (get_or [] n m),
        eq_iff n node,
        eq_iff n "",
        eq_iff a "",
        eq_iff a artifact,
        eq_iff node "",
        eq_iff artifact "",
      )

  marked-add_artifacts :
      (n : String) (ids : List String) (m : Marks)
      → marked (add_artifacts n ids m) node artifact
        ≡ (n == node && names ids artifact || marked m node artifact)
  unfolding add_artifacts
  marked-add_artifacts n [] m = ground arith
  marked-add_artifacts n (id ∷ ids) m =
      ground (arith, marked-add_artifact n id m, marked-add_artifacts n ids (add_artifact n id m))

  marked-add_known_artifacts :
      (n : String) (p : Option WorkloadProfile) (m : Marks)
      → marked (add_known_artifacts n p m) node artifact
        ≡ (n == node && names_of p artifact || marked m node artifact)
  unfolding add_known_artifacts add_profile_artifacts
  marked-add_known_artifacts n none m = ground arith
  marked-add_known_artifacts n (some p) m = marked-add_artifacts n (profile_artifact_ids p) m

  marked-mark_assignments :
      (db : Database) (list : List PlacementAssignment) (m : Marks)
      → marked (mark_assignments db list m) node artifact
        ≡ (any (keeps_cached db node artifact) list || marked m node artifact)
  unfolding mark_assignments keeps_cached
  marked-mark_assignments db [] m = refl
  marked-mark_assignments db (a ∷ rest) m =
      let profile = effective_if_known (lookup a.profile_id db.profiles) a in
      let next =
        if a.node_id == "" || not a.desired_cached
        then m
        else add_known_artifacts a.node_id profile m in
      let step : marked next node artifact
          ≡ (keeps_cached db node artifact a || marked m node artifact) =
        ground (
          arith,
          eq_iff a.node_id node,
          eq_iff a.node_id "",
          eq_iff node "",
          marked-add_known_artifacts a.node_id profile m,
        ) in
      ground (arith, step, marked-mark_assignments db rest next)

  marked-mark_nodes :
      (nodes : List String) (id : String) (m : Marks)
      → marked (mark_nodes nodes id m) node artifact
        ≡ (contains nodes node && normalize_sha256 id == artifact || marked m node artifact)
  unfolding mark_nodes contains
  marked-mark_nodes [] id m = ground arith
  marked-mark_nodes (n ∷ nodes) id m =
      ground (arith, marked-add_artifact n id m, marked-mark_nodes nodes id (add_artifact n id m))

  marked-mark_updates :
      (db : Database) (list : List UpdateRecord) (m : Marks)
      → marked (mark_updates db list m) node artifact
        ≡ (any (brings db node artifact) list || marked m node artifact)
  unfolding mark_updates brings
  marked-mark_updates db [] m = refl
  marked-mark_updates db (u ∷ rest) m =
      let next = mark_nodes (update_targets db u) u.artifact_id m in
      ground (
        arith,
        marked-mark_nodes (update_targets db u) u.artifact_id m,
        marked-mark_updates db rest next,
      )

  marked-mark_attempts :
      (db : Database) (list : List Attempt) (m : Marks)
      → marked (mark_attempts db list m) node artifact
        ≡ (any (attempt_uses db node artifact) list || marked m node artifact)
  unfolding mark_attempts attempt_uses
  marked-mark_attempts db [] m = refl
  marked-mark_attempts db (a ∷ rest) m =
      let slot = get_or zero_slot a.slot_id db.slots in
      let profile = lookup a.profile_id db.profiles in
      let known = add_known_artifacts a.node_id profile m in
      let next =
        if not (is_running a.status)
        then m
        else add_artifact a.node_id slot.model_artifact_id known in
      let step : marked next node artifact
          ≡ (attempt_uses db node artifact a || marked m node artifact) =
        ground (
          arith,
          marked-add_artifact a.node_id slot.model_artifact_id known,
          marked-add_known_artifacts a.node_id profile m,
        ) in
      ground (arith, step, marked-mark_attempts db rest next)

  marked-mark_serving :
      (list : List Slot) (m : Marks)
      → marked (mark_serving list m) node artifact
        ≡ (any (slot_serves node artifact) list || marked m node artifact)
  unfolding mark_serving slot_serves
  marked-mark_serving [] m = refl
  marked-mark_serving (slot ∷ rest) m =
      let next =
        if is_serving slot.state then add_artifact slot.node_id slot.model_artifact_id m else m in
      let step : marked next node artifact
          ≡ (slot_serves node artifact slot || marked m node artifact) =
        ground (arith, marked-add_artifact slot.node_id slot.model_artifact_id m) in
      ground (arith, step, marked-mark_serving rest next)

  marked-mark_busy :
      (db : Database) (list : List Slot) (m : Marks)
      → marked (mark_busy db list m) node artifact
        ≡ (any (slot_uses db node artifact) list || marked m node artifact)
  unfolding mark_busy slot_uses
  marked-mark_busy db [] m = refl
  marked-mark_busy db (slot ∷ rest) m =
      let profile = lookup slot.profile_id db.profiles in
      let own = add_artifact slot.node_id slot.model_artifact_id m in
      let next =
        if not (slot_busy_for_eviction slot)
        then m
        else add_known_artifacts slot.node_id profile own in
      let step : marked next node artifact
          ≡ (slot_uses db node artifact slot || marked m node artifact) =
        ground (
          arith,
          marked-add_artifact slot.node_id slot.model_artifact_id m,
          marked-add_known_artifacts slot.node_id profile own,
        ) in
      ground (arith, step, marked-mark_busy db rest next)

  pub marked-desired :
      (db : Database)
      → marked (desired_artifacts_by_node db) node artifact ≡ is_desired db node artifact
  unfolding desired_artifacts_by_node is_desired marked get_or lookup
  marked-desired db =
      let assigned = mark_assignments db (values db.assignments) [] in
      ground (
        arith,
        marked-mark_updates db (values db.updates) assigned,
        marked-mark_assignments db (values db.assignments) [],
      )

  pub marked-busy :
      (db : Database)
      → marked (eviction_busy_artifacts_by_node db) node artifact ≡ is_busy db node artifact
  unfolding eviction_busy_artifacts_by_node active_artifacts_by_node is_busy marked get_or lookup
  marked-busy db =
      let running = mark_attempts db (values db.attempts) [] in
      ground (
        arith,
        marked-mark_busy db (values db.slots) (mark_serving (values db.slots) running),
        marked-mark_serving (values db.slots) running,
        marked-mark_attempts db (values db.attempts) [],
      )
