-- ===== src/Catalog.antt =====
-- What an administrator keeps in the catalog, each operation the callback of its `store.Update`:
-- profiles and policies (internal/comrad/manager_admin.go, manager_profile_delete.go and
-- `setProfileComputeCost` of manager_accounting_admin.go), artifacts
-- (internal/comrad/manager_artifact_admin.go) and software updates (manager_admin.go).
pub mod References
pub mod Launch
pub mod Removal
use comrad.Prelude.{
  String, Bool, true, false, not, ◌&&◌, ◌||◌, List, [], ◌∷◌, Option, none, some, Int64, add64, eqb,
  lt64, map, any, ◌==◌, if◌then◌else◌,
}
use comrad.Prelude.Dict.{
  Dict, lookup, get_or, has_key, insert, delete, delete_where, values, or_zero,
}
use comrad.Prelude.Sets.{contains}
use comrad.Prelude.Texts.{normalize_sha256}
use comrad.Types.{
  Time, Node, Artifact, UpdateRecord, WorkloadProfile, PlacementPolicy, PlacementAssignment, Task,
  Attempt, Error, is_queued, is_running, is_negative, artifact_not_found, artifact_is_gone,
  artifact_in_use, artifact_sha_mismatch, profile_missing, profile_not_found, profile_in_use,
  zero_artifact, zero_profile, zero_node,
}
use comrad.Store.{Database, add_audit}
use comrad.Profile.{profile_logical_model, normalize_variant, profile_artifact_ids}
use comrad.Capacity.{validate_placement_policy}
use comrad.ProfileConfig.{validate_workload_profile_runtime, first_error}

abbrev or_text : String → String → String
or_text s d = if s == "" then d else s

-- `normalizeProfile`: each assignment of the code sees the ones before it.
unfoldable pub normalize_profile : WorkloadProfile → WorkloadProfile
normalize_profile profile =
    let named = or_text profile.name profile.id in
    let headed = record profile {
      version = if eqb profile.version 0 then 1 else profile.version;
      name = named;
      alias = or_text profile.alias named;
    } in
    let modelled = record headed { logical_model = profile_logical_model headed } in
    record modelled { runtime_variants = map (normalize_variant modelled) profile.runtime_variants }

-- The first artifact that is not registered.
unfoldable pub missing_artifact : Dict Artifact → List String → Option Error
missing_artifact artifacts [] = none
missing_artifact artifacts (id ∷ ids) =
    let rest = missing_artifact artifacts ids in
    if has_key id artifacts then rest else some (artifact_not_found id)

-- The profile that replaces the stored one, if there is one.
succeeding : Option WorkloadProfile → WorkloadProfile → WorkloadProfile
succeeding none profile = profile
succeeding (some old) profile = record profile {
  created_at = old.created_at;
  version = add64 old.version 1;
}

unfoldable pub profile_written : WorkloadProfile → Time → Database → Database
unfolding succeeding
profile_written profile now db =
    let next = succeeding (lookup profile.id db.profiles) profile in
    let versioned = record next { version = if eqb next.version 0 then 1 else next.version } in
    add_audit "profile.upserted" "admin" profile.id now
      (record db { profiles = insert profile.id versioned db.profiles })

-- The database as it is, with the error, or the one that is written.
unfoldable pub unless_error : Option Error → Database → Database → Database × Option Error
unless_error none db written = (written, none)
unless_error (some e) db written = (db, some e)

-- What `upsertProfile` refuses.
unfoldable pub profile_refusal : WorkloadProfile → Database → Option Error
profile_refusal profile db =
    first_error (if lt64 profile.compute_cost 0 then some (is_negative "computeCost") else none) (
      first_error (validate_workload_profile_runtime profile)
        (missing_artifact db.artifacts (profile_artifact_ids profile)))

unfoldable pub upsert_profile : WorkloadProfile → Time → Database → Database × Option Error
upsert_profile profile now db =
    unless_error (profile_refusal profile db) db (profile_written profile now db)

unfoldable pub set_profile_compute_cost : String → Int64 → Time → Database → Database × Option Error
set_profile_compute_cost profile_id cost now db =
    let profile = get_or zero_profile profile_id db.profiles in
    let priced = record profile { compute_cost = cost; version = add64 profile.version 1 } in
    unless_error
      (first_error
        (if has_key profile_id db.profiles then none else some (profile_missing profile_id))
        (if lt64 cost 0 then some (is_negative "computeCost") else none))
      db
      (add_audit "profile.compute_cost.updated" "admin" priced.id now
        (record db { profiles = insert priced.id priced db.profiles }))

keeping_created : Option PlacementPolicy → PlacementPolicy → PlacementPolicy
keeping_created none policy = policy
keeping_created (some old) policy = record policy { created_at = old.created_at }

-- What the update of `handleAdminPolicies` refuses.
unfoldable pub policy_refusal : PlacementPolicy → Database → Option Error
policy_refusal policy db =
    first_error
      (if has_key policy.profile_id db.profiles
        then none
        else some (profile_missing policy.profile_id))
      (validate_placement_policy policy)

unfoldable pub policy_written : PlacementPolicy → Time → Database → Database
unfolding keeping_created
policy_written policy now db =
    add_audit "placement.policy.upserted" "admin" policy.id now (record db {
      policies =
          insert policy.id (keeping_created (lookup policy.id db.policies) policy) db.policies;
    })

-- The update of `handleAdminPolicies`, with the policy that the request describes.
unfoldable pub upsert_policy : PlacementPolicy → Time → Database → Database × Option Error
upsert_policy policy now db =
    unless_error (policy_refusal policy db) db (policy_written policy now db)

abbrev pub live_task : String → Task → Bool
live_task id task = task.profile_id == id && (is_queued task.status || is_running task.status)

abbrev pub live_attempt : String → Attempt → Bool
live_attempt id attempt = attempt.profile_id == id && is_running attempt.status

unfoldable pub profile_has_live_work : Database → String → Bool
profile_has_live_work db id =
    any (live_task id) (values db.tasks) || any (live_attempt id) (values db.attempts)

unfoldable pub profile_removed : String → Time → Database → Database
profile_removed id now db = add_audit "profile.deleted" "admin" id now (record db {
  profiles = delete id db.profiles;
  policies = delete_where (λ (p : PlacementPolicy). p.profile_id == id) db.policies;
  assignments = delete_where (λ (a : PlacementAssignment). a.profile_id == id) db.assignments;
})

unfoldable pub delete_profile : String → Time → Database → Database × Option Error
delete_profile id now db =
    unless_error
      (if not (has_key id db.profiles)
        then some profile_not_found
        else if profile_has_live_work db id
        then some profile_in_use
        else none)
      db (profile_removed id now db)

unfoldable pub store_uploaded_artifact : Artifact → Time → Database → Database × Option Error
store_uploaded_artifact artifact now db = (
  add_audit "artifact.uploaded" "admin" artifact.id now
      (record db { artifacts = insert artifact.id artifact db.artifacts }),
  none,
)

-- `artifactDeleteBlocker`, as a test; Go leaves open which of the users its message names.
unfoldable pub artifact_delete_blocked : Database → String → Bool
artifact_delete_blocked db id =
    any (λ (p : WorkloadProfile). contains (profile_artifact_ids p) id) (values db.profiles)
    || any (λ (u : UpdateRecord). u.artifact_id == id) (values db.updates)

unfoldable pub delete_artifact_record : String → Time → Database → Database × Option Error
delete_artifact_record id now db =
    unless_error
      (if not (has_key id db.artifacts)
        then some artifact_is_gone
        else if artifact_delete_blocked db id
        then some (artifact_in_use id)
        else none)
      db
      (add_audit "artifact.deleted" "admin" id now
        (record db { artifacts = delete id db.artifacts }))

-- The nodes that an update names wait for it.
unfoldable pub mark_update_targets : List String → Dict Node → Dict Node
mark_update_targets [] nodes = nodes
mark_update_targets (id ∷ ids) nodes = mark_update_targets ids (
    insert id
      (record (get_or zero_node id nodes) { update_required = true; update_status = "pending" })
      nodes)

-- The update of `handleApplyWorkerUpdate`; the record's digest is normalized by the handler.
unfoldable pub apply_worker_update : UpdateRecord → Time → Database → Database × Option Error
apply_worker_update update now db =
    let artifact = get_or zero_artifact update.artifact_id db.artifacts in
    unless_error
      (if not (has_key update.artifact_id db.artifacts)
        then some (artifact_not_found update.artifact_id)
        else if not (normalize_sha256 artifact.sha256 == update.sha256)
        then some artifact_sha_mismatch
        else none)
      db
      (let written =
          add_audit "update.created" "admin" update.id now
            (record db { updates = insert update.id update db.updates }) in
        record written { nodes = mark_update_targets update.target_nodes written.nodes })
