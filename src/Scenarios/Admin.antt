-- ===== src/Scenarios/Admin.antt =====
-- The theorems on listings, the catalog, evictions, keys and tickets, applied.
use comrad.Prelude.{
  suc, ◌+◌, ◌≡◌, ◌↔◌, refl, String, true, false, not, ◌&&◌, List, [], ◌∷◌, Option, none, some,
  Int64, IsWord, arith, All, drop, length, ltb, ◌==◌, if◌then◌else◌,
}
use comrad.Prelude.Dict.{lookup, get_or, values, has_key}
use comrad.Prelude.Distinct.{unless}
use comrad.Prelude.Sets.{contains, append_unique}
use comrad.Prelude.Sort.{sort_stable, sort_insert}
use comrad.Prelude.Texts.{normalize_sha256, to_lower, trim_space}
use comrad.Types.{
  Task, TaskStatus, Artifact, WorkloadProfile, PlacementPolicy, PlacementAssignment, zero_artifact,
  zero_task, zero_node, zero_user, zero_intent, zero_profile, api_key_not_found,
}
use comrad.Store.{Database, empty_database}
use comrad.Profile.{
  normalize_variant, effective_profile_for_variant, profile_runtime_variants, profile_artifact_ids,
}
use comrad.Tasks.{
  filter_tasks, sorted_tasks, sorted_tasks_newest, task_matches_query, parse_task_list_query,
}
use comrad.Tasks.Pages.{read_pages, read_pages_all}
use comrad.Tasks.Summary.{summarize_tasks}
use comrad.Tasks.Counts.{Counts, IsSummaryOf, sum_totals, summarize_tasks-Counts}
use comrad.LlamaServer.{
  is_llama_cpp_adapter, contains_text, validate_llama_server_profile_args, llama_server_arg_name,
  is_managed_llama_server_arg,
}
use comrad.ProfileConfig.{validate_workload_profile_runtime, validate_variant_runtimes}
use comrad.Catalog.{
  upsert_profile, unless_error, profile_refusal, missing_artifact, store_uploaded_artifact,
  delete_profile, profile_has_live_work,
}
use comrad.Catalog.References.{
  IsWhole, opened, profile_upserted, artifact_uploaded, CatalogHistory-IsWhole,
}
use comrad.Catalog.Launch.{CanStart, llama_variants, upsert_profile-CanStart}
use comrad.Catalog.Removal.{delete_profile-cascade}
use comrad.Candidates.{contains_artifact_id}
use comrad.Eviction.{stale_artifact_evictions, cache_intent_record}
use comrad.Eviction.InUse.{is_desired, is_busy}
use comrad.Eviction.Targets.{evictable_of_nodes, stale_artifact_evictions_evictable}
use comrad.Eviction.Intents.{
  evicted, update_artifact_state, handle_evict_cache_action, sent, eviction_queued,
}
use comrad.Eviction.Settled.{handle_evict_cache_action-queued, update_artifact_state-evicted}
use comrad.ApiKeys.{
  IssueApiKeyRequest, api_key_view, new_issued_api_key, store_api_key, lookup_api_key,
  authenticate_client, revoke_api_key,
}
use comrad.ApiKeys.Issued.{new_issued_api_key-revoke}
use comrad.Tickets.{consume_ticket, issue_ticket, admin_state_ws_ticket_ttl}
use comrad.Tickets.Once.{consume_ticket_once}
use comrad.Scenarios.{base, site, gpu_node, queued_task, embed_profile, warm_policy}

-- A reading of numbers that knows one.
abbrev two_only : String → Option Int64
two_only s = if s == "2" then some 2 else none

two_only-IsWord : (text : String) (n : Int64) → two_only text ≡ some n → IsWord n
two_only-IsWord text n h = ground (arith, h)

abbrev two_a_page : String → String
two_a_page key = if key == "limit" then "2" else ""

abbrev failed_task : Task
failed_task = record zero_task { id = "t2"; status = TaskStatus.failed; created_at = 11 }

abbrev finished_task : Task
finished_task = record queued_task { id = "t3"; status = TaskStatus.completed; created_at = 12 }

abbrev three_tasks : List Task
three_tasks = queued_task ∷ failed_task ∷ finished_task ∷ []

abbrev busy_site : Database
busy_site = record site {
  tasks = ("t1", queued_task) ∷ ("t2", failed_task) ∷ ("t3", finished_task) ∷ [];
}

abbrev two_a_page_query : Database → List Task
two_a_page_query db =
    filter_tasks (sorted_tasks_newest db) (parse_task_list_query two_only two_a_page)

three_match : length (two_a_page_query busy_site) ≡ 3
unfolding filter_tasks sorted_tasks_newest sorted_tasks task_matches_query parse_task_list_query
    values sort_stable sort_insert
three_match = refl

read_pages_all_example :
    read_pages 4 busy_site (parse_task_list_query two_only two_a_page) 100
    ≡ drop (parse_task_list_query two_only two_a_page).offset (two_a_page_query busy_site)
read_pages_all_example =
    read_pages_all two_only two_only-IsWord two_a_page busy_site 100 4 (omega (arith, three_match))
      (omega (arith, three_match))

summarize_tasks-Counts_example :
    let summary = summarize_tasks three_tasks [] 100 in
    Counts summary.counts three_tasks
    × All (IsSummaryOf three_tasks) summary.by_user
    × (sum_totals summary.by_user ≡ 3)
summarize_tasks-Counts_example = summarize_tasks-Counts three_tasks [] 100

abbrev model : Artifact
model = record zero_artifact { id = "sha256:a"; sha256 = "sha256:a" }

abbrev chat_profile : WorkloadProfile
chat_profile = record zero_profile {
  id = "p2";
  runtime_adapter = "llama.cpp";
  artifacts = "sha256:a" ∷ [];
  runtime = record { llama_cpp = record { args = "--threads" ∷ "4" ∷ [] } };
}

abbrev shelf : Database
shelf = record base { artifacts = ("sha256:a", model) ∷ [] }

CatalogHistory-IsWhole_example :
    IsWhole (upsert_profile chat_profile 5 (store_uploaded_artifact model 3 empty_database).0).0
CatalogHistory-IsWhole_example =
    CatalogHistory-IsWhole _
      (profile_upserted chat_profile 5 _ (artifact_uploaded model 3 empty_database opened))

chat_profile_taken : (upsert_profile chat_profile 5 shelf).1 ≡ none
unfolding upsert_profile unless_error profile_refusal missing_artifact has_key lookup
    validate_workload_profile_runtime validate_variant_runtimes is_llama_cpp_adapter to_lower
    contains_text validate_llama_server_profile_args llama_server_arg_name
    is_managed_llama_server_arg contains profile_artifact_ids profile_runtime_variants
    normalize_variant append_unique
chat_profile_taken = refl

upsert_profile-CanStart_example :
    All
      (λ v. CanStart "model.gguf" [] 9000 (effective_profile_for_variant chat_profile v))
      (llama_variants chat_profile)
upsert_profile-CanStart_example =
    upsert_profile-CanStart "model.gguf" [] 9000 chat_profile 5 shelf chat_profile_taken

abbrev policied : Database
policied = record base {
  profiles = ("p1", embed_profile) ∷ [];
  policies = ("pol1", warm_policy) ∷ [];
}

delete_profile-cascade_example :
    let deletable = has_key "p1" policied.profiles && not (profile_has_live_work policied "p1") in
    let (after, err) = delete_profile "p1" 9 policied in
    ((err ≡ none) ↔ (deletable ≡ true))
    × (lookup "p1" after.profiles
        ≡ (if deletable && "p1" == "p1" then none else lookup "p1" policied.profiles))
    × (lookup "p1" after.policies
        ≡ unless
            (λ (p : PlacementPolicy). deletable && p.profile_id == "p1")
            (lookup "p1" policied.policies))
    × (lookup "p1" after.assignments
        ≡ unless
            (λ (a : PlacementAssignment). deletable && a.profile_id == "p1")
            (lookup "p1" policied.assignments))
    × (length after.audit
        ≡ (if deletable then suc (length policied.audit) else length policied.audit))
    × (after ≡ record policied {
      profiles = after.profiles;
      policies = after.policies;
      assignments = after.assignments;
      audit = after.audit;
    })
    × (after ≡ (if deletable then after else policied))
unfolding has_key lookup
delete_profile-cascade_example = delete_profile-cascade "p1" 9 policied (refl, tt) tt "p1"

abbrev stocked : Database
stocked = record base {
  nodes = ("n1", record gpu_node { cached_artifacts = "sha256:a" ∷ "b" ∷ [] }) ∷ [];
}

stale_artifact_evictions_evictable_example :
    stale_artifact_evictions stocked ≡ evictable_of_nodes stocked (values stocked.nodes)
unfolding values
stale_artifact_evictions_evictable_example = stale_artifact_evictions_evictable stocked (refl, tt)

handle_evict_cache_action-queued_example :
    ((handle_evict_cache_action sent "evict_1" "n1" "sha256:a" 5 stocked).1 ≡ eviction_queued) ↔ (
      (has_key "n1" stocked.nodes
        && contains_artifact_id (get_or zero_node "n1" stocked.nodes).cached_artifacts "sha256:a"
        && not (is_desired stocked "n1" "sha256:a")
        && not (is_busy stocked "n1" "sha256:a"))
      ≡ true)
unfolding normalize_sha256 to_lower trim_space
handle_evict_cache_action-queued_example =
    handle_evict_cache_action-queued "evict_1" "n1" "sha256:a" 5 stocked refl refl refl

update_artifact_state-evicted_example :
    let after = update_artifact_state "evict_2" "n1" (evicted "b" "" "") 6 stocked in
    (contains_artifact_id (get_or zero_node "n1" after.nodes).cached_artifacts "sha256:a" ≡ (
      contains_artifact_id (get_or zero_node "n1" stocked.nodes).cached_artifacts "sha256:a"
      && not (normalize_sha256 "b" == normalize_sha256 "sha256:a")))
    × (cache_intent_record after "n1" "b" ≡ zero_intent)
    × (get_or zero_node "n2" after.nodes ≡ (
        if "n1" == "n2"
        then get_or zero_node "n1" after.nodes
        else get_or zero_node "n2" stocked.nodes))
unfolding get_or lookup
update_artifact_state-evicted_example =
    update_artifact_state-evicted "evict_2" "n1" "b" "" "" "sha256:a" "n2" 6 stocked refl

-- A digest for the examples: the text itself.
abbrev plain : String → String
plain s = s

abbrev alice_request : IssueApiKeyRequest
alice_request = record { user_id = "alice"; name = "laptop" }

abbrev populated : Database
populated = record base { users = ("alice", record zero_user { id = "alice" }) ∷ [] }

new_issued_api_key-revoke_example :
    let key = new_issued_api_key plain "rgk_1" "key_1" alice_request 5 in
    let user = get_or zero_user "alice" populated.users in
    let (issued, err) = store_api_key key populated in
    let (revoked, err') = revoke_api_key "key_1" 9 issued in
    (err ≡ none)
    × (lookup_api_key plain "rgk_1" issued ≡ (some (api_key_view key, user), none))
    × ((authenticate_client plain "rgk_1" 9 issued).1 ≡ (if user.disabled then none else some user))
    × (err' ≡ none)
    × (lookup_api_key plain "rgk_1" revoked ≡ (none, some api_key_not_found))
    × ((authenticate_client plain "rgk_1" 9 revoked).1 ≡ none)
unfolding has_key lookup values
new_issued_api_key-revoke_example =
    new_issued_api_key-revoke plain "rgk_1" "key_1" alice_request 5 9 populated refl refl refl refl

consume_ticket_once_example :
    let (used, accepted) = consume_ticket plain "wst_1" 20 (issue_ticket plain "wst_1" 10 []) in
    (accepted ≡ ltb 20 (10 + admin_state_ws_ticket_ttl))
    × ((consume_ticket plain "wst_1" 21 used).1 ≡ false)
consume_ticket_once_example = consume_ticket_once plain "wst_1" 10 20 21 [] refl tt
