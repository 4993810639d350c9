-- ===== src/Catalog/References.antt =====
-- The references of the catalog: no profile or update names an artifact that is not registered, and
-- no policy a profile that is not there.
use comrad.Prelude.{
  ◌≡◌, refl, subst, sym, String, Bool, true, false, List, [], ◌∷◌, Option, none, some, Int64, add64,
  arith, any, All, All-map, ◌==◌, inl, inr, Option-cases, eq_iff,
}
use comrad.Prelude.Dict.{
  Dict, lookup, get_or, has_key, insert, delete, delete_where, values, has_key-insert,
  has_key-delete, All-insert, All-delete, All-delete_where, lookup-All,
}
use comrad.Prelude.Sets.{contains}
use comrad.Types.{Time, Artifact, UpdateRecord, WorkloadProfile, PlacementPolicy, Error}
use comrad.Store.{Database, empty_database}
use comrad.Profile.{profile_artifact_ids}
use comrad.Profile.Variants.{revised, profile_artifact_ids-revised}
use comrad.ProfileConfig.{first_error-none}
use comrad.Admin.{record_worker_update_telemetry, telemetry_written, updated_record}
use comrad.Catalog.{
  missing_artifact, profile_written, unless_error, profile_refusal, upsert_profile,
  set_profile_compute_cost, upsert_policy, policy_refusal, policy_written, keeping_created,
  profile_removed, delete_profile, store_uploaded_artifact, artifact_delete_blocked,
  delete_artifact_record, apply_worker_update,
}

-- The ids are registered.
abbrev pub Registered : Dict Artifact → List String → Type 0
Registered artifacts ids = All (λ id. has_key id artifacts ≡ true) ids

abbrev pub IsWhole : Database → Type 0
IsWhole db =
    All (λ (p : WorkloadProfile). Registered db.artifacts (profile_artifact_ids p))
      (values db.profiles)
    × All (λ (p : PlacementPolicy). has_key p.profile_id db.profiles ≡ true) (values db.policies)
    × All (λ (u : UpdateRecord). has_key u.artifact_id db.artifacts ≡ true) (values db.updates)

missing_artifact-Registered :
    (artifacts : Dict Artifact) (ids : List String)
    → missing_artifact artifacts ids ≡ none
    → Registered artifacts ids
unfolding missing_artifact
missing_artifact-Registered artifacts [] h = tt
missing_artifact-Registered artifacts (id ∷ ids) h =
    ground (arith, missing_artifact-Registered artifacts ids)

Registered-insert :
    (id : String) (a : Artifact) (artifacts : Dict Artifact) (ids : List String)
    → Registered artifacts ids
    → Registered (insert id a artifacts) ids
Registered-insert id a artifacts ids =
    All-map (λ i. has_key i artifacts ≡ true) (λ i. has_key i (insert id a artifacts) ≡ true) ids
      (λ i h. has_key-insert id i a artifacts h)

Registered-delete :
    (gone : String) (artifacts : Dict Artifact) (ids : List String)
    → contains ids gone ≡ false
    → Registered artifacts ids
    → Registered (delete gone artifacts) ids
unfolding contains
Registered-delete gone artifacts [] other h = tt
Registered-delete gone artifacts (id ∷ ids) other h = ground (
  arith,
  eq_iff id gone,
  eq_iff gone id,
  has_key-delete gone id artifacts,
  Registered-delete gone artifacts ids,
)

-- What no value satisfies, each one fails.
any-false {ℓ} :
    {A : Type ℓ} (p : A → Bool) (xs : List A) → any p xs ≡ false → All (λ x. p x ≡ false) xs
any-false p [] h = tt
any-false p (x ∷ xs) h = ground (arith, any-false p xs)

-- A step that leaves the catalog as it is, or writes it.
unless_error-IsWhole :
    (refusal : Option Error) (db written : Database)
    → IsWhole db
    → (refusal ≡ none → IsWhole written)
    → IsWhole (unless_error refusal db written).0
unfolding unless_error
unless_error-IsWhole none db written w h = h refl
unless_error-IsWhole (some e) db written w h = w

-- A revision of a profile whose artifacts are registered takes its place.
revised-IsWhole :
    (key : String) (p : WorkloadProfile) (version : Int64) (created : Time) (cost : Int64)
    (db : Database)
    → Registered db.artifacts (profile_artifact_ids p)
    → IsWhole db
    → IsWhole (record db { profiles = insert key (revised version created cost p) db.profiles })
revised-IsWhole key p version created cost db registered w =
    let next = revised version created cost p in
    (
      All-insert (λ (q : WorkloadProfile). Registered db.artifacts (profile_artifact_ids q)) key
          next db.profiles
          (subst (Registered db.artifacts)
            (sym (profile_artifact_ids-revised version created cost p)) registered)
          w.0,
      All-map (λ (q : PlacementPolicy). has_key q.profile_id db.profiles ≡ true)
          (λ (q : PlacementPolicy). has_key q.profile_id (insert key next db.profiles) ≡ true)
          (values db.policies) (λ q h. has_key-insert key q.profile_id next db.profiles h) w.1,
      w.2,
    )

upsert_profile-IsWhole :
    (profile : WorkloadProfile) (now : Time) (db : Database)
    → IsWhole db
    → IsWhole (upsert_profile profile now db).0
unfolding upsert_profile profile_written profile_refusal
upsert_profile-IsWhole profile now db w =
    unless_error-IsWhole (profile_refusal profile db) db (profile_written profile now db) w
      (λ accepted.
        let known = (first_error-none _ _ (first_error-none _ _ accepted).1).1 in
        let registered =
          missing_artifact-Registered db.artifacts (profile_artifact_ids profile) known in
        elim (Option-cases (lookup profile.id db.profiles)) [
          | inl e ↦ rw e (
              revised-IsWhole profile.id profile _ profile.created_at profile.compute_cost db
                registered w)
          | inr (old, e) ↦ rw e (
              revised-IsWhole profile.id profile _ old.created_at profile.compute_cost db registered
                w)
        ])

set_profile_compute_cost-IsWhole :
    (id : String) (cost : Int64) (now : Time) (db : Database)
    → IsWhole db
    → IsWhole (set_profile_compute_cost id cost now db).0
unfolding set_profile_compute_cost get_or has_key
set_profile_compute_cost-IsWhole id cost now db w = unless_error-IsWhole _ db _ w (λ accepted.
    elim (Option-cases (lookup id db.profiles)) [
      | inl e ↦ absurd (ground (arith, e, accepted))
      | inr (old, e) ↦ rw e (
          revised-IsWhole old.id old (add64 old.version 1) old.created_at cost db
            (lookup-All (λ (q : WorkloadProfile). Registered db.artifacts (profile_artifact_ids q))
              id old db.profiles w.0 e)
            w)
    ])

upsert_policy-IsWhole :
    (policy : PlacementPolicy) (now : Time) (db : Database)
    → IsWhole db
    → IsWhole (upsert_policy policy now db).0
unfolding upsert_policy policy_refusal policy_written keeping_created
upsert_policy-IsWhole policy now db w =
    let whole = λ (q : PlacementPolicy). has_key q.profile_id db.profiles ≡ true in
    unless_error-IsWhole (policy_refusal policy db) db (policy_written policy now db) w (λ accepted.
      let known : has_key policy.profile_id db.profiles ≡ true = ground (arith, accepted) in
      (
        w.0,
        elim (Option-cases (lookup policy.id db.policies)) [
          | inl e ↦ rw e (All-insert whole policy.id policy db.policies known w.1)
          | inr (old, e) ↦ rw e (
              All-insert whole policy.id (record policy { created_at = old.created_at }) db.policies
                known w.1)
        ],
        w.2,
      ))

delete_profile-IsWhole :
    (id : String) (now : Time) (db : Database) → IsWhole db → IsWhole (delete_profile id now db).0
unfolding delete_profile profile_removed
delete_profile-IsWhole id now db w =
    let names_it = λ (q : PlacementPolicy). q.profile_id == id in
    unless_error-IsWhole _ db _ w (λ accepted. (
      All-delete (λ (q : WorkloadProfile). Registered db.artifacts (profile_artifact_ids q)) id
          db.profiles w.0,
      All-map
          (λ (q : PlacementPolicy).
            (has_key q.profile_id db.profiles ≡ true) × (names_it q ≡ false))
          (λ (q : PlacementPolicy). has_key q.profile_id (delete id db.profiles) ≡ true)
          (values (delete_where names_it db.policies))
          (λ q h.
            has_key-delete id q.profile_id db.profiles
              (ground (arith, h.1, eq_iff q.profile_id id, eq_iff id q.profile_id)) h.0)
          (All-delete_where (λ (q : PlacementPolicy). has_key q.profile_id db.profiles ≡ true)
            names_it db.policies w.1),
      w.2,
    ))

store_artifact-IsWhole :
    (key : String) (artifact : Artifact) (db : Database)
    → IsWhole db
    → IsWhole (record db { artifacts = insert key artifact db.artifacts })
store_artifact-IsWhole key artifact db w = (
  All-map (λ (q : WorkloadProfile). Registered db.artifacts (profile_artifact_ids q))
      (λ (q : WorkloadProfile).
        Registered (insert key artifact db.artifacts) (profile_artifact_ids q))
      (values db.profiles)
      (λ q. Registered-insert key artifact db.artifacts (profile_artifact_ids q)) w.0,
  w.1,
  All-map (λ (u : UpdateRecord). has_key u.artifact_id db.artifacts ≡ true)
      (λ (u : UpdateRecord). has_key u.artifact_id (insert key artifact db.artifacts) ≡ true)
      (values db.updates) (λ u h. has_key-insert key u.artifact_id artifact db.artifacts h) w.2,
)

-- Two facts on each item are one on it.
All-both {ℓ} :
    {A : Type ℓ} (P Q : A → Type 0) (xs : List A) → All P xs → All Q xs → All (λ x. P x × Q x) xs
All-both P Q [] p q = tt
All-both P Q (x ∷ xs) p q = ((p.0, q.0), All-both P Q xs p.1 q.1)

delete_artifact_record-IsWhole :
    (id : String) (now : Time) (db : Database)
    → IsWhole db
    → IsWhole (delete_artifact_record id now db).0
unfolding delete_artifact_record artifact_delete_blocked
delete_artifact_record-IsWhole id now db w =
    let of_profile = λ (p : WorkloadProfile). contains (profile_artifact_ids p) id in
    let of_update = λ (u : UpdateRecord). u.artifact_id == id in
    let registered = λ (q : WorkloadProfile). Registered db.artifacts (profile_artifact_ids q) in
    let known = λ (u : UpdateRecord). has_key u.artifact_id db.artifacts ≡ true in
    unless_error-IsWhole _ db _ w (λ accepted.
      let no_profile : any of_profile (values db.profiles) ≡ false = ground (arith, accepted) in
      let no_update : any of_update (values db.updates) ≡ false = ground (arith, accepted) in
      (
        All-map (λ (q : WorkloadProfile). registered q × (of_profile q ≡ false))
            (λ (q : WorkloadProfile). Registered (delete id db.artifacts) (profile_artifact_ids q))
            (values db.profiles)
            (λ q h. Registered-delete id db.artifacts (profile_artifact_ids q) h.1 h.0)
            (All-both registered (λ q. of_profile q ≡ false) (values db.profiles) w.0
              (any-false of_profile (values db.profiles) no_profile)),
        w.1,
        All-map (λ (u : UpdateRecord). known u × (of_update u ≡ false))
            (λ (u : UpdateRecord). has_key u.artifact_id (delete id db.artifacts) ≡ true)
            (values db.updates)
            (λ u h.
              has_key-delete id u.artifact_id db.artifacts
                (ground (arith, h.1, eq_iff u.artifact_id id, eq_iff id u.artifact_id)) h.0)
            (All-both known (λ u. of_update u ≡ false) (values db.updates) w.2
              (any-false of_update (values db.updates) no_update)),
      ))

apply_worker_update-IsWhole :
    (update : UpdateRecord) (now : Time) (db : Database)
    → IsWhole db
    → IsWhole (apply_worker_update update now db).0
unfolding apply_worker_update
apply_worker_update-IsWhole update now db w = unless_error-IsWhole _ db _ w (λ accepted.
    let known : has_key update.artifact_id db.artifacts ≡ true = ground (arith, accepted) in
    (
      w.0,
      w.1,
      All-insert (λ (u : UpdateRecord). has_key u.artifact_id db.artifacts ≡ true) update.id update
          db.updates known w.2,
    ))

-- What a worker says of an update leaves the artifact that the update names.
record_worker_update_telemetry-IsWhole :
    (node_id update_id status detail : String) (now : Time) (db : Database)
    → IsWhole db
    → IsWhole (record_worker_update_telemetry node_id update_id status detail now db)
unfolding record_worker_update_telemetry telemetry_written updated_record
record_worker_update_telemetry-IsWhole node_id update_id status detail now db w =
    let known = λ (u : UpdateRecord). has_key u.artifact_id db.artifacts ≡ true in
    elim (Option-cases (lookup update_id db.updates)) [
      | inl e ↦ rw e w
      | inr (u, e) ↦ rw e (
        w.0,
        w.1,
        All-insert known update_id (updated_record status detail u) db.updates
            (lookup-All known update_id u db.updates w.2 e) w.2,
      )
    ]

-- The databases that lead from the fresh one to the present: by the operations that write artifacts,
-- profiles, policies or updates, and by any change of the rest. A stored artifact may be written again
-- under its key, as when its torrent is made.
pub data CatalogHistory : Database → Type 0 where
  opened : CatalogHistory empty_database
  profile_upserted :
      (profile : WorkloadProfile) (now : Time) (db : Database)
      → CatalogHistory db
      → CatalogHistory (upsert_profile profile now db).0
  price_set :
      (id : String) (cost : Int64) (now : Time) (db : Database)
      → CatalogHistory db
      → CatalogHistory (set_profile_compute_cost id cost now db).0
  policy_upserted :
      (policy : PlacementPolicy) (now : Time) (db : Database)
      → CatalogHistory db
      → CatalogHistory (upsert_policy policy now db).0
  profile_deleted :
      (id : String) (now : Time) (db : Database)
      → CatalogHistory db
      → CatalogHistory (delete_profile id now db).0
  artifact_uploaded :
      (artifact : Artifact) (now : Time) (db : Database)
      → CatalogHistory db
      → CatalogHistory (store_uploaded_artifact artifact now db).0
  artifact_written :
      (key : String) (artifact : Artifact) (db : Database)
      → CatalogHistory db
      → CatalogHistory (record db { artifacts = insert key artifact db.artifacts })
  artifact_deleted :
      (id : String) (now : Time) (db : Database)
      → CatalogHistory db
      → CatalogHistory (delete_artifact_record id now db).0
  update_applied :
      (update : UpdateRecord) (now : Time) (db : Database)
      → CatalogHistory db
      → CatalogHistory (apply_worker_update update now db).0
  telemetry_recorded :
      (node_id update_id status detail : String) (now : Time) (db : Database)
      → CatalogHistory db
      → CatalogHistory (record_worker_update_telemetry node_id update_id status detail now db)
  elsewhere :
      (before after : Database)
      → CatalogHistory before
      → after.artifacts ≡ before.artifacts
      → after.profiles ≡ before.profiles
      → after.policies ≡ before.policies
      → after.updates ≡ before.updates
      → CatalogHistory after

-- After any history from the fresh database, whatever an administrator does and a worker says of an
-- update, and with errors too: every artifact that a profile or an update names is registered, and every
-- policy's profile exists.
pub CatalogHistory-IsWhole : (db : Database) → CatalogHistory db → IsWhole db
unfolding store_uploaded_artifact empty_database values
CatalogHistory-IsWhole _ opened = (tt, tt, tt)
CatalogHistory-IsWhole _ (profile_upserted p now db h) =
    upsert_profile-IsWhole p now db (CatalogHistory-IsWhole db h)
CatalogHistory-IsWhole _ (price_set id cost now db h) =
    set_profile_compute_cost-IsWhole id cost now db (CatalogHistory-IsWhole db h)
CatalogHistory-IsWhole _ (policy_upserted p now db h) =
    upsert_policy-IsWhole p now db (CatalogHistory-IsWhole db h)
CatalogHistory-IsWhole _ (profile_deleted id now db h) =
    delete_profile-IsWhole id now db (CatalogHistory-IsWhole db h)
CatalogHistory-IsWhole _ (artifact_uploaded a now db h) =
    store_artifact-IsWhole a.id a db (CatalogHistory-IsWhole db h)
CatalogHistory-IsWhole _ (artifact_written key a db h) =
    store_artifact-IsWhole key a db (CatalogHistory-IsWhole db h)
CatalogHistory-IsWhole _ (artifact_deleted id now db h) =
    delete_artifact_record-IsWhole id now db (CatalogHistory-IsWhole db h)
CatalogHistory-IsWhole _ (update_applied u now db h) =
    apply_worker_update-IsWhole u now db (CatalogHistory-IsWhole db h)
CatalogHistory-IsWhole _ (telemetry_recorded node_id update_id status detail now db h) =
    record_worker_update_telemetry-IsWhole node_id update_id status detail now db
      (CatalogHistory-IsWhole db h)
CatalogHistory-IsWhole _ (elsewhere before after h a p q u) =
    let whole = CatalogHistory-IsWhole before h in rw (a, p, q, u) whole
