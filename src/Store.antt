-- ===== src/Store.antt =====
-- internal/comrad/store.go: the database and the store that guards it. A nil map reads as an empty
-- one, so `ensureMaps` changes nothing here. An operation on the database returns the database as it
-- leaves it, in the error case too.
pub mod JsonFile
pub mod Durability
use comrad.Prelude.{
  ◌≡◌, ℕ, String, Bool, true, List, [], ◌∷◌, ◌++◌, Option, none, some, ltb, eqb, if◌then◌else◌,
}
use comrad.Prelude.Dict.{Dict, values, map_values}
use comrad.Prelude.Sort.{sort_stable}
use comrad.Prelude.{text_ltb}
use comrad.Types.{
  Node, Slot, Artifact, ArtifactEvictionRecord, CacheIntentRecord, WorkloadProfile, PlacementPolicy,
  PlacementAssignment, Task, Attempt, ComputeReport, User, ApiKey, ComputeLedgerEntry, AuditEvent,
  UpdateRecord, Time, Error, schema_is_newer,
}

pub record GlobalSettings : Type 0 where
  pub p2p_enabled : Bool

pub record Database : Type 0 where
  pub schema_version : ℕ
  pub migrations : List ℕ
  pub settings : GlobalSettings
  pub nodes : Dict Node
  pub slots : Dict Slot
  pub artifacts : Dict Artifact
  pub artifact_evictions : Dict ArtifactEvictionRecord
  pub cache_intents : Dict CacheIntentRecord
  pub profiles : Dict WorkloadProfile
  pub policies : Dict PlacementPolicy
  pub assignments : Dict PlacementAssignment
  pub tasks : Dict Task
  pub attempts : Dict Attempt
  pub reports : Dict ComputeReport
  pub users : Dict User
  pub api_keys : Dict ApiKey
  pub node_token_hashes : Dict String
  pub updates : Dict UpdateRecord
  pub compute_ledger : List ComputeLedgerEntry
  pub audit : List AuditEvent

abbrev pub current_schema_version : ℕ
current_schema_version = 3

unfoldable pub empty_database : Database
empty_database = record {
  schema_version = current_schema_version;
  migrations = current_schema_version ∷ [];
  settings = record { p2p_enabled = true };
  nodes = [];
  slots = [];
  artifacts = [];
  artifact_evictions = [];
  cache_intents = [];
  profiles = [];
  policies = [];
  assignments = [];
  tasks = [];
  attempts = [];
  reports = [];
  users = [];
  api_keys = [];
  node_token_hashes = [];
  updates = [];
  compute_ledger = [];
  audit = [];
}

-- `append(db.Audit, …)`; the event's random id and its metadata are left out.
abbrev pub add_audit : String → String → String → Time → Database → Database
add_audit kind actor subject now db = record db {
  audit =
      db.audit ++ record { kind = kind; actor = actor; subject = subject; created_at = now } ∷ [];
}

-- What a `store.Update` callback does: the database that it leaves, and its error.
abbrev pub Change : Type 0
Change = Database → Database × Option Error

-- What of a database outlives the process: the session of a node is not saved (`json:"-"`).
unfoldable pub persisted : Database → Database
persisted db = record db { nodes = map_values (λ n. record n { connected_session = "" }) db.nodes }

-- A backend of the store: its contents, what it loads and what a save leaves.
pub record StoreBackend : Type 1 where
  pub Contents : Type 0
  pub load : Contents → Option Database × Option Error
  pub save : Contents → Database → Contents × Option Error
  -- What is saved without an error, and outlives the process, is what the next load returns.
  pub load-save :
      (c : Contents) (db : Database)
      → (save c db).1 ≡ none
      → load (save c db).0 ≡ (some (persisted db), none)

module _ (b : StoreBackend) where
  open b use {Contents, load, save}

  pub record Store : Type 0 where
    pub db : Database
    pub contents : Contents

  -- `saveLocked`, once the database is `db`.
  save_locked : Database → Contents → Store × Option Error
  save_locked db c = let (c', e) = save c db in (record { db = db; contents = c' }, e)

  -- `Update`: a callback that fails is not saved, and what it wrote before stays in memory.
  saved_unless_failed : Contents → Database × Option Error → Store × Option Error
  unfolding save_locked
  saved_unless_failed c (db, some e) = (record { db = db; contents = c }, some e)
  saved_unless_failed c (db, none) = save_locked db c

  unfoldable pub update : Change → Store → Store × Option Error
  unfolding saved_unless_failed
  update f s = saved_unless_failed s.contents (f s.db)

  -- The store of a start that went well.
  opened : Store × Option Error → Option Store × Option Error
  opened (s, none) = (some s, none)
  opened (s, some e) = (none, some e)

  -- What a migration writes; a migration's name is its number.
  migrated : Time → Database → Database
  migrated now db = add_audit "migration.applied" "system" "schema" now (record db {
    settings = if ltb db.schema_version 3 then record { p2p_enabled = true } else db.settings;
    schema_version = current_schema_version;
    migrations = db.migrations ++ current_schema_version ∷ [];
  })

  -- `migrateLocked`.
  migrate : Time → Database → Contents → Option Store × Option Error
  unfolding opened migrated save_locked
  migrate now db c =
      if ltb current_schema_version db.schema_version
      then (none, some schema_is_newer)
      else if eqb db.schema_version current_schema_version
      then (some (record { db = db; contents = c }), none)
      else opened (save_locked (migrated now db) c)

  -- `openStoreWithBackend`: a fresh database is saved at once, an old one is migrated.
  open_loaded : Time → Contents → Option Database × Option Error → Option Store × Option Error
  unfolding migrate opened save_locked
  open_loaded now c (found, some e) = (none, some e)
  open_loaded now c (none, none) =
      opened (save_locked (add_audit "migration.applied" "system" "schema" now empty_database) c)
  open_loaded now c (some db, none) = migrate now db c

  unfoldable pub open_store : Time → Contents → Option Store × Option Error
  unfolding open_loaded
  open_store now c = open_loaded now c (load c)
